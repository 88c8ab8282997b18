-- ===== src/Fleet/Store/Deleting.antt =====
-- What a deletion leaves behind.
