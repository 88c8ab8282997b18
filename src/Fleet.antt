-- ===== src/Fleet.antt =====
-- internal/fleet: the manifests that hosts publish, and the hub's store of them.
pub mod Types
pub mod Utf8
pub mod HostId
pub mod Validation
pub mod Warnings
pub mod Grouping
pub mod Store
