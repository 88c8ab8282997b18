-- ===== src/Url.antt =====
-- internal/url: which strings name a repository that can be shared between hosts, how the parts of
-- a remote's address are read, how identities are compared, and which paths they are kept under.
pub mod Authority
pub mod Repository
pub mod Identity
pub mod Filesystem
