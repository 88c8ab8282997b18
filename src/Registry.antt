-- ===== src/Registry.antt =====
-- internal/registry/registry.go: the worktrees that are registered, in a file under a lock.
pub mod Entries
pub mod Changes
pub mod Updates
pub mod Calls
