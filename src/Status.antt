-- ===== src/Status.antt =====
-- internal/status: how the state of a worktree is read from `git status`.
pub mod Porcelain
pub mod Changes
