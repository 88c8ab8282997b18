-- ===== src/PrunePolicy.antt =====
-- internal/prunepolicy: which worktrees `kwt prune --merged` may take away, with the pull-request
-- types that the policy reads.
pub mod Types
pub mod PullRequest
pub mod Merged
