-- ===== src/PrunePolicy/Types.antt =====
-- internal/prunepolicy/types.go. A value of the evidence is kept as what it prints.
pub mod Summaries
mod Examples
use kwt.Common.{
  ℕ, zero, suc, ◌+◌, Bool, true, false, List, [], ◌∷◌, Text, codes, if◌then◌else◌, length,
}

pub data Reason : Type 0 where
  removed would_remove missing_generation doctor_required dirty_worktree eligible_merged : Reason
  head_advanced_after_pr no_associated_pr pr_not_merged source_repository_unavailable : Reason
  source_repository_mismatch source_branch_mismatch ambiguous_pr_match : Reason
  authentication_failed network_failure provider_failure generation_changed : Reason
  expiration_policy_changed head_changed repository_changed main_worktree locked_worktree : Reason
  path_unavailable removal_failed cleanup_incomplete would_require_confirmation : Reason
  confirmation_required confirmation_declined protected_session_live : Reason
  protected_endpoint_incomplete registration_changed : Reason

abbrev pub reason_text : Reason → Text
reason_text removed = codes "removed"
reason_text would_remove = codes "would_remove"
reason_text missing_generation = codes "missing_generation"
reason_text doctor_required = codes "doctor_required"
reason_text dirty_worktree = codes "dirty_worktree"
reason_text eligible_merged = codes "eligible_merged"
reason_text head_advanced_after_pr = codes "head_advanced_after_pr"
reason_text no_associated_pr = codes "no_associated_pr"
reason_text pr_not_merged = codes "pr_not_merged"
reason_text source_repository_unavailable = codes "source_repository_unavailable"
reason_text source_repository_mismatch = codes "source_repository_mismatch"
reason_text source_branch_mismatch = codes "source_branch_mismatch"
reason_text ambiguous_pr_match = codes "ambiguous_pr_match"
reason_text authentication_failed = codes "authentication_failed"
reason_text network_failure = codes "network_failure"
reason_text provider_failure = codes "provider_failure"
reason_text generation_changed = codes "generation_changed"
reason_text expiration_policy_changed = codes "expiration_policy_changed"
reason_text head_changed = codes "head_changed"
reason_text repository_changed = codes "repository_identity_changed"
reason_text main_worktree = codes "main_worktree"
reason_text locked_worktree = codes "locked_worktree"
reason_text path_unavailable = codes "path_unavailable"
reason_text removal_failed = codes "removal_failed"
reason_text cleanup_incomplete = codes "cleanup_incomplete"
reason_text would_require_confirmation = codes "would_require_confirmation"
reason_text confirmation_required = codes "confirmation_required"
reason_text confirmation_declined = codes "confirmation_declined"
reason_text protected_session_live = codes "protected_session_live"
reason_text protected_endpoint_incomplete = codes "protected_endpoint_inventory_incomplete"
reason_text registration_changed = codes "registration_changed"

pub data EvidenceValue : Type 0 where
  text : Text → EvidenceValue
  number : ℕ → EvidenceValue
  flag : Bool → EvidenceValue

-- The keys of the evidence.
pub data EvidenceKey : Type 0 where
  head_sha match_count provider_error_code retryable pr_number pr_url pr_head_sha : EvidenceKey

pub record Outcome : Type 0 where
  pub path : Text
  pub branch : Text
  pub reason : Reason
  pub message : Text
  pub remediation : Text
  -- the map, the newest entry first
  pub evidence : List (EvidenceKey × EvidenceValue)

pub record Summary : Type 0 where
  pub candidates : ℕ
  pub removed : ℕ
  pub would_remove : ℕ
  pub skipped : ℕ

pub record Report : Type 0 where
  pub schema_version : ℕ
  pub command : Text
  pub policy : Text
  pub dry_run : Bool
  pub outcomes : List Outcome
  pub summary : Summary

count_outcome : Reason → Summary → Summary
count_outcome removed s = record s { removed = s.removed + 1 }
count_outcome would_remove s = record s { would_remove = s.would_remove + 1 }
count_outcome would_require_confirmation s = record s { would_remove = s.would_remove + 1 }
count_outcome _ s = record s { skipped = s.skipped + 1 }

count_outcomes : List Outcome → Summary → Summary
unfolding count_outcome
count_outcomes [] s = s
count_outcomes (o ∷ os) s = count_outcomes os (count_outcome o.reason s)

unfoldable pub finalize : Report → Report
unfolding count_outcomes
finalize r = record r {
  summary =
      count_outcomes r.outcomes
        (record { candidates = length r.outcomes; removed = 0; would_remove = 0; skipped = 0 });
}

-- The reasons with which a run still succeeds.
abbrev pub is_success : Reason → Bool
is_success removed = true
is_success would_remove = true
is_success would_require_confirmation = true
is_success confirmation_declined = true
is_success no_associated_pr = true
is_success pr_not_merged = true
is_success _ = false

exit_code_of : List Outcome → ℕ
exit_code_of [] = 0
exit_code_of (o ∷ os) = if is_success o.reason then exit_code_of os else 1

unfoldable pub exit_code : Report → ℕ
unfolding exit_code_of
exit_code r = exit_code_of r.outcomes
