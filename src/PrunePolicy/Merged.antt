-- ===== src/PrunePolicy/Merged.antt =====
-- internal/prunepolicy/merged.go. The provider is the code behind `MergedProvider`, a network
-- service: its answers are functions of what it is asked. `canonical_path` and `is_windows` are what
-- internal/utils/utils.go finds out from the file system and the platform.
pub mod Repositories
pub mod Outcomes
pub mod Search
pub mod Eligible
mod Examples
use Repositories.{
  is_valid_generation, github_repository, path_key, provenance_repository_matches,
  provenance_pull_request_id_matches, provenance_source_repository_matches, World,
}
use Outcomes.{
  MergedCandidate, merged_outcome, mismatch_message, pull_request_outcome, ambiguous_outcome,
  provider_failure_outcome,
}
use Search.{exact_ordinary_matches, diagnose_source_head}
use kwt.Common.{
  ℕ, zero, suc, ◌+◌, ◌<◌, ◌≡◌, Bool, true, false, ◌&&◌, ◌||◌, not, Option, none, some, List, [],
  ◌∷◌, ◌++◌, map, Text, codes, if◌then◌else◌, ◌=?◌, ◌==◌, ltb, length, trim_space, equal_fold,
  Result, ok, err, ◌>>=◌, ◌>>◌, require,
}
use kwt.PrunePolicy.Types.{
  Reason, main_worktree, missing_generation, repository_changed, doctor_required,
  source_repository_unavailable, source_repository_mismatch, source_branch_mismatch,
  head_advanced_after_pr, eligible_merged, pr_not_merged, ambiguous_pr_match, no_associated_pr,
  Outcome, EvidenceKey, EvidenceValue, text, number, flag, head_sha, match_count,
  provider_error_code, retryable, pr_number, pr_url, pr_head_sha, authentication_failed,
  network_failure, provider_failure, reason_text,
}
use kwt.PrunePolicy.PullRequest
use kwt.PrunePolicy.PullRequest.{
  ProviderError, ErrorCode, typed, untyped, code_text, Repository, PullRequest, Provenance,
  equal_repository_identity,
}

pub record MergedProvider : Type 0 where
  pub resolve_repository : Repository → Result ProviderError Repository
  pub get : Repository → ℕ → Result ProviderError PullRequest
  pub list_for_commit : Repository → Text → Result ProviderError (List PullRequest)
  pub list_by_head : Repository → Text → Text → Result ProviderError (List PullRequest)

-- An early `return` is an `err`.
abbrev pub settle : Result Outcome Outcome → Outcome
settle (ok o) = o
settle (err o) = o

abbrev pub or_return {ℓ} : {E A : Type ℓ} → Option A → E → Result E A
or_return none e = err e
or_return (some a) e = ok a

pub or_failure : {A : Type 0} → MergedCandidate → Result ProviderError A → Result Outcome A
or_failure c (ok a) = ok a
or_failure c (err e) = err (provider_failure_outcome c e)

abbrev is_blank : Text → Bool
is_blank s = length (trim_space s) == 0

-- The name of the recorded pull request and its workspace, against the candidate.
provenance_matches : World → MergedCandidate → Text → Provenance → Bool
provenance_matches w c observed_project r = not (
    not (equal_fold r.provider (codes "github"))
    || r.number == 0
    || not (provenance_pull_request_id_matches r)
    || not (provenance_repository_matches r observed_project)
    || not (provenance_repository_matches r r.project.identity)
    || not (provenance_repository_matches r r.workspace.repository)
    || is_blank c.main_repository_path
    || is_blank r.project.path
    || not (path_key w r.project.path =? path_key w c.main_repository_path)
    || not (path_key w r.workspace.path =? path_key w c.path)
    || not (r.workspace.branch =? c.branch)
    || (not (length r.workspace.generation == 0) && not (r.workspace.generation =? c.generation)))

pub evaluate_imported_merged :
    MergedProvider → World → MergedCandidate → Repository → Text → Text → Provenance → Outcome
unfolding or_failure
evaluate_imported_merged p w c base observed_project observed_source r = settle (do
  require (provenance_matches w c observed_project r) (
      merged_outcome c doctor_required
        (codes "pull-request provenance does not match the live workspace"))
  require (provenance_source_repository_matches r observed_source)
      (merged_outcome c source_repository_mismatch (mismatch_message source_repository_mismatch))
  require (r.source_branch =? c.source_branch)
      (merged_outcome c source_branch_mismatch (mismatch_message source_branch_mismatch))
  require (r.head_sha =? c.head)
      (merged_outcome c head_advanced_after_pr (mismatch_message head_advanced_after_pr))
  pr ← or_failure c (p.get base r.number)
  require
      (pr.number == r.number
        && equal_repository_identity pr.repository.identity c.project_repository)
      (merged_outcome c repository_changed
        (codes "provider pull request does not match the recorded repository"))
  require (equal_fold pr.provider r.provider) (
      merged_outcome c doctor_required
        (codes "provider pull request does not match recorded provenance"))
  require (equal_repository_identity c.source_repository pr.source.repository.identity)
      (merged_outcome c source_repository_mismatch (mismatch_message source_repository_mismatch))
  require (pr.source.name =? r.source_branch)
      (merged_outcome c source_branch_mismatch (mismatch_message source_branch_mismatch))
  require (pr.pr_head_sha =? r.head_sha)
      (merged_outcome c head_advanced_after_pr (mismatch_message head_advanced_after_pr))
  ok (pull_request_outcome c pr))

-- What follows the provider's answer for the head commit: one exact match, several, or none.
pub exact_outcome : MergedCandidate → List PullRequest → Option Reason → Result Outcome (Unit {0})
exact_outcome c (pr ∷ []) mismatch = err (pull_request_outcome c pr)
exact_outcome c [] none = ok tt
exact_outcome c [] (some reason) = err (merged_outcome c reason (mismatch_message reason))
exact_outcome c (a ∷ b ∷ prs) mismatch = err (ambiguous_outcome c (a ∷ b ∷ prs))

-- The candidate without provenance, in its resolved repositories.
pub evaluate_ordinary_merged : MergedProvider → MergedCandidate → Repository → Repository → Outcome
unfolding or_failure
evaluate_ordinary_merged p c base source = settle (do
  prs ← or_failure c (p.list_for_commit base c.head)
  let found = exact_ordinary_matches c prs
  exact_outcome c found.0 found.1
  by_head ← or_failure c (p.list_by_head base source.owner c.source_branch)
  ok (diagnose_source_head c by_head))

-- The branch on `candidate.Provenance`, with the resolved repositories put into the candidate.
pub evaluate_resolved :
    MergedProvider → World → MergedCandidate → Repository → Repository → Option Provenance → Outcome
evaluate_resolved p w c base source none =
    evaluate_ordinary_merged p
      (record c { project_repository = base.identity; source_repository = source.identity }) base
      source
evaluate_resolved p w c base source (some r) =
    evaluate_imported_merged p w
      (record c { project_repository = base.identity; source_repository = source.identity }) base
      c.project_repository c.source_repository r

pub evaluate_merged_candidate : MergedProvider → World → MergedCandidate → Outcome
unfolding or_failure
evaluate_merged_candidate p w c = settle (do
  require (not c.is_main) (merged_outcome c main_worktree (codes "main worktree is never pruned"))
  require (is_valid_generation c.generation)
      (merged_outcome c missing_generation (codes "worktree has no valid generation"))
  require (not (is_blank c.live_repository)) (
      merged_outcome c repository_changed
        (codes "worktree origin repository identity is unavailable"))
  requested_base ←
      or_return (github_repository c.project_repository)
        (merged_outcome c doctor_required (codes "project repository identity is unavailable"))
  requested_source ← or_return (github_repository c.source_repository) (
      merged_outcome c source_repository_unavailable
        (codes "configured upstream does not identify a source repository and branch"))
  require (not (is_blank c.source_branch)) (
      merged_outcome c source_repository_unavailable
        (codes "configured upstream does not identify a source repository and branch"))
  resolved_base ← or_failure c (p.resolve_repository requested_base)
  base ← or_return (github_repository resolved_base.identity) (
      merged_outcome c repository_changed
        (codes "resolved project repository identity is unavailable"))
  resolved_source ← or_failure c (p.resolve_repository requested_source)
  source ← or_return (github_repository resolved_source.identity) (
      merged_outcome c source_repository_unavailable
        (codes "resolved upstream repository identity is unavailable"))
  ok (evaluate_resolved p w c base source c.provenance))

-- One outcome for each candidate, in their order.
pub evaluate_merged : MergedProvider → World → List MergedCandidate → List Outcome
evaluate_merged p w = map (evaluate_merged_candidate p w)
