-- ===== src/PrunePolicy/Merged/Outcomes.antt =====
-- The candidate of internal/prunepolicy/merged.go, and the outcomes that the policy builds.
use kwt.Common.{
  Bool, true, false, Option, none, some, List, [], ◌∷◌, Text, codes, if◌then◌else◌, length,
}
use kwt.PrunePolicy.Types.{
  Reason, source_repository_mismatch, source_branch_mismatch, head_advanced_after_pr,
  eligible_merged, pr_not_merged, ambiguous_pr_match, Outcome, text, number, flag, head_sha,
  match_count, provider_error_code, retryable, pr_number, pr_url, pr_head_sha,
  authentication_failed, network_failure, provider_failure, reason_text,
}
use kwt.PrunePolicy.PullRequest.{
  ProviderError, ErrorCode, typed, untyped, code_text, PullRequest, Provenance,
}

pub record MergedCandidate : Type 0 where
  pub path : Text
  pub branch : Text
  pub head : Text
  pub generation : Text
  pub main_repository_path : Text
  pub project_repository : Text
  pub live_repository : Text
  pub source_repository : Text
  pub source_branch : Text
  pub dirty : Bool
  pub is_main : Bool
  pub provenance : Option Provenance

unfoldable pub merged_outcome : MergedCandidate → Reason → Text → Outcome
merged_outcome c reason message = record {
  path = c.path;
  branch = c.branch;
  reason = reason;
  message = message;
  remediation = [];
  evidence = (head_sha, text c.head) ∷ [];
}

unfoldable pub add_pull_request_evidence : Outcome → PullRequest → Outcome
add_pull_request_evidence o pr = record o {
  evidence =
      (pr_head_sha, text pr.pr_head_sha)
      ∷ (pr_url, text pr.url)
      ∷ (pr_number, number pr.number)
      ∷ o.evidence;
}

unfoldable pub mismatch_message : Reason → Text
mismatch_message head_advanced_after_pr =
    codes "source branch has advanced after the associated pull request head"
mismatch_message source_repository_mismatch =
    codes "associated pull request source repository does not match the configured upstream"
mismatch_message source_branch_mismatch =
    codes "associated pull request source branch does not match the configured upstream"
mismatch_message reason = reason_text reason

abbrev pub is_merged : PullRequest → Bool
is_merged pr = elim pr.merged_at [ none ↦ false | some t ↦ true ]

unfoldable pub pull_request_outcome : MergedCandidate → PullRequest → Outcome
unfolding merged_outcome add_pull_request_evidence
pull_request_outcome c pr =
    if is_merged pr
    then add_pull_request_evidence
        (merged_outcome c eligible_merged (codes "worktree has one explicitly merged pull request"))
        pr
    else add_pull_request_evidence
        (merged_outcome c pr_not_merged (codes "associated pull request is not merged")) pr

unfoldable pub ambiguous_outcome : MergedCandidate → List PullRequest → Outcome
unfolding merged_outcome
ambiguous_outcome c prs =
    let o =
      merged_outcome c ambiguous_pr_match
        (codes "multiple pull requests match the worktree identity") in
    record o { evidence = (match_count, number (length prs)) ∷ o.evidence }

failure_reason : ErrorCode → Reason
failure_reason ErrorCode.authentication_failed = authentication_failed
failure_reason ErrorCode.network_failure = network_failure
failure_reason _ = provider_failure

failure_message : Reason → Text
failure_message authentication_failed = codes "pull-request provider authentication failed"
failure_message provider_failure = codes "pull-request provider returned an unusable result"
failure_message _ = codes "pull-request provider could not classify the candidate"

failure_remediation : Reason → Text
failure_remediation authentication_failed =
    codes "Refresh GitHub authentication and retry merged pruning."
failure_remediation provider_failure =
    codes "Review the provider error code, resolve the provider issue, and retry merged pruning."
failure_remediation _ = codes "Check network connectivity and retry merged pruning."

failure_outcome : MergedCandidate → Reason → ErrorCode → Bool → Outcome
unfolding merged_outcome failure_message failure_remediation
failure_outcome c reason code retry =
    let o = merged_outcome c reason (failure_message reason) in
    record o {
      remediation = failure_remediation reason;
      evidence =
          (retryable, flag retry) ∷ (provider_error_code, text (code_text code)) ∷ o.evidence;
    }

unfoldable pub provider_failure_outcome : MergedCandidate → ProviderError → Outcome
unfolding failure_outcome failure_reason
provider_failure_outcome c untyped =
    failure_outcome c network_failure ErrorCode.network_failure false
provider_failure_outcome c (typed code retry) = failure_outcome c (failure_reason code) code retry
