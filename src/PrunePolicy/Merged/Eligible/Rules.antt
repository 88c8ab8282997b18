-- ===== src/PrunePolicy/Merged/Eligible/Rules.antt =====
-- Outcomes that never report a merged worktree.
use kwt.Common.{◌≡◌, ◌≢◌, refl, Text, List}
use kwt.PrunePolicy.Types.{Reason, eligible_merged}
use kwt.PrunePolicy.PullRequest.{ProviderError, ErrorCode, typed, untyped, PullRequest}
use kwt.PrunePolicy.Merged.Outcomes.{
  MergedCandidate, merged_outcome, provider_failure_outcome, ambiguous_outcome,
}

pub provider_failure_ineligible :
    (c : MergedCandidate) (e : ProviderError)
    → (provider_failure_outcome c e).reason ≢ eligible_merged
unfolding provider_failure_outcome
provider_failure_ineligible c untyped h = cc
provider_failure_ineligible c (typed ErrorCode.authentication_failed retry) h = cc
provider_failure_ineligible c (typed ErrorCode.network_failure retry) h = cc
provider_failure_ineligible c (typed _ retry) h = cc

pub ambiguous_ineligible :
    (c : MergedCandidate) (prs : List PullRequest)
    → (ambiguous_outcome c prs).reason ≢ eligible_merged
unfolding ambiguous_outcome
ambiguous_ineligible c prs h = cc

pub merged_outcome_reason :
    (c : MergedCandidate) (reason : Reason) (message : Text)
    → (merged_outcome c reason message).reason ≡ reason
unfolding merged_outcome
merged_outcome_reason c reason message = refl
