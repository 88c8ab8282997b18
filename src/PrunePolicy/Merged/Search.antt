-- ===== src/PrunePolicy/Merged/Search.antt =====
-- The loops of internal/prunepolicy/merged.go over the provider's pull requests.
use kwt.Common.{◌||◌, not, Option, none, some, List, [], ◌∷◌, ◌++◌, codes, if◌then◌else◌, ◌=?◌}
use kwt.PrunePolicy.Types.{
  Reason, source_repository_mismatch, source_branch_mismatch, head_advanced_after_pr,
  no_associated_pr, Outcome,
}
use kwt.PrunePolicy.PullRequest.{PullRequest, equal_repository_identity}
use kwt.PrunePolicy.Merged.Outcomes.{
  MergedCandidate, merged_outcome, add_pull_request_evidence, mismatch_message, is_merged,
  pull_request_outcome, ambiguous_outcome,
}

-- The loops over the pull requests keep the matches so far and the mismatch so far.
abbrev pub source_branch_seen : Option Reason → Option Reason
source_branch_seen none = some source_branch_mismatch
source_branch_seen (some r) = some r

unfoldable pub exact_loop :
    MergedCandidate
    → List PullRequest
    → List PullRequest
    → Option Reason
    → List PullRequest × Option Reason
exact_loop c [] exact mismatch = (exact, mismatch)
exact_loop c (pr ∷ prs) exact mismatch =
    let elsewhere = exact_loop c prs exact mismatch in
    let other_repository = exact_loop c prs exact (some source_repository_mismatch) in
    let other_branch = exact_loop c prs exact (source_branch_seen mismatch) in
    let matching = exact_loop c prs (exact ++ pr ∷ []) mismatch in
    if not (equal_repository_identity pr.repository.identity c.project_repository)
      || not (pr.pr_head_sha =? c.head)
    then elsewhere
    else if not (equal_repository_identity pr.source.repository.identity c.source_repository)
    then other_repository
    else if not (pr.source.name =? c.source_branch)
    then other_branch
    else matching

unfoldable pub exact_ordinary_matches :
    MergedCandidate → List PullRequest → List PullRequest × Option Reason
unfolding exact_loop
exact_ordinary_matches c prs = exact_loop c prs [] none

unfoldable pub source_loop :
    MergedCandidate
    → List PullRequest
    → List PullRequest
    → Option Reason
    → List PullRequest × Option Reason
source_loop c [] matches mismatch = (matches, mismatch)
source_loop c (pr ∷ prs) matches mismatch =
    let elsewhere = source_loop c prs matches mismatch in
    let other_repository = source_loop c prs matches (some source_repository_mismatch) in
    let other_branch = source_loop c prs matches (source_branch_seen mismatch) in
    let matching = source_loop c prs (matches ++ pr ∷ []) mismatch in
    if not (equal_repository_identity pr.repository.identity c.project_repository)
    then elsewhere
    else if not (equal_repository_identity pr.source.repository.identity c.source_repository)
    then other_repository
    else if not (pr.source.name =? c.source_branch)
    then other_branch
    else matching

-- What `diagnoseSourceHead` makes of the matches and the mismatch.
unfoldable pub source_head_outcome : MergedCandidate → List PullRequest → Option Reason → Outcome
unfolding merged_outcome mismatch_message
source_head_outcome c (a ∷ b ∷ prs) mismatch = ambiguous_outcome c (a ∷ b ∷ prs)
source_head_outcome c (pr ∷ []) mismatch =
    if is_merged pr
    then add_pull_request_evidence
        (merged_outcome c head_advanced_after_pr (mismatch_message head_advanced_after_pr)) pr
    else pull_request_outcome c pr
source_head_outcome c [] (some reason) = merged_outcome c reason (mismatch_message reason)
source_head_outcome c [] none =
    merged_outcome c no_associated_pr
      (codes "no pull request is associated with the worktree HEAD or source branch")

unfoldable pub diagnose_source_head : MergedCandidate → List PullRequest → Outcome
unfolding source_loop source_head_outcome
diagnose_source_head c prs =
    let (matches, mismatch) = source_loop c prs [] none in source_head_outcome c matches mismatch
