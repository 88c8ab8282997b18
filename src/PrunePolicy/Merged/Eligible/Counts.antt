-- ===== src/PrunePolicy/Merged/Eligible/Counts.antt =====
-- The loops over the provider's pull requests are filters.
use kwt.Common.{
  ◌≡◌, refl, ◌⊎◌, inl, inr, sym, Bool, ◌&&◌, Option, none, some, List, [], ◌∷◌, ◌++◌, keep, arith,
  ◌=?◌, append_assoc, append-nil,
}
use kwt.PrunePolicy.Types.{Reason, source_repository_mismatch, source_branch_mismatch}
use kwt.PrunePolicy.PullRequest.{PullRequest, equal_repository_identity}
use kwt.PrunePolicy.Merged.Outcomes.{MergedCandidate}
use kwt.PrunePolicy.Merged.Search.{exact_loop, source_loop, source_branch_seen}

abbrev pub from_source : MergedCandidate → PullRequest → Bool
from_source c pr =
    equal_repository_identity pr.repository.identity c.project_repository
    && equal_repository_identity pr.source.repository.identity c.source_repository
    && pr.source.name =? c.source_branch

-- The pull request of the candidate's repositories, branch and head commit.
abbrev pub is_exact : MergedCandidate → PullRequest → Bool
is_exact c pr = from_source c pr && pr.pr_head_sha =? c.head

pub exact_loop-keep :
    (c : MergedCandidate) (prs done : List PullRequest) (m : Option Reason)
    → (exact_loop c prs done m).0 ≡ done ++ keep (is_exact c) prs
unfolding exact_loop
exact_loop-keep c [] done m = sym (append-nil done)
exact_loop-keep c (pr ∷ prs) done m = ground (
  arith,
  exact_loop-keep c prs done m,
  exact_loop-keep c prs done (some source_repository_mismatch),
  exact_loop-keep c prs done (source_branch_seen m),
  exact_loop-keep c prs (done ++ pr ∷ []) m,
  append_assoc done (pr ∷ []) (keep (is_exact c) prs),
)

pub source_loop-keep :
    (c : MergedCandidate) (prs done : List PullRequest) (m : Option Reason)
    → (source_loop c prs done m).0 ≡ done ++ keep (from_source c) prs
unfolding source_loop
source_loop-keep c [] done m = sym (append-nil done)
source_loop-keep c (pr ∷ prs) done m = ground (
  arith,
  source_loop-keep c prs done m,
  source_loop-keep c prs done (some source_repository_mismatch),
  source_loop-keep c prs done (source_branch_seen m),
  source_loop-keep c prs (done ++ pr ∷ []) m,
  append_assoc done (pr ∷ []) (keep (from_source c) prs),
)

-- The loops report only the two mismatches of the source.
abbrev pub IsMismatch : Option Reason → Type 0
IsMismatch none = Unit {0}
IsMismatch (some r) = (r ≡ source_repository_mismatch) ⊎ (r ≡ source_branch_mismatch)

source_branch_seen-IsMismatch :
    (m : Option Reason) → IsMismatch m → IsMismatch (source_branch_seen m)
source_branch_seen-IsMismatch none h = inr refl
source_branch_seen-IsMismatch (some r) h = h

pub exact_loop-IsMismatch :
    (c : MergedCandidate) (prs done : List PullRequest) (m : Option Reason)
    → IsMismatch m
    → IsMismatch (exact_loop c prs done m).1
unfolding exact_loop
exact_loop-IsMismatch c [] done m h = h
exact_loop-IsMismatch c (pr ∷ prs) done m h = ground (
  arith,
  exact_loop-IsMismatch c prs done m h,
  exact_loop-IsMismatch c prs done (some source_repository_mismatch) (inl refl),
  exact_loop-IsMismatch c prs done (source_branch_seen m) (source_branch_seen-IsMismatch m h),
  exact_loop-IsMismatch c prs (done ++ pr ∷ []) m h,
)

pub source_loop-IsMismatch :
    (c : MergedCandidate) (prs done : List PullRequest) (m : Option Reason)
    → IsMismatch m
    → IsMismatch (source_loop c prs done m).1
unfolding source_loop
source_loop-IsMismatch c [] done m h = h
source_loop-IsMismatch c (pr ∷ prs) done m h = ground (
  arith,
  source_loop-IsMismatch c prs done m h,
  source_loop-IsMismatch c prs done (some source_repository_mismatch) (inl refl),
  source_loop-IsMismatch c prs done (source_branch_seen m) (source_branch_seen-IsMismatch m h),
  source_loop-IsMismatch c prs (done ++ pr ∷ []) m h,
)
