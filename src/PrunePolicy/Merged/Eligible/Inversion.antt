-- ===== src/PrunePolicy/Merged/Eligible/Inversion.antt =====
-- The evidence behind a merged worktree, with and without provenance.
use kwt.Common.{
  ℕ, ◌≡◌, ◌≢◌, refl, ◌⊎◌, inl, inr, Bool, true, Option, none, some, List, [], ◌∷◌, Text, ◌=?◌,
  eq_sound, eq_complete, keep, Result, ok, err, arith,
}
use kwt.PrunePolicy.Types.{Outcome, Reason, eligible_merged}
use kwt.PrunePolicy.PullRequest.{
  PullRequest, Repository, Provenance, ProviderError, equal_repository_identity,
}
use kwt.PrunePolicy.Merged.Repositories.{World}
use kwt.PrunePolicy.Merged.Outcomes.{
  MergedCandidate, merged_outcome, pull_request_outcome, mismatch_message,
}
use kwt.PrunePolicy.Merged.{
  MergedProvider, evaluate_resolved, evaluate_ordinary_merged, evaluate_imported_merged,
  exact_outcome,
}
use kwt.PrunePolicy.Merged.Eligible.Rules.{
  provider_failure_ineligible, ambiguous_ineligible, merged_outcome_reason,
}
use kwt.PrunePolicy.Merged.Eligible.Counts.{
  is_exact, exact_loop-keep, IsMismatch, exact_loop-IsMismatch, source_loop-IsMismatch,
}
use kwt.PrunePolicy.Merged.Search.{
  exact_ordinary_matches, diagnose_source_head, source_loop, source_head_outcome,
}
use kwt.Common.{sym, ◌∙◌, Bool-cases}

-- The pull request is merged, and it is the worktree's: its head is the worktree's head commit, and
-- its repository, source repository and source branch are the resolved ones.
pub record IsMergedBy (c : MergedCandidate) (base source : Repository) (pr : PullRequest)
    : Type 0 where
  pub merged : (t : ℕ) × (pr.merged_at ≡ some t)
  pub head : pr.pr_head_sha ≡ c.head
  pub repository : equal_repository_identity pr.repository.identity base.identity ≡ true
  pub source_repository :
      equal_repository_identity pr.source.repository.identity source.identity ≡ true
  pub branch : pr.source.name ≡ c.source_branch

-- The pull request, and the answer of the provider that held it: the one recorded at import, or the
-- only exact match among those of the head commit.
pub record Evidence (p : MergedProvider) (c : MergedCandidate) (base source : Repository)
    : Type 0 where
  pub pr : PullRequest
  pub is_merged_by : IsMergedBy c base source pr
  pub answer :
      ((r : Provenance) × (c.provenance ≡ some r) × (p.get base r.number ≡ ok pr))
      ⊎ ((prs : List PullRequest) × (c.provenance ≡ none)
          × (p.list_for_commit base c.head ≡ ok prs)
          × (keep
                (is_exact (record c {
                  project_repository = base.identity;
                  source_repository = source.identity;
                }))
                prs
              ≡ pr ∷ []))

equal_comm :
    (a b : Text) → equal_repository_identity a b ≡ true → equal_repository_identity b a ≡ true
unfolding equal_repository_identity
equal_comm a b h = eq_complete _ _ (sym (eq_sound _ _ h))

pull_request_outcome-merged :
    (c : MergedCandidate) (pr : PullRequest)
    → (pull_request_outcome c pr).reason ≡ eligible_merged
    → (t : ℕ) × (pr.merged_at ≡ some t)
unfolding pull_request_outcome
pull_request_outcome-merged c pr h = merged_at pr.merged_at refl
  where
    merged_at : (m : Option ℕ) → pr.merged_at ≡ m → (t : ℕ) × (pr.merged_at ≡ some t)
    merged_at none e = ground arith
    merged_at (some t) e = (t, e)

-- What the checks of `evaluateImportedMerged` leave of a candidate that passes them.
imported_facts :
    (p : MergedProvider) (w : World) (c : MergedCandidate) (base : Repository) (a b : Text)
    (r : Provenance) (pr : PullRequest)
    → p.get base r.number ≡ ok pr
    → (evaluate_imported_merged p w c base a b r).reason ≡ eligible_merged
    → ((r.source_branch =? c.source_branch) ≡ true)
      × ((r.head_sha =? c.head) ≡ true)
      × (equal_repository_identity pr.repository.identity c.project_repository ≡ true)
      × (equal_repository_identity c.source_repository pr.source.repository.identity ≡ true)
      × ((pr.source.name =? r.source_branch) ≡ true)
      × ((pr.pr_head_sha =? r.head_sha) ≡ true)
      × ((pull_request_outcome c pr).reason ≡ eligible_merged)
unfolding evaluate_imported_merged merged_outcome
imported_facts p w c base a b r pr h e = ground arith

imported_failure :
    (p : MergedProvider) (w : World) (c : MergedCandidate) (base : Repository) (a b : Text)
    (r : Provenance) (f : ProviderError)
    → p.get base r.number ≡ err f
    → (evaluate_imported_merged p w c base a b r).reason ≢ eligible_merged
unfolding evaluate_imported_merged merged_outcome
imported_failure p w c base a b r f h e = ground (arith, provider_failure_ineligible c f)

mismatch_ineligible :
    (c : MergedCandidate) (m : Option Reason) (reason : Reason)
    → IsMismatch m
    → m ≡ some reason
    → reason ≢ eligible_merged
mismatch_ineligible c none reason h e f = cc
mismatch_ineligible c (some r) reason (inl h) e f = cc
mismatch_ineligible c (some r) reason (inr h) e f = cc

source_head_ineligible :
    (c : MergedCandidate) (prs : List PullRequest) (m : Option Reason)
    → IsMismatch m
    → (source_head_outcome c prs m).reason ≢ eligible_merged
unfolding source_head_outcome pull_request_outcome merged_outcome
source_head_ineligible c (a ∷ b ∷ prs) m h e = ambiguous_ineligible c (a ∷ b ∷ prs) e
source_head_ineligible c (pr ∷ []) m h e = ground arith
source_head_ineligible c [] (some reason) h e = mismatch_ineligible c (some reason) reason h refl e
source_head_ineligible c [] none h e = cc

diagnose_ineligible :
    (c : MergedCandidate) (prs : List PullRequest)
    → (diagnose_source_head c prs).reason ≢ eligible_merged
unfolding diagnose_source_head
diagnose_ineligible c prs =
    source_head_ineligible c (source_loop c prs [] none).0 (source_loop c prs [] none).1
      (source_loop-IsMismatch c prs [] none tt)

-- Where the provider's answer decides, it has exactly one match, and its pull request is merged.
exact_outcome-eligible :
    (c : MergedCandidate) (prs : List PullRequest) (m : Option Reason) (o : Outcome)
    → IsMismatch m
    → exact_outcome c prs m ≡ err o
    → o.reason ≡ eligible_merged
    → (pr : PullRequest) × (prs ≡ pr ∷ []) × ((pull_request_outcome c pr).reason ≡ eligible_merged)
unfolding exact_outcome
exact_outcome-eligible c (a ∷ b ∷ prs) m o h e f =
    absurd (ambiguous_ineligible c (a ∷ b ∷ prs) (ground arith))
exact_outcome-eligible c (pr ∷ []) m o h e f = (pr, refl, ground arith)
exact_outcome-eligible c [] (some reason) o h e f = absurd (
    mismatch_ineligible c (some reason) reason h refl
      (ground (arith, merged_outcome_reason c reason (mismatch_message reason))))
exact_outcome-eligible c [] none o h e f = cc

exact_ordinary_matches-keep :
    (c : MergedCandidate) (prs : List PullRequest)
    → (exact_ordinary_matches c prs).0 ≡ keep (is_exact c) prs
unfolding exact_ordinary_matches
exact_ordinary_matches-keep c prs = exact_loop-keep c prs [] none

keep_single : {A : Type 0} (f : A → Bool) (xs : List A) (x : A) → keep f xs ≡ x ∷ [] → f x ≡ true
keep_single f [] x h = cc
keep_single f (y ∷ xs) x h = elim (Bool-cases (f y)) [
  | inl passes ↦ ground arith
  | inr fails ↦ keep_single f xs x (ground arith)
]

-- Where the head commit decides nothing, the source branch never makes a merged worktree.
by_head_ineligible :
    (p : MergedProvider) (c : MergedCandidate) (base source : Repository) (prs : List PullRequest)
    (x : Result ProviderError (List PullRequest))
    → p.list_for_commit base c.head ≡ ok prs
    → exact_outcome c (exact_ordinary_matches c prs).0 (exact_ordinary_matches c prs).1 ≡ ok tt
    → p.list_by_head base source.owner c.source_branch ≡ x
    → (evaluate_ordinary_merged p c base source).reason ≢ eligible_merged
unfolding evaluate_ordinary_merged
by_head_ineligible p c base source prs (err f) got undecided by_head e =
    provider_failure_ineligible c f (ground arith)
by_head_ineligible p c base source prs (ok more) got undecided by_head e =
    diagnose_ineligible c more (ground arith)

ordinary_failure :
    (p : MergedProvider) (c : MergedCandidate) (base source : Repository) (f : ProviderError)
    → p.list_for_commit base c.head ≡ err f
    → (evaluate_ordinary_merged p c base source).reason ≢ eligible_merged
unfolding evaluate_ordinary_merged
ordinary_failure p c base source f got e = provider_failure_ineligible c f (ground arith)

ordinary_decided :
    (p : MergedProvider) (c : MergedCandidate) (base source : Repository) (prs : List PullRequest)
    (x : Result Outcome (Unit {0}))
    → p.list_for_commit base c.head ≡ ok prs
    → exact_outcome c (exact_ordinary_matches c prs).0 (exact_ordinary_matches c prs).1 ≡ x
    → (evaluate_ordinary_merged p c base source).reason ≡ eligible_merged
    → (pr : PullRequest) × ((exact_ordinary_matches c prs).0 ≡ pr ∷ [])
      × ((pull_request_outcome c pr).reason ≡ eligible_merged)
ordinary_decided p c base source prs (ok tt) got x e = absurd (
    by_head_ineligible p c base source prs (p.list_by_head base source.owner c.source_branch) got x
      refl e)
ordinary_decided p c base source prs (err o) got x e =
    exact_outcome-eligible c (exact_ordinary_matches c prs).0 (exact_ordinary_matches c prs).1 o
      (unfold exact_ordinary_matches in exact_loop-IsMismatch c prs [] none tt) x
      (unfold evaluate_ordinary_merged in ground arith)

module _ (p : MergedProvider) (w : World) (c : MergedCandidate) (base source : Repository) where
  abbrev resolved : MergedCandidate
  resolved = record c { project_repository = base.identity; source_repository = source.identity }

  pub imported-Evidence :
      (r : Provenance) (x : Result ProviderError PullRequest)
      → c.provenance ≡ some r
      → p.get base r.number ≡ x
      → (evaluate_resolved p w c base source (some r)).reason ≡ eligible_merged
      → Evidence p c base source
  unfolding evaluate_resolved
  imported-Evidence r (err f) known got e = absurd (imported_failure p w _ base _ _ r f got e)
  imported-Evidence r (ok pr) known got e =
      let (branch, head, repository, source_repository, pr_branch, pr_head, chosen) =
        imported_facts p w _ base _ _ r pr got e in
      record {
        pr = pr;
        is_merged_by = record {
          merged = pull_request_outcome-merged _ pr chosen;
          head = eq_sound _ _ pr_head ∙ eq_sound _ _ head;
          repository = repository;
          source_repository = equal_comm _ _ source_repository;
          branch = eq_sound _ _ pr_branch ∙ eq_sound _ _ branch;
        };
        answer = inl (r, known, got);
      }

  exact_merged :
      (pr : PullRequest)
      → is_exact resolved pr ≡ true
      → (t : ℕ) × (pr.merged_at ≡ some t)
      → IsMergedBy c base source pr
  exact_merged pr h merged = record {
    merged = merged;
    head = eq_sound pr.pr_head_sha c.head (ground arith);
    repository = ground arith;
    source_repository = ground arith;
    branch = eq_sound pr.source.name c.source_branch (ground arith);
  }

  pub ordinary-Evidence :
      (x : Result ProviderError (List PullRequest))
      → c.provenance ≡ none
      → p.list_for_commit base c.head ≡ x
      → (evaluate_resolved p w c base source none).reason ≡ eligible_merged
      → Evidence p c base source
  unfolding evaluate_resolved
  ordinary-Evidence (err f) unknown got e = absurd (ordinary_failure p _ base source f got e)
  ordinary-Evidence (ok prs) unknown got e =
      let (pr, only, chosen) =
        ordinary_decided p resolved base source prs
          (exact_outcome resolved (exact_ordinary_matches resolved prs).0
            (exact_ordinary_matches resolved prs).1)
          got refl e in
      let kept : keep (is_exact resolved) prs ≡ pr ∷ [] =
        sym (exact_ordinary_matches-keep resolved prs) ∙ only in
      record {
        pr = pr;
        is_merged_by =
            exact_merged pr (keep_single (is_exact resolved) prs pr kept)
              (pull_request_outcome-merged resolved pr chosen);
        answer = inr (prs, unknown, got, kept);
      }
