-- ===== src/PrunePolicy/Merged/Eligible.antt =====
-- When a worktree is classified as merged.
mod Rules
mod Counts
pub mod Inversion
use kwt.Common.{
  ℕ, zero, suc, ◌+◌, ◌<◌, ◌≡◌, ◌≢◌, refl, ◌⊎◌, inl, inr, Bool, true, false, ◌&&◌, ◌||◌, not, Option,
  none, some, List, [], ◌∷◌, ◌++◌, map, Text, codes, if◌then◌else◌, ◌=?◌, eq_sound, eq_complete,
  ◌==◌, ltb, length, keep, equal_fold, Result, ok, err, ◌>>=◌, ◌>>◌, require, &&-eq-true, arith,
  append-nil, trim_space, ap,
}
use kwt.PrunePolicy.Types.{Outcome, Reason, eligible_merged}
use kwt.PrunePolicy.PullRequest.{
  PullRequest, Repository, Provenance, ProviderError, equal_repository_identity,
}
use kwt.PrunePolicy.Merged.Repositories.{
  World, is_valid_generation, github_repository, provenance_source_repository_matches,
}
use kwt.PrunePolicy.Merged.Outcomes.{
  MergedCandidate, merged_outcome, pull_request_outcome, ambiguous_outcome,
  provider_failure_outcome, mismatch_message,
}
use kwt.PrunePolicy.Merged.{
  MergedProvider, settle, or_return, or_failure, evaluate_merged_candidate, evaluate_resolved,
  evaluate_ordinary_merged, evaluate_imported_merged, exact_outcome,
}
use Rules.{provider_failure_ineligible, ambiguous_ineligible, merged_outcome_reason}
use Counts.{
  is_exact, from_source, exact_loop-keep, source_loop-keep, IsMismatch, exact_loop-IsMismatch,
  source_loop-IsMismatch,
}
use kwt.PrunePolicy.Merged.Search.{
  exact_ordinary_matches, diagnose_source_head, source_loop, source_head_outcome,
}
use kwt.Common.{subst, sym, ◌∙◌, Bool-cases}
use Inversion.{Evidence, imported-Evidence, ordinary-Evidence}

-- The provider's answer for the repository that an identity names.
abbrev pub Resolves : MergedProvider → Text → Repository → Type 0
Resolves p identity base =
    (asked : Repository) × (answered : Repository) × (github_repository identity ≡ some asked)
    × (p.resolve_repository asked ≡ ok answered)
    × (github_repository answered.identity ≡ some base)

-- The three ways in which an identity is not resolved.
data Fails (p : MergedProvider) (identity : Text) : Type 0 where
  not_github : github_repository identity ≡ none → Fails p identity
  refused :
      (asked : Repository) (f : ProviderError)
      → github_repository identity ≡ some asked
      → p.resolve_repository asked ≡ err f
      → Fails p identity
  moved_away :
      (asked answered : Repository)
      → github_repository identity ≡ some asked
      → p.resolve_repository asked ≡ ok answered
      → github_repository answered.identity ≡ none
      → Fails p identity

Resolution : MergedProvider → Text → Type 0
Resolution p identity = ((base : Repository) × Resolves p identity base) ⊎ Fails p identity

Resolution-answered :
    (p : MergedProvider) (identity : Text) (asked answered : Repository) (x : Option Repository)
    → github_repository identity ≡ some asked
    → p.resolve_repository asked ≡ ok answered
    → github_repository answered.identity ≡ x
    → Resolution p identity
unfolding Resolution
Resolution-answered p identity asked answered none g r h = inr (moved_away asked answered g r h)
Resolution-answered p identity asked answered (some base) g r h =
    inl (base, (asked, answered, g, r, h))

Resolution-asked :
    (p : MergedProvider) (identity : Text) (asked : Repository)
    (x : Result ProviderError Repository)
    → github_repository identity ≡ some asked
    → p.resolve_repository asked ≡ x
    → Resolution p identity
Resolution-asked p identity asked (err f) g r = unfold Resolution in inr (refused asked f g r)
Resolution-asked p identity asked (ok answered) g r =
    Resolution-answered p identity asked answered (github_repository answered.identity) g r refl

Resolution-named :
    (p : MergedProvider) (identity : Text) (x : Option Repository)
    → github_repository identity ≡ x
    → Resolution p identity
Resolution-named p identity none g = unfold Resolution in inr (not_github g)
Resolution-named p identity (some asked) g =
    Resolution-asked p identity asked (p.resolve_repository asked) g refl

module _ (p : MergedProvider) (w : World) (c : MergedCandidate)
    (e : (evaluate_merged_candidate p w c).reason ≡ eligible_merged) where
  local_facts :
      (c.is_main ≡ false)
      × (is_valid_generation c.generation ≡ true)
      × ((length (trim_space c.live_repository) == 0) ≡ false)
  unfolding evaluate_merged_candidate merged_outcome
  local_facts = ground arith

  project_resolved : Fails p c.project_repository → ⊥
  unfolding evaluate_merged_candidate merged_outcome
  project_resolved (not_github g) = ground arith
  project_resolved (refused asked f g r) = ground (arith, provider_failure_ineligible c f)
  project_resolved (moved_away asked answered g r h) = ground arith

  source_resolved :
      (base : Repository) → Resolves p c.project_repository base → Fails p c.source_repository → ⊥
  unfolding evaluate_merged_candidate merged_outcome
  source_resolved base (a, b, ga, rb, hb) (not_github g) = ground arith
  source_resolved base (a, b, ga, rb, hb) (refused asked f g r) =
      ground (arith, provider_failure_ineligible c f)
  source_resolved base (a, b, ga, rb, hb) (moved_away asked answered g r h) = ground arith

  resolved_eligible :
      (base source : Repository)
      → Resolves p c.project_repository base
      → Resolves p c.source_repository source
      → (evaluate_resolved p w c base source c.provenance).reason ≡ eligible_merged
  unfolding evaluate_merged_candidate merged_outcome
  resolved_eligible base source (a, b, ga, rb, hb) (a', b', ga', rb', hb') = ground arith

evidence :
    (p : MergedProvider) (w : World) (c : MergedCandidate) (base source : Repository)
    (x : Option Provenance)
    → c.provenance ≡ x
    → (evaluate_resolved p w c base source x).reason ≡ eligible_merged
    → Evidence p c base source
evidence p w c base source (some r) known e =
    imported-Evidence p w c base source r (p.get base r.number) known refl e
evidence p w c base source none known e =
    ordinary-Evidence p w c base source (p.list_for_commit base c.head) known refl e

-- A worktree is classified as merged only if it is not the main worktree, has a valid generation and
-- a known origin; its repositories are resolved by the provider; and the provider's own answer holds
-- a merged pull request of these repositories and the configured source branch whose head is the
-- worktree's head commit: the one recorded at import, or the only such one of that commit.
pub eligible-Evidence :
    (p : MergedProvider) (w : World) (c : MergedCandidate)
    → (evaluate_merged_candidate p w c).reason ≡ eligible_merged
    → (c.is_main ≡ false)
      × (is_valid_generation c.generation ≡ true)
      × (trim_space c.live_repository ≢ [])
      × (base : Repository) × (source : Repository) × Resolves p c.project_repository base
      × Resolves p c.source_repository source
      × Evidence p c base source
eligible-Evidence p w c e =
    unfold Resolution in
    elim (Resolution-named p c.project_repository _ refl) [
      | inr fails ↦ absurd (project_resolved p w c e fails)
      | inl (base, b) ↦ elim (Resolution-named p c.source_repository _ refl) [
        | inr fails ↦ absurd (source_resolved p w c e base b fails)
        | inl (source, s) ↦ (
          (local_facts p w c e).0,
          (local_facts p w c e).1,
          (λ empty. ground (arith, (local_facts p w c e).2, ap length empty)),
          base,
          source,
          b,
          s,
          evidence p w c base source c.provenance refl (resolved_eligible p w c e base source b s),
        )
      ]
    ]
