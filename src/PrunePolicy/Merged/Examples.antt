-- ===== src/PrunePolicy/Merged/Examples.antt =====
-- Concrete runs of the merged policy: a merged worktree with and without provenance.
use kwt.Common.{
  ℕ, ◌≡◌, ◌≢◌, refl, true, false, Option, none, some, List, [], ◌∷◌, Text, codes, ok, trim_space,
  has_prefix, cut, ◌=?◌, itoa,
}
use kwt.PrunePolicy.Types.{
  Reason, eligible_merged, pr_not_merged, head_advanced_after_pr, ambiguous_pr_match,
}
use kwt.PrunePolicy.PullRequest.{
  Repository, PullRequest, Provenance, normalize_repository_identity, equal_repository_identity,
  opaque_id,
}
use kwt.PrunePolicy.Merged.Repositories.{
  World, is_valid_generation, github_repository, github_parts, path_key,
  provenance_repository_matches, provenance_pull_request_id_matches,
  provenance_source_repository_matches,
}
use kwt.PrunePolicy.Merged.Outcomes.{
  MergedCandidate, merged_outcome, add_pull_request_evidence, pull_request_outcome,
  ambiguous_outcome,
}
use kwt.PrunePolicy.Merged.Search.{
  exact_loop, exact_ordinary_matches, source_loop, source_head_outcome, diagnose_source_head,
}
use kwt.PrunePolicy.Merged.{
  MergedProvider, or_failure, provenance_matches, evaluate_imported_merged, exact_outcome,
  evaluate_ordinary_merged, evaluate_resolved, evaluate_merged_candidate,
}
use kwt.PrunePolicy.Merged.Eligible.{Resolves, eligible-Evidence}
use kwt.PrunePolicy.Merged.Eligible.Inversion.{Evidence}

abbrev github : Text → Text → Text → Repository
github identity owner name = record {
  provider = codes "github";
  identity = identity;
  host = codes "github.com";
  owner = owner;
  name = name;
}

abbrev base_repository : Repository
base_repository = github (codes "github.com/kenn-io/kwt") (codes "kenn-io") (codes "kwt")

abbrev fork_repository : Repository
fork_repository = github (codes "github.com/ada/kwt") (codes "ada") (codes "kwt")

abbrev pull : ℕ → Text → Option ℕ → PullRequest
pull number head merged = record {
  provider = codes "GitHub";
  repository = base_repository;
  number = number;
  url = codes "https://github.com/kenn-io/kwt/pull/7";
  source = record { name = codes "feature"; repository = fork_repository };
  pr_head_sha = head;
  merged_at = merged;
}

-- The provider that knows the given pull requests.
abbrev provider : List PullRequest → MergedProvider
provider prs = record {
  resolve_repository = λ asked. ok asked;
  get = λ repository number. ok (pull number (codes "c0ffee") (some 100));
  list_for_commit = λ repository head. ok prs;
  list_by_head = λ repository owner branch. ok (pull 9 (codes "beef") (some 90) ∷ []);
}

abbrev world : World
world = record { canonical_path = λ p. p; is_windows = false }

abbrev generation : Text
generation = codes "00112233445566778899aabbccddeeff"

abbrev candidate : Option Provenance → MergedCandidate
candidate known = record {
  path = codes "/w/feature";
  branch = codes "feature";
  head = codes "c0ffee";
  generation = generation;
  main_repository_path = codes "/r/kwt";
  project_repository = codes "GitHub.com/Kenn-IO/kwt";
  live_repository = codes "github.com/kenn-io/kwt";
  source_repository = codes "github.com/ada/kwt";
  source_branch = codes "feature";
  dirty = false;
  is_main = false;
  provenance = known;
}

abbrev imported : Provenance
imported = record {
  pull_request_id = codes "github:github.com/kenn-io/kwt#7";
  provider = codes "github";
  repository = codes "github.com/kenn-io/kwt";
  repository_aliases = [];
  number = 7;
  head_sha = codes "c0ffee";
  source_repo = codes "github.com/ada/kwt";
  source_branch = codes "feature";
  project = record {
    identity = codes "github.com/kenn-io/kwt";
    name = codes "kwt";
    path = codes "/r/kwt";
  };
  workspace = record {
    repository = codes "github.com/kenn-io/kwt";
    branch = codes "feature";
    path = codes "/w/feature";
    generation = [];
  };
}

abbrev merged_pull : PullRequest
merged_pull = pull 7 (codes "c0ffee") (some 100)

abbrev reason_with : List PullRequest → Option Provenance → Reason
reason_with prs known = (evaluate_merged_candidate (provider prs) world (candidate known)).reason

ordinary_is_merged : reason_with (merged_pull ∷ []) none ≡ eligible_merged
unfolding evaluate_merged_candidate evaluate_resolved evaluate_ordinary_merged or_failure
    exact_outcome exact_ordinary_matches exact_loop pull_request_outcome merged_outcome
    add_pull_request_evidence github_repository github_parts normalize_repository_identity
    equal_repository_identity is_valid_generation trim_space has_prefix cut ◌=?◌
ordinary_is_merged = refl

imported_is_merged : reason_with [] (some imported) ≡ eligible_merged
unfolding evaluate_merged_candidate evaluate_resolved evaluate_imported_merged or_failure
    provenance_matches pull_request_outcome merged_outcome add_pull_request_evidence
    github_repository github_parts normalize_repository_identity equal_repository_identity
    is_valid_generation path_key opaque_id provenance_repository_matches
    provenance_pull_request_id_matches provenance_source_repository_matches trim_space has_prefix
    cut ◌=?◌ itoa
imported_is_merged = refl

-- The head commit has no pull request, and the branch has a merged one: the branch has moved on.
branch_has_advanced : reason_with [] none ≡ head_advanced_after_pr
unfolding evaluate_merged_candidate evaluate_resolved evaluate_ordinary_merged or_failure
    exact_outcome exact_ordinary_matches exact_loop pull_request_outcome merged_outcome
    add_pull_request_evidence github_repository github_parts normalize_repository_identity
    equal_repository_identity is_valid_generation diagnose_source_head source_loop
    source_head_outcome trim_space has_prefix cut ◌=?◌
branch_has_advanced = refl

unmerged_is_kept : reason_with (pull 7 (codes "c0ffee") none ∷ []) none ≡ pr_not_merged
unfolding evaluate_merged_candidate evaluate_resolved evaluate_ordinary_merged or_failure
    exact_outcome exact_ordinary_matches exact_loop pull_request_outcome merged_outcome
    add_pull_request_evidence github_repository github_parts normalize_repository_identity
    equal_repository_identity is_valid_generation trim_space has_prefix cut ◌=?◌
unmerged_is_kept = refl

two_are_ambiguous : reason_with (merged_pull ∷ merged_pull ∷ []) none ≡ ambiguous_pr_match
unfolding evaluate_merged_candidate evaluate_resolved evaluate_ordinary_merged or_failure
    exact_outcome exact_ordinary_matches exact_loop ambiguous_outcome merged_outcome
    github_repository github_parts normalize_repository_identity equal_repository_identity
    is_valid_generation trim_space has_prefix cut ◌=?◌
two_are_ambiguous = refl

eligible-Evidence_example :
    ((candidate none).is_main ≡ false)
    × (is_valid_generation (candidate none).generation ≡ true)
    × (trim_space (candidate none).live_repository ≢ [])
    × (base : Repository) × (source : Repository) × Resolves
        (provider (merged_pull ∷ []))
        (candidate none).project_repository
        base
    × Resolves (provider (merged_pull ∷ [])) (candidate none).source_repository source
    × Evidence (provider (merged_pull ∷ [])) (candidate none) base source
eligible-Evidence_example =
    eligible-Evidence (provider (merged_pull ∷ [])) world (candidate none) ordinary_is_merged
