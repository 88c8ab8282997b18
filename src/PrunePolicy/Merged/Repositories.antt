-- ===== src/PrunePolicy/Merged/Repositories.antt =====
-- The tests of internal/prunepolicy/merged.go on repositories and provenance, with
-- `ValidateWorktreeGeneration` of worktree/identity.go and `PathKey` of internal/utils/utils.go.
use kwt.Common.{
  ℕ, Bool, true, ◌&&◌, ◌||◌, not, Option, none, some, map, Text, codes, if◌then◌else◌, ◌=?◌, ◌==◌,
  leb, length, any, all, drop, to_lower, cut, has_prefix,
}
use kwt.PrunePolicy.PullRequest.{
  Repository, Provenance, normalize_repository_identity, equal_repository_identity, opaque_id,
}

pub record World : Type 0 where
  pub canonical_path : Text → Text
  pub is_windows : Bool

-- `hex.DecodeString`: pairs of hexadecimal digits; 16 bytes are 32 of them.
abbrev is_hex : ℕ → Bool
is_hex c = (leb b'0' c && leb c b'9') || (leb b'a' c && leb c b'f') || (leb b'A' c && leb c b'F')

unfoldable pub is_valid_generation : Text → Bool
is_valid_generation g = length g == 32 && all (λ c. is_hex c) g

abbrev slashed : ℕ → ℕ
slashed c = if c == b'\\' then b'/' else c

unfoldable pub path_key : World → Text → Text
path_key w p =
    if w.is_windows then to_lower (map slashed (w.canonical_path p)) else w.canonical_path p

unfoldable pub github_parts : Text → Option (Text × Text) → Option Repository
github_parts identity none = none
github_parts identity (some (owner, name)) =
    if length owner == 0 || length name == 0 || any (λ c. c == b'/') name
    then none
    else some (record {
      provider = codes "github";
      identity = identity;
      host = codes "github.com";
      owner = owner;
      name = name;
    })

abbrev pub github_prefix : Text
github_prefix = codes "github.com/"

unfoldable pub github_repository : Text → Option Repository
unfolding github_parts
github_repository identity =
    let normal = normalize_repository_identity identity in
    if not (has_prefix normal github_prefix)
    then none
    else github_parts normal (cut b'/' (drop 11 normal))

unfoldable pub provenance_repository_matches : Provenance → Text → Bool
provenance_repository_matches r identity =
    if equal_repository_identity r.repository identity
    then true
    else any (λ alias. equal_repository_identity alias identity) r.repository_aliases

unfoldable pub provenance_pull_request_id_matches : Provenance → Bool
provenance_pull_request_id_matches r =
    if r.pull_request_id =? opaque_id r.repository r.number
    then true
    else any (λ alias. r.pull_request_id =? opaque_id alias r.number) r.repository_aliases

unfoldable pub provenance_source_repository_matches : Provenance → Text → Bool
provenance_source_repository_matches r identity =
    if equal_repository_identity r.source_repo identity
    then true
    else provenance_repository_matches r r.source_repo && provenance_repository_matches r identity
