-- ===== src/Url/Identity.antt =====
-- internal/url/identity.go: the identities of repositories, on a platform whose paths use slashes.
mod Lengths
mod Sizes
pub mod Origins
mod Continuations
pub mod Passes
mod Fold
mod Remotes
mod Examples
use kwt.Common.{
  ℕ, zero, suc, ◌+◌, ◌*◌, Bool, true, false, ◌&&◌, ◌||◌, not, Option, none, some, List, [], ◌∷◌,
  ◌++◌, Text, codes, if◌then◌else◌, ◌==◌, ◌=?◌, length, Result, ok, err, cut, has_prefix,
  trim_space, to_lower, cut_at, contains, contains_byte, split,
}
use kwt.Url.Authority.{
  before, is_numeric_port, split_host_port, host_without_port, is_canonical_authority_host,
  has_credential_bearing_authority_slug, looks_like_windows_drive_path, one_of,
  is_network_git_url_scheme, scp_loop, has_ambiguous_scp_credential_path,
}
use kwt.Url.Repository.{
  NetUrl, RepositoryInfo, UrlError, repository_info_from_parts, parse_repository_url,
}

-- The map of hosts that treat names case-insensitively.
abbrev pub case_insensitive_repository_path_hosts : List Text
case_insensitive_repository_path_hosts =
    codes "bitbucket.org" ∷ codes "codeberg.org" ∷ codes "github.com" ∷ codes "gitlab.com" ∷ []

-- Behind an authority that is in lower case.
unfoldable pub fold_remainder : Text → Text → Text
unfolding host_without_port one_of
fold_remainder authority remainder =
    if one_of (host_without_port authority) case_insensitive_repository_path_hosts
    then to_lower remainder
    else remainder

unfoldable pub fold_cut : Text → Option (Text × Text) → Text
unfolding fold_remainder
fold_cut identity none = to_lower identity
fold_cut identity (some (authority, remainder)) =
    to_lower authority ++ b'/' ∷ fold_remainder (to_lower authority) remainder

-- An empty identity has no slash, so that it folds to the empty text here too.
unfoldable pub fold_repository_identity : Text → Text
unfolding trim_space cut fold_cut
fold_repository_identity identity = fold_cut (trim_space identity) (cut b'/' (trim_space identity))

abbrev pub local_identity_namespace : Text
local_identity_namespace = codes "local"

unfoldable pub has_explicit_remote_syntax : Text → Bool
unfolding cut
has_explicit_remote_syntax raw = elim (cut b':' raw) [
  | none ↦ false
  | some (first, _) ↦ not (contains_byte b'/' first)
]

unfoldable pub is_local_fallback_identity : Text → Bool
unfolding trim_space has_prefix ◌=?◌
is_local_fallback_identity value =
    (trim_space value =? local_identity_namespace)
    || has_prefix (trim_space value) (local_identity_namespace ++ b'/' ∷ [])

unfoldable pub forward_slashes : Text → Text
forward_slashes [] = []
forward_slashes (c ∷ s) = (if c == b'\\' then b'/' else c) ∷ forward_slashes s

unfoldable pub is_absolute_slash_path : Text → Bool
unfolding trim_space has_prefix forward_slashes looks_like_windows_drive_path ◌=?◌
is_absolute_slash_path value =
    not (trim_space value =? [])
    && (has_prefix (trim_space value) (codes "/")
        || (has_prefix (forward_slashes (trim_space value)) (codes "/")
            || looks_like_windows_drive_path (forward_slashes (trim_space value))))

unfoldable pub is_path_fallback_identity : Text → Bool
unfolding is_local_fallback_identity is_absolute_slash_path
is_path_fallback_identity value = is_local_fallback_identity value || is_absolute_slash_path value

abbrev pub scheme_of : Text → Option (Text × Text) → Text
scheme_of raw none = raw
scheme_of raw (some (scheme, _)) = scheme

unfoldable pub is_canonical_identity_candidate : Text → Bool
unfolding has_prefix contains cut cut_at looks_like_windows_drive_path is_network_git_url_scheme
    before ◌=?◌
is_canonical_identity_candidate raw =
    if raw =? []
    then false
    else if has_prefix raw (codes "/") || (has_prefix raw (codes ".") || has_prefix raw (codes "~"))
    then false
    else if contains_byte b'\\' raw || looks_like_windows_drive_path raw
    then false
    else if contains raw (codes "://")
    then is_network_git_url_scheme (scheme_of raw (cut_at (codes "://") raw))
    else if contains_byte b':' raw
    then true
    else not (before b'/' raw =? local_identity_namespace)

unfoldable pub passes_canonical_identity_prechecks : Text → Bool
unfolding is_canonical_identity_candidate has_credential_bearing_authority_slug
    has_ambiguous_scp_credential_path
passes_canonical_identity_prechecks raw =
    is_canonical_identity_candidate raw
    && (not (has_credential_bearing_authority_slug raw)
        && not (has_ambiguous_scp_credential_path raw))

abbrev pub ok_info : Result UrlError RepositoryInfo → Option RepositoryInfo
ok_info (ok info) = some info
ok_info (err e) = none

-- The slug's parts, its authority and what `net.SplitHostPort` makes of that.
unfoldable pub authority_slug : Text → Text → Option (Text × Text) → Option RepositoryInfo
unfolding is_canonical_authority_host is_numeric_port repository_info_from_parts split
authority_slug authority remainder none = none
authority_slug authority remainder (some (host, port)) =
    if is_numeric_port port && is_canonical_authority_host host
    then ok_info (repository_info_from_parts authority (split b'/' remainder))
    else none

unfoldable pub slug_of : Option (Text × Text) → Option RepositoryInfo
unfolding split_host_port ◌=?◌ authority_slug
slug_of none = none
slug_of (some (authority, remainder)) =
    if remainder =? [] then none else authority_slug authority remainder (split_host_port authority)

unfoldable pub parse_canonical_authority_slug : Text → Option RepositoryInfo
unfolding cut slug_of
parse_canonical_authority_slug raw = slug_of (cut b'/' raw)

-- Keeps an information whose identity is what the text before it, or another pass, has made of it.
unfoldable pub agreeing : RepositoryInfo → Option RepositoryInfo → Option RepositoryInfo
unfolding ◌=?◌
agreeing info none = none
agreeing info (some reparsed) = if reparsed.full_path =? info.full_path then some info else none

unfoldable pub settle :
    Bool → (Text → Option RepositoryInfo) → RepositoryInfo → Option RepositoryInfo
unfolding agreeing
settle true again info = some info
settle false again info = agreeing info (again info.full_path)

unfoldable pub stable :
    (Text → Option RepositoryInfo) → Text → Result UrlError RepositoryInfo → Option RepositoryInfo
unfolding trim_space ◌=?◌ settle
stable again raw (err e) = none
stable again raw (ok info) =
    if trim_space info.full_path =? [] then none else settle (info.full_path =? raw) again info

unfoldable pub slug_or :
    (Text → Option RepositoryInfo)
    → Text
    → Result UrlError RepositoryInfo
    → Option RepositoryInfo
    → Option RepositoryInfo
unfolding stable
slug_or again raw parsed (some info) = some info
slug_or again raw parsed none = stable again raw parsed

-- A pass shortens the text, or takes the colon of a host and a path away.
abbrev pub passes_for : Text → ℕ
passes_for raw = 2 * length raw + 3

abbrev pub full_path_of : Option RepositoryInfo → Option Text
full_path_of none = none
full_path_of (some info) = some info.full_path

module _ (net : NetUrl) where
  -- What comes behind the first tests, which trim the text.
  unfoldable pub checked : Bool → (Text → Option RepositoryInfo) → Text → Option RepositoryInfo
  unfolding parse_canonical_authority_slug parse_repository_url slug_or
  checked false again s = none
  checked true again s =
      slug_or again s (parse_repository_url net s) (parse_canonical_authority_slug s)

  -- The recursion of `CanonicalRepositoryInfo`, as far as a number of passes.
  unfoldable pub canonical_within : ℕ → Text → Option RepositoryInfo
  unfolding trim_space passes_canonical_identity_prechecks checked
  canonical_within zero raw = none
  canonical_within (suc n) raw =
      checked (passes_canonical_identity_prechecks (trim_space raw)) (canonical_within n)
        (trim_space raw)

  unfoldable pub canonical_repository_info : Text → Option RepositoryInfo
  unfolding canonical_within
  canonical_repository_info raw = canonical_within (passes_for raw) raw

  unfoldable pub canonical_repository_identity : Text → Option Text
  unfolding canonical_repository_info
  canonical_repository_identity raw = full_path_of (canonical_repository_info raw)

  -- `CanonicalRepositoryInfoFromRemote`, behind its first tests.
  unfoldable pub remote_info : Result UrlError RepositoryInfo → Option RepositoryInfo
  unfolding trim_space canonical_repository_info ◌=?◌ agreeing
  remote_info (err e) = none
  remote_info (ok info) =
      if trim_space info.full_path =? []
      then none
      else agreeing info (canonical_repository_info info.full_path)

  unfoldable pub canonical_repository_info_from_remote : Text → Option RepositoryInfo
  unfolding trim_space has_explicit_remote_syntax passes_canonical_identity_prechecks
      parse_repository_url remote_info
  canonical_repository_info_from_remote raw =
      if not (has_explicit_remote_syntax (trim_space raw))
        || not (passes_canonical_identity_prechecks (trim_space raw))
      then none
      else remote_info (parse_repository_url net (trim_space raw))

  unfoldable pub canonical_repository_identity_from_remote : Text → Option Text
  unfolding canonical_repository_info_from_remote
  canonical_repository_identity_from_remote raw =
      full_path_of (canonical_repository_info_from_remote raw)
