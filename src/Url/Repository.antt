-- ===== src/Url/Repository.antt =====
-- internal/url/url.go: the repository that a remote's address names. `net/url` is a parameter.
use kwt.Common.{
  Bool, false, ◌&&◌, ◌||◌, not, Option, none, some, List, [], ◌∷◌, ◌++◌, Text, codes, if◌then◌else◌,
  ◌=?◌, Result, ok, err, ◌>>=◌, ◌>>◌, require, has_prefix, to_lower, contains, contains_byte,
  contains_any, trim_left_of, trim_right_of, trim_suffix, ends_in, split, join,
}
use kwt.Url.Authority.{
  is_some, is_network_git_url_scheme, is_remote_helper_url, Scp, split_scp_like_url,
  looks_like_credential_bearing_scp_path,
}

-- The fields of `url.URL` that are read. A user may have a password.
pub record ParsedUrl : Type 0 where
  pub scheme : Text
  pub user : Option (Option Text)
  pub host : Text
  pub path : Text

-- `url.Parse` and `URL.String`.
pub record NetUrl : Type 0 where
  pub parse : Text → Option ParsedUrl
  pub print : ParsedUrl → Text

pub record RepositoryInfo : Type 0 where
  pub info_host : Text
  pub owner : Text
  pub repository : Text
  pub full_path : Text

pub data UrlError : Type 0 where
  remote_helper unsupported_scheme scp_userinfo parse_failed no_host empty_port userinfo : UrlError
  invalid_component : Text → UrlError
  invalid_path : UrlError

unfoldable pub validate_repository_path_component : Text → Result UrlError Unit
unfolding ◌=?◌
validate_repository_path_component component = do
  require (not (component =? [])) (invalid_component component)
  require (not (component =? codes ".") && not (component =? codes ".."))
      (invalid_component component)
  require (not (contains_any component (codes "/\\"))) (invalid_component component)

unfoldable pub validate_components : List Text → Result UrlError Unit
unfolding validate_repository_path_component
validate_components [] = ok tt
validate_components (part ∷ parts) = do
  validate_repository_path_component part
  validate_components parts

abbrev pub git_suffix : Text
git_suffix = codes ".git"

-- `parts[len(parts)-1] = strings.TrimSuffix(parts[len(parts)-1], ".git")`.
unfoldable pub trim_last : List Text → List Text
unfolding trim_suffix
trim_last [] = []
trim_last (part ∷ []) = trim_suffix git_suffix part ∷ []
trim_last (part ∷ next ∷ parts) = part ∷ trim_last (next ∷ parts)

abbrev pub last_or : Text → List Text → Text
last_or last [] = last
last_or last (part ∷ parts) = last_or part parts

-- The information of a path of two components at least.
unfoldable pub info_of : Text → List Text → RepositoryInfo
unfolding join
info_of authority [] = record {
  info_host = authority;
  owner = [];
  repository = [];
  full_path = authority;
}
info_of authority (owner ∷ parts) = record {
  info_host = authority;
  owner = owner;
  repository = last_or owner parts;
  full_path = authority ++ b'/' ∷ join b'/' (owner ∷ parts);
}

unfoldable pub repository_info_from_parts : Text → List Text → Result UrlError RepositoryInfo
unfolding validate_components trim_last info_of
repository_info_from_parts authority [] = err invalid_path
repository_info_from_parts authority (part ∷ []) = err invalid_path
repository_info_from_parts authority (part ∷ next ∷ parts) = do
  let trimmed = trim_last (part ∷ next ∷ parts)
  validate_components trimmed
  ok (info_of authority trimmed)

abbrev pub or_error {ℓ} : {E A : Type ℓ} → Option A → E → Result E A
or_error none e = err e
or_error (some a) e = ok a

abbrev pub without_user : ParsedUrl → ParsedUrl
without_user u = record { scheme = codes "https"; user = none; host = u.host; path = u.path }

abbrev pub has_password : Option (Option Text) → Bool
has_password none = false
has_password (some password) = is_some password

unfoldable pub is_http : Text → Bool
unfolding ◌=?◌
is_http lowered = (lowered =? codes "http") || (lowered =? codes "https")

module _ (net : NetUrl) where
  abbrev pub print_without_user : ParsedUrl → Result UrlError Text
  print_without_user parsed = do
    require (not (has_password parsed.user)) userinfo
    ok (net.print (without_user parsed))

  unfoldable pub normalize_explicit_network_url : Text → Result UrlError Text
  unfolding is_network_git_url_scheme ◌=?◌ is_http
  normalize_explicit_network_url raw = do
    parsed ← or_error (net.parse raw) parse_failed
    require (is_network_git_url_scheme parsed.scheme) unsupported_scheme
    require (not (parsed.host =? [])) no_host
    if is_http (to_lower parsed.scheme) then ok raw else print_without_user parsed

abbrev pub https : Text
https = codes "https://"

-- `fmt.Sprintf("https://%s/%s", host, strings.TrimLeft(remotePath, "/"))`.
unfoldable pub scp_address : Scp → Text
unfolding trim_left_of
scp_address scp = https ++ scp.host ++ b'/' ∷ trim_left_of b'/' scp.remote_path

unfoldable pub normalize_scp : Text → Option Scp → Result UrlError Text
unfolding has_prefix contains looks_like_credential_bearing_scp_path scp_address
normalize_scp url none =
    ok (if has_prefix url (codes "http://") || has_prefix url https then url else https ++ url)
normalize_scp url (some scp) = do
  require (not (contains_byte b':' scp.user)) scp_userinfo
  require (not (looks_like_credential_bearing_scp_path scp.remote_path)) scp_userinfo
  ok (scp_address scp)

module _ (net : NetUrl) where
  -- `normalizeURL`.
  unfoldable pub normalize_url : Text → Result UrlError Text
  unfolding is_remote_helper_url contains split_scp_like_url has_prefix
      normalize_explicit_network_url normalize_scp
  normalize_url url =
      if is_remote_helper_url url
      then err remote_helper
      else if contains url (codes "://")
      then normalize_explicit_network_url net url
      else if has_prefix (to_lower url) (codes "file:")
      then err unsupported_scheme
      else normalize_scp url (split_scp_like_url url)

  unfoldable pub parse_repository_url : Text → Result UrlError RepositoryInfo
  unfolding normalize_url ends_in validate_repository_path_component repository_info_from_parts
      split trim_left_of trim_right_of ◌=?◌
  parse_repository_url url = do
    normalized ← normalize_url url
    parsed ← or_error (net.parse normalized) parse_failed
    require (not (parsed.host =? [])) no_host
    require (not (ends_in b':' parsed.host)) empty_port
    validate_repository_path_component parsed.host
    repository_info_from_parts parsed.host
        (split b'/' (trim_right_of b'/' (trim_left_of b'/' parsed.path)))
