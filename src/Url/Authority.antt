-- ===== src/Url/Authority.antt =====
-- The tests of internal/url on the authority of an address: its scheme, host, port and user.
-- `net.SplitHostPort` is written out from the description in package net.
use kwt.Common.{
  ℕ, Bool, true, false, ◌&&◌, ◌||◌, not, Option, none, some, List, [], ◌∷◌, Text, codes,
  if◌then◌else◌, ◌==◌, ◌=?◌, leb, all, cut, trim_space, to_lower, cut_at, contains, contains_byte,
  contains_any, cut_last, trim_left_of,
}

abbrev pub is_some {ℓ} : {A : Type ℓ} → Option A → Bool
is_some none = false
is_some (some a) = true

-- `first, _, _ := strings.Cut(s, sep)`.
unfoldable pub before : ℕ → Text → Text
unfolding cut
before sep s = elim (cut sep s) [ none ↦ s | some (a, _) ↦ a ]

abbrev pub is_digit : ℕ → Bool
is_digit c = leb b'0' c && leb c b'9'

abbrev pub is_letter : ℕ → Bool
is_letter c = (leb b'a' c && leb c b'z') || (leb b'A' c && leb c b'Z')

unfoldable pub is_numeric_port : Text → Bool
is_numeric_port [] = false
is_numeric_port (c ∷ s) = all is_digit (c ∷ s)

-- The two parts of `net.SplitHostPort`, which has no brackets in what it returns.
abbrev pub without_brackets : Text × Text → Option (Text × Text)
without_brackets (host, port) =
    if contains_any host (codes "[]") || contains_any port (codes "[]")
    then none
    else some (host, port)

-- Behind an opening bracket: the host ends at the closing one, and a port must come right behind.
abbrev pub port_behind : Option (Text × Text) → Option (Text × Text)
port_behind none = none
port_behind (some (host, [])) = none
port_behind (some (host, c ∷ port)) =
    if c == b':' && not (contains_byte b':' port) then without_brackets (host, port) else none

abbrev pub plain_host_port : Option (Text × Text) → Option (Text × Text)
plain_host_port none = none
plain_host_port (some (host, port)) =
    if contains_byte b':' host then none else without_brackets (host, port)

unfoldable pub split_host_port : Text → Option (Text × Text)
unfolding cut cut_last
split_host_port [] = none
split_host_port (c ∷ s) =
    if c == b'[' then port_behind (cut b']' s) else plain_host_port (cut_last b':' (c ∷ s))

abbrev pub default_host : Text → Option (Text × Text) → Text
default_host authority none = authority
default_host authority (some (host, _)) = host

unfoldable pub host_without_port : Text → Text
unfolding split_host_port
host_without_port authority = default_host authority (split_host_port authority)

unfoldable pub is_canonical_authority_host : Text → Bool
unfolding trim_space ◌=?◌
is_canonical_authority_host host =
    not (trim_space host =? []) && not (contains_any host (codes "@/\\"))

unfoldable pub has_numeric_port : Option (Text × Text) → Bool
unfolding is_numeric_port
has_numeric_port none = false
has_numeric_port (some (_, port)) = is_numeric_port port

unfoldable pub has_credential_bearing_authority_slug : Text → Bool
unfolding cut split_host_port has_numeric_port
has_credential_bearing_authority_slug raw = elim (cut b'/' raw) [
  | none ↦ false
  | some (authority, _) ↦
      contains_byte b'@' authority && has_numeric_port (split_host_port authority)
]

unfoldable pub looks_like_windows_drive_path : Text → Bool
looks_like_windows_drive_path (drive ∷ colon ∷ c ∷ _) =
    colon == b':' && is_letter drive && (c == b'/' || c == b'\\')
looks_like_windows_drive_path _ = false

abbrev pub network_schemes : List Text
network_schemes = codes "git" ∷ codes "git+ssh" ∷ codes "http" ∷ codes "https" ∷ codes "ssh" ∷ []

unfoldable pub one_of : Text → List Text → Bool
unfolding ◌=?◌
one_of s [] = false
one_of s (t ∷ ts) = if s =? t then true else one_of s ts

unfoldable pub is_network_git_url_scheme : Text → Bool
unfolding one_of
is_network_git_url_scheme scheme = one_of (to_lower scheme) network_schemes

-- `isURLSchemeChar`.
abbrev pub is_url_scheme_char : Bool → ℕ → Bool
is_url_scheme_char first c =
    if first || is_letter c then is_letter c else is_digit c || c == b'+' || c == b'-' || c == b'.'

abbrev pub are_scheme_chars : Bool → Text → Bool
are_scheme_chars first [] = true
are_scheme_chars first (c ∷ s) =
    if is_url_scheme_char first c then are_scheme_chars false s else false

unfoldable pub is_remote_helper_url : Text → Bool
unfolding cut_at
is_remote_helper_url url = elim (cut_at (codes "::") url) [
  | none ↦ false
  | some (prefix, _) ↦ are_scheme_chars true prefix
]

abbrev pub on_authority : ℕ → Option (Text × Text) → Option (Text × Text)
on_authority c none = none
on_authority c (some (authority, path)) = some (c ∷ authority, path)

-- The loop of `splitSCPLikeURL`: the text before and behind the first colon outside of brackets,
-- if it comes before a slash.
unfoldable pub scp_loop : Bool → Text → Option (Text × Text)
scp_loop in_brackets [] = none
scp_loop in_brackets (c ∷ s) =
    let opened = on_authority c (scp_loop true s) in
    let closed = on_authority c (scp_loop false s) in
    let same = on_authority c (scp_loop in_brackets s) in
    if c == b'['
    then opened
    else if c == b']'
    then closed
    else if c == b':'
    then (if in_brackets then same else some ([], s))
    else if c == b'/'
    then none
    else same

pub record Scp : Type 0 where
  pub host : Text
  pub remote_path : Text
  pub user : Text

unfoldable pub whole_scp : Scp → Option Scp
unfolding ◌=?◌
whole_scp scp = if (scp.host =? []) || (scp.remote_path =? []) then none else some scp

abbrev pub scp_parts : Text → Text → Option (Text × Text) → Scp
scp_parts authority path none = record { host = authority; remote_path = path; user = [] }
scp_parts authority path (some (user, host)) = record {
  host = host;
  remote_path = path;
  user = user;
}

unfoldable pub scp_of : Option (Text × Text) → Option Scp
unfolding cut_last whole_scp
scp_of none = none
scp_of (some (authority, path)) = whole_scp (scp_parts authority path (cut_last b'@' authority))

unfoldable pub split_scp_like_url : Text → Option Scp
unfolding contains cut_last scp_loop ◌=?◌ scp_of
split_scp_like_url raw =
    if (raw =? []) || contains raw (codes "://") then none else scp_of (scp_loop false raw)

unfoldable pub has_ambiguous_scp_credential_path : Text → Bool
unfolding split_scp_like_url trim_left_of cut ◌=?◌ before
has_ambiguous_scp_credential_path raw = elim (split_scp_like_url raw) [
  | none ↦ false
  | some scp ↦
      (scp.user =? []) && contains_byte b'@' (before b'/' (trim_left_of b'/' scp.remote_path))
]

unfoldable pub looks_like_credential_bearing_scp_path : Text → Bool
unfolding cut before
looks_like_credential_bearing_scp_path remote_path = elim (cut b'@' (before b'/' remote_path)) [
  | none ↦ false
  | some (_, rest) ↦ contains_byte b':' rest
]
