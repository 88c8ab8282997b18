-- ===== src/Fleet/HostId.antt =====
-- internal/fleet/identity.go.
mod Normal
mod Examples
use kwt.Common.{
  ℕ, Bool, true, false, ◌&&◌, ◌||◌, not, Option, none, some, List, [], ◌∷◌, Text, codes,
  if◌then◌else◌, ◌==◌, ◌=?◌, leb, all, Result, ok, err, ◌>>=◌, ◌>>◌, require, trim_space, to_lower,
}
use kwt.Url.Repository.{NetUrl}
use kwt.Url.Identity.{canonical_repository_identity}
use kwt.Fleet.Types.{FleetError, host_id_required, invalid_host_id}

-- `[a-z0-9._-]`.
abbrev pub is_host_id_char : ℕ → Bool
is_host_id_char c =
    (leb b'a' c && leb c b'z')
    || ((leb b'0' c && leb c b'9') || (c == b'.' || (c == b'_' || c == b'-')))

unfoldable pub matches_host_id_pattern : Text → Bool
matches_host_id_pattern [] = false
matches_host_id_pattern (c ∷ s) = all is_host_id_char (c ∷ s)

unfoldable pub normalize_host_id : Text → Result FleetError Text
unfolding ◌=?◌ trim_space matches_host_id_pattern
normalize_host_id raw = do
  let host_id = to_lower (trim_space raw)
  require (not (host_id =? [])) host_id_required
  require (matches_host_id_pattern host_id) (invalid_host_id host_id)
  ok host_id

-- With what `os.Hostname` returns.
unfoldable pub default_host_id : Result FleetError Text → Result FleetError Text
unfolding normalize_host_id
default_host_id hostname = do name ← hostname; normalize_host_id name

unfoldable pub normalize_repository_identity : NetUrl → Text → Option Text
unfolding canonical_repository_identity
normalize_repository_identity net raw = canonical_repository_identity net raw
