-- ===== src/Url/Filesystem.antt =====
-- internal/url/url.go: the authority of an identity as a component of a path.
mod Decoding
mod Examples
use kwt.Common.{
  ℕ, ◌+◌, ◌-◌, ◌/◌, ◌%◌, Bool, true, false, ◌&&◌, ◌||◌, Option, none, some, List, [], ◌∷◌, ◌++◌,
  Text, codes, if◌then◌else◌, ◌==◌, leb, ltb, cut, contains_byte, get_or,
}
use kwt.Url.Repository.{RepositoryInfo}

-- The characters that are kept.
abbrev pub is_unreserved : ℕ → Bool
is_unreserved char =
    (leb b'a' char && leb char b'z')
    || ((leb b'A' char && leb char b'Z')
        || ((leb b'0' char && leb char b'9') || contains_byte char (codes "-._~")))

abbrev pub hex : Text
hex = codes "0123456789ABCDEF"

-- `char >> 4` and `char & 0x0f` of a byte.
unfoldable pub encode_filesystem_component : Text → Text
encode_filesystem_component [] = []
encode_filesystem_component (char ∷ component) =
    if is_unreserved char
    then char ∷ encode_filesystem_component component
    else b'%'
      ∷ get_or hex (char / 16) 0
      ∷ get_or hex (char % 16) 0
      ∷ encode_filesystem_component component

unfoldable pub filesystem_path : Text → Option (Text × Text) → Text
unfolding encode_filesystem_component
filesystem_path full_path none = encode_filesystem_component full_path
filesystem_path full_path (some (authority, remainder)) =
    encode_filesystem_component authority ++ b'/' ∷ remainder

-- Of an information that is not nil.
unfoldable pub repository_info_for_filesystem : RepositoryInfo → RepositoryInfo
unfolding cut encode_filesystem_component filesystem_path
repository_info_for_filesystem info = record {
  info_host = encode_filesystem_component info.info_host;
  owner = info.owner;
  repository = info.repository;
  full_path = filesystem_path info.full_path (cut b'/' info.full_path);
}
