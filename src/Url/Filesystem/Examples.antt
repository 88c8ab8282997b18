-- ===== src/Url/Filesystem/Examples.antt =====
-- Identities with a port as paths.
use kwt.Common.{◌≡◌, refl, codes, arith}
use kwt.Url.Repository.{RepositoryInfo}
use kwt.Url.Filesystem.{encode_filesystem_component}
use kwt.Url.Filesystem.Decoding.{
  decode, decode-encode_filesystem_component, repository_info_for_filesystem_injective, IsByte,
}
use kwt.Common.{All}

abbrev app_info : RepositoryInfo
app_info = record {
  info_host = codes "git:8443";
  owner = codes "t";
  repository = codes "a";
  full_path = codes "git:8443/t/a";
}

encode_run : encode_filesystem_component (codes "git:8443") ≡ codes "git%3A8443"
unfolding encode_filesystem_component
encode_run = refl

component-bytes : All IsByte (codes "git:8443")
component-bytes = grind arith

path-bytes : All IsByte (codes "git:8443/t/a")
path-bytes = grind arith

decode-encode_filesystem_component_example :
    decode (encode_filesystem_component (codes "git:8443")) ≡ codes "git:8443"
decode-encode_filesystem_component_example =
    decode-encode_filesystem_component (codes "git:8443") component-bytes

repository_info_for_filesystem_injective_example : app_info.full_path ≡ app_info.full_path
repository_info_for_filesystem_injective_example =
    repository_info_for_filesystem_injective app_info app_info path-bytes path-bytes refl
