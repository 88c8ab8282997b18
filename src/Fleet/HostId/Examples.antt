-- ===== src/Fleet/HostId/Examples.antt =====
-- Host ids on concrete texts.
use kwt.Common.{◌≡◌, refl, true, codes, ok, err}
use kwt.Fleet.Types.{invalid_host_id}
use kwt.Fleet.HostId.{matches_host_id_pattern, normalize_host_id}
use kwt.Fleet.HostId.Normal.{normalize_host_id_again}

normalize_run : normalize_host_id (codes " Build-01.local ") ≡ ok (codes "build-01.local")
unfolding normalize_host_id
normalize_run = refl

refused_run : normalize_host_id (codes "a b") ≡ err (invalid_host_id (codes "a b"))
unfolding normalize_host_id
refused_run = refl

normalize_host_id_again_example :
    (matches_host_id_pattern (codes "build-01.local") ≡ true)
    × (normalize_host_id (codes "build-01.local") ≡ ok (codes "build-01.local"))
normalize_host_id_again_example =
    normalize_host_id_again (codes " Build-01.local ") (codes "build-01.local") normalize_run
