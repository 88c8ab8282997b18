-- ===== src/Fleet/Grouping/Examples.antt =====
-- Two hosts with worktrees of one repository, which they spell differently.
use kwt.Common.{◌≡◌, refl, true, List, [], ◌∷◌, ◌++◌, Text, codes, map, total, length}
use kwt.Fleet.Types.{ChangeStatus, WorktreeManifest, Manifest, StoreFile}
use kwt.Fleet.Grouping.{RowKey, add_hosts, unversioned_state}
use kwt.Fleet.Grouping.Rows.{observed_at, all_observations_of, add_hosts-observed}
use kwt.Fleet.Grouping.Totals.{unversioned_state-total}

abbrev clean : ChangeStatus
clean = record { modified = 0; added = 0; deleted = 0; untracked = 0; staged = 0; conflicts = 0 }

abbrev worktree : Text → Text → WorktreeManifest
worktree identity path = record {
  project_identity = identity;
  kind = codes "branch";
  ref = codes "main";
  branch = codes "main";
  path = path;
  head = codes "c0";
  head_time = 1;
  upstream = [];
  ahead = 0;
  behind = 0;
  status = clean;
  last_activity = 1;
  is_main = true;
}

abbrev manifest : Text → List WorktreeManifest → Manifest
manifest id worktrees = record {
  schema_version = 1;
  host_id = id;
  host = record { hostname = id; platform = codes "linux" };
  observed_at = 2;
  projects = [];
  worktrees = worktrees;
}

abbrev two_hosts : List (Text × Manifest)
two_hosts =
    (codes "b", manifest (codes "b") (worktree (codes "github.com/A/x") (codes "/b") ∷ []))
    ∷ (codes "a", manifest (codes "a") (worktree (codes "github.com/a/X") (codes "/a") ∷ []))
    ∷ []

abbrev two_host_file : StoreFile
two_host_file = record { manifests = two_hosts; warnings = [] }

-- The two spellings make one row, with the hosts in order.
rows_run :
    map {B = Text × List Text}
      (λ r. (r.row_identity, map (λ o. o.observer) r.observations))
      (unversioned_state two_host_file).rows
    ≡ (codes "github.com/a/X", codes "a" ∷ codes "b" ∷ []) ∷ []
unfolding unversioned_state
rows_run = refl

abbrev x_key : RowKey
x_key = record {
  key_identity = codes "github.com/a/x";
  key_kind = codes "branch";
  key_ref = codes "main";
}

add_hosts-observed_example :
    observed_at x_key (add_hosts two_hosts [])
    ≡ observed_at x_key [] ++ all_observations_of x_key two_hosts
add_hosts-observed_example = add_hosts-observed x_key two_hosts []

unversioned_state-total_example :
    total (λ r. length r.observations) (unversioned_state two_host_file).rows
    ≡ total (λ e. length e.1.worktrees) two_host_file.manifests
unversioned_state-total_example = unversioned_state-total two_host_file
