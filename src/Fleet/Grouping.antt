-- ===== src/Fleet/Grouping.antt =====
-- `buildFleetState` of internal/fleet/store.go: the rows that the manifests of all hosts add up to.
-- The map of rows is a list in the order of their first worktrees, which is sorted at the end.
mod Rows
mod Totals
mod Examples
use kwt.Common.{
  ℕ, Bool, true, false, ◌&&◌, ◌||◌, not, Option, none, some, List, [], ◌∷◌, ◌++◌, Text, codes, map,
  if◌then◌else◌, ◌=?◌, Result, ok, err, ◌>>=◌, trim_space, text_ltb, sort_by, Dict, lookup, insert,
}
use kwt.Url.Identity.{fold_repository_identity}
use kwt.Fleet.Types.{
  ProjectManifest, WorktreeManifest, Manifest, HostState, Observation, FleetRow, FleetState,
  StoreFile, state_schema_version, FleetError,
}
use kwt.Fleet.Warnings.{sort_warnings}

-- `names[identity]` is the empty text where there is no name.
abbrev pub or_empty : Option Text → Text
or_empty none = []
or_empty (some s) = s

unfoldable pub add_name : ProjectManifest → Dict Text → Dict Text
unfolding trim_space ◌=?◌ lookup insert text_ltb
add_name project names =
    let name = trim_space project.name in
    let current = or_empty (lookup project.identity names) in
    if name =? []
    then names
    else if (current =? []) || text_ltb name current
    then insert project.identity name names
    else names

unfoldable pub add_names : List ProjectManifest → Dict Text → Dict Text
unfolding add_name
add_names [] names = names
add_names (project ∷ projects) names = add_names projects (add_name project names)

unfoldable pub project_names_by_identity : List ProjectManifest → Dict Text
unfolding add_names
project_names_by_identity projects = add_names projects []

unfoldable pub project_name_or_identity : Text → Text → Text
unfolding trim_space ◌=?◌
project_name_or_identity identity name = if trim_space name =? [] then identity else trim_space name

unfoldable pub update_row_project_name : Text → FleetRow → FleetRow
unfolding trim_space ◌=?◌ text_ltb
update_row_project_name project row =
    let name = trim_space project in
    if name =? []
    then row
    else if (row.project_name =? row.row_identity) || text_ltb name row.project_name
    then (record row { project_name = name })
    else row

unfoldable pub update_row_branch : Text → FleetRow → FleetRow
unfolding ◌=?◌ text_ltb
update_row_branch branch row =
    if not (branch =? []) && ((row.row_branch =? []) || text_ltb branch row.row_branch)
    then (record row { row_branch = branch })
    else row

pub record RowKey : Type 0 where
  pub key_identity : Text
  pub key_kind : Text
  pub key_ref : Text

unfoldable pub same_key : RowKey → RowKey → Bool
unfolding ◌=?◌
same_key k l =
    (k.key_identity =? l.key_identity) && ((k.key_kind =? l.key_kind) && (k.key_ref =? l.key_ref))

-- `compareRowKey(left, right) < 0`.
unfoldable pub key_comes_before : RowKey → RowKey → Bool
unfolding ◌=?◌ text_ltb
key_comes_before k l =
    if not (k.key_identity =? l.key_identity)
    then text_ltb k.key_identity l.key_identity
    else if not (k.key_kind =? l.key_kind)
    then text_ltb k.key_kind l.key_kind
    else text_ltb k.key_ref l.key_ref

unfoldable pub row_key : WorktreeManifest → RowKey
unfolding fold_repository_identity
row_key worktree = record {
  key_identity = fold_repository_identity worktree.project_identity;
  key_kind = worktree.kind;
  key_ref = worktree.ref;
}

unfoldable pub observe : Manifest → WorktreeManifest → Observation
observe manifest worktree = record {
  observer = manifest.host_id;
  obs_path = worktree.path;
  obs_head = worktree.head;
  obs_head_time = worktree.head_time;
  obs_upstream = worktree.upstream;
  obs_ahead = worktree.ahead;
  obs_behind = worktree.behind;
  obs_status = worktree.status;
  obs_last_activity = worktree.last_activity;
  obs_observed_at = manifest.observed_at;
  obs_is_main = worktree.is_main;
}

unfoldable pub new_row : Text → WorktreeManifest → FleetRow
unfolding project_name_or_identity
new_row project worktree = record {
  row_identity = worktree.project_identity;
  project_name = project_name_or_identity worktree.project_identity project;
  row_kind = worktree.kind;
  row_ref = worktree.ref;
  row_branch = worktree.branch;
  observations = [];
}

unfoldable pub updated_row : Text → WorktreeManifest → FleetRow → FleetRow
unfolding update_row_branch update_row_project_name
updated_row project worktree row =
    update_row_branch worktree.branch (update_row_project_name project row)

abbrev pub with_observation : Observation → FleetRow → FleetRow
with_observation o row = record row { observations = row.observations ++ o ∷ [] }

abbrev pub Rows : Type 0
Rows = List (RowKey × FleetRow)

-- Changes the row of the worktree's key, or adds one.
unfoldable pub add_worktree : Text → Manifest → WorktreeManifest → Rows → Rows
unfolding row_key observe new_row updated_row same_key
add_worktree project manifest worktree [] =
    (row_key worktree, with_observation (observe manifest worktree) (new_row project worktree)) ∷ []
add_worktree project manifest worktree (e ∷ rows) =
    if same_key e.0 (row_key worktree)
    then (e.0, with_observation (observe manifest worktree) (updated_row project worktree e.1))
      ∷ rows
    else e ∷ add_worktree project manifest worktree rows

unfoldable pub add_worktrees : Dict Text → Manifest → List WorktreeManifest → Rows → Rows
unfolding lookup add_worktree
add_worktrees names manifest [] rows = rows
add_worktrees names manifest (worktree ∷ worktrees) rows =
    add_worktrees names manifest worktrees
      (add_worktree (or_empty (lookup worktree.project_identity names)) manifest worktree rows)

unfoldable pub add_hosts : List (Text × Manifest) → Rows → Rows
unfolding add_worktrees project_names_by_identity
add_hosts [] rows = rows
add_hosts ((_, manifest) ∷ manifests) rows =
    add_hosts manifests
      (add_worktrees (project_names_by_identity manifest.projects) manifest manifest.worktrees rows)

unfoldable pub observation_comes_before : Observation → Observation → Bool
unfolding ◌=?◌ text_ltb
observation_comes_before o p =
    if not (o.observer =? p.observer)
    then text_ltb o.observer p.observer
    else text_ltb o.obs_path p.obs_path

-- The hosts in the order of their ids, which are the keys of a map.
unfoldable pub sort_hosts : Dict Manifest → List (Text × Manifest)
unfolding sort_by text_ltb
sort_hosts = sort_by (λ e f. text_ltb e.0 f.0)

unfoldable pub sort_rows : Rows → Rows
unfolding sort_by key_comes_before
sort_rows = sort_by (λ e f. key_comes_before e.0 f.0)

unfoldable pub sorted_row : RowKey × FleetRow → FleetRow
unfolding sort_by observation_comes_before
sorted_row (_, row) = record row {
  observations = sort_by observation_comes_before row.observations;
}

abbrev pub host_state : Text × Manifest → HostState
host_state (_, manifest) = record {
  state_host_id = manifest.host_id;
  state_hostname = manifest.host.hostname;
  state_platform = manifest.host.platform;
  state_observed_at = manifest.observed_at;
}

-- The state before it has its version.
unfoldable pub unversioned_state : StoreFile → FleetState
unfolding sort_hosts add_hosts sort_rows sorted_row sort_warnings
unversioned_state file = record {
  state_schema = state_schema_version;
  state_version = [];
  hosts = map host_state (sort_hosts file.manifests);
  rows = map sorted_row (sort_rows (add_hosts (sort_hosts file.manifests) []));
  state_warnings = sort_warnings file.warnings;
}

-- With `fleetStateVersion`, which is a digest of the state's JSON.
unfoldable pub build_fleet_state :
    (FleetState → Result FleetError Text) → StoreFile → Result FleetError FleetState
unfolding unversioned_state
build_fleet_state fleet_state_version file = do
  version ← fleet_state_version (unversioned_state file)
  ok (record (unversioned_state file) { state_version = version })
