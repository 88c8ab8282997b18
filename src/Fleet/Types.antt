-- ===== src/Fleet/Types.antt =====
-- internal/fleet/types.go, and the file of internal/fleet/store.go. A time is the number of its
-- nanoseconds.
use kwt.Common.{ℕ, Bool, List, Text, Dict}

pub record HostInfo : Type 0 where
  pub hostname : Text
  pub platform : Text

pub record ProjectManifest : Type 0 where
  pub identity : Text
  pub name : Text
  pub local_root : Text

pub record ChangeStatus : Type 0 where
  pub modified : ℕ
  pub added : ℕ
  pub deleted : ℕ
  pub untracked : ℕ
  pub staged : ℕ
  pub conflicts : ℕ

pub record WorktreeManifest : Type 0 where
  pub project_identity : Text
  pub kind : Text
  pub ref : Text
  pub branch : Text
  pub path : Text
  pub head : Text
  pub head_time : ℕ
  pub upstream : Text
  pub ahead : ℕ
  pub behind : ℕ
  pub status : ChangeStatus
  pub last_activity : ℕ
  pub is_main : Bool

pub record Manifest : Type 0 where
  pub schema_version : ℕ
  pub host_id : Text
  pub host : HostInfo
  pub observed_at : ℕ
  pub projects : List ProjectManifest
  pub worktrees : List WorktreeManifest

pub record HostState : Type 0 where
  pub state_host_id : Text
  pub state_hostname : Text
  pub state_platform : Text
  pub state_observed_at : ℕ

pub record Observation : Type 0 where
  pub observer : Text
  pub obs_path : Text
  pub obs_head : Text
  pub obs_head_time : ℕ
  pub obs_upstream : Text
  pub obs_ahead : ℕ
  pub obs_behind : ℕ
  pub obs_status : ChangeStatus
  pub obs_last_activity : ℕ
  pub obs_observed_at : ℕ
  pub obs_is_main : Bool

pub record FleetRow : Type 0 where
  pub row_identity : Text
  pub project_name : Text
  pub row_kind : Text
  pub row_ref : Text
  pub row_branch : Text
  pub observations : List Observation

pub record Warning : Type 0 where
  pub code : Text
  pub about : Text
  pub message : Text

pub record FleetState : Type 0 where
  pub state_schema : ℕ
  pub state_version : Text
  pub hosts : List HostState
  pub rows : List FleetRow
  pub state_warnings : List Warning

pub record StoreFile : Type 0 where
  pub manifests : Dict Manifest
  pub warnings : List Warning

abbrev pub manifest_schema_version : ℕ
manifest_schema_version = 1

abbrev pub state_schema_version : ℕ
state_schema_version = 1

pub data Field : Type 0 where
  project_field : ℕ → Field
  worktree_field : ℕ → Field

-- The failures of the store. `outside` is one of the context, the file system or an encoder.
pub data FleetError : Type 0 where
  host_id_required : FleetError
  invalid_host_id : Text → FleetError
  host_id_not_normalized : Text → Text → FleetError
  unsupported_schema : ℕ → FleetError
  identity_required : Field → FleetError
  identity_not_canonical : Field → FleetError
  kind_required : ℕ → FleetError
  kind_unsupported : ℕ → Text → FleetError
  ref_required : ℕ → FleetError
  outside : ℕ → FleetError
