-- ===== src/Fleet/Validation.antt =====
-- `validateStoreManifest` of internal/fleet/store.go.
use kwt.Common.{
  ℕ, suc, Bool, false, ◌||◌, not, Option, none, some, List, [], ◌∷◌, Text, codes, ◌==◌, ◌=?◌,
  Result, ok, ◌>>=◌, ◌>>◌, require, trim_space,
}
use kwt.Url.Repository.{NetUrl}
use kwt.Fleet.Types.{
  ProjectManifest, WorktreeManifest, Manifest, manifest_schema_version, Field, project_field,
  worktree_field, FleetError, host_id_not_normalized, unsupported_schema, identity_required,
  identity_not_canonical, kind_required, kind_unsupported, ref_required,
}
use kwt.Fleet.HostId.{normalize_host_id, normalize_repository_identity}

unfoldable pub is_supported_worktree_kind : Text → Bool
unfolding ◌=?◌
is_supported_worktree_kind kind = (kind =? codes "branch") || (kind =? codes "detached")

unfoldable pub is_identity : Text → Option Text → Bool
unfolding ◌=?◌
is_identity identity none = false
is_identity identity (some normalized) = normalized =? identity

unfoldable pub require_normalized : Text → Result FleetError Unit
unfolding normalize_host_id ◌=?◌
require_normalized host_id = do
  normalized ← normalize_host_id host_id
  require (normalized =? host_id) (host_id_not_normalized host_id normalized)

module _ (net : NetUrl) where
  unfoldable pub validate_canonical_identity : Field → Text → Result FleetError Unit
  unfolding ◌=?◌ trim_space is_identity normalize_repository_identity
  validate_canonical_identity field identity = do
    require (not (trim_space identity =? [])) (identity_required field)
    require (is_identity identity (normalize_repository_identity net identity))
        (identity_not_canonical field)

  -- The loops, from an index on.
  unfoldable pub validate_projects : ℕ → List ProjectManifest → Result FleetError Unit
  unfolding validate_canonical_identity
  validate_projects i [] = ok tt
  validate_projects i (project ∷ projects) = do
    validate_canonical_identity (project_field i) project.identity
    validate_projects (suc i) projects

  unfoldable pub validate_worktree : ℕ → WorktreeManifest → Result FleetError Unit
  unfolding validate_canonical_identity is_supported_worktree_kind ◌=?◌ trim_space
  validate_worktree i worktree = do
    validate_canonical_identity (worktree_field i) worktree.project_identity
    require (not (trim_space worktree.kind =? [])) (kind_required i)
    require (is_supported_worktree_kind worktree.kind) (kind_unsupported i worktree.kind)
    require (not (trim_space worktree.ref =? [])) (ref_required i)

  unfoldable pub validate_worktrees : ℕ → List WorktreeManifest → Result FleetError Unit
  unfolding validate_worktree
  validate_worktrees i [] = ok tt
  validate_worktrees i (worktree ∷ worktrees) = do
    validate_worktree i worktree
    validate_worktrees (suc i) worktrees

  unfoldable pub validate_store_manifest : Manifest → Result FleetError Unit
  unfolding require_normalized validate_projects validate_worktrees
  validate_store_manifest manifest = do
    require (manifest.schema_version == manifest_schema_version)
        (unsupported_schema manifest.schema_version)
    require_normalized manifest.host_id
    validate_projects 0 manifest.projects
    validate_worktrees 0 manifest.worktrees
