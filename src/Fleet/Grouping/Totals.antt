-- ===== src/Fleet/Grouping/Totals.antt =====
-- How many observations a state has.
use kwt.Common.{
  ℕ, suc, ◌+◌, ◌≡◌, refl, ap, text_ltb, List, [], ◌∷◌, Text, arith, map, if-elim, length,
  length-append, total, total-sort_by, length-sort_by, Dict, lookup,
}
use kwt.Fleet.Types.{WorktreeManifest, Manifest, FleetRow, StoreFile}
use kwt.Fleet.Grouping.{
  or_empty, project_names_by_identity, RowKey, same_key, row_key, observe, new_row, updated_row,
  with_observation, Rows, add_worktree, add_worktrees, add_hosts, sort_hosts, sort_rows, sorted_row,
  unversioned_state, observation_comes_before, key_comes_before,
}
use kwt.Fleet.Grouping.Rows.{updated-observations}

abbrev row_total : RowKey × FleetRow → ℕ
row_total e = length e.1.observations

abbrev host_total : Text × Manifest → ℕ
host_total e = length e.1.worktrees

add_worktree-total :
    (project : Text) (m : Manifest) (w : WorktreeManifest) (rows : Rows)
    → total row_total (add_worktree project m w rows) ≡ suc (total row_total rows)
unfolding add_worktree new_row
add_worktree-total project m w [] = refl
add_worktree-total project m w (e ∷ rows) =
    if-elim (λ r. total row_total r ≡ suc (total row_total (e ∷ rows))) (same_key e.0 (row_key w))
      ((e.0, with_observation (observe m w) (updated_row project w e.1)) ∷ rows)
      (e ∷ add_worktree project m w rows)
      (λ _. omega (
        arith,
        length-append (updated_row project w e.1).observations (observe m w ∷ []),
        ap length (updated-observations project w e.1),
      ))
      (λ _. omega (arith, add_worktree-total project m w rows))

add_worktrees-total :
    (names : Dict Text) (m : Manifest) (ws : List WorktreeManifest) (rows : Rows)
    → total row_total (add_worktrees names m ws rows) ≡ total row_total rows + length ws
unfolding add_worktrees
add_worktrees-total names m [] rows = omega arith
add_worktrees-total names m (w ∷ ws) rows =
    let name = or_empty (lookup w.project_identity names) in
    omega (
      arith,
      add_worktrees-total names m ws (add_worktree name m w rows),
      add_worktree-total name m w rows,
    )

add_hosts-total :
    (manifests : List (Text × Manifest)) (rows : Rows)
    → total row_total (add_hosts manifests rows) ≡ total row_total rows + total host_total manifests
unfolding add_hosts
add_hosts-total [] rows = omega arith
add_hosts-total ((_, m) ∷ manifests) rows =
    let names = project_names_by_identity m.projects in
    omega (
      arith,
      add_hosts-total manifests (add_worktrees names m m.worktrees rows),
      add_worktrees-total names m m.worktrees rows,
    )

sorted_row-total :
    (rows : Rows) → total (λ r. length r.observations) (map sorted_row rows) ≡ total row_total rows
unfolding sorted_row
sorted_row-total [] = refl
sorted_row-total (e ∷ rows) =
    omega (arith, length-sort_by observation_comes_before e.1.observations, sorted_row-total rows)

-- The rows of a state have as many observations as the stored manifests have worktrees: none is lost
-- or counted twice, however the keys meet.
pub unversioned_state-total :
    (file : StoreFile)
    → total (λ r. length r.observations) (unversioned_state file).rows
      ≡ total (λ e. length e.1.worktrees) file.manifests
unfolding unversioned_state sort_hosts sort_rows
unversioned_state-total file =
    let hosts = sort_hosts file.manifests in
    let rows = add_hosts hosts [] in
    omega (
      arith,
      sorted_row-total (sort_rows rows),
      total-sort_by row_total (λ e f. key_comes_before e.0 f.0) rows,
      add_hosts-total hosts [],
      total-sort_by host_total (λ e f. text_ltb e.0 f.0) file.manifests,
    )
