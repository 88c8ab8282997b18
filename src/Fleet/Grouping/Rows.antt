-- ===== src/Fleet/Grouping/Rows.antt =====
-- Which worktrees a row gathers, and that none is lost.
use kwt.Common.{
  ◌≡◌, refl, sym, ap, ◌∙◌, not, ◌||◌, text_ltb, trim_space, inl, inr, Bool, true, false, ◌&&◌, List,
  [], ◌∷◌, ◌++◌, append_assoc, append-nil, Text, arith, map, Bool-cases, if-elim, if◌then◌else◌,
  ◌=?◌, eq_sound, eq_refl, keep, Dict, lookup,
}
use kwt.Fleet.Types.{WorktreeManifest, Manifest, Observation, FleetRow}
use kwt.Fleet.Grouping.{
  or_empty, project_names_by_identity, RowKey, same_key, row_key, observe, new_row, updated_row,
  Rows, add_worktree, add_worktrees, add_hosts, update_row_project_name, update_row_branch,
}

-- The observations of the row with a key.
abbrev pub observed_at : RowKey → Rows → List Observation
observed_at k [] = []
observed_at k (e ∷ rows) = if same_key e.0 k then e.1.observations else observed_at k rows

-- The description: the worktrees with a key, host by host.
abbrev pub observations_of : RowKey → Manifest → List Observation
observations_of k manifest =
    map (observe manifest) (keep (λ w. same_key (row_key w) k) manifest.worktrees)

abbrev pub all_observations_of : RowKey → List (Text × Manifest) → List Observation
all_observations_of k [] = []
all_observations_of k ((_, manifest) ∷ manifests) =
    observations_of k manifest ++ all_observations_of k manifests

same_key_sound : (k l : RowKey) → same_key k l ≡ true → k ≡ l
unfolding same_key
same_key_sound k l h = ground (
  arith,
  eq_sound k.key_identity l.key_identity,
  eq_sound k.key_kind l.key_kind,
  eq_sound k.key_ref l.key_ref,
)

update_row_branch-observations :
    (branch : Text) (row : FleetRow)
    → (update_row_branch branch row).observations ≡ row.observations
unfolding update_row_branch
update_row_branch-observations branch row =
    if-elim {A = FleetRow} (λ r. r.observations ≡ row.observations)
      (not (branch =? []) && ((row.row_branch =? []) || text_ltb branch row.row_branch))
      (record row { row_branch = branch }) row (λ _. refl) (λ _. refl)

update_row_project_name-observations :
    (project : Text) (row : FleetRow)
    → (update_row_project_name project row).observations ≡ row.observations
unfolding update_row_project_name
update_row_project_name-observations project row =
    let name = trim_space project in
    let named : FleetRow = record row { project_name = name } in
    let free = (row.project_name =? row.row_identity) || text_ltb name row.project_name in
    if-elim {A = FleetRow} (λ r. r.observations ≡ row.observations) (name =? []) row
      (if free then named else row) (λ _. refl)
      (λ _.
        if-elim {A = FleetRow} (λ r. r.observations ≡ row.observations) free named row (λ _. refl)
          (λ _. refl))

pub updated-observations :
    (project : Text) (w : WorktreeManifest) (row : FleetRow)
    → (updated_row project w row).observations ≡ row.observations
unfolding updated_row
updated-observations project w row =
    update_row_branch-observations w.branch (update_row_project_name project row)
    ∙ update_row_project_name-observations project row

same_key_refl : (k : RowKey) → same_key k k ≡ true
unfolding same_key
same_key_refl k = ground (arith, eq_refl k.key_identity, eq_refl k.key_kind, eq_refl k.key_ref)

same_key-apart :
    (e r k : RowKey) → same_key e r ≡ false → same_key e k ≡ true → same_key r k ≡ false
same_key-apart e r k n h = elim (Bool-cases (same_key r k)) [
  | inl t ↦
      let same = same_key_sound e k h ∙ sym (same_key_sound r k t) in
      ground (arith, sym n ∙ (ap (λ l. same_key l r) same ∙ same_key_refl r))
  | inr f ↦ f
]

joined_here :
    (b c : Bool) (u v x : List Observation) (o : Observation)
    → b ≡ c
    → u ≡ v
    → (if b then u ++ o ∷ [] else x)
      ≡ (if c then (if b then v else x) ++ o ∷ [] else (if b then v else x))
joined_here true true u v x o h e = ap (λ y. y ++ o ∷ []) e
joined_here true false u v x o h e = ground arith
joined_here false true u v x o h e = ground arith
joined_here false false u v x o h e = refl

joined_later :
    (b c : Bool) (u x y : List Observation) (o : Observation)
    → (b ≡ true → c ≡ false)
    → y ≡ (if c then x ++ o ∷ [] else x)
    → (if b then u else y) ≡ (if c then (if b then u else x) ++ o ∷ [] else (if b then u else x))
joined_later true true u x y o h e = ground (arith, h refl)
joined_later true false u x y o h e = refl
joined_later false true u x y o h e = e
joined_later false false u x y o h e = e

add_worktree-observed :
    (project : Text) (m : Manifest) (w : WorktreeManifest) (k : RowKey) (rows : Rows)
    → observed_at k (add_worktree project m w rows) ≡ (
        if same_key (row_key w) k
        then observed_at k rows ++ observe m w ∷ []
        else observed_at k rows)
unfolding add_worktree new_row
add_worktree-observed project m w k [] = refl
add_worktree-observed project m w k (e ∷ rows) = elim (Bool-cases (same_key e.0 (row_key w))) [
  | inl h ↦ rw h (
      joined_here (same_key e.0 k) (same_key (row_key w) k) (updated_row project w e.1).observations
        e.1.observations (observed_at k rows) (observe m w)
        (ap (λ l. same_key l k) (same_key_sound e.0 (row_key w) h))
        (updated-observations project w e.1))
  | inr n ↦ rw n (
      joined_later (same_key e.0 k) (same_key (row_key w) k) e.1.observations (observed_at k rows)
        (observed_at k (add_worktree project m w rows)) (observe m w)
        (same_key-apart e.0 (row_key w) k n) (add_worktree-observed project m w k rows))
]

one_more :
    (c : Bool) (m : Manifest) (w : WorktreeManifest) (x : List Observation)
    (ws : List WorktreeManifest)
    → (if c then x ++ observe m w ∷ [] else x) ++ map (observe m) ws
      ≡ x ++ map (observe m) (if c then w ∷ ws else ws)
one_more true m w x ws = append_assoc x (observe m w ∷ []) (map (observe m) ws)
one_more false m w x ws = refl

add_worktrees-observed :
    (names : Dict Text) (m : Manifest) (k : RowKey) (ws : List WorktreeManifest) (rows : Rows)
    → observed_at k (add_worktrees names m ws rows)
      ≡ observed_at k rows ++ map (observe m) (keep (λ w. same_key (row_key w) k) ws)
unfolding add_worktrees
add_worktrees-observed names m k [] rows = sym (append-nil (observed_at k rows))
add_worktrees-observed names m k (w ∷ ws) rows =
    let name = or_empty (lookup w.project_identity names) in
    let kept = keep (λ v. same_key (row_key v) k) ws in
    add_worktrees-observed names m k ws (add_worktree name m w rows)
    ∙ (ap (λ x. x ++ map (observe m) kept) (add_worktree-observed name m w k rows)
        ∙ one_more (same_key (row_key w) k) m w (observed_at k rows) kept)

-- The row with a key has the observations of the worktrees with that key, host after host and each
-- host's in its order, and no others, whatever rows there were before.
pub add_hosts-observed :
    (k : RowKey) (manifests : List (Text × Manifest)) (rows : Rows)
    → observed_at k (add_hosts manifests rows)
      ≡ observed_at k rows ++ all_observations_of k manifests
unfolding add_hosts
add_hosts-observed k [] rows = sym (append-nil (observed_at k rows))
add_hosts-observed k ((_, m) ∷ manifests) rows =
    let names = project_names_by_identity m.projects in
    add_hosts-observed k manifests (add_worktrees names m m.worktrees rows)
    ∙ (ap (λ x. x ++ all_observations_of k manifests)
          (add_worktrees-observed names m k m.worktrees rows)
        ∙ append_assoc (observed_at k rows) (observations_of k m) (all_observations_of k manifests))
