-- ===== src/Fleet/Utf8.antt =====
-- Valid UTF-8, which is what encoding/json keeps as it is, and the files of a store that consist of it.
use kwt.Common.{
  ℕ, ◌-◌, ◌≡◌, refl, Bool, true, false, ◌&&◌, not, Option, none, some, List, [], ◌∷◌, ◌++◌, Text,
  codes, arith, if◌then◌else◌, ◌==◌, ltb, leb, all, &&-eq-true, if-elim, insert, erase, sort_by,
  insert_by, ◌=?◌, Dict,
}
use kwt.Fleet.Types.{ProjectManifest, WorktreeManifest, Manifest, Warning, StoreFile}
use kwt.Fleet.Warnings.{
  sort_warnings, warning_comes_before, same_subject, replace_warning, upsert_warning,
  warnings_without, collision_warning,
}

-- Between two runes, or inside of one: the bounds of the next byte, and how many follow it.
pub data Utf8State : Type 0 where
  boundary : Utf8State
  inside : ℕ → ℕ → ℕ → Utf8State

abbrev between : ℕ → ℕ → ℕ → Bool
between low high c = leb low c && leb c high

-- The table of well-formed byte sequences of the Unicode standard.
abbrev lead : ℕ → Option Utf8State
lead c =
    if ltb c 128
    then some boundary
    else if between 194 223 c
    then some (inside 128 191 0)
    else if c == 224
    then some (inside 160 191 1)
    else if c == 237
    then some (inside 128 159 1)
    else if between 225 239 c
    then some (inside 128 191 1)
    else if c == 240
    then some (inside 144 191 2)
    else if between 241 243 c
    then some (inside 128 191 2)
    else if c == 244
    then some (inside 128 143 2)
    else none

abbrev next_state : Utf8State → ℕ → Option Utf8State
next_state boundary c = lead c
next_state (inside low high more) c =
    if not (between low high c)
    then none
    else if more == 0
    then some boundary
    else some (inside 128 191 (more - 1))

abbrev is_boundary : Utf8State → Bool
is_boundary boundary = true
is_boundary (inside low high more) = false

ends_well : Option Utf8State → Text → Bool
ends_well none s = false
ends_well (some q) [] = is_boundary q
ends_well (some q) (c ∷ s) = ends_well (next_state q c) s

unfoldable pub is_utf8 : Text → Bool
unfolding ends_well
is_utf8 s = ends_well (some boundary) s

ends_well-append :
    (o : Option Utf8State) (s t : Text)
    → ends_well o s ≡ true
    → ends_well (some boundary) t ≡ true
    → ends_well o (s ++ t) ≡ true
unfolding ends_well
ends_well-append none s t h k = ground arith
ends_well-append (some boundary) [] t h k = k
ends_well-append (some (inside low high more)) [] t h k = ground arith
ends_well-append (some q) (c ∷ s) t h k = ends_well-append (next_state q c) s t h k

is_utf8-append : (s t : Text) → is_utf8 s ≡ true → is_utf8 t ≡ true → is_utf8 (s ++ t) ≡ true
unfolding is_utf8
is_utf8-append s t h k = ends_well-append (some boundary) s t h k

abbrev pub is_utf8_project : ProjectManifest → Bool
is_utf8_project p = is_utf8 p.identity && (is_utf8 p.name && is_utf8 p.local_root)

abbrev pub is_utf8_worktree : WorktreeManifest → Bool
is_utf8_worktree w =
    is_utf8 w.project_identity
    && (is_utf8 w.kind
        && (is_utf8 w.ref
            && (is_utf8 w.branch && (is_utf8 w.path && (is_utf8 w.head && is_utf8 w.upstream)))))

abbrev pub is_utf8_manifest : Manifest → Bool
is_utf8_manifest m =
    is_utf8 m.host_id
    && (is_utf8 m.host.hostname
        && (is_utf8 m.host.platform
            && (all (λ p. is_utf8_project p) m.projects
                && all (λ w. is_utf8_worktree w) m.worktrees)))

abbrev pub is_utf8_warning : Warning → Bool
is_utf8_warning w = is_utf8 w.code && (is_utf8 w.about && is_utf8 w.message)

abbrev pub is_utf8_entry : Text × Manifest → Bool
is_utf8_entry e = is_utf8 e.0 && is_utf8_manifest e.1

unfoldable pub is_utf8_file : StoreFile → Bool
unfolding is_utf8
is_utf8_file file =
    all (λ e. is_utf8_entry e) file.manifests && all (λ w. is_utf8_warning w) file.warnings

all-parts :
    {A : Type 0} (p : A → Bool) (x : A) (xs : List A)
    → all p (x ∷ xs) ≡ true
    → (p x ≡ true) × (all p xs ≡ true)
all-parts p x xs h = ground arith

both_true : (a b : Bool) → a ≡ true → b ≡ true → (a && b) ≡ true
both_true a b h k = ground arith

all_three : (a b c : Bool) → a ≡ true → b ≡ true → c ≡ true → (a && (b && c)) ≡ true
all_three a b c h k l = ground arith

plain_code : is_utf8 (codes "host_id_collision") ≡ true
unfolding is_utf8
plain_code = refl

plain_id : is_utf8 (codes "host ID ") ≡ true
unfolding is_utf8
plain_id = refl

plain_from : is_utf8 (codes " changed host identity from ") ≡ true
unfolding is_utf8
plain_from = refl

plain_to : is_utf8 (codes " to ") ≡ true
unfolding is_utf8
plain_to = refl

plain_slash : is_utf8 (b'/' ∷ []) ≡ true
unfolding is_utf8
plain_slash = refl

module _ {A : Type 0} (p : A → Bool) (less : A → A → Bool) where
  all-insert_by :
      (x : A) (xs : List A) → p x ≡ true → all p xs ≡ true → all p (insert_by less x xs) ≡ true
  unfolding insert_by
  all-insert_by x [] h k = ground arith
  all-insert_by x (y ∷ ys) h k = ground (arith, all-insert_by x ys)

  all-sort_by : (xs : List A) → all p xs ≡ true → all p (sort_by less xs) ≡ true
  unfolding sort_by
  all-sort_by [] k = k
  all-sort_by (x ∷ xs) k =
      let (h, r) = all-parts p x xs k in all-insert_by x (sort_by less xs) h (all-sort_by xs r)

module _ (p : Text × Manifest → Bool) where
  all-insert :
      (k : Text) (m : Manifest) (d : Dict Manifest)
      → p (k, m) ≡ true
      → all p d ≡ true
      → all p (insert k m d) ≡ true
  unfolding insert
  all-insert k m [] h a = ground arith
  all-insert k m (e ∷ d) h a = ground (arith, all-insert k m d)

  all-erase : (k : Text) (d : Dict Manifest) → all p d ≡ true → all p (erase k d) ≡ true
  unfolding erase
  all-erase k [] a = a
  all-erase k (e ∷ d) a = ground (arith, all-erase k d)

pub is_utf8_file-parts :
    (manifests : Dict Manifest) (warnings : List Warning)
    → is_utf8_file (record { manifests = manifests; warnings = warnings }) ≡ true
    → (all (λ e. is_utf8_entry e) manifests ≡ true) × (all (λ w. is_utf8_warning w) warnings ≡ true)
unfolding is_utf8_file
is_utf8_file-parts manifests warnings h = &&-eq-true _ _ h

pub is_utf8_file-made :
    (manifests : Dict Manifest) (warnings : List Warning)
    → all (λ e. is_utf8_entry e) manifests ≡ true
    → all (λ w. is_utf8_warning w) warnings ≡ true
    → is_utf8_file (record { manifests = manifests; warnings = warnings }) ≡ true
unfolding is_utf8_file
is_utf8_file-made manifests warnings h k = rw (h, k) refl

pub is_utf8-insert :
    (m : Manifest) (d : Dict Manifest)
    → is_utf8_manifest m ≡ true
    → all (λ e. is_utf8_entry e) d ≡ true
    → all (λ e. is_utf8_entry e) (insert m.host_id m d) ≡ true
is_utf8-insert m d h k =
    all-insert (λ e. is_utf8_entry e) m.host_id m d (both_true _ _ (&&-eq-true _ _ h).0 h) k

pub is_utf8-erase :
    (k : Text) (d : Dict Manifest)
    → all (λ e. is_utf8_entry e) d ≡ true
    → all (λ e. is_utf8_entry e) (erase k d) ≡ true
is_utf8-erase k d h = all-erase (λ e. is_utf8_entry e) k d h

pub is_utf8-sort_warnings :
    (ws : List Warning)
    → all (λ w. is_utf8_warning w) ws ≡ true
    → all (λ w. is_utf8_warning w) (sort_warnings ws) ≡ true
unfolding sort_warnings
is_utf8-sort_warnings ws h = all-sort_by (λ w. is_utf8_warning w) warning_comes_before ws h

is_utf8-replace_warning :
    (ws : List Warning) (v : Warning)
    → all (λ w. is_utf8_warning w) ws ≡ true
    → is_utf8_warning v ≡ true
    → all (λ w. is_utf8_warning w) (replace_warning ws v) ≡ true
unfolding replace_warning
is_utf8-replace_warning [] v h k = rw k refl
is_utf8-replace_warning (w ∷ ws) v h k =
    let (first, rest) = all-parts (λ x. is_utf8_warning x) w ws h in
    if-elim (λ xs. all (λ x. is_utf8_warning x) xs ≡ true) (same_subject w v) (v ∷ ws)
      (w ∷ replace_warning ws v) (λ _. rw (k, rest) refl)
      (λ _. rw (first, is_utf8-replace_warning ws v rest k) refl)

pub is_utf8-upsert_warning :
    (ws : List Warning) (v : Warning)
    → all (λ w. is_utf8_warning w) ws ≡ true
    → is_utf8_warning v ≡ true
    → all (λ w. is_utf8_warning w) (upsert_warning ws v) ≡ true
unfolding upsert_warning
is_utf8-upsert_warning ws v h k =
    is_utf8-sort_warnings (replace_warning ws v) (is_utf8-replace_warning ws v h k)

pub is_utf8-warnings_without :
    (id : Text) (ws : List Warning)
    → all (λ w. is_utf8_warning w) ws ≡ true
    → all (λ w. is_utf8_warning w) (warnings_without id ws) ≡ true
unfolding warnings_without
is_utf8-warnings_without id [] h = h
is_utf8-warnings_without id (w ∷ ws) h =
    let (first, rest) = all-parts (λ x. is_utf8_warning x) w ws h in
    if-elim (λ xs. all (λ x. is_utf8_warning x) xs ≡ true) (w.about =? id) (warnings_without id ws)
      (w ∷ warnings_without id ws) (λ _. is_utf8-warnings_without id ws rest)
      (λ _. rw (first, is_utf8-warnings_without id ws rest) refl)

pub is_utf8-collision_warning :
    (quote : Text → Text) (existing manifest : Manifest)
    → ((s : Text) → is_utf8 (quote s) ≡ true)
    → is_utf8 manifest.host_id ≡ true
    → is_utf8_warning (collision_warning quote existing manifest) ≡ true
unfolding collision_warning
is_utf8-collision_warning quote existing manifest q h =
    let after_slash : (t : Text) → is_utf8 t ≡ true → is_utf8 (b'/' ∷ t) ≡ true =
      λ t k. is_utf8-append (b'/' ∷ []) t plain_slash k in
    let after : (x t : Text) → is_utf8 t ≡ true → is_utf8 (quote x ++ t) ≡ true =
      λ x t k. is_utf8-append (quote x) t (q x) k in
    let new_host =
      after manifest.host.hostname (b'/' ∷ quote manifest.host.platform)
        (after_slash (quote manifest.host.platform) (q manifest.host.platform)) in
    let to_new = is_utf8-append (codes " to ") _ plain_to new_host in
    let old_host =
      after existing.host.hostname _ (after_slash _ (after existing.host.platform _ to_new)) in
    let from_old = is_utf8-append (codes " changed host identity from ") _ plain_from old_host in
    all_three _ _ _ plain_code h
      (is_utf8-append (codes "host ID ") _ plain_id (after manifest.host_id _ from_old))
