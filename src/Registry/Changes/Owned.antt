-- ===== src/Registry/Changes/Owned.antt =====
-- The entries that have a path and a creation token, and what the changes of entries leave of them.
use kwt.Common.{
  ◌≡◌, refl, sym, ap, ◌∙◌, subst, ◌≢◌, inl, inr, Bool, true, false, not, Option, none, some, List,
  [], ◌∷◌, Text, arith, map, Bool-cases, ◌=?◌, ◌&&◌, eq_sound, eq_refl, eq_complete, &&-eq-true,
  keep, any, All, lookup, insert, erase, IsKeyed,
}
use kwt.Registry.Entries.{WorktreeEntry, Entries, matches_path}
use kwt.Registry.Changes.{update_key, group_of, match_group, take_match}
use kwt.Registry.Changes.Groups.{IsOwnKeyed}
use kwt.Registry.Changes.Swaps.{values}

module _ (path token : Text) where
  unfoldable pub is_owned : Text × WorktreeEntry → Bool
  unfolding ◌=?◌
  is_owned f = (f.1.path =? path) && (f.1.creation_token =? token)

  -- No owned entry has the key.
  abbrev pub IsFree : Text → Entries → Type 0
  IsFree k x = All (λ f. is_owned f ≡ true → (k =? f.0) ≡ false) x

  -- No owned entry is selected.
  abbrev pub IsSpared : (Text × WorktreeEntry → Bool) → Entries → Type 0
  IsSpared m x = All (λ f. is_owned f ≡ true → m f ≡ false) x

  pub is_owned-parts :
      (f : Text × WorktreeEntry)
      → is_owned f ≡ true
      → (f.1.path ≡ path) × (f.1.creation_token ≡ token)
  unfolding is_owned
  is_owned-parts f h = let b = &&-eq-true _ _ h in (eq_sound _ _ b.0, eq_sound _ _ b.1)

  pub any-keep_spared :
      (m : Text × WorktreeEntry → Bool) (x : Entries)
      → IsSpared m x
      → any is_owned x ≡ true
      → any is_owned (keep (λ f. not (m f)) x) ≡ true
  any-keep_spared m [] h a = a
  any-keep_spared m (f ∷ x) h a = ground (arith, any-keep_spared m x h.1, h.0)

  pub any-insert_free :
      (k : Text) (e : WorktreeEntry) (x : Entries)
      → IsFree k x
      → any is_owned x ≡ true
      → any is_owned (insert k e x) ≡ true
  unfolding insert
  any-insert_free k e [] h a = ground arith
  any-insert_free k e (f ∷ x) h a = ground (arith, any-insert_free k e x h.1, h.0)

  pub any-erase_free :
      (k : Text) (x : Entries)
      → IsFree k x
      → any is_owned x ≡ true
      → any is_owned (erase k x) ≡ true
  unfolding erase
  any-erase_free k [] h a = a
  any-erase_free k (f ∷ x) h a = ground (arith, any-erase_free k x h.1, h.0)

  pub any-update_key_free :
      (k : Text) (g : WorktreeEntry → WorktreeEntry) (x : Entries)
      → IsFree k x
      → any is_owned x ≡ true
      → any is_owned (update_key k g x) ≡ true
  unfolding update_key
  any-update_key_free k g [] h a = a
  any-update_key_free k g (f ∷ x) h a =
      ground (arith, any-update_key_free k g x h.1, h.0, eq_sound f.0 k, eq_complete k f.0)

  -- Where none of the selected entries is owned, the selection spares the owned ones.
  pub spared :
      (m : Text × WorktreeEntry → Bool) (x : Entries)
      → All (λ f. is_owned f ≡ false) (keep m x)
      → IsSpared m x
  spared m [] h = tt
  spared m (f ∷ x) h = elim (Bool-cases (m f)) [
    | inl t ↦ let g = rw t at h in ((λ w. ground (arith, w, g.0)), spared m x g.1)
    | inr n ↦ ((λ _. n), spared m x (rw n at h))
  ]

  module _ (canonical : Text → Text) (q : Text) where
    matched :
        (k : Text) (e : WorktreeEntry)
        → k ≡ e.path
        → canonical k ≡ canonical q
        → matches_path canonical q (k, e) ≡ true
    unfolding matches_path
    matched k e o c =
        ground (arith, eq_complete (canonical e.path) (canonical q) (ap canonical (sym o) ∙ c))

    -- A key that stands for the same path as a selection that spares the owned entries is none of
    -- theirs.
    pub matches_path-IsFree :
        (k : Text) (x : Entries)
        → canonical k ≡ canonical q
        → IsOwnKeyed x
        → IsSpared (matches_path canonical q) x
        → IsFree k x
    matches_path-IsFree k [] c o s = tt
    matches_path-IsFree k (f ∷ x) c o s = (
      (λ w. elim (Bool-cases (k =? f.0)) [
        | inl e ↦
            ground (arith, s.0 w, matched f.0 f.1 o.0 (ap canonical (sym (eq_sound k f.0 e)) ∙ c))
        | inr n ↦ n
      ]),
      matches_path-IsFree k x c o.1 s.1,
    )

    -- A key of a matching entry stands for the same path.
    pub canonical_of_match :
        (k : Text) (e : WorktreeEntry)
        → k ≡ e.path
        → matches_path canonical q (k, e) ≡ true
        → canonical k ≡ canonical q
    unfolding matches_path
    canonical_of_match k e o h = elim (Bool-cases (k =? q)) [
      | inl t ↦ ap canonical (eq_sound k q t)
      | inr n ↦ elim (Bool-cases (e.path =? q)) [
        | inl t ↦ ap canonical (o ∙ eq_sound e.path q t)
        | inr f ↦ ap canonical o ∙ eq_sound (canonical e.path) (canonical q) (rw (n, f) at h)
      ]
    ]

  -- Entries whose values are known.
  pub not_owned_values :
      (y : Entries) (es : List WorktreeEntry)
      → values y ≡ es
      → All (λ e. e.creation_token ≢ token) es
      → All (λ f. is_owned f ≡ false) y
  unfolding is_owned
  not_owned_values y es q h = not_owned y (subst (All (λ e. e.creation_token ≢ token)) (sym q) h)
    where
      not_owned :
          (z : Entries)
          → All (λ e. e.creation_token ≢ token) (values z)
          → All (λ f. is_owned f ≡ false) z
      not_owned [] u = tt
      not_owned (f ∷ z) u = (
        elim (Bool-cases (f.1.creation_token =? token)) [
          | inl t ↦ elim (u.0 (eq_sound f.1.creation_token token t)) [ ]
          | inr n ↦ ground (arith, n)
        ],
        not_owned z u.1,
      )

lookups-cons :
    (g : Text × WorktreeEntry) (x z : Entries)
    → All (λ f. (f.0 =? g.0) ≡ false) z
    → All (λ f. lookup f.0 x ≡ some f.1) z
    → All (λ f. lookup f.0 (g ∷ x) ≡ some f.1) z
unfolding lookup
lookups-cons g x [] n h = tt
lookups-cons g x (f ∷ z) n h = (rw n.0 h.0, lookups-cons g x z n.1 h.1)

pub lookups : (x : Entries) → IsKeyed x → All (λ f. lookup f.0 x ≡ some f.1) x
unfolding lookup
lookups [] d = tt
lookups (f ∷ x) d = (rw (eq_refl f.0) refl, lookups-cons f x x d.0 (lookups x d.1))

pub group_of-values :
    (x y : Entries)
    → All (λ f. lookup f.0 x ≡ some f.1) y
    → group_of x (map (λ f. f.0) y) ≡ values y
unfolding group_of
group_of-values x [] h = refl
group_of-values x (f ∷ y) h = rw (group_of, h.0) (ap (◌∷◌ f.1) (group_of-values x y h.1))

pub match_group-unowned :
    (group expected : List WorktreeEntry)
    → match_group group expected ≡ true
    → All (λ e. e.creation_token ≡ []) group
unfolding match_group
match_group-unowned [] expected h = tt
match_group-unowned (e ∷ group) expected h = elim (Bool-cases (e.creation_token =? [])) [
  | inl t ↦ (
    eq_sound e.creation_token [] t,
    rest (match_group-unowned group) (take_match e expected) (rw t at h),
  )
  | inr n ↦ ground (arith, rw n at h)
]
  where
    rest :
        ((es : List WorktreeEntry)
          → match_group group es ≡ true
          → All (λ f. f.creation_token ≡ []) group)
        → (o : Option (List WorktreeEntry))
        → elim o [ none ↦ false | some r ↦ match_group group r ] ≡ true
        → All (λ f. f.creation_token ≡ []) group
    rest again none b = ground arith
    rest again (some r) b = again r b
