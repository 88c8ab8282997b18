-- ===== src/Registry/Changes/Held.antt =====
-- Entries of which one is owned and none has its path without its token, and the changes that keep
-- that.
use kwt.Common.{
  ◌≡◌, refl, sym, ◌∙◌, ◌≢◌, ◌⊎◌, inl, inr, Bool, true, false, not, List, [], ◌∷◌, Text, arith,
  Bool-cases, ◌=?◌, eq_sound, keep, any, All, All-keep, All-mono, All-insert, All-erase, insert,
  erase, IsKeyed, eq_complete, map,
}
use kwt.Registry.Entries.{WorktreeEntry, Entries, enter_all, load_entries, saved_entries}
use kwt.Registry.Changes.{update_key}
use kwt.Registry.Changes.Groups.{
  eq_false-sym, IsOwnKeyed, load_entries-IsKeyed, load_entries-IsOwnKeyed,
}
use kwt.Registry.Changes.Owned.{
  is_owned, is_owned-parts, IsFree, IsSpared, any-keep_spared, any-insert_free, any-erase_free,
  any-update_key_free,
}

module _ (path token : Text) where
  -- An entry of the path has the token.
  abbrev pub IsTaken : Text × WorktreeEntry → Type 0
  IsTaken f = f.1.path ≡ path → f.1.creation_token ≡ token

  abbrev pub IsHeld : Entries → Type 0
  IsHeld x = (any (is_owned path token) x ≡ true) × All IsTaken x

  pub IsFree-apart :
      (k : Text) (x : Entries)
      → IsFree path token k x
      → IsOwnKeyed x
      → any (is_owned path token) x ≡ true
      → k ≢ path
  IsFree-apart k [] f o a w = ground arith
  IsFree-apart k (g ∷ x) f o a w = elim (Bool-cases (is_owned path token g)) [
    | inl t ↦
        ground (arith, f.0 t, eq_complete k g.0 (w ∙ sym (o.0 ∙ (is_owned-parts path token g t).0)))
    | inr n ↦ IsFree-apart k x f.1 o.1 (rw n at a) w
  ]

  pub keep-IsHeld :
      (m : Text × WorktreeEntry → Bool) (x : Entries)
      → IsSpared path token m x
      → IsHeld x
      → IsHeld (keep (λ f. not (m f)) x)
  keep-IsHeld m x s h =
      (any-keep_spared path token m x s h.0, All-keep IsTaken (λ f. not (m f)) x h.1)

  pub insert-IsHeld :
      (e : WorktreeEntry) (x : Entries)
      → IsFree path token e.path x
      → IsOwnKeyed x
      → IsHeld x
      → IsHeld (insert e.path e x)
  insert-IsHeld e x f o h = (
    any-insert_free path token e.path e x f h.0,
    All-insert IsTaken e.path e x (λ w. elim (IsFree-apart e.path x f o h.0 w) [ ]) h.1,
  )

  pub erase-IsHeld :
      (k : Text) (x : Entries) → IsFree path token k x → IsHeld x → IsHeld (erase k x)
  erase-IsHeld k x f h = (any-erase_free path token k x f h.0, All-erase IsTaken k x h.1)

  updated-IsTaken :
      (k : Text) (g : WorktreeEntry → WorktreeEntry) (x : Entries)
      → k ≢ path
      → ((e : WorktreeEntry) → e.path ≢ path → (g e).path ≢ path)
      → IsOwnKeyed x
      → All IsTaken x
      → All IsTaken (update_key k g x)
  unfolding update_key
  updated-IsTaken k g [] a c o h = tt
  updated-IsTaken k g (f ∷ x) a c o h = elim (Bool-cases (f.0 =? k)) [
    | inl t ↦ rw t ((λ w. elim (c f.1 (λ u. a (sym (eq_sound f.0 k t) ∙ o.0 ∙ u)) w) [ ]), h.1)
    | inr n ↦ rw n (h.0, updated-IsTaken k g x a c o.1 h.1)
  ]

  pub update_key-IsHeld :
      (k : Text) (g : WorktreeEntry → WorktreeEntry) (x : Entries)
      → IsFree path token k x
      → ((e : WorktreeEntry) → e.path ≢ path → (g e).path ≢ path)
      → IsOwnKeyed x
      → IsHeld x
      → IsHeld (update_key k g x)
  update_key-IsHeld k g x f c o h = (
    any-update_key_free path token k g x f h.0,
    updated-IsTaken k g x (IsFree-apart k x f o h.0) c o h.1,
  )

  own-IsFree : (k : Text) (x : Entries) → k ≢ path → IsOwnKeyed x → IsFree path token k x
  own-IsFree k [] n o = tt
  own-IsFree k (f ∷ x) n o = (
    (λ w. elim (Bool-cases (k =? f.0)) [
      | inl t ↦ elim (n (eq_sound k f.0 t ∙ o.0 ∙ (is_owned-parts path token f w).0)) [ ]
      | inr b ↦ b
    ]),
    own-IsFree k x n o.1,
  )

  inserted_any :
      (k : Text) (e : WorktreeEntry) (x : Entries)
      → is_owned path token (k, e) ≡ true
      → any (is_owned path token) (insert k e x) ≡ true
  unfolding insert
  inserted_any k e [] t = rw t refl
  inserted_any k e (f ∷ x) t = ground (arith, t, inserted_any k e x t)

  taken_owned :
      (e : WorktreeEntry)
      → IsTaken (e.path, e)
      → e.path ≡ path
      → is_owned path token (e.path, e) ≡ true
  unfolding is_owned
  taken_owned e t w =
      ground (arith, eq_complete e.path path w, eq_complete e.creation_token token (t w))

  entered_any :
      (e : WorktreeEntry) (x : Entries)
      → IsTaken (e.path, e)
      → IsOwnKeyed x
      → any (is_owned path token) x ≡ true
      → any (is_owned path token) (insert e.path e x) ≡ true
  entered_any e x t o a = elim (Bool-cases (e.path =? path)) [
    | inl w ↦ inserted_any e.path e x (taken_owned e t (eq_sound e.path path w))
    | inr n ↦
        any-insert_free path token e.path e x
          (own-IsFree e.path x (λ w. ground (arith, n, eq_complete e.path path w)) o) a
  ]

  -- Keys of entries without the path.
  others-IsTaken :
      (g : Text) (y : Entries)
      → g ≡ path
      → All (λ f. (f.0 =? g) ≡ false) y
      → IsOwnKeyed y
      → All IsTaken y
  others-IsTaken g [] w n o = tt
  others-IsTaken g (f ∷ y) w n o = (
    (λ u. ground (arith, n.0, eq_complete f.0 g (o.0 ∙ u ∙ sym w))),
    others-IsTaken g y w n.1 o.1,
  )

  keyed-IsTaken :
      (x : Entries) → IsKeyed x → IsOwnKeyed x → any (is_owned path token) x ≡ true → All IsTaken x
  keyed-IsTaken [] d o a = tt
  keyed-IsTaken (f ∷ x) d o a = elim (Bool-cases (is_owned path token f)) [
    | inl t ↦
        let parts = is_owned-parts path token f t in
        ((λ _. parts.1), others-IsTaken f.0 x (o.0 ∙ parts.0) d.0 o.1)
    | inr n ↦
        let rest = rw n at a in
        (
          (λ u.
              elim (IsFree-apart f.0 x
                (All-mono (λ g. (g.0 =? f.0) ≡ false)
                  (λ g. is_owned path token g ≡ true → (f.0 =? g.0) ≡ false) x
                  (λ g b _. eq_false-sym g.0 f.0 b) d.0)
                o.1 rest (o.0 ∙ u)) [ ]),
          keyed-IsTaken x d.1 o.1 rest,
        )
  ]

  pub load_entries-IsHeld :
      (es : List WorktreeEntry)
      → any (is_owned path token) (load_entries es) ≡ true
      → IsHeld (load_entries es)
  load_entries-IsHeld es a =
      (a, keyed-IsTaken (load_entries es) (load_entries-IsKeyed es) (load_entries-IsOwnKeyed es) a)

  entered-any :
      (y z : Entries)
      → All IsTaken y
      → IsOwnKeyed z
      → (any (is_owned path token) y ≡ true) ⊎ (any (is_owned path token) z ≡ true)
      → any (is_owned path token) (enter_all (map (λ f. f.1) y) z) ≡ true
  unfolding enter_all is_owned
  entered-any [] z t o (inl a) = ground arith
  entered-any [] z t o (inr a) = a
  entered-any (f ∷ y) z t o a =
      entered-any y (insert f.1.path f.1 z) t.1
        (All-insert (λ g. g.0 ≡ g.1.path) f.1.path f.1 z refl o) (next a)
    where
      next :
          (any (is_owned path token) (f ∷ y) ≡ true) ⊎ (any (is_owned path token) z ≡ true)
          → (any (is_owned path token) y ≡ true)
            ⊎ (any (is_owned path token) (insert f.1.path f.1 z) ≡ true)
      next (inr b) = inr (entered_any f.1 z t.0 o b)
      next (inl b) = elim (Bool-cases (is_owned path token f)) [
        | inl w ↦ inr (inserted_any f.1.path f.1 z w)
        | inr n ↦ inl (rw n at b)
      ]

  pub saved-any :
      (x : Entries) → IsHeld x → any (is_owned path token) (load_entries (saved_entries x)) ≡ true
  unfolding load_entries
  saved-any x h = entered-any x [] h.1 tt (inl h.0)
