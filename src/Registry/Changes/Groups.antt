-- ===== src/Registry/Changes/Groups.antt =====
-- The entries of a loaded file that match a path, and what is left when they are deleted.
use kwt.Common.{
  ◌≡◌, refl, sym, ap, ◌∙◌, subst, inl, inr, Bool, false, not, some, List, [], ◌∷◌, Text, arith, map,
  Bool-cases, if-elim, ◌=?◌, eq_sound, eq_refl, eq_complete, keep, All, All-keep, lookup, insert,
  erase, IsKeyed, insert-IsKeyed, All-insert,
}
use kwt.Registry.Entries.{WorktreeEntry, Entries, enter_all, load_entries, delete_keys}
use kwt.Registry.Changes.{only_match, sole}

-- Every entry stands under its own path.
abbrev pub IsOwnKeyed : Entries → Type 0
IsOwnKeyed = All (λ e. e.0 ≡ e.1.path)

enter_all-IsKeyed : (es : List WorktreeEntry) (x : Entries) → IsKeyed x → IsKeyed (enter_all es x)
unfolding enter_all
enter_all-IsKeyed [] x h = h
enter_all-IsKeyed (e ∷ es) x h =
    enter_all-IsKeyed es (insert e.path e x) (insert-IsKeyed e.path e x h)

enter_all-IsOwnKeyed :
    (es : List WorktreeEntry) (x : Entries) → IsOwnKeyed x → IsOwnKeyed (enter_all es x)
unfolding enter_all
enter_all-IsOwnKeyed [] x h = h
enter_all-IsOwnKeyed (e ∷ es) x h =
    enter_all-IsOwnKeyed es (insert e.path e x) (All-insert (λ f. f.0 ≡ f.1.path) e.path e x refl h)

pub load_entries-IsKeyed : (es : List WorktreeEntry) → IsKeyed (load_entries es)
unfolding load_entries
load_entries-IsKeyed es = enter_all-IsKeyed es [] tt

pub load_entries-IsOwnKeyed : (es : List WorktreeEntry) → IsOwnKeyed (load_entries es)
unfolding load_entries
load_entries-IsOwnKeyed es = enter_all-IsOwnKeyed es [] tt

pub eq_false-sym : (s t : Text) → (s =? t) ≡ false → (t =? s) ≡ false
eq_false-sym s t h = elim (Bool-cases (t =? s)) [
  | inl e ↦ ground (arith, h, eq_complete s t (sym (eq_sound t s e)))
  | inr n ↦ n
]

erase_absent : (k : Text) (x : Entries) → All (λ f. (f.0 =? k) ≡ false) x → erase k x ≡ x
unfolding erase
erase_absent k [] h = refl
erase_absent k (e ∷ x) h = rw (eq_false-sym e.0 k h.0) (ap (◌∷◌ e) (erase_absent k x h.1))

erase_head : (e : Text × WorktreeEntry) (x : Entries) → erase e.0 (e ∷ x) ≡ erase e.0 x
unfolding erase
erase_head e x = rw (eq_refl e.0) refl

no_match : (x : Entries) (a : Text × WorktreeEntry) → only_match x [] ≡ some a → ⊥
unfolding only_match
no_match x a h = ground arith

more_matches :
    (x : Entries) (j k : Text) (ks : List Text) (a : Text × WorktreeEntry)
    → only_match x (j ∷ k ∷ ks) ≡ some a
    → ⊥
unfolding only_match
more_matches x j k ks a h = ground arith

one_match :
    (x : Entries) (j : Text) (f : WorktreeEntry) (a : Text × WorktreeEntry)
    → lookup j x ≡ some f
    → only_match x (j ∷ []) ≡ some a
    → (j, f) ≡ a
unfolding only_match
one_match x j f a h c = ground (arith, ap (λ o. sole o j) h)

delete_keys-cons :
    (keys : List Text) (e : Text × WorktreeEntry) (x : Entries)
    → All (λ k. (k =? e.0) ≡ false) keys
    → delete_keys keys (e ∷ x) ≡ e ∷ delete_keys keys x
unfolding delete_keys erase
delete_keys-cons [] e x h = refl
delete_keys-cons (k ∷ keys) e x h = rw h.0 (delete_keys-cons keys e (erase k x) h.1)

module _ (m : Text × WorktreeEntry → Bool) where
  abbrev pub kept_keys : Entries → List Text
  kept_keys x = map (λ e. e.0) (keep m x)

  keys-All :
      (j : Text) (x : Entries)
      → All (λ f. (f.0 =? j) ≡ false) x
      → All (λ k. (k =? j) ≡ false) (kept_keys x)
  keys-All j [] h = tt
  keys-All j (e ∷ x) h =
      if-elim (λ y. All (λ k. (k =? j) ≡ false) (map (λ f. f.0) y)) (m e) (e ∷ keep m x) (keep m x)
        (λ _. (h.0, keys-All j x h.1)) (λ _. keys-All j x h.1)

  -- Deleting what matches keeps what does not.
  pub delete_keys-kept_keys :
      (x : Entries) → IsKeyed x → delete_keys (kept_keys x) x ≡ keep (λ e. not (m e)) x
  unfolding delete_keys erase
  delete_keys-kept_keys [] h = refl
  delete_keys-kept_keys (e ∷ x) h = elim (Bool-cases (m e)) [
    | inl t ↦ rw t (
        ap (delete_keys (kept_keys x)) (erase_head e x ∙ erase_absent e.0 x h.0)
        ∙ delete_keys-kept_keys x h.1)
    | inr f ↦ rw f (
        delete_keys-cons (kept_keys x) e x (keys-All e.0 x h.0)
        ∙ ap (◌∷◌ e) (delete_keys-kept_keys x h.1))
  ]

  heads : (a b : Text × WorktreeEntry) (y : Entries) → a ∷ y ≡ b ∷ [] → a ≡ b
  heads a b y h = ground arith

  lookup-kept :
      (k : Text) (e : WorktreeEntry) (x : Entries)
      → IsKeyed x
      → keep m x ≡ (k, e) ∷ []
      → lookup k x ≡ some e
  unfolding lookup
  lookup-kept k e [] h c = ground arith
  lookup-kept k e (a ∷ x) h c = elim (Bool-cases (m a)) [
    | inl t ↦
        subst (λ b. lookup k (b ∷ x) ≡ some e) (sym (heads a (k, e) (keep m x) (rw t at c)))
          (rw (eq_refl k) refl)
    | inr f ↦
        let found = rw f at c in
        let apart =
          subst (All (λ g. (g.0 =? a.0) ≡ false)) found
            (All-keep (λ g. (g.0 =? a.0) ≡ false) m x h.0) in
        rw apart.0 (lookup-kept k e x h.1 found)
  ]

  -- The one match of a path is the one entry that matches.
  pub only_match_sound :
      (k : Text) (e : WorktreeEntry) (x : Entries)
      → IsKeyed x
      → only_match x (kept_keys x) ≡ some (k, e)
      → keep m x ≡ (k, e) ∷ []
  only_match_sound k e x h c = step (keep m x) refl
    where
      step : (y : Entries) → keep m x ≡ y → keep m x ≡ (k, e) ∷ []
      step [] q = elim (no_match x (k, e) (rw q at c)) [ ]
      step ((j, f) ∷ []) q =
          q ∙ ap (λ a. a ∷ []) (one_match x j f (k, e) (lookup-kept j f x h q) (rw q at c))
      step (a ∷ b ∷ y) q = elim (more_matches x a.0 b.0 (map (λ g. g.0) y) (k, e) (rw q at c)) [ ]
