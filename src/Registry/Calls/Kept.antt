-- ===== src/Registry/Calls/Kept.antt =====
-- What the changes of the entries of a path leave of a worktree that one creation owns.
use kwt.Common.{
  ℕ, ◌≡◌, sym, ap, ◌∙◌, subst, ◌≢◌, inl, inr, Bool, true, false, not, Option, none, some, [], ◌∷◌,
  Text, arith, Bool-cases, if◌then◌else◌, ◌==◌, ◌=?◌, eq_sound, keep, All, All-keep, All-erase,
  Result, ok, err, insert, erase, IsKeyed, length,
}
use kwt.Registry.Entries.{WorktreeEntry, Entries, matches_path, matching_registry_keys, delete_keys}
use kwt.Registry.Changes.{
  Changed, stamped, stamped_option, enter, is_as_expected, only_match, compare_and_swap, owned_by,
  complete_creation, reclaim_creation, restored_option, abort_creation,
}
use kwt.Registry.Changes.Groups.{IsOwnKeyed, kept_keys, delete_keys-kept_keys, only_match_sound}
use kwt.Registry.Changes.Swaps.{values, listed, is_as_expected_sound}
use kwt.Registry.Changes.Held.{IsHeld, keep-IsHeld, insert-IsHeld, erase-IsHeld, update_key-IsHeld}
use kwt.Registry.Changes.Owned.{
  is_owned, IsFree, IsSpared, spared, matches_path-IsFree, canonical_of_match, not_owned_values,
}
use kwt.Registry.Updates.{remove_if_match_after}

module _ (canonical : Text → Text) (path token : Text) where
  abbrev pub IsKept : Entries → Type 0
  IsKept x = IsHeld path token x

  -- An entry, if there is one, whose path stands for the same worktree as the path that is asked for.
  abbrev pub IsAt : Text → Option WorktreeEntry → Type 0
  IsAt q o = All (λ e. canonical e.path ≡ canonical q) (listed o)

  abbrev pub IsKeptResult : Result ℕ Changed → Type 0
  IsKeptResult (err e) = Unit
  IsKeptResult (ok c) = IsKept c.after

  pub stamped-path : (now : ℕ) (e : WorktreeEntry) → (stamped now e).path ≡ e.path
  stamped-path now e = ground arith

  selected : (m : Text × WorktreeEntry → Bool) (y : Entries) → All (λ f. m f ≡ true) (keep m y)
  selected m [] = tt
  selected m (f ∷ y) = elim (Bool-cases (m f)) [
    | inl t ↦ rw t (t, selected m y)
    | inr n ↦ rw n (selected m y)
  ]

  with_token :
      (t : Text) (a : Text × WorktreeEntry) (o : Option (Text × WorktreeEntry))
      → elim o [ none ↦ none | some (k, e) ↦ if e.creation_token =? t then some (k, e) else none ]
        ≡ some a
      → (o ≡ some a) × (a.1.creation_token ≡ t)
  with_token t a none h = ground arith
  with_token t a (some (k, e)) h = elim (Bool-cases (e.creation_token =? t)) [
    | inl w ↦ let same = rw w at h in (same, ground (arith, eq_sound e.creation_token t w, same))
    | inr n ↦ ground (arith, rw n at h)
  ]

  module _ (q : Text) (x : Entries) (keyed : IsKeyed x) (own : IsOwnKeyed x) (kept : IsKept x) where
    IsAt-stamped : (now : ℕ) (o : Option WorktreeEntry) → IsAt q o → IsAt q (stamped_option now o)
    IsAt-stamped now none a = tt
    IsAt-stamped now (some e) a = (ap canonical (stamped-path now e) ∙ a.0, tt)

    abbrev pub at_path : Text × WorktreeEntry → Bool
    at_path = matches_path canonical q

    abbrev pub others : Entries
    others = keep (λ f. not (at_path f)) x

    pub free :
        (k : Text)
        → canonical k ≡ canonical q
        → IsSpared path token at_path x
        → IsFree path token k x
    free k c s = matches_path-IsFree path token canonical q k x c own s

    insert-others :
        (e : WorktreeEntry)
        → canonical e.path ≡ canonical q
        → IsSpared path token at_path x
        → IsKept (insert e.path e others)
    insert-others e c s =
        insert-IsHeld path token e others
          (All-keep (λ f. is_owned path token f ≡ true → (e.path =? f.0) ≡ false)
            (λ f. not (at_path f)) x (free e.path c s))
          (All-keep (λ f. f.0 ≡ f.1.path) (λ f. not (at_path f)) x own)
          (keep-IsHeld path token at_path x s kept)

    pub enter-others :
        (o : Option WorktreeEntry)
        → IsAt q o
        → IsSpared path token at_path x
        → IsKept (enter o others)
    unfolding enter
    enter-others none a s = keep-IsHeld path token at_path x s kept
    enter-others (some e) a s = insert-others e a.0 s

    pub deleted :
        (o : Option WorktreeEntry) → enter o others ≡ enter o (delete_keys (kept_keys at_path x) x)
    deleted o = ap (enter o) (sym (delete_keys-kept_keys at_path x keyed))

    is_as_expected-IsSpared :
        (expected : Option WorktreeEntry)
        → All (λ e. e.creation_token ≢ token) (listed expected)
        → is_as_expected expected x (kept_keys at_path x) ≡ true
        → IsSpared path token at_path x
    is_as_expected-IsSpared expected n h = spared path token at_path x (
        not_owned_values path token (keep at_path x) (listed expected)
          (is_as_expected_sound at_path expected x keyed h) n)

    pub compare_and_swap-IsKept :
        (now : ℕ) (expected replacement : Option WorktreeEntry)
        → All (λ e. e.creation_token ≢ token) (listed expected)
        → IsAt q replacement
        → IsKept (compare_and_swap canonical now q expected replacement x).after
    unfolding compare_and_swap matching_registry_keys
    compare_and_swap-IsKept now expected replacement n a =
        elim (Bool-cases (is_as_expected expected x (kept_keys at_path x))) [
          | inl t ↦ rw t (
              subst IsKept (deleted (stamped_option now replacement)) (
                enter-others (stamped_option now replacement) (IsAt-stamped now replacement a)
                  (is_as_expected-IsSpared expected n t)))
          | inr f ↦ rw f kept
        ]

    pub remove_if_match_after-IsKept :
        (expected : Option WorktreeEntry) (removal : Option ℕ)
        → All (λ e. e.creation_token ≢ token) (listed expected)
        → IsKeptResult (remove_if_match_after canonical q expected removal x)
    unfolding remove_if_match_after matching_registry_keys enter
    remove_if_match_after-IsKept expected removal n =
        elim (Bool-cases (is_as_expected expected x (kept_keys at_path x))) [
          | inl t ↦ rw t (removed removal (is_as_expected-IsSpared expected n t))
          | inr f ↦ rw f kept
        ]
      where
        removed :
            (o : Option ℕ)
            → IsSpared path token at_path x
            → IsKeptResult (elim o [
              | some e ↦ err e
              | none ↦ ok (record {
                after = delete_keys (kept_keys at_path x) x;
                changed = not (length (kept_keys at_path x) == 0);
                done = true;
              })
            ])
        removed (some e) s = tt
        removed none s = subst IsKept (deleted none) (enter-others none tt s)

    pub sole_found :
        (k : Text) (e : WorktreeEntry) (c : only_match x (kept_keys at_path x) ≡ some (k, e))
        → e.creation_token ≢ token
        → IsFree path token k x × IsSpared path token at_path x
    sole_found k e c n =
        let one = only_match_sound at_path k e x keyed c in
        let k_own =
          subst (All (λ f. f.0 ≡ f.1.path)) one (All-keep (λ f. f.0 ≡ f.1.path) at_path x own) in
        let same =
          canonical_of_match path token canonical q k e k_own.0
            (subst (All (λ f. at_path f ≡ true)) one (selected at_path x)).0 in
        let s =
          spared path token at_path x
            (not_owned_values path token (keep at_path x) (e ∷ []) (ap values one) (n, tt)) in
        (free k same s, s)

    owned_by_sound :
        (t : Text) (a : Text × WorktreeEntry)
        → owned_by canonical q t x ≡ some a
        → (only_match x (kept_keys at_path x) ≡ some a) × (a.1.creation_token ≡ t)
    unfolding owned_by matching_registry_keys
    owned_by_sound t a h = with_token t a (only_match x (kept_keys at_path x)) h

    owner_found :
        (t : Text) (k : Text) (e : WorktreeEntry)
        → t ≢ token
        → owned_by canonical q t x ≡ some (k, e)
        → IsFree path token k x × IsSpared path token at_path x
    owner_found t k e n h =
        let found = owned_by_sound t (k, e) h in
        sole_found k e found.0 (λ same. n (sym found.1 ∙ same))

    pub complete_creation-IsKept :
        (t generation : Text)
        → t ≢ token
        → (o : Option (Text × WorktreeEntry)) → owned_by canonical q t x ≡ o
        → IsKept (complete_creation canonical q t generation x).after
    unfolding complete_creation
    complete_creation-IsKept t generation n none h = rw (complete_creation, h) kept
    complete_creation-IsKept t generation n (some (k, e)) h =
        rw (complete_creation, h)
          (update_key-IsHeld path token k _ x (owner_found t k e n h).0 (λ f u. u) own kept)

    enter-erased :
        (k : Text) (o : Option WorktreeEntry)
        → IsFree path token k x × IsSpared path token at_path x
        → IsAt q o
        → IsKept (enter o (erase k x))
    unfolding enter
    enter-erased k none f a = erase-IsHeld path token k x f.0 kept
    enter-erased k (some e) f a =
        insert-IsHeld path token e (erase k x)
          (All-erase (λ g. is_owned path token g ≡ true → (e.path =? g.0) ≡ false) k x
            (free e.path a.0 f.1))
          (All-erase (λ g. g.0 ≡ g.1.path) k x own) (erase-IsHeld path token k x f.0 kept)

    pub reclaim_creation-IsKept :
        (now : ℕ) (t : Text) (replacement : WorktreeEntry)
        → t ≢ token
        → canonical replacement.path ≡ canonical q
        → (o : Option (Text × WorktreeEntry)) → owned_by canonical q t x ≡ o
        → IsKept (reclaim_creation canonical now q t replacement x).after
    unfolding reclaim_creation enter
    reclaim_creation-IsKept now t replacement n c none h = rw (reclaim_creation, h) kept
    reclaim_creation-IsKept now t replacement n c (some (k, e)) h =
        rw (reclaim_creation, h)
          (enter-erased k (some (stamped now replacement)) (owner_found t k e n h)
            (IsAt-stamped now (some replacement) (c, tt)))

    IsAt-restored :
        (e : WorktreeEntry) (o : Option WorktreeEntry)
        → IsAt q o
        → IsAt q (restored_option canonical e o)
    IsAt-restored e none a = tt
    IsAt-restored e (some p) a = a

    pub abort_creation-IsKept :
        (t : Text) (previous : Option WorktreeEntry)
        → t ≢ token
        → IsAt q previous
        → (o : Option (Text × WorktreeEntry)) → owned_by canonical q t x ≡ o
        → IsKept (abort_creation canonical q t previous x).after
    unfolding abort_creation
    abort_creation-IsKept t previous n a none h = rw (abort_creation, h) kept
    abort_creation-IsKept t previous n a (some (k, e)) h =
        rw (abort_creation, h)
          (enter-erased k (restored_option canonical e previous) (owner_found t k e n h)
            (IsAt-restored e previous a))
