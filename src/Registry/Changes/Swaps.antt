-- ===== src/Registry/Changes/Swaps.antt =====
-- What a `CompareAndSwap` that reports a swap has found in the file, and what it leaves there.
use kwt.Common.{
  ℕ, ◌≡◌, refl, ap, ◌∙◌, inl, inr, Bool, true, false, not, Option, none, some, List, [], ◌∷◌, Text,
  arith, map, Bool-cases, eq_sound, ==_iff, &&-eq-true, keep, IsKeyed,
}
use kwt.Registry.Entries.{
  WorktreeEntry, Entries, same_optional_time, same_bool, same_worktree_entry, matches_path,
  matching_registry_keys, load_entries,
}
use kwt.Registry.Changes.{only_match, is_as_expected, enter, stamped_option, compare_and_swap}
use kwt.Registry.Changes.Groups.{
  kept_keys, load_entries-IsKeyed, only_match_sound, delete_keys-kept_keys,
}

same_optional_time_sound : (o u : Option ℕ) → same_optional_time o u ≡ true → o ≡ u
unfolding same_optional_time
same_optional_time_sound none none h = refl
same_optional_time_sound none (some u) h = ground arith
same_optional_time_sound (some t) none h = ground arith
same_optional_time_sound (some t) (some u) h = ap some ((==_iff t u).0 h)

same_bool_sound : (a b : Bool) → same_bool a b ≡ true → a ≡ b
same_bool_sound a b h = ground arith

-- Entries that compare as equal are equal.
pub same_worktree_entry_sound : (l r : WorktreeEntry) → same_worktree_entry l r ≡ true → l ≡ r
unfolding same_worktree_entry
same_worktree_entry_sound l r h =
    let h1 = &&-eq-true _ _ h in
    let h2 = &&-eq-true _ _ h1.1 in
    let h3 = &&-eq-true _ _ h2.1 in
    let h4 = &&-eq-true _ _ h3.1 in
    let h5 = &&-eq-true _ _ h4.1 in
    let h6 = &&-eq-true _ _ h5.1 in
    let h7 = &&-eq-true _ _ h6.1 in
    let h8 = &&-eq-true _ _ h7.1 in
    let h9 = &&-eq-true _ _ h8.1 in
    cc (
      eq_sound l.repository r.repository h1.0,
      eq_sound l.branch r.branch h2.0,
      eq_sound l.path r.path h3.0,
      eq_sound l.hash r.hash h4.0,
      same_bool_sound l.is_main r.is_main h5.0,
      (==_iff l.registered_at r.registered_at).0 h6.0,
      same_optional_time_sound l.expires_at r.expires_at h7.0,
      eq_sound l.generation r.generation h8.0,
      eq_sound l.creation_token r.creation_token h9.0,
      same_bool_sound l.unreviewed_remote_source r.unreviewed_remote_source h9.1,
    )

abbrev pub listed : Option WorktreeEntry → List WorktreeEntry
listed none = []
listed (some e) = e ∷ []

abbrev pub values : Entries → List WorktreeEntry
values x = map (λ e. e.1) x

nothing_expected : (x y : Entries) → is_as_expected none x (map (λ e. e.0) y) ≡ true → values y ≡ []
unfolding is_as_expected
nothing_expected x [] h = refl
nothing_expected x (e ∷ y) h = ground arith

module _ (m : Text × WorktreeEntry → Bool) where
  only_value :
      (expected : WorktreeEntry) (x : Entries)
      → IsKeyed x
      → (o : Option (Text × WorktreeEntry)) → only_match x (kept_keys m x) ≡ o
      → elim o [ none ↦ false | some (_, e) ↦ same_worktree_entry e expected ] ≡ true
      → values (keep m x) ≡ expected ∷ []
  only_value expected x d none q h = ground arith
  only_value expected x d (some (k, e)) q h =
      ap values (only_match_sound m k e x d q)
      ∙ ap (λ f. f ∷ []) (same_worktree_entry_sound e expected h)

  -- What is as expected is exactly what was observed.
  pub is_as_expected_sound :
      (expected : Option WorktreeEntry) (x : Entries)
      → IsKeyed x
      → is_as_expected expected x (kept_keys m x) ≡ true
      → values (keep m x) ≡ listed expected
  unfolding is_as_expected
  is_as_expected_sound none x d h = nothing_expected x (keep m x) h
  is_as_expected_sound (some expected) x d h =
      only_value expected x d (only_match x (kept_keys m x)) refl h

-- A `CompareAndSwap` that reports a swap has found that the entries of the file that match the path are
-- exactly the expected one, or none where none is expected, and it leaves the others as they are, with
-- the replacement, if there is one, entered under its own path.
pub compare_and_swap_sound :
    (canonical : Text → Text) (now : ℕ) (path : Text) (expected replacement : Option WorktreeEntry)
    (es : List WorktreeEntry)
    → (compare_and_swap canonical now path expected replacement (load_entries es)).done ≡ true
    → (values (keep (matches_path canonical path) (load_entries es)) ≡ listed expected)
      × ((compare_and_swap canonical now path expected replacement (load_entries es)).after
          ≡ enter
              (stamped_option now replacement)
              (keep (λ e. not (matches_path canonical path e)) (load_entries es)))
unfolding compare_and_swap matching_registry_keys
compare_and_swap_sound canonical now path expected replacement es h =
    elim (Bool-cases (
      is_as_expected expected (load_entries es)
        (kept_keys (matches_path canonical path) (load_entries es)))) [
          | inl t ↦ (
            is_as_expected_sound (matches_path canonical path) expected (load_entries es)
                (load_entries-IsKeyed es) t,
            rw t (
                ap (enter (stamped_option now replacement)) (
                  delete_keys-kept_keys (matches_path canonical path) (load_entries es)
                    (load_entries-IsKeyed es))),
          )
          | inr f ↦ ground (arith, rw f at h)
        ]
