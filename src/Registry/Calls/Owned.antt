-- ===== src/Registry/Calls/Owned.antt =====
-- What the calls of others leave of a worktree that one creation owns.
use kwt.Common.{
  ℕ, ◌≡◌, refl, sym, ap, ◌∙◌, subst, ◌≢◌, inl, inr, true, false, Option, none, some, List, [], ◌∷◌,
  Text, arith, Bool-cases, ◌=?◌, eq_sound, &&-eq-true, any, all, All,
}
use kwt.Url.Repository.{NetUrl}
use kwt.Registry.Entries.{
  WorktreeEntry, same_worktree_entry, matches_path, matching_registry_keys, delete_keys,
  load_entries,
}
use kwt.Registry.Changes.{
  stamped, enter, are_aliases, retained_is_expected, first_path, register, compare_and_swap_aliases,
  owned_by,
}
use kwt.Registry.Changes.Groups.{kept_keys, load_entries-IsKeyed, load_entries-IsOwnKeyed}
use kwt.Registry.Changes.Swaps.{listed, same_worktree_entry_sound}
use kwt.Registry.Changes.Owned.{is_owned}
use kwt.Registry.Updates.{
  set_expiration_if_generation, unregister, is_removable, unregister_if_generation,
  acknowledge_remote_source, entry_matches, cleanup,
}
use kwt.Registry.Changes.Held.{keep-IsHeld, load_entries-IsHeld, saved-any}
use kwt.Registry.Calls.Kept.{
  IsKept, IsAt, IsKeptResult, enter-others, deleted, stamped-path, compare_and_swap-IsKept,
  remove_if_match_after-IsKept, complete_creation-IsKept, reclaim_creation-IsKept,
  abort_creation-IsKept,
}
use kwt.Registry.Calls.Left.{IsLeft, mutate_checked-IsLeft}
use kwt.Registry.Calls.Spared.{
  swap_group-IsKept, set_matching-IsKept, acknowledged-IsKept, away, settled_away, gone_away,
}
use kwt.Registry.Calls.{
  Registry, Faults, mutate_checked, is_called, apply, run, Op, register_op, swap_op, aliases_op,
  remove_op, match_op, complete_op, reclaim_op, abort_op, expire_op, unregister_op,
  unregister_generation_op, acknowledge_op, cleanup_op, change_of,
}

module _ (canonical : Text → Text) (path token : Text) where
  -- The calls that are no business of the owner's: they expect no entry that has the token, present
  -- another token, replace by an entry of the path that they are about, and remove or register what
  -- stands for another path.
  abbrev pub IsOthers : Op → Type 0
  IsOthers (register_op now e) = canonical e.path ≢ canonical path
  IsOthers (swap_op now q expected replacement) =
      All (λ e. e.creation_token ≢ token) (listed expected)
      × IsAt canonical path token q replacement
  IsOthers (aliases_op expected retained) = are_aliases canonical expected retained ≡ true
  IsOthers (remove_op q expected removal) = All (λ e. e.creation_token ≢ token) (listed expected)
  IsOthers (match_op q expected) = Unit
  IsOthers (complete_op q t generation) = t ≢ token
  IsOthers (reclaim_op now q t replacement) =
      (t ≢ token) × (canonical replacement.path ≡ canonical q)
  IsOthers (abort_op q t previous) = (t ≢ token) × IsAt canonical path token q previous
  IsOthers (expire_op now q generation repository branch expires_at) = Unit
  IsOthers (unregister_op q) = canonical q ≢ canonical path
  IsOthers (unregister_generation_op q generation) = Unit
  IsOthers (acknowledge_op q) = Unit
  IsOthers (cleanup_op is_gone) = is_gone path ≡ false

  -- The entries that the file is read as have one with the path and the token.
  abbrev pub IsRegistered : Registry → Type 0
  IsRegistered r = any (is_owned path token) (load_entries r.file) ≡ true

  -- Calls of others, each with what fails in it.
  abbrev pub IsAllOthers : List (Faults × Op) → Type 0
  IsAllOthers calls = All (λ call. IsOthers call.1) calls

  same_path :
      (p : Text) (es : List WorktreeEntry) (r : WorktreeEntry)
      → all (λ e. canonical e.path =? p) es ≡ true
      → any (λ e. same_worktree_entry e r) es ≡ true
      → canonical r.path ≡ p
  same_path p [] r h a = ground arith
  same_path p (e ∷ es) r h a = elim (Bool-cases (same_worktree_entry e r)) [
    | inl t ↦
        ap (λ f. canonical f.path) (sym (same_worktree_entry_sound e r t))
        ∙ eq_sound (canonical e.path) p (ground (arith, h))
    | inr n ↦ same_path p es r (ground (arith, h)) (rw n at a)
  ]

  are_aliases-IsAt :
      (expected : List WorktreeEntry) (retained : Option WorktreeEntry)
      → are_aliases canonical expected retained ≡ true
      → IsAt canonical path token (first_path canonical expected) retained
  unfolding are_aliases retained_is_expected
  are_aliases-IsAt expected none h = tt
  are_aliases-IsAt [] (some r) h = ground arith
  are_aliases-IsAt (e ∷ []) (some r) h = ground arith
  are_aliases-IsAt (e ∷ f ∷ expected) (some r) h =
      let both = &&-eq-true _ _ h in
      (same_path (canonical e.path) (e ∷ f ∷ expected) r both.0 both.1, tt)

  removed-IsKept :
      (q : Text) (es : List WorktreeEntry) (o : Option WorktreeEntry)
      → canonical q ≢ canonical path
      → IsAt canonical path token q o
      → IsKept canonical path token (load_entries es)
      → IsKept canonical path token (
          enter o (
            delete_keys (kept_keys (matches_path canonical q) (load_entries es)) (load_entries es)))
  removed-IsKept q es o n a kept =
      let keyed = load_entries-IsKeyed es in
      let own = load_entries-IsOwnKeyed es in
      subst (IsKept canonical path token)
        (deleted canonical path token q (load_entries es) keyed own kept o)
        (enter-others canonical path token q (load_entries es) keyed own kept o a
          (away canonical path token q (load_entries es) keyed own kept n (load_entries es) own))

  stamped_away :
      (now : ℕ) (e : WorktreeEntry)
      → canonical e.path ≢ canonical path
      → canonical (stamped now e).path ≢ canonical path
  stamped_away now e n w = n (ap canonical (sym (stamped-path canonical path token now e)) ∙ w)

  module _ (net : NetUrl) where
    -- What the call makes of the entries keeps the owner's.
    change_of-IsKept :
        (op : Op) (es : List WorktreeEntry)
        → token ≢ []
        → IsOthers op
        → IsKept canonical path token (load_entries es)
        → IsKeptResult canonical path token (change_of canonical net op (load_entries es))
    unfolding change_of register compare_and_swap_aliases set_expiration_if_generation unregister
        unregister_if_generation acknowledge_remote_source entry_matches cleanup
        matching_registry_keys enter
    change_of-IsKept (register_op now e) es n h kept =
        removed-IsKept (stamped now e).path es (some (stamped now e)) (stamped_away now e h)
          (refl, tt) kept
    change_of-IsKept (swap_op now q expected replacement) es n h kept =
        compare_and_swap-IsKept canonical path token q (load_entries es) (load_entries-IsKeyed es)
          (load_entries-IsOwnKeyed es) kept now expected replacement h.0 h.1
    change_of-IsKept (aliases_op expected retained) es n h kept =
        swap_group-IsKept canonical path token (first_path canonical expected) (load_entries es)
          (load_entries-IsKeyed es) (load_entries-IsOwnKeyed es) kept expected retained n
          (are_aliases-IsAt expected retained h)
    change_of-IsKept (remove_op q expected removal) es n h kept =
        remove_if_match_after-IsKept canonical path token q (load_entries es)
          (load_entries-IsKeyed es) (load_entries-IsOwnKeyed es) kept expected removal h
    change_of-IsKept (match_op q expected) es n h kept = kept
    change_of-IsKept (complete_op q t generation) es n h kept =
        complete_creation-IsKept canonical path token q (load_entries es) (load_entries-IsKeyed es)
          (load_entries-IsOwnKeyed es) kept t generation h
          (owned_by canonical q t (load_entries es)) refl
    change_of-IsKept (reclaim_op now q t replacement) es n h kept =
        reclaim_creation-IsKept canonical path token q (load_entries es) (load_entries-IsKeyed es)
          (load_entries-IsOwnKeyed es) kept now t replacement h.0 h.1
          (owned_by canonical q t (load_entries es)) refl
    change_of-IsKept (abort_op q t previous) es n h kept =
        abort_creation-IsKept canonical path token q (load_entries es) (load_entries-IsKeyed es)
          (load_entries-IsOwnKeyed es) kept t previous h.0 h.1
          (owned_by canonical q t (load_entries es)) refl
    change_of-IsKept (expire_op now q generation repository branch expires_at) es n h kept =
        set_matching-IsKept canonical path token q (load_entries es) (load_entries-IsKeyed es)
          (load_entries-IsOwnKeyed es) kept now generation _ branch expires_at n _ refl
    change_of-IsKept (unregister_op q) es n h kept = removed-IsKept q es none h tt kept
    change_of-IsKept (unregister_generation_op q generation) es n h kept =
        keep-IsHeld path token (is_removable canonical q generation) (load_entries es)
          (settled_away canonical path token q (load_entries es) (load_entries-IsKeyed es)
            (load_entries-IsOwnKeyed es) kept generation n (load_entries es))
          kept
    change_of-IsKept (acknowledge_op q) es n h kept =
        acknowledged-IsKept canonical path token q (load_entries es) (load_entries-IsKeyed es)
          (load_entries-IsOwnKeyed es) kept (matches_path canonical q)
    change_of-IsKept (cleanup_op is_gone) es n h kept =
        keep-IsHeld path token (λ f. is_gone f.0) (load_entries es)
          (gone_away canonical path token is_gone h (load_entries es) (load_entries-IsOwnKeyed es))
          kept

    left-IsRegistered :
        (op : Op) (r s : Registry)
        → token ≢ []
        → IsOthers op
        → IsRegistered r
        → IsLeft (change_of canonical net op) r s
        → IsRegistered s
    left-IsRegistered op r s n h kept (inl same) =
        subst (λ es. any (is_owned path token) (load_entries es) ≡ true) (sym same) kept
    left-IsRegistered op r s n h kept (inr (c, (q, same))) =
        subst (λ es. any (is_owned path token) (load_entries es) ≡ true) (sym same)
          (saved-any path token c.after (
            subst (IsKeptResult canonical path token) q
              (change_of-IsKept op r.file n h (load_entries-IsHeld path token r.file kept))))

    apply-IsRegistered :
        (faults : Faults) (op : Op) (r : Registry)
        → token ≢ []
        → IsOthers op
        → IsRegistered r
        → IsRegistered (apply canonical net faults op r).1
    unfolding apply
    apply-IsRegistered faults op r n h kept = elim (Bool-cases (is_called canonical net op)) [
      | inl t ↦
          rw (apply, t)
            (left-IsRegistered op r (mutate_checked faults (change_of canonical net op) r).1 n h
              kept
              (mutate_checked-IsLeft faults (change_of canonical net op) r faults.mkdir_all
                faults.lock faults.load refl refl refl))
      | inr f ↦ rw (apply, f) kept
    ]

    -- A worktree that is registered with a creation token is registered with it after any sequence of
    -- calls of others, whatever fails in them and whatever they report: calls that expect no entry with
    -- the token, present another token, or remove or register what stands for another path.
    pub run-IsRegistered :
        (calls : List (Faults × Op)) (r : Registry)
        → token ≢ []
        → IsAllOthers calls
        → IsRegistered r
        → IsRegistered (run canonical net calls r)
    unfolding run
    run-IsRegistered [] r n h kept = kept
    run-IsRegistered ((faults, op) ∷ calls) r n h kept =
        run-IsRegistered calls (apply canonical net faults op r).1 n h.1
          (apply-IsRegistered faults op r n h.0 kept)
