-- ===== src/Registry/Calls.antt =====
-- `mutateChecked` of the registry, and its methods as calls on the file and on what is kept of it.
mod Failing
pub mod Kept
pub mod Left
pub mod Spared
mod Owned
mod Examples
use kwt.Common.{ℕ, Bool, true, false, not, Option, none, some, List, [], ◌∷◌, Text, Result, ok, err}
use kwt.Url.Repository.{NetUrl}
use kwt.Registry.Entries.{WorktreeEntry, Entries, load_entries, saved_entries}
use kwt.Registry.Changes.{
  Changed, register, compare_and_swap, are_aliases, compare_and_swap_aliases, complete_creation,
  reclaim_creation, abort_creation,
}
use kwt.Registry.Updates.{
  set_expiration_if_generation, unregister, unregister_if_generation, acknowledge_remote_source,
  remove_if_match_after, entry_matches, cleanup,
}

-- The list in the file, which is empty where there is no file, and the entries in memory.
pub record Registry : Type 0 where
  pub file : List WorktreeEntry
  pub entries : Entries

-- What fails in one save.
pub record SaveFaults : Type 0 where
  pub marshal : Option ℕ
  pub create_temp : Option ℕ
  pub chmod : Option ℕ
  pub write_temp : Option ℕ
  pub sync : Option ℕ
  pub close_temp : Option ℕ
  pub rename : Option ℕ

-- What fails in one call.
pub record Faults : Type 0 where
  pub mkdir_all : Option ℕ
  pub lock : Option ℕ
  pub load : Option ℕ
  pub save : SaveFaults

-- What a method reports, and its error.
pub record Reply : Type 0 where
  pub reported : Bool
  pub failure : Option ℕ

abbrev pub failed : ℕ → Reply
failed e = record { reported = false; failure = some e }

-- An operation on the file, and the next where it does not fail.
abbrev pub attempt :
    Option ℕ
    → List WorktreeEntry
    → (List WorktreeEntry → Option ℕ × List WorktreeEntry)
    → Option ℕ × List WorktreeEntry
attempt none file next = next file
attempt (some e) file next = (some e, file)

-- The operations of `saveEntries` on the file, of which the rename alone replaces it.
unfoldable pub save_entries :
    SaveFaults → Entries → List WorktreeEntry → Option ℕ × List WorktreeEntry
save_entries faults entries file = attempt faults.marshal file (λ f1.
    attempt faults.create_temp f1 (λ f2. attempt faults.chmod f2 (λ f3.
      attempt faults.write_temp f3 (λ f4. attempt faults.sync f4 (λ f5.
        attempt faults.close_temp f5
          (λ f6. attempt faults.rename f6 (λ f7. (none, saved_entries entries))))))))

-- The entries are kept in memory if the save has not failed; the report of a change whose save fails
-- stays.
abbrev pub finish_save : Registry → Changed → Option ℕ × List WorktreeEntry → Reply × Registry
finish_save r c (some e, file) =
    (record { reported = c.done; failure = some e }, record r { file = file })
finish_save r c (none, file) =
    (record { reported = c.done; failure = none }, record { file = file; entries = c.after })

unfoldable pub save_changed : Faults → Registry → Changed → Reply × Registry
unfolding save_entries
save_changed faults r c = elim c.changed [
  | false ↦ (record { reported = c.done; failure = none }, record r { entries = c.after })
  | true ↦ finish_save r c (save_entries faults.save c.after r.file)
]

unfoldable pub change_loaded : Faults → (Entries → Result ℕ Changed) → Registry → Reply × Registry
unfolding load_entries save_changed
change_loaded faults change r = elim (change (load_entries r.file)) [
  | err e ↦ (failed e, record r { entries = load_entries r.file })
  | ok c ↦ save_changed faults r c
]

unfoldable pub mutate_checked : Faults → (Entries → Result ℕ Changed) → Registry → Reply × Registry
unfolding change_loaded
mutate_checked faults change r = elim faults.mkdir_all [
  | some e ↦ (failed e, r)
  | none ↦ elim faults.lock [
    | some e ↦ (failed e, r)
    | none ↦ elim faults.load [ some e ↦ (failed e, r) | none ↦ change_loaded faults change r ]
  ]
]

pub data Op : Type 0 where
  register_op : ℕ → WorktreeEntry → Op
  swap_op : ℕ → Text → Option WorktreeEntry → Option WorktreeEntry → Op
  aliases_op : List WorktreeEntry → Option WorktreeEntry → Op
  remove_op : Text → Option WorktreeEntry → Option ℕ → Op
  match_op : Text → Option WorktreeEntry → Op
  complete_op : Text → Text → Text → Op
  reclaim_op : ℕ → Text → Text → WorktreeEntry → Op
  abort_op : Text → Text → Option WorktreeEntry → Op
  expire_op : ℕ → Text → Text → Text → Text → Option ℕ → Op
  unregister_op : Text → Op
  unregister_generation_op : Text → Text → Op
  acknowledge_op : Text → Op
  cleanup_op : (Text → Bool) → Op

module _ (canonical : Text → Text) (net : NetUrl) where
  -- What a method does to the loaded entries.
  unfoldable pub change_of : Op → Entries → Result ℕ Changed
  unfolding register compare_and_swap are_aliases compare_and_swap_aliases remove_if_match_after
      entry_matches complete_creation reclaim_creation abort_creation set_expiration_if_generation
      unregister unregister_if_generation acknowledge_remote_source cleanup
  change_of (register_op now e) x = ok (register canonical now e x)
  change_of (swap_op now path expected replacement) x =
      ok (compare_and_swap canonical now path expected replacement x)
  change_of (aliases_op expected retained) x =
      ok (compare_and_swap_aliases canonical expected retained x)
  change_of (remove_op path expected removal) x =
      remove_if_match_after canonical path expected removal x
  change_of (match_op path expected) x = ok (entry_matches canonical path expected x)
  change_of (complete_op path token generation) x =
      ok (complete_creation canonical path token generation x)
  change_of (reclaim_op now path token replacement) x =
      ok (reclaim_creation canonical now path token replacement x)
  change_of (abort_op path token previous) x = ok (abort_creation canonical path token previous x)
  change_of (expire_op now path generation repository branch expires_at) x = ok (
      set_expiration_if_generation canonical net now path generation repository branch expires_at x)
  change_of (unregister_op path) x = ok (unregister canonical path x)
  change_of (unregister_generation_op path generation) x =
      ok (unregister_if_generation canonical path generation x)
  change_of (acknowledge_op path) x = ok (acknowledge_remote_source canonical path x)
  change_of (cleanup_op is_gone) x = ok (cleanup is_gone x)

  -- A group that is no group of aliases is refused before the lock is taken.
  unfoldable pub is_called : Op → Bool
  unfolding are_aliases
  is_called (aliases_op expected retained) = are_aliases canonical expected retained
  is_called op = true

  unfoldable pub apply : Faults → Op → Registry → Reply × Registry
  unfolding is_called mutate_checked change_of
  apply faults op r = elim (is_called op) [
    | false ↦ (record { reported = false; failure = none }, r)
    | true ↦ mutate_checked faults (change_of op) r
  ]

  unfoldable pub run : List (Faults × Op) → Registry → Registry
  unfolding apply
  run [] r = r
  run ((faults, op) ∷ ops) r = run ops (apply faults op r).1
