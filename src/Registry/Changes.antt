-- ===== src/Registry/Changes.antt =====
-- What each method does to the entries, once they are loaded under the lock.
pub mod Groups
pub mod Owned
pub mod Swaps
pub mod Held
use kwt.Common.{
  ℕ, Bool, true, false, ◌&&◌, ◌||◌, not, Option, none, some, List, [], ◌∷◌, Text, map,
  if◌then◌else◌, ◌==◌, ltb, ◌=?◌, keep, any, all, length, Result, ok, err, Dict, lookup, insert,
  erase,
}
use kwt.Registry.Entries.{
  WorktreeEntry, Entries, same_worktree_entry, matches_path, matching_registry_keys, delete_keys,
}

-- The entries after a change, whether they are to be saved, and what the method reports.
pub record Changed : Type 0 where
  pub after : Entries
  pub changed : Bool
  pub done : Bool

abbrev pub refused : Entries → Changed
refused entries = record { after = entries; changed = false; done = false }

abbrev pub made : Entries → Changed
made entries = record { after = entries; changed = true; done = true }

abbrev pub sole : Option WorktreeEntry → Text → Option (Text × WorktreeEntry)
sole none k = none
sole (some e) k = some (k, e)

-- `len(keys) == 1`, with the key and its entry.
unfoldable pub only_match : Entries → List Text → Option (Text × WorktreeEntry)
unfolding lookup
only_match entries [] = none
only_match entries (k ∷ []) = sole (lookup k entries) k
only_match entries (k ∷ l ∷ keys) = none

-- A new entry has a time.
abbrev pub stamped : ℕ → WorktreeEntry → WorktreeEntry
stamped now e = if e.registered_at == 0 then (record e { registered_at = now }) else e

unfoldable pub enter : Option WorktreeEntry → Entries → Entries
unfolding insert
enter none entries = entries
enter (some e) entries = insert e.path e entries

abbrev pub stamped_option : ℕ → Option WorktreeEntry → Option WorktreeEntry
stamped_option now none = none
stamped_option now (some e) = some (stamped now e)

-- Whether the entries with the keys are what a caller has observed.
unfoldable pub is_as_expected : Option WorktreeEntry → Entries → List Text → Bool
unfolding only_match same_worktree_entry
is_as_expected none entries [] = true
is_as_expected none entries (k ∷ keys) = false
is_as_expected (some expected) entries keys = elim (only_match entries keys) [
  | none ↦ false
  | some (_, e) ↦ same_worktree_entry e expected
]

-- `matched`, with one more index.
unfoldable pub take_match : WorktreeEntry → List WorktreeEntry → Option (List WorktreeEntry)
unfolding same_worktree_entry
take_match current [] = none
take_match current (wanted ∷ expected) =
    if same_worktree_entry current wanted
    then some expected
    else elim (take_match current expected) [ none ↦ none | some rest ↦ some (wanted ∷ rest) ]

-- The loop over the keys of a group: each entry takes one of the expected ones that are left.
unfoldable pub match_group : List WorktreeEntry → List WorktreeEntry → Bool
unfolding take_match ◌=?◌
match_group [] expected = true
match_group (current ∷ group) expected =
    if current.creation_token =? []
    then elim (take_match current expected) [ none ↦ false | some rest ↦ match_group group rest ]
    else false

unfoldable pub group_of : Entries → List Text → List WorktreeEntry
unfolding lookup
group_of entries [] = []
group_of entries (k ∷ keys) = elim (lookup k entries) [
  | none ↦ group_of entries keys
  | some e ↦ e ∷ group_of entries keys
]

-- The tests of `CompareAndSwapAliases` before it takes the lock.
unfoldable pub retained_is_expected : Option WorktreeEntry → List WorktreeEntry → Bool
unfolding same_worktree_entry
retained_is_expected none expected = true
retained_is_expected (some retained) expected = any (λ e. same_worktree_entry e retained) expected

-- Changes the entry of a key in place.
unfoldable pub update_key : Text → (WorktreeEntry → WorktreeEntry) → Entries → Entries
unfolding ◌=?◌
update_key k f [] = []
update_key k f (e ∷ entries) =
    if e.0 =? k then (e.0, f e.1) ∷ entries else e ∷ update_key k f entries

module _ (canonical : Text → Text) where
  unfoldable pub keys_of : Text → Entries → List Text
  unfolding matching_registry_keys
  keys_of path entries = matching_registry_keys canonical path entries

  unfoldable pub register : ℕ → WorktreeEntry → Entries → Changed
  unfolding delete_keys insert matching_registry_keys
  register now e entries = made (
      insert (stamped now e).path (stamped now e)
        (delete_keys (matching_registry_keys canonical (stamped now e).path entries) entries))

  unfoldable pub compare_and_swap :
      ℕ → Text → Option WorktreeEntry → Option WorktreeEntry → Entries → Changed
  unfolding is_as_expected delete_keys enter matching_registry_keys
  compare_and_swap now path expected replacement entries =
      let keys = matching_registry_keys canonical path entries in
      if is_as_expected expected entries keys
      then made (enter (stamped_option now replacement) (delete_keys keys entries))
      else refused entries

  unfoldable pub are_aliases : List WorktreeEntry → Option WorktreeEntry → Bool
  unfolding ◌=?◌ retained_is_expected
  are_aliases [] retained = false
  are_aliases (e ∷ []) retained = false
  are_aliases (e ∷ f ∷ expected) retained =
      all (λ x. canonical x.path =? canonical e.path) (e ∷ f ∷ expected)
      && retained_is_expected retained (e ∷ f ∷ expected)

  abbrev pub first_path : List WorktreeEntry → Text
  first_path [] = []
  first_path (e ∷ expected) = e.path

  -- Under the lock.
  unfoldable pub swap_group :
      List WorktreeEntry → Option WorktreeEntry → Entries → List Text → Changed
  unfolding match_group group_of delete_keys enter
  swap_group expected retained entries keys =
      if (length keys == length expected) && match_group (group_of entries keys) expected
      then made (enter retained (delete_keys keys entries))
      else refused entries

  unfoldable pub compare_and_swap_aliases :
      List WorktreeEntry → Option WorktreeEntry → Entries → Changed
  unfolding swap_group matching_registry_keys
  compare_and_swap_aliases expected retained entries =
      swap_group expected retained entries
        (matching_registry_keys canonical (first_path expected) entries)

  unfoldable pub owned_by : Text → Text → Entries → Option (Text × WorktreeEntry)
  unfolding only_match matching_registry_keys ◌=?◌
  owned_by path token entries =
      elim (only_match entries (matching_registry_keys canonical path entries)) [
        | none ↦ none
        | some (k, e) ↦ if e.creation_token =? token then some (k, e) else none
      ]

  unfoldable pub complete_creation : Text → Text → Text → Entries → Changed
  unfolding owned_by update_key
  complete_creation path token generation entries = elim (owned_by path token entries) [
    | none ↦ refused entries
    | some (k, e) ↦
        made (update_key k (λ x. record x { creation_token = []; generation = generation }) entries)
  ]

  unfoldable pub reclaim_creation : ℕ → Text → Text → WorktreeEntry → Entries → Changed
  unfolding owned_by erase insert
  reclaim_creation now path token replacement entries = elim (owned_by path token entries) [
    | none ↦ refused entries
    | some (k, e) ↦
        made (insert (stamped now replacement).path (stamped now replacement) (erase k entries))
  ]

  abbrev pub restored : WorktreeEntry → WorktreeEntry → WorktreeEntry
  restored current previous = record previous {
    unreviewed_remote_source =
        previous.unreviewed_remote_source && current.unreviewed_remote_source;
  }

  abbrev pub restored_option : WorktreeEntry → Option WorktreeEntry → Option WorktreeEntry
  restored_option current none = none
  restored_option current (some previous) = some (restored current previous)

  unfoldable pub abort_creation : Text → Text → Option WorktreeEntry → Entries → Changed
  unfolding owned_by erase enter
  abort_creation path token previous entries = elim (owned_by path token entries) [
    | none ↦ refused entries
    | some (k, e) ↦ made (enter (restored_option e previous) (erase k entries))
  ]
