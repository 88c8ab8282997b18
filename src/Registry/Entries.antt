-- ===== src/Registry/Entries.antt =====
-- The entries of the registry, and what matches a path. A time is a number, and the zero time is 0.
-- What `PathKey` makes of a path is an argument, since it asks the file system for symbolic links.
use kwt.Common.{
  ℕ, Bool, true, false, ◌&&◌, ◌||◌, not, Option, none, some, List, [], ◌∷◌, Text, map,
  if◌then◌else◌, ◌==◌, ltb, ◌=?◌, keep, Dict, lookup, insert, erase,
}

pub record WorktreeEntry : Type 0 where
  pub repository : Text
  pub branch : Text
  pub path : Text
  pub hash : Text
  pub is_main : Bool
  pub registered_at : ℕ
  pub expires_at : Option ℕ
  pub generation : Text
  pub creation_token : Text
  pub unreviewed_remote_source : Bool

unfoldable pub is_expired : ℕ → WorktreeEntry → Bool
is_expired now e = elim e.expires_at [ none ↦ false | some t ↦ ltb t now ]

abbrev pub Entries : Type 0
Entries = Dict WorktreeEntry

unfoldable pub same_optional_time : Option ℕ → Option ℕ → Bool
same_optional_time none none = true
same_optional_time none (some u) = false
same_optional_time (some t) none = false
same_optional_time (some t) (some u) = t == u

abbrev pub same_bool : Bool → Bool → Bool
same_bool true b = b
same_bool false b = not b

-- Of two entries that are not nil.
unfoldable pub same_worktree_entry : WorktreeEntry → WorktreeEntry → Bool
unfolding ◌=?◌ same_optional_time
same_worktree_entry l r =
    (l.repository =? r.repository)
    && ((l.branch =? r.branch)
        && ((l.path =? r.path)
            && ((l.hash =? r.hash)
                && (same_bool l.is_main r.is_main
                    && ((l.registered_at == r.registered_at)
                        && (same_optional_time l.expires_at r.expires_at
                            && ((l.generation =? r.generation)
                                && ((l.creation_token =? r.creation_token)
                                    && same_bool l.unreviewed_remote_source
                                        r.unreviewed_remote_source))))))))

-- Whether a key and its entry match a path.
unfoldable pub matches_path : (Text → Text) → Text → Text × WorktreeEntry → Bool
unfolding ◌=?◌
matches_path canonical path e =
    (e.0 =? path) || ((e.1.path =? path) || (canonical e.1.path =? canonical path))

unfoldable pub matching_registry_keys : (Text → Text) → Text → Entries → List Text
unfolding matches_path
matching_registry_keys canonical path entries =
    map (λ e. e.0) (keep (matches_path canonical path) entries)

-- The deletion of a list of keys.
unfoldable pub delete_keys : List Text → Entries → Entries
unfolding erase
delete_keys [] entries = entries
delete_keys (k ∷ keys) entries = delete_keys keys (erase k entries)

abbrev pub first_some : Option WorktreeEntry → Option WorktreeEntry → Option WorktreeEntry
first_some none o = o
first_some (some e) o = some e

-- The first entry in the list; the loop of the code meets them in any order.
unfoldable pub find_path : (Text → Text) → Text → Entries → Option WorktreeEntry
unfolding ◌=?◌
find_path canonical path [] = none
find_path canonical path (e ∷ entries) =
    if canonical e.1.path =? canonical path then some e.1 else find_path canonical path entries

unfoldable pub entry_for_path : (Text → Text) → Text → Entries → Option WorktreeEntry
unfolding lookup find_path
entry_for_path canonical path entries =
    first_some (lookup path entries) (find_path canonical path entries)

-- The entries that are listed of a repository, and those that have expired.
unfoldable pub list_by_repository : Text → Entries → List WorktreeEntry
unfolding ◌=?◌
list_by_repository repository entries =
    keep (λ e. e.repository =? repository) (map (λ e. e.1) entries)

unfoldable pub list_expired : ℕ → Entries → List WorktreeEntry
unfolding is_expired
list_expired now entries = keep (is_expired now) (map (λ e. e.1) entries)

abbrev pub is_unreviewed : Option WorktreeEntry → Bool
is_unreviewed none = false
is_unreviewed (some e) = e.unreviewed_remote_source

unfoldable pub is_unreviewed_remote_source : (Text → Text) → Text → Entries → Bool
unfolding entry_for_path
is_unreviewed_remote_source canonical path entries =
    is_unreviewed (entry_for_path canonical path entries)

-- Entries of a list under their paths: of two with one path, the later one stays.
unfoldable pub enter_all : List WorktreeEntry → Entries → Entries
unfolding insert
enter_all [] entries = entries
enter_all (e ∷ es) entries = enter_all es (insert e.path e entries)

-- What `loadEntries` makes of the list in the file, and what `saveEntries` writes.
unfoldable pub load_entries : List WorktreeEntry → Entries
unfolding enter_all
load_entries es = enter_all es []

abbrev pub saved_entries : Entries → List WorktreeEntry
saved_entries entries = map (λ e. e.1) entries
