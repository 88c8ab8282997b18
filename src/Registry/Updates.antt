-- ===== src/Registry/Updates.antt =====
-- The methods that change or remove entries and replace none of them by another's.
use kwt.Common.{
  ℕ, Bool, true, false, ◌&&◌, not, Option, none, some, List, [], ◌∷◌, Text, if◌then◌else◌, ◌==◌,
  ◌=?◌, keep, any, length, Result, ok, err, insert,
}
use kwt.Url.Repository.{NetUrl}
use kwt.Url.Identity.{canonical_repository_identity}
use kwt.Registry.Entries.{WorktreeEntry, Entries, matches_path, matching_registry_keys, delete_keys}
use kwt.Registry.Changes.{Changed, refused, made, only_match, is_as_expected, update_key}

abbrev pub or_empty : Option Text → Text
or_empty none = []
or_empty (some s) = s

-- The fields that `SetExpirationIfGeneration` writes.
abbrev pub expiring : Text → Text → Text → Option ℕ → WorktreeEntry → WorktreeEntry
expiring path repository branch expires_at e = record e {
  repository = repository;
  branch = branch;
  path = path;
  is_main = false;
  expires_at = expires_at;
}

abbrev pub fresh_entry : ℕ → Text → Text → Text → Text → Option ℕ → WorktreeEntry
fresh_entry now path generation repository branch expires_at = record {
  repository = repository;
  branch = branch;
  path = path;
  hash = [];
  is_main = false;
  registered_at = now;
  expires_at = expires_at;
  generation = generation;
  creation_token = [];
  unreviewed_remote_source = false;
}

-- Of an entry that no creation owns, and that has the generation.
unfoldable pub is_settled : Text → WorktreeEntry → Bool
unfolding ◌=?◌
is_settled generation e = (e.creation_token =? []) && (e.generation =? generation)

unfoldable pub set_sole :
    Text → Text → Text → Text → Option ℕ → Entries → Option (Text × WorktreeEntry) → Changed
unfolding update_key is_settled
set_sole path generation repository branch expires_at entries none = refused entries
set_sole path generation repository branch expires_at entries (some (k, e)) =
    if is_settled generation e
    then made (update_key k (expiring path repository branch expires_at) entries)
    else refused entries

unfoldable pub set_matching :
    ℕ → Text → Text → Text → Text → Option ℕ → Entries → List Text → Changed
unfolding insert set_sole only_match
set_matching now path generation repository branch expires_at entries [] =
    made (insert path (fresh_entry now path generation repository branch expires_at) entries)
set_matching now path generation repository branch expires_at entries (k ∷ keys) =
    set_sole path generation repository branch expires_at entries (only_match entries (k ∷ keys))

-- The reports of a change that is saved only if it is one. A method that returns an error alone, as
-- `Unregister` does, reports here whether it has changed the entries.
abbrev pub if_changed : Bool → Entries → Changed
if_changed b entries = record { after = entries; changed = b; done = b }

unfoldable pub acknowledged : WorktreeEntry → WorktreeEntry
acknowledged e = record e { unreviewed_remote_source = false }

abbrev pub on_match :
    (Text × WorktreeEntry → Bool) → (WorktreeEntry → WorktreeEntry) → Entries → Entries
on_match p f [] = []
on_match p f (e ∷ entries) = (if p e then (e.0, f e.1) else e) ∷ on_match p f entries

module _ (canonical : Text → Text) where
  unfoldable pub set_expiration_if_generation :
      NetUrl → ℕ → Text → Text → Text → Text → Option ℕ → Entries → Changed
  unfolding canonical_repository_identity set_matching matching_registry_keys
  set_expiration_if_generation net now path generation repository branch expires_at entries =
      set_matching now path generation (or_empty (canonical_repository_identity net repository))
        branch expires_at entries (matching_registry_keys canonical path entries)

  unfoldable pub unregister : Text → Entries → Changed
  unfolding matching_registry_keys delete_keys
  unregister path entries =
      let keys = matching_registry_keys canonical path entries in
      if_changed (not (length keys == 0)) (delete_keys keys entries)

  unfoldable pub is_removable : Text → Text → Text × WorktreeEntry → Bool
  unfolding matches_path is_settled
  is_removable path generation e = matches_path canonical path e && is_settled generation e.1

  unfoldable pub unregister_if_generation : Text → Text → Entries → Changed
  unfolding is_removable
  unregister_if_generation path generation entries =
      if_changed (any (is_removable path generation) entries)
        (keep (λ e. not (is_removable path generation e)) entries)

  unfoldable pub acknowledge_remote_source : Text → Entries → Changed
  unfolding matches_path acknowledged
  acknowledge_remote_source path entries =
      if_changed (any (λ e. matches_path canonical path e && e.1.unreviewed_remote_source) entries)
        (on_match (matches_path canonical path) acknowledged entries)

  -- With the error of the removal.
  unfoldable pub remove_if_match_after :
      Text → Option WorktreeEntry → Option ℕ → Entries → Result ℕ Changed
  unfolding matching_registry_keys is_as_expected delete_keys
  remove_if_match_after path expected removal entries =
      let keys = matching_registry_keys canonical path entries in
      if is_as_expected expected entries keys
      then elim removal [
        | some e ↦ err e
        | none ↦ ok (record {
          after = delete_keys keys entries;
          changed = not (length keys == 0);
          done = true;
        })
      ]
      else ok (refused entries)

  unfoldable pub entry_matches : Text → Option WorktreeEntry → Entries → Changed
  unfolding matching_registry_keys is_as_expected
  entry_matches path expected entries = record {
    after = entries;
    changed = false;
    done = is_as_expected expected entries (matching_registry_keys canonical path entries);
  }

-- With the paths that have no `.git` any more.
unfoldable pub cleanup : (Text → Bool) → Entries → Changed
cleanup is_gone entries =
    if_changed (any (λ e. is_gone e.0) entries) (keep (λ e. not (is_gone e.0)) entries)
