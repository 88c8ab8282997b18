-- ===== src/Registry/Calls/Left.antt =====
-- The file after a call is the one before it, or what the change has made of its entries.
use kwt.Common.{ℕ, ◌≡◌, refl, inl, inr, Option, none, some, List, Bool-cases, Result, ok, err, ◌⊎◌}
use kwt.Registry.Entries.{WorktreeEntry, Entries, load_entries, saved_entries}
use kwt.Registry.Changes.{Changed}
use kwt.Registry.Calls.{
  Registry, SaveFaults, Faults, attempt, save_entries, finish_save, save_changed, change_loaded,
  mutate_checked,
}

-- What a call leaves in the file: what there was, or what the change has made.
abbrev pub IsLeft : (Entries → Result ℕ Changed) → Registry → Registry → Type 0
IsLeft change r s =
    (s.file ≡ r.file)
    ⊎ ((c : Changed) × ((change (load_entries r.file) ≡ ok c) × (s.file ≡ saved_entries c.after)))

-- Behind a save that has failed the file is the old one.
abbrev pub IsSaved : Entries → List WorktreeEntry → Option ℕ × List WorktreeEntry → Type 0
IsSaved entries file (some e, g) = g ≡ file
IsSaved entries file (none, g) = g ≡ saved_entries entries

attempt-IsSaved :
    (entries : Entries) (file : List WorktreeEntry) (fault : Option ℕ)
    (next : List WorktreeEntry → Option ℕ × List WorktreeEntry)
    → IsSaved entries file (next file)
    → IsSaved entries file (attempt fault file next)
attempt-IsSaved entries file none next h = h
attempt-IsSaved entries file (some e) next h = refl

pub save_entries-IsSaved :
    (faults : SaveFaults) (entries : Entries) (file : List WorktreeEntry)
    → IsSaved entries file (save_entries faults entries file)
unfolding save_entries
save_entries-IsSaved faults entries file = attempt-IsSaved entries file faults.marshal _ (
    attempt-IsSaved entries file faults.create_temp _ (
      attempt-IsSaved entries file faults.chmod _ (
        attempt-IsSaved entries file faults.write_temp _ (
          attempt-IsSaved entries file faults.sync _ (
            attempt-IsSaved entries file faults.close_temp _
              (attempt-IsSaved entries file faults.rename _ refl))))))

saved :
    (r : Registry) (c : Changed) (x : Option ℕ × List WorktreeEntry)
    → IsSaved c.after r.file x
    → ((finish_save r c x).1.file ≡ r.file) ⊎ ((finish_save r c x).1.file ≡ saved_entries c.after)
saved r c (some e, g) h = inl h
saved r c (none, g) h = inr h

changed-saved :
    (faults : Faults) (r : Registry) (c : Changed)
    → ((save_changed faults r c).1.file ≡ r.file)
      ⊎ ((save_changed faults r c).1.file ≡ saved_entries c.after)
unfolding save_changed
changed-saved faults r c = elim (Bool-cases c.changed) [
  | inl t ↦ rw t (
      saved r c (save_entries faults.save c.after r.file)
        (save_entries-IsSaved faults.save c.after r.file))
  | inr f ↦ rw f (inl refl)
]

change_loaded-IsLeft :
    (faults : Faults) (change : Entries → Result ℕ Changed) (r : Registry)
    (result : Result ℕ Changed)
    → change (load_entries r.file) ≡ result
    → IsLeft change r (change_loaded faults change r).1
unfolding change_loaded load_entries
change_loaded-IsLeft faults change r (err e) q = inl (rw (change_loaded, q) refl)
change_loaded-IsLeft faults change r (ok c) q = elim (changed-saved faults r c) [
  | inl h ↦ inl (rw (change_loaded, q) h)
  | inr h ↦ inr (c, (q, rw (change_loaded, q) h))
]

pub mutate_checked-IsLeft :
    (faults : Faults) (change : Entries → Result ℕ Changed) (r : Registry)
    (mkdir_all lock load : Option ℕ)
    → faults.mkdir_all ≡ mkdir_all
    → faults.lock ≡ lock
    → faults.load ≡ load
    → IsLeft change r (mutate_checked faults change r).1
unfolding mutate_checked
mutate_checked-IsLeft faults change r (some e) lock load a b c = inl (rw (mutate_checked, a) refl)
mutate_checked-IsLeft faults change r none (some e) load a b c =
    inl (rw (mutate_checked, a, b) refl)
mutate_checked-IsLeft faults change r none none (some e) a b c =
    inl (rw (mutate_checked, a, b, c) refl)
mutate_checked-IsLeft faults change r none none none a b c =
    rw (mutate_checked, a, b, c) (change_loaded-IsLeft faults change r _ refl)
