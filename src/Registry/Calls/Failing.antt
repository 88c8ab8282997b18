-- ===== src/Registry/Calls/Failing.antt =====
-- What a call leaves in the file when it reports nothing done or fails.
use kwt.Common.{
  ℕ, ◌≡◌, refl, ◌⊎◌, ◌≢◌, inl, inr, Bool, true, false, Option, none, some, List, [], ◌∷◌, Text,
  arith, Result, ok, err, if-elim, if◌then◌else◌, Bool-cases,
}
use kwt.Url.Repository.{NetUrl}
use kwt.Registry.Entries.{WorktreeEntry, Entries, load_entries, matching_registry_keys}
use kwt.Registry.Changes.{
  Changed, refused, made, register, compare_and_swap, swap_group, compare_and_swap_aliases,
  owned_by, complete_creation, reclaim_creation, abort_creation, is_as_expected, only_match,
}
use kwt.Registry.Updates.{
  set_expiration_if_generation, set_matching, set_sole, is_settled, unregister,
  unregister_if_generation, acknowledge_remote_source, remove_if_match_after, entry_matches,
  cleanup,
}
use kwt.Registry.Calls.Left.{IsSaved, save_entries-IsSaved}
use kwt.Registry.Calls.{
  save_entries, finish_save, Registry, Faults, Reply, save_changed, change_loaded, mutate_checked,
  Op, register_op, swap_op, aliases_op, remove_op, match_op, complete_op, reclaim_op, abort_op,
  expire_op, unregister_op, unregister_generation_op, acknowledge_op, cleanup_op, change_of,
  is_called, apply,
}

-- A reply that reports nothing done or an error.
abbrev pub IsWithoutEffect : Reply → Type 0
IsWithoutEffect reply = (reply.reported ≡ false) ⊎ (reply.failure ≢ none)

-- A change that is not reported is not saved.
abbrev IsReported : Changed → Type 0
IsReported c = c.done ≡ false → c.changed ≡ false

abbrev IsReportedResult : Result ℕ Changed → Type 0
IsReportedResult (err e) = Unit
IsReportedResult (ok c) = IsReported c

finish_save-file :
    (r : Registry) (c : Changed) (x : Option ℕ × List WorktreeEntry)
    → c.changed ≡ true
    → IsReported c
    → IsSaved c.after r.file x
    → IsWithoutEffect (finish_save r c x).0
    → (finish_save r c x).1.file ≡ r.file
finish_save-file r c (some e, g) t d s h = s
finish_save-file r c (none, g) t d s (inl n) = ground (arith, d n, t)
finish_save-file r c (none, g) t d s (inr n) = elim (n refl) [ ]

save_changed-file :
    (faults : Faults) (r : Registry) (c : Changed)
    → IsReported c
    → IsWithoutEffect (save_changed faults r c).0
    → (save_changed faults r c).1.file ≡ r.file
unfolding save_changed
save_changed-file faults r c d h = elim (Bool-cases c.changed) [
  | inl t ↦
      rw (save_changed, t)
        (finish_save-file r c (save_entries faults.save c.after r.file) t d
          (save_entries-IsSaved faults.save c.after r.file) (rw (save_changed, t) at h))
  | inr f ↦ rw (save_changed, f) refl
]

change_loaded-file :
    (faults : Faults) (change : Entries → Result ℕ Changed) (r : Registry)
    (result : Result ℕ Changed)
    → change (load_entries r.file) ≡ result
    → IsReportedResult result
    → IsWithoutEffect (change_loaded faults change r).0
    → (change_loaded faults change r).1.file ≡ r.file
unfolding change_loaded load_entries
change_loaded-file faults change r (err e) q d h = rw (change_loaded, q) refl
change_loaded-file faults change r (ok c) q d h =
    rw (change_loaded, q) (save_changed-file faults r c d (rw (change_loaded, q) at h))

mutate_checked-file :
    (faults : Faults) (change : Entries → Result ℕ Changed) (r : Registry)
    (mkdir_all lock load : Option ℕ)
    → faults.mkdir_all ≡ mkdir_all
    → faults.lock ≡ lock
    → faults.load ≡ load
    → IsReportedResult (change (load_entries r.file))
    → IsWithoutEffect (mutate_checked faults change r).0
    → (mutate_checked faults change r).1.file ≡ r.file
unfolding mutate_checked load_entries
mutate_checked-file faults change r (some e) lock load a b c d h = rw a refl
mutate_checked-file faults change r none (some e) load a b c d h = rw (a, b) refl
mutate_checked-file faults change r none none (some e) a b c d h = rw (a, b, c) refl
mutate_checked-file faults change r none none none a b c d h =
    rw (a, b, c)
      (change_loaded-file faults change r (change (load_entries r.file)) refl d (rw (a, b, c) at h))

made_or_refused : (b : Bool) (x y : Entries) → IsReported (if b then made x else refused y)
made_or_refused b x y =
    if-elim IsReported b (made x) (refused y) (λ _ h. ground arith) (λ _ _. refl)

set_sole-IsReported :
    (path generation repository branch : Text) (expires_at : Option ℕ) (x : Entries)
    (o : Option (Text × WorktreeEntry))
    → IsReported (set_sole path generation repository branch expires_at x o)
unfolding set_sole
set_sole-IsReported path generation repository branch expires_at x none = λ _. refl
set_sole-IsReported path generation repository branch expires_at x (some (k, e)) =
    made_or_refused (is_settled generation e) _ x

set_matching-IsReported :
    (now : ℕ) (path generation repository branch : Text) (expires_at : Option ℕ) (x : Entries)
    (keys : List Text)
    → IsReported (set_matching now path generation repository branch expires_at x keys)
unfolding set_matching
set_matching-IsReported now path generation repository branch expires_at x [] = λ h. ground arith
set_matching-IsReported now path generation repository branch expires_at x (k ∷ keys) =
    set_sole-IsReported path generation repository branch expires_at x (only_match x (k ∷ keys))

module _ (canonical : Text → Text) where
  owned-IsReported :
      (x : Entries) (f : Text × WorktreeEntry → Entries) (o : Option (Text × WorktreeEntry))
      → IsReported (elim o [ none ↦ refused x | some a ↦ made (f a) ])
  owned-IsReported x f none h = refl
  owned-IsReported x f (some a) h = ground arith

  remove-IsReported :
      (path : Text) (expected : Option WorktreeEntry) (removal : Option ℕ) (x : Entries) (b : Bool)
      → is_as_expected expected x (matching_registry_keys canonical path x) ≡ b
      → IsReportedResult (remove_if_match_after canonical path expected removal x)
  unfolding remove_if_match_after
  remove-IsReported path expected removal x false q = rw q (λ _. refl)
  remove-IsReported path expected (some e) x true q = rw q tt
  remove-IsReported path expected none x true q = rw q (λ h. ground arith)

  module _ (net : NetUrl) where
    change_of-IsReported : (op : Op) (x : Entries) → IsReportedResult (change_of canonical net op x)
    unfolding change_of register compare_and_swap compare_and_swap_aliases swap_group
        complete_creation reclaim_creation abort_creation set_expiration_if_generation unregister
        unregister_if_generation acknowledge_remote_source entry_matches cleanup
    change_of-IsReported (register_op now e) x = λ h. ground arith
    change_of-IsReported (swap_op now path expected replacement) x = made_or_refused _ _ x
    change_of-IsReported (aliases_op expected retained) x = made_or_refused _ _ x
    change_of-IsReported (remove_op path expected removal) x =
        remove-IsReported path expected removal x _ refl
    change_of-IsReported (match_op path expected) x = λ _. refl
    change_of-IsReported (complete_op path token generation) x =
        owned-IsReported x _ (owned_by canonical path token x)
    change_of-IsReported (reclaim_op now path token replacement) x =
        owned-IsReported x _ (owned_by canonical path token x)
    change_of-IsReported (abort_op path token previous) x =
        owned-IsReported x _ (owned_by canonical path token x)
    change_of-IsReported (expire_op now path generation repository branch expires_at) x =
        set_matching-IsReported now path generation _ branch expires_at x _
    change_of-IsReported (unregister_op path) x = λ h. h
    change_of-IsReported (unregister_generation_op path generation) x = λ h. h
    change_of-IsReported (acknowledge_op path) x = λ h. h
    change_of-IsReported (cleanup_op is_gone) x = λ h. h

    -- Whatever fails, a call that reports that it has done nothing, or that returns an error, leaves
    -- the file as it has been.
    pub apply-IsWithoutEffect :
        (faults : Faults) (op : Op) (r : Registry)
        → IsWithoutEffect (apply canonical net faults op r).0
        → (apply canonical net faults op r).1.file ≡ r.file
    unfolding apply
    apply-IsWithoutEffect faults op r h = elim (Bool-cases (is_called canonical net op)) [
      | inl t ↦
          rw (apply, t)
            (mutate_checked-file faults (change_of canonical net op) r faults.mkdir_all faults.lock
              faults.load refl refl refl (change_of-IsReported op (load_entries r.file))
              (rw (apply, t) at h))
      | inr f ↦ rw (apply, f) refl
    ]
