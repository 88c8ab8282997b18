-- ===== src/Registry/Calls/Examples.antt =====
-- Runs of the registry, with paths that stand for themselves.
use kwt.Common.{
  ◌=?◌, ◌≡◌, refl, inr, false, none, some, List, [], ◌∷◌, Text, codes, arith, not, keep,
}
use kwt.Url.Repository.{NetUrl}
use kwt.Registry.Entries.{WorktreeEntry, load_entries, matches_path}
use kwt.Registry.Changes.{compare_and_swap, enter, stamped_option}
use kwt.Registry.Changes.Swaps.{values, compare_and_swap_sound}
use kwt.Registry.Changes.Owned.{is_owned}
use kwt.Registry.Calls.{
  Registry, Faults, Op, swap_op, complete_op, reclaim_op, cleanup_op, expire_op, apply, run,
}
use kwt.Registry.Calls.Owned.{IsRegistered, run-IsRegistered}
use kwt.Registry.Calls.Failing.{apply-IsWithoutEffect}

abbrev itself : Text → Text
itself s = s

-- No address is read here.
abbrev no_net : NetUrl
no_net = record { parse = λ s. none; print = λ u. [] }

abbrev no_faults : Faults
no_faults = record {
  mkdir_all = none;
  lock = none;
  load = none;
  save = record {
    marshal = none;
    create_temp = none;
    chmod = none;
    write_temp = none;
    sync = none;
    close_temp = none;
    rename = none;
  };
}

abbrev full_disk : Faults
full_disk = record no_faults { save = record no_faults.save { write_temp = some 28 } }

abbrev entry : Text → Text → WorktreeEntry
entry path token = record {
  repository = codes "github.com/acme/app";
  branch = codes "main";
  path = path;
  hash = codes "c0";
  is_main = false;
  registered_at = 4;
  expires_at = none;
  generation = [];
  creation_token = token;
  unreviewed_remote_source = false;
}

-- One that is being created, and one that has been.
abbrev stored : List WorktreeEntry
stored = entry (codes "/a") (codes "t") ∷ entry (codes "/b") [] ∷ []

abbrev moved : WorktreeEntry
moved = record (entry (codes "/b") (codes "u")) { registered_at = 0 }

abbrev completed : WorktreeEntry
completed = record moved { registered_at = 9; creation_token = []; generation = codes "g" }

abbrev opened : Registry
opened = record { file = stored; entries = [] }

compare_and_swap_sound_example :
    (values (keep (matches_path itself (codes "/b")) (load_entries stored))
      ≡ entry (codes "/b") [] ∷ [])
    × ((compare_and_swap itself 9
          (codes "/b")
          (some (entry (codes "/b") []))
          (some moved)
          (load_entries stored)).after
        ≡ enter
            (stamped_option 9 (some moved))
            (keep (λ e. not (matches_path itself (codes "/b") e)) (load_entries stored)))
unfolding compare_and_swap load_entries
compare_and_swap_sound_example =
    compare_and_swap_sound itself 9 (codes "/b") (some (entry (codes "/b") [])) (some moved) stored
      refl

-- Another is swapped, cleaned up and its creation completed; a reclaim has the wrong token, and a
-- disk is full.
abbrev calls : List (Faults × Op)
calls =
    (no_faults, swap_op 9 (codes "/b") (some (entry (codes "/b") [])) (some moved))
    ∷ (no_faults, reclaim_op 9 (codes "/a") (codes "u") (entry (codes "/a") (codes "w")))
    ∷ (full_disk, cleanup_op (λ p. p =? codes "/b"))
    ∷ (no_faults, complete_op (codes "/b") (codes "u") (codes "g"))
    ∷ (no_faults, expire_op 9 (codes "/a") [] (codes "github.com/acme/app") (codes "x") none)
    ∷ []

run_test : (run itself no_net calls opened).file ≡ entry (codes "/a") (codes "t") ∷ completed ∷ []
unfolding run ◌=?◌
run_test = refl

run-IsRegistered_example :
    IsRegistered itself (codes "/a") (codes "t") (run itself no_net calls opened)
unfolding load_entries is_owned
run-IsRegistered_example =
    run-IsRegistered itself (codes "/a") (codes "t") no_net calls opened (λ h. ground arith)
      (
        ((λ h. ground arith, tt), (refl, tt)),
        ((λ h. ground arith, refl), (refl, (λ h. ground arith, (tt, tt)))),
      )
      refl

apply-IsWithoutEffect_example :
    (apply itself no_net full_disk (complete_op (codes "/a") (codes "t") (codes "g")) opened).1.file
    ≡ stored
unfolding apply
apply-IsWithoutEffect_example =
    apply-IsWithoutEffect itself no_net full_disk (complete_op (codes "/a") (codes "t") (codes "g"))
      opened (inr (λ h. ground arith))
