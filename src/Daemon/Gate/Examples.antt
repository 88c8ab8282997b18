-- ===== src/Daemon/Gate/Examples.antt =====
-- Runs of the gate, and its theorems at concrete gates.
use kwt.Common.{◌+◌, ◌≤◌, ◌<◌, ◌≡◌, refl, true, false, some, List, map, [], ◌∷◌, arith, codes}
use kwt.Service.{new_error, daemon_draining, drain_deadline}
use kwt.Daemon.Gate.{
  Gate, work, lease, new_gate, reserve, granted, refused, release, ReleaseFunc, call_release,
  begin_drain, should_stop_for_idle, timer_fired, notified, wait_for_drain, wait_for_release,
  released, deadline, Call, reserves, releases, drains, step, run,
}
use kwt.Daemon.Gate.Invariant.{
  IsConsistent, run-new_gate-IsConsistent, should_stop_for_idle-eq-true, release-reserve,
  call_release_twice,
}
use kwt.Daemon.Gate.Drain.{StaysDrained, run_after_drain, run-releases_empty}
use kwt.Daemon.Gate.Waiting.{drain_completes}

abbrev history : List Call
history = reserves work 5 ∷ reserves lease 7 ∷ releases 1 ∷ []

-- One lease, number 2, is left.
abbrev leased : Gate
leased = record {
  last_activity = 7;
  draining = false;
  drain_deadline = 0;
  active_work = 0;
  active_leases = 1;
  reservation_seq = 2;
  reservations = (2, lease) ∷ [];
  changed = 3;
}

history-leased : run (new_gate 0) history ≡ leased
unfolding run step reserve release new_gate
history-leased = refl

leased-IsConsistent : IsConsistent leased
leased-IsConsistent = omega arith

run-new_gate-IsConsistent_example : IsConsistent (run (new_gate 0) history)
run-new_gate-IsConsistent_example = run-new_gate-IsConsistent 0 history (omega arith)

abbrev idle : Gate
idle = record leased { active_leases = 0; reservations = [] }

should_stop_for_idle_test : should_stop_for_idle idle 20 13 ≡ true
unfolding should_stop_for_idle
should_stop_for_idle_test = refl

should_stop_for_idle-eq-true_example :
    (idle.draining ≡ false) × (0 < 13) × (7 + 13 ≤ 20) × (idle.reservations ≡ [])
should_stop_for_idle-eq-true_example =
    should_stop_for_idle-eq-true idle 20 13 (omega arith) should_stop_for_idle_test

abbrev twice : Gate
twice = record leased {
  active_work = 1;
  reservation_seq = 3;
  reservations = (3, work) ∷ (2, lease) ∷ [];
  changed = 4;
}

reserve_test : reserve leased work 6 ≡ granted 3 twice
unfolding reserve
reserve_test = refl

release-reserve_example :
    ((release twice 3).reservations ≡ leased.reservations)
    × ((release twice 3).active_work ≡ 0)
    × ((release twice 3).active_leases ≡ 1)
release-reserve_example =
    release-reserve leased twice work 6 3 leased-IsConsistent (omega arith) reserve_test

abbrev holder : ReleaseFunc
holder = record { id = 2; done = false }

call_release_twice_example :
    let (h, f') = call_release leased holder in
    (call_release h f' ≡ (h, f')) × (release (release leased 2) 2 ≡ release leased 2)
call_release_twice_example = call_release_twice leased holder

run_after_drain_example :
    let d = (begin_drain leased 90).0 in
    StaysDrained d (run d (releases 2 ∷ drains 50 ∷ []))
    × (reserve (run d (releases 2 ∷ drains 50 ∷ [])) lease 60
        ≡ refused (new_error daemon_draining (codes "daemon is draining") true (drain_deadline 90)))
run_after_drain_example = run_after_drain leased 90 (releases 2 ∷ drains 50 ∷ []) lease 60 refl

run-releases_empty_example :
    let h = run twice (map releases (2 ∷ 3 ∷ [])) in
    (h.reservations ≡ []) × (h.active_work ≡ 0) × (h.active_leases ≡ 0)
run-releases_empty_example = run-releases_empty twice (2 ∷ 3 ∷ []) (omega arith) (refl, (refl, tt))

abbrev emptied : Gate
emptied = record idle { draining = true; drain_deadline = 90 }

waited : wait_for_drain leased 5 (notified emptied 8 ∷ []) ≡ some deadline
unfolding wait_for_drain
waited = refl

abbrev draining_leased : Gate
draining_leased = record leased { draining = true; drain_deadline = 90 }

waited_drain : wait_for_drain draining_leased 5 (notified emptied 8 ∷ []) ≡ some released
unfolding wait_for_drain
waited_drain = refl

drain_completes_example :
    let h = run (begin_drain twice 90).0 (map releases (2 ∷ 3 ∷ [])) in
    (wait_for_drain h 95 (timer_fired ∷ []) ≡ some released) × (wait_for_release h [] ≡ some true)
drain_completes_example =
    drain_completes twice 90 95 (2 ∷ 3 ∷ []) (timer_fired ∷ []) [] (omega arith) refl
      (refl, (refl, tt))
