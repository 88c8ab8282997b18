-- ===== src/Daemon/Gate/Invariant.antt =====
-- The counters of the gate and its map of reservations agree.
use kwt.Common.{ℕ, suc, ◌+◌, ◌^◌, ◌≤◌, ◌<◌, ◌≡◌, refl, true, false, List, [], ◌∷◌, arith, length}
use kwt.Daemon.Gate.{
  ReservationKind, work, lease, Gate, new_gate, touch, reserve, granted, release, begin_drain,
  should_stop_for_idle, ReleaseFunc, call_release, Call, touches, reserves, releases, drains, step,
  run,
}
use kwt.Daemon.Gate.Reservations.{
  leases_in, works_in, Below, remove_above, remove-Below, leases_in-remove_lease,
  works_in-remove_work, none_in, find-remove,
}

pub record IsConsistent (g : Gate) : Type 0 where
  pub ids : Below (suc g.reservation_seq) g.reservations
  pub leases : g.active_leases ≡ leases_in g.reservations
  pub works : g.active_work ≡ works_in g.reservations

new_gate-IsConsistent : (now : ℕ) → IsConsistent (new_gate now)
unfolding new_gate
new_gate-IsConsistent now = record { ids = tt; leases = refl; works = refl }

touch-IsConsistent : (g : Gate) (now : ℕ) → IsConsistent g → IsConsistent (touch g now)
unfolding touch
touch-IsConsistent g now v = ground arith

pub release-IsConsistent : (g : Gate) (id : ℕ) → IsConsistent g → IsConsistent (release g id)
unfolding release
release-IsConsistent g id v = ground (
  arith,
  leases_in-remove_lease id (suc g.reservation_seq) g.reservations v.ids,
  works_in-remove_work id (suc g.reservation_seq) g.reservations v.ids,
  remove-Below id (suc g.reservation_seq) g.reservations v.ids,
)

pub begin_drain-IsConsistent :
    (g : Gate) (by : ℕ) → IsConsistent g → IsConsistent (begin_drain g by).0
unfolding begin_drain
begin_drain-IsConsistent g by v = ground arith

reserve-IsConsistent :
    (g : Gate) (k : ReservationKind) (now : ℕ)
    → g.reservation_seq + 1 < 2 ^ 64
    → IsConsistent g
    → IsConsistent (step g (reserves k now))
unfolding step reserve
reserve-IsConsistent g work now h v =
    ground
      (arith, remove_above (suc g.reservation_seq) (suc g.reservation_seq) g.reservations v.ids)
reserve-IsConsistent g lease now h v =
    ground
      (arith, remove_above (suc g.reservation_seq) (suc g.reservation_seq) g.reservations v.ids)

step-IsConsistent :
    (g : Gate) (c : Call)
    → g.reservation_seq + 1 < 2 ^ 64
    → IsConsistent g
    → IsConsistent (step g c)
step-IsConsistent g (touches now) h v = unfold step in touch-IsConsistent g now v
step-IsConsistent g (reserves k now) h v = reserve-IsConsistent g k now h v
step-IsConsistent g (releases id) h v = unfold step in release-IsConsistent g id v
step-IsConsistent g (drains by) h v = unfold step in begin_drain-IsConsistent g by v

step_seq :
    (g : Gate) (c : Call)
    → g.reservation_seq + 1 < 2 ^ 64
    → (step g c).reservation_seq ≤ g.reservation_seq + 1
unfolding step touch reserve release begin_drain
step_seq g (touches now) h = ground arith
step_seq g (reserves work now) h = ground arith
step_seq g (reserves lease now) h = ground arith
step_seq g (releases id) h = ground arith
step_seq g (drains by) h = ground arith

pub run-IsConsistent :
    (g : Gate) (cs : List Call)
    → g.reservation_seq + length cs < 2 ^ 64
    → IsConsistent g
    → IsConsistent (run g cs)
unfolding run
run-IsConsistent g [] h v = v
run-IsConsistent g (c ∷ cs) h v =
    run-IsConsistent (step g c) cs (omega (arith, step_seq g c (omega arith)))
      (step-IsConsistent g c (omega arith) v)

-- After any calls on a new gate, fewer than 2^64 of them, the two counters are the numbers of leases
-- and of other reservations in the map, and every id in the map is at most the last one given out.
pub run-new_gate-IsConsistent :
    (now : ℕ) (cs : List Call) → length cs < 2 ^ 64 → IsConsistent (run (new_gate now) cs)
run-new_gate-IsConsistent now cs h =
    run-IsConsistent (new_gate now) cs (unfold new_gate in omega arith) (new_gate-IsConsistent now)

-- In a consistent gate the daemon stops for idleness only if it is not draining, the timeout is
-- positive and has passed since the last activity, and no reservation is left in the map.
pub should_stop_for_idle-eq-true :
    (g : Gate) (now idle_timeout : ℕ)
    → IsConsistent g
    → should_stop_for_idle g now idle_timeout ≡ true
    → (g.draining ≡ false)
      × (0 < idle_timeout)
      × (g.last_activity + idle_timeout ≤ now)
      × (g.reservations ≡ [])
unfolding should_stop_for_idle
should_stop_for_idle-eq-true g now idle_timeout v h =
    (ground arith, ground arith, ground arith, none_in g.reservations (ground arith) (ground arith))

-- Releasing what was just reserved gives the map and both counters back.
pub release-reserve :
    (g h : Gate) (k : ReservationKind) (now id : ℕ)
    → IsConsistent g
    → g.reservation_seq + 1 < 2 ^ 64
    → reserve g k now ≡ granted id h
    → ((release h id).reservations ≡ g.reservations)
      × ((release h id).active_work ≡ g.active_work)
      × ((release h id).active_leases ≡ g.active_leases)
unfolding reserve release
release-reserve g h work now id v small e =
    ground
      (arith, remove_above (suc g.reservation_seq) (suc g.reservation_seq) g.reservations v.ids)
release-reserve g h lease now id v small e =
    ground
      (arith, remove_above (suc g.reservation_seq) (suc g.reservation_seq) g.reservations v.ids)

release_again : (g : Gate) (id : ℕ) → release (release g id) id ≡ release g id
unfolding release
release_again g id = ground (arith, find-remove id g.reservations)

-- A release function takes one reservation out at most: calling it again changes neither the gate
-- nor the function, and even a second body run for the same id changes nothing.
pub call_release_twice :
    (g : Gate) (f : ReleaseFunc)
    → let (h, f') = call_release g f in
      (call_release h f' ≡ (h, f')) × (release (release g f.id) f.id ≡ release g f.id)
unfolding call_release
call_release_twice g f = (ground arith, release_again g f.id)
