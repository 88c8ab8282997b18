-- ===== src/Daemon/Gate/Waiting.antt =====
-- The two waits on a gate that has drained.
use kwt.Common.{ℕ, ◌≡◌, true, false, some, List, map, [], ◌∷◌, arith}
use kwt.Daemon.Gate.Invariant.{IsConsistent, begin_drain-IsConsistent}
use kwt.Daemon.Gate.Drain.{
  Covers, run-releases_empty, run-StaysDrained, begun, begin_drain-reservations,
}
use kwt.Daemon.Gate.{
  ReleaseWake, begin_drain, run, releases, wait_for_release, Gate, released, Wake, wait_for_drain,
}

abbrev pub IsEmptied : Gate → ℕ → Type 0
IsEmptied g now = (g.draining ≡ true) × (g.active_work ≡ 0) × (g.active_leases ≡ 0)

wait_for_drain_emptied :
    (g : Gate) (now : ℕ) (ws : List Wake)
    → IsEmptied g now
    → wait_for_drain g now ws ≡ some released
unfolding wait_for_drain
wait_for_drain_emptied g now [] h = ground arith
wait_for_drain_emptied g now (w ∷ ws) h = ground arith

wait_for_release_emptied :
    (g : Gate) (ws : List ReleaseWake)
    → g.active_work ≡ 0
    → g.active_leases ≡ 0
    → wait_for_release g ws ≡ some true
unfolding wait_for_release
wait_for_release_emptied g [] w l = ground arith
wait_for_release_emptied g (x ∷ ws) w l = ground arith

-- A drain completes: begin it on a consistent gate, let every holder release in any order, and both
-- waits return success at their next look, whatever the clock and the later events.
pub drain_completes :
    (g : Gate) (by now : ℕ) (ids : List ℕ) (ws : List Wake) (rs : List ReleaseWake)
    → IsConsistent g
    → g.draining ≡ false
    → Covers ids g.reservations
    → let h = run (begin_drain g by).0 (map releases ids) in
      (wait_for_drain h now ws ≡ some released) × (wait_for_release h rs ≡ some true)
drain_completes g by now ids ws rs v f c =
    let kept = run-StaysDrained (begin_drain g by).0 (map releases ids) (begun g by f).0 in
    let (_, w, l) =
      run-releases_empty (begin_drain g by).0 ids (begin_drain-IsConsistent g by v)
        (rw (begin_drain-reservations g by) c) in
    (wait_for_drain_emptied _ now ws (kept.draining, w, l), wait_for_release_emptied _ rs w l)
