-- ===== src/Daemon/Gate/Drain.antt =====
-- A draining gate stays so, takes nothing new, and empties.
use kwt.Common.{
  ℕ, ◌≤◌, ◌≡◌, refl, true, false, none, List, [], ◌∷◌, map, All, any, ◌∙◌, arith, codes, ◌==◌,
}
use kwt.Service.{new_error, daemon_draining, drain_deadline}
use kwt.Daemon.Gate.{
  ReservationKind, Gate, touch, reserve, refused, find, remove, release, begin_drain, Call, touches,
  reserves, releases, drains, step, run,
}
use kwt.Daemon.Gate.Reservations.{Reservations}
use kwt.Daemon.Gate.Invariant.{IsConsistent, release-IsConsistent}

pub record StaysDrained (g h : Gate) : Type 0 where
  pub draining : h.draining ≡ true
  pub deadline : h.drain_deadline ≡ g.drain_deadline
  pub works : h.active_work ≤ g.active_work
  pub leases : h.active_leases ≤ g.active_leases
  pub activity : h.last_activity ≡ g.last_activity

step-StaysDrained : (g : Gate) (c : Call) → g.draining ≡ true → StaysDrained g (step g c)
unfolding step touch reserve release begin_drain
step-StaysDrained g (touches now) d = ground arith
step-StaysDrained g (reserves k now) d = ground arith
step-StaysDrained g (releases id) d = ground arith
step-StaysDrained g (drains by) d = ground arith

pub run-StaysDrained : (g : Gate) (cs : List Call) → g.draining ≡ true → StaysDrained g (run g cs)
unfolding run
run-StaysDrained g [] d = ground arith
run-StaysDrained g (c ∷ cs) d =
    let one = step-StaysDrained g c d in
    let rest = run-StaysDrained (step g c) cs one.draining in ground (arith, one, rest)

reserve_draining :
    (g : Gate) (k : ReservationKind) (now by : ℕ)
    → g.draining ≡ true
    → g.drain_deadline ≡ by
    → reserve g k now
      ≡ refused (new_error daemon_draining (codes "daemon is draining") true (drain_deadline by))
unfolding reserve
reserve_draining g k now by d e = ground arith

pub begin_drain-reservations :
    (g : Gate) (by : ℕ) → (begin_drain g by).0.reservations ≡ g.reservations
unfolding begin_drain
begin_drain-reservations g by = ground arith

pub begun :
    (g : Gate) (by : ℕ)
    → g.draining ≡ false
    → ((begin_drain g by).0.draining ≡ true) × ((begin_drain g by).0.drain_deadline ≡ by)
unfolding begin_drain
begun g by f = ground arith

-- Once a drain has begun, no calls end it or move its deadline, none raises a counter or counts as
-- activity, and after them every reservation is refused with the deadline of the first drain.
pub run_after_drain :
    (g : Gate) (by : ℕ) (cs : List Call) (k : ReservationKind) (now : ℕ)
    → g.draining ≡ false
    → let d = (begin_drain g by).0 in
      StaysDrained d (run d cs)
      × (reserve (run d cs) k now
          ≡ refused
              (new_error daemon_draining (codes "daemon is draining") true (drain_deadline by)))
run_after_drain g by cs k now f =
    let (d, e) = begun g by f in
    let kept = run-StaysDrained (begin_drain g by).0 cs d in
    (kept, reserve_draining _ k now by kept.draining (kept.deadline ∙ e))

-- Every reservation of the map has its id in the list.
abbrev pub Covers : List ℕ → Reservations → Type 0
Covers ids = All λ r. any (λ i. i == r.0) ids ≡ true

remove-Covers :
    (id : ℕ) (ids : List ℕ) (rs : Reservations) → Covers (id ∷ ids) rs → Covers ids (remove id rs)
unfolding remove
remove-Covers id ids [] c = tt
remove-Covers id ids ((j, k) ∷ rs) c = ground (arith, remove-Covers id ids rs c.1)

Covers-nil : (rs : Reservations) → Covers [] rs → rs ≡ []
Covers-nil [] c = refl
Covers-nil (r ∷ rs) c = ground arith

remove_unknown : (id : ℕ) (rs : Reservations) → find id rs ≡ none → remove id rs ≡ rs
unfolding find remove
remove_unknown id [] h = refl
remove_unknown id ((j, k) ∷ rs) h = ground (arith, remove_unknown id rs)

release-reservations : (g : Gate) (id : ℕ) → (release g id).reservations ≡ remove id g.reservations
unfolding release
release-reservations g id = ground (arith, remove_unknown id g.reservations)

-- However the holders of a consistent gate's reservations interleave their releases, once all have
-- released the map is empty and both counters are zero.
pub run-releases_empty :
    (g : Gate) (ids : List ℕ)
    → IsConsistent g
    → Covers ids g.reservations
    → let h = run g (map releases ids) in
      (h.reservations ≡ []) × (h.active_work ≡ 0) × (h.active_leases ≡ 0)
unfolding run
run-releases_empty g [] v c = let e = Covers-nil g.reservations c in ground (arith, e)
run-releases_empty g (id ∷ ids) v c =
    run-releases_empty (step g (releases id)) ids (unfold step in release-IsConsistent g id v)
      (unfold step in rw (release-reservations g id) (remove-Covers id ids g.reservations c))
