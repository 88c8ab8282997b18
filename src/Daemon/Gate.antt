-- ===== src/Daemon/Gate.antt =====
-- internal/daemon/gate.go. A time is a number of nanoseconds and the zero time is 0; an idle timeout
-- that the code finds not positive is 0. Every method holds the mutex from its first line to its
-- last, so a method is one step. The map of reservations is a list with the newest first. The
-- channel `changed` is closed and made anew by `notifyLocked`; its number counts the channels made.
pub mod Reservations
pub mod Invariant
pub mod Drain
pub mod Waiting
mod Examples
use kwt.Common.{
  ℕ, ◌+◌, ◌-◌, ◌^◌, ◌%◌, ◌≡◌, Bool, true, false, ◌&&◌, ◌||◌, not, Option, none, some, List, [], ◌∷◌,
  if◌then◌else◌, ltb, leb, ◌==◌, codes,
}
use kwt.Service.{Error, new_error, daemon_draining, drain_deadline}

pub data ReservationKind : Type 0 where
  work lease : ReservationKind

pub data DrainResult : Type 0 where
  released deadline canceled : DrainResult

abbrev pub is_lease : ReservationKind → Bool
is_lease lease = true
is_lease work = false

pub record GateSnapshot : Type 0 where
  pub draining : Bool
  pub drain_deadline : ℕ
  pub active_work : ℕ
  pub active_leases : ℕ
  pub last_activity_at : ℕ

pub record Gate : Type 0 where
  pub last_activity : ℕ
  pub draining : Bool
  pub drain_deadline : ℕ
  pub active_work : ℕ
  pub active_leases : ℕ
  pub reservation_seq : ℕ
  pub reservations : List (ℕ × ReservationKind)
  pub changed : ℕ

pub new_gate : ℕ → Gate
new_gate now = record {
  last_activity = now;
  draining = false;
  drain_deadline = 0;
  active_work = 0;
  active_leases = 0;
  reservation_seq = 0;
  reservations = [];
  changed = 0;
}

pub notify : Gate → Gate
notify g = record g { changed = g.changed + 1 }

pub touch : Gate → ℕ → Gate
unfolding notify
touch g now =
    if g.draining || not (ltb g.last_activity now)
    then g
    else notify (record g { last_activity = now })

-- The map: `g.reservations[id]`, and `delete(g.reservations, id)`.
pub find : ℕ → List (ℕ × ReservationKind) → Option ReservationKind
find id [] = none
find id ((j, k) ∷ rs) = if j == id then some k else find id rs

pub remove : ℕ → List (ℕ × ReservationKind) → List (ℕ × ReservationKind)
remove id [] = []
remove id ((j, k) ∷ rs) = if j == id then remove id rs else (j, k) ∷ remove id rs

abbrev pub uint64 : ℕ → ℕ
uint64 n = n % 2 ^ 64

-- The gate after `Reserve`, and the id that the returned function keeps; or the refusal.
pub data Reserved : Type 0 where
  granted : ℕ → Gate → Reserved
  refused : Error → Reserved

count_in : ReservationKind → Gate → Gate
count_in lease g = record g { active_leases = g.active_leases + 1 }
count_in work g = record g { active_work = g.active_work + 1 }

pub reserve : Gate → ReservationKind → ℕ → Reserved
unfolding notify count_in remove
reserve g kind now =
    let id = uint64 (g.reservation_seq + 1) in
    let stored = record g {
      reservation_seq = id;
      reservations = (id, kind) ∷ remove id g.reservations;
    } in
    let counted = count_in kind stored in
    let active =
      if ltb g.last_activity now then record counted { last_activity = now } else counted in
    if g.draining
    then refused (
        new_error daemon_draining (codes "daemon is draining") true
          (drain_deadline g.drain_deadline))
    else granted id (notify active)

count_out : Option ReservationKind → ℕ → Gate → Gate
unfolding notify remove
count_out none id g = g
count_out (some lease) id g =
    notify
      (record g { reservations = remove id g.reservations; active_leases = g.active_leases - 1 })
count_out (some work) id g =
    notify (record g { reservations = remove id g.reservations; active_work = g.active_work - 1 })

-- The body of the function that `Reserve` returns.
pub release : Gate → ℕ → Gate
unfolding count_out find
release g id = count_out (find id g.reservations) id g

-- The function itself, with its `sync.Once`: the flag says that it has run.
pub record ReleaseFunc : Type 0 where
  pub id : ℕ
  pub done : Bool

pub call_release : Gate → ReleaseFunc → Gate × ReleaseFunc
call_release g f = if f.done then (g, f) else (release g f.id, record f { done = true })

snapshot : Gate → GateSnapshot
snapshot g = record {
  draining = g.draining;
  drain_deadline = g.drain_deadline;
  active_work = g.active_work;
  active_leases = g.active_leases;
  last_activity_at = g.last_activity;
}

pub begin_drain : Gate → ℕ → Gate × GateSnapshot
unfolding notify snapshot
begin_drain g by =
    let h = if g.draining then g else notify (record g { draining = true; drain_deadline = by }) in
    (h, snapshot h)

pub should_stop_for_idle : Gate → ℕ → ℕ → Bool
should_stop_for_idle g now idle_timeout =
    ltb 0 idle_timeout
    && not g.draining
    && g.active_work == 0
    && g.active_leases == 0
    && not (ltb now (g.last_activity + idle_timeout))

-- What ends a wait of `WaitForDrain`: the context, the channel (with the gate that the next round
-- reads and its time), or the timer.
pub data Wake : Type 0 where
  context_done timer_fired : Wake
  notified : Gate → ℕ → Wake

-- `none`: still waiting when the listed events are used up.
pub wait_for_drain : Gate → ℕ → List Wake → Option DrainResult
wait_for_drain g now [] =
    if g.draining && g.active_work == 0 && g.active_leases == 0
    then some released
    else if not (ltb now g.drain_deadline)
    then some deadline
    else none
wait_for_drain g now (w ∷ ws) =
    let next : Option DrainResult = elim w [
      | context_done ↦ some canceled
      | timer_fired ↦ some deadline
      | notified h later ↦ wait_for_drain h later ws
    ] in
    if g.draining && g.active_work == 0 && g.active_leases == 0
    then some released
    else if not (ltb now g.drain_deadline)
    then some deadline
    else next

-- The same for `WaitForRelease`, which has no timer.
pub data ReleaseWake : Type 0 where
  context_done : ReleaseWake
  notified : Gate → ReleaseWake

pub wait_for_release : Gate → List ReleaseWake → Option Bool
wait_for_release g [] = if g.active_work == 0 && g.active_leases == 0 then some true else none
wait_for_release g (w ∷ ws) =
    let next : Option Bool = elim w [
      | context_done ↦ some false
      | notified h ↦ wait_for_release h ws
    ] in
    if g.active_work == 0 && g.active_leases == 0 then some true else next

-- A caller's use of the gate. `releases` is one call of the function that was given `id`.
pub data Call : Type 0 where
  touches : ℕ → Call
  reserves : ReservationKind → ℕ → Call
  releases : ℕ → Call
  drains : ℕ → Call

abbrev after_reserve : Gate → Reserved → Gate
after_reserve g (granted id h) = h
after_reserve g (refused e) = g

pub step : Gate → Call → Gate
unfolding touch reserve release begin_drain
step g (touches now) = touch g now
step g (reserves kind now) = after_reserve g (reserve g kind now)
step g (releases id) = release g id
step g (drains by) = (begin_drain g by).0

pub run : Gate → List Call → Gate
run g [] = g
run g (c ∷ cs) = run (step g c) cs
