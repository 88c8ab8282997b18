-- ===== src/Daemon/OperationHub/Entries/Replay.antt =====
-- The channel that a new subscription starts with.
use kwt.Common.{
  ℕ, zero, suc, ◌+◌, ◌-◌, ◌<◌, ◌≤◌, ◌≡◌, refl, sym, ap, ◌∙◌, true, false, List, [], ◌∷◌,
  if◌then◌else◌, ltb, lt→ltb, length, drop, arith, ok,
}
use kwt.Daemon.OperationEvent.{RetainedEvent}
use kwt.Daemon.OperationHub.Types.{Options, Entry, Subscription}
use kwt.Daemon.OperationHub.Events.Streams.{IsNumbered, IsStreamed}
use kwt.Daemon.OperationHub.Entries.{last_sequence, replay, subscribe_to}

drop_all : (n m : ℕ) (rs : List RetainedEvent) → n ≡ 0 → m ≡ 0 → drop n rs ≡ drop m rs
drop_all zero zero rs h k = refl
drop_all (suc n) m rs h k = absurd (omega (arith, h))
drop_all zero (suc m) rs h k = absurd (omega (arith, k))

drop_nil : (A : Type 0) (m : ℕ) (xs : List A) → xs ≡ [] → drop m xs ≡ []
drop_nil A zero xs h = h
drop_nil A (suc m) [] h = refl
drop_nil A (suc m) (x ∷ xs) h = absurd (cc h)

ge→ltb : (a b : ℕ) → b ≤ a → ltb a b ≡ false
ge→ltb a b h = ground arith

replay_cons :
    (after : ℕ) (r : RetainedEvent) (rs : List RetainedEvent)
    → replay after (r ∷ rs)
      ≡ (if ltb after r.sequence then r ∷ replay after rs else replay after rs)
unfolding replay
replay_cons after r rs = ground arith

replay-drop :
    (after n : ℕ) (rs : List RetainedEvent)
    → IsNumbered n rs
    → replay after rs ≡ drop (after + 1 - n) rs
replay-drop after n [] h = unfold replay in sym (drop_nil RetainedEvent (after + 1 - n) [] refl)
replay-drop after n (r ∷ rs) (h, hs) =
    drop_step (after + 1 - n) refl (replay-drop after (n + 1) rs hs)
  where
    drop_step :
        (m : ℕ)
        → after + 1 - n ≡ m
        → replay after rs ≡ drop (after + 1 - (n + 1)) rs
        → replay after (r ∷ rs) ≡ drop m (r ∷ rs)
    drop_step zero m rest =
        let next : after + 1 - (n + 1) ≡ 0 = omega (arith, m) in
        replay_cons after r rs
        ∙ rw (lt→ltb after r.sequence (omega (arith, h, m)))
            (ap (λ xs. r ∷ xs) (rest ∙ ap (λ i. drop i rs) next))
    drop_step (suc i) m rest =
        let next : after + 1 - (n + 1) ≡ i = omega (arith, m) in
        replay_cons after r rs
        ∙ rw (ge→ltb after r.sequence (omega (arith, h, m))) (rest ∙ ap (λ i. drop i rs) next)

-- A subscription that is granted starts with exactly the events behind the cursor, in their order,
-- has room for as many more as the queue and the critical reserve say, and is within the limits of
-- the operation and of the hub; the cursor is not beyond the events.
pub subscribe_to-drop :
    (o : Options) (total key after : ℕ) (e f : Entry)
    → IsStreamed o e
    → subscribe_to o total key after e ≡ ok f
    → (s : Subscription) × (f.subscriptions ≡ s ∷ e.subscriptions)
      × (s.queue ≡ drop after e.events)
      × (s.capacity ≡ length (drop after e.events) + o.subscriber_queue + 1)
      × (s.closed ≡ e.terminal)
      × (f.events ≡ e.events)
      × (after ≤ last_sequence e.events)
      × (e.subscriber_count < o.max_subscribers_per_operation)
      × (total < o.max_subscribers)
unfolding subscribe_to
subscribe_to-drop o total key after e f w h =
    let one_off : after + 1 - 1 ≡ after = omega arith in
    let same : replay after e.events ≡ drop after e.events =
      replay-drop after 1 e.events w.numbered ∙ ap (λ i. drop i e.events) one_off in
    (
      record {
        key = key;
        queue = replay after e.events;
        capacity = length (replay after e.events) + o.subscriber_queue + 1;
        closed = e.terminal;
        attached = true;
        counted = true;
        once_done = false;
      },
      ground arith,
      same,
      ap (λ xs. length xs + o.subscriber_queue + 1) same,
      refl,
      ground arith,
      ground arith,
      ground arith,
      ground arith,
    )
