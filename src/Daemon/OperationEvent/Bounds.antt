-- ===== src/Daemon/OperationEvent/Bounds.antt =====
-- What an encoded event keeps of the event, and its size.
use kwt.Common.{ℕ, ◌+◌, ◌≤◌, ◌≡◌, refl, Option, none, some, Text, length, arith, ok}
use kwt.Service.Operation.{OperationEvent}
use kwt.Daemon.OperationEvent.{Codec, RetainedEvent, encode_retained}

-- A retained event has the event's number and kind, and fits into what was left of the limit.
pub encode_retained-ok :
    (c : Codec) (e : OperationEvent) (limit used : ℕ) (r : RetainedEvent)
    → encode_retained c e limit used ≡ ok r
    → (r.sequence ≡ e.sequence) × (r.kind ≡ e.kind) × (used + length r.encoded ≤ limit)
unfolding encode_retained
encode_retained-ok c e limit used r h = by_text (c.marshal e) refl
  where
    by_text :
        (x : Option Text)
        → c.marshal e ≡ x
        → (r.sequence ≡ e.sequence) × (r.kind ≡ e.kind) × (used + length r.encoded ≤ limit)
    by_text none s = ground arith
    by_text (some t) s = ground arith
