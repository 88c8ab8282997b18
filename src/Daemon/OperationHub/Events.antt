-- ===== src/Daemon/OperationHub/Events.antt =====
-- What internal/daemon/operation.go does to a single entry: sending, appending and completing.
pub mod Streams
pub mod Completion
pub mod Prompts
use kwt.Common.{
  ℕ, zero, suc, ◌+◌, ◌-◌, ◌/◌, ◌≡◌, Bool, true, false, ◌&&◌, ◌||◌, not, Option, none, some, List,
  [], ◌∷◌, ◌++◌, map, Text, codes, if◌then◌else◌, ◌==◌, ltb, leb, length, count, Result, ok, err,
  ◌>>=◌,
}
use kwt.Service.{
  Error, Descriptor, new_error, wrapped, plain, conflict, operation_capacity_exhausted,
  operation_outcome_unknown, no_details,
}
use kwt.Service.Operation.{
  OperationEvent, OperationEventKind, progress, warning, prompt, complete, unknown, is_complete,
  OperationStreamValidator, StreamError, accept, uint64, OperationPrompt,
}
use kwt.Daemon.OperationEvent.{
  Codec, RetainedEvent, EncodeError, too_large, invalid, encode_retained,
}
use kwt.Daemon.OperationHub.Types.{
  Options, Subscription, Entry, PromptState, completion_reserve_bytes, critical_queue_reserve,
}

abbrev pub is_attached : Subscription → Bool
is_attached s = s.attached

abbrev pub attached_count : Entry → ℕ
attached_count e = count is_attached e.subscriptions

-- `scheduleSubscriberLossLocked`; the callback is `loss_timer_fired` of the hub.
pub schedule_subscriber_loss : Entry → Entry
schedule_subscriber_loss e =
    if e.terminal
      || not (attached_count e == 0)
      || (elim e.loss_timer [ none ↦ false | some t ↦ true ])
    then e
    else record e {
      loss_timer_token = uint64 (e.loss_timer_token + 1);
      loss_timer = some (uint64 (e.loss_timer_token + 1));
    }

abbrev is_critical : OperationEventKind → Bool
is_critical prompt = true
is_critical complete = true
is_critical _ = false

pub dispatch_to : RetainedEvent → Subscription → Subscription
dispatch_to event s =
    let limit =
      if is_critical event.kind then s.capacity else s.capacity - critical_queue_reserve in
    if not s.attached
    then s
    else if leb limit (length s.queue)
    then record s { attached = false; closed = true }
    else if ltb (length s.queue) s.capacity
    then record s { queue = s.queue ++ event ∷ [] }
    else record s { attached = false; closed = true }

pub dispatch : Entry → RetainedEvent → Entry
unfolding schedule_subscriber_loss dispatch_to
dispatch e event =
    schedule_subscriber_loss (record e { subscriptions = map (dispatch_to event) e.subscriptions })

pub close_attached : Subscription → Subscription
close_attached s = if s.attached then record s { closed = true } else s

-- `markTerminalLocked` but for the pruning, which is the hub's.
pub mark_terminal : ℕ → Entry → Entry
unfolding close_attached
mark_terminal now e = if e.terminal then e else record e {
  terminal = true;
  completed_at = now;
  prompt = none;
  canceled = true;
  loss_timer = none;
  subscriptions = map close_attached e.subscriptions;
}

unfoldable pub nonterminal_byte_limit : Options → ℕ
nonterminal_byte_limit o =
    let reserve =
      if ltb (o.max_bytes / 2) completion_reserve_bytes
      then o.max_bytes / 2
      else completion_reserve_bytes in
    o.max_bytes - reserve

-- An event that was encoded and accepted.
pub store : Entry → OperationStreamValidator → RetainedEvent → Entry
unfolding dispatch
store e v r =
    dispatch
      (record e {
        validator = v;
        events = e.events ++ r ∷ [];
        event_bytes = e.event_bytes + length r.encoded;
      })
      r

abbrev failed_event : Entry → Descriptor → OperationEvent
failed_event e d = record {
  operation_id = e.id;
  sequence = uint64 (length e.events + 1);
  kind = complete;
  message = [];
  prompt = none;
  result = none;
  failure = some d;
}

abbrev capacity_failure : Descriptor
capacity_failure = record {
  code = operation_outcome_unknown;
  message = codes "operation outcome is unknown after event capacity was exhausted";
  retryable = false;
  details = no_details;
}

-- Stored if the validator takes it.
stored_if : Entry → RetainedEvent → Result StreamError OperationStreamValidator → Entry
unfolding store
stored_if e r (ok v) = store e v r
stored_if e r (err f) = e

encoded_if : Options → Entry → OperationEvent → Result EncodeError RetainedEvent → Entry
unfolding stored_if
encoded_if o e event (err f) = e
encoded_if o e event (ok r) =
    if ltb (length e.events) o.max_events then stored_if e r (accept e.validator event) else e

pub terminate_capacity : Codec → Options → ℕ → Entry → Entry
unfolding encoded_if mark_terminal
terminate_capacity c o now e =
    let event = failed_event e capacity_failure in
    if e.terminal
    then e
    else mark_terminal now
        (encoded_if o e event (encode_retained c event o.max_bytes e.event_bytes))

-- The entry after `appendLocked`, and the error.
pub record Appended : Type 0 where
  pub entry : Entry
  pub failure : Option Error

abbrev exhausted : Text → Error
exhausted m = new_error operation_capacity_exhausted m true no_details

-- `fmt.Errorf("encode operation event: %w", err)` and its like.
abbrev encode_failed : Error
encode_failed =
    wrapped (codes "encode operation event") (plain (codes "operation event payload is invalid"))

abbrev validate_failed : Error
validate_failed = wrapped (codes "validate operation event") (plain (codes "operation event"))

append_accepted : Entry → RetainedEvent → Result StreamError OperationStreamValidator → Appended
unfolding store
append_accepted e r (err f) = record { entry = e; failure = some validate_failed }
append_accepted e r (ok v) = record { entry = store e v r; failure = none }

append_encoded :
    Codec → Options → ℕ → Entry → OperationEvent → Result EncodeError RetainedEvent → Appended
unfolding append_accepted terminate_capacity
append_encoded c o now e event (err too_large) = record {
  entry = terminate_capacity c o now e;
  failure = some (exhausted (codes "operation event capacity is exhausted"));
}
append_encoded c o now e event (err invalid) = record { entry = e; failure = some encode_failed }
append_encoded c o now e event (ok r) = append_accepted e r (accept e.validator event)

abbrev stamped : Entry → OperationEvent → OperationEvent
stamped e event = record event { operation_id = e.id; sequence = uint64 (length e.events + 1) }

pub append_event : Codec → Options → ℕ → Entry → OperationEvent → Appended
unfolding append_encoded terminate_capacity nonterminal_byte_limit
append_event c o now e event =
    let limit = if is_complete event.kind then o.max_bytes else nonterminal_byte_limit o in
    if not (is_complete event.kind) && leb (o.max_events - 1) (length e.events)
    then record {
      entry = terminate_capacity c o now e;
      failure = some (exhausted (codes "operation event capacity is exhausted"));
    }
    else if is_complete event.kind && leb o.max_events (length e.events)
    then record {
      entry = terminate_capacity c o now e;
      failure = some (exhausted (codes "operation completion exceeds event capacity"));
    }
    else append_encoded c o now e (stamped e event)
        (encode_retained c (stamped e event) limit e.event_bytes)
