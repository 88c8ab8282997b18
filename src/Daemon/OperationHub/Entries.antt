-- ===== src/Daemon/OperationHub/Entries.antt =====
-- The parts of internal/daemon/operation.go that finish an entry, ask and answer its prompt, and
-- add and remove its subscriptions.
pub mod Kept
pub mod Finish
pub mod Ended
pub mod Replay
pub mod Answers
pub mod Answered
use kwt.Common.{
  ℕ, zero, suc, ◌+◌, ◌-◌, ◌≡◌, Bool, true, false, ◌&&◌, ◌||◌, not, Option, none, some, List, [],
  ◌∷◌, ◌++◌, map, Text, codes, if◌then◌else◌, ◌=?◌, ◌==◌, ltb, leb, length, keep, count, Result, ok,
  err, ◌>>=◌, ◌>>◌, require,
}
use kwt.Service.{
  Error, Descriptor, new_error, wrapped, plain, conflict, invalid_request,
  operation_capacity_exhausted, operation_outcome_unknown, no_details,
}
use kwt.Service.Operation.{
  OperationEvent, OperationEventKind, progress, warning, prompt, complete, OperationPrompt,
  OperationResponse, validate_operation_response,
}
use kwt.Daemon.Problem.{Clock, operation_failure, public_error_descriptor}
use kwt.Daemon.OperationEvent.{Codec, RetainedEvent}
use kwt.Daemon.OperationHub.Types.{
  Options, Subscription, Entry, PromptState, critical_queue_reserve,
}
use kwt.Daemon.OperationHub.Events.{
  Appended, append_event, terminate_capacity, mark_terminal, schedule_subscriber_loss,
  attached_count,
}

-- `Progress` and `Warning`.
abbrev pub message_event : OperationEventKind → Text → OperationEvent
message_event kind message = record {
  operation_id = [];
  sequence = 0;
  kind = kind;
  message = message;
  prompt = none;
  result = none;
  failure = none;
}

abbrev pub message_kind : Bool → OperationEventKind
message_kind true = warning
message_kind false = progress

abbrev pub completion : Option Text → Option Descriptor → OperationEvent
completion result failure = record (message_event complete []) {
  result = result;
  failure = failure;
}

abbrev already_complete : Error
already_complete = new_error conflict (codes "operation is already complete") false no_details

pub emit : Codec → Options → ℕ → Entry → OperationEvent → Appended
emit c o now e event =
    if e.terminal
    then record { entry = e; failure = some already_complete }
    else append_event c o now e event

-- What follows a fallback completion.
give_up : Codec → Options → ℕ → Entry → Option Error → Entry
give_up c o now e none = e
give_up c o now e (some f) = if e.terminal then e else terminate_capacity c o now e

abbrev fallback_event : Clock → Error → OperationEvent
fallback_event k f =
    completion none
      (some (public_error_descriptor k (wrapped (codes "publish operation completion") f)))

-- What follows a completion that failed and left the entry open.
fall_back : Codec → Clock → Options → ℕ → Entry → Option Error → Entry
unfolding give_up
fall_back c k o now e none = e
fall_back c k o now e (some f) =
    let again : Appended = append_event c o now e (fallback_event k f) in
    if e.terminal then e else give_up c o now again.entry again.failure

-- The event of a worker's return; a result that is nil is `{}`.
unfoldable pub outcome_event : Clock → Result Error (Option Text) → OperationEvent
outcome_event k (ok none) = completion (some (codes "{}")) none
outcome_event k (ok (some r)) = completion (some r) none
outcome_event k (err e) = completion none (some (operation_failure k e))

pub finish_entry : Codec → Clock → Options → ℕ → Result Error (Option Text) → Entry → Entry
unfolding fall_back outcome_event
finish_entry c k o now returned e =
    if e.terminal
    then e
    else let first = append_event c o now e (outcome_event k returned) in
      mark_terminal now (fall_back c k o now first.entry first.failure)

abbrev drain_event : OperationEvent
drain_event = completion none (
    some (record {
      code = operation_outcome_unknown;
      message = codes "daemon drain deadline expired";
      retryable = false;
      details = no_details;
    }))

-- `CancelActiveForDrain` on one entry.
pub drain_entry : Codec → Options → ℕ → Entry → Entry
drain_entry c o now e =
    if e.terminal then e else mark_terminal now (append_event c o now e drain_event).entry

abbrev is_prompt : ℕ → Option PromptState → Bool
is_prompt ref none = false
is_prompt ref (some p) = p.ref == ref

-- The deferred function of `Prompt`.
pub end_prompt : ℕ → Entry → Entry
end_prompt ref e = if is_prompt ref e.prompt then record e { prompt = none } else e

abbrev prompt_event : OperationPrompt → OperationEvent
prompt_event p = record (message_event prompt []) { prompt = some p }

-- `Prompt` up to its wait, once there is an id.
-- A prompt whose event was refused is taken back.
pub asked : ℕ → Entry → Option Error → Appended
unfolding end_prompt
asked ref e none = record { entry = e; failure = none }
asked ref e (some f) = record { entry = end_prompt ref e; failure = some f }

abbrev has_prompt : Entry → Bool
has_prompt e = elim e.prompt [ none ↦ false | some p ↦ true ]

-- The event of a new prompt.
ask : Codec → Options → ℕ → Text → OperationPrompt → Entry → Appended
unfolding asked
ask c o now id p e =
    let prompting : Entry = record e {
      prompt = some (record { ref = e.prompts; id = id; responded = false });
      prompts = e.prompts + 1;
    } in
    let sent : Appended = append_event c o now prompting (prompt_event (record p { id = id })) in
    asked e.prompts sent.entry sent.failure

abbrev already_prompting : Entry → Appended
already_prompting e = record {
  entry = e;
  failure =
      some (new_error conflict (codes "operation already has an active prompt") false no_details);
}

pub begin_prompt : Codec → Options → ℕ → Text → OperationPrompt → Entry → Appended
unfolding ask
begin_prompt c o now id p e =
    if e.terminal
    then record { entry = e; failure = some already_complete }
    else if has_prompt e
    then already_prompting e
    else ask c o now id p e

abbrev prompt_conflict : Text → Error
prompt_conflict m = new_error conflict m false no_details

abbrev current_prompt : Option PromptState → Text → Result Error PromptState
current_prompt none id = err (prompt_conflict (codes "operation prompt is no longer current"))
current_prompt (some p) id =
    if p.id =? id
    then ok p
    else err (prompt_conflict (codes "operation prompt is no longer current"))

-- `Respond` on the entry that was found.
pub respond_to : OperationResponse → Entry → Result Error Entry
respond_to r e = do
  require (not e.terminal) already_complete
  p ← current_prompt e.prompt r.prompt_id
  require (not p.responded) (prompt_conflict (codes "operation prompt already has a response"))
  ok (record e {
    prompt = some (record p { responded = true });
    answers = e.answers ++ (p.ref, r) ∷ [];
  })

unfoldable pub last_sequence : List RetainedEvent → ℕ
last_sequence [] = 0
last_sequence (r ∷ []) = r.sequence
last_sequence (r ∷ q ∷ rs) = last_sequence (q ∷ rs)

abbrev pub is_dropped : ℕ → List RetainedEvent → Bool
is_dropped after [] = false
is_dropped after (r ∷ rs) = ltb (after + 1) r.sequence

-- The events that a subscription starts with.
unfoldable pub replay : ℕ → List RetainedEvent → List RetainedEvent
replay after = keep (λ r. ltb after r.sequence)

-- `Subscribe` on the entry that was found, with the hub's count of subscribers.
unfoldable pub subscribe_to : Options → ℕ → ℕ → ℕ → Entry → Result Error Entry
unfolding last_sequence replay
subscribe_to o total key after e = do
  require (not (ltb (last_sequence e.events) after)) (
      new_error invalid_request (codes "operation cursor is beyond the retained stream") false
        no_details)
  require (not (is_dropped after e.events)) (
      new_error operation_outcome_unknown (codes "operation events are no longer retained") false
        no_details)
  require
      (not (leb o.max_subscribers_per_operation e.subscriber_count || leb o.max_subscribers total))
      (new_error operation_capacity_exhausted
        (codes "daemon operation subscriber capacity is exhausted") true no_details)
  let events = replay after e.events
  ok (record e {
    loss_timer = none;
    subscriptions =
        record {
          key = key;
          queue = events;
          capacity = length events + o.subscriber_queue + critical_queue_reserve;
          closed = e.terminal;
          attached = true;
          counted = true;
          once_done = false;
        }
        ∷ e.subscriptions;
    subscriber_count = e.subscriber_count + 1;
  })

abbrev find_subscription : ℕ → List Subscription → Option Subscription
find_subscription key [] = none
find_subscription key (s ∷ ss) = if s.key == key then some s else find_subscription key ss

-- `Close` and `removeSubscriber` on the subscription.
pub remove_subscription : Bool → ℕ → Subscription → Subscription
remove_subscription terminal key s = if not (s.key == key) then s else record s {
  attached = false;
  closed = if s.attached && not terminal then true else s.closed;
  counted = false;
  once_done = true;
}

abbrev pub is_removable : ℕ → Entry → Bool
is_removable key e = elim (find_subscription key e.subscriptions) [
  | none ↦ false
  | some s ↦ not s.once_done
]

abbrev pub is_counted : ℕ → Entry → Bool
is_counted key e = elim (find_subscription key e.subscriptions) [
  | none ↦ false
  | some s ↦ s.counted
]

pub remove_subscriber : ℕ → Entry → Entry
unfolding remove_subscription
remove_subscriber key e =
    let removed = record e {
      subscriptions = map (remove_subscription e.terminal key) e.subscriptions;
    } in
    if is_counted key e
    then schedule_subscriber_loss (record removed { subscriber_count = e.subscriber_count - 1 })
    else removed

abbrev rest_of : List RetainedEvent → List RetainedEvent
rest_of [] = []
rest_of (r ∷ rs) = rs

-- A client takes the first event out of a subscription's channel.
receive_from : ℕ → Subscription → Subscription
receive_from key s = if s.key == key then record s { queue = rest_of s.queue } else s

unfoldable pub receive_event : ℕ → Entry → Entry
unfolding receive_from
receive_event key e = record e { subscriptions = map (receive_from key) e.subscriptions }

-- The callback of the timer that `scheduleSubscriberLossLocked` starts.
pub loss_timer_fired : ℕ → Entry → Entry
loss_timer_fired token e =
    if not (e.loss_timer_token == token)
    then e
    else if e.listed && not e.terminal && attached_count e == 0
    then record e { canceled = true; loss_timer = none }
    else record e { loss_timer = none }
