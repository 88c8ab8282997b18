-- ===== src/Daemon/OperationHub.antt =====
-- internal/daemon/operation.go. Every method holds the hub's mutex while it touches the state, so a
-- locked region is one step. What the code reads outside is an argument: the clock's `now`, the
-- answers of `IDSource` and of `Reserve`. The map of operations is iterated over in the order of the
-- store, which decides between two entries that completed at the same time.
pub mod Types
pub mod Events
pub mod Entries
pub mod Store
pub mod Starts
pub mod Invariants
pub mod Entrywise
pub mod Streams
pub mod Responses
mod Examples
use kwt.Common.{
  ℕ, zero, suc, ◌+◌, ◌-◌, ◌≡◌, Bool, true, false, ◌&&◌, ◌||◌, not, Option, none, some, List, [],
  ◌∷◌, ◌++◌, map, Text, codes, if◌then◌else◌, ◌=?◌, ◌==◌, ltb, leb, length, keep, count, all, any,
  Result, ok, err, ◌>>=◌, ◌>>◌, require, is_space,
}
use kwt.Service.{
  Error, Descriptor, new_error, wrapped, plain, conflict, invalid_request, not_found,
  operation_id_conflict, operation_capacity_exhausted, operation_outcome_unknown, daemon_draining,
  no_details, drain_deadline,
}
use kwt.Service.Operation.{
  OperationEvent, OperationEventKind, progress, warning, prompt, complete, OperationPrompt,
  OperationResponse, OperationStreamValidator, StreamError, validate_operation_response,
  new_validator,
}
use kwt.Daemon.Problem.{Clock}
use kwt.Daemon.OperationEvent.{Codec, RetainedEvent}
use Types.{Options, Subscription, Entry, Hub, new_hub, with_defaults}
use Entries.{
  emit, finish_entry, drain_entry, begin_prompt, end_prompt, respond_to, subscribe_to,
  remove_subscriber, is_removable, is_counted, receive_event, loss_timer_fired, message_event,
  message_kind,
}
use Store.{find_entry, entry_at, update, prune, after_step}
use Starts.{OperationStart, start}

released_at : ℕ → ℕ → Hub → Option Entry → Hub × Option ℕ
unfolding prune
released_at now ref h none = (h, none)
released_at now ref h (some e) =
    let freed = update ref (λ f. record f { reservation = none; worker_active = false }) h in
    (prune now (record freed { active = h.active - 1 }), e.reservation)

-- The end of the worker: the hub, and its release function, which `run` calls between the two locked
-- regions.
pub release_worker : ℕ → ℕ → Hub → Hub × Option ℕ
unfolding released_at entry_at
release_worker now ref h = released_at now ref h (entry_at ref h.entries)

pub finish : Codec → Clock → ℕ → ℕ → Result Error (Option Text) → Hub → Hub
unfolding after_step
finish c k now ref returned h = after_step ref (finish_entry c k h.options now returned) h

pub progress_or_warning : Codec → ℕ → ℕ → Bool → Text → Hub → Hub
unfolding after_step
progress_or_warning c now ref warns message h =
    after_step ref
      (λ e. (emit c h.options now e (message_event (message_kind warns) message)).entry) h

-- `Prompt` up to its wait. An id that `IDSource` does not give, or gives as empty, changes nothing.
pub start_prompt : Codec → ℕ → ℕ → Result Error Text → OperationPrompt → Hub → Hub
unfolding after_step
start_prompt c now ref (err f) p h = h
start_prompt c now ref (ok id) p h =
    if length id == 0
    then h
    else after_step ref (λ e. (begin_prompt c h.options now id p e).entry) h

pub stop_prompt : ℕ → ℕ → Hub → Hub
stop_prompt ref prompt_ref h = update ref (end_prompt prompt_ref) h

abbrev unknown_operation : Error
unknown_operation = new_error not_found (codes "operation was not found") false no_details

-- A step on an entry that may refuse.
put : ℕ → Hub → Result Error Entry → Result Error Hub
put ref h (err f) = err f
put ref h (ok e) = ok (update ref (λ _. e) h)

respond_found : OperationResponse → Hub → Option Entry → Result Error Hub
unfolding put
respond_found r h none = err unknown_operation
respond_found r h (some e) = put e.ref h (respond_to r e)

abbrev or_invalid_response : {A : Type 0} → Result StreamError A → Result Error A
or_invalid_response (err f) =
    err (new_error invalid_request (codes "operation response is invalid") false no_details)
or_invalid_response (ok a) = ok a

pub respond : Text → OperationResponse → Hub → Result Error Hub
unfolding find_entry respond_found
respond id r h = do
  or_invalid_response (validate_operation_response r)
  respond_found r h (find_entry id h.entries)

cancel_found : Hub → Option Entry → Result Error Hub
cancel_found h none = err unknown_operation
cancel_found h (some e) =
    ok (if e.terminal then h else update e.ref (λ f. record f { canceled = true }) h)

pub cancel : Text → Hub → Result Error Hub
unfolding find_entry cancel_found
cancel id h = cancel_found h (find_entry id h.entries)

pub begin_drain : ℕ → Hub → Hub
begin_drain deadline h =
    if h.draining then h else record h { draining = true; drain_deadline = deadline }

-- The loop of `CancelActiveForDrain` over the operations in the map.
pub drain_loop : Codec → ℕ → List Entry → Hub → Hub
unfolding after_step
drain_loop c now [] h = h
drain_loop c now (e ∷ es) h =
    drain_loop c now es (if e.listed then after_step e.ref (drain_entry c h.options now) h else h)

pub cancel_active_for_drain : Codec → ℕ → Hub → Hub
unfolding drain_loop
cancel_active_for_drain c now h = drain_loop c now h.entries h

put_subscription : ℕ → Hub → Result Error Entry → Result Error (Hub × ℕ)
put_subscription ref h (err f) = err f
put_subscription ref h (ok e) =
    ok (
      record (update ref (λ _. e) h) { subscribers = h.subscribers + 1; keys = h.keys + 1 },
      h.keys,
    )

subscribe_found : ℕ → Hub → Option Entry → Result Error (Hub × ℕ)
unfolding put_subscription
subscribe_found after h none = err unknown_operation
subscribe_found after h (some e) =
    put_subscription e.ref h (subscribe_to h.options h.subscribers h.keys after e)

pub subscribe : ℕ → Text → ℕ → Hub → Result Error (Hub × ℕ)
unfolding prune find_entry subscribe_found
subscribe now id after h = subscribe_found after (prune now h) (find_entry id (prune now h).entries)

closed_at : ℕ → ℕ → Hub → Option Entry → Hub
closed_at ref key h none = h
closed_at ref key h (some e) =
    let removed = update ref (remove_subscriber key) h in
    if not (is_removable key e)
    then h
    else if is_counted key e
    then record removed { subscribers = h.subscribers - 1 }
    else removed

-- `Close` of a subscription, whose `sync.Once` lets the first call through.
pub close : ℕ → ℕ → Hub → Hub
unfolding entry_at closed_at
close ref key h = closed_at ref key h (entry_at ref h.entries)

pub receive : ℕ → ℕ → Hub → Hub
receive ref key h = update ref (receive_event key) h

pub lose_subscribers : ℕ → ℕ → Hub → Hub
lose_subscribers ref token h = update ref (loss_timer_fired token) h

-- What is called, by workers and by clients, and what the timers do.
pub data Call : Type 0 where
  starts : ℕ → OperationStart → (ℕ → Result Error Text) → Option (Result Error ℕ) → Call
  finishes : ℕ → ℕ → Result Error (Option Text) → Call
  releases : ℕ → ℕ → Call
  reports : ℕ → ℕ → Bool → Text → Call
  asks : ℕ → ℕ → Result Error Text → OperationPrompt → Call
  stops_asking : ℕ → ℕ → Call
  responds : Text → OperationResponse → Call
  cancels : Text → Call
  drains : ℕ → Call
  cancels_active : ℕ → Call
  subscribes : ℕ → Text → ℕ → Call
  receives : ℕ → ℕ → Call
  closes : ℕ → ℕ → Call
  loses_subscribers : ℕ → ℕ → Call

abbrev pub or_same : Hub → Result Error Hub → Hub
or_same h (ok g) = g
or_same h (err f) = h

-- A subscription that is refused has pruned all the same.
abbrev after_subscribe : Hub → Result Error (Hub × ℕ) → Hub
after_subscribe h (ok (g, key)) = g
after_subscribe h (err f) = h

-- `run` calls `releaseWorker` once for each worker, after `finish`.
abbrev pub is_finished_worker : Option Entry → Bool
is_finished_worker none = false
is_finished_worker (some e) = e.worker_active && e.terminal

pub step : Codec → Clock → Hub → Call → Hub
unfolding start finish release_worker progress_or_warning start_prompt stop_prompt respond cancel
    begin_drain cancel_active_for_drain subscribe receive close lose_subscribers prune
step c k h (starts now s ids reservation) = (start now h s ids reservation).hub
step c k h (finishes now ref returned) = finish c k now ref returned h
step c k h (releases now ref) =
    if is_finished_worker (entry_at ref h.entries) then (release_worker now ref h).0 else h
step c k h (reports now ref warns message) = progress_or_warning c now ref warns message h
step c k h (asks now ref id p) = start_prompt c now ref id p h
step c k h (stops_asking ref prompt_ref) = stop_prompt ref prompt_ref h
step c k h (responds id r) = or_same h (respond id r h)
step c k h (cancels id) = or_same h (cancel id h)
step c k h (drains deadline) = begin_drain deadline h
step c k h (cancels_active now) = cancel_active_for_drain c now h
step c k h (subscribes now id after) = after_subscribe (prune now h) (subscribe now id after h)
step c k h (receives ref key) = receive ref key h
step c k h (closes ref key) = close ref key h
step c k h (loses_subscribers ref token) = lose_subscribers ref token h

pub run : Codec → Clock → Hub → List Call → Hub
unfolding step
run c k h [] = h
run c k h (x ∷ xs) = run c k (step c k h x) xs
