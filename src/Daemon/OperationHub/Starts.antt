-- ===== src/Daemon/OperationHub/Starts.antt =====
-- `Start` of internal/daemon/operation.go.
pub mod Keeping
pub mod Draining
use kwt.Common.{
  ℕ, zero, suc, ◌+◌, ◌-◌, ◌≡◌, Bool, true, false, ◌&&◌, ◌||◌, not, Option, none, some, List, [],
  ◌∷◌, ◌++◌, map, Text, codes, if◌then◌else◌, ◌=?◌, ◌==◌, ltb, leb, length, keep, count, all, any,
  Result, ok, err, ◌>>=◌, ◌>>◌, require, is_space,
}
use kwt.Service.{
  Error, Descriptor, new_error, wrapped, plain, conflict, invalid_request, not_found,
  operation_id_conflict, operation_capacity_exhausted, operation_outcome_unknown, daemon_draining,
  no_details, drain_deadline,
}
use kwt.Service.Operation.{
  OperationEvent, OperationEventKind, progress, warning, prompt, complete, OperationPrompt,
  OperationResponse, OperationStreamValidator, StreamError, validate_operation_response,
  new_validator,
}
use kwt.Daemon.Problem.{Clock}
use kwt.Daemon.OperationEvent.{Codec, RetainedEvent}
use kwt.Daemon.OperationHub.Types.{Options, Subscription, Entry, Hub, new_hub, with_defaults}
use kwt.Daemon.OperationHub.Events.{schedule_subscriber_loss}
use kwt.Daemon.OperationHub.Store.{find_entry, prune, update}

abbrev pub is_id_byte : ℕ → Bool
is_id_byte c =
    (leb b'a' c && leb c b'z')
    || (leb b'A' c && leb c b'Z')
    || (leb b'0' c && leb c b'9')
    || c == b'-'
    || c == b'_'

unfoldable pub valid_operation_id : Text → Bool
valid_operation_id value = if length value == 0 then false else all (λ c. is_id_byte c) value

pub record OperationStart : Type 0 where
  pub id : Text
  pub request_digest : Text
  pub has_run : Bool

-- The hub after `Start`, the operation and whether it is new, and a reservation that was given back.
pub record Started : Type 0 where
  pub hub : Hub
  pub outcome : Result Error (ℕ × Bool)
  pub given_back : Option ℕ

abbrev pub refuse : Hub → Error → Started
refuse h e = record { hub = h; outcome = err e; given_back = none }

-- The literal of an entry.
abbrev pub fresh_entry : Hub → Text → Text → Option ℕ → OperationStreamValidator → Entry
fresh_entry h id digest reservation v = record {
  ref = h.refs;
  id = id;
  request_digest = digest;
  canceled = false;
  validator = v;
  events = [];
  event_bytes = 0;
  terminal = false;
  completed_at = 0;
  prompt = none;
  prompts = 0;
  answers = [];
  subscriptions = [];
  subscriber_count = 0;
  loss_timer = none;
  loss_timer_token = 0;
  reservation = reservation;
  worker_active = true;
  listed = true;
}

unfoldable pub new_entry : Hub → Text → Text → Option ℕ → OperationStreamValidator → Entry
new_entry h id digest reservation v =
    schedule_subscriber_loss (fresh_entry h id digest reservation v)

enter : Hub → Text → Text → Option ℕ → Result StreamError OperationStreamValidator → Started
unfolding new_entry
enter h id digest reservation (err f) = record {
  hub = h;
  outcome = err (plain (codes "operation ID is empty"));
  given_back = reservation;
}
enter h id digest reservation (ok v) = record {
  hub = record h {
    entries = h.entries ++ new_entry h id digest reservation v ∷ [];
    active = h.active + 1;
    refs = h.refs + 1;
  };
  outcome = ok (h.refs, true);
  given_back = none;
}

-- The answer of `Reserve`, where there is one: its release function as a number, or its error.
reserved : Hub → Text → Text → Option (Result Error ℕ) → Started
unfolding enter
reserved h id digest none = enter h id digest none (new_validator id 0)
reserved h id digest (some (err f)) = refuse h f
reserved h id digest (some (ok release)) = enter h id digest (some release) (new_validator id 0)

-- An id that no entry has.
pub start_new : Hub → OperationStart → Text → Option (Result Error ℕ) → Started
unfolding reserved
start_new h start id reservation =
    if not start.has_run
    then refuse h (new_error invalid_request (codes "new operation has no worker") false no_details)
    else if h.draining
    then refuse h (
        new_error daemon_draining (codes "daemon is draining") true
          (drain_deadline h.drain_deadline))
    else if leb h.options.max_active h.active
    then refuse h (
        new_error operation_capacity_exhausted (codes "daemon operation capacity is exhausted") true
          no_details)
    else reserved h id start.request_digest reservation

abbrev pub bad_id : Error
bad_id =
    new_error invalid_request
      (codes "operation ID must contain only ASCII letters, digits, hyphens, and underscores") false
      no_details

unfoldable pub existing_or_new :
    Hub → OperationStart → Text → Option (Result Error ℕ) → Started → Option Entry → Started
unfolding start_new
existing_or_new h start id reservation again none = start_new h start id reservation
existing_or_new h start id reservation again (some e) =
    if length start.id == 0
    then again
    else if e.request_digest =? start.request_digest
    then record { hub = h; outcome = ok (e.ref, false); given_back = none }
    else refuse h (
        new_error operation_id_conflict (codes "operation ID belongs to a different request") false
          no_details)

-- One attempt, with the id given or generated; `again` is what the next attempt leads to.
unfoldable pub with_id :
    ℕ → Hub → OperationStart → Option (Result Error ℕ) → Started → Result Error Text → Started
unfolding existing_or_new valid_operation_id prune find_entry
with_id now h start reservation again (err f) = refuse h (wrapped (codes "generate operation ID") f)
with_id now h start reservation again (ok id) =
    if length id == 0
    then refuse h (plain (codes "generated operation ID is empty"))
    else if not (valid_operation_id id)
    then refuse h bad_id
    else existing_or_new (prune now h) start id reservation again
        (find_entry id (prune now h).entries)

-- The attempts of `Start`: `ids` are the answers of `IDSource`.
unfoldable pub start_loop :
    ℕ → ℕ → Hub → OperationStart → (ℕ → Result Error Text) → Option (Result Error ℕ) → Started
unfolding with_id
start_loop zero now h start ids reservation =
    refuse h (plain (codes "generate unique operation ID"))
start_loop (suc attempts) now h start ids reservation =
    let again = start_loop attempts now (prune now h) start ids reservation in
    with_id now h start reservation again
      (if length start.id == 0 then ids attempts else ok start.id)

unfoldable pub start :
    ℕ → Hub → OperationStart → (ℕ → Result Error Text) → Option (Result Error ℕ) → Started
unfolding start_loop
start now h s ids reservation =
    if length s.request_digest == 0
    then refuse h
        (new_error invalid_request (codes "operation request digest is empty") false no_details)
    else start_loop 4 now h s ids reservation
