-- ===== src/Daemon/OperationHub/Types.antt =====
-- The state of internal/daemon/operation.go. A pointer is a number: an entry's `ref` and a
-- subscription's `key` are what the code compares when it compares pointers. An entry or a
-- subscription that the maps no longer hold is still in the store, as its holders keep it; `listed`
-- and `attached` say that a map holds it. A time is a number of nanoseconds.
use kwt.Common.{ℕ, Bool, false, Option, List, [], Text, if◌then◌else◌, ◌==◌, ltb}
use kwt.Service.Operation.{OperationResponse, OperationStreamValidator}
use kwt.Daemon.OperationEvent.{RetainedEvent}

-- The fields that are numbers; one that is not positive is 0.
pub record Options : Type 0 where
  pub max_events : ℕ
  pub max_bytes : ℕ
  pub max_active : ℕ
  pub max_completed : ℕ
  pub completed_retention : ℕ
  pub subscriber_grace : ℕ
  pub subscriber_queue : ℕ
  pub max_subscribers_per_operation : ℕ
  pub max_subscribers : ℕ

abbrev or_default : ℕ → ℕ → ℕ
or_default n d = if n == 0 then d else n

-- The defaults of `NewOperationHub`.
unfoldable pub with_defaults : Options → Options
with_defaults o = record {
  max_events = (let n = or_default o.max_events 256 in if ltb n 2 then 2 else n);
  max_bytes = or_default o.max_bytes 1048576;
  max_active = or_default o.max_active 128;
  max_completed = or_default o.max_completed 128;
  completed_retention = or_default o.completed_retention 300000000000;
  subscriber_grace = or_default o.subscriber_grace 5000000000;
  subscriber_queue = or_default o.subscriber_queue 32;
  max_subscribers_per_operation = or_default o.max_subscribers_per_operation 8;
  max_subscribers = or_default o.max_subscribers 128;
}

abbrev pub completion_reserve_bytes : ℕ
completion_reserve_bytes = 16384

abbrev pub critical_queue_reserve : ℕ
critical_queue_reserve = 1

-- A subscription and its channel: what is queued, the capacity, and whether it is closed.
pub record Subscription : Type 0 where
  pub key : ℕ
  pub queue : List RetainedEvent
  pub capacity : ℕ
  pub closed : Bool
  pub attached : Bool
  pub counted : Bool
  pub once_done : Bool

-- A prompt, with the number that stands for its pointer.
pub record PromptState : Type 0 where
  pub ref : ℕ
  pub id : Text
  pub responded : Bool

pub record Entry : Type 0 where
  pub ref : ℕ
  pub id : Text
  pub request_digest : Text
  pub canceled : Bool
  pub validator : OperationStreamValidator
  pub events : List RetainedEvent
  pub event_bytes : ℕ
  pub terminal : Bool
  pub completed_at : ℕ
  pub prompt : Option PromptState
  -- the prompts made so far, and what their channels were sent
  pub prompts : ℕ
  pub answers : List (ℕ × OperationResponse)
  pub subscriptions : List Subscription
  pub subscriber_count : ℕ
  -- the token of the running timer, and the last one given out
  pub loss_timer : Option ℕ
  pub loss_timer_token : ℕ
  pub reservation : Option ℕ
  pub worker_active : Bool
  pub listed : Bool

pub record Hub : Type 0 where
  pub options : Options
  pub entries : List Entry
  pub active : ℕ
  pub subscribers : ℕ
  pub draining : Bool
  pub drain_deadline : ℕ
  -- the pointers given out
  pub refs : ℕ
  pub keys : ℕ

unfoldable pub new_hub : Options → Hub
unfolding with_defaults
new_hub o = record {
  options = with_defaults o;
  entries = [];
  active = 0;
  subscribers = 0;
  draining = false;
  drain_deadline = 0;
  refs = 0;
  keys = 0;
}
