-- ===== src/Daemon/OperationHub/Examples.antt =====
-- A hub at work, and an operation that ends.
use kwt.Common.{
  ℕ, ◌+◌, ◌<◌, ◌≤◌, ◌≡◌, ◌⊎◌, refl, true, false, none, some, List, [], ◌∷◌, Text, codes, drop,
  length, All, arith, Result, ok, err, inr, ◌=?◌,
}
use kwt.Service.{Error, plain}
use kwt.Service.Operation.{OperationEventKind, OperationPrompt, absent, progress, complete}
use kwt.Daemon.Problem.{Clock}
use kwt.Daemon.OperationEvent.{Codec, RetainedEvent, encode_retained, payload_fits}
use kwt.Daemon.OperationEvent.Strings.{consume_bytes, consume_string}
use kwt.Daemon.OperationHub.Types.{Options, Subscription, Entry, Hub, new_hub, with_defaults}
use kwt.Daemon.OperationHub.Events.Streams.{IsStreamed}
use kwt.Daemon.OperationHub.Events.Completion.{IsEnded}
use kwt.Daemon.OperationHub.Events.{nonterminal_byte_limit}
use kwt.Daemon.OperationHub.Entries.{
  finish_entry, outcome_event, subscribe_to, last_sequence, replay,
}
use kwt.Daemon.OperationHub.Entries.Finish.{completion_of, finish_entry-completion}
use kwt.Daemon.OperationHub.Entries.Replay.{subscribe_to-drop}
use kwt.Daemon.OperationHub.Store.{
  prune, prune_completed, prune_completed_loop, prune_expired, find_entry, completed_count,
  find_oldest, prune_oldest, unlist,
}
use kwt.Daemon.OperationHub.Starts.{
  OperationStart, start, start_loop, with_id, existing_or_new, valid_operation_id,
}
use kwt.Daemon.OperationHub.{asks, stops_asking, responds, receives}
use kwt.Daemon.OperationHub.{Call, starts, reports, finishes, releases, subscribes, closes, run}
use kwt.Daemon.OperationHub.Streams.{run-new_hub-All-IsStreamed, run-new_hub-All-IsEnded}
use kwt.Daemon.OperationHub.Entries.Answers.{IsAnswered}
use kwt.Daemon.OperationHub.Responses.{run-new_hub-All-IsAnswered}
use kwt.Daemon.OperationHub.Starts.Draining.{operations, IsExisting, start-draining}
use kwt.Daemon.OperationHub.Store.Pruning.{IsWorking, prune_completed-bounded}

abbrev codec : Codec
codec = record {
  json_valid = λ s. true;
  marshal = λ e. some (codes "{}");
  code_text = λ d. codes "code";
}

abbrev clock : Clock
clock = record { format_time = λ t. codes "now"; is_time = λ s. true }

abbrev given : Options
given = record {
  max_events = 4;
  max_bytes = 1000;
  max_active = 2;
  max_completed = 1;
  completed_retention = 0;
  subscriber_grace = 0;
  subscriber_queue = 2;
  max_subscribers_per_operation = 2;
  max_subscribers = 3;
}

abbrev request : OperationStart
request = record { id = codes "op-1"; request_digest = codes "digest"; has_run = true }

abbrev no_ids : ℕ → Result Error Text
no_ids n = err (plain (codes "no id"))

abbrev calls : List Call
calls =
    starts 1 request no_ids none
    ∷ subscribes 2 (codes "op-1") 0
    ∷ reports 3 0 false (codes "half way")
    ∷ receives 0 0
    ∷ finishes 4 0 (ok none)
    ∷ closes 0 0
    ∷ releases 5 0
    ∷ []

run-new_hub-All-IsStreamed_example :
    All (IsStreamed (with_defaults given)) (run codec clock (new_hub given) calls).entries
run-new_hub-All-IsStreamed_example =
    run-new_hub-All-IsStreamed codec clock given calls (unfold with_defaults in omega arith)

run-new_hub-All-IsEnded_example : All IsEnded (run codec clock (new_hub given) calls).entries
run-new_hub-All-IsEnded_example = run-new_hub-All-IsEnded codec clock given calls

abbrev question : OperationPrompt
question = record {
  id = [];
  kind = codes "confirm";
  message = codes "go on";
  sensitive = false;
  deadline = none;
  details = absent;
}

abbrev asking : List Call
asking =
    starts 1 request no_ids none
    ∷ asks 2 0 (ok (codes "p")) question
    ∷ responds (codes "op-1") (record { prompt_id = codes "p"; value = codes "yes" })
    ∷ responds (codes "op-1") (record { prompt_id = codes "p"; value = codes "no" })
    ∷ stops_asking 0 0
    ∷ []

run-new_hub-All-IsAnswered_example : All IsAnswered (run codec clock (new_hub given) asking).entries
run-new_hub-All-IsAnswered_example = run-new_hub-All-IsAnswered codec clock given asking

abbrev retained : ℕ → OperationEventKind → RetainedEvent
retained sequence kind = record { sequence = sequence; kind = kind; encoded = codes "{}" }

-- An operation that has reported once.
abbrev reporting : Entry
reporting = record {
  ref = 0;
  id = codes "op-1";
  request_digest = codes "digest";
  canceled = false;
  validator = record { operation_id = codes "op-1"; sequence = 1; terminal = false };
  events = retained 1 progress ∷ [];
  event_bytes = 2;
  terminal = false;
  completed_at = 0;
  prompt = none;
  prompts = 0;
  answers = [];
  subscriptions = [];
  subscriber_count = 0;
  loss_timer = some 1;
  loss_timer_token = 1;
  reservation = none;
  worker_active = true;
  listed = true;
}

reporting-IsStreamed : IsStreamed given reporting
unfolding nonterminal_byte_limit
reporting-IsStreamed = record {
  numbered = (refl, tt);
  bytes = refl;
  within_events = omega arith;
  within_bytes = omega arith;
  completes = inr (refl, refl);
  sequence = refl;
  id = refl;
  room = λ h. (omega arith, omega arith);
}

completion_fits :
    encode_retained codec (completion_of clock reporting (ok none)) 1000 2
    ≡ ok (retained 2 complete)
unfolding encode_retained payload_fits consume_string consume_bytes outcome_event
completion_fits = refl

finish_entry-completion_example :
    ((finish_entry codec clock given 9 (ok none) reporting).terminal ≡ true)
    × ((finish_entry codec clock given 9 (ok none) reporting).events
        ≡ retained 1 progress ∷ retained 2 complete ∷ [])
finish_entry-completion_example =
    finish_entry-completion codec clock given 9 (ok none) reporting (retained 2 complete)
      (omega arith) reporting-IsStreamed (λ h. absurd (cc h)) refl completion_fits

abbrev subscribed : Entry
subscribed = record reporting {
  loss_timer = none;
  subscriptions =
      record {
        key = 7;
        queue = retained 1 progress ∷ [];
        capacity = 4;
        closed = false;
        attached = true;
        counted = true;
        once_done = false;
      }
      ∷ [];
  subscriber_count = 1;
}

subscribes_test : subscribe_to given 2 7 0 reporting ≡ ok subscribed
unfolding subscribe_to last_sequence replay
subscribes_test = refl

subscribe_to-drop_example :
    (s : Subscription) × (subscribed.subscriptions ≡ s ∷ [])
    × (s.queue ≡ drop 0 reporting.events)
    × (s.capacity ≡ length (drop 0 reporting.events) + 2 + 1)
    × (s.closed ≡ false)
    × (subscribed.events ≡ reporting.events)
    × (0 ≤ last_sequence reporting.events)
    × (reporting.subscriber_count < 2)
    × (2 < 3)
subscribe_to-drop_example =
    subscribe_to-drop given 2 7 0 reporting subscribed reporting-IsStreamed subscribes_test

abbrev draining_hub : Hub
draining_hub = record {
  options = given;
  entries = reporting ∷ [];
  active = 1;
  subscribers = 0;
  draining = true;
  drain_deadline = 50;
  refs = 1;
  keys = 0;
}

resumes_test : (start 9 draining_hub request no_ids none).outcome ≡ ok (0, false)
unfolding start start_loop with_id existing_or_new prune prune_completed prune_completed_loop
    prune_expired find_entry valid_operation_id completed_count ◌=?◌
resumes_test = refl

start-draining_example :
    (operations (start 9 draining_hub request no_ids none).hub ≡ operations draining_hub)
    × IsExisting request
        (start 9 draining_hub request no_ids none).hub
        (start 9 draining_hub request no_ids none).outcome
start-draining_example = start-draining 9 draining_hub request no_ids none refl

abbrev finished : ℕ → Text → Entry
finished at id = record reporting {
  id = id;
  terminal = true;
  completed_at = at;
  worker_active = false;
}

abbrev full_hub : Hub
full_hub = record draining_hub {
  entries = finished 8 (codes "b") ∷ finished 6 (codes "a") ∷ reporting ∷ [];
}

oldest_goes :
    (prune_completed full_hub).entries
    ≡ finished 8 (codes "b") ∷ record (finished 6 (codes "a")) { listed = false } ∷ reporting ∷ []
unfolding prune_completed prune_completed_loop prune_oldest unlist find_oldest completed_count ◌=?◌
oldest_goes = refl

prune_completed-bounded_example :
    (completed_count (prune_completed full_hub).entries ≤ 1)
    ⊎ All IsWorking (prune_completed full_hub).entries
prune_completed-bounded_example = prune_completed-bounded full_hub
