-- ===== src/Daemon/OperationHub/Entries/Finish.antt =====
-- The end of an operation: its completion, and the entries whose stream has one.
use kwt.Common.{
  ℕ, ◌+◌, ◌^◌, ◌<◌, ◌≤◌, ◌≡◌, ◌∙◌, refl, sym, ap, subst, true, false, Option, none, some, [], ◌∷◌,
  ◌++◌, Text, codes, length, arith, Result, ok, err, Bool-cases, inl, inr,
}
use kwt.Service.{Error}
use kwt.Service.Operation.{
  OperationEvent, complete, is_complete, OperationStreamValidator, accept, max_message_bytes,
  uint64,
}
use kwt.Service.Operation.Shape.{HasPayload, of_result, of_failure}
use kwt.Service.Operation.Stream.{accept_complete}
use kwt.Daemon.Problem.{Clock, operation_failure}
use kwt.Daemon.OperationEvent.{Codec, RetainedEvent, encode_retained}
use kwt.Daemon.OperationHub.Types.{Options, Entry}
use kwt.Daemon.OperationHub.Events.{append_event, mark_terminal, store}
use kwt.Daemon.OperationHub.Events.Streams.{IsStreamed}
use kwt.Daemon.OperationHub.Events.Completion.{
  append_event-completion, store-stored, mark_terminal-terminal, mark_terminal-events, IsEnded,
}
use kwt.Daemon.OperationHub.Entries.{fall_back, outcome_event, finish_entry}

-- The event that a worker's return leads to, as the hub numbers it.
abbrev pub completion_of : Clock → Entry → Result Error (Option Text) → OperationEvent
completion_of k e returned = record (outcome_event k returned) {
  operation_id = e.id;
  sequence = uint64 (length e.events + 1);
}

outcome_event-HasPayload :
    (k : Clock) (e : Entry) (returned : Result Error (Option Text))
    → (HasPayload (completion_of k e returned) complete)
      × ((outcome_event k returned).kind ≡ complete)
      × ((outcome_event k returned).message ≡ [])
unfolding outcome_event
outcome_event-HasPayload k e (ok none) = (of_result (codes "{}") refl refl refl, refl, refl)
outcome_event-HasPayload k e (ok (some r)) = (of_result r refl refl refl, refl, refl)
outcome_event-HasPayload k e (err f) =
    (of_failure (operation_failure k f) refl refl refl, refl, refl)

accepts_completion :
    (k : Clock) (o : Options) (e : Entry) (returned : Result Error (Option Text))
    → o.max_events < 2 ^ 64
    → IsStreamed o e
    → e.validator.terminal ≡ false
    → (v : OperationStreamValidator) × (accept e.validator (completion_of k e returned) ≡ ok v)
accepts_completion k o e returned bounded w open_stream =
    let (payload, kind, message) = outcome_event-HasPayload k e returned in
    let event = completion_of k e returned in
    let short : length event.message ≤ max_message_bytes = rw message (omega arith) in
    let shaped : HasPayload event event.kind = subst (HasPayload event) (sym kind) payload in
    (
      _,
      accept_complete e.validator event open_stream (sym w.id)
          (ap (λ n. uint64 (n + 1)) (sym w.sequence)) short shaped,
    )

finish_entry-first :
    (c : Codec) (k : Clock) (o : Options) (now : ℕ) (returned : Result Error (Option Text))
    (e f : Entry)
    → e.terminal ≡ false
    → append_event c o now e (outcome_event k returned) ≡ record { entry = f; failure = none }
    → finish_entry c k o now returned e ≡ mark_terminal now f
unfolding finish_entry fall_back
finish_entry-first c k o now returned e f still_open h = ground arith

pub finish_entry-terminal :
    (c : Codec) (k : Clock) (o : Options) (now : ℕ) (returned : Result Error (Option Text))
    (e : Entry)
    → (finish_entry c k o now returned e).terminal ≡ true
unfolding finish_entry
finish_entry-terminal c k o now returned e =
    let first = append_event c o now e (outcome_event k returned) in
    ground (arith, mark_terminal-terminal now (fall_back c k o now first.entry first.failure))

-- When the worker of an open operation returns and the completion that its result or failure leads
-- to is encoded within the byte limit, the operation becomes terminal and exactly this completion is
-- added to its events: neither the event limit nor the validator stands in the way.
pub finish_entry-completion :
    (c : Codec) (k : Clock) (o : Options) (now : ℕ) (returned : Result Error (Option Text))
    (e : Entry) (r : RetainedEvent)
    → o.max_events < 2 ^ 64
    → IsStreamed o e
    → IsEnded e
    → e.terminal ≡ false
    → encode_retained c (completion_of k e returned) o.max_bytes e.event_bytes ≡ ok r
    → ((finish_entry c k o now returned e).terminal ≡ true)
      × ((finish_entry c k o now returned e).events ≡ e.events ++ r ∷ [])
finish_entry-completion c k o now returned e r bounded w ended still_open h =
    let open_stream : e.validator.terminal ≡ false = elim (Bool-cases e.validator.terminal) [
      | inl t ↦ absurd (cc (ended t, still_open))
      | inr f ↦ f
    ] in
    let (payload, kind, message) = outcome_event-HasPayload k e returned in
    let (v, accepted) = accepts_completion k o e returned bounded w open_stream in
    let added =
      append_event-completion c o now e (outcome_event k returned) r v (ap is_complete kind)
        (w.room open_stream).0 h accepted in
    let first = finish_entry-first c k o now returned e (store e v r) still_open added in
    (
      finish_entry-terminal c k o now returned e,
      ap (λ f. f.events) first ∙ mark_terminal-events now (store e v r) ∙ (store-stored e v r).0,
    )
