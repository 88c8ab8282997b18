-- ===== src/Daemon/OperationHub/Events/Prompts.antt =====
-- What the steps on an entry's events leave of its prompt.
use kwt.Common.{
  ℕ, ◌+◌, ◌≡◌, ◌∙◌, ◌⊎◌, inl, inr, refl, none, [], ◌∷◌, ◌++◌, map, ltb, length, arith, Result, ok,
  err, if-elim,
}
use kwt.Service.Operation.{OperationEvent, OperationStreamValidator, StreamError, accept}
use kwt.Daemon.OperationEvent.{
  Codec, RetainedEvent, EncodeError, too_large, invalid, encode_retained,
}
use kwt.Daemon.OperationHub.Types.{Options, Entry}
use kwt.Daemon.OperationHub.Events.{
  schedule_subscriber_loss, dispatch, dispatch_to, mark_terminal, store, stored_if, encoded_if,
  terminate_capacity, failed_event, capacity_failure, append_accepted, append_encoded, append_event,
  stamped, nonterminal_byte_limit,
}

-- The prompt is the same, or taken away.
abbrev pub KeepsPrompt : Entry → Entry → Type 0
KeepsPrompt e f =
    (f.prompts ≡ e.prompts) × (f.answers ≡ e.answers) × ((f.prompt ≡ e.prompt) ⊎ (f.prompt ≡ none))

pub KeepsPrompt_trans : (e f g : Entry) → KeepsPrompt e f → KeepsPrompt f g → KeepsPrompt e g
KeepsPrompt_trans e f g (n, a, inr gone) (m, b, inl same) = (m ∙ n, b ∙ a, inr (same ∙ gone))
KeepsPrompt_trans e f g (n, a, inl here) (m, b, inl same) = (m ∙ n, b ∙ a, inl (same ∙ here))
KeepsPrompt_trans e f g (n, a, p) (m, b, inr gone) = (m ∙ n, b ∙ a, inr gone)

pub schedule_subscriber_loss-KeepsPrompt : (e : Entry) → KeepsPrompt e (schedule_subscriber_loss e)
unfolding schedule_subscriber_loss
schedule_subscriber_loss-KeepsPrompt e = ground arith

pub mark_terminal-KeepsPrompt : (now : ℕ) (e : Entry) → KeepsPrompt e (mark_terminal now e)
unfolding mark_terminal
mark_terminal-KeepsPrompt now e = ground arith

store-KeepsPrompt :
    (e : Entry) (v : OperationStreamValidator) (r : RetainedEvent) → KeepsPrompt e (store e v r)
unfolding store dispatch
store-KeepsPrompt e v r = schedule_subscriber_loss-KeepsPrompt (record e {
  validator = v;
  events = e.events ++ r ∷ [];
  event_bytes = e.event_bytes + length r.encoded;
  subscriptions = map (dispatch_to r) e.subscriptions;
})

stored_if-KeepsPrompt :
    (e : Entry) (r : RetainedEvent) (x : Result StreamError OperationStreamValidator)
    → KeepsPrompt e (stored_if e r x)
unfolding stored_if
stored_if-KeepsPrompt e r (ok v) = store-KeepsPrompt e v r
stored_if-KeepsPrompt e r (err f) = (refl, refl, inl refl)

encoded_if-KeepsPrompt :
    (o : Options) (e : Entry) (event : OperationEvent) (x : Result EncodeError RetainedEvent)
    → KeepsPrompt e (encoded_if o e event x)
unfolding encoded_if
encoded_if-KeepsPrompt o e event (err f) = (refl, refl, inl refl)
encoded_if-KeepsPrompt o e event (ok r) =
    if-elim (KeepsPrompt e) (ltb (length e.events) o.max_events)
      (stored_if e r (accept e.validator event)) e
      (λ _. stored_if-KeepsPrompt e r (accept e.validator event)) (λ _. (refl, refl, inl refl))

pub terminate_capacity-KeepsPrompt :
    (c : Codec) (o : Options) (now : ℕ) (e : Entry) → KeepsPrompt e (terminate_capacity c o now e)
unfolding terminate_capacity
terminate_capacity-KeepsPrompt c o now e =
    let event : OperationEvent = failed_event e capacity_failure in
    let ended : Entry = encoded_if o e event (encode_retained c event o.max_bytes e.event_bytes) in
    if-elim (KeepsPrompt e) e.terminal e (mark_terminal now ended) (λ _. (refl, refl, inl refl))
      (λ _.
        KeepsPrompt_trans e ended (mark_terminal now ended)
          (encoded_if-KeepsPrompt o e event (encode_retained c event o.max_bytes e.event_bytes))
          (mark_terminal-KeepsPrompt now ended))

append_accepted-KeepsPrompt :
    (e : Entry) (r : RetainedEvent) (x : Result StreamError OperationStreamValidator)
    → KeepsPrompt e (append_accepted e r x).entry
unfolding append_accepted
append_accepted-KeepsPrompt e r (ok v) = store-KeepsPrompt e v r
append_accepted-KeepsPrompt e r (err f) = (refl, refl, inl refl)

append_encoded-KeepsPrompt :
    (c : Codec) (o : Options) (now : ℕ) (e : Entry) (event : OperationEvent)
    (x : Result EncodeError RetainedEvent)
    → KeepsPrompt e (append_encoded c o now e event x).entry
unfolding append_encoded
append_encoded-KeepsPrompt c o now e event (err too_large) =
    terminate_capacity-KeepsPrompt c o now e
append_encoded-KeepsPrompt c o now e event (err invalid) = (refl, refl, inl refl)
append_encoded-KeepsPrompt c o now e event (ok r) =
    append_accepted-KeepsPrompt e r (accept e.validator event)

pub append_event-KeepsPrompt :
    (c : Codec) (o : Options) (now : ℕ) (e : Entry) (event : OperationEvent)
    → KeepsPrompt e (append_event c o now e event).entry
unfolding append_event
append_event-KeepsPrompt c o now e event = ground (
  arith,
  terminate_capacity-KeepsPrompt c o now e,
  append_encoded-KeepsPrompt c o now e (stamped e event)
      (encode_retained c (stamped e event) o.max_bytes e.event_bytes),
  append_encoded-KeepsPrompt c o now e (stamped e event)
      (encode_retained c (stamped e event) (nonterminal_byte_limit o) e.event_bytes),
)
