-- ===== src/Daemon/OperationHub/Events/Completion.antt =====
-- A completion that fits, and what every other event leaves of the validator.
use kwt.Common.{
  ℕ, ◌-◌, ◌<◌, ◌≡◌, refl, true, false, none, [], ◌∷◌, ◌++◌, leb, length, arith, Result, ok, err,
  if-elim, Bool-cases, inl, inr,
}
use kwt.Service.Operation.{
  OperationEvent, is_complete, OperationStreamValidator, StreamError, accept,
}
use kwt.Service.Operation.Stream.{accept_sound}
use kwt.Daemon.OperationEvent.{
  Codec, RetainedEvent, EncodeError, too_large, invalid, encode_retained,
}
use kwt.Daemon.OperationHub.Types.{Options, Entry}
use kwt.Daemon.OperationHub.Events.{
  schedule_subscriber_loss, dispatch, mark_terminal, store, terminate_capacity, Appended,
  append_accepted, append_encoded, append_event, stamped, nonterminal_byte_limit, encoded_if,
  failed_event, capacity_failure,
}

pub append_event-completion :
    (c : Codec) (o : Options) (now : ℕ) (e : Entry) (event : OperationEvent) (r : RetainedEvent)
    (v : OperationStreamValidator)
    → is_complete event.kind ≡ true
    → length e.events < o.max_events
    → encode_retained c (stamped e event) o.max_bytes e.event_bytes ≡ ok r
    → accept e.validator (stamped e event) ≡ ok v
    → append_event c o now e event ≡ record { entry = store e v r; failure = none }
unfolding append_event append_encoded append_accepted
append_event-completion c o now e event r v done slots h a = ground arith

pub store-stored :
    (e : Entry) (v : OperationStreamValidator) (r : RetainedEvent)
    → ((store e v r).events ≡ e.events ++ r ∷ [])
      × ((store e v r).terminal ≡ e.terminal)
      × ((store e v r).validator ≡ v)
unfolding store dispatch schedule_subscriber_loss
store-stored e v r = ground arith

pub mark_terminal-terminal : (now : ℕ) (e : Entry) → (mark_terminal now e).terminal ≡ true
unfolding mark_terminal
mark_terminal-terminal now e = ground arith

pub mark_terminal-events : (now : ℕ) (e : Entry) → (mark_terminal now e).events ≡ e.events
unfolding mark_terminal
mark_terminal-events now e = ground arith

-- A stream that has its completion belongs to a terminal entry.
abbrev pub IsEnded : Entry → Type 0
IsEnded e = e.validator.terminal ≡ true → e.terminal ≡ true

pub terminate_capacity-terminal :
    (c : Codec) (o : Options) (now : ℕ) (e : Entry) → (terminate_capacity c o now e).terminal ≡ true
unfolding terminate_capacity
terminate_capacity-terminal c o now e = elim (Bool-cases e.terminal) [
  | inl t ↦ ground arith
  | inr f ↦ ground (
    arith,
    mark_terminal-terminal now (
        encoded_if o e (failed_event e capacity_failure)
          (encode_retained c (failed_event e capacity_failure) o.max_bytes e.event_bytes)),
  )
]

module _ (c : Codec) (o : Options) where
  append_accepted-IsEnded :
      (e : Entry) (event : OperationEvent) (r : RetainedEvent)
      (x : Result StreamError OperationStreamValidator)
      → is_complete event.kind ≡ false
      → accept e.validator event ≡ x
      → IsEnded e
      → IsEnded (append_accepted e r x).entry
  unfolding append_accepted
  append_accepted-IsEnded e event r (err f) open_kind a w t = w t
  append_accepted-IsEnded e event r (ok v) open_kind a w t =
      let (s, i, q, m, p, j, n, u) = accept_sound e.validator v event a in
      let (events, terminal, validator) = store-stored e v r in
      absurd (cc (validator, t, u, open_kind))

  append_encoded-IsEnded :
      (now : ℕ) (e : Entry) (event : OperationEvent) (x : Result EncodeError RetainedEvent)
      → is_complete event.kind ≡ false
      → IsEnded e
      → IsEnded (append_encoded c o now e event x).entry
  unfolding append_encoded
  append_encoded-IsEnded now e event (err too_large) open_kind w t =
      terminate_capacity-terminal c o now e
  append_encoded-IsEnded now e event (err invalid) open_kind w t = w t
  append_encoded-IsEnded now e event (ok r) open_kind w t =
      append_accepted-IsEnded e event r (accept e.validator event) open_kind refl w t

  pub append_event-IsEnded :
      (now : ℕ) (e : Entry) (event : OperationEvent)
      → is_complete event.kind ≡ false
      → IsEnded e
      → IsEnded (append_event c o now e event).entry
  unfolding append_event
  append_event-IsEnded now e event open_kind w = rw open_kind (
      if-elim {A = Appended} (λ a. IsEnded a.entry) (leb (o.max_events - 1) (length e.events)) _
        (append_encoded c o now e (stamped e event)
          (encode_retained c (stamped e event) (nonterminal_byte_limit o) e.event_bytes))
        (λ _ _. terminate_capacity-terminal c o now e)
        (λ _. append_encoded-IsEnded now e (stamped e event) _ open_kind w))

pub schedule_subscriber_loss-end :
    (e : Entry)
    → ((schedule_subscriber_loss e).validator ≡ e.validator)
      × ((schedule_subscriber_loss e).terminal ≡ e.terminal)
unfolding schedule_subscriber_loss
schedule_subscriber_loss-end e = ground arith
