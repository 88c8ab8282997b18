-- ===== src/Daemon/OperationHub/Events/Streams.antt =====
-- The streams of the hub's entries: what every step on an entry keeps.
use kwt.Common.{
  ℕ, ◌+◌, ◌-◌, ◌^◌, ◌≤◌, ◌<◌, ◌≡◌, refl, sym, ◌∙◌, ap, subst, ◌⊎◌, inl, inr, Bool, true, false,
  List, [], ◌∷◌, ◌++◌, map, ltb, leb, length, arith, Result, ok, err, length-append, Bool-cases,
  if-elim,
}
use kwt.Service.Operation.{
  OperationEvent, is_complete, OperationStreamValidator, StreamError, accept,
}
use kwt.Service.Operation.Stream.{accept_sound}
use kwt.Daemon.OperationEvent.{
  Codec, RetainedEvent, EncodeError, too_large, invalid, encode_retained,
}
use kwt.Daemon.OperationEvent.Bounds.{encode_retained-ok}
use kwt.Daemon.OperationHub.Types.{Options, Entry}
use kwt.Daemon.OperationHub.Events.{
  schedule_subscriber_loss, dispatch, dispatch_to, mark_terminal, nonterminal_byte_limit, store,
  stored_if, encoded_if, terminate_capacity, failed_event, capacity_failure, append_accepted,
  append_encoded, append_event, stamped,
}

-- The events are numbered one after another.
abbrev pub IsNumbered : ℕ → List RetainedEvent → Type 0
IsNumbered n [] = Unit {0}
IsNumbered n (r ∷ rs) = (r.sequence ≡ n) × IsNumbered (n + 1) rs

abbrev pub total_bytes : List RetainedEvent → ℕ
total_bytes [] = 0
total_bytes (r ∷ rs) = length r.encoded + total_bytes rs

-- A completion is there if the flag says so, and then it is the last event and the only completion.
abbrev pub CompletesLast : Bool → List RetainedEvent → Type 0
CompletesLast b [] = b ≡ false
CompletesLast b (r ∷ rs) =
    ((is_complete r.kind ≡ true) × (rs ≡ []) × (b ≡ true))
    ⊎ ((is_complete r.kind ≡ false) × CompletesLast b rs)

pub record IsStreamed (o : Options) (e : Entry) : Type 0 where
  pub numbered : IsNumbered 1 e.events
  pub bytes : e.event_bytes ≡ total_bytes e.events
  pub within_events : length e.events ≤ o.max_events
  pub within_bytes : e.event_bytes ≤ o.max_bytes
  pub completes : CompletesLast e.validator.terminal e.events
  pub sequence : e.validator.sequence ≡ length e.events
  pub id : e.validator.operation_id ≡ e.id
  -- room for a completion while there is none
  pub room :
      e.validator.terminal ≡ false
      → (length e.events < o.max_events) × (e.event_bytes ≤ nonterminal_byte_limit o)

IsNumbered-append :
    (rs : List RetainedEvent) (r : RetainedEvent) (n : ℕ)
    → IsNumbered n rs
    → r.sequence ≡ n + length rs
    → IsNumbered n (rs ++ r ∷ [])
IsNumbered-append [] r n h s = (omega arith, tt)
IsNumbered-append (q ∷ rs) r n (h, hs) s = (h, IsNumbered-append rs r (n + 1) hs (omega arith))

total_bytes-append :
    (rs : List RetainedEvent) (r : RetainedEvent)
    → total_bytes (rs ++ r ∷ []) ≡ total_bytes rs + length r.encoded
total_bytes-append [] r = omega arith
total_bytes-append (q ∷ rs) r = omega (arith, total_bytes-append rs r)

CompletesLast-append :
    (rs : List RetainedEvent) (r : RetainedEvent)
    → CompletesLast false rs
    → CompletesLast (is_complete r.kind) (rs ++ r ∷ [])
CompletesLast-append [] r h = elim (Bool-cases (is_complete r.kind)) [
  | inl e ↦ inl (e, refl, e)
  | inr e ↦ inr (e, e)
]
CompletesLast-append (q ∷ rs) r (inl (e, f, g)) = absurd (cc g)
CompletesLast-append (q ∷ rs) r (inr (e, h)) = inr (e, CompletesLast-append rs r h)

-- The fields of the stream are the same.
pub record SameStream (e f : Entry) : Type 0 where
  pub id : f.id ≡ e.id
  pub events : f.events ≡ e.events
  pub event_bytes : f.event_bytes ≡ e.event_bytes
  pub validator : f.validator ≡ e.validator

pub SameStream-IsStreamed :
    (o : Options) (e f : Entry) → SameStream e f → IsStreamed o e → IsStreamed o f
SameStream-IsStreamed o e f s v = record {
  numbered = subst (IsNumbered 1) (sym s.events) v.numbered;
  bytes = s.event_bytes ∙ v.bytes ∙ sym (ap total_bytes s.events);
  within_events = subst (λ rs. length rs ≤ o.max_events) (sym s.events) v.within_events;
  within_bytes = subst (λ n. n ≤ o.max_bytes) (sym s.event_bytes) v.within_bytes;
  completes =
      subst (λ rs. CompletesLast f.validator.terminal rs) (sym s.events)
        (subst (λ w. CompletesLast w.terminal e.events) (sym s.validator) v.completes);
  sequence = ap (λ w. w.sequence) s.validator ∙ v.sequence ∙ sym (ap length s.events);
  id = ap (λ w. w.operation_id) s.validator ∙ v.id ∙ sym s.id;
  room = λ h.
      subst (λ rs. (length rs < o.max_events) × (f.event_bytes ≤ nonterminal_byte_limit o))
        (sym s.events)
        (subst (λ n. (length e.events < o.max_events) × (n ≤ nonterminal_byte_limit o))
          (sym s.event_bytes) (v.room (sym (ap (λ w. w.terminal) s.validator) ∙ h)));
}

pub schedule_subscriber_loss-SameStream : (e : Entry) → SameStream e (schedule_subscriber_loss e)
unfolding schedule_subscriber_loss
schedule_subscriber_loss-SameStream e = record {
  id = ground arith;
  events = ground arith;
  event_bytes = ground arith;
  validator = ground arith;
}

dispatch-SameStream : (e : Entry) (r : RetainedEvent) → SameStream e (dispatch e r)
unfolding dispatch
dispatch-SameStream e r =
    let s =
      schedule_subscriber_loss-SameStream
        (record e { subscriptions = map (dispatch_to r) e.subscriptions }) in
    record { id = s.id; events = s.events; event_bytes = s.event_bytes; validator = s.validator }

pub mark_terminal-SameStream : (now : ℕ) (e : Entry) → SameStream e (mark_terminal now e)
unfolding mark_terminal
mark_terminal-SameStream now e = record {
  id = ground arith;
  events = ground arith;
  event_bytes = ground arith;
  validator = ground arith;
}

-- One event more, encoded within the byte limit that holds for its kind and accepted.
store-IsStreamed :
    (o : Options) (e : Entry) (event : OperationEvent) (r : RetainedEvent)
    (v : OperationStreamValidator)
    → IsStreamed o e
    → length e.events + 1 < 2 ^ 64
    → accept e.validator event ≡ ok v
    → r.sequence ≡ event.sequence
    → r.kind ≡ event.kind
    → length e.events + 1 ≤ o.max_events
    → e.event_bytes + length r.encoded ≤ o.max_bytes
    → (is_complete event.kind ≡ false
        → (length e.events + 1 < o.max_events)
          × (e.event_bytes + length r.encoded ≤ nonterminal_byte_limit o))
    → IsStreamed o (store e v r)
unfolding store
store-IsStreamed o e event r v w small a q k slots fits room =
    let (open_before, i, s, m, p, j, t, u) = accept_sound e.validator v event a in
    let kinds : v.terminal ≡ is_complete r.kind = u ∙ ap is_complete (sym k) in
    let next : event.sequence ≡ length e.events + 1 = omega (arith, s, w.sequence, small) in
    let stored : Entry = record e {
      validator = v;
      events = e.events ++ r ∷ [];
      event_bytes = e.event_bytes + length r.encoded;
    } in
    SameStream-IsStreamed o stored (dispatch stored r) (dispatch-SameStream stored r) (record {
      numbered = IsNumbered-append e.events r 1 w.numbered (omega (arith, q, next));
      bytes = omega (arith, total_bytes-append e.events r, w.bytes);
      within_events = omega (arith, length-append e.events (r ∷ []));
      within_bytes = fits;
      completes =
          subst (λ b. CompletesLast b (e.events ++ r ∷ [])) (sym kinds)
            (CompletesLast-append e.events r
              (subst (λ b. CompletesLast b e.events) open_before w.completes));
      sequence = omega (arith, t, next, length-append e.events (r ∷ []));
      id = j ∙ w.id;
      room = λ h.
          let (slots_left, bytes_left) = room (sym u ∙ h) in
          (omega (arith, slots_left, length-append e.events (r ∷ [])), bytes_left);
    })

module _ (c : Codec) (o : Options) (bounded : o.max_events < 2 ^ 64) where
  stored_if-IsStreamed :
      (e : Entry) (event : OperationEvent) (r : RetainedEvent)
      (x : Result StreamError OperationStreamValidator)
      → IsStreamed o e
      → is_complete event.kind ≡ true
      → encode_retained c event o.max_bytes e.event_bytes ≡ ok r
      → length e.events < o.max_events
      → accept e.validator event ≡ x
      → IsStreamed o (stored_if e r x)
  unfolding stored_if
  stored_if-IsStreamed e event r (err f) w done h slots a = w
  stored_if-IsStreamed e event r (ok v) w done h slots a =
      let (q, k, fits) = encode_retained-ok c event o.max_bytes e.event_bytes r h in
      store-IsStreamed o e event r v w (omega arith) a q k (omega arith) fits
        (λ not_done. absurd (cc (done, not_done)))

  encoded_if-IsStreamed :
      (e : Entry) (event : OperationEvent) (x : Result EncodeError RetainedEvent)
      → IsStreamed o e
      → is_complete event.kind ≡ true
      → encode_retained c event o.max_bytes e.event_bytes ≡ x
      → IsStreamed o (encoded_if o e event x)
  unfolding encoded_if
  encoded_if-IsStreamed e event (err f) w done h = w
  encoded_if-IsStreamed e event (ok r) w done h =
      elim (Bool-cases (ltb (length e.events) o.max_events)) [
        | inl slots ↦
            rw slots (
              stored_if-IsStreamed e event r (accept e.validator event) w done h (ground arith)
                refl)
        | inr full ↦ rw full w
      ]

  pub terminate_capacity-IsStreamed :
      (now : ℕ) (e : Entry) → IsStreamed o e → IsStreamed o (terminate_capacity c o now e)
  unfolding terminate_capacity
  terminate_capacity-IsStreamed now e w =
      let event = failed_event e capacity_failure in
      let ended = encoded_if o e event (encode_retained c event o.max_bytes e.event_bytes) in
      if-elim (IsStreamed o) e.terminal _ _ (λ _. w)
        (λ _.
          SameStream-IsStreamed o ended (mark_terminal now ended)
            (mark_terminal-SameStream now ended) (encoded_if-IsStreamed e event _ w refl refl))

  append_accepted-IsStreamed :
      (e : Entry) (event : OperationEvent) (r : RetainedEvent) (limit : ℕ)
      (x : Result StreamError OperationStreamValidator)
      → IsStreamed o e
      → encode_retained c event limit e.event_bytes ≡ ok r
      → limit ≤ o.max_bytes
      → length e.events < o.max_events
      → (is_complete event.kind ≡ false
          → (length e.events + 1 < o.max_events) × (limit ≤ nonterminal_byte_limit o))
      → accept e.validator event ≡ x
      → IsStreamed o (append_accepted e r x).entry
  unfolding append_accepted
  append_accepted-IsStreamed e event r limit (err f) w h within slots open_room a = w
  append_accepted-IsStreamed e event r limit (ok v) w h within slots open_room a =
      let (q, k, fits) = encode_retained-ok c event limit e.event_bytes r h in
      store-IsStreamed o e event r v w (omega arith) a q k (omega arith) (omega arith)
        (λ not_done. ((open_room not_done).0, omega (arith, (open_room not_done).1)))

  append_encoded-IsStreamed :
      (now : ℕ) (e : Entry) (event : OperationEvent) (limit : ℕ)
      (x : Result EncodeError RetainedEvent)
      → IsStreamed o e
      → encode_retained c event limit e.event_bytes ≡ x
      → limit ≤ o.max_bytes
      → length e.events < o.max_events
      → (is_complete event.kind ≡ false
          → (length e.events + 1 < o.max_events) × (limit ≤ nonterminal_byte_limit o))
      → IsStreamed o (append_encoded c o now e event x).entry
  unfolding append_encoded
  append_encoded-IsStreamed now e event limit (err too_large) w h within slots open_room =
      terminate_capacity-IsStreamed now e w
  append_encoded-IsStreamed now e event limit (err invalid) w h within slots open_room = w
  append_encoded-IsStreamed now e event limit (ok r) w h within slots open_room =
      append_accepted-IsStreamed e event r limit (accept e.validator event) w h within slots
        open_room refl

  nonterminal_byte_limit_lem : nonterminal_byte_limit o ≤ o.max_bytes
  unfolding nonterminal_byte_limit
  nonterminal_byte_limit_lem = ground arith

  pub append_event-IsStreamed :
      (now : ℕ) (e : Entry) (event : OperationEvent)
      → IsStreamed o e
      → IsStreamed o (append_event c o now e event).entry
  unfolding append_event
  append_event-IsStreamed now e event w = elim (Bool-cases (is_complete event.kind)) [
    | inl done ↦ elim (Bool-cases (leb o.max_events (length e.events))) [
      | inl full ↦ rw (done, full) (terminate_capacity-IsStreamed now e w)
      | inr slots ↦
          rw (done, slots)
            (append_encoded-IsStreamed now e (stamped e event) o.max_bytes _ w refl (omega arith)
              (ground arith) (λ not_done. absurd (cc (done, not_done))))
    ]
    | inr not_done ↦ elim (Bool-cases (leb (o.max_events - 1) (length e.events))) [
      | inl full ↦ rw (not_done, full) (terminate_capacity-IsStreamed now e w)
      | inr slots ↦
          rw (not_done, slots)
            (append_encoded-IsStreamed now e (stamped e event) (nonterminal_byte_limit o) _ w refl
              nonterminal_byte_limit_lem (ground arith) (λ _. (ground arith, omega arith)))
    ]
  ]
