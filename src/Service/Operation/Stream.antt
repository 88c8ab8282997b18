-- ===== src/Service/Operation/Stream.antt =====
-- The streams that a validator accepts.
use kwt.Common.{
  ℕ, ◌+◌, ◌≤◌, ◌<◌, ◌≡◌, ◌^◌, refl, sym, ap, subst, ◌∙◌, ◌↔◌, ◌⊎◌, inl, inr, true, false, List, [],
  ◌∷◌, Text, eq_sound, eq_complete, length, arith, Result, ok, err, ◌>>=◌, Bool-cases,
}
use kwt.Service.Operation.{
  OperationEventKind, progress, warning, prompt, complete, unknown, is_complete, OperationEvent,
  OperationStreamValidator, StreamError, accept, new_validator, validate_event_shape,
  max_message_bytes, uint64,
}
use kwt.Service.Operation.Shape.{HasPayload, payload_sound, payload_complete}

-- The events, one after another, after the sequence number given.
abbrev pub IsStream : Text → ℕ → List OperationEvent → Type 0
IsStream id after [] = Unit {0}
IsStream id after (e ∷ es) =
    (e.operation_id ≡ id)
    × (e.sequence ≡ after + 1)
    × (length e.message ≤ max_message_bytes)
    × HasPayload e e.kind
    × (e.kind ≡ complete → es ≡ [])
    × IsStream id (after + 1) es

unfoldable pub accept_all :
    OperationStreamValidator → List OperationEvent → Result StreamError OperationStreamValidator
accept_all v [] = ok v
accept_all v (e ∷ es) = do next ← accept v e; accept_all next es

-- What a step of the validator asks, and what it leaves.
pub accept_sound :
    (v w : OperationStreamValidator) (e : OperationEvent)
    → accept v e ≡ ok w
    → (v.terminal ≡ false)
      × (e.operation_id ≡ v.operation_id)
      × (e.sequence ≡ uint64 (v.sequence + 1))
      × (length e.message ≤ max_message_bytes)
      × HasPayload e e.kind
      × (w.operation_id ≡ v.operation_id)
      × (w.sequence ≡ e.sequence)
      × (w.terminal ≡ is_complete e.kind)
unfolding accept validate_event_shape
accept_sound v w e h = (
  ground arith,
  eq_sound _ _ (ground arith),
  ground arith,
  ground arith,
  payload_sound e.kind e (ground arith),
  ground arith,
  ground arith,
  ground arith,
)

pub accept_complete :
    (v : OperationStreamValidator) (e : OperationEvent)
    → v.terminal ≡ false
    → e.operation_id ≡ v.operation_id
    → e.sequence ≡ uint64 (v.sequence + 1)
    → length e.message ≤ max_message_bytes
    → HasPayload e e.kind
    → accept v e
      ≡ ok (record {
        operation_id = v.operation_id;
        sequence = e.sequence;
        terminal = is_complete e.kind;
      })
unfolding accept validate_event_shape
accept_complete v e t i s m p =
    ground (arith, payload_complete e.kind e p, eq_complete e.operation_id v.operation_id i)

abbrev pub Accepts : OperationStreamValidator → List OperationEvent → Type 0
Accepts v es = (w : OperationStreamValidator) × (accept_all v es ≡ ok w)

-- A terminal validator takes no event.
accept_all-terminal :
    (v : OperationStreamValidator) (es : List OperationEvent)
    → v.terminal ≡ true
    → Accepts v es
    → es ≡ []
unfolding accept_all accept
accept_all-terminal v [] t h = refl
accept_all-terminal v (e ∷ es) t (w, h) = ground arith

accept_all_next :
    (v next : OperationStreamValidator) (e : OperationEvent) (es : List OperationEvent)
    → accept v e ≡ ok next
    → accept_all v (e ∷ es) ≡ accept_all next es
unfolding accept_all
accept_all_next v next e es h = ground arith

accept_all-err :
    (v : OperationStreamValidator) (e : OperationEvent) (es : List OperationEvent) (f : StreamError)
    → accept v e ≡ err f
    → accept_all v (e ∷ es) ≡ err f
unfolding accept_all
accept_all-err v e es f h = ground arith

complete-is_complete : (k : OperationEventKind) → k ≡ complete → is_complete k ≡ true
complete-is_complete k h = ap is_complete h

is_complete-eq-true : (k : OperationEventKind) → is_complete k ≡ true → k ≡ complete
is_complete-eq-true progress h = cc
is_complete-eq-true warning h = cc
is_complete-eq-true prompt h = cc
is_complete-eq-true complete h = refl
is_complete-eq-true (unknown k) h = cc

-- The events after one that was accepted.
abbrev RestSound : List OperationEvent → Type 0
RestSound es =
    (v : OperationStreamValidator)
    → v.terminal ≡ false
    → v.sequence + length es < 2 ^ 64
    → Accepts v es
    → IsStream v.operation_id v.sequence es

rest_sound :
    (es : List OperationEvent) (next : OperationStreamValidator)
    → RestSound es
    → next.sequence + length es < 2 ^ 64
    → Accepts next es
    → IsStream next.operation_id next.sequence es
rest_sound es next rest b a = elim (Bool-cases next.terminal) [
  | inl t ↦
      subst (IsStream next.operation_id next.sequence) (sym (accept_all-terminal next es t a)) tt
  | inr f ↦ rest next f b a
]

accepted_first :
    (e : OperationEvent) (es : List OperationEvent) (v : OperationStreamValidator)
    (x : Result StreamError OperationStreamValidator)
    → RestSound es
    → v.sequence + length (e ∷ es) < 2 ^ 64
    → accept v e ≡ x
    → Accepts v (e ∷ es)
    → IsStream v.operation_id v.sequence (e ∷ es)
accepted_first e es v (err f) rest b s (w, a) = absurd (cc (accept_all-err v e es f s, a))
accepted_first e es v (ok next) rest b s (w, a) =
    let (t, i, q, m, p, j, r, u) = accept_sound v next e s in
    let step : next.sequence ≡ v.sequence + 1 = omega (arith, q, r) in
    let later : Accepts next es = (w, sym (accept_all_next v next e es s) ∙ a) in
    (
      i,
      omega arith,
      m,
      p,
      λ k. accept_all-terminal next es (u ∙ complete-is_complete e.kind k) later,
      subst (λ id. IsStream id (v.sequence + 1) es) j
          (subst (λ n. IsStream next.operation_id n es) step
            (rest_sound es next rest (omega arith) later)),
    )

accept_all_sound :
    (es : List OperationEvent) (v : OperationStreamValidator)
    → v.terminal ≡ false
    → v.sequence + length es < 2 ^ 64
    → Accepts v es
    → IsStream v.operation_id v.sequence es
accept_all_sound [] v t b a = tt
accept_all_sound (e ∷ es) v t b a =
    accepted_first e es v (accept v e) (accept_all_sound es) b refl a

accept_all_complete :
    (es : List OperationEvent) (v : OperationStreamValidator)
    → v.terminal ≡ false ⊎ es ≡ []
    → v.sequence + length es < 2 ^ 64
    → IsStream v.operation_id v.sequence es
    → Accepts v es
accept_all_complete [] v t b s = unfold accept_all in (v, refl)
accept_all_complete (e ∷ es) v (inr none_left) b s = absurd (cc none_left)
accept_all_complete (e ∷ es) v (inl t) b (i, q, m, p, last, s) =
    let next : OperationStreamValidator = record {
      operation_id = v.operation_id;
      sequence = e.sequence;
      terminal = is_complete e.kind;
    } in
    let open_or_done : next.terminal ≡ false ⊎ es ≡ [] = elim (Bool-cases (is_complete e.kind)) [
      | inl c ↦ inr (last (is_complete-eq-true e.kind c))
      | inr c ↦ inl c
    ] in
    let (w, a) =
      accept_all_complete es next open_or_done (omega arith)
        (subst (λ n. IsStream v.operation_id n es) (sym q) s) in
    (w, accept_all_next v next e es (accept_complete v e t i (omega arith) m p) ∙ a)

-- A client's validator for a named operation accepts a whole sequence of events, within 64 bits of
-- sequence numbers, exactly when they are of this operation, numbered one after another from the
-- cursor on, each with a short message and only the payload of its kind, and a completion, which
-- carries a result or a failure and not both, comes only as the last.
pub accept_all-IsStream :
    (id : Text) (after : ℕ) (es : List OperationEvent)
    → 0 < length id
    → after + length es < 2 ^ 64
    → (v : OperationStreamValidator) × (new_validator id after ≡ ok v)
      × (Accepts v es ↔ IsStream id after es)
accept_all-IsStream id after es named b =
    let v : OperationStreamValidator = record {
      operation_id = id;
      sequence = after;
      terminal = false;
    } in
    (
      v,
      unfold new_validator in ground arith,
      (accept_all_sound es v refl b, accept_all_complete es v (inl refl) b),
    )
