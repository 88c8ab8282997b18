-- ===== src/Service/Operation/Examples.antt =====
-- A stream of an operation at work.
use kwt.Common.{
  ℕ, ◌≡◌, refl, ◌↔◌, Bool, true, false, Option, none, some, List, [], ◌∷◌, Text, codes, arith, ok,
  err, ◌=?◌,
}
use kwt.Service.Operation.{
  OperationEventKind, progress, complete, OperationEvent, OperationStreamValidator, new_validator,
  accept, stream_is_terminal, validate_event_shape, validate_payload,
}
use kwt.Service.Operation.Stream.{IsStream, Accepts, accept_all, accept_all-IsStream}

abbrev event : ℕ → OperationEventKind → Option Text → OperationEvent
event sequence kind result = record {
  operation_id = codes "op";
  sequence = sequence;
  kind = kind;
  message = [];
  prompt = none;
  result = result;
  failure = none;
}

abbrev done : List OperationEvent
done = event 4 progress none ∷ event 5 complete (some (codes "{}")) ∷ []

abbrev validator : ℕ → Bool → OperationStreamValidator
validator sequence terminal = record {
  operation_id = codes "op";
  sequence = sequence;
  terminal = terminal;
}

accepted : accept_all (validator 3 false) done ≡ ok (validator 5 true)
unfolding accept_all accept validate_event_shape validate_payload ◌=?◌
accepted = refl

nothing_after_completion :
    accept_all (validator 5 true) (event 6 progress none ∷ []) ≡ err stream_is_terminal
unfolding accept_all accept
nothing_after_completion = refl

accept_all-IsStream_example :
    (v : OperationStreamValidator) × (new_validator (codes "op") 3 ≡ ok v)
    × (Accepts v done ↔ IsStream (codes "op") 3 done)
accept_all-IsStream_example = accept_all-IsStream (codes "op") 3 done (omega arith) (omega arith)
