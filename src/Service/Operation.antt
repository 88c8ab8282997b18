-- ===== src/Service/Operation.antt =====
-- service/operation.go. A JSON result is its bytes; a prompt's details are the value that
-- internal/daemon/operation_event.go walks over. The messages of the errors are left to their kinds.
pub mod Shape
pub mod Stream
mod Examples
use kwt.Common.{
  ℕ, ◌+◌, ◌*◌, ◌%◌, ◌^◌, Bool, true, false, ◌||◌, ◌&&◌, not, Option, none, some, List, [], ◌∷◌,
  Text, if◌then◌else◌, ◌=?◌, ◌==◌, ltb, length, Result, ok, err, ◌>>=◌, ◌>>◌, require,
}
use kwt.Service.{Descriptor}

abbrev pub max_message_bytes : ℕ
max_message_bytes = 16384

abbrev pub max_response_bytes : ℕ
max_response_bytes = 65536

pub data OperationEventKind : Type 0 where
  progress warning prompt complete : OperationEventKind
  unknown : Text → OperationEventKind

abbrev pub is_complete : OperationEventKind → Bool
is_complete complete = true
is_complete _ = false

mutual
  -- A value of `map[string]any` as reflection sees it. A map says whether its keys are strings, and
  -- its entries stand in the order of the iteration; a float says whether it is finite.
  pub data Value : Type 0 where
    absent : Value
    boolean : Value
    string : Text → Value
    integer : Value
    floating : Bool → Value
    table : Bool → Entries → Value
    nil_slice : Value
    bytes : ℕ → Value
    sequence_of : Values → Value
    raw : Text → Value
    unsupported : Value

  pub data Values : Type 0 where
    no_values : Values
    value : Value → Values → Values

  pub data Entries : Type 0 where
    no_entries : Entries
    entry : Text → Value → Entries → Entries

pub record OperationPrompt : Type 0 where
  pub id : Text
  pub kind : Text
  pub message : Text
  pub sensitive : Bool
  pub deadline : Option ℕ
  pub details : Value

pub record OperationEvent : Type 0 where
  pub operation_id : Text
  pub sequence : ℕ
  pub kind : OperationEventKind
  pub message : Text
  pub prompt : Option OperationPrompt
  pub result : Option Text
  pub failure : Option Descriptor

pub record OperationResponse : Type 0 where
  pub prompt_id : Text
  pub value : Text

pub record OperationStreamValidator : Type 0 where
  pub operation_id : Text
  pub sequence : ℕ
  pub terminal : Bool

pub data StreamError : Type 0 where
  empty_operation_id stream_is_terminal : StreamError
  other_operation_id : Text → Text → StreamError
  other_sequence : ℕ → ℕ → StreamError
  message_too_long incompatible_payload no_prompt empty_prompt_id empty_prompt_kind : StreamError
  prompt_message_too_long terminal_payload carries_prompt not_one_outcome : StreamError
  unknown_kind : Text → StreamError
  response_without_prompt_id response_too_long : StreamError

abbrev pub uint64 : ℕ → ℕ
uint64 n = n % 2 ^ 64

abbrev pub is_some {ℓ} : {A : Type ℓ} → Option A → Bool
is_some none = false
is_some (some a) = true

unfoldable pub new_validator : Text → ℕ → Result StreamError OperationStreamValidator
new_validator operation_id after =
    if length operation_id == 0
    then err empty_operation_id
    else ok (record { operation_id = operation_id; sequence = after; terminal = false })

pub validate_prompt : Option OperationPrompt → Result StreamError (Unit {0})
validate_prompt none = err no_prompt
validate_prompt (some p) = do
  require (not (length p.id == 0)) empty_prompt_id
  require (not (length p.kind == 0)) empty_prompt_kind
  require (not (ltb max_message_bytes (length p.message))) prompt_message_too_long

-- The cases of the `switch`.
pub validate_payload : OperationEventKind → OperationEvent → Result StreamError (Unit {0})
unfolding validate_prompt
validate_payload progress e =
    require (not (is_some e.prompt || is_some e.result || is_some e.failure)) incompatible_payload
validate_payload warning e =
    require (not (is_some e.prompt || is_some e.result || is_some e.failure)) incompatible_payload
validate_payload prompt e = do
  validate_prompt e.prompt
  require (not (is_some e.result || is_some e.failure)) terminal_payload
validate_payload complete e = do
  require (not (is_some e.prompt)) carries_prompt
  require (if is_some e.result then not (is_some e.failure) else is_some e.failure) not_one_outcome
validate_payload (unknown k) e = err (unknown_kind k)

pub validate_event_shape : OperationEvent → Result StreamError (Unit {0})
unfolding validate_payload
validate_event_shape e = do
  require (not (ltb max_message_bytes (length e.message))) message_too_long
  validate_payload e.kind e

unfoldable pub accept :
    OperationStreamValidator → OperationEvent → Result StreamError OperationStreamValidator
unfolding validate_event_shape
accept v e = do
  require (not v.terminal) stream_is_terminal
  require (e.operation_id =? v.operation_id) (other_operation_id e.operation_id v.operation_id)
  require (e.sequence == uint64 (v.sequence + 1))
      (other_sequence e.sequence (uint64 (v.sequence + 1)))
  validate_event_shape e
  ok (record v {
    sequence = e.sequence;
    terminal = if is_complete e.kind then true else v.terminal;
  })

unfoldable pub validate_operation_response : OperationResponse → Result StreamError (Unit {0})
validate_operation_response r = do
  require (not (length r.prompt_id == 0)) response_without_prompt_id
  require (not (ltb max_response_bytes (length r.value))) response_too_long
