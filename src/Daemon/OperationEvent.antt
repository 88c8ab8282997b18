-- ===== src/Daemon/OperationEvent.antt =====
-- internal/daemon/operation_event.go. The codec is encoding/json: whether bytes are JSON, and what an
-- event is marshalled to. A budget is what is left of it, `none` where it does not suffice.
pub mod Strings
pub mod Bounds
mod Examples
use kwt.Common.{
  ℕ, zero, suc, ◌+◌, ◌-◌, ◌*◌, ◌/◌, ◌≤◌, ◌≡◌, Bool, true, false, ◌&&◌, ◌||◌, not, Option, none,
  some, List, [], ◌∷◌, ◌++◌, Text, codes, if◌then◌else◌, ◌=?◌, ◌==◌, ltb, leb, length, drop, Result,
  ok, err, ◌>>=◌, ◌>>◌, require,
}
use kwt.Service.{Descriptor, Details, no_details, drain_deadline, printed_deadline}
use kwt.Service.Operation.{
  OperationEvent, OperationEventKind, OperationPrompt, Value, absent, boolean, string, integer,
  floating, table, nil_slice, bytes, sequence_of, raw, unsupported, Values, no_values, value,
  Entries, no_entries, entry,
}
use Strings.{consume_bytes, consume_string, and_then}

pub record Codec : Type 0 where
  pub json_valid : Text → Bool
  pub marshal : OperationEvent → Option Text
  -- the text that a code is
  pub code_text : Descriptor → Text

pub data EncodeError : Type 0 where
  too_large invalid : EncodeError

pub record RetainedEvent : Type 0 where
  pub sequence : ℕ
  pub kind : OperationEventKind
  pub encoded : Text

abbrev pub max_detail_depth : ℕ
max_detail_depth = 64

abbrev pub only_if : Bool → ℕ → Option ℕ
only_if b budget = if b then some budget else none

-- One byte for the comma in front of all but the first.
abbrev comma : Bool → ℕ → Option ℕ
comma first budget = if first then some budget else consume_bytes budget 1

mutual
  pub consume_value : Codec → ℕ → ℕ → Value → Option ℕ
  consume_value c depth budget absent =
      and_then (only_if (leb depth max_detail_depth) budget) (λ b. consume_bytes b 4)
  consume_value c depth budget boolean =
      and_then (only_if (leb depth max_detail_depth) budget) (λ b. consume_bytes b 5)
  consume_value c depth budget (string s) =
      and_then (only_if (leb depth max_detail_depth) budget) (λ b. consume_string b s)
  consume_value c depth budget integer =
      and_then (only_if (leb depth max_detail_depth) budget) (λ b. consume_bytes b 20)
  consume_value c depth budget (floating finite) =
      and_then (only_if (leb depth max_detail_depth && finite) budget) (λ b. consume_bytes b 32)
  consume_value c depth budget (table keyed es) =
      and_then (only_if (leb depth max_detail_depth && keyed) budget)
        (λ b. and_then (consume_bytes b 2) (λ d. consume_entries c depth true d es))
  consume_value c depth budget nil_slice =
      and_then (only_if (leb depth max_detail_depth) budget) (λ b. consume_bytes b 4)
  consume_value c depth budget (bytes n) =
      and_then (only_if (leb depth max_detail_depth && leb n budget) budget)
        (λ b. consume_bytes b (2 + (n + 2) / 3 * 4))
  consume_value c depth budget (sequence_of vs) =
      and_then (only_if (leb depth max_detail_depth) budget)
        (λ b. and_then (consume_bytes b 2) (λ d. consume_values c depth true d vs))
  consume_value c depth budget (raw s) =
      and_then (only_if (leb depth max_detail_depth && c.json_valid s) budget)
        (λ b. consume_bytes b (length s))
  consume_value c depth budget unsupported = none

  consume_values : Codec → ℕ → Bool → ℕ → Values → Option ℕ
  consume_values c depth first budget no_values = some budget
  consume_values c depth first budget (value v vs) =
      and_then (comma first budget)
        (λ b. and_then (consume_value c (depth + 1) b v) (λ d. consume_values c depth false d vs))

  consume_entries : Codec → ℕ → Bool → ℕ → Entries → Option ℕ
  consume_entries c depth first budget no_entries = some budget
  consume_entries c depth first budget (entry k v es) = and_then (comma first budget) (λ b.
      and_then (consume_string b k) (λ d. and_then (consume_bytes d 1) (λ f.
        and_then (consume_value c (depth + 1) f v) (λ g. consume_entries c depth false g es))))

-- The details of a failure as reflection sees them: a time is a struct.
pub details_value : Details → Value
details_value no_details = table true no_entries
details_value (drain_deadline t) =
    table true (entry (codes "drain_deadline") unsupported no_entries)
details_value (printed_deadline s) =
    table true (entry (codes "drain_deadline") (string s) no_entries)

pub consume_result : ℕ → Option Text → Option ℕ
consume_result budget none = some budget
consume_result budget (some r) = consume_bytes budget (length r)

pub consume_prompt : Codec → ℕ → Option OperationPrompt → Option ℕ
consume_prompt c budget none = some budget
consume_prompt c budget (some p) = and_then (consume_string budget p.id) (λ b.
    and_then (consume_string b p.kind)
      (λ d. and_then (consume_string d p.message) (λ f. consume_value c 0 f p.details)))

pub consume_failure : Codec → ℕ → Option Descriptor → Option ℕ
unfolding details_value
consume_failure c budget none = some budget
consume_failure c budget (some f) = and_then (consume_string budget (c.code_text f)) (λ b.
    and_then (consume_string b f.message) (λ d. consume_value c 0 d (details_value f.details)))

-- What is left of the bytes when the payload fits.
unfoldable pub payload_fits : Codec → OperationEvent → ℕ → Option ℕ
unfolding consume_result consume_prompt consume_failure
payload_fits c e remaining = and_then (consume_string remaining e.message) (λ b.
    and_then (consume_result b e.result)
      (λ d. and_then (consume_prompt c d e.prompt) (λ f. consume_failure c f e.failure)))

abbrev has_valid_result : Codec → Option Text → Bool
has_valid_result c none = true
has_valid_result c (some r) = c.json_valid r

abbrev fits : Option ℕ → Bool
fits none = false
fits (some b) = true

abbrev or_invalid : Option Text → Result EncodeError Text
or_invalid none = err invalid
or_invalid (some s) = ok s

-- `remaining` is `limit - used`, which may be negative.
unfoldable pub encode_retained : Codec → OperationEvent → ℕ → ℕ → Result EncodeError RetainedEvent
unfolding payload_fits
encode_retained c e limit used = do
  require (has_valid_result c e.result) invalid
  require (leb used limit && fits (payload_fits c e (limit - used))) too_large
  encoded ← or_invalid (c.marshal e)
  require (leb (length encoded) (limit - used)) too_large
  ok (record { sequence = e.sequence; kind = e.kind; encoded = encoded })
