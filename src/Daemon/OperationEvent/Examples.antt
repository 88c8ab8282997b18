-- ===== src/Daemon/OperationEvent/Examples.antt =====
-- Events that are encoded, and a string with escapes.
use kwt.Common.{◌≡◌, refl, true, none, some, [], ◌∷◌, ◌++◌, Text, codes, length, ok, err}
use kwt.Service.Operation.{OperationEvent, progress}
use kwt.Daemon.OperationEvent.{Codec, RetainedEvent, encode_retained, payload_fits, too_large}
use kwt.Daemon.OperationEvent.Strings.{consume_bytes, consume_string}
use kwt.Daemon.OperationEvent.Strings.Encoding.{json_string, within, consume_string-json_string}

abbrev codec : Codec
codec = record {
  json_valid = λ s. true;
  marshal = λ e. some (codes "{message: " ++ (e.message ++ codes "}"));
  code_text = λ d. codes "code";
}

abbrev event : OperationEvent
event = record {
  operation_id = codes "op";
  sequence = 1;
  kind = progress;
  message = codes "hello";
  prompt = none;
  result = none;
  failure = none;
}

abbrev retained : RetainedEvent
retained = record { sequence = 1; kind = progress; encoded = codes "{message: hello}" }

fits_test : encode_retained codec event 100 60 ≡ ok retained
unfolding encode_retained payload_fits consume_string consume_bytes
fits_test = refl

too_large_test : encode_retained codec event 100 95 ≡ err too_large
unfolding encode_retained payload_fits consume_string consume_bytes
too_large_test = refl

-- A quote, a letter, a control character, U+2028 and a stray byte.
abbrev escaped : Text
escaped = b'"' ∷ b'a' ∷ 1 ∷ 226 ∷ 128 ∷ 168 ∷ 200 ∷ []

escaped_test : consume_string 30 escaped ≡ some 7
unfolding consume_string consume_bytes
escaped_test = refl

consume_string-json_string_example :
    consume_string 30 escaped ≡ within (length (json_string escaped)) 30
consume_string-json_string_example = consume_string-json_string 30 escaped
