-- ===== src/Service/Operation/Shape.antt =====
-- The payload that a single event may carry.
use kwt.Common.{◌≤◌, ◌<◌, ◌≡◌, refl, Option, none, some, Text, length, arith, ok}
use kwt.Service.{Descriptor}
use kwt.Service.Operation.{
  OperationEventKind, progress, warning, prompt, complete, unknown, OperationPrompt, OperationEvent,
  validate_payload, validate_prompt, max_message_bytes,
}

-- What a shape allows of the payload.
pub data HasPayload (e : OperationEvent) : OperationEventKind → Type 0 where
  of_progress : e.prompt ≡ none → e.result ≡ none → e.failure ≡ none → HasPayload e progress
  of_warning : e.prompt ≡ none → e.result ≡ none → e.failure ≡ none → HasPayload e warning
  of_prompt :
      (p : OperationPrompt)
      → e.prompt ≡ some p
      → 0 < length p.id
      → 0 < length p.kind
      → length p.message ≤ max_message_bytes
      → e.result ≡ none
      → e.failure ≡ none
      → HasPayload e prompt
  of_result :
      (r : Text) → e.prompt ≡ none → e.result ≡ some r → e.failure ≡ none → HasPayload e complete
  of_failure :
      (d : Descriptor)
      → e.prompt ≡ none
      → e.result ≡ none
      → e.failure ≡ some d
      → HasPayload e complete

prompt_sound :
    (e : OperationEvent) (o : Option OperationPrompt)
    → e.prompt ≡ o
    → validate_payload prompt e ≡ ok tt
    → HasPayload e prompt
unfolding validate_payload validate_prompt
prompt_sound e none s h = ground arith
prompt_sound e (some p) s h =
    of_prompt p s (ground arith) (ground arith) (ground arith) (ground arith) (ground arith)

complete_sound :
    (e : OperationEvent) (r : Option Text) (f : Option Descriptor)
    → e.result ≡ r
    → e.failure ≡ f
    → validate_payload complete e ≡ ok tt
    → HasPayload e complete
unfolding validate_payload
complete_sound e (some r) f s t h = of_result r (ground arith) s (ground arith)
complete_sound e none (some d) s t h = of_failure d (ground arith) s t
complete_sound e none none s t h = ground arith

pub payload_sound :
    (k : OperationEventKind) (e : OperationEvent) → validate_payload k e ≡ ok tt → HasPayload e k
payload_sound progress e h =
    unfold validate_payload in of_progress (ground arith) (ground arith) (ground arith)
payload_sound warning e h =
    unfold validate_payload in of_warning (ground arith) (ground arith) (ground arith)
payload_sound prompt e h = prompt_sound e e.prompt refl h
payload_sound complete e h = complete_sound e e.result e.failure refl refl h
payload_sound (unknown k) e h = unfold validate_payload in ground arith

pub payload_complete :
    (k : OperationEventKind) (e : OperationEvent) → HasPayload e k → validate_payload k e ≡ ok tt
unfolding validate_payload validate_prompt
payload_complete _ e (of_progress p r f) = ground arith
payload_complete _ e (of_warning p r f) = ground arith
payload_complete _ e (of_prompt p s i k m r f) = ground arith
payload_complete _ e (of_result r p s f) = ground arith
payload_complete _ e (of_failure d p r s) = ground arith
