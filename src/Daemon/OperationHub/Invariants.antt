-- ===== src/Daemon/OperationHub/Invariants.antt =====
-- What an invariant of the entries has to keep.
use kwt.Common.{ℕ, ◌≡◌, Bool, true, false, Option, none, Text, Result, ok}
use kwt.Service.{Error}
use kwt.Service.Operation.{
  OperationPrompt, OperationResponse, OperationStreamValidator, new_validator,
}
use kwt.Daemon.Problem.{Clock}
use kwt.Daemon.OperationEvent.{Codec}
use kwt.Daemon.OperationHub.Types.{Options, Entry, Hub}
use kwt.Daemon.OperationHub.Entries.{
  emit, finish_entry, drain_entry, begin_prompt, end_prompt, respond_to, subscribe_to,
  remove_subscriber, receive_event, loss_timer_fired, message_event, message_kind,
}
use kwt.Daemon.OperationHub.Starts.{new_entry}

-- What the steps on an entry keep.
pub record Kept (c : Codec) (k : Clock) (o : Options) (P : Entry → Type 0) : Type 0 where
  pub on_new :
      (h : Hub) (id digest : Text) (r : Option ℕ) (v : OperationStreamValidator)
      → new_validator id 0 ≡ ok v
      → P (new_entry h id digest r v)
  pub on_finish :
      (now : ℕ) (returned : Result Error (Option Text)) (e : Entry)
      → P e
      → P (finish_entry c k o now returned e)
  pub on_emit :
      (now : ℕ) (warns : Bool) (message : Text) (e : Entry)
      → P e
      → P (emit c o now e (message_event (message_kind warns) message)).entry
  pub on_prompt :
      (now : ℕ) (id : Text) (p : OperationPrompt) (e : Entry)
      → P e
      → P (begin_prompt c o now id p e).entry
  pub on_end_prompt : (ref : ℕ) (e : Entry) → P e → P (end_prompt ref e)
  pub on_respond : (r : OperationResponse) (e f : Entry) → respond_to r e ≡ ok f → P e → P f
  pub on_cancel : (e : Entry) → P e → P (record e { canceled = true })
  pub on_drain : (now : ℕ) (e : Entry) → P e → P (drain_entry c o now e)
  pub on_subscribe :
      (total key after : ℕ) (e f : Entry) → subscribe_to o total key after e ≡ ok f → P e → P f
  pub on_remove : (key : ℕ) (e : Entry) → P e → P (remove_subscriber key e)
  pub on_receive : (key : ℕ) (e : Entry) → P e → P (receive_event key e)
  pub on_timer : (token : ℕ) (e : Entry) → P e → P (loss_timer_fired token e)
  pub on_unlist : (e : Entry) → P e → P (record e { listed = false })
  pub on_release : (e : Entry) → P e → P (record e { reservation = none; worker_active = false })
