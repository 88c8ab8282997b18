-- ===== src/Daemon/OperationHub/Responses.antt =====
-- The responses to the prompts of all operations of the hub.
use kwt.Common.{ℕ, refl, Option, List, Text, All}
use kwt.Service.Operation.{OperationStreamValidator}
use kwt.Daemon.Problem.{Clock}
use kwt.Daemon.OperationEvent.{Codec}
use kwt.Daemon.OperationHub.Types.{Options, Entry, Hub, new_hub, with_defaults}
use kwt.Daemon.OperationHub.Events.{schedule_subscriber_loss}
use kwt.Daemon.OperationHub.Events.Prompts.{schedule_subscriber_loss-KeepsPrompt}
use kwt.Daemon.OperationHub.Entries.Answers.{
  IsAnswered, KeepsPrompt-IsAnswered, respond_to-IsAnswered,
}
use kwt.Daemon.OperationHub.Entries.Answered.{
  emit-IsAnswered, finish_entry-IsAnswered, drain_entry-IsAnswered, begin_prompt-IsAnswered,
  end_prompt-IsAnswered, subscribe_to-IsAnswered, remove_subscriber-IsAnswered,
  loss_timer_fired-IsAnswered,
}
use kwt.Daemon.OperationHub.Entries.{receive_event}
use kwt.Daemon.OperationHub.{Call, run}
use kwt.Daemon.OperationHub.Starts.{fresh_entry, new_entry}
use kwt.Daemon.OperationHub.Invariants.{Kept}
use kwt.Daemon.OperationHub.Entrywise.{run-Holds}

new_entry-IsAnswered :
    (h : Hub) (id digest : Text) (r : Option ℕ) (v : OperationStreamValidator)
    → IsAnswered (new_entry h id digest r v)
unfolding new_entry
new_entry-IsAnswered h id digest r v =
    let fresh : Entry = fresh_entry h id digest r v in
    KeepsPrompt-IsAnswered fresh (schedule_subscriber_loss fresh)
      (schedule_subscriber_loss-KeepsPrompt fresh) (tt, tt, tt)

receive_event-IsAnswered : (key : ℕ) (e : Entry) → IsAnswered e → IsAnswered (receive_event key e)
unfolding receive_event
receive_event-IsAnswered key e w = w

IsAnswered-Kept : (c : Codec) (k : Clock) (o : Options) → Kept c k o IsAnswered
IsAnswered-Kept c k o = record {
  on_new = λ h id digest r v s. new_entry-IsAnswered h id digest r v;
  on_finish = λ now returned e w. finish_entry-IsAnswered c k o now returned e w;
  on_emit = λ now warns message e w. emit-IsAnswered c k o now e _ w;
  on_prompt = λ now id p e w. begin_prompt-IsAnswered c k o now id p e w;
  on_end_prompt = λ ref e w. end_prompt-IsAnswered c k o ref e w;
  on_respond = λ r e f h w. respond_to-IsAnswered r e f h w;
  on_cancel = λ e w. w;
  on_drain = λ now e w. drain_entry-IsAnswered c k o now e w;
  on_subscribe = λ total key after e f h w. subscribe_to-IsAnswered c k o total key after e f h w;
  on_remove = λ key e w. remove_subscriber-IsAnswered c k o key e w;
  on_receive = λ key e w. receive_event-IsAnswered key e w;
  on_timer = λ token e w. loss_timer_fired-IsAnswered c k o token e w;
  on_unlist = λ e w. w;
  on_release = λ e w. w;
}

-- Whatever is called on a new hub, the channel of each prompt is sent one response at most, so that
-- the channel's one place suffices; and a prompt that says that it has no response was sent none.
pub run-new_hub-All-IsAnswered :
    (c : Codec) (k : Clock) (given : Options) (calls : List Call)
    → All IsAnswered (run c k (new_hub given) calls).entries
unfolding new_hub
run-new_hub-All-IsAnswered c k given calls =
    (run-Holds c k (with_defaults given) IsAnswered (IsAnswered-Kept c k (with_defaults given))
      calls (new_hub given) (refl, tt)).1
