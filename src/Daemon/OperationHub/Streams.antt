-- ===== src/Daemon/OperationHub/Streams.antt =====
-- The streams of all operations of the hub.
use kwt.Common.{ℕ, ◌^◌, ◌<◌, ◌≡◌, refl, false, Option, List, [], Text, All, arith, ok}
use kwt.Service.Operation.{OperationStreamValidator, new_validator}
use kwt.Daemon.Problem.{Clock}
use kwt.Daemon.OperationEvent.{Codec}
use kwt.Daemon.OperationHub.Types.{Options, Entry, Hub, new_hub, with_defaults}
use kwt.Daemon.OperationHub.Events.Streams.{
  IsStreamed, SameStream-IsStreamed, schedule_subscriber_loss-SameStream,
}
use kwt.Daemon.OperationHub.Entries.Kept.{
  emit-IsStreamed, finish_entry-IsStreamed, drain_entry-IsStreamed, end_prompt-IsStreamed,
  begin_prompt-IsStreamed, respond_to-IsStreamed, subscribe_to-IsStreamed,
  remove_subscriber-IsStreamed, loss_timer_fired-IsStreamed,
}
use kwt.Daemon.OperationHub.Events.Completion.{IsEnded, schedule_subscriber_loss-end}
use kwt.Daemon.OperationHub.Entries.{end_prompt, remove_subscriber, receive_event, loss_timer_fired}
use kwt.Daemon.OperationHub.Entries.Finish.{finish_entry-terminal}
use kwt.Daemon.OperationHub.Entries.Ended.{
  SameEnd-IsEnded, drain_entry-terminal, end_prompt-SameEnd, respond_to-SameEnd,
  loss_timer_fired-SameEnd, remove_subscriber-SameEnd, subscribe_to-SameEnd, emit-IsEnded,
  begin_prompt-IsEnded,
}
use kwt.Daemon.OperationHub.{Call, run}
use kwt.Daemon.OperationHub.Starts.{new_entry}
use kwt.Daemon.OperationHub.Invariants.{Kept}
use kwt.Daemon.OperationHub.Entrywise.{run-Holds}

-- An entry has no events at first.
fresh-IsStreamed :
    (o : Options) (e : Entry)
    → 0 < o.max_events
    → new_validator e.id 0 ≡ ok e.validator
    → e.events ≡ []
    → e.event_bytes ≡ 0
    → IsStreamed o e
unfolding new_validator
fresh-IsStreamed o e positive v none_yet no_bytes = record {
  numbered = ground arith;
  bytes = ground arith;
  within_events = ground arith;
  within_bytes = ground arith;
  completes = ground arith;
  sequence = ground arith;
  id = ground arith;
  room = λ h. (ground arith, omega arith);
}

new_entry-IsStreamed :
    (o : Options) (h : Hub) (id digest : Text) (r : Option ℕ) (v : OperationStreamValidator)
    → 0 < o.max_events
    → new_validator id 0 ≡ ok v
    → IsStreamed o (new_entry h id digest r v)
unfolding new_entry
new_entry-IsStreamed o h id digest r v positive s =
    SameStream-IsStreamed o _ _ (schedule_subscriber_loss-SameStream _)
      (fresh-IsStreamed o _ positive s refl refl)

same-IsStreamed :
    (o : Options) (e f : Entry)
    → f.id ≡ e.id
    → f.events ≡ e.events
    → f.event_bytes ≡ e.event_bytes
    → f.validator ≡ e.validator
    → IsStreamed o e
    → IsStreamed o f
same-IsStreamed o e f i n b v w =
    SameStream-IsStreamed o e f (record { id = i; events = n; event_bytes = b; validator = v }) w

receive_event-IsStreamed :
    (o : Options) (key : ℕ) (e : Entry) → IsStreamed o e → IsStreamed o (receive_event key e)
unfolding receive_event
receive_event-IsStreamed o key e w = same-IsStreamed o e (receive_event key e) refl refl refl refl w

receive_event-IsEnded : (key : ℕ) (e : Entry) → IsEnded e → IsEnded (receive_event key e)
unfolding receive_event
receive_event-IsEnded key e w = w

module _ (c : Codec) (k : Clock) (o : Options) (bounded : o.max_events < 2 ^ 64) where
  IsStreamed-Kept : 0 < o.max_events → Kept c k o (IsStreamed o)
  IsStreamed-Kept positive = record {
    on_new = λ h id digest r v s. new_entry-IsStreamed o h id digest r v positive s;
    on_finish = λ now returned e w. finish_entry-IsStreamed c k o bounded now returned e w;
    on_emit = λ now kind message e w. emit-IsStreamed c k o bounded now e _ w;
    on_prompt = λ now id p e w. begin_prompt-IsStreamed c k o bounded now id p e w;
    on_end_prompt = λ ref e w. end_prompt-IsStreamed c k o bounded ref e w;
    on_respond = λ r e f h w. respond_to-IsStreamed c k o bounded r e f h w;
    on_cancel = λ e w. same-IsStreamed o e _ refl refl refl refl w;
    on_drain = λ now e w. drain_entry-IsStreamed c k o bounded now e w;
    on_subscribe =
        λ total key after e f h w. subscribe_to-IsStreamed c k o bounded total key after e f h w;
    on_remove = λ key e w. remove_subscriber-IsStreamed c k o bounded key e w;
    on_receive = λ key e w. receive_event-IsStreamed o key e w;
    on_timer = λ token e w. loss_timer_fired-IsStreamed c k o bounded token e w;
    on_unlist = λ e w. same-IsStreamed o e _ refl refl refl refl w;
    on_release = λ e w. same-IsStreamed o e _ refl refl refl refl w;
  }

new_entry-IsEnded :
    (h : Hub) (id digest : Text) (r : Option ℕ) (v : OperationStreamValidator)
    → new_validator id 0 ≡ ok v
    → IsEnded (new_entry h id digest r v)
unfolding new_entry
new_entry-IsEnded h id digest r v s t =
    absurd (cc ((schedule_subscriber_loss-end _).0, t, fresh_open id v s))
  where
    fresh_open :
        (id : Text) (v : OperationStreamValidator) → new_validator id 0 ≡ ok v → v.terminal ≡ false
    fresh_open id v s = unfold new_validator in ground arith

IsEnded-Kept : (c : Codec) (k : Clock) (o : Options) → Kept c k o IsEnded
IsEnded-Kept c k o = record {
  on_new = λ h id digest r v s. new_entry-IsEnded h id digest r v s;
  on_finish = λ now returned e w _. finish_entry-terminal c k o now returned e;
  on_emit = λ now warns message e w. emit-IsEnded c o now warns message e w;
  on_prompt = λ now id p e w. begin_prompt-IsEnded c o now id p e w;
  on_end_prompt = λ ref e w. SameEnd-IsEnded e (end_prompt ref e) (end_prompt-SameEnd ref e) w;
  on_respond = λ r e f h w. SameEnd-IsEnded e f (respond_to-SameEnd r e f h) w;
  on_cancel = λ e w. w;
  on_drain = λ now e w _. drain_entry-terminal c o now e;
  on_subscribe = λ total key after e f h w.
      SameEnd-IsEnded e f (subscribe_to-SameEnd c o total key after e f h) w;
  on_remove =
      λ key e w. SameEnd-IsEnded e (remove_subscriber key e) (remove_subscriber-SameEnd key e) w;
  on_receive = λ key e w. receive_event-IsEnded key e w;
  on_timer = λ token e w.
      SameEnd-IsEnded e (loss_timer_fired token e) (loss_timer_fired-SameEnd token e) w;
  on_unlist = λ e w. w;
  on_release = λ e w. w;
}

-- Whatever is called on a new hub, an operation whose stream has its completion is terminal.
pub run-new_hub-All-IsEnded :
    (c : Codec) (k : Clock) (given : Options) (calls : List Call)
    → All IsEnded (run c k (new_hub given) calls).entries
unfolding new_hub
run-new_hub-All-IsEnded c k given calls =
    (run-Holds c k (with_defaults given) IsEnded (IsEnded-Kept c k (with_defaults given)) calls
      (new_hub given) (refl, tt)).1

-- Whatever is called on a new hub whose event limit fits into 64 bits, each operation's retained
-- events are numbered from 1 on without a gap; they and their bytes stay within the limits, and the
-- bytes are counted; a completion is the last event and the only one of its kind, and as long as
-- there is none, one event and the completion's reserve are left for it.
pub run-new_hub-All-IsStreamed :
    (c : Codec) (k : Clock) (given : Options) (calls : List Call)
    → (with_defaults given).max_events < 2 ^ 64
    → All (IsStreamed (with_defaults given)) (run c k (new_hub given) calls).entries
unfolding new_hub with_defaults
run-new_hub-All-IsStreamed c k given calls bounded =
    (run-Holds c k (with_defaults given) (IsStreamed (with_defaults given))
      (IsStreamed-Kept c k (with_defaults given) bounded (ground arith)) calls (new_hub given)
      (refl, tt)).1
