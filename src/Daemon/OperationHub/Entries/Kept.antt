-- ===== src/Daemon/OperationHub/Entries/Kept.antt =====
-- Every step on an entry keeps its stream.
use kwt.Common.{
  ℕ, ◌+◌, ◌-◌, ◌^◌, ◌<◌, ◌≡◌, refl, false, Option, none, some, map, Text, arith, Result, ok,
  if-elim,
}
use kwt.Service.{Error}
use kwt.Service.Operation.{OperationEvent, OperationPrompt, OperationResponse}
use kwt.Daemon.Problem.{Clock}
use kwt.Daemon.OperationEvent.{Codec}
use kwt.Daemon.OperationHub.Types.{Options, Entry}
use kwt.Daemon.OperationHub.Events.{Appended, append_event, mark_terminal, schedule_subscriber_loss}
use kwt.Daemon.OperationHub.Events.Streams.{
  IsStreamed, SameStream-IsStreamed, schedule_subscriber_loss-SameStream, mark_terminal-SameStream,
  terminate_capacity-IsStreamed, append_event-IsStreamed,
}
use kwt.Daemon.OperationHub.Entries.{
  emit, give_up, fall_back, finish_entry, drain_entry, end_prompt, asked, ask, has_prompt,
  already_prompting, prompt_event, begin_prompt, respond_to, subscribe_to, remove_subscription,
  remove_subscriber, is_counted, loss_timer_fired,
}

mark_terminal-IsStreamed :
    (o : Options) (now : ℕ) (e : Entry) → IsStreamed o e → IsStreamed o (mark_terminal now e)
mark_terminal-IsStreamed o now e w =
    SameStream-IsStreamed o e (mark_terminal now e) (mark_terminal-SameStream now e) w

module _ (c : Codec) (k : Clock) (o : Options) (bounded : o.max_events < 2 ^ 64) where
  pub emit-IsStreamed :
      (now : ℕ) (e : Entry) (event : OperationEvent)
      → IsStreamed o e
      → IsStreamed o (emit c o now e event).entry
  unfolding emit
  emit-IsStreamed now e event w =
      if-elim {A = Appended} (λ a. IsStreamed o a.entry) e.terminal _ _ (λ _. w)
        (λ _. append_event-IsStreamed c o bounded now e event w)

  give_up-IsStreamed :
      (now : ℕ) (e : Entry) (f : Option Error) → IsStreamed o e → IsStreamed o (give_up c o now e f)
  unfolding give_up
  give_up-IsStreamed now e none w = w
  give_up-IsStreamed now e (some f) w =
      if-elim (IsStreamed o) e.terminal _ _ (λ _. w)
        (λ _. terminate_capacity-IsStreamed c o bounded now e w)

  fall_back-IsStreamed :
      (now : ℕ) (e : Entry) (f : Option Error)
      → IsStreamed o e
      → IsStreamed o (fall_back c k o now e f)
  unfolding fall_back
  fall_back-IsStreamed now e none w = w
  fall_back-IsStreamed now e (some f) w =
      if-elim (IsStreamed o) e.terminal _ _ (λ _. w)
        (λ _. give_up-IsStreamed now _ _ (append_event-IsStreamed c o bounded now e _ w))

  pub finish_entry-IsStreamed :
      (now : ℕ) (returned : Result Error (Option Text)) (e : Entry)
      → IsStreamed o e
      → IsStreamed o (finish_entry c k o now returned e)
  unfolding finish_entry
  finish_entry-IsStreamed now returned e w =
      if-elim (IsStreamed o) e.terminal _ _ (λ _. w)
        (λ _.
          mark_terminal-IsStreamed o now _
            (fall_back-IsStreamed now _ _ (append_event-IsStreamed c o bounded now e _ w)))

  pub drain_entry-IsStreamed :
      (now : ℕ) (e : Entry) → IsStreamed o e → IsStreamed o (drain_entry c o now e)
  unfolding drain_entry
  drain_entry-IsStreamed now e w =
      if-elim (IsStreamed o) e.terminal _ _ (λ _. w)
        (λ _. mark_terminal-IsStreamed o now _ (append_event-IsStreamed c o bounded now e _ w))

  pub end_prompt-IsStreamed :
      (ref : ℕ) (e : Entry) → IsStreamed o e → IsStreamed o (end_prompt ref e)
  unfolding end_prompt
  end_prompt-IsStreamed ref e w =
      SameStream-IsStreamed o e _
        (record {
          id = ground arith;
          events = ground arith;
          event_bytes = ground arith;
          validator = ground arith;
        })
        w

  asked-IsStreamed :
      (ref : ℕ) (e : Entry) (f : Option Error) → IsStreamed o e → IsStreamed o (asked ref e f).entry
  unfolding asked
  asked-IsStreamed ref e none w = w
  asked-IsStreamed ref e (some f) w = end_prompt-IsStreamed ref e w

  ask-IsStreamed :
      (now : ℕ) (id : Text) (p : OperationPrompt) (e : Entry)
      → IsStreamed o e
      → IsStreamed o (ask c o now id p e).entry
  unfolding ask
  ask-IsStreamed now id p e w =
      let prompting : Entry = record e {
        prompt = some (record { ref = e.prompts; id = id; responded = false });
        prompts = e.prompts + 1;
      } in
      let event : OperationEvent = prompt_event (record p { id = id }) in
      asked-IsStreamed e.prompts _ (append_event c o now prompting event).failure (
        append_event-IsStreamed c o bounded now prompting event (
          SameStream-IsStreamed o e prompting
            (record { id = refl; events = refl; event_bytes = refl; validator = refl }) w))

  pub begin_prompt-IsStreamed :
      (now : ℕ) (id : Text) (p : OperationPrompt) (e : Entry)
      → IsStreamed o e
      → IsStreamed o (begin_prompt c o now id p e).entry
  unfolding begin_prompt
  begin_prompt-IsStreamed now id p e w =
      if-elim {A = Appended} (λ a. IsStreamed o a.entry) e.terminal _ _ (λ _. w)
        (λ _.
          if-elim {A = Appended} (λ a. IsStreamed o a.entry) (has_prompt e) (already_prompting e)
            (ask c o now id p e) (λ _. w) (λ _. ask-IsStreamed now id p e w))

  pub respond_to-IsStreamed :
      (r : OperationResponse) (e f : Entry)
      → respond_to r e ≡ ok f
      → IsStreamed o e
      → IsStreamed o f
  unfolding respond_to
  respond_to-IsStreamed r e f h w =
      SameStream-IsStreamed o e f
        (record {
          id = ground arith;
          events = ground arith;
          event_bytes = ground arith;
          validator = ground arith;
        })
        w

  pub subscribe_to-IsStreamed :
      (total key after : ℕ) (e f : Entry)
      → subscribe_to o total key after e ≡ ok f
      → IsStreamed o e
      → IsStreamed o f
  unfolding subscribe_to
  subscribe_to-IsStreamed total key after e f h w =
      SameStream-IsStreamed o e f
        (record {
          id = ground arith;
          events = ground arith;
          event_bytes = ground arith;
          validator = ground arith;
        })
        w

  pub remove_subscriber-IsStreamed :
      (key : ℕ) (e : Entry) → IsStreamed o e → IsStreamed o (remove_subscriber key e)
  unfolding remove_subscriber
  remove_subscriber-IsStreamed key e w =
      let removed : Entry = record e {
        subscriptions = map (remove_subscription e.terminal key) e.subscriptions;
      } in
      let fewer : Entry = record removed { subscriber_count = e.subscriber_count - 1 } in
      if-elim (IsStreamed o) (is_counted key e) (schedule_subscriber_loss fewer) removed
        (λ _. SameStream-IsStreamed o fewer _ (schedule_subscriber_loss-SameStream fewer) (
          SameStream-IsStreamed o e fewer
            (record { id = refl; events = refl; event_bytes = refl; validator = refl }) w))
        (λ _.
          SameStream-IsStreamed o e removed
            (record { id = refl; events = refl; event_bytes = refl; validator = refl }) w)

  pub loss_timer_fired-IsStreamed :
      (token : ℕ) (e : Entry) → IsStreamed o e → IsStreamed o (loss_timer_fired token e)
  unfolding loss_timer_fired
  loss_timer_fired-IsStreamed token e w =
      SameStream-IsStreamed o e _
        (record {
          id = ground arith;
          events = ground arith;
          event_bytes = ground arith;
          validator = ground arith;
        })
        w
