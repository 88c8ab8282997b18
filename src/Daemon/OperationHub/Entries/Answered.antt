-- ===== src/Daemon/OperationHub/Entries/Answered.antt =====
-- Every step on an entry keeps it that each prompt was sent one response at most.
use kwt.Common.{
  ℕ, ◌+◌, ◌-◌, ◌≡◌, inl, refl, false, Option, none, some, map, Text, if◌then◌else◌, arith, Result,
  ok, if-elim,
}
use kwt.Service.{Error}
use kwt.Service.Operation.{OperationEvent, OperationPrompt}
use kwt.Daemon.Problem.{Clock}
use kwt.Daemon.OperationEvent.{Codec}
use kwt.Daemon.OperationHub.Types.{Options, Entry}
use kwt.Daemon.OperationHub.Events.{Appended, append_event, mark_terminal, schedule_subscriber_loss}
use kwt.Daemon.OperationHub.Events.Prompts.{
  KeepsPrompt, KeepsPrompt_trans, schedule_subscriber_loss-KeepsPrompt, mark_terminal-KeepsPrompt,
  terminate_capacity-KeepsPrompt, append_event-KeepsPrompt,
}
use kwt.Daemon.OperationHub.Entries.{
  emit, give_up, fallback_event, fall_back, outcome_event, finish_entry, drain_event, drain_entry,
  end_prompt, asked, ask, has_prompt, already_prompting, prompt_event, begin_prompt, subscribe_to,
  remove_subscription, remove_subscriber, is_counted, loss_timer_fired,
}
use kwt.Daemon.OperationHub.Entries.Answers.{
  IsAnswered, KeepsPrompt-IsAnswered, end_prompt-KeepsPrompt, asked-KeepsPrompt,
  prompting-IsAnswered,
}

module _ (c : Codec) (k : Clock) (o : Options) where
  emit-KeepsPrompt :
      (now : ℕ) (e : Entry) (event : OperationEvent) → KeepsPrompt e (emit c o now e event).entry
  unfolding emit
  emit-KeepsPrompt now e event = ground (arith, append_event-KeepsPrompt c o now e event)

  pub emit-IsAnswered :
      (now : ℕ) (e : Entry) (event : OperationEvent)
      → IsAnswered e
      → IsAnswered (emit c o now e event).entry
  emit-IsAnswered now e event w =
      KeepsPrompt-IsAnswered e (emit c o now e event).entry (emit-KeepsPrompt now e event) w

  give_up-KeepsPrompt :
      (now : ℕ) (e : Entry) (f : Option Error) → KeepsPrompt e (give_up c o now e f)
  unfolding give_up
  give_up-KeepsPrompt now e none = (refl, refl, inl refl)
  give_up-KeepsPrompt now e (some f) = ground (arith, terminate_capacity-KeepsPrompt c o now e)

  fall_back-KeepsPrompt :
      (now : ℕ) (e : Entry) (f : Option Error) → KeepsPrompt e (fall_back c k o now e f)
  unfolding fall_back
  fall_back-KeepsPrompt now e none = (refl, refl, inl refl)
  fall_back-KeepsPrompt now e (some f) =
      let again : Appended = append_event c o now e (fallback_event k f) in
      let ended : Entry = give_up c o now again.entry again.failure in
      if-elim (KeepsPrompt e) e.terminal e ended (λ _. (refl, refl, inl refl))
        (λ _.
          KeepsPrompt_trans e again.entry ended
            (append_event-KeepsPrompt c o now e (fallback_event k f))
            (give_up-KeepsPrompt now again.entry again.failure))

  finish_entry-KeepsPrompt :
      (now : ℕ) (returned : Result Error (Option Text)) (e : Entry)
      → KeepsPrompt e (finish_entry c k o now returned e)
  unfolding finish_entry
  finish_entry-KeepsPrompt now returned e =
      let first : Appended = append_event c o now e (outcome_event k returned) in
      let ended : Entry = fall_back c k o now first.entry first.failure in
      if-elim (KeepsPrompt e) e.terminal e (mark_terminal now ended) (λ _. (refl, refl, inl refl))
        (λ _.
          KeepsPrompt_trans e ended (mark_terminal now ended)
            (KeepsPrompt_trans e first.entry ended
              (append_event-KeepsPrompt c o now e (outcome_event k returned))
              (fall_back-KeepsPrompt now first.entry first.failure))
            (mark_terminal-KeepsPrompt now ended))

  pub finish_entry-IsAnswered :
      (now : ℕ) (returned : Result Error (Option Text)) (e : Entry)
      → IsAnswered e
      → IsAnswered (finish_entry c k o now returned e)
  finish_entry-IsAnswered now returned e w =
      KeepsPrompt-IsAnswered e (finish_entry c k o now returned e)
        (finish_entry-KeepsPrompt now returned e) w

  drain_entry-KeepsPrompt : (now : ℕ) (e : Entry) → KeepsPrompt e (drain_entry c o now e)
  unfolding drain_entry
  drain_entry-KeepsPrompt now e =
      let ended : Entry = (append_event c o now e drain_event).entry in
      if-elim (KeepsPrompt e) e.terminal e (mark_terminal now ended) (λ _. (refl, refl, inl refl))
        (λ _.
          KeepsPrompt_trans e ended (mark_terminal now ended)
            (append_event-KeepsPrompt c o now e drain_event) (mark_terminal-KeepsPrompt now ended))

  pub drain_entry-IsAnswered :
      (now : ℕ) (e : Entry) → IsAnswered e → IsAnswered (drain_entry c o now e)
  drain_entry-IsAnswered now e w =
      KeepsPrompt-IsAnswered e (drain_entry c o now e) (drain_entry-KeepsPrompt now e) w

  ask-IsAnswered :
      (now : ℕ) (id : Text) (p : OperationPrompt) (e : Entry)
      → IsAnswered e
      → IsAnswered (ask c o now id p e).entry
  unfolding ask
  ask-IsAnswered now id p e w =
      let prompting : Entry = record e {
        prompt = some (record { ref = e.prompts; id = id; responded = false });
        prompts = e.prompts + 1;
      } in
      let event : OperationEvent = prompt_event (record p { id = id }) in
      let sent : Appended = append_event c o now prompting event in
      KeepsPrompt-IsAnswered prompting (asked e.prompts sent.entry sent.failure).entry
        (KeepsPrompt_trans prompting sent.entry (asked e.prompts sent.entry sent.failure).entry
          (append_event-KeepsPrompt c o now prompting event)
          (asked-KeepsPrompt e.prompts sent.entry sent.failure))
        (prompting-IsAnswered e id w)

  pub begin_prompt-IsAnswered :
      (now : ℕ) (id : Text) (p : OperationPrompt) (e : Entry)
      → IsAnswered e
      → IsAnswered (begin_prompt c o now id p e).entry
  unfolding begin_prompt
  begin_prompt-IsAnswered now id p e w =
      if-elim {A = Appended} (λ a. IsAnswered a.entry) e.terminal _
        (if has_prompt e then already_prompting e else ask c o now id p e) (λ _. w)
        (λ _.
          if-elim {A = Appended} (λ a. IsAnswered a.entry) (has_prompt e) (already_prompting e)
            (ask c o now id p e) (λ _. w) (λ _. ask-IsAnswered now id p e w))

  pub end_prompt-IsAnswered : (ref : ℕ) (e : Entry) → IsAnswered e → IsAnswered (end_prompt ref e)
  end_prompt-IsAnswered ref e w =
      KeepsPrompt-IsAnswered e (end_prompt ref e) (end_prompt-KeepsPrompt ref e) w

  pub subscribe_to-IsAnswered :
      (total key after : ℕ) (e f : Entry)
      → subscribe_to o total key after e ≡ ok f
      → IsAnswered e
      → IsAnswered f
  unfolding subscribe_to
  subscribe_to-IsAnswered total key after e f h w =
      KeepsPrompt-IsAnswered e f (ground arith, ground arith, inl (ground arith)) w

  pub remove_subscriber-IsAnswered :
      (key : ℕ) (e : Entry) → IsAnswered e → IsAnswered (remove_subscriber key e)
  unfolding remove_subscriber
  remove_subscriber-IsAnswered key e w =
      let removed : Entry = record e {
        subscriptions = map (remove_subscription e.terminal key) e.subscriptions;
      } in
      let fewer : Entry = record removed { subscriber_count = e.subscriber_count - 1 } in
      if-elim IsAnswered (is_counted key e) (schedule_subscriber_loss fewer) removed
        (λ _.
          KeepsPrompt-IsAnswered fewer (schedule_subscriber_loss fewer)
            (schedule_subscriber_loss-KeepsPrompt fewer) w)
        (λ _. w)

  pub loss_timer_fired-IsAnswered :
      (token : ℕ) (e : Entry) → IsAnswered e → IsAnswered (loss_timer_fired token e)
  unfolding loss_timer_fired
  loss_timer_fired-IsAnswered token e w =
      KeepsPrompt-IsAnswered e (loss_timer_fired token e)
        (ground arith, ground arith, inl (ground arith)) w
