-- ===== src/Daemon/OperationHub/Entries/Ended.antt =====
-- Every step on an entry keeps it that a completed stream belongs to a terminal entry.
use kwt.Common.{
  ℕ, ◌+◌, ◌-◌, ◌≡◌, ◌∙◌, refl, sym, ap, Bool, true, false, Option, none, some, map, Text,
  if◌then◌else◌, arith, ok, if-elim,
}
use kwt.Service.{Error}
use kwt.Service.Operation.{OperationEvent, OperationPrompt, OperationResponse, is_complete}
use kwt.Daemon.OperationEvent.{Codec}
use kwt.Daemon.OperationHub.Types.{Options, Entry}
use kwt.Daemon.OperationHub.Events.{Appended, append_event, schedule_subscriber_loss}
use kwt.Daemon.OperationHub.Events.Completion.{
  append_event-IsEnded, mark_terminal-terminal, schedule_subscriber_loss-end, IsEnded,
}
use kwt.Daemon.OperationHub.Entries.{
  emit, message_event, message_kind, drain_event, drain_entry, end_prompt, asked, ask, has_prompt,
  already_prompting, prompt_event, begin_prompt, respond_to, subscribe_to, remove_subscription,
  remove_subscriber, is_counted, loss_timer_fired,
}

abbrev pub SameEnd : Entry → Entry → Type 0
SameEnd e f = (f.validator ≡ e.validator) × (f.terminal ≡ e.terminal)

pub SameEnd-IsEnded : (e f : Entry) → SameEnd e f → IsEnded e → IsEnded f
SameEnd-IsEnded e f (v, t) w h = t ∙ w (ap (λ x. x.terminal) (sym v) ∙ h)

pub drain_entry-terminal :
    (c : Codec) (o : Options) (now : ℕ) (e : Entry) → (drain_entry c o now e).terminal ≡ true
unfolding drain_entry
drain_entry-terminal c o now e =
    ground (arith, mark_terminal-terminal now (append_event c o now e drain_event).entry)

message_kind_open : (warns : Bool) → is_complete (message_kind warns) ≡ false
message_kind_open true = refl
message_kind_open false = refl

pub end_prompt-SameEnd : (ref : ℕ) (e : Entry) → SameEnd e (end_prompt ref e)
unfolding end_prompt
end_prompt-SameEnd ref e = ground arith

pub respond_to-SameEnd : (r : OperationResponse) (e f : Entry) → respond_to r e ≡ ok f → SameEnd e f
unfolding respond_to
respond_to-SameEnd r e f h = ground arith

pub loss_timer_fired-SameEnd : (token : ℕ) (e : Entry) → SameEnd e (loss_timer_fired token e)
unfolding loss_timer_fired
loss_timer_fired-SameEnd token e = ground arith

pub remove_subscriber-SameEnd : (key : ℕ) (e : Entry) → SameEnd e (remove_subscriber key e)
unfolding remove_subscriber
remove_subscriber-SameEnd key e =
    let removed : Entry = record e {
      subscriptions = map (remove_subscription e.terminal key) e.subscriptions;
    } in
    let fewer : Entry = record removed { subscriber_count = e.subscriber_count - 1 } in
    if-elim (SameEnd e) (is_counted key e) (schedule_subscriber_loss fewer) removed
      (λ _. schedule_subscriber_loss-end fewer) (λ _. (refl, refl))

module _ (c : Codec) (o : Options) where
  pub subscribe_to-SameEnd :
      (total key after : ℕ) (e f : Entry) → subscribe_to o total key after e ≡ ok f → SameEnd e f
  unfolding subscribe_to
  subscribe_to-SameEnd total key after e f h = ground arith

  pub emit-IsEnded :
      (now : ℕ) (warns : Bool) (message : Text) (e : Entry)
      → IsEnded e
      → IsEnded (emit c o now e (message_event (message_kind warns) message)).entry
  unfolding emit
  emit-IsEnded now warns message e w =
      if-elim {A = Appended} (λ a. IsEnded a.entry) e.terminal _
        (append_event c o now e (message_event (message_kind warns) message)) (λ _. w)
        (λ _.
          append_event-IsEnded c o now e (message_event (message_kind warns) message)
            (message_kind_open warns) w)

  asked-IsEnded :
      (ref : ℕ) (e : Entry) (f : Option Error) → IsEnded e → IsEnded (asked ref e f).entry
  unfolding asked
  asked-IsEnded ref e none w t = w t
  asked-IsEnded ref e (some f) w t =
      SameEnd-IsEnded e (end_prompt ref e) (end_prompt-SameEnd ref e) w t

  ask-IsEnded :
      (now : ℕ) (id : Text) (p : OperationPrompt) (e : Entry)
      → IsEnded e
      → IsEnded (ask c o now id p e).entry
  unfolding ask
  ask-IsEnded now id p e w =
      let prompting : Entry = record e {
        prompt = some (record { ref = e.prompts; id = id; responded = false });
        prompts = e.prompts + 1;
      } in
      let event : OperationEvent = prompt_event (record p { id = id }) in
      let sent : Appended = append_event c o now prompting event in
      asked-IsEnded e.prompts sent.entry sent.failure
        (append_event-IsEnded c o now prompting event refl w)

  pub begin_prompt-IsEnded :
      (now : ℕ) (id : Text) (p : OperationPrompt) (e : Entry)
      → IsEnded e
      → IsEnded (begin_prompt c o now id p e).entry
  unfolding begin_prompt
  begin_prompt-IsEnded now id p e w =
      if-elim {A = Appended} (λ a. IsEnded a.entry) e.terminal _
        (if has_prompt e then already_prompting e else ask c o now id p e) (λ _. w)
        (λ _.
          if-elim {A = Appended} (λ a. IsEnded a.entry) (has_prompt e) (already_prompting e)
            (ask c o now id p e) (λ _. w) (λ _. ask-IsEnded now id p e w))
