-- ===== src/Daemon/OperationHub/Entrywise.antt =====
-- What every step on an entry keeps, every call on the hub keeps of all its entries.
use kwt.Common.{
  ℕ, ◌-◌, ◌≡◌, refl, sym, subst, Bool, true, false, not, Option, none, some, List, [], ◌∷◌, Text,
  ◌==◌, length, arith, Result, ok, err, if-elim, ◌⊎◌, inl, inr,
}
use kwt.Service.{Error}
use kwt.Service.Operation.{OperationPrompt, OperationResponse}
use kwt.Daemon.Problem.{Clock}
use kwt.Daemon.OperationEvent.{Codec}
use kwt.Daemon.OperationHub.Types.{Options, Entry, Hub}
use kwt.Daemon.OperationHub.Entries.{
  emit, finish_entry, drain_entry, begin_prompt, end_prompt, respond_to, subscribe_to,
  remove_subscriber, is_removable, is_counted, receive_event, loss_timer_fired, message_event,
  message_kind,
}
use kwt.Daemon.OperationHub.Store.{find_entry, entry_at, update, prune, after_step}
use kwt.Daemon.OperationHub.{
  released_at, put, respond_found, cancel_found, put_subscription, subscribe_found, closed_at,
  release_worker, finish, progress_or_warning, start_prompt, stop_prompt, respond, cancel,
  begin_drain, drain_loop, cancel_active_for_drain, subscribe, close, lose_subscribers, Call,
  starts, finishes, releases, reports, asks, stops_asking, responds, cancels, drains,
  cancels_active, subscribes, closes, receives, loses_subscribers, or_same, after_subscribe,
  is_finished_worker, step, run,
}
use kwt.Daemon.OperationHub.Invariants.{Kept}
use kwt.Daemon.OperationHub.Store.Keeping.{
  AllHold, find_entry-kept, update-Holds, prune-Holds, after_step-Holds,
}
use kwt.Daemon.OperationHub.Starts.Keeping.{start-Holds}

respond-hub :
    (id : Text) (r : OperationResponse) (h : Hub)
    → (or_same h (respond id r h) ≡ h)
      ⊎ (respond id r h ≡ respond_found r h (find_entry id h.entries))
unfolding respond
respond-hub id r h = ground arith

module _ (c : Codec) (k : Clock) (o : Options) (P : Entry → Type 0) (kept : Kept c k o P) where
  abbrev Holds : Hub → Type 0
  Holds = AllHold o P

  -- What the steps keep under the hub's own options.
  finish-Holds :
      (now ref : ℕ) (returned : Result Error (Option Text)) (h : Hub)
      → Holds h
      → Holds (finish c k now ref returned h)
  unfolding finish
  finish-Holds now ref returned h (options, v) =
      after_step-Holds o P kept.on_unlist ref _ h
        (λ e w.
          subst (λ x. P (finish_entry c k x now returned e)) (sym options)
            (kept.on_finish now returned e w))
        (options, v)

  progress_or_warning-Holds :
      (now ref : ℕ) (warns : Bool) (message : Text) (h : Hub)
      → Holds h
      → Holds (progress_or_warning c now ref warns message h)
  unfolding progress_or_warning
  progress_or_warning-Holds now ref warns message h (options, v) =
      after_step-Holds o P kept.on_unlist ref _ h
        (λ e w.
          subst (λ x. P (emit c x now e (message_event (message_kind warns) message)).entry)
            (sym options) (kept.on_emit now warns message e w))
        (options, v)

  start_prompt-Holds :
      (now ref : ℕ) (x : Result Error Text) (p : OperationPrompt) (h : Hub)
      → Holds h
      → Holds (start_prompt c now ref x p h)
  unfolding start_prompt
  start_prompt-Holds now ref (err f) p h v = v
  start_prompt-Holds now ref (ok id) p h (options, v) =
      if-elim Holds (length id == 0) h
        (after_step ref (λ e. (begin_prompt c h.options now id p e).entry) h) (λ _. (options, v))
        (λ _.
          after_step-Holds o P kept.on_unlist ref _ h
            (λ e w.
              subst (λ x. P (begin_prompt c x now id p e).entry) (sym options)
                (kept.on_prompt now id p e w))
            (options, v))

  drain_loop-Holds : (now : ℕ) (es : List Entry) (h : Hub) → Holds h → Holds (drain_loop c now es h)
  unfolding drain_loop
  drain_loop-Holds now [] h v = v
  drain_loop-Holds now (e ∷ es) h (options, v) = drain_loop-Holds now es _ (
      if-elim Holds e.listed (after_step e.ref (drain_entry c h.options now) h) h
        (λ _.
          after_step-Holds o P kept.on_unlist e.ref (drain_entry c h.options now) h
            (λ f w. subst (λ x. P (drain_entry c x now f)) (sym options) (kept.on_drain now f w))
            (options, v))
        (λ _. (options, v)))

  released_at-Holds :
      (now ref : ℕ) (h : Hub) (x : Option Entry) → Holds h → Holds (released_at now ref h x).0
  unfolding released_at
  released_at-Holds now ref h none v = v
  released_at-Holds now ref h (some e) v =
      let freed : Hub =
        update ref (λ f. record f { reservation = none; worker_active = false }) h in
      prune-Holds o P kept.on_unlist now (record freed { active = h.active - 1 })
        (update-Holds o P kept.on_unlist ref _ h kept.on_release v)

  closed_at-Holds :
      (ref key : ℕ) (h : Hub) (x : Option Entry) → Holds h → Holds (closed_at ref key h x)
  unfolding closed_at
  closed_at-Holds ref key h none v = v
  closed_at-Holds ref key h (some e) v =
      let removed : Hub = update ref (remove_subscriber key) h in
      let w : Holds removed =
        update-Holds o P kept.on_unlist ref (remove_subscriber key) h (kept.on_remove key) v in
      if-elim Holds (not (is_removable key e)) h _ (λ _. v)
        (λ _.
          if-elim Holds (is_counted key e) (record removed { subscribers = h.subscribers - 1 })
            removed (λ _. w) (λ _. w))

  put-Holds :
      (ref : ℕ) (h : Hub) (x : Result Error Entry)
      → ((e : Entry) → x ≡ ok e → P e)
      → Holds h
      → Holds (or_same h (put ref h x))
  unfolding put
  put-Holds ref h (err f) keeps v = v
  put-Holds ref h (ok e) keeps v =
      update-Holds o P kept.on_unlist ref (λ _. e) h (λ _ _. keeps e refl) v

  respond_found-Holds :
      (r : OperationResponse) (h : Hub) (id : Text) (x : Option Entry)
      → find_entry id h.entries ≡ x
      → Holds h
      → Holds (or_same h (respond_found r h x))
  unfolding respond_found
  respond_found-Holds r h id none s v = v
  respond_found-Holds r h id (some e) s (options, v) =
      put-Holds e.ref h (respond_to r e)
        (λ f t. kept.on_respond r e f t (find_entry-kept P id h.entries e s v)) (options, v)

  respond-Holds :
      (id : Text) (r : OperationResponse) (h : Hub) → Holds h → Holds (or_same h (respond id r h))
  respond-Holds id r h v = elim (respond-hub id r h) [
    | inl same ↦ subst Holds (sym same) v
    | inr next ↦
        subst (λ x. Holds (or_same h x)) (sym next)
          (respond_found-Holds r h id (find_entry id h.entries) refl v)
  ]

  cancel_found-Holds : (h : Hub) (x : Option Entry) → Holds h → Holds (or_same h (cancel_found h x))
  unfolding cancel_found
  cancel_found-Holds h none v = v
  cancel_found-Holds h (some e) v =
      if-elim Holds e.terminal h (update e.ref (λ f. record f { canceled = true }) h) (λ _. v)
        (λ _.
          update-Holds o P kept.on_unlist e.ref (λ f. record f { canceled = true }) h kept.on_cancel
            v)

  put_subscription-Holds :
      (ref : ℕ) (h g : Hub) (x : Result Error Entry)
      → ((e : Entry) → x ≡ ok e → P e)
      → Holds h
      → Holds (after_subscribe h (put_subscription ref h x))
  unfolding put_subscription
  put_subscription-Holds ref h g (err f) keeps v = v
  put_subscription-Holds ref h g (ok e) keeps v =
      update-Holds o P kept.on_unlist ref (λ _. e) h (λ _ _. keeps e refl) v

  subscribe_found-Holds :
      (after : ℕ) (h : Hub) (id : Text) (x : Option Entry)
      → find_entry id h.entries ≡ x
      → Holds h
      → Holds (after_subscribe h (subscribe_found after h x))
  unfolding subscribe_found
  subscribe_found-Holds after h id none s v = v
  subscribe_found-Holds after h id (some e) s (options, v) =
      put_subscription-Holds e.ref h h (subscribe_to h.options h.subscribers h.keys after e)
        (λ f t.
          kept.on_subscribe h.subscribers h.keys after e f
            (subst (λ x. subscribe_to x h.subscribers h.keys after e ≡ ok f) options t)
            (find_entry-kept P id h.entries e s v))
        (options, v)

  pub step-Holds : (x : Call) (h : Hub) → Holds h → Holds (step c k h x)
  unfolding step release_worker stop_prompt cancel begin_drain cancel_active_for_drain subscribe
      close lose_subscribers
  step-Holds (starts now s ids r) h v = start-Holds c k o P kept now h s ids r v
  step-Holds (finishes now ref returned) h v = finish-Holds now ref returned h v
  step-Holds (releases now ref) h v =
      if-elim Holds (is_finished_worker (entry_at ref h.entries)) _ h
        (λ _. released_at-Holds now ref h (entry_at ref h.entries) v) (λ _. v)
  step-Holds (reports now ref warns message) h v =
      progress_or_warning-Holds now ref warns message h v
  step-Holds (asks now ref id p) h v = start_prompt-Holds now ref id p h v
  step-Holds (stops_asking ref q) h v =
      update-Holds o P kept.on_unlist ref (end_prompt q) h (kept.on_end_prompt q) v
  step-Holds (responds id r) h v = respond-Holds id r h v
  step-Holds (cancels id) h v = cancel_found-Holds h (find_entry id h.entries) v
  step-Holds (drains deadline) h v =
      if-elim Holds h.draining h (record h { draining = true; drain_deadline = deadline }) (λ _. v)
        (λ _. v)
  step-Holds (cancels_active now) h v = drain_loop-Holds now h.entries h v
  step-Holds (subscribes now id after) h v =
      subscribe_found-Holds after (prune now h) id (find_entry id (prune now h).entries) refl
        (prune-Holds o P kept.on_unlist now h v)
  step-Holds (receives ref key) h v =
      update-Holds o P kept.on_unlist ref (receive_event key) h (kept.on_receive key) v
  step-Holds (closes ref key) h v = closed_at-Holds ref key h (entry_at ref h.entries) v
  step-Holds (loses_subscribers ref token) h v =
      update-Holds o P kept.on_unlist ref (loss_timer_fired token) h (kept.on_timer token) v

  pub run-Holds : (xs : List Call) (h : Hub) → Holds h → Holds (run c k h xs)
  unfolding run
  run-Holds [] h v = v
  run-Holds (x ∷ xs) h v = run-Holds xs (step c k h x) (step-Holds x h v)
