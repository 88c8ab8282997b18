-- ===== src/Daemon/OperationHub/Starts/Keeping.antt =====
-- What `Start` keeps of all entries.
use kwt.Common.{
  ℕ, zero, suc, ◌≡◌, refl, sym, subst, Option, none, some, Text, if◌then◌else◌, ◌==◌, length,
  All-append, arith, Result, ok, err, ◌⊎◌, inl, inr,
}
use kwt.Service.{Error}
use kwt.Service.Operation.{OperationStreamValidator, StreamError, new_validator}
use kwt.Daemon.Problem.{Clock}
use kwt.Daemon.OperationEvent.{Codec}
use kwt.Daemon.OperationHub.Types.{Options, Entry, Hub}
use kwt.Daemon.OperationHub.Store.{find_entry, prune}
use kwt.Daemon.OperationHub.Starts.{
  OperationStart, Started, enter, reserved, start_new, existing_or_new, with_id, start_loop, start,
}
use kwt.Daemon.OperationHub.Invariants.{Kept}
use kwt.Daemon.OperationHub.Store.Keeping.{AllHold, prune-Holds}

-- Where the hub of `start_new` comes from, and of the functions around it.
start_new-hub :
    (h : Hub) (s : OperationStart) (id : Text) (r : Option (Result Error ℕ))
    → ((start_new h s id r).hub ≡ h) ⊎ (start_new h s id r ≡ reserved h id s.request_digest r)
unfolding start_new
start_new-hub h s id r = ground arith

existing_or_new-hub :
    (h : Hub) (s : OperationStart) (id : Text) (r : Option (Result Error ℕ)) (again : Started)
    (e : Entry)
    → ((existing_or_new h s id r again (some e)).hub ≡ h)
      ⊎ (existing_or_new h s id r again (some e) ≡ again)
unfolding existing_or_new
existing_or_new-hub h s id r again e = ground arith

with_id-hub :
    (now : ℕ) (h : Hub) (s : OperationStart) (r : Option (Result Error ℕ)) (again : Started)
    (id : Text)
    → ((with_id now h s r again (ok id)).hub ≡ h)
      ⊎ (with_id now h s r again (ok id)
          ≡ existing_or_new (prune now h) s id r again (find_entry id (prune now h).entries))
unfolding with_id
with_id-hub now h s r again id = ground arith

start-hub :
    (now : ℕ) (h : Hub) (s : OperationStart) (ids : ℕ → Result Error Text)
    (r : Option (Result Error ℕ))
    → ((start now h s ids r).hub ≡ h) ⊎ (start now h s ids r ≡ start_loop 4 now h s ids r)
unfolding start
start-hub now h s ids r = ground arith

module _ (c : Codec) (k : Clock) (o : Options) (P : Entry → Type 0) (kept : Kept c k o P) where
  abbrev Holds : Hub → Type 0
  Holds = AllHold o P

  enter-Holds :
      (h : Hub) (id digest : Text) (r : Option ℕ) (x : Result StreamError OperationStreamValidator)
      → new_validator id 0 ≡ x
      → Holds h
      → Holds (enter h id digest r x).hub
  unfolding enter
  enter-Holds h id digest r (err f) s v = v
  enter-Holds h id digest r (ok w) s (options, v) =
      (options, All-append P h.entries _ v (kept.on_new h id digest r w s, tt))

  reserved-Holds :
      (h : Hub) (id digest : Text) (r : Option (Result Error ℕ))
      → Holds h
      → Holds (reserved h id digest r).hub
  unfolding reserved
  reserved-Holds h id digest none v = enter-Holds h id digest none (new_validator id 0) refl v
  reserved-Holds h id digest (some (err f)) v = v
  reserved-Holds h id digest (some (ok r)) v =
      enter-Holds h id digest (some r) (new_validator id 0) refl v

  start_new-Holds :
      (h : Hub) (s : OperationStart) (id : Text) (r : Option (Result Error ℕ))
      → Holds h
      → Holds (start_new h s id r).hub
  start_new-Holds h s id r v = elim (start_new-hub h s id r) [
    | inl same ↦ subst Holds (sym same) v
    | inr new ↦ subst (λ x. Holds x.hub) (sym new) (reserved-Holds h id s.request_digest r v)
  ]

  existing_or_new-Holds :
      (h : Hub) (s : OperationStart) (id : Text) (r : Option (Result Error ℕ)) (again : Started)
      (x : Option Entry)
      → Holds h
      → Holds again.hub
      → Holds (existing_or_new h s id r again x).hub
  existing_or_new-Holds h s id r again none v w =
      unfold existing_or_new in start_new-Holds h s id r v
  existing_or_new-Holds h s id r again (some e) v w = elim (existing_or_new-hub h s id r again e) [
    | inl same ↦ subst Holds (sym same) v
    | inr next ↦ subst (λ x. Holds x.hub) (sym next) w
  ]

  with_id-Holds :
      (now : ℕ) (h : Hub) (s : OperationStart) (r : Option (Result Error ℕ)) (again : Started)
      (x : Result Error Text)
      → Holds h
      → Holds again.hub
      → Holds (with_id now h s r again x).hub
  with_id-Holds now h s r again (err f) v w = unfold with_id in v
  with_id-Holds now h s r again (ok id) v w = elim (with_id-hub now h s r again id) [
    | inl same ↦ subst Holds (sym same) v
    | inr next ↦
        subst (λ x. Holds x.hub) (sym next)
          (existing_or_new-Holds (prune now h) s id r again (find_entry id (prune now h).entries)
            (prune-Holds o P kept.on_unlist now h v) w)
  ]

  start_loop-Holds :
      (attempts now : ℕ) (h : Hub) (s : OperationStart) (ids : ℕ → Result Error Text)
      (r : Option (Result Error ℕ))
      → Holds h
      → Holds (start_loop attempts now h s ids r).hub
  unfolding start_loop
  start_loop-Holds zero now h s ids r v = v
  start_loop-Holds (suc attempts) now h s ids r v =
      with_id-Holds now h s r (start_loop attempts now (prune now h) s ids r)
        (if length s.id == 0 then ids attempts else ok s.id) v
        (start_loop-Holds attempts now (prune now h) s ids r
          (prune-Holds o P kept.on_unlist now h v))

  pub start-Holds :
      (now : ℕ) (h : Hub) (s : OperationStart) (ids : ℕ → Result Error Text)
      (r : Option (Result Error ℕ))
      → Holds h
      → Holds (start now h s ids r).hub
  start-Holds now h s ids r v = elim (start-hub now h s ids r) [
    | inl same ↦ subst Holds (sym same) v
    | inr next ↦ subst (λ x. Holds x.hub) (sym next) (start_loop-Holds 4 now h s ids r v)
  ]
