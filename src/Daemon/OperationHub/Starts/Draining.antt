-- ===== src/Daemon/OperationHub/Starts/Draining.antt =====
-- A hub that is draining starts no operation.
use kwt.Common.{
  ℕ, zero, suc, ◌≡◌, refl, sym, ap, ◌∙◌, inl, inr, Bool, true, false, Option, none, some, List, [],
  ◌∷◌, Text, if◌then◌else◌, length, map, ◌==◌, ◌=?◌, eq_sound, leb, not, codes, if-elim, Bool-cases,
  arith, ok_inj, Result, ok, err,
}
use kwt.Service.{Error, plain}
use kwt.Daemon.OperationHub.Types.{Entry, Hub}
use kwt.Daemon.OperationHub.Store.{
  unlist, prune_oldest, prune_completed_loop, prune_completed, prune_expired, prune, find_entry,
  find_oldest, completed_count,
}
use kwt.Daemon.OperationHub.Starts.{
  OperationStart, Started, start_new, existing_or_new, valid_operation_id, with_id, start_loop,
  start, refuse, bad_id,
}

-- The operations that a hub has, those that have left the map with them.
abbrev pub operations : Hub → List ℕ
operations h = map (λ e. e.ref) h.entries

-- What a start without an error returns: the operation that the hub has under the id that was asked
-- for, with the request's digest.
abbrev pub IsExisting : OperationStart → Hub → Result Error (ℕ × Bool) → Type 0
IsExisting s h (err f) = Unit
IsExisting s h (ok (ref, is_new)) =
    (is_new ≡ false)
    × (e : Entry) × (find_entry s.id h.entries ≡ some e)
    × (e.ref ≡ ref)
    × (e.request_digest ≡ s.request_digest)

abbrev IsNoStart : Hub → OperationStart → Started → Type 0
IsNoStart h s r = (operations r.hub ≡ operations h) × IsExisting s r.hub r.outcome

map-refs :
    (f : Entry → Entry) (es : List Entry)
    → ((e : Entry) → (f e).ref ≡ e.ref)
    → map (λ e. e.ref) (map f es) ≡ map (λ e. e.ref) es
map-refs f [] h = refl
map-refs f (e ∷ es) h = ground (arith, h e, map-refs f es h)

unlist-ref : (id : Text) (e : Entry) → (unlist id e).ref ≡ e.ref
unfolding unlist
unlist-ref id e = ground arith

prune_oldest-refs :
    (again : List Entry → List Entry) (es : List Entry) (x : Option Entry)
    → ((fs : List Entry) → map (λ e. e.ref) (again fs) ≡ map (λ e. e.ref) fs)
    → map (λ e. e.ref) (prune_oldest again es x) ≡ map (λ e. e.ref) es
unfolding prune_oldest
prune_oldest-refs again es none h = refl
prune_oldest-refs again es (some old) h =
    h (map (unlist old.id) es) ∙ map-refs (unlist old.id) es (unlist-ref old.id)

prune_completed_loop-refs :
    (fuel most : ℕ) (es : List Entry)
    → map (λ e. e.ref) (prune_completed_loop fuel most es) ≡ map (λ e. e.ref) es
unfolding prune_completed_loop
prune_completed_loop-refs zero most es = refl
prune_completed_loop-refs (suc fuel) most es = elim (Bool-cases (leb (completed_count es) most)) [
  | inl t ↦ rw t refl
  | inr f ↦ rw f (
      prune_oldest-refs (prune_completed_loop fuel most) es (find_oldest none es)
        (prune_completed_loop-refs fuel most))
]

prune_expired-ref : (now retention : ℕ) (e : Entry) → (prune_expired now retention e).ref ≡ e.ref
unfolding prune_expired
prune_expired-ref now retention e = ground arith

prune-operations : (now : ℕ) (h : Hub) → operations (prune now h) ≡ operations h
unfolding prune prune_completed prune_expired
prune-operations now h =
    prune_completed_loop-refs
      (length (map (prune_expired now h.options.completed_retention) h.entries))
      h.options.max_completed (map (prune_expired now h.options.completed_retention) h.entries)
    ∙ map-refs (prune_expired now h.options.completed_retention) h.entries
        (λ e. prune_expired-ref now h.options.completed_retention e)

start_new-IsNoStart :
    (h : Hub) (s : OperationStart) (id : Text) (r : Option (Result Error ℕ))
    → h.draining ≡ true
    → IsNoStart h s (start_new h s id r)
unfolding start_new
start_new-IsNoStart h s id r d = elim (Bool-cases s.has_run) [
  | inl t ↦ rw (t, d) (refl, tt)
  | inr f ↦ rw f (refl, tt)
]

existing_or_new-IsNoStart :
    (h : Hub) (s : OperationStart) (id : Text) (r : Option (Result Error ℕ)) (again : Started)
    (x : Option Entry)
    → h.draining ≡ true
    → ((length s.id == 0) ≡ false → id ≡ s.id)
    → find_entry id h.entries ≡ x
    → IsNoStart h s again
    → IsNoStart h s (existing_or_new h s id r again x)
existing_or_new-IsNoStart h s id r again none d i f w =
    unfold existing_or_new in start_new-IsNoStart h s id r d
existing_or_new-IsNoStart h s id r again (some e) d i f w =
    unfold existing_or_new in
    elim (Bool-cases (length s.id == 0)) [
      | inl t ↦ rw t w
      | inr n ↦ elim (Bool-cases (e.request_digest =? s.request_digest)) [
        | inl same ↦
            rw (n, same)
              (
                refl,
                (
                  refl,
                  e,
                  ap (λ k. find_entry k h.entries) (sym (i n)) ∙ f,
                  refl,
                  eq_sound e.request_digest s.request_digest same,
                ),
              )
        | inr other ↦ rw (n, other) (refl, tt)
      ]
    ]

prune-draining : (now : ℕ) (h : Hub) → (prune now h).draining ≡ h.draining
unfolding prune prune_completed
prune-draining now h = refl

with_id-IsNoStart :
    (now : ℕ) (h : Hub) (s : OperationStart) (r : Option (Result Error ℕ)) (again : Started)
    (x : Result Error Text)
    → h.draining ≡ true
    → ((length s.id == 0) ≡ false → x ≡ ok s.id)
    → IsNoStart h s again
    → IsNoStart h s (with_id now h s r again x)
unfolding with_id
with_id-IsNoStart now h s r again (err f) d i w = (refl, tt)
with_id-IsNoStart now h s r again (ok id) d i w =
    let pruned = prune-operations now h in
    let (kept, found) =
      existing_or_new-IsNoStart (prune now h) s id r again (find_entry id (prune now h).entries)
        (prune-draining now h ∙ d) (λ n. ok_inj id s.id (i n)) refl (w.0 ∙ sym pruned, w.1) in
    if-elim {A = Started} (IsNoStart h s) (length id == 0)
      (refuse h (plain (codes "generated operation ID is empty"))) _ (λ _. (refl, tt))
      (λ _.
        if-elim {A = Started} (IsNoStart h s) (not (valid_operation_id id)) (refuse h bad_id) _
          (λ _. (refl, tt)) (λ _. (kept ∙ pruned, found)))

asked_or_given :
    (b : Bool) (x : Result Error Text) (id : Text) → b ≡ false → (if b then x else ok id) ≡ ok id
asked_or_given b x id h = rw h refl

start_loop-IsNoStart :
    (attempts now : ℕ) (h : Hub) (s : OperationStart) (ids : ℕ → Result Error Text)
    (r : Option (Result Error ℕ))
    → h.draining ≡ true
    → IsNoStart h s (start_loop attempts now h s ids r)
unfolding start_loop
start_loop-IsNoStart zero now h s ids r d = (refl, tt)
start_loop-IsNoStart (suc attempts) now h s ids r d =
    let (kept, found) =
      start_loop-IsNoStart attempts now (prune now h) s ids r (prune-draining now h ∙ d) in
    with_id-IsNoStart now h s r (start_loop attempts now (prune now h) s ids r)
      (if length s.id == 0 then ids attempts else ok s.id) d
      (asked_or_given (length s.id == 0) (ids attempts) s.id) (kept ∙ prune-operations now h, found)

-- While a hub drains, a start makes no operation, whatever ids are generated: the hub has the
-- operations that it had, in their order, and the start returns an error, or the operation that the
-- hub has under the requested id, which has the digest of the request and is not reported as new.
pub start-draining :
    (now : ℕ) (h : Hub) (s : OperationStart) (ids : ℕ → Result Error Text)
    (r : Option (Result Error ℕ))
    → h.draining ≡ true
    → (operations (start now h s ids r).hub ≡ operations h)
      × IsExisting s (start now h s ids r).hub (start now h s ids r).outcome
unfolding start
start-draining now h s ids r d = elim (Bool-cases (length s.request_digest == 0)) [
  | inl empty ↦ rw empty (refl, tt)
  | inr full ↦ rw full (start_loop-IsNoStart 4 now h s ids r d)
]
