-- ===== src/Daemon/OperationHub/Store/Pruning.antt =====
-- The bound on the completed operations that the hub retains.
use kwt.Common.{
  ℕ, zero, suc, ◌+◌, ◌<◌, ◌≤◌, ◌≡◌, ◌⊎◌, inl, inr, refl, Bool, false, ◌&&◌, not, Option, none, some,
  List, [], ◌∷◌, map, Text, length, count, All, ◌=?◌, eq_refl, leb, arith, Bool-cases, if-elim,
}
use kwt.Daemon.OperationHub.Types.{Entry, Hub}
use kwt.Daemon.OperationHub.Store.{
  is_completed, completed_count, find_oldest, unlist, prune_oldest, prune_completed_loop,
  prune_completed, older,
}

abbrev is_completed_as : Text → Entry → Bool
is_completed_as id e = is_completed e && e.id =? id

count-unlist :
    (id : Text) (es : List Entry)
    → completed_count (map (unlist id) es) + count (is_completed_as id) es ≡ completed_count es
unfolding completed_count unlist
count-unlist id [] = refl
count-unlist id (e ∷ es) = ground (arith, count-unlist id es)

older-cases :
    (so_far : Option Entry) (f : Entry) → (older so_far f ≡ f) ⊎ (so_far ≡ some (older so_far f))
older-cases none f = inl refl
older-cases (some e) f = ground arith

find_oldest-found :
    (so_far : Option Entry) (es : List Entry) (e : Entry)
    → find_oldest so_far es ≡ some e
    → (so_far ≡ some e) ⊎ (0 < count (is_completed_as e.id) es)
unfolding find_oldest
find_oldest-found so_far [] e h = inl h
find_oldest-found so_far (f ∷ es) e h = ground (
  arith,
  find_oldest-found (some (older so_far f)) es e,
  find_oldest-found so_far es e,
  older-cases so_far f,
  eq_refl e.id,
)

count-bound : (p : Entry → Bool) (es : List Entry) → count p es ≤ length es
count-bound p [] = omega arith
count-bound p (e ∷ es) = ground (arith, count-bound p es)

-- No completed operation is left that could be taken out of the map.
abbrev pub IsWorking : Entry → Type 0
IsWorking e = (is_completed e && not e.worker_active) ≡ false

find_oldest-some : (e : Entry) (es : List Entry) → find_oldest (some e) es ≡ none → ⊥
unfolding find_oldest
find_oldest-some e [] h = cc h
find_oldest-some e (f ∷ es) h =
    ground (arith, find_oldest-some (older (some e) f) es, find_oldest-some e es)

find_oldest-none : (es : List Entry) → find_oldest none es ≡ none → All IsWorking es
find_oldest-none [] h = tt
find_oldest-none (e ∷ es) h = elim (Bool-cases (is_completed e && not e.worker_active)) [
  | inl free ↦ absurd (find_oldest-some e es (unfold find_oldest in ground arith))
  | inr working ↦ (working, find_oldest-none es (unfold find_oldest in ground arith))
]

abbrev IsPruned : ℕ → List Entry → Type 0
IsPruned most es = (completed_count es ≤ most) ⊎ All IsWorking es

prune_oldest-IsPruned :
    (most : ℕ) (again : List Entry → List Entry) (es : List Entry) (x : Option Entry)
    → find_oldest none es ≡ x
    → ((fs : List Entry) → completed_count fs < completed_count es → IsPruned most (again fs))
    → IsPruned most (prune_oldest again es x)
unfolding prune_oldest
prune_oldest-IsPruned most again es none s rest = inr (find_oldest-none es s)
prune_oldest-IsPruned most again es (some oldest) s rest =
    elim (find_oldest-found none es oldest s) [
      | inl never ↦ absurd (cc never)
      | inr found ↦
          rest (map (unlist oldest.id) es) (omega (arith, found, count-unlist oldest.id es))
    ]

prune_completed_loop-IsPruned :
    (fuel most : ℕ) (es : List Entry)
    → completed_count es ≤ fuel
    → IsPruned most (prune_completed_loop fuel most es)
unfolding prune_completed_loop
prune_completed_loop-IsPruned zero most es h = inl (omega (arith, h))
prune_completed_loop-IsPruned (suc fuel) most es h =
    if-elim (IsPruned most) (leb (completed_count es) most) es
      (prune_oldest (prune_completed_loop fuel most) es (find_oldest none es))
      (λ within. inl (ground arith))
      (λ _.
        prune_oldest-IsPruned most (prune_completed_loop fuel most) es (find_oldest none es) refl
          (λ fs fewer. prune_completed_loop-IsPruned fuel most fs (omega (arith, fewer, h))))

-- The pruning ends with at most as many completed operations in the map as the hub retains, or with
-- none left that it may take out, since the workers of all completed ones are still at work.
pub prune_completed-bounded :
    (h : Hub)
    → (completed_count (prune_completed h).entries ≤ h.options.max_completed)
      ⊎ All IsWorking (prune_completed h).entries
unfolding prune_completed
prune_completed-bounded h =
    prune_completed_loop-IsPruned (length h.entries) h.options.max_completed h.entries
      (unfold completed_count in count-bound is_completed h.entries)
