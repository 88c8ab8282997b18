-- ===== src/Daemon/OperationHub/Store/Keeping.antt =====
-- What holds of all entries, and the store's functions that keep it.
use kwt.Common.{
  ℕ, zero, suc, ◌+◌, ◌≡◌, subst, false, ◌&&◌, not, Option, none, some, List, [], ◌∷◌, map, Text,
  if◌then◌else◌, ◌==◌, ◌=?◌, leb, length, All, arith, if-elim,
}
use kwt.Daemon.OperationHub.Types.{Options, Entry, Hub}
use kwt.Daemon.OperationHub.Store.{
  find_entry, entry_at, update_one, update, completed_count, find_oldest, unlist, prune_oldest,
  prune_completed_loop, prune_completed, prune_expired, prune, after_step,
}

All-map :
    {A : Type 0} (P : A → Type 0) (f : A → A) (xs : List A)
    → ((a : A) → P a → P (f a))
    → All P xs
    → All P (map f xs)
All-map P f [] h hs = tt
All-map P f (x ∷ xs) h hs = (h x hs.0, All-map P f xs h hs.1)

module _ (P : Entry → Type 0) where
  update_one-kept :
      (ref : ℕ) (f : Entry → Entry)
      → ((e : Entry) → P e → P (f e))
      → (e : Entry) → P e
      → P (update_one ref f e)
  update_one-kept ref f h e v = if-elim P (e.ref == ref) (f e) e (λ _. h e v) (λ _. v)

  pub find_entry-kept :
      (id : Text) (es : List Entry) (e : Entry) → find_entry id es ≡ some e → All P es → P e
  unfolding find_entry
  find_entry-kept id [] e h v = ground arith
  find_entry-kept id (f ∷ es) e h v =
      if-elim {A = Option Entry} (λ o. o ≡ some e → P e) (f.listed && f.id =? id) (some f)
        (find_entry id es) (λ _ s. subst (found_in (some f)) s v.0)
        (λ _ s. find_entry-kept id es e s v.1) h
    where
      found_in : Option Entry → Option Entry → Type 0
      found_in a none = P e
      found_in a (some x) = P x

-- The hub has its options, and all its entries have the property.
abbrev pub AllHold : Options → (Entry → Type 0) → Hub → Type 0
AllHold o P h = (h.options ≡ o) × All P h.entries

module _ (o : Options) (P : Entry → Type 0)
    (unlisted : (e : Entry) → P e → P (record e { listed = false })) where
  abbrev Holds : Hub → Type 0
  Holds = AllHold o P

  pub update-Holds :
      (ref : ℕ) (f : Entry → Entry) (h : Hub)
      → ((e : Entry) → P e → P (f e))
      → Holds h
      → Holds (update ref f h)
  update-Holds ref f h keeps (options, v) =
      (options, All-map P (update_one ref f) h.entries (update_one-kept P ref f keeps) v)

  unlist-kept : (id : Text) (e : Entry) → P e → P (unlist id e)
  unfolding unlist
  unlist-kept id e v = if-elim P (e.listed && e.id =? id) _ e (λ _. unlisted e v) (λ _. v)

  prune_expired-kept : (now retention : ℕ) (e : Entry) → P e → P (prune_expired now retention e)
  unfolding prune_expired
  prune_expired-kept now retention e v =
      if-elim P
        (e.listed && e.terminal && not e.worker_active && leb (e.completed_at + retention) now)
        (record e { listed = false }) e (λ _. unlisted e v) (λ _. v)

  prune_oldest-All :
      (again : List Entry → List Entry) (es : List Entry) (x : Option Entry)
      → ((fs : List Entry) → All P fs → All P (again fs))
      → All P es
      → All P (prune_oldest again es x)
  unfolding prune_oldest
  prune_oldest-All again es none rest v = v
  prune_oldest-All again es (some oldest) rest v =
      rest (map (unlist oldest.id) es) (All-map P (unlist oldest.id) es (unlist-kept oldest.id) v)

  prune_completed_loop-All :
      (fuel most : ℕ) (es : List Entry) → All P es → All P (prune_completed_loop fuel most es)
  unfolding prune_completed_loop
  prune_completed_loop-All zero most es v = v
  prune_completed_loop-All (suc fuel) most es v =
      if-elim (All P) (leb (completed_count es) most) es _ (λ _. v)
        (λ _.
          prune_oldest-All (prune_completed_loop fuel most) es (find_oldest none es)
            (λ fs. prune_completed_loop-All fuel most fs) v)

  prune_completed-Holds : (h : Hub) → Holds h → Holds (prune_completed h)
  unfolding prune_completed
  prune_completed-Holds h (options, v) =
      (options, prune_completed_loop-All (length h.entries) h.options.max_completed h.entries v)

  pub prune-Holds : (now : ℕ) (h : Hub) → Holds h → Holds (prune now h)
  unfolding prune
  prune-Holds now h (options, v) =
      let retention : ℕ = h.options.completed_retention in
      let expired : Hub = record h { entries = map (prune_expired now retention) h.entries } in
      prune_completed-Holds expired (
        options,
        All-map P (prune_expired now retention) h.entries (prune_expired-kept now retention) v,
      )

  pub after_step-Holds :
      (ref : ℕ) (f : Entry → Entry) (h : Hub)
      → ((e : Entry) → P e → P (f e))
      → Holds h
      → Holds (after_step ref f h)
  unfolding after_step
  after_step-Holds ref f h keeps v =
      elim (entry_at ref h.entries)
        as (λ x. Holds (elim x [
          | none ↦ h
          | some e ↦
              if not e.terminal && (f e).terminal
              then prune_completed (update ref f h)
              else update ref f h
        ])) [
          | none ↦ v
          | some e ↦
              if-elim Holds (not e.terminal && (f e).terminal) (prune_completed (update ref f h))
                (update ref f h)
                (λ _. prune_completed-Holds (update ref f h) (update-Holds ref f h keeps v))
                (λ _. update-Holds ref f h keeps v)
        ]
