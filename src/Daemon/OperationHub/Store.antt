-- ===== src/Daemon/OperationHub/Store.antt =====
-- The store of entries: the lookups of internal/daemon/operation.go and its pruning.
pub mod Keeping
pub mod Pruning
use kwt.Common.{
  ℕ, zero, suc, ◌+◌, ◌-◌, ◌≡◌, Bool, true, false, ◌&&◌, ◌||◌, not, Option, none, some, List, [],
  ◌∷◌, ◌++◌, map, Text, codes, if◌then◌else◌, ◌=?◌, ◌==◌, ltb, leb, length, keep, count, all, any,
  Result, ok, err, ◌>>=◌, ◌>>◌, require, is_space,
}
use kwt.Service.{
  Error, Descriptor, new_error, wrapped, plain, conflict, invalid_request, not_found,
  operation_id_conflict, operation_capacity_exhausted, operation_outcome_unknown, daemon_draining,
  no_details, drain_deadline,
}
use kwt.Service.Operation.{
  OperationEvent, OperationEventKind, progress, warning, prompt, complete, OperationPrompt,
  OperationResponse, OperationStreamValidator, StreamError, validate_operation_response,
  new_validator,
}
use kwt.Daemon.Problem.{Clock}
use kwt.Daemon.OperationEvent.{Codec, RetainedEvent}
use kwt.Daemon.OperationHub.Types.{Options, Subscription, Entry, Hub, new_hub, with_defaults}

-- The entry that the map holds under an id.
unfoldable pub find_entry : Text → List Entry → Option Entry
find_entry id [] = none
find_entry id (e ∷ es) = if e.listed && e.id =? id then some e else find_entry id es

-- The entry that a pointer leads to.
unfoldable pub entry_at : ℕ → List Entry → Option Entry
entry_at ref [] = none
entry_at ref (e ∷ es) = if e.ref == ref then some e else entry_at ref es

abbrev pub update_one : ℕ → (Entry → Entry) → Entry → Entry
update_one ref f e = if e.ref == ref then f e else e

abbrev pub update : ℕ → (Entry → Entry) → Hub → Hub
update ref f h = record h { entries = map (update_one ref f) h.entries }

abbrev pub is_completed : Entry → Bool
is_completed e = e.listed && e.terminal

unfoldable pub completed_count : List Entry → ℕ
completed_count es = count is_completed es

abbrev pub older : Option Entry → Entry → Entry
older none e = e
older (some e) f = if ltb f.completed_at e.completed_at then f else e

-- The completed entry without a worker that completed first.
unfoldable pub find_oldest : Option Entry → List Entry → Option Entry
find_oldest so_far [] = so_far
find_oldest so_far (e ∷ es) =
    find_oldest (if is_completed e && not e.worker_active then some (older so_far e) else so_far) es

-- `delete(h.operations, id)`.
unfoldable pub unlist : Text → Entry → Entry
unlist id e = if e.listed && e.id =? id then record e { listed = false } else e

unfoldable pub prune_oldest : (List Entry → List Entry) → List Entry → Option Entry → List Entry
unfolding unlist
prune_oldest again es none = es
prune_oldest again es (some oldest) = again (map (unlist oldest.id) es)

-- The loop of `pruneCompletedLocked`, with fuel for its rounds; a round takes one entry at least out
-- of the map.
unfoldable pub prune_completed_loop : ℕ → ℕ → List Entry → List Entry
unfolding prune_oldest completed_count find_oldest
prune_completed_loop zero most es = es
prune_completed_loop (suc fuel) most es =
    if leb (completed_count es) most
    then es
    else prune_oldest (prune_completed_loop fuel most) es (find_oldest none es)

unfoldable pub prune_completed : Hub → Hub
unfolding prune_completed_loop
prune_completed h = record h {
  entries = prune_completed_loop (length h.entries) h.options.max_completed h.entries;
}

unfoldable pub prune_expired : ℕ → ℕ → Entry → Entry
prune_expired now retention e =
    if e.listed && e.terminal && not e.worker_active && leb (e.completed_at + retention) now
    then record e { listed = false }
    else e

-- `pruneLocked`.
unfoldable pub prune : ℕ → Hub → Hub
unfolding prune_completed prune_expired
prune now h =
    prune_completed
      (record h { entries = map (prune_expired now h.options.completed_retention) h.entries })

-- A step on an entry, and the pruning of `markTerminalLocked` where the step completed it.
unfoldable pub after_step : ℕ → (Entry → Entry) → Hub → Hub
unfolding prune_completed
after_step ref f h = elim (entry_at ref h.entries) [
  | none ↦ h
  | some e ↦
      if not e.terminal && (f e).terminal then prune_completed (update ref f h) else update ref f h
]
