-- ===== src/Status/Changes.antt =====
-- internal/status/changes.go: the files of a change set, one for each path, and their summary.
-- `sort.Slice` is an insertion sort: the paths are distinct, so that any sort gives the same.
pub mod Paths
pub mod Counts
mod Examples
use kwt.Common.{
  ℕ, zero, suc, ◌+◌, ◌≡◌, Bool, true, false, ◌&&◌, ◌||◌, not, Option, none, some, List, [], ◌∷◌,
  ◌++◌, Text, if◌then◌else◌, ◌=?◌, ◌==◌, ltb, length, Result, ok, err, ◌>>=◌, ◌>>◌, require,
}
use kwt.Status.Porcelain.{
  FileState, unmodified, modified, added, deleted, renamed, copied, conflicted, untracked,
  FileChange,
}

pub data CoalesceError : Type 0 where
  incompatible_index incompatible_worktree incompatible_original : Text → CoalesceError

abbrev state_number : FileState → ℕ
state_number unmodified = 0
state_number modified = 1
state_number added = 2
state_number deleted = 3
state_number renamed = 4
state_number copied = 5
state_number conflicted = 6
state_number untracked = 7

abbrev pub is_state : FileState → FileState → Bool
is_state a b = state_number a == state_number b

abbrev is_set : FileState → Bool
is_set s = not (is_state s unmodified)

abbrev or_state : FileState → FileState → FileState
or_state a b = if is_set a then a else b

-- A later file of the same path.
pub merge : FileChange → FileChange → Result CoalesceError FileChange
merge current file = do
  require
      (not (is_set current.index && is_set file.index && not (is_state current.index file.index)))
      (incompatible_index file.path)
  require
      (not (
        is_set current.worktree
        && is_set file.worktree
        && not (is_state current.worktree file.worktree)))
      (incompatible_worktree file.path)
  require
      (not (
        not (length current.original_path == 0)
        && not (length file.original_path == 0)
        && not (current.original_path =? file.original_path)))
      (incompatible_original file.path)
  ok (record current {
    index = or_state current.index file.index;
    worktree = or_state current.worktree file.worktree;
    original_path =
        if length current.original_path == 0 then file.original_path else current.original_path;
  })

-- The file that `byPath` leads to is the one with the path.
pub add_file : FileChange → List FileChange → Result CoalesceError (List FileChange)
unfolding merge
add_file file [] = ok (file ∷ [])
add_file file (c ∷ cs) =
    let later = add_file file cs in
    if c.path =? file.path
    then (do merged ← merge c file; ok (merged ∷ cs))
    else (do rest ← later; ok (c ∷ rest))

coalesce_loop : List FileChange → List FileChange → Result CoalesceError (List FileChange)
unfolding add_file
coalesce_loop coalesced [] = ok coalesced
coalesce_loop coalesced (f ∷ fs) = do next ← add_file f coalesced; coalesce_loop next fs

pub coalesce_file_changes : List FileChange → Result CoalesceError (List FileChange)
unfolding coalesce_loop
coalesce_file_changes files = coalesce_loop [] files

pub data ChangeState : Type 0 where
  clean locally_modified staged conflicts_left : ChangeState

pub record ChangeSummary : Type 0 where
  pub modified_files : ℕ
  pub added_files : ℕ
  pub deleted_files : ℕ
  pub untracked_files : ℕ
  pub staged_files : ℕ
  pub conflicts : ℕ

pub record ChangeSet : Type 0 where
  pub state : ChangeState
  pub summary : ChangeSummary
  pub files : List FileChange

abbrev either_is : FileState → FileChange → Bool
either_is s f = is_state f.index s || is_state f.worktree s

-- The first of the states, by their priority, that a side has.
abbrev pub primary_file_state : FileChange → FileState
primary_file_state f =
    if either_is conflicted f
    then conflicted
    else if either_is untracked f
    then untracked
    else if either_is added f
    then added
    else if either_is deleted f
    then deleted
    else if either_is renamed f
    then renamed
    else if either_is copied f
    then copied
    else if either_is modified f
    then modified
    else unmodified

-- The bytes' order.
text_less : Text → Text → Bool
text_less s [] = false
text_less [] (d ∷ t) = true
text_less (c ∷ s) (d ∷ t) = if ltb c d then true else c == d && text_less s t

abbrev comes_before : FileChange → FileChange → Bool
comes_before a b =
    if a.path =? b.path then text_less a.original_path b.original_path else text_less a.path b.path

pub insert_file : FileChange → List FileChange → List FileChange
unfolding text_less
insert_file f [] = f ∷ []
insert_file f (g ∷ gs) = if comes_before g f then g ∷ insert_file f gs else f ∷ g ∷ gs

pub sort_files : List FileChange → List FileChange
unfolding insert_file
sort_files [] = []
sort_files (f ∷ fs) = insert_file f (sort_files fs)

abbrev pub is_staged : FileChange → Bool
is_staged f = is_set f.index && not (is_state f.index conflicted)

abbrev pub count_staged : FileChange → ChangeSummary → ChangeSummary
count_staged f s = if is_staged f then record s { staged_files = s.staged_files + 1 } else s

count_state : FileState → ChangeSummary → ChangeSummary
count_state conflicted s = record s { conflicts = s.conflicts + 1 }
count_state untracked s = record s { untracked_files = s.untracked_files + 1 }
count_state added s = record s { added_files = s.added_files + 1 }
count_state deleted s = record s { deleted_files = s.deleted_files + 1 }
count_state unmodified s = s
count_state _ s = record s { modified_files = s.modified_files + 1 }

count_files : List FileChange → ChangeSummary → ChangeSummary
unfolding count_state
count_files [] s = s
count_files (f ∷ fs) s = count_files fs (count_state (primary_file_state f) (count_staged f s))

abbrev pub no_changes : ChangeSummary
no_changes = record {
  modified_files = 0;
  added_files = 0;
  deleted_files = 0;
  untracked_files = 0;
  staged_files = 0;
  conflicts = 0;
}

abbrev state_of : ChangeSummary → ℕ → ChangeState
state_of s files =
    if ltb 0 s.conflicts
    then conflicts_left
    else if ltb 0 s.staged_files
    then staged
    else if ltb 0 files
    then locally_modified
    else clean

pub derive_change_set : List FileChange → ChangeSet
unfolding sort_files count_files
derive_change_set files =
    let ordered = sort_files files in
    let summary = count_files ordered no_changes in
    record { state = state_of summary (length ordered); summary = summary; files = ordered }
