-- ===== src/Status/Changes/Counts.antt =====
-- The summary of a change set.
use kwt.Common.{
  ℕ, suc, ◌+◌, ◌<◌, ◌≤◌, ◌≡◌, ◌↔◌, refl, ap, subst, ◌∙◌, Bool, true, false, List, [], ◌∷◌, length,
  count, arith, Bool-cases, inl, inr, ltb, ◌==◌, ◌&&◌, if◌then◌else◌,
}
use kwt.Status.Porcelain.{
  FileState, unmodified, modified, added, deleted, renamed, copied, conflicted, untracked,
  FileChange,
}
use kwt.Status.Changes.{
  clean, staged, conflicts_left, count_staged, ChangeSummary, primary_file_state, insert_file,
  sort_files, is_staged, count_staged, count_state, count_files, no_changes, derive_change_set,
}

-- The states in the order in which one side of a file hides the other's.
abbrev pub rank : FileState → ℕ
rank unmodified = 0
rank modified = 1
rank copied = 2
rank renamed = 3
rank deleted = 4
rank added = 5
rank untracked = 6
rank conflicted = 7

abbrev larger : ℕ → ℕ → ℕ
larger a b = if ltb a b then b else a

-- The rank of the side that shows.
abbrev pub file_rank : FileChange → ℕ
file_rank f = larger (rank f.index) (rank f.worktree)

abbrev pub is_ranked : FileState → FileChange → Bool
is_ranked s f = file_rank f == rank s

-- Modified, renamed or copied.
abbrev pub is_edited : FileChange → Bool
is_edited f = ltb 0 (file_rank f) && ltb (file_rank f) 4

-- A state of the index other than a conflict.
abbrev pub is_indexed : FileChange → Bool
is_indexed f = ltb 0 (rank f.index) && ltb (rank f.index) 7

-- The state that shows is the one with the larger rank.
primary-rank :
    (f : FileChange) (i w : FileState)
    → f.index ≡ i
    → f.worktree ≡ w
    → rank (primary_file_state f) ≡ larger (rank i) (rank w)
primary-rank f unmodified w p q = ground (arith, p, q)
primary-rank f modified w p q = ground (arith, p, q)
primary-rank f added w p q = ground (arith, p, q)
primary-rank f deleted w p q = ground (arith, p, q)
primary-rank f renamed w p q = ground (arith, p, q)
primary-rank f copied w p q = ground (arith, p, q)
primary-rank f conflicted w p q = ground (arith, p, q)
primary-rank f untracked w p q = ground (arith, p, q)

is_staged-indexed : (f : FileChange) → is_staged f ≡ is_indexed f
is_staged-indexed f = ground arith

count-insert_file :
    (p : FileChange → Bool) (f : FileChange) (fs : List FileChange)
    → count p (insert_file f fs) ≡ count p (f ∷ fs)
unfolding insert_file
count-insert_file p f [] = refl
count-insert_file p f (g ∷ gs) = ground (arith, count-insert_file p f gs)

count-sort_files :
    (p : FileChange → Bool) (fs : List FileChange) → count p (sort_files fs) ≡ count p fs
unfolding sort_files
count-sort_files p [] = refl
count-sort_files p (f ∷ fs) =
    ground (arith, count-insert_file p f (sort_files fs), count-sort_files p fs)

abbrev one_if : Bool → ℕ
one_if true = 1
one_if false = 0

-- A file of a rank is counted under one heading, or under none where it has no state.
abbrev IsCounted : ℕ → ChangeSummary → ChangeSummary → Type 0
IsCounted k s t =
    (t.conflicts ≡ s.conflicts + one_if (k == 7))
    × (t.untracked_files ≡ s.untracked_files + one_if (k == 6))
    × (t.added_files ≡ s.added_files + one_if (k == 5))
    × (t.deleted_files ≡ s.deleted_files + one_if (k == 4))
    × (t.modified_files ≡ s.modified_files + one_if (ltb 0 k && ltb k 4))
    × (t.staged_files ≡ s.staged_files)

count_state_lem : (t : FileState) (s : ChangeSummary) → IsCounted (rank t) s (count_state t s)
unfolding count_state
count_state_lem unmodified s = omega arith
count_state_lem modified s = omega arith
count_state_lem added s = omega arith
count_state_lem deleted s = omega arith
count_state_lem renamed s = omega arith
count_state_lem copied s = omega arith
count_state_lem conflicted s = omega arith
count_state_lem untracked s = omega arith

count_staged_lem :
    (f : FileChange) (s : ChangeSummary)
    → count_staged f s ≡ record s { staged_files = s.staged_files + one_if (is_indexed f) }
count_staged_lem f s = elim (Bool-cases (is_indexed f)) [
  | inl is ↦ rw (is_staged-indexed f, is) refl
  | inr isnt ↦ ground (arith, is_staged-indexed f, isnt)
]

abbrev pub AllCounted : List FileChange → ChangeSummary → ChangeSummary → Type 0
AllCounted fs s t =
    (t.conflicts ≡ s.conflicts + count (is_ranked conflicted) fs)
    × (t.untracked_files ≡ s.untracked_files + count (is_ranked untracked) fs)
    × (t.added_files ≡ s.added_files + count (is_ranked added) fs)
    × (t.deleted_files ≡ s.deleted_files + count (is_ranked deleted) fs)
    × (t.modified_files ≡ s.modified_files + count is_edited fs)
    × (t.staged_files ≡ s.staged_files + count is_indexed fs)

count_cons :
    (p : FileChange → Bool) (f : FileChange) (fs : List FileChange)
    → count p (f ∷ fs) ≡ one_if (p f) + count p fs
count_cons p f fs = elim (Bool-cases (p f)) [
  | inl is ↦ rw is (omega arith)
  | inr isnt ↦ rw isnt (omega arith)
]

count_files_lem : (fs : List FileChange) (s : ChangeSummary) → AllCounted fs s (count_files fs s)
unfolding count_files
count_files_lem [] s = omega arith
count_files_lem (f ∷ fs) s =
    let once : ChangeSummary = count_staged f s in
    let staged_once = count_staged_lem f s in
    let twice : ChangeSummary = count_state (primary_file_state f) once in
    let (c, u, a, d, m, n) = count_files_lem fs twice in
    let (c', u', a', d', m', n') =
      subst (λ k. IsCounted k once twice) (primary-rank f f.index f.worktree refl refl)
        (count_state_lem (primary_file_state f) once) in
    (
      c
          ∙ omega (
            arith,
            c',
            ap (λ t. t.conflicts) staged_once,
            count_cons (is_ranked conflicted) f fs,
          ),
      u
          ∙ omega (
            arith,
            u',
            ap (λ t. t.untracked_files) staged_once,
            count_cons (is_ranked untracked) f fs,
          ),
      a ∙ omega (arith, a', ap (λ t. t.added_files) staged_once, count_cons (is_ranked added) f fs),
      d
          ∙ omega (
            arith,
            d',
            ap (λ t. t.deleted_files) staged_once,
            count_cons (is_ranked deleted) f fs,
          ),
      m ∙ omega (arith, m', ap (λ t. t.modified_files) staged_once, count_cons is_edited f fs),
      n ∙ omega (arith, n', ap (λ t. t.staged_files) staged_once, count_cons is_indexed f fs),
    )

count-bound : (p : FileChange → Bool) (fs : List FileChange) → count p fs ≤ length fs
count-bound p [] = omega arith
count-bound p (f ∷ fs) = ground (arith, count-bound p fs)

length-insert_file :
    (f : FileChange) (fs : List FileChange) → length (insert_file f fs) ≡ suc (length fs)
unfolding insert_file
length-insert_file f [] = refl
length-insert_file f (g ∷ gs) = ground (arith, length-insert_file f gs)

length-sort_files : (fs : List FileChange) → length (sort_files fs) ≡ length fs
unfolding sort_files
length-sort_files [] = refl
length-sort_files (f ∷ fs) = length-insert_file f (sort_files fs) ∙ ap suc (length-sort_files fs)

-- The summary of a change set counts each file under the heading of the state that shows, which is the
-- one of its two sides with the larger rank: conflicted, untracked, added, deleted, or one of renamed,
-- copied and modified together. A file is staged if its index has a state other than a conflict. No
-- file is lost, and all are in the set's list as often as in the input. The set is conflicted exactly
-- when a file is, else staged exactly when a file is, and clean exactly when there is no file.
pub derive_change_set-counts :
    (p : FileChange → Bool) (files : List FileChange)
    → let d = derive_change_set files in
      AllCounted files no_changes d.summary
      × (count p d.files ≡ count p files)
      × (length d.files ≡ length files)
      × ((d.state ≡ conflicts_left) ↔ (0 < count (is_ranked conflicted) files))
      × ((d.state ≡ staged)
          ↔ ((count (is_ranked conflicted) files ≡ 0) × (0 < count is_indexed files)))
      × ((d.state ≡ clean) ↔ (length files ≡ 0))
unfolding derive_change_set
derive_change_set-counts p files =
    let sorted : List FileChange = sort_files files in
    let (c, u, a, d, m, n) = count_files_lem sorted no_changes in
    let conflicts : (count_files sorted no_changes).conflicts ≡ count (is_ranked conflicted) files =
      omega (arith, c, count-sort_files (is_ranked conflicted) files) in
    let stages : (count_files sorted no_changes).staged_files ≡ count is_indexed files =
      omega (arith, n, count-sort_files is_indexed files) in
    (
      (
        omega (arith, conflicts),
        omega (arith, u, count-sort_files (is_ranked untracked) files),
        omega (arith, a, count-sort_files (is_ranked added) files),
        omega (arith, d, count-sort_files (is_ranked deleted) files),
        omega (arith, m, count-sort_files is_edited files),
        omega (arith, stages),
      ),
      count-sort_files p files,
      length-sort_files files,
      ground (arith, conflicts),
      ground (arith, conflicts, stages),
      ground (
        arith,
        conflicts,
        stages,
        length-sort_files files,
        count-bound (is_ranked conflicted) files,
        count-bound is_indexed files,
      ),
    )
