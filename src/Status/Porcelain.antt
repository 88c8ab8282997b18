-- ===== src/Status/Porcelain.antt =====
-- internal/status/porcelain_v2.go, with `FileState` and `FileChange` of internal/status/changes.go:
-- the parser of `git status --porcelain=v2 -z`. Text is the list of its bytes.
pub mod Format
pub mod RoundTrip
pub mod Sound
pub mod Accepted
mod Examples
use kwt.Common.{
  ℕ, zero, suc, ◌+◌, ◌-◌, ◌*◌, Bool, true, false, ◌&&◌, ◌||◌, not, Option, none, some, List, [],
  ◌∷◌, ◌++◌, if◌then◌else◌, ltb, leb, ◌==◌, ◌=?◌, Text, codes, length, take, drop, all, get_or, cut,
  split_n, Result, ok, err, ◌>>=◌, ◌>>◌,
}

-- The empty `FileState` is `unmodified`.
pub data FileState : Type 0 where
  unmodified modified added deleted renamed copied conflicted untracked : FileState

pub record FileChange : Type 0 where
  pub path : Text
  pub original_path : Text
  pub index : FileState
  pub worktree : FileState

pub data ParseError : Type 0 where
  not_terminated empty_record no_original_path : ParseError
  malformed_rename malformed_ordinary malformed_untracked malformed_unmerged : ParseError
  unknown_type unknown_state : ℕ → ParseError

abbrev pub space : ℕ
space = b' '

abbrev pub at : Text → ℕ → ℕ
at s i = get_or s i 0

abbrev pub field : List Text → ℕ → Text
field fs i = get_or fs i []

pub is_submodule : Text → Bool
is_submodule f =
    if f =? codes "N..."
    then true
    else length f == 4
      && at f 0 == b'S'
      && (at f 1 == b'.' || at f 1 == b'C')
      && (at f 2 == b'.' || at f 2 == b'M')
      && (at f 3 == b'.' || at f 3 == b'U')

pub is_mode : Text → Bool
is_mode f = if not (length f == 6) then false else all (λ d. not (ltb d b'0' || ltb b'7' d)) f

pub are_modes : List Text → Bool
unfolding is_mode
are_modes = all is_mode

is_hex : ℕ → Bool
is_hex d =
    not ((ltb d b'0' || ltb b'9' d) && (ltb d b'a' || ltb b'f' d) && (ltb d b'A' || ltb b'F' d))

pub is_object_id : Text → Bool
unfolding is_hex
is_object_id f =
    if not (length f == 40) && not (length f == 64) then false else all (λ d. is_hex d) f

pub are_object_ids : List Text → Bool
unfolding is_object_id
are_object_ids = all is_object_id

pub is_unmerged_code : Text → Bool
is_unmerged_code c =
    c =? codes "DD"
    || c =? codes "AU"
    || c =? codes "UD"
    || c =? codes "UA"
    || c =? codes "DU"
    || c =? codes "AA"
    || c =? codes "UU"

-- The loop over the digits of a score; `none` where it meets another byte.
pub score_value : ℕ → Text → Option ℕ
score_value value [] = some value
score_value value (d ∷ s) =
    let rest = score_value (value * 10 + (d - b'0')) s in
    if ltb d b'0' || ltb b'9' d then none else rest

abbrev at_most_100 : Option ℕ → Bool
at_most_100 none = false
at_most_100 (some v) = leb v 100

pub is_rename_or_copy_score : Text → Text → Bool
unfolding score_value
is_rename_or_copy_score score state =
    if ltb (length score) 2
      || ltb 4 (length score)
      || not (length state == 2)
      || (not (at score 0 == b'R') && not (at score 0 == b'C'))
      || (not (at state 0 == at score 0) && not (at state 1 == at score 0))
    then false
    else at_most_100 (score_value 0 (drop 1 score))

pub parse_state : ℕ → Result ParseError FileState
parse_state c =
    if c == b'.'
    then ok unmodified
    else if c == b'M' || c == b'T'
    then ok modified
    else if c == b'A'
    then ok added
    else if c == b'D'
    then ok deleted
    else if c == b'R'
    then ok renamed
    else if c == b'C'
    then ok copied
    else err (unknown_state c)

-- The state of the index and that of the worktree, from the two letters `xy`.
pub parse_states : Text → Text → Text → Result ParseError FileChange
unfolding parse_state
parse_states xy path original = do
  index ← parse_state (at xy 0)
  worktree ← parse_state (at xy 1)
  ok (record { path = path; original_path = original; index = index; worktree = worktree })

abbrev pub malformed_rename_fields : List Text → Text → Bool
malformed_rename_fields fs original =
    not (length fs == 10)
    || not (field fs 0 =? codes "2")
    || not (length (field fs 1) == 2)
    || not (is_submodule (field fs 2))
    || not (are_modes (take 3 (drop 3 fs)))
    || not (are_object_ids (take 2 (drop 6 fs)))
    || length (field fs 9) == 0
    || length original == 0
    || not (is_rename_or_copy_score (field fs 8) (field fs 1))

pub parse_rename_or_copy : Text → Text → Result ParseError FileChange
parse_rename_or_copy line original =
    let fs = split_n space 10 line in
    if malformed_rename_fields fs original
    then err malformed_rename
    else parse_states (field fs 1) (field fs 9) original

abbrev pub malformed_ordinary_fields : List Text → Bool
malformed_ordinary_fields fs =
    not (length fs == 9)
    || not (field fs 0 =? codes "1")
    || not (length (field fs 1) == 2)
    || not (is_submodule (field fs 2))
    || not (are_modes (take 3 (drop 3 fs)))
    || not (are_object_ids (take 2 (drop 6 fs)))
    || length (field fs 8) == 0

pub parse_ordinary : Text → Result ParseError FileChange
parse_ordinary line =
    let fs = split_n space 9 line in
    if malformed_ordinary_fields fs
    then err malformed_ordinary
    else parse_states (field fs 1) (field fs 8) []

pub parse_untracked : Text → Result ParseError FileChange
parse_untracked line =
    if ltb (length line) 3 || not (at line 1 == space)
    then err malformed_untracked
    else ok (record {
      path = drop 2 line;
      original_path = [];
      index = unmodified;
      worktree = untracked;
    })

abbrev pub malformed_unmerged_fields : List Text → Bool
malformed_unmerged_fields fs =
    not (length fs == 11)
    || not (field fs 0 =? codes "u")
    || not (is_unmerged_code (field fs 1))
    || not (is_submodule (field fs 2))
    || not (are_modes (take 4 (drop 3 fs)))
    || not (are_object_ids (take 3 (drop 7 fs)))
    || length (field fs 10) == 0

pub parse_unmerged : Text → Result ParseError FileChange
parse_unmerged line =
    let fs = split_n space 11 line in
    if malformed_unmerged_fields fs
    then err malformed_unmerged
    else ok (record {
      path = field fs 10;
      original_path = [];
      index = conflicted;
      worktree = conflicted;
    })

pub parse_record : Text → Result ParseError FileChange
parse_record line =
    if at line 0 == b'1'
    then parse_ordinary line
    else if at line 0 == b'?'
    then parse_untracked line
    else if at line 0 == b'u'
    then parse_unmerged line
    else err (unknown_type (at line 0))

-- What one round of the loop does with a record: it reads on behind the original path, appends a
-- change, goes on, or fails. `rest` is the input behind the record.
pub data Round : Type 0 where
  found : FileChange → Text → Round
  skipped : Text → Round
  failed : ParseError → Round

abbrev pub found_or_failed : Text → Result ParseError FileChange → Round
found_or_failed rest (ok c) = found c rest
found_or_failed rest (err e) = failed e

rename_round : Text → Option (Text × Text) → Round
rename_round line none = failed no_original_path
rename_round line (some (original, rest)) =
    found_or_failed rest (parse_rename_or_copy line original)

pub round_of : Text → Text → Round
round_of line rest =
    if length line == 0
    then failed empty_record
    else if at line 0 == b'2'
    then rename_round line (cut 0 rest)
    else if at line 0 == b'1' || at line 0 == b'?' || at line 0 == b'u'
    then found_or_failed rest (parse_record line)
    else skipped rest

cut_round : Option (Text × Text) → Round
cut_round none = failed not_terminated
cut_round (some (line, rest)) = round_of line rest

pub next_round : Text → Round
unfolding cut_round
next_round input = cut_round (cut 0 input)

-- The loop, with fuel for its rounds; `none` where it runs out.
pub parse_loop : ℕ → Text → List FileChange → Option (Result ParseError (List FileChange))
parse_loop fuel [] changes = some (ok changes)
parse_loop zero (c ∷ input) changes = none
parse_loop (suc fuel) (c ∷ input) changes = elim (next_round (c ∷ input)) [
  | found change rest ↦ parse_loop fuel rest (changes ++ change ∷ [])
  | skipped rest ↦ parse_loop fuel rest changes
  | failed e ↦ some (err e)
]

-- A round takes a byte at least, so the input's length is fuel enough.
pub parse_change_porcelain_v2 : Text → Option (Result ParseError (List FileChange))
parse_change_porcelain_v2 input = parse_loop (length input) input []
