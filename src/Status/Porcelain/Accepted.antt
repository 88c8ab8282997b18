-- ===== src/Status/Porcelain/Accepted.antt =====
-- What the parser accepts.
use kwt.Common.{
  ℕ, zero, suc, ◌≡◌, ◌≢◌, refl, ap, ◌⊎◌, inl, inr, Bool, true, false, Option, none, some, List, [],
  ◌∷◌, ◌++◌, arith, Text, length, All, All-append, if◌then◌else◌, subst, ltb, ◌||◌, not,
  Option-cases, Result, ok, err, ◌>>=◌, split_n, ◌==◌, cut,
}
use kwt.Status.Porcelain.{
  FileChange, ParseError, FileState, unmodified, renamed, copied, conflicted, untracked, space,
  parse_rename_or_copy, parse_ordinary, parse_untracked, parse_unmerged, parse_record, Round, found,
  skipped, failed, round_of, next_round, found_or_failed, rename_round, parse_loop,
  parse_change_porcelain_v2, parse_states, parse_state, is_rename_or_copy_score,
  malformed_rename_fields, malformed_ordinary_fields, malformed_unmerged_fields, at, field,
}
use kwt.Status.Porcelain.Sound.{after_round, parse_loop-suc}

abbrev pub IsMoved : FileState → Type 0
IsMoved s = (s ≡ renamed) ⊎ (s ≡ copied)

-- A path is named; a conflict shows on both sides; only the worktree side can be untracked; and an
-- original path comes with a side that is renamed or copied.
pub record IsSound (c : FileChange) : Type 0 where
  pub path : c.path ≢ []
  pub conflict_left : c.index ≡ conflicted → c.worktree ≡ conflicted
  pub conflict_right : c.worktree ≡ conflicted → c.index ≡ conflicted
  pub index : c.index ≢ untracked
  pub moved : c.original_path ≢ [] → IsMoved c.index ⊎ IsMoved c.worktree

map_sum {ℓ} : {A B C D : Type ℓ} → (A → C) → (B → D) → A ⊎ B → C ⊎ D
map_sum f g (inl a) = inl (f a)
map_sum f g (inr b) = inr (g b)

abbrev IsTracked : ℕ → FileState → Type 0
IsTracked b s = (s ≢ conflicted) × (s ≢ untracked) × ((b ≡ b'R') ⊎ (b ≡ b'C') → IsMoved s)

parse_state-IsTracked : (b : ℕ) (s : FileState) → parse_state b ≡ ok s → IsTracked b s
unfolding parse_state
parse_state-IsTracked b s h = (ground arith, ground arith, λ e. ground arith)

abbrev SoundResult : Result ParseError FileChange → Type 0
SoundResult (ok c) = IsSound c
SoundResult (err e) = Unit {0}

states_sound :
    (x y : ℕ) (p o : Text) (r s : Result ParseError FileState)
    → parse_state x ≡ r
    → parse_state y ≡ s
    → p ≢ []
    → (o ≢ [] → ((x ≡ b'R') ⊎ (x ≡ b'C')) ⊎ ((y ≡ b'R') ⊎ (y ≡ b'C')))
    → SoundResult
        (do i ← r; w ← s; ok (record { path = p; original_path = o; index = i; worktree = w }))
states_sound x y p o (err e) s h k named moves = tt
states_sound x y p o (ok i) (err e) h k named moves = tt
states_sound x y p o (ok i) (ok w) h k named moves =
    let (a, b, c) = parse_state-IsTracked x i h in
    let (d, e, f) = parse_state-IsTracked y w k in
    record {
      path = named;
      conflict_left = λ q. absurd (a q);
      conflict_right = λ q. absurd (d q);
      index = b;
      moved = λ q. map_sum c f (moves q);
    }

parse_states_sound :
    (xy p o : Text)
    → p ≢ []
    → (o ≢ [] → ((at xy 0 ≡ b'R') ⊎ (at xy 0 ≡ b'C')) ⊎ ((at xy 1 ≡ b'R') ⊎ (at xy 1 ≡ b'C')))
    → SoundResult (parse_states xy p o)
unfolding parse_states
parse_states_sound xy p o named moves =
    states_sound (at xy 0) (at xy 1) p o (parse_state (at xy 0)) (parse_state (at xy 1)) refl refl
      named moves

not_empty : (p : Text) → (length p == 0) ≡ false → p ≢ []
not_empty p h e = cc (ap (λ (q : Text). length q == 0) e)

-- A score that passes names a rename or a copy in one of the two states.
score_names :
    (score state : Text)
    → is_rename_or_copy_score score state ≡ true
    → ((at state 0 ≡ b'R') ⊎ (at state 0 ≡ b'C')) ⊎ ((at state 1 ≡ b'R') ⊎ (at state 1 ≡ b'C'))
unfolding is_rename_or_copy_score
score_names score state h = ground arith

rename_fields_sound :
    (fs : List Text) (o : Text)
    → malformed_rename_fields fs o ≡ false
    → SoundResult (parse_states (field fs 1) (field fs 9) o)
rename_fields_sound fs o h =
    parse_states_sound (field fs 1) (field fs 9) o (not_empty (field fs 9) (ground arith))
      (λ _. score_names (field fs 8) (field fs 1) (ground arith))

unless_sound :
    (b : Bool) (e : ParseError) (r : Result ParseError FileChange)
    → (b ≡ false → SoundResult r)
    → SoundResult (if b then err e else r)
unless_sound true e r h = tt
unless_sound false e r h = h refl

rename_sound : (line o : Text) → SoundResult (parse_rename_or_copy line o)
unfolding parse_rename_or_copy
rename_sound line o =
    unless_sound (malformed_rename_fields (split_n space 10 line) o) _ _
      (rename_fields_sound (split_n space 10 line) o)

ordinary_sound : (line : Text) → SoundResult (parse_ordinary line)
unfolding parse_ordinary
ordinary_sound line =
    let fs = split_n space 9 line in
    unless_sound (malformed_ordinary_fields fs) _ _ (λ h.
      parse_states_sound (field fs 1) (field fs 8) [] (not_empty (field fs 8) (ground arith))
        (λ q. absurd (q refl)))

untracked_fields_sound :
    (c d : ℕ) (p : Text)
    → p ≢ []
    → SoundResult
        (ok (record { path = p; original_path = []; index = unmodified; worktree = untracked }))
untracked_fields_sound c d p h = record {
  path = h;
  conflict_left = λ q. cc;
  conflict_right = λ q. cc;
  index = λ q. cc;
  moved = λ q. absurd (q refl);
}

untracked_sound : (line : Text) → SoundResult (parse_untracked line)
unfolding parse_untracked
untracked_sound [] = tt
untracked_sound (c ∷ []) = tt
untracked_sound (c ∷ d ∷ []) = tt
untracked_sound (c ∷ d ∷ x ∷ p) =
    unless_sound (ltb (length (c ∷ d ∷ x ∷ p)) 3 || not (d == space)) _ _
      (λ _. untracked_fields_sound c d (x ∷ p) (λ q. cc))

unmerged_sound : (line : Text) → SoundResult (parse_unmerged line)
unfolding parse_unmerged
unmerged_sound line =
    let fs = split_n space 11 line in
    unless_sound (malformed_unmerged_fields fs) _ _ (λ h. record {
      path = not_empty (field fs 10) (ground arith);
      conflict_left = λ q. refl;
      conflict_right = λ q. refl;
      index = λ q. cc;
      moved = λ q. absurd (q refl);
    })

record_sound : (line : Text) → SoundResult (parse_record line)
unfolding parse_record
record_sound line = ground (arith, ordinary_sound line, untracked_sound line, unmerged_sound line)

abbrev SoundRound : Round → Type 0
SoundRound (found c rest) = IsSound c
SoundRound (skipped rest) = Unit {0}
SoundRound (failed e) = Unit {0}

found_or_failed-SoundRound :
    (rest : Text) (r : Result ParseError FileChange)
    → SoundResult r
    → SoundRound (found_or_failed rest r)
found_or_failed-SoundRound rest (ok c) h = h
found_or_failed-SoundRound rest (err e) h = tt

rename_round-SoundRound :
    (line : Text) (o : Option (Text × Text)) → SoundRound (rename_round line o)
unfolding rename_round
rename_round-SoundRound line none = tt
rename_round-SoundRound line (some (o, rest)) =
    found_or_failed-SoundRound rest (parse_rename_or_copy line o) (rename_sound line o)

round_of-SoundRound : (line rest : Text) → SoundRound (round_of line rest)
unfolding round_of
round_of-SoundRound line rest = ground (
  arith,
  rename_round-SoundRound line (cut 0 rest),
  found_or_failed-SoundRound rest (parse_record line) (record_sound line),
)

next_round-SoundRound : (s : Text) → SoundRound (next_round s)
unfolding next_round
next_round-SoundRound s = elim (Option-cases (cut 0 s)) [
  | inl e ↦ rw e tt
  | inr ((line, rest), e) ↦ rw e (round_of-SoundRound line rest)
]

abbrev AllSound : Option (Result ParseError (List FileChange)) → Type 0
AllSound none = Unit {0}
AllSound (some (ok cs)) = All IsSound cs
AllSound (some (err e)) = Unit {0}

after_round-AllSound :
    (fuel : ℕ) (done : List FileChange) (r : Round)
    → ((s : Text) (cs : List FileChange) → All IsSound cs → AllSound (parse_loop fuel s cs))
    → All IsSound done
    → SoundRound r
    → AllSound (after_round fuel done r)
after_round-AllSound fuel done (found c rest) ih h k =
    ih rest (done ++ c ∷ []) (All-append IsSound done (c ∷ []) h (k, tt))
after_round-AllSound fuel done (skipped rest) ih h k = ih rest done h
after_round-AllSound fuel done (failed e) ih h k = tt

loop-AllSound :
    (fuel : ℕ) (s : Text) (cs : List FileChange) → All IsSound cs → AllSound (parse_loop fuel s cs)
loop-AllSound zero [] cs h = unfold parse_loop in h
loop-AllSound zero (c ∷ s) cs h = unfold parse_loop in tt
loop-AllSound (suc fuel) [] cs h = unfold parse_loop in h
loop-AllSound (suc fuel) (c ∷ s) cs h = rw (parse_loop-suc fuel c s cs) (
    after_round-AllSound fuel cs (next_round (c ∷ s)) (loop-AllSound fuel) h
      (next_round-SoundRound (c ∷ s)))

-- Whatever the input, each change of a list that the parser returns has a path; it is conflicted on
-- both sides or on none; its index side is not untracked; and it has an original path only if one
-- of its sides is renamed or copied.
pub parse-ok-All-IsSound :
    (input : Text) (cs : List FileChange)
    → parse_change_porcelain_v2 input ≡ some (ok cs)
    → All IsSound cs
unfolding parse_change_porcelain_v2
parse-ok-All-IsSound input cs h = subst AllSound h (loop-AllSound (length input) input [] tt)
