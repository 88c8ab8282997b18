-- ===== src/Status/Porcelain/Sound.antt =====
-- The loop of the parser: rounds get shorter inputs, so it ends; and what it accepts.
use kwt.Common.{
  ℕ, zero, suc, ◌≤◌, ◌<◌, ◌≡◌, ◌≢◌, refl, inl, inr, Option, some, List, [], ◌∷◌, ◌++◌, arith, Text,
  length, Option-cases, Result, ok, err, cut, cut-length,
}
use kwt.Status.Porcelain.{
  FileChange, ParseError, parse_rename_or_copy, parse_record, Round, found, skipped, failed,
  round_of, next_round, found_or_failed, rename_round, parse_loop, parse_change_porcelain_v2,
}

-- What is left behind a round.
abbrev Shorter : ℕ → Round → Type 0
Shorter n (found c rest) = length rest < n
Shorter n (skipped rest) = length rest < n
Shorter n (failed e) = Unit {0}

found_or_failed-Shorter :
    (n : ℕ) (rest : Text) (r : Result ParseError FileChange)
    → length rest < n
    → Shorter n (found_or_failed rest r)
found_or_failed-Shorter n rest (ok c) h = h
found_or_failed-Shorter n rest (err e) h = tt

rename_round-Shorter :
    (line rest : Text) (n : ℕ) → length rest < n → Shorter n (rename_round line (cut 0 rest))
rename_round-Shorter line rest n h = elim (Option-cases (cut 0 rest)) [
  | inl e ↦ rw e (unfold rename_round in tt)
  | inr ((o, rest'), e) ↦ rw e (
      unfold rename_round in
      found_or_failed-Shorter n rest' (parse_rename_or_copy line o)
        (omega (arith, cut-length 0 rest o rest' e)))
]

round_of-Shorter : (line rest : Text) (n : ℕ) → length rest < n → Shorter n (round_of line rest)
unfolding round_of
round_of-Shorter line rest n h =
    ground
      (arith, rename_round-Shorter line rest n, found_or_failed-Shorter n rest (parse_record line))

pub next_round-Shorter : (c : ℕ) (s : Text) → Shorter (suc (length s)) (next_round (c ∷ s))
unfolding next_round
next_round-Shorter c s = elim (Option-cases (cut 0 (c ∷ s))) [
  | inl e ↦ rw e tt
  | inr ((line, rest), e) ↦ rw e (
      round_of-Shorter line rest (suc (length s)) (omega (arith, cut-length 0 (c ∷ s) line rest e)))
]

-- Input that is left, and fuel for it: the loop makes a round.
abbrev pub after_round : ℕ → List FileChange → Round → Option (Result ParseError (List FileChange))
after_round fuel changes (found c rest) = parse_loop fuel rest (changes ++ c ∷ [])
after_round fuel changes (skipped rest) = parse_loop fuel rest changes
after_round fuel changes (failed e) = some (err e)

pub parse_loop-suc :
    (fuel c : ℕ) (s : Text) (changes : List FileChange)
    → parse_loop (suc fuel) (c ∷ s) changes ≡ after_round fuel changes (next_round (c ∷ s))
unfolding parse_loop
parse_loop-suc fuel c s changes = ground arith

pub parse_loop_step :
    (fuel : ℕ) (s : Text) (changes : List FileChange)
    → s ≢ []
    → parse_loop (suc fuel) s changes ≡ after_round fuel changes (next_round s)
parse_loop_step fuel [] changes h = absurd (h refl)
parse_loop_step fuel (c ∷ s) changes h = parse_loop-suc fuel c s changes

abbrev Returns : Option (Result ParseError (List FileChange)) → Type 0
Returns o = (r : Result ParseError (List FileChange)) × (o ≡ some r)

after_total :
    (fuel n : ℕ) (changes : List FileChange) (r : Round)
    → ((s : Text) (done : List FileChange) → length s ≤ fuel → Returns (parse_loop fuel s done))
    → n ≤ suc fuel
    → Shorter n r
    → Returns (after_round fuel changes r)
after_total fuel n changes (found c rest) ih h k = ih rest (changes ++ c ∷ []) (omega arith)
after_total fuel n changes (skipped rest) ih h k = ih rest changes (omega arith)
after_total fuel n changes (failed e) ih h k = (err e, refl)

loop_total :
    (fuel : ℕ) (s : Text) (changes : List FileChange)
    → length s ≤ fuel
    → Returns (parse_loop fuel s changes)
loop_total zero [] changes h = (ok changes, unfold parse_loop in refl)
loop_total zero (c ∷ s) changes h = absurd (omega arith)
loop_total (suc fuel) [] changes h = (ok changes, unfold parse_loop in refl)
loop_total (suc fuel) (c ∷ s) changes h = rw (parse_loop-suc fuel c s changes) (
    after_total fuel (suc (length s)) changes (next_round (c ∷ s)) (loop_total fuel) h
      (next_round-Shorter c s))

-- The parser ends on every input, with a list of changes or an error.
pub parse_total :
    (input : Text)
    → (r : Result ParseError (List FileChange)) × (parse_change_porcelain_v2 input ≡ some r)
unfolding parse_change_porcelain_v2
parse_total input = loop_total (length input) input [] (omega arith)
