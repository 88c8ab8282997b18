-- ===== src/Status/Porcelain/RoundTrip.antt =====
-- Reading what git writes gives the changes that the lines stand for.
mod Fields
mod Lines
mod Rounds
pub use Rounds.{next_round-print_line}
use kwt.Common.{
  ℕ, zero, suc, ◌+◌, ◌≤◌, ◌≡◌, ◌≢◌, refl, ap, ◌∙◌, List, [], ◌∷◌, ◌++◌, Option, none, some, arith,
  Text, length, length-append, All, ok, append_assoc, append-nil, sym,
}
use kwt.Status.Porcelain.{FileChange, next_round, parse_loop, parse_change_porcelain_v2}
use kwt.Status.Porcelain.Format.{
  Line, IsLine, print, print_line, behind, change, changes, with_change,
}
use kwt.Status.Porcelain.Sound.{parse_loop_step, after_round}
use Rounds.{outcome}

cons-ne-nil : (xs ys : Text) (c : ℕ) → xs ++ c ∷ ys ≢ []
cons-ne-nil [] ys c e = cc
cons-ne-nil (x ∷ xs) ys c e = cc

length-print : (l : Line) (ls : List Line) → suc (length (print ls)) ≤ length (print (l ∷ ls))
unfolding print
length-print l ls = omega (
  arith,
  length-append (print_line l) (0 ∷ (behind l ++ print ls)),
  length-append (behind l) (print ls),
)

print-ne-nil : (l : Line) (ls : List Line) → print (l ∷ ls) ≢ []
unfolding print
print-ne-nil l ls = cons-ne-nil (print_line l) (behind l ++ print ls) 0

next_round-print :
    (l : Line) (ls : List Line)
    → IsLine l
    → next_round (print (l ∷ ls)) ≡ outcome (change l) (print ls)
unfolding print
next_round-print l ls h = next_round-print_line l (print ls) h

after_outcome :
    (fuel : ℕ) (rest : Text) (done cs : List FileChange) (o : Option FileChange)
    → ((before : List FileChange) → parse_loop fuel rest before ≡ some (ok (before ++ cs)))
    → after_round fuel done (outcome o rest) ≡ some (ok (done ++ with_change o cs))
after_outcome fuel rest done cs none ih = ih done
after_outcome fuel rest done cs (some c) ih =
    ih (done ++ c ∷ []) ∙ ap (λ xs. some (ok xs)) (append_assoc done (c ∷ []) cs)

loop-print :
    (fuel : ℕ) (ls : List Line) (done : List FileChange)
    → length (print ls) ≤ fuel
    → All IsLine ls
    → parse_loop fuel (print ls) done ≡ some (ok (done ++ changes ls))
loop-print zero [] done h v = unfold parse_loop print in rw append-nil
loop-print (suc fuel) [] done h v = unfold parse_loop print in rw append-nil
loop-print zero (l ∷ ls) done h v = absurd (omega (arith, length-print l ls))
loop-print (suc fuel) (l ∷ ls) done h v =
    rw (parse_loop_step fuel (print (l ∷ ls)) done (print-ne-nil l ls), next_round-print l ls v.0)
      (after_outcome fuel (print ls) done (changes ls) (change l)
        (λ before. loop-print fuel ls before (omega (arith, length-print l ls)) v.1))

-- The parser reads every output that git documents: from the lines that git writes for changed,
-- renamed or copied, unmerged and untracked paths, with headers and ignored paths among them, it
-- returns the changes that they stand for, in their order.
pub parse-print :
    (ls : List Line) → All IsLine ls → parse_change_porcelain_v2 (print ls) ≡ some (ok (changes ls))
unfolding parse_change_porcelain_v2
parse-print ls v = loop-print (length (print ls)) ls [] (omega arith) v
