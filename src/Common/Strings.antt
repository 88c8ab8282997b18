-- ===== src/Common/Strings.antt =====
-- Text as the list of its bytes (or code points), with Go's comparison of strings.
use Prim.Native.Nat.{ℕ}
use Prim.Native.Char.{code}
use Prim.Native.String.{String}
use mathlib.Core.Path.{◌≡◌, refl}
use mathlib.Core.Logic.{◌↔◌}
use mathlib.Core.Bool.{Bool, true, false}
use mathlib.Core.List.{List, [], ◌∷◌}
use native.Mathlib.Omega.{arith}
use kwt.Common.Tests.{◌==◌, if◌then◌else◌}

abbrev pub Text : Type 0
Text = List ℕ

-- The code points of a literal: its bytes, if it is ASCII.
abbrev pub codes : String → Text
codes String.[] = []
codes (String.◌∷◌ c s) = code c ∷ codes s

infix 50 ◌=?◌
unfoldable pub ◌=?◌ : Text → Text → Bool
[] =? [] = true
[] =? (y ∷ ys) = false
(x ∷ xs) =? [] = false
(x ∷ xs) =? (y ∷ ys) = if x == y then xs =? ys else false

pub eq_sound : (s t : Text) → (s =? t) ≡ true → s ≡ t
unfolding ◌=?◌
eq_sound [] [] h = refl
eq_sound [] (y ∷ ys) h = ground arith
eq_sound (x ∷ xs) [] h = ground arith
eq_sound (x ∷ xs) (y ∷ ys) h = ground (arith, eq_sound xs ys)

pub eq_refl : (s : Text) → (s =? s) ≡ true
unfolding ◌=?◌
eq_refl [] = refl
eq_refl (x ∷ xs) = ground (arith, eq_refl xs)

pub eq_complete : (s t : Text) → s ≡ t → (s =? t) ≡ true
eq_complete s t e = rw e (eq_refl t)

pub eq_iff : (s t : Text) → ((s =? t) ≡ true) ↔ (s ≡ t)
eq_iff s t = (eq_sound s t, eq_complete s t)
