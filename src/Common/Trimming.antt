-- ===== src/Common/Trimming.antt =====
-- Trimming a text twice.
use Prim.Native.Nat.{ℕ}
use mathlib.Core.Path.{◌≡◌, refl, ap, ◌∙◌}
use mathlib.Core.Bool.{false}
use mathlib.Core.List.{[], ◌∷◌}
use kwt.Common.Tests.{if◌then◌else◌, if-elim}
use kwt.Common.Strings.{Text}
use kwt.Common.Bytes.{is_space, trim_left, trim_right, trim_space}

abbrev pub FirstIsNoSpace : Text → Type 0
FirstIsNoSpace [] = Unit
FirstIsNoSpace (c ∷ s) = is_space c ≡ false

trim_left-FirstIsNoSpace : (s : Text) → FirstIsNoSpace (trim_left s)
unfolding trim_left
trim_left-FirstIsNoSpace [] = tt
trim_left-FirstIsNoSpace (c ∷ s) =
    if-elim FirstIsNoSpace (is_space c) (trim_left s) (c ∷ s) (λ _. trim_left-FirstIsNoSpace s)
      (λ h. h)

pub trim_left_first : (s : Text) → FirstIsNoSpace s → trim_left s ≡ s
unfolding trim_left
trim_left_first [] h = refl
trim_left_first (c ∷ s) h = rw h refl

abbrev pub ended : ℕ → Text → Text
ended c [] = if is_space c then [] else c ∷ []
ended c (d ∷ r) = c ∷ d ∷ r

pub trim_right-cons : (c : ℕ) (s : Text) → trim_right (c ∷ s) ≡ ended c (trim_right s)
unfolding trim_right
trim_right-cons c s = step (trim_right s)
  where
    step :
        (r : Text)
        → (elim r [ [] ↦ if is_space c then [] else c ∷ [] | d ∷ q ↦ c ∷ d ∷ q ]) ≡ ended c r
    step [] = refl
    step (d ∷ q) = refl

ended-first : (c : ℕ) (r : Text) → is_space c ≡ false → FirstIsNoSpace (ended c r)
ended-first c [] h = rw h h
ended-first c (d ∷ r) h = h

trim_right-FirstIsNoSpace : (s : Text) → FirstIsNoSpace s → FirstIsNoSpace (trim_right s)
unfolding trim_right
trim_right-FirstIsNoSpace [] h = h
trim_right-FirstIsNoSpace (c ∷ s) h = rw (trim_right-cons c s) (ended-first c (trim_right s) h)

trim_right-ended : (c : ℕ) (r : Text) → trim_right r ≡ r → trim_right (ended c r) ≡ ended c r
unfolding trim_right
trim_right-ended c [] h =
    if-elim (λ r. trim_right r ≡ r) (is_space c) [] (c ∷ []) (λ _. refl) (λ e. rw e refl)
trim_right-ended c (d ∷ r) h = trim_right-cons c (d ∷ r) ∙ ap (ended c) h

pub trim_right_idem : (s : Text) → trim_right (trim_right s) ≡ trim_right s
unfolding trim_right
trim_right_idem [] = refl
trim_right_idem (c ∷ s) =
    rw (trim_right-cons c s) (trim_right-ended c (trim_right s) (trim_right_idem s))

pub trim_space_idem : (s : Text) → trim_space (trim_space s) ≡ trim_space s
unfolding trim_space
trim_space_idem s =
    ap trim_right (
      trim_left_first (trim_right (trim_left s))
        (trim_right-FirstIsNoSpace (trim_left s) (trim_left-FirstIsNoSpace s)))
    ∙ trim_right_idem (trim_left s)

pub trim_space-FirstIsNoSpace : (s : Text) → FirstIsNoSpace (trim_space s)
unfolding trim_space
trim_space-FirstIsNoSpace s = trim_right-FirstIsNoSpace (trim_left s) (trim_left-FirstIsNoSpace s)

pub trim_right-trim_space : (s : Text) → trim_right (trim_space s) ≡ trim_space s
unfolding trim_space
trim_right-trim_space s = trim_right_idem (trim_left s)

-- A text without spaces is trimmed.
pub trim_right-ended_last :
    (c : ℕ) (s : Text) → is_space c ≡ false → trim_right s ≡ s → trim_right (c ∷ s) ≡ c ∷ s
trim_right-ended_last c s h e = trim_right-cons c s ∙ (ap (ended c) e ∙ ended_last c s h)
  where
    ended_last : (d : ℕ) (t : Text) → is_space d ≡ false → ended d t ≡ d ∷ t
    ended_last d [] k = rw k refl
    ended_last d (x ∷ t) k = refl
