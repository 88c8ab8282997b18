-- ===== src/Status/Porcelain/RoundTrip/Fields.antt =====
-- Each field of a documented line passes the parser's check, and holds no space and no NUL.
use kwt.Common.{
  ℕ, ◌≤◌, ◌<◌, ◌≡◌, ◌≢◌, refl, ap, ◌⊎◌, inl, inr, Bool, true, false, not, some, List, [], ◌∷◌,
  arith, Text, length, all, All, Lacks, All-mono, ◌=?◌, ltb, ◌||◌, ok,
}
use kwt.Status.Porcelain.{
  is_submodule, is_mode, is_object_id, is_hex, is_unmerged_code, score_value,
  is_rename_or_copy_score, parse_state,
}
use kwt.Status.Porcelain.Format.{
  Letter, still, edited, retyped, created, removed, moved, duplicated, letter, state_of, Submodule,
  not_submodule, submodule, print_submodule, IsOctal, IsMode, IsHex, IsObjectId, Unmerged, dd, au,
  ud, ua, du, aa, uu, unmerged_code, Percent, one, two, three, percent, digits, IsPercent,
  score_letter, flag,
}

pub is_submodule-print_submodule : (s : Submodule) → is_submodule (print_submodule s) ≡ true
unfolding is_submodule ◌=?◌
is_submodule-print_submodule not_submodule = refl
is_submodule-print_submodule (submodule true true true) = refl
is_submodule-print_submodule (submodule true true false) = refl
is_submodule-print_submodule (submodule true false true) = refl
is_submodule-print_submodule (submodule true false false) = refl
is_submodule-print_submodule (submodule false true true) = refl
is_submodule-print_submodule (submodule false true false) = refl
is_submodule-print_submodule (submodule false false true) = refl
is_submodule-print_submodule (submodule false false false) = refl

all_octal : (f : Text) → All IsOctal f → all (λ d. not (ltb d b'0' || ltb b'7' d)) f ≡ true
all_octal [] h = refl
all_octal (d ∷ f) h = ground (arith, all_octal f h.1)

pub is_mode-IsMode : (f : Text) → IsMode f → is_mode f ≡ true
unfolding is_mode
is_mode-IsMode f h = ground (arith, all_octal f h.1)

is_hex-IsHex : (d : ℕ) → IsHex d → is_hex d ≡ true
unfolding is_hex
is_hex-IsHex d h = ground arith

all_hex : (f : Text) → All IsHex f → all (λ d. is_hex d) f ≡ true
all_hex [] h = refl
all_hex (d ∷ f) h = ground (arith, is_hex-IsHex d h.0, all_hex f h.1)

pub is_object_id-IsObjectId : (f : Text) → IsObjectId f → is_object_id f ≡ true
unfolding is_object_id
is_object_id-IsObjectId f h = ground (arith, all_hex f h.1)

pub is_unmerged_code-unmerged_code : (u : Unmerged) → is_unmerged_code (unmerged_code u) ≡ true
unfolding is_unmerged_code ◌=?◌
is_unmerged_code-unmerged_code dd = refl
is_unmerged_code-unmerged_code au = refl
is_unmerged_code-unmerged_code ud = refl
is_unmerged_code-unmerged_code ua = refl
is_unmerged_code-unmerged_code du = refl
is_unmerged_code-unmerged_code aa = refl
is_unmerged_code-unmerged_code uu = refl

pub parse_state-letter : (x : Letter) → parse_state (letter x) ≡ ok (state_of x)
unfolding parse_state
parse_state-letter still = refl
parse_state-letter edited = refl
parse_state-letter retyped = refl
parse_state-letter created = refl
parse_state-letter removed = refl
parse_state-letter moved = refl
parse_state-letter duplicated = refl

score_value-digits : (n : Percent) → IsPercent n → score_value 0 (digits n) ≡ some (percent n)
unfolding score_value
score_value-digits (one x) h = ground arith
score_value-digits (two x y) h = ground arith
score_value-digits (three x y z) h = ground arith

percent-le : (n : Percent) → IsPercent n → percent n ≤ 100
percent-le (one x) h = omega arith
percent-le (two x y) h = omega arith
percent-le (three x y z) h = omega arith

length-digits : (n : Percent) → (1 ≤ length (digits n)) × (length (digits n) ≤ 3)
length-digits (one x) = omega arith
length-digits (two x y) = omega arith
length-digits (three x y z) = omega arith

-- The letter of the score is one of the two states.
score_in_states :
    (x y : Letter) (s : Bool)
    → (x ≡ score_letter s) ⊎ (y ≡ score_letter s)
    → (letter x ≡ letter (score_letter s)) ⊎ (letter y ≡ letter (score_letter s))
score_in_states x y s (inl e) = inl (ap letter e)
score_in_states x y s (inr e) = inr (ap letter e)

score_letter-R-or-C :
    (s : Bool) → (letter (score_letter s) ≡ b'R') ⊎ (letter (score_letter s) ≡ b'C')
score_letter-R-or-C true = inl refl
score_letter-R-or-C false = inr refl

score_check :
    (l x y : ℕ) (ds : Text) (v : ℕ)
    → (l ≡ b'R') ⊎ (l ≡ b'C')
    → (x ≡ l) ⊎ (y ≡ l)
    → 1 ≤ length ds
    → length ds ≤ 3
    → score_value 0 ds ≡ some v
    → v ≤ 100
    → is_rename_or_copy_score (l ∷ ds) (x ∷ y ∷ []) ≡ true
unfolding is_rename_or_copy_score
score_check l x y ds v a b c d e f = ground arith

pub is_rename_or_copy_score-digits :
    (x y : Letter) (s : Bool) (n : Percent)
    → (x ≡ score_letter s) ⊎ (y ≡ score_letter s)
    → IsPercent n
    → is_rename_or_copy_score (letter (score_letter s) ∷ digits n) (letter x ∷ letter y ∷ []) ≡ true
is_rename_or_copy_score-digits x y s n e h =
    score_check (letter (score_letter s)) (letter x) (letter y) (digits n) (percent n)
      (score_letter-R-or-C s) (score_in_states x y s e) (length-digits n).0 (length-digits n).1
      (score_value-digits n h) (percent-le n h)

-- No space and no NUL: a byte that is above the space.
abbrev pub Visible : Text → Type 0
Visible = All (λ d. b' ' < d)

pub Visible-Lacks : (c : ℕ) (f : Text) → c ≤ b' ' → Visible f → Lacks c f
Visible-Lacks c f h v = All-mono (λ d. b' ' < d) (λ d. d ≢ c) f (λ d a. omega arith) v

letter_visible : (x : Letter) → b' ' < letter x
letter_visible still = omega arith
letter_visible edited = omega arith
letter_visible retyped = omega arith
letter_visible created = omega arith
letter_visible removed = omega arith
letter_visible moved = omega arith
letter_visible duplicated = omega arith

pub letters-Visible : (x y : Letter) → Visible (letter x ∷ letter y ∷ [])
letters-Visible x y = (letter_visible x, (letter_visible y, tt))

flag_visible : (b : Bool) (x : ℕ) → b' ' < x → b' ' < flag b x
flag_visible true x h = h
flag_visible false x h = omega arith

pub print_submodule-Visible : (s : Submodule) → Visible (print_submodule s)
print_submodule-Visible not_submodule = omega arith
print_submodule-Visible (submodule x y z) = (
  omega arith,
  (
    flag_visible x _ (omega arith),
    (flag_visible y _ (omega arith), (flag_visible z _ (omega arith), tt)),
  ),
)

pub IsMode-Visible : (f : Text) → IsMode f → Visible f
IsMode-Visible f h = All-mono IsOctal (λ d. b' ' < d) f (λ d a. omega arith) h.1

pub IsObjectId-Visible : (f : Text) → IsObjectId f → Visible f
IsObjectId-Visible f h = All-mono IsHex (λ d. b' ' < d) f (λ d a. omega arith) h.1

pub unmerged_code-Visible : (u : Unmerged) → Visible (unmerged_code u)
unmerged_code-Visible dd = omega arith
unmerged_code-Visible au = omega arith
unmerged_code-Visible ud = omega arith
unmerged_code-Visible ua = omega arith
unmerged_code-Visible du = omega arith
unmerged_code-Visible aa = omega arith
unmerged_code-Visible uu = omega arith

digits-Visible : (n : Percent) → Visible (digits n)
digits-Visible (one x) = omega arith
digits-Visible (two x y) = omega arith
digits-Visible (three x y z) = omega arith

pub score-Visible : (s : Bool) (n : Percent) → Visible (letter (score_letter s) ∷ digits n)
score-Visible s n = (letter_visible (score_letter s), digits-Visible n)

pub All-Visible-Lacks : (c : ℕ) (fs : List Text) → c ≤ b' ' → All Visible fs → All (Lacks c) fs
All-Visible-Lacks c fs h v = All-mono Visible (Lacks c) fs (λ f w. Visible-Lacks c f h w) v
