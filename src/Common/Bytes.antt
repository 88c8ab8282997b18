-- ===== src/Common/Bytes.antt =====
-- Go's functions on strings and byte slices, as far as the modelled code uses them.
use Prim.Native.Nat.{ℕ, zero, suc, ◌+◌, ◌/◌, ◌%◌}
use mathlib.Core.Path.{◌≡◌, refl, ap, ap₂, subst}
use mathlib.Core.Logic.{◌≢◌, inl, inr}
use mathlib.Core.Bool.{Bool, true, false, ◌&&◌, ◌||◌}
use mathlib.Core.List.{List, [], ◌∷◌, ◌++◌, map}
use mathlib.Core.Option.{Option, none, some}
use native.Mathlib.Omega.{arith}
use kwt.Common.Tests.{Bool-cases, ◌==◌, if◌then◌else◌, leb, ltb}
use kwt.Common.Lists.{length, length-append, All, All-append}
use kwt.Common.Strings.{Text, ◌=?◌}

abbrev cons_first : ℕ → Option (Text × Text) → Option (Text × Text)
cons_first c none = none
cons_first c (some (a, b)) = some (c ∷ a, b)

-- `strings.Cut`, or a slice at `bytes.IndexByte`: the text before and behind the first `sep`.
unfoldable pub cut : ℕ → Text → Option (Text × Text)
cut sep [] = none
cut sep (c ∷ s) = if c == sep then some ([], s) else cons_first c (cut sep s)

-- `bytes.SplitN(s, sep, n)` for a positive n, and no part at n = 0.
unfoldable pub split_n : ℕ → ℕ → Text → List Text
unfolding cut
split_n sep zero s = []
split_n sep (suc zero) s = s ∷ []
split_n sep (suc (suc n)) s = elim (cut sep s) [
  | none ↦ s ∷ []
  | some (a, b) ↦ a ∷ split_n sep (suc n) b
]

-- `strings.HasPrefix`.
unfoldable pub has_prefix : Text → Text → Bool
has_prefix s [] = true
has_prefix [] (p ∷ ps) = false
has_prefix (c ∷ s) (p ∷ ps) = if c == p then has_prefix s ps else false

abbrev pub Lacks : ℕ → Text → Type 0
Lacks sep = All (λ c. c ≢ sep)

pub cut-append : (sep : ℕ) (a b : Text) → Lacks sep a → cut sep (a ++ sep ∷ b) ≡ some (a, b)
unfolding cut
cut-append sep [] b h = ground arith
cut-append sep (c ∷ a) b h = ground (arith, cut-append sep a b h.1)

pub cut-Lacks : (sep : ℕ) (a : Text) → Lacks sep a → cut sep a ≡ none
unfolding cut
cut-Lacks sep [] h = refl
cut-Lacks sep (c ∷ a) h = ground (arith, cut-Lacks sep a h.1)

-- The two parts and the separator make up the text.
abbrev Spells : ℕ → Text → Option (Text × Text) → Type 0
Spells sep s none = Lacks sep s
Spells sep s (some (a, b)) = (s ≡ a ++ sep ∷ b) × Lacks sep a

cons_first-Spells :
    (sep c : ℕ) (s : Text) (o : Option (Text × Text))
    → c ≢ sep
    → Spells sep s o
    → Spells sep (c ∷ s) (cons_first c o)
cons_first-Spells sep c s none n h = (n, h)
cons_first-Spells sep c s (some (a, b)) n h = (ap (◌∷◌ c) h.0, (n, h.1))

cut-Spells : (sep : ℕ) (s : Text) → Spells sep s (cut sep s)
unfolding cut
cut-Spells sep [] = tt
cut-Spells sep (c ∷ s) = elim (Bool-cases (c == sep)) [
  | inl e ↦ rw e (ground arith, tt)
  | inr n ↦ rw n (cons_first-Spells sep c s (cut sep s) (ground arith) (cut-Spells sep s))
]

pub cut_sound :
    (sep : ℕ) (s a b : Text) → cut sep s ≡ some (a, b) → (s ≡ a ++ sep ∷ b) × Lacks sep a
cut_sound sep s a b h = subst (Spells sep s) h (cut-Spells sep s)

pub cut-none : (sep : ℕ) (s : Text) → cut sep s ≡ none → Lacks sep s
cut-none sep s h = subst (Spells sep s) h (cut-Spells sep s)

-- What is cut off is shorter.
pub cut-length :
    (sep : ℕ) (s a b : Text) → cut sep s ≡ some (a, b) → length s ≡ length a + length b + 1
cut-length sep s a b h =
    omega (arith, ap length (cut_sound sep s a b h).0, length-append a (sep ∷ b))

-- Fields with a separator behind each, and a last field that may hold separators.
unfoldable pub spaced : ℕ → List Text → Text → Text
spaced sep [] last = last
spaced sep (f ∷ fs) last = f ++ sep ∷ spaced sep fs last

pub split_n-spaced :
    (sep : ℕ) (fs : List Text) (last : Text)
    → All (Lacks sep) fs
    → split_n sep (suc (length fs)) (spaced sep fs last) ≡ fs ++ last ∷ []
unfolding split_n spaced
split_n-spaced sep [] last h = refl
split_n-spaced sep (f ∷ fs) last h =
    rw (cut-append sep f (spaced sep fs last) h.0, split_n)
      (ap (◌∷◌ f) (split_n-spaced sep fs last h.1))

pub All-mono {ℓ κ μ} :
    {A : Type ℓ} (P : A → Type κ) (Q : A → Type μ) (xs : List A)
    → ((x : A) → P x → Q x)
    → All P xs
    → All Q xs
All-mono P Q [] f h = tt
All-mono P Q (x ∷ xs) f h = (f x h.0, All-mono P Q xs f h.1)

pub spaced-Lacks :
    (c sep : ℕ) (fs : List Text) (last : Text)
    → sep ≢ c
    → All (Lacks c) fs
    → Lacks c last
    → Lacks c (spaced sep fs last)
unfolding spaced
spaced-Lacks c sep [] last n h l = l
spaced-Lacks c sep (f ∷ fs) last n h l =
    All-append (λ d. d ≢ c) f (sep ∷ spaced sep fs last) h.0 (n, spaced-Lacks c sep fs last n h.1 l)

-- `unicode.IsSpace` below 128, and `unicode.ToLower` there.
abbrev pub is_space : ℕ → Bool
is_space c = c == b' ' || (leb 9 c && leb c 13)

abbrev pub lower : ℕ → ℕ
lower c = if leb b'A' c && leb c b'Z' then c + 32 else c

unfoldable pub trim_left : Text → Text
trim_left [] = []
trim_left (c ∷ s) = if is_space c then trim_left s else c ∷ s

-- Takes the spaces off the right end.
unfoldable pub trim_right : Text → Text
trim_right [] = []
trim_right (c ∷ s) = elim (trim_right s) [
  | [] ↦ if is_space c then [] else c ∷ []
  | d ∷ r ↦ c ∷ d ∷ r
]

-- `strings.TrimSpace`.
unfoldable pub trim_space : Text → Text
unfolding trim_left trim_right
trim_space s = trim_right (trim_left s)

-- `strings.ToLower` and `strings.EqualFold`.
abbrev pub to_lower : Text → Text
to_lower = map lower

abbrev pub equal_fold : Text → Text → Bool
equal_fold s t = to_lower s =? to_lower t

digits_loop : ℕ → ℕ → Text → Text
digits_loop zero n out = out
digits_loop (suc fuel) n out =
    let rest = digits_loop fuel (n / 10) ((b'0' + n % 10) ∷ out) in
    if ltb n 10 then (b'0' + n % 10) ∷ out else rest

-- `strconv.Itoa` of a number that is not negative. A number has at most one digit more than itself.
unfoldable pub itoa : ℕ → Text
unfolding digits_loop
itoa n = digits_loop (suc n) n []

lower_idem : (c : ℕ) → lower (lower c) ≡ lower c
lower_idem c = ground arith

pub to_lower_idem : (s : Text) → to_lower (to_lower s) ≡ to_lower s
to_lower_idem [] = refl
to_lower_idem (c ∷ s) = ap₂ ◌∷◌ (lower_idem c) (to_lower_idem s)
