-- ===== src/Common/Substrings.antt =====
-- Go's searches, cuts and splits of strings at substrings and from the right.
use Prim.Native.Nat.{ℕ}
use mathlib.Core.Bool.{Bool, true, false}
use mathlib.Core.List.{List, [], ◌∷◌, ◌++◌}
use mathlib.Core.Option.{Option, none, some}
use kwt.Common.Tests.{◌==◌, if◌then◌else◌}
use kwt.Common.Lists.{length, drop, any}
use kwt.Common.Strings.{Text, ◌=?◌}
use kwt.Common.Bytes.{has_prefix}

abbrev pub on_first : ℕ → Option (Text × Text) → Option (Text × Text)
on_first c none = none
on_first c (some (a, b)) = some (c ∷ a, b)

-- `strings.Cut` at a separator that is not empty.
unfoldable pub cut_at : Text → Text → Option (Text × Text)
unfolding has_prefix
cut_at sep [] = none
cut_at sep (c ∷ s) =
    if has_prefix (c ∷ s) sep
    then some ([], drop (length sep) (c ∷ s))
    else on_first c (cut_at sep s)

-- `strings.Contains` of a string that is not empty.
unfoldable pub contains : Text → Text → Bool
unfolding cut_at
contains s sub = elim (cut_at sub s) [ none ↦ false | some _ ↦ true ]

-- `strings.ContainsAny`, and of one byte.
abbrev pub contains_byte : ℕ → Text → Bool
contains_byte c = any (λ d. d == c)

abbrev pub contains_any : Text → Text → Bool
contains_any s set = any (λ c. contains_byte c set) s

-- The text before and behind the last occurrence of a byte: a slice at `strings.LastIndexByte`.
unfoldable pub cut_last : ℕ → Text → Option (Text × Text)
cut_last sep [] = none
cut_last sep (c ∷ s) = elim (cut_last sep s) [
  | some (a, b) ↦ some (c ∷ a, b)
  | none ↦ if c == sep then some ([], s) else none
]

-- `strings.TrimSuffix`.
unfoldable pub trim_suffix : Text → Text → Text
unfolding ◌=?◌
trim_suffix suffix [] = []
trim_suffix suffix (c ∷ s) = if (c ∷ s) =? suffix then [] else c ∷ trim_suffix suffix s

-- `strings.HasSuffix` of one byte.
unfoldable pub ends_in : ℕ → Text → Bool
ends_in c [] = false
ends_in c (d ∷ []) = d == c
ends_in c (d ∷ e ∷ s) = ends_in c (e ∷ s)

-- `strings.TrimLeft` and `strings.TrimRight` with a set of one byte.
unfoldable pub trim_left_of : ℕ → Text → Text
trim_left_of c [] = []
trim_left_of c (d ∷ s) = if d == c then trim_left_of c s else d ∷ s

abbrev pub end_without : ℕ → ℕ → Text → Text
end_without c d [] = if d == c then [] else d ∷ []
end_without c d (e ∷ r) = d ∷ e ∷ r

unfoldable pub trim_right_of : ℕ → Text → Text
trim_right_of c [] = []
trim_right_of c (d ∷ s) = end_without c d (trim_right_of c s)

abbrev pub onto_first : ℕ → List Text → List Text
onto_first c [] = (c ∷ []) ∷ []
onto_first c (f ∷ fs) = (c ∷ f) ∷ fs

-- `strings.Split` at one byte: never empty.
unfoldable pub split : ℕ → Text → List Text
split sep [] = [] ∷ []
split sep (c ∷ s) = if c == sep then [] ∷ split sep s else onto_first c (split sep s)

-- `strings.Join` with one byte.
unfoldable pub join : ℕ → List Text → Text
join sep [] = []
join sep (f ∷ []) = f
join sep (f ∷ g ∷ fs) = f ++ sep ∷ join sep (g ∷ fs)
