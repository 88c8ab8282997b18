-- ===== src/Daemon/OperationEvent/Strings/Runes.antt =====
-- UTF-8 by its definition, and the code's size of a rune and its test for the line separators.
use kwt.Common.{
  ℕ, ◌+◌, ◌*◌, ◌-◌, ◌&&◌, ◌||◌, not, ◌≡◌, refl, Bool, true, Option, none, some, [], ◌∷◌, Text,
  if◌then◌else◌, ◌==◌, ltb, leb, arith, ◌∙◌, sym, Bool-cases, inl, inr,
}
use kwt.Daemon.OperationEvent.Strings.{is_three, is_four, is_tail, between, rune_size, is_separator}

-- UTF-8 as its definition has it: the number that the bits make up, which is written in no shorter way,
-- is no surrogate, and is not above U+10FFFF.
abbrev in_range : ℕ → ℕ → ℕ → Bool
in_range low high c = leb low c && ltb c high

abbrev is_following : ℕ → Bool
is_following c = in_range 128 192 c

abbrev two_value : ℕ → ℕ → ℕ
two_value a b = (a - 192) * 64 + (b - 128)

abbrev three_value : ℕ → ℕ → ℕ → ℕ
three_value a b c = (a - 224) * 4096 + (b - 128) * 64 + (c - 128)

abbrev four_value : ℕ → ℕ → ℕ → ℕ → ℕ
four_value a b c d = (a - 240) * 262144 + (b - 128) * 4096 + (c - 128) * 64 + (d - 128)

is_two_rune : ℕ → ℕ → Bool
is_two_rune a b = in_range 192 224 a && (is_following b && leb 128 (two_value a b))

is_three_rune : ℕ → ℕ → ℕ → Bool
is_three_rune a b c =
    in_range 224 240 a
    && (is_following b
        && (is_following c
            && (leb 2048 (three_value a b c) && not (in_range 55296 57344 (three_value a b c)))))

is_four_rune : ℕ → ℕ → ℕ → ℕ → Bool
is_four_rune a b c d =
    in_range 240 248 a
    && (is_following b
        && (is_following c && (is_following d && in_range 65536 1114112 (four_value a b c d))))

-- The rune at the front and its size.
unfoldable pub decode_rune : Text → Option (ℕ × ℕ)
unfolding is_two_rune is_three_rune is_four_rune
decode_rune [] = none
decode_rune (a ∷ []) = none
decode_rune (a ∷ b ∷ []) = if is_two_rune a b then some (two_value a b, 2) else none
decode_rune (a ∷ b ∷ c ∷ []) =
    if is_two_rune a b
    then some (two_value a b, 2)
    else if is_three_rune a b c
    then some (three_value a b c, 3)
    else none
decode_rune (a ∷ b ∷ c ∷ d ∷ s) =
    if is_two_rune a b
    then some (two_value a b, 2)
    else if is_three_rune a b c
    then some (three_value a b c, 3)
    else if is_four_rune a b c d
    then some (four_value a b c d, 4)
    else none

two_rune-table : (a b : ℕ) → is_two_rune a b ≡ (between 194 223 a && is_tail b)
unfolding is_two_rune
two_rune-table a b = ground arith

three_rune-table : (a b c : ℕ) → is_three_rune a b c ≡ is_three a b c
unfolding is_three_rune is_three
three_rune-table a b c = ground arith

four_rune-table : (a b c d : ℕ) → is_four_rune a b c d ≡ is_four a b c d
unfolding is_four_rune is_four
four_rune-table a b c d = ground arith

unfoldable pub is_line_end : ℕ → Bool
is_line_end r = r == 8232 || r == 8233

two_rune-line_end :
    (a b : ℕ) (s : Text)
    → is_two_rune a b ≡ true
    → is_separator (a ∷ b ∷ s) ≡ is_line_end (two_value a b)
unfolding is_two_rune is_separator is_line_end
two_rune-line_end a b [] h = ground arith
two_rune-line_end a b (c ∷ s) h = ground arith

three_rune-line_end :
    (a b c : ℕ) (s : Text)
    → is_three_rune a b c ≡ true
    → is_separator (a ∷ b ∷ c ∷ s) ≡ is_line_end (three_value a b c)
unfolding is_three_rune is_separator is_line_end
three_rune-line_end a b c s h = ground arith

four_rune-line_end :
    (a b c d : ℕ) (s : Text)
    → is_four_rune a b c d ≡ true
    → is_separator (a ∷ b ∷ c ∷ d ∷ s) ≡ is_line_end (four_value a b c d)
unfolding is_four_rune is_separator is_line_end
four_rune-line_end a b c d s h = ground arith

-- The code's size of the rune at the front, and its test for the separators, are those of the rune.
abbrev pub IsDecoded : Text → Option (ℕ × ℕ) → Option ℕ → Type 0
IsDecoded s none o = o ≡ none
IsDecoded s (some (r, n)) o = (o ≡ some n) × (is_separator s ≡ is_line_end r)

pub decode_rune-IsDecoded : (s : Text) → IsDecoded s (decode_rune s) (rune_size s)
unfolding decode_rune rune_size
decode_rune-IsDecoded [] = refl
decode_rune-IsDecoded (a ∷ []) = refl
decode_rune-IsDecoded (a ∷ b ∷ []) = elim (Bool-cases (is_two_rune a b)) [
  | inl t ↦ rw (t, sym (two_rune-table a b) ∙ t) (refl, two_rune-line_end a b [] t)
  | inr n ↦ rw (n, sym (two_rune-table a b) ∙ n) refl
]
decode_rune-IsDecoded (a ∷ b ∷ c ∷ []) = elim (Bool-cases (is_two_rune a b)) [
  | inl t ↦ rw (t, sym (two_rune-table a b) ∙ t) (refl, two_rune-line_end a b (c ∷ []) t)
  | inr n ↦ elim (Bool-cases (is_three_rune a b c)) [
    | inl t ↦
        rw (n, sym (two_rune-table a b) ∙ n, t, sym (three_rune-table a b c) ∙ t)
          (refl, three_rune-line_end a b c [] t)
    | inr m ↦ rw (n, sym (two_rune-table a b) ∙ n, m, sym (three_rune-table a b c) ∙ m) refl
  ]
]
decode_rune-IsDecoded (a ∷ b ∷ c ∷ d ∷ s) = elim (Bool-cases (is_two_rune a b)) [
  | inl t ↦ rw (t, sym (two_rune-table a b) ∙ t) (refl, two_rune-line_end a b (c ∷ d ∷ s) t)
  | inr n ↦ elim (Bool-cases (is_three_rune a b c)) [
    | inl t ↦
        rw (n, sym (two_rune-table a b) ∙ n, t, sym (three_rune-table a b c) ∙ t)
          (refl, three_rune-line_end a b c (d ∷ s) t)
    | inr m ↦ elim (Bool-cases (is_four_rune a b c d)) [
      | inl t ↦
          rw
            (
              n,
              sym (two_rune-table a b) ∙ n,
              m,
              sym (three_rune-table a b c) ∙ m,
              t,
              sym (four_rune-table a b c d) ∙ t,
            )
            (refl, four_rune-line_end a b c d s t)
      | inr l ↦
          rw
            (
              n,
              sym (two_rune-table a b) ∙ n,
              m,
              sym (three_rune-table a b c) ∙ m,
              l,
              sym (four_rune-table a b c d) ∙ l,
            )
            refl
    ]
  ]
]
