-- ===== src/Daemon/OperationEvent/Strings.antt =====
-- `consumeJSONString` and `consumeJSONBytes` of internal/daemon/operation_event.go, with what
-- unicode/utf8 decodes at the start of a text.
pub mod Runes
pub mod Encoding
use kwt.Common.{
  ℕ, zero, suc, ◌+◌, ◌-◌, ◌≤◌, ◌≡◌, Bool, true, false, ◌&&◌, ◌||◌, not, Option, none, some, List,
  [], ◌∷◌, ◌++◌, Text, codes, if◌then◌else◌, ◌==◌, ltb, leb, length, drop,
}

unfoldable pub consume_bytes : ℕ → ℕ → Option ℕ
consume_bytes budget count = if ltb budget count then none else some (budget - count)

abbrev pub between : ℕ → ℕ → ℕ → Bool
between low high c = leb low c && leb c high

abbrev pub is_tail : ℕ → Bool
is_tail c = between 128 191 c

pub is_three : ℕ → ℕ → ℕ → Bool
is_three a b c =
    is_tail c
    && ((a == 224 && between 160 191 b)
        || (between 225 236 a && is_tail b)
        || (a == 237 && between 128 159 b)
        || (between 238 239 a && is_tail b))

pub is_four : ℕ → ℕ → ℕ → ℕ → Bool
is_four a b c d =
    is_tail c
    && is_tail d
    && ((a == 240 && between 144 191 b)
        || (between 241 243 a && is_tail b)
        || (a == 244 && between 128 143 b))

-- The size in bytes of the valid encoding at the front of a text whose first byte is not ASCII;
-- `none` is `RuneError` of size 1.
pub rune_size : Text → Option ℕ
unfolding is_three is_four
rune_size [] = none
rune_size (a ∷ []) = none
rune_size (a ∷ b ∷ []) = if between 194 223 a && is_tail b then some 2 else none
rune_size (a ∷ b ∷ c ∷ []) =
    if between 194 223 a && is_tail b then some 2 else if is_three a b c then some 3 else none
rune_size (a ∷ b ∷ c ∷ d ∷ s) =
    if between 194 223 a && is_tail b
    then some 2
    else if is_three a b c
    then some 3
    else if is_four a b c d
    then some 4
    else none

-- U+2028 and U+2029.
pub is_separator : Text → Bool
is_separator (a ∷ b ∷ c ∷ s) = a == 226 && b == 128 && (c == 168 || c == 169)
is_separator _ = false

-- What is escaped with one letter.
abbrev is_short : ℕ → Bool
is_short c = c == 92 || c == 34 || c == 8 || c == 12 || c == 10 || c == 13 || c == 9

abbrev is_long : ℕ → Bool
is_long c = ltb c 32 || c == b'<' || c == b'>' || c == b'&'

-- The bytes read and the bytes written for the unit at the front.
rune_unit : Text → Option ℕ → ℕ × ℕ
unfolding is_separator
rune_unit s none = (1, 6)
rune_unit s (some n) = if is_separator s then (n, 6) else (n, n)

unit_of : ℕ → Text → ℕ × ℕ
unfolding rune_unit rune_size
unit_of c s =
    if ltb c 128
    then (1, (if is_short c then 2 else if is_long c then 6 else 1))
    else rune_unit (c ∷ s) (rune_size (c ∷ s))

abbrev pub and_then {ℓ} : {A B : Type ℓ} → Option A → (A → Option B) → Option B
and_then none f = none
and_then (some a) f = f a

-- The loop, with fuel for the units; a unit reads a byte at least, so that the length is enough.
consume_loop : ℕ → ℕ → Text → Option ℕ
consume_loop fuel budget [] = some budget
consume_loop zero budget (c ∷ s) = none
consume_loop (suc fuel) budget (c ∷ s) =
    and_then (consume_bytes budget (unit_of c s).1)
      (λ b. consume_loop fuel b (drop (unit_of c s).0 (c ∷ s)))

unfoldable pub consume_string : ℕ → Text → Option ℕ
unfolding consume_loop unit_of
consume_string budget s = and_then (consume_bytes budget 2) (λ b. consume_loop (length s) b s)
