-- ===== src/Daemon/OperationEvent/Strings/Encoding.antt =====
-- The bytes that a string takes in the JSON of encoding/json, and the budget that the code takes.
use kwt.Common.{
  ℕ, zero, suc, ◌+◌, ◌-◌, ◌||◌, ◌/◌, ◌%◌, ◌≤◌, ◌<◌, ◌≡◌, refl, Bool, true, false, Option, none,
  some, List, [], ◌∷◌, ◌++◌, Text, codes, if◌then◌else◌, ◌==◌, ltb, leb, length, take, drop, arith,
  length-append, ◌∙◌,
}
use kwt.Daemon.OperationEvent.Strings.{
  consume_bytes, and_then, is_short, is_long, rune_size, unit_of, rune_unit, consume_loop,
  consume_string,
}
use kwt.Daemon.OperationEvent.Strings.Runes.{
  decode_rune, is_line_end, IsDecoded, decode_rune-IsDecoded,
}

abbrev hex_digit : ℕ → ℕ
hex_digit n = if ltb n 10 then b'0' + n else b'a' + (n - 10)

-- What encoding/json writes for an ASCII byte: a quote, a backslash and five controls have a letter,
-- the other controls and the bytes that mean something in HTML have their number.
json_ascii : ℕ → Text
json_ascii c =
    if c == 34
    then codes "\\\""
    else if c == 92
    then codes "\\\\"
    else if c == 8
    then codes "\\b"
    else if c == 9
    then codes "\\t"
    else if c == 10
    then codes "\\n"
    else if c == 12
    then codes "\\f"
    else if c == 13
    then codes "\\r"
    else if ltb c 32 || (c == 60 || (c == 62 || c == 38))
    then codes "\\u00" ++ (hex_digit (c / 16) ∷ hex_digit (c % 16) ∷ [])
    else c ∷ []

-- The bytes read, and what they are written as: U+FFFD for a byte that begins no rune, and the two line
-- separators by number.
json_rune : Text → Option (ℕ × ℕ) → ℕ × Text
json_rune s none = (1, codes "\\ufffd")
json_rune s (some (r, n)) =
    if r == 8232
    then (n, codes "\\u2028")
    else if r == 8233
    then (n, codes "\\u2029")
    else (n, take n s)

-- The bytes read at the front, and what they are written as.
json_unit : ℕ → Text → ℕ × Text
unfolding json_rune json_ascii decode_rune
json_unit c s = if ltb c 128 then (1, json_ascii c) else json_rune (c ∷ s) (decode_rune (c ∷ s))

json_loop : ℕ → Text → Text
unfolding json_unit
json_loop fuel [] = []
json_loop zero (c ∷ s) = []
json_loop (suc fuel) (c ∷ s) = (json_unit c s).1 ++ json_loop fuel (drop (json_unit c s).0 (c ∷ s))

pub json_string : Text → Text
unfolding json_loop
json_string s = b'"' ∷ (json_loop (length s) s ++ b'"' ∷ [])

choice-bound :
    (x y z : Bool) (n : ℕ)
    → (if x then some 2 else if y then some 3 else if z then some 4 else none) ≡ some n
    → (0 < n) × (n ≤ 4)
choice-bound true y z n h = ground arith
choice-bound false true z n h = ground arith
choice-bound false false true n h = ground arith
choice-bound false false false n h = ground arith

rune_size-long :
    (a b c d : ℕ) (s : Text) (n : ℕ) → rune_size (a ∷ b ∷ c ∷ d ∷ s) ≡ some n → (0 < n) × (n ≤ 4)
unfolding rune_size
rune_size-long a b c d s n h = choice-bound _ _ _ n h

-- A rune is as long as the text at least.
rune_size-bound : (s : Text) (n : ℕ) → rune_size s ≡ some n → (0 < n) × (n ≤ length s) × (n ≤ 4)
rune_size-bound [] n h = unfold rune_size in ground arith
rune_size-bound (a ∷ []) n h = unfold rune_size in ground arith
rune_size-bound (a ∷ b ∷ []) n h = unfold rune_size in ground arith
rune_size-bound (a ∷ b ∷ c ∷ []) n h = unfold rune_size in ground arith
rune_size-bound (a ∷ b ∷ c ∷ d ∷ s) n h =
    let (positive, small) = rune_size-long a b c d s n h in (positive, omega (arith, small), small)

length-take : (n : ℕ) (s : Text) → n ≤ length s → length (take n s) ≡ n
length-take zero s h = refl
length-take (suc n) [] h = omega arith
length-take (suc n) (c ∷ s) h = ground (arith, length-take n s (omega arith))

-- The two functions read and write the same number of bytes.
rune_unit-json :
    (s : Text) (x : Option (ℕ × ℕ)) (o : Option ℕ)
    → rune_size s ≡ o
    → IsDecoded s x o
    → ((rune_unit s o).0 ≡ (json_rune s x).0) × ((rune_unit s o).1 ≡ length (json_rune s x).1)
unfolding rune_unit json_rune is_line_end
rune_unit-json s none o h d = rw d (refl, refl)
rune_unit-json s (some (r, n)) o h (same, ends) =
    ground (arith, same, ends, length-take n s, rune_size-bound s n (h ∙ same))

json_ascii-length :
    (c : ℕ) → length (json_ascii c) ≡ (if is_short c then 2 else if is_long c then 6 else 1)
unfolding json_ascii
json_ascii-length c = ground arith

unit_of-json :
    (c : ℕ) (s : Text)
    → ((unit_of c s).0 ≡ (json_unit c s).0) × ((unit_of c s).1 ≡ length (json_unit c s).1)
unfolding unit_of json_unit
unit_of-json c s = ground (
  arith,
  json_ascii-length c,
  rune_unit-json (c ∷ s) (decode_rune (c ∷ s)) (rune_size (c ∷ s)) refl
      (decode_rune-IsDecoded (c ∷ s)),
)

abbrev pub within : ℕ → ℕ → Option ℕ
within size budget = if leb size budget then some (budget - size) else none

within_sum : (a b budget : ℕ) → and_then (consume_bytes budget a) (within b) ≡ within (a + b) budget
unfolding consume_bytes
within_sum a b budget = ground arith

and_then_cong :
    {A B : Type 0} (o : Option A) (f g : A → Option B)
    → ((a : A) → f a ≡ g a)
    → and_then o f ≡ and_then o g
and_then_cong none f g h = refl
and_then_cong (some a) f g h = h a

rune_unit-progress : (s : Text) (o : Option ℕ) → rune_size s ≡ o → 0 < (rune_unit s o).0
unfolding rune_unit
rune_unit-progress s none h = omega arith
rune_unit-progress s (some n) h = ground (arith, rune_size-bound s n h)

-- A unit takes a byte at least from what is left.
unit_of-progress : (c : ℕ) (s : Text) → 0 < (unit_of c s).0
unfolding unit_of
unit_of-progress c s = ground (arith, rune_unit-progress (c ∷ s) (rune_size (c ∷ s)) refl)

length-drop : {A : Type 0} (n : ℕ) (xs : List A) → length (drop n xs) ≡ length xs - n
length-drop zero xs = omega arith
length-drop (suc n) [] = omega arith
length-drop (suc n) (x ∷ xs) = ground (arith, length-drop n xs)

consume_loop-json :
    (fuel : ℕ) (s : Text) (budget : ℕ)
    → length s ≤ fuel
    → consume_loop fuel budget s ≡ within (length (json_loop fuel s)) budget
unfolding consume_loop json_loop
consume_loop-json fuel [] budget h = ground arith
consume_loop-json zero (c ∷ s) budget h = absurd (omega arith)
consume_loop-json (suc fuel) (c ∷ s) budget h =
    let (reads, writes) = unit_of-json c s in
    let rest : Text = drop (json_unit c s).0 (c ∷ s) in
    let shorter : length rest ≤ fuel =
      omega (arith, length-drop (json_unit c s).0 (c ∷ s), unit_of-progress c s, reads, h) in
    rw (reads, writes, length-append (json_unit c s).1 (json_loop fuel rest))
      (and_then_cong (consume_bytes budget (length (json_unit c s).1)) _ _
          (λ b. consume_loop-json fuel rest b shorter)
        ∙ within_sum (length (json_unit c s).1) (length (json_loop fuel rest)) budget)

-- The code takes exactly the bytes that the string's JSON has, quotes and escapes with it, and
-- refuses the string exactly when they exceed the budget.
pub consume_string-json_string :
    (budget : ℕ) (s : Text) → consume_string budget s ≡ within (length (json_string s)) budget
unfolding consume_string json_string
consume_string-json_string budget s =
    and_then_cong (consume_bytes budget 2) _ _ (λ b. consume_loop-json (length s) s b (omega arith))
    ∙ within_sum 2 (length (json_loop (length s) s)) budget
    ∙ ground (arith, length-append (json_loop (length s) s) (b'"' ∷ []))
