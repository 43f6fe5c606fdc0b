-- ===== src/Text.antt =====
-- src/string.c: `string_to_int64` and `string_to_double`. A `String` is the list of its `len` bytes.
pub mod Integer
pub mod Double
use tira.Prelude.{
  ℕ, zero, suc, ◌+◌, ◌-◌, ◌*◌, ◌/◌, ◌^◌, Bool, true, false, ◌&&◌, ◌||◌, [], ◌∷◌, Option, none, some,
  Bytes, drop, ltb, leb, ◌==◌, if◌then◌else◌,
}
use tira.Prelude.Int.{ℤ, pos, neg}

abbrev pub int64_max : ℕ
int64_max = 2 ^ 63 - 1

unfoldable pub hex_digit : ℕ → Option ℕ
hex_digit c =
    if leb b'0' c && leb c b'9'
    then some (c - b'0')
    else if leb b'a' c && leb c b'f'
    then some (c - b'a' + 10)
    else if leb b'A' c && leb c b'F'
    then some (c - b'A' + 10)
    else none

unfoldable pub decimal_digit : ℕ → Option ℕ
decimal_digit c = if ltb c b'0' || ltb b'9' c then none else some (c - b'0')

-- One round of a conversion loop with the given base: the overflow check, and the new result.
unfoldable pub add_digit : ℕ → ℕ → Option ℕ → Option ℕ
add_digit base result none = none
add_digit base result (some digit) =
    if ltb ((int64_max - digit) / base) result then none else some (result * base + digit)

-- The loops over the digits; `result` stays at or above 0.
unfoldable pub convert_loop : (ℕ → Option ℕ) → ℕ → Bytes → ℕ → Option ℕ
convert_loop digit base [] result = some result
convert_loop digit base (c ∷ s) result = elim (add_digit base result (digit c)) [
  | none ↦ none
  | some r ↦ convert_loop digit base s r
]

-- `str.len > 2 && str.data[0] == '0' && (str.data[1] == 'x' || str.data[1] == 'X')`.
unfoldable pub is_hex : Bytes → Bool
is_hex (a ∷ b ∷ c ∷ s) = a == b'0' && (b == b'x' || b == b'X')
is_hex _ = false

unfoldable pub map_int : (ℕ → ℤ) → Option ℕ → Option ℤ
map_int f none = none
map_int f (some n) = some (f n)

-- The decimal case behind the sign.
unfoldable pub decimal_value : (ℕ → ℤ) → Bytes → Option ℤ
unfolding map_int
decimal_value sign [] = none
decimal_value sign (c ∷ s) = map_int sign (convert_loop decimal_digit 10 (c ∷ s) 0)

-- The value written to `out`, or `none` for the result `false`.
unfoldable pub string_to_int64 : Bytes → Option ℤ
unfolding decimal_value is_hex map_int
string_to_int64 [] = none
string_to_int64 (c ∷ s) =
    if is_hex (c ∷ s)
    then map_int pos (convert_loop hex_digit 16 (drop 1 s) 0)
    else if c == b'-'
    then decimal_value neg s
    else if c == b'+'
    then decimal_value pos s
    else decimal_value pos (c ∷ s)
