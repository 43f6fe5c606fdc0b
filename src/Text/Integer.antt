-- ===== src/Text/Integer.antt =====
-- src/string.c: `string_to_int64` against the value of the digits.
use tira.Prelude.{
  ℕ, ◌+◌, ◌-◌, ◌*◌, ◌/◌, ◌≤◌, ◌<◌, ◌≡◌, ◌≢◌, refl, ap, sym, inl, inr, ◌↔◌, true, false, arith, [],
  ◌∷◌, Option, none, some, Bytes, ltb, leb, if◌then◌else◌, Bool-cases, Option-cases,
}
use tira.Prelude.Int.{ℤ, pos, neg}
use tira.Text.{
  int64_max, decimal_digit, hex_digit, add_digit, convert_loop, is_hex, map_int, decimal_value,
  string_to_int64,
}

-- The number that digits stand for behind a number read before; `none` if one is no digit.
unfoldable pub digits_value : (ℕ → Option ℕ) → ℕ → Bytes → ℕ → Option ℕ
digits_value digit base [] acc = some acc
digits_value digit base (c ∷ s) acc = elim (digit c) [
  | none ↦ none
  | some d ↦ digits_value digit base s (acc * base + d)
]

-- That number if it fits.
unfoldable pub fitting : Option ℕ → Option ℕ
fitting none = none
fitting (some n) = if leb n int64_max then some n else none

-- A base, the digits it reads, and what its overflow check means.
record IsBase (digit : ℕ → Option ℕ) (base : ℕ) : Type 0 where
  base_pos : 0 < base
  check :
      (c d r : ℕ)
      → digit c ≡ some d
      → (ltb ((int64_max - d) / base) r ≡ false) ↔ (r * base + d ≤ int64_max)

decimal-IsBase : IsBase decimal_digit 10
unfolding decimal_digit
decimal-IsBase = record {
  base_pos = omega arith;
  check = λ c d r h. (λ e. ground (arith, h, e), λ e. ground (arith, h, e));
}

hex-IsBase : IsBase hex_digit 16
unfolding hex_digit
hex-IsBase = record {
  base_pos = omega arith;
  check = λ c d r h. (λ e. ground (arith, h, e), λ e. ground (arith, h, e));
}

module _ (digit : ℕ → Option ℕ) (base : ℕ) (b : IsBase digit base) where
  -- What is too large stays too large.
  digits_value_large :
      (s : Bytes) (acc : ℕ) → int64_max < acc → fitting (digits_value digit base s acc) ≡ none
  unfolding digits_value fitting
  digits_value_large [] acc h = ground arith
  digits_value_large (c ∷ s) acc h = elim (Option-cases (digit c)) [
    | inl e ↦ rw (e, digits_value)
    | inr (d, e) ↦ rw (e, digits_value) (digits_value_large s (acc * base + d) (grows d))
  ]
    where
      grows : (d : ℕ) → int64_max < acc * base + d
      grows d = grind (arith, b.base_pos)

  -- The loop gives the number, if it fits.
  convert_loop-fitting :
      (s : Bytes) (acc : ℕ)
      → acc ≤ int64_max
      → convert_loop digit base s acc ≡ fitting (digits_value digit base s acc)
  unfolding convert_loop digits_value add_digit
  convert_loop-fitting [] acc h = unfold fitting in ground arith
  convert_loop-fitting (c ∷ s) acc h = elim (Option-cases (digit c)) [
    | inl e ↦ rw (e, convert_loop, digits_value) (unfold fitting in refl)
    | inr (d, e) ↦ elim (Bool-cases (ltb ((int64_max - d) / base) acc)) [
      | inl over ↦
          rw (e, convert_loop, digits_value)
            (unfold add_digit in
              rw over (sym (digits_value_large s (acc * base + d) (too_large d e over))))
      | inr fits ↦
          rw (e, convert_loop, digits_value)
            (unfold add_digit in
              rw fits (convert_loop-fitting s (acc * base + d) ((b.check c d acc e).0 fits)))
    ]
  ]
    where
      too_large :
          (d : ℕ)
          → digit c ≡ some d
          → ltb ((int64_max - d) / base) acc ≡ true
          → int64_max < acc * base + d
      too_large d e over = ground (arith, b.check c d acc e)

abbrev pub decimal_number : Bytes → Option ℕ
decimal_number s = digits_value decimal_digit 10 s 0

abbrev pub hex_number : Bytes → Option ℕ
hex_number s = digits_value hex_digit 16 s 0

decimal_value_lem :
    (sign : ℕ → ℤ) (c : ℕ) (s : Bytes)
    → decimal_value sign (c ∷ s) ≡ map_int sign (fitting (decimal_number (c ∷ s)))
unfolding decimal_value
decimal_value_lem sign c s =
    ap (map_int sign) (convert_loop-fitting decimal_digit 10 decimal-IsBase (c ∷ s) 0 (omega arith))

is_hex_minus : (c : ℕ) (s : Bytes) → is_hex (b'-' ∷ c ∷ s) ≡ false
unfolding is_hex
is_hex_minus c [] = refl
is_hex_minus c (x ∷ s) = refl

-- A text that starts with neither a sign nor `0x` converts to the number that its decimal digits
-- stand for; the conversion fails exactly if a byte is no digit or the number is above INT64_MAX.
pub string_to_int64-plain :
    (c : ℕ) (s : Bytes)
    → is_hex (c ∷ s) ≡ false
    → c ≢ b'-'
    → c ≢ b'+'
    → string_to_int64 (c ∷ s) ≡ map_int pos (fitting (decimal_number (c ∷ s)))
unfolding string_to_int64
string_to_int64-plain c s h m p = ground (arith, decimal_value_lem pos c s)

-- Behind a `-` decimal digits convert to the negative of the number that they stand for, and
-- behind `0x` hexadecimal digits convert to theirs; each fails exactly if a byte is no digit or the
-- number is above INT64_MAX.
pub string_to_int64-prefixed :
    (c : ℕ) (s : Bytes)
    → (string_to_int64 (b'-' ∷ c ∷ s) ≡ map_int neg (fitting (decimal_number (c ∷ s))))
      × (string_to_int64 (b'0' ∷ b'x' ∷ c ∷ s) ≡ map_int pos (fitting (hex_number (c ∷ s))))
unfolding string_to_int64
string_to_int64-prefixed c s = (
  ground (arith, is_hex_minus c s, decimal_value_lem neg c s),
  ap (map_int pos) (convert_loop-fitting hex_digit 16 hex-IsBase (c ∷ s) 0 (omega arith)),
)
