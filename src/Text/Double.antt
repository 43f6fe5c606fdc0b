-- ===== src/Text/Double.antt =====
-- src/string.c: `string_to_double`, over the operations of floating point that it uses. What they
-- compute is not modelled.
pub mod Decimal
use tira.Prelude.{
  ℕ, ◌-◌, Bool, true, false, ◌||◌, [], ◌∷◌, Option, none, some, Bytes, ltb, ◌==◌, if◌then◌else◌,
}

-- The literals `0.0`, `1.0` and `10.0`, the conversion of a digit, and the arithmetic.
pub record Floats : Type 1 where
  pub Double : Type 0
  pub zero_point : Double
  pub one : Double
  pub ten : Double
  pub of_digit : ℕ → Double
  pub add : Double → Double → Double
  pub mul : Double → Double → Double
  pub div : Double → Double → Double
  pub negate : Double → Double

module _ (floats : Floats) where
  open floats use {Double, zero_point, one, ten, of_digit, add, mul, div, negate}

  -- The variables of the loop.
  pub record Digits : Type 0 where
    pub result : Double
    pub fraction : Double
    pub divisor : Double
    pub in_fraction : Bool

  unfoldable pub start_digits : Digits
  start_digits = record {
    result = zero_point;
    fraction = zero_point;
    divisor = one;
    in_fraction = false;
  }

  -- One round, or `none` for `return false`.
  unfoldable pub double_step : ℕ → Digits → Option Digits
  double_step c d =
      let divisor' = mul d.divisor ten in
      if c == b'.'
      then (if d.in_fraction then none else some (record d { in_fraction = true }))
      else if ltb c b'0' || ltb b'9' c
      then none
      else if d.in_fraction
      then some (record d {
        divisor = divisor';
        fraction = add d.fraction (div (of_digit (c - b'0')) divisor');
      })
      else some (record d { result = add (mul d.result ten) (of_digit (c - b'0')) })

  unfoldable pub double_loop : Bytes → Digits → Option Digits
  double_loop [] d = some d
  double_loop (c ∷ s) d = elim (double_step c d) [ none ↦ none | some e ↦ double_loop s e ]

  -- The value written to `out`.
  unfoldable pub double_value : (Double → Double) → Option Digits → Option Double
  double_value sign none = none
  double_value sign (some d) = some (sign (add d.result d.fraction))

  unfoldable pub string_to_double : Bytes → Option Double
  unfolding double_loop double_step double_value start_digits
  string_to_double [] = none
  string_to_double (c ∷ s) =
      if c == b'-'
      then double_value negate (double_loop s start_digits)
      else if c == b'+'
      then double_value (λ x. x) (double_loop s start_digits)
      else double_value (λ x. x) (double_loop (c ∷ s) start_digits)
