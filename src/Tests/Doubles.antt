-- ===== src/Tests/Doubles.antt =====
-- src/string.c: a text with a sign and a point read, over whole numbers in place of doubles.
use tira.Prelude.{ℕ, ◌+◌, ◌*◌, ◌/◌, ◌≡◌, ◌↔◌, some, codes}
use tira.Text.Double.{Floats, string_to_double}
use tira.Text.Double.Decimal.{Written, string_to_double-Written}

abbrev naturals : Floats
naturals = record {
  Double = ℕ;
  zero_point = 0;
  one = 1;
  ten = 10;
  of_digit = λ n. n;
  add = λ a b. a + b;
  mul = λ a b. a * b;
  div = λ a b. a * 100 / b;
  negate = λ a. a;
}

string_to_double-Written_example :
    (string_to_double naturals (codes "-3.5") ≡ some 53) ↔ Written naturals (codes "-3.5") 53
string_to_double-Written_example = string_to_double-Written naturals (codes "-3.5") 53
