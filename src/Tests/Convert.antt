-- ===== src/Tests/Convert.antt =====
-- src/string.c: texts converted to numbers.
use tira.Prelude.{◌≡◌, refl, some, codes, arith}
use tira.Prelude.Int.{pos, neg}
use tira.Text.{string_to_int64, is_hex, map_int, decimal_digit, hex_digit}
use tira.Text.Integer.{string_to_int64-plain, string_to_int64-prefixed, fitting, digits_value}

string_to_int64-plain_example : string_to_int64 (codes "1280") ≡ some (pos 1280)
unfolding map_int fitting digits_value decimal_digit is_hex
string_to_int64-plain_example =
    string_to_int64-plain b'1' (codes "280") refl (λ e. omega (arith, e)) (λ e. omega (arith, e))

string_to_int64-prefixed_example :
    (string_to_int64 (codes "-12") ≡ some (neg 12))
    × (string_to_int64 (codes "0x12") ≡ some (pos 18))
unfolding map_int fitting digits_value decimal_digit hex_digit
string_to_int64-prefixed_example = string_to_int64-prefixed b'1' (codes "2")
