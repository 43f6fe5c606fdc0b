-- ===== src/Builder.antt =====
-- src/string.c: the string builder, a buffer of fixed capacity.
pub mod Room
pub mod Decimal
pub mod RoundTrip
use tira.Prelude.{
  ℕ, zero, suc, ◌+◌, ◌-◌, ◌/◌, ◌%◌, ◌^◌, Bool, true, false, ◌&&◌, List, [], ◌∷◌, ◌++◌, Option, none,
  some, Bytes, length, ltb, leb, ◌==◌, if◌then◌else◌,
}
use tira.Prelude.Int.{ℤ, pos, negsuc}

-- `buffer` holds the `buffer.len` bytes written.
pub record StringBuilder : Type 0 where
  pub buffer : Bytes
  pub capacity : ℕ

-- Subtraction of `size_t`.
unfoldable pub sub64 : ℕ → ℕ → ℕ
sub64 a b = (a + 2 ^ 64 - b) % 2 ^ 64

unfoldable pub sb_remaining : StringBuilder → ℕ
sb_remaining sb = sub64 sb.capacity (length sb.buffer)

unfoldable pub sb_push : Bytes → StringBuilder → StringBuilder
sb_push s sb = record sb { buffer = sb.buffer ++ s }

unfoldable pub sb_build_string : StringBuilder → Bytes → StringBuilder
sb_build_string sb s = if ltb (sb_remaining sb) (length s) then sb else sb_push s sb

unfoldable pub sb_build_char : StringBuilder → ℕ → StringBuilder
sb_build_char sb c =
    if leb (sub64 sb.capacity 1) (length sb.buffer) then sb else sb_push (c ∷ []) sb

unfoldable pub sb_newline : StringBuilder → StringBuilder
sb_newline sb = sb_build_char sb b'\n'

-- The loop that writes the digits into `temp`, the lowest first, with room for so many more; `none`
-- if it writes behind the array.
unfoldable pub temp_digits : ℕ → ℕ → Option Bytes
temp_digits zero u = if u == 0 then some [] else none
temp_digits (suc room) u =
    let rest = temp_digits room (u / 10) in
    if u == 0 then some [] else elim rest [ none ↦ none | some s ↦ some ((u % 10 + b'0') ∷ s) ]

-- `while (ti--)`: the bytes of `temp`, the last first.
unfoldable pub copied_back : Bytes → Bytes
copied_back [] = []
copied_back (c ∷ s) = copied_back s ++ c ∷ []

-- What is done with the digits.
unfoldable pub sb_build_temp : StringBuilder → Bytes → StringBuilder
sb_build_temp sb temp =
    if leb (sb_remaining sb) (length temp) then sb else sb_push (copied_back temp) sb

unfoldable pub sb_build_u64 : StringBuilder → ℕ → Option StringBuilder
sb_build_u64 sb u =
    if u == 0 && ltb 0 (sb_remaining sb)
    then some (sb_push (b'0' ∷ []) sb)
    else elim (temp_digits 16 u) [ none ↦ none | some temp ↦ some (sb_build_temp sb temp) ]

-- A negative number is -(n + 1).
unfoldable pub sb_build_int : StringBuilder → ℤ → Option StringBuilder
sb_build_int sb (pos n) =
    if n == 0 && ltb 0 (sb_remaining sb) then some (sb_push (b'0' ∷ []) sb) else sb_build_u64 sb n
sb_build_int sb (negsuc n) =
    if leb (sb_remaining sb) 1 then some sb else sb_build_u64 (sb_push (b'-' ∷ []) sb) (n + 1)
