-- ===== src/Codegen/Runtime.antt =====
-- src/bootstrap_codegen.c: `tira_rt__puts`, the function that a call prints a number with. Its result
-- here is what is written to the console, one text for each call of `console_out`.
pub mod Reverse
pub mod Puts
use tira.Prelude.{
  ℕ, zero, suc, ◌+◌, ◌-◌, Bool, true, false, List, [], ◌∷◌, ◌++◌, Option, none, some, Bytes, length,
  get_or, set, ltb, ◌==◌, if◌then◌else◌,
}
use tira.Prelude.Int.{ℤ, pos, negsuc}
use tira.Builder.{temp_digits}

-- Two bytes exchanged by way of `tmp`.
unfoldable pub swap : Bytes → ℕ → ℕ → Bytes
swap buf lo hi = set (set buf lo (get_or buf hi 0)) hi (get_or buf lo 0)

-- `while (lo < hi)`, where `top` is `hi + 1`, which may be 0; `none` if it is still running when the
-- fuel is spent.
unfoldable pub reverse_loop : ℕ → ℕ → ℕ → Bytes → Option Bytes
reverse_loop zero lo top buf = none
reverse_loop (suc f) lo top buf =
    let rest = reverse_loop f (lo + 1) (top - 1) (swap buf lo (top - 1)) in
    if ltb (lo + 1) top then rest else some buf

abbrev pub newline_behind : Option Bytes → Option Bytes
newline_behind none = none
newline_behind (some text) = some (text ++ b'\n' ∷ [])

-- The digits, the lowest first, turned around, and a newline behind them.
unfoldable pub number_line : Option Bytes → Option Bytes
number_line none = none
number_line (some digits) =
    newline_behind (reverse_loop (length digits + 1) 0 (length digits) digits)

abbrev pub before : List Bytes → Option Bytes → Option (List Bytes)
before lines none = none
before lines (some line) = some (lines ++ line ∷ [])

unfoldable pub tira_rt__puts : ℤ → Option (List Bytes)
tira_rt__puts (pos n) =
    before (if n == 0 then (b'0' ∷ b'\n' ∷ []) ∷ [] else []) (number_line (temp_digits 32 n))
tira_rt__puts (negsuc n) = before [] (number_line (some []))
