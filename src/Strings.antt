-- ===== src/Strings.antt =====
-- src/string.c: `strlen`, `strcmp` and `string_compare`. The memory is a function from addresses.
pub mod Compare
use tira.Prelude.{
  ℕ, zero, suc, ◌+◌, ◌-◌, Bool, true, false, not, ◌&&◌, Option, none, some, leb, ◌==◌,
  if◌then◌else◌,
}
use tira.Prelude.Int.{ℤ}
use tira.Memory.Block.{Memory, difference}

-- `while (*s) ++s;`, and `none` if it is still running when the fuel is spent.
unfoldable pub strlen_loop : ℕ → Memory → ℕ → Option ℕ
strlen_loop zero m s = none
strlen_loop (suc f) m s =
    let rest = strlen_loop f m (s + 1) in if not (m s == 0) then rest else some s

abbrev pub minus : ℕ → Option ℕ → Option ℕ
minus str none = none
minus str (some s) = some (s - str)

unfoldable pub strlen : ℕ → Memory → ℕ → Option ℕ
strlen f m str = minus str (strlen_loop f m str)

unfoldable pub strcmp : ℕ → Memory → ℕ → ℕ → Option ℤ
strcmp zero m lhs rhs = none
strcmp (suc f) m lhs rhs =
    let rest = strcmp f m (lhs + 1) (rhs + 1) in
    if (m lhs == m rhs) && not (m lhs == 0) then rest else some (difference (m lhs) (m rhs))

-- A `String`: `data` and `len`.
pub record Str : Type 0 where
  pub data_at : ℕ
  pub len : ℕ

abbrev pub behind_first : Str → Str
behind_first s = record s { data_at = s.data_at + 1 }

-- The loop compares the addresses, not the bytes.
unfoldable pub string_compare : ℕ → Memory → Str → Str → Option ℤ
string_compare zero m lhs rhs = none
string_compare (suc f) m lhs rhs =
    let rest = string_compare f m (behind_first lhs) (behind_first rhs) in
    if (lhs.data_at == rhs.data_at) && leb lhs.len rhs.len
    then rest
    else some (difference (m lhs.data_at) (m rhs.data_at))
