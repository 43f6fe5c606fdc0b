-- ===== src/Platform.antt =====
-- src/platform_linux.c: a file read into the arena. What the system calls give is an argument.
pub mod Reading
use tira.Prelude.{
  ℕ, zero, suc, ◌+◌, ◌-◌, Bool, true, false, not, List, [], ◌∷◌, ◌++◌, Option, none, some, Bytes,
  length, ltb, if◌then◌else◌,
}
use tira.Memory.{Arena, alloc}

-- Whether `open` succeeds, the size that `fstat` gives, and what `read` gives for an offset and a
-- count: the bytes, of which there may be none, or an error.
pub record System : Type 0 where
  pub opened : Bool
  pub stat_size : Option ℕ
  pub read : ℕ → ℕ → Option Bytes

-- `result.data`, the bytes at `result.data` of which there are `result.len`, the arena, and the
-- address where the NUL is written.
pub record FileBuf : Type 0 where
  pub data_at : Option ℕ
  pub text : Bytes
  pub arena : Arena
  pub nul : Option ℕ

-- `trapped`: there is no memory. `still_reading`: the fuel is spent.
pub data FileRead : Type 0 where
  file_read : FileBuf → FileRead
  trapped still_reading : FileRead

-- `if (n <= 0) break; total += n;`, with the rounds that are left.
abbrev pub after_read : (Bytes → Option Bytes) → Bytes → Option Bytes → Option Bytes
after_read next got none = some got
after_read next got (some []) = some got
after_read next got (some (c ∷ s)) = next (got ++ c ∷ s)

-- `got` are the bytes so far, `total` in number.
unfoldable pub read_loop : ℕ → (ℕ → ℕ → Option Bytes) → ℕ → Bytes → Option Bytes
read_loop zero read size got = none
read_loop (suc f) read size got =
    if ltb (length got) size
    then after_read (read_loop f read size) got (read (length got) (size - length got))
    else some got

abbrev pub empty_file : Arena → FileRead
empty_file a = file_read (record { data_at = none; text = []; arena = a; nul = none })

abbrev pub filled : ℕ → ℕ → Arena → Option Bytes → FileRead
filled p size a none = still_reading
filled p size a (some got) =
    file_read (record { data_at = some p; text = got; arena = a; nul = some (p + size) })

unfoldable pub read_into : ℕ → System → ℕ → Option ℕ × Arena → FileRead
read_into f sys size (none, a) = trapped
read_into f sys size (some p, a) = filled p size a (read_loop f sys.read size [])

unfoldable pub platform_read_entire_file : ℕ → System → Arena → FileRead
platform_read_entire_file f sys a = if not sys.opened then empty_file a else elim sys.stat_size [
  | none ↦ empty_file a
  | some size ↦ read_into f sys size (alloc a 1 1 (size + 1))
]
