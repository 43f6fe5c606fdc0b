-- ===== src/Windows.antt =====
-- src/platform_win32.c: a file read into the arena. What the Windows functions give is an argument.
pub mod Arguments
pub mod Reading
pub mod Whole
use tira.Prelude.{
  ℕ, ◌+◌, ◌-◌, ◌^◌, Bool, not, [], ◌∷◌, ◌++◌, List, Option, none, some, Bytes, length, ltb, ◌==◌,
  if◌then◌else◌,
}
use tira.Memory.{Arena, alloc}
use tira.Builder.{sub64}

-- The units that `MultiByteToWideChar` writes for a path, into so many places, none if it fails;
-- whether `CreateFileW` opens a file; the size that `GetFileSizeEx` gives; and the bytes that
-- `ReadFile` gives for a count, unless it fails.
pub record Win32 : Type 0 where
  pub multi_byte_to_wide_char : Bytes → ℕ → List ℕ
  pub create_file : List ℕ → Bool
  pub get_file_size : Option ℕ
  pub read_file : ℕ → Option Bytes

-- `buf.data`, the bytes there, of which there are `buf.len`, the arena, and how many handles are open.
pub record FileBuf : Type 0 where
  pub data_at : Option ℕ
  pub text : Bytes
  pub arena : Arena
  pub handles : ℕ

-- `behind_path`: the NUL is written behind the places of `path_w`.
pub data FileRead : Type 0 where
  file_read : FileBuf → FileRead
  assertion_failed behind_path : FileRead

abbrev pub no_file : ℕ → Arena → FileRead
no_file h a = file_read (record { data_at = none; text = []; arena = a; handles = h })

-- `CloseHandle`.
abbrev pub close_file : ℕ → ℕ
close_file h = h - 1

abbrev pub with_bytes : ℕ → ℕ → Arena → Option Bytes → FileRead
with_bytes h p a none = no_file (close_file h) a
with_bytes h p a (some got) =
    file_read (record { data_at = some p; text = got; arena = a; handles = close_file h })

unfoldable pub read_allocated : Win32 → ℕ → ℕ → Option ℕ × Arena → FileRead
read_allocated w h size (none, a) = no_file (close_file h) a
read_allocated w h size (some p, a) =
    if ltb (2 ^ 32 - 1) size then assertion_failed else with_bytes h p a (w.read_file size)

unfoldable pub read_sized : Win32 → ℕ → ℕ → Arena → FileRead
read_sized w h size a =
    if ltb (sub64 a.size a.used) size
    then no_file (close_file h) a
    else read_allocated w h size (alloc a 1 1 size)

-- With the size that `GetFileSizeEx` gives.
unfoldable pub read_opened : Win32 → ℕ → Arena → Option ℕ → FileRead
read_opened w h a none = no_file (close_file h) a
read_opened w h a (some size) = read_sized w h size a

-- From the conversion on, with `MAX_PATH` places for the path.
unfoldable pub read_path : Win32 → ℕ → List ℕ → Arena → FileRead
read_path w h path_w a =
    if length path_w == 0
    then no_file h a
    else if not (ltb (length path_w) 260)
    then behind_path
    else if w.create_file (path_w ++ 0 ∷ [])
    then read_opened w (h + 1) a w.get_file_size
    else no_file h a

unfoldable pub platform_read_entire_file : Win32 → ℕ → Bytes → Arena → FileRead
platform_read_entire_file w h path a =
    if ltb (2 ^ 31 - 2) (length path)
    then assertion_failed
    else read_path w h (w.multi_byte_to_wide_char path 260) a
