-- ===== src/Windows/Arguments.antt =====
-- src/platform_win32.c: `mainCRTStartup`, from the command line to the arguments of `main`.
pub mod Last
use tira.Prelude.{
  ℕ, zero, suc, ◌+◌, Bool, List, [], ◌∷◌, ◌++◌, Option, none, some, Bytes, length, take, drop, ltb,
  not, if◌then◌else◌,
}
use tira.Prelude.Int.{ℤ, pos, negsuc}

-- Whether the console handles are valid; the arguments that `CommandLineToArgvW` gives, none if it
-- fails; and the text that `WideCharToMultiByte` gives for one, without its NUL, unless it fails.
pub record CommandLine : Type 0 where
  pub handles_valid : Bool
  pub argv_w : Option (List (List ℕ))
  pub wide_char_to_multi_byte : List ℕ → Option Bytes

-- The bytes of `argbuf`, and for each entry of `argv` the offset in it that it points to.
pub record Arguments : Type 0 where
  pub argbuf : Bytes
  pub argv : List ℕ

-- How the start ends: `overrun`, where bytes are written behind `argbuf`, or a call of `main`.
pub data Started : Type 0 where
  returned : ℤ → Started
  overrun : Started
  calls_main : ℕ → Arguments → Started

abbrev pub write_at : Bytes → ℕ → Bytes → Bytes
write_at buf off text = take off buf ++ (text ++ drop (off + length text) buf)

-- One round of the loop, with `argbuf_off`. Where the conversion fails, `needed` is 0, and nothing is
-- written.
unfoldable pub argument : ℕ → Option Bytes → Arguments → Option Arguments
argument off none s = some (record s { argv = s.argv ++ off ∷ [] })
argument off (some text) s =
    if ltb 4096 (off + (length text + 1))
    then none
    else some
        (record { argbuf = write_at s.argbuf off (text ++ 0 ∷ []); argv = s.argv ++ off ∷ [] })

abbrev pub and_then : Option Arguments → (Arguments → Option Arguments) → Option Arguments
and_then none next = none
and_then (some s) next = next s

unfoldable pub argument_loop : CommandLine → ℕ → List (List ℕ) → Arguments → Option Arguments
argument_loop line off [] s = some s
argument_loop line off (arg ∷ args) s =
    and_then (argument off (line.wide_char_to_multi_byte arg) s) (argument_loop line off args)

abbrev pub zeroes : ℕ → Bytes
zeroes zero = []
zeroes (suc n) = 0 ∷ zeroes n

-- What `argbuf` and `argv` are at first.
unfoldable pub no_arguments : Arguments
no_arguments = record { argbuf = zeroes 4096; argv = [] }

abbrev pub call_main : ℕ → Option Arguments → Started
call_main argc none = overrun
call_main argc (some s) = calls_main argc s

-- With `MAX_ARGS` arguments at most.
unfoldable pub with_arguments : CommandLine → Option (List (List ℕ)) → Started
with_arguments line none = returned (negsuc 0)
with_arguments line (some argv_w) =
    let args = take 64 argv_w in call_main (length args) (argument_loop line 0 args no_arguments)

unfoldable pub main_crt_startup : CommandLine → Started
main_crt_startup line =
    if not line.handles_valid then returned (pos 1) else with_arguments line line.argv_w
