-- ===== src/Print.antt =====
-- src/print.c: `vsnprintf`. The format and the strings are the bytes before their NUL.
pub mod Bounds
pub mod Render
pub mod Digits
pub mod Full
use tira.Prelude.{
  ℕ, zero, suc, ◌+◌, ◌-◌, Bool, true, false, not, ◌&&◌, List, [], ◌∷◌, ◌++◌, Option, none, some,
  Bytes, codes, length, ltb, ◌==◌, if◌then◌else◌,
}
use tira.Prelude.Int.{ℤ, pos, negsuc}
use tira.Builder.{temp_digits, copied_back}

-- The arguments of `vlist`: a string or NULL, a `size_t`, an `int`.
pub data Arg : Type 0 where
  arg_string : Option Bytes → Arg
  arg_size : ℕ → Arg
  arg_int : ℤ → Arg

-- The bytes written to the buffer, and `rem`.
pub record Buffer : Type 0 where
  pub out : Bytes
  pub rem : ℕ

-- What is written, the result, and the place of the NUL.
pub record Written : Type 0 where
  pub text : Bytes
  pub written : ℕ
  pub nul : Option ℕ

-- `still_running`: the fuel is spent. The others are where C leaves open what is done: an argument
-- of another kind or none is taken, the format is read behind its NUL, or a digit is written
-- behind `tmp`.
pub data Printed (A : Type 0) : Type 0 where
  done : A → Printed A
  still_running bad_argument behind_format behind_tmp : Printed A

abbrev pub then_print : {A B : Type 0} → Printed A → (A → Printed B) → Printed B
then_print (done a) f = f a
then_print still_running f = still_running
then_print bad_argument f = bad_argument
then_print behind_format f = behind_format
then_print behind_tmp f = behind_tmp

abbrev pub put : ℕ → Buffer → Buffer
put c b = record { out = b.out ++ c ∷ []; rem = b.rem - 1 }

-- A byte, if there is room.
unfoldable pub put_one : ℕ → Buffer → Buffer
put_one c b = if ltb 1 b.rem then put c b else b

-- `while (*s)`: the string is left where it is if there is no room.
unfoldable pub put_string : ℕ → Bytes → Buffer → Printed Buffer
put_string zero s b = still_running
put_string (suc f) [] b = done b
put_string (suc f) (c ∷ s) b = elim (ltb 1 b.rem) [
  | true ↦ put_string f s (put c b)
  | false ↦ put_string f (c ∷ s) b
]

-- The digits of `tmp`, the last first, if more than one byte stays free.
unfoldable pub put_temp : Bytes → Buffer → Buffer
put_temp temp b =
    if ltb (length temp + 1) b.rem
    then record { out = b.out ++ copied_back temp; rem = b.rem - length temp }
    else b

-- `tmp[i++] = '-'`, in an array of so many bytes.
unfoldable pub with_sign : ℕ → Bytes → Option Bytes
with_sign room temp = if ltb (length temp) room then some (temp ++ b'-' ∷ []) else none

abbrev pub put_digits : Option Bytes → Buffer → Printed Buffer
put_digits none b = behind_tmp
put_digits (some temp) b = done (put_temp temp b)

unfoldable pub put_size : ℕ → Buffer → Printed Buffer
put_size v b = if v == 0 then done (put_one b'0' b) else put_digits (temp_digits 32 v) b

abbrev pub sign_digits : Option Bytes → Option Bytes
sign_digits none = none
sign_digits (some temp) = with_sign 16 temp

unfoldable pub put_int : ℤ → Buffer → Printed Buffer
put_int (pos n) b = if n == 0 then done (put_one b'0' b) else put_digits (temp_digits 16 n) b
put_int (negsuc n) b = put_digits (sign_digits (temp_digits 16 (n + 1))) b

-- What the directives take from the arguments, and the arguments left.
unfoldable pub take_string : ℕ → List Arg → Buffer → Printed (List Arg × Buffer)
take_string f (arg_string (some s) ∷ args) b = then_print (put_string f s b) λ c. done (args, c)
take_string f (arg_string none ∷ args) b =
    then_print (put_string f (codes "(null)") b) λ c. done (args, c)
take_string f _ b = bad_argument

unfoldable pub take_size : List Arg → Buffer → Printed (List Arg × Buffer)
take_size (arg_size v ∷ args) b = then_print (put_size v b) λ c. done (args, c)
take_size _ b = bad_argument

unfoldable pub take_int : List Arg → Buffer → Printed (List Arg × Buffer)
take_int (arg_int v ∷ args) b = then_print (put_int v b) λ c. done (args, c)
take_int _ b = bad_argument

-- The rounds that are left: of a format, the arguments and the buffer.
abbrev pub Rounds : Type 0
Rounds = Bytes → List Arg → Buffer → Printed Buffer

-- A byte of the format that is copied; the format is left where it is if there is no room.
unfoldable pub literal : Rounds → ℕ → Bytes → List Arg → Buffer → Printed Buffer
literal next c format args b =
    if ltb 1 b.rem then next format args (put c b) else next (c ∷ format) args b

abbrev pub starts_with : ℕ → Bytes → Bool
starts_with c [] = false
starts_with c (d ∷ s) = d == c

abbrev pub behind_one : Bytes → Bytes
behind_one [] = []
behind_one (c ∷ s) = s

-- The part behind a `%`.
unfoldable pub directive : ℕ → Rounds → Bytes → List Arg → Buffer → Printed Buffer
directive f next [] args b = behind_format
directive f next (c ∷ format) args b =
    if c == b'%'
    then literal next c format args b
    else if c == b's'
    then then_print (take_string f args b) (λ r. next format r.0 r.1)
    else if c == b'z' && starts_with b'u' format
    then then_print (take_size args b) (λ r. next (behind_one format) r.0 r.1)
    else if c == b'd'
    then then_print (take_int args b) (λ r. next format r.0 r.1)
    else next format args b

unfoldable pub format_loop : ℕ → Rounds
format_loop zero format args b = still_running
format_loop (suc f) [] args b = done b
format_loop (suc f) (c ∷ format) args b =
    if not (c == b'%')
    then literal (format_loop f) c format args b
    else directive f (format_loop f) format args b

-- The part behind the loop.
unfoldable pub terminate : ℕ → Buffer → Written
terminate bufsz b =
    let written = bufsz - b.rem in
    if ltb 0 bufsz
    then record {
      text = b.out;
      written = written;
      nul = some (if ltb written bufsz then written else bufsz - 1);
    }
    else record { text = b.out; written = 0; nul = none }

unfoldable pub vsnprintf : ℕ → ℕ → Bytes → List Arg → Printed Written
vsnprintf f bufsz format args =
    then_print (format_loop f format args (record { out = []; rem = bufsz }))
      λ b. done (terminate bufsz b)
