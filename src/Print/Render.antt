-- ===== src/Print/Render.antt =====
-- src/print.c: the texts that formats stand for, apart from buffers.
use tira.Prelude.{
  ℕ, zero, suc, ◌+◌, ◌/◌, ◌%◌, ◌^◌, ◌<◌, List, [], ◌∷◌, ◌++◌, Option, none, some, Bytes, codes,
  ◌==◌, if◌then◌else◌,
}
use tira.Prelude.Int.{ℤ, pos, negsuc}
use tira.Print.{Arg, arg_string, arg_size, arg_int}

-- The parts of a format.
pub data Piece : Type 0 where
  plain : ℕ → Piece
  string size int : Piece

-- The part as it is written in a format.
unfoldable pub spell : List Piece → Bytes
spell [] = []
spell (plain c ∷ ps) = if c == b'%' then b'%' ∷ b'%' ∷ spell ps else c ∷ spell ps
spell (string ∷ ps) = b'%' ∷ b's' ∷ spell ps
spell (size ∷ ps) = b'%' ∷ b'z' ∷ b'u' ∷ spell ps
spell (int ∷ ps) = b'%' ∷ b'd' ∷ spell ps

-- The decimal digits of a number, the last one apart; so many at most.
unfoldable pub decimal : ℕ → ℕ → Bytes
decimal zero v = []
decimal (suc room) v =
    let rest = decimal room (v / 10) in if v == 0 then [] else rest ++ (v % 10 + b'0') ∷ []

unfoldable pub size_text : ℕ → Bytes
size_text v = if v == 0 then b'0' ∷ [] else decimal 20 v

unfoldable pub int_text : ℤ → Bytes
int_text (pos n) = size_text n
int_text (negsuc n) = b'-' ∷ decimal 20 (n + 1)

unfoldable pub string_text : Option Bytes → Bytes
string_text none = codes "(null)"
string_text (some s) = s

-- The numbers of 32 bits.
abbrev pub InRange : ℤ → Type 0
InRange (pos n) = n < 2 ^ 31
InRange (negsuc n) = n < 2 ^ 31

-- The arguments are of the kinds of the parts and within their types.
abbrev pub Matches : List Piece → List Arg → Type 0
Matches [] args = Unit
Matches (plain c ∷ ps) args = Matches ps args
Matches (string ∷ ps) (arg_string s ∷ args) = Matches ps args
Matches (size ∷ ps) (arg_size v ∷ args) = (v < 2 ^ 64) × Matches ps args
Matches (int ∷ ps) (arg_int v ∷ args) = InRange v × Matches ps args
Matches (_ ∷ ps) args = ⊥

unfoldable pub render : List Piece → List Arg → Bytes
render [] args = []
render (plain c ∷ ps) args = c ∷ render ps args
render (string ∷ ps) (arg_string s ∷ args) = string_text s ++ render ps args
render (size ∷ ps) (arg_size v ∷ args) = size_text v ++ render ps args
render (int ∷ ps) (arg_int v ∷ args) = int_text v ++ render ps args
render (_ ∷ ps) args = []
