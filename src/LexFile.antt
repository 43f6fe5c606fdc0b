-- ===== src/LexFile.antt =====
-- src/compiler.c: `compiler_lex_file`, which reads a file into the token array.
pub mod Total
pub mod Shebang
pub mod Room
use tira.Prelude.{
  ℕ, zero, suc, ◌+◌, ◌*◌, Bool, true, false, not, ◌&&◌, List, [], ◌∷◌, ◌++◌, Option, none, some,
  Bytes, length, get_or, ltb, leb, ◌==◌, if◌then◌else◌,
}
use tira.Token.{Token, is_type, t_end}
use tira.Lexer.{Lexer, size, advanced, lex_peek}
use tira.Lexer.Next.{lex_next}

-- The lexer of a fresh compiler is zeroed; then the fields are set.
unfoldable pub initial_lexer : Bytes → Lexer
initial_lexer source = record {
  tokens = [];
  cap = 512;
  input = source;
  pos = 0;
  at_line_start = true;
  line = 1;
  col = 0;
}

unfoldable pub has_shebang : Lexer → Bool
has_shebang l =
    l.pos == 0 && ltb 2 (length l.input) && get_or l.input 0 0 == b'#' && get_or l.input 1 0 == b'!'

-- `while (lex_peek(lexer) != '\n') lex_advance(lexer);`, and `none` if it is still running when the
-- fuel is spent.
unfoldable pub skip_shebang : ℕ → Lexer → Option Lexer
skip_shebang zero l = none
skip_shebang (suc f) l =
    let rest = skip_shebang f (advanced l) in if not (lex_peek l == b'\n') then rest else some l

-- One entry more, in an array of twice the size if this one is full. The new array holds the
-- entries of the old one.
unfoldable pub push_token : Lexer → Token → Lexer
push_token l tok =
    let grown = if leb l.cap (size l) then record l { cap = l.cap * 2 } else l in
    record grown { tokens = grown.tokens ++ tok ∷ [] }

-- The loop up to the `END` token, which it does not store.
unfoldable pub token_loop : ℕ → Lexer → Option Lexer
token_loop zero l = none
token_loop (suc f) l =
    let tok = (lex_next l).0 in
    let m = (lex_next l).1 in
    let rest = token_loop f (push_token m tok) in
    if not (is_type tok.type t_end) then rest else some m

abbrev pub end_token : Token
end_token = record { type = t_end; start = 0; length = 0; line = 0 }

-- The write behind the loop, which does not look at the capacity.
unfoldable pub append_end : Lexer → Lexer
append_end l = record l { tokens = l.tokens ++ end_token ∷ [] }

-- The lexer behind the `#!` line, if there is one.
unfoldable pub start_lexer : ℕ → Bytes → Option Lexer
start_lexer f source =
    let l = initial_lexer source in if has_shebang l then skip_shebang f l else some l

-- The lexer behind the loop over the tokens. Each loop has the fuel `f`; `none` if one of them is
-- still running then.
unfoldable pub lex_tokens : ℕ → Bytes → Option Lexer
lex_tokens f source = elim (start_lexer f source) [ none ↦ none | some m ↦ token_loop f m ]

-- What comes of a file: a loop is still running when the fuel is spent; the `END` is written behind
-- the array, whose entries are all tokens; or the array holds the tokens and the `END`.
pub data LexedFile : Type 0 where
  still_lexing end_outside : LexedFile
  lexed : Lexer → LexedFile

unfoldable pub store_end : Lexer → LexedFile
store_end l =
    let stored = append_end l in if ltb l.cap (size stored) then end_outside else lexed stored

unfoldable pub compiler_lex_file : ℕ → Bytes → LexedFile
compiler_lex_file f source = elim (lex_tokens f source) [
  | none ↦ still_lexing
  | some m ↦ store_end m
]
