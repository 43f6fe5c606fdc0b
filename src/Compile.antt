-- ===== src/Compile.antt =====
-- src/compiler.c: the first two stages of the compiler, `compiler_lex_file` and `compiler_parse`.
pub mod Parse
pub mod Stages
pub mod Printing
pub mod Ends
pub mod Main
pub mod Reach
pub mod Typing
pub mod Program
use tira.Prelude.{
  ℕ, ◌+◌, ◌*◌, ◌^◌, ◌≤◌, ◌≡◌, refl, arith, List, [], ◌∷◌, ◌++◌, Option, Bytes, length,
}
use tira.Token.{Token}
use tira.Lexer.{Lexer, size}
use tira.LexFile.{LexedFile, end_outside, lexed, end_token, compiler_lex_file}
use tira.LexFile.Shebang.{
  AreTokens, Lexes, fills, holds, Lexes-map, compiler_lex_file_total, ShebangEnds,
}
use tira.Compile.Parse.{initial_parser, compiler_parse}
use tira.Parser.Program.{Finishes, parse_program_total}

module _ {D : Type 0} where
  pub initial_parser-Finishes :
      (to_double : Bytes → Option D) (l : Lexer)
      → Finishes (initial_parser l) (compiler_parse to_double (8 * length l.tokens + 3) l)
  unfolding compiler_parse initial_parser
  initial_parser-Finishes to_double l =
      parse_program_total to_double (8 * length l.tokens + 3) (initial_parser l) (omega arith)
        (omega arith) tt

  -- A file whose `#!` line, if it has one, ends is read and parsed in a bounded number of steps. Either
  -- its tokens fill the array and `END` is written behind it; or the array holds the tokens of the
  -- file and `END`, and the parser ends or stops with a fault of the source. If it ends, the text
  -- and the tokens are as the lexer left them, the nodes fit in their array, and no binary operation
  -- has an operator.
  pub compiler_front_end_total :
      (to_double : Bytes → Option D) (source : Bytes)
      → ShebangEnds source
      → (ts : List Token) × AreTokens source ts
        × Lexes source ts
            (λ l.
              Finishes (initial_parser l) (compiler_parse to_double (8 * length l.tokens + 3) l))
            (compiler_lex_file (length source + 1) source)
  compiler_front_end_total to_double source h =
      let (ts, tokens, lexes) = compiler_lex_file_total source h in
      (ts, tokens, Lexes-map (λ l _. initial_parser-Finishes to_double l) lexes)

-- The lexer behind a file that is lexed with its `END` inside the array: the tokens of the file, in
-- order, and `END`.
pub record Lexed (source : Bytes) (l : Lexer) : Type 0 where
  pub is_lexed : compiler_lex_file (length source + 1) source ≡ lexed l
  pub ts : List Token
  pub tokens : AreTokens source ts
  pub stored : l.tokens ≡ ts ++ end_token ∷ []

-- What comes of a file, whatever it is.
pub data LexesTo (source : Bytes) : LexedFile → Type 0 where
  to_lexer : {l : Lexer} → Lexed source l → LexesTo source (lexed l)
  to_outside :
      (ts : List Token) (k : ℕ)
      → AreTokens source ts
      → length ts ≡ 512 * 2 ^ k
      → LexesTo source end_outside

Lexes-LexesTo :
    (source : Bytes) (ts : List Token) (P : Lexer → Type 0) (o : LexedFile)
    → compiler_lex_file (length source + 1) source ≡ o
    → AreTokens source ts
    → Lexes source ts P o
    → LexesTo source o
Lexes-LexesTo source ts P _ r a (fills k e) = to_outside ts k a e
Lexes-LexesTo source ts P _ r a (holds l i e p) =
    to_lexer (record { is_lexed = r; ts = ts; tokens = a; stored = e })

pub compiler_lex_file-LexesTo :
    (source : Bytes)
    → ShebangEnds source
    → LexesTo source (compiler_lex_file (length source + 1) source)
compiler_lex_file-LexesTo source h =
    let (ts, a, lexes) = compiler_lex_file_total source h in
    Lexes-LexesTo source ts (λ l. size l ≤ l.cap) _ refl a lexes
