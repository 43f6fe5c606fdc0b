-- ===== src/Compile/Parse.antt =====
-- src/compiler.c: `compiler_parse`, without the stage.
use tira.Prelude.{ℕ, [], Option, Bytes}
use tira.Lexer.{Lexer}
use tira.Parser.{Parser, Outcome}
use tira.Parser.Expr.{parse_program}

module _ {D : Type 0} where
  -- The parser as `compiler_parse` sets it up from the lexer.
  unfoldable pub initial_parser : Lexer → Parser D
  initial_parser l = record {
    source = l.input;
    pos = 0;
    tokens = l.tokens;
    nodes = [];
    node_cap = 256;
    error_count = 0;
  }

  unfoldable pub compiler_parse : (Bytes → Option D) → ℕ → Lexer → Outcome D (Unit {0})
  compiler_parse to_double f l = parse_program to_double f (initial_parser l)
