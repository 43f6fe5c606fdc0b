-- ===== src/Compile/Program.antt =====
-- src/compiler.c: `compiler_parse` on the programs of the grammar.
use tira.Prelude.{ℕ, ◌+◌, ◌*◌, ◌≤◌, ◌≡◌, refl, arith, List, ◌∷◌, Option, Bytes, length}
use tira.Ast.{block}
use tira.Lexer.{Lexer}
use tira.Parser.{Parser, ok}
use tira.Parser.Statement.{Stmt, stmts_count, stmts_nodes, Program}
use tira.Parser.Statement.Whole.{parse_program-Program}
use tira.Compile.Parse.{initial_parser, compiler_parse}

module _ {D : Type 0} where
  -- Tokens that are a program of the grammar, of `return`, `var`, `const` and expressions with
  -- newlines or semicolons between them and END behind them, are parsed without an error, if the
  -- program has at most 255 nodes and the fuel is four for each token and four. The nodes are the
  -- block, with the number of statements, and then those of each statement in order.
  pub compiler_parse-Program :
      (to_double : Bytes → Option D) (F : ℕ) (l : Lexer) (ss : List (Stmt D))
      → Program to_double l.input l.tokens ss
      → stmts_count ss ≤ 255
      → 4 * length l.tokens + 4 ≤ F
      → (q : Parser D) × (compiler_parse to_double F l ≡ ok tt q)
        × (q.nodes ≡ block (length ss) ∷ stmts_nodes 1 ss)
        × (q.error_count ≡ 0)
  unfolding compiler_parse initial_parser
  compiler_parse-Program to_double F l ss d few fuel =
      parse_program-Program to_double F (initial_parser l) l.tokens ss d refl (omega (arith, few))
        (omega (arith, few)) fuel
