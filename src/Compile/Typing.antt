-- ===== src/Compile/Typing.antt =====
-- src/compiler.c: the syntax trees that the first two stages give.
use tira.Prelude.{ℕ, ◌+◌, ◌*◌, ◌≡◌, ◌≢◌, refl, List, Option, Bytes, length}
use tira.Token.{Token}
use tira.Lexer.{Lexer}
use tira.LexFile.{compiler_lex_file}
use tira.LexFile.Shebang.{ShebangEnds, AreTokens, Lexes, Lexes-map}
use tira.Parser.{Parser, Fault, out_of_fuel, Outcome, ok, fault}
use tira.Parser.Program.{Finishes, stopped}
use tira.Parser.Typing.{Typed}
use tira.Parser.Typing.Program.{parse_program-Typed}
use tira.Compile.{compiler_front_end_total}
use tira.Compile.Parse.{initial_parser, compiler_parse}

module _ {D : Type 0} where
  -- How the parser ends: with an array of nodes in which the pointers to nodes are NULL or point to nodes of the
  -- kinds that are read through them, or with a fault of the source.
  pub data GivesTree : Outcome D (Unit {0}) → Type 0 where
    tree_of : {q : Parser D} → Typed q.nodes → GivesTree (ok tt q)
    faulted : {e : Fault} → e ≢ out_of_fuel → GivesTree (fault e)

  Finishes-GivesTree :
      (to_double : Bytes → Option D) (l : Lexer) (f : ℕ) (o : Outcome D (Unit {0}))
      → compiler_parse to_double f l ≡ o
      → Finishes (initial_parser l) o
      → GivesTree o
  unfolding compiler_parse initial_parser
  Finishes-GivesTree to_double l f (ok _ q) e h =
      tree_of (parse_program-Typed to_double f (initial_parser l) q tt e)
  Finishes-GivesTree to_double l f (fault x) e (stopped n) = faulted n

  -- A file whose `#!` line, if it has one, ends is read and parsed in a bounded number of steps. If
  -- its tokens do not fill the array, so that `END` is inside it, and the parser does not stop with a
  -- fault of the source, then every pointer to a node that is kept in a node it leaves is NULL or
  -- points to a node of the array, and to an identifier, a block or an `if` where the names, the
  -- bodies and the branches of declarations, functions, loops and `if` are looked up. The arrays of
  -- statements, arguments, elements and tuples are not spoken of.
  pub compiler_front_end-GivesTree :
      (to_double : Bytes → Option D) (source : Bytes)
      → ShebangEnds source
      → (ts : List Token) × AreTokens source ts
        × Lexes source ts
            (λ l. GivesTree (compiler_parse to_double (8 * length l.tokens + 3) l))
            (compiler_lex_file (length source + 1) source)
  compiler_front_end-GivesTree to_double source h =
      let (ts, tokens, lexes) = compiler_front_end_total to_double source h in
      (
        ts,
        tokens,
        Lexes-map (λ l ends. Finishes-GivesTree to_double l (8 * length l.tokens + 3) _ refl ends)
            lexes,
      )
