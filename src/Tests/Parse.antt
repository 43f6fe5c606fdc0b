-- ===== src/Tests/Parse.antt =====
-- src/parser.c, src/compiler.c: programs parsed.
use tira.Prelude.{
  ℕ, ◌+◌, ◌*◌, ◌≡◌, refl, inl, arith, List, [], ◌∷◌, Option, none, some, Bytes, codes, length,
}
use tira.Token.{Token, t_plus, t_ident, t_end}
use tira.LexFile.Shebang.{AreTokens, Lexes}
use tira.LexFile.{compiler_lex_file, initial_lexer, has_shebang}
use tira.Ast.{identifier, binary_op, binop_invalid}
use tira.Parser.{Parser, ok}
use tira.Parser.Rules.{infix_rule, precedence, prec_lowest}
use tira.Parser.Expr.{parse_expr_prec}
use tira.Parser.Program.{Finishes}
use tira.Parser.Expression.{Expression, leaf, joined, single, chained, atom, is_identifier}
use tira.Parser.Expression.Steps.{After}
use tira.Parser.Expression.Complete.{parse_expr_prec-Expression}
use tira.Compile.{compiler_front_end_total}
use tira.Compile.Typing.{GivesTree, compiler_front_end-GivesTree}
use tira.Compile.Parse.{initial_parser, compiler_parse}

-- No text is a floating-point number.
abbrev no_double : Bytes → Option ℕ
no_double s = none

-- The tokens of `a+b`, and a parser in front of the one at a position.
abbrev sum_tokens : List Token
sum_tokens =
    record { type = t_ident; start = 0; length = 1; line = 1 }
    ∷ record { type = t_plus; start = 1; length = 1; line = 1 }
    ∷ record { type = t_ident; start = 2; length = 1; line = 1 }
    ∷ record { type = t_end; start = 0; length = 0; line = 0 }
    ∷ []

abbrev sum_parser : ℕ → Parser ℕ
sum_parser i = record {
  source = codes "a+b";
  pos = i;
  tokens = sum_tokens;
  nodes = [];
  node_cap = 256;
  error_count = 0;
}

-- A program that adds two names.
abbrev two_names : Bytes
two_names = codes "main {\n  return a+b\n}\n"

compiler_front_end_total_example :
    (ts : List Token) × AreTokens two_names ts
    × Lexes two_names ts
        (λ l. Finishes (initial_parser l) (compiler_parse no_double (8 * length l.tokens + 3) l))
        (compiler_lex_file 23 two_names)
unfolding has_shebang initial_lexer
compiler_front_end_total_example = compiler_front_end_total no_double two_names (inl refl)

compiler_front_end-GivesTree_example :
    (ts : List Token) × AreTokens two_names ts
    × Lexes two_names ts
        (λ l. GivesTree (compiler_parse no_double (8 * length l.tokens + 3) l))
        (compiler_lex_file 23 two_names)
unfolding has_shebang initial_lexer
compiler_front_end-GivesTree_example = compiler_front_end-GivesTree no_double two_names (inl refl)

-- The parser behind `a+b`: the operands, and between them in the array the operation, which has no
-- operator.
abbrev sum_parsed : Parser ℕ
sum_parsed = record (sum_parser 3) {
  nodes =
      identifier (codes "a")
      ∷ binary_op binop_invalid (some 0) (some 2)
      ∷ identifier (codes "b")
      ∷ [];
}

-- The sum as an expression of the grammar.
sum-Expression :
    Expression no_double
      (codes "a+b")
      (record { type = t_ident; start = 0; length = 1; line = 1 }
        ∷ record { type = t_plus; start = 1; length = 1; line = 1 }
        ∷ record { type = t_ident; start = 2; length = 1; line = 1 }
        ∷ [])
      (joined (leaf (identifier (codes "a"))) (leaf (identifier (codes "b"))))
unfolding infix_rule
sum-Expression = chained _ (single (atom (is_identifier refl))) refl (atom (is_identifier refl))

parse_expr_prec-Expression_example :
    (q : Parser ℕ) × (parse_expr_prec no_double 14 prec_lowest (sum_parser 0) ≡ ok (some 1) q)
    × After (sum_parser 0) q 3 sum_parsed.nodes
unfolding precedence
parse_expr_prec-Expression_example =
    parse_expr_prec-Expression no_double 14 (sum_parser 0) _ _
      (record { type = t_end; start = 0; length = 0; line = 0 }) [] sum-Expression
      (record {
        from_source = refl;
        facing = refl;
        low = omega arith;
        room = omega arith;
        fuel = omega arith;
      })
      refl
