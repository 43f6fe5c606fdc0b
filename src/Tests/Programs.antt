-- ===== src/Tests/Programs.antt =====
-- src/compiler.c: a program of three statements parsed.
use tira.Prelude.{ℕ, ◌≡◌, refl, arith, false, true, inl, [], ◌∷◌, Option, none, some, Bytes, codes}
use tira.Token.{
  Token, TokenType, t_var, t_ident, t_equals, t_minus, t_plus, t_asterisk, t_newline, t_return,
  t_end,
}
use tira.Lexer.{Lexer}
use tira.Ast.{ParserNode, block, identifier, var_decl, return, unary, binary_op, binop_invalid}
use tira.Parser.{Parser, ok}
use tira.Parser.Rules.{infix_rule}
use tira.Parser.Expression.{leaf, applied, joined, atom, is_identifier, prefixed, single, chained}
use tira.Parser.Statement.{
  expression, returned, declared, Program, stmt, last_stmt, expression_stmt, var_stmt, return_stmt,
}
use tira.Compile.Parse.{compiler_parse}
use tira.Compile.Program.{compiler_parse-Program}

abbrev no_double : Bytes → Option ℕ
no_double s = none

-- A token of one byte; `var` has three, `return` has six.
abbrev token : TokenType → ℕ → Token
token type start = record { type = type; start = start; length = 1; line = 1 }

-- The lexer behind `var x=-a`, `x` and `return x+a*b`, with newlines between them.
abbrev lexed : Lexer
lexed = record {
  tokens =
      record { type = t_var; start = 0; length = 3; line = 1 }
      ∷ token t_ident 4
      ∷ token t_equals 5
      ∷ token t_minus 6
      ∷ token t_ident 7
      ∷ token t_newline 8
      ∷ token t_ident 9
      ∷ token t_newline 10
      ∷ record { type = t_return; start = 11; length = 6; line = 3 }
      ∷ token t_ident 18
      ∷ token t_plus 19
      ∷ token t_ident 20
      ∷ token t_asterisk 21
      ∷ token t_ident 22
      ∷ token t_end 0
      ∷ [];
  cap = 512;
  input = codes "var x=-a\nx\nreturn x+a*b";
  pos = 23;
  at_line_start = false;
  line = 3;
  col = 13;
}

abbrev name : Bytes → ParserNode ℕ
name s = identifier s

lexed-Program : Program no_double lexed.input lexed.tokens (
    declared true (codes "x") (applied t_minus (leaf (name (codes "a"))))
    ∷ expression (leaf (name (codes "x")))
    ∷ returned (
        joined
          (joined (leaf (name (codes "x"))) (leaf (name (codes "a"))))
          (leaf (name (codes "b"))))
    ∷ [])
unfolding infix_rule
lexed-Program =
    stmt (token t_newline 8)
      (var_stmt (token t_equals 5) refl refl
        (single (prefixed (inl refl) (atom (is_identifier refl)))))
      (inl refl)
      (stmt (token t_newline 10) (expression_stmt (single (atom (is_identifier refl)))) (inl refl) (
        last_stmt (token t_end 0) []
          (return_stmt refl (
            chained (token t_asterisk 21)
              (chained (token t_plus 19) (single (atom (is_identifier refl))) refl
                (atom (is_identifier refl)))
              refl (atom (is_identifier refl))))
          refl))

compiler_parse-Program_example :
    (q : Parser ℕ) × (compiler_parse no_double 70 lexed ≡ ok tt q)
    × (q.nodes
        ≡ block 3
          ∷ var_decl (some 2) (some 3)
          ∷ name (codes "x")
          ∷ unary t_minus (some 4)
          ∷ name (codes "a")
          ∷ name (codes "x")
          ∷ return (some 10)
          ∷ name (codes "x")
          ∷ binary_op binop_invalid (some 7) (some 9)
          ∷ name (codes "a")
          ∷ binary_op binop_invalid (some 8) (some 11)
          ∷ name (codes "b")
          ∷ [])
    × (q.error_count ≡ 0)
compiler_parse-Program_example =
    compiler_parse-Program no_double 70 lexed _ lexed-Program (omega arith) (omega arith)
