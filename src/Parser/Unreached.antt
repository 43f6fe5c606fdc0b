-- ===== src/Parser/Unreached.antt =====
-- src/parser.c: functions that nothing calls: an older recursive descent for expressions, and tests on
-- tokens and operators.
use tira.Prelude.{ℕ, zero, suc, ◌≡◌, ◌⊎◌, arith, Bool, true, false, ◌||◌, Option, none, some, Bytes}
use tira.Token.{
  TokenType, is_type, t_ident, t_num, t_string, t_true, t_false, t_nil, t_minus, t_not, t_lparen,
  t_rparen, t_lsqbracket, t_lbrace, t_if, t_comma, t_dot,
}
use tira.Parser.{
  out_of_fuel, assertion, fault, M, pure, stop, ◌>>=◌, ◌>>◌, run, when◌then◌else◌, peek, advance,
  match, raise_error, expect,
}
use tira.Parser.Rules.{Prefix, prefix_rule, prec_lowest}
use tira.Parser.Expr.{parse_expr_prec}

unfoldable is_expr_start : TokenType → Bool
is_expr_start t_ident = true
is_expr_start t_num = true
is_expr_start t_string = true
is_expr_start t_true = true
is_expr_start t_false = true
is_expr_start t_nil = true
is_expr_start t_minus = true
is_expr_start t_not = true
is_expr_start t_lparen = true
is_expr_start t_lsqbracket = true
is_expr_start t_lbrace = true
is_expr_start t_if = true
is_expr_start _ = false

-- The tokens with a prefix function begin an expression, apart from `for`.
is_expr_start-prefix_rule :
    (t : TokenType) (rule : Prefix)
    → prefix_rule t ≡ some rule
    → (is_expr_start t ≡ true) ⊎ (rule ≡ Prefix.parse_for_expr)
unfolding is_expr_start prefix_rule
is_expr_start-prefix_rule _ rule h = ground arith

data OpKind : Type 0 where
  op_add op_sub op_mul op_div op_mod op_eq op_neq op_lt op_gt op_lte op_gte : OpKind
  op_and op_or op_not op_bitwise_or : OpKind

-- `none` where the assertion fails.
unfoldable get_op_precedence : OpKind → Option ℕ
get_op_precedence op_mul = some 1
get_op_precedence op_div = some 1
get_op_precedence op_add = some 2
get_op_precedence op_sub = some 2
get_op_precedence op_bitwise_or = some 3
get_op_precedence _ = none

module _ {D : Type 0} (to_double : Bytes → Option D) where
  unfoldable parse_primary : ℕ → M D (Unit {0})
  parse_primary f = do
    t ← peek
    when is_type t.type t_num
          || is_type t.type t_ident
          || is_type t.type t_string
          || is_type t.type t_nil
          || is_type t.type t_true
          || is_type t.type t_false
        then (advance >> pure tt)
        else (when is_type t.type t_lparen
            then (do advance; parse_expr_prec to_double f prec_lowest; expect t_rparen; pure tt)
            else raise_error)

  -- The arguments of a call.
  unfoldable call_loop : ℕ → M D (Unit {0})
  call_loop zero p = fault out_of_fuel
  call_loop (suc f) p = run p do
    parse_expr_prec to_double f prec_lowest
    comma ← match t_comma
    when comma then call_loop f else pure tt

  -- A `.` and a `{` fail an assertion.
  unfoldable postfix_loop : ℕ → M D (Unit {0})
  postfix_loop zero p = fault out_of_fuel
  postfix_loop (suc f) p = run p do
    next ← peek
    when is_type next.type t_lparen
        then (do
          advance
          first ← peek
          when is_type first.type t_rparen then pure tt else call_loop f
          expect t_rparen
          postfix_loop f)
        else (when is_type next.type t_dot || is_type next.type t_lbrace
            then stop assertion
            else pure tt)

  unfoldable parse_postfix : ℕ → M D (Unit {0})
  parse_postfix f = parse_primary f >> postfix_loop f

  -- Its first statement is the assertion.
  unfoldable parse_struct_init : M D (Unit {0})
  parse_struct_init = stop assertion
