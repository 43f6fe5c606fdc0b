-- ===== src/Parser/Rules.antt =====
-- src/parser.c: the precedences and the rule table of the Pratt parser.
use tira.Prelude.{ℕ, Option, none, some}
use tira.Token.{
  TokenType, t_num, t_string, t_ident, t_nil, t_true, t_false, t_lparen, t_lsqbracket, t_comma,
  t_minus, t_not, t_plus, t_asterisk, t_slash, t_lt, t_gt, t_lteq, t_gteq, t_eqeq, t_not_eq,
  t_question, t_dotdot, t_dotdoteq, t_dot, t_equals, t_if, t_for,
}

-- The values of the enumeration `Precedence`.
abbrev pub prec_none : ℕ
prec_none = 0

abbrev pub prec_comma : ℕ
prec_comma = 1

abbrev pub prec_assign : ℕ
prec_assign = 2

abbrev pub prec_ternary : ℕ
prec_ternary = 3

abbrev pub prec_range : ℕ
prec_range = 4

abbrev pub prec_cmp : ℕ
prec_cmp = 7

abbrev pub prec_term : ℕ
prec_term = 8

abbrev pub prec_factor : ℕ
prec_factor = 9

abbrev pub prec_unary : ℕ
prec_unary = 10

abbrev pub prec_call : ℕ
prec_call = 11

abbrev pub prec_primary : ℕ
prec_primary = 12

abbrev pub prec_lowest : ℕ
prec_lowest = prec_none

abbrev pub prec_highest : ℕ
prec_highest = prec_primary

-- The functions that the table names.
pub data Prefix : Type 0 where
  parse_number parse_string parse_identifier parse_nil parse_bool : Prefix
  parse_grouping parse_array_lit parse_unary parse_if_expr parse_for_expr : Prefix

pub data Infix : Type 0 where
  parse_call parse_index parse_comma parse_binary parse_ternary : Infix
  parse_range parse_dot parse_assign : Infix

-- `rules[t].prefix`, `none` for NULL.
unfoldable pub prefix_rule : TokenType → Option Prefix
prefix_rule t_num = some parse_number
prefix_rule t_string = some parse_string
prefix_rule t_ident = some parse_identifier
prefix_rule t_nil = some parse_nil
prefix_rule t_true = some parse_bool
prefix_rule t_false = some parse_bool
prefix_rule t_lparen = some parse_grouping
prefix_rule t_lsqbracket = some parse_array_lit
prefix_rule t_minus = some parse_unary
prefix_rule t_not = some parse_unary
prefix_rule t_if = some parse_if_expr
prefix_rule t_for = some parse_for_expr
prefix_rule _ = none

-- `rules[t].infix`, `none` for NULL.
unfoldable pub infix_rule : TokenType → Option Infix
infix_rule t_lparen = some parse_call
infix_rule t_lsqbracket = some parse_index
infix_rule t_comma = some parse_comma
infix_rule t_minus = some parse_binary
infix_rule t_plus = some parse_binary
infix_rule t_asterisk = some parse_binary
infix_rule t_slash = some parse_binary
infix_rule t_lt = some parse_binary
infix_rule t_gt = some parse_binary
infix_rule t_lteq = some parse_binary
infix_rule t_gteq = some parse_binary
infix_rule t_eqeq = some parse_binary
infix_rule t_not_eq = some parse_binary
infix_rule t_question = some parse_ternary
infix_rule t_dotdot = some parse_range
infix_rule t_dotdoteq = some parse_range
infix_rule t_dot = some parse_dot
infix_rule t_equals = some parse_assign
infix_rule _ = none

-- `rules[t].precedence`.
unfoldable pub precedence : TokenType → ℕ
precedence t_lparen = prec_call
precedence t_lsqbracket = prec_call
precedence t_comma = prec_comma
precedence t_minus = prec_term
precedence t_plus = prec_term
precedence t_asterisk = prec_factor
precedence t_slash = prec_factor
precedence t_lt = prec_cmp
precedence t_gt = prec_cmp
precedence t_lteq = prec_cmp
precedence t_gteq = prec_cmp
precedence t_eqeq = prec_cmp
precedence t_not_eq = prec_cmp
precedence t_question = prec_ternary
precedence t_dotdot = prec_range
precedence t_dotdoteq = prec_range
precedence t_dot = prec_call
precedence t_equals = prec_assign
precedence _ = prec_none
