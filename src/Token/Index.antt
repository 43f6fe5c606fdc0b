-- ===== src/Token/Index.antt =====
-- Token kinds are told apart by their enumeration values.
use tira.Prelude.{ℕ, true, ◌≡◌, refl, ap, sym, ◌∙◌, List, [], ◌∷◌, get_or, ==_iff}
use tira.Token.{
  TokenType, token_index, is_type, t_invalid, t_ident, t_num, t_string, t_semicolon, t_colon,
  t_double_colon, t_colon_eq, t_equals, t_eqeq, t_not_eq, t_comma, t_dotdot, t_dotdoteq, t_dot,
  t_question, t_lbrace, t_rbrace, t_lsqbracket, t_rsqbracket, t_lparen, t_rparen, t_pipe,
  t_logical_or, t_bitwise_or, t_logical_and, t_ampersand, t_xor, t_not, t_lt, t_lteq, t_gt, t_gteq,
  t_plus, t_minus, t_asterisk, t_slash, t_percent, t_var, t_const, t_import, t_cffi, t_func, t_true,
  t_false, t_return, t_if, t_else, t_case, t_main, t_for, t_in, t_struct, t_nil, t_type, t_ref,
  t_equals_rarrow, t_ct_directive, t_newline, t_end, t_count,
}

-- The kinds in the order of the list.
abbrev pub token_types : List TokenType
token_types =
    t_invalid ∷ t_ident ∷ t_num ∷ t_string ∷ t_semicolon ∷ t_colon ∷ t_double_colon ∷ t_colon_eq
    ∷ t_equals ∷ t_eqeq ∷ t_not_eq ∷ t_comma ∷ t_dotdot ∷ t_dotdoteq ∷ t_dot ∷ t_question ∷ t_lbrace
    ∷ t_rbrace ∷ t_lsqbracket ∷ t_rsqbracket ∷ t_lparen ∷ t_rparen ∷ t_pipe ∷ t_logical_or
    ∷ t_bitwise_or ∷ t_logical_and ∷ t_ampersand ∷ t_xor ∷ t_not ∷ t_lt ∷ t_lteq ∷ t_gt ∷ t_gteq
    ∷ t_plus ∷ t_minus ∷ t_asterisk ∷ t_slash ∷ t_percent ∷ t_var ∷ t_const ∷ t_import ∷ t_cffi
    ∷ t_func ∷ t_true ∷ t_false ∷ t_return ∷ t_if ∷ t_else ∷ t_case ∷ t_main ∷ t_for ∷ t_in
    ∷ t_struct ∷ t_nil ∷ t_type ∷ t_ref ∷ t_equals_rarrow ∷ t_ct_directive ∷ t_newline ∷ t_end
    ∷ t_count ∷ []

kind_at : ℕ → TokenType
kind_at n = get_or token_types n t_invalid

kind_at-token_index : (t : TokenType) → kind_at (token_index t) ≡ t
unfolding kind_at token_index
kind_at-token_index t_invalid = refl
kind_at-token_index _ = refl

-- Equal enumeration values are equal kinds.
pub is_type→eq : (t u : TokenType) → is_type t u ≡ true → t ≡ u
is_type→eq t u h =
    sym (kind_at-token_index t) ∙ ap kind_at ((==_iff _ _).0 h) ∙ kind_at-token_index u

pub is_type_refl : (t : TokenType) → is_type t t ≡ true
is_type_refl t = (==_iff _ _).1 refl
