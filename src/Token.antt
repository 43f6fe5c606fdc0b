-- ===== src/Token.antt =====
-- src/lexer.c, src/lexer.h: the token kinds (the X_TOKEN_TYPES list), their printed names and the
-- tokens. `COUNT`, the last entry of the list, is the number of the others.
pub mod Index
use tira.Prelude.{ℕ, Bool, Bytes, codes, ◌==◌}

pub data TokenType : Type 0 where
  t_invalid t_ident t_num t_string t_semicolon t_colon t_double_colon t_colon_eq t_equals :
      TokenType
  t_eqeq t_not_eq t_comma t_dotdot t_dotdoteq t_dot t_question t_lbrace t_rbrace t_lsqbracket :
      TokenType
  t_rsqbracket t_lparen t_rparen t_pipe t_logical_or t_bitwise_or t_logical_and t_ampersand :
      TokenType
  t_xor t_not t_lt t_lteq t_gt t_gteq t_plus t_minus t_asterisk t_slash t_percent t_var t_const :
      TokenType
  t_import t_cffi t_func t_true t_false t_return t_if t_else t_case t_main t_for t_in t_struct :
      TokenType
  t_nil t_type t_ref t_equals_rarrow t_ct_directive t_newline t_end t_count : TokenType

-- The value of the enumeration constant.
unfoldable pub token_index : TokenType → ℕ
token_index t_invalid = 0
token_index t_ident = 1
token_index t_num = 2
token_index t_string = 3
token_index t_semicolon = 4
token_index t_colon = 5
token_index t_double_colon = 6
token_index t_colon_eq = 7
token_index t_equals = 8
token_index t_eqeq = 9
token_index t_not_eq = 10
token_index t_comma = 11
token_index t_dotdot = 12
token_index t_dotdoteq = 13
token_index t_dot = 14
token_index t_question = 15
token_index t_lbrace = 16
token_index t_rbrace = 17
token_index t_lsqbracket = 18
token_index t_rsqbracket = 19
token_index t_lparen = 20
token_index t_rparen = 21
token_index t_pipe = 22
token_index t_logical_or = 23
token_index t_bitwise_or = 24
token_index t_logical_and = 25
token_index t_ampersand = 26
token_index t_xor = 27
token_index t_not = 28
token_index t_lt = 29
token_index t_lteq = 30
token_index t_gt = 31
token_index t_gteq = 32
token_index t_plus = 33
token_index t_minus = 34
token_index t_asterisk = 35
token_index t_slash = 36
token_index t_percent = 37
token_index t_var = 38
token_index t_const = 39
token_index t_import = 40
token_index t_cffi = 41
token_index t_func = 42
token_index t_true = 43
token_index t_false = 44
token_index t_return = 45
token_index t_if = 46
token_index t_else = 47
token_index t_case = 48
token_index t_main = 49
token_index t_for = 50
token_index t_in = 51
token_index t_struct = 52
token_index t_nil = 53
token_index t_type = 54
token_index t_ref = 55
token_index t_equals_rarrow = 56
token_index t_ct_directive = 57
token_index t_newline = 58
token_index t_end = 59
token_index t_count = 60

-- `a == b` on enumeration values.
abbrev pub is_type : TokenType → TokenType → Bool
is_type t u = token_index t == token_index u

-- `token_type_strings`, the stringised names.
unfoldable pub token_type_string : TokenType → Bytes
token_type_string t_invalid = codes "INVALID"
token_type_string t_ident = codes "IDENT"
token_type_string t_num = codes "NUM"
token_type_string t_string = codes "STRING"
token_type_string t_semicolon = codes "SEMICOLON"
token_type_string t_colon = codes "COLON"
token_type_string t_double_colon = codes "DOUBLE_COLON"
token_type_string t_colon_eq = codes "COLON_EQ"
token_type_string t_equals = codes "EQUALS"
token_type_string t_eqeq = codes "EQEQ"
token_type_string t_not_eq = codes "NOT_EQ"
token_type_string t_comma = codes "COMMA"
token_type_string t_dotdot = codes "DOTDOT"
token_type_string t_dotdoteq = codes "DOTDOTEQ"
token_type_string t_dot = codes "DOT"
token_type_string t_question = codes "QUESTION"
token_type_string t_lbrace = codes "LBRACE"
token_type_string t_rbrace = codes "RBRACE"
token_type_string t_lsqbracket = codes "LSQBRACKET"
token_type_string t_rsqbracket = codes "RSQBRACKET"
token_type_string t_lparen = codes "LPAREN"
token_type_string t_rparen = codes "RPAREN"
token_type_string t_pipe = codes "PIPE"
token_type_string t_logical_or = codes "LOGICAL_OR"
token_type_string t_bitwise_or = codes "BITWISE_OR"
token_type_string t_logical_and = codes "LOGICAL_AND"
token_type_string t_ampersand = codes "AMPERSAND"
token_type_string t_xor = codes "XOR"
token_type_string t_not = codes "NOT"
token_type_string t_lt = codes "LT"
token_type_string t_lteq = codes "LTEQ"
token_type_string t_gt = codes "GT"
token_type_string t_gteq = codes "GTEQ"
token_type_string t_plus = codes "PLUS"
token_type_string t_minus = codes "MINUS"
token_type_string t_asterisk = codes "ASTERISK"
token_type_string t_slash = codes "SLASH"
token_type_string t_percent = codes "PERCENT"
token_type_string t_var = codes "VAR"
token_type_string t_const = codes "CONST"
token_type_string t_import = codes "IMPORT"
token_type_string t_cffi = codes "CFFI"
token_type_string t_func = codes "FUNC"
token_type_string t_true = codes "TRUE"
token_type_string t_false = codes "FALSE"
token_type_string t_return = codes "RETURN"
token_type_string t_if = codes "IF"
token_type_string t_else = codes "ELSE"
token_type_string t_case = codes "CASE"
token_type_string t_main = codes "MAIN"
token_type_string t_for = codes "FOR"
token_type_string t_in = codes "IN"
token_type_string t_struct = codes "STRUCT"
token_type_string t_nil = codes "NIL"
token_type_string t_type = codes "TYPE"
token_type_string t_ref = codes "REF"
token_type_string t_equals_rarrow = codes "EQUALS_RARROW"
token_type_string t_ct_directive = codes "CT_DIRECTIVE"
token_type_string t_newline = codes "NEWLINE"
token_type_string t_end = codes "END"
token_type_string t_count = codes "COUNT"

pub record Token : Type 0 where
  pub type : TokenType
  pub start : ℕ
  pub length : ℕ
  pub line : ℕ
