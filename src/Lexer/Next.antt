-- ===== src/Lexer/Next.antt =====
-- src/lexer.c: `lex_next`, the switch on the first byte of a token included.
use tira.Prelude.{
  ℕ, ◌+◌, ◌-◌, Bool, false, not, ◌&&◌, ◌||◌, Option, none, some, Bytes, take, drop, ltb, ◌==◌,
  if◌then◌else◌,
}
use tira.Token.{
  TokenType, Token, t_invalid, t_num, t_string, t_semicolon, t_colon, t_double_colon, t_colon_eq,
  t_equals, t_eqeq, t_not_eq, t_comma, t_dotdot, t_dotdoteq, t_dot, t_question, t_lbrace, t_rbrace,
  t_lsqbracket, t_rsqbracket, t_lparen, t_rparen, t_pipe, t_logical_or, t_bitwise_or, t_logical_and,
  t_ampersand, t_xor, t_not, t_lt, t_lteq, t_gt, t_gteq, t_plus, t_minus, t_asterisk, t_slash,
  t_percent, t_equals_rarrow, t_ct_directive, t_newline, t_end,
}
use tira.Lexer.{
  Lexer, is_digit, is_alpha, is_alnum, is_hex_digit, keyword_or_identifier, lex_eof, lex_advance,
  advanced, lex_peek, while_lex, skip_blanks,
}

-- What the switch sets: the token's type, and the lexer behind the token.
abbrev pub Scanned : Type 0
Scanned = TokenType × Lexer

-- The cases of one character.
unfoldable pub single_char : ℕ → Option TokenType
single_char c =
    if c == b';'
    then some t_semicolon
    else if c == b','
    then some t_comma
    else if c == b'{'
    then some t_lbrace
    else if c == b'}'
    then some t_rbrace
    else if c == b'('
    then some t_lparen
    else if c == b')'
    then some t_rparen
    else if c == b'['
    then some t_lsqbracket
    else if c == b']'
    then some t_rsqbracket
    else if c == b'+'
    then some t_plus
    else if c == b'-'
    then some t_minus
    else if c == b'*'
    then some t_asterisk
    else if c == b'/'
    then some t_slash
    else if c == b'^'
    then some t_xor
    else if c == b'?'
    then some t_question
    else none

-- `switch (lex_peek(L))` with one case: the type with and without the second character.
unfoldable pub lex_pair : ℕ → TokenType → TokenType → Lexer → Scanned
lex_pair c yes_type no_type l = if lex_peek l == c then (yes_type, advanced l) else (no_type, l)

-- The same with two cases.
unfoldable pub lex_either : ℕ → TokenType → ℕ → TokenType → TokenType → Lexer → Scanned
lex_either c c_type d d_type no_type l =
    if lex_peek l == c
    then (c_type, advanced l)
    else if lex_peek l == d
    then (d_type, advanced l)
    else (no_type, l)

-- Behind a `.`.
unfoldable pub lex_dot : Lexer → Scanned
unfolding lex_pair
lex_dot l =
    if lex_peek l == b'.' then lex_pair b'=' t_dotdoteq t_dotdot (advanced l) else (t_dot, l)

-- Behind a quote: up to the next quote or the end, and over it.
unfoldable pub lex_string : Lexer → Scanned
lex_string l = (t_string, advanced (while_lex (λ c. not (c == b'"')) l))

unfoldable pub is_word_char : ℕ → Bool
unfolding is_alnum
is_word_char c = is_alnum c || c == b'_'

-- Behind a `%` that stands at `start`.
unfoldable pub lex_percent : ℕ → Lexer → Scanned
lex_percent start l =
    let m = while_lex is_word_char l in
    if l.at_line_start
    then ((if ltb (start + 1) m.pos then t_ct_directive else t_percent), m)
    else (t_percent, l)

-- The input from `start` up to the lexer's position.
unfoldable pub lexeme : ℕ → Lexer → Bytes
lexeme start l = take (l.pos - start) (drop start l.input)

unfoldable pub lex_word : ℕ → Lexer → Scanned
unfolding lexeme
lex_word start l = let m = while_lex is_word_char l in (keyword_or_identifier (lexeme start m), m)

-- Behind a digit `c`.
unfoldable pub lex_number : ℕ → Lexer → Scanned
lex_number c l =
    let next = lex_peek l in
    let m = advanced l in
    if c == b'0' && (next == b'x' || next == b'X')
    then (if not (is_hex_digit (lex_peek m))
        then (t_invalid, m)
        else (t_num, while_lex is_hex_digit m))
    else (t_num, while_lex is_digit l)

-- The cases that look at further characters.
unfoldable pub lex_multi : ℕ → ℕ → Lexer → Scanned
lex_multi c start l =
    if c == b'.'
    then lex_dot l
    else if c == b'='
    then lex_either b'=' t_eqeq b'>' t_equals_rarrow t_equals l
    else if c == b'!'
    then lex_pair b'=' t_not_eq t_not l
    else if c == b'<'
    then lex_pair b'=' t_lteq t_lt l
    else if c == b'>'
    then lex_pair b'=' t_gteq t_gt l
    else if c == b'|'
    then lex_either b'|' t_logical_or b'>' t_pipe t_bitwise_or l
    else if c == b'&'
    then lex_pair b'&' t_logical_and t_ampersand l
    else if c == b':'
    then lex_either b'=' t_colon_eq b':' t_double_colon t_colon l
    else if c == b'"'
    then lex_string l
    else if c == b'%'
    then lex_percent start l
    else if is_alpha c || c == b'_'
    then lex_word start l
    else if is_digit c
    then lex_number c l
    else (t_invalid, l)

-- `switch (c)`: the byte `c` at `start` is read.
unfoldable pub lex_switch : ℕ → ℕ → Lexer → Scanned
lex_switch c start l = elim (single_char c) [ some t ↦ (t, l) | none ↦ lex_multi c start l ]

-- Behind blanks and comments; the flag is `has_newline_in_block_comment`.
unfoldable pub lex_token : Bool → Lexer → Token × Lexer
lex_token has_newline l =
    let tok : Token = record { type = t_invalid; start = l.pos; length = 0; line = l.line } in
    let c = (lex_advance l).0 in
    let m = advanced l in
    let scanned = lex_switch c l.pos m in
    if has_newline
    then (record tok { type = t_newline }, l)
    else if lex_eof l
    then (record tok { type = t_end }, l)
    else if c == b'\n'
    then (
      record tok { type = t_newline; length = m.pos - l.pos },
      record m { line = m.line + 1; col = 1; at_line_start = false },
    )
    else (
      record tok { type = scanned.0; length = scanned.1.pos - l.pos },
      record scanned.1 { at_line_start = false },
    )

unfoldable pub lex_next : Lexer → Token × Lexer
unfolding lex_token
lex_next l = lex_token (skip_blanks l).0 (skip_blanks l).1
