-- ===== src/Lexer.antt =====
-- src/lexer.c (repeated in src/lexer.h): the scanner. A byte of the input is a number below 256;
-- the tests on bytes give the same answers as on the source's signed `char`, whose negative values
-- fail them all. Each loop of the source is a recursion on fuel that is at least the number of
-- bytes left, and every round of each loop takes a byte.
pub mod Next
pub mod Cursor
pub mod Progress
pub mod Newlines
pub mod Scans
pub mod Spans
pub mod Lines
use tira.Prelude.{
  ℕ, zero, suc, ◌+◌, ◌-◌, Bool, true, false, not, ◌&&◌, ◌||◌, List, [], ◌∷◌, Bytes, codes, length,
  get_or, ltb, leb, ◌==◌, if◌then◌else◌,
}
use tira.Token.{
  TokenType, Token, t_ident, t_var, t_const, t_cffi, t_func, t_true, t_false, t_return, t_if,
  t_else, t_case, t_main, t_for, t_in, t_struct, t_nil, t_ref,
}

-- `tokens` holds the first `size` entries of the token array.
pub record Lexer : Type 0 where
  pub tokens : List Token
  pub cap : ℕ
  pub input : Bytes
  pub pos : ℕ
  pub at_line_start : Bool
  pub line : ℕ
  pub col : ℕ

-- `size`, the number of tokens written.
abbrev pub size : Lexer → ℕ
size l = length l.tokens

unfoldable pub is_space : ℕ → Bool
is_space c = c == b' ' || c == 12 || c == b'\r' || c == b'\t' || c == 11

unfoldable pub is_digit : ℕ → Bool
is_digit c = leb b'0' c && leb c b'9'

unfoldable pub is_alpha : ℕ → Bool
is_alpha c = (leb b'A' c && leb c b'Z') || (leb b'a' c && leb c b'z')

unfoldable pub is_alnum : ℕ → Bool
is_alnum c = is_alpha c || is_digit c

unfoldable pub is_hex_digit : ℕ → Bool
is_hex_digit c = is_digit c || (leb b'a' c && leb c b'f') || (leb b'A' c && leb c b'F')

-- `n == strlen(word) && !memcmp(str, word, n)`, where `str` has the length `n`.
unfoldable pub equals_word : Bytes → Bytes → Bool
equals_word [] [] = true
equals_word (a ∷ s) (b ∷ w) = a == b && equals_word s w
equals_word _ _ = false

-- The chain of tests on the text of a word.
unfoldable pub keyword_or_identifier : Bytes → TokenType
keyword_or_identifier s =
    if equals_word s (codes "func")
    then t_func
    else if equals_word s (codes "true")
    then t_true
    else if equals_word s (codes "false")
    then t_false
    else if equals_word s (codes "if")
    then t_if
    else if equals_word s (codes "else")
    then t_else
    else if equals_word s (codes "struct")
    then t_struct
    else if equals_word s (codes "case")
    then t_case
    else if equals_word s (codes "cffi")
    then t_cffi
    else if equals_word s (codes "return")
    then t_return
    else if equals_word s (codes "main")
    then t_main
    else if equals_word s (codes "nil")
    then t_nil
    else if equals_word s (codes "for")
    then t_for
    else if equals_word s (codes "in")
    then t_in
    else if equals_word s (codes "ref")
    then t_ref
    else if equals_word s (codes "var")
    then t_var
    else if equals_word s (codes "const")
    then t_const
    else t_ident

unfoldable pub lex_eof : Lexer → Bool
lex_eof l = leb (length l.input) l.pos

-- The byte read, 0 at the end, and the lexer behind it.
unfoldable pub lex_advance : Lexer → ℕ × Lexer
unfolding lex_eof
lex_advance l =
    if lex_eof l
    then (0, l)
    else (get_or l.input l.pos 0, record l { pos = l.pos + 1; col = l.col + 1 })

abbrev pub advanced : Lexer → Lexer
advanced l = (lex_advance l).1

unfoldable pub lex_peek : Lexer → ℕ
unfolding lex_eof
lex_peek l = if lex_eof l then 0 else get_or l.input l.pos 0

-- `lex_peek(L) == '/'` and the byte behind it is `c`.
unfoldable pub is_comment_start : ℕ → Lexer → Bool
unfolding lex_peek
is_comment_start c l =
    lex_peek l == b'/' && ltb (l.pos + 1) (length l.input) && get_or l.input (l.pos + 1) 0 == c

abbrev pub is_line_comment_start : Lexer → Bool
is_line_comment_start = is_comment_start b'/'

abbrev pub is_block_comment_start : Lexer → Bool
is_block_comment_start = is_comment_start b'*'

-- The bytes left, which bounds the rounds of every loop.
abbrev pub remaining : Lexer → ℕ
remaining l = length l.input - l.pos

unfoldable pub while_lex_loop : ℕ → (ℕ → Bool) → Lexer → Lexer
while_lex_loop zero cond l = l
while_lex_loop (suc f) cond l =
    let rest = while_lex_loop f cond (advanced l) in
    if not (lex_eof l) && cond (lex_peek l) then rest else l

-- `while_lex(cond)`, where every `cond` of the source is a test of `lex_peek(L)`.
unfoldable pub while_lex : (ℕ → Bool) → Lexer → Lexer
unfolding while_lex_loop
while_lex cond l = while_lex_loop (remaining l) cond l

unfoldable pub skip_line_comment : Lexer → Lexer
skip_line_comment l = while_lex (λ c. not (c == b'\n')) (advanced (advanced l))

-- The variables of the loop in `skip_block_comment`.
pub record Comment : Type 0 where
  pub depth : ℕ
  pub has_newline : Bool
  pub lexer : Lexer

unfoldable pub comment_step : Comment → Comment
comment_step s =
    let c = (lex_advance s.lexer).0 in
    let l = advanced s.lexer in
    if c == b'\n'
    then record s { has_newline = true; lexer = record l { line = l.line + 1; col = 1 } }
    else if c == b'/' && lex_peek l == b'*'
    then record s { depth = s.depth + 1; lexer = advanced l }
    else if c == b'*' && lex_peek l == b'/'
    then record s { depth = s.depth - 1; lexer = advanced l }
    else record s { lexer = l }

unfoldable pub comment_loop : ℕ → Comment → Comment
comment_loop zero s = s
comment_loop (suc f) s =
    let rest = comment_loop f (comment_step s) in
    if not (lex_eof s.lexer) && ltb 0 s.depth then rest else s

unfoldable pub skip_block_comment : Lexer → Bool × Lexer
unfolding comment_loop
skip_block_comment l =
    let m = advanced (advanced l) in
    let s = comment_loop (remaining m) (record { depth = 1; has_newline = false; lexer = m }) in
    (s.has_newline, s.lexer)

-- One round of the loop that skips blanks and comments: `again` is its `continue`. The flag is
-- `has_newline_in_block_comment`, which every block comment sets anew.
pub data Round : Type 0 where
  again : Bool → Lexer → Round
  done : Bool → Lexer → Round

unfoldable pub skip_round : Bool → Lexer → Round
skip_round nl l =
    let m = while_lex is_space l in
    if is_line_comment_start m
    then again nl (skip_line_comment m)
    else if is_block_comment_start m
    then again (skip_block_comment m).0 (skip_block_comment m).1
    else done nl m

unfoldable pub skip_loop : ℕ → Bool → Lexer → Bool × Lexer
skip_loop zero nl l = (nl, l)
skip_loop (suc f) nl l = elim (skip_round nl l) [ again b m ↦ skip_loop f b m | done b m ↦ (b, m) ]

unfoldable pub skip_blanks : Lexer → Bool × Lexer
unfolding skip_loop
skip_blanks l = skip_loop (remaining l + 1) false l
