-- ===== src/Lexer/Scans.antt =====
-- src/lexer.c: what the switch of `lex_next` does to the lexer.
use tira.Prelude.{
  ℕ, ◌≡◌, ◌≢◌, refl, ◌∙◌, inl, inr, Bool, true, false, ◌&&◌, ◌||◌, arith, ◌==◌, if◌then◌else◌,
  Bool-cases, Option-cases, some, Bytes,
}
use tira.Token.{
  TokenType, token_index, t_invalid, t_num, t_dot, t_dotdot, t_dotdoteq, t_string, t_eqeq,
  t_equals_rarrow, t_equals, t_not_eq, t_not, t_lteq, t_lt, t_gteq, t_gt, t_logical_or, t_pipe,
  t_bitwise_or, t_logical_and, t_ampersand, t_colon_eq, t_double_colon, t_colon, t_ct_directive,
  t_end,
}
use tira.Lexer.{
  Lexer, is_digit, is_alpha, is_hex_digit, keyword_or_identifier, advanced, lex_peek, while_lex,
}
use tira.Lexer.Next.{
  Scanned, single_char, lex_pair, lex_either, lex_dot, lex_string, is_word_char, lex_percent,
  lex_word, lex_number, lex_multi, lex_switch,
}
use tira.Lexer.Cursor.{Moves, Moves-refl, Moves-trans, lex_advance-Moves, while_lex-Moves}
use tira.Lexer.Newlines.{
  newlines_left, advance-same_newlines, while_lex-same_newlines, while_lex-line, advance-line,
  advance-at_line_start,
}

-- A type that only the end of the input has is none of the others.
abbrev pub NotEnd : TokenType → Type 0
NotEnd t = token_index t ≢ token_index t_end

-- What the switch does: it goes forward, gives no `END`, leaves the line number alone, gives a
-- directive at the start of a line only, and passes a newline only inside a string.
pub record ScansTo (l : Lexer) (t : TokenType) (m : Lexer) : Type 0 where
  pub moves : Moves l m
  pub not_end : NotEnd t
  pub same_line : m.line ≡ l.line
  pub directive : token_index t ≡ token_index t_ct_directive → l.at_line_start ≡ true
  pub newlines_kept : token_index t ≢ token_index t_string → newlines_left m ≡ newlines_left l

abbrev pub Scans : Lexer → Scanned → Type 0
Scans l (t, m) = ScansTo l t m

pick : {l : Lexer} (b : Bool) {x y : Scanned} → Scans l x → Scans l y → Scans l (if b then x else y)
pick true p q = p
pick false p q = q

-- Types that ask nothing of the place they are given at.
abbrev IsPlain : TokenType → Type 0
IsPlain t = NotEnd t × (token_index t ≢ token_index t_ct_directive)

Scans-here : (l : Lexer) (t : TokenType) → IsPlain t → Scans l (t, l)
Scans-here l t (a, b) = ground (arith, Moves-refl l)

Scans-advance :
    (l : Lexer) (t : TokenType) → IsPlain t → lex_peek l ≢ b'\n' → Scans l (t, advanced l)
Scans-advance l t (a, b) h =
    ground (arith, lex_advance-Moves l, advance-line l, advance-same_newlines l h)

Scans-while :
    (cond : ℕ → Bool) (l : Lexer) (t : TokenType)
    → IsPlain t
    → cond b'\n' ≡ false
    → Scans l (t, while_lex cond l)
Scans-while cond l t (a, b) h =
    ground (arith, while_lex-Moves cond l, while_lex-line cond l, while_lex-same_newlines cond l h)

-- One more byte in front.
Scans-after : {l : Lexer} (x : Scanned) → lex_peek l ≢ b'\n' → Scans (advanced l) x → Scans l x
Scans-after {l} x h s = ground (
  arith,
  Moves-trans (lex_advance-Moves l) s.moves,
  advance-line l,
  advance-at_line_start l,
  advance-same_newlines l h,
)

keyword_or_identifier-IsPlain : (s : Bytes) → IsPlain (keyword_or_identifier s)
unfolding keyword_or_identifier token_index
keyword_or_identifier-IsPlain s = ground arith

lex_pair-Scans :
    (c : ℕ) (t u : TokenType) (l : Lexer)
    → c ≢ b'\n'
    → IsPlain t
    → IsPlain u
    → Scans l (lex_pair c t u l)
unfolding lex_pair
lex_pair-Scans c t u l h p q = elim (Bool-cases (lex_peek l == c)) [
  | inl e ↦ rw e (Scans-advance l t p (ground arith))
  | inr e ↦ rw e (Scans-here l u q)
]

lex_either-Scans :
    (c d : ℕ) (t u v : TokenType) (l : Lexer)
    → c ≢ b'\n'
    → d ≢ b'\n'
    → IsPlain t
    → IsPlain u
    → IsPlain v
    → Scans l (lex_either c t d u v l)
unfolding lex_either lex_pair
lex_either-Scans c d t u v l g h p q r = elim (Bool-cases (lex_peek l == c)) [
  | inl e ↦ rw e (Scans-advance l t p (ground arith))
  | inr e ↦ rw e (lex_pair-Scans d u v l h q r)
]

lex_dot-Scans : (l : Lexer) → Scans l (lex_dot l)
unfolding lex_dot token_index
lex_dot-Scans l = elim (Bool-cases (lex_peek l == b'.')) [
  | inl e ↦ rw e (
      Scans-after _ (ground arith) (
        lex_pair-Scans b'=' t_dotdoteq t_dotdot (advanced l) (omega arith) (omega arith)
          (omega arith)))
  | inr e ↦ rw e (Scans-here l t_dot (omega arith))
]

lex_string-Scans : (l : Lexer) → Scans l (lex_string l)
unfolding lex_string token_index
lex_string-Scans l = record {
  moves = Moves-trans (while_lex-Moves _ l) (lex_advance-Moves _);
  not_end = omega arith;
  same_line = advance-line _ ∙ while_lex-line _ l;
  directive = λ e. absurd (omega arith);
  newlines_kept = λ n. absurd (n refl);
}

lex_percent-Scans : (start : ℕ) (l : Lexer) → Scans l (lex_percent start l)
unfolding lex_percent token_index
lex_percent-Scans start l = ground (
  arith,
  Moves-refl l,
  while_lex-Moves is_word_char l,
  while_lex-line is_word_char l,
  while_lex-same_newlines is_word_char l (unfold is_word_char is_alpha is_digit in refl),
)

lex_word-Scans : (start : ℕ) (l : Lexer) → Scans l (lex_word start l)
unfolding lex_word
lex_word-Scans start l =
    Scans-while is_word_char l _ (keyword_or_identifier-IsPlain _)
      (unfold is_word_char is_alpha is_digit in refl)

lex_number-Scans : (c : ℕ) (l : Lexer) → Scans l (lex_number c l)
unfolding lex_number token_index
lex_number-Scans c l = elim (Bool-cases (c == b'0' && (lex_peek l == b'x' || lex_peek l == b'X'))) [
  | inl hex ↦ rw hex (
      Scans-after _ (ground arith) (
        pick _ (Scans-here (advanced l) t_invalid (omega arith)) (
          Scans-while is_hex_digit (advanced l) t_num (omega arith)
            (unfold is_hex_digit is_digit in refl))))
  | inr decimal ↦ rw decimal (Scans-while is_digit l t_num (omega arith) (unfold is_digit in refl))
]

lex_multi-Scans : (c start : ℕ) (l : Lexer) → Scans l (lex_multi c start l)
unfolding lex_multi token_index
lex_multi-Scans c start l = pick _ (lex_dot-Scans l) (
    pick _
      (lex_either-Scans b'=' b'>' t_eqeq t_equals_rarrow t_equals l (omega arith) (omega arith)
        (omega arith) (omega arith) (omega arith))
      (pick _ (lex_pair-Scans b'=' t_not_eq t_not l (omega arith) (omega arith) (omega arith)) (
        pick _ (lex_pair-Scans b'=' t_lteq t_lt l (omega arith) (omega arith) (omega arith)) (
          pick _ (lex_pair-Scans b'=' t_gteq t_gt l (omega arith) (omega arith) (omega arith)) (
            pick _
              (lex_either-Scans b'|' b'>' t_logical_or t_pipe t_bitwise_or l (omega arith)
                (omega arith) (omega arith) (omega arith) (omega arith))
              (pick _
                (lex_pair-Scans b'&' t_logical_and t_ampersand l (omega arith) (omega arith)
                  (omega arith))
                (pick _
                  (lex_either-Scans b'=' b':' t_colon_eq t_double_colon t_colon l (omega arith)
                    (omega arith) (omega arith) (omega arith) (omega arith))
                  (pick _ (lex_string-Scans l) (
                    pick _ (lex_percent-Scans start l) (
                      pick _ (lex_word-Scans start l) (
                        pick _ (lex_number-Scans c l)
                          (Scans-here l t_invalid (omega arith)))))))))))))

single_char-IsPlain : (c : ℕ) (t : TokenType) → single_char c ≡ some t → IsPlain t
unfolding single_char token_index
single_char-IsPlain c t = ground arith

pub lex_switch-Scans : (c start : ℕ) (l : Lexer) → Scans l (lex_switch c start l)
unfolding lex_switch
lex_switch-Scans c start l = elim (Option-cases (single_char c)) [
  | inl e ↦ rw (e, lex_switch) (lex_multi-Scans c start l)
  | inr (t, e) ↦ rw (e, lex_switch) (Scans-here l t (single_char-IsPlain c t e))
]
