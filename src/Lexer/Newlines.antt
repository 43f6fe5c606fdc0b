-- ===== src/Lexer/Newlines.antt =====
-- src/lexer.c: the newlines in the input that is left, for the line numbers of tokens.
use tira.Prelude.{
  ℕ, zero, suc, ◌+◌, ◌≡◌, ◌≢◌, refl, ap, ◌∙◌, inl, inr, Bool, false, not, ◌&&◌, [], ◌∷◌, arith,
  Bytes, ◌==◌, if◌then◌else◌, Bool-cases,
}
use tira.Lexer.{
  Lexer, lex_eof, lex_advance, advanced, lex_peek, remaining, while_lex_loop, while_lex,
}
use tira.Lexer.Cursor.{rest, rest-lex_advance, lex_advance_eof}

abbrev pub newlines : Bytes → ℕ
newlines [] = 0
newlines (c ∷ s) = (if c == b'\n' then 1 else 0) + newlines s

abbrev pub newlines_left : Lexer → ℕ
newlines_left l = newlines (rest l)

-- A byte that is taken leaves one newline less, if it is one.
pub newlines-lex_advance :
    (l : Lexer)
    → lex_eof l ≡ false
    → newlines_left l ≡ (if lex_peek l == b'\n' then 1 else 0) + newlines_left (advanced l)
newlines-lex_advance l h = ap newlines (rest-lex_advance l h)

pub advance-same_newlines :
    (l : Lexer) → lex_peek l ≢ b'\n' → newlines_left (advanced l) ≡ newlines_left l
advance-same_newlines l h = elim (Bool-cases (lex_eof l)) [
  | inl e ↦ rw (lex_advance_eof l e)
  | inr e ↦ ground (arith, newlines-lex_advance l e)
]

while_lex_loop-same_newlines :
    (f : ℕ) (cond : ℕ → Bool) (l : Lexer)
    → cond b'\n' ≡ false
    → newlines_left (while_lex_loop f cond l) ≡ newlines_left l
unfolding while_lex_loop
while_lex_loop-same_newlines zero cond l h = refl
while_lex_loop-same_newlines (suc f) cond l h =
    elim (Bool-cases (not (lex_eof l) && cond (lex_peek l))) [
      | inl go ↦ rw go (
          while_lex_loop-same_newlines f cond (advanced l) h
          ∙ advance-same_newlines l (λ e. ground (arith, ap cond e)))
      | inr stop ↦ rw stop
    ]

-- A loop whose test fails on a newline passes none.
pub while_lex-same_newlines :
    (cond : ℕ → Bool) (l : Lexer)
    → cond b'\n' ≡ false
    → newlines_left (while_lex cond l) ≡ newlines_left l
unfolding while_lex
while_lex-same_newlines cond l h = while_lex_loop-same_newlines (remaining l) cond l h

while_lex_loop-line :
    (f : ℕ) (cond : ℕ → Bool) (l : Lexer) → (while_lex_loop f cond l).line ≡ l.line
unfolding while_lex_loop lex_advance
while_lex_loop-line zero cond l = refl
while_lex_loop-line (suc f) cond l = ground (arith, while_lex_loop-line f cond (advanced l))

pub while_lex-line : (cond : ℕ → Bool) (l : Lexer) → (while_lex cond l).line ≡ l.line
unfolding while_lex
while_lex-line cond l = while_lex_loop-line (remaining l) cond l

pub advance-line : (l : Lexer) → (advanced l).line ≡ l.line
unfolding lex_advance
advance-line l = ground arith

pub advance-at_line_start : (l : Lexer) → (advanced l).at_line_start ≡ l.at_line_start
unfolding lex_advance
advance-at_line_start l = ground arith
