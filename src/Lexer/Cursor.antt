-- ===== src/Lexer/Cursor.antt =====
-- How the scanner's operations move through the input of src/lexer.c.
use tira.Prelude.{
  ℕ, zero, suc, ◌+◌, ◌≤◌, ◌≡◌, inl, inr, Bool, true, false, not, ◌&&◌, [], ◌∷◌, arith, Bytes, drop,
  drop_all, drop-next, Bool-cases, leb→le,
}
use tira.Lexer.{
  Lexer, lex_eof, lex_advance, advanced, lex_peek, remaining, while_lex_loop, while_lex,
}

-- The input that is left.
abbrev pub rest : Lexer → Bytes
rest l = drop l.pos l.input

-- From `l` to `m` the position goes forward, and not beyond the end of the input; the input and
-- the token array stay.
pub record Moves (l m : Lexer) : Type 0 where
  pub same_tokens : m.tokens ≡ l.tokens
  pub same_cap : m.cap ≡ l.cap
  pub same_input : m.input ≡ l.input
  pub forward : l.pos ≤ m.pos
  pub inside : m.pos ≤ l.pos + remaining l

pub Moves-refl : (l : Lexer) → Moves l l
Moves-refl l = ground arith

pub Moves-trans : {l m n : Lexer} → Moves l m → Moves m n → Moves l n
Moves-trans a b = ground (arith, a.same_input)

pub lex_advance-Moves : (l : Lexer) → Moves l (advanced l)
unfolding lex_advance
lex_advance-Moves l = ground arith

-- Away from the end a byte is taken.
pub lex_advance-pos : (l : Lexer) → lex_eof l ≡ false → (advanced l).pos ≡ l.pos + 1
unfolding lex_advance
lex_advance-pos l h = ground arith

-- At the end nothing changes.
pub lex_advance_eof : (l : Lexer) → lex_eof l ≡ true → advanced l ≡ l
unfolding lex_advance
lex_advance_eof l h = ground arith

pub lex_advance_char : (l : Lexer) → (lex_advance l).0 ≡ lex_peek l
unfolding lex_advance lex_peek
lex_advance_char l = ground arith

pub lex_eof-rest : (l : Lexer) → lex_eof l ≡ true → rest l ≡ []
unfolding lex_eof
lex_eof-rest l h = drop_all l.pos l.input (leb→le _ _ h)

pub rest-lex_advance : (l : Lexer) → lex_eof l ≡ false → rest l ≡ lex_peek l ∷ rest (advanced l)
unfolding lex_advance lex_peek lex_eof
rest-lex_advance l h = ground (arith, drop-next l.pos l.input 0)

pub while_lex_loop-Moves : (f : ℕ) (cond : ℕ → Bool) (l : Lexer) → Moves l (while_lex_loop f cond l)
unfolding while_lex_loop
while_lex_loop-Moves zero cond l = Moves-refl l
while_lex_loop-Moves (suc f) cond l = elim (Bool-cases (not (lex_eof l) && cond (lex_peek l))) [
  | inl go ↦ rw go (Moves-trans (lex_advance-Moves l) (while_lex_loop-Moves f cond (advanced l)))
  | inr stop ↦ rw stop (Moves-refl l)
]

pub while_lex-Moves : (cond : ℕ → Bool) (l : Lexer) → Moves l (while_lex cond l)
unfolding while_lex
while_lex-Moves cond l = while_lex_loop-Moves (remaining l) cond l

while_lex_loop-stops :
    (f : ℕ) (cond : ℕ → Bool) (l : Lexer)
    → remaining l ≤ f
    → let m = while_lex_loop f cond l in (not (lex_eof m) && cond (lex_peek m)) ≡ false
unfolding while_lex_loop
while_lex_loop-stops zero cond l h =
    let e : lex_eof l ≡ true = unfold lex_eof in ground arith in rw e
while_lex_loop-stops (suc f) cond l h = elim (Bool-cases (not (lex_eof l) && cond (lex_peek l))) [
  | inl go ↦
      rw go (while_lex_loop-stops f cond (advanced l) (unfold lex_advance lex_eof in ground arith))
  | inr stop ↦ rw stop stop
]

-- The loop ends at the end of the input, or at a byte that fails the test.
pub while_lex-stops :
    (cond : ℕ → Bool) (l : Lexer)
    → (not (lex_eof (while_lex cond l)) && cond (lex_peek (while_lex cond l))) ≡ false
unfolding while_lex
while_lex-stops cond l = while_lex_loop-stops (remaining l) cond l (omega arith)
