-- ===== src/Lexer/Progress.antt =====
-- src/lexer.c: every part of the scanner goes forward, and the loop over blanks and comments ends
-- at a byte that starts a token.
use tira.Prelude.{
  ℕ, zero, suc, ◌+◌, ◌<◌, ◌≡◌, refl, ap, ◌⊎◌, inl, inr, Bool, true, false, not, ◌&&◌, arith, length,
  ltb, Bool-cases,
}
use tira.Lexer.{
  Lexer, is_space, lex_eof, advanced, lex_peek, is_comment_start, is_line_comment_start,
  is_block_comment_start, remaining, while_lex, skip_line_comment, Comment, comment_step,
  comment_loop, skip_block_comment, Round, again, done, skip_round, skip_loop, skip_blanks,
}
use tira.Lexer.Cursor.{
  Moves, Moves-refl, Moves-trans, lex_advance-Moves, lex_advance-pos, while_lex-Moves,
  while_lex-stops,
}

pub advance_twice-Moves : (l : Lexer) → Moves l (advanced (advanced l))
advance_twice-Moves l = Moves-trans (lex_advance-Moves l) (lex_advance-Moves (advanced l))

-- A comment start is not the end of the input.
pub comment_start-inside :
    (c : ℕ) (l : Lexer) → is_comment_start c l ≡ true → l.pos < length l.input
unfolding is_comment_start lex_eof
comment_start-inside c l h = ground arith

-- So its first byte is taken.
pub advance_twice-progress :
    (c : ℕ) (l : Lexer) → is_comment_start c l ≡ true → l.pos < (advanced (advanced l)).pos
unfolding lex_eof
advance_twice-progress c l h =
    ground
      (arith, comment_start-inside c l, lex_advance-pos l, (lex_advance-Moves (advanced l)).forward)

pub skip_line_comment-Moves : (l : Lexer) → Moves l (skip_line_comment l)
unfolding skip_line_comment
skip_line_comment-Moves l = Moves-trans (advance_twice-Moves l) (while_lex-Moves _ _)

comment_step-Moves : (s : Comment) → Moves s.lexer (comment_step s).lexer
unfolding comment_step
comment_step-Moves s = ground (arith, lex_advance-Moves s.lexer, advance_twice-Moves s.lexer)

pub comment_loop-Moves : (f : ℕ) (s : Comment) → Moves s.lexer (comment_loop f s).lexer
unfolding comment_loop
comment_loop-Moves zero s = Moves-refl s.lexer
comment_loop-Moves (suc f) s = elim (Bool-cases (not (lex_eof s.lexer) && ltb 0 s.depth)) [
  | inl go ↦ rw go (Moves-trans (comment_step-Moves s) (comment_loop-Moves f (comment_step s)))
  | inr stop ↦ rw stop (Moves-refl s.lexer)
]

pub skip_block_comment-Moves : (l : Lexer) → Moves l (skip_block_comment l).1
unfolding skip_block_comment
skip_block_comment-Moves l = Moves-trans (advance_twice-Moves l) (comment_loop-Moves _ _)

-- A round that goes on has taken a byte.
abbrev RoundMoves : Bool → Lexer → Round → Type 0
RoundMoves nl l (again b m) = Moves l m × (l.pos < m.pos)
RoundMoves nl l (done b m) = Moves l m × (b ≡ nl)

line_comment-progress :
    (l : Lexer) → is_line_comment_start l ≡ true → l.pos < (skip_line_comment l).pos
unfolding skip_line_comment
line_comment-progress l h =
    omega (arith, advance_twice-progress _ l h, (while_lex-Moves _ (advanced (advanced l))).forward)

block_comment-progress :
    (l : Lexer) → is_block_comment_start l ≡ true → l.pos < (skip_block_comment l).1.pos
unfolding skip_block_comment
block_comment-progress l h =
    omega (arith, advance_twice-progress _ l h, (comment_loop-Moves _ _).forward)

skip_round-RoundMoves : (nl : Bool) (l : Lexer) → RoundMoves nl l (skip_round nl l)
unfolding skip_round
skip_round-RoundMoves nl l = elim (Bool-cases (is_line_comment_start (while_lex is_space l))) [
  | inl a ↦ rw a (
    Moves-trans (while_lex-Moves is_space l) (skip_line_comment-Moves _),
    omega (arith, line_comment-progress _ a, (while_lex-Moves is_space l).forward),
  )
  | inr a ↦ elim (Bool-cases (is_block_comment_start (while_lex is_space l))) [
    | inl b ↦
        rw (a, b)
          (
            Moves-trans (while_lex-Moves is_space l) (skip_block_comment-Moves _),
            omega (arith, block_comment-progress _ b, (while_lex-Moves is_space l).forward),
          )
    | inr b ↦ rw (a, b) (while_lex-Moves is_space l, refl)
  ]
]

-- What the loop over blanks and comments gives: it moved, and it read a byte if it sets its flag.
abbrev pub SkipMoves : Bool → Lexer → Bool × Lexer → Type 0
SkipMoves nl l (b, m) = Moves l m × ((b ≡ true) → (nl ≡ true) ⊎ (l.pos < m.pos))

skip_after :
    {l m n : Lexer} {nl b c : Bool}
    → Moves l m
    → l.pos < m.pos
    → SkipMoves b m (c, n)
    → SkipMoves nl l (c, n)
skip_after a p (s, flag) = (Moves-trans a s, λ _. inr (omega (arith, s.forward)))

skip_loop-SkipMoves : (f : ℕ) (nl : Bool) (l : Lexer) → SkipMoves nl l (skip_loop f nl l)
unfolding skip_loop
skip_loop-SkipMoves zero nl l = (Moves-refl l, λ h. inl h)
skip_loop-SkipMoves (suc f) nl l =
    go (skip_round nl l) (skip_round-RoundMoves nl l) (λ b m. skip_loop-SkipMoves f b m)
  where
    go :
        (r : Round)
        → RoundMoves nl l r
        → ((b : Bool) (m : Lexer) → SkipMoves b m (skip_loop f b m))
        → SkipMoves nl l (elim r [ again b m ↦ skip_loop f b m | done b m ↦ (b, m) ])
    go (again b m) (a, p) ih = skip_after a p (ih b m)
    go (done b m) (a, same) ih = (a, λ set. inl (cc))

pub skip_blanks-SkipMoves : (l : Lexer) → SkipMoves false l (skip_blanks l)
unfolding skip_blanks
skip_blanks-SkipMoves l = skip_loop-SkipMoves (remaining l + 1) false l

-- A lexer at a byte that starts a token, or at the end: no blank and no comment stands there.
pub record IsSettled (l : Lexer) : Type 0 where
  pub no_space : (not (lex_eof l) && is_space (lex_peek l)) ≡ false
  pub no_line_comment : is_line_comment_start l ≡ false
  pub no_block_comment : is_block_comment_start l ≡ false

abbrev RoundSettled : Round → Type 0
RoundSettled (again b m) = Unit
RoundSettled (done b m) = IsSettled m

skip_round-RoundSettled : (nl : Bool) (l : Lexer) → RoundSettled (skip_round nl l)
unfolding skip_round
skip_round-RoundSettled nl l = elim (Bool-cases (is_line_comment_start (while_lex is_space l))) [
  | inl a ↦ rw a tt
  | inr a ↦ elim (Bool-cases (is_block_comment_start (while_lex is_space l))) [
    | inl b ↦ rw (a, b) tt
    | inr b ↦
        rw (a, b)
          (record {
            no_space = while_lex-stops is_space l;
            no_line_comment = a;
            no_block_comment = b;
          })
  ]
]

skip_loop-IsSettled :
    (f : ℕ) (nl : Bool) (l : Lexer) → remaining l < f → IsSettled (skip_loop f nl l).1
unfolding skip_loop
skip_loop-IsSettled zero nl l h = absurd (omega arith)
skip_loop-IsSettled (suc f) nl l h =
    go (skip_round nl l) (skip_round-RoundMoves nl l) (skip_round-RoundSettled nl l)
      (λ b m. skip_loop-IsSettled f b m)
  where
    go :
        (r : Round)
        → RoundMoves nl l r
        → RoundSettled r
        → ((b : Bool) (m : Lexer) → remaining m < f → IsSettled (skip_loop f b m).1)
        → IsSettled
            (elim r as (λ _. Bool × Lexer) [ again b m ↦ skip_loop f b m | done b m ↦ (b, m) ]).1
    go (again b m) (a, p) s ih = ih b m (omega (arith, ap length a.same_input))
    go (done b m) (a, same) s ih = s

-- The fuel of the loop suffices: it ends where neither a blank nor a comment stands.
pub skip_blanks-IsSettled : (l : Lexer) → IsSettled (skip_blanks l).1
unfolding skip_blanks
skip_blanks-IsSettled l = skip_loop-IsSettled (remaining l + 1) false l (omega arith)
