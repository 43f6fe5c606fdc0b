-- ===== src/Lexer/Spans.antt =====
-- src/lexer.c: where the token of one call of `lex_next` lies, and that every call makes progress.
use tira.Prelude.{
  ◌+◌, ◌-◌, ◌≤◌, ◌<◌, ◌≡◌, ◌≢◌, refl, ◌⊎◌, inl, inr, Bool, true, false, arith, ◌==◌, Bool-cases,
}
use tira.Token.{TokenType, Token, t_end}
use tira.Lexer.{Lexer, lex_eof, lex_advance, advanced, skip_blanks}
use tira.Lexer.Next.{lex_token, lex_next}
use tira.Lexer.Cursor.{Moves, Moves-trans, lex_advance-Moves, lex_advance-pos}
use tira.Lexer.Progress.{SkipMoves, skip_blanks-SkipMoves}
use tira.Lexer.Scans.{ScansTo, lex_switch-Scans}

-- Where the token `tok` of a call of `lex_next` lies, and what the call does to the lexer.
pub record Spans (l : Lexer) (tok : Token) (m : Lexer) : Type 0 where
  pub moves : Moves l m
  pub after : l.pos ≤ tok.start
  pub covers : tok.start + tok.length ≡ m.pos
  pub progress : (tok.type ≡ t_end) ⊎ (l.pos < m.pos)
  pub at_end : (tok.type ≢ t_end) ⊎ (lex_eof m ≡ true)

token_at_end :
    (nl : Bool) (l m : Lexer)
    → SkipMoves false l (nl, m)
    → lex_eof m ≡ true
    → Spans l (lex_token nl m).0 (lex_token nl m).1
unfolding lex_token
token_at_end true l m (a, flag) e = record {
  moves = a;
  after = a.forward;
  covers = omega arith;
  progress = ground (arith, flag refl);
  at_end = inr e;
}
token_at_end false l m (a, flag) e = rw e (record {
  moves = a;
  after = a.forward;
  covers = omega arith;
  progress = inl refl;
  at_end = inr e;
})

token_inside :
    (nl : Bool) (l m : Lexer)
    → SkipMoves false l (nl, m)
    → lex_eof m ≡ false
    → Spans l (lex_token nl m).0 (lex_token nl m).1
unfolding lex_token
token_inside true l m (a, flag) e = record {
  moves = a;
  after = a.forward;
  covers = omega arith;
  progress = ground (arith, flag refl);
  at_end = inl (λ h. ground (arith, h));
}
token_inside false l m (a, flag) e = elim (Bool-cases ((lex_advance m).0 == b'\n')) [
  | inl n ↦
      rw (e, n)
        (ground (arith, Moves-trans a (lex_advance-Moves m), lex_advance-pos m e, a.forward))
  | inr n ↦ rw (e, n) (switched (lex_switch-Scans (lex_advance m).0 m.pos (advanced m)))
]
  where
    switched :
        {t : TokenType} {n : Lexer}
        → ScansTo (advanced m) t n
        → Spans l
            (record { type = t; start = m.pos; length = n.pos - m.pos; line = m.line })
            (record n { at_line_start = false })
    switched {t} {n} s = ground (
      arith,
      Moves-trans (Moves-trans a (lex_advance-Moves m)) s.moves,
      s.moves.forward,
      s.not_end,
      lex_advance-pos m e,
      a.forward,
    )

-- The token of a call lies behind the old position and ends at the new one, inside the input; the
-- input and the tokens written are kept; the call takes a byte unless it gives `END`, and `END` is
-- given at the end of the input only.
pub lex_next-Spans : (l : Lexer) → Spans l (lex_next l).0 (lex_next l).1
unfolding lex_next
lex_next-Spans l = elim (Bool-cases (lex_eof (skip_blanks l).1)) [
  | inl e ↦ token_at_end (skip_blanks l).0 l (skip_blanks l).1 (skip_blanks-SkipMoves l) e
  | inr e ↦ token_inside (skip_blanks l).0 l (skip_blanks l).1 (skip_blanks-SkipMoves l) e
]
