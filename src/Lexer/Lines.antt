-- ===== src/Lexer/Lines.antt =====
-- src/lexer.c: the line number that a token carries, and when `%` starts a directive.
use tira.Prelude.{
  ◌⊎◌, ==_iff, ℕ, zero, suc, ◌+◌, ◌-◌, ◌≡◌, ◌≢◌, refl, ◌∙◌, sym, ap, inl, inr, Bool, true, false,
  not, ◌&&◌, arith, ltb, drop, ◌==◌, if◌then◌else◌, Bool-cases,
}
use tira.Token.{TokenType, Token, token_index, t_string}
use tira.Lexer.{
  Lexer, is_space, lex_eof, lex_advance, advanced, lex_peek, is_comment_start,
  is_line_comment_start, is_block_comment_start, while_lex, skip_line_comment, Comment,
  comment_step, comment_loop, skip_block_comment, Round, again, done, skip_round, skip_loop,
  skip_blanks, remaining,
}
use tira.Lexer.Next.{lex_token, lex_next}
use tira.Lexer.Cursor.{Moves, lex_advance_char}
use tira.Lexer.Newlines.{
  newlines, newlines_left, newlines-lex_advance, advance-same_newlines, while_lex-same_newlines,
  while_lex-line, advance-line,
}
use tira.Lexer.Progress.{skip_blanks-SkipMoves}
use tira.Lexer.Scans.{ScansTo, lex_switch-Scans}

-- The line number and the newlines to come, which scanning keeps together.
abbrev pub line_total : Lexer → ℕ
line_total l = l.line + newlines_left l

total-lex_advance : (l : Lexer) → lex_peek l ≢ b'\n' → line_total (advanced l) ≡ line_total l
total-lex_advance l h = omega (arith, advance-line l, advance-same_newlines l h)

total-while_lex :
    (cond : ℕ → Bool) (l : Lexer)
    → cond b'\n' ≡ false
    → line_total (while_lex cond l) ≡ line_total l
total-while_lex cond l h = omega (arith, while_lex-line cond l, while_lex-same_newlines cond l h)

-- Both bytes that start a comment.
comment_start_chars :
    (c : ℕ) (l : Lexer)
    → is_comment_start c l ≡ true
    → (lex_peek l ≡ b'/') × (lex_peek (advanced l) ≡ c)
unfolding is_comment_start lex_peek lex_advance lex_eof
comment_start_chars c l h = ground arith

total_advance_twice :
    (c : ℕ) (l : Lexer)
    → is_comment_start c l ≡ true
    → c ≢ b'\n'
    → line_total (advanced (advanced l)) ≡ line_total l
total_advance_twice c l h n =
    total-lex_advance (advanced l) (ground (arith, comment_start_chars c l h))
    ∙ total-lex_advance l (ground (arith, comment_start_chars c l h))

total-comment_step :
    (s : Comment) → lex_eof s.lexer ≡ false → line_total (comment_step s).lexer ≡ line_total s.lexer
unfolding comment_step
total-comment_step s e = elim (Bool-cases ((lex_advance s.lexer).0 == b'\n')) [
  | inl n ↦
      rw (n, comment_step)
        (ground
          (arith, newlines-lex_advance s.lexer e, lex_advance_char s.lexer, advance-line s.lexer))
  | inr n ↦ rw (n, comment_step) (others (ground (arith, lex_advance_char s.lexer)))
]
  where
    l : Lexer
    l = advanced s.lexer

    others :
        lex_peek s.lexer ≢ b'\n'
        → line_total
            (if (lex_advance s.lexer).0 == b'/' && lex_peek l == b'*'
              then record s { depth = s.depth + 1; lexer = advanced l }
              else if (lex_advance s.lexer).0 == b'*' && lex_peek l == b'/'
              then record s { depth = s.depth - 1; lexer = advanced l }
              else record s { lexer = l }).lexer
          ≡ line_total s.lexer
    others h = ground (arith, total-lex_advance s.lexer h, total-lex_advance l)

total-comment_loop :
    (f : ℕ) (s : Comment) → line_total (comment_loop f s).lexer ≡ line_total s.lexer
unfolding comment_loop
total-comment_loop zero s = refl
total-comment_loop (suc f) s = elim (Bool-cases (not (lex_eof s.lexer) && ltb 0 s.depth)) [
  | inl go ↦ rw go (total-comment_loop f (comment_step s) ∙ total-comment_step s (ground arith))
  | inr stop ↦ rw stop
]

abbrev RoundTotal : Lexer → Round → Type 0
RoundTotal l (again b m) = line_total m ≡ line_total l
RoundTotal l (done b m) = line_total m ≡ line_total l

skip_round-RoundTotal : (nl : Bool) (l : Lexer) → RoundTotal l (skip_round nl l)
unfolding skip_round
skip_round-RoundTotal nl l = elim (Bool-cases (is_line_comment_start (while_lex is_space l))) [
  | inl a ↦ rw a (
      unfold skip_line_comment in
      total-while_lex _ _ refl ∙ total_advance_twice _ _ a (omega arith) ∙ spaces)
  | inr a ↦ elim (Bool-cases (is_block_comment_start (while_lex is_space l))) [
    | inl b ↦
        rw (a, b)
          (unfold skip_block_comment in
            total-comment_loop _ _ ∙ total_advance_twice _ _ b (omega arith) ∙ spaces)
    | inr b ↦ rw (a, b) spaces
  ]
]
  where
    spaces : line_total (while_lex is_space l) ≡ line_total l
    spaces = total-while_lex is_space l (unfold is_space in refl)

skip_loop_total : (f : ℕ) (nl : Bool) (l : Lexer) → line_total (skip_loop f nl l).1 ≡ line_total l
unfolding skip_loop
skip_loop_total zero nl l = refl
skip_loop_total (suc f) nl l =
    go (skip_round nl l) (skip_round-RoundTotal nl l) (λ b m. skip_loop_total f b m)
  where
    go :
        (r : Round)
        → RoundTotal l r
        → ((b : Bool) (m : Lexer) → line_total (skip_loop f b m).1 ≡ line_total m)
        → line_total
            (elim r as (λ _. Bool × Lexer) [ again b m ↦ skip_loop f b m | done b m ↦ (b, m) ]).1
          ≡ line_total l
    go (again b m) e ih = ih b m ∙ e
    go (done b m) e ih = e

pub skip_blanks_total : (l : Lexer) → line_total (skip_blanks l).1 ≡ line_total l
unfolding skip_blanks
skip_blanks_total l = skip_loop_total (remaining l + 1) false l

-- The token's line number and the lexer's, against the newlines from their places on.
pub record Lines (l : Lexer) (tok : Token) (m : Lexer) : Type 0 where
  pub token_line : tok.line + newlines (drop tok.start l.input) ≡ line_total l
  pub lexer_line : token_index tok.type ≢ token_index t_string → line_total m ≡ line_total l
  pub string_line : token_index tok.type ≡ token_index t_string → m.line ≡ tok.line

token-Lines : (nl : Bool) (m : Lexer) → Lines m (lex_token nl m).0 (lex_token nl m).1
unfolding lex_token token_index
token-Lines true m = ground arith
token-Lines false m = elim (Bool-cases (lex_eof m)) [
  | inl e ↦ rw e (ground arith)
  | inr e ↦ elim (Bool-cases ((lex_advance m).0 == b'\n')) [
    | inl n ↦
        rw (e, n) (ground (arith, newlines-lex_advance m e, lex_advance_char m, advance-line m))
    | inr n ↦ rw (e, n) (switched e n (lex_switch-Scans (lex_advance m).0 m.pos (advanced m)))
  ]
]
  where
    switched :
        {t : TokenType} {n : Lexer}
        → lex_eof m ≡ false
        → ((lex_advance m).0 == b'\n') ≡ false
        → ScansTo (advanced m) t n
        → Lines m
            (record { type = t; start = m.pos; length = n.pos - m.pos; line = m.line })
            (record n { at_line_start = false })
    switched {t} {n} e c s = ground (
      arith,
      newlines-lex_advance m e,
      lex_advance_char m,
      advance-line m,
      s.same_line,
      s.newlines_kept,
    )

Lines-after :
    {l m n : Lexer} {tok : Token}
    → Moves l m
    → line_total m ≡ line_total l
    → Lines m tok n
    → Lines l tok n
Lines-after {tok} a e h = record {
  token_line =
      ap (λ i. tok.line + newlines (drop tok.start i)) (sym a.same_input) ∙ h.token_line ∙ e;
  lexer_line = λ t. h.lexer_line t ∙ e;
  string_line = h.string_line;
}

call-Lines : (l : Lexer) → Lines l (lex_next l).0 (lex_next l).1
unfolding lex_next
call-Lines l =
    Lines-after (skip_blanks-SkipMoves l).0 (skip_blanks_total l)
      (token-Lines (skip_blanks l).0 (skip_blanks l).1)

-- A token carries the number of the line on which it starts, if the lexer's number was right; and
-- the lexer's number stays right behind every token but a string, behind which it is the number of
-- the line on which the string starts.
pub lex_next-Lines :
    (l : Lexer)
    → let tok = (lex_next l).0 in
      let m = (lex_next l).1 in
      (tok.line + newlines (drop tok.start l.input) ≡ line_total l)
      × (((token_index tok.type ≢ token_index t_string) × (line_total m ≡ line_total l))
          ⊎ ((token_index tok.type ≡ token_index t_string) × (m.line ≡ tok.line)))
lex_next-Lines l =
    let r = call-Lines l in
    (
      r.token_line,
      elim (Bool-cases (token_index (lex_next l).0.type == token_index t_string)) [
        | inl e ↦ let s = (==_iff _ _).0 e in inr (s, r.string_line s)
        | inr e ↦
            let s : token_index (lex_next l).0.type ≢ token_index t_string =
              λ x. cc (e, (==_iff _ _).1 x) in
            inl (s, r.lexer_line s)
      ],
    )
