-- ===== src/LexFile/Total.antt =====
-- src/compiler.c: what `compiler_lex_file` leaves in the token array, and when it ends.
use mathlib.Core.Path.{subst}
use tira.Prelude.{
  ℕ, zero, suc, ◌+◌, ◌≤◌, ◌<◌, ◌≡◌, ◌≢◌, ap, ◌∙◌, sym, inl, inr, true, false, arith, List, [], ◌∷◌,
  ◌++◌, append_assoc, append-nil, some, length, leb, refl, Bool-cases,
}
use tira.Token.{Token, TokenType, is_type, t_end}
use tira.Token.Index.{is_type→eq, is_type_refl}
use tira.Lexer.{Lexer, size, lex_eof, remaining}
use tira.Lexer.Next.{lex_next}
use tira.Lexer.Spans.{Spans, lex_next-Spans}
use tira.LexFile.{push_token, token_loop}

-- Tokens in order, apart from one another, between two positions, none of them `END`.
pub data Tiles : ℕ → List Token → ℕ → Type 0 where
  nil : {i j : ℕ} → i ≤ j → Tiles i [] j
  cons :
      {i j : ℕ} {tok : Token} {ts : List Token}
      → i ≤ tok.start
      → tok.type ≢ t_end
      → Tiles (tok.start + tok.length) ts j
      → Tiles i (tok ∷ ts) j

-- Two lexers that differ in their token arrays only.
pub record SamePlace (l m : Lexer) : Type 0 where
  pub place_input : m.input ≡ l.input
  pub place_pos : m.pos ≡ l.pos
  pub place_line_start : m.at_line_start ≡ l.at_line_start
  pub place_line : m.line ≡ l.line
  pub place_col : m.col ≡ l.col

-- What `lex_next` gives from a lexer on, call after call, up to an `END`, which is not among them.
pub data LexNexts : Lexer → List Token → Type 0 where
  at_end : {l : Lexer} → (lex_next l).0.type ≡ t_end → LexNexts l []
  then_next :
      {l m : Lexer} {ts : List Token}
      → (lex_next l).0.type ≢ t_end
      → SamePlace (lex_next l).1 m
      → LexNexts m ts
      → LexNexts l ((lex_next l).0 ∷ ts)

-- The array holds old tokens, then those of the input from the old position on; the room is what
-- the doublings give.
pub record Reads (l m : Lexer) (ts : List Token) : Type 0 where
  pub stored : m.tokens ≡ l.tokens ++ ts
  pub tiles : Tiles l.pos ts m.pos
  pub nexts : LexNexts l ts
  pub same_input : m.input ≡ l.input
  pub all_read : lex_eof m ≡ true
  pub inside : m.pos ≤ l.pos + remaining l

-- A token stored changes neither the input nor the position.
push_token_lem :
    (l : Lexer) (tok : Token)
    → ((push_token l tok).tokens ≡ l.tokens ++ tok ∷ [])
      × ((push_token l tok).input ≡ l.input)
      × ((push_token l tok).pos ≡ l.pos)
unfolding push_token
push_token_lem l tok = ground arith

push_token-SamePlace : (l : Lexer) (tok : Token) → SamePlace l (push_token l tok)
unfolding push_token
push_token-SamePlace l tok = elim (Bool-cases (leb l.cap (size l))) [
  | inl e ↦ rw e (record {
    place_input = refl;
    place_pos = refl;
    place_line_start = refl;
    place_line = refl;
    place_col = refl;
  })
  | inr e ↦ rw e (record {
    place_input = refl;
    place_pos = refl;
    place_line_start = refl;
    place_line = refl;
    place_col = refl;
  })
]

pub not_end : (t : TokenType) → is_type t t_end ≡ false → t ≢ t_end
not_end t h e = cc (is_type_refl t_end, ap (λ u. is_type u t_end) e)

Reads-end :
    (l : Lexer)
    → Spans l (lex_next l).0 (lex_next l).1
    → (lex_next l).0.type ≡ t_end
    → Reads l (lex_next l).1 []
Reads-end l s e = record {
  stored = s.moves.same_tokens ∙ sym (append-nil l.tokens);
  tiles = nil s.moves.forward;
  nexts = at_end e;
  same_input = s.moves.same_input;
  all_read = elim s.at_end [ inl n ↦ absurd (n e) | inr h ↦ h ];
  inside = s.moves.inside;
}

Reads-more :
    (l : Lexer) {n : Lexer} {ts : List Token}
    → Spans l (lex_next l).0 (lex_next l).1
    → (lex_next l).0.type ≢ t_end
    → Reads (push_token (lex_next l).1 (lex_next l).0) n ts
    → Reads l n ((lex_next l).0 ∷ ts)
Reads-more l {n} {ts} s e r =
    let m = (lex_next l).1 in
    let tok = (lex_next l).0 in
    record {
      stored =
          r.stored
          ∙ ap (λ old. old ++ ts) (push_token_lem m tok).0
          ∙ append_assoc m.tokens (tok ∷ []) ts
          ∙ ap (λ old. old ++ tok ∷ ts) s.moves.same_tokens;
      tiles =
          cons s.after e
            (subst (λ i. Tiles i ts n.pos) ((push_token_lem m tok).2 ∙ sym s.covers) r.tiles);
      nexts = then_next e (push_token-SamePlace (lex_next l).1 (lex_next l).0) r.nexts;
      same_input = r.same_input ∙ (push_token_lem m tok).1 ∙ s.moves.same_input;
      all_read = r.all_read;
      inside = ground (arith, r.inside, s.moves.inside, s.moves.same_input, push_token_lem m tok);
    }

remaining-push_token : (l : Lexer) (tok : Token) → remaining (push_token l tok) ≡ remaining l
unfolding push_token
remaining-push_token l tok = ground arith

progress-remaining :
    {l m : Lexer} {tok : Token} → Spans l tok m → tok.type ≢ t_end → remaining m < remaining l
progress-remaining {l} {m} s e = elim s.progress [
  | inl p ↦ absurd (e p)
  | inr p ↦ omega (arith, s.moves.inside, ap length s.moves.same_input)
]

-- With a round for each byte left and one more the loop ends, and has stored the tokens that tile
-- the rest of the input.
pub token_loop-Reads :
    (f : ℕ) (l : Lexer)
    → remaining l < f
    → (m : Lexer) × (ts : List Token) × (token_loop f l ≡ some m) × Reads l m ts
unfolding token_loop
token_loop-Reads zero l h = absurd (omega arith)
token_loop-Reads (suc f) l h = elim (Bool-cases (is_type (lex_next l).0.type t_end)) [
  | inl e ↦ ((lex_next l).1, [], rw e, Reads-end l (lex_next-Spans l) (is_type→eq _ _ e))
  | inr e ↦
      let s = lex_next-Spans l in
      let e' = not_end _ e in
      let (n, ts, run, r) = token_loop-Reads f (push_token (lex_next l).1 (lex_next l).0) (
        omega
          (arith, remaining-push_token (lex_next l).1 (lex_next l).0, progress-remaining s e')) in
      (n, (lex_next l).0 ∷ ts, rw e run, Reads-more l s e' r)
]
