-- ===== src/LexFile/Shebang.antt =====
-- src/compiler.c: the first line of a script in `compiler_lex_file`, and the whole function.
use mathlib.Core.Path.{subst}
use tira.Prelude.{
  ◌*◌, ◌^◌, ltb, ltb→lt, ◌⊎◌, ℕ, zero, suc, ◌+◌, ◌≤◌, ◌<◌, ◌≡◌, ◌≢◌, refl, ap, ◌∙◌, sym, inl, inr,
  true, false, arith, List, [], ◌∷◌, ◌++◌, none, some, Bytes, length, ◌==◌, Bool-cases, leb→gt,
}
use tira.Token.{Token}
use tira.Lexer.{Lexer, size, lex_eof, advanced, lex_peek, remaining}
use tira.Lexer.Cursor.{
  Moves, Moves-refl, Moves-trans, lex_advance-Moves, lex_advance-pos, lex_eof-rest,
}
use tira.Lexer.Newlines.{newlines, newlines_left, newlines-lex_advance, advance-same_newlines}
use tira.LexFile.{
  initial_lexer, has_shebang, skip_shebang, start_lexer, token_loop, end_token, append_end,
  lex_tokens, LexedFile, still_lexing, end_outside, lexed, store_end, compiler_lex_file,
}
use tira.LexFile.Total.{Tiles, nil, cons, LexNexts, Reads, token_loop-Reads}
use tira.LexFile.Room.{append_end_outside}

peek_newline_left : (l : Lexer) → lex_peek l ≡ b'\n' → newlines_left l ≢ 0
unfolding lex_peek
peek_newline_left l h = elim (Bool-cases (lex_eof l)) [
  | inl e ↦ ground (arith, h)
  | inr e ↦ ground (arith, newlines-lex_advance l e, h)
]

-- Without a newline ahead the loop does not end.
skip_shebang_hangs : (f : ℕ) (l : Lexer) → newlines_left l ≡ 0 → skip_shebang f l ≡ none
unfolding skip_shebang
skip_shebang_hangs zero l h = refl
skip_shebang_hangs (suc f) l h = elim (Bool-cases (lex_peek l == b'\n')) [
  | inl e ↦ absurd (peek_newline_left l (ground arith) h)
  | inr e ↦ rw e (skip_shebang_hangs f (advanced l) (advance-same_newlines l (ground arith) ∙ h))
]

eof_no_newlines : (l : Lexer) → lex_eof l ≡ true → newlines_left l ≡ 0
eof_no_newlines l h = ap newlines (lex_eof-rest l h)

more_left : (l : Lexer) → newlines_left l ≢ 0 → lex_eof l ≡ false
more_left l n = elim (Bool-cases (lex_eof l)) [
  | inl e ↦ absurd (n (eof_no_newlines l e))
  | inr e ↦ e
]

advance-fewer : (l : Lexer) → lex_eof l ≡ false → remaining (advanced l) < remaining l
unfolding lex_eof
advance-fewer l e =
    omega (arith, lex_advance-pos l e, ap length (lex_advance-Moves l).same_input, leb→gt _ _ e)

-- With one it ends there.
skip_shebang_ends :
    (f : ℕ) (l : Lexer)
    → remaining l < f
    → newlines_left l ≢ 0
    → (m : Lexer) × (skip_shebang f l ≡ some m) × Moves l m × (m.tokens ≡ l.tokens)
unfolding skip_shebang
skip_shebang_ends zero l h n = absurd (omega arith)
skip_shebang_ends (suc f) l h n = elim (Bool-cases (lex_peek l == b'\n')) [
  | inl e ↦ (l, rw e, Moves-refl l, refl)
  | inr e ↦
      let (m, run, a, t) =
        skip_shebang_ends f (advanced l) (omega (arith, advance-fewer l (more_left l n)))
          (λ z. n (sym (advance-same_newlines l (ground arith)) ∙ z)) in
      (m, rw e run, Moves-trans (lex_advance-Moves l) a, t ∙ (lex_advance-Moves l).same_tokens)
]

Tiles-earlier : {i' i j : ℕ} {ts : List Token} → Tiles i ts j → i' ≤ i → Tiles i' ts j
Tiles-earlier (nil h) a = nil (omega arith)
Tiles-earlier (cons h e t) a = cons (omega arith) e t

Tiles-later : {i j j' : ℕ} {ts : List Token} → Tiles i ts j → j ≤ j' → Tiles i ts j'
Tiles-later (nil h) b = nil (omega arith)
Tiles-later (cons h e t) b = cons h e (Tiles-later t b)

-- A script's first line has an end.
abbrev pub ShebangEnds : Bytes → Type 0
ShebangEnds source = (has_shebang (initial_lexer source) ≡ false) ⊎ (newlines source ≢ 0)

first_lexer :
    (source : Bytes)
    → ShebangEnds source
    → (m : Lexer) × (start_lexer (length source + 1) source ≡ some m)
      × Moves (initial_lexer source) m
      × (m.tokens ≡ [])
unfolding initial_lexer start_lexer
first_lexer source h = elim (Bool-cases (has_shebang (initial_lexer source))) [
  | inl s ↦
      rw (s, start_lexer)
        (skip_shebang_ends (length source + 1) (initial_lexer source) (omega arith)
          (elim h [ inl n ↦ cc | inr n ↦ n ]))
  | inr s ↦
      rw (s, start_lexer) (initial_lexer source, refl, Moves-refl (initial_lexer source), refl)
]

-- The tokens of a file: what `lex_next` gives from behind the `#!` line on, up to `END`. They are in
-- order, apart from one another and inside the file.
pub record AreTokens (source : Bytes) (ts : List Token) : Type 0 where
  pub first : Lexer
  pub started : start_lexer (length source + 1) source ≡ some first
  pub from_start : Moves (initial_lexer source) first
  pub nexts : LexNexts first ts
  pub tiles : Tiles 0 ts (length source)

-- What comes of a file with such tokens: they fill the array, whose size is 512 doubled some times, and
-- `END` is written behind it; or the array holds them and one `END`, and the lexer is as `P` says.
pub data Lexes (source : Bytes) (ts : List Token) (P : Lexer → Type 0) : LexedFile → Type 0 where
  fills : (k : ℕ) → length ts ≡ 512 * 2 ^ k → Lexes source ts P end_outside
  holds :
      (l : Lexer)
      → l.input ≡ source
      → l.tokens ≡ ts ++ end_token ∷ []
      → P l
      → Lexes source ts P (lexed l)

pub Lexes-map :
    {source : Bytes} {ts : List Token} {P Q : Lexer → Type 0} {o : LexedFile}
    → ((l : Lexer) → P l → Q l)
    → Lexes source ts P o
    → Lexes source ts Q o
Lexes-map f (fills k e) = fills k e
Lexes-map f (holds l i e p) = holds l i e (f l p)

store_end-Lexes :
    (f : ℕ) (source : Bytes) (ts : List Token) (m n : Lexer)
    → m.cap ≡ 512
    → m.tokens ≡ []
    → m.input ≡ source
    → token_loop f m ≡ some n
    → Reads m n ts
    → Lexes source ts (λ l. size l ≤ l.cap) (store_end n)
unfolding store_end
store_end-Lexes f source ts m n c t i run r = elim (Bool-cases (ltb n.cap (size (append_end n)))) [
  | inl over ↦
      let (k, full, _) = (append_end_outside f m c t run).0 (ltb→lt _ _ over) in
      rw over (fills k (ap length (sym stored) ∙ full))
  | inr fits ↦
      let inside : size (append_end n) ≤ n.cap = ground (arith, fits) in
      rw fits (
        holds (append_end n) (unfold append_end in r.same_input ∙ i)
          (unfold append_end in ap (λ l. l ++ end_token ∷ []) stored) (unfold append_end in inside))
]
  where
    stored : n.tokens ≡ ts
    stored = r.stored ∙ ap (λ l. l ++ ts) t

compiler_lex_file-run :
    (f : ℕ) (source : Bytes) {m n : Lexer}
    → start_lexer f source ≡ some m
    → token_loop f m ≡ some n
    → compiler_lex_file f source ≡ store_end n
unfolding compiler_lex_file lex_tokens
compiler_lex_file-run f source first run =
    rw (first, compiler_lex_file, lex_tokens) (rw (run, compiler_lex_file, lex_tokens) refl)

-- Every file is read to its end, with a round of each loop for each byte and one more, unless its
-- `#!` line has no end. Its tokens are those that `lex_next` gives, call after call, up to `END`; they
-- are in order, apart from one another and inside the file. Either their number is 512 doubled
-- some times, they fill the array and `END` is written behind it; or the array holds them, in order,
-- and one `END` behind them inside it.
pub compiler_lex_file_total :
    (source : Bytes)
    → ShebangEnds source
    → (ts : List Token) × AreTokens source ts
      × Lexes source ts (λ l. size l ≤ l.cap) (compiler_lex_file (length source + 1) source)
compiler_lex_file_total source h =
    let (m, first, a, t) = first_lexer source h in
    let same : m.input ≡ source = unfold initial_lexer in a.same_input in
    let (n, ts, run, r) = token_loop-Reads (length source + 1) m (omega (arith, ap length same)) in
    (
      ts,
      record {
        first = m;
        started = first;
        from_start = a;
        nexts = r.nexts;
        tiles =
            Tiles-later (Tiles-earlier r.tiles (omega arith))
              (unfold initial_lexer in omega (arith, ap length same, r.inside, a.inside));
      },
      subst (Lexes source ts (λ l. size l ≤ l.cap))
          (sym (compiler_lex_file-run (length source + 1) source first run))
          (store_end-Lexes (length source + 1) source ts m n (unfold initial_lexer in a.same_cap) t
            same run r),
    )

-- A file that starts with `#!` and has no newline is never read to its end: whatever the fuel, it
-- runs out.
pub compiler_lex_file_hangs :
    (source : Bytes) (f : ℕ)
    → has_shebang (initial_lexer source) ≡ true
    → newlines source ≡ 0
    → compiler_lex_file f source ≡ still_lexing
unfolding compiler_lex_file lex_tokens
compiler_lex_file_hangs source f s h = rw (start_hangs, compiler_lex_file, lex_tokens) refl
  where
    start_hangs : start_lexer f source ≡ none
    start_hangs =
        unfold start_lexer in
        rw s (skip_shebang_hangs f (initial_lexer source) (unfold initial_lexer in h))
