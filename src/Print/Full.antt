-- ===== src/Print/Full.antt =====
-- src/print.c: a text that fits in the buffer is written in full.
use tira.Prelude.{
  ℕ, zero, suc, ◌+◌, ◌-◌, ◌^◌, ◌≤◌, ◌<◌, ◌≡◌, refl, ap, ◌∙◌, sym, arith, true, false, List, [], ◌∷◌,
  ◌++◌, append-nil, append_assoc, Option, none, some, Bytes, codes, length, length-append, ltb,
  lt→ltb, ◌==◌, Bool-cases, inl, inr, ==_iff,
}
use tira.Prelude.Int.{ℤ, pos, negsuc}
use tira.Builder.{copied_back}
use tira.Builder.Room.{length-copied_back}
use tira.Print.{
  Arg, arg_string, arg_size, arg_int, Buffer, done, still_running, put, put_one, put_string,
  put_temp, with_sign, put_size, put_int, take_string, take_size, take_int, literal, directive,
  format_loop, terminate, vsnprintf,
}
use tira.Print.Render.{
  Piece, plain, string, size, int, spell, decimal, size_text, int_text, string_text, Matches,
  InRange, render,
}
use tira.Print.Digits.{temp_digits-decimal}

-- The buffer behind a text.
abbrev after : Bytes → Buffer → Buffer
after t b = record { out = b.out ++ t; rem = b.rem - length t }

buffer :
    {o o' : Bytes} {r r' : ℕ}
    → o ≡ o'
    → r ≡ r'
    → ◌≡◌ {A = Buffer} (record { out = o; rem = r }) (record { out = o'; rem = r' })
buffer {o} {o'} {r} {r'} e h =
    ap (λ x. record { out = x; rem = r }) e ∙ ap (λ x. record { out = o'; rem = x }) h

after-append : (t u : Bytes) (b : Buffer) → after u (after t b) ≡ after (t ++ u) b
after-append t u b = buffer (append_assoc b.out t u) (omega (arith, length-append t u))

after-nil : (b : Buffer) → b ≡ after [] b
after-nil b = buffer (sym (append-nil b.out)) (omega arith)

put_string-after :
    (f : ℕ) (s : Bytes) (b : Buffer)
    → length s < f
    → length s < b.rem
    → put_string f s b ≡ done (after s b)
unfolding put_string
put_string-after zero s b h r = absurd (omega arith)
put_string-after (suc f) [] b h r = ap done (after-nil b)
put_string-after (suc f) (c ∷ s) b h r =
    let room : ltb 1 b.rem ≡ true = lt→ltb _ _ (omega arith) in
    rw (room, put_string)
      (put_string-after f s (put c b) (omega arith) (omega arith)
        ∙ ap done (after-append (c ∷ []) s b))

put_temp-after :
    (t : Bytes) (b : Buffer) → length t + 1 < b.rem → put_temp t b ≡ after (copied_back t) b
unfolding put_temp
put_temp-after t b h =
    let room : ltb (length t + 1) b.rem ≡ true = lt→ltb _ _ h in
    rw (room, length-copied_back t) refl

put_one-after : (c : ℕ) (b : Buffer) → 1 < b.rem → put_one c b ≡ after (c ∷ []) b
unfolding put_one
put_one-after c b h = let room : ltb 1 b.rem ≡ true = lt→ltb _ _ h in rw room refl

put_temp-text :
    (t text : Bytes) (b : Buffer)
    → copied_back t ≡ text
    → length text + 1 < b.rem
    → put_temp t b ≡ after text b
put_temp-text t text b e h =
    put_temp-after t b (omega (arith, ap length e, length-copied_back t)) ∙ ap (λ x. after x b) e

copied_back-sign : (t : Bytes) (c : ℕ) → copied_back (t ++ c ∷ []) ≡ c ∷ copied_back t
unfolding copied_back
copied_back-sign [] c = refl
copied_back-sign (x ∷ t) c = ap (λ s. s ++ x ∷ []) (copied_back-sign t c)

put_size-after :
    (v : ℕ) (b : Buffer)
    → v < 2 ^ 64
    → length (size_text v) + 1 < b.rem
    → put_size v b ≡ done (after (size_text v) b)
unfolding put_size size_text
put_size-after v b h r = elim (Bool-cases (v == 0)) [
  | inl z ↦ rw z (ap done (put_one-after b'0' b (omega arith)))
  | inr z ↦
      let (temp, run, same, short) =
        temp_digits-decimal 20 32 20 v (omega arith) (omega arith) (omega arith) in
      rw (z, run) (ap done (put_temp-text temp (decimal 20 v) b same (rw z at r)))
]

put_int-after :
    (v : ℤ) (b : Buffer)
    → InRange v
    → length (int_text v) + 1 < b.rem
    → put_int v b ≡ done (after (int_text v) b)
unfolding put_int size_text int_text with_sign
put_int-after (pos n) b h r = elim (Bool-cases (n == 0)) [
  | inl z ↦ rw z (ap done (put_one-after b'0' b (omega arith)))
  | inr z ↦
      let (temp, run, same, short) =
        temp_digits-decimal 10 16 20 n (omega arith) (omega arith) (omega arith) in
      rw (z, run) (ap done (put_temp-text temp (decimal 20 n) b same (rw z at r)))
]
put_int-after (negsuc n) b h r =
    let (temp, run, same, short) =
      temp_digits-decimal 10 16 20 (n + 1) (omega arith) (omega arith) (omega arith) in
    let room : ltb (length temp) 16 ≡ true = lt→ltb _ _ (omega (arith, short)) in
    rw (run, room)
      (ap done (
        put_temp-text (temp ++ b'-' ∷ []) (b'-' ∷ decimal 20 (n + 1)) b
          (copied_back-sign temp b'-' ∙ ap (λ x. b'-' ∷ x) same) r))

take_string-after :
    (f : ℕ) (s : Option Bytes) (args : List Arg) (b : Buffer)
    → length (string_text s) < f
    → length (string_text s) < b.rem
    → take_string f (arg_string s ∷ args) b ≡ done (args, after (string_text s) b)
unfolding take_string string_text
take_string-after f none args b h r = rw (put_string-after f (codes "(null)") b h r) refl
take_string-after f (some s) args b h r = rw (put_string-after f s b h r) refl

format_loop-after :
    (ps : List Piece) (args : List Arg) (f : ℕ) (b : Buffer)
    → Matches ps args
    → length (render ps args) + 1 < b.rem
    → length (spell ps) + length (render ps args) < f
    → format_loop f (spell ps) args b ≡ done (after (render ps args) b)
unfolding format_loop spell render directive literal take_size take_int
format_loop-after ps args zero b m r h = absurd (omega arith)
format_loop-after [] args (suc f) b m r h = ap done (after-nil b)
format_loop-after (plain c ∷ ps) args (suc f) b m r h =
    let room : ltb 1 b.rem ≡ true = lt→ltb _ _ (omega arith) in
    let short : length (spell ps) + 1 ≤ length (spell (plain c ∷ ps)) =
      elim (Bool-cases (c == b'%')) [ inl e ↦ rw e (omega arith) | inr e ↦ rw e (omega arith) ] in
    let rest =
      format_loop-after ps args f (put c b) m (omega arith) (omega (arith, short))
      ∙ ap done (after-append (c ∷ []) (render ps args) b) in
    elim (Bool-cases (c == b'%')) [
      | inl e ↦
          rw (e, room)
            (ap (λ x. format_loop f (spell ps) args (put x b)) (sym ((==_iff c b'%').0 e)) ∙ rest)
      | inr e ↦ rw (e, e, room) rest
    ]
format_loop-after (string ∷ ps) (arg_string s ∷ args) (suc f) b m r h =
    let t = string_text s in
    let both = length-append t (render ps args) in
    rw (take_string-after f s args b (omega (arith, both)) (omega (arith, both))) (
      format_loop-after ps args f (after t b) m (omega (arith, both)) (omega (arith, both))
      ∙ ap done (after-append t (render ps args) b))
format_loop-after (size ∷ ps) (arg_size v ∷ args) (suc f) b (n, m) r h =
    let t = size_text v in
    let both = length-append t (render ps args) in
    rw (put_size-after v b n (omega (arith, both))) (
      format_loop-after ps args f (after t b) m (omega (arith, both)) (omega (arith, both))
      ∙ ap done (after-append t (render ps args) b))
format_loop-after (int ∷ ps) (arg_int v ∷ args) (suc f) b (n, m) r h =
    let t = int_text v in
    let both = length-append t (render ps args) in
    rw (put_int-after v b n (omega (arith, both))) (
      format_loop-after ps args f (after t b) m (omega (arith, both)) (omega (arith, both))
      ∙ ap done (after-append t (render ps args) b))
format_loop-after (_ ∷ ps) args (suc f) b m r h = elim m [ ]

-- Where the text that a format and its arguments stand for leaves two bytes of the buffer, it is
-- written, its length is the result, and the NUL stands behind it; a round for each byte of the
-- format and of the text, and one more, are enough.
pub vsnprintf-render :
    (ps : List Piece) (args : List Arg) (f bufsz : ℕ)
    → Matches ps args
    → length (render ps args) + 1 < bufsz
    → length (spell ps) + length (render ps args) < f
    → vsnprintf f bufsz (spell ps) args
      ≡ done (record {
        text = render ps args;
        written = length (render ps args);
        nul = some (length (render ps args));
      })
unfolding vsnprintf terminate
vsnprintf-render ps args f bufsz m r h =
    let start : Buffer = record { out = []; rem = bufsz } in
    let some_room : ltb 0 bufsz ≡ true = lt→ltb _ _ (omega arith) in
    let exact : bufsz - (bufsz - length (render ps args)) ≡ length (render ps args) = omega arith in
    let below : ltb (length (render ps args)) bufsz ≡ true = lt→ltb _ _ (omega arith) in
    rw (format_loop-after ps args f start m r h, some_room, exact, below) refl

-- Rounds that never end.
stuck :
    (f c : ℕ) (s : Bytes) (args : List Arg) (b : Buffer)
    → (c == b'%') ≡ false
    → b.rem ≤ 1
    → format_loop f (c ∷ s) args b ≡ still_running
unfolding format_loop literal
stuck zero c s args b e r = refl
stuck (suc f) c s args b e r =
    let full : ltb 1 b.rem ≡ false = ground arith in
    rw (e, full, format_loop, literal) (stuck f c s args b e r)

-- No byte is a `%`.
abbrev pub NoPercent : Bytes → Type 0
NoPercent [] = Unit
NoPercent (c ∷ s) = ((c == b'%') ≡ false) × NoPercent s

plain_stuck :
    (f : ℕ) (s : Bytes) (args : List Arg) (b : Buffer)
    → NoPercent s
    → 0 < length s
    → b.rem ≤ length s
    → format_loop f s args b ≡ still_running
unfolding format_loop literal
plain_stuck zero s args b a p r = refl
plain_stuck (suc f) [] args b a p r = absurd (omega arith)
plain_stuck (suc f) (c ∷ []) args b (e, a) p r = stuck (suc f) c [] args b e (omega arith)
plain_stuck (suc f) (c ∷ d ∷ s) args b (e, a) p r = elim (Bool-cases (ltb 1 b.rem)) [
  | inl room ↦ rw (e, room) (plain_stuck f (d ∷ s) args (put c b) a (omega arith) (omega arith))
  | inr full ↦ stuck (suc f) c (d ∷ s) args b e (ground arith)
]

-- A format of plain bytes, one or more, that does not leave a byte of the buffer for the NUL is
-- never written to its end: whatever the fuel, it is spent.
pub vsnprintf_hangs :
    (s : Bytes) (args : List Arg) (f bufsz : ℕ)
    → NoPercent s
    → 0 < length s
    → bufsz ≤ length s
    → vsnprintf f bufsz s args ≡ still_running
unfolding vsnprintf
vsnprintf_hangs s args f bufsz a p r =
    rw (plain_stuck f s args (record { out = []; rem = bufsz }) a p r) refl
