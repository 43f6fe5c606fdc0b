-- ===== src/SourceLine/Behind.antt =====
-- src/compiler.c: the line that `source_line` gives, against the text cut at its newlines.
use tira.Prelude.{
  ℕ, zero, suc, ◌+◌, ◌-◌, ◌≡◌, ◌≢◌, refl, ap, ◌∙◌, true, false, not, arith, [], ◌∷◌, Option, none,
  some, Bytes, drop, take, length, ◌==◌, if◌then◌else◌, Bool-cases, inl, inr,
}
use tira.SourceLine.{Search, find_start, find_end, source_line}

-- The text behind so many newlines, if it has as many.
unfoldable pub behind : ℕ → Bytes → Option Bytes
behind zero s = some s
behind (suc k) [] = none
behind (suc k) (c ∷ s) = if c == b'\n' then behind k s else behind (suc k) s

-- The text up to its first newline.
unfoldable pub first_line : Bytes → Bytes
first_line [] = []
first_line (c ∷ s) = if c == b'\n' then [] else c ∷ first_line s

-- The text at a place.
abbrev pub text_at : Bytes → ℕ × ℕ → Bytes
text_at source (start, len) = take len (drop start source)

-- What the search for the line gives: nothing, the whole text where nothing stands behind the
-- newlines, or the place of what stands there.
data Found (n i : ℕ) (s : Bytes) : Option Bytes → Search → Type 0 where
  absent : {m start : ℕ} → m ≢ n → Found n i s none (record { cur_line = m; start = start })
  at_end :
      {m start : ℕ}
      → m ≡ n
      → start ≡ 0
      → Found n i s (some []) (record { cur_line = m; start = start })
  inside :
      {m start c : ℕ} {r : Bytes} (j : ℕ)
      → m ≡ n
      → start ≡ i + j
      → drop j s ≡ c ∷ r
      → Found n i s (some (c ∷ r)) (record { cur_line = m; start = start })

Found-next :
    {n i c : ℕ} {s : Bytes} {o : Option Bytes} {f : Search}
    → Found n (i + 1) s o f
    → Found n i (c ∷ s) o f
Found-next (absent e) = absent e
Found-next (at_end e z) = at_end e z
Found-next (inside j e p d) = inside (suc j) e (omega (arith, p)) d

find_start-Found :
    (n k cur i : ℕ) (s : Bytes) → n ≡ k + cur → Found n i s (behind k s) (find_start n cur i s)
unfolding behind find_start
find_start-Found n zero cur i [] h = at_end (omega arith) refl
find_start-Found n zero cur i (c ∷ s) h =
    let same : (cur == n) ≡ true = ground arith in
    rw same (inside 0 (omega arith) (omega arith) refl)
find_start-Found n (suc k) cur i [] h = absent (λ e. omega arith)
find_start-Found n (suc k) cur i (c ∷ s) h =
    let other : (cur == n) ≡ false = ground arith in
    elim (Bool-cases (c == b'\n')) [
      | inl e ↦ rw (other, e) (Found-next (find_start-Found n k (cur + 1) (i + 1) s (omega arith)))
      | inr e ↦ rw (other, e) (Found-next (find_start-Found n (suc k) cur (i + 1) s h))
    ]

-- The second loop passes the first line of what stands at its start.
find_end-first_line : (end : ℕ) (s : Bytes) → find_end end s ≡ end + length (first_line s)
unfolding find_end first_line
find_end-first_line end [] = omega arith
find_end-first_line end (c ∷ s) = elim (Bool-cases (c == b'\n')) [
  | inl e ↦ rw e (omega arith)
  | inr e ↦ rw e (omega (arith, find_end-first_line (end + 1) s))
]

take-first_line : (s : Bytes) → take (length (first_line s)) s ≡ first_line s
unfolding first_line
take-first_line [] = refl
take-first_line (c ∷ s) = elim (Bool-cases (c == b'\n')) [
  | inl e ↦ rw e refl
  | inr e ↦ rw e (ap (λ r. c ∷ r) (take-first_line s))
]

-- The text of a place that may be absent.
unfoldable pub line_text : Bytes → Option (ℕ × ℕ) → Option Bytes
line_text source none = none
line_text source (some place) = some (text_at source place)

-- The line that a part of the text starts with; for an empty part, the first line of the whole.
unfoldable pub line_from : Bytes → Option Bytes → Option Bytes
line_from source none = none
line_from source (some []) = some (first_line source)
line_from source (some (c ∷ r)) = some (first_line (c ∷ r))

-- The place of the line, once its start is found.
abbrev place : ℕ → Bytes → Search → Option (ℕ × ℕ)
place n source f =
    if not (f.cur_line == n)
    then none
    else some (f.start, find_end f.start (drop f.start source) - f.start)

line_at_start :
    (source : Bytes) (start : ℕ)
    → text_at source (start, find_end start (drop start source) - start)
      ≡ first_line (drop start source)
line_at_start source start =
    let len : find_end start (drop start source) - start ≡ length (first_line (drop start source)) =
      omega (arith, find_end-first_line start (drop start source)) in
    ap (λ l. take l (drop start source)) len ∙ take-first_line (drop start source)

place-Found :
    {n : ℕ} {source : Bytes} {o : Option Bytes} {f : Search}
    → Found n 0 source o f
    → line_text source (place n source f) ≡ line_from source o
unfolding line_text line_from
place-Found {n} {source} (absent {m} {start} e) =
    let other : (m == n) ≡ false = ground arith in rw other refl
place-Found {n} {source} (at_end {m} {start} e z) =
    let same : (m == n) ≡ true = ground arith in
    rw same (ap some (line_at_start source start ∙ ap (λ i. first_line (drop i source)) z))
place-Found {n} {source} (inside {m} {start} j e p d) =
    let same : (m == n) ≡ true = ground arith in
    let q : start ≡ j = omega arith in
    rw same (ap some (line_at_start source start ∙ ap first_line (ap (λ i. drop i source) q ∙ d)))

-- The line of a number is what stands behind one newline fewer, up to the next newline; there is
-- none if the text has fewer newlines; and where nothing stands behind them, the line is not empty
-- but the first line of the text.
pub source_line_lem :
    (source : Bytes) (k : ℕ)
    → line_text source (source_line source (suc k)) ≡ line_from source (behind k source)
unfolding source_line
source_line_lem source k = place-Found (find_start-Found (suc k) k 1 0 source (omega arith))
