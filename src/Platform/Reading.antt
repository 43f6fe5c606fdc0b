-- ===== src/Platform/Reading.antt =====
-- src/platform_linux.c: what `platform_read_entire_file` reads, and where it is put.
use mathlib.Core.Path.{subst}
use tira.Prelude.{
  ℕ, zero, suc, ◌+◌, ◌-◌, ◌⊎◌, ◌≤◌, ◌<◌, ◌≡◌, refl, ap, ◌∙◌, sym, arith, true, false, [], ◌∷◌, ◌++◌,
  Option, none, some, Bytes, length, length-append, length-drop, take, drop, ltb, ltb→lt,
  Bool-cases, Option-cases, inl, inr,
}
use tira.Memory.{Arena, alloc}
use tira.Memory.Regions.{IsArena, Fits, IsPlace, Allocates, placed, full, alloc-Allocates}
use tira.Platform.{
  System, FileRead, file_read, trapped, after_read, read_loop, empty_file, read_into,
  platform_read_entire_file,
}

-- What `read` may give at an offset of a file: an error, or at most so many of the bytes there.
pub data Gives (content : Bytes) (offset count : ℕ) : Option Bytes → Type 0 where
  fails : Gives content offset count none
  gives : (n : ℕ) → n ≤ count → Gives content offset count (some (take n (drop offset content)))

abbrev pub Reader : Bytes → (ℕ → ℕ → Option Bytes) → Type 0
Reader content read = (offset count : ℕ) → Gives content offset count (read offset count)

same_take : (m n : ℕ) (xs : Bytes) → m ≡ n → take m xs ≡ take n xs
same_take m n xs e = ap (λ k. take k xs) e

take-nil : (n : ℕ) → take {A = ℕ} n [] ≡ []
take-nil zero = refl
take-nil (suc n) = refl

take-append : (i n : ℕ) (xs : Bytes) → take i xs ++ take n (drop i xs) ≡ take (i + n) xs
take-append zero n xs = same_take n (0 + n) xs (omega arith)
take-append (suc i) n [] = take-nil n ∙ sym (take-nil (suc i + n))
take-append (suc i) n (x ∷ xs) =
    ap (λ r. x ∷ r) (take-append i n xs)
    ∙ same_take (suc (i + n)) (suc i + n) (x ∷ xs) (omega arith)

pub length-take_le : (n : ℕ) (xs : Bytes) → length (take n xs) ≤ n
length-take_le zero xs = omega arith
length-take_le (suc n) [] = omega arith
length-take_le (suc n) (x ∷ xs) = omega (arith, length-take_le n xs)

pub take-length : (n : ℕ) (xs : Bytes) → take (length (take n xs)) xs ≡ take n xs
take-length zero xs = refl
take-length (suc n) [] = refl
take-length (suc n) (x ∷ xs) = ap (λ r. x ∷ r) (take-length n xs)

-- The bytes that a file begins with, at most so many.
abbrev pub IsStart : Bytes → ℕ → Bytes → Type 0
IsStart content size got = (got ≡ take (length got) content) × (length got ≤ size)

more-IsStart :
    (content : Bytes) (size n : ℕ) (got : Bytes)
    → IsStart content size got
    → n ≤ size - length got
    → IsStart content size (got ++ take n (drop (length got) content))
more-IsStart content size n got (e, l) h =
    let u = take n (drop (length got) content) in
    let whole : got ++ u ≡ take (length got + n) content =
      ap (λ x. x ++ u) e ∙ take-append (length got) n content in
    (
      whole
          ∙ sym (take-length (length got + n) content)
          ∙ ap (λ x. take (length x) content) (sym whole),
      omega (arith, length-append got u, length-take_le n (drop (length got) content)),
    )

read_loop-IsStart :
    (f : ℕ) (content : Bytes) (read : ℕ → ℕ → Option Bytes) (size : ℕ) (got : Bytes)
    → Reader content read
    → IsStart content size got
    → size < f + length got
    → (out : Bytes) × (read_loop f read size got ≡ some out) × IsStart content size out
unfolding read_loop
read_loop-IsStart zero content read size got r s h = absurd (omega (arith, s.1))
read_loop-IsStart (suc f) content read size got r s h = elim (Bool-cases (ltb (length got) size)) [
  | inr e ↦ (got, rw e refl, s)
  | inl e ↦ rw e (
      go _ (r (length got) (size - length got))
        λ more. read_loop-IsStart f content read size more r)
]
  where
    go :
        (o : Option Bytes)
        → Gives content (length got) (size - length got) o
        → ((more : Bytes)
            → IsStart content size more
            → size < f + length more
            → (out : Bytes) × (read_loop f read size more ≡ some out) × IsStart content size out)
        → (out : Bytes) × (after_read (read_loop f read size) got o ≡ some out)
          × IsStart content size out
    go o fails ih = (got, refl, s)
    go o (gives n l) ih = step (take n (drop (length got) content)) refl
      where
        step :
            (u : Bytes)
            → take n (drop (length got) content) ≡ u
            → (out : Bytes) × (after_read (read_loop f read size) got (some u) ≡ some out)
              × IsStart content size out
        step [] q = (got, refl, s)
        step (c ∷ v) q =
            ih (got ++ c ∷ v)
              (subst (λ w. IsStart content size (got ++ w)) q (more-IsStart content size n got s l))
              (omega (arith, length-append got (c ∷ v)))

-- What comes of a file. It is empty exactly where the file is not opened or has no size to be had.
-- Where it has one, the arena has too few bytes for that many and the NUL; or the bytes it begins
-- with are read, no more than its size, into a region of the arena that has a byte for the NUL
-- behind them.
pub data Reads (content : Bytes) (sys : System) (a : Arena) : FileRead → Type 0 where
  not_read : (sys.opened ≡ false) ⊎ (sys.stat_size ≡ none) → Reads content sys a (empty_file a)
  no_memory :
      (size : ℕ)
      → sys.opened ≡ true
      → sys.stat_size ≡ some size
      → a.size < a.used + (size + 1)
      → Reads content sys a trapped
  reads :
      (size p : ℕ) (text : Bytes)
      → sys.opened ≡ true
      → sys.stat_size ≡ some size
      → IsPlace a (size + 1) 0 p
      → IsStart content size text
      → Reads content sys a (
          file_read (record {
            data_at = some p;
            text = text;
            arena = record a { used = p - a.base + (size + 1) };
            nul = some (p + size);
          }))

read_into-Reads :
    (f size : ℕ) (content : Bytes) (sys : System) (a : Arena) (o : Option ℕ × Arena)
    → Reader content sys.read
    → Allocates a (size + 1) 0 o
    → size < f
    → sys.opened ≡ true
    → sys.stat_size ≡ some size
    → Reads content sys a (read_into f sys size o)
unfolding read_into
read_into-Reads f size content sys a o r (full p after near multiple less) h e n =
    no_memory size e n (omega (arith, after, near, less))
read_into-Reads f size content sys a o r (placed p place) h e n =
    let (text, run, start) =
      read_loop-IsStart f content sys.read size [] r (refl, omega arith) (omega arith) in
    rw run (reads size p text e n place start)

closed_file :
    (f : ℕ) (sys : System) (a : Arena)
    → sys.opened ≡ false
    → platform_read_entire_file f sys a ≡ empty_file a
unfolding platform_read_entire_file
closed_file f sys a e = rw e refl

no_size :
    (f : ℕ) (sys : System) (a : Arena)
    → sys.opened ≡ true
    → sys.stat_size ≡ none
    → platform_read_entire_file f sys a ≡ empty_file a
unfolding platform_read_entire_file
no_size f sys a e n = rw e (rw n refl)

sized :
    (f : ℕ) (sys : System) (a : Arena) {size : ℕ}
    → sys.opened ≡ true
    → sys.stat_size ≡ some size
    → platform_read_entire_file f sys a ≡ read_into f sys size (alloc a 1 1 (size + 1))
unfolding platform_read_entire_file read_into
sized f sys a e n = rw e (rw n refl)

-- Whatever the system calls give, as long as `read` gives bytes of the file or fails: where the file
-- is not opened or `fstat` fails, the result is empty and the arena is as it was. Where neither is
-- so, the arena has too few bytes for the file's size and a NUL, and the program traps; or the bytes
-- that the file begins with, no more than its size, are read into a region inside the arena, with
-- the NUL inside it too. A round for each byte and one more are enough.
pub platform_read_entire_file-Reads :
    (f : ℕ) (content : Bytes) (sys : System) (a : Arena)
    → IsArena a
    → Reader content sys.read
    → ((size : ℕ) → sys.stat_size ≡ some size → Fits a 1 0 (size + 1) × (size < f))
    → Reads content sys a (platform_read_entire_file f sys a)
platform_read_entire_file-Reads f content sys a ar r h = elim (Bool-cases sys.opened) [
  | inr e ↦ subst (Reads content sys a) (sym (closed_file f sys a e)) (not_read (inl e))
  | inl e ↦ elim (Option-cases sys.stat_size) [
    | inl n ↦ subst (Reads content sys a) (sym (no_size f sys a e n)) (not_read (inr n))
    | inr (size, n) ↦
        let (fits, enough) = h size n in
        subst (Reads content sys a) (sym (sized f sys a e n)) (
          read_into-Reads f size content sys a _ r
            (subst (λ b. Allocates a b 0 (alloc a 1 1 (size + 1))) (omega arith)
              (alloc-Allocates a 1 0 (size + 1) ar fits))
            enough e n)
  ]
]

-- `read` gives at least one byte wherever there is one.
abbrev pub Delivers : Bytes → (ℕ → ℕ → Option Bytes) → Type 0
Delivers content read =
    (offset count : ℕ)
    → 0 < count
    → offset < length content
    → (n : ℕ) × (0 < n) × (n ≤ count) × (read offset count ≡ some (take n (drop offset content)))

take_pos : (n : ℕ) (xs : Bytes) → 0 < n → 0 < length xs → 0 < length (take n xs)
take_pos zero xs h k = absurd (omega arith)
take_pos (suc n) [] h k = absurd (omega arith)
take_pos (suc n) (x ∷ xs) h k = omega arith

take_all : (n : ℕ) (xs : Bytes) → length xs ≤ n → take n xs ≡ xs
take_all zero [] h = refl
take_all zero (x ∷ xs) h = absurd (omega arith)
take_all (suc n) [] h = refl
take_all (suc n) (x ∷ xs) h = ap (λ r. x ∷ r) (take_all n xs (omega arith))

read_loop-Delivers :
    (f : ℕ) (content : Bytes) (read : ℕ → ℕ → Option Bytes) (got : Bytes)
    → Delivers content read
    → IsStart content (length content) got
    → length content < f + length got
    → read_loop f read (length content) got ≡ some content
unfolding read_loop
read_loop-Delivers zero content read got d s h = absurd (omega (arith, s.1))
read_loop-Delivers (suc f) content read got d s h =
    elim (Bool-cases (ltb (length got) (length content))) [
      | inr e ↦
          let all : length content ≤ length got = ground (arith, e) in
          rw e (ap some (s.0 ∙ take_all (length got) content all))
      | inl e ↦
          let below : length got < length content = ltb→lt _ _ e in
          let (n, some_byte, few, given) =
            d (length got) (length content - length got) (omega arith) below in
          rw (e, given)
            (step n few some_byte below (take n (drop (length got) content)) refl
              λ more. read_loop-Delivers f content read more d)
    ]
  where
    step :
        (n : ℕ)
        → n ≤ length content - length got
        → 0 < n
        → length got < length content
        → (u : Bytes) → take n (drop (length got) content) ≡ u
        → ((more : Bytes)
            → IsStart content (length content) more
            → length content < f + length more
            → read_loop f read (length content) more ≡ some content)
        → after_read (read_loop f read (length content)) got (some u) ≡ some content
    step n few some_byte below [] q ih = absurd (
        omega (
          arith,
          take_pos n (drop (length got) content) some_byte
              (omega (arith, length-drop (length got) content)),
          ap length q,
        ))
    step n few some_byte below (c ∷ v) q ih =
        ih (got ++ c ∷ v)
          (subst (λ w. IsStart content (length content) (got ++ w)) q
            (more-IsStart content (length content) n got s few))
          (omega (arith, length-append got (c ∷ v)))

-- Where the file is opened, there is room for it and a NUL, and `read` gives at least one byte
-- wherever there is one, the whole file is read, to the top of the arena.
pub platform_read_entire_file-whole :
    (f : ℕ) (content : Bytes) (sys : System) (a : Arena)
    → IsArena a
    → Fits a 1 0 (length content + 1)
    → a.used + length content < a.size
    → sys.opened ≡ true
    → sys.stat_size ≡ some (length content)
    → Delivers content sys.read
    → length content < f
    → (after : Arena) × (platform_read_entire_file f sys a
        ≡ file_read (record {
          data_at = some (a.base + a.used);
          text = content;
          arena = after;
          nul = some (a.base + a.used + length content);
        }))
unfolding platform_read_entire_file read_into
platform_read_entire_file-whole f content sys a ar fits room o n d h =
    rw (o, n)
      (go (alloc a 1 1 (length content + 1)) (
        subst (λ b. Allocates a b 0 (alloc a 1 1 (length content + 1))) (omega arith)
          (alloc-Allocates a 1 0 (length content + 1) ar fits)))
  where
    go :
        (r : Option ℕ × Arena)
        → Allocates a (length content + 1) 0 r
        → (after : Arena) × (read_into f sys (length content) r
            ≡ file_read (record {
              data_at = some (a.base + a.used);
              text = content;
              arena = after;
              nul = some (a.base + a.used + length content);
            }))
    go r (full p behind near multiple less) = absurd (omega arith)
    go r (placed p place) =
        let top : p ≡ a.base + a.used = omega (arith, place.after, place.near) in
        let whole = read_loop-Delivers f content sys.read [] d (refl, omega arith) (omega arith) in
        (record a { used = p - a.base + (length content + 1) }, rw (whole, top) refl)
