-- ===== src/Builder/RoundTrip.antt =====
-- src/string.c: numbers written by the builder are read back by `string_to_int64`.
use tira.Prelude.{
  append_assoc, length-append, leb, ◌==◌, ◌&&◌, ℕ, zero, suc, ◌+◌, ◌-◌, ◌*◌, ◌^◌, ◌≤◌, ◌<◌, ◌≡◌,
  ◌≢◌, refl, ap, ◌∙◌, true, false, ◌||◌, arith, [], ◌∷◌, ◌++◌, none, some, Bytes, length, ltb,
  Bool-cases, inl, inr,
}
use tira.Prelude.Int.{ℤ, pos, negsuc, neg}
use tira.Text.{decimal_digit, string_to_int64, is_hex, map_int, int64_max}
use tira.Text.Integer.{
  digits_value, decimal_number, fitting, string_to_int64-plain, string_to_int64-prefixed,
}
use tira.Builder.{StringBuilder, sb_remaining, sb_push, sb_build_u64, sb_build_int}
use tira.Builder.Room.{sb_push-HasRoom, HasRoom, sb_remaining-HasRoom}
use tira.Builder.Decimal.{sb_build_u64_lem}

-- Digits are read.
digits-IsDigit :
    (c : ℕ) (s : Bytes) (acc n : ℕ)
    → digits_value decimal_digit 10 (c ∷ s) acc ≡ some n
    → (b'0' ≤ c) × (c ≤ b'9') × (m : ℕ) × (digits_value decimal_digit 10 s m ≡ some n)
unfolding digits_value decimal_digit
digits-IsDigit c s acc n h = elim (Bool-cases (ltb c b'0' || ltb b'9' c)) [
  | inl e ↦ let k : none ≡ some n = rw (e, digits_value, decimal_digit) at h in absurd (cc k)
  | inr e ↦ (
    ground (arith, e),
    ground (arith, e),
    acc * 10 + (c - b'0'),
    rw (e, digits_value, decimal_digit) at h,
  )
]

-- A text of decimal digits has no prefix for the base or the sign.
plain :
    (c : ℕ) (s : Bytes) (n : ℕ)
    → decimal_number (c ∷ s) ≡ some n
    → (is_hex (c ∷ s) ≡ false) × (c ≢ b'-') × (c ≢ b'+')
unfolding is_hex
plain c s n h =
    let (lo, hi, m, k) = digits-IsDigit c s 0 n h in
    (no_hex m s k, λ e. omega (arith, e, lo), λ e. omega (arith, e, lo))
  where
    no_hex :
        (m : ℕ) (s : Bytes) → digits_value decimal_digit 10 s m ≡ some n → is_hex (c ∷ s) ≡ false
    no_hex m [] k = refl
    no_hex m (x ∷ []) k = refl
    no_hex m (x ∷ y ∷ s) k =
        let (lo, hi, _, _) = digits-IsDigit x (y ∷ s) m n k in ground (arith, lo, hi)

-- Such a text converts to its number.
reads_back :
    (text : Bytes) (n : ℕ)
    → decimal_number text ≡ some n
    → text ≢ []
    → n ≤ int64_max
    → string_to_int64 text ≡ some (pos n)
unfolding map_int fitting
reads_back [] n h e b = absurd (e refl)
reads_back (c ∷ s) n h e b =
    let (a, m, p) = plain c s n h in
    let fits : fitting (some n) ≡ some n = ground arith in
    string_to_int64-plain c s a m p ∙ ap (map_int pos) (ap fitting h ∙ fits)

-- Where 17 bytes are free the number is written, with a digit at least.
sb_build_u64-free :
    (sb : StringBuilder) (u : ℕ)
    → HasRoom sb
    → u < 10 ^ 16
    → length sb.buffer + 17 ≤ sb.capacity
    → (after : StringBuilder) × (text : Bytes) × (sb_build_u64 sb u ≡ some after)
      × (after.buffer ≡ sb.buffer ++ text)
      × (decimal_number text ≡ some u)
      × (text ≢ [])
unfolding sb_build_u64 sb_push digits_value decimal_digit
sb_build_u64-free sb zero r h free =
    let some_free : ltb 0 (sb_remaining sb) ≡ true = ground (arith, sb_remaining-HasRoom sb r) in
    (sb_push (b'0' ∷ []) sb, b'0' ∷ [], rw some_free refl, refl, refl, λ e. cc e)
sb_build_u64-free sb (suc u) r h free =
    let (after, run, (_, written)) = sb_build_u64_lem sb (suc u) r h in
    elim written [
      | inl (_, full) ↦ absurd (omega arith)
      | inr (text, appended, value) ↦ (after, text, run, appended, value, not_empty text value)
    ]
  where
    not_empty : (text : Bytes) → decimal_number text ≡ some (suc u) → text ≢ []
    not_empty [] value e =
        let z : some 0 ≡ some (suc u) = value in let k : 0 ≡ suc u = cc z in omega (arith, k)
    not_empty (c ∷ s) value e = cc e

-- A number of at most 16 decimal digits, written where 17 bytes are free, is a text that converts to
-- the number.
pub string_to_int64-sb_build_u64 :
    (sb : StringBuilder) (u : ℕ)
    → HasRoom sb
    → u < 10 ^ 16
    → length sb.buffer + 17 ≤ sb.capacity
    → (after : StringBuilder) × (text : Bytes) × (sb_build_u64 sb u ≡ some after)
      × (after.buffer ≡ sb.buffer ++ text)
      × (string_to_int64 text ≡ some (pos u))
string_to_int64-sb_build_u64 sb u r h free =
    let (after, text, run, appended, value, some_digit) = sb_build_u64-free sb u r h free in
    (after, text, run, appended, reads_back text u value some_digit (omega arith))

-- The distance of an integer from 0.
abbrev pub magnitude : ℤ → ℕ
magnitude (pos n) = n
magnitude (negsuc n) = n + 1

reads_back_negative :
    (text : Bytes) (n : ℕ)
    → decimal_number text ≡ some (n + 1)
    → text ≢ []
    → n < int64_max
    → string_to_int64 (b'-' ∷ text) ≡ some (negsuc n)
unfolding map_int fitting
reads_back_negative [] n h e b = absurd (e refl)
reads_back_negative (c ∷ s) n h e b =
    let fits : fitting (some (n + 1)) ≡ some (n + 1) = ground arith in
    let one : n + 1 ≡ suc n = omega arith in
    let same : neg (n + 1) ≡ negsuc n = ap neg one in
    (string_to_int64-prefixed c s).0 ∙ ap (map_int neg) (ap fitting h ∙ fits) ∙ ap some same

same_as_u64 : (sb : StringBuilder) (n : ℕ) → sb_build_int sb (pos n) ≡ sb_build_u64 sb n
unfolding sb_build_int sb_build_u64
same_as_u64 sb n = elim (Bool-cases (n == 0 && ltb 0 (sb_remaining sb))) [
  | inl e ↦ rw e refl
  | inr e ↦ rw e refl
]

-- An `int`, written where 18 bytes are free, is a text that converts to it.
pub string_to_int64-sb_build_int :
    (sb : StringBuilder) (i : ℤ)
    → HasRoom sb
    → magnitude i ≤ 2 ^ 31
    → length sb.buffer + 18 ≤ sb.capacity
    → (after : StringBuilder) × (text : Bytes) × (sb_build_int sb i ≡ some after)
      × (after.buffer ≡ sb.buffer ++ text)
      × (string_to_int64 text ≡ some i)
unfolding sb_build_int sb_push
string_to_int64-sb_build_int sb (pos n) r h free =
    let (after, text, run, appended, reads) =
      string_to_int64-sb_build_u64 sb n r (omega arith) (omega arith) in
    (after, text, same_as_u64 sb n ∙ run, appended, reads)
string_to_int64-sb_build_int sb (negsuc n) r h free =
    let room : leb (sb_remaining sb) 1 ≡ false = ground (arith, sb_remaining-HasRoom sb r) in
    let minus = sb_push (b'-' ∷ []) sb in
    let longer = length-append sb.buffer (b'-' ∷ []) in
    let (after, text, run, appended, value, some_digit) =
      sb_build_u64-free minus (n + 1)
        (sb_push-HasRoom sb (b'-' ∷ []) r (omega (arith, sb_remaining-HasRoom sb r))) (omega arith)
        (omega (arith, longer)) in
    (
      after,
      b'-' ∷ text,
      rw room run,
      appended ∙ append_assoc sb.buffer (b'-' ∷ []) text,
      reads_back_negative text n value some_digit (omega arith),
    )
