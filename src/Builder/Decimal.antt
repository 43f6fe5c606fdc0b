-- ===== src/Builder/Decimal.antt =====
-- src/string.c: the decimal digits that `sb_build_u64` writes.
use native.Mathlib.Nat.{pow-suc}
use tira.Prelude.{
  ℕ, zero, suc, ◌+◌, ◌*◌, ◌/◌, ◌%◌, ◌^◌, ◌≤◌, ◌<◌, ◌≡◌, refl, ap, ◌∙◌, sym, true, false, ◌&&◌,
  arith, [], ◌∷◌, ◌++◌, none, some, Bytes, length, ltb, leb, leb→gt, leb→le, ◌==◌, ==_iff,
  Bool-cases, Option-cases, ◌⊎◌, inl, inr,
}
use tira.Text.{decimal_digit}
use tira.Text.Integer.{digits_value, decimal_number}
use tira.Builder.{
  StringBuilder, sb_remaining, sb_push, temp_digits, copied_back, sb_build_temp, sb_build_u64,
}
use tira.Builder.Room.{HasRoom, sb_push-HasRoom, sb_remaining-HasRoom, length-copied_back}

digits_value-append :
    (s : Bytes) (c d n acc : ℕ)
    → digits_value decimal_digit 10 s acc ≡ some n
    → decimal_digit c ≡ some d
    → digits_value decimal_digit 10 (s ++ c ∷ []) acc ≡ some (n * 10 + d)
unfolding digits_value
digits_value-append [] c d n acc h e = let k : some acc ≡ some n = h in rw (e, digits_value) (cc k)
digits_value-append (x ∷ s) c d n acc h e = elim (Option-cases (decimal_digit x)) [
  | inl z ↦ let k : none ≡ some n = rw (z, digits_value) at h in cc k
  | inr (y, z) ↦
      rw (z, digits_value)
        (digits_value-append s c d n (acc * 10 + y) (rw (z, digits_value) at h) e)
]

decimal_digit_lem : (u : ℕ) → decimal_digit (u % 10 + b'0') ≡ some (u % 10)
unfolding decimal_digit
decimal_digit_lem u = ground arith

-- A number below ten to the power of the room has its digits written, and they stand for it.
temp_digits_lem :
    (room u : ℕ)
    → u < 10 ^ room
    → (temp : Bytes) × (temp_digits room u ≡ some temp)
      × (length temp ≤ room)
      × (decimal_number (copied_back temp) ≡ some u)
unfolding temp_digits copied_back digits_value
temp_digits_lem zero u h =
    let z : (u == 0) ≡ true = ground arith in ([], rw z refl, omega arith, ap some (omega arith))
temp_digits_lem (suc room) u h = elim (Bool-cases (u == 0)) [
  | inl z ↦ ([], rw z refl, omega arith, ap some (sym ((==_iff _ _).0 z)))
  | inr z ↦
      let (temp, run, short, value) =
        temp_digits_lem room (u / 10) (omega (arith, pow-suc 10 room)) in
      (
        (u % 10 + b'0') ∷ temp,
        rw (z, run) refl,
        omega (arith, short),
        digits_value-append (copied_back temp) (u % 10 + b'0') (u % 10) (u / 10) 0 value
              (decimal_digit_lem u)
            ∙ ap some (omega arith),
      )
]

temp_digits_over : (room u : ℕ) → 10 ^ room ≤ u → temp_digits room u ≡ none
unfolding temp_digits
temp_digits_over zero u h = let z : (u == 0) ≡ false = ground arith in rw z refl
temp_digits_over (suc room) u h =
    let z : (u == 0) ≡ false = ground (arith, pow-suc 10 room, pow_pos room) in
    rw (z, temp_digits_over room (u / 10) (omega (arith, pow-suc 10 room))) refl
  where
    pow_pos : (k : ℕ) → 0 < 10 ^ k
    pow_pos zero = omega arith
    pow_pos (suc k) = omega (arith, pow-suc 10 k, pow_pos k)

-- A text that stands for a number is appended, or the builder is left alone where 16 bytes or fewer
-- are free.
abbrev pub Appended : ℕ → StringBuilder → StringBuilder → Type 0
Appended u sb after =
    HasRoom after
    × (((after ≡ sb) × (sb.capacity ≤ length sb.buffer + 16))
        ⊎ ((text : Bytes) × (after.buffer ≡ sb.buffer ++ text) × (decimal_number text ≡ some u)))

sb_build_temp-Appended :
    (sb : StringBuilder) (u : ℕ) (temp : Bytes)
    → HasRoom sb
    → length temp ≤ 16
    → decimal_number (copied_back temp) ≡ some u
    → Appended u sb (sb_build_temp sb temp)
unfolding sb_build_temp sb_push
sb_build_temp-Appended sb u temp r short value =
    elim (Bool-cases (leb (sb_remaining sb) (length temp))) [
      | inl full ↦
          rw full (r, inl (refl, omega (arith, leb→le _ _ full, sb_remaining-HasRoom sb r)))
      | inr free ↦ rw free (
        sb_push-HasRoom sb (copied_back temp) r
            (omega (arith, leb→gt _ _ free, length-copied_back temp)),
        inr (copied_back temp, refl, value),
      )
    ]

-- A number of at most 16 decimal digits is written inside the buffer as a text that stands for it,
-- or, where 16 bytes or fewer are free, possibly not at all.
pub sb_build_u64_lem :
    (sb : StringBuilder) (u : ℕ)
    → HasRoom sb
    → u < 10 ^ 16
    → (after : StringBuilder) × (sb_build_u64 sb u ≡ some after) × Appended u sb after
unfolding sb_build_u64 digits_value decimal_digit sb_push
sb_build_u64_lem sb u r h = elim (Bool-cases (u == 0 && ltb 0 (sb_remaining sb))) [
  | inl e ↦ (
    sb_push (b'0' ∷ []) sb,
    rw e refl,
    (
      sb_push-HasRoom sb (b'0' ∷ []) r (ground (arith, e)),
      inr (b'0' ∷ [], refl, ground (arith, e)),
    ),
  )
  | inr e ↦
      let (temp, run, short, value) = temp_digits_lem 16 u h in
      (sb_build_temp sb temp, rw (e, run) refl, sb_build_temp-Appended sb u temp r short value)
]

-- A number of 17 decimal digits or more is written behind the array of 16 bytes that holds its
-- digits.
pub sb_build_u64_overflows : (sb : StringBuilder) (u : ℕ) → 10 ^ 16 ≤ u → sb_build_u64 sb u ≡ none
unfolding sb_build_u64
sb_build_u64_overflows sb u h =
    let z : (u == 0) ≡ false = ground arith in rw (z, temp_digits_over 16 u h) refl
