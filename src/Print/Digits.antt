-- ===== src/Print/Digits.antt =====
-- src/print.c: the digits that `vsnprintf` collects in `tmp`, and copies back.
use native.Mathlib.Nat.{pow-suc}
use tira.Prelude.{
  ℕ, zero, suc, ◌+◌, ◌/◌, ◌%◌, ◌^◌, ◌≤◌, ◌<◌, ◌≡◌, refl, ap, ◌∙◌, sym, arith, [], ◌∷◌, ◌++◌, some,
  Bytes, length, ◌==◌, Bool-cases, inl, inr,
}
use tira.Builder.{temp_digits, copied_back}
use tira.Print.Render.{decimal}

temp_digits-zero : (room : ℕ) → temp_digits room 0 ≡ some []
unfolding temp_digits
temp_digits-zero zero = refl
temp_digits-zero (suc room) = refl

decimal-zero : (room : ℕ) → decimal room 0 ≡ []
unfolding decimal
decimal-zero zero = refl
decimal-zero (suc room) = refl

-- With room for the digits on both sides, the loop collects those of the decimal notation.
pub temp_digits-decimal :
    (k room q v : ℕ)
    → v < 10 ^ k
    → k ≤ room
    → k ≤ q
    → (temp : Bytes) × (temp_digits room v ≡ some temp)
      × (copied_back temp ≡ decimal q v)
      × (length temp ≤ k)
unfolding temp_digits copied_back decimal
temp_digits-decimal zero room q v h r s =
    let z : v ≡ 0 = omega arith in
    (
      [],
      ap (temp_digits room) z ∙ temp_digits-zero room,
      sym (ap (decimal q) z ∙ decimal-zero q),
      omega arith,
    )
temp_digits-decimal (suc k) zero q v h r s = absurd (omega arith)
temp_digits-decimal (suc k) (suc room) zero v h r s = absurd (omega arith)
temp_digits-decimal (suc k) (suc room) (suc q) v h r s = elim (Bool-cases (v == 0)) [
  | inl z ↦ ([], rw z refl, rw z refl, omega arith)
  | inr z ↦
      let (temp, run, same, short) =
        temp_digits-decimal k room q (v / 10) (omega (arith, pow-suc 10 k)) (omega arith)
          (omega arith) in
      (
        (v % 10 + b'0') ∷ temp,
        rw (z, run) refl,
        rw z (ap (λ x. x ++ (v % 10 + b'0') ∷ []) same),
        omega (arith, short),
      )
]
