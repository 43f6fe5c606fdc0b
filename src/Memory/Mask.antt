-- ===== src/Memory/Mask.antt =====
-- src/memory.c: what the mask of `alloc` does to an address.
use Prim.Native.Nat.{bit_and, bit_and-bitwise, digits, min}
use native.Mathlib.Nat.{pow-suc, mul_assoc, div-div-eq-div-mul}
use tira.Prelude.{ℕ, zero, suc, ◌+◌, ◌-◌, ◌*◌, ◌/◌, ◌^◌, ◌≤◌, ◌<◌, ◌≡◌, refl, ap, ◌∙◌, sym, arith}

pub pow2_pos : (k : ℕ) → 0 < 2 ^ k
pow2_pos zero = omega arith
pow2_pos (suc k) = omega (arith, pow-suc 2 k, pow2_pos k)

-- The numbers `2 ^ (k + m)` and `2 ^ (k + m) - 2 ^ k`, by doubling.
top : ℕ → ℕ → ℕ
top zero zero = 1
top zero (suc m) = top zero m * 2
top (suc k) m = top k m * 2

ones : ℕ → ℕ → ℕ
ones zero zero = 0
ones zero (suc m) = ones zero m * 2 + 1
ones (suc k) m = ones k m * 2

top_lem : (k m : ℕ) → top k m ≡ 2 ^ (k + m)
unfolding top
top_lem zero zero = refl
top_lem zero (suc m) = omega (
  arith,
  top_lem zero m,
  pow-suc 2 m,
  ap (λ x. 2 ^ x) (add_zero m),
  ap (λ x. 2 ^ x) (add_zero (suc m)),
)
  where
    add_zero : (m : ℕ) → 0 + m ≡ m
    add_zero m = omega arith
top_lem (suc k) m =
    let shift : suc k + m ≡ suc (k + m) = omega arith in
    omega (arith, top_lem k m, pow-suc 2 (k + m), ap (λ x. 2 ^ x) shift)

ones_lem : (k m : ℕ) → ones k m + 2 ^ k ≡ top k m
unfolding top ones
ones_lem zero zero = refl
ones_lem zero (suc m) = omega (arith, ones_lem zero m)
ones_lem (suc k) m = omega (arith, ones_lem k m, pow-suc 2 k)

clear_suc : (x k : ℕ) → x / 2 ^ suc k * 2 ^ suc k ≡ x / 2 / 2 ^ k * 2 ^ k * 2
clear_suc x k =
    let q : x / 2 ^ suc k ≡ x / 2 / 2 ^ k =
      ap (λ d. x / d) (omega (arith, pow-suc 2 k)) ∙ sym (div-div-eq-div-mul x 2 (2 ^ k)) in
    let y = x / 2 / 2 ^ k in
    ap (λ z. z * 2 ^ suc k) q ∙ ap (λ p. y * p) (pow-suc 2 k) ∙ sym (mul_assoc y (2 ^ k) 2)

-- In a number below the top the mask clears the digits below `k`.
masked_digits :
    (n a k m : ℕ) → a ≤ n → a < top k m → digits (λ b. zero) min n a (ones k m) ≡ a / 2 ^ k * 2 ^ k
unfolding top ones
masked_digits zero zero k m h lt = grind (arith, pow2_pos k)
masked_digits zero (suc a) k m h lt = absurd (omega arith)
masked_digits (suc n) zero k m h lt = grind (arith, pow2_pos k)
masked_digits (suc n) (suc a) zero zero h lt = absurd (omega arith)
masked_digits (suc n) (suc a) zero (suc m) h lt =
    let half : (ones zero m * 2 + 1) / 2 ≡ ones zero m = omega arith in
    let ih = masked_digits n (suc a / 2) zero m (omega arith) (omega arith) in
    omega (arith, ap (digits (λ b. zero) min n (suc a / 2)) half, ih)
masked_digits (suc n) (suc a) (suc k) m h lt =
    let half : ones k m * 2 / 2 ≡ ones k m = omega arith in
    let ih = masked_digits n (suc a / 2) k m (omega arith) (omega arith) in
    omega (arith, ap (digits (λ b. zero) min n (suc a / 2)) half, ih, clear_suc (suc a) k)

-- The address is rounded down to a multiple of `2 ^ k`.
pub bit_and-high : (x k : ℕ) → k ≤ 64 → x < 2 ^ 64 → bit_and x (2 ^ 64 - 2 ^ k) ≡ x / 2 ^ k * 2 ^ k
bit_and-high x k h lt =
    let full : top k (64 - k) ≡ 2 ^ 64 =
      let sum : k + (64 - k) ≡ 64 = omega arith in top_lem k (64 - k) ∙ ap (λ i. 2 ^ i) sum in
    let mask : 2 ^ 64 - 2 ^ k ≡ ones k (64 - k) = omega (arith, full, ones_lem k (64 - k)) in
    ap (bit_and x) mask
    ∙ bit_and-bitwise x (ones k (64 - k))
    ∙ masked_digits x x k (64 - k) (omega arith) (omega (arith, full))
