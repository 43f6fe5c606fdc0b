-- ===== src/Memory/Compare.antt =====
-- src/memory.c: `memcmp` and `memchr` against the bytes as lists.
use tira.Prelude.{
  ℕ, zero, suc, ◌+◌, ◌-◌, ◌%◌, ltb→lt, ◌<◌, ◌≡◌, ◌≢◌, ◌↔◌, refl, arith, false, ltb, ◌==◌, ==_iff,
  Bool-cases, inl, inr, is_given,
}
use tira.Prelude.Int.{pos, negsuc}
use tira.Parser.Grammar.{has_byte}
use tira.Memory.Block.{Memory, memcmp, memchr, difference}
use tira.Memory.Copy.{bytes_at}

pub difference_lem : (a b : ℕ) → a ≢ b → difference a b ≢ pos 0
unfolding difference
difference_lem a b h e = elim (Bool-cases (ltb a b)) [
  | inl l ↦
      let gap : b - a ≡ suc (b - a - 1) = omega (arith, ltb→lt a b l) in
      let k : negsuc (b - a - 1) ≡ pos 0 = rw (l, gap) at e in cc k
  | inr l ↦
      let k : pos (a - b) ≡ pos 0 = rw l at e in
      let z : a - b ≡ 0 = cc k in h (ground (arith, l, z))
]

unequal : {a b : ℕ} → (a == b) ≡ false → a ≢ b
unequal {a} {b} h e = cc ((==_iff a b).1 e, h)

-- `memcmp` gives 0 exactly if the bytes are the same.
pub memcmp-zero :
    (n p q : ℕ) (m : Memory) → (memcmp p q n m ≡ pos 0) ↔ (bytes_at m p n ≡ bytes_at m q n)
unfolding memcmp bytes_at
memcmp-zero zero p q m = (λ e. refl, λ e. refl)
memcmp-zero (suc n) p q m = elim (Bool-cases (m p == m q)) [
  | inl same ↦ rw same (
    λ e. let t = (memcmp-zero n (p + 1) (q + 1) m).0 e in cc (t, (==_iff (m p) (m q)).0 same),
    λ e. (memcmp-zero n (p + 1) (q + 1) m).1 (cc e),
  )
  | inr other ↦ rw other (
    λ e. absurd (difference_lem (m p) (m q) (unequal other) e),
    λ e. absurd (unequal other (cc e)),
  )
]

-- `memchr` finds an address exactly if the byte is among those that the parser's test sees.
pub memchr-has_byte :
    (n p c : ℕ) (m : Memory) → c < 256 → is_given (memchr p c n m) ≡ has_byte c (bytes_at m p n)
unfolding memchr has_byte bytes_at
memchr-has_byte zero p c m h = refl
memchr-has_byte (suc n) p c m h =
    let low : c % 256 ≡ c = omega arith in
    elim (Bool-cases (m p == c)) [
      | inl same ↦ rw (low, same) refl
      | inr other ↦ rw (low, other) (memchr-has_byte n (p + 1) c m h)
    ]
