-- ===== src/Memory/Copy.antt =====
-- src/memory.c: what `memcpy` copies, and what it does not.
use tira.Prelude.{
  ℕ, zero, suc, ◌+◌, ◌-◌, ◌≤◌, ◌<◌, ◌≡◌, ◌≢◌, refl, ap, ◌∙◌, arith, true, false, ◌&&◌, ◌||◌, ◌⊎◌,
  inl, inr, [], ◌∷◌, some, Bytes, ltb, ◌==◌, Bool-cases,
}
use tira.Memory.Block.{Memory, write, copy_forward, copy_reversed, memcpy}

-- The bytes from an address on.
unfoldable pub bytes_at : Memory → ℕ → ℕ → Bytes
bytes_at m p zero = []
bytes_at m p (suc n) = m p ∷ bytes_at m (p + 1) n

shift : (m : Memory) (x y : ℕ) → x ≡ y → m x ≡ m y
shift m x y e = ap m e

write_ne : (m : Memory) (p v q : ℕ) → p ≢ q → write m p v q ≡ m q
write_ne m p v q h = ground arith

pub bytes_at-same :
    (m m' : Memory) (p q n : ℕ)
    → ((i : ℕ) → i < n → m (p + i) ≡ m' (q + i))
    → bytes_at m p n ≡ bytes_at m' q n
unfolding bytes_at
bytes_at-same m m' p q zero h = refl
bytes_at-same m m' p q (suc n) h =
    ap (λ c. c ∷ bytes_at m (p + 1) n)
      (shift m p (p + 0) (omega arith) ∙ h 0 (omega arith) ∙ shift m' (q + 0) q (omega arith))
    ∙ ap (λ r. m' q ∷ r)
        (bytes_at-same m m' (p + 1) (q + 1) n λ i lt.
          shift m (p + 1 + i) (p + suc i) (omega arith)
          ∙ h (suc i) (omega arith)
          ∙ shift m' (q + suc i) (q + 1 + i) (omega arith))

copy_forward_outside :
    (n d s x : ℕ) (m : Memory) → (x < d) ⊎ (d + n ≤ x) → copy_forward n d s m x ≡ m x
unfolding copy_forward
copy_forward_outside zero d s x m h = refl
copy_forward_outside (suc n) d s x m h =
    copy_forward_outside n (d + 1) (s + 1) x (write m d (m s)) (omega arith) ∙ ground arith

copy_forward_inside :
    (n d s i : ℕ) (m : Memory)
    → (d ≤ s) ⊎ (s + n ≤ d)
    → i < n
    → copy_forward n d s m (d + i) ≡ m (s + i)
unfolding copy_forward
copy_forward_inside zero d s i m a h = absurd (omega arith)
copy_forward_inside (suc n) d s zero m a h =
    copy_forward_outside n (d + 1) (s + 1) (d + 0) (write m d (m s)) (omega arith) ∙ ground arith
copy_forward_inside (suc n) d s (suc i) m a h =
    shift (copy_forward n (d + 1) (s + 1) (write m d (m s))) (d + suc i) (d + 1 + i) (omega arith)
    ∙ copy_forward_inside n (d + 1) (s + 1) i (write m d (m s)) (omega arith) (omega arith)
    ∙ write_ne m d (m s) (s + 1 + i) (λ e. omega arith)
    ∙ shift m (s + 1 + i) (s + suc i) (omega arith)

-- Where the destination does not begin inside the source behind its start, `memcpy` gives the
-- destination, the bytes there are those that the source had, and every other byte is as it was.
pub memcpy-copies :
    (dest src n x : ℕ) (m : Memory)
    → 0 < dest
    → 0 < src
    → (dest ≤ src) ⊎ (src + n ≤ dest)
    → (x < dest) ⊎ (dest + n ≤ x)
    → ((memcpy dest src n m).0 ≡ some dest)
      × (bytes_at (memcpy dest src n m).1 dest n ≡ bytes_at m src n)
      × ((memcpy dest src n m).1 x ≡ m x)
unfolding memcpy
memcpy-copies dest src n x m d s apart outside =
    let given : (dest == 0 || src == 0) ≡ false = ground arith in
    let forward : (ltb src dest && ltb dest (src + n)) ≡ false = ground arith in
    rw (given, forward)
      (
        refl,
        bytes_at-same (copy_forward n dest src m) m dest src n
            (λ i lt. copy_forward_inside n dest src i m apart lt),
        copy_forward_outside n dest src x m outside,
      )

-- Two memories that agree from an address on, and at the bytes from behind `d` up to `e`, agree at
-- the bytes that a copy writes too, if it reads from that address on.
copy_reversed_agrees :
    (n d s lo e x : ℕ) (m m' : Memory)
    → lo ≤ s
    → n ≤ d
    → ((y : ℕ) → (lo ≤ y) ⊎ ((d < y) × (y ≤ e)) → m y ≡ m' y)
    → (lo ≤ x) ⊎ ((d < x + n) × (x ≤ e))
    → copy_reversed n d s m x ≡ copy_reversed n d s m' x
unfolding copy_reversed
copy_reversed_agrees zero d s lo e x m m' l b h g = h x (ground arith)
copy_reversed_agrees (suc n) d s lo e x m m' l b h g =
    copy_reversed_agrees n (d - 1) (s + 1) lo e x (write m d (m s)) (write m' d (m' s))
      (omega arith) (omega arith)
      (λ y k. elim (Bool-cases (y == d)) [
        | inl same ↦ rw same (h s (inl l))
        | inr other ↦ rw other (h y (ground (arith, k, other)))
      ])
      (elim g [ inl a ↦ inl a | inr (a, c) ↦ inr (omega arith, c) ])

-- Where the destination begins inside the source behind its start, `memcpy` reads no byte of the
-- source but its last: from memories that agree from that byte on it makes memories that agree at the
-- whole destination.
pub memcpy-overlap :
    (dest src n x : ℕ) (m m' : Memory)
    → 0 < src
    → src < dest
    → dest < src + n
    → ((y : ℕ) → src + n - 1 ≤ y → m y ≡ m' y)
    → dest ≤ x
    → x < dest + n
    → (memcpy dest src n m).1 x ≡ (memcpy dest src n m').1 x
unfolding memcpy
memcpy-overlap dest src n x m m' s lt over h lo hi =
    let given : (dest == 0 || src == 0) ≡ false = ground arith in
    let reversed : (ltb src dest && ltb dest (src + n)) ≡ true = ground arith in
    rw (given, reversed)
      (copy_reversed_agrees n (dest + n - 1) (src + n - 1) (src + n - 1) (dest + n - 1) x m m'
        (omega arith) (omega arith)
        (λ y k. elim k [ inl a ↦ h y a | inr (a, c) ↦ absurd (omega arith) ])
        (inr (omega arith, omega arith)))
