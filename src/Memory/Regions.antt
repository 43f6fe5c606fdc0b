-- ===== src/Memory/Regions.antt =====
-- src/memory.c: where `alloc` places what it hands out.
use Prim.Native.Nat.{bit_and}
use tira.Prelude.{
  ℕ, ◌+◌, ◌-◌, ◌*◌, ◌/◌, ◌%◌, ◌^◌, ◌≤◌, ◌<◌, ◌≡◌, ap, ◌∙◌, arith, inl, inr, false, ◌||◌, Option,
  none, some, ltb, ltb, Bool-cases, ◌==◌,
}
use tira.Memory.{Arena, add64, aligned, total, new_used, claim, alloc}
use tira.Memory.Mask.{pow2_pos, bit_and-high}

-- An arena with memory, whose bytes are below the end of the addresses.
pub record IsArena (a : Arena) : Type 0 where
  pub base_pos : 0 < a.base
  pub used_le : a.used ≤ a.size
  pub end_lt : a.base + a.size < 2 ^ 64

-- A request whose bytes, behind the arena and the padding, are below the end of the addresses too.
pub record Fits (a : Arena) (size k count : ℕ) : Type 0 where
  pub size_pos : 0 < size
  pub count_pos : 0 < count
  pub k_le : k ≤ 64
  pub no_wrap : a.base + a.size + 2 ^ k + size * count ≤ 2 ^ 64

-- The least multiple of `d` from a number on.
round_up_ge : (x d : ℕ) → 0 < d → x ≤ (x + (d - 1)) / d * d
round_up_ge x d h = grind arith

round_up_lt : (x d : ℕ) → 0 < d → (x + (d - 1)) / d * d < x + d
round_up_lt x d h = grind arith

multiple : (q d : ℕ) → 0 < d → q * d % d ≡ 0
multiple q d h = grind arith

aligned_lem :
    (x k : ℕ)
    → k ≤ 64
    → x + 2 ^ k ≤ 2 ^ 64
    → (x ≤ aligned x (2 ^ k)) × (aligned x (2 ^ k) < x + 2 ^ k) × (aligned x (2 ^ k) % 2 ^ k ≡ 0)
unfolding aligned add64
aligned_lem x k h room =
    let low : (x + (2 ^ k - 1)) % 2 ^ 64 ≡ x + (2 ^ k - 1) = omega (arith, pow2_pos k) in
    let down =
      ap (λ y. bit_and y (2 ^ 64 - 2 ^ k)) low
      ∙ bit_and-high (x + (2 ^ k - 1)) k h (omega (arith, pow2_pos k)) in
    rw down (
      round_up_ge x (2 ^ k) (pow2_pos k),
      round_up_lt x (2 ^ k) (pow2_pos k),
      multiple ((x + (2 ^ k - 1)) / 2 ^ k) (2 ^ k) (pow2_pos k),
    )

-- A place for so many bytes: behind what is used and inside the arena, at a multiple of `2 ^ k`, less
-- than `2 ^ k` bytes from the old top.
pub record IsPlace (a : Arena) (bytes k p : ℕ) : Type 0 where
  pub after : a.base + a.used ≤ p
  pub near : p < a.base + a.used + 2 ^ k
  pub aligned_at : p % 2 ^ k ≡ 0
  pub inside : p + bytes ≤ a.base + a.size

-- What `alloc` does with such an arena and request: it hands out such a place, behind whose bytes the
-- arena is free; or, where from the least multiple of `2 ^ k` on there are too few bytes, nothing,
-- and the arena is as it was.
pub data Allocates (a : Arena) (bytes k : ℕ) : Option ℕ × Arena → Type 0 where
  placed :
      (p : ℕ)
      → IsPlace a bytes k p
      → Allocates a bytes k (some p, record a { used = p - a.base + bytes })
  full :
      (p : ℕ)
      → a.base + a.used ≤ p
      → p < a.base + a.used + 2 ^ k
      → p % 2 ^ k ≡ 0
      → a.base + a.size < p + bytes
      → Allocates a bytes k (none, a)

claim-Allocates :
    (a : Arena) (bytes k p : ℕ)
    → a.base + a.size + 2 ^ k + bytes ≤ 2 ^ 64
    → a.used ≤ a.size
    → (a.base + a.used ≤ p) × (p < a.base + a.used + 2 ^ k) × (p % 2 ^ k ≡ 0)
    → Allocates a bytes k (claim a p bytes)
unfolding claim
claim-Allocates a bytes k p room u (after, near, multiple) =
    let exact : new_used a p bytes ≡ p - a.base + bytes = unfold new_used add64 in omega arith in
    elim (Bool-cases (ltb a.size (new_used a p bytes))) [
      | inl e ↦ rw e (full p after near multiple (ground (arith, e, exact)))
      | inr e ↦
          rw (e, exact)
            (placed p (record {
              after = after;
              near = near;
              aligned_at = multiple;
              inside = ground (arith, e, exact);
            }))
    ]

-- A request for bytes that fit below the end of the addresses is placed behind what is used, at the
-- least multiple of the alignment with room inside the arena, or gives NULL and leaves the arena as
-- it was where there is no room from that multiple on.
pub alloc-Allocates :
    (a : Arena) (size k count : ℕ)
    → IsArena a
    → Fits a size k count
    → Allocates a (size * count) k (alloc a size (2 ^ k) count)
unfolding alloc
alloc-Allocates a size k count r f =
    let guard : (a.base == 0 || size == 0 || 2 ^ k == 0 || count == 0) ≡ false =
      ground (arith, r.base_pos, f.size_pos, f.count_pos, pow2_pos k) in
    let at_top : add64 a.base a.used ≡ a.base + a.used =
      unfold add64 in omega (arith, r.end_lt, r.used_le) in
    let bytes : total size count ≡ size * count =
      unfold total in omega (arith, f.no_wrap, r.base_pos) in
    rw (guard, at_top, bytes)
      (claim-Allocates a (size * count) k (aligned (a.base + a.used) (2 ^ k))
        (omega (arith, f.no_wrap)) r.used_le
        (aligned_lem (a.base + a.used) k f.k_le (omega (arith, f.no_wrap, r.used_le))))
