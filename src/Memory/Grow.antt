-- ===== src/Memory/Grow.antt =====
-- src/memory.c: what `realloc_array_` keeps of an array, and what it loses.
use tira.Prelude.{
  ℕ, ◌+◌, ◌-◌, ◌*◌, ◌%◌, ◌^◌, ◌≤◌, ◌<◌, ◌≡◌, ap, arith, false, ◌&&◌, not, inr, Option, none, some,
  ◌==◌,
}
use tira.Memory.{Arena, alloc, next_capacity}
use tira.Memory.Regions.{IsArena, Fits, IsPlace, Allocates, placed, full, alloc-Allocates}
use tira.Memory.Block.{Memory, Grown, memcpy, address, move_array, realloc_array_}
use tira.Memory.Copy.{bytes_at, memcpy-copies, memcpy-overlap}

next_capacity_lem : (count : ℕ) → 0 < count → count < 2 ^ 63 → next_capacity count ≡ count * 2
unfolding next_capacity
next_capacity_lem count h lt = ground arith

-- An address from the old top on, at a multiple of the alignment, with the top at one too.
next_multiple : (t p d : ℕ) → t ≤ p → p < t + d → p % d ≡ 0 → t % d ≡ 0 → p ≡ t
next_multiple t p d lo hi e z = grind arith

-- The array is moved, or there is no room and the result is NULL.
pub data Moves (a : Arena) (base bytes room k : ℕ) (m : Memory) : Grown → Type 0 where
  moved :
      (p : ℕ) (after : Memory)
      → IsPlace a room k p
      → bytes_at after p bytes ≡ bytes_at m base bytes
      → Moves a base bytes room k m (record {
        result = some p;
        arena = record a { used = p - a.base + room };
        memory = after;
      })
  no_room :
      (after : Memory)
      → Moves a base bytes room k m (record { result = none; arena = a; memory = after })

move_array-Moves :
    (a : Arena) (base bytes room k : ℕ) (m : Memory) (o : Option ℕ × Arena)
    → Allocates a room k o
    → 0 < a.base
    → 0 < base
    → base + bytes ≤ a.base + a.used
    → Moves a base bytes room k m (move_array o base bytes m)
unfolding move_array address
move_array-Moves a base bytes room k m o (full p after near multiple less) ap bp below = no_room _
move_array-Moves a base bytes room k m o (placed p place) ap bp below =
    moved p (memcpy p base bytes m).1 place
      (memcpy-copies p base bytes (p + bytes) m (omega (arith, place.after)) bp
        (inr (omega (arith, place.after))) (inr (omega arith))).1

-- An array that ends below the top of the arena is moved to a region for twice as many elements, with
-- the bytes of `count` elements copied, or the result is NULL.
pub realloc_array_-Moves :
    (a : Arena) (base elem_size k count : ℕ) (m : Memory)
    → IsArena a
    → Fits a elem_size k (count * 2)
    → 0 < base
    → 0 < count
    → count < 2 ^ 63
    → base + elem_size * count < a.base + a.used
    → Moves a base
        (elem_size * count)
        (elem_size * (count * 2))
        k
        m
        (realloc_array_ a (some base) elem_size (2 ^ k) count m)
unfolding realloc_array_ address
realloc_array_-Moves a base elem_size k count m r f bp cp lt below =
    let not_top : (not (base == 0) && base + elem_size * count == a.base + a.used) ≡ false =
      ground arith in
    rw (not_top, next_capacity_lem count cp lt)
      (move_array-Moves a base (elem_size * count) (elem_size * (count * 2)) k m _
        (alloc-Allocates a elem_size k (count * 2) r f) r.base_pos bp (omega arith))

-- An array of two elements that ends at the top of the arena and is to hold three is moved to the
-- top, and nothing of its two elements is copied: from memories that agree from the byte before the
-- end of the third element's place on, the moved arrays are the same.
pub realloc_array_-loses :
    (a : Arena) (base elem_size k x : ℕ) (m m' : Memory)
    → IsArena a
    → Fits a elem_size k 6
    → 0 < base
    → base + elem_size * 2 ≡ a.base + a.used
    → (a.base + a.used) % 2 ^ k ≡ 0
    → a.used + elem_size * 6 ≤ a.size
    → ((y : ℕ) → base + elem_size * 3 - 1 ≤ y → m y ≡ m' y)
    → base + elem_size * 2 ≤ x
    → x < base + elem_size * 5
    → ((realloc_array_ a (some base) elem_size (2 ^ k) 3 m).result ≡ some (base + elem_size * 2))
      × ((realloc_array_ a (some base) elem_size (2 ^ k) 3 m).memory x
          ≡ (realloc_array_ a (some base) elem_size (2 ^ k) 3 m').memory x)
unfolding realloc_array_ address move_array next_capacity
realloc_array_-loses a base elem_size k x m m' r f bp at_top multiple room agree lo hi =
    let not_top : (not (base == 0) && base + elem_size * 3 == a.base + a.used) ≡ false =
      ground (arith, f.size_pos) in
    rw not_top (go (alloc a elem_size (2 ^ k) 6) (alloc-Allocates a elem_size k 6 r f))
  where
    go :
        (o : Option ℕ × Arena)
        → Allocates a (elem_size * 6) k o
        → ((move_array o base (elem_size * 3) m).result ≡ some (base + elem_size * 2))
          × ((move_array o base (elem_size * 3) m).memory x
              ≡ (move_array o base (elem_size * 3) m').memory x)
    go o (full p after near aligned_at less) =
        let at = next_multiple (a.base + a.used) p (2 ^ k) after near aligned_at multiple in
        absurd (omega (arith, at))
    go o (placed p place) =
        let at =
          next_multiple (a.base + a.used) p (2 ^ k) place.after place.near place.aligned_at
            multiple in
        (
          ap some (omega (arith, at)),
          memcpy-overlap p base (elem_size * 3) x m m' bp (omega (arith, at, f.size_pos))
              (omega (arith, at, f.size_pos)) agree (omega (arith, at)) (omega (arith, at)),
        )
