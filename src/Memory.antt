-- ===== src/Memory.antt =====
-- src/memory.c: the arena. An address is a number, 0 is NULL, and `size_t` and `uintptr_t` wrap at
-- 2 ^ 64.
pub mod Mask
pub mod Regions
pub mod Sequence
pub mod Block
pub mod Copy
pub mod Compare
pub mod Grow
use Prim.Native.Nat.{bit_and}
use tira.Prelude.{
  ℕ, zero, suc, ◌+◌, ◌-◌, ◌*◌, ◌/◌, ◌%◌, ◌^◌, Bool, true, false, ◌&&◌, ◌||◌, List, [], ◌∷◌, Option,
  none, some, ltb, leb, ◌==◌, if◌then◌else◌,
}

-- `prev`, which nothing sets, is left out.
pub record Arena : Type 0 where
  pub base : ℕ
  pub size : ℕ
  pub used : ℕ

unfoldable pub add64 : ℕ → ℕ → ℕ
add64 a b = (a + b) % 2 ^ 64

unfoldable pub arena_push : Arena → ℕ → Option ℕ × Arena
arena_push a count =
    if ltb a.size (add64 a.used count)
    then (none, a)
    else (some (a.base + a.used), record a { used = add64 a.used count })

-- What the system gives for the memory of the arena: an address, or `none` for NULL.
unfoldable pub arena_create_ex : ℕ → (ℕ → Option ℕ) → Arena
arena_create_ex size alloc_fn = elim (alloc_fn size) [
  | none ↦ record { base = 0; size = 0; used = 0 }
  | some mem ↦ record { base = mem; size = size; used = 0 }
]

-- `(base + (align - 1)) & ~(uintptr_t)(align - 1)`.
unfoldable pub aligned : ℕ → ℕ → ℕ
aligned addr align = bit_and (add64 addr (align - 1)) (2 ^ 64 - align)

unfoldable pub total : ℕ → ℕ → ℕ
total size count = size * count % 2 ^ 64

-- `(aligned - (uintptr_t)a->base) + total`, for an address and a number of bytes.
unfoldable pub new_used : Arena → ℕ → ℕ → ℕ
new_used a addr bytes = add64 ((addr + 2 ^ 64 - a.base) % 2 ^ 64) bytes

-- The rest of `alloc`, at an address.
unfoldable pub claim : Arena → ℕ → ℕ → Option ℕ × Arena
claim a addr bytes =
    if ltb a.size (new_used a addr bytes)
    then (none, a)
    else (some addr, record a { used = new_used a addr bytes })

unfoldable pub alloc : Arena → ℕ → ℕ → ℕ → Option ℕ × Arena
alloc a size align count =
    if a.base == 0 || size == 0 || align == 0 || count == 0
    then (none, a)
    else claim a (aligned (add64 a.base a.used) align) (total size count)

unfoldable pub next_capacity : ℕ → ℕ
next_capacity count = if count == 0 then 1 else count * 2 % 2 ^ 64
