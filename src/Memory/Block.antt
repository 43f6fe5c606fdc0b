-- ===== src/Memory/Block.antt =====
-- src/memory.c: the functions on blocks of bytes. The memory is a function from addresses; a pointer
-- that may be NULL is an address, which is 0 then.
use tira.Prelude.{
  ℕ, zero, suc, ◌+◌, ◌-◌, ◌%◌, ◌*◌, ◌/◌, ◌&&◌, ◌||◌, not, Option, none, some, ltb, ◌==◌,
  if◌then◌else◌,
}
use tira.Prelude.Int.{ℤ, pos, neg}
use tira.Memory.{Arena, alloc, next_capacity}

abbrev pub Memory : Type 0
Memory = ℕ → ℕ

abbrev pub write : Memory → ℕ → ℕ → Memory
write m p v q = if q == p then v else m q

-- `while (n--) *d++ = *s++;`
unfoldable pub copy_forward : ℕ → ℕ → ℕ → Memory → Memory
copy_forward zero d s m = m
copy_forward (suc n) d s m = copy_forward n (d + 1) (s + 1) (write m d (m s))

-- `while (n--) *d-- = *s++;`
unfoldable pub copy_reversed : ℕ → ℕ → ℕ → Memory → Memory
copy_reversed zero d s m = m
copy_reversed (suc n) d s m = copy_reversed n (d - 1) (s + 1) (write m d (m s))

-- The result, NULL or `dest`, and the memory.
unfoldable pub memcpy : ℕ → ℕ → ℕ → Memory → Option ℕ × Memory
memcpy dest src count m =
    if dest == 0 || src == 0
    then (none, m)
    else if ltb src dest && ltb dest (src + count)
    then (some dest, copy_reversed count (dest + count - 1) (src + count - 1) m)
    else (some dest, copy_forward count dest src m)

unfoldable pub memset : ℕ → ℕ → ℕ → Memory → Memory
memset dest ch zero m = m
memset dest ch (suc n) m = write (memset dest ch n m) (dest + n) (ch % 256)

unfoldable pub memzero : ℕ → ℕ → Memory → Memory
memzero ptr count = memset ptr 0 count

-- The difference of two bytes.
unfoldable pub difference : ℕ → ℕ → ℤ
difference a b = if ltb a b then neg (b - a) else pos (a - b)

unfoldable pub memcmp : ℕ → ℕ → ℕ → Memory → ℤ
memcmp lhs rhs zero m = pos 0
memcmp lhs rhs (suc n) m =
    let rest = memcmp (lhs + 1) (rhs + 1) n m in
    if not (m lhs == m rhs) then difference (m lhs) (m rhs) else rest

-- The address found, or `none` for NULL.
unfoldable pub memchr : ℕ → ℕ → ℕ → Memory → Option ℕ
memchr ptr ch zero m = none
memchr ptr ch (suc n) m =
    let rest = memchr (ptr + 1) ch n m in if m ptr == ch % 256 then some ptr else rest

-- The address that a pointer holds.
unfoldable pub address : Option ℕ → ℕ
address none = 0
address (some p) = p

pub record Grown : Type 0 where
  pub result : Option ℕ
  pub arena : Arena
  pub memory : Memory

-- A region of the new capacity, and the elements copied.
unfoldable pub move_array : Option ℕ × Arena → ℕ → ℕ → Memory → Grown
move_array (p, a) base bytes m = record {
  result = p;
  arena = a;
  memory = (memcpy (address p) base bytes m).1;
}

-- `at_top`: the array ends at the top of the arena. `current` is then `count`, so that nothing is
-- claimed.
unfoldable pub realloc_array_ : Arena → Option ℕ → ℕ → ℕ → ℕ → Memory → Grown
realloc_array_ a base elem_size align count m =
    if not (address base == 0) && address base + elem_size * count == a.base + a.used
    then (let current = elem_size * count / elem_size in
        if ltb current count
        then record {
          result = base;
          arena = (alloc a elem_size align (next_capacity current - current)).1;
          memory = m;
        }
        else record { result = base; arena = a; memory = m })
    else move_array (alloc a elem_size align (next_capacity count)) (address base)
        (elem_size * count) m
