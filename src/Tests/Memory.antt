-- ===== src/Tests/Memory.antt =====
-- src/memory.c: an arena of 1024 bytes at the address 4096, and blocks of bytes.
use tira.Prelude.{ℕ, ◌%◌, ◌≡◌, refl, inl, inr, arith, [], ◌∷◌, some, ◌==◌, if◌then◌else◌}
use tira.Memory.{Arena, alloc}
use tira.Memory.Regions.{IsArena, Fits, Allocates, alloc-Allocates}
use tira.Memory.Sequence.{Request, allocs, Apart, allocs-Apart}
use tira.Memory.Block.{Memory, memcpy, realloc_array_}
use tira.Memory.Copy.{bytes_at, memcpy-copies}
use tira.Memory.Grow.{Moves, realloc_array_-Moves, realloc_array_-loses}

abbrev kilobyte : ℕ → Arena
kilobyte used = record { base = 4096; size = 1024; used = used }

kilobyte_0-IsArena : IsArena (kilobyte 0)
kilobyte_0-IsArena = record { base_pos = omega arith; used_le = omega arith; end_lt = omega arith }

kilobyte_64-IsArena : IsArena (kilobyte 64)
kilobyte_64-IsArena = record { base_pos = omega arith; used_le = omega arith; end_lt = omega arith }

-- Every byte is the low part of its address.
abbrev counting : Memory
counting p = p % 256

sixteen-Fits : Fits (kilobyte 0) 16 3 2
sixteen-Fits = record {
  size_pos = omega arith;
  count_pos = omega arith;
  k_le = omega arith;
  no_wrap = omega arith;
}

alloc-Allocates_example : Allocates (kilobyte 0) 32 3 (alloc (kilobyte 0) 16 8 2)
alloc-Allocates_example = alloc-Allocates (kilobyte 0) 16 3 2 kilobyte_0-IsArena sixteen-Fits

abbrev request : Request
request = record { size = 16; log_align = 3; count = 2 }

allocs-Apart_example : Apart 4096 (allocs (kilobyte 0) (request ∷ request ∷ [])).0 5120
allocs-Apart_example =
    allocs-Apart (kilobyte 0) (request ∷ request ∷ []) kilobyte_0-IsArena
      (sixteen-Fits, (sixteen-Fits, tt))

memcpy-copies_example :
    ((memcpy 4200 4096 3 counting).0 ≡ some 4200)
    × (bytes_at (memcpy 4200 4096 3 counting).1 4200 3 ≡ bytes_at counting 4096 3)
    × ((memcpy 4200 4096 3 counting).1 4100 ≡ counting 4100)
memcpy-copies_example =
    memcpy-copies 4200 4096 3 4100 counting (omega arith) (omega arith) (inr (omega arith))
      (inl (omega arith))

four-Fits : Fits (kilobyte 64) 8 3 4
four-Fits = record {
  size_pos = omega arith;
  count_pos = omega arith;
  k_le = omega arith;
  no_wrap = omega arith;
}

realloc_array_-Moves_example :
    Moves
      (kilobyte 64)
      4096
      16
      32
      3
      counting
      (realloc_array_ (kilobyte 64) (some 4096) 8 8 2 counting)
realloc_array_-Moves_example =
    realloc_array_-Moves (kilobyte 64) 4096 8 3 2 counting kilobyte_64-IsArena four-Fits
      (omega arith) (omega arith) (omega arith) (omega arith)

six-Fits : Fits (kilobyte 64) 8 3 6
six-Fits = record {
  size_pos = omega arith;
  count_pos = omega arith;
  k_le = omega arith;
  no_wrap = omega arith;
}

abbrev changed_first : Memory
changed_first p = if p == 4144 then 1 else p % 256

realloc_array_-loses_example :
    ((realloc_array_ (kilobyte 64) (some 4144) 8 8 3 counting).result ≡ some 4160)
    × ((realloc_array_ (kilobyte 64) (some 4144) 8 8 3 counting).memory 4160
        ≡ (realloc_array_ (kilobyte 64) (some 4144) 8 8 3 changed_first).memory 4160)
realloc_array_-loses_example =
    realloc_array_-loses (kilobyte 64) 4144 8 3 4160 counting changed_first kilobyte_64-IsArena
      six-Fits (omega arith) refl refl (omega arith) (λ y h. ground arith) (omega arith)
      (omega arith)
