-- ===== src/Tests/Platform.antt =====
-- src/platform_linux.c: a file of three bytes read into an arena.
use tira.Prelude.{ℕ, ◌+◌, ◌<◌, ◌≡◌, refl, arith, true, some, codes, take, drop}
use tira.Memory.{Arena}
use tira.Memory.Regions.{IsArena, Fits}
use tira.Platform.{System, file_read, platform_read_entire_file}
use tira.Platform.Reading.{
  gives, Reads, platform_read_entire_file-Reads, platform_read_entire_file-whole,
}

abbrev pub three : System
three = record {
  opened = true;
  stat_size = some 3;
  read = λ offset count. some (take count (drop offset (codes "abc")));
}

abbrev pub fresh : Arena
fresh = record { base = 4096; size = 1024; used = 0 }

pub fresh-IsArena : IsArena fresh
fresh-IsArena = record { base_pos = omega arith; used_le = omega arith; end_lt = omega arith }

four-Fits : Fits fresh 1 0 4
four-Fits = record {
  size_pos = omega arith;
  count_pos = omega arith;
  k_le = omega arith;
  no_wrap = omega arith;
}

three-Fits : (size : ℕ) → some 3 ≡ some size → Fits fresh 1 0 (size + 1) × (size < 10)
three-Fits size e =
    let same : 3 ≡ size = cc in
    (
      record {
        size_pos = omega arith;
        count_pos = omega arith;
        k_le = omega arith;
        no_wrap = omega (arith, same);
      },
      omega (arith, same),
    )

platform_read_entire_file-Reads_example :
    Reads (codes "abc") three fresh (platform_read_entire_file 10 three fresh)
platform_read_entire_file-Reads_example =
    platform_read_entire_file-Reads 10 (codes "abc") three fresh fresh-IsArena
      (λ offset count. gives count (omega arith)) three-Fits

platform_read_entire_file-whole_example :
    (after : Arena) × (platform_read_entire_file 10 three fresh
      ≡ file_read
          (record { data_at = some 4096; text = codes "abc"; arena = after; nul = some 4099 }))
platform_read_entire_file-whole_example =
    platform_read_entire_file-whole 10 (codes "abc") three fresh fresh-IsArena four-Fits
      (omega arith) refl refl (λ offset count p l. (count, p, omega arith, refl)) (omega arith)
