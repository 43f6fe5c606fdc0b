-- ===== src/Tests/Windows.antt =====
-- src/platform_win32.c: a file of three bytes, and a command line of two arguments.
use tira.Prelude.{ℕ, ◌<◌, ◌≡◌, refl, arith, true, [], ◌∷◌, some, codes, take, length}
use tira.Platform
use tira.Tests.Platform.{three, fresh, fresh-IsArena}
use tira.Platform.Reading.{gives}
use tira.Windows.{Win32, platform_read_entire_file}
use tira.Windows.Reading.{ReadsFile, platform_read_entire_file-ReadsFile}
use tira.Windows.Whole.{Serves, bytes, linux_bytes, platform_read_entire_file-linux}
use tira.Windows.Arguments.{CommandLine, Arguments, calls_main, main_crt_startup}
use tira.Windows.Arguments.Last.{argument_text, main_crt_startup-last}

abbrev three_wide : Win32
three_wide = record {
  multi_byte_to_wide_char = λ path count. take count path;
  create_file = λ path_w. true;
  get_file_size = some 3;
  read_file = λ count. some (take count (codes "abc"));
}

platform_read_entire_file-ReadsFile_example :
    ReadsFile three_wide
      (codes "a.tira")
      (codes "abc")
      fresh
      0
      (platform_read_entire_file three_wide 0 (codes "a.tira") fresh)
platform_read_entire_file-ReadsFile_example =
    platform_read_entire_file-ReadsFile three_wide (codes "a.tira") (codes "abc") fresh 0
      fresh-IsArena (omega arith) (omega arith) (λ size. gives size (omega arith))

three_wide-Serves : Serves three_wide (codes "a.tira") (codes "abc")
three_wide-Serves = record {
  path_le = omega arith;
  path_w_pos = omega arith;
  path_w_lt = omega arith;
  created = refl;
  sized = refl;
  size_pos = omega arith;
  size_lt = omega arith;
  read = refl;
}

platform_read_entire_file-linux_example :
    (bytes (platform_read_entire_file three_wide 0 (codes "a.tira") fresh)
      ≡ some (some 4096, codes "abc"))
    × (linux_bytes (Platform.platform_read_entire_file 10 three fresh)
        ≡ bytes (platform_read_entire_file three_wide 0 (codes "a.tira") fresh))
platform_read_entire_file-linux_example =
    platform_read_entire_file-linux three_wide three (codes "a.tira") (codes "abc") fresh 0 10
      three_wide-Serves fresh-IsArena (omega arith) (omega arith) refl refl
      (λ offset count p l. (count, p, omega arith, refl)) (omega arith)

-- `t ab out`.
abbrev three_arguments : CommandLine
three_arguments = record {
  handles_valid = true;
  argv_w = some (codes "t" ∷ codes "ab" ∷ codes "out" ∷ []);
  wide_char_to_multi_byte = λ arg. some arg;
}

main_crt_startup-last_example :
    (s : Arguments) × (main_crt_startup three_arguments ≡ calls_main 3 s)
    × (length s.argv ≡ 3)
    × ((i : ℕ) → i < 3 → argument_text s i ≡ some (codes "out"))
main_crt_startup-last_example =
    main_crt_startup-last three_arguments (codes "t" ∷ codes "ab" ∷ codes "out" ∷ []) (codes "t")
      (codes "ab" ∷ codes "out" ∷ []) refl refl
      (
        refl,
        (omega arith, tt),
        omega arith,
        (
          refl,
          (omega arith, (omega arith, tt)),
          omega arith,
          (refl, (omega arith, (omega arith, (omega arith, tt))), omega arith, tt),
        ),
      )
      (omega arith)
