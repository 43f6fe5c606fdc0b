-- ===== src/Compile/Main.antt =====
-- src/main.c: what `main` does with a file.
use tira.Prelude.{
  some, Option, ◌+◌, ◌<◌, [], ℕ, ◌≡◌, ◌≢◌, refl, arith, Bool, Bytes, Bool-cases, inl, inr, ◌==◌,
}
use tira.LexFile.Shebang.{ShebangEnds}
use tira.Memory.{Arena}
use tira.Memory.Regions.{IsArena, Fits}
use tira.Platform.{System, FileBuf, FileRead, file_read, trapped, platform_read_entire_file}
use tira.Platform.Reading.{
  Reader, Reads, not_read, no_memory, reads, platform_read_entire_file-Reads,
}
use tira.Codegen.{Unset, no_code}
use tira.Compile.Stages.{
  Staged, compiler_init, compile, Exit, no_input, out_of_memory, with_file, exit_of, main,
}
use tira.Compile.Printing.{HasBuffer}
use tira.Compile.Ends.{Ends, compile-Ends}

module _ {D : Type 0} (to_double : Bytes → Option D) (double_bits : D → ℕ) (unset : ℕ → Unset)
    (debug : Bool) (null_diff : ℕ) (temp_arena : Arena) where
  -- How `main` may end, with what came of the file.
  pub data Exits (argc : ℕ) (r : FileRead) : Exit D → Type 0 where
    usage : argc ≢ 2 → Exits argc r no_input
    no_room : argc ≡ 2 → r ≡ trapped → Exits argc r out_of_memory
    works :
        {s : Staged D} (b : FileBuf)
        → argc ≡ 2
        → r ≡ file_read b
        → Ends to_double double_bits unset debug null_diff temp_arena b.text s
        → Exits argc r (exit_of s)

  with_file-Exits :
      (content : Bytes) (sys : System) (a : Arena) (r : FileRead)
      → HasBuffer temp_arena
      → Reads content sys a r
      → ((b : FileBuf) → r ≡ file_read b → ShebangEnds b.text)
      → Exits 2 r (
          with_file
            (λ source.
              compile to_double double_bits unset debug null_diff temp_arena source
                (compiler_init no_code))
            r)
  with_file-Exits content sys a r t (not_read n) h =
      works _ refl refl
        (compile-Ends to_double double_bits unset debug null_diff temp_arena [] t (h _ refl))
  with_file-Exits content sys a r t (no_memory size e n less) h = no_room refl refl
  with_file-Exits content sys a r t (reads size p text e n place start) h =
      works _ refl refl
        (compile-Ends to_double double_bits unset debug null_diff temp_arena text t (h _ refl))

  -- Without one argument `main` returns 1. With one, whatever the system calls give, as long as `read`
  -- gives bytes of the file or fails, the `#!` line of what was read, if it has one, ends, and the
  -- third arena has room for the text built for debugging, `main` ends, and no assertion on the stage
  -- fails. Either there is no memory for the file. Or its tokens fill their array and `END` is written
  -- behind it. Or the array holds the tokens of what was read and `END`, and then: with `DEBUG` a line or
  -- the number of tokens has more than 16 digits, and printing the tokens stops; or the parser stops
  -- with a fault of the source; or one of the numbers printed for its nodes has more than 16 digits,
  -- and printing the nodes stops; or the code generator stops, but not for a write behind the
  -- bytecode; or the nodes are printed and the last stage is reached, with the nodes that the parser gives and the bytecode that
  -- the code generator gives for them, which is at most 256 instructions, none of them arithmetic.
  pub main_total :
      (f : ℕ) (content : Bytes) (sys : System) (a : Arena) (argc : ℕ)
      → HasBuffer temp_arena
      → IsArena a
      → Reader content sys.read
      → ((size : ℕ) → sys.stat_size ≡ some size → Fits a 1 0 (size + 1) × (size < f))
      → ((b : FileBuf) → platform_read_entire_file f sys a ≡ file_read b → ShebangEnds b.text)
      → Exits argc
          (platform_read_entire_file f sys a)
          (main to_double double_bits unset debug null_diff temp_arena f sys a argc)
  unfolding main
  main_total f content sys a argc t ar r fits h = elim (Bool-cases (argc == 2)) [
    | inl e ↦
        let two : argc ≡ 2 = ground arith in
        rw (e, two)
          (with_file-Exits content sys a _ t
            (platform_read_entire_file-Reads f content sys a ar r fits) h)
    | inr e ↦ rw e (usage (ground arith))
  ]
