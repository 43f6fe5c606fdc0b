-- ===== src/Compile/Stages.antt =====
-- src/compiler.c and src/main.c: the stages of the compiler, and `main`. What is printed is left out,
-- but for the text that is built for debugging; so are the arenas of the nodes and of the code.
use tira.Prelude.{
  ℕ, ◌+◌, ◌*◌, Bool, false, not, [], Option, none, some, Bytes, length, ◌==◌, if◌then◌else◌,
}
use tira.Lexer.{Lexer}
use tira.LexFile.{LexedFile, still_lexing, end_outside, lexed, compiler_lex_file}
use tira.Builder.{StringBuilder}
use tira.Debug.{debug_print_lexer, debug_print_parser}
use tira.Parser.{Parser, Fault, Outcome, ok, fault}
use tira.Compile.Parse.{compiler_parse}
use tira.Memory.{Arena}
use tira.Platform.{System, FileRead, file_read, trapped, still_reading, platform_read_entire_file}
use tira.Codegen.{Code, CodeFault, Emitted, emitted, stopped, Unset, bootstrap_codegen, no_code}

pub data Stage : Type 0 where
  stage_uninitialized stage_initialized stage_lexed stage_parsed stage_codegen stage_ran : Stage

abbrev stage_index : Stage → ℕ
stage_index stage_uninitialized = 0
stage_index stage_initialized = 1
stage_index stage_lexed = 2
stage_index stage_parsed = 3
stage_index stage_codegen = 4
stage_index stage_ran = 5

-- `c->stage == s`.
abbrev pub is_stage : Stage → Stage → Bool
is_stage a b = stage_index a == stage_index b

-- `code` stands for the static variables of the code generator.
pub record Compiler (D : Type 0) : Type 0 where
  pub stage : Stage
  pub lexer : Lexer
  pub parser : Parser D
  pub code : Code

-- How a run ends without a result: the assertion on the stage fails; the `#!` line has no end; `END`
-- is written behind the token array, where the first node is put next, and the parser reads on; the
-- parser or the code generator stops; or in what is printed for debugging an assertion fails or a
-- number's digits are written behind their array.
pub data Failure : Type 0 where
  wrong_stage endless end_lost print_stops : Failure
  parse_fault : Fault → Failure
  codegen_fault : CodeFault → Failure

pub data Staged (D : Type 0) : Type 0 where
  running : Compiler D → Staged D
  failed : Failure → Staged D

abbrev pub zero_lexer : Lexer
zero_lexer = record {
  tokens = [];
  cap = 0;
  input = [];
  pos = 0;
  at_line_start = false;
  line = 0;
  col = 0;
}

abbrev pub zero_parser : {D : Type 0} → Parser D
zero_parser = record {
  source = [];
  pos = 0;
  tokens = [];
  nodes = [];
  node_cap = 0;
  error_count = 0;
}

-- The fuel of the parser, which is enough.
abbrev pub parse_fuel : Lexer → ℕ
parse_fuel l = 8 * length l.tokens + 3

module _ {D : Type 0} where
  abbrev pub then_stage : Staged D → (Compiler D → Staged D) → Staged D
  then_stage (running c) f = f c
  then_stage (failed e) f = failed e

  unfoldable pub compiler_init : Code → Compiler D
  compiler_init k = record {
    stage = stage_initialized;
    lexer = zero_lexer;
    parser = zero_parser;
    code = k;
  }

  unfoldable pub compiler_destroy : Compiler D → Compiler D
  compiler_destroy c = record {
    stage = stage_uninitialized;
    lexer = zero_lexer;
    parser = zero_parser;
    code = c.code;
  }

  unfoldable pub compiler_reset : Compiler D → Compiler D
  compiler_reset c = compiler_init (compiler_destroy c).code

  abbrev pub set_lexed : Compiler D → LexedFile → Staged D
  set_lexed c still_lexing = failed endless
  set_lexed c end_outside = failed end_lost
  set_lexed c (lexed l) = running (record c { stage = stage_lexed; lexer = l })

  unfoldable pub lex_stage : Bytes → Compiler D → Staged D
  lex_stage source c =
      if not (is_stage c.stage stage_initialized)
      then failed wrong_stage
      else set_lexed c (compiler_lex_file (length source + 1) source)

  abbrev pub set_parsed : Compiler D → Outcome D (Unit {0}) → Staged D
  set_parsed c (ok u p) = running (record c { stage = stage_parsed; parser = p })
  set_parsed c (fault e) = failed (parse_fault e)

  unfoldable pub parse_stage : (Bytes → Option D) → Compiler D → Staged D
  parse_stage to_double c =
      if not (is_stage c.stage stage_lexed)
      then failed wrong_stage
      else set_parsed c (compiler_parse to_double (parse_fuel c.lexer) c.lexer)

  abbrev pub printed : Compiler D → Option StringBuilder → Staged D
  printed c none = failed print_stops
  printed c (some sb) = running c

  -- `debug_print_lexer`, if `DEBUG` is defined.
  unfoldable pub print_lexer : Bool → Arena → Compiler D → Staged D
  print_lexer debug temp_arena c =
      if debug then printed c (debug_print_lexer temp_arena c.lexer) else running c

  -- `debug_print_parser`; `null_diff` is the difference of NULL and the nodes' address.
  unfoldable pub print_parser : (D → ℕ) → ℕ → Arena → Compiler D → Staged D
  print_parser double_bits null_diff temp_arena c =
      printed c (debug_print_parser double_bits null_diff temp_arena c.parser.nodes)

  abbrev pub set_codegen : Compiler D → Emitted → Staged D
  set_codegen c (emitted k) = running (record c { stage = stage_codegen; code = k })
  set_codegen c (stopped e) = failed (codegen_fault e)

  unfoldable pub compiler_codegen : (D → ℕ) → (ℕ → Unset) → Compiler D → Staged D
  compiler_codegen double_bits unset c =
      if not (is_stage c.stage stage_parsed)
      then failed wrong_stage
      else set_codegen c (bootstrap_codegen double_bits unset c.parser.nodes c.code)

  unfoldable pub compiler_run : Compiler D → Staged D
  compiler_run c =
      if not (is_stage c.stage stage_codegen)
      then failed wrong_stage
      else running (record c { stage = stage_ran })

  -- The calls of `main` on a file.
  unfoldable pub compile :
      (Bytes → Option D) → (D → ℕ) → (ℕ → Unset) → Bool → ℕ → Arena → Bytes → Compiler D → Staged D
  compile to_double double_bits unset debug null_diff temp_arena source c =
      then_stage (lex_stage source c) λ a. then_stage (print_lexer debug temp_arena a) λ b.
        then_stage (parse_stage to_double b) λ d.
          then_stage (print_parser double_bits null_diff temp_arena d)
            λ e. then_stage (compiler_codegen double_bits unset e) compiler_run

-- `return 1` where no file is named, `return 0` behind the last stage, or the run is stopped:
-- `out_of_memory` where the file has no room.
pub data Exit (D : Type 0) : Type 0 where
  no_input out_of_memory : Exit D
  finished : Compiler D → Exit D
  aborted : Failure → Exit D

abbrev pub exit_of : {D : Type 0} → Staged D → Exit D
exit_of (running c) = finished c
exit_of (failed e) = aborted e

-- What is done with the file that was read.
abbrev pub with_file : {D : Type 0} → (Bytes → Staged D) → FileRead → Exit D
with_file k (file_read b) = exit_of (k b.text)
with_file k trapped = out_of_memory
with_file k still_reading = aborted endless

-- The fuel is that of the loop that reads the file.
unfoldable pub main :
    {D : Type 0}
    → (Bytes → Option D)
    → (D → ℕ)
    → (ℕ → Unset)
    → Bool
    → ℕ
    → Arena
    → ℕ
    → System
    → Arena
    → ℕ
    → Exit D
main to_double double_bits unset debug null_diff temp_arena f sys a argc =
    if not (argc == 2)
    then no_input
    else with_file
        (λ source.
          compile to_double double_bits unset debug null_diff temp_arena source
            (compiler_init no_code))
        (platform_read_entire_file f sys a)
