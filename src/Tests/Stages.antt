-- ===== src/Tests/Stages.antt =====
-- src/bootstrap_codegen.c, src/compiler.c, src/main.c: bytecode, and `main` on files.
use mathlib.Core.Path.{subst}
use tira.LexFile.Shebang.{ShebangEnds}
use tira.Memory.{Arena}
use tira.Memory.Regions.{IsArena, Fits}
use tira.Platform.{System, FileBuf, FileRead, file_read, platform_read_entire_file}
use tira.Platform.Reading.{gives, platform_read_entire_file-whole}
use tira.Prelude.{
  length, take, drop, some, ap, sym, ◌∙◌, ◌<◌, ◌+◌, ◌^◌, inl, ℕ, ◌≡◌, refl, inl, arith, List, [],
  ◌∷◌, Option, none, some, Bytes, codes, true,
}
use tira.Prelude.Int.{pos, negsuc}
use tira.Ast.{ParserNode, block, zero_node, int_value, number, identifier, var_decl}
use tira.Token.{token_index}
use tira.Lexer.{skip_blanks, skip_round, is_comment_start, while_lex}
use tira.Lexer.Next.{lex_next}
use tira.LexFile.{
  initial_lexer, has_shebang, end_token, compiler_lex_file, start_lexer, token_loop, append_end,
  push_token, lex_tokens, store_end,
}
use tira.Codegen.{
  Unset, bootstrap_codegen, codegen_loop, bootstrap_codegen_inner, no_code, emit_var_decl, emitted,
  next_slot,
}
use tira.Codegen.Constants.{emit_var_decl-decode}
use tira.Codegen.Words.{to_int64, decode, add, loadk_int}
use tira.Codegen.Program.{Emits, bootstrap_codegen-Emits}
use tira.Parser.{new_node, peek, token_at, when◌then◌else◌}
use tira.Parser.Expr.{parse_program, program_loop}
use tira.Compile.Parse.{initial_parser, compiler_parse}
use tira.Compile.Stages.{
  Compiler, running, main, compiler_init, stage_lexed, stage_parsed, stage_codegen, stage_ran,
  zero_parser, lex_stage, parse_stage, compiler_codegen, compiler_run,
}
use tira.Compile.Printing.{HasBuffer}
use tira.Compile.Main.{Exits, main_total}
use tira.Compile.Reach.{
  lex, parse, codegen, run, Reachable, begin, next, Stands, Reachable-Stands, perform,
}

abbrev no_bits : ℕ → ℕ
no_bits d = d

abbrev no_text : Bytes → Option ℕ
no_text s = none

abbrev zeroes : ℕ → Unset
zeroes n = record { lhs_slot = 0; rhs_slot = 0; arg_slot_start = 0 }

emit_var_decl-decode_example :
    (words : List ℕ) × (bits : ℕ) × (emit_var_decl no_bits
        (some (number (int_value (negsuc 4))))
        no_code
      ≡ emitted (add words (next_slot no_code)))
    × (decode words ≡ some (loadk_int 0 bits, []))
    × (to_int64 bits ≡ negsuc 4)
emit_var_decl-decode_example =
    emit_var_decl-decode no_bits (negsuc 4) no_code (omega arith) (omega arith)

-- `var width = 1280`.
abbrev width_nodes : List (ParserNode ℕ)
width_nodes =
    var_decl (some 1) (some 2) ∷ identifier (codes "width") ∷ number (int_value (pos 1280)) ∷ []

bootstrap_codegen-Emits_example :
    Emits 3 true no_code (bootstrap_codegen no_bits zeroes width_nodes no_code)
bootstrap_codegen-Emits_example =
    bootstrap_codegen-Emits no_bits zeroes width_nodes no_code refl (omega arith)

abbrev script : Bytes
script = codes "main {\n  return a+b\n}\n"

abbrev disk : System
disk = record {
  opened = true;
  stat_size = some (length script);
  read = λ offset count. some (take count (drop offset script));
}

abbrev megabyte : Arena
megabyte = record { base = 65536; size = 1048576; used = 0 }

megabyte-IsArena : IsArena megabyte
megabyte-IsArena = record { base_pos = omega arith; used_le = omega arith; end_lt = omega arith }

script-Fits : Fits megabyte 1 0 (length script + 1)
script-Fits = record {
  size_pos = omega arith;
  count_pos = omega arith;
  k_le = omega arith;
  no_wrap = omega arith;
}

any-Fits :
    (size : ℕ) → some (length script) ≡ some size → Fits megabyte 1 0 (size + 1) × (size < 100)
any-Fits size e =
    let same : length script ≡ size = cc in
    (subst (λ n. Fits megabyte 1 0 (n + 1)) same script-Fits, omega (arith, same))

abbrev text_of : FileRead → Bytes
text_of (file_read b) = b.text
text_of _ = []

script-ShebangEnds :
    (b : FileBuf) → platform_read_entire_file 100 disk megabyte ≡ file_read b → ShebangEnds b.text
unfolding has_shebang initial_lexer
script-ShebangEnds b e =
    let (after, whole) =
      platform_read_entire_file-whole 100 script disk megabyte megabyte-IsArena script-Fits
        (omega arith) refl refl (λ offset count p l. (count, p, omega arith, refl)) (omega arith) in
    let h : ShebangEnds script = inl refl in
    subst (λ t. ShebangEnds t) (ap text_of (sym whole ∙ e)) h

megabyte-HasBuffer : HasBuffer megabyte
megabyte-HasBuffer = record { buffer_free = omega arith; size_lt = omega arith }

main_total_example :
    Exits no_text no_bits zeroes true
      (2 ^ 63)
      megabyte
      2
      (platform_read_entire_file 100 disk megabyte)
      (main no_text no_bits zeroes true (2 ^ 63) megabyte 100 disk megabyte 2)
main_total_example =
    main_total no_text no_bits zeroes true (2 ^ 63) megabyte 100 script disk megabyte 2
      megabyte-HasBuffer megabyte-IsArena (λ offset count. gives count (omega arith)) any-Fits
      script-ShebangEnds

-- The compiler behind an empty file.
abbrev empty_lexed : Compiler ℕ
empty_lexed = record {
  stage = stage_lexed;
  lexer = record {
    tokens = end_token ∷ [];
    cap = 512;
    input = [];
    pos = 0;
    at_line_start = true;
    line = 1;
    col = 0;
  };
  parser = zero_parser;
  code = no_code;
}

-- The same behind the other calls: its only node is the block, for which there is no bytecode.
abbrev empty_parsed : Compiler ℕ
empty_parsed = record empty_lexed {
  stage = stage_parsed;
  parser = record {
    source = [];
    pos = 0;
    tokens = end_token ∷ [];
    nodes = block 0 ∷ [];
    node_cap = 256;
    error_count = 0;
  };
}

abbrev empty_generated : Compiler ℕ
empty_generated = record empty_parsed { stage = stage_codegen }

abbrev empty_ran : Compiler ℕ
empty_ran = record empty_parsed { stage = stage_ran }

lex_runs : perform no_text no_bits zeroes (lex []) (compiler_init no_code) ≡ running empty_lexed
unfolding perform lex_stage compiler_init compiler_lex_file start_lexer has_shebang initial_lexer
    token_loop lex_next append_end push_token token_index skip_blanks skip_round is_comment_start
    while_lex lex_tokens store_end
lex_runs = refl

parse_runs : perform no_text no_bits zeroes parse empty_lexed ≡ running empty_parsed
unfolding perform parse_stage compiler_parse initial_parser parse_program program_loop new_node peek
    token_at when◌then◌else◌ token_index zero_node
parse_runs = refl

codegen_runs : perform no_text no_bits zeroes codegen empty_parsed ≡ running empty_generated
unfolding perform compiler_codegen bootstrap_codegen codegen_loop bootstrap_codegen_inner
codegen_runs = refl

run_runs : perform no_text no_bits zeroes run empty_generated ≡ running empty_ran
unfolding perform compiler_run
run_runs = refl

all_calls-Reachable :
    Reachable no_text no_bits zeroes (lex [] ∷ parse ∷ codegen ∷ run ∷ []) empty_ran
all_calls-Reachable =
    next run (next codegen (next parse (next (lex []) begin lex_runs) parse_runs) codegen_runs)
      run_runs

Reachable-Stands_example :
    Stands no_text no_bits zeroes (lex [] ∷ parse ∷ codegen ∷ run ∷ []) empty_ran
Reachable-Stands_example = Reachable-Stands no_text no_bits zeroes all_calls-Reachable
