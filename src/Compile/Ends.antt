-- ===== src/Compile/Ends.antt =====
-- src/compiler.c and src/main.c: what the calls of `main` do with the text of a file.
use tira.Prelude.{
  ◌⊎◌, some, none, Option, ◌*◌, ◌^◌, ◌<◌, ℕ, ◌≤◌, ◌≡◌, ◌≢◌, refl, ap, arith, true, false, Bool,
  List, Bytes, length, if◌then◌else◌, inl, inr,
}
use tira.Token.{Token}
use tira.Lexer.{Lexer}
use tira.LexFile.{LexedFile}
use tira.LexFile.Shebang.{AreTokens, ShebangEnds}
use tira.Parser.{Parser, Fault, out_of_fuel, Outcome, ok, fault}
use tira.Parser.Program.{Parsed, Finishes, finished, stopped, parse_program-has_nodes}
use tira.Builder.{StringBuilder}
use tira.Debug.{debug_print_lexer, debug_print_parser}
use tira.Debug.Room.{FewLines, AllSmall}
use tira.Memory.{Arena}
use tira.Codegen.{
  Code, CodeFault, out_of_array, Emitted, emitted, Unset, bootstrap_codegen, no_code,
}
use tira.Codegen.Words.{Instruction, encode_all}
use tira.Codegen.Program.{AllAllowed, Emits, writes, stops, untyped-Emits}
use tira.Compile.{
  initial_parser-Finishes, Lexed, LexesTo, to_lexer, to_outside, compiler_lex_file-LexesTo,
}
use tira.Compile.Parse.{initial_parser, compiler_parse}
use tira.Compile.Stages.{
  stage_lexed, stage_parsed, stage_ran, Compiler, parse_fault, codegen_fault, end_lost, print_stops,
  Staged, running, failed, zero_parser, parse_fuel, then_stage, compiler_init, lex_stage, set_lexed,
  set_parsed, parse_stage, printed, print_lexer, print_parser, set_codegen, compiler_codegen,
  compiler_run, compile,
}
use tira.Compile.Printing.{HasBuffer, nodes_printed, tokens_printed}

-- The bytecode of at most `n` instructions, none of them arithmetic.
pub record Generated (n : ℕ) (c : Code) : Type 0 where
  pub instructions : List Instruction
  pub words : c.bytecode ≡ encode_all instructions
  pub few : length instructions ≤ n
  pub no_arithmetic : AllAllowed false instructions

module _ {D : Type 0} (to_double : Bytes → Option D) (double_bits : D → ℕ) (unset : ℕ → Unset)
    (debug : Bool) (null_diff : ℕ) (temp_arena : Arena) where
  -- The lexer behind a text that is lexed, and whose tokens are printed if `DEBUG` is defined.
  pub record Shown (source : Bytes) (l : Lexer) : Type 0 where
    pub from_text : Lexed source l
    pub tokens_shown :
        (debug ≡ false) ⊎ ((sb : StringBuilder) × (debug_print_lexer temp_arena l ≡ some sb))

  -- The parser behind such a lexer.
  pub record Parses (source : Bytes) (l : Lexer) (p : Parser D) : Type 0 where
    pub shown : Shown source l
    pub parses : compiler_parse to_double (parse_fuel l) l ≡ ok tt p

  -- The text of the parser's nodes is built.
  abbrev NodesShown : Parser D → Type 0
  NodesShown p =
      (sb : StringBuilder) × (debug_print_parser double_bits null_diff temp_arena p.nodes ≡ some sb)

  -- How the calls of `main` on a text may end. Behind the lexer, the parser and the code generator
  -- the compiler holds what each of them gives for what the one before has left.
  pub data Ends (source : Bytes) : Staged D → Type 0 where
    loses_end :
        (ts : List Token) (k : ℕ)
        → AreTokens source ts
        → length ts ≡ 512 * 2 ^ k
        → Ends source (failed end_lost)
    lexer_print_stops :
        (l : Lexer)
        → Lexed source l
        → debug ≡ true
        → debug_print_lexer temp_arena l ≡ none
        → ¬ ((length l.tokens < 10 ^ 16) × FewLines l.tokens)
        → Ends source (failed print_stops)
    parser_stops :
        (l : Lexer) (e : Fault)
        → Shown source l
        → compiler_parse to_double (parse_fuel l) l ≡ fault e
        → e ≢ out_of_fuel
        → Ends source (failed (parse_fault e))
    parser_print_stops :
        (l : Lexer) (p : Parser D)
        → Parses source l p
        → debug_print_parser double_bits null_diff temp_arena p.nodes ≡ none
        → ¬ (AllSmall double_bits null_diff p.nodes)
        → Ends source (failed print_stops)
    generator_stops :
        (l : Lexer) (p : Parser D) (e : CodeFault)
        → Parses source l p
        → NodesShown p
        → bootstrap_codegen double_bits unset p.nodes no_code ≡ Emitted.stopped e
        → e ≢ out_of_array
        → Ends source (failed (codegen_fault e))
    ran :
        (l : Lexer) (p : Parser D) (k : Code)
        → Parses source l p
        → NodesShown p
        → bootstrap_codegen double_bits unset p.nodes no_code ≡ emitted k
        → Generated 256 k
        → Ends source (running (record { stage = stage_ran; lexer = l; parser = p; code = k }))

  generate-Ends :
      (source : Bytes) (l : Lexer) (p : Parser D)
      → Parses source l p
      → NodesShown p
      → Parsed (initial_parser l) p
      → Ends source (
          then_stage
            (compiler_codegen double_bits unset
              (record { stage = stage_parsed; lexer = l; parser = p; code = no_code }))
            compiler_run)
  unfolding compiler_codegen initial_parser
  generate-Ends source l p h r a =
      go _ refl
        (untyped-Emits double_bits unset p.nodes no_code refl (omega (arith, few)) a.untyped)
    where
      few : length p.nodes ≤ 256
      few = omega (arith, a.within, ap (λ x. x) a.same_cap)

      go :
          (o : Emitted)
          → bootstrap_codegen double_bits unset p.nodes no_code ≡ o
          → Emits (length p.nodes) false no_code o
          → Ends source (
              then_stage
                (set_codegen
                  (record { stage = stage_parsed; lexer = l; parser = p; code = no_code })
                  o)
                compiler_run)
      go (emitted k) e (writes is w n x) =
          unfold compiler_run in
          ran l p k h r e (record {
            instructions = is;
            words = w;
            few = omega (arith, n, few);
            no_arithmetic = x;
          })
      go (Emitted.stopped c) e (stops n) = generator_stops l p c h r e n

  parsed-Ends :
      (source : Bytes) (l : Lexer) (p : Parser D)
      → HasBuffer temp_arena
      → Parses source l p
      → Parsed (initial_parser l) p
      → Ends source (
          then_stage
            (print_parser double_bits null_diff temp_arena
              (record { stage = stage_parsed; lexer = l; parser = p; code = no_code }))
            (λ e. then_stage (compiler_codegen double_bits unset e) compiler_run))
  unfolding print_parser compiler_parse initial_parser
  parsed-Ends source l p b h a = go _ refl
    where
      some_node : 0 < length p.nodes
      some_node =
          parse_program-has_nodes to_double (parse_fuel l) (initial_parser l) (omega arith) refl
            (omega arith) h.parses

      go :
          (o : Option StringBuilder)
          → debug_print_parser double_bits null_diff temp_arena p.nodes ≡ o
          → Ends source (
              then_stage
                (printed (record { stage = stage_parsed; lexer = l; parser = p; code = no_code }) o)
                (λ e. then_stage (compiler_codegen double_bits unset e) compiler_run))
      go none e = parser_print_stops l p h e (
          nodes_printed double_bits null_diff temp_arena p.nodes b some_node
            (omega (arith, a.within, ap (λ x. x) a.same_cap)) e)
      go (some sb) e = generate-Ends source l p h (sb, e) a

  -- The calls behind the lexer and its printing.
  rest : Compiler D → Staged D
  rest c = then_stage (parse_stage to_double c) λ d.
      then_stage (print_parser double_bits null_diff temp_arena d)
        λ e. then_stage (compiler_codegen double_bits unset e) compiler_run

  parse-Ends :
      (source : Bytes) (l : Lexer)
      → HasBuffer temp_arena
      → Shown source l
      → Ends source
          (rest (record { stage = stage_lexed; lexer = l; parser = zero_parser; code = no_code }))
  unfolding parse_stage rest
  parse-Ends source l b h = go _ refl (initial_parser-Finishes to_double l)
    where
      go :
          (o : Outcome D (Unit {0}))
          → compiler_parse to_double (parse_fuel l) l ≡ o
          → Finishes (initial_parser l) o
          → Ends source (
              then_stage
                (set_parsed
                  (record { stage = stage_lexed; lexer = l; parser = zero_parser; code = no_code })
                  o)
                λ d.
                  then_stage
                    (print_parser double_bits null_diff temp_arena d)
                    λ e. then_stage (compiler_codegen double_bits unset e) compiler_run)
      go (ok _ p) r (finished a) = parsed-Ends source l p b (record { shown = h; parses = r }) a
      go (fault e) r (stopped n) = parser_stops l e h r n

  lexed-Ends :
      (source : Bytes) (l : Lexer)
      → HasBuffer temp_arena
      → Lexed source l
      → Ends source (
          then_stage
            (print_lexer debug temp_arena
              (record { stage = stage_lexed; lexer = l; parser = zero_parser; code = no_code }))
            rest)
  unfolding print_lexer
  lexed-Ends source l b h = go debug _ refl refl
    where
      go :
          (d : Bool) (o : Option StringBuilder)
          → debug ≡ d
          → debug_print_lexer temp_arena l ≡ o
          → Ends source (
              then_stage
                (let c : Compiler D = record {
                  stage = stage_lexed;
                  lexer = l;
                  parser = zero_parser;
                  code = no_code;
                } in
                  if d then printed c o else running c)
                rest)
      go false o on e = parse-Ends source l b (record { from_text = h; tokens_shown = inl on })
      go true none on e = lexer_print_stops l h on e (tokens_printed temp_arena l h.ts b h.stored e)
      go true (some sb) on e =
          parse-Ends source l b (record { from_text = h; tokens_shown = inr (sb, e) })

  pub compile-Ends :
      (source : Bytes)
      → HasBuffer temp_arena
      → ShebangEnds source
      → Ends source (
          compile to_double double_bits unset debug null_diff temp_arena source
            (compiler_init no_code))
  unfolding compile lex_stage compiler_init rest
  compile-Ends source b h = go _ (compiler_lex_file-LexesTo source h)
    where
      go :
          (o : LexedFile)
          → LexesTo source o
          → Ends source (
              then_stage
                (set_lexed (compiler_init no_code) o)
                λ c. then_stage (print_lexer debug temp_arena c) rest)
      go _ (to_outside ts k a e) = loses_end ts k a e
      go _ (to_lexer {l} h) = lexed-Ends source l b h
