-- ===== src/Compile/Reach.antt =====
-- src/compiler.c: the stages as a relation between the calls made and the compiler behind them.
use mathlib.Core.Path.{subst}
use tira.Prelude.{
  ℕ, ◌+◌, ◌≤◌, ◌≡◌, refl, ap, arith, true, false, List, [], ◌++◌, ◌∷◌, Option, Bytes, length,
  Bool-cases, inl, inr, ◌==◌, ◌⊎◌,
}
use tira.Lexer.{Lexer}
use tira.Lexer.Newlines.{newlines}
use tira.LexFile.{
  LexedFile, still_lexing, end_outside, lexed, compiler_lex_file, has_shebang, initial_lexer,
}
use tira.LexFile.Shebang.{compiler_lex_file_hangs, ShebangEnds}
use tira.Parser.{Parser, Outcome, ok, fault}
use tira.Parser.Program.{Parsed, Finishes, finished}
use tira.Codegen.{Code, Emitted, emitted, Unset, bootstrap_codegen, no_code}
use tira.Codegen.Program.{Emits, writes, untyped-Emits}
use tira.Compile.{
  initial_parser-Finishes, Lexed, LexesTo, to_lexer, to_outside, compiler_lex_file-LexesTo,
}
use tira.Compile.Parse.{initial_parser, compiler_parse}
use tira.Compile.Stages.{
  stage_initialized, stage_lexed, stage_parsed, stage_codegen, stage_ran, Compiler, Staged, running,
  zero_lexer, zero_parser, parse_fuel, compiler_init, set_lexed, lex_stage, set_parsed, parse_stage,
  set_codegen, compiler_codegen, compiler_run,
}
use tira.Compile.Ends.{Generated}

pub data Call : Type 0 where
  lex : Bytes → Call
  parse codegen run : Call

same_lexer : {m l : Lexer} → lexed m ≡ lexed l → m ≡ l
same_lexer e = cc

compiler_lex_file-Lexed :
    (source : Bytes) (l : Lexer)
    → compiler_lex_file (length source + 1) source ≡ lexed l
    → Lexed source l
compiler_lex_file-Lexed source l r =
    go (Bool-cases (has_shebang (initial_lexer source))) (Bool-cases (newlines source == 0))
  where
    of_lexed : (o : LexedFile) → o ≡ lexed l → LexesTo source o → Lexed source l
    of_lexed _ e (to_outside ts k a n) = absurd cc
    of_lexed _ e (to_lexer h) = subst (Lexed source) (same_lexer e) h

    total : ShebangEnds source → Lexed source l
    total h = of_lexed _ r (compiler_lex_file-LexesTo source h)

    go :
        (has_shebang (initial_lexer source) ≡ true) ⊎ (has_shebang (initial_lexer source) ≡ false)
        → ((newlines source == 0) ≡ true) ⊎ ((newlines source == 0) ≡ false)
        → Lexed source l
    go (inr n) k = total (inl n)
    go (inl s) (inr k) = total (inr (ground arith))
    go (inl s) (inl k) =
        let hangs : compiler_lex_file (length source + 1) source ≡ still_lexing =
          compiler_lex_file_hangs source (length source + 1) s (ground arith) in
        absurd cc

module _ {D : Type 0} (to_double : Bytes → Option D) (double_bits : D → ℕ) (unset : ℕ → Unset) where
  unfoldable pub perform : Call → Compiler D → Staged D
  perform (lex source) c = lex_stage source c
  perform parse c = parse_stage to_double c
  perform codegen c = compiler_codegen double_bits unset c
  perform run c = compiler_run c

  -- The compiler behind the calls that were made.
  pub data Reachable : List Call → Compiler D → Type 0 where
    begin : Reachable [] (compiler_init no_code)
    next :
        {calls : List Call} {c d : Compiler D} (a : Call)
        → Reachable calls c
        → perform a c ≡ running d
        → Reachable (calls ++ a ∷ []) d

module _ {D : Type 0} (to_double : Bytes → Option D) (double_bits : D → ℕ) (unset : ℕ → Unset) where
  -- What the compiler is behind calls in the order of the stages: each part of it is what its stage
  -- gives for what the stage before has left.
  pub data Stands : List Call → Compiler D → Type 0 where
    at_start : Stands [] (record {
      stage = stage_initialized;
      lexer = zero_lexer;
      parser = zero_parser;
      code = no_code;
    })
    at_lexed :
        {source : Bytes} {l : Lexer}
        → Lexed source l
        → Stands
            (lex source ∷ [])
            (record { stage = stage_lexed; lexer = l; parser = zero_parser; code = no_code })
    at_parsed :
        {source : Bytes} {l : Lexer} {p : Parser D}
        → Lexed source l
        → compiler_parse to_double (parse_fuel l) l ≡ ok tt p
        → Parsed (initial_parser l) p
        → Stands
            (lex source ∷ parse ∷ [])
            (record { stage = stage_parsed; lexer = l; parser = p; code = no_code })
    at_codegen :
        {source : Bytes} {l : Lexer} {p : Parser D} {k : Code}
        → Lexed source l
        → compiler_parse to_double (parse_fuel l) l ≡ ok tt p
        → Parsed (initial_parser l) p
        → bootstrap_codegen double_bits unset p.nodes no_code ≡ emitted k
        → Generated 256 k
        → Stands
            (lex source ∷ parse ∷ codegen ∷ [])
            (record { stage = stage_codegen; lexer = l; parser = p; code = k })
    at_end :
        {source : Bytes} {l : Lexer} {p : Parser D} {k : Code}
        → Lexed source l
        → compiler_parse to_double (parse_fuel l) l ≡ ok tt p
        → Parsed (initial_parser l) p
        → bootstrap_codegen double_bits unset p.nodes no_code ≡ emitted k
        → Generated 256 k
        → Stands
            (lex source ∷ parse ∷ codegen ∷ run ∷ [])
            (record { stage = stage_ran; lexer = l; parser = p; code = k })

  nodes_256 : (l : Lexer) {p : Parser D} → Parsed (initial_parser l) p → length p.nodes ≤ 256
  unfolding initial_parser
  nodes_256 l a = omega (arith, a.within, ap (λ x. x) a.same_cap)

  running-injective : {c d : Compiler D} → ◌≡◌ {A = Staged D} (running c) (running d) → c ≡ d
  running-injective e = cc

  lexed-Stands :
      (source : Bytes) (o : LexedFile) (d : Compiler D)
      → compiler_lex_file (length source + 1) source ≡ o
      → set_lexed (compiler_init no_code) o ≡ running d
      → Stands (lex source ∷ []) d
  unfolding compiler_init
  lexed-Stands source still_lexing d r e = absurd cc
  lexed-Stands source end_outside d r e = absurd cc
  lexed-Stands source (lexed l) d r e =
      subst (Stands (lex source ∷ [])) (running-injective e)
        (at_lexed (compiler_lex_file-Lexed source l r))

  parsed-Stands :
      {source : Bytes} {l : Lexer} (o : Outcome D (Unit {0})) (d : Compiler D)
      → Lexed source l
      → compiler_parse to_double (parse_fuel l) l ≡ o
      → Finishes (initial_parser l) o
      → set_parsed
          (record { stage = stage_lexed; lexer = l; parser = zero_parser; code = no_code })
          o
        ≡ running d
      → Stands (lex source ∷ parse ∷ []) d
  parsed-Stands (ok u p) d h r (finished a) e =
      subst (Stands _) (running-injective e) (at_parsed h r a)
  parsed-Stands (fault x) d h r a e = absurd cc

  codegen-Stands :
      {source : Bytes} {l : Lexer} {p : Parser D} (o : Emitted) (d : Compiler D)
      → Lexed source l
      → compiler_parse to_double (parse_fuel l) l ≡ ok tt p
      → Parsed (initial_parser l) p
      → bootstrap_codegen double_bits unset p.nodes no_code ≡ o
      → Emits (length p.nodes) false no_code o
      → set_codegen (record { stage = stage_parsed; lexer = l; parser = p; code = no_code }) o
        ≡ running d
      → Stands (lex source ∷ parse ∷ codegen ∷ []) d
  codegen-Stands (emitted k) d h r a g (writes is w few allowed) e =
      subst (Stands _) (running-injective e) (
        at_codegen h r a g (record {
          instructions = is;
          words = w;
          few = omega (arith, few, nodes_256 _ a);
          no_arithmetic = allowed;
        }))
  codegen-Stands (Emitted.stopped x) d h r a g n e = absurd cc

  perform-Stands :
      {calls : List Call} {c d : Compiler D} (a : Call)
      → Stands calls c
      → perform to_double double_bits unset a c ≡ running d
      → Stands (calls ++ a ∷ []) d
  unfolding perform lex_stage parse_stage compiler_codegen compiler_run
  perform-Stands (lex source) at_start e = lexed-Stands source _ _ refl (unfold compiler_init in e)
  perform-Stands parse (at_lexed {source} {l} h) e =
      parsed-Stands _ _ h refl (initial_parser-Finishes to_double l) e
  perform-Stands codegen (at_parsed {source} {l} {p} h r a) e =
      codegen-Stands _ _ h r a refl
        (untyped-Emits double_bits unset p.nodes no_code refl (omega (arith, nodes_256 l a))
          a.untyped)
        e
  perform-Stands run (at_codegen h r a g k) e =
      subst (Stands _) (running-injective e) (at_end h r a g k)
  perform-Stands a s e = absurd cc

  -- If any calls of compiler_lex_file, compiler_parse, compiler_codegen and compiler_run, behind one
  -- of compiler_init, succeed, they are the first ones of these four in this order, and the compiler is
  -- as they leave it: the lexer is the one that compiler_lex_file gives, with the tokens of the
  -- file, in order, and END inside the array; the parser is the one that compiler_parse gives for
  -- them, with at most 256 nodes and no operator recorded; the bytecode is what the code generator
  -- gives for those nodes, at most 256 instructions, none of them arithmetic. Calls of
  -- compiler_reset and compiler_destroy are not among them.
  pub Reachable-Stands :
      {calls : List Call} {c : Compiler D}
      → Reachable to_double double_bits unset calls c
      → Stands calls c
  Reachable-Stands begin = unfold compiler_init in at_start
  Reachable-Stands (next a r e) = perform-Stands a (Reachable-Stands r) e
