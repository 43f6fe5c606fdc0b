-- ===== src/Compile/Printing.antt =====
-- src/compiler.c: the debug texts of a run, where they cannot be built.
use tira.Prelude.{none, ◌+◌, ◌*◌, ◌^◌, ◌<◌, [], ◌∷◌, ◌++◌, ℕ, ◌≤◌, ◌≡◌, ap, arith, List, length}
use mathlib.Core.Path.{subst}
use tira.Token.{Token}
use tira.Lexer.{Lexer}
use tira.LexFile.{end_token}
use tira.Ast.{ParserNode}
use tira.Debug.{debug_print_lexer, debug_print_parser}
use tira.Debug.Room.{FewLines, AllSmall, debug_print_lexer-HasRoom, debug_print_parser-HasRoom}
use tira.Memory.{Arena}

-- An arena with room for the text that is built for debugging.
pub record HasBuffer (a : Arena) : Type 0 where
  pub buffer_free : a.used + 128 * 1024 ≤ a.size
  pub size_lt : a.size < 2 ^ 64

-- Where the text of a lexer's tokens is not built, a line or their number has many digits.
pub tokens_printed :
    (temp_arena : Arena) (l : Lexer) (ts : List Token)
    → HasBuffer temp_arena
    → l.tokens ≡ ts ++ end_token ∷ []
    → debug_print_lexer temp_arena l ≡ none
    → ¬ ((length l.tokens < 10 ^ 16) × FewLines l.tokens)
tokens_printed temp_arena l [] b e r (few, lines) =
    let (after, run, _) =
      debug_print_lexer-HasRoom temp_arena l end_token [] b.buffer_free b.size_lt e (omega arith)
        (subst FewLines e lines) in
    absurd cc
tokens_printed temp_arena l (t ∷ ts) b e r (few, lines) =
    let (after, run, _) =
      debug_print_lexer-HasRoom temp_arena l t (ts ++ end_token ∷ []) b.buffer_free b.size_lt e
        (omega (arith, few, ap length e)) (subst FewLines e lines) in
    absurd cc

module _ {D : Type 0} (double_bits : D → ℕ) (null_diff : ℕ) (temp_arena : Arena) where
  -- Where the text of some nodes is not built, a number that is printed of one has many digits.
  pub nodes_printed :
      (ns : List (ParserNode D))
      → HasBuffer temp_arena
      → 0 < length ns
      → length ns ≤ 256
      → debug_print_parser double_bits null_diff temp_arena ns ≡ none
      → ¬ (AllSmall double_bits null_diff ns)
  nodes_printed [] b h few e small = absurd (omega arith)
  nodes_printed (n ∷ ns) b h few e small =
      let (after, run, _) =
        debug_print_parser-HasRoom double_bits null_diff temp_arena n ns b.buffer_free b.size_lt
          (omega (arith, few)) small in
      absurd cc
