-- ===== src/Tests/Debug.antt =====
-- src/compiler.c: the debug texts of a few nodes and tokens.
use tira.Prelude.{ℕ, ◌≡◌, arith, List, [], ◌∷◌, none, some, codes, ◌++◌, false, ◌^◌}
use tira.Prelude.Int.{pos}
use tira.Token.{Token, t_ident, t_newline}
use tira.Lexer.{Lexer}
use tira.Ast.{ParserNode, int_value, number, identifier, block, assignment}
use tira.Memory.{Arena}
use tira.Builder.{StringBuilder}
use tira.Builder.Room.{HasRoom}
use tira.Codegen.{number_bits, to_uint64}
use tira.Debug.{debug_print_parser, node_diff}
use tira.Debug.Room.{debug_print_parser-HasRoom, debug_print_parser_overflows}

abbrev megabyte : Arena
megabyte = record { base = 65536; size = 1048576; used = 0 }

abbrev no_bits : ℕ → ℕ
no_bits d = d

-- `x = 5`; NULL is far from the nodes.
abbrev assigned : List (ParserNode ℕ)
assigned = assignment (some 1) (some 2) ∷ identifier (codes "x") ∷ number (int_value (pos 5)) ∷ []

debug_print_parser-HasRoom_example :
    (after : StringBuilder) × (debug_print_parser no_bits (2 ^ 63) megabyte (block 1 ∷ assigned)
      ≡ some after)
    × HasRoom after
unfolding node_diff number_bits to_uint64
debug_print_parser-HasRoom_example =
    debug_print_parser-HasRoom no_bits (2 ^ 63) megabyte (block 1) assigned (omega arith)
      (omega arith) (omega arith) (tt, ((omega arith, omega arith), (tt, (omega arith, tt))))

debug_print_parser_overflows_example :
    debug_print_parser no_bits
      (2 ^ 63)
      megabyte
      (assigned ++ number (int_value (pos 12345678901234567)) ∷ [])
    ≡ none
debug_print_parser_overflows_example =
    debug_print_parser_overflows no_bits (2 ^ 63) megabyte 12345678901234567 assigned []
      (omega arith) (omega arith)

abbrev name_token : Token
name_token = record { type = t_ident; start = 0; length = 1; line = 1 }

abbrev newline_token : Token
newline_token = record { type = t_newline; start = 1; length = 1; line = 1 }

abbrev two_tokens : Lexer
two_tokens = record {
  tokens = name_token ∷ newline_token ∷ [];
  cap = 512;
  input = codes "x\n";
  pos = 2;
  at_line_start = false;
  line = 2;
  col = 0;
}
