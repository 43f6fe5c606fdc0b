-- ===== src/Debug.antt =====
-- src/compiler.c: the texts of `debug_print_lexer` and `debug_print_parser`. The builder behind each
-- call, or `none` where digits are written behind their array or the assertion at the start fails.
pub mod Room
use tira.Prelude.{
  ℕ, zero, suc, ◌+◌, ◌*◌, Bool, true, false, not, List, [], ◌∷◌, Option, none, some, Bytes, codes,
  length, take, drop, ◌==◌, if◌then◌else◌,
}
use tira.Token.{Token, t_newline, is_type, token_type_string}
use tira.Lexer.{Lexer}
use tira.SourceLine.{source_line}
use tira.Ast.{
  ParserNode, Pointer, Number, number, string, identifier, binary_op, unary, var_decl, const_decl,
  assignment, block, array_literal, func_decl, if_expr, return, nil, func_call, index, range,
  dot_access, bool, aggregate, ternary, for_expr,
}
use tira.Memory.{Arena, arena_push}
use tira.Builder.{StringBuilder, sb_build_string, sb_build_char, sb_build_u64, sb_newline}
use tira.Codegen.{number_bits}

abbrev kilobytes_128 : ℕ
kilobytes_128 = 128 * 1024

-- The arena is passed by value, so that nothing of it is taken.
unfoldable pub sb_create_temp : Arena → StringBuilder
sb_create_temp a = elim (arena_push a kilobytes_128).0 [
  | none ↦ record { buffer = []; capacity = 0 }
  | some p ↦ record { buffer = []; capacity = kilobytes_128 }
]

abbrev pub Build : Type 0
Build = StringBuilder → Option StringBuilder

abbrev pub then_build : Option StringBuilder → Build → Option StringBuilder
then_build none g = none
then_build (some sb) g = g sb

infixl 1 ◌>>◌
abbrev pub ◌>>◌ : Build → Build → Build
◌>>◌ f g sb = then_build (f sb) g

-- `sb_build` by the type of what is built.
abbrev pub text : Bytes → Build
text s sb = some (sb_build_string sb s)

abbrev pub char : ℕ → Build
char c sb = some (sb_build_char sb c)

abbrev pub newline : Build
newline sb = some (sb_newline sb)

abbrev pub u64 : ℕ → Build
u64 n sb = sb_build_u64 sb n

abbrev pub nothing : Build
nothing sb = some sb

unfoldable pub sb_lhs : ℕ → Build
sb_lhs i = text (codes "(lhs = ") >> u64 i

unfoldable pub sb_rhs : ℕ → Build
sb_rhs i = text (codes ", rhs = ") >> u64 i >> text (codes ")")

-- `node_kind_strings`, the stringised names.
unfoldable pub node_kind_string : {D : Type 0} → ParserNode D → Bytes
node_kind_string (number n) = codes "NUMBER"
node_kind_string (string s) = codes "STRING"
node_kind_string (identifier s) = codes "IDENTIFIER"
node_kind_string (binary_op type lhs rhs) = codes "BINARY_OP"
node_kind_string (unary op expr) = codes "UNARY"
node_kind_string (var_decl i rhs) = codes "VAR_DECL"
node_kind_string (const_decl i rhs) = codes "CONST_DECL"
node_kind_string (assignment lhs rhs) = codes "ASSIGNMENT"
node_kind_string (block stmts) = codes "BLOCK"
node_kind_string (array_literal elems len) = codes "ARRAY_LITERAL"
node_kind_string (func_decl i b params) = codes "FUNC_DECL"
node_kind_string (if_expr c t e) = codes "IF_EXPR"
node_kind_string (return e) = codes "RETURN"
node_kind_string nil = codes "NIL"
node_kind_string (func_call callee args) = codes "FUNC_CALL"
node_kind_string (index base i) = codes "INDEX"
node_kind_string (range lhs rhs inclusive) = codes "RANGE"
node_kind_string (dot_access lhs m) = codes "DOT_ACCESS"
node_kind_string (bool b) = codes "BOOL"
node_kind_string (aggregate targets values count) = codes "AGGREGATE"
node_kind_string (ternary c t e) = codes "TERNARY"
node_kind_string (for_expr i e) = codes "FOR_EXPR"

-- What is added for a token in the first loop.
unfoldable pub build_token : Bytes → ℕ → Token → Build
build_token input i cur =
    u64 i
    >> text (codes ":L")
    >> u64 cur.line
    >> char b':'
    >> text (token_type_string cur.type)
    >> (if not (is_type cur.type t_newline)
        then char b':' >> char b'"' >> text (take cur.length (drop cur.start input)) >> char b'"'
        else nothing)
    >> newline

unfoldable pub build_tokens : Bytes → ℕ → List Token → Build
build_tokens input i [] = nothing
build_tokens input i (cur ∷ ts) = build_token input i cur >> build_tokens input (i + 1) ts

-- The text that `source_line` gives.
unfoldable pub line_text : Bytes → ℕ → Bytes
line_text source lineno = elim (source_line source lineno) [
  | none ↦ []
  | some (start, len) ↦ take len (drop start source)
]

-- What is added in the second loop, whose `cur_line` is passed on.
unfoldable pub build_lines : Bytes → ℕ → List Token → Build
build_lines input cur_line [] = nothing
build_lines input cur_line (cur ∷ ts) =
    (if not (cur.line == cur_line)
      then newline >> text (line_text input cur_line) >> newline
      else nothing)
    >> text (token_type_string cur.type)
    >> char b' '
    >> build_lines input cur.line ts

unfoldable pub build_all : StringBuilder → Bytes → List Token → Option StringBuilder
build_all sb input [] = none
build_all sb input (first ∷ ts) =
    (build_tokens input 0 (first ∷ ts)
        >> text (codes "==========\n")
        >> build_lines input first.line (first ∷ ts)
        >> newline)
      sb

unfoldable pub debug_print_lexer : Arena → Lexer → Option StringBuilder
debug_print_lexer temp_arena l = build_all (sb_create_temp temp_arena) l.input l.tokens

-- `null_diff` is the difference of NULL and the array's address in nodes, as a `size_t`.
module _ {D : Type 0} (double_bits : D → ℕ) (null_diff : ℕ) where
  unfoldable pub node_diff : Pointer → ℕ
  node_diff none = null_diff
  node_diff (some i) = i

  unfoldable pub build_fields : ParserNode D → Build
  build_fields (identifier s) = text s
  build_fields (assignment lhs rhs) = sb_lhs (node_diff lhs) >> sb_rhs (node_diff rhs)
  build_fields (number n) = u64 (number_bits double_bits n)
  build_fields (func_call callee args) = sb_lhs (node_diff callee) >> text (codes ")")
  build_fields (binary_op type lhs rhs) = sb_lhs (node_diff lhs) >> sb_rhs (node_diff rhs)
  build_fields (bool true) = text (codes "true")
  build_fields (bool false) = text (codes "false")
  build_fields _ = nothing

  unfoldable pub debug_print_node_info : ParserNode D → Build
  debug_print_node_info n =
      text (node_kind_string n) >> text (codes " ") >> build_fields n >> text (codes "\n")

  unfoldable pub build_nodes : ℕ → List (ParserNode D) → Build
  build_nodes i [] = nothing
  build_nodes i (n ∷ ns) =
      u64 i >> text (codes ": ") >> debug_print_node_info n >> build_nodes (i + 1) ns

  -- No statement adds to `statement_count`, which is 0, so that the last loop does nothing.
  unfoldable pub debug_print_parser : Arena → List (ParserNode D) → Option StringBuilder
  debug_print_parser temp_arena [] = none
  debug_print_parser temp_arena (n ∷ ns) =
      (build_nodes 0 (n ∷ ns) >> text (codes "==========\n") >> text (codes "STATEMENTS:\n"))
        (sb_create_temp temp_arena)
