-- ===== src/Parser/Grammar.antt =====
-- src/parser.c: the parts of the grammar that do not recur: terminals, parameters, and the steps that
-- fill a node. The fields of a node are written here in one step, when all are known: nothing reads
-- them before.
use tira.Prelude.{
  ℕ, zero, suc, ◌+◌, Bool, true, false, not, ◌||◌, ◌%◌, ◌^◌, [], ◌∷◌, Option, none, some, Bytes,
  length, get_elem?, ltb, ◌==◌, if◌then◌else◌,
}
use tira.Token.{
  is_type, t_ident, t_semicolon, t_colon, t_comma, t_lparen, t_rparen, t_true, t_newline,
}
use tira.Text.{string_to_int64}
use tira.Ast.{
  ParserNode, ParserNodeKind, Pointer, Param, Number, int_value, real_value, indeterminate, number,
  string, identifier, block, dot_access, bool, aggregate, node_number, node_string, node_identifier,
  node_nil, node_dot_access, node_bool, node_aggregate,
}
use tira.Parser.{
  null_read, outside_array, out_of_fuel, ok, fault, M, pure, stop, ◌>>=◌, when◌then◌else◌,
  case_option, ◌>>◌, run, case_option, token_at, peek, advance, match, token_string, raise_error,
  previous, expect, new_node, set_node,
}

-- `memchr(start, c, length) != NULL`.
unfoldable pub has_byte : ℕ → Bytes → Bool
has_byte c [] = false
has_byte c (x ∷ s) = x == c || has_byte c s

module _ {D : Type 0} where
  -- A node is made of a kind and then filled.
  unfoldable pub make : ParserNodeKind → ParserNode D → M D Pointer
  make k n = do i ← new_node k; set_node i n; pure (some i)

  -- Terminals.

  unfoldable pub number_value : (Bytes → Option D) → Bytes → Option (Number D)
  number_value to_double s =
      if has_byte b'.' s
      then elim (to_double s) [ none ↦ none | some x ↦ some (real_value x) ]
      else elim (string_to_int64 s) [ none ↦ none | some n ↦ some (int_value n) ]

  unfoldable pub parse_number : (Bytes → Option D) → M D Pointer
  parse_number to_double = do
    i ← new_node node_number
    tok ← previous
    s ← token_string tok
    case_option (number_value to_double s) (raise_error >> pure (some i))
        (λ n. set_node i (number n) >> pure (some i))

  unfoldable pub parse_string : M D Pointer
  parse_string = do
    i ← new_node node_string
    tok ← previous
    s ← token_string tok
    set_node i (string s)
    pure (some i)

  unfoldable pub parse_nil : M D Pointer
  parse_nil = do i ← new_node node_nil; pure (some i)

  unfoldable pub parse_bool : M D Pointer
  parse_bool = do
    i ← new_node node_bool
    tok ← previous
    set_node i (bool (is_type tok.type t_true))
    pure (some i)

  unfoldable pub parse_identifier : M D Pointer
  parse_identifier = do
    i ← new_node node_identifier
    tok ← previous
    s ← token_string tok
    set_node i (identifier s)
    pure (some i)

  -- `str_intern` of the token that `expect` gave, which reads NULL if it gave none.
  unfoldable pub type_name : Option ℕ → M D Bytes
  type_name none = stop null_read
  type_name (some i) = do tok ← token_at i; token_string tok

  unfoldable pub parse_param : M D Param
  parse_param = do
    i ← advance
    tok ← token_at i
    name ← token_string tok
    colon ← match t_colon
    when colon
        then (do
          type_tok ← expect t_ident
          s ← type_name type_tok
          pure (record { name = name; type = some s }))
        else pure (record { name = name; type = none })

  unfoldable pub parse_dot : Pointer → M D Pointer
  parse_dot lhs = do
    i ← new_node node_dot_access
    member ← expect t_ident
    set_node i (dot_access lhs member)
    pure (some i)

  -- The loop over the parameters of a function: `do { … } while (match(p, T_COMMA))`. It gives
  -- their number.
  unfoldable pub params_loop : ℕ → ℕ → M D ℕ
  params_loop zero params_count p = fault out_of_fuel
  params_loop (suc f) params_count p = run p do
    parse_param
    comma ← match t_comma
    when comma then params_loop f (params_count + 1) else pure (params_count + 1)

  unfoldable pub parse_params : M D ℕ
  parse_params p = run p do
    next ← peek
    when is_type next.type t_lparen
        then (do
          advance
          params_count ← params_loop (length p.tokens + 1) 0
          expect t_rparen
          pure params_count)
        else pure 0

  -- `target->kind != NODE_IDENTIFIER`, on a target that may be NULL.
  unfoldable pub check_node : Option (ParserNode D) → M D (Unit {0})
  check_node none p = fault null_read
  check_node (some (identifier s)) p = ok tt p
  check_node (some _) p = raise_error p

  unfoldable pub check_target : Pointer → M D (Unit {0})
  check_target none p = fault null_read
  check_target (some i) p = check_node (get_elem? p.nodes i) p

  -- A write at an index of an array with room for so many entries.
  unfoldable pub check_index : ℕ → ℕ → M D (Unit {0})
  check_index room i = when ltb i room then pure tt else stop outside_array

  -- The arrays that the two collecting functions fill do not reach their caller, which passes on
  -- variables that were never set.
  unfoldable pub make_multi_assign : ℕ → ℕ → M D Pointer
  make_multi_assign target_count value_count =
      when not (target_count == value_count)
      then (raise_error >> pure none)
      else make node_aggregate (aggregate indeterminate indeterminate target_count)

  -- A statement more in the block that is the node `i`: its count has 16 bits, and the array that it
  -- is stored in is left out.
  unfoldable pub add_to_block : ℕ → Pointer → Option (ParserNode D) → M D (Unit {0})
  add_to_block i stmt none p = fault null_read
  add_to_block i stmt (some (block n)) p = set_node i (block ((n + 1) % 2 ^ 16)) p
  add_to_block i stmt (some _) p = fault null_read

  unfoldable pub block_add_stmt : ℕ → Pointer → M D (Unit {0})
  block_add_stmt i stmt p = add_to_block i stmt (get_elem? p.nodes i) p

  -- `match(p, T_NEWLINE) || match(p, T_SEMICOLON)`.
  unfoldable pub match_separator : M D Bool
  match_separator = do newline ← match t_newline; when newline then pure true else match t_semicolon

  unfoldable pub set_pos : ℕ → M D (Unit {0})
  set_pos i p = ok tt (record p { pos = i })
