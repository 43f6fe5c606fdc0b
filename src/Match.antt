-- ===== src/Match.antt =====
-- src/parser.c and src/tester.c: the comparison of two arrays of nodes.
pub mod Blocks
use tira.Prelude.{
  ℕ, zero, suc, ◌+◌, Bool, true, false, not, ◌&&◌, ◌||◌, List, [], ◌∷◌, Option, none, some, length,
  ◌==◌, if◌then◌else◌,
}
use tira.Prelude.Int.{ℤ, pos, negsuc}
use tira.Ast.{
  ParserNodeKind, node_number, node_string, node_identifier, node_binary_op, node_unary,
  node_var_decl, node_const_decl, node_assignment, node_block, node_array_literal, node_func_decl,
  node_if_expr, node_return, node_nil, node_func_call, node_index, node_range, node_dot_access,
  node_bool, node_aggregate, node_ternary, node_for_expr,
}
use tira.Memory.Block.{Memory}
use tira.Strings.{Str, string_compare}

-- A parameter and its address.
pub record ParamAt : Type 0 where
  pub place : ℕ
  pub name : Str

-- What is compared of a node: its kind and, of a block, the addresses of its statements and its
-- parameters.
pub record NodeView : Type 0 where
  pub kind : ParserNodeKind
  pub stmts : List ℕ
  pub params : List ParamAt

-- The nodes by their addresses; 0 is NULL.
abbrev pub Nodes : Type 0
Nodes = ℕ → NodeView

-- `unfinished`: the fuel is spent.
pub data Match : Type 0 where
  decided : Bool → Match
  assertion unfinished : Match

abbrev kind_index : ParserNodeKind → ℕ
kind_index node_number = 0
kind_index node_string = 1
kind_index node_identifier = 2
kind_index node_binary_op = 3
kind_index node_unary = 4
kind_index node_var_decl = 5
kind_index node_const_decl = 6
kind_index node_assignment = 7
kind_index node_block = 8
kind_index node_array_literal = 10
kind_index node_func_decl = 11
kind_index node_if_expr = 12
kind_index node_return = 13
kind_index node_nil = 14
kind_index node_func_call = 15
kind_index node_index = 16
kind_index node_range = 17
kind_index node_dot_access = 18
kind_index node_bool = 19
kind_index node_aggregate = 20
kind_index node_ternary = 21
kind_index node_for_expr = 22

abbrev pub is_kind : ParserNodeKind → ParserNodeKind → Bool
is_kind a b = kind_index a == kind_index b

-- `if (!x) return false;` and then the rest.
abbrev pub then_match : Match → Match → Match
then_match (decided true) r = r
then_match (decided false) r = decided false
then_match assertion r = assertion
then_match unfinished r = unfinished

unfoldable pub hash_match : ℕ → ℕ → Bool
hash_match hash1 hash2 = false

abbrev pub is_zero : Option ℤ → Match
is_zero none = unfinished
is_zero (some (pos n)) = decided (n == 0)
is_zero (some (negsuc n)) = decided false

-- The hash of a name is always 0.
unfoldable pub params_match : ℕ → Memory → ParamAt → ParamAt → Match
params_match f m a b =
    if a.place == b.place
    then decided true
    else if a.place == 0 || b.place == 0
    then decided false
    else if hash_match 0 0
    then decided true
    else is_zero (string_compare f m a.name b.name)

-- The loops of a block, over lists of the same length, with the comparison of two nodes.
unfoldable pub stmts_match : (ℕ → ℕ → Match) → List ℕ → List ℕ → Match
stmts_match next [] ys = decided true
stmts_match next (a ∷ xs) [] = decided true
stmts_match next (a ∷ xs) (b ∷ ys) = then_match (next a b) (stmts_match next xs ys)

unfoldable pub all_params_match : ℕ → Memory → List ParamAt → List ParamAt → Match
all_params_match f m [] ys = decided true
all_params_match f m (a ∷ xs) [] = decided true
all_params_match f m (a ∷ xs) (b ∷ ys) =
    then_match (params_match f m a b) (all_params_match f m xs ys)

unfoldable pub blocks_match : (ℕ → ℕ → Match) → ℕ → Memory → NodeView → NodeView → Match
blocks_match next f m a b =
    if not (length a.stmts == length b.stmts)
    then decided false
    else if not (length a.params == length b.params)
    then decided false
    else then_match (stmts_match next a.stmts b.stmts) (all_params_match f m a.params b.params)

unfoldable pub nodes_match : ℕ → Memory → Nodes → ℕ → ℕ → Match
nodes_match zero m h a b = unfinished
nodes_match (suc f) m h a b =
    if a == b
    then decided true
    else if a == 0 || b == 0
    then decided false
    else if not (is_kind (h a).kind (h b).kind)
    then decided false
    else if is_kind (h a).kind node_block
    then blocks_match (nodes_match f m h) f m (h a) (h b)
    else assertion

-- The arrays xs the addresses of their nodes.
unfoldable pub check_parse_nodes_match : ℕ → Memory → Nodes → List ℕ → List ℕ → Match
check_parse_nodes_match f m h expected actual =
    if not (length expected == length actual)
    then decided false
    else stmts_match (nodes_match f m h) expected actual
