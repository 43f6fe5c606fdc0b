-- ===== src/Ast.antt =====
-- src/parser.c: the nodes of the syntax tree. They stand in one array in the order in which they are
-- made, and a `ParserNode *` is the index of a node in it, or `none` for NULL. Of the arrays of
-- statements, elements, arguments and parameters, which are in the arena, only the counts are here.
use tira.Prelude.{ℕ, Bool, false, [], Option, none, Bytes}
use tira.Prelude.Int.{ℤ, pos}
use tira.Token.{TokenType, t_invalid}

pub data ParserNodeKind : Type 0 where
  node_number node_string node_identifier node_binary_op node_unary : ParserNodeKind
  node_var_decl node_const_decl node_assignment node_block : ParserNodeKind
  node_array_literal node_func_decl node_if_expr node_return node_nil : ParserNodeKind
  node_func_call node_index node_range node_dot_access node_bool : ParserNodeKind
  node_aggregate node_ternary node_for_expr : ParserNodeKind

pub data BinaryOpType : Type 0 where
  binop_invalid binop_add binop_sub binop_mul binop_div : BinaryOpType

abbrev pub Pointer : Type 0
Pointer = Option ℕ

-- The text of a token, which is all that an `InternedStr` holds (its hash is 0).
abbrev pub InternedStr : Type 0
InternedStr = Bytes

-- `type` is not set where the parameter has none.
pub record Param : Type 0 where
  pub name : InternedStr
  pub type : Option InternedStr

-- The member of the union that a number literal sets.
pub data Number (D : Type 0) : Type 0 where
  int_value : ℤ → Number D
  real_value : D → Number D

-- An array in a local variable that no statement sets.
pub data Tuple : Type 0 where
  null_tuple : Tuple
  indeterminate : Tuple

-- A node with the fields of its kind. The parameter is the type of `double`.
pub data ParserNode (D : Type 0) : Type 0 where
  number : Number D → ParserNode D
  string : Bytes → ParserNode D
  identifier : InternedStr → ParserNode D
  binary_op : (type : BinaryOpType) (lhs rhs : Pointer) → ParserNode D
  unary : (op : TokenType) (expr : Pointer) → ParserNode D
  var_decl : (identifier rhs : Pointer) → ParserNode D
  const_decl : (identifier rhs : Pointer) → ParserNode D
  assignment : (lhs rhs : Pointer) → ParserNode D
  block : (statements_count : ℕ) → ParserNode D
  array_literal : (count : ℕ) (length_expr : Pointer) → ParserNode D
  func_decl : (identifier block : Pointer) (params_count : ℕ) → ParserNode D
  if_expr : (cond then_branch else_branch : Pointer) → ParserNode D
  return : (expr : Pointer) → ParserNode D
  nil : ParserNode D
  func_call : (callee : Pointer) (args_count : ℕ) → ParserNode D
  index : (base at_index : Pointer) → ParserNode D
  range : (lhs rhs : Pointer) (inclusive : Bool) → ParserNode D
  dot_access : (lhs : Pointer) (member : Option ℕ) → ParserNode D
  bool : Bool → ParserNode D
  aggregate : (targets values : Tuple) (count : ℕ) → ParserNode D
  ternary : (cond then_expr else_expr : Pointer) → ParserNode D
  for_expr : (ident iter_expr : Pointer) → ParserNode D

-- What `mem_zero` and the kind make of a node.
unfoldable pub zero_node : {D : Type 0} → ParserNodeKind → ParserNode D
zero_node node_number = number (int_value (pos 0))
zero_node node_string = string []
zero_node node_identifier = identifier []
zero_node node_binary_op = binary_op binop_invalid none none
zero_node node_unary = unary t_invalid none
zero_node node_var_decl = var_decl none none
zero_node node_const_decl = const_decl none none
zero_node node_assignment = assignment none none
zero_node node_block = block 0
zero_node node_array_literal = array_literal 0 none
zero_node node_func_decl = func_decl none none 0
zero_node node_if_expr = if_expr none none none
zero_node node_return = return none
zero_node node_nil = nil
zero_node node_func_call = func_call none 0
zero_node node_index = index none none
zero_node node_range = range none none false
zero_node node_dot_access = dot_access none none
zero_node node_bool = bool false
zero_node node_aggregate = aggregate null_tuple null_tuple 0
zero_node node_ternary = ternary none none none
zero_node node_for_expr = for_expr none none
