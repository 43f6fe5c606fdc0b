-- ===== src/Parser/Typing.antt =====
-- src/parser.c: the kinds of the nodes that the pointers in a node point to.
pub mod Steps
pub mod Parts
pub mod Expr
pub mod Program
use mathlib.Core.Path.{subst}
use tira.Prelude.{
  ℕ, zero, suc, ◌+◌, ◌<◌, ◌≡◌, refl, ap, ◌∙◌, sym, arith, List, [], ◌∷◌, ◌++◌, Option, none, some,
  length, get_elem?, set,
}
use tira.Ast.{
  ParserNode, ParserNodeKind, Pointer, node_number, node_string, node_identifier, node_binary_op,
  node_unary, node_var_decl, node_const_decl, node_assignment, node_block, node_array_literal,
  node_func_decl, node_if_expr, node_return, node_nil, node_func_call, node_index, node_range,
  node_dot_access, node_bool, node_aggregate, node_ternary, node_for_expr, number, string,
  identifier, binary_op, unary, var_decl, const_decl, assignment, block, array_literal, func_decl,
  if_expr, return, nil, func_call, index, range, dot_access, bool, aggregate, ternary, for_expr,
  zero_node,
}

-- `node->kind`.
abbrev pub kind_of : {D : Type 0} → ParserNode D → ParserNodeKind
kind_of (number n) = node_number
kind_of (string s) = node_string
kind_of (identifier s) = node_identifier
kind_of (binary_op type lhs rhs) = node_binary_op
kind_of (unary op expr) = node_unary
kind_of (var_decl i rhs) = node_var_decl
kind_of (const_decl i rhs) = node_const_decl
kind_of (assignment lhs rhs) = node_assignment
kind_of (block stmts) = node_block
kind_of (array_literal elems len) = node_array_literal
kind_of (func_decl i b params) = node_func_decl
kind_of (if_expr c t e) = node_if_expr
kind_of (return e) = node_return
kind_of nil = node_nil
kind_of (func_call callee args) = node_func_call
kind_of (index base i) = node_index
kind_of (range lhs rhs inclusive) = node_range
kind_of (dot_access lhs m) = node_dot_access
kind_of (bool b) = node_bool
kind_of (aggregate targets values count) = node_aggregate
kind_of (ternary c t e) = node_ternary
kind_of (for_expr i e) = node_for_expr

zero_node-kind_of : (D : Type 0) (k : ParserNodeKind) → kind_of (zero_node {D = D} k) ≡ k
unfolding zero_node
zero_node-kind_of D node_number = refl
zero_node-kind_of D node_string = refl
zero_node-kind_of D node_identifier = refl
zero_node-kind_of D node_binary_op = refl
zero_node-kind_of D node_unary = refl
zero_node-kind_of D node_var_decl = refl
zero_node-kind_of D node_const_decl = refl
zero_node-kind_of D node_assignment = refl
zero_node-kind_of D node_block = refl
zero_node-kind_of D node_array_literal = refl
zero_node-kind_of D node_func_decl = refl
zero_node-kind_of D node_if_expr = refl
zero_node-kind_of D node_return = refl
zero_node-kind_of D node_nil = refl
zero_node-kind_of D node_func_call = refl
zero_node-kind_of D node_index = refl
zero_node-kind_of D node_range = refl
zero_node-kind_of D node_dot_access = refl
zero_node-kind_of D node_bool = refl
zero_node-kind_of D node_aggregate = refl
zero_node-kind_of D node_ternary = refl
zero_node-kind_of D node_for_expr = refl

module _ {D : Type 0} where
  -- The node of an index exists and has a kind.
  abbrev pub KindAt : List (ParserNode D) → ℕ → ParserNodeKind → Type 0
  KindAt [] i k = ⊥
  KindAt (n ∷ ns) zero k = kind_of n ≡ k
  KindAt (n ∷ ns) (suc i) k = KindAt ns i k

  -- A pointer to an expression: NULL, or a node of the array.
  abbrev pub Points : List (ParserNode D) → Pointer → Type 0
  Points ns none = Unit
  Points ns (some i) = (k : ParserNodeKind) × KindAt ns i k

  -- A pointer to a node of one kind: NULL, or such a node of the array.
  abbrev pub IsA : List (ParserNode D) → ParserNodeKind → Pointer → Type 0
  IsA ns k none = Unit
  IsA ns k (some i) = KindAt ns i k

  -- The pointer of an `else`: a block or another `if`, or NULL.
  pub data IsElse (ns : List (ParserNode D)) : Pointer → Type 0 where
    else_block : {p : Pointer} → IsA ns node_block p → IsElse ns p
    else_if : {p : Pointer} → IsA ns node_if_expr p → IsElse ns p

  -- A node as its kind has it: names are identifiers, bodies are blocks, and no pointer is outside
  -- the array. A pointer may be NULL, as all are in a new node.
  abbrev pub IsNode : List (ParserNode D) → ParserNode D → Type 0
  IsNode ns (binary_op type lhs rhs) = Points ns lhs × Points ns rhs
  IsNode ns (unary op expr) = Points ns expr
  IsNode ns (var_decl name rhs) = IsA ns node_identifier name × Points ns rhs
  IsNode ns (const_decl name rhs) = IsA ns node_identifier name × Points ns rhs
  IsNode ns (assignment lhs rhs) = Points ns lhs × Points ns rhs
  IsNode ns (array_literal elems len) = Points ns len
  IsNode ns (func_decl name body params) = IsA ns node_identifier name × IsA ns node_block body
  IsNode ns (if_expr c t e) = Points ns c × IsA ns node_block t × IsElse ns e
  IsNode ns (return e) = Points ns e
  IsNode ns (func_call callee args) = Points ns callee
  IsNode ns (index base i) = Points ns base × Points ns i
  IsNode ns (range lhs rhs inclusive) = Points ns lhs × Points ns rhs
  IsNode ns (dot_access lhs m) = Points ns lhs
  IsNode ns (ternary c t e) = Points ns c × Points ns t × Points ns e
  IsNode ns (for_expr i e) = IsA ns node_identifier i × Points ns e
  IsNode ns _ = Unit

  -- All nodes of the array are so.
  abbrev pub AreNodes : List (ParserNode D) → List (ParserNode D) → Type 0
  AreNodes ns [] = Unit
  AreNodes ns (m ∷ ms) = IsNode ns m × AreNodes ns ms

  abbrev pub Typed : List (ParserNode D) → Type 0
  Typed ns = AreNodes ns ns

  -- Nodes are only added, and keep their kinds.
  pub record Grows (ns ns' : List (ParserNode D)) : Type 0 where
    pub keeps : (i : ℕ) (k : ParserNodeKind) → KindAt ns i k → KindAt ns' i k

  pub Grows-refl : (ns : List (ParserNode D)) → Grows ns ns
  Grows-refl ns = record { keeps = λ i k h. h }

  pub Grows-trans :
      {ns ns' ns'' : List (ParserNode D)} → Grows ns ns' → Grows ns' ns'' → Grows ns ns''
  Grows-trans g h = record { keeps = λ i k x. h.keeps i k (g.keeps i k x) }

  module _ {ns ns' : List (ParserNode D)} (g : Grows ns ns') where
    pub Points-Grows : (p : Pointer) → Points ns p → Points ns' p
    Points-Grows none h = tt
    Points-Grows (some i) (k, h) = (k, g.keeps i k h)

    pub IsA-Grows : (k : ParserNodeKind) (p : Pointer) → IsA ns k p → IsA ns' k p
    IsA-Grows k none h = tt
    IsA-Grows k (some i) h = g.keeps i k h

    pub IsElse-Grows : (p : Pointer) → IsElse ns p → IsElse ns' p
    IsElse-Grows p (else_block h) = else_block (IsA-Grows node_block p h)
    IsElse-Grows p (else_if h) = else_if (IsA-Grows node_if_expr p h)

    IsNode-Grows : (n : ParserNode D) → IsNode ns n → IsNode ns' n
    IsNode-Grows (binary_op type lhs rhs) (h, k) = (Points-Grows lhs h, Points-Grows rhs k)
    IsNode-Grows (unary op expr) h = Points-Grows expr h
    IsNode-Grows (var_decl name rhs) (h, k) = (IsA-Grows _ name h, Points-Grows rhs k)
    IsNode-Grows (const_decl name rhs) (h, k) = (IsA-Grows _ name h, Points-Grows rhs k)
    IsNode-Grows (assignment lhs rhs) (h, k) = (Points-Grows lhs h, Points-Grows rhs k)
    IsNode-Grows (array_literal count len) h = Points-Grows len h
    IsNode-Grows (func_decl name body params) (h, k) = (IsA-Grows _ name h, IsA-Grows _ body k)
    IsNode-Grows (if_expr c t e) (h, k, l) = (Points-Grows c h, IsA-Grows _ t k, IsElse-Grows e l)
    IsNode-Grows (return e) h = Points-Grows e h
    IsNode-Grows (func_call callee args) h = Points-Grows callee h
    IsNode-Grows (index base i) (h, k) = (Points-Grows base h, Points-Grows i k)
    IsNode-Grows (range lhs rhs inclusive) (h, k) = (Points-Grows lhs h, Points-Grows rhs k)
    IsNode-Grows (dot_access lhs m) h = Points-Grows lhs h
    IsNode-Grows (ternary c t e) (h, k, l) = (Points-Grows c h, Points-Grows t k, Points-Grows e l)
    IsNode-Grows (for_expr i e) (h, k) = (IsA-Grows _ i h, Points-Grows e k)
    IsNode-Grows _ h = tt

    pub AreNodes-Grows : (ms : List (ParserNode D)) → AreNodes ns ms → AreNodes ns' ms
    AreNodes-Grows [] h = tt
    AreNodes-Grows (m ∷ ms) (h, hs) = (IsNode-Grows m h, AreNodes-Grows ms hs)

  pub AreNodes-append :
      (ns ms : List (ParserNode D)) (n : ParserNode D)
      → AreNodes ns ms
      → IsNode ns n
      → AreNodes ns (ms ++ n ∷ [])
  AreNodes-append ns [] n h k = (k, tt)
  AreNodes-append ns (m ∷ ms) n (h, hs) k = (h, AreNodes-append ns ms n hs k)

  pub AreNodes-set :
      (ns ms : List (ParserNode D)) (i : ℕ) (n : ParserNode D)
      → AreNodes ns ms
      → IsNode ns n
      → AreNodes ns (set ms i n)
  AreNodes-set ns [] i n h k = tt
  AreNodes-set ns (m ∷ ms) zero n (h, hs) k = (k, hs)
  AreNodes-set ns (m ∷ ms) (suc i) n (h, hs) k = (h, AreNodes-set ns ms i n hs k)

  pub Grows-append : (ns : List (ParserNode D)) (n : ParserNode D) → Grows ns (ns ++ n ∷ [])
  Grows-append ns n = record { keeps = go ns }
    where
      go :
          (ns : List (ParserNode D)) (i : ℕ) (k : ParserNodeKind)
          → KindAt ns i k
          → KindAt (ns ++ n ∷ []) i k
      go [] i k h = elim h [ ]
      go (m ∷ ns) zero k h = h
      go (m ∷ ns) (suc i) k h = go ns i k h

  pub KindAt-new :
      (ns : List (ParserNode D)) (n : ParserNode D) → KindAt (ns ++ n ∷ []) (length ns) (kind_of n)
  KindAt-new [] n = refl
  KindAt-new (m ∷ ns) n = KindAt-new ns n

  pub Grows-set :
      (ns : List (ParserNode D)) (i : ℕ) (n : ParserNode D)
      → KindAt ns i (kind_of n)
      → Grows ns (set ns i n)
  Grows-set ns i n e = record { keeps = go ns i e }
    where
      go :
          (ns : List (ParserNode D)) (i : ℕ)
          → KindAt ns i (kind_of n)
          → (j : ℕ) (k : ParserNodeKind) → KindAt ns j k
          → KindAt (set ns i n) j k
      go [] i e j k h = elim h [ ]
      go (m ∷ ns) zero e zero k h = sym e ∙ h
      go (m ∷ ns) zero e (suc j) k h = h
      go (m ∷ ns) (suc i) e zero k h = h
      go (m ∷ ns) (suc i) e (suc j) k h = go ns i e j k h

  pub zero_node-IsNode : (ns : List (ParserNode D)) (k : ParserNodeKind) → IsNode ns (zero_node k)
  unfolding zero_node
  zero_node-IsNode ns node_number = tt
  zero_node-IsNode ns node_binary_op = (tt, tt)
  zero_node-IsNode ns node_var_decl = (tt, tt)
  zero_node-IsNode ns node_const_decl = (tt, tt)
  zero_node-IsNode ns node_assignment = (tt, tt)
  zero_node-IsNode ns node_func_decl = (tt, tt)
  zero_node-IsNode ns node_if_expr = (tt, tt, else_block tt)
  zero_node-IsNode ns node_index = (tt, tt)
  zero_node-IsNode ns node_range = (tt, tt)
  zero_node-IsNode ns node_ternary = (tt, tt, tt)
  zero_node-IsNode ns node_for_expr = (tt, tt)
  zero_node-IsNode ns _ = tt
