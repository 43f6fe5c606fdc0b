-- ===== src/Match/Blocks.antt =====
-- src/parser.c and src/tester.c: which arrays of nodes can be found to match.
use tira.Prelude.{
  ℕ, zero, suc, ◌≡◌, ◌≢◌, refl, arith, Bool, true, false, not, ◌||◌, List, [], ◌∷◌, length, ◌==◌,
  ==_iff, if◌then◌else◌,
}
use tira.Ast.{ParserNodeKind, node_block}
use tira.Memory.Block.{Memory}
use tira.Match.{
  Nodes, Match, decided, assertion, unfinished, is_kind, then_match, stmts_match, blocks_match,
  nodes_match, check_parse_nodes_match,
}

-- Two nodes at different places, neither NULL.
abbrev pub Apart : ℕ → ℕ → Type 0
Apart a b = (a ≢ b) × (a ≢ 0) × (b ≢ 0)

-- Pairs of nodes that are both blocks with as many statements and parameters.
pub record AreBlocks (h : Nodes) (a b : ℕ) : Type 0 where
  pub left_block : is_kind (h a).kind node_block ≡ true
  pub right_block : is_kind (h b).kind node_block ≡ true
  pub same_stmts : length (h a).stmts ≡ length (h b).stmts
  pub same_params : length (h a).params ≡ length (h b).params

-- What a test that turns a match down leaves.
passed :
    (t : Bool) (r : Match)
    → (if not t then decided false else r) ≡ decided true
    → (t ≡ true) × (r ≡ decided true)
passed true r e = (refl, e)
passed false r e = absurd cc

asserted :
    (t : Bool) (r : Match)
    → (if t then r else assertion) ≡ decided true
    → (t ≡ true) × (r ≡ decided true)
asserted true r e = (refl, e)
asserted false r e = absurd cc

same_kind : (a b c : ParserNodeKind) → is_kind a b ≡ true → is_kind a c ≡ true → is_kind b c ≡ true
same_kind a b c e h = ground (arith, e, h)

nodes_match-AreBlocks :
    (f : ℕ) (m : Memory) (h : Nodes) (a b : ℕ)
    → Apart a b
    → nodes_match f m h a b ≡ decided true
    → AreBlocks h a b
unfolding nodes_match blocks_match
nodes_match-AreBlocks zero m h a b (n, p, q) e = absurd cc
nodes_match-AreBlocks (suc f) m h a b (n, p, q) e =
    let other : (a == b) ≡ false = ground (arith, n) in
    let given : (a == 0 || b == 0) ≡ false = ground (arith, p, q) in
    let (kinds, rest) = passed (is_kind (h a).kind (h b).kind) _ (rw (other, given) at e) in
    let (block, compared) = asserted (is_kind (h a).kind node_block) _ rest in
    let (stmts, tail) = passed (length (h a).stmts == length (h b).stmts) _ compared in
    let (params, ends) = passed (length (h a).params == length (h b).params) _ tail in
    record {
      left_block = block;
      right_block = same_kind (h a).kind (h b).kind node_block kinds block;
      same_stmts = (==_iff _ _).0 stmts;
      same_params = (==_iff _ _).0 params;
    }

-- The pairs of two lists.
abbrev pub Pairs : (ℕ → ℕ → Type 0) → List ℕ → List ℕ → Type 0
Pairs P [] [] = Unit
Pairs P (a ∷ xs) (b ∷ ys) = P a b × Pairs P xs ys
Pairs P _ _ = ⊥

first_true : (r s : Match) → then_match r s ≡ decided true → (r ≡ decided true) × (s ≡ decided true)
first_true (decided true) s e = (refl, e)
first_true (decided false) s e = absurd cc
first_true assertion s e = absurd cc
first_true unfinished s e = absurd cc

stmts_match-AreBlocks :
    (f : ℕ) (m : Memory) (h : Nodes) (xs ys : List ℕ)
    → length xs ≡ length ys
    → Pairs Apart xs ys
    → stmts_match (nodes_match f m h) xs ys ≡ decided true
    → Pairs (AreBlocks h) xs ys
unfolding stmts_match
stmts_match-AreBlocks f m h [] [] l p e = tt
stmts_match-AreBlocks f m h [] (b ∷ ys) l p e = p
stmts_match-AreBlocks f m h (a ∷ xs) [] l p e = p
stmts_match-AreBlocks f m h (a ∷ xs) (b ∷ ys) l (p, ps) e =
    let (first, rest) = first_true _ _ e in
    (
      nodes_match-AreBlocks f m h a b p first,
      stmts_match-AreBlocks f m h xs ys (omega (arith, l)) ps rest,
    )

-- The tester's comparison of two arrays of as many nodes at different places, none NULL, succeeds
-- only if all of the nodes are blocks, each with as many statements and parameters as its partner.
pub check_parse_nodes_match-AreBlocks :
    (f : ℕ) (m : Memory) (h : Nodes) (expected actual : List ℕ)
    → Pairs Apart expected actual
    → check_parse_nodes_match f m h expected actual ≡ decided true
    → Pairs (AreBlocks h) expected actual
unfolding check_parse_nodes_match
check_parse_nodes_match-AreBlocks f m h expected actual p e =
    let (same, rest) = passed (length expected == length actual) _ e in
    stmts_match-AreBlocks f m h expected actual ((==_iff _ _).0 same) p rest
