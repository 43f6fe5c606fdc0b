-- ===== src/Tests/Match.antt =====
-- src/string.c, src/parser.c, src/tester.c: texts and nodes compared.
use tira.Prelude.{◌≡◌, ◌≢◌, ◌↔◌, refl, arith, [], ◌∷◌, none, some, codes, ◌==◌, ◌||◌, if◌then◌else◌}
use tira.Prelude.Int.{pos}
use tira.Ast.{node_block}
use tira.Memory.Block.{Memory}
use tira.Strings.{strcmp}
use tira.Strings.Compare.{strcmp-zero}
use tira.Match.{
  Nodes, nodes_match, blocks_match, stmts_match, all_params_match, check_parse_nodes_match,
}
use tira.Match.Blocks.{AreBlocks, Pairs, check_parse_nodes_match-AreBlocks}

-- `a` at 1 and at 3, and 0 elsewhere.
abbrev two_names : Memory
two_names a = if a == 1 || a == 3 then 97 else 0

strcmp-zero_example :
    (strcmp 5 two_names 1 3 ≢ none)
    × ((strcmp 5 two_names 1 3 ≡ some (pos 0)) ↔ (codes "a" ≡ codes "a"))
strcmp-zero_example =
    strcmp-zero 5 1 3 (codes "a") (codes "a") two_names (refl, λ e. omega (arith, e), refl)
      (refl, λ e. omega (arith, e), refl) (omega arith)

-- Every node is an empty block.
abbrev blocks : Nodes
blocks a = record { kind = node_block; stmts = []; params = [] }

check_parse_nodes_match-AreBlocks_example : Pairs (AreBlocks blocks) (100 ∷ []) (200 ∷ [])
unfolding check_parse_nodes_match stmts_match nodes_match blocks_match all_params_match
check_parse_nodes_match-AreBlocks_example =
    check_parse_nodes_match-AreBlocks 2 two_names blocks (100 ∷ []) (200 ∷ [])
      ((λ e. omega (arith, e), λ e. omega (arith, e), λ e. omega (arith, e)), tt) refl
