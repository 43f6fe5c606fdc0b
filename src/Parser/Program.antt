-- ===== src/Parser/Program.antt =====
-- src/parser.c: what `parse_program` does, and the fuel that it needs.
use mathlib.Core.Path.{subst}
use tira.Ast.{zero_node, node_block}
use tira.Prelude.{
  leb, lt→leb, length-append, [], ◌∷◌, ◌++◌, ◌<◌, ap, sym, ◌∙◌, ℕ, zero, suc, ◌+◌, ◌*◌, ◌≤◌, ◌≡◌,
  ◌≢◌, refl, true, false, arith, Option, Bytes, length,
}
use tira.Parser.{Parser, new_node, Fault, out_of_fuel, Outcome, ok, fault, bind}
use tira.Parser.Expr.{program_loop, parse_program}
use tira.Parser.Runs.{
  AllUntyped, left, Runs, ends, faults, seq, Runs-pure, Runs-when, Runs-true, Runs-false, seq-peek,
  raise_error-Runs, new_node-Runs,
}
use tira.Parser.Parts.{block_add_stmt-Runs, seq-match_separator}
use tira.Parser.Total.{parse_stmt-Runs}

-- What the parser may have done to its state at the end.
pub record Parsed {D : Type 0} (p q : Parser D) : Type 0 where
  pub same_source : q.source ≡ p.source
  pub same_tokens : q.tokens ≡ p.tokens
  pub same_cap : q.node_cap ≡ p.node_cap
  pub more_nodes : length p.nodes ≤ length q.nodes
  pub within : length q.nodes ≤ q.node_cap
  pub more_errors : p.error_count ≤ q.error_count
  pub untyped : AllUntyped q.nodes

-- The parser ends in such a state or stops with a fault of the source.
pub data Finishes {D A : Type 0} (p : Parser D) : Outcome D A → Type 0 where
  finished : {a : A} {q : Parser D} → Parsed p q → Finishes p (ok a q)
  stopped : {e : Fault} → e ≢ out_of_fuel → Finishes p (fault e)

Runs-Finishes :
    {D A : Type 0} {u : ℕ} {p : Parser D} {o : Outcome D A}
    → length p.nodes ≤ p.node_cap
    → AllUntyped p.nodes
    → Runs u p o
    → Finishes p o
Runs-Finishes room untyped (ends g) = finished (record {
  same_source = g.same_source;
  same_tokens = g.same_tokens;
  same_cap = g.same_cap;
  more_nodes = g.more_nodes;
  within = g.within room;
  more_errors = g.more_errors;
  untyped = g.untyped untyped;
})
Runs-Finishes room untyped (faults n) = stopped n

Runs-more :
    {D A : Type 0} {u : ℕ} {p q : Parser D} {a : A}
    → Runs u p (ok a q)
    → length p.nodes ≤ length q.nodes
Runs-more (ends g) = g.more_nodes

module _ {D : Type 0} (to_double : Bytes → Option D) where
  program_loop-Runs :
      (f i : ℕ) (p : Parser D) → 8 * left p + 3 ≤ f → Runs 0 p (program_loop to_double f i p)
  unfolding program_loop
  program_loop-Runs zero i p h = absurd (omega arith)
  program_loop-Runs (suc f) i p h = seq-peek _ λ first in_range.
      Runs-when _ _ _ (Runs-pure tt refl) (
        seq-match_separator _
          (λ q g. Runs-true _ _ (program_loop-Runs f i q (omega (arith, g.fewer))))
          (Runs-false _ _ (
            seq _ (parse_stmt-Runs to_double f p (omega arith)) λ stmt q g.
              seq _ (block_add_stmt-Runs i stmt q) λ _ r k. seq-peek _ λ last _.
                Runs-when _ _ _ (Runs-pure tt refl) (
                  seq-match_separator _
                    (λ s l.
                      seq _ (Runs-when true _ _ (Runs-pure tt refl) (raise_error-Runs s)) λ _ v m.
                        program_loop-Runs f i v (omega (arith, g.fewer, k.fewer, l.fewer, m.fewer)))
                    (seq _ (Runs-when false _ _ (Runs-pure tt refl) (raise_error-Runs r)) λ _ v m.
                      program_loop-Runs f i v (omega (arith, g.fewer, k.fewer, m.fewer)))))))

  parse_program-Runs :
      (f : ℕ) (p : Parser D) → 8 * length p.tokens + 3 ≤ f → Runs 0 p (parse_program to_double f p)
  unfolding parse_program
  parse_program-Runs f p h =
      seq _ (new_node-Runs _ p) λ i q g. program_loop-Runs f i q (omega (arith, g.fewer))

  -- With fuel for eight calls a token and three more the parser does not run out of it: it ends, or
  -- stops with a fault that the source has. If it ends, the text, the tokens and the size of the array of
  -- nodes are as they were, the nodes fit in it and are no fewer than before, and no binary operation has an operator,
  -- as none had before.
  pub parse_program_total :
      (f : ℕ) (p : Parser D)
      → 8 * length p.tokens + 3 ≤ f
      → length p.nodes ≤ p.node_cap
      → AllUntyped p.nodes
      → Finishes p (parse_program to_double f p)
  parse_program_total f p h room untyped = Runs-Finishes room untyped (parse_program-Runs f p h)

  -- The first node that `parse_program` makes is its block, so that there is one if it ends.
  pub parse_program-has_nodes :
      (f : ℕ) (p : Parser D)
      → 8 * length p.tokens + 3 ≤ f
      → p.nodes ≡ []
      → 0 < p.node_cap
      → {a : Unit {0}} {q : Parser D} → parse_program to_double f p ≡ ok a q
      → 0 < length q.nodes
  unfolding parse_program new_node
  parse_program-has_nodes f p h e room {a} {q} r =
      let vacant : leb p.node_cap (length p.nodes) ≡ false =
        lt→leb _ _ (omega (arith, ap length e, room)) in
      let q0 : Parser D = record p { nodes = p.nodes ++ zero_node node_block ∷ [] } in
      let made : new_node node_block p ≡ ok (length p.nodes) q0 = rw (vacant, new_node) refl in
      let rest : program_loop to_double f (length p.nodes) q0 ≡ ok a q =
        sym (ap (λ o. bind o (program_loop to_double f)) made) ∙ r in
      let more : length q0.nodes ≤ length q.nodes =
        Runs-more
          (subst (Runs 0 q0) rest (program_loop-Runs f (length p.nodes) q0 (omega arith))) in
      omega (arith, more, length-append p.nodes (zero_node node_block ∷ []))
