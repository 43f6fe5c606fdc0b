-- ===== src/Parser/Typing/Program.antt =====
-- src/parser.c: the kinds of the nodes that `parse_program` makes.
use mathlib.Core.Path.{subst}
use tira.Prelude.{ℕ, zero, suc, ◌≡◌, Option, Bytes}
use tira.Parser.{Parser, ok}
use tira.Parser.Expr.{program_loop, parse_program}
use tira.Parser.Typing.{Typed}
use tira.Parser.Typing.Steps.{
  Gives, gives, stops, Any, Does, seq, Gives-pure, Gives-when, peek-Does, raise_error-Does,
  new_node-Does,
}
use tira.Parser.Typing.Parts.{block_add_stmt-Does, match_separator-Does}
use tira.Parser.Typing.Expr.{parse_stmt-Does}

module _ {D : Type 0} (to_double : Bytes → Option D) where
  program_loop-Does : (f i : ℕ) → Does {D = D} Any (program_loop to_double f i)
  unfolding program_loop
  program_loop-Does zero i p t = stops
  program_loop-Does (suc f) i p t = seq _ (peek-Does p t) λ first q g u _.
      Gives-when _ _ _ (Gives-pure tt u tt) (
        seq _ (match_separator-Does q u) λ blank r h v _.
          Gives-when blank _ _ (program_loop-Does f i r v) (
            seq _ (parse_stmt-Does to_double f r v) λ stmt s k w st.
              seq _ (block_add_stmt-Does i stmt s w st) λ _ x l y _.
                seq _ (peek-Does x y) λ last z m a _. Gives-when _ _ _ (Gives-pure tt a tt) (
                  seq _ (match_separator-Does z a) λ separated b n c _.
                    seq {P = Any} _
                      (Gives-when separated _ _ (Gives-pure tt c tt) (raise_error-Does b c))
                      λ _ d o j _. program_loop-Does f i d j)))

  parse_program-Does : (f : ℕ) → Does {D = D} Any (parse_program to_double f)
  unfolding parse_program
  parse_program-Does f p t = seq _ (new_node-Does _ p t) λ i q g u e. program_loop-Does f i q u

  -- Every pointer in the nodes behind `parse_program`, whatever the fuel, is NULL or points to a node
  -- of the array, names to identifiers and bodies to blocks, if it was so before.
  pub parse_program-Typed :
      (f : ℕ) (p q : Parser D)
      → Typed p.nodes
      → parse_program to_double f p ≡ ok tt q
      → Typed q.nodes
  parse_program-Typed f p q t e = go (subst (Gives Any p) e (parse_program-Does f p t))
    where
      go : Gives Any p (ok tt q) → Typed q.nodes
      go (gives g u r) = u
