-- ===== src/Parser/Expression/Complete.antt =====
-- src/parser.c: expressions in front of the Pratt parser, whole.
use mathlib.Core.Path.{subst}
use tira.Prelude.{
  ℕ, suc, ◌-◌, ◌≤◌, ◌<◌, ◌≡◌, refl, ap, ◌∙◌, sym, arith, List, [], ◌∷◌, ◌++◌, append_assoc, Option,
  some, Bytes, length, length-append,
}
use tira.Token.{Token, t_rparen}
use tira.Ast.{zero_node, node_binary_op, node_unary}
use tira.Parser.{Parser, ok}
use tira.Parser.Rules.{
  Infix, infix_rule, precedence, prec_lowest, prec_factor, prec_unary, prec_cmp,
}
use tira.Parser.Expr.{parse_expr_prec}
use tira.Parser.Expression.{
  Tree, applied, joined, place, nodes_of, IsAtom, Operand, atom, prefixed, grouped, Expression,
  single, chained,
}
use tira.Parser.Expression.Steps.{After, After-trans, ahead-After, passed, passed-After, with_node}
use tira.Parser.Expression.Atoms.{with_node-After}
use tira.Parser.Expression.Reads.{
  Faces, Reads, settle, binary-precedences, length-nodes_of, atom-Reads, prefixed-Reads,
  grouped-Reads, chained-Reads, behind_operator,
}

module _ {D : Type 0} where
  module _ (to_double : Bytes → Option D) (source : Bytes) where
    Faces-prefixed :
        {F : ℕ} {p : Parser D} {op t : Token} {ts more : List Token} {e : Tree D}
        → Faces to_double source F p (op ∷ ts) (applied op.type e) t more
        → Faces to_double source (F - 2) (with_node node_unary (passed p)) ts e t more
    Faces-prefixed {p = p} {op} {t} {ts} {more} h = record {
      from_source = h.from_source;
      facing =
          ahead-After (op ∷ []) (ts ++ t ∷ more)
            (After-trans (passed-After p) (with_node-After node_unary (passed p))) h.facing refl;
      low = h.low;
      room = omega (arith, h.room, length-append p.nodes (zero_node node_unary ∷ []));
      fuel = omega (arith, h.fuel);
    }

    Faces-grouped :
        {F : ℕ} {p : Parser D} {lp rp t : Token} {ts more : List Token} {e : Tree D}
        → rp.type ≡ t_rparen
        → Faces to_double source F p (lp ∷ (ts ++ rp ∷ [])) e t more
        → Faces to_double source (F - 2) (passed p) ts e rp (t ∷ more)
    unfolding precedence
    Faces-grouped {p = p} {lp} {rp} {t} {ts} {more} closing h = record {
      from_source = h.from_source;
      facing =
          ahead-After (lp ∷ []) ((ts ++ rp ∷ []) ++ t ∷ more) (passed-After p) h.facing refl
          ∙ append_assoc ts (rp ∷ []) (t ∷ more);
      low = omega (arith, ap precedence closing);
      room = h.room;
      fuel = omega (arith, h.fuel, length-append ts (rp ∷ []));
    }

    Faces-first :
        {F : ℕ} {p : Parser D} {t : Token} {ts more : List Token} {e : Tree D} (us : List Token)
        (op : Token) (g : Tree D)
        → infix_rule op.type ≡ some Infix.parse_binary
        → Faces to_double source F p (ts ++ op ∷ us) (joined e g) t more
        → Faces to_double source F p ts e op (us ++ t ∷ more)
    Faces-first {t = t} {ts} {more} us op g binary h = record {
      from_source = h.from_source;
      facing = h.facing ∙ append_assoc ts (op ∷ us) (t ∷ more);
      low = (binary-precedences op.type binary).1;
      room = omega (arith, h.room);
      fuel = omega (arith, h.fuel, length-append ts (op ∷ us));
    }

    Faces-second :
        {F prec : ℕ} {p : Parser D} {t : Token} {ts us more : List Token} {e g : Tree D}
        (op : Token) (r : Reads to_double source F prec p ts e)
        → Faces to_double source F p (ts ++ op ∷ us) (joined e g) t more
        → Faces to_double source
            (r.fuel_left - 2)
            (with_node node_binary_op (passed r.end))
            us
            g
            t
            more
    Faces-second {F = F} {p = p} {t} {ts} {us} {more} {e} {g} op r h = record {
      from_source = r.after.same_source ∙ h.from_source;
      facing = (behind_operator to_double source ts us op t more r.after h.facing).1;
      low = h.low;
      room = omega (
        arith,
        h.room,
        r.after.same_cap,
        ap (λ l. length l) r.after.made,
        length-append p.nodes (nodes_of (length p.nodes) e),
        length-nodes_of (length p.nodes) e,
        length-append r.end.nodes (zero_node node_binary_op ∷ []),
      );
      fuel = omega (arith, h.fuel, r.spent, length-append ts (op ∷ us));
    }

    two_units : (P : ℕ → Type 0) (F : ℕ) → 2 ≤ F → P (suc (suc (F - 2))) → P F
    two_units P F h x = let same : suc (suc (F - 2)) ≡ F = omega arith in subst P same x

    mutual
      Operand-Reads :
          (F prec : ℕ) (p : Parser D) (ts : List Token) (e : Tree D) (t : Token) (more : List Token)
          → Operand to_double source ts e
          → Faces to_double source F p ts e t more
          → Reads to_double source F prec p ts e
      Operand-Reads F prec p _ _ t more (atom {t = c} {n = n} a) h =
          atom-Reads to_double source F prec p c (t ∷ more) n h.facing (omega (arith, h.room))
            (omega (arith, h.fuel)) (subst (λ s. IsAtom to_double s c n) (sym h.from_source) a)
      Operand-Reads F prec p _ _ t more (prefixed {op = op} {ts = ts} {e = e} o d) h =
          two_units (λ f. Reads to_double source f prec p (op ∷ ts) (applied op.type e)) F
            (omega (arith, h.fuel))
            (prefixed-Reads to_double source (F - 2) prec p op ts e t more o h.facing
              (omega (arith, h.room)) h.low (omega (arith, h.fuel))
              (Operand-Reads (F - 2) prec_unary (with_node node_unary (passed p)) ts e t more d
                (Faces-prefixed h)))
      Operand-Reads F prec p _ _ t more (grouped {lp = lp} {ts = ts} {e = e} rp opening d closing)
            h =
          two_units (λ f. Reads to_double source f prec p (lp ∷ (ts ++ rp ∷ [])) e) F
            (omega (arith, h.fuel))
            (grouped-Reads to_double source (F - 2) prec p lp rp ts e t more opening closing
              h.facing (omega (arith, h.fuel, length-append ts (rp ∷ [])))
              (Expression-Reads (F - 2) prec_lowest (passed p) ts e rp (t ∷ more) (omega arith) d
                (Faces-grouped closing h)))

      Expression-Reads :
          (F prec : ℕ) (p : Parser D) (ts : List Token) (e : Tree D) (t : Token) (more : List Token)
          → prec < prec_cmp
          → Expression to_double source ts e
          → Faces to_double source F p ts e t more
          → Reads to_double source F prec p ts e
      Expression-Reads F prec p ts e t more below (single d) h =
          Operand-Reads F prec p ts e t more d h
      Expression-Reads F prec p _ _ t more below
            (chained {ts = ts} {us = us} {e = e} {g = g} op d binary u) h =
          let r =
            Expression-Reads F prec p ts e op (us ++ t ∷ more) below d
              (Faces-first us op g binary h) in
          chained-Reads to_double source F prec p ts us op e g t more below binary h.facing h.low
            h.room h.fuel r
            (Operand-Reads (r.fuel_left - 2) prec_factor (with_node node_binary_op (passed r.end))
              us g t more u (Faces-second op r h))

module _ {D : Type 0} (to_double : Bytes → Option D) where
  -- An expression of the grammar is read to its end, whatever its length, if a token stands behind it
  -- that is no infix operator, the array has room for its nodes, and there are four units of fuel for
  -- each token and two more. There is no error, and the nodes that are made are those of its tree,
  -- in which operators are joined from the left, whatever their precedence.
  pub parse_expr_prec-Expression :
      (F : ℕ) (p : Parser D) (ts : List Token) (e : Tree D) (t : Token) (more : List Token)
      → Expression to_double p.source ts e
      → Faces to_double p.source F p ts e t more
      → precedence t.type ≡ 0
      → (q : Parser D) × (parse_expr_prec to_double F prec_lowest p
          ≡ ok (some (place (length p.nodes) e)) q)
        × After p q (length ts) (nodes_of (length p.nodes) e)
  parse_expr_prec-Expression F p ts e t more d h last =
      let r = Expression-Reads to_double p.source F prec_lowest p ts e t more (omega arith) d h in
      (
        r.end,
        settle to_double p.source t more r h.facing (omega (arith, last)) (omega (arith, h.fuel)),
        r.after,
      )
