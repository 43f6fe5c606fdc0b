-- ===== src/Parser/Expression/Reads.antt =====
-- src/parser.c: one production of the grammar read by the Pratt parser, its parts being read.
use tira.Prelude.{
  ℕ, zero, suc, ◌+◌, ◌*◌, ◌-◌, ◌≤◌, ◌<◌, ◌≡◌, refl, ap, ◌∙◌, arith, true, ◌⊎◌, List, [], ◌∷◌, ◌++◌,
  append_assoc, append-nil, Option, some, Bytes, length, length-append, inl, inr,
}
use tira.Token.{Token, TokenType, is_type, token_index, t_lparen, t_rparen, t_minus, t_not}
use tira.Ast.{
  ParserNode, Pointer, binary_op, binop_invalid, unary, zero_node, node_binary_op, node_unary,
}
use tira.Parser.{Parser, ok, bind, set_node}
use tira.Parser.Rules.{
  Prefix, Infix, prefix_rule, infix_rule, precedence, prec_lowest, prec_factor, prec_unary,
  prec_cmp,
}
use tira.Parser.Expr.{parse_expr_prec, infix_loop, run_infix, run_prefix}
use tira.Parser.Expression.{Tree, leaf, applied, joined, count, place, nodes_of, IsAtom}
use tira.Parser.Expression.Steps.{
  ahead, After, After-trans, ahead-After, passed, passed-After, previous-passed,
  parse_expr_prec-rule, infix_loop-rule, infix_loop-ends, expect-next, with_node, new_node-room,
}
use tira.Parser.Expression.Atoms.{with_node-After, filled, filled-After, IsAtom-AtomRuns}

pub binary-precedences :
    (t : TokenType)
    → infix_rule t ≡ some Infix.parse_binary
    → (prec_cmp ≤ precedence t) × (precedence t ≤ prec_factor)
unfolding infix_rule precedence
binary-precedences _ h = (ground arith, ground arith)

module _ {D : Type 0} where
  pub length-nodes_of : (n : ℕ) (e : Tree D) → length (nodes_of n e) ≡ count e
  length-nodes_of n (leaf m) = refl
  length-nodes_of n (applied op e) = omega (arith, length-nodes_of (n + 1) e)
  length-nodes_of n (joined e g) = omega (
    arith,
    length-append (nodes_of n e) (
        binary_op binop_invalid (some (place n e)) (some (place (n + count e + 1) g))
        ∷ nodes_of (n + count e + 1) g),
    length-nodes_of n e,
    length-nodes_of (n + count e + 1) g,
  )

  pub After-same :
      {p q : Parser D} {k l : ℕ} {ns ms : List (ParserNode D)}
      → k ≡ l
      → ns ≡ ms
      → After p q k ns
      → After p q l ms
  After-same {p = p} e d a = record {
    same_source = a.same_source;
    same_tokens = a.same_tokens;
    same_cap = a.same_cap;
    same_errors = a.same_errors;
    further = omega (arith, a.further);
    made = a.made ∙ ap (λ l. p.nodes ++ l) d;
  }

  module _ (to_double : Bytes → Option D) (source : Bytes) where
    -- A parser in front of an expression and one more token, which does not bind tighter than a binary
    -- operator, with room for the nodes, and fuel.
    pub record Faces (F : ℕ) (p : Parser D) (ts : List Token) (e : Tree D) (t : Token)
        (more : List Token) : Type 0 where
      pub from_source : p.source ≡ source
      pub facing : ahead p ≡ ts ++ t ∷ more
      pub low : precedence t.type ≤ prec_factor
      pub room : length p.nodes + count e ≤ p.node_cap
      pub fuel : 4 * length ts + 2 ≤ F

    -- The expression is read, and the operators behind it are looked at next.
    pub record Reads (F prec : ℕ) (p : Parser D) (ts : List Token) (e : Tree D) : Type 0 where
      pub fuel_left : ℕ
      pub spent : F ≤ fuel_left + 2 * length ts
      pub end : Parser D
      pub runs :
          parse_expr_prec to_double F prec p
          ≡ infix_loop to_double fuel_left prec (some (place (length p.nodes) e)) end
      pub after : After p end (length ts) (nodes_of (length p.nodes) e)

    -- Where the next token is no operator that binds tighter, this is the end.
    pub settle :
        {F prec : ℕ} {p : Parser D} {ts : List Token} {e : Tree D} (t : Token) (more : List Token)
        (r : Reads F prec p ts e)
        → ahead p ≡ ts ++ t ∷ more
        → precedence t.type ≤ prec
        → 2 * length ts < F
        → parse_expr_prec to_double F prec p ≡ ok (some (place (length p.nodes) e)) r.end
    settle {F = F} {prec} {p} {ts} {e} t more r h low enough =
        let one_left : r.fuel_left ≡ suc (r.fuel_left - 1) = omega (arith, r.spent) in
        r.runs
        ∙ ap (λ l. infix_loop to_double l prec (some (place (length p.nodes) e)) r.end) one_left
        ∙ infix_loop-ends to_double (r.fuel_left - 1) prec _ r.end t more
            (ahead-After ts (t ∷ more) r.after h refl) low

    binary-runs :
        (f : ℕ) (lhs rhs : Pointer) (p q : Parser D)
        → length p.nodes < p.node_cap
        → parse_expr_prec to_double f prec_factor (with_node node_binary_op p) ≡ ok rhs q
        → run_infix to_double (suc f) Infix.parse_binary lhs p
          ≡ ok (some (length p.nodes)) (filled (length p.nodes) (binary_op binop_invalid lhs rhs) q)
    unfolding run_infix set_node
    binary-runs f lhs rhs p q room e = rw (new_node-room node_binary_op p room) (rw e refl)

    unary-runs :
        (f : ℕ) (expr : Pointer) (p q : Parser D) (op : Token) (rest : List Token)
        → ahead p ≡ op ∷ rest
        → length p.nodes < p.node_cap
        → parse_expr_prec to_double f prec_unary (with_node node_unary (passed p)) ≡ ok expr q
        → run_prefix to_double (suc f) Prefix.parse_unary (passed p)
          ≡ ok (some (length p.nodes)) (filled (length p.nodes) (unary op.type expr) q)
    unfolding run_prefix set_node
    unary-runs f expr p q op rest h room e =
        rw (new_node-room node_unary (passed p) room)
          (rw (previous-passed (with_node node_unary p) op rest h) (rw e refl))

    grouping-runs :
        (f : ℕ) (expr : Pointer) (p q : Parser D) (rp : Token) (rest : List Token)
        → parse_expr_prec to_double f prec_lowest p ≡ ok expr q
        → ahead q ≡ rp ∷ rest
        → is_type rp.type t_rparen ≡ true
        → run_prefix to_double (suc f) Prefix.parse_grouping p ≡ ok expr (passed q)
    unfolding run_prefix
    grouping-runs f expr p q rp rest e h closing =
        rw e (rw (expect-next q t_rparen rp rest h closing) refl)

    pub atom-Reads :
        (F prec : ℕ) (p : Parser D) (t : Token) (rest : List Token) (n : ParserNode D)
        → ahead p ≡ t ∷ rest
        → length p.nodes < p.node_cap
        → 2 ≤ F
        → IsAtom to_double p.source t n
        → Reads F prec p (t ∷ []) (leaf n)
    atom-Reads zero prec p t rest n h room enough a = absurd (omega arith)
    atom-Reads (suc zero) prec p t rest n h room enough a = absurd (omega arith)
    atom-Reads (suc (suc f)) prec p t rest n h room enough a =
        let r = IsAtom-AtomRuns to_double f p t rest n h room a in
        record {
          fuel_left = suc f;
          spent = omega arith;
          end = r.end;
          runs =
              parse_expr_prec-rule to_double (suc f) prec p t rest r.rule h r.ruled
              ∙ ap (λ o. bind o (λ lhs. infix_loop to_double (suc f) prec lhs)) r.runs;
          after = r.after;
        }

    unary-rule :
        (t : TokenType) → (t ≡ t_minus) ⊎ (t ≡ t_not) → prefix_rule t ≡ some Prefix.parse_unary
    unfolding prefix_rule
    unary-rule t (inl e) = ap prefix_rule e
    unary-rule t (inr e) = ap prefix_rule e

    -- An operand behind a minus or a `!`.
    pub prefixed-Reads :
        (F prec : ℕ) (p : Parser D) (op : Token) (ts : List Token) (e : Tree D) (t : Token)
        (more : List Token)
        → (op.type ≡ t_minus) ⊎ (op.type ≡ t_not)
        → ahead p ≡ op ∷ (ts ++ t ∷ more)
        → length p.nodes < p.node_cap
        → precedence t.type ≤ prec_factor
        → 4 * length ts + 6 ≤ suc (suc F)
        → Reads F prec_unary (with_node node_unary (passed p)) ts e
        → Reads (suc (suc F)) prec p (op ∷ ts) (applied op.type e)
    prefixed-Reads F prec p op ts e t more o h room low enough r =
        let p' = with_node node_unary (passed p) in
        let start : length p'.nodes ≡ length p.nodes + 1 =
          omega (arith, length-append p.nodes (zero_node node_unary ∷ [])) in
        let made = After-trans (with_node-After node_unary (passed p)) r.after in
        record {
          fuel_left = suc F;
          spent = omega arith;
          end = filled (length p.nodes) (unary op.type (some (place (length p'.nodes) e))) r.end;
          runs =
              parse_expr_prec-rule to_double (suc F) prec p op _ Prefix.parse_unary h
                (unary-rule op.type o)
              ∙ ap (λ o. bind o (λ lhs. infix_loop to_double (suc F) prec lhs))
                  (unary-runs F _ p r.end op _ h room (
                    settle t more r
                      (ahead-After (op ∷ []) (ts ++ t ∷ more)
                        (After-trans (passed-After p) (with_node-After node_unary (passed p))) h
                        refl)
                      (omega arith) (omega arith)));
          after =
              After-same (omega arith)
                (ap (λ k. unary op.type (some (place k e)) ∷ nodes_of k e) start)
                (filled-After [] (nodes_of (length p'.nodes) e) (length p.nodes)
                  (zero_node node_unary) (unary op.type (some (place (length p'.nodes) e)))
                  (After-trans (passed-After p) made) (omega arith));
        }

    -- An expression in parentheses.
    pub grouped-Reads :
        (F prec : ℕ) (p : Parser D) (lp rp : Token) (ts : List Token) (e : Tree D) (t : Token)
        (more : List Token)
        → lp.type ≡ t_lparen
        → rp.type ≡ t_rparen
        → ahead p ≡ lp ∷ ((ts ++ rp ∷ []) ++ t ∷ more)
        → 2 * length ts < F
        → Reads F prec_lowest (passed p) ts e
        → Reads (suc (suc F)) prec p (lp ∷ (ts ++ rp ∷ [])) e
    unfolding token_index prefix_rule precedence
    grouped-Reads F prec p lp rp ts e t more opening closing h enough r =
        let inside : ahead (passed p) ≡ ts ++ rp ∷ (t ∷ more) =
          ahead-After (lp ∷ []) ((ts ++ rp ∷ []) ++ t ∷ more) (passed-After p) h refl
          ∙ append_assoc ts (rp ∷ []) (t ∷ more) in
        let lowest : precedence rp.type ≤ prec_lowest = omega (arith, ap precedence closing) in
        record {
          fuel_left = suc F;
          spent = omega arith;
          end = passed r.end;
          runs =
              parse_expr_prec-rule to_double (suc F) prec p lp _ Prefix.parse_grouping h
                (ap prefix_rule opening)
              ∙ ap (λ o. bind o (λ lhs. infix_loop to_double (suc F) prec lhs))
                  (grouping-runs F _ (passed p) r.end rp (t ∷ more)
                    (settle rp (t ∷ more) r inside lowest enough)
                    (ahead-After ts (rp ∷ (t ∷ more)) r.after inside refl)
                    (ap (λ ty. is_type ty t_rparen) closing));
          after =
              After-same (omega (arith, length-append ts (rp ∷ [])))
                (append-nil (nodes_of (length p.nodes) e))
                (After-trans (passed-After p) (After-trans r.after (passed-After r.end)));
        }

    -- What is ahead of the right operand of an operator.
    pub behind_operator :
        {p q : Parser D} {ns : List (ParserNode D)} (ts us : List Token) (op t : Token)
        (more : List Token)
        → After p q (length ts) ns
        → ahead p ≡ (ts ++ op ∷ us) ++ t ∷ more
        → (ahead q ≡ op ∷ (us ++ t ∷ more)) × (ahead (passed q) ≡ us ++ t ∷ more)
    behind_operator {p = p} {q} ts us op t more a h =
        let there : ahead q ≡ op ∷ (us ++ t ∷ more) =
          ahead-After ts (op ∷ (us ++ t ∷ more)) a (h ∙ append_assoc ts (op ∷ us) (t ∷ more))
            refl in
        (there, ahead-After (op ∷ []) (us ++ t ∷ more) (passed-After q) there refl)

    -- A binary operator and its right operand.
    pub chained-Reads :
        (F prec : ℕ) (p : Parser D) (ts us : List Token) (op : Token) (e g : Tree D) (t : Token)
        (more : List Token)
        → prec < prec_cmp
        → infix_rule op.type ≡ some Infix.parse_binary
        → ahead p ≡ (ts ++ op ∷ us) ++ t ∷ more
        → precedence t.type ≤ prec_factor
        → length p.nodes + count (joined e g) ≤ p.node_cap
        → 4 * length (ts ++ op ∷ us) + 2 ≤ F
        → (r : Reads F prec p ts e)
        → Reads (r.fuel_left - 2) prec_factor (with_node node_binary_op (passed r.end)) us g
        → Reads F prec p (ts ++ op ∷ us) (joined e g)
    chained-Reads F prec p ts us op e g t more below binary h low room enough r s =
        let q = r.end in
        let q' = with_node node_binary_op (passed q) in
        let (there, behind) = behind_operator ts us op t more r.after h in
        let all : length (ts ++ op ∷ us) ≡ length ts + (1 + length us) =
          omega (arith, length-append ts (op ∷ us)) in
        let two_left : r.fuel_left ≡ suc (suc (r.fuel_left - 2)) = omega (arith, r.spent, all) in
        let placed : length q.nodes ≡ length p.nodes + count e = omega (
          arith,
          ap (λ l. length l) r.after.made,
          length-append p.nodes (nodes_of (length p.nodes) e),
          length-nodes_of (length p.nodes) e,
        ) in
        let start : length q'.nodes ≡ length p.nodes + count e + 1 =
          omega (arith, length-append q.nodes (zero_node node_binary_op ∷ []), placed) in
        let node =
          binary_op binop_invalid (some (place (length p.nodes) e))
            (some (place (length q'.nodes) g)) in
        record {
          fuel_left = suc (r.fuel_left - 2);
          spent = omega (arith, r.spent, all);
          end = filled (length q.nodes) node s.end;
          runs =
              r.runs
              ∙ ap (λ l. infix_loop to_double l prec (some (place (length p.nodes) e)) q) two_left
              ∙ infix_loop-rule to_double (suc (r.fuel_left - 2)) prec _ q op (us ++ t ∷ more)
                  Infix.parse_binary there (omega (arith, (binary-precedences op.type binary).0))
                  binary
              ∙ ap (λ o. bind o (λ next. infix_loop to_double (suc (r.fuel_left - 2)) prec next))
                  (binary-runs (r.fuel_left - 2) _ _ (passed q) s.end
                    (omega (arith, placed, r.after.same_cap))
                    (settle t more s behind low (omega (arith, r.spent, all))))
              ∙ ap
                  (λ k.
                    infix_loop to_double (suc (r.fuel_left - 2)) prec (some k)
                      (filled (length q.nodes) node s.end))
                  placed;
          after =
              After-same (omega (arith, all))
                (ap
                  (λ k.
                    nodes_of (length p.nodes) e
                    ++ (binary_op binop_invalid (some (place (length p.nodes) e)) (some (place k g))
                        ∷ nodes_of k g))
                  start)
                (After-trans r.after (
                  filled-After [] (nodes_of (length q'.nodes) g) (length q.nodes)
                    (zero_node node_binary_op) node
                    (After-trans (passed-After q)
                      (After-trans (with_node-After node_binary_op (passed q)) s.after))
                    (omega arith)));
        }
