-- ===== src/Parser/Total.antt =====
-- src/parser.c: the fuel that the parser needs.
use tira.Prelude.{
  ℕ, zero, suc, ◌+◌, ◌*◌, ◌≤◌, refl, Bool, true, false, arith, if◌then◌else◌, Option, none, some,
  Bytes,
}
use tira.Token.{
  TokenType, t_equals, t_comma, t_semicolon, t_else, t_return, t_func, t_main, t_var, t_const,
}
use tira.Ast.{Pointer, var_decl, const_decl}
use tira.Parser.{Parser}
use tira.Parser.Rules.{Prefix, Infix, prefix_rule, infix_rule}
use tira.Parser.Expr.{
  parse_expr_prec, infix_loop, run_prefix, run_infix, args_loop, array_loop, lhs_loop, rhs_loop,
  parse_if_expr, parse_else, parse_block, block_loop, parse_stmt, parse_const_var_decl,
  parse_func_decl,
}
use tira.Parser.Runs.{
  Untyped, left, Runs, Runs-weak, seq, Runs-pure, stop-Runs, seq_from, Runs-when, Runs-true,
  Runs-false, Runs-option, seq-peek, seq-previous, seq-match, seq-match_any, raise_error-Runs,
  advance-Runs, advance-Runs-inside, expect-Runs, new_node-Runs, skip_newlines-Runs,
}
use tira.Parser.Parts.{
  set_node-Runs-pure, make-Runs, parse_number-Runs, parse_string-Runs, parse_nil-Runs,
  parse_bool-Runs, parse_identifier-Runs, parse_dot-Runs, seq-advance, parse_params-Runs,
  check_target-Runs, check_index-Runs, make_multi_assign-Runs, block_add_stmt-Runs, set_pos-Runs,
  seq-match_separator, seq-match_from,
}

declared :
    (D : Type 0) (is_var : Bool) (name rhs : Pointer)
    → Untyped {D = D} (if is_var then var_decl name rhs else const_decl name rhs)
declared D true name rhs = tt
declared D false name rhs = tt

module _ {D : Type 0} (to_double : Bytes → Option D) where
  mutual
    unfolding parse_expr_prec

    parse_expr_prec-Runs :
        (f prec : ℕ) (p : Parser D)
        → 8 * left p + 1 ≤ f
        → Runs 1 p (parse_expr_prec to_double f prec p)
    parse_expr_prec-Runs zero prec p h = absurd (omega arith)
    parse_expr_prec-Runs (suc f) prec p h = seq-advance _ λ t q g.
        Runs-option (prefix_rule t.type) _ _
          (seq _ (raise_error-Runs q) (λ _ r k. Runs-pure none refl))
          (λ rule.
            seq _ (run_prefix-Runs f rule q (omega (arith, g.fewer)))
              (λ lhs r k. infix_loop-Runs f prec lhs r (omega (arith, g.fewer, k.fewer))))

    infix_loop-Runs :
        (f prec : ℕ) (lhs : Pointer) (p : Parser D)
        → 8 * left p + 1 ≤ f
        → Runs 0 p (infix_loop to_double f prec lhs p)
    infix_loop-Runs zero prec lhs p h = absurd (omega arith)
    infix_loop-Runs (suc f) prec lhs p h = seq-peek _ λ t in_range.
        Runs-when _ _ _
          (seq _ (advance-Runs-inside p in_range) λ i q g.
            Runs-option (infix_rule t.type) _ _ stop-Runs (λ rule.
              seq _ (run_infix-Runs f rule lhs q (omega (arith, g.fewer)))
                (λ next r k. infix_loop-Runs f prec next r (omega (arith, g.fewer, k.fewer)))))
          (Runs-pure lhs refl)

    run_prefix-Runs :
        (f : ℕ) (rule : Prefix) (p : Parser D)
        → 8 * left p + 3 ≤ f
        → Runs 0 p (run_prefix to_double f rule p)
    run_prefix-Runs zero rule p h = absurd (omega arith)
    run_prefix-Runs (suc f) Prefix.parse_number p h = parse_number-Runs to_double p
    run_prefix-Runs (suc f) Prefix.parse_string p h = parse_string-Runs p
    run_prefix-Runs (suc f) Prefix.parse_identifier p h = parse_identifier-Runs p
    run_prefix-Runs (suc f) Prefix.parse_nil p h = parse_nil-Runs p
    run_prefix-Runs (suc f) Prefix.parse_bool p h = parse_bool-Runs p
    run_prefix-Runs (suc f) Prefix.parse_grouping p h =
        seq _ (parse_expr_prec-Runs f _ p (omega arith))
          λ expr q g. seq _ (expect-Runs _ q) λ _ r k. Runs-pure expr refl
    run_prefix-Runs (suc f) Prefix.parse_array_lit p h = seq _ (new_node-Runs _ p) λ i q g.
        seq _ (array_loop-Runs f 0 q (omega (arith, g.fewer))) λ elems r k.
          seq-match_any t_semicolon _ λ repeated s l.
            seq _
              (Runs-when repeated _ _
                (seq _ (Runs-when _ _ _ (Runs-pure tt refl) (raise_error-Runs s)) λ _ v m.
                  Runs-weak (
                    parse_expr_prec-Runs f _ v (omega (arith, g.fewer, k.fewer, l.fewer, m.fewer))))
                (Runs-pure none refl))
              λ length_expr w n. seq _ (expect-Runs _ w) λ _ x o. set_node-Runs-pure i _ tt
    run_prefix-Runs (suc f) Prefix.parse_unary p h = seq _ (new_node-Runs _ p) λ i q g.
        seq-previous _ λ op.
          seq _ (parse_expr_prec-Runs f _ q (omega (arith, g.fewer)))
            λ expr r k. set_node-Runs-pure i _ tt
    run_prefix-Runs (suc f) Prefix.parse_if_expr p h = parse_if_expr-Runs f p (omega arith)
    run_prefix-Runs (suc f) Prefix.parse_for_expr p h = seq _ (parse_identifier-Runs p) λ ident q g.
        seq _ (advance-Runs q) λ _ r k. seq _ (expect-Runs _ r) λ _ s l.
          seq _ (parse_expr_prec-Runs f _ s (omega (arith, g.fewer, k.fewer, l.fewer))) λ e v m.
            seq _ (expect-Runs _ v) λ _ w n.
              seq _
                (parse_block-Runs f _ w
                  (omega (arith, g.fewer, k.fewer, l.fewer, m.fewer, n.fewer)))
                λ _ x o. make-Runs _ _ x tt

    run_infix-Runs :
        (f : ℕ) (rule : Infix) (lhs : Pointer) (p : Parser D)
        → 8 * left p + 3 ≤ f
        → Runs 0 p (run_infix to_double f rule lhs p)
    run_infix-Runs zero rule lhs p h = absurd (omega arith)
    run_infix-Runs (suc f) Infix.parse_call lhs p h = seq _ (new_node-Runs _ p) λ i q g.
        seq-peek _ λ next in_range.
          seq _ (Runs-when _ _ _ (Runs-pure 0 refl) (args_loop-Runs f 0 q (omega (arith, g.fewer))))
            λ args r k. seq _ (expect-Runs _ r) λ _ s l. set_node-Runs-pure i _ tt
    run_infix-Runs (suc f) Infix.parse_index lhs p h = seq _ (new_node-Runs _ p) λ i q g.
        seq _ (parse_expr_prec-Runs f _ q (omega (arith, g.fewer)))
          λ at_index r k. seq _ (expect-Runs _ r) λ _ s l. set_node-Runs-pure i _ tt
    run_infix-Runs (suc f) Infix.parse_comma lhs p h =
        seq _ (lhs_loop-Runs f 1 p (omega arith)) λ n q g. seq _ (expect-Runs _ q) λ _ r k.
          seq _ (rhs_loop-Runs f 0 r (omega (arith, g.fewer, k.fewer)))
            λ m s l. make_multi_assign-Runs n m s
    run_infix-Runs (suc f) Infix.parse_binary lhs p h = seq _ (new_node-Runs _ p) λ i q g.
        seq _ (parse_expr_prec-Runs f _ q (omega (arith, g.fewer)))
          λ rhs r k. set_node-Runs-pure i _ refl
    run_infix-Runs (suc f) Infix.parse_ternary lhs p h = seq _ (new_node-Runs _ p) λ i q g.
        seq _ (parse_expr_prec-Runs f _ q (omega (arith, g.fewer))) λ then_expr r k.
          seq _ (expect-Runs _ r) λ _ s l.
            seq _ (parse_expr_prec-Runs f _ s (omega (arith, g.fewer, k.fewer, l.fewer)))
              λ else_expr v m. set_node-Runs-pure i _ tt
    run_infix-Runs (suc f) Infix.parse_range lhs p h = seq _ (new_node-Runs _ p) λ i q g.
        seq-previous _ λ op.
          seq _ (parse_expr_prec-Runs f _ q (omega (arith, g.fewer)))
            λ rhs r k. set_node-Runs-pure i _ tt
    run_infix-Runs (suc f) Infix.parse_dot lhs p h = parse_dot-Runs lhs p
    run_infix-Runs (suc f) Infix.parse_assign lhs p h = seq _ (new_node-Runs _ p) λ i q g.
        seq _ (parse_expr_prec-Runs f _ q (omega (arith, g.fewer)))
          λ rhs r k. set_node-Runs-pure i _ tt

    args_loop-Runs :
        (f args : ℕ) (p : Parser D) → 8 * left p + 2 ≤ f → Runs 0 p (args_loop to_double f args p)
    args_loop-Runs zero args p h = absurd (omega arith)
    args_loop-Runs (suc f) args p h = seq _ (parse_expr_prec-Runs f _ p (omega arith)) λ arg q g.
        seq-match t_comma _
          (λ r k. Runs-true _ _ (args_loop-Runs f _ r (omega (arith, g.fewer, k.fewer))))
          (Runs-false _ _ (Runs-pure _ refl))

    array_loop-Runs :
        (f elems : ℕ) (p : Parser D)
        → 8 * left p + 2 ≤ f
        → Runs 0 p (array_loop to_double f elems p)
    array_loop-Runs zero elems p h = absurd (omega arith)
    array_loop-Runs (suc f) elems p h = seq-peek _ λ next in_range.
        Runs-when _ _ _ (Runs-pure elems refl) (
          seq _ (parse_expr_prec-Runs f _ p (omega arith)) λ elem q g.
            seq-match t_comma _
              (λ r k. Runs-true _ _ (array_loop-Runs f _ r (omega (arith, g.fewer, k.fewer))))
              (Runs-false _ _ (Runs-pure _ refl)))

    lhs_loop-Runs :
        (f len : ℕ) (p : Parser D) → 8 * left p + 2 ≤ f → Runs 0 p (lhs_loop to_double f len p)
    lhs_loop-Runs zero len p h = absurd (omega arith)
    lhs_loop-Runs (suc f) len p h = seq _ (parse_expr_prec-Runs f _ p (omega arith)) λ target q g.
        seq _ (check_target-Runs target q) λ _ r k. seq _ (check_index-Runs _ _ r) λ _ s l.
          seq-match t_comma _
            (λ v m.
              Runs-true _ _
                (lhs_loop-Runs f _ v (omega (arith, g.fewer, k.fewer, l.fewer, m.fewer))))
            (Runs-false _ _ (Runs-pure _ refl))

    rhs_loop-Runs :
        (f len : ℕ) (p : Parser D) → 8 * left p + 2 ≤ f → Runs 0 p (rhs_loop to_double f len p)
    rhs_loop-Runs zero len p h = absurd (omega arith)
    rhs_loop-Runs (suc f) len p h = seq _ (parse_expr_prec-Runs f _ p (omega arith)) λ _ q g.
        seq-match t_comma _
          (λ r k. Runs-true _ _ (rhs_loop-Runs f _ r (omega (arith, g.fewer, k.fewer))))
          (Runs-false _ _ (Runs-pure _ refl))

    parse_if_expr-Runs :
        (f : ℕ) (p : Parser D) → 8 * left p + 2 ≤ f → Runs 0 p (parse_if_expr to_double f p)
    parse_if_expr-Runs zero p h = absurd (omega arith)
    parse_if_expr-Runs (suc f) p h = seq _ (parse_expr_prec-Runs f _ p (omega arith)) λ cond q g.
        seq _ (skip_newlines-Runs q) λ _ r k. seq _ (expect-Runs _ r) λ _ s l.
          seq _ (parse_block-Runs f _ s (omega (arith, g.fewer, k.fewer, l.fewer))) λ b v m.
            seq _ (parse_else-Runs f v (omega (arith, g.fewer, k.fewer, l.fewer, m.fewer)))
              λ e w n. make-Runs _ _ w tt

    parse_else-Runs :
        (f : ℕ) (p : Parser D) → 8 * left p + 1 ≤ f → Runs 0 p (parse_else to_double f p)
    parse_else-Runs zero p h = absurd (omega arith)
    parse_else-Runs (suc f) p h = seq_from _ (skip_newlines-Runs p) λ _ q g.
        seq-match_from t_else _ g
          (λ r k. Runs-true _ _ (
            seq _ (skip_newlines-Runs r) λ _ s l. seq-peek _ λ next in_range.
              Runs-when _ _ _
                (seq _ (advance-Runs s) λ _ v m.
                  parse_if_expr-Runs f v (omega (arith, g.fewer, k.fewer, l.fewer, m.fewer)))
                (seq _ (expect-Runs _ s) λ _ v m.
                  parse_block-Runs f _ v (omega (arith, g.fewer, k.fewer, l.fewer, m.fewer)))))
          (Runs-false _ _ (seq _ (set_pos-Runs g) λ _ r k. Runs-pure none refl))

    parse_block-Runs :
        (f : ℕ) (block_end : TokenType) (p : Parser D)
        → 8 * left p + 4 ≤ f
        → Runs 0 p (parse_block to_double f block_end p)
    parse_block-Runs zero block_end p h = absurd (omega arith)
    parse_block-Runs (suc f) block_end p h = seq _ (new_node-Runs _ p) λ i q g.
        seq _ (block_loop-Runs f block_end i q (omega (arith, g.fewer)))
          λ _ r k. seq _ (expect-Runs _ r) λ _ s l. Runs-pure (some i) refl

    block_loop-Runs :
        (f : ℕ) (block_end : TokenType) (i : ℕ) (p : Parser D)
        → 8 * left p + 3 ≤ f
        → Runs 0 p (block_loop to_double f block_end i p)
    block_loop-Runs zero block_end i p h = absurd (omega arith)
    block_loop-Runs (suc f) block_end i p h = seq-peek _ λ first in_range.
        Runs-when _ _ _ (Runs-pure tt refl) (
          seq-match_separator _
            (λ q g. Runs-true _ _ (block_loop-Runs f block_end i q (omega (arith, g.fewer))))
            (Runs-false _ _ (
              seq _ (parse_stmt-Runs f p (omega arith)) λ stmt q g.
                seq _ (block_add_stmt-Runs i stmt q) λ _ r k.
                  seq-match_separator _
                    (λ s l.
                      Runs-true _ _ (
                        block_loop-Runs f block_end i s (omega (arith, g.fewer, k.fewer, l.fewer))))
                    (Runs-false _ _ (
                      seq-peek _ λ last _. Runs-when _ _ _ (Runs-pure tt refl) (
                        seq _ (raise_error-Runs r) λ _ s l.
                          block_loop-Runs f block_end i s
                            (omega (arith, g.fewer, k.fewer, l.fewer))))))))

    pub parse_stmt-Runs :
        (f : ℕ) (p : Parser D) → 8 * left p + 2 ≤ f → Runs 1 p (parse_stmt to_double f p)
    parse_stmt-Runs zero p h = absurd (omega arith)
    parse_stmt-Runs (suc f) p h =
        seq-match t_return _
          (λ q g. Runs-true _ _ (
            seq _ (new_node-Runs _ q) λ i r k.
              seq _ (Runs-weak (parse_expr_prec-Runs f _ r (omega (arith, g.fewer, k.fewer))))
                λ e s l. set_node-Runs-pure i _ tt))
          (Runs-false _ _ (
            seq-match t_func _
              (λ q g. Runs-true _ _ (parse_func_decl-Runs f q (omega (arith, g.fewer))))
              (Runs-false _ _ (
                seq-match t_main _
                  (λ q g. Runs-true _ _ (parse_func_decl-Runs f q (omega (arith, g.fewer))))
                  (Runs-false _ _ (
                    seq-match t_var _
                      (λ q g.
                        Runs-true _ _ (parse_const_var_decl-Runs f true q (omega (arith, g.fewer))))
                      (Runs-false _ _ (
                        seq-match t_const _
                          (λ q g.
                            Runs-true _ _
                              (parse_const_var_decl-Runs f false q (omega (arith, g.fewer))))
                          (Runs-false _ _ (parse_expr_prec-Runs f _ p (omega arith)))))))))))

    parse_const_var_decl-Runs :
        (f : ℕ) (is_var : Bool) (p : Parser D)
        → 8 * left p + 2 ≤ f
        → Runs 0 p (parse_const_var_decl to_double f is_var p)
    parse_const_var_decl-Runs zero is_var p h = absurd (omega arith)
    parse_const_var_decl-Runs (suc f) is_var p h = seq _ (new_node-Runs _ p) λ i q g.
        seq _ (advance-Runs q) λ _ r k. seq _ (parse_identifier-Runs r) λ name s l.
          seq-match_any t_equals _ λ has_value v m.
            seq _
              (Runs-when has_value _ _
                (Runs-weak
                  (parse_expr_prec-Runs f _ v (omega (arith, g.fewer, k.fewer, l.fewer, m.fewer))))
                (Runs-pure none refl))
              λ rhs w n. set_node-Runs-pure i _ (declared D is_var name rhs)

    parse_func_decl-Runs :
        (f : ℕ) (p : Parser D) → 8 * left p + 5 ≤ f → Runs 0 p (parse_func_decl to_double f p)
    parse_func_decl-Runs zero p h = absurd (omega arith)
    parse_func_decl-Runs (suc f) p h = seq _ (new_node-Runs _ p) λ i q g. seq-match_any _ _ λ _ r k.
        seq _ (parse_identifier-Runs r) λ name s l. seq _ (parse_params-Runs s) λ params v m.
          seq _ (expect-Runs _ v) λ _ w n.
            seq _
              (parse_block-Runs f _ w (omega (arith, g.fewer, k.fewer, l.fewer, m.fewer, n.fewer)))
              λ body x o. set_node-Runs-pure i _ tt
