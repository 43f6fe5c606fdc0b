-- ===== src/Parser/Typing/Expr.antt =====
-- src/parser.c: the kinds of nodes, over the recursive parts of the grammar, whatever the fuel.
use tira.Prelude.{ℕ, zero, suc, Bool, true, false, Option, none, some, Bytes, if◌then◌else◌}
use tira.Token.{TokenType, t_equals, t_return, t_func, t_main, t_var, t_const}
use tira.Ast.{
  Pointer, node_block, node_identifier, node_if_expr, node_var_decl, node_const_decl, var_decl,
  const_decl, array_literal, unary, for_expr, func_call, index, binary_op, binop_invalid, ternary,
  range, assignment, if_expr, return, func_decl,
}
use tira.Parser.{Parser, pure, set_node, ◌>>◌, when◌then◌else◌}
use tira.Parser.Rules.{Prefix, Infix, prefix_rule, infix_rule}
use tira.Parser.Expr.{
  parse_expr_prec, infix_loop, run_prefix, run_infix, args_loop, array_loop, lhs_loop, rhs_loop,
  parse_if_expr, parse_else, parse_block, block_loop, parse_stmt, parse_const_var_decl,
  parse_func_decl,
}
use tira.Parser.Typing.{
  KindAt, Points, IsA, IsElse, else_block, else_if, Typed, Grows-trans, Points-Grows, IsA-Grows,
  IsElse-Grows,
}
use tira.Parser.Typing.Steps.{
  Gives, stops, Any, Does, seq, Gives-pure, Gives-when, Gives-option, peek-Does, advance-Does,
  token_at-Does, match-Does, raise_error-Does, previous-Does, expect-Does, new_node-Does,
  skip_newlines-Does,
}
use tira.Parser.Typing.Parts.{
  Gives-map, IsA-Points, fill_expr, make-Does, parse_number-Does, parse_string-Does, parse_nil-Does,
  parse_bool-Does, parse_identifier-Does, parse_identifier-Points, parse_dot-Does,
  parse_params-Does, check_target-Does, check_index-Does, make_multi_assign-Does,
  block_add_stmt-Does, match_separator-Does, set_pos-Does,
}

module _ {D : Type 0} (to_double : Bytes → Option D) where
  -- A declaration of either kind.
  declare :
      (is_var : Bool) (i : ℕ) (name rhs : Pointer) (p : Parser D)
      → Typed p.nodes
      → KindAt p.nodes i (if is_var then node_var_decl else node_const_decl)
      → IsA p.nodes node_identifier name
      → Points p.nodes rhs
      → Gives Points p (
          (set_node i (if is_var then var_decl name rhs else const_decl name rhs) >> pure (some i))
            p)
  declare true i name rhs p t e n r = fill_expr i (var_decl name rhs) p t e (n, r)
  declare false i name rhs p t e n r = fill_expr i (const_decl name rhs) p t e (n, r)

  mutual
    unfolding parse_expr_prec

    parse_expr_prec-Does : (f prec : ℕ) → Does {D = D} Points (parse_expr_prec to_double f prec)
    parse_expr_prec-Does zero prec p t = stops
    parse_expr_prec-Does (suc f) prec p t = seq _ (advance-Does p t) λ i q g u _.
        seq _ (token_at-Does i q u) λ token r h v _.
          Gives-option (prefix_rule token.type) _ _
            (seq _ (raise_error-Does r v) λ _ s k w _. Gives-pure none w tt)
            (λ rule.
              seq _ (run_prefix-Does f rule r v) λ lhs s k w l. infix_loop-Does f prec lhs s w l)

    infix_loop-Does :
        (f prec : ℕ) (lhs : Pointer) (p : Parser D)
        → Typed p.nodes
        → Points p.nodes lhs
        → Gives Points p (infix_loop to_double f prec lhs p)
    infix_loop-Does zero prec lhs p t l = stops
    infix_loop-Does (suc f) prec lhs p t l = seq _ (peek-Does p t) λ token q g u _.
        let m = Points-Grows g lhs l in
        Gives-when _ _ _
          (seq _ (advance-Does q u) λ _ r h v _.
            Gives-option (infix_rule token.type) _ _ stops (λ rule.
              seq _ (run_infix-Does f rule lhs r v (Points-Grows h lhs m))
                λ next s k w n. infix_loop-Does f prec next s w n))
          (Gives-pure lhs u m)

    run_prefix-Does : (f : ℕ) (rule : Prefix) → Does {D = D} Points (run_prefix to_double f rule)
    run_prefix-Does zero rule p t = stops
    run_prefix-Does (suc f) Prefix.parse_number p t = parse_number-Does to_double p t
    run_prefix-Does (suc f) Prefix.parse_string p t = parse_string-Does p t
    run_prefix-Does (suc f) Prefix.parse_identifier p t = parse_identifier-Points p t
    run_prefix-Does (suc f) Prefix.parse_nil p t = parse_nil-Does p t
    run_prefix-Does (suc f) Prefix.parse_bool p t = parse_bool-Does p t
    run_prefix-Does (suc f) Prefix.parse_grouping p t =
        seq _ (parse_expr_prec-Does f _ p t) λ expr q g u e.
          seq _ (expect-Does _ q u) λ _ r h v _. Gives-pure expr v (Points-Grows h expr e)
    run_prefix-Does (suc f) Prefix.parse_array_lit p t = seq _ (new_node-Does _ p t) λ i q g u e.
        seq _ (array_loop-Does f 0 q u) λ elems r h v _.
          seq _ (match-Does _ r v) λ repeated s k w _.
            seq {P = Points} _
              (Gives-when repeated _ _
                (seq _ (Gives-when _ _ _ (Gives-pure tt w tt) (raise_error-Does s w))
                  λ _ x l y _. parse_expr_prec-Does f _ x y)
                (Gives-pure none w tt))
              λ len x l y n. seq _ (expect-Does _ x y) λ _ z m a _.
                let later = Grows-trans k (Grows-trans l m) in
                fill_expr i (array_literal elems len) z a (later.keeps i _ (h.keeps i _ e))
                  (Points-Grows m len n)
    run_prefix-Does (suc f) Prefix.parse_unary p t = seq _ (new_node-Does _ p t) λ i q g u e.
        seq _ (previous-Does q u) λ op r h v _.
          seq _ (parse_expr_prec-Does f _ r v)
            λ expr s k w x. fill_expr i (unary op.type expr) s w (k.keeps i _ (h.keeps i _ e)) x
    run_prefix-Does (suc f) Prefix.parse_if_expr p t =
        Gives-map (IsA-Points node_if_expr) (parse_if_expr-Does f p t)
    run_prefix-Does (suc f) Prefix.parse_for_expr p t =
        seq _ (parse_identifier-Does p t) λ ident q g u id. seq _ (advance-Does q u) λ _ r h v _.
          seq _ (expect-Does _ r v) λ _ s k w _. seq _ (parse_expr_prec-Does f _ s w) λ e x l y n.
            seq _ (expect-Does _ x y) λ _ z m a _. seq _ (parse_block-Does f _ z a) λ _ b o c _.
              let later = Grows-trans m o in
              let whole = Grows-trans h (Grows-trans k (Grows-trans l later)) in
              Gives-map (IsA-Points _) (
                make-Does (for_expr ident e) b c
                  (IsA-Grows whole _ ident id, Points-Grows later e n)
                  (λ d more. (
                    IsA-Grows (Grows-trans whole more) _ ident id,
                    Points-Grows (Grows-trans later more) e n,
                  )))

    run_infix-Does :
        (f : ℕ) (rule : Infix) (lhs : Pointer) (p : Parser D)
        → Typed p.nodes
        → Points p.nodes lhs
        → Gives Points p (run_infix to_double f rule lhs p)
    run_infix-Does zero rule lhs p t l = stops
    run_infix-Does (suc f) Infix.parse_call lhs p t l = seq _ (new_node-Does _ p t) λ i q g u e.
        seq _ (peek-Does q u) λ next r h v _.
          seq {P = Any} _ (Gives-when _ _ _ (Gives-pure 0 v tt) (args_loop-Does f 0 r v))
            λ args s k w _. seq _ (expect-Does _ s w) λ _ x m y _.
              let later = Grows-trans h (Grows-trans k m) in
              fill_expr i (func_call lhs args) x y (later.keeps i _ e)
                (Points-Grows (Grows-trans g later) lhs l)
    run_infix-Does (suc f) Infix.parse_index lhs p t l = seq _ (new_node-Does _ p t) λ i q g u e.
        seq _ (parse_expr_prec-Does f _ q u) λ at_index r h v n.
          seq _ (expect-Does _ r v) λ _ s k w _.
            let later = Grows-trans h k in
            fill_expr i (index lhs at_index) s w (later.keeps i _ e)
              (Points-Grows (Grows-trans g later) lhs l, Points-Grows k at_index n)
    run_infix-Does (suc f) Infix.parse_comma lhs p t l = seq _ (lhs_loop-Does f 1 p t) λ n q g u _.
        seq _ (expect-Does _ q u)
          λ _ r h v _. seq _ (rhs_loop-Does f 0 r v) λ m s k w _. make_multi_assign-Does n m s w
    run_infix-Does (suc f) Infix.parse_binary lhs p t l = seq _ (new_node-Does _ p t) λ i q g u e.
        seq _ (parse_expr_prec-Does f _ q u) λ rhs r h v n.
          fill_expr i (binary_op binop_invalid lhs rhs) r v (h.keeps i _ e)
            (Points-Grows (Grows-trans g h) lhs l, n)
    run_infix-Does (suc f) Infix.parse_ternary lhs p t l = seq _ (new_node-Does _ p t) λ i q g u e.
        seq _ (parse_expr_prec-Does f _ q u) λ then_expr r h v n.
          seq _ (expect-Does _ r v) λ _ s k w _.
            seq _ (parse_expr_prec-Does f _ s w) λ else_expr x m y o.
              let later = Grows-trans k m in
              fill_expr i (ternary lhs then_expr else_expr) x y (later.keeps i _ (h.keeps i _ e)) (
                Points-Grows (Grows-trans g (Grows-trans h later)) lhs l,
                Points-Grows later then_expr n,
                o,
              )
    run_infix-Does (suc f) Infix.parse_range lhs p t l = seq _ (new_node-Does _ p t) λ i q g u e.
        seq _ (previous-Does q u) λ op r h v _. seq _ (parse_expr_prec-Does f _ r v) λ rhs s k w n.
          let later = Grows-trans h k in
          fill_expr i (range lhs rhs _) s w (later.keeps i _ e)
            (Points-Grows (Grows-trans g later) lhs l, n)
    run_infix-Does (suc f) Infix.parse_dot lhs p t l = parse_dot-Does lhs p t l
    run_infix-Does (suc f) Infix.parse_assign lhs p t l = seq _ (new_node-Does _ p t) λ i q g u e.
        seq _ (parse_expr_prec-Does f _ q u) λ rhs r h v n.
          fill_expr i (assignment lhs rhs) r v (h.keeps i _ e)
            (Points-Grows (Grows-trans g h) lhs l, n)

    args_loop-Does : (f args : ℕ) → Does {D = D} Any (args_loop to_double f args)
    args_loop-Does zero args p t = stops
    args_loop-Does (suc f) args p t = seq _ (parse_expr_prec-Does f _ p t) λ _ q g u _.
        seq _ (match-Does _ q u)
          λ comma r h v _. Gives-when comma _ _ (args_loop-Does f _ r v) (Gives-pure _ v tt)

    array_loop-Does : (f elems : ℕ) → Does {D = D} Any (array_loop to_double f elems)
    array_loop-Does zero elems p t = stops
    array_loop-Does (suc f) elems p t = seq _ (peek-Does p t) λ next o d b _.
        Gives-when _ _ _ (Gives-pure elems b tt) (
          seq _ (parse_expr_prec-Does f _ o b) λ _ q g u _.
            seq _ (match-Does _ q u)
              λ comma r h v _. Gives-when comma _ _ (array_loop-Does f _ r v) (Gives-pure _ v tt))

    lhs_loop-Does : (f len : ℕ) → Does {D = D} Any (lhs_loop to_double f len)
    lhs_loop-Does zero len p t = stops
    lhs_loop-Does (suc f) len p t = seq _ (parse_expr_prec-Does f _ p t) λ target q g u _.
        seq _ (check_target-Does target q u) λ _ r h v _.
          seq _ (check_index-Does _ _ r v) λ _ s k w _.
            seq _ (match-Does _ s w)
              λ comma x l y _. Gives-when comma _ _ (lhs_loop-Does f _ x y) (Gives-pure _ y tt)

    rhs_loop-Does : (f len : ℕ) → Does {D = D} Any (rhs_loop to_double f len)
    rhs_loop-Does zero len p t = stops
    rhs_loop-Does (suc f) len p t = seq _ (parse_expr_prec-Does f _ p t) λ _ q g u _.
        seq _ (match-Does _ q u)
          λ comma r h v _. Gives-when comma _ _ (rhs_loop-Does f _ r v) (Gives-pure _ v tt)

    parse_if_expr-Does :
        (f : ℕ) → Does {D = D} (λ ns r. IsA ns node_if_expr r) (parse_if_expr to_double f)
    parse_if_expr-Does zero p t = stops
    parse_if_expr-Does (suc f) p t = seq _ (parse_expr_prec-Does f _ p t) λ c q g u n.
        seq _ (skip_newlines-Does q u) λ _ r h v _. seq _ (expect-Does _ r v) λ _ s k w _.
          seq _ (parse_block-Does f _ s w) λ b x l y bl. seq _ (parse_else-Does f x y) λ e z m a el.
            let later = Grows-trans h (Grows-trans k (Grows-trans l m)) in
            make-Does (if_expr c b e) z a (Points-Grows later c n, IsA-Grows m _ b bl, el)
              (λ d more. (
                Points-Grows (Grows-trans later more) c n,
                IsA-Grows (Grows-trans m more) _ b bl,
                IsElse-Grows more e el,
              ))

    parse_else-Does : (f : ℕ) → Does {D = D} IsElse (parse_else to_double f)
    parse_else-Does zero p t = stops
    parse_else-Does (suc f) p t = seq _ (skip_newlines-Does p t) λ _ q g u _.
        seq _ (match-Does _ q u) λ has_else r h v _.
          Gives-when has_else _ _
            (seq _ (skip_newlines-Does r v) λ _ s k w _. seq _ (peek-Does s w) λ next x l y _.
              Gives-when _ _ _
                (seq _ (advance-Does x y)
                  λ _ z m a _. Gives-map (λ ns r. else_if) (parse_if_expr-Does f z a))
                (seq _ (expect-Does _ x y)
                  λ _ z m a _. Gives-map (λ ns r. else_block) (parse_block-Does f _ z a)))
            (seq _ (set_pos-Does _ r v) λ _ s k w _. Gives-pure none w (else_block tt))

    parse_block-Does :
        (f : ℕ) (block_end : TokenType)
        → Does {D = D} (λ ns r. IsA ns node_block r) (parse_block to_double f block_end)
    parse_block-Does zero block_end p t = stops
    parse_block-Does (suc f) block_end p t = seq _ (new_node-Does _ p t) λ i q g u e.
        seq _ (block_loop-Does f block_end i q u) λ _ r h v _.
          seq _ (expect-Does _ r v) λ _ s k w _. Gives-pure (some i) w (k.keeps i _ (h.keeps i _ e))

    block_loop-Does :
        (f : ℕ) (block_end : TokenType) (i : ℕ)
        → Does {D = D} Any (block_loop to_double f block_end i)
    block_loop-Does zero block_end i p t = stops
    block_loop-Does (suc f) block_end i p t = seq _ (peek-Does p t) λ first q g u _.
        Gives-when _ _ _ (Gives-pure tt u tt) (
          seq _ (match_separator-Does q u) λ blank r h v _.
            Gives-when blank _ _ (block_loop-Does f block_end i r v) (
              seq _ (parse_stmt-Does f r v) λ stmt s k w st.
                seq _ (block_add_stmt-Does i stmt s w st) λ _ x l y _.
                  seq _ (match_separator-Does x y) λ separated z m a _.
                    Gives-when separated _ _ (block_loop-Does f block_end i z a) (
                      seq _ (peek-Does z a) λ last b n c _. Gives-when _ _ _ (Gives-pure tt c tt) (
                        seq _ (raise_error-Does b c)
                          λ _ d o j _. block_loop-Does f block_end i d j))))

    pub parse_stmt-Does : (f : ℕ) → Does {D = D} Points (parse_stmt to_double f)
    parse_stmt-Does zero p t = stops
    parse_stmt-Does (suc f) p t = seq _ (match-Does t_return p t) λ is_return q g u _.
        Gives-when is_return _ _
          (seq _ (new_node-Does _ q u) λ i r h v e.
            seq _ (parse_expr_prec-Does f _ r v)
              λ x s k w n. fill_expr i (return x) s w (k.keeps i _ e) n)
          (seq _ (match-Does t_func q u) λ is_func r h v _.
            Gives-when is_func _ _ (parse_func_decl-Does f r v) (
              seq _ (match-Does t_main r v) λ is_main s k w _.
                Gives-when is_main _ _ (parse_func_decl-Does f s w) (
                  seq _ (match-Does t_var s w) λ is_var x l y _.
                    Gives-when is_var _ _ (parse_const_var_decl-Does f true x y) (
                      seq _ (match-Does t_const x y) λ is_const z m a _.
                        Gives-when is_const _ _ (parse_const_var_decl-Does f false z a)
                          (parse_expr_prec-Does f _ z a)))))

    parse_const_var_decl-Does :
        (f : ℕ) (is_var : Bool) → Does {D = D} Points (parse_const_var_decl to_double f is_var)
    parse_const_var_decl-Does zero is_var p t = stops
    parse_const_var_decl-Does (suc f) is_var p t = seq _ (new_node-Does _ p t) λ i q g u e.
        seq _ (advance-Does q u) λ _ r h v _. seq _ (parse_identifier-Does r v) λ name s k w id.
          seq _ (match-Does t_equals s w) λ has_value x l y _.
            seq {P = Points} _
              (Gives-when has_value _ _ (parse_expr_prec-Does f _ x y) (Gives-pure none y tt))
              λ rhs z m a n.
                let later = Grows-trans l m in
                declare is_var i name rhs z a (later.keeps i _ (k.keeps i _ (h.keeps i _ e)))
                  (IsA-Grows later _ name id) n

    parse_func_decl-Does : (f : ℕ) → Does {D = D} Points (parse_func_decl to_double f)
    parse_func_decl-Does zero p t = stops
    parse_func_decl-Does (suc f) p t = seq _ (new_node-Does _ p t) λ i q g u e.
        seq _ (match-Does _ q u) λ _ r h v _. seq _ (parse_identifier-Does r v) λ name s k w id.
          seq _ (parse_params-Does s w) λ params x l y _. seq _ (expect-Does _ x y) λ _ z m a _.
            seq _ (parse_block-Does f _ z a) λ body b n c bl.
              let later = Grows-trans l (Grows-trans m n) in
              fill_expr i (func_decl name body params) b c
                (later.keeps i _ (k.keeps i _ (h.keeps i _ e))) (IsA-Grows later _ name id, bl)
