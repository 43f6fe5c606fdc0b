-- ===== src/Parser/Expr.antt =====
-- src/parser.c: recursive descent for statements and the Pratt parser for expressions. Every call of
-- a function of the block, and every round of its loops, costs a unit of fuel.
use tira.Prelude.{
  ℕ, zero, suc, ◌+◌, Bool, true, false, Option, none, some, Bytes, ltb, ◌==◌, if◌then◌else◌,
}
use tira.Token.{
  TokenType, is_type, t_ident, t_semicolon, t_colon, t_equals, t_comma, t_dotdoteq, t_lbrace,
  t_rbrace, t_rsqbracket, t_rparen, t_var, t_const, t_func, t_return, t_if, t_else, t_main, t_in,
  t_end,
}
use tira.Ast.{
  Pointer, unary, binary_op, binop_invalid, var_decl, const_decl, assignment, array_literal,
  func_decl, if_expr, return, func_call, index, range, ternary, for_expr, node_binary_op,
  node_unary, node_var_decl, node_const_decl, node_assignment, node_block, node_array_literal,
  node_func_decl, node_if_expr, node_return, node_func_call, node_index, node_range, node_ternary,
  node_for_expr,
}
use tira.Parser.{
  null_read, out_of_fuel, fault, M, pure, stop, ◌>>=◌, ◌>>◌, run, case_option, when◌then◌else◌,
  token_at, peek, advance, match, raise_error, previous, expect, new_node, set_node, skip_newlines,
}
use tira.Parser.Rules.{
  Prefix, Infix, prefix_rule, infix_rule, precedence, prec_comma, prec_assign, prec_ternary,
  prec_range, prec_factor, prec_unary, prec_lowest, prec_highest,
}
use tira.Parser.Grammar.{
  make, parse_number, parse_string, parse_nil, parse_bool, parse_identifier, parse_dot,
  parse_params, check_target, check_index, make_multi_assign, block_add_stmt, match_separator,
  set_pos,
}

module _ {D : Type 0} (to_double : Bytes → Option D) where
  unfoldable mutual
    pub parse_expr_prec : ℕ → ℕ → M D Pointer
    parse_expr_prec zero prec p = fault out_of_fuel
    parse_expr_prec (suc f) prec p = run p do
      i ← advance
      token ← token_at i
      case_option (prefix_rule token.type) (raise_error >> pure none)
          (λ rule. do lhs ← run_prefix f rule; infix_loop f prec lhs)

    -- `while (prec < rules[peek(p)->type].precedence)`; an `infix` that is NULL is called.
    pub infix_loop : ℕ → ℕ → Pointer → M D Pointer
    infix_loop zero prec lhs p = fault out_of_fuel
    infix_loop (suc f) prec lhs p = run p do
      token ← peek
      when ltb prec (precedence token.type)
          then (do
            advance
            case_option (infix_rule token.type) (stop null_read)
                (λ rule. do next ← run_infix f rule lhs; infix_loop f prec next))
          else pure lhs

    pub run_prefix : ℕ → Prefix → M D Pointer
    run_prefix zero rule p = fault out_of_fuel
    run_prefix (suc f) Prefix.parse_number p = parse_number to_double p
    run_prefix (suc f) Prefix.parse_string p = parse_string p
    run_prefix (suc f) Prefix.parse_identifier p = parse_identifier p
    run_prefix (suc f) Prefix.parse_nil p = parse_nil p
    run_prefix (suc f) Prefix.parse_bool p = parse_bool p
    run_prefix (suc f) Prefix.parse_grouping p =
        run p do expr ← parse_expr_prec f prec_lowest; expect t_rparen; pure expr
    run_prefix (suc f) Prefix.parse_array_lit p = run p do
      i ← new_node node_array_literal
      elems ← array_loop f 0
      repeated ← match t_semicolon
      length_expr ←
          (when repeated
            then (do when (elems == 1) then pure tt else raise_error; parse_expr_prec f prec_lowest)
            else pure none)
      expect t_rsqbracket
      set_node i (array_literal elems length_expr)
      pure (some i)
    run_prefix (suc f) Prefix.parse_unary p = run p do
      i ← new_node node_unary
      op ← previous
      expr ← parse_expr_prec f prec_unary
      set_node i (unary op.type expr)
      pure (some i)
    run_prefix (suc f) Prefix.parse_if_expr p = parse_if_expr f p
    run_prefix (suc f) Prefix.parse_for_expr p = run p do
      ident ← parse_identifier
      advance
      expect t_in
      iter_expr ← parse_expr_prec f prec_lowest
      expect t_lbrace
      parse_block f t_rbrace
      make node_for_expr (for_expr ident iter_expr)

    pub run_infix : ℕ → Infix → Pointer → M D Pointer
    run_infix zero rule lhs p = fault out_of_fuel
    run_infix (suc f) Infix.parse_call lhs p = run p do
      i ← new_node node_func_call
      next ← peek
      args ← (when is_type next.type t_rparen then pure 0 else args_loop f 0)
      expect t_rparen
      set_node i (func_call lhs args)
      pure (some i)
    run_infix (suc f) Infix.parse_index lhs p = run p do
      i ← new_node node_index
      at_index ← parse_expr_prec f prec_lowest
      expect t_rsqbracket
      set_node i (index lhs at_index)
      pure (some i)
    run_infix (suc f) Infix.parse_comma lhs p = run p do
      target_count ← lhs_loop f 1
      expect t_equals
      value_count ← rhs_loop f 0
      make_multi_assign target_count value_count
    run_infix (suc f) Infix.parse_binary lhs p = run p do
      i ← new_node node_binary_op
      rhs ← parse_expr_prec f prec_factor
      set_node i (binary_op binop_invalid lhs rhs)
      pure (some i)
    run_infix (suc f) Infix.parse_ternary lhs p = run p do
      i ← new_node node_ternary
      then_expr ← parse_expr_prec f prec_lowest
      expect t_colon
      else_expr ← parse_expr_prec f prec_ternary
      set_node i (ternary lhs then_expr else_expr)
      pure (some i)
    run_infix (suc f) Infix.parse_range lhs p = run p do
      i ← new_node node_range
      op ← previous
      rhs ← parse_expr_prec f prec_range
      set_node i (range lhs rhs (is_type op.type t_dotdoteq))
      pure (some i)
    run_infix (suc f) Infix.parse_dot lhs p = parse_dot lhs p
    run_infix (suc f) Infix.parse_assign lhs p = run p do
      i ← new_node node_assignment
      rhs ← parse_expr_prec f prec_lowest
      set_node i (assignment lhs rhs)
      pure (some i)

    -- The arguments of a call: their number.
    pub args_loop : ℕ → ℕ → M D ℕ
    args_loop zero args p = fault out_of_fuel
    args_loop (suc f) args p = run p do
      parse_expr_prec f prec_comma
      comma ← match t_comma
      when comma then args_loop f (args + 1) else pure (args + 1)

    -- The elements of an array literal: their number; the `]` that ends a list with a trailing comma, or an empty
    -- one, is left.
    pub array_loop : ℕ → ℕ → M D ℕ
    array_loop zero elems p = fault out_of_fuel
    array_loop (suc f) elems p = run p do
      next ← peek
      when is_type next.type t_rsqbracket then pure elems else (do
        parse_expr_prec f prec_highest
        comma ← match t_comma
        when comma then array_loop f (elems + 1) else pure (elems + 1))

    -- `collect_lhs_tuple`: the number of targets. The array has room for one pointer, which is what the
    -- first round asks for; `len++` is done before `nodes[len] = target`.
    pub lhs_loop : ℕ → ℕ → M D ℕ
    lhs_loop zero len p = fault out_of_fuel
    lhs_loop (suc f) len p = run p do
      target ← parse_expr_prec f prec_assign
      check_target target
      check_index len (len + 1)
      comma ← match t_comma
      when comma then lhs_loop f (len + 1) else pure (len + 1)

    -- `collect_rhs_tuple`: the number of values, without their array. No run reaches it, as `lhs_loop`
    -- stops in its first round.
    pub rhs_loop : ℕ → ℕ → M D ℕ
    rhs_loop zero len p = fault out_of_fuel
    rhs_loop (suc f) len p = run p do
      parse_expr_prec f prec_assign
      comma ← match t_comma
      when comma then rhs_loop f (len + 1) else pure (len + 1)

    pub parse_if_expr : ℕ → M D Pointer
    parse_if_expr zero p = fault out_of_fuel
    parse_if_expr (suc f) p = run p do
      cond ← parse_expr_prec f prec_lowest
      skip_newlines
      expect t_lbrace
      then_branch ← parse_block f t_rbrace
      else_branch ← parse_else f
      make node_if_expr (if_expr cond then_branch else_branch)

    -- The `else` branch, behind newlines; without one the position is restored.
    pub parse_else : ℕ → M D Pointer
    parse_else zero p = fault out_of_fuel
    parse_else (suc f) p = run p do
      skip_newlines
      has_else ← match t_else
      when has_else
          then (do
            skip_newlines
            next ← peek
            when is_type next.type t_if
                then (do advance; parse_if_expr f)
                else (do expect t_lbrace; parse_block f t_rbrace))
          else (do set_pos p.pos; pure none)

    pub parse_block : ℕ → TokenType → M D Pointer
    parse_block zero block_end p = fault out_of_fuel
    parse_block (suc f) block_end p =
        run p do i ← new_node node_block; block_loop f block_end i; expect block_end; pure (some i)

    pub block_loop : ℕ → TokenType → ℕ → M D (Unit {0})
    block_loop zero block_end i p = fault out_of_fuel
    block_loop (suc f) block_end i p = run p do
      first ← peek
      when is_type first.type block_end then pure tt else (do
        blank ← match_separator
        when blank then block_loop f block_end i else (do
          stmt ← parse_stmt f
          block_add_stmt i stmt
          separated ← match_separator
          when separated then block_loop f block_end i else (do
            last ← peek
            when is_type last.type block_end
                then pure tt
                else (do raise_error; block_loop f block_end i))))

    pub parse_stmt : ℕ → M D Pointer
    parse_stmt zero p = fault out_of_fuel
    parse_stmt (suc f) p = run p do
      is_return ← match t_return
      when is_return
          then (do
            i ← new_node node_return
            expr ← parse_expr_prec f prec_lowest
            set_node i (return expr)
            pure (some i))
          else (do
            is_func ← match t_func
            when is_func then parse_func_decl f else (do
              is_main ← match t_main
              when is_main then parse_func_decl f else (do
                is_var ← match t_var
                when is_var then parse_const_var_decl f true else (do
                  is_const ← match t_const
                  when is_const
                      then parse_const_var_decl f false
                      else parse_expr_prec f prec_lowest))))

    -- The flag is `type == T_VAR`.
    pub parse_const_var_decl : ℕ → Bool → M D Pointer
    parse_const_var_decl zero is_var p = fault out_of_fuel
    parse_const_var_decl (suc f) is_var p = run p do
      i ← new_node (if is_var then node_var_decl else node_const_decl)
      advance
      name ← parse_identifier
      has_value ← match t_equals
      rhs ← (when has_value then parse_expr_prec f prec_lowest else pure none)
      set_node i (if is_var then var_decl name rhs else const_decl name rhs)
      pure (some i)

    pub parse_func_decl : ℕ → M D Pointer
    parse_func_decl zero p = fault out_of_fuel
    parse_func_decl (suc f) p = run p do
      i ← new_node node_func_decl
      match t_ident
      name ← parse_identifier
      params ← parse_params
      expect t_lbrace
      body ← parse_block f t_rbrace
      set_node i (func_decl name body params)
      pure (some i)

  -- The loop of `parse_program`, over the statements of the node `i`.
  unfoldable pub program_loop : ℕ → ℕ → M D (Unit {0})
  program_loop zero i p = fault out_of_fuel
  program_loop (suc f) i p = run p do
    first ← peek
    when is_type first.type t_end then pure tt else (do
      blank ← match_separator
      when blank then program_loop f i else (do
        stmt ← parse_stmt f
        block_add_stmt i stmt
        last ← peek
        when is_type last.type t_end then pure tt else (do
          separated ← match_separator
          when separated then pure tt else raise_error
          program_loop f i)))

  unfoldable pub parse_program : ℕ → M D (Unit {0})
  parse_program f = do i ← new_node node_block; program_loop f i
