-- ===== src/Parser/Parts.antt =====
-- src/parser.c: the parts of the grammar that do not recur come to an end.
use tira.Prelude.{
  ℕ, zero, suc, ◌+◌, ◌-◌, ◌<◌, ◌≡◌, refl, Bool, true, false, arith, Option, none, some, Bytes,
  length, get_elem?, get_elem?-lt, ap, Option-cases, Bool-cases, ◌⊎◌, inl, inr,
}
use tira.Token.{TokenType, Token, is_type, t_newline, t_semicolon}
use tira.Ast.{ParserNode, ParserNodeKind, Pointer, block, identifier, number, string}
use tira.Parser.{
  Parser, ok, fault, M, bind, pure, ◌>>◌, set_node, token_at, advance, match, peek, when◌then◌else◌,
  out_of_tokens,
}
use tira.Parser.Runs.{
  Untyped, left, Goes, Goes-refl, Runs, ends, faults, Runs-after, seq, Runs-pure, Runs-when,
  Runs-option, seq-token_at, seq-peek, seq-previous, seq-match, Goes-passed, raise_error-Runs,
  advance-Runs, token_string-Runs, expect-Runs, new_node-Runs, set_node-Runs, seq-match_any,
  Runs-true, Runs-false,
}
use tira.Parser.Grammar.{
  number_value, make, parse_number, parse_string, parse_nil, parse_bool, parse_identifier,
  type_name, parse_param, parse_dot, params_loop, parse_params, check_node, check_target,
  check_index, add_to_block, make_multi_assign, block_add_stmt, match_separator, set_pos,
}

module _ {D : Type 0} where
  -- A node written, and its pointer returned.
  pub set_node-Runs-pure :
      {p : Parser D} (i : ℕ) (n : ParserNode D)
      → Untyped n
      → Runs 0 p ((set_node i n >> pure (some i)) p)
  set_node-Runs-pure {p} i n e = seq _ (set_node-Runs i n p e) (λ _ q g. Runs-pure (some i) refl)

  pub make-Runs :
      (k : ParserNodeKind) (n : ParserNode D) (p : Parser D) → Untyped n → Runs 0 p (make k n p)
  unfolding make
  make-Runs k n p e = seq _ (new_node-Runs k p) (λ i q g. set_node-Runs-pure i n e)

  pub parse_number-Runs :
      (to_double : Bytes → Option D) (p : Parser D) → Runs 0 p (parse_number to_double p)
  unfolding parse_number
  parse_number-Runs to_double p = seq _ (new_node-Runs _ p) λ i q g. seq-previous _ λ t.
      seq _ (token_string-Runs t q) λ s r h.
        Runs-option (number_value to_double s) _ _
          (seq _ (raise_error-Runs r) (λ _ v k. Runs-pure (some i) refl))
          (λ n. set_node-Runs-pure i (number n) tt)

  pub parse_string-Runs : (p : Parser D) → Runs 0 p (parse_string p)
  unfolding parse_string
  parse_string-Runs p = seq _ (new_node-Runs _ p) λ i q g.
      seq-previous _ λ t. seq _ (token_string-Runs t q) λ s r h. set_node-Runs-pure i (string s) tt

  pub parse_nil-Runs : (p : Parser D) → Runs 0 p (parse_nil p)
  unfolding parse_nil
  parse_nil-Runs p = seq _ (new_node-Runs _ p) λ i q g. Runs-pure (some i) refl

  pub parse_bool-Runs : (p : Parser D) → Runs 0 p (parse_bool p)
  unfolding parse_bool
  parse_bool-Runs p =
      seq _ (new_node-Runs _ p) λ i q g. seq-previous _ λ t. set_node-Runs-pure i _ tt

  pub parse_identifier-Runs : (p : Parser D) → Runs 0 p (parse_identifier p)
  unfolding parse_identifier
  parse_identifier-Runs p = seq _ (new_node-Runs _ p) λ i q g.
      seq-previous _
        λ t. seq _ (token_string-Runs t q) λ s r h. set_node-Runs-pure i (identifier s) tt

  pub parse_dot-Runs : (lhs : Pointer) (p : Parser D) → Runs 0 p (parse_dot lhs p)
  unfolding parse_dot
  parse_dot-Runs lhs p =
      seq _ (new_node-Runs _ p) λ i q g. seq _ (expect-Runs _ q) λ m r h. set_node-Runs-pure i _ tt

  type_name-Runs : (o : Option ℕ) (p : Parser D) → Runs 0 p (type_name o p)
  unfolding type_name
  type_name-Runs none p = faults (λ h. cc)
  type_name-Runs (some i) p = seq-token_at i _ (λ t h. token_string-Runs t p)

  -- A token read where the position was before it was advanced.
  seq-token_at_passed :
      {A : Type 0} {u : ℕ} {p q : Parser D} (f : Token → M D A)
      → q.tokens ≡ p.tokens
      → ((t : Token) → 0 < left p → Runs u p (f t q))
      → Runs u p (bind (token_at p.pos q) f)
  unfolding token_at
  seq-token_at_passed {p} {q} f same k = elim (Option-cases (get_elem? q.tokens p.pos)) [
    | inl e ↦ rw (e, token_at) (faults (λ h. cc))
    | inr (t, e) ↦
        rw (e, token_at) (k t (omega (arith, get_elem?-lt q.tokens p.pos e, ap length same)))
  ]

  parse_param-Runs : (p : Parser D) → Runs 1 p (parse_param p)
  unfolding parse_param advance
  parse_param-Runs p = seq-token_at_passed _ refl λ t h. Runs-after (Goes-passed p h) (
      seq _ (token_string-Runs t _) λ s q g. seq-match_any _ _ λ colon r k.
        (Runs-when colon _ _
          (seq _ (expect-Runs _ r)
            λ type_tok v l. seq _ (type_name-Runs type_tok v) λ name w m. Runs-pure _ refl)
          (Runs-pure _ refl)))

  params_loop-Runs : (f params : ℕ) (p : Parser D) → left p < f → Runs 0 p (params_loop f params p)
  unfolding params_loop
  params_loop-Runs zero params p h = absurd (omega arith)
  params_loop-Runs (suc f) params p h = seq _ (parse_param-Runs p) λ param q g.
      seq-match _ _
        (λ r k. Runs-true _ _ (params_loop-Runs f _ r (omega (arith, g.fewer, k.fewer))))
        (Runs-false _ _ (Runs-pure _ refl))

  -- The token that `advance` passes.
  pub seq-advance :
      {A : Type 0} {u : ℕ} {p : Parser D} (f : Token → M D A)
      → ((t : Token) (q : Parser D) → Goes 1 p q → Runs (u - 1) q (f t q))
      → Runs u p (bind (advance p) (λ i q. bind (token_at i q) f))
  unfolding advance
  seq-advance {p} f k =
      seq-token_at_passed _ refl λ t h. let g = Goes-passed p h in Runs-after g (k t _ g)

  pub parse_params-Runs : (p : Parser D) → Runs 0 p (parse_params p)
  unfolding parse_params
  parse_params-Runs p = seq-peek _ λ t h.
      Runs-when _ _ _
        (seq _ (advance-Runs p) λ i q g.
          seq _ (params_loop-Runs _ 0 q (omega (arith, ap length g.same_tokens)))
            λ params r k. seq _ (expect-Runs _ r) λ m v l. Runs-pure params refl)
        (Runs-pure 0 refl)

  check_node-Runs : (n : Option (ParserNode D)) (p : Parser D) → Runs 0 p (check_node n p)
  unfolding check_node
  check_node-Runs none p = faults (λ h. cc)
  check_node-Runs (some (identifier s)) p = ends (Goes-refl p)
  check_node-Runs (some _) p = raise_error-Runs p

  pub check_target-Runs : (target : Pointer) (p : Parser D) → Runs 0 p (check_target target p)
  unfolding check_target
  check_target-Runs none p = faults (λ h. cc)
  check_target-Runs (some i) p = check_node-Runs (get_elem? p.nodes i) p

  pub check_index-Runs : (room i : ℕ) (p : Parser D) → Runs 0 p (check_index room i p)
  unfolding check_index
  check_index-Runs room i p = Runs-when _ _ _ (Runs-pure tt refl) (faults (λ h. cc))

  pub make_multi_assign-Runs : (n m : ℕ) (p : Parser D) → Runs 0 p (make_multi_assign n m p)
  unfolding make_multi_assign
  make_multi_assign-Runs n m p =
      Runs-when _ _ _ (seq _ (raise_error-Runs p) (λ _ q g. Runs-pure none refl))
        (make-Runs _ _ p tt)

  add_to_block-Runs :
      (i : ℕ) (stmt : Pointer) (n : Option (ParserNode D)) (p : Parser D)
      → Runs 0 p (add_to_block i stmt n p)
  unfolding add_to_block
  add_to_block-Runs i stmt none p = faults (λ h. cc)
  add_to_block-Runs i stmt (some (block stmts)) p = set_node-Runs i _ p tt
  add_to_block-Runs i stmt (some _) p = faults (λ h. cc)

  pub block_add_stmt-Runs :
      (i : ℕ) (stmt : Pointer) (p : Parser D) → Runs 0 p (block_add_stmt i stmt p)
  unfolding block_add_stmt
  block_add_stmt-Runs i stmt p = add_to_block-Runs i stmt (get_elem? p.nodes i) p

  pub set_pos-Runs : {p q : Parser D} → Goes 0 p q → Runs 0 p (set_pos p.pos q)
  unfolding set_pos
  set_pos-Runs {p} {q} g = ends (record {
    same_source = g.same_source;
    same_tokens = g.same_tokens;
    same_cap = g.same_cap;
    fewer = omega (arith, ap length g.same_tokens);
    more_nodes = g.more_nodes;
    within = g.within;
    more_errors = g.more_errors;
    untyped = g.untyped;
  })

  match-cases :
      (t : TokenType) (p : Parser D)
      → ((match t p ≡ ok true (record p { pos = p.pos + 1 })) × (0 < left p))
        ⊎ ((match t p ≡ ok false p) ⊎ (match t p ≡ fault out_of_tokens))
  unfolding match peek token_at advance when◌then◌else◌
  match-cases t p = elim (Option-cases (get_elem? p.tokens p.pos)) [
    | inl e ↦ inr (inr (rw (e, token_at)))
    | inr (n, e) ↦ elim (Bool-cases (is_type n.type t)) [
      | inl same ↦ inl (rw (e, token_at) (rw same), omega (arith, get_elem?-lt p.tokens p.pos e))
      | inr other ↦ inr (inl (rw (e, token_at) (rw other)))
    ]
  ]

  pub seq-match_from :
      {A : Type 0} {p q : Parser D} (t : TokenType) (f : Bool → M D A)
      → Goes 0 p q
      → ((r : Parser D) → Goes 1 q r → Runs 0 r (f true r))
      → Runs 0 p (f false q)
      → Runs 0 p (bind (match t q) f)
  seq-match_from {q} t f g k h = elim (match-cases t q) [
    | inl (e, h₁) ↦ rw e (Runs-after g (let l = Goes-passed q h₁ in Runs-after l (k _ l)))
    | inr (inl e) ↦ rw e h
    | inr (inr e) ↦ rw e (faults (λ x. cc))
  ]

  pub seq-match_separator :
      {A : Type 0} {u : ℕ} {p : Parser D} (f : Bool → M D A)
      → ((q : Parser D) → Goes 1 p q → Runs (u - 1) q (f true q))
      → Runs u p (f false p)
      → Runs u p (bind (match_separator p) f)
  unfolding match_separator when◌then◌else◌
  seq-match_separator {p} f k h = elim (match-cases t_newline p) [
    | inl (e, h₁) ↦ rw e (let g = Goes-passed p h₁ in Runs-after g (k _ g))
    | inr (inl e) ↦ rw e (seq-match t_semicolon f k h)
    | inr (inr e) ↦ rw e (faults (λ x. cc))
  ]
