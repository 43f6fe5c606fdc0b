-- ===== src/Parser/Typing/Parts.antt =====
-- src/parser.c: the kinds of nodes, over the parts of the grammar that do not recur.
use tira.Prelude.{
  ℕ, zero, suc, ◌+◌, ◌%◌, ◌^◌, ◌≡◌, refl, ap, true, List, [], ◌∷◌, Option, none, some, Bytes,
  get_elem?,
}
use tira.Ast.{
  ParserNode, ParserNodeKind, Pointer, node_identifier, identifier, number, string, bool, block,
  dot_access,
}
use tira.Parser.{Parser, Outcome, pure, ◌>>◌, set_node}
use tira.Parser.Grammar.{
  number_value, make, parse_number, parse_string, parse_nil, parse_bool, parse_identifier,
  type_name, parse_param, parse_dot, params_loop, parse_params, check_node, check_target,
  check_index, add_to_block, make_multi_assign, block_add_stmt, match_separator, set_pos,
}
use tira.Parser.Typing.{kind_of, KindAt, Points, IsA, IsNode, Typed, Grows, Points-Grows}
use tira.Parser.Typing.Steps.{
  Gives, gives, stops, Any, Does, seq, Gives-pure, Gives-when, Gives-option, same_nodes,
  token_at-Does, peek-Does, advance-Does, match-Does, token_string-Does, raise_error-Does,
  previous-Does, expect-Does, new_node-Does, set_node-Does,
}

module _ {D : Type 0} where
  pub Gives-map :
      {A : Type 0} {P Q : List (ParserNode D) → A → Type 0} {p : Parser D} {o : Outcome D A}
      → ((ns : List (ParserNode D)) (a : A) → P ns a → Q ns a)
      → Gives P p o
      → Gives Q p o
  Gives-map f (gives g t r) = gives g t (f _ _ r)
  Gives-map f stops = stops

  -- A node written, and its pointer returned.
  pub fill :
      (i : ℕ) (n : ParserNode D) (p : Parser D)
      → Typed p.nodes
      → KindAt p.nodes i (kind_of n)
      → IsNode p.nodes n
      → Gives (λ ns r. IsA ns (kind_of n) r) p ((set_node i n >> pure (some i)) p)
  fill i n p t e h =
      seq _ (set_node-Does i n p t e h) λ _ q g u r. Gives-pure (some i) u (g.keeps i _ e)

  pub IsA-Points :
      (k : ParserNodeKind) (ns : List (ParserNode D)) (r : Pointer) → IsA ns k r → Points ns r
  IsA-Points k ns none h = tt
  IsA-Points k ns (some i) h = (k, h)

  -- The same, as a pointer to an expression.
  pub fill_expr :
      (i : ℕ) (n : ParserNode D) (p : Parser D)
      → Typed p.nodes
      → KindAt p.nodes i (kind_of n)
      → IsNode p.nodes n
      → Gives Points p ((set_node i n >> pure (some i)) p)
  fill_expr i n p t e h = Gives-map (IsA-Points (kind_of n)) (fill i n p t e h)

  pub make-Does :
      (n : ParserNode D) (p : Parser D)
      → Typed p.nodes
      → IsNode p.nodes n
      → ((q : Parser D) → Grows p.nodes q.nodes → IsNode q.nodes n)
      → Gives (λ ns r. IsA ns (kind_of n) r) p (make (kind_of n) n p)
  unfolding make
  make-Does n p t h later = seq _ (new_node-Does _ p t) λ i q g u e. fill i n q u e (later q g)

  pub parse_number-Does :
      (to_double : Bytes → Option D) → Does {D = D} Points (parse_number to_double)
  unfolding parse_number
  parse_number-Does to_double p t = seq _ (new_node-Does _ p t) λ i q g u e.
      seq _ (previous-Does q u) λ tok r h v _. seq _ (token_string-Does tok r v) λ s w k x _.
        Gives-option (number_value to_double s) _ _
          (seq _ (raise_error-Does w x)
            λ _ y l z _. Gives-pure (some i) z (_, l.keeps i _ (k.keeps i _ (h.keeps i _ e))))
          (λ n. fill_expr i (number n) w x (k.keeps i _ (h.keeps i _ e)) tt)

  pub parse_string-Does : Does {D = D} Points parse_string
  unfolding parse_string
  parse_string-Does p t = seq _ (new_node-Does _ p t) λ i q g u e.
      seq _ (previous-Does q u) λ tok r h v _.
        seq _ (token_string-Does tok r v)
          λ s w k x _. fill_expr i (string s) w x (k.keeps i _ (h.keeps i _ e)) tt

  pub parse_nil-Does : Does {D = D} Points parse_nil
  unfolding parse_nil
  parse_nil-Does p t = seq _ (new_node-Does _ p t) λ i q g u e. Gives-pure (some i) u (_, e)

  pub parse_bool-Does : Does {D = D} Points parse_bool
  unfolding parse_bool
  parse_bool-Does p t = seq _ (new_node-Does _ p t) λ i q g u e.
      seq _ (previous-Does q u) λ tok r h v _. fill_expr i (bool _) r v (h.keeps i _ e) tt

  pub parse_identifier-Does : Does {D = D} (λ ns r. IsA ns node_identifier r) parse_identifier
  unfolding parse_identifier
  parse_identifier-Does p t = seq _ (new_node-Does _ p t) λ i q g u e.
      seq _ (previous-Does q u) λ tok r h v _.
        seq _ (token_string-Does tok r v)
          λ s w k x _. fill i (identifier s) w x (k.keeps i _ (h.keeps i _ e)) tt

  pub parse_identifier-Points : Does {D = D} Points parse_identifier
  parse_identifier-Points p t = Gives-map (IsA-Points node_identifier) (parse_identifier-Does p t)

  pub parse_dot-Does :
      (lhs : Pointer) (p : Parser D)
      → Typed p.nodes
      → Points p.nodes lhs
      → Gives Points p (parse_dot lhs p)
  unfolding parse_dot
  parse_dot-Does lhs p t l = seq _ (new_node-Does _ p t) λ i q g u e.
      seq _ (expect-Does _ q u) λ m r h v _.
        fill_expr i (dot_access lhs m) r v (h.keeps i _ e)
          (Points-Grows h lhs (Points-Grows g lhs l))

  type_name-Does : (o : Option ℕ) → Does {D = D} Any (type_name o)
  unfolding type_name
  type_name-Does none p t = stops
  type_name-Does (some i) p t = seq _ (token_at-Does i p t) λ n q g u r. token_string-Does n q u

  parse_param-Does : Does {D = D} Any parse_param
  unfolding parse_param
  parse_param-Does p t = seq _ (advance-Does p t) λ i q g u _.
      seq _ (token_at-Does i q u) λ tok r h v _. seq _ (token_string-Does tok r v) λ s w k x _.
        seq _ (match-Does _ w x) λ colon y l z _.
          Gives-when colon _ _
            (seq _ (expect-Does _ y z)
              λ o a m b _. seq _ (type_name-Does o a b) λ name c n d _. Gives-pure _ d tt)
            (Gives-pure _ z tt)

  params_loop-Does : (f : ℕ) (params : ℕ) → Does {D = D} Any (params_loop f params)
  unfolding params_loop
  params_loop-Does zero params p t = stops
  params_loop-Does (suc f) params p t = seq _ (parse_param-Does p t) λ param q g u _.
      seq _ (match-Does _ q u)
        λ comma r h v _. Gives-when comma _ _ (params_loop-Does f _ r v) (Gives-pure _ v tt)

  pub parse_params-Does : Does {D = D} Any parse_params
  unfolding parse_params
  parse_params-Does p t = seq _ (peek-Does p t) λ n q g u _.
      Gives-when _ _ _
        (seq _ (advance-Does q u) λ _ r h v _.
          seq _ (params_loop-Does _ 0 r v)
            λ params s k w _. seq _ (expect-Does _ s w) λ _ x l y _. Gives-pure params y tt)
        (Gives-pure 0 u tt)

  check_node-Does : (n : Option (ParserNode D)) → Does {D = D} Any (check_node n)
  unfolding check_node
  check_node-Does none p t = stops
  check_node-Does (some (identifier s)) p t = same_nodes tt refl t
  check_node-Does (some _) p t = raise_error-Does p t

  pub check_target-Does : (target : Pointer) → Does {D = D} Any (check_target target)
  unfolding check_target
  check_target-Does none p t = stops
  check_target-Does (some i) p t = check_node-Does (get_elem? p.nodes i) p t

  pub check_index-Does : (room i : ℕ) → Does {D = D} Any (check_index room i)
  unfolding check_index
  check_index-Does room i p t = Gives-when _ _ _ (Gives-pure tt t tt) stops

  pub make_multi_assign-Does : (n m : ℕ) → Does {D = D} Points (make_multi_assign n m)
  unfolding make_multi_assign
  make_multi_assign-Does n m p t =
      Gives-when _ _ _ (seq _ (raise_error-Does p t) λ _ q g u _. Gives-pure none u tt)
        (Gives-map (IsA-Points _) (make-Does _ p t tt (λ q g. tt)))

  same_node : {m n : ParserNode D} → some m ≡ some n → m ≡ n
  same_node e = cc

  KindAt-at :
      (ns : List (ParserNode D)) (i : ℕ) {n : ParserNode D}
      → get_elem? ns i ≡ some n
      → KindAt ns i (kind_of n)
  KindAt-at [] i e = absurd cc
  KindAt-at (m ∷ ns) zero e = ap kind_of (same_node e)
  KindAt-at (m ∷ ns) (suc i) e = KindAt-at ns i e

  add_to_block-Does :
      (i : ℕ) (stmt : Pointer) (n : Option (ParserNode D)) (p : Parser D)
      → get_elem? p.nodes i ≡ n
      → Typed p.nodes
      → Points p.nodes stmt
      → Gives Any p (add_to_block i stmt n p)
  unfolding add_to_block
  add_to_block-Does i stmt none p e t h = stops
  add_to_block-Does i stmt (some (block n)) p e t h =
      set_node-Does i (block ((n + 1) % 2 ^ 16)) p t (KindAt-at p.nodes i e) tt
  add_to_block-Does i stmt (some _) p e t h = stops

  pub block_add_stmt-Does :
      (i : ℕ) (stmt : Pointer) (p : Parser D)
      → Typed p.nodes
      → Points p.nodes stmt
      → Gives Any p (block_add_stmt i stmt p)
  unfolding block_add_stmt
  block_add_stmt-Does i stmt p t h = add_to_block-Does i stmt _ p refl t h

  pub match_separator-Does : Does {D = D} Any match_separator
  unfolding match_separator
  match_separator-Does p t =
      seq _ (match-Does _ p t)
        λ newline q g u _. Gives-when newline _ _ (Gives-pure true u tt) (match-Does _ q u)

  pub set_pos-Does : (i : ℕ) → Does {D = D} Any (set_pos i)
  unfolding set_pos
  set_pos-Does i p t = same_nodes tt refl t
