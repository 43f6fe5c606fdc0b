-- ===== src/Parser/Runs.antt =====
-- src/parser.c: what every function of the parser does to its state, and rules for its steps.
use mathlib.Core.Path.{subst}
use tira.Prelude.{
  ℕ, zero, suc, ◌+◌, ◌-◌, ◌≤◌, ◌<◌, ◌≡◌, ◌≢◌, refl, ◌∙◌, sym, Bool, true, false, arith, List, [],
  ◌∷◌, ◌++◌, Option, none, some, length, length-append, get_elem?, get_elem?-lt, set, length-set,
  ltb, leb, if◌then◌else◌, leb→gt, Bool-cases, Option-cases, inl, inr,
}
use tira.Token.{TokenType, Token, is_type}
use tira.Ast.{ParserNode, ParserNodeKind, binop_invalid, binary_op, node_binary_op, zero_node}
use tira.Parser.{
  Parser, Fault, null_read, out_of_fuel, Outcome, ok, fault, M, bind, pure, stop, case_option,
  when◌then◌else◌, token_at, peek, advance, match, token_string, raise_error, previous, expect,
  new_node, set_node, skip_newlines_loop, skip_newlines,
}

-- A binary operation with no operator recorded; any other node.
abbrev pub Untyped : {D : Type 0} → ParserNode D → Type 0
Untyped (binary_op t lhs rhs) = t ≡ binop_invalid
Untyped _ = Unit

zero_node-Untyped : (D : Type 0) (k : ParserNodeKind) → Untyped (zero_node {D = D} k)
unfolding zero_node
zero_node-Untyped D node_binary_op = refl
zero_node-Untyped D _ = tt

module _ {D : Type 0} where
  abbrev pub AllUntyped : List (ParserNode D) → Type 0
  AllUntyped [] = Unit
  AllUntyped (n ∷ ns) = Untyped n × AllUntyped ns

  -- The tokens ahead.
  abbrev pub left : Parser D → ℕ
  left p = length p.tokens - p.pos

  -- From `p` to `q` at least `u` tokens are passed; the text and the tokens stay, nodes are only
  -- added and none gets an operator, the array of nodes does not overflow, and errors are only added.
  pub record Goes (u : ℕ) (p q : Parser D) : Type 0 where
    pub same_source : q.source ≡ p.source
    pub same_tokens : q.tokens ≡ p.tokens
    pub same_cap : q.node_cap ≡ p.node_cap
    pub fewer : left q + u ≤ left p
    pub more_nodes : length p.nodes ≤ length q.nodes
    pub within : length p.nodes ≤ p.node_cap → length q.nodes ≤ q.node_cap
    pub more_errors : p.error_count ≤ q.error_count
    pub untyped : AllUntyped p.nodes → AllUntyped q.nodes

  pub Goes-refl : (p : Parser D) → Goes 0 p p
  Goes-refl p = record {
    same_source = refl;
    same_tokens = refl;
    same_cap = refl;
    fewer = omega arith;
    more_nodes = omega arith;
    within = λ h. h;
    more_errors = omega arith;
    untyped = λ h. h;
  }

  pub Goes-trans : {s u : ℕ} {p q r : Parser D} → Goes s p q → Goes (u - s) q r → Goes u p r
  Goes-trans a b = record {
    same_source = b.same_source ∙ a.same_source;
    same_tokens = b.same_tokens ∙ a.same_tokens;
    same_cap = b.same_cap ∙ a.same_cap;
    fewer = omega (arith, a.fewer, b.fewer);
    more_nodes = omega (arith, a.more_nodes, b.more_nodes);
    within = λ h. b.within (a.within h);
    more_errors = omega (arith, a.more_errors, b.more_errors);
    untyped = λ h. b.untyped (a.untyped h);
  }

  -- The run from `p` passes `u` tokens or stops with a fault that the source has too: it does not
  -- run out of fuel.
  pub data Runs {A : Type 0} (u : ℕ) (p : Parser D) : Outcome D A → Type 0 where
    ends : {a : A} {q : Parser D} → Goes u p q → Runs u p (ok a q)
    faults : {e : Fault} → e ≢ out_of_fuel → Runs u p (fault e)

  pub Runs-after :
      {A : Type 0} {s u : ℕ} {p q : Parser D} {o : Outcome D A}
      → Goes s p q
      → Runs (u - s) q o
      → Runs u p o
  Runs-after g (ends h) = ends (Goes-trans g h)
  Runs-after g (faults n) = faults n

  pub Runs-behind :
      {A : Type 0} {u : ℕ} {p q : Parser D} {o : Outcome D A} → Goes 0 p q → Runs u q o → Runs u p o
  Runs-behind {u} {q} {o} g r =
      let same : u ≡ u - 0 = omega arith in Runs-after g (subst (λ v. Runs v q o) same r)

  pub Runs-weak : {A : Type 0} {s : ℕ} {p : Parser D} {o : Outcome D A} → Runs s p o → Runs 0 p o
  Runs-weak (ends g) = ends (ground (arith, g, g.fewer))
  Runs-weak (faults n) = faults n

  module _ {A : Type 0} {u : ℕ} {p : Parser D} where
    -- One step, then the rest.
    pub seq :
        {B : Type 0} {s : ℕ} {o : Outcome D B} (f : B → M D A)
        → Runs s p o
        → ((b : B) (q : Parser D) → Goes s p q → Runs (u - s) q (f b q))
        → Runs u p (bind o f)
    seq f (ends {a} {q} g) k = Runs-after g (k a q g)
    seq f (faults n) k = faults n

    -- The same, where the rest is judged from the first state.
    pub seq_from :
        {B : Type 0} {s : ℕ} {o : Outcome D B} (f : B → M D A)
        → Runs s p o
        → ((b : B) (q : Parser D) → Goes s p q → Runs u p (f b q))
        → Runs u p (bind o f)
    seq_from f (ends {a} {q} g) k = k a q g
    seq_from f (faults n) k = faults n

    pub stop-Runs : Runs u p (stop {D = D} {A = A} null_read p)
    stop-Runs = faults (λ h. cc)

    pub Runs-pure : (a : A) → u ≡ 0 → Runs u p (pure {D = D} a p)
    Runs-pure a e = ends (subst (λ v. Goes v p p) (sym e) (Goes-refl p))

    pub Runs-when :
        (b : Bool) (m n : M D A)
        → Runs u p (m p)
        → Runs u p (n p)
        → Runs u p ((when b then m else n) p)
    unfolding when◌then◌else◌
    Runs-when true m n hm hn = hm
    Runs-when false m n hm hn = hn

    pub Runs-true :
        {q : Parser D} (m n : M D A) → Runs u p (m q) → Runs u p ((when true then m else n) q)
    unfolding when◌then◌else◌
    Runs-true m n h = h

    pub Runs-false :
        {q : Parser D} (m n : M D A) → Runs u p (n q) → Runs u p ((when false then m else n) q)
    unfolding when◌then◌else◌
    Runs-false m n h = h

    pub Runs-option :
        {X : Type 0} (o : Option X) (m : M D A) (f : X → M D A)
        → Runs u p (m p)
        → ((x : X) → Runs u p (f x p))
        → Runs u p (case_option o m f p)
    unfolding case_option
    Runs-option none m f hm hf = hm
    Runs-option (some x) m f hm hf = hf x

    -- A token read is one of the array.
    pub seq-token_at :
        (i : ℕ) (f : Token → M D A)
        → ((t : Token) → i < length p.tokens → Runs u p (f t p))
        → Runs u p (bind (token_at i p) f)
    unfolding token_at
    seq-token_at i f k = elim (Option-cases (get_elem? p.tokens i)) [
      | inl e ↦ rw (e, token_at) (faults (λ h. cc))
      | inr (t, e) ↦ rw (e, token_at) (k t (get_elem?-lt p.tokens i e))
    ]

    pub seq-peek :
        (f : Token → M D A)
        → ((t : Token) → 0 < left p → Runs u p (f t p))
        → Runs u p (bind (peek p) f)
    unfolding peek
    seq-peek f k = seq-token_at p.pos f (λ t h. k t (omega arith))

    pub seq-previous :
        (f : Token → M D A) → ((t : Token) → Runs u p (f t p)) → Runs u p (bind (previous p) f)
    unfolding previous
    seq-previous f k = elim (Bool-cases (ltb 0 p.pos)) [
      | inl e ↦ rw e (seq-token_at (p.pos - 1) f (λ t h. k t))
      | inr e ↦ rw e (faults (λ h. cc))
    ]

  pub Goes-passed : (p : Parser D) → 0 < left p → Goes 1 p (record p { pos = p.pos + 1 })
  Goes-passed p h = ground (arith, Goes-refl p)

  pub Goes-advance : (p : Parser D) → Goes 0 p (record p { pos = p.pos + 1 })
  Goes-advance p = ground (arith, Goes-refl p)

  module _ {A : Type 0} {u : ℕ} {p : Parser D} where
    pub seq-match :
        (t : TokenType) (f : Bool → M D A)
        → ((q : Parser D) → Goes 1 p q → Runs (u - 1) q (f true q))
        → Runs u p (f false p)
        → Runs u p (bind (match t p) f)
    unfolding match token_at peek when◌then◌else◌ advance
    seq-match t f k h = elim (Option-cases (get_elem? p.tokens p.pos)) [
      | inl e ↦ rw (e, token_at) (faults (λ h. cc))
      | inr (n, e) ↦ elim (Bool-cases (is_type n.type t)) [
        | inl same ↦ rw (e, token_at) (rw same (go (get_elem?-lt p.tokens p.pos e)))
        | inr other ↦ rw (e, token_at) (rw other h)
      ]
    ]
      where
        go : p.pos < length p.tokens → Runs u p (f true (record p { pos = p.pos + 1 }))
        go i = let g = Goes-passed p (omega arith) in Runs-after g (k _ g)

    -- Where nothing hangs on what is matched.
    pub seq-match_any :
        (t : TokenType) (f : Bool → M D A)
        → ((b : Bool) (q : Parser D) → Goes 0 p q → Runs u q (f b q))
        → Runs u p (bind (match t p) f)
    unfolding match token_at peek when◌then◌else◌ advance
    seq-match_any t f k = elim (Option-cases (get_elem? p.tokens p.pos)) [
      | inl e ↦ rw (e, token_at) (faults (λ h. cc))
      | inr (n, e) ↦ elim (Bool-cases (is_type n.type t)) [
        | inl same ↦
            rw (e, token_at) (rw same (Runs-behind (Goes-advance p) (k true _ (Goes-advance p))))
        | inr other ↦ rw (e, token_at) (rw other (k false p (Goes-refl p)))
      ]
    ]

  pub raise_error-Runs : (p : Parser D) → Runs 0 p (raise_error {D = D} p)
  unfolding raise_error
  raise_error-Runs p = seq-peek _ (λ t h. ends (ground (arith, Goes-refl p)))

  pub advance-Runs : (p : Parser D) → Runs 0 p (advance {D = D} p)
  unfolding advance
  advance-Runs p = ends (Goes-advance p)

  pub advance-Runs-inside : (p : Parser D) → 0 < left p → Runs 1 p (advance {D = D} p)
  unfolding advance
  advance-Runs-inside p h = ends (Goes-passed p h)

  pub token_string-Runs : (t : Token) (p : Parser D) → Runs 0 p (token_string {D = D} t p)
  unfolding token_string
  token_string-Runs t p = ends (Goes-refl p)

  pub expect-Runs : (t : TokenType) (p : Parser D) → Runs 0 p (expect {D = D} t p)
  unfolding expect
  expect-Runs t p = seq-peek _ λ n h.
      Runs-when _ _ _ (seq _ (raise_error-Runs p) (λ _ q g. Runs-pure none refl))
        (seq _ (advance-Runs p) (λ i q g. Runs-pure (some i) refl))

  AllUntyped-append :
      (ns : List (ParserNode D)) (n : ParserNode D)
      → AllUntyped ns
      → Untyped n
      → AllUntyped (ns ++ n ∷ [])
  AllUntyped-append [] n h e = (e, tt)
  AllUntyped-append (m ∷ ns) n (a, h) e = (a, AllUntyped-append ns n h e)

  AllUntyped-set :
      (ns : List (ParserNode D)) (i : ℕ) (n : ParserNode D)
      → AllUntyped ns
      → Untyped n
      → AllUntyped (set ns i n)
  AllUntyped-set [] i n h e = tt
  AllUntyped-set (m ∷ ns) zero n (a, h) e = (e, h)
  AllUntyped-set (m ∷ ns) (suc i) n (a, h) e = (a, AllUntyped-set ns i n h e)

  pub new_node-Runs : (k : ParserNodeKind) (p : Parser D) → Runs 0 p (new_node {D = D} k p)
  unfolding new_node
  new_node-Runs k p = elim (Bool-cases (leb p.node_cap (length p.nodes))) [
    | inl full ↦ rw full (seq _ (raise_error-Runs p) (λ _ q g. faults (λ h. cc)))
    | inr room ↦ rw room (
        ends (record {
          same_source = refl;
          same_tokens = refl;
          same_cap = refl;
          fewer = omega arith;
          more_nodes = omega (arith, length-append p.nodes (zero_node k ∷ []));
          within = λ h. omega (arith, leb→gt _ _ room, length-append p.nodes (zero_node k ∷ []));
          more_errors = omega arith;
          untyped = λ h. AllUntyped-append p.nodes (zero_node k) h (zero_node-Untyped D k);
        }))
  ]

  pub set_node-Runs :
      (i : ℕ) (n : ParserNode D) (p : Parser D) → Untyped n → Runs 0 p (set_node i n p)
  unfolding set_node
  set_node-Runs i n p e = ends (record {
    same_source = refl;
    same_tokens = refl;
    same_cap = refl;
    fewer = omega arith;
    more_nodes = omega (arith, length-set p.nodes i n);
    within = λ h. omega (arith, h, length-set p.nodes i n);
    more_errors = omega arith;
    untyped = λ h. AllUntyped-set p.nodes i n h e;
  })

  skip_newlines_loop-Runs : (f : ℕ) (p : Parser D) → left p < f → Runs 0 p (skip_newlines_loop f p)
  unfolding skip_newlines_loop
  skip_newlines_loop-Runs zero p h = absurd (omega arith)
  skip_newlines_loop-Runs (suc f) p h = seq-peek _ λ t in_range.
      Runs-when _ _ _
        (seq _ (advance-Runs-inside p in_range)
          (λ _ q g. skip_newlines_loop-Runs f q (omega (arith, g.fewer))))
        (Runs-pure tt refl)

  pub skip_newlines-Runs : (p : Parser D) → Runs 0 p (skip_newlines {D = D} p)
  unfolding skip_newlines
  skip_newlines-Runs p = skip_newlines_loop-Runs (length p.tokens + 1) p (omega arith)
