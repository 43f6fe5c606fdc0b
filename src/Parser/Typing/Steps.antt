-- ===== src/Parser/Typing/Steps.antt =====
-- src/parser.c: the kinds of nodes, over the utility functions.
use mathlib.Core.Path.{subst}
use tira.Prelude.{
  ℕ, zero, suc, ◌≡◌, refl, sym, Bool, true, false, List, [], ◌∷◌, ◌++◌, Option, none, some, length,
  get_elem?, ltb, leb, Option-cases, Bool-cases, inl, inr,
}
use tira.Token.{TokenType, Token}
use tira.Ast.{ParserNode, ParserNodeKind, zero_node}
use tira.Parser.{
  Parser, Fault, Outcome, ok, fault, M, bind, pure, case_option, when◌then◌else◌, token_at, peek,
  advance, match, token_string, raise_error, previous, expect, new_node, set_node,
  skip_newlines_loop, skip_newlines,
}
use tira.Parser.Typing.{
  kind_of, zero_node-kind_of, KindAt, IsNode, Typed, Grows, Grows-refl, Grows-trans, AreNodes-Grows,
  AreNodes-append, AreNodes-set, Grows-append, KindAt-new, Grows-set, zero_node-IsNode,
}

module _ {D : Type 0} where
  -- A run from `p` that ends has only added nodes, all nodes are well-typed, and the result is as
  -- `P` says of them.
  pub data Gives {A : Type 0} (P : List (ParserNode D) → A → Type 0) (p : Parser D)
      : Outcome D A → Type 0 where
    gives :
        {a : A} {q : Parser D}
        → Grows p.nodes q.nodes
        → Typed q.nodes
        → P q.nodes a
        → Gives P p (ok a q)
    stops : {e : Fault} → Gives P p (fault e)

  -- Nothing is said of the result.
  abbrev pub Any : {A : Type 0} → List (ParserNode D) → A → Type 0
  Any ns a = Unit

  -- So is every run of a function.
  abbrev pub Does : {A : Type 0} → (List (ParserNode D) → A → Type 0) → M D A → Type 0
  Does P m = (p : Parser D) → Typed p.nodes → Gives P p (m p)

  Gives-after :
      {A : Type 0} {P : List (ParserNode D) → A → Type 0} {p q : Parser D} {o : Outcome D A}
      → Grows p.nodes q.nodes
      → Gives P q o
      → Gives P p o
  Gives-after g (gives h t r) = gives (Grows-trans g h) t r
  Gives-after g stops = stops

  -- One step, then the rest.
  pub seq :
      {A B : Type 0} {P : List (ParserNode D) → B → Type 0} {Q : List (ParserNode D) → A → Type 0}
      {p : Parser D} {o : Outcome D B} (f : B → M D A)
      → Gives P p o
      → ((b : B) (q : Parser D)
          → Grows p.nodes q.nodes
          → Typed q.nodes
          → P q.nodes b
          → Gives Q q (f b q))
      → Gives Q p (bind o f)
  seq f (gives {a} {q} g t r) k = Gives-after g (k a q g t r)
  seq f stops k = stops

  module _ {A : Type 0} {P : List (ParserNode D) → A → Type 0} {p : Parser D} where
    pub Gives-pure : (a : A) → Typed p.nodes → P p.nodes a → Gives P p (pure {D = D} a p)
    Gives-pure a t r = gives (Grows-refl p.nodes) t r

    pub Gives-when :
        (b : Bool) (m n : M D A)
        → Gives P p (m p)
        → Gives P p (n p)
        → Gives P p ((when b then m else n) p)
    unfolding when◌then◌else◌
    Gives-when true m n h k = h
    Gives-when false m n h k = k

    pub Gives-option :
        {X : Type 0} (o : Option X) (m : M D A) (f : X → M D A)
        → Gives P p (m p)
        → ((x : X) → Gives P p (f x p))
        → Gives P p (case_option o m f p)
    unfolding case_option
    Gives-option none m f h k = h
    Gives-option (some x) m f h k = k x

  -- A function that leaves the nodes alone.
  pub same_nodes :
      {A : Type 0} {p q : Parser D} (a : A)
      → q.nodes ≡ p.nodes
      → Typed p.nodes
      → Gives Any p (ok a q)
  same_nodes {p} {q} a e t =
      gives (subst (Grows p.nodes) (sym e) (Grows-refl p.nodes)) (subst Typed (sym e) t) tt

  pub token_at-Does : (i : ℕ) → Does Any (token_at i)
  unfolding token_at
  token_at-Does i p t = elim (Option-cases (get_elem? p.tokens i)) [
    | inl e ↦ rw (e, token_at) stops
    | inr (n, e) ↦ rw (e, token_at) (same_nodes n refl t)
  ]

  pub peek-Does : Does Any peek
  unfolding peek
  peek-Does p t = token_at-Does p.pos p t

  pub advance-Does : Does Any advance
  unfolding advance
  advance-Does p t = same_nodes p.pos refl t

  pub match-Does : (k : TokenType) → Does Any (match k)
  unfolding match
  match-Does k p t = seq _ (peek-Does p t) λ n q g u r.
      Gives-when _ _ _ (seq _ (advance-Does q u) λ _ s h v w. Gives-pure true v tt)
        (Gives-pure false u tt)

  pub token_string-Does : (n : Token) → Does Any (token_string n)
  unfolding token_string
  token_string-Does n p t = same_nodes _ refl t

  pub raise_error-Does : Does Any raise_error
  unfolding raise_error
  raise_error-Does p t = seq _ (peek-Does p t) λ n q g u r. same_nodes tt refl u

  pub previous-Does : Does Any previous
  unfolding previous
  previous-Does p t = elim (Bool-cases (ltb 0 p.pos)) [
    | inl e ↦ rw e (token_at-Does _ p t)
    | inr e ↦ rw e stops
  ]

  pub expect-Does : (k : TokenType) → Does Any (expect k)
  unfolding expect
  expect-Does k p t = seq _ (peek-Does p t) λ n q g u r.
      Gives-when _ _ _ (seq _ (raise_error-Does q u) λ _ s h v w. Gives-pure none v tt)
        (seq _ (advance-Does q u) λ i s h v w. Gives-pure (some i) v tt)

  -- A new node has the kind that is asked for.
  pub new_node-Does : (k : ParserNodeKind) → Does (λ ns i. KindAt ns i k) (new_node k)
  unfolding new_node
  new_node-Does k p t =
      let grown = Grows-append p.nodes (zero_node k) in
      elim (Bool-cases (leb p.node_cap (length p.nodes))) [
        | inl full ↦ rw full (seq _ (raise_error-Does p t) λ _ q g u r. stops)
        | inr room ↦ rw room (
            gives grown
              (AreNodes-append _ p.nodes (zero_node k) (AreNodes-Grows grown p.nodes t)
                (zero_node-IsNode _ k))
              (subst (KindAt (p.nodes ++ zero_node k ∷ []) (length p.nodes)) (zero_node-kind_of D k)
                (KindAt-new p.nodes (zero_node k))))
      ]

  pub set_node-Does :
      (i : ℕ) (n : ParserNode D) (p : Parser D)
      → Typed p.nodes
      → KindAt p.nodes i (kind_of n)
      → IsNode p.nodes n
      → Gives Any p (set_node i n p)
  unfolding set_node
  set_node-Does i n p t e h =
      let grown = Grows-set p.nodes i n e in
      gives grown (AreNodes-Grows grown _ (AreNodes-set p.nodes p.nodes i n t h)) tt

  skip_newlines_loop-Does : (f : ℕ) → Does Any (skip_newlines_loop f)
  unfolding skip_newlines_loop
  skip_newlines_loop-Does zero p t = stops
  skip_newlines_loop-Does (suc f) p t = seq _ (peek-Does p t) λ n q g u r.
      Gives-when _ _ _ (seq _ (advance-Does q u) λ _ s h v w. skip_newlines_loop-Does f s v)
        (Gives-pure tt u tt)

  pub skip_newlines-Does : Does Any skip_newlines
  unfolding skip_newlines
  skip_newlines-Does p t = skip_newlines_loop-Does _ p t
