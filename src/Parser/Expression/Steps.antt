-- ===== src/Parser/Expression/Steps.antt =====
-- src/parser.c: the steps of the Pratt parser, one at a time, and what they leave of its state.
use tira.Prelude.{
  ℕ, suc, ◌+◌, ◌-◌, ◌≤◌, ◌<◌, ◌≡◌, refl, ap, ◌∙◌, sym, arith, true, false, List, [], ◌∷◌, ◌++◌,
  append_assoc, append-nil, Option, some, Bytes, length, drop, drop-drop, drop-append,
  get_elem?-drop, get_elem?, ltb, leb, lt→ltb,
}
use tira.Token.{Token, TokenType, is_type}
use tira.Ast.{ParserNode, ParserNodeKind, Pointer, zero_node}
use tira.Parser.{
  Parser, ok, bind, token_at, when◌then◌else◌, case_option, peek, advance, expect, previous,
  new_node,
}
use tira.Parser.Rules.{Prefix, Infix, precedence, prefix_rule, infix_rule}
use tira.Parser.Expr.{parse_expr_prec, infix_loop, run_infix, run_prefix}

module _ {D : Type 0} where
  -- The tokens that are not read yet.
  abbrev pub ahead : Parser D → List Token
  ahead p = drop p.pos p.tokens

  -- So many tokens were read, and these nodes made; all else is as it was.
  pub record After (p q : Parser D) (k : ℕ) (ns : List (ParserNode D)) : Type 0 where
    pub same_source : q.source ≡ p.source
    pub same_tokens : q.tokens ≡ p.tokens
    pub same_cap : q.node_cap ≡ p.node_cap
    pub same_errors : q.error_count ≡ p.error_count
    pub further : q.pos ≡ p.pos + k
    pub made : q.nodes ≡ p.nodes ++ ns

  pub After-trans :
      {p q r : Parser D} {k l : ℕ} {ns ms : List (ParserNode D)}
      → After p q k ns
      → After q r l ms
      → After p r (k + l) (ns ++ ms)
  After-trans {p = p} {q} {r} {k} {l} {ns} {ms} a b = record {
    same_source = b.same_source ∙ a.same_source;
    same_tokens = b.same_tokens ∙ a.same_tokens;
    same_cap = b.same_cap ∙ a.same_cap;
    same_errors = b.same_errors ∙ a.same_errors;
    further = omega (arith, a.further, b.further);
    made = b.made ∙ ap (λ x. x ++ ms) a.made ∙ append_assoc p.nodes ns ms;
  }

  -- What is ahead after some tokens were read.
  pub ahead-After :
      {p q : Parser D} {k : ℕ} {ns : List (ParserNode D)} (ts rest : List Token)
      → After p q k ns
      → ahead p ≡ ts ++ rest
      → k ≡ length ts
      → ahead q ≡ rest
  ahead-After {p = p} {q} {k} ts rest a h e =
      ap (λ n. drop n q.tokens) a.further
      ∙ ap (drop (p.pos + k)) a.same_tokens
      ∙ drop-drop p.pos k p.tokens
      ∙ ap (drop k) h
      ∙ ap (λ n. drop n (ts ++ rest)) e
      ∙ drop-append ts rest

  token_at-some :
      (p : Parser D) (i : ℕ) (t : Token) → get_elem? p.tokens i ≡ some t → token_at i p ≡ ok t p
  unfolding token_at
  token_at-some p i t h = rw (h, token_at) refl

  abbrev pub passed : Parser D → Parser D
  passed p = record p { pos = p.pos + 1 }

  pub passed-After : (p : Parser D) → After p (passed p) 1 []
  passed-After p = record {
    same_source = refl;
    same_tokens = refl;
    same_cap = refl;
    same_errors = refl;
    further = refl;
    made = sym (append-nil p.nodes);
  }

  pub peek-next :
      (p : Parser D) (t : Token) (rest : List Token) → ahead p ≡ t ∷ rest → peek p ≡ ok t p
  unfolding peek
  peek-next p t rest h = token_at-some p p.pos t (get_elem?-drop p.pos p.tokens rest t h)

  -- The token that was read last.
  pub previous-passed :
      (p : Parser D) (t : Token) (rest : List Token)
      → ahead p ≡ t ∷ rest
      → previous (passed p) ≡ ok t (passed p)
  unfolding previous
  previous-passed p t rest h =
      let moved : ltb 0 (p.pos + 1) ≡ true = lt→ltb 0 (p.pos + 1) (omega arith) in
      let same : p.pos + 1 - 1 ≡ p.pos = omega arith in
      rw (moved, same) (token_at-some (passed p) p.pos t (get_elem?-drop p.pos p.tokens rest t h))

  module _ (to_double : Bytes → Option D) where
    pub parse_expr_prec-rule :
        (f prec : ℕ) (p : Parser D) (t : Token) (rest : List Token) (rule : Prefix)
        → ahead p ≡ t ∷ rest
        → prefix_rule t.type ≡ some rule
        → parse_expr_prec to_double (suc f) prec p
          ≡ bind (run_prefix to_double f rule (passed p)) (λ lhs. infix_loop to_double f prec lhs)
    unfolding parse_expr_prec advance case_option
    parse_expr_prec-rule f prec p t rest rule h e =
        rw (token_at-some (passed p) p.pos t (get_elem?-drop p.pos p.tokens rest t h))
          (rw (e, case_option) refl)

    pub infix_loop-rule :
        (f prec : ℕ) (lhs : Pointer) (p : Parser D) (t : Token) (rest : List Token) (rule : Infix)
        → ahead p ≡ t ∷ rest
        → prec < precedence t.type
        → infix_rule t.type ≡ some rule
        → infix_loop to_double (suc f) prec lhs p
          ≡ bind
              (run_infix to_double f rule lhs (passed p))
              (λ next. infix_loop to_double f prec next)
    unfolding infix_loop advance when◌then◌else◌ case_option
    infix_loop-rule f prec lhs p t rest rule h higher e =
        rw (peek-next p t rest h)
          (rw (lt→ltb prec (precedence t.type) higher) (rw (e, case_option) refl))

    pub infix_loop-ends :
        (f prec : ℕ) (lhs : Pointer) (p : Parser D) (t : Token) (rest : List Token)
        → ahead p ≡ t ∷ rest
        → precedence t.type ≤ prec
        → infix_loop to_double (suc f) prec lhs p ≡ ok lhs p
    unfolding infix_loop when◌then◌else◌
    infix_loop-ends f prec lhs p t rest h low =
        let stops : ltb prec (precedence t.type) ≡ false = ground (arith, low) in
        rw (peek-next p t rest h) (rw stops refl)

  pub expect-next :
      (p : Parser D) (ty : TokenType) (t : Token) (rest : List Token)
      → ahead p ≡ t ∷ rest
      → is_type t.type ty ≡ true
      → expect ty p ≡ ok (some p.pos) (passed p)
  unfolding expect advance when◌then◌else◌
  expect-next p ty t rest h e = rw (peek-next p t rest h) (rw e refl)

  -- A node made of a kind, and then filled.
  abbrev pub with_node : ParserNodeKind → Parser D → Parser D
  with_node k p = record p { nodes = p.nodes ++ zero_node k ∷ [] }

  pub new_node-room :
      (k : ParserNodeKind) (p : Parser D)
      → length p.nodes < p.node_cap
      → new_node k p ≡ ok (length p.nodes) (with_node k p)
  unfolding new_node
  new_node-room k p h =
      let room : leb p.node_cap (length p.nodes) ≡ false = ground (arith, h) in rw room refl
