-- ===== src/Parser/Climb.antt =====
-- src/parser.c: where the precedence climbing of `parse_expr_prec` stops.
use mathlib.Core.Path.{subst}
use tira.Prelude.{
  ℕ, zero, suc, ◌≤◌, ◌≡◌, refl, Bool, true, false, arith, Option, none, some, Bytes, get_elem?, ltb,
  Option-cases, ◌⊎◌, inl, inr,
}
use tira.Token.{Token}
use tira.Ast.{Pointer}
use tira.Parser.{
  Parser, Fault, Outcome, ok, fault, M, bind, token_at, when◌then◌else◌, case_option, peek,
  raise_error, advance,
}
use tira.Parser.Rules.{precedence, prefix_rule, infix_rule}
use tira.Parser.Expr.{parse_expr_prec, infix_loop, run_infix, run_prefix}

-- How tight the token that stands next binds as an infix operator.
unfoldable pub next_precedence : {D : Type 0} → Parser D → ℕ
next_precedence p = elim (get_elem? p.tokens p.pos) [ none ↦ 0 | some t ↦ precedence t.type ]

next_precedence_lem :
    {D : Type 0} (p : Parser D) (t : Token)
    → get_elem? p.tokens p.pos ≡ some t
    → next_precedence p ≡ precedence t.type
unfolding next_precedence
next_precedence_lem p t e = rw (e, next_precedence) refl

-- A run that ends leaves a result and a state for which `P` holds.
data Leaves {D A : Type 0} (P : A → Parser D → Type 0) : Outcome D A → Type 0 where
  leaves : {a : A} {q : Parser D} → P a q → Leaves P (ok a q)
  faults : {e : Fault} → Leaves P (fault e)

module _ {D : Type 0} where
  module _ {A B : Type 0} {P : B → Parser D → Type 0} where
    then-Leaves :
        (o : Outcome D A) (f : A → M D B)
        → ((a : A) (q : Parser D) → Leaves P (f a q))
        → Leaves P (bind o f)
    then-Leaves (ok a p) f h = h a p
    then-Leaves (fault e) f h = faults

    option-Leaves :
        (o : Option A) (m : M D B) (f : A → M D B) (p : Parser D)
        → Leaves P (m p)
        → ((a : A) → Leaves P (f a p))
        → Leaves P (case_option o m f p)
    unfolding case_option
    option-Leaves none m f p h k = h
    option-Leaves (some a) m f p h k = k a

  module _ {A : Type 0} {P : A → Parser D → Type 0} where
    when-Leaves :
        (b : Bool) (m n : M D A) (p : Parser D)
        → (b ≡ true → Leaves P (m p))
        → (b ≡ false → Leaves P (n p))
        → Leaves P ((when b then m else n) p)
    unfolding when◌then◌else◌
    when-Leaves true m n p h k = h refl
    when-Leaves false m n p h k = k refl

    peek-Leaves :
        (p : Parser D) (f : Token → M D A)
        → ((t : Token) → get_elem? p.tokens p.pos ≡ some t → Leaves P (f t p))
        → Leaves P (bind (peek p) f)
    unfolding peek token_at
    peek-Leaves p f h = elim (Option-cases (get_elem? p.tokens p.pos)) [
      | inl e ↦ rw (e, token_at) faults
      | inr (t, e) ↦ rw (e, token_at) (h t e)
    ]

    weaken :
        {Q : A → Parser D → Type 0} {o : Outcome D A}
        → ((a : A) (q : Parser D) → P a q → Q a q)
        → Leaves P o
        → Leaves Q o
    weaken f (leaves h) = leaves (f _ _ h)
    weaken f faults = faults

    Leaves-ok : {a : A} {q : Parser D} → Leaves P (ok a q) → P a q
    Leaves-ok (leaves h) = h

module _ {D : Type 0} (to_double : Bytes → Option D) where
  infix_loop-Leaves :
      (f prec : ℕ) (lhs : Pointer) (p : Parser D)
      → Leaves (λ _ q. next_precedence q ≤ prec) (infix_loop to_double f prec lhs p)
  unfolding infix_loop
  infix_loop-Leaves zero prec lhs p = faults
  infix_loop-Leaves (suc f) prec lhs p = peek-Leaves p _ λ t e.
      when-Leaves (ltb prec (precedence t.type)) _ _ p
        (λ more. then-Leaves (advance p) _ λ i q.
          option-Leaves (infix_rule t.type) _ _ q faults λ rule.
            then-Leaves (run_infix to_double f rule lhs q) _
              λ next r. infix_loop-Leaves f prec next r)
        (λ settled. leaves (ground (arith, settled, next_precedence_lem p t e)))

  climbs :
      (f prec : ℕ) (p : Parser D)
      → Leaves
          (λ expr q. (next_precedence q ≤ prec) ⊎ (expr ≡ none))
          (parse_expr_prec to_double f prec p)
  unfolding parse_expr_prec
  climbs zero prec p = faults
  climbs (suc f) prec p = then-Leaves (advance p) _ λ i q. then-Leaves (token_at i q) _ λ t r.
      option-Leaves (prefix_rule t.type) _ _ r
        (then-Leaves (raise_error r) _ λ _ s. leaves (inr refl))
        λ rule.
          then-Leaves (run_prefix to_double f rule r) _
            λ lhs s. weaken (λ _ v h. inl h) (infix_loop-Leaves f prec lhs s)

  -- An expression parsed for a precedence ends before a token that does not bind tighter as an infix
  -- operator, unless it is absent.
  pub parse_expr_prec-stops :
      (f prec : ℕ) (p q : Parser D) (expr : Pointer)
      → parse_expr_prec to_double f prec p ≡ ok expr q
      → (next_precedence q ≤ prec) ⊎ (expr ≡ none)
  parse_expr_prec-stops f prec p q expr e = Leaves-ok (subst (Leaves _) e (climbs f prec p))
