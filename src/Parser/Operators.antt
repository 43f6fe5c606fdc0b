-- ===== src/Parser/Operators.antt =====
-- src/parser.c: the rule table, and what the precedence of a binary operator's right operand does.
use tira.Prelude.{
  ℕ, suc, ◌≤◌, ◌≡◌, refl, Bool, arith, Option, none, some, Bytes, get_elem?, ltb, ◌↔◌,
}
use tira.Token.{Token, TokenType}
use tira.Ast.{Pointer}
use tira.Parser.{Parser, ok, token_at, peek, when◌then◌else◌}
use tira.Parser.Rules.{infix_rule, precedence, prec_factor, parse_binary}
use tira.Parser.Expr.{infix_loop}

-- The rows of the table that have no precedence are those with no infix function.
pub infix_rule-precedence : (t : TokenType) → (infix_rule t ≡ none) ↔ (precedence t ≡ 0)
unfolding infix_rule precedence
infix_rule-precedence _ = ground arith

binary-precedence : (t : TokenType) → infix_rule t ≡ some parse_binary → precedence t ≤ prec_factor
unfolding infix_rule precedence
binary-precedence _ h = ground arith

-- No operand parsed at the precedence of a factor, as every right operand of a binary operator is,
-- goes on over a binary operator: the loop stops at once.
pub binary_operators_left :
    {D : Type 0} (to_double : Bytes → Option D) (f : ℕ) (operand : Pointer) (p : Parser D)
    (t : Token)
    → get_elem? p.tokens p.pos ≡ some t
    → infix_rule t.type ≡ some parse_binary
    → infix_loop to_double (suc f) prec_factor operand p ≡ ok operand p
unfolding infix_loop when◌then◌else◌ peek token_at
binary_operators_left to_double f operand p t e b = rw (e, token_at) (rw (low) refl)
  where
    low : ltb prec_factor (precedence t.type) ≡ Bool.false
    low = ground (arith, binary-precedence t.type b)
