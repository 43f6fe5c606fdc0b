-- ===== src/Parser/Statement/Reads.antt =====
-- src/parser.c: `parse_stmt` on the statements of the grammar.
use tira.Prelude.{
  ℕ, suc, ◌+◌, ◌<◌, ◌≡◌, refl, ap, arith, Bool, true, false, List, [], ◌∷◌, ◌++◌, Option, some,
  Bytes, length, length-append, inl, inr, if◌then◌else◌,
}
use tira.Token.{
  Token, TokenType, is_type, token_index, t_return, t_func, t_main, t_var, t_const, t_equals,
  t_newline, t_semicolon, t_end,
}
use tira.Ast.{
  ParserNode, Pointer, return, zero_node, ParserNodeKind, node_return, node_var_decl,
  node_const_decl, node_identifier, identifier,
}
use tira.Parser.{Parser, ok, match, set_node, advance, when◌then◌else◌}
use tira.Parser.Rules.{Prefix, prefix_rule, prec_lowest}
use tira.Parser.Grammar.{parse_identifier}
use tira.Parser.Expr.{parse_expr_prec, run_prefix, parse_stmt, parse_const_var_decl}
use tira.Parser.Expression.{
  Tree, text_of, IsAtom, is_identifier, is_string, is_nil, is_true, is_false, is_number, Operand,
  atom, prefixed, grouped, Expression, single, chained,
}
use tira.Parser.Expression.Steps.{
  ahead, ahead-After, passed, passed-After, peek-next, with_node, new_node-room,
}
use tira.Parser.Expression.Atoms.{filled, identifier-AtomRuns}
use tira.Parser.Statement.{declaration}

-- An expression's first token is none of those that begin another statement or end one.
pub record Begins (t : TokenType) : Type 0 where
  pub no_return : is_type t t_return ≡ false
  pub no_func : is_type t t_func ≡ false
  pub no_main : is_type t t_main ≡ false
  pub no_var : is_type t t_var ≡ false
  pub no_const : is_type t t_const ≡ false
  pub no_newline : is_type t t_newline ≡ false
  pub no_semicolon : is_type t t_semicolon ≡ false
  pub no_end : is_type t t_end ≡ false

prefix_rule-Begins : (t : TokenType) (rule : Prefix) → prefix_rule t ≡ some rule → Begins t
unfolding prefix_rule token_index
prefix_rule-Begins _ rule h = record {
  no_return = ground arith;
  no_func = ground arith;
  no_main = ground arith;
  no_var = ground arith;
  no_const = ground arith;
  no_newline = ground arith;
  no_semicolon = ground arith;
  no_end = ground arith;
}

module _ {D : Type 0} where
  pub match-other :
      (ty : TokenType) (p : Parser D) (t : Token) (rest : List Token)
      → ahead p ≡ t ∷ rest
      → is_type t.type ty ≡ false
      → match ty p ≡ ok false p
  unfolding match when◌then◌else◌
  match-other ty p t rest h e = rw (peek-next p t rest h) (rw e refl)

  pub match-same :
      (ty : TokenType) (p : Parser D) (t : Token) (rest : List Token)
      → ahead p ≡ t ∷ rest
      → is_type t.type ty ≡ true
      → match ty p ≡ ok true (passed p)
  unfolding match advance when◌then◌else◌
  match-same ty p t rest h e = rw (peek-next p t rest h) (rw e refl)

  module _ (to_double : Bytes → Option D) (source : Bytes) where
    -- The first token of an expression.
    pub record Opens (ts : List Token) : Type 0 where
      pub first : Token
      pub others : List Token
      pub whole : ts ≡ first ∷ others
      pub begins : Begins first.type

    IsAtom-Begins : (t : Token) (n : ParserNode D) → IsAtom to_double source t n → Begins t.type
    unfolding prefix_rule
    IsAtom-Begins t n (is_identifier e) = prefix_rule-Begins t.type _ (ap prefix_rule e)
    IsAtom-Begins t n (is_string e) = prefix_rule-Begins t.type _ (ap prefix_rule e)
    IsAtom-Begins t n (is_nil e) = prefix_rule-Begins t.type _ (ap prefix_rule e)
    IsAtom-Begins t n (is_true e) = prefix_rule-Begins t.type _ (ap prefix_rule e)
    IsAtom-Begins t n (is_false e) = prefix_rule-Begins t.type _ (ap prefix_rule e)
    IsAtom-Begins t _ (is_number e v) = prefix_rule-Begins t.type _ (ap prefix_rule e)

    Operand-Opens : (ts : List Token) (e : Tree D) → Operand to_double source ts e → Opens ts
    unfolding prefix_rule
    Operand-Opens _ _ (atom {t = t} {n = n} a) = record {
      first = t;
      others = [];
      whole = refl;
      begins = IsAtom-Begins t n a;
    }
    Operand-Opens _ _ (prefixed {op = op} {ts = ts} (inl e) d) = record {
      first = op;
      others = ts;
      whole = refl;
      begins = prefix_rule-Begins op.type _ (ap prefix_rule e);
    }
    Operand-Opens _ _ (prefixed {op = op} {ts = ts} (inr e) d) = record {
      first = op;
      others = ts;
      whole = refl;
      begins = prefix_rule-Begins op.type _ (ap prefix_rule e);
    }
    Operand-Opens _ _ (grouped {lp = lp} {ts = ts} rp e d c) = record {
      first = lp;
      others = ts ++ rp ∷ [];
      whole = refl;
      begins = prefix_rule-Begins lp.type _ (ap prefix_rule e);
    }

    pub Expression-Opens :
        (ts : List Token) (e : Tree D) → Expression to_double source ts e → Opens ts
    Expression-Opens ts e (single d) = Operand-Opens ts e d
    Expression-Opens _ _ (chained {ts = ts} {us = us} {e = e} op d b u) =
        let o = Expression-Opens ts e d in
        record {
          first = o.first;
          others = o.others ++ op ∷ us;
          whole = ap (λ l. l ++ op ∷ us) o.whole;
          begins = o.begins;
        }

    pub parse_stmt-expression :
        (f : ℕ) (p : Parser D) (t : Token) (rest : List Token)
        → ahead p ≡ t ∷ rest
        → Begins t.type
        → parse_stmt to_double (suc f) p ≡ parse_expr_prec to_double f prec_lowest p
    unfolding parse_stmt when◌then◌else◌
    parse_stmt-expression f p t rest h b = rw (match-other t_return p t rest h b.no_return) (
        rw (match-other t_func p t rest h b.no_func) (
          rw (match-other t_main p t rest h b.no_main) (
            rw (match-other t_var p t rest h b.no_var)
              (rw (match-other t_const p t rest h b.no_const) refl))))

    pub parse_stmt-return :
        (f : ℕ) (p q : Parser D) (t : Token) (rest : List Token) (expr : Pointer)
        → ahead p ≡ t ∷ rest
        → t.type ≡ t_return
        → length p.nodes < p.node_cap
        → parse_expr_prec to_double f prec_lowest (with_node node_return (passed p)) ≡ ok expr q
        → parse_stmt to_double (suc f) p
          ≡ ok (some (length p.nodes)) (filled (length p.nodes) (return expr) q)
    unfolding parse_stmt when◌then◌else◌ set_node token_index
    parse_stmt-return f p q t rest expr h e room run =
        rw (match-same t_return p t rest h (ap (λ u. is_type u t_return) e))
          (rw (new_node-room node_return (passed p) room) (rw run refl))

    -- The keyword of a declaration.
    abbrev pub keyword_type : Bool → TokenType
    keyword_type is_var = if is_var then t_var else t_const

    abbrev pub decl_kind : Bool → ParserNodeKind
    decl_kind is_var = if is_var then node_var_decl else node_const_decl

    pub parse_stmt-declaration :
        (f : ℕ) (is_var : Bool) (p : Parser D) (t : Token) (rest : List Token)
        → ahead p ≡ t ∷ rest
        → t.type ≡ keyword_type is_var
        → parse_stmt to_double (suc f) p ≡ parse_const_var_decl to_double f is_var (passed p)
    unfolding parse_stmt when◌then◌else◌ token_index
    parse_stmt-declaration f true p t rest h e =
        rw (match-other t_return p t rest h (ap (λ u. is_type u t_return) e)) (
          rw (match-other t_func p t rest h (ap (λ u. is_type u t_func) e)) (
            rw (match-other t_main p t rest h (ap (λ u. is_type u t_main) e))
              (rw (match-same t_var p t rest h (ap (λ u. is_type u t_var) e)) refl)))
    parse_stmt-declaration f false p t rest h e =
        rw (match-other t_return p t rest h (ap (λ u. is_type u t_return) e)) (
          rw (match-other t_func p t rest h (ap (λ u. is_type u t_func) e)) (
            rw (match-other t_main p t rest h (ap (λ u. is_type u t_main) e)) (
              rw (match-other t_var p t rest h (ap (λ u. is_type u t_var) e))
                (rw (match-same t_const p t rest h (ap (λ u. is_type u t_const) e)) refl))))

    -- The parser behind the name of a declaration, its keyword being passed.
    abbrev pub named : Bool → Parser D → Token → Parser D
    named is_var p name =
        let q = with_node (decl_kind is_var) p in
        filled (length q.nodes) (identifier (text_of p.source name))
          (with_node node_identifier (passed q))

    parse_identifier-named :
        (p : Parser D) (t : Token) (rest : List Token)
        → ahead p ≡ t ∷ rest
        → length p.nodes < p.node_cap
        → parse_identifier (passed p)
          ≡ ok (some (length p.nodes)) (
              filled
                (length p.nodes)
                (identifier (text_of p.source t))
                (with_node node_identifier (passed p)))
    parse_identifier-named p t rest h room =
        unfold run_prefix in identifier-AtomRuns to_double 0 p t rest h room

    pub parse_const_var_decl-runs :
        (f : ℕ) (is_var : Bool) (p q : Parser D) (name equals : Token) (rest : List Token)
        (rhs : Pointer)
        → ahead p ≡ name ∷ equals ∷ rest
        → equals.type ≡ t_equals
        → length p.nodes + 1 < p.node_cap
        → parse_expr_prec to_double f prec_lowest (passed (named is_var p name)) ≡ ok rhs q
        → parse_const_var_decl to_double (suc f) is_var p
          ≡ ok
              (some (length p.nodes))
              (filled (length p.nodes) (declaration is_var (some (length p.nodes + 1)) rhs) q)
    unfolding parse_const_var_decl when◌then◌else◌ set_node token_index advance
    parse_const_var_decl-runs f is_var p q name equals rest rhs h e room run =
        let q' = with_node (decl_kind is_var) p in
        let next : length q'.nodes ≡ length p.nodes + 1 =
          omega (arith, length-append p.nodes (zero_node (decl_kind is_var) ∷ [])) in
        let ident = parse_identifier-named q' name (equals ∷ rest) h (omega (arith, next)) in
        let behind = ahead-After (name ∷ []) (equals ∷ rest) (passed-After p) h refl in
        rw (new_node-room (decl_kind is_var) p (omega arith)) (
          rw ident (
            rw
              (match-same t_equals (named is_var p name) equals rest behind
                (ap (λ u. is_type u t_equals) e))
              (rw run (
                ap
                  (λ k.
                    ok (some (length p.nodes))
                      (filled (length p.nodes) (declaration is_var (some k) rhs) q))
                  next))))
