-- ===== src/Parser/Statement/Complete.antt =====
-- src/parser.c: statements in front of `parse_stmt`, whole.
use mathlib.Core.Path.{subst}
use tira.Prelude.{
  ℕ, suc, ◌+◌, ◌*◌, ◌-◌, ◌≤◌, ◌≡◌, refl, ap, ◌∙◌, sym, arith, Bool, true, false, List, [], ◌∷◌,
  ◌++◌, some, Option, Bytes, length, length-append,
}
use tira.Token.{Token, t_equals, t_return}
use tira.Ast.{ParserNode, return, zero_node, node_return, node_identifier, identifier}
use tira.Parser.{Parser, ok}
use tira.Parser.Rules.{precedence, prec_lowest}
use tira.Parser.Expr.{parse_expr_prec, parse_stmt}
use tira.Parser.Expression.{Tree, count, place, nodes_of, text_of, Expression}
use tira.Parser.Expression.Steps.{
  ahead, After, After-trans, ahead-After, passed, passed-After, with_node,
}
use tira.Parser.Expression.Atoms.{with_node-After, filled, filled-After, atom_after}
use tira.Parser.Expression.Reads.{After-same}
use tira.Parser.Expression.Complete.{parse_expr_prec-Expression}
use tira.Parser.Statement.{
  Stmt, expression, returned, declared, stmt_count, stmt_place, stmt_nodes, declaration, Statement,
  expression_stmt, return_stmt, var_stmt, const_stmt,
}
use tira.Parser.Statement.Reads.{
  Expression-Opens, parse_stmt-expression, parse_stmt-return, keyword_type, decl_kind,
  parse_stmt-declaration, named, parse_const_var_decl-runs,
}

module _ {D : Type 0} (to_double : Bytes → Option D) (source : Bytes) where
  -- A parser in front of a statement and a token that is no infix operator, with room and fuel.
  pub record StmtFaces (F : ℕ) (p : Parser D) (us : List Token) (s : Stmt D) (t : Token)
      (more : List Token) : Type 0 where
    pub from_source : p.source ≡ source
    pub facing : ahead p ≡ us ++ t ∷ more
    pub last : precedence t.type ≡ 0
    pub room : length p.nodes + stmt_count s ≤ p.node_cap
    pub fuel : 4 * length us + 3 ≤ F

  pub record StmtReads (F : ℕ) (p : Parser D) (us : List Token) (s : Stmt D) : Type 0 where
    pub end : Parser D
    pub runs : parse_stmt to_double F p ≡ ok (some (stmt_place (length p.nodes) s)) end
    pub after : After p end (length us) (stmt_nodes (length p.nodes) s)

  reads_there :
      (f : ℕ) (p : Parser D) (ts : List Token) (e : Tree D) (t : Token) (more : List Token)
      → Expression to_double source ts e
      → p.source ≡ source
      → ahead p ≡ ts ++ t ∷ more
      → precedence t.type ≡ 0
      → length p.nodes + count e ≤ p.node_cap
      → 4 * length ts + 2 ≤ f
      → (q : Parser D) × (parse_expr_prec to_double f prec_lowest p
          ≡ ok (some (place (length p.nodes) e)) q)
        × After p q (length ts) (nodes_of (length p.nodes) e)
  reads_there f p ts e t more d s h last room fuel =
      parse_expr_prec-Expression to_double f p ts e t more
        (subst (λ x. Expression to_double x ts e) (sym s) d)
        (record {
          from_source = refl;
          facing = h;
          low = omega (arith, last);
          room = room;
          fuel = fuel;
        })
        last

  expression-StmtReads :
      (f : ℕ) (p : Parser D) (ts : List Token) (e : Tree D) (t : Token) (more : List Token)
      → Expression to_double source ts e
      → StmtFaces (suc f) p ts (expression e) t more
      → StmtReads (suc f) p ts (expression e)
  expression-StmtReads f p ts e t more d h =
      let o = Expression-Opens to_double source ts e d in
      let (q, run, after) =
        reads_there f p ts e t more d h.from_source h.facing h.last h.room
          (omega (arith, h.fuel)) in
      record {
        end = q;
        runs =
            parse_stmt-expression to_double source f p o.first (o.others ++ t ∷ more)
              (h.facing ∙ ap (λ l. l ++ t ∷ more) o.whole) o.begins
            ∙ run;
        after = after;
      }

  return-StmtReads :
      (f : ℕ) (p : Parser D) (keyword : Token) (ts : List Token) (e : Tree D) (t : Token)
      (more : List Token)
      → keyword.type ≡ t_return
      → Expression to_double source ts e
      → StmtFaces (suc f) p (keyword ∷ ts) (returned e) t more
      → StmtReads (suc f) p (keyword ∷ ts) (returned e)
  return-StmtReads f p keyword ts e t more k d h =
      let p' = with_node node_return (passed p) in
      let start : length p'.nodes ≡ length p.nodes + 1 =
        omega (arith, length-append p.nodes (zero_node node_return ∷ [])) in
      let (q, run, after) =
        reads_there f p' ts e t more d h.from_source
          (ahead-After (keyword ∷ []) (ts ++ t ∷ more) (passed-After p) h.facing refl) h.last
          (omega (arith, h.room, start)) (omega (arith, h.fuel)) in
      record {
        end = filled (length p.nodes) (return (some (place (length p'.nodes) e))) q;
        runs =
            parse_stmt-return to_double source f p q keyword (ts ++ t ∷ more) _ h.facing k
              (omega (arith, h.room)) run;
        after =
            After-same (omega arith) (ap (λ n. return (some (place n e)) ∷ nodes_of n e) start) (
              filled-After [] (nodes_of (length p'.nodes) e) (length p.nodes)
                (zero_node node_return) (return (some (place (length p'.nodes) e)))
                (After-trans (passed-After p)
                  (After-trans (with_node-After node_return (passed p)) after))
                (omega arith));
      }

  abbrev declaration_of : Bool → Tree D → ℕ → ℕ → ParserNode D
  declaration_of is_var e n m = declaration is_var (some n) (some (place m e))

  -- Behind the keyword, and behind the name and the sign.
  declaration-StmtReads :
      (f : ℕ) (is_var : Bool) (p : Parser D) (keyword name equals : Token) (ts : List Token)
      (e : Tree D) (t : Token) (more : List Token)
      → keyword.type ≡ keyword_type to_double source is_var
      → equals.type ≡ t_equals
      → Expression to_double source ts e
      → StmtFaces
          (suc (suc f))
          p
          (keyword ∷ name ∷ equals ∷ ts)
          (declared is_var (text_of source name) e)
          t
          more
      → StmtReads
          (suc (suc f))
          p
          (keyword ∷ name ∷ equals ∷ ts)
          (declared is_var (text_of source name) e)
  declaration-StmtReads f is_var p keyword name equals ts e t more k eq d h =
      let p1 = passed p in
      let q1 = with_node (decl_kind to_double source is_var) p1 in
      let ident : ParserNode D = identifier (text_of p.source name) in
      let p3 = named to_double source is_var p1 name in
      let start : length q1.nodes ≡ length p.nodes + 1 =
        omega (arith, length-append p.nodes (zero_node (decl_kind to_double source is_var) ∷ [])) in
      let named_After =
        After-trans (with_node-After (decl_kind to_double source is_var) p1)
          (atom_after to_double node_identifier q1 ident) in
      let all_After = After-trans (passed-After p) (After-trans named_After (passed-After p3)) in
      let two : length p3.nodes ≡ length p.nodes + 2 = omega (
        arith,
        ap (λ l. length l) (atom_after to_double node_identifier q1 ident).made,
        length-append q1.nodes (ident ∷ []),
        start,
      ) in
      let (q, run, after) =
        reads_there f (passed p3) ts e t more d h.from_source
          (ahead-After (keyword ∷ name ∷ equals ∷ []) (ts ++ t ∷ more) all_After h.facing refl)
          h.last (omega (arith, h.room, two)) (omega (arith, h.fuel)) in
      record {
        end =
            filled (length p.nodes) (declaration_of is_var e (length p.nodes + 1) (length p3.nodes))
              q;
        runs =
            parse_stmt-declaration to_double source (suc f) is_var p keyword
              (name ∷ equals ∷ (ts ++ t ∷ more)) h.facing k
            ∙ parse_const_var_decl-runs to_double source f is_var p1 q name equals (ts ++ t ∷ more)
                _
                (ahead-After (keyword ∷ []) (name ∷ equals ∷ (ts ++ t ∷ more)) (passed-After p)
                  h.facing refl)
                eq (omega (arith, h.room)) run;
        after =
            After-same (omega arith)
              (ap
                  (λ m.
                    declaration_of is_var e (length p.nodes + 1) m
                    ∷ identifier (text_of p.source name)
                    ∷ nodes_of m e)
                  two
                ∙ ap
                    (λ x.
                      declaration_of is_var e (length p.nodes + 1) (length p.nodes + 2)
                      ∷ identifier (text_of x name)
                      ∷ nodes_of (length p.nodes + 2) e)
                    h.from_source)
              (filled-After [] (ident ∷ nodes_of (length p3.nodes) e) (length p.nodes)
                (zero_node (decl_kind to_double source is_var))
                (declaration_of is_var e (length p.nodes + 1) (length p3.nodes))
                (After-trans all_After after) (omega arith));
      }

  two_units : (P : ℕ → Type 0) (F : ℕ) → 2 ≤ F → P (suc (suc (F - 2))) → P F
  two_units P F h x = let same : suc (suc (F - 2)) ≡ F = omega arith in subst P same x

  refueled :
      {F G : ℕ} {p : Parser D} {us : List Token} {s : Stmt D} {t : Token} {more : List Token}
      → F ≡ G
      → StmtFaces F p us s t more
      → StmtFaces G p us s t more
  refueled e h = record {
    from_source = h.from_source;
    facing = h.facing;
    last = h.last;
    room = h.room;
    fuel = omega (arith, h.fuel);
  }

  -- Every statement of the grammar is read to its end.
  pub Statement-StmtReads :
      (F : ℕ) (p : Parser D) (us : List Token) (s : Stmt D) (t : Token) (more : List Token)
      → Statement to_double source us s
      → StmtFaces F p us s t more
      → StmtReads F p us s
  Statement-StmtReads F p us _ t more (expression_stmt {e = e} d) h =
      two_units (λ f. StmtReads f p us (expression e)) F (omega (arith, h.fuel))
        (expression-StmtReads (suc (F - 2)) p us e t more d (refueled (omega (arith, h.fuel)) h))
  Statement-StmtReads F p _ _ t more (return_stmt {keyword = k} {ts = ts} {e = e} is_return d) h =
      two_units (λ f. StmtReads f p (k ∷ ts) (returned e)) F (omega (arith, h.fuel))
        (return-StmtReads (suc (F - 2)) p k ts e t more is_return d
          (refueled (omega (arith, h.fuel)) h))
  Statement-StmtReads F p _ _ t more
        (var_stmt {keyword = k} {name = name} {ts = ts} {e = e} eq is_k is_eq d) h =
      two_units (λ f. StmtReads f p (k ∷ name ∷ eq ∷ ts) (declared true (text_of source name) e)) F
        (omega (arith, h.fuel))
        (declaration-StmtReads (F - 2) true p k name eq ts e t more is_k is_eq d
          (refueled (omega (arith, h.fuel)) h))
  Statement-StmtReads F p _ _ t more
        (const_stmt {keyword = k} {name = name} {ts = ts} {e = e} eq is_k is_eq d) h =
      two_units (λ f. StmtReads f p (k ∷ name ∷ eq ∷ ts) (declared false (text_of source name) e)) F
        (omega (arith, h.fuel))
        (declaration-StmtReads (F - 2) false p k name eq ts e t more is_k is_eq d
          (refueled (omega (arith, h.fuel)) h))
