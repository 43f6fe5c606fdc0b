-- ===== src/Parser/Statement/Loop.antt =====
-- src/parser.c: one round of the loop of `parse_program`.
use tira.Prelude.{
  ℕ, suc, ◌+◌, ◌%◌, ◌^◌, ◌≡◌, refl, ap, ◌∙◌, true, false, ◌⊎◌, List, ◌∷◌, ◌++◌, Option, Bytes,
  length, get_elem?, get_elem?-at, inl, inr,
}
use tira.Token.{
  Token, TokenType, is_type, token_index, t_newline, t_semicolon, t_end, t_return, t_var, t_const,
}
use tira.Ast.{ParserNode, Pointer, block}
use tira.Parser.{Parser, ok, when◌then◌else◌, set_node}
use tira.Parser.Grammar.{match_separator, block_add_stmt, add_to_block}
use tira.Parser.Expr.{parse_stmt, program_loop}
use tira.Parser.Expression.Steps.{ahead, passed, peek-next}
use tira.Parser.Expression.Atoms.{filled}
use tira.Parser.Statement.{Stmt, Statement, expression_stmt, return_stmt, var_stmt, const_stmt}
use tira.Parser.Statement.Reads.{Expression-Opens, match-other, match-same}

-- A token that ends no statement and no program.
pub record Inside (t : TokenType) : Type 0 where
  pub no_newline : is_type t t_newline ≡ false
  pub no_semicolon : is_type t t_semicolon ≡ false
  pub no_end : is_type t t_end ≡ false

keyword-Inside : (t u : TokenType) → t ≡ u → Inside u → Inside t
keyword-Inside t u e h = record {
  no_newline = ap (λ x. is_type x t_newline) e ∙ h.no_newline;
  no_semicolon = ap (λ x. is_type x t_semicolon) e ∙ h.no_semicolon;
  no_end = ap (λ x. is_type x t_end) e ∙ h.no_end;
}

return-Inside : Inside t_return
unfolding token_index
return-Inside = record { no_newline = refl; no_semicolon = refl; no_end = refl }

var-Inside : Inside t_var
unfolding token_index
var-Inside = record { no_newline = refl; no_semicolon = refl; no_end = refl }

const-Inside : Inside t_const
unfolding token_index
const-Inside = record { no_newline = refl; no_semicolon = refl; no_end = refl }

not_end : (t : Token) → (t.type ≡ t_newline) ⊎ (t.type ≡ t_semicolon) → is_type t.type t_end ≡ false
unfolding token_index
not_end t (inl e) = ap (λ u. is_type u t_end) e
not_end t (inr e) = ap (λ u. is_type u t_end) e

module _ {D : Type 0} where
  module _ (to_double : Bytes → Option D) (source : Bytes) where
    -- The first token of a statement.
    pub record StmtOpens (us : List Token) : Type 0 where
      pub first : Token
      pub others : List Token
      pub whole : us ≡ first ∷ others
      pub inside : Inside first.type

    pub Statement-StmtOpens :
        (us : List Token) (s : Stmt D) → Statement to_double source us s → StmtOpens us
    Statement-StmtOpens us _ (expression_stmt {e = e} d) =
        let o = Expression-Opens to_double source us e d in
        record {
          first = o.first;
          others = o.others;
          whole = o.whole;
          inside = record {
            no_newline = o.begins.no_newline;
            no_semicolon = o.begins.no_semicolon;
            no_end = o.begins.no_end;
          };
        }
    Statement-StmtOpens _ _ (return_stmt k d) = record {
      first = _;
      others = _;
      whole = refl;
      inside = keyword-Inside _ t_return k return-Inside;
    }
    Statement-StmtOpens _ _ (var_stmt eq k q d) = record {
      first = _;
      others = _;
      whole = refl;
      inside = keyword-Inside _ t_var k var-Inside;
    }
    Statement-StmtOpens _ _ (const_stmt eq k q d) = record {
      first = _;
      others = _;
      whole = refl;
      inside = keyword-Inside _ t_const k const-Inside;
    }

  separated :
      (p : Parser D) (t : Token) (rest : List Token)
      → ahead p ≡ t ∷ rest
      → (t.type ≡ t_newline) ⊎ (t.type ≡ t_semicolon)
      → match_separator p ≡ ok true (passed p)
  unfolding match_separator when◌then◌else◌ token_index
  separated p t rest h (inl e) =
      rw (match-same t_newline p t rest h (ap (λ u. is_type u t_newline) e)) refl
  separated p t rest h (inr e) =
      rw (match-other t_newline p t rest h (ap (λ u. is_type u t_newline) e))
        (match-same t_semicolon p t rest h (ap (λ u. is_type u t_semicolon) e))

  not_separated :
      (p : Parser D) (t : Token) (rest : List Token)
      → ahead p ≡ t ∷ rest
      → Inside t.type
      → match_separator p ≡ ok false p
  unfolding match_separator when◌then◌else◌
  not_separated p t rest h i =
      rw (match-other t_newline p t rest h i.no_newline)
        (match-other t_semicolon p t rest h i.no_semicolon)

  pub block-added :
      (p : Parser D) (pre post : List (ParserNode D)) (n : ℕ) (stmt : Pointer)
      → p.nodes ≡ pre ++ block n ∷ post
      → block_add_stmt (length pre) stmt p
        ≡ ok tt (filled (length pre) (block ((n + 1) % 2 ^ 16)) p)
  unfolding block_add_stmt add_to_block set_node
  block-added p pre post n stmt e =
      ap (λ o. add_to_block (length pre) stmt o p)
        (ap (λ l. get_elem? l (length pre)) e ∙ get_elem?-at pre post (block n))

  module _ (to_double : Bytes → Option D) where
    pub program_loop-ends :
        (f i : ℕ) (p : Parser D) (t : Token) (rest : List Token)
        → ahead p ≡ t ∷ rest
        → t.type ≡ t_end
        → program_loop to_double (suc f) i p ≡ ok tt p
    unfolding program_loop when◌then◌else◌ token_index
    program_loop-ends f i p t rest h e =
        rw (peek-next p t rest h) (rw (ap (λ u. is_type u t_end) e) refl)

    pub program_loop-blank :
        (f i : ℕ) (p : Parser D) (t : Token) (rest : List Token)
        → ahead p ≡ t ∷ rest
        → (t.type ≡ t_newline) ⊎ (t.type ≡ t_semicolon)
        → program_loop to_double (suc f) i p ≡ program_loop to_double f i (passed p)
    unfolding program_loop when◌then◌else◌
    program_loop-blank f i p t rest h s =
        rw (peek-next p t rest h) (rw (not_end t s) (rw (separated p t rest h s) refl))

    -- A statement behind which END stands.
    pub program_loop-last :
        (f i : ℕ) (p q r : Parser D) (first t : Token) (others rest : List Token) (stmt : Pointer)
        → ahead p ≡ first ∷ others
        → Inside first.type
        → parse_stmt to_double f p ≡ ok stmt q
        → block_add_stmt i stmt q ≡ ok tt r
        → ahead r ≡ t ∷ rest
        → t.type ≡ t_end
        → program_loop to_double (suc f) i p ≡ ok tt r
    unfolding program_loop when◌then◌else◌ token_index
    program_loop-last f i p q r first t others rest stmt h inside run added k e =
        rw (peek-next p first others h) (
          rw inside.no_end (
            rw (not_separated p first others h inside) (
              rw run
                (rw added (rw (peek-next r t rest k) (rw (ap (λ u. is_type u t_end) e) refl))))))

    -- A statement behind which another one may stand.
    pub program_loop-next :
        (f i : ℕ) (p q r : Parser D) (first t : Token) (others rest : List Token) (stmt : Pointer)
        → ahead p ≡ first ∷ others
        → Inside first.type
        → parse_stmt to_double f p ≡ ok stmt q
        → block_add_stmt i stmt q ≡ ok tt r
        → ahead r ≡ t ∷ rest
        → (t.type ≡ t_newline) ⊎ (t.type ≡ t_semicolon)
        → program_loop to_double (suc f) i p ≡ program_loop to_double f i (passed r)
    unfolding program_loop when◌then◌else◌
    program_loop-next f i p q r first t others rest stmt h inside run added k s =
        rw (peek-next p first others h) (
          rw inside.no_end (
            rw (not_separated p first others h inside) (
              rw run (
                rw added (
                  rw (peek-next r t rest k)
                    (rw (not_end t s) (rw (separated r t rest k s) refl)))))))
