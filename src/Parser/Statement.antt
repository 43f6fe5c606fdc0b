-- ===== src/Parser/Statement.antt =====
-- src/parser.c: statements and programs of expressions, as a grammar over tokens, and their nodes.
pub mod Reads
pub mod Complete
pub mod Loop
pub mod Whole
use tira.Prelude.{
  ℕ, ◌+◌, ◌≡◌, Bool, true, false, ◌⊎◌, List, [], ◌∷◌, ◌++◌, some, Bytes, Option, if◌then◌else◌,
}
use tira.Token.{Token, t_ident, t_equals, t_return, t_var, t_const, t_newline, t_semicolon, t_end}
use tira.Ast.{ParserNode, Pointer, identifier, return, var_decl, const_decl}
use tira.Parser.Expression.{Tree, count, place, nodes_of, text_of, Expression}

-- The flag of a declaration is set for `var`.
pub data Stmt (D : Type 0) : Type 0 where
  expression : Tree D → Stmt D
  returned : Tree D → Stmt D
  declared : Bool → Bytes → Tree D → Stmt D

module _ {D : Type 0} where
  abbrev pub stmt_count : Stmt D → ℕ
  stmt_count (expression e) = count e
  stmt_count (returned e) = 1 + count e
  stmt_count (declared is_var name e) = 2 + count e

  -- The index of a statement's node.
  abbrev pub stmt_place : ℕ → Stmt D → ℕ
  stmt_place n (expression e) = place n e
  stmt_place n (returned e) = n
  stmt_place n (declared is_var name e) = n

  abbrev pub declaration : Bool → Pointer → Pointer → ParserNode D
  declaration is_var name rhs = if is_var then var_decl name rhs else const_decl name rhs

  abbrev pub stmt_nodes : ℕ → Stmt D → List (ParserNode D)
  stmt_nodes n (expression e) = nodes_of n e
  stmt_nodes n (returned e) = return (some (place (n + 1) e)) ∷ nodes_of (n + 1) e
  stmt_nodes n (declared is_var name e) =
      declaration is_var (some (n + 1)) (some (place (n + 2) e))
      ∷ identifier name
      ∷ nodes_of (n + 2) e

  -- The statements of a program, their nodes one behind the other.
  abbrev pub stmts_count : List (Stmt D) → ℕ
  stmts_count [] = 0
  stmts_count (s ∷ ss) = stmt_count s + stmts_count ss

  abbrev pub stmts_nodes : ℕ → List (Stmt D) → List (ParserNode D)
  stmts_nodes n [] = []
  stmts_nodes n (s ∷ ss) = stmt_nodes n s ++ stmts_nodes (n + stmt_count s) ss

  module _ (to_double : Bytes → Option D) (source : Bytes) where
    pub data Statement : List Token → Stmt D → Type 0 where
      expression_stmt :
          {ts : List Token} {e : Tree D}
          → Expression to_double source ts e
          → Statement ts (expression e)
      return_stmt :
          {keyword : Token} {ts : List Token} {e : Tree D}
          → keyword.type ≡ t_return
          → Expression to_double source ts e
          → Statement (keyword ∷ ts) (returned e)
      var_stmt :
          {keyword name : Token} {ts : List Token} {e : Tree D} (equals : Token)
          → keyword.type ≡ t_var
          → equals.type ≡ t_equals
          → Expression to_double source ts e
          → Statement (keyword ∷ name ∷ equals ∷ ts) (declared true (text_of source name) e)
      const_stmt :
          {keyword name : Token} {ts : List Token} {e : Tree D} (equals : Token)
          → keyword.type ≡ t_const
          → equals.type ≡ t_equals
          → Expression to_double source ts e
          → Statement (keyword ∷ name ∷ equals ∷ ts) (declared false (text_of source name) e)

    abbrev pub IsSeparator : Token → Type 0
    IsSeparator t = (t.type ≡ t_newline) ⊎ (t.type ≡ t_semicolon)

    -- Statements with newlines or semicolons between them, up to END.
    pub data Program : List Token → List (Stmt D) → Type 0 where
      ended : {t : Token} {more : List Token} → t.type ≡ t_end → Program (t ∷ more) []
      blank :
          {t : Token} {ts : List Token} {ss : List (Stmt D)}
          → IsSeparator t
          → Program ts ss
          → Program (t ∷ ts) ss
      last_stmt :
          {us : List Token} {s : Stmt D} (t : Token) (more : List Token)
          → Statement us s
          → t.type ≡ t_end
          → Program (us ++ t ∷ more) (s ∷ [])
      stmt :
          {us ts : List Token} {s : Stmt D} {ss : List (Stmt D)} (t : Token)
          → Statement us s
          → IsSeparator t
          → Program ts ss
          → Program (us ++ t ∷ ts) (s ∷ ss)
