-- ===== src/Parser/Expression.antt =====
-- src/parser.c: the expressions that the Pratt parser reads, as a grammar over tokens, and the nodes
-- that it makes of them.
pub mod Steps
pub mod Atoms
pub mod Reads
pub mod Complete
use tira.Prelude.{
  ℕ, ◌+◌, ◌≤◌, ◌≡◌, Bool, true, false, ◌⊎◌, List, [], ◌∷◌, ◌++◌, Option, none, some, Bytes, length,
  take, drop,
}
use tira.Token.{
  Token, TokenType, t_num, t_ident, t_string, t_nil, t_true, t_false, t_minus, t_not, t_lparen,
  t_rparen,
}
use tira.Ast.{
  ParserNode, Number, number, string, identifier, binary_op, binop_invalid, unary, nil, bool,
}
use tira.Parser.Rules.{infix_rule, precedence, parse_binary, prec_factor}
use tira.Parser.Grammar.{number_value}

-- A tree of operations over nodes without pointers. The operator of a binary operation is not kept.
pub data Tree (D : Type 0) : Type 0 where
  leaf : ParserNode D → Tree D
  applied : TokenType → Tree D → Tree D
  joined : Tree D → Tree D → Tree D

-- The text of a token.
abbrev pub text_of : Bytes → Token → Bytes
text_of source t = take t.length (drop t.start source)

module _ {D : Type 0} where
  abbrev pub count : Tree D → ℕ
  count (leaf n) = 1
  count (applied op e) = 1 + count e
  count (joined e g) = count e + (1 + count g)

  -- The index of the node of a tree whose nodes are put from an index on.
  abbrev pub place : ℕ → Tree D → ℕ
  place n (leaf m) = n
  place n (applied op e) = n
  place n (joined e g) = n + count e

  -- The nodes of a tree: those of the left operand, the operation, those of the right operand.
  abbrev pub nodes_of : ℕ → Tree D → List (ParserNode D)
  nodes_of n (leaf m) = m ∷ []
  nodes_of n (applied op e) = unary op (some (place (n + 1) e)) ∷ nodes_of (n + 1) e
  nodes_of n (joined e g) =
      nodes_of n e
      ++ (binary_op binop_invalid (some (place n e)) (some (place (n + count e + 1) g))
          ∷ nodes_of (n + count e + 1) g)

  module _ (to_double : Bytes → Option D) (source : Bytes) where
    -- Tokens that are an operand on their own, and their nodes.
    pub data IsAtom (t : Token) : ParserNode D → Type 0 where
      is_identifier : t.type ≡ t_ident → IsAtom t (identifier (text_of source t))
      is_string : t.type ≡ t_string → IsAtom t (string (text_of source t))
      is_nil : t.type ≡ t_nil → IsAtom t nil
      is_true : t.type ≡ t_true → IsAtom t (bool true)
      is_false : t.type ≡ t_false → IsAtom t (bool false)
      is_number :
          {n : Number D}
          → t.type ≡ t_num
          → number_value to_double (text_of source t) ≡ some n
          → IsAtom t (number n)

    -- Operands: atoms, a minus or a `!` in front of an operand, and expressions in parentheses.
    -- Expressions: operands joined by binary operators, the first two first, whatever the operators.
    mutual
      pub data Operand : List Token → Tree D → Type 0 where
        atom : {t : Token} {n : ParserNode D} → IsAtom t n → Operand (t ∷ []) (leaf n)
        prefixed :
            {op : Token} {ts : List Token} {e : Tree D}
            → (op.type ≡ t_minus) ⊎ (op.type ≡ t_not)
            → Operand ts e
            → Operand (op ∷ ts) (applied op.type e)
        grouped :
            {lp : Token} {ts : List Token} {e : Tree D} (rp : Token)
            → lp.type ≡ t_lparen
            → Expression ts e
            → rp.type ≡ t_rparen
            → Operand (lp ∷ (ts ++ rp ∷ [])) e

      pub data Expression : List Token → Tree D → Type 0 where
        single : {ts : List Token} {e : Tree D} → Operand ts e → Expression ts e
        chained :
            {ts us : List Token} {e g : Tree D} (op : Token)
            → Expression ts e
            → infix_rule op.type ≡ some parse_binary
            → Operand us g
            → Expression (ts ++ op ∷ us) (joined e g)
