-- ===== src/Parser.antt =====
-- src/parser.c: the parser's state and its utility functions. A function of the source that takes
-- the parser is a function from the state to an outcome; what is printed is not modelled.
pub mod Rules
pub mod Runs
pub mod Parts
pub mod Operators
pub mod Climb
pub mod Total
pub mod Typing
pub mod Expression
pub mod Statement
pub mod Unreached
pub mod Program
pub mod Grammar
pub mod Expr
use tira.Prelude.{
  ℕ, zero, suc, ◌+◌, ◌-◌, Bool, true, false, not, List, [], ◌∷◌, ◌++◌, Option, none, some, Bytes,
  length, get_elem?, set, take, drop, ltb, leb, ◌==◌, if◌then◌else◌,
}
use tira.Token.{TokenType, Token, is_type, t_newline}
use tira.Ast.{ParserNode, ParserNodeKind, Pointer, zero_node}

-- `tokens` holds `token_count` entries, `nodes` holds `node_count`. The parameter is the type of
-- `double`.
pub record Parser (D : Type 0) : Type 0 where
  pub source : Bytes
  pub pos : ℕ
  pub tokens : List Token
  pub nodes : List (ParserNode D)
  pub node_cap : ℕ
  pub error_count : ℕ

-- How a run stops without a result: a token is read beyond the last one, NULL is read or called,
-- the node array is full (`exit(1)`), a pointer is written behind an array, or an assertion fails. `out_of_fuel` has no counterpart in
-- the source.
pub data Fault : Type 0 where
  out_of_tokens null_read nodes_full outside_array assertion out_of_fuel : Fault

pub data Outcome (D : Type 0) (A : Type 0) : Type 0 where
  ok : A → Parser D → Outcome D A
  fault : Fault → Outcome D A

abbrev pub M : Type 0 → Type 0 → Type 0
M D A = Parser D → Outcome D A

module _ {D : Type 0} where
  abbrev pub pure : {A : Type 0} → A → M D A
  pure a p = ok a p

  abbrev pub stop : {A : Type 0} → Fault → M D A
  stop e p = fault e

  abbrev pub bind : {A B : Type 0} → Outcome D A → (A → M D B) → Outcome D B
  bind (ok a p) f = f a p
  bind (fault e) f = fault e

  infixl 1 ◌>>=◌ ◌>>◌
  abbrev pub ◌>>=◌ : {A B : Type 0} → M D A → (A → M D B) → M D B
  m >>= f = λ p. bind (m p) f

  abbrev pub ◌>>◌ : {A B : Type 0} → M D A → M D B → M D B
  m >> n = m >>= λ _. n

  abbrev pub run : {A : Type 0} → Parser D → M D A → Outcome D A
  run p m = m p

  -- A branch on a value that may be absent.
  unfoldable pub case_option : {A B : Type 0} → Option A → M D B → (A → M D B) → M D B
  case_option none m f p = m p
  case_option (some a) m f p = f a p

  -- A branch on a test.
  infix 1 when◌then◌else◌
  unfoldable pub when◌then◌else◌ : {A : Type 0} → Bool → M D A → M D A → M D A
  when◌then◌else◌ true m n p = m p
  when◌then◌else◌ false m n p = n p

  -- `p->tokens[i]`, read.
  unfoldable pub token_at : ℕ → M D Token
  token_at i p = elim (get_elem? p.tokens i) [ none ↦ fault out_of_tokens | some t ↦ ok t p ]

  -- `peek(p)` and `current(p)`, read.
  unfoldable pub peek : M D Token
  peek p = token_at p.pos p

  -- The pointer that `advance(p)` returns, as an index.
  unfoldable pub advance : M D ℕ
  advance p = ok p.pos (record p { pos = p.pos + 1 })

  unfoldable pub match : TokenType → M D Bool
  match t = do next ← peek; when is_type next.type t then (advance >> pure true) else pure false

  -- The text of a token: `token_string` and `str_intern`.
  unfoldable pub token_string : Token → M D Bytes
  token_string t p = ok (take t.length (drop t.start p.source)) p

  -- The message reads the next token.
  unfoldable pub raise_error : M D (Unit {0})
  raise_error = do next ← peek; λ p. ok tt (record p { error_count = p.error_count + 1 })

  -- `previous(p)`, read.
  unfoldable pub previous : M D Token
  previous p = if ltb 0 p.pos then token_at (p.pos - 1) p else fault assertion

  -- The index of the token, or `none` for NULL.
  unfoldable pub expect : TokenType → M D (Option ℕ)
  expect t = do
    next ← peek
    when not (is_type next.type t)
        then (raise_error >> pure none)
        else (do i ← advance; pure (some i))

  unfoldable pub new_node : ParserNodeKind → M D ℕ
  new_node k p =
      if leb p.node_cap (length p.nodes)
      then (raise_error >> stop nodes_full) p
      else ok (length p.nodes) (record p { nodes = p.nodes ++ zero_node k ∷ [] })

  -- The assignments to the fields of a node.
  unfoldable pub set_node : ℕ → ParserNode D → M D (Unit {0})
  set_node i n p = ok tt (record p { nodes = set p.nodes i n })

  unfoldable pub skip_newlines_loop : ℕ → M D (Unit {0})
  skip_newlines_loop zero p = fault out_of_fuel
  skip_newlines_loop (suc f) p = run p do
    next ← peek
    when is_type next.type t_newline then (advance >> skip_newlines_loop f) else pure tt

  -- Each round passes a token.
  unfoldable pub skip_newlines : M D (Unit {0})
  skip_newlines p = skip_newlines_loop (length p.tokens + 1) p
