-- ===== src/Parser/Expression/Atoms.antt =====
-- src/parser.c: the Pratt parser on tokens that are an operand on their own.
use tira.Prelude.{
  ℕ, suc, ◌+◌, ◌<◌, ◌≡◌, refl, ap, ◌∙◌, sym, arith, List, [], ◌∷◌, ◌++◌, append_assoc, Option, some,
  Bytes, length, length-append, set, set-at,
}
use tira.Token.{Token, is_type, token_index, t_true}
use tira.Ast.{
  ParserNode, ParserNodeKind, Number, zero_node, number, string, identifier, bool, node_number,
  node_string, node_identifier, node_nil, node_bool,
}
use tira.Parser.{Parser, ok, token_string, set_node, case_option}
use tira.Parser.Rules.{Prefix, prefix_rule}
use tira.Parser.Grammar.{
  parse_identifier, parse_string, parse_nil, parse_bool, parse_number, number_value,
}
use tira.Parser.Expr.{run_prefix}
use tira.Parser.Expression.{
  text_of, IsAtom, is_identifier, is_string, is_nil, is_true, is_false, is_number,
}
use tira.Parser.Expression.Steps.{
  ahead, After, After-trans, passed, passed-After, previous-passed, with_node, new_node-room,
}

module _ {D : Type 0} where
  pub with_node-After :
      (k : ParserNodeKind) (p : Parser D) → After p (with_node k p) 0 (zero_node k ∷ [])
  with_node-After k p = record {
    same_source = refl;
    same_tokens = refl;
    same_cap = refl;
    same_errors = refl;
    further = omega arith;
    made = refl;
  }

  abbrev pub filled : ℕ → ParserNode D → Parser D → Parser D
  filled i n q = record q { nodes = set q.nodes i n }

  -- One of the nodes that were made is filled.
  pub filled-After :
      {p q : Parser D} {k : ℕ} (ns ms : List (ParserNode D)) (i : ℕ) (z n : ParserNode D)
      → After p q k (ns ++ z ∷ ms)
      → i ≡ length p.nodes + length ns
      → After p (filled i n q) k (ns ++ n ∷ ms)
  filled-After {p = p} {q} {k} ns ms i z n a e = record {
    same_source = a.same_source;
    same_tokens = a.same_tokens;
    same_cap = a.same_cap;
    same_errors = a.same_errors;
    further = a.further;
    made =
        ap (λ l. set l i n) (a.made ∙ sym (append_assoc p.nodes ns (z ∷ ms)))
        ∙ ap (λ j. set ((p.nodes ++ ns) ++ z ∷ ms) j n) at_length
        ∙ set-at (p.nodes ++ ns) ms z n
        ∙ append_assoc p.nodes ns (n ∷ ms);
  }
    where
      at_length : i ≡ length (p.nodes ++ ns)
      at_length = omega (arith, length-append p.nodes ns)

  module _ (to_double : Bytes → Option D) where
    -- What the function of an atom does behind its token.
    pub record AtomRuns (f : ℕ) (p : Parser D) (t : Token) (n : ParserNode D) : Type 0 where
      pub rule : Prefix
      pub ruled : prefix_rule t.type ≡ some rule
      pub end : Parser D
      pub runs : run_prefix to_double (suc f) rule (passed p) ≡ ok (some (length p.nodes)) end
      pub after : After p end 1 (n ∷ [])

    pub atom_after :
        (k : ParserNodeKind) (p : Parser D) (n : ParserNode D)
        → After p (filled (length p.nodes) n (with_node k (passed p))) 1 (n ∷ [])
    atom_after k p n =
        filled-After [] [] (length p.nodes) (zero_node k) n
          (After-trans (passed-After p) (with_node-After k (passed p))) (omega arith)

    pub identifier-AtomRuns :
        (f : ℕ) (p : Parser D) (t : Token) (rest : List Token)
        → ahead p ≡ t ∷ rest
        → length p.nodes < p.node_cap
        → run_prefix to_double (suc f) Prefix.parse_identifier (passed p)
          ≡ ok (some (length p.nodes)) (
              filled
                (length p.nodes)
                (identifier (text_of p.source t))
                (with_node node_identifier (passed p)))
    unfolding run_prefix parse_identifier token_string set_node
    identifier-AtomRuns f p t rest h room =
        rw (new_node-room node_identifier (passed p) room)
          (rw (previous-passed (with_node node_identifier p) t rest h) refl)

    string-AtomRuns :
        (f : ℕ) (p : Parser D) (t : Token) (rest : List Token)
        → ahead p ≡ t ∷ rest
        → length p.nodes < p.node_cap
        → run_prefix to_double (suc f) Prefix.parse_string (passed p)
          ≡ ok (some (length p.nodes)) (
              filled
                (length p.nodes)
                (string (text_of p.source t))
                (with_node node_string (passed p)))
    unfolding run_prefix parse_string token_string set_node
    string-AtomRuns f p t rest h room =
        rw (new_node-room node_string (passed p) room)
          (rw (previous-passed (with_node node_string p) t rest h) refl)

    bool-AtomRuns :
        (f : ℕ) (p : Parser D) (t : Token) (rest : List Token)
        → ahead p ≡ t ∷ rest
        → length p.nodes < p.node_cap
        → run_prefix to_double (suc f) Prefix.parse_bool (passed p)
          ≡ ok (some (length p.nodes)) (
              filled
                (length p.nodes)
                (bool (is_type t.type t_true))
                (with_node node_bool (passed p)))
    unfolding run_prefix parse_bool set_node
    bool-AtomRuns f p t rest h room =
        rw (new_node-room node_bool (passed p) room)
          (rw (previous-passed (with_node node_bool p) t rest h) refl)

    number-AtomRuns :
        (f : ℕ) (p : Parser D) (t : Token) (rest : List Token) (n : Number D)
        → ahead p ≡ t ∷ rest
        → length p.nodes < p.node_cap
        → number_value to_double (text_of p.source t) ≡ some n
        → run_prefix to_double (suc f) Prefix.parse_number (passed p)
          ≡ ok
              (some (length p.nodes))
              (filled (length p.nodes) (number n) (with_node node_number (passed p)))
    unfolding run_prefix parse_number token_string set_node case_option
    number-AtomRuns f p t rest n h room value =
        rw (new_node-room node_number (passed p) room)
          (rw (previous-passed (with_node node_number p) t rest h) (rw (value, case_option) refl))

    nil-AtomRuns :
        (f : ℕ) (p : Parser D) (t : Token) (rest : List Token)
        → ahead p ≡ t ∷ rest
        → length p.nodes < p.node_cap
        → run_prefix to_double (suc f) Prefix.parse_nil (passed p)
          ≡ ok (some (length p.nodes)) (with_node node_nil (passed p))
    unfolding run_prefix parse_nil
    nil-AtomRuns f p t rest h room = rw (new_node-room node_nil (passed p) room) refl

    pub IsAtom-AtomRuns :
        (f : ℕ) (p : Parser D) (t : Token) (rest : List Token) (n : ParserNode D)
        → ahead p ≡ t ∷ rest
        → length p.nodes < p.node_cap
        → IsAtom to_double p.source t n
        → AtomRuns f p t n
    unfolding prefix_rule token_index zero_node
    IsAtom-AtomRuns f p t rest n h room (is_identifier e) = record {
      rule = Prefix.parse_identifier;
      ruled = ap prefix_rule e;
      end = _;
      runs = identifier-AtomRuns f p t rest h room;
      after = atom_after node_identifier p n;
    }
    IsAtom-AtomRuns f p t rest n h room (is_string e) = record {
      rule = Prefix.parse_string;
      ruled = ap prefix_rule e;
      end = _;
      runs = string-AtomRuns f p t rest h room;
      after = atom_after node_string p n;
    }
    IsAtom-AtomRuns f p t rest n h room (is_nil e) = record {
      rule = Prefix.parse_nil;
      ruled = ap prefix_rule e;
      end = _;
      runs = nil-AtomRuns f p t rest h room;
      after = After-trans (passed-After p) (with_node-After node_nil (passed p));
    }
    IsAtom-AtomRuns f p t rest n h room (is_true e) = record {
      rule = Prefix.parse_bool;
      ruled = ap prefix_rule e;
      end = _;
      runs =
          bool-AtomRuns f p t rest h room
          ∙ ap
              (λ u. ok (some (length p.nodes)) (
                filled (length p.nodes) (bool (is_type u t_true)) (with_node node_bool (passed p))))
              e;
      after = atom_after node_bool p n;
    }
    IsAtom-AtomRuns f p t rest n h room (is_false e) = record {
      rule = Prefix.parse_bool;
      ruled = ap prefix_rule e;
      end = _;
      runs =
          bool-AtomRuns f p t rest h room
          ∙ ap
              (λ u. ok (some (length p.nodes)) (
                filled (length p.nodes) (bool (is_type u t_true)) (with_node node_bool (passed p))))
              e;
      after = atom_after node_bool p n;
    }
    IsAtom-AtomRuns f p t rest _ h room (is_number {n = n} e value) = record {
      rule = Prefix.parse_number;
      ruled = ap prefix_rule e;
      end = _;
      runs = number-AtomRuns f p t rest n h room value;
      after = atom_after node_number p (number n);
    }
