-- ===== src/Parser/Statement/Whole.antt =====
-- src/parser.c: programs in front of `parse_program`, whole.
use tira.Prelude.{
  ℕ, zero, suc, ◌+◌, ◌*◌, ◌%◌, ◌^◌, ◌≤◌, ◌<◌, ◌≡◌, refl, ap, ◌∙◌, sym, arith, List, [], ◌∷◌, ◌++◌,
  append_assoc, append-nil, some, Option, Bytes, length, length-append, length-set, set, set-at,
  inl, inr, ◌⊎◌,
}
use tira.Token.{Token, t_end, t_newline, t_semicolon}
use tira.Ast.{ParserNode, block, zero_node, node_block}
use tira.Parser.{Parser, ok}
use tira.Parser.Rules.{precedence}
use tira.Parser.Expr.{program_loop, parse_program}
use tira.Parser.Expression.{Tree, leaf, applied, joined, count}
use tira.Parser.Expression.Reads.{length-nodes_of}
use tira.Parser.Expression.Steps.{
  ahead, ahead-After, passed, passed-After, with_node, new_node-room,
}
use tira.Parser.Expression.Atoms.{filled}
use tira.Parser.Statement.{
  Stmt, expression, returned, declared, stmt_count, stmt_nodes, stmt_place, stmts_count,
  stmts_nodes, Statement, Program, ended, blank, last_stmt, stmt,
}
use tira.Parser.Statement.Complete.{StmtFaces, StmtReads, Statement-StmtReads}
use tira.Parser.Statement.Loop.{
  Statement-StmtOpens, block-added, program_loop-ends, program_loop-blank, program_loop-last,
  program_loop-next,
}

end-precedence : (t : Token) → t.type ≡ t_end → precedence t.type ≡ 0
unfolding precedence
end-precedence t e = ap precedence e

separator-precedence :
    (t : Token) → (t.type ≡ t_newline) ⊎ (t.type ≡ t_semicolon) → precedence t.type ≡ 0
unfolding precedence
separator-precedence t (inl e) = ap precedence e
separator-precedence t (inr e) = ap precedence e

-- The count of a block behind one more statement.
abbrev next_count : ℕ → ℕ
next_count n = (n + 1) % 2 ^ 16

module _ {D : Type 0} where
  -- The same behind some more.
  abbrev added : ℕ → List (Stmt D) → ℕ
  added n [] = n
  added n (s ∷ ss) = added (next_count n) ss

  added-length : (n : ℕ) (ss : List (Stmt D)) → n + length ss < 2 ^ 16 → added n ss ≡ n + length ss
  added-length n [] h = omega arith
  added-length n (s ∷ ss) h =
      let small : next_count n ≡ n + 1 = omega arith in
      added-length (next_count n) ss (omega (arith, small)) ∙ omega (arith, small)

  count_pos : (e : Tree D) → 0 < count e
  count_pos (leaf n) = omega arith
  count_pos (applied op e) = omega arith
  count_pos (joined e g) = omega arith

  stmt_count_pos : (s : Stmt D) → 0 < stmt_count s
  stmt_count_pos (expression e) = omega (arith, count_pos e)
  stmt_count_pos (returned e) = omega arith
  stmt_count_pos (declared is_var name e) = omega arith

  length-stmts_count : (ss : List (Stmt D)) → length ss ≤ stmts_count ss
  length-stmts_count [] = omega arith
  length-stmts_count (s ∷ ss) = omega (arith, stmt_count_pos s, length-stmts_count ss)

  length-stmt_nodes : (n : ℕ) (s : Stmt D) → length (stmt_nodes n s) ≡ stmt_count s
  length-stmt_nodes n (expression e) = length-nodes_of n e
  length-stmt_nodes n (returned e) = omega (arith, length-nodes_of (n + 1) e)
  length-stmt_nodes n (declared v name e) = omega (arith, length-nodes_of (n + 2) e)

  module _ (to_double : Bytes → Option D) (source : Bytes) where
    -- A parser in front of a program: the block of its statements so far, and the nodes behind the block.
    record Programs (F : ℕ) (p : Parser D) (pre ns : List (ParserNode D)) (stmts : ℕ)
        (ts : List Token) (ss : List (Stmt D)) : Type 0 where
      from_source : p.source ≡ source
      facing : ahead p ≡ ts
      blocks : p.nodes ≡ pre ++ block stmts ∷ ns
      room : length p.nodes + stmts_count ss ≤ p.node_cap
      fuel : 4 * length ts + 4 ≤ F

    -- All statements are in the block, and their nodes are there, and there is no error.
    record Ends (F : ℕ) (p : Parser D) (pre ns : List (ParserNode D)) (stmts : ℕ)
        (ss : List (Stmt D)) : Type 0 where
      end : Parser D
      runs : program_loop to_double F (length pre) p ≡ ok tt end
      made : end.nodes ≡ pre ++ block (added stmts ss) ∷ (ns ++ stmts_nodes (length p.nodes) ss)
      same_errors : end.error_count ≡ p.error_count

    -- A statement, added to the block.
    record Adds (f : ℕ) (p : Parser D) (pre ns : List (ParserNode D)) (stmts : ℕ)
        (us rest : List Token) (s : Stmt D) : Type 0 where
      reads : StmtReads to_double source f p us s
      made :
          set reads.end.nodes (length pre) (block (next_count stmts))
          ≡ pre ++ block (next_count stmts) ∷ (ns ++ stmt_nodes (length p.nodes) s)
      facing : ahead reads.end ≡ rest
      before : reads.end.nodes ≡ pre ++ block stmts ∷ (ns ++ stmt_nodes (length p.nodes) s)

    Statement-Adds :
        (f : ℕ) (p : Parser D) (pre ns : List (ParserNode D)) (stmts : ℕ) (us more : List Token)
        (s : Stmt D) (t : Token)
        → Statement to_double source us s
        → StmtFaces to_double source f p us s t more
        → p.nodes ≡ pre ++ block stmts ∷ ns
        → Adds f p pre ns stmts us (t ∷ more) s
    Statement-Adds f p pre ns stmts us more s t d h blocks =
        let r = Statement-StmtReads to_double source f p us s t more d h in
        let before : r.end.nodes ≡ pre ++ block stmts ∷ (ns ++ stmt_nodes (length p.nodes) s) =
          r.after.made
          ∙ ap (λ l. l ++ stmt_nodes (length p.nodes) s) blocks
          ∙ append_assoc pre (block stmts ∷ ns) (stmt_nodes (length p.nodes) s) in
        record {
          reads = r;
          made =
              ap (λ l. set l (length pre) (block (next_count stmts))) before
              ∙ set-at pre (ns ++ stmt_nodes (length p.nodes) s) (block stmts) _;
          facing = ahead-After us (t ∷ more) r.after h.facing refl;
          before = before;
        }

    -- The parser in front of a statement of a program.
    stmt_faces :
        (f : ℕ) (p : Parser D) (pre ns : List (ParserNode D)) (stmts : ℕ) (us more : List Token)
        (s : Stmt D) (ss : List (Stmt D)) (t : Token)
        → Programs (suc f) p pre ns stmts (us ++ t ∷ more) (s ∷ ss)
        → precedence t.type ≡ 0
        → StmtFaces to_double source f p us s t more
    stmt_faces f p pre ns stmts us more s ss t h low = record {
      from_source = h.from_source;
      facing = h.facing;
      last = low;
      room = omega (arith, h.room);
      fuel = omega (arith, h.fuel, length-append us (t ∷ more));
    }

    -- The number of nodes behind a statement.
    length-Adds :
        (f : ℕ) (p : Parser D) (pre ns : List (ParserNode D)) (stmts : ℕ) (us rest : List Token)
        (s : Stmt D) (a : Adds f p pre ns stmts us rest s)
        → length (set a.reads.end.nodes (length pre) (block (next_count stmts)))
          ≡ length p.nodes + stmt_count s
    length-Adds f p pre ns stmts us rest s a = omega (
      arith,
      length-set a.reads.end.nodes (length pre) (block (next_count stmts)),
      ap (λ l. length l) a.reads.after.made,
      length-append p.nodes (stmt_nodes (length p.nodes) s),
      length-stmt_nodes (length p.nodes) s,
    )

    -- Nothing is added where no statement is left.
    nothing_added :
        (pre ns : List (ParserNode D)) (stmts : ℕ)
        → pre ++ block stmts ∷ ns ≡ pre ++ block stmts ∷ (ns ++ [])
    nothing_added pre ns stmts = ap (λ l. pre ++ block stmts ∷ l) (sym (append-nil ns))

    -- What one statement adds and what the others add.
    both_added :
        (n m : ℕ) (pre ns : List (ParserNode D)) (stmts : ℕ) (s : Stmt D) (ss : List (Stmt D))
        → m ≡ n + stmt_count s
        → pre ++ block (added stmts (s ∷ ss)) ∷ ((ns ++ stmt_nodes n s) ++ stmts_nodes m ss)
          ≡ pre ++ block (added stmts (s ∷ ss)) ∷ (ns ++ stmts_nodes n (s ∷ ss))
    both_added n m pre ns stmts s ss e =
        ap (λ k. pre ++ block (added stmts (s ∷ ss)) ∷ ((ns ++ stmt_nodes n s) ++ stmts_nodes k ss))
          e
        ∙ ap (λ l. pre ++ block (added stmts (s ∷ ss)) ∷ l)
            (append_assoc ns (stmt_nodes n s) (stmts_nodes (n + stmt_count s) ss))

    Program-Ends :
        (F : ℕ) (p : Parser D) (pre ns : List (ParserNode D)) (stmts : ℕ) (ts : List Token)
        (ss : List (Stmt D))
        → Program to_double source ts ss
        → Programs F p pre ns stmts ts ss
        → Ends F p pre ns stmts ss
    Program-Ends zero p pre ns stmts ts ss d h = absurd (omega (arith, h.fuel))
    Program-Ends (suc f) p pre ns stmts _ _ (ended {t = t} {more = more} e) h = record {
      end = p;
      runs = program_loop-ends to_double f (length pre) p t more h.facing e;
      made = h.blocks ∙ nothing_added pre ns stmts;
      same_errors = refl;
    }
    Program-Ends (suc f) p pre ns stmts _ ss (blank {t = t} {ts = ts} s d) h =
        let r = Program-Ends f (passed p) pre ns stmts ts ss d (record {
          from_source = h.from_source;
          facing = ahead-After (t ∷ []) ts (passed-After p) h.facing refl;
          blocks = h.blocks;
          room = h.room;
          fuel = omega (arith, h.fuel);
        }) in
        record {
          end = r.end;
          runs = program_loop-blank to_double f (length pre) p t ts h.facing s ∙ r.runs;
          made = r.made;
          same_errors = r.same_errors;
        }
    Program-Ends (suc f) p pre ns stmts _ _ (last_stmt {us = us} {s = s} t more d e) h =
        let o = Statement-StmtOpens to_double source us s d in
        let a =
          Statement-Adds f p pre ns stmts us more s t d
            (stmt_faces f p pre ns stmts us more s [] t h (end-precedence t e)) h.blocks in
        let q = a.reads.end in
        let stmt_at = some (stmt_place (length p.nodes) s) in
        record {
          end = filled (length pre) (block (next_count stmts)) q;
          runs =
              program_loop-last to_double f (length pre) p q _ o.first t (o.others ++ t ∷ more) more
                stmt_at (h.facing ∙ ap (λ l. l ++ t ∷ more) o.whole) o.inside a.reads.runs
                (block-added q pre (ns ++ stmt_nodes (length p.nodes) s) stmts stmt_at a.before)
                a.facing e;
          made =
              a.made
              ∙ ap (λ l. pre ++ block (next_count stmts) ∷ (ns ++ l))
                  (sym (append-nil (stmt_nodes (length p.nodes) s)));
          same_errors = a.reads.after.same_errors;
        }
    Program-Ends (suc f) p pre ns stmts _ _ (stmt {us = us} {ts = ts} {s = s} {ss = ss} t d e rest)
          h =
        let o = Statement-StmtOpens to_double source us s d in
        let a =
          Statement-Adds f p pre ns stmts us ts s t d
            (stmt_faces f p pre ns stmts us ts s ss t h (separator-precedence t e)) h.blocks in
        let q = a.reads.end in
        let stmt_at = some (stmt_place (length p.nodes) s) in
        let q' = filled (length pre) (block (next_count stmts)) q in
        let size = length-Adds f p pre ns stmts us (t ∷ ts) s a in
        let r =
          Program-Ends f (passed q') pre (ns ++ stmt_nodes (length p.nodes) s) (next_count stmts) ts
            ss rest
            (record {
              from_source = a.reads.after.same_source ∙ h.from_source;
              facing = ahead-After (t ∷ []) ts (passed-After q') a.facing refl;
              blocks = a.made;
              room = omega (arith, h.room, size, a.reads.after.same_cap);
              fuel = omega (arith, h.fuel, length-append us (t ∷ ts));
            }) in
        record {
          end = r.end;
          runs =
              program_loop-next to_double f (length pre) p q q' o.first t (o.others ++ t ∷ ts) ts
                stmt_at (h.facing ∙ ap (λ l. l ++ t ∷ ts) o.whole) o.inside a.reads.runs
                (block-added q pre (ns ++ stmt_nodes (length p.nodes) s) stmts stmt_at a.before)
                a.facing e
              ∙ r.runs;
          made = r.made ∙ both_added (length p.nodes) (length q'.nodes) pre ns stmts s ss size;
          same_errors = r.same_errors ∙ a.reads.after.same_errors;
        }

module _ {D : Type 0} (to_double : Bytes → Option D) where
  -- A program of the grammar, ahead of a parser with room and fuel: its block and its nodes are added,
  -- and no error is.
  pub parse_program-Program :
      (F : ℕ) (p : Parser D) (ts : List Token) (ss : List (Stmt D))
      → Program to_double p.source ts ss
      → ahead p ≡ ts
      → length p.nodes + (1 + stmts_count ss) ≤ p.node_cap
      → stmts_count ss < 2 ^ 16
      → 4 * length ts + 4 ≤ F
      → (q : Parser D) × (parse_program to_double F p ≡ ok tt q)
        × (q.nodes ≡ p.nodes ++ block (length ss) ∷ stmts_nodes (length p.nodes + 1) ss)
        × (q.error_count ≡ p.error_count)
  unfolding parse_program zero_node
  parse_program-Program F p ts ss d h room few fuel =
      let p' = with_node node_block p in
      let start : length p'.nodes ≡ length p.nodes + 1 =
        omega (arith, length-append p.nodes (zero_node node_block ∷ [])) in
      let r = Program-Ends to_double p.source F p' p.nodes [] 0 ts ss d (record {
        from_source = refl;
        facing = h;
        blocks = refl;
        room = omega (arith, room, start);
        fuel = fuel;
      }) in
      (
        r.end,
        rw (new_node-room node_block p (omega (arith, room))) r.runs,
        r.made
            ∙ ap (λ n. p.nodes ++ block (added 0 ss) ∷ stmts_nodes n ss) start
            ∙ ap (λ n. p.nodes ++ block n ∷ stmts_nodes (length p.nodes + 1) ss)
                (added-length 0 ss (omega (arith, few, length-stmts_count ss)) ∙ omega arith),
        r.same_errors,
      )
