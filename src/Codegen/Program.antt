-- ===== src/Codegen/Program.antt =====
-- src/bootstrap_codegen.c: the bytecode of a whole array of nodes.
use mathlib.Core.Path.{subst}
use tira.Prelude.{
  ℕ, suc, ◌+◌, ◌-◌, ◌*◌, ◌%◌, ◌^◌, ◌≤◌, ◌≡◌, ◌≢◌, refl, ap, ◌∙◌, sym, arith, Bool, true, false, not,
  ◌||◌, List, [], ◌∷◌, ◌++◌, append_assoc, append-nil, Option, none, some, length, length-append,
  ltb, is_given, Bool-cases, inl, inr,
}
use tira.Ast.{
  ParserNode, Pointer, BinaryOpType, binop_invalid, binop_add, binop_sub, binop_mul, binop_div,
  number, var_decl, binary_op, func_call,
}
use tira.Parser.Runs.{Untyped, AllUntyped}
use tira.Codegen.{
  Code, CodeFault, out_of_array, Emitted, emitted, stopped, then_emit, ◌>>◌, bytecode_emit_16,
  byop_call, has_kind, next_slot, Unset, get_func_slot, opcode_of, emit_binary, number_bits,
  emit_var_decl, check_operands, bootstrap_codegen_inner, codegen_loop, bootstrap_codegen,
}
use tira.Codegen.Words.{
  Writes, four-Writes, loadk-Writes, Instruction, loadk_int, binary, call, encode, encode_all,
  encode_all-append, length-encode_all,
}

-- The instructions that are allowed: all, or all but those on two slots.
abbrev pub IsAllowed : Bool → Instruction → Type 0
IsAllowed false (binary op target lhs rhs) = ⊥
IsAllowed _ _ = Unit

abbrev pub AllAllowed : Bool → List Instruction → Type 0
AllAllowed b [] = Unit
AllAllowed b (i ∷ is) = IsAllowed b i × AllAllowed b is

AllAllowed-append :
    (b : Bool) (is js : List Instruction)
    → AllAllowed b is
    → AllAllowed b js
    → AllAllowed b (is ++ js)
AllAllowed-append b [] js h k = k
AllAllowed-append b (i ∷ is) js (h, t) k = (h, AllAllowed-append b is js t k)

-- At most `n` instructions are written, all of them allowed, or the run stops, and not because the
-- array is full.
pub data Emits (n : ℕ) (b : Bool) (c : Code) : Emitted → Type 0 where
  writes :
      {c' : Code} (is : List Instruction)
      → c'.bytecode ≡ c.bytecode ++ encode_all is
      → length is ≤ n
      → AllAllowed b is
      → Emits n b c (emitted c')
  stops : {e : CodeFault} → e ≢ out_of_array → Emits n b c (stopped e)

Emits-one :
    {b : Bool} {c k : Code} {f : Code → Emitted} (n : ℕ) (i : Instruction)
    → Writes n f (encode i)
    → IsAllowed b i
    → k.bytecode ≡ c.bytecode
    → length c.bytecode + n ≤ 4096
    → Emits 1 b c (f k)
unfolding encode_all
Emits-one {b} {c} {k} {f} n i w h e room =
    subst (Emits 1 b c) (sym (w k (omega (arith, ap length e)))) (
      writes (i ∷ [])
        (ap (λ x. x ++ encode i) e ∙ ap (λ x. c.bytecode ++ x) (sym (append-nil (encode i))))
        (omega arith) (h, tt))

Emits-none : {b : Bool} {c k : Code} (n : ℕ) → k.bytecode ≡ c.bytecode → Emits n b c (emitted k)
unfolding encode_all
Emits-none {c} n e = writes [] (e ∙ sym (append-nil c.bytecode)) (omega arith) tt

Emits-then :
    {n : ℕ} {b : Bool} {c : Code} {o : Emitted} {f : Code → Emitted}
    → Emits 1 b c o
    → length c.bytecode + 6 ≤ 4096
    → ((c' : Code) → length c'.bytecode ≤ length c.bytecode + 6 → Emits n b c' (f c'))
    → Emits (suc n) b c (then_emit o f)
Emits-then (stops e) room k = stops e
Emits-then {n} {b} {c} {f} (writes {c'} is e l h) room k = go (f c') (
    k c' (
      omega
        (arith, ap length e, length-append c.bytecode (encode_all is), length-encode_all is, l)))
  where
    go : (o : Emitted) → Emits n b c' o → Emits (suc n) b c o
    go o (stops e) = stops e
    go o (writes js e' l' h') =
        writes (is ++ js)
          (e'
            ∙ ap (λ x. x ++ encode_all js) e
            ∙ append_assoc c.bytecode (encode_all is) (encode_all js)
            ∙ ap (λ x. c.bytecode ++ x) (sym (encode_all-append is js)))
          (omega (arith, length-append is js)) (AllAllowed-append b is js h h')

-- What a node may be where only some instructions are allowed.
abbrev pub IsPlain : {D : Type 0} → Bool → ParserNode D → Type 0
IsPlain true n = Unit
IsPlain false n = Untyped n

abbrev pub AllPlain : {D : Type 0} → Bool → List (ParserNode D) → Type 0
AllPlain b [] = Unit
AllPlain b (n ∷ ns) = IsPlain b n × AllPlain b ns

arith-Emits :
    (op slot : ℕ) (u : Unset) (c k : Code)
    → k.bytecode ≡ c.bytecode
    → length c.bytecode + 6 ≤ 4096
    → Emits 1 true c (emit_binary (some op) u slot k)
unfolding emit_binary encode
arith-Emits op slot u c k e room =
    Emits-one 4 (binary (op % 2 ^ 16) (slot % 2 ^ 16) (u.lhs_slot % 2 ^ 16) (u.rhs_slot % 2 ^ 16))
      (four-Writes op slot u.lhs_slot u.rhs_slot) tt e (omega arith)

emit_binary-Emits :
    (b : Bool) (type : BinaryOpType) (u : Unset) (slot : ℕ) (c k : Code)
    → IsPlain {D = Unit {0}} b (binary_op type none none)
    → k.bytecode ≡ c.bytecode
    → length c.bytecode + 6 ≤ 4096
    → Emits 1 b c (emit_binary (opcode_of type) u slot k)
unfolding opcode_of
emit_binary-Emits true binop_invalid u slot c k h e room = unfold emit_binary in Emits-none 1 e
emit_binary-Emits true binop_add u slot c k h e room = arith-Emits _ slot u c k e room
emit_binary-Emits true binop_sub u slot c k h e room = arith-Emits _ slot u c k e room
emit_binary-Emits true binop_mul u slot c k h e room = arith-Emits _ slot u c k e room
emit_binary-Emits true binop_div u slot c k h e room = arith-Emits _ slot u c k e room
emit_binary-Emits false type u slot c k h e room = rw h (unfold emit_binary in Emits-none 1 e)

loadk-IsAllowed : (b : Bool) (slot bits : ℕ) → IsAllowed b (loadk_int slot bits)
loadk-IsAllowed true slot bits = tt
loadk-IsAllowed false slot bits = tt

call-IsAllowed : (b : Bool) (func count start : ℕ) → IsAllowed b (call func count start)
call-IsAllowed true func count start = tt
call-IsAllowed false func count start = tt

IsPlain-type :
    (D : Type 0) (b : Bool) (type : BinaryOpType) (lhs rhs : Pointer)
    → IsPlain {D = D} b (binary_op type lhs rhs)
    → IsPlain {D = Unit {0}} b (binary_op type none none)
IsPlain-type D true type lhs rhs h = tt
IsPlain-type D false type lhs rhs h = h

-- What the test of the operands decides.
checked-Emits :
    (b : Bool) (o : Option CodeFault) (c : Code) (r : Emitted)
    → o ≢ some out_of_array
    → Emits 1 b c r
    → Emits 1 b c (elim o [ some e ↦ stopped e | none ↦ r ])
checked-Emits b none c r h k = k
checked-Emits b (some e) c r h k = stops (λ q. h (ap some q))

module _ {D : Type 0} (double_bits : D → ℕ) where
  check_operands-full :
      (l r : Option (ParserNode D)) → check_operands double_bits l r ≢ some out_of_array
  unfolding check_operands has_kind
  check_operands-full none r e = cc
  check_operands-full (some l) none e = ground arith
  check_operands-full (some l) (some r) e = ground arith

  emit_var_decl-Emits :
      (b : Bool) (n : Option (ParserNode D)) (c : Code)
      → length c.bytecode + 6 ≤ 4096
      → Emits 1 b c (emit_var_decl double_bits n c)
  unfolding emit_var_decl encode next_slot
  emit_var_decl-Emits b none c room = stops (λ e. cc)
  emit_var_decl-Emits b (some (number n)) c room =
      Emits-one 6 (loadk_int (c.var_slots % 2 ^ 16) (number_bits double_bits n))
        (loadk-Writes c.var_slots (number_bits double_bits n)) (loadk-IsAllowed b _ _) refl room
  emit_var_decl-Emits b (some _) c room = stops (λ e. cc)

  call-Emits :
      (b : Bool) (u : Unset) (callee : Pointer) (count : ℕ) (c : Code)
      → length c.bytecode + 6 ≤ 4096
      → Emits 1 b c (
          (bytecode_emit_16 byop_call
              >> bytecode_emit_16 (get_func_slot callee)
              >> bytecode_emit_16 count
              >> bytecode_emit_16 u.arg_slot_start)
            c)
  unfolding encode
  call-Emits b u callee count c room =
      Emits-one 4
        (call (get_func_slot callee % 2 ^ 16) (count % 2 ^ 16) (u.arg_slot_start % 2 ^ 16))
        (four-Writes byop_call (get_func_slot callee) count u.arg_slot_start)
        (call-IsAllowed b _ _ _) refl (omega arith)

  inner-Emits :
      (b : Bool) (u : Unset) (nodes : List (ParserNode D)) (n : ParserNode D) (c : Code)
      → IsPlain b n
      → length c.bytecode + 6 ≤ 4096
      → Emits 1 b c (bootstrap_codegen_inner double_bits u nodes n c)
  unfolding bootstrap_codegen_inner next_slot
  inner-Emits b u nodes (var_decl identifier rhs) c h room = emit_var_decl-Emits b _ c room
  inner-Emits b u nodes (binary_op type lhs rhs) c h room =
      checked-Emits b _ c _ (check_operands-full _ _) (
        emit_binary-Emits b type u c.var_slots c (next_slot c) (IsPlain-type D b type lhs rhs h)
          refl room)
  inner-Emits b u nodes (func_call callee args_count) c h room =
      elim (Bool-cases (not (is_given callee) || ltb (2 ^ 16 - 1) args_count)) [
        | inl e ↦ rw e (stops (λ q. cc))
        | inr e ↦ rw e (call-Emits b u callee args_count c room)
      ]
  inner-Emits b u nodes _ c h room = Emits-none 1 refl

  codegen_loop-Emits :
      (b : Bool) (unset : ℕ → Unset) (nodes ns : List (ParserNode D)) (c : Code)
      → AllPlain b ns
      → length c.bytecode + 6 * length ns ≤ 4096
      → Emits (length ns) b c (codegen_loop double_bits unset nodes ns c)
  unfolding codegen_loop
  codegen_loop-Emits b unset nodes [] c h room = Emits-none 0 refl
  codegen_loop-Emits b unset nodes (n ∷ ns) c (h, t) room =
      Emits-then (inner-Emits b (unset (length ns)) nodes n c h (omega arith)) (omega arith)
        (λ c' l. codegen_loop-Emits b unset nodes ns c' t (omega (arith, l)))

  AllPlain-true : (ns : List (ParserNode D)) → AllPlain true ns
  AllPlain-true [] = tt
  AllPlain-true (n ∷ ns) = (tt, AllPlain-true ns)

  AllPlain-false : (ns : List (ParserNode D)) → AllUntyped ns → AllPlain false ns
  AllPlain-false [] h = tt
  AllPlain-false (n ∷ ns) (h, t) = (h, AllPlain-false ns t)

  -- From an empty array of bytecode, 682 nodes or fewer never fill it: the run ends with the words of
  -- at most one instruction for each node, or it stops where an assertion fails or NULL is read.
  pub bootstrap_codegen-Emits :
      (unset : ℕ → Unset) (nodes : List (ParserNode D)) (c : Code)
      → c.bytecode ≡ []
      → length nodes ≤ 682
      → Emits (length nodes) true c (bootstrap_codegen double_bits unset nodes c)
  unfolding bootstrap_codegen
  bootstrap_codegen-Emits unset nodes c e h =
      codegen_loop-Emits true unset nodes nodes c (AllPlain-true nodes)
        (omega (arith, ap length e, h))

  -- The same, and no arithmetic is written where no binary operation has an operator.
  pub untyped-Emits :
      (unset : ℕ → Unset) (nodes : List (ParserNode D)) (c : Code)
      → c.bytecode ≡ []
      → length nodes ≤ 682
      → AllUntyped nodes
      → Emits (length nodes) false c (bootstrap_codegen double_bits unset nodes c)
  unfolding bootstrap_codegen
  untyped-Emits unset nodes c e h u =
      codegen_loop-Emits false unset nodes nodes c (AllPlain-false nodes u)
        (omega (arith, ap length e, h))
