-- ===== src/Codegen.antt =====
-- src/bootstrap_codegen.c: the nodes turned into words of bytecode. What `printf` writes is left
-- out.
pub mod Words
pub mod Program
pub mod Constants
pub mod Runtime
use tira.Prelude.{
  ℕ, zero, suc, ◌+◌, ◌-◌, ◌/◌, ◌%◌, ◌^◌, Bool, true, false, not, ◌&&◌, ◌||◌, List, [], ◌∷◌, ◌++◌,
  Option, none, some, length, get_elem?, ltb, leb, if◌then◌else◌, is_given,
}
use tira.Prelude.Int.{ℤ, pos, negsuc}
use tira.Ast.{
  ParserNode, Pointer, Number, int_value, real_value, BinaryOpType, binop_invalid, binop_add,
  binop_sub, binop_mul, binop_div, number, var_decl, binary_op, func_call,
}

-- The values of the opcodes.
abbrev pub byop_loadk_int : ℕ
byop_loadk_int = 2

abbrev pub byop_add_int : ℕ
byop_add_int = 3

abbrev pub byop_sub_int : ℕ
byop_sub_int = 4

abbrev pub byop_mul_int : ℕ
byop_mul_int = 5

abbrev pub byop_div_int : ℕ
byop_div_int = 6

abbrev pub byop_call : ℕ
byop_call = 7

-- The words written (their number is `code_size`) and the next slot.
pub record Code : Type 0 where
  pub bytecode : List ℕ
  pub var_slots : ℕ

-- How a run stops: an assertion fails, NULL is read, or a word is written behind the array of 4096.
pub data CodeFault : Type 0 where
  assertion null_read out_of_array : CodeFault

pub data Emitted : Type 0 where
  emitted : Code → Emitted
  stopped : CodeFault → Emitted

abbrev pub then_emit : Emitted → (Code → Emitted) → Emitted
then_emit (emitted c) f = f c
then_emit (stopped e) f = stopped e

infixl 1 ◌>>◌
abbrev pub ◌>>◌ : (Code → Emitted) → (Code → Emitted) → Code → Emitted
◌>>◌ f g c = then_emit (f c) g

unfoldable pub bytecode_emit_16 : ℕ → Code → Emitted
bytecode_emit_16 val c =
    if ltb (length c.bytecode) 4096
    then emitted (record c { bytecode = c.bytecode ++ val % 2 ^ 16 ∷ [] })
    else stopped out_of_array

unfoldable pub bytecode_emit_64 : ℕ → Code → Emitted
bytecode_emit_64 val =
    bytecode_emit_16 (val / 2 ^ 48)
    >> bytecode_emit_16 (val / 2 ^ 32)
    >> bytecode_emit_16 (val / 2 ^ 16)
    >> bytecode_emit_16 val

-- The `uint64_t` of an `int64_t`.
unfoldable pub to_uint64 : ℤ → ℕ
to_uint64 (pos n) = n % 2 ^ 64
to_uint64 (negsuc n) = 2 ^ 64 - 1 - n % 2 ^ 64

unfoldable pub next_slot : Code → Code
next_slot c = record c { var_slots = (c.var_slots + 1) % 2 ^ 16 }

-- Locals of `bootstrap_codegen_inner` that no statement sets.
pub record Unset : Type 0 where
  pub lhs_slot : ℕ
  pub rhs_slot : ℕ
  pub arg_slot_start : ℕ

unfoldable pub get_func_slot : Pointer → ℕ
get_func_slot callee = 0

-- `none` for an operation that is not emitted.
unfoldable pub opcode_of : BinaryOpType → Option ℕ
opcode_of binop_invalid = none
opcode_of binop_add = some byop_add_int
opcode_of binop_sub = some byop_sub_int
opcode_of binop_mul = some byop_mul_int
opcode_of binop_div = some byop_div_int

unfoldable pub emit_binary : Option ℕ → Unset → ℕ → Code → Emitted
emit_binary none u target_slot c = emitted c
emit_binary (some op) u target_slot c =
    (bytecode_emit_16 op
        >> bytecode_emit_16 target_slot
        >> bytecode_emit_16 u.lhs_slot
        >> bytecode_emit_16 u.rhs_slot)
      c

module _ {D : Type 0} (double_bits : D → ℕ) where
  -- The node that a pointer points to.
  unfoldable pub node_of : List (ParserNode D) → Pointer → Option (ParserNode D)
  node_of nodes none = none
  node_of nodes (some i) = get_elem? nodes i

  -- `node->int_value` of a number: the member of the union, or the bits of the other one.
  unfoldable pub number_bits : Number D → ℕ
  number_bits (int_value z) = to_uint64 z
  number_bits (real_value x) = double_bits x

  unfoldable pub emit_var_decl : Option (ParserNode D) → Code → Emitted
  emit_var_decl none c = stopped null_read
  emit_var_decl (some (number n)) c =
      (bytecode_emit_16 byop_loadk_int
          >> bytecode_emit_16 c.var_slots
          >> bytecode_emit_64 (number_bits n))
        (next_slot c)
  emit_var_decl (some _) c = stopped assertion

  -- `node->kind`, which is 0 for NODE_NUMBER, tested.
  unfoldable pub has_kind : ParserNode D → Bool
  has_kind (number n) = false
  has_kind _ = true

  -- `assert(lhs->kind && rhs->kind)`: the right operand is read only if the left one has a kind.
  unfoldable pub check_operands : Option (ParserNode D) → Option (ParserNode D) → Option CodeFault
  check_operands none r = some null_read
  check_operands (some l) none = if has_kind l then some null_read else some assertion
  check_operands (some l) (some r) = if has_kind l && has_kind r then none else some assertion

  unfoldable pub bootstrap_codegen_inner :
      Unset → List (ParserNode D) → ParserNode D → Code → Emitted
  bootstrap_codegen_inner u nodes (var_decl identifier rhs) c = emit_var_decl (node_of nodes rhs) c
  bootstrap_codegen_inner u nodes (binary_op type lhs rhs) c =
      elim (check_operands (node_of nodes lhs) (node_of nodes rhs)) [
        | some e ↦ stopped e
        | none ↦ emit_binary (opcode_of type) u c.var_slots (next_slot c)
      ]
  bootstrap_codegen_inner u nodes (func_call callee args_count) c =
      if not (is_given callee) || ltb (2 ^ 16 - 1) (args_count)
      then stopped assertion
      else (bytecode_emit_16 byop_call
            >> bytecode_emit_16 (get_func_slot callee)
            >> bytecode_emit_16 (args_count)
            >> bytecode_emit_16 u.arg_slot_start)
          c
  bootstrap_codegen_inner u nodes _ c = emitted c

  -- The loop, over the nodes that are left; each call has unset locals of its own.
  unfoldable pub codegen_loop :
      (ℕ → Unset) → List (ParserNode D) → List (ParserNode D) → Code → Emitted
  codegen_loop unset nodes [] c = emitted c
  codegen_loop unset nodes (n ∷ ns) c =
      then_emit (bootstrap_codegen_inner (unset (length ns)) nodes n c)
        (codegen_loop unset nodes ns)

  unfoldable pub bootstrap_codegen : (ℕ → Unset) → List (ParserNode D) → Code → Emitted
  bootstrap_codegen unset nodes c = codegen_loop unset nodes nodes c

-- The static variables at the start.
abbrev pub no_code : Code
no_code = record { bytecode = []; var_slots = 0 }
