-- ===== src/Codegen/Constants.antt =====
-- src/bootstrap_codegen.c: an integer constant written into the bytecode and read back.
use tira.Prelude.{ℕ, ◌+◌, ◌%◌, ◌^◌, ◌≤◌, ◌≡◌, ap, ◌∙◌, sym, List, [], some, append-nil, length}
use tira.Prelude.Int.{ℤ}
use tira.Ast.{int_value, number}
use tira.Codegen.{Code, emitted, next_slot, number_bits, emit_var_decl, to_uint64}
use tira.Codegen.Words.{
  add, loadk-Writes, loadk_int, encode, decode, IsInt64, to_int64, to_uint64-lt, to_int64-to_uint64,
  decode-encode,
}

-- Where six words are free, `var x = z` for an `int64_t` appends words that are read back as the
-- load of `z` into the slot.
pub emit_var_decl-decode :
    {D : Type 0} (double_bits : D → ℕ) (z : ℤ) (c : Code)
    → IsInt64 z
    → length c.bytecode + 6 ≤ 4096
    → (words : List ℕ) × (bits : ℕ) × (emit_var_decl double_bits (some (number (int_value z))) c
        ≡ emitted (add words (next_slot c)))
      × (decode words ≡ some (loadk_int (c.var_slots % 2 ^ 16) bits, []))
      × (to_int64 bits ≡ z)
unfolding emit_var_decl encode next_slot number_bits
emit_var_decl-decode double_bits z c h room =
    let i = loadk_int (c.var_slots % 2 ^ 16) (to_uint64 z) in
    (
      encode i,
      to_uint64 z,
      loadk-Writes c.var_slots (to_uint64 z) (next_slot c) room,
      ap decode (sym (append-nil (encode i))) ∙ decode-encode i [] (to_uint64-lt z),
      to_int64-to_uint64 z h,
    )
