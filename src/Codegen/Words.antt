-- ===== src/Codegen/Words.antt =====
-- src/bootstrap_codegen.c: the words that are written, as instructions.
use tira.Prelude.{
  ℕ, ◌+◌, ◌-◌, ◌*◌, ◌/◌, ◌%◌, ◌^◌, ◌≤◌, ◌<◌, ◌≡◌, ◌≢◌, refl, ap, ◌∙◌, sym, arith, true, false, List,
  [], ◌∷◌, ◌++◌, append_assoc, Option, none, some, length, length-append, ltb, ◌==◌, if◌then◌else◌,
}
use tira.Prelude.Int.{ℤ, pos, negsuc}
use tira.Codegen.{
  Code, Emitted, emitted, then_emit, ◌>>◌, bytecode_emit_16, bytecode_emit_64, to_uint64,
  byop_loadk_int, byop_call,
}

abbrev pub add : List ℕ → Code → Code
add ws c = record c { bytecode = c.bytecode ++ ws }

-- Where there is room for `n` words, the words are written.
abbrev pub Writes : ℕ → (Code → Emitted) → List ℕ → Type 0
Writes n f ws = (c : Code) → length c.bytecode + n ≤ 4096 → f c ≡ emitted (add ws c)

pub Writes-then :
    (n m : ℕ) {f g : Code → Emitted} {ws vs : List ℕ}
    → length ws ≡ n
    → Writes n f ws
    → Writes m g vs
    → Writes (n + m) (f >> g) (ws ++ vs)
Writes-then n m {f} {g} {ws} {vs} l p q c h =
    ap (λ o. then_emit o g) (p c (omega arith))
    ∙ q (add ws c) (omega (arith, l, length-append c.bytecode ws))
    ∙ ap (λ b. emitted (record c { bytecode = b })) (append_assoc c.bytecode ws vs)

pub emit_16-Writes : (val : ℕ) → Writes 1 (bytecode_emit_16 val) (val % 2 ^ 16 ∷ [])
unfolding bytecode_emit_16
emit_16-Writes val c h = ground arith

-- Two, four and six words.
pub four-Writes :
    (a b x y : ℕ)
    → Writes 4
        (bytecode_emit_16 a >> bytecode_emit_16 b >> bytecode_emit_16 x >> bytecode_emit_16 y)
        (a % 2 ^ 16 ∷ b % 2 ^ 16 ∷ x % 2 ^ 16 ∷ y % 2 ^ 16 ∷ [])
four-Writes a b x y =
    Writes-then 3 1 refl
      (Writes-then 2 1 refl (Writes-then 1 1 refl (emit_16-Writes a) (emit_16-Writes b))
        (emit_16-Writes x))
      (emit_16-Writes y)

abbrev pub words_64 : ℕ → List ℕ
words_64 val =
    val / 2 ^ 48 % 2 ^ 16 ∷ val / 2 ^ 32 % 2 ^ 16 ∷ val / 2 ^ 16 % 2 ^ 16 ∷ val % 2 ^ 16 ∷ []

emit_64-Writes : (val : ℕ) → Writes 4 (bytecode_emit_64 val) (words_64 val)
unfolding bytecode_emit_64
emit_64-Writes val = four-Writes (val / 2 ^ 48) (val / 2 ^ 32) (val / 2 ^ 16) val

pub loadk-Writes :
    (slot val : ℕ)
    → Writes 6
        (bytecode_emit_16 byop_loadk_int >> bytecode_emit_16 slot >> bytecode_emit_64 val)
        (byop_loadk_int ∷ slot % 2 ^ 16 ∷ words_64 val)
loadk-Writes slot val =
    Writes-then 2 4 refl
      (Writes-then 1 1 refl (emit_16-Writes byop_loadk_int) (emit_16-Writes slot))
      (emit_64-Writes val)

-- The instructions of the bytecode.
pub data Instruction : Type 0 where
  loadk_int : (slot bits : ℕ) → Instruction
  binary : (op target lhs rhs : ℕ) → Instruction
  call : (func count start : ℕ) → Instruction

-- The `int64_t` of a `uint64_t`.
unfoldable pub to_int64 : ℕ → ℤ
to_int64 n = if ltb n (2 ^ 63) then pos n else negsuc (2 ^ 64 - 1 - n)

-- One instruction read from the words, and the words behind it.
unfoldable pub decode : List ℕ → Option (Instruction × List ℕ)
decode (op ∷ a ∷ b ∷ x ∷ rest) =
    if op == byop_loadk_int
    then elim rest [
      | (y ∷ z ∷ rest) ↦ some (loadk_int a (b * 2 ^ 48 + x * 2 ^ 32 + y * 2 ^ 16 + z), rest)
      | _ ↦ none
    ]
    else if op == byop_call
    then some (call a b x, rest)
    else some (binary op a b x, rest)
decode _ = none

unfoldable pub encode : Instruction → List ℕ
encode (loadk_int slot bits) = byop_loadk_int ∷ slot ∷ words_64 bits
encode (binary op target lhs rhs) = op ∷ target ∷ lhs ∷ rhs ∷ []
encode (call func count start) = byop_call ∷ func ∷ count ∷ start ∷ []

-- The integers of 64 bits.
abbrev pub IsInt64 : ℤ → Type 0
IsInt64 (pos n) = n < 2 ^ 63
IsInt64 (negsuc n) = n < 2 ^ 63

-- The operations are those on two slots; the constants fit.
abbrev pub IsEncodable : Instruction → Type 0
IsEncodable (loadk_int slot bits) = bits < 2 ^ 64
IsEncodable (binary op target lhs rhs) = (op ≢ byop_loadk_int) × (op ≢ byop_call)
IsEncodable (call func count start) = Unit

pub to_uint64-lt : (z : ℤ) → to_uint64 z < 2 ^ 64
unfolding to_uint64
to_uint64-lt (pos n) = omega arith
to_uint64-lt (negsuc n) = omega arith

-- An `int64_t` that is converted to `uint64_t` for the bytecode is got back from it.
pub to_int64-to_uint64 : (z : ℤ) → IsInt64 z → to_int64 (to_uint64 z) ≡ z
unfolding to_int64 to_uint64
to_int64-to_uint64 (pos n) h =
    let low : n % 2 ^ 64 ≡ n = omega arith in
    let small : ltb n (2 ^ 63) ≡ true = ground arith in ap to_int64 low ∙ rw (small, to_int64) refl
to_int64-to_uint64 (negsuc n) h =
    let low : 2 ^ 64 - 1 - n % 2 ^ 64 ≡ 2 ^ 64 - 1 - n = omega arith in
    let large : ltb (2 ^ 64 - 1 - n) (2 ^ 63) ≡ false = ground arith in
    let back : 2 ^ 64 - 1 - (2 ^ 64 - 1 - n) ≡ n = omega arith in
    ap to_int64 low ∙ rw (large, to_int64) (ap negsuc back)

joined :
    (v : ℕ)
    → v < 2 ^ 64
    → v / 2 ^ 48 % 2 ^ 16 * 2 ^ 48
        + v / 2 ^ 32 % 2 ^ 16 * 2 ^ 32
        + v / 2 ^ 16 % 2 ^ 16 * 2 ^ 16
        + v % 2 ^ 16
      ≡ v
joined v h = omega arith

-- What is written for an instruction is read back as the instruction, with the words behind it.
pub decode-encode :
    (i : Instruction) (rest : List ℕ) → IsEncodable i → decode (encode i ++ rest) ≡ some (i, rest)
unfolding decode encode
decode-encode (loadk_int slot bits) rest h = ap (λ v. some (loadk_int slot v, rest)) (joined bits h)
decode-encode (binary op target lhs rhs) rest (a, b) =
    let x : (op == byop_loadk_int) ≡ false = ground arith in
    let y : (op == byop_call) ≡ false = ground arith in rw (x, y) refl
decode-encode (call func count start) rest h = refl

unfoldable pub encode_all : List Instruction → List ℕ
encode_all [] = []
encode_all (i ∷ is) = encode i ++ encode_all is

pub encode_all-append :
    (is js : List Instruction) → encode_all (is ++ js) ≡ encode_all is ++ encode_all js
unfolding encode_all
encode_all-append [] js = refl
encode_all-append (i ∷ is) js =
    ap (λ r. encode i ++ r) (encode_all-append is js)
    ∙ sym (append_assoc (encode i) (encode_all is) (encode_all js))

length-encode : (i : Instruction) → length (encode i) ≤ 6
unfolding encode
length-encode (loadk_int slot bits) = omega arith
length-encode (binary op target lhs rhs) = omega arith
length-encode (call func count start) = omega arith

pub length-encode_all : (is : List Instruction) → length (encode_all is) ≤ 6 * length is
unfolding encode_all
length-encode_all [] = omega arith
length-encode_all (i ∷ is) =
    omega (arith, length-append (encode i) (encode_all is), length-encode i, length-encode_all is)
