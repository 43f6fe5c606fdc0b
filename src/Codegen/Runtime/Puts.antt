-- ===== src/Codegen/Runtime/Puts.antt =====
-- src/bootstrap_codegen.c: what `tira_rt__puts` writes for each number.
use tira.Prelude.{
  ℕ, ◌^◌, ◌<◌, ◌≡◌, refl, ap, ◌∙◌, arith, List, [], ◌∷◌, ◌++◌, some, Bytes, ◌==◌, if◌then◌else◌,
  Bool-cases, inl, inr,
}
use tira.Prelude.Int.{ℤ, pos, negsuc}
use tira.Builder.{temp_digits, copied_back}
use tira.Print.Render.{decimal}
use tira.Print.Digits.{temp_digits-decimal}
use tira.Codegen.Words.{IsInt64}
use tira.Codegen.Runtime.{newline_behind, number_line, before, tira_rt__puts}
use tira.Codegen.Runtime.Reverse.{reverse_loop-copied_back}

-- The texts on the console: a positive number in decimal notation, zero with an empty line behind
-- it, and an empty line for a negative number.
unfoldable pub console_texts : ℤ → List Bytes
console_texts (pos n) =
    if n == 0 then (b'0' ∷ b'\n' ∷ []) ∷ (b'\n' ∷ []) ∷ [] else (decimal 20 n ++ b'\n' ∷ []) ∷ []
console_texts (negsuc n) = (b'\n' ∷ []) ∷ []

number_line-copied_back : (l : Bytes) → number_line (some l) ≡ some (copied_back l ++ b'\n' ∷ [])
unfolding number_line
number_line-copied_back l = ap newline_behind (reverse_loop-copied_back l)

-- The digits in their order, and a newline.
number_line-decimal :
    (n : ℕ) → n < 2 ^ 63 → number_line (temp_digits 32 n) ≡ some (decimal 20 n ++ b'\n' ∷ [])
number_line-decimal n h =
    let (digits, run, same, _) =
      temp_digits-decimal 20 32 20 n (omega arith) (omega arith) (omega arith) in
    ap number_line run ∙ number_line-copied_back digits ∙ ap (λ t. some (t ++ b'\n' ∷ [])) same

tira_rt__puts-zero : tira_rt__puts (pos 0) ≡ some (console_texts (pos 0))
unfolding tira_rt__puts console_texts decimal
tira_rt__puts-zero =
    let run : number_line (temp_digits 32 0) ≡ some (b'\n' ∷ []) =
      number_line-decimal 0 (omega arith) in
    ap (before ((b'0' ∷ b'\n' ∷ []) ∷ [])) run

tira_rt__puts-pos : (n : ℕ) → n < 2 ^ 63 → tira_rt__puts (pos n) ≡ some (console_texts (pos n))
unfolding tira_rt__puts console_texts
tira_rt__puts-pos n h = elim (Bool-cases (n == 0)) [
  | inl z ↦ let same : n ≡ 0 = ground arith in rw same tira_rt__puts-zero
  | inr z ↦ rw (z, number_line-decimal n h) refl
]

-- For every number of 64 bits the function ends, and what it has written is the number in decimal
-- notation and a newline if the number is positive, "0" and two newlines for zero, and a newline
-- alone for a negative number.
pub tira_rt__puts-console_texts : (z : ℤ) → IsInt64 z → tira_rt__puts z ≡ some (console_texts z)
unfolding tira_rt__puts console_texts copied_back
tira_rt__puts-console_texts (pos n) h = tira_rt__puts-pos n h
tira_rt__puts-console_texts (negsuc n) h = ap (before []) (number_line-copied_back [])
