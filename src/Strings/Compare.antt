-- ===== src/Strings/Compare.antt =====
-- src/string.c: what the comparisons of strings tell.
use tira.Prelude.{
  ℕ, zero, suc, ◌+◌, ◌≤◌, ◌<◌, ◌≡◌, ◌≢◌, ◌↔◌, refl, ap, ◌∙◌, sym, arith, true, false, [], ◌∷◌,
  Option, none, some, Bytes, length, leb, ltb, ◌==◌, ==_iff, Bool-cases, inl, inr,
}
use tira.Prelude.Int.{ℤ, pos}
use tira.Memory.Block.{Memory, difference}
use tira.Memory.Compare.{difference_lem}
use tira.Strings.{strlen_loop, strlen, strcmp, Str, string_compare, minus, behind_first}

-- The bytes of a text from an address on, with a NUL behind them.
abbrev pub IsText : Memory → ℕ → Bytes → Type 0
IsText m p [] = m p ≡ 0
IsText m p (c ∷ s) = (m p ≡ c) × (c ≢ 0) × IsText m (p + 1) s

difference-same : (a : ℕ) → difference a a ≡ pos 0
unfolding difference
difference-same a = let e : ltb a a ≡ false = ground arith in rw e (ap pos (omega arith))

-- A result that is 0 exactly if two texts are the same.
abbrev pub Decides : Option ℤ → Bytes → Bytes → Type 0
Decides o s t = (o ≢ none) × ((o ≡ some (pos 0)) ↔ (s ≡ t))

same-Decides : (a : ℕ) → Decides (some (difference a a)) [] []
same-Decides a = rw (difference-same a) (λ e. cc, (λ e. refl, λ e. refl))

differs : (a b : ℕ) (s t : Bytes) → a ≢ b → s ≢ t → Decides (some (difference a b)) s t
differs a b s t h k = (λ e. cc, (λ e. absurd (difference_lem a b h (cc e)), λ e. absurd (k e)))

cons-Decides :
    (o : Option ℤ) (c d : ℕ) (s t : Bytes) → c ≡ d → Decides o s t → Decides o (c ∷ s) (d ∷ t)
cons-Decides o c d s t e (h, k) = (h, (λ z. let u = k.0 z in cc (u, e), λ z. k.1 (cc z)))

heads : (a b c d : ℕ) → a ≡ c → b ≡ d → c ≢ d → (a == b) ≡ false
heads a b c d h k n = ground arith

-- `strcmp` of two texts ends, with a round for each byte of the first and one more, and gives 0
-- exactly if the texts are the same.
pub strcmp-zero :
    (f lhs rhs : ℕ) (s t : Bytes) (m : Memory)
    → IsText m lhs s
    → IsText m rhs t
    → length s < f
    → (strcmp f m lhs rhs ≢ none) × ((strcmp f m lhs rhs ≡ some (pos 0)) ↔ (s ≡ t))
unfolding strcmp
strcmp-zero zero lhs rhs s t m h k fuel = absurd (omega arith)
strcmp-zero (suc f) lhs rhs [] [] m h k fuel = rw (h, k) (same-Decides 0)
strcmp-zero (suc f) lhs rhs [] (d ∷ t) m h (k, nz, ks) fuel =
    rw (heads (m lhs) (m rhs) 0 d h k (λ e. nz (sym e)))
      (differs (m lhs) (m rhs) [] (d ∷ t) (λ e. nz (sym k ∙ sym e ∙ h)) (λ e. cc))
strcmp-zero (suc f) lhs rhs (c ∷ s) [] m (h, nz, hs) k fuel =
    rw (heads (m lhs) (m rhs) c 0 h k nz)
      (differs (m lhs) (m rhs) (c ∷ s) [] (λ e. nz (sym h ∙ e ∙ k)) (λ e. cc))
strcmp-zero (suc f) lhs rhs (c ∷ s) (d ∷ t) m (h, nz, hs) (k, nz2, ks) fuel =
    elim (Bool-cases (c == d)) [
      | inl e ↦
          let same : c ≡ d = (==_iff c d).0 e in
          let equal : (m lhs == m rhs) ≡ true = ground (arith, h, k, same) in
          let more : (m lhs == 0) ≡ false = ground (arith, h, nz) in
          rw (equal, more)
            (cons-Decides _ c d s t same
              (strcmp-zero f (lhs + 1) (rhs + 1) s t m hs ks (omega arith)))
      | inr e ↦
          let other : c ≢ d = λ q. ground (arith, e, q) in
          rw (heads (m lhs) (m rhs) c d h k other) (
            differs (m lhs) (m rhs) (c ∷ s) (d ∷ t) (λ q. other (sym h ∙ q ∙ k))
              (λ q. other (cc q)))
    ]

strlen_loop-IsText :
    (f p : ℕ) (s : Bytes) (m : Memory)
    → IsText m p s
    → length s < f
    → strlen_loop f m p ≡ some (p + length s)
unfolding strlen_loop
strlen_loop-IsText zero p s m h fuel = absurd (omega arith)
strlen_loop-IsText (suc f) p [] m h fuel =
    let e : (m p == 0) ≡ true = ground (arith, h) in rw e (ap some (omega arith))
strlen_loop-IsText (suc f) p (c ∷ s) m (h, nz, hs) fuel =
    let e : (m p == 0) ≡ false = ground (arith, h, nz) in
    rw e (strlen_loop-IsText f (p + 1) s m hs (omega arith) ∙ ap some (omega arith))

pub strlen-IsText :
    (f p : ℕ) (s : Bytes) (m : Memory)
    → IsText m p s
    → length s < f
    → strlen f m p ≡ some (length s)
unfolding strlen
strlen-IsText f p s m h fuel =
    ap (minus p) (strlen_loop-IsText f p s m h fuel) ∙ ap some (omega arith)

-- `string_compare` of two strings at different places looks at their first bytes only.
pub string_compare-first :
    (f : ℕ) (lhs rhs : Str) (m : Memory)
    → lhs.data_at ≢ rhs.data_at
    → string_compare (suc f) m lhs rhs ≡ some (difference (m lhs.data_at) (m rhs.data_at))
unfolding string_compare
string_compare-first f lhs rhs m h =
    let other : (lhs.data_at == rhs.data_at) ≡ false = ground arith in rw other refl

-- `string_compare` of a string and one at the same place that is no shorter never ends.
pub string_compare_hangs :
    (f : ℕ) (lhs rhs : Str) (m : Memory)
    → lhs.data_at ≡ rhs.data_at
    → lhs.len ≤ rhs.len
    → string_compare f m lhs rhs ≡ none
unfolding string_compare
string_compare_hangs zero lhs rhs m h k = refl
string_compare_hangs (suc f) lhs rhs m h k =
    let same : (lhs.data_at == rhs.data_at) ≡ true = ground arith in
    let inside : leb lhs.len rhs.len ≡ true = ground arith in
    rw (same, inside)
      (string_compare_hangs f (behind_first lhs) (behind_first rhs) m (omega (arith, h)) k)
