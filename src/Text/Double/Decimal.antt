-- ===== src/Text/Double/Decimal.antt =====
-- src/string.c: the texts that `string_to_double` accepts, and their values.
use mathlib.Core.Path.{subst}
use tira.Prelude.{
  ℕ, ◌-◌, ◌≤◌, ◌≡◌, refl, ap, ◌∙◌, sym, arith, true, false, ◌||◌, ◌↔◌, ◌⊎◌, inl, inr, [], ◌∷◌, ◌++◌,
  Option, none, some, Bytes, ltb, ◌==◌, Bool-cases,
}
use tira.Text.Double.{
  Floats, Digits, double_step, double_loop, double_value, start_digits, string_to_double,
}

abbrev pub IsDigit : ℕ → Type 0
IsDigit c = (b'0' ≤ c) × (c ≤ b'9')

abbrev pub AllDigits : Bytes → Type 0
AllDigits [] = Unit
AllDigits (c ∷ s) = IsDigit c × AllDigits s

module _ (floats : Floats) where
  open floats use {Double, zero_point, one, ten, of_digit, add, mul, div, negate}

  -- The number of some digits, behind a number.
  abbrev pub whole : Double → Bytes → Double
  whole r [] = r
  whole r (c ∷ s) = whole (add (mul r ten) (of_digit (c - b'0'))) s

  -- The fraction of some digits, behind a fraction with its divisor.
  abbrev pub part : Double → Double → Bytes → Double
  part f v [] = f
  part f v (c ∷ s) = part (add f (div (of_digit (c - b'0')) (mul v ten))) (mul v ten) s

  -- Digits, of which there may be none, or digits with one point among them.
  pub data Body (r : Double) : Bytes → Double → Type 0 where
    integral : (ds : Bytes) → AllDigits ds → Body r ds (add (whole r ds) zero_point)
    pointed :
        (ds es : Bytes)
        → AllDigits ds
        → AllDigits es
        → Body r (ds ++ b'.' ∷ es) (add (whole r ds) (part zero_point one es))

  -- A sign, which may be missing, and the digits.
  pub data Written : Bytes → Double → Type 0 where
    minus : {s : Bytes} {x : Double} → Body zero_point s x → Written (b'-' ∷ s) (negate x)
    plus : {s : Bytes} {x : Double} → Body zero_point s x → Written (b'+' ∷ s) x
    plain :
        {c : ℕ} {s : Bytes} {x : Double}
        → (c == b'-') ≡ false
        → (c == b'+') ≡ false
        → Body zero_point (c ∷ s) x
        → Written (c ∷ s) x

  abbrev before_point : Double → Digits floats
  before_point r = record { result = r; fraction = zero_point; divisor = one; in_fraction = false }

  abbrev behind_point : Double → Double → Double → Digits floats
  behind_point r f v = record { result = r; fraction = f; divisor = v; in_fraction = true }

  step-digit :
      (c : ℕ) (r : Double)
      → IsDigit c
      → double_step floats c (before_point r)
        ≡ some (before_point (add (mul r ten) (of_digit (c - b'0'))))
  unfolding double_step
  step-digit c r (l, h) =
      let no_point : (c == b'.') ≡ false = ground arith in
      let digit : (ltb c b'0' || ltb b'9' c) ≡ false = ground arith in rw (no_point, digit) refl

  step-part :
      (c : ℕ) (r f v : Double)
      → IsDigit c
      → double_step floats c (behind_point r f v)
        ≡ some (behind_point r (add f (div (of_digit (c - b'0')) (mul v ten))) (mul v ten))
  unfolding double_step
  step-part c r f v (l, h) =
      let no_point : (c == b'.') ≡ false = ground arith in
      let digit : (ltb c b'0' || ltb b'9' c) ≡ false = ground arith in rw (no_point, digit) refl

  step-point :
      (r : Double) → double_step floats b'.' (before_point r) ≡ some (behind_point r zero_point one)
  unfolding double_step
  step-point r = refl

  -- What one round makes of a byte.
  step-cases :
      (c : ℕ) (r : Double)
      → (IsDigit c) ⊎ ((c ≡ b'.') ⊎ (double_step floats c (before_point r) ≡ none))
  unfolding double_step
  step-cases c r = elim (Bool-cases (c == b'.')) [
    | inl e ↦ inr (inl (ground arith))
    | inr n ↦ elim (Bool-cases (ltb c b'0' || ltb b'9' c)) [
      | inl out ↦ inr (inr (rw (n, out) refl))
      | inr digit ↦ inl (ground arith, ground arith)
    ]
  ]

  part-cases :
      (c : ℕ) (r f v : Double) → (IsDigit c) ⊎ (double_step floats c (behind_point r f v) ≡ none)
  unfolding double_step
  part-cases c r f v = elim (Bool-cases (c == b'.')) [
    | inl e ↦ inr (rw e refl)
    | inr n ↦ elim (Bool-cases (ltb c b'0' || ltb b'9' c)) [
      | inl out ↦ inr (rw (n, out) refl)
      | inr digit ↦ inl (ground arith, ground arith)
    ]
  ]

  loop-step :
      (c : ℕ) (s : Bytes) (d e : Digits floats)
      → double_step floats c d ≡ some e
      → double_loop floats (c ∷ s) d ≡ double_loop floats s e
  unfolding double_loop
  loop-step c s d e h = rw (h, double_loop) refl

  loop-stop :
      (c : ℕ) (s : Bytes) (d : Digits floats)
      → double_step floats c d ≡ none
      → double_loop floats (c ∷ s) d ≡ none
  unfolding double_loop
  loop-stop c s d h = rw (h, double_loop) refl

  no_digits : (d : Digits floats) → ¬ (none ≡ some d)
  no_digits d e = cc

  -- Digits are read, whatever stands behind them.
  loop-part :
      (s : Bytes) (r f v : Double)
      → AllDigits s
      → (d : Digits floats) × (double_loop floats s (behind_point r f v) ≡ some d)
        × (d.result ≡ r)
        × (d.fraction ≡ part f v s)
  unfolding double_loop
  loop-part [] r f v h = (behind_point r f v, refl, refl, refl)
  loop-part (c ∷ s) r f v (h, hs) =
      let v' = mul v ten in
      let f' = add f (div (of_digit (c - b'0')) v') in
      let (d, run, same, sum) = loop-part s r f' v' hs in
      (d, loop-step c s _ (behind_point r f' v') (step-part c r f v h) ∙ run, same, sum)

  loop-integral :
      (s : Bytes) (r : Double)
      → AllDigits s
      → double_loop floats s (before_point r) ≡ some (before_point (whole r s))
  unfolding double_loop
  loop-integral [] r h = refl
  loop-integral (c ∷ s) r (h, hs) =
      loop-step c s _ _ (step-digit c r h)
      ∙ loop-integral s (add (mul r ten) (of_digit (c - b'0'))) hs

  loop-pointed :
      (s es : Bytes) (r : Double)
      → AllDigits s
      → AllDigits es
      → (d : Digits floats) × (double_loop floats (s ++ b'.' ∷ es) (before_point r) ≡ some d)
        × (add d.result d.fraction ≡ add (whole r s) (part zero_point one es))
  loop-pointed [] es r h k =
      let (d, run, same, sum) = loop-part es r zero_point one k in
      (
        d,
        loop-step b'.' es _ _ (step-point r) ∙ run,
        ap (λ a. add a d.fraction) same ∙ ap (add r) sum,
      )
  loop-pointed (c ∷ s) es r (h, hs) k =
      let (d, run, sum) = loop-pointed s es (add (mul r ten) (of_digit (c - b'0'))) hs k in
      (d, loop-step c (s ++ b'.' ∷ es) _ _ (step-digit c r h) ∙ run, sum)

  loop-Body :
      (s : Bytes) (r x : Double)
      → Body r s x
      → (d : Digits floats) × (double_loop floats s (before_point r) ≡ some d)
        × (add d.result d.fraction ≡ x)
  loop-Body _ r _ (integral s h) = (before_point (whole r s), loop-integral s r h, refl)
  loop-Body _ r _ (pointed s es h k) = loop-pointed s es r h k

  -- Where the loop ends behind the point, there were only digits.
  part-loop :
      (s : Bytes) (r f v : Double) (d : Digits floats)
      → double_loop floats s (behind_point r f v) ≡ some d
      → AllDigits s × (add d.result d.fraction ≡ add r (part f v s))
  unfolding double_loop
  part-loop [] r f v d h =
      let same : behind_point r f v ≡ d = cc in (tt, ap (λ e. add e.result e.fraction) (sym same))
  part-loop (c ∷ s) r f v d h = elim (part-cases c r f v) [
    | inr stop ↦ absurd (no_digits d (sym (loop-stop c s _ stop) ∙ h))
    | inl digit ↦
        let (all, sum) =
          part-loop s r _ _ d (sym (loop-step c s _ _ (step-part c r f v digit)) ∙ h) in
        ((digit, all), sum)
  ]

  -- A digit in front.
  Body-digit :
      (c : ℕ) (s : Bytes) (r x : Double)
      → IsDigit c
      → Body (add (mul r ten) (of_digit (c - b'0'))) s x
      → Body r (c ∷ s) x
  Body-digit c _ r _ h (integral ds k) = integral (c ∷ ds) (h, k)
  Body-digit c _ r _ h (pointed ds es k l) = pointed (c ∷ ds) es (h, k) l

  Body-loop :
      (s : Bytes) (r : Double) (d : Digits floats)
      → double_loop floats s (before_point r) ≡ some d
      → Body r s (add d.result d.fraction)
  unfolding double_loop
  Body-loop [] r d h =
      let same : before_point r ≡ d = cc in
      subst (λ e. Body r [] (add e.result e.fraction)) same (integral [] tt)
  Body-loop (c ∷ s) r d h = elim (step-cases c r) [
    | inl digit ↦
        Body-digit c s r _ digit
          (Body-loop s _ d (sym (loop-step c s _ _ (step-digit c r digit)) ∙ h))
    | inr rest ↦ elim rest [
      | inr stop ↦ absurd (no_digits d (sym (loop-stop c s _ stop) ∙ h))
      | inl point ↦
          let there : double_loop floats (b'.' ∷ s) (before_point r) ≡ some d =
            ap (λ b. double_loop floats (b ∷ s) (before_point r)) (sym point) ∙ h in
          let (all, sum) =
            part-loop s r zero_point one d (sym (loop-step b'.' s _ _ (step-point r)) ∙ there) in
          subst (λ b. Body r (b ∷ s) (add d.result d.fraction)) (sym point)
            (subst (λ x. Body r (b'.' ∷ s) x) (sym sum) (pointed [] s tt all))
    ]
  ]

  value-some :
      (sign : Double → Double) (o : Option (Digits floats)) (x : Double)
      → double_value floats sign o ≡ some x
      → (d : Digits floats) × (o ≡ some d) × (sign (add d.result d.fraction) ≡ x)
  unfolding double_value
  value-some sign none x h = cc
  value-some sign (some d) x h = (d, refl, cc)

  value-Body :
      (sign : Double → Double) (s : Bytes) (x : Double)
      → Body zero_point s x
      → double_value floats sign (double_loop floats s (start_digits floats)) ≡ some (sign x)
  unfolding double_value start_digits
  value-Body sign s x b =
      let (d, run, sum) = loop-Body s zero_point x b in
      ap (double_value floats sign) run ∙ ap (λ y. some (sign y)) sum

  Body-value :
      (sign : Double → Double) (s : Bytes) (x : Double)
      → double_value floats sign (double_loop floats s (start_digits floats)) ≡ some x
      → (y : Double) × Body zero_point s y × (sign y ≡ x)
  unfolding start_digits
  Body-value sign s x h =
      let (d, run, value) = value-some sign _ x h in
      (add d.result d.fraction, Body-loop s zero_point d run, value)

  reads_as : (s : Bytes) (x : Double) → Written s x → string_to_double floats s ≡ some x
  unfolding string_to_double
  reads_as _ _ (minus {s = s} {x = x} b) = value-Body negate s x b
  reads_as _ x (plus {s = s} b) = value-Body (λ y. y) s x b
  reads_as _ x (plain {c = c} {s = s} m p b) = rw (m, p) (value-Body (λ y. y) (c ∷ s) x b)

  read-minus :
      (c : ℕ) (s : Bytes)
      → (c == b'-') ≡ true
      → string_to_double floats (c ∷ s)
        ≡ double_value floats negate (double_loop floats s (start_digits floats))
  unfolding string_to_double
  read-minus c s e = rw e refl

  read-plus :
      (c : ℕ) (s : Bytes)
      → (c == b'-') ≡ false
      → (c == b'+') ≡ true
      → string_to_double floats (c ∷ s)
        ≡ double_value floats (λ y. y) (double_loop floats s (start_digits floats))
  unfolding string_to_double
  read-plus c s m e = rw (m, e) refl

  read-plain :
      (c : ℕ) (s : Bytes)
      → (c == b'-') ≡ false
      → (c == b'+') ≡ false
      → string_to_double floats (c ∷ s)
        ≡ double_value floats (λ y. y) (double_loop floats (c ∷ s) (start_digits floats))
  unfolding string_to_double
  read-plain c s m e = rw (m, e) refl

  reads_back : (s : Bytes) (x : Double) → string_to_double floats s ≡ some x → Written s x
  unfolding string_to_double
  reads_back [] x h = cc
  reads_back (c ∷ s) x h = elim (Bool-cases (c == b'-')) [
    | inl m ↦
        let same : c ≡ b'-' = ground arith in
        let (y, body, value) = Body-value negate s x (sym (read-minus c s m) ∙ h) in
        subst (λ b. Written (b ∷ s) x) (sym same)
          (subst (λ z. Written (b'-' ∷ s) z) value (minus body))
    | inr m ↦ elim (Bool-cases (c == b'+')) [
      | inl p ↦
          let same : c ≡ b'+' = ground arith in
          let (y, body, value) = Body-value (λ z. z) s x (sym (read-plus c s m p) ∙ h) in
          subst (λ b. Written (b ∷ s) x) (sym same)
            (subst (λ z. Written (b'+' ∷ s) z) value (plus body))
      | inr p ↦
          let (y, body, value) = Body-value (λ z. z) (c ∷ s) x (sym (read-plain c s m p) ∙ h) in
          subst (λ z. Written (c ∷ s) z) value (plain m p body)
    ]
  ]

  -- `string_to_double` accepts a text exactly if it is a sign, which may be missing, and digits, of
  -- which there may be none, with at most one point among them, but not the empty text; and its
  -- result is the sum of the number of the digits before the point and the fraction behind it,
  -- negated behind a minus.
  pub string_to_double-Written :
      (s : Bytes) (x : Double) → (string_to_double floats s ≡ some x) ↔ Written s x
  string_to_double-Written s x = (reads_back s x, reads_as s x)
