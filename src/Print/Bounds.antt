-- ===== src/Print/Bounds.antt =====
-- src/print.c: what `vsnprintf` writes stays inside the buffer.
use tira.Prelude.{
  ℕ, zero, suc, ◌+◌, ◌-◌, ◌<◌, ◌≡◌, refl, arith, Bool, true, false, ◌&&◌, List, [], ◌∷◌, Option,
  none, some, Bytes, length, length-append, ltb, ltb→lt, lt→ltb, ◌==◌, if◌then◌else◌, Bool-cases,
  inl, inr, codes,
}
use tira.Prelude.Int.{ℤ, pos, negsuc}
use tira.Builder.{copied_back}
use tira.Builder.Room.{length-copied_back}
use tira.Print.{
  Arg, arg_string, arg_size, arg_int, Buffer, Written, Printed, done, still_running, bad_argument,
  behind_format, behind_tmp, then_print, put, put_one, put_string, put_temp, put_digits, put_size,
  put_int, take_string, take_size, take_int, Rounds, literal, directive, starts_with, behind_one,
  format_loop, terminate, vsnprintf,
}

-- The bytes written and the room make up the buffer, and a byte is left for the NUL.
pub record Keeps (bufsz : ℕ) (b : Buffer) : Type 0 where
  pub whole : length b.out + b.rem ≡ bufsz
  pub spare : 0 < b.rem

pub record Fitting (bufsz : ℕ) (w : Written) : Type 0 where
  pub exact : w.written ≡ length w.text
  pub below : length w.text < bufsz
  pub closed : w.nul ≡ some (length w.text)

-- A run that ends, ends so.
pub data EndsIn {A : Type 0} (P : A → Type 0) : Printed A → Type 0 where
  ends : {a : A} → P a → EndsIn P (done a)
  runs : EndsIn P still_running
  no_arg : EndsIn P bad_argument
  no_format : EndsIn P behind_format
  no_tmp : EndsIn P behind_tmp

then_print-EndsIn :
    {A B : Type 0} (P : A → Type 0) (Q : B → Type 0) {o : Printed A} (f : A → Printed B)
    → EndsIn P o
    → ((a : A) → P a → EndsIn Q (f a))
    → EndsIn Q (then_print o f)
then_print-EndsIn P Q f (ends {a} h) k = k a h
then_print-EndsIn P Q f runs k = runs
then_print-EndsIn P Q f no_arg k = no_arg
then_print-EndsIn P Q f no_format k = no_format
then_print-EndsIn P Q f no_tmp k = no_tmp

put-Keeps : (bufsz c : ℕ) (b : Buffer) → ltb 1 b.rem ≡ true → Keeps bufsz b → Keeps bufsz (put c b)
put-Keeps bufsz c b e k =
    let room : 1 < b.rem = ltb→lt _ _ e in
    record { whole = omega (arith, k.whole, length-append b.out (c ∷ [])); spare = omega arith }

put_one-Keeps : (bufsz c : ℕ) (b : Buffer) → Keeps bufsz b → Keeps bufsz (put_one c b)
unfolding put_one
put_one-Keeps bufsz c b k = elim (Bool-cases (ltb 1 b.rem)) [
  | inl e ↦ rw e (put-Keeps bufsz c b e k)
  | inr e ↦ rw e k
]

put_temp-Keeps : (bufsz : ℕ) (t : Bytes) (b : Buffer) → Keeps bufsz b → Keeps bufsz (put_temp t b)
unfolding put_temp
put_temp-Keeps bufsz t b k = elim (Bool-cases (ltb (length t + 1) b.rem)) [
  | inl e ↦
      let room : length t + 1 < b.rem = ltb→lt _ _ e in
      rw e (record {
        whole = omega (arith, k.whole, length-append b.out (copied_back t), length-copied_back t);
        spare = omega arith;
      })
  | inr e ↦ rw e k
]

put_digits-Keeps :
    (bufsz : ℕ) (t : Option Bytes) (b : Buffer)
    → Keeps bufsz b
    → EndsIn (Keeps bufsz) (put_digits t b)
put_digits-Keeps bufsz none b k = no_tmp
put_digits-Keeps bufsz (some t) b k = ends (put_temp-Keeps bufsz t b k)

put_string-Keeps :
    (bufsz f : ℕ) (s : Bytes) (b : Buffer) → Keeps bufsz b → EndsIn (Keeps bufsz) (put_string f s b)
unfolding put_string
put_string-Keeps bufsz zero s b k = runs
put_string-Keeps bufsz (suc f) [] b k = ends k
put_string-Keeps bufsz (suc f) (c ∷ s) b k = elim (Bool-cases (ltb 1 b.rem)) [
  | inl e ↦ rw (e, put_string) (put_string-Keeps bufsz f s (put c b) (put-Keeps bufsz c b e k))
  | inr e ↦ rw (e, put_string) (put_string-Keeps bufsz f (c ∷ s) b k)
]

put_size-Keeps : (bufsz v : ℕ) (b : Buffer) → Keeps bufsz b → EndsIn (Keeps bufsz) (put_size v b)
unfolding put_size
put_size-Keeps bufsz v b k = elim (Bool-cases (v == 0)) [
  | inl e ↦ rw e (ends (put_one-Keeps bufsz b'0' b k))
  | inr e ↦ rw e (put_digits-Keeps bufsz _ b k)
]

put_int-Keeps :
    (bufsz : ℕ) (v : ℤ) (b : Buffer) → Keeps bufsz b → EndsIn (Keeps bufsz) (put_int v b)
unfolding put_int
put_int-Keeps bufsz (pos n) b k = elim (Bool-cases (n == 0)) [
  | inl e ↦ rw e (ends (put_one-Keeps bufsz b'0' b k))
  | inr e ↦ rw e (put_digits-Keeps bufsz _ b k)
]
put_int-Keeps bufsz (negsuc n) b k = put_digits-Keeps bufsz _ b k

-- The same of what the directives give.
abbrev KeepsLeft : ℕ → (List Arg × Buffer) → Type 0
KeepsLeft bufsz r = Keeps bufsz r.1

abbrev Leaves : ℕ → Printed (List Arg × Buffer) → Type 0
Leaves bufsz o = EndsIn (KeepsLeft bufsz) o

take_string-Leaves :
    (bufsz f : ℕ) (args : List Arg) (b : Buffer)
    → Keeps bufsz b
    → Leaves bufsz (take_string f args b)
unfolding take_string
take_string-Leaves bufsz f (arg_string (some s) ∷ args) b k =
    then_print-EndsIn _ _ _ (put_string-Keeps bufsz f s b k) (λ c h. ends h)
take_string-Leaves bufsz f (arg_string none ∷ args) b k =
    then_print-EndsIn _ _ _ (put_string-Keeps bufsz f (codes "(null)") b k) (λ c h. ends h)
take_string-Leaves bufsz f _ b k = no_arg

take_size-Leaves :
    (bufsz : ℕ) (args : List Arg) (b : Buffer) → Keeps bufsz b → Leaves bufsz (take_size args b)
unfolding take_size
take_size-Leaves bufsz (arg_size v ∷ args) b k =
    then_print-EndsIn _ _ _ (put_size-Keeps bufsz v b k) (λ c h. ends h)
take_size-Leaves bufsz _ b k = no_arg

take_int-Leaves :
    (bufsz : ℕ) (args : List Arg) (b : Buffer) → Keeps bufsz b → Leaves bufsz (take_int args b)
unfolding take_int
take_int-Leaves bufsz (arg_int v ∷ args) b k =
    then_print-EndsIn _ _ _ (put_int-Keeps bufsz v b k) (λ c h. ends h)
take_int-Leaves bufsz _ b k = no_arg

-- Rounds that keep to the buffer.
abbrev Kept : ℕ → Rounds → Type 0
Kept bufsz next =
    (format : Bytes) (args : List Arg) (b : Buffer)
    → Keeps bufsz b
    → EndsIn (Keeps bufsz) (next format args b)

literal-Kept : (bufsz : ℕ) (next : Rounds) (c : ℕ) → Kept bufsz next → Kept bufsz (literal next c)
unfolding literal
literal-Kept bufsz next c n format args b k = elim (Bool-cases (ltb 1 b.rem)) [
  | inl e ↦ rw e (n format args (put c b) (put-Keeps bufsz c b e k))
  | inr e ↦ rw e (n (c ∷ format) args b k)
]

if-EndsIn :
    {A : Type 0} {P : A → Type 0} (t : Bool) {x y : Printed A}
    → EndsIn P x
    → EndsIn P y
    → EndsIn P (if t then x else y)
if-EndsIn true h k = h
if-EndsIn false h k = k

directive-Kept : (bufsz f : ℕ) (next : Rounds) → Kept bufsz next → Kept bufsz (directive f next)
unfolding directive
directive-Kept bufsz f next n [] args b k = no_format
directive-Kept bufsz f next n (c ∷ format) args b k =
    if-EndsIn (c == b'%') (literal-Kept bufsz next c n format args b k) (
      if-EndsIn (c == b's')
        (then_print-EndsIn (KeepsLeft bufsz) _ _ (take_string-Leaves bufsz f args b k)
          (λ r h. n format r.0 r.1 h))
        (if-EndsIn (c == b'z' && starts_with b'u' format)
          (then_print-EndsIn (KeepsLeft bufsz) _ _ (take_size-Leaves bufsz args b k)
            (λ r h. n (behind_one format) r.0 r.1 h))
          (if-EndsIn (c == b'd')
            (then_print-EndsIn (KeepsLeft bufsz) _ _ (take_int-Leaves bufsz args b k)
              (λ r h. n format r.0 r.1 h))
            (n format args b k))))

format_loop-Kept : (bufsz f : ℕ) → Kept bufsz (format_loop f)
unfolding format_loop
format_loop-Kept bufsz zero format args b k = runs
format_loop-Kept bufsz (suc f) [] args b k = ends k
format_loop-Kept bufsz (suc f) (c ∷ format) args b k = elim (Bool-cases (c == b'%')) [
  | inl e ↦ rw e (directive-Kept bufsz f (format_loop f) (format_loop-Kept bufsz f) format args b k)
  | inr e ↦ rw e (literal-Kept bufsz (format_loop f) c (format_loop-Kept bufsz f) format args b k)
]

-- If `vsnprintf` ends on a buffer that is not empty, the bytes written are as many as it says, and
-- fewer than the buffer has, and the NUL stands behind them.
pub vsnprintf-Keeps :
    (f bufsz : ℕ) (format : Bytes) (args : List Arg)
    → 0 < bufsz
    → EndsIn (Fitting bufsz) (vsnprintf f bufsz format args)
unfolding vsnprintf terminate
vsnprintf-Keeps f bufsz format args h =
    then_print-EndsIn (Keeps bufsz) _ _
      (format_loop-Kept bufsz f format args _ (record { whole = omega arith; spare = h }))
      λ b k. ends (
        let some_room : ltb 0 bufsz ≡ true = ground arith in
        let exact : bufsz - b.rem ≡ length b.out = omega (arith, k.whole) in
        let below : length b.out < bufsz = omega (arith, k.whole, k.spare) in
        let closed : ltb (length b.out) bufsz ≡ true = lt→ltb _ _ below in
        rw (some_room, exact, closed) (record { exact = refl; below = below; closed = refl }))
