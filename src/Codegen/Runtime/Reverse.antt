-- ===== src/Codegen/Runtime/Reverse.antt =====
-- src/bootstrap_codegen.c: the loop that exchanges the bytes of a buffer from both ends.
use tira.Prelude.{
  ℕ, zero, suc, ◌+◌, ◌-◌, ◌≤◌, ◌<◌, ◌≡◌, refl, ap, ◌∙◌, sym, arith, [], ◌∷◌, ◌++◌, append_assoc,
  append-nil, some, Bytes, length, length-append, get_or, set, set-at, lt→ltb,
}
use tira.Builder.{copied_back}
use tira.Codegen.Runtime.{swap, reverse_loop}

get_or-at : (pre post : Bytes) (x : ℕ) → get_or (pre ++ (x ∷ post)) (length pre) 0 ≡ x
get_or-at [] post x = refl
get_or-at (_ ∷ pre) post x = get_or-at pre post x

-- The first of the two places.
get_or-first :
    (pre mid post : Bytes) (x y : ℕ) → get_or ((pre ++ (x ∷ mid)) ++ (y ∷ post)) (length pre) 0 ≡ x
get_or-first pre mid post x y =
    ap (λ l. get_or l (length pre) 0) (append_assoc pre (x ∷ mid) (y ∷ post))
    ∙ get_or-at pre (mid ++ (y ∷ post)) x

set-first :
    (pre mid post : Bytes) (x y v : ℕ)
    → set ((pre ++ (x ∷ mid)) ++ (y ∷ post)) (length pre) v ≡ (pre ++ (v ∷ mid)) ++ (y ∷ post)
set-first pre mid post x y v =
    ap (λ l. set l (length pre) v) (append_assoc pre (x ∷ mid) (y ∷ post))
    ∙ set-at pre (mid ++ (y ∷ post)) x v
    ∙ sym (append_assoc pre (v ∷ mid) (y ∷ post))

same_length : (pre mid : Bytes) (x y : ℕ) → length (pre ++ (x ∷ mid)) ≡ length (pre ++ (y ∷ mid))
same_length pre mid x y = omega (arith, length-append pre (x ∷ mid), length-append pre (y ∷ mid))

-- The ends of a stretch of the buffer are exchanged.
swap-ends :
    (pre mid post : Bytes) (x y : ℕ)
    → swap ((pre ++ (x ∷ mid)) ++ (y ∷ post)) (length pre) (length (pre ++ (x ∷ mid)))
      ≡ (pre ++ (y ∷ mid)) ++ (x ∷ post)
unfolding swap
swap-ends pre mid post x y =
    let all = (pre ++ (x ∷ mid)) ++ (y ∷ post) in
    ap (λ a. set (set all (length pre) a) (length (pre ++ (x ∷ mid))) (get_or all (length pre) 0))
      (get_or-at (pre ++ (x ∷ mid)) post y)
    ∙ ap (λ b. set (set all (length pre) y) (length (pre ++ (x ∷ mid))) b)
        (get_or-first pre mid post x y)
    ∙ ap (λ l. set l (length (pre ++ (x ∷ mid))) x) (set-first pre mid post x y y)
    ∙ ap (λ i. set ((pre ++ (y ∷ mid)) ++ (y ∷ post)) i x) (same_length pre mid x y)
    ∙ set-at (pre ++ (y ∷ mid)) post y x

-- A list, by its two ends.
data Ends : Bytes → Type 0 where
  nothing : Ends []
  single : (x : ℕ) → Ends (x ∷ [])
  both : (x : ℕ) (m : Bytes) (y : ℕ) → Ends (x ∷ (m ++ (y ∷ [])))

ends-prepend : (x : ℕ) (l : Bytes) → Ends l → Ends (x ∷ l)
ends-prepend x [] nothing = single x
ends-prepend x _ (single y) = both x [] y
ends-prepend x _ (both y m z) = both x (y ∷ m) z

ends : (l : Bytes) → Ends l
ends [] = nothing
ends (x ∷ l) = ends-prepend x l (ends l)

copied_back-append : (a b : Bytes) → copied_back (a ++ b) ≡ copied_back b ++ copied_back a
unfolding copied_back
copied_back-append [] b = sym (append-nil (copied_back b))
copied_back-append (x ∷ a) b =
    ap (λ l. l ++ (x ∷ [])) (copied_back-append a b)
    ∙ append_assoc (copied_back b) (copied_back a) (x ∷ [])

reverse_loop-stops :
    (f lo top : ℕ) (l : Bytes) → top ≤ lo + 1 → reverse_loop (suc f) lo top l ≡ some l
unfolding reverse_loop
reverse_loop-stops f lo top l h = ground arith

reverse_loop-goes :
    (f lo top : ℕ) (l : Bytes)
    → lo + 1 < top
    → reverse_loop (suc f) lo top l ≡ reverse_loop f (lo + 1) (top - 1) (swap l lo (top - 1))
unfolding reverse_loop
reverse_loop-goes f lo top l h = rw (lt→ltb (lo + 1) top h) refl

-- The two spellings of a buffer.
open_ends :
    (pre m post : Bytes) (x y : ℕ)
    → (pre ++ (x ∷ (m ++ (y ∷ [])))) ++ post ≡ (pre ++ (x ∷ m)) ++ (y ∷ post)
open_ends pre m post x y = simp (append_assoc)

shift_first :
    (pre m post : Bytes) (y : ℕ) → (pre ++ (y ∷ m)) ++ post ≡ ((pre ++ (y ∷ [])) ++ m) ++ post
shift_first pre m post y = simp (append_assoc)

close_ends :
    (pre m post : Bytes) (x y : ℕ)
    → ((pre ++ (y ∷ [])) ++ copied_back m) ++ (x ∷ post)
      ≡ (pre ++ copied_back (x ∷ (m ++ (y ∷ [])))) ++ post
unfolding copied_back
close_ends pre m post x y =
    let inner : copied_back (m ++ (y ∷ [])) ≡ y ∷ copied_back m = copied_back-append m (y ∷ []) in
    rw inner (simp (append_assoc))

-- One round exchanges the ends and goes on with what lies between them.
reverse_loop-both :
    (f : ℕ) (pre m post : Bytes) (x y top : ℕ)
    → top ≡ length pre + length (x ∷ (m ++ (y ∷ [])))
    → reverse_loop (suc f) (length pre) top ((pre ++ (x ∷ (m ++ (y ∷ [])))) ++ post)
      ≡ reverse_loop f
          (length (pre ++ (y ∷ [])))
          (length (pre ++ (y ∷ [])) + length m)
          (((pre ++ (y ∷ [])) ++ m) ++ (x ∷ post))
reverse_loop-both f pre m post x y top h =
    let place : top - 1 ≡ length (pre ++ (x ∷ m)) =
      omega (arith, length-append m (y ∷ []), length-append pre (x ∷ m)) in
    let from : length pre + 1 ≡ length (pre ++ (y ∷ [])) =
      omega (arith, length-append pre (y ∷ [])) in
    let until : top - 1 ≡ length (pre ++ (y ∷ [])) + length m =
      omega (arith, length-append m (y ∷ []), length-append pre (y ∷ [])) in
    let inner = (pre ++ (x ∷ (m ++ (y ∷ [])))) ++ post in
    let swapped : swap inner (length pre) (top - 1) ≡ ((pre ++ (y ∷ [])) ++ m) ++ (x ∷ post) =
      ap (λ l. swap l (length pre) (top - 1)) (open_ends pre m post x y)
      ∙ ap (swap ((pre ++ (x ∷ m)) ++ (y ∷ post)) (length pre)) place
      ∙ swap-ends pre m post x y
      ∙ shift_first pre m (x ∷ post) y in
    reverse_loop-goes f (length pre) top inner (omega (arith, length-append m (y ∷ [])))
    ∙ ap (λ l. reverse_loop f (length pre + 1) (top - 1) l) swapped
    ∙ ap (λ i. reverse_loop f i (top - 1) (((pre ++ (y ∷ [])) ++ m) ++ (x ∷ post))) from
    ∙ ap (λ i. reverse_loop f (length (pre ++ (y ∷ []))) i (((pre ++ (y ∷ [])) ++ m) ++ (x ∷ post)))
        until

-- What lies between the two places is turned around, what lies outside of them stays.
reverse_loop-ends :
    (f : ℕ) (pre mid post : Bytes)
    → Ends mid
    → length mid < f
    → reverse_loop f (length pre) (length pre + length mid) ((pre ++ mid) ++ post)
      ≡ some ((pre ++ copied_back mid) ++ post)
unfolding copied_back
reverse_loop-ends zero pre mid post e h = absurd (omega arith)
reverse_loop-ends (suc f) pre _ post nothing h =
    reverse_loop-stops f (length pre) (length pre + 0) ((pre ++ []) ++ post) (omega arith)
reverse_loop-ends (suc f) pre _ post (single x) h =
    reverse_loop-stops f (length pre) (length pre + 1) ((pre ++ (x ∷ [])) ++ post) (omega arith)
reverse_loop-ends (suc f) pre _ post (both x m y) h =
    reverse_loop-both f pre m post x y (length pre + length (x ∷ (m ++ (y ∷ [])))) refl
    ∙ reverse_loop-ends f (pre ++ (y ∷ [])) m (x ∷ post) (ends m)
        (omega (arith, length-append m (y ∷ [])))
    ∙ ap (λ l. some l) (close_ends pre m post x y)

pub reverse_loop-copied_back :
    (l : Bytes) → reverse_loop (length l + 1) 0 (length l) l ≡ some (copied_back l)
reverse_loop-copied_back l =
    ap (λ t. reverse_loop (length l + 1) 0 t l) (omega arith)
    ∙ ap (reverse_loop (length l + 1) 0 (0 + length l)) (sym (append-nil l))
    ∙ reverse_loop-ends (length l + 1) [] l [] (ends l) (omega arith)
    ∙ ap (λ b. some b) (append-nil (copied_back l))
