-- ===== src/Builder/Room.antt =====
-- src/string.c: no builder function writes behind the buffer.
use tira.Prelude.{
  ℕ, ◌-◌, ◌^◌, ◌≤◌, ◌<◌, ◌≡◌, refl, arith, [], ◌∷◌, Bytes, length, length-append, ltb, leb, leb→gt,
  Bool-cases, inl, inr,
}
use tira.Builder.{
  StringBuilder, sub64, sb_remaining, sb_push, sb_build_string, sb_build_char, copied_back,
}

-- The bytes written are inside the buffer, which has a byte at least.
pub record HasRoom (sb : StringBuilder) : Type 0 where
  pub fits : length sb.buffer ≤ sb.capacity
  pub cap_pos : 0 < sb.capacity
  pub cap_max : sb.capacity < 2 ^ 64

pub sub64-le : (a b : ℕ) → b ≤ a → a < 2 ^ 64 → sub64 a b ≡ a - b
unfolding sub64
sub64-le a b h k = omega arith

pub sb_remaining-HasRoom :
    (sb : StringBuilder) → HasRoom sb → sb_remaining sb ≡ sb.capacity - length sb.buffer
unfolding sb_remaining
sb_remaining-HasRoom sb r = sub64-le sb.capacity (length sb.buffer) r.fits r.cap_max

pub length-copied_back : (s : Bytes) → length (copied_back s) ≡ length s
unfolding copied_back
length-copied_back [] = refl
length-copied_back (c ∷ s) =
    omega (arith, length-append (copied_back s) (c ∷ []), length-copied_back s)

pub sb_push-HasRoom :
    (sb : StringBuilder) (s : Bytes)
    → HasRoom sb
    → length s ≤ sb_remaining sb
    → HasRoom (sb_push s sb)
unfolding sb_push
sb_push-HasRoom sb s r h = record {
  fits = omega (arith, length-append sb.buffer s, sb_remaining-HasRoom sb r, r.fits);
  cap_pos = r.cap_pos;
  cap_max = r.cap_max;
}

-- Behind every step that appends a text or a byte, what is written is inside the buffer, if it was
-- before.
pub sb_build-HasRoom :
    (sb : StringBuilder) (s : Bytes) (c : ℕ)
    → HasRoom sb
    → HasRoom (sb_build_string sb s) × HasRoom (sb_build_char sb c)
unfolding sb_build_string sb_build_char
sb_build-HasRoom sb s c r = (
  elim (Bool-cases (ltb (sb_remaining sb) (length s))) [
    | inl e ↦ rw e r
    | inr e ↦ rw e (sb_push-HasRoom sb s r (ground (arith, e)))
  ],
  elim (Bool-cases (leb (sub64 sb.capacity 1) (length sb.buffer))) [
    | inl e ↦ rw e r
    | inr e ↦ rw e (
        sb_push-HasRoom sb (c ∷ []) r (
          omega (
            arith,
            leb→gt _ _ e,
            r.fits,
            sb_remaining-HasRoom sb r,
            sub64-le sb.capacity 1 r.cap_pos r.cap_max,
          )))
  ],
)
