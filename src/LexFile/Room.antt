-- ===== src/LexFile/Room.antt =====
-- src/compiler.c: the room in the token array of `compiler_lex_file`.
use mathlib.Core.Path.{subst}
use native.Mathlib.Nat.{pow-suc}
use tira.Prelude.{
  ℕ, zero, suc, ◌*◌, ◌^◌, ◌≤◌, ◌<◌, ◌≡◌, refl, ap, ◌∙◌, ◌⊎◌, inl, inr, ◌↔◌, arith, [], ◌∷◌, some,
  length, length-append, leb, Bool-cases, leb→le, leb→gt,
}
use tira.Token.{Token, is_type, t_end}
use tira.Lexer.{Lexer, size}
use tira.Lexer.Next.{lex_next}
use tira.Lexer.Spans.{lex_next-Spans}
use tira.LexFile.{push_token, token_loop, append_end, end_token}

-- The capacity is 512 doubled some times, holds the tokens, and is at most twice what was needed.
pub record HasRoom (l : Lexer) : Type 0 where
  pub doublings : ℕ
  pub power : l.cap ≡ 512 * 2 ^ doublings
  pub fits : size l ≤ l.cap
  pub used : (doublings ≡ 0) ⊎ (l.cap < 2 * size l)

pow2_pos : (k : ℕ) → 0 < 2 ^ k
pow2_pos zero = omega arith
pow2_pos (suc k) = omega (arith, pow-suc 2 k, pow2_pos k)

cap_pos : (l : Lexer) → HasRoom l → 0 < l.cap
cap_pos l r = omega (arith, r.power, pow2_pos r.doublings)

push_token-HasRoom : (l : Lexer) (tok : Token) → HasRoom l → HasRoom (push_token l tok)
unfolding push_token
push_token-HasRoom l tok r = elim (Bool-cases (leb l.cap (size l))) [
  | inl full ↦ rw full (record {
    doublings = suc r.doublings;
    power = omega (arith, r.power, pow-suc 2 r.doublings);
    fits = omega (arith, r.fits, length-append l.tokens (tok ∷ []), cap_pos l r);
    used = inr (omega (arith, leb→le _ _ full, length-append l.tokens (tok ∷ [])));
  })
  | inr room ↦ rw room (record {
    doublings = r.doublings;
    power = r.power;
    fits = omega (arith, leb→gt _ _ room, length-append l.tokens (tok ∷ []));
    used = elim r.used [
      | inl z ↦ inl z
      | inr u ↦ inr (omega (arith, u, length-append l.tokens (tok ∷ [])))
    ];
  })
]

lex_next-HasRoom : (l : Lexer) → HasRoom l → HasRoom (lex_next l).1
lex_next-HasRoom l r =
    let s = (lex_next-Spans l).moves in
    record {
      doublings = r.doublings;
      power = s.same_cap ∙ r.power;
      fits = omega (arith, r.fits, s.same_cap, ap length s.same_tokens);
      used = elim r.used [
        | inl z ↦ inl z
        | inr u ↦ inr (omega (arith, u, s.same_cap, ap length s.same_tokens))
      ];
    }

-- If the tokens fit in the array before the loop of `compiler_lex_file`, its capacity 512 doubled some
-- times and, if doubled, less than twice what is used, and the loop ends, then so it is behind it.
pub token_loop-HasRoom :
    (f : ℕ) (l : Lexer) {m : Lexer} → HasRoom l → token_loop f l ≡ some m → HasRoom m
unfolding token_loop
token_loop-HasRoom zero l r h = cc
token_loop-HasRoom (suc f) l {m} r h = elim (Bool-cases (is_type (lex_next l).0.type t_end)) [
  | inl e ↦
      let same : some (lex_next l).1 ≡ some m = rw e at h in
      subst HasRoom (cc) (lex_next-HasRoom l r)
  | inr e ↦
      token_loop-HasRoom f (push_token (lex_next l).1 (lex_next l).0)
        (push_token-HasRoom (lex_next l).1 (lex_next l).0 (lex_next-HasRoom l r)) (rw e at h)
]

-- The array of a loop that started with 512 free entries: the `END` that is written behind the loop
-- is outside the array exactly if the tokens fill it, and their number is then 512 doubled some
-- times.
pub append_end_outside :
    (f : ℕ) (l : Lexer) {m : Lexer}
    → l.cap ≡ 512
    → l.tokens ≡ []
    → token_loop f l ≡ some m
    → (m.cap < size (append_end m)) ↔ ((k : ℕ) × (size m ≡ 512 * 2 ^ k) × (m.cap ≡ size m))
unfolding append_end
append_end_outside f l {m} c t h = (
  λ over. (
    r.doublings,
    omega (arith, r.fits, r.power, length-append m.tokens (end_token ∷ [])),
    omega (arith, r.fits, length-append m.tokens (end_token ∷ [])),
  ),
  λ (k, p, q). omega (arith, length-append m.tokens (end_token ∷ [])),
)
  where
    r : HasRoom m
    r =
        token_loop-HasRoom f l
          (record {
            doublings = 0;
            power = c;
            fits = omega (arith, c, ap length t);
            used = inl refl;
          })
          h
