-- ===== src/Memory/Sequence.antt =====
-- src/memory.c: what a client of the arena is promised of a sequence of requests.
use mathlib.Core.Path.{subst}
use tira.Prelude.{ℕ, ◌+◌, ◌-◌, ◌*◌, ◌^◌, ◌≤◌, ◌≡◌, refl, arith, List, [], ◌∷◌, Option, none, some}
use tira.Memory.{Arena, alloc}
use tira.Memory.Regions.{IsArena, Fits, Allocates, placed, full, alloc-Allocates}

-- `alloc(a, size, align, count)` with an alignment that is a power of two.
pub record Request : Type 0 where
  pub size : ℕ
  pub log_align : ℕ
  pub count : ℕ

pub record Region : Type 0 where
  pub start : ℕ
  pub bytes : ℕ

abbrev bytes_of : Request → ℕ
bytes_of r = r.size * r.count

-- The region handed out for a request, if any, in front of later ones.
unfoldable pub with_region : Option ℕ → ℕ → List Region → List Region
with_region none bytes regions = regions
with_region (some p) bytes regions = record { start = p; bytes = bytes } ∷ regions

-- The regions that the requests get, and the arena behind them.
unfoldable pub allocs : Arena → List Request → List Region × Arena
allocs a [] = ([], a)
allocs a (r ∷ rs) =
    let first = alloc a r.size (2 ^ r.log_align) r.count in
    let rest = allocs first.1 rs in (with_region first.0 (bytes_of r) rest.0, rest.1)

-- Regions in order and apart from one another, between two addresses.
pub data Apart : ℕ → List Region → ℕ → Type 0 where
  no_region : {i j : ℕ} → i ≤ j → Apart i [] j
  region :
      {i j start bytes : ℕ} {rs : List Region}
      → i ≤ start
      → Apart (start + bytes) rs j
      → Apart i (record { start = start; bytes = bytes } ∷ rs) j

-- All requests fit.
abbrev pub AllFit : Arena → List Request → Type 0
AllFit a [] = Unit
AllFit a (r ∷ rs) = Fits a r.size r.log_align r.count × AllFit a rs

record Served (a : Arena) (rs : List Region) (b : Arena) : Type 0 where
  same_base : b.base ≡ a.base
  same_size : b.size ≡ a.size
  used_le : b.used ≤ b.size
  apart : Apart (a.base + a.used) rs (b.base + b.used)

Apart-weaken : {i i' j : ℕ} {rs : List Region} → i' ≤ i → Apart i rs j → Apart i' rs j
Apart-weaken h (no_region e) = no_region (omega arith)
Apart-weaken h (region e t) = region (omega arith) t

AllFit-same :
    (a b : Arena) (rs : List Request)
    → b.base ≡ a.base
    → b.size ≡ a.size
    → AllFit a rs
    → AllFit b rs
AllFit-same a b [] p q h = tt
AllFit-same a b (r ∷ rs) p q (f, h) = (
  record {
    size_pos = f.size_pos;
    count_pos = f.count_pos;
    k_le = f.k_le;
    no_wrap = omega (arith, p, q, f.no_wrap);
  },
  AllFit-same a b rs p q h,
)

allocs-Served :
    (a : Arena) (rs : List Request)
    → IsArena a
    → AllFit a rs
    → Served a (allocs a rs).0 (allocs a rs).1
unfolding allocs with_region
allocs-Served a [] ar h = record {
  same_base = refl;
  same_size = refl;
  used_le = ar.used_le;
  apart = no_region (omega arith);
}
allocs-Served a (r ∷ rs) ar (f, h) =
    go (alloc a r.size (2 ^ r.log_align) r.count)
      (alloc-Allocates a r.size r.log_align r.count ar f) (λ b. allocs-Served b rs)
  where
    go :
        (o : Option ℕ × Arena)
        → Allocates a (bytes_of r) r.log_align o
        → ((b : Arena) → IsArena b → AllFit b rs → Served b (allocs b rs).0 (allocs b rs).1)
        → Served a (with_region o.0 (bytes_of r) (allocs o.1 rs).0) (allocs o.1 rs).1
    go o (full p after near multiple less) ih = ih a ar h
    go o (placed p place) ih =
        let b : Arena = record a { used = p - a.base + bytes_of r } in
        let br : IsArena b = record {
          base_pos = ar.base_pos;
          used_le = omega (arith, place.inside, place.after);
          end_lt = ar.end_lt;
        } in
        let s = ih b br (AllFit-same a b rs refl refl h) in
        record {
          same_base = s.same_base;
          same_size = s.same_size;
          used_le = s.used_le;
          apart = region place.after (
              subst (λ i. Apart i (allocs b rs).0 ((allocs b rs).1.base + (allocs b rs).1.used))
                (omega (arith, place.after)) s.apart);
        }

-- The regions of a sequence of requests are apart from one another, in order behind what was used
-- before, and inside the arena.
pub allocs-Apart :
    (a : Arena) (rs : List Request)
    → IsArena a
    → AllFit a rs
    → Apart (a.base + a.used) (allocs a rs).0 (a.base + a.size)
allocs-Apart a rs ar h =
    let s = allocs-Served a rs ar h in
    later s.apart (omega (arith, s.used_le, s.same_base, s.same_size))
  where
    later : {i j j' : ℕ} {rs : List Region} → Apart i rs j → j ≤ j' → Apart i rs j'
    later (no_region e) l = no_region (omega arith)
    later (region e t) l = region e (later t l)
