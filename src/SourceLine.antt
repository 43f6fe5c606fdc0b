-- ===== src/SourceLine.antt =====
-- src/compiler.c: `source_line`, the text of a line by its number.
pub mod Behind
use tira.Prelude.{
  ℕ, zero, suc, ◌+◌, ◌-◌, Bool, not, List, [], ◌∷◌, Option, none, some, Bytes, drop, ◌==◌,
  if◌then◌else◌,
}

-- The two counters of the first loop.
pub record Search : Type 0 where
  pub cur_line : ℕ
  pub start : ℕ

-- The loop that looks for the first byte of the line, at the byte `i`; `start` is 0 until it is
-- found.
unfoldable pub find_start : ℕ → ℕ → ℕ → Bytes → Search
find_start lineno cur_line i [] = record { cur_line = cur_line; start = 0 }
find_start lineno cur_line i (c ∷ s) =
    let rest = find_start lineno (if c == b'\n' then cur_line + 1 else cur_line) (i + 1) s in
    if cur_line == lineno then record { cur_line = cur_line; start = i } else rest

-- The loop that looks for the end of the line.
unfoldable pub find_end : ℕ → Bytes → ℕ
find_end end [] = end
find_end end (c ∷ s) = let rest = find_end (end + 1) s in if not (c == b'\n') then rest else end

-- The line's place and length, or `none` for a NULL text.
unfoldable pub source_line : Bytes → ℕ → Option (ℕ × ℕ)
source_line source lineno =
    let found = find_start lineno 1 0 source in
    if not (found.cur_line == lineno)
    then none
    else some (found.start, find_end found.start (drop found.start source) - found.start)
