-- ===== src/Debug/Room.antt =====
-- src/compiler.c: the debug texts stay inside their buffer, and what makes them fail.
use tira.Prelude.{
  ℕ, ◌+◌, ◌*◌, ◌^◌, ◌≤◌, ◌<◌, ◌≡◌, refl, ap, ◌∙◌, arith, Bool, true, false, List, [], ◌∷◌, Option,
  none, some, Bytes, codes, length, if◌then◌else◌, ◌%◌, ltb, ◌++◌,
}
use tira.Prelude.Int.{pos}
use tira.Token.{Token}
use tira.Lexer.{Lexer}
use tira.Ast.{ParserNode, int_value, number, identifier, binary_op, assignment, bool, func_call}
use tira.Memory.{Arena, arena_push, add64}
use tira.Builder.{StringBuilder}
use tira.Builder.{sb_newline}
use tira.Builder.Room.{HasRoom, sb_build-HasRoom}
use tira.Builder.Decimal.{sb_build_u64_lem, sb_build_u64_overflows}
use tira.Codegen.{number_bits, to_uint64}
use tira.Debug.{
  Build, then_build, ◌>>◌, text, char, newline, u64, nothing, sb_create_temp, sb_lhs, sb_rhs,
  node_kind_string, build_token, build_tokens, build_lines, debug_print_lexer, build_all, node_diff,
  build_fields, debug_print_node_info, build_nodes, debug_print_parser,
}

-- From a builder that has room comes another.
abbrev pub Builds : Build → Type 0
Builds f =
    (sb : StringBuilder)
    → HasRoom sb
    → (after : StringBuilder) × (f sb ≡ some after) × HasRoom after

seq : {f g : Build} → Builds f → Builds g → Builds (f >> g)
seq {f} {g} p q sb r =
    let (b, run, k) = p sb r in
    let (c, run2, m) = q b k in (c, ap (λ o. then_build o g) run ∙ run2, m)

text-Builds : (s : Bytes) → Builds (text s)
text-Builds s sb r = (_, refl, (sb_build-HasRoom sb s 0 r).0)

char-Builds : (c : ℕ) → Builds (char c)
char-Builds c sb r = (_, refl, (sb_build-HasRoom sb [] c r).1)

newline-Builds : Builds newline
newline-Builds sb r = (_, refl, unfold sb_newline in (sb_build-HasRoom sb [] b'\n' r).1)

nothing-Builds : Builds nothing
nothing-Builds sb r = (sb, refl, r)

u64-Builds : (n : ℕ) → n < 10 ^ 16 → Builds (u64 n)
u64-Builds n h sb r = let (b, run, k) = sb_build_u64_lem sb n r h in (b, run, k.0)

if-Builds : (t : Bool) {f g : Build} → Builds f → Builds g → Builds (if t then f else g)
if-Builds true p q = p
if-Builds false p q = q

sb_create_temp-HasRoom :
    (a : Arena) → a.used + 128 * 1024 ≤ a.size → a.size < 2 ^ 64 → HasRoom (sb_create_temp a)
unfolding sb_create_temp arena_push add64
sb_create_temp-HasRoom a h k =
    let room : ltb a.size ((a.used + 128 * 1024) % 2 ^ 64) ≡ false = ground arith in
    rw (room, sb_create_temp, arena_push, add64)
      (record { fits = omega arith; cap_pos = omega arith; cap_max = omega arith })

-- The lines have few digits.
abbrev pub FewLines : List Token → Type 0
FewLines [] = Unit
FewLines (t ∷ ts) = (t.line < 10 ^ 16) × FewLines ts

build_token-Builds :
    (input : Bytes) (i : ℕ) (t : Token)
    → i < 10 ^ 16
    → t.line < 10 ^ 16
    → Builds (build_token input i t)
unfolding build_token
build_token-Builds input i t h k =
    seq
      (seq
        (seq
          (seq (seq (seq (u64-Builds i h) (text-Builds _)) (u64-Builds t.line k)) (char-Builds _))
          (text-Builds _))
        (if-Builds _
          (seq (seq (seq (char-Builds _) (char-Builds _)) (text-Builds _)) (char-Builds _))
          nothing-Builds))
      newline-Builds

build_tokens-Builds :
    (input : Bytes) (i : ℕ) (ts : List Token)
    → i + length ts < 10 ^ 16
    → FewLines ts
    → Builds (build_tokens input i ts)
unfolding build_tokens
build_tokens-Builds input i [] h k = nothing-Builds
build_tokens-Builds input i (t ∷ ts) h (k, ks) =
    seq (build_token-Builds input i t (omega arith) k)
      (build_tokens-Builds input (i + 1) ts (omega arith) ks)

build_lines-Builds : (input : Bytes) (n : ℕ) (ts : List Token) → Builds (build_lines input n ts)
unfolding build_lines
build_lines-Builds input n [] = nothing-Builds
build_lines-Builds input n (t ∷ ts) =
    seq
      (seq
        (seq (if-Builds _ (seq (seq newline-Builds (text-Builds _)) newline-Builds) nothing-Builds)
          (text-Builds _))
        (char-Builds _))
      (build_lines-Builds input t.line ts)

-- From no builder comes another.
record Fails (f : Build) : Type 0 where
  stops : (sb : StringBuilder) → f sb ≡ none

Fails-behind : (f g : Build) → Fails g → Fails (f >> g)
Fails-behind f g h = record { stops = λ sb. go (f sb) }
  where
    go : (o : Option StringBuilder) → then_build o g ≡ none
    go none = refl
    go (some b) = h.stops b

Fails-before : (f g : Build) → Fails f → Fails (f >> g)
Fails-before f g h = record { stops = λ sb. ap (λ o. then_build o g) (h.stops sb) }

u64-Fails : (n : ℕ) → 10 ^ 16 ≤ n → Fails (u64 n)
u64-Fails n h = record { stops = λ sb. sb_build_u64_overflows sb n h }

module _ {D : Type 0} (double_bits : D → ℕ) (null_diff : ℕ) where
  -- The numbers that are printed of a node have few digits.
  abbrev pub IsSmall : ParserNode D → Type 0
  IsSmall (number n) = number_bits double_bits n < 10 ^ 16
  IsSmall (assignment lhs rhs) =
      (node_diff double_bits null_diff lhs < 10 ^ 16)
      × (node_diff double_bits null_diff rhs < 10 ^ 16)
  IsSmall (binary_op type lhs rhs) =
      (node_diff double_bits null_diff lhs < 10 ^ 16)
      × (node_diff double_bits null_diff rhs < 10 ^ 16)
  IsSmall (func_call callee args) = node_diff double_bits null_diff callee < 10 ^ 16
  IsSmall _ = Unit

  abbrev pub AllSmall : List (ParserNode D) → Type 0
  AllSmall [] = Unit
  AllSmall (n ∷ ns) = IsSmall n × AllSmall ns

  sides-Builds : (i j : ℕ) → i < 10 ^ 16 → j < 10 ^ 16 → Builds (sb_lhs i >> sb_rhs j)
  unfolding sb_lhs sb_rhs
  sides-Builds i j h k =
      seq (seq (text-Builds _) (u64-Builds i h))
        (seq (seq (text-Builds _) (u64-Builds j k)) (text-Builds _))

  build_fields-Builds :
      (n : ParserNode D) → IsSmall n → Builds (build_fields double_bits null_diff n)
  unfolding build_fields
  build_fields-Builds (identifier s) h = text-Builds s
  build_fields-Builds (assignment lhs rhs) (h, k) = sides-Builds _ _ h k
  build_fields-Builds (number n) h = u64-Builds _ h
  build_fields-Builds (func_call callee args) h =
      unfold sb_lhs in seq (seq (text-Builds _) (u64-Builds _ h)) (text-Builds _)
  build_fields-Builds (binary_op type lhs rhs) (h, k) = sides-Builds _ _ h k
  build_fields-Builds (bool true) h = text-Builds _
  build_fields-Builds (bool false) h = text-Builds _
  build_fields-Builds _ h = nothing-Builds

  build_nodes-Builds :
      (i : ℕ) (ns : List (ParserNode D))
      → i + length ns < 10 ^ 16
      → AllSmall ns
      → Builds (build_nodes double_bits null_diff i ns)
  unfolding build_nodes debug_print_node_info
  build_nodes-Builds i [] h k = nothing-Builds
  build_nodes-Builds i (n ∷ ns) h (k, ks) =
      seq
        (seq (seq (u64-Builds i (omega arith)) (text-Builds _)) (
          seq (seq (seq (text-Builds _) (text-Builds _)) (build_fields-Builds n k))
            (text-Builds _)))
        (build_nodes-Builds (i + 1) ns (omega arith) ks)

  -- Where the arena has 128 KiB left, the numbers printed have at most 16 digits and there is a
  -- node, the nodes' text is built inside its buffer.
  pub debug_print_parser-HasRoom :
      (a : Arena) (n : ParserNode D) (ns : List (ParserNode D))
      → a.used + 128 * 1024 ≤ a.size
      → a.size < 2 ^ 64
      → length ns + 1 < 10 ^ 16
      → AllSmall (n ∷ ns)
      → (after : StringBuilder) × (debug_print_parser double_bits null_diff a (n ∷ ns) ≡ some after)
        × HasRoom after
  unfolding debug_print_parser
  debug_print_parser-HasRoom a n ns h k few small =
      seq (seq (build_nodes-Builds 0 (n ∷ ns) (omega arith) small) (text-Builds _)) (text-Builds _)
        (sb_create_temp a) (sb_create_temp-HasRoom a h k)

  number-Fails :
      (v : ℕ)
      → 10 ^ 16 ≤ v
      → v < 2 ^ 64
      → Fails (debug_print_node_info double_bits null_diff (number (int_value (pos v))))
  unfolding debug_print_node_info build_fields number_bits to_uint64
  number-Fails v h k =
      Fails-before
        (text (node_kind_string {D = D} (number (int_value (pos v))))
          >> text (codes " ")
          >> u64 (v % 2 ^ 64))
        (text (codes "\n"))
        (Fails-behind
          (text (node_kind_string {D = D} (number (int_value (pos v)))) >> text (codes " "))
          (u64 (v % 2 ^ 64)) (u64-Fails (v % 2 ^ 64) (omega arith)))

  build_nodes-Fails :
      (i v : ℕ) (ns ms : List (ParserNode D))
      → 10 ^ 16 ≤ v
      → v < 2 ^ 64
      → Fails (build_nodes double_bits null_diff i (ns ++ number (int_value (pos v)) ∷ ms))
  unfolding build_nodes
  build_nodes-Fails i v [] ms h k = Fails-before _ _ (Fails-behind _ _ (number-Fails v h k))
  build_nodes-Fails i v (n ∷ ns) ms h k = Fails-behind _ _ (build_nodes-Fails (i + 1) v ns ms h k)

  -- A number literal of 17 digits or more among the nodes: its digits are written behind their
  -- array.
  pub debug_print_parser_overflows :
      (a : Arena) (v : ℕ) (ns ms : List (ParserNode D))
      → 10 ^ 16 ≤ v
      → v < 2 ^ 64
      → debug_print_parser double_bits null_diff a (ns ++ number (int_value (pos v)) ∷ ms) ≡ none
  unfolding debug_print_parser
  debug_print_parser_overflows a v [] ms h k =
      (Fails-before _ _ (Fails-before _ _ (build_nodes-Fails 0 v [] ms h k))).stops
        (sb_create_temp a)
  debug_print_parser_overflows a v (n ∷ ns) ms h k =
      (Fails-before _ _ (Fails-before _ _ (build_nodes-Fails 0 v (n ∷ ns) ms h k))).stops
        (sb_create_temp a)

-- Where the arena has 128 KiB left, the lines and the tokens have at most 16 digits and there is a
-- token, the tokens' text is built inside its buffer.
pub debug_print_lexer-HasRoom :
    (a : Arena) (l : Lexer) (t : Token) (ts : List Token)
    → a.used + 128 * 1024 ≤ a.size
    → a.size < 2 ^ 64
    → l.tokens ≡ t ∷ ts
    → length ts + 1 < 10 ^ 16
    → FewLines (t ∷ ts)
    → (after : StringBuilder) × (debug_print_lexer a l ≡ some after) × HasRoom after
unfolding debug_print_lexer build_all
debug_print_lexer-HasRoom a l t ts h k e few lines = rw e (
    seq
      (seq (seq (build_tokens-Builds l.input 0 (t ∷ ts) (omega arith) lines) (text-Builds _))
        (build_lines-Builds l.input t.line (t ∷ ts)))
      newline-Builds (sb_create_temp a) (sb_create_temp-HasRoom a h k))
