-- ===== src/Windows/Arguments/Last.antt =====
-- src/platform_win32.c: what `main` finds in its arguments.
use tira.Prelude.{
  ℕ, zero, suc, ◌+◌, ◌≤◌, ◌<◌, ◌≡◌, refl, ap, ◌∙◌, sym, arith, true, false, List, [], ◌∷◌, ◌++◌,
  append_assoc, append-nil, Option, none, some, Bytes, length, take, drop, ltb, ◌==◌, not,
  get_elem?, if◌then◌else◌,
}
use tira.Prelude.Int.{pos}
use tira.Windows.Arguments.{
  CommandLine, Arguments, calls_main, returned, write_at, argument, argument_loop, zeroes,
  no_arguments, call_main, and_then, with_arguments, main_crt_startup,
}

-- The text at a `char *`: the bytes before the first NUL.
unfoldable pub c_string : Bytes → Bytes
c_string [] = []
c_string (c ∷ s) = let rest = c_string s in if c == 0 then [] else c ∷ rest

abbrev pub text_at : Bytes → Option ℕ → Option Bytes
text_at buf none = none
text_at buf (some off) = some (c_string (drop off buf))

-- `argv[i]`, as a text.
unfoldable pub argument_text : Arguments → ℕ → Option Bytes
argument_text s i = text_at s.argbuf (get_elem? s.argv i)

abbrev pub NoNul : Bytes → Type 0
NoNul [] = Unit
NoNul (c ∷ s) = (0 < c) × NoNul s

-- The arguments are converted to these texts, each of which `argbuf` has room for.
abbrev pub Converts : CommandLine → List (List ℕ) → List Bytes → Type 0
Converts line [] [] = Unit
Converts line (arg ∷ args) (text ∷ texts) =
    (line.wide_char_to_multi_byte arg ≡ some text)
    × NoNul text
    × (length text < 4096)
    × Converts line args texts
Converts line _ _ = ⊥

-- The last of some texts, or a text where there is none.
abbrev pub last : Bytes → List Bytes → Bytes
last text [] = text
last text (next ∷ texts) = last next texts

c_string-NoNul : (text rest : Bytes) → NoNul text → c_string (text ++ (0 ∷ rest)) ≡ text
unfolding c_string
c_string-NoNul [] rest h = refl
c_string-NoNul (c ∷ text) rest (h, hs) =
    let visible : (c == 0) ≡ false = ground arith in
    rw visible (ap (λ r. c ∷ r) (c_string-NoNul text rest hs))

-- What one round leaves: the text at the start of `argbuf`, and one more pointer to it.
argument-first :
    (text : Bytes) (s : Arguments)
    → NoNul text
    → length text < 4096
    → (s' : Arguments) × (argument 0 (some text) s ≡ some s')
      × (c_string s'.argbuf ≡ text)
      × (s'.argv ≡ s.argv ++ 0 ∷ [])
unfolding argument
argument-first text s h room =
    let fits : ltb 4096 (0 + (length text + 1)) ≡ false = ground (arith, room) in
    let written = write_at s.argbuf 0 (text ++ 0 ∷ []) in
    let same : c_string written ≡ text =
      ap c_string (append_assoc text (0 ∷ []) _) ∙ c_string-NoNul text _ h in
    (record { argbuf = written; argv = s.argv ++ 0 ∷ [] }, rw fits refl, same, refl)

argument_loop-last :
    (line : CommandLine) (args : List (List ℕ)) (texts : List Bytes) (s : Arguments)
    → Converts line args texts
    → (s' : Arguments) × (argument_loop line 0 args s ≡ some s')
      × (c_string s'.argbuf ≡ last (c_string s.argbuf) texts)
      × (s'.argv ≡ s.argv ++ zeroes (length args))
unfolding argument_loop
argument_loop-last line [] [] s h = (s, refl, refl, sym (append-nil s.argv))
argument_loop-last line [] (text ∷ texts) s h = absurd h
argument_loop-last line (arg ∷ args) [] s h = absurd h
argument_loop-last line (arg ∷ args) (text ∷ texts) s (e, visible, room, h) =
    let (next, step, here, more) = argument-first text s visible room in
    let (s', run, there, all) = argument_loop-last line args texts next h in
    (
      s',
      ap (λ o. and_then (argument 0 o s) (argument_loop line 0 args)) e
          ∙ ap (λ o. and_then o (argument_loop line 0 args)) step
          ∙ run,
      there ∙ ap (λ t. last t texts) here,
      all ∙ ap (λ l. l ++ zeroes (length args)) more ∙ append_assoc s.argv (0 ∷ []) _,
    )

get_elem?-zeroes : (n i : ℕ) → i < n → get_elem? (zeroes n) i ≡ some 0
get_elem?-zeroes zero i h = absurd (omega arith)
get_elem?-zeroes (suc n) zero h = refl
get_elem?-zeroes (suc n) (suc i) h = get_elem?-zeroes n i (omega arith)

length-zeroes : (n : ℕ) → length (zeroes n) ≡ n
length-zeroes zero = refl
length-zeroes (suc n) = omega (arith, length-zeroes n)

Converts-length :
    (line : CommandLine) (args : List (List ℕ)) (texts : List Bytes)
    → Converts line args texts
    → length args ≡ length texts
Converts-length line [] [] h = refl
Converts-length line [] (text ∷ texts) h = absurd h
Converts-length line (arg ∷ args) [] h = absurd h
Converts-length line (arg ∷ args) (text ∷ texts) (e, visible, room, h) =
    omega (arith, Converts-length line args texts h)

take_all : {A : Type 0} (n : ℕ) (xs : List A) → length xs ≤ n → take n xs ≡ xs
take_all zero [] h = refl
take_all zero (x ∷ xs) h = absurd (omega arith)
take_all (suc n) [] h = refl
take_all (suc n) (x ∷ xs) h = ap (λ r. x ∷ r) (take_all n xs (omega arith))

argument_text-first :
    (s : Arguments) (n i : ℕ)
    → s.argv ≡ zeroes n
    → i < n
    → argument_text s i ≡ some (c_string s.argbuf)
unfolding argument_text
argument_text-first s n i e h =
    ap (text_at s.argbuf) (ap (λ l. get_elem? l i) e ∙ get_elem?-zeroes n i h)

no_argv : no_arguments.argv ≡ []
unfolding no_arguments
no_argv = refl

with_arguments-calls :
    (line : CommandLine) (args : List (List ℕ)) (s : Arguments)
    → length args ≤ 64
    → argument_loop line 0 args no_arguments ≡ some s
    → with_arguments line (some args) ≡ calls_main (length args) s
unfolding with_arguments
with_arguments-calls line args s few run =
    ap (λ l. call_main (length l) (argument_loop line 0 l no_arguments)) (take_all 64 args few)
    ∙ ap (call_main (length args)) run

-- `main` is called with as many arguments as the command line has, and each of them reads as the last
-- one, since all are written to the start of `argbuf`; as long as there is an argument and no more
-- than 64 of them, and their texts have no NUL in them and fit in `argbuf`.
pub main_crt_startup-last :
    (line : CommandLine) (args : List (List ℕ)) (text : Bytes) (texts : List Bytes)
    → line.handles_valid ≡ true
    → line.argv_w ≡ some args
    → Converts line args (text ∷ texts)
    → length args ≤ 64
    → (s : Arguments) × (main_crt_startup line ≡ calls_main (1 + length texts) s)
      × (length s.argv ≡ 1 + length texts)
      × ((i : ℕ) → i < 1 + length texts → argument_text s i ≡ some (last text texts))
unfolding main_crt_startup
main_crt_startup-last line args text texts valid given h few =
    let (s, run, last_text, pointers) =
      argument_loop-last line args (text ∷ texts) no_arguments h in
    let count : length args ≡ 1 + length texts =
      omega (arith, Converts-length line args (text ∷ texts) h) in
    let argv : s.argv ≡ zeroes (length args) =
      pointers ∙ ap (λ l. l ++ zeroes (length args)) no_argv in
    (
      s,
      ap (λ b. if not b then returned (pos 1) else with_arguments line line.argv_w) valid
          ∙ ap (with_arguments line) given
          ∙ with_arguments-calls line args s few run
          ∙ ap (λ n. calls_main n s) count,
      omega (arith, ap (λ l. length l) argv, length-zeroes (length args), count),
      λ i below.
          argument_text-first s (length args) i argv (omega arith) ∙ ap (λ t. some t) last_text,
    )
