-- ===== src/Tests/Scan.antt =====
-- src/lexer.c, src/compiler.c: tokens read and files lexed.
use tira.Prelude.{
  ℕ, true, arith, ◌+◌, ◌≤◌, ◌<◌, ◌≡◌, refl, ◌⊎◌, inl, ◌↔◌, ◌≢◌, List, [], some, Bytes, codes, drop,
  ◌*◌, ◌^◌,
}
use tira.Token.{Token, token_index, t_string}
use tira.Lexer.{Lexer, skip_blanks, size}
use tira.Lexer.Next.{lex_next}
use tira.Lexer.Newlines.{newlines}
use tira.Lexer.Lines.{line_total, lex_next-Lines}
use tira.Lexer.Progress.{IsSettled, skip_blanks-IsSettled}
use tira.Lexer.Spans.{Spans, lex_next-Spans}
use tira.LexFile.{
  compiler_lex_file, still_lexing, initial_lexer, has_shebang, token_loop, append_end,
}
use tira.LexFile.Total.{token_loop-Reads}
use tira.LexFile.Shebang.{AreTokens, Lexes, compiler_lex_file_total, compiler_lex_file_hangs}
use tira.LexFile.Room.{HasRoom, token_loop-HasRoom, append_end_outside}

abbrev declaration : Bytes
declaration = codes "var width = 1280 // pixels\n"

abbrev script : Bytes
script = codes "#!/usr/bin/env tira"

abbrev text_lexer : Bytes → Lexer
text_lexer source = record {
  tokens = [];
  cap = 512;
  input = source;
  pos = 0;
  at_line_start = true;
  line = 1;
  col = 0;
}

abbrev commented : Lexer
commented = text_lexer (codes "  /* a */ // b\n x")

lex_next-Spans_example :
    Spans
      (text_lexer declaration)
      (lex_next (text_lexer declaration)).0
      (lex_next (text_lexer declaration)).1
lex_next-Spans_example = lex_next-Spans (text_lexer declaration)

skip_blanks-IsSettled_example : IsSettled (skip_blanks commented).1
skip_blanks-IsSettled_example = skip_blanks-IsSettled commented

lex_next-Lines_example :
    let tok = (lex_next commented).0 in
    let m = (lex_next commented).1 in
    (tok.line + newlines (drop tok.start commented.input) ≡ 2)
    × (((token_index tok.type ≢ token_index t_string) × (line_total m ≡ 2))
        ⊎ ((token_index tok.type ≡ token_index t_string) × (m.line ≡ tok.line)))
lex_next-Lines_example = lex_next-Lines commented

compiler_lex_file_total_example :
    (ts : List Token) × AreTokens declaration ts
    × Lexes declaration ts (λ l. size l ≤ l.cap) (compiler_lex_file 28 declaration)
unfolding has_shebang initial_lexer
compiler_lex_file_total_example = compiler_lex_file_total declaration (inl refl)

compiler_lex_file_hangs_example : compiler_lex_file 1000 script ≡ still_lexing
unfolding has_shebang initial_lexer
compiler_lex_file_hangs_example = compiler_lex_file_hangs script 1000 refl refl

-- The lexer at the end of the declaration.
abbrev read_through : Lexer
read_through = (token_loop-Reads 28 (text_lexer declaration) (omega arith)).0

read_through_lem : token_loop 28 (text_lexer declaration) ≡ some read_through
read_through_lem = (token_loop-Reads 28 (text_lexer declaration) (omega arith)).2

room_for_none : HasRoom (text_lexer declaration)
room_for_none = record { doublings = 0; power = refl; fits = omega arith; used = inl refl }

token_loop-HasRoom_example : HasRoom read_through
token_loop-HasRoom_example =
    token_loop-HasRoom 28 (text_lexer declaration) room_for_none read_through_lem

append_end_outside_example :
    (read_through.cap < size (append_end read_through))
    ↔ ((k : ℕ) × (size read_through ≡ 512 * 2 ^ k) × (read_through.cap ≡ size read_through))
append_end_outside_example =
    append_end_outside 28 (text_lexer declaration) refl refl read_through_lem
