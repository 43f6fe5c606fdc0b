-- ===== src/Lib.antt =====
-- Tira, a small compiler written in C.
--
-- The program reads a file (`src/main.c`), turns it into tokens (`compiler_lex_file` of
-- `src/compiler.c`, which calls `lex_next` of `src/lexer.c` until it gives END), parses the tokens
-- into an array of nodes (`compiler_parse`, which calls `parse_program` of `src/parser.c`), and
-- turns the nodes into words of bytecode (`compiler_codegen`, which calls `bootstrap_codegen` of
-- `src/bootstrap_codegen.c`). Texts of numbers are converted by `src/string.c`. Memory comes from
-- an arena (`src/memory.c`), and the system from `src/platform_linux.c` and
-- `src/platform_win32.c`.
--
-- The parts that are modelled, and where:
-- - `Token`: the token kinds and their printed names, in the order of X_TOKEN_TYPES.
-- - `Lexer` and `Lexer.Next`: `src/lexer.c`. The state is the record of the source, with the
--   tokens written as a list (its length is `size`); a function that takes the lexer gives the
--   lexer behind. `lex_advance` is a pair of the byte and the lexer `advanced`. A byte is a
--   natural number.
-- - `LexFile`: `compiler_lex_file` of `src/compiler.c`, with its array's capacity. Where `END` is
--   written behind the array, the result says so: the nodes are put there next, and nothing reads
--   that `END` as the last token.
-- - `Text` and `Text.Double`: `string_to_int64` and `string_to_double` of `src/string.c`; the
--   operations on doubles are a parameter.
-- - `Ast`: the nodes of `src/parser.c`. A pointer to a node is its index, or none for NULL. Of the
--   arrays of statements, elements, arguments and parameters a node has the counts only.
-- - `Parser`, `Parser.Rules`, `Parser.Grammar` and `Parser.Expr`: `src/parser.c`. A function of
--   the parser is a function from the parser's state to an outcome: a result and a state, or a
--   fault. A fault is where the source reads behind the tokens, reads NULL, writes behind an
--   array, fails an assertion, or exits because the nodes are used up. The conversion of a text to
--   a double is a parameter.
-- - `Parser.Unreached`: the functions of `src/parser.c` that nothing calls.
-- - `Builder`: the string builder of `src/string.c`. A write behind the array of digits is none.
-- - `SourceLine`: `source_line` of `src/compiler.c`.
-- - `Memory`: the arena of `src/memory.c`. An address is a number and 0 is NULL. `Memory.Block`:
--   its functions on blocks of bytes, over a memory that is a function from addresses.
-- - `Strings`: `strlen`, `strcmp` and `string_compare` of `src/string.c`, over the memory of
--   `Memory.Block`.
-- - `Match`: `nodes_match` of `src/parser.c` and `check_parse_nodes_match` of `src/tester.c`, over
--   nodes by their addresses.
-- - `Print`: `vsnprintf` of `src/print.c`. Its loops run on fuel, since they need not end.
-- - `Platform`: `platform_read_entire_file` of `src/platform_linux.c`; what `open`, `fstat` and
--   `read` give is an argument.
-- - `Windows`: `platform_read_entire_file` of `src/platform_win32.c`, with the number of open
--   handles; `Windows.Arguments`: `mainCRTStartup` up to the call of `main`. What the functions of
--   Windows give is an argument; a path has 260 places, and `argbuf` 4096 bytes, as in the source.
-- - `Debug`: `debug_print_lexer` and `debug_print_parser` of `src/compiler.c`, up to the text that
--   they print, with `sb_create_temp` of `src/string.c`.
-- - `Codegen`: `src/bootstrap_codegen.c`. A run gives the bytecode and the next slot, or stops
--   where an assertion fails, NULL is read or a word is written behind the array. Locals that are
--   never set are an argument.
-- - `Codegen.Runtime`: `tira_rt__puts` of `src/bootstrap_codegen.c`, up to the texts that it
--   writes.
-- - `Parser.Expression` and `Parser.Statement`: grammars over tokens, of expressions and of
--   programs without functions, with the nodes that stand for each; `Parser.Typing`: the kinds of
--   the nodes that pointers point to. They describe what `src/parser.c` is to do, and are no code
--   of it.
-- - `Compile.Parse`: `compiler_parse` of `src/compiler.c`. `Compile.Stages`: the compiler's stages
--   (`compiler_init`, `compiler_destroy`, `compiler_reset`, the stage assertions,
--   `compiler_codegen`, `compiler_run`) and `main` of `src/main.c`, from what the system calls
--   give for the file to the exit, with the two debug printers in their places.
-- The other modules hold proofs: `Lexer.Cursor`, `Lexer.Newlines`, `Lexer.Progress`,
-- `Lexer.Spans`, `Lexer.Lines`, `LexFile.Total`, `LexFile.Shebang`, `LexFile.Room`,
-- `Text.Integer`, `Text.Double.Decimal`, `Parser.Runs`, `Parser.Parts`, `Parser.Total`,
-- `Parser.Program`, `Parser.Operators`, `Parser.Climb`, those below `Parser.Typing`,
-- `Parser.Expression` and `Parser.Statement`, `Lexer.Scans`, `Builder.Room`, `Builder.Decimal`,
-- `Builder.RoundTrip`, `SourceLine.Behind`, `Memory.Mask`, `Memory.Regions`, `Memory.Sequence`,
-- `Memory.Copy`, `Memory.Compare`, `Memory.Grow`, `Print.Bounds`, `Print.Render`, `Print.Digits`,
-- `Print.Full`, `Platform.Reading`, `Windows.Reading`, `Windows.Whole`, `Windows.Arguments.Last`,
-- `Codegen.Runtime.Reverse`, `Codegen.Runtime.Puts`, `Debug.Room`, `Strings.Compare`,
-- `Match.Blocks`, `Codegen.Words`, `Codegen.Program`, `Codegen.Constants`, `Compile`,
-- `Compile.Printing`, `Compile.Ends`, `Compile.Main`, `Compile.Reach`, `Compile.Typing`,
-- `Compile.Program`; `Tests` holds runs on concrete inputs, and `Prelude` the names and lemmas
-- that all share.
--
-- Loops and fuel. The loops inside `lex_next` run on as many rounds as bytes are left, and one
-- more for blanks and comments. The loops of `compiler_lex_file` take their fuel as an argument
-- and say so if it is spent; a round for each byte and one more are enough. Each call of a
-- function of the parser, and each round of its loops, costs one unit; eight for each token and
-- three are enough.
--
-- Numbers are natural numbers. Positions, line numbers and counts are not wrapped: a file of 2 ^
-- 32 bytes or more is outside the model. The count of a block's statements has 16 bits.
-- `string_to_int64` has its overflow checks written out, and the builder wraps its `size_t`
-- subtraction.
--
-- The array of bytecode has 4096 words and an instruction at most six; the parser's array has 256
-- nodes. `vsnprintf` needs a round for each byte of the format and of the text and one more, if
-- the text fits; reading a file needs a round for each byte and one more. The arrays of
-- statements, elements, arguments and parameters are left out of the parser, which reads none of
-- them: what `realloc_array_` keeps and loses of an array is the subject of `Memory.Grow`.
--
-- Not modelled: output, errors' texts, the system calls and the functions of the platform layers
-- that only pass their arguments on; the test driver's fixed tests; and the arenas behind the
-- compiler's pointers but for the temporary one: that `new` gives NULL for tokens, nodes or their
-- arrays, since an arena is full, is outside the model. The statement array of the parser, which
-- nothing reads, and the hash of an interned string, which is always 0, are left out.
pub mod Prelude
pub mod Token
pub mod Windows
pub mod Lexer
pub mod LexFile
pub mod Parser
pub mod Memory
pub mod Platform
pub mod Print
pub mod Strings
pub mod Match
pub mod Debug
pub mod Codegen
pub mod Builder
pub mod Compile
pub mod SourceLine
pub mod Ast
pub mod Text
mod Tests
