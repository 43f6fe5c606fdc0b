-- ===== src/Tests/Build.antt =====
-- src/string.c: numbers built.
use tira.Prelude.{◌≡◌, arith, ◌++◌, none, some, Bytes, codes}
use tira.Prelude.Int.{negsuc}
use tira.Text.{string_to_int64}
use tira.Builder.{StringBuilder, sb_build_u64, sb_build_int}
use tira.Builder.Room.{HasRoom}
use tira.Builder.Decimal.{Appended, sb_build_u64_lem, sb_build_u64_overflows}
use tira.Builder.RoundTrip.{string_to_int64-sb_build_int}

abbrev started : StringBuilder
started = record { buffer = codes "width = "; capacity = 131072 }

started-HasRoom : HasRoom started
started-HasRoom = record { fits = omega arith; cap_pos = omega arith; cap_max = omega arith }

sb_build_u64_lem_example :
    (after : StringBuilder) × (sb_build_u64 started 1280 ≡ some after) × Appended 1280 started after
sb_build_u64_lem_example = sb_build_u64_lem started 1280 started-HasRoom (omega arith)

sb_build_u64_overflows_example : sb_build_u64 started 10000000000000000 ≡ none
sb_build_u64_overflows_example = sb_build_u64_overflows started 10000000000000000 (omega arith)

string_to_int64-sb_build_int_example :
    (after : StringBuilder) × (text : Bytes) × (sb_build_int started (negsuc 41) ≡ some after)
    × (after.buffer ≡ started.buffer ++ text)
    × (string_to_int64 text ≡ some (negsuc 41))
string_to_int64-sb_build_int_example =
    string_to_int64-sb_build_int started (negsuc 41) started-HasRoom (omega arith) (omega arith)
