-- ===== src/Tests/Print.antt =====
-- src/print.c: texts formatted into small buffers.
use tira.Prelude.{◌≡◌, refl, arith, List, [], ◌∷◌, some, codes}
use tira.Prelude.Int.{negsuc}
use tira.Print.{Arg, arg_string, arg_int, vsnprintf, done, still_running}
use tira.Print.Bounds.{EndsIn, Fitting, vsnprintf-Keeps}
use tira.Print.Render.{Piece, plain, string, int, spell, render, string_text, int_text, decimal}
use tira.Print.Full.{vsnprintf-render, vsnprintf_hangs}

abbrev shown : List Piece
shown = string ∷ plain b'=' ∷ plain b'%' ∷ int ∷ []

abbrev shown_args : List Arg
shown_args = arg_string (some (codes "x")) ∷ arg_int (negsuc 41) ∷ []

vsnprintf-Keeps_example : EndsIn (Fitting 4) (vsnprintf 20 4 (codes "%s=%%%d") shown_args)
vsnprintf-Keeps_example = vsnprintf-Keeps 20 4 (codes "%s=%%%d") shown_args (omega arith)

vsnprintf-render_example :
    vsnprintf 20 16 (codes "%s=%%%d") shown_args
    ≡ done (record { text = codes "x=%-42"; written = 6; nul = some 6 })
unfolding spell render string_text int_text decimal
vsnprintf-render_example =
    vsnprintf-render shown shown_args 20 16 (omega arith, tt) (omega arith) (omega arith)

vsnprintf_hangs_example : vsnprintf 1000 3 (codes "abc") [] ≡ still_running
vsnprintf_hangs_example =
    vsnprintf_hangs (codes "abc") [] 1000 3 (refl, (refl, (refl, tt))) (omega arith) (omega arith)
