-- ===== src/Tests/Runtime.antt =====
-- src/bootstrap_codegen.c: numbers written by `tira_rt__puts`.
use tira.Prelude.{◌≡◌, arith, [], ◌∷◌, some, codes}
use tira.Prelude.Int.{pos}
use tira.Print.Render.{decimal}
use tira.Codegen.Runtime.{tira_rt__puts}
use tira.Codegen.Runtime.Puts.{console_texts, tira_rt__puts-console_texts}

tira_rt__puts-console_texts_example : tira_rt__puts (pos 907) ≡ some (codes "907\n" ∷ [])
unfolding console_texts decimal
tira_rt__puts-console_texts_example = tira_rt__puts-console_texts (pos 907) (omega arith)
