-- ===== src/Tests/Lines.antt =====
-- src/compiler.c: lines of a text.
use tira.Prelude.{◌≡◌, some, codes}
use tira.SourceLine.{source_line}
use tira.SourceLine.Behind.{behind, first_line, line_text, line_from, source_line_lem}

-- The line behind the last newline is the first one.
source_line_lem_example :
    line_text (codes "main\n}\n") (source_line (codes "main\n}\n") 3) ≡ some (codes "main")
unfolding behind first_line line_from
source_line_lem_example = source_line_lem (codes "main\n}\n") 2
