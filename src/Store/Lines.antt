-- ===== src/Store/Lines.antt =====
-- `bufio.Scanner` over the whole content of a file, with its default split into lines.
use vitis.Prelude.{List, [], ◌∷◌, ◌==◌, if◌then◌else◌}
use vitis.Text.{Text, cons_head}

-- The pieces between newlines; nothing follows a newline at the end.
unfoldable pub lines_of : Text → List Text
lines_of [] = []
lines_of (c ∷ cs) = let rest = lines_of cs in if c == 10 then [] ∷ rest else cons_head c rest

-- A carriage return at the end of a line is dropped.
unfoldable pub drop_cr : Text → Text
drop_cr [] = []
drop_cr (c ∷ []) = if c == 13 then [] else c ∷ []
drop_cr (c ∷ d ∷ t) = c ∷ drop_cr (d ∷ t)
