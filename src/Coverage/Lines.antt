-- ===== src/Coverage/Lines.antt =====
-- The lines that are covered.
use mathlib.Core.Option
use cargo_mutants.Prelude.Text.{Text}
use cargo_mutants.Prelude.{ℕ, Bool, false, ◌&&◌, ◌||◌, Option, none, some, List, [], ◌∷◌, ltb, ◌==◌}
use cargo_mutants.Paths.{FilePath, path_eq, components}
use cargo_mutants.Coverage.{Segment, ExportFile, Export, relative_to}

-- Whether a segment of the list starts on the line and was counted
abbrev pub counted : List Segment → ℕ → Bool
counted [] line = false
counted (s ∷ segments) line =
    ((s.has_count && ltb 0 s.count) && s.line == line) || counted segments line

abbrev pub is_at : Option FilePath → FilePath → Bool
is_at none path = false
is_at (some p) path = path_eq p path

-- Whether one of the files is at the path, below one of the prefixes, with such a segment
abbrev pub any_file : List FilePath → List ExportFile → FilePath → ℕ → Bool
any_file prefixes [] path line = false
any_file prefixes (f ∷ files) path line =
    (is_at (relative_to prefixes (components f.filename)) path && counted f.segments line)
    || any_file prefixes files path line

abbrev pub any_data : List FilePath → Export → FilePath → ℕ → Bool
any_data prefixes [] path line = false
any_data prefixes (files ∷ export) path line =
    any_file prefixes files path line || any_data prefixes export path line
