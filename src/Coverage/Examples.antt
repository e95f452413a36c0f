-- ===== src/Coverage/Examples.antt =====
-- A test of the coverage of lines, after one of src/coverage.rs, and a witness.
use mathlib.Core.Option
use cargo_mutants.Prelude.Text.{Text, codes}
use cargo_mutants.Prelude.{ℕ, ◌≡◌, refl, true, Option, none, some, [], ◌∷◌}
use cargo_mutants.Paths.{FilePath, components, strip_path_prefix}
use cargo_mutants.Coverage.{
  number, boolean, Segment, Export, deserialize, extend_entry, executed_lines, relative_to,
  insert_lines, add_files, add_data, build_prefixes, from_export_json,
}

abbrev segment : ℕ → ℕ → Segment
unfolding deserialize
segment line count = deserialize (number line ∷ number 1 ∷ number count ∷ boolean true ∷ [])

abbrev build_dir : FilePath
build_dir = codes "/" ∷ codes "tmp" ∷ []

abbrev lib_rs : FilePath
lib_rs = codes "src" ∷ codes "lib.rs" ∷ []

abbrev export : Export
export =
    (record { filename = codes "/tmp/src/lib.rs"; segments = segment 3 2 ∷ segment 7 0 ∷ [] }
      ∷ record { filename = codes "/other/src/lib.rs"; segments = segment 5 1 ∷ [] }
      ∷ [])
    ∷ []

abbrev parse : Text → Option Export
parse json = some export

line_coverage : from_export_json parse (codes "{}") build_dir none ≡ some ((lib_rs, 3 ∷ []) ∷ [])
unfolding from_export_json add_data add_files insert_lines extend_entry executed_lines relative_to
    strip_path_prefix components build_prefixes segment
line_coverage = refl
