-- ===== src/Coverage.antt =====
-- Which lines the tests execute: src/coverage.rs, from the parsed output of `llvm-cov export` on. The
-- parser of JSON and the file system are parameters.
pub mod Lines
mod Examples
use cargo_mutants.Prelude.Text.{Text, lines}
use cargo_mutants.Prelude.{
  ℕ, Bool, false, ◌&&◌, ◌||◌, Option, none, some, List, [], ◌∷◌, ◌++◌, ltb, ◌==◌, if◌then◌else◌,
  length, get_elem?,
}
use cargo_mutants.Prelude.Maybe.{unwrap_or, ◌>>=◌}
use cargo_mutants.Paths.{FilePath, path_eq, components, strip_path_prefix}

-- The values of a segment as JSON has them
pub data Json : Type 0 where
  number : ℕ → Json
  boolean : Bool → Json
  other_json : Json

-- `Segment`, `ExportFile`, `ExportData` and `Export`
pub record Segment : Type 0 where
  pub line : ℕ
  pub count : ℕ
  pub has_count : Bool

pub record ExportFile : Type 0 where
  pub filename : Text
  pub segments : List Segment

abbrev pub Export : Type 0
Export = List (List ExportFile)

abbrev pub as_u64 : Option Json → Option ℕ
as_u64 (some (number n)) = some n
as_u64 _ = none

abbrev pub as_bool : Option Json → Option Bool
as_bool (some (boolean b)) = some b
as_bool _ = none

-- `Segment::deserialize`, from the elements of the array, where `usize` has 64 bits
unfoldable pub deserialize : List Json → Segment
deserialize fields = record {
  line = unwrap_or 0 (as_u64 (get_elem? fields 0));
  count = unwrap_or 0 (as_u64 (get_elem? fields 2));
  has_count = unwrap_or false (as_bool (get_elem? fields 3));
}

-- `LineCoverage`: the files with the lines that ran
abbrev pub LineCoverage : Type 0
LineCoverage = List (FilePath × List ℕ)

abbrev pub has_line : List ℕ → ℕ → Bool
has_line [] n = false
has_line (l ∷ ls) n = l == n || has_line ls n

-- `LineCoverage::covers`
unfoldable pub covers : LineCoverage → FilePath → ℕ → Bool
covers [] path line = false
covers ((file, ls) ∷ coverage) path line =
    let rest = covers coverage path line in if path_eq file path then has_line ls line else rest

-- `LineCoverage::covered_files`
unfoldable pub covered_files : LineCoverage → ℕ
covered_files coverage = length coverage

-- `covered.entry(path).or_default().extend(lines)`
unfoldable pub extend_entry : FilePath → List ℕ → LineCoverage → LineCoverage
extend_entry path lines [] = (path, lines) ∷ []
extend_entry path lines ((file, ls) ∷ coverage) =
    let rest = extend_entry path lines coverage in
    if path_eq file path then (file, ls ++ lines) ∷ coverage else (file, ls) ∷ rest

-- The lines of the segments that were counted more than zero times
unfoldable pub executed_lines : List Segment → List ℕ
executed_lines [] = []
executed_lines (s ∷ segments) =
    let rest = executed_lines segments in
    if s.has_count && ltb 0 s.count then s.line ∷ rest else rest

-- The path below the first of the prefixes that it has
unfoldable pub relative_to : List FilePath → FilePath → Option FilePath
unfolding strip_path_prefix
relative_to [] path = none
relative_to (prefix ∷ prefixes) path = elim (strip_path_prefix prefix path) [
  | some relative ↦ some relative
  | none ↦ relative_to prefixes path
]

unfoldable pub insert_lines : Option FilePath → List ℕ → LineCoverage → LineCoverage
unfolding extend_entry
insert_lines none lines coverage = coverage
insert_lines (some path) [] coverage = coverage
insert_lines (some path) (l ∷ lines) coverage = extend_entry path (l ∷ lines) coverage

unfoldable pub add_files : List FilePath → List ExportFile → LineCoverage → LineCoverage
unfolding insert_lines relative_to executed_lines components
add_files prefixes [] coverage = coverage
add_files prefixes (f ∷ files) coverage = add_files prefixes files (
    insert_lines (relative_to prefixes (components f.filename)) (executed_lines f.segments)
      coverage)

unfoldable pub add_data : List FilePath → Export → LineCoverage → LineCoverage
unfolding add_files
add_data prefixes [] coverage = coverage
add_data prefixes (files ∷ data_) coverage =
    add_data prefixes data_ (add_files prefixes files coverage)

-- The build directory, and its canonical form where there is another one
unfoldable pub build_prefixes : FilePath → Option FilePath → List FilePath
build_prefixes build_dir none = build_dir ∷ []
build_prefixes build_dir (some canonical) =
    if path_eq canonical build_dir then build_dir ∷ [] else build_dir ∷ canonical ∷ []

-- `LineCoverage::from_export_json`, where `parse` reads JSON and `canonical` is the canonical form of the
-- build directory, if there is one
unfoldable pub from_export_json :
    (Text → Option Export) → Text → FilePath → Option FilePath → Option LineCoverage
unfolding add_data build_prefixes
from_export_json parse json build_dir canonical = do
  export ← parse json
  some (add_data (build_prefixes build_dir canonical) export [])
