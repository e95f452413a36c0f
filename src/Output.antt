-- ===== src/Output.antt =====
-- The names of the files of a scenario in the output directory: part of src/output.rs, and
-- `log_file_name_base` of src/mutant.rs.
pub mod Clean
mod Examples
use cargo_mutants.Prelude.Text.{Text, codes, show_usize, text_eq}
use cargo_mutants.Prelude.{
  ℕ, ◌+◌, Bool, false, ◌||◌, none, some, List, [], ◌∷◌, ◌++◌, ltb, ◌==◌, if◌then◌else◌,
}
use cargo_mutants.Paths.{FilePath}
use cargo_mutants.Mutant.{Mutant}
use cargo_mutants.Outcome.{Scenario, is_mutant}
use cargo_mutants.Lab.{ScenarioOutput}

-- The characters that `clean_filename` replaces by one underscore
abbrev pub replaced_chars : Text
replaced_chars = codes "\\ :<>?*|\""

abbrev pub contains_char : Text → ℕ → Bool
contains_char [] c = false
contains_char (d ∷ s) c = d == c || contains_char s c

-- `clean_filename`
unfoldable pub clean_filename : Text → Text
clean_filename [] = []
clean_filename (c ∷ s) =
    let rest = clean_filename s in
    if c == b'/'
    then b'_' ∷ b'_' ∷ rest
    else if contains_char replaced_chars c
    then b'_' ∷ rest
    else c ∷ rest

-- `log_file_name_base`
unfoldable pub log_file_name_base : Mutant → Text
unfolding clean_filename
log_file_name_base m =
    clean_filename m.source_file.slash_path
    ++ (codes "_line_"
        ++ (show_usize m.span.start.line ++ (codes "_col_" ++ show_usize m.span.start.column)))

-- `{index:03}`
unfoldable pub show_padded : ℕ → Text
show_padded n =
    if ltb n 10
    then codes "00" ++ show_usize n
    else if ltb n 100
    then codes "0" ++ show_usize n
    else show_usize n

-- `used_log_names`: the base names, each with the number of the last scenario of that name
abbrev pub LogNames : Type 0
LogNames = List (Text × ℕ)

-- The `match` of `start_scenario` on the entry of the name
unfoldable pub take_name : Text → LogNames → Text × LogNames
take_name name [] = (name, (name, 0) ∷ [])
take_name name ((other, index) ∷ names) =
    let (basename, rest) = take_name name names in
    if text_eq other name
    then (name ++ (codes "_" ++ show_padded (index + 1)), (other, index + 1) ∷ names)
    else (basename, (other, index) ∷ rest)

unfoldable pub scenario_name : Scenario → Text
unfolding log_file_name_base
scenario_name Scenario.baseline = codes "baseline"
scenario_name (Scenario.mutated m) = log_file_name_base m

-- The paths of `ScenarioOutput::new`
unfoldable pub output_of : FilePath → Scenario → Text → ScenarioOutput
output_of dir scenario basename = record {
  output_dir = dir;
  log_path = codes "log" ∷ (basename ++ codes ".log") ∷ [];
  diff_path =
      if is_mutant scenario then some (codes "diff" ∷ (basename ++ codes ".diff") ∷ []) else none;
}

-- `start_scenario`: the files of the scenario, and the names that are used then
unfoldable pub start_output : FilePath → Scenario → LogNames → ScenarioOutput × LogNames
start_output dir scenario names =
    let (basename, used) = take_name (scenario_name scenario) names in
    (output_of dir scenario basename, used)
