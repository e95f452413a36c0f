-- ===== src/Lab.antt =====
-- The lab: src/lab.rs, how one scenario is run in a build directory and its outcome recorded, with
-- what that uses of src/build_dir.rs, src/mutant.rs, src/output.rs and src/coverage.rs.
-- The world outside is a record of what it answers, which may depend on all that happened before:
-- whether an output fails, what a cargo phase returns and makes of the files of the build directory,
-- and the fingerprint of the artifacts.
pub mod Worker
pub mod Keeps
pub mod Tree
pub mod Recorded
mod Examples
use cargo_mutants.Prelude.Text.{Text, codes}
use cargo_mutants.Prelude.{ℕ, Bool, Option, none, some, List, ◌∷◌, if◌then◌else◌, Result, ok, err}
use cargo_mutants.Paths.{FilePath, path_eq}
use cargo_mutants.Process.{Duration}
use cargo_mutants.Source.{Package}
use cargo_mutants.Mutant.{Mutant}
use cargo_mutants.Outcome.{Phase, Scenario, PhaseResult, ScenarioOutcome}
use cargo_mutants.Outcome.Totals.{LabOutcome}

-- `enum PackageSelection`
pub data PackageSelection : Type 0 where
  all_packages : PackageSelection
  explicit : List Package → PackageSelection

-- `enum TestsForMutant`
pub data TestsForMutant : Type 0 where
  workspace mutated_package : TestsForMutant
  explicit_packages : List Package → TestsForMutant

-- `struct Timeouts`
pub record Timeouts : Type 0 where
  pub build_limit : Option Duration
  pub test_limit : Option Duration

-- What a worker does that can be seen outside
pub data Event : Type 0 where
  log_created : Scenario → Event
  diff_written message_written : Text → Event
  file_written : FilePath → Text → Event
  phase_ran : Phase → PackageSelection → Option Duration → Event
  outcome_written : ScenarioOutcome → Event

-- The part of a `ScenarioOutput` that an outcome keeps
pub record ScenarioOutput : Type 0 where
  pub output_dir : FilePath
  pub log_path : FilePath
  pub diff_path : Option FilePath

-- The parts of `Options` and `Lab` that a worker reads, and what the world answers after the events
-- so far, the last of them first
pub record Env : Type 0 where
  pub check_only : Bool
  pub detect_equivalent_mutants : Bool
  pub tests_for_mutant : TestsForMutant
  pub baseline_fingerprint : Option ℕ
  pub coverage : Option (FilePath → ℕ → Bool)
  pub scenario_output : List Event → Scenario → ScenarioOutput
  pub io_error : List Event → Event → Option Text
  pub torn_file : List Event → Option Text
  pub run_cargo : List Event → Phase → PackageSelection → Option Duration → Result Text PhaseResult
  pub written_by_cargo : List Event → Phase → (FilePath → Option Text) → FilePath → Option Text
  pub fingerprint_build_artifacts : List Event → Option ℕ
  pub debug_text : Text → Text

-- The state that workers change: the files in the build directory, the fingerprints of the
-- mutants built, the outcome of the run, and the events so far
pub record World : Type 0 where
  pub tree : FilePath → Option Text
  pub mutant_fingerprints : List (ℕ × Text)
  pub lab_outcome : LabOutcome
  pub events : List Event

abbrev pub Io {ℓ} : Type ℓ → Type ℓ
Io A = World → Result Text A × World

unfoldable pub return {ℓ} : {A : Type ℓ} → A → Io A
return a w = (ok a, w)

unfoldable pub fail {ℓ} : {A : Type ℓ} → Text → Io A
fail e w = (err e, w)

abbrev pub continue {ℓ κ} :
    {A : Type ℓ} {B : Type κ} → (A → Io B) → Result Text A × World → Result Text B × World
continue f (ok a, w) = f a w
continue f (err e, w) = (err e, w)

-- `?` and sequence
infixl 10 ◌>>=◌
unfoldable pub ◌>>=◌ {ℓ κ} : {A : Type ℓ} {B : Type κ} → Io A → (A → Io B) → Io B
(m >>= f) w = continue f (m w)

infixl 10 ◌>>◌
abbrev pub ◌>>◌ {ℓ κ} : {A : Type ℓ} {B : Type κ} → Io A → Io B → Io B
m >> k = m >>= (λ a. k)

abbrev pub unit_or : Option Text → World → Result Text (Unit {0}) × World
unit_or none w = (ok tt, w)
unit_or (some e) w = (err e, w)

abbrev pub write_tree : FilePath → Option Text → (FilePath → Option Text) → FilePath → Option Text
write_tree path code tree q = if path_eq path q then code else tree q

-- The branches of `overwrite_file`, from what is at the path now, whether the write fails, and what
-- it leaves then
abbrev pub overwritten :
    FilePath
    → Text
    → Option Text
    → Option Text
    → Option Text
    → World
    → Result Text (Unit {0}) × World
overwritten path code torn none failed w = (err (codes "refusing to overwrite"), w)
overwritten path code torn (some old) none w = (
  ok tt,
  record w {
    tree = write_tree path (some code) w.tree;
    events = file_written path code ∷ w.events;
  },
)
overwritten path code torn (some old) (some x) w = (
  err x,
  record w { tree = write_tree path torn w.tree; events = file_written path code ∷ w.events },
)

module _ (env : Env) where
  -- One output, which may fail
  unfoldable pub perform : Event → Io (Unit {0})
  perform e w = unit_or (env.io_error w.events e) (record w { events = e ∷ w.events })

  -- `BuildDir::overwrite_file`: only a regular file is overwritten. A write that fails may leave any
  -- content, or no file.
  unfoldable pub overwrite_file : FilePath → Text → Io (Unit {0})
  overwrite_file path code w =
      overwritten path code (env.torn_file w.events) (w.tree path)
        (env.io_error w.events (file_written path code)) w

  -- `Mutant::apply` and `Mutant::revert`
  unfoldable pub apply : Mutant → Text → Io (Unit {0})
  apply m code = overwrite_file m.source_file.tree_relative_path code

  unfoldable pub revert : Mutant → Io (Unit {0})
  revert m = overwrite_file m.source_file.tree_relative_path m.source_file.code
