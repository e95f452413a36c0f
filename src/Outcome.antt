-- ===== src/Outcome.antt =====
-- Outcomes of scenarios and of a whole run: src/scenario.rs, src/outcome.rs and src/exit_code.rs.
-- Timestamps, the version and the paths of logs are carried along and not interpreted.
pub mod Summary
pub mod Totals
pub mod Counts
pub mod Verdict
mod Examples
use mathlib.Core.Option
use cargo_mutants.Prelude.Text.{Text}
use cargo_mutants.Prelude.{
  ℕ, Bool, true, false, not, ◌&&◌, ◌||◌, Option, none, some, List, [], ◌∷◌, ◌++◌, map,
  if◌then◌else◌, get_last?,
}
use cargo_mutants.Process.{Duration, Exit, is_success, is_timeout, is_failure}
use cargo_mutants.Paths.{FilePath}
use cargo_mutants.Mutant.{Mutant}

-- `enum ExitCode`, with the code of each
pub data ExitCode : Type 0 where
  success usage found_problems timeout baseline_failed filter_diff_mismatch filter_diff_invalid :
      ExitCode
  software : ExitCode

-- `code as u8`
unfoldable pub exit_status : ExitCode → ℕ
exit_status ExitCode.success = 0
exit_status usage = 1
exit_status found_problems = 2
exit_status timeout = 3
exit_status baseline_failed = 4
exit_status filter_diff_mismatch = 5
exit_status filter_diff_invalid = 6
exit_status software = 70

-- `enum Phase`
pub data Phase : Type 0 where
  check build test : Phase

abbrev pub phase_eq : Phase → Phase → Bool
phase_eq check check = true
phase_eq build build = true
phase_eq test test = true
phase_eq _ _ = false

-- `enum Scenario`
pub data Scenario : Type 0 where
  baseline : Scenario
  mutated : Mutant → Scenario

-- `Scenario::is_mutant`
abbrev pub is_mutant : Scenario → Bool
is_mutant baseline = false
is_mutant (mutated m) = true

-- `Scenario::mutant`
abbrev pub mutant_of : Scenario → Option Mutant
mutant_of baseline = none
mutant_of (mutated m) = some m

-- `enum SkipReason`
pub data SkipReason : Type 0 where
  equivalent uncovered : SkipReason

-- `struct PhaseResult`
pub record PhaseResult : Type 0 where
  pub phase : Phase
  pub duration : Duration
  pub process_status : Exit
  pub argv : List Text

-- `struct ScenarioOutcome`
pub record ScenarioOutcome : Type 0 where
  pub output_dir : FilePath
  pub log_path : FilePath
  pub diff_path : Option FilePath
  pub scenario : Scenario
  pub phase_results : List PhaseResult
  pub skip_reason : Option SkipReason

-- `enum SummaryOutcome`
pub data SummaryOutcome : Type 0 where
  success caught_mutant missed_mutant unviable failure timeout equivalent uncovered : SummaryOutcome

-- `add_phase_result` and `set_skip_reason`
unfoldable pub add_phase_result : PhaseResult → ScenarioOutcome → ScenarioOutcome
add_phase_result pr o = record o { phase_results = o.phase_results ++ pr ∷ [] }

unfoldable pub set_skip_reason : SkipReason → ScenarioOutcome → ScenarioOutcome
set_skip_reason reason o = record o { skip_reason = some reason }

-- `last_phase` and `last_phase_result`
unfoldable pub last_phase : ScenarioOutcome → Option Phase
last_phase o = Option.map (λ (pr : PhaseResult). pr.phase) (get_last? o.phase_results)

unfoldable pub last_phase_result : ScenarioOutcome → Option Exit
last_phase_result o =
    Option.map (λ (pr : PhaseResult). pr.process_status) (get_last? o.phase_results)

-- `phase_result`
abbrev pub find_phase : Phase → List PhaseResult → Option PhaseResult
find_phase phase [] = none
find_phase phase (pr ∷ prs) = if phase_eq pr.phase phase then some pr else find_phase phase prs

unfoldable pub phase_result : ScenarioOutcome → Phase → Option PhaseResult
phase_result o phase = find_phase phase o.phase_results

-- `Option::is_some_and`
abbrev pub is_some_and {ℓ} : {A : Type ℓ} → Option A → (A → Bool) → Bool
is_some_and none f = false
is_some_and (some a) f = f a

-- `succeeded` is the method `success`.
unfoldable pub succeeded : ScenarioOutcome → Bool
unfolding last_phase_result
succeeded o = is_some_and (last_phase_result o) is_success

abbrev pub any_result : (PhaseResult → Bool) → List PhaseResult → Bool
any_result f [] = false
any_result f (pr ∷ prs) = f pr || any_result f prs

-- `has_timeout` and `check_or_build_failed`
unfoldable pub has_timeout : ScenarioOutcome → Bool
has_timeout o = any_result (λ pr. is_timeout pr.process_status) o.phase_results

unfoldable pub check_or_build_failed : ScenarioOutcome → Bool
check_or_build_failed o =
    any_result (λ pr. not (phase_eq pr.phase test) && is_failure pr.process_status) o.phase_results

-- `mutant_caught` and `mutant_missed`
abbrev ended_in_test : ScenarioOutcome → (Exit → Bool) → Bool
unfolding last_phase last_phase_result
ended_in_test o f =
    is_mutant o.scenario
    && (is_some_and (last_phase o) (λ p. phase_eq p test) && is_some_and (last_phase_result o) f)

unfoldable pub mutant_caught : ScenarioOutcome → Bool
unfolding last_phase last_phase_result
mutant_caught o = ended_in_test o is_failure

unfoldable pub mutant_missed : ScenarioOutcome → Bool
unfolding last_phase last_phase_result
mutant_missed o = ended_in_test o is_success

-- `should_show_logs`
unfoldable pub should_show_logs : ScenarioOutcome → Bool
unfolding succeeded
should_show_logs o = not (is_mutant o.scenario) && not (succeeded o)

pub summary_of_baseline : ScenarioOutcome → SummaryOutcome
unfolding has_timeout succeeded
summary_of_baseline o =
    if has_timeout o then timeout else if succeeded o then SummaryOutcome.success else failure

pub summary_of_mutant : ScenarioOutcome → SummaryOutcome
unfolding has_timeout succeeded check_or_build_failed mutant_caught mutant_missed
summary_of_mutant o =
    if check_or_build_failed o
    then unviable
    else if has_timeout o
    then timeout
    else if mutant_caught o
    then caught_mutant
    else if mutant_missed o
    then missed_mutant
    else if succeeded o
    then SummaryOutcome.success
    else failure

pub summary_unskipped : Scenario → ScenarioOutcome → SummaryOutcome
unfolding summary_of_baseline summary_of_mutant
summary_unskipped baseline o = summary_of_baseline o
summary_unskipped (mutated m) o = summary_of_mutant o

pub summary_skipped : Option SkipReason → ScenarioOutcome → SummaryOutcome
unfolding summary_unskipped
summary_skipped (some SkipReason.equivalent) o = SummaryOutcome.equivalent
summary_skipped (some SkipReason.uncovered) o = SummaryOutcome.uncovered
summary_skipped none o = summary_unskipped o.scenario o

-- `ScenarioOutcome::summary`
unfoldable pub summary : ScenarioOutcome → SummaryOutcome
unfolding summary_skipped
summary o = summary_skipped o.skip_reason o
