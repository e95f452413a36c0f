-- ===== src/Outcome/Examples.antt =====
-- Tests of outcomes, and the theorems at concrete runs.
use cargo_mutants.Prelude.Text.{codes}
use cargo_mutants.Prelude.{◌≡◌, refl, none, List, [], ◌∷◌, ◌==◌}
use cargo_mutants.Process.{Exit}
use cargo_mutants.Mutant.Samples.{mutant}
use cargo_mutants.Outcome.{
  ExitCode, Phase, build, test, Scenario, PhaseResult, ScenarioOutcome, exit_status, summary,
  succeeded,
}
use cargo_mutants.Outcome.Totals.{new_lab, exit_code, any_failed_baseline}
use cargo_mutants.Outcome.Counts.{record_all, Counts, record_all-Counts}
use cargo_mutants.Outcome.Summary.{summary_after, summary-eq-summary_after}
use cargo_mutants.Outcome.Verdict.{
  verdict, some_mutant, all_pass, exit_code-eq-verdict, exit_status-zero,
}

abbrev phase_of : Phase → Exit → PhaseResult
phase_of phase e = record { phase = phase; duration = 1; process_status = e; argv = [] }

abbrev outcome_of : Scenario → List PhaseResult → ScenarioOutcome
outcome_of scenario prs = record {
  output_dir = [];
  log_path = codes "log" ∷ [];
  diff_path = none;
  scenario = scenario;
  phase_results = prs;
  skip_reason = none;
}

abbrev baseline_ok : ScenarioOutcome
baseline_ok =
    outcome_of Scenario.baseline (phase_of build Exit.success ∷ phase_of test Exit.success ∷ [])

abbrev missed : ScenarioOutcome
missed =
    outcome_of (Scenario.mutated mutant)
      (phase_of build Exit.success ∷ phase_of test Exit.success ∷ [])

abbrev caught : ScenarioOutcome
caught =
    outcome_of (Scenario.mutated mutant)
      (phase_of build Exit.success ∷ phase_of test (Exit.failure 101) ∷ [])

abbrev unbuilt : ScenarioOutcome
unbuilt = outcome_of (Scenario.mutated mutant) (phase_of build (Exit.failure 101) ∷ [])

abbrev run : List ScenarioOutcome
run = baseline_ok ∷ caught ∷ missed ∷ unbuilt ∷ []

missed_run : exit_code (record_all new_lab run) ≡ ExitCode.found_problems
unfolding verdict any_failed_baseline succeeded some_mutant summary
missed_run = exit_code-eq-verdict run

record_all-Counts_example : Counts (record_all new_lab run) run
record_all-Counts_example = record_all-Counts run

exit_code-eq-verdict_example : exit_code (record_all new_lab run) ≡ verdict run
exit_code-eq-verdict_example = exit_code-eq-verdict run

exit_status-zero_example :
    (exit_status (exit_code (record_all new_lab (baseline_ok ∷ caught ∷ []))) == 0)
    ≡ all_pass (baseline_ok ∷ caught ∷ [])
exit_status-zero_example = exit_status-zero (baseline_ok ∷ caught ∷ [])

summary-eq-summary_after_example : summary caught ≡ summary_after test (Exit.failure 101)
summary-eq-summary_after_example =
    summary-eq-summary_after caught mutant (phase_of build Exit.success ∷ [])
      (phase_of test (Exit.failure 101)) refl refl refl (refl, tt)
