-- ===== src/Outcome/Totals.antt =====
-- The outcome of a whole run, `LabOutcome` of src/outcome.rs. Its times and version are left out:
-- nothing that is modelled depends on them.
use cargo_mutants.Prelude.{
  ℕ, ◌+◌, Bool, false, not, ◌&&◌, ◌||◌, List, [], ◌∷◌, ◌++◌, ltb, if◌then◌else◌,
}
use cargo_mutants.Outcome.{
  ExitCode, baseline_failed, found_problems, Scenario, is_mutant, ScenarioOutcome, succeeded,
  SummaryOutcome, caught_mutant, missed_mutant, unviable, failure, summary,
}

-- `struct LabOutcome`
pub record LabOutcome : Type 0 where
  pub outcomes : List ScenarioOutcome
  pub total_mutants : ℕ
  pub missed : ℕ
  pub caught : ℕ
  pub timeouts : ℕ
  pub unviables : ℕ
  pub successes : ℕ
  pub equivalents : ℕ
  pub uncovereds : ℕ

-- `LabOutcome::new`
abbrev pub new_lab : LabOutcome
new_lab = record {
  outcomes = [];
  total_mutants = 0;
  missed = 0;
  caught = 0;
  timeouts = 0;
  unviables = 0;
  successes = 0;
  equivalents = 0;
  uncovereds = 0;
}

-- The `match` of `add`
unfoldable pub count_summary : SummaryOutcome → LabOutcome → LabOutcome
count_summary caught_mutant l = record l { caught = l.caught + 1 }
count_summary missed_mutant l = record l { missed = l.missed + 1 }
count_summary SummaryOutcome.timeout l = record l { timeouts = l.timeouts + 1 }
count_summary unviable l = record l { unviables = l.unviables + 1 }
count_summary SummaryOutcome.success l = record l { successes = l.successes + 1 }
count_summary SummaryOutcome.equivalent l = record l { equivalents = l.equivalents + 1 }
count_summary SummaryOutcome.uncovered l = record l { uncovereds = l.uncovereds + 1 }
count_summary failure l = l

unfoldable pub count_scenario : Scenario → SummaryOutcome → LabOutcome → LabOutcome
count_scenario Scenario.baseline s l = l
count_scenario (Scenario.mutated m) s l =
    count_summary s (record l { total_mutants = l.total_mutants + 1 })

-- `LabOutcome::add`
unfoldable pub add : LabOutcome → ScenarioOutcome → LabOutcome
add l o =
    let counted = count_scenario o.scenario (summary o) l in
    record counted { outcomes = counted.outcomes ++ o ∷ [] }

unfoldable pub any_failed_baseline : List ScenarioOutcome → Bool
any_failed_baseline [] = false
any_failed_baseline (o ∷ os) =
    not (is_mutant o.scenario) && not (succeeded o) || any_failed_baseline os

-- `LabOutcome::exit_code`
unfoldable pub exit_code : LabOutcome → ExitCode
exit_code l =
    if any_failed_baseline l.outcomes
    then baseline_failed
    else if ltb 0 l.timeouts
    then ExitCode.timeout
    else if ltb 0 l.missed || ltb 0 l.uncovereds
    then found_problems
    else ExitCode.success
