-- ===== src/Timeouts/Examples.antt =====
-- Tests of the time limits at a concrete baseline, with whole seconds for floats.
use cargo_mutants.Prelude.{ℕ, ◌*◌, ◌/◌, ◌≡◌, refl, false, none, some, [], ◌∷◌}
use cargo_mutants.Process.{Exit}
use cargo_mutants.Outcome.{build, test, Scenario, PhaseResult, ScenarioOutcome, phase_result}
use cargo_mutants.Timeouts.{
  Floats, LimitOptions, from_secs, from_baseline, build_timeout, choose_build_timeout,
  scaled_build_timeout, test_timeout, unset_test_timeout, auto_test_timeout,
}

abbrev seconds : Floats ℕ
seconds = record {
  as_secs_f64 = λ d. d / 1000000000;
  from_secs_f64 = λ n. some (n * 1000000000);
  times = λ a b. a * b;
  ceil = λ a. a;
  five = 5;
}

abbrev options : LimitOptions ℕ
options = record {
  test_timeout_option = none;
  minimum_test_timeout = from_secs 20;
  test_timeout_multiplier = none;
  build_timeout_option = none;
  build_timeout_multiplier = none;
  check_only = false;
}

abbrev built : PhaseResult
built = record { phase = build; duration = from_secs 30; process_status = Exit.success; argv = [] }

abbrev tested : PhaseResult
tested = record { phase = test; duration = from_secs 7; process_status = Exit.success; argv = [] }

abbrev baseline_outcome : ScenarioOutcome
baseline_outcome = record {
  output_dir = [];
  log_path = [];
  diff_path = none;
  scenario = Scenario.baseline;
  phase_results = built ∷ tested ∷ [];
  skip_reason = none;
}

test_limit_of_baseline :
    from_baseline seconds options baseline_outcome
    ≡ some (record { build_limit = none; test_limit = some (from_secs 35) })
unfolding from_baseline build_timeout choose_build_timeout scaled_build_timeout test_timeout
    unset_test_timeout auto_test_timeout phase_result
test_limit_of_baseline = refl

-- A multiplier for which there is no duration
panics :
    from_baseline (record seconds { from_secs_f64 = λ n. none }) options baseline_outcome ≡ none
unfolding from_baseline build_timeout choose_build_timeout scaled_build_timeout test_timeout
    unset_test_timeout auto_test_timeout phase_result
panics = refl
