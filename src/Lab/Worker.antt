-- ===== src/Lab/Worker.antt =====
-- `impl Worker` of src/lab.rs: one scenario from its log to its outcome, and the queue of mutants.
use cargo_mutants.Prelude.Text.{Text, codes, show_usize}
use cargo_mutants.Prelude.{
  ℕ, Bool, true, false, ◌&&◌, ◌||◌, Option, none, some, List, [], ◌∷◌, ◌++◌, ◌==◌, if◌then◌else◌,
  Result, ok, err,
}
use cargo_mutants.Paths.{to_slash_path}
use cargo_mutants.Process.{Duration, is_success}
use cargo_mutants.Mutant.{Mutant, mutated_code, full_name}
use cargo_mutants.Mutant.Diff.{diff}
use cargo_mutants.Outcome.{
  Phase, check, build, test, phase_eq, Scenario, baseline, mutated, equivalent, uncovered,
  PhaseResult, ScenarioOutcome, add_phase_result, set_skip_reason,
}
use cargo_mutants.Outcome.Totals.{add}
use cargo_mutants.Lab.{
  PackageSelection, all_packages, explicit, TestsForMutant, workspace, mutated_package,
  explicit_packages, Timeouts, log_created, diff_written, message_written, phase_ran,
  outcome_written, ScenarioOutput, Env, Io, return, fail, ◌>>=◌, ◌>>◌, perform, apply, revert,
}

-- `Options::phases`
unfoldable pub phases : Bool → List Phase
phases true = check ∷ []
phases false = build ∷ test ∷ []

-- The limit of a phase
unfoldable pub phase_limit : Timeouts → Phase → Option Duration
phase_limit t test = t.test_limit
phase_limit t _ = t.build_limit

-- A value that the code takes for granted, and panics without
unfoldable pub expect {ℓ} : {A : Type ℓ} → Option A → Io A
expect none = fail (codes "panic")
expect (some a) = return a

-- `ScenarioOutcome::new`
unfoldable pub new_outcome : ScenarioOutput → Scenario → ScenarioOutcome
new_outcome out scenario = record {
  output_dir = out.output_dir;
  log_path = out.log_path;
  diff_path = out.diff_path;
  scenario = scenario;
  phase_results = [];
  skip_reason = none;
}

unfoldable pub find_build : ℕ → List (ℕ × Text) → Option Text
find_build fingerprint [] = none
find_build fingerprint ((f, name) ∷ fs) =
    if f == fingerprint then some name else find_build fingerprint fs

module _ (env : Env) (unified_diff : Text → Text → Text) where
  -- `OutputDir::start_scenario` and `open_log_read`
  unfoldable pub start_scenario : Scenario → Io ScenarioOutput
  start_scenario scenario = do
    perform env (log_created scenario)
    λ w. (ok (env.scenario_output w.events scenario), w)

  -- `uncovered_message`
  unfoldable pub uncovered_message : Mutant → Option Text
  uncovered_message m = elim env.coverage [
    | none ↦ none
    | some covers ↦
        if m.const_eval || covers m.source_file.tree_relative_path m.span.start.line
        then none
        else some (
            codes "no test executed "
            ++ (to_slash_path m.source_file.tree_relative_path
                ++ (codes ":"
                    ++ (show_usize m.span.start.line
                        ++ codes
                            ", so no test can catch this mutant; skipping the build and test phases (--skip-uncovered)"))))
  ]

  unfoldable pub is_baseline_fingerprint : ℕ → Bool
  is_baseline_fingerprint fingerprint = elim env.baseline_fingerprint [
    | none ↦ false
    | some f ↦ f == fingerprint
  ]

  unfoldable pub record_build : ℕ → Text → Option Text → Io (Option Text)
  record_build fingerprint name (some other) w =
      (ok (some (codes "mutant " ++ env.debug_text other)), w)
  record_build fingerprint name none w =
      (ok none, record w { mutant_fingerprints = (fingerprint, name) ∷ w.mutant_fingerprints })

  unfoldable pub compare_build : Text → Option ℕ → Io (Option Text)
  compare_build name none w = (ok none, w)
  compare_build name (some fingerprint) w =
      if is_baseline_fingerprint fingerprint
      then (ok (some (codes "the unmutated baseline")), w)
      else record_build fingerprint name (find_build fingerprint w.mutant_fingerprints) w

  -- `equivalent_build`
  unfoldable pub equivalent_build : Text → Io (Option Text)
  equivalent_build name w = compare_build name (env.fingerprint_build_artifacts w.events) w

  -- `run_cargo`: what runs in the build directory may write, change and remove any file there.
  unfoldable pub run_phase : Phase → PackageSelection → Timeouts → Io (Result Text PhaseResult)
  run_phase phase packages timeouts w =
      let limit = phase_limit timeouts phase in
      (
        ok (env.run_cargo w.events phase packages limit),
        record w {
          tree = env.written_by_cargo w.events phase w.tree;
          events = phase_ran phase packages limit ∷ w.events;
        },
      )

  -- The test after a phase that passed: whether the mutant's build is that of another scenario
  unfoldable pub equivalent_to : Phase → Scenario → Io (Option Text)
  equivalent_to phase baseline = return none
  equivalent_to phase (mutated m) =
      if phase_eq phase build && env.detect_equivalent_mutants
      then expect (full_name m) >>= equivalent_build
      else return none

  abbrev pub skip_message : Text → Text
  skip_message other =
      codes "build artifacts are identical to "
      ++ (other ++ codes "; skipping the test phase (--detect-equivalent-mutants)")

  -- The end of a phase whose build is equivalent, or the phases that are left
  unfoldable pub skip_or :
      ScenarioOutcome
      → Option Text
      → Io (Result Text ScenarioOutcome)
      → Io (Result Text ScenarioOutcome)
  skip_or o none rest = rest
  skip_or o (some other) rest = do
    perform env (message_written (skip_message other))
    return (ok (set_skip_reason equivalent o))

  -- The body of the loop, after the phase
  unfoldable pub next_phase :
      Phase
      → ScenarioOutcome
      → Result Text PhaseResult
      → (ScenarioOutcome → Io (Result Text ScenarioOutcome))
      → Io (Result Text ScenarioOutcome)
  next_phase phase o (err e) rest = return (err e)
  next_phase phase o (ok pr) rest =
      let o' = add_phase_result pr o in
      if is_success pr.process_status
      then (equivalent_to phase o.scenario >>= λ other. skip_or o' other (rest o'))
      else return (ok o')

  -- The loop over the phases. An error of cargo is a value, as the caller has to revert the mutant
  -- then; an error of the output ends the worker.
  unfoldable pub run_phases :
      List Phase → PackageSelection → Timeouts → ScenarioOutcome → Io (Result Text ScenarioOutcome)
  run_phases [] packages timeouts o = return (ok o)
  run_phases (phase ∷ rest) packages timeouts o = run_phase phase packages timeouts >>= λ result.
      next_phase phase o result (run_phases rest packages timeouts)

  -- `finish_scenario`, with `OutputDir::add_scenario_outcome`: the outcome is counted first, and
  -- writing it may fail
  unfoldable pub finish_scenario : ScenarioOutcome → Io ScenarioOutcome
  finish_scenario o w =
      (perform env (outcome_written o) >> return o) (record w { lab_outcome = add w.lab_outcome o })

  unfoldable pub revert_if_mutant : Scenario → Io (Unit {0})
  revert_if_mutant baseline = return tt
  revert_if_mutant (mutated m) = revert env m

  -- What follows the loop over the phases
  unfoldable pub after_phases : Scenario → Result Text ScenarioOutcome → Io ScenarioOutcome
  after_phases scenario (ok o) = do revert_if_mutant scenario; finish_scenario o
  after_phases scenario (err e) = do revert_if_mutant scenario; fail e

  unfoldable pub run_all_phases :
      Scenario → PackageSelection → Timeouts → ScenarioOutcome → Io ScenarioOutcome
  run_all_phases scenario packages timeouts o =
      run_phases (phases env.check_only) packages timeouts o >>= after_phases scenario

  -- What is done with a mutant that coverage rules out, and with any other
  unfoldable pub run_mutant :
      Option Text → Mutant → PackageSelection → Timeouts → ScenarioOutcome → Io ScenarioOutcome
  run_mutant (some message) m packages timeouts o = do
    perform env (message_written message)
    finish_scenario (set_skip_reason uncovered o)
  run_mutant none m packages timeouts o = do
    code ← expect (mutated_code m)
    apply env m code
    run_all_phases (mutated m) packages timeouts o

  unfoldable pub run_prepared :
      Scenario → PackageSelection → Timeouts → ScenarioOutcome → Io ScenarioOutcome
  run_prepared baseline packages timeouts o = run_all_phases baseline packages timeouts o
  run_prepared (mutated m) packages timeouts o = do
    text ← expect (diff unified_diff m)
    perform env (diff_written text)
    run_mutant (uncovered_message m) m packages timeouts o

  -- `run_one_scenario`
  unfoldable pub run_one_scenario : Scenario → PackageSelection → Timeouts → Io ScenarioOutcome
  run_one_scenario scenario packages timeouts = do
    out ← start_scenario scenario
    run_prepared scenario packages timeouts (new_outcome out scenario)

  unfoldable pub packages_for : TestsForMutant → Mutant → PackageSelection
  packages_for workspace m = all_packages
  packages_for mutated_package m = explicit (m.source_file.in_package ∷ [])
  packages_for (explicit_packages packages) m = explicit packages

  -- `run_queue`, where one worker takes all of the queue
  unfoldable pub run_queue : List Mutant → Timeouts → Io (Unit {0})
  run_queue [] timeouts = return tt
  run_queue (m ∷ queue) timeouts = do
    o ← run_one_scenario (mutated m) (packages_for env.tests_for_mutant m) timeouts
    run_queue queue timeouts
