-- ===== src/Lab/Examples.antt =====
-- Tests of the lab, and the theorem at a concrete scenario.
use cargo_mutants.Prelude.Text.{
  codes, Text, parse_usize, show_usize, split_once, join, strip_prefix,
}
use cargo_mutants.Prelude.Bytes.{width, byte_len, slice}
use cargo_mutants.Prelude.{◌≡◌, refl, false, none, some, List, [], ◌∷◌, map, if◌then◌else◌, ok}
use cargo_mutants.Paths.{FilePath, path_eq}
use cargo_mutants.Process.{Exit}
use cargo_mutants.Mutant.Samples.{mutant, file}
use cargo_mutants.Outcome.{build, test, mutated, ScenarioOutcome}
use cargo_mutants.Outcome.Totals.{new_lab}
use cargo_mutants.Lab.{all_packages, TestsForMutant, Timeouts, Env, World}
use cargo_mutants.Lab.Worker.{run_one_scenario}
use cargo_mutants.Lab.Tree.{run_one_scenario-restores}
use cargo_mutants.Lab.{◌>>=◌, perform, return, apply, fail, overwrite_file, revert}
use cargo_mutants.Lab.Worker.{
  start_scenario, run_prepared, expect, after_phases, compare_build, equivalent_build,
  equivalent_to, find_build, finish_scenario, is_baseline_fingerprint, new_outcome, next_phase,
  phase_limit, phases, record_build, revert_if_mutant, run_all_phases, run_mutant, run_phase,
  run_phases, skip_or, uncovered_message,
}
use cargo_mutants.Mutant.Diff.{
  diff, diff_window, renumber_hunk_header, renumber_hunks, shift_hunk_range, split_inclusive,
  split_once_at,
}
use cargo_mutants.Span.{
  byte_range, byte_offset, offset_on_line, new_index, line_start, scan_line, newline_offsets,
  offset_from, replace_indexed,
}
use cargo_mutants.Source.{normalized, contains, replace_crlf}
use cargo_mutants.Mutant.{
  describe_change, describe_parts, full_name, mutated_code, replacement_with_marker,
}
use cargo_mutants.Outcome.Totals.{add, count_scenario, count_summary}
use cargo_mutants.Outcome.{add_phase_result, set_skip_reason, summary}
use cargo_mutants.Paths.{to_slash_path}
use cargo_mutants.Outcome.Counts.{record_all}
use cargo_mutants.Mutant.{Mutant}
use cargo_mutants.Lab.Recorded.{run_one_scenario-Recorded, run_queue-records}
use cargo_mutants.Lab.Worker.{run_queue, packages_for}

abbrev lock_file : FilePath
lock_file = codes "Cargo.lock" ∷ []

-- Nothing fails but the tests of the mutant; cargo writes one file.
abbrev env : Env
env = record {
  check_only = false;
  detect_equivalent_mutants = false;
  tests_for_mutant = TestsForMutant.workspace;
  baseline_fingerprint = none;
  coverage = none;
  scenario_output = λ events scenario. record { output_dir = []; log_path = []; diff_path = none };
  io_error = λ events e. none;
  torn_file = λ events. none;
  run_cargo = λ events phase packages limit. ok (record {
    phase = phase;
    duration = 1;
    process_status = elim phase [ test ↦ Exit.failure 101 | _ ↦ Exit.success ];
    argv = [];
  });
  written_by_cargo =
      λ events phase tree q. if path_eq lock_file q then some (codes "version = 4") else tree q;
  fingerprint_build_artifacts = λ events. none;
  debug_text = λ s. s;
}

abbrev limits : Timeouts
limits = record { build_limit = none; test_limit = some 20 }

-- A build directory with the file of the mutant
abbrev start : World
start = record {
  tree = λ q. if path_eq file.tree_relative_path q then some file.code else none;
  mutant_fingerprints = [];
  lab_outcome = new_lab;
  events = [];
}

abbrev outcome : ScenarioOutcome
outcome = record {
  output_dir = [];
  log_path = [];
  diff_path = none;
  scenario = mutated mutant;
  phase_results =
      record { phase = build; duration = 1; process_status = Exit.success; argv = [] }
      ∷ record { phase = test; duration = 1; process_status = Exit.failure 101; argv = [] }
      ∷ [];
  skip_reason = none;
}

abbrev no_diff : Text → Text → Text
no_diff old new = []

abbrev end : World
end = (run_one_scenario env no_diff (mutated mutant) all_packages limits start).1

run_test :
    run_one_scenario env no_diff (mutated mutant) all_packages limits start ≡ (ok outcome, end)
unfolding run_one_scenario ◌>>=◌ perform return apply fail overwrite_file revert start_scenario
    run_prepared expect after_phases compare_build equivalent_build equivalent_to find_build
    finish_scenario is_baseline_fingerprint new_outcome next_phase phase_limit phases record_build
    revert_if_mutant run_all_phases run_mutant run_phase run_phases skip_or uncovered_message diff
    diff_window renumber_hunk_header renumber_hunks shift_hunk_range split_inclusive split_once_at
    byte_range byte_offset offset_on_line new_index line_start scan_line newline_offsets offset_from
    replace_indexed normalized contains replace_crlf describe_change describe_parts full_name
    mutated_code replacement_with_marker add count_scenario count_summary add_phase_result
    set_skip_reason summary to_slash_path slice byte_len width join parse_usize show_usize
    split_once strip_prefix
run_test = refl

run_one_scenario-restores_example :
    (end.tree file.tree_relative_path ≡ some file.code)
    × (end.tree file.tree_relative_path ≡ start.tree file.tree_relative_path)
run_one_scenario-restores_example =
    run_one_scenario-restores env no_diff mutant all_packages limits start end outcome
      file.tree_relative_path (λ es phase tree. refl) refl run_test

run_one_scenario-Recorded_example :
    (end.lab_outcome ≡ add start.lab_outcome outcome) × (outcome.scenario ≡ mutated mutant)
run_one_scenario-Recorded_example =
    run_one_scenario-Recorded env no_diff (mutated mutant) all_packages limits outcome start end
      run_test

abbrev queue : List Mutant
queue = mutant ∷ mutant ∷ []

abbrev queue_end : World
queue_end = (run_queue env no_diff queue limits start).1

queue_test : run_queue env no_diff queue limits start ≡ (ok tt, queue_end)
unfolding run_queue packages_for run_one_scenario ◌>>=◌ perform return apply fail overwrite_file
    revert start_scenario run_prepared expect after_phases compare_build equivalent_build
    equivalent_to find_build finish_scenario is_baseline_fingerprint new_outcome next_phase
    phase_limit phases record_build revert_if_mutant run_all_phases run_mutant run_phase run_phases
    skip_or uncovered_message diff diff_window renumber_hunk_header renumber_hunks shift_hunk_range
    split_inclusive split_once_at byte_range byte_offset offset_on_line new_index line_start
    scan_line newline_offsets offset_from replace_indexed normalized contains replace_crlf
    describe_change describe_parts full_name mutated_code replacement_with_marker add count_scenario
    count_summary add_phase_result set_skip_reason summary to_slash_path slice byte_len width join
    parse_usize show_usize split_once strip_prefix
queue_test = refl

run_queue-records_example :
    (os : List ScenarioOutcome) × (map (λ (o : ScenarioOutcome). o.scenario) os ≡ map mutated queue)
    × (queue_end.lab_outcome ≡ record_all start.lab_outcome os)
run_queue-records_example = run_queue-records env no_diff queue limits tt start queue_end queue_test
