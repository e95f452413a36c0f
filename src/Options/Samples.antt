-- ===== src/Options/Samples.antt =====
-- Options for the tests of several modules.
use cargo_mutants.Prelude.Text.{Text, codes}
use cargo_mutants.Prelude.{ℕ, true, false, none, some, List, [], ◌∷◌, ok}
use cargo_mutants.Shard.{round_robin}
use cargo_mutants.Options.Input.{Args}
use cargo_mutants.Options.Globs.{GlobLib}
use cargo_mutants.Options.{auto_annotation, Vars, auto, nextest, run, without, packages_named}
use cargo_mutants.Options.Merge.{Options, Libs}

-- Options with nextest, a profile and flags for the compiler
abbrev pub options : Options ℕ (List Text) (List Text)
options = record {
  annotations = without;
  baseline = run;
  cap_lints = true;
  check_only = false;
  copy_vcs = true;
  gitignore = false;
  copy_target = false;
  detect_equivalent_mutants = true;
  in_place = false;
  jobserver = false;
  jobserver_tasks = none;
  leak_dirs = false;
  test_timeout = none;
  test_timeout_multiplier = some 3;
  test_package = packages_named (codes "a" ∷ codes "b" ∷ []);
  build_timeout = none;
  build_timeout_multiplier = some 2;
  minimum_test_timeout = 30;
  print_caught = false;
  print_unviable = false;
  show_times = true;
  show_all_logs = false;
  show_line_col = false;
  shuffle = false;
  skip_calls = [];
  skip_uncovered = true;
  profile = some (codes "dev");
  additional_cargo_args = [];
  additional_cargo_test_args = [];
  features = [];
  no_default_features = true;
  all_features = true;
  examine_globset = some (codes "**/lib.rs" ∷ codes "**/lib.rs/**" ∷ []);
  exclude_globset = some (codes "**/test.rs" ∷ codes "**/test.rs/**" ∷ []);
  examine_name_re = [];
  exclude_name_re = codes "never" ∷ [];
  output_in_dir = some (codes "out");
  jobs = none;
  error_values = [];
  colors = auto;
  emit_json = false;
  common = record { emit_diffs = some true; test_tool = some nextest; sharding = some round_robin };
}

-- A command line that sets all that it shares with the configuration
abbrev pub arguments : Args ℕ (Unit {0}) (Unit {0})
arguments = record {
  cap_lints = some true;
  profile = some (codes "dev");
  config = none;
  no_config = false;
  copy_target = some false;
  copy_vcs = some true;
  gitignore = some false;
  in_place = false;
  no_copy_target = false;
  leak_dirs = false;
  level = tt;
  mutate_file = none;
  baseline = run;
  build_timeout_multiplier = some 2;
  build_timeout = none;
  cargo_arg = [];
  cargo_test_arg = [];
  cargo_test_args = [];
  detect_equivalent_mutants = true;
  check = false;
  jobs = none;
  jobserver = false;
  jobserver_tasks = none;
  list = false;
  list_files = false;
  minimum_test_timeout = some 30;
  no_shuffle = false;
  shard = none;
  shuffle = false;
  timeout = none;
  timeout_multiplier = some 3;
  features = [];
  no_default_features = true;
  all_features = true;
  examine_re = [];
  exclude = codes "test.rs" ∷ [];
  exclude_re = codes "never" ∷ [];
  file = codes "lib.rs" ∷ [];
  in_diff = none;
  iterate = false;
  mutate_packages = [];
  skip_calls = [];
  skip_calls_defaults = some false;
  skip_uncovered = true;
  workspace = false;
  error = [];
  dir = none;
  manifest_path = none;
  completions = none;
  version = false;
  all_logs = false;
  annotations = auto_annotation;
  caught = false;
  colors = auto;
  json = false;
  line_col = false;
  no_times = false;
  output = some (codes "out");
  unviable = false;
  test_package = codes "a,b" ∷ [];
  test_workspace = none;
  emit_schema = none;
  common = record { emit_diffs = some true; test_tool = some nextest; sharding = some round_robin };
}

-- Globs and regular expressions that match themselves only
abbrev pub globs : GlobLib Text Text (List Text)
globs = record { build_glob = λ t. ok t; build_set = λ ts. ok ts }

abbrev pub libs : Libs ℕ Text (List Text) Text (List Text)
libs = record { from_secs_f64 = λ n. some n; twenty = 20; regex_set = λ ts. ok ts; globs = globs }

abbrev pub no_vars : Vars
no_vars name = none
