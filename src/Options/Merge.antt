-- ===== src/Options/Merge.antt =====
-- `Options` and `Options::new` of src/options.rs.
use cargo_mutants.Prelude.Text.{Text, codes, split}
use cargo_mutants.Prelude.{
  ℕ, Bool, true, false, not, ◌&&◌, ◌||◌, Option, none, some, List, [], ◌∷◌, ◌++◌, if◌then◌else◌,
  Result, ok, err, ok_or, ◌>>=◌,
}
use cargo_mutants.Prelude.Maybe.{unwrap_or}
use cargo_mutants.Process.{Duration}
use cargo_mutants.Options.{
  Colors, TestPackages, mutated, workspace, packages_named, BaselineStrategy, ResolvedAnnotation,
  Common, or_else, merge, Vars, resolve,
}
use cargo_mutants.Options.Input.{Args, Config}
use cargo_mutants.Options.Globs.{GlobLib, build_glob_set}

-- `Options`, where `F` is `f64`, and `R` and `S` are a `RegexSet` and a `GlobSet`
pub record Options (F R S : Type 0) : Type 0 where
  pub annotations : ResolvedAnnotation
  pub baseline : BaselineStrategy
  pub cap_lints : Bool
  pub check_only : Bool
  pub copy_vcs : Bool
  pub gitignore : Bool
  pub copy_target : Bool
  pub detect_equivalent_mutants : Bool
  pub in_place : Bool
  pub jobserver : Bool
  pub jobserver_tasks : Option ℕ
  pub leak_dirs : Bool
  pub test_timeout : Option Duration
  pub test_timeout_multiplier : Option F
  pub test_package : TestPackages
  pub build_timeout : Option Duration
  pub build_timeout_multiplier : Option F
  pub minimum_test_timeout : Duration
  pub print_caught : Bool
  pub print_unviable : Bool
  pub show_times : Bool
  pub show_all_logs : Bool
  pub show_line_col : Bool
  pub shuffle : Bool
  pub skip_calls : List Text
  pub skip_uncovered : Bool
  pub profile : Option Text
  pub additional_cargo_args : List Text
  pub additional_cargo_test_args : List Text
  pub features : List Text
  pub no_default_features : Bool
  pub all_features : Bool
  pub examine_globset : Option S
  pub exclude_globset : Option S
  pub examine_name_re : R
  pub exclude_name_re : R
  pub output_in_dir : Option Text
  pub jobs : Option ℕ
  pub error_values : List Text
  pub colors : Colors
  pub emit_json : Bool
  pub common : Common

-- Why there are no options: `Duration::from_secs_f64` panics, or a regular expression or a glob is
-- not one
pub data OptionsError (E : Type 0) : Type 0 where
  panic : OptionsError E
  examine_re_error exclude_re_error examine_glob_error exclude_glob_error : E → OptionsError E

-- What is used of the libraries; `from_secs_f64` gives nothing where it panics
pub record Libs (F E R G S : Type 0) : Type 0 where
  pub from_secs_f64 : F → Option Duration
  pub twenty : F
  pub regex_set : List Text → Result E R
  pub globs : GlobLib E G S

-- An error with its context
abbrev pub in_context : {E A B : Type 0} → (E → B) → Result E A → Result B A
in_context f (ok a) = ok a
in_context f (err e) = err (f e)

-- `flat_map(|s| s.split(','))`
unfoldable pub split_commas : List Text → List Text
unfolding split
split_commas [] = []
split_commas (s ∷ ss) = split b',' s ++ split_commas ss

-- `join_slices`
abbrev pub join_slices : List Text → List Text → List Text
join_slices left right = left ++ right

abbrev pub is_true : Option Bool → Bool
is_true (some true) = true
is_true (some false) = false
is_true none = false

abbrev pub is_none : {A : Type 0} → Option A → Bool
is_none none = true
is_none (some a) = false

abbrev pub is_empty : List Text → Bool
is_empty [] = true
is_empty (s ∷ ss) = false

module _ {F E R G S : Type 0} (lib : Libs F E R G S) where
  -- `map(Duration::from_secs_f64)`
  abbrev pub optional_secs : Option F → Result (OptionsError E) (Option Duration)
  optional_secs none = ok none
  optional_secs (some secs) = do d ← ok_or (lib.from_secs_f64 secs) panic; ok (some d)

module _ {F Level Shell : Type 0} where
  -- The packages to test
  unfoldable pub choose_test_package : Args F Level Shell → Config F → TestPackages
  unfolding split_commas
  choose_test_package args config =
      if is_true args.test_workspace
      then workspace
      else if not (is_empty args.test_package)
      then packages_named (split_commas args.test_package)
      else if is_none args.test_workspace && is_true config.test_workspace
      then workspace
      else if not (is_empty config.test_package)
      then packages_named config.test_package
      else mutated

  -- The calls to skip
  unfoldable pub choose_skip_calls : Args F Level Shell → Config F → List Text
  unfolding split_commas
  choose_skip_calls args config =
      (split_commas args.skip_calls ++ config.skip_calls)
      ++ (if unwrap_or true (or_else args.skip_calls_defaults config.skip_calls_defaults)
          then codes "with_capacity" ∷ []
          else [])

  module _ {E R G S : Type 0} (vars : Vars) (windows : Bool) (lib : Libs F E R G S) where
    -- `Options::new`, without its warnings
    unfoldable pub new : Args F Level Shell → Config F → Result (OptionsError E) (Options F R S)
    unfolding choose_test_package choose_skip_calls merge resolve build_glob_set
    new args config = do
      minimum ←
          ok_or
            (lib.from_secs_f64 (
              unwrap_or lib.twenty (or_else args.minimum_test_timeout config.minimum_test_timeout)))
            panic
      build_limit ← optional_secs lib args.build_timeout
      examine_res ←
          in_context examine_re_error (lib.regex_set (args.examine_re ++ config.examine_re))
      exclude_res ←
          in_context exclude_re_error (lib.regex_set (args.exclude_re ++ config.exclude_re))
      examine_set ←
          in_context examine_glob_error
            (build_glob_set windows lib.globs (args.file ++ config.examine_globs))
      exclude_set ←
          in_context exclude_glob_error
            (build_glob_set windows lib.globs (args.exclude ++ config.exclude_globs))
      test_limit ← optional_secs lib args.timeout
      ok (record {
        additional_cargo_args = join_slices args.cargo_arg config.additional_cargo_args;
        additional_cargo_test_args =
            args.cargo_test_arg ++ (args.cargo_test_args ++ config.additional_cargo_test_args);
        all_features = args.all_features || unwrap_or false config.all_features;
        annotations = resolve vars args.annotations;
        baseline = args.baseline;
        build_timeout = build_limit;
        build_timeout_multiplier =
            or_else args.build_timeout_multiplier config.build_timeout_multiplier;
        cap_lints = unwrap_or config.cap_lints args.cap_lints;
        check_only = args.check;
        colors = args.colors;
        detect_equivalent_mutants =
            args.detect_equivalent_mutants || unwrap_or false config.detect_equivalent_mutants;
        copy_vcs = unwrap_or false (or_else args.copy_vcs config.copy_vcs);
        emit_json = args.json;
        common = merge args.common config.common;
        error_values = join_slices args.error config.error_values;
        examine_name_re = examine_res;
        exclude_name_re = exclude_res;
        examine_globset = examine_set;
        exclude_globset = exclude_set;
        features = join_slices args.features config.features;
        gitignore = unwrap_or (unwrap_or false config.gitignore) args.gitignore;
        copy_target =
            not args.no_copy_target
            && unwrap_or false (or_else args.copy_target config.copy_target);
        in_place = args.in_place;
        jobs = args.jobs;
        jobserver = args.jobserver;
        jobserver_tasks = args.jobserver_tasks;
        leak_dirs = args.leak_dirs;
        minimum_test_timeout = minimum;
        no_default_features =
            args.no_default_features || unwrap_or false config.no_default_features;
        output_in_dir = or_else args.output config.output;
        print_caught = args.caught;
        print_unviable = args.unviable;
        profile = or_else args.profile config.profile;
        shuffle = args.shuffle;
        show_line_col = args.line_col;
        show_times = not args.no_times;
        show_all_logs = args.all_logs;
        skip_calls = choose_skip_calls args config;
        skip_uncovered = args.skip_uncovered || unwrap_or false config.skip_uncovered;
        test_package = choose_test_package args config;
        test_timeout = test_limit;
        test_timeout_multiplier = or_else args.timeout_multiplier config.timeout_multiplier;
      })
