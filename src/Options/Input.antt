-- ===== src/Options/Input.antt =====
-- What the user gives: `Args` of src/main.rs and `Config` of src/config.rs. `F` is `f64`; a path is its
-- text.
use cargo_mutants.Prelude.Text.{Text}
use cargo_mutants.Prelude.{ℕ, Bool, false, Option, none, List, []}
use cargo_mutants.Shard.{Shard}
use cargo_mutants.Options.{Colors, BaselineStrategy, AutoAnnotation, Common}

-- `SchemaType`
pub data SchemaType : Type 0 where
  config_schema : SchemaType

-- `Args`, with the types of a log level and of a shell
pub record Args (F Level Shell : Type 0) : Type 0 where
  pub cap_lints : Option Bool
  pub profile : Option Text
  pub config : Option Text
  pub no_config : Bool
  pub copy_target : Option Bool
  pub copy_vcs : Option Bool
  pub gitignore : Option Bool
  pub in_place : Bool
  pub no_copy_target : Bool
  pub leak_dirs : Bool
  pub level : Level
  pub mutate_file : Option Text
  pub baseline : BaselineStrategy
  pub build_timeout_multiplier : Option F
  pub build_timeout : Option F
  pub cargo_arg : List Text
  pub cargo_test_arg : List Text
  pub cargo_test_args : List Text
  pub detect_equivalent_mutants : Bool
  pub check : Bool
  pub jobs : Option ℕ
  pub jobserver : Bool
  pub jobserver_tasks : Option ℕ
  pub list : Bool
  pub list_files : Bool
  pub minimum_test_timeout : Option F
  pub no_shuffle : Bool
  pub shard : Option Shard
  pub shuffle : Bool
  pub timeout : Option F
  pub timeout_multiplier : Option F
  pub features : List Text
  pub no_default_features : Bool
  pub all_features : Bool
  pub examine_re : List Text
  pub exclude : List Text
  pub exclude_re : List Text
  pub file : List Text
  pub in_diff : Option Text
  pub iterate : Bool
  pub mutate_packages : List Text
  pub skip_calls : List Text
  pub skip_calls_defaults : Option Bool
  pub skip_uncovered : Bool
  pub workspace : Bool
  pub error : List Text
  pub dir : Option Text
  pub manifest_path : Option Text
  pub completions : Option Shell
  pub version : Bool
  pub all_logs : Bool
  pub annotations : AutoAnnotation
  pub caught : Bool
  pub colors : Colors
  pub json : Bool
  pub line_col : Bool
  pub no_times : Bool
  pub output : Option Text
  pub unviable : Bool
  pub test_package : List Text
  pub test_workspace : Option Bool
  pub emit_schema : Option SchemaType
  pub common : Common

-- `Config`
pub record Config (F : Type 0) : Type 0 where
  pub additional_cargo_args : List Text
  pub additional_cargo_test_args : List Text
  pub all_features : Option Bool
  pub build_timeout_multiplier : Option F
  pub cap_lints : Bool
  pub copy_vcs : Option Bool
  pub copy_target : Option Bool
  pub detect_equivalent_mutants : Option Bool
  pub error_values : List Text
  pub examine_globs : List Text
  pub examine_re : List Text
  pub exclude_globs : List Text
  pub exclude_re : List Text
  pub gitignore : Option Bool
  pub features : List Text
  pub minimum_test_timeout : Option F
  pub no_default_features : Option Bool
  pub output : Option Text
  pub profile : Option Text
  pub skip_calls : List Text
  pub skip_calls_defaults : Option Bool
  pub skip_uncovered : Option Bool
  pub test_package : List Text
  pub test_workspace : Option Bool
  pub timeout_multiplier : Option F
  pub common : Common

-- `Common::default` and `Config::default`
abbrev pub default_common : Common
default_common = record { emit_diffs = none; test_tool = none; sharding = none }

unfoldable pub default_config : {F : Type 0} → Config F
default_config = record {
  additional_cargo_args = [];
  additional_cargo_test_args = [];
  all_features = none;
  build_timeout_multiplier = none;
  cap_lints = false;
  copy_vcs = none;
  copy_target = none;
  detect_equivalent_mutants = none;
  error_values = [];
  examine_globs = [];
  examine_re = [];
  exclude_globs = [];
  exclude_re = [];
  gitignore = none;
  features = [];
  minimum_test_timeout = none;
  no_default_features = none;
  output = none;
  profile = none;
  skip_calls = [];
  skip_calls_defaults = none;
  skip_uncovered = none;
  test_package = [];
  test_workspace = none;
  timeout_multiplier = none;
  common = default_common;
}
