-- ===== src/Timeouts.antt =====
-- Time limits from the baseline: src/timeouts.rs. Arithmetic on f64 and its conversions from and to
-- a Duration are parameters; a Duration is in nanoseconds.
pub mod Baseline
mod Examples
use mathlib.Core.Option
use cargo_mutants.Prelude.{ℕ, ◌*◌, max, Bool, Option, none, some, map, if◌then◌else◌}
use cargo_mutants.Prelude.Maybe.{◌>>=◌, unwrap_or}
use cargo_mutants.Process.{Duration}
use cargo_mutants.Outcome.{build, test, PhaseResult, ScenarioOutcome, phase_result}
use cargo_mutants.Lab.{Timeouts}

-- `Duration::from_secs`
abbrev pub from_secs : ℕ → Duration
from_secs n = n * 1000000000

abbrev pub fallback_timeout_secs : ℕ
fallback_timeout_secs = 300

-- What the code uses of `f64`, and its conversions. `Duration::from_secs_f64` panics on a negative
-- number, on one that is too large and on one that is not a number: `none`, here and below.
pub record Floats (F : Type 0) : Type 0 where
  pub as_secs_f64 : Duration → F
  pub from_secs_f64 : F → Option Duration
  pub times : F → F → F
  pub ceil : F → F
  pub five : F

-- The fields of `Options` that the limits depend on
pub record LimitOptions (F : Type 0) : Type 0 where
  pub test_timeout_option : Option Duration
  pub minimum_test_timeout : Duration
  pub test_timeout_multiplier : Option F
  pub build_timeout_option : Option Duration
  pub build_timeout_multiplier : Option F
  pub check_only : Bool

module _ {F : Type 0} (floats : Floats F) (options : LimitOptions F) where
  -- The limit that is scaled from the duration of the baseline
  unfoldable pub auto_test_timeout : Duration → Option Duration
  auto_test_timeout d = Option.map (max options.minimum_test_timeout) (
      floats.from_secs_f64 (
        floats.ceil (
          floats.times (floats.as_secs_f64 d)
            (unwrap_or floats.five options.test_timeout_multiplier))))

  unfoldable pub unset_test_timeout : Option Duration → Option Duration
  unset_test_timeout (some d) = auto_test_timeout d
  unset_test_timeout none =
      some (if options.check_only then from_secs 0 else from_secs fallback_timeout_secs)

  -- `test_timeout`
  unfoldable pub test_timeout : Option Duration → Option Duration
  test_timeout baseline_duration = elim options.test_timeout_option [
    | some explicit ↦ some explicit
    | none ↦ unset_test_timeout baseline_duration
  ]

  unfoldable pub scaled_build_timeout : Option Duration → Option F → Option (Option Duration)
  scaled_build_timeout (some d) (some multiplier) =
      Option.map some (floats.from_secs_f64 (floats.times (floats.as_secs_f64 d) multiplier))
  scaled_build_timeout _ _ = some none

  -- `build_timeout`, from the explicit limit and the multiplier
  unfoldable pub choose_build_timeout :
      Option Duration → Option F → Option Duration → Option (Option Duration)
  choose_build_timeout (some t) multiplier baseline_duration = some (some t)
  choose_build_timeout none multiplier baseline_duration =
      scaled_build_timeout baseline_duration multiplier

  unfoldable pub build_timeout : Option Duration → Option (Option Duration)
  build_timeout = choose_build_timeout options.build_timeout_option options.build_timeout_multiplier

  -- `Timeouts::for_baseline`
  unfoldable pub for_baseline : Timeouts
  for_baseline = record { build_limit = none; test_limit = options.test_timeout_option }

  abbrev pub duration_of : Option PhaseResult → Option Duration
  duration_of = Option.map (λ (pr : PhaseResult). pr.duration)

  -- The `Timeouts` of both limits
  abbrev pub limits : Option (Option Duration) → Option Duration → Option Timeouts
  limits build_limit test_limit = do
    b ← build_limit
    t ← test_limit
    some (record { build_limit = b; test_limit = some t })

  -- `Timeouts::from_baseline`
  unfoldable pub from_baseline : ScenarioOutcome → Option Timeouts
  from_baseline o =
      limits (build_timeout (duration_of (phase_result o build)))
        (test_timeout (duration_of (phase_result o test)))

  -- `Timeouts::without_baseline`
  unfoldable pub without_baseline : Option Timeouts
  without_baseline = limits (build_timeout none) (test_timeout none)
