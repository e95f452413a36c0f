-- ===== src/Timeouts/Baseline.antt =====
-- The limit for the tests of mutants, given how long those of the baseline took.
use mathlib.Core.Option
use cargo_mutants.Prelude.{◌≤◌, max, ◌≡◌, Option, none, some, arith}
use cargo_mutants.Process.{Duration}
use cargo_mutants.Timeouts.{Floats, LimitOptions, auto_test_timeout}

max-some :
    (minimum t : Duration) (scaled : Option Duration)
    → Option.map (max minimum) scaled ≡ some t
    → minimum ≤ t
max-some minimum t none e = cc
max-some minimum t (some s) e = let same : max minimum s ≡ t = cc in omega arith

module _ {F : Type 0} (floats : Floats F) (options : LimitOptions F) where
  -- A limit that is scaled is at least the minimum.
  pub auto_test_timeout-ge :
      (d t : Duration)
      → auto_test_timeout floats options d ≡ some t
      → options.minimum_test_timeout ≤ t
  unfolding auto_test_timeout
  auto_test_timeout-ge d t e = max-some options.minimum_test_timeout t _ e
