-- ===== src/Cargo/Argv.antt =====
-- Which invocations of cargo run tests.
use cargo_mutants.Prelude.Text.{Text, codes}
use cargo_mutants.Prelude.{◌≡◌, refl, ◌≢◌, ◌⊎◌, inl, inr, List, [], ◌∷◌, ◌++◌, Any}
use cargo_mutants.Outcome.{Phase, check, build, test}
use cargo_mutants.Lab.{PackageSelection}
use cargo_mutants.Options.{Vars, cargo, nextest}
use cargo_mutants.Options.Merge.{Options}
use cargo_mutants.Options.Filter.{test_tool}
use cargo_mutants.Cargo.{cargo_argv, phase_args}

-- An argument that keeps cargo from running tests
abbrev pub NoTests : List Text → Type 0
NoTests argv = Any (λ a. (a ≡ codes "--no-run") ⊎ (a ≡ codes "check")) argv

NoTests-append : (xs ys : List Text) → NoTests xs → NoTests (xs ++ ys)
NoTests-append [] ys h = elim h [ ]
NoTests-append (x ∷ xs) ys (inl e) = inl e
NoTests-append (x ∷ xs) ys (inr h) = inr (NoTests-append xs ys h)

module _ {F R S : Type 0} where
  phase_args-NoTests :
      (phase : Phase) (o : Options F R S) → phase ≢ test → NoTests (phase_args phase o)
  unfolding phase_args
  phase_args-NoTests test o h = absurd (h refl)
  phase_args-NoTests check o h = inl (inr refl)
  phase_args-NoTests build o h =
      elim (test_tool o)
        as (λ t. NoTests (elim t [
          | cargo ↦ codes "test" ∷ codes "--no-run" ∷ []
          | nextest ↦ codes "nextest" ∷ codes "run" ∷ codes "--no-run" ∷ []
        ])) [ cargo ↦ inr (inl (inl refl)) | nextest ↦ inr (inr (inl (inl refl))) ]

  -- Whatever the options, cargo is invoked without `--no-run` or `check` only for the phase that runs
  -- the tests.
  pub cargo_argv-NoTests :
      (vars : Vars) (packages : PackageSelection) (phase : Phase) (o : Options F R S)
      → phase ≢ test
      → NoTests (cargo_argv vars packages phase o)
  unfolding cargo_argv
  cargo_argv-NoTests vars packages phase o h =
      inr (NoTests-append (phase_args phase o) _ (phase_args-NoTests phase o h))
