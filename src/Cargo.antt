-- ===== src/Cargo.antt =====
-- The command line and the environment of cargo: src/cargo.rs, and `instrumented_env` of
-- src/coverage.rs.
pub mod Flags
pub mod Argv
mod Examples
use cargo_mutants.Prelude.Text.{Text, codes, split, join}
use cargo_mutants.Prelude.{Bool, ◌||◌, Option, none, some, List, [], ◌∷◌, ◌++◌, map, if◌then◌else◌}
use cargo_mutants.Prelude.Maybe.{unwrap_or}
use cargo_mutants.Source.{version_qualified_name}
use cargo_mutants.Outcome.{Phase, check, build, test, phase_eq}
use cargo_mutants.Lab.{PackageSelection, all_packages, explicit}
use cargo_mutants.Options.{Vars, cargo, nextest}
use cargo_mutants.Options.Merge.{Options}
use cargo_mutants.Options.Filter.{test_tool}

-- `cargo_bin`
unfoldable pub cargo_bin : Vars → Text
cargo_bin vars = unwrap_or (codes "cargo") (vars (codes "CARGO"))

unfoldable pub package_args : PackageSelection → List Text
unfolding version_qualified_name
package_args all_packages = codes "--workspace" ∷ []
package_args (explicit packages) =
    map (λ p. codes "--package=" ++ version_qualified_name p) packages

abbrev pub flag_if : Bool → Text → List Text
flag_if b flag = if b then flag ∷ [] else []

abbrev pub separator : Text
separator = 31 ∷ []

abbrev pub non_empty : List Text → List Text
non_empty [] = []
non_empty ([] ∷ ss) = non_empty ss
non_empty ((c ∷ s) ∷ ss) = (c ∷ s) ∷ non_empty ss

-- The flags after those of the variables; a variable that is empty counts for none
unfoldable pub with_flags : Vars → List Text → Text
unfolding split join
with_flags vars extra = elim (vars (codes "CARGO_ENCODED_RUSTFLAGS")) [
  | some encoded ↦ elim encoded [
    | [] ↦ join separator extra
    | c ∷ s ↦ join separator ((c ∷ s) ∷ extra)
  ]
  | none ↦ elim (vars (codes "RUSTFLAGS")) [
    | some rustflags ↦ elim rustflags [
      | [] ↦ join separator extra
      | c ∷ s ↦ join separator (non_empty (split b' ' (c ∷ s)) ++ extra)
    ]
    | none ↦ join separator extra
  ]
]

module _ {F R S : Type 0} where
  -- The subcommand of a phase, with its flags
  unfoldable pub phase_args : Phase → Options F R S → List Text
  unfolding test_tool
  phase_args test o = elim (test_tool o) [
    | cargo ↦
        codes "test"
        ∷ (if o.detect_equivalent_mutants || o.skip_uncovered
            then codes "--lib" ∷ codes "--bins" ∷ codes "--tests" ∷ []
            else [])
    | nextest ↦ codes "nextest" ∷ codes "run" ∷ []
  ]
  phase_args build o = elim (test_tool o) [
    | cargo ↦ codes "test" ∷ codes "--no-run" ∷ []
    | nextest ↦ codes "nextest" ∷ codes "run" ∷ codes "--no-run" ∷ []
  ]
  phase_args check o = codes "check" ∷ codes "--tests" ∷ []

  unfoldable pub profile_args : Options F R S → List Text
  unfolding test_tool
  profile_args o = elim o.profile [
    | none ↦ []
    | some profile ↦ elim (test_tool o) [
      | cargo ↦ (codes "--profile=" ++ profile) ∷ []
      | nextest ↦ (codes "--cargo-profile=" ++ profile) ∷ []
    ]
  ]

  -- `cargo_argv`
  unfoldable pub cargo_argv : Vars → PackageSelection → Phase → Options F R S → List Text
  unfolding cargo_bin phase_args profile_args package_args
  cargo_argv vars packages phase o =
      cargo_bin vars
      ∷ (phase_args phase o
          ++ (profile_args o
              ++ (codes "--verbose"
                  ∷ (package_args packages
                      ++ (flag_if o.no_default_features (codes "--no-default-features")
                          ++ (flag_if o.all_features (codes "--all-features")
                              ++ (map (λ f. codes "--features=" ++ f) o.features
                                  ++ (o.additional_cargo_args
                                      ++ (if phase_eq phase test
                                          then o.additional_cargo_test_args
                                          else [])))))))))

  -- The flags that the options ask for
  unfoldable pub extra_args : Options F R S → List Text
  extra_args o =
      flag_if o.cap_lints (codes "--cap-lints=warn")
      ++ flag_if o.detect_equivalent_mutants (codes "-Cdebuginfo=0")

  -- `encoded_rustflags`
  unfoldable pub encoded_rustflags : Vars → Options F R S → Option Text
  unfolding extra_args with_flags
  encoded_rustflags vars o = elim (extra_args o) [
    | [] ↦ none
    | flag ∷ flags ↦ some (with_flags vars (flag ∷ flags))
  ]

  -- The environment that `run_cargo` gives the child
  unfoldable pub cargo_env : Vars → Options F R S → List (Text × Text) → List (Text × Text)
  unfolding encoded_rustflags
  cargo_env vars o extra_env =
      (codes "INSTA_UPDATE", codes "no")
      ∷ (codes "INSTA_FORCE_PASS", codes "0")
      ∷ (elim (encoded_rustflags vars o) [
        | some flags ↦ (codes "CARGO_ENCODED_RUSTFLAGS", flags) ∷ []
        | none ↦ []
      ]
          ++ extra_env)

-- `instrumented_env`, where the directory can be created
unfoldable pub instrumented_env : Text → Option Text → List (Text × Text)
instrumented_env profraw_dir encoded =
    (codes "LLVM_PROFILE_FILE", profraw_dir ++ codes "/%p-%m.profraw")
    ∷ (
      codes "CARGO_ENCODED_RUSTFLAGS",
      separated (unwrap_or [] encoded) ++ codes "-Cinstrument-coverage",
    )
    ∷ []
  where
    separated : Text → Text
    separated [] = []
    separated (c ∷ s) = (c ∷ s) ++ (31 ∷ [])
