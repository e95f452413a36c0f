-- ===== src/Cargo/Examples.antt =====
-- Tests of the invocation of cargo, after those of src/cargo.rs, and witnesses.
use cargo_mutants.Prelude.Text.{Text, codes, text_eq, split, join}
use cargo_mutants.Prelude.{
  ℕ, ◌≡◌, refl, subst, Bool, true, false, none, some, List, [], ◌∷◌, ◌++◌, if◌then◌else◌,
}
use cargo_mutants.Outcome.{build}
use cargo_mutants.Lab.{explicit}
use cargo_mutants.Mutant.Samples.{crate}
use cargo_mutants.Source.{version_qualified_name}
use cargo_mutants.Options.{Vars}
use cargo_mutants.Options.Merge.{Options}
use cargo_mutants.Options.Filter.{test_tool}
use cargo_mutants.Options.Samples.{options}
use cargo_mutants.Cargo.{
  cargo_argv, cargo_bin, phase_args, profile_args, package_args, encoded_rustflags, extra_args,
  with_flags, instrumented_env,
}
use cargo_mutants.Cargo.Flags.{
  free, decode, Reads, instrumented_flags, value_of, coverage_flag, encoded_rustflags-decode,
  instrumented_env-decode,
}

-- The variables of a user with flags
abbrev vars : Vars
vars name = if text_eq name (codes "RUSTFLAGS") then some (codes "-Dwarnings  --cfg=x") else none

vars-free : (r : Text) → vars (codes "RUSTFLAGS") ≡ some r → free r ≡ true
vars-free r h = subst (λ o. elim o as (λ o. Bool) [ some t ↦ free t | none ↦ true ] ≡ true) h refl

build_argv : cargo_argv vars (explicit (crate ∷ [])) build options ≡ (
    codes "cargo"
    ∷ codes "nextest"
    ∷ codes "run"
    ∷ codes "--no-run"
    ∷ codes "--cargo-profile=dev"
    ∷ codes "--verbose"
    ∷ codes "--package=x@0.1.0"
    ∷ codes "--no-default-features"
    ∷ codes "--all-features"
    ∷ [])
unfolding cargo_argv cargo_bin phase_args profile_args package_args test_tool version_qualified_name
build_argv = refl

flags :
    encoded_rustflags vars options
    ≡ some (
        codes "-Dwarnings"
        ++ 31 ∷ codes "--cfg=x"
        ++ 31 ∷ codes "--cap-lints=warn"
        ++ 31 ∷ codes "-Cdebuginfo=0")
unfolding encoded_rustflags extra_args with_flags split join
flags = refl

encoded_rustflags-decode_example : Reads vars (extra_args options) (encoded_rustflags vars options)
encoded_rustflags-decode_example = encoded_rustflags-decode vars options vars-free

-- The same options without a flag for the compiler
abbrev plain_options : Options ℕ (List Text) (List Text)
plain_options = record options { cap_lints = false; detect_equivalent_mutants = false }

dropped_flags :
    decode (
      value_of
        (codes "CARGO_ENCODED_RUSTFLAGS")
        (instrumented_env (codes "t") (encoded_rustflags vars plain_options)))
    ≡ coverage_flag
unfolding encoded_rustflags extra_args instrumented_env split
dropped_flags = refl

instrumented_env-decode_example :
    decode (
      value_of
        (codes "CARGO_ENCODED_RUSTFLAGS")
        (instrumented_env (codes "t") (encoded_rustflags vars plain_options)))
    ≡ instrumented_flags vars (extra_args plain_options)
instrumented_env-decode_example = instrumented_env-decode vars plain_options (codes "t") vars-free
