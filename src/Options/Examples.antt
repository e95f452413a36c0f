-- ===== src/Options/Examples.antt =====
-- Tests of the options, and witnesses.
use cargo_mutants.Prelude.Text.{Text, codes, text_eq}
use cargo_mutants.Prelude.{
  ℕ, ◌≡◌, refl, sym, ap, Bool, true, false, not, ◌&&◌, ◌||◌, false≢true, some, List, [], ◌∷◌, ok,
  ok_injective,
}
use cargo_mutants.Options.{merge, resolve, packages_named}
use cargo_mutants.Options.Input.{Config, default_config}
use cargo_mutants.Options.Globs.{adjusted, build_glob_set}
use cargo_mutants.Options.Merge.{new, choose_test_package, choose_skip_calls, split_commas}
use cargo_mutants.Options.Precedence.{new-same}
use cargo_mutants.Options.Filter.{Matchers, allows_source_file_path}
use cargo_mutants.Options.Samples.{options, arguments, globs, libs, no_vars}
use cargo_mutants.Options.Filter.Paths.{
  IsFaithful, any_of, any_glob, no_globs, new-allows_source_file_path,
}

abbrev config_of_profile : Text → Config ℕ
unfolding default_config
config_of_profile name = record default_config {
  profile = some name;
  copy_vcs = some false;
  test_package = name ∷ [];
}

abbrev any_text : List Text → Text → Bool
any_text [] t = false
any_text (s ∷ ss) t = text_eq s t || any_text ss t

abbrev is_nil : List Text → Bool
is_nil [] = true
is_nil (t ∷ ts) = false

abbrev matchers : Matchers (List Text) (List Text)
matchers = record { re_is_empty = is_nil; re_is_match = any_text; globs_match = any_text }

named_packages :
    choose_test_package arguments (config_of_profile (codes "x"))
    ≡ packages_named (codes "a" ∷ codes "b" ∷ [])
unfolding choose_test_package config_of_profile
named_packages = refl

new-same_example :
    new no_vars false libs arguments (config_of_profile (codes "one"))
    ≡ new no_vars false libs arguments (config_of_profile (codes "two"))
unfolding config_of_profile
new-same_example =
    new-same no_vars false libs arguments (config_of_profile (codes "one"))
      (config_of_profile (codes "two"))
      (record {
        minimum_test_timeout = refl;
        test_package = refl;
        skip_calls_defaults = refl;
        all_features = refl;
        build_timeout_multiplier = refl;
        cap_lints = refl;
        detect_equivalent_mutants = refl;
        copy_vcs = refl;
        test_tool = refl;
        sharding = refl;
        emit_diffs = refl;
        gitignore = refl;
        copy_target = refl;
        no_default_features = refl;
        output = refl;
        profile = refl;
        skip_uncovered = refl;
        timeout_multiplier = refl;
      })
      (record {
        additional_cargo_args = refl;
        additional_cargo_test_args = refl;
        error_values = refl;
        examine_globs = refl;
        examine_re = refl;
        exclude_globs = refl;
        exclude_re = refl;
        features = refl;
        skip_calls = refl;
      })

new_options : new no_vars false libs arguments default_config ≡ ok options
unfolding new default_config choose_test_package choose_skip_calls split_commas merge resolve
    build_glob_set adjusted
new_options = refl

-- A name that the sets of globs match
abbrev matches : Text → Text → Bool
matches glob path = text_eq glob path

globs_IsFaithful : IsFaithful globs any_text matches
globs_IsFaithful = record {
  glob_match = matches;
  of_glob = λ glob g path h. ap (λ t. matches t path) (ok_injective g glob (sym h));
  of_set = λ gs s path h. rw (sym (ok_injective gs s h)) (any_text_any gs path);
}
  where
    any_text_any :
        (gs : List Text) (path : Text) → any_text gs path ≡ any_of (λ g. matches g path) gs
    any_text_any [] path = refl
    any_text_any (g ∷ gs) path = ap (λ b. matches g path || b) (any_text_any gs path)

new-allows_source_file_path_example :
    allows_source_file_path matchers options (codes "**/lib.rs") ≡ (
      (no_globs (codes "lib.rs" ∷ [])
        || any_glob false matches (codes "lib.rs" ∷ []) (codes "**/lib.rs"))
      && not (any_glob false matches (codes "test.rs" ∷ []) (codes "**/lib.rs")))
unfolding default_config
new-allows_source_file_path_example =
    new-allows_source_file_path no_vars false libs matchers matches globs_IsFaithful arguments
      default_config options new_options (codes "**/lib.rs")

empty_matches_nothing : (r : List Text) (name : Text) → is_nil r ≡ true → any_text r name ≡ false
empty_matches_nothing [] name h = refl
empty_matches_nothing (t ∷ ts) name h = absurd (false≢true h)
