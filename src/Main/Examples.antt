-- ===== src/Main/Examples.antt =====
-- A run that lists mutants, one that tests them, and a witness.
use cargo_mutants.Prelude.Text.{Text, codes}
use cargo_mutants.Prelude.{ℕ, ◌≡◌, refl, true, false, none, List, [], ◌∷◌, ok, err}
use cargo_mutants.Mutant.Samples.{file, mutant}
use cargo_mutants.Outcome.{ExitCode}
use cargo_mutants.Outcome.Totals.{new_lab}
use cargo_mutants.Options.Input.{Args, default_config}
use cargo_mutants.Options.Merge.{new, choose_test_package, choose_skip_calls, split_commas}
use cargo_mutants.Options.{merge, resolve}
use cargo_mutants.Options.Globs.{add_globs}
use cargo_mutants.Options.Samples.{arguments, libs, no_vars}
use cargo_mutants.Main.{
  Parts, listed_mutants, main, run_args, run_workspace, run_in, read_workspace_config, options_of,
  package_filter, iterated, filter_by_diff, list_or_test,
}
use cargo_mutants.Main.Listing.{OkThen, Fits, main-Fits}

-- A workspace with one mutant, which is caught
abbrev parts : Parts ℕ Text (List Text) (List Text) (Unit {0})
unfolding default_config
parts = record {
  is_file = λ path. false;
  parent = λ path. none;
  read_text = λ path. err path;
  open_workspace = λ dir. ok tt;
  root = λ w. codes ".";
  read_config = λ path. ok default_config;
  read_tree_config = λ path. ok default_config;
  error_text = λ e. codes "no options";
  emit_schema = ok tt;
  mutate_file = λ path o. ok tt;
  discover = λ w filter o. ok (record { mutants = mutant ∷ []; files = file ∷ [] });
  diff_filter_file = λ ms path. ok ms;
  write_mutants = λ ms o. ok tt;
  new_output = λ dir caught. ok tt;
  test_mutants = λ ms w o. ok new_lab;
}

abbrev listing : Args ℕ (Unit {0}) (Unit {0})
listing = record arguments { list = true }

listed :
    main no_vars false libs parts (ok listing) ≡ ok (ExitCode.success, listed_mutants (mutant ∷ []))
unfolding parts main run_args run_workspace run_in read_workspace_config options_of package_filter
    iterated filter_by_diff list_or_test new choose_test_package choose_skip_calls split_commas
    merge resolve add_globs
listed = refl

main-Fits_example : OkThen (Fits true false) (main no_vars false libs parts (ok listing))
main-Fits_example = main-Fits no_vars false libs parts listing
