-- ===== src/Main/Listing.antt =====
-- The exit code of each action.
use cargo_mutants.Prelude.Text.{Text, codes}
use cargo_mutants.Prelude.{
  ◌≡◌, refl, subst, sym, inl, inr, Bool, true, false, Option, none, some, List, if◌then◌else◌,
  Bool-cases, Result, ok, err, ok_or, ◌>>=◌, ◌>>◌,
}
use cargo_mutants.Mutant.{Mutant}
use cargo_mutants.Outcome.{ExitCode, usage}
use cargo_mutants.Outcome.Totals.{exit_code}
use cargo_mutants.InDiff.{DiffFilterError, error_exit_code}
use cargo_mutants.Options.{Vars}
use cargo_mutants.Options.Input.{Args, SchemaType, default_config}
use cargo_mutants.Prelude.Maybe.{unwrap_or}
use cargo_mutants.Options.Merge.{Options, Libs}
use cargo_mutants.Main.{
  Discovered, Action, said_usage, showed_version, wrote_completions, wrote_schema, bad_manifest,
  mutated_file, listed_files, diff_refused, listed_mutants, tested_mutants, Parts, run_mutate_file,
  read_workspace_config, options_of, iterated, list_or_test, filter_by_diff, run_in, run_workspace,
  run_args, main,
}

-- Where a result is a value, the value is as stated
abbrev pub OkThen : {A : Type 0} → (A → Type 0) → Result Text A → Type 0
OkThen P (ok a) = P a
OkThen P (err e) = Unit

bind-OkThen :
    {A B : Type 0} (P : B → Type 0) (m : Result Text A) (f : A → Result Text B)
    → ((a : A) → OkThen P (f a))
    → OkThen P (m >>= f)
bind-OkThen P (ok a) f h = h a
bind-OkThen P (err e) f h = tt

-- Whether an exit code fits what was done, with and without `--list` and `--list-files`
abbrev pub Fits : Bool → Bool → ExitCode × Action → Type 0
Fits list list_files (code, said_usage) = Unit
Fits list list_files (code, showed_version) = code ≡ ExitCode.success
Fits list list_files (code, wrote_completions) = code ≡ ExitCode.success
Fits list list_files (code, wrote_schema) = code ≡ ExitCode.success
Fits list list_files (code, bad_manifest) = code ≡ usage
Fits list list_files (code, mutated_file path) = code ≡ ExitCode.success
Fits list list_files (code, listed_files files) = (list_files ≡ true) × (code ≡ ExitCode.success)
Fits list list_files (code, diff_refused e) = (list_files ≡ false) × (code ≡ error_exit_code e)
Fits list list_files (code, listed_mutants ms) =
    (list_files ≡ false) × ((list ≡ true) × (code ≡ ExitCode.success))
Fits list list_files (code, tested_mutants ms o) =
    (list_files ≡ false) × ((list ≡ false) × (code ≡ exit_code o))

module _ {F Level Shell E R G S W : Type 0} (vars : Vars) (windows : Bool) (lib : Libs F E R G S)
    (parts : Parts F E R S W) (args : Args F Level Shell) where
  abbrev Fitting : Result Text (ExitCode × Action) → Type 0
  Fitting r = OkThen (Fits args.list args.list_files) r

  list_or_test-Fits :
      (w : W) (o : Options F R S) (dir : Text) (caught : Option (List Text)) (ms : List Mutant)
      → args.list_files ≡ false
      → Fitting (list_or_test vars windows lib parts args w o dir caught ms)
  unfolding list_or_test
  list_or_test-Fits w o dir caught ms n = elim (Bool-cases args.list) [
    | inl e ↦ rw e (
        bind-OkThen (Fits true args.list_files) (parts.write_mutants _ o) _
          (λ u. (n, (refl, refl))))
    | inr e ↦ rw e (
        bind-OkThen (Fits false args.list_files) (parts.new_output dir caught) _ (λ u.
          bind-OkThen (Fits false args.list_files) (parts.test_mutants _ w o) _
            (λ outcome. (n, (refl, refl)))))
  ]

  filter_by_diff-Fits :
      (w : W) (o : Options F R S) (dir : Text) (caught : Option (List Text)) (found : Discovered)
      → Fitting (filter_by_diff vars windows lib parts args w o dir caught found)
  unfolding filter_by_diff
  filter_by_diff-Fits w o dir caught found = elim (Bool-cases args.list_files) [
    | inl e ↦ rw (e, filter_by_diff) (refl, refl)
    | inr e ↦
        subst
          (λ b.
            OkThen (Fits args.list args.list_files)
              (if b then ok (ExitCode.success, listed_files found.files) else by_diff args.in_diff))
          (sym e) (by_diff-Fits args.in_diff e)
  ]
    where
      filtered : Result DiffFilterError (List Mutant) → Result Text (ExitCode × Action)
      filtered r = elim r [
        | ok mutants ↦ list_or_test vars windows lib parts args w o dir caught mutants
        | err e ↦ ok (error_exit_code e, diff_refused e)
      ]

      by_diff : Option Text → Result Text (ExitCode × Action)
      by_diff diff = elim diff [
        | none ↦ list_or_test vars windows lib parts args w o dir caught found.mutants
        | some diff_path ↦ filtered (parts.diff_filter_file found.mutants diff_path)
      ]

      filtered-Fits :
          (r : Result DiffFilterError (List Mutant))
          → args.list_files ≡ false
          → Fitting (filtered r)
      filtered-Fits (ok ms) n = list_or_test-Fits w o dir caught ms n
      filtered-Fits (err e) n = (n, refl)

      by_diff-Fits : (diff : Option Text) → args.list_files ≡ false → Fitting (by_diff diff)
      by_diff-Fits none n = list_or_test-Fits w o dir caught found.mutants n
      by_diff-Fits (some path) n = filtered-Fits (parts.diff_filter_file found.mutants path) n

  run_in-Fits : (start_dir : Text) → Fitting (run_in vars windows lib parts args start_dir)
  unfolding run_in
  run_in-Fits start_dir = bind-OkThen _ (parts.open_workspace start_dir) _ (λ w.
      bind-OkThen _ (read_workspace_config vars windows lib parts args w) _ (λ config.
        bind-OkThen _ (options_of vars windows lib parts args config) _ (λ o.
          bind-OkThen _ (parts.discover w _ o) _ (λ discovered.
            bind-OkThen _ (iterated vars windows lib parts args _ discovered) _
              (λ found. filter_by_diff-Fits w o _ found.0 found.1)))))

  run_workspace-Fits : Fitting (run_workspace vars windows lib parts args)
  unfolding run_workspace
  run_workspace-Fits =
      elim args.manifest_path
        as (λ m. Fitting (elim m as (λ m. Result Text (ExitCode × Action)) [
          | some manifest ↦
              (if parts.is_file manifest
                then (do
                  dir ← ok_or (parts.parent manifest) (codes "Manifest path has no parent")
                  run_in vars windows lib parts args dir)
                else ok (usage, bad_manifest))
          | none ↦ run_in vars windows lib parts args (unwrap_or (codes ".") args.dir)
        ])) [
          | some manifest ↦ elim (Bool-cases (parts.is_file manifest)) [
            | inl e ↦ rw e (
                bind-OkThen _ (ok_or (parts.parent manifest) (codes "Manifest path has no parent"))
                  _ (λ dir. run_in-Fits dir))
            | inr e ↦ rw e refl
          ]
          | none ↦ run_in-Fits (unwrap_or (codes ".") args.dir)
        ]

  run_mutate_file-Fits : (path : Text) → Fitting (run_mutate_file vars windows lib parts args path)
  unfolding run_mutate_file
  run_mutate_file-Fits path =
      bind-OkThen _
        (elim args.config [ some file ↦ parts.read_config file | none ↦ ok default_config ]) _
        (λ config.
          bind-OkThen _ (options_of vars windows lib parts args config) _
            (λ o. bind-OkThen _ (parts.mutate_file path o) _ (λ u. refl)))

  run_args-Fits : Fitting (run_args vars windows lib parts args)
  unfolding run_args
  run_args-Fits = elim (Bool-cases args.version) [
    | inl e ↦ rw (e, run_args) refl
    | inr e ↦
        subst
          (λ b.
            Fitting (
              if b then ok (ExitCode.success, showed_version) else by_completions args.completions))
          (sym e) (completions-Fits args.completions)
  ]
    where
      by_file : Option Text → Result Text (ExitCode × Action)
      by_file file = elim file [
        | some path ↦ run_mutate_file vars windows lib parts args path
        | none ↦ run_workspace vars windows lib parts args
      ]

      by_schema : Option SchemaType → Result Text (ExitCode × Action)
      by_schema schema = elim schema [
        | some s ↦ (do parts.emit_schema; ok (ExitCode.success, wrote_schema))
        | none ↦ by_file args.mutate_file
      ]

      by_completions : Option Shell → Result Text (ExitCode × Action)
      by_completions completions = elim completions [
        | some shell ↦ ok (ExitCode.success, wrote_completions)
        | none ↦ by_schema args.emit_schema
      ]

      file-Fits : (file : Option Text) → Fitting (by_file file)
      file-Fits none = run_workspace-Fits
      file-Fits (some path) = run_mutate_file-Fits path

      schema-Fits : (schema : Option SchemaType) → Fitting (by_schema schema)
      schema-Fits none = file-Fits args.mutate_file
      schema-Fits (some s) = bind-OkThen _ parts.emit_schema _ (λ u. refl)

      completions-Fits : (completions : Option Shell) → Fitting (by_completions completions)
      completions-Fits none = schema-Fits args.emit_schema
      completions-Fits (some shell) = refl

  -- Where the program returns an exit code, it fits what was done: with `--list` or `--list-files` no mutant
  -- is tested, a diff that is refused gives the code of its error, a test of mutants that of the lab, a
  -- manifest that is not a file that of wrong usage, and the rest success.
  pub main-Fits : OkThen (Fits args.list args.list_files) (main vars windows lib parts (ok args))
  unfolding main
  main-Fits = run_args-Fits
