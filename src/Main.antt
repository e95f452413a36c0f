-- ===== src/Main.antt =====
-- The dispatch of src/main.rs, with `load_previously_caught` of src/output.rs. Parsing of the command
-- line and of files, the discovery of mutants, the lab and the file system are parameters.
pub mod Listing
mod Examples
use mathlib.Core.Option
use cargo_mutants.Prelude.Text.{Text, codes, text_eq, lines}
use cargo_mutants.Prelude.{
  ℕ, Bool, false, ◌||◌, Option, none, some, List, [], ◌∷◌, ◌++◌, map, ◌==◌, if◌then◌else◌, Result,
  ok, err, ok_or, ◌>>=◌, ◌>>◌,
}
use cargo_mutants.Mutant.{Mutant, full_name}
use cargo_mutants.Source.{SourceFile}
use cargo_mutants.Shard.{shard}
use cargo_mutants.Outcome.{ExitCode, usage, software}
use cargo_mutants.Outcome.Totals.{LabOutcome, exit_code}
use cargo_mutants.InDiff.{DiffFilterError, error_exit_code}
use cargo_mutants.Options.{Vars}
use cargo_mutants.Options.Input.{Args, Config, default_config}
use cargo_mutants.Options.Merge.{Options, OptionsError, Libs, new}
use cargo_mutants.Options.Filter.{sharding}
use cargo_mutants.Prelude.Maybe.{unwrap_or}

-- `PackageFilter`
pub data PackageFilter : Type 0 where
  all_packages : PackageFilter
  explicit_packages : List Text → PackageFilter
  auto_package : Text → PackageFilter

-- `Discovered`
pub record Discovered : Type 0 where
  pub mutants : List Mutant
  pub files : List SourceFile

-- What the program did last
pub data Action : Type 0 where
  said_usage showed_version wrote_completions wrote_schema bad_manifest : Action
  mutated_file : Text → Action
  listed_files : List SourceFile → Action
  diff_refused : DiffFilterError → Action
  listed_mutants : List Mutant → Action
  tested_mutants : List Mutant → LabOutcome → Action

-- The parts of the program that it calls, for a workspace `W`
pub record Parts (F E R S W : Type 0) : Type 0 where
  pub is_file : Text → Bool
  pub parent : Text → Option Text
  pub read_text : Text → Result Text Text
  pub open_workspace : Text → Result Text W
  pub root : W → Text
  pub read_config : Text → Result Text (Config F)
  pub read_tree_config : Text → Result Text (Config F)
  pub error_text : OptionsError E → Text
  pub emit_schema : Result Text (Unit {0})
  pub mutate_file : Text → Options F R S → Result Text (Unit {0})
  pub discover : W → PackageFilter → Options F R S → Result Text Discovered
  pub diff_filter_file : List Mutant → Text → Result DiffFilterError (List Mutant)
  pub write_mutants : List Mutant → Options F R S → Result Text (Unit {0})
  pub new_output : Text → Option (List Text) → Result Text (Unit {0})
  pub test_mutants : List Mutant → W → Options F R S → Result Text LabOutcome

abbrev pub previous_files : List Text
previous_files = codes "caught.txt" ∷ codes "unviable.txt" ∷ codes "previously_caught.txt" ∷ []

abbrev pub any_text : List Text → Text → Bool
any_text [] name = false
any_text (s ∷ ss) name = text_eq s name || any_text ss name

-- `remove_previously_caught`, where a mutant without a name is a panic
unfoldable pub remove_previously_caught : List Text → List Mutant → Option (List Mutant)
remove_previously_caught caught [] = some []
remove_previously_caught caught (m ∷ ms) = elim (full_name m) [
  | none ↦ none
  | some name ↦
      Option.map (λ rest. if any_text caught name then rest else m ∷ rest)
        (remove_previously_caught caught ms)
]

module _ {F E R S W : Type 0} (parts : Parts F E R S W) where
  -- `load_previously_caught`, for the directory that holds the output
  unfoldable pub load_files : Text → List Text → Result Text (List Text)
  unfolding lines
  load_files dir [] = ok []
  load_files dir (name ∷ names) = do
    here ←
        (if parts.is_file (dir ++ (codes "/mutants.out/" ++ name))
          then (do text ← parts.read_text (dir ++ (codes "/mutants.out/" ++ name)); ok (lines text))
          else ok [])
    rest ← load_files dir names
    ok (here ++ rest)

  unfoldable pub load_previously_caught : Text → Result Text (List Text)
  unfolding load_files
  load_previously_caught dir = load_files dir previous_files

module _ {F Level Shell E R G S W : Type 0} (vars : Vars) (windows : Bool) (lib : Libs F E R G S)
    (parts : Parts F E R S W) where
  abbrev pub options_of : Args F Level Shell → Config F → Result Text (Options F R S)
  unfolding new
  options_of args config = elim (new vars windows lib args config) [
    | ok o ↦ ok o
    | err e ↦ err (parts.error_text e)
  ]

  -- `--mutate-file`
  unfoldable pub run_mutate_file : Args F Level Shell → Text → Result Text (ExitCode × Action)
  unfolding options_of default_config
  run_mutate_file args path = do
    config ← elim args.config [ some file ↦ parts.read_config file | none ↦ ok default_config ]
    o ← options_of args config
    parts.mutate_file path o
    ok (ExitCode.success, mutated_file path)

  -- The configuration for a workspace
  unfoldable pub read_workspace_config : Args F Level Shell → W → Result Text (Config F)
  unfolding default_config
  read_workspace_config args w = if args.no_config then ok default_config else elim args.config [
    | some file ↦ parts.read_config file
    | none ↦ parts.read_tree_config (parts.root w)
  ]

  unfoldable pub package_filter : Args F Level Shell → Text → PackageFilter
  package_filter args start_dir = elim args.mutate_packages [
    | name ∷ names ↦ explicit_packages (name ∷ names)
    | [] ↦ (if args.workspace then all_packages else auto_package start_dir)
  ]

  -- After the filter by a diff: shard, and list or test
  unfoldable pub list_or_test :
      Args F Level Shell
      → W
      → Options F R S
      → Text
      → Option (List Text)
      → List Mutant
      → Result Text (ExitCode × Action)
  unfolding sharding shard exit_code
  list_or_test args w o dir caught filtered =
      let mutants = elim args.shard as (λ s. List Mutant) [
        | some s ↦ shard (sharding o) s filtered
        | none ↦ filtered
      ] in
      if args.list
      then (do parts.write_mutants mutants o; ok (ExitCode.success, listed_mutants mutants))
      else (do
        parts.new_output dir caught
        outcome ← parts.test_mutants mutants w o
        ok (exit_code outcome, tested_mutants mutants outcome))

  -- After discovery
  unfoldable pub filter_by_diff :
      Args F Level Shell
      → W
      → Options F R S
      → Text
      → Option (List Text)
      → Discovered
      → Result Text (ExitCode × Action)
  unfolding list_or_test error_exit_code
  filter_by_diff args w o dir caught discovered =
      if args.list_files
      then ok (ExitCode.success, listed_files discovered.files)
      else elim args.in_diff [
        | none ↦ list_or_test args w o dir caught discovered.mutants
        | some diff_path ↦ elim (parts.diff_filter_file discovered.mutants diff_path) [
          | ok mutants ↦ list_or_test args w o dir caught mutants
          | err e ↦ ok (error_exit_code e, diff_refused e)
        ]
      ]

  -- With `--iterate`, the mutants without those caught before, and these
  unfoldable pub iterated :
      Args F Level Shell → Text → Discovered → Result Text (Option (List Text) × Discovered)
  unfolding load_previously_caught remove_previously_caught
  iterated args dir discovered =
      if args.iterate
      then (do
        caught ← load_previously_caught parts dir
        kept ← ok_or (remove_previously_caught caught discovered.mutants) (codes "panic")
        ok (some caught, record discovered { mutants = kept }))
      else ok (none, discovered)

  unfoldable pub run_in : Args F Level Shell → Text → Result Text (ExitCode × Action)
  unfolding read_workspace_config package_filter iterated filter_by_diff options_of
  run_in args start_dir = do
    w ← parts.open_workspace start_dir
    config ← read_workspace_config args w
    o ← options_of args config
    discovered ← parts.discover w (package_filter args start_dir) o
    found ← iterated args (unwrap_or (parts.root w) o.output_in_dir) discovered
    filter_by_diff args w o (unwrap_or (parts.root w) o.output_in_dir) found.0 found.1

  -- The directory to start in
  unfoldable pub run_workspace : Args F Level Shell → Result Text (ExitCode × Action)
  unfolding run_in
  run_workspace args = elim args.manifest_path [
    | some manifest ↦
        (if parts.is_file manifest
          then (do
            dir ← ok_or (parts.parent manifest) (codes "Manifest path has no parent")
            run_in args dir)
          else ok (usage, bad_manifest))
    | none ↦ run_in args (unwrap_or (codes ".") args.dir)
  ]

  -- `main`, for a command line that is parsed
  unfoldable pub run_args : Args F Level Shell → Result Text (ExitCode × Action)
  unfolding run_mutate_file run_workspace
  run_args args =
      if args.version then ok (ExitCode.success, showed_version) else elim args.completions [
        | some shell ↦ ok (ExitCode.success, wrote_completions)
        | none ↦ elim args.emit_schema [
          | some schema ↦ (do parts.emit_schema; ok (ExitCode.success, wrote_schema))
          | none ↦ elim args.mutate_file [
            | some path ↦ run_mutate_file args path
            | none ↦ run_workspace args
          ]
        ]
      ]

  -- `main`, from what `clap` gives: the arguments, or its exit code
  unfoldable pub main : Result ℕ (Args F Level Shell) → Result Text (ExitCode × Action)
  unfolding run_args
  main (ok args) = run_args args
  main (err code) =
      ok (if code == 2 then usage else if code == 0 then ExitCode.success else software, said_usage)
