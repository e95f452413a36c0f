-- ===== src/Options.antt =====
-- The options of a run: src/options.rs, with the command line of src/main.rs, the configuration file of
-- src/config.rs, the annotations of src/annotation.rs and the glob sets of src/glob.rs. The types of
-- `f64`, of a set of regular expressions and of a set of globs are parameters.
pub mod Input
pub mod Globs
pub mod Merge
pub mod Precedence
pub mod Filter
pub mod Samples
mod Examples
use cargo_mutants.Prelude.Text.{Text, codes, text_eq}
use cargo_mutants.Prelude.{Bool, true, false, not, Option, none, some, List, if◌then◌else◌}
use cargo_mutants.Shard.{Sharding}

-- `Colors`
pub data Colors : Type 0 where
  auto always never : Colors

-- `TestTool`
pub data TestTool : Type 0 where
  cargo nextest : TestTool

-- `TestPackages`
pub data TestPackages : Type 0 where
  mutated workspace : TestPackages
  packages_named : List Text → TestPackages

-- `BaselineStrategy`
pub data BaselineStrategy : Type 0 where
  run skip : BaselineStrategy

-- `AutoAnnotation` and `ResolvedAnnotation`
pub data AutoAnnotation : Type 0 where
  no_annotation auto_annotation github_annotation : AutoAnnotation

pub data ResolvedAnnotation : Type 0 where
  without github : ResolvedAnnotation

-- `Common`
pub record Common : Type 0 where
  pub emit_diffs : Option Bool
  pub test_tool : Option TestTool
  pub sharding : Option Sharding

-- `Option::or`, and the first of two
abbrev pub or_else : {A : Type 0} → Option A → Option A → Option A
or_else (some a) b = some a
or_else none b = b

-- `Common::merge`
unfoldable pub merge : Common → Common → Common
merge a b = record {
  emit_diffs = or_else a.emit_diffs b.emit_diffs;
  test_tool = or_else a.test_tool b.test_tool;
  sharding = or_else a.sharding b.sharding;
}

-- The variables of the process, `env::var`
abbrev pub Vars : Type 0
Vars = Text → Option Text

abbrev pub is_set : Option Text → Bool
is_set none = false
is_set (some v) = not (text_eq v (codes "0"))

-- `Colors::forced_value`
unfoldable pub forced_value : Vars → Colors → Option Bool
forced_value vars colors =
    if is_set (vars (codes "NO_COLOR"))
    then some false
    else if is_set (vars (codes "CLICOLOR_FORCE"))
    then some true
    else elim colors [ always ↦ some true | never ↦ some false | auto ↦ none ]

-- `AutoAnnotation::resolve`
unfoldable pub resolve : Vars → AutoAnnotation → ResolvedAnnotation
resolve vars auto_annotation = elim (vars (codes "GITHUB_ACTION")) [
  | some v ↦ github
  | none ↦ without
]
resolve vars github_annotation = github
resolve vars no_annotation = without
