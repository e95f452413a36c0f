-- ===== src/Options/Filter.antt =====
-- What the options of src/options.rs select: phases, files and mutants. Whether a set of globs matches
-- a path, and a set of regular expressions a name, are parameters.
pub mod Paths
use cargo_mutants.Prelude.Text.{Text}
use cargo_mutants.Prelude.Bytes.{slice}
use cargo_mutants.Prelude.{
  ◌≡◌, refl, inl, inr, Bool, true, false, not, ◌&&◌, ◌||◌, Option, none, some, List, [], ◌∷◌,
  if◌then◌else◌, Bool-cases,
}
use cargo_mutants.Prelude.Maybe.{unwrap_or, ◌>>=◌}
use cargo_mutants.Shard.{Sharding}
use cargo_mutants.Outcome.{Phase, check, build, test}
use cargo_mutants.Mutant.{Mutant, full_name}
use cargo_mutants.Options.{TestTool, cargo}
use cargo_mutants.Options.Merge.{Options}

-- `RegexSet::is_empty` and `is_match`, and `GlobSet::is_match`
pub record Matchers (R S : Type 0) : Type 0 where
  pub re_is_empty : R → Bool
  pub re_is_match : R → Text → Bool
  pub globs_match : S → Text → Bool

module _ {S : Type 0} (globs_match : S → Text → Bool) where
  abbrev pub no_set_or : Option S → Text → Bool
  no_set_or none path = true
  no_set_or (some g) path = globs_match g path

  abbrev pub in_set : Option S → Text → Bool
  in_set none path = false
  in_set (some g) path = globs_match g path

module _ {F R S : Type 0} where
  -- `Options::phases`
  unfoldable pub phases : Options F R S → List Phase
  phases o = if o.check_only then check ∷ [] else build ∷ test ∷ []

  -- `Options::emit_diffs`, `test_tool` and `sharding`
  unfoldable pub emit_diffs : Options F R S → Bool
  emit_diffs o = unwrap_or false o.common.emit_diffs

  unfoldable pub test_tool : Options F R S → TestTool
  test_tool o = unwrap_or cargo o.common.test_tool

  unfoldable pub sharding : Options F R S → Sharding
  sharding o = unwrap_or Sharding.slice o.common.sharding

  module _ (matchers : Matchers R S) where
    -- `Options::allows_source_file_path`
    unfoldable pub allows_source_file_path : Options F R S → Text → Bool
    allows_source_file_path o path =
        no_set_or matchers.globs_match o.examine_globset path
        && not (in_set matchers.globs_match o.exclude_globset path)

    -- `Options::allows_mutant`; nothing where the name of the mutant panics
    unfoldable pub allows_mutant : Options F R S → Mutant → Option Bool
    allows_mutant o m =
        if matchers.re_is_empty o.examine_name_re && matchers.re_is_empty o.exclude_name_re
        then some true
        else (full_name m >>= λ name. some (
            (matchers.re_is_empty o.examine_name_re || matchers.re_is_match o.examine_name_re name)
            && (matchers.re_is_empty o.exclude_name_re
                || not (matchers.re_is_match o.exclude_name_re name))))

    -- Where a set of no regular expressions matches nothing, a mutant with a name is allowed exactly
    -- if the first set is empty or matches its name and the second does not match it; that the name is
    -- not built where both are empty makes no difference.
    pub allows_mutant-matches :
        ((r : R) (name : Text)
          → matchers.re_is_empty r ≡ true
          → matchers.re_is_match r name ≡ false)
        → (o : Options F R S) (m : Mutant) (name : Text) → full_name m ≡ some name
        → allows_mutant o m
          ≡ some (
              (matchers.re_is_empty o.examine_name_re
                || matchers.re_is_match o.examine_name_re name)
              && not (matchers.re_is_match o.exclude_name_re name))
    unfolding allows_mutant
    allows_mutant-matches empty o m name e =
        elim (Bool-cases (matchers.re_is_empty o.exclude_name_re)) [
          | inl f ↦
              rw (e, f, empty o.exclude_name_re name f)
                (elim (matchers.re_is_empty o.examine_name_re)
                  as (λ b.
                    (if b && true
                      then some true
                      else some ((b || matchers.re_is_match o.examine_name_re name) && true))
                    ≡ some ((b || matchers.re_is_match o.examine_name_re name) && true)) [
                      | true ↦ refl
                      | false ↦ refl
                    ])
          | inr f ↦
              rw (e, f)
                (elim (matchers.re_is_empty o.examine_name_re)
                  as (λ b.
                    (if b && false
                      then some true
                      else some (
                          (b || matchers.re_is_match o.examine_name_re name)
                          && not (matchers.re_is_match o.exclude_name_re name)))
                    ≡ some (
                        (b || matchers.re_is_match o.examine_name_re name)
                        && not (matchers.re_is_match o.exclude_name_re name))) [
                          | true ↦ refl
                          | false ↦ refl
                        ])
        ]
