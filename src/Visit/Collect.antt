-- ===== src/Visit/Collect.antt =====
-- The mutants that replace the body of a function: `collect_mutant` and `collect_fn_mutants` in
-- src/visit.rs. Whether a regular expression matches a name is a parameter, and a `none` is a panic.
pub mod Kept
mod Examples
use cargo_mutants.Prelude.Text.{Text, text_eq}
use cargo_mutants.Prelude.{
  ℕ, Bool, true, false, ◌||◌, Option, none, some, List, [], ◌∷◌, ◌++◌, ltb, if◌then◌else◌,
}
use cargo_mutants.Prelude.Maybe.{◌>>=◌}
use cargo_mutants.Span.{Span}
use cargo_mutants.Source.{SourceFile}
use cargo_mutants.Mutant.{Mutant, Genre, fn_value, Function, full_name}
use cargo_mutants.Pretty.{TokenStream, next, end, group, brace, to_pretty_string}
use cargo_mutants.FnValue.{ReturnType, EnumIndex}
use cargo_mutants.FnValue.Paths.{PathHead}
use cargo_mutants.FnValue.Chain.{Itertools}
use cargo_mutants.FnValue.Replacements.{return_type_replacements}
use cargo_mutants.Options.Merge.{Options}
use cargo_mutants.Options.Filter.{Matchers, allows_mutant}

-- The state of a `DiscoveryVisitor`: of its stack of functions the top, and its stack of regular
-- expressions from attributes
pub record Visitor (X : Type 0) : Type 0 where
  pub source_file : SourceFile
  pub function : Option Function
  pub const_eval_depth : ℕ
  pub exclude_re_stack : List X
  pub mutants : List Mutant

module _ {X : Type 0} (re_is_match : X → Text → Bool) where
  abbrev pub any_matches : List X → Text → Bool
  any_matches [] name = false
  any_matches (re ∷ res) name = re_is_match re name || any_matches res name

  -- `excluded_by_attr_re`
  unfoldable pub excluded_by_attr_re : List X → Mutant → Option Bool
  excluded_by_attr_re [] m = some false
  excluded_by_attr_re (re ∷ res) m = full_name m >>= λ name. some (any_matches (re ∷ res) name)

  module _ {F R S : Type 0} (matchers : Matchers R S) (options : Options F R S) where
    -- What becomes of a mutant
    unfoldable pub push_if : Visitor X → Mutant → Bool → Option (Visitor X)
    push_if v m true = some v
    push_if v m false = do
      allowed ← allows_mutant matchers options m
      some (if allowed then record v { mutants = v.mutants ++ m ∷ [] } else v)

    abbrev pub new_mutant : Visitor X → Span → Option Text → TokenStream → Genre → Mutant
    unfolding to_pretty_string
    new_mutant v span short_replaced replacement genre = record {
      source_file = v.source_file;
      function = v.function;
      span = span;
      short_replaced = short_replaced;
      replacement = to_pretty_string replacement;
      genre = genre;
      target = none;
      const_eval = ltb 0 v.const_eval_depth;
    }

    -- `collect_mutant`
    unfoldable pub collect_mutant :
        Visitor X → Span → Option Text → TokenStream → Genre → Option (Visitor X)
    unfolding excluded_by_attr_re push_if
    collect_mutant v span short_replaced replacement genre = do
      excluded ←
          excluded_by_attr_re v.exclude_re_stack
            (new_mutant v span short_replaced replacement genre)
      push_if v (new_mutant v span short_replaced replacement genre) excluded

    -- The loop of `collect_fn_mutants`, for a block that is printed as `orig_block`
    unfoldable pub collect_reps : Span → Text → List TokenStream → Visitor X → Option (Visitor X)
    unfolding collect_mutant
    collect_reps span orig_block [] v = some v
    collect_reps span orig_block (rep ∷ reps) v =
        (if text_eq orig_block (to_pretty_string (next (group brace rep) end))
          then some v
          else collect_mutant v span none rep fn_value)
        >>= λ v'. collect_reps span orig_block reps v'

    -- `collect_fn_mutants`, for a function with this return type and body, and this span of the
    -- statements of its body
    module _ (is_ident : PathHead → Text → Bool) (itertools : Itertools)
        (error_exprs : List TokenStream) (enums : EnumIndex) where
      unfoldable pub collect_fn_mutants :
          ReturnType → TokenStream → Option Span → Visitor X → Option (Visitor X)
      unfolding collect_reps return_type_replacements
      collect_fn_mutants output block body_span v = elim v.function [
        | none ↦ some v
        | some function ↦
            (body_span >>= λ span.
            collect_reps span (to_pretty_string block)
              (return_type_replacements is_ident itertools error_exprs enums output) v)
      ]
