-- ===== src/Visit/Collect/Examples.antt =====
-- The mutants of the body of a small function, and a witness.
use cargo_mutants.Prelude.Text.{Text, codes}
use cargo_mutants.Prelude.{ℕ, ◌≡◌, refl, Bool, true, false, none, some, List, [], ◌∷◌}
use cargo_mutants.Span.{Span}
use cargo_mutants.Mutant.{fn_value}
use cargo_mutants.Mutant.Samples.{file, at}
use cargo_mutants.Pretty.{next, end, group, brace, to_pretty_string}
use cargo_mutants.FnValue.{return_type}
use cargo_mutants.FnValue.Quote.{word}
use cargo_mutants.FnValue.Replacements.{return_type_replacements}
use cargo_mutants.FnValue.Values.{one_ident, named}
use cargo_mutants.FnValue.Chain.{Itertools}
use cargo_mutants.Options.Merge.{Options}
use cargo_mutants.Options.Filter.{Matchers, allows_mutant}
use cargo_mutants.Options.Samples.{options}
use cargo_mutants.Visit.Collect.{
  Visitor, excluded_by_attr_re, push_if, new_mutant, collect_mutant, collect_reps,
  collect_fn_mutants,
}

abbrev no_match : Text → Text → Bool
no_match re name = false

abbrev is_nil : List Text → Bool
is_nil [] = true
is_nil (t ∷ ts) = false

abbrev matchers : Matchers (List Text) (List Text)
matchers = record { re_is_empty = is_nil; re_is_match = λ r t. false; globs_match = λ g t. false }

abbrev all_options : Options ℕ (List Text) (List Text)
all_options = record options { exclude_name_re = [] }

abbrev itertools : Itertools
itertools = record {
  unique_by = λ key ts. ts;
  cartesian_product = λ ts us. [];
  multi_cartesian_product = λ rows. [];
}

abbrev body : Span
body = record { start = at 2 5; end = at 2 9 }

abbrev before : Visitor Text
before = record {
  source_file = file;
  function =
      some (record { function_name = codes "f"; return_type = codes "-> bool"; span = body });
  const_eval_depth = 0;
  exclude_re_stack = [];
  mutants = [];
}

abbrev after : Visitor Text
after = record before {
  mutants =
      new_mutant no_match matchers all_options before body none (word (codes "false")) fn_value
      ∷ [];
}

-- The body is `{ true }`, which is one of the replacements
one_collected :
    collect_fn_mutants no_match matchers all_options one_ident itertools [] []
      (return_type (named (codes "bool")))
      (next (group brace (word (codes "true"))) end)
      (some body)
      before
    ≡ some after
unfolding collect_fn_mutants collect_reps collect_mutant push_if excluded_by_attr_re allows_mutant
    return_type_replacements to_pretty_string
one_collected = refl
