-- ===== src/Mutant.antt =====
-- Mutants: src/mutant.rs. The caches of the name and of the description are left out: they hold what
-- `full_name` and `describe_change` compute. A `none` is a panic.
pub mod Diff
pub mod Name
pub mod Squash
pub mod Samples
mod Examples
use cargo_mutants.Prelude.Text.{Text, codes, show_usize}
use cargo_mutants.Prelude.{
  Bool, true, false, ◌&&◌, ◌||◌, Option, none, some, List, [], ◌∷◌, ◌++◌, ◌==◌, if◌then◌else◌,
}
use mathlib.Core.List.{reverse}
use cargo_mutants.Prelude.Maybe.{◌>>=◌}
use cargo_mutants.Span.{Span, extract_indexed, replace_indexed}
use cargo_mutants.Source.{SourceFile, contains}

-- `enum Genre`
pub data Genre : Type 0 where
  fn_value binary_operator unary_operator match_arm match_arm_guard if_condition while_condition :
      Genre
  bool_literal delete_statement return_value struct_field : Genre

-- `enum MutationTarget`: the field name and the struct name
pub data MutationTarget : Type 0 where
  struct_literal_field : Text → Text → MutationTarget

-- `struct Function`
pub record Function : Type 0 where
  pub function_name : Text
  pub return_type : Text
  pub span : Span

-- `struct Mutant`
pub record Mutant : Type 0 where
  pub source_file : SourceFile
  pub function : Option Function
  pub span : Span
  pub short_replaced : Option Text
  pub replacement : Text
  pub genre : Genre
  pub target : Option MutationTarget
  pub const_eval : Bool

-- `MUTATION_MARKER_COMMENT`
abbrev pub marker : Text
marker = codes "/* ~ changed by cargo-mutants ~ */"

-- `Mutant::replacement_with_marker`
unfoldable pub replacement_with_marker : Mutant → Text
replacement_with_marker m = m.replacement ++ (codes " " ++ marker)

-- `Mutant::mutated_code`
unfoldable pub mutated_code : Mutant → Option Text
mutated_code m =
    replace_indexed m.span m.source_file.code m.source_file.line_index (replacement_with_marker m)

-- `Mutant::original_text`
unfoldable pub original_text : Mutant → Option Text
original_text m = extract_indexed m.span m.source_file.code m.source_file.line_index

-- `enum PartStyle`
pub data PartStyle : Type 0 where
  plain yellow bright_yellow magenta bright_magenta : PartStyle

abbrev pub Part : Type 0
Part = PartStyle × Text

abbrev pub is_empty : Text → Bool
is_empty [] = true
is_empty (c ∷ s) = false

abbrev pub ends_with_space : Text → Bool
ends_with_space [] = false
ends_with_space (c ∷ r) = c == b' '

-- The loop of `squash_lines`; what is built so far has its last character first.
pub squash_loop : Text → Bool → Text → Text
squash_loop r in_indent [] = reverse r
squash_loop r in_indent (c ∷ s) =
    let skipped = squash_loop r in_indent s in
    let spaced = squash_loop (if ends_with_space r then r else b' ' ∷ r) true s in
    let kept = squash_loop (c ∷ r) false s in
    if (c == b' ' || c == b'\t' || c == b'\n') && in_indent
    then skipped
    else if c == b'\n'
    then spaced
    else kept

-- `squash_lines`
unfoldable pub squash_lines : Text → Text
unfolding squash_loop contains
squash_lines s = if contains b'\n' s then squash_loop [] false s else s

-- The text that `_ =>` of `describe_parts` puts together
pub describe_replaced : Mutant → Text → List Part
describe_replaced m original =
    if is_empty m.replacement
    then (plain, codes "delete ") ∷ (yellow, original) ∷ []
    else (plain, codes "replace ")
      ∷ (yellow, original)
      ∷ (plain, codes " with ")
      ∷ (bright_yellow, m.replacement)
      ∷ []

pub describe_function : Function → Text → List Part
describe_function f replacement =
    (plain, codes "replace ")
    ∷ (bright_magenta, f.function_name)
    ∷ ((if is_empty f.return_type then [] else (plain, codes " ") ∷ (magenta, f.return_type) ∷ [])
        ++ ((plain, codes " with ") ∷ (yellow, replacement) ∷ []))

pub describe_field : Option MutationTarget → List Part
describe_field (some (struct_literal_field field_name struct_name)) =
    (plain, codes "delete field ")
    ∷ (yellow, field_name)
    ∷ (plain, codes " from struct ")
    ∷ (yellow, struct_name)
    ∷ (plain, codes " expression")
    ∷ []
describe_field none = (plain, codes "delete field from struct expression") ∷ []

-- The `match` of `describe_parts`
pub describe_genre : Genre → Mutant → Option (List Part)
describe_genre fn_value m = do f ← m.function; some (describe_function f m.replacement)
describe_genre match_arm_guard m = do
  original ← original_text m
  some (
      (plain, codes "replace match guard ")
      ∷ (yellow, squash_lines original)
      ∷ (plain, codes " with ")
      ∷ (yellow, m.replacement)
      ∷ [])
describe_genre match_arm m = do
  short ← m.short_replaced
  some ((plain, codes "delete match arm ") ∷ (yellow, squash_lines short) ∷ [])
describe_genre struct_field m = some (describe_field m.target)
describe_genre _ m = do original ← original_text m; some (describe_replaced m original)

abbrev pub is_fn_value : Genre → Bool
is_fn_value fn_value = true
is_fn_value _ = false

abbrev in_function : Bool → Option Function → List Part
in_function false (some f) = (plain, codes " in ") ∷ (bright_magenta, f.function_name) ∷ []
in_function _ _ = []

-- `Mutant::describe_parts`: the calls of its callback, in order
unfoldable pub describe_parts : Mutant → Option (List Part)
unfolding describe_genre describe_field describe_function describe_replaced
describe_parts m = do
  parts ← describe_genre m.genre m
  some (parts ++ in_function (is_fn_value m.genre) m.function)

abbrev pub concat_parts : List Part → Text
concat_parts [] = []
concat_parts ((style, text) ∷ parts) = text ++ concat_parts parts

-- `Mutant::describe_change`
unfoldable pub describe_change : Mutant → Option Text
describe_change m = do parts ← describe_parts m; some (concat_parts parts)

abbrev pub colon : Text
colon = codes ":"

-- `Mutant::full_name`
unfoldable pub full_name : Mutant → Option Text
full_name m = do
  description ← describe_change m
  some (
      m.source_file.slash_path
      ++ (colon
          ++ (show_usize m.span.start.line
              ++ (colon ++ (show_usize m.span.start.column ++ (codes ": " ++ description))))))

-- `Mutant::write_name`, on an empty string, which is `Mutant::name`
unfoldable pub name : Mutant → Bool → Option Text
name m true = full_name m
name m false = do
  description ← describe_change m
  some (m.source_file.slash_path ++ (codes ": " ++ description))
