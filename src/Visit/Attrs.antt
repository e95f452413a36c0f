-- ===== src/Visit/Attrs.antt =====
-- Attributes that leave out code: src/visit.rs. Here an attribute has what `syn` answers about it: the
-- names of its path, what `parse_nested_meta` passes to its function before it ends, and whether it ends
-- without an error, and the result of reading its arguments.
use cargo_mutants.Prelude.Text.{Text, codes, text_eq}
use cargo_mutants.Prelude.{
  Bool, true, false, not, ◌&&◌, ◌||◌, Option, none, some, List, [], ◌∷◌, ◌++◌, ◌==◌, if◌then◌else◌,
  Result, ok, err, ◌>>=◌,
}

-- The arguments of one `mutants::exclude_re`: the pattern, or the message of an error
abbrev pub Pattern : Type 0
Pattern = Result Text Text

-- What is nested in an attribute: its names, whether it is the word `test`, and its arguments
pub record Meta : Type 0 where
  pub names : List Text
  pub is_test_word : Bool
  pub pattern : Pattern

-- The value of `path` in `#[path = …]`, where it is a string
pub data NameValue : Type 0 where
  path_value : Text → NameValue
  no_string other_meta : NameValue

pub record Attribute : Type 0 where
  pub attr_names : List Text
  pub nested : List Meta
  pub nested_ok : Bool
  pub attr_pattern : Pattern
  pub value : NameValue

-- `path_is`
abbrev pub path_is : List Text → List Text → Bool
path_is [] [] = true
path_is (s ∷ ss) (t ∷ ts) = text_eq s t && path_is ss ts
path_is [] (t ∷ ts) = false
path_is (s ∷ ss) [] = false

-- `path_ends_with`
abbrev pub last_is : List Text → Text → Bool
last_is [] name = false
last_is (s ∷ []) name = text_eq s name
last_is (s ∷ t ∷ ss) name = last_is (t ∷ ss) name

abbrev pub skip_path : List Text
skip_path = codes "mutants" ∷ codes "skip" ∷ []

abbrev pub exclude_path : List Text
exclude_path = codes "mutants" ∷ codes "exclude_re" ∷ []

abbrev pub any_nested : (Meta → Bool) → List Meta → Bool
any_nested f [] = false
any_nested f (m ∷ ms) = f m || any_nested f ms

-- `attr_is_cfg_test`, `attr_is_test` and `attr_is_mutants_skip`
unfoldable pub attr_is_cfg_test : Attribute → Bool
attr_is_cfg_test attr =
    if not (path_is attr.attr_names (codes "cfg" ∷ []))
    then false
    else if not attr.nested_ok
    then false
    else any_nested (λ m. m.is_test_word) attr.nested

unfoldable pub attr_is_test : Attribute → Bool
attr_is_test attr = last_is attr.attr_names (codes "test")

unfoldable pub attr_is_mutants_skip : Attribute → Bool
attr_is_mutants_skip attr =
    if path_is attr.attr_names skip_path
    then true
    else if not (path_is attr.attr_names (codes "cfg_attr" ∷ []))
    then false
    else if not attr.nested_ok
    then false
    else any_nested (λ m. path_is m.names skip_path) attr.nested

-- `attrs_excluded`
unfoldable pub attrs_excluded : List Attribute → Bool
unfolding attr_is_cfg_test attr_is_test attr_is_mutants_skip
attrs_excluded [] = false
attrs_excluded (attr ∷ attrs) =
    (attr_is_cfg_test attr || (attr_is_test attr || attr_is_mutants_skip attr))
    || attrs_excluded attrs

abbrev pub with_message : Text → Pattern → Pattern
with_message prefix (ok pattern) = ok pattern
with_message prefix (err message) = err (prefix ++ message)

-- `collect_exclude_re_from_cfg_attr`, from what is nested: the first malformed pattern is an error
unfoldable pub collect_exclude_re : List Meta → Result Text (List Text)
collect_exclude_re [] = ok []
collect_exclude_re (m ∷ ms) =
    let rest = collect_exclude_re ms in
    if path_is m.names exclude_path
    then (do
      pattern ←
          with_message (codes "malformed #[mutants::exclude_re(...)] inside cfg_attr: ") m.pattern
      patterns ← rest
      ok (pattern ∷ patterns))
    else rest

-- The patterns of one attribute
unfoldable pub exclude_re_patterns : Attribute → Result Text (List Text)
unfolding collect_exclude_re
exclude_re_patterns attr =
    if path_is attr.attr_names exclude_path
    then (do
      pattern ←
          with_message (codes "malformed #[mutants::exclude_re(...)] attribute: ") attr.attr_pattern
      ok (pattern ∷ []))
    else if path_is attr.attr_names (codes "cfg_attr" ∷ [])
    then collect_exclude_re attr.nested
    else ok []

-- `attrs_exclude_re_patterns`, where an error is its message
unfoldable pub attrs_exclude_re_patterns : List Attribute → Result Text (List Text)
unfolding exclude_re_patterns
attrs_exclude_re_patterns [] = ok []
attrs_exclude_re_patterns (attr ∷ attrs) = do
  patterns ← exclude_re_patterns attr
  rest ← attrs_exclude_re_patterns attrs
  ok (patterns ++ rest)

-- `find_path_attribute`
unfoldable pub find_path_attribute : List Attribute → Result Text (Option Text)
find_path_attribute [] = ok none
find_path_attribute (attr ∷ attrs) = elim attr.value [
  | path_value path ↦ elim path as (λ path. Result Text (Option Text)) [
    | [] ↦ ok (some [])
    | c ∷ s ↦ (if c == b'/' then err (c ∷ s) else ok (some (c ∷ s)))
  ]
  | no_string ↦ find_path_attribute attrs
  | other_meta ↦ find_path_attribute attrs
]
