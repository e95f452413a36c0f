-- ===== src/Manifest.antt =====
-- Relative paths in the manifest and the configuration of cargo in a copied tree: src/manifest.rs, on
-- Unix. Reading and printing TOML are parameters.
pub mod Fixed
mod Examples
use cargo_mutants.Prelude.Text.{Text, codes, text_eq}
use cargo_mutants.Prelude.{
  zero, Bool, true, false, ◌&&◌, ◌||◌, Option, none, some, [], ◌∷◌, ◌++◌, ◌==◌, if◌then◌else◌,
  Result, ok, ◌>>=◌, ◌>>◌,
}
use cargo_mutants.Prelude.Int.{ℤ, pos}
use cargo_mutants.Paths.{components, ascent}

-- `toml::Value` and `toml::Table`; the values that are not read are their text
mutual
  pub data Value : Type 0 where
    string : Text → Value
    table : Table → Value
    array : Values → Value
    other : Text → Value

  pub data Table : Type 0 where
    no_entry : Table
    entry : Text → Value → Table → Table

  pub data Values : Type 0 where
    no_value : Values
    one_value : Value → Values → Values

-- Equality of values
unfoldable mutual
  pub value_eq : Value → Value → Bool
  value_eq (string s) (string t) = text_eq s t
  value_eq (table s) (table t) = table_eq s t
  value_eq (array s) (array t) = values_eq s t
  value_eq (other s) (other t) = text_eq s t
  value_eq _ _ = false

  pub table_eq : Table → Table → Bool
  table_eq no_entry no_entry = true
  table_eq (entry k v s) (entry l w t) = text_eq k l && (value_eq v w && table_eq s t)
  table_eq _ _ = false

  pub values_eq : Values → Values → Bool
  values_eq no_value no_value = true
  values_eq (one_value v s) (one_value w t) = value_eq v w && values_eq s t
  values_eq _ _ = false

-- `get_mut` of a key and what is done with the value; and the same for each entry
abbrev pub at_key : Text → (Value → Value) → Table → Table
at_key key f no_entry = no_entry
at_key key f (entry k v t) =
    let rest = at_key key f t in if text_eq k key then entry k (f v) t else entry k v rest

abbrev pub each_entry : (Value → Value) → Table → Table
each_entry f no_entry = no_entry
each_entry f (entry k v t) = entry k (f v) (each_entry f t)

abbrev pub in_table : (Table → Table) → Value → Value
in_table f (table t) = table (f t)
in_table f (string s) = string s
in_table f (array vs) = array vs
in_table f (other s) = other s

abbrev pub is_zero : ℤ → Bool
is_zero (pos zero) = true
is_zero _ = false

-- `Utf8Path::is_absolute`, and `Utf8PathBuf::push` of a relative path
abbrev pub is_absolute : Text → Bool
is_absolute [] = false
is_absolute (c ∷ s) = c == b'/'

abbrev pub ends_with_slash : Text → Bool
ends_with_slash [] = false
ends_with_slash (c ∷ []) = c == b'/'
ends_with_slash (c ∷ d ∷ s) = ends_with_slash (d ∷ s)

abbrev pub push_path : Text → Text → Text
push_path [] path = path
push_path (c ∷ s) path = (c ∷ s) ++ (if ends_with_slash (c ∷ s) then path else b'/' ∷ path)

-- `fix_path`
unfoldable pub fix_path : Text → Text → Option Text
unfolding components ascent
fix_path path source_dir =
    if is_absolute path || is_zero (ascent (components path))
    then none
    else some (push_path source_dir path)

-- What is done with the value of `path`, or an element of `paths`
unfoldable pub fix_value : Text → Value → Value
unfolding fix_path
fix_value source_dir (string path) = elim (fix_path path source_dir) [
  | some fixed ↦ string fixed
  | none ↦ string path
]
fix_value source_dir (table t) = table t
fix_value source_dir (array vs) = array vs
fix_value source_dir (other s) = other s

-- `fix_dependency_table`
unfoldable pub fix_dependency_table : Text → Value → Value
unfolding fix_value
fix_dependency_table source_dir v =
    in_table (each_entry (in_table (at_key (codes "path") (fix_value source_dir)))) v

-- The sections of a manifest that are changed
unfoldable pub fix_sections : Text → Table → Table
unfolding fix_dependency_table
fix_sections source_dir t =
    at_key (codes "patch") (in_table (each_entry (fix_dependency_table source_dir))) (
      at_key (codes "replace") (fix_dependency_table source_dir)
        (at_key (codes "dependencies") (fix_dependency_table source_dir) t))

-- The elements of `paths`
abbrev pub each_value : (Value → Value) → Values → Values
each_value f no_value = no_value
each_value f (one_value v vs) = one_value (f v) (each_value f vs)

abbrev pub in_array : (Value → Value) → Value → Value
in_array f (array vs) = array (each_value f vs)
in_array f (string s) = string s
in_array f (table t) = table t
in_array f (other s) = other s

abbrev pub is_some : Option Text → Bool
is_some none = false
is_some (some t) = true

-- Whether an element of `paths` is changed
unfoldable pub any_fixed : Text → Values → Bool
unfolding fix_path
any_fixed source_dir no_value = false
any_fixed source_dir (one_value (string path) vs) =
    is_some (fix_path path source_dir) || any_fixed source_dir vs
any_fixed source_dir (one_value v vs) = any_fixed source_dir vs

unfoldable pub paths_changed : Text → Table → Bool
unfolding any_fixed
paths_changed source_dir no_entry = false
paths_changed source_dir (entry k v t) =
    let rest = paths_changed source_dir t in
    if text_eq k (codes "paths")
    then elim v [ array vs ↦ any_fixed source_dir vs | _ ↦ false ]
    else rest

-- What differs from the original, if anything does
abbrev pub if_changed : (Table → Table) → Table → Option Table
if_changed f t = if table_eq (f t) t then none else some (f t)

module _ {E : Type 0} (parse : Text → Result E Table) where
  -- `fix_manifest_toml`
  unfoldable pub fix_manifest_toml : Text → Text → Result E (Option Table)
  unfolding fix_sections value_eq
  fix_manifest_toml toml source_dir = do t ← parse toml; ok (if_changed (fix_sections source_dir) t)

  module _ (to_string_pretty : Table → Result E Text) where
    -- What is printed, if anything is
    abbrev pub printed : Option Table → Result E (Option Text)
    printed none = ok none
    printed (some t) = do s ← to_string_pretty t; ok (some s)

    -- `fix_manifest`, from the text of the file to the one that is written, if one is
    unfoldable pub fix_manifest : Text → Text → Result E (Option Text)
    unfolding fix_manifest_toml
    fix_manifest toml source_dir = do changed ← fix_manifest_toml toml source_dir; printed changed

    -- `fix_cargo_config_toml`
    unfoldable pub fix_cargo_config_toml : Text → Text → Result E (Option Text)
    unfolding paths_changed fix_value
    fix_cargo_config_toml toml source_dir = do
      t ← parse toml
      (if paths_changed source_dir t
          then printed (some (at_key (codes "paths") (in_array (fix_value source_dir)) t))
          else ok none)
