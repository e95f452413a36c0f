-- ===== src/Visit/Mods/Places.antt =====
-- Where the file of a module is looked for, by the rules that the comment of `find_mod_source` gives.
use cargo_mutants.Prelude.Text.{Text, codes}
use cargo_mutants.Prelude.{
  ◌≡◌, refl, subst, sym, ap, ◌∙◌, ◌≢◌, ◌⊎◌, Bool, true, false, ◌&&◌, ◌||◌, Option, none, some, List,
  [], ◌∷◌, ◌++◌, if◌then◌else◌,
}
use cargo_mutants.Prelude.Maybe.{◌>>=◌}
use cargo_mutants.Paths.{FilePath}
use cargo_mutants.Source.{SourceFile}
use cargo_mutants.Visit.Mods.{
  ModNamespace, get_filesystem_name, parent_of, ends_with_mod_rs, without_extension,
  filesystem_names, search_dir, has_path, no_parents,
}

-- The directory that belongs to the module of a file: for the root of a crate, and for `mod.rs`, that
-- of the file, and for `foo.rs` the directory `foo` beside it
pub data Home (is_top : Bool) (file_path : FilePath) : FilePath → Type 0 where
  own_directory :
      (dir : FilePath) (name : Text)
      → file_path ≡ dir ++ name ∷ []
      → (is_top ≡ true) ⊎ (name ≡ codes "mod.rs")
      → Home is_top file_path dir
  directory_beside :
      (dir : FilePath) (stem : Text)
      → file_path ≡ dir ++ (stem ++ codes ".rs") ∷ []
      → is_top ≡ false
      → stem ≢ []
      → stem ++ codes ".rs" ≢ codes "mod.rs"
      → Home is_top file_path (dir ++ stem ∷ [])

-- The directories of the enclosing blocks of modules, by their names or their `path` attributes
abbrev pub block_dirs : List ModNamespace → FilePath
block_dirs [] = []
block_dirs (m ∷ ms) = elim m.path_attribute [
  | some path ↦ path ++ block_dirs ms
  | none ↦ m.name ∷ block_dirs ms
]

-- The paths at which the file of a module may be, the first one first: `bar.rs`, and then
-- `bar/mod.rs`, in the directory that belongs to the module around it, or else the path of the
-- attribute, from there or, outside of blocks of modules, from the directory of the file
pub data Places (is_top : Bool) (file_path : FilePath) (child : ModNamespace)
    : List ModNamespace → List FilePath → Type 0 where
  by_name :
      (home : FilePath) (parents : List ModNamespace)
      → Home is_top file_path home
      → child.path_attribute ≡ none
      → Places is_top file_path child parents (
          ((home ++ block_dirs parents) ++ (child.name ++ codes ".rs") ∷ [])
          ∷ ((home ++ block_dirs parents) ++ child.name ∷ codes "mod.rs" ∷ [])
          ∷ [])
  by_attribute_in_block :
      (home path : FilePath) (m : ModNamespace) (ms : List ModNamespace)
      → Home is_top file_path home
      → child.path_attribute ≡ some path
      → Places is_top file_path child (m ∷ ms) (((home ++ block_dirs (m ∷ ms)) ++ path) ∷ [])
  by_attribute :
      (dir path : FilePath) (name : Text)
      → file_path ≡ dir ++ name ∷ []
      → child.path_attribute ≡ some path
      → Places is_top file_path child [] (((dir ++ []) ++ path) ∷ [])

block_dirs_lem : (ms : List ModNamespace) → filesystem_names ms ≡ block_dirs ms
unfolding filesystem_names get_filesystem_name
block_dirs_lem [] = refl
block_dirs_lem (m ∷ ms) = rw (block_dirs_lem ms) (by_path m.path_attribute)
  where
    by_path :
        (p : Option FilePath)
        → (elim p as (λ p. FilePath) [ some path ↦ path | none ↦ m.name ∷ [] ]) ++ block_dirs ms
          ≡ (elim p as (λ p. FilePath) [
            | some path ↦ path ++ block_dirs ms
            | none ↦ m.name ∷ block_dirs ms
          ])
    by_path none = refl
    by_path (some path) = refl

-- Where the search starts
abbrev search_base : Bool → FilePath → Bool → Option FilePath
search_base top path attribute =
    if top || (ends_with_mod_rs path || attribute)
    then parent_of path
    else some (without_extension path)

search_from :
    (parent : SourceFile) (child : ModNamespace) (parents : List ModNamespace) (attribute : Bool)
    (dir : FilePath)
    → has_path child && no_parents parents ≡ attribute
    → search_base parent.is_top parent.tree_relative_path attribute ≡ some dir
    → search_dir parent child parents ≡ some (dir ++ block_dirs parents)
unfolding search_dir
search_from parent child parents attribute dir a b =
    subst
      (λ t.
        (search_base parent.is_top parent.tree_relative_path t >>= λ d.
        some (d ++ filesystem_names parents))
        ≡ some (dir ++ block_dirs parents))
      (sym a)
      (ap (λ o. o >>= λ d. some (d ++ filesystem_names parents)) b
        ∙ ap (λ names. some (dir ++ names)) (block_dirs_lem parents))
