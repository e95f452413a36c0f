-- ===== src/Visit/Mods.antt =====
-- The file that a `mod` statement refers to: `find_mod_source` in src/visit.rs. Whether a path is that
-- of a file is a parameter.
pub mod Places
use mathlib.Core.Option
use cargo_mutants.Prelude.Text.{Text, codes, text_eq, split}
use cargo_mutants.Prelude.{
  ◌≡◌, refl, ap, inl, inr, Bool, true, false, ◌&&◌, ◌||◌, Option, none, some, List, [], ◌∷◌, ◌++◌,
  map, ◌==◌, if◌then◌else◌, Bool-cases, All,
}
use cargo_mutants.Prelude.Maybe.{◌>>=◌}
use cargo_mutants.Paths.{FilePath}
use cargo_mutants.Source.{SourceFile}

-- `ModNamespace`, without its place in the source, which only a warning shows
pub record ModNamespace : Type 0 where
  pub name : Text
  pub path_attribute : Option FilePath

-- `ExternalModRef`
abbrev pub ExternalModRef : Type 0
ExternalModRef = List ModNamespace

-- `ModNamespace::get_filesystem_name`
unfoldable pub get_filesystem_name : ModNamespace → FilePath
get_filesystem_name m = elim m.path_attribute [ some path ↦ path | none ↦ m.name ∷ [] ]

-- `slice::split_last`: the last element, and those before
abbrev pub split_last : {A : Type 0} → List A → Option (A × List A)
split_last [] = none
split_last (a ∷ rest) =
    some (elim (split_last rest) [ some (l, before) ↦ (l, a ∷ before) | none ↦ (a, []) ])

abbrev pub parent_of : FilePath → Option FilePath
parent_of path = Option.map (λ found. found.1) (split_last path)

abbrev pub ends_with_mod_rs : FilePath → Bool
ends_with_mod_rs path = elim (split_last path) [
  | some (last, before) ↦ text_eq last (codes "mod.rs")
  | none ↦ false
]

-- The part of a file name before its last dot, but for one at its start
abbrev pub before_dot : Text → Option Text
before_dot [] = none
before_dot (c ∷ s) = elim (before_dot s) [
  | some t ↦ some (c ∷ t)
  | none ↦ (if c == b'.' then some [] else none)
]

abbrev pub file_stem : Text → Text
file_stem [] = []
file_stem (c ∷ s) = elim (before_dot s) [ some t ↦ c ∷ t | none ↦ c ∷ s ]

-- `with_extension("")`
abbrev pub without_extension : FilePath → FilePath
without_extension path = elim (split_last path) [
  | some (last, before) ↦ before ++ file_stem last ∷ []
  | none ↦ []
]

abbrev pub has_path : ModNamespace → Bool
has_path m = elim m.path_attribute [ some path ↦ true | none ↦ false ]

abbrev pub no_parents : List ModNamespace → Bool
no_parents [] = true
no_parents (m ∷ ms) = false

abbrev pub filesystem_names : List ModNamespace → FilePath
unfolding get_filesystem_name
filesystem_names [] = []
filesystem_names (m ∷ ms) = get_filesystem_name m ++ filesystem_names ms

-- The directory in which the file is looked for; nothing where the path of the parent is empty
unfoldable pub search_dir : SourceFile → ModNamespace → List ModNamespace → Option FilePath
search_dir parent child parents =
    (if parent.is_top
        || (ends_with_mod_rs parent.tree_relative_path || (has_path child && no_parents parents))
      then parent_of parent.tree_relative_path
      else some (without_extension parent.tree_relative_path))
    >>= λ dir. some (dir ++ filesystem_names parents)

-- `mod_child_candidates`
unfoldable pub candidates : FilePath → ModNamespace → List FilePath
candidates dir child = elim child.path_attribute [
  | some path ↦ (dir ++ path) ∷ []
  | none ↦
      (dir ++ (child.name ++ codes ".rs") ∷ []) ∷ (dir ++ child.name ∷ codes "mod.rs" ∷ []) ∷ []
]

module _ (is_file : FilePath → Bool) (tree_root : FilePath) where
  -- The loop over the candidates
  unfoldable pub first_file : List FilePath → Option FilePath
  first_file [] = none
  first_file (path ∷ paths) =
      let rest = first_file paths in if is_file (tree_root ++ path) then some path else rest

  -- `find_mod_source`; nothing where it panics
  unfoldable pub find_mod_source : SourceFile → ExternalModRef → Option (Option FilePath)
  unfolding search_dir candidates first_file
  find_mod_source parent parts = do
    split ← split_last parts
    dir ← search_dir parent split.0 split.1
    some (first_file (candidates dir split.0))

  -- What a search among paths may answer: nothing, and none is a file, or the first that is one
  abbrev pub IsFirst : List FilePath → Option FilePath → Type 0
  IsFirst paths none = All (λ path. is_file (tree_root ++ path) ≡ false) paths
  IsFirst paths (some found) =
      (before : List FilePath) × ((after : List FilePath) × ((paths ≡ before ++ found ∷ after)
          × ((is_file (tree_root ++ found) ≡ true)
              × All (λ path. is_file (tree_root ++ path) ≡ false) before)))

  pub first_file-IsFirst : (paths : List FilePath) → IsFirst paths (first_file paths)
  unfolding first_file
  first_file-IsFirst [] = tt
  first_file-IsFirst (path ∷ paths) = elim (Bool-cases (is_file (tree_root ++ path))) [
    | inl e ↦ rw e ([], (paths, (refl, (e, tt))))
    | inr e ↦ rw e (later path paths e (first_file paths) (first_file-IsFirst paths))
  ]
    where
      later :
          (path : FilePath) (paths : List FilePath)
          → is_file (tree_root ++ path) ≡ false
          → (found : Option FilePath) → IsFirst paths found
          → IsFirst (path ∷ paths) found
      later path paths e none h = (e, h)
      later path paths e (some found) (before, (after, (eq, (is, h)))) =
          (path ∷ before, (after, (ap (λ ps. path ∷ ps) eq, (is, (e, h)))))
