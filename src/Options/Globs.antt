-- ===== src/Options/Globs.antt =====
-- Sets of globs: src/glob.rs. What the crate `globset` does is a parameter.
use cargo_mutants.Prelude.Text.{Text, codes}
use cargo_mutants.Prelude.{
  ℕ, Bool, false, ◌&&◌, ◌||◌, Option, none, some, List, [], ◌∷◌, ◌++◌, ◌==◌, if◌then◌else◌, Result,
  ok, ◌>>=◌,
}

-- Whether a text has a character
abbrev pub contains_char : Text → ℕ → Bool
contains_char [] c = false
contains_char (d ∷ s) c = d == c || contains_char s c

-- `GlobBuilder::build` with `literal_separator(true)`, and `GlobSetBuilder::build`
pub record GlobLib (E G S : Type 0) : Type 0 where
  pub build_glob : Text → Result E G
  pub build_set : List G → Result E S

-- A glob with a separator is for the whole path, and one without is for a name at any depth, and
-- what is below it
unfoldable pub adjusted : Bool → Text → List Text
adjusted windows glob =
    if contains_char glob b'/' || (windows && contains_char glob b'\\')
    then glob ∷ []
    else (codes "**/" ++ glob) ∷ (codes "**/" ++ (glob ++ codes "/**")) ∷ []

module _ {E G S : Type 0} (windows : Bool) (lib : GlobLib E G S) where
  abbrev pub build_each : List Text → Result E (List G)
  build_each [] = ok []
  build_each (g ∷ gs) = do built ← lib.build_glob g; rest ← build_each gs; ok (built ∷ rest)

  -- The loop of `build_glob_set`
  unfoldable pub add_globs : List Text → Result E (List G)
  unfolding adjusted
  add_globs [] = ok []
  add_globs (glob ∷ globs) = do
    built ← build_each (adjusted windows glob)
    rest ← add_globs globs
    ok (built ++ rest)

  -- `build_glob_set`
  unfoldable pub build_glob_set : List Text → Result E (Option S)
  unfolding add_globs
  build_glob_set [] = ok none
  build_glob_set (glob ∷ globs) = do
    built ← add_globs (glob ∷ globs)
    set ← lib.build_set built
    ok (some set)
