-- ===== src/Source/Examples.antt =====
-- Tests of source files, and the theorem on loading at a concrete tree.
use cargo_mutants.Prelude.Text.{Text, codes}
use cargo_mutants.Prelude.{◌≡◌, refl, true, none, [], ◌∷◌, Result, ok}
use cargo_mutants.Prelude.Int.{max_ℤ, ◌+ℤ◌}
use cargo_mutants.Paths.{FilePath, ascent}
use cargo_mutants.Source.{Package, SourceFile, with_text, load}

abbrev crate : Package
crate = record { name = codes "x"; version = codes "0.1.0"; relative_dir = []; top_sources = [] }

-- A file system that has the same text at every path
abbrev read : FilePath → Result Text Text
read path = ok (codes "a\nb\n")

abbrev lib_rs : FilePath
lib_rs = codes "src" ∷ codes "lib.rs" ∷ []

abbrev loaded : SourceFile
loaded = with_text lib_rs crate true (codes "a\nb\n")

-- `load` skips a path that leads out of the tree.
load_outside : load read (codes "tmp" ∷ []) (codes ".." ∷ []) crate true ≡ ok none
unfolding load ascent max_ℤ ◌+ℤ◌
load_outside = refl
