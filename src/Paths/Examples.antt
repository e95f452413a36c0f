-- ===== src/Paths/Examples.antt =====
-- Tests of paths, and the theorem at a concrete path.
use cargo_mutants.Prelude.Text.{codes}
use cargo_mutants.Prelude.{◌≡◌, refl, ◌↔◌, [], ◌∷◌}
use cargo_mutants.Prelude.Int.{pos, ◌≤ℤ◌, max_ℤ, ◌+ℤ◌, ◌-ℤ◌}
use cargo_mutants.Paths.{FilePath, components, ascent}
use cargo_mutants.Paths.Ascent.{follow, IsSome, ascent_iff}

abbrev up_and_over : FilePath
up_and_over = codes ".." ∷ codes "a" ∷ codes ".." ∷ codes ".." ∷ codes "b" ∷ []

components_test : components (codes "src//./lib.rs") ≡ codes "src" ∷ codes "lib.rs" ∷ []
unfolding components
components_test = refl

ascent_test : ascent up_and_over ≡ pos 2
unfolding ascent max_ℤ ◌+ℤ◌ ◌-ℤ◌
ascent_test = refl

ascent_iff_example : (ascent up_and_over ≤ℤ pos 2) ↔ IsSome (follow 2 up_and_over)
ascent_iff_example = ascent_iff 2 up_and_over
