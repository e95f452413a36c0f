-- ===== src/Output/Examples.antt =====
-- Tests of the names of files, and the theorem at a concrete name.
use cargo_mutants.Prelude.Text.{codes, show_usize}
use cargo_mutants.Prelude.{◌≡◌, refl, [], ◌∷◌, ◌≤◌, length, All}
use cargo_mutants.Output.{clean_filename, take_name, show_padded}
use cargo_mutants.Output.Clean.{IsClean, ordinary, clean_filename-IsClean}

clean_test : clean_filename (codes "src/a b.rs") ≡ codes "src__a_b.rs"
unfolding clean_filename
clean_test = refl

second_name : (take_name (codes "x") ((codes "x", 0) ∷ [])).0 ≡ codes "x_001"
unfolding take_name show_padded show_usize
second_name = refl

clean_filename-IsClean_example :
    All IsClean (clean_filename (codes "a/b c"))
    × (5 ≤ length (clean_filename (codes "a/b c")))
    × (ordinary (clean_filename (codes "a/b c")) ≡ codes "abc")
clean_filename-IsClean_example = clean_filename-IsClean (codes "a/b c")
