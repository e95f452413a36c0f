-- ===== src/Mutant/Samples.antt =====
-- A mutant for the tests of several modules.
use cargo_mutants.Mutant.{full_name, describe_change, describe_parts, original_text}
use cargo_mutants.Span.{
  extract_indexed, byte_range, byte_offset, offset_on_line, scan_line, new_index,
}
use cargo_mutants.Source.{normalized, contains}
use cargo_mutants.Paths.{to_slash_path}
use cargo_mutants.Prelude.Text.{codes, show_usize}
use cargo_mutants.Prelude.Bytes.{slice}
use cargo_mutants.Prelude.{ℕ, ◌≡◌, refl, true, false, none, some, [], ◌∷◌}
use cargo_mutants.Span.{LineColumn}
use cargo_mutants.Source.{SourceFile, Package, with_text}
use cargo_mutants.Source.Load.{IsLoaded}
use cargo_mutants.Mutant.{Mutant, binary_operator}

abbrev pub crate : Package
crate = record { name = codes "x"; version = codes "0.1.0"; relative_dir = []; top_sources = [] }

abbrev pub file : SourceFile
file =
    with_text (codes "src" ∷ codes "lib.rs" ∷ []) crate true
      (codes "fn f() -> bool {\n    1 == 2\n}\n")

abbrev pub file_IsLoaded : IsLoaded file
file_IsLoaded = record { index = refl; slashes = refl }

abbrev pub at : ℕ → ℕ → LineColumn
at line column = record { line = line; column = column }

-- `==` replaced by `!=`
abbrev pub mutant : Mutant
mutant = record {
  source_file = file;
  function = none;
  span = record { start = at 2 7; end = at 2 9 };
  short_replaced = none;
  replacement = codes "!=";
  genre = binary_operator;
  target = none;
  const_eval = false;
}

-- The name of the mutant
pub mutant_name : full_name mutant ≡ some (codes "src/lib.rs:2:7: replace == with !=")
unfolding full_name describe_change describe_parts original_text extract_indexed byte_range
    byte_offset offset_on_line scan_line new_index slice normalized contains to_slash_path
    show_usize
mutant_name = refl
