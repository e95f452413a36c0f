-- ===== src/Mutant/Examples.antt =====
-- Tests of mutants, and the theorems at a concrete mutant.
use cargo_mutants.Prelude.Text.{Text, codes, show_usize}
use cargo_mutants.Prelude.Bytes.{width, slice}
use cargo_mutants.Prelude.{◌-◌, max, ◌≡◌, refl, false, none, some, ◌++◌, arith}
use cargo_mutants.Span.{
  new_index, byte_range, byte_offset, offset_on_line, scan_line, replace_indexed, line_start,
  newline_offsets,
}
use cargo_mutants.Source.{normalized, contains}
use cargo_mutants.Mutant.{
  mutated_code, full_name, describe_change, name, squash_lines, replacement_with_marker,
}
use cargo_mutants.Mutant.Name.{full_name-total}
use cargo_mutants.Mutant.Diff.{diff_window, renumber_hunk_header, Window}
use cargo_mutants.Mutant.Diff.Surround.{Surrounds, window_end, diff_window-Surrounds}
use cargo_mutants.Mutant.Diff.Headers.{show_header, renumber_hunk_header-show}
use cargo_mutants.Mutant.Samples.{file_IsLoaded, mutant, file}

mutant_code :
    mutated_code mutant
    ≡ some (codes "fn f() -> bool {\n    1 != /* ~ changed by cargo-mutants ~ */ 2\n}\n")
unfolding mutated_code replacement_with_marker replace_indexed byte_range byte_offset offset_on_line
    scan_line new_index slice normalized contains
mutant_code = refl

squash_test : squash_lines (codes "a\n   b \n  c") ≡ codes "a b c"
unfolding squash_lines
squash_test = refl

full_name-total_example :
    (d : Text) × (describe_change mutant ≡ some d)
    × (full_name mutant
        ≡ some (
            mutant.source_file.slash_path
            ++ (codes ":" ++ (show_usize 2 ++ (codes ":" ++ (show_usize 7 ++ (codes ": " ++ d)))))))
    × (name mutant false ≡ some (mutant.source_file.slash_path ++ (codes ": " ++ d)))
full_name-total_example = full_name-total mutant file_IsLoaded tt

second_line : line_start file.line_index 2 ≡ some 17
unfolding line_start new_index newline_offsets normalized contains width
second_line = refl

diff_window-Surrounds_example :
    (w : Window) × (diff_window mutant ≡ some (some w))
    × Surrounds mutant (max (2 - 8) 1) (window_end mutant) w
diff_window-Surrounds_example =
    diff_window-Surrounds mutant 17 file_IsLoaded second_line (omega arith)

renumber_hunk_header-show_example :
    renumber_hunk_header (show_header 1 (some 5) 3 none (codes "\n")) 40
    ≡ some (show_header 41 (some 5) 43 none (codes "\n"))
renumber_hunk_header-show_example =
    renumber_hunk_header-show 1 (some 5) 3 none 40 (codes "\n") (omega arith) (omega arith)
