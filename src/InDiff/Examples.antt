-- ===== src/InDiff/Examples.antt =====
-- Tests of the filter, and the theorems at a concrete diff.
use cargo_mutants.Prelude.Text.{codes, lines}
use cargo_mutants.Prelude.{◌≡◌, refl, ◌↔◌, true, none, some, List, [], ◌∷◌, arith, All, ok}
use cargo_mutants.Mutant.{Mutant}
use cargo_mutants.Mutant.Samples.{mutant}
use cargo_mutants.InDiff.{
  delete, insert, context, Patch, affected_lines, check_diff_new_text_matches, check_patch,
  check_source, source_by_name, strip_patch_path, check_lines, partial_new_file, new_lines_of,
  new_lines, source_line, reverse_onto, walk_hunks, walk, mark_line, after_removed, mark,
}
use cargo_mutants.Source.{normalized, contains}
use cargo_mutants.InDiff.Affected.{Has, AffectedByHunks, affected_lines_iff}
use cargo_mutants.InDiff.Filter.{
  binary_search, filter_patches, diff_filter, changed_rs_file, result_of, matched, touches,
  any_line, at_index, search_from, changes_source, patch_path, has_rs_extension, lines_changed,
  extend_entry, get_entry,
}
use cargo_mutants.InDiff.Check.{Agrees, check_diff_iff}
use cargo_mutants.InDiff.Kept.{
  Selected, Intersects, WellFormed, source_patches, filter_patches-Selected,
}

-- The second line of the file of `mutant` is new, and replaces a line.
abbrev patch : Patch
patch = record {
  modified = some (codes "b/src/lib.rs");
  hunks =
      record {
        new_start = 1;
        hunk_lines =
            context (codes "fn f() -> bool {")
            ∷ delete (codes "    false")
            ∷ insert (codes "    1 == 2")
            ∷ context (codes "}")
            ∷ [];
      }
      ∷ [];
}

affected_test : affected_lines patch ≡ 1 ∷ 2 ∷ []
unfolding affected_lines reverse_onto walk_hunks walk mark_line after_removed mark
affected_test = refl

-- Where no line follows a deleted one in its hunk, the line after it is not marked.
deleted_at_end :
    affected_lines (record {
      modified = none;
      hunks = record { new_start = 4; hunk_lines = delete (codes "x") ∷ [] } ∷ [];
    })
    ≡ 3 ∷ []
unfolding affected_lines reverse_onto walk_hunks walk mark_line after_removed mark
deleted_at_end = refl

kept_test : diff_filter (λ t. ok (patch ∷ [])) (mutant ∷ []) [] ≡ ok (mutant ∷ [])
unfolding diff_filter filter_patches check_diff_new_text_matches check_patch check_source
    source_by_name strip_patch_path check_lines partial_new_file new_lines_of new_lines source_line
    lines normalized contains result_of matched touches any_line at_index search_from binary_search
    changed_rs_file changes_source patch_path has_rs_extension lines_changed extend_entry get_entry
    affected_lines reverse_onto walk_hunks walk mark_line after_removed mark
kept_test = refl

affected_lines_iff_example : Has 2 (affected_lines patch) ↔ AffectedByHunks 2 patch.hunks
affected_lines_iff_example = affected_lines_iff 2 patch

binary_search_test : binary_search (1 ∷ 4 ∷ 7 ∷ []) 4 ≡ true
unfolding binary_search search_from at_index
binary_search_test = refl

check_diff_iff_example :
    (check_diff_new_text_matches (patch ∷ []) (mutant ∷ []) ≡ ok tt)
    ↔ All (λ (p : Patch). Agrees (mutant ∷ []) p p.modified) (patch ∷ [])
check_diff_iff_example = check_diff_iff (patch ∷ []) (mutant ∷ [])

checked : check_diff_new_text_matches (patch ∷ []) (mutant ∷ []) ≡ ok tt
unfolding check_diff_new_text_matches check_patch check_source source_by_name strip_patch_path
    check_lines partial_new_file new_lines_of new_lines source_line lines normalized contains
checked = refl

well_formed : WellFormed (patch ∷ [])
unfolding source_patches changes_source patch_path strip_patch_path has_rs_extension
well_formed = record { distinct = (tt, tt); ordered = ((omega arith, tt), tt) }

filter_patches-Selected_example :
    (kept : List Mutant) × Selected (Intersects (source_patches (patch ∷ []))) (mutant ∷ []) kept
    × (filter_patches (mutant ∷ []) (patch ∷ []) ≡ result_of (changed_rs_file (patch ∷ [])) kept)
filter_patches-Selected_example = filter_patches-Selected (mutant ∷ []) patch [] well_formed checked
