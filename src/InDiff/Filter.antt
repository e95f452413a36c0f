-- ===== src/InDiff/Filter.antt =====
-- The filter itself: `diff_filter` and `diff_filter_file` of src/in_diff.rs, with what it uses of
-- `slice::binary_search` and `HashMap`.
use cargo_mutants.Prelude.Text.{Text, codes, text_eq}
use cargo_mutants.Prelude.{
  ℕ, zero, suc, ◌+◌, ◌-◌, ◌/◌, Bool, false, not, ◌&&◌, ◌||◌, Option, none, some, List, [], ◌∷◌,
  ◌++◌, ltb, leb, ◌==◌, if◌then◌else◌, length, get_elem?, Result, ok, err,
}
use cargo_mutants.Prelude.Maybe.{unwrap_or}
use cargo_mutants.Paths.{FilePath, slash, path_eq}
use cargo_mutants.Mutant.{Mutant}
use cargo_mutants.InDiff.{
  Patch, DiffFilterError, empty_diff, mismatched_diff, no_mutants, no_source_files, invalid_diff,
  file_error, strip_patch_path, affected_lines, check_diff_new_text_matches,
}

-- `slice::binary_search(&x).is_ok()`: the loop halves the range of `size` elements from `base`,
-- and then the one element that is left is compared.
unfoldable pub at_index : List ℕ → ℕ → ℕ
at_index xs i = unwrap_or 0 (get_elem? xs i)

unfoldable pub search_from : ℕ → List ℕ → ℕ → ℕ → ℕ → ℕ
search_from zero xs x base size = base
search_from (suc fuel) xs x base size =
    let half = size / 2 in
    let left = search_from fuel xs x base (size - half) in
    let right = search_from fuel xs x (base + half) (size - half) in
    if leb size 1 then base else if ltb x (at_index xs (base + half)) then left else right

unfoldable pub binary_search : List ℕ → ℕ → Bool
binary_search [] x = false
binary_search (y ∷ ys) x =
    at_index (y ∷ ys) (search_from (length (y ∷ ys)) (y ∷ ys) x 0 (length (y ∷ ys))) == x

-- `path.extension() == Some("rs")`: what follows the last dot of the last component, where
-- something stands before that dot and the component is not `..`
unfoldable pub ends_rs : Text → Bool
ends_rs [] = false
ends_rs (c ∷ []) = false
ends_rs (c ∷ d ∷ s) = text_eq (d ∷ s) (codes ".rs") || ends_rs (d ∷ s)

unfoldable pub has_rs_extension : FilePath → Bool
unfolding ends_rs
has_rs_extension [] = false
has_rs_extension (c ∷ []) = ends_rs c
has_rs_extension (c ∷ d ∷ p) = has_rs_extension (d ∷ p)

-- `HashMap<&Utf8Path, Vec<usize>>`
abbrev pub LineMap : Type 0
LineMap = List (FilePath × List ℕ)

-- `lines_changed_by_path.entry(path).or_default().extend(more)`
unfoldable pub extend_entry : FilePath → List ℕ → LineMap → LineMap
extend_entry path more [] = (path, more) ∷ []
extend_entry path more ((q, ns) ∷ entries) =
    if path_eq q path then (q, ns ++ more) ∷ entries else (q, ns) ∷ extend_entry path more entries

-- `lines_changed_by_path.get(path)`
unfoldable pub get_entry : FilePath → LineMap → Option (List ℕ)
get_entry path [] = none
get_entry path ((q, ns) ∷ entries) = if path_eq q path then some ns else get_entry path entries

abbrev pub dev_null : FilePath
dev_null = slash ∷ codes "dev" ∷ codes "null" ∷ []

-- The path of a patch, and the test that it is of a Rust source file
unfoldable pub patch_path : Patch → FilePath
patch_path patch = strip_patch_path (unwrap_or [] patch.modified)

unfoldable pub changes_source : Patch → Bool
changes_source patch =
    not (path_eq (patch_path patch) dev_null) && has_rs_extension (patch_path patch)

-- The loop over the patches: the map, and `changed_rs_file`
unfoldable pub lines_changed : List Patch → LineMap → LineMap
lines_changed [] entries = entries
lines_changed (patch ∷ patches) entries = lines_changed patches (
    if changes_source patch
    then extend_entry (patch_path patch) (affected_lines patch) entries
    else entries)

unfoldable pub changed_rs_file : List Patch → Bool
changed_rs_file [] = false
changed_rs_file (patch ∷ patches) = changes_source patch || changed_rs_file patches

-- `for line in start..=end`: some of `count` lines from `line` is changed.
unfoldable pub any_line : ℕ → ℕ → List ℕ → Bool
any_line line zero changed = false
any_line line (suc count) changed = binary_search changed line || any_line (line + 1) count changed

unfoldable pub touches : Mutant → Option (List ℕ) → Bool
touches m none = false
touches m (some changed) =
    any_line m.span.start.line (m.span.end.line + 1 - m.span.start.line) changed

-- The loop over the mutants
unfoldable pub matched : LineMap → List Mutant → List Mutant
matched entries [] = []
matched entries (m ∷ ms) =
    if touches m (get_entry m.source_file.tree_relative_path entries)
    then m ∷ matched entries ms
    else matched entries ms

unfoldable pub result_of : Bool → List Mutant → Result DiffFilterError (List Mutant)
result_of changed [] = err (if changed then no_mutants else no_source_files)
result_of changed (m ∷ ms) = ok (m ∷ ms)

unfoldable pub filter_patches : List Mutant → List Patch → Result DiffFilterError (List Mutant)
filter_patches mutants [] = err empty_diff
filter_patches mutants (patch ∷ patches) =
    elim (check_diff_new_text_matches (patch ∷ patches) mutants) [
      | ok u ↦
          result_of (changed_rs_file (patch ∷ patches))
            (matched (lines_changed (patch ∷ patches) []) mutants)
      | err e ↦ err (mismatched_diff e)
    ]

module _ (patch_from_str : Text → Result Text (List Patch)) where
  -- `diff_filter`
  unfoldable pub diff_filter : List Mutant → Text → Result DiffFilterError (List Mutant)
  diff_filter mutants diff_text = elim (patch_from_str diff_text) [
    | ok patches ↦ filter_patches mutants patches
    | err e ↦ err (invalid_diff e)
  ]

  -- `diff_filter_file`, where `read_lossy` opens, reads and decodes a file
  unfoldable pub diff_filter_file :
      (FilePath → Result Text Text) → List Mutant → FilePath → Result DiffFilterError (List Mutant)
  unfolding diff_filter
  diff_filter_file read_lossy mutants diff_path = elim (read_lossy diff_path) [
    | ok diff_text ↦ diff_filter mutants diff_text
    | err e ↦ err (file_error e)
  ]
