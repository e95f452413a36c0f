-- ===== src/InDiff.antt =====
-- Filtering mutants to those that a diff touches: src/in_diff.rs. The parser of diffs, the crate
-- flickzeug, is a parameter; its `Line` and the parts of its `Diff` that are read are data.
pub mod Affected
pub mod Search
pub mod Filter
pub mod Kept
pub mod Check
mod Examples
use cargo_mutants.Prelude.Text.{Text, codes, text_eq, lines}
use cargo_mutants.Prelude.{
  ℕ, zero, suc, ◌+◌, ◌-◌, Bool, true, false, Option, none, some, List, [], ◌∷◌, ◌++◌, ltb, ◌==◌,
  if◌then◌else◌, get_elem?, Result, ok, err, ◌>>=◌, ◌>>◌,
}
use cargo_mutants.Prelude.Maybe.{unwrap_or}
use cargo_mutants.Paths.{FilePath, components, path_eq, strip_path_prefix}
use cargo_mutants.Source.{SourceFile}
use cargo_mutants.Mutant.{Mutant}
use cargo_mutants.Outcome.{ExitCode, filter_diff_mismatch, filter_diff_invalid}

-- `flickzeug::Line`, the text without its line end
pub data Line : Type 0 where
  delete insert context : Text → Line

-- The parts of a `Hunk` that are read: `new_range().start()` and `lines()`
pub record Hunk : Type 0 where
  pub new_start : ℕ
  pub hunk_lines : List Line

-- The parts of a `Diff` that are read: `modified()` and `hunks()`
pub record Patch : Type 0 where
  pub modified : Option Text
  pub hunks : List Hunk

-- What a mismatch reports: the file, the line, and what the diff and the source have there
pub record Mismatch : Type 0 where
  pub path : FilePath
  pub lineno : ℕ
  pub diff_content : Text
  pub source_content : Text

-- `enum DiffFilterError`
pub data DiffFilterError : Type 0 where
  empty_diff : DiffFilterError
  mismatched_diff : Mismatch → DiffFilterError
  no_mutants no_source_files : DiffFilterError
  invalid_diff file_error : Text → DiffFilterError

-- `DiffFilterError::exit_code`
unfoldable pub error_exit_code : DiffFilterError → ExitCode
error_exit_code empty_diff = ExitCode.success
error_exit_code no_source_files = ExitCode.success
error_exit_code no_mutants = ExitCode.success
error_exit_code (mismatched_diff m) = filter_diff_mismatch
error_exit_code (invalid_diff msg) = filter_diff_invalid
error_exit_code (file_error msg) = filter_diff_invalid

-- `strip_patch_path`
unfoldable pub strip_patch_path : Text → FilePath
unfolding components strip_path_prefix
strip_patch_path path =
    unwrap_or (components path) (strip_path_prefix (codes "b" ∷ []) (components path))

-- The state of the loop of `affected_lines`; a `Vec` is kept with its last element first.
pub record Walk : Type 0 where
  pub affected : List ℕ
  pub lineno : ℕ
  pub prev_removed : Bool

-- Push `n` unless it is the last element.
unfoldable pub mark : ℕ → List ℕ → List ℕ
mark n [] = n ∷ []
mark n (m ∷ acc) = if m == n then m ∷ acc else n ∷ m ∷ acc

-- The first `match` of the loop
unfoldable pub after_removed : Line → Walk → Walk
after_removed (delete t) w = record w { prev_removed = true }
after_removed l w =
    if w.prev_removed
    then record w { affected = w.lineno ∷ w.affected; prev_removed = false }
    else w

-- The second `match` of the loop
unfoldable pub mark_line : Line → Walk → Walk
mark_line (context t) w = record w { lineno = w.lineno + 1 }
mark_line (insert t) w = record w { affected = mark w.lineno w.affected; lineno = w.lineno + 1 }
mark_line (delete t) w =
    if ltb 1 w.lineno then record w { affected = mark (w.lineno - 1) w.affected } else w

unfoldable pub walk : List Line → Walk → Walk
walk [] w = w
walk (l ∷ ls) w = walk ls (mark_line l (after_removed l w))

unfoldable pub walk_hunks : List Hunk → List ℕ → List ℕ
walk_hunks [] acc = acc
walk_hunks (h ∷ hs) acc =
    walk_hunks hs
      (walk h.hunk_lines
        (record { affected = acc; lineno = h.new_start; prev_removed = false })).affected

unfoldable pub reverse_onto : List ℕ → List ℕ → List ℕ
reverse_onto [] acc = acc
reverse_onto (x ∷ xs) acc = reverse_onto xs (x ∷ acc)

-- `affected_lines`
unfoldable pub affected_lines : Patch → List ℕ
affected_lines patch = reverse_onto (walk_hunks patch.hunks []) []

-- The inner and the outer loop of `partial_new_file`
unfoldable pub new_lines : ℕ → List Line → List (ℕ × Text)
new_lines lineno [] = []
new_lines lineno (delete t ∷ ls) = new_lines lineno ls
new_lines lineno (insert t ∷ ls) = (lineno, t) ∷ new_lines (lineno + 1) ls
new_lines lineno (context t ∷ ls) = (lineno, t) ∷ new_lines (lineno + 1) ls

unfoldable pub new_lines_of : List Hunk → List (ℕ × Text)
new_lines_of [] = []
new_lines_of (h ∷ hs) = new_lines h.new_start h.hunk_lines ++ new_lines_of hs

-- `partial_new_file`
unfoldable pub partial_new_file : Patch → List (ℕ × Text)
partial_new_file patch = new_lines_of patch.hunks

-- `lines.get(lineno - 1).unwrap_or(&"")`; for line 0, which a diff does not have, the index wraps
-- around and is out of range.
unfoldable pub source_line : List Text → ℕ → Text
source_line source zero = []
source_line source (suc i) = unwrap_or [] (get_elem? source i)

-- The inner loop of `check_diff_new_text_matches`
unfoldable pub check_lines : FilePath → List Text → List (ℕ × Text) → Result Mismatch (Unit {0})
check_lines path source [] = ok tt
check_lines path source ((n, content) ∷ rest) =
    if text_eq content (source_line source n)
    then check_lines path source rest
    else err (record {
      path = path;
      lineno = n;
      diff_content = content;
      source_content = source_line source n;
    })

-- `source_by_name.get(&path)`: the file of the first mutant in it
unfoldable pub source_by_name : FilePath → List Mutant → Option SourceFile
source_by_name path [] = none
source_by_name path (m ∷ ms) =
    if path_eq m.source_file.tree_relative_path path
    then some m.source_file
    else source_by_name path ms

unfoldable pub check_source : FilePath → Patch → Option SourceFile → Result Mismatch (Unit {0})
check_source path patch none = ok tt
check_source path patch (some f) = check_lines path (lines f.code) (partial_new_file patch)

unfoldable pub check_patch : List Mutant → Patch → Option Text → Result Mismatch (Unit {0})
check_patch mutants patch none = ok tt
check_patch mutants patch (some modified) =
    let path = strip_patch_path modified in check_source path patch (source_by_name path mutants)

-- `check_diff_new_text_matches`
unfoldable pub check_diff_new_text_matches : List Patch → List Mutant → Result Mismatch (Unit {0})
check_diff_new_text_matches [] mutants = ok tt
check_diff_new_text_matches (patch ∷ patches) mutants = do
  check_patch mutants patch patch.modified
  check_diff_new_text_matches patches mutants
