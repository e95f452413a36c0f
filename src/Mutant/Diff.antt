-- ===== src/Mutant/Diff.antt =====
-- The diff of a mutant, computed over a window of the file, and the renumbering of its hunk headers.
-- `TextDiff::from_lines(old, new).unified_diff()…` is a third-party library: the parameter
-- `unified_diff`, from the old and the new text.
pub mod Surround
pub mod Headers
use mathlib.Core.Option
use cargo_mutants.Prelude.Text.{
  Text, codes, usize_mod, parse_usize, show_usize, split_once, strip_prefix, prepend,
}
use cargo_mutants.Prelude.Bytes.{byte_len, slice}
use cargo_mutants.Prelude.{
  ℕ, zero, suc, ◌+◌, ◌-◌, max, ◌%◌, Option, none, some, List, [], ◌∷◌, ◌++◌, map, leb, ◌==◌,
  if◌then◌else◌,
}
use cargo_mutants.Prelude.Maybe.{◌>>=◌, unwrap_or}
use cargo_mutants.Span.{byte_range, line_start}
use cargo_mutants.Mutant.{Mutant, mutated_code, replacement_with_marker}

-- `str::split_once` at a text
unfoldable pub split_once_at : Text → Text → Option (Text × Text)
split_once_at pat [] = Option.map (λ rest. ([], rest)) (strip_prefix pat [])
split_once_at pat (c ∷ s) =
    let later = Option.map (λ (p : Text × Text). (c ∷ p.0, p.1)) (split_once_at pat s) in
    elim (strip_prefix pat (c ∷ s)) [ some rest ↦ some ([], rest) | none ↦ later ]

-- `shift_hunk_range`, as it is built for release: a sum of 2^64 or more wraps around
abbrev pub shift_start : ℕ → ℕ → ℕ
shift_start offset start = if start == 0 then 0 else (start + offset) % usize_mod

unfoldable pub shift_hunk_range : Text → ℕ → Option Text
shift_hunk_range range offset = elim (split_once b',' range) [
  | some (start, count) ↦
      Option.map (λ n. show_usize (shift_start offset n) ++ (b',' ∷ count)) (parse_usize start)
  | none ↦ Option.map (λ n. show_usize (shift_start offset n)) (parse_usize range)
]

abbrev pub header_start : Text
header_start = codes "@@ -"

abbrev pub header_middle : Text
header_middle = codes " +"

abbrev pub header_end : Text
header_end = codes " @@"

-- `renumber_hunk_header`
unfoldable pub renumber_hunk_header : Text → ℕ → Option Text
renumber_hunk_header line offset = do
  rest ← strip_prefix header_start line
  (old, rest) ← split_once_at header_middle rest
  (new, tail) ← split_once_at header_end rest
  old ← shift_hunk_range old offset
  new ← shift_hunk_range new offset
  some (header_start ++ (old ++ (header_middle ++ (new ++ (header_end ++ tail)))))

-- `str::split_inclusive('\n')`
unfoldable pub split_inclusive : Text → List Text
split_inclusive [] = []
split_inclusive (c ∷ s) =
    let rest = split_inclusive s in if c == b'\n' then (c ∷ []) ∷ rest else prepend c rest

abbrev renumber_line : ℕ → Text → Text
renumber_line offset line = unwrap_or line (renumber_hunk_header line offset)

abbrev pub concat : List Text → Text
concat [] = []
concat (s ∷ ss) = s ++ concat ss

-- `renumber_hunks`
unfoldable pub renumber_hunks : Text → ℕ → Text
renumber_hunks diff zero = diff
renumber_hunks diff (suc offset) = concat (map (renumber_line (suc offset)) (split_inclusive diff))

-- `DIFF_CONTEXT_LINES`
abbrev pub context_lines : ℕ
context_lines = 8

-- What `diff` computes over: the first line of the window, and the text in it before and after the
-- mutation.
pub record Window : Type 0 where
  pub first_line : ℕ
  pub old : Text
  pub new : Text

-- The window of `Mutant::diff`, with the byte range of the span; `none` inside is the fall-back to
-- the whole file, and `none` outside a panic.
pub window_from : Mutant → ℕ → ℕ → ℕ → Option ℕ → Option (Option Window)
window_from m lo hi first_line none = some none
window_from m lo hi first_line (some win_lo) =
    let orig = m.source_file.code in
    let found = do
      let after = line_start m.source_file.line_index (m.span.end.line + context_lines + 1)
      let win_hi = max (unwrap_or (byte_len orig) after) hi
      before ← slice win_lo lo orig
      behind ← slice hi win_hi orig
      old ← slice win_lo win_hi orig
      some (
          some (record {
            first_line = first_line;
            old = old;
            new = before ++ (replacement_with_marker m ++ behind);
          }))
    in if leb win_lo lo then found else some none

unfoldable pub diff_window : Mutant → Option (Option Window)
unfolding window_from
diff_window m = do
  (lo, hi) ← byte_range m.span m.source_file.code m.source_file.line_index
  let first_line = max (m.span.start.line - context_lines) 1
  window_from m lo hi first_line (line_start m.source_file.line_index first_line)

-- `Mutant::diff`
unfoldable pub diff : (Text → Text → Text) → Mutant → Option Text
diff unified_diff m = do
  window ← diff_window m
  elim window [
    | some w ↦ some (renumber_hunks (unified_diff w.old w.new) (w.first_line - 1))
    | none ↦ Option.map (λ code. unified_diff m.source_file.code code) (mutated_code m)
  ]
