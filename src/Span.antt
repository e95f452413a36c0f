-- ===== src/Span.antt =====
-- Positions and spans in source text, and the index of line starts: src/span.rs. A `none` is a
-- panic, which slicing off a character boundary or out of range would cause.
pub mod Reference
pub mod Resolve
pub mod Replace
pub mod Order
pub mod Lines
mod Examples
use Prim.Native.Nat.{max}
use mathlib.Core.Option
use cargo_mutants.Prelude.Text.{Text}
use cargo_mutants.Prelude.Bytes.{width, byte_len, slice}
use cargo_mutants.Prelude.{
  ℕ, zero, suc, ◌+◌, Option, none, some, List, [], ◌∷◌, ◌++◌, map, leb, ◌==◌, if◌then◌else◌,
  get_elem?,
}
use cargo_mutants.Prelude.Maybe.{◌>>=◌, unwrap_or}

-- `struct LineColumn`
pub record LineColumn : Type 0 where
  pub line : ℕ
  pub column : ℕ

-- `struct Span`: the start is inclusive, the end exclusive.
pub record Span : Type 0 where
  pub start : LineColumn
  pub end : LineColumn

-- `struct LineIndex`
pub record LineIndex : Type 0 where
  pub line_starts : List ℕ

-- `match_indices('\n')`: the offsets of the line ends of a text that starts at `offset`
unfoldable pub newline_offsets : ℕ → Text → List ℕ
newline_offsets offset [] = []
newline_offsets offset (c ∷ s) =
    let rest = newline_offsets (offset + width c) s in if c == b'\n' then offset ∷ rest else rest

-- `LineIndex::new`
unfoldable pub new_index : Text → LineIndex
unfolding newline_offsets
new_index s = record { line_starts = 0 ∷ map (λ i. i + 1) (newline_offsets 0 s) }

-- `LineIndex::line_start`; lines count from 1
unfoldable pub line_start : LineIndex → ℕ → Option ℕ
line_start index zero = none
line_start index (suc line) = get_elem? index.line_starts line

-- The loop of `byte_offset` over the characters of a line: the offset of the first one at or after
-- the wanted column. A carriage return shares the column of the character that follows it.
unfoldable pub scan_line : ℕ → ℕ → ℕ → Text → Option ℕ
scan_line wanted column offset [] = none
scan_line wanted column offset (c ∷ s) =
    let rest = scan_line wanted (if c == b'\r' then column else column + 1) (offset + width c) s in
    if leb wanted column then some offset else rest

-- The rest of `byte_offset`, for a line that counts from 0
unfoldable pub offset_on_line : List ℕ → Text → ℕ → ℕ → Option ℕ
offset_on_line line_starts s column line = elim (get_elem? line_starts line) [
  | none ↦ some (byte_len s)
  | some line_start ↦
      let line_end = unwrap_or (byte_len s) (get_elem? line_starts (suc line)) in
      Option.map (λ text. unwrap_or line_end (scan_line column 1 line_start text))
        (slice line_start line_end s)
]

unfoldable pub offset_from : LineIndex → Text → ℕ → ℕ → Option ℕ
offset_from index s column zero = some 0
offset_from index s column (suc line) = offset_on_line index.line_starts s column line

-- `LineIndex::byte_offset`
unfoldable pub byte_offset : LineIndex → Text → LineColumn → Option ℕ
unfolding offset_from
byte_offset index s pos = offset_from index s pos.column pos.line

-- `Span::byte_range`: the end is clamped to the start.
unfoldable pub byte_range : Span → Text → LineIndex → Option (ℕ × ℕ)
byte_range span s index = do
  start ← byte_offset index s span.start
  end ← byte_offset index s span.end
  some (start, max end start)

-- `Span::extract_indexed`
unfoldable pub extract_indexed : Span → Text → LineIndex → Option Text
extract_indexed span s index = do (start, end) ← byte_range span s index; slice start end s

-- `Span::replace_indexed`
unfoldable pub replace_indexed : Span → Text → LineIndex → Text → Option Text
replace_indexed span s index replacement = do
  (start, end) ← byte_range span s index
  before ← slice 0 start s
  after ← slice end (byte_len s) s
  some (before ++ (replacement ++ after))
