-- ===== src/Span/Reference.antt =====
-- What a position means, with no index of lines: one scan from the start of the text.
use cargo_mutants.Prelude.{
  ℕ, ◌+◌, ◌<◌, ◌≡◌, refl, Bool, true, false, ◌&&◌, ◌||◌, [], ◌∷◌, ◌++◌, arith, ltb, leb, ◌==◌,
  if◌then◌else◌,
}
use cargo_mutants.Prelude.Text.{Text}
use cargo_mutants.Prelude.Bytes.{width, byte_len}
use cargo_mutants.Span.{LineColumn}

-- Is (line, column) at or after `pos`?
abbrev pub reached : LineColumn → ℕ → ℕ → Bool
reached pos line column = ltb pos.line line || line == pos.line && leb pos.column column

-- The offset of the first character at or after `pos`, where the text `s` begins at the byte
-- `offset`, on `line` and `column`. The scan ends with the text.
unfoldable pub scan : LineColumn → ℕ → ℕ → ℕ → Text → ℕ
scan pos line column offset [] = offset
scan pos line column offset (c ∷ s) =
    let line' = if c == b'\n' then line + 1 else line in
    let column' = if c == b'\n' then 1 else if c == b'\r' then column else column + 1 in
    let rest = scan pos line' column' (offset + width c) s in
    if reached pos line column then offset else rest

unfoldable pub offset_of : Text → LineColumn → ℕ
unfolding scan
offset_of s pos = scan pos 1 1 0 s

-- The text up to its first line end, and what follows.
unfoldable pub first_line : Text → Text
first_line [] = []
first_line (c ∷ s) = if c == b'\n' then c ∷ [] else c ∷ first_line s

unfoldable pub next_lines : Text → Text
next_lines [] = []
next_lines (c ∷ s) = if c == b'\n' then s else next_lines s

pub first-next : (s : Text) → first_line s ++ next_lines s ≡ s
unfolding first_line next_lines
first-next [] = refl
first-next (c ∷ s) = ground (arith, first-next s)

unfoldable pub has_line_end : Text → Bool
has_line_end [] = false
has_line_end (c ∷ s) = c == b'\n' || has_line_end s

pub width-line_end : width b'\n' ≡ 1
unfolding width
width-line_end = refl

-- Past a line that ends before `pos`, the scan goes on at the next one.
pub scan-later_line :
    (pos : LineColumn) (line column offset : ℕ) (s : Text)
    → line < pos.line
    → has_line_end s ≡ true
    → scan pos line column offset s
      ≡ scan pos (line + 1) 1 (offset + byte_len (first_line s)) (next_lines s)
unfolding scan first_line next_lines has_line_end byte_len
scan-later_line pos line column offset [] h e = cc
scan-later_line pos line column offset (c ∷ s) h e = ground (
  arith,
  scan-later_line pos line (if c == b'\r' then column else column + 1) (offset + width c) s,
  width-line_end,
)

pub scan-no_line :
    (pos : LineColumn) (line column offset : ℕ) (s : Text)
    → line < pos.line
    → has_line_end s ≡ false
    → scan pos line column offset s ≡ offset + byte_len s
unfolding scan has_line_end byte_len
scan-no_line pos line column offset [] h e = omega arith
scan-no_line pos line column offset (c ∷ s) h e =
    ground (
      arith,
      scan-no_line pos line (if c == b'\r' then column else column + 1) (offset + width c) s,
    )
