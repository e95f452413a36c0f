-- ===== src/Span/Resolve.antt =====
-- The index of lines resolves every position to the offset that a scan of the whole text finds.
use mathlib.Core.Option
use cargo_mutants.Prelude.Text.{Text}
use cargo_mutants.Prelude.Bytes.{width, byte_len, slice, slice-append, byte_len-append}
use cargo_mutants.Prelude.{
  ℕ, zero, suc, ◌+◌, ◌<◌, ◌≡◌, refl, subst, sym, ap, ◌∙◌, inl, inr, true, false, some, List, [],
  ◌∷◌, ◌++◌, map, append_assoc, arith, ◌==◌, if◌then◌else◌, lt→ltb, ==→eq, Bool-cases,
}
use cargo_mutants.Prelude.Maybe.{unwrap_or}
use cargo_mutants.Span.{
  LineColumn, newline_offsets, new_index, scan_line, offset_on_line, offset_from, byte_offset,
}
use cargo_mutants.Span.Reference.{
  scan, offset_of, first_line, next_lines, first-next, has_line_end, scan-later_line, scan-no_line,
  width-line_end,
}

-- the starts of the lines after the first, in a text at `offset`
abbrev later_starts : ℕ → Text → List ℕ
later_starts offset s = map (λ i. i + 1) (newline_offsets offset s)

later_starts-line_end :
    (offset : ℕ) (s : Text)
    → has_line_end s ≡ true
    → later_starts offset s
      ≡ (offset + byte_len (first_line s))
        ∷ later_starts (offset + byte_len (first_line s)) (next_lines s)
unfolding newline_offsets has_line_end first_line next_lines byte_len
later_starts-line_end offset [] e = cc
later_starts-line_end offset (c ∷ s) e = elim (Bool-cases (c == b'\n')) [
  | inl p ↦
      let f : offset + (width c + 0) ≡ offset + 1 = ground (arith, width-line_end, ==→eq c b'\n') in
      let g : offset + width c ≡ offset + 1 = ground (arith, width-line_end, ==→eq c b'\n') in
      rw p (rw f (rw g))
  | inr p ↦ rw p (
      later_starts-line_end (offset + width c) s (rw p at e)
      ∙ (let f : offset + width c + byte_len (first_line s)
              ≡ offset + (width c + byte_len (first_line s)) =
            omega arith in
          rw f))
]

newline_offsets-none :
    (offset : ℕ) (s : Text) → has_line_end s ≡ false → newline_offsets offset s ≡ []
unfolding newline_offsets has_line_end
newline_offsets-none offset [] e = refl
newline_offsets-none offset (c ∷ s) e = ground (arith, newline_offsets-none (offset + width c) s)

first_line-none : (s : Text) → has_line_end s ≡ false → first_line s ≡ s
unfolding first_line has_line_end
first_line-none [] e = refl
first_line-none (c ∷ s) e = ground (arith, first_line-none s)

scan-past :
    (pos : LineColumn) (line column offset : ℕ) (s : Text)
    → pos.line < line
    → scan pos line column offset s ≡ offset
unfolding scan
scan-past pos line column offset [] h = refl
scan-past pos line column offset (c ∷ s) h = rw (lt→ltb pos.line line h)

-- On the wanted line, the loop over its characters and the scan agree.
scan_line-eq-scan :
    (pos : LineColumn) (column offset : ℕ) (s : Text)
    → unwrap_or
        (offset + byte_len (first_line s))
        (scan_line pos.column column offset (first_line s))
      ≡ scan pos pos.line column offset s
unfolding scan scan_line first_line byte_len
scan_line-eq-scan pos column offset [] = omega arith
scan_line-eq-scan pos column offset (c ∷ s) = ground (
  arith,
  scan_line-eq-scan pos (if c == b'\r' then column else column + 1) (offset + width c) s,
  scan-past pos (pos.line + 1) 1 (offset + width c) s,
)

slice-first_line :
    (pre s : Text)
    → slice (byte_len pre) (byte_len pre + byte_len (first_line s)) (pre ++ s) ≡ some (first_line s)
slice-first_line pre s =
    subst
      (λ t.
        slice (byte_len pre) (byte_len pre + byte_len (first_line s)) (pre ++ t)
        ≡ some (first_line s))
      (first-next s) (slice-append pre (first_line s) (next_lines s))

offset_within_line :
    (pos : LineColumn) (line line_end : ℕ) (pre s : Text)
    → line + 0 ≡ pos.line
    → line_end ≡ byte_len pre + byte_len (first_line s)
    → Option.map
        (λ text. unwrap_or line_end (scan_line pos.column 1 (byte_len pre) text))
        (slice (byte_len pre) line_end (pre ++ s))
      ≡ some (scan pos line 1 (byte_len pre) s)
offset_within_line pos line line_end pre s h e =
    let f : line ≡ pos.line = omega arith in
    rw (e, f, slice-first_line pre s) (ap some (scan_line-eq-scan pos 1 (byte_len pre) s))

-- The invariant of the index: `pre` is the text of the lines before, and `s` starts the line `line`.
offset_on_line-eq-scan :
    (pos : LineColumn) (k line : ℕ) (pre s : Text)
    → line + k ≡ pos.line
    → offset_on_line (byte_len pre ∷ later_starts (byte_len pre) s) (pre ++ s) pos.column k
      ≡ some (scan pos line 1 (byte_len pre) s)
unfolding offset_on_line
offset_on_line-eq-scan pos zero line pre s h = elim (Bool-cases (has_line_end s)) [
  | inl e ↦
      rw (later_starts-line_end (byte_len pre) s e) (offset_within_line pos line _ pre s h refl)
  | inr e ↦
      rw (newline_offsets-none (byte_len pre) s e)
        (offset_within_line pos line _ pre s h (byte_len-append pre s ∙ rw (first_line-none s e)))
]
offset_on_line-eq-scan pos (suc k) line pre s h = elim (Bool-cases (has_line_end s)) [
  | inl e ↦ rw (later_starts-line_end (byte_len pre) s e) (
      (simp (byte_len-append, append_assoc, first-next) at
        (offset_on_line-eq-scan pos k (line + 1) (pre ++ first_line s) (next_lines s)
          (omega arith)))
      ∙ ap some (sym (scan-later_line pos line 1 (byte_len pre) s (omega arith) e)))
  | inr e ↦ rw (newline_offsets-none (byte_len pre) s e) (
      ap some
        (byte_len-append pre s ∙ sym (scan-no_line pos line 1 (byte_len pre) s (omega arith) e)))
]

scan-line_zero : (pos : LineColumn) (s : Text) → pos.line ≡ 0 → scan pos 1 1 0 s ≡ 0
scan-line_zero pos s h = scan-past pos 1 1 0 s (omega arith)

offset_from-eq-scan :
    (pos : LineColumn) (line : ℕ) (s : Text)
    → pos.line ≡ line
    → offset_from (new_index s) s pos.column line ≡ some (scan pos 1 1 0 s)
unfolding offset_from new_index
offset_from-eq-scan pos zero s h = ap some (sym (scan-line_zero pos s h))
offset_from-eq-scan pos (suc k) s h =
    (unfold byte_len in offset_on_line-eq-scan pos k 1 [] s (omega arith))

-- With the index of a text, every position resolves, without a panic, to the offset that a scan of
-- the whole text finds.
pub byte_offset-eq-offset_of :
    (s : Text) (pos : LineColumn) → byte_offset (new_index s) s pos ≡ some (offset_of s pos)
unfolding byte_offset offset_of
byte_offset-eq-offset_of s pos = offset_from-eq-scan pos pos.line s refl
