-- ===== src/Span/Order.antt =====
-- Positions in order resolve to offsets in order, so the clamp of `byte_range` does nothing to a span
-- whose start is not after its end.
use cargo_mutants.Prelude.Text.{Text}
use cargo_mutants.Prelude.Bytes.{width}
use cargo_mutants.Prelude.{
  ℕ, ◌+◌, ◌≤◌, ◌<◌, ◌≡◌, refl, ◌⊎◌, Bool, true, false, false≢true, some, [], ◌∷◌, arith, ◌==◌,
  if◌then◌else◌,
}
use cargo_mutants.Span.{LineColumn, Span, new_index, byte_range}
use cargo_mutants.Span.Reference.{reached, scan, offset_of}
use cargo_mutants.Span.Resolve.{byte_offset-eq-offset_of}

abbrev pub IsBefore : LineColumn → LineColumn → Type 0
IsBefore a b = (a.line < b.line) ⊎ ((a.line ≡ b.line) × (a.column ≤ b.column))

scan-ge :
    (pos : LineColumn) (line column offset : ℕ) (s : Text) → offset ≤ scan pos line column offset s
unfolding scan
scan-ge pos line column offset [] = omega arith
scan-ge pos line column offset (c ∷ s) =
    let line' = if c == b'\n' then line + 1 else line in
    let column' = if c == b'\n' then 1 else if c == b'\r' then column else column + 1 in
    ground (arith, scan-ge pos line' column' (offset + width c) s)

reached_mono :
    (a b : LineColumn) (line column : ℕ)
    → IsBefore a b
    → reached b line column ≡ true
    → reached a line column ≡ true
reached_mono a b line column h r = ground arith

if_le :
    {x y z : ℕ} (p q : Bool)
    → (q ≡ true → p ≡ true)
    → x ≤ z
    → y ≤ z
    → (if p then x else y) ≤ (if q then x else z)
if_le true true h k l = omega arith
if_le true false h k l = k
if_le false true h k l = absurd (false≢true (h refl))
if_le false false h k l = l

scan_mono :
    (a b : LineColumn) (line column offset : ℕ) (s : Text)
    → IsBefore a b
    → scan a line column offset s ≤ scan b line column offset s
unfolding scan
scan_mono a b line column offset [] h = omega arith
scan_mono a b line column offset (c ∷ s) h =
    let line' = if c == b'\n' then line + 1 else line in
    let column' = if c == b'\n' then 1 else if c == b'\r' then column else column + 1 in
    let ih = scan_mono a b line' column' (offset + width c) s h in
    let low = scan-ge b line' column' (offset + width c) s in
    if_le (reached a line column) (reached b line column) (reached_mono a b line column h)
      (omega arith) ih

-- Positions in order have offsets in order.
pub offset_of_mono : (s : Text) (a b : LineColumn) → IsBefore a b → offset_of s a ≤ offset_of s b
unfolding offset_of
offset_of_mono s a b h = scan_mono a b 1 1 0 s h

-- A span whose start is not after its end resolves to the offsets of its two ends.
pub byte_range-ordered :
    (span : Span) (s : Text)
    → IsBefore span.start span.end
    → byte_range span s (new_index s) ≡ some (offset_of s span.start, offset_of s span.end)
unfolding byte_range
byte_range-ordered span s h =
    rw (byte_offset-eq-offset_of s span.start, byte_offset-eq-offset_of s span.end)
      (ground (arith, offset_of_mono s span.start span.end h))
