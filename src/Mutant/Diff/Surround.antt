-- ===== src/Mutant/Diff/Surround.antt =====
-- The window of a diff: the file and the mutated file are the window's two sides with the same text
-- around them.
use cargo_mutants.Prelude.Text.{Text}
use cargo_mutants.Prelude.Bytes.{byte_len, slice, slice-append, byte_len-append}
use cargo_mutants.Prelude.{
  ℕ, zero, suc, ◌+◌, ◌-◌, ◌≤◌, max, ◌≡◌, refl, subst, sym, ap, ap₂, ◌∙◌, inl, inr, Option, none,
  some, [], ◌++◌, append-nil, append_assoc, arith, ltb, ltb→lt, le→leb, Bool-cases,
}
use cargo_mutants.Prelude.Maybe.{◌>>=◌, unwrap_or}
use cargo_mutants.Span.{byte_range, line_start, replace_indexed, LineColumn, new_index}
use cargo_mutants.Span.Replace.{IsBoundary, prefixes, Cut, cut, replace_cut, max-IsBoundary}
use cargo_mutants.Span.Reference.{offset_of}
use cargo_mutants.Span.Order.{IsBefore, offset_of_mono}
use cargo_mutants.Span.Lines.{line_start-IsBoundary, line_start-eq-offset_of, line_start-before}
use cargo_mutants.Source.Load.{IsLoaded}
use cargo_mutants.Mutant.{Mutant, mutated_code, replacement_with_marker}
use cargo_mutants.Mutant.Diff.{Window, diff_window, window_from, context_lines}

-- A slice of `s` that is known by what stands around it
slice_between :
    (a m b s : Text) (x y : ℕ)
    → s ≡ a ++ (m ++ b)
    → x ≡ byte_len a
    → y ≡ byte_len a + byte_len m
    → slice x y s ≡ some m
slice_between a m b s x y e ex ey = rw (e, ex, ey) (slice-append a m b)

-- The file and the mutated file around a window that starts at the line `first_line` and ends before
-- the byte `end`
pub record Surrounds (m : Mutant) (first_line end : ℕ) (w : Window) : Type 0 where
  pub above : Text
  pub below : Text
  pub first : w.first_line ≡ first_line
  pub ends : byte_len above + byte_len w.old ≡ end
  pub original : m.source_file.code ≡ above ++ (w.old ++ below)
  pub starts : line_start m.source_file.line_index w.first_line ≡ some (byte_len above)
  pub mutated : mutated_code m ≡ some (above ++ (w.new ++ below))

module _ (m : Mutant) (loaded : IsLoaded m.source_file) (c : Cut m.span m.source_file.code) where
  abbrev code : Text
  code = m.source_file.code

  mutated_cut : mutated_code m ≡ some (c.before ++ (replacement_with_marker m ++ c.after))
  unfolding mutated_code
  mutated_cut =
      subst
        (λ index.
          replace_indexed m.span code index (replacement_with_marker m)
          ≡ some (c.before ++ (replacement_with_marker m ++ c.after)))
        (sym loaded.index) (replace_cut m.span code c (replacement_with_marker m))

  -- With the window's ends at `win_lo` and `win_hi`, on either side of the span
  window_at :
      (first_line win_lo win_hi : ℕ)
      → line_start m.source_file.line_index first_line ≡ some win_lo
      → IsBoundary code win_lo
      → IsBoundary code win_hi
      → win_lo ≤ byte_len c.before
      → byte_len c.before + byte_len c.covered ≤ win_hi
      → (w : Window) × ((do
        before ← slice win_lo (byte_len c.before) code
        behind ← slice (byte_len c.before + byte_len c.covered) win_hi code
        old ← slice win_lo win_hi code
        some (
            some (record {
              first_line = first_line;
              old = old;
              new = before ++ (replacement_with_marker m ++ behind);
            })))
          ≡ some (some w))
        × Surrounds m first_line win_hi w
  window_at first_line win_lo win_hi start lo hi h k =
      let (m1, e1, r1) =
        prefixes lo.before lo.after c.before (c.covered ++ c.after) (sym lo.whole ∙ c.whole)
          (omega (arith, lo.size)) in
      let (m2, e2, r2) =
        prefixes (c.before ++ c.covered) c.after hi.before hi.after
          (append_assoc c.before c.covered c.after ∙ sym c.whole ∙ hi.whole)
          (omega (arith, hi.size, byte_len-append c.before c.covered)) in
      let r = replacement_with_marker m in
      let whole : code ≡ lo.before ++ (m1 ++ (c.covered ++ (m2 ++ hi.after))) =
        c.whole
        ∙ ap₂ (λ x y. x ++ (c.covered ++ y)) e1 r2
        ∙ append_assoc lo.before m1 (c.covered ++ (m2 ++ hi.after)) in
      let size1 : byte_len c.before ≡ byte_len lo.before + byte_len m1 =
        ap byte_len e1 ∙ byte_len-append lo.before m1 in
      let size2 : win_hi ≡ byte_len (c.before ++ c.covered) + byte_len m2 =
        sym hi.size ∙ ap byte_len e2 ∙ byte_len-append (c.before ++ c.covered) m2 in
      let sizes : win_hi ≡ byte_len lo.before + byte_len (m1 ++ (c.covered ++ m2)) = omega (
        arith,
        byte_len-append c.before c.covered,
        byte_len-append m1 (c.covered ++ m2),
        byte_len-append c.covered m2,
      ) in
      let same : code ≡ lo.before ++ ((m1 ++ (c.covered ++ m2)) ++ hi.after) =
        whole
        ∙ ap (λ t. lo.before ++ t)
            (sym (
              append_assoc m1 (c.covered ++ m2) hi.after
              ∙ ap (λ t. m1 ++ t) (append_assoc c.covered m2 hi.after))) in
      (
        record { first_line = first_line; old = m1 ++ (c.covered ++ m2); new = m1 ++ (r ++ m2) },
        rw (
          slice_between lo.before m1 (c.covered ++ (m2 ++ hi.after)) code win_lo (byte_len c.before)
              whole (sym lo.size) size1,
          slice_between (c.before ++ c.covered) m2 hi.after code
              (byte_len c.before + byte_len c.covered) win_hi
              (c.whole
                ∙ sym (append_assoc c.before c.covered c.after)
                ∙ ap (λ t. (c.before ++ c.covered) ++ t) r2)
              (sym (byte_len-append c.before c.covered)) size2,
          slice_between lo.before (m1 ++ (c.covered ++ m2)) hi.after code win_lo win_hi same
              (sym lo.size) sizes,
        ),
        record {
          above = lo.before;
          below = hi.after;
          first = refl;
          ends = sym sizes;
          original = same;
          starts = start ∙ ap some (sym lo.size);
          mutated =
              mutated_cut
              ∙ ap some (
                  ap₂ (λ x y. x ++ (r ++ y)) e1 r2
                  ∙ append_assoc lo.before m1 (r ++ (m2 ++ hi.after))
                  ∙ ap (λ t. lo.before ++ t)
                      (sym (
                        append_assoc m1 (r ++ m2) hi.after
                        ∙ ap (λ t. m1 ++ t) (append_assoc r m2 hi.after))));
        },
      )

  win_hi-IsBoundary :
      (after : Option ℕ)
      → ((o : ℕ) → after ≡ some o → IsBoundary code o)
      → IsBoundary code (unwrap_or (byte_len code) after)
  win_hi-IsBoundary none h = record {
    before = code;
    after = [];
    whole = sym (append-nil code);
    size = refl;
  }
  win_hi-IsBoundary (some o) h = h o refl

  span_end-IsBoundary : IsBoundary code (byte_len c.before + byte_len c.covered)
  span_end-IsBoundary = record {
    before = c.before ++ c.covered;
    after = c.after;
    whole = c.whole ∙ sym (append_assoc c.before c.covered c.after);
    size = byte_len-append c.before c.covered;
  }

  line-IsBoundary :
      (line o : ℕ) → line_start m.source_file.line_index line ≡ some o → IsBoundary code o
  line-IsBoundary line o h =
      line_start-IsBoundary code line o (subst (λ i. line_start i line ≡ some o) loaded.index h)

line_start-pos : (s : Text) (line o : ℕ) → line_start (new_index s) line ≡ some o → 1 ≤ line
unfolding line_start
line_start-pos s zero o h = absurd (cc h)
line_start-pos s (suc line) o h = omega arith

first-IsBefore :
    (pos : LineColumn)
    → 1 ≤ pos.column
    → 1 ≤ pos.line
    → IsBefore (record { line = max (pos.line - context_lines) 1; column = 1 }) pos
first-IsBefore pos h k = elim (Bool-cases (ltb 1 pos.line)) [
  | inl e ↦ inl (let p = ltb→lt 1 pos.line e in omega arith)
  | inr e ↦ let one : pos.line ≡ 1 = ground arith in inr (omega arith, h)
]

-- Where the ninth line after a span begins, or the text ends, but not before the span does
abbrev pub window_end : Mutant → ℕ
window_end m =
    max
      (unwrap_or (byte_len m.source_file.code)
        (line_start m.source_file.line_index (m.span.end.line + 9)))
      (max (offset_of m.source_file.code m.span.end) (offset_of m.source_file.code m.span.start))

window_from-Surrounds :
    (m : Mutant) (loaded : IsLoaded m.source_file) (c : Cut m.span m.source_file.code)
    (first_line win_lo : ℕ)
    → line_start m.source_file.line_index first_line ≡ some win_lo
    → win_lo ≤ byte_len c.before
    → (w : Window) × (window_from m
          (byte_len c.before)
          (byte_len c.before + byte_len c.covered)
          first_line
          (some win_lo)
        ≡ some (some w))
      × Surrounds m first_line (window_end m) w
unfolding window_from
window_from-Surrounds m loaded c first_line win_lo e le =
    let hi = byte_len c.before + byte_len c.covered in
    let last = m.span.end.line + context_lines + 1 in
    let same : last ≡ m.span.end.line + 9 = omega arith in
    let after = line_start m.source_file.line_index last in
    let win_hi = max (unwrap_or (byte_len m.source_file.code) after) hi in
    let ends : win_hi ≡ window_end m =
      ap₂ max
        (ap (λ l. unwrap_or (byte_len m.source_file.code) (line_start m.source_file.line_index l))
          same)
        c.ends in
    let (w, found, around) =
      window_at m loaded c first_line win_lo win_hi e
        (line-IsBoundary m loaded c first_line win_lo e)
        (max-IsBoundary m.source_file.code _ hi
          (win_hi-IsBoundary m loaded c after (line-IsBoundary m loaded c last))
          (span_end-IsBoundary m loaded c))
        le (omega arith) in
    (
      w,
      rw (le→leb win_lo (byte_len c.before) le, found) refl,
      subst (λ end. Surrounds m first_line end w) ends around,
    )

-- For a mutant of a loaded file, whose span starts on a line of the file, the window of the diff is
-- found without a panic: it starts eight lines before the span, or at the first line, and it ends with
-- the eighth line after the span, or with the file. The file and the mutated file are the two sides of
-- the window with the same text around them.
pub diff_window-Surrounds :
    (m : Mutant) (start : ℕ)
    → IsLoaded m.source_file
    → line_start m.source_file.line_index m.span.start.line ≡ some start
    → 1 ≤ m.span.start.column
    → (w : Window) × (diff_window m ≡ some (some w))
      × Surrounds m (max (m.span.start.line - 8) 1) (window_end m) w
unfolding diff_window
diff_window-Surrounds m start loaded at_line at_column =
    let code = m.source_file.code in
    let c = cut m.span code in
    let first_line = max (m.span.start.line - context_lines) 1 in
    let line_exists : line_start (new_index code) m.span.start.line ≡ some start =
      subst (λ i. line_start i m.span.start.line ≡ some start) loaded.index at_line in
    let positive = line_start-pos code m.span.start.line start line_exists in
    let (win_lo, from) =
      line_start-before code m.span.start.line first_line start (omega arith) (omega arith)
        line_exists in
    let from_index : line_start m.source_file.line_index first_line ≡ some win_lo =
      subst (λ i. line_start i first_line ≡ some win_lo) (sym loaded.index) from in
    let order =
      offset_of_mono code (record { line = first_line; column = 1 }) m.span.start
        (first-IsBefore m.span.start at_column positive) in
    let le : win_lo ≤ byte_len c.before =
      omega (arith, line_start-eq-offset_of code first_line win_lo from, c.starts, order) in
    let range : byte_range m.span code m.source_file.line_index
        ≡ some (byte_len c.before, byte_len c.before + byte_len c.covered) =
      subst
        (λ i.
          byte_range m.span code i
          ≡ some (byte_len c.before, byte_len c.before + byte_len c.covered))
        (sym loaded.index) c.range in
    let (w, found, around) = window_from-Surrounds m loaded c first_line win_lo from_index le in
    (w, rw (range, from_index) found, around)
