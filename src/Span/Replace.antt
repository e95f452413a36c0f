-- ===== src/Span/Replace.antt =====
-- Every span cuts a text in three at character boundaries, and replacing changes the middle part only.
use cargo_mutants.Prelude.Text.{Text}
use cargo_mutants.Prelude.Bytes.{
  width, width_pos, byte_len, slice, slice-append, byte_len-append, slice_prefix, slice_suffix,
}
use cargo_mutants.Prelude.{
  ℕ, ◌+◌, ◌≤◌, max, ◌≡◌, refl, subst, sym, ap, ap₂, ◌∙◌, inl, inr, some, [], ◌∷◌, ◌++◌,
  append_assoc, arith, leb, ◌==◌, if◌then◌else◌, Bool-cases,
}
use cargo_mutants.Prelude.Maybe.{◌>>=◌}
use cargo_mutants.Span.{LineColumn, Span, new_index, byte_range, extract_indexed, replace_indexed}
use cargo_mutants.Span.Reference.{reached, scan, offset_of}
use cargo_mutants.Span.Resolve.{byte_offset-eq-offset_of}

-- A byte offset of `s` that lies between two characters
pub record IsBoundary (s : Text) (offset : ℕ) : Type 0 where
  pub before : Text
  pub after : Text
  pub whole : s ≡ before ++ after
  pub size : byte_len before ≡ offset

pub byte_len-snoc : (pre : Text) (c : ℕ) → byte_len (pre ++ c ∷ []) ≡ byte_len pre + width c
byte_len-snoc pre c = byte_len-append pre (c ∷ []) ∙ (unfold byte_len in omega arith)

scan-IsBoundary :
    (pos : LineColumn) (line column : ℕ) (pre s : Text)
    → IsBoundary (pre ++ s) (scan pos line column (byte_len pre) s)
unfolding scan
scan-IsBoundary pos line column pre [] = record {
  before = pre;
  after = [];
  whole = refl;
  size = refl;
}
scan-IsBoundary pos line column pre (c ∷ s) = elim (Bool-cases (reached pos line column)) [
  | inl r ↦ rw r (record { before = pre; after = c ∷ s; whole = refl; size = refl })
  | inr r ↦
      let line' = if c == b'\n' then line + 1 else line in
      let column' = if c == b'\n' then 1 else if c == b'\r' then column else column + 1 in
      rw r (
        rw (byte_len-snoc pre c, append_assoc) at
          (scan-IsBoundary pos line' column' (pre ++ c ∷ []) s))
]

-- Every position of a text resolves to a character boundary.
pub offset_of-IsBoundary : (s : Text) (pos : LineColumn) → IsBoundary s (offset_of s pos)
unfolding offset_of byte_len
offset_of-IsBoundary s pos = scan-IsBoundary pos 1 1 [] s

-- Of two prefixes the shorter is a prefix of the longer.
pub prefixes :
    (a b c d : Text)
    → a ++ b ≡ c ++ d
    → byte_len a ≤ byte_len c
    → (m : Text) × (c ≡ a ++ m) × (b ≡ m ++ d)
unfolding byte_len
prefixes [] b c d e h = (c, refl, e)
prefixes (x ∷ a) b [] d e h = absurd (omega (arith, width_pos x))
prefixes (x ∷ a) b (y ∷ c) d e h =
    let ex : x ≡ y = cc in
    let et : a ++ b ≡ c ++ d = cc in
    let (m, em, eb) = prefixes a b c d et (omega (arith, ap width ex)) in
    (m, ap₂ ◌∷◌ (sym ex) em, eb)

-- How a span cuts a text: what comes before it, what it covers and what comes after.
pub record Cut (span : Span) (s : Text) : Type 0 where
  pub before : Text
  pub covered : Text
  pub after : Text
  pub whole : s ≡ before ++ (covered ++ after)
  pub range :
      byte_range span s (new_index s) ≡ some (byte_len before, byte_len before + byte_len covered)
  pub starts : byte_len before ≡ offset_of s span.start
  pub ends :
      byte_len before + byte_len covered ≡ max (offset_of s span.end) (offset_of s span.start)

pieces_at :
    (span : Span) (s : Text)
    → IsBoundary s (offset_of s span.start)
    → IsBoundary s (max (offset_of s span.end) (offset_of s span.start))
    → byte_range span s (new_index s)
      ≡ some (offset_of s span.start, max (offset_of s span.end) (offset_of s span.start))
    → Cut span s
pieces_at span s a b r =
    let (m, e, rest) =
      prefixes a.before a.after b.before b.after (sym a.whole ∙ b.whole)
        (omega (arith, a.size, b.size)) in
    record {
      before = a.before;
      covered = m;
      after = b.after;
      whole = a.whole ∙ ap (λ t. a.before ++ t) rest;
      range =
          r
          ∙ ap₂ (λ x y. some (x, y)) (sym a.size)
              (sym b.size ∙ ap byte_len e ∙ byte_len-append a.before m);
      starts = a.size;
      ends = sym (byte_len-append a.before m) ∙ sym (ap byte_len e) ∙ b.size;
    }

pub max-IsBoundary : (s : Text) (a b : ℕ) → IsBoundary s a → IsBoundary s b → IsBoundary s (max a b)
max-IsBoundary s a b ha hb = elim (Bool-cases (leb a b)) [
  | inl e ↦ let f : max a b ≡ b = ground arith in rw f hb
  | inr e ↦ let f : max a b ≡ a = ground arith in rw f ha
]

pub cut : (span : Span) (s : Text) → Cut span s
cut span s =
    let a = offset_of-IsBoundary s span.start in
    let b = offset_of-IsBoundary s span.end in
    pieces_at span s a (max-IsBoundary s _ _ b a) (
      unfold byte_range in
      rw (byte_offset-eq-offset_of s span.start, byte_offset-eq-offset_of s span.end))

module _ (span : Span) (s : Text) (c : Cut span s) where
  pub extract_cut : extract_indexed span s (new_index s) ≡ some c.covered
  unfolding extract_indexed
  extract_cut = rw c.range (
      subst
        (λ t. slice (byte_len c.before) (byte_len c.before + byte_len c.covered) t ≡ some c.covered)
        (sym c.whole) (slice-append c.before c.covered c.after))

  slice_before : slice 0 (byte_len c.before) s ≡ some c.before
  slice_before =
      subst (λ t. slice 0 (byte_len c.before) t ≡ some c.before) (sym c.whole)
        (slice_prefix c.before (c.covered ++ c.after))

  slice_after : slice (byte_len c.before + byte_len c.covered) (byte_len s) s ≡ some c.after
  slice_after =
      let whole : s ≡ (c.before ++ c.covered) ++ c.after =
        c.whole ∙ sym (append_assoc c.before c.covered c.after) in
      rw (← byte_len-append c.before c.covered) (
        subst (λ t. slice (byte_len (c.before ++ c.covered)) (byte_len t) t ≡ some c.after)
          (sym whole) (slice_suffix (c.before ++ c.covered) c.after))

  pub replace_cut :
      (replacement : Text)
      → replace_indexed span s (new_index s) replacement
        ≡ some (c.before ++ (replacement ++ c.after))
  unfolding replace_indexed
  replace_cut replacement = rw (c.range, slice_before, slice_after)

-- A span cuts every text without a panic, from the place of its start to that of its end, if that is
-- not before: extracting gives the covered text, and replacing puts the replacement in its place and
-- keeps the text on both sides. The place of a position is found by a scan over the whole text.
pub replace-extract :
    (span : Span) (s : Text)
    → (before covered after : Text) × (s ≡ before ++ (covered ++ after))
      × (byte_len before ≡ offset_of s span.start)
      × (byte_len before + byte_len covered ≡ max (offset_of s span.end) (offset_of s span.start))
      × (extract_indexed span s (new_index s) ≡ some covered)
      × ((replacement : Text)
          → replace_indexed span s (new_index s) replacement
            ≡ some (before ++ (replacement ++ after)))
replace-extract span s =
    let c = cut span s in
    (
      c.before,
      c.covered,
      c.after,
      c.whole,
      c.starts,
      c.ends,
      extract_cut span s c,
      replace_cut span s c,
    )

-- Replacing what a span covers by the extracted text gives the text back.
pub replace-extract_self :
    (span : Span) (s : Text)
    → (extract_indexed span s (new_index s) >>= λ covered.
        replace_indexed span s (new_index s) covered)
      ≡ some s
replace-extract_self span s =
    let c = cut span s in
    rw (extract_cut span s c) (replace_cut span s c c.covered ∙ ap some (sym c.whole))
