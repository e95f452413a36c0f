-- ===== src/Span/Lines.antt =====
-- The starts of lines are character boundaries.
use cargo_mutants.Prelude.Text.{Text}
use cargo_mutants.Prelude.Bytes.{width, byte_len}
use cargo_mutants.Prelude.{
  ℕ, zero, suc, ◌+◌, ◌≤◌, ◌<◌, ◌≡◌, refl, sym, ◌∙◌, inl, inr, true, false, some, List, [], ◌∷◌,
  ◌++◌, map, append_assoc, arith, ◌==◌, if◌then◌else◌, Bool-cases, get_elem?,
}
use cargo_mutants.Span.{newline_offsets, new_index, line_start, LineColumn}
use cargo_mutants.Span.Reference.{width-line_end, reached, scan, offset_of}
use cargo_mutants.Span.Replace.{IsBoundary, byte_len-snoc}

later_start-IsBoundary :
    (pre s : Text) (i o : ℕ)
    → get_elem? (map (λ k. k + 1) (newline_offsets (byte_len pre) s)) i ≡ some o
    → IsBoundary (pre ++ s) o
unfolding newline_offsets
later_start-IsBoundary pre [] i o h = absurd (cc h)
later_start-IsBoundary pre (c ∷ s) i o h = elim (Bool-cases (c == b'\n')) [
  | inl e ↦ at_line_end pre c s i o e (later_start-IsBoundary (pre ++ c ∷ []) s) (rw e at h)
  | inr e ↦
      rw append_assoc at
        (later_start-IsBoundary (pre ++ c ∷ []) s i o (rw (byte_len-snoc pre c) (rw e at h)))
]
  where
    at_line_end :
        (pre : Text) (c : ℕ) (s : Text) (i o : ℕ)
        → (c == b'\n') ≡ true
        → ((i o : ℕ)
            → get_elem? (map (λ k. k + 1) (newline_offsets (byte_len (pre ++ c ∷ [])) s)) i ≡ some o
            → IsBoundary ((pre ++ c ∷ []) ++ s) o)
        → get_elem?
            ((byte_len pre + 1) ∷ map (λ k. k + 1) (newline_offsets (byte_len pre + width c) s))
            i
          ≡ some o
        → IsBoundary (pre ++ c ∷ s) o
    at_line_end pre c s zero o e ih h = record {
      before = pre ++ c ∷ [];
      after = s;
      whole = sym (append_assoc pre (c ∷ []) s);
      size =
          byte_len-snoc pre c
          ∙ (let w : width c ≡ 1 = ground (arith, width-line_end) in
              let p : byte_len pre + 1 ≡ o = cc in omega arith);
    }
    at_line_end pre c s (suc i) o e ih h = rw append_assoc at (ih i o (rw (byte_len-snoc pre c) h))

-- The start of every line is a character boundary.
pub line_start-IsBoundary :
    (s : Text) (line o : ℕ) → line_start (new_index s) line ≡ some o → IsBoundary s o
unfolding line_start new_index
line_start-IsBoundary s zero o h = absurd (cc h)
line_start-IsBoundary s (suc zero) o h = record {
  before = [];
  after = s;
  whole = refl;
  size = unfold byte_len in (let p : 0 ≡ o = cc in p);
}
line_start-IsBoundary s (suc (suc i)) o h = later_start-IsBoundary [] s i o (unfold byte_len in h)

scan_at :
    (pos : LineColumn) (line column offset : ℕ) (s : Text)
    → reached pos line column ≡ true
    → scan pos line column offset s ≡ offset
unfolding scan
scan_at pos line column offset [] h = refl
scan_at pos line column offset (c ∷ s) h = rw h refl

not_reached :
    (pos : LineColumn) (line column : ℕ) → line < pos.line → reached pos line column ≡ false
not_reached pos line column h = ground arith

start_reached :
    (pos : LineColumn) (line : ℕ) → pos.line ≡ line → pos.column ≡ 1 → reached pos line 1 ≡ true
start_reached pos line h k = ground arith

later_start-scan :
    (pos : LineColumn) (line column offset : ℕ) (s : Text) (i o : ℕ)
    → pos.column ≡ 1
    → pos.line ≡ line + 1 + i
    → get_elem? (map (λ k. k + 1) (newline_offsets offset s)) i ≡ some o
    → scan pos line column offset s ≡ o
unfolding newline_offsets scan
later_start-scan pos line column offset [] i o hc hl h = absurd (cc h)
later_start-scan pos line column offset (c ∷ s) i o hc hl h = elim (Bool-cases (c == b'\n')) [
  | inl e ↦
      rw (not_reached pos line column (omega arith), e)
        (at_line_end pos line offset c s i o hc hl e
          (later_start-scan pos (line + 1) 1 (offset + width c) s) (rw e at h))
  | inr e ↦
      rw (not_reached pos line column (omega arith), e)
        (later_start-scan pos line (if c == b'\r' then column else column + 1) (offset + width c) s
          i o hc hl (rw e at h))
]
  where
    at_line_end :
        (pos : LineColumn) (line offset c : ℕ) (s : Text) (i o : ℕ)
        → pos.column ≡ 1
        → pos.line ≡ line + 1 + i
        → (c == b'\n') ≡ true
        → ((i o : ℕ)
            → pos.column ≡ 1
            → pos.line ≡ line + 1 + 1 + i
            → get_elem? (map (λ k. k + 1) (newline_offsets (offset + width c) s)) i ≡ some o
            → scan pos (line + 1) 1 (offset + width c) s ≡ o)
        → get_elem? ((offset + 1) ∷ map (λ k. k + 1) (newline_offsets (offset + width c) s)) i
          ≡ some o
        → scan pos (line + 1) 1 (offset + width c) s ≡ o
    at_line_end pos line offset c s zero o hc hl e ih h =
        let w : width c ≡ 1 = ground (arith, width-line_end) in
        let p : offset + 1 ≡ o = cc in
        scan_at pos (line + 1) 1 (offset + width c) s
          (start_reached pos (line + 1) (omega arith) hc)
        ∙ omega arith
    at_line_end pos line offset c s (suc i) o hc hl e ih h = ih i o hc (omega arith) h

-- The start of a line is where a scan finds its first column.
pub line_start-eq-offset_of :
    (s : Text) (line o : ℕ)
    → line_start (new_index s) line ≡ some o
    → offset_of s (record { line = line; column = 1 }) ≡ o
unfolding line_start new_index offset_of
line_start-eq-offset_of s zero o h = absurd (cc h)
line_start-eq-offset_of s (suc zero) o h =
    let p : 0 ≡ o = cc in scan_at (record { line = 1; column = 1 }) 1 1 0 s refl ∙ p
line_start-eq-offset_of s (suc (suc i)) o h =
    later_start-scan (record { line = suc (suc i); column = 1 }) 1 1 0 s i o refl (omega arith) h

get_elem?-before :
    {A : Type 0} (xs : List A) (i j : ℕ) (a : A)
    → j ≤ i
    → get_elem? xs i ≡ some a
    → (b : A) × (get_elem? xs j ≡ some b)
get_elem?-before [] i j a h e = absurd (cc e)
get_elem?-before (x ∷ xs) i zero a h e = (x, refl)
get_elem?-before (x ∷ xs) zero (suc j) a h e = absurd (omega arith)
get_elem?-before (x ∷ xs) (suc i) (suc j) a h e = get_elem?-before xs i j a (omega arith) e

-- The lines before a line of the text exist.
pub line_start-before :
    (s : Text) (line earlier o : ℕ)
    → 1 ≤ earlier
    → earlier ≤ line
    → line_start (new_index s) line ≡ some o
    → (p : ℕ) × (line_start (new_index s) earlier ≡ some p)
unfolding line_start
line_start-before s line zero o h k e = absurd (omega arith)
line_start-before s zero (suc j) o h k e = absurd (omega arith)
line_start-before s (suc i) (suc j) o h k e =
    get_elem?-before (new_index s).line_starts i j o (omega arith) e
