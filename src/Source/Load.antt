-- ===== src/Source/Load.antt =====
-- What `SourceFile::load` promises of the files that it returns.
use cargo_mutants.Prelude.Text.{Text}
use cargo_mutants.Prelude.Bytes.{width}
use cargo_mutants.Prelude.{
  ℕ, suc, ◌+◌, ◌≡◌, refl, sym, ap, ◌∙◌, inl, inr, [], ◌∷◌, map, arith, ◌==◌, if◌then◌else◌,
  Bool-cases, length,
}
use cargo_mutants.Paths.{to_slash_path}
use cargo_mutants.Span.{new_index, newline_offsets}
use cargo_mutants.Source.{SourceFile, contains, replace_crlf, normalized}

-- The cached parts of a source file agree with its code and path.
pub record IsLoaded (f : SourceFile) : Type 0 where
  pub index : f.line_index ≡ new_index f.code
  pub slashes : f.slash_path ≡ to_slash_path f.tree_relative_path

-- the number of line ends
newlines : Text → ℕ
newlines [] = 0
newlines (c ∷ s) = (if c == b'\n' then 1 else 0) + newlines s

newlines-replace_crlf : (s : Text) → newlines (replace_crlf s) ≡ newlines s
unfolding newlines replace_crlf
newlines-replace_crlf [] = refl
newlines-replace_crlf (c ∷ []) = refl
newlines-replace_crlf (c ∷ d ∷ s) = ground (arith, newlines-replace_crlf (d ∷ s))

length-newline_offsets :
    (offset : ℕ) (s : Text) → length (map (λ i. i + 1) (newline_offsets offset s)) ≡ newlines s
unfolding newlines newline_offsets
length-newline_offsets offset [] = refl
length-newline_offsets offset (c ∷ s) = ground (arith, length-newline_offsets (offset + width c) s)

-- Normalising the line ends keeps the number of lines, so no line changes its number.
pub normalized-line_count :
    (text : Text)
    → length (new_index (normalized text)).line_starts ≡ length (new_index text).line_starts
unfolding new_index normalized
normalized-line_count text = elim (Bool-cases (contains b'\r' text)) [
  | inl e ↦ rw e (
      ap suc (
        length-newline_offsets 0 (replace_crlf text)
        ∙ newlines-replace_crlf text
        ∙ sym (length-newline_offsets 0 text)))
  | inr e ↦ rw e
]
