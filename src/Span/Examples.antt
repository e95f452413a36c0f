-- ===== src/Span/Examples.antt =====
-- Tests of spans, and the theorems at concrete texts.
use cargo_mutants.Prelude.Text.{Text, codes}
use cargo_mutants.Prelude.Bytes.{byte_len, slice}
use cargo_mutants.Prelude.{ℕ, ◌+◌, max, ◌≡◌, refl, some, ◌++◌}
use cargo_mutants.Span.{
  offset_on_line, scan_line, LineColumn, Span, new_index, byte_offset, byte_range, extract_indexed,
  replace_indexed,
}
use cargo_mutants.Span.Reference.{offset_of}
use cargo_mutants.Span.Resolve.{byte_offset-eq-offset_of}
use cargo_mutants.Span.Replace.{replace-extract}

abbrev at : ℕ → ℕ → LineColumn
at line column = record { line = line; column = column }

abbrev quad : ℕ → ℕ → ℕ → ℕ → Span
quad a b c d = record { start = at a b; end = at c d }

-- The second line starts with a letter of two bytes.
abbrev source : Text
source = codes "fn f() {\nét();\r\n}\n"

columns_count_characters : byte_offset (new_index source) source (at 2 2) ≡ some 11
unfolding byte_offset new_index slice offset_on_line scan_line
columns_count_characters = refl

past_the_line : byte_offset (new_index source) source (at 2 99) ≡ some 17
unfolding byte_offset new_index slice offset_on_line scan_line
past_the_line = refl

extract_call : extract_indexed (quad 2 1 2 4) source (new_index source) ≡ some (codes "ét(")
unfolding extract_indexed byte_range byte_offset new_index slice offset_on_line scan_line
extract_call = refl

replace_call :
    replace_indexed
      (quad 1 4 1 5)
      (codes "fn f() {}\n")
      (new_index (codes "fn f() {}\n"))
      (codes "gg")
    ≡ some (codes "fn gg() {}\n")
unfolding replace_indexed byte_range byte_offset new_index slice offset_on_line scan_line
replace_call = refl

abbrev crlf : Text
crlf = codes "fn foo() {\r\n    wibble();\r\n}\r\n//hey!\r\n"

cut_before_crlf :
    (extract_indexed (quad 1 10 3 2) crlf (new_index crlf) ≡ some (codes "{\r\n    wibble();\r\n}"))
    × (replace_indexed (quad 1 10 3 2) crlf (new_index crlf) (codes "{}")
        ≡ some (codes "fn foo() {}\r\n//hey!\r\n"))
unfolding extract_indexed replace_indexed byte_range byte_offset new_index slice offset_on_line
    scan_line
cut_before_crlf = (refl, refl)

byte_offset-eq-offset_of_example :
    byte_offset (new_index source) source (at 2 3) ≡ some (offset_of source (at 2 3))
byte_offset-eq-offset_of_example = byte_offset-eq-offset_of source (at 2 3)

replace-extract_example :
    (before covered after : Text) × (source ≡ before ++ (covered ++ after))
    × (byte_len before ≡ offset_of source (quad 1 4 2 3).start)
    × (byte_len before + byte_len covered
        ≡ max (offset_of source (quad 1 4 2 3).end) (offset_of source (quad 1 4 2 3).start))
    × (extract_indexed (quad 1 4 2 3) source (new_index source) ≡ some covered)
    × ((replacement : Text)
        → replace_indexed (quad 1 4 2 3) source (new_index source) replacement
          ≡ some (before ++ (replacement ++ after)))
replace-extract_example = replace-extract (quad 1 4 2 3) source
