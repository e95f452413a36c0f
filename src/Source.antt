-- ===== src/Source.antt =====
-- Packages and source files: src/package.rs (the data) and src/source.rs. The file system is a
-- parameter: what `read_to_string` returns for each path.
pub mod Load
mod Examples
use cargo_mutants.Prelude.Text.{Text, codes, text_eq}
use cargo_mutants.Prelude.{
  ℕ, Bool, false, ◌&&◌, ◌||◌, Option, none, some, List, [], ◌∷◌, ◌++◌, ◌==◌, if◌then◌else◌, Result,
  ok, ◌>>=◌,
}
use cargo_mutants.Prelude.Int.{pos, ltb_ℤ}
use cargo_mutants.Paths.{slash, FilePath, ascent, to_slash_path}
use cargo_mutants.Span.{LineIndex, new_index}

-- `struct Package`
pub record Package : Type 0 where
  pub name : Text
  pub version : Text
  pub relative_dir : FilePath
  pub top_sources : List FilePath

-- `Package::version_qualified_name`
unfoldable pub version_qualified_name : Package → Text
version_qualified_name p = p.name ++ (codes "@" ++ p.version)

-- `struct SourceFile`
pub record SourceFile : Type 0 where
  pub in_package : Package
  pub tree_relative_path : FilePath
  pub code : Text
  pub is_top : Bool
  pub line_index : LineIndex
  pub slash_path : Text

-- `text.contains('\r')`
unfoldable pub contains : ℕ → Text → Bool
contains c [] = false
contains c (d ∷ s) = d == c || contains c s

-- `text.replace("\r\n", "\n")`
unfoldable pub replace_crlf : Text → Text
replace_crlf [] = []
replace_crlf (c ∷ []) = c ∷ []
replace_crlf (c ∷ d ∷ s) =
    let rest = replace_crlf (d ∷ s) in if c == b'\r' && d == b'\n' then rest else c ∷ rest

-- The code of a file as it is kept: with Unix line ends
unfoldable pub normalized : Text → Text
normalized text = if contains b'\r' text then replace_crlf text else text

-- The `SourceFile { … }` that `load` builds
abbrev pub with_text : FilePath → Package → Bool → Text → SourceFile
with_text path p top text = record {
  in_package = p;
  tree_relative_path = path;
  code = normalized text;
  is_top = top;
  line_index = new_index (normalized text);
  slash_path = to_slash_path path;
}

-- `Utf8Path::is_absolute`
abbrev pub is_absolute : FilePath → Bool
is_absolute [] = false
is_absolute (c ∷ p) = text_eq c slash

-- `Utf8Path::join`: an absolute path takes the place of the path that it is joined to.
unfoldable pub join_path : FilePath → FilePath → FilePath
join_path base path = if is_absolute path then path else base ++ path

module _ {ℓ} {IoError : Type ℓ} (read_to_string : FilePath → Result IoError Text) where
  -- `SourceFile::load`: a path that leads out of the tree is skipped.
  unfoldable pub load : FilePath → FilePath → Package → Bool → Result IoError (Option SourceFile)
  load tree_path tree_relative_path p is_top =
      if ltb_ℤ (pos 0) (ascent tree_relative_path) then ok none else do
        text ← read_to_string (join_path tree_path tree_relative_path)
        ok (some (with_text tree_relative_path p is_top text))
