-- ===== src/InDiff/Check.antt =====
-- What the check of a diff against the source files accepts, and what it reports.
use cargo_mutants.Prelude.Text.{Text, text_eq, text_eq_refl, text_eq→eq, lines}
use cargo_mutants.Prelude.{
  ℕ, zero, suc, ◌+◌, ◌≡◌, refl, subst, sym, ◌∙◌, ◌≢◌, ◌↔◌, inl, inr, true, false≢true, Option, none,
  some, List, [], ◌∷◌, ◌++◌, Bool-cases, All, Result, ok, err, ◌>>◌,
}
use cargo_mutants.Paths.{FilePath, path_eq, path_eq→eq, path_eq_refl}
use cargo_mutants.Source.{SourceFile}
use cargo_mutants.Mutant.{Mutant}
use cargo_mutants.InDiff.{
  Patch, Mismatch, strip_patch_path, partial_new_file, source_line, check_lines, source_by_name,
  check_source, check_patch, check_diff_new_text_matches, Line, context, insert, delete, Hunk,
  new_lines, new_lines_of,
}

-- The line of a source with a number that counts from 1. Where there is none, past the end of the
-- source or for the number 0, an empty line is taken for it.
abbrev pub LineIs : List Text → ℕ → Text → Type 0
LineIs [] n content = content ≡ []
LineIs (s ∷ source) zero content = content ≡ []
LineIs (s ∷ source) (suc zero) content = content ≡ s
LineIs (s ∷ source) (suc (suc n)) content = LineIs source (suc n) content

-- The lines of a hunk that the new file has, of which the next has the number `n`, are those of the
-- source.
abbrev pub Shows : List Text → ℕ → List Line → Type 0
Shows source n [] = Unit
Shows source n (delete t ∷ ls) = Shows source n ls
Shows source n (insert t ∷ ls) = LineIs source n t × Shows source (n + 1) ls
Shows source n (context t ∷ ls) = LineIs source n t × Shows source (n + 1) ls

-- The source file with a path, if a mutant is in it: that of the first one
pub data FileOf (path : FilePath) : List Mutant → Option SourceFile → Type 0 where
  no_mutant : FileOf path [] none
  here :
      {m : Mutant} {ms : List Mutant}
      → m.source_file.tree_relative_path ≡ path
      → FileOf path (m ∷ ms) (some m.source_file)
  there :
      {m : Mutant} {ms : List Mutant} {found : Option SourceFile}
      → m.source_file.tree_relative_path ≢ path
      → FileOf path ms found
      → FileOf path (m ∷ ms) found

-- The lines of the patch agree with the source file, where there is one.
abbrev pub AgreesWith : Patch → Option SourceFile → Type 0
AgreesWith patch none = Unit
AgreesWith patch (some f) =
    All (λ (h : Hunk). Shows (lines f.code) h.new_start h.hunk_lines) patch.hunks

abbrev pub Agrees : List Mutant → Patch → Option Text → Type 0
Agrees mutants patch none = Unit
Agrees mutants patch (some modified) =
    (found : Option SourceFile) × FileOf (strip_patch_path modified) mutants found
    × AgreesWith patch found

LineAgrees : List Text → ℕ × Text → Type 0
LineAgrees source (n, content) = content ≡ source_line source n

source_line_iff :
    (source : List Text) (n : ℕ) (content : Text)
    → (content ≡ source_line source n) ↔ LineIs source n content
unfolding source_line
source_line_iff [] zero content = (λ h. h, λ h. h)
source_line_iff [] (suc n) content = (λ h. h, λ h. h)
source_line_iff (s ∷ source) zero content = (λ h. h, λ h. h)
source_line_iff (s ∷ source) (suc zero) content = (λ h. h, λ h. h)
source_line_iff (s ∷ source) (suc (suc n)) content = source_line_iff source (suc n) content

Shows-iff :
    (source : List Text) (n : ℕ) (ls : List Line)
    → All (LineAgrees source) (new_lines n ls) ↔ Shows source n ls
unfolding new_lines LineAgrees
Shows-iff source n [] = (λ h. h, λ h. h)
Shows-iff source n (delete t ∷ ls) = Shows-iff source n ls
Shows-iff source n (insert t ∷ ls) =
    let (out, back) = Shows-iff source (n + 1) ls in
    let (is, same) = source_line_iff source n t in
    (λ h. (is h.0, out h.1), λ h. (same h.0, back h.1))
Shows-iff source n (context t ∷ ls) =
    let (out, back) = Shows-iff source (n + 1) ls in
    let (is, same) = source_line_iff source n t in
    (λ h. (is h.0, out h.1), λ h. (same h.0, back h.1))

All-append_iff :
    {A : Type 0} (P : A → Type 0) (xs ys : List A) → All P (xs ++ ys) ↔ (All P xs × All P ys)
All-append_iff P [] ys = (λ h. (tt, h), λ h. h.1)
All-append_iff P (x ∷ xs) ys =
    let (out, back) = All-append_iff P xs ys in
    (λ h. let r = out h.1 in ((h.0, r.0), r.1), λ h. (h.0.0, back (h.0.1, h.1)))

hunks_iff :
    (source : List Text) (hs : List Hunk)
    → All (LineAgrees source) (new_lines_of hs)
      ↔ All (λ (h : Hunk). Shows source h.new_start h.hunk_lines) hs
unfolding new_lines_of
hunks_iff source [] = (λ h. h, λ h. h)
hunks_iff source (h ∷ hs) =
    let (out, back) = hunks_iff source hs in
    let (shown, listed) = Shows-iff source h.new_start h.hunk_lines in
    let (split_all, join_all) =
      All-append_iff (LineAgrees source) (new_lines h.new_start h.hunk_lines) (new_lines_of hs) in
    (λ k. let s = split_all k in (shown s.0, out s.1), λ k. join_all (listed k.0, back k.1))

source_by_name-FileOf :
    (path : FilePath) (ms : List Mutant) → FileOf path ms (source_by_name path ms)
unfolding source_by_name
source_by_name-FileOf path [] = no_mutant
source_by_name-FileOf path (m ∷ ms) =
    elim (Bool-cases (path_eq m.source_file.tree_relative_path path)) [
      | inl e ↦ rw e (here (path_eq→eq m.source_file.tree_relative_path path e))
      | inr e ↦ rw e (
          there (λ same. false≢true (sym e ∙ rw same (path_eq_refl path)))
            (source_by_name-FileOf path ms))
    ]

FileOf-eq :
    (path : FilePath) (ms : List Mutant) (found : Option SourceFile)
    → FileOf path ms found
    → source_by_name path ms ≡ found
unfolding source_by_name
FileOf-eq path [] _ no_mutant = refl
FileOf-eq path (m ∷ ms) _ (here e) =
    let same : path_eq m.source_file.tree_relative_path path ≡ true = rw e (path_eq_refl path) in
    rw same refl
FileOf-eq path (m ∷ ms) found (there n k) =
    elim (Bool-cases (path_eq m.source_file.tree_relative_path path)) [
      | inl e ↦ absurd (n (path_eq→eq m.source_file.tree_relative_path path e))
      | inr e ↦ rw e (FileOf-eq path ms found k)
    ]

check_lines_iff :
    (path : FilePath) (source : List Text) (ls : List (ℕ × Text))
    → (check_lines path source ls ≡ ok tt) ↔ All (LineAgrees source) ls
unfolding check_lines LineAgrees
check_lines_iff path source [] = (λ h. tt, λ h. refl)
check_lines_iff path source ((n, content) ∷ ls) =
    let (sound, complete) = check_lines_iff path source ls in
    elim (Bool-cases (text_eq content (source_line source n))) [
      | inl e ↦
          rw e (λ h. (text_eq→eq content (source_line source n) e, sound h), λ h. complete h.1)
      | inr e ↦
          rw e (
            λ h. cc,
            λ h. absurd (false≢true (sym e ∙ rw h.0 (text_eq_refl (source_line source n)))),
          )
    ]

check_source_iff :
    (path : FilePath) (patch : Patch) (found : Option SourceFile)
    → (check_source path patch found ≡ ok tt) ↔ AgreesWith patch found
unfolding check_source partial_new_file
check_source_iff path patch none = (λ h. tt, λ h. refl)
check_source_iff path patch (some f) =
    let (sound, complete) = check_lines_iff path (lines f.code) (new_lines_of patch.hunks) in
    let (shown, listed) = hunks_iff (lines f.code) patch.hunks in
    (λ h. shown (sound h), λ h. complete (listed h))

check_patch_iff :
    (mutants : List Mutant) (patch : Patch) (modified : Option Text)
    → (check_patch mutants patch modified ≡ ok tt) ↔ Agrees mutants patch modified
unfolding check_patch
check_patch_iff mutants patch none = (λ h. tt, λ h. refl)
check_patch_iff mutants patch (some modified) =
    let path = strip_patch_path modified in
    let (out, back) = check_source_iff path patch (source_by_name path mutants) in
    (
      λ h. (source_by_name path mutants, source_by_name-FileOf path mutants, out h),
      λ h. back (subst (AgreesWith patch) (sym (FileOf-eq path mutants h.0 h.1)) h.2),
    )

then_ok_iff : (a b : Result Mismatch (Unit {0})) → ((a >> b) ≡ ok tt) ↔ ((a ≡ ok tt) × (b ≡ ok tt))
then_ok_iff (ok tt) b = (λ h. (refl, h), λ h. h.1)
then_ok_iff (err m) b = (λ h. cc, λ h. cc)

-- The check accepts a diff just when, in each patch of a file that has mutants, every line that a hunk
-- shows of the new file, numbered from the start of the hunk, is the line of the source with that
-- number; where the source has no such line, just when it is empty.
pub check_diff_iff :
    (patches : List Patch) (mutants : List Mutant)
    → (check_diff_new_text_matches patches mutants ≡ ok tt)
      ↔ All (λ (patch : Patch). Agrees mutants patch patch.modified) patches
unfolding check_diff_new_text_matches
check_diff_iff [] mutants = (λ h. tt, λ h. refl)
check_diff_iff (patch ∷ patches) mutants =
    let (sound, complete) = check_diff_iff patches mutants in
    let (out, back) = check_patch_iff mutants patch patch.modified in
    let (split_ok, join_ok) =
      then_ok_iff (check_patch mutants patch patch.modified)
        (check_diff_new_text_matches patches mutants) in
    (λ h. let s = split_ok h in (out s.0, sound s.1), λ h. join_ok (back h.0, complete h.1))
