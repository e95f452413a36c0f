-- ===== src/InDiff/Kept.antt =====
-- Which mutants the filter keeps.
use cargo_mutants.Prelude.{
  ℕ, zero, suc, ◌+◌, ◌-◌, ◌≤◌, ◌<◌, ◌≡◌, refl, subst, sym, ap, ◌∙◌, ◌≢◌, ◌↔◌, ◌⊎◌, inl, inr, true,
  false, false≢true, none, some, List, [], ◌∷◌, arith, if◌then◌else◌, Bool-cases, All, Any, ok,
}
use cargo_mutants.Paths.{FilePath, path_eq, path_eq→eq, path_eq_refl}
use cargo_mutants.Mutant.{Mutant}
use cargo_mutants.InDiff.{Patch, affected_lines, check_diff_new_text_matches}
use cargo_mutants.InDiff.Affected.{
  Has, Ascending, AffectedByHunks, Ordered, affected_lines_iff, affected_lines-Ascending,
}
use cargo_mutants.InDiff.Search.{binary_search_iff}
use cargo_mutants.InDiff.Filter.{
  binary_search, LineMap, extend_entry, get_entry, patch_path, changes_source, lines_changed,
  any_line, touches, matched, result_of, filter_patches, changed_rs_file,
}

-- The patches of Rust source files
unfoldable pub source_patches : List Patch → List Patch
source_patches [] = []
source_patches (p ∷ ps) =
    let rest = source_patches ps in if changes_source p then p ∷ rest else rest

-- No two patches are of one file.
abbrev pub DistinctPaths : List Patch → Type 0
DistinctPaths [] = Unit
DistinctPaths (p ∷ ps) =
    All (λ (q : Patch). path_eq (patch_path p) (patch_path q) ≡ false) ps × DistinctPaths ps

-- A line of the mutant's span is affected.
abbrev pub SpanAffected : Mutant → Patch → Type 0
SpanAffected m p =
    (n : ℕ) × (m.span.start.line ≤ n) × (n ≤ m.span.end.line) × AffectedByHunks n p.hunks

-- A patch of the mutant's file affects a line of its span.
abbrev pub Intersects : List Patch → Mutant → Type 0
Intersects ps m =
    Any (λ (p : Patch). (patch_path p ≡ m.source_file.tree_relative_path) × SpanAffected m p) ps

any_line_iff :
    (line count : ℕ) (xs : List ℕ)
    → Ascending 0 xs
    → (any_line line count xs ≡ true) ↔ ((n : ℕ) × (line ≤ n) × (n < line + count) × Has n xs)
unfolding any_line
any_line_iff line zero xs a =
    (λ h. absurd (false≢true h), λ h. let (n, ge, lt, has) = h in absurd (omega arith))
any_line_iff line (suc count) xs a =
    let (sound, complete) = any_line_iff (line + 1) count xs a in
    let (out, back) = binary_search_iff line xs a in
    elim (Bool-cases (binary_search xs line)) [
      | inl e ↦ (λ h. (line, omega arith, omega arith, out e), λ h. rw e refl)
      | inr e ↦ rw e (
        λ h. let (n, ge, lt, has) = sound h in (n, omega arith, omega arith, has),
        λ h.
            let (n, ge, lt, has) = h in
            let past : line ≢ n =
              λ same. false≢true (sym e ∙ back (subst (λ k. Has k xs) (sym same) has)) in
            complete (n, omega arith, omega arith, has),
      )
    ]

touches_iff :
    (m : Mutant) (p : Patch)
    → Ordered 0 p.hunks
    → (touches m (some (affected_lines p)) ≡ true) ↔ SpanAffected m p
unfolding touches
touches_iff m p o =
    let first = m.span.start.line in
    let (sound, complete) =
      any_line_iff first (m.span.end.line + 1 - first) (affected_lines p)
        (affected_lines-Ascending p o) in
    (
      λ h. let (n, ge, lt, has) = sound h in (n, ge, omega arith, (affected_lines_iff n p).0 has),
      λ h.
          let (n, ge, le, hit) = h in complete (n, ge, omega arith, (affected_lines_iff n p).1 hit),
    )

unfoldable extend_all : List Patch → LineMap → LineMap
extend_all [] e = e
extend_all (p ∷ ps) e = extend_all ps (extend_entry (patch_path p) (affected_lines p) e)

lines_changed-extend_all :
    (ps : List Patch) (e : LineMap) → lines_changed ps e ≡ extend_all (source_patches ps) e
unfolding lines_changed extend_all source_patches
lines_changed-extend_all [] e = refl
lines_changed-extend_all (p ∷ ps) e = elim (Bool-cases (changes_source p)) [
  | inl c ↦
      rw (c, lines_changed)
        (lines_changed-extend_all ps (extend_entry (patch_path p) (affected_lines p) e))
  | inr c ↦ rw (c, lines_changed) (lines_changed-extend_all ps e)
]

path_eq_sym : (s t : FilePath) → path_eq s t ≡ false → path_eq t s ≡ false
path_eq_sym s t h = elim (Bool-cases (path_eq t s)) [
  | inl e ↦ absurd (false≢true (sym h ∙ rw (path_eq→eq t s e) (path_eq_refl s)))
  | inr e ↦ e
]

extend_entry-other :
    (q path : FilePath) (more : List ℕ) (e : LineMap)
    → path_eq q path ≡ false
    → get_entry path (extend_entry q more e) ≡ get_entry path e
unfolding extend_entry get_entry
extend_entry-other q path more [] h = rw h refl
extend_entry-other q path more ((r, ns) ∷ e) h = elim (Bool-cases (path_eq r q)) [
  | inl s ↦ let apart = rw (sym (path_eq→eq r q s)) at h in rw (s, get_entry) (rw apart refl)
  | inr s ↦ rw (s, get_entry) (ground (arith, extend_entry-other q path more e h))
]

extend_entry-same :
    (path : FilePath) (more : List ℕ) (e : LineMap)
    → get_entry path e ≡ none
    → get_entry path (extend_entry path more e) ≡ some more
unfolding extend_entry get_entry
extend_entry-same path more [] h = rw (path_eq_refl path) refl
extend_entry-same path more ((r, ns) ∷ e) h = elim (Bool-cases (path_eq r path)) [
  | inl s ↦ let bad : some ns ≡ none = rw s at h in cc
  | inr s ↦
      let rest : get_entry path e ≡ none = rw s at h in
      rw (s, get_entry) (rw s (extend_entry-same path more e rest))
]

get_entry-extend_all :
    (path : FilePath) (ps : List Patch) (e : LineMap)
    → All (λ (p : Patch). path_eq path (patch_path p) ≡ false) ps
    → get_entry path (extend_all ps e) ≡ get_entry path e
unfolding extend_all
get_entry-extend_all path [] e a = refl
get_entry-extend_all path (p ∷ ps) e (h, a) =
    get_entry-extend_all path ps (extend_entry (patch_path p) (affected_lines p) e) a
    ∙ extend_entry-other (patch_path p) path (affected_lines p) e
        (path_eq_sym path (patch_path p) h)

not_elsewhere :
    (m : Mutant) (ps : List Patch)
    → All (λ (q : Patch). path_eq m.source_file.tree_relative_path (patch_path q) ≡ false) ps
    → ¬ Intersects ps m
not_elsewhere m [] a h = h
not_elsewhere m (p ∷ ps) (other, a) (inl (same, hit)) =
    false≢true (sym other ∙ rw same (path_eq_refl m.source_file.tree_relative_path))
not_elsewhere m (p ∷ ps) (other, a) (inr h) = not_elsewhere m ps a h

touches-none : (m : Mutant) → touches m none ≡ false
unfolding touches
touches-none m = refl

extend_all_iff :
    (m : Mutant) (ps : List Patch) (e : LineMap)
    → get_entry m.source_file.tree_relative_path e ≡ none
    → DistinctPaths ps
    → All (λ (p : Patch). Ordered 0 p.hunks) ps
    → (touches m (get_entry m.source_file.tree_relative_path (extend_all ps e)) ≡ true)
      ↔ Intersects ps m
unfolding extend_all
extend_all_iff m [] e none_yet d o =
    rw none_yet (λ h. absurd (false≢true (sym (touches-none m) ∙ h)), λ h. elim h [ ])
extend_all_iff m (p ∷ ps) e none_yet (apart, d) (o, os) =
    let path = m.source_file.tree_relative_path in
    elim (Bool-cases (path_eq (patch_path p) path)) [
      | inl c ↦
          let same = path_eq→eq (patch_path p) path c in
          let elsewhere : All (λ (q : Patch). path_eq path (patch_path q) ≡ false) ps =
            rw same at apart in
          let first =
            subst
              (λ q. get_entry path (extend_entry q (affected_lines p) e) ≡ some (affected_lines p))
              (sym same) (extend_entry-same path (affected_lines p) e none_yet) in
          let found =
            get_entry-extend_all path ps (extend_entry (patch_path p) (affected_lines p) e)
              elsewhere
            ∙ first in
          let (sound, complete) = touches_iff m p o in
          (
            λ h. inl (same, sound (sym (ap (touches m) found) ∙ h)),
            λ h. elim h [
              | inl (at_path, hit) ↦ ap (touches m) found ∙ complete hit
              | inr k ↦ absurd (not_elsewhere m ps elsewhere k)
            ],
          )
      | inr c ↦
          let (sound, complete) =
            extend_all_iff m ps (extend_entry (patch_path p) (affected_lines p) e)
              (extend_entry-other (patch_path p) path (affected_lines p) e c ∙ none_yet) d os in
          (
            λ h. inr (sound h),
            λ h. elim h [
              | inl (same, hit) ↦ absurd (false≢true (sym c ∙ rw same (path_eq_refl path)))
              | inr k ↦ complete k
            ],
          )
    ]

-- `kept` are the members of `ms` that have the property `P`, in their order.
abbrev pub Selected : (Mutant → Type 0) → List Mutant → List Mutant → Type 0
Selected P [] kept = kept ≡ []
Selected P (m ∷ ms) kept =
    (P m × ((rest : List Mutant) × (kept ≡ m ∷ rest) × Selected P ms rest))
    ⊎ (¬ P m × Selected P ms kept)

-- The patches of source files are of distinct files, and their hunks are in order.
pub record WellFormed (ps : List Patch) : Type 0 where
  pub distinct : DistinctPaths (source_patches ps)
  pub ordered : All (λ (p : Patch). Ordered 0 p.hunks) (source_patches ps)

matched-Selected :
    (ps : List Patch) (ms : List Mutant)
    → WellFormed ps
    → Selected (Intersects (source_patches ps)) ms (matched (lines_changed ps []) ms)
unfolding matched get_entry
matched-Selected ps [] w = refl
matched-Selected ps (m ∷ ms) w =
    let entries = lines_changed ps [] in
    let (sound, complete) = extend_all_iff m (source_patches ps) [] refl w.distinct w.ordered in
    let same =
      ap (λ e. touches m (get_entry m.source_file.tree_relative_path e))
        (lines_changed-extend_all ps []) in
    elim (Bool-cases (touches m (get_entry m.source_file.tree_relative_path entries))) [
      | inl t ↦
          inl (sound (sym same ∙ t), (matched entries ms, rw t refl, matched-Selected ps ms w))
      | inr f ↦
          inr (λ hit. false≢true (sym f ∙ (same ∙ complete hit)), rw f (matched-Selected ps ms w))
    ]

-- A diff that is not empty and agrees with the source files keeps just the mutants that have a
-- line in their span that the diff affects, in their order; where there is none, the result is the
-- error that says so. The diff has distinct files, and in each its hunks are in order.
pub filter_patches-Selected :
    (mutants : List Mutant) (patch : Patch) (patches : List Patch)
    → WellFormed (patch ∷ patches)
    → check_diff_new_text_matches (patch ∷ patches) mutants ≡ ok tt
    → (kept : List Mutant) × Selected (Intersects (source_patches (patch ∷ patches))) mutants kept
      × (filter_patches mutants (patch ∷ patches)
          ≡ result_of (changed_rs_file (patch ∷ patches)) kept)
unfolding filter_patches
filter_patches-Selected mutants patch patches w c = (
  matched (lines_changed (patch ∷ patches) []) mutants,
  matched-Selected (patch ∷ patches) mutants w,
  rw (c, filter_patches) refl,
)
