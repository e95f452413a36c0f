-- ===== src/Manifest/Examples.antt =====
-- A test of the paths in a manifest, after one of src/manifest.rs, and a witness.
use cargo_mutants.Prelude.Text.{Text, codes, text_eq, text_eq→eq}
use cargo_mutants.Prelude.{
  ◌≡◌, refl, subst, sym, ap, ap₂, ◌∙◌, inl, inr, Bool, true, false, ◌&&◌, false≢true, none, some,
  if◌then◌else◌, Bool-cases, Result, ok, err, ok_injective,
}
use cargo_mutants.Prelude.Int.{max_ℤ, ◌+ℤ◌, ◌-ℤ◌}
use cargo_mutants.Paths.{components, ascent}
use cargo_mutants.Manifest.{
  Value, string, table, array, other, Table, no_entry, entry, Values, no_value, one_value, value_eq,
  table_eq, values_eq, fix_path, fix_value, fix_dependency_table, fix_sections, fix_manifest_toml,
  fix_manifest,
}
use cargo_mutants.Manifest.Fixed.{fix_manifest-settled}

-- `[dependencies] wibble = { path = … }`
abbrev manifest : Text → Table
manifest path =
    entry (codes "dependencies")
      (table
        (entry (codes "wibble") (table (entry (codes "path") (string path) no_entry)) no_entry))
      no_entry

abbrev fixed_manifest : Table
fixed_manifest = manifest (codes "/src/foo/../wibble")

-- Printing and reading of those two tables
abbrev print : Table → Result (Unit {0}) Text
unfolding value_eq
print t = if table_eq t fixed_manifest then ok (codes "fixed") else err tt

abbrev read : Text → Result (Unit {0}) Table
read s = if text_eq s (codes "fixed") then ok fixed_manifest else ok (manifest (codes "../wibble"))

and-both : (a b : Bool) → a && b ≡ true → (a ≡ true) × (b ≡ true)
and-both true b h = (refl, h)
and-both false b h = absurd (false≢true h)

mutual
  unfolding value_eq

  value_eq→eq : (v w : Value) → value_eq v w ≡ true → v ≡ w
  value_eq→eq (string s) (string t) h = ap string (text_eq→eq s t h)
  value_eq→eq (table s) (table t) h = ap table (table_eq→eq s t h)
  value_eq→eq (array s) (array t) h = ap array (values_eq→eq s t h)
  value_eq→eq (other s) (other t) h = ap other (text_eq→eq s t h)
  value_eq→eq _ _ h = absurd (false≢true h)

  table_eq→eq : (s t : Table) → table_eq s t ≡ true → s ≡ t
  table_eq→eq no_entry no_entry h = refl
  table_eq→eq (entry k v s) (entry l w t) h =
      let (a, b) = and-both (text_eq k l) (value_eq v w && table_eq s t) h in
      let (c, d) = and-both (value_eq v w) (table_eq s t) b in
      ap (λ x. entry x v s) (text_eq→eq k l a)
      ∙ ap₂ (entry l) (value_eq→eq v w c) (table_eq→eq s t d)
  table_eq→eq _ _ h = absurd (false≢true h)

  values_eq→eq : (s t : Values) → values_eq s t ≡ true → s ≡ t
  values_eq→eq no_value no_value h = refl
  values_eq→eq (one_value v s) (one_value w t) h =
      let (a, b) = and-both (value_eq v w) (values_eq s t) h in
      ap₂ one_value (value_eq→eq v w a) (values_eq→eq s t b)
  values_eq→eq _ _ h = absurd (false≢true h)

print-read : (t : Table) (s : Text) → print t ≡ ok s → read s ≡ ok t
unfolding table_eq print
print-read t s h = elim (Bool-cases (table_eq t fixed_manifest)) [
  | inl e ↦
      let k = subst (λ b. (if b then ok (codes "fixed") else err tt) ≡ ok s) e h in
      rw (sym (ok_injective (codes "fixed") s k), table_eq→eq t fixed_manifest e) refl
  | inr e ↦ let k = subst (λ b. (if b then ok (codes "fixed") else err tt) ≡ ok s) e h in cc
]

relative_path : fix_path (codes "../wibble") (codes "/src/foo") ≡ some (codes "/src/foo/../wibble")
unfolding fix_path components ascent max_ℤ ◌+ℤ◌ ◌-ℤ◌
relative_path = refl

below_path : fix_path (codes "a/../b") (codes "/src/foo") ≡ none
unfolding fix_path components ascent max_ℤ ◌+ℤ◌ ◌-ℤ◌
below_path = refl

fixed_once :
    fix_manifest read print (codes "original") (codes "/src/foo") ≡ ok (some (codes "fixed"))
unfolding fix_manifest fix_manifest_toml fix_sections fix_dependency_table fix_value fix_path
    components ascent value_eq max_ℤ ◌+ℤ◌ print
fixed_once = refl

fix_manifest-settled_example : fix_manifest read print (codes "fixed") (codes "/src/foo") ≡ ok none
fix_manifest-settled_example =
    fix_manifest-settled read print (codes "/src/foo") refl print-read (codes "original")
      (codes "fixed") fixed_once
