-- ===== src/Manifest/Fixed.antt =====
-- A manifest that is fixed stays as it is.
use cargo_mutants.Prelude.Text.{Text, codes, text_eq, text_eq_refl, text_eq→eq}
use cargo_mutants.Prelude.{
  ◌≡◌, refl, subst, sym, ap, ap₂, ◌∙◌, inl, inr, true, false, ◌||◌, false≢true, Option, none, some,
  [], ◌∷◌, if◌then◌else◌, Bool-cases, Option-cases, Result, ok, bind_ok, ok_injective, ◌>>=◌,
}
use cargo_mutants.Paths.{components, ascent}
use cargo_mutants.Manifest.{
  is_zero, Value, string, table, array, other, Table, no_entry, entry, Values, no_value, one_value,
  value_eq, table_eq, values_eq, at_key, each_entry, in_table, is_absolute, push_path, fix_path,
  fix_value, fix_dependency_table, fix_sections, if_changed, fix_manifest_toml, fix_manifest,
  printed,
}

mutual
  unfolding value_eq

  value_eq_refl : (v : Value) → value_eq v v ≡ true
  value_eq_refl (string s) = text_eq_refl s
  value_eq_refl (table t) = table_eq_refl t
  value_eq_refl (array vs) = values_eq_refl vs
  value_eq_refl (other s) = text_eq_refl s

  table_eq_refl : (t : Table) → table_eq t t ≡ true
  table_eq_refl no_entry = refl
  table_eq_refl (entry k v t) = rw (text_eq_refl k, value_eq_refl v, table_eq_refl t) refl

  values_eq_refl : (vs : Values) → values_eq vs vs ≡ true
  values_eq_refl no_value = refl
  values_eq_refl (one_value v vs) = rw (value_eq_refl v, values_eq_refl vs) refl

abbrev Idempotent : {A : Type 0} → (A → A) → Type 0
Idempotent {A} f = (a : A) → f (f a) ≡ f a

at_key-Idempotent : (key : Text) (f : Value → Value) → Idempotent f → Idempotent (at_key key f)
at_key-Idempotent key f h no_entry = refl
at_key-Idempotent key f h (entry k v t) = elim (Bool-cases (text_eq k key)) [
  | inl e ↦ rw e (rw e (ap (λ w. entry k w t) (h v)))
  | inr e ↦ rw e (rw e (ap (entry k v) (at_key-Idempotent key f h t)))
]

each_entry-Idempotent : (f : Value → Value) → Idempotent f → Idempotent (each_entry f)
each_entry-Idempotent f h no_entry = refl
each_entry-Idempotent f h (entry k v t) = ap₂ (entry k) (h v) (each_entry-Idempotent f h t)

in_table-Idempotent : (f : Table → Table) → Idempotent f → Idempotent (in_table f)
in_table-Idempotent f h (table t) = ap table (h t)
in_table-Idempotent f h (string s) = refl
in_table-Idempotent f h (array vs) = refl
in_table-Idempotent f h (other s) = refl

-- Changes under two keys
at_key-commute :
    (key other_key : Text) (f g : Value → Value)
    → text_eq key other_key ≡ false
    → (t : Table) → at_key key f (at_key other_key g t) ≡ at_key other_key g (at_key key f t)
at_key-commute key other_key f g h no_entry = refl
at_key-commute key other_key f g h (entry k v t) = elim (Bool-cases (text_eq k key)) [
  | inl e ↦ elim (Bool-cases (text_eq k other_key)) [
    | inl d ↦
        absurd (false≢true (sym h ∙ subst (λ x. text_eq x other_key ≡ true) (text_eq→eq k key e) d))
    | inr d ↦ rw (e, d) (rw e refl)
  ]
  | inr e ↦ elim (Bool-cases (text_eq k other_key)) [
    | inl d ↦ rw (e, d) (rw e refl)
    | inr d ↦ rw (e, d) (rw e (ap (entry k v) (at_key-commute key other_key f g h t)))
  ]
]

module _ (dir : Text) (absolute : is_absolute dir ≡ true) where
  push_path-absolute : (path : Text) → is_absolute (push_path dir path) ≡ true
  push_path-absolute path = by_dir dir absolute
    where
      by_dir : (d : Text) → is_absolute d ≡ true → is_absolute (push_path d path) ≡ true
      by_dir [] h = absurd (false≢true h)
      by_dir (c ∷ s) h = h

  fix_path-fixed : (path fixed : Text) → fix_path path dir ≡ some fixed → is_absolute fixed ≡ true
  unfolding fix_path
  fix_path-fixed path fixed h =
      elim (Bool-cases (is_absolute path || is_zero (ascent (components path)))) [
        | inl e ↦
            let k = subst (λ b. (if b then none else some (push_path dir path)) ≡ some fixed) e h in
            cc
        | inr e ↦
            let k = subst (λ b. (if b then none else some (push_path dir path)) ≡ some fixed) e h in
            subst (λ o. elim o as (λ o. Type 0) [ some p ↦ is_absolute p ≡ true | none ↦ Unit ]) k
              (push_path-absolute path)
      ]

  fix_path-absolute : (path : Text) → is_absolute path ≡ true → fix_path path dir ≡ none
  unfolding fix_path
  fix_path-absolute path h = rw h refl

  fix_value-Idempotent : Idempotent (fix_value dir)
  unfolding fix_value
  fix_value-Idempotent (string path) = elim (Option-cases (fix_path path dir)) [
    | inl e ↦ rw (e, fix_value) (rw (e, fix_value) refl)
    | inr (fixed, e) ↦
        rw (e, fix_value)
          (rw (fix_path-absolute fixed (fix_path-fixed path fixed e), fix_value) refl)
  ]
  fix_value-Idempotent (table t) = refl
  fix_value-Idempotent (array vs) = refl
  fix_value-Idempotent (other s) = refl

  dependencies-Idempotent : Idempotent (fix_dependency_table dir)
  unfolding fix_dependency_table
  dependencies-Idempotent = in_table-Idempotent _ (
      each_entry-Idempotent _
        (in_table-Idempotent _ (at_key-Idempotent (codes "path") _ fix_value-Idempotent)))

  abbrev on_patches : Value → Value
  on_patches = in_table (each_entry (fix_dependency_table dir))

  patches-Idempotent : Idempotent on_patches
  patches-Idempotent = in_table-Idempotent _ (each_entry-Idempotent _ dependencies-Idempotent)

  fix_sections-Idempotent : Idempotent (fix_sections dir)
  unfolding fix_sections
  fix_sections-Idempotent t =
      let dep = at_key (codes "dependencies") (fix_dependency_table dir) in
      let rep = at_key (codes "replace") (fix_dependency_table dir) in
      let pat = at_key (codes "patch") on_patches in
      ap (λ x. pat (rep x))
        (at_key-commute (codes "dependencies") (codes "patch") _ _ refl (rep (dep t)))
      ∙ (ap (λ x. pat (rep (pat x)))
            (at_key-commute (codes "dependencies") (codes "replace") _ _ refl (dep t))
          ∙ (ap (λ x. pat (rep (pat (rep x))))
                (at_key-Idempotent (codes "dependencies") _ dependencies-Idempotent t)
              ∙ (ap pat (at_key-commute (codes "replace") (codes "patch") _ _ refl (rep (dep t)))
                  ∙ (ap (λ x. pat (pat x))
                        (at_key-Idempotent (codes "replace") _ dependencies-Idempotent (dep t))
                      ∙ at_key-Idempotent (codes "patch") _ patches-Idempotent (rep (dep t))))))

  unchanged : (t : Table) → if_changed (fix_sections dir) (fix_sections dir t) ≡ none
  unchanged t = rw (fix_sections-Idempotent t, table_eq_refl (fix_sections dir t)) refl

module _ {E : Type 0} (parse : Text → Result E Table)
    (to_string_pretty : Table → Result E Text) where
  changed-fixed :
      (dir : Text) (t u : Table) → if_changed (fix_sections dir) t ≡ some u → fix_sections dir t ≡ u
  changed-fixed dir t u h = elim (Bool-cases (table_eq (fix_sections dir t) t)) [
    | inl e ↦
        let k = subst (λ b. (if b then none else some (fix_sections dir t)) ≡ some u) e h in cc
    | inr e ↦
        let k = subst (λ b. (if b then none else some (fix_sections dir t)) ≡ some u) e h in cc
  ]

  printed-some :
      (c : Option Table) (s : Text)
      → printed parse to_string_pretty c ≡ ok (some s)
      → (u : Table) × ((c ≡ some u) × (to_string_pretty u ≡ ok s))
  printed-some none s h = let k = ok_injective none (some s) h in cc
  printed-some (some u) s h =
      let (r, (hr, hk)) = bind_ok (to_string_pretty u) _ (some s) h in
      let k = ok_injective (some r) (some s) hk in
      (
        u,
        (
          refl,
          subst (λ o. elim o as (λ o. Type 0) [ some x ↦ to_string_pretty u ≡ ok x | none ↦ Unit ])
              k hr,
        ),
      )

  settled :
      (dir : Text)
      → is_absolute dir ≡ true
      → (t u : Table) → fix_sections dir t ≡ u
      → if_changed (fix_sections dir) u ≡ none
  settled dir absolute t u e =
      subst (λ x. if_changed (fix_sections dir) x ≡ none) e (unchanged dir absolute t)

  -- The text that `fix_manifest` writes is left unchanged when it is fixed again from the same
  -- absolute directory, provided that TOML that is printed is read back as the same table.
  pub fix_manifest-settled :
      (dir : Text)
      → is_absolute dir ≡ true
      → ((t : Table) (s : Text) → to_string_pretty t ≡ ok s → parse s ≡ ok t)
      → (toml fixed : Text) → fix_manifest parse to_string_pretty toml dir ≡ ok (some fixed)
      → fix_manifest parse to_string_pretty fixed dir ≡ ok none
  unfolding fix_manifest fix_manifest_toml
  fix_manifest-settled dir absolute round toml fixed h =
      let (changed, (hc, hp)) = bind_ok (fix_manifest_toml parse toml dir) _ (some fixed) h in
      let (t, (ht, hd)) = bind_ok (parse toml) _ changed hc in
      let (u, (hu, hs)) = printed-some changed fixed hp in
      let fixed_table =
        changed-fixed dir t u (ok_injective (if_changed (fix_sections dir) t) changed hd ∙ hu) in
      ap (λ r. (r >>= λ x. ok (if_changed (fix_sections dir) x)) >>= printed parse to_string_pretty)
        (round u fixed hs)
      ∙ ap (printed parse to_string_pretty) (settled dir absolute t u fixed_table)
