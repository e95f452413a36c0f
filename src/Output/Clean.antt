-- ===== src/Output/Clean.antt =====
-- The file names that `clean_filename` makes.
use cargo_mutants.Prelude.Text.{Text, codes}
use cargo_mutants.Prelude.{
  ℕ, ◌≤◌, ◌≡◌, refl, ap, ◌≢◌, inl, inr, Bool, true, false, ◌||◌, [], ◌∷◌, arith, ◌==◌,
  if◌then◌else◌, ==→eq, Bool-cases, length, All,
}
use cargo_mutants.Output.{replaced_chars, contains_char, clean_filename}

-- The characters that the name of a file in the output directory may not have
abbrev pub forbidden : Text
forbidden = codes "/\\ :<>?*|\""

abbrev pub IsClean : ℕ → Type 0
IsClean c = All (λ d. c ≢ d) forbidden

-- Without the underscores and the characters that a name may not have
abbrev pub is_one_of : Text → ℕ → Bool
is_one_of [] c = false
is_one_of (d ∷ s) c = d == c || is_one_of s c

abbrev pub ordinary : Text → Text
ordinary [] = []
ordinary (c ∷ s) =
    let rest = ordinary s in if is_one_of (b'_' ∷ forbidden) c then rest else c ∷ rest

contains_char-ne : (s : Text) (c : ℕ) → contains_char s c ≡ false → All (λ d. c ≢ d) s
contains_char-ne [] c h = tt
contains_char-ne (d ∷ s) c h = elim (Bool-cases (d == c)) [
  | inl e ↦ let bad : true ≡ false = rw e at h in cc
  | inr e ↦ (λ same. ground arith, contains_char-ne s c (rw e at h))
]

or_true : (b : Bool) → b || true ≡ true
or_true true = refl
or_true false = refl

underscore-IsClean : IsClean b'_'
underscore-IsClean = (
  λ e. omega arith,
  (
    λ e. omega arith,
    (
      λ e. omega arith,
      (
        λ e. omega arith,
        (
          λ e. omega arith,
          (
            λ e. omega arith,
            (λ e. omega arith, (λ e. omega arith, (λ e. omega arith, (λ e. omega arith, tt)))),
          ),
        ),
      ),
    ),
  ),
)

module _ (c : ℕ) (s : Text) where
  step_slash : (c == b'/') ≡ true → clean_filename (c ∷ s) ≡ b'_' ∷ b'_' ∷ clean_filename s
  unfolding clean_filename
  step_slash e = rw e refl

  step_replaced :
      (c == b'/') ≡ false
      → contains_char replaced_chars c ≡ true
      → clean_filename (c ∷ s) ≡ b'_' ∷ clean_filename s
  unfolding clean_filename
  step_replaced e f = rw (e, f) refl

  step_kept :
      (c == b'/') ≡ false
      → contains_char replaced_chars c ≡ false
      → clean_filename (c ∷ s) ≡ c ∷ clean_filename s
  unfolding clean_filename
  step_kept e f = rw (e, f) refl

-- A cleaned name is not shorter than the name, has none of the characters that a file name may not
-- have, and has the other characters of the name, underscores apart, in their order.
pub clean_filename-IsClean :
    (s : Text)
    → All IsClean (clean_filename s)
      × (length s ≤ length (clean_filename s))
      × (ordinary (clean_filename s) ≡ ordinary s)
clean_filename-IsClean [] = (unfold clean_filename in (tt, omega arith, refl))
clean_filename-IsClean (c ∷ s) =
    let (clean, size, same) = clean_filename-IsClean s in
    elim (Bool-cases (c == b'/')) [
      | inl e ↦ rw (step_slash c s e) (
        (underscore-IsClean, (underscore-IsClean, clean)),
        omega (arith, size),
        rw (==→eq c b'/' e) same,
      )
      | inr e ↦ elim (Bool-cases (contains_char replaced_chars c)) [
        | inl f ↦ rw (step_replaced c s e f) (
          (underscore-IsClean, clean),
          omega (arith, size),
          rw (f, or_true (b'/' == c), or_true (b'_' == c)) same,
        )
        | inr f ↦ rw (step_kept c s e f) (
          ((λ same. ground arith, contains_char-ne replaced_chars c f), clean),
          omega (arith, size),
          ap (λ t. if is_one_of (b'_' ∷ forbidden) c then t else c ∷ t) same,
        )
      ]
    ]
