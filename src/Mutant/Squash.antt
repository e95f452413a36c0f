-- ===== src/Mutant/Squash.antt =====
-- `squash_lines` leaves one line.
use cargo_mutants.Prelude.Text.{Text}
use cargo_mutants.Prelude.{
  ◌≡◌, ◌≢◌, inl, inr, Bool, true, false, ◌&&◌, ◌||◌, [], ◌∷◌, ◌++◌, arith, ◌==◌, if◌then◌else◌,
  Bool-cases, All,
}
use mathlib.Core.List.{reverse, reverse-append}
use cargo_mutants.Source.{contains}
use cargo_mutants.Mutant.{squash_loop, squash_lines, ends_with_space}

abbrev IsOneLine : Text → Type 0
IsOneLine s = All (λ c. c ≢ b'\n') s

All-append : (s t : Text) → IsOneLine s → IsOneLine t → IsOneLine (s ++ t)
All-append [] t h k = k
All-append (c ∷ s) t h k = (h.0, All-append s t h.1 k)

All-reverse : (s : Text) → IsOneLine s → IsOneLine (reverse s)
All-reverse [] h = tt
All-reverse (c ∷ s) h =
    rw (reverse-append (c ∷ []) s) (All-append (reverse s) (c ∷ []) (All-reverse s h.1) (h.0, tt))

spaced-IsOneLine : (r : Text) → IsOneLine r → IsOneLine (if ends_with_space r then r else b' ' ∷ r)
spaced-IsOneLine r h = elim (Bool-cases (ends_with_space r)) [
  | inl e ↦ rw e h
  | inr e ↦ rw e (omega arith, h)
]

squash_loop-IsOneLine :
    (r : Text) (in_indent : Bool) (s : Text) → IsOneLine r → IsOneLine (squash_loop r in_indent s)
unfolding squash_loop
squash_loop-IsOneLine r in_indent [] h = All-reverse r h
squash_loop-IsOneLine r in_indent (c ∷ s) h =
    elim (Bool-cases ((c == b' ' || c == b'\t' || c == b'\n') && in_indent)) [
      | inl e ↦ rw e (squash_loop-IsOneLine r in_indent s h)
      | inr e ↦ elim (Bool-cases (c == b'\n')) [
        | inl f ↦ rw e (
            rw f (
              squash_loop-IsOneLine (if ends_with_space r then r else b' ' ∷ r) true s
                (spaced-IsOneLine r h)))
        | inr f ↦
            let n : c ≢ b'\n' = ground arith in
            rw e (rw f (squash_loop-IsOneLine (c ∷ r) false s (n, h)))
      ]
    ]

contains-false : (s : Text) → contains b'\n' s ≡ false → IsOneLine s
unfolding contains
contains-false [] h = tt
contains-false (c ∷ s) h = (ground arith, contains-false s (ground arith))

-- The result has no line end in it.
pub squash_lines-IsOneLine : (s : Text) → All (λ c. c ≢ b'\n') (squash_lines s)
unfolding squash_lines
squash_lines-IsOneLine s = elim (Bool-cases (contains b'\n' s)) [
  | inl e ↦ rw e (squash_loop-IsOneLine [] false s tt)
  | inr e ↦ rw e (contains-false s e)
]
