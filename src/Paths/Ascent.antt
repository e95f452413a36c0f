-- ===== src/Paths/Ascent.antt =====
-- What `ascent` measures, by following the path from a directory.
use cargo_mutants.Prelude.Text.{text_eq}
use cargo_mutants.Prelude.{
  ℕ, zero, suc, ◌+◌, ◌≡◌, ◌↔◌, inl, inr, Option, none, some, [], ◌∷◌, arith, if◌then◌else◌,
  Bool-cases,
}
use cargo_mutants.Prelude.Int.{ℤ, pos, pos_part, neg_part, ◌+ℤ◌, ◌-ℤ◌, ◌≤ℤ◌, max_ℤ, max_ℤ-le_iff}
use cargo_mutants.Paths.{FilePath, dot, dot_dot, climb, ascent}

-- The depth below the root to which a path leads from a directory that is `depth` levels below it;
-- `none` if the path ever leaves the root.
unfoldable pub follow : ℕ → FilePath → Option ℕ
follow depth [] = some depth
follow zero (c ∷ p) =
    let rest = follow zero p in
    let below = follow (suc zero) p in
    if text_eq c dot_dot then none else if text_eq c dot then rest else below
follow (suc depth) (c ∷ p) =
    let above = follow depth p in
    let same = follow (suc depth) p in
    let below = follow (suc (suc depth)) p in
    if text_eq c dot_dot then above else if text_eq c dot then same else below

abbrev pub IsSome : Option ℕ → Type 0
IsSome none = ⊥
IsSome (some n) = Unit

climb-ge : (highest level b : ℤ) (p : FilePath) → climb highest level p ≤ℤ b → highest ≤ℤ b
unfolding climb
climb-ge highest level b [] h = h
climb-ge highest level b (c ∷ p) h = elim (Bool-cases (text_eq c dot_dot)) [
  | inl t ↦
      let ih = climb-ge (max_ℤ (level +ℤ pos 1) highest) (level +ℤ pos 1) b p (rw t at h) in
      ((max_ℤ-le_iff (level +ℤ pos 1) highest b).0 ih).1
  | inr f ↦ elim (Bool-cases (text_eq c dot)) [
    | inl t ↦ climb-ge highest level b p (rw (f, t) at h)
    | inr g ↦ climb-ge highest (level -ℤ pos 1) b p (rw (f, g) at h)
  ]
]

module _ (base depth : ℕ) (level : ℤ) where
  level_up :
      pos_part level + suc depth ≡ base + neg_part level
      → pos_part (level +ℤ pos 1) + depth ≡ base + neg_part (level +ℤ pos 1)
  unfolding ◌+ℤ◌
  level_up e = ground arith

  level_down :
      pos_part level + depth ≡ base + neg_part level
      → pos_part (level -ℤ pos 1) + suc depth ≡ base + neg_part (level -ℤ pos 1)
  unfolding ◌-ℤ◌
  level_down e = ground arith

up_iff :
    (base depth : ℕ) (highest level : ℤ)
    → pos_part level + suc depth ≡ base + neg_part level
    → (max_ℤ (level +ℤ pos 1) highest ≤ℤ pos base) ↔ (highest ≤ℤ pos base)
unfolding ◌+ℤ◌ max_ℤ
up_iff base depth highest level e = (λ h. ground arith, λ h. ground arith)

beyond :
    (base : ℕ) (level : ℤ)
    → pos_part level + 0 ≡ base + neg_part level
    → ¬ (level +ℤ pos 1 ≤ℤ pos base)
unfolding ◌+ℤ◌
beyond base level e h = ground arith

climb_beyond :
    (base : ℕ) (highest level : ℤ) (p : FilePath)
    → pos_part level + 0 ≡ base + neg_part level
    → ¬ (climb (max_ℤ (level +ℤ pos 1) highest) (level +ℤ pos 1) p ≤ℤ pos base)
climb_beyond base highest level p e h =
    let ih = climb-ge (max_ℤ (level +ℤ pos 1) highest) (level +ℤ pos 1) (pos base) p h in
    let up = ((max_ℤ-le_iff (level +ℤ pos 1) highest (pos base)).0 ih).0 in beyond base level e up

-- `depth` levels below the root is at `level` above the start, where the start is `base` below it.
climb_iff :
    (base depth : ℕ) (highest level : ℤ) (p : FilePath)
    → pos_part level + depth ≡ base + neg_part level
    → (climb highest level p ≤ℤ pos base) ↔ ((highest ≤ℤ pos base) × IsSome (follow depth p))
unfolding climb follow
climb_iff base depth highest level [] e = (λ h. (h, tt), λ h. h.0)
climb_iff base zero highest level (c ∷ p) e = elim (Bool-cases (text_eq c dot_dot)) [
  | inl t ↦ rw t (λ h. absurd (climb_beyond base highest level p e h), λ h. absurd h.1)
  | inr f ↦ elim (Bool-cases (text_eq c dot)) [
    | inl t ↦ rw (f, t) (climb_iff base zero highest level p e)
    | inr g ↦ rw (f, g) (climb_iff base 1 highest (level -ℤ pos 1) p (level_down base 0 level e))
  ]
]
climb_iff base (suc depth) highest level (c ∷ p) e = elim (Bool-cases (text_eq c dot_dot)) [
  | inl t ↦
      let (sound, complete) =
        climb_iff base depth (max_ℤ (level +ℤ pos 1) highest) (level +ℤ pos 1) p
          (level_up base depth level e) in
      let (out, back) = up_iff base depth highest level e in
      rw t (λ h. (out (sound h).0, (sound h).1), λ h. complete (back h.0, h.1))
  | inr f ↦ elim (Bool-cases (text_eq c dot)) [
    | inl t ↦ rw (f, t) (climb_iff base (suc depth) highest level p e)
    | inr g ↦
        rw (f, g)
          (climb_iff base (suc (suc depth)) highest (level -ℤ pos 1) p
            (level_down base (suc depth) level e))
  ]
]

-- A path stays below every root from which its start is as deep as its ascent, and leaves every
-- other: `ascent path` is the least depth from which it can be followed.
pub ascent_iff :
    (depth : ℕ) (path : FilePath) → (ascent path ≤ℤ pos depth) ↔ IsSome (follow depth path)
unfolding ascent
ascent_iff depth path =
    let (sound, complete) = climb_iff depth depth (pos 0) (pos 0) path (omega arith) in
    (λ h. (sound h).1, λ h. complete (omega arith, h))
