-- ===== src/Shard/Slice.antt =====
-- Slice sharding: consecutive ranges that cover the list of mutants.
use cargo_mutants.Prelude.{
  ℕ, zero, suc, ◌+◌, ◌-◌, ◌*◌, ◌^◌, ◌≤◌, ◌<◌, min, leb, if◌then◌else◌, List, [], ◌∷◌, ◌++◌, leb→le,
  length-drop, length, take, drop, ◌≡◌, refl, ap, ap₂, sym, ◌∙◌, arith, drop-all, take-all,
  Bool-cases, inl, inr,
}
use cargo_mutants.Prelude.Text.{usize_mod}
use cargo_mutants.Shard.{slice, div_ceil, drain, slice_of, shard, shards}

-- `div_ceil a b` is the least number of `b`s that cover `a`.
pub div_ceil_bounds : (a b : ℕ) → 0 < b → (a ≤ b * div_ceil a b) × (b * div_ceil a b < a + b)
unfolding div_ceil
div_ceil_bounds a b h = grind arith

module _ {ℓ} {M : Type ℓ} where
  take-nil : (n : ℕ) → take {A = M} n [] ≡ []
  take-nil zero = refl
  take-nil (suc n) = refl

  take-drop : (a b : ℕ) (xs : List M) → take a xs ++ take b (drop a xs) ≡ take (a + b) xs
  take-drop zero b xs = ap (λ n. take n xs) (omega arith)
  take-drop (suc a) b [] = rw (take-nil b, take-nil (suc a + b)) refl
  take-drop (suc a) b (x ∷ xs) =
      ap (λ l. x ∷ l) (take-drop a b xs)
      ∙ ap (λ n. take n (x ∷ xs)) (let e : suc (a + b) ≡ suc a + b = omega arith in e)

  take-min : (n : ℕ) (xs : List M) → take (min n (length xs)) xs ≡ take n xs
  take-min n xs = elim (Bool-cases (leb n (length xs))) [
    | inl e ↦ ap (λ k. take k xs) (ground arith)
    | inr e ↦
        ap (λ k. take k xs) (ground arith)
        ∙ take-all (length xs) xs (omega arith)
        ∙ sym (take-all n xs (ground arith))
  ]

  -- The body of `slice_of` at any chunk size.
  range-eq-take :
      (k c : ℕ) (ms : List M)
      → (if leb (length ms) (k * c) then [] else drain (k * c) (min ((k + 1) * c) (length ms)) ms)
        ≡ take c (drop (k * c) ms)
  range-eq-take k c ms = elim (Bool-cases (leb (length ms) (k * c))) [
    | inl e ↦ rw (e, drop-all (k * c) ms (leb→le _ _ e)) (sym (take-nil c))
    | inr e ↦ rw e (
        ap (λ n. take n (drop (k * c) ms))
          (let f : min ((k + 1) * c) (length ms) - k * c ≡ min c (length (drop (k * c) ms)) =
              omega (arith, length-drop {ℓ} (k * c) ms) in
            f)
        ∙ take-min c (drop (k * c) ms))
  ]

  shards-slice :
      (n j : ℕ) (ms : List M) → shards slice n j ms ≡ take (j * div_ceil (length ms) n) ms
  unfolding shards shard slice_of
  shards-slice n zero ms =
      ap (λ k. take k ms) (let e : 0 ≡ 0 * div_ceil (length ms) n = omega arith in e)
  shards-slice n (suc j) ms =
      let c = div_ceil (length ms) n in
      ap₂ ◌++◌ (shards-slice n j ms) (range-eq-take j c ms)
      ∙ take-drop (j * c) c ms
      ∙ ap (λ k. take k ms) (let e : j * c + c ≡ suc j * c = omega arith in e)

  -- For n > 0, the slices 0, …, n - 1, one after another, are the list of mutants in its order.
  pub shards-slice_all : (n : ℕ) (ms : List M) → 0 < n → shards slice n n ms ≡ ms
  shards-slice_all n ms h =
      shards-slice n n ms
      ∙ take-all (n * div_ceil (length ms) n) ms (div_ceil_bounds (length ms) n h).0

mul_mono : (a b c d : ℕ) → a ≤ b → c ≤ d → a * c ≤ b * d
mul_mono a b c d h k = grind arith

-- The chunk arithmetic stays within a `usize`: the end of the range of shard k < n < 2^64 is below
-- 2^64 for a list of fewer than 2^63 mutants.
pub slice_end-lt :
    (total k n : ℕ)
    → total < 2 ^ 63
    → k < n
    → n < usize_mod
    → (k + 1) * div_ceil total n < usize_mod
slice_end-lt total k n ht hk hn =
    let d = div_ceil total n in
    let (_, below) = div_ceil_bounds total n (omega arith) in
    elim (Bool-cases (leb 2 d)) [
      | inl e ↦ omega (
        arith,
        mul_mono (k + 1) n d d (omega arith) (omega arith),
        mul_mono n n 2 d (omega arith) (leb→le 2 d e),
        below,
      )
      | inr e ↦ omega (arith, mul_mono (k + 1) n d 1 (omega arith) (ground arith))
    ]
