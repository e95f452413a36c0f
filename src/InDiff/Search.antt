-- ===== src/InDiff/Search.antt =====
-- The binary search finds every member of a sorted list.
use cargo_mutants.Prelude.{
  ℕ, zero, suc, ◌+◌, ◌-◌, ◌/◌, ◌≤◌, ◌<◌, ◌≡◌, refl, subst, sym, ◌↔◌, inl, inr, true, false,
  false≢true, List, [], ◌∷◌, arith, ltb, leb, leb→le, ==→eq, ==_refl, Bool-cases, length,
}
use cargo_mutants.InDiff.Affected.{Has, Ascending}
use cargo_mutants.InDiff.Filter.{at_index, search_from, binary_search}

at_index-ge :
    (from : ℕ) (xs : List ℕ) (i : ℕ) → Ascending from xs → i < length xs → from ≤ at_index xs i
unfolding at_index
at_index-ge from [] i a h = absurd (omega arith)
at_index-ge from (x ∷ xs) zero (le, a) h = le
at_index-ge from (x ∷ xs) (suc i) (le, a) h =
    omega (arith, at_index-ge (x + 1) xs i a (omega arith))

at_index-increasing :
    (from : ℕ) (xs : List ℕ) (i j : ℕ)
    → Ascending from xs
    → i < j
    → j < length xs
    → at_index xs i < at_index xs j
unfolding at_index
at_index-increasing from [] i j a h l = absurd (omega arith)
at_index-increasing from (x ∷ xs) i zero a h l = absurd (omega arith)
at_index-increasing from (x ∷ xs) zero (suc j) (le, a) h l =
    omega (arith, at_index-ge (x + 1) xs j a (omega arith))
at_index-increasing from (x ∷ xs) (suc i) (suc j) (le, a) h l =
    at_index-increasing (x + 1) xs i j a (omega arith) (omega arith)

Has-at_index : (x : ℕ) (xs : List ℕ) → Has x xs → (k : ℕ) × (k < length xs) × (at_index xs k ≡ x)
unfolding at_index
Has-at_index x [] h = elim h [ ]
Has-at_index x (y ∷ xs) (inl e) = (0, omega arith, sym e)
Has-at_index x (y ∷ xs) (inr h) = let (k, lt, e) = Has-at_index x xs h in (suc k, omega arith, e)

at_index-Has : (xs : List ℕ) (k : ℕ) → k < length xs → Has (at_index xs k) xs
unfolding at_index
at_index-Has [] k h = absurd (omega arith)
at_index-Has (x ∷ xs) zero h = inl refl
at_index-Has (x ∷ xs) (suc k) h = inr (at_index-Has xs k (omega arith))

half_bounds : (n : ℕ) → leb n 1 ≡ false → (1 ≤ n / 2) × (n / 2 < n)
half_bounds n h = let big : 1 < n = ground arith in (omega arith, omega arith)

search_from-lt :
    (fuel : ℕ) (xs : List ℕ) (x base size : ℕ)
    → 1 ≤ size
    → search_from fuel xs x base size < base + size
unfolding search_from
search_from-lt zero xs x base size h = omega arith
search_from-lt (suc fuel) xs x base size h =
    let half = size / 2 in
    elim (Bool-cases (leb size 1)) [
      | inl e ↦ rw e (omega arith)
      | inr e ↦
          let (some_left, less) = half_bounds size e in
          let left = search_from-lt fuel xs x base (size - half) (omega arith) in
          let right = search_from-lt fuel xs x (base + half) (size - half) (omega arith) in
          elim (Bool-cases (ltb x (at_index xs (base + half)))) [
            | inl f ↦ rw e (rw f (omega arith))
            | inr f ↦ rw e (rw f (omega arith))
          ]
    ]

search_from-finds :
    (fuel : ℕ) (xs : List ℕ) (x base size k : ℕ)
    → Ascending 0 xs
    → size ≤ fuel
    → base ≤ k
    → k < base + size
    → base + size ≤ length xs
    → at_index xs k ≡ x
    → search_from fuel xs x base size ≡ k
unfolding search_from
search_from-finds zero xs x base size k a f l u b e = absurd (omega arith)
search_from-finds (suc fuel) xs x base size k a f l u b e =
    let half = size / 2 in
    elim (Bool-cases (leb size 1)) [
      | inl p ↦ let small = leb→le size 1 p in rw p (omega arith)
      | inr p ↦
          let (some_left, less) = half_bounds size p in
          elim (Bool-cases (ltb x (at_index xs (base + half)))) [
            | inl q ↦
                let below : k < base + half =
                  ground (arith, at_index-increasing 0 xs (base + half) k a) in
                rw p (
                  rw q (
                    search_from-finds fuel xs x base (size - half) k a (omega arith) l (omega arith)
                      (omega arith) e))
            | inr q ↦
                let above : base + half ≤ k =
                  ground (arith, at_index-increasing 0 xs k (base + half) a) in
                rw p (
                  rw q (
                    search_from-finds fuel xs x (base + half) (size - half) k a (omega arith) above
                      (omega arith) (omega arith) e))
          ]
    ]

-- On a sorted list without duplicates the binary search succeeds just for the members.
pub binary_search_iff :
    (x : ℕ) (xs : List ℕ) → Ascending 0 xs → (binary_search xs x ≡ true) ↔ Has x xs
unfolding binary_search
binary_search_iff x [] a = (λ h. absurd (false≢true h), λ h. elim h [ ])
binary_search_iff x (y ∷ ys) a =
    let n = length (y ∷ ys) in
    let lt = search_from-lt n (y ∷ ys) x 0 n (omega arith) in
    (
      λ h.
          let same = ==→eq (at_index (y ∷ ys) (search_from n (y ∷ ys) x 0 n)) x h in
          subst (λ z. Has z (y ∷ ys)) same
            (at_index-Has (y ∷ ys) (search_from n (y ∷ ys) x 0 n) (omega arith)),
      λ h.
          let (k, inside, e) = Has-at_index x (y ∷ ys) h in
          let found =
            search_from-finds n (y ∷ ys) x 0 n k a (omega arith) (omega arith) (omega arith)
              (omega arith) e in
          rw found (rw e (==_refl x)),
    )
