-- ===== src/Shard/RoundRobin.antt =====
-- Round-robin sharding: mutant `i` goes to shard `i % n`.
use mathlib.Core.List.{Perm, perm_middle}
use mathlib.Core.List.Perm
use native.Mathlib.Nat.{mod-lt}
use cargo_mutants.Prelude.{
  ℕ, zero, suc, ◌+◌, ◌%◌, ◌<◌, ltb, ◌==◌, if◌then◌else◌, List, [], ◌∷◌, ◌++◌, All, ◌≡◌, refl, arith,
  Bool-cases, inl, inr, true, false, ==→eq, lt→ltb,
}
use cargo_mutants.Shard.{Shard, round_robin, select, shard, shards}

module _ {ℓ} {M : Type ℓ} where
  -- The first `j` of the `n` shards of a list whose head has index `i`.
  pieces : ℕ → ℕ → ℕ → List M → List M
  pieces n zero i ms = []
  pieces n (suc j) i ms = pieces n j i ms ++ select (record { k = j; n = n }) i ms

  pieces-nil : (n j i : ℕ) → pieces n j i [] ≡ []
  unfolding pieces select
  pieces-nil n zero i = refl
  pieces-nil n (suc j) i = rw (pieces-nil n j i)

  shards-pieces : (n j : ℕ) (ms : List M) → shards round_robin n j ms ≡ pieces n j 0 ms
  unfolding pieces shards shard
  shards-pieces n zero ms = refl
  shards-pieces n (suc j) ms = rw (shards-pieces n j ms)

  -- The head is in one piece, the piece `i % n`, if that is among the first `j`.
  pieces-perm-cons :
      (n j i : ℕ) (m : M) (ms : List M)
      → Perm
          (pieces n j i (m ∷ ms))
          (if ltb (i % n) j then m ∷ pieces n j (i + 1) ms else pieces n j (i + 1) ms)
  unfolding pieces select
  pieces-perm-cons n zero i m ms =
      let a : ltb (i % n) 0 ≡ false = ground arith in rw a (Perm.refl [])
  pieces-perm-cons n (suc j) i m ms = elim (Bool-cases (i % n == j)) [
    | inl e ↦
        let a : ltb (i % n) j ≡ false = ground arith in
        let b : ltb (i % n) (suc j) ≡ true = ground arith in
        rw (e, b)
          (Perm.trans (Perm.append_right _ (rw a at (pieces-perm-cons n j i m ms)))
            (perm_middle _ _))
    | inr e ↦ elim (Bool-cases (ltb (i % n) j)) [
      | inl a ↦
          let b : ltb (i % n) (suc j) ≡ true = ground arith in
          rw (e, b) (Perm.append_right _ (rw a at (pieces-perm-cons n j i m ms)))
      | inr a ↦
          let b : ltb (i % n) (suc j) ≡ false = ground arith in
          rw (e, b) (Perm.append_right _ (rw a at (pieces-perm-cons n j i m ms)))
    ]
  ]

  pieces-perm : (n i : ℕ) (ms : List M) → 0 < n → Perm (pieces n n i ms) ms
  pieces-perm n i [] h = rw (pieces-nil n n i) (Perm.refl [])
  pieces-perm n i (m ∷ ms) h =
      let a : ltb (i % n) n ≡ true = lt→ltb (i % n) n (mod-lt i h) in
      Perm.trans (rw a at (pieces-perm-cons n n i m ms)) (Perm.cons m (pieces-perm n (i + 1) ms h))

  -- For n > 0, every mutant is in exactly one shard: the shards together are a permutation of the list.
  pub shards-round_robin-perm : (n : ℕ) (ms : List M) → 0 < n → Perm (shards round_robin n n ms) ms
  shards-round_robin-perm n ms h = rw (shards-pieces n n ms) (pieces-perm n 0 ms h)

  -- `Iterator::enumerate`, from `i` on
  abbrev pub enumerate : ℕ → List M → List (ℕ × M)
  enumerate i [] = []
  enumerate i (m ∷ ms) = (i, m) ∷ enumerate (i + 1) ms

  select-enumerate :
      (s : Shard) (i : ℕ) (ms : List M) → All (λ p. p.0 % s.n ≡ s.k) (select s i (enumerate i ms))
  unfolding select
  select-enumerate s i [] = tt
  select-enumerate s i (m ∷ ms) = elim (Bool-cases (i % s.n == s.k)) [
    | inl e ↦ rw e (==→eq _ _ e, select-enumerate s (i + 1) ms)
    | inr e ↦ rw e (select-enumerate s (i + 1) ms)
  ]

  -- Of a list of mutants paired with their positions, shard k of n has only positions that are k
  -- modulo n.
  pub round_robin-positions :
      (s : Shard) (ms : List M) → All (λ p. p.0 % s.n ≡ s.k) (shard round_robin s (enumerate 0 ms))
  unfolding shard
  round_robin-positions s ms = select-enumerate s 0 ms
