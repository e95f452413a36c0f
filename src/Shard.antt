-- ===== src/Shard.antt =====
-- Sharding of the list of mutants: src/shard.rs. `usize` is a natural number with its bound in the
-- hypotheses that need it. The panics for a modulus of 0 are ruled out by `k < n`, which `from_str`
-- checks.
pub mod Slice
pub mod RoundRobin
pub mod Parse
mod Examples
use cargo_mutants.Prelude.{
  ℕ, zero, suc, ◌++◌, ◌+◌, ◌-◌, ◌*◌, ◌/◌, ◌%◌, min, ltb, leb, ◌==◌, if◌then◌else◌, List, [], ◌∷◌,
  length, take, drop, Result, ok, ok_or, ensure, ◌>>=◌, ◌>>◌,
}
use cargo_mutants.Prelude.Text.{Text, split_once, parse_usize}

-- `struct Shard`
pub record Shard : Type 0 where
  pub k : ℕ
  pub n : ℕ

-- `enum Sharding`
pub data Sharding : Type 0 where
  round_robin slice : Sharding

-- the errors of `Shard::from_str`
pub data ShardError : Type 0 where
  not_k_slash_n bad_k bad_n k_not_less : ShardError

-- `impl FromStr for Shard`
unfoldable pub from_str : Text → Result ShardError Shard
from_str s = do
  (a, b) ← ok_or (split_once b'/' s) not_k_slash_n
  k ← ok_or (parse_usize a) bad_k
  n ← ok_or (parse_usize b) bad_n
  ensure (ltb k n) k_not_less
  ok (record { k = k; n = n })

module _ {ℓ} {M : Type ℓ} where
  -- `enumerate().filter_map(...)`; `i` is the index of the head of the list
  pub select : Shard → ℕ → List M → List M
  select shard i [] = []
  select shard i (m ∷ mutants) =
      let rest = select shard (i + 1) mutants in if i % shard.n == shard.k then m ∷ rest else rest

-- `usize::div_ceil`
pub div_ceil : ℕ → ℕ → ℕ
div_ceil a b = if ltb 0 (a % b) then a / b + 1 else a / b

module _ {ℓ} {M : Type ℓ} where
  -- `Vec::drain(start..end).collect()`
  abbrev pub drain : ℕ → ℕ → List M → List M
  drain start end mutants = take (end - start) (drop start mutants)

  pub slice_of : Shard → List M → List M
  slice_of shard mutants =
      let total = length mutants in
      let chunk_size = div_ceil total shard.n in
      let start = shard.k * chunk_size in
      let end = min ((shard.k + 1) * chunk_size) total in
      if leb total start then [] else drain start end mutants

  -- `Sharding::shard`
  unfoldable pub shard : Sharding → Shard → List M → List M
  unfolding select slice_of div_ceil
  shard round_robin s mutants = select s 0 mutants
  shard slice s mutants = slice_of s mutants

  -- The shards 0, …, j - 1 of n, one after another.
  pub shards : Sharding → ℕ → ℕ → List M → List M
  shards method n zero mutants = []
  shards method n (suc j) mutants =
      shards method n j mutants ++ shard method (record { k = j; n = n }) mutants
