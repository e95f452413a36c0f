-- ===== src/Shard/Examples.antt =====
-- Tests of sharding, and its theorems at concrete lists.
use mathlib.Core.List.{Perm}
use cargo_mutants.Prelude.{ℕ, ◌≡◌, refl, List, [], ◌∷◌, arith, ok, err}
use cargo_mutants.Prelude.Text.{codes, split_once, parse_usize}
use cargo_mutants.Shard.{
  Shard, round_robin, slice, shard, shards, from_str, not_k_slash_n, k_not_less,
}
use cargo_mutants.Shard.Slice.{shards-slice_all}
use cargo_mutants.Shard.RoundRobin.{shards-round_robin-perm}
use cargo_mutants.Shard.Parse.{from_str-show, from_str-show_refused, show_shard}

abbrev ten : List ℕ
ten = 0 ∷ 1 ∷ 2 ∷ 3 ∷ 4 ∷ 5 ∷ 6 ∷ 7 ∷ 8 ∷ 9 ∷ []

abbrev one_of_four : Shard
one_of_four = record { k = 1; n = 4 }

shard_round_robin : shard round_robin one_of_four ten ≡ 1 ∷ 5 ∷ 9 ∷ []
unfolding shard
shard_round_robin = refl

slice_test : shard slice (record { k = 3; n = 4 }) ten ≡ 9 ∷ []
unfolding shard
slice_test = refl

from_str_valid : from_str (codes "2/5") ≡ ok (record { k = 2; n = 5 })
unfolding from_str split_once parse_usize
from_str_valid = refl

from_str_invalid :
    (from_str (codes "2") ≡ err not_k_slash_n) × (from_str (codes "2/0") ≡ err k_not_less)
unfolding from_str split_once parse_usize
from_str_invalid = (refl, refl)

shards-slice_all_example : shards slice 4 4 ten ≡ ten
shards-slice_all_example = shards-slice_all 4 ten (omega arith)

shards-round_robin-perm_example : Perm (shards round_robin 4 4 ten) ten
shards-round_robin-perm_example = shards-round_robin-perm 4 ten (omega arith)

from_str-show_example : from_str (show_shard one_of_four) ≡ ok one_of_four
from_str-show_example = from_str-show one_of_four (omega arith) (omega arith)

from_str-show_refused_example : from_str (show_shard (record { k = 5; n = 2 })) ≡ err k_not_less
from_str-show_refused_example =
    from_str-show_refused (record { k = 5; n = 2 }) (omega arith) (omega arith)
