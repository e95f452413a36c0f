-- ===== src/Shard/Parse.antt =====
-- Reading a shard, `k/n`.
use cargo_mutants.Prelude.{
  ◌<◌, ◌≡◌, ◌≢◌, ◌∙◌, ◌≤◌, false, [], ◌∷◌, ◌++◌, All, arith, ok, err, ensure, ◌>>=◌, lt→ltb, ltb,
}
use cargo_mutants.Prelude.Text.{
  Text, IsDigit, usize_mod, split_once-append, parse_usize-lt, show_usize, parse-show_usize,
  show_usize-IsDigit,
}
use cargo_mutants.Shard.{Shard, k_not_less, from_str}

All-ne-slash : (s : Text) → All IsDigit s → All (λ x. x ≢ b'/') s
All-ne-slash [] h = tt
All-ne-slash (c ∷ s) h = (omega arith, All-ne-slash s h.1)

-- The text that names a shard.
abbrev pub show_shard : Shard → Text
show_shard s = show_usize s.k ++ b'/' ∷ show_usize s.n

module _ (s : Shard) (hk : s.k < usize_mod) (hn : s.n < usize_mod) where
  from_str-cases : from_str (show_shard s) ≡ (ensure (ltb s.k s.n) k_not_less >>= λ _. ok s)
  unfolding from_str
  from_str-cases = rw (
    split_once-append b'/' (show_usize s.k) (show_usize s.n)
        (All-ne-slash _ (show_usize-IsDigit s.k)),
    parse-show_usize s.k hk,
    parse-show_usize s.n hn,
  )

-- A shard with k < n < 2^64 reads back from its text.
pub from_str-show : (s : Shard) → s.k < s.n → s.n < usize_mod → from_str (show_shard s) ≡ ok s
from_str-show s h hn = from_str-cases s (omega arith) hn ∙ rw (lt→ltb s.k s.n h)

-- Text that names a shard with k ≥ n is refused.
pub from_str-show_refused :
    (s : Shard) → s.n ≤ s.k → s.k < usize_mod → from_str (show_shard s) ≡ err k_not_less
from_str-show_refused s h hk =
    from_str-cases s hk (omega arith) ∙ (let e : ltb s.k s.n ≡ false = ground arith in rw e)

-- Every shard that is read has k < n < 2^64, so its modulus is not 0.
pub from_str-IsValid : (t : Text) (s : Shard) → from_str t ≡ ok s → (s.k < s.n) × (s.n < usize_mod)
unfolding from_str
from_str-IsValid t s h = grind (arith, parse_usize-lt)
