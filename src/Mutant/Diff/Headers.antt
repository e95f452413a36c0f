-- ===== src/Mutant/Diff/Headers.antt =====
-- Renumbering a hunk header.
use cargo_mutants.Prelude.Text.{
  Text, codes, usize_mod, IsDigit, show_usize, split_once, strip_prefix, split_once-append,
  parse-show_usize, show_usize-IsDigit,
}
use cargo_mutants.Prelude.{
  ℕ, ◌+◌, ◌%◌, ◌<◌, ◌≡◌, refl, ◌≢◌, Option, none, some, List, [], ◌∷◌, ◌++◌, arith, ◌==◌,
  if◌then◌else◌, All,
}
use cargo_mutants.Mutant.Diff.{
  split_once_at, shift_hunk_range, shift_start, renumber_hunk_header, header_start, header_middle,
  header_end,
}

strip_prefix-append : (p s : Text) → strip_prefix p (p ++ s) ≡ some s
unfolding strip_prefix
strip_prefix-append [] s = refl
strip_prefix-append (c ∷ p) s = ground (arith, strip_prefix-append p s)

strip_prefix-ne : (x c : ℕ) (p s : Text) → c ≢ x → strip_prefix (x ∷ p) (c ∷ s) ≡ none
unfolding strip_prefix
strip_prefix-ne x c p s h = ground arith

split_once_at-append :
    (x : ℕ) (p a b : Text)
    → All (λ c. c ≢ x) a
    → split_once_at (x ∷ p) (a ++ ((x ∷ p) ++ b)) ≡ some (a, b)
unfolding split_once_at
split_once_at-append x p [] b h = rw (strip_prefix-append (x ∷ p) b, split_once_at)
split_once_at-append x p (c ∷ a) b h = rw (
  strip_prefix-ne x c p (a ++ ((x ∷ p) ++ b)) h.0,
  split_once_at-append x p a b h.1,
  split_once_at,
)

-- `a,b`, or `a` alone
abbrev pub show_range : ℕ → Option ℕ → Text
show_range start (some count) = show_usize start ++ (b',' ∷ show_usize count)
show_range start none = show_usize start

-- A hunk header, with what follows it on the line
abbrev pub show_header : ℕ → Option ℕ → ℕ → Option ℕ → Text → Text
show_header a b c d tail =
    header_start ++ (show_range a b ++ (header_middle ++ (show_range c d ++ (header_end ++ tail))))

All-digits-ne : (x : ℕ) (s : Text) → (x < b'0') → All IsDigit s → All (λ c. c ≢ x) s
All-digits-ne x [] h d = tt
All-digits-ne x (c ∷ s) h d = (omega arith, All-digits-ne x s h d.1)

All-append {ℓ} : {A : Type 0} (P : A → Type ℓ) (s t : List A) → All P s → All P t → All P (s ++ t)
All-append P [] t h k = k
All-append P (c ∷ s) t h k = (h.0, All-append P s t h.1 k)

show_range-ne_space : (a : ℕ) (b : Option ℕ) → All (λ c. c ≢ b' ') (show_range a b)
show_range-ne_space a none = All-digits-ne b' ' (show_usize a) (omega arith) (show_usize-IsDigit a)
show_range-ne_space a (some b) =
    All-append (λ c. c ≢ b' ') (show_usize a) (b',' ∷ show_usize b)
      (All-digits-ne b' ' (show_usize a) (omega arith) (show_usize-IsDigit a))
      (omega arith, All-digits-ne b' ' (show_usize b) (omega arith) (show_usize-IsDigit b))

split_once-none : (c : ℕ) (s : Text) → All (λ x. x ≢ c) s → split_once c s ≡ none
unfolding split_once
split_once-none c [] h = refl
split_once-none c (x ∷ s) h = ground (arith, split_once-none c s, h.0)

mod_small : (n : ℕ) → n < usize_mod → n % usize_mod ≡ n
mod_small n h = omega arith

shift_start-lem :
    (a offset : ℕ)
    → a + offset < usize_mod
    → shift_start offset a ≡ (if a == 0 then 0 else a + offset)
shift_start-lem a offset h = rw (mod_small (a + offset) h) refl

shift_hunk_range-show :
    (a : ℕ) (b : Option ℕ) (offset : ℕ)
    → a < usize_mod
    → shift_hunk_range (show_range a b) offset ≡ some (show_range (shift_start offset a) b)
unfolding shift_hunk_range
shift_hunk_range-show a none offset h = rw (
  split_once-none b',' (show_usize a)
      (All-digits-ne b',' (show_usize a) (omega arith) (show_usize-IsDigit a)),
  parse-show_usize a h,
  shift_hunk_range,
)
shift_hunk_range-show a (some b) offset h = rw (
  split_once-append b',' (show_usize a) (show_usize b)
      (All-digits-ne b',' (show_usize a) (omega arith) (show_usize-IsDigit a)),
  parse-show_usize a h,
  shift_hunk_range,
)

-- A header, with a count or without one on each side, is renumbered on both sides, a start of 0
-- excepted, where its starts stay below 2^64; the counts and what follows the header stay.
pub renumber_hunk_header-show :
    (a : ℕ) (b : Option ℕ) (c : ℕ) (d : Option ℕ) (offset : ℕ) (tail : Text)
    → a + offset < usize_mod
    → c + offset < usize_mod
    → renumber_hunk_header (show_header a b c d tail) offset
      ≡ some (
          show_header
            (if a == 0 then 0 else a + offset)
            b
            (if c == 0 then 0 else c + offset)
            d
            tail)
unfolding renumber_hunk_header
renumber_hunk_header-show a b c d offset tail ha hc = rw (
  strip_prefix-append header_start
      (show_range a b ++ (header_middle ++ (show_range c d ++ (header_end ++ tail)))),
  split_once_at-append b' ' (codes "+") (show_range a b) (show_range c d ++ (header_end ++ tail))
      (show_range-ne_space a b),
  split_once_at-append b' ' (codes "@@") (show_range c d) tail (show_range-ne_space c d),
  shift_hunk_range-show a b offset (omega arith),
  shift_hunk_range-show c d offset (omega arith),
  shift_start-lem a offset ha,
  shift_start-lem c offset hc,
)
