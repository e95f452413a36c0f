-- ===== src/Prelude/Text.antt =====
-- Text as a list of Unicode scalar values, and the decimal numbers that the program reads and
-- prints (`str::parse::<usize>` and `usize`'s `Display`).
use Prim.Native.Nat.{ℕ, zero, suc, ◌+◌, ◌-◌, ◌*◌, ◌/◌, ◌%◌, ◌^◌, ◌≤◌, ◌<◌}
use Prim.Native.Char.{code}
use Prim.Native.String.{String}
use mathlib.Core.Path.{◌≡◌, refl, ◌∙◌, ap}
use mathlib.Core.Logic.{◌≢◌, ◌↔◌, inl, inr}
use mathlib.Core.Bool.{Bool, true, false, ◌&&◌}
use mathlib.Core.Option.{Option, none, some}
use mathlib.Core.List.{List, [], ◌∷◌, ◌++◌}
use native.Mathlib.Omega.{arith}
use cargo_mutants.Prelude.Tests.{ltb, leb, ◌==◌, if◌then◌else◌, Bool-cases, ltb→lt}
use cargo_mutants.Prelude.Lists.{All, length, length-append}

abbrev pub Text : Type 0
Text = List ℕ

abbrev pub codes : String → Text
codes String.[] = []
codes (String.◌∷◌ c s) = code c ∷ codes s

-- The first number that a `usize` of 64 bits cannot hold.
abbrev pub usize_mod : ℕ
usize_mod = 2 ^ 64

abbrev pub IsDigit : ℕ → Type 0
IsDigit c = (b'0' ≤ c) × (c ≤ b'9')

abbrev pub is_digit : ℕ → Bool
is_digit c = leb b'0' c && leb c b'9'

pub parse_digits : ℕ → Text → Option ℕ
parse_digits acc [] = some acc
parse_digits acc (c ∷ s) =
    let v = acc * 10 + (c - b'0') in
    let rest = parse_digits v s in if is_digit c && ltb v usize_mod then rest else none

-- `str::parse::<usize>`: a `+` is allowed, no digit at all is not.
unfoldable pub parse_usize : Text → Option ℕ
unfolding parse_digits
parse_usize [] = none
parse_usize (c ∷ []) = parse_digits 0 (c ∷ [])
parse_usize (c ∷ d ∷ s) = if c == b'+' then parse_digits 0 (d ∷ s) else parse_digits 0 (c ∷ d ∷ s)

-- `usize`'s `Display`. The fuel is one more than the number, which has fewer digits than that.
show_fuel : ℕ → ℕ → Text
show_fuel zero n = []
show_fuel (suc f) n =
    let rest = show_fuel f (n / 10) ++ (b'0' + n % 10) ∷ [] in
    if ltb n 10 then (b'0' + n) ∷ [] else rest

unfoldable pub show_usize : ℕ → Text
unfolding show_fuel
show_usize n = show_fuel (suc n) n

-- `str::split_once` at a character
unfoldable pub split_once : ℕ → Text → Option (Text × Text)
split_once c [] = none
split_once c (x ∷ s) =
    if x == c
    then some ([], s)
    else elim (split_once c s) [ none ↦ none | some (a, b) ↦ some (x ∷ a, b) ]

pub split_once-append :
    (c : ℕ) (a b : Text) → All (λ x. x ≢ c) a → split_once c (a ++ c ∷ b) ≡ some (a, b)
unfolding split_once
split_once-append c [] b h = ground arith
split_once-append c (x ∷ a) b h = ground (arith, split_once-append c a b, h.0)

parse_digits-append :
    (s : Text) (acc n d : ℕ)
    → parse_digits acc s ≡ some n
    → d < 10
    → n * 10 + d < usize_mod
    → parse_digits acc (s ++ (b'0' + d) ∷ []) ≡ some (n * 10 + d)
unfolding parse_digits
parse_digits-append [] acc n d h p q = ground arith
parse_digits-append (c ∷ s) acc n d h p q =
    ground (arith, parse_digits-append s (acc * 10 + (c - b'0')) n d)

parse_digits-last :
    (f n : ℕ)
    → n < suc f
    → n < usize_mod
    → parse_digits 0 (show_fuel f (n / 10)) ≡ some (n / 10)
    → parse_digits 0 (show_fuel f (n / 10) ++ (b'0' + n % 10) ∷ []) ≡ some n
parse_digits-last f n h k e =
    parse_digits-append (show_fuel f (n / 10)) 0 (n / 10) (n % 10) e (omega arith) (omega arith)
    ∙ ap some (omega arith)

parse_digits-show_fuel : (f n : ℕ) → n < f → n < usize_mod → parse_digits 0 (show_fuel f n) ≡ some n
unfolding show_fuel parse_digits
parse_digits-show_fuel zero n h k = absurd (omega arith)
parse_digits-show_fuel (suc f) n h k = elim (Bool-cases (ltb n 10)) [
  | inl e ↦ rw e (ground arith)
  | inr e ↦
      rw e
        (parse_digits-last f n h k (parse_digits-show_fuel f (n / 10) (ground arith) (omega arith)))
]

All-IsDigit-append :
    (s : Text) (d : ℕ) → All IsDigit s → d < 10 → All IsDigit (s ++ (b'0' + d) ∷ [])
All-IsDigit-append [] d h p = omega arith
All-IsDigit-append (c ∷ s) d h p = (h.0, All-IsDigit-append s d h.1 p)

show_fuel-IsDigit : (f n : ℕ) → All IsDigit (show_fuel f n)
unfolding show_fuel
show_fuel-IsDigit zero n = tt
show_fuel-IsDigit (suc f) n = elim (Bool-cases (ltb n 10)) [
  | inl e ↦ rw e (omega (arith, ltb→lt n 10 e))
  | inr e ↦ rw e (
      All-IsDigit-append (show_fuel f (n / 10)) (n % 10) (show_fuel-IsDigit f (n / 10))
        (omega arith))
]

-- The digits that a number prints as.
pub show_usize-IsDigit : (n : ℕ) → All IsDigit (show_usize n)
unfolding show_usize
show_usize-IsDigit n = show_fuel-IsDigit (suc n) n

show_fuel-ne : (f n : ℕ) → 0 < length (show_fuel (suc f) n)
unfolding show_fuel
show_fuel-ne f n = elim (Bool-cases (ltb n 10)) [
  | inl e ↦ rw e (omega arith)
  | inr e ↦ rw e (omega (arith, length-append {0} (show_fuel f (n / 10)) ((b'0' + n % 10) ∷ [])))
]

parse_usize-digits : (s : Text) → All IsDigit s → 0 < length s → parse_usize s ≡ parse_digits 0 s
unfolding parse_usize
parse_usize-digits [] d h = absurd (omega arith)
parse_usize-digits (c ∷ []) d h = refl
parse_usize-digits (c ∷ e ∷ s) d h = ground (arith, d.0.0)

-- A printed number reads back.
pub parse-show_usize : (n : ℕ) → n < usize_mod → parse_usize (show_usize n) ≡ some n
unfolding show_usize
parse-show_usize n h =
    parse_usize-digits (show_fuel (suc n) n) (show_fuel-IsDigit (suc n) n) (show_fuel-ne n n)
    ∙ parse_digits-show_fuel (suc n) n (omega arith) h

parse_digits-lt :
    (s : Text) (acc n : ℕ) → acc < usize_mod → parse_digits acc s ≡ some n → n < usize_mod
unfolding parse_digits
parse_digits-lt [] acc n h e = ground arith
parse_digits-lt (c ∷ s) acc n h e = ground (arith, parse_digits-lt s (acc * 10 + (c - b'0')) n)

-- A number that is read fits its 64 bits.
pub parse_usize-lt : (s : Text) (n : ℕ) → parse_usize s ≡ some n → n < usize_mod
unfolding parse_usize
parse_usize-lt [] n e = cc
parse_usize-lt (c ∷ []) n e = parse_digits-lt (c ∷ []) 0 n (omega arith) e
parse_usize-lt (c ∷ d ∷ s) n e = elim (Bool-cases (c == b'+')) [
  | inl p ↦ parse_digits-lt (d ∷ s) 0 n (omega arith) (rw p at e)
  | inr p ↦ parse_digits-lt (c ∷ d ∷ s) 0 n (omega arith) (rw p at e)
]

abbrev pub text_eq : Text → Text → Bool
text_eq [] [] = true
text_eq [] (d ∷ t) = false
text_eq (c ∷ s) [] = false
text_eq (c ∷ s) (d ∷ t) = c == d && text_eq s t

pub text_eq_refl : (s : Text) → text_eq s s ≡ true
text_eq_refl [] = refl
text_eq_refl (c ∷ s) = ground (arith, text_eq_refl s)

pub text_eq→eq : (s t : Text) → text_eq s t ≡ true → s ≡ t
text_eq→eq [] [] h = refl
text_eq→eq [] (d ∷ t) h = cc
text_eq→eq (c ∷ s) [] h = cc
text_eq→eq (c ∷ s) (d ∷ t) h = ground (arith, text_eq→eq s t)

-- `==` on texts decides equality.
pub text_eq_iff : (s t : Text) → (text_eq s t ≡ true) ↔ (s ≡ t)
text_eq_iff s t = (text_eq→eq s t, λ e. rw e (text_eq_refl t))

-- `str::split` at a character
abbrev pub prepend : ℕ → List Text → List Text
prepend c [] = (c ∷ []) ∷ []
prepend c (s ∷ ss) = (c ∷ s) ∷ ss

unfoldable pub split : ℕ → Text → List Text
split sep [] = [] ∷ []
split sep (c ∷ s) = let rest = split sep s in if c == sep then [] ∷ rest else prepend c rest

-- `[str]::join`
unfoldable pub join : Text → List Text → Text
join sep [] = []
join sep (s ∷ []) = s
join sep (s ∷ t ∷ ss) = s ++ (sep ++ join sep (t ∷ ss))

-- `str::strip_prefix`
unfoldable pub strip_prefix : Text → Text → Option Text
strip_prefix [] s = some s
strip_prefix (p ∷ ps) [] = none
strip_prefix (p ∷ ps) (c ∷ s) = let rest = strip_prefix ps s in if p == c then rest else none

-- `str::lines`: a line end is `\n` or `\r\n`, and a last line
-- may have none.
unfoldable pub strip_cr : Text → Text
strip_cr [] = []
strip_cr (c ∷ []) = if c == b'\r' then [] else c ∷ []
strip_cr (c ∷ d ∷ s) = c ∷ strip_cr (d ∷ s)

lines_from : Text → Text → List Text
lines_from [] [] = []
lines_from (x ∷ line) [] = (x ∷ line) ∷ []
lines_from line (c ∷ s) =
    let here = strip_cr line ∷ lines_from [] s in
    let on = lines_from (line ++ c ∷ []) s in if c == b'\n' then here else on

unfoldable pub lines : Text → List Text
unfolding lines_from strip_cr
lines = lines_from []
