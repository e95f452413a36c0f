-- ===== src/Prelude/Bytes.antt =====
-- UTF-8 byte offsets into text: `str::len`, and slicing by byte range, which panics (`none`) off a
-- character boundary.
use Prim.Native.Nat.{ℕ, ◌+◌, ◌-◌, ◌<◌}
use mathlib.Core.Path.{◌≡◌, refl}
use mathlib.Core.Option
use mathlib.Core.Option.{Option, none, some}
use mathlib.Core.List.{[], ◌∷◌, ◌++◌, append-nil}
use native.Mathlib.Omega.{arith}
use cargo_mutants.Prelude.Tests.{ltb, leb, ◌==◌, if◌then◌else◌, le→leb}
use cargo_mutants.Prelude.Text.{Text}

-- `char::len_utf8`
unfoldable pub width : ℕ → ℕ
width c = if ltb c 0x80 then 1 else if ltb c 0x800 then 2 else if ltb c 0x10000 then 3 else 4

pub width_pos : (c : ℕ) → 0 < width c
unfolding width
width_pos c = ground arith

-- `str::len`
unfoldable pub byte_len : Text → ℕ
byte_len [] = 0
byte_len (c ∷ s) = width c + byte_len s

-- `&s[n..]`
drop_bytes : ℕ → Text → Option Text
drop_bytes n [] = if n == 0 then some [] else none
drop_bytes n (c ∷ s) =
    let rest = drop_bytes (n - width c) s in
    if n == 0 then some (c ∷ s) else if leb (width c) n then rest else none

-- `&s[..n]`
take_bytes : ℕ → Text → Option Text
take_bytes n [] = if n == 0 then some [] else none
take_bytes n (c ∷ s) =
    let rest = Option.map (λ t. c ∷ t) (take_bytes (n - width c) s) in
    if n == 0 then some [] else if leb (width c) n then rest else none

-- `&s[start..end]`
unfoldable pub slice : ℕ → ℕ → Text → Option Text
unfolding drop_bytes take_bytes byte_len width
slice start end s =
    if leb start end
    then elim (drop_bytes start s) [ none ↦ none | some t ↦ take_bytes (end - start) t ]
    else none

drop_bytes-append : (a b : Text) → drop_bytes (byte_len a) (a ++ b) ≡ some b
unfolding drop_bytes byte_len
drop_bytes-append [] [] = refl
drop_bytes-append [] (c ∷ b) = refl
drop_bytes-append (c ∷ a) b =
    let e : width c + byte_len a - width c ≡ byte_len a = omega arith in
    rw e (ground (arith, width_pos c, drop_bytes-append a b))

take_bytes-append : (a b : Text) → take_bytes (byte_len a) (a ++ b) ≡ some a
unfolding take_bytes byte_len
take_bytes-append [] [] = refl
take_bytes-append [] (c ∷ b) = refl
take_bytes-append (c ∷ a) b =
    let e : width c + byte_len a - width c ≡ byte_len a = omega arith in
    rw (e, take_bytes-append a b) (ground (arith, width_pos c))

pub byte_len-append : (a b : Text) → byte_len (a ++ b) ≡ byte_len a + byte_len b
unfolding byte_len
byte_len-append [] b = omega arith
byte_len-append (c ∷ a) b = omega (arith, byte_len-append a b)

-- A slice between two character boundaries is the text between them.
pub slice-append :
    (a b c : Text) → slice (byte_len a) (byte_len a + byte_len b) (a ++ (b ++ c)) ≡ some b
unfolding slice
slice-append a b c =
    let e : byte_len a + byte_len b - byte_len a ≡ byte_len b = omega arith in
    rw
      (le→leb (byte_len a) (byte_len a + byte_len b) (omega arith), drop_bytes-append a (b ++ c), e)
      (take_bytes-append b c)

pub slice_prefix : (a b : Text) → slice 0 (byte_len a) (a ++ b) ≡ some a
slice_prefix a b =
    let e : byte_len [] + byte_len a ≡ byte_len a = unfold byte_len in omega arith in
    let z : byte_len [] ≡ 0 = unfold byte_len in refl in rw (e, z) at (slice-append [] a b)

pub slice_suffix : (a b : Text) → slice (byte_len a) (byte_len (a ++ b)) (a ++ b) ≡ some b
slice_suffix a b = rw (← byte_len-append a b, append-nil b) at (slice-append a b [])
