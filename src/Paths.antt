-- ===== src/Paths.antt =====
-- File paths and their components: src/path.rs, and what the program uses of `Utf8Path`, for Unix.
pub mod Ascent
mod Examples
use cargo_mutants.Prelude.Text.{Text, codes, text_eq, text_eq_refl, text_eq→eq, split, join}
use cargo_mutants.Prelude.{
  ◌/◌, ◌≡◌, refl, Bool, true, false, ◌&&◌, ◌||◌, Option, none, some, List, [], ◌∷◌, map, arith,
  ◌==◌, if◌then◌else◌,
}
use cargo_mutants.Prelude.Int.{ℤ, pos, ◌+ℤ◌, ◌-ℤ◌, max_ℤ}

-- A path as its components, which is how `Utf8Path` compares paths. The root is the component `/`.
abbrev pub FilePath : Type 0
FilePath = List Text

abbrev pub dot : Text
dot = codes "."

abbrev pub dot_dot : Text
dot_dot = codes ".."

abbrev pub slash : Text
slash = codes "/"

abbrev pub path_eq : FilePath → FilePath → Bool
path_eq [] [] = true
path_eq [] (d ∷ t) = false
path_eq (c ∷ s) [] = false
path_eq (c ∷ s) (d ∷ t) = text_eq c d && path_eq s t

pub path_eq→eq : (s t : FilePath) → path_eq s t ≡ true → s ≡ t
path_eq→eq [] [] h = refl
path_eq→eq [] (d ∷ t) h = cc
path_eq→eq (c ∷ s) [] h = cc
path_eq→eq (c ∷ s) (d ∷ t) h = ground (arith, path_eq→eq s t, text_eq→eq c d)

pub path_eq_refl : (s : FilePath) → path_eq s s ≡ true
path_eq_refl [] = refl
path_eq_refl (c ∷ s) = ground (arith, path_eq_refl s, text_eq_refl c)

-- The segments of a path but the first: empty ones and `.` do not count.
pub normal_segments : List Text → FilePath
normal_segments [] = []
normal_segments (s ∷ ss) =
    let rest = normal_segments ss in if text_eq s [] || text_eq s dot then rest else s ∷ rest

pub leading_segments : List Text → FilePath
leading_segments [] = []
leading_segments (s ∷ ss) = if text_eq s [] then normal_segments ss else s ∷ normal_segments ss

-- `Utf8Path::components`
unfoldable pub components : Text → FilePath
unfolding leading_segments normal_segments split
components [] = []
components (c ∷ s) =
    if c == b'/'
    then slash ∷ normal_segments (split b'/' s)
    else leading_segments (split b'/' (c ∷ s))

-- `Utf8Path::strip_prefix`, by components
unfoldable pub strip_path_prefix : FilePath → FilePath → Option FilePath
strip_path_prefix [] p = some p
strip_path_prefix (b ∷ base) [] = none
strip_path_prefix (b ∷ base) (c ∷ p) =
    let rest = strip_path_prefix base p in if text_eq b c then rest else none

-- The loop of `ascent`
pub climb : ℤ → ℤ → FilePath → ℤ
climb highest level [] = highest
climb highest level (c ∷ p) =
    let up = level +ℤ pos 1 in
    let above = climb (max_ℤ up highest) up p in
    let same = climb highest level p in
    let below = climb highest (level -ℤ pos 1) p in
    if text_eq c dot_dot then above else if text_eq c dot then same else below

-- `ascent`
unfoldable pub ascent : FilePath → ℤ
unfolding climb
ascent path = climb (pos 0) (pos 0) path

-- `Utf8PathSlashes::to_slash_path`
pub slash_component : Text → Text
slash_component c = if text_eq c slash || text_eq c (codes "\\") then [] else c

unfoldable pub to_slash_path : FilePath → Text
unfolding slash_component join
to_slash_path path = join slash (map slash_component path)
