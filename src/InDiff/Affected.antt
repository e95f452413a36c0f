-- ===== src/InDiff/Affected.antt =====
-- The lines of the new file that `affected_lines` lists, and their order.
use cargo_mutants.Prelude.{
  ℕ, ◌+◌, ◌-◌, ◌≤◌, ◌<◌, ◌≡◌, sym, ◌∙◌, ◌↔◌, ◌⊎◌, inl, inr, Bool, true, false, List, [], ◌∷◌, arith,
  ltb, ◌==◌, ltb→lt, ==→eq, Bool-cases, Any,
}
use cargo_mutants.InDiff.{
  Line, delete, insert, context, Hunk, Patch, Walk, mark, after_removed, mark_line, walk,
  walk_hunks, reverse_onto, affected_lines,
}

-- The line of the new file after a line of a hunk that stands at line `at`
abbrev pub next : ℕ → Line → ℕ
next at (delete t) = at
next at (insert t) = at + 1
next at (context t) = at + 1

-- The next line of the hunk is in the new file.
abbrev pub FollowedByKept : List Line → Type 0
FollowedByKept [] = ⊥
FollowedByKept (delete t ∷ ls) = ⊥
FollowedByKept (insert t ∷ ls) = Unit
FollowedByKept (context t ∷ ls) = Unit

-- Line `n` of the new file is affected by the line `l` of a hunk, where the new file is at line
-- `at` and the lines `ls` follow: it is inserted, or it is the line before a deleted one or the
-- line right after it.
abbrev pub AffectedBy : ℕ → ℕ → Line → List Line → Type 0
AffectedBy n at (insert t) ls = n ≡ at
AffectedBy n at (delete t) ls = ((1 ≤ n) × (n + 1 ≡ at)) ⊎ (FollowedByKept ls × (n ≡ at))
AffectedBy n at (context t) ls = ⊥

abbrev pub Affected : ℕ → ℕ → List Line → Type 0
Affected n at [] = ⊥
Affected n at (l ∷ ls) = AffectedBy n at l ls ⊎ Affected n (next at l) ls

-- `n` is a member.
abbrev pub Has : ℕ → List ℕ → Type 0
Has n = Any (λ m. n ≡ m)

mark_iff : (n m : ℕ) (acc : List ℕ) → Has n (mark m acc) ↔ ((n ≡ m) ⊎ Has n acc)
unfolding mark
mark_iff n m [] = (λ h. h, λ h. h)
mark_iff n m (a ∷ acc) = elim (Bool-cases (a == m)) [
  | inl e ↦
      let same = ==→eq a m e in
      rw e (λ h. inr h, λ h. elim h [ inl p ↦ inl (p ∙ sym same) | inr q ↦ q ])
  | inr e ↦ rw e (λ h. h, λ h. h)
]

-- The line that is still to be marked, after a deleted line
abbrev Pending : ℕ → ℕ → Bool → List Line → Type 0
Pending n at prev ls = (prev ≡ true) × (FollowedByKept ls × (n ≡ at))

abbrev state : List ℕ → ℕ → Bool → Walk
state acc at prev = record { affected = acc; lineno = at; prev_removed = prev }

abbrev Found : ℕ → List ℕ → ℕ → Bool → List Line → Type 0
Found n acc at prev ls = Has n acc ⊎ (Pending n at prev ls ⊎ Affected n at ls)

walk_iff :
    (n : ℕ) (ls : List Line) (acc : List ℕ) (at : ℕ) (prev : Bool)
    → Has n (walk ls (state acc at prev)).affected ↔ Found n acc at prev ls
unfolding walk after_removed mark_line
walk_iff n [] acc at prev = (λ h. inl h, λ h. ground arith)
walk_iff n (context t ∷ ls) acc at true =
    let (sound, complete) = walk_iff n ls (at ∷ acc) (at + 1) false in
    (λ h. let s = sound h in ground arith, λ h. ground (arith, complete))
walk_iff n (context t ∷ ls) acc at false =
    let (sound, complete) = walk_iff n ls acc (at + 1) false in
    (λ h. let s = sound h in ground arith, λ h. ground (arith, complete))
walk_iff n (insert t ∷ ls) acc at true =
    let (sound, complete) = walk_iff n ls (mark at (at ∷ acc)) (at + 1) false in
    let (out, back) = mark_iff n at (at ∷ acc) in
    (λ h. let s = sound h in ground (arith, out), λ h. ground (arith, complete, back))
walk_iff n (insert t ∷ ls) acc at false =
    let (sound, complete) = walk_iff n ls (mark at acc) (at + 1) false in
    let (out, back) = mark_iff n at acc in
    (λ h. let s = sound h in ground (arith, out), λ h. ground (arith, complete, back))
walk_iff n (delete t ∷ ls) acc at prev = elim (Bool-cases (ltb 1 at)) [
  | inl e ↦
      let (sound, complete) = walk_iff n ls (mark (at - 1) acc) at true in
      let (out, back) = mark_iff n (at - 1) acc in
      let positive = ltb→lt 1 at e in
      rw (e, walk, mark_line)
        (λ h. let s = sound h in ground (arith, out), λ h. ground (arith, complete, back))
  | inr e ↦
      let (sound, complete) = walk_iff n ls acc at true in
      rw (e, walk, mark_line) (λ h. let s = sound h in ground arith, λ h. ground (arith, complete))
]

-- Some hunk affects line `n`.
abbrev pub AffectedByHunks : ℕ → List Hunk → Type 0
AffectedByHunks n = Any (λ h. Affected n h.new_start h.hunk_lines)

walk_hunks_iff :
    (n : ℕ) (hs : List Hunk) (acc : List ℕ)
    → Has n (walk_hunks hs acc) ↔ (Has n acc ⊎ AffectedByHunks n hs)
unfolding walk_hunks
walk_hunks_iff n [] acc = (λ h. inl h, λ h. ground arith)
walk_hunks_iff n (h ∷ hs) acc =
    let w = walk h.hunk_lines (state acc h.new_start false) in
    let (sound, complete) = walk_hunks_iff n hs w.affected in
    let (out, back) = walk_iff n h.hunk_lines acc h.new_start false in
    (λ m. let s = sound m in ground (arith, out), λ m. ground (arith, complete, back))

reverse_onto_iff : (n : ℕ) (xs acc : List ℕ) → Has n (reverse_onto xs acc) ↔ (Has n xs ⊎ Has n acc)
unfolding reverse_onto
reverse_onto_iff n [] acc = (λ h. inr h, λ h. ground arith)
reverse_onto_iff n (x ∷ xs) acc =
    let (sound, complete) = reverse_onto_iff n xs (x ∷ acc) in
    (λ m. let s = sound m in ground arith, λ m. ground (arith, complete))

-- `affected_lines` lists just the lines of the new file that the diff affects: those that it inserts,
-- those right before a line that it deletes, and those that are kept or inserted right after lines
-- that it deletes, within one hunk. Where a hunk ends with deleted lines, the line after it is not
-- affected.
pub affected_lines_iff :
    (n : ℕ) (patch : Patch) → Has n (affected_lines patch) ↔ AffectedByHunks n patch.hunks
unfolding affected_lines
affected_lines_iff n patch =
    let (sound, complete) = walk_hunks_iff n patch.hunks [] in
    let (out, back) = reverse_onto_iff n (walk_hunks patch.hunks []) [] in
    (λ m. let s = out m in ground (arith, sound), λ m. back (inl (complete (inr m))))

-- The line of the new file where the lines of a hunk end
abbrev pub end_of : ℕ → List Line → ℕ
end_of at [] = at
end_of at (l ∷ ls) = end_of (next at l) ls

-- Each hunk starts no earlier than the one before it ends.
abbrev pub Ordered : ℕ → List Hunk → Type 0
Ordered from [] = Unit
Ordered from (h ∷ hs) = (from ≤ h.new_start) × Ordered (end_of h.new_start h.hunk_lines) hs

-- The members are below `bound`, each below the one in front of it.
abbrev Descending : ℕ → List ℕ → Type 0
Descending bound [] = Unit
Descending bound (x ∷ xs) = (x < bound) × Descending x xs

abbrev pub Ascending : ℕ → List ℕ → Type 0
Ascending from [] = Unit
Ascending from (x ∷ xs) = (from ≤ x) × Ascending (x + 1) xs

Descending-mono : (a b : ℕ) (xs : List ℕ) → a ≤ b → Descending a xs → Descending b xs
Descending-mono a b [] h d = tt
Descending-mono a b (x ∷ xs) h (lt, d) = (omega arith, d)

mark-Descending :
    (n bound : ℕ) (acc : List ℕ)
    → n < bound
    → Descending (n + 1) acc
    → Descending bound (mark n acc)
unfolding mark
mark-Descending n bound [] h d = (h, tt)
mark-Descending n bound (x ∷ acc) h (lt, d) = elim (Bool-cases (x == n)) [
  | inl e ↦ rw e (omega arith, d)
  | inr e ↦ rw e (h, (ground arith, d))
]

walk-Descending :
    (ls : List Line) (acc : List ℕ) (at : ℕ) (prev : Bool)
    → Descending at acc
    → Descending (end_of at ls) (walk ls (state acc at prev)).affected
unfolding walk after_removed mark_line
walk-Descending [] acc at prev d = d
walk-Descending (context t ∷ ls) acc at true d =
    walk-Descending ls (at ∷ acc) (at + 1) false (omega arith, d)
walk-Descending (context t ∷ ls) acc at false d =
    walk-Descending ls acc (at + 1) false (Descending-mono at (at + 1) acc (omega arith) d)
walk-Descending (insert t ∷ ls) acc at true d =
    walk-Descending ls (mark at (at ∷ acc)) (at + 1) false
      (mark-Descending at (at + 1) (at ∷ acc) (omega arith) (omega arith, d))
walk-Descending (insert t ∷ ls) acc at false d = walk-Descending ls (mark at acc) (at + 1) false (
    mark-Descending at (at + 1) acc (omega arith) (Descending-mono at (at + 1) acc (omega arith) d))
walk-Descending (delete t ∷ ls) acc at prev d = elim (Bool-cases (ltb 1 at)) [
  | inl e ↦
      let positive = ltb→lt 1 at e in
      let same : (at - 1) + 1 ≡ at = omega arith in
      rw (e, walk, mark_line)
        (walk-Descending ls (mark (at - 1) acc) at true
          (mark-Descending (at - 1) at acc (omega arith) (rw same d)))
  | inr e ↦ rw (e, walk, mark_line) (walk-Descending ls acc at true d)
]

walk_hunks-Descending :
    (from : ℕ) (hs : List Hunk) (acc : List ℕ)
    → Ordered from hs
    → Descending from acc
    → (bound : ℕ) × Descending bound (walk_hunks hs acc)
unfolding walk_hunks
walk_hunks-Descending from [] acc o d = (from, d)
walk_hunks-Descending from (h ∷ hs) acc (le, o) d =
    walk_hunks-Descending (end_of h.new_start h.hunk_lines) hs
      (walk h.hunk_lines (state acc h.new_start false)).affected o
      (walk-Descending h.hunk_lines acc h.new_start false
        (Descending-mono from h.new_start acc le d))

Ascending-mono : (a b : ℕ) (xs : List ℕ) → a ≤ b → Ascending b xs → Ascending a xs
Ascending-mono a b [] h d = tt
Ascending-mono a b (x ∷ xs) h (le, d) = (omega arith, d)

reverse_onto-Ascending :
    (bound : ℕ) (xs acc : List ℕ)
    → Descending bound xs
    → Ascending bound acc
    → Ascending 0 (reverse_onto xs acc)
unfolding reverse_onto
reverse_onto-Ascending bound [] acc d a = Ascending-mono 0 bound acc (omega arith) a
reverse_onto-Ascending bound (x ∷ xs) acc (lt, d) a =
    reverse_onto-Ascending x xs (x ∷ acc) d
      (omega arith, Ascending-mono (x + 1) bound acc (omega arith) a)

-- Where the hunks of a diff are in the order of the new file and do not overlap, the list is
-- sorted and has no duplicates, which is what the binary search on it needs.
pub affected_lines-Ascending :
    (patch : Patch) → Ordered 0 patch.hunks → Ascending 0 (affected_lines patch)
unfolding affected_lines
affected_lines-Ascending patch o =
    let (bound, d) = walk_hunks-Descending 0 patch.hunks [] o tt in
    reverse_onto-Ascending bound (walk_hunks patch.hunks []) [] d tt
