-- ===== src/Cargo/Flags.antt =====
-- The flags of the compiler that cargo reads from the environment.
use cargo_mutants.Prelude.Text.{Text, codes, text_eq, split, join, prepend}
use cargo_mutants.Prelude.{
  ℕ, ◌≡◌, refl, subst, ap, ap₂, ◌∙◌, ◌≢◌, inl, inr, Bool, true, false, not, ◌&&◌, false≢true,
  Option, none, some, List, [], ◌∷◌, ◌++◌, append_assoc, arith, ◌==◌, if◌then◌else◌, ==_refl,
  Bool-cases, Option-cases,
}
use cargo_mutants.Options.{Vars}
use cargo_mutants.Options.Merge.{Options}
use cargo_mutants.Cargo.{
  separator, non_empty, with_flags, extra_args, encoded_rustflags, instrumented_env,
}

-- A text without the separator, and a flag: such a text that is not empty
abbrev pub free : Text → Bool
free [] = true
free (c ∷ s) = not (c == 31) && free s

abbrev pub is_flag : Text → Bool
is_flag [] = false
is_flag (c ∷ s) = free (c ∷ s)

abbrev pub all_flags : List Text → Bool
all_flags [] = true
all_flags (s ∷ ss) = is_flag s && all_flags ss

-- What cargo reads from `CARGO_ENCODED_RUSTFLAGS`
abbrev pub decode : Text → List Text
decode [] = []
decode (c ∷ s) = split 31 (c ∷ s)

-- The flags that the user has in the environment: those of `CARGO_ENCODED_RUSTFLAGS`, if it is set,
-- and otherwise the words of `RUSTFLAGS`
abbrev pub given_flags : Vars → List Text
unfolding split
given_flags vars = elim (vars (codes "CARGO_ENCODED_RUSTFLAGS")) [
  | some encoded ↦ decode encoded
  | none ↦ elim (vars (codes "RUSTFLAGS")) [
    | some rustflags ↦ non_empty (split b' ' rustflags)
    | none ↦ []
  ]
]

prepend-append : (c : ℕ) (ss ts : List Text) → ss ≢ [] → prepend c (ss ++ ts) ≡ prepend c ss ++ ts
prepend-append c [] ts h = absurd (h refl)
prepend-append c (s ∷ ss) ts h = refl

prepend-cons : (c : ℕ) (ss : List Text) → prepend c ss ≢ []
prepend-cons c [] e = cc
prepend-cons c (s ∷ ss) e = cc

-- `split` at a separator gives at least one text
split-cons : (sep : ℕ) (s : Text) → split sep s ≢ []
unfolding split
split-cons sep [] e = cc
split-cons sep (c ∷ s) e = ground (arith, prepend-cons c (split sep s))

-- Splitting two texts with the separator between them
split-append : (sep : ℕ) (s t : Text) → split sep (s ++ sep ∷ t) ≡ split sep s ++ split sep t
unfolding split
split-append sep [] t = rw (==_refl sep) refl
split-append sep (c ∷ s) t = elim (Bool-cases (c == sep)) [
  | inl e ↦ rw e (ap (λ ss. [] ∷ ss) (split-append sep s t))
  | inr e ↦
      rw (e, split-append sep s t) (prepend-append c (split sep s) (split sep t) (split-cons sep s))
]

split-free : (s : Text) → free s ≡ true → split 31 s ≡ s ∷ []
unfolding split
split-free [] h = refl
split-free (c ∷ s) h = elim (Bool-cases (c == 31)) [
  | inl e ↦ absurd (false≢true (subst (λ b. (not b && free s) ≡ true) e h))
  | inr e ↦ rw (e, split-free s (subst (λ b. (not b && free s) ≡ true) e h)) refl
]

decode-split : (s : Text) → s ≢ [] → decode s ≡ split 31 s
decode-split [] h = absurd (h refl)
decode-split (c ∷ s) h = refl

and-both : (a b : Bool) → a && b ≡ true → (a ≡ true) × (b ≡ true)
and-both true b h = (refl, h)
and-both false b h = absurd (false≢true h)

flag-free : (s : Text) → is_flag s ≡ true → (free s ≡ true) × (s ≢ [])
flag-free [] h = absurd (false≢true h)
flag-free (c ∷ s) h = (h, λ e. cc)

-- Flags that are joined are read as they were
split-join :
    (s : Text) (ss : List Text)
    → all_flags (s ∷ ss) ≡ true
    → split 31 (join separator (s ∷ ss)) ≡ s ∷ ss
unfolding join
split-join s [] h = split-free s (flag-free s (and-both (is_flag s) true h).0).0
split-join s (t ∷ ss) h =
    let (f, rest) = and-both (is_flag s) (all_flags (t ∷ ss)) h in
    split-append 31 s (join separator (t ∷ ss))
    ∙ ap₂ (λ x y. x ++ y) (split-free s (flag-free s f).0) (split-join t ss rest)

join-cons :
    (c : ℕ) (s : Text) (ss : List Text)
    → decode (join separator ((c ∷ s) ∷ ss)) ≡ split 31 (join separator ((c ∷ s) ∷ ss))
unfolding join
join-cons c s [] = refl
join-cons c s (t ∷ ss) = refl

decode-join : (ss : List Text) → all_flags ss ≡ true → decode (join separator ss) ≡ ss
unfolding join
decode-join [] h = refl
decode-join ([] ∷ ss) h = absurd (false≢true h)
decode-join ((c ∷ s) ∷ ss) h = join-cons c s ss ∙ split-join (c ∷ s) ss h

abbrev all_free : List Text → Bool
all_free [] = true
all_free (s ∷ ss) = free s && all_free ss

all_free-prepend :
    (c : ℕ) (ss : List Text)
    → not (c == 31) ≡ true
    → all_free ss ≡ true
    → all_free (prepend c ss) ≡ true
all_free-prepend c [] h k = rw h refl
all_free-prepend c (s ∷ ss) h k = rw h k

all_free-split : (sep : ℕ) (s : Text) → free s ≡ true → all_free (split sep s) ≡ true
unfolding split
all_free-split sep [] h = refl
all_free-split sep (c ∷ s) h =
    let (p, f) = and-both (not (c == 31)) (free s) h in
    elim (Bool-cases (c == sep)) [
      | inl e ↦ rw e (all_free-split sep s f)
      | inr e ↦ rw e (all_free-prepend c (split sep s) p (all_free-split sep s f))
    ]

non_empty-flags : (ss : List Text) → all_free ss ≡ true → all_flags (non_empty ss) ≡ true
non_empty-flags [] h = refl
non_empty-flags ([] ∷ ss) h = non_empty-flags ss h
non_empty-flags ((c ∷ s) ∷ ss) h =
    let (p, f) = and-both (free (c ∷ s)) (all_free ss) h in rw (p, non_empty-flags ss f) refl

flags-append :
    (ss ts : List Text) → all_flags ss ≡ true → all_flags ts ≡ true → all_flags (ss ++ ts) ≡ true
flags-append [] ts h k = k
flags-append (s ∷ ss) ts h k =
    let (p, f) = and-both (is_flag s) (all_flags ss) h in rw (p, flags-append ss ts f k) refl

module _ (f : Text) (fs : List Text) (h : all_flags (f ∷ fs) ≡ true) where
  after_encoded :
      (encoded : Text)
      → decode (elim encoded [
        | [] ↦ join separator (f ∷ fs)
        | c ∷ s ↦ join separator ((c ∷ s) ∷ f ∷ fs)
      ])
        ≡ decode encoded ++ f ∷ fs
  unfolding join
  after_encoded [] = decode-join (f ∷ fs) h
  after_encoded (c ∷ s) =
      split-append 31 (c ∷ s) (join separator (f ∷ fs))
      ∙ ap (λ ss. split 31 (c ∷ s) ++ ss) (split-join f fs h)

  after_words :
      (rustflags : Text)
      → free rustflags ≡ true
      → decode (elim rustflags [
        | [] ↦ join separator (f ∷ fs)
        | c ∷ s ↦ join separator (non_empty (split b' ' (c ∷ s)) ++ f ∷ fs)
      ])
        ≡ non_empty (split b' ' rustflags) ++ f ∷ fs
  unfolding split
  after_words [] k = decode-join (f ∷ fs) h
  after_words (c ∷ s) k = decode-join (non_empty (split b' ' (c ∷ s)) ++ f ∷ fs) (
      flags-append (non_empty (split b' ' (c ∷ s))) (f ∷ fs)
        (non_empty-flags (split b' ' (c ∷ s)) (all_free-split b' ' (c ∷ s) k)) h)

  with_flags-decode :
      (vars : Vars)
      → ((r : Text) → vars (codes "RUSTFLAGS") ≡ some r → free r ≡ true)
      → decode (with_flags vars (f ∷ fs)) ≡ given_flags vars ++ f ∷ fs
  unfolding with_flags given_flags
  with_flags-decode vars k = elim (Option-cases (vars (codes "CARGO_ENCODED_RUSTFLAGS"))) [
    | inl e ↦
        rw (e, with_flags, given_flags)
          (elim (Option-cases (vars (codes "RUSTFLAGS"))) [
            | inl n ↦ rw (n) (decode-join (f ∷ fs) h)
            | inr (r, n) ↦ rw n (after_words r (k r n))
          ])
    | inr (encoded, e) ↦ rw (e, with_flags, given_flags) (after_encoded encoded)
  ]

-- What the flags that are asked for make of the variable for the encoded flags
abbrev pub Reads : Vars → List Text → Option Text → Type 0
Reads vars [] set = set ≡ none
Reads vars (f ∷ fs) set =
    (flags : Text) × ((set ≡ some flags) × (decode flags ≡ given_flags vars ++ f ∷ fs))

module _ {F R S : Type 0} where
  extra-flags : (o : Options F R S) → all_flags (extra_args o) ≡ true
  unfolding extra_args
  extra-flags o = elim (Bool-cases o.cap_lints) [
    | inl e ↦ elim (Bool-cases o.detect_equivalent_mutants) [
      | inl d ↦ rw (e, d) refl
      | inr d ↦ rw (e, d) refl
    ]
    | inr e ↦ elim (Bool-cases o.detect_equivalent_mutants) [
      | inl d ↦ rw (e, d) refl
      | inr d ↦ rw (e, d) refl
    ]
  ]

  -- Where the options ask for flags of the compiler, cargo reads from the encoded flags those that the
  -- user has in the environment, and then those of the options; where they ask for none, nothing is
  -- set. The condition is that `RUSTFLAGS`, if it is set, does not contain the separator.
  pub encoded_rustflags-decode :
      (vars : Vars) (o : Options F R S)
      → ((r : Text) → vars (codes "RUSTFLAGS") ≡ some r → free r ≡ true)
      → Reads vars (extra_args o) (encoded_rustflags vars o)
  unfolding encoded_rustflags
  encoded_rustflags-decode vars o k = by_extra (extra_args o) (extra-flags o)
    where
      by_extra :
          (fs : List Text)
          → all_flags fs ≡ true
          → Reads vars fs (elim fs as (λ fs. Option Text) [
            | [] ↦ none
            | flag ∷ flags ↦ some (with_flags vars (flag ∷ flags))
          ])
      by_extra [] h = refl
      by_extra (f ∷ fs) h = (with_flags vars (f ∷ fs), (refl, with_flags-decode f fs h vars k))

-- The value of a variable in an environment
abbrev pub value_of : Text → List (Text × Text) → Text
value_of name [] = []
value_of name ((k, v) ∷ env) = if text_eq k name then v else value_of name env

abbrev pub coverage_flag : List Text
coverage_flag = codes "-Cinstrument-coverage" ∷ []

instrumented-decode :
    (dir : Text) (encoded : Text)
    → decode (value_of (codes "CARGO_ENCODED_RUSTFLAGS") (instrumented_env dir (some encoded)))
      ≡ decode encoded ++ coverage_flag
unfolding instrumented_env split
instrumented-decode dir [] = refl
instrumented-decode dir (c ∷ s) =
    ap decode (append_assoc (c ∷ s) (31 ∷ []) (codes "-Cinstrument-coverage"))
    ∙ split-append 31 (c ∷ s) (codes "-Cinstrument-coverage")

instrumented-none :
    (dir : Text)
    → decode (value_of (codes "CARGO_ENCODED_RUSTFLAGS") (instrumented_env dir none))
      ≡ coverage_flag
unfolding instrumented_env split
instrumented-none dir = refl

-- What cargo reads in the baseline that measures coverage, by the flags that the options ask for
abbrev pub instrumented_flags : Vars → List Text → List Text
instrumented_flags vars [] = coverage_flag
instrumented_flags vars (f ∷ fs) = (given_flags vars ++ f ∷ fs) ++ coverage_flag

instrumented-Reads :
    (vars : Vars) (dir : Text) (fs : List Text) (set : Option Text)
    → Reads vars fs set
    → decode (value_of (codes "CARGO_ENCODED_RUSTFLAGS") (instrumented_env dir set))
      ≡ instrumented_flags vars fs
instrumented-Reads vars dir [] set n = rw n (instrumented-none dir)
instrumented-Reads vars dir (f ∷ fs) set (flags, (s, d)) =
    rw s (instrumented-decode dir flags ∙ ap (λ x. x ++ coverage_flag) d)

module _ {F R S : Type 0} where
  -- For the baseline that measures coverage, cargo reads the flags that the user has, then those of the
  -- options and the one for coverage; where the options ask for none, it reads only the one for
  -- coverage, whatever the user has. The condition is that `RUSTFLAGS` does not contain the separator.
  pub instrumented_env-decode :
      (vars : Vars) (o : Options F R S) (dir : Text)
      → ((r : Text) → vars (codes "RUSTFLAGS") ≡ some r → free r ≡ true)
      → decode (
          value_of
            (codes "CARGO_ENCODED_RUSTFLAGS")
            (instrumented_env dir (encoded_rustflags vars o)))
        ≡ instrumented_flags vars (extra_args o)
  instrumented_env-decode vars o dir k =
      instrumented-Reads vars dir (extra_args o) (encoded_rustflags vars o)
        (encoded_rustflags-decode vars o k)
