-- ===== src/Options/Filter/Paths.antt =====
-- The paths that the globs of the command line and of the configuration allow.
use cargo_mutants.Prelude.Text.{Text}
use cargo_mutants.Prelude.{
  ◌≡◌, refl, subst, sym, ap, ap₂, ◌∙◌, Bool, true, false, not, ◌&&◌, ◌||◌, Option, none, some, List,
  [], ◌∷◌, ◌++◌, Result, ok, err, ok_or, bind_ok, ok_unique, ok_injective,
}
use cargo_mutants.Options.{Vars, or_else}
use cargo_mutants.Prelude.Maybe.{unwrap_or}
use cargo_mutants.Options.Input.{Args, Config}
use cargo_mutants.Options.Globs.{GlobLib, adjusted, build_each, add_globs, build_glob_set}
use cargo_mutants.Options.Merge.{
  Options, Libs, new, in_context, optional_secs, panic, examine_re_error, exclude_re_error,
  examine_glob_error, exclude_glob_error,
}
use cargo_mutants.Options.Filter.{Matchers, allows_source_file_path, in_set, no_set_or}

abbrev pub any_of : {A : Type 0} → (A → Bool) → List A → Bool
any_of f [] = false
any_of f (a ∷ rest) = f a || any_of f rest

-- `globset` as it is documented: a set matches what one of its globs matches. Here `matches` says which
-- paths a glob with `literal_separator` matches.
pub record IsFaithful {E G S : Type 0} (lib : GlobLib E G S) (globs_match : S → Text → Bool)
    (matches : Text → Text → Bool) : Type 0 where
  pub glob_match : G → Text → Bool
  pub of_glob :
      (glob : Text) (g : G) (path : Text)
      → lib.build_glob glob ≡ ok g
      → glob_match g path ≡ matches glob path
  pub of_set :
      (gs : List G) (s : S) (path : Text)
      → lib.build_set gs ≡ ok s
      → globs_match s path ≡ any_of (λ g. glob_match g path) gs

-- Whether one of the globs of the user matches, as the code adjusts them
abbrev pub any_glob : Bool → (Text → Text → Bool) → List Text → Text → Bool
any_glob windows matches globs path =
    any_of (λ g. any_of (λ a. matches a path) (adjusted windows g)) globs

any_of-append :
    {A : Type 0} (f : A → Bool) (xs ys : List A) → any_of f (xs ++ ys) ≡ any_of f xs || any_of f ys
any_of-append f [] ys = refl
any_of-append f (x ∷ xs) ys =
    elim (f x) as (λ b. (b || any_of f (xs ++ ys)) ≡ ((b || any_of f xs) || any_of f ys)) [
      | true ↦ refl
      | false ↦ any_of-append f xs ys
    ]

abbrev pub no_globs : List Text → Bool
no_globs [] = true
no_globs (g ∷ globs) = false

module _ {E G S : Type 0} (windows : Bool) (lib : GlobLib E G S) (globs_match : S → Text → Bool)
    (matches : Text → Text → Bool) (faithful : IsFaithful lib globs_match matches)
    (path : Text) where
  abbrev matched : List G → Bool
  matched gs = any_of (λ g. faithful.glob_match g path) gs

  each-matched :
      (globs : List Text) (gs : List G)
      → build_each windows lib globs ≡ ok gs
      → matched gs ≡ any_of (λ a. matches a path) globs
  each-matched [] gs h = ap matched (ok_unique (build_each windows lib []) gs [] h refl)
  each-matched (g ∷ globs) gs h =
      let (b, (hb, h1)) = bind_ok (lib.build_glob g) _ gs h in
      let (r, (hr, h2)) = bind_ok (build_each windows lib globs) _ gs h1 in
      ap matched (sym (ok_unique (ok (b ∷ r)) (b ∷ r) gs refl h2))
      ∙ ap₂ (λ x y. x || y) (faithful.of_glob g b path hb) (each-matched globs r hr)

  add_globs-matched :
      (globs : List Text) (gs : List G)
      → add_globs windows lib globs ≡ ok gs
      → matched gs ≡ any_glob windows matches globs path
  unfolding add_globs
  add_globs-matched [] gs h = ap matched (ok_unique (add_globs windows lib []) gs [] h refl)
  add_globs-matched (g ∷ globs) gs h =
      let (b, (hb, h1)) = bind_ok (build_each windows lib (adjusted windows g)) _ gs h in
      let (r, (hr, h2)) = bind_ok (add_globs windows lib globs) _ gs h1 in
      ap matched (sym (ok_unique (ok (b ++ r)) (b ++ r) gs refl h2))
      ∙ (any_of-append (λ x. faithful.glob_match x path) b r
          ∙ ap₂ (λ x y. x || y) (each-matched (adjusted windows g) b hb)
              (add_globs-matched globs r hr))

  set-matched :
      (globs : List Text) (set : Option S)
      → build_glob_set windows lib globs ≡ ok set
      → (in_set globs_match set path ≡ any_glob windows matches globs path)
        × (no_set_or globs_match set path ≡ no_globs globs || any_glob windows matches globs path)
  unfolding build_glob_set
  set-matched [] set h =
      rw (sym (ok_unique (build_glob_set windows lib []) none set refl h)) (refl, refl)
  set-matched (g ∷ globs) set h =
      let (gs, (hg, h1)) = bind_ok (add_globs windows lib (g ∷ globs)) _ set h in
      let (s, (hs, h2)) = bind_ok (lib.build_set gs) _ set h1 in
      let e = faithful.of_set gs s path hs ∙ add_globs-matched (g ∷ globs) gs hg in
      rw (sym (ok_unique (ok (some s)) (some s) set refl h2)) (e, e)

in_context-ok :
    {E A B : Type 0} (f : E → B) (r : Result E A) (a : A) → in_context f r ≡ ok a → r ≡ ok a
in_context-ok f (ok b) a h = ap ok (ok_unique (ok b) b a refl h)
in_context-ok f (err e) a h = cc

module _ {F Level Shell E R G S : Type 0} (vars : Vars) (windows : Bool) (lib : Libs F E R G S)
    (matchers : Matchers R S) (matches : Text → Text → Bool) where
  -- Where the options are built, a path is allowed exactly if one of the globs to examine, of the command
  -- line or the configuration, matches it, or there is none, and none of the globs to exclude does. A
  -- glob is first adjusted; a set of globs is taken to match what one of its globs does.
  pub new-allows_source_file_path :
      IsFaithful lib.globs matchers.globs_match matches
      → (args : Args F Level Shell) (config : Config F) (o : Options F R S)
      → new vars windows lib args config ≡ ok o
      → (path : Text)
      → allows_source_file_path matchers o path ≡ (
          (no_globs (args.file ++ config.examine_globs)
            || any_glob windows matches (args.file ++ config.examine_globs) path)
          && not (any_glob windows matches (args.exclude ++ config.exclude_globs) path))
  unfolding allows_source_file_path new
  new-allows_source_file_path faithful args config o h path =
      let (minimum, (hm, h1)) =
        bind_ok
          (ok_or
            (lib.from_secs_f64 (
              unwrap_or lib.twenty (or_else args.minimum_test_timeout config.minimum_test_timeout)))
            panic)
          _ o h in
      let (limit, (hl, h2)) = bind_ok (optional_secs lib args.build_timeout) _ o h1 in
      let (re1, (hr1, h3)) =
        bind_ok (in_context examine_re_error (lib.regex_set (args.examine_re ++ config.examine_re)))
          _ o h2 in
      let (re2, (hr2, h4)) =
        bind_ok (in_context exclude_re_error (lib.regex_set (args.exclude_re ++ config.exclude_re)))
          _ o h3 in
      let (set1, (hs1, h5)) =
        bind_ok
          (in_context examine_glob_error
            (build_glob_set windows lib.globs (args.file ++ config.examine_globs)))
          _ o h4 in
      let (set2, (hs2, h6)) =
        bind_ok
          (in_context exclude_glob_error
            (build_glob_set windows lib.globs (args.exclude ++ config.exclude_globs)))
          _ o h5 in
      let (limit2, (hl2, h7)) = bind_ok (optional_secs lib args.timeout) _ o h6 in
      let e =
        set-matched windows lib.globs matchers.globs_match matches faithful path
          (args.file ++ config.examine_globs) set1 (in_context-ok _ _ set1 hs1) in
      let x =
        set-matched windows lib.globs matchers.globs_match matches faithful path
          (args.exclude ++ config.exclude_globs) set2 (in_context-ok _ _ set2 hs2) in
      subst
        (λ built. allows_source_file_path matchers built path ≡ (
          (no_globs (args.file ++ config.examine_globs)
            || any_glob windows matches (args.file ++ config.examine_globs) path)
          && not (any_glob windows matches (args.exclude ++ config.exclude_globs) path)))
        (ok_injective _ o h7) (ap₂ (λ a b. a && not b) e.1 x.0)
