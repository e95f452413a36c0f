-- ===== src/Visit/Collect/Kept.antt =====
-- Which mutants are collected.
use cargo_mutants.Prelude.Text.{Text, text_eq}
use cargo_mutants.Prelude.{
  ◌≡◌, refl, subst, sym, ap, ◌∙◌, inl, inr, Bool, true, false, Option, none, some, List, [], ◌∷◌,
  ◌++◌, append-nil, append_assoc, if◌then◌else◌, Bool-cases, All,
}
use cargo_mutants.Prelude.Maybe.{◌>>=◌}
use cargo_mutants.Prelude.Quantifiers.{All-append}
use cargo_mutants.Span.{Span}
use cargo_mutants.Mutant.{Mutant, Genre, fn_value, Function}
use cargo_mutants.Pretty.{TokenStream, next, end, group, brace, to_pretty_string}
use cargo_mutants.FnValue.{ReturnType, EnumIndex}
use cargo_mutants.FnValue.Paths.{PathHead}
use cargo_mutants.FnValue.Chain.{Itertools}
use cargo_mutants.FnValue.Replacements.{return_type_replacements}
use cargo_mutants.Options.Merge.{Options}
use cargo_mutants.Options.Filter.{Matchers, allows_mutant}
use cargo_mutants.Visit.Collect.{
  Visitor, excluded_by_attr_re, push_if, new_mutant, collect_mutant, collect_reps,
  collect_fn_mutants,
}

module _ {X F R S : Type 0} (re_is_match : X → Text → Bool) (matchers : Matchers R S)
    (options : Options F R S) where
  -- A mutant that the options and the attributes in scope let pass, of a genre
  pub record Passes (genre : Genre) (stack : List X) (m : Mutant) : Type 0 where
    pub of_genre : m.genre ≡ genre
    pub allowed : allows_mutant matchers options m ≡ some true
    pub not_excluded : excluded_by_attr_re re_is_match stack m ≡ some false

  -- The visitor after mutants are collected: they are added, and nothing else has changed
  pub record Added (genre : Genre) (v v' : Visitor X) : Type 0 where
    pub added : List Mutant
    pub mutants : v'.mutants ≡ v.mutants ++ added
    pub pass : All (Passes genre v.exclude_re_stack) added
    pub stack : v'.exclude_re_stack ≡ v.exclude_re_stack

  none-Added : (genre : Genre) (v : Visitor X) → Added genre v v
  none-Added genre v = record {
    added = [];
    mutants = sym (append-nil v.mutants);
    pass = tt;
    stack = refl;
  }

  both-Added :
      (genre : Genre) (v v1 v2 : Visitor X)
      → Added genre v v1
      → Added genre v1 v2
      → Added genre v v2
  both-Added genre v v1 v2 h k = record {
    added = h.added ++ k.added;
    mutants =
        k.mutants ∙ (ap (λ ms. ms ++ k.added) h.mutants ∙ append_assoc v.mutants h.added k.added);
    pass =
        All-append _ h.added k.added h.pass
          (subst (λ s. All (Passes genre s) k.added) h.stack k.pass);
    stack = k.stack ∙ h.stack;
  }

  some_bind :
      {A B : Type 0} (o : Option A) (f : A → Option B) (b : B)
      → (o >>= f) ≡ some b
      → (a : A) × ((o ≡ some a) × (f a ≡ some b))
  some_bind none f b h = cc
  some_bind (some a) f b h = (a, (refl, h))

  some_injective : {A : Type 0} (a b : A) → some a ≡ some b → a ≡ b
  some_injective a b h = ap (λ o. elim o [ some x ↦ x | none ↦ a ]) h

  push-Added :
      (v v' : Visitor X) (m : Mutant) (excluded : Bool)
      → excluded_by_attr_re re_is_match v.exclude_re_stack m ≡ some excluded
      → push_if re_is_match matchers options v m excluded ≡ some v'
      → Added m.genre v v'
  unfolding push_if
  push-Added v v' m true e h =
      subst (Added m.genre v) (some_injective v v' h) (none-Added m.genre v)
  push-Added v v' m false e h =
      let (allowed, (ha, hv)) = some_bind (allows_mutant matchers options m) _ v' h in
      by_allowed allowed ha hv
    where
      by_allowed :
          (allowed : Bool)
          → allows_mutant matchers options m ≡ some allowed
          → some (if allowed then record v { mutants = v.mutants ++ m ∷ [] } else v) ≡ some v'
          → Added m.genre v v'
      by_allowed true ha hv = subst (Added m.genre v) (some_injective _ v' hv) (record {
        added = m ∷ [];
        mutants = refl;
        pass = (record { of_genre = refl; allowed = ha; not_excluded = e }, tt);
        stack = refl;
      })
      by_allowed false ha hv =
          subst (Added m.genre v) (some_injective v v' hv) (none-Added m.genre v)

  collect-Added :
      (v v' : Visitor X) (span : Span) (short : Option Text) (replacement : TokenStream)
      (genre : Genre)
      → collect_mutant re_is_match matchers options v span short replacement genre ≡ some v'
      → Added genre v v'
  unfolding collect_mutant new_mutant
  collect-Added v v' span short replacement genre h =
      let (excluded, (he, hp)) =
        some_bind
          (excluded_by_attr_re re_is_match v.exclude_re_stack
            (new_mutant re_is_match matchers options v span short replacement genre))
          _ v' h in
      push-Added v v' (new_mutant re_is_match matchers options v span short replacement genre)
        excluded he hp

  reps-Added :
      (span : Span) (orig_block : Text) (reps : List TokenStream) (v v' : Visitor X)
      → collect_reps re_is_match matchers options span orig_block reps v ≡ some v'
      → Added fn_value v v'
  unfolding collect_reps
  reps-Added span orig_block [] v v' h =
      subst (Added fn_value v) (some_injective v v' h) (none-Added fn_value v)
  reps-Added span orig_block (rep ∷ reps) v v' h =
      let (v1, (h1, h2)) =
        some_bind
          (if text_eq orig_block (to_pretty_string (next (group brace rep) end))
            then some v
            else collect_mutant re_is_match matchers options v span none rep fn_value)
          _ v' h in
      both-Added fn_value v v1 v' (first v1 h1) (reps-Added span orig_block reps v1 v' h2)
    where
      first :
          (v1 : Visitor X)
          → (if text_eq orig_block (to_pretty_string (next (group brace rep) end))
              then some v
              else collect_mutant re_is_match matchers options v span none rep fn_value)
            ≡ some v1
          → Added fn_value v v1
      first v1 h1 =
          elim (Bool-cases (text_eq orig_block (to_pretty_string (next (group brace rep) end)))) [
            | inl e ↦
                subst (Added fn_value v)
                  (some_injective v v1 (
                    subst
                      (λ b.
                        (if b
                          then some v
                          else collect_mutant re_is_match matchers options v span none rep fn_value)
                        ≡ some v1)
                      e h1))
                  (none-Added fn_value v)
            | inr e ↦ collect-Added v v1 span none rep fn_value (
                subst
                  (λ b.
                    (if b
                      then some v
                      else collect_mutant re_is_match matchers options v span none rep fn_value)
                    ≡ some v1)
                  e h1)
          ]

  -- The mutants that a function body gives are added after those before, each of them replaces a body,
  -- is allowed by the options and is not excluded by an attribute in scope, and the attributes in scope
  -- stay the same. The condition is that there is no panic.
  pub collect_fn_mutants-Added :
      (is_ident : PathHead → Text → Bool) (itertools : Itertools) (error_exprs : List TokenStream)
      (enums : EnumIndex) (output : ReturnType) (block : TokenStream) (body_span : Option Span)
      (v v' : Visitor X)
      → collect_fn_mutants re_is_match matchers options is_ident itertools error_exprs enums output
          block body_span v
        ≡ some v'
      → Added fn_value v v'
  unfolding collect_fn_mutants
  collect_fn_mutants-Added is_ident itertools error_exprs enums output block body_span v v' h =
      by_function v.function h
    where
      by_function :
          (function : Option Function)
          → (elim function as (λ f. Option (Visitor X)) [
            | none ↦ some v
            | some f ↦
                (body_span >>= λ span.
                collect_reps re_is_match matchers options span
                  (to_pretty_string block)
                  (return_type_replacements is_ident itertools error_exprs enums output)
                  v)
          ])
            ≡ some v'
          → Added fn_value v v'
      by_function none h = subst (Added fn_value v) (some_injective v v' h) (none-Added fn_value v)
      by_function (some f) h =
          let (span, (hs, hr)) = some_bind body_span _ v' h in
          reps-Added span (to_pretty_string block)
            (return_type_replacements is_ident itertools error_exprs enums output) v v' hr
