-- ===== src/FnValue/Unconstructible.antt =====
-- The types that nothing is generated for.
use cargo_mutants.Prelude.Text.{Text, codes}
use cargo_mutants.Prelude.{◌≡◌, refl, subst, sym, ap, ◌∙◌, fun_ext, Bool, true, List, [], map}
use cargo_mutants.Pretty.{TokenStream}
use cargo_mutants.FnValue.{array_type, reference_type, trait_object, never_type, SynType, EnumIndex}
use cargo_mutants.FnValue.Paths.{PathHead, args_where, first_type_arg}
use cargo_mutants.FnValue.Chain.{Itertools}
use cargo_mutants.FnValue.Replacements.{type_replacements, reference_replacements, leak_box}
use cargo_mutants.FnValue.Values.{
  one_ident, named, generic, Container, is_box, is_cell, is_refcell, is_arc, is_rc, is_mutex,
}

-- `!`, `dyn Trait`, the types without a usable constructor, and what holds one of these by value
pub data Unconstructible : SynType → Type 0 where
  a_never : Unconstructible never_type
  a_dyn : Unconstructible trait_object
  a_pin : (t : SynType) → Unconstructible (generic (codes "Pin") t)
  a_nonnull : (t : SynType) → Unconstructible (generic (codes "NonNull") t)
  an_instant : Unconstructible (named (codes "Instant"))
  a_system_time : Unconstructible (named (codes "SystemTime"))
  a_cow : {t : SynType} → Unconstructible t → Unconstructible (generic (codes "Cow") t)
  a_held :
      {n : Text} {t : SynType} → Container n → Unconstructible t → Unconstructible (generic n t)
  an_array :
      {t : SynType} (len : TokenStream) → Unconstructible t → Unconstructible (array_type t len)
  a_mutable : {t : SynType} → Unconstructible t → Unconstructible (reference_type true t)

module _ (itertools : Itertools) (errors : List TokenStream) (enums : EnumIndex) where
  reps : SynType → List TokenStream
  unfolding type_replacements
  reps t = type_replacements one_ident itertools errors enums t

  HasNone : SynType → Type 0
  unfolding reps
  HasNone t = reps t ≡ []

  held_none : (n : Text) (t : SynType) → Container n → HasNone t → HasNone (generic n t)
  unfolding HasNone args_where first_type_arg
  held_none _ t is_box e = rw e refl
  held_none _ t is_cell e = rw e refl
  held_none _ t is_refcell e = rw e refl
  held_none _ t is_arc e = rw e refl
  held_none _ t is_rc e = rw e refl
  held_none _ t is_mutex e = rw e refl

  cow_none : (t : SynType) → HasNone t → HasNone (generic (codes "Cow") t)
  unfolding HasNone args_where first_type_arg
  cow_none t e = rw e refl

  array_none : (t : SynType) (len : TokenStream) → HasNone t → HasNone (array_type t len)
  unfolding HasNone
  array_none t len e = rw e refl

  pin_none : (t : SynType) → HasNone (generic (codes "Pin") t)
  unfolding HasNone args_where first_type_arg
  pin_none t = refl

  nonnull_none : (t : SynType) → HasNone (generic (codes "NonNull") t)
  unfolding HasNone args_where first_type_arg
  nonnull_none t = refl

  instant_none : HasNone (named (codes "Instant"))
  unfolding HasNone args_where
  instant_none = refl

  system_time_none : HasNone (named (codes "SystemTime"))
  unfolding HasNone args_where
  system_time_none = refl

  mutable_box :
      (t : SynType) (rs : List TokenStream)
      → Unconstructible t
      → reference_replacements one_ident itertools errors enums true t rs ≡ map leak_box rs
  unfolding reference_replacements
  mutable_box _ rs a_never = refl
  mutable_box _ rs a_dyn = refl
  mutable_box _ rs (a_pin t) = refl
  mutable_box _ rs (a_nonnull t) = refl
  mutable_box _ rs an_instant = refl
  mutable_box _ rs a_system_time = refl
  mutable_box _ rs (a_cow u) = refl
  mutable_box _ rs (a_held c u) = refl
  mutable_box _ rs (an_array len u) = refl
  mutable_box _ rs (a_mutable u) = refl

  mutable_none : (t : SynType) → Unconstructible t → HasNone t → HasNone (reference_type true t)
  unfolding HasNone
  mutable_none t u e = mutable_box t (reps t) u ∙ ap (map leak_box) e

  unconstructible_none : (t : SynType) → Unconstructible t → HasNone t
  unfolding HasNone
  unconstructible_none _ a_never = refl
  unconstructible_none _ a_dyn = refl
  unconstructible_none _ (a_pin t) = pin_none t
  unconstructible_none _ (a_nonnull t) = nonnull_none t
  unconstructible_none _ an_instant = instant_none
  unconstructible_none _ a_system_time = system_time_none
  unconstructible_none _ (a_cow u) = cow_none _ (unconstructible_none _ u)
  unconstructible_none _ (a_held c u) = held_none _ _ c (unconstructible_none _ u)
  unconstructible_none _ (an_array {t} len u) = array_none t len (unconstructible_none t u)
  unconstructible_none _ (a_mutable {t} u) = mutable_none t u (unconstructible_none t u)

-- Nothing is generated for an unconstructible type: `!`, `dyn Trait`, `Pin`, `NonNull`, `Instant`,
-- `SystemTime`, and a `Cow`, known container, array or mutable reference of one of these, with
-- `Path::is_ident` as `syn` documents it.
pub type_replacements-Unconstructible :
    (is_ident : PathHead → Text → Bool) (itertools : Itertools) (errors : List TokenStream)
    (enums : EnumIndex)
    → ((path : PathHead) (name : Text) → is_ident path name ≡ one_ident path name)
    → (t : SynType) → Unconstructible t
    → type_replacements is_ident itertools errors enums t ≡ []
unfolding HasNone
type_replacements-Unconstructible is_ident itertools errors enums ident t u =
    subst (λ f. type_replacements f itertools errors enums t ≡ [])
      (sym (fun_ext (λ path. fun_ext (λ name. ident path name))))
      (unconstructible_none itertools errors enums t u)
