-- ===== src/FnValue/Replacements.antt =====
-- The values for the type of a function: `return_type_replacements` and the rest of
-- `type_replacements` in src/fnvalue.rs.
use cargo_mutants.Prelude.Text.{Text, codes, text_eq}
use cargo_mutants.Prelude.{Bool, false, Option, none, some, List, [], ◌∷◌, map, if◌then◌else◌}
use cargo_mutants.Pretty.{TokenStream, end}
use cargo_mutants.FnValue.{
  SynType, SynTypes, Segments, PathArguments, GenericArguments, Bounds, path_type, array_type,
  slice_type, reference_type, tuple_type, impl_trait, trait_object, never_type, other_type, no_type,
  one_type, no_segment, segment, no_arguments, parenthesized, angle_bracketed, no_argument,
  type_argument, assoc_type, lifetime_argument, other_argument, no_bound, trait_bound, other_bound,
  ReturnType, default_return, return_type, EnumIndex,
}
use cargo_mutants.FnValue.Quote.{
  ◌+++◌, word, op, parens, brackets, path_sep, assoc_call, lit, xyzzy, member, separated,
}
use cargo_mutants.FnValue.Paths.{
  Arg, type_arg, assoc_arg, lifetime_arg, other_arg, LastSegment, PathHead, head_of,
}
use cargo_mutants.FnValue.Chain.{Inner, Itertools, path_replacements, vec_of, default_value}

-- `Vec::leak(t)` and `Box::leak(Box::new(t))`
abbrev pub leak_vec : TokenStream → TokenStream
leak_vec t = assoc_call (codes "Vec") (codes "leak") t

abbrev pub leak_box : TokenStream → TokenStream
leak_box t = assoc_call (codes "Box") (codes "leak") (assoc_call (codes "Box") (codes "new") t)

abbrev pub slice_replacements : List TokenStream → List TokenStream
slice_replacements reps =
    leak_vec (assoc_call (codes "Vec") (codes "new") end) ∷ map (λ r. leak_vec (vec_of r)) reps

-- `::std::iter::#name`
abbrev pub std_iter : Text → TokenStream
std_iter name = path_sep +++ (member (codes "std") (codes "iter") +++ (path_sep +++ word name))

abbrev pub last_or : {A : Type 0} → Option A → Option A → Option A
last_or (some a) b = some a
last_or none b = b

-- The item type of one bound, as `match_impl_iterator` finds it
unfoldable pub bound_item : Option (LastSegment Inner) → Option Inner
bound_item none = none
bound_item (some l) =
    if text_eq l.ident (codes "Iterator")
    then elim l.angle_args as (λ args. Option Inner) [
      | some args ↦ elim args as (λ args. Option Inner) [
        | [] ↦ none
        | a ∷ rest ↦ elim a as (λ a. Option Inner) [
          | assoc_arg name inner ↦ (if text_eq name (codes "Item") then some inner else none)
          | type_arg inner ↦ none
          | lifetime_arg ↦ none
          | other_arg ↦ none
        ]
      ]
      | none ↦ none
    ]
    else none

module _ (is_ident : PathHead → Text → Bool) (itertools : Itertools)
    (error_exprs : List TokenStream) (enums : EnumIndex) where
  -- The arms for references, where `reps` is what the type referred to gives. The list for a slice is
  -- that of the slice itself.
  unfoldable pub reference_replacements : Bool → SynType → List TokenStream → List TokenStream
  reference_replacements m (slice_type elem) reps = reps
  reference_replacements false (path_type colon segments) reps =
      if is_ident (head_of colon segments) (codes "str")
      then lit (codes "\"\"") ∷ xyzzy ∷ []
      else map leak_box reps
  reference_replacements m _ reps = map leak_box reps

  -- `type_replacements` and `match_impl_iterator`, with the arguments of a path
  unfoldable mutual
    unfolding path_replacements reference_replacements bound_item

    pub type_replacements : SynType → List TokenStream
    type_replacements (path_type colon segments) =
        path_replacements is_ident itertools error_exprs enums
          (record { head = head_of colon segments; last = last_segment segments })
    type_replacements (array_type elem len) =
        map (λ r. brackets (r +++ (op b';' +++ len))) (type_replacements elem)
    type_replacements (slice_type elem) = slice_replacements (type_replacements elem)
    type_replacements (reference_type m elem) =
        reference_replacements m elem (type_replacements elem)
    type_replacements (tuple_type elems) =
        map (λ reps. parens (separated reps))
          (itertools.multi_cartesian_product (elem_replacements elems))
    type_replacements (impl_trait bounds) = elim (match_impl_iterator bounds) [
      | some inner ↦
          (std_iter (codes "empty") +++ parens end)
          ∷ map (λ r. std_iter (codes "once") +++ parens r) inner.1
      | none ↦ []
    ]
    type_replacements trait_object = []
    type_replacements never_type = []
    type_replacements other_type = default_value ∷ []

    pub elem_replacements : SynTypes → List (List TokenStream)
    elem_replacements no_type = []
    elem_replacements (one_type elem elems) = type_replacements elem ∷ elem_replacements elems

    pub last_segment : Segments → Option (LastSegment Inner)
    last_segment no_segment = none
    last_segment (segment name args segments) =
        last_or (last_segment segments)
          (some (record { ident = name; angle_args = angle_args args }))

    pub angle_args : PathArguments → Option (List (Arg Inner))
    angle_args no_arguments = none
    angle_args parenthesized = none
    angle_args (angle_bracketed args) = some (generic_args args)

    pub generic_args : GenericArguments → List (Arg Inner)
    generic_args no_argument = []
    generic_args (type_argument ty args) = type_arg (ty, type_replacements ty) ∷ generic_args args
    generic_args (assoc_type name ty args) =
        assoc_arg name (ty, type_replacements ty) ∷ generic_args args
    generic_args (lifetime_argument args) = lifetime_arg ∷ generic_args args
    generic_args (other_argument args) = other_arg ∷ generic_args args

    pub match_impl_iterator : Bounds → Option Inner
    match_impl_iterator no_bound = none
    match_impl_iterator (trait_bound segments bounds) =
        last_or (bound_item (last_segment segments)) (match_impl_iterator bounds)
    match_impl_iterator (other_bound bounds) = match_impl_iterator bounds

  -- `return_type_replacements`
  unfoldable pub return_type_replacements : ReturnType → List TokenStream
  unfolding type_replacements
  return_type_replacements default_return = parens end ∷ []
  return_type_replacements (return_type ty) = type_replacements ty
