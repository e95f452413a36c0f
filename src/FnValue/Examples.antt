-- ===== src/FnValue/Examples.antt =====
-- Tests of the replacements of a function's body, after those of src/fnvalue.rs, and witnesses.
use cargo_mutants.Prelude.Text.{Text, codes, text_eq}
use cargo_mutants.Prelude.{
  ◌≡◌, refl, inl, inr, Bool, true, false, ◌||◌, List, [], ◌∷◌, ◌++◌, map, if◌then◌else◌, All, Any,
}
use cargo_mutants.Pretty.{TokenStream, end, to_pretty_string}
use cargo_mutants.FnValue.{
  SynType, tuple_type, impl_trait, trait_object, no_type, one_type, no_segment, segment,
  angle_bracketed, no_argument, assoc_type, no_bound, trait_bound, item_enum, item_mod, no_item,
  one_item, from_file, find_enum, add_items, insert_variants, unit_variant_idents, return_type,
  EnumIndex,
}
use cargo_mutants.FnValue.Quote.{call}
use cargo_mutants.FnValue.Paths.{args_where, first_type_arg, match_nth_type_arg, type_args}
use cargo_mutants.FnValue.Chain.{Itertools}
use cargo_mutants.FnValue.Replacements.{type_replacements, return_type_replacements}
use cargo_mutants.FnValue.Values.{
  one_ident, named, generic, generic₂, Picks, ProductPicks, Known, a_bool, a_result, a_tuple,
  an_unsigned, is_usize, an_option, a_string, one_known, none_known, ValueOf, is_box,
}
use cargo_mutants.FnValue.Typed.{type_replacements-ValueOf}
use cargo_mutants.Prelude.Quantifiers.{All-map, All-append, All-weaken}
use cargo_mutants.FnValue.Unconstructible.{type_replacements-Unconstructible, a_held, a_dyn}

-- Concrete functions for those of the libraries
abbrev seen : (TokenStream → Text) → TokenStream → List TokenStream → Bool
seen key t [] = false
seen key t (u ∷ us) = text_eq (key u) (key t) || seen key t us

-- The elements of the second list whose key is neither that of another one before nor in the first
abbrev unique : (TokenStream → Text) → List TokenStream → List TokenStream → List TokenStream
unique key before [] = []
unique key before (t ∷ ts) =
    let rest = unique key (t ∷ before) ts in if seen key t before then rest else t ∷ rest

abbrev pairs : List TokenStream → List TokenStream → List (TokenStream × TokenStream)
pairs [] us = []
pairs (t ∷ ts) us = map (λ u. (t, u)) us ++ pairs ts us

abbrev prefixed : List TokenStream → List (List TokenStream) → List (List TokenStream)
prefixed [] rows = []
prefixed (t ∷ ts) rows = map (λ row. t ∷ row) rows ++ prefixed ts rows

abbrev product : List (List TokenStream) → List (List TokenStream)
product [] = [] ∷ []
product (ts ∷ rows) = prefixed ts (product rows)

abbrev itertools : Itertools
itertools = record {
  unique_by = λ key ts. unique key [] ts;
  cartesian_product = pairs;
  multi_cartesian_product = product;
}

-- They behave as the libraries are relied on
unique_picks :
    (key : TokenStream → Text) (before ts : List TokenStream)
    → All (λ t. Any (λ u. t ≡ u) ts) (unique key before ts)
unique_picks key before [] = tt
unique_picks key before (t ∷ ts) =
    elim (seen key t before)
      as (λ b.
        All (λ v. Any (λ u. v ≡ u) (t ∷ ts))
          (if b then unique key (t ∷ before) ts else t ∷ unique key (t ∷ before) ts)) [
            | true ↦ All-weaken _ _ (λ v a. inr a) _ (unique_picks key (t ∷ before) ts)
            | false ↦ (inl refl, All-weaken _ _ (λ v a. inr a) _ (unique_picks key (t ∷ before) ts))
          ]

prefixed-Picks :
    (ts us : List TokenStream) (rows all : List (List TokenStream))
    → All (λ vs. Picks vs rows) all
    → ((t : TokenStream) → Any (λ u. t ≡ u) ts → Any (λ u. t ≡ u) us)
    → All (λ vs. Picks vs (us ∷ rows)) (prefixed ts all)
prefixed-Picks [] us rows all h k = tt
prefixed-Picks (t ∷ ts) us rows all h k =
    All-append (λ vs. Picks vs (us ∷ rows)) (map (λ row. t ∷ row) all) (prefixed ts all)
      (All-map _ _ _ (λ vs p. (k t (inl refl), p)) all h)
      (prefixed-Picks ts us rows all h (λ u a. k u (inr a)))

product-Picks : ProductPicks itertools
product-Picks [] = (tt, tt)
product-Picks (ts ∷ rows) = prefixed-Picks ts ts rows (product rows) (product-Picks rows) (λ t a. a)

texts : List TokenStream → List Text
unfolding to_pretty_string
texts ts = map to_pretty_string ts

replacements : List TokenStream → EnumIndex → SynType → List Text
unfolding texts return_type_replacements
replacements errors enums t =
    texts (return_type_replacements one_ident itertools errors enums (return_type t))

result_with_errors :
    replacements
      (call (codes "anyhow") end ∷ [])
      []
      (generic (codes "Result") (generic (codes "Result") (named (codes "bool"))))
    ≡ (codes "Ok(Ok(true))"
        ∷ codes "Ok(Ok(false))"
        ∷ codes "Ok(Err(anyhow()))"
        ∷ codes "Err(anyhow())"
        ∷ [])
unfolding replacements args_where first_type_arg match_nth_type_arg type_args
result_with_errors = refl

tuple_combinations :
    replacements [] []
      (tuple_type (one_type (named (codes "bool")) (one_type (named (codes "usize")) no_type)))
    ≡ (codes "(true, 0)" ∷ codes "(true, 1)" ∷ codes "(false, 0)" ∷ codes "(false, 1)" ∷ [])
unfolding replacements
tuple_combinations = refl

iterator_of_string :
    replacements [] [] (
      impl_trait (
        trait_bound
          (segment
            (codes "Iterator")
            (angle_bracketed (assoc_type (codes "Item") (named (codes "String")) no_argument))
            no_segment)
          no_bound))
    ≡ (codes "::std::iter::empty()"
        ∷ codes "::std::iter::once(String::new())"
        ∷ codes "::std::iter::once(\"xyzzy\".into())"
        ∷ [])
unfolding replacements
iterator_of_string = refl

enum_in_mod :
    replacements []
      (from_file (
        one_item
          (item_mod (
            one_item
              (item_enum (codes "Dir") ((codes "Up", true) ∷ (codes "At", false) ∷ []))
              no_item))
          no_item))
      (named (codes "Dir"))
    ≡ (codes "Dir::Up" ∷ [])
unfolding replacements from_file args_where find_enum add_items insert_variants unit_variant_idents
enum_in_mod = refl

abbrev result_of_pair : SynType
result_of_pair =
    generic₂ (codes "Result")
      (tuple_type (
        one_type (named (codes "usize"))
          (one_type (generic (codes "Option") (named (codes "bool"))) no_type)))
      (named (codes "String"))

abbrev result_of_pair_Known : Known result_of_pair
result_of_pair_Known =
    a_result
      (a_tuple tt (one_known (an_unsigned is_usize) (one_known (an_option a_bool) none_known)))
      a_string

type_replacements-ValueOf_example :
    All
      (ValueOf (call (codes "anyhow") end ∷ []) result_of_pair)
      (type_replacements one_ident itertools (call (codes "anyhow") end ∷ []) [] result_of_pair)
type_replacements-ValueOf_example =
    type_replacements-ValueOf one_ident itertools (call (codes "anyhow") end ∷ []) []
      (λ path name. refl) (λ key ts. unique_picks key [] ts) product-Picks result_of_pair
      result_of_pair_Known

type_replacements-Unconstructible_example :
    type_replacements one_ident itertools [] [] (generic (codes "Box") trait_object) ≡ []
type_replacements-Unconstructible_example =
    type_replacements-Unconstructible one_ident itertools [] [] (λ path name. refl)
      (generic (codes "Box") trait_object) (a_held is_box a_dyn)
