-- ===== src/FnValue.antt =====
-- Values to replace the body of a function with, by its return type: src/fnvalue.rs. The types are
-- those parts of `syn`'s syntax trees that the code reads.
pub mod Quote
pub mod Paths
pub mod Chain
pub mod Replacements
pub mod Values
pub mod Typed
pub mod Unconstructible
mod Examples
use cargo_mutants.Prelude.Text.{Text, text_eq}
use cargo_mutants.Prelude.{Bool, Option, none, some, List, [], ◌∷◌, if◌then◌else◌}
use cargo_mutants.Pretty.{TokenStream}

-- `syn::Type`, `Path`, `PathArguments`, `GenericArgument` and `TypeParamBound`. The flag of a path is
-- its leading colon, and that of a reference its mutability.
mutual
  pub data SynType : Type 0 where
    path_type : Bool → Segments → SynType
    array_type : SynType → TokenStream → SynType
    slice_type : SynType → SynType
    reference_type : Bool → SynType → SynType
    tuple_type : SynTypes → SynType
    impl_trait : Bounds → SynType
    trait_object never_type other_type : SynType

  pub data SynTypes : Type 0 where
    no_type : SynTypes
    one_type : SynType → SynTypes → SynTypes

  pub data Segments : Type 0 where
    no_segment : Segments
    segment : Text → PathArguments → Segments → Segments

  pub data PathArguments : Type 0 where
    no_arguments parenthesized : PathArguments
    angle_bracketed : GenericArguments → PathArguments

  pub data GenericArguments : Type 0 where
    no_argument : GenericArguments
    type_argument : SynType → GenericArguments → GenericArguments
    assoc_type : Text → SynType → GenericArguments → GenericArguments
    lifetime_argument other_argument : GenericArguments → GenericArguments

  pub data Bounds : Type 0 where
    no_bound : Bounds
    trait_bound : Segments → Bounds → Bounds
    other_bound : Bounds → Bounds

-- `syn::ReturnType`
pub data ReturnType : Type 0 where
  default_return : ReturnType
  return_type : SynType → ReturnType

-- `syn::Item`, with the variants of an enum that are read: name, and whether it is a unit variant
mutual
  pub data Item : Type 0 where
    item_enum : Text → List (Text × Bool) → Item
    item_mod : Items → Item
    empty_mod other_item : Item

  pub data Items : Type 0 where
    no_item : Items
    one_item : Item → Items → Items

-- `EnumIndex`: the last enum that was inserted under a name comes first
abbrev pub EnumIndex : Type 0
EnumIndex = List (Text × List Text)

-- The unit variants of an enum
unfoldable pub unit_variant_idents : List (Text × Bool) → List Text
unit_variant_idents [] = []
unit_variant_idents ((v, is_unit) ∷ vs) =
    let rest = unit_variant_idents vs in if is_unit then v ∷ rest else rest

unfoldable pub insert_variants : Text → List Text → EnumIndex → EnumIndex
insert_variants name [] index = index
insert_variants name (v ∷ vs) index = (name, v ∷ vs) ∷ index

-- `EnumIndex::add_items`
unfoldable mutual
  pub add_item : Item → EnumIndex → EnumIndex
  add_item (item_enum name vs) index = insert_variants name (unit_variant_idents vs) index
  add_item (item_mod items) index = add_items items index
  add_item empty_mod index = index
  add_item other_item index = index

  pub add_items : Items → EnumIndex → EnumIndex
  add_items no_item index = index
  add_items (one_item item items) index = add_items items (add_item item index)

-- `EnumIndex::from_file`
unfoldable pub from_file : Items → EnumIndex
from_file items = add_items items []

unfoldable pub find_enum : Text → EnumIndex → Option (List Text)
find_enum name [] = none
find_enum name ((n, vs) ∷ index) = if text_eq n name then some vs else find_enum name index
