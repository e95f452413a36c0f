-- ===== src/FnValue/Typed.antt =====
-- The replacements for a type are values of that type.
use cargo_mutants.Prelude.Text.{Text, codes}
use cargo_mutants.Prelude.{
  ◌≡◌, refl, subst, sym, fun_ext, Bool, true, false, List, [], ◌∷◌, map, if◌then◌else◌, All, Any,
}
use cargo_mutants.Prelude.Quantifiers.{
  All-map, All-append, All-pick, All-picked, All-weaken, All-self,
}
use cargo_mutants.Pretty.{TokenStream, to_pretty_string}
use cargo_mutants.FnValue.{
  array_type, slice_type, reference_type, tuple_type, SynType, SynTypes, EnumIndex,
}
use cargo_mutants.FnValue.Quote.{call}
use cargo_mutants.FnValue.Paths.{
  PathHead, args_where, first_type_arg, match_nth_type_arg, type_args,
}
use cargo_mutants.FnValue.Chain.{
  Itertools, is_simply_constructible, result_replacements, ok_replacements, recursed_errs,
}
use cargo_mutants.FnValue.Replacements.{
  type_replacements, elem_replacements, reference_replacements, leak_box,
}
use cargo_mutants.FnValue.Values.{
  one_ident, UniqueByPicks, Picks, ProductPicks, named, generic, generic₂, Unsigned, is_u8, is_u16,
  is_u32, is_u64, is_u128, is_usize, Signed, is_i8, is_i16, is_i32, is_i64, is_i128, is_isize,
  Container, is_box, is_cell, is_refcell, is_arc, is_rc, is_mutex, Collection, is_binary_heap,
  is_btree_set, is_hash_set, is_linked_list, is_vec_deque, Known, a_bool, a_string, an_unsigned,
  a_signed, a_float, a_str, an_option, a_vec, a_result, a_container, a_collection, an_array,
  a_slice, a_mutable, a_tuple, AllKnown, none_known, one_known, ValueOf, true_value, false_value,
  empty_string, some_string, zero_unsigned, one_unsigned, zero_signed, one_signed, minus_one,
  zero_float, one_float, minus_float, empty_str, some_str, none_value, some_value, empty_vec,
  one_vec, ok_value, err_value, err_given, contained, empty_collection, one_collected, repeated,
  empty_slice, one_slice, leaked, tuple_value, ValuesOf, no_value, next_value, NotSingle, Copies,
  Compares,
}

module _ (itertools : Itertools) (errors : List TokenStream) (enums : EnumIndex) where
  -- The replacements where `Path::is_ident` is as documented
  reps : SynType → List TokenStream
  unfolding type_replacements
  reps t = type_replacements one_ident itertools errors enums t

  AreValues : SynType → Type 0
  unfolding reps
  AreValues t = All (ValueOf errors t) (reps t)

  bool_values : AreValues (named (codes "bool"))
  unfolding AreValues
  bool_values = (true_value, (false_value, tt))

  string_values : AreValues (named (codes "String"))
  unfolding AreValues
  string_values = (empty_string, (some_string, tt))

  float_values : AreValues (named (codes "f64"))
  unfolding AreValues args_where
  float_values = (zero_float, (one_float, (minus_float, tt)))

  str_values : AreValues (reference_type false (named (codes "str")))
  unfolding AreValues
  str_values = (empty_str, (some_str, tt))

  unsigned_values : (n : Text) → Unsigned n → AreValues (named n)
  unfolding AreValues
  unsigned_values _ is_u8 = (zero_unsigned is_u8, (one_unsigned is_u8, tt))
  unsigned_values _ is_u16 = (zero_unsigned is_u16, (one_unsigned is_u16, tt))
  unsigned_values _ is_u32 = (zero_unsigned is_u32, (one_unsigned is_u32, tt))
  unsigned_values _ is_u64 = (zero_unsigned is_u64, (one_unsigned is_u64, tt))
  unsigned_values _ is_u128 = (zero_unsigned is_u128, (one_unsigned is_u128, tt))
  unsigned_values _ is_usize = (zero_unsigned is_usize, (one_unsigned is_usize, tt))

  signed_values : (n : Text) → Signed n → AreValues (named n)
  unfolding AreValues
  signed_values _ is_i8 = (zero_signed is_i8, (one_signed is_i8, (minus_one is_i8, tt)))
  signed_values _ is_i16 = (zero_signed is_i16, (one_signed is_i16, (minus_one is_i16, tt)))
  signed_values _ is_i32 = (zero_signed is_i32, (one_signed is_i32, (minus_one is_i32, tt)))
  signed_values _ is_i64 = (zero_signed is_i64, (one_signed is_i64, (minus_one is_i64, tt)))
  signed_values _ is_i128 = (zero_signed is_i128, (one_signed is_i128, (minus_one is_i128, tt)))
  signed_values _ is_isize = (zero_signed is_isize, (one_signed is_isize, (minus_one is_isize, tt)))

  option_values : (t : SynType) → AreValues t → AreValues (generic (codes "Option") t)
  unfolding AreValues args_where first_type_arg
  option_values t h = (none_value, All-map _ _ _ (λ v p. some_value p) (reps t) h)

  vec_values : (t : SynType) → AreValues t → AreValues (generic (codes "Vec") t)
  unfolding AreValues args_where first_type_arg
  vec_values t h = (empty_vec, All-map _ _ _ (λ v p. one_vec p) (reps t) h)

  container_values : (n : Text) (t : SynType) → Container n → AreValues t → AreValues (generic n t)
  unfolding AreValues args_where first_type_arg
  container_values _ t is_box h = All-map _ _ _ (λ v p. contained is_box p) (reps t) h
  container_values _ t is_cell h = All-map _ _ _ (λ v p. contained is_cell p) (reps t) h
  container_values _ t is_refcell h = All-map _ _ _ (λ v p. contained is_refcell p) (reps t) h
  container_values _ t is_arc h = All-map _ _ _ (λ v p. contained is_arc p) (reps t) h
  container_values _ t is_rc h = All-map _ _ _ (λ v p. contained is_rc p) (reps t) h
  container_values _ t is_mutex h = All-map _ _ _ (λ v p. contained is_mutex p) (reps t) h

  collection_values :
      (n : Text) (t : SynType) → Collection n → Compares t → AreValues t → AreValues (generic n t)
  unfolding AreValues args_where first_type_arg
  collection_values _ t is_binary_heap c h = (
    empty_collection is_binary_heap,
    All-map _ _ _ (λ v p. one_collected is_binary_heap c p) (reps t) h,
  )
  collection_values _ t is_btree_set c h = (
    empty_collection is_btree_set,
    All-map _ _ _ (λ v p. one_collected is_btree_set c p) (reps t) h,
  )
  collection_values _ t is_hash_set c h = (
    empty_collection is_hash_set,
    All-map _ _ _ (λ v p. one_collected is_hash_set c p) (reps t) h,
  )
  collection_values _ t is_linked_list c h = (
    empty_collection is_linked_list,
    All-map _ _ _ (λ v p. one_collected is_linked_list c p) (reps t) h,
  )
  collection_values _ t is_vec_deque c h = (
    empty_collection is_vec_deque,
    All-map _ _ _ (λ v p. one_collected is_vec_deque c p) (reps t) h,
  )

  array_values :
      (t : SynType) (len : TokenStream) → Copies t → AreValues t → AreValues (array_type t len)
  unfolding AreValues
  array_values t len c h = All-map _ _ _ (λ v p. repeated c p) (reps t) h

  slice_values :
      (m : Bool) (t : SynType) → AreValues t → AreValues (reference_type m (slice_type t))
  unfolding AreValues
  slice_values m t h = (empty_slice, All-map _ _ _ (λ v p. one_slice p) (reps t) h)

  box_values :
      (t : SynType)
      → AreValues t
      → All (ValueOf errors (reference_type true t)) (map leak_box (reps t))
  unfolding AreValues
  box_values t h = All-map _ _ _ (λ v p. leaked p) (reps t) h

  -- A mutable reference to one of these types is to a box
  mutable_box :
      (t : SynType) (rs : List TokenStream)
      → Known t
      → reference_replacements one_ident itertools errors enums true t rs ≡ map leak_box rs
  unfolding reference_replacements
  mutable_box _ rs a_bool = refl
  mutable_box _ rs a_string = refl
  mutable_box _ rs (an_unsigned u) = refl
  mutable_box _ rs (a_signed u) = refl
  mutable_box _ rs a_float = refl
  mutable_box _ rs a_str = refl
  mutable_box _ rs (an_option k) = refl
  mutable_box _ rs (a_vec k) = refl
  mutable_box _ rs (a_result k l) = refl
  mutable_box _ rs (a_container c k) = refl
  mutable_box _ rs (a_collection c o k) = refl
  mutable_box _ rs (an_array len c k) = refl
  mutable_box _ rs (a_slice m k) = refl
  mutable_box _ rs (a_mutable k) = refl
  mutable_box _ rs (a_tuple n ks) = refl

  mutable_values : (t : SynType) → Known t → AreValues t → AreValues (reference_type true t)
  unfolding AreValues
  mutable_values t k h =
      subst (All (ValueOf errors (reference_type true t))) (sym (mutable_box t (reps t) k))
        (box_values t h)

  pick_value :
      (t : SynType) (v : TokenStream) → AreValues t → Any (λ u. v ≡ u) (reps t) → ValueOf errors t v
  unfolding AreValues
  pick_value t v h a = All-pick (ValueOf errors t) (reps t) v h a

  elems : SynTypes → List (List TokenStream)
  unfolding elem_replacements
  elems ts = elem_replacements one_ident itertools errors enums ts

  tuple_values :
      (ts : SynTypes)
      → NotSingle ts
      → All (ValuesOf errors ts) (itertools.multi_cartesian_product (elems ts))
      → AreValues (tuple_type ts)
  unfolding AreValues elems
  tuple_values ts n h = All-map _ _ _ (λ vs p. tuple_value n p) _ h

  module _ (picks : UniqueByPicks itertools) where
    result_values :
        (t u : SynType) → AreValues t → AreValues u → AreValues (generic₂ (codes "Result") t u)
    unfolding AreValues args_where first_type_arg match_nth_type_arg type_args result_replacements
        ok_replacements recursed_errs
    result_values t u h k =
        All-picked (ValueOf errors (generic₂ (codes "Result") t u)) _ _
          (All-append _ (map (call (codes "Ok")) (reps t)) _
            (All-map _ _ _ (λ v p. ok_value p) (reps t) h)
            (All-append _ (map (call (codes "Err")) errors) _
              (All-map _ _ _ (λ v p. err_given p) errors (All-self errors)) recursed))
          (picks to_pretty_string _)
      where
        recursed :
            All (ValueOf errors (generic₂ (codes "Result") t u)) (
              if is_simply_constructible one_ident u then map (call (codes "Err")) (reps u) else [])
        recursed =
            elim (is_simply_constructible one_ident u)
              as (λ b.
                All (ValueOf errors (generic₂ (codes "Result") t u))
                  (if b then map (call (codes "Err")) (reps u) else [])) [
                    | true ↦ All-map _ _ _ (λ v p. err_value p) (reps u) k
                    | false ↦ tt
                  ]

    module _ (product : ProductPicks itertools) where
      mutual
        unfolding elems reps

        known_values : (t : SynType) → Known t → AreValues t
        known_values _ a_bool = bool_values
        known_values _ a_string = string_values
        known_values _ (an_unsigned u) = unsigned_values _ u
        known_values _ (a_signed u) = signed_values _ u
        known_values _ a_float = float_values
        known_values _ a_str = str_values
        known_values _ (an_option k) = option_values _ (known_values _ k)
        known_values _ (a_vec k) = vec_values _ (known_values _ k)
        known_values _ (a_result k l) = result_values _ _ (known_values _ k) (known_values _ l)
        known_values _ (a_container c k) = container_values _ _ c (known_values _ k)
        known_values _ (a_collection c o k) = collection_values _ _ c o (known_values _ k)
        known_values _ (an_array len c k) = array_values _ len c (known_values _ k)
        known_values _ (a_slice m k) = slice_values m _ (known_values _ k)
        known_values _ (a_mutable {t} k) = mutable_values t k (known_values t k)
        known_values _ (a_tuple {ts} n ks) =
            tuple_values ts n (All-weaken _ _ (picked_values ts ks) _ (product (elems ts)))

        picked_values :
            (ts : SynTypes)
            → AllKnown ts
            → (vs : List TokenStream) → Picks vs (elems ts)
            → ValuesOf errors ts vs
        picked_values _ none_known [] p = no_value
        picked_values _ none_known (v ∷ vs) p = elim p [ ]
        picked_values _ (one_known k ks) [] p = elim p [ ]
        picked_values _ (one_known k ks) (v ∷ vs) (p, q) =
            next_value (pick_value _ v (known_values _ k) p) (picked_values _ ks vs q)

-- What is generated for a type of the described kinds, among which are tuples but those of one element,
-- arrays of types with `Copy`, and collections of types with an order and a hash, is a value of that
-- type: with `Path::is_ident` as `syn` documents it, where `unique_by` gives elements of its input, and
-- the cartesian product rows with one element of each list.
pub type_replacements-ValueOf :
    (is_ident : PathHead → Text → Bool) (itertools : Itertools) (errors : List TokenStream)
    (enums : EnumIndex)
    → ((path : PathHead) (name : Text) → is_ident path name ≡ one_ident path name)
    → UniqueByPicks itertools
    → ProductPicks itertools
    → (t : SynType) → Known t
    → All (ValueOf errors t) (type_replacements is_ident itertools errors enums t)
unfolding AreValues
type_replacements-ValueOf is_ident itertools errors enums ident picks product t k =
    subst (λ f. All (ValueOf errors t) (type_replacements f itertools errors enums t))
      (sym (fun_ext (λ path. fun_ext (λ name. ident path name))))
      (known_values itertools errors enums picks product t k)
