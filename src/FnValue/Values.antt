-- ===== src/FnValue/Values.antt =====
-- What it is to be a value of a type, independently of the code that generates replacements, and the
-- behaviour of the libraries that the code relies on.
use cargo_mutants.Prelude.Text.{Text, codes, text_eq}
use cargo_mutants.Prelude.{◌≡◌, Bool, true, false, not, ◌&&◌, List, [], ◌∷◌, All, Any}
use cargo_mutants.Pretty.{TokenStream, end}
use cargo_mutants.FnValue.{
  SynType, SynTypes, path_type, array_type, slice_type, reference_type, tuple_type, no_type,
  one_type, no_segment, segment, no_arguments, angle_bracketed, no_argument, type_argument,
}
use cargo_mutants.FnValue.Quote.{
  ◌+++◌, word, op, lit, parens, brackets, call, assoc_call, method, xyzzy, separated,
}
use cargo_mutants.FnValue.Paths.{PathHead}
use cargo_mutants.FnValue.Chain.{Itertools, vec_of, minus}
use cargo_mutants.FnValue.Replacements.{leak_vec, leak_box}

-- `Path::is_ident` as `syn` documents it: no leading colon, one segment, without arguments, and the
-- name
abbrev pub one_ident : PathHead → Text → Bool
one_ident path name = not path.leading_colon && (path.bare && is_one path.idents name)
  where
    is_one : List Text → Text → Bool
    is_one [] n = false
    is_one (i ∷ []) n = text_eq i n
    is_one (i ∷ j ∷ is) n = false

-- `unique_by` gives elements of its input only
abbrev pub UniqueByPicks : Itertools → Type 0
UniqueByPicks itertools =
    (key : TokenStream → Text) (ts : List TokenStream)
    → All (λ t. Any (λ u. t ≡ u) ts) (itertools.unique_by key ts)

-- One element of each list, in order
abbrev pub Picks : List TokenStream → List (List TokenStream) → Type 0
Picks [] [] = Unit
Picks [] (row ∷ rows) = ⊥
Picks (t ∷ ts) [] = ⊥
Picks (t ∷ ts) (row ∷ rows) = Any (λ u. t ≡ u) row × Picks ts rows

-- `multi_cartesian_product` gives lists with one element of each of its inputs
abbrev pub ProductPicks : Itertools → Type 0
ProductPicks itertools =
    (rows : List (List TokenStream))
    → All (λ ts. Picks ts rows) (itertools.multi_cartesian_product rows)

-- A type that is a name, one with a type argument, and one with two
abbrev pub named : Text → SynType
named name = path_type false (segment name no_arguments no_segment)

abbrev pub generic : Text → SynType → SynType
generic name t =
    path_type false (segment name (angle_bracketed (type_argument t no_argument)) no_segment)

abbrev pub generic₂ : Text → SynType → SynType → SynType
generic₂ name t u =
    path_type false
      (segment name (angle_bracketed (type_argument t (type_argument u no_argument))) no_segment)

pub data Unsigned : Text → Type 0 where
  is_u8 : Unsigned (codes "u8")
  is_u16 : Unsigned (codes "u16")
  is_u32 : Unsigned (codes "u32")
  is_u64 : Unsigned (codes "u64")
  is_u128 : Unsigned (codes "u128")
  is_usize : Unsigned (codes "usize")

pub data Signed : Text → Type 0 where
  is_i8 : Signed (codes "i8")
  is_i16 : Signed (codes "i16")
  is_i32 : Signed (codes "i32")
  is_i64 : Signed (codes "i64")
  is_i128 : Signed (codes "i128")
  is_isize : Signed (codes "isize")

-- The types with `T::new(value)`
pub data Container : Text → Type 0 where
  is_box : Container (codes "Box")
  is_cell : Container (codes "Cell")
  is_refcell : Container (codes "RefCell")
  is_arc : Container (codes "Arc")
  is_rc : Container (codes "Rc")
  is_mutex : Container (codes "Mutex")

-- The types with an empty value and one from an array
pub data Collection : Text → Type 0 where
  is_binary_heap : Collection (codes "BinaryHeap")
  is_btree_set : Collection (codes "BTreeSet")
  is_hash_set : Collection (codes "HashSet")
  is_linked_list : Collection (codes "LinkedList")
  is_vec_deque : Collection (codes "VecDeque")

-- A tuple type that has not just one element, of which a value has a comma before the parenthesis
abbrev pub NotSingle : SynTypes → Type 0
NotSingle no_type = Unit
NotSingle (one_type t no_type) = ⊥
NotSingle (one_type t (one_type u ts)) = Unit

-- Types with `Copy`, which an element of an array has that is written once for all of them
mutual
  pub data Copies : SynType → Type 0 where
    copy_bool : Copies (named (codes "bool"))
    copy_unsigned : {n : Text} → Unsigned n → Copies (named n)
    copy_signed : {n : Text} → Signed n → Copies (named n)
    copy_float : Copies (named (codes "f64"))
    copy_reference : (t : SynType) → Copies (reference_type false t)
    copy_option : {t : SynType} → Copies t → Copies (generic (codes "Option") t)
    copy_result : {t u : SynType} → Copies t → Copies u → Copies (generic₂ (codes "Result") t u)
    copy_array : {t : SynType} (len : TokenStream) → Copies t → Copies (array_type t len)
    copy_tuple : {ts : SynTypes} → AllCopy ts → Copies (tuple_type ts)

  pub data AllCopy : SynTypes → Type 0 where
    none_copy : AllCopy no_type
    one_copy : {t : SynType} {ts : SynTypes} → Copies t → AllCopy ts → AllCopy (one_type t ts)

-- Types with an order and a hash, which the elements of some collections need
mutual
  pub data Compares : SynType → Type 0 where
    compare_bool : Compares (named (codes "bool"))
    compare_string : Compares (named (codes "String"))
    compare_unsigned : {n : Text} → Unsigned n → Compares (named n)
    compare_signed : {n : Text} → Signed n → Compares (named n)
    compare_str : Compares (reference_type false (named (codes "str")))
    compare_option : {t : SynType} → Compares t → Compares (generic (codes "Option") t)
    compare_vec : {t : SynType} → Compares t → Compares (generic (codes "Vec") t)
    compare_array : {t : SynType} (len : TokenStream) → Compares t → Compares (array_type t len)
    compare_tuple : {ts : SynTypes} → AllCompare ts → Compares (tuple_type ts)

  pub data AllCompare : SynTypes → Type 0 where
    none_compare : AllCompare no_type
    one_compare :
        {t : SynType} {ts : SynTypes} → Compares t → AllCompare ts → AllCompare (one_type t ts)

-- The types of which values are described
mutual
  pub data Known : SynType → Type 0 where
    a_bool : Known (named (codes "bool"))
    a_string : Known (named (codes "String"))
    an_unsigned : {n : Text} → Unsigned n → Known (named n)
    a_signed : {n : Text} → Signed n → Known (named n)
    a_float : Known (named (codes "f64"))
    a_str : Known (reference_type false (named (codes "str")))
    an_option : {t : SynType} → Known t → Known (generic (codes "Option") t)
    a_vec : {t : SynType} → Known t → Known (generic (codes "Vec") t)
    a_result : {t u : SynType} → Known t → Known u → Known (generic₂ (codes "Result") t u)
    a_container : {n : Text} {t : SynType} → Container n → Known t → Known (generic n t)
    a_collection :
        {n : Text} {t : SynType} → Collection n → Compares t → Known t → Known (generic n t)
    an_array : {t : SynType} (len : TokenStream) → Copies t → Known t → Known (array_type t len)
    a_slice : {t : SynType} (m : Bool) → Known t → Known (reference_type m (slice_type t))
    a_mutable : {t : SynType} → Known t → Known (reference_type true t)
    a_tuple : {ts : SynTypes} → NotSingle ts → AllKnown ts → Known (tuple_type ts)

  pub data AllKnown : SynTypes → Type 0 where
    none_known : AllKnown no_type
    one_known : {t : SynType} {ts : SynTypes} → Known t → AllKnown ts → AllKnown (one_type t ts)

-- The expressions that have a type, where `error_exprs` are those of the error type that the user
-- gives
mutual
  pub data ValueOf (error_exprs : List TokenStream) : SynType → TokenStream → Type 0 where
    true_value : ValueOf error_exprs (named (codes "bool")) (word (codes "true"))
    false_value : ValueOf error_exprs (named (codes "bool")) (word (codes "false"))
    empty_string :
        ValueOf error_exprs (named (codes "String")) (assoc_call (codes "String") (codes "new") end)
    some_string : ValueOf error_exprs (named (codes "String")) (method xyzzy (codes "into"))
    zero_unsigned : {n : Text} → Unsigned n → ValueOf error_exprs (named n) (lit (codes "0"))
    one_unsigned : {n : Text} → Unsigned n → ValueOf error_exprs (named n) (lit (codes "1"))
    zero_signed : {n : Text} → Signed n → ValueOf error_exprs (named n) (lit (codes "0"))
    one_signed : {n : Text} → Signed n → ValueOf error_exprs (named n) (lit (codes "1"))
    minus_one : {n : Text} → Signed n → ValueOf error_exprs (named n) (minus (codes "1"))
    zero_float : ValueOf error_exprs (named (codes "f64")) (lit (codes "0.0"))
    one_float : ValueOf error_exprs (named (codes "f64")) (lit (codes "1.0"))
    minus_float : ValueOf error_exprs (named (codes "f64")) (minus (codes "1.0"))
    empty_str :
        ValueOf error_exprs (reference_type false (named (codes "str"))) (lit (codes "\"\""))
    some_str : ValueOf error_exprs (reference_type false (named (codes "str"))) xyzzy
    none_value :
        {t : SynType} → ValueOf error_exprs (generic (codes "Option") t) (word (codes "None"))
    some_value :
        {t : SynType} {v : TokenStream}
        → ValueOf error_exprs t v
        → ValueOf error_exprs (generic (codes "Option") t) (call (codes "Some") v)
    empty_vec : {t : SynType} → ValueOf error_exprs (generic (codes "Vec") t) (vec_of end)
    one_vec :
        {t : SynType} {v : TokenStream}
        → ValueOf error_exprs t v
        → ValueOf error_exprs (generic (codes "Vec") t) (vec_of v)
    ok_value :
        {t u : SynType} {v : TokenStream}
        → ValueOf error_exprs t v
        → ValueOf error_exprs (generic₂ (codes "Result") t u) (call (codes "Ok") v)
    err_value :
        {t u : SynType} {v : TokenStream}
        → ValueOf error_exprs u v
        → ValueOf error_exprs (generic₂ (codes "Result") t u) (call (codes "Err") v)
    err_given :
        {t u : SynType} {v : TokenStream}
        → Any (λ e. v ≡ e) error_exprs
        → ValueOf error_exprs (generic₂ (codes "Result") t u) (call (codes "Err") v)
    contained :
        {n : Text} {t : SynType} {v : TokenStream}
        → Container n
        → ValueOf error_exprs t v
        → ValueOf error_exprs (generic n t) (assoc_call n (codes "new") v)
    empty_collection :
        {n : Text} {t : SynType}
        → Collection n
        → ValueOf error_exprs (generic n t) (assoc_call n (codes "new") end)
    one_collected :
        {n : Text} {t : SynType} {v : TokenStream}
        → Collection n
        → Compares t
        → ValueOf error_exprs t v
        → ValueOf error_exprs (generic n t) (assoc_call n (codes "from_iter") (brackets v))
    repeated :
        {t : SynType} {v len : TokenStream}
        → Copies t
        → ValueOf error_exprs t v
        → ValueOf error_exprs (array_type t len) (brackets (v +++ (op b';' +++ len)))
    empty_slice :
        {t : SynType} {m : Bool}
        → ValueOf error_exprs
            (reference_type m (slice_type t))
            (leak_vec (assoc_call (codes "Vec") (codes "new") end))
    one_slice :
        {t : SynType} {m : Bool} {v : TokenStream}
        → ValueOf error_exprs t v
        → ValueOf error_exprs (reference_type m (slice_type t)) (leak_vec (vec_of v))
    leaked :
        {t : SynType} {v : TokenStream}
        → ValueOf error_exprs t v
        → ValueOf error_exprs (reference_type true t) (leak_box v)
    tuple_value :
        {ts : SynTypes} {vs : List TokenStream}
        → NotSingle ts
        → ValuesOf error_exprs ts vs
        → ValueOf error_exprs (tuple_type ts) (parens (separated vs))

  pub data ValuesOf (error_exprs : List TokenStream) : SynTypes → List TokenStream → Type 0 where
    no_value : ValuesOf error_exprs no_type []
    next_value :
        {t : SynType} {ts : SynTypes} {v : TokenStream} {vs : List TokenStream}
        → ValueOf error_exprs t v
        → ValuesOf error_exprs ts vs
        → ValuesOf error_exprs (one_type t ts) (v ∷ vs)
