-- ===== src/FnValue/Paths.antt =====
-- The tests of src/fnvalue.rs on paths and their arguments. They are generic in what stands for a
-- type argument: `R` is the argument with its replacements.
use cargo_mutants.Prelude.Text.{Text, codes, text_eq}
use cargo_mutants.Prelude.{
  ℕ, Bool, true, false, not, ◌&&◌, ◌||◌, Option, none, some, List, [], ◌∷◌, if◌then◌else◌,
  get_elem?,
}
use cargo_mutants.Prelude.Maybe.{◌>>=◌}
use cargo_mutants.FnValue.{
  EnumIndex, find_enum, Segments, no_segment, segment, no_arguments, parenthesized, angle_bracketed,
}

-- What is known of a generic argument
pub data Arg (R : Type 0) : Type 0 where
  type_arg : R → Arg R
  assoc_arg : Text → R → Arg R
  lifetime_arg other_arg : Arg R

-- The arguments of a segment, where it has any in angle brackets
pub record LastSegment (R : Type 0) : Type 0 where
  pub ident : Text
  pub angle_args : Option (List (Arg R))

-- What is read of a path without its arguments: its leading colon, its names, and whether its last
-- segment has no arguments
pub record PathHead : Type 0 where
  pub leading_colon : Bool
  pub idents : List Text
  pub bare : Bool

abbrev pub idents_of : Segments → List Text
idents_of no_segment = []
idents_of (segment name args segments) = name ∷ idents_of segments

abbrev pub last_bare : Segments → Bool
last_bare no_segment = true
last_bare (segment name no_arguments no_segment) = true
last_bare (segment name parenthesized no_segment) = false
last_bare (segment name (angle_bracketed args) no_segment) = false
last_bare (segment name args (segment n a s)) = last_bare (segment n a s)

abbrev pub head_of : Bool → Segments → PathHead
head_of colon segments = record {
  leading_colon = colon;
  idents = idents_of segments;
  bare = last_bare segments;
}

-- What is read of a path
pub record PathView (R : Type 0) : Type 0 where
  pub head : PathHead
  pub last : Option (LastSegment R)

abbrev pub any_eq : List Text → Text → Bool
any_eq [] s = false
any_eq (t ∷ ts) s = text_eq s t || any_eq ts s

-- The tests that ask for a whole name, over `Path::is_ident`
module _ (is_ident : PathHead → Text → Bool) where
  unfoldable pub is_ident_in : PathHead → List Text → Bool
  is_ident_in path [] = false
  is_ident_in path (name ∷ names) = is_ident path name || is_ident_in path names

  -- `path_is_float`, `path_is_unsigned` and `path_is_signed`
  unfoldable pub path_is_float : PathHead → Bool
  unfolding is_ident_in
  path_is_float path = is_ident_in path (codes "f32" ∷ codes "f64" ∷ [])

  unfoldable pub path_is_unsigned : PathHead → Bool
  unfolding is_ident_in
  path_is_unsigned path =
      is_ident_in path
        (codes "u8" ∷ codes "u16" ∷ codes "u32" ∷ codes "u64" ∷ codes "u128" ∷ codes "usize" ∷ [])

  unfoldable pub path_is_signed : PathHead → Bool
  unfolding is_ident_in
  path_is_signed path =
      is_ident_in path
        (codes "i8" ∷ codes "i16" ∷ codes "i32" ∷ codes "i64" ∷ codes "i128" ∷ codes "isize" ∷ [])

module _ {R : Type 0} where
  abbrev pub last_is : (LastSegment R → Bool) → Option (LastSegment R) → Bool
  last_is f none = false
  last_is f (some l) = f l

  -- `path_ends_with`
  unfoldable pub path_ends_with : PathView R → Text → Bool
  path_ends_with path name = last_is (λ l. text_eq l.ident name) path.last

  -- `path_ident_in`
  unfoldable pub path_ident_in : PathView R → List Text → Option Text
  path_ident_in path names = path.last >>= λ l. if any_eq names l.ident then some l.ident else none

  -- `path_is_nonzero_signed` and `path_is_nonzero_unsigned`
  unfoldable pub path_is_nonzero_signed : PathView R → Bool
  path_is_nonzero_signed path =
      last_is
        (λ l.
          any_eq
            (codes "NonZeroIsize"
              ∷ codes "NonZeroI8"
              ∷ codes "NonZeroI16"
              ∷ codes "NonZeroI32"
              ∷ codes "NonZeroI64"
              ∷ codes "NonZeroI128"
              ∷ [])
            l.ident)
        path.last

  unfoldable pub path_is_nonzero_unsigned : PathView R → Bool
  path_is_nonzero_unsigned path =
      last_is
        (λ l.
          any_eq
            (codes "NonZeroUsize"
              ∷ codes "NonZeroU8"
              ∷ codes "NonZeroU16"
              ∷ codes "NonZeroU32"
              ∷ codes "NonZeroU64"
              ∷ codes "NonZeroU128"
              ∷ [])
            l.ident)
        path.last

  -- `path_is_cmp_ordering`
  unfoldable pub path_is_cmp_ordering : PathView R → Bool
  unfolding path_ends_with
  path_is_cmp_ordering path =
      path_ends_with path (codes "Ordering") && not (any_eq path.head.idents (codes "atomic"))

  -- The loop of `match_first_type_arg`
  unfoldable pub first_type_arg : List (Arg R) → Option R
  first_type_arg [] = none
  first_type_arg (type_arg r ∷ args) = some r
  first_type_arg (lifetime_arg ∷ args) = first_type_arg args
  first_type_arg (assoc_arg name r ∷ args) = none
  first_type_arg (other_arg ∷ args) = none

  -- The arguments in angle brackets of a last segment that passes a test
  unfoldable pub args_where : (Text → Bool) → PathView R → Option (Text × List (Arg R))
  args_where f path = do
    l ← path.last
    args ← if f l.ident then l.angle_args else none
    some (l.ident, args)

  -- `match_first_type_arg`
  unfoldable pub match_first_type_arg : PathView R → Text → Option R
  match_first_type_arg path name =
      args_where (λ i. text_eq i name) path >>= λ found. first_type_arg found.1

  -- The type arguments, of any index
  unfoldable pub type_args : List (Arg R) → List R
  type_args [] = []
  type_args (type_arg r ∷ args) = r ∷ type_args args
  type_args (assoc_arg name r ∷ args) = type_args args
  type_args (lifetime_arg ∷ args) = type_args args
  type_args (other_arg ∷ args) = type_args args

  -- `match_nth_type_arg`
  unfoldable pub match_nth_type_arg : PathView R → Text → ℕ → Option R
  match_nth_type_arg path name index =
      args_where (λ i. text_eq i name) path >>= λ found. get_elem? (type_args found.1) index

  -- One argument, which is a type
  abbrev pub only_type : List (Arg R) → Option R
  only_type (type_arg r ∷ []) = some r
  only_type _ = none

  -- Two arguments, which are types
  abbrev pub two_types : List (Arg R) → Option (R × R)
  two_types (type_arg k ∷ type_arg v ∷ []) = some (k, v)
  two_types _ = none

  abbrev pub single : List R → Option R
  single (r ∷ []) = some r
  single _ = none

  -- `known_container` and `known_collection`
  unfoldable pub known_container : PathView R → Option (Text × R)
  known_container path = do
    found ←
        args_where
          (any_eq (
            codes "Box"
            ∷ codes "Cell"
            ∷ codes "RefCell"
            ∷ codes "Arc"
            ∷ codes "Rc"
            ∷ codes "Mutex"
            ∷ []))
          path
    r ← only_type found.1
    some (found.0, r)

  unfoldable pub known_collection : PathView R → Option (Text × R)
  known_collection path = do
    found ←
        args_where
          (any_eq (
            codes "BinaryHeap"
            ∷ codes "BTreeSet"
            ∷ codes "HashSet"
            ∷ codes "LinkedList"
            ∷ codes "VecDeque"
            ∷ []))
          path
    r ← only_type found.1
    some (found.0, r)

  -- `known_map`
  unfoldable pub known_map : PathView R → Option (Text × R × R)
  known_map path = do
    found ← args_where (any_eq (codes "BTreeMap" ∷ codes "HashMap" ∷ [])) path
    kv ← two_types found.1
    some (found.0, kv.0, kv.1)

  -- `maybe_collection_or_container`
  unfoldable pub maybe_collection_or_container : PathView R → Option (Text × R)
  maybe_collection_or_container path = do
    found ← args_where (λ i. true) path
    r ← single (type_args found.1)
    some (found.0, r)

  -- `EnumIndex::unit_variants`
  unfoldable pub unit_variants : EnumIndex → PathView R → Option (Text × List Text)
  unit_variants enums path = do
    l ← path.last
    variants ← find_enum l.ident enums
    some (l.ident, variants)
