-- ===== src/FnValue/Chain.antt =====
-- The replacements for a type that is a path: the arm `Type::Path` of `type_replacements` in
-- src/fnvalue.rs, an if-chain, in three parts. A part gives nothing where none of its conditions
-- holds.
use mathlib.Core.Option
use cargo_mutants.Prelude.Text.{Text, codes}
use cargo_mutants.Prelude.{
  Bool, false, ◌||◌, Option, none, some, List, [], ◌∷◌, ◌++◌, map, if◌then◌else◌,
}
use cargo_mutants.Pretty.{TokenStream, end, to_pretty_string}
use cargo_mutants.FnValue.{SynType, path_type, reference_type, EnumIndex}
use cargo_mutants.FnValue.Quote.{
  ◌+++◌, word, lit, op, parens, brackets, member, call, assoc_call, method, xyzzy,
}
use cargo_mutants.FnValue.Paths.{
  PathHead, PathView, path_ends_with, path_ident_in, path_is_float, path_is_unsigned,
  path_is_signed, path_is_nonzero_signed, path_is_nonzero_unsigned, path_is_cmp_ordering,
  match_first_type_arg, match_nth_type_arg, known_container, known_collection, known_map,
  maybe_collection_or_container, unit_variants, head_of,
}

-- What is known of a type argument: the type and its own replacements
abbrev pub Inner : Type 0
Inner = SynType × List TokenStream

-- The methods of `itertools` that the code calls
pub record Itertools : Type 0 where
  pub unique_by : (TokenStream → Text) → List TokenStream → List TokenStream
  pub cartesian_product : List TokenStream → List TokenStream → List (TokenStream × TokenStream)
  pub multi_cartesian_product : List (List TokenStream) → List (List TokenStream)

abbrev pub first_some : List (Option (List TokenStream)) → Option (List TokenStream)
first_some [] = none
first_some (none ∷ os) = first_some os
first_some (some reps ∷ os) = some reps

-- `if c { reps }`
abbrev pub when : Bool → List TokenStream → Option (List TokenStream)
when c reps = if c then some reps else none

abbrev pub flat_map : (TokenStream → List TokenStream) → List TokenStream → List TokenStream
flat_map f [] = []
flat_map f (t ∷ ts) = f t ++ flat_map f ts

abbrev pub new_xyzzy : Text → List TokenStream
new_xyzzy ty = assoc_call ty (codes "new") end ∷ assoc_call ty (codes "from") xyzzy ∷ []

abbrev pub minus : Text → TokenStream
minus number = op b'-' +++ lit number

-- `1.try_into().unwrap()` and `(-1).try_into().unwrap()`
abbrev pub try_unwrap : TokenStream → TokenStream
try_unwrap t = method (method t (codes "try_into")) (codes "unwrap")

abbrev pub positive : TokenStream
positive = try_unwrap (lit (codes "1"))

abbrev pub negative : TokenStream
negative = try_unwrap (parens (minus (codes "1")))

abbrev pub default_value : TokenStream
default_value = assoc_call (codes "Default") (codes "default") end

-- `vec![#t]`
abbrev pub vec_of : TokenStream → TokenStream
vec_of t = word (codes "vec") +++ (op b'!' +++ brackets t)

abbrev pub ordering : Text → TokenStream
ordering name = member (codes "Ordering") name

module _ (is_ident : PathHead → Text → Bool) where
  abbrev pub inner_is_unsigned : SynType → Bool
  inner_is_unsigned (path_type colon segments) = path_is_unsigned is_ident (head_of colon segments)
  inner_is_unsigned _ = false

  -- `is_simply_constructible`
  unfoldable pub is_simply_constructible : SynType → Bool
  unfolding path_is_unsigned path_is_signed path_is_float
  is_simply_constructible (path_type colon segments) =
      let path = head_of colon segments in
      is_ident path (codes "bool")
      || (is_ident path (codes "String")
          || (is_ident path (codes "str")
              || (is_ident path (codes "char")
                  || (path_is_unsigned is_ident path
                      || (path_is_signed is_ident path || path_is_float is_ident path)))))
  is_simply_constructible (reference_type m (path_type colon segments)) =
      is_ident (head_of colon segments) (codes "str")
  is_simply_constructible _ = false

  -- From `bool` to `cmp::Ordering`
  unfoldable pub scalar_replacements : PathView Inner → Option (List TokenStream)
  unfolding path_ends_with path_ident_in path_is_float path_is_unsigned path_is_signed
      path_is_nonzero_signed path_is_nonzero_unsigned path_is_cmp_ordering match_first_type_arg
  scalar_replacements path = first_some (
      when (is_ident path.head (codes "bool")) (word (codes "true") ∷ word (codes "false") ∷ [])
      ∷ when (is_ident path.head (codes "String"))
          (assoc_call (codes "String") (codes "new") end ∷ method xyzzy (codes "into") ∷ [])
      ∷ when (is_ident path.head (codes "str")) (lit (codes "\"\"") ∷ xyzzy ∷ [])
      ∷ when (is_ident path.head (codes "char")) (lit (codes "'\\0'") ∷ lit (codes "'x'") ∷ [])
      ∷ Option.map new_xyzzy (path_ident_in path (codes "PathBuf" ∷ codes "Utf8PathBuf" ∷ []))
      ∷ when (path_ends_with path (codes "OsString")) (new_xyzzy (codes "OsString"))
      ∷ when (path_ends_with path (codes "Duration")) (
          member (codes "Duration") (codes "ZERO")
          ∷ assoc_call (codes "Duration") (codes "from_secs") (lit (codes "1"))
          ∷ [])
      ∷ when (path_is_unsigned is_ident path.head) (lit (codes "0") ∷ lit (codes "1") ∷ [])
      ∷ when (path_is_signed is_ident path.head)
          (lit (codes "0") ∷ lit (codes "1") ∷ minus (codes "1") ∷ [])
      ∷ when (path_is_nonzero_signed path) (positive ∷ negative ∷ [])
      ∷ when (path_is_nonzero_unsigned path) (positive ∷ [])
      ∷ Option.map
          (λ inner. if inner_is_unsigned inner.0 then positive ∷ [] else positive ∷ negative ∷ [])
          (match_first_type_arg path (codes "NonZero"))
      ∷ when (path_is_float is_ident path.head)
          (lit (codes "0.0") ∷ lit (codes "1.0") ∷ minus (codes "1.0") ∷ [])
      ∷ when (path_is_cmp_ordering path)
          (ordering (codes "Less") ∷ ordering (codes "Equal") ∷ ordering (codes "Greater") ∷ [])
      ∷ [])

  -- The values of a `Result` type: `Ok`, then `Err` of the configured errors, then of the error type
  unfoldable pub ok_replacements : PathView Inner → List TokenStream
  unfolding match_first_type_arg
  ok_replacements path = elim (match_first_type_arg path (codes "Result")) [
    | some inner ↦ map (call (codes "Ok")) inner.1
    | none ↦ call (codes "Ok") default_value ∷ []
  ]

  unfoldable pub recursed_errs : PathView Inner → List TokenStream
  unfolding match_nth_type_arg is_simply_constructible
  recursed_errs path = elim (match_nth_type_arg path (codes "Result") 1) [
    | some inner ↦
        (if is_simply_constructible inner.0 then map (call (codes "Err")) inner.1 else [])
    | none ↦ []
  ]

  module _ (itertools : Itertools) (error_exprs : List TokenStream) where
    unfoldable pub result_replacements : PathView Inner → List TokenStream
    unfolding ok_replacements recursed_errs to_pretty_string
    result_replacements path =
        itertools.unique_by to_pretty_string
          (ok_replacements path ++ (map (call (codes "Err")) error_exprs ++ recursed_errs path))

    -- From `Result` to `Range`
    unfoldable pub wrapper_replacements : PathView Inner → Option (List TokenStream)
    unfolding path_ends_with path_ident_in match_first_type_arg result_replacements
    wrapper_replacements path = first_some (
        when (path_ends_with path (codes "Result")) (result_replacements path)
        ∷ when (path_ends_with path (codes "HttpResponse"))
            (method (assoc_call (codes "HttpResponse") (codes "Ok") end) (codes "finish") ∷ [])
        ∷ Option.map (λ inner. word (codes "None") ∷ map (call (codes "Some")) inner.1)
            (match_first_type_arg path (codes "Option"))
        ∷ Option.map (λ inner. vec_of end ∷ map vec_of inner.1)
            (match_first_type_arg path (codes "Vec"))
        ∷ Option.map
            (λ inner.
              flat_map
                (λ rep.
                  assoc_call (codes "Cow") (codes "Borrowed") rep
                  ∷ assoc_call (codes "Cow") (codes "Owned") (method rep (codes "to_owned"))
                  ∷ [])
                inner.1)
            (match_first_type_arg path (codes "Cow"))
        ∷ Option.map (λ i. []) (path_ident_in path (codes "Pin" ∷ codes "NonNull" ∷ []))
        ∷ Option.map (λ i. []) (path_ident_in path (codes "Instant" ∷ codes "SystemTime" ∷ []))
        ∷ Option.map (λ i. default_value ∷ []) (path_ident_in path (codes "Range" ∷ []))
        ∷ [])

    -- From the known containers to the enums of the file
    unfoldable pub container_replacements : EnumIndex → PathView Inner → Option (List TokenStream)
    unfolding known_container known_collection known_map maybe_collection_or_container unit_variants
    container_replacements enums path = first_some (
        Option.map (λ found. map (assoc_call found.0 (codes "new")) found.1.1)
          (known_container path)
        ∷ Option.map
            (λ found.
              assoc_call found.0 (codes "new") end
              ∷ map (λ rep. assoc_call found.0 (codes "from_iter") (brackets rep)) found.1.1)
            (known_collection path)
        ∷ Option.map
            (λ found.
              assoc_call found.0 (codes "new") end
              ∷ map
                  (λ kv.
                    assoc_call found.0 (codes "from_iter")
                      (brackets (parens (kv.0 +++ (op b',' +++ kv.1)))))
                  (itertools.cartesian_product found.1.1 found.2.1))
            (known_map path)
        ∷ Option.map
            (λ found.
              assoc_call found.0 (codes "new") end
              ∷ flat_map
                  (λ rep.
                    assoc_call found.0 (codes "from_iter") (brackets rep)
                    ∷ assoc_call found.0 (codes "new") rep
                    ∷ assoc_call found.0 (codes "from") rep
                    ∷ [])
                  found.1.1)
            (maybe_collection_or_container path)
        ∷ Option.map (λ found. map (member found.0) found.1) (unit_variants enums path)
        ∷ [])

    unfoldable pub path_replacements : EnumIndex → PathView Inner → List TokenStream
    unfolding scalar_replacements wrapper_replacements container_replacements
    path_replacements enums path =
        elim (first_some (
          scalar_replacements path
          ∷ wrapper_replacements path
          ∷ container_replacements enums path
          ∷ [])) [ some reps ↦ reps | none ↦ default_value ∷ [] ]
