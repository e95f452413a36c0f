-- ===== src/Mutant/Name.antt =====
-- Naming a mutant never panics, for the mutants that the visitor builds.
use cargo_mutants.Prelude.Text.{Text, codes, show_usize}
use cargo_mutants.Prelude.{◌≡◌, refl, subst, sym, ap, ◌≢◌, false, Option, none, some, List, ◌++◌}
use cargo_mutants.Prelude.Maybe.{◌>>=◌}
use cargo_mutants.Span.{extract_indexed}
use cargo_mutants.Span.Replace.{cut, extract_cut}
use cargo_mutants.Source.Load.{IsLoaded}
use cargo_mutants.Mutant.{
  Genre, fn_value, match_arm, struct_field, Mutant, Part, original_text, describe_genre,
  describe_parts, describe_change, full_name, name, colon, concat_parts,
}

-- What the description of each genre takes for granted
abbrev pub HasParts : Genre → Mutant → Type 0
HasParts fn_value m = m.function ≢ none
HasParts match_arm m = m.short_replaced ≢ none
HasParts _ m = Unit

original_text-total :
    (m : Mutant) → IsLoaded m.source_file → (t : Text) × (original_text m ≡ some t)
unfolding original_text
original_text-total m loaded =
    let c = cut m.span m.source_file.code in
    (
      c.covered,
      subst (λ i. extract_indexed m.span m.source_file.code i ≡ some c.covered) (sym loaded.index)
          (extract_cut m.span m.source_file.code c),
    )

present {ℓ} : {A : Type ℓ} (o : Option A) → o ≢ none → (a : A) × (o ≡ some a)
present none h = absurd (h refl)
present (some a) h = (a, refl)

map_total {ℓ κ} :
    {A : Type ℓ} {B : Type κ} (o : Option A) (f : A → B)
    → (a : A) × (o ≡ some a)
    → (b : B) × ((o >>= λ a. some (f a)) ≡ some b)
map_total o f (a, e) = (f a, ap (λ o. o >>= λ a. some (f a)) e)

describe_genre-total :
    (g : Genre) (m : Mutant)
    → IsLoaded m.source_file
    → HasParts g m
    → (parts : List Part) × (describe_genre g m ≡ some parts)
unfolding describe_genre
describe_genre-total fn_value m loaded h = map_total m.function _ (present m.function h)
describe_genre-total match_arm m loaded h =
    map_total m.short_replaced _ (present m.short_replaced h)
describe_genre-total struct_field m loaded h = (_, refl)
describe_genre-total _ m loaded h = map_total (original_text m) _ (original_text-total m loaded)

describe_change-total :
    (m : Mutant)
    → IsLoaded m.source_file
    → HasParts m.genre m
    → (d : Text) × (describe_change m ≡ some d)
unfolding describe_change describe_parts
describe_change-total m loaded h =
    map_total _ concat_parts
      (map_total (describe_genre m.genre m) _ (describe_genre-total m.genre m loaded h))

-- A mutant of a loaded file that has what its genre's description needs has a name, with the file and
-- the position before the description, and a short name with the same description.
pub full_name-total :
    (m : Mutant)
    → IsLoaded m.source_file
    → HasParts m.genre m
    → (d : Text) × (describe_change m ≡ some d)
      × (full_name m
          ≡ some (
              m.source_file.slash_path
              ++ (colon
                  ++ (show_usize m.span.start.line
                      ++ (colon ++ (show_usize m.span.start.column ++ (codes ": " ++ d)))))))
      × (name m false ≡ some (m.source_file.slash_path ++ (codes ": " ++ d)))
unfolding full_name name
full_name-total m loaded h = let (d, e) = describe_change-total m loaded h in (d, e, rw e, rw e)
