-- ===== src/FnValue/Quote.antt =====
-- The token streams that `quote!` builds.
use cargo_mutants.Prelude.Text.{Text, codes}
use cargo_mutants.Prelude.{ℕ, List, [], ◌∷◌}
use cargo_mutants.Pretty.{
  parenthesis, bracket, ident, literal, punct, group, TokenStream, end, next,
}

-- One stream after another
infixr 66 ◌+++◌
abbrev pub ◌+++◌ : TokenStream → TokenStream → TokenStream
end +++ us = us
(next t ts) +++ us = next t (ts +++ us)

abbrev pub word : Text → TokenStream
word s = next (ident s) end

abbrev pub lit : Text → TokenStream
lit s = next (literal s) end

abbrev pub op : ℕ → TokenStream
op c = next (punct c) end

abbrev pub parens : TokenStream → TokenStream
parens ts = next (group parenthesis ts) end

abbrev pub brackets : TokenStream → TokenStream
brackets ts = next (group bracket ts) end

abbrev pub path_sep : TokenStream
path_sep = op b':' +++ op b':'

-- `#ty::#name`
abbrev pub member : Text → Text → TokenStream
member ty name = word ty +++ (path_sep +++ word name)

-- `#f(#arg)` for a name `f`, and for an associated function
abbrev pub call : Text → TokenStream → TokenStream
call f arg = word f +++ parens arg

abbrev pub assoc_call : Text → Text → TokenStream → TokenStream
assoc_call ty name arg = member ty name +++ parens arg

-- `#receiver.#name()`
abbrev pub method : TokenStream → Text → TokenStream
method receiver name = receiver +++ (op b'.' +++ (word name +++ parens end))

-- The literal "xyzzy"
abbrev pub xyzzy : TokenStream
xyzzy = lit (codes "\"xyzzy\"")

-- `#( #reps ),*`
abbrev pub separated : List TokenStream → TokenStream
separated [] = end
separated (t ∷ []) = t
separated (t ∷ u ∷ ts) = t +++ (op b',' +++ separated (u ∷ ts))
