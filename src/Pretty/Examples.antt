-- ===== src/Pretty/Examples.antt =====
-- Tests of the printing of tokens, from those of src/pretty.rs.
use cargo_mutants.Prelude.Text.{Text, codes}
use cargo_mutants.Prelude.{◌≡◌, refl}
use cargo_mutants.Pretty.{
  ident, punct, group, parenthesis, TokenStream, end, next, to_pretty_string,
}

abbrev word : Text → TokenStream → TokenStream
word s ts = next (ident s) ts

boolean_or :
    to_pretty_string
      (word (codes "fair") (next (punct b'|') (next (punct b'|') (word (codes "foul") end))))
    ≡ codes "fair || foul"
unfolding to_pretty_string
boolean_or = refl

thick_arrow :
    to_pretty_string
      (word (codes "a") (next (punct b'=') (next (punct b'>') (word (codes "b") end))))
    ≡ codes "a => b"
unfolding to_pretty_string
thick_arrow = refl

nested_call :
    to_pretty_string (word (codes "Ok") (next (group parenthesis (word (codes "true") end)) end))
    ≡ codes "Ok(true)"
unfolding to_pretty_string
nested_call = refl
