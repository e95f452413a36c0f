-- ===== src/Pretty.antt =====
-- Token streams and their printed form: src/pretty.rs, over the data of `proc_macro2`.
mod Examples
use cargo_mutants.Prelude.Text.{Text, codes, text_eq}
use cargo_mutants.Prelude.{
  ℕ, Bool, true, false, not, ◌&&◌, ◌||◌, [], ◌∷◌, ◌++◌, ◌==◌, if◌then◌else◌,
}

-- `proc_macro2::Delimiter`
pub data Delimiter : Type 0 where
  brace bracket parenthesis no_delimiter : Delimiter

-- `TokenTree` and `TokenStream`; a literal is its text. The spacing of a punctuation character is
-- not read by anything here.
mutual
  pub data TokenTree : Type 0 where
    ident literal : Text → TokenTree
    punct : ℕ → TokenTree
    group : Delimiter → TokenStream → TokenTree

  pub data TokenStream : Type 0 where
    end : TokenStream
    next : TokenTree → TokenStream → TokenStream

-- The characters around a group
abbrev pub opening : Delimiter → Text
opening brace = codes "{"
opening bracket = codes "["
opening parenthesis = codes "("
opening no_delimiter = []

abbrev pub closing : Delimiter → Text
closing brace = codes "}"
closing bracket = codes "]"
closing parenthesis = codes ")"
closing no_delimiter = []

-- `str::ends_with` a character, and a text
abbrev pub ends_with_char : Text → ℕ → Bool
ends_with_char [] c = false
ends_with_char (d ∷ []) c = d == c
ends_with_char (d ∷ e ∷ s) c = ends_with_char (e ∷ s) c

abbrev pub ends_with : Text → Text → Bool
ends_with [] suffix = text_eq [] suffix
ends_with (c ∷ s) suffix = text_eq (c ∷ s) suffix || ends_with s suffix

abbrev pub is_end : TokenStream → Bool
is_end end = true
is_end (next t ts) = false

-- What `write_pretty` writes before a punctuation character, where `emitted` is written
unfoldable pub before_punct : ℕ → Text → Text
before_punct c emitted =
    if c == b'|'
      && (not (text_eq emitted [])
          && (not (ends_with_char emitted b' ') && not (ends_with_char emitted b'|')))
    then codes " "
    else []

-- What it writes after one, where `emitted` includes that character and `ts` follows
unfoldable pub after_punct : ℕ → Text → TokenStream → Text
after_punct c emitted ts =
    if not (is_end ts) && (ends_with emitted (codes "->") || (c == b',' || c == b';'))
    then codes " "
    else []

-- What it writes before and after an identifier or a literal
unfoldable pub before_word : Text → Text
before_word emitted =
    if ends_with_char emitted b'='
      || (ends_with emitted (codes "=>") || ends_with_char emitted b'|')
    then codes " "
    else []

abbrev pub sticks : ℕ → Bool
sticks c =
    c == b','
    || (c == b';' || (c == b'<' || (c == b'>' || (c == b':' || (c == b'.' || c == b'!')))))

unfoldable pub after_word : TokenStream → Text
after_word end = []
after_word (next (ident i) ts) = codes " "
after_word (next (literal l) ts) = codes " "
after_word (next (punct c) ts) = if sticks c then [] else codes " "
after_word (next (group d g) ts) = []

abbrev pub with_punct : ℕ → Text → Text
with_punct c emitted = emitted ++ (before_punct c emitted ++ c ∷ [])

-- `write_pretty`: the text for a stream whose first tokens have given `emitted`
unfoldable mutual
  unfolding before_punct after_punct before_word after_word

  pub write_token : TokenTree → Text → TokenStream → Text
  write_token (punct c) emitted ts = with_punct c emitted ++ after_punct c (with_punct c emitted) ts
  write_token (ident i) emitted ts = emitted ++ (before_word emitted ++ (i ++ after_word ts))
  write_token (literal l) emitted ts = emitted ++ (before_word emitted ++ (l ++ after_word ts))
  write_token (group d g) emitted ts = emitted ++ (opening d ++ (write_pretty g [] ++ closing d))

  pub write_pretty : TokenStream → Text → Text
  write_pretty end emitted = emitted
  write_pretty (next t ts) emitted = write_pretty ts (write_token t emitted ts)

-- `to_pretty_string`
unfoldable pub to_pretty_string : TokenStream → Text
unfolding write_pretty
to_pretty_string ts = write_pretty ts []
