-- ===== src/Process/Quote.antt =====
-- Quoting an argument for the log loses nothing.
use mathlib.Core.Option
use cargo_mutants.Prelude.Text.{Text}
use cargo_mutants.Prelude.{
  ℕ, ◌≡◌, refl, ap, ◌∙◌, inl, inr, Bool, true, false, ◌||◌, Option, none, some, [], ◌∷◌, ◌++◌, ◌==◌,
  if◌then◌else◌, ==→eq, Bool-cases,
}
use cargo_mutants.Process.{quote_char, quote_arg, backslash}

-- What a backslash makes of the next character
abbrev unescape : ℕ → ℕ
unescape c =
    if c == b't' then b'\t' else if c == b'n' then b'\n' else if c == b'r' then b'\r' else c

-- The characters that end a word, or start a quoted part of it, unless a backslash is before them
abbrev is_special : ℕ → Bool
is_special c = c == b' ' || c == b'\t' || c == b'\n' || c == b'\r' || c == 39 || c == b'"'

-- Reads one word of a command line; the flag says that a backslash came before. A text with a special
-- character that has no backslash, or with a backslash at its end, is not one word.
pub unquote : Bool → Text → Option Text
unquote true [] = none
unquote false [] = some []
unquote true (c ∷ s) = Option.map (λ t. unescape c ∷ t) (unquote false s)
unquote false (c ∷ s) =
    let escape = unquote true s in
    let plain = Option.map (λ t. c ∷ t) (unquote false s) in
    if c == backslash then escape else if is_special c then none else plain

unquote-quote_char :
    (c : ℕ) (s : Text)
    → unquote false (quote_char c ++ s) ≡ Option.map (λ t. c ∷ t) (unquote false s)
unfolding unquote quote_char
unquote-quote_char c s = elim (Bool-cases (c == b'\t')) [
  | inl e ↦ rw (==→eq c b'\t' e) refl
  | inr tab ↦ elim (Bool-cases (c == b'\n')) [
    | inl e ↦ rw (==→eq c b'\n' e) refl
    | inr lf ↦ elim (Bool-cases (c == b'\r')) [
      | inl e ↦ rw (==→eq c b'\r' e) refl
      | inr cr ↦ elim (Bool-cases (c == b' ')) [
        | inl e ↦ rw (==→eq c b' ' e) refl
        | inr space ↦ elim (Bool-cases (c == backslash)) [
          | inl e ↦ rw (==→eq c backslash e) refl
          | inr slash ↦ elim (Bool-cases (c == 39)) [
            | inl e ↦ rw (==→eq c 39 e) refl
            | inr quote ↦ elim (Bool-cases (c == b'"')) [
              | inl e ↦ rw (==→eq c b'"' e) refl
              | inr double ↦
                  rw (tab, lf, cr, space, slash, quote, double)
                    (rw (tab, lf, cr, space, slash, quote, double) refl)
            ]
          ]
        ]
      ]
    ]
  ]
]

-- The quoted form of an argument is one word, without a space, a tab, a line end or a quote that is not
-- escaped, and reads back as the argument.
pub unquote-quote_arg : (s : Text) → unquote false (quote_arg s) ≡ some s
unquote-quote_arg [] = (unfold unquote in refl)
unquote-quote_arg (c ∷ s) =
    unquote-quote_char c (quote_arg s) ∙ ap (Option.map (λ t. c ∷ t)) (unquote-quote_arg s)
