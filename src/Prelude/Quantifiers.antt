-- ===== src/Prelude/Quantifiers.antt =====
-- Lemmas on the predicates `All` and `Any` of lists.
use mathlib.Core.Path.{◌≡◌, refl, subst, sym}
use mathlib.Core.Logic.{inl, inr}
use mathlib.Core.List.{List, [], ◌∷◌, ◌++◌, map}
use cargo_mutants.Prelude.Lists.{All, Any}

pub All-map :
    {A B : Type 0} (P : A → Type 0) (Q : B → Type 0) (f : A → B)
    → ((t : A) → P t → Q (f t))
    → (ts : List A) → All P ts
    → All Q (map f ts)
All-map P Q f g [] h = tt
All-map P Q f g (t ∷ ts) (p, h) = (g t p, All-map P Q f g ts h)

pub All-weaken :
    {A : Type 0} (P Q : A → Type 0) → ((t : A) → P t → Q t) → (ts : List A) → All P ts → All Q ts
All-weaken P Q g [] h = tt
All-weaken P Q g (t ∷ ts) (p, h) = (g t p, All-weaken P Q g ts h)

module _ {A : Type 0} (P : A → Type 0) where
  pub All-append : (ts us : List A) → All P ts → All P us → All P (ts ++ us)
  All-append [] us h k = k
  All-append (t ∷ ts) us (p, h) k = (p, All-append ts us h k)

  pub All-pick : (ts : List A) (t : A) → All P ts → Any (λ u. t ≡ u) ts → P t
  All-pick [] t h a = elim a [ ]
  All-pick (u ∷ ts) t (p, h) (inl e) = subst P (sym e) p
  All-pick (u ∷ ts) t (p, h) (inr k) = All-pick ts t h k

  pub All-picked : (ts us : List A) → All P ts → All (λ t. Any (λ u. t ≡ u) ts) us → All P us
  All-picked ts [] h k = tt
  All-picked ts (u ∷ us) h (k, ks) = (All-pick ts u h k, All-picked ts us h ks)

pub All-self : {A : Type 0} (ts : List A) → All (λ t. Any (λ u. t ≡ u) ts) ts
All-self [] = tt
All-self (t ∷ ts) = (inl refl, All-weaken _ _ (λ u a. inr a) ts (All-self ts))
