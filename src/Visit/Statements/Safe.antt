-- ===== src/Visit/Statements/Safe.antt =====
-- Which statements are deleted.
use cargo_mutants.Prelude.Text.{Text, text_eq, text_eq_refl, text_eq→eq}
use cargo_mutants.Prelude.{
  ◌≡◌, refl, subst, sym, ap, ◌∙◌, inl, inr, Bool, true, false, not, ◌&&◌, false≢true, Option, none,
  some, List, [], ◌∷◌, if◌then◌else◌, Bool-cases, Option-cases, get_last?, Any,
}
use cargo_mutants.Span.{Span}
use cargo_mutants.Visit.Statements.{
  Expr, path, field, index, deref, paren, assign, method_call, call, Stmt, local, expr_stmt,
  other_stmt, untyped_local_idents, root_ident, is_deletable_statement, is_skipped_call,
  deleted_statements, visit_block, any_text,
}

-- The place that an expression names is in the variable
pub data RootedAt (name : Text) : Expr → Type 0 where
  at_path : RootedAt name (path (some name))
  through_field : {e : Expr} → RootedAt name e → RootedAt name (field e)
  through_index : {e : Expr} → RootedAt name e → RootedAt name (index e)
  through_deref : {e : Expr} → RootedAt name e → RootedAt name (deref e)
  through_paren : {e : Expr} → RootedAt name e → RootedAt name (paren e)

-- The names of variables that the block declares without a type
abbrev pub IsUntyped : List Stmt → Text → Type 0
IsUntyped block name = Any (λ s. s ≡ local (some name)) block

-- The place is in none of those variables
abbrev pub IsTyped : List Stmt → Expr → Type 0
IsTyped block e = (name : Text) → RootedAt name e → ¬ (IsUntyped block name)

-- Without a call, or an assignment, that may be deleted the types of the variables are the same
pub data KeepsTypes (block : List Stmt) : Expr → Type 0 where
  a_call : {names : Option (List Text)} → KeepsTypes block (call names)
  a_method :
      {receiver : Expr} {method : Text}
      → IsTyped block receiver
      → KeepsTypes block (method_call receiver method)
  an_assignment : {left : Expr} → IsTyped block left → KeepsTypes block (assign left)

-- A call of a function, by the last name of its path, or of a method that is to be skipped
pub data Skips (skip_calls : List Text) : Expr → Type 0 where
  function_skipped :
      {names : List Text} {name : Text}
      → get_last? names ≡ some name
      → Any (λ s. s ≡ name) skip_calls
      → Skips skip_calls (call (some names))
  method_skipped :
      {receiver : Expr} {method : Text}
      → Any (λ s. s ≡ method) skip_calls
      → Skips skip_calls (method_call receiver method)

-- A statement that a mutant deletes
abbrev pub Deletable : List Text → List Stmt → Stmt → Type 0
Deletable skip_calls block (expr_stmt e semi control span) =
    (semi ≡ true) × (control ≡ false) × KeepsTypes block e × (¬ (Skips skip_calls e))
Deletable skip_calls block (local name) = ⊥
Deletable skip_calls block other_stmt = ⊥

-- The spans of just the statements with a property, in their order
pub data SpansOf (P : Stmt → Type 0) : List Stmt → List Span → Type 0 where
  no_more : SpansOf P [] []
  deleted :
      {e : Expr} {semi control : Bool} {span : Span} {stmts : List Stmt} {spans : List Span}
      → P (expr_stmt e semi control span)
      → SpansOf P stmts spans
      → SpansOf P (expr_stmt e semi control span ∷ stmts) (span ∷ spans)
  stays :
      {stmt : Stmt} {stmts : List Stmt} {spans : List Span}
      → ¬ (P stmt)
      → SpansOf P stmts spans
      → SpansOf P (stmt ∷ stmts) spans

any_text-Any :
    (names : List Text) (name : Text) → any_text names name ≡ true → Any (λ s. s ≡ name) names
any_text-Any [] name h = absurd (false≢true h)
any_text-Any (s ∷ names) name h = elim (Bool-cases (text_eq s name)) [
  | inl e ↦ inl (text_eq→eq s name e)
  | inr e ↦ inr (any_text-Any names name (rw e at h))
]

Any-any_text :
    (names : List Text) (name : Text) → Any (λ s. s ≡ name) names → any_text names name ≡ true
Any-any_text [] name h = elim h [ ]
Any-any_text (s ∷ names) name (inl e) = rw e (rw (text_eq_refl name) refl)
Any-any_text (s ∷ names) name (inr r) = elim (Bool-cases (text_eq s name)) [
  | inl e ↦ rw e refl
  | inr e ↦ rw e (Any-any_text names name r)
]

idents-IsUntyped :
    (stmts : List Stmt) (name : Text)
    → Any (λ s. s ≡ name) (untyped_local_idents stmts)
    → IsUntyped stmts name
unfolding untyped_local_idents
idents-IsUntyped [] name h = elim h [ ]
idents-IsUntyped (local (some n) ∷ stmts) name (inl e) = inl (ap (λ t. local (some t)) e)
idents-IsUntyped (local (some n) ∷ stmts) name (inr r) = inr (idents-IsUntyped stmts name r)
idents-IsUntyped (local none ∷ stmts) name r = inr (idents-IsUntyped stmts name r)
idents-IsUntyped (expr_stmt e semi control span ∷ stmts) name r =
    inr (idents-IsUntyped stmts name r)
idents-IsUntyped (other_stmt ∷ stmts) name r = inr (idents-IsUntyped stmts name r)

IsUntyped-idents :
    (stmts : List Stmt) (name : Text)
    → IsUntyped stmts name
    → Any (λ s. s ≡ name) (untyped_local_idents stmts)
unfolding untyped_local_idents
IsUntyped-idents [] name h = elim h [ ]
IsUntyped-idents (local (some n) ∷ stmts) name (inl e) = inl (cc)
IsUntyped-idents (local (some n) ∷ stmts) name (inr r) = inr (IsUntyped-idents stmts name r)
IsUntyped-idents (local none ∷ stmts) name (inl e) = cc
IsUntyped-idents (local none ∷ stmts) name (inr r) = IsUntyped-idents stmts name r
IsUntyped-idents (expr_stmt e semi control span ∷ stmts) name (inl h) = cc
IsUntyped-idents (expr_stmt e semi control span ∷ stmts) name (inr r) =
    IsUntyped-idents stmts name r
IsUntyped-idents (other_stmt ∷ stmts) name (inl e) = cc
IsUntyped-idents (other_stmt ∷ stmts) name (inr r) = IsUntyped-idents stmts name r

root-RootedAt : (e : Expr) (name : Text) → root_ident e ≡ some name → RootedAt name e
unfolding root_ident
root-RootedAt (path none) name h = cc
root-RootedAt (path (some n)) name h =
    let same : n ≡ name = cc in subst (λ t. RootedAt name (path (some t))) (sym same) at_path
root-RootedAt (field e) name h = through_field (root-RootedAt e name h)
root-RootedAt (index e) name h = through_index (root-RootedAt e name h)
root-RootedAt (deref e) name h = through_deref (root-RootedAt e name h)
root-RootedAt (paren e) name h = through_paren (root-RootedAt e name h)
root-RootedAt _ name h = cc

RootedAt-root : (name : Text) (e : Expr) → RootedAt name e → root_ident e ≡ some name
unfolding root_ident
RootedAt-root name _ at_path = refl
RootedAt-root name _ (through_field r) = RootedAt-root name _ r
RootedAt-root name _ (through_index r) = RootedAt-root name _ r
RootedAt-root name _ (through_deref r) = RootedAt-root name _ r
RootedAt-root name _ (through_paren r) = RootedAt-root name _ r

-- Whether the root of a place is one of the names
abbrev rooted_in : List Text → Option Text → Bool
rooted_in names root = elim root as (λ r. Bool) [ some name ↦ any_text names name | none ↦ false ]

module _ (block : List Stmt) where
  not_rooted-IsTyped :
      (e : Expr) → rooted_in (untyped_local_idents block) (root_ident e) ≡ false → IsTyped block e
  not_rooted-IsTyped e h name rooted untyped =
      let names = untyped_local_idents block in
      false≢true (
        sym h
        ∙ (ap (rooted_in names) (RootedAt-root name e rooted)
            ∙ Any-any_text names name (IsUntyped-idents block name untyped)))

  IsTyped-not_rooted :
      (e : Expr) → IsTyped block e → rooted_in (untyped_local_idents block) (root_ident e) ≡ false
  IsTyped-not_rooted e k =
      let names = untyped_local_idents block in
      elim (Option-cases (root_ident e)) [
        | inl none_root ↦ rw none_root refl
        | inr (name, rooted) ↦ elim (Bool-cases (any_text names name)) [
          | inl t ↦ absurd (
              k name (root-RootedAt e name rooted)
                (idents-IsUntyped block name (any_text-Any names name t)))
          | inr n ↦ rw rooted n
        ]
      ]

  by_test :
      (rooted control : Bool)
      → (if rooted then false else not control) ≡ true
      → (rooted ≡ false) × (control ≡ false)
  by_test true control h = absurd (false≢true h)
  by_test false true h = absurd (false≢true h)
  by_test false false h = (refl, refl)

  deletable-KeepsTypes :
      (e : Expr) (control : Bool)
      → is_deletable_statement e (untyped_local_idents block) control ≡ true
      → (control ≡ false) × KeepsTypes block e
  unfolding is_deletable_statement
  deletable-KeepsTypes (method_call receiver method) control h =
      let names = untyped_local_idents block in
      let (r, c) = by_test (rooted_in names (root_ident receiver)) control h in
      (c, a_method (not_rooted-IsTyped receiver r))
  deletable-KeepsTypes (assign left) control h =
      let names = untyped_local_idents block in
      let (r, c) = by_test (rooted_in names (root_ident left)) control h in
      (c, an_assignment (not_rooted-IsTyped left r))
  deletable-KeepsTypes (call names) control h = let (r, c) = by_test false control h in (c, a_call)
  deletable-KeepsTypes _ control h = absurd (false≢true h)

  KeepsTypes-deletable :
      (e : Expr)
      → KeepsTypes block e
      → is_deletable_statement e (untyped_local_idents block) false ≡ true
  unfolding is_deletable_statement
  KeepsTypes-deletable _ a_call = refl
  KeepsTypes-deletable _ (a_method {receiver} t) = rw (IsTyped-not_rooted receiver t) refl
  KeepsTypes-deletable _ (an_assignment {left} t) = rw (IsTyped-not_rooted left t) refl

  module _ (skip_calls : List Text) where
    skipped-Skips : (e : Expr) → is_skipped_call skip_calls e ≡ true → Skips skip_calls e
    unfolding is_skipped_call
    skipped-Skips (method_call receiver method) h =
        method_skipped (any_text-Any skip_calls method h)
    skipped-Skips (call (some names)) h = elim (Option-cases (get_last? names)) [
      | inl n ↦ absurd (false≢true (rw (n, is_skipped_call) at h))
      | inr (name, l) ↦
          function_skipped l (any_text-Any skip_calls name (rw (l, is_skipped_call) at h))
    ]
    skipped-Skips (call none) h = absurd (false≢true h)
    skipped-Skips _ h = absurd (false≢true h)

    Skips-skipped : (e : Expr) → Skips skip_calls e → is_skipped_call skip_calls e ≡ true
    unfolding is_skipped_call
    Skips-skipped _ (method_skipped {receiver} {method} a) = Any-any_text skip_calls method a
    Skips-skipped _ (function_skipped {names} {name} l a) =
        rw (l, is_skipped_call) (Any-any_text skip_calls name a)

    and-not : (a b : Bool) → a && not b ≡ true → (a ≡ true) × (b ≡ false)
    and-not true false h = (refl, refl)
    and-not true true h = absurd (false≢true h)
    and-not false b h = absurd (false≢true h)

    test-Deletable :
        (e : Expr) (control : Bool) (span : Span)
        → is_deletable_statement e (untyped_local_idents block) control
            && not (is_skipped_call skip_calls e)
          ≡ true
        → Deletable skip_calls block (expr_stmt e true control span)
    test-Deletable e control span h =
        let (d, s) =
          and-not (is_deletable_statement e (untyped_local_idents block) control)
            (is_skipped_call skip_calls e) h in
        let (c, k) = deletable-KeepsTypes e control d in
        (refl, c, k, λ skips. false≢true (sym s ∙ Skips-skipped e skips))

    Deletable-test :
        (e : Expr) (control : Bool) (span : Span)
        → Deletable skip_calls block (expr_stmt e true control span)
        → is_deletable_statement e (untyped_local_idents block) control
            && not (is_skipped_call skip_calls e)
          ≡ true
    Deletable-test e control span (t, c, k, s) = elim (Bool-cases (is_skipped_call skip_calls e)) [
      | inl h ↦ absurd (s (skipped-Skips e h))
      | inr h ↦ rw (c, h) (rw (KeepsTypes-deletable e k) refl)
    ]

    deleted-SpansOf :
        (stmts : List Stmt)
        → SpansOf
            (Deletable skip_calls block)
            stmts
            (deleted_statements skip_calls (untyped_local_idents block) stmts)
    unfolding deleted_statements
    deleted-SpansOf [] = no_more
    deleted-SpansOf (expr_stmt e true control span ∷ stmts) =
        elim (Bool-cases (
          is_deletable_statement e (untyped_local_idents block) control
          && not (is_skipped_call skip_calls e))) [
            | inl h ↦ rw h (deleted (test-Deletable e control span h) (deleted-SpansOf stmts))
            | inr h ↦ rw h (
                stays (λ d. false≢true (sym h ∙ Deletable-test e control span d))
                  (deleted-SpansOf stmts))
          ]
    deleted-SpansOf (expr_stmt e false control span ∷ stmts) =
        stays (λ d. false≢true d.0) (deleted-SpansOf stmts)
    deleted-SpansOf (local name ∷ stmts) = stays (λ d. d) (deleted-SpansOf stmts)
    deleted-SpansOf (other_stmt ∷ stmts) = stays (λ d. d) (deleted-SpansOf stmts)

-- Of a block just those statements are deleted, in their order, that end with a semicolon, have no
-- control flow, are a call, or a call of a method on or an assignment to a place that is in no variable
-- that the block declares without a type, and are not a call that is to be skipped.
pub visit_block-SpansOf :
    (skip_calls : List Text) (stmts : List Stmt)
    → SpansOf (Deletable skip_calls stmts) stmts (visit_block skip_calls stmts)
unfolding visit_block
visit_block-SpansOf skip_calls stmts = deleted-SpansOf stmts skip_calls stmts
