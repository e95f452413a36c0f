-- ===== src/Visit/Statements.antt =====
-- Statements that are deleted, and the mutants of conditions and literals: `visit_block` and what it
-- calls, `visit_expr_if`, `visit_expr_while`, `visit_expr_unary` and `visit_expr_lit` in src/visit.rs.
-- An expression is what is read of it.
pub mod Safe
use cargo_mutants.Prelude.Text.{Text, codes, text_eq}
use cargo_mutants.Prelude.{
  Bool, true, false, not, ◌&&◌, ◌||◌, Option, none, some, List, [], ◌∷◌, if◌then◌else◌, get_last?,
}
use cargo_mutants.Span.{Span}
use cargo_mutants.Mutant.{Genre, unary_operator, if_condition, while_condition, bool_literal}
use cargo_mutants.Pretty.{TokenStream, end}
use cargo_mutants.FnValue.Quote.{word}

-- `syn::Expr`: paths with their one identifier, if they are one; method calls with their method; calls
-- with the names of the path of their function, if it is one
pub data Expr : Type 0 where
  path : Option Text → Expr
  field index deref paren assign : Expr → Expr
  method_call : Expr → Text → Expr
  call : Option (List Text) → Expr
  let_condition literal other : Expr

-- `syn::Stmt`: a `let` with the identifier of its pattern, if that has no type, and an expression with
-- whether a semicolon follows, whether it has control flow, and its span
pub data Stmt : Type 0 where
  local : Option Text → Stmt
  expr_stmt : Expr → Bool → Bool → Span → Stmt
  other_stmt : Stmt

-- `untyped_local_idents`
unfoldable pub untyped_local_idents : List Stmt → List Text
untyped_local_idents [] = []
untyped_local_idents (local (some name) ∷ stmts) = name ∷ untyped_local_idents stmts
untyped_local_idents (local none ∷ stmts) = untyped_local_idents stmts
untyped_local_idents (expr_stmt e semi control span ∷ stmts) = untyped_local_idents stmts
untyped_local_idents (other_stmt ∷ stmts) = untyped_local_idents stmts

-- `root_ident`
unfoldable pub root_ident : Expr → Option Text
root_ident (path name) = name
root_ident (field e) = root_ident e
root_ident (index e) = root_ident e
root_ident (deref e) = root_ident e
root_ident (paren e) = root_ident e
root_ident (assign e) = none
root_ident (method_call e method) = none
root_ident (call names) = none
root_ident let_condition = none
root_ident literal = none
root_ident other = none

abbrev pub any_text : List Text → Text → Bool
any_text [] name = false
any_text (s ∷ ss) name = text_eq s name || any_text ss name

-- The root of a statement that may be deleted: of a method call, of an assignment, or none
unfoldable pub statement_root : Expr → Option (Option Text)
unfolding root_ident
statement_root (method_call receiver method) = some (root_ident receiver)
statement_root (assign left) = some (root_ident left)
statement_root (call names) = some none
statement_root _ = none

-- `is_deletable_statement`, where `control` is `contains_control_flow`
unfoldable pub is_deletable_statement : Expr → List Text → Bool → Bool
unfolding statement_root
is_deletable_statement e untyped_locals control = elim (statement_root e) [
  | none ↦ false
  | some root ↦
      (if elim root as (λ r. Bool) [ some name ↦ any_text untyped_locals name | none ↦ false ]
        then false
        else not control)
]

abbrev pub last_name : List Text → Option Text
last_name names = get_last? names

-- `is_skipped_call`
unfoldable pub is_skipped_call : List Text → Expr → Bool
is_skipped_call skip_calls (call (some names)) = elim (last_name names) [
  | some name ↦ any_text skip_calls name
  | none ↦ false
]
is_skipped_call skip_calls (method_call receiver method) = any_text skip_calls method
is_skipped_call skip_calls _ = false

-- The spans of the statements for which `visit_block` makes a mutant
unfoldable pub deleted_statements : List Text → List Text → List Stmt → List Span
unfolding is_deletable_statement is_skipped_call
deleted_statements skip_calls untyped_locals [] = []
deleted_statements skip_calls untyped_locals (expr_stmt e true control span ∷ stmts) =
    let rest = deleted_statements skip_calls untyped_locals stmts in
    if is_deletable_statement e untyped_locals control && not (is_skipped_call skip_calls e)
    then span ∷ rest
    else rest
deleted_statements skip_calls untyped_locals (expr_stmt e false control span ∷ stmts) =
    deleted_statements skip_calls untyped_locals stmts
deleted_statements skip_calls untyped_locals (local name ∷ stmts) =
    deleted_statements skip_calls untyped_locals stmts
deleted_statements skip_calls untyped_locals (other_stmt ∷ stmts) =
    deleted_statements skip_calls untyped_locals stmts

unfoldable pub visit_block : List Text → List Stmt → List Span
unfolding deleted_statements untyped_local_idents
visit_block skip_calls stmts = deleted_statements skip_calls (untyped_local_idents stmts) stmts

-- A condition that a literal may replace
abbrev pub is_replaceable : Expr → Bool
is_replaceable let_condition = false
is_replaceable literal = false
is_replaceable _ = true

-- The replacements of the condition of an `if`, by whether its first branch leaves a loop, and of a
-- `while`
unfoldable pub if_replacements : Expr → Bool → List (TokenStream × Genre)
if_replacements cond exits_loop =
    if is_replaceable cond
    then (word (codes "true"), if_condition)
      ∷ (if exits_loop then [] else (word (codes "false"), if_condition) ∷ [])
    else []

unfoldable pub while_replacements : Expr → List (TokenStream × Genre)
while_replacements cond =
    if is_replaceable cond then (word (codes "false"), while_condition) ∷ [] else []

-- `syn::UnOp`, and its replacements
pub data UnOp : Type 0 where
  not_op neg_op deref_op : UnOp

unfoldable pub unary_replacements : UnOp → List (TokenStream × Genre)
unary_replacements not_op = (end, unary_operator) ∷ []
unary_replacements neg_op = (end, unary_operator) ∷ []
unary_replacements deref_op = []

-- The replacements of a literal `true` or `false`, by whether it is a whole body or a guard
unfoldable pub literal_replacements : Bool → Bool → Bool → List (TokenStream × Genre)
literal_replacements duplicates_fn_value duplicates_match_guard value =
    if not duplicates_fn_value && not duplicates_match_guard
    then (if value then word (codes "false") else word (codes "true"), bool_literal) ∷ []
    else []
