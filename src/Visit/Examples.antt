-- ===== src/Visit/Examples.antt =====
-- Tests of the search for the file of a module and of deleted statements, and witnesses.
use cargo_mutants.Prelude.Text.{Text, codes, text_eq}
use cargo_mutants.Prelude.{ℕ, ◌≡◌, refl, Bool, true, false, ◌||◌, none, some, List, [], ◌∷◌}
use cargo_mutants.Paths.{FilePath}
use cargo_mutants.Mutant.Samples.{file}
use cargo_mutants.Span.{Span}
use cargo_mutants.Mutant.Samples.{at}
use cargo_mutants.Visit.Statements.{
  Stmt, local, expr_stmt, path, method_call, call, other, visit_block, deleted_statements,
  is_deletable_statement, statement_root, root_ident, is_skipped_call, untyped_local_idents,
}
use cargo_mutants.Visit.Statements.Safe.{Deletable, SpansOf, visit_block-SpansOf}
use cargo_mutants.Visit.Mods.{
  ModNamespace, get_filesystem_name, search_dir, candidates, first_file, find_mod_source,
}

abbrev child : ModNamespace
child = record { name = codes "bar"; path_attribute = none }

abbrev inner : ModNamespace
inner = record { name = codes "foo"; path_attribute = none }

-- Just one file is there
abbrev is_file : FilePath → Bool
is_file p = any_eq (codes "mod.rs") p
  where
    any_eq : Text → FilePath → Bool
    any_eq t [] = false
    any_eq t (c ∷ p) = text_eq c t || any_eq t p

found_mod :
    find_mod_source is_file [] file (inner ∷ child ∷ [])
    ≡ some (some (codes "src" ∷ codes "foo" ∷ codes "bar" ∷ codes "mod.rs" ∷ []))
unfolding find_mod_source search_dir candidates first_file get_filesystem_name
found_mod = refl

abbrev line_span : ℕ → Span
line_span line = record { start = at line 1; end = at line 9 }

-- `let v = …; v.push(1); f(); return;`
abbrev statements : List Stmt
statements =
    local (some (codes "v"))
    ∷ expr_stmt (method_call (path (some (codes "v"))) (codes "push")) true false (line_span 2)
    ∷ expr_stmt (call (some (codes "f" ∷ []))) true false (line_span 3)
    ∷ expr_stmt other true true (line_span 4)
    ∷ []

one_deleted : visit_block (codes "with_capacity" ∷ []) statements ≡ line_span 3 ∷ []
unfolding visit_block deleted_statements is_deletable_statement statement_root root_ident
    is_skipped_call untyped_local_idents
one_deleted = refl

-- A call that is to be skipped
one_skipped : visit_block (codes "f" ∷ []) statements ≡ []
unfolding visit_block deleted_statements is_deletable_statement statement_root root_ident
    is_skipped_call untyped_local_idents
one_skipped = refl

visit_block-SpansOf_example :
    SpansOf
      (Deletable (codes "f" ∷ []) statements)
      statements
      (visit_block (codes "f" ∷ []) statements)
visit_block-SpansOf_example = visit_block-SpansOf (codes "f" ∷ []) statements
