-- ===== src/Visit/Memo.antt =====
-- Whether a subtree has `return`, `break` or `continue`, remembered for each node: `ControlFlowMemo` in
-- src/visit.rs. A syntax tree is what that walk sees of it: expressions and blocks, with their
-- addresses, and what is in them.
pub mod Plain
mod Examples
use cargo_mutants.Prelude.{
  ℕ, Bool, true, false, ◌||◌, Option, none, some, List, [], ◌∷◌, ◌==◌, if◌then◌else◌,
}

-- Which of the two maps a node is remembered in
pub data Kind : Type 0 where
  expression block : Kind

-- A node with its address; a `return`, or a `break` or `continue`, whose inside is not walked, or the
-- nodes below
mutual
  pub data Node : Type 0 where
    node : Kind → ℕ → Content → Node

  pub data Content : Type 0 where
    return_leaf loop_exit_leaf : Content
    below : Nodes → Content

  pub data Nodes : Type 0 where
    no_node : Nodes
    one_node : Node → Nodes → Nodes

-- `(returns, loop_exits)`
abbrev pub Flags : Type 0
Flags = Bool × Bool

-- `ControlFlowMemo`
pub record Memo : Type 0 where
  pub returns : Bool
  pub loop_exits : Bool
  pub expr_memo : List (ℕ × Flags)
  pub block_memo : List (ℕ × Flags)

abbrev pub find_memo : List (ℕ × Flags) → ℕ → Option Flags
find_memo [] a = none
find_memo ((b, f) ∷ memo) a = if b == a then some f else find_memo memo a

abbrev pub memo_of : Kind → Memo → List (ℕ × Flags)
memo_of expression m = m.expr_memo
memo_of block m = m.block_memo

abbrev pub insert_memo : Kind → ℕ → Flags → Memo → Memo
insert_memo expression a f m = record m { expr_memo = (a, f) ∷ m.expr_memo }
insert_memo block a f m = record m { block_memo = (a, f) ∷ m.block_memo }

abbrev pub set_flags : Flags → Memo → Memo
set_flags f m = record m { returns = f.0; loop_exits = f.1 }

-- `self.returns |= mine.0; self.loop_exits |= mine.1`
abbrev pub fold_in : Flags → Memo → Memo
fold_in f m = record m { returns = m.returns || f.0; loop_exits = m.loop_exits || f.1 }

abbrev pub flags_of : Memo → Flags
flags_of m = (m.returns, m.loop_exits)

-- What is done after the walk of a node: the answer is remembered, and the flags of the outer walk are
-- put back
abbrev pub remember : Kind → ℕ → Flags → Memo → Flags × Memo
remember kind a outer walked = (
  flags_of walked,
  fold_in (flags_of walked) (set_flags outer (insert_memo kind a (flags_of walked) walked)),
)

-- The answer for a node, from what is remembered for it, and what a walk of it from no flags leaves
abbrev pub answer : Kind → ℕ → Memo → Option Flags → Memo → Flags × Memo
answer kind a m (some cached) walked = (cached, fold_in cached m)
answer kind a m none walked = remember kind a (flags_of m) walked

-- `query_expr` and `query_block`, with the visitor's methods that they call
unfoldable mutual
  pub query : Node → Memo → Flags × Memo
  query (node kind a content) m =
      answer kind a m (find_memo (memo_of kind m) a) (visit content (set_flags (false, false) m))

  pub visit : Content → Memo → Memo
  visit return_leaf m = record m { returns = true }
  visit loop_exit_leaf m = record m { loop_exits = true }
  visit (below nodes) m = visit_all nodes m

  pub visit_all : Nodes → Memo → Memo
  visit_all no_node m = m
  visit_all (one_node n nodes) m = visit_all nodes (query n m).1

-- `contains_control_flow` and `block_contains_loop_exit`
unfoldable pub contains_control_flow : Node → Memo → Bool × Memo
unfolding query
contains_control_flow n m = let (f, m') = query n m in (f.0 || f.1, m')

unfoldable pub block_contains_loop_exit : Node → Memo → Bool × Memo
unfolding query
block_contains_loop_exit n m = let (f, m') = query n m in (f.1, m')
