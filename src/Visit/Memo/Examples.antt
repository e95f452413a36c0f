-- ===== src/Visit/Memo/Examples.antt =====
-- A test of the memo, and a witness.
use cargo_mutants.Prelude.{ℕ, ◌≡◌, refl, true, false, ◌||◌, [], ◌==◌, if◌then◌else◌}
use cargo_mutants.Visit.Memo.{
  Kind, expression, block, Node, node, Content, loop_exit_leaf, below, no_node, one_node, Memo,
  contains_control_flow, block_contains_loop_exit,
}
use cargo_mutants.Visit.Memo.Plain.{node_flags, IsPlaced, IsFaithful, contains_control_flow-plain}

-- `{ break }` within `if … { break }`
abbrev branch : Node
branch = node block 1 (below (one_node (node expression 3 loop_exit_leaf) no_node))

abbrev conditional : Node
conditional = node expression 2 (below (one_node branch no_node))

abbrev memory : Kind → ℕ → Content
memory block a = below (one_node (node expression 3 loop_exit_leaf) no_node)
memory expression a = if a == 2 then below (one_node branch no_node) else loop_exit_leaf

abbrev empty : Memo
empty = record { returns = false; loop_exits = false; expr_memo = []; block_memo = [] }

asked_twice : (block_contains_loop_exit branch (contains_control_flow conditional empty).1).0 ≡ true
unfolding contains_control_flow block_contains_loop_exit
asked_twice = refl

empty-IsFaithful : IsFaithful memory empty
empty-IsFaithful expression = tt
empty-IsFaithful block = tt

conditional-IsPlaced : IsPlaced memory conditional
unfolding IsPlaced
conditional-IsPlaced = (refl, ((refl, ((refl, tt), tt)), tt))

contains_control_flow-plain_example :
    ((contains_control_flow conditional empty).0
      ≡ (node_flags conditional).0 || (node_flags conditional).1)
    × (((block_contains_loop_exit conditional empty).0 ≡ (node_flags conditional).1)
        × IsFaithful memory (contains_control_flow conditional empty).1)
contains_control_flow-plain_example =
    contains_control_flow-plain memory conditional empty conditional-IsPlaced empty-IsFaithful
