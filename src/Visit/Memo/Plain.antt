-- ===== src/Visit/Memo/Plain.antt =====
-- The answers that are remembered are those of a plain walk.
use cargo_mutants.Prelude.{
  ℕ, ◌≡◌, refl, subst, sym, ap, ap₂, ◌∙◌, inl, inr, Bool, true, false, ◌||◌, Option, none, some,
  List, [], ◌∷◌, ◌==◌, if◌then◌else◌, ==→eq, Bool-cases, All,
}
use cargo_mutants.Prelude.Maybe.{unwrap_or}
use cargo_mutants.Visit.Memo.{
  Kind, expression, block, Node, node, Content, return_leaf, loop_exit_leaf, below, Nodes, no_node,
  one_node, Flags, Memo, find_memo, memo_of, insert_memo, set_flags, fold_in, flags_of, remember,
  answer, query, visit, visit_all, contains_control_flow, block_contains_loop_exit,
}

abbrev pub or_flags : Flags → Flags → Flags
or_flags f g = (f.0 || g.0, f.1 || g.1)

-- The flags of a subtree, by a plain walk
unfoldable mutual
  pub flags : Content → Flags
  flags return_leaf = (true, false)
  flags loop_exit_leaf = (false, true)
  flags (below nodes) = all_flags nodes

  pub node_flags : Node → Flags
  node_flags (node kind a content) = flags content

  pub all_flags : Nodes → Flags
  all_flags no_node = (false, false)
  all_flags (one_node n nodes) = or_flags (node_flags n) (all_flags nodes)

module _ (memory : Kind → ℕ → Content) where
  -- Each node of a tree is at its address
  unfoldable mutual
    pub IsPlaced : Node → Type 0
    IsPlaced (node kind a content) = (memory kind a ≡ content) × ContentIsPlaced content

    pub ContentIsPlaced : Content → Type 0
    ContentIsPlaced return_leaf = Unit
    ContentIsPlaced loop_exit_leaf = Unit
    ContentIsPlaced (below nodes) = AllPlaced nodes

    pub AllPlaced : Nodes → Type 0
    AllPlaced no_node = Unit
    AllPlaced (one_node n nodes) = IsPlaced n × AllPlaced nodes

  -- What is remembered for an address are the flags of what is there
  abbrev pub IsFaithful : Memo → Type 0
  IsFaithful m = (kind : Kind) → All (λ e. e.1 ≡ flags (memory kind e.0)) (memo_of kind m)

  -- What a walk of something with the flags `f` has done
  pub record Walked (f : Flags) (m m' : Memo) : Type 0 where
    pub faithful : IsFaithful m'
    pub returns : m'.returns ≡ m.returns || f.0
    pub loop_exits : m'.loop_exits ≡ m.loop_exits || f.1

  or_assoc : (a b c : Bool) → (a || b) || c ≡ a || (b || c)
  or_assoc true b c = refl
  or_assoc false b c = refl

  or_false : (a : Bool) → a || false ≡ a
  or_false true = refl
  or_false false = refl

  or_true : (a : Bool) → a || true ≡ true
  or_true true = refl
  or_true false = refl

  Walked-both :
      (f g : Flags) (m m1 m2 : Memo) → Walked f m m1 → Walked g m1 m2 → Walked (or_flags f g) m m2
  Walked-both f g m m1 m2 h k = record {
    faithful = k.faithful;
    returns = k.returns ∙ (ap (λ b. b || g.0) h.returns ∙ or_assoc m.returns f.0 g.0);
    loop_exits = k.loop_exits ∙ (ap (λ b. b || g.1) h.loop_exits ∙ or_assoc m.loop_exits f.1 g.1);
  }

  find_memo-eq :
      (memo : List (ℕ × Flags)) (a : ℕ) (f : Flags) (kind : Kind)
      → All (λ e. e.1 ≡ flags (memory kind e.0)) memo
      → find_memo memo a ≡ some f
      → f ≡ flags (memory kind a)
  find_memo-eq [] a f kind h e = cc
  find_memo-eq ((b, g) ∷ memo) a f kind (p, h) e = elim (Bool-cases (b == a)) [
    | inl d ↦
        let k = subst (λ c. (if c then some g else find_memo memo a) ≡ some f) d e in
        sym (ap (unwrap_or f) k) ∙ (p ∙ ap (λ x. flags (memory kind x)) (==→eq b a d))
    | inr d ↦
        find_memo-eq memo a f kind h
          (subst (λ c. (if c then some g else find_memo memo a) ≡ some f) d e)
  ]

  insert-IsFaithful :
      (kind : Kind) (a : ℕ) (f : Flags) (m : Memo)
      → IsFaithful m
      → f ≡ flags (memory kind a)
      → IsFaithful (insert_memo kind a f m)
  insert-IsFaithful expression a f m h e expression = (e, h expression)
  insert-IsFaithful expression a f m h e block = h block
  insert-IsFaithful block a f m h e expression = h expression
  insert-IsFaithful block a f m h e block = (e, h block)

  set-IsFaithful : (f : Flags) (m : Memo) → IsFaithful m → IsFaithful (set_flags f m)
  set-IsFaithful f m h expression = h expression
  set-IsFaithful f m h block = h block

  fold-IsFaithful : (f : Flags) (m : Memo) → IsFaithful m → IsFaithful (fold_in f m)
  fold-IsFaithful f m h expression = h expression
  fold-IsFaithful f m h block = h block

  -- The two ways in which a node is answered
  cached-Walked : (f g : Flags) (m : Memo) → f ≡ g → IsFaithful m → Walked g m (fold_in f m)
  cached-Walked f g m e h = record {
    faithful = fold-IsFaithful f m h;
    returns = ap (λ x. m.returns || x.0) e;
    loop_exits = ap (λ x. m.loop_exits || x.1) e;
  }

  Walked-flags_of :
      (f : Flags) (m m' : Memo) → Walked f (set_flags (false, false) m) m' → flags_of m' ≡ f
  Walked-flags_of f m m' w = ap₂ (λ x y. (x, y)) w.returns w.loop_exits

  remember-Walked :
      (kind : Kind) (a : ℕ) (f : Flags) (m m' : Memo)
      → f ≡ flags (memory kind a)
      → Walked f (set_flags (false, false) m) m'
      → ((remember kind a (flags_of m) m').0 ≡ f) × Walked f m (remember kind a (flags_of m) m').1
  remember-Walked kind a f m m' e w = (
    Walked-flags_of f m m' w,
    by_kind kind
        (insert-IsFaithful kind a (flags_of m') m' w.faithful (Walked-flags_of f m m' w ∙ e)),
  )
    where
      by_kind :
          (kind : Kind)
          → IsFaithful (insert_memo kind a (flags_of m') m')
          → Walked f m (remember kind a (flags_of m) m').1
      by_kind expression h =
          let c =
            cached-Walked (flags_of m') f
              (set_flags (flags_of m) (insert_memo expression a (flags_of m') m'))
              (Walked-flags_of f m m' w) (set-IsFaithful _ _ h) in
          record { faithful = c.faithful; returns = c.returns; loop_exits = c.loop_exits }
      by_kind block h =
          let c =
            cached-Walked (flags_of m') f
              (set_flags (flags_of m) (insert_memo block a (flags_of m') m'))
              (Walked-flags_of f m m' w) (set-IsFaithful _ _ h) in
          record { faithful = c.faithful; returns = c.returns; loop_exits = c.loop_exits }

  answer-Walked :
      (kind : Kind) (a : ℕ) (f : Flags) (m : Memo) (found : Option Flags) (walked : Memo)
      → f ≡ flags (memory kind a)
      → IsFaithful m
      → find_memo (memo_of kind m) a ≡ found
      → Walked f (set_flags (false, false) m) walked
      → ((answer kind a m found walked).0 ≡ f) × Walked f m (answer kind a m found walked).1
  answer-Walked kind a f m none walked e h k w = remember-Walked kind a f m walked e w
  answer-Walked kind a f m (some cached) walked e h k w =
      let same = find_memo-eq (memo_of kind m) a cached kind (h kind) k ∙ sym e in
      (same, cached-Walked cached f m same h)

  mutual
    unfolding query flags IsPlaced

    query-Walked :
        (n : Node) (m : Memo)
        → IsPlaced n
        → IsFaithful m
        → ((query n m).0 ≡ node_flags n) × Walked (node_flags n) m (query n m).1
    query-Walked (node kind a content) m (at, placed) h =
        answer-Walked kind a (flags content) m (find_memo (memo_of kind m) a)
          (visit content (set_flags (false, false) m)) (sym (ap flags at)) h refl
          (visit-Walked content (set_flags (false, false) m) placed
            (set-IsFaithful (false, false) m h))

    visit-Walked :
        (content : Content) (m : Memo)
        → ContentIsPlaced content
        → IsFaithful m
        → Walked (flags content) m (visit content m)
    visit-Walked return_leaf m placed h = record {
      faithful = set-IsFaithful (true, m.loop_exits) m h;
      returns = sym (or_true m.returns);
      loop_exits = sym (or_false m.loop_exits);
    }
    visit-Walked loop_exit_leaf m placed h = record {
      faithful = set-IsFaithful (m.returns, true) m h;
      returns = sym (or_false m.returns);
      loop_exits = sym (or_true m.loop_exits);
    }
    visit-Walked (below nodes) m placed h = visit_all-Walked nodes m placed h

    visit_all-Walked :
        (nodes : Nodes) (m : Memo)
        → AllPlaced nodes
        → IsFaithful m
        → Walked (all_flags nodes) m (visit_all nodes m)
    visit_all-Walked no_node m placed h = record {
      faithful = h;
      returns = sym (or_false m.returns);
      loop_exits = sym (or_false m.loop_exits);
    }
    visit_all-Walked (one_node n nodes) m (p, placed) h =
        let w = (query-Walked n m p h).1 in
        Walked-both (node_flags n) (all_flags nodes) m (query n m).1 (visit_all nodes (query n m).1)
          w (visit_all-Walked nodes (query n m).1 placed w.faithful)

  -- For a tree whose nodes are at their addresses, and a memo with the flags of what is at each
  -- address, both questions are answered as by a plain walk, and what is remembered afterwards
  -- are again the flags of what is at each address.
  pub contains_control_flow-plain :
      (n : Node) (m : Memo)
      → IsPlaced n
      → IsFaithful m
      → ((contains_control_flow n m).0 ≡ (node_flags n).0 || (node_flags n).1)
        × (((block_contains_loop_exit n m).0 ≡ (node_flags n).1)
            × IsFaithful (contains_control_flow n m).1)
  unfolding contains_control_flow block_contains_loop_exit
  contains_control_flow-plain n m placed h =
      let (e, w) = query-Walked n m placed h in
      (ap (λ f. f.0 || f.1) e, (ap (λ f. f.1) e, w.faithful))
