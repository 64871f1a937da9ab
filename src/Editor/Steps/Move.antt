-- ===== src/Editor/Steps/Move.antt =====
-- crates/app/src/tree_model.rs: `move_workflow_node`.
use ko_rkuma.Prelude.{
  ℕ, zero, suc, ◌+◌, Bool, true, false, ◌&&◌, ◌≡◌, refl, sym, ap, ◌∙◌, String, List, [], ◌∷◌, ◌++◌,
  Option, none, some, leb, ltb, if◌then◌else◌, count_if, count_if-append, Option-cases, Bool-cases,
  inl, inr, arith,
}
use ko_rkuma.Domain.{ActionConfig, WorkflowNode, Nodes, Otherwise}
use ko_rkuma.Editor.Move.{Moved, moved_in, position, upper_of}
use ko_rkuma.Editor.Steps.Rows.{WorkflowTreeRow, count_nodes, flatten_workflow}
use ko_rkuma.Editor.Steps.Positions.{
  workflow_subtree_size, node_rows, nodes_rows, otherwise_rows, flatten_workflow-rows,
}

unfoldable pub child_starts : Nodes → ℕ → List ℕ
unfolding workflow_subtree_size
child_starts Nodes.nil cur = []
child_starts (Nodes.cons n nodes) cur = cur ∷ child_starts nodes (cur + workflow_subtree_size n)

-- `children.swap(i, i + 1)`
unfoldable pub swap_next : ℕ → Nodes → Nodes
swap_next zero (Nodes.cons n (Nodes.cons m nodes)) = Nodes.cons m (Nodes.cons n nodes)
swap_next (suc i) (Nodes.cons n nodes) = Nodes.cons n (swap_next i nodes)
swap_next i nodes = nodes

abbrev pub swap_upper : Option ℕ → Nodes → Nodes
swap_upper none nodes = nodes
swap_upper (some i) nodes = swap_next i nodes

module _ (target : ℕ) (up : Bool) where
  -- `target` is one of the `size` rows from `start` on.
  abbrev pub is_in : ℕ → ℕ → Bool
  is_in start size = leb start target && ltb target (start + size)

  -- A child starts at `target`, or the move is within a child: `within` is the second loop.
  unfoldable pub move_siblings : Nodes → ℕ → Moved Nodes → Moved Nodes
  unfolding child_starts position upper_of swap_next count_nodes
  move_siblings nodes first within = elim (position target (child_starts nodes first)) [
    | none ↦ within
    | some i ↦ record {
      result = swap_upper (upper_of up i (count_nodes nodes)) nodes;
      found = true;
    }
  ]

  unfoldable mutual
    unfolding move_siblings workflow_subtree_size

    pub try_move_in_seq : WorkflowNode → ℕ → Moved WorkflowNode
    try_move_in_seq (WorkflowNode.action cfg) start = record {
      result = WorkflowNode.action cfg;
      found = false;
    }
    try_move_in_seq (WorkflowNode.wait until) start = record {
      result = WorkflowNode.wait until;
      found = false;
    }
    try_move_in_seq (WorkflowNode.seq nodes) start =
        moved_in WorkflowNode.seq (move_siblings nodes (suc start) (move_within nodes (suc start)))
    try_move_in_seq (WorkflowNode.parallel nodes) start =
        moved_in WorkflowNode.parallel
          (move_siblings nodes (suc start) (move_within nodes (suc start)))
    try_move_in_seq (WorkflowNode.if_node cond then_ otherwise) start =
        let size = workflow_subtree_size then_ in
        let first = try_move_in_seq then_ (start + 2) in
        let second = move_otherwise otherwise (start + 2 + size + 1) in
        if is_in (start + 2) size
        then moved_in (λ n. WorkflowNode.if_node cond n otherwise) first
        else moved_in (λ o. WorkflowNode.if_node cond then_ o) second
    try_move_in_seq (WorkflowNode.while_node cond body max_iter) start =
        moved_in (λ b. WorkflowNode.while_node cond b max_iter) (try_move_in_seq body (suc start))
    try_move_in_seq (WorkflowNode.retry body times backoff_ms) start =
        moved_in (λ b. WorkflowNode.retry b times backoff_ms) (try_move_in_seq body (suc start))
    try_move_in_seq (WorkflowNode.timeout body millis) start =
        moved_in (λ b. WorkflowNode.timeout b millis) (try_move_in_seq body (suc start))
    try_move_in_seq (WorkflowNode.for_each items var body) start =
        moved_in (λ b. WorkflowNode.for_each items var b) (try_move_in_seq body (suc start))

    -- The loop that looks for the child which holds `target`.
    pub move_within : Nodes → ℕ → Moved Nodes
    move_within Nodes.nil start = record { result = Nodes.nil; found = false }
    move_within (Nodes.cons n nodes) start =
        let size = workflow_subtree_size n in
        let inner = try_move_in_seq n start in
        let rest = move_within nodes (start + size) in
        if is_in start size
        then record { result = Nodes.cons inner.result nodes; found = inner.found }
        else record { result = Nodes.cons n rest.result; found = rest.found }

    -- The branch behind the label "Else", which starts at `start`.
    pub move_otherwise : Otherwise → ℕ → Moved Otherwise
    move_otherwise Otherwise.absent start = record { result = Otherwise.absent; found = false }
    move_otherwise (Otherwise.present n) start =
        let inner = try_move_in_seq n start in
        if is_in start (workflow_subtree_size n)
        then moved_in Otherwise.present inner
        else record { result = Otherwise.present n; found = false }

unfoldable pub move_workflow_node : WorkflowNode → ℕ → Bool → WorkflowNode
unfolding try_move_in_seq
move_workflow_node root target up = (try_move_in_seq target up root 0).result

count_nodes-swap_next :
    (i : ℕ) (nodes : Nodes) → count_nodes (swap_next i nodes) ≡ count_nodes nodes
unfolding swap_next count_nodes
count_nodes-swap_next zero Nodes.nil = refl
count_nodes-swap_next zero (Nodes.cons n Nodes.nil) = refl
count_nodes-swap_next zero (Nodes.cons n (Nodes.cons m nodes)) = refl
count_nodes-swap_next (suc i) Nodes.nil = refl
count_nodes-swap_next (suc i) (Nodes.cons n nodes) = ap suc (count_nodes-swap_next i nodes)

module _ (to_json : ActionConfig → String) (p : WorkflowTreeRow → Bool) where
  -- How many rows pass the test.
  abbrev count_of : WorkflowNode → ℕ → ℕ
  count_of n depth = count_if p (node_rows to_json n depth)

  abbrev count_of_all : Nodes → ℕ → ℕ
  count_of_all nodes depth = count_if p (nodes_rows to_json nodes depth)

  abbrev count_of_else : Otherwise → ℕ → ℕ
  count_of_else o depth = count_if p (otherwise_rows to_json o depth)

  count_of_cons :
      (n : WorkflowNode) (nodes : Nodes) (depth : ℕ)
      → count_of_all (Nodes.cons n nodes) depth ≡ count_of n depth + count_of_all nodes depth
  unfolding node_rows
  count_of_cons n nodes depth =
      count_if-append p (node_rows to_json n depth) (nodes_rows to_json nodes depth)

  count_of_if :
      (n : WorkflowNode) (o : Otherwise) (depth : ℕ)
      → count_if p (node_rows to_json n (suc (suc depth)) ++ otherwise_rows to_json o depth)
        ≡ count_of n (suc (suc depth)) + count_of_else o depth
  count_of_if n o depth =
      count_if-append p (node_rows to_json n (suc (suc depth))) (otherwise_rows to_json o depth)

  count-swap_next :
      (i : ℕ) (nodes : Nodes) (depth : ℕ)
      → count_of_all (swap_next i nodes) depth ≡ count_of_all nodes depth
  unfolding swap_next
  count-swap_next zero Nodes.nil depth = refl
  count-swap_next zero (Nodes.cons n Nodes.nil) depth = refl
  count-swap_next zero (Nodes.cons n (Nodes.cons m nodes)) depth = omega (
    arith,
    count_of_cons n (Nodes.cons m nodes) depth,
    count_of_cons m (Nodes.cons n nodes) depth,
    count_of_cons n nodes depth,
    count_of_cons m nodes depth,
  )
  count-swap_next (suc i) Nodes.nil depth = refl
  count-swap_next (suc i) (Nodes.cons n nodes) depth = omega (
    arith,
    count_of_cons n (swap_next i nodes) depth,
    count_of_cons n nodes depth,
    count-swap_next i nodes depth,
  )

  -- The same number of children, and the same rows up to their order.
  record Same (moved nodes : Nodes) (depth : ℕ) : Type 0 where
    same_length : count_nodes moved ≡ count_nodes nodes
    same_rows : count_of_all moved depth ≡ count_of_all nodes depth

  swap_upper-Same :
      (o : Option ℕ) (nodes : Nodes) (depth : ℕ) → Same (swap_upper o nodes) nodes depth
  swap_upper-Same none nodes depth = record { same_length = refl; same_rows = refl }
  swap_upper-Same (some i) nodes depth = record {
    same_length = count_nodes-swap_next i nodes;
    same_rows = count-swap_next i nodes depth;
  }

  module _ (target : ℕ) (up : Bool) where
    move_siblings-Same :
        (nodes : Nodes) (first depth : ℕ) (within : Moved Nodes)
        → Same within.result nodes depth
        → Same (move_siblings target up nodes first within).result nodes depth
    unfolding move_siblings
    move_siblings-Same nodes first depth within h =
        elim (Option-cases (position target (child_starts nodes first))) [
          | inl e ↦ rw (e, move_siblings) h
          | inr (i, e) ↦ rw (e, move_siblings) (swap_upper-Same _ nodes depth)
        ]

    mutual
      unfolding try_move_in_seq node_rows count_nodes count_if

      count-try_move :
          (n : WorkflowNode) (start depth : ℕ)
          → count_of (try_move_in_seq target up n start).result depth ≡ count_of n depth
      count-try_move (WorkflowNode.action cfg) start depth = refl
      count-try_move (WorkflowNode.wait until) start depth = refl
      count-try_move (WorkflowNode.seq nodes) start depth =
          let same =
            move_siblings-Same nodes (suc start) (suc depth)
              (move_within target up nodes (suc start))
              (move_within-Same nodes (suc start) (suc depth)) in
          rw same.same_length (omega (arith, same.same_rows))
      count-try_move (WorkflowNode.parallel nodes) start depth =
          let same =
            move_siblings-Same nodes (suc start) (suc depth)
              (move_within target up nodes (suc start))
              (move_within-Same nodes (suc start) (suc depth)) in
          rw same.same_length (omega (arith, same.same_rows))
      count-try_move (WorkflowNode.if_node cond then_ otherwise) start depth =
          let size = workflow_subtree_size then_ in
          let first = (try_move_in_seq target up then_ (start + 2)).result in
          let second = (move_otherwise target up otherwise (start + 2 + size + 1)).result in
          let before = count_of_if then_ otherwise depth in
          elim (Bool-cases (is_in target up (start + 2) size)) [
            | inl h ↦
                rw (h, try_move_in_seq)
                  (omega (
                    arith,
                    before,
                    count_of_if first otherwise depth,
                    count-try_move then_ (start + 2) (suc (suc depth)),
                  ))
            | inr h ↦
                rw (h, try_move_in_seq)
                  (omega (
                    arith,
                    before,
                    count_of_if then_ second depth,
                    count-move_otherwise otherwise (start + 2 + size + 1) depth,
                  ))
          ]
      count-try_move (WorkflowNode.while_node cond body max_iter) start depth =
          omega (arith, count-try_move body (suc start) (suc depth))
      count-try_move (WorkflowNode.retry body times backoff_ms) start depth =
          omega (arith, count-try_move body (suc start) (suc depth))
      count-try_move (WorkflowNode.timeout body millis) start depth =
          omega (arith, count-try_move body (suc start) (suc depth))
      count-try_move (WorkflowNode.for_each items var body) start depth =
          omega (arith, count-try_move body (suc start) (suc depth))

      move_within-Same :
          (nodes : Nodes) (start depth : ℕ)
          → Same (move_within target up nodes start).result nodes depth
      move_within-Same Nodes.nil start depth = record { same_length = refl; same_rows = refl }
      move_within-Same (Nodes.cons n nodes) start depth =
          let size = workflow_subtree_size n in
          let inner = (try_move_in_seq target up n start).result in
          let rest = (move_within target up nodes (start + size)).result in
          let ih = move_within-Same nodes (start + size) depth in
          let before = count_of_cons n nodes depth in
          elim (Bool-cases (is_in target up start size)) [
            | inl h ↦
                rw (h, move_within)
                  (record {
                    same_length = refl;
                    same_rows = omega (
                      arith,
                      before,
                      count-try_move n start depth,
                      count_of_cons inner nodes depth,
                    );
                  })
            | inr h ↦
                rw (h, move_within)
                  (record {
                    same_length = ap suc ih.same_length;
                    same_rows = omega (arith, before, ih.same_rows, count_of_cons n rest depth);
                  })
          ]

      count-move_otherwise :
          (o : Otherwise) (start depth : ℕ)
          → count_of_else (move_otherwise target up o start).result depth ≡ count_of_else o depth
      count-move_otherwise Otherwise.absent start depth = refl
      count-move_otherwise (Otherwise.present n) start depth =
          let ih = count-try_move n start (suc (suc depth)) in
          elim (Bool-cases (is_in target up start (workflow_subtree_size n))) [
            | inl h ↦ rw (h, move_otherwise) (omega (arith, ih))
            | inr h ↦ rw (h, move_otherwise) refl
          ]

-- Moving a step among its siblings loses and duplicates nothing, whatever the position and however
-- deep the step stands: the rows of the new tree are those of the old one in another order, at the
-- same depths.
pub flatten-move_workflow_node :
    (to_json : ActionConfig → String) (root : WorkflowNode) (target : ℕ) (up : Bool)
    (p : WorkflowTreeRow → Bool)
    → count_if p (flatten_workflow to_json (move_workflow_node root target up))
      ≡ count_if p (flatten_workflow to_json root)
unfolding move_workflow_node
flatten-move_workflow_node to_json root target up p =
    ap (count_if p) (flatten_workflow-rows to_json (try_move_in_seq target up root 0).result)
    ∙ count-try_move to_json p target up root 0 0
    ∙ sym (ap (count_if p) (flatten_workflow-rows to_json root))
