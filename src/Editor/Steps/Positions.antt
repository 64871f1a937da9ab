-- ===== src/Editor/Steps/Positions.antt =====
-- The rows of a workflow tree in closed form, and the three ways in which
-- crates/app/src/tree_model.rs counts positions.
use mathlib.Core.List.{append_assoc, append-nil}
use ko_rkuma.Prelude.{
  ℕ, suc, ◌+◌, ◌≡◌, refl, sym, ap, ◌∙◌, String, List, [], ◌∷◌, ◌++◌, length, length-append, arith,
}
use ko_rkuma.Domain.{ActionConfig, WorkflowNode, Nodes, Otherwise}
use ko_rkuma.Editor.Steps.Rows.{
  WorkflowTreeRow, action_row, seq_row, parallel_row, if_row, then_row, else_row, while_row,
  for_each_row, retry_row, timeout_row, wait_row, count_nodes, flatten_workflow_rec, flatten_nodes,
  flatten_otherwise, flatten_workflow,
}

unfoldable mutual
  pub workflow_subtree_size : WorkflowNode → ℕ
  workflow_subtree_size (WorkflowNode.action cfg) = 1
  workflow_subtree_size (WorkflowNode.wait until) = 1
  workflow_subtree_size (WorkflowNode.seq nodes) = suc (nodes_size nodes)
  workflow_subtree_size (WorkflowNode.parallel nodes) = suc (nodes_size nodes)
  workflow_subtree_size (WorkflowNode.if_node cond then_ otherwise) =
      2 + workflow_subtree_size then_ + otherwise_size otherwise
  workflow_subtree_size (WorkflowNode.while_node cond body max_iter) =
      suc (workflow_subtree_size body)
  workflow_subtree_size (WorkflowNode.retry body times backoff_ms) =
      suc (workflow_subtree_size body)
  workflow_subtree_size (WorkflowNode.timeout body millis) = suc (workflow_subtree_size body)
  workflow_subtree_size (WorkflowNode.for_each items var body) = suc (workflow_subtree_size body)

  -- `ch.iter().map(workflow_subtree_size).sum()`
  pub nodes_size : Nodes → ℕ
  nodes_size Nodes.nil = 0
  nodes_size (Nodes.cons n nodes) = workflow_subtree_size n + nodes_size nodes

  pub otherwise_size : Otherwise → ℕ
  otherwise_size Otherwise.absent = 0
  otherwise_size (Otherwise.present n) = suc (workflow_subtree_size n)

unfoldable mutual
  pub skip_workflow_count : WorkflowNode → ℕ → ℕ
  skip_workflow_count (WorkflowNode.seq nodes) counter = skip_nodes nodes counter
  skip_workflow_count (WorkflowNode.parallel nodes) counter = skip_nodes nodes counter
  skip_workflow_count (WorkflowNode.if_node cond then_ otherwise) counter =
      skip_otherwise otherwise (skip_workflow_count then_ (counter + 2))
  skip_workflow_count (WorkflowNode.while_node cond body max_iter) counter =
      skip_workflow_count body (suc counter)
  skip_workflow_count (WorkflowNode.retry body times backoff_ms) counter =
      skip_workflow_count body (suc counter)
  skip_workflow_count (WorkflowNode.timeout body millis) counter =
      skip_workflow_count body (suc counter)
  skip_workflow_count (WorkflowNode.for_each items var body) counter =
      skip_workflow_count body (suc counter)
  skip_workflow_count (WorkflowNode.action cfg) counter = counter
  skip_workflow_count (WorkflowNode.wait until) counter = counter

  pub skip_nodes : Nodes → ℕ → ℕ
  skip_nodes Nodes.nil counter = counter
  skip_nodes (Nodes.cons n nodes) counter = skip_nodes nodes (skip_workflow_count n (suc counter))

  pub skip_otherwise : Otherwise → ℕ → ℕ
  skip_otherwise Otherwise.absent counter = counter
  skip_otherwise (Otherwise.present n) counter = skip_workflow_count n (counter + 2)

mutual
  unfolding skip_workflow_count workflow_subtree_size

  pub skip_workflow_count-size :
      (n : WorkflowNode) (counter : ℕ)
      → suc (skip_workflow_count n counter) ≡ counter + workflow_subtree_size n
  skip_workflow_count-size (WorkflowNode.action cfg) counter = omega arith
  skip_workflow_count-size (WorkflowNode.wait until) counter = omega arith
  skip_workflow_count-size (WorkflowNode.seq nodes) counter =
      omega (arith, skip_nodes-size nodes counter)
  skip_workflow_count-size (WorkflowNode.parallel nodes) counter =
      omega (arith, skip_nodes-size nodes counter)
  skip_workflow_count-size (WorkflowNode.if_node cond then_ otherwise) counter = omega (
    arith,
    skip_workflow_count-size then_ (counter + 2),
    skip_otherwise-size otherwise (skip_workflow_count then_ (counter + 2)),
  )
  skip_workflow_count-size (WorkflowNode.while_node cond body max_iter) counter =
      omega (arith, skip_workflow_count-size body (suc counter))
  skip_workflow_count-size (WorkflowNode.retry body times backoff_ms) counter =
      omega (arith, skip_workflow_count-size body (suc counter))
  skip_workflow_count-size (WorkflowNode.timeout body millis) counter =
      omega (arith, skip_workflow_count-size body (suc counter))
  skip_workflow_count-size (WorkflowNode.for_each items var body) counter =
      omega (arith, skip_workflow_count-size body (suc counter))

  skip_nodes-size :
      (nodes : Nodes) (counter : ℕ) → skip_nodes nodes counter ≡ counter + nodes_size nodes
  skip_nodes-size Nodes.nil counter = omega arith
  skip_nodes-size (Nodes.cons n nodes) counter = omega (
    arith,
    skip_workflow_count-size n (suc counter),
    skip_nodes-size nodes (skip_workflow_count n (suc counter)),
  )

  skip_otherwise-size :
      (o : Otherwise) (counter : ℕ) → skip_otherwise o counter ≡ counter + otherwise_size o
  skip_otherwise-size Otherwise.absent counter = omega arith
  skip_otherwise-size (Otherwise.present n) counter =
      omega (arith, skip_workflow_count-size n (counter + 2))

module _ (to_json : ActionConfig → String) where
  -- The rows with no accumulator.
  unfoldable mutual
    pub node_rows : WorkflowNode → ℕ → List WorkflowTreeRow
    node_rows (WorkflowNode.action cfg) depth = action_row to_json depth cfg ∷ []
    node_rows (WorkflowNode.seq nodes) depth =
        seq_row depth (count_nodes nodes) ∷ nodes_rows nodes (suc depth)
    node_rows (WorkflowNode.parallel nodes) depth =
        parallel_row depth (count_nodes nodes) ∷ nodes_rows nodes (suc depth)
    node_rows (WorkflowNode.if_node cond then_ otherwise) depth =
        if_row depth
        ∷ then_row (suc depth)
        ∷ (node_rows then_ (suc (suc depth)) ++ otherwise_rows otherwise depth)
    node_rows (WorkflowNode.while_node cond body max_iter) depth =
        while_row depth max_iter ∷ node_rows body (suc depth)
    node_rows (WorkflowNode.for_each items var body) depth =
        for_each_row depth var ∷ node_rows body (suc depth)
    node_rows (WorkflowNode.retry body times backoff_ms) depth =
        retry_row depth times ∷ node_rows body (suc depth)
    node_rows (WorkflowNode.timeout body millis) depth =
        timeout_row depth millis ∷ node_rows body (suc depth)
    node_rows (WorkflowNode.wait until) depth = wait_row depth until ∷ []

    pub nodes_rows : Nodes → ℕ → List WorkflowTreeRow
    nodes_rows Nodes.nil depth = []
    nodes_rows (Nodes.cons n nodes) depth = node_rows n depth ++ nodes_rows nodes depth

    pub otherwise_rows : Otherwise → ℕ → List WorkflowTreeRow
    otherwise_rows Otherwise.absent depth = []
    otherwise_rows (Otherwise.present n) depth =
        else_row (suc depth) ∷ node_rows n (suc (suc depth))

  mutual
    unfolding flatten_workflow_rec node_rows

    flatten_node_lem :
        (n : WorkflowNode) (depth : ℕ) (rows : List WorkflowTreeRow)
        → flatten_workflow_rec to_json n depth rows ≡ rows ++ node_rows n depth
    flatten_node_lem (WorkflowNode.action cfg) depth rows = refl
    flatten_node_lem (WorkflowNode.wait until) depth rows = refl
    flatten_node_lem (WorkflowNode.seq nodes) depth rows =
        flatten_nodes_lem nodes (suc depth) _ ∙ append_assoc rows _ _
    flatten_node_lem (WorkflowNode.parallel nodes) depth rows =
        flatten_nodes_lem nodes (suc depth) _ ∙ append_assoc rows _ _
    flatten_node_lem (WorkflowNode.if_node cond then_ otherwise) depth rows =
        let labels = if_row depth ∷ then_row (suc depth) ∷ [] in
        flatten_otherwise_lem otherwise depth _
        ∙ ap (λ l. l ++ otherwise_rows otherwise depth)
            (flatten_node_lem then_ (suc (suc depth)) _
              ∙ ap (λ l. l ++ node_rows then_ (suc (suc depth))) (append_assoc rows _ _)
              ∙ append_assoc rows labels (node_rows then_ (suc (suc depth))))
        ∙ append_assoc rows _ (otherwise_rows otherwise depth)
    flatten_node_lem (WorkflowNode.while_node cond body max_iter) depth rows =
        flatten_node_lem body (suc depth) _ ∙ append_assoc rows _ _
    flatten_node_lem (WorkflowNode.for_each items var body) depth rows =
        flatten_node_lem body (suc depth) _ ∙ append_assoc rows _ _
    flatten_node_lem (WorkflowNode.retry body times backoff_ms) depth rows =
        flatten_node_lem body (suc depth) _ ∙ append_assoc rows _ _
    flatten_node_lem (WorkflowNode.timeout body millis) depth rows =
        flatten_node_lem body (suc depth) _ ∙ append_assoc rows _ _

    flatten_nodes_lem :
        (nodes : Nodes) (depth : ℕ) (rows : List WorkflowTreeRow)
        → flatten_nodes to_json nodes depth rows ≡ rows ++ nodes_rows nodes depth
    flatten_nodes_lem Nodes.nil depth rows = sym (append-nil rows)
    flatten_nodes_lem (Nodes.cons n nodes) depth rows =
        flatten_nodes_lem nodes depth _
        ∙ ap (λ l. l ++ nodes_rows nodes depth) (flatten_node_lem n depth rows)
        ∙ append_assoc rows (node_rows n depth) (nodes_rows nodes depth)

    flatten_otherwise_lem :
        (o : Otherwise) (depth : ℕ) (rows : List WorkflowTreeRow)
        → flatten_otherwise to_json o depth rows ≡ rows ++ otherwise_rows o depth
    flatten_otherwise_lem Otherwise.absent depth rows = sym (append-nil rows)
    flatten_otherwise_lem (Otherwise.present n) depth rows =
        flatten_node_lem n (suc (suc depth)) _ ∙ append_assoc rows _ _

  pub flatten_workflow-rows : (n : WorkflowNode) → flatten_workflow to_json n ≡ node_rows n 0
  unfolding flatten_workflow
  flatten_workflow-rows n = flatten_node_lem n 0 []

  mutual
    unfolding node_rows workflow_subtree_size

    pub length-node_rows :
        (n : WorkflowNode) (depth : ℕ) → length (node_rows n depth) ≡ workflow_subtree_size n
    length-node_rows (WorkflowNode.action cfg) depth = refl
    length-node_rows (WorkflowNode.wait until) depth = refl
    length-node_rows (WorkflowNode.seq nodes) depth =
        omega (arith, length-nodes_rows nodes (suc depth))
    length-node_rows (WorkflowNode.parallel nodes) depth =
        omega (arith, length-nodes_rows nodes (suc depth))
    length-node_rows (WorkflowNode.if_node cond then_ otherwise) depth = omega (
      arith,
      length-append (node_rows then_ (suc (suc depth))) (otherwise_rows otherwise depth),
      length-node_rows then_ (suc (suc depth)),
      length-otherwise_rows otherwise depth,
    )
    length-node_rows (WorkflowNode.while_node cond body max_iter) depth =
        omega (arith, length-node_rows body (suc depth))
    length-node_rows (WorkflowNode.for_each items var body) depth =
        omega (arith, length-node_rows body (suc depth))
    length-node_rows (WorkflowNode.retry body times backoff_ms) depth =
        omega (arith, length-node_rows body (suc depth))
    length-node_rows (WorkflowNode.timeout body millis) depth =
        omega (arith, length-node_rows body (suc depth))

    pub length-nodes_rows :
        (nodes : Nodes) (depth : ℕ) → length (nodes_rows nodes depth) ≡ nodes_size nodes
    length-nodes_rows Nodes.nil depth = refl
    length-nodes_rows (Nodes.cons n nodes) depth = omega (
      arith,
      length-append (node_rows n depth) (nodes_rows nodes depth),
      length-node_rows n depth,
      length-nodes_rows nodes depth,
    )

    pub length-otherwise_rows :
        (o : Otherwise) (depth : ℕ) → length (otherwise_rows o depth) ≡ otherwise_size o
    length-otherwise_rows Otherwise.absent depth = refl
    length-otherwise_rows (Otherwise.present n) depth =
        omega (arith, length-node_rows n (suc (suc depth)))
