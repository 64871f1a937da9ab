-- ===== src/Editor/Steps/Delete.antt =====
-- crates/app/src/tree_model.rs: `delete_workflow_at`.
use ko_rkuma.Prelude.{
  ℕ, suc, ◌+◌, true, ◌||◌, ◌≡◌, Option, none, some, ◌==◌, nat_eq, if◌then◌else◌, arith,
}
use ko_rkuma.Domain.{WorkflowNode, Nodes, Otherwise}
use ko_rkuma.Editor.{Edited, unchanged}
use ko_rkuma.Editor.Steps.Positions.{
  workflow_subtree_size, nodes_size, otherwise_size, skip_workflow_count, skip_workflow_count-size,
}
use ko_rkuma.Editor.Steps.Replace.{no_for_each, no_for_each_in, no_for_each_else}

unfoldable pub simplify_seq : Nodes → WorkflowNode
simplify_seq Nodes.nil = WorkflowNode.seq Nodes.nil
simplify_seq (Nodes.cons n Nodes.nil) = n
simplify_seq children = WorkflowNode.seq children

abbrev pub push_kept : Option WorkflowNode → Nodes → Nodes
push_kept none nodes = nodes
push_kept (some n) nodes = Nodes.cons n nodes

-- `unwrap_or(WorkflowNode::Seq(vec![]))`
abbrev pub unwrap_or_empty : Option WorkflowNode → WorkflowNode
unwrap_or_empty none = WorkflowNode.seq Nodes.nil
unwrap_or_empty (some n) = n

-- `new_else.map(Box::new)`
abbrev pub kept_else : Option WorkflowNode → Otherwise
kept_else none = Otherwise.absent
kept_else (some n) = Otherwise.present n

-- A node that is kept, with the counter and the mark of the pass below it.
abbrev pub kept : {S : Type 0} → (S → WorkflowNode) → Edited S → Edited (Option WorkflowNode)
kept node r = record { result = some (node r.result); found = r.found; counter = r.counter }

abbrev pub kept_if :
    (WorkflowNode → Otherwise → WorkflowNode)
    → Edited (Option WorkflowNode)
    → Edited Otherwise
    → Edited (Option WorkflowNode)
kept_if node then_ otherwise = record {
  result = some (node (unwrap_or_empty then_.result) otherwise.result);
  found = then_.found;
  counter = otherwise.counter;
}

module _ (target : ℕ) where
  -- The test of the position; `below` is what becomes of the children.
  unfoldable pub delete_here :
      WorkflowNode → ℕ → Edited (Option WorkflowNode) → Edited (Option WorkflowNode)
  unfolding skip_workflow_count
  delete_here n pos below =
      if pos == target
      then record { result = none; found = true; counter = skip_workflow_count n (suc pos) }
      else below

  -- `other => (Some(other), false)` takes a `ForEach` too.
  unfoldable mutual
    unfolding delete_here simplify_seq

    pub delete_workflow_rec : WorkflowNode → ℕ → Edited (Option WorkflowNode)
    delete_workflow_rec (WorkflowNode.action cfg) pos =
        delete_here (WorkflowNode.action cfg) pos
          (unchanged (some (WorkflowNode.action cfg)) (suc pos))
    delete_workflow_rec (WorkflowNode.seq nodes) pos =
        delete_here (WorkflowNode.seq nodes) pos
          (kept simplify_seq (delete_workflow_children nodes (suc pos)))
    delete_workflow_rec (WorkflowNode.parallel nodes) pos =
        delete_here (WorkflowNode.parallel nodes) pos
          (kept WorkflowNode.parallel (delete_workflow_children nodes (suc pos)))
    delete_workflow_rec (WorkflowNode.if_node cond then_ otherwise) pos =
        let r = delete_workflow_rec then_ (suc (suc pos)) in
        delete_here (WorkflowNode.if_node cond then_ otherwise) pos
          (kept_if (WorkflowNode.if_node cond) r (delete_otherwise otherwise r.counter))
    delete_workflow_rec (WorkflowNode.while_node cond body max_iter) pos =
        delete_here (WorkflowNode.while_node cond body max_iter) pos (
          kept (λ b. WorkflowNode.while_node cond (unwrap_or_empty b) max_iter)
            (delete_workflow_rec body (suc pos)))
    delete_workflow_rec (WorkflowNode.retry body times backoff_ms) pos =
        delete_here (WorkflowNode.retry body times backoff_ms) pos (
          kept (λ b. WorkflowNode.retry (unwrap_or_empty b) times backoff_ms)
            (delete_workflow_rec body (suc pos)))
    delete_workflow_rec (WorkflowNode.timeout body millis) pos =
        delete_here (WorkflowNode.timeout body millis) pos (
          kept (λ b. WorkflowNode.timeout (unwrap_or_empty b) millis)
            (delete_workflow_rec body (suc pos)))
    delete_workflow_rec (WorkflowNode.for_each items var body) pos =
        delete_here (WorkflowNode.for_each items var body) pos
          (unchanged (some (WorkflowNode.for_each items var body)) (suc pos))
    delete_workflow_rec (WorkflowNode.wait until) pos =
        delete_here (WorkflowNode.wait until) pos
          (unchanged (some (WorkflowNode.wait until)) (suc pos))

    pub delete_workflow_children : Nodes → ℕ → Edited Nodes
    delete_workflow_children Nodes.nil counter = unchanged Nodes.nil counter
    delete_workflow_children (Nodes.cons n nodes) counter =
        let r = delete_workflow_rec n counter in
        let rest = delete_workflow_children nodes r.counter in
        record {
          result = push_kept r.result rest.result;
          found = r.found || rest.found;
          counter = rest.counter;
        }

    -- The row of the label "Else" is counted.
    pub delete_otherwise : Otherwise → ℕ → Edited Otherwise
    delete_otherwise Otherwise.absent counter = unchanged Otherwise.absent counter
    delete_otherwise (Otherwise.present n) counter =
        let r = delete_workflow_rec n (suc counter) in
        record { result = kept_else r.result; found = r.found; counter = r.counter }

unfoldable pub delete_workflow_at : WorkflowNode → ℕ → WorkflowNode
unfolding delete_workflow_rec
delete_workflow_at root pos = unwrap_or_empty (delete_workflow_rec pos root 0).result

module _ (target : ℕ) where
  counter-delete_here :
      (n : WorkflowNode) (pos : ℕ) (below : Edited (Option WorkflowNode))
      → below.counter ≡ pos + workflow_subtree_size n
      → (delete_here target n pos below).counter ≡ pos + workflow_subtree_size n
  unfolding delete_here
  counter-delete_here n pos below h = ground (arith, h, skip_workflow_count-size n (suc pos))

  mutual
    unfolding delete_workflow_rec workflow_subtree_size no_for_each

    counter-delete :
        (n : WorkflowNode) (pos : ℕ)
        → no_for_each n ≡ true
        → (delete_workflow_rec target n pos).counter ≡ pos + workflow_subtree_size n
    counter-delete (WorkflowNode.action cfg) pos h =
        counter-delete_here (WorkflowNode.action cfg) pos _ (omega arith)
    counter-delete (WorkflowNode.wait until) pos h =
        counter-delete_here (WorkflowNode.wait until) pos _ (omega arith)
    counter-delete (WorkflowNode.seq nodes) pos h =
        counter-delete_here (WorkflowNode.seq nodes) pos _
          (omega (arith, counter-delete_children nodes (suc pos) h))
    counter-delete (WorkflowNode.parallel nodes) pos h =
        counter-delete_here (WorkflowNode.parallel nodes) pos _
          (omega (arith, counter-delete_children nodes (suc pos) h))
    counter-delete (WorkflowNode.if_node cond then_ otherwise) pos h =
        let r = delete_workflow_rec target then_ (suc (suc pos)) in
        counter-delete_here (WorkflowNode.if_node cond then_ otherwise) pos _ (
          omega (
            arith,
            counter-delete then_ (suc (suc pos)) (ground (arith, h)),
            counter-delete_otherwise otherwise r.counter (ground (arith, h)),
          ))
    counter-delete (WorkflowNode.while_node cond body max_iter) pos h =
        counter-delete_here (WorkflowNode.while_node cond body max_iter) pos _
          (omega (arith, counter-delete body (suc pos) h))
    counter-delete (WorkflowNode.retry body times backoff_ms) pos h =
        counter-delete_here (WorkflowNode.retry body times backoff_ms) pos _
          (omega (arith, counter-delete body (suc pos) h))
    counter-delete (WorkflowNode.timeout body millis) pos h =
        counter-delete_here (WorkflowNode.timeout body millis) pos _
          (omega (arith, counter-delete body (suc pos) h))
    counter-delete (WorkflowNode.for_each items var body) pos h = cc

    counter-delete_children :
        (nodes : Nodes) (pos : ℕ)
        → no_for_each_in nodes ≡ true
        → (delete_workflow_children target nodes pos).counter ≡ pos + nodes_size nodes
    counter-delete_children Nodes.nil pos h = omega arith
    counter-delete_children (Nodes.cons n nodes) pos h =
        let r = delete_workflow_rec target n pos in
        omega (
          arith,
          counter-delete n pos (ground (arith, h)),
          counter-delete_children nodes r.counter (ground (arith, h)),
        )

    counter-delete_otherwise :
        (o : Otherwise) (pos : ℕ)
        → no_for_each_else o ≡ true
        → (delete_otherwise target o pos).counter ≡ pos + otherwise_size o
    counter-delete_otherwise Otherwise.absent pos h = omega arith
    counter-delete_otherwise (Otherwise.present n) pos h =
        omega (arith, counter-delete n (suc pos) h)
