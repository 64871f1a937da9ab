-- ===== src/Editor/Steps/Loops.antt =====
-- The `ForEach` nodes of a workflow under `update_workflow_action` of crates/app/src/tree_model.rs.
use ko_rkuma.Prelude.{
  ℕ, suc, ◌≡◌, refl, String, List, [], ◌∷◌, ◌++◌, Option, Bool-cases, Option-cases, inl, inr, ◌==◌,
  nat_eq,
}
use ko_rkuma.Domain.{ActionConfig, WorkflowNode, Nodes, Otherwise}
use ko_rkuma.Editor.Steps.Replace.{
  replace_action_rec, replace_children, replace_otherwise, update_workflow_action,
}

-- The outermost `ForEach` nodes of a tree, in their order, each with all that stands in it.
unfoldable mutual
  pub loops : WorkflowNode → List WorkflowNode
  loops (WorkflowNode.action cfg) = []
  loops (WorkflowNode.seq nodes) = loops_in nodes
  loops (WorkflowNode.parallel nodes) = loops_in nodes
  loops (WorkflowNode.if_node cond then_ otherwise) = loops then_ ++ loops_else otherwise
  loops (WorkflowNode.while_node cond body max_iter) = loops body
  loops (WorkflowNode.for_each items var body) = WorkflowNode.for_each items var body ∷ []
  loops (WorkflowNode.retry body times backoff_ms) = loops body
  loops (WorkflowNode.timeout body millis) = loops body
  loops (WorkflowNode.wait until) = []

  pub loops_in : Nodes → List WorkflowNode
  loops_in Nodes.nil = []
  loops_in (Nodes.cons n nodes) = loops n ++ loops_in nodes

  pub loops_else : Otherwise → List WorkflowNode
  loops_else Otherwise.absent = []
  loops_else (Otherwise.present n) = loops n

append_eq : {xs xs' ys ys' : List WorkflowNode} → xs ≡ xs' → ys ≡ ys' → (xs ++ ys) ≡ (xs' ++ ys')
append_eq e f = cc

module _ (target : ℕ) (new_cfg : ActionConfig) where
  mutual
    unfolding replace_action_rec loops

    loops-replace :
        (n : WorkflowNode) (pos : ℕ)
        → loops (replace_action_rec target new_cfg n pos).result ≡ loops n
    loops-replace (WorkflowNode.action cfg) pos = elim (Bool-cases (pos == target)) [
      | inl e ↦ rw (e, replace_action_rec) refl
      | inr e ↦ rw (e, replace_action_rec) refl
    ]
    loops-replace (WorkflowNode.seq nodes) pos = loops-replace_children nodes (suc pos)
    loops-replace (WorkflowNode.parallel nodes) pos = loops-replace_children nodes (suc pos)
    loops-replace (WorkflowNode.if_node cond then_ otherwise) pos =
        append_eq (loops-replace then_ (suc (suc pos))) (
          loops-replace_otherwise otherwise
            (replace_action_rec target new_cfg then_ (suc (suc pos))).counter)
    loops-replace (WorkflowNode.while_node cond body max_iter) pos = loops-replace body (suc pos)
    loops-replace (WorkflowNode.retry body times backoff_ms) pos = loops-replace body (suc pos)
    loops-replace (WorkflowNode.timeout body millis) pos = loops-replace body (suc pos)
    loops-replace (WorkflowNode.for_each items var body) pos = refl
    loops-replace (WorkflowNode.wait until) pos = refl

    loops-replace_children :
        (nodes : Nodes) (pos : ℕ)
        → loops_in (replace_children target new_cfg nodes pos).result ≡ loops_in nodes
    loops-replace_children Nodes.nil pos = refl
    loops-replace_children (Nodes.cons n nodes) pos =
        append_eq (loops-replace n pos)
          (loops-replace_children nodes (replace_action_rec target new_cfg n pos).counter)

    loops-replace_otherwise :
        (o : Otherwise) (pos : ℕ)
        → loops_else (replace_otherwise target new_cfg o pos).result ≡ loops_else o
    loops-replace_otherwise Otherwise.absent pos = refl
    loops-replace_otherwise (Otherwise.present n) pos = loops-replace n (suc pos)

-- No update of an action reaches the inside of a `ForEach`: whatever the position and the text, the
-- outermost `ForEach` nodes of the workflow stay as they are, with all that stands in them, although
-- the steps inside have rows of their own.
pub loops-update_workflow_action :
    (from_json : String → Option ActionConfig) (root : WorkflowNode) (pos : ℕ) (new_json : String)
    → loops (update_workflow_action from_json root pos new_json) ≡ loops root
unfolding update_workflow_action
loops-update_workflow_action from_json root pos new_json =
    elim (Option-cases (from_json new_json)) [
      | inl e ↦ rw (e, update_workflow_action) refl
      | inr (new_cfg, e) ↦ rw (e, update_workflow_action) (loops-replace pos new_cfg root 0)
    ]
