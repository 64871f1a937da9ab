-- ===== src/Permission/Distinct.antt =====
-- The static aggregation has no duplicates.
use ko_rkuma.Prelude.{
  false, ◌≡◌, refl, ◌∙◌, List, [], ◌∷◌, ◌++◌, contains, arith, Bool-cases, inl, inr, ◌==◌,
}
use ko_rkuma.Permission.Exact.{contains-snoc}
use ko_rkuma.Domain.{
  Permission, permission_eq, ActionConfig, OnNoBackground, WorkflowNode, Nodes, Otherwise,
}
use ko_rkuma.Permission.{
  add, add_action_perms, collect_workflow_perms, collect_children, collect_otherwise,
  aggregate_from_workflow,
}

-- No entry occurs twice.
abbrev pub IsDistinct : List Permission → Type 0
IsDistinct [] = Unit
IsDistinct (p ∷ perms) = (contains perms p ≡ false) × IsDistinct perms

IsDistinct-snoc :
    (p : Permission) (perms : List Permission)
    → IsDistinct perms
    → contains perms p ≡ false
    → IsDistinct (perms ++ (p ∷ []))
unfolding contains
IsDistinct-snoc p [] d absent = (refl, tt)
IsDistinct-snoc p (q ∷ perms) d absent =
    let fresh : (contains perms p ≡ false) × ((q == p) ≡ false) = ground arith in
    let other : (p == q) ≡ false =
      ground (arith, permission_eq.beq_iff q p, permission_eq.beq_iff p q) in
    (contains-snoc q p perms ∙ ground arith, IsDistinct-snoc p perms d.1 fresh.0)

IsDistinct-add :
    (p : Permission) (perms : List Permission) → IsDistinct perms → IsDistinct (add p perms)
unfolding add
IsDistinct-add p perms d = elim (Bool-cases (contains perms p)) [
  | inl e ↦ rw e d
  | inr e ↦ rw e (IsDistinct-snoc p perms d e)
]

IsDistinct-add_action_perms :
    (cfg : ActionConfig) (perms : List Permission)
    → IsDistinct perms
    → IsDistinct (add_action_perms cfg perms)
unfolding add_action_perms
IsDistinct-add_action_perms (ActionConfig.run_command program args capture) perms d =
    IsDistinct-add _ perms d
IsDistinct-add_action_perms (ActionConfig.simulate_input sequence) perms d =
    IsDistinct-add _ perms d
IsDistinct-add_action_perms (ActionConfig.run_script lang source) perms d = IsDistinct-add _ perms d
IsDistinct-add_action_perms (ActionConfig.http_request method url body) perms d =
    IsDistinct-add _ perms d
IsDistinct-add_action_perms (ActionConfig.interact target op OnNoBackground.degrade) perms d =
    IsDistinct-add _ _ (IsDistinct-add _ perms d)
IsDistinct-add_action_perms (ActionConfig.interact target op _) perms d = IsDistinct-add _ perms d
IsDistinct-add_action_perms _ perms d = d

mutual
  unfolding collect_workflow_perms

  IsDistinct-collect :
      (n : WorkflowNode) (perms : List Permission)
      → IsDistinct perms
      → IsDistinct (collect_workflow_perms n perms)
  IsDistinct-collect (WorkflowNode.action cfg) perms d = IsDistinct-add_action_perms cfg perms d
  IsDistinct-collect (WorkflowNode.seq nodes) perms d = IsDistinct-children nodes perms d
  IsDistinct-collect (WorkflowNode.parallel nodes) perms d = IsDistinct-children nodes perms d
  IsDistinct-collect (WorkflowNode.if_node cond then_ otherwise) perms d =
      IsDistinct-otherwise otherwise _ (IsDistinct-collect then_ perms d)
  IsDistinct-collect (WorkflowNode.while_node cond body max_iter) perms d =
      IsDistinct-collect body perms d
  IsDistinct-collect (WorkflowNode.for_each items var body) perms d =
      IsDistinct-collect body perms d
  IsDistinct-collect (WorkflowNode.retry body times backoff_ms) perms d =
      IsDistinct-collect body perms d
  IsDistinct-collect (WorkflowNode.timeout body millis) perms d = IsDistinct-collect body perms d
  IsDistinct-collect (WorkflowNode.wait until) perms d = d

  IsDistinct-children :
      (nodes : Nodes) (perms : List Permission)
      → IsDistinct perms
      → IsDistinct (collect_children nodes perms)
  IsDistinct-children Nodes.nil perms d = d
  IsDistinct-children (Nodes.cons n nodes) perms d =
      IsDistinct-children nodes _ (IsDistinct-collect n perms d)

  IsDistinct-otherwise :
      (o : Otherwise) (perms : List Permission)
      → IsDistinct perms
      → IsDistinct (collect_otherwise o perms)
  IsDistinct-otherwise Otherwise.absent perms d = d
  IsDistinct-otherwise (Otherwise.present n) perms d = IsDistinct-collect n perms d

-- The aggregate of a workflow lists no permission twice.
pub aggregate_from_workflow-IsDistinct :
    (n : WorkflowNode) → IsDistinct (aggregate_from_workflow n).permissions
unfolding aggregate_from_workflow
aggregate_from_workflow-IsDistinct n = IsDistinct-collect n [] tt
