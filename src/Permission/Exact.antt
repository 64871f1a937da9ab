-- ===== src/Permission/Exact.antt =====
-- What the static aggregation of crates/core/src/permission.rs collects.
use ko_rkuma.Prelude.{
  Bool, false, ◌||◌, ◌≡◌, refl, ap, ◌∙◌, List, [], ◌∷◌, ◌++◌, contains, arith, none, Bool-cases,
  inl, inr, ◌==◌,
}
use ko_rkuma.Domain.{
  Permission, permission_eq, ActionConfig, OnNoBackground, WorkflowNode, Nodes, Otherwise, Macro,
  PermissionSet, from_actions, root_workflow,
}
use ko_rkuma.Permission.{
  add, add_action_perms, target_permission, aggregate_from, aggregate_from_configs,
  collect_workflow_perms, collect_children, collect_otherwise, aggregate_from_workflow,
}

-- The permissions that a kind of action needs, as a table.
unfoldable pub needed : ActionConfig → List Permission
unfolding target_permission
needed (ActionConfig.run_command program args capture) = Permission.run_command ∷ []
needed (ActionConfig.simulate_input sequence) = Permission.input_simulation ∷ []
needed (ActionConfig.run_script lang source) = Permission.script_execution ∷ []
needed (ActionConfig.http_request method url body) = Permission.network ∷ []
needed (ActionConfig.interact target op OnNoBackground.degrade) =
    target_permission target ∷ Permission.foreground_takeover ∷ []
needed (ActionConfig.interact target op OnNoBackground.fail) = target_permission target ∷ []
needed (ActionConfig.interact target op OnNoBackground.queue) = target_permission target ∷ []
needed _ = []

unfoldable pub needs : Permission → ActionConfig → Bool
unfolding needed contains
needs p cfg = contains (needed cfg) p

-- Some action of the tree needs a permission.
unfoldable mutual
  pub node_needs : Permission → WorkflowNode → Bool
  node_needs p (WorkflowNode.action cfg) = needs p cfg
  node_needs p (WorkflowNode.seq nodes) = children_need p nodes
  node_needs p (WorkflowNode.parallel nodes) = children_need p nodes
  node_needs p (WorkflowNode.if_node cond then_ otherwise) =
      node_needs p then_ || otherwise_needs p otherwise
  node_needs p (WorkflowNode.while_node cond body max_iter) = node_needs p body
  node_needs p (WorkflowNode.for_each items var body) = node_needs p body
  node_needs p (WorkflowNode.retry body times backoff_ms) = node_needs p body
  node_needs p (WorkflowNode.timeout body millis) = node_needs p body
  node_needs p (WorkflowNode.wait until) = false

  pub children_need : Permission → Nodes → Bool
  children_need p Nodes.nil = false
  children_need p (Nodes.cons n nodes) = node_needs p n || children_need p nodes

  pub otherwise_needs : Permission → Otherwise → Bool
  otherwise_needs p Otherwise.absent = false
  otherwise_needs p (Otherwise.present n) = node_needs p n

pub contains-snoc :
    (p q : Permission) (perms : List Permission)
    → contains (perms ++ (q ∷ [])) p ≡ (contains perms p || (q == p))
unfolding contains
contains-snoc p q [] = ground arith
contains-snoc p q (x ∷ perms) = ground (arith, contains-snoc p q perms)

contains-add :
    (p q : Permission) (perms : List Permission)
    → contains (add q perms) p ≡ (contains perms p || (q == p))
unfolding add
contains-add p q perms = elim (Bool-cases (contains perms q)) [
  | inl e ↦ rw e (ground (arith, e, permission_eq.beq_iff q p))
  | inr e ↦ rw (e) (contains-snoc p q perms)
]

pub contains-add_action_perms :
    (p : Permission) (cfg : ActionConfig) (perms : List Permission)
    → contains (add_action_perms cfg perms) p ≡ (contains perms p || needs p cfg)
unfolding add_action_perms needs
contains-add_action_perms p (ActionConfig.run_command program args capture) perms =
    contains-add p Permission.run_command perms ∙ ground arith
contains-add_action_perms p (ActionConfig.simulate_input sequence) perms =
    contains-add p Permission.input_simulation perms ∙ ground arith
contains-add_action_perms p (ActionConfig.run_script lang source) perms =
    contains-add p Permission.script_execution perms ∙ ground arith
contains-add_action_perms p (ActionConfig.http_request method url body) perms =
    contains-add p Permission.network perms ∙ ground arith
contains-add_action_perms p (ActionConfig.interact target op OnNoBackground.degrade) perms =
    contains-add p Permission.foreground_takeover (add (target_permission target) perms)
    ∙ rw contains-add (ground arith)
contains-add_action_perms p (ActionConfig.interact target op OnNoBackground.fail) perms =
    contains-add p (target_permission target) perms ∙ ground arith
contains-add_action_perms p (ActionConfig.interact target op OnNoBackground.queue) perms =
    contains-add p (target_permission target) perms ∙ ground arith
contains-add_action_perms p _ perms = ground arith

mutual
  unfolding collect_workflow_perms node_needs

  contains-collect :
      (p : Permission) (n : WorkflowNode) (perms : List Permission)
      → contains (collect_workflow_perms n perms) p ≡ (contains perms p || node_needs p n)
  contains-collect p (WorkflowNode.action cfg) perms = contains-add_action_perms p cfg perms
  contains-collect p (WorkflowNode.seq nodes) perms = contains-collect_children p nodes perms
  contains-collect p (WorkflowNode.parallel nodes) perms = contains-collect_children p nodes perms
  contains-collect p (WorkflowNode.if_node cond then_ otherwise) perms = ground (
    arith,
    contains-collect_otherwise p otherwise (collect_workflow_perms then_ perms),
    contains-collect p then_ perms,
  )
  contains-collect p (WorkflowNode.while_node cond body max_iter) perms =
      contains-collect p body perms
  contains-collect p (WorkflowNode.for_each items var body) perms = contains-collect p body perms
  contains-collect p (WorkflowNode.retry body times backoff_ms) perms =
      contains-collect p body perms
  contains-collect p (WorkflowNode.timeout body millis) perms = contains-collect p body perms
  contains-collect p (WorkflowNode.wait until) perms = ground arith

  contains-collect_children :
      (p : Permission) (nodes : Nodes) (perms : List Permission)
      → contains (collect_children nodes perms) p ≡ (contains perms p || children_need p nodes)
  contains-collect_children p Nodes.nil perms = ground arith
  contains-collect_children p (Nodes.cons n nodes) perms = ground (
    arith,
    contains-collect_children p nodes (collect_workflow_perms n perms),
    contains-collect p n perms,
  )

  contains-collect_otherwise :
      (p : Permission) (o : Otherwise) (perms : List Permission)
      → contains (collect_otherwise o perms) p ≡ (contains perms p || otherwise_needs p o)
  contains-collect_otherwise p Otherwise.absent perms = ground arith
  contains-collect_otherwise p (Otherwise.present n) perms = contains-collect p n perms

-- The aggregate of a workflow holds a permission exactly when some action of the tree needs it, in
-- whatever branch the action stands.
pub aggregate_from_workflow-exact :
    (p : Permission) (n : WorkflowNode)
    → contains (aggregate_from_workflow n).permissions p ≡ node_needs p n
unfolding aggregate_from_workflow contains
aggregate_from_workflow-exact p n = contains-collect p n []

aggregate_from-children :
    (actions : List ActionConfig) (perms : List Permission)
    → aggregate_from actions perms ≡ collect_children (from_actions actions) perms
unfolding aggregate_from collect_workflow_perms from_actions
aggregate_from-children [] perms = refl
aggregate_from-children (a ∷ actions) perms =
    aggregate_from-children actions (add_action_perms a perms)

-- For a macro with no workflow tree, aggregating its flat action list and aggregating the tree that
-- the engine runs for it give the same list in the same order.
pub aggregate_from_configs-root :
    (m : Macro)
    → m.workflow ≡ none
    → aggregate_from_configs m.actions ≡ aggregate_from_workflow (root_workflow m)
unfolding aggregate_from_configs aggregate_from_workflow root_workflow
aggregate_from_configs-root m e =
    rw (e, root_workflow) (ap wrap (aggregate_from-children m.actions []))
  where
    wrap : List Permission → PermissionSet
    wrap perms = record { permissions = perms }
