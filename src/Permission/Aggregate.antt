-- ===== src/Permission/Aggregate.antt =====
-- crates/core/src/permission.rs: `add_action_perms`, `collect_workflow_perms` and the two entry
-- points. `&mut Vec<Permission>` is passed in and returned.
use ko_rkuma.Prelude.{List, [], ◌∷◌, ◌++◌, contains, if◌then◌else◌}
use ko_rkuma.Domain.{
  Permission, permission_eq, ActionConfig, TargetSelector, OnNoBackground, WorkflowNode, Nodes,
  Otherwise, PermissionSet,
}

-- The closure `add`.
unfoldable pub add : Permission → List Permission → List Permission
add p perms = if contains perms p then perms else perms ++ (p ∷ [])

unfoldable pub target_permission : TargetSelector → Permission
target_permission (TargetSelector.browser_tab url_pattern) = Permission.browser_control
target_permission _ = Permission.window_interaction

add_takeover : OnNoBackground → List Permission → List Permission
unfolding add
add_takeover OnNoBackground.degrade perms = add Permission.foreground_takeover perms
add_takeover _ perms = perms

unfoldable pub add_action_perms : ActionConfig → List Permission → List Permission
unfolding add target_permission add_takeover
add_action_perms (ActionConfig.run_command program args capture) perms =
    add Permission.run_command perms
add_action_perms (ActionConfig.simulate_input sequence) perms =
    add Permission.input_simulation perms
add_action_perms (ActionConfig.run_script lang source) perms = add Permission.script_execution perms
add_action_perms (ActionConfig.http_request method url body) perms = add Permission.network perms
add_action_perms (ActionConfig.interact target op policy) perms =
    add_takeover policy (add (target_permission target) perms)
add_action_perms _ perms = perms

unfoldable pub aggregate_from : List ActionConfig → List Permission → List Permission
unfolding add_action_perms
aggregate_from [] perms = perms
aggregate_from (a ∷ actions) perms = aggregate_from actions (add_action_perms a perms)

unfoldable pub aggregate_from_configs : List ActionConfig → PermissionSet
unfolding aggregate_from
aggregate_from_configs actions = record { permissions = aggregate_from actions [] }

unfoldable mutual
  unfolding add_action_perms

  pub collect_workflow_perms : WorkflowNode → List Permission → List Permission
  collect_workflow_perms (WorkflowNode.action a) perms = add_action_perms a perms
  collect_workflow_perms (WorkflowNode.seq children) perms = collect_children children perms
  collect_workflow_perms (WorkflowNode.parallel children) perms = collect_children children perms
  collect_workflow_perms (WorkflowNode.if_node cond then_ otherwise) perms =
      collect_otherwise otherwise (collect_workflow_perms then_ perms)
  collect_workflow_perms (WorkflowNode.while_node cond body max_iter) perms =
      collect_workflow_perms body perms
  collect_workflow_perms (WorkflowNode.for_each items var body) perms =
      collect_workflow_perms body perms
  collect_workflow_perms (WorkflowNode.retry body times backoff_ms) perms =
      collect_workflow_perms body perms
  collect_workflow_perms (WorkflowNode.timeout body millis) perms =
      collect_workflow_perms body perms
  collect_workflow_perms (WorkflowNode.wait until) perms = perms

  pub collect_children : Nodes → List Permission → List Permission
  collect_children Nodes.nil perms = perms
  collect_children (Nodes.cons n children) perms =
      collect_children children (collect_workflow_perms n perms)

  pub collect_otherwise : Otherwise → List Permission → List Permission
  collect_otherwise Otherwise.absent perms = perms
  collect_otherwise (Otherwise.present n) perms = collect_workflow_perms n perms

unfoldable pub aggregate_from_workflow : WorkflowNode → PermissionSet
unfolding collect_workflow_perms
aggregate_from_workflow root = record { permissions = collect_workflow_perms root [] }
