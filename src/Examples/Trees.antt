-- ===== src/Examples/Trees.antt =====
-- The theorems on rows and edits at concrete trees.
use ko_rkuma.Prelude.{
  ◌||◌, true, false, arith, ◌≡◌, refl, String, Option, some, [], contains, count_if, ◌==◌,
  string_eq,
}
use ko_rkuma.Domain.{
  ActionConfig, ConstraintConfig, ConstraintExpr, Exprs, Value, WorkflowNode, Nodes, Otherwise,
  WaitCondition, Permission, permission_eq,
}
use ko_rkuma.Permission.{aggregate_from_workflow}
use ko_rkuma.Permission.Exact.{needs}
use ko_rkuma.Registry.Evaluate.{evaluate}
use ko_rkuma.Editor.Rows.{flatten_constraint}
use ko_rkuma.Editor.Positions.{constraint_subtree_size}
use ko_rkuma.Editor.Replace.{update_constraint_leaf, patched, flatten-update_constraint_leaf}
use ko_rkuma.Editor.Delete.{delete_constraint_at}
use ko_rkuma.Editor.Outside.{evaluate-delete_filled, filled}
use ko_rkuma.Editor.Move.{move_constraint_node, flatten-move_constraint_node}
use ko_rkuma.Editor.Steps.{add_workflow_action}
use ko_rkuma.Editor.Steps.Grants.{aggregate_from_workflow-add_workflow_action}
use ko_rkuma.Editor.Steps.Rows.{flatten_workflow}
use ko_rkuma.Editor.Steps.Replace.{
  no_for_each, update_workflow_action, patched as patched_steps, flatten-update_workflow_action,
}
use ko_rkuma.Editor.Steps.Loops.{loops, loops-update_workflow_action}
use ko_rkuma.Editor.Steps.Move.{move_workflow_node, flatten-move_workflow_node}
use ko_rkuma.Examples.{builtin_reg, tree, assign}
use ko_rkuma.Examples.Edits.{view}

abbrev leaf_text : ConstraintConfig → String
leaf_text (ConstraintConfig.expression dsl) = dsl
leaf_text _ = "other"

abbrev leaf_of : String → Option ConstraintConfig
leaf_of text = some (ConstraintConfig.expression text)

abbrev action_text : ActionConfig → String
action_text (ActionConfig.notify title body) = title
action_text _ = "other"

abbrev action_of : String → Option ActionConfig
action_of text = some (ActionConfig.notify text "")

abbrev leaf : String → ConstraintExpr
leaf text = ConstraintExpr.leaf (ConstraintConfig.expression text)

-- Rows 0 All, 1 Leaf, 2 Any, 3 Leaf, 4 Leaf.
abbrev nested : ConstraintExpr
nested = ConstraintExpr.all (
    Exprs.cons (leaf "a") (
      Exprs.cons (ConstraintExpr.any (Exprs.cons (leaf "b") (Exprs.cons (leaf "c") Exprs.nil)))
        Exprs.nil))

-- A branch, a wait and an action, with no loop over items.
abbrev steps : WorkflowNode
steps = WorkflowNode.seq (
    Nodes.cons
      (WorkflowNode.if_node ConstraintExpr.always (WorkflowNode.action assign)
        (Otherwise.present (WorkflowNode.wait (WaitCondition.duration 5))))
      (Nodes.cons (WorkflowNode.action (ActionConfig.delay 7)) Nodes.nil))

flatten-update_constraint_leaf_example :
    flatten_constraint leaf_text (update_constraint_leaf leaf_of nested 3 "z")
    ≡ patched leaf_text (leaf_of "z") 3 (flatten_constraint leaf_text nested)
flatten-update_constraint_leaf_example =
    flatten-update_constraint_leaf leaf_text leaf_of nested 3 "z"

-- A conjunction of an empty `Any` and a leaf, and a deletion behind it.
abbrev half_built : ConstraintExpr
half_built =
    ConstraintExpr.all (Exprs.cons (ConstraintExpr.any Exprs.nil) (Exprs.cons (leaf "a") Exprs.nil))

evaluate-delete_filled_example :
    evaluate view builtin_reg (delete_constraint_at half_built 9)
    ≡ evaluate view builtin_reg (filled half_built)
unfolding constraint_subtree_size
evaluate-delete_filled_example = evaluate-delete_filled view builtin_reg half_built 9 (omega arith)

flatten-move_constraint_node_example :
    count_if
      (λ row. row.params_json == "b")
      (flatten_constraint leaf_text (move_constraint_node nested 2 true))
    ≡ count_if (λ row. row.params_json == "b") (flatten_constraint leaf_text nested)
flatten-move_constraint_node_example =
    flatten-move_constraint_node leaf_text nested 2 true (λ row. row.params_json == "b")

aggregate_from_workflow-add_workflow_action_example :
    contains
      (aggregate_from_workflow
        (add_workflow_action tree (ActionConfig.run_command "ls" [] true))).permissions
      Permission.run_command
    ≡ (contains (aggregate_from_workflow tree).permissions Permission.run_command
        || needs Permission.run_command (ActionConfig.run_command "ls" [] true))
aggregate_from_workflow-add_workflow_action_example =
    aggregate_from_workflow-add_workflow_action Permission.run_command tree
      (ActionConfig.run_command "ls" [] true)

flatten-update_workflow_action_example :
    flatten_workflow action_text (update_workflow_action action_of steps 3 "z")
    ≡ patched_steps action_text (action_of "z") 3 (flatten_workflow action_text steps)
unfolding no_for_each
flatten-update_workflow_action_example =
    flatten-update_workflow_action action_text action_of steps 3 "z" refl

flatten-move_workflow_node_example :
    count_if
      (λ row. row.kind == "Action")
      (flatten_workflow action_text (move_workflow_node tree 1 false))
    ≡ count_if (λ row. row.kind == "Action") (flatten_workflow action_text tree)
flatten-move_workflow_node_example =
    flatten-move_workflow_node action_text tree 1 false (λ row. row.kind == "Action")

-- A loop, and an action behind it whose row is the fourth.
abbrev looped : WorkflowNode
looped = WorkflowNode.seq (
    Nodes.cons (WorkflowNode.for_each Value.null "x" (WorkflowNode.action assign))
      (Nodes.cons (WorkflowNode.action (ActionConfig.delay 7)) Nodes.nil))

-- Row 2 is the action inside the loop, but an update at position 2 replaces the one behind it.
shifted_test :
    update_workflow_action action_of looped 2 "z"
    ≡ WorkflowNode.seq (
        Nodes.cons
          (WorkflowNode.for_each Value.null "x" (WorkflowNode.action assign))
          (Nodes.cons (WorkflowNode.action (ActionConfig.notify "z" "")) Nodes.nil))
unfolding update_workflow_action
shifted_test = refl

loops-update_workflow_action_example :
    loops (update_workflow_action action_of looped 2 "z") ≡ loops looped
loops-update_workflow_action_example = loops-update_workflow_action action_of looped 2 "z"
