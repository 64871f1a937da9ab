-- ===== src/Editor/Steps.antt =====
-- crates/app/src/tree_model.rs: what it appends to a workflow tree, and the default actions. The rows
-- and the other edits of a workflow tree stand in the children.
pub mod Rows
pub mod Positions
pub mod Replace
pub mod Loops
pub mod Delete
pub mod Move
pub mod Grants
use ko_rkuma.Prelude.{String, Bool, false, [], none, ◌==◌, string_eq, if◌then◌else◌}
use ko_rkuma.Domain.{
  Value, int, pos, VarScope, ScriptLang, TargetSelector, UiOp, OnNoBackground, ActionConfig,
  ConstraintExpr, WorkflowNode, Nodes, Otherwise,
}

unfoldable pub default_action_config : String → ActionConfig
default_action_config action_type =
    if action_type == "Notify"
    then ActionConfig.notify "Notification" ""
    else if action_type == "RunCommand"
    then ActionConfig.run_command "echo" [] false
    else if action_type == "Delay"
    then ActionConfig.delay 1000
    else if action_type == "RunScript"
    then ActionConfig.run_script ScriptLang.rhai "// your script here"
    else if action_type == "SimulateInput"
    then ActionConfig.simulate_input []
    else if action_type == "SetVariable"
    then ActionConfig.set_variable VarScope.global "var" (Value.int (pos 0))
    else if action_type == "HttpRequest"
    then ActionConfig.http_request "GET" "https://example.com" none
    else if action_type == "Interact"
    then ActionConfig.interact TargetSelector.foreground (UiOp.click "") OnNoBackground.degrade
    else ActionConfig.delay 0

-- `children.push(node)`
unfoldable pub push_node : WorkflowNode → Nodes → Nodes
push_node node Nodes.nil = Nodes.cons node Nodes.nil
push_node node (Nodes.cons n nodes) = Nodes.cons n (push_node node nodes)

-- The `match` that the three functions below share.
unfoldable pub append_step : WorkflowNode → WorkflowNode → WorkflowNode
unfolding push_node
append_step node (WorkflowNode.seq children) = WorkflowNode.seq (push_node node children)
append_step node other = WorkflowNode.seq (Nodes.cons other (Nodes.cons node Nodes.nil))

unfoldable pub add_workflow_action : WorkflowNode → ActionConfig → WorkflowNode
unfolding append_step
add_workflow_action root cfg = append_step (WorkflowNode.action cfg) root

unfoldable pub add_workflow_if : WorkflowNode → WorkflowNode
unfolding append_step
add_workflow_if root =
    append_step
      (WorkflowNode.if_node ConstraintExpr.always (WorkflowNode.seq Nodes.nil) Otherwise.absent)
      root

unfoldable pub add_workflow_parallel : WorkflowNode → WorkflowNode
unfolding append_step
add_workflow_parallel root =
    append_step
      (WorkflowNode.parallel (
        Nodes.cons (WorkflowNode.seq Nodes.nil)
          (Nodes.cons (WorkflowNode.seq Nodes.nil) Nodes.nil)))
      root
