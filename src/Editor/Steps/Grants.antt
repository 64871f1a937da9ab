-- ===== src/Editor/Steps/Grants.antt =====
-- What appending to a workflow tree does to the permissions that the tree needs.
use ko_rkuma.Prelude.{◌||◌, ◌≡◌, arith}
use ko_rkuma.Domain.{ActionConfig, Permission, permission_eq, WorkflowNode, Nodes}
use ko_rkuma.Prelude.{contains}
use ko_rkuma.Permission.{aggregate_from_workflow}
use ko_rkuma.Permission.Exact.{needs, node_needs, children_need, aggregate_from_workflow-exact}
use ko_rkuma.Editor.Steps.{push_node, append_step, add_workflow_action}

need-push_node :
    (p : Permission) (node : WorkflowNode) (nodes : Nodes)
    → children_need p (push_node node nodes) ≡ (children_need p nodes || node_needs p node)
unfolding push_node node_needs
need-push_node p node Nodes.nil = ground arith
need-push_node p node (Nodes.cons n nodes) = ground (arith, need-push_node p node nodes)

need-append_step :
    (p : Permission) (node root : WorkflowNode)
    → node_needs p (append_step node root) ≡ (node_needs p root || node_needs p node)
unfolding append_step node_needs
need-append_step p node (WorkflowNode.seq nodes) = need-push_node p node nodes
need-append_step p node (WorkflowNode.action cfg) = ground arith
need-append_step p node (WorkflowNode.parallel nodes) = ground arith
need-append_step p node (WorkflowNode.if_node cond then_ otherwise) = ground arith
need-append_step p node (WorkflowNode.while_node cond body max_iter) = ground arith
need-append_step p node (WorkflowNode.for_each items var body) = ground arith
need-append_step p node (WorkflowNode.retry body times backoff_ms) = ground arith
need-append_step p node (WorkflowNode.timeout body millis) = ground arith
need-append_step p node (WorkflowNode.wait until) = ground arith

-- Appending an action to a workflow adds exactly the permissions that the action needs to those
-- which the aggregation finds for the tree.
pub aggregate_from_workflow-add_workflow_action :
    (p : Permission) (root : WorkflowNode) (cfg : ActionConfig)
    → contains (aggregate_from_workflow (add_workflow_action root cfg)).permissions p
      ≡ (contains (aggregate_from_workflow root).permissions p || needs p cfg)
unfolding add_workflow_action node_needs
aggregate_from_workflow-add_workflow_action p root cfg = ground (
  arith,
  aggregate_from_workflow-exact p (append_step (WorkflowNode.action cfg) root),
  aggregate_from_workflow-exact p root,
  need-append_step p (WorkflowNode.action cfg) root,
)
