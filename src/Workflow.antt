-- ===== src/Workflow.antt =====
-- crates/core/src/workflow.rs: the interpreter of the workflow tree. The names of Steps are passed
-- on, and what the interpreter guarantees stands in the other children.
mod Steps
pub mod Every
pub mod Sound
pub mod ActionRule
pub mod Tags
pub mod Grants
pub mod Same
pub mod Agree
pub mod DryRun
pub mod Gate
pub mod Loud
pub mod Reports
pub mod AtMost
pub mod Bounds
pub use Steps.{Flow, Ran, Step, Runtime}
unfoldable pub use Steps.{
  interfere, done, error_event, after, and_then, find_missing, finish, if_cancelled, perform,
  log_dry_run, run_action, eval_condition, if_step, while_round, while_loop, bind_item,
  for_each_loop, for_each_step, backoff, attempt, retry_loop, timeout_step, wait_step, isolated,
  join_flow,
}
use ko_rkuma.Prelude.{max, List, [], ◌++◌}
use ko_rkuma.Domain.{EngineEvent, WorkflowNode, Nodes, Otherwise}
use ko_rkuma.Context.{ExecContext, Shared, fork}
use ko_rkuma.Registry.{Registry}

module _ (rt : Runtime) (reg : Registry) where
  unfoldable mutual
    unfolding if_cancelled run_action if_step while_loop for_each_step retry_loop timeout_step
        wait_step and_then isolated join_flow fork

    pub run_node : WorkflowNode → Step
    run_node (WorkflowNode.action cfg) = if_cancelled rt Flow.stop (run_action rt reg cfg)
    run_node (WorkflowNode.seq nodes) = if_cancelled rt Flow.stop (run_seq nodes)
    run_node (WorkflowNode.parallel nodes) =
        if_cancelled rt Flow.stop (isolated (run_branches nodes Flow.continue))
    run_node (WorkflowNode.if_node cond then_ otherwise) =
        if_cancelled rt Flow.stop (if_step reg cond (run_node then_) (run_otherwise otherwise))
    run_node (WorkflowNode.while_node cond body max_iter) =
        if_cancelled rt Flow.stop (while_loop rt reg max_iter cond (run_node body))
    run_node (WorkflowNode.for_each items var body) =
        if_cancelled rt Flow.stop (for_each_step rt items var (run_node body))
    run_node (WorkflowNode.retry body times backoff_ms) =
        if_cancelled rt Flow.stop (retry_loop rt (max times 1) backoff_ms (run_node body))
    run_node (WorkflowNode.timeout body millis) =
        if_cancelled rt Flow.stop (timeout_step rt millis (run_node body))
    run_node (WorkflowNode.wait until) = if_cancelled rt Flow.stop (wait_step rt until)

    pub run_seq : Nodes → Step
    run_seq Nodes.nil = done Flow.continue []
    run_seq (Nodes.cons n nodes) = and_then (run_node n) (run_seq nodes)

    pub run_otherwise : Otherwise → Step
    run_otherwise Otherwise.absent = done Flow.continue []
    run_otherwise (Otherwise.present n) = run_node n

    -- The branches in the order of their results. `outcome` is what the branches before say.
    pub run_branches : Nodes → Flow → Step
    run_branches Nodes.nil outcome ctx sh = done outcome [] ctx sh
    run_branches (Nodes.cons n nodes) outcome ctx sh =
        let r = run_node n (fork ctx) sh in
        after r.events (run_branches nodes (join_flow r.flow outcome) ctx r.shared)

unfoldable pub run_workflow : Runtime → Registry → WorkflowNode → ExecContext → Shared → Ran
run_workflow rt reg root ctx sh = run_node rt reg root ctx sh
