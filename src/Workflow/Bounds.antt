-- ===== src/Workflow/Bounds.antt =====
-- How many events a workflow can send.
use ko_rkuma.Prelude.{ℕ, max, ◌+◌, ◌*◌, ◌≤◌, length, length-append, arith, string_eq}
use ko_rkuma.Domain.{WorkflowNode, Nodes, Otherwise}
use ko_rkuma.Context.{ExecContext, Shared, fork}
use ko_rkuma.Registry.{Registry}
use ko_rkuma.Workflow.{
  Flow, Runtime, isolated, join_flow, run_node, run_seq, run_otherwise, run_branches, run_workflow,
}
use ko_rkuma.Workflow.AtMost.{
  items_in, AtMost, AtMost-done, AtMost-and_then, AtMost-if_cancelled, AtMost-retry_loop,
  AtMost-if_step, AtMost-while_loop, AtMost-for_each_step, AtMost-timeout_step, AtMost-wait_step,
  AtMost-run_action,
}

-- A bound by the shape of the tree alone: an action sends one event at most, a condition that
-- cannot be evaluated one, a body at most its own bound in each round.
unfoldable mutual
  unfolding items_in

  pub max_events : WorkflowNode → ℕ
  max_events (WorkflowNode.action cfg) = 1
  max_events (WorkflowNode.seq nodes) = max_events_all nodes
  max_events (WorkflowNode.parallel nodes) = max_events_all nodes
  max_events (WorkflowNode.if_node cond then_ otherwise) =
      max 1 (max (max_events then_) (max_events_else otherwise))
  max_events (WorkflowNode.while_node cond body max_iter) = max_iter * max_events body + 1
  max_events (WorkflowNode.for_each items var body) = items_in items * max_events body
  max_events (WorkflowNode.retry body times backoff_ms) = max times 1 * max_events body
  max_events (WorkflowNode.timeout body millis) = max 1 (max_events body)
  max_events (WorkflowNode.wait until) = 0

  pub max_events_all : Nodes → ℕ
  max_events_all Nodes.nil = 0
  max_events_all (Nodes.cons n nodes) = max_events n + max_events_all nodes

  pub max_events_else : Otherwise → ℕ
  max_events_else Otherwise.absent = 0
  max_events_else (Otherwise.present n) = max_events n

module _ (rt : Runtime) (reg : Registry) where
  mutual
    unfolding run_node max_events fork isolated

    node_AtMost : (n : WorkflowNode) → AtMost (max_events n) (run_node rt reg n)
    node_AtMost (WorkflowNode.action cfg) =
        AtMost-if_cancelled rt Flow.stop (AtMost-run_action rt reg cfg)
    node_AtMost (WorkflowNode.seq nodes) = AtMost-if_cancelled rt Flow.stop (seq_AtMost nodes)
    node_AtMost (WorkflowNode.parallel nodes) =
        AtMost-if_cancelled rt Flow.stop {s = isolated (run_branches rt reg nodes Flow.continue)}
          (record { at = (branches_AtMost nodes Flow.continue).at })
    node_AtMost (WorkflowNode.if_node cond then_ otherwise) =
        AtMost-if_cancelled rt Flow.stop
          (AtMost-if_step reg cond (node_AtMost then_) (otherwise_AtMost otherwise))
    node_AtMost (WorkflowNode.while_node cond body max_iter) =
        AtMost-if_cancelled rt Flow.stop (AtMost-while_loop rt reg max_iter cond (node_AtMost body))
    node_AtMost (WorkflowNode.for_each items var body) =
        AtMost-if_cancelled rt Flow.stop (AtMost-for_each_step rt items var (node_AtMost body))
    node_AtMost (WorkflowNode.retry body times backoff_ms) =
        AtMost-if_cancelled rt Flow.stop
          (AtMost-retry_loop rt (max times 1) backoff_ms (node_AtMost body))
    node_AtMost (WorkflowNode.timeout body millis) =
        AtMost-if_cancelled rt Flow.stop (AtMost-timeout_step rt millis (node_AtMost body))
    node_AtMost (WorkflowNode.wait until) =
        AtMost-if_cancelled rt Flow.stop (AtMost-wait_step rt until)

    seq_AtMost : (nodes : Nodes) → AtMost (max_events_all nodes) (run_seq rt reg nodes)
    seq_AtMost Nodes.nil = AtMost-done 0 Flow.continue
    seq_AtMost (Nodes.cons n nodes) = AtMost-and_then (node_AtMost n) (seq_AtMost nodes)

    otherwise_AtMost : (o : Otherwise) → AtMost (max_events_else o) (run_otherwise rt reg o)
    otherwise_AtMost Otherwise.absent = AtMost-done 0 Flow.continue
    otherwise_AtMost (Otherwise.present n) = node_AtMost n

    branches_AtMost :
        (nodes : Nodes) (outcome : Flow)
        → AtMost (max_events_all nodes) (run_branches rt reg nodes outcome)
    branches_AtMost Nodes.nil outcome = AtMost-done 0 outcome
    branches_AtMost (Nodes.cons n nodes) outcome = record {
      at = λ ctx sh.
          let r = run_node rt reg n (fork ctx) sh in
          let rest = run_branches rt reg nodes (join_flow r.flow outcome) ctx r.shared in
          omega (
            arith,
            (node_AtMost n).at (fork ctx) sh,
            (branches_AtMost nodes (join_flow r.flow outcome)).at ctx r.shared,
            length-append r.events rest.events,
          );
    }

-- A workflow sends no more events than its tree allows: one for an action, the sum over sequences
-- and branches, `max_iter` rounds of a `While` and one more for its condition, the bound of the
-- body for each item of a `ForEach` and each of the `max(times, 1)` attempts of a `Retry`.
pub run_workflow-length :
    (rt : Runtime) (reg : Registry) (root : WorkflowNode) (ctx : ExecContext) (sh : Shared)
    → length (run_workflow rt reg root ctx sh).events ≤ max_events root
unfolding run_workflow
run_workflow-length rt reg root ctx sh = (node_AtMost rt reg root).at ctx sh
