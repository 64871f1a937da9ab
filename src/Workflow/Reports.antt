-- ===== src/Workflow/Reports.antt =====
-- A workflow that fails says so.
use ko_rkuma.Prelude.{
  ◌≡◌, refl, ◌⊎◌, inl, inr, Some, Some-append_left, Some-append_right, string_eq,
}
use ko_rkuma.Domain.{WorkflowNode, Nodes, Otherwise}
use ko_rkuma.Context.{ExecContext, Shared, fork}
use ko_rkuma.Registry.{Registry}
use ko_rkuma.Workflow.{
  Flow, Runtime, isolated, join_flow, run_node, run_seq, run_otherwise, run_branches, run_workflow,
}
use ko_rkuma.Workflow.Loud.{
  IsError, Loud, Loud-done, Loud-and_then, Loud-if_cancelled, Loud-attempts, Loud-if_step,
  Loud-while_loop, Loud-for_each_step, Loud-timeout_step, Loud-wait_step, Loud-run_action,
}

join_flow-failed :
    (flow outcome : Flow)
    → join_flow flow outcome ≡ Flow.failed
    → (flow ≡ Flow.failed) ⊎ (outcome ≡ Flow.failed)
unfolding join_flow
join_flow-failed Flow.failed outcome e = inl refl
join_flow-failed Flow.stop Flow.failed e = inr refl
join_flow-failed Flow.stop Flow.stop e = cc
join_flow-failed Flow.stop Flow.continue e = cc
join_flow-failed Flow.continue outcome e = inr e

module _ (rt : Runtime) (reg : Registry) where
  mutual
    unfolding run_node fork isolated

    node_Loud : (n : WorkflowNode) → Loud (run_node rt reg n)
    node_Loud (WorkflowNode.action cfg) =
        Loud-if_cancelled rt Flow.stop (λ e. cc) (Loud-run_action rt reg cfg)
    node_Loud (WorkflowNode.seq nodes) = Loud-if_cancelled rt Flow.stop (λ e. cc) (seq_Loud nodes)
    node_Loud (WorkflowNode.parallel nodes) =
        Loud-if_cancelled rt Flow.stop {s = isolated (run_branches rt reg nodes Flow.continue)}
          (λ e. cc)
          (record {
            at = λ ctx sh f. elim (branches_Loud nodes Flow.continue ctx sh f) [
              | inl e ↦ cc
              | inr found ↦ found
            ];
          })
    node_Loud (WorkflowNode.if_node cond then_ otherwise) =
        Loud-if_cancelled rt Flow.stop (λ e. cc)
          (Loud-if_step reg cond (node_Loud then_) (otherwise_Loud otherwise))
    node_Loud (WorkflowNode.while_node cond body max_iter) =
        Loud-if_cancelled rt Flow.stop (λ e. cc)
          (Loud-while_loop rt reg max_iter cond (node_Loud body))
    node_Loud (WorkflowNode.for_each items var body) =
        Loud-if_cancelled rt Flow.stop (λ e. cc) (Loud-for_each_step rt items var (node_Loud body))
    node_Loud (WorkflowNode.retry body times backoff_ms) =
        Loud-if_cancelled rt Flow.stop (λ e. cc)
          (Loud-attempts rt times backoff_ms (node_Loud body))
    node_Loud (WorkflowNode.timeout body millis) =
        Loud-if_cancelled rt Flow.stop (λ e. cc) (Loud-timeout_step rt millis (node_Loud body))
    node_Loud (WorkflowNode.wait until) =
        Loud-if_cancelled rt Flow.stop (λ e. cc) (Loud-wait_step rt until)

    seq_Loud : (nodes : Nodes) → Loud (run_seq rt reg nodes)
    seq_Loud Nodes.nil = Loud-done Flow.continue (λ e. cc)
    seq_Loud (Nodes.cons n nodes) = Loud-and_then (node_Loud n) (seq_Loud nodes)

    otherwise_Loud : (o : Otherwise) → Loud (run_otherwise rt reg o)
    otherwise_Loud Otherwise.absent = Loud-done Flow.continue (λ e. cc)
    otherwise_Loud (Otherwise.present n) = node_Loud n

    branches_Loud :
        (nodes : Nodes) (outcome : Flow) (ctx : ExecContext) (sh : Shared)
        → (run_branches rt reg nodes outcome ctx sh).flow ≡ Flow.failed
        → (outcome ≡ Flow.failed) ⊎ Some IsError (run_branches rt reg nodes outcome ctx sh).events
    branches_Loud Nodes.nil outcome ctx sh f = inl f
    branches_Loud (Nodes.cons n nodes) outcome ctx sh f =
        let r = run_node rt reg n (fork ctx) sh in
        elim (branches_Loud nodes (join_flow r.flow outcome) ctx r.shared f) [
          | inl e ↦ elim (join_flow-failed r.flow outcome e) [
            | inl e' ↦ inr (Some-append_left IsError r.events _ ((node_Loud n).at (fork ctx) sh e'))
            | inr e' ↦ inl e'
          ]
          | inr found ↦ inr (Some-append_right IsError r.events _ found)
        ]

-- A workflow never fails in silence: where its flow is `Failed`, an error event is among those that
-- it returns, in whatever part of the tree the failure arose.
pub run_workflow-reports :
    (rt : Runtime) (reg : Registry) (root : WorkflowNode) (ctx : ExecContext) (sh : Shared)
    → (run_workflow rt reg root ctx sh).flow ≡ Flow.failed
    → Some IsError (run_workflow rt reg root ctx sh).events
unfolding run_workflow
run_workflow-reports rt reg root ctx sh f = (node_Loud rt reg root).at ctx sh f
