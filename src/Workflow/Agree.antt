-- ===== src/Workflow/Agree.antt =====
-- Two registries that differ only where a run does not look give the same run.
use ko_rkuma.Prelude.{ℕ, zero, suc, max, ◌≡◌, refl, string_eq, Result-cases, inl, inr, arith}
use ko_rkuma.Domain.{
  ActionConfig, ConstraintConfig, ConstraintExpr, Exprs, WorkflowNode, Nodes, Otherwise,
}
use ko_rkuma.Context.{EvalContext, ExecContext, Shared, fork}
use ko_rkuma.Registry.{Registry, build_constraint}
use ko_rkuma.Registry.Evaluate.{evaluate, evaluate_all, evaluate_any, evaluate_leaf}
use ko_rkuma.Workflow.{
  Flow, Step, Runtime, eval_condition, run_action, if_step, while_round, while_loop, join_flow,
  run_node, run_seq, run_otherwise, run_branches,
}
use ko_rkuma.Workflow.Same.{
  Same, IgnoresLocals, Same-refl_done, Same-and_then, Same-if_cancelled, Same-retry_loop,
  Same-isolated, Same-wait_step, Same-for_each_step, Same-timeout_step,
}

-- The two registries build the same constraints.
pub record SameConstraints (reg reg' : Registry) : Type 0 where
  pub at : (c : ConstraintConfig) → build_constraint reg c ≡ build_constraint reg' c

module _ {reg reg' : Registry} (same : SameConstraints reg reg') where
  mutual
    unfolding evaluate

    evaluate_same :
        (ctx : EvalContext) (e : ConstraintExpr) → evaluate ctx reg e ≡ evaluate ctx reg' e
    evaluate_same ctx ConstraintExpr.always = refl
    evaluate_same ctx (ConstraintExpr.leaf c) = rw (same.at c, evaluate_leaf)
    evaluate_same ctx (ConstraintExpr.not_ e) = rw (evaluate_same ctx e)
    evaluate_same ctx (ConstraintExpr.all exprs) = evaluate_same_all ctx exprs
    evaluate_same ctx (ConstraintExpr.any exprs) = evaluate_same_any ctx exprs

    evaluate_same_all :
        (ctx : EvalContext) (es : Exprs) → evaluate_all ctx reg es ≡ evaluate_all ctx reg' es
    evaluate_same_all ctx Exprs.nil = refl
    evaluate_same_all ctx (Exprs.cons e es) =
        ground (arith, evaluate_same ctx e, evaluate_same_all ctx es)

    evaluate_same_any :
        (ctx : EvalContext) (es : Exprs) → evaluate_any ctx reg es ≡ evaluate_any ctx reg' es
    evaluate_same_any ctx Exprs.nil = refl
    evaluate_same_any ctx (Exprs.cons e es) =
        ground (arith, evaluate_same ctx e, evaluate_same_any ctx es)

  eval_condition_same :
      (cond : ConstraintExpr) (ctx : ExecContext) (sh : Shared)
      → eval_condition reg cond ctx sh ≡ eval_condition reg' cond ctx sh
  unfolding eval_condition
  eval_condition_same cond ctx sh = evaluate_same _ cond

  module _ {I : ExecContext → Type 0} where
    Same-if_step :
        (cond : ConstraintExpr) {s s' t t' : Step}
        → Same I s s'
        → Same I t t'
        → Same I (if_step reg cond s t) (if_step reg' cond s' t')
    unfolding if_step
    Same-if_step cond es et = record {
      at = λ ctx sh i.
          rw (← eval_condition_same cond ctx sh, if_step)
            (elim (Result-cases (eval_condition reg cond ctx sh)) [
              | inl (b, e) ↦ rw (e, if_step) (ground (arith, es.at ctx sh i, et.at ctx sh i))
              | inr (x, e) ↦ rw (e, if_step) (refl, i)
            ]);
    }

    Same-while_round :
        (cond : ConstraintExpr) {s s' : Step}
        → Same I s s'
        → Same I (while_round reg cond s) (while_round reg' cond s')
    unfolding while_round
    Same-while_round cond es = record {
      at = λ ctx sh i.
          rw (← eval_condition_same cond ctx sh, while_round)
            (elim (Result-cases (eval_condition reg cond ctx sh)) [
              | inl (b, e) ↦ rw (e, while_round) (ground (arith, es.at ctx sh i))
              | inr (x, e) ↦ rw (e, while_round) (refl, i)
            ]);
    }

    Same-while_loop :
        (rt : Runtime) (left : ℕ) (cond : ConstraintExpr) {s s' : Step}
        → Same I s s'
        → Same I (while_loop rt reg left cond s) (while_loop rt reg' left cond s')
    unfolding while_loop
    Same-while_loop rt zero cond es = Same-refl_done Flow.continue
    Same-while_loop rt (suc left) cond es =
        Same-if_cancelled rt Flow.continue
          (Same-while_round cond (Same-and_then es (Same-while_loop rt left cond es)))

-- A run is the same with both registries, if every action is.
module _ {reg reg' : Registry} (same : SameConstraints reg reg') {I : ExecContext → Type 0}
    (rebind : IgnoresLocals I) (rt : Runtime)
    (actions : (cfg : ActionConfig) → Same I (run_action rt reg cfg) (run_action rt reg' cfg)) where
  mutual
    unfolding run_node fork

    node-Same : (n : WorkflowNode) → Same I (run_node rt reg n) (run_node rt reg' n)
    node-Same (WorkflowNode.action cfg) = Same-if_cancelled rt Flow.stop (actions cfg)
    node-Same (WorkflowNode.seq nodes) = Same-if_cancelled rt Flow.stop (seq-Same nodes)
    node-Same (WorkflowNode.parallel nodes) =
        Same-if_cancelled rt Flow.stop (Same-isolated (branches-Same nodes Flow.continue))
    node-Same (WorkflowNode.if_node cond then_ otherwise) =
        Same-if_cancelled rt Flow.stop
          (Same-if_step same cond (node-Same then_) (otherwise-Same otherwise))
    node-Same (WorkflowNode.while_node cond body max_iter) =
        Same-if_cancelled rt Flow.stop (Same-while_loop same rt max_iter cond (node-Same body))
    node-Same (WorkflowNode.for_each items var body) =
        Same-if_cancelled rt Flow.stop (Same-for_each_step rebind rt items var (node-Same body))
    node-Same (WorkflowNode.retry body times backoff_ms) =
        Same-if_cancelled rt Flow.stop
          (Same-retry_loop rt (max times 1) backoff_ms (node-Same body))
    node-Same (WorkflowNode.timeout body millis) =
        Same-if_cancelled rt Flow.stop (Same-timeout_step rebind rt millis (node-Same body))
    node-Same (WorkflowNode.wait until) = Same-if_cancelled rt Flow.stop (Same-wait_step rt until)

    seq-Same : (nodes : Nodes) → Same I (run_seq rt reg nodes) (run_seq rt reg' nodes)
    seq-Same Nodes.nil = Same-refl_done Flow.continue
    seq-Same (Nodes.cons n nodes) = Same-and_then (node-Same n) (seq-Same nodes)

    otherwise-Same : (o : Otherwise) → Same I (run_otherwise rt reg o) (run_otherwise rt reg' o)
    otherwise-Same Otherwise.absent = Same-refl_done Flow.continue
    otherwise-Same (Otherwise.present n) = node-Same n

    branches-Same :
        (nodes : Nodes) (outcome : Flow)
        → Same I (run_branches rt reg nodes outcome) (run_branches rt reg' nodes outcome)
    branches-Same Nodes.nil outcome = Same-refl_done outcome
    branches-Same (Nodes.cons n nodes) outcome = record {
      at = λ ctx sh i.
          let r = run_node rt reg n (fork ctx) sh in
          let (e, _) = (node-Same n).at ctx sh i in
          let (e', kept) = (branches-Same nodes (join_flow r.flow outcome)).at ctx r.shared i in
          (rw (← e, run_branches) (rw e'), kept);
    }

  pub run_node-Same : (n : WorkflowNode) → Same I (run_node rt reg n) (run_node rt reg' n)
  run_node-Same n = node-Same n
