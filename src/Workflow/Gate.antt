-- ===== src/Workflow/Gate.antt =====
-- No action runs without its permissions.
use ko_rkuma.Prelude.{◌≡◌, refl, none, Option-cases, inl, inr}
use ko_rkuma.Domain.{ActionConfig, WorkflowNode}
use ko_rkuma.Context.{Action, ExecContext, Shared}
use ko_rkuma.Registry.{Registry, build_action}
use ko_rkuma.Workflow.{Runtime, find_missing, interfere, perform, run_action, run_workflow}
use ko_rkuma.Workflow.Same.{Same}
use ko_rkuma.Workflow.Agree.{SameConstraints, run_node-Same}
use ko_rkuma.Workflow.DryRun.{Related, Related-cases}

-- The same name and the same required permissions, and the same behaviour in every context that
-- grants all of these.
pub record SameWhenGranted (a b : Action) : Type 0 where
  pub same_id : a.id ≡ b.id
  pub same_permissions : a.required_permissions.permissions ≡ b.required_permissions.permissions
  pub same_execute :
      (ctx : ExecContext) (sh : Shared)
      → find_missing ctx a.required_permissions.permissions ≡ none
      → a.execute ctx sh ≡ b.execute ctx sh

perform-gated :
    (rt : Runtime) (a b : Action) (ctx : ExecContext) (sh : Shared)
    → SameWhenGranted a b
    → perform rt a ctx sh ≡ perform rt b ctx sh
unfolding perform
perform-gated rt a b ctx sh same =
    rw (← same.same_permissions, perform)
      (elim (Option-cases (find_missing ctx a.required_permissions.permissions)) [
        | inl e ↦ rw (e, perform) (rw (same.same_execute ctx (interfere rt sh) e))
        | inr (p, e) ↦ rw (e, perform)
      ])

run_action-gated :
    (rt : Runtime) (reg reg' : Registry) (cfg : ActionConfig)
    → Related SameWhenGranted (build_action reg cfg) (build_action reg' cfg)
    → Same (λ _. Unit) (run_action rt reg cfg) (run_action rt reg' cfg)
unfolding run_action
run_action-gated rt reg reg' cfg related = record {
  at = λ ctx sh _. elim (Related-cases (build_action reg cfg) (build_action reg' cfg) related) [
    | inl (a, b, e, e', same) ↦
        rw (e, e', same.same_id, perform-gated rt a b ctx sh same, run_action) (refl, tt)
    | inr (x, e, e') ↦ rw (e, e', run_action) (refl, tt)
  ];
}

-- A run depends on what an action does only in contexts that grant every permission which the
-- action requires: two registries with the same constraints, whose actions agree on names,
-- required permissions and their behaviour in such contexts, give the same events, contexts and
-- shared state for every workflow, whatever the actions do where a permission is missing.
pub run_workflow-gated :
    (rt : Runtime) (reg reg' : Registry) (root : WorkflowNode) (ctx : ExecContext) (sh : Shared)
    → SameConstraints reg reg'
    → ((cfg : ActionConfig)
        → Related SameWhenGranted (build_action reg cfg) (build_action reg' cfg))
    → run_workflow rt reg root ctx sh ≡ run_workflow rt reg' root ctx sh
unfolding run_workflow
run_workflow-gated rt reg reg' root ctx sh same related =
    ((run_node-Same same (λ _ _ i. i) rt (λ cfg. run_action-gated rt reg reg' cfg (related cfg))
        root).at
      ctx sh tt).0
