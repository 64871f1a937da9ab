-- ===== src/Workflow/DryRun.antt =====
-- A dry run does not depend on what the actions do.
use ko_rkuma.Prelude.{true, ◌≡◌, refl, sym, ap, ◌⊎◌, ok, err, Result, inl, inr, arith}
use ko_rkuma.Domain.{ActionConfig, RegistryError, WorkflowNode}
use ko_rkuma.Context.{Action, ExecContext, Shared}
use ko_rkuma.Registry.{Registry, build_action}
use ko_rkuma.Workflow.{Runtime, run_action, run_workflow}
use ko_rkuma.Workflow.Same.{Same}
use ko_rkuma.Workflow.Agree.{SameConstraints, run_node-Same}

-- Both registries refuse a configuration with the same error, or both build actions that are
-- related by `R`.
abbrev pub Related :
    (Action → Action → Type 0) → Result RegistryError Action → Result RegistryError Action → Type 0
Related R (ok a) (ok b) = R a b
Related R (err x) (err y) = x ≡ y
Related R _ _ = ⊥

pub Related-cases :
    {R : Action → Action → Type 0} (x y : Result RegistryError Action)
    → Related R x y
    → ((a : Action) × (b : Action) × (x ≡ ok a) × (y ≡ ok b) × R a b)
      ⊎ ((e : RegistryError) × (x ≡ err e) × (y ≡ err e))
Related-cases (ok a) (ok b) r = inl (a, b, refl, refl, r)
Related-cases (ok a) (err y) r = absurd r
Related-cases (err x) (ok b) r = absurd r
Related-cases (err x) (err y) r = inr (x, refl, ap err (sym r))

run_action-dry :
    (rt : Runtime) (reg reg' : Registry) (cfg : ActionConfig)
    → Related (λ a b. a.id ≡ b.id) (build_action reg cfg) (build_action reg' cfg)
    → Same (λ ctx. ctx.dry_run ≡ true) (run_action rt reg cfg) (run_action rt reg' cfg)
unfolding run_action
run_action-dry rt reg reg' cfg related = record {
  at = λ ctx sh dry. elim (Related-cases (build_action reg cfg) (build_action reg' cfg) related) [
    | inl (a, b, e, e', same_id) ↦ rw (e, e', run_action) (ground (arith, dry, same_id))
    | inr (x, e, e') ↦ rw (e, e', run_action) (refl, dry)
  ];
}

-- A dry run is the same with any two registries that build the same constraints and actions with
-- the same names: what the actions would do, which permissions they require and which resources
-- they lock has no effect on the events, on the locals or on the shared state.
pub run_workflow-dry :
    (rt : Runtime) (reg reg' : Registry) (root : WorkflowNode) (ctx : ExecContext) (sh : Shared)
    → SameConstraints reg reg'
    → ((cfg : ActionConfig)
        → Related (λ a b. a.id ≡ b.id) (build_action reg cfg) (build_action reg' cfg))
    → ctx.dry_run ≡ true
    → run_workflow rt reg root ctx sh ≡ run_workflow rt reg' root ctx sh
unfolding run_workflow
run_workflow-dry rt reg reg' root ctx sh same related dry =
    ((run_node-Same same (λ _ _ i. i) rt (λ cfg. run_action-dry rt reg reg' cfg (related cfg))
        root).at
      ctx sh dry).0
