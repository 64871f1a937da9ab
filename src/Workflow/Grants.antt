-- ===== src/Workflow/Grants.antt =====
-- The permission gate against the static aggregation.
use ko_rkuma.Prelude.{
  true, false, ◌≡◌, ap, ◌∙◌, List, [], ◌∷◌, some, ok, All, contains, arith, Bool-cases, inl, inr,
}
use ko_rkuma.Domain.{
  ActionConfig, EngineEvent, Permission, permission_eq, WorkflowNode, Nodes, Otherwise, denied,
}
use ko_rkuma.Permission.{PermissionGrant, allows, from_set, aggregate_from_workflow}
use ko_rkuma.Permission.Exact.{
  needs, node_needs, children_need, otherwise_needs, aggregate_from_workflow-exact,
}
use ko_rkuma.Context.{Action, ExecContext, Shared}
use ko_rkuma.Registry.{Registry, build_action}
use ko_rkuma.Workflow.{Runtime, find_missing, run_workflow}
use ko_rkuma.Workflow.ActionRule.{ActionRule, run_action-Good}
use ko_rkuma.Workflow.Every.{EveryAction, EveryActions, EveryOtherwise, EveryAction-map}
use ko_rkuma.Workflow.Sound.{Frame, run_node-Good}

-- `find` returns a required permission that is not granted.
pub find_missing_lem :
    (ctx : ExecContext) (required : List Permission) (p : Permission)
    → find_missing ctx required ≡ some p
    → (contains required p ≡ true) × (allows ctx.permissions p ≡ false)
unfolding find_missing contains
find_missing_lem ctx [] p e = cc
find_missing_lem ctx (q ∷ required) p e = elim (Bool-cases (allows ctx.permissions q)) [
  | inl held ↦
      let (here, lacks) = find_missing_lem ctx required p (rw (held, find_missing) at e) in
      (ground (arith, here), lacks)
  | inr lacks ↦ ground (arith, lacks, e, permission_eq.beq_iff q p)
]

mutual
  unfolding node_needs EveryAction

  needs_within :
      {P : Permission → Type 0} (n : WorkflowNode)
      → ((p : Permission) → node_needs p n ≡ true → P p)
      → EveryAction (λ cfg. (p : Permission) → needs p cfg ≡ true → P p) n
  needs_within (WorkflowNode.action cfg) h = h
  needs_within (WorkflowNode.seq nodes) h = children_within nodes h
  needs_within (WorkflowNode.parallel nodes) h = children_within nodes h
  needs_within (WorkflowNode.if_node cond then_ otherwise) h = (
    needs_within then_ (λ p e. h p (ground (arith, e))),
    otherwise_within otherwise (λ p e. h p (ground (arith, e))),
  )
  needs_within (WorkflowNode.while_node cond body max_iter) h = needs_within body h
  needs_within (WorkflowNode.for_each items var body) h = needs_within body h
  needs_within (WorkflowNode.retry body times backoff_ms) h = needs_within body h
  needs_within (WorkflowNode.timeout body millis) h = needs_within body h
  needs_within (WorkflowNode.wait until) h = tt

  children_within :
      {P : Permission → Type 0} (nodes : Nodes)
      → ((p : Permission) → children_need p nodes ≡ true → P p)
      → EveryActions (λ cfg. (p : Permission) → needs p cfg ≡ true → P p) nodes
  children_within Nodes.nil h = tt
  children_within (Nodes.cons n nodes) h = (
    needs_within n (λ p e. h p (ground (arith, e))),
    children_within nodes (λ p e. h p (ground (arith, e))),
  )

  otherwise_within :
      {P : Permission → Type 0} (o : Otherwise)
      → ((p : Permission) → otherwise_needs p o ≡ true → P p)
      → EveryOtherwise (λ cfg. (p : Permission) → needs p cfg ≡ true → P p) o
  otherwise_within Otherwise.absent h = tt
  otherwise_within (Otherwise.present n) h = needs_within n h

-- The gate did not refuse an action.
abbrev pub IsNotDenial : EngineEvent → Type 0
IsNotDenial (EngineEvent.error id (denied p)) = ⊥
IsNotDenial _ = Unit

-- Every registered action requires only permissions that the static table lists for its
-- configuration.
abbrev pub IsDeclared : Registry → Type 0
IsDeclared reg =
    (cfg : ActionConfig) (a : Action) (p : Permission)
    → build_action reg cfg ≡ ok a
    → contains a.required_permissions.permissions p ≡ true
    → needs p cfg ≡ true

-- No registered action changes the grant of its context.
abbrev pub KeepsGrant : Registry → Type 0
KeepsGrant reg =
    (cfg : ActionConfig) (a : Action) (ctx : ExecContext) (sh : Shared)
    → build_action reg cfg ≡ ok a
    → (a.execute ctx sh).ctx.permissions ≡ ctx.permissions

module _ (reg : Registry) (declared : IsDeclared reg) (keeps : KeepsGrant reg)
    (grant : PermissionGrant) where
  frame : Frame (λ c. c.permissions ≡ grant) IsNotDenial
  frame = record {
    rebind = λ _ _ i. i;
    on_if = λ _ _ _. tt;
    on_while = λ _ _ _. tt;
    on_timeout = λ _ _ _. tt;
  }

  rule :
      (cfg : ActionConfig)
      → ((p : Permission) → needs p cfg ≡ true → allows grant p ≡ true)
      → ActionRule reg (λ c. c.permissions ≡ grant) IsNotDenial cfg
  rule cfg held = record {
    on_build = λ _ _ _. tt;
    on_dry_run = λ _ _ _. tt;
    on_denied = λ ctx a p built missing i.
        let (required, lacks) = find_missing_lem ctx _ p missing in
        let granted = held p (declared cfg a p built required) in
        let same : allows ctx.permissions p ≡ allows grant p = ap (λ g. allows g p) i in cc;
    on_failed = λ _ _ _. tt;
    on_execute = λ c s a built _ i. keeps cfg a c s built ∙ i;
  }

-- A workflow that runs with the permissions which the static aggregation found for it is never
-- refused by the permission gate, if every registered action requires only what the table of the
-- aggregation lists for its configuration, and no action changes the grant.
pub run_workflow-IsNotDenial :
    (rt : Runtime) (reg : Registry) (root : WorkflowNode) (ctx : ExecContext) (sh : Shared)
    → IsDeclared reg
    → KeepsGrant reg
    → ctx.permissions ≡ from_set (aggregate_from_workflow root)
    → All IsNotDenial (run_workflow rt reg root ctx sh).events
unfolding run_workflow allows
run_workflow-IsNotDenial rt reg root ctx sh declared keeps e =
    let grant = from_set (aggregate_from_workflow root) in
    let every =
      needs_within {P = λ p. allows grant p ≡ true} root
        (λ p needed. aggregate_from_workflow-exact p root ∙ needed) in
    let good =
      EveryAction-map root (λ cfg held. run_action-Good (rule reg declared keeps grant cfg held) rt)
        every in
    ((run_node-Good (frame reg declared keeps grant) rt reg root good).at ctx sh e).0
