-- ===== src/Interact/Action.antt =====
-- crates/interact/src/action.rs: the action that dispatches an operation, and its place behind the
-- permission gate of crates/core/src/workflow.rs. The log is left out.
use Prim.Native.String.{◌++◌ as append}
use ko_rkuma.Prelude.{
  true, ◌≡◌, ◌≢◌, refl, ap, ◌∙◌, String, List, [], ◌∷◌, Option, none, some, Result, ok, err,
  contains, Option-cases, inl, inr, arith,
}
use ko_rkuma.Domain.{
  ActionConfig, ActionError, OnNoBackground, Permission, permission_eq, PermissionSet,
  TargetSelector, UiOp,
}
use ko_rkuma.Context.{ExecContext, Outcome}
use ko_rkuma.Permission.{allows, add_action_perms, target_permission as aggregated_target}
use ko_rkuma.Permission.Exact.{needs, contains-add_action_perms}
use ko_rkuma.Workflow.{find_missing}
use ko_rkuma.Interact.{
  BackendRegistry, BackendError, DispatchError, Invoked, Candidate, Tier, first_at_least,
  collect_candidates, degrade, apply_policy, dispatch, map_backend_error,
}

pub record InteractAction (W : Type 0) : Type 0 where
  pub target : TargetSelector
  pub op : UiOp
  pub on_no_background : OnNoBackground
  pub registry : BackendRegistry W

abbrev pub target_permission : TargetSelector → Permission
target_permission (TargetSelector.browser_tab url_pattern) = Permission.browser_control
target_permission _ = Permission.window_interaction

abbrev pub takeover : OnNoBackground → List Permission
takeover OnNoBackground.degrade = Permission.foreground_takeover ∷ []
takeover OnNoBackground.fail = []
takeover OnNoBackground.queue = []

-- The texts that `thiserror` derives.
abbrev pub backend_text : BackendError → String
backend_text (BackendError.not_found s) = append "target not found: " s
backend_text (BackendError.not_available s) = append "backend not available: " s
backend_text (BackendError.not_supported s) = append "operation not supported: " s
backend_text (BackendError.internal s) = append "internal error: " s

abbrev pub dispatch_to_action_error : DispatchError → ActionError
dispatch_to_action_error (DispatchError.permission_denied msg) = ActionError.permission_denied msg
dispatch_to_action_error DispatchError.no_backend =
    ActionError.failed "no interaction backend available for target"
dispatch_to_action_error DispatchError.queued =
    ActionError.failed "operation queued; retry when target becomes available"
dispatch_to_action_error (DispatchError.backend be) =
    ActionError.failed (append "backend error: " (backend_text be))

abbrev pub to_outcome : Result {0, 0} DispatchError Unit → Result ActionError Outcome
to_outcome (ok u) = ok Outcome.continue
to_outcome (err e) = err (dispatch_to_action_error e)

module _ {W : Type 0} where
  unfoldable pub required_permissions : InteractAction W → PermissionSet
  required_permissions a = record {
    permissions = target_permission a.target ∷ takeover a.on_no_background;
  }

  unfoldable pub execute :
      InteractAction W → ExecContext → W → Invoked W (Result ActionError Outcome)
  execute a ctx w =
      let r = dispatch a.registry a.target a.op a.on_no_background ctx.permissions w in
      record { result = to_outcome r.result; world = r.world }

  -- The factory that `register_actions` adds to the registry of the engine.
  abbrev pub build_interact : BackendRegistry W → ActionConfig → Option (InteractAction W)
  build_interact registry (ActionConfig.interact target op on_no_background) = some (record {
    target = target;
    op = op;
    on_no_background = on_no_background;
    registry = registry;
  })
  build_interact registry _ = none

target_permission-same : (t : TargetSelector) → target_permission t ≡ aggregated_target t
unfolding aggregated_target
target_permission-same TargetSelector.foreground = refl
target_permission-same (TargetSelector.window title regex) = refl
target_permission-same (TargetSelector.process name) = refl
target_permission-same (TargetSelector.browser_tab url) = refl
target_permission-same (TargetSelector.custom provider params) = refl

required-needs :
    (t : TargetSelector) (op : UiOp) (policy : OnNoBackground) (p : Permission)
    → contains (target_permission t ∷ takeover policy) p
      ≡ needs p (ActionConfig.interact t op policy)
unfolding needs contains
required-needs t op OnNoBackground.degrade p =
    ap (λ z. contains (z ∷ Permission.foreground_takeover ∷ []) p) (target_permission-same t)
required-needs t op OnNoBackground.fail p = ap (λ z. contains (z ∷ []) p) (target_permission-same t)
required-needs t op OnNoBackground.queue p =
    ap (λ z. contains (z ∷ []) p) (target_permission-same t)

not_denied :
    (r : Result {0, 0} BackendError Unit) (msg : String)
    → to_outcome (map_backend_error r) ≢ err (ActionError.permission_denied msg)
not_denied (ok u) msg e = cc
not_denied (err x) msg e = cc

-- The gate lets `Degrade` through only with the permission to take the foreground.
gated-takeover :
    (ctx : ExecContext) (p : Permission)
    → find_missing ctx (p ∷ Permission.foreground_takeover ∷ []) ≡ none
    → allows ctx.permissions Permission.foreground_takeover ≡ true
unfolding find_missing
gated-takeover ctx p e = ground (arith, e)

module _ {W : Type 0} (msg : String) (op : UiOp) (ctx : ExecContext) (w : W) where
  abbrev IsPermitted : Invoked W (Result {0, 0} DispatchError Unit) → Type 0
  IsPermitted r = to_outcome r.result ≢ err (ActionError.permission_denied msg)

  degrade-IsPermitted :
      (cs : List (Candidate W))
      → allows ctx.permissions Permission.foreground_takeover ≡ true
      → IsPermitted (degrade cs op ctx.permissions w)
  unfolding degrade
  degrade-IsPermitted cs e = elim (Option-cases (first_at_least Tier.foreground_synthetic cs)) [
    | inl f ↦ rw (e, degrade) (rw (f) (λ h. cc))
    | inr (c, f) ↦ rw (e, degrade) (rw (f) (not_denied (c.of.invoke c.target op w).result msg))
  ]

  policy-IsPermitted :
      (policy : OnNoBackground) (p : Permission) (cs : List (Candidate W))
      → find_missing ctx (p ∷ takeover policy) ≡ none
      → IsPermitted (apply_policy policy cs op ctx.permissions w)
  unfolding apply_policy
  policy-IsPermitted OnNoBackground.fail p cs granted = λ h. cc
  policy-IsPermitted OnNoBackground.queue p cs granted = λ h. cc
  policy-IsPermitted OnNoBackground.degrade p cs granted =
      degrade-IsPermitted cs (gated-takeover ctx p granted)

module _ {W : Type 0} where
  -- The action requires exactly the permissions that the static aggregation collects for its
  -- configuration.
  pub required_permissions-add_action_perms :
      (a : InteractAction W) (p : Permission)
      → contains (required_permissions a).permissions p
        ≡ contains (add_action_perms (ActionConfig.interact a.target a.op a.on_no_background) []) p
  unfolding required_permissions contains
  required_permissions-add_action_perms a p =
      let cfg = ActionConfig.interact a.target a.op a.on_no_background in
      required-needs a.target a.op a.on_no_background p
      ∙ ground (arith, contains-add_action_perms p cfg [])

  -- Behind the permission gate the dispatch never refuses for want of a permission: where nothing is
  -- missing of what the action requires, its result is not `PermissionDenied`.
  pub execute-permitted :
      (a : InteractAction W) (ctx : ExecContext) (w : W) (msg : String)
      → find_missing ctx (required_permissions a).permissions ≡ none
      → (execute a ctx w).result ≢ err (ActionError.permission_denied msg)
  unfolding execute dispatch required_permissions
  execute-permitted a ctx w msg granted =
      let cs = collect_candidates a.registry a.target w in
      elim (Option-cases (first_at_least Tier.background cs)) [
        | inr (c, e) ↦
            rw (e, execute, dispatch) (not_denied (c.of.invoke c.target a.op w).result msg)
        | inl e ↦
            rw (e, execute, dispatch)
              (policy-IsPermitted msg a.op ctx w a.on_no_background (target_permission a.target) cs
                granted)
      ]
