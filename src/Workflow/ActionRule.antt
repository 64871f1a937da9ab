-- ===== src/Workflow/ActionRule.antt =====
-- What has to be shown of one action for the rule of Workflow/Sound.antt.
use ko_rkuma.Prelude.{
  false, ◌≡◌, some, ok, All, Result-cases, Bool-cases, Option-cases, inl, inr, arith,
}
use ko_rkuma.Domain.{
  ActionConfig, ActionError, EngineEvent, LogLevel, Permission, RegistryError, build_failed, denied,
  action_failed,
}
use ko_rkuma.Context.{Action, ExecContext, Shared, Executed}
use ko_rkuma.Registry.{Registry, build_action}
use ko_rkuma.Workflow.{Runtime, run_action, perform, finish, find_missing, interfere}
use ko_rkuma.Workflow.Sound.{Good}

-- One field for each way in which an action can end.
pub record ActionRule (reg : Registry) (I : ExecContext → Type 0) (Q : EngineEvent → Type 0)
    (cfg : ActionConfig) : Type 0 where
  pub on_build :
      (ctx : ExecContext) (x : RegistryError)
      → I ctx
      → Q (EngineEvent.error (some ctx.macro_id) (build_failed x))
  pub on_dry_run :
      (ctx : ExecContext) (a : Action)
      → I ctx
      → Q (EngineEvent.action_log ctx.macro_id a.id LogLevel.info cfg)
  pub on_denied :
      (ctx : ExecContext) (a : Action) (p : Permission)
      → build_action reg cfg ≡ ok a
      → find_missing ctx a.required_permissions.permissions ≡ some p
      → I ctx
      → Q (EngineEvent.error (some ctx.macro_id) (denied p))
  pub on_failed :
      (ctx : ExecContext) (x : ActionError)
      → I ctx
      → Q (EngineEvent.error (some ctx.macro_id) (action_failed x))
  pub on_execute :
      (ctx : ExecContext) (sh : Shared) (a : Action)
      → build_action reg cfg ≡ ok a
      → ctx.dry_run ≡ false
      → I ctx
      → I (a.execute ctx sh).ctx

module _ {reg : Registry} {I : ExecContext → Type 0} {Q : EngineEvent → Type 0} {cfg : ActionConfig}
    (rule : ActionRule reg I Q cfg) where
  finish_rule : (x : Executed) → I x.ctx → All Q (finish x).events × I (finish x).ctx
  unfolding finish
  finish_rule x i = elim (Result-cases x.outcome) [
    | inl (o, e) ↦ ground (arith, e, i)
    | inr (y, e) ↦ rw (e, finish) ((rule.on_failed x.ctx y i, tt), i)
  ]

  perform_rule :
      (rt : Runtime) (a : Action) (ctx : ExecContext) (sh : Shared)
      → build_action reg cfg ≡ ok a
      → ctx.dry_run ≡ false
      → I ctx
      → All Q (perform rt a ctx sh).events × I (perform rt a ctx sh).ctx
  unfolding perform
  perform_rule rt a ctx sh built wet i =
      elim (Option-cases (find_missing ctx a.required_permissions.permissions)) [
        | inl e ↦
            rw (e, perform) (finish_rule _ (rule.on_execute ctx (interfere rt sh) a built wet i))
        | inr (p, e) ↦ rw (e, perform) ((rule.on_denied ctx a p built e i, tt), i)
      ]

  pub run_action-Good : (rt : Runtime) → Good I Q (run_action rt reg cfg)
  unfolding run_action
  run_action-Good rt = record {
    at = λ ctx sh i. elim (Result-cases (build_action reg cfg)) [
      | inl (a, e) ↦ elim (Bool-cases ctx.dry_run) [
        | inl dry ↦ rw (e, run_action) (ground (arith, dry, i, rule.on_dry_run ctx a i))
        | inr wet ↦ rw (e, run_action) (ground (arith, wet, perform_rule rt a ctx sh e wet i))
      ]
      | inr (x, e) ↦ rw (e, run_action) ((rule.on_build ctx x i, tt), i)
    ];
  }
