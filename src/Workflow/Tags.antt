-- ===== src/Workflow/Tags.antt =====
-- Which macro the events of a run are about.
use ko_rkuma.Prelude.{◌≡◌, refl, ◌∙◌, some, ok, All}
use ko_rkuma.Domain.{ActionConfig, EngineEvent, MacroId, WorkflowNode}
use ko_rkuma.Context.{Action, ExecContext, Shared}
use ko_rkuma.Registry.{Registry, build_action}
use ko_rkuma.Workflow.{Runtime, run_workflow}
use ko_rkuma.Workflow.ActionRule.{ActionRule, run_action-Good}
use ko_rkuma.Workflow.Every.{EveryAction-all}
use ko_rkuma.Workflow.Sound.{Frame, run_node-Good}

-- An error or a log entry of one macro.
abbrev pub IsAbout : MacroId → EngineEvent → Type 0
IsAbout id (EngineEvent.action_log macro_id action level of) = macro_id ≡ id
IsAbout id (EngineEvent.error (some macro_id) message) = macro_id ≡ id
IsAbout id _ = ⊥

-- No registered action changes which macro its context belongs to.
abbrev pub KeepsMacro : Registry → Type 0
KeepsMacro reg =
    (cfg : ActionConfig) (a : Action) (ctx : ExecContext) (sh : Shared)
    → build_action reg cfg ≡ ok a
    → (a.execute ctx sh).ctx.macro_id ≡ ctx.macro_id

-- A workflow sends only errors and log entries, and each of them names the macro of its context, if
-- no registered action changes that macro; whatever other tasks and the timer do.
pub run_workflow-IsAbout :
    (rt : Runtime) (reg : Registry) (root : WorkflowNode) (ctx : ExecContext) (sh : Shared)
    → KeepsMacro reg
    → All (IsAbout ctx.macro_id) (run_workflow rt reg root ctx sh).events
unfolding run_workflow
run_workflow-IsAbout rt reg root ctx sh keeps =
    ((run_node-Good frame rt reg root
        (EveryAction-all root λ cfg. run_action-Good (rule cfg) rt)).at
      ctx sh refl).0
  where
    frame : Frame (λ c. c.macro_id ≡ ctx.macro_id) (IsAbout ctx.macro_id)
    frame = record {
      rebind = λ _ _ i. i;
      on_if = λ _ _ i. i;
      on_while = λ _ _ i. i;
      on_timeout = λ _ _ i. i;
    }

    rule :
        (cfg : ActionConfig)
        → ActionRule reg (λ c. c.macro_id ≡ ctx.macro_id) (IsAbout ctx.macro_id) cfg
    rule cfg = record {
      on_build = λ _ _ i. i;
      on_dry_run = λ _ _ i. i;
      on_denied = λ _ _ _ _ _ i. i;
      on_failed = λ _ _ i. i;
      on_execute = λ c s a built _ i. keeps cfg a c s built ∙ i;
    }
