-- ===== src/Examples.antt =====
-- The data of the examples: a runtime without other tasks, in which no timer elapses, and a registry
-- with the built-in manual trigger and actions.
mod Runs
mod Dispatches
mod Schedules
mod Edits
mod Trees
mod Desktop
mod Targets
mod Keys
use ko_rkuma.Prelude.{ℕ, String, List, [], ◌∷◌, none, some, true, false}
use ko_rkuma.Domain.{
  ActionConfig, VarScope, Value, Event, EventKind, SystemTime, WorkflowNode, Nodes, Otherwise,
  ConstraintExpr, Values, Macro, TriggerConfig, ConcurrencyPolicy, WaitCondition, MacroId,
}
use ko_rkuma.Context.{ExecContext, Shared}
use ko_rkuma.Registry.{Registry}
use ko_rkuma.Workflow.{Runtime}
use ko_rkuma.Builtins.{build_manual, build_set_variable, build_delay}

abbrev pub alone : Runtime
alone = record { others = λ moment sh. sh; elapsed = λ millis sh r. none }

abbrev pub builtin_reg : Registry
builtin_reg = record {
  trigger_fns = build_manual ∷ [];
  constraint_fns = [];
  action_fns = build_set_variable ∷ build_delay alone ∷ [];
}

abbrev pub noon : Event
noon = record {
  kind = EventKind.manual;
  source = "test";
  timestamp = SystemTime.since_epoch 43200;
  payload = Value.null;
}

abbrev pub shared : Shared
shared = record { store = []; is_cancelled = false; moment = 0 }

abbrev pub context : ExecContext
context = record {
  event = noon;
  macro_id = 7;
  locals = [];
  permissions = record { granted = [] };
  dry_run = false;
}

abbrev pub assign : ActionConfig
assign = ActionConfig.set_variable VarScope.global "k" (Value.str "v")

-- A sequence, a loop over two items, a retry that fails twice (no factory takes `notify`).
abbrev pub tree : WorkflowNode
tree = WorkflowNode.seq (
    Nodes.cons (WorkflowNode.action assign) (
      Nodes.cons
        (WorkflowNode.for_each
          (Value.list (Values.cons Value.null (Values.cons Value.null Values.nil))) "x"
          (WorkflowNode.action (ActionConfig.delay 5)))
        (Nodes.cons (WorkflowNode.retry (WorkflowNode.action (ActionConfig.notify "a" "b")) 2 0)
          Nodes.nil)))

abbrev pub macro_of : MacroId → List TriggerConfig → Macro
macro_of id triggers = record {
  id = id;
  name = "m";
  description = "";
  enabled = true;
  category = none;
  triggers = triggers;
  constraints = ConstraintExpr.always;
  actions = assign ∷ [];
  workflow = none;
  granted_permissions = record { permissions = [] };
  priority = 0;
  concurrency = ConcurrencyPolicy.parallel;
}
