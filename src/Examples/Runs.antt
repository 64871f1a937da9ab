-- ===== src/Examples/Runs.antt =====
-- The theorems on workflows and permissions at concrete trees.
use ko_rkuma.Prelude.{
  ℕ, true, false, ◌≡◌, ◌≤◌, refl, [], ◌∷◌, String, All, Some, length, contains, Result, ok, err,
  some, if◌then◌else◌, arith,
}
use ko_rkuma.Domain.{
  ActionConfig, RegistryError, Value, VarScope, Permission, permission_eq, WorkflowNode, Nodes,
  ActionConfig, ScriptLang, root_workflow,
}
use ko_rkuma.Context.{Action, Outcome, Store, ExecContext}
use ko_rkuma.Registry.{Registry, build_action, build_constraint}
use ko_rkuma.Permission.{aggregate_from_workflow, aggregate_from_configs, allows}
use ko_rkuma.Permission.Distinct.{IsDistinct, aggregate_from_workflow-IsDistinct}
use ko_rkuma.Permission.Exact.{
  needs, node_needs, aggregate_from_workflow-exact, aggregate_from_configs-root,
}
use ko_rkuma.Workflow.{run_workflow, run_node, find_missing, interfere}
use ko_rkuma.Workflow.Tags.{IsAbout, KeepsMacro, run_workflow-IsAbout}
use ko_rkuma.Workflow.Grants.{IsNotDenial, IsDeclared, KeepsGrant, run_workflow-IsNotDenial}
use ko_rkuma.Workflow.Agree.{SameConstraints}
use ko_rkuma.Workflow.DryRun.{Related, run_workflow-dry}
use ko_rkuma.Workflow.Gate.{SameWhenGranted, run_workflow-gated}
use ko_rkuma.Workflow.Loud.{IsError}
use ko_rkuma.Workflow.Reports.{run_workflow-reports}
use ko_rkuma.Workflow.Bounds.{max_events, run_workflow-length}
use mathlib.Core.Path.{subst}
use ko_rkuma.Builtins.{SetVariableAction, DelayAction, set_variable}
use ko_rkuma.Examples.{alone, builtin_reg, context, shared, tree, macro_of, assign}

abbrev script : WorkflowNode
script = WorkflowNode.seq (
    Nodes.cons (WorkflowNode.action assign)
      (Nodes.cons (WorkflowNode.action (ActionConfig.run_script ScriptLang.rhai "1")) Nodes.nil))

aggregate_from_workflow-exact_example :
    contains (aggregate_from_workflow script).permissions Permission.script_execution
    ≡ node_needs Permission.script_execution script
aggregate_from_workflow-exact_example =
    aggregate_from_workflow-exact Permission.script_execution script

aggregate_from_workflow-IsDistinct_example : IsDistinct (aggregate_from_workflow script).permissions
aggregate_from_workflow-IsDistinct_example = aggregate_from_workflow-IsDistinct script

aggregate_from_configs-root_example :
    aggregate_from_configs (assign ∷ []) ≡ aggregate_from_workflow (root_workflow (macro_of 7 []))
aggregate_from_configs-root_example = aggregate_from_configs-root (macro_of 7 []) refl

abbrev OnOk : (Action → Type 0) → Result RegistryError Action → Type 0
OnOk R (ok a) = R a
OnOk R (err e) = Unit

-- What the registry of the examples builds.
built_by :
    (R : Action → Type 0)
    → ((scope : VarScope) (key : String) (value : Value) → R (SetVariableAction scope key value))
    → ((millis : ℕ) → R (DelayAction alone millis))
    → (cfg : ActionConfig) (a : Action) → build_action builtin_reg cfg ≡ ok a
    → R a
unfolding build_action
built_by R s d (ActionConfig.set_variable scope key value) a e =
    subst (OnOk R) e (s scope key value)
built_by R s d (ActionConfig.delay millis) a e = subst (OnOk R) e (d millis)
built_by R s d (ActionConfig.run_command program args capture) a e = cc
built_by R s d (ActionConfig.notify title body) a e = cc
built_by R s d (ActionConfig.simulate_input sequence) a e = cc
built_by R s d (ActionConfig.http_request method url body) a e = cc
built_by R s d (ActionConfig.run_script lang source) a e = cc
built_by R s d (ActionConfig.interact target op policy) a e = cc
built_by R s d (ActionConfig.custom provider params) a e = cc

keeps_macro : KeepsMacro builtin_reg
unfolding set_variable interfere
keeps_macro cfg a ctx sh built =
    built_by (λ a. (a.execute ctx sh).ctx.macro_id ≡ ctx.macro_id) assigned (λ millis. refl) cfg a
      built
  where
    assigned :
        (scope : VarScope) (key : String) (value : Value)
        → (set_variable scope key value ctx sh).ctx.macro_id ≡ ctx.macro_id
    assigned VarScope.global key value = refl
    assigned VarScope.local key value = refl

run_workflow-IsAbout_example :
    All (IsAbout 7) (run_workflow alone builtin_reg tree context shared).events
run_workflow-IsAbout_example =
    run_workflow-IsAbout alone builtin_reg tree context shared keeps_macro

pub declared : IsDeclared builtin_reg
unfolding contains
declared cfg a p built =
    built_by (λ a. contains a.required_permissions.permissions p ≡ true → needs p cfg ≡ true)
      (λ scope key value held. absurd (distinct held)) (λ millis held. absurd (distinct held)) cfg a
      built
  where
    distinct : ¬ (false ≡ true)
    distinct e = cc

pub keeps_grant : KeepsGrant builtin_reg
unfolding set_variable interfere
keeps_grant cfg a ctx sh built =
    built_by (λ a. (a.execute ctx sh).ctx.permissions ≡ ctx.permissions) assigned (λ millis. refl)
      cfg a built
  where
    assigned :
        (scope : VarScope) (key : String) (value : Value)
        → (set_variable scope key value ctx sh).ctx.permissions ≡ ctx.permissions
    assigned VarScope.global key value = refl
    assigned VarScope.local key value = refl

run_workflow-IsNotDenial_example :
    All IsNotDenial (run_workflow alone builtin_reg tree context shared).events
unfolding aggregate_from_workflow
run_workflow-IsNotDenial_example =
    run_workflow-IsNotDenial alone builtin_reg tree context shared declared keeps_grant refl

run_workflow-reports_example :
    Some IsError (run_workflow alone builtin_reg tree context shared).events
unfolding run_workflow run_node set_variable
run_workflow-reports_example = run_workflow-reports alone builtin_reg tree context shared refl

run_workflow-length_example : length (run_workflow alone builtin_reg tree context shared).events ≤ 5
unfolding max_events
run_workflow-length_example = run_workflow-length alone builtin_reg tree context shared

-- A command that writes the store, and one that also deletes it where the permission is missing.
abbrev command : Store → Action
command store = record {
  id = "run_command";
  required_permissions = record { permissions = Permission.run_command ∷ [] };
  resources = [];
  execute = λ ctx sh. record {
    outcome = ok Outcome.continue;
    ctx = ctx;
    shared = record sh {
      store = if allows ctx.permissions Permission.run_command then [] else store;
    };
  };
}

abbrev command_reg : Store → Registry
command_reg store = record {
  trigger_fns = [];
  constraint_fns = [];
  action_fns = (λ cfg. some (command store)) ∷ [];
}

abbrev dry_context : ExecContext
dry_context = record context { dry_run = true }

same_constraints : (store : Store) → SameConstraints (command_reg []) (command_reg store)
unfolding build_constraint
same_constraints store = record { at = λ c. refl }

abbrev one_entry : Store
one_entry = ("k", Value.null) ∷ []

same_name :
    (cfg : ActionConfig)
    → Related
        (λ a b. a.id ≡ b.id)
        (build_action (command_reg []) cfg)
        (build_action (command_reg one_entry) cfg)
unfolding build_action
same_name cfg = refl

run_workflow-dry_example :
    run_workflow alone (command_reg []) script dry_context shared
    ≡ run_workflow alone (command_reg one_entry) script dry_context shared
run_workflow-dry_example =
    run_workflow-dry alone (command_reg []) (command_reg one_entry) script dry_context shared
      (same_constraints one_entry) same_name refl

same_granted :
    (cfg : ActionConfig)
    → Related SameWhenGranted
        (build_action (command_reg []) cfg)
        (build_action (command_reg one_entry) cfg)
unfolding build_action find_missing
same_granted cfg = record {
  same_id = refl;
  same_permissions = refl;
  same_execute = λ ctx sh held. ground (arith, held);
}

run_workflow-gated_example :
    run_workflow alone (command_reg []) script context shared
    ≡ run_workflow alone (command_reg one_entry) script context shared
run_workflow-gated_example =
    run_workflow-gated alone (command_reg []) (command_reg one_entry) script context shared
      (same_constraints one_entry) same_granted
