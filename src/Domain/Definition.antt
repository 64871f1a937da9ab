-- ===== src/Domain/Definition.antt =====
-- crates/core/src/domain.rs: `Macro`. A `Uuid` is a number, and an `i32` priority an integer in
-- order: the number with 2^31 added, so that the order of priorities is that of the numbers.
use ko_rkuma.Prelude.{ℕ, Bool, String, List, Option, none, some}
use ko_rkuma.Domain.Config.{ActionConfig, TriggerConfig, ConcurrencyPolicy, Permission}
use ko_rkuma.Domain.Tree.{ConstraintExpr, WorkflowNode, from_actions}

abbrev pub MacroId : Type 0
MacroId = ℕ

pub record PermissionSet : Type 0 where
  pub permissions : List Permission

pub record Macro : Type 0 where
  pub id : MacroId
  pub name : String
  pub description : String
  pub enabled : Bool
  pub category : Option String
  pub triggers : List TriggerConfig
  pub constraints : ConstraintExpr
  pub actions : List ActionConfig
  pub workflow : Option WorkflowNode
  pub granted_permissions : PermissionSet
  pub priority : ℕ
  pub concurrency : ConcurrencyPolicy

root_of : Option WorkflowNode → List ActionConfig → WorkflowNode
root_of (some w) actions = w
root_of none actions = WorkflowNode.seq (from_actions actions)

unfoldable pub root_workflow : Macro → WorkflowNode
unfolding root_of from_actions
root_workflow m = root_of m.workflow m.actions
