-- ===== src/Context.antt =====
-- crates/core/src/context.rs and the traits of crates/core/src/traits.rs. What an `ExecContext`
-- owns stands in `ExecContext`; what it shares through an `Arc` (the store and the cancellation
-- flag) stands in `Shared`. A trait object is a record of its methods.
use ko_rkuma.Prelude.{ℕ, Bool, String, List, Result}
use ko_rkuma.Domain.{ActionError, ConstraintError, Event, EventKind, MacroId, PermissionSet, Value}
use ko_rkuma.Permission.{PermissionGrant}

abbrev pub LocalVars : Type 0
LocalVars = List (String × Value)

abbrev pub Store : Type 0
Store = List (String × Value)

pub record EvalContext : Type 0 where
  pub event : Event
  pub macro_id : MacroId
  pub store : Store

pub record ExecContext : Type 0 where
  pub event : Event
  pub macro_id : MacroId
  pub locals : LocalVars
  pub permissions : PermissionGrant
  pub dry_run : Bool

-- `moment` counts the places at which other tasks may have run: see Workflow.antt.
pub record Shared : Type 0 where
  pub store : Store
  pub is_cancelled : Bool
  pub moment : ℕ

-- A fork owns a copy of what the parent owns, and shares the rest.
unfoldable pub fork : ExecContext → ExecContext
fork ctx = record {
  event = ctx.event;
  macro_id = ctx.macro_id;
  locals = ctx.locals;
  permissions = ctx.permissions;
  dry_run = ctx.dry_run;
}

unfoldable pub cancel : Shared → Shared
cancel shared = record shared { is_cancelled = Bool.true }

pub data Outcome : Type 0 where
  continue stop : Outcome

pub record TriggerSpec : Type 0 where
  pub subscribed_kinds : List EventKind
  pub matches : Event → Bool

pub record Constraint : Type 0 where
  pub evaluate : EvalContext → Result ConstraintError Bool

pub record Executed : Type 0 where
  pub outcome : Result ActionError Outcome
  pub ctx : ExecContext
  pub shared : Shared

pub record Action : Type 0 where
  pub id : String
  pub required_permissions : PermissionSet
  pub resources : List String
  pub execute : ExecContext → Shared → Executed
