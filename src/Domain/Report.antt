-- ===== src/Domain/Report.antt =====
-- crates/core/src/event.rs, engine.rs and error.rs: events, what the engine reports, and errors.
-- A message built by `format!` is a value that names the format and holds its arguments.
use ko_rkuma.Prelude.{ℕ, Bool, String, List, Option, Eq, eq_of_discrete}
use ko_rkuma.Domain.Data.{Value}
use ko_rkuma.Domain.Config.{ActionConfig, ConstraintConfig, Permission, TriggerConfig}
use ko_rkuma.Domain.Definition.{Macro, MacroId}

pub data EventKind : Type 0 where
  hotkey window_focus process timer file_change manual custom : EventKind

pub EventKind-discrete : Discrete EventKind
EventKind-discrete = hlevel

instance abbrev pub event_kind_eq : Eq EventKind
event_kind_eq = eq_of_discrete EventKind-discrete

-- A `SystemTime` in whole seconds from the Unix epoch.
pub data SystemTime : Type 0 where
  since_epoch before_epoch : (secs : ℕ) → SystemTime

pub record Event : Type 0 where
  pub kind : EventKind
  pub source : String
  pub timestamp : SystemTime
  pub payload : Value

-- `UnknownProvider`, whose text is the configuration that no factory took.
pub data RegistryError : Type 0 where
  unknown_trigger : TriggerConfig → RegistryError
  unknown_constraint : ConstraintConfig → RegistryError
  unknown_action : ActionConfig → RegistryError

pub data ConstraintError : Type 0 where
  registry : RegistryError → ConstraintError
  eval_failed : String → ConstraintError

pub data ActionError : Type 0 where
  failed : String → ActionError
  permission_denied : String → ActionError
  cancelled : ActionError

pub data LogLevel : Type 0 where
  debug info warn error : LogLevel

-- The texts of `EngineEvent::Error`.
pub data Message : Type 0 where
  build_failed : RegistryError → Message
  denied : Permission → Message
  action_failed : ActionError → Message
  constraint_failed if_failed while_failed : ConstraintError → Message
  timed_out : (millis : ℕ) → Message

pub data EngineEvent : Type 0 where
  macro_fired : (id : MacroId) (name : String) (at : SystemTime) → EngineEvent
  action_log :
      (macro_id : MacroId) (id : String) (level : LogLevel) (of : ActionConfig) → EngineEvent
  variable_changed : (key : String) (value : Value) → EngineEvent
  error : (macro_id : Option MacroId) (message : Message) → EngineEvent

pub record EngineSnapshot : Type 0 where
  pub macros : List Macro

pub data EngineCommand : Type 0 where
  add_macro update_macro : Macro → EngineCommand
  delete_macro : MacroId → EngineCommand
  set_enabled : MacroId → Bool → EngineCommand
  trigger_manually dry_run_macro : MacroId → EngineCommand
  query_snapshot : EngineCommand
  shutdown : EngineCommand
