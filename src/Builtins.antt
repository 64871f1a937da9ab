-- ===== src/Builtins.antt =====
-- crates/core/src/builtins.rs: the built-in factories of triggers and actions, the time range and
-- its clock. `parse_hhmm`, which reads the two texts of a range, and `VarCompare` are left out.
pub mod TimeRange
use ko_rkuma.Prelude.{
  ℕ, ◌/◌, ◌%◌, Bool, ◌&&◌, ◌||◌, String, List, [], ◌∷◌, Option, none, some, Result, ok, leb, ◌==◌,
  if◌then◌else◌, insert, string_eq,
}
use ko_rkuma.Domain.{
  TriggerConfig, ActionConfig, VarScope, Value, Event, EventKind, event_kind_eq, SystemTime,
  ConstraintError,
}
use ko_rkuma.Context.{
  TriggerSpec, Constraint, Action, Outcome, ExecContext, EvalContext, Shared, Executed,
}
use ko_rkuma.Workflow.{Runtime, interfere}

abbrev pub ManualTriggerSpec : TriggerSpec
ManualTriggerSpec = record {
  subscribed_kinds = EventKind.manual ∷ [];
  matches = λ event. event.kind == EventKind.manual;
}

abbrev pub build_manual : TriggerConfig → Option TriggerSpec
build_manual TriggerConfig.manual = some ManualTriggerSpec
build_manual _ = none

-- `duration_since(UNIX_EPOCH)`, which is 0 for an earlier time.
unfoldable pub seconds_since_epoch : SystemTime → ℕ
seconds_since_epoch (SystemTime.since_epoch secs) = secs
seconds_since_epoch (SystemTime.before_epoch secs) = 0

-- The result is below 1440, so the cast to `u32` keeps it.
unfoldable pub event_utc_minutes : Event → ℕ
unfolding seconds_since_epoch
event_utc_minutes event = (seconds_since_epoch event.timestamp % 86400) / 60

unfoldable pub in_range : ℕ → ℕ → ℕ → Bool
in_range from_min to_min now =
    if leb from_min to_min
    then leb from_min now && leb now to_min
    else leb from_min now || leb now to_min

pub time_range : ℕ → ℕ → Constraint
unfolding in_range event_utc_minutes
time_range from_min to_min = record {
  evaluate = λ ctx. ok (in_range from_min to_min (event_utc_minutes ctx.event));
}

unfoldable pub set_variable : VarScope → String → Value → ExecContext → Shared → Executed
unfolding insert
set_variable VarScope.global key value ctx sh = record {
  outcome = ok Outcome.continue;
  ctx = ctx;
  shared = record sh { store = insert key value sh.store };
}
set_variable VarScope.local key value ctx sh = record {
  outcome = ok Outcome.continue;
  ctx = record ctx { locals = insert key value ctx.locals };
  shared = sh;
}

abbrev pub SetVariableAction : VarScope → String → Value → Action
SetVariableAction scope key value = record {
  id = "set_variable";
  required_permissions = record { permissions = [] };
  resources = [];
  execute = set_variable scope key value;
}

abbrev pub build_set_variable : ActionConfig → Option Action
build_set_variable (ActionConfig.set_variable scope key value) =
    some (SetVariableAction scope key value)
build_set_variable _ = none

-- The sleep is a moment at which other tasks run.
abbrev pub DelayAction : Runtime → ℕ → Action
DelayAction rt millis = record {
  id = "delay";
  required_permissions = record { permissions = [] };
  resources = [];
  execute = λ ctx sh. record { outcome = ok Outcome.continue; ctx = ctx; shared = interfere rt sh };
}

abbrev pub build_delay : Runtime → ActionConfig → Option Action
build_delay rt (ActionConfig.delay millis) = some (DelayAction rt millis)
build_delay rt _ = none
