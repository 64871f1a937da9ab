-- ===== src/Registry.antt =====
-- crates/core/src/registry.rs: factories are asked in the order of their registration.
-- `ConstraintExpr::evaluate` (crates/core/src/domain.rs) stands in the child Evaluate.
pub mod Evaluate
use ko_rkuma.Prelude.{List, [], ◌∷◌, ◌++◌, Option, none, some, Result, ok, err}
use ko_rkuma.Domain.{TriggerConfig, ActionConfig, ConstraintConfig, RegistryError}
use ko_rkuma.Context.{TriggerSpec, Constraint, Action}

pub record Registry : Type 0 where
  pub trigger_fns : List (TriggerConfig → Option TriggerSpec)
  pub constraint_fns : List (ConstraintConfig → Option Constraint)
  pub action_fns : List (ActionConfig → Option Action)

abbrev pub new : Registry
new = record { trigger_fns = []; constraint_fns = []; action_fns = [] }

unfoldable pub register_trigger : (TriggerConfig → Option TriggerSpec) → Registry → Registry
register_trigger f reg = record reg { trigger_fns = reg.trigger_fns ++ (f ∷ []) }

unfoldable pub register_constraint : (ConstraintConfig → Option Constraint) → Registry → Registry
register_constraint f reg = record reg { constraint_fns = reg.constraint_fns ++ (f ∷ []) }

unfoldable pub register_action : (ActionConfig → Option Action) → Registry → Registry
register_action f reg = record reg { action_fns = reg.action_fns ++ (f ∷ []) }

-- `iter().find_map(|f| f(c)).ok_or_else(…)`, by the two functions below.
or_else : {T : Type 0} → Option T → Result RegistryError T → Result RegistryError T
or_else (some t) rest = ok t
or_else none rest = rest

module _ {C T : Type 0} where
  unfoldable pub find_map : List (C → Option T) → C → RegistryError → Result RegistryError T
  unfolding or_else
  find_map [] c e = err e
  find_map (f ∷ fs) c e = or_else (f c) (find_map fs c e)

unfoldable pub build_trigger : Registry → TriggerConfig → Result RegistryError TriggerSpec
unfolding find_map
build_trigger reg c = find_map reg.trigger_fns c (RegistryError.unknown_trigger c)

unfoldable pub build_constraint : Registry → ConstraintConfig → Result RegistryError Constraint
unfolding find_map
build_constraint reg c = find_map reg.constraint_fns c (RegistryError.unknown_constraint c)

unfoldable pub build_action : Registry → ActionConfig → Result RegistryError Action
unfolding find_map
build_action reg c = find_map reg.action_fns c (RegistryError.unknown_action c)
