-- ===== src/Router.antt =====
-- crates/core/src/router.rs: the routing index and the operations on it. The children hold the
-- dispatch of events and the proofs.
pub mod Dispatch
pub mod Index
pub mod Order
pub mod Firing
use ko_rkuma.Prelude.{
  Bool, not, List, [], ◌∷◌, ◌++◌, Option, none, some, insert, remove, lookup, ◌==◌, nat_eq, map,
  if◌then◌else◌,
}
use ko_rkuma.Domain.{
  EventKind, event_kind_eq, Macro, MacroId, TriggerConfig, EngineSnapshot, EngineCommand,
}

abbrev pub Index : Type 0
Index = List (EventKind × List MacroId)

pub record EventRouter : Type 0 where
  pub index : Index
  pub macros : List (MacroId × Macro)

abbrev pub new : EventRouter
new = record { index = []; macros = [] }

unfoldable pub event_kind_of : TriggerConfig → EventKind
event_kind_of (TriggerConfig.hotkey keys) = EventKind.hotkey
event_kind_of (TriggerConfig.window_focus title_pattern regex) = EventKind.window_focus
event_kind_of (TriggerConfig.process name event) = EventKind.process
event_kind_of (TriggerConfig.schedule cron) = EventKind.timer
event_kind_of (TriggerConfig.file_change path kind) = EventKind.file_change
event_kind_of TriggerConfig.manual = EventKind.manual
event_kind_of (TriggerConfig.custom provider params) = EventKind.custom

abbrev pub or_default : Option (List MacroId) → List MacroId
or_default none = []
or_default (some ids) = ids

-- `index.get(&kind)`, where a missing entry is an empty one.
unfoldable pub candidates : EventKind → Index → List MacroId
unfolding lookup
candidates kind index = or_default (lookup kind index)

-- `index.entry(kind).or_default().push(id)`, for each trigger.
unfoldable pub push_all : MacroId → List TriggerConfig → Index → Index
unfolding insert candidates event_kind_of
push_all id [] index = index
push_all id (tc ∷ triggers) index =
    let kind = event_kind_of tc in
    push_all id triggers (insert kind (candidates kind index ++ (id ∷ [])) index)

unfoldable pub add_macro : Macro → EventRouter → EventRouter
unfolding push_all insert
add_macro m router = record {
  index = push_all m.id m.triggers router.index;
  macros = insert m.id m router.macros;
}

-- `v.retain(|mid| mid != &id)`
unfoldable pub retain_ne : MacroId → List MacroId → List MacroId
retain_ne id [] = []
retain_ne id (x ∷ ids) = let rest = retain_ne id ids in if x == id then rest else x ∷ rest

unfoldable pub retain_at : EventKind → MacroId → Index → Index
unfolding lookup insert retain_ne
retain_at kind id index = elim (lookup kind index) [
  | none ↦ index
  | some ids ↦ insert kind (retain_ne id ids) index
]

unfoldable pub retain_all : MacroId → List TriggerConfig → Index → Index
unfolding retain_at event_kind_of
retain_all id [] index = index
retain_all id (tc ∷ triggers) index = retain_all id triggers (retain_at (event_kind_of tc) id index)

unfoldable pub remove_macro : MacroId → EventRouter → EventRouter
unfolding retain_all remove lookup
remove_macro id router = elim (lookup id router.macros) [
  | none ↦ router
  | some m ↦ record {
    index = retain_all id m.triggers router.index;
    macros = remove id router.macros;
  }
]

unfoldable pub set_enabled : MacroId → Bool → EventRouter → EventRouter
unfolding insert lookup
set_enabled id enabled router = elim (lookup id router.macros) [
  | none ↦ router
  | some m ↦ record router { macros = insert id (record m { enabled = enabled }) router.macros }
]

values : List (MacroId × Macro) → List Macro
values macros = map (λ entry. entry.1) macros

pub snapshot : EventRouter → EngineSnapshot
unfolding values
snapshot router = record { macros = values router.macros }

-- The arms of crates/core/src/engine_loop.rs that change the router.
unfoldable pub apply_command : EngineCommand → EventRouter → EventRouter
unfolding add_macro remove_macro set_enabled
apply_command (EngineCommand.add_macro m) router = add_macro m router
apply_command (EngineCommand.update_macro m) router = add_macro m (remove_macro m.id router)
apply_command (EngineCommand.delete_macro id) router = remove_macro id router
apply_command (EngineCommand.set_enabled id enabled) router = set_enabled id enabled router
apply_command _ router = router
