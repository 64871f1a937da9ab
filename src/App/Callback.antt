-- ===== src/App/Callback.antt =====
-- crates/app/src/callbacks.rs: `wire_callbacks`, the calls of the window as one type. `saved` is the
-- result of `save_macros`.
use ko_rkuma.Prelude.{ℕ, Bool, true, false, String, Option, some}
use ko_rkuma.Domain.{MacroId}
use ko_rkuma.App.State.{Formats, App}
use ko_rkuma.App.MacroList.{
  add_macro, delete_macro, toggle_enabled, trigger_macro, dry_run_macro, macro_selected,
  rename_macro, move_macro_up, move_macro_down,
}
use ko_rkuma.App.Constraints.{
  constraint_node_selected, constraint_update_node, constraint_update, constraint_delete_node,
  constraint_add_leaf, constraint_wrap, constraint_move,
}
use ko_rkuma.App.Steps.{
  workflow_node_selected, workflow_update_node, workflow_update, workflow_delete_node,
  workflow_add_action, workflow_add_if, workflow_add_parallel, workflow_move,
}
use ko_rkuma.App.Triggers.{
  trigger_select, trigger_add, trigger_delete, trigger_apply, request_save, approve_permissions,
  cancel_permissions, revoke_permission,
}

pub data Callback : Type 0 where
  on_add_macro : (id : MacroId) → Callback
  on_delete_macro on_trigger_macro on_dry_run_macro on_macro_selected on_move_macro_up
        on_move_macro_down :
      (idx : ℕ) → Callback
  on_toggle_enabled : (idx : ℕ) (enabled : Bool) → Callback
  on_rename_macro : (idx : ℕ) (new_name : String) → Callback
  on_constraint_node_selected on_constraint_delete_node on_constraint_move_up
        on_constraint_move_down :
      (idx : ℕ) → Callback
  on_constraint_update_node on_workflow_update_node : (idx : ℕ) (new_json : String) → Callback
  on_constraint_update on_workflow_update on_workflow_add_if on_workflow_add_parallel : Callback
  on_constraint_add_leaf on_constraint_wrap on_workflow_add_action on_trigger_add :
      (kind : String) → Callback
  on_workflow_node_selected on_workflow_delete_node on_workflow_move_up on_workflow_move_down :
      (idx : ℕ) → Callback
  on_trigger_select on_trigger_delete on_revoke_permission : (idx : ℕ) → Callback
  on_trigger_apply on_request_save on_approve_permissions on_cancel_permissions : Callback

module _ (fmt : Formats) where
  unfoldable pub handle : Callback → Bool → App → Option App
  handle (Callback.on_add_macro id) saved app = some (add_macro fmt id saved app)
  handle (Callback.on_delete_macro idx) saved app = delete_macro idx saved app
  handle (Callback.on_trigger_macro idx) saved app = some (trigger_macro fmt idx app)
  handle (Callback.on_dry_run_macro idx) saved app = some (dry_run_macro idx app)
  handle (Callback.on_macro_selected idx) saved app = some (macro_selected fmt idx app)
  handle (Callback.on_move_macro_up idx) saved app = move_macro_up idx saved app
  handle (Callback.on_move_macro_down idx) saved app = move_macro_down idx saved app
  handle (Callback.on_toggle_enabled idx enabled) saved app =
      some (toggle_enabled idx enabled saved app)
  handle (Callback.on_rename_macro idx new_name) saved app =
      some (rename_macro idx new_name saved app)
  handle (Callback.on_constraint_node_selected idx) saved app =
      some (constraint_node_selected fmt idx app)
  handle (Callback.on_constraint_delete_node idx) saved app =
      some (constraint_delete_node fmt idx saved app)
  handle (Callback.on_constraint_move_up idx) saved app =
      some (constraint_move fmt true idx saved app)
  handle (Callback.on_constraint_move_down idx) saved app =
      some (constraint_move fmt false idx saved app)
  handle (Callback.on_constraint_update_node idx json) saved app =
      some (constraint_update_node fmt idx json saved app)
  handle Callback.on_constraint_update saved app = some (constraint_update fmt saved app)
  handle (Callback.on_constraint_add_leaf kind) saved app =
      some (constraint_add_leaf fmt kind saved app)
  handle (Callback.on_constraint_wrap kind) saved app = some (constraint_wrap fmt kind saved app)
  handle (Callback.on_workflow_node_selected idx) saved app =
      some (workflow_node_selected fmt idx app)
  handle (Callback.on_workflow_delete_node idx) saved app =
      some (workflow_delete_node fmt idx saved app)
  handle (Callback.on_workflow_move_up idx) saved app = some (workflow_move fmt true idx saved app)
  handle (Callback.on_workflow_move_down idx) saved app =
      some (workflow_move fmt false idx saved app)
  handle (Callback.on_workflow_update_node idx json) saved app =
      some (workflow_update_node fmt idx json saved app)
  handle Callback.on_workflow_update saved app = some (workflow_update fmt saved app)
  handle (Callback.on_workflow_add_action kind) saved app =
      some (workflow_add_action fmt kind saved app)
  handle Callback.on_workflow_add_if saved app = some (workflow_add_if fmt saved app)
  handle Callback.on_workflow_add_parallel saved app = some (workflow_add_parallel fmt saved app)
  handle (Callback.on_trigger_select idx) saved app = some (trigger_select idx app)
  handle (Callback.on_trigger_add kind) saved app = some (trigger_add kind saved app)
  handle (Callback.on_trigger_delete idx) saved app = trigger_delete idx saved app
  handle Callback.on_trigger_apply saved app = trigger_apply saved app
  handle Callback.on_request_save saved app = some (request_save app)
  handle Callback.on_approve_permissions saved app = some (approve_permissions saved app)
  handle Callback.on_cancel_permissions saved app = some (cancel_permissions app)
  handle (Callback.on_revoke_permission idx) saved app = revoke_permission idx saved app
