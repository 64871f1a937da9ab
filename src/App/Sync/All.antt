-- ===== src/App/Sync/All.antt =====
-- All callbacks of the window.
use ko_rkuma.Prelude.{Bool, false, ◌≡◌, refl, some}
use ko_rkuma.App.State.{Formats, App}
use ko_rkuma.App.Constraints.{
  constraint_update_node, constraint_add_leaf, constraint_wrap, constraint_move, edit_constraints,
}
use ko_rkuma.App.Steps.{
  workflow_update_node, workflow_add_action, workflow_add_if, workflow_add_parallel, workflow_move,
  edit_workflow,
}
use ko_rkuma.App.Callback.{Callback, handle}
use ko_rkuma.App.Find.{count_id}
use ko_rkuma.App.Sync.{
  IsSynced, in_window-IsSynced, add_macro-IsSynced, delete_macro-IsSynced, toggle_enabled-IsSynced,
  rename_macro-IsSynced, dry_run_macro-IsSynced, macro_selected-IsSynced,
}
use ko_rkuma.App.Sync.Edits.{
  trigger_add-IsSynced, trigger_delete-IsSynced, approve_permissions-IsSynced,
  revoke_permission-IsSynced, edit_constraints-IsSynced, constraint_delete_node-IsSynced,
  edit_workflow-IsSynced, workflow_delete_node-IsSynced,
}
use ko_rkuma.App.Sync.Forms.{
  by_result, by_total, trigger_macro-IsSynced, constraint_node_selected-IsSynced,
  workflow_node_selected-IsSynced, trigger_select-IsSynced, request_save-IsSynced,
  constraint_update-IsSynced, workflow_update-IsSynced, trigger_apply-IsSynced,
  move_macro_up-IsSynced, move_macro_down-IsSynced,
}

-- The id of a new macro is not in the list.
abbrev pub IsFresh : Callback → App → Type 0
IsFresh (Callback.on_add_macro id) app = count_id id app.local_macros ≡ 0
IsFresh _ app = Unit

-- Every callback of the window, where the id of a new macro is not in the list, and whether or not
-- the file is written, keeps the following: the ids of the macros are distinct, the rows of the list
-- show the macros, the router that the sent commands lead to holds for each id the macro of the list
-- with that id up to its name, and the router's index is exact. The names are left out of the
-- comparison with the engine, since renaming a macro sends it nothing.
pub handle-IsSynced :
    (fmt : Formats) (c : Callback) (saved : Bool) (app app' : App)
    → IsFresh c app
    → IsSynced app
    → handle fmt c saved app ≡ some app'
    → IsSynced app'
unfolding handle constraint_move edit_constraints constraint_update_node workflow_update_node
    edit_workflow workflow_add_if workflow_add_parallel constraint_add_leaf constraint_wrap
    workflow_add_action workflow_move
handle-IsSynced fmt (Callback.on_add_macro id) saved app app' fresh s =
    by_result _ app' (add_macro-IsSynced app s fmt id saved fresh)
handle-IsSynced fmt (Callback.on_delete_macro idx) saved app app' fresh s =
    by_total _ app' (delete_macro-IsSynced app s idx saved)
handle-IsSynced fmt (Callback.on_trigger_macro idx) saved app app' fresh s =
    by_result _ app' (trigger_macro-IsSynced fmt saved app s idx)
handle-IsSynced fmt (Callback.on_dry_run_macro idx) saved app app' fresh s =
    by_result _ app' (dry_run_macro-IsSynced app s idx)
handle-IsSynced fmt (Callback.on_macro_selected idx) saved app app' fresh s =
    by_result _ app' (macro_selected-IsSynced app s fmt idx)
handle-IsSynced fmt (Callback.on_move_macro_up idx) saved app app' fresh s =
    move_macro_up-IsSynced fmt saved app s idx app'
handle-IsSynced fmt (Callback.on_move_macro_down idx) saved app app' fresh s =
    move_macro_down-IsSynced fmt saved app s idx app'
handle-IsSynced fmt (Callback.on_toggle_enabled idx enabled) saved app app' fresh s =
    by_result _ app' (toggle_enabled-IsSynced app s idx enabled saved)
handle-IsSynced fmt (Callback.on_rename_macro idx new_name) saved app app' fresh s =
    by_result _ app' (rename_macro-IsSynced app s idx new_name saved)
handle-IsSynced fmt (Callback.on_constraint_node_selected idx) saved app app' fresh s =
    by_result _ app' (constraint_node_selected-IsSynced fmt saved app s idx)
handle-IsSynced fmt (Callback.on_constraint_delete_node idx) saved app app' fresh s =
    by_result _ app' (constraint_delete_node-IsSynced saved app s fmt idx)
handle-IsSynced fmt (Callback.on_constraint_move_up idx) saved app app' fresh s =
    by_result _ app' (edit_constraints-IsSynced saved app s fmt _)
handle-IsSynced fmt (Callback.on_constraint_move_down idx) saved app app' fresh s =
    by_result _ app' (edit_constraints-IsSynced saved app s fmt _)
handle-IsSynced fmt (Callback.on_constraint_update_node idx json) saved app app' fresh s =
    by_result _ app' (edit_constraints-IsSynced saved app s fmt _)
handle-IsSynced fmt Callback.on_constraint_update saved app app' fresh s =
    by_result _ app' (constraint_update-IsSynced fmt saved app s)
handle-IsSynced fmt (Callback.on_constraint_add_leaf kind) saved app app' fresh s =
    by_result _ app' (edit_constraints-IsSynced saved app s fmt _)
handle-IsSynced fmt (Callback.on_constraint_wrap kind) saved app app' fresh s =
    by_result _ app' (edit_constraints-IsSynced saved app s fmt _)
handle-IsSynced fmt (Callback.on_workflow_node_selected idx) saved app app' fresh s =
    by_result _ app' (workflow_node_selected-IsSynced fmt saved app s idx)
handle-IsSynced fmt (Callback.on_workflow_delete_node idx) saved app app' fresh s =
    by_result _ app' (workflow_delete_node-IsSynced saved app s fmt idx)
handle-IsSynced fmt (Callback.on_workflow_move_up idx) saved app app' fresh s =
    by_result _ app' (edit_workflow-IsSynced saved app s fmt _)
handle-IsSynced fmt (Callback.on_workflow_move_down idx) saved app app' fresh s =
    by_result _ app' (edit_workflow-IsSynced saved app s fmt _)
handle-IsSynced fmt (Callback.on_workflow_update_node idx json) saved app app' fresh s =
    by_result _ app' (edit_workflow-IsSynced saved app s fmt _)
handle-IsSynced fmt Callback.on_workflow_update saved app app' fresh s =
    by_result _ app' (workflow_update-IsSynced fmt saved app s)
handle-IsSynced fmt (Callback.on_workflow_add_action kind) saved app app' fresh s =
    by_result _ app' (edit_workflow-IsSynced saved app s fmt _)
handle-IsSynced fmt Callback.on_workflow_add_if saved app app' fresh s =
    by_result _ app' (edit_workflow-IsSynced saved app s fmt _)
handle-IsSynced fmt Callback.on_workflow_add_parallel saved app app' fresh s =
    by_result _ app' (edit_workflow-IsSynced saved app s fmt _)
handle-IsSynced fmt (Callback.on_trigger_select idx) saved app app' fresh s =
    by_result _ app' (trigger_select-IsSynced fmt saved app s idx)
handle-IsSynced fmt (Callback.on_trigger_add kind) saved app app' fresh s =
    by_result _ app' (trigger_add-IsSynced saved app s kind)
handle-IsSynced fmt (Callback.on_trigger_delete idx) saved app app' fresh s =
    by_total _ app' (trigger_delete-IsSynced saved app s idx)
handle-IsSynced fmt Callback.on_trigger_apply saved app app' fresh s =
    trigger_apply-IsSynced fmt saved app s app'
handle-IsSynced fmt Callback.on_request_save saved app app' fresh s =
    by_result _ app' (request_save-IsSynced fmt saved app s)
handle-IsSynced fmt Callback.on_approve_permissions saved app app' fresh s =
    by_result _ app' (approve_permissions-IsSynced saved app s)
handle-IsSynced fmt Callback.on_cancel_permissions saved app app' fresh s =
    by_result _ app'
      (in_window-IsSynced (λ w. record w { show_permission_dialog = false }) app refl s)
handle-IsSynced fmt (Callback.on_revoke_permission idx) saved app app' fresh s =
    by_total _ app' (revoke_permission-IsSynced saved app s idx)
