-- ===== src/Examples/Desktop.antt =====
-- The theorems on the desktop application at a window with one macro.
use ko_rkuma.Prelude.{
  ◌≤◌, true, false, arith, ◌≡◌, ◌≢◌, refl, List, [], ◌∷◌, none, some, map, lookup, nat_eq, All,
  contains,
}
use ko_rkuma.Domain.{
  ActionConfig, ConstraintConfig, Macro, MacroId, PermissionSet, TriggerConfig, UiOp, root_workflow,
}
use ko_rkuma.Workflow.{run_workflow}
use ko_rkuma.Workflow.Grants.{IsNotDenial}
use ko_rkuma.Router.Dispatch.{exec_context}
use ko_rkuma.App.TriggerForm.{TriggerForm, populate_trigger_fields, build_trigger_from_ui}
use ko_rkuma.App.FormRoundTrip.{
  IsModifiers, IsEditable, build_trigger_from_ui-populate_trigger_fields,
}
use ko_rkuma.App.State.{Formats, App, Window, get, item, to_permission_rows}
use ko_rkuma.App.MacroList.{add_macro}
use ko_rkuma.App.Triggers.{selected_macro, approve_permissions, request_save}
use ko_rkuma.App.Callback.{Callback, handle}
use ko_rkuma.App.Watcher.{HashOrder, hot_reload, load_all}
use ko_rkuma.App.Find.{find, count_id}
use ko_rkuma.App.Engine.{engine}
use ko_rkuma.App.Sync.{IsSynced}
use ko_rkuma.App.Sync.All.{handle-IsSynced}
use ko_rkuma.App.Reload.{hot_reload-IsSynced}
use ko_rkuma.App.Start.{load_all-IsSynced}
use ko_rkuma.App.Approval.{approve_permissions-IsNotDenial, approve_permissions-request_save}
use ko_rkuma.App.Panic.{handle-total}
use ko_rkuma.Examples.{alone, builtin_reg, noon, shared, macro_of}
use ko_rkuma.Examples.Runs.{declared, keeps_grant}

-- Formats that write one text and read one value.
abbrev plain : Formats
plain = record {
  constraint_to_json = λ c. "c";
  constraint_to_compact = λ c. "c";
  constraint_from_json = λ s. some (ConstraintConfig.expression s);
  action_to_json = λ a. "a";
  action_to_compact = λ a. "a";
  action_from_json = λ s. some (ActionConfig.notify s "");
  op_to_json = λ op. "op";
  op_from_json = λ s. some (UiOp.click s);
  parse_int = λ s. none;
  parse_float = λ s. none;
  parse_millis = λ s. some 5;
  int_to_string = λ i. "0";
  float_to_string = λ f. "0.0";
  millis_to_string = λ n. "5";
  split_whitespace = λ s. s ∷ [];
  join_spaces = λ words. "";
}

abbrev empty_form : TriggerForm
empty_form = record {
  trigger_kind = "Manual";
  cron = "";
  cron_preset_idx = 0;
  mod1_idx = 0;
  mod2_idx = 0;
  key_idx = 0;
  title_pat = "";
  use_regex = false;
  proc_name = "";
  proc_event_idx = 0;
}

abbrev blank : Window
blank = record {
  macros = [];
  selected_index = none;
  macro_name = "";
  permission_rows = [];
  trigger_rows = [];
  trigger_selected = none;
  trigger_form = empty_form;
  constraint_rows = [];
  constraint_selected = none;
  constraint_edit_json = "";
  constraint_leaf_type = "";
  constraint_form = record {
    aw_title = "";
    aw_regex = false;
    tr_from = "";
    tr_to = "";
    vc_key = "";
    vc_op_idx = 0;
    vc_value = "";
    expr_dsl = "";
  };
  workflow_rows = [];
  workflow_selected = none;
  workflow_edit_json = "";
  workflow_action_type = "";
  action_form = record {
    notify_title = "";
    notify_body = "";
    run_program = "";
    run_args = "";
    run_capture = false;
    script_lang_idx = 0;
    script_source = "";
    delay_ms = "";
    target_type_idx = 0;
    target_pattern = "";
    on_no_bg_idx = 0;
  };
  pending_permissions = [];
  show_permission_dialog = false;
  logs = [];
  log_version = 0;
}

abbrev first_start : App
first_start = record {
  local_macros = [];
  sent = [];
  disk = [];
  suppress_reload = false;
  window = blank;
}

abbrev two : List Macro
two =
    macro_of 7 (TriggerConfig.manual ∷ [])
    ∷ macro_of 8 (TriggerConfig.schedule "* * * * *" ∷ [])
    ∷ []

two-distinct : (id : MacroId) → count_id id two ≤ 1
unfolding count_id
two-distinct id = ground (arith, nat_eq.beq_iff 7 id, nat_eq.beq_iff 8 id)

load_all-IsSynced_example :
    ((load_all two first_start).local_macros ≡ two)
    × ((load_all two first_start).window.macros ≡ map item two)
    × IsSynced (load_all two first_start)
load_all-IsSynced_example = load_all-IsSynced two first_start two-distinct refl refl refl

-- The application with two macros, and with the second selected.
abbrev loaded : App
loaded = load_all two first_start

abbrev selected : App
selected = record loaded { window = record loaded.window { selected_index = some 1 } }

selected_lem : IsSynced selected
selected_lem =
    let (_, _, s) = load_all-IsSynced two first_start two-distinct refl refl refl in
    record { rows = s.rows; held = s.held }

handle-IsSynced_example : IsSynced (add_macro plain 9 true selected)
unfolding handle count_id load_all
handle-IsSynced_example =
    handle-IsSynced plain (Callback.on_add_macro 9) true selected (add_macro plain 9 true selected)
      refl selected_lem refl

handle-total_example : handle plain (Callback.on_move_macro_up 1) true selected ≢ none
unfolding load_all
handle-total_example =
    handle-total plain (Callback.on_move_macro_up 1) true selected (omega arith) selected_lem

same_order : HashOrder
same_order = record { order = λ ids. ids; order-contains = λ ids id. refl }

abbrev edited : List Macro
edited = macro_of 8 (TriggerConfig.manual ∷ []) ∷ macro_of 9 [] ∷ []

edited-distinct : (id : MacroId) → count_id id edited ≤ 1
unfolding count_id
edited-distinct id = ground (arith, nat_eq.beq_iff 8 id, nat_eq.beq_iff 9 id)

hot_reload-IsSynced_example :
    IsSynced (hot_reload plain same_order edited selected)
    × ((id : MacroId)
        → lookup id (engine (hot_reload plain same_order edited selected).sent).macros
          ≡ find id edited)
hot_reload-IsSynced_example =
    hot_reload-IsSynced plain same_order edited selected edited-distinct selected_lem

abbrev second : Macro
second = macro_of 8 (TriggerConfig.schedule "* * * * *" ∷ [])

approve_permissions-request_save_example :
    (g : PermissionSet) × (selected_macro (approve_permissions true (request_save selected))
      ≡ some (record second { granted_permissions = g }))
    × (to_permission_rows g.permissions ≡ (request_save selected).window.pending_permissions)
    × ((approve_permissions true (request_save selected)).window.permission_rows
        ≡ (request_save selected).window.pending_permissions)
unfolding selected_macro get load_all
approve_permissions-request_save_example =
    approve_permissions-request_save true selected second refl

abbrev shortcut : TriggerConfig
shortcut = TriggerConfig.hotkey (record { modifiers = "Ctrl" ∷ "Shift" ∷ []; key = "K" } ∷ [])

build_trigger_from_ui-populate_trigger_fields_example :
    build_trigger_from_ui
      (populate_trigger_fields shortcut empty_form)
      (populate_trigger_fields shortcut empty_form).trigger_kind
    ≡ some shortcut
unfolding contains
build_trigger_from_ui-populate_trigger_fields_example =
    build_trigger_from_ui-populate_trigger_fields shortcut empty_form (
      IsEditable.hotkey (record { offered = refl; is_chosen = refl })
        (IsModifiers.two_modifiers (record { offered = refl; is_chosen = refl })
          (record { offered = refl; is_chosen = refl }) refl))

approve_permissions-IsNotDenial_example :
    (m' : Macro) × (selected_macro (approve_permissions true selected) ≡ some m')
    × (lookup second.id (engine (approve_permissions true selected).sent).macros ≡ some m')
    × All IsNotDenial
        (run_workflow alone builtin_reg
          (root_workflow m')
          (exec_context second.id m' noon false)
          shared).events
unfolding selected_macro get load_all
approve_permissions-IsNotDenial_example =
    approve_permissions-IsNotDenial alone builtin_reg noon shared true selected second refl declared
      keeps_grant
