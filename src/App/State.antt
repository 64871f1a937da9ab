-- ===== src/App/State.antt =====
-- crates/app/src/callbacks.rs and model.rs: the state of the desktop application and what its
-- callbacks share. A `Uuid` of the window is a number. An index of the window is `none` where the
-- source has a negative number. What the engine makes of the commands is in App/Engine.
use ko_rkuma.Prelude.{
  ℕ, zero, suc, ◌^◌, ◌+◌, Bool, true, false, String, List, [], ◌∷◌, ◌++◌, Option, none, some,
  length, leb, ltb, map, if◌then◌else◌,
}
use ko_rkuma.Domain.{
  ℤ, ActionConfig, ConstraintConfig, ConstraintExpr, UiOp, EngineCommand, Macro, MacroId,
  Permission, TriggerConfig, ConcurrencyPolicy, root_workflow,
}
use ko_rkuma.Permission.{aggregate_from_configs}
use ko_rkuma.Permission.Describe.{describe}
use ko_rkuma.Editor.Rows.{Text, Piece, ConstraintTreeRow, flatten_constraint}
use ko_rkuma.Editor.Steps.Rows.{WorkflowTreeRow, flatten_workflow}
use ko_rkuma.App.TriggerForm.{TriggerForm, TriggerRow, to_slint_trigger_rows}

-- serde_json (`to_string_pretty`, `to_string` and `from_str`), and the number and text functions of the standard library that the forms use. An
-- `f64` is carried as its 64 bits.
pub record Formats : Type 0 where
  pub constraint_to_json : ConstraintConfig → String
  pub constraint_to_compact : ConstraintConfig → String
  pub constraint_from_json : String → Option ConstraintConfig
  pub action_to_json : ActionConfig → String
  pub action_to_compact : ActionConfig → String
  pub action_from_json : String → Option ActionConfig
  pub op_to_json : UiOp → String
  pub op_from_json : String → Option UiOp
  pub parse_int : String → Option ℤ
  pub parse_float : String → Option ℕ
  pub parse_millis : String → Option ℕ
  pub int_to_string : ℤ → String
  pub float_to_string : ℕ → String
  pub millis_to_string : ℕ → String
  pub split_whitespace : String → List String
  pub join_spaces : List String → String

pub record MacroItem : Type 0 where
  pub id : MacroId
  pub name : String
  pub enabled : Bool

pub record LogEntry : Type 0 where
  pub level : String
  pub source : String
  pub message : Text

-- The properties of the window that belong to the form of a constraint.
pub record ConstraintForm : Type 0 where
  pub aw_title : String
  pub aw_regex : Bool
  pub tr_from : String
  pub tr_to : String
  pub vc_key : String
  pub vc_op_idx : ℕ
  pub vc_value : String
  pub expr_dsl : String

-- The properties of the window that belong to the form of an action.
pub record ActionForm : Type 0 where
  pub notify_title : String
  pub notify_body : String
  pub run_program : String
  pub run_args : String
  pub run_capture : Bool
  pub script_lang_idx : ℕ
  pub script_source : String
  pub delay_ms : String
  pub target_type_idx : ℕ
  pub target_pattern : String
  pub on_no_bg_idx : ℕ

pub record Window : Type 0 where
  pub macros : List MacroItem
  pub selected_index : Option ℕ
  pub macro_name : String
  pub permission_rows : List Text
  pub trigger_rows : List TriggerRow
  pub trigger_selected : Option ℕ
  pub trigger_form : TriggerForm
  pub constraint_rows : List ConstraintTreeRow
  pub constraint_selected : Option ℕ
  pub constraint_edit_json : String
  pub constraint_leaf_type : String
  pub constraint_form : ConstraintForm
  pub workflow_rows : List WorkflowTreeRow
  pub workflow_selected : Option ℕ
  pub workflow_edit_json : String
  pub workflow_action_type : String
  pub action_form : ActionForm
  pub pending_permissions : List Text
  pub show_permission_dialog : Bool
  pub logs : List LogEntry
  pub log_version : ℕ

-- `sent` holds the commands of the engine's channel in order, `disk` what macros.json holds.
pub record App : Type 0 where
  pub local_macros : List Macro
  pub sent : List EngineCommand
  pub disk : List Macro
  pub suppress_reload : Bool
  pub window : Window

-- `list.get(i)`
unfoldable pub get {ℓ} : {A : Type ℓ} → ℕ → List A → Option A
get i [] = none
get zero (x ∷ xs) = some x
get (suc i) (x ∷ xs) = get i xs

-- Writing through `list.get_mut(i)`.
unfoldable pub set {ℓ} : {A : Type ℓ} → ℕ → A → List A → List A
set i a [] = []
set zero a (x ∷ xs) = a ∷ xs
set (suc i) a (x ∷ xs) = x ∷ set i a xs

-- A list without the element at a place.
unfoldable pub without {ℓ} : {A : Type ℓ} → ℕ → List A → List A
without i [] = []
without zero (x ∷ xs) = xs
without (suc i) (x ∷ xs) = x ∷ without i xs

-- `remove(i)` of a vector and of a model of the window. `none` is the panic out of range.
unfoldable pub remove_at {ℓ} : {A : Type ℓ} → ℕ → List A → Option (List A)
unfolding without
remove_at i xs = if ltb i (length xs) then some (without i xs) else none

abbrev pub item : Macro → MacroItem
item m = record { id = m.id; name = m.name; enabled = m.enabled }

abbrev pub send : EngineCommand → App → App
send command app = record app { sent = app.sent ++ (command ∷ []) }

abbrev pub in_window : (Window → Window) → App → App
in_window change app = record app { window = change app.window }

-- `saved` says whether `save_macros` succeeds.
unfoldable pub persist : Bool → App → App
persist saved app =
    if saved
    then record app { disk = app.local_macros; suppress_reload = true }
    else record app { suppress_reload = false }

unfoldable pub create_default_macro : MacroId → Macro
unfolding aggregate_from_configs
create_default_macro id =
    let actions = ActionConfig.notify "KoRkuma" "Macro fired!" ∷ [] in
    record {
      id = id;
      name = "New Macro";
      description = "";
      enabled = true;
      category = none;
      triggers = TriggerConfig.manual ∷ [];
      constraints = ConstraintExpr.always;
      actions = actions;
      workflow = none;
      granted_permissions = aggregate_from_configs actions;
      priority = 2 ^ 31;
      concurrency = ConcurrencyPolicy.parallel;
    }

-- `logs.insert(0, entry)`, then the cut to 500 entries.
unfoldable pub cut_logs : ℕ → List LogEntry → List LogEntry
cut_logs n [] = []
cut_logs zero (e ∷ logs) = []
cut_logs (suc n) (e ∷ logs) = e ∷ cut_logs n logs

unfoldable pub push_log : LogEntry → Window → Window
unfolding cut_logs
push_log entry w = record w {
  logs = cut_logs 500 (entry ∷ w.logs);
  log_version = w.log_version + 1;
}

unfoldable pub to_permission_rows : List Permission → List Text
to_permission_rows [] = []
to_permission_rows (p ∷ permissions) = describe p ∷ to_permission_rows permissions

unfoldable pub refresh_permission_rows : Macro → Window → Window
unfolding to_permission_rows
refresh_permission_rows m w = record w {
  permission_rows = to_permission_rows m.granted_permissions.permissions;
}

-- What follows where the selected macro is gone.
abbrev pub clear_editor : Window → Window
clear_editor w = record w {
  selected_index = none;
  macro_name = "";
  constraint_edit_json = "";
  constraint_leaf_type = "";
  workflow_edit_json = "";
  workflow_action_type = "";
}

module _ (fmt : Formats) where
  unfoldable pub show_macro : Macro → Window → Window
  unfolding flatten_constraint flatten_workflow root_workflow to_slint_trigger_rows
      refresh_permission_rows
  show_macro m w = record (refresh_permission_rows m (record w { macro_name = m.name })) {
    trigger_rows = to_slint_trigger_rows m.triggers;
    trigger_selected = none;
    trigger_form = record w.trigger_form { trigger_kind = "Manual" };
    constraint_rows = flatten_constraint fmt.constraint_to_json m.constraints;
    constraint_selected = none;
    constraint_edit_json = "";
    constraint_leaf_type = "";
    workflow_rows = flatten_workflow fmt.action_to_json (root_workflow m);
    workflow_selected = none;
    workflow_edit_json = "";
    workflow_action_type = "";
  }

  unfoldable pub refresh_editor : List Macro → ℕ → Window → Window
  unfolding show_macro get
  refresh_editor macros idx w = elim (get idx macros) [ none ↦ w | some m ↦ show_macro m w ]

  unfoldable pub reload_selected : List Macro → Option ℕ → Window → Window
  unfolding refresh_editor
  reload_selected macros none w = w
  reload_selected macros (some sel) w =
      if leb (length macros) sel then clear_editor w else refresh_editor macros sel w

  unfoldable pub reload_ui_model : List Macro → Window → Window
  unfolding reload_selected push_log
  reload_ui_model macros w =
      push_log
        (record {
          level = "INFO";
          source = "watcher";
          message =
              Piece.text "hot-reloaded "
              ∷ Piece.number (length macros)
              ∷ Piece.text " macro(s) from macros.json"
              ∷ [];
        })
        (reload_selected macros w.selected_index (record w { macros = map item macros }))

-- The pattern of the callbacks that edit the selected macro: nothing without a selection, else the
-- macro is changed, sent to the engine and shown, and the list is saved whether or not there was
-- something to change.
unfoldable pub edit_selected : (Macro → Option Macro) → (Macro → Window → Window) → Bool → App → App
unfolding get set
edit_selected change show saved app = elim app.window.selected_index [
  | none ↦ app
  | some sel ↦ elim (get sel app.local_macros) [
    | none ↦ persist saved app
    | some m ↦ elim (change m) [
      | none ↦ persist saved app
      | some m' ↦ persist saved (record app {
        local_macros = set sel m' app.local_macros;
        sent = app.sent ++ (EngineCommand.update_macro m' ∷ []);
        window = show m' app.window;
      })
    ]
  ]
]
