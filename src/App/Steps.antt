-- ===== src/App/Steps.antt =====
-- crates/app/src/callbacks.rs: the callbacks on the workflow of the selected macro.
use ko_rkuma.Prelude.{
  ℕ, Bool, false, String, Option, none, some, ◌==◌, string_eq, nat_eq, if◌then◌else◌,
}
use ko_rkuma.Domain.{
  ActionConfig, ScriptLang, TargetSelector, UiOp, OnNoBackground, Macro, WorkflowNode,
  root_workflow,
}
use ko_rkuma.Editor.Steps.{
  add_workflow_action, add_workflow_if, add_workflow_parallel, default_action_config,
}
use ko_rkuma.Editor.Steps.Rows.{flatten_workflow}
use ko_rkuma.Editor.Steps.Replace.{update_workflow_action}
use ko_rkuma.Editor.Steps.Delete.{delete_workflow_at}
use ko_rkuma.Editor.Steps.Move.{move_workflow_node}
use ko_rkuma.App.TriggerForm.{or_else}
use ko_rkuma.App.State.{Formats, ActionForm, Window, App, get, edit_selected}

abbrev pub target_index : TargetSelector → ℕ
target_index TargetSelector.foreground = 0
target_index (TargetSelector.window title_pattern regex) = 1
target_index (TargetSelector.process name) = 2
target_index (TargetSelector.browser_tab url_pattern) = 3
target_index (TargetSelector.custom provider params) = 0

abbrev pub target_text : TargetSelector → String
target_text TargetSelector.foreground = ""
target_text (TargetSelector.window title_pattern regex) = title_pattern
target_text (TargetSelector.process name) = name
target_text (TargetSelector.browser_tab url_pattern) = url_pattern
target_text (TargetSelector.custom provider params) = provider

abbrev pub no_background_index : OnNoBackground → ℕ
no_background_index OnNoBackground.degrade = 0
no_background_index OnNoBackground.fail = 1
no_background_index OnNoBackground.queue = 2

unfoldable pub target_of : ℕ → String → TargetSelector
target_of i pattern =
    if i == 1
    then TargetSelector.window pattern false
    else if i == 2
    then TargetSelector.process pattern
    else if i == 3
    then TargetSelector.browser_tab pattern
    else TargetSelector.foreground

unfoldable pub no_background_of : ℕ → OnNoBackground
no_background_of i =
    if i == 1
    then OnNoBackground.fail
    else if i == 2
    then OnNoBackground.queue
    else OnNoBackground.degrade

unfoldable pub set_workflow : (WorkflowNode → WorkflowNode) → Macro → Option Macro
unfolding root_workflow
set_workflow change m = some (record m { workflow = some (change (root_workflow m)) })

module _ (fmt : Formats) where
  -- The arms on the action that the selected row holds; `json` is the text of the row.
  unfoldable pub populate_action : String → ActionConfig → Window → Window
  populate_action json (ActionConfig.notify title body) w = record w {
    action_form = record w.action_form { notify_title = title; notify_body = body };
  }
  populate_action json (ActionConfig.run_command program args capture) w = record w {
    action_form = record w.action_form {
      run_program = program;
      run_args = fmt.join_spaces args;
      run_capture = capture;
    };
  }
  populate_action json (ActionConfig.run_script lang source) w = record w {
    action_form = record w.action_form { script_lang_idx = 0; script_source = source };
  }
  populate_action json (ActionConfig.delay millis) w = record w {
    action_form = record w.action_form { delay_ms = fmt.millis_to_string millis };
  }
  populate_action json (ActionConfig.interact target op on_no_background) w = record w {
    action_form = record w.action_form {
      target_type_idx = target_index target;
      target_pattern = target_text target;
      on_no_bg_idx = no_background_index on_no_background;
    };
    workflow_edit_json = fmt.op_to_json op;
  }
  populate_action json _ w = record w { workflow_edit_json = json }

  unfoldable pub workflow_node_selected : ℕ → App → App
  unfolding get
  workflow_node_selected idx app = elim (get idx app.window.workflow_rows) [
    | none ↦ app
    | some row ↦
        let w = record app.window { workflow_action_type = row.action_type } in
        record app {
          window = elim (fmt.action_from_json row.params_json) [
            | none ↦ w
            | some cfg ↦ populate_action row.params_json cfg w
          ];
        }
  ]

  -- The action that the form describes; `none` for a text that is no action.
  unfoldable pub build_action : String → String → ActionForm → Option ActionConfig
  unfolding target_of no_background_of
  build_action action_type edit_json form =
      if action_type == "Notify"
      then some (ActionConfig.notify form.notify_title form.notify_body)
      else if action_type == "RunCommand"
      then some (
          ActionConfig.run_command form.run_program (fmt.split_whitespace form.run_args)
            form.run_capture)
      else if action_type == "RunScript"
      then some (ActionConfig.run_script ScriptLang.rhai form.script_source)
      else if action_type == "Delay"
      then some (ActionConfig.delay (or_else (fmt.parse_millis form.delay_ms) 1000))
      else if action_type == "Interact"
      then some (
          ActionConfig.interact (target_of form.target_type_idx form.target_pattern)
            (or_else (fmt.op_from_json edit_json) (UiOp.click ""))
            (no_background_of form.on_no_bg_idx))
      else fmt.action_from_json edit_json

  unfoldable pub show_workflow : Macro → Window → Window
  unfolding flatten_workflow root_workflow
  show_workflow m w = record w {
    workflow_rows = flatten_workflow fmt.action_to_json (root_workflow m);
  }

  unfoldable pub edit_workflow : (WorkflowNode → WorkflowNode) → Bool → App → App
  edit_workflow change = edit_selected (set_workflow change) show_workflow

  unfoldable pub workflow_update_node : ℕ → String → Bool → App → App
  workflow_update_node idx new_json =
      edit_workflow (λ n. update_workflow_action fmt.action_from_json n idx new_json)

  unfoldable pub workflow_update : Bool → App → App
  workflow_update saved app = elim app.window.selected_index [
    | none ↦ app
    | some sel ↦ elim app.window.workflow_selected [
      | none ↦ app
      | some node_idx ↦
          elim (build_action app.window.workflow_action_type app.window.workflow_edit_json
            app.window.action_form) [
              | none ↦ app
              | some new_cfg ↦
                  workflow_update_node node_idx (fmt.action_to_compact new_cfg) saved app
            ]
    ]
  ]

  unfoldable pub show_workflow_deselected : Macro → Window → Window
  show_workflow_deselected m w = record (show_workflow m w) {
    workflow_selected = none;
    workflow_edit_json = "";
    workflow_action_type = "";
  }

  unfoldable pub workflow_delete_node : ℕ → Bool → App → App
  workflow_delete_node idx =
      edit_selected (set_workflow (λ n. delete_workflow_at n idx)) show_workflow_deselected

  unfoldable pub workflow_add_action : String → Bool → App → App
  workflow_add_action action_type =
      edit_workflow (λ n. add_workflow_action n (default_action_config action_type))

  unfoldable pub workflow_add_if : Bool → App → App
  workflow_add_if = edit_workflow add_workflow_if

  unfoldable pub workflow_add_parallel : Bool → App → App
  workflow_add_parallel = edit_workflow add_workflow_parallel

  unfoldable pub workflow_move : Bool → ℕ → Bool → App → App
  workflow_move up idx = edit_workflow (λ n. move_workflow_node n idx up)
