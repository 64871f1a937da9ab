-- ===== src/App/Sync/Forms.antt =====
-- The callbacks that select rows, read the forms or move macros.
use ko_rkuma.Prelude.{
  Option, ℕ, zero, suc, Bool, ◌≡◌, refl, sym, ◌∙◌, String, some, Option-cases, Bool-cases, inl, inr,
  length, leb, ◌+◌,
}
use ko_rkuma.Domain.{EngineCommand, ActionConfig}
use ko_rkuma.Router.{apply_command}
use ko_rkuma.App.State.{Formats, Window, App, get, refresh_editor}
use ko_rkuma.App.MacroList.{trigger_macro, move_macro_up, move_macro_down}
use ko_rkuma.App.Constraints.{
  constraint_node_selected, constraint_update_node, constraint_update, build_constraint,
}
use ko_rkuma.App.Steps.{
  workflow_node_selected, workflow_update_node, workflow_update, build_action, populate_action,
}
use ko_rkuma.App.Triggers.{selected_macro, trigger_select, trigger_apply, request_save}
use ko_rkuma.App.TriggerForm.{build_trigger_from_ui}
use ko_rkuma.App.Held.{run-IsHeld}
use ko_rkuma.App.Sync.{
  IsSynced, in_window-IsSynced, send-IsSynced, macros-refresh_editor, swap_macros-IsSynced,
}
use ko_rkuma.App.Sync.Edits.{
  replace_trigger-IsSynced, edit_constraints-IsSynced, edit_workflow-IsSynced,
}

pub by_result : (app app' : App) → IsSynced app → some app ≡ some app' → IsSynced app'
by_result app app' s e = let f : app ≡ app' = cc in rw (sym f) s

-- Where a callback is known to give a state.
pub by_total :
    (r : Option App) (app' : App)
    → ((app'' : App) × (r ≡ some app'') × IsSynced app'')
    → r ≡ some app'
    → IsSynced app'
by_total r app' (app'', given, s) e = by_result app'' app' s (sym given ∙ e)

macros-populate_action :
    (fmt : Formats) (json : String) (cfg : ActionConfig) (w : Window)
    → (populate_action fmt json cfg w).macros ≡ w.macros
unfolding populate_action
macros-populate_action fmt json (ActionConfig.notify title body) w = refl
macros-populate_action fmt json (ActionConfig.run_command program args capture) w = refl
macros-populate_action fmt json (ActionConfig.run_script lang source) w = refl
macros-populate_action fmt json (ActionConfig.delay millis) w = refl
macros-populate_action fmt json (ActionConfig.interact target op no_bg) w = refl
macros-populate_action fmt json _ w = refl

module _ (fmt : Formats) (saved : Bool) (app : App) (s : IsSynced app) where
  pub trigger_macro-IsSynced : (idx : ℕ) → IsSynced (trigger_macro fmt idx app)
  unfolding trigger_macro apply_command
  trigger_macro-IsSynced idx =
      let shown =
        in_window-IsSynced (refresh_editor fmt app.local_macros idx) app
          (macros-refresh_editor fmt _ _ _) s in
      elim (Option-cases (get idx app.local_macros)) [
        | inl e ↦ rw (e, trigger_macro) shown
        | inr (m, e) ↦
            rw (e, trigger_macro)
              (send-IsSynced _ shown (EngineCommand.trigger_manually m.id) (
                run-IsHeld app.local_macros app.sent s.held (EngineCommand.trigger_manually m.id)
                  (λ r. refl) tt))
      ]

  pub constraint_node_selected-IsSynced :
      (idx : ℕ) → IsSynced (constraint_node_selected fmt idx app)
  unfolding constraint_node_selected
  constraint_node_selected-IsSynced idx = elim (Option-cases (get idx app.window.constraint_rows)) [
    | inl e ↦ rw (e, constraint_node_selected) s
    | inr (row, e) ↦ rw (e, constraint_node_selected) (record { rows = s.rows; held = s.held })
  ]

  pub workflow_node_selected-IsSynced : (idx : ℕ) → IsSynced (workflow_node_selected fmt idx app)
  unfolding workflow_node_selected
  workflow_node_selected-IsSynced idx = elim (Option-cases (get idx app.window.workflow_rows)) [
    | inl e ↦ rw (e, workflow_node_selected) s
    | inr (row, e) ↦ elim (Option-cases (fmt.action_from_json row.params_json)) [
      | inl f ↦ rw (e, workflow_node_selected) (rw (f) (record { rows = s.rows; held = s.held }))
      | inr (cfg, f) ↦
          rw (e, workflow_node_selected)
            (rw (f) (record {
              rows = macros-populate_action fmt row.params_json cfg _ ∙ s.rows;
              held = s.held;
            }))
    ]
  ]

  pub trigger_select-IsSynced : (tidx : ℕ) → IsSynced (trigger_select tidx app)
  unfolding trigger_select
  trigger_select-IsSynced tidx = elim (Option-cases (selected_macro app)) [
    | inl e ↦ rw (e, trigger_select) s
    | inr (m, e) ↦ elim (Option-cases (get tidx m.triggers)) [
      | inl f ↦ rw (e, trigger_select) (rw (f) s)
      | inr (t, f) ↦ rw (e, trigger_select) (rw (f) (record { rows = s.rows; held = s.held }))
    ]
  ]

  pub request_save-IsSynced : IsSynced (request_save app)
  unfolding request_save
  request_save-IsSynced = elim (Option-cases (selected_macro app)) [
    | inl e ↦ rw (e, request_save) s
    | inr (m, e) ↦ rw (e, request_save) (record { rows = s.rows; held = s.held })
  ]

  pub constraint_update_node-IsSynced :
      (idx : ℕ) (json : String) → IsSynced (constraint_update_node fmt idx json saved app)
  unfolding constraint_update_node
  constraint_update_node-IsSynced idx json = edit_constraints-IsSynced saved app s fmt _

  pub constraint_update-IsSynced : IsSynced (constraint_update fmt saved app)
  unfolding constraint_update
  constraint_update-IsSynced = elim (Option-cases app.window.selected_index) [
    | inl e ↦ rw (e, constraint_update) s
    | inr (sel, e) ↦ elim (Option-cases app.window.constraint_selected) [
      | inl f ↦ rw (e, constraint_update) (rw (f) s)
      | inr (idx, f) ↦
          elim (Option-cases
            (build_constraint fmt app.window.constraint_leaf_type app.window.constraint_form)) [
              | inl g ↦ rw (e, constraint_update) (rw (f) (rw (g) s))
              | inr (cfg, g) ↦
                  rw (e, constraint_update)
                    (rw (f) (rw (g) (constraint_update_node-IsSynced idx _)))
            ]
    ]
  ]

  pub workflow_update_node-IsSynced :
      (idx : ℕ) (json : String) → IsSynced (workflow_update_node fmt idx json saved app)
  unfolding workflow_update_node
  workflow_update_node-IsSynced idx json = edit_workflow-IsSynced saved app s fmt _

  pub workflow_update-IsSynced : IsSynced (workflow_update fmt saved app)
  unfolding workflow_update
  workflow_update-IsSynced = elim (Option-cases app.window.selected_index) [
    | inl e ↦ rw (e, workflow_update) s
    | inr (sel, e) ↦ elim (Option-cases app.window.workflow_selected) [
      | inl f ↦ rw (e, workflow_update) (rw (f) s)
      | inr (idx, f) ↦
          elim (Option-cases (
            build_action fmt app.window.workflow_action_type app.window.workflow_edit_json
              app.window.action_form)) [
                | inl g ↦ rw (e, workflow_update) (rw (f) (rw (g) s))
                | inr (cfg, g) ↦
                    rw (e, workflow_update) (rw (f) (rw (g) (workflow_update_node-IsSynced idx _)))
              ]
    ]
  ]

  pub trigger_apply-IsSynced : (app' : App) → trigger_apply saved app ≡ some app' → IsSynced app'
  unfolding trigger_apply
  trigger_apply-IsSynced app' = elim (Option-cases app.window.selected_index) [
    | inl e ↦ rw (e, trigger_apply) (by_result app app' s)
    | inr (sel, e) ↦ elim (Option-cases app.window.trigger_selected) [
      | inl f ↦ rw (e, trigger_apply) (rw (f) (by_result app app' s))
      | inr (tidx, f) ↦
          elim (Option-cases
            (build_trigger_from_ui app.window.trigger_form app.window.trigger_form.trigger_kind)) [
              | inl g ↦ rw (e, trigger_apply) (rw (f) (rw (g) (λ h. cc)))
              | inr (t, g) ↦
                  rw (e, trigger_apply)
                    (rw (f)
                      (rw (g) (by_result _ app' (replace_trigger-IsSynced saved app s tidx t))))
            ]
    ]
  ]

  pub move_macro_up-IsSynced :
      (idx : ℕ) (app' : App) → move_macro_up idx saved app ≡ some app' → IsSynced app'
  unfolding move_macro_up
  move_macro_up-IsSynced zero app' = by_result app app' s
  move_macro_up-IsSynced (suc upper) app' = swap_macros-IsSynced app s upper saved app'

  pub move_macro_down-IsSynced :
      (idx : ℕ) (app' : App) → move_macro_down idx saved app ≡ some app' → IsSynced app'
  unfolding move_macro_down
  move_macro_down-IsSynced idx app' = elim (Bool-cases (leb (length app.local_macros) (idx + 1))) [
    | inl e ↦ rw (e, move_macro_down) (by_result app app' s)
    | inr e ↦ rw (e, move_macro_down) (swap_macros-IsSynced app s idx saved app')
  ]
