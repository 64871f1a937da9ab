-- ===== src/App/Triggers.antt =====
-- crates/app/src/callbacks.rs: the callbacks on the triggers and the permissions of the selected
-- macro.
use ko_rkuma.Prelude.{
  ℕ, Bool, true, false, String, List, [], ◌∷◌, ◌++◌, Option, none, some, length, ltb, if◌then◌else◌,
}
use ko_rkuma.Domain.{Macro, TriggerConfig, root_workflow}
use ko_rkuma.Permission.{aggregate_from_workflow}
use ko_rkuma.App.State.{
  Window, App, get, set, remove_at, in_window, to_permission_rows, refresh_permission_rows,
  edit_selected,
}
use ko_rkuma.App.TriggerForm.{
  to_slint_trigger_rows, default_trigger_config, populate_trigger_fields, build_trigger_from_ui,
}

unfoldable pub show_triggers : Macro → Window → Window
unfolding to_slint_trigger_rows
show_triggers m w = record w { trigger_rows = to_slint_trigger_rows m.triggers }

unfoldable pub show_triggers_deselected : Macro → Window → Window
show_triggers_deselected m w = record (show_triggers m w) {
  trigger_selected = none;
  trigger_form = record w.trigger_form { trigger_kind = "Manual" };
}

-- What an edit with a removal does to a macro: `none` is the panic of the removal, `some none`
-- leaves the macro.
abbrev pub Removal : Type 0
Removal = Option (Option Macro)

abbrev with_rest : {A : Type 0} → (List A → Macro) → Option (List A) → Removal
with_rest change none = none
with_rest change (some rest) = some (some (change rest))

unfoldable pub delete_trigger : ℕ → Macro → Removal
unfolding remove_at
delete_trigger tidx m =
    if ltb tidx (length m.triggers)
    then with_rest (λ rest. record m { triggers = rest }) (remove_at tidx m.triggers)
    else some none

unfoldable pub replace_trigger : ℕ → TriggerConfig → Macro → Option Macro
unfolding get set
replace_trigger tidx new_trigger m = elim (get tidx m.triggers) [
  | none ↦ none
  | some t ↦ some (record m { triggers = set tidx new_trigger m.triggers })
]

unfoldable pub grant_aggregated : Macro → Option Macro
unfolding aggregate_from_workflow root_workflow
grant_aggregated m =
    some (record m { granted_permissions = aggregate_from_workflow (root_workflow m) })

unfoldable pub revoke : ℕ → Macro → Removal
unfolding remove_at
revoke pidx m =
    let granted = m.granted_permissions.permissions in
    if ltb pidx (length granted)
    then with_rest (λ rest. record m { granted_permissions = record { permissions = rest } })
        (remove_at pidx granted)
    else some none

-- The selected macro.
unfoldable pub selected_macro : App → Option Macro
unfolding get
selected_macro app = elim app.window.selected_index [
  | none ↦ none
  | some sel ↦ get sel app.local_macros
]

abbrev pub removed : Removal → Option Macro
removed none = none
removed (some change) = change

-- `edit_selected` with a removal, which panics out of range.
unfoldable pub edit_removing :
    (Macro → Removal) → (Macro → Window → Window) → Bool → App → Option App
edit_removing change show saved app =
    let edited = edit_selected (λ m. removed (change m)) show saved app in
    elim (selected_macro app) [
      | none ↦ some edited
      | some m ↦ elim (change m) [ none ↦ none | some c ↦ some edited ]
    ]

unfoldable pub trigger_select : ℕ → App → App
unfolding get
trigger_select tidx app = elim (selected_macro app) [
  | none ↦ app
  | some m ↦ elim (get tidx m.triggers) [
    | none ↦ app
    | some trigger ↦
        in_window (λ w. record w { trigger_form = populate_trigger_fields trigger w.trigger_form })
          app
  ]
]

unfoldable pub trigger_add : String → Bool → App → App
trigger_add kind =
    edit_selected
      (λ m. some (record m { triggers = m.triggers ++ (default_trigger_config kind ∷ []) }))
      show_triggers

unfoldable pub trigger_delete : ℕ → Bool → App → Option App
trigger_delete tidx = edit_removing (delete_trigger tidx) show_triggers_deselected

-- `none` is the panic of the form.
unfoldable pub trigger_apply : Bool → App → Option App
trigger_apply saved app = elim app.window.selected_index [
  | none ↦ some app
  | some midx ↦ elim app.window.trigger_selected [
    | none ↦ some app
    | some tidx ↦
        elim (build_trigger_from_ui app.window.trigger_form app.window.trigger_form.trigger_kind) [
          | none ↦ none
          | some new_trigger ↦
              some (edit_selected (replace_trigger tidx new_trigger) show_triggers saved app)
        ]
  ]
]

unfoldable pub approve_permissions : Bool → App → App
approve_permissions saved app =
    edit_selected grant_aggregated refresh_permission_rows saved
      (in_window (λ w. record w { show_permission_dialog = false }) app)

unfoldable pub revoke_permission : ℕ → Bool → App → Option App
revoke_permission pidx = edit_removing (revoke pidx) refresh_permission_rows

unfoldable pub request_save : App → App
unfolding aggregate_from_workflow root_workflow
request_save app = elim (selected_macro app) [
  | none ↦ app
  | some m ↦
      in_window
        (λ w. record w {
          pending_permissions =
              to_permission_rows (aggregate_from_workflow (root_workflow m)).permissions;
          show_permission_dialog = true;
        })
        app
]

abbrev pub cancel_permissions : App → App
cancel_permissions app = in_window (λ w. record w { show_permission_dialog = false }) app
