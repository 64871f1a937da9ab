-- ===== src/App/Sync.antt =====
-- The callbacks keep the engine, the window and the list of macros together.
pub mod Edits
pub mod Forms
pub mod All
use ko_rkuma.Prelude.{
  ℕ, zero, suc, ◌+◌, ◌≤◌, Bool, true, false, ◌≡◌, refl, sym, ap, ◌∙◌, String, List, [], ◌∷◌, ◌++◌,
  Option, none, some, map, length, leb, ltb, ◌==◌, nat_eq, Option-cases, Bool-cases, inl, inr,
  arith, if◌then◌else◌,
}
use ko_rkuma.Domain.{EngineCommand, Macro, MacroId, TriggerConfig, ConstraintExpr, WorkflowNode}
use ko_rkuma.App.State.{
  Formats, MacroItem, Window, App, get, set, remove_at, without, item, send, in_window, persist,
  create_default_macro, refresh_editor, edit_selected,
}
use ko_rkuma.App.MacroList.{
  add_macro, delete_macro, toggle_enabled, trigger_macro, dry_run_macro, macro_selected,
  rename_macro, move_macro_up, move_macro_down, swap_macros, swap, change_row, deselect,
}
use ko_rkuma.App.Find.{
  length-rows, get-in_range, remove_at-in_range, count_id, map-swap, map-without, map-append,
  map-set, map-change_row,
}
use ko_rkuma.App.Held.{
  IsHeld, update-IsHeld, add-IsHeld, delete-IsHeld, swap-IsHeld, run-IsHeld, enable-IsHeld,
  rename-IsHeld,
}
use ko_rkuma.Router.{apply_command}

-- The rows of the list show the macros, and the engine holds them.
pub record IsSynced (app : App) : Type 0 where
  pub rows : app.window.macros ≡ map item app.local_macros
  pub held : IsHeld app.local_macros app.sent

pub persist-IsSynced : (saved : Bool) (app : App) → IsSynced app → IsSynced (persist saved app)
unfolding persist
persist-IsSynced true app s = record { rows = s.rows; held = s.held }
persist-IsSynced false app s = record { rows = s.rows; held = s.held }

-- A change of the window that leaves the rows of the list.
pub in_window-IsSynced :
    (change : Window → Window) (app : App)
    → (change app.window).macros ≡ app.window.macros
    → IsSynced app
    → IsSynced (in_window change app)
in_window-IsSynced change app e s = record { rows = e ∙ s.rows; held = s.held }

pub edit_selected-IsSynced :
    (change : Macro → Option Macro) (show : Macro → Window → Window) (saved : Bool) (app : App)
    → ((m m' : Macro) → change m ≡ some m' → item m' ≡ item m)
    → ((m : Macro) (w : Window) → (show m w).macros ≡ w.macros)
    → IsSynced app
    → IsSynced (edit_selected change show saved app)
unfolding edit_selected
edit_selected-IsSynced change show saved app keeps shows s =
    elim (Option-cases app.window.selected_index) [
      | inl e ↦ rw (e, edit_selected) s
      | inr (sel, e) ↦ elim (Option-cases (get sel app.local_macros)) [
        | inl f ↦ rw (e, edit_selected) (rw (f) (persist-IsSynced saved app s))
        | inr (m, f) ↦ elim (Option-cases (change m)) [
          | inl g ↦ rw (e, edit_selected) (rw (f) (rw (g) (persist-IsSynced saved app s)))
          | inr (m', g) ↦
              rw (e, edit_selected)
                (rw (f) (
                  rw (g) (
                    persist-IsSynced saved _ (record {
                      rows =
                          shows m' app.window
                          ∙ s.rows
                          ∙ sym (map-set sel m m' app.local_macros f (keeps m m' g));
                      held =
                          update-IsHeld app.local_macros app.sent s.held sel m m' f
                            (ap (λ z. z.id) (keeps m m' g));
                    }))))
        ]
      ]
    ]

pub macros-refresh_editor :
    (fmt : Formats) (macros : List Macro) (idx : ℕ) (w : Window)
    → (refresh_editor fmt macros idx w).macros ≡ w.macros
unfolding refresh_editor
macros-refresh_editor fmt macros idx w = elim (Option-cases (get idx macros)) [
  | inl e ↦ rw (e, refresh_editor) refl
  | inr (m, e) ↦ rw (e, refresh_editor) refl
]

macros-deselect : (idx : ℕ) (w : Window) → (deselect idx w).macros ≡ w.macros
unfolding deselect
macros-deselect idx w = elim (Option-cases w.selected_index) [
  | inl e ↦ rw (e, deselect) refl
  | inr (sel, e) ↦ elim (Bool-cases (sel == idx)) [
    | inl f ↦ rw (e, deselect) (rw (f) refl)
    | inr f ↦ elim (Bool-cases (ltb idx sel)) [
      | inl g ↦ rw (e, deselect) (rw (f) (rw (g) refl))
      | inr g ↦ rw (e, deselect) (rw (f) (rw (g) refl))
    ]
  ]
]

unwrap : {x y : App} → some x ≡ some y → x ≡ y
unwrap e = cc

-- The state that a deletion saves.
abbrev after_delete : ℕ → Macro → App → App
after_delete idx m app = record app {
  local_macros = without idx app.local_macros;
  sent = app.sent ++ (EngineCommand.delete_macro m.id ∷ []);
  window = deselect idx (record app.window { macros = without idx app.window.macros });
}

module _ (app : App) (s : IsSynced app) where
  pub send-IsSynced :
      (c : EngineCommand) → IsHeld app.local_macros (app.sent ++ (c ∷ [])) → IsSynced (send c app)
  send-IsSynced c held = record { rows = s.rows; held = held }

  pub add_macro-IsSynced :
      (fmt : Formats) (id : MacroId) (saved : Bool)
      → count_id id app.local_macros ≡ 0
      → IsSynced (add_macro fmt id saved app)
  unfolding add_macro create_default_macro
  add_macro-IsSynced fmt id saved fresh =
      let m = create_default_macro id in
      persist-IsSynced saved _ (record {
        rows =
            macros-refresh_editor fmt _ _ _
            ∙ ap (λ z. z ++ (item m ∷ [])) s.rows
            ∙ map-append m app.local_macros;
        held = add-IsHeld app.local_macros app.sent s.held m fresh;
      })

  -- A deletion does not panic: the rows are as many as the macros.
  pub delete_macro-IsSynced :
      (idx : ℕ) (saved : Bool)
      → (app' : App) × (delete_macro idx saved app ≡ some app') × IsSynced app'
  unfolding delete_macro
  delete_macro-IsSynced idx saved = elim (Option-cases (get idx app.local_macros)) [
    | inl e ↦ (app, rw (e, delete_macro) refl, s)
    | inr (m, e) ↦
        let h = get-in_range idx app.local_macros e in
        let rows =
          remove_at-in_range idx app.window.macros
            (rw (s.rows) (rw (length-rows app.local_macros) h)) in
        let macros = remove_at-in_range idx app.local_macros h in
        (
          persist saved (after_delete idx m app),
          rw (e, delete_macro) (rw (rows) (rw (macros) refl)),
          persist-IsSynced saved (after_delete idx m app) (record {
            rows =
                macros-deselect idx _ ∙ ap (without idx) s.rows ∙ map-without idx app.local_macros;
            held = delete-IsHeld app.local_macros app.sent s.held idx m e;
          }),
        )
  ]

  pub toggle_enabled-IsSynced :
      (idx : ℕ) (enabled saved : Bool) → IsSynced (toggle_enabled idx enabled saved app)
  unfolding toggle_enabled
  toggle_enabled-IsSynced idx enabled saved = elim (Option-cases (get idx app.local_macros)) [
    | inl e ↦ rw (e, toggle_enabled) s
    | inr (m, e) ↦
        let change : MacroItem → MacroItem = λ row. record row { enabled = enabled } in
        rw (e, toggle_enabled)
          (persist-IsSynced saved _ (record {
            rows =
                ap (change_row idx change) s.rows
                ∙ map-change_row idx m (record m { enabled = enabled }) change app.local_macros e
                    refl;
            held = enable-IsHeld app.local_macros app.sent s.held idx m enabled e;
          }))
  ]

  pub rename_macro-IsSynced :
      (idx : ℕ) (new_name : String) (saved : Bool) → IsSynced (rename_macro idx new_name saved app)
  unfolding rename_macro
  rename_macro-IsSynced idx new_name saved = elim (Option-cases (get idx app.local_macros)) [
    | inl e ↦ rw (e, rename_macro) (persist-IsSynced saved app s)
    | inr (m, e) ↦
        let change : MacroItem → MacroItem = λ row. record row { name = new_name } in
        rw (e, rename_macro)
          (persist-IsSynced saved _ (record {
            rows =
                ap (change_row idx change) s.rows
                ∙ map-change_row idx m (record m { name = new_name }) change app.local_macros e
                    refl;
            held = rename-IsHeld app.local_macros app.sent s.held idx m new_name e;
          }))
  ]

  pub dry_run_macro-IsSynced : (idx : ℕ) → IsSynced (dry_run_macro idx app)
  unfolding dry_run_macro apply_command
  dry_run_macro-IsSynced idx = elim (Option-cases (get idx app.local_macros)) [
    | inl e ↦ rw (e, dry_run_macro) s
    | inr (m, e) ↦
        rw (e, dry_run_macro)
          (send-IsSynced (EngineCommand.dry_run_macro m.id) (
            run-IsHeld app.local_macros app.sent s.held (EngineCommand.dry_run_macro m.id)
              (λ r. refl) tt))
  ]

  pub macro_selected-IsSynced : (fmt : Formats) (idx : ℕ) → IsSynced (macro_selected fmt idx app)
  unfolding macro_selected
  macro_selected-IsSynced fmt idx = record {
    rows = macros-refresh_editor fmt app.local_macros idx _ ∙ s.rows;
    held = s.held;
  }

  pub swap_macros-IsSynced :
      (upper : ℕ) (saved : Bool) (app' : App)
      → swap_macros upper saved app ≡ some app'
      → IsSynced app'
  unfolding swap_macros
  swap_macros-IsSynced upper saved app' = elim (Option-cases (swap upper app.local_macros)) [
    | inl e ↦ rw (e, swap_macros) (λ h. cc)
    | inr (macros, e) ↦
        let rows : swap upper app.window.macros ≡ some (map item macros) =
          ap (swap upper) s.rows ∙ map-swap upper app.local_macros macros e in
        rw (e, swap_macros)
          (rw (rows) (λ h. rw (sym (unwrap h)) (
            persist-IsSynced saved _ (record {
              rows = refl;
              held = swap-IsHeld app.local_macros app.sent s.held upper macros e;
            }))))
  ]
