-- ===== src/App/MacroList.antt =====
-- crates/app/src/callbacks.rs: the callbacks on the list of macros.
use ko_rkuma.Prelude.{
  ℕ, zero, suc, ◌-◌, ◌+◌, Bool, String, List, [], ◌∷◌, ◌++◌, Option, none, some, length, ltb, leb,
  ◌==◌, nat_eq, if◌then◌else◌,
}
use ko_rkuma.Domain.{EngineCommand, MacroId}
use ko_rkuma.App.State.{
  Formats, MacroItem, Window, App, get, set, remove_at, item, send, in_window, persist,
  create_default_macro, clear_editor, refresh_editor,
}

module _ (fmt : Formats) where
  -- `id` is the result of `Uuid::new_v4()`.
  unfoldable pub add_macro : MacroId → Bool → App → App
  add_macro id saved app =
      let m = create_default_macro id in
      let macros = app.local_macros ++ (m ∷ []) in
      let new_idx = length app.local_macros in
      let w = record app.window {
        macros = app.window.macros ++ (item m ∷ []);
        selected_index = some new_idx;
      } in
      persist saved (record app {
        local_macros = macros;
        sent = app.sent ++ (EngineCommand.add_macro m ∷ []);
        window = refresh_editor fmt macros new_idx w;
      })

  unfoldable pub trigger_macro : ℕ → App → App
  unfolding get
  trigger_macro idx app =
      let shown = in_window (refresh_editor fmt app.local_macros idx) app in
      elim (get idx app.local_macros) [
        | none ↦ shown
        | some m ↦ send (EngineCommand.trigger_manually m.id) shown
      ]

  -- The window selects the row before it calls `macro-selected`.
  unfoldable pub macro_selected : ℕ → App → App
  macro_selected idx app =
      in_window
        (λ w. refresh_editor fmt app.local_macros idx (record w { selected_index = some idx })) app

-- The selection after the macro at `idx` is gone.
unfoldable pub deselect : ℕ → Window → Window
deselect idx w = elim w.selected_index [
  | none ↦ w
  | some sel ↦
      if sel == idx
      then clear_editor w
      else if ltb idx sel
      then record w { selected_index = some (sel - 1) }
      else w
]

-- `none` is a panic of one of the two removals.
unfoldable pub delete_macro : ℕ → Bool → App → Option App
unfolding get remove_at
delete_macro idx saved app = elim (get idx app.local_macros) [
  | none ↦ some app
  | some m ↦ elim (remove_at idx app.window.macros) [
    | none ↦ none
    | some rows ↦ elim (remove_at idx app.local_macros) [
      | none ↦ none
      | some macros ↦ some (
          persist saved (record app {
            local_macros = macros;
            sent = app.sent ++ (EngineCommand.delete_macro m.id ∷ []);
            window = deselect idx (record app.window { macros = rows });
          }))
    ]
  ]
]

-- `model.row_data(idx)` and `set_row_data`.
unfoldable pub change_row : ℕ → (MacroItem → MacroItem) → List MacroItem → List MacroItem
unfolding get set
change_row idx change rows = elim (get idx rows) [
  | none ↦ rows
  | some row ↦ set idx (change row) rows
]

unfoldable pub toggle_enabled : ℕ → Bool → Bool → App → App
unfolding get set
toggle_enabled idx enabled saved app = elim (get idx app.local_macros) [
  | none ↦ app
  | some m ↦ persist saved (record app {
    local_macros = set idx (record m { enabled = enabled }) app.local_macros;
    sent = app.sent ++ (EngineCommand.set_enabled m.id enabled ∷ []);
    window = record app.window {
      macros = change_row idx (λ row. record row { enabled = enabled }) app.window.macros;
    };
  })
]

unfoldable pub dry_run_macro : ℕ → App → App
unfolding get
dry_run_macro idx app = elim (get idx app.local_macros) [
  | none ↦ app
  | some m ↦ send (EngineCommand.dry_run_macro m.id) app
]

-- No command is sent.
unfoldable pub rename_macro : ℕ → String → Bool → App → App
unfolding get set
rename_macro idx new_name saved app = persist saved (elim (get idx app.local_macros) [
  | none ↦ app
  | some m ↦ record app {
    local_macros = set idx (record m { name = new_name }) app.local_macros;
    window = record app.window {
      macros = change_row idx (λ row. record row { name = new_name }) app.window.macros;
    };
  }
])

-- `list.swap(i, i + 1)`, and the exchange of two rows. `none` is the panic out of range.
unfoldable pub swap {ℓ} : {A : Type ℓ} → ℕ → List A → Option (List A)
swap i [] = none
swap zero (x ∷ []) = none
swap zero (x ∷ y ∷ xs) = some (y ∷ x ∷ xs)
swap (suc i) (x ∷ xs) = elim (swap i xs) [ none ↦ none | some ys ↦ some (x ∷ ys) ]

-- The selection follows the macro that it stands on.
unfoldable pub swap_selected : ℕ → Option ℕ → Option ℕ
swap_selected upper none = none
swap_selected upper (some sel) =
    if sel == suc upper then some upper else if sel == upper then some (suc upper) else some sel

-- The exchange of the macros at `upper` and `upper + 1`.
unfoldable pub swap_macros : ℕ → Bool → App → Option App
unfolding swap swap_selected
swap_macros upper saved app = elim (swap upper app.local_macros) [
  | none ↦ none
  | some macros ↦ elim (swap upper app.window.macros) [
    | none ↦ none
    | some rows ↦ some (
        persist saved (record app {
          local_macros = macros;
          window = record app.window {
            macros = rows;
            selected_index = swap_selected upper app.window.selected_index;
          };
        }))
  ]
]

unfoldable pub move_macro_up : ℕ → Bool → App → Option App
unfolding swap_macros
move_macro_up zero saved app = some app
move_macro_up (suc upper) saved app = swap_macros upper saved app

unfoldable pub move_macro_down : ℕ → Bool → App → Option App
unfolding swap_macros
move_macro_down idx saved app =
    if leb (length app.local_macros) (idx + 1) then some app else swap_macros idx saved app
