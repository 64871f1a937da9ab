-- ===== src/App/Watcher.antt =====
-- crates/app/src/watcher.rs and the start in main.rs: macros.json on the disk becomes the list of
-- macros. `load_macros`, which reads and parses the file, is an argument.
use ko_rkuma.Prelude.{false, ◌≡◌, List, [], ◌∷◌, ◌++◌, contains, nat_eq, map, if◌then◌else◌}
use ko_rkuma.Domain.{EngineCommand, Macro, MacroId}
use ko_rkuma.Editor.Rows.{Text, Piece}
use ko_rkuma.App.State.{Formats, App, item, in_window, push_log, reload_ui_model}

-- The order in which a `HashSet` yields its elements: the same ids in some order.
pub record HashOrder : Type 0 where
  pub order : List MacroId → List MacroId
  pub order-contains :
      (ids : List MacroId) (id : MacroId) → contains (order ids) id ≡ contains ids id

abbrev pub ids_of : List Macro → List MacroId
ids_of macros = map (λ m. m.id) macros

-- The loop over the new macros.
unfoldable pub upserts : List MacroId → List Macro → List EngineCommand
unfolding contains
upserts old_ids [] = []
upserts old_ids (m ∷ macros) =
    (if contains old_ids m.id then EngineCommand.update_macro m else EngineCommand.add_macro m)
    ∷ upserts old_ids macros

-- `old_ids.difference(&new_ids)`
unfoldable pub difference : List MacroId → List MacroId → List MacroId
unfolding contains
difference [] new_ids = []
difference (id ∷ old_ids) new_ids =
    let rest = difference old_ids new_ids in if contains new_ids id then rest else id ∷ rest

abbrev pub deletes : List MacroId → List EngineCommand
deletes ids = map EngineCommand.delete_macro ids

-- What the loader gives: the macros, or the text of its error.
pub data Loaded : Type 0 where
  read : List Macro → Loaded
  broken : Text → Loaded

module _ (fmt : Formats) (hash : HashOrder) where
  -- The new list, its commands, and the window that follows.
  unfoldable pub hot_reload : List Macro → App → App
  unfolding upserts difference reload_ui_model
  hot_reload new_macros app =
      let old_ids = ids_of app.local_macros in
      let gone = hash.order (difference old_ids (ids_of new_macros)) in
      record app {
        local_macros = new_macros;
        sent = (app.sent ++ upserts old_ids new_macros) ++ deletes gone;
        window = reload_ui_model fmt new_macros app.window;
      }

  -- A write to macros.json is seen. A write of the application itself is passed over once.
  unfoldable pub file_changed : Loaded → App → App
  unfolding hot_reload push_log
  file_changed loaded app =
      if app.suppress_reload then record app { suppress_reload = false } else elim loaded [
        | Loaded.read new_macros ↦ hot_reload new_macros app
        | Loaded.broken e ↦
            in_window
              (push_log (record {
                level = "WARN";
                source = "watcher";
                message = Piece.text "hot-reload failed: " ∷ e;
              }))
              app
      ]

-- The loop at the start, which begins with an empty list.
unfoldable pub load_all : List Macro → App → App
load_all [] app = app
load_all (m ∷ macros) app = load_all macros (record app {
  local_macros = app.local_macros ++ (m ∷ []);
  sent = app.sent ++ (EngineCommand.add_macro m ∷ []);
  window = record app.window { macros = app.window.macros ++ (item m ∷ []) };
})
