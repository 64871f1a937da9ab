-- ===== src/App/Reload.antt =====
-- A reload of the file brings the engine to the macros of the file.
use ko_rkuma.Prelude.{
  ℕ, ◌≤◌, Bool, true, false, not, ◌&&◌, ◌≡◌, refl, sym, ap, ◌∙◌, List, [], ◌∷◌, ◌++◌, Option, none,
  some, contains, lookup, ◌==◌, nat_eq, if◌then◌else◌, Bool-cases, inl, inr, arith, length, leb,
}
use ko_rkuma.Domain.{EngineCommand, Macro, MacroId}
use ko_rkuma.Router.{EventRouter, apply_command}
use ko_rkuma.Router.Index.{IsIndexed, apply_command-IsIndexed}
use ko_rkuma.App.State.{Formats, App, Window, push_log, reload_selected, reload_ui_model}
use ko_rkuma.App.Watcher.{HashOrder, ids_of, upserts, difference, deletes, hot_reload}
use ko_rkuma.App.Find.{find, count_id, find-absent}
use ko_rkuma.App.Engine.{handled, engine, handled-append, lookup-add, lookup-update, lookup-delete}
use ko_rkuma.App.Held.{IsHeld, nameless, nameless-none}
use ko_rkuma.App.Sync.{IsSynced, macros-refresh_editor}

abbrev is_some : Option Macro → Bool
is_some none = false
is_some (some m) = true

contains-ids_of :
    (macros : List Macro) (id : MacroId) → contains (ids_of macros) id ≡ is_some (find id macros)
unfolding contains find
contains-ids_of [] id = refl
contains-ids_of (m ∷ macros) id = ground (arith, contains-ids_of macros id)

contains-difference :
    (old new : List MacroId) (id : MacroId)
    → contains (difference old new) id ≡ (contains old id && not (contains new id))
unfolding contains difference
contains-difference [] new id = refl
contains-difference (x ∷ old) new id = elim (Bool-cases (x == id)) [
  | inl e ↦
      let q = (nat_eq.beq_iff x id).0 e in
      ground (arith, contains-difference old new id, e, ap (contains new) q)
  | inr e ↦ ground (arith, contains-difference old new id, e)
]

-- The macro of the new list, else that of the router.
abbrev first_of : Option Macro → Option Macro → Option Macro
first_of none y = y
first_of (some m) y = some m

abbrev upsert : List MacroId → Macro → EngineCommand
upsert old m = if contains old m.id then EngineCommand.update_macro m else EngineCommand.add_macro m

lookup-upsert :
    (old : List MacroId) (m : Macro) (router : EventRouter) (id : MacroId)
    → lookup id (apply_command (upsert old m) router).macros
      ≡ (if m.id == id then some m else lookup id router.macros)
lookup-upsert old m router id = elim (Bool-cases (contains old m.id)) [
  | inl e ↦ rw (e) (lookup-update m router id)
  | inr e ↦ rw (e) (lookup-add m router id)
]

lookup-upserts :
    (old : List MacroId) (macros : List Macro) (router : EventRouter) (id : MacroId)
    → count_id id macros ≤ 1
    → lookup id (handled (upserts old macros) router).macros
      ≡ first_of (find id macros) (lookup id router.macros)
unfolding handled upserts find count_id
lookup-upserts old [] router id once = refl
lookup-upserts old (m ∷ macros) router id once =
    let next = apply_command (upsert old m) router in
    ground (
      arith,
      lookup-upserts old macros next id,
      lookup-upsert old m router id,
      find-absent id macros,
      once,
    )

-- A macro that is still to come and was not in the old list is unknown to the router.
abbrev AllFresh : List MacroId → List Macro → EventRouter → Type 0
AllFresh old macros router =
    (id : MacroId)
    → contains old id ≡ false
    → 1 ≤ count_id id macros
    → lookup id router.macros ≡ none

upsert-IsIndexed :
    (old : List MacroId) (m : Macro) (router : EventRouter)
    → (contains old m.id ≡ false → lookup m.id router.macros ≡ none)
    → IsIndexed router
    → IsIndexed (apply_command (upsert old m) router)
upsert-IsIndexed old m router fresh inv = elim (Bool-cases (contains old m.id)) [
  | inl e ↦ rw (e) (apply_command-IsIndexed (EngineCommand.update_macro m) router tt inv)
  | inr e ↦ rw (e) (apply_command-IsIndexed (EngineCommand.add_macro m) router (fresh e) inv)
]

upserts-IsIndexed :
    (old : List MacroId) (macros : List Macro) (router : EventRouter)
    → ((id : MacroId) → count_id id macros ≤ 1)
    → AllFresh old macros router
    → IsIndexed router
    → IsIndexed (handled (upserts old macros) router)
unfolding handled upserts count_id
upserts-IsIndexed old [] router once fresh inv = inv
upserts-IsIndexed old (m ∷ macros) router once fresh inv =
    let next = apply_command (upsert old m) router in
    upserts-IsIndexed old macros next (λ id. ground (arith, once id))
      (λ id e f. ground (arith, lookup-upsert old m router id, once id, f, e, fresh id))
      (upsert-IsIndexed old m router
        (λ e. fresh m.id e (ground (arith, once m.id, nat_eq.beq_iff m.id m.id))) inv)

lookup-deletes :
    (gone : List MacroId) (router : EventRouter) (id : MacroId)
    → lookup id (handled (deletes gone) router).macros
      ≡ (if contains gone id then none else lookup id router.macros)
unfolding handled contains
lookup-deletes [] router id = refl
lookup-deletes (x ∷ gone) router id =
    let next = apply_command (EngineCommand.delete_macro x) router in
    ground (arith, lookup-deletes gone next id, lookup-delete x router id)

deletes-IsIndexed :
    (gone : List MacroId) (router : EventRouter)
    → IsIndexed router
    → IsIndexed (handled (deletes gone) router)
unfolding handled
deletes-IsIndexed [] router inv = inv
deletes-IsIndexed (x ∷ gone) router inv =
    deletes-IsIndexed gone _ (apply_command-IsIndexed (EngineCommand.delete_macro x) router tt inv)

macros-reload_selected :
    (fmt : Formats) (macros : List Macro) (sel : Option ℕ) (w : Window)
    → (reload_selected fmt macros sel w).macros ≡ w.macros
unfolding reload_selected
macros-reload_selected fmt macros none w = refl
macros-reload_selected fmt macros (some sel) w = elim (Bool-cases (leb (length macros) sel)) [
  | inl e ↦ rw (e, reload_selected) refl
  | inr e ↦ rw (e, reload_selected) (macros-refresh_editor fmt macros sel w)
]

module _ (hash : HashOrder) (new_macros local : List Macro) (sent : List EngineCommand)
    (held : IsHeld local sent) (once : (id : MacroId) → count_id id new_macros ≤ 1) where
  abbrev gone : List MacroId
  gone = hash.order (difference (ids_of local) (ids_of new_macros))

  -- The router after the reload.
  abbrev reloaded : EventRouter
  reloaded = handled (deletes gone) (handled (upserts (ids_of local) new_macros) (engine sent))

  unknown :
      (id : MacroId) → contains (ids_of local) id ≡ false → lookup id (engine sent).macros ≡ none
  unknown id e =
      nameless-none _
        (held.same id ∙ ap nameless (absent (find id local) (sym (contains-ids_of local id) ∙ e)))
    where
      absent : (x : Option Macro) → is_some x ≡ false → x ≡ none
      absent none f = refl
      absent (some m) f = cc

  lookup-reloaded : (id : MacroId) → lookup id reloaded.macros ≡ find id new_macros
  lookup-reloaded id = ground (
    arith,
    lookup-deletes gone (handled (upserts (ids_of local) new_macros) (engine sent)) id,
    hash.order-contains (difference (ids_of local) (ids_of new_macros)) id,
    contains-difference (ids_of local) (ids_of new_macros) id,
    contains-ids_of new_macros id,
    unknown id,
    lookup-upserts (ids_of local) new_macros (engine sent) id (once id),
  )

  reloaded-IsIndexed : IsIndexed reloaded
  reloaded-IsIndexed = deletes-IsIndexed gone _ (
      upserts-IsIndexed (ids_of local) new_macros (engine sent) once (λ id e f. unknown id e)
        held.indexed)

  sent_lem : engine ((sent ++ upserts (ids_of local) new_macros) ++ deletes gone) ≡ reloaded
  sent_lem =
      handled-append (sent ++ upserts (ids_of local) new_macros) (deletes gone) _
      ∙ ap (handled (deletes gone)) (handled-append sent (upserts (ids_of local) new_macros) _)

pub hot_reload-IsSynced :
    (fmt : Formats) (hash : HashOrder) (new_macros : List Macro) (app : App)
    → ((id : MacroId) → count_id id new_macros ≤ 1)
    → IsSynced app
    → IsSynced (hot_reload fmt hash new_macros app)
      × ((id : MacroId)
          → lookup id (engine (hot_reload fmt hash new_macros app).sent).macros
            ≡ find id new_macros)
unfolding hot_reload reload_ui_model push_log
hot_reload-IsSynced fmt hash new_macros app once s =
    let e = sent_lem hash new_macros app.local_macros app.sent s.held once in
    let held_by_file = lookup-reloaded hash new_macros app.local_macros app.sent s.held once in
    let exact : (id : MacroId)
        → lookup id (engine (hot_reload fmt hash new_macros app).sent).macros ≡ find id new_macros =
      λ id. ap (λ r. lookup id r.macros) e ∙ held_by_file id in
    (
      record {
        rows = macros-reload_selected fmt new_macros app.window.selected_index _;
        held = record {
          distinct = once;
          same = λ id. ap nameless (exact id);
          indexed =
              rw (e) (reloaded-IsIndexed hash new_macros app.local_macros app.sent s.held once);
        };
      },
      exact,
    )
