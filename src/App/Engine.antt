-- ===== src/App/Engine.antt =====
-- What the engine's router holds once it has handled the commands that were sent.
use ko_rkuma.Prelude.{
  Bool, ◌≡◌, refl, ◌∙◌, List, [], ◌∷◌, ◌++◌, Option, none, some, lookup, lookup-insert,
  lookup-remove, ◌==◌, nat_eq, if◌then◌else◌, Option-cases, inl, inr, arith,
}
use ko_rkuma.Domain.{EngineCommand, Macro, MacroId}
use ko_rkuma.Router.{EventRouter, new, add_macro, remove_macro, set_enabled, apply_command}

-- The loop of the engine over a list of commands.
unfoldable pub handled : List EngineCommand → EventRouter → EventRouter
unfolding apply_command
handled [] router = router
handled (c ∷ commands) router = handled commands (apply_command c router)

-- The router of an engine that started with no macros.
abbrev pub engine : List EngineCommand → EventRouter
engine sent = handled sent new

pub handled-append :
    (xs ys : List EngineCommand) (router : EventRouter)
    → handled (xs ++ ys) router ≡ handled ys (handled xs router)
unfolding handled
handled-append [] ys router = refl
handled-append (c ∷ xs) ys router = handled-append xs ys (apply_command c router)

pub lookup-add :
    (m : Macro) (router : EventRouter) (id : MacroId)
    → lookup id (apply_command (EngineCommand.add_macro m) router).macros
      ≡ (if m.id == id then some m else lookup id router.macros)
unfolding apply_command add_macro
lookup-add m router id = lookup-insert m.id id m router.macros

pub lookup-delete :
    (gone : MacroId) (router : EventRouter) (id : MacroId)
    → lookup id (apply_command (EngineCommand.delete_macro gone) router).macros
      ≡ (if gone == id then none else lookup id router.macros)
unfolding apply_command remove_macro
lookup-delete gone router id = elim (Option-cases (lookup gone router.macros)) [
  | inl e ↦ rw (e, remove_macro) (ground (arith, e, nat_eq.beq_iff gone id))
  | inr (m, e) ↦ rw (e, remove_macro) (lookup-remove gone id router.macros)
]

pub lookup-update :
    (m : Macro) (router : EventRouter) (id : MacroId)
    → lookup id (apply_command (EngineCommand.update_macro m) router).macros
      ≡ (if m.id == id then some m else lookup id router.macros)
unfolding apply_command
lookup-update m router id =
    ground (arith, lookup-add m (remove_macro m.id router) id, lookup-delete m.id router id)

abbrev pub with_enabled : Bool → Option Macro → Option Macro
with_enabled enabled none = none
with_enabled enabled (some m) = some (record m { enabled = enabled })

pub lookup-set_enabled :
    (on : MacroId) (enabled : Bool) (router : EventRouter) (id : MacroId)
    → lookup id (apply_command (EngineCommand.set_enabled on enabled) router).macros ≡ (
        if on == id
        then with_enabled enabled (lookup id router.macros)
        else lookup id router.macros)
unfolding apply_command set_enabled
lookup-set_enabled on enabled router id = elim (Option-cases (lookup on router.macros)) [
  | inl e ↦ rw (e, set_enabled) (ground (arith, e, nat_eq.beq_iff on id))
  | inr (m, e) ↦
      rw (e, set_enabled)
        (lookup-insert on id (record m { enabled = enabled }) router.macros
          ∙ ground (arith, e, nat_eq.beq_iff on id))
]
