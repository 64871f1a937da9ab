-- ===== src/App/Approval.antt =====
-- The approval of permissions, from the dialog to the run of the workflow.
use ko_rkuma.Prelude.{
  ℕ, zero, suc, Bool, true, false, ◌≡◌, refl, ap, ◌∙◌, List, [], ◌∷◌, ◌++◌, some, Option-cases, inl,
  inr, lookup, All, nat_eq, arith,
}
use ko_rkuma.Domain.{EngineCommand, Event, Macro, PermissionSet, root_workflow}
use ko_rkuma.Permission.{aggregate_from_workflow}
use ko_rkuma.Context.{Shared}
use ko_rkuma.Registry.{Registry}
use ko_rkuma.Workflow.{Runtime, run_workflow}
use ko_rkuma.Workflow.Grants.{IsDeclared, KeepsGrant, IsNotDenial, run_workflow-IsNotDenial}
use ko_rkuma.Router.Dispatch.{exec_context}
use ko_rkuma.App.State.{
  App, get, set, edit_selected, persist, to_permission_rows, refresh_permission_rows, in_window,
}
use ko_rkuma.App.Triggers.{selected_macro, grant_aggregated, approve_permissions, request_save}
use ko_rkuma.App.Engine.{handled, engine, handled-append, lookup-update}

pub get-set :
    {A : Type 0} (i : ℕ) (a b : A) (xs : List A) → get i xs ≡ some a → get i (set i b xs) ≡ some b
unfolding get set
get-set i a b [] e = cc
get-set zero a b (x ∷ xs) e = refl
get-set (suc i) a b (x ∷ xs) e = get-set i a b xs e

-- The macro with what its workflow needs.
abbrev approved : Macro → Macro
approved m = record m { granted_permissions = aggregate_from_workflow (root_workflow m) }

-- The state once `persist` has run: what the theorems need of it.
record IsApproved (m : Macro) (before : List EngineCommand) (app' : App) : Type 0 where
  pub selected : selected_macro app' ≡ some (approved m)
  pub sent : app'.sent ≡ before ++ (EngineCommand.update_macro (approved m) ∷ [])
  pub shown :
      app'.window.permission_rows ≡ to_permission_rows (approved m).granted_permissions.permissions

persist-IsApproved :
    (m : Macro) (before : List EngineCommand) (app : App) (saved : Bool)
    → IsApproved m before app
    → IsApproved m before (persist saved app)
unfolding persist selected_macro
persist-IsApproved m before app true a = record {
  selected = a.selected;
  sent = a.sent;
  shown = a.shown;
}
persist-IsApproved m before app false a = record {
  selected = a.selected;
  sent = a.sent;
  shown = a.shown;
}

approve-IsApproved :
    (saved : Bool) (app : App) (m : Macro)
    → selected_macro app ≡ some m
    → IsApproved m app.sent (approve_permissions saved app)
unfolding approve_permissions edit_selected grant_aggregated selected_macro refresh_permission_rows
approve-IsApproved saved app m = elim (Option-cases app.window.selected_index) [
  | inl e ↦ rw (e, selected_macro) (λ h. cc)
  | inr (sel, e) ↦
      rw (e, selected_macro, edit_selected)
        (λ h. rw (h) (
          persist-IsApproved m app.sent _ saved (record {
            selected = rw (e, selected_macro) (get-set sel m (approved m) app.local_macros h);
            sent = refl;
            shown = refl;
          })))
]

-- After the approval the engine's router holds the selected macro with the permissions that its
-- workflow needs, and a run of that macro with its own grant is never refused by the permission gate,
-- whatever the event, if each registered action requires only what the table of the aggregation
-- lists for its configuration, and no action changes the grant.
pub approve_permissions-IsNotDenial :
    (rt : Runtime) (reg : Registry) (event : Event) (sh : Shared) (saved : Bool) (app : App)
    (m : Macro)
    → selected_macro app ≡ some m
    → IsDeclared reg
    → KeepsGrant reg
    → (m' : Macro) × (selected_macro (approve_permissions saved app) ≡ some m')
      × (lookup m.id (engine (approve_permissions saved app).sent).macros ≡ some m')
      × All IsNotDenial
          (run_workflow rt reg (root_workflow m') (exec_context m.id m' event false) sh).events
unfolding handled root_workflow
approve_permissions-IsNotDenial rt reg event sh saved app m h declared keeps =
    let a = approve-IsApproved saved app m h in
    (
      approved m,
      a.selected,
      ap (λ c. lookup m.id (engine c).macros) a.sent
          ∙ ap (λ r. lookup m.id r.macros)
              (handled-append app.sent (EngineCommand.update_macro (approved m) ∷ []) _)
          ∙ lookup-update (approved m) (engine app.sent) m.id
          ∙ ground (arith, nat_eq.beq_iff m.id m.id),
      run_workflow-IsNotDenial rt reg (root_workflow (approved m))
          (exec_context m.id (approved m) event false) sh declared keeps refl,
    )

-- The window with the dialog for a macro.
abbrev asked : Macro → App → App
asked m app =
    in_window
      (λ w. record w {
        pending_permissions =
            to_permission_rows (aggregate_from_workflow (root_workflow m)).permissions;
        show_permission_dialog = true;
      })
      app

request_save-asked :
    (app : App) (m : Macro) → selected_macro app ≡ some m → request_save app ≡ asked m app
unfolding request_save
request_save-asked app m h = rw (h, request_save) refl

pub approve_permissions-request_save :
    (saved : Bool) (app : App) (m : Macro)
    → selected_macro app ≡ some m
    → let asking = request_save app in
      let after = approve_permissions saved asking in
      (g : PermissionSet) × (selected_macro after ≡ some (record m { granted_permissions = g }))
      × (to_permission_rows g.permissions ≡ asking.window.pending_permissions)
      × (after.window.permission_rows ≡ asking.window.pending_permissions)
unfolding selected_macro
approve_permissions-request_save saved app m h =
    let a = approve-IsApproved saved (asked m app) m h in
    let e = request_save-asked app m h in
    (aggregate_from_workflow (root_workflow m), rw e a.selected, rw e refl, rw e a.shown)
