-- ===== src/App/Sync/Edits.antt =====
-- The callbacks that edit the selected macro keep its id, its name and its flag.
use ko_rkuma.Prelude.{
  ℕ, Bool, false, ◌≡◌, ◌≢◌, refl, sym, ap, ◌∙◌, String, none, some, Option-cases, Bool-cases, inl,
  inr, length, ltb,
}
use ko_rkuma.Domain.{Macro, ConstraintExpr, WorkflowNode, TriggerConfig}
use ko_rkuma.App.State.{
  Formats, Window, App, get, remove_at, item, edit_selected, refresh_permission_rows,
}
use ko_rkuma.App.Constraints.{
  set_constraints, show_constraints, show_constraints_deselected, edit_constraints,
  constraint_delete_node,
}
use ko_rkuma.App.Steps.{
  set_workflow, show_workflow, show_workflow_deselected, edit_workflow, workflow_delete_node,
}
use ko_rkuma.App.Triggers.{
  show_triggers, show_triggers_deselected, delete_trigger, replace_trigger, grant_aggregated,
  revoke, Removal, removed, edit_removing, selected_macro, trigger_add, trigger_delete,
  approve_permissions, revoke_permission,
}
use ko_rkuma.App.Sync.{IsSynced, edit_selected-IsSynced, in_window-IsSynced}

-- Where the edit gives a macro that shows the same in the list.
same_item : (m n m' : Macro) → some n ≡ some m' → item n ≡ item m → item m' ≡ item m
same_item m n m' e f = let g : n ≡ m' = cc in sym (ap item g) ∙ f

keeps_delete_trigger :
    (tidx : ℕ) (m m' : Macro) → removed (delete_trigger tidx m) ≡ some m' → item m' ≡ item m
unfolding delete_trigger remove_at
keeps_delete_trigger tidx m m' = elim (Bool-cases (ltb tidx (length m.triggers))) [
  | inl e ↦ rw (e, delete_trigger, remove_at) (λ h. same_item m _ m' h refl)
  | inr e ↦ rw (e, delete_trigger) (λ h. cc)
]

keeps_replace_trigger :
    (tidx : ℕ) (t : TriggerConfig) (m m' : Macro)
    → replace_trigger tidx t m ≡ some m'
    → item m' ≡ item m
unfolding replace_trigger
keeps_replace_trigger tidx t m m' = elim (Option-cases (get tidx m.triggers)) [
  | inl e ↦ rw (e, replace_trigger) (λ h. cc)
  | inr (old, e) ↦ rw (e, replace_trigger) (λ h. same_item m _ m' h refl)
]

keeps_revoke : (pidx : ℕ) (m m' : Macro) → removed (revoke pidx m) ≡ some m' → item m' ≡ item m
unfolding revoke remove_at
keeps_revoke pidx m m' = elim (Bool-cases (ltb pidx (length m.granted_permissions.permissions))) [
  | inl e ↦ rw (e, revoke, remove_at) (λ h. same_item m _ m' h refl)
  | inr e ↦ rw (e, revoke) (λ h. cc)
]

delete_trigger-total : (tidx : ℕ) (m : Macro) → delete_trigger tidx m ≢ none
unfolding delete_trigger remove_at
delete_trigger-total tidx m = elim (Bool-cases (ltb tidx (length m.triggers))) [
  | inl e ↦ rw (e, delete_trigger, remove_at) (λ h. cc)
  | inr e ↦ rw (e, delete_trigger) (λ h. cc)
]

revoke-total : (pidx : ℕ) (m : Macro) → revoke pidx m ≢ none
unfolding revoke remove_at
revoke-total pidx m = elim (Bool-cases (ltb pidx (length m.granted_permissions.permissions))) [
  | inl e ↦ rw (e, revoke, remove_at) (λ h. cc)
  | inr e ↦ rw (e, revoke) (λ h. cc)
]

-- An edit whose removal is guarded does what `edit_selected` does.
edit_removing-total :
    (change : Macro → Removal) (show : Macro → Window → Window) (saved : Bool) (app : App)
    → ((m : Macro) → change m ≢ none)
    → edit_removing change show saved app
      ≡ some (edit_selected (λ m. removed (change m)) show saved app)
unfolding edit_removing
edit_removing-total change show saved app total = elim (Option-cases (selected_macro app)) [
  | inl e ↦ rw (e, edit_removing) refl
  | inr (m, e) ↦ elim (Option-cases (change m)) [
    | inl f ↦ absurd (total m f)
    | inr (c, f) ↦ rw (e, edit_removing) (rw (f) refl)
  ]
]

module _ (saved : Bool) (app : App) (s : IsSynced app) where
  pub trigger_add-IsSynced : (kind : String) → IsSynced (trigger_add kind saved app)
  unfolding trigger_add show_triggers
  trigger_add-IsSynced kind =
      edit_selected-IsSynced _ show_triggers saved app (λ m m' e. same_item m _ m' e refl)
        (λ m w. refl) s

  pub trigger_delete-IsSynced :
      (tidx : ℕ) → (app' : App) × (trigger_delete tidx saved app ≡ some app') × IsSynced app'
  unfolding trigger_delete show_triggers_deselected show_triggers
  trigger_delete-IsSynced tidx = (
    _,
    edit_removing-total (delete_trigger tidx) show_triggers_deselected saved app
        (delete_trigger-total tidx),
    edit_selected-IsSynced _ show_triggers_deselected saved app (keeps_delete_trigger tidx)
        (λ m w. refl) s,
  )

  pub replace_trigger-IsSynced :
      (tidx : ℕ) (t : TriggerConfig)
      → IsSynced (edit_selected (replace_trigger tidx t) show_triggers saved app)
  unfolding show_triggers
  replace_trigger-IsSynced tidx t =
      edit_selected-IsSynced (replace_trigger tidx t) show_triggers saved app
        (keeps_replace_trigger tidx t) (λ m w. refl) s

  pub approve_permissions-IsSynced : IsSynced (approve_permissions saved app)
  unfolding approve_permissions grant_aggregated refresh_permission_rows
  approve_permissions-IsSynced =
      edit_selected-IsSynced grant_aggregated refresh_permission_rows saved _
        (λ m m' e. same_item m _ m' e refl) (λ m w. refl)
        (in_window-IsSynced (λ w. record w { show_permission_dialog = false }) app refl s)

  pub revoke_permission-IsSynced :
      (pidx : ℕ) → (app' : App) × (revoke_permission pidx saved app ≡ some app') × IsSynced app'
  unfolding revoke_permission refresh_permission_rows
  revoke_permission-IsSynced pidx = (
    _,
    edit_removing-total (revoke pidx) refresh_permission_rows saved app (revoke-total pidx),
    edit_selected-IsSynced _ refresh_permission_rows saved app (keeps_revoke pidx) (λ m w. refl) s,
  )

  module _ (fmt : Formats) where
    pub edit_constraints-IsSynced :
        (change : ConstraintExpr → ConstraintExpr)
        → IsSynced (edit_constraints fmt change saved app)
    unfolding edit_constraints show_constraints
    edit_constraints-IsSynced change =
        edit_selected-IsSynced (set_constraints change) (show_constraints fmt) saved app
          (λ m m' e. same_item m _ m' e refl) (λ m w. refl) s

    pub constraint_delete_node-IsSynced :
        (idx : ℕ) → IsSynced (constraint_delete_node fmt idx saved app)
    unfolding constraint_delete_node show_constraints_deselected show_constraints
    constraint_delete_node-IsSynced idx =
        edit_selected-IsSynced _ (show_constraints_deselected fmt) saved app
          (λ m m' e. same_item m _ m' e refl) (λ m w. refl) s

    pub edit_workflow-IsSynced :
        (change : WorkflowNode → WorkflowNode) → IsSynced (edit_workflow fmt change saved app)
    unfolding edit_workflow show_workflow set_workflow
    edit_workflow-IsSynced change =
        edit_selected-IsSynced (set_workflow change) (show_workflow fmt) saved app
          (λ m m' e. same_item m _ m' e refl) (λ m w. refl) s

    pub workflow_delete_node-IsSynced :
        (idx : ℕ) → IsSynced (workflow_delete_node fmt idx saved app)
    unfolding workflow_delete_node show_workflow_deselected show_workflow set_workflow
    workflow_delete_node-IsSynced idx =
        edit_selected-IsSynced _ (show_workflow_deselected fmt) saved app
          (λ m m' e. same_item m _ m' e refl) (λ m w. refl) s
