-- ===== src/App/Panic.antt =====
-- Which callbacks can panic, on an index out of range.
use ko_rkuma.Prelude.{
  ℕ, zero, suc, ◌+◌, ◌<◌, Bool, ◌≡◌, ◌≢◌, String, ◌==◌, string_eq, ap, ◌∙◌, List, [], ◌∷◌, Option,
  none, some, length, map, leb, arith, Option-cases, Bool-cases, inl, inr,
}
use ko_rkuma.App.State.{Formats, App, item}
use ko_rkuma.App.MacroList.{swap, swap_macros, move_macro_up, move_macro_down}
use ko_rkuma.App.Triggers.{trigger_apply}
use ko_rkuma.App.TriggerForm.{
  TriggerForm, hotkey_mods, entry, or_else, hotkey_keys, chosen_mods, build_hotkey,
  build_trigger_from_ui,
}
use ko_rkuma.App.Callback.{Callback, handle}
use ko_rkuma.App.Find.{map-swap}
use ko_rkuma.App.Sync.{IsSynced, delete_macro-IsSynced}
use ko_rkuma.App.Sync.Edits.{trigger_delete-IsSynced, revoke_permission-IsSynced}

swap-in_range : {A : Type 0} (i : ℕ) (xs : List A) → suc i < length xs → swap i xs ≢ none
unfolding swap
swap-in_range i [] h e = omega (arith, h)
swap-in_range zero (x ∷ []) h e = omega (arith, h)
swap-in_range zero (x ∷ y ∷ xs) h e = cc
swap-in_range (suc i) (x ∷ xs) h e = elim (Option-cases (swap i xs)) [
  | inl f ↦ swap-in_range i xs (omega (arith, h)) f
  | inr (ys, f) ↦ cc
]

swap_macros-total :
    (upper : ℕ) (saved : Bool) (app : App)
    → suc upper < length app.local_macros
    → IsSynced app
    → swap_macros upper saved app ≢ none
unfolding swap_macros
swap_macros-total upper saved app h s = elim (Option-cases (swap upper app.local_macros)) [
  | inl e ↦ λ f. swap-in_range upper app.local_macros h e
  | inr (macros, e) ↦
      let rows : swap upper app.window.macros ≡ some (map item macros) =
        ap (swap upper) s.rows ∙ map-swap upper app.local_macros macros e in
      rw (e, swap_macros) (rw (rows) (λ f. cc))
]

entry-mods : (i : ℕ) → i < 6 → entry i hotkey_mods ≢ none
unfolding entry
entry-mods zero h e = cc
entry-mods (suc zero) h e = cc
entry-mods (suc (suc zero)) h e = cc
entry-mods (suc (suc (suc zero))) h e = cc
entry-mods (suc (suc (suc (suc zero)))) h e = cc
entry-mods (suc (suc (suc (suc (suc zero))))) h e = cc
entry-mods (suc (suc (suc (suc (suc (suc i)))))) h e = omega (arith, h)

chosen_mods-total : (i j : ℕ) → i < 6 → j < 6 → chosen_mods i j ≢ none
unfolding chosen_mods
chosen_mods-total zero zero h k = λ e. cc
chosen_mods-total zero (suc j) h k = elim (Option-cases (entry (suc j) hotkey_mods)) [
  | inl e ↦ λ f. entry-mods (suc j) k e
  | inr (b, e) ↦ rw (e, chosen_mods) (λ f. cc)
]
chosen_mods-total (suc i) zero h k = elim (Option-cases (entry (suc i) hotkey_mods)) [
  | inl e ↦ λ f. entry-mods (suc i) h e
  | inr (a, e) ↦ rw (e, chosen_mods) (λ f. cc)
]
chosen_mods-total (suc i) (suc j) h k = elim (Option-cases (entry (suc i) hotkey_mods)) [
  | inl e ↦ λ f. entry-mods (suc i) h e
  | inr (a, e) ↦ elim (Option-cases (entry (suc j) hotkey_mods)) [
    | inl f ↦ λ g. entry-mods (suc j) k f
    | inr (b, f) ↦ rw (e, chosen_mods) (rw (f) (λ g. cc))
  ]
]

-- The menus of a form offer six modifiers.
pub record IsOffered (form : TriggerForm) : Type 0 where
  pub mod1 : form.mod1_idx < 6
  pub mod2 : form.mod2_idx < 6

build_hotkey-total : (form : TriggerForm) → IsOffered form → build_hotkey form ≢ none
unfolding build_hotkey
build_hotkey-total form o = elim (Bool-cases (or_else (entry form.key_idx hotkey_keys) "" == "")) [
  | inl e ↦ rw (e, build_hotkey) (λ f. cc)
  | inr e ↦ elim (Option-cases (chosen_mods form.mod1_idx form.mod2_idx)) [
    | inl f ↦ λ g. chosen_mods-total form.mod1_idx form.mod2_idx o.mod1 o.mod2 f
    | inr (mods, f) ↦ rw (e, build_hotkey) (rw (f) (λ g. cc))
  ]
]

build_trigger-total :
    (form : TriggerForm) (kind : String) → IsOffered form → build_trigger_from_ui form kind ≢ none
unfolding build_trigger_from_ui
build_trigger-total form kind o =
    let hotkey = build_hotkey-total form o in
    elim (Bool-cases (kind == "Schedule")) [
      | inl e ↦ rw (e, build_trigger_from_ui) (λ f. cc)
      | inr e ↦ elim (Bool-cases (kind == "Hotkey")) [
        | inl f ↦ rw (e, build_trigger_from_ui) (rw (f) hotkey)
        | inr f ↦ elim (Bool-cases (kind == "WindowFocus")) [
          | inl g ↦ rw (e, build_trigger_from_ui) (rw (f) (rw (g) (λ h. cc)))
          | inr g ↦ elim (Bool-cases (kind == "Process")) [
            | inl h ↦ rw (e, build_trigger_from_ui) (rw (f) (rw (g) (rw (h) (λ i. cc))))
            | inr h ↦ rw (e, build_trigger_from_ui) (rw (f) (rw (g) (rw (h) (λ i. cc))))
          ]
        ]
      ]
    ]

trigger_apply-total :
    (saved : Bool) (app : App) → IsOffered app.window.trigger_form → trigger_apply saved app ≢ none
unfolding trigger_apply
trigger_apply-total saved app o = elim (Option-cases app.window.selected_index) [
  | inl e ↦ rw (e, trigger_apply) (λ f. cc)
  | inr (sel, e) ↦ elim (Option-cases app.window.trigger_selected) [
    | inl f ↦ rw (e, trigger_apply) (rw (f) (λ g. cc))
    | inr (tidx, f) ↦
        let built =
          build_trigger-total app.window.trigger_form app.window.trigger_form.trigger_kind o in
        elim (Option-cases
          (build_trigger_from_ui app.window.trigger_form app.window.trigger_form.trigger_kind)) [
            | inl g ↦ λ h. built g
            | inr (t, g) ↦ rw (e, trigger_apply) (rw (f) (rw (g) (λ h. cc)))
          ]
  ]
]

given : (r : Option App) → ((app' : App) × (r ≡ some app') × IsSynced app') → r ≢ none
given r (app', e, s) f = cc

-- Moving up needs a row of the list; the trigger form needs menus that are not out of range.
abbrev pub InRange : Callback → App → Type 0
InRange (Callback.on_move_macro_up idx) app = idx < length app.local_macros
InRange Callback.on_trigger_apply app = IsOffered app.window.trigger_form
InRange _ app = Unit

pub handle-total :
    (fmt : Formats) (c : Callback) (saved : Bool) (app : App)
    → InRange c app
    → IsSynced app
    → handle fmt c saved app ≢ none
unfolding handle move_macro_up move_macro_down
handle-total fmt (Callback.on_move_macro_up idx) saved app h s = move_up idx h
  where
    move_up : (idx : ℕ) → idx < length app.local_macros → move_macro_up idx saved app ≢ none
    move_up zero h = λ e. cc
    move_up (suc upper) h = swap_macros-total upper saved app h s
handle-total fmt (Callback.on_move_macro_down idx) saved app h s =
    elim (Bool-cases (leb (length app.local_macros) (idx + 1))) [
      | inl e ↦ rw (e, handle, move_macro_down) (λ f. cc)
      | inr e ↦
          rw (e, handle, move_macro_down) (swap_macros-total idx saved app (ground (arith, e)) s)
    ]
handle-total fmt (Callback.on_delete_macro idx) saved app h s =
    given _ (delete_macro-IsSynced app s idx saved)
handle-total fmt (Callback.on_trigger_delete idx) saved app h s =
    given _ (trigger_delete-IsSynced saved app s idx)
handle-total fmt (Callback.on_revoke_permission idx) saved app h s =
    given _ (revoke_permission-IsSynced saved app s idx)
handle-total fmt Callback.on_trigger_apply saved app h s = trigger_apply-total saved app h
handle-total fmt _ saved app h s = λ e. cc
