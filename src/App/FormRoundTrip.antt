-- ===== src/App/FormRoundTrip.antt =====
-- From a trigger to the form and back.
use ko_rkuma.Prelude.{
  ℕ, suc, Bool, true, false, ◌≡◌, refl, ap, String, List, [], ◌∷◌, none, some, contains, ◌==◌,
  string_eq, ◌⊎◌, Bool-cases, inl, inr, arith,
}
use ko_rkuma.Domain.{KeyCombo, ProcessEvent, TriggerConfig}
use ko_rkuma.App.TriggerForm.{
  TriggerForm, hotkey_keys, hotkey_mods, cron_presets, position, entry, or_else, index_of,
  populate_trigger_fields, chosen_mods, build_hotkey, build_trigger_from_ui,
}

known :
    (s : String) (table : List String)
    → contains table s ≡ true
    → (i : ℕ) × (position s table ≡ some i) × (entry i table ≡ some s)
unfolding contains position entry
known s [] h = cc
known s (t ∷ table) h = elim (Bool-cases (t == s)) [
  | inl e ↦ (0, ground (arith, e), ap some ((string_eq.beq_iff t s).0 e))
  | inr e ↦
      let (i, found, at_i) = known s table (ground (arith, e, h)) in
      (suc i, ground (arith, e, found), at_i)
]

-- What the menu of modifiers offers besides "None".
pub record IsModifier (s : String) : Type 0 where
  pub offered : contains hotkey_mods s ≡ true
  pub is_chosen : ("None" == s) ≡ false

pub record IsKey (s : String) : Type 0 where
  pub offered : contains hotkey_keys s ≡ true
  pub is_chosen : (s == "") ≡ false

in_tail :
    (s t : String) (table : List String)
    → (t == s) ≡ false
    → contains (t ∷ table) s ≡ true
    → contains table s ≡ true
unfolding contains
in_tail s t table e h = ground (arith, e, h)

position_tail :
    (s t : String) (table : List String) (i : ℕ)
    → (t == s) ≡ false
    → position s table ≡ some i
    → or_else (position s (t ∷ table)) 0 ≡ suc i
unfolding position
position_tail s t table i e f = ground (arith, e, f)

position_entry :
    (s : String) (table : List String)
    → contains table s ≡ true
    → entry (index_of table s) table ≡ some s
unfolding index_of
position_entry s table h = let (i, found, at_i) = known s table h in rw (found) at_i

modifier :
    (s : String)
    → IsModifier s
    → (i : ℕ) × (index_of hotkey_mods s ≡ suc i) × (entry (suc i) hotkey_mods ≡ some s)
unfolding index_of entry
modifier s h =
    let tail : List String = "Ctrl" ∷ "Alt" ∷ "Shift" ∷ "Win" ∷ "Meta" ∷ [] in
    let (i, found, at_i) = known s tail (in_tail s "None" tail h.is_chosen h.offered) in
    (i, position_tail s "None" tail i h.is_chosen found, at_i)

position-none :
    (s : String) (table : List String) → contains table s ≡ false → position s table ≡ none
unfolding contains position
position-none s [] h = refl
position-none s (t ∷ table) h = let rest = position-none s table in ground (arith, h, rest)

no_eighth : entry 7 cron_presets ≡ none
unfolding entry
no_eighth = refl

-- Where `position` finds nothing, the default stands; else the entry is the one looked for.
entry_or_self :
    (s : String) (table : List String) (n : ℕ)
    → entry n table ≡ none
    → or_else (entry (or_else (position s table) n) table) s ≡ s
entry_or_self s table n past = elim (found s table) [
  | inl e ↦ rw (e, past) refl
  | inr (i, e, at_i) ↦ rw (e, at_i) refl
]
  where
    found :
        (s : String) (table : List String)
        → (position s table ≡ none)
          ⊎ ((i : ℕ) × (position s table ≡ some i) × (entry i table ≡ some s))
    found s table = elim (Bool-cases (contains table s)) [
      | inl e ↦ inr (known s table e)
      | inr e ↦ inl (position-none s table e)
    ]

-- The modifiers that the two menus can hold.
pub data IsModifiers : List String → Type 0 where
  no_modifier : IsModifiers []
  one_modifier : {a : String} → IsModifier a → IsModifiers (a ∷ [])
  two_modifiers :
      {a b : String} → IsModifier a → IsModifier b → (a == b) ≡ false → IsModifiers (a ∷ b ∷ [])

-- A trigger of a kind that the form has, with at most one combination of keys, all from the menus.
pub data IsEditable : TriggerConfig → Type 0 where
  manual : IsEditable TriggerConfig.manual
  schedule : {cron : String} → IsEditable (TriggerConfig.schedule cron)
  no_hotkey : IsEditable (TriggerConfig.hotkey [])
  hotkey :
      {combo : KeyCombo}
      → IsKey combo.key
      → IsModifiers combo.modifiers
      → IsEditable (TriggerConfig.hotkey (combo ∷ []))
  window_focus :
      {title : String} {regex : Bool} → IsEditable (TriggerConfig.window_focus title regex)
  process : (name : String) (event : ProcessEvent) → IsEditable (TriggerConfig.process name event)

-- The index that the menu of the n-th modifier gets.
abbrev mod_index : ℕ → List String → ℕ
mod_index n modifiers = index_of hotkey_mods (or_else (entry n modifiers) "None")

chosen-one : (a : String) → IsModifier a → chosen_mods (index_of hotkey_mods a) 0 ≡ some (a ∷ [])
unfolding chosen_mods
chosen-one a is_a = let (i, index, at_i) = modifier a is_a in rw (index, chosen_mods, at_i) refl

chosen-two :
    (a b : String)
    → IsModifier a
    → IsModifier b
    → (a == b) ≡ false
    → chosen_mods (index_of hotkey_mods a) (index_of hotkey_mods b) ≡ some (a ∷ b ∷ [])
unfolding chosen_mods contains
chosen-two a b is_a is_b differ =
    let (i, index, at_i) = modifier a is_a in
    let (j, index_b, at_j) = modifier b is_b in
    rw (index, index_b, chosen_mods, at_i, at_j, differ) refl

chosen_mods-index :
    (modifiers : List String)
    → IsModifiers modifiers
    → chosen_mods (mod_index 0 modifiers) (mod_index 1 modifiers) ≡ some modifiers
unfolding chosen_mods entry index_of position
chosen_mods-index modifiers IsModifiers.no_modifier = refl
chosen_mods-index modifiers (IsModifiers.one_modifier {a} is_a) = chosen-one a is_a
chosen_mods-index modifiers (IsModifiers.two_modifiers {a} {b} is_a is_b differ) =
    chosen-two a b is_a is_b differ

build_hotkey-combo :
    (form : TriggerForm) (key : String) (mods : List String)
    → IsKey key
    → form.key_idx ≡ index_of hotkey_keys key
    → chosen_mods form.mod1_idx form.mod2_idx ≡ some mods
    → build_hotkey form ≡ some (TriggerConfig.hotkey (record { modifiers = mods; key = key } ∷ []))
unfolding build_hotkey
build_hotkey-combo form key mods is_key at_key chosen =
    let known : or_else (entry form.key_idx hotkey_keys) "" ≡ key =
      rw (at_key, position_entry key hotkey_keys is_key.offered) refl in
    ground (arith, known, is_key.is_chosen, chosen)

-- Putting a trigger that the form can show into the form, whatever the form held, and building it
-- again gives the same trigger.
pub build_trigger_from_ui-populate_trigger_fields :
    (t : TriggerConfig) (form : TriggerForm)
    → IsEditable t
    → build_trigger_from_ui
        (populate_trigger_fields t form)
        (populate_trigger_fields t form).trigger_kind
      ≡ some t
unfolding build_trigger_from_ui populate_trigger_fields
build_trigger_from_ui-populate_trigger_fields t form IsEditable.manual = refl
build_trigger_from_ui-populate_trigger_fields t form (IsEditable.schedule {cron}) =
    ap (λ c. some (TriggerConfig.schedule c)) (entry_or_self cron cron_presets 7 no_eighth)
build_trigger_from_ui-populate_trigger_fields t form IsEditable.no_hotkey = refl
build_trigger_from_ui-populate_trigger_fields t form (IsEditable.hotkey {combo} is_key mods) =
    build_hotkey-combo (populate_trigger_fields t form) combo.key combo.modifiers is_key refl
      (chosen_mods-index combo.modifiers mods)
build_trigger_from_ui-populate_trigger_fields t form IsEditable.window_focus = refl
build_trigger_from_ui-populate_trigger_fields t form
      (IsEditable.process name ProcessEvent.started) =
    refl
build_trigger_from_ui-populate_trigger_fields t form
      (IsEditable.process name ProcessEvent.stopped) =
    refl
