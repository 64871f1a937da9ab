-- ===== src/Hooks.antt =====
-- crates/hooks/src/trigger_spec.rs: the triggers that match the events of the hooks. The functions of
-- the standard library on texts are the record `Texts`.
pub mod Subset
pub mod Modifiers
use ko_rkuma.Prelude.{
  ℕ, Bool, true, false, ◌&&◌, String, List, [], ◌∷◌, Option, none, some, any, contains, length,
  ◌==◌, string_eq, nat_eq, if◌then◌else◌,
}
use ko_rkuma.Domain.{
  Event, EventKind, event_kind_eq, Fields, get_field, KeyCombo, ProcessEvent, TriggerConfig, Value,
  Values,
}
use ko_rkuma.Context.{TriggerSpec}

pub record Texts : Type 0 where
  pub to_lowercase : String → String
  pub eq_ignore_ascii_case : String → String → Bool
  -- `text.contains(pattern)`, the pattern first.
  pub contains_text : String → String → Bool

abbrev pub text_field : String → Fields → Option String
text_field name payload = elim (get_field name payload) [ some (Value.str s) ↦ some s | _ ↦ none ]

abbrev pub event_text : ProcessEvent → String
event_text ProcessEvent.started = "started"
event_text ProcessEvent.stopped = "stopped"

module _ (texts : Texts) where
  -- `filter_map` over the list of the event.
  unfoldable pub lower_texts : Values → List String
  lower_texts Values.nil = []
  lower_texts (Values.cons (Value.str s) values) = texts.to_lowercase s ∷ lower_texts values
  lower_texts (Values.cons _ values) = lower_texts values

  abbrev pub mods_of : Option Value → List String
  mods_of (some (Value.list values)) = lower_texts values
  mods_of _ = []

  unfoldable pub lowered : List String → List String
  lowered [] = []
  lowered (m ∷ modifiers) = texts.to_lowercase m ∷ lowered modifiers

  -- `modifiers.iter().all(|m| event_mods.contains(&m.to_lowercase()))`
  unfoldable pub all_held : List String → List String → Bool
  unfolding contains
  all_held [] event_mods = true
  all_held (m ∷ modifiers) event_mods =
      contains event_mods (texts.to_lowercase m) && all_held modifiers event_mods

  unfoldable pub combo_matches : String → List String → KeyCombo → Bool
  unfolding all_held
  combo_matches key event_mods combo =
      texts.eq_ignore_ascii_case combo.key key
      && (length combo.modifiers == length event_mods && all_held combo.modifiers event_mods)

  unfoldable pub hotkey_payload : List KeyCombo → Value → Bool
  unfolding combo_matches any
  hotkey_payload keys (Value.map payload) = elim (text_field "key" payload) [
    | none ↦ false
    | some key ↦ any (combo_matches key (mods_of (get_field "modifiers" payload))) keys
  ]
  hotkey_payload keys _ = false

  abbrev pub HotkeyTriggerSpec : List KeyCombo → TriggerSpec
  HotkeyTriggerSpec keys = record {
    subscribed_kinds = EventKind.hotkey ∷ [];
    matches = λ event.
        if event.kind == EventKind.hotkey then hotkey_payload keys event.payload else false;
  }

  unfoldable pub window_payload : String → Value → Bool
  window_payload title_pattern (Value.map payload) = elim (text_field "title" payload) [
    | none ↦ false
    | some title ↦ texts.contains_text (texts.to_lowercase title_pattern) (texts.to_lowercase title)
  ]
  window_payload title_pattern _ = false

  -- `regex` is not read.
  abbrev pub WindowFocusTriggerSpec : String → Bool → TriggerSpec
  WindowFocusTriggerSpec title_pattern regex = record {
    subscribed_kinds = EventKind.window_focus ∷ [];
    matches = λ event.
        if event.kind == EventKind.window_focus
        then window_payload title_pattern event.payload
        else false;
  }

  unfoldable pub process_payload : String → ProcessEvent → Value → Bool
  process_payload name event (Value.map payload) = elim (text_field "name" payload) [
    | none ↦ false
    | some found ↦ elim (text_field "event" payload) [
      | none ↦ false
      | some ev_type ↦
          texts.contains_text (texts.to_lowercase name) (texts.to_lowercase found)
          && ev_type == event_text event
    ]
  ]
  process_payload name event _ = false

  abbrev pub ProcessTriggerSpec : String → ProcessEvent → TriggerSpec
  ProcessTriggerSpec name process_event = record {
    subscribed_kinds = EventKind.process ∷ [];
    matches = λ event.
        if event.kind == EventKind.process
        then process_payload name process_event event.payload
        else false;
  }

  abbrev pub build_hotkey_spec : TriggerConfig → Option TriggerSpec
  build_hotkey_spec (TriggerConfig.hotkey keys) = some (HotkeyTriggerSpec keys)
  build_hotkey_spec _ = none

  abbrev pub build_window_focus_spec : TriggerConfig → Option TriggerSpec
  build_window_focus_spec (TriggerConfig.window_focus title_pattern regex) =
      some (WindowFocusTriggerSpec title_pattern regex)
  build_window_focus_spec _ = none

  abbrev pub build_process_spec : TriggerConfig → Option TriggerSpec
  build_process_spec (TriggerConfig.process name event) = some (ProcessTriggerSpec name event)
  build_process_spec _ = none
