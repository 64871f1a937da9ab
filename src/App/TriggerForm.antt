-- ===== src/App/TriggerForm.antt =====
-- crates/app/src/trigger.rs: the form of a trigger. The indices of the drop-down menus are numbers; a
-- table that is indexed out of its range panics, which `none` stands for.
use ko_rkuma.Prelude.{
  ℕ, zero, suc, Bool, false, String, List, [], ◌∷◌, ◌++◌, Option, none, some, contains, ◌==◌,
  nat_eq, string_eq, if◌then◌else◌,
}
use ko_rkuma.Domain.{KeyCombo, ProcessEvent, started, stopped, FsEventKind, TriggerConfig}
use ko_rkuma.Editor.Rows.{Piece, Text, regex_mark}

-- "", A to Z, F1 to F12, 0 to 9, and the special keys.
abbrev pub hotkey_keys : List String
hotkey_keys =
    "" ∷ "A" ∷ "B" ∷ "C" ∷ "D" ∷ "E" ∷ "F" ∷ "G" ∷ "H" ∷ "I" ∷ "J" ∷ "K" ∷ "L" ∷ "M" ∷ "N" ∷ "O"
    ∷ "P" ∷ "Q" ∷ "R" ∷ "S" ∷ "T" ∷ "U" ∷ "V" ∷ "W" ∷ "X" ∷ "Y" ∷ "Z" ∷ "F1" ∷ "F2" ∷ "F3" ∷ "F4"
    ∷ "F5" ∷ "F6" ∷ "F7" ∷ "F8" ∷ "F9" ∷ "F10" ∷ "F11" ∷ "F12" ∷ "0" ∷ "1" ∷ "2" ∷ "3" ∷ "4" ∷ "5"
    ∷ "6" ∷ "7" ∷ "8" ∷ "9" ∷ "Space" ∷ "Enter" ∷ "Tab" ∷ "Escape" ∷ "Delete" ∷ "Backspace"
    ∷ "Insert" ∷ "Home" ∷ "End" ∷ "PageUp" ∷ "PageDown" ∷ "Left" ∷ "Right" ∷ "Up" ∷ "Down" ∷ []

abbrev pub hotkey_mods : List String
hotkey_mods = "None" ∷ "Ctrl" ∷ "Alt" ∷ "Shift" ∷ "Win" ∷ "Meta" ∷ []

-- `CRON_PRESETS[..7]`; the eighth entry stands for a schedule of one's own.
abbrev pub cron_presets : List String
cron_presets =
    "* * * * *" ∷ "0 * * * *" ∷ "0 0 * * *" ∷ "0 0 * * 1-5" ∷ "0 0 * * 0" ∷ "0 0 1 * *"
    ∷ "0 0 1 1 *" ∷ []

-- The fields of the window that belong to the trigger form.
pub record TriggerForm : Type 0 where
  pub trigger_kind : String
  pub cron : String
  pub cron_preset_idx : ℕ
  pub mod1_idx : ℕ
  pub mod2_idx : ℕ
  pub key_idx : ℕ
  pub title_pat : String
  pub use_regex : Bool
  pub proc_name : String
  pub proc_event_idx : ℕ

-- `iter().position(|x| x == text)`
unfoldable pub position : String → List String → Option ℕ
position s [] = none
position s (t ∷ table) =
    if t == s then some 0 else elim (position s table) [ none ↦ none | some i ↦ some (suc i) ]

-- `table.get(i)`
unfoldable pub entry : ℕ → List String → Option String
entry i [] = none
entry zero (t ∷ table) = some t
entry (suc i) (t ∷ table) = entry i table

-- `unwrap_or`
abbrev pub or_else {ℓ} : {A : Type ℓ} → Option A → A → A
or_else none a = a
or_else (some x) a = x

abbrev pub first_combo : List KeyCombo → Option KeyCombo
first_combo [] = none
first_combo (combo ∷ keys) = some combo

unfoldable pub index_of : List String → String → ℕ
unfolding position
index_of table s = or_else (position s table) 0

abbrev pub select_combo : Option KeyCombo → TriggerForm → TriggerForm
select_combo none form = record form { mod1_idx = 0; mod2_idx = 0; key_idx = 0 }
select_combo (some combo) form = record form {
  mod1_idx = index_of hotkey_mods (or_else (entry 0 combo.modifiers) "None");
  mod2_idx = index_of hotkey_mods (or_else (entry 1 combo.modifiers) "None");
  key_idx = index_of hotkey_keys combo.key;
}

abbrev pub event_index : ProcessEvent → ℕ
event_index ProcessEvent.started = 0
event_index ProcessEvent.stopped = 1

unfoldable pub populate_trigger_fields : TriggerConfig → TriggerForm → TriggerForm
unfolding index_of entry
populate_trigger_fields TriggerConfig.manual form = record form { trigger_kind = "Manual" }
populate_trigger_fields (TriggerConfig.schedule cron) form = record form {
  trigger_kind = "Schedule";
  cron = cron;
  cron_preset_idx = or_else (position cron cron_presets) 7;
}
populate_trigger_fields (TriggerConfig.hotkey keys) form =
    select_combo (first_combo keys) (record form { trigger_kind = "Hotkey" })
populate_trigger_fields (TriggerConfig.window_focus title_pattern regex) form = record form {
  trigger_kind = "WindowFocus";
  title_pat = title_pattern;
  use_regex = regex;
}
populate_trigger_fields (TriggerConfig.process name event) form = record form {
  trigger_kind = "Process";
  proc_name = name;
  proc_event_idx = event_index event;
}
populate_trigger_fields (TriggerConfig.file_change path kind) form = record form {
  trigger_kind = "FileChange";
  title_pat = path;
}
populate_trigger_fields (TriggerConfig.custom provider params) form = record form {
  trigger_kind = "Custom";
  title_pat = provider;
}

-- The two modifiers of a form, without repetition.
unfoldable pub chosen_mods : ℕ → ℕ → Option (List String)
unfolding entry contains
chosen_mods zero zero = some []
chosen_mods zero (suc j) = elim (entry (suc j) hotkey_mods) [ none ↦ none | some b ↦ some (b ∷ []) ]
chosen_mods (suc i) zero = elim (entry (suc i) hotkey_mods) [ none ↦ none | some a ↦ some (a ∷ []) ]
chosen_mods (suc i) (suc j) = elim (entry (suc i) hotkey_mods) [
  | none ↦ none
  | some a ↦ elim (entry (suc j) hotkey_mods) [
    | none ↦ none
    | some b ↦ some (if contains (a ∷ []) b then a ∷ [] else a ∷ b ∷ [])
  ]
]

-- No modifier is looked up where there is no key.
unfoldable pub build_hotkey : TriggerForm → Option TriggerConfig
unfolding chosen_mods entry
build_hotkey form =
    let key = or_else (entry form.key_idx hotkey_keys) "" in
    if key == ""
    then some (TriggerConfig.hotkey [])
    else elim (chosen_mods form.mod1_idx form.mod2_idx) [
      | none ↦ none
      | some mods ↦ some (TriggerConfig.hotkey (record { modifiers = mods; key = key } ∷ []))
    ]

unfoldable pub build_trigger_from_ui : TriggerForm → String → Option TriggerConfig
unfolding build_hotkey entry
build_trigger_from_ui form kind =
    if kind == "Schedule"
    then some (TriggerConfig.schedule (or_else (entry form.cron_preset_idx cron_presets) form.cron))
    else if kind == "Hotkey"
    then build_hotkey form
    else if kind == "WindowFocus"
    then some (TriggerConfig.window_focus form.title_pat form.use_regex)
    else if kind == "Process"
    then some (
        TriggerConfig.process form.proc_name
          (if form.proc_event_idx == 1 then stopped else started))
    else some TriggerConfig.manual

unfoldable pub default_trigger_config : String → TriggerConfig
default_trigger_config kind =
    if kind == "Schedule"
    then TriggerConfig.schedule "* * * * *"
    else if kind == "Hotkey"
    then TriggerConfig.hotkey []
    else if kind == "WindowFocus"
    then TriggerConfig.window_focus "" false
    else if kind == "Process"
    then TriggerConfig.process "" started
    else TriggerConfig.manual

-- The texts of `format_hotkey` with ", " between them.
unfoldable pub join_combos : List KeyCombo → Text
join_combos [] = []
join_combos (combo ∷ []) = Piece.joined "+" (combo.modifiers ++ (combo.key ∷ [])) ∷ []
join_combos (combo ∷ next ∷ keys) =
    Piece.joined "+" (combo.modifiers ++ (combo.key ∷ []))
    ∷ Piece.text ", "
    ∷ join_combos (next ∷ keys)

abbrev pub format_hotkey : List KeyCombo → Text
format_hotkey [] = Piece.text "—" ∷ []
format_hotkey (combo ∷ keys) = join_combos (combo ∷ keys)

abbrev pub process_event_text : ProcessEvent → String
process_event_text ProcessEvent.started = "started"
process_event_text ProcessEvent.stopped = "stopped"

-- The derived `Debug`.
abbrev pub fs_event_text : FsEventKind → String
fs_event_text FsEventKind.created = "Created"
fs_event_text FsEventKind.modified = "Modified"
fs_event_text FsEventKind.deleted = "Deleted"

abbrev pub describe_trigger : TriggerConfig → String × Text
describe_trigger TriggerConfig.manual = ("Manual", Piece.text "manual trigger" ∷ [])
describe_trigger (TriggerConfig.schedule cron) =
    ("Schedule", Piece.text "cron: " ∷ Piece.text cron ∷ [])
describe_trigger (TriggerConfig.hotkey keys) = ("Hotkey", format_hotkey keys)
describe_trigger (TriggerConfig.window_focus title_pattern regex) = (
  "WindowFocus",
  Piece.text "window ~ \""
      ∷ Piece.text title_pattern
      ∷ Piece.text "\""
      ∷ Piece.text (regex_mark regex)
      ∷ [],
)
describe_trigger (TriggerConfig.process name event) =
    ("Process", Piece.text name ∷ Piece.text " " ∷ Piece.text (process_event_text event) ∷ [])
describe_trigger (TriggerConfig.file_change path kind) =
    ("FileChange", Piece.text path ∷ Piece.text " " ∷ Piece.text (fs_event_text kind) ∷ [])
describe_trigger (TriggerConfig.custom provider params) =
    ("Custom", Piece.text "custom:" ∷ Piece.text provider ∷ [])

pub record TriggerRow : Type 0 where
  pub kind : String
  pub summary : Text

unfoldable pub to_slint_trigger_rows : List TriggerConfig → List TriggerRow
to_slint_trigger_rows [] = []
to_slint_trigger_rows (t ∷ triggers) =
    record { kind = (describe_trigger t).0; summary = (describe_trigger t).1 }
    ∷ to_slint_trigger_rows triggers
