-- ===== src/Domain/Config.antt =====
-- crates/core/src/domain.rs: the configurations of triggers, actions and constraints, and the
-- policies. crates/core/src/permission.rs: the permissions. A `PathBuf` is its text, and a
-- `serde_json::Value`, which the core never looks into, is the text of the document.
use ko_rkuma.Prelude.{ℕ, Bool, String, List, Option, Eq, eq_of_discrete, String-discrete}
use ko_rkuma.Domain.Data.{Value}

pub record KeyCombo : Type 0 where
  pub modifiers : List String
  pub key : String

pub data ProcessEvent : Type 0 where
  started stopped : ProcessEvent

pub data FsEventKind : Type 0 where
  created modified deleted : FsEventKind

pub data VarScope : Type 0 where
  global local : VarScope

pub data CompareOp : Type 0 where
  eq ne lt gt le ge : CompareOp

pub data ScriptLang : Type 0 where
  rhai : ScriptLang

-- The coordinates of `mouse_move` are the 64 bits of each `f64`.
pub data InputEvent : Type 0 where
  key_press key_release : (key : String) → InputEvent
  text : String → InputEvent
  mouse_move : (x y : ℕ) → InputEvent
  mouse_click : (button : String) → InputEvent

pub data TriggerConfig : Type 0 where
  hotkey : (keys : List KeyCombo) → TriggerConfig
  window_focus : (title_pattern : String) (regex : Bool) → TriggerConfig
  process : (name : String) (event : ProcessEvent) → TriggerConfig
  schedule : (cron : String) → TriggerConfig
  file_change : (path : String) (kind : FsEventKind) → TriggerConfig
  manual : TriggerConfig
  custom : (provider params : String) → TriggerConfig

pub data TargetSelector : Type 0 where
  foreground : TargetSelector
  window : (title_pattern : String) (regex : Bool) → TargetSelector
  process : (name : String) → TargetSelector
  browser_tab : (url_pattern : String) → TargetSelector
  custom : (provider params : String) → TargetSelector

pub data UiOp : Type 0 where
  click : (node : String) → UiOp
  set_text : (node text : String) → UiOp
  send_keys : (keys : List KeyCombo) → UiOp
  focus : (node : Option String) → UiOp
  read_value : (node : String) → UiOp

pub data OnNoBackground : Type 0 where
  degrade fail queue : OnNoBackground

pub data ActionConfig : Type 0 where
  run_command : (program : String) (args : List String) (capture : Bool) → ActionConfig
  notify : (title body : String) → ActionConfig
  simulate_input : (sequence : List InputEvent) → ActionConfig
  http_request : (method url : String) (body : Option String) → ActionConfig
  set_variable : (scope : VarScope) (key : String) (value : Value) → ActionConfig
  delay : (millis : ℕ) → ActionConfig
  run_script : (lang : ScriptLang) (source : String) → ActionConfig
  interact :
      (target : TargetSelector) (op : UiOp) (on_no_background : OnNoBackground) → ActionConfig
  custom : (provider params : String) → ActionConfig

pub data ConstraintConfig : Type 0 where
  active_window : (title_pattern : String) (regex : Bool) → ConstraintConfig
  time_range : (from to : String) → ConstraintConfig
  var_compare : (key : String) (op : CompareOp) (value : Value) → ConstraintConfig
  expression : (dsl : String) → ConstraintConfig
  custom : (provider params : String) → ConstraintConfig

pub data WaitCondition : Type 0 where
  duration : (millis : ℕ) → WaitCondition

pub data ConcurrencyPolicy : Type 0 where
  parallel : ConcurrencyPolicy
  queue : (max : ℕ) → ConcurrencyPolicy
  drop_if_running : ConcurrencyPolicy
  restart_if_running : ConcurrencyPolicy
  debounce : (ms : ℕ) → ConcurrencyPolicy
  throttle : (ms : ℕ) → ConcurrencyPolicy

pub data PathScope : Type 0 where
  exact : String → PathScope
  prefix : String → PathScope
  any : PathScope

pub data Permission : Type 0 where
  input_simulation : Permission
  file_read file_write : (scope : PathScope) → Permission
  network run_command script_execution clipboard_read clipboard_write : Permission
  window_interaction browser_control foreground_takeover : Permission

PathScope-discrete : Discrete PathScope
PathScope-discrete = hlevel String-discrete

pub Permission-discrete : Discrete Permission
unfolding PathScope-discrete
Permission-discrete = hlevel PathScope-discrete

instance abbrev pub permission_eq : Eq Permission
permission_eq = eq_of_discrete Permission-discrete
