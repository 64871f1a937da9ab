-- ===== src/App/Constraints.antt =====
-- crates/app/src/callbacks.rs: the callbacks on the constraint of the selected macro.
use ko_rkuma.Prelude.{
  ℕ, Bool, true, false, String, Option, none, some, ◌==◌, string_eq, nat_eq, if◌then◌else◌,
}
use ko_rkuma.Domain.{Value, CompareOp, ConstraintConfig, ConstraintExpr, Macro}
use ko_rkuma.Editor.{add_constraint_leaf, wrap_constraint_at}
use ko_rkuma.Editor.Rows.{flatten_constraint, default_constraint_config}
use ko_rkuma.Editor.Replace.{update_constraint_leaf}
use ko_rkuma.Editor.Delete.{delete_constraint_at}
use ko_rkuma.Editor.Move.{move_constraint_node}
use ko_rkuma.App.State.{Formats, ConstraintForm, Window, App, get, edit_selected}

abbrev pub op_index : CompareOp → ℕ
op_index CompareOp.eq = 0
op_index CompareOp.ne = 1
op_index CompareOp.lt = 2
op_index CompareOp.gt = 3
op_index CompareOp.le = 4
op_index CompareOp.ge = 5

unfoldable pub op_of_index : ℕ → CompareOp
op_of_index i =
    if i == 1
    then CompareOp.ne
    else if i == 2
    then CompareOp.lt
    else if i == 3
    then CompareOp.gt
    else if i == 4
    then CompareOp.le
    else if i == 5
    then CompareOp.ge
    else CompareOp.eq

abbrev pub bool_text : Bool → String
bool_text true = "true"
bool_text false = "false"

abbrev pub set_constraints : (ConstraintExpr → ConstraintExpr) → Macro → Option Macro
set_constraints change m = some (record m { constraints = change m.constraints })

module _ (fmt : Formats) where
  abbrev pub value_text : Value → String
  value_text (Value.int i) = fmt.int_to_string i
  value_text (Value.float f) = fmt.float_to_string f
  value_text (Value.bool b) = bool_text b
  value_text (Value.str s) = s
  value_text _ = ""

  unfoldable pub parse_value : String → Value
  parse_value vs = elim (fmt.parse_int vs) [
    | some i ↦ Value.int i
    | none ↦ elim (fmt.parse_float vs) [
      | some f ↦ Value.float f
      | none ↦
          if vs == "true"
          then Value.bool true
          else if vs == "false"
          then Value.bool false
          else Value.str vs
    ]
  ]

  -- The arms on the leaf that the selected row holds.
  unfoldable pub populate_constraint : ConstraintConfig → ConstraintForm → ConstraintForm
  populate_constraint (ConstraintConfig.active_window title_pattern regex) form = record form {
    aw_title = title_pattern;
    aw_regex = regex;
  }
  populate_constraint (ConstraintConfig.time_range from to) form = record form {
    tr_from = from;
    tr_to = to;
  }
  populate_constraint (ConstraintConfig.var_compare key op value) form = record form {
    vc_key = key;
    vc_op_idx = op_index op;
    vc_value = value_text value;
  }
  populate_constraint (ConstraintConfig.expression dsl) form = record form { expr_dsl = dsl }
  populate_constraint (ConstraintConfig.custom provider params) form = form

  unfoldable pub constraint_node_selected : ℕ → App → App
  unfolding get
  constraint_node_selected idx app = elim (get idx app.window.constraint_rows) [
    | none ↦ app
    | some row ↦ record app {
      window = record app.window {
        constraint_edit_json = row.params_json;
        constraint_leaf_type = row.leaf_type;
        constraint_form = elim (fmt.constraint_from_json row.params_json) [
          | none ↦ app.window.constraint_form
          | some cfg ↦ populate_constraint cfg app.window.constraint_form
        ];
      };
    }
  ]

  -- The leaf that the form describes; `none` for a type that the form does not have.
  unfoldable pub build_constraint : String → ConstraintForm → Option ConstraintConfig
  unfolding op_of_index parse_value
  build_constraint leaf_type form =
      if leaf_type == "ActiveWindow"
      then some (ConstraintConfig.active_window form.aw_title form.aw_regex)
      else if leaf_type == "TimeRange"
      then some (ConstraintConfig.time_range form.tr_from form.tr_to)
      else if leaf_type == "VarCompare"
      then some (
          ConstraintConfig.var_compare form.vc_key (op_of_index form.vc_op_idx)
            (parse_value form.vc_value))
      else if leaf_type == "Expression"
      then some (ConstraintConfig.expression form.expr_dsl)
      else none

  unfoldable pub show_constraints : Macro → Window → Window
  unfolding flatten_constraint
  show_constraints m w = record w {
    constraint_rows = flatten_constraint fmt.constraint_to_json m.constraints;
  }

  unfoldable pub edit_constraints : (ConstraintExpr → ConstraintExpr) → Bool → App → App
  edit_constraints change saved app =
      edit_selected (set_constraints change) show_constraints saved app

  unfoldable pub constraint_update_node : ℕ → String → Bool → App → App
  constraint_update_node idx new_json =
      edit_constraints (λ e. update_constraint_leaf fmt.constraint_from_json e idx new_json)

  unfoldable pub constraint_update : Bool → App → App
  constraint_update saved app = elim app.window.selected_index [
    | none ↦ app
    | some sel ↦ elim app.window.constraint_selected [
      | none ↦ app
      | some node_idx ↦
          elim (build_constraint app.window.constraint_leaf_type app.window.constraint_form) [
            | none ↦ app
            | some new_cfg ↦
                constraint_update_node node_idx (fmt.constraint_to_compact new_cfg) saved app
          ]
    ]
  ]

  -- The node that was selected is no longer there.
  unfoldable pub show_constraints_deselected : Macro → Window → Window
  show_constraints_deselected m w = record (show_constraints m w) {
    constraint_selected = none;
    constraint_edit_json = "";
    constraint_leaf_type = "";
  }

  unfoldable pub constraint_delete_node : ℕ → Bool → App → App
  constraint_delete_node idx =
      edit_selected (set_constraints (λ e. delete_constraint_at e idx)) show_constraints_deselected

  unfoldable pub constraint_add_leaf : String → Bool → App → App
  constraint_add_leaf leaf_type =
      edit_constraints (λ e. add_constraint_leaf e (default_constraint_config leaf_type))

  unfoldable pub constraint_wrap : String → Bool → App → App
  constraint_wrap kind saved app =
      edit_constraints (λ e. wrap_constraint_at e app.window.constraint_selected kind) saved app

  unfoldable pub constraint_move : Bool → ℕ → Bool → App → App
  constraint_move up idx = edit_constraints (λ e. move_constraint_node e idx up)
