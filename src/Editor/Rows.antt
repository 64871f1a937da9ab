-- ===== src/Editor/Rows.antt =====
-- crates/app/src/tree_model.rs: the rows of a constraint tree. A text built by `format!` is the list
-- of its pieces, and `serde_json::to_string_pretty` is the parameter `to_json`.
use ko_rkuma.Prelude.{
  ℕ, suc, Bool, true, false, String, List, [], ◌∷◌, ◌++◌, ◌==◌, string_eq, if◌then◌else◌,
}
use ko_rkuma.Domain.{Value, pos, CompareOp, ConstraintConfig, ConstraintExpr, Exprs}

-- A number is printed in decimal, a value by its derived `Debug`, a list of words with a
-- separator between them.
pub data Piece : Type 0 where
  text : String → Piece
  number : ℕ → Piece
  debug : Value → Piece
  joined : (separator : String) (words : List String) → Piece

abbrev pub Text : Type 0
Text = List Piece

pub record ConstraintTreeRow : Type 0 where
  pub depth : ℕ
  pub kind : String
  pub leaf_type : String
  pub summary : Text
  pub params_json : String

abbrev pub regex_mark : Bool → String
regex_mark true = " (regex)"
regex_mark false = ""

abbrev pub compare_op_str : CompareOp → String
compare_op_str CompareOp.eq = "=="
compare_op_str CompareOp.ne = "!="
compare_op_str CompareOp.lt = "<"
compare_op_str CompareOp.gt = ">"
compare_op_str CompareOp.le = "<="
compare_op_str CompareOp.ge = ">="

abbrev pub describe_constraint : ConstraintConfig → String × Text
describe_constraint (ConstraintConfig.active_window title_pattern regex) = (
  "ActiveWindow",
  Piece.text "Active window ~ \""
      ∷ Piece.text title_pattern
      ∷ Piece.text "\""
      ∷ Piece.text (regex_mark regex)
      ∷ [],
)
describe_constraint (ConstraintConfig.time_range from to) =
    ("TimeRange", Piece.text "Time " ∷ Piece.text from ∷ Piece.text "–" ∷ Piece.text to ∷ [])
describe_constraint (ConstraintConfig.var_compare key op value) = (
  "VarCompare",
  Piece.text "$"
      ∷ Piece.text key
      ∷ Piece.text " "
      ∷ Piece.text (compare_op_str op)
      ∷ Piece.text " "
      ∷ Piece.debug value
      ∷ [],
)
describe_constraint (ConstraintConfig.expression dsl) =
    ("Expression", Piece.text "expr: " ∷ Piece.text dsl ∷ [])
describe_constraint (ConstraintConfig.custom provider params) =
    ("Custom", Piece.text "custom:" ∷ Piece.text provider ∷ [])

-- `exprs.len()`
unfoldable pub count_exprs : Exprs → ℕ
count_exprs Exprs.nil = 0
count_exprs (Exprs.cons e exprs) = suc (count_exprs exprs)

-- A row with no leaf.
abbrev pub plain_row : ℕ → String → Text → ConstraintTreeRow
plain_row depth kind summary = record {
  depth = depth;
  kind = kind;
  leaf_type = "";
  summary = summary;
  params_json = "";
}

abbrev pub counted : String → ℕ → Text
counted label n =
    Piece.text label ∷ Piece.text "  (" ∷ Piece.number n ∷ Piece.text " conditions)" ∷ []

module _ (to_json : ConstraintConfig → String) where
  abbrev pub leaf_row : ℕ → ConstraintConfig → ConstraintTreeRow
  leaf_row depth c = record {
    depth = depth;
    kind = "Leaf";
    leaf_type = (describe_constraint c).0;
    summary = (describe_constraint c).1;
    params_json = to_json c;
  }

  -- `rows` is passed in and returned.
  unfoldable mutual
    unfolding count_exprs

    pub flatten_constraint_rec :
        ConstraintExpr → ℕ → List ConstraintTreeRow → List ConstraintTreeRow
    flatten_constraint_rec ConstraintExpr.always depth rows =
        rows ++ (plain_row depth "Always" (Piece.text "(always — no constraint)" ∷ []) ∷ [])
    flatten_constraint_rec (ConstraintExpr.leaf c) depth rows = rows ++ (leaf_row depth c ∷ [])
    flatten_constraint_rec (ConstraintExpr.not_ e) depth rows =
        flatten_constraint_rec e (suc depth)
          (rows ++ (plain_row depth "Not" (Piece.text "NOT" ∷ []) ∷ []))
    flatten_constraint_rec (ConstraintExpr.all exprs) depth rows =
        flatten_exprs exprs (suc depth)
          (rows ++ (plain_row depth "All" (counted "AND" (count_exprs exprs)) ∷ []))
    flatten_constraint_rec (ConstraintExpr.any exprs) depth rows =
        flatten_exprs exprs (suc depth)
          (rows ++ (plain_row depth "Any" (counted "OR" (count_exprs exprs)) ∷ []))

    pub flatten_exprs : Exprs → ℕ → List ConstraintTreeRow → List ConstraintTreeRow
    flatten_exprs Exprs.nil depth rows = rows
    flatten_exprs (Exprs.cons e exprs) depth rows =
        flatten_exprs exprs depth (flatten_constraint_rec e depth rows)

  unfoldable pub flatten_constraint : ConstraintExpr → List ConstraintTreeRow
  unfolding flatten_constraint_rec
  flatten_constraint e = flatten_constraint_rec e 0 []

unfoldable pub default_constraint_config : String → ConstraintConfig
default_constraint_config leaf_type =
    if leaf_type == "ActiveWindow"
    then ConstraintConfig.active_window "" false
    else if leaf_type == "TimeRange"
    then ConstraintConfig.time_range "09:00" "18:00"
    else if leaf_type == "VarCompare"
    then ConstraintConfig.var_compare "var" CompareOp.eq (Value.int (pos 0))
    else ConstraintConfig.expression "true"
