-- ===== src/Editor/Steps/Rows.antt =====
-- crates/app/src/tree_model.rs: the rows of a workflow tree. `serde_json::to_string_pretty` is the
-- parameter `to_json`.
use ko_rkuma.Prelude.{
  ℕ, suc, Bool, true, false, String, List, [], ◌∷◌, ◌++◌, Option, none, some, length,
}
use ko_rkuma.Domain.{
  ActionConfig, TargetSelector, UiOp, WaitCondition, WorkflowNode, Nodes, Otherwise,
}
use ko_rkuma.Editor.Rows.{Piece, Text}

pub record WorkflowTreeRow : Type 0 where
  pub depth : ℕ
  pub kind : String
  pub action_type : String
  pub summary : Text
  pub params_json : String
  pub is_container : Bool

abbrev pub describe_target : TargetSelector → Text
describe_target TargetSelector.foreground = Piece.text "foreground" ∷ []
describe_target (TargetSelector.window title_pattern regex) =
    Piece.text "window:\"" ∷ Piece.text title_pattern ∷ Piece.text "\"" ∷ []
describe_target (TargetSelector.process name) = Piece.text "process:" ∷ Piece.text name ∷ []
describe_target (TargetSelector.browser_tab url_pattern) =
    Piece.text "tab:" ∷ Piece.text url_pattern ∷ []
describe_target (TargetSelector.custom provider params) =
    Piece.text "custom:" ∷ Piece.text provider ∷ []

abbrev pub unwrap_or_root : Option String → String
unwrap_or_root none = "root"
unwrap_or_root (some node) = node

abbrev pub describe_op : UiOp → Text
describe_op (UiOp.click node) = Piece.text "click(" ∷ Piece.text node ∷ Piece.text ")" ∷ []
describe_op (UiOp.set_text node content) =
    Piece.text "setText("
    ∷ Piece.text node
    ∷ Piece.text ", \""
    ∷ Piece.text content
    ∷ Piece.text "\")"
    ∷ []
describe_op (UiOp.send_keys keys) = Piece.text "sendKeys" ∷ []
describe_op (UiOp.focus node) =
    Piece.text "focus(" ∷ Piece.text (unwrap_or_root node) ∷ Piece.text ")" ∷ []
describe_op (UiOp.read_value node) = Piece.text "read(" ∷ Piece.text node ∷ Piece.text ")" ∷ []

abbrev pub describe_action : ActionConfig → String × Text
describe_action (ActionConfig.notify title body) =
    ("Notify", Piece.text "Notify: \"" ∷ Piece.text title ∷ Piece.text "\"" ∷ [])
describe_action (ActionConfig.run_command program args capture) = (
  "RunCommand",
  Piece.text "Run: " ∷ Piece.text program ∷ Piece.text " " ∷ Piece.joined " " args ∷ [],
)
describe_action (ActionConfig.simulate_input sequence) = (
  "SimulateInput",
  Piece.text "SimulateInput  (" ∷ Piece.number (length sequence) ∷ Piece.text " events)" ∷ [],
)
describe_action (ActionConfig.delay millis) =
    ("Delay", Piece.text "Delay  " ∷ Piece.number millis ∷ Piece.text "ms" ∷ [])
describe_action (ActionConfig.set_variable scope key value) =
    ("SetVariable", Piece.text "Set $" ∷ Piece.text key ∷ [])
describe_action (ActionConfig.run_script lang source) = ("RunScript", Piece.text "Run Script" ∷ [])
describe_action (ActionConfig.http_request method url body) =
    ("HttpRequest", Piece.text method ∷ Piece.text " " ∷ Piece.text url ∷ [])
describe_action (ActionConfig.interact target op on_no_background) = (
  "Interact",
  (Piece.text "Interact: " ∷ [])
      ++ (describe_op op ++ (Piece.text " on " ∷ describe_target target)),
)
describe_action (ActionConfig.custom provider params) =
    ("Custom", Piece.text "Custom: " ∷ Piece.text provider ∷ [])

-- `children.len()`
unfoldable pub count_nodes : Nodes → ℕ
count_nodes Nodes.nil = 0
count_nodes (Nodes.cons n nodes) = suc (count_nodes nodes)

abbrev pub node_row : ℕ → String → Text → Bool → WorkflowTreeRow
node_row depth kind summary is_container = record {
  depth = depth;
  kind = kind;
  action_type = "";
  summary = summary;
  params_json = "";
  is_container = is_container;
}

abbrev pub container : ℕ → String → Text → WorkflowTreeRow
container depth kind summary = node_row depth kind summary true

abbrev pub seq_row : ℕ → ℕ → WorkflowTreeRow
seq_row depth n =
    container depth "Seq" (Piece.text "Seq  (" ∷ Piece.number n ∷ Piece.text " steps)" ∷ [])

abbrev pub parallel_row : ℕ → ℕ → WorkflowTreeRow
parallel_row depth n =
    container depth "Parallel"
      (Piece.text "Parallel  (" ∷ Piece.number n ∷ Piece.text " branches)" ∷ [])

abbrev pub if_row : ℕ → WorkflowTreeRow
if_row depth = container depth "If" (Piece.text "If  (condition)" ∷ [])

abbrev pub then_row : ℕ → WorkflowTreeRow
then_row depth = container depth "Then" (Piece.text "then:" ∷ [])

abbrev pub else_row : ℕ → WorkflowTreeRow
else_row depth = container depth "Else" (Piece.text "else:" ∷ [])

abbrev pub while_row : ℕ → ℕ → WorkflowTreeRow
while_row depth max_iter =
    container depth "While"
      (Piece.text "While  (max " ∷ Piece.number max_iter ∷ Piece.text " iterations)" ∷ [])

abbrev pub for_each_row : ℕ → String → WorkflowTreeRow
for_each_row depth var =
    container depth "ForEach" (Piece.text "ForEach  ($" ∷ Piece.text var ∷ Piece.text ")" ∷ [])

abbrev pub retry_row : ℕ → ℕ → WorkflowTreeRow
retry_row depth times =
    container depth "Retry" (Piece.text "Retry  (" ∷ Piece.number times ∷ Piece.text "×)" ∷ [])

abbrev pub timeout_row : ℕ → ℕ → WorkflowTreeRow
timeout_row depth millis =
    container depth "Timeout"
      (Piece.text "Timeout  (" ∷ Piece.number millis ∷ Piece.text "ms)" ∷ [])

abbrev pub wait_row : ℕ → WaitCondition → WorkflowTreeRow
wait_row depth (WaitCondition.duration millis) =
    node_row depth "Wait" (Piece.text "Wait  " ∷ Piece.number millis ∷ Piece.text "ms" ∷ []) false

module _ (to_json : ActionConfig → String) where
  abbrev pub action_row : ℕ → ActionConfig → WorkflowTreeRow
  action_row depth cfg = record {
    depth = depth;
    kind = "Action";
    action_type = (describe_action cfg).0;
    summary = (describe_action cfg).1;
    params_json = to_json cfg;
    is_container = false;
  }

  -- `rows` is passed in and returned.
  unfoldable mutual
    unfolding count_nodes

    pub flatten_workflow_rec : WorkflowNode → ℕ → List WorkflowTreeRow → List WorkflowTreeRow
    flatten_workflow_rec (WorkflowNode.action cfg) depth rows = rows ++ (action_row depth cfg ∷ [])
    flatten_workflow_rec (WorkflowNode.seq nodes) depth rows =
        flatten_nodes nodes (suc depth) (rows ++ (seq_row depth (count_nodes nodes) ∷ []))
    flatten_workflow_rec (WorkflowNode.parallel nodes) depth rows =
        flatten_nodes nodes (suc depth) (rows ++ (parallel_row depth (count_nodes nodes) ∷ []))
    flatten_workflow_rec (WorkflowNode.if_node cond then_ otherwise) depth rows =
        flatten_otherwise otherwise depth (
          flatten_workflow_rec then_ (suc (suc depth))
            ((rows ++ (if_row depth ∷ [])) ++ (then_row (suc depth) ∷ [])))
    flatten_workflow_rec (WorkflowNode.while_node cond body max_iter) depth rows =
        flatten_workflow_rec body (suc depth) (rows ++ (while_row depth max_iter ∷ []))
    flatten_workflow_rec (WorkflowNode.for_each items var body) depth rows =
        flatten_workflow_rec body (suc depth) (rows ++ (for_each_row depth var ∷ []))
    flatten_workflow_rec (WorkflowNode.retry body times backoff_ms) depth rows =
        flatten_workflow_rec body (suc depth) (rows ++ (retry_row depth times ∷ []))
    flatten_workflow_rec (WorkflowNode.timeout body millis) depth rows =
        flatten_workflow_rec body (suc depth) (rows ++ (timeout_row depth millis ∷ []))
    flatten_workflow_rec (WorkflowNode.wait until) depth rows = rows ++ (wait_row depth until ∷ [])

    pub flatten_nodes : Nodes → ℕ → List WorkflowTreeRow → List WorkflowTreeRow
    flatten_nodes Nodes.nil depth rows = rows
    flatten_nodes (Nodes.cons n nodes) depth rows =
        flatten_nodes nodes depth (flatten_workflow_rec n depth rows)

    -- `depth` is that of the `If`.
    pub flatten_otherwise : Otherwise → ℕ → List WorkflowTreeRow → List WorkflowTreeRow
    flatten_otherwise Otherwise.absent depth rows = rows
    flatten_otherwise (Otherwise.present n) depth rows =
        flatten_workflow_rec n (suc (suc depth)) (rows ++ (else_row (suc depth) ∷ []))

  unfoldable pub flatten_workflow : WorkflowNode → List WorkflowTreeRow
  unfolding flatten_workflow_rec
  flatten_workflow n = flatten_workflow_rec n 0 []
