-- ===== src/Editor/Steps/Replace.antt =====
-- crates/app/src/tree_model.rs: `update_workflow_action`, with `serde_json::from_str` as the
-- parameter `from_json`.
use ko_rkuma.Prelude.{
  ℕ, suc, ◌+◌, Bool, true, false, ◌&&◌, ◌||◌, ◌≡◌, refl, sym, ap, ◌∙◌, String, List, [], ◌∷◌, ◌++◌,
  Option, none, some, length, ◌==◌, nat_eq, string_eq, if◌then◌else◌, Option-cases, inl, inr, arith,
}
use ko_rkuma.Domain.{ActionConfig, WaitCondition, WorkflowNode, Nodes, Otherwise}
use ko_rkuma.Editor.{Edited, unchanged, in_node}
use ko_rkuma.Editor.Steps.Rows.{WorkflowTreeRow, action_row, count_nodes, flatten_workflow}
use ko_rkuma.Editor.Steps.Positions.{
  workflow_subtree_size, nodes_size, otherwise_size, node_rows, nodes_rows, otherwise_rows,
  length-node_rows, flatten_workflow-rows,
}

-- An `If` reports what it found in `then`; nobody reads the mark.
abbrev pub if_edited :
    (WorkflowNode → Otherwise → WorkflowNode)
    → Edited WorkflowNode
    → Edited Otherwise
    → Edited WorkflowNode
if_edited node then_ otherwise = record {
  result = node then_.result otherwise.result;
  found = then_.found;
  counter = otherwise.counter;
}

module _ (target : ℕ) (new_cfg : ActionConfig) where
  -- `other => (other, false)` takes a `ForEach` too.
  unfoldable mutual
    pub replace_action_rec : WorkflowNode → ℕ → Edited WorkflowNode
    replace_action_rec (WorkflowNode.action cfg) pos =
        if pos == target
        then record { result = WorkflowNode.action new_cfg; found = true; counter = suc pos }
        else unchanged (WorkflowNode.action cfg) (suc pos)
    replace_action_rec (WorkflowNode.seq nodes) pos =
        in_node WorkflowNode.seq (replace_children nodes (suc pos))
    replace_action_rec (WorkflowNode.parallel nodes) pos =
        in_node WorkflowNode.parallel (replace_children nodes (suc pos))
    replace_action_rec (WorkflowNode.if_node cond then_ otherwise) pos =
        let r = replace_action_rec then_ (suc (suc pos)) in
        if_edited (WorkflowNode.if_node cond) r (replace_otherwise otherwise r.counter)
    replace_action_rec (WorkflowNode.while_node cond body max_iter) pos =
        in_node (λ b. WorkflowNode.while_node cond b max_iter) (replace_action_rec body (suc pos))
    replace_action_rec (WorkflowNode.retry body times backoff_ms) pos =
        in_node (λ b. WorkflowNode.retry b times backoff_ms) (replace_action_rec body (suc pos))
    replace_action_rec (WorkflowNode.timeout body millis) pos =
        in_node (λ b. WorkflowNode.timeout b millis) (replace_action_rec body (suc pos))
    replace_action_rec (WorkflowNode.for_each items var body) pos =
        unchanged (WorkflowNode.for_each items var body) (suc pos)
    replace_action_rec (WorkflowNode.wait until) pos = unchanged (WorkflowNode.wait until) (suc pos)

    pub replace_children : Nodes → ℕ → Edited Nodes
    replace_children Nodes.nil counter = unchanged Nodes.nil counter
    replace_children (Nodes.cons n nodes) counter =
        let r = replace_action_rec n counter in
        let rest = replace_children nodes r.counter in
        record {
          result = Nodes.cons r.result rest.result;
          found = r.found || rest.found;
          counter = rest.counter;
        }

    -- The row of the label "Else" is counted.
    pub replace_otherwise : Otherwise → ℕ → Edited Otherwise
    replace_otherwise Otherwise.absent counter = unchanged Otherwise.absent counter
    replace_otherwise (Otherwise.present n) counter =
        in_node Otherwise.present (replace_action_rec n (suc counter))

unfoldable pub update_workflow_action :
    (String → Option ActionConfig) → WorkflowNode → ℕ → String → WorkflowNode
unfolding replace_action_rec
update_workflow_action from_json root pos new_json = elim (from_json new_json) [
  | none ↦ root
  | some new_cfg ↦ (replace_action_rec pos new_cfg root 0).result
]

-- No `ForEach` stands in the tree.
unfoldable mutual
  pub no_for_each : WorkflowNode → Bool
  no_for_each (WorkflowNode.action cfg) = true
  no_for_each (WorkflowNode.seq nodes) = no_for_each_in nodes
  no_for_each (WorkflowNode.parallel nodes) = no_for_each_in nodes
  no_for_each (WorkflowNode.if_node cond then_ otherwise) =
      no_for_each then_ && no_for_each_else otherwise
  no_for_each (WorkflowNode.while_node cond body max_iter) = no_for_each body
  no_for_each (WorkflowNode.for_each items var body) = false
  no_for_each (WorkflowNode.retry body times backoff_ms) = no_for_each body
  no_for_each (WorkflowNode.timeout body millis) = no_for_each body
  no_for_each (WorkflowNode.wait until) = true

  pub no_for_each_in : Nodes → Bool
  no_for_each_in Nodes.nil = true
  no_for_each_in (Nodes.cons n nodes) = no_for_each n && no_for_each_in nodes

  pub no_for_each_else : Otherwise → Bool
  no_for_each_else Otherwise.absent = true
  no_for_each_else (Otherwise.present n) = no_for_each n

module _ (to_json : ActionConfig → String) (target : ℕ) (new_cfg : ActionConfig) where
  -- The row at `target` shows the new action, if it is the row of an action.
  unfoldable pub patch : ℕ → List WorkflowTreeRow → List WorkflowTreeRow
  patch pos [] = []
  patch pos (row ∷ rows) =
      (if pos == target && row.kind == "Action" then action_row to_json row.depth new_cfg else row)
      ∷ patch (suc pos) rows

  patch-append :
      (pos : ℕ) (xs ys : List WorkflowTreeRow)
      → patch pos (xs ++ ys) ≡ patch pos xs ++ patch (pos + length xs) ys
  unfolding patch
  patch-append pos [] ys = ap (λ (n : ℕ). patch n ys) (omega arith)
  patch-append pos (row ∷ xs) ys =
      let here =
        if pos == target && row.kind == "Action"
        then action_row to_json row.depth new_cfg
        else row in
      ap (λ rows. here ∷ rows)
        (patch-append (suc pos) xs ys
          ∙ ap (λ (n : ℕ). patch (suc pos) xs ++ patch n ys) (omega arith))

  count_nodes-replace :
      (nodes : Nodes) (pos : ℕ)
      → count_nodes (replace_children target new_cfg nodes pos).result ≡ count_nodes nodes
  unfolding replace_action_rec count_nodes
  count_nodes-replace Nodes.nil pos = refl
  count_nodes-replace (Nodes.cons n nodes) pos = ap suc (count_nodes-replace nodes _)

  mutual
    unfolding replace_action_rec workflow_subtree_size no_for_each

    counter-replace :
        (n : WorkflowNode) (pos : ℕ)
        → no_for_each n ≡ true
        → (replace_action_rec target new_cfg n pos).counter ≡ pos + workflow_subtree_size n
    counter-replace (WorkflowNode.action cfg) pos h = ground arith
    counter-replace (WorkflowNode.wait until) pos h = omega arith
    counter-replace (WorkflowNode.seq nodes) pos h =
        omega (arith, counter-replace_children nodes (suc pos) h)
    counter-replace (WorkflowNode.parallel nodes) pos h =
        omega (arith, counter-replace_children nodes (suc pos) h)
    counter-replace (WorkflowNode.if_node cond then_ otherwise) pos h =
        let r = replace_action_rec target new_cfg then_ (suc (suc pos)) in
        omega (
          arith,
          counter-replace then_ (suc (suc pos)) (ground (arith, h)),
          counter-replace_otherwise otherwise r.counter (ground (arith, h)),
        )
    counter-replace (WorkflowNode.while_node cond body max_iter) pos h =
        omega (arith, counter-replace body (suc pos) h)
    counter-replace (WorkflowNode.retry body times backoff_ms) pos h =
        omega (arith, counter-replace body (suc pos) h)
    counter-replace (WorkflowNode.timeout body millis) pos h =
        omega (arith, counter-replace body (suc pos) h)
    counter-replace (WorkflowNode.for_each items var body) pos h = cc

    counter-replace_children :
        (nodes : Nodes) (pos : ℕ)
        → no_for_each_in nodes ≡ true
        → (replace_children target new_cfg nodes pos).counter ≡ pos + nodes_size nodes
    counter-replace_children Nodes.nil pos h = omega arith
    counter-replace_children (Nodes.cons n nodes) pos h =
        let r = replace_action_rec target new_cfg n pos in
        omega (
          arith,
          counter-replace n pos (ground (arith, h)),
          counter-replace_children nodes r.counter (ground (arith, h)),
        )

    counter-replace_otherwise :
        (o : Otherwise) (pos : ℕ)
        → no_for_each_else o ≡ true
        → (replace_otherwise target new_cfg o pos).counter ≡ pos + otherwise_size o
    counter-replace_otherwise Otherwise.absent pos h = omega arith
    counter-replace_otherwise (Otherwise.present n) pos h =
        omega (arith, counter-replace n (suc pos) h)

  patch-node_rows :
      (n : WorkflowNode) (pos depth : ℕ) (rows : List WorkflowTreeRow)
      → no_for_each n ≡ true
      → patch pos (node_rows to_json n depth ++ rows)
        ≡ patch pos (node_rows to_json n depth)
          ++ patch (replace_action_rec target new_cfg n pos).counter rows
  patch-node_rows n pos depth rows h =
      patch-append pos (node_rows to_json n depth) rows
      ∙ ap (λ (k : ℕ). patch pos (node_rows to_json n depth) ++ patch k rows)
          (ap (λ (k : ℕ). pos + k) (length-node_rows to_json n depth)
            ∙ sym (counter-replace n pos h))

  mutual
    unfolding replace_action_rec node_rows patch no_for_each

    rows-replace :
        (n : WorkflowNode) (pos depth : ℕ)
        → no_for_each n ≡ true
        → node_rows to_json (replace_action_rec target new_cfg n pos).result depth
          ≡ patch pos (node_rows to_json n depth)
    rows-replace (WorkflowNode.action cfg) pos depth h = ground arith
    rows-replace (WorkflowNode.wait (WaitCondition.duration millis)) pos depth h = ground arith
    rows-replace (WorkflowNode.seq nodes) pos depth h = ground (
      arith,
      rows-replace_children nodes (suc pos) (suc depth) h,
      count_nodes-replace nodes (suc pos),
    )
    rows-replace (WorkflowNode.parallel nodes) pos depth h = ground (
      arith,
      rows-replace_children nodes (suc pos) (suc depth) h,
      count_nodes-replace nodes (suc pos),
    )
    rows-replace (WorkflowNode.if_node cond then_ otherwise) pos depth h =
        let first : no_for_each then_ ≡ true = ground (arith, h) in
        let r = replace_action_rec target new_cfg then_ (suc (suc pos)) in
        ground (
          arith,
          rows-replace then_ (suc (suc pos)) (suc (suc depth)) first,
          rows-replace_otherwise otherwise r.counter depth (ground (arith, h)),
          patch-node_rows then_ (suc (suc pos)) (suc (suc depth))
              (otherwise_rows to_json otherwise depth) first,
        )
    rows-replace (WorkflowNode.while_node cond body max_iter) pos depth h =
        ground (arith, rows-replace body (suc pos) (suc depth) h)
    rows-replace (WorkflowNode.retry body times backoff_ms) pos depth h =
        ground (arith, rows-replace body (suc pos) (suc depth) h)
    rows-replace (WorkflowNode.timeout body millis) pos depth h =
        ground (arith, rows-replace body (suc pos) (suc depth) h)
    rows-replace (WorkflowNode.for_each items var body) pos depth h = cc

    rows-replace_children :
        (nodes : Nodes) (pos depth : ℕ)
        → no_for_each_in nodes ≡ true
        → nodes_rows to_json (replace_children target new_cfg nodes pos).result depth
          ≡ patch pos (nodes_rows to_json nodes depth)
    rows-replace_children Nodes.nil pos depth h = refl
    rows-replace_children (Nodes.cons n nodes) pos depth h =
        let first : no_for_each n ≡ true = ground (arith, h) in
        let r = replace_action_rec target new_cfg n pos in
        rw
          (
            rows-replace n pos depth first,
            rows-replace_children nodes r.counter depth (ground (arith, h)),
          )
          (sym (patch-node_rows n pos depth (nodes_rows to_json nodes depth) first))

    rows-replace_otherwise :
        (o : Otherwise) (pos depth : ℕ)
        → no_for_each_else o ≡ true
        → otherwise_rows to_json (replace_otherwise target new_cfg o pos).result depth
          ≡ patch pos (otherwise_rows to_json o depth)
    rows-replace_otherwise Otherwise.absent pos depth h = refl
    rows-replace_otherwise (Otherwise.present n) pos depth h =
        ground (arith, rows-replace n (suc pos) (suc (suc depth)) h)

-- What the rows of the tree become, where the text is a configuration and where it is not.
abbrev pub patched :
    (ActionConfig → String) → Option ActionConfig → ℕ → List WorkflowTreeRow → List WorkflowTreeRow
patched to_json none target rows = rows
patched to_json (some new_cfg) target rows = patch to_json target new_cfg 0 rows

-- In a workflow without `ForEach`, updating an action changes exactly the row that it is called with:
-- that row shows the new configuration if it is the row of an action, and every other row stays.
pub flatten-update_workflow_action :
    (to_json : ActionConfig → String) (from_json : String → Option ActionConfig)
    (root : WorkflowNode) (pos : ℕ) (new_json : String)
    → no_for_each root ≡ true
    → flatten_workflow to_json (update_workflow_action from_json root pos new_json)
      ≡ patched to_json (from_json new_json) pos (flatten_workflow to_json root)
unfolding update_workflow_action
flatten-update_workflow_action to_json from_json root pos new_json h =
    elim (Option-cases (from_json new_json)) [
      | inl e ↦ rw (e, update_workflow_action) refl
      | inr (new_cfg, e) ↦
          rw (e, update_workflow_action)
            (flatten_workflow-rows to_json (replace_action_rec pos new_cfg root 0).result
              ∙ rows-replace to_json pos new_cfg root 0 0 h
              ∙ ap (patch to_json pos new_cfg 0) (sym (flatten_workflow-rows to_json root)))
    ]
