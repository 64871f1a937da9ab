-- ===== src/Domain/Tree.antt =====
-- crates/core/src/domain.rs: the two recursive trees of a macro. A `Vec` of trees, or an
-- `Option` of one, inside the tree is a type of the block.
use ko_rkuma.Prelude.{ℕ, String, List, [], ◌∷◌}
use ko_rkuma.Domain.Data.{Value}
use ko_rkuma.Domain.Config.{ActionConfig, ConstraintConfig, WaitCondition}

mutual
  pub data ConstraintExpr : Type 0 where
    always : ConstraintExpr
    leaf : ConstraintConfig → ConstraintExpr
    not_ : ConstraintExpr → ConstraintExpr
    all : Exprs → ConstraintExpr
    any : Exprs → ConstraintExpr

  pub data Exprs : Type 0 where
    nil : Exprs
    cons : ConstraintExpr → Exprs → Exprs

mutual
  pub data WorkflowNode : Type 0 where
    action : ActionConfig → WorkflowNode
    seq : Nodes → WorkflowNode
    parallel : Nodes → WorkflowNode
    if_node : ConstraintExpr → WorkflowNode → Otherwise → WorkflowNode
    while_node : ConstraintExpr → WorkflowNode → (max_iter : ℕ) → WorkflowNode
    for_each : Value → (var : String) → WorkflowNode → WorkflowNode
    retry : WorkflowNode → (times backoff_ms : ℕ) → WorkflowNode
    timeout : WorkflowNode → (millis : ℕ) → WorkflowNode
    wait : WaitCondition → WorkflowNode

  pub data Nodes : Type 0 where
    nil : Nodes
    cons : WorkflowNode → Nodes → Nodes

  -- `Option<Box<WorkflowNode>>`
  pub data Otherwise : Type 0 where
    absent : Otherwise
    present : WorkflowNode → Otherwise

-- `collect` into a `Vec<WorkflowNode>`
unfoldable pub from_actions : List ActionConfig → Nodes
from_actions [] = nil
from_actions (a ∷ actions) = cons (WorkflowNode.action a) (from_actions actions)
