-- ===== src/Workflow/Every.antt =====
-- Predicates on all the actions of a tree.
use ko_rkuma.Domain.{ActionConfig, WorkflowNode, Nodes, Otherwise}

-- Every action of a tree meets a predicate.
unfoldable mutual
  pub EveryAction : (ActionConfig → Type 0) → WorkflowNode → Type 0
  EveryAction R (WorkflowNode.action cfg) = R cfg
  EveryAction R (WorkflowNode.seq nodes) = EveryActions R nodes
  EveryAction R (WorkflowNode.parallel nodes) = EveryActions R nodes
  EveryAction R (WorkflowNode.if_node cond then_ otherwise) =
      EveryAction R then_ × EveryOtherwise R otherwise
  EveryAction R (WorkflowNode.while_node cond body max_iter) = EveryAction R body
  EveryAction R (WorkflowNode.for_each items var body) = EveryAction R body
  EveryAction R (WorkflowNode.retry body times backoff_ms) = EveryAction R body
  EveryAction R (WorkflowNode.timeout body millis) = EveryAction R body
  EveryAction R (WorkflowNode.wait until) = Unit

  pub EveryActions : (ActionConfig → Type 0) → Nodes → Type 0
  EveryActions R Nodes.nil = Unit
  EveryActions R (Nodes.cons n nodes) = EveryAction R n × EveryActions R nodes

  pub EveryOtherwise : (ActionConfig → Type 0) → Otherwise → Type 0
  EveryOtherwise R Otherwise.absent = Unit
  EveryOtherwise R (Otherwise.present n) = EveryAction R n

-- What holds of every action holds of every action of a tree.
mutual
  unfolding EveryAction

  pub EveryAction-all :
      {R : ActionConfig → Type 0} (n : WorkflowNode)
      → ((cfg : ActionConfig) → R cfg)
      → EveryAction R n
  EveryAction-all (WorkflowNode.action cfg) h = h cfg
  EveryAction-all (WorkflowNode.seq nodes) h = EveryActions-all nodes h
  EveryAction-all (WorkflowNode.parallel nodes) h = EveryActions-all nodes h
  EveryAction-all (WorkflowNode.if_node cond then_ otherwise) h =
      (EveryAction-all then_ h, EveryOtherwise-all otherwise h)
  EveryAction-all (WorkflowNode.while_node cond body max_iter) h = EveryAction-all body h
  EveryAction-all (WorkflowNode.for_each items var body) h = EveryAction-all body h
  EveryAction-all (WorkflowNode.retry body times backoff_ms) h = EveryAction-all body h
  EveryAction-all (WorkflowNode.timeout body millis) h = EveryAction-all body h
  EveryAction-all (WorkflowNode.wait until) h = tt

  EveryActions-all :
      {R : ActionConfig → Type 0} (nodes : Nodes)
      → ((cfg : ActionConfig) → R cfg)
      → EveryActions R nodes
  EveryActions-all Nodes.nil h = tt
  EveryActions-all (Nodes.cons n nodes) h = (EveryAction-all n h, EveryActions-all nodes h)

  EveryOtherwise-all :
      {R : ActionConfig → Type 0} (o : Otherwise)
      → ((cfg : ActionConfig) → R cfg)
      → EveryOtherwise R o
  EveryOtherwise-all Otherwise.absent h = tt
  EveryOtherwise-all (Otherwise.present n) h = EveryAction-all n h

mutual
  unfolding EveryAction

  pub EveryAction-map :
      {R S : ActionConfig → Type 0} (n : WorkflowNode)
      → ((cfg : ActionConfig) → R cfg → S cfg)
      → EveryAction R n
      → EveryAction S n
  EveryAction-map (WorkflowNode.action cfg) f h = f cfg h
  EveryAction-map (WorkflowNode.seq nodes) f h = EveryActions-map nodes f h
  EveryAction-map (WorkflowNode.parallel nodes) f h = EveryActions-map nodes f h
  EveryAction-map (WorkflowNode.if_node cond then_ otherwise) f h =
      (EveryAction-map then_ f h.0, EveryOtherwise-map otherwise f h.1)
  EveryAction-map (WorkflowNode.while_node cond body max_iter) f h = EveryAction-map body f h
  EveryAction-map (WorkflowNode.for_each items var body) f h = EveryAction-map body f h
  EveryAction-map (WorkflowNode.retry body times backoff_ms) f h = EveryAction-map body f h
  EveryAction-map (WorkflowNode.timeout body millis) f h = EveryAction-map body f h
  EveryAction-map (WorkflowNode.wait until) f h = tt

  EveryActions-map :
      {R S : ActionConfig → Type 0} (nodes : Nodes)
      → ((cfg : ActionConfig) → R cfg → S cfg)
      → EveryActions R nodes
      → EveryActions S nodes
  EveryActions-map Nodes.nil f h = tt
  EveryActions-map (Nodes.cons n nodes) f h =
      (EveryAction-map n f h.0, EveryActions-map nodes f h.1)

  EveryOtherwise-map :
      {R S : ActionConfig → Type 0} (o : Otherwise)
      → ((cfg : ActionConfig) → R cfg → S cfg)
      → EveryOtherwise R o
      → EveryOtherwise S o
  EveryOtherwise-map Otherwise.absent f h = tt
  EveryOtherwise-map (Otherwise.present n) f h = EveryAction-map n f h
