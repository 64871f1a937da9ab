-- ===== src/Workflow/Sound.antt =====
-- A rule for `run_node`: an invariant of the context that every action keeps, and a predicate that
-- every event of an action meets, hold of the whole run.
use ko_rkuma.Prelude.{
  ℕ, zero, suc, [], some, String, All, All-append, arith, inl, inr, max, insert, string_eq,
  Result-cases, Option-cases,
}
use ko_rkuma.Domain.{
  ActionConfig, ConstraintExpr, ConstraintError, EngineEvent, Value, Values, WaitCondition,
  WorkflowNode, Nodes, Otherwise, if_failed, while_failed, timed_out,
}
use ko_rkuma.Context.{ExecContext, Shared, LocalVars, fork}
use ko_rkuma.Registry.{Registry}
use ko_rkuma.Workflow.Every.{EveryAction, EveryActions, EveryOtherwise}
use ko_rkuma.Workflow.{
  Flow, Step, Runtime, done, and_then, if_cancelled, interfere, eval_condition, run_action, if_step,
  while_round, while_loop, bind_item, for_each_loop, for_each_step, backoff, attempt, retry_loop,
  timeout_step, wait_step, isolated, join_flow, run_node, run_seq, run_otherwise, run_branches,
}

-- What a step does to an invariant of the context, and which events it sends.
pub record Good (I : ExecContext → Type 0) (Q : EngineEvent → Type 0) (s : Step) : Type 0 where
  pub at : (ctx : ExecContext) (sh : Shared) → I ctx → All Q (s ctx sh).events × I (s ctx sh).ctx

-- The invariant does not speak of the locals, and the events of the control flow are allowed.
pub record Frame (I : ExecContext → Type 0) (Q : EngineEvent → Type 0) : Type 0 where
  pub rebind : (ctx : ExecContext) (locals : LocalVars) → I ctx → I (record ctx { locals = locals })
  pub on_if :
      (ctx : ExecContext) (e : ConstraintError)
      → I ctx
      → Q (EngineEvent.error (some ctx.macro_id) (if_failed e))
  pub on_while :
      (ctx : ExecContext) (e : ConstraintError)
      → I ctx
      → Q (EngineEvent.error (some ctx.macro_id) (while_failed e))
  pub on_timeout :
      (ctx : ExecContext) (millis : ℕ)
      → I ctx
      → Q (EngineEvent.error (some ctx.macro_id) (timed_out millis))

module _ {I : ExecContext → Type 0} {Q : EngineEvent → Type 0} where
  pub Good-done : (flow : Flow) → Good I Q (done flow [])
  Good-done flow = record { at = λ ctx sh i. (tt, i) }

  pub Good-and_then : {s t : Step} → Good I Q s → Good I Q t → Good I Q (and_then s t)
  unfolding and_then
  Good-and_then {s} {t} gs gt = record {
    at = λ ctx sh i.
        let r = s ctx sh in
        let (here, kept) = gs.at ctx sh i in
        let (there, kept') = gt.at r.ctx r.shared kept in
        ground
          (arith, here, kept, kept', All-append Q r.events (t r.ctx r.shared).events here there);
  }

  pub Good-if_cancelled :
      (rt : Runtime) (flow : Flow) {s : Step} → Good I Q s → Good I Q (if_cancelled rt flow s)
  unfolding if_cancelled
  Good-if_cancelled rt flow gs = record {
    at = λ ctx sh i. ground (arith, gs.at ctx (interfere rt sh) i);
  }

  Good-attempt :
      (rt : Runtime) (left backoff_ms : ℕ) {body rest : Step}
      → Good I Q body
      → Good I Q rest
      → Good I Q (attempt rt left backoff_ms body rest)
  unfolding attempt
  Good-attempt rt left backoff_ms {body} {rest} gb gr = record {
    at = λ ctx sh i.
        let r = body ctx sh in
        let sh' = backoff rt left backoff_ms r.shared in
        let (here, kept) = gb.at ctx sh i in
        let (there, kept') = gr.at r.ctx sh' kept in
        ground (arith, here, kept, kept', All-append Q r.events (rest r.ctx sh').events here there);
  }

  pub Good-retry_loop :
      (rt : Runtime) (left backoff_ms : ℕ) {body : Step}
      → Good I Q body
      → Good I Q (retry_loop rt left backoff_ms body)
  unfolding retry_loop
  Good-retry_loop rt zero backoff_ms gb = Good-done Flow.failed
  Good-retry_loop rt (suc left) backoff_ms gb =
      Good-if_cancelled rt Flow.stop
        (Good-attempt rt left backoff_ms gb (Good-retry_loop rt left backoff_ms gb))

  pub Good-isolated : {s : Step} → Good I Q s → Good I Q (isolated s)
  unfolding isolated
  Good-isolated gs = record { at = λ ctx sh i. ((gs.at ctx sh i).0, i) }

  pub Good-wait_step : (rt : Runtime) (until : WaitCondition) → Good I Q (wait_step rt until)
  unfolding wait_step
  Good-wait_step rt (WaitCondition.duration millis) = record { at = λ ctx sh i. (tt, i) }

-- The rules that need to know what the control flow itself reports.
module _ {I : ExecContext → Type 0} {Q : EngineEvent → Type 0} (frame : Frame I Q) where
  pub Good-if_step :
      (reg : Registry) (cond : ConstraintExpr) {s t : Step}
      → Good I Q s
      → Good I Q t
      → Good I Q (if_step reg cond s t)
  unfolding if_step
  Good-if_step reg cond gs gt = record {
    at = λ ctx sh i. elim (Result-cases (eval_condition reg cond ctx sh)) [
      | inl (b, e) ↦ rw (e, if_step) (ground (arith, gs.at ctx sh i, gt.at ctx sh i))
      | inr (x, e) ↦ rw (e, if_step) ((frame.on_if ctx x i, tt), i)
    ];
  }

  Good-while_round :
      (reg : Registry) (cond : ConstraintExpr) {rest : Step}
      → Good I Q rest
      → Good I Q (while_round reg cond rest)
  unfolding while_round
  Good-while_round reg cond gr = record {
    at = λ ctx sh i. elim (Result-cases (eval_condition reg cond ctx sh)) [
      | inl (b, e) ↦ rw (e, while_round) (ground (arith, gr.at ctx sh i))
      | inr (x, e) ↦ rw (e, while_round) ((frame.on_while ctx x i, tt), i)
    ];
  }

  pub Good-while_loop :
      (rt : Runtime) (reg : Registry) (left : ℕ) (cond : ConstraintExpr) {body : Step}
      → Good I Q body
      → Good I Q (while_loop rt reg left cond body)
  unfolding while_loop
  Good-while_loop rt reg zero cond gb = Good-done Flow.continue
  Good-while_loop rt reg (suc left) cond gb =
      Good-if_cancelled rt Flow.continue
        (Good-while_round reg cond (Good-and_then gb (Good-while_loop rt reg left cond gb)))

  Good-bind_item :
      (rt : Runtime) (var : String) (item : Value) {rest : Step}
      → Good I Q rest
      → Good I Q (bind_item rt var item rest)
  unfolding bind_item
  Good-bind_item rt var item gr = record {
    at = λ ctx sh i. gr.at _ sh (frame.rebind ctx (insert var item ctx.locals) i);
  }

  Good-for_each_loop :
      (rt : Runtime) (items : Values) (var : String) {body : Step}
      → Good I Q body
      → Good I Q (for_each_loop rt items var body)
  unfolding for_each_loop
  Good-for_each_loop rt Values.nil var gb = Good-done Flow.continue
  Good-for_each_loop rt (Values.cons item items) var gb =
      Good-if_cancelled rt Flow.continue
        (Good-bind_item rt var item (Good-and_then gb (Good-for_each_loop rt items var gb)))

  pub Good-for_each_step :
      (rt : Runtime) (items : Value) (var : String) {body : Step}
      → Good I Q body
      → Good I Q (for_each_step rt items var body)
  unfolding for_each_step
  Good-for_each_step rt (Value.list items) var gb = Good-for_each_loop rt items var gb
  Good-for_each_step rt _ var gb = Good-done Flow.continue

  pub Good-timeout_step :
      (rt : Runtime) (millis : ℕ) {body : Step}
      → Good I Q body
      → Good I Q (timeout_step rt millis body)
  unfolding timeout_step
  Good-timeout_step rt millis {body} gb = record {
    at = λ ctx sh i. elim (Option-cases (rt.elapsed millis sh (body ctx sh))) [
      | inl e ↦ rw (e, timeout_step) (gb.at ctx sh i)
      | inr ((locals, sh'), e) ↦
          rw (e, timeout_step) ((frame.on_timeout ctx millis i, tt), frame.rebind ctx locals i)
    ];
  }

-- The whole tree, where every action of it is good.
module _ {I : ExecContext → Type 0} {Q : EngineEvent → Type 0} (frame : Frame I Q) (rt : Runtime)
    (reg : Registry) where
  abbrev GoodAction : ActionConfig → Type 0
  GoodAction cfg = Good I Q (run_action rt reg cfg)

  mutual
    unfolding run_node EveryAction fork

    node_Good : (n : WorkflowNode) → EveryAction GoodAction n → Good I Q (run_node rt reg n)
    node_Good (WorkflowNode.action cfg) h = Good-if_cancelled rt Flow.stop h
    node_Good (WorkflowNode.seq nodes) h = Good-if_cancelled rt Flow.stop (seq_Good nodes h)
    node_Good (WorkflowNode.parallel nodes) h =
        Good-if_cancelled rt Flow.stop (Good-isolated (branches_Good nodes Flow.continue h))
    node_Good (WorkflowNode.if_node cond then_ otherwise) h =
        Good-if_cancelled rt Flow.stop
          (Good-if_step frame reg cond (node_Good then_ h.0) (otherwise_Good otherwise h.1))
    node_Good (WorkflowNode.while_node cond body max_iter) h =
        Good-if_cancelled rt Flow.stop
          (Good-while_loop frame rt reg max_iter cond (node_Good body h))
    node_Good (WorkflowNode.for_each items var body) h =
        Good-if_cancelled rt Flow.stop (Good-for_each_step frame rt items var (node_Good body h))
    node_Good (WorkflowNode.retry body times backoff_ms) h =
        Good-if_cancelled rt Flow.stop
          (Good-retry_loop rt (max times 1) backoff_ms (node_Good body h))
    node_Good (WorkflowNode.timeout body millis) h =
        Good-if_cancelled rt Flow.stop (Good-timeout_step frame rt millis (node_Good body h))
    node_Good (WorkflowNode.wait until) h = Good-if_cancelled rt Flow.stop (Good-wait_step rt until)

    seq_Good : (nodes : Nodes) → EveryActions GoodAction nodes → Good I Q (run_seq rt reg nodes)
    seq_Good Nodes.nil h = Good-done Flow.continue
    seq_Good (Nodes.cons n nodes) h = Good-and_then (node_Good n h.0) (seq_Good nodes h.1)

    otherwise_Good :
        (o : Otherwise) → EveryOtherwise GoodAction o → Good I Q (run_otherwise rt reg o)
    otherwise_Good Otherwise.absent h = Good-done Flow.continue
    otherwise_Good (Otherwise.present n) h = node_Good n h

    branches_Good :
        (nodes : Nodes) (outcome : Flow)
        → EveryActions GoodAction nodes
        → Good I Q (run_branches rt reg nodes outcome)
    branches_Good Nodes.nil outcome h = Good-done outcome
    branches_Good (Nodes.cons n nodes) outcome h = record {
      at = λ ctx sh i.
          let r = run_node rt reg n (fork ctx) sh in
          let rest = (branches_Good nodes (join_flow r.flow outcome) h.1).at ctx r.shared i in
          (All-append Q r.events _ ((node_Good n h.0).at ctx sh i).0 rest.0, rest.1);
    }

  pub run_node-Good : (n : WorkflowNode) → EveryAction GoodAction n → Good I Q (run_node rt reg n)
  run_node-Good n h = node_Good n h
