-- ===== src/Workflow/AtMost.antt =====
-- Rules for the number of events of a step, one for each way to build a step.
use ko_rkuma.Prelude.{
  ℕ, zero, suc, max, ◌+◌, ◌*◌, ◌≤◌, true, false, inl, inr, [], String, length, length-append, arith,
  Result-cases, Option-cases, insert, string_eq,
}
use ko_rkuma.Domain.{ActionConfig, ConstraintExpr, Value, Values, WaitCondition}
use ko_rkuma.Context.{ExecContext, Shared}
use ko_rkuma.Registry.{Registry}
use ko_rkuma.Workflow.{
  Flow, Step, Runtime, done, and_then, if_cancelled, interfere, eval_condition, run_action, if_step,
  while_round, while_loop, bind_item, for_each_loop, for_each_step, backoff, attempt, retry_loop,
  timeout_step, wait_step,
}

unfoldable pub count_items : Values → ℕ
count_items Values.nil = 0
count_items (Values.cons item items) = suc (count_items items)

unfoldable pub items_in : Value → ℕ
unfolding count_items
items_in (Value.list items) = count_items items
items_in _ = 0

-- A step sends at most `k` events, from every context.
pub record AtMost (k : ℕ) (s : Step) : Type 0 where
  pub at : (ctx : ExecContext) (sh : Shared) → length (s ctx sh).events ≤ k

pub AtMost-done : (k : ℕ) (flow : Flow) → AtMost k (done flow [])
AtMost-done k flow = record { at = λ ctx sh. omega arith }

pub AtMost-and_then :
    {j k : ℕ} {s t : Step} → AtMost j s → AtMost k t → AtMost (j + k) (and_then s t)
unfolding and_then
AtMost-and_then {s} {t} bs bt = record {
  at = λ ctx sh.
      let r = s ctx sh in
      ground (
        arith,
        bs.at ctx sh,
        bt.at r.ctx r.shared,
        length-append r.events (t r.ctx r.shared).events,
      );
}

pub AtMost-if_cancelled :
    (rt : Runtime) (flow : Flow) {k : ℕ} {s : Step} → AtMost k s → AtMost k (if_cancelled rt flow s)
unfolding if_cancelled
AtMost-if_cancelled rt flow bs = record {
  at = λ ctx sh. ground (arith, bs.at ctx (interfere rt sh));
}

AtMost-attempt :
    (rt : Runtime) (left backoff_ms : ℕ) {j k : ℕ} {s t : Step}
    → AtMost j s
    → AtMost k t
    → AtMost (j + k) (attempt rt left backoff_ms s t)
unfolding attempt
AtMost-attempt rt left backoff_ms {s} {t} bs bt = record {
  at = λ ctx sh.
      let r = s ctx sh in
      let sh' = backoff rt left backoff_ms r.shared in
      ground (arith, bs.at ctx sh, bt.at r.ctx sh', length-append r.events (t r.ctx sh').events);
}

AtMost-le : {j k : ℕ} {s : Step} → AtMost j s → j ≤ k → AtMost k s
AtMost-le bs h = record { at = λ ctx sh. omega (arith, bs.at ctx sh) }

pub AtMost-retry_loop :
    (rt : Runtime) (left backoff_ms : ℕ) {k : ℕ} {s : Step}
    → AtMost k s
    → AtMost (left * k) (retry_loop rt left backoff_ms s)
unfolding retry_loop
AtMost-retry_loop rt zero backoff_ms bs = AtMost-done _ Flow.failed
AtMost-retry_loop rt (suc left) backoff_ms {k} bs =
    AtMost-le
      (AtMost-if_cancelled rt Flow.stop
        (AtMost-attempt rt left backoff_ms bs (AtMost-retry_loop rt left backoff_ms bs)))
      (omega arith)

pub AtMost-if_step :
    (reg : Registry) (cond : ConstraintExpr) {j k : ℕ} {s t : Step}
    → AtMost j s
    → AtMost k t
    → AtMost (max 1 (max j k)) (if_step reg cond s t)
unfolding if_step
AtMost-if_step reg cond bs bt = record {
  at = λ ctx sh. elim (Result-cases (eval_condition reg cond ctx sh)) [
    | inl (true, e) ↦ rw (e, if_step) (omega (arith, bs.at ctx sh))
    | inl (false, e) ↦ rw (e, if_step) (omega (arith, bt.at ctx sh))
    | inr (x, e) ↦ rw (e, if_step) (omega arith)
  ];
}

AtMost-while_round :
    (reg : Registry) (cond : ConstraintExpr) {k : ℕ} {s : Step}
    → 1 ≤ k
    → AtMost k s
    → AtMost k (while_round reg cond s)
unfolding while_round
AtMost-while_round reg cond h bs = record {
  at = λ ctx sh. elim (Result-cases (eval_condition reg cond ctx sh)) [
    | inl (true, e) ↦ rw (e, while_round) (bs.at ctx sh)
    | inl (false, e) ↦ rw (e, while_round) (omega arith)
    | inr (x, e) ↦ rw (e, while_round) (omega arith)
  ];
}

pub AtMost-while_loop :
    (rt : Runtime) (reg : Registry) (left : ℕ) (cond : ConstraintExpr) {k : ℕ} {s : Step}
    → AtMost k s
    → AtMost (left * k + 1) (while_loop rt reg left cond s)
unfolding while_loop
AtMost-while_loop rt reg zero cond bs = AtMost-done _ Flow.continue
AtMost-while_loop rt reg (suc left) cond {k} bs = AtMost-if_cancelled rt Flow.continue (
    AtMost-while_round reg cond (omega arith)
      (AtMost-le (AtMost-and_then bs (AtMost-while_loop rt reg left cond bs)) (omega arith)))

AtMost-bind_item :
    (rt : Runtime) (var : String) (item : Value) {k : ℕ} {s : Step}
    → AtMost k s
    → AtMost k (bind_item rt var item s)
unfolding bind_item
AtMost-bind_item rt var item bs = record {
  at = λ ctx sh. bs.at (record ctx { locals = insert var item ctx.locals }) sh;
}

AtMost-for_each_loop :
    (rt : Runtime) (items : Values) (var : String) {k : ℕ} {s : Step}
    → AtMost k s
    → AtMost (count_items items * k) (for_each_loop rt items var s)
unfolding for_each_loop count_items
AtMost-for_each_loop rt Values.nil var bs = AtMost-done _ Flow.continue
AtMost-for_each_loop rt (Values.cons item items) var bs = AtMost-if_cancelled rt Flow.continue (
    AtMost-bind_item rt var item
      (AtMost-le (AtMost-and_then bs (AtMost-for_each_loop rt items var bs)) (omega arith)))

pub AtMost-for_each_step :
    (rt : Runtime) (items : Value) (var : String) {k : ℕ} {s : Step}
    → AtMost k s
    → AtMost (items_in items * k) (for_each_step rt items var s)
unfolding for_each_step items_in
AtMost-for_each_step rt (Value.list items) var bs = AtMost-for_each_loop rt items var bs
AtMost-for_each_step rt _ var bs = AtMost-done _ Flow.continue

pub AtMost-timeout_step :
    (rt : Runtime) (millis : ℕ) {k : ℕ} {s : Step}
    → AtMost k s
    → AtMost (max 1 k) (timeout_step rt millis s)
unfolding timeout_step
AtMost-timeout_step rt millis {s} bs = record {
  at = λ ctx sh. elim (Option-cases (rt.elapsed millis sh (s ctx sh))) [
    | inl e ↦ rw (e, timeout_step) (omega (arith, bs.at ctx sh))
    | inr (x, e) ↦ rw (e, timeout_step) (omega arith)
  ];
}

pub AtMost-wait_step : (rt : Runtime) (until : WaitCondition) → AtMost 0 (wait_step rt until)
unfolding wait_step
AtMost-wait_step rt (WaitCondition.duration millis) = record { at = λ ctx sh. omega arith }

pub AtMost-run_action :
    (rt : Runtime) (reg : Registry) (cfg : ActionConfig) → AtMost 1 (run_action rt reg cfg)
unfolding run_action
AtMost-run_action rt reg cfg = record { at = λ ctx sh. ground arith }
