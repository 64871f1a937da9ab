-- ===== src/Workflow/Same.antt =====
-- Rules for two steps that do the same, one for each way to build a step.
use ko_rkuma.Prelude.{
  ℕ, zero, suc, ◌≡◌, refl, [], String, insert, string_eq, Option-cases, inl, inr, arith,
}
use ko_rkuma.Domain.{Value, Values, WaitCondition}
use ko_rkuma.Context.{ExecContext, LocalVars, Shared}
use ko_rkuma.Workflow.{
  Flow, Step, Runtime, done, and_then, if_cancelled, interfere, bind_item, for_each_loop,
  for_each_step, backoff, attempt, retry_loop, timeout_step, wait_step, isolated,
}

-- Two steps that do the same from every context which meets an invariant that the steps keep.
pub record Same (I : ExecContext → Type 0) (s t : Step) : Type 0 where
  pub at : (ctx : ExecContext) (sh : Shared) → I ctx → (s ctx sh ≡ t ctx sh) × I (s ctx sh).ctx

module _ {I : ExecContext → Type 0} where
  pub Same-refl_done : (flow : Flow) → Same I (done flow []) (done flow [])
  Same-refl_done flow = record { at = λ ctx sh i. (refl, i) }

  pub Same-and_then :
      {s s' t t' : Step} → Same I s s' → Same I t t' → Same I (and_then s t) (and_then s' t')
  unfolding and_then
  Same-and_then {s} {s'} {t} {t'} es et = record {
    at = λ ctx sh i.
        let r = s ctx sh in
        let (e, kept) = es.at ctx sh i in
        let (e', kept') = et.at r.ctx r.shared kept in
        rw (← e, and_then) (ground (arith, e', kept, kept'));
  }

  pub Same-if_cancelled :
      (rt : Runtime) (flow : Flow) {s s' : Step}
      → Same I s s'
      → Same I (if_cancelled rt flow s) (if_cancelled rt flow s')
  unfolding if_cancelled
  Same-if_cancelled rt flow es = record {
    at = λ ctx sh i. ground (arith, es.at ctx (interfere rt sh) i);
  }

  pub Same-attempt :
      (rt : Runtime) (left backoff_ms : ℕ) {s s' t t' : Step}
      → Same I s s'
      → Same I t t'
      → Same I (attempt rt left backoff_ms s t) (attempt rt left backoff_ms s' t')
  unfolding attempt
  Same-attempt rt left backoff_ms {s} {s'} {t} {t'} es et = record {
    at = λ ctx sh i.
        let r = s ctx sh in
        let (e, kept) = es.at ctx sh i in
        let (e', kept') = et.at r.ctx (backoff rt left backoff_ms r.shared) kept in
        rw (← e, attempt) (ground (arith, e', kept, kept'));
  }

  pub Same-retry_loop :
      (rt : Runtime) (left backoff_ms : ℕ) {s s' : Step}
      → Same I s s'
      → Same I (retry_loop rt left backoff_ms s) (retry_loop rt left backoff_ms s')
  unfolding retry_loop
  Same-retry_loop rt zero backoff_ms es = Same-refl_done Flow.failed
  Same-retry_loop rt (suc left) backoff_ms es =
      Same-if_cancelled rt Flow.stop
        (Same-attempt rt left backoff_ms es (Same-retry_loop rt left backoff_ms es))

  pub Same-isolated : {s s' : Step} → Same I s s' → Same I (isolated s) (isolated s')
  unfolding isolated
  Same-isolated es = record { at = λ ctx sh i. (rw (es.at ctx sh i).0, i) }

  pub Same-wait_step :
      (rt : Runtime) (until : WaitCondition) → Same I (wait_step rt until) (wait_step rt until)
  unfolding wait_step
  Same-wait_step rt (WaitCondition.duration millis) = record { at = λ ctx sh i. (refl, i) }

-- Locals are no part of the invariant.
abbrev pub IgnoresLocals : (ExecContext → Type 0) → Type 0
IgnoresLocals I =
    (ctx : ExecContext) (locals : LocalVars) → I ctx → I (record ctx { locals = locals })

module _ {I : ExecContext → Type 0} (rebind : IgnoresLocals I) where
  pub Same-bind_item :
      (rt : Runtime) (var : String) (item : Value) {s s' : Step}
      → Same I s s'
      → Same I (bind_item rt var item s) (bind_item rt var item s')
  unfolding bind_item
  Same-bind_item rt var item es = record {
    at = λ ctx sh i. es.at _ sh (rebind ctx (insert var item ctx.locals) i);
  }

  pub Same-for_each_loop :
      (rt : Runtime) (items : Values) (var : String) {s s' : Step}
      → Same I s s'
      → Same I (for_each_loop rt items var s) (for_each_loop rt items var s')
  unfolding for_each_loop
  Same-for_each_loop rt Values.nil var es = Same-refl_done Flow.continue
  Same-for_each_loop rt (Values.cons item items) var es =
      Same-if_cancelled rt Flow.continue
        (Same-bind_item rt var item (Same-and_then es (Same-for_each_loop rt items var es)))

  pub Same-for_each_step :
      (rt : Runtime) (items : Value) (var : String) {s s' : Step}
      → Same I s s'
      → Same I (for_each_step rt items var s) (for_each_step rt items var s')
  unfolding for_each_step
  Same-for_each_step rt (Value.list items) var es = Same-for_each_loop rt items var es
  Same-for_each_step rt _ var es = Same-refl_done Flow.continue

  pub Same-timeout_step :
      (rt : Runtime) (millis : ℕ) {s s' : Step}
      → Same I s s'
      → Same I (timeout_step rt millis s) (timeout_step rt millis s')
  unfolding timeout_step
  Same-timeout_step rt millis {s} es = record {
    at = λ ctx sh i.
        let (e, kept) = es.at ctx sh i in
        rw (← e, timeout_step)
          (elim (Option-cases (rt.elapsed millis sh (s ctx sh))) [
            | inl x ↦ rw (x, timeout_step) (e, kept)
            | inr ((locals, sh'), x) ↦ rw (x, timeout_step) (refl, rebind ctx locals i)
          ]);
  }
