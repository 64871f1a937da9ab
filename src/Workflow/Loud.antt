-- ===== src/Workflow/Loud.antt =====
-- Rules for steps that fail only with an error event, one for each way to build a step.
use ko_rkuma.Prelude.{
  ℕ, zero, suc, max, ◌-◌, true, false, ◌≡◌, refl, ◌⊎◌, inl, inr, [], String, Some, here,
  Some-append_left, Some-append_right, arith, Result-cases, Bool-cases, Option-cases, insert,
  string_eq, ◌≢◌,
}
use ko_rkuma.Domain.{ActionConfig, ConstraintExpr, EngineEvent, Value, Values, WaitCondition}
use ko_rkuma.Context.{Action, ExecContext, Shared, Executed, Outcome}
use ko_rkuma.Registry.{Registry, build_action}
use ko_rkuma.Workflow.{
  Flow, Step, Runtime, done, and_then, if_cancelled, interfere, eval_condition, run_action, if_step,
  while_round, while_loop, bind_item, for_each_loop, for_each_step, attempt, retry_loop, finish,
  timeout_step, wait_step, perform, find_missing,
}

abbrev pub IsError : EngineEvent → Type 0
IsError (EngineEvent.error id message) = Unit
IsError _ = ⊥

-- A failure comes with an error event.
pub record Loud (s : Step) : Type 0 where
  pub at :
      (ctx : ExecContext) (sh : Shared)
      → (s ctx sh).flow ≡ Flow.failed
      → Some IsError (s ctx sh).events

pub Loud-done : (flow : Flow) → flow ≢ Flow.failed → Loud (done flow [])
Loud-done flow other = record { at = λ ctx sh f. absurd (other f) }

pub Flow-cases : (f : Flow) → (f ≡ Flow.continue) ⊎ (f ≡ Flow.stop) ⊎ (f ≡ Flow.failed)
Flow-cases Flow.continue = inl refl
Flow-cases Flow.stop = inr (inl refl)
Flow-cases Flow.failed = inr (inr refl)

pub Loud-and_then : {s t : Step} → Loud s → Loud t → Loud (and_then s t)
unfolding and_then
Loud-and_then {s} {t} ls lt = record {
  at = λ ctx sh f.
      let r = s ctx sh in
      elim (Flow-cases r.flow) [
        | inl e ↦
            rw (e, and_then)
              (Some-append_right IsError r.events (t r.ctx r.shared).events
                (lt.at r.ctx r.shared (rw (e, and_then) at f)))
        | inr (inl e) ↦ let f' = rw (e, and_then) at f in absurd (ground (arith, f', e))
        | inr (inr e) ↦ rw (e, and_then) (ls.at ctx sh e)
      ];
}

pub Loud-if_cancelled :
    (rt : Runtime) (flow : Flow) {s : Step}
    → flow ≢ Flow.failed
    → Loud s
    → Loud (if_cancelled rt flow s)
unfolding if_cancelled
Loud-if_cancelled rt flow {s} other ls = record {
  at = λ ctx sh f. elim (Bool-cases (interfere rt sh).is_cancelled) [
    | inl e ↦ absurd (other (ground (arith, e, f)))
    | inr e ↦ ground (arith, e, ls.at ctx (interfere rt sh) (ground (arith, e, f)))
  ];
}

Loud-attempt :
    (rt : Runtime) (left backoff_ms : ℕ) {s : Step} (t : Step)
    → Loud s
    → Loud (attempt rt left backoff_ms s t)
unfolding attempt
Loud-attempt rt left backoff_ms {s} t ls = record {
  at = λ ctx sh f.
      let r = s ctx sh in
      elim (Flow-cases r.flow) [
        | inl e ↦ let f' = rw (e, attempt) at f in absurd (ground (arith, f', e))
        | inr (inl e) ↦ let f' = rw (e, attempt) at f in absurd (ground (arith, f', e))
        | inr (inr e) ↦ rw (e, attempt) (Some-append_left IsError r.events _ (ls.at ctx sh e))
      ];
}

Loud-retry_loop :
    (rt : Runtime) (left backoff_ms : ℕ) {s : Step}
    → Loud s
    → Loud (retry_loop rt (suc left) backoff_ms s)
unfolding retry_loop
Loud-retry_loop rt left backoff_ms {s} ls =
    Loud-if_cancelled rt Flow.stop (λ e. cc)
      (Loud-attempt rt left backoff_ms (retry_loop rt left backoff_ms s) ls)

pub Loud-if_step :
    (reg : Registry) (cond : ConstraintExpr) {s t : Step}
    → Loud s
    → Loud t
    → Loud (if_step reg cond s t)
unfolding if_step
Loud-if_step reg cond ls lt = record {
  at = λ ctx sh f. elim (Result-cases (eval_condition reg cond ctx sh)) [
    | inl (true, e) ↦ rw (e, if_step) (ls.at ctx sh (rw (e, if_step) at f))
    | inl (false, e) ↦ rw (e, if_step) (lt.at ctx sh (rw (e, if_step) at f))
    | inr (x, e) ↦ rw (e, if_step) (here tt)
  ];
}

Loud-while_round :
    (reg : Registry) (cond : ConstraintExpr) {s : Step} → Loud s → Loud (while_round reg cond s)
unfolding while_round
Loud-while_round reg cond ls = record {
  at = λ ctx sh f. elim (Result-cases (eval_condition reg cond ctx sh)) [
    | inl (true, e) ↦ rw (e, while_round) (ls.at ctx sh (rw (e, while_round) at f))
    | inl (false, e) ↦ let f' = rw (e, while_round) at f in cc
    | inr (x, e) ↦ rw (e, while_round) (here tt)
  ];
}

pub Loud-while_loop :
    (rt : Runtime) (reg : Registry) (left : ℕ) (cond : ConstraintExpr) {s : Step}
    → Loud s
    → Loud (while_loop rt reg left cond s)
unfolding while_loop
Loud-while_loop rt reg zero cond ls = Loud-done Flow.continue (λ e. cc)
Loud-while_loop rt reg (suc left) cond ls =
    Loud-if_cancelled rt Flow.continue (λ e. cc)
      (Loud-while_round reg cond (Loud-and_then ls (Loud-while_loop rt reg left cond ls)))

Loud-bind_item :
    (rt : Runtime) (var : String) (item : Value) {s : Step}
    → Loud s
    → Loud (bind_item rt var item s)
unfolding bind_item
Loud-bind_item rt var item ls = record {
  at = λ ctx sh f. ls.at (record ctx { locals = insert var item ctx.locals }) sh f;
}

Loud-for_each_loop :
    (rt : Runtime) (items : Values) (var : String) {s : Step}
    → Loud s
    → Loud (for_each_loop rt items var s)
unfolding for_each_loop
Loud-for_each_loop rt Values.nil var ls = Loud-done Flow.continue (λ e. cc)
Loud-for_each_loop rt (Values.cons item items) var ls =
    Loud-if_cancelled rt Flow.continue (λ e. cc)
      (Loud-bind_item rt var item (Loud-and_then ls (Loud-for_each_loop rt items var ls)))

pub Loud-for_each_step :
    (rt : Runtime) (items : Value) (var : String) {s : Step}
    → Loud s
    → Loud (for_each_step rt items var s)
unfolding for_each_step
Loud-for_each_step rt (Value.list items) var ls = Loud-for_each_loop rt items var ls
Loud-for_each_step rt _ var ls = Loud-done Flow.continue (λ e. cc)

pub Loud-timeout_step :
    (rt : Runtime) (millis : ℕ) {s : Step} → Loud s → Loud (timeout_step rt millis s)
unfolding timeout_step
Loud-timeout_step rt millis {s} ls = record {
  at = λ ctx sh f. elim (Option-cases (rt.elapsed millis sh (s ctx sh))) [
    | inl e ↦ rw (e, timeout_step) (ls.at ctx sh (rw (e, timeout_step) at f))
    | inr (x, e) ↦ rw (e, timeout_step) (here tt)
  ];
}

pub Loud-wait_step : (rt : Runtime) (until : WaitCondition) → Loud (wait_step rt until)
unfolding wait_step
Loud-wait_step rt (WaitCondition.duration millis) = record { at = λ ctx sh f. cc }

Loud-perform : (rt : Runtime) (a : Action) → Loud (perform rt a)
unfolding perform
Loud-perform rt a = record {
  at = λ ctx sh f. elim (Option-cases (find_missing ctx a.required_permissions.permissions)) [
    | inl e ↦ rw (e, perform) (finished _ (rw (e, perform) at f))
    | inr (p, e) ↦ rw (e, perform) (here tt)
  ];
}
  where
    finished : (x : Executed) → (finish x).flow ≡ Flow.failed → Some IsError (finish x).events
    finished x f = elim (Result-cases x.outcome) [
      | inl (Outcome.continue, e) ↦ let f' = rw (e, finish) at f in cc
      | inl (Outcome.stop, e) ↦ let f' = rw (e, finish) at f in cc
      | inr (y, e) ↦ rw (e, finish) (here tt)
    ]

pub Loud-run_action :
    (rt : Runtime) (reg : Registry) (cfg : ActionConfig) → Loud (run_action rt reg cfg)
unfolding run_action
Loud-run_action rt reg cfg = record {
  at = λ ctx sh f. elim (Result-cases (build_action reg cfg)) [
    | inl (a, e) ↦ elim (Bool-cases ctx.dry_run) [
      | inl dry ↦ let f' = rw (e, run_action) at f in absurd (ground (arith, dry, f'))
      | inr wet ↦
          let f' : (perform rt a ctx sh).flow ≡ Flow.failed = ground (arith, f, e, wet) in
          rw (e, run_action) (ground (arith, wet, (Loud-perform rt a).at ctx sh f'))
    ]
    | inr (x, e) ↦ rw (e, run_action) (here tt)
  ];
}

max-one : (n : ℕ) → max n 1 ≡ suc (max n 1 - 1)
max-one n = omega arith

-- `times.max(1)` attempts are at least one.
pub Loud-attempts :
    (rt : Runtime) (times backoff_ms : ℕ) {s : Step}
    → Loud s
    → Loud (retry_loop rt (max times 1) backoff_ms s)
Loud-attempts rt times backoff_ms ls =
    rw (max-one times) (Loud-retry_loop rt (max times 1 - 1) backoff_ms ls)
