-- ===== src/Workflow/Steps.antt =====
-- crates/core/src/workflow.rs: the parts of `run_node` that do not recur on the tree. A step takes
-- the two halves of a context and returns them beside its flow and its events, so that
-- `let (flow, evs) = run_node(…).await; events.extend(evs); …` is a way to join two steps.
use ko_rkuma.Prelude.{
  ℕ, zero, suc, Bool, true, false, ◌&&◌, List, [], ◌∷◌, ◌++◌, Option, none, some, String, Result,
  ok, err, if◌then◌else◌, ltb, insert, string_eq,
}
use ko_rkuma.Domain.{
  Permission, ActionConfig, ConstraintExpr, ConstraintError, EngineEvent, Message, LogLevel, Value,
  Values, WaitCondition, build_failed, denied, action_failed, if_failed, while_failed, timed_out,
}
use ko_rkuma.Permission.{allows}
use ko_rkuma.Context.{ExecContext, Shared, LocalVars, Executed, Action, Outcome, cancel}
use ko_rkuma.Registry.{Registry, build_action}
use ko_rkuma.Registry.Evaluate.{evaluate}

pub data Flow : Type 0 where
  continue stop failed : Flow

pub record Ran : Type 0 where
  pub flow : Flow
  pub events : List EngineEvent
  pub ctx : ExecContext
  pub shared : Shared

abbrev pub Step : Type 0
Step = ExecContext → Shared → Ran

-- What the program does not decide: what other tasks do to the shared half at each moment at which
-- they may run, and whether tokio's timer cuts off a body. `elapsed millis started run` is given
-- where the body starts and the run that it would have; `some` is the state in which it is dropped.
pub record Runtime : Type 0 where
  pub others : ℕ → Shared → Shared
  pub elapsed : ℕ → Shared → Ran → Option (LocalVars × Shared)

unfoldable pub interfere : Runtime → Shared → Shared
interfere rt sh = record (rt.others sh.moment sh) { moment = suc sh.moment }

abbrev pub done : Flow → List EngineEvent → Step
done flow events ctx sh = record { flow = flow; events = events; ctx = ctx; shared = sh }

abbrev pub error_event : Message → Step
error_event m ctx sh = done Flow.failed (EngineEvent.error (some ctx.macro_id) m ∷ []) ctx sh

-- `events.extend(evs)` of an earlier step.
abbrev pub after : List EngineEvent → Ran → Ran
after events r = record r { events = events ++ r.events }

-- Go on where the step says `Continue`, and return what it says where it does not.
unfoldable pub and_then : Step → Step → Step
and_then s t ctx sh =
    let r = s ctx sh in elim r.flow [ Flow.continue ↦ after r.events (t r.ctx r.shared) | _ ↦ r ]

-- `find(|p| !ctx.permissions.allows(p))`
unfoldable pub find_missing : ExecContext → List Permission → Option Permission
find_missing ctx [] = none
find_missing ctx (p ∷ required) =
    let rest = find_missing ctx required in if allows ctx.permissions p then rest else some p

unfoldable pub finish : Executed → Ran
finish e = elim e.outcome [
  | ok Outcome.continue ↦ done Flow.continue [] e.ctx e.shared
  | ok Outcome.stop ↦ done Flow.stop [] e.ctx e.shared
  | err x ↦ error_event (action_failed x) e.ctx e.shared
]

unfoldable pub log_dry_run : ActionConfig → Action → Step
log_dry_run cfg a ctx sh =
    done Flow.continue (EngineEvent.action_log ctx.macro_id a.id LogLevel.info cfg ∷ []) ctx sh

module _ (reg : Registry) where
  unfoldable pub eval_condition :
      ConstraintExpr → ExecContext → Shared → Result ConstraintError Bool
  unfolding evaluate
  eval_condition expr ctx sh =
      evaluate (record { event = ctx.event; macro_id = ctx.macro_id; store = sh.store }) reg expr

  unfoldable pub if_step : ConstraintExpr → Step → Step → Step
  unfolding eval_condition
  if_step cond then_ otherwise ctx sh = elim (eval_condition cond ctx sh) [
    | ok true ↦ then_ ctx sh
    | ok false ↦ otherwise ctx sh
    | err e ↦ error_event (if_failed e) ctx sh
  ]

  -- One round of a `While`: `rest` is the body with the rounds behind it.
  unfoldable pub while_round : ConstraintExpr → Step → Step
  unfolding eval_condition
  while_round cond rest ctx sh = elim (eval_condition cond ctx sh) [
    | ok true ↦ rest ctx sh
    | ok false ↦ done Flow.continue [] ctx sh
    | err e ↦ error_event (while_failed e) ctx sh
  ]

module _ (rt : Runtime) where
  -- A test of the cancellation flag: what a cancelled node or loop returns, and how it goes on.
  unfoldable pub if_cancelled : Flow → Step → Step
  unfolding interfere
  if_cancelled flow s ctx sh =
      let sh' = interfere rt sh in if sh'.is_cancelled then done flow [] ctx sh' else s ctx sh'

  -- The permission gate; then the wait for the resource locks, a moment at which others run.
  unfoldable pub perform : Action → Step
  unfolding interfere find_missing finish
  perform a ctx sh = elim (find_missing ctx a.required_permissions.permissions) [
    | some p ↦ error_event (denied p) ctx sh
    | none ↦ finish (a.execute ctx (interfere rt sh))
  ]

  unfoldable pub bind_item : String → Value → Step → Step
  bind_item var item rest ctx sh = rest (record ctx { locals = insert var item ctx.locals }) sh

  unfoldable pub for_each_loop : Values → String → Step → Step
  unfolding and_then if_cancelled bind_item
  for_each_loop Values.nil var body = done Flow.continue []
  for_each_loop (Values.cons item items) var body =
      if_cancelled Flow.continue (bind_item var item (and_then body (for_each_loop items var body)))

  unfoldable pub for_each_step : Value → String → Step → Step
  unfolding for_each_loop
  for_each_step (Value.list items) var body = for_each_loop items var body
  for_each_step _ var body = done Flow.continue []

  -- `tokio::time::sleep` between two attempts, where there is another one and a backoff.
  unfoldable pub backoff : ℕ → ℕ → Shared → Shared
  unfolding interfere
  backoff left backoff_ms sh = if ltb 0 left && ltb 0 backoff_ms then interfere rt sh else sh

  -- One attempt of a `Retry`: `rest` is what the attempts left do after a failure.
  unfoldable pub attempt : ℕ → ℕ → Step → Step → Step
  unfolding backoff
  attempt left backoff_ms body rest ctx sh =
      let r = body ctx sh in
      elim r.flow [
        | Flow.failed ↦ after r.events (rest r.ctx (backoff left backoff_ms r.shared))
        | _ ↦ r
      ]

  -- The first argument is the number of attempts left.
  unfoldable pub retry_loop : ℕ → ℕ → Step → Step
  unfolding attempt if_cancelled
  retry_loop zero backoff_ms body = done Flow.failed []
  retry_loop (suc left) backoff_ms body =
      if_cancelled Flow.stop (attempt left backoff_ms body (retry_loop left backoff_ms body))

  -- `tokio::time::timeout`: a body that is cut off loses its events, and the token is cancelled.
  unfoldable pub timeout_step : ℕ → Step → Step
  unfolding cancel
  timeout_step millis body ctx sh =
      let r = body ctx sh in
      elim (rt.elapsed millis sh r) [
        | none ↦ r
        | some (locals, sh') ↦
            error_event (timed_out millis) (record ctx { locals = locals }) (cancel sh')
      ]

  unfoldable pub wait_step : WaitCondition → Step
  unfolding interfere
  wait_step (WaitCondition.duration millis) ctx sh = done Flow.continue [] ctx (interfere rt sh)

module _ (rt : Runtime) (reg : Registry) where
  unfoldable pub run_action : ActionConfig → Step
  unfolding perform log_dry_run build_action
  run_action cfg ctx sh = elim (build_action reg cfg) [
    | err e ↦ error_event (build_failed e) ctx sh
    | ok a ↦ if ctx.dry_run then log_dry_run cfg a ctx sh else perform rt a ctx sh
  ]

  -- `while iter < max_iter`: the first argument is `max_iter - iter`.
  unfoldable pub while_loop : ℕ → ConstraintExpr → Step → Step
  unfolding while_round and_then if_cancelled
  while_loop zero cond body = done Flow.continue []
  while_loop (suc left) cond body =
      if_cancelled rt Flow.continue
        (while_round reg cond (and_then body (while_loop left cond body)))

-- The branches work on forks, so the parent's own half is what it was.
unfoldable pub isolated : Step → Step
isolated s ctx sh = record (s ctx sh) { ctx = ctx }

-- The fold over the results of the branches: a failure wins over a stop.
unfoldable pub join_flow : Flow → Flow → Flow
join_flow Flow.failed outcome = Flow.failed
join_flow Flow.stop Flow.failed = Flow.failed
join_flow Flow.stop outcome = Flow.stop
join_flow Flow.continue outcome = outcome
