-- ===== src/Scheduler.antt =====
-- crates/core/src/scheduler.rs: the concurrency policies. The state of one macro, the critical
-- sections of `apply_policy` and `execute` (each holds the lock of `states`, so they run one after
-- the other), what a task does between them, and the system that these steps drive, as a function of a sequence of inputs. The sections
-- of different macros touch different entries of the map, so one macro is modelled.
pub mod Running
pub mod Queue
pub mod Tracking
pub mod Restart
pub mod Throttle
pub mod Debounce
use ko_rkuma.Prelude.{
  ℕ, zero, suc, ◌+◌, ◌-◌, Bool, true, false, List, [], ◌∷◌, ◌++◌, Option, none, some, length,
  contains, leb, ltb, ◌==◌, nat_eq, if◌then◌else◌,
}
use ko_rkuma.Domain.{ConcurrencyPolicy, WorkflowNode}
use ko_rkuma.Context.{ExecContext}

-- The identity of a `CancellationToken`; its flag stands in the system.
abbrev pub Token : Type 0
Token = ℕ

-- `cancel` is the token of `ctx`. The registry is the same for all work.
pub record PendingWork : Type 0 where
  pub ctx : ExecContext
  pub cancel : Token
  pub workflow : WorkflowNode

-- `last_fire` is in milliseconds. `running` counts live tasks, which stay far below 2^32.
pub record MacroState : Type 0 where
  pub running : ℕ
  pub queue : List PendingWork
  pub active_cancels : List Token
  pub last_fire : Option ℕ
  pub debounce_cancel : Option Token

abbrev pub idle : MacroState
idle = record {
  running = 0;
  queue = [];
  active_cancels = [];
  last_fire = none;
  debounce_cancel = none;
}

-- `cancelling` are the restarts behind their section, each with the tokens that it drained and has
-- not cancelled yet, since it cancels them without the lock. `sleeping` and `woken` are the debounced triggers before and behind the test of their token;
-- `executing` are the instances inside `execute`, and `started` all that ever ran, in order.
pub record System : Type 0 where
  pub state : MacroState
  pub cancelled : List Token
  pub cancelling : List (List Token × PendingWork)
  pub sleeping : List (Token × PendingWork)
  pub woken : List (Token × PendingWork)
  pub executing : List PendingWork
  pub started : List PendingWork

abbrev pub init : System
init = record {
  state = idle;
  cancelled = [];
  cancelling = [];
  sleeping = [];
  woken = [];
  executing = [];
  started = [];
}

-- Which task takes the lock next. A trigger brings the time of the section, and the token that a
-- debounce creates; the others name a task by its place in its list.
pub data Input : Type 0 where
  trigger : ConcurrencyPolicy → PendingWork → (now : ℕ) (fresh : Token) → Input
  cancel wake enter complete : (place : ℕ) → Input

-- The call of `execute`.
unfoldable pub launch : PendingWork → System → System
launch w sys = record sys {
  executing = sys.executing ++ (w ∷ []);
  started = sys.started ++ (w ∷ []);
}

-- `running += 1`, and on into `execute`.
unfoldable pub start : PendingWork → System → System
unfolding launch
start w sys = launch w (record sys { state = record sys.state { running = sys.state.running + 1 } })

unfoldable pub enqueue : ℕ → PendingWork → System → System
enqueue max w sys =
    if ltb (length sys.state.queue) max
    then record sys { state = record sys.state { queue = sys.state.queue ++ (w ∷ []) } }
    else sys

-- `last_fire.map(|t| now.duration_since(t) >= ms).unwrap_or(true)`
unfoldable pub may_fire : ℕ → ℕ → Option ℕ → Bool
may_fire ms now none = true
may_fire ms now (some t) = leb ms (now - t)

unfoldable pub with_option : Option Token → List Token → List Token
with_option none tokens = tokens
with_option (some t) tokens = t ∷ tokens

unfoldable pub apply_policy : ConcurrencyPolicy → PendingWork → ℕ → Token → System → System
unfolding start enqueue may_fire with_option
apply_policy ConcurrencyPolicy.parallel w now fresh sys = start w sys
apply_policy ConcurrencyPolicy.drop_if_running w now fresh sys =
    if ltb 0 sys.state.running then sys else start w sys
apply_policy (ConcurrencyPolicy.queue max) w now fresh sys =
    if sys.state.running == 0 then start w sys else enqueue max w sys
apply_policy ConcurrencyPolicy.restart_if_running w now fresh sys = record sys {
  state = record sys.state { running = sys.state.running + 1; active_cancels = w.cancel ∷ [] };
  cancelling = sys.cancelling ++ ((sys.state.active_cancels, w) ∷ []);
}
apply_policy (ConcurrencyPolicy.debounce ms) w now fresh sys = record sys {
  state = record sys.state { debounce_cancel = some fresh };
  cancelled = with_option sys.state.debounce_cancel sys.cancelled;
  sleeping = sys.sleeping ++ ((fresh, w) ∷ []);
}
apply_policy (ConcurrencyPolicy.throttle ms) w now fresh sys =
    if may_fire ms now sys.state.last_fire
    then start w (record sys { state = record sys.state { last_fire = some now } })
    else sys

-- A list without the element at a place, and that element.
unfoldable pub take_at : {A : Type 0} → ℕ → List A → Option (A × List A)
take_at place [] = none
take_at zero (x ∷ xs) = some (x, xs)
take_at (suc place) (x ∷ xs) = elim (take_at place xs) [
  | none ↦ none
  | some (y, ys) ↦ some (y, x ∷ ys)
]

-- One round of `for token in to_cancel`, and `execute` behind the last.
unfoldable pub cancel_next : List Token → PendingWork → System → System
unfolding launch
cancel_next [] w sys = launch w sys
cancel_next (t ∷ to_cancel) w sys = record sys {
  cancelled = t ∷ sys.cancelled;
  cancelling = sys.cancelling ++ ((to_cancel, w) ∷ []);
}

unfoldable pub cancel_at : ℕ → System → System
unfolding take_at cancel_next
cancel_at place sys = elim (take_at place sys.cancelling) [
  | none ↦ sys
  | some (task, rest) ↦ cancel_next task.0 task.1 (record sys { cancelling = rest })
]

-- The sleep is over: a cancelled debounce returns.
unfoldable pub wake_at : ℕ → System → System
unfolding take_at contains
wake_at place sys = elim (take_at place sys.sleeping) [
  | none ↦ sys
  | some (task, rest) ↦
      if contains sys.cancelled task.0
      then record sys { sleeping = rest }
      else record sys { sleeping = rest; woken = sys.woken ++ (task ∷ []) }
]

-- The second critical section of a debounce.
unfoldable pub enter_at : ℕ → System → System
unfolding take_at start
enter_at place sys = elim (take_at place sys.woken) [
  | none ↦ sys
  | some (task, rest) ↦
      start task.1
        (record sys { state = record sys.state { debounce_cancel = none }; woken = rest })
]

-- `active_cancels.retain(|t| !t.is_cancelled())`
unfoldable pub retain_live : List Token → List Token → List Token
unfolding contains
retain_live cancelled [] = []
retain_live cancelled (t ∷ tokens) =
    let rest = retain_live cancelled tokens in if contains cancelled t then rest else t ∷ rest

-- Behind `run_workflow` in the loop of `execute`: the loop goes on with the first of the queue.
unfoldable pub pop_queue : List PendingWork → System → System
unfolding start
pop_queue [] sys = sys
pop_queue (w ∷ rest) sys = start w (record sys { state = record sys.state { queue = rest } })

unfoldable pub complete_at : ℕ → System → System
unfolding take_at retain_live pop_queue
complete_at place sys = elim (take_at place sys.executing) [
  | none ↦ sys
  | some (w, rest) ↦ pop_queue sys.state.queue (record sys {
    state = record sys.state {
      running = sys.state.running - 1;
      active_cancels = retain_live sys.cancelled sys.state.active_cancels;
    };
    executing = rest;
  })
]

unfoldable pub step : Input → System → System
unfolding apply_policy cancel_at wake_at enter_at complete_at
step (Input.trigger policy w now fresh) sys = apply_policy policy w now fresh sys
step (Input.cancel place) sys = cancel_at place sys
step (Input.wake place) sys = wake_at place sys
step (Input.enter place) sys = enter_at place sys
step (Input.complete place) sys = complete_at place sys

unfoldable pub run : List Input → System → System
unfolding step
run [] sys = sys
run (i ∷ inputs) sys = run inputs (step i sys)
