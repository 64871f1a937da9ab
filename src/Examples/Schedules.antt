-- ===== src/Examples/Schedules.antt =====
-- The theorems on the scheduler and the clock at concrete runs.
use ko_rkuma.Prelude.{
  ℕ, ◌+◌, ◌-◌, ◌%◌, ◌≤◌, true, nat_eq, ◌≡◌, ◌↔◌, refl, List, [], ◌∷◌, ◌++◌, length, arith, All,
  contains,
}
use ko_rkuma.Scheduler.Restart.{IsGone, run-restart}
use ko_rkuma.Domain.{ConcurrencyPolicy}
use ko_rkuma.Scheduler.{PendingWork, Input, init, run, may_fire, Token}
use ko_rkuma.Scheduler.Running.{run-running}
use ko_rkuma.Scheduler.Queue.{Sublist, arrivals, run-queue}
use ko_rkuma.Scheduler.Debounce.{brings, burst, run-debounce}
use ko_rkuma.Scheduler.Debounce.Fires.{run-debounce_fires}
use ko_rkuma.Scheduler.Throttle.{run-throttle}
use ko_rkuma.Builtins.{event_utc_minutes, in_range}
use ko_rkuma.Builtins.TimeRange.{in_range_iff}
use ko_rkuma.Examples.{context, tree, noon}

abbrev work : Token → PendingWork
work token = record { ctx = context; cancel = token; workflow = tree }

abbrev queued : Token → Input
queued token = Input.trigger (ConcurrencyPolicy.queue 1) (work token) 0 0

-- Three triggers, of which the last finds the queue full, and two ends.
abbrev queue_run : List Input
queue_run = queued 1 ∷ queued 2 ∷ queued 3 ∷ Input.complete 0 ∷ Input.complete 0 ∷ []

run-running_example :
    (run queue_run init).state.running
    ≡ length (run queue_run init).executing + length (run queue_run init).cancelling
run-running_example = run-running queue_run

run-queue_example :
    (length (run queue_run init).executing ≤ 1)
    × (length (run queue_run init).state.queue ≤ 1)
    × (length (run queue_run init).executing ≡ 0 → (run queue_run init).state.queue ≡ [])
    × Sublist
        ((run queue_run init).started ++ (run queue_run init).state.queue)
        (arrivals queue_run)
run-queue_example = run-queue 1 queue_run (refl, (refl, (refl, (tt, (tt, tt)))))

abbrev throttled : ℕ → Input
throttled now = Input.trigger (ConcurrencyPolicy.throttle 10) (work 1) now 0

-- The first trigger fires, and the two behind it come within its window.
run-throttle_example :
    (run (throttled 100 ∷ throttled 105 ∷ Input.complete 0 ∷ throttled 109 ∷ []) init).started
    ≡ work 1 ∷ []
unfolding may_fire
run-throttle_example =
    run-throttle 10 100 (work 1) 0 (throttled 105 ∷ Input.complete 0 ∷ throttled 109 ∷ []) init
      (record { no_queue = refl; no_cancelling = refl; no_sleeping = refl; no_woken = refl }) refl
      ((refl, omega arith), (tt, ((refl, omega arith), tt)))

-- Two triggers that the third supersedes.
abbrev two_early : List (PendingWork × ℕ × Token)
two_early = (work 3, 0, 1) ∷ (work 4, 20, 2) ∷ []

run-debounce_example :
    All
      (λ w. w ≡ work 5)
      (run
        (burst 50 two_early
          ++ (Input.trigger (ConcurrencyPolicy.debounce 50) (work 5) 40 3
              ∷ Input.wake 0
              ∷ Input.wake 0
              ∷ Input.wake 0
              ∷ Input.enter 0
              ∷ []))
        init).started
run-debounce_example =
    run-debounce 50 two_early (work 5) 40 3
      (Input.wake 0 ∷ Input.wake 0 ∷ Input.wake 0 ∷ Input.enter 0 ∷ [])
      (refl, (refl, (refl, (refl, tt))))

run-debounce_fires_example :
    (run
      (burst 50 two_early
        ++ (Input.trigger (ConcurrencyPolicy.debounce 50) (work 5) 40 3
            ∷ Input.wake 2
            ∷ Input.enter 0
            ∷ []))
      init).started
    ≡ work 5 ∷ []
unfolding brings
run-debounce_fires_example = run-debounce_fires 50 two_early (work 5) 40 3 refl

-- The second trigger comes after the first has tested its token and before it has taken the lock:
-- both execute at once.
overtaken_test :
    (run
      (Input.trigger (ConcurrencyPolicy.debounce 50) (work 3) 0 1
        ∷ Input.wake 0
        ∷ Input.trigger (ConcurrencyPolicy.debounce 50) (work 4) 50 2
        ∷ Input.enter 0
        ∷ Input.wake 0
        ∷ Input.enter 0
        ∷ [])
      init).executing
    ≡ work 3 ∷ work 4 ∷ []
unfolding run contains
overtaken_test = refl

-- From 23:00 to 01:00, at noon.
in_range_iff_example :
    (in_range 1380 60 (event_utc_minutes noon) ≡ true)
    ↔ ((event_utc_minutes noon + 1440 - 1380) % 1440 ≤ (60 + 1440 - 1380) % 1440)
in_range_iff_example = in_range_iff 1380 60 noon (omega arith) (omega arith)

abbrev restarted : Token → Input
restarted token = Input.trigger ConcurrencyPolicy.restart_if_running (work token) 0 0

-- Three triggers, where the second restart has not yet cancelled the first run when the third comes,
-- and the end of the first run.
abbrev restart_run : List Input
restart_run =
    restarted 1
    ∷ Input.cancel 0
    ∷ restarted 2
    ∷ restarted 3
    ∷ Input.cancel 0
    ∷ Input.complete 0
    ∷ []

run-restart_example :
    (t : Token) × All (IsGone (run restart_run init) t) (run restart_run init).executing
    × All (λ task. IsGone (run restart_run init) t task.1) (run restart_run init).cancelling
run-restart_example = run-restart restart_run (refl, (tt, (refl, (refl, (tt, (tt, tt))))))
