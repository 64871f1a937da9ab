-- ===== src/Scheduler/Throttle.antt =====
-- The window of a throttled macro.
use ko_rkuma.Prelude.{
  ℕ, ◌-◌, ◌<◌, Option, true, false, ◌≡◌, refl, ◌∙◌, List, [], ◌∷◌, ◌++◌, some, none, All, arith,
  Option-cases, inl, inr,
}
use ko_rkuma.Domain.{ConcurrencyPolicy}
use ko_rkuma.Scheduler.{
  Input, PendingWork, System, run, step, take_at, apply_policy, cancel_at, start, launch, Token,
  wake_at, enter_at, complete_at, pop_queue, may_fire,
}

-- A throttled trigger before the end of the window, or a step of a task.
abbrev pub IsWithin : ℕ → ℕ → Input → Type 0
IsWithin ms t (Input.trigger policy w now fresh) =
    (policy ≡ ConcurrencyPolicy.throttle ms) × (now - t < ms)
IsWithin ms t _ = Unit

-- No work is queued, debounced or about to restart.
pub record IsQuiet (sys : System) : Type 0 where
  pub no_queue : sys.state.queue ≡ []
  pub no_cancelling : sys.cancelling ≡ []
  pub no_sleeping : sys.sleeping ≡ []
  pub no_woken : sys.woken ≡ []

-- The macro last fired at `t`, and nothing is pending.
record HasFired (t : ℕ) (sys : System) : Type 0 where
  pub last : sys.state.last_fire ≡ some t
  pub quiet : IsQuiet sys

pub take_at-none : {A : Type 0} (place : ℕ) (xs : List A) → xs ≡ [] → take_at place xs ≡ none
unfolding take_at
take_at-none place [] e = refl
take_at-none place (x ∷ xs) e = cc

pub pop_queue-none :
    (queue : List PendingWork) (sys : System) → queue ≡ [] → pop_queue queue sys ≡ sys
unfolding pop_queue
pop_queue-none [] sys e = refl
pop_queue-none (w ∷ rest) sys e = cc

may_fire-false :
    (ms now t : ℕ) (last : Option ℕ) → last ≡ some t → now - t < ms → may_fire ms now last ≡ false
unfolding may_fire
may_fire-false ms now t none e early = cc
may_fire-false ms now t (some t') e early = ground (arith, e, early)

module _ (ms t : ℕ) (sys : System) (h : HasFired t sys) where
  trigger_within :
      (w : PendingWork) (now fresh : ℕ)
      → now - t < ms
      → apply_policy (ConcurrencyPolicy.throttle ms) w now fresh sys ≡ sys
  unfolding apply_policy
  trigger_within w now fresh early =
      rw (may_fire-false ms now t sys.state.last_fire h.last early, apply_policy)

  cancel_within : (place : ℕ) → cancel_at place sys ≡ sys
  unfolding cancel_at
  cancel_within place = rw (take_at-none place sys.cancelling h.quiet.no_cancelling, cancel_at)

  wake_within : (place : ℕ) → wake_at place sys ≡ sys
  unfolding wake_at
  wake_within place = rw (take_at-none place sys.sleeping h.quiet.no_sleeping, wake_at)

  enter_within : (place : ℕ) → enter_at place sys ≡ sys
  unfolding enter_at
  enter_within place = rw (take_at-none place sys.woken h.quiet.no_woken, enter_at)

  complete_within :
      (place : ℕ)
      → HasFired t (complete_at place sys) × ((complete_at place sys).started ≡ sys.started)
  unfolding complete_at
  complete_within place = elim (Option-cases (take_at place sys.executing)) [
    | inl e ↦ rw (e, complete_at) (h, refl)
    | inr ((w, rest), e) ↦
        rw (e, complete_at)
          (rw (pop_queue-none sys.state.queue _ h.quiet.no_queue) (
            record {
              last = h.last;
              quiet = record {
                no_queue = h.quiet.no_queue;
                no_cancelling = h.quiet.no_cancelling;
                no_sleeping = h.quiet.no_sleeping;
                no_woken = h.quiet.no_woken;
              };
            },
            refl,
          ))
  ]

  step_within :
      (i : Input) → IsWithin ms t i → HasFired t (step i sys) × ((step i sys).started ≡ sys.started)
  unfolding step
  step_within (Input.trigger policy w now fresh) (e, early) =
      rw (e, trigger_within w now fresh early) (h, refl)
  step_within (Input.cancel place) _ = rw (cancel_within place) (h, refl)
  step_within (Input.wake place) _ = rw (wake_within place) (h, refl)
  step_within (Input.enter place) _ = rw (enter_within place) (h, refl)
  step_within (Input.complete place) _ = complete_within place

run_within :
    (ms t : ℕ) (inputs : List Input) (sys : System)
    → HasFired t sys
    → All (IsWithin ms t) inputs
    → (run inputs sys).started ≡ sys.started
unfolding run
run_within ms t [] sys h within = refl
run_within ms t (i ∷ inputs) sys h within =
    let (h', same) = step_within ms t sys h i within.0 in
    run_within ms t inputs (step i sys) h' within.1 ∙ same

-- Where no work is queued, debounced or about to restart, a throttled trigger at `t` that the window
-- of `ms` behind the last firing lets through starts its work, and in the window behind `t` nothing
-- else starts, whatever throttled triggers and ends of tasks come in whatever order.
pub run-throttle :
    (ms t : ℕ) (w : PendingWork) (fresh : Token) (inputs : List Input) (sys : System)
    → IsQuiet sys
    → may_fire ms t sys.state.last_fire ≡ true
    → All (IsWithin ms t) inputs
    → (run (Input.trigger (ConcurrencyPolicy.throttle ms) w t fresh ∷ inputs) sys).started
      ≡ sys.started ++ (w ∷ [])
unfolding run step apply_policy start launch
run-throttle ms t w fresh inputs sys quiet free within =
    rw (free, run, step, apply_policy)
      (run_within ms t inputs _
        (record {
          last = refl;
          quiet = record {
            no_queue = quiet.no_queue;
            no_cancelling = quiet.no_cancelling;
            no_sleeping = quiet.no_sleeping;
            no_woken = quiet.no_woken;
          };
        })
        within)
