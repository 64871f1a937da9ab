-- ===== src/Scheduler/Running.antt =====
-- The counter `running` counts what runs.
use ko_rkuma.Prelude.{
  ℕ, zero, suc, ◌+◌, ◌≡◌, refl, List, [], ◌∷◌, some, length, length-append, arith, Option-cases,
  inl, inr,
}
use ko_rkuma.Domain.{ConcurrencyPolicy}
use ko_rkuma.Scheduler.{
  Token, PendingWork, System, Input, init, start, enqueue, apply_policy, take_at, launch,
  cancel_next, cancel_at, wake_at, enter_at, complete_at, pop_queue, step, run,
}

pub length-take_at :
    {A : Type 0} (place : ℕ) (xs : List A) {x : A} {rest : List A}
    → take_at place xs ≡ some (x, rest)
    → length xs ≡ suc (length rest)
unfolding take_at
length-take_at place [] e = cc
length-take_at zero (x ∷ xs) e = ground (arith, e)
length-take_at (suc place) (x ∷ xs) e = elim (Option-cases (take_at place xs)) [
  | inl h ↦ let e' = rw (h, take_at) at e in cc
  | inr ((y, ys), h) ↦ ground (arith, e, h, length-take_at place xs h)
]

pub record IsCounted (sys : System) : Type 0 where
  pub exact : sys.state.running ≡ length sys.executing + length sys.cancelling

start-IsCounted : (w : PendingWork) (sys : System) → IsCounted sys → IsCounted (start w sys)
unfolding start launch
start-IsCounted w sys inv = record {
  exact = omega (arith, inv.exact, length-append sys.executing (w ∷ []));
}

apply_policy-IsCounted :
    (policy : ConcurrencyPolicy) (w : PendingWork) (now : ℕ) (fresh : Token) (sys : System)
    → IsCounted sys
    → IsCounted (apply_policy policy w now fresh sys)
unfolding apply_policy start launch enqueue
apply_policy-IsCounted policy w now fresh sys inv = record {
  exact = ground (
    arith,
    inv.exact,
    length-append sys.executing (w ∷ []),
    length-append sys.cancelling ((sys.state.active_cancels, w) ∷ []),
  );
}

cancel_next-IsCounted :
    (to_cancel : List Token) (w : PendingWork) (sys : System)
    → sys.state.running ≡ length sys.executing + suc (length sys.cancelling)
    → IsCounted (cancel_next to_cancel w sys)
unfolding cancel_next launch
cancel_next-IsCounted [] w sys e = record {
  exact = omega (arith, e, length-append sys.executing (w ∷ []));
}
cancel_next-IsCounted (t ∷ to_cancel) w sys e = record {
  exact = omega (arith, e, length-append sys.cancelling ((to_cancel, w) ∷ []));
}

cancel_at-IsCounted : (place : ℕ) (sys : System) → IsCounted sys → IsCounted (cancel_at place sys)
unfolding cancel_at
cancel_at-IsCounted place sys inv = elim (Option-cases (take_at place sys.cancelling)) [
  | inl e ↦ rw (e, cancel_at) inv
  | inr ((task, rest), e) ↦
      rw (e, cancel_at)
        (cancel_next-IsCounted task.0 task.1 _
          (omega (arith, inv.exact, length-take_at place sys.cancelling e)))
]

wake_at-IsCounted : (place : ℕ) (sys : System) → IsCounted sys → IsCounted (wake_at place sys)
unfolding wake_at
wake_at-IsCounted place sys inv = record { exact = ground (arith, inv.exact) }

enter_at-IsCounted : (place : ℕ) (sys : System) → IsCounted sys → IsCounted (enter_at place sys)
unfolding enter_at
enter_at-IsCounted place sys inv = elim (Option-cases (take_at place sys.woken)) [
  | inl e ↦ rw (e, enter_at) inv
  | inr ((task, rest), e) ↦
      rw (e, enter_at) (start-IsCounted task.1 _ (record { exact = inv.exact }))
]

pop_queue-IsCounted :
    (queue : List PendingWork) (sys : System) → IsCounted sys → IsCounted (pop_queue queue sys)
unfolding pop_queue
pop_queue-IsCounted [] sys inv = inv
pop_queue-IsCounted (w ∷ rest) sys inv = start-IsCounted w _ (record { exact = inv.exact })

complete_at-IsCounted :
    (place : ℕ) (sys : System) → IsCounted sys → IsCounted (complete_at place sys)
unfolding complete_at
complete_at-IsCounted place sys inv = elim (Option-cases (take_at place sys.executing)) [
  | inl e ↦ rw (e, complete_at) inv
  | inr ((w, rest), e) ↦
      rw (e, complete_at)
        (pop_queue-IsCounted sys.state.queue _
          (record { exact = omega (arith, inv.exact, length-take_at place sys.executing e) }))
]

step-IsCounted : (i : Input) (sys : System) → IsCounted sys → IsCounted (step i sys)
unfolding step
step-IsCounted (Input.trigger policy w now fresh) sys inv =
    apply_policy-IsCounted policy w now fresh sys inv
step-IsCounted (Input.cancel place) sys inv = cancel_at-IsCounted place sys inv
step-IsCounted (Input.wake place) sys inv = wake_at-IsCounted place sys inv
step-IsCounted (Input.enter place) sys inv = enter_at-IsCounted place sys inv
step-IsCounted (Input.complete place) sys inv = complete_at-IsCounted place sys inv

pub run-IsCounted :
    (inputs : List Input) (sys : System) → IsCounted sys → IsCounted (run inputs sys)
unfolding run
run-IsCounted [] sys inv = inv
run-IsCounted (i ∷ inputs) sys inv = run-IsCounted inputs (step i sys) (step-IsCounted i sys inv)

-- From the idle state, under every mixture of policies and every order in which the tasks take the
-- lock, `running` is the number of the instances that execute and of the restarts that are about to:
-- no decrement is lost or saturates.
pub run-running :
    (inputs : List Input)
    → let sys = run inputs init in sys.state.running ≡ length sys.executing + length sys.cancelling
run-running inputs = (run-IsCounted inputs init (record { exact = refl })).exact
