-- ===== src/Scheduler/Queue.antt =====
-- A macro whose triggers are all queued.
use mathlib.Core.List.Sublist
pub use mathlib.Core.List.{Sublist}
use mathlib.Core.List.{append-nil, append_assoc, sublist-append_left}
use ko_rkuma.Prelude.{
  ℕ, ◌≤◌, ◌≡◌, refl, sym, ap, ◌∙◌, List, [], ◌∷◌, ◌++◌, All, length, length-append, arith,
  Option-cases, Bool-cases, inl, inr, ◌==◌, nat_eq, ltb,
}
use mathlib.Core.Path.{subst}
use ko_rkuma.Domain.{ConcurrencyPolicy}
use ko_rkuma.Scheduler.{
  Input, PendingWork, System, init, run, step, start, enqueue, take_at, apply_policy, launch,
  cancel_at, wake_at, enter_at, complete_at, pop_queue,
}
use ko_rkuma.Scheduler.Running.{length-take_at}
use ko_rkuma.Scheduler.Throttle.{take_at-none}

-- A trigger under `Queue { max }`, or a step of a task.
abbrev pub IsQueued : ℕ → Input → Type 0
IsQueued max (Input.trigger policy w now fresh) = policy ≡ ConcurrencyPolicy.queue max
IsQueued max _ = Unit

-- The work that the triggers bring, in their order.
unfoldable pub arrivals : List Input → List PendingWork
arrivals [] = []
arrivals (Input.trigger policy w now fresh ∷ inputs) = w ∷ arrivals inputs
arrivals (i ∷ inputs) = arrivals inputs

-- `past` is the work that has arrived so far.
pub record IsSerial (max : ℕ) (past : List PendingWork) (sys : System) : Type 0 where
  pub counted : sys.state.running ≡ length sys.executing
  pub single : sys.state.running ≤ 1
  pub busy : sys.state.running ≡ 0 → sys.state.queue ≡ []
  pub bounded : length sys.state.queue ≤ max
  pub no_cancelling : sys.cancelling ≡ []
  pub no_sleeping : sys.sleeping ≡ []
  pub no_woken : sys.woken ≡ []
  pub served : Sublist (sys.started ++ sys.state.queue) past

snoc_empty :
    {A : Type 0} (xs : List A) (w : A) (queue : List A)
    → queue ≡ []
    → (xs ++ queue) ++ (w ∷ []) ≡ (xs ++ (w ∷ [])) ++ queue
snoc_empty xs w [] e = rw (append-nil xs) (sym (append-nil (xs ++ (w ∷ []))))
snoc_empty xs w (x ∷ queue) e = cc

served_snoc :
    {xs past : List PendingWork} (w : PendingWork)
    → Sublist xs past
    → Sublist (xs ++ (w ∷ [])) (past ++ (w ∷ []))
served_snoc w h = Sublist.append h (Sublist.refl (w ∷ []))

start-IsSerial :
    (max : ℕ) (past : List PendingWork) (w : PendingWork) (sys : System)
    → sys.state.running ≡ 0
    → IsSerial max past sys
    → IsSerial max (past ++ (w ∷ [])) (start w sys)
unfolding start launch
start-IsSerial max past w sys free inv = record {
  counted = omega (arith, inv.counted, length-append sys.executing (w ∷ []));
  single = omega (arith, free);
  busy = λ e. absurd (omega arith);
  bounded = inv.bounded;
  no_cancelling = inv.no_cancelling;
  no_sleeping = inv.no_sleeping;
  no_woken = inv.no_woken;
  served =
      subst (λ xs. Sublist xs (past ++ (w ∷ [])))
        (snoc_empty sys.started w sys.state.queue (inv.busy free)) (served_snoc w inv.served);
}

trigger-IsSerial :
    (max : ℕ) (past : List PendingWork) (w : PendingWork) (now fresh : ℕ) (sys : System)
    → IsSerial max past sys
    → IsSerial max (past ++ (w ∷ [])) (apply_policy (ConcurrencyPolicy.queue max) w now fresh sys)
unfolding apply_policy enqueue
trigger-IsSerial max past w now fresh sys inv = elim (Bool-cases (sys.state.running == 0)) [
  | inl e ↦ rw (e, apply_policy) (start-IsSerial max past w sys ((nat_eq.beq_iff _ _).0 e) inv)
  | inr e ↦ elim (Bool-cases (ltb (length sys.state.queue) max)) [
    | inl room ↦
        rw (e, room, apply_policy)
          (record {
            counted = inv.counted;
            single = inv.single;
            busy = λ free. absurd (ground (arith, e, free));
            bounded = ground (arith, room, length-append sys.state.queue (w ∷ []));
            no_cancelling = inv.no_cancelling;
            no_sleeping = inv.no_sleeping;
            no_woken = inv.no_woken;
            served =
                subst (λ xs. Sublist xs (past ++ (w ∷ [])))
                  (append_assoc sys.started sys.state.queue (w ∷ [])) (served_snoc w inv.served);
          })
    | inr full ↦
        rw (e, full, apply_policy)
          (record {
            counted = inv.counted;
            single = inv.single;
            busy = inv.busy;
            bounded = inv.bounded;
            no_cancelling = inv.no_cancelling;
            no_sleeping = inv.no_sleeping;
            no_woken = inv.no_woken;
            served = Sublist.trans inv.served (sublist-append_left past (w ∷ []));
          })
  ]
]

pop-IsSerial :
    (max : ℕ) (past queue : List PendingWork) (sys : System)
    → sys.state.queue ≡ queue
    → sys.state.running ≡ 0
    → length sys.executing ≡ 0
    → length queue ≤ max
    → sys.cancelling ≡ []
    → sys.sleeping ≡ []
    → sys.woken ≡ []
    → Sublist (sys.started ++ queue) past
    → IsSerial max past (pop_queue queue sys)
unfolding pop_queue start launch
pop-IsSerial max past [] sys q free none_left bounded no_cancelling no_sleeping no_woken served =
    record {
      counted = free ∙ sym none_left;
      single = omega (arith, free);
      busy = λ _. q;
      bounded = omega (arith, ap (length {A = PendingWork}) q);
      no_cancelling = no_cancelling;
      no_sleeping = no_sleeping;
      no_woken = no_woken;
      served = subst (λ xs. Sublist (sys.started ++ xs) past) (sym q) served;
    }
pop-IsSerial max past (w ∷ rest) sys q free none_left bounded no_cancelling no_sleeping no_woken
      served =
    record {
      counted = omega (arith, free, none_left, length-append sys.executing (w ∷ []));
      single = omega (arith, free);
      busy = λ e. absurd (omega (arith, free, e));
      bounded = omega (arith, bounded);
      no_cancelling = no_cancelling;
      no_sleeping = no_sleeping;
      no_woken = no_woken;
      served = subst (λ xs. Sublist xs past) (sym (append_assoc sys.started (w ∷ []) rest)) served;
    }

complete-IsSerial :
    (max : ℕ) (past : List PendingWork) (place : ℕ) (sys : System)
    → IsSerial max past sys
    → IsSerial max past (complete_at place sys)
unfolding complete_at
complete-IsSerial max past place sys inv = elim (Option-cases (take_at place sys.executing)) [
  | inl e ↦ rw (e, complete_at) inv
  | inr ((w, rest), e) ↦
      let fewer = length-take_at place sys.executing e in
      rw (e, complete_at)
        (pop-IsSerial max past sys.state.queue _ refl
          (omega (arith, inv.counted, inv.single, fewer))
          (omega (arith, inv.counted, inv.single, fewer)) inv.bounded inv.no_cancelling
          inv.no_sleeping inv.no_woken inv.served)
]

run-IsSerial :
    (max : ℕ) (inputs : List Input) (past : List PendingWork) (sys : System)
    → All (IsQueued max) inputs
    → IsSerial max past sys
    → IsSerial max (past ++ arrivals inputs) (run inputs sys)
unfolding run step arrivals cancel_at wake_at enter_at
run-IsSerial max [] past sys queued inv = rw (append-nil past) inv
run-IsSerial max (Input.trigger policy w now fresh ∷ inputs) past sys queued inv =
    rw (← append_assoc past (w ∷ []) (arrivals inputs)) (
      run-IsSerial max inputs (past ++ (w ∷ [])) _ queued.1
        (rw (queued.0) (trigger-IsSerial max past w now fresh sys inv)))
run-IsSerial max (Input.cancel place ∷ inputs) past sys queued inv =
    run-IsSerial max inputs past (cancel_at place sys) queued.1
      (rw (take_at-none place sys.cancelling inv.no_cancelling, cancel_at) inv)
run-IsSerial max (Input.wake place ∷ inputs) past sys queued inv =
    run-IsSerial max inputs past (wake_at place sys) queued.1
      (rw (take_at-none place sys.sleeping inv.no_sleeping, wake_at) inv)
run-IsSerial max (Input.enter place ∷ inputs) past sys queued inv =
    run-IsSerial max inputs past (enter_at place sys) queued.1
      (rw (take_at-none place sys.woken inv.no_woken, enter_at) inv)
run-IsSerial max (Input.complete place ∷ inputs) past sys queued inv =
    run-IsSerial max inputs past (complete_at place sys) queued.1
      (complete-IsSerial max past place sys inv)

-- If every trigger of a macro comes under `Queue { max }`, then in every order of the steps at most
-- one instance executes, at most `max` triggers wait, none waits while nothing executes, and what
-- has started followed by what waits is a subsequence of the arrivals: triggers may be dropped,
-- but none overtakes another and none runs twice.
pub run-queue :
    (max : ℕ) (inputs : List Input)
    → All (IsQueued max) inputs
    → let sys = run inputs init in
      (length sys.executing ≤ 1)
      × (length sys.state.queue ≤ max)
      × (length sys.executing ≡ 0 → sys.state.queue ≡ [])
      × Sublist (sys.started ++ sys.state.queue) (arrivals inputs)
run-queue max inputs queued =
    let inv = run-IsSerial max inputs [] init queued start_of_run in
    (
      omega (arith, inv.counted, inv.single),
      inv.bounded,
      λ e. inv.busy (omega (arith, inv.counted, e)),
      inv.served,
    )
  where
    start_of_run : IsSerial max [] init
    start_of_run = record {
      counted = refl;
      single = omega arith;
      busy = λ _. refl;
      bounded = omega arith;
      no_cancelling = refl;
      no_sleeping = refl;
      no_woken = refl;
      served = Sublist.refl [];
    }
