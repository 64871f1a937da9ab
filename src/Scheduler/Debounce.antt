-- ===== src/Scheduler/Debounce.antt =====
-- The triggers of a debounced macro: which of them can start.
pub mod Fires
use mathlib.Core.Path.{subst}
use ko_rkuma.Prelude.{
  ℕ, zero, suc, ◌+◌, ◌≢◌, length-append, Bool, true, false, ◌||◌, ◌==◌, nat_eq, ◌≡◌, refl, sym, ap,
  ◌∙◌, ◌⊎◌, inl, inr, List, [], ◌∷◌, ◌++◌, Option, none, some, length, All, All-append, arith,
  contains, Bool-cases, Option-cases,
}
use ko_rkuma.Domain.{ConcurrencyPolicy}
use ko_rkuma.Scheduler.{
  Token, PendingWork, Input, System, init, launch, start, with_option, apply_policy, take_at,
  cancel_at, wake_at, enter_at, complete_at, step, run,
}
use ko_rkuma.Scheduler.Throttle.{take_at-none, pop_queue-none}
use ko_rkuma.Scheduler.Tracking.{Taken, All-take_at, All-map}

-- Triggers under `Debounce { ms }`, each with its work, its time and its token.
unfoldable pub burst : ℕ → List (PendingWork × ℕ × Token) → List Input
burst ms [] = []
burst ms ((w, now, fresh) ∷ triggers) =
    Input.trigger (ConcurrencyPolicy.debounce ms) w now fresh ∷ burst ms triggers

-- A step of a task, not a trigger.
abbrev pub is_task : Input → Bool
is_task (Input.trigger policy w now fresh) = false
is_task _ = true

-- One of the triggers brings a token.
unfoldable pub brings : List (PendingWork × ℕ × Token) → Token → Bool
brings [] t = false
brings ((w, now, fresh) ∷ triggers) t = fresh == t || brings triggers t

pub run-append : (xs ys : List Input) (sys : System) → run (xs ++ ys) sys ≡ run ys (run xs sys)
unfolding run
run-append [] ys sys = refl
run-append (i ∷ xs) ys sys = run-append xs ys (step i sys)

-- Nothing but sleeping triggers.
pub record IsAsleep (sys : System) : Type 0 where
  pub no_queue : sys.state.queue ≡ []
  pub no_cancelling : sys.cancelling ≡ []
  pub no_woken : sys.woken ≡ []
  pub no_started : sys.started ≡ []

abbrev IsStored : System → Token × PendingWork → Type 0
IsStored sys task =
    (contains sys.cancelled task.0 ≡ true) ⊎ (sys.state.debounce_cancel ≡ some task.0)

-- Each sleeping trigger is cancelled, or holds the stored token.
pub record IsBurst (sys : System) : Type 0 where
  pub asleep : IsAsleep sys
  pub stored : All (IsStored sys) sys.sleeping

superseded :
    (stored : Option Token) (cancelled : List Token) (t : Token)
    → (contains cancelled t ≡ true) ⊎ (stored ≡ some t)
    → contains (with_option stored cancelled) t ≡ true
unfolding with_option contains
superseded none cancelled t (inl h) = h
superseded none cancelled t (inr e) = cc
superseded (some s) cancelled t (inl h) = ground (arith, h)
superseded (some s) cancelled t (inr e) =
    let f : s ≡ t = cc in ground (arith, (nat_eq.beq_iff s t).1 f)

module _ (ms : ℕ) (w : PendingWork) (now : ℕ) (fresh : Token) (sys : System) where
  abbrev pub triggered : System
  triggered = apply_policy (ConcurrencyPolicy.debounce ms) w now fresh sys

  -- The trigger cancels all that sleep.
  trigger-superseded :
      IsBurst sys → All (λ task. contains triggered.cancelled task.0 ≡ true) sys.sleeping
  unfolding apply_policy
  trigger-superseded b =
      All-map (IsStored sys) (λ task. contains triggered.cancelled task.0 ≡ true) sys.sleeping
        (λ task h. superseded sys.state.debounce_cancel sys.cancelled task.0 h) b.stored

  trigger-IsAsleep : IsBurst sys → IsAsleep triggered
  unfolding apply_policy
  trigger-IsAsleep b = record {
    no_queue = b.asleep.no_queue;
    no_cancelling = b.asleep.no_cancelling;
    no_woken = b.asleep.no_woken;
    no_started = b.asleep.no_started;
  }

  trigger-IsBurst : IsBurst sys → IsBurst triggered
  unfolding apply_policy
  trigger-IsBurst b = record {
    asleep = trigger-IsAsleep b;
    stored =
        All-append (IsStored triggered) sys.sleeping ((fresh, w) ∷ [])
          (All-map (λ task. contains triggered.cancelled task.0 ≡ true) (IsStored triggered)
            sys.sleeping (λ task h. inl h) (trigger-superseded b))
          (inr refl, tt);
  }

pub burst-IsBurst :
    (ms : ℕ) (triggers : List (PendingWork × ℕ × Token)) (sys : System)
    → IsBurst sys
    → IsBurst (run (burst ms triggers) sys)
unfolding run step burst
burst-IsBurst ms [] sys b = b
burst-IsBurst ms ((w, now, fresh) ∷ triggers) sys b =
    burst-IsBurst ms triggers _ (trigger-IsBurst ms w now fresh sys b)

-- Each sleeping trigger is cancelled or the given work, and only that work goes on.
record IsOnly (v : PendingWork) (sys : System) : Type 0 where
  pub sleeping : All (λ task. (contains sys.cancelled task.0 ≡ true) ⊎ (task.1 ≡ v)) sys.sleeping
  pub woken : All (λ task. task.1 ≡ v) sys.woken
  pub started : All (λ w. w ≡ v) sys.started
  pub no_queue : sys.state.queue ≡ []
  pub no_cancelling : sys.cancelling ≡ []

module _ (v : PendingWork) (place : ℕ) (sys : System) (o : IsOnly v sys) where
  wake-IsOnly : IsOnly v (wake_at place sys)
  unfolding wake_at Taken
  wake-IsOnly = elim (Option-cases (take_at place sys.sleeping)) [
    | inl e ↦ rw (e, wake_at) o
    | inr ((task, rest), e) ↦
        let P : Token × PendingWork → Type 0 =
          λ task. (contains sys.cancelled task.0 ≡ true) ⊎ (task.1 ≡ v) in
        let taken = subst (Taken P) e (All-take_at P place sys.sleeping o.sleeping) in
        elim (Bool-cases (contains sys.cancelled task.0)) [
          | inl f ↦
              rw (e, wake_at)
                (rw (f) (record {
                  sleeping = taken.1;
                  woken = o.woken;
                  started = o.started;
                  no_queue = o.no_queue;
                  no_cancelling = o.no_cancelling;
                }))
          | inr f ↦
              let this : task.1 ≡ v = live f taken.0 in
              rw (e, wake_at)
                (rw (f) (record {
                  sleeping = taken.1;
                  woken = All-append (λ task. task.1 ≡ v) sys.woken (task ∷ []) o.woken (this, tt);
                  started = o.started;
                  no_queue = o.no_queue;
                  no_cancelling = o.no_cancelling;
                }))
        ]
  ]
    where
      live : {b : Bool} {w : PendingWork} → b ≡ false → (b ≡ true) ⊎ (w ≡ v) → w ≡ v
      live f (inl g) = cc
      live f (inr g) = g

  enter-IsOnly : IsOnly v (enter_at place sys)
  unfolding enter_at start launch Taken
  enter-IsOnly = elim (Option-cases (take_at place sys.woken)) [
    | inl e ↦ rw (e, enter_at) o
    | inr ((task, rest), e) ↦
        let taken =
          subst (Taken (λ task. task.1 ≡ v)) e
            (All-take_at (λ task. task.1 ≡ v) place sys.woken o.woken) in
        rw (e, enter_at)
          (record {
            sleeping = o.sleeping;
            woken = taken.1;
            started = All-append (λ w. w ≡ v) sys.started (task.1 ∷ []) o.started (taken.0, tt);
            no_queue = o.no_queue;
            no_cancelling = o.no_cancelling;
          })
  ]

  complete-IsOnly : IsOnly v (complete_at place sys)
  unfolding complete_at
  complete-IsOnly = elim (Option-cases (take_at place sys.executing)) [
    | inl e ↦ rw (e, complete_at) o
    | inr ((w, rest), e) ↦
        rw (e, complete_at)
          (rw (pop_queue-none sys.state.queue _ o.no_queue) (record {
            sleeping = o.sleeping;
            woken = o.woken;
            started = o.started;
            no_queue = o.no_queue;
            no_cancelling = o.no_cancelling;
          }))
  ]

run-IsOnly :
    (v : PendingWork) (later : List Input) (sys : System)
    → All (λ i. is_task i ≡ true) later
    → IsOnly v sys
    → IsOnly v (run later sys)
unfolding run step cancel_at
run-IsOnly v [] sys tasks o = o
run-IsOnly v (Input.trigger policy w now fresh ∷ later) sys tasks o = absurd (no (tasks.0))
  where
    no : ¬ (false ≡ true)
    no e = cc
run-IsOnly v (Input.cancel place ∷ later) sys tasks o =
    run-IsOnly v later (cancel_at place sys) tasks.1
      (rw (take_at-none place sys.cancelling o.no_cancelling, cancel_at) o)
run-IsOnly v (Input.wake place ∷ later) sys tasks o =
    run-IsOnly v later _ tasks.1 (wake-IsOnly v place sys o)
run-IsOnly v (Input.enter place ∷ later) sys tasks o =
    run-IsOnly v later _ tasks.1 (enter-IsOnly v place sys o)
run-IsOnly v (Input.complete place ∷ later) sys tasks o =
    run-IsOnly v later _ tasks.1 (complete-IsOnly v place sys o)

pub init-IsBurst : IsBurst init
init-IsBurst = record {
  asleep = record { no_queue = refl; no_cancelling = refl; no_woken = refl; no_started = refl };
  stored = tt;
}

-- Of any number of debounced triggers of an idle macro that all come before the first of them is
-- awake, only the last can ever start, in whatever order the tasks then go on: each trigger
-- supersedes those that still sleep.
pub run-debounce :
    (ms : ℕ) (early : List (PendingWork × ℕ × Token)) (v : PendingWork) (now : ℕ) (fresh : Token)
    (later : List Input)
    → All (λ i. is_task i ≡ true) later
    → All
        (λ w. w ≡ v)
        (run
          (burst ms early ++ (Input.trigger (ConcurrencyPolicy.debounce ms) v now fresh ∷ later))
          init).started
unfolding run step apply_policy
run-debounce ms early v now fresh later tasks =
    let before = run (burst ms early) init in
    let b = burst-IsBurst ms early init init-IsBurst in
    let after = triggered ms v now fresh before in
    let P : Token × PendingWork → Type 0 =
      λ task. (contains after.cancelled task.0 ≡ true) ⊎ (task.1 ≡ v) in
    rw
      (run-append (burst ms early)
        (Input.trigger (ConcurrencyPolicy.debounce ms) v now fresh ∷ later) init)
      (run-IsOnly v later after tasks (record {
        sleeping =
            All-append P before.sleeping ((fresh, v) ∷ [])
              (All-map (λ task. contains after.cancelled task.0 ≡ true) P before.sleeping
                (λ task h. inl h) (trigger-superseded ms v now fresh before b))
              (inr refl, tt);
        woken = rw (b.asleep.no_woken) tt;
        started = rw (b.asleep.no_started) tt;
        no_queue = b.asleep.no_queue;
        no_cancelling = b.asleep.no_cancelling;
      })).started
