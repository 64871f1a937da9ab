-- ===== src/Scheduler/Restart.antt =====
-- A macro whose triggers restart it.
use ko_rkuma.Prelude.{
  ℕ, ◌≤◌, true, false, ◌||◌, ◌≡◌, refl, List, [], ◌∷◌, ◌++◌, All, All-append, length, arith,
  Option-cases, Bool-cases, inl, inr, contains, ◌==◌, nat_eq,
}
use mathlib.Core.Path.{subst}
use ko_rkuma.Domain.{ConcurrencyPolicy}
use ko_rkuma.Scheduler.{
  Token, Input, PendingWork, System, init, run, step, launch, take_at, apply_policy, cancel_next,
  cancel_at, wake_at, enter_at, complete_at, retain_live,
}
use ko_rkuma.Scheduler.Tracking.{
  awaits, is_covered, IsAmong, awaits-append, awaits-take_at, contains-retain_live,
  length-retain_live, Taken, All-take_at, All-map,
}
use ko_rkuma.Scheduler.Throttle.{take_at-none, pop_queue-none}

-- A trigger under `RestartIfRunning`, or a step of a task.
abbrev pub IsRestart : Input → Type 0
IsRestart (Input.trigger policy w now fresh) = policy ≡ ConcurrencyPolicy.restart_if_running
IsRestart _ = Unit

-- Every instance that executes and every restart that is about to.
pub record IsTracked (cancelled active : List Token) (cancelling : List (List Token × PendingWork))
    (sys : System) : Type 0 where
  pub tracked : All (IsAmong cancelled cancelling active) sys.executing
  pub restarting : All (λ task. IsAmong cancelled cancelling active task.1) sys.cancelling

pub record IsExclusive (sys : System) : Type 0 where
  pub all_tracked : IsTracked sys.cancelled sys.state.active_cancels sys.cancelling sys
  pub single : length sys.state.active_cancels ≤ 1
  pub no_queue : sys.state.queue ≡ []
  pub no_sleeping : sys.sleeping ≡ []
  pub no_woken : sys.woken ≡ []

trigger-IsExclusive :
    (w : PendingWork) (now : ℕ) (fresh : Token) (sys : System)
    → IsExclusive sys
    → IsExclusive (apply_policy ConcurrencyPolicy.restart_if_running w now fresh sys)
unfolding apply_policy is_covered contains
trigger-IsExclusive w now fresh sys inv =
    let active = sys.state.active_cancels in
    let after = sys.cancelling ++ ((active, w) ∷ []) in
    let still = awaits-append sys.cancelling (active, w) in
    record {
      all_tracked = record {
        tracked =
            All-map (IsAmong sys.cancelled sys.cancelling active)
              (IsAmong sys.cancelled after (w.cancel ∷ [])) sys.executing
              (λ v h. ground (arith, h, still v.cancel)) inv.all_tracked.tracked;
        restarting =
            All-append (λ task. IsAmong sys.cancelled after (w.cancel ∷ []) task.1) sys.cancelling
              ((active, w) ∷ [])
              (All-map (λ task. IsAmong sys.cancelled sys.cancelling active task.1)
                (λ task. IsAmong sys.cancelled after (w.cancel ∷ []) task.1) sys.cancelling
                (λ v h. ground (arith, h, still v.1.cancel)) inv.all_tracked.restarting)
              (ground (arith, nat_eq.beq_iff w.cancel w.cancel), tt);
      };
      single = omega arith;
      no_queue = inv.no_queue;
      no_sleeping = inv.no_sleeping;
      no_woken = inv.no_woken;
    }

-- A round of the loop, where a restart was taken out of the tasks `before`.
cancel_next-IsExclusive :
    (to_cancel : List Token) (w : PendingWork) (before : List (List Token × PendingWork))
    (sys : System)
    → ((t : Token) → awaits before t ≡ (contains to_cancel t || awaits sys.cancelling t))
    → IsTracked sys.cancelled sys.state.active_cancels before sys
    → IsAmong sys.cancelled before sys.state.active_cancels w
    → length sys.state.active_cancels ≤ 1
    → sys.state.queue ≡ []
    → sys.sleeping ≡ []
    → sys.woken ≡ []
    → IsExclusive (cancel_next to_cancel w sys)
unfolding cancel_next launch is_covered contains
cancel_next-IsExclusive [] w before sys split all this single no_queue no_sleeping no_woken =
    let active = sys.state.active_cancels in
    record {
      all_tracked = record {
        tracked =
            All-append (IsAmong sys.cancelled sys.cancelling active) sys.executing (w ∷ [])
              (All-map (IsAmong sys.cancelled before active)
                (IsAmong sys.cancelled sys.cancelling active) sys.executing
                (λ v h. ground (arith, h, split v.cancel)) all.tracked)
              (ground (arith, this, split w.cancel), tt);
        restarting =
            All-map (λ task. IsAmong sys.cancelled before active task.1)
              (λ task. IsAmong sys.cancelled sys.cancelling active task.1) sys.cancelling
              (λ v h. ground (arith, h, split v.1.cancel)) all.restarting;
      };
      single = single;
      no_queue = no_queue;
      no_sleeping = no_sleeping;
      no_woken = no_woken;
    }
cancel_next-IsExclusive (t ∷ to_cancel) w before sys split all this single no_queue no_sleeping
      no_woken =
    let active = sys.state.active_cancels in
    let after = sys.cancelling ++ ((to_cancel, w) ∷ []) in
    let cancelled = t ∷ sys.cancelled in
    let still = awaits-append sys.cancelling (to_cancel, w) in
    record {
      all_tracked = record {
        tracked =
            All-map (IsAmong sys.cancelled before active) (IsAmong cancelled after active)
              sys.executing (λ v h. ground (arith, h, split v.cancel, still v.cancel)) all.tracked;
        restarting =
            All-append (λ task. IsAmong cancelled after active task.1) sys.cancelling
              ((to_cancel, w) ∷ [])
              (All-map (λ task. IsAmong sys.cancelled before active task.1)
                (λ task. IsAmong cancelled after active task.1) sys.cancelling
                (λ v h. ground (arith, h, split v.1.cancel, still v.1.cancel)) all.restarting)
              (ground (arith, this, split w.cancel, still w.cancel), tt);
      };
      single = single;
      no_queue = no_queue;
      no_sleeping = no_sleeping;
      no_woken = no_woken;
    }

cancel-IsExclusive :
    (place : ℕ) (sys : System) → IsExclusive sys → IsExclusive (cancel_at place sys)
unfolding cancel_at Taken
cancel-IsExclusive place sys inv = elim (Option-cases (take_at place sys.cancelling)) [
  | inl e ↦ rw (e, cancel_at) inv
  | inr ((task, rest), e) ↦
      let P : List Token × PendingWork → Type 0 =
        λ v. IsAmong sys.cancelled sys.cancelling sys.state.active_cancels v.1 in
      let taken =
        subst (Taken P) e (All-take_at P place sys.cancelling inv.all_tracked.restarting) in
      rw (e, cancel_at)
        (cancel_next-IsExclusive task.0 task.1 sys.cancelling _
          (λ t. awaits-take_at place sys.cancelling t e)
          (record { tracked = inv.all_tracked.tracked; restarting = taken.1 }) taken.0 inv.single
          inv.no_queue inv.no_sleeping inv.no_woken)
]

complete-IsExclusive :
    (place : ℕ) (sys : System) → IsExclusive sys → IsExclusive (complete_at place sys)
unfolding complete_at is_covered Taken
complete-IsExclusive place sys inv = elim (Option-cases (take_at place sys.executing)) [
  | inl e ↦ rw (e, complete_at) inv
  | inr ((w, rest), e) ↦
      let active = sys.state.active_cancels in
      let left = retain_live sys.cancelled active in
      let kept = contains-retain_live sys.cancelled active in
      let P = IsAmong sys.cancelled sys.cancelling active in
      rw (e, complete_at)
        (rw (pop_queue-none sys.state.queue _ inv.no_queue) (record {
          all_tracked = record {
            tracked =
                All-map P (IsAmong sys.cancelled sys.cancelling left) rest
                  (λ v h. ground (arith, h, kept v.cancel))
                  (subst (Taken P) e (All-take_at P place sys.executing inv.all_tracked.tracked)).1;
            restarting =
                All-map (λ task. P task.1)
                  (λ task. IsAmong sys.cancelled sys.cancelling left task.1) sys.cancelling
                  (λ v h. ground (arith, h, kept v.1.cancel)) inv.all_tracked.restarting;
          };
          single = omega (arith, inv.single, length-retain_live sys.cancelled active);
          no_queue = inv.no_queue;
          no_sleeping = inv.no_sleeping;
          no_woken = inv.no_woken;
        }))
]

step-IsExclusive :
    (i : Input) (sys : System) → IsRestart i → IsExclusive sys → IsExclusive (step i sys)
unfolding step wake_at enter_at
step-IsExclusive (Input.trigger policy w now fresh) sys e inv =
    rw e (trigger-IsExclusive w now fresh sys inv)
step-IsExclusive (Input.cancel place) sys _ inv = cancel-IsExclusive place sys inv
step-IsExclusive (Input.wake place) sys _ inv =
    rw (take_at-none place sys.sleeping inv.no_sleeping, wake_at) inv
step-IsExclusive (Input.enter place) sys _ inv =
    rw (take_at-none place sys.woken inv.no_woken, enter_at) inv
step-IsExclusive (Input.complete place) sys _ inv = complete-IsExclusive place sys inv

run-IsExclusive :
    (inputs : List Input) (sys : System)
    → All IsRestart inputs
    → IsExclusive sys
    → IsExclusive (run inputs sys)
unfolding run
run-IsExclusive [] sys h inv = inv
run-IsExclusive (i ∷ inputs) sys h inv =
    run-IsExclusive inputs (step i sys) h.1 (step-IsExclusive i sys h.0 inv)

-- A list of at most one token is within the list of its first token.
only_token :
    (active : List Token)
    → length active ≤ 1
    → (t : Token) × ((s : Token) → contains active s ≡ true → (s == t) ≡ true)
unfolding contains
only_token [] h = (0, λ s e. absurd (false_true e))
  where
    false_true : ¬ (false ≡ true)
    false_true e = cc
only_token (t ∷ []) h = (t, λ s e. ground (arith, e))
only_token (t ∷ u ∷ active) h = absurd (omega (arith, h))

within :
    (cancelled : List Token) (cancelling : List (List Token × PendingWork)) (active : List Token)
    (t : Token) (w : PendingWork)
    → (contains active w.cancel ≡ true → (w.cancel == t) ≡ true)
    → IsAmong cancelled cancelling active w
    → (contains cancelled w.cancel || awaits cancelling w.cancel || w.cancel == t) ≡ true
unfolding is_covered
within cancelled cancelling active t w only h = elim (Bool-cases (contains active w.cancel)) [
  | inl e ↦ ground (arith, only e)
  | inr e ↦ ground (arith, e, h)
]

-- The work is cancelled, some restart has still to cancel it, or it holds the given token.
abbrev pub IsGone : System → Token → PendingWork → Type 0
IsGone sys t w =
    (contains sys.cancelled w.cancel || awaits sys.cancelling w.cancel || w.cancel == t) ≡ true

-- If every trigger of a macro comes under `RestartIfRunning`, then in every order of the steps there
-- is one token such that each instance that executes, and each restart that is about to, is
-- cancelled, stands among the tokens that some restart has drained and not yet cancelled, or holds
-- that token. So at most one run of the macro goes on as soon as the restarts have run their loops,
-- if triggers bring tokens of their own.
pub run-restart :
    (inputs : List Input)
    → All IsRestart inputs
    → let sys = run inputs init in
      (t : Token) × All (IsGone sys t) sys.executing
      × All (λ task. IsGone sys t task.1) sys.cancelling
run-restart inputs restarts =
    let sys = run inputs init in
    let inv = run-IsExclusive inputs init restarts start_of_run in
    let (t, only) = only_token sys.state.active_cancels inv.single in
    let among = IsAmong sys.cancelled sys.cancelling sys.state.active_cancels in
    let gone : (w : PendingWork) → among w → IsGone sys t w =
      λ w h. within sys.cancelled sys.cancelling sys.state.active_cancels t w (only w.cancel) h in
    (
      t,
      All-map among (IsGone sys t) sys.executing gone inv.all_tracked.tracked,
      All-map (λ task. among task.1) (λ task. IsGone sys t task.1) sys.cancelling
          (λ task h. gone task.1 h) inv.all_tracked.restarting,
    )
  where
    start_of_run : IsExclusive init
    start_of_run = record {
      all_tracked = record { tracked = tt; restarting = tt };
      single = omega arith;
      no_queue = refl;
      no_sleeping = refl;
      no_woken = refl;
    }
