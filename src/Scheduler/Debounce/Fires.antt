-- ===== src/Scheduler/Debounce/Fires.antt =====
-- The last trigger of a debounced macro starts.
use ko_rkuma.Prelude.{
  ℕ, zero, suc, ◌+◌, false, ◌==◌, nat_eq, ◌≡◌, ◌≢◌, refl, ap, inl, inr, List, [], ◌∷◌, ◌++◌, Option,
  none, some, length, length-append, arith, contains, Bool-cases,
}
use ko_rkuma.Domain.{ConcurrencyPolicy}
use ko_rkuma.Scheduler.{
  Token, PendingWork, Input, System, init, launch, start, with_option, apply_policy, take_at,
  wake_at, enter_at, step, run,
}
use ko_rkuma.Scheduler.Debounce.{burst, brings, run-append, triggered, burst-IsBurst, init-IsBurst}

with_option-avoids :
    (stored : Option Token) (cancelled : List Token) (t : Token)
    → contains cancelled t ≡ false
    → stored ≢ some t
    → contains (with_option stored cancelled) t ≡ false
unfolding with_option contains
with_option-avoids none cancelled t h other = h
with_option-avoids (some s) cancelled t h other = elim (Bool-cases (s == t)) [
  | inl e ↦ absurd (other (ap some ((nat_eq.beq_iff s t).0 e)))
  | inr e ↦ ground (arith, e, h)
]

-- Nothing holds a token, and `n` triggers sleep.
record IsClear (t : Token) (n : ℕ) (sys : System) : Type 0 where
  pub not_cancelled : contains sys.cancelled t ≡ false
  pub not_stored : sys.state.debounce_cancel ≢ some t
  pub count : length sys.sleeping ≡ n

burst-IsClear :
    (ms : ℕ) (triggers : List (PendingWork × ℕ × Token)) (t : Token) (n : ℕ) (sys : System)
    → brings triggers t ≡ false
    → IsClear t n sys
    → IsClear t (n + length triggers) (run (burst ms triggers) sys)
unfolding run step apply_policy burst brings
burst-IsClear ms [] t n sys h c = record {
  not_cancelled = c.not_cancelled;
  not_stored = c.not_stored;
  count = omega (arith, c.count);
}
burst-IsClear ms ((w, now, fresh) ∷ triggers) t n sys h c =
    let c' =
      burst-IsClear ms triggers t (suc n) (triggered ms w now fresh sys) (ground (arith, h))
        (record {
          not_cancelled =
              with_option-avoids sys.state.debounce_cancel sys.cancelled t c.not_cancelled
                c.not_stored;
          not_stored = λ e.
              let same : fresh ≡ t = cc in
              absurd (ground (arith, h, (nat_eq.beq_iff fresh t).1 same));
          count = omega (arith, c.count, length-append sys.sleeping ((fresh, w) ∷ []));
        }) in
    record {
      not_cancelled = c'.not_cancelled;
      not_stored = c'.not_stored;
      count = omega (arith, c'.count);
    }

take_at-last :
    {A : Type 0} (xs : List A) (x : A) (n : ℕ)
    → length xs ≡ n
    → take_at n (xs ++ (x ∷ [])) ≡ some (x, xs)
unfolding take_at
take_at-last [] x zero e = refl
take_at-last [] x (suc n) e = absurd (omega (arith, e))
take_at-last (y ∷ xs) x zero e = absurd (omega (arith, e))
take_at-last (y ∷ xs) x (suc n) e = rw (take_at-last xs x n (omega (arith, e)), take_at) refl

-- A trigger that is not cancelled starts where it is the only one awake.
wake-fires :
    (place : ℕ) (v : PendingWork) (fresh : Token) (rest : List (Token × PendingWork)) (sys : System)
    → take_at place sys.sleeping ≡ some ((fresh, v), rest)
    → contains sys.cancelled fresh ≡ false
    → sys.woken ≡ []
    → sys.started ≡ []
    → (enter_at 0 (wake_at place sys)).started ≡ v ∷ []
unfolding wake_at enter_at take_at start launch
wake-fires place v fresh rest sys e live no_woken no_started =
    rw (e, wake_at)
      (rw (live) (rw (no_woken, enter_at, take_at) (ap (λ xs. xs ++ (v ∷ [])) no_started)))

-- The last of any number of debounced triggers of an idle macro starts, and it alone, where its token
-- is not that of an earlier one, all triggers come before the first of them is awake, and its task
-- is the first to go on: it passes the test of its token and takes the lock.
pub run-debounce_fires :
    (ms : ℕ) (early : List (PendingWork × ℕ × Token)) (v : PendingWork) (now : ℕ) (fresh : Token)
    → brings early fresh ≡ false
    → (run
        (burst ms early
          ++ (Input.trigger (ConcurrencyPolicy.debounce ms) v now fresh
              ∷ Input.wake (length early)
              ∷ Input.enter 0
              ∷ []))
        init).started
      ≡ v ∷ []
unfolding run step apply_policy
run-debounce_fires ms early v now fresh own =
    let before = run (burst ms early) init in
    let b = burst-IsBurst ms early init init-IsBurst in
    let c =
      burst-IsClear ms early fresh 0 init own
        (record { not_cancelled = refl; not_stored = λ e. cc; count = refl }) in
    let live =
      with_option-avoids before.state.debounce_cancel before.cancelled fresh c.not_cancelled
        c.not_stored in
    rw (run-append (burst ms early) _ init) (
      wake-fires (length early) v fresh before.sleeping (triggered ms v now fresh before)
        (take_at-last before.sleeping (fresh, v) (length early) (omega (arith, c.count))) live
        b.asleep.no_woken b.asleep.no_started)
