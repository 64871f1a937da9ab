-- ===== src/Scheduler/Tracking.antt =====
-- Tokens that are cancelled or about to be, and what holds of all work in a list.
use mathlib.Core.Path.{subst}
use ko_rkuma.Prelude.{
  ℕ, zero, suc, ◌≤◌, Bool, true, false, not, ◌&&◌, ◌||◌, ◌≡◌, refl, Option, List, [], ◌∷◌, ◌++◌,
  none, some, All, length, arith, Option-cases, Bool-cases, inl, inr, contains, ◌==◌, nat_eq,
}
use ko_rkuma.Scheduler.{Token, PendingWork, take_at, retain_live}

-- A restart behind its section has still to cancel a token.
unfoldable pub awaits : List (List Token × PendingWork) → Token → Bool
unfolding contains
awaits [] t = false
awaits (task ∷ tasks) t = contains task.0 t || awaits tasks t

-- A token is cancelled, about to be cancelled, or among those given.
unfoldable pub is_covered : List Token → List (List Token × PendingWork) → List Token → Token → Bool
unfolding contains awaits
is_covered cancelled cancelling active t =
    contains cancelled t || awaits cancelling t || contains active t

abbrev pub IsAmong :
    List Token → List (List Token × PendingWork) → List Token → PendingWork → Type 0
IsAmong cancelled cancelling active w = is_covered cancelled cancelling active w.cancel ≡ true

pub awaits-append :
    (tasks : List (List Token × PendingWork)) (task : List Token × PendingWork) (t : Token)
    → awaits (tasks ++ (task ∷ [])) t ≡ (awaits tasks t || contains task.0 t)
unfolding awaits
awaits-append [] task t = ground arith
awaits-append (x ∷ tasks) task t = ground (arith, awaits-append tasks task t)

pub awaits-take_at :
    (place : ℕ) (tasks : List (List Token × PendingWork)) (t : Token)
    {task : List Token × PendingWork} {rest : List (List Token × PendingWork)}
    → take_at place tasks ≡ some (task, rest)
    → awaits tasks t ≡ (contains task.0 t || awaits rest t)
unfolding take_at awaits
awaits-take_at place [] t e = cc
awaits-take_at zero (x ∷ tasks) t {task} {rest} e =
    let f : x ≡ task = cc in let g : tasks ≡ rest = cc in rw (f, g) refl
awaits-take_at (suc place) (x ∷ tasks) t {task} {rest} e =
    elim (Option-cases (take_at place tasks)) [
      | inl f ↦ let e' = rw (f, take_at) at e in cc
      | inr ((y, ys), f) ↦
          let e' = rw (f, take_at) at e in
          let g : y ≡ task = cc in
          let h : (x ∷ ys) ≡ rest = cc in
          rw (← g, ← h) (ground (arith, awaits-take_at place tasks t f))
    ]

pub contains-retain_live :
    (cancelled active : List Token) (t : Token)
    → contains (retain_live cancelled active) t ≡ (contains active t && not (contains cancelled t))
unfolding contains retain_live
contains-retain_live cancelled [] t = refl
contains-retain_live cancelled (x ∷ active) t =
    let rest = contains-retain_live cancelled active t in
    elim (Bool-cases (x == t)) [
      | inl e ↦
          let same : x ≡ t = (nat_eq.beq_iff x t).0 e in
          let same_test : contains cancelled x ≡ contains cancelled t = cc in
          ground (arith, e, rest, same_test)
      | inr e ↦ ground (arith, e, rest)
    ]

pub length-retain_live :
    (cancelled active : List Token) → length (retain_live cancelled active) ≤ length active
unfolding retain_live
length-retain_live cancelled [] = omega arith
length-retain_live cancelled (x ∷ active) = ground (arith, length-retain_live cancelled active)

-- What holds of a list holds of an element taken from it and of the rest.
unfoldable pub Taken : {A : Type 0} → (A → Type 0) → Option (A × List A) → Type 0
Taken P none = Unit
Taken P (some taken) = P taken.0 × All P taken.1

pub All-take_at :
    {A : Type 0} (P : A → Type 0) (place : ℕ) (xs : List A) → All P xs → Taken P (take_at place xs)
unfolding take_at Taken
All-take_at P place [] h = tt
All-take_at P zero (x ∷ xs) h = h
All-take_at P (suc place) (x ∷ xs) h = elim (Option-cases (take_at place xs)) [
  | inl f ↦ rw (f, take_at) tt
  | inr ((y, ys), f) ↦
      let t = subst (Taken P) f (All-take_at P place xs h.1) in rw (f, take_at) (t.0, (h.0, t.1))
]

pub All-map :
    {A : Type 0} (P Q : A → Type 0) (xs : List A) → ((x : A) → P x → Q x) → All P xs → All Q xs
All-map P Q [] f h = tt
All-map P Q (x ∷ xs) f h = (f x h.0, All-map P Q xs f h.1)
