-- ===== src/Router/Firing.antt =====
-- How often an event launches the workflow of a macro.
use ko_rkuma.Prelude.{
  Bool, true, false, ◌&&◌, ◌≡◌, refl, ap, ◌∙◌, List, [], ◌∷◌, some, Result, ok, err, count_if,
  lookup, ◌==◌, nat_eq, arith, if◌then◌else◌, Bool-cases, inl, inr,
}
use ko_rkuma.Domain.{ConstraintError, Event, Macro, MacroId}
use ko_rkuma.Context.{Store}
use ko_rkuma.Registry.{Registry}
use ko_rkuma.Registry.Evaluate.{evaluate}
use ko_rkuma.Router.{EventRouter, candidates}
use ko_rkuma.Router.Dispatch.{
  Ranked, SortUnstable, by_priority, Verdict, trigger_ok, evaluate_macro, judge, judge_macro,
  to_fire, launched, dispatch_scheduled,
}
use ko_rkuma.Router.Index.{IsIndexed, occurrences, expected-lookup, triggers_of}

abbrev is_fire : Verdict → Bool
is_fire (Verdict.fire priority) = true
is_fire _ = false

-- A constraint that evaluates to true, without an error.
abbrev pub holds : Result ConstraintError Bool → Bool
holds (ok b) = b
holds (err e) = false

-- The test that `dispatch_scheduled` makes of a registered macro.
unfoldable pub is_due : Registry → Event → Store → MacroId → Macro → Bool
unfolding trigger_ok evaluate
is_due reg event store id m =
    m.enabled
    && trigger_ok reg event m.triggers
    && holds (evaluate (record { event = event; macro_id = id; store = store }) reg m.constraints)

module _ (reg : Registry) (event : Event) (store : Store) (router : EventRouter) where
  count-to_fire :
      (id : MacroId) (ids : List MacroId)
      → count_if (λ x. x.1 == id) (to_fire reg event store router ids)
        ≡ (if is_fire (judge reg event store router id) then count_if (λ x. x == id) ids else 0)
  unfolding to_fire count_if
  count-to_fire id [] = ground arith
  count-to_fire id (x ∷ ids) =
      let rest = count-to_fire id ids in
      elim (Bool-cases (x == id)) [
        | inl e ↦
            let same : x ≡ id = (nat_eq.beq_iff x id).0 e in
            let j : judge reg event store router x ≡ judge reg event store router id =
              ap (judge reg event store router) same in
            ground (arith, e, j, rest)
        | inr e ↦ ground (arith, e, rest)
      ]

  judge_registered :
      (id : MacroId) (m : Macro)
      → lookup id router.macros ≡ some m
      → is_fire (judge reg event store router id) ≡ is_due reg event store id m
  unfolding judge judge_macro evaluate_macro is_due
  judge_registered id m e = rw (e, judge) (ground arith)

count-launched :
    (event : Event) (router : EventRouter) (id : MacroId) (m : Macro) (xs : List Ranked)
    → lookup id router.macros ≡ some m
    → count_if (λ l. l.macro_id == id) (launched event router xs) ≡ count_if (λ x. x.1 == id) xs
unfolding launched count_if
count-launched event router id m [] e = refl
count-launched event router id m ((priority, x) ∷ xs) e =
    ground (arith, e, nat_eq.beq_iff x id, count-launched event router id m xs e)

-- Where the index is exact, an event launches a registered macro once for each of its triggers of
-- the event's kind, if the macro is enabled, some trigger matches the event and the constraint evaluates to true; otherwise
-- not at all. So a macro with two triggers of one kind runs twice for one event.
pub dispatch_scheduled-count :
    (order : SortUnstable) (reg : Registry) (event : Event) (store : Store) (router : EventRouter)
    (id : MacroId) (m : Macro)
    → IsIndexed router
    → lookup id router.macros ≡ some m
    → count_if (λ l. l.macro_id == id) (dispatch_scheduled order reg event store router).launches
      ≡ (if is_due reg event store id m then triggers_of event.kind m.triggers else 0)
unfolding dispatch_scheduled occurrences
dispatch_scheduled-count order reg event store router id m inv e =
    let ids = candidates event.kind router.index in
    let ranked = to_fire reg event store router ids in
    count-launched event router id m (order.sort_by by_priority ranked) e
    ∙ order.sort_by-count by_priority (λ x. x.1 == id) ranked
    ∙ count-to_fire reg event store router id ids
    ∙ ground (
      arith,
      judge_registered reg event store router id m e,
      inv.exact id event.kind,
      expected-lookup id event.kind router.macros e,
    )
