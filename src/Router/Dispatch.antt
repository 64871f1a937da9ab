-- ===== src/Router/Dispatch.antt =====
-- The dispatch of crates/core/src/router.rs: `dispatch_scheduled`, `dispatch`, the two manual entry
-- points and `execute_pipeline`.
use ko_rkuma.Prelude.{
  ℕ, Bool, true, false, ◌≡◌, ◌≢◌, ◌≤◌, ltb, List, [], ◌∷◌, ◌++◌, Option, none, some, ok, err, any,
  count_if, lookup, nat_eq, if◌then◌else◌,
}
use ko_rkuma.Domain.{
  ConcurrencyPolicy, EngineEvent, Event, EventKind, event_kind_eq, Macro, MacroId, SystemTime,
  TriggerConfig, Value, WorkflowNode, constraint_failed, root_workflow,
}
use ko_rkuma.Permission.{from_set}
use ko_rkuma.Context.{ExecContext, Shared, Store}
use ko_rkuma.Registry.{Registry, build_trigger}
use ko_rkuma.Registry.Evaluate.{evaluate}
use ko_rkuma.Workflow.{Runtime, run_workflow}
use ko_rkuma.Router.{EventRouter, candidates}

-- A candidate with its priority, as the vector that is sorted holds it.
abbrev pub Ranked : Type 0
Ranked = ℕ × MacroId

-- Higher priorities first.
abbrev pub IsDescending : List Ranked → Type 0
IsDescending [] = Unit
IsDescending (x ∷ []) = Unit
IsDescending (x ∷ y ∷ rest) = (y.0 ≤ x.0) × IsDescending (y ∷ rest)

-- `Ordering` and `cmp` of the standard library, on priorities.
pub data Ordering : Type 0 where
  less equal greater : Ordering

unfoldable pub cmp : ℕ → ℕ → Ordering
cmp a b = if ltb a b then Ordering.less else if ltb b a then Ordering.greater else Ordering.equal

abbrev pub Compare : Type 0
Compare = Ranked → Ranked → Ordering

-- What `sort_unstable_by` asks of a comparison: a total order.
pub record IsTotal (compare : Compare) : Type 0 where
  pub reverse : (x y : Ranked) → compare x y ≡ Ordering.greater → compare y x ≢ Ordering.greater
  pub transitive :
      (x y z : Ranked)
      → compare x y ≢ Ordering.greater
      → compare y z ≢ Ordering.greater
      → compare x z ≢ Ordering.greater

-- No element is greater than the next one.
abbrev pub IsSortedBy : Compare → List Ranked → Type 0
IsSortedBy compare [] = Unit
IsSortedBy compare (x ∷ []) = Unit
IsSortedBy compare (x ∷ y ∷ rest) = (compare x y ≢ Ordering.greater) × IsSortedBy compare (y ∷ rest)

-- `sort_unstable_by` of the standard library: the same elements, in the order of the comparison if
-- it is a total one, where equal elements stand in an order that is not specified.
pub record SortUnstable : Type 0 where
  pub sort_by : Compare → List Ranked → List Ranked
  pub sort_by-count :
      (compare : Compare) (p : Ranked → Bool) (xs : List Ranked)
      → count_if p (sort_by compare xs) ≡ count_if p xs
  pub sort_by-IsSortedBy :
      (compare : Compare) (xs : List Ranked)
      → IsTotal compare
      → IsSortedBy compare (sort_by compare xs)

-- `|a, b| b.0.cmp(&a.0)`
unfoldable pub by_priority : Compare
unfolding cmp
by_priority a b = cmp b.0 a.0

module _ (reg : Registry) (event : Event) where
  unfoldable pub trigger_matches : TriggerConfig → Bool
  unfolding build_trigger
  trigger_matches tc = elim (build_trigger reg tc) [ ok spec ↦ spec.matches event | err e ↦ false ]

  unfoldable pub trigger_ok : List TriggerConfig → Bool
  unfolding any trigger_matches
  trigger_ok triggers = any trigger_matches triggers

  unfoldable pub evaluate_macro : MacroId → Store → Macro → Option (Option EngineEvent)
  unfolding evaluate
  evaluate_macro id store m =
      elim (evaluate (record { event = event; macro_id = id; store = store }) reg m.constraints) [
        | ok true ↦ some none
        | ok false ↦ none
        | err e ↦ some (some (EngineEvent.error (some id) (constraint_failed e)))
      ]

-- What becomes of one candidate: `skip` is every `continue` of the loop and a false constraint.
pub data Verdict : Type 0 where
  skip : Verdict
  fire : (priority : ℕ) → Verdict
  report : EngineEvent → Verdict

-- A call of `scheduler.schedule`.
pub record Launch : Type 0 where
  pub macro_id : MacroId
  pub policy : ConcurrencyPolicy
  pub ctx : ExecContext
  pub workflow : WorkflowNode

pub record Dispatched : Type 0 where
  pub events : List EngineEvent
  pub launches : List Launch

abbrev pub exec_context : MacroId → Macro → Event → Bool → ExecContext
exec_context id m event dry_run = record {
  event = event;
  macro_id = id;
  locals = [];
  permissions = from_set m.granted_permissions;
  dry_run = dry_run;
}

module _ (reg : Registry) (event : Event) (store : Store) where
  to_verdict : ℕ → Option (Option EngineEvent) → Verdict
  to_verdict priority none = Verdict.skip
  to_verdict priority (some none) = Verdict.fire priority
  to_verdict priority (some (some e)) = Verdict.report e

  unfoldable pub judge_macro : MacroId → Macro → Verdict
  unfolding trigger_ok evaluate_macro to_verdict
  judge_macro id m =
      if m.enabled
      then if trigger_ok reg event m.triggers
        then to_verdict m.priority (evaluate_macro reg event id store m)
        else Verdict.skip
      else Verdict.skip

  unfoldable pub judge : EventRouter → MacroId → Verdict
  unfolding judge_macro lookup
  judge router id = elim (lookup id router.macros) [
    | none ↦ Verdict.skip
    | some m ↦ judge_macro id m
  ]

  -- The loop over the candidates: what it pushes on `to_fire`, and the errors it reports.
  unfoldable pub to_fire : EventRouter → List MacroId → List Ranked
  unfolding judge
  to_fire router [] = []
  to_fire router (id ∷ ids) =
      let rest = to_fire router ids in
      elim (judge router id) [ Verdict.fire priority ↦ (priority, id) ∷ rest | _ ↦ rest ]

  unfoldable pub reports : EventRouter → List MacroId → List EngineEvent
  unfolding judge
  reports router [] = []
  reports router (id ∷ ids) =
      let rest = reports router ids in
      elim (judge router id) [ Verdict.report e ↦ e ∷ rest | _ ↦ rest ]

-- The second loop. `self.macros[&id]` panics on an unknown id, and none is unknown here.
module _ (event : Event) (router : EventRouter) where
  unfoldable pub fired : List Ranked → List EngineEvent
  unfolding lookup
  fired [] = []
  fired ((priority, id) ∷ rest) =
      let more = fired rest in
      elim (lookup id router.macros) [
        | none ↦ more
        | some m ↦ EngineEvent.macro_fired id m.name event.timestamp ∷ more
      ]

  unfoldable pub launched : List Ranked → List Launch
  unfolding lookup root_workflow
  launched [] = []
  launched ((priority, id) ∷ rest) =
      let more = launched rest in
      elim (lookup id router.macros) [
        | none ↦ more
        | some m ↦
            record {
              macro_id = id;
              policy = m.concurrency;
              ctx = exec_context id m event false;
              workflow = root_workflow m;
            }
            ∷ more
      ]

unfoldable pub dispatch_scheduled :
    SortUnstable → Registry → Event → Store → EventRouter → Dispatched
unfolding candidates to_fire reports fired launched
dispatch_scheduled order reg event store router =
    let ids = candidates event.kind router.index in
    let ranked = order.sort_by by_priority (to_fire reg event store router ids) in
    record {
      events = reports reg event store router ids ++ fired event router ranked;
      launches = launched event router ranked;
    }

-- What the inline paths return: the events, and the shared state that the workflows leave.
abbrev pub Inline : Type 0
Inline = List EngineEvent × Shared

module _ (rt : Runtime) (reg : Registry) where
  unfoldable pub execute_pipeline : MacroId → Macro → Event → Bool → Shared → Inline
  unfolding evaluate_macro run_workflow root_workflow
  execute_pipeline id m event dry_run sh = elim (evaluate_macro reg event id sh.store m) [
    | none ↦ ([], sh)
    | some (some e) ↦ (e ∷ [], sh)
    | some none ↦
        let r = run_workflow rt reg (root_workflow m) (exec_context id m event dry_run) sh in
        (EngineEvent.macro_fired id m.name event.timestamp ∷ r.events, r.shared)
  ]

  -- `filter_map` over the candidates.
  unfoldable pub enabled_candidates : EventRouter → List MacroId → List Ranked
  unfolding lookup
  enabled_candidates router [] = []
  enabled_candidates router (id ∷ ids) =
      let rest = enabled_candidates router ids in
      elim (lookup id router.macros) [
        | none ↦ rest
        | some m ↦ if m.enabled then (m.priority, id) ∷ rest else rest
      ]

  unfoldable pub dispatch_one : EventRouter → Event → MacroId → Shared → Inline
  unfolding trigger_ok execute_pipeline lookup
  dispatch_one router event id sh = elim (lookup id router.macros) [
    | none ↦ ([], sh)
    | some m ↦
        if trigger_ok reg event m.triggers then execute_pipeline id m event false sh else ([], sh)
  ]

  -- Each pipeline starts with a token of its own, which nobody has cancelled.
  unfoldable pub dispatch_loop : EventRouter → Event → List Ranked → Shared → Inline
  unfolding dispatch_one
  dispatch_loop router event [] sh = ([], sh)
  dispatch_loop router event ((priority, id) ∷ rest) sh =
      let (events, sh') = dispatch_one router event id (record sh { is_cancelled = false }) in
      let (more, sh'') = dispatch_loop router event rest sh' in (events ++ more, sh'')

  unfoldable pub dispatch : SortUnstable → EventRouter → Event → Shared → Inline
  unfolding candidates enabled_candidates dispatch_loop
  dispatch order router event sh =
      dispatch_loop router event
        (order.sort_by by_priority (enabled_candidates router (candidates event.kind router.index)))
        sh

  -- `SystemTime::now()` is the argument `now`.
  abbrev pub manual_event : SystemTime → Event
  manual_event now = record {
    kind = EventKind.manual;
    source = "engine";
    timestamp = now;
    payload = Value.null;
  }

  unfoldable pub trigger_directly : Bool → SystemTime → MacroId → EventRouter → Shared → Inline
  unfolding execute_pipeline lookup
  trigger_directly dry_run now id router sh = elim (lookup id router.macros) [
    | none ↦ ([], sh)
    | some m ↦
        if m.enabled
        then execute_pipeline id m (manual_event now) dry_run (record sh { is_cancelled = false })
        else ([], sh)
  ]

  unfoldable pub dispatch_manual_trigger : SystemTime → MacroId → EventRouter → Shared → Inline
  unfolding trigger_directly
  dispatch_manual_trigger now id router sh = trigger_directly false now id router sh

  unfoldable pub dispatch_dry_run : SystemTime → MacroId → EventRouter → Shared → Inline
  unfolding trigger_directly
  dispatch_dry_run now id router sh = trigger_directly true now id router sh
