-- ===== src/Router/Order.antt =====
-- In which order an event launches the macros.
use ko_rkuma.Prelude.{
  ℕ, ◌≤◌, ◌↔◌, ◌≢◌, ltb, Bool-cases, Bool, true, not, ◌≡◌, refl, sym, ◌∙◌, List, [], ◌∷◌, none,
  some, count_if, lookup, ◌==◌, nat_eq, arith, Option-cases, inl, inr, map,
}
use mathlib.Core.Path.{subst}
use ko_rkuma.Domain.{Event, MacroId}
use ko_rkuma.Context.{Store}
use ko_rkuma.Registry.{Registry}
use ko_rkuma.Router.{EventRouter, candidates}
use ko_rkuma.Router.Dispatch.{
  Ranked, Ordering, cmp, by_priority, IsTotal, IsSortedBy, SortUnstable, Launch, IsDescending,
  judge, judge_macro, to_fire, launched, dispatch_scheduled, evaluate_macro,
}

-- The priority of a registered macro.
unfoldable pub priority_of : EventRouter → MacroId → ℕ
unfolding lookup
priority_of router id = elim (lookup id router.macros) [ none ↦ 0 | some m ↦ m.priority ]

abbrev ranked_wrong : EventRouter → Ranked → Bool
ranked_wrong router x = elim (lookup x.1 router.macros) [
  | none ↦ true
  | some m ↦ not (m.priority == x.0)
]

count-to_fire_wrong :
    (reg : Registry) (event : Event) (store : Store) (router : EventRouter) (ids : List MacroId)
    → count_if (ranked_wrong router) (to_fire reg event store router ids) ≡ 0
unfolding to_fire count_if judge judge_macro evaluate_macro
count-to_fire_wrong reg event store router [] = refl
count-to_fire_wrong reg event store router (id ∷ ids) =
    let rest = count-to_fire_wrong reg event store router ids in
    elim (Option-cases (lookup id router.macros)) [
      | inl e ↦ ground (arith, e, rest)
      | inr (m, e) ↦ ground (arith, e, rest, nat_eq.beq_iff m.priority m.priority)
    ]

map-launched :
    (event : Event) (router : EventRouter) (xs : List Ranked)
    → count_if (ranked_wrong router) xs ≡ 0
    → map (λ (l : Launch). (priority_of router l.macro_id, l.macro_id)) (launched event router xs)
      ≡ xs
unfolding launched count_if priority_of
map-launched event router [] h = refl
map-launched event router ((priority, id) ∷ xs) h = elim (Option-cases (lookup id router.macros)) [
  | inl e ↦ absurd (ground (arith, e, h))
  | inr (m, e) ↦ ground (
    arith,
    e,
    h,
    nat_eq.beq_iff m.priority priority,
    map-launched event router xs (ground (arith, e, h)),
  )
]

cmp_greater : (a b : ℕ) → (cmp a b ≢ Ordering.greater) ↔ (a ≤ b)
unfolding cmp
cmp_greater a b = elim (Bool-cases (ltb a b)) [
  | inl e ↦ (λ h. ground (arith, e), λ h. rw (e, cmp) (λ f. cc))
  | inr e ↦ elim (Bool-cases (ltb b a)) [
    | inl f ↦ (λ h. absurd (h (rw (e, cmp) (rw (f) refl))), λ h. absurd (ground (arith, h, f)))
    | inr f ↦ (λ h. ground (arith, f), λ h. rw (e, cmp) (rw (f) (λ g. cc)))
  ]
]

by_priority-IsTotal : IsTotal by_priority
unfolding by_priority
by_priority-IsTotal = record {
  reverse = λ x y e. (cmp_greater x.0 y.0).1 (ground (arith, e, cmp_greater y.0 x.0));
  transitive = λ x y z e f.
      (cmp_greater z.0 x.0).1 (omega (arith, (cmp_greater y.0 x.0).0 e, (cmp_greater z.0 y.0).0 f));
}

descending : (xs : List Ranked) → IsSortedBy by_priority xs → IsDescending xs
unfolding by_priority
descending [] h = tt
descending (x ∷ []) h = tt
descending (x ∷ y ∷ xs) h = ((cmp_greater y.0 x.0).0 h.0, descending (y ∷ xs) h.1)

-- The launches of an event stand in descending order of the priorities of their macros, where the
-- standard library's `sort_unstable_by` sorts by every comparison that is a total order.
pub dispatch_scheduled-IsDescending :
    (order : SortUnstable) (reg : Registry) (event : Event) (store : Store) (router : EventRouter)
    → IsDescending (
        map
          (λ (l : Launch). (priority_of router l.macro_id, l.macro_id))
          (dispatch_scheduled order reg event store router).launches)
unfolding dispatch_scheduled
dispatch_scheduled-IsDescending order reg event store router =
    let ranked = to_fire reg event store router (candidates event.kind router.index) in
    subst IsDescending
      (sym (
        map-launched event router (order.sort_by by_priority ranked) (
          order.sort_by-count by_priority (ranked_wrong router) ranked
          ∙ count-to_fire_wrong reg event store router (candidates event.kind router.index))))
      (descending (order.sort_by by_priority ranked)
        (order.sort_by-IsSortedBy by_priority ranked by_priority-IsTotal))
