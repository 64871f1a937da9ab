-- ===== src/Examples/Dispatches.antt =====
-- The theorems on the router at concrete macros. The sort of the examples is an insertion sort.
use ko_rkuma.Prelude.{
  ◌+◌, Bool, true, false, Bool-cases, inl, inr, ◌≢◌, ◌≡◌, refl, List, [], ◌∷◌, map, count_if,
  lookup, ◌==◌, nat_eq, if◌then◌else◌, arith,
}
use ko_rkuma.Domain.{EngineCommand, EventKind, event_kind_eq, TriggerConfig}
use ko_rkuma.Router.{EventRouter, new, add_macro, apply_command}
use ko_rkuma.Router.Dispatch.{
  Ranked, Ordering, Compare, IsTotal, IsSortedBy, IsDescending, SortUnstable, Launch,
  dispatch_scheduled,
}
use ko_rkuma.Router.Index.{
  IsIndexed, new-IsIndexed, occurrences, triggers_of, apply_command-IsIndexed, add_macro-IsIndexed,
  add_macro-again,
}
use ko_rkuma.Router.Firing.{is_due, dispatch_scheduled-count}
use ko_rkuma.Router.Order.{priority_of, dispatch_scheduled-IsDescending}
use ko_rkuma.Examples.{builtin_reg, noon, macro_of}

is_greater : Ordering → Bool
is_greater Ordering.greater = true
is_greater _ = false

module _ (compare : Compare) where
  place : Ranked → List Ranked → List Ranked
  unfolding is_greater
  place x [] = x ∷ []
  place x (y ∷ ys) =
      let rest = place x ys in if is_greater (compare x y) then y ∷ rest else x ∷ y ∷ ys

  sort_ranked : List Ranked → List Ranked
  unfolding place
  sort_ranked [] = []
  sort_ranked (x ∷ xs) = place x (sort_ranked xs)

  count-place :
      (p : Ranked → Bool) (x : Ranked) (ys : List Ranked)
      → count_if p (place x ys) ≡ count_if p (x ∷ ys)
  unfolding place count_if
  count-place p x [] = refl
  count-place p x (y ∷ ys) = ground (arith, count-place p x ys)

  count-sort_ranked :
      (p : Ranked → Bool) (xs : List Ranked) → count_if p (sort_ranked xs) ≡ count_if p xs
  unfolding sort_ranked count_if
  count-sort_ranked p [] = refl
  count-sort_ranked p (x ∷ xs) =
      ground (arith, count-place p x (sort_ranked xs), count-sort_ranked p xs)

  is_greater-true : (o : Ordering) → is_greater o ≡ true → o ≡ Ordering.greater
  unfolding is_greater
  is_greater-true Ordering.less e = cc
  is_greater-true Ordering.equal e = cc
  is_greater-true Ordering.greater e = refl

  is_greater-false : (o : Ordering) → is_greater o ≡ false → o ≢ Ordering.greater
  unfolding is_greater
  is_greater-false Ordering.less e f = cc
  is_greater-false Ordering.equal e f = cc
  is_greater-false Ordering.greater e f = cc

  module _ (total : IsTotal compare) where
    -- Behind an element that is not greater than `x` and than the head.
    place_behind :
        (z x : Ranked) (ys : List Ranked)
        → compare z x ≢ Ordering.greater
        → IsSortedBy compare (z ∷ ys)
        → IsSortedBy compare (z ∷ place x ys)
    unfolding place
    place_behind z x [] h d = (h, tt)
    place_behind z x (y ∷ ys) h d = elim (Bool-cases (is_greater (compare x y))) [
      | inl e ↦
          rw (e, place) (d.0, place_behind y x ys (total.reverse x y (is_greater-true _ e)) d.1)
      | inr e ↦ rw (e, place) (h, (is_greater-false _ e, d.1))
    ]

    place-IsSortedBy :
        (x : Ranked) (ys : List Ranked) → IsSortedBy compare ys → IsSortedBy compare (place x ys)
    unfolding place
    place-IsSortedBy x [] d = tt
    place-IsSortedBy x (y ∷ ys) d = elim (Bool-cases (is_greater (compare x y))) [
      | inl e ↦ rw (e, place) (place_behind y x ys (total.reverse x y (is_greater-true _ e)) d)
      | inr e ↦ rw (e, place) (is_greater-false _ e, d)
    ]

    sort_ranked-IsSortedBy : (xs : List Ranked) → IsSortedBy compare (sort_ranked xs)
    unfolding sort_ranked
    sort_ranked-IsSortedBy [] = tt
    sort_ranked-IsSortedBy (x ∷ xs) =
        place-IsSortedBy x (sort_ranked xs) (sort_ranked-IsSortedBy xs)

insertion_sort : SortUnstable
insertion_sort = record {
  sort_by = λ compare xs. sort_ranked compare xs;
  sort_by-count = λ compare p xs. count-sort_ranked compare p xs;
  sort_by-IsSortedBy = λ compare xs total. sort_ranked-IsSortedBy compare total xs;
}

abbrev twice : List TriggerConfig
twice = TriggerConfig.manual ∷ TriggerConfig.manual ∷ []

abbrev one_macro : EventRouter
one_macro = add_macro (macro_of 7 twice) new

one_macro-IsIndexed : IsIndexed one_macro
unfolding lookup
one_macro-IsIndexed = add_macro-IsIndexed (macro_of 7 twice) new refl new-IsIndexed

apply_command-IsIndexed_example :
    IsIndexed (apply_command (EngineCommand.update_macro (macro_of 7 [])) one_macro)
apply_command-IsIndexed_example =
    apply_command-IsIndexed (EngineCommand.update_macro (macro_of 7 [])) one_macro tt
      one_macro-IsIndexed

add_macro-again_example :
    occurrences 7 EventKind.manual (add_macro (macro_of 7 twice) one_macro).index
    ≡ triggers_of EventKind.manual twice + triggers_of EventKind.manual twice
unfolding lookup add_macro
add_macro-again_example =
    add_macro-again (macro_of 7 twice) (macro_of 7 twice) one_macro EventKind.manual
      one_macro-IsIndexed refl

dispatch_scheduled-count_example :
    count_if
      (λ l. l.macro_id == 7)
      (dispatch_scheduled insertion_sort builtin_reg noon [] one_macro).launches
    ≡ (if is_due builtin_reg noon [] 7 (macro_of 7 twice)
        then triggers_of EventKind.manual twice
        else 0)
unfolding lookup add_macro
dispatch_scheduled-count_example =
    dispatch_scheduled-count insertion_sort builtin_reg noon [] one_macro 7 (macro_of 7 twice)
      one_macro-IsIndexed refl

dispatch_scheduled-IsDescending_example : IsDescending (
    map
      (λ (l : Launch). (priority_of one_macro l.macro_id, l.macro_id))
      (dispatch_scheduled insertion_sort builtin_reg noon [] one_macro).launches)
dispatch_scheduled-IsDescending_example =
    dispatch_scheduled-IsDescending insertion_sort builtin_reg noon [] one_macro
