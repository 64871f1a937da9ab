-- ===== src/Router/Index.antt =====
-- The routing index against the registered macros.
use ko_rkuma.Prelude.{
  ℕ, ◌+◌, Bool, false, ◌&&◌, ◌≡◌, refl, ap, ◌∙◌, List, [], ◌∷◌, ◌++◌, Option, none, some, any,
  count_if, count_if-append, insert, remove, lookup, lookup-insert, lookup-remove, ◌==◌, nat_eq,
  arith, if◌then◌else◌, Option-cases, inl, inr,
}
use ko_rkuma.Domain.{EventKind, event_kind_eq, EngineCommand, Macro, MacroId, TriggerConfig}
use ko_rkuma.Router.{
  Index, EventRouter, new, event_kind_of, candidates, push_all, add_macro, retain_ne, retain_at,
  retain_all, remove_macro, set_enabled, apply_command,
}

-- How often a macro stands in the list of a kind.
unfoldable pub occurrences : MacroId → EventKind → Index → ℕ
unfolding count_if
occurrences id kind index = count_if (λ x. x == id) (candidates kind index)

-- How many of a macro's triggers are of a kind.
unfoldable pub triggers_of : EventKind → List TriggerConfig → ℕ
unfolding count_if
triggers_of kind triggers = count_if (λ tc. event_kind_of tc == kind) triggers

abbrev pub listed : EventKind → Option Macro → ℕ
listed kind none = 0
listed kind (some m) = triggers_of kind m.triggers

unfoldable pub expected : MacroId → EventKind → List (MacroId × Macro) → ℕ
unfolding lookup
expected id kind macros = listed kind (lookup id macros)

expected-insert :
    (id j : MacroId) (kind : EventKind) (m : Macro) (macros : List (MacroId × Macro))
    → expected j kind (insert id m macros)
      ≡ (if id == j then triggers_of kind m.triggers else expected j kind macros)
unfolding expected
expected-insert id j kind m macros = ap (listed kind) (lookup-insert id j m macros) ∙ ground arith

expected-remove :
    (id j : MacroId) (kind : EventKind) (macros : List (MacroId × Macro))
    → expected j kind (remove id macros) ≡ (if id == j then 0 else expected j kind macros)
unfolding expected
expected-remove id j kind macros = ap (listed kind) (lookup-remove id j macros) ∙ ground arith

pub expected-lookup :
    (id : MacroId) (kind : EventKind) {o : Option Macro} (macros : List (MacroId × Macro))
    → lookup id macros ≡ o
    → expected id kind macros ≡ listed kind o
unfolding expected
expected-lookup id kind macros e = ap (listed kind) e

occurrences-push :
    (id j : MacroId) (kind k : EventKind) (index : Index)
    → occurrences j k (insert kind (candidates kind index ++ (id ∷ [])) index)
      ≡ occurrences j k index + (if id == j && kind == k then 1 else 0)
unfolding occurrences candidates count_if
occurrences-push id j kind k index =
    rw (lookup-insert kind k (candidates kind index ++ (id ∷ [])) index) (
      ground (
        arith,
        event_kind_eq.beq_iff kind k,
        count_if-append (λ x. x == j) (candidates kind index) (id ∷ []),
      ))

pub occurrences-push_all :
    (id j : MacroId) (k : EventKind) (triggers : List TriggerConfig) (index : Index)
    → occurrences j k (push_all id triggers index)
      ≡ occurrences j k index + (if id == j then triggers_of k triggers else 0)
unfolding push_all triggers_of count_if
occurrences-push_all id j k [] index = ground arith
occurrences-push_all id j k (tc ∷ triggers) index =
    let kind = event_kind_of tc in
    let index' = insert kind (candidates kind index ++ (id ∷ [])) index in
    ground (arith, occurrences-push_all id j k triggers index', occurrences-push id j kind k index)

count-retain_ne :
    (id j : MacroId) (ids : List MacroId)
    → count_if (λ x. x == j) (retain_ne id ids)
      ≡ (if id == j then 0 else count_if (λ x. x == j) ids)
unfolding retain_ne count_if
count-retain_ne id j [] = ground arith
count-retain_ne id j (x ∷ ids) = ground (arith, count-retain_ne id j ids)

occurrences-retain_at :
    (id j : MacroId) (kind k : EventKind) (index : Index)
    → occurrences j k (retain_at kind id index)
      ≡ (if id == j && kind == k then 0 else occurrences j k index)
unfolding occurrences candidates retain_at count_if
occurrences-retain_at id j kind k index = elim (Option-cases (lookup kind index)) [
  | inl e ↦ rw (e, retain_at) (ground (arith, e, event_kind_eq.beq_iff kind k))
  | inr (ids, e) ↦
      rw (e, retain_at)
        (rw (lookup-insert kind k (retain_ne id ids) index)
          (ground (arith, e, event_kind_eq.beq_iff kind k, count-retain_ne id j ids)))
]

abbrev has_kind : EventKind → List TriggerConfig → Bool
has_kind k triggers = any (λ tc. event_kind_of tc == k) triggers

occurrences-retain_all :
    (id j : MacroId) (k : EventKind) (triggers : List TriggerConfig) (index : Index)
    → occurrences j k (retain_all id triggers index)
      ≡ (if id == j && has_kind k triggers then 0 else occurrences j k index)
unfolding retain_all any
occurrences-retain_all id j k [] index = ground arith
occurrences-retain_all id j k (tc ∷ triggers) index =
    let kind = event_kind_of tc in
    ground (
      arith,
      occurrences-retain_all id j k triggers (retain_at kind id index),
      occurrences-retain_at id j kind k index,
    )

triggers_of-eq-zero :
    (k : EventKind) (triggers : List TriggerConfig)
    → has_kind k triggers ≡ false
    → triggers_of k triggers ≡ 0
unfolding any triggers_of count_if
triggers_of-eq-zero k [] e = refl
triggers_of-eq-zero k (tc ∷ triggers) e =
    ground (arith, e, triggers_of-eq-zero k triggers (ground (arith, e)))

-- Each registered macro stands in the list of each kind once for each of its triggers of that kind,
-- and no other macro stands anywhere.
pub record IsIndexed (router : EventRouter) : Type 0 where
  pub exact :
      (id : MacroId) (kind : EventKind)
      → occurrences id kind router.index ≡ expected id kind router.macros

pub new-IsIndexed : IsIndexed new
unfolding occurrences candidates count_if expected lookup
new-IsIndexed = record { exact = λ id kind. refl }

pub add_macro-IsIndexed :
    (m : Macro) (router : EventRouter)
    → lookup m.id router.macros ≡ none
    → IsIndexed router
    → IsIndexed (add_macro m router)
unfolding add_macro
add_macro-IsIndexed m router fresh inv = record {
  exact = λ id kind. ground (
    arith,
    inv.exact id kind,
    nat_eq.beq_iff m.id id,
    expected-lookup m.id kind router.macros fresh,
    expected-insert m.id id kind m router.macros,
    occurrences-push_all m.id id kind m.triggers router.index,
  );
}

pub remove_macro-IsIndexed :
    (id : MacroId) (router : EventRouter) → IsIndexed router → IsIndexed (remove_macro id router)
unfolding remove_macro
remove_macro-IsIndexed id router inv = elim (Option-cases (lookup id router.macros)) [
  | inl e ↦ rw (e, remove_macro) inv
  | inr (m, e) ↦
      rw (e, remove_macro)
        (record {
          exact = λ j kind. ground (
            arith,
            inv.exact j kind,
            nat_eq.beq_iff id j,
            expected-lookup id kind router.macros e,
            expected-remove id j kind router.macros,
            occurrences-retain_all id j kind m.triggers router.index,
            triggers_of-eq-zero kind m.triggers,
          );
        })
]

pub set_enabled-IsIndexed :
    (id : MacroId) (enabled : Bool) (router : EventRouter)
    → IsIndexed router
    → IsIndexed (set_enabled id enabled router)
unfolding set_enabled
set_enabled-IsIndexed id enabled router inv = elim (Option-cases (lookup id router.macros)) [
  | inl e ↦ rw (e, set_enabled) inv
  | inr (m, e) ↦
      rw (e, set_enabled)
        (record {
          exact = λ j kind. ground (
            arith,
            inv.exact j kind,
            nat_eq.beq_iff id j,
            expected-lookup id kind router.macros e,
            expected-insert id j kind (record m { enabled = enabled }) router.macros,
          );
        })
]

remove_macro-lookup :
    (id : MacroId) (router : EventRouter) → lookup id (remove_macro id router).macros ≡ none
unfolding remove_macro
remove_macro-lookup id router = elim (Option-cases (lookup id router.macros)) [
  | inl e ↦ rw (e, remove_macro) e
  | inr (m, e) ↦
      rw (e, remove_macro)
        (lookup-remove id id router.macros ∙ ground (arith, nat_eq.beq_iff id id))
]

-- What a command adds is not registered yet.
abbrev pub AddsFresh : EngineCommand → EventRouter → Type 0
AddsFresh (EngineCommand.add_macro m) router = lookup m.id router.macros ≡ none
AddsFresh _ router = Unit

-- Every engine command but an `AddMacro` of an id that is already registered keeps the index exact:
-- in the list of each kind every registered macro stands once for each of its triggers of that
-- kind, and no other macro stands there.
pub apply_command-IsIndexed :
    (c : EngineCommand) (router : EventRouter)
    → AddsFresh c router
    → IsIndexed router
    → IsIndexed (apply_command c router)
unfolding apply_command
apply_command-IsIndexed (EngineCommand.add_macro m) router fresh inv =
    add_macro-IsIndexed m router fresh inv
apply_command-IsIndexed (EngineCommand.update_macro m) router fresh inv =
    add_macro-IsIndexed m (remove_macro m.id router) (remove_macro-lookup m.id router)
      (remove_macro-IsIndexed m.id router inv)
apply_command-IsIndexed (EngineCommand.delete_macro id) router fresh inv =
    remove_macro-IsIndexed id router inv
apply_command-IsIndexed (EngineCommand.set_enabled id enabled) router fresh inv =
    set_enabled-IsIndexed id enabled router inv
apply_command-IsIndexed _ router fresh inv = inv

-- `AddMacro` for an id that is already registered does not replace the entries of the index: in
-- the list of every kind the macro stands as often as before, and once more for each of the new
-- definition's triggers of that kind.
pub add_macro-again :
    (m old : Macro) (router : EventRouter) (kind : EventKind)
    → IsIndexed router
    → lookup m.id router.macros ≡ some old
    → occurrences m.id kind (add_macro m router).index
      ≡ triggers_of kind old.triggers + triggers_of kind m.triggers
unfolding add_macro
add_macro-again m old router kind inv e = ground (
  arith,
  inv.exact m.id kind,
  nat_eq.beq_iff m.id m.id,
  expected-lookup m.id kind router.macros e,
  occurrences-push_all m.id m.id kind m.triggers router.index,
)
