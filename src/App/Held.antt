-- ===== src/App/Held.antt =====
-- The engine's router against the list of macros of the application, under each command.
use ko_rkuma.Prelude.{
  ℕ, ◌≤◌, Bool, true, false, ◌≡◌, refl, sym, ap, ◌∙◌, String, List, [], ◌∷◌, ◌++◌, Option, none,
  some, lookup, ◌==◌, nat_eq, if◌then◌else◌, Bool-cases, inl, inr, arith,
}
use ko_rkuma.Domain.{EngineCommand, Macro, MacroId}
use ko_rkuma.Router.{EventRouter, apply_command}
use ko_rkuma.Router.Index.{IsIndexed, AddsFresh, apply_command-IsIndexed}
use ko_rkuma.App.State.{get, set, without}
use ko_rkuma.App.MacroList.{swap}
use ko_rkuma.App.Find.{
  find, count_id, find-absent, find-set, find-without, find-append, find-swap, count_id-set,
  count_id-without, count_id-append, count_id-swap, find-get,
}
use ko_rkuma.App.Engine.{
  handled, engine, handled-append, lookup-add, lookup-delete, lookup-update, lookup-set_enabled,
  with_enabled,
}

-- A macro without its name, which a change does not send to the engine.
abbrev pub nameless : Option Macro → Option Macro
nameless none = none
nameless (some m) = some (record m { name = "" })

-- The router that the sent commands lead to holds the macros of the list, and its index is exact.
pub record IsHeld (macros : List Macro) (sent : List EngineCommand) : Type 0 where
  pub distinct : (id : MacroId) → count_id id macros ≤ 1
  pub same : (id : MacroId) → nameless (lookup id (engine sent).macros) ≡ nameless (find id macros)
  pub indexed : IsIndexed (engine sent)

nameless-if :
    (b : Bool) (x y : Option Macro)
    → nameless (if b then x else y) ≡ (if b then nameless x else nameless y)
nameless-if true x y = refl
nameless-if false x y = refl

command-IsHeld :
    (c : EngineCommand) (macros : List Macro) (sent : List EngineCommand)
    → ((id : MacroId) → count_id id macros ≤ 1)
    → ((id : MacroId)
        → nameless (lookup id (apply_command c (engine sent)).macros) ≡ nameless (find id macros))
    → AddsFresh c (engine sent)
    → IsIndexed (engine sent)
    → IsHeld macros (sent ++ (c ∷ []))
unfolding handled
command-IsHeld c macros sent distinct same fresh indexed = record {
  distinct = distinct;
  same = λ id. ap (λ r. nameless (lookup id r.macros)) (handled-append sent (c ∷ []) _) ∙ same id;
  indexed =
      rw (handled-append sent (c ∷ []) _) (apply_command-IsIndexed c (engine sent) fresh indexed);
}

-- A new value for the macro with the id `at`, in the router and in the list.
same_at :
    (at : MacroId) (x x' y y' : Option Macro) (id : MacroId) (new : Option Macro)
    → x' ≡ (if at == id then new else x)
    → y' ≡ (if at == id then new else y)
    → nameless x ≡ nameless y
    → nameless x' ≡ nameless y'
same_at at x x' y y' id new e f h =
    ap nameless e
    ∙ nameless-if (at == id) new x
    ∙ ap (λ z. if at == id then nameless new else z) h
    ∙ sym (nameless-if (at == id) new y)
    ∙ ap nameless (sym f)

pub nameless-none : (x : Option Macro) → nameless x ≡ none → x ≡ none
nameless-none none e = refl
nameless-none (some m) e = cc

-- The same macro but for the name, with the flag set.
with_enabled-nameless :
    (enabled : Bool) (x : Option Macro) (m : Macro)
    → nameless x ≡ nameless (some m)
    → nameless (with_enabled enabled x) ≡ nameless (some (record m { enabled = enabled }))
with_enabled-nameless enabled none m e = cc
with_enabled-nameless enabled (some n) m e = ap (with_enabled enabled) e

then_part : (b : Bool) (x y z : Option Macro) → z ≡ (if b then x else y) → b ≡ true → z ≡ x
then_part true x y z e f = e
then_part false x y z e f = cc

else_part : (b : Bool) (x y z : Option Macro) → z ≡ (if b then x else y) → b ≡ false → z ≡ y
else_part true x y z e f = cc
else_part false x y z e f = e

module _ (macros : List Macro) (sent : List EngineCommand) (held : IsHeld macros sent) where
  pub update-IsHeld :
      (i : ℕ) (m m' : Macro)
      → get i macros ≡ some m
      → m'.id ≡ m.id
      → IsHeld (set i m' macros) (sent ++ (EngineCommand.update_macro m' ∷ []))
  update-IsHeld i m m' e same =
      command-IsHeld (EngineCommand.update_macro m') (set i m' macros) sent
        (λ id. omega (arith, count_id-set i m m' macros id e same, held.distinct id))
        (λ id.
          same_at m.id _ _ _ _ id (some m')
            (lookup-update m' (engine sent) id
              ∙ ap (λ z. if z == id then some m' else lookup id (engine sent).macros) same)
            (find-set i m m' macros id e same (held.distinct m.id)) (held.same id))
        tt held.indexed

  pub add-IsHeld :
      (m : Macro)
      → count_id m.id macros ≡ 0
      → IsHeld (macros ++ (m ∷ [])) (sent ++ (EngineCommand.add_macro m ∷ []))
  add-IsHeld m fresh =
      command-IsHeld (EngineCommand.add_macro m) (macros ++ (m ∷ [])) sent
        (λ id.
          ground
            (arith, count_id-append m macros id, held.distinct id, fresh, nat_eq.beq_iff m.id id))
        (λ id.
          same_at m.id _ _ _ _ id (some m) (lookup-add m (engine sent) id)
            (find-append m macros id fresh) (held.same id))
        (nameless-none _ (held.same m.id ∙ ap nameless (find-absent m.id macros fresh)))
        held.indexed

  pub delete-IsHeld :
      (i : ℕ) (m : Macro)
      → get i macros ≡ some m
      → IsHeld (without i macros) (sent ++ (EngineCommand.delete_macro m.id ∷ []))
  delete-IsHeld i m e =
      command-IsHeld (EngineCommand.delete_macro m.id) (without i macros) sent
        (λ id. ground (arith, count_id-without i m macros id e, held.distinct id))
        (λ id.
          same_at m.id _ _ _ _ id none (lookup-delete m.id (engine sent) id)
            (find-without i m macros id e (held.distinct m.id)) (held.same id))
        tt held.indexed

  pub swap-IsHeld :
      (i : ℕ) (macros' : List Macro) → swap i macros ≡ some macros' → IsHeld macros' sent
  swap-IsHeld i macros' e = record {
    distinct = λ id. omega (arith, count_id-swap i macros macros' id e, held.distinct id);
    same =
        λ id. held.same id ∙ ap nameless (sym (find-swap i macros macros' id e (held.distinct id)));
    indexed = held.indexed;
  }

  -- A command for a macro to run changes nothing.
  pub run-IsHeld :
      (c : EngineCommand)
      → ((router : EventRouter) → apply_command c router ≡ router)
      → AddsFresh c (engine sent)
      → IsHeld macros (sent ++ (c ∷ []))
  run-IsHeld c idle fresh =
      command-IsHeld c macros sent held.distinct
        (λ id. ap (λ r. nameless (lookup id r.macros)) (idle (engine sent)) ∙ held.same id) fresh
        held.indexed

  pub enable-IsHeld :
      (i : ℕ) (m : Macro) (enabled : Bool)
      → get i macros ≡ some m
      → IsHeld
          (set i (record m { enabled = enabled }) macros)
          (sent ++ (EngineCommand.set_enabled m.id enabled ∷ []))
  enable-IsHeld i m enabled e =
      let m' : Macro = record m { enabled = enabled } in
      command-IsHeld (EngineCommand.set_enabled m.id enabled) (set i m' macros) sent
        (λ id. omega (arith, count_id-set i m m' macros id e refl, held.distinct id))
        (λ id. elim (Bool-cases (m.id == id)) [
          | inl f ↦
              let q : m.id ≡ id = (nat_eq.beq_iff m.id id).0 f in
              let known : find id macros ≡ some m =
                ap (λ z. find z macros) (sym q) ∙ find-get i m macros e (held.distinct m.id) in
              ap nameless
                (then_part (m.id == id) _ _ _ (lookup-set_enabled m.id enabled (engine sent) id) f)
              ∙ with_enabled-nameless enabled (lookup id (engine sent).macros) m
                  (held.same id ∙ ap nameless known)
              ∙ ap nameless (
                  sym (
                    then_part (m.id == id) _ _ _
                      (find-set i m m' macros id e refl (held.distinct m.id)) f))
          | inr f ↦
              ap nameless
                (else_part (m.id == id) _ _ _ (lookup-set_enabled m.id enabled (engine sent) id) f)
              ∙ held.same id
              ∙ ap nameless (
                  sym (
                    else_part (m.id == id) _ _ _
                      (find-set i m m' macros id e refl (held.distinct m.id)) f))
        ])
        tt held.indexed

  pub rename-IsHeld :
      (i : ℕ) (m : Macro) (new_name : String)
      → get i macros ≡ some m
      → IsHeld (set i (record m { name = new_name }) macros) sent
  rename-IsHeld i m new_name e =
      let m' : Macro = record m { name = new_name } in
      let renamed : (id : MacroId)
          → nameless (find id macros) ≡ nameless (find id (set i m' macros)) =
        λ id. elim (Bool-cases (m.id == id)) [
          | inl f ↦
              let q : m.id ≡ id = (nat_eq.beq_iff m.id id).0 f in
              ap nameless
                (ap (λ z. find z macros) (sym q) ∙ find-get i m macros e (held.distinct m.id))
              ∙ ap nameless (
                  sym (
                    then_part (m.id == id) _ _ _
                      (find-set i m m' macros id e refl (held.distinct m.id)) f))
          | inr f ↦ ap nameless (
              sym (
                else_part (m.id == id) _ _ _ (find-set i m m' macros id e refl (held.distinct m.id))
                  f))
        ] in
      record {
        distinct = λ id. omega (arith, count_id-set i m m' macros id e refl, held.distinct id);
        same = λ id. held.same id ∙ renamed id;
        indexed = held.indexed;
      }
