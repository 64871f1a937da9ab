-- ===== src/App/Start.antt =====
-- crates/app/src/main.rs: the start of the application.
use ko_rkuma.Prelude.{◌+◌, ◌≤◌, ◌≡◌, refl, sym, ap, ◌∙◌, List, map, [], ◌∷◌, ◌++◌, arith, nat_eq}
use mathlib.Core.List.{append-nil, append_assoc}
use ko_rkuma.Domain.{Macro, MacroId}
use ko_rkuma.Router.Index.{new-IsIndexed}
use ko_rkuma.App.State.{App, item}
use ko_rkuma.App.Watcher.{load_all}
use ko_rkuma.App.Find.{find, count_id, map-append, count_id-append}
use ko_rkuma.App.Engine.{handled}
use ko_rkuma.App.Held.{add-IsHeld}
use ko_rkuma.App.Sync.{IsSynced}

load_more :
    (macros : List Macro) (app : App)
    → ((id : MacroId) → count_id id app.local_macros + count_id id macros ≤ 1)
    → IsSynced app
    → IsSynced (load_all macros app)
unfolding load_all count_id
load_more [] app once s = s
load_more (m ∷ macros) app once s =
    load_more macros _ (λ id. ground (arith, once id, count_id-append m app.local_macros id))
      (record {
        rows = ap (λ z. z ++ (item m ∷ [])) s.rows ∙ map-append m app.local_macros;
        held =
            add-IsHeld app.local_macros app.sent s.held m
              (ground (arith, once m.id, nat_eq.beq_iff m.id m.id));
      })

local_macros-load_all :
    (macros : List Macro) (app : App)
    → (load_all macros app).local_macros ≡ app.local_macros ++ macros
unfolding load_all
local_macros-load_all [] app = sym (append-nil app.local_macros)
local_macros-load_all (m ∷ macros) app =
    local_macros-load_all macros _ ∙ append_assoc app.local_macros (m ∷ []) macros

-- Loading macros with distinct ids into an application that has none, and has sent nothing, leaves
-- it with exactly these macros in their order, with the rows that show them, and with an engine
-- that holds each of them (up to its name) and no other, under an exact index.
pub load_all-IsSynced :
    (macros : List Macro) (app : App)
    → ((id : MacroId) → count_id id macros ≤ 1)
    → app.local_macros ≡ []
    → app.window.macros ≡ []
    → app.sent ≡ []
    → ((load_all macros app).local_macros ≡ macros)
      × ((load_all macros app).window.macros ≡ map item macros)
      × IsSynced (load_all macros app)
unfolding handled find count_id
load_all-IsSynced macros app once none_here no_rows none_sent =
    let s = synced in
    let loaded = local_macros-load_all macros app ∙ rw none_here refl in
    (loaded, s.rows ∙ ap (map item) loaded, s)
  where
    synced : IsSynced (load_all macros app)
    synced =
        load_more macros app (λ id. rw (none_here) (omega (arith, once id)))
          (record {
            rows = rw (none_here, no_rows) refl;
            held =
                rw (none_here, none_sent)
                  (record {
                    distinct = λ id. omega arith;
                    same = λ id. refl;
                    indexed = new-IsIndexed;
                  });
          })
