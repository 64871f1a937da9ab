-- ===== src/App/Find.antt =====
-- The list of macros by id, under what the callbacks do to it.
use ko_rkuma.Prelude.{
  ◌<◌, length, ℕ, zero, suc, ◌+◌, ◌≤◌, ◌≡◌, refl, sym, ap, ◌∙◌, List, [], ◌∷◌, ◌++◌, Option, none,
  some, map, ◌==◌, nat_eq, if◌then◌else◌, Option-cases, inl, inr, arith,
}
use ko_rkuma.Domain.{Macro, MacroId}
use ko_rkuma.App.State.{MacroItem, get, set, remove_at, without, item}
use ko_rkuma.App.MacroList.{swap, change_row}

-- The first macro with an id.
unfoldable pub find : MacroId → List Macro → Option Macro
find id [] = none
find id (m ∷ macros) = if m.id == id then some m else find id macros

-- How many macros have an id.
unfoldable pub count_id : MacroId → List Macro → ℕ
count_id id [] = 0
count_id id (m ∷ macros) = (if m.id == id then 1 else 0) + count_id id macros

pub record IsDistinct (macros : List Macro) : Type 0 where
  pub at_most : (id : MacroId) → count_id id macros ≤ 1

pub count_id-get :
    (i : ℕ) (m : Macro) (macros : List Macro) → get i macros ≡ some m → 1 ≤ count_id m.id macros
unfolding get count_id
count_id-get i m [] e = cc
count_id-get zero m (x ∷ macros) e =
    let f : x ≡ m = cc in ground (arith, ap (λ z. z.id) f, nat_eq.beq_iff x.id m.id)
count_id-get (suc i) m (x ∷ macros) e = ground (arith, count_id-get i m macros e)

pub count_id-set :
    (i : ℕ) (m m' : Macro) (macros : List Macro) (id : MacroId)
    → get i macros ≡ some m
    → m'.id ≡ m.id
    → count_id id (set i m' macros) ≡ count_id id macros
unfolding get set count_id
count_id-set i m m' [] id e same = cc
count_id-set zero m m' (x ∷ macros) id e same =
    let f : x ≡ m = cc in ground (arith, ap (λ z. z.id) f, same)
count_id-set (suc i) m m' (x ∷ macros) id e same =
    ground (arith, count_id-set i m m' macros id e same)

pub find-set :
    (i : ℕ) (m m' : Macro) (macros : List Macro) (id : MacroId)
    → get i macros ≡ some m
    → m'.id ≡ m.id
    → count_id m.id macros ≤ 1
    → find id (set i m' macros) ≡ (if m.id == id then some m' else find id macros)
unfolding get set find count_id
find-set i m m' [] id e same once = cc
find-set zero m m' (x ∷ macros) id e same once =
    let f : x ≡ m = cc in ground (arith, ap (λ z. z.id) f, same)
find-set (suc i) m m' (x ∷ macros) id e same once = ground (
  arith,
  count_id-get i m macros e,
  find-set i m m' macros id e same,
  nat_eq.beq_iff x.id m.id,
  nat_eq.beq_iff x.id id,
  nat_eq.beq_iff m.id id,
  once,
)

pub find-get :
    (i : ℕ) (m : Macro) (macros : List Macro)
    → get i macros ≡ some m
    → count_id m.id macros ≤ 1
    → find m.id macros ≡ some m
unfolding get find count_id
find-get i m [] e once = cc
find-get zero m (x ∷ macros) e once =
    let f : x ≡ m = cc in ground (arith, e, ap (λ z. z.id) f, nat_eq.beq_iff x.id m.id)
find-get (suc i) m (x ∷ macros) e once =
    ground (arith, count_id-get i m macros e, find-get i m macros e, nat_eq.beq_iff x.id m.id, once)

pub find-absent :
    (id : MacroId) (macros : List Macro) → count_id id macros ≡ 0 → find id macros ≡ none
unfolding find count_id
find-absent id [] e = refl
find-absent id (m ∷ macros) e = ground (arith, e, find-absent id macros)

pub count_id-without :
    (i : ℕ) (m : Macro) (macros : List Macro) (id : MacroId)
    → get i macros ≡ some m
    → (if m.id == id then 1 else 0) + count_id id (without i macros) ≡ count_id id macros
unfolding get without count_id
count_id-without i m [] id e = cc
count_id-without zero m (x ∷ macros) id e = let f : x ≡ m = cc in ground (arith, ap (λ z. z.id) f)
count_id-without (suc i) m (x ∷ macros) id e = ground (arith, count_id-without i m macros id e)

pub find-without :
    (i : ℕ) (m : Macro) (macros : List Macro) (id : MacroId)
    → get i macros ≡ some m
    → count_id m.id macros ≤ 1
    → find id (without i macros) ≡ (if m.id == id then none else find id macros)
unfolding get without find count_id
find-without i m [] id e once = cc
find-without zero m (x ∷ macros) id e once =
    let f : x ≡ m = cc in
    ground (
      arith,
      ap (λ z. z.id) f,
      once,
      find-absent id macros,
      nat_eq.beq_iff m.id id,
      nat_eq.beq_iff x.id m.id,
    )
find-without (suc i) m (x ∷ macros) id e once = ground (
  arith,
  count_id-get i m macros e,
  find-without i m macros id e,
  nat_eq.beq_iff x.id m.id,
  nat_eq.beq_iff x.id id,
  nat_eq.beq_iff m.id id,
  once,
)

pub count_id-append :
    (m : Macro) (macros : List Macro) (id : MacroId)
    → count_id id (macros ++ (m ∷ [])) ≡ count_id id macros + (if m.id == id then 1 else 0)
unfolding count_id
count_id-append m [] id = ground arith
count_id-append m (x ∷ macros) id = ground (arith, count_id-append m macros id)

pub find-append :
    (m : Macro) (macros : List Macro) (id : MacroId)
    → count_id m.id macros ≡ 0
    → find id (macros ++ (m ∷ [])) ≡ (if m.id == id then some m else find id macros)
unfolding find count_id
find-append m [] id e = ground arith
find-append m (x ∷ macros) id e = ground (
  arith,
  e,
  find-append m macros id,
  nat_eq.beq_iff x.id m.id,
  nat_eq.beq_iff x.id id,
  nat_eq.beq_iff m.id id,
)

pub count_id-swap :
    (i : ℕ) (macros macros' : List Macro) (id : MacroId)
    → swap i macros ≡ some macros'
    → count_id id macros' ≡ count_id id macros
unfolding swap count_id
count_id-swap i [] macros' id e = cc
count_id-swap zero (x ∷ []) macros' id e = cc
count_id-swap zero (x ∷ y ∷ macros) macros' id e =
    let f : (y ∷ x ∷ macros) ≡ macros' = cc in ground (arith, ap (count_id id) f)
count_id-swap (suc i) (x ∷ macros) macros' id e = elim (Option-cases (swap i macros)) [
  | inl f ↦ cc
  | inr (ms, f) ↦
      let g : (x ∷ ms) ≡ macros' = cc in
      ground (arith, ap (count_id id) g, count_id-swap i macros ms id f)
]

pub find-swap :
    (i : ℕ) (macros macros' : List Macro) (id : MacroId)
    → swap i macros ≡ some macros'
    → count_id id macros ≤ 1
    → find id macros' ≡ find id macros
unfolding swap find count_id
find-swap i [] macros' id e once = cc
find-swap zero (x ∷ []) macros' id e once = cc
find-swap zero (x ∷ y ∷ macros) macros' id e once =
    let f : (y ∷ x ∷ macros) ≡ macros' = cc in ground (arith, ap (find id) f, once)
find-swap (suc i) (x ∷ macros) macros' id e once = elim (Option-cases (swap i macros)) [
  | inl f ↦ cc
  | inr (ms, f) ↦
      let g : (x ∷ ms) ≡ macros' = cc in
      ground (arith, ap (find id) g, find-swap i macros ms id f, once)
]

-- What the rows of the list become.
pub map-swap :
    (i : ℕ) (macros macros' : List Macro)
    → swap i macros ≡ some macros'
    → swap i (map item macros) ≡ some (map item macros')
unfolding swap
map-swap i [] macros' e = cc
map-swap zero (x ∷ []) macros' e = cc
map-swap zero (x ∷ y ∷ macros) macros' e =
    let f : (y ∷ x ∷ macros) ≡ macros' = cc in ap (λ z. some (map item z)) f
map-swap (suc i) (x ∷ macros) macros' e = elim (Option-cases (swap i macros)) [
  | inl f ↦ cc
  | inr (ms, f) ↦
      let g : (x ∷ ms) ≡ macros' = cc in rw (map-swap i macros ms f) (ap (λ z. some (map item z)) g)
]

pub map-without :
    (i : ℕ) (macros : List Macro) → without i (map item macros) ≡ map item (without i macros)
unfolding without
map-without i [] = refl
map-without zero (x ∷ macros) = refl
map-without (suc i) (x ∷ macros) = ap (λ z. item x ∷ z) (map-without i macros)

pub map-append :
    (m : Macro) (macros : List Macro)
    → map item macros ++ (item m ∷ []) ≡ map item (macros ++ (m ∷ []))
map-append m [] = refl
map-append m (x ∷ macros) = ap (λ z. item x ∷ z) (map-append m macros)

pub map-set :
    (i : ℕ) (m m' : Macro) (macros : List Macro)
    → get i macros ≡ some m
    → item m' ≡ item m
    → map item (set i m' macros) ≡ map item macros
unfolding get set
map-set i m m' [] e same = cc
map-set zero m m' (x ∷ macros) e same =
    let f : x ≡ m = cc in ap (λ z. z ∷ map item macros) (same ∙ ap item (sym f))
map-set (suc i) m m' (x ∷ macros) e same = ap (λ z. item x ∷ z) (map-set i m m' macros e same)

change_row-suc :
    (i : ℕ) (change : MacroItem → MacroItem) (row : MacroItem) (rows : List MacroItem)
    → change_row (suc i) change (row ∷ rows) ≡ row ∷ change_row i change rows
unfolding change_row get set
change_row-suc i change row rows = elim (Option-cases (get i rows)) [
  | inl e ↦ rw (e, change_row) refl
  | inr (r, e) ↦ rw (e, change_row) refl
]

pub map-change_row :
    (i : ℕ) (m m' : Macro) (change : MacroItem → MacroItem) (macros : List Macro)
    → get i macros ≡ some m
    → item m' ≡ change (item m)
    → change_row i change (map item macros) ≡ map item (set i m' macros)
unfolding get set change_row
map-change_row i m m' change [] e same = cc
map-change_row zero m m' change (x ∷ macros) e same =
    let f : x ≡ m = cc in ap (λ z. z ∷ map item macros) (ap (λ z. change (item z)) f ∙ sym same)
map-change_row (suc i) m m' change (x ∷ macros) e same =
    change_row-suc i change (item x) (map item macros)
    ∙ ap (λ z. item x ∷ z) (map-change_row i m m' change macros e same)

pub get-in_range : {A : Type 0} (i : ℕ) (xs : List A) {x : A} → get i xs ≡ some x → i < length xs
unfolding get
get-in_range i [] e = cc
get-in_range zero (x ∷ xs) e = omega arith
get-in_range (suc i) (x ∷ xs) e = omega (arith, get-in_range i xs e)

pub remove_at-in_range :
    {A : Type 0} (i : ℕ) (xs : List A) → i < length xs → remove_at i xs ≡ some (without i xs)
unfolding remove_at
remove_at-in_range i xs h = ground (arith, h)

pub length-rows : (macros : List Macro) → length (map item macros) ≡ length macros
length-rows [] = refl
length-rows (m ∷ macros) = ap suc (length-rows macros)
