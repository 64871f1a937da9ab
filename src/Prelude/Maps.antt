-- ===== src/Prelude/Maps.antt =====
-- `PartialEq`, `Vec::contains` and maps as association lists.
use Prim.Native.Nat.{ℕ}
use Prim.Native.String.{String}
use mathlib.Core.Path.{◌≡◌, refl}
use mathlib.Core.Logic.{◌↔◌, inl, inr}
use mathlib.Core.Bool.{Bool, true, false, ◌||◌, decide, decide_iff}
use mathlib.Core.List.{List, [], ◌∷◌}
use mathlib.Core.Option.{Option, none, some}
use native.Mathlib.Omega.{arith}
use text.Mathlib.Text.{◌==◌ as str_eq}
use text.Mathlib.TextEquality.{eq_iff}
use ko_rkuma.Prelude.Tests.{◌==◌ as nat_beq, ==_iff, if◌then◌else◌, Bool-cases}

-- Equality by a Boolean test.
pub record Eq {ℓ} (T : Type ℓ) : Type ℓ where
  pub beq : T → T → Bool
  pub beq_iff : (x y : T) → (beq x y ≡ true) ↔ (x ≡ y)

-- A derived `PartialEq`.
abbrev pub eq_of_discrete {ℓ} : {T : Type ℓ} → Discrete T → Eq T
eq_of_discrete d = record { beq = λ x y. decide (d x y); beq_iff = λ x y. decide_iff (d x y) }

instance abbrev pub nat_eq : Eq ℕ
nat_eq = record { beq = nat_beq; beq_iff = ==_iff }

pub String-discrete : Discrete String
String-discrete s t = elim (Bool-cases (str_eq s t)) [
  | inl e ↦ yes ((eq_iff s t).0 e)
  | inr e ↦ no (λ p. let q = (eq_iff s t).1 p in cc)
]

instance abbrev pub string_eq : Eq String
string_eq = record { beq = str_eq; beq_iff = eq_iff }

infix 50 ◌==◌
abbrev pub ◌==◌ {ℓ} : {T : Type ℓ} ⦃e : Eq T⦄ → T → T → Bool
◌==◌ ⦃e⦄ = e.beq

module _ {ℓ} {T : Type ℓ} ⦃e : Eq T⦄ where
  -- `Vec::contains`
  unfoldable pub contains : List T → T → Bool
  contains [] t = false
  contains (x ∷ rest) t = x == t || contains rest t

module _ {ℓ κ} {K : Type ℓ} {V : Type κ} ⦃e : Eq K⦄ where
  -- `BTreeMap::get`
  unfoldable pub lookup : K → List (K × V) → Option V
  lookup key [] = none
  lookup key ((other, value) ∷ rest) = if other == key then some value else lookup key rest

  unfoldable pub remove : K → List (K × V) → List (K × V)
  remove key [] = []
  remove key ((other, value) ∷ entries) =
      let rest = remove key entries in if other == key then rest else (other, value) ∷ rest

  unfoldable pub insert : K → V → List (K × V) → List (K × V)
  insert key value [] = (key, value) ∷ []
  insert key value ((other, old) ∷ rest) =
      if other == key then (key, value) ∷ rest else (other, old) ∷ insert key value rest

  pub lookup-remove :
      (key k : K) (entries : List (K × V))
      → lookup k (remove key entries) ≡ (if key == k then none else lookup k entries)
  unfolding lookup remove
  lookup-remove key k [] = ground arith
  lookup-remove key k ((other, value) ∷ rest) =
      let below = lookup-remove key k rest in
      ground (arith, below, e.beq_iff key k, e.beq_iff other key, e.beq_iff other k)

  pub lookup-insert :
      (key k : K) (value : V) (entries : List (K × V))
      → lookup k (insert key value entries) ≡ (if key == k then some value else lookup k entries)
  unfolding lookup insert
  lookup-insert key k value [] = refl
  lookup-insert key k value ((other, old) ∷ rest) =
      let below = lookup-insert key k value rest in
      ground (arith, below, e.beq_iff key k, e.beq_iff other key, e.beq_iff other k)
