-- ===== src/Hooks/Subset.antt =====
-- Lists of texts as sets.
use ko_rkuma.Prelude.{
  suc, ◌≤◌, true, false, ◌≡◌, refl, String, List, [], ◌∷◌, contains, length, ◌==◌, string_eq, arith,
  if◌then◌else◌, Bool-cases, inl, inr, ap,
}

abbrev pub AllDistinct : List String → Type 0
AllDistinct [] = Unit
AllDistinct (x ∷ xs) = (contains xs x ≡ false) × AllDistinct xs

abbrev pub IsSubset : List String → List String → Type 0
IsSubset xs ys = (s : String) → contains xs s ≡ true → contains ys s ≡ true

-- The list without the first occurrence of a text.
unfoldable remove_one : String → List String → List String
remove_one x [] = []
remove_one x (y ∷ ys) = let rest = remove_one x ys in if y == x then ys else y ∷ rest

length-remove_one :
    (x : String) (ys : List String)
    → contains ys x ≡ true
    → suc (length (remove_one x ys)) ≡ length ys
unfolding contains remove_one
length-remove_one x [] e = cc
length-remove_one x (y ∷ ys) e = ground (arith, e, length-remove_one x ys)

contains-remove_one :
    (x z : String) (ys : List String)
    → (x == z) ≡ false
    → contains (remove_one x ys) z ≡ contains ys z
unfolding contains remove_one
contains-remove_one x z [] e = refl
contains-remove_one x z (y ∷ ys) e = ground (
  arith,
  e,
  contains-remove_one x z ys e,
  string_eq.beq_iff y x,
  string_eq.beq_iff y z,
  string_eq.beq_iff x z,
)

-- What is left of a subset lies in what is left of the set.
subset-remove_one :
    (x : String) (xs ys : List String)
    → contains xs x ≡ false
    → IsSubset (x ∷ xs) ys
    → IsSubset xs (remove_one x ys)
unfolding contains
subset-remove_one x xs ys fresh sub s held = elim (Bool-cases (x == s)) [
  | inl e ↦ let q : x ≡ s = (string_eq.beq_iff x s).0 e in let clash = ap (contains xs) q in cc
  | inr e ↦ ground (arith, contains-remove_one x s ys e, sub s, held, e)
]

pub length-subset : (xs ys : List String) → AllDistinct xs → IsSubset xs ys → length xs ≤ length ys
unfolding contains
length-subset [] ys distinct sub = omega arith
length-subset (x ∷ xs) ys distinct sub =
    let below =
      length-subset xs (remove_one x ys) distinct.1 (subset-remove_one x xs ys distinct.0 sub) in
    omega (arith, below, length-remove_one x ys (sub x (ground (arith, string_eq.beq_iff x x))))

-- A subset with no repetition that is as long as the set is the set.
pub subset-full :
    (xs ys : List String) → AllDistinct xs → IsSubset xs ys → length xs ≡ length ys → IsSubset ys xs
unfolding contains
subset-full [] [] distinct sub e s held = held
subset-full [] (y ∷ ys) distinct sub e s held = ground (arith, e)
subset-full (x ∷ xs) ys distinct sub e s held = elim (Bool-cases (x == s)) [
  | inl f ↦ ground (arith, f)
  | inr f ↦
      let here = sub x (ground (arith, string_eq.beq_iff x x)) in
      let below =
        subset-full xs (remove_one x ys) distinct.1 (subset-remove_one x xs ys distinct.0 sub)
          (omega (arith, e, length-remove_one x ys here)) s in
      ground (arith, f, below, contains-remove_one x s ys f, held)
]
