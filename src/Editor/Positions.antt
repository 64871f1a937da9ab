-- ===== src/Editor/Positions.antt =====
-- The rows of a constraint tree in closed form, and the three ways in which
-- crates/app/src/tree_model.rs counts positions.
use mathlib.Core.List.{append_assoc, append-nil}
use ko_rkuma.Prelude.{
  ℕ, suc, ◌+◌, ◌≡◌, refl, sym, ap, ◌∙◌, String, List, [], ◌∷◌, ◌++◌, length, length-append, arith,
}
use ko_rkuma.Domain.{ConstraintConfig, ConstraintExpr, Exprs}
use ko_rkuma.Editor.Rows.{
  Piece, ConstraintTreeRow, plain_row, leaf_row, counted, count_exprs, flatten_constraint_rec,
  flatten_exprs, flatten_constraint,
}

unfoldable mutual
  pub constraint_subtree_size : ConstraintExpr → ℕ
  constraint_subtree_size ConstraintExpr.always = 1
  constraint_subtree_size (ConstraintExpr.leaf c) = 1
  constraint_subtree_size (ConstraintExpr.not_ e) = suc (constraint_subtree_size e)
  constraint_subtree_size (ConstraintExpr.all exprs) = suc (exprs_size exprs)
  constraint_subtree_size (ConstraintExpr.any exprs) = suc (exprs_size exprs)

  -- `exprs.iter().map(constraint_subtree_size).sum()`
  pub exprs_size : Exprs → ℕ
  exprs_size Exprs.nil = 0
  exprs_size (Exprs.cons e exprs) = constraint_subtree_size e + exprs_size exprs

unfoldable mutual
  pub skip_count : ConstraintExpr → ℕ → ℕ
  skip_count ConstraintExpr.always counter = counter
  skip_count (ConstraintExpr.leaf c) counter = counter
  skip_count (ConstraintExpr.not_ e) counter = skip_count e (suc counter)
  skip_count (ConstraintExpr.all exprs) counter = skip_exprs exprs counter
  skip_count (ConstraintExpr.any exprs) counter = skip_exprs exprs counter

  pub skip_exprs : Exprs → ℕ → ℕ
  skip_exprs Exprs.nil counter = counter
  skip_exprs (Exprs.cons e exprs) counter = skip_exprs exprs (skip_count e (suc counter))

mutual
  unfolding skip_count constraint_subtree_size

  pub skip_count-size :
      (e : ConstraintExpr) (counter : ℕ)
      → suc (skip_count e counter) ≡ counter + constraint_subtree_size e
  skip_count-size ConstraintExpr.always counter = omega arith
  skip_count-size (ConstraintExpr.leaf c) counter = omega arith
  skip_count-size (ConstraintExpr.not_ e) counter = omega (arith, skip_count-size e (suc counter))
  skip_count-size (ConstraintExpr.all exprs) counter = omega (arith, skip_exprs-size exprs counter)
  skip_count-size (ConstraintExpr.any exprs) counter = omega (arith, skip_exprs-size exprs counter)

  skip_exprs-size :
      (exprs : Exprs) (counter : ℕ) → skip_exprs exprs counter ≡ counter + exprs_size exprs
  skip_exprs-size Exprs.nil counter = omega arith
  skip_exprs-size (Exprs.cons e exprs) counter =
      omega
        (arith, skip_count-size e (suc counter), skip_exprs-size exprs (skip_count e (suc counter)))

module _ (to_json : ConstraintConfig → String) where
  -- The rows with no accumulator.
  unfoldable mutual
    pub rows_of : ConstraintExpr → ℕ → List ConstraintTreeRow
    rows_of ConstraintExpr.always depth =
        plain_row depth "Always" (Piece.text "(always — no constraint)" ∷ []) ∷ []
    rows_of (ConstraintExpr.leaf c) depth = leaf_row to_json depth c ∷ []
    rows_of (ConstraintExpr.not_ e) depth =
        plain_row depth "Not" (Piece.text "NOT" ∷ []) ∷ rows_of e (suc depth)
    rows_of (ConstraintExpr.all exprs) depth =
        plain_row depth "All" (counted "AND" (count_exprs exprs)) ∷ rows_of_all exprs (suc depth)
    rows_of (ConstraintExpr.any exprs) depth =
        plain_row depth "Any" (counted "OR" (count_exprs exprs)) ∷ rows_of_all exprs (suc depth)

    pub rows_of_all : Exprs → ℕ → List ConstraintTreeRow
    rows_of_all Exprs.nil depth = []
    rows_of_all (Exprs.cons e exprs) depth = rows_of e depth ++ rows_of_all exprs depth

  mutual
    unfolding flatten_constraint_rec rows_of

    flatten_lem :
        (e : ConstraintExpr) (depth : ℕ) (rows : List ConstraintTreeRow)
        → flatten_constraint_rec to_json e depth rows ≡ rows ++ rows_of e depth
    flatten_lem ConstraintExpr.always depth rows = refl
    flatten_lem (ConstraintExpr.leaf c) depth rows = refl
    flatten_lem (ConstraintExpr.not_ e) depth rows =
        flatten_lem e (suc depth) _ ∙ append_assoc rows _ _
    flatten_lem (ConstraintExpr.all exprs) depth rows =
        flatten_all_lem exprs (suc depth) _ ∙ append_assoc rows _ _
    flatten_lem (ConstraintExpr.any exprs) depth rows =
        flatten_all_lem exprs (suc depth) _ ∙ append_assoc rows _ _

    flatten_all_lem :
        (exprs : Exprs) (depth : ℕ) (rows : List ConstraintTreeRow)
        → flatten_exprs to_json exprs depth rows ≡ rows ++ rows_of_all exprs depth
    flatten_all_lem Exprs.nil depth rows = sym (append-nil rows)
    flatten_all_lem (Exprs.cons e exprs) depth rows =
        flatten_all_lem exprs depth _
        ∙ ap (λ l. l ++ rows_of_all exprs depth) (flatten_lem e depth rows)
        ∙ append_assoc rows (rows_of e depth) (rows_of_all exprs depth)

  pub flatten_constraint-rows : (e : ConstraintExpr) → flatten_constraint to_json e ≡ rows_of e 0
  unfolding flatten_constraint
  flatten_constraint-rows e = flatten_lem e 0 []

  mutual
    unfolding rows_of constraint_subtree_size

    pub length-rows_of :
        (e : ConstraintExpr) (depth : ℕ) → length (rows_of e depth) ≡ constraint_subtree_size e
    length-rows_of ConstraintExpr.always depth = refl
    length-rows_of (ConstraintExpr.leaf c) depth = refl
    length-rows_of (ConstraintExpr.not_ e) depth = omega (arith, length-rows_of e (suc depth))
    length-rows_of (ConstraintExpr.all exprs) depth =
        omega (arith, length-rows_of_all exprs (suc depth))
    length-rows_of (ConstraintExpr.any exprs) depth =
        omega (arith, length-rows_of_all exprs (suc depth))

    pub length-rows_of_all :
        (exprs : Exprs) (depth : ℕ) → length (rows_of_all exprs depth) ≡ exprs_size exprs
    length-rows_of_all Exprs.nil depth = refl
    length-rows_of_all (Exprs.cons e exprs) depth = omega (
      arith,
      length-append (rows_of e depth) (rows_of_all exprs depth),
      length-rows_of e depth,
      length-rows_of_all exprs depth,
    )
