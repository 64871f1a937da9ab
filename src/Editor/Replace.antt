-- ===== src/Editor/Replace.antt =====
-- crates/app/src/tree_model.rs: `update_constraint_leaf`, with `serde_json::from_str` as the
-- parameter `from_json`.
use ko_rkuma.Prelude.{
  ℕ, suc, ◌+◌, true, ◌&&◌, ◌||◌, ◌≡◌, refl, sym, ap, ◌∙◌, String, List, [], ◌∷◌, ◌++◌, Option, none,
  some, length, ◌==◌, nat_eq, string_eq, if◌then◌else◌, Option-cases, inl, inr, arith,
}
use ko_rkuma.Domain.{ConstraintConfig, ConstraintExpr, Exprs}
use ko_rkuma.Editor.{Edited, unchanged, in_node}
use ko_rkuma.Editor.Rows.{ConstraintTreeRow, leaf_row, count_exprs, flatten_constraint}
use ko_rkuma.Editor.Positions.{
  constraint_subtree_size, exprs_size, rows_of, rows_of_all, length-rows_of,
  flatten_constraint-rows,
}

module _ (target : ℕ) (new_cfg : ConstraintConfig) where
  unfoldable mutual
    pub replace_leaf_rec : ConstraintExpr → ℕ → Edited ConstraintExpr
    replace_leaf_rec ConstraintExpr.always pos = unchanged ConstraintExpr.always (suc pos)
    replace_leaf_rec (ConstraintExpr.leaf c) pos =
        if pos == target
        then record { result = ConstraintExpr.leaf new_cfg; found = true; counter = suc pos }
        else unchanged (ConstraintExpr.leaf c) (suc pos)
    replace_leaf_rec (ConstraintExpr.not_ e) pos =
        in_node ConstraintExpr.not_ (replace_leaf_rec e (suc pos))
    replace_leaf_rec (ConstraintExpr.all exprs) pos =
        in_node ConstraintExpr.all (replace_leaves exprs (suc pos))
    replace_leaf_rec (ConstraintExpr.any exprs) pos =
        in_node ConstraintExpr.any (replace_leaves exprs (suc pos))

    -- The loop over the operands.
    pub replace_leaves : Exprs → ℕ → Edited Exprs
    replace_leaves Exprs.nil counter = unchanged Exprs.nil counter
    replace_leaves (Exprs.cons e exprs) counter =
        let r = replace_leaf_rec e counter in
        let rest = replace_leaves exprs r.counter in
        record {
          result = Exprs.cons r.result rest.result;
          found = r.found || rest.found;
          counter = rest.counter;
        }

unfoldable pub update_constraint_leaf :
    (String → Option ConstraintConfig) → ConstraintExpr → ℕ → String → ConstraintExpr
unfolding replace_leaf_rec
update_constraint_leaf from_json root pos new_json = elim (from_json new_json) [
  | none ↦ root
  | some new_cfg ↦ (replace_leaf_rec pos new_cfg root 0).result
]

module _ (to_json : ConstraintConfig → String) (target : ℕ) (new_cfg : ConstraintConfig) where
  -- The row at `target` shows the new leaf, if it is the row of a leaf.
  unfoldable pub patch : ℕ → List ConstraintTreeRow → List ConstraintTreeRow
  patch pos [] = []
  patch pos (row ∷ rows) =
      (if pos == target && row.kind == "Leaf" then leaf_row to_json row.depth new_cfg else row)
      ∷ patch (suc pos) rows

  patch-append :
      (pos : ℕ) (xs ys : List ConstraintTreeRow)
      → patch pos (xs ++ ys) ≡ patch pos xs ++ patch (pos + length xs) ys
  unfolding patch
  patch-append pos [] ys = ap (λ (n : ℕ). patch n ys) (omega arith)
  patch-append pos (row ∷ xs) ys =
      let here =
        if pos == target && row.kind == "Leaf" then leaf_row to_json row.depth new_cfg else row in
      ap (λ rows. here ∷ rows)
        (patch-append (suc pos) xs ys
          ∙ ap (λ (n : ℕ). patch (suc pos) xs ++ patch n ys) (omega arith))

  count_exprs-replace :
      (exprs : Exprs) (pos : ℕ)
      → count_exprs (replace_leaves target new_cfg exprs pos).result ≡ count_exprs exprs
  unfolding replace_leaf_rec count_exprs
  count_exprs-replace Exprs.nil pos = refl
  count_exprs-replace (Exprs.cons e exprs) pos = ap suc (count_exprs-replace exprs _)

  mutual
    unfolding replace_leaf_rec constraint_subtree_size

    pub counter-replace :
        (e : ConstraintExpr) (pos : ℕ)
        → (replace_leaf_rec target new_cfg e pos).counter ≡ pos + constraint_subtree_size e
    counter-replace ConstraintExpr.always pos = omega arith
    counter-replace (ConstraintExpr.leaf c) pos = ground arith
    counter-replace (ConstraintExpr.not_ e) pos = omega (arith, counter-replace e (suc pos))
    counter-replace (ConstraintExpr.all exprs) pos =
        omega (arith, counter-replace_leaves exprs (suc pos))
    counter-replace (ConstraintExpr.any exprs) pos =
        omega (arith, counter-replace_leaves exprs (suc pos))

    counter-replace_leaves :
        (exprs : Exprs) (pos : ℕ)
        → (replace_leaves target new_cfg exprs pos).counter ≡ pos + exprs_size exprs
    counter-replace_leaves Exprs.nil pos = omega arith
    counter-replace_leaves (Exprs.cons e exprs) pos =
        let r = replace_leaf_rec target new_cfg e pos in
        omega (arith, counter-replace e pos, counter-replace_leaves exprs r.counter)

  mutual
    unfolding replace_leaf_rec rows_of patch

    rows-replace :
        (e : ConstraintExpr) (pos depth : ℕ)
        → rows_of to_json (replace_leaf_rec target new_cfg e pos).result depth
          ≡ patch pos (rows_of to_json e depth)
    rows-replace ConstraintExpr.always pos depth = ground arith
    rows-replace (ConstraintExpr.leaf c) pos depth = ground arith
    rows-replace (ConstraintExpr.not_ e) pos depth =
        ground (arith, rows-replace e (suc pos) (suc depth))
    rows-replace (ConstraintExpr.all exprs) pos depth = ground (
      arith,
      rows-replace_leaves exprs (suc pos) (suc depth),
      count_exprs-replace exprs (suc pos),
    )
    rows-replace (ConstraintExpr.any exprs) pos depth = ground (
      arith,
      rows-replace_leaves exprs (suc pos) (suc depth),
      count_exprs-replace exprs (suc pos),
    )

    rows-replace_leaves :
        (exprs : Exprs) (pos depth : ℕ)
        → rows_of_all to_json (replace_leaves target new_cfg exprs pos).result depth
          ≡ patch pos (rows_of_all to_json exprs depth)
    rows-replace_leaves Exprs.nil pos depth = refl
    rows-replace_leaves (Exprs.cons e exprs) pos depth =
        let r = replace_leaf_rec target new_cfg e pos in
        let end : r.counter ≡ pos + length (rows_of to_json e depth) =
          counter-replace e pos ∙ ap (λ (n : ℕ). pos + n) (sym (length-rows_of to_json e depth)) in
        rw (rows-replace e pos depth, rows-replace_leaves exprs r.counter depth)
          (sym (
            patch-append pos (rows_of to_json e depth) (rows_of_all to_json exprs depth)
            ∙ ap
                (λ (n : ℕ).
                  patch pos (rows_of to_json e depth) ++ patch n (rows_of_all to_json exprs depth))
                (sym end)))

-- What the rows of the tree become, where the text is a configuration and where it is not.
abbrev pub patched :
    (ConstraintConfig → String)
    → Option ConstraintConfig
    → ℕ
    → List ConstraintTreeRow
    → List ConstraintTreeRow
patched to_json none target rows = rows
patched to_json (some new_cfg) target rows = patch to_json target new_cfg 0 rows

-- Updating a leaf changes exactly the row that it is called with: the row at that position shows the
-- new configuration if it is the row of a leaf, and every other row stays, as do all rows where the
-- position is another node or outside the tree, or where the text is not a configuration.
pub flatten-update_constraint_leaf :
    (to_json : ConstraintConfig → String) (from_json : String → Option ConstraintConfig)
    (root : ConstraintExpr) (pos : ℕ) (new_json : String)
    → flatten_constraint to_json (update_constraint_leaf from_json root pos new_json)
      ≡ patched to_json (from_json new_json) pos (flatten_constraint to_json root)
unfolding update_constraint_leaf
flatten-update_constraint_leaf to_json from_json root pos new_json =
    elim (Option-cases (from_json new_json)) [
      | inl e ↦ rw (e, update_constraint_leaf) refl
      | inr (new_cfg, e) ↦
          rw (e, update_constraint_leaf)
            (flatten_constraint-rows to_json (replace_leaf_rec pos new_cfg root 0).result
              ∙ rows-replace to_json pos new_cfg root 0 0
              ∙ ap (patch to_json pos new_cfg 0) (sym (flatten_constraint-rows to_json root)))
    ]
