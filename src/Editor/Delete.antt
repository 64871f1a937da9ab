-- ===== src/Editor/Delete.antt =====
-- crates/app/src/tree_model.rs: `delete_constraint_at`.
use ko_rkuma.Prelude.{
  ℕ, suc, ◌+◌, true, ◌||◌, ◌≡◌, Option, none, some, ◌==◌, nat_eq, if◌then◌else◌, arith,
}
use ko_rkuma.Domain.{ConstraintExpr, Exprs}
use ko_rkuma.Editor.{Edited, unchanged}
use ko_rkuma.Editor.Positions.{constraint_subtree_size, exprs_size, skip_count, skip_count-size}

unfoldable pub simplify_and : Exprs → ConstraintExpr
simplify_and Exprs.nil = ConstraintExpr.always
simplify_and (Exprs.cons e Exprs.nil) = e
simplify_and children = ConstraintExpr.all children

unfoldable pub simplify_or : Exprs → ConstraintExpr
simplify_or Exprs.nil = ConstraintExpr.always
simplify_or (Exprs.cons e Exprs.nil) = e
simplify_or children = ConstraintExpr.any children

abbrev pub push_kept : Option ConstraintExpr → Exprs → Exprs
push_kept none exprs = exprs
push_kept (some e) exprs = Exprs.cons e exprs

-- A `Not` whose operand is deleted.
abbrev pub negate_kept : Option ConstraintExpr → ConstraintExpr
negate_kept none = ConstraintExpr.always
negate_kept (some e) = ConstraintExpr.not_ e

abbrev pub unwrap_or_always : Option ConstraintExpr → ConstraintExpr
unwrap_or_always none = ConstraintExpr.always
unwrap_or_always (some e) = e

-- A node that is kept, with the counter and the mark of the pass over its operands.
abbrev pub kept : {S : Type 0} → (S → ConstraintExpr) → Edited S → Edited (Option ConstraintExpr)
kept node r = record { result = some (node r.result); found = r.found; counter = r.counter }

module _ (target : ℕ) where
  -- The test of the position; `below` is what becomes of the operands.
  unfoldable pub delete_here :
      ConstraintExpr → ℕ → Edited (Option ConstraintExpr) → Edited (Option ConstraintExpr)
  unfolding skip_count
  delete_here e pos below =
      if pos == target
      then record { result = none; found = true; counter = skip_count e (suc pos) }
      else below

  unfoldable mutual
    unfolding delete_here simplify_and simplify_or

    pub delete_constraint_rec : ConstraintExpr → ℕ → Edited (Option ConstraintExpr)
    delete_constraint_rec ConstraintExpr.always pos =
        delete_here ConstraintExpr.always pos (unchanged (some ConstraintExpr.always) (suc pos))
    delete_constraint_rec (ConstraintExpr.leaf c) pos =
        delete_here (ConstraintExpr.leaf c) pos (unchanged (some (ConstraintExpr.leaf c)) (suc pos))
    delete_constraint_rec (ConstraintExpr.not_ e) pos =
        delete_here (ConstraintExpr.not_ e) pos
          (kept negate_kept (delete_constraint_rec e (suc pos)))
    delete_constraint_rec (ConstraintExpr.all exprs) pos =
        delete_here (ConstraintExpr.all exprs) pos
          (kept simplify_and (delete_group_children exprs (suc pos)))
    delete_constraint_rec (ConstraintExpr.any exprs) pos =
        delete_here (ConstraintExpr.any exprs) pos
          (kept simplify_or (delete_group_children exprs (suc pos)))

    pub delete_group_children : Exprs → ℕ → Edited Exprs
    delete_group_children Exprs.nil counter = unchanged Exprs.nil counter
    delete_group_children (Exprs.cons e exprs) counter =
        let r = delete_constraint_rec e counter in
        let rest = delete_group_children exprs r.counter in
        record {
          result = push_kept r.result rest.result;
          found = r.found || rest.found;
          counter = rest.counter;
        }

unfoldable pub delete_constraint_at : ConstraintExpr → ℕ → ConstraintExpr
unfolding delete_constraint_rec
delete_constraint_at root pos = unwrap_or_always (delete_constraint_rec pos root 0).result

module _ (target : ℕ) where
  counter-delete_here :
      (e : ConstraintExpr) (pos : ℕ) (below : Edited (Option ConstraintExpr))
      → below.counter ≡ pos + constraint_subtree_size e
      → (delete_here target e pos below).counter ≡ pos + constraint_subtree_size e
  unfolding delete_here
  counter-delete_here e pos below h = ground (arith, h, skip_count-size e (suc pos))

  mutual
    unfolding delete_constraint_rec constraint_subtree_size

    pub counter-delete :
        (e : ConstraintExpr) (pos : ℕ)
        → (delete_constraint_rec target e pos).counter ≡ pos + constraint_subtree_size e
    counter-delete ConstraintExpr.always pos =
        counter-delete_here ConstraintExpr.always pos _ (omega arith)
    counter-delete (ConstraintExpr.leaf c) pos =
        counter-delete_here (ConstraintExpr.leaf c) pos _ (omega arith)
    counter-delete (ConstraintExpr.not_ e) pos =
        counter-delete_here (ConstraintExpr.not_ e) pos _
          (omega (arith, counter-delete e (suc pos)))
    counter-delete (ConstraintExpr.all exprs) pos =
        counter-delete_here (ConstraintExpr.all exprs) pos _
          (omega (arith, counter-delete_children exprs (suc pos)))
    counter-delete (ConstraintExpr.any exprs) pos =
        counter-delete_here (ConstraintExpr.any exprs) pos _
          (omega (arith, counter-delete_children exprs (suc pos)))

    counter-delete_children :
        (exprs : Exprs) (pos : ℕ)
        → (delete_group_children target exprs pos).counter ≡ pos + exprs_size exprs
    counter-delete_children Exprs.nil pos = omega arith
    counter-delete_children (Exprs.cons e exprs) pos =
        let r = delete_constraint_rec target e pos in
        omega (arith, counter-delete e pos, counter-delete_children exprs r.counter)
