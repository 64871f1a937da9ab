-- ===== src/Editor/Outside.antt =====
-- What `delete_constraint_at` does to the value of the tree outside the node that it deletes.
use ko_rkuma.Prelude.{
  ℕ, suc, ◌+◌, ◌≤◌, Bool, true, false, not, ◌≡◌, refl, sym, ap, ◌∙◌, Option, some, ok, ◌>>=◌, ◌==◌,
  nat_eq, arith,
}
use ko_rkuma.Domain.{ConstraintExpr, Exprs}
use ko_rkuma.Context.{EvalContext}
use ko_rkuma.Registry.{Registry}
use ko_rkuma.Registry.Evaluate.{evaluate, evaluate_all, evaluate_any}
use ko_rkuma.Editor.{Edited}
use ko_rkuma.Editor.Positions.{constraint_subtree_size, exprs_size}
use ko_rkuma.Editor.Meaning.{and_true, or_false, all_cons, any_cons}
use ko_rkuma.Editor.Delete.{
  simplify_and, simplify_or, delete_here, delete_constraint_rec, delete_group_children,
  delete_constraint_at, counter-delete,
}

abbrev is_empty : Exprs → Bool
is_empty Exprs.nil = true
is_empty (Exprs.cons e exprs) = false

abbrev filled_any : Exprs → ConstraintExpr
filled_any Exprs.nil = ConstraintExpr.always
filled_any (Exprs.cons e exprs) = ConstraintExpr.any (Exprs.cons e exprs)

-- The tree with `Always` in the place of each empty `Any`.
unfoldable mutual
  pub filled : ConstraintExpr → ConstraintExpr
  filled ConstraintExpr.always = ConstraintExpr.always
  filled (ConstraintExpr.leaf c) = ConstraintExpr.leaf c
  filled (ConstraintExpr.not_ e) = ConstraintExpr.not_ (filled e)
  filled (ConstraintExpr.all exprs) = ConstraintExpr.all (filled_in exprs)
  filled (ConstraintExpr.any exprs) = filled_any (filled_in exprs)

  pub filled_in : Exprs → Exprs
  filled_in Exprs.nil = Exprs.nil
  filled_in (Exprs.cons e exprs) = Exprs.cons (filled e) (filled_in exprs)

module _ (ctx : EvalContext) (reg : Registry) where
  evaluate-simplify_and :
      (exprs : Exprs) → evaluate ctx reg (simplify_and exprs) ≡ evaluate_all ctx reg exprs
  unfolding simplify_and evaluate
  evaluate-simplify_and Exprs.nil = refl
  evaluate-simplify_and (Exprs.cons e Exprs.nil) = sym (and_true (evaluate ctx reg e))
  evaluate-simplify_and (Exprs.cons e (Exprs.cons f exprs)) = refl

  evaluate-simplify_or :
      (exprs : Exprs)
      → is_empty exprs ≡ false
      → evaluate ctx reg (simplify_or exprs) ≡ evaluate_any ctx reg exprs
  unfolding simplify_or evaluate
  evaluate-simplify_or Exprs.nil h = cc
  evaluate-simplify_or (Exprs.cons e Exprs.nil) h = sym (or_false (evaluate ctx reg e))
  evaluate-simplify_or (Exprs.cons e (Exprs.cons f exprs)) h = refl

  evaluate-simplify_filled :
      (exprs exprs' : Exprs)
      → is_empty exprs ≡ is_empty exprs'
      → evaluate_any ctx reg exprs ≡ evaluate_any ctx reg exprs'
      → evaluate ctx reg (simplify_or exprs) ≡ evaluate ctx reg (filled_any exprs')
  unfolding simplify_or evaluate
  evaluate-simplify_filled Exprs.nil Exprs.nil e same = refl
  evaluate-simplify_filled Exprs.nil (Exprs.cons f exprs') e same = cc
  evaluate-simplify_filled (Exprs.cons f exprs) Exprs.nil e same = cc
  evaluate-simplify_filled (Exprs.cons f exprs) (Exprs.cons f' exprs') e same =
      evaluate-simplify_or (Exprs.cons f exprs) refl ∙ same

  -- A pass that deletes nothing returns a tree with the value of the filled one.
  pub record Kept (r : Edited (Option ConstraintExpr)) (e : ConstraintExpr) : Type 0 where
    pub tree : ConstraintExpr
    pub is_tree : r.result ≡ some tree
    pub same : evaluate ctx reg tree ≡ evaluate ctx reg (filled e)
    pub not_found : r.found ≡ false

  pub record KeptAll (r : Edited Exprs) (exprs : Exprs) : Type 0 where
    pub same_all : evaluate_all ctx reg r.result ≡ evaluate_all ctx reg (filled_in exprs)
    pub same_any : evaluate_any ctx reg r.result ≡ evaluate_any ctx reg (filled_in exprs)
    pub same_empty : is_empty r.result ≡ is_empty (filled_in exprs)
    pub not_found : r.found ≡ false

  module _ (target : ℕ) where
    Kept-here :
        (e : ConstraintExpr) (pos : ℕ) (below : Edited (Option ConstraintExpr))
        → (pos == target) ≡ false
        → Kept below e
        → Kept (delete_here target e pos below) e
    unfolding delete_here
    Kept-here e pos below other h = rw (other, delete_here) h

    elsewhere : (pos size : ℕ) → pos + suc size ≤ target → (pos == target) ≡ false
    elsewhere pos size h = ground (arith, h)

    mutual
      unfolding delete_constraint_rec constraint_subtree_size filled evaluate

      delete-Kept :
          (e : ConstraintExpr) (pos : ℕ)
          → pos + constraint_subtree_size e ≤ target
          → Kept (delete_constraint_rec target e pos) e
      delete-Kept ConstraintExpr.always pos out =
          Kept-here ConstraintExpr.always pos _ (elsewhere pos 0 out)
            (record { tree = ConstraintExpr.always; is_tree = refl; same = refl; not_found = refl })
      delete-Kept (ConstraintExpr.leaf c) pos out =
          Kept-here (ConstraintExpr.leaf c) pos _ (elsewhere pos 0 out)
            (record { tree = ConstraintExpr.leaf c; is_tree = refl; same = refl; not_found = refl })
      delete-Kept (ConstraintExpr.not_ e) pos out =
          let k = delete-Kept e (suc pos) (omega (arith, out)) in
          Kept-here (ConstraintExpr.not_ e) pos _ (elsewhere pos (constraint_subtree_size e) out)
            (record {
              tree = ConstraintExpr.not_ k.tree;
              is_tree = rw k.is_tree refl;
              same = ap (λ r. r >>= λ b. ok (not b)) k.same;
              not_found = k.not_found;
            })
      delete-Kept (ConstraintExpr.all exprs) pos out =
          let k = delete-KeptAll exprs (suc pos) (omega (arith, out)) in
          let r = delete_group_children target exprs (suc pos) in
          Kept-here (ConstraintExpr.all exprs) pos _ (elsewhere pos (exprs_size exprs) out)
            (record {
              tree = simplify_and r.result;
              is_tree = refl;
              same = evaluate-simplify_and r.result ∙ k.same_all;
              not_found = k.not_found;
            })
      delete-Kept (ConstraintExpr.any exprs) pos out =
          let k = delete-KeptAll exprs (suc pos) (omega (arith, out)) in
          let r = delete_group_children target exprs (suc pos) in
          Kept-here (ConstraintExpr.any exprs) pos _ (elsewhere pos (exprs_size exprs) out)
            (record {
              tree = simplify_or r.result;
              is_tree = refl;
              same = evaluate-simplify_filled r.result (filled_in exprs) k.same_empty k.same_any;
              not_found = k.not_found;
            })

      delete-KeptAll :
          (exprs : Exprs) (pos : ℕ)
          → pos + exprs_size exprs ≤ target
          → KeptAll (delete_group_children target exprs pos) exprs
      delete-KeptAll Exprs.nil pos out = record {
        same_all = refl;
        same_any = refl;
        same_empty = refl;
        not_found = refl;
      }
      delete-KeptAll (Exprs.cons e exprs) pos out =
          let r = delete_constraint_rec target e pos in
          let rest = (delete_group_children target exprs r.counter).result in
          let k = delete-Kept e pos (omega (arith, out)) in
          let ks =
            delete-KeptAll exprs r.counter (omega (arith, out, counter-delete target e pos)) in
          record {
            same_all =
                rw k.is_tree
                  (all_cons ctx reg k.tree (filled e) rest (filled_in exprs) k.same ks.same_all);
            same_any =
                rw k.is_tree
                  (any_cons ctx reg k.tree (filled e) rest (filled_in exprs) k.same ks.same_any);
            same_empty = rw k.is_tree refl;
            not_found = ground (arith, k.not_found, ks.not_found);
          }

-- A deletion at a position outside the tree, which deletes nothing, still simplifies the tree: the
-- new tree has the value and the errors of the old one in which every empty `Any`, which is false,
-- is replaced by `Always`, which is true. So it keeps the value of a tree without an empty `Any`.
pub evaluate-delete_filled :
    (ctx : EvalContext) (reg : Registry) (root : ConstraintExpr) (target : ℕ)
    → constraint_subtree_size root ≤ target
    → evaluate ctx reg (delete_constraint_at root target) ≡ evaluate ctx reg (filled root)
unfolding delete_constraint_at
evaluate-delete_filled ctx reg root target out =
    let k = delete-Kept ctx reg target root 0 (omega (arith, out)) in rw k.is_tree k.same
