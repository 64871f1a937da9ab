-- ===== src/Editor/Meaning.antt =====
-- What an edit of a constraint tree does to its value.
use ko_rkuma.Prelude.{
  ℕ, ◌+◌, Bool, true, false, not, ◌≡◌, refl, ap, ◌∙◌, String, Option, Result, ok, err, ◌>>=◌, ◌==◌,
  nat_eq, string_eq, Bool-cases, inl, inr, arith,
}
use ko_rkuma.Domain.{ConstraintConfig, ConstraintExpr, ConstraintError, Exprs}
use ko_rkuma.Context.{EvalContext}
use ko_rkuma.Registry.{Registry}
use ko_rkuma.Registry.Evaluate.{evaluate, evaluate_leaf, evaluate_all, evaluate_any}
use ko_rkuma.Editor.{
  push, add_constraint_leaf, wrap_and, wrap_or, wrap_expr, Edited, wrap_constraint_rec, wrap_here,
  wrap_constraint_children_rec, wrap_constraint_at, unwrap_or_root,
}

-- The second operand is evaluated if the first one is true.
abbrev pub both :
    Result ConstraintError Bool → Result ConstraintError Bool → Result ConstraintError Bool
both r s = r >>= λ b. elim b [ true ↦ s | false ↦ ok false ]

-- The second operand is evaluated if the first one is false.
abbrev pub one_of :
    Result ConstraintError Bool → Result ConstraintError Bool → Result ConstraintError Bool
one_of r s = r >>= λ b. elim b [ true ↦ ok true | false ↦ s ]

pub and_true : (r : Result ConstraintError Bool) → both r (ok true) ≡ r
and_true (ok true) = refl
and_true (ok false) = refl
and_true (err e) = refl

pub or_false :
    (r : Result ConstraintError Bool)
    → (r >>= λ b. elim b [ true ↦ ok true | false ↦ ok false ]) ≡ r
or_false (ok true) = refl
or_false (ok false) = refl
or_false (err e) = refl

both_assoc : (r s t : Result ConstraintError Bool) → both r (both s t) ≡ both (both r s) t
both_assoc (ok true) s t = refl
both_assoc (ok false) s t = refl
both_assoc (err e) s t = refl

module _ (ctx : EvalContext) (reg : Registry) where
  evaluate_all-push :
      (e : ConstraintExpr) (exprs : Exprs)
      → evaluate_all ctx reg (push e exprs) ≡ both (evaluate_all ctx reg exprs) (evaluate ctx reg e)
  unfolding push evaluate
  evaluate_all-push e Exprs.nil = and_true (evaluate ctx reg e)
  evaluate_all-push e (Exprs.cons x exprs) =
      ap (both (evaluate ctx reg x)) (evaluate_all-push e exprs)
      ∙ both_assoc (evaluate ctx reg x) (evaluate_all ctx reg exprs) (evaluate ctx reg e)

  pub all_cons :
      (e e' : ConstraintExpr) (xs xs' : Exprs)
      → evaluate ctx reg e ≡ evaluate ctx reg e'
      → evaluate_all ctx reg xs ≡ evaluate_all ctx reg xs'
      → evaluate_all ctx reg (Exprs.cons e xs) ≡ evaluate_all ctx reg (Exprs.cons e' xs')
  unfolding evaluate
  all_cons e e' xs xs' p q =
      ap (both (evaluate ctx reg e)) q ∙ ap (λ r. both r (evaluate_all ctx reg xs')) p

  pub any_cons :
      (e e' : ConstraintExpr) (xs xs' : Exprs)
      → evaluate ctx reg e ≡ evaluate ctx reg e'
      → evaluate_any ctx reg xs ≡ evaluate_any ctx reg xs'
      → evaluate_any ctx reg (Exprs.cons e xs) ≡ evaluate_any ctx reg (Exprs.cons e' xs')
  unfolding evaluate
  any_cons e e' xs xs' p q =
      ap (one_of (evaluate ctx reg e)) q ∙ ap (λ r. one_of r (evaluate_any ctx reg xs')) p

  pair_all :
      (root : ConstraintExpr) (leaf : ConstraintConfig)
      → evaluate_all ctx reg (Exprs.cons root (Exprs.cons (ConstraintExpr.leaf leaf) Exprs.nil))
        ≡ both (evaluate ctx reg root) (evaluate_leaf ctx reg leaf)
  unfolding evaluate
  pair_all root leaf = ap (both (evaluate ctx reg root)) (and_true (evaluate_leaf ctx reg leaf))

-- Adding a leaf to a constraint is conjunction: the new tree evaluates the old one, and then the
-- leaf if that is true. Errors come out as they do there.
pub evaluate-add_constraint_leaf :
    (ctx : EvalContext) (reg : Registry) (root : ConstraintExpr) (leaf : ConstraintConfig)
    → evaluate ctx reg (add_constraint_leaf root leaf)
      ≡ both (evaluate ctx reg root) (evaluate_leaf ctx reg leaf)
unfolding add_constraint_leaf evaluate
evaluate-add_constraint_leaf ctx reg ConstraintExpr.always leaf = refl
evaluate-add_constraint_leaf ctx reg (ConstraintExpr.all exprs) leaf =
    evaluate_all-push ctx reg (ConstraintExpr.leaf leaf) exprs
evaluate-add_constraint_leaf ctx reg (ConstraintExpr.leaf c) leaf =
    pair_all ctx reg (ConstraintExpr.leaf c) leaf
evaluate-add_constraint_leaf ctx reg (ConstraintExpr.not_ e) leaf =
    pair_all ctx reg (ConstraintExpr.not_ e) leaf
evaluate-add_constraint_leaf ctx reg (ConstraintExpr.any exprs) leaf =
    pair_all ctx reg (ConstraintExpr.any exprs) leaf

module _ (ctx : EvalContext) (reg : Registry) (target : ℕ) (kind : String)
    (other : (kind == "Not") ≡ false) where
  evaluate-wrap_and : (e : ConstraintExpr) → evaluate ctx reg (wrap_and e) ≡ evaluate ctx reg e
  unfolding wrap_and evaluate
  evaluate-wrap_and ConstraintExpr.always = refl
  evaluate-wrap_and (ConstraintExpr.leaf c) = and_true _
  evaluate-wrap_and (ConstraintExpr.not_ e) = and_true _
  evaluate-wrap_and (ConstraintExpr.all exprs) = refl
  evaluate-wrap_and (ConstraintExpr.any exprs) = and_true _

  evaluate-wrap_or : (e : ConstraintExpr) → evaluate ctx reg (wrap_or e) ≡ evaluate ctx reg e
  unfolding wrap_or evaluate
  evaluate-wrap_or ConstraintExpr.always = refl
  evaluate-wrap_or (ConstraintExpr.leaf c) = or_false _
  evaluate-wrap_or (ConstraintExpr.not_ e) = or_false _
  evaluate-wrap_or (ConstraintExpr.all exprs) = or_false _
  evaluate-wrap_or (ConstraintExpr.any exprs) = refl

  evaluate-wrap_expr :
      (e : ConstraintExpr) → evaluate ctx reg (wrap_expr e kind) ≡ evaluate ctx reg e
  unfolding wrap_expr
  evaluate-wrap_expr e = ground (arith, other, evaluate-wrap_and e, evaluate-wrap_or e)

  evaluate-wrap_here :
      (e : ConstraintExpr) (pos : ℕ) (below : Edited ConstraintExpr)
      → evaluate ctx reg below.result ≡ evaluate ctx reg e
      → evaluate ctx reg (wrap_here target kind e pos below).result ≡ evaluate ctx reg e
  unfolding wrap_here
  evaluate-wrap_here e pos below same = elim (Bool-cases (pos == target)) [
    | inl t ↦ rw (t, wrap_here) (evaluate-wrap_expr e)
    | inr f ↦ rw (f, wrap_here) same
  ]

  mutual
    unfolding wrap_constraint_rec evaluate

    evaluate-wrap_constraint_rec :
        (e : ConstraintExpr) (pos : ℕ)
        → evaluate ctx reg (wrap_constraint_rec target kind e pos).result ≡ evaluate ctx reg e
    evaluate-wrap_constraint_rec ConstraintExpr.always pos =
        evaluate-wrap_here ConstraintExpr.always pos _ refl
    evaluate-wrap_constraint_rec (ConstraintExpr.leaf c) pos =
        evaluate-wrap_here (ConstraintExpr.leaf c) pos _ refl
    evaluate-wrap_constraint_rec (ConstraintExpr.not_ e) pos =
        evaluate-wrap_here (ConstraintExpr.not_ e) pos _
          (ap (λ r. r >>= λ b. ok (not b)) (evaluate-wrap_constraint_rec e (pos + 1)))
    evaluate-wrap_constraint_rec (ConstraintExpr.all exprs) pos =
        evaluate-wrap_here (ConstraintExpr.all exprs) pos _
          (evaluate-wrap_children exprs (pos + 1)).0
    evaluate-wrap_constraint_rec (ConstraintExpr.any exprs) pos =
        evaluate-wrap_here (ConstraintExpr.any exprs) pos _
          (evaluate-wrap_children exprs (pos + 1)).1

    evaluate-wrap_children :
        (exprs : Exprs) (counter : ℕ)
        → let edited = (wrap_constraint_children_rec target kind exprs counter).result in
          (evaluate_all ctx reg edited ≡ evaluate_all ctx reg exprs)
          × (evaluate_any ctx reg edited ≡ evaluate_any ctx reg exprs)
    evaluate-wrap_children Exprs.nil counter = (refl, refl)
    evaluate-wrap_children (Exprs.cons e exprs) counter =
        let r = wrap_constraint_rec target kind e counter in
        let first = evaluate-wrap_constraint_rec e counter in
        let rest = evaluate-wrap_children exprs r.counter in
        let edited = wrap_constraint_children_rec target kind exprs r.counter in
        elim (Bool-cases r.found) [
          | inl t ↦
              rw (t, wrap_constraint_children_rec)
                (
                  all_cons ctx reg r.result e exprs exprs first refl,
                  any_cons ctx reg r.result e exprs exprs first refl,
                )
          | inr f ↦
              rw (f, wrap_constraint_children_rec)
                (
                  all_cons ctx reg r.result e edited.result exprs first rest.0,
                  any_cons ctx reg r.result e edited.result exprs first rest.1,
                )
        ]

-- Wrapping a node of a constraint with AND or OR, or with a kind that does not exist, keeps the
-- value of the whole constraint, its errors included, wherever the node stands and also where the
-- position is outside the tree. The kind must not be "Not".
pub evaluate-wrap_constraint_at :
    (ctx : EvalContext) (reg : Registry) (root : ConstraintExpr) (target : Option ℕ) (kind : String)
    → (kind == "Not") ≡ false
    → evaluate ctx reg (wrap_constraint_at root target kind) ≡ evaluate ctx reg root
unfolding wrap_constraint_at
evaluate-wrap_constraint_at ctx reg root target kind other =
    evaluate-wrap_constraint_rec ctx reg (unwrap_or_root target) kind other root 0
