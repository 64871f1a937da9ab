-- ===== src/Registry/Evaluate.antt =====
-- `ConstraintExpr::evaluate` of crates/core/src/domain.rs.
use ko_rkuma.Prelude.{Bool, true, false, not, Result, ok, err, ◌>>=◌}
use ko_rkuma.Domain.{ConstraintExpr, Exprs, ConstraintConfig, ConstraintError, registry}
use ko_rkuma.Context.{EvalContext}
use ko_rkuma.Registry.{Registry, build_constraint}

module _ (ctx : EvalContext) (reg : Registry) where
  -- `reg.build_constraint(c)?.evaluate(ctx)`: the `?` wraps the error by `From`.
  unfoldable pub evaluate_leaf : ConstraintConfig → Result ConstraintError Bool
  evaluate_leaf c = elim (build_constraint reg c) [
    | ok constraint ↦ constraint.evaluate ctx
    | err e ↦ err (registry e)
  ]

  -- A loop returns at the first operand that decides it, or that fails.
  unfoldable mutual
    unfolding evaluate_leaf

    pub evaluate : ConstraintExpr → Result ConstraintError Bool
    evaluate ConstraintExpr.always = ok true
    evaluate (ConstraintExpr.leaf c) = evaluate_leaf c
    evaluate (ConstraintExpr.not_ e) = evaluate e >>= λ b. ok (not b)
    evaluate (ConstraintExpr.all exprs) = evaluate_all exprs
    evaluate (ConstraintExpr.any exprs) = evaluate_any exprs

    pub evaluate_all : Exprs → Result ConstraintError Bool
    evaluate_all Exprs.nil = ok true
    evaluate_all (Exprs.cons e exprs) =
        evaluate e >>= λ b. elim b [ true ↦ evaluate_all exprs | false ↦ ok false ]

    pub evaluate_any : Exprs → Result ConstraintError Bool
    evaluate_any Exprs.nil = ok false
    evaluate_any (Exprs.cons e exprs) =
        evaluate e >>= λ b. elim b [ true ↦ ok true | false ↦ evaluate_any exprs ]
