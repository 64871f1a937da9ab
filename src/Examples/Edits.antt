-- ===== src/Examples/Edits.antt =====
-- The theorems on edits of a constraint tree at a concrete tree, whose leaf no factory builds.
use ko_rkuma.Prelude.{◌≡◌, refl, some, []}
use ko_rkuma.Domain.{ConstraintConfig, ConstraintExpr, Exprs}
use ko_rkuma.Context.{EvalContext}
use ko_rkuma.Registry.Evaluate.{evaluate, evaluate_leaf}
use ko_rkuma.Editor.{add_constraint_leaf, wrap_constraint_at}
use ko_rkuma.Editor.Meaning.{both, evaluate-add_constraint_leaf, evaluate-wrap_constraint_at}
use ko_rkuma.Examples.{builtin_reg, noon}

abbrev pub view : EvalContext
view = record { event = noon; macro_id = 7; store = [] }

abbrev either : ConstraintExpr
either = ConstraintExpr.any (
    Exprs.cons (ConstraintExpr.not_ ConstraintExpr.always)
      (Exprs.cons ConstraintExpr.always Exprs.nil))

evaluate-add_constraint_leaf_example :
    evaluate view builtin_reg (add_constraint_leaf either (ConstraintConfig.expression "x"))
    ≡ both
        (evaluate view builtin_reg either)
        (evaluate_leaf view builtin_reg (ConstraintConfig.expression "x"))
evaluate-add_constraint_leaf_example =
    evaluate-add_constraint_leaf view builtin_reg either (ConstraintConfig.expression "x")

evaluate-wrap_constraint_at_example :
    evaluate view builtin_reg (wrap_constraint_at either (some 2) "Or")
    ≡ evaluate view builtin_reg either
evaluate-wrap_constraint_at_example =
    evaluate-wrap_constraint_at view builtin_reg either (some 2) "Or" refl
