-- ===== src/Editor.antt =====
-- crates/app/src/tree_model.rs: two edits of a constraint tree, `add_constraint_leaf` and
-- `wrap_constraint_at`. Nodes are counted in depth-first order: `&mut usize` is passed in and
-- returned.
pub mod Meaning
pub mod Rows
pub mod Positions
pub mod Replace
pub mod Delete
pub mod Outside
pub mod Move
pub mod Steps
use ko_rkuma.Prelude.{
  ℕ, ◌+◌, Bool, true, false, ◌||◌, String, Option, none, some, ◌==◌, nat_eq, string_eq,
  if◌then◌else◌,
}
use ko_rkuma.Domain.{ConstraintConfig, ConstraintExpr, Exprs}

-- `exprs.push(e)`
unfoldable pub push : ConstraintExpr → Exprs → Exprs
push e Exprs.nil = Exprs.cons e Exprs.nil
push e (Exprs.cons x exprs) = Exprs.cons x (push e exprs)

unfoldable pub add_constraint_leaf : ConstraintExpr → ConstraintConfig → ConstraintExpr
unfolding push
add_constraint_leaf ConstraintExpr.always leaf = ConstraintExpr.leaf leaf
add_constraint_leaf (ConstraintExpr.all exprs) leaf =
    ConstraintExpr.all (push (ConstraintExpr.leaf leaf) exprs)
add_constraint_leaf root leaf =
    ConstraintExpr.all (Exprs.cons root (Exprs.cons (ConstraintExpr.leaf leaf) Exprs.nil))

unfoldable pub wrap_and : ConstraintExpr → ConstraintExpr
wrap_and (ConstraintExpr.all exprs) = ConstraintExpr.all exprs
wrap_and expr = ConstraintExpr.all (Exprs.cons expr Exprs.nil)

unfoldable pub wrap_or : ConstraintExpr → ConstraintExpr
wrap_or (ConstraintExpr.any exprs) = ConstraintExpr.any exprs
wrap_or expr = ConstraintExpr.any (Exprs.cons expr Exprs.nil)

unfoldable pub wrap_expr : ConstraintExpr → String → ConstraintExpr
unfolding wrap_and wrap_or
wrap_expr expr kind =
    if kind == "And"
    then wrap_and expr
    else if kind == "Or"
    then wrap_or expr
    else if kind == "Not"
    then ConstraintExpr.not_ expr
    else expr

-- What a pass over a tree returns, with the counter behind it.
pub record Edited (T : Type 0) : Type 0 where
  pub result : T
  pub found : Bool
  pub counter : ℕ

abbrev pub unchanged : {T : Type 0} → T → ℕ → Edited T
unchanged x counter = record { result = x; found = false; counter = counter }

abbrev pub in_node : {S T : Type 0} → (S → T) → Edited S → Edited T
in_node node r = record { result = node r.result; found = r.found; counter = r.counter }

module _ (target : ℕ) (kind : String) where
  -- The test of the position at a node; `below` is what becomes of its children.
  unfoldable pub wrap_here : ConstraintExpr → ℕ → Edited ConstraintExpr → Edited ConstraintExpr
  unfolding wrap_expr
  wrap_here expr pos below =
      if pos == target
      then record { result = wrap_expr expr kind; found = true; counter = pos + 1 }
      else below

  unfoldable mutual
    unfolding wrap_here

    pub wrap_constraint_rec : ConstraintExpr → ℕ → Edited ConstraintExpr
    wrap_constraint_rec ConstraintExpr.always pos =
        wrap_here ConstraintExpr.always pos (unchanged ConstraintExpr.always (pos + 1))
    wrap_constraint_rec (ConstraintExpr.leaf c) pos =
        wrap_here (ConstraintExpr.leaf c) pos (unchanged (ConstraintExpr.leaf c) (pos + 1))
    wrap_constraint_rec (ConstraintExpr.not_ inner) pos =
        wrap_here (ConstraintExpr.not_ inner) pos
          (in_node ConstraintExpr.not_ (wrap_constraint_rec inner (pos + 1)))
    wrap_constraint_rec (ConstraintExpr.all exprs) pos =
        wrap_here (ConstraintExpr.all exprs) pos
          (in_node ConstraintExpr.all (wrap_constraint_children_rec exprs (pos + 1)))
    wrap_constraint_rec (ConstraintExpr.any exprs) pos =
        wrap_here (ConstraintExpr.any exprs) pos
          (in_node ConstraintExpr.any (wrap_constraint_children_rec exprs (pos + 1)))

    -- Behind the child that was found, the others stay as they are.
    pub wrap_constraint_children_rec : Exprs → ℕ → Edited Exprs
    wrap_constraint_children_rec Exprs.nil counter = unchanged Exprs.nil counter
    wrap_constraint_children_rec (Exprs.cons e exprs) counter =
        let r = wrap_constraint_rec e counter in
        let rest = wrap_constraint_children_rec exprs r.counter in
        if r.found
        then record { result = Exprs.cons r.result exprs; found = true; counter = r.counter }
        else record {
          result = Exprs.cons r.result rest.result;
          found = rest.found;
          counter = rest.counter;
        }

-- `target.unwrap_or(0)`
abbrev pub unwrap_or_root : Option ℕ → ℕ
unwrap_or_root none = 0
unwrap_or_root (some target) = target

unfoldable pub wrap_constraint_at : ConstraintExpr → Option ℕ → String → ConstraintExpr
unfolding wrap_constraint_rec
wrap_constraint_at root target kind =
    (wrap_constraint_rec (unwrap_or_root target) kind root 0).result
