-- ===== src/Editor/Move.antt =====
-- crates/app/src/tree_model.rs: `move_constraint_node`.
use ko_rkuma.Prelude.{
  ℕ, zero, suc, ◌+◌, ◌-◌, Bool, true, false, ◌&&◌, ◌≡◌, refl, sym, ap, ◌∙◌, String, List, [], ◌∷◌,
  Option, none, some, leb, ltb, ◌==◌, nat_eq, if◌then◌else◌, count_if, count_if-append,
  Option-cases, Bool-cases, inl, inr, arith,
}
use ko_rkuma.Domain.{ConstraintConfig, ConstraintExpr, Exprs}
use ko_rkuma.Editor.Rows.{ConstraintTreeRow, count_exprs, flatten_constraint}
use ko_rkuma.Editor.Positions.{
  constraint_subtree_size, rows_of, rows_of_all, flatten_constraint-rows,
}

-- A tree or its operands behind a move, and whether the node was found.
pub record Moved (T : Type 0) : Type 0 where
  pub result : T
  pub found : Bool

abbrev pub moved_in : {S T : Type 0} → (S → T) → Moved S → Moved T
moved_in node m = record { result = node m.result; found = m.found }

-- `iter().position(|&s| s == target)`
unfoldable pub position : ℕ → List ℕ → Option ℕ
position target [] = none
position target (s ∷ starts) =
    if s == target
    then some 0
    else elim (position target starts) [ none ↦ none | some i ↦ some (suc i) ]

-- The place of the upper of the two siblings that change places, if there are two.
unfoldable pub upper_of : Bool → ℕ → ℕ → Option ℕ
upper_of true i n = if ltb 0 i then some (i - 1) else none
upper_of false i n = if ltb (i + 1) n then some i else none

unfoldable pub child_starts : Exprs → ℕ → List ℕ
unfolding constraint_subtree_size
child_starts Exprs.nil cur = []
child_starts (Exprs.cons e exprs) cur = cur ∷ child_starts exprs (cur + constraint_subtree_size e)

-- `exprs.swap(i, i + 1)`
unfoldable pub swap_next : ℕ → Exprs → Exprs
swap_next zero (Exprs.cons e (Exprs.cons f exprs)) = Exprs.cons f (Exprs.cons e exprs)
swap_next (suc i) (Exprs.cons e exprs) = Exprs.cons e (swap_next i exprs)
swap_next i exprs = exprs

abbrev pub swap_upper : Option ℕ → Exprs → Exprs
swap_upper none exprs = exprs
swap_upper (some i) exprs = swap_next i exprs

module _ (target : ℕ) (up : Bool) where
  -- A child starts at `target`, or the move is within a child: `within` is the second loop.
  unfoldable pub move_siblings : Exprs → ℕ → Moved Exprs → Moved Exprs
  unfolding child_starts position upper_of swap_next count_exprs
  move_siblings exprs first within = elim (position target (child_starts exprs first)) [
    | none ↦ within
    | some i ↦ record {
      result = swap_upper (upper_of up i (count_exprs exprs)) exprs;
      found = true;
    }
  ]

  unfoldable mutual
    unfolding move_siblings constraint_subtree_size

    pub try_move_constraint : ConstraintExpr → ℕ → Moved ConstraintExpr
    try_move_constraint ConstraintExpr.always start = record {
      result = ConstraintExpr.always;
      found = false;
    }
    try_move_constraint (ConstraintExpr.leaf c) start = record {
      result = ConstraintExpr.leaf c;
      found = false;
    }
    try_move_constraint (ConstraintExpr.not_ e) start =
        moved_in ConstraintExpr.not_ (try_move_constraint e (suc start))
    try_move_constraint (ConstraintExpr.all exprs) start =
        moved_in ConstraintExpr.all
          (move_siblings exprs (suc start) (move_within exprs (suc start)))
    try_move_constraint (ConstraintExpr.any exprs) start =
        moved_in ConstraintExpr.any
          (move_siblings exprs (suc start) (move_within exprs (suc start)))

    -- The loop that looks for the child which holds `target`.
    pub move_within : Exprs → ℕ → Moved Exprs
    move_within Exprs.nil start = record { result = Exprs.nil; found = false }
    move_within (Exprs.cons e exprs) start =
        let size = constraint_subtree_size e in
        let inner = try_move_constraint e start in
        let rest = move_within exprs (start + size) in
        if leb start target && ltb target (start + size)
        then record { result = Exprs.cons inner.result exprs; found = inner.found }
        else record { result = Exprs.cons e rest.result; found = rest.found }

unfoldable pub move_constraint_node : ConstraintExpr → ℕ → Bool → ConstraintExpr
unfolding try_move_constraint
move_constraint_node root target up = (try_move_constraint target up root 0).result

count_exprs-swap_next :
    (i : ℕ) (exprs : Exprs) → count_exprs (swap_next i exprs) ≡ count_exprs exprs
unfolding swap_next count_exprs
count_exprs-swap_next zero Exprs.nil = refl
count_exprs-swap_next zero (Exprs.cons e Exprs.nil) = refl
count_exprs-swap_next zero (Exprs.cons e (Exprs.cons f exprs)) = refl
count_exprs-swap_next (suc i) Exprs.nil = refl
count_exprs-swap_next (suc i) (Exprs.cons e exprs) = ap suc (count_exprs-swap_next i exprs)

module _ (to_json : ConstraintConfig → String) (p : ConstraintTreeRow → Bool) where
  -- How many rows pass the test.
  abbrev count_of : ConstraintExpr → ℕ → ℕ
  count_of e depth = count_if p (rows_of to_json e depth)

  abbrev count_of_all : Exprs → ℕ → ℕ
  count_of_all exprs depth = count_if p (rows_of_all to_json exprs depth)

  count_of_cons :
      (e : ConstraintExpr) (exprs : Exprs) (depth : ℕ)
      → count_of_all (Exprs.cons e exprs) depth ≡ count_of e depth + count_of_all exprs depth
  unfolding rows_of
  count_of_cons e exprs depth =
      count_if-append p (rows_of to_json e depth) (rows_of_all to_json exprs depth)

  count-swap_next :
      (i : ℕ) (exprs : Exprs) (depth : ℕ)
      → count_of_all (swap_next i exprs) depth ≡ count_of_all exprs depth
  unfolding swap_next
  count-swap_next zero Exprs.nil depth = refl
  count-swap_next zero (Exprs.cons e Exprs.nil) depth = refl
  count-swap_next zero (Exprs.cons e (Exprs.cons f exprs)) depth = omega (
    arith,
    count_of_cons e (Exprs.cons f exprs) depth,
    count_of_cons f (Exprs.cons e exprs) depth,
    count_of_cons e exprs depth,
    count_of_cons f exprs depth,
  )
  count-swap_next (suc i) Exprs.nil depth = refl
  count-swap_next (suc i) (Exprs.cons e exprs) depth = omega (
    arith,
    count_of_cons e (swap_next i exprs) depth,
    count_of_cons e exprs depth,
    count-swap_next i exprs depth,
  )

  module _ (target : ℕ) (up : Bool) where
    -- The same number of operands, and the same rows up to their order.
    pub record Same (moved exprs : Exprs) (depth : ℕ) : Type 0 where
      pub same_length : count_exprs moved ≡ count_exprs exprs
      pub same_rows : count_of_all moved depth ≡ count_of_all exprs depth

    swap_upper-Same :
        (o : Option ℕ) (exprs : Exprs) (depth : ℕ) → Same (swap_upper o exprs) exprs depth
    swap_upper-Same none exprs depth = record { same_length = refl; same_rows = refl }
    swap_upper-Same (some i) exprs depth = record {
      same_length = count_exprs-swap_next i exprs;
      same_rows = count-swap_next i exprs depth;
    }

    move_siblings-Same :
        (exprs : Exprs) (first depth : ℕ) (within : Moved Exprs)
        → Same within.result exprs depth
        → Same (move_siblings target up exprs first within).result exprs depth
    unfolding move_siblings
    move_siblings-Same exprs first depth within h =
        elim (Option-cases (position target (child_starts exprs first))) [
          | inl e ↦ rw (e, move_siblings) h
          | inr (i, e) ↦ rw (e, move_siblings) (swap_upper-Same _ exprs depth)
        ]

    mutual
      unfolding try_move_constraint rows_of count_exprs count_if

      count-try_move :
          (e : ConstraintExpr) (start depth : ℕ)
          → count_of (try_move_constraint target up e start).result depth ≡ count_of e depth
      count-try_move ConstraintExpr.always start depth = refl
      count-try_move (ConstraintExpr.leaf c) start depth = refl
      count-try_move (ConstraintExpr.not_ e) start depth =
          omega (arith, count-try_move e (suc start) (suc depth))
      count-try_move (ConstraintExpr.all exprs) start depth =
          let same =
            move_siblings-Same exprs (suc start) (suc depth)
              (move_within target up exprs (suc start))
              (move_within-Same exprs (suc start) (suc depth)) in
          rw same.same_length (omega (arith, same.same_rows))
      count-try_move (ConstraintExpr.any exprs) start depth =
          let same =
            move_siblings-Same exprs (suc start) (suc depth)
              (move_within target up exprs (suc start))
              (move_within-Same exprs (suc start) (suc depth)) in
          rw same.same_length (omega (arith, same.same_rows))

      move_within-Same :
          (exprs : Exprs) (start depth : ℕ)
          → Same (move_within target up exprs start).result exprs depth
      move_within-Same Exprs.nil start depth = record { same_length = refl; same_rows = refl }
      move_within-Same (Exprs.cons e exprs) start depth =
          let size = constraint_subtree_size e in
          let inner = (try_move_constraint target up e start).result in
          let rest = (move_within target up exprs (start + size)).result in
          let ih = move_within-Same exprs (start + size) depth in
          elim (Bool-cases (leb start target && ltb target (start + size))) [
            | inl h ↦
                rw (h, move_within)
                  (record {
                    same_length = refl;
                    same_rows = omega (
                      arith,
                      count-try_move e start depth,
                      count_of_cons inner exprs depth,
                      count_of_cons e exprs depth,
                    );
                  })
            | inr h ↦
                rw (h, move_within)
                  (record {
                    same_length = ap suc ih.same_length;
                    same_rows = omega (
                      arith,
                      ih.same_rows,
                      count_of_cons e rest depth,
                      count_of_cons e exprs depth,
                    );
                  })
          ]

-- Moving a node among its siblings loses and duplicates nothing, whatever the position: the rows of
-- the new tree are those of the old one in another order, at the same depths.
pub flatten-move_constraint_node :
    (to_json : ConstraintConfig → String) (root : ConstraintExpr) (target : ℕ) (up : Bool)
    (p : ConstraintTreeRow → Bool)
    → count_if p (flatten_constraint to_json (move_constraint_node root target up))
      ≡ count_if p (flatten_constraint to_json root)
unfolding move_constraint_node
flatten-move_constraint_node to_json root target up p =
    ap (count_if p) (flatten_constraint-rows to_json (try_move_constraint target up root 0).result)
    ∙ count-try_move to_json p target up root 0 0
    ∙ sym (ap (count_if p) (flatten_constraint-rows to_json root))
