-- ===== src/Rewrite/FoldSound.antt =====
-- Folding keeps what a predicate evaluates to, and the context that the evaluation leaves.
use vectorized_sql_engine.Base.{
  ℕ, ℤ, pos, ◌≡◌, refl, sym, ◌∙◌, ap, Bool, true, false, ◌||◌, Option, none, some, arith, ok,
  and_then-eq-ok, Bool-cases, inl, inr,
}
use vectorized_sql_engine.Sql.Ast.{
  ComparisonOp, equal, not_equal, less, less_equal, greater, greater_equal,
}
use vectorized_sql_engine.Storage.Batch.{ColumnarBatch}
use vectorized_sql_engine.Plan.{
  PlanRef, LogicalPlan, BoundScalarExpr, BoundComparisonExpr, BoundPredicate, comparison, is_null,
  is_not_null, is_in, not_in, exists, not_exists, both, either,
}
use vectorized_sql_engine.Execution.Cell.{Cell, int64_cell, compare_values}
use vectorized_sql_engine.Execution.Truth.{TruthValue, truth_from_bool, and_truth, or_truth}
use vectorized_sql_engine.Execution.Context.{OuterRowFrame, ExecutionContext, M}
use vectorized_sql_engine.Execution.Predicate.{predicate_with}
use vectorized_sql_engine.Rewrite.Fold.{
  literal_value, compare_integers, canonical_true, canonical_false, is_canonical_true,
  is_canonical_false, is_literal_with_value, scalar_contains_subquery, predicate_contains_subquery,
  fold_literals, fold_comparison, fold_and, fold_or, fold_predicate_tree,
}

-- What folding uses of the evaluation of scalars: an integer literal is its value, and an
-- expression with no subquery leaves the context as it was.
pub record ReadsScalars (scalar : BoundScalarExpr → M Cell) : Type 0 where
  pub literal :
      (e : BoundScalarExpr) (v : ℤ) (σ : ExecutionContext)
      → literal_value e ≡ some v
      → scalar e σ ≡ ok (int64_cell v, σ)
  pub keeps :
      (e : BoundScalarExpr) (σ : ExecutionContext) (r : Cell × ExecutionContext)
      → scalar_contains_subquery e ≡ false
      → scalar e σ ≡ ok r
      → r.1 ≡ σ

-- The comparison of two literals is that of the interpreter.
compare_integers-cells :
    (l r : ℤ) (op : ComparisonOp)
    → compare_values (int64_cell l) op (int64_cell r) ≡ compare_integers l op r
unfolding compare_values compare_integers
compare_integers-cells l r equal = refl
compare_integers-cells l r not_equal = refl
compare_integers-cells l r less = refl
compare_integers-cells l r less_equal = ground arith
compare_integers-cells l r greater = refl
compare_integers-cells l r greater_equal = ground arith

literal_of :
    (e : BoundScalarExpr) (v : ℤ) → is_literal_with_value e v ≡ true → literal_value e ≡ some v
unfolding literal_value
literal_of e v h = ground arith

module _ (subplans : PlanRef → Option LogicalPlan) (run : LogicalPlan → M ColumnarBatch)
    (scalar : BoundScalarExpr → M Cell) (frame : OuterRowFrame) (reads : ReadsScalars scalar) where
  abbrev eval : BoundPredicate → M TruthValue
  eval = predicate_with subplans run scalar frame

  eval-literals :
      (c : BoundComparisonExpr) (l r : ℤ) (σ : ExecutionContext)
      → literal_value c.left ≡ some l
      → literal_value c.right ≡ some r
      → eval (comparison c) σ ≡ ok (truth_from_bool (compare_integers l c.op r), σ)
  unfolding predicate_with
  eval-literals c l r σ hl hr =
      rw (reads.literal c.left l σ hl, reads.literal c.right r σ hr)
        (rw (compare_integers-cells l r c.op) refl)

  eval-is_true :
      (p : BoundPredicate) (σ : ExecutionContext)
      → is_canonical_true p ≡ true
      → eval p σ ≡ ok (TruthValue.true, σ)
  unfolding is_canonical_true
  eval-is_true (comparison c) σ h =
      eval-literals c (pos 1) (pos 1) σ (literal_of c.left (pos 1) (ground arith))
        (literal_of c.right (pos 1) (ground arith))
      ∙ unfold compare_integers in ground arith
  eval-is_true _ σ h = cc

  eval-is_false :
      (p : BoundPredicate) (σ : ExecutionContext)
      → is_canonical_false p ≡ true
      → eval p σ ≡ ok (TruthValue.false, σ)
  unfolding is_canonical_false
  eval-is_false (comparison c) σ h =
      eval-literals c (pos 1) (pos 0) σ (literal_of c.left (pos 1) (ground arith))
        (literal_of c.right (pos 0) (ground arith))
      ∙ unfold compare_integers in ground arith
  eval-is_false _ σ h = cc

  eval-canonical_true : (σ : ExecutionContext) → eval canonical_true σ ≡ ok (TruthValue.true, σ)
  eval-canonical_true σ = eval-is_true canonical_true σ (unfold is_canonical_true in refl)

  eval-canonical_false : (σ : ExecutionContext) → eval canonical_false σ ≡ ok (TruthValue.false, σ)
  eval-canonical_false σ = eval-is_false canonical_false σ (unfold is_canonical_false in refl)

  -- A predicate with no subquery leaves the context as it was.
  eval-keeps :
      (p : BoundPredicate) (σ : ExecutionContext) (r : TruthValue × ExecutionContext)
      → predicate_contains_subquery p ≡ false
      → eval p σ ≡ ok r
      → r.1 ≡ σ
  unfolding predicate_contains_subquery predicate_with
  eval-keeps (comparison c) σ r h e =
      let (a, ea, e') = and_then-eq-ok (scalar c.left σ) _ e in
      let (b, eb, e'') = and_then-eq-ok (scalar c.right a.1) _ e' in
      ground (arith, reads.keeps c.left σ a, reads.keeps c.right a.1 b)
  eval-keeps (is_null x _) σ r h e =
      let (a, ea, e') = and_then-eq-ok (scalar x σ) _ e in ground (arith, reads.keeps x σ a)
  eval-keeps (is_not_null x _) σ r h e =
      let (a, ea, e') = and_then-eq-ok (scalar x σ) _ e in ground (arith, reads.keeps x σ a)
  eval-keeps (is_in _ _ _ _) σ r h e = cc
  eval-keeps (not_in _ _ _ _) σ r h e = cc
  eval-keeps (exists _ _ _) σ r h e = cc
  eval-keeps (not_exists _ _ _) σ r h e = cc
  eval-keeps (both p q _) σ r h e =
      let (a, ea, e') = and_then-eq-ok (eval p σ) _ e in
      let (b, eb, e'') = and_then-eq-ok (eval q a.1) _ e' in
      ground (arith, eval-keeps p σ a, eval-keeps q a.1 b)
  eval-keeps (either p q _) σ r h e =
      let (a, ea, e') = and_then-eq-ok (eval p σ) _ e in
      let (b, eb, e'') = and_then-eq-ok (eval q a.1) _ e' in
      ground (arith, eval-keeps p σ a, eval-keeps q a.1 b)

  eval-fold_literals :
      (c : BoundComparisonExpr) (l r : Option ℤ) (changed : Bool) (σ : ExecutionContext)
      → literal_value c.left ≡ l
      → literal_value c.right ≡ r
      → eval (fold_literals c l r changed).0 σ ≡ eval (comparison c) σ
  eval-fold_literals c none r changed σ hl hr = refl
  eval-fold_literals c (some l) none changed σ hl hr = refl
  eval-fold_literals c (some l) (some r) changed σ hl hr =
      elim (Bool-cases (compare_integers l c.op r)) [
        | inl yes' ↦
            rw yes' (eval-canonical_true σ ∙ sym (eval-literals c l r σ hl hr ∙ rw yes' refl))
        | inr no' ↦
            rw no' (eval-canonical_false σ ∙ sym (eval-literals c l r σ hl hr ∙ rw no' refl))
      ]

  eval-fold_comparison :
      (c : BoundComparisonExpr) (changed : Bool) (σ : ExecutionContext)
      → eval (fold_comparison c changed).0 σ ≡ eval (comparison c) σ
  eval-fold_comparison c changed σ =
      elim (Bool-cases (is_canonical_true (comparison c) || is_canonical_false (comparison c))) [
        | inl already ↦ unfold fold_comparison in rw already refl
        | inr new ↦ unfold fold_comparison in rw new (eval-fold_literals c _ _ changed σ refl refl)
      ]

  -- What a canonical predicate evaluated to.
  outcome :
      (p : BoundPredicate) (σ σ' : ExecutionContext) (a t : TruthValue)
      → eval p σ ≡ ok (a, σ')
      → eval p σ ≡ ok (t, σ)
      → (a ≡ t) × (σ' ≡ σ)
  outcome p σ σ' a t e f = let both_ok = sym e ∙ f in ground arith

  false-outcome :
      (p : BoundPredicate) (σ σ' : ExecutionContext) (a : TruthValue)
      → eval p σ ≡ ok (a, σ')
      → is_canonical_false p ≡ true
      → (a ≡ TruthValue.false) × (σ' ≡ σ)
  false-outcome p σ σ' a e h = outcome p σ σ' a TruthValue.false e (eval-is_false p σ h)

  true-outcome :
      (p : BoundPredicate) (σ σ' : ExecutionContext) (a : TruthValue)
      → eval p σ ≡ ok (a, σ')
      → is_canonical_true p ≡ true
      → (a ≡ TruthValue.true) × (σ' ≡ σ)
  true-outcome p σ σ' a e h = outcome p σ σ' a TruthValue.true e (eval-is_true p σ h)

  module _ (p q : BoundPredicate) (position : ℕ) (changed : Bool) (σ σ' σ'' : ExecutionContext)
      (a b : TruthValue) (ea : eval p σ ≡ ok (a, σ')) (eb : eval q σ' ≡ ok (b, σ'')) where
    eval-both : eval (both p q position) σ ≡ ok (and_truth a b, σ'')
    unfolding predicate_with
    eval-both = rw ea (rw eb refl)

    eval-either : eval (either p q position) σ ≡ ok (or_truth a b, σ'')
    unfolding predicate_with
    eval-either = rw ea (rw eb refl)

    -- The And of two predicates that evaluate to `a` and then to `b` folds to one that evaluates
    -- to their conjunction.
    eval-fold_and : eval (fold_and p q position changed).0 σ ≡ ok (and_truth a b, σ'')
    unfolding fold_and
    eval-fold_and = ground (
      arith,
      false-outcome p σ σ' a ea,
      false-outcome q σ' σ'' b eb,
      true-outcome p σ σ' a ea,
      true-outcome q σ' σ'' b eb,
      eval-keeps p σ (a, σ'),
      eval-keeps q σ' (b, σ''),
      eval-both,
      eval-canonical_false σ,
    )

    eval-fold_or : eval (fold_or p q position changed).0 σ ≡ ok (or_truth a b, σ'')
    unfolding fold_or
    eval-fold_or = ground (
      arith,
      false-outcome p σ σ' a ea,
      false-outcome q σ' σ'' b eb,
      true-outcome p σ σ' a ea,
      true-outcome q σ' σ'' b eb,
      eval-keeps p σ (a, σ'),
      eval-keeps q σ' (b, σ''),
      eval-either,
      eval-canonical_true σ,
    )

  -- The parts of an And or an Or that evaluated.
  both-inverse :
      (p q : BoundPredicate) (position : ℕ) (σ : ExecutionContext)
      (r : TruthValue × ExecutionContext)
      → eval (both p q position) σ ≡ ok r
      → (a : TruthValue × ExecutionContext) × (b : TruthValue × ExecutionContext) × (eval p σ
          ≡ ok a)
        × (eval q a.1 ≡ ok b)
        × (r ≡ (and_truth a.0 b.0, b.1))
  unfolding predicate_with
  both-inverse p q position σ r e =
      let (a, ea, e') = and_then-eq-ok (eval p σ) _ e in
      let (b, eb, e'') = and_then-eq-ok (eval q a.1) _ e' in (a, b, ea, eb, cc)

  either-inverse :
      (p q : BoundPredicate) (position : ℕ) (σ : ExecutionContext)
      (r : TruthValue × ExecutionContext)
      → eval (either p q position) σ ≡ ok r
      → (a : TruthValue × ExecutionContext) × (b : TruthValue × ExecutionContext) × (eval p σ
          ≡ ok a)
        × (eval q a.1 ≡ ok b)
        × (r ≡ (or_truth a.0 b.0, b.1))
  unfolding predicate_with
  either-inverse p q position σ r e =
      let (a, ea, e') = and_then-eq-ok (eval p σ) _ e in
      let (b, eb, e'') = and_then-eq-ok (eval q a.1) _ e' in (a, b, ea, eb, cc)

  pub eval-fold :
      (p : BoundPredicate) (changed : Bool) (σ : ExecutionContext)
      (r : TruthValue × ExecutionContext)
      → eval p σ ≡ ok r
      → eval (fold_predicate_tree p changed).0 σ ≡ ok r
  unfolding fold_predicate_tree
  eval-fold (comparison c) changed σ r e = eval-fold_comparison c changed σ ∙ e
  eval-fold (both p q position) changed σ r e =
      let (a, b, ea, eb, same) = both-inverse p q position σ r e in
      let p' = fold_predicate_tree p changed in
      let q' = fold_predicate_tree q p'.1 in
      eval-fold_and p'.0 q'.0 position q'.1 σ a.1 b.1 a.0 b.0 (eval-fold p changed σ a ea)
        (eval-fold q p'.1 a.1 b eb)
      ∙ sym (ap ok same)
  eval-fold (either p q position) changed σ r e =
      let (a, b, ea, eb, same) = either-inverse p q position σ r e in
      let p' = fold_predicate_tree p changed in
      let q' = fold_predicate_tree q p'.1 in
      eval-fold_or p'.0 q'.0 position q'.1 σ a.1 b.1 a.0 b.0 (eval-fold p changed σ a ea)
        (eval-fold q p'.1 a.1 b eb)
      ∙ sym (ap ok same)
  eval-fold (is_null _ _) changed σ r e = e
  eval-fold (is_not_null _ _) changed σ r e = e
  eval-fold (is_in _ _ _ _) changed σ r e = e
  eval-fold (not_in _ _ _ _) changed σ r e = e
  eval-fold (exists _ _ _) changed σ r e = e
  eval-fold (not_exists _ _ _) changed σ r e = e
