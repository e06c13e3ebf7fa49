-- ===== src/Rewrite/FoldRows.antt =====
-- Folding under the two ways in which the interpreter reads scalars: from a row, and from a pair
-- of rows of a join.
use vectorized_sql_engine.Base.{
  ℕ, ℤ, ◌≡◌, Bool, false, Option, some, Result, ok, err, arith, Bool-cases, inl, inr, ◌==◌,
}
use vectorized_sql_engine.Catalog.{ColumnType}
use vectorized_sql_engine.Storage.Batch.{ColumnarBatch}
use vectorized_sql_engine.Plan.{
  PlanRef, LogicalPlan, Value, BoundColumnRef, BoundScalarExpr, BoundPredicate,
}
use vectorized_sql_engine.Execution.Cell.{Cell, int64_cell}
use vectorized_sql_engine.Execution.Truth.{TruthValue}
use vectorized_sql_engine.Execution.Context.{ExecutionContext, M, lift}
use vectorized_sql_engine.Execution.Scalar.{
  outer_cell_at, evaluate_scalar, evaluate_join_scalar, row_frame, pair_frame,
}
use vectorized_sql_engine.Execution.Predicate.{evaluate_predicate, evaluate_join_predicate}
use vectorized_sql_engine.Rewrite.Fold.{literal_value, value_contains_subquery, fold_predicate_tree}
use vectorized_sql_engine.Rewrite.FoldSound.{ReadsScalars, eval-fold}

-- Reading a column leaves the context as it was.
lift-keeps :
    (r : Result Cell) (σ : ExecutionContext) (a : Cell × ExecutionContext)
    → lift r σ ≡ ok a
    → a.1 ≡ σ
lift-keeps (ok c) σ a e = cc
lift-keeps (err x) σ a e = cc

outer_cell_at-keeps :
    (c : BoundColumnRef) (σ : ExecutionContext) (a : Cell × ExecutionContext)
    → outer_cell_at c σ ≡ ok a
    → a.1 ≡ σ
unfolding outer_cell_at
outer_cell_at-keeps c σ a e = lift-keeps _ σ a e

module _ (subplans : PlanRef → Option LogicalPlan) (run : LogicalPlan → M ColumnarBatch) where
  evaluate_scalar-literal :
      (batch : ColumnarBatch) (row : ℕ) (e : BoundScalarExpr) (v : ℤ) (σ : ExecutionContext)
      → literal_value e ≡ some v
      → evaluate_scalar subplans run e batch row σ ≡ ok (int64_cell v, σ)
  unfolding evaluate_scalar literal_value
  evaluate_scalar-literal batch row e v σ h = ground arith

  evaluate_value-keeps :
      (batch : ColumnarBatch) (row : ℕ) (type : ColumnType) (v : Value) (σ : ExecutionContext)
      (r : Cell × ExecutionContext)
      → value_contains_subquery v ≡ false
      → evaluate_scalar subplans run (record { value = v; type = type }) batch row σ ≡ ok r
      → r.1 ≡ σ
  unfolding evaluate_scalar
  evaluate_value-keeps batch row type (Value.column c) σ r h k =
      elim (Bool-cases (c.outer_depth == 0)) [
        | inl here ↦ lift-keeps _ σ r (rw here at k)
        | inr outer ↦ outer_cell_at-keeps c σ r (rw outer at k)
      ]
  evaluate_value-keeps batch row type (Value.subquery _ _ _) σ r h k = cc
  evaluate_value-keeps batch row type _ σ r h k = cc

  pub evaluate_scalar-ReadsScalars :
      (batch : ColumnarBatch) (row : ℕ)
      → ReadsScalars (λ e. evaluate_scalar subplans run e batch row)
  evaluate_scalar-ReadsScalars batch row = record {
    literal = evaluate_scalar-literal batch row;
    keeps = λ e σ r h k. evaluate_value-keeps batch row e.type e.value σ r h k;
  }

  join_scalar-literal :
      (l : ColumnarBatch) (left_row : ℕ) (r : ColumnarBatch) (right_row : ℕ) (e : BoundScalarExpr)
      (v : ℤ) (σ : ExecutionContext)
      → literal_value e ≡ some v
      → evaluate_join_scalar subplans run e l left_row r right_row σ ≡ ok (int64_cell v, σ)
  unfolding evaluate_join_scalar literal_value
  join_scalar-literal l left_row r right_row e v σ h = ground arith

  join_value-keeps :
      (l : ColumnarBatch) (left_row : ℕ) (r : ColumnarBatch) (right_row : ℕ) (type : ColumnType)
      (v : Value) (σ : ExecutionContext) (a : Cell × ExecutionContext)
      → value_contains_subquery v ≡ false
      → evaluate_join_scalar subplans run
          (record { value = v; type = type })
          l
          left_row
          r
          right_row
          σ
        ≡ ok a
      → a.1 ≡ σ
  unfolding evaluate_join_scalar
  join_value-keeps l left_row r right_row type (Value.column c) σ a h k =
      elim (Bool-cases (c.outer_depth == 0)) [
        | inl here ↦ lift-keeps _ σ a (rw here at k)
        | inr outer ↦ outer_cell_at-keeps c σ a (rw outer at k)
      ]
  join_value-keeps l left_row r right_row type (Value.subquery _ _ _) σ a h k = cc
  join_value-keeps l left_row r right_row type _ σ a h k = cc

  pub join_scalar-ReadsScalars :
      (l : ColumnarBatch) (left_row : ℕ) (r : ColumnarBatch) (right_row : ℕ)
      → ReadsScalars (λ e. evaluate_join_scalar subplans run e l left_row r right_row)
  join_scalar-ReadsScalars l left_row r right_row = record {
    literal = join_scalar-literal l left_row r right_row;
    keeps = λ e σ a h k. join_value-keeps l left_row r right_row e.type e.value σ a h k;
  }

  -- Where a predicate evaluates on a row, the folded predicate evaluates to the same truth value
  -- and leaves the same context, the cached subquery results included.
  pub evaluate_predicate-fold :
      (p : BoundPredicate) (changed : Bool) (batch : ColumnarBatch) (row : ℕ) (σ : ExecutionContext)
      (r : TruthValue × ExecutionContext)
      → evaluate_predicate subplans run p batch row σ ≡ ok r
      → evaluate_predicate subplans run (fold_predicate_tree p changed).0 batch row σ ≡ ok r
  unfolding evaluate_predicate
  evaluate_predicate-fold p changed batch row σ r h =
      eval-fold subplans run _ (row_frame batch row) (evaluate_scalar-ReadsScalars batch row) p
        changed σ r h

  -- The same on a pair of rows of a join.
  pub evaluate_join_predicate-fold :
      (p : BoundPredicate) (changed : Bool) (l : ColumnarBatch) (left_row : ℕ) (r : ColumnarBatch)
      (right_row : ℕ) (σ : ExecutionContext) (a : TruthValue × ExecutionContext)
      → evaluate_join_predicate subplans run p l left_row r right_row σ ≡ ok a
      → evaluate_join_predicate subplans run
          (fold_predicate_tree p changed).0
          l
          left_row
          r
          right_row
          σ
        ≡ ok a
  unfolding evaluate_join_predicate
  evaluate_join_predicate-fold p changed l left_row r right_row σ a h =
      eval-fold subplans run _ (pair_frame l left_row r right_row)
        (join_scalar-ReadsScalars l left_row r right_row) p changed σ a h
