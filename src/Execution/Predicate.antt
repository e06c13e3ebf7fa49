-- ===== src/Execution/Predicate.antt =====
-- Evaluating predicates. evaluate_predicate and evaluate_join_predicate differ in how a scalar is
-- read and in the frame that a subquery gets, so both are one function of these two.
use vectorized_sql_engine.Base.{
  ℕ, Bytes, Bool, true, false, not, Option, some, List, [], ◌∷◌, range, Result, throw, Exception,
  and_then, ok, ◌==◌, if◌then◌else◌,
}
use vectorized_sql_engine.Storage.Batch.{ColumnarBatch, row_count}
use vectorized_sql_engine.Plan.{
  PlanRef, LogicalPlan, BoundScalarExpr, BoundComparisonExpr, BoundPredicate, Projection,
}
use vectorized_sql_engine.Execution.Cell.{
  Cell, cell_eq, compare_values, OutputColumn, output_column, append_cell,
}
use vectorized_sql_engine.Execution.Truth.{
  TruthValue, truth_from_bool, and_truth, or_truth, not_truth, is_true,
}
use vectorized_sql_engine.Execution.Context.{
  OuterRowFrame, M, ◌>>=◌, pure, lift, for_each, push_each,
}
use vectorized_sql_engine.Execution.Scalar.{
  cell_at, materialize_subquery, evaluate_scalar, evaluate_join_scalar, row_frame, pair_frame,
}

-- The loop of evaluate_in over the rows of the result.
unfoldable pub in_rows : Cell → ColumnarBatch → Bytes → Bool → List ℕ → Result TruthValue
unfolding cell_at cell_eq
in_rows value result column contains_null [] =
    ok (if contains_null then TruthValue.unknown else TruthValue.false)
in_rows value result column contains_null (row ∷ rows) =
    and_then (cell_at result column row) λ member.
      let skip = in_rows value result column true rows in
      let go_on = in_rows value result column contains_null rows in
      if member.is_null then skip else if cell_eq value member then ok TruthValue.true else go_on

abbrev pub in_column : Cell → ColumnarBatch → List Bytes → ℕ → Result TruthValue
in_column value result (column ∷ []) rows =
    if value.is_null
    then ok TruthValue.unknown
    else in_rows value result column false (range 0 rows)
in_column value result _ rows =
    throw Exception.logic_error "bound IN subquery did not produce exactly one output column"

-- evaluate_in, on the materialized result.
unfoldable pub in_result : Cell → ColumnarBatch → Result TruthValue
unfolding in_rows row_count
in_result value result = and_then (row_count result) λ rows.
    if rows == 0 then ok TruthValue.false else in_column value result result.column_names rows

module _ (subplans : PlanRef → Option LogicalPlan) (run : LogicalPlan → M ColumnarBatch) where
  unfoldable pub evaluate_in : Cell → PlanRef → OuterRowFrame → M TruthValue
  unfolding materialize_subquery in_result
  evaluate_in value subquery outer_row = do
    result ← materialize_subquery subplans run subquery (some outer_row)
    lift (in_result value result)

  unfoldable pub evaluate_exists : PlanRef → OuterRowFrame → M TruthValue
  unfolding materialize_subquery row_count
  evaluate_exists subquery outer_row = do
    result ← materialize_subquery subplans run subquery (some outer_row)
    rows ← lift (row_count result)
    pure (truth_from_bool (not (rows == 0)))

-- The result of a comparison of two evaluated operands.
abbrev pub comparison_truth : Cell → BoundComparisonExpr → Cell → TruthValue
comparison_truth l c r =
    if l.is_null
    then TruthValue.unknown
    else if r.is_null
    then TruthValue.unknown
    else truth_from_bool (compare_values l c.op r)

module _ (subplans : PlanRef → Option LogicalPlan) (run : LogicalPlan → M ColumnarBatch)
    (scalar : BoundScalarExpr → M Cell) (frame : OuterRowFrame) where
  unfoldable pub comparison_with : BoundComparisonExpr → M TruthValue
  unfolding compare_values
  comparison_with c = do l ← scalar c.left; r ← scalar c.right; pure (comparison_truth l c r)

  unfoldable pub predicate_with : BoundPredicate → M TruthValue
  unfolding comparison_with evaluate_in evaluate_exists
  predicate_with (BoundPredicate.comparison c) = comparison_with c
  predicate_with (BoundPredicate.is_null e _) = do
    value ← scalar e
    pure (truth_from_bool value.is_null)
  predicate_with (BoundPredicate.is_not_null e _) = do
    value ← scalar e
    pure (truth_from_bool (not value.is_null))
  predicate_with (BoundPredicate.is_in e subquery _ _) = do
    value ← scalar e
    evaluate_in subplans run value subquery frame
  predicate_with (BoundPredicate.not_in e subquery _ _) = do
    value ← scalar e
    result ← evaluate_in subplans run value subquery frame
    pure (not_truth result)
  predicate_with (BoundPredicate.exists subquery _ _) = evaluate_exists subplans run subquery frame
  predicate_with (BoundPredicate.not_exists subquery _ _) = do
    result ← evaluate_exists subplans run subquery frame
    pure (not_truth result)
  predicate_with (BoundPredicate.both l r _) = do
    a ← predicate_with l
    b ← predicate_with r
    pure (and_truth a b)
  predicate_with (BoundPredicate.either l r _) = do
    a ← predicate_with l
    b ← predicate_with r
    pure (or_truth a b)

  -- The loop over the conjuncts; all of them are evaluated.
  unfoldable pub predicates_with : List BoundPredicate → M TruthValue
  unfolding predicate_with for_each
  predicates_with predicates =
      for_each (λ keep predicate. do t ← predicate_with predicate; pure (and_truth keep t))
        TruthValue.true predicates

module _ (subplans : PlanRef → Option LogicalPlan) (run : LogicalPlan → M ColumnarBatch) where
  unfoldable pub evaluate_predicate : BoundPredicate → ColumnarBatch → ℕ → M TruthValue
  unfolding predicate_with evaluate_scalar
  evaluate_predicate predicate batch row =
      predicate_with subplans run (λ e. evaluate_scalar subplans run e batch row)
        (row_frame batch row) predicate

  unfoldable pub evaluate_predicates : List BoundPredicate → ColumnarBatch → ℕ → M TruthValue
  unfolding predicates_with evaluate_scalar
  evaluate_predicates predicates batch row =
      predicates_with subplans run (λ e. evaluate_scalar subplans run e batch row)
        (row_frame batch row) predicates

  unfoldable pub evaluate_join_predicate :
      BoundPredicate → ColumnarBatch → ℕ → ColumnarBatch → ℕ → M TruthValue
  unfolding predicate_with evaluate_join_scalar
  evaluate_join_predicate predicate l left_row r right_row =
      predicate_with subplans run (λ e. evaluate_join_scalar subplans run e l left_row r right_row)
        (pair_frame l left_row r right_row) predicate

  unfoldable pub evaluate_join_predicates :
      List BoundPredicate → ColumnarBatch → ℕ → ColumnarBatch → ℕ → M TruthValue
  unfolding predicates_with evaluate_join_scalar
  evaluate_join_predicates predicates l left_row r right_row =
      predicates_with subplans run (λ e. evaluate_join_scalar subplans run e l left_row r right_row)
        (pair_frame l left_row r right_row) predicates

  -- The mask of a filter: 1 at the rows at which the conjunction is true.
  unfoldable pub evaluate_filter : List BoundPredicate → ColumnarBatch → M (List ℕ)
  unfolding evaluate_predicates push_each row_count
  evaluate_filter predicates batch = do
    rows ← lift (row_count batch)
    push_each
        (λ row. do
          keep ← evaluate_predicates predicates batch row
          pure (if is_true keep then 1 else 0))
        (range 0 rows)

  -- Both overloads of evaluate_projection: over the given rows.
  unfoldable pub evaluate_projection : Projection → ColumnarBatch → List ℕ → M OutputColumn
  unfolding evaluate_scalar for_each append_cell
  evaluate_projection projection batch rows =
      for_each
        (λ column row. do
          value ← evaluate_scalar subplans run projection.expression batch row
          pure (append_cell value column))
        (output_column projection.type) rows
