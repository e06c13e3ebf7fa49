-- ===== src/Execution/Keeps/Predicates.antt =====
-- src/execution/interpreter.cpp: scalars and predicates, and the cache of subqueries.
use vectorized_sql_engine.Base.{ℕ, Bytes, Option, none, some, List, ◌∷◌, refl, range, ◌==◌}
use vectorized_sql_engine.Catalog.{ColumnType}
use vectorized_sql_engine.Storage.Batch.{ColumnarBatch, row_count}
use vectorized_sql_engine.Plan.{
  PlanRef, LogicalPlan, Value, BoundScalarExpr, BoundPredicate, Projection,
}
use vectorized_sql_engine.Execution.Cell.{Cell}
use vectorized_sql_engine.Execution.Truth.{TruthValue}
use vectorized_sql_engine.Execution.Context.{ExecutionContext, OuterRowFrame, M}
use vectorized_sql_engine.Execution.Scalar.{
  is_correlated, from_cache, materialize_once, materialize_correlated, materialize_plan,
  materialize_subquery, evaluate_scalar_subquery, scalar_value, evaluate_scalar, join_scalar_value,
  evaluate_join_scalar, row_frame, pair_frame,
}
use vectorized_sql_engine.Execution.Predicate.{
  evaluate_in, evaluate_exists, comparison_with, predicate_with, predicates_with,
  evaluate_predicates, evaluate_join_predicate, evaluate_join_predicates, evaluate_filter,
  evaluate_projection,
}
use vectorized_sql_engine.Execution.Keeps.{
  OnlyAdds, pure-OnlyAdds, lift-OnlyAdds, if-OnlyAdds, bind-OnlyAdds, for_each-OnlyAdds,
  push_each-OnlyAdds, Keeps, Keeps-bind, remembered-Extends,
}
use vectorized_sql_engine.Execution.Keeps.Operators.{outer_cell_at-OnlyAdds}

module _ (subplans : PlanRef → Option LogicalPlan) (run : LogicalPlan → M ColumnarBatch)
    (runs : (plan : LogicalPlan) → OnlyAdds (run plan)) where
  materialize_once-OnlyAdds :
      (ref : PlanRef) (plan : LogicalPlan) → OnlyAdds (materialize_once subplans run ref plan)
  materialize_once-OnlyAdds ref plan = record { keeps = λ σ. by_cache σ _ }
    where
      by_cache :
          (σ : ExecutionContext) (cached : Option ColumnarBatch)
          → Keeps σ (from_cache (run plan) ref σ cached)
      by_cache σ (some batch) = λ key found h. h
      by_cache σ none =
          Keeps-bind σ (run plan σ) _ ((runs plan).keeps σ)
            (λ result σ'. remembered-Extends ref result σ' _ refl)

  materialize_correlated-OnlyAdds :
      (plan : LogicalPlan) (outer_row : Option OuterRowFrame)
      → OnlyAdds (materialize_correlated subplans run plan outer_row)
  materialize_correlated-OnlyAdds plan none = record { keeps = λ σ. tt }
  materialize_correlated-OnlyAdds plan (some frame) = record {
    keeps = λ σ.
        Keeps-bind σ (run plan (record σ { outer_rows = frame ∷ σ.outer_rows })) _
          ((runs plan).keeps (record σ { outer_rows = frame ∷ σ.outer_rows }))
          (λ result σ' key found h. h);
  }

  materialize_plan-OnlyAdds :
      (ref : PlanRef) (plan : Option LogicalPlan) (outer_row : Option OuterRowFrame)
      → OnlyAdds (materialize_plan subplans run ref plan outer_row)
  materialize_plan-OnlyAdds ref none outer_row = record { keeps = λ σ. tt }
  materialize_plan-OnlyAdds ref (some plan) outer_row =
      if-OnlyAdds (is_correlated plan) (materialize_correlated-OnlyAdds plan outer_row)
        (materialize_once-OnlyAdds ref plan)

  pub materialize_subquery-OnlyAdds :
      (ref : PlanRef) (outer_row : Option OuterRowFrame)
      → OnlyAdds (materialize_subquery subplans run ref outer_row)
  unfolding materialize_subquery
  materialize_subquery-OnlyAdds ref outer_row =
      materialize_plan-OnlyAdds ref (subplans ref) outer_row

  evaluate_scalar_subquery-OnlyAdds :
      (ref : PlanRef) (name : Bytes) (type : ColumnType) (frame : OuterRowFrame)
      → OnlyAdds (evaluate_scalar_subquery subplans run ref name type frame)
  unfolding evaluate_scalar_subquery
  evaluate_scalar_subquery-OnlyAdds ref name type frame =
      bind-OnlyAdds _ (materialize_subquery-OnlyAdds ref (some frame))
        λ batch. bind-OnlyAdds _ (lift-OnlyAdds (row_count batch)) λ rows. lift-OnlyAdds _

  pub evaluate_scalar-OnlyAdds :
      (e : BoundScalarExpr) (batch : ColumnarBatch) (row : ℕ)
      → OnlyAdds (evaluate_scalar subplans run e batch row)
  unfolding evaluate_scalar
  evaluate_scalar-OnlyAdds e batch row = by_value e.value
    where
      by_value : (v : Value) → OnlyAdds (scalar_value subplans run e.type v batch row)
      by_value (Value.column c) =
          if-OnlyAdds (c.outer_depth == 0) (lift-OnlyAdds _) (outer_cell_at-OnlyAdds c)
      by_value (Value.int_literal v _) = pure-OnlyAdds _
      by_value (Value.string_literal v _) = pure-OnlyAdds _
      by_value (Value.null_literal _) = pure-OnlyAdds _
      by_value (Value.subquery ref _ name) =
          bind-OnlyAdds _ (evaluate_scalar_subquery-OnlyAdds ref name e.type (row_frame batch row))
            λ value. pure-OnlyAdds _

  evaluate_join_scalar-OnlyAdds :
      (e : BoundScalarExpr) (l : ColumnarBatch) (i : ℕ) (r : ColumnarBatch) (j : ℕ)
      → OnlyAdds (evaluate_join_scalar subplans run e l i r j)
  unfolding evaluate_join_scalar
  evaluate_join_scalar-OnlyAdds e l i r j = by_value e.value
    where
      by_value : (v : Value) → OnlyAdds (join_scalar_value subplans run e.type v l i r j)
      by_value (Value.column c) =
          if-OnlyAdds (c.outer_depth == 0) (lift-OnlyAdds _) (outer_cell_at-OnlyAdds c)
      by_value (Value.int_literal v _) = pure-OnlyAdds _
      by_value (Value.string_literal v _) = pure-OnlyAdds _
      by_value (Value.null_literal _) = pure-OnlyAdds _
      by_value (Value.subquery ref _ name) =
          evaluate_scalar_subquery-OnlyAdds ref name e.type (pair_frame l i r j)

  evaluate_in-OnlyAdds :
      (value : Cell) (ref : PlanRef) (frame : OuterRowFrame)
      → OnlyAdds (evaluate_in subplans run value ref frame)
  unfolding evaluate_in
  evaluate_in-OnlyAdds value ref frame =
      bind-OnlyAdds _ (materialize_subquery-OnlyAdds ref (some frame)) λ batch. lift-OnlyAdds _

  evaluate_exists-OnlyAdds :
      (ref : PlanRef) (frame : OuterRowFrame) → OnlyAdds (evaluate_exists subplans run ref frame)
  unfolding evaluate_exists
  evaluate_exists-OnlyAdds ref frame =
      bind-OnlyAdds _ (materialize_subquery-OnlyAdds ref (some frame))
        λ batch. bind-OnlyAdds _ (lift-OnlyAdds (row_count batch)) λ rows. pure-OnlyAdds _

  module _ (scalar : BoundScalarExpr → M Cell) (frame : OuterRowFrame)
      (scalars : (e : BoundScalarExpr) → OnlyAdds (scalar e)) where
    predicate_with-OnlyAdds :
        (p : BoundPredicate) → OnlyAdds (predicate_with subplans run scalar frame p)
    unfolding predicate_with comparison_with
    predicate_with-OnlyAdds (BoundPredicate.comparison c) =
        bind-OnlyAdds _ (scalars c.left) λ l. bind-OnlyAdds _ (scalars c.right) λ r. pure-OnlyAdds _
    predicate_with-OnlyAdds (BoundPredicate.is_null e _) =
        bind-OnlyAdds _ (scalars e) λ value. pure-OnlyAdds _
    predicate_with-OnlyAdds (BoundPredicate.is_not_null e _) =
        bind-OnlyAdds _ (scalars e) λ value. pure-OnlyAdds _
    predicate_with-OnlyAdds (BoundPredicate.is_in e ref _ _) =
        bind-OnlyAdds _ (scalars e) λ value. evaluate_in-OnlyAdds value ref frame
    predicate_with-OnlyAdds (BoundPredicate.not_in e ref _ _) =
        bind-OnlyAdds _ (scalars e)
          λ value. bind-OnlyAdds _ (evaluate_in-OnlyAdds value ref frame) λ result. pure-OnlyAdds _
    predicate_with-OnlyAdds (BoundPredicate.exists ref _ _) = evaluate_exists-OnlyAdds ref frame
    predicate_with-OnlyAdds (BoundPredicate.not_exists ref _ _) =
        bind-OnlyAdds _ (evaluate_exists-OnlyAdds ref frame) λ result. pure-OnlyAdds _
    predicate_with-OnlyAdds (BoundPredicate.both l r _) =
        bind-OnlyAdds _ (predicate_with-OnlyAdds l)
          λ a. bind-OnlyAdds _ (predicate_with-OnlyAdds r) λ b. pure-OnlyAdds _
    predicate_with-OnlyAdds (BoundPredicate.either l r _) =
        bind-OnlyAdds _ (predicate_with-OnlyAdds l)
          λ a. bind-OnlyAdds _ (predicate_with-OnlyAdds r) λ b. pure-OnlyAdds _

    predicates_with-OnlyAdds :
        (ps : List BoundPredicate) → OnlyAdds (predicates_with subplans run scalar frame ps)
    unfolding predicates_with
    predicates_with-OnlyAdds ps =
        for_each-OnlyAdds TruthValue.true ps
          λ keep p. bind-OnlyAdds _ (predicate_with-OnlyAdds p) λ t. pure-OnlyAdds _

  evaluate_predicates-OnlyAdds :
      (ps : List BoundPredicate) (batch : ColumnarBatch) (row : ℕ)
      → OnlyAdds (evaluate_predicates subplans run ps batch row)
  unfolding evaluate_predicates
  evaluate_predicates-OnlyAdds ps batch row =
      predicates_with-OnlyAdds (λ e. evaluate_scalar subplans run e batch row) (row_frame batch row)
        (λ e. evaluate_scalar-OnlyAdds e batch row) ps

  pub evaluate_join_predicate-OnlyAdds :
      (p : BoundPredicate) (l : ColumnarBatch) (i : ℕ) (r : ColumnarBatch) (j : ℕ)
      → OnlyAdds (evaluate_join_predicate subplans run p l i r j)
  unfolding evaluate_join_predicate
  evaluate_join_predicate-OnlyAdds p l i r j =
      predicate_with-OnlyAdds (λ e. evaluate_join_scalar subplans run e l i r j)
        (pair_frame l i r j) (λ e. evaluate_join_scalar-OnlyAdds e l i r j) p

  pub evaluate_join_predicates-OnlyAdds :
      (ps : List BoundPredicate) (l : ColumnarBatch) (i : ℕ) (r : ColumnarBatch) (j : ℕ)
      → OnlyAdds (evaluate_join_predicates subplans run ps l i r j)
  unfolding evaluate_join_predicates
  evaluate_join_predicates-OnlyAdds ps l i r j =
      predicates_with-OnlyAdds (λ e. evaluate_join_scalar subplans run e l i r j)
        (pair_frame l i r j) (λ e. evaluate_join_scalar-OnlyAdds e l i r j) ps

  pub evaluate_filter-OnlyAdds :
      (ps : List BoundPredicate) (batch : ColumnarBatch)
      → OnlyAdds (evaluate_filter subplans run ps batch)
  unfolding evaluate_filter
  evaluate_filter-OnlyAdds ps batch = bind-OnlyAdds _ (lift-OnlyAdds (row_count batch)) λ rows.
      push_each-OnlyAdds (range 0 rows)
        λ row. bind-OnlyAdds _ (evaluate_predicates-OnlyAdds ps batch row) λ keep. pure-OnlyAdds _

  pub evaluate_projection-OnlyAdds :
      (p : Projection) (batch : ColumnarBatch) (rows : List ℕ)
      → OnlyAdds (evaluate_projection subplans run p batch rows)
  unfolding evaluate_projection
  evaluate_projection-OnlyAdds p batch rows = for_each-OnlyAdds _ rows λ column row.
      bind-OnlyAdds _ (evaluate_scalar-OnlyAdds p.expression batch row) λ value. pure-OnlyAdds _
