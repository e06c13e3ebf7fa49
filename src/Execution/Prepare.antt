-- ===== src/Execution/Prepare.antt =====
-- src/execution/interpreter.cpp: the subqueries that are executed before the plan that owns them.
use vectorized_sql_engine.Base.{
  ℕ, Bytes, Option, none, some, List, [], ◌∷◌, Result, ok, err, thrown, Exception, ltb,
  if◌then◌else◌,
}
use vectorized_sql_engine.Storage.Batch.{ColumnarBatch, row_count}
use vectorized_sql_engine.Plan.{
  PlanRef, LogicalPlan, Value, BoundScalarExpr, BoundPredicate, Projection, JoinKind,
  null_aware_anti,
}
use vectorized_sql_engine.Execution.Context.{M, ◌>>=◌, ◌>>◌, pure, lift, raise}
use vectorized_sql_engine.Execution.Scalar.{is_correlated, materialize_subquery}

module _ (subplans : PlanRef → Option LogicalPlan) (run : LogicalPlan → M ColumnarBatch) where
  -- Materializing a subquery unless it is correlated. The source dereferences the pointer; a null
  -- pointer is an error here, as it is in materialize_subquery.
  abbrev pub unless_correlated : Option LogicalPlan → M (Unit {0}) → M (Unit {0})
  unless_correlated none m =
      raise Exception.invalid_argument "bound subquery is missing its logical plan" []
  unless_correlated (some plan) m = if is_correlated plan then pure tt else m

  abbrev check_single_row : Bytes → ℕ → Result (Unit {0})
  check_single_row name rows =
      if ltb 1 rows
      then err (thrown Exception.runtime_error " returned more than one row" name)
      else ok tt

  unfoldable pub prepare_value : Value → M (Unit {0})
  unfolding materialize_subquery row_count
  prepare_value (Value.subquery plan position name) = unless_correlated (subplans plan) (
      materialize_subquery subplans run plan none >>= λ result.
      lift (row_count result) >>= λ rows. lift (check_single_row name rows))
  prepare_value _ = pure tt

  unfoldable pub prepare_scalar_subquery : BoundScalarExpr → M (Unit {0})
  unfolding prepare_value
  prepare_scalar_subquery expression = prepare_value expression.value

  abbrev pub prepare_relation : PlanRef → M (Unit {0})
  prepare_relation subquery =
      unless_correlated (subplans subquery)
        (materialize_subquery subplans run subquery none >>= λ result. pure tt)

  unfoldable pub prepare_predicate_subqueries : BoundPredicate → M (Unit {0})
  unfolding prepare_scalar_subquery materialize_subquery
  prepare_predicate_subqueries (BoundPredicate.comparison c) =
      prepare_scalar_subquery c.left >> prepare_scalar_subquery c.right
  prepare_predicate_subqueries (BoundPredicate.is_null e _) = prepare_scalar_subquery e
  prepare_predicate_subqueries (BoundPredicate.is_not_null e _) = prepare_scalar_subquery e
  prepare_predicate_subqueries (BoundPredicate.is_in e subquery _ _) =
      prepare_scalar_subquery e >> prepare_relation subquery
  prepare_predicate_subqueries (BoundPredicate.not_in e subquery _ _) =
      prepare_scalar_subquery e >> prepare_relation subquery
  prepare_predicate_subqueries (BoundPredicate.exists subquery _ _) = prepare_relation subquery
  prepare_predicate_subqueries (BoundPredicate.not_exists subquery _ _) = prepare_relation subquery
  prepare_predicate_subqueries (BoundPredicate.both l r _) =
      prepare_predicate_subqueries l >> prepare_predicate_subqueries r
  prepare_predicate_subqueries (BoundPredicate.either l r _) =
      prepare_predicate_subqueries l >> prepare_predicate_subqueries r

  unfoldable pub prepare_each : {A : Type 0} → (A → M (Unit {0})) → List A → M (Unit {0})
  prepare_each prepare [] = pure tt
  prepare_each prepare (x ∷ xs) = prepare x >> prepare_each prepare xs

  abbrev pub prepare_membership : Option BoundPredicate → M (Unit {0})
  prepare_membership none = pure tt
  prepare_membership (some p) = prepare_predicate_subqueries p

  -- The children of a join in the order in which they are prepared and executed.
  abbrev pub prepare_children : JoinKind → M (Unit {0}) → M (Unit {0}) → M (Unit {0})
  prepare_children null_aware_anti l r = r >> l
  prepare_children _ l r = l >> r

  unfoldable pub prepare_subqueries : LogicalPlan → M (Unit {0})
  unfolding prepare_each prepare_predicate_subqueries prepare_scalar_subquery
  prepare_subqueries (LogicalPlan.scan _ _ _) = pure tt
  prepare_subqueries (LogicalPlan.join _ kind predicates membership l r) =
      prepare_each prepare_predicate_subqueries predicates
      >> prepare_membership membership
      >> prepare_children kind (prepare_subqueries l) (prepare_subqueries r)
  prepare_subqueries (LogicalPlan.filter _ predicates input) =
      prepare_each prepare_predicate_subqueries predicates >> prepare_subqueries input
  prepare_subqueries (LogicalPlan.project _ projections input) =
      prepare_each (λ (p : Projection). prepare_scalar_subquery p.expression) projections
      >> prepare_subqueries input
  prepare_subqueries (LogicalPlan.aggregate _ _ _ input) = prepare_subqueries input
  prepare_subqueries (LogicalPlan.window _ _ input) = prepare_subqueries input
  prepare_subqueries (LogicalPlan.distinct _ input) = prepare_subqueries input
  prepare_subqueries (LogicalPlan.sort _ _ input) = prepare_subqueries input
  prepare_subqueries (LogicalPlan.limit _ _ input) = prepare_subqueries input
  prepare_subqueries (LogicalPlan.explain _ input) = prepare_subqueries input
