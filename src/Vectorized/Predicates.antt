-- ===== src/Vectorized/Predicates.antt =====
-- src/execution/vectorized.cpp: compiled predicates. CompiledPredicate and CompiledJoinPredicate
-- differ in their scalars only, so both are one type, and compile_predicate and
-- compile_join_predicate are one function of how a scalar is compiled. The struct's `kind` selects
-- the fields in use: here each kind has its own, and no child and no value set is missing.
use vectorized_sql_engine.Base.{
  ℤ, ltb_ℤ, eqb_ℤ, Bytes, str_lt, str_eq, Bool, not, Option, List, [], ◌∷◌, Result, ok, throw,
  Exception, ◌==◌, if◌then◌else◌,
}
use vectorized_sql_engine.Catalog.{int64, string}
use vectorized_sql_engine.Sql.Ast.{
  ComparisonOp, equal, not_equal, less, less_equal, greater, greater_equal,
}
use vectorized_sql_engine.Storage.Batch.{ColumnarBatch, row_count}
use vectorized_sql_engine.Plan.{
  PlanRef, LogicalPlan, BoundScalarExpr, BoundComparisonExpr, BoundPredicate,
}
use vectorized_sql_engine.Execution.Cell.{type_eq}
use vectorized_sql_engine.Execution.Truth.{
  TruthValue, truth_from_bool, and_truth, or_truth, not_truth,
}
use vectorized_sql_engine.Vectorized.Cells.{TypedCell, MaterializedValueSet, evaluate_in_truth}
use vectorized_sql_engine.Vectorized.Scalars.{◌>>=◌, CompiledScalar}
use vectorized_sql_engine.Vectorized.Context.{
  PreparedContext, prepared_subquery, prepared_value_set, compile_scalar,
}

unfoldable pub compare_int_values : ℤ → ComparisonOp → ℤ → Bool
compare_int_values l equal r = eqb_ℤ l r
compare_int_values l not_equal r = not (eqb_ℤ l r)
compare_int_values l less r = ltb_ℤ l r
compare_int_values l less_equal r = not (ltb_ℤ r l)
compare_int_values l greater r = ltb_ℤ r l
compare_int_values l greater_equal r = not (ltb_ℤ l r)

unfoldable pub compare_string_values : Bytes → ComparisonOp → Bytes → Bool
unfolding str_eq str_lt
compare_string_values l equal r = str_eq l r
compare_string_values l not_equal r = not (str_eq l r)
compare_string_values l less r = str_lt l r
compare_string_values l less_equal r = not (str_lt r l)
compare_string_values l greater r = str_lt r l
compare_string_values l greater_equal r = not (str_lt l r)

unfoldable pub compare_cells : TypedCell → ComparisonOp → TypedCell → Result Bool
unfolding compare_int_values compare_string_values
compare_cells l op r =
    if not (type_eq l.type r.type)
    then throw Exception.logic_error "typed comparison received mismatched cell types"
    else elim l.type [
      | int64 ↦ ok (compare_int_values l.int_value op r.int_value)
      | string ↦ ok (compare_string_values l.string_value op r.string_value)
    ]

pub record CompiledComparison (S : Type 0) : Type 0 where
  pub left : S
  pub op : ComparisonOp
  pub right : S

pub data CompiledPredicate (S : Type 0) : Type 0 where
  comparison : CompiledComparison S → CompiledPredicate S
  is_null is_not_null : (null_check : S) → CompiledPredicate S
  is_in not_in : (in_value : S) (value_set : MaterializedValueSet) → CompiledPredicate S
  exists not_exists : (exists_value : Bool) → CompiledPredicate S
  both either : (left right : CompiledPredicate S) → CompiledPredicate S

module _ (subplans : PlanRef → Option LogicalPlan) where
  module _ {S : Type 0} (context : PreparedContext) (compile : BoundScalarExpr → Result S) where
    abbrev pub compile_comparison : BoundComparisonExpr → Result (CompiledComparison S)
    compile_comparison c = do
      l ← compile c.left
      r ← compile c.right
      ok (record { left = l; op = c.op; right = r })

    abbrev exists_value : PlanRef → Result Bool
    exists_value ref = do
      result ← prepared_subquery subplans ref context
      rows ← row_count result
      ok (not (rows == 0))

    unfoldable pub compile_with : BoundPredicate → Result (CompiledPredicate S)
    unfolding prepared_subquery prepared_value_set row_count
    compile_with (BoundPredicate.comparison c) = do
      compiled ← compile_comparison c
      ok (CompiledPredicate.comparison compiled)
    compile_with (BoundPredicate.is_null e _) = do s ← compile e; ok (CompiledPredicate.is_null s)
    compile_with (BoundPredicate.is_not_null e _) = do
      s ← compile e
      ok (CompiledPredicate.is_not_null s)
    compile_with (BoundPredicate.is_in e subquery _ _) = do
      s ← compile e
      set ← prepared_value_set subplans subquery context
      ok (CompiledPredicate.is_in s set)
    compile_with (BoundPredicate.not_in e subquery _ _) = do
      s ← compile e
      set ← prepared_value_set subplans subquery context
      ok (CompiledPredicate.not_in s set)
    compile_with (BoundPredicate.exists subquery _ _) = do
      b ← exists_value subquery
      ok (CompiledPredicate.exists b)
    compile_with (BoundPredicate.not_exists subquery _ _) = do
      b ← exists_value subquery
      ok (CompiledPredicate.not_exists b)
    compile_with (BoundPredicate.both l r _) = do
      a ← compile_with l
      b ← compile_with r
      ok (CompiledPredicate.both a b)
    compile_with (BoundPredicate.either l r _) = do
      a ← compile_with l
      b ← compile_with r
      ok (CompiledPredicate.either a b)

    unfoldable pub compile_all : List BoundPredicate → Result (List (CompiledPredicate S))
    unfolding compile_with
    compile_all [] = ok []
    compile_all (p ∷ ps) = do c ← compile_with p; cs ← compile_all ps; ok (c ∷ cs)

  unfoldable pub compile_predicate :
      BoundPredicate → ColumnarBatch → PreparedContext → Result (CompiledPredicate CompiledScalar)
  unfolding compile_with compile_scalar
  compile_predicate p batch context =
      compile_with context (λ e. compile_scalar subplans e batch context) p

  unfoldable pub compile_predicates :
      List BoundPredicate
      → ColumnarBatch
      → PreparedContext
      → Result (List (CompiledPredicate CompiledScalar))
  unfolding compile_all compile_scalar
  compile_predicates ps batch context =
      compile_all context (λ e. compile_scalar subplans e batch context) ps

-- The truth value of a compiled predicate on one row, or on one pair of rows: `is_null` and `cell`
-- read a scalar there.
module _ {S : Type 0} (is_null : S → Result Bool) (cell : S → Result TypedCell) where
  unfoldable pub evaluate_comparison : CompiledComparison S → Result TruthValue
  unfolding compare_cells
  evaluate_comparison c = do
    l ← cell c.left
    r ← cell c.right
    let compared = (do b ← compare_cells l c.op r; ok (truth_from_bool b)) in
        if l.is_null
        then ok TruthValue.unknown
        else if r.is_null
        then ok TruthValue.unknown
        else compared

  unfoldable pub evaluate_with : CompiledPredicate S → Result TruthValue
  unfolding evaluate_comparison evaluate_in_truth
  evaluate_with (CompiledPredicate.comparison c) = evaluate_comparison c
  evaluate_with (CompiledPredicate.is_null s) = do n ← is_null s; ok (truth_from_bool n)
  evaluate_with (CompiledPredicate.is_not_null s) = do n ← is_null s; ok (truth_from_bool (not n))
  evaluate_with (CompiledPredicate.is_in s set) = do v ← cell s; ok (evaluate_in_truth v set)
  evaluate_with (CompiledPredicate.not_in s set) = do
    v ← cell s
    ok (not_truth (evaluate_in_truth v set))
  evaluate_with (CompiledPredicate.exists b) = ok (truth_from_bool b)
  evaluate_with (CompiledPredicate.not_exists b) = ok (truth_from_bool (not b))
  evaluate_with (CompiledPredicate.both l r) = do
    a ← evaluate_with l
    b ← evaluate_with r
    ok (and_truth a b)
  evaluate_with (CompiledPredicate.either l r) = do
    a ← evaluate_with l
    b ← evaluate_with r
    ok (or_truth a b)

  -- The loop of evaluate_join_predicates over the conjuncts; all of them are evaluated.
  unfoldable pub evaluate_all : TruthValue → List (CompiledPredicate S) → Result TruthValue
  unfolding evaluate_with
  evaluate_all keep [] = ok keep
  evaluate_all keep (p ∷ ps) = do t ← evaluate_with p; evaluate_all (and_truth keep t) ps
