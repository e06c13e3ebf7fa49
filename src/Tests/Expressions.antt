-- ===== src/Tests/Expressions.antt =====
-- Predicates, the folding of predicates, the factories of joins, and aggregates.
use mathlib.Core.List.{Permᴰ}
use vectorized_sql_engine.Base.{
  Option, none, Result, codes, ◌⊎◌, ◌≡◌, refl, ◌+ℤ◌, fits_int64, int64_max, pos, true, false, some,
  List, [], ◌∷◌, ok, arith,
}
use vectorized_sql_engine.Catalog.{ColumnType}
use vectorized_sql_engine.Sql.Ast.{ComparisonOp, AggregateFunction}
use vectorized_sql_engine.Plan.{PlanRef, LogicalPlan, BoundPredicate, AggregateExpression, left}
use vectorized_sql_engine.Execution.Cell.{Cell, null_cell, int64_cell, cell_eq}
use vectorized_sql_engine.Execution.Truth.{TruthValue}
use vectorized_sql_engine.Execution.Scalar.{cell_at}
use vectorized_sql_engine.Execution.Predicate.{
  evaluate_predicate, evaluate_join_predicate, in_result,
}
use vectorized_sql_engine.Execution.Membership.{in_result-any}
use vectorized_sql_engine.Execution.Aggregate.{start_value, aggregate_argument_value}
use vectorized_sql_engine.Execution.Aggregate.Totals.{
  accumulate_all, count-accumulate_all, sum-accumulate_all,
}
use vectorized_sql_engine.Execution.Window.{update_range_peer}
use vectorized_sql_engine.Execution.Window.PeerSum.{update_range_peer-Perm}
use vectorized_sql_engine.Rewrite.Fold.{fold_predicate_tree}
use vectorized_sql_engine.Rewrite.FoldStable.{fold_idem}
use vectorized_sql_engine.Rewrite.FoldRows.{evaluate_predicate-fold, evaluate_join_predicate-fold}
use vectorized_sql_engine.Plan.Factories.{Passes, make_join, make_null_aware_anti, factories-Passes}
use vectorized_sql_engine.Execution.Context.{ExecutionContext, OuterRowFrame, M, push_each}
use vectorized_sql_engine.Execution.Scalar.{materialize_subquery}
use vectorized_sql_engine.Storage.Batch.{AnyColumn, ColumnarBatch}
use vectorized_sql_engine.Execution.Tables.{Catalog}
use vectorized_sql_engine.Execution.Node.{subplan, run_subplan}
use vectorized_sql_engine.Execution.Cache.{materialize_subquery_once}
use mathlib.Core.List.{Memᴰ}
use vectorized_sql_engine.Execution.Aggregate.Totals.{non_null}
use vectorized_sql_engine.Execution.Aggregate.Least.{is_least, min-accumulate_all}
use vectorized_sql_engine.Tests.Data.{
  amount, orders, amount_column, amount_values, start, no_subplans, no_run, int_expr, amount_expr,
  orders-rows, orders_scan, amounts,
}

-- 1 < 2 AND a IS NOT NULL
abbrev has_amount : BoundPredicate
has_amount =
    BoundPredicate.both
      (BoundPredicate.comparison (record {
        left = int_expr (pos 1);
        op = ComparisonOp.less;
        right = int_expr (pos 2);
        operator_position = 0;
      }))
      (BoundPredicate.is_not_null amount_expr 0) 0

has_amount-row :
    evaluate_predicate no_subplans no_run has_amount orders 0 start ≡ ok (TruthValue.true, start)
unfolding evaluate_predicate
has_amount-row = refl

evaluate_predicate-fold_example :
    evaluate_predicate no_subplans no_run (BoundPredicate.is_not_null amount_expr 0) orders 0 start
    ≡ ok (TruthValue.true, start)
unfolding fold_predicate_tree
evaluate_predicate-fold_example =
    evaluate_predicate-fold no_subplans no_run has_amount false orders 0 start
      (TruthValue.true, start) has_amount-row

has_amount-pair :
    evaluate_join_predicate no_subplans no_run has_amount orders 1 orders 0 start
    ≡ ok (TruthValue.false, start)
unfolding evaluate_join_predicate
has_amount-pair = refl

evaluate_join_predicate-fold_example :
    evaluate_join_predicate no_subplans no_run
      (BoundPredicate.is_not_null amount_expr 0)
      orders
      1
      orders
      0
      start
    ≡ ok (TruthValue.false, start)
unfolding fold_predicate_tree
evaluate_join_predicate-fold_example =
    evaluate_join_predicate-fold no_subplans no_run has_amount false orders 1 orders 0 start
      (TruthValue.false, start) has_amount-pair

fold_idem_example :
    fold_predicate_tree (fold_predicate_tree has_amount false).0 false
    ≡ ((fold_predicate_tree has_amount false).0, false)
fold_idem_example = fold_idem has_amount false false

factories-Passes_example :
    Passes (make_join (has_amount ∷ []) orders_scan orders_scan left)
    × Passes (make_null_aware_anti has_amount orders_scan orders_scan (has_amount ∷ []))
factories-Passes_example =
    factories-Passes has_amount (has_amount ∷ []) orders_scan orders_scan left

amounts-hold :
    (cell_at orders amount 0 ≡ ok (int64_cell (pos 5)))
    × (cell_at orders amount 1 ≡ ok (null_cell ColumnType.int64))
    × (cell_at orders amount 2 ≡ ok (int64_cell (pos 7)))
unfolding cell_at
amounts-hold = (refl, refl, refl)

-- 6 IN (5, NULL, 7)
in_result-any_example : in_result (int64_cell (pos 6)) orders ≡ ok TruthValue.unknown
unfolding cell_eq
in_result-any_example =
    in_result-any (int64_cell (pos 6)) orders amount
      (int64_cell (pos 5) ∷ null_cell ColumnType.int64 ∷ int64_cell (pos 7) ∷ []) refl orders-rows
      (amounts-hold.0, (amounts-hold.1, (amounts-hold.2, tt)))

abbrev some_cells : List Cell
some_cells = int64_cell (pos 5) ∷ null_cell ColumnType.int64 ∷ int64_cell (pos 7) ∷ []

sum-accumulate_all_example :
    accumulate_all AggregateFunction.sum amount some_cells start_value
    ≡ ok (record start_value { sum = pos 12; has_value = true })
unfolding fits_int64 ◌+ℤ◌
sum-accumulate_all_example = sum-accumulate_all amount some_cells start_value refl

count-accumulate_all_example :
    accumulate_all AggregateFunction.count amount some_cells start_value
    ≡ ok (record start_value { count = 2 })
unfolding int64_max
count-accumulate_all_example =
    count-accumulate_all amount some_cells start_value (unfold int64_max in omega arith)

abbrev sum_amount : AggregateExpression
sum_amount = record {
  output_name = amount;
  function = AggregateFunction.sum;
  argument = some amount_column;
  position = 0;
  type = ColumnType.int64;
}

arguments-read :
    (aggregate_argument_value sum_amount orders 0 start ≡ ok (amount_values 0, start))
    × (aggregate_argument_value sum_amount orders 2 start ≡ ok (amount_values 2, start))
unfolding aggregate_argument_value
arguments-read = (refl, refl)

update_range_peer-Perm_example :
    update_range_peer sum_amount orders (0 ∷ 2 ∷ []) start_value start
    ≡ update_range_peer sum_amount orders (2 ∷ 0 ∷ []) start_value start
update_range_peer-Perm_example =
    update_range_peer-Perm sum_amount orders amount_values (0 ∷ 2 ∷ []) (2 ∷ 0 ∷ []) start_value
      start refl (arguments-read.0, (arguments-read.1, tt)) (Permᴰ.swap refl refl)

-- Two subplans, which scan the orders.
abbrev two_plans : List LogicalPlan
two_plans = orders_scan ∷ orders_scan ∷ []

abbrev catalog : Catalog
catalog = (codes "orders", orders) ∷ []

abbrev no_explain : LogicalPlan → Catalog → Result ColumnarBatch
no_explain plan tables = ok orders

abbrev scanned : ColumnarBatch
scanned = record {
  columns = (codes "o.a", AnyColumn.int64 amounts) ∷ [];
  column_names = codes "o.a" ∷ [];
}

abbrev after_first : ExecutionContext
after_first = record { subquery_results = (0, scanned) ∷ []; outer_rows = [] }

abbrev after_both : ExecutionContext
after_both = record { subquery_results = (1, scanned) ∷ (0, scanned) ∷ []; outer_rows = [] }

abbrev materialized : PlanRef → Option OuterRowFrame → M ColumnarBatch
materialized = materialize_subquery (subplan two_plans) (run_subplan no_explain catalog two_plans)

first_plan : subplan two_plans 0 ≡ some orders_scan
unfolding subplan
first_plan = refl

first_call : materialized 0 none start ≡ ok (scanned, after_first)
unfolding materialize_subquery run_subplan
first_call = refl

later_calls :
    push_each
      (λ (call : PlanRef × Option OuterRowFrame). materialized call.0 call.1)
      ((1, none) ∷ (0, none) ∷ [])
      after_first
    ≡ ok (scanned ∷ scanned ∷ [], after_both)
unfolding push_each materialize_subquery run_subplan
later_calls = refl

materialize_subquery_once_example :
    materialize_subquery (subplan two_plans) no_run 0 none after_both ≡ ok (scanned, after_both)
materialize_subquery_once_example =
    materialize_subquery_once no_explain catalog two_plans no_run 0 orders_scan none none
      ((1, none) ∷ (0, none) ∷ []) scanned (scanned ∷ scanned ∷ []) start after_first after_both
      first_plan refl first_call later_calls

min-accumulate_all_example :
    ((non_null some_cells ≡ [])
      × (accumulate_all AggregateFunction.min amount some_cells start_value ≡ ok start_value))
    ⊎ ((out : Cell) × (accumulate_all AggregateFunction.min amount some_cells start_value
          ≡ ok (record start_value { value = out; has_value = true }))
        × (is_least out (non_null some_cells) ≡ true)
        × Memᴰ out (non_null some_cells))
min-accumulate_all_example = min-accumulate_all amount some_cells start_value refl
