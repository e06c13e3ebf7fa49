-- ===== src/Tests/Data.antt =====
-- Test data: a batch of three rows, and a context without subqueries.
use vectorized_sql_engine.Base.{
  ℕ, zero, suc, ◌≡◌, refl, ℤ, pos, Bytes, codes, Option, none, some, [], ◌∷◌, ok, Exception,
}
use vectorized_sql_engine.Catalog.{ColumnType}
use vectorized_sql_engine.Storage.Column.{Column}
use vectorized_sql_engine.Storage.Batch.{AnyColumn, ColumnarBatch, row_count}
use vectorized_sql_engine.Storage.Valid.{IsValidBatch}
use vectorized_sql_engine.Plan.{
  PlanRef, LogicalPlan, BoundColumnRef, BoundScalarExpr, Value, fresh_info,
}
use vectorized_sql_engine.Execution.Cell.{Cell, null_cell, int64_cell}
use vectorized_sql_engine.Execution.Context.{ExecutionContext, M, raise, pure}

-- A nullable int64 column: 5, NULL, 7.
abbrev pub amounts : Column ℤ
amounts = record { values = pos 5 ∷ pos 0 ∷ pos 7 ∷ []; validity = some (1 ∷ 0 ∷ 1 ∷ []) }

abbrev pub amount : Bytes
amount = codes "a"

abbrev pub orders : ColumnarBatch
orders = record { columns = (amount, AnyColumn.int64 amounts) ∷ []; column_names = amount ∷ [] }

pub orders-IsValidBatch : IsValidBatch 3 orders
unfolding row_count
orders-IsValidBatch = record {
  fits = record { in_step = refl; valid = (refl, refl, refl, tt) };
  counted = refl;
}

abbrev pub amount_column : BoundColumnRef
amount_column = record {
  binding = [];
  column = amount;
  position = 0;
  type = ColumnType.int64;
  outer_depth = 0;
}

abbrev pub amount_values : ℕ → Cell
amount_values zero = int64_cell (pos 5)
amount_values (suc (suc zero)) = int64_cell (pos 7)
amount_values _ = null_cell ColumnType.int64

pub amount_values-type : (i : ℕ) → (amount_values i).type ≡ ColumnType.int64
amount_values-type zero = refl
amount_values-type (suc zero) = refl
amount_values-type (suc (suc zero)) = refl
amount_values-type (suc (suc (suc i))) = refl

abbrev pub start : ExecutionContext
start = record { subquery_results = []; outer_rows = [] }

abbrev pub no_subplans : PlanRef → Option LogicalPlan
no_subplans ref = none

abbrev pub no_run : LogicalPlan → M ColumnarBatch
no_run plan = raise Exception.invalid_argument "bound subquery is missing its logical plan" []

abbrev pub int_expr : ℤ → BoundScalarExpr
int_expr v = record { value = Value.int_literal v 0; type = ColumnType.int64 }

abbrev pub amount_expr : BoundScalarExpr
amount_expr = record { value = Value.column amount_column; type = ColumnType.int64 }

pub orders-rows : row_count orders ≡ ok 3
unfolding row_count
orders-rows = refl

abbrev pub orders_scan : LogicalPlan
orders_scan = LogicalPlan.scan fresh_info (codes "orders") (codes "o")

-- Each subquery is uncorrelated and gives the orders.
abbrev pub one_subplan : PlanRef → Option LogicalPlan
one_subplan ref = some orders_scan

abbrev pub run_orders : LogicalPlan → M ColumnarBatch
run_orders plan = pure orders

-- The context with the subquery 0 in the cache.
abbrev pub after : ExecutionContext
after = record { subquery_results = (0, orders) ∷ []; outer_rows = [] }
