-- ===== src/Tests/Joins.antt =====
-- The split of a join's predicates.
use vectorized_sql_engine.Base.{◌≡◌, refl, pos, codes, ◌&&◌, Option, some, List, [], ◌∷◌}
use vectorized_sql_engine.Catalog.{ColumnType}
use vectorized_sql_engine.Sql.Ast.{ComparisonOp}
use vectorized_sql_engine.Storage.Batch.{AnyColumn, ColumnarBatch}
use vectorized_sql_engine.Plan.{BoundScalarExpr, Value, BoundPredicate}
use vectorized_sql_engine.Execution.Cell.{int64_cell}
use vectorized_sql_engine.Execution.Truth.{TruthValue, is_true}
use vectorized_sql_engine.Vectorized.Scalars.{compile_columns}
use vectorized_sql_engine.Vectorized.Context.{PreparedContext}
use vectorized_sql_engine.Vectorized.JoinLoops.{make_non_null_key}
use vectorized_sql_engine.Vectorized.HashTable.{keys_match}
use vectorized_sql_engine.Vectorized.JoinScalars.{
  compile_join_predicates, split_join_predicates, evaluate_compiled_join_predicates,
}
use vectorized_sql_engine.Vectorized.SplitSound.{split_join_predicates-keys_match}
use vectorized_sql_engine.Tests.Data.{orders, amount_expr, int_expr, no_subplans}

-- An int64 column `b` of the right input: 7, 5.
abbrev payments : ColumnarBatch
payments = record {
  columns =
      (codes "b", AnyColumn.int64 (record { values = pos 7 ∷ pos 5 ∷ []; validity = Option.none }))
      ∷ [];
  column_names = codes "b" ∷ [];
}

abbrev payment_expr : BoundScalarExpr
payment_expr = record {
  value = Value.column (record {
    binding = [];
    column = codes "b";
    position = 0;
    type = ColumnType.int64;
    outer_depth = 0;
  });
  type = ColumnType.int64;
}

abbrev nothing_prepared : PreparedContext
nothing_prepared = record { subquery_results = []; subquery_value_sets = [] }

-- b = a AND a > 5
abbrev matched : List BoundPredicate
matched =
    BoundPredicate.comparison (record {
      left = payment_expr;
      op = ComparisonOp.equal;
      right = amount_expr;
      operator_position = 0;
    })
    ∷ BoundPredicate.comparison (record {
      left = amount_expr;
      op = ComparisonOp.greater;
      right = int_expr (pos 5);
      operator_position = 0;
    })
    ∷ []

-- The pair of the third order and the first payment: both 7.
split_join_predicates-keys_match_example : is_true TruthValue.true ≡ (
    keys_match (some (int64_cell (pos 7) ∷ [])) (some (int64_cell (pos 7) ∷ []))
    && is_true TruthValue.true)
unfolding compile_join_predicates split_join_predicates evaluate_compiled_join_predicates
    compile_columns make_non_null_key
split_join_predicates-keys_match_example =
    split_join_predicates-keys_match no_subplans nothing_prepared orders payments 2 0 matched _ _ _
      _ (some (int64_cell (pos 7) ∷ [])) (some (int64_cell (pos 7) ∷ [])) TruthValue.true
      TruthValue.true refl refl refl refl refl refl refl refl
