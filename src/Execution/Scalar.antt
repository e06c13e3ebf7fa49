-- ===== src/Execution/Scalar.antt =====
-- Reading cells, materializing subqueries, and evaluating scalar expressions. `run` prepares and
-- executes a subplan; Execution/Node ties it to the execution of plans.
use vectorized_sql_engine.Base.{
  ℕ, zero, suc, Bytes, codes, Bool, true, false, Option, none, some, List, [], ◌∷◌, ◌++◌, get_elem?,
  Result, ok, err, throw, thrown, Exception, and_then, ◌==◌, if◌then◌else◌,
}
use vectorized_sql_engine.Catalog.{ColumnType}
use vectorized_sql_engine.Storage.Column.{is_null, value_at}
use vectorized_sql_engine.Storage.Batch.{
  ColumnarBatch, column, string_column, column_type, has_column, row_count,
}
use vectorized_sql_engine.Plan.{
  PlanRef, LogicalPlan, BoundColumnRef, Value, BoundScalarExpr, info_of,
}
use vectorized_sql_engine.Execution.Cell.{Cell, null_cell, int64_cell, string_cell}
use vectorized_sql_engine.Execution.Context.{
  ExecutionContext, OuterRowFrame, M, ◌>>=◌, pure, lift, raise, find_result, with_outer_row,
}

abbrev is_empty : Bytes → Bool
is_empty [] = true
is_empty (_ ∷ _) = false

unfoldable pub column_identity_name : BoundColumnRef → Bytes
column_identity_name c = if is_empty c.binding then c.column else c.binding ++ codes "." ++ c.column

abbrev int64_cell_at : ColumnarBatch → Bytes → ℕ → Result Cell
int64_cell_at batch name row = and_then (column name batch) λ c. and_then (is_null c row) λ null.
    if null
    then ok (null_cell ColumnType.int64)
    else and_then (value_at c row) λ v. ok (int64_cell v)

abbrev string_cell_at : ColumnarBatch → Bytes → ℕ → Result Cell
string_cell_at batch name row = and_then (string_column name batch) λ c.
    and_then (is_null c row) λ null.
      if null
      then ok (null_cell ColumnType.string)
      else and_then (value_at c row) λ v. ok (string_cell v)

abbrev typed_cell_at : ColumnType → ColumnarBatch → Bytes → ℕ → Result Cell
typed_cell_at ColumnType.int64 = int64_cell_at
typed_cell_at ColumnType.string = string_cell_at

unfoldable pub cell_at : ColumnarBatch → Bytes → ℕ → Result Cell
unfolding column_type column string_column is_null value_at
cell_at batch name row = and_then (column_type name batch) λ type. typed_cell_at type batch name row

-- The side of a frame that has the column.
abbrev pub side_with : Bytes → Option ColumnarBatch → ℕ → Option (ColumnarBatch × ℕ)
side_with name none row = none
side_with name (some batch) row = if has_column name batch then some (batch, row) else none

abbrev frame_cell : Bytes → Option (ColumnarBatch × ℕ) → Result Cell → Result Cell
frame_cell name none otherwise = otherwise
frame_cell name (some (batch, row)) otherwise = cell_at batch name row

abbrev frame_cell_at : Bytes → OuterRowFrame → Result Cell
frame_cell_at name frame = frame_cell name (side_with name frame.left frame.left_row) (
    frame_cell name (side_with name frame.right frame.right_row) (
      err (
        thrown Exception.logic_error "outer column identity is missing from its row frame: " name)))

abbrev outer_frame : Bytes → ℕ → List OuterRowFrame → Result OuterRowFrame
outer_frame name (suc depth) frames = elim (get_elem? frames depth) [
  | some frame ↦ ok frame
  | none ↦ err (thrown Exception.logic_error "outer column depth is not available: " name)
]
outer_frame name zero frames =
    err (thrown Exception.logic_error "outer column depth is not available: " name)

unfoldable pub outer_cell_at : BoundColumnRef → M Cell
unfolding column_identity_name cell_at has_column
outer_cell_at c σ =
    let name = column_identity_name c in
    lift (and_then (outer_frame name c.outer_depth σ.outer_rows) (frame_cell_at name)) σ

abbrev pub is_correlated : LogicalPlan → Bool
is_correlated plan = elim (info_of plan).correlation_columns [ [] ↦ false | _ ∷ _ ↦ true ]

abbrev single_cell : List Bytes → ColumnarBatch → Result Cell
single_cell (name ∷ []) batch = cell_at batch name 0
single_cell _ batch =
    throw Exception.logic_error "bound scalar subquery did not produce exactly one output column"

abbrev scalar_result : Bytes → ColumnType → ColumnarBatch → ℕ → Result Cell
scalar_result name type batch zero = ok (null_cell type)
scalar_result name type batch (suc zero) = single_cell batch.column_names batch
scalar_result name type batch (suc (suc _)) =
    err (thrown Exception.runtime_error " returned more than one row" name)

abbrev pub row_frame : ColumnarBatch → ℕ → OuterRowFrame
row_frame batch row = record { left = some batch; left_row = row; right = none; right_row = 0 }

abbrev pub pair_frame : ColumnarBatch → ℕ → ColumnarBatch → ℕ → OuterRowFrame
pair_frame l left_row r right_row = record {
  left = some l;
  left_row = left_row;
  right = some r;
  right_row = right_row;
}

abbrev pair_cell_at : BoundColumnRef → ColumnarBatch → ℕ → ColumnarBatch → ℕ → Result Cell
pair_cell_at c l left_row r right_row =
    let name = column_identity_name c in
    if has_column name l
    then cell_at l name left_row
    else if has_column name r
    then cell_at r name right_row
    else err (
        thrown Exception.logic_error "bound join column identity is missing from both inputs: "
          name)

-- std::map::emplace: an entry that is there stays.
abbrev pub remembered :
    PlanRef
    → ColumnarBatch
    → ExecutionContext
    → Option ColumnarBatch
    → ColumnarBatch × ExecutionContext
remembered ref result σ (some batch) = (batch, σ)
remembered ref result σ none =
    (result, record σ { subquery_results = (ref, result) ∷ σ.subquery_results })

abbrev pub from_cache :
    M ColumnarBatch
    → PlanRef
    → ExecutionContext
    → Option ColumnarBatch
    → Result (ColumnarBatch × ExecutionContext)
from_cache m ref σ (some batch) = ok (batch, σ)
from_cache m ref σ none =
    and_then (m σ) λ r. ok (remembered ref r.0 r.1 (find_result ref (r.1).subquery_results))

module _ (subplans : PlanRef → Option LogicalPlan) (run : LogicalPlan → M ColumnarBatch) where
  -- The uncorrelated path: the cached batch, or one that is computed and then cached.
  abbrev pub materialize_once : PlanRef → LogicalPlan → M ColumnarBatch
  materialize_once ref plan σ = from_cache (run plan) ref σ (find_result ref σ.subquery_results)

  abbrev pub materialize_correlated : LogicalPlan → Option OuterRowFrame → M ColumnarBatch
  materialize_correlated plan none =
      raise Exception.logic_error "correlated subquery requires an outer row" []
  materialize_correlated plan (some frame) = with_outer_row frame (run plan)

  abbrev pub materialize_plan :
      PlanRef → Option LogicalPlan → Option OuterRowFrame → M ColumnarBatch
  materialize_plan ref none outer_row =
      raise Exception.invalid_argument "bound subquery is missing its logical plan" []
  materialize_plan ref (some plan) outer_row =
      if is_correlated plan
      then materialize_correlated plan outer_row
      else materialize_once ref plan

  unfoldable pub materialize_subquery : PlanRef → Option OuterRowFrame → M ColumnarBatch
  unfolding find_result
  materialize_subquery ref outer_row = materialize_plan ref (subplans ref) outer_row

  unfoldable pub evaluate_scalar_subquery : PlanRef → Bytes → ColumnType → OuterRowFrame → M Cell
  unfolding materialize_subquery row_count cell_at
  evaluate_scalar_subquery ref name type outer_row = do
    batch ← materialize_subquery ref (some outer_row)
    rows ← lift (row_count batch)
    lift (scalar_result name type batch rows)

  abbrev pub scalar_value : ColumnType → Value → ColumnarBatch → ℕ → M Cell
  scalar_value type (Value.column c) batch row =
      if c.outer_depth == 0
      then lift (cell_at batch (column_identity_name c) row)
      else outer_cell_at c
  scalar_value type (Value.int_literal v _) batch row = pure (int64_cell v)
  scalar_value type (Value.string_literal v _) batch row = pure (string_cell v)
  scalar_value type (Value.null_literal _) batch row = pure (null_cell type)
  scalar_value type (Value.subquery ref _ name) batch row = do
    value ← evaluate_scalar_subquery ref name type (row_frame batch row)
    pure (if value.is_null then null_cell type else value)

  unfoldable pub evaluate_scalar : BoundScalarExpr → ColumnarBatch → ℕ → M Cell
  unfolding evaluate_scalar_subquery outer_cell_at cell_at column_identity_name
  evaluate_scalar e batch row = scalar_value e.type e.value batch row

  abbrev pub join_scalar_value : ColumnType → Value → ColumnarBatch → ℕ → ColumnarBatch → ℕ → M Cell
  join_scalar_value type (Value.column c) l left_row r right_row =
      if c.outer_depth == 0 then lift (pair_cell_at c l left_row r right_row) else outer_cell_at c
  join_scalar_value type (Value.int_literal v _) l left_row r right_row = pure (int64_cell v)
  join_scalar_value type (Value.string_literal v _) l left_row r right_row = pure (string_cell v)
  join_scalar_value type (Value.null_literal _) l left_row r right_row = pure (null_cell type)
  join_scalar_value type (Value.subquery ref _ name) l left_row r right_row =
      evaluate_scalar_subquery ref name type (pair_frame l left_row r right_row)

  unfoldable pub evaluate_join_scalar :
      BoundScalarExpr → ColumnarBatch → ℕ → ColumnarBatch → ℕ → M Cell
  unfolding evaluate_scalar_subquery outer_cell_at cell_at column_identity_name has_column
  evaluate_join_scalar e l left_row r right_row =
      join_scalar_value e.type e.value l left_row r right_row
