-- ===== src/Execution/Window/Frames.antt =====
-- src/execution/interpreter.cpp: evaluate_window, by function and frame, and execute_window.
use vectorized_sql_engine.Base.{
  ℕ, suc, Bytes, Bool, true, Option, none, some, List, [], ◌∷◌, ◌++◌, replicate, Result, ok,
  and_then, if◌then◌else◌,
}
use vectorized_sql_engine.Sql.Ast.{WindowFunction, WindowFrame}
use vectorized_sql_engine.Catalog.{ColumnType}
use vectorized_sql_engine.Storage.Batch.{
  AnyColumn, ColumnarBatch, empty_batch, row_count, add_column, column_type, column, string_column,
}
use vectorized_sql_engine.Plan.{SortKey, AggregateExpression, WindowExpression}
use vectorized_sql_engine.Execution.Cell.{
  Cell, null_cell, int64_cell, OutputColumn, output_column, append_cell, add_to,
}
use vectorized_sql_engine.Execution.Context.{M, ◌>>=◌, pure, lift, for_each}
use vectorized_sql_engine.Execution.Aggregate.{
  AggregateValue, start_value, update_aggregate, finalize_aggregate,
}
use vectorized_sql_engine.Execution.Window.{
  aggregate_expression_for_window, window_rows_are_peers, checked_window_ordinal, put, put_all,
  build_window_partitions, ordered_window_rows, update_range_peer,
}

-- The branch of the ranking functions, from the row at `index` on: `previous` is the row before.
abbrev pub ordinal_of : WindowFunction → (row_number rank dense_rank : ℕ) → ℕ
ordinal_of WindowFunction.row_number row_number rank dense_rank = row_number
ordinal_of WindowFunction.rank row_number rank dense_rank = rank
ordinal_of _ row_number rank dense_rank = dense_rank

abbrev pub same_peer : List SortKey → ColumnarBatch → Option ℕ → ℕ → M Bool
same_peer keys input none row = pure true
same_peer keys input (some previous) row = window_rows_are_peers keys input previous row

unfoldable pub rank_rows :
    WindowExpression
    → ColumnarBatch
    → Option ℕ
    → (index rank dense_rank : ℕ) → List ℕ
    → List Cell
    → M (List Cell)
unfolding window_rows_are_peers checked_window_ordinal put
rank_rows window input previous index rank dense_rank [] values = pure values
rank_rows window input previous index rank dense_rank (row ∷ rows) values =
    same_peer window.order_keys input previous row >>= λ peers.
    let rank' = if peers then rank else suc index in
    let dense_rank' = if peers then dense_rank else suc dense_rank in
    lift (
      and_then
        (checked_window_ordinal (ordinal_of window.function (suc index) rank' dense_rank')
          window.output_name)
        λ ordinal. put values row (int64_cell ordinal))
    >>= λ values'. rank_rows window input (some row) (suc index) rank' dense_rank' rows values'

-- The loop of the RANGE frame. `peer` holds the rows from peer_begin on that are its peers so far.
abbrev pub end_peer :
    AggregateExpression
    → ColumnarBatch
    → List ℕ
    → AggregateValue
    → List Cell
    → M (AggregateValue × List Cell)
end_peer aggregate input peer state values =
    update_range_peer aggregate input peer state >>= λ state'.
    lift (put_all values peer (finalize_aggregate aggregate.function aggregate.type state'))
    >>= λ values'. pure (state', values')

unfoldable pub range_rows :
    AggregateExpression
    → List SortKey
    → ColumnarBatch
    → (peer_begin : ℕ) → (peer : List ℕ) → List ℕ
    → AggregateValue
    → List Cell
    → M (List Cell)
unfolding window_rows_are_peers update_range_peer put_all finalize_aggregate
range_rows aggregate keys input peer_begin peer [] state values =
    end_peer aggregate input peer state values >>= λ done. pure done.1
range_rows aggregate keys input peer_begin peer (row ∷ rows) state values =
    let go_on = range_rows aggregate keys input peer_begin (peer ++ row ∷ []) rows state values in
    let next = end_peer aggregate input peer state values >>= λ done.
    range_rows aggregate keys input row (row ∷ []) rows done.0 done.1 in
    window_rows_are_peers keys input peer_begin row >>= λ peers. if peers then go_on else next

unfoldable pub cumulative_rows :
    AggregateExpression → ColumnarBatch → List ℕ → AggregateValue → List Cell → M (List Cell)
unfolding update_aggregate finalize_aggregate put
cumulative_rows aggregate input [] state values = pure values
cumulative_rows aggregate input (row ∷ rows) state values =
    update_aggregate aggregate input row state >>= λ state'.
    lift (put values row (finalize_aggregate aggregate.function aggregate.type state'))
    >>= λ values'. cumulative_rows aggregate input rows state' values'

abbrev pub start_range :
    AggregateExpression → List SortKey → ColumnarBatch → List ℕ → List Cell → M (List Cell)
start_range aggregate keys input [] values = pure values
start_range aggregate keys input (row ∷ rows) values =
    range_rows aggregate keys input row (row ∷ []) rows start_value values

-- The branch of the aggregates, by the frame.
abbrev pub frame_rows :
    WindowFrame
    → WindowExpression
    → AggregateExpression
    → ColumnarBatch
    → List ℕ
    → List Cell
    → M (List Cell)
frame_rows WindowFrame.whole_partition window aggregate input rows values =
    for_each (λ s row. update_aggregate aggregate input row s) start_value rows >>= λ state.
    lift (put_all values rows (finalize_aggregate aggregate.function aggregate.type state))
frame_rows WindowFrame.rows_cumulative window aggregate input rows values =
    ordered_window_rows window rows input >>= λ ordered.
    cumulative_rows aggregate input ordered start_value values
frame_rows WindowFrame.range_cumulative window aggregate input rows values =
    ordered_window_rows window rows input >>= λ ordered.
    start_range aggregate window.order_keys input ordered values

abbrev pub ranked : WindowExpression → ColumnarBatch → List ℕ → List Cell → M (List Cell)
ranked window input rows values = ordered_window_rows window rows input >>= λ ordered.
    rank_rows window input none 0 1 1 ordered values

abbrev pub aggregated : WindowExpression → ColumnarBatch → List ℕ → List Cell → M (List Cell)
aggregated window input rows values = lift (aggregate_expression_for_window window) >>= λ aggregate.
    frame_rows window.frame window aggregate input rows values

-- The body of the loop over the partitions.
unfoldable pub partition_values :
    WindowFunction → WindowExpression → ColumnarBatch → List Cell → List ℕ → M (List Cell)
unfolding for_each update_aggregate put_all finalize_aggregate ordered_window_rows cumulative_rows
    range_rows rank_rows aggregate_expression_for_window
partition_values WindowFunction.row_number window input values rows =
    ranked window input rows values
partition_values WindowFunction.rank window input values rows = ranked window input rows values
partition_values WindowFunction.dense_rank window input values rows =
    ranked window input rows values
partition_values _ window input values rows = aggregated window input rows values

unfoldable pub append_all : List Cell → OutputColumn → OutputColumn
unfolding append_cell
append_all [] column = column
append_all (value ∷ values) column = append_all values (append_cell value column)

unfoldable pub evaluate_window : WindowExpression → ColumnarBatch → M OutputColumn
unfolding row_count build_window_partitions for_each partition_values append_all
evaluate_window window input = lift (row_count input) >>= λ rows.
    build_window_partitions window input >>= λ partitions.
    for_each (partition_values window.function window input)
      (replicate rows (null_cell window.type)) partitions
    >>= λ values. pure (append_all values (output_column window.type))

-- A column by its type, copied under the name `out_name`.
abbrev typed_column : ColumnType → ColumnarBatch → List ℕ → Result AnyColumn
typed_column ColumnType.int64 input name = and_then (column name input) λ c. ok (AnyColumn.int64 c)
typed_column ColumnType.string input name =
    and_then (string_column name input) λ c. ok (AnyColumn.string c)

unfoldable pub copy_column : ColumnarBatch → Bytes → Bytes → ColumnarBatch → Result ColumnarBatch
unfolding column_type column string_column add_column
copy_column input name out_name out =
    and_then (column_type name input)
      λ type. and_then (typed_column type input name) λ c. add_column out_name c out

unfoldable pub copy_all :
    ColumnarBatch → (Bytes → Bytes) → List Bytes → ColumnarBatch → Result ColumnarBatch
unfolding copy_column
copy_all input rename [] out = ok out
copy_all input rename (name ∷ names) out =
    and_then (copy_column input name (rename name) out) λ out'. copy_all input rename names out'

unfoldable pub window_columns :
    List WindowExpression → ColumnarBatch → ColumnarBatch → M ColumnarBatch
unfolding evaluate_window
window_columns [] input out = pure out
window_columns (window ∷ windows) input out = evaluate_window window input >>= λ column.
    lift (add_to out window.output_name column) >>= λ out'. window_columns windows input out'

-- execute_window, on the executed input
unfoldable pub window_batch : List WindowExpression → ColumnarBatch → M ColumnarBatch
unfolding copy_all window_columns
window_batch windows input =
    lift (copy_all input (λ name. name) input.column_names empty_batch) >>= λ out.
    window_columns windows input out
