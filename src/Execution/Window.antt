-- ===== src/Execution/Window.antt =====
-- src/execution/interpreter.cpp: partitions, peers and the updates of window functions.
pub mod Frames
pub mod PeerSum
use vectorized_sql_engine.Base.{
  ℕ, suc, ◌+◌, ℤ, pos, ltb_ℤ, ltb, int64_max, Bytes, Bool, true, false, not, Option, none, some,
  List, [], ◌∷◌, ◌++◌, range, length, set, replicate, Result, ok, throw, Exception, and_then, at,
  if◌then◌else◌,
}
use vectorized_sql_engine.Sql.Ast.{AggregateFunction, WindowFunction, WindowFrame}
use vectorized_sql_engine.Catalog.{ColumnType}
use vectorized_sql_engine.Storage.Batch.{
  AnyColumn, ColumnarBatch, empty_batch, row_count, add_column, column_type, column, string_column,
}
use vectorized_sql_engine.Plan.{BoundColumnRef, SortKey, AggregateExpression, WindowExpression}
use vectorized_sql_engine.Execution.Cell.{
  Cell, null_cell, int64_cell, cell_eq, OutputColumn, output_column, append_cell, add_to,
}
use vectorized_sql_engine.Execution.Context.{M, ◌>>=◌, pure, lift, for_each}
use vectorized_sql_engine.Execution.Rows.{key_value, find_key, row_less, stable_sort}
use vectorized_sql_engine.Execution.Aggregate.{
  AggregateValue, start_value, overflowed, update_sum, update_aggregate, finalize_aggregate,
  aggregate_argument_value, group_key_values,
}

unfoldable pub aggregate_function_for_window : WindowFunction → Result AggregateFunction
aggregate_function_for_window WindowFunction.count = ok AggregateFunction.count
aggregate_function_for_window WindowFunction.sum = ok AggregateFunction.sum
aggregate_function_for_window WindowFunction.min = ok AggregateFunction.min
aggregate_function_for_window WindowFunction.max = ok AggregateFunction.max
aggregate_function_for_window _ = throw Exception.logic_error "ranking window is not an aggregate"

unfoldable pub aggregate_expression_for_window : WindowExpression → Result AggregateExpression
unfolding aggregate_function_for_window
aggregate_expression_for_window window =
    and_then (aggregate_function_for_window window.function) λ function. ok (record {
      output_name = window.output_name;
      function = function;
      argument = window.argument;
      position = window.position;
      type = window.type;
    })

unfoldable pub window_rows_are_peers : List SortKey → ColumnarBatch → ℕ → ℕ → M Bool
unfolding key_value cell_eq
window_rows_are_peers [] input l r = pure true
window_rows_are_peers (key ∷ keys) input l r =
    let rest = window_rows_are_peers keys input l r in
    key_value key.column input l >>= λ left_value. key_value key.column input r >>= λ right_value.
    if not (cell_eq left_value right_value) then pure false else rest

unfoldable pub checked_window_ordinal : ℕ → Bytes → Result ℤ
unfolding int64_max
checked_window_ordinal ordinal output_name =
    if ltb int64_max ordinal then overflowed output_name else ok (pos ordinal)

-- `values.at(row) = value`
unfoldable pub put : List Cell → ℕ → Cell → Result (List Cell)
put values row value =
    if ltb row (length values)
    then ok (set values row value)
    else throw Exception.out_of_range "vector::at"

unfoldable pub put_all : List Cell → List ℕ → Cell → Result (List Cell)
unfolding put
put_all values [] value = ok values
put_all values (row ∷ rows) value =
    and_then (put values row value) λ values'. put_all values' rows value

-- The partitions in the order in which their keys came up, and the index of each key.
pub record Partitions : Type 0 where
  pub partition_index_by_key : List (List Cell × ℕ)
  pub partitions : List (List ℕ)

abbrev push_at : List (List ℕ) → ℕ → ℕ → Result (List (List ℕ))
push_at partitions index row =
    and_then (at partitions index) λ rows. ok (set partitions index (rows ++ row ∷ []))

abbrev place_row : List Cell → ℕ → Option ℕ → Partitions → Result Partitions
place_row key row none p = ok (record {
  partition_index_by_key = (key, length p.partitions) ∷ p.partition_index_by_key;
  partitions = p.partitions ++ (row ∷ []) ∷ [];
})
place_row key row (some index) p =
    and_then (push_at p.partitions index row)
      λ partitions. ok (record p { partitions = partitions })

unfoldable pub build_window_partitions : WindowExpression → ColumnarBatch → M (List (List ℕ))
unfolding row_count for_each group_key_values find_key
build_window_partitions window input = lift (row_count input) >>= λ rows.
    for_each
      (λ p row. group_key_values window.partition_keys input row >>= λ key.
        lift (place_row key row (find_key key p.partition_index_by_key) p))
      (record { partition_index_by_key = []; partitions = [] }) (range 0 rows)
    >>= λ p. pure p.partitions

unfoldable pub ordered_window_rows : WindowExpression → List ℕ → ColumnarBatch → M (List ℕ)
unfolding stable_sort row_less
ordered_window_rows window partition input =
    stable_sort (row_less window.order_keys input) partition

-- std::sort of int64 values
unfoldable pub insert_argument : ℤ → List ℤ → List ℤ
insert_argument x [] = x ∷ []
insert_argument x (y ∷ ys) = if ltb_ℤ y x then y ∷ insert_argument x ys else x ∷ y ∷ ys

unfoldable pub sort_arguments : List ℤ → List ℤ
unfolding insert_argument
sort_arguments [] = []
sort_arguments (x ∷ xs) = insert_argument x (sort_arguments xs)

-- The loop of update_sum over the arguments.
unfoldable pub sum_all : Bytes → List ℤ → AggregateValue → Result AggregateValue
unfolding update_sum
sum_all output_name [] state = ok state
sum_all output_name (x ∷ xs) state =
    and_then (update_sum output_name x state) λ state'. sum_all output_name xs state'

-- The non-NULL arguments of the rows of a peer.
unfoldable pub peer_arguments : AggregateExpression → ColumnarBatch → List ℕ → M (List ℤ)
unfolding aggregate_argument_value
peer_arguments aggregate input [] = pure []
peer_arguments aggregate input (row ∷ rows) =
    aggregate_argument_value aggregate input row >>= λ argument.
    peer_arguments aggregate input rows >>= λ rest.
    pure (if argument.is_null then rest else argument.int_value ∷ rest)

abbrev pub is_sum : AggregateFunction → Bool
is_sum AggregateFunction.sum = true
is_sum _ = false

-- `rows` is ordered_rows from peer_begin to peer_end.
unfoldable pub update_range_peer :
    AggregateExpression → ColumnarBatch → List ℕ → AggregateValue → M AggregateValue
unfolding for_each update_aggregate peer_arguments sum_all sort_arguments
update_range_peer aggregate input rows state =
    if not (is_sum aggregate.function)
    then for_each (λ s row. update_aggregate aggregate input row s) state rows
    else peer_arguments aggregate input rows >>= λ arguments.
        lift (sum_all aggregate.output_name (sort_arguments arguments) state)
