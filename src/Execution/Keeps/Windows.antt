-- ===== src/Execution/Keeps/Windows.antt =====
-- src/execution/interpreter.cpp: execute_window, and the cache of subqueries.
use vectorized_sql_engine.Base.{
  ℕ, suc, ◌++◌, true, false, not, Option, none, some, List, [], ◌∷◌, range, and_then, if◌then◌else◌,
}
use vectorized_sql_engine.Storage.Batch.{ColumnarBatch, row_count, empty_batch}
use vectorized_sql_engine.Plan.{SortKey, AggregateExpression, WindowExpression}
use vectorized_sql_engine.Sql.Ast.{WindowFunction, WindowFrame}
use vectorized_sql_engine.Execution.Cell.{add_to, Cell, cell_eq, int64_cell}
use vectorized_sql_engine.Execution.Context.{ExecutionContext}
use vectorized_sql_engine.Execution.Aggregate.{finalize_aggregate, AggregateValue, start_value}
use vectorized_sql_engine.Execution.Window.{
  aggregate_expression_for_window, checked_window_ordinal, put, put_all, Partitions,
  window_rows_are_peers, build_window_partitions, ordered_window_rows, peer_arguments,
  update_range_peer, is_sum,
}
use vectorized_sql_engine.Execution.Window.Frames.{
  copy_all, ordinal_of, same_peer, rank_rows, end_peer, range_rows, cumulative_rows, start_range,
  frame_rows, ranked, aggregated, partition_values, evaluate_window, window_columns, window_batch,
}
use vectorized_sql_engine.Execution.Keeps.{
  OnlyAdds, pure-OnlyAdds, lift-OnlyAdds, if-OnlyAdds, bind-OnlyAdds, for_each-OnlyAdds,
}
use vectorized_sql_engine.Execution.Keeps.Operators.{
  key_value-OnlyAdds, row_less-OnlyAdds, stable_sort-OnlyAdds, group_key_values-OnlyAdds,
  aggregate_argument_value-OnlyAdds, update_aggregate-OnlyAdds,
}

window_rows_are_peers-OnlyAdds :
    (keys : List SortKey) (batch : ColumnarBatch) (l r : ℕ)
    → OnlyAdds (window_rows_are_peers keys batch l r)
unfolding window_rows_are_peers
window_rows_are_peers-OnlyAdds [] batch l r = pure-OnlyAdds true
window_rows_are_peers-OnlyAdds (key ∷ keys) batch l r =
    bind-OnlyAdds _ (key_value-OnlyAdds key.column batch l) λ a.
      bind-OnlyAdds _ (key_value-OnlyAdds key.column batch r) λ b.
        if-OnlyAdds (not (cell_eq a b)) (pure-OnlyAdds false)
          (window_rows_are_peers-OnlyAdds keys batch l r)

build_window_partitions-OnlyAdds :
    (w : WindowExpression) (batch : ColumnarBatch) → OnlyAdds (build_window_partitions w batch)
unfolding build_window_partitions
build_window_partitions-OnlyAdds w batch = bind-OnlyAdds _ (lift-OnlyAdds (row_count batch)) λ rows.
    bind-OnlyAdds _
      (for_each-OnlyAdds _ (range 0 rows) (λ p row.
        bind-OnlyAdds _ (group_key_values-OnlyAdds w.partition_keys batch row)
          λ key. lift-OnlyAdds _))
      λ (p : Partitions). pure-OnlyAdds p.partitions

ordered_window_rows-OnlyAdds :
    (w : WindowExpression) (rows : List ℕ) (batch : ColumnarBatch)
    → OnlyAdds (ordered_window_rows w rows batch)
unfolding ordered_window_rows
ordered_window_rows-OnlyAdds w rows batch =
    stable_sort-OnlyAdds (row_less-OnlyAdds w.order_keys batch) rows

peer_arguments-OnlyAdds :
    (e : AggregateExpression) (batch : ColumnarBatch) (rows : List ℕ)
    → OnlyAdds (peer_arguments e batch rows)
unfolding peer_arguments
peer_arguments-OnlyAdds e batch [] = pure-OnlyAdds []
peer_arguments-OnlyAdds e batch (row ∷ rows) =
    bind-OnlyAdds _ (aggregate_argument_value-OnlyAdds e batch row)
      λ argument. bind-OnlyAdds _ (peer_arguments-OnlyAdds e batch rows) λ rest. pure-OnlyAdds _

update_range_peer-OnlyAdds :
    (e : AggregateExpression) (batch : ColumnarBatch) (rows : List ℕ) (state : AggregateValue)
    → OnlyAdds (update_range_peer e batch rows state)
unfolding update_range_peer
update_range_peer-OnlyAdds e batch rows state =
    if-OnlyAdds (not (is_sum e.function))
      (for_each-OnlyAdds state rows (λ s row. update_aggregate-OnlyAdds e batch row s))
      (bind-OnlyAdds _ (peer_arguments-OnlyAdds e batch rows) λ arguments. lift-OnlyAdds _)

same_peer-OnlyAdds :
    (keys : List SortKey) (batch : ColumnarBatch) (previous : Option ℕ) (row : ℕ)
    → OnlyAdds (same_peer keys batch previous row)
same_peer-OnlyAdds keys batch none row = pure-OnlyAdds true
same_peer-OnlyAdds keys batch (some previous) row =
    window_rows_are_peers-OnlyAdds keys batch previous row

rank_rows-OnlyAdds :
    (w : WindowExpression) (batch : ColumnarBatch) (previous : Option ℕ) (index rank dense_rank : ℕ)
    (rows : List ℕ) (values : List Cell)
    → OnlyAdds (rank_rows w batch previous index rank dense_rank rows values)
unfolding rank_rows
rank_rows-OnlyAdds w batch previous index rank dense_rank [] values = pure-OnlyAdds values
rank_rows-OnlyAdds w batch previous index rank dense_rank (row ∷ rows) values =
    bind-OnlyAdds _ (same_peer-OnlyAdds w.order_keys batch previous row) λ peers.
      bind-OnlyAdds
        (λ (q : List Cell × ExecutionContext).
          rank_rows w batch (some row) (suc index) (if peers then rank else suc index)
            (if peers then dense_rank else suc dense_rank) rows q.0 q.1)
        (lift-OnlyAdds (
          and_then
            (checked_window_ordinal
              (ordinal_of w.function (suc index) (if peers then rank else suc index)
                (if peers then dense_rank else suc dense_rank))
              w.output_name)
            (λ ordinal. put values row (int64_cell ordinal))))
        λ values'.
          rank_rows-OnlyAdds w batch (some row) (suc index) (if peers then rank else suc index)
            (if peers then dense_rank else suc dense_rank) rows values'

end_peer-OnlyAdds :
    (e : AggregateExpression) (batch : ColumnarBatch) (peer : List ℕ) (state : AggregateValue)
    (values : List Cell)
    → OnlyAdds (end_peer e batch peer state values)
end_peer-OnlyAdds e batch peer state values =
    bind-OnlyAdds _ (update_range_peer-OnlyAdds e batch peer state) λ state'.
      bind-OnlyAdds _
        (lift-OnlyAdds (put_all values peer (finalize_aggregate e.function e.type state')))
        λ values'. record { keeps = λ σ ref batch found. found }

range_rows-OnlyAdds :
    (e : AggregateExpression) (keys : List SortKey) (batch : ColumnarBatch) (peer_begin : ℕ)
    (peer rows : List ℕ) (state : AggregateValue) (values : List Cell)
    → OnlyAdds (range_rows e keys batch peer_begin peer rows state values)
unfolding range_rows
range_rows-OnlyAdds e keys batch peer_begin peer [] state values =
    bind-OnlyAdds _ (end_peer-OnlyAdds e batch peer state values) λ done. pure-OnlyAdds _
range_rows-OnlyAdds e keys batch peer_begin peer (row ∷ rows) state values =
    bind-OnlyAdds _ (window_rows_are_peers-OnlyAdds keys batch peer_begin row) λ peers.
      if-OnlyAdds peers
        (range_rows-OnlyAdds e keys batch peer_begin (peer ++ row ∷ []) rows state values)
        (bind-OnlyAdds _ (end_peer-OnlyAdds e batch peer state values)
          λ (done : AggregateValue × List Cell).
            range_rows-OnlyAdds e keys batch row (row ∷ []) rows done.0 done.1)

cumulative_rows-OnlyAdds :
    (e : AggregateExpression) (batch : ColumnarBatch) (rows : List ℕ) (state : AggregateValue)
    (values : List Cell)
    → OnlyAdds (cumulative_rows e batch rows state values)
unfolding cumulative_rows
cumulative_rows-OnlyAdds e batch [] state values = pure-OnlyAdds values
cumulative_rows-OnlyAdds e batch (row ∷ rows) state values =
    bind-OnlyAdds _ (update_aggregate-OnlyAdds e batch row state) λ state'.
      bind-OnlyAdds _ (lift-OnlyAdds (put values row (finalize_aggregate e.function e.type state')))
        λ values'. cumulative_rows-OnlyAdds e batch rows state' values'

start_range-OnlyAdds :
    (e : AggregateExpression) (keys : List SortKey) (batch : ColumnarBatch) (rows : List ℕ)
    (values : List Cell)
    → OnlyAdds (start_range e keys batch rows values)
start_range-OnlyAdds e keys batch [] values = pure-OnlyAdds values
start_range-OnlyAdds e keys batch (row ∷ rows) values =
    range_rows-OnlyAdds e keys batch row (row ∷ []) rows start_value values

frame_rows-OnlyAdds :
    (frame : WindowFrame) (w : WindowExpression) (e : AggregateExpression) (batch : ColumnarBatch)
    (rows : List ℕ) (values : List Cell)
    → OnlyAdds (frame_rows frame w e batch rows values)
frame_rows-OnlyAdds WindowFrame.whole_partition w e batch rows values =
    bind-OnlyAdds _
      (for_each-OnlyAdds start_value rows (λ s row. update_aggregate-OnlyAdds e batch row s))
      λ state. lift-OnlyAdds _
frame_rows-OnlyAdds WindowFrame.rows_cumulative w e batch rows values =
    bind-OnlyAdds _ (ordered_window_rows-OnlyAdds w rows batch)
      λ ordered. cumulative_rows-OnlyAdds e batch ordered start_value values
frame_rows-OnlyAdds WindowFrame.range_cumulative w e batch rows values =
    bind-OnlyAdds _ (ordered_window_rows-OnlyAdds w rows batch)
      λ ordered. start_range-OnlyAdds e w.order_keys batch ordered values

ranked-OnlyAdds :
    (w : WindowExpression) (batch : ColumnarBatch) (rows : List ℕ) (values : List Cell)
    → OnlyAdds (ranked w batch rows values)
ranked-OnlyAdds w batch rows values =
    bind-OnlyAdds _ (ordered_window_rows-OnlyAdds w rows batch)
      λ ordered. rank_rows-OnlyAdds w batch none 0 1 1 ordered values

aggregated-OnlyAdds :
    (w : WindowExpression) (batch : ColumnarBatch) (rows : List ℕ) (values : List Cell)
    → OnlyAdds (aggregated w batch rows values)
aggregated-OnlyAdds w batch rows values =
    bind-OnlyAdds _ (lift-OnlyAdds (aggregate_expression_for_window w))
      λ e. frame_rows-OnlyAdds w.frame w e batch rows values

partition_values-OnlyAdds :
    (f : WindowFunction) (w : WindowExpression) (batch : ColumnarBatch) (values : List Cell)
    (rows : List ℕ)
    → OnlyAdds (partition_values f w batch values rows)
unfolding partition_values
partition_values-OnlyAdds WindowFunction.row_number w batch values rows =
    ranked-OnlyAdds w batch rows values
partition_values-OnlyAdds WindowFunction.rank w batch values rows =
    ranked-OnlyAdds w batch rows values
partition_values-OnlyAdds WindowFunction.dense_rank w batch values rows =
    ranked-OnlyAdds w batch rows values
partition_values-OnlyAdds _ w batch values rows = aggregated-OnlyAdds w batch rows values

evaluate_window-OnlyAdds :
    (w : WindowExpression) (batch : ColumnarBatch) → OnlyAdds (evaluate_window w batch)
unfolding evaluate_window
evaluate_window-OnlyAdds w batch = bind-OnlyAdds _ (lift-OnlyAdds (row_count batch)) λ rows.
    bind-OnlyAdds _ (build_window_partitions-OnlyAdds w batch) λ partitions.
      bind-OnlyAdds _
        (for_each-OnlyAdds _ partitions
          (λ values rows. partition_values-OnlyAdds w.function w batch values rows))
        λ values. pure-OnlyAdds _

window_columns-OnlyAdds :
    (ws : List WindowExpression) (batch out : ColumnarBatch)
    → OnlyAdds (window_columns ws batch out)
unfolding window_columns
window_columns-OnlyAdds [] batch out = pure-OnlyAdds out
window_columns-OnlyAdds (w ∷ ws) batch out =
    bind-OnlyAdds _ (evaluate_window-OnlyAdds w batch) λ column.
      bind-OnlyAdds _ (lift-OnlyAdds (add_to out w.output_name column))
        λ out'. window_columns-OnlyAdds ws batch out'

pub window_batch-OnlyAdds :
    (ws : List WindowExpression) (batch : ColumnarBatch) → OnlyAdds (window_batch ws batch)
unfolding window_batch
window_batch-OnlyAdds ws batch =
    bind-OnlyAdds _ (lift-OnlyAdds (copy_all batch (λ name. name) batch.column_names empty_batch))
      λ out. window_columns-OnlyAdds ws batch out
