-- ===== src/Vectorized/Joins.antt =====
-- src/execution/vectorized.cpp: the output of joins, and execute_join on its executed inputs.
use vectorized_sql_engine.Base.{
  ℕ, Bytes, Bool, true, false, not, Option, none, some, List, [], ◌∷◌, ◌++◌, map, Result, ok, throw,
  Exception, if◌then◌else◌,
}
use vectorized_sql_engine.Storage.Batch.{
  ColumnarBatch, empty_batch, column_type, row_count, type_of, is_empty,
}
use vectorized_sql_engine.Plan.{
  PlanRef, LogicalPlan, BoundPredicate, JoinKind, inner, left, semi, anti, null_aware_anti,
}
use vectorized_sql_engine.Execution.Cell.{
  OutputColumn, output_column, append_cell, add_to, null_cell, type_eq,
}
use vectorized_sql_engine.Execution.Join.{check_join}
use vectorized_sql_engine.Vectorized.Cells.{TypedCell}
use vectorized_sql_engine.Vectorized.Scalars.{
  ◌>>=◌, CompiledColumn, compiled_cell, compile_column, compile_columns, compile_named_column,
  compile_named_columns,
}
use vectorized_sql_engine.Vectorized.Context.{PreparedContext}
use vectorized_sql_engine.Vectorized.Views.{BatchView, identity_selection, validate_view}
use vectorized_sql_engine.Vectorized.JoinLoops.{
  make_non_null_key, build_rows, hash_candidates, join_loop, existence_loop, null_aware_loop,
  build_buckets, probe_loop,
}
use vectorized_sql_engine.Vectorized.JoinScalars.{
  EquiJoinKey, JoinPredicateSplit, split_join_predicates, try_add_equi_key, compile_join_predicate,
  compile_join_predicates, evaluate_compiled_join_predicate, evaluate_compiled_join_predicates,
}

-- TypedColumnBuilder::append
unfoldable pub typed_append : OutputColumn → TypedCell → Result OutputColumn
unfolding append_cell
typed_append column cell =
    if not (type_eq cell.type (type_of column))
    then throw Exception.logic_error "typed column builder received a cell with the wrong type"
    else ok (append_cell cell column)

pub record JoinOutputBuilder : Type 0 where
  pub names : List Bytes
  pub columns : List OutputColumn
  pub left_columns : List CompiledColumn
  pub right_columns : List CompiledColumn

unfoldable pub builder_columns : ColumnarBatch → List Bytes → Result (List OutputColumn)
unfolding column_type
builder_columns batch [] = ok []
builder_columns batch (name ∷ names) = do
  type ← column_type name batch
  rest ← builder_columns batch names
  ok (output_column type ∷ rest)

unfoldable pub make_join_output_builder : ColumnarBatch → ColumnarBatch → Result JoinOutputBuilder
unfolding builder_columns compile_named_columns
make_join_output_builder l r = do
  left_outputs ← builder_columns l l.column_names
  left_columns ← compile_named_columns l l.column_names
  right_outputs ← builder_columns r r.column_names
  right_columns ← compile_named_columns r r.column_names
  ok (record {
    names = l.column_names ++ r.column_names;
    columns = left_outputs ++ right_outputs;
    left_columns = left_columns;
    right_columns = right_columns;
  })

-- The cells of an output row, appended to the columns one after the other.
unfoldable pub append_cells :
    List (Result TypedCell) → List OutputColumn → Result (List OutputColumn)
unfolding typed_append
append_cells [] columns = ok columns
append_cells (cell ∷ cells) [] = throw Exception.undefined "operator[]"
append_cells (cell ∷ cells) (column ∷ columns) = do
  value ← cell
  column' ← typed_append column value
  rest ← append_cells cells columns
  ok (column' ∷ rest)

abbrev pub row_cells : List CompiledColumn → ℕ → List (Result TypedCell)
row_cells columns row = map (λ c. compiled_cell c row) columns

abbrev pub null_cells : List CompiledColumn → List (Result TypedCell)
null_cells columns = map (λ c. ok (null_cell c.type)) columns

-- append_joined_row, and append_null_extended_left_row where there is no right row
unfoldable pub append_output : ℕ → Option ℕ → JoinOutputBuilder → Result JoinOutputBuilder
unfolding append_cells compiled_cell
append_output left_row right_row builder = do
  columns ←
      append_cells
        (row_cells builder.left_columns left_row ++ (elim right_row [
          | some row ↦ row_cells builder.right_columns row
          | none ↦ null_cells builder.right_columns
        ]))
        builder.columns
  ok (record builder { columns = columns })

unfoldable pub add_outputs : List Bytes → List OutputColumn → ColumnarBatch → Result ColumnarBatch
add_outputs (name ∷ names) (column ∷ columns) out = do
  out' ← add_to out name column
  add_outputs names columns out'
add_outputs [] columns out = ok out
add_outputs (_ ∷ _) [] out = throw Exception.undefined "operator[]"

abbrev pub finish_join_output : JoinOutputBuilder → Result ColumnarBatch
finish_join_output builder = add_outputs builder.names builder.columns empty_batch

-- A column of the selected rows of the left input.
unfoldable pub selected_column : CompiledColumn → List ℕ → OutputColumn → Result OutputColumn
unfolding typed_append compiled_cell
selected_column compiled [] column = ok column
selected_column compiled (row ∷ rows) column = do
  value ← compiled_cell compiled row
  column' ← typed_append column value
  selected_column compiled rows column'

unfoldable pub materialize_left_columns :
    ColumnarBatch → List ℕ → List Bytes → ColumnarBatch → Result ColumnarBatch
unfolding selected_column compile_named_column
materialize_left_columns batch rows [] out = ok out
materialize_left_columns batch rows (name ∷ names) out = do
  compiled ← compile_named_column batch name
  column ← selected_column compiled rows (output_column compiled.type)
  out' ← add_to out name column
  materialize_left_columns batch rows names out'

abbrev pub materialize_left_join_rows : ColumnarBatch → List ℕ → Result ColumnarBatch
materialize_left_join_rows batch rows =
    materialize_left_columns batch rows batch.column_names empty_batch

module _ (subplans : PlanRef → Option LogicalPlan) (context : PreparedContext) (l r : ColumnarBatch)
    (left_rows right_rows : List ℕ) where
  unfoldable pub execute_nested_loop_join : Bool → List BoundPredicate → Result ColumnarBatch
  unfolding compile_join_predicates make_join_output_builder join_loop append_output add_outputs
      evaluate_compiled_join_predicates
  execute_nested_loop_join emit_unmatched_left predicates = do
    compiled ← compile_join_predicates subplans predicates l r context
    builder ← make_join_output_builder l r
    out ←
        join_loop (evaluate_compiled_join_predicates compiled) append_output emit_unmatched_left
          (λ left_row. ok right_rows) left_rows builder
    finish_join_output out

  unfoldable pub execute_hash_join : Bool → JoinPredicateSplit → Result ColumnarBatch
  unfolding compile_columns compile_join_predicates make_join_output_builder join_loop build_rows
      append_output add_outputs evaluate_compiled_join_predicates make_non_null_key
  execute_hash_join emit_unmatched_left split = do
    left_keys ← compile_columns (map (λ key. key.left) split.equi_keys) l
    right_keys ← compile_columns (map (λ key. key.right) split.equi_keys) r
    residuals ← compile_join_predicates subplans split.residuals l r context
    table ← build_rows (λ row. make_non_null_key row right_keys) right_rows []
    builder ← make_join_output_builder l r
    out ←
        join_loop (evaluate_compiled_join_predicates residuals) append_output emit_unmatched_left
          (hash_candidates (λ row. make_non_null_key row left_keys) table) left_rows builder
    finish_join_output out

  unfoldable pub execute_nested_loop_existence_join :
      Bool → List BoundPredicate → Result ColumnarBatch
  unfolding compile_join_predicates existence_loop materialize_left_columns
      evaluate_compiled_join_predicates
  execute_nested_loop_existence_join emit_matched predicates = do
    compiled ← compile_join_predicates subplans predicates l r context
    rows ←
        existence_loop (evaluate_compiled_join_predicates compiled) emit_matched
          (λ left_row. ok right_rows) left_rows
    materialize_left_join_rows l rows

  unfoldable pub execute_hash_existence_join : Bool → JoinPredicateSplit → Result ColumnarBatch
  unfolding compile_columns compile_join_predicates build_rows existence_loop
      materialize_left_columns evaluate_compiled_join_predicates make_non_null_key
  execute_hash_existence_join emit_matched split = do
    left_keys ← compile_columns (map (λ key. key.left) split.equi_keys) l
    right_keys ← compile_columns (map (λ key. key.right) split.equi_keys) r
    residuals ← compile_join_predicates subplans split.residuals l r context
    table ← build_rows (λ row. make_non_null_key row right_keys) right_rows []
    rows ←
        existence_loop (evaluate_compiled_join_predicates residuals) emit_matched
          (hash_candidates (λ row. make_non_null_key row left_keys) table) left_rows
    materialize_left_join_rows l rows

  unfoldable pub execute_nested_loop_null_aware_anti_join :
      List BoundPredicate → BoundPredicate → Result ColumnarBatch
  unfolding compile_join_predicates compile_join_predicate null_aware_loop materialize_left_columns
      evaluate_compiled_join_predicates evaluate_compiled_join_predicate
  execute_nested_loop_null_aware_anti_join candidates membership = do
    compiled_candidates ← compile_join_predicates subplans candidates l r context
    compiled_membership ← compile_join_predicate subplans membership l r context
    rows ←
        null_aware_loop (evaluate_compiled_join_predicates compiled_candidates)
          (evaluate_compiled_join_predicate compiled_membership) right_rows left_rows
    materialize_left_join_rows l rows

  unfoldable pub execute_hash_null_aware_anti_join :
      JoinPredicateSplit → EquiJoinKey → Result ColumnarBatch
  unfolding compile_columns compile_column build_buckets probe_loop materialize_left_columns
      make_non_null_key compiled_cell
  execute_hash_null_aware_anti_join split membership_key = do
    left_candidates ← compile_columns (map (λ key. key.left) split.equi_keys) l
    right_candidates ← compile_columns (map (λ key. key.right) split.equi_keys) r
    left_membership ← compile_column membership_key.left l
    right_membership ← compile_column membership_key.right r
    if not (type_eq left_membership.type right_membership.type)
        then throw Exception.logic_error "NullAwareAnti membership equality has mismatched types"
        else (do
          buckets ←
              build_buckets right_membership.type (λ row. make_non_null_key row right_candidates)
                (compiled_cell right_membership) right_rows []
          rows ←
              probe_loop (λ row. make_non_null_key row left_candidates)
                (compiled_cell left_membership) buckets left_rows
          materialize_left_join_rows l rows)

  -- Hashing a NULL-aware anti join needs a membership equality of columns and no residuals.
  abbrev pub execute_null_aware :
      List BoundPredicate
      → BoundPredicate
      → JoinPredicateSplit
      → Option EquiJoinKey
      → Result ColumnarBatch
  execute_null_aware predicates membership split none =
      execute_nested_loop_null_aware_anti_join predicates membership
  execute_null_aware predicates membership split (some key) =
      if is_empty split.residuals
      then execute_hash_null_aware_anti_join split key
      else execute_nested_loop_null_aware_anti_join predicates membership

  abbrev pub hash_or_loop :
      JoinPredicateSplit
      → (hash : JoinPredicateSplit → Result ColumnarBatch)
      → (loop : List BoundPredicate → Result ColumnarBatch) → Result ColumnarBatch
  hash_or_loop split hash loop =
      if is_empty split.equi_keys then loop split.residuals else hash split

  unfoldable pub join_batch :
      JoinKind → List BoundPredicate → Option BoundPredicate → Result ColumnarBatch
  unfolding split_join_predicates try_add_equi_key execute_nested_loop_join execute_hash_join
      execute_nested_loop_existence_join execute_hash_existence_join
      execute_nested_loop_null_aware_anti_join execute_hash_null_aware_anti_join
  join_batch null_aware_anti predicates none =
      throw Exception.invalid_argument "NullAwareAnti join is missing its membership equality"
  join_batch null_aware_anti predicates (some membership) =
      execute_null_aware predicates membership (split_join_predicates predicates l r)
        (try_add_equi_key membership l r)
  join_batch semi predicates membership =
      hash_or_loop (split_join_predicates predicates l r) (execute_hash_existence_join true)
        (execute_nested_loop_existence_join true)
  join_batch anti predicates membership =
      hash_or_loop (split_join_predicates predicates l r) (execute_hash_existence_join false)
        (execute_nested_loop_existence_join false)
  join_batch left predicates membership =
      hash_or_loop (split_join_predicates predicates l r) (execute_hash_join true)
        (execute_nested_loop_join true)
  join_batch inner predicates membership =
      hash_or_loop (split_join_predicates predicates l r) (execute_hash_join false)
        (execute_nested_loop_join false)

-- execute_join, on the views of its executed inputs
unfoldable pub join_views :
    (PlanRef → Option LogicalPlan)
    → JoinKind
    → List BoundPredicate
    → Option BoundPredicate
    → BatchView
    → BatchView
    → PreparedContext
    → Result BatchView
unfolding check_join validate_view join_batch row_count
join_views subplans kind predicates membership l r context = do
  _ ← check_join kind membership
  left_parts ← validate_view l
  right_parts ← validate_view r
  batch ←
      join_batch subplans context left_parts.0 right_parts.0 left_parts.1 right_parts.1 kind
        predicates membership
  rows ← row_count batch
  let view : BatchView = record {
    batch = some batch;
    selection = some (identity_selection rows);
    selection_rows_match_positions = true;
  } in
      do _ ← validate_view view; ok view
