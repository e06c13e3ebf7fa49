-- ===== src/Execution/Node.antt =====
-- src/execution/interpreter.cpp: execute_node and execute_interpreted.
-- `explain` is optimizer::explain, which reads the plan and the catalog only.
use vectorized_sql_engine.Base.{
  ℕ, Bytes, codes, Bool, not, Option, none, some, List, [], ◌∷◌, ◌++◌, range, length, Result, ok,
  err, thrown, Exception, and_then, ◌==◌, if◌then◌else◌,
}
use vectorized_sql_engine.Storage.Batch.{
  ColumnarBatch, empty_batch, row_count, has_column, column_type, filter,
}
use vectorized_sql_engine.Plan.{
  PlanRef, LogicalPlan, BoundPredicate, Projection, SortKey, JoinKind, null_aware_anti,
}
use vectorized_sql_engine.Execution.Tables.{Catalog, table}
use vectorized_sql_engine.Execution.Cell.{output_column, add_to}
use vectorized_sql_engine.Execution.Context.{ExecutionContext, M, ◌>>=◌, ◌>>◌, pure, lift, raise}
use vectorized_sql_engine.Execution.Scalar.{cell_at, column_identity_name}
use vectorized_sql_engine.Execution.Predicate.{evaluate_filter, evaluate_projection}
use vectorized_sql_engine.Execution.Prepare.{prepare_subqueries}
use vectorized_sql_engine.Execution.Rows.{
  append_rows, stable_sorted_rows, materialize_rows, distinct_batch, limit_batch,
}
use vectorized_sql_engine.Execution.Join.{check_join, join_batches}
use vectorized_sql_engine.Execution.Aggregate.{aggregate_batch}
use vectorized_sql_engine.Execution.Window.Frames.{copy_column, copy_all, window_batch}

unfoldable pub execute_scan : Bytes → Bytes → Catalog → Result ColumnarBatch
unfolding table copy_all
execute_scan table_name binding_name catalog = and_then (table table_name catalog) λ input.
    copy_all input (λ name. binding_name ++ codes "." ++ name) input.column_names empty_batch

-- The loop of add_missing_sort_key_columns.
unfoldable pub add_missing_sort_key_columns :
    List SortKey → ColumnarBatch → ColumnarBatch → Result ColumnarBatch
unfolding has_column column_identity_name copy_column
add_missing_sort_key_columns [] source sort_input = ok sort_input
add_missing_sort_key_columns (key ∷ keys) source sort_input =
    let name = column_identity_name key.column in
    let skip = add_missing_sort_key_columns keys source sort_input in
    let copied =
      and_then (copy_column source name name sort_input)
        λ sort_input'. add_missing_sort_key_columns keys source sort_input' in
    if not (key.column.outer_depth == 0)
    then skip
    else if has_column name sort_input
    then skip
    else if not (has_column name source)
    then err (
        thrown Exception.logic_error "sort key column is not available before or after Project: "
          name)
    else copied

unfoldable pub project_output_rows :
    List Projection → ColumnarBatch → List ℕ → ColumnarBatch → Result ColumnarBatch
unfolding column_type append_rows cell_at
project_output_rows [] batch rows out = ok out
project_output_rows (p ∷ projections) batch rows out =
    and_then (column_type p.output_name batch) λ type.
      and_then (append_rows (cell_at batch p.output_name) rows (output_column type)) λ column.
        and_then (add_to out p.output_name column)
          λ out'. project_output_rows projections batch rows out'

unfoldable pub materialize_project_output_rows :
    List Projection → ColumnarBatch → List ℕ → Result ColumnarBatch
unfolding project_output_rows
materialize_project_output_rows projections batch rows =
    project_output_rows projections batch rows empty_batch

-- The inputs of a join: the right one first for NullAwareAnti.
abbrev pub join_inputs :
    JoinKind → M ColumnarBatch → M ColumnarBatch → M (ColumnarBatch × ColumnarBatch)
join_inputs null_aware_anti l r =
    r >>= λ right_batch. l >>= λ left_batch. pure (left_batch, right_batch)
join_inputs _ l r = l >>= λ left_batch. r >>= λ right_batch. pure (left_batch, right_batch)

-- execute_sort on an executed input that no Project made
unfoldable pub sort_batch : List SortKey → ColumnarBatch → M ColumnarBatch
unfolding stable_sorted_rows materialize_rows
sort_batch sort_keys input =
    stable_sorted_rows sort_keys input >>= λ rows. lift (materialize_rows input rows)

module _ (subplans : PlanRef → Option LogicalPlan) (run : LogicalPlan → M ColumnarBatch) where
  -- materialize_project_rows, and the Project case of execute_node, over `rows`
  unfoldable pub materialize_project_rows :
      List Projection → ColumnarBatch → List ℕ → ColumnarBatch → M ColumnarBatch
  unfolding evaluate_projection
  materialize_project_rows [] batch rows out = pure out
  materialize_project_rows (p ∷ projections) batch rows out =
      evaluate_projection subplans run p batch rows >>= λ column.
      lift (add_to out p.output_name column) >>= λ out'.
      materialize_project_rows projections batch rows out'

  abbrev pub project_batch : List Projection → ColumnarBatch → M ColumnarBatch
  project_batch projections batch = lift (row_count batch) >>= λ rows.
      materialize_project_rows projections batch (range 0 rows) empty_batch

  unfoldable pub materialize_project_sort_input :
      List Projection → ColumnarBatch → List SortKey → M ColumnarBatch
  unfolding row_count materialize_project_rows add_missing_sort_key_columns
  materialize_project_sort_input projections source sort_keys =
      project_batch projections source >>= λ sort_input.
      lift (add_missing_sort_key_columns sort_keys source sort_input)

  -- execute_sort on the executed input of its Project
  unfoldable pub sort_project_batch :
      List SortKey → List Projection → ColumnarBatch → M ColumnarBatch
  unfolding materialize_project_sort_input stable_sorted_rows materialize_project_output_rows
  sort_project_batch sort_keys projections source =
      materialize_project_sort_input projections source sort_keys >>= λ sort_input.
      stable_sorted_rows sort_keys sort_input >>= λ rows.
      lift (materialize_project_output_rows projections sort_input rows)

  unfoldable pub filter_batch : List BoundPredicate → ColumnarBatch → M ColumnarBatch
  unfolding evaluate_filter filter
  filter_batch predicates input =
      evaluate_filter subplans run predicates input >>= λ mask. lift (filter mask input)

module _ (explain : LogicalPlan → Catalog → Result ColumnarBatch) (catalog : Catalog)
    (subplans : PlanRef → Option LogicalPlan) (run : LogicalPlan → M ColumnarBatch) where
  unfoldable pub execute_node : LogicalPlan → M ColumnarBatch
  unfolding execute_scan check_join join_batches filter_batch row_count materialize_project_rows
      aggregate_batch window_batch distinct_batch sort_batch sort_project_batch limit_batch
  execute_node (LogicalPlan.scan _ table_name binding_name) =
      lift (execute_scan table_name binding_name catalog)
  execute_node (LogicalPlan.join _ kind predicates membership l r) =
      let inputs = join_inputs kind (execute_node l) (execute_node r) in
      lift (check_join kind membership) >> inputs >>= λ batches.
      join_batches subplans run kind predicates membership batches.0 batches.1
  execute_node (LogicalPlan.filter _ predicates input) =
      execute_node input >>= λ batch. filter_batch subplans run predicates batch
  execute_node (LogicalPlan.project _ projections input) =
      execute_node input >>= λ batch. project_batch subplans run projections batch
  execute_node (LogicalPlan.aggregate _ group_keys aggregates input) =
      execute_node input >>= λ batch. aggregate_batch group_keys aggregates batch
  execute_node (LogicalPlan.window _ windows input) =
      execute_node input >>= λ batch. window_batch windows batch
  execute_node (LogicalPlan.distinct _ input) =
      execute_node input >>= λ batch. lift (distinct_batch batch)
  execute_node (LogicalPlan.sort _ sort_keys (LogicalPlan.project _ projections input)) =
      execute_node input >>= λ source. sort_project_batch subplans run sort_keys projections source
  execute_node (LogicalPlan.sort _ sort_keys input) =
      execute_node input >>= λ batch. sort_batch sort_keys batch
  execute_node (LogicalPlan.limit _ limit_count input) =
      execute_node input >>= λ batch. lift (limit_batch limit_count batch)
  execute_node (LogicalPlan.explain _ input) = lift (explain input catalog)

-- The subplans, newest first: the i-th oldest one is behind the pointer i. A plan is immutable and
-- made after the subplans that it points to, so a subplan is run with the subplans older than it.
unfoldable pub subplan : List LogicalPlan → PlanRef → Option LogicalPlan
subplan [] ref = none
subplan (plan ∷ older) ref = if length older == ref then some plan else subplan older ref

module _ (explain : LogicalPlan → Catalog → Result ColumnarBatch) (catalog : Catalog) where
  -- prepare_subqueries and execute_node of a subplan, in materialize_subquery
  unfoldable pub run_subplan : List LogicalPlan → LogicalPlan → M ColumnarBatch
  unfolding prepare_subqueries execute_node subplan
  run_subplan [] plan =
      raise Exception.invalid_argument "bound subquery is missing its logical plan" []
  run_subplan (_ ∷ older) plan =
      prepare_subqueries (subplan older) (run_subplan older) plan
      >> execute_node explain catalog (subplan older) (run_subplan older) plan

  abbrev is_explain : LogicalPlan → Bool
  is_explain (LogicalPlan.explain _ _) = Bool.true
  is_explain _ = Bool.false

  abbrev start_context : ExecutionContext
  start_context = record { subquery_results = []; outer_rows = [] }

  abbrev prepare_top : List LogicalPlan → LogicalPlan → M (Unit {0})
  prepare_top subplans plan =
      if is_explain plan
      then pure tt
      else prepare_subqueries (subplan subplans) (run_subplan subplans) plan

  unfoldable pub execute_interpreted : List LogicalPlan → LogicalPlan → Result ColumnarBatch
  unfolding prepare_subqueries execute_node subplan run_subplan
  execute_interpreted subplans plan =
      and_then
        ((prepare_top subplans plan
            >> execute_node explain catalog (subplan subplans) (run_subplan subplans) plan)
          start_context)
        λ r. ok r.0
