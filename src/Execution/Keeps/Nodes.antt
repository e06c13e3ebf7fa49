-- ===== src/Execution/Keeps/Nodes.antt =====
-- src/execution/interpreter.cpp: prepare_subqueries, execute_node and the subplans, and the cache of
-- subqueries.
use vectorized_sql_engine.Base.{ℕ, Option, none, some, List, [], ◌∷◌, Result, range}
use vectorized_sql_engine.Storage.Batch.{ColumnarBatch, row_count, empty_batch}
use vectorized_sql_engine.Plan.{
  PlanRef, LogicalPlan, Value, BoundScalarExpr, BoundPredicate, Projection, SortKey, JoinKind,
  inner, left, semi, anti, null_aware_anti,
}
use vectorized_sql_engine.Execution.Tables.{Catalog}
use vectorized_sql_engine.Execution.Cell.{add_to}
use vectorized_sql_engine.Execution.Join.{check_join}
use vectorized_sql_engine.Execution.Rows.{distinct_batch, limit_batch}
use vectorized_sql_engine.Execution.Context.{M}
use vectorized_sql_engine.Execution.Scalar.{is_correlated}
use vectorized_sql_engine.Execution.Prepare.{
  unless_correlated, prepare_value, prepare_scalar_subquery, prepare_relation,
  prepare_predicate_subqueries, prepare_each, prepare_membership, prepare_children,
  prepare_subqueries,
}
use vectorized_sql_engine.Execution.Node.{
  add_missing_sort_key_columns, join_inputs, materialize_project_rows, project_batch,
  materialize_project_sort_input, sort_project_batch, filter_batch, execute_node, subplan,
  run_subplan,
}
use vectorized_sql_engine.Execution.Keeps.{
  OnlyAdds, pure-OnlyAdds, lift-OnlyAdds, if-OnlyAdds, bind-OnlyAdds,
}
use vectorized_sql_engine.Execution.Keeps.Operators.{
  stable_sorted_rows-OnlyAdds, sort_batch-OnlyAdds, aggregate_batch-OnlyAdds,
}
use vectorized_sql_engine.Execution.Keeps.Windows.{window_batch-OnlyAdds}
use vectorized_sql_engine.Execution.Keeps.Predicates.{
  materialize_subquery-OnlyAdds, evaluate_filter-OnlyAdds, evaluate_projection-OnlyAdds,
}
use vectorized_sql_engine.Execution.Keeps.Joins.{join_batches-OnlyAdds}

module _ (subplans : PlanRef → Option LogicalPlan) (run : LogicalPlan → M ColumnarBatch)
    (runs : (plan : LogicalPlan) → OnlyAdds (run plan)) where
  prepare_each-OnlyAdds :
      {A : Type 0} {prepare : A → M (Unit {0})} (xs : List A)
      → ((x : A) → OnlyAdds (prepare x))
      → OnlyAdds (prepare_each subplans run prepare xs)
  unfolding prepare_each
  prepare_each-OnlyAdds [] h = pure-OnlyAdds tt
  prepare_each-OnlyAdds (x ∷ xs) h = bind-OnlyAdds _ (h x) λ u. prepare_each-OnlyAdds xs h

  unless_correlated-OnlyAdds :
      (plan : Option LogicalPlan) {m : M (Unit {0})}
      → OnlyAdds m
      → OnlyAdds (λ σ. unless_correlated subplans run plan m σ)
  unless_correlated-OnlyAdds none h = record { keeps = λ σ. tt }
  unless_correlated-OnlyAdds (some plan) h = if-OnlyAdds (is_correlated plan) (pure-OnlyAdds tt) h

  prepare_scalar_subquery-OnlyAdds :
      (e : BoundScalarExpr) → OnlyAdds (prepare_scalar_subquery subplans run e)
  unfolding prepare_scalar_subquery prepare_value
  prepare_scalar_subquery-OnlyAdds e = by_value e.value
    where
      by_value : (v : Value) → OnlyAdds (prepare_value subplans run v)
      by_value (Value.column c) = pure-OnlyAdds tt
      by_value (Value.int_literal v _) = pure-OnlyAdds tt
      by_value (Value.string_literal v _) = pure-OnlyAdds tt
      by_value (Value.null_literal _) = pure-OnlyAdds tt
      by_value (Value.subquery ref _ name) = unless_correlated-OnlyAdds (subplans ref) (
          bind-OnlyAdds _ (materialize_subquery-OnlyAdds subplans run runs ref none)
            λ result. bind-OnlyAdds _ (lift-OnlyAdds (row_count result)) λ rows. lift-OnlyAdds _)

  prepare_relation-OnlyAdds : (ref : PlanRef) → OnlyAdds (prepare_relation subplans run ref)
  prepare_relation-OnlyAdds ref = unless_correlated-OnlyAdds (subplans ref) (
      bind-OnlyAdds _ (materialize_subquery-OnlyAdds subplans run runs ref none)
        λ result. pure-OnlyAdds tt)

  prepare_predicate-OnlyAdds :
      (p : BoundPredicate) → OnlyAdds (prepare_predicate_subqueries subplans run p)
  unfolding prepare_predicate_subqueries
  prepare_predicate-OnlyAdds (BoundPredicate.comparison c) =
      bind-OnlyAdds _ (prepare_scalar_subquery-OnlyAdds c.left)
        λ u. prepare_scalar_subquery-OnlyAdds c.right
  prepare_predicate-OnlyAdds (BoundPredicate.is_null e _) = prepare_scalar_subquery-OnlyAdds e
  prepare_predicate-OnlyAdds (BoundPredicate.is_not_null e _) = prepare_scalar_subquery-OnlyAdds e
  prepare_predicate-OnlyAdds (BoundPredicate.is_in e ref _ _) =
      bind-OnlyAdds _ (prepare_scalar_subquery-OnlyAdds e) λ u. prepare_relation-OnlyAdds ref
  prepare_predicate-OnlyAdds (BoundPredicate.not_in e ref _ _) =
      bind-OnlyAdds _ (prepare_scalar_subquery-OnlyAdds e) λ u. prepare_relation-OnlyAdds ref
  prepare_predicate-OnlyAdds (BoundPredicate.exists ref _ _) = prepare_relation-OnlyAdds ref
  prepare_predicate-OnlyAdds (BoundPredicate.not_exists ref _ _) = prepare_relation-OnlyAdds ref
  prepare_predicate-OnlyAdds (BoundPredicate.both l r _) =
      bind-OnlyAdds _ (prepare_predicate-OnlyAdds l) λ u. prepare_predicate-OnlyAdds r
  prepare_predicate-OnlyAdds (BoundPredicate.either l r _) =
      bind-OnlyAdds _ (prepare_predicate-OnlyAdds l) λ u. prepare_predicate-OnlyAdds r

  prepare_membership-OnlyAdds :
      (p : Option BoundPredicate) → OnlyAdds (prepare_membership subplans run p)
  prepare_membership-OnlyAdds none = pure-OnlyAdds tt
  prepare_membership-OnlyAdds (some p) = prepare_predicate-OnlyAdds p

  materialize_project_rows-OnlyAdds :
      (ps : List Projection) (batch : ColumnarBatch) (rows : List ℕ) (out : ColumnarBatch)
      → OnlyAdds (materialize_project_rows subplans run ps batch rows out)
  unfolding materialize_project_rows
  materialize_project_rows-OnlyAdds [] batch rows out = pure-OnlyAdds out
  materialize_project_rows-OnlyAdds (p ∷ ps) batch rows out =
      bind-OnlyAdds _ (evaluate_projection-OnlyAdds subplans run runs p batch rows) λ column.
        bind-OnlyAdds _ (lift-OnlyAdds (add_to out p.output_name column))
          λ out'. materialize_project_rows-OnlyAdds ps batch rows out'

  project_batch-OnlyAdds :
      (ps : List Projection) (batch : ColumnarBatch)
      → OnlyAdds (project_batch subplans run ps batch)
  project_batch-OnlyAdds ps batch =
      bind-OnlyAdds _ (lift-OnlyAdds (row_count batch))
        λ rows. materialize_project_rows-OnlyAdds ps batch (range 0 rows) empty_batch

  sort_project_batch-OnlyAdds :
      (keys : List SortKey) (ps : List Projection) (source : ColumnarBatch)
      → OnlyAdds (sort_project_batch subplans run keys ps source)
  unfolding sort_project_batch materialize_project_sort_input
  sort_project_batch-OnlyAdds keys ps source =
      bind-OnlyAdds _
        (bind-OnlyAdds _ (project_batch-OnlyAdds ps source)
          λ sort_input. lift-OnlyAdds (add_missing_sort_key_columns keys source sort_input))
        λ sort_input.
          bind-OnlyAdds _ (stable_sorted_rows-OnlyAdds keys sort_input) λ rows. lift-OnlyAdds _

  filter_batch-OnlyAdds :
      (ps : List BoundPredicate) (batch : ColumnarBatch)
      → OnlyAdds (filter_batch subplans run ps batch)
  unfolding filter_batch
  filter_batch-OnlyAdds ps batch =
      bind-OnlyAdds _ (evaluate_filter-OnlyAdds subplans run runs ps batch) λ mask. lift-OnlyAdds _

  prepare_children-OnlyAdds :
      (kind : JoinKind) {m n : M (Unit {0})}
      → OnlyAdds m
      → OnlyAdds n
      → OnlyAdds (λ σ. prepare_children subplans run kind m n σ)
  prepare_children-OnlyAdds null_aware_anti h k = bind-OnlyAdds _ k λ u. h
  prepare_children-OnlyAdds inner h k = bind-OnlyAdds _ h λ u. k
  prepare_children-OnlyAdds left h k = bind-OnlyAdds _ h λ u. k
  prepare_children-OnlyAdds semi h k = bind-OnlyAdds _ h λ u. k
  prepare_children-OnlyAdds anti h k = bind-OnlyAdds _ h λ u. k

  prepare_subqueries-OnlyAdds :
      (plan : LogicalPlan) → OnlyAdds (prepare_subqueries subplans run plan)
  unfolding prepare_subqueries
  prepare_subqueries-OnlyAdds (LogicalPlan.scan _ _ _) = pure-OnlyAdds tt
  prepare_subqueries-OnlyAdds (LogicalPlan.join _ kind ps membership l r) =
      bind-OnlyAdds _
        (bind-OnlyAdds _ (prepare_each-OnlyAdds ps prepare_predicate-OnlyAdds)
          λ u. prepare_membership-OnlyAdds membership)
        λ u.
          prepare_children-OnlyAdds kind (prepare_subqueries-OnlyAdds l)
            (prepare_subqueries-OnlyAdds r)
  prepare_subqueries-OnlyAdds (LogicalPlan.filter _ ps input) =
      bind-OnlyAdds _ (prepare_each-OnlyAdds ps prepare_predicate-OnlyAdds)
        λ u. prepare_subqueries-OnlyAdds input
  prepare_subqueries-OnlyAdds (LogicalPlan.project _ ps input) =
      bind-OnlyAdds _
        (prepare_each-OnlyAdds ps
          (λ (p : Projection). prepare_scalar_subquery-OnlyAdds p.expression))
        λ u. prepare_subqueries-OnlyAdds input
  prepare_subqueries-OnlyAdds (LogicalPlan.aggregate _ _ _ input) =
      prepare_subqueries-OnlyAdds input
  prepare_subqueries-OnlyAdds (LogicalPlan.window _ _ input) = prepare_subqueries-OnlyAdds input
  prepare_subqueries-OnlyAdds (LogicalPlan.distinct _ input) = prepare_subqueries-OnlyAdds input
  prepare_subqueries-OnlyAdds (LogicalPlan.sort _ _ input) = prepare_subqueries-OnlyAdds input
  prepare_subqueries-OnlyAdds (LogicalPlan.limit _ _ input) = prepare_subqueries-OnlyAdds input
  prepare_subqueries-OnlyAdds (LogicalPlan.explain _ input) = prepare_subqueries-OnlyAdds input

join_inputs-OnlyAdds :
    (kind : JoinKind) {m n : M ColumnarBatch}
    → OnlyAdds m
    → OnlyAdds n
    → OnlyAdds (λ σ. join_inputs kind m n σ)
join_inputs-OnlyAdds null_aware_anti h k =
    bind-OnlyAdds _ k λ r. bind-OnlyAdds _ h λ l. record { keeps = λ σ ref batch found. found }
join_inputs-OnlyAdds inner h k =
    bind-OnlyAdds _ h λ l. bind-OnlyAdds _ k λ r. record { keeps = λ σ ref batch found. found }
join_inputs-OnlyAdds left h k =
    bind-OnlyAdds _ h λ l. bind-OnlyAdds _ k λ r. record { keeps = λ σ ref batch found. found }
join_inputs-OnlyAdds semi h k =
    bind-OnlyAdds _ h λ l. bind-OnlyAdds _ k λ r. record { keeps = λ σ ref batch found. found }
join_inputs-OnlyAdds anti h k =
    bind-OnlyAdds _ h λ l. bind-OnlyAdds _ k λ r. record { keeps = λ σ ref batch found. found }

module _ (explain : LogicalPlan → Catalog → Result ColumnarBatch) (catalog : Catalog) where
  module _ (subplans : PlanRef → Option LogicalPlan) (run : LogicalPlan → M ColumnarBatch)
      (runs : (plan : LogicalPlan) → OnlyAdds (run plan)) where
    abbrev node : LogicalPlan → M ColumnarBatch
    node plan = execute_node explain catalog subplans run plan

    execute_node-OnlyAdds : (plan : LogicalPlan) → OnlyAdds (node plan)
    unfolding execute_node
    execute_node-OnlyAdds (LogicalPlan.scan _ _ _) = lift-OnlyAdds _
    execute_node-OnlyAdds (LogicalPlan.join _ kind ps membership l r) =
        bind-OnlyAdds _
          (bind-OnlyAdds _ (lift-OnlyAdds (check_join kind membership))
            λ u. join_inputs-OnlyAdds kind (execute_node-OnlyAdds l) (execute_node-OnlyAdds r))
          λ (batches : ColumnarBatch × ColumnarBatch).
            join_batches-OnlyAdds subplans run runs kind ps membership batches.0 batches.1
    execute_node-OnlyAdds (LogicalPlan.filter _ ps input) =
        bind-OnlyAdds _ (execute_node-OnlyAdds input)
          λ batch. filter_batch-OnlyAdds subplans run runs ps batch
    execute_node-OnlyAdds (LogicalPlan.project _ ps input) =
        bind-OnlyAdds _ (execute_node-OnlyAdds input)
          λ batch. project_batch-OnlyAdds subplans run runs ps batch
    execute_node-OnlyAdds (LogicalPlan.aggregate _ keys es input) =
        bind-OnlyAdds _ (execute_node-OnlyAdds input)
          λ batch. aggregate_batch-OnlyAdds keys es batch
    execute_node-OnlyAdds (LogicalPlan.window _ ws input) =
        bind-OnlyAdds _ (execute_node-OnlyAdds input) λ batch. window_batch-OnlyAdds ws batch
    execute_node-OnlyAdds (LogicalPlan.distinct _ input) =
        bind-OnlyAdds _ (execute_node-OnlyAdds input) λ batch. lift-OnlyAdds (distinct_batch batch)
    execute_node-OnlyAdds (LogicalPlan.sort _ keys (LogicalPlan.project _ ps input)) =
        bind-OnlyAdds _ (execute_node-OnlyAdds input)
          λ source. sort_project_batch-OnlyAdds subplans run runs keys ps source
    execute_node-OnlyAdds (LogicalPlan.sort _ keys input) =
        bind-OnlyAdds _ (execute_node-OnlyAdds input) λ batch. sort_batch-OnlyAdds keys batch
    execute_node-OnlyAdds (LogicalPlan.limit _ n input) =
        bind-OnlyAdds _ (execute_node-OnlyAdds input) λ batch. lift-OnlyAdds (limit_batch n batch)
    execute_node-OnlyAdds (LogicalPlan.explain _ input) = lift-OnlyAdds _

  -- Executing a subplan only adds to the cache.
  pub run_subplan-OnlyAdds :
      (older : List LogicalPlan) (plan : LogicalPlan)
      → OnlyAdds (run_subplan explain catalog older plan)
  unfolding run_subplan
  run_subplan-OnlyAdds [] plan = record { keeps = λ σ. tt }
  run_subplan-OnlyAdds (_ ∷ older) plan =
      bind-OnlyAdds _
        (prepare_subqueries-OnlyAdds (subplan older) (run_subplan explain catalog older)
          (run_subplan-OnlyAdds older) plan)
        λ u.
          execute_node-OnlyAdds (subplan older) (run_subplan explain catalog older)
            (run_subplan-OnlyAdds older) plan
