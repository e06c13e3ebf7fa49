-- ===== src/Execution/Keeps/Operators.antt =====
-- src/execution/interpreter.cpp: sorts and aggregates, and the cache of subqueries.
use vectorized_sql_engine.Base.{ℕ, Bool, false, Option, none, some, List, [], ◌∷◌, range, at, ◌==◌}
use vectorized_sql_engine.Storage.Batch.{ColumnarBatch, row_count}
use vectorized_sql_engine.Plan.{BoundColumnRef, SortKey, AggregateExpression}
use vectorized_sql_engine.Execution.Cell.{cell_eq}
use vectorized_sql_engine.Execution.Context.{M}
use vectorized_sql_engine.Execution.Scalar.{outer_cell_at}
use vectorized_sql_engine.Execution.Rows.{
  key_value, row_less, insert_row, stable_sort, stable_sorted_rows,
}
use vectorized_sql_engine.Execution.Aggregate.{
  GroupState, argument_value, read_argument, group_for, update_group, AggregateValue, Groups,
  aggregate_argument_value, update_aggregate, group_key_values, update_all, add_row,
  aggregate_batch, start_groups,
}
use vectorized_sql_engine.Execution.Node.{sort_batch}
use vectorized_sql_engine.Execution.Keeps.{
  OnlyAdds, pure-OnlyAdds, lift-OnlyAdds, if-OnlyAdds, bind-OnlyAdds, for_each-OnlyAdds,
  push_each-OnlyAdds,
}

pub outer_cell_at-OnlyAdds : (c : BoundColumnRef) → OnlyAdds (outer_cell_at c)
unfolding outer_cell_at
outer_cell_at-OnlyAdds c = record { keeps = λ σ. (lift-OnlyAdds _).keeps σ }

pub key_value-OnlyAdds :
    (key : BoundColumnRef) (batch : ColumnarBatch) (row : ℕ) → OnlyAdds (key_value key batch row)
unfolding key_value
key_value-OnlyAdds key batch row =
    if-OnlyAdds (key.outer_depth == 0) (lift-OnlyAdds _) (outer_cell_at-OnlyAdds key)

pub row_less-OnlyAdds :
    (keys : List SortKey) (batch : ColumnarBatch) (l r : ℕ) → OnlyAdds (row_less keys batch l r)
unfolding row_less
row_less-OnlyAdds [] batch l r = pure-OnlyAdds false
row_less-OnlyAdds (key ∷ keys) batch l r =
    bind-OnlyAdds _ (key_value-OnlyAdds key.column batch l) λ a.
      bind-OnlyAdds _ (key_value-OnlyAdds key.column batch r)
        λ b. if-OnlyAdds (cell_eq a b) (row_less-OnlyAdds keys batch l r) (pure-OnlyAdds _)

module _ {less : ℕ → ℕ → M Bool} (h : (i j : ℕ) → OnlyAdds (less i j)) where
  insert_row-OnlyAdds : (x : ℕ) (ys : List ℕ) → OnlyAdds (insert_row less x ys)
  unfolding insert_row
  insert_row-OnlyAdds x [] = pure-OnlyAdds (x ∷ [])
  insert_row-OnlyAdds x (y ∷ ys) = bind-OnlyAdds _ (h y x) λ before.
      if-OnlyAdds before (bind-OnlyAdds _ (insert_row-OnlyAdds x ys) λ zs. pure-OnlyAdds (y ∷ zs))
        (pure-OnlyAdds (x ∷ y ∷ ys))

  pub stable_sort-OnlyAdds : (xs : List ℕ) → OnlyAdds (stable_sort less xs)
  unfolding stable_sort
  stable_sort-OnlyAdds [] = pure-OnlyAdds []
  stable_sort-OnlyAdds (x ∷ xs) =
      bind-OnlyAdds _ (stable_sort-OnlyAdds xs) λ ys. insert_row-OnlyAdds x ys

pub stable_sorted_rows-OnlyAdds :
    (keys : List SortKey) (batch : ColumnarBatch) → OnlyAdds (stable_sorted_rows keys batch)
unfolding stable_sorted_rows
stable_sorted_rows-OnlyAdds keys batch =
    bind-OnlyAdds _ (lift-OnlyAdds (row_count batch))
      λ rows. stable_sort-OnlyAdds (row_less-OnlyAdds keys batch) (range 0 rows)

pub sort_batch-OnlyAdds :
    (keys : List SortKey) (batch : ColumnarBatch) → OnlyAdds (sort_batch keys batch)
unfolding sort_batch
sort_batch-OnlyAdds keys batch =
    bind-OnlyAdds _ (stable_sorted_rows-OnlyAdds keys batch) λ rows. lift-OnlyAdds _

pub group_key_values-OnlyAdds :
    (keys : List BoundColumnRef) (batch : ColumnarBatch) (row : ℕ)
    → OnlyAdds (group_key_values keys batch row)
unfolding group_key_values
group_key_values-OnlyAdds keys batch row =
    push_each-OnlyAdds keys (λ key. key_value-OnlyAdds key batch row)

pub aggregate_argument_value-OnlyAdds :
    (e : AggregateExpression) (batch : ColumnarBatch) (row : ℕ)
    → OnlyAdds (aggregate_argument_value e batch row)
unfolding aggregate_argument_value
aggregate_argument_value-OnlyAdds e batch row = by_argument e.argument
  where
    by_argument : (a : Option BoundColumnRef) → OnlyAdds (argument_value a batch row)
    by_argument none = record { keeps = λ σ. tt }
    by_argument (some key) = key_value-OnlyAdds key batch row

pub update_aggregate-OnlyAdds :
    (e : AggregateExpression) (batch : ColumnarBatch) (row : ℕ) (value : AggregateValue)
    → OnlyAdds (update_aggregate e batch row value)
unfolding update_aggregate
update_aggregate-OnlyAdds e batch row value =
    bind-OnlyAdds _ (by_argument e.argument) λ argument. lift-OnlyAdds _
  where
    by_argument : (a : Option BoundColumnRef) → OnlyAdds (read_argument a batch row)
    by_argument none = record { keeps = λ σ ref batch found. found }
    by_argument (some key) =
        bind-OnlyAdds _ (key_value-OnlyAdds key batch row) λ v. pure-OnlyAdds (some v)

update_all-OnlyAdds :
    (es : List AggregateExpression) (batch : ColumnarBatch) (row : ℕ) (values : List AggregateValue)
    → OnlyAdds (update_all es batch row values)
unfolding update_all
update_all-OnlyAdds [] batch row values = pure-OnlyAdds values
update_all-OnlyAdds (e ∷ es) batch row [] = record { keeps = λ σ. tt }
update_all-OnlyAdds (e ∷ es) batch row (v ∷ vs) =
    bind-OnlyAdds _ (update_aggregate-OnlyAdds e batch row v)
      λ v'. bind-OnlyAdds _ (update_all-OnlyAdds es batch row vs) λ vs'. pure-OnlyAdds (v' ∷ vs')

add_row-OnlyAdds :
    (keys : List BoundColumnRef) (es : List AggregateExpression) (batch : ColumnarBatch)
    (g : Groups) (row : ℕ)
    → OnlyAdds (add_row keys es batch g row)
unfolding add_row
add_row-OnlyAdds keys es batch g row =
    bind-OnlyAdds _ (by_keys keys) λ (placed : Groups × ℕ). by_group placed.0 placed.1
  where
    by_group : (g : Groups) (index : ℕ) → OnlyAdds (update_group es batch row (g, index))
    by_group g index = bind-OnlyAdds _ (lift-OnlyAdds (at g.groups index)) λ (group : GroupState).
        bind-OnlyAdds _ (update_all-OnlyAdds es batch row group.aggregates)
          λ values. pure-OnlyAdds _

    by_keys : (keys : List BoundColumnRef) → OnlyAdds (group_for keys es batch row g)
    by_keys [] = record { keeps = λ σ ref batch found. found }
    by_keys (key ∷ keys) =
        bind-OnlyAdds _ (group_key_values-OnlyAdds (key ∷ keys) batch row) λ values. pure-OnlyAdds _

pub aggregate_batch-OnlyAdds :
    (keys : List BoundColumnRef) (es : List AggregateExpression) (batch : ColumnarBatch)
    → OnlyAdds (aggregate_batch keys es batch)
unfolding aggregate_batch
aggregate_batch-OnlyAdds keys es batch = bind-OnlyAdds _ (lift-OnlyAdds (row_count batch)) λ rows.
    bind-OnlyAdds _
      (for_each-OnlyAdds (start_groups keys es) (range 0 rows)
        (λ g row. add_row-OnlyAdds keys es batch g row))
      λ g. lift-OnlyAdds _
