-- ===== src/Execution/Aggregate.antt =====
-- src/execution/interpreter.cpp: aggregate values, their updates, and execute_aggregate.
pub mod Totals
pub mod Least
use vectorized_sql_engine.Base.{
  ℕ, zero, suc, ◌+◌, ℤ, pos, ◌+ℤ◌, int64_max, fits_int64, Bytes, Bool, true, false, not, Option,
  none, some, List, [], ◌∷◌, ◌++◌, map, range, length, set, replicate, Result, ok, err, throw,
  thrown, Exception, and_then, at, ◌==◌, if◌then◌else◌,
}
use vectorized_sql_engine.Catalog.{ColumnType}
use vectorized_sql_engine.Sql.Ast.{AggregateFunction}
use vectorized_sql_engine.Storage.Batch.{ColumnarBatch, empty_batch, row_count}
use vectorized_sql_engine.Plan.{BoundColumnRef, AggregateExpression}
use vectorized_sql_engine.Execution.Cell.{
  Cell, null_cell, int64_cell, cell_lt, OutputColumn, output_column, append_cell, add_to,
}
use vectorized_sql_engine.Execution.Context.{M, ◌>>=◌, pure, lift, raise, for_each, push_each}
use vectorized_sql_engine.Execution.Scalar.{cell_at, outer_cell_at, column_identity_name}
use vectorized_sql_engine.Execution.Rows.{key_value, find_key}

-- The counter is never negative.
pub record AggregateValue : Type 0 where
  pub count : ℕ
  pub sum : ℤ
  pub value : Cell
  pub has_value : Bool

abbrev pub start_value : AggregateValue
start_value = record {
  count = 0;
  sum = pos 0;
  value = null_cell ColumnType.int64;
  has_value = false;
}

pub record GroupState : Type 0 where
  pub key_values : List Cell
  pub aggregates : List AggregateValue

abbrev pub overflowed : {A : Type 0} → Bytes → Result A
overflowed output_name = err (thrown Exception.runtime_error " overflowed int64" output_name)

unfoldable pub increment_count : Bytes → AggregateValue → Result AggregateValue
unfolding int64_max
increment_count output_name value =
    if value.count == int64_max
    then overflowed output_name
    else ok (record value { count = suc value.count })

-- __builtin_add_overflow: the sum over the integers, if it fits.
unfoldable pub checked_sum : ℤ → ℤ → Bytes → Result ℤ
unfolding ◌+ℤ◌ fits_int64
checked_sum l r output_name = if fits_int64 (l +ℤ r) then ok (l +ℤ r) else overflowed output_name

unfoldable pub update_sum : Bytes → ℤ → AggregateValue → Result AggregateValue
unfolding checked_sum
update_sum output_name argument value =
    if not value.has_value
    then ok (record value { sum = argument; has_value = true })
    else and_then (checked_sum value.sum argument output_name) λ s. ok (record value { sum = s })

abbrev pub argument_value : Option BoundColumnRef → ColumnarBatch → ℕ → M Cell
argument_value none batch row = raise Exception.logic_error "aggregate argument is missing" []
argument_value (some argument) batch row = key_value argument batch row

unfoldable pub aggregate_argument_value : AggregateExpression → ColumnarBatch → ℕ → M Cell
unfolding key_value
aggregate_argument_value aggregate batch row = argument_value aggregate.argument batch row

-- The Min and Max branches: `better` compares the argument with the value so far.
abbrev keep_best : (Cell → Cell → Bool) → Cell → AggregateValue → AggregateValue
keep_best better argument value =
    if not value.has_value
    then record value { value = argument; has_value = true }
    else if better argument value.value
    then record value { value = argument; has_value = true }
    else record value { has_value = true }

-- What update_aggregate does with a value of its argument; `none` is the argument of COUNT(*).
unfoldable pub accumulate :
    AggregateFunction → Bytes → Option Cell → AggregateValue → Result AggregateValue
unfolding increment_count update_sum cell_lt
accumulate AggregateFunction.count output_name none value = increment_count output_name value
accumulate AggregateFunction.count output_name (some argument) value =
    if argument.is_null then ok value else increment_count output_name value
accumulate AggregateFunction.sum output_name none value =
    throw Exception.logic_error "aggregate argument is missing"
accumulate AggregateFunction.sum output_name (some argument) value =
    if argument.is_null then ok value else update_sum output_name argument.int_value value
accumulate AggregateFunction.min output_name none value =
    throw Exception.logic_error "aggregate argument is missing"
accumulate AggregateFunction.min output_name (some argument) value =
    if argument.is_null then ok value else ok (keep_best (λ a v. cell_lt a v) argument value)
accumulate AggregateFunction.max output_name none value =
    throw Exception.logic_error "aggregate argument is missing"
accumulate AggregateFunction.max output_name (some argument) value =
    if argument.is_null then ok value else ok (keep_best (λ a v. cell_lt v a) argument value)

abbrev pub read_argument : Option BoundColumnRef → ColumnarBatch → ℕ → M (Option Cell)
read_argument none batch row = pure none
read_argument (some argument) batch row = key_value argument batch row >>= λ v. pure (some v)

unfoldable pub update_aggregate :
    AggregateExpression → ColumnarBatch → ℕ → AggregateValue → M AggregateValue
unfolding key_value accumulate
update_aggregate aggregate batch row value =
    read_argument aggregate.argument batch row >>= λ argument.
    lift (accumulate aggregate.function aggregate.output_name argument value)

unfoldable pub finalize_aggregate : AggregateFunction → ColumnType → AggregateValue → Cell
finalize_aggregate AggregateFunction.count type value = int64_cell (pos value.count)
finalize_aggregate AggregateFunction.sum type value =
    if not value.has_value then null_cell ColumnType.int64 else int64_cell value.sum
finalize_aggregate AggregateFunction.min type value =
    if not value.has_value then null_cell type else value.value
finalize_aggregate AggregateFunction.max type value =
    if not value.has_value then null_cell type else value.value

unfoldable pub group_key_values : List BoundColumnRef → ColumnarBatch → ℕ → M (List Cell)
unfolding push_each key_value
group_key_values group_keys batch row = push_each (λ key. key_value key batch row) group_keys

unfoldable pub make_group : List Cell → List AggregateExpression → GroupState
make_group key_values aggregates = record {
  key_values = key_values;
  aggregates = replicate (length aggregates) start_value;
}

-- The loop over the aggregate expressions of a row; `aggregates.at(i)` is the value for the i-th.
unfoldable pub update_all :
    List AggregateExpression → ColumnarBatch → ℕ → List AggregateValue → M (List AggregateValue)
unfolding update_aggregate
update_all [] batch row values = pure values
update_all (e ∷ es) batch row [] = raise Exception.out_of_range "vector::at" []
update_all (e ∷ es) batch row (v ∷ vs) =
    update_aggregate e batch row v >>= λ v'. update_all es batch row vs >>= λ vs'. pure (v' ∷ vs')

-- The groups, in the order in which their keys came up, and the index of each key.
pub record Groups : Type 0 where
  pub group_index_by_key : List (List Cell × ℕ)
  pub groups : List GroupState

abbrev place : List Cell → List AggregateExpression → Option ℕ → Groups → Groups × ℕ
place key aggregates (some group_index) g = (g, group_index)
place key aggregates none g =
    let group_index = length g.groups in
    (
      record {
        group_index_by_key = (key, group_index) ∷ g.group_index_by_key;
        groups = g.groups ++ make_group key aggregates ∷ [];
      },
      group_index,
    )

-- The group of a key, which is added if the key is new.
unfoldable pub group_of : List Cell → List AggregateExpression → Groups → Groups × ℕ
unfolding find_key make_group
group_of key aggregates g = place key aggregates (find_key key g.group_index_by_key) g

abbrev pub update_group : List AggregateExpression → ColumnarBatch → ℕ → Groups × ℕ → M Groups
update_group aggregates input row (g, group_index) = lift (at g.groups group_index) >>= λ group.
    update_all aggregates input row group.aggregates >>= λ values.
    pure (record g { groups = set g.groups group_index (record group { aggregates = values }) })

abbrev pub group_for :
    List BoundColumnRef → List AggregateExpression → ColumnarBatch → ℕ → Groups → M (Groups × ℕ)
group_for [] aggregates input row g = pure (g, 0)
group_for (key ∷ keys) aggregates input row g =
    group_key_values (key ∷ keys) input row >>= λ values. pure (group_of values aggregates g)

-- The body of the loop over the input's rows.
unfoldable pub add_row :
    List BoundColumnRef → List AggregateExpression → ColumnarBatch → Groups → ℕ → M Groups
unfolding group_key_values group_of update_all
add_row group_keys aggregates input g row =
    group_for group_keys aggregates input row g >>= λ placed.
    update_group aggregates input row placed

abbrev pub start_groups : List BoundColumnRef → List AggregateExpression → Groups
start_groups [] aggregates = record {
  group_index_by_key = [];
  groups = make_group [] aggregates ∷ [];
}
start_groups (_ ∷ _) aggregates = record { group_index_by_key = []; groups = [] }

unfoldable pub group_column :
    (GroupState → Result Cell) → List GroupState → OutputColumn → Result OutputColumn
unfolding append_cell
group_column cell [] column = ok column
group_column cell (group ∷ groups) column =
    and_then (cell group) λ value. group_column cell groups (append_cell value column)

unfoldable pub key_columns :
    List GroupState → ℕ → List BoundColumnRef → ColumnarBatch → Result ColumnarBatch
unfolding group_column column_identity_name
key_columns groups i [] out = ok out
key_columns groups i (key ∷ keys) out =
    and_then (group_column (λ group. at group.key_values i) groups (output_column key.type))
      λ column.
        and_then (add_to out (column_identity_name key) column)
          λ out'. key_columns groups (suc i) keys out'

unfoldable pub aggregate_columns :
    List GroupState → ℕ → List AggregateExpression → ColumnarBatch → Result ColumnarBatch
unfolding group_column finalize_aggregate
aggregate_columns groups i [] out = ok out
aggregate_columns groups i (e ∷ es) out =
    and_then
      (group_column
        (λ group. and_then (at group.aggregates i) λ v. ok (finalize_aggregate e.function e.type v))
        groups (output_column e.type))
      λ column.
        and_then (add_to out e.output_name column) λ out'. aggregate_columns groups (suc i) es out'

-- execute_aggregate, on the executed input
unfoldable pub aggregate_batch :
    List BoundColumnRef → List AggregateExpression → ColumnarBatch → M ColumnarBatch
unfolding row_count for_each add_row make_group key_columns aggregate_columns
aggregate_batch group_keys aggregates input = lift (row_count input) >>= λ rows.
    for_each (add_row group_keys aggregates input) (start_groups group_keys aggregates)
      (range 0 rows)
    >>= λ g. lift (
        and_then (key_columns g.groups 0 group_keys empty_batch)
          λ out. aggregate_columns g.groups 0 aggregates out)
