-- ===== src/Vectorized/Context.antt =====
-- src/execution/vectorized.cpp: the results and the value sets of the subqueries, which are
-- prepared before the plan is executed. As in the interpreter, a subquery is the address of its
-- plan, which a table of subplans resolves; the table has no plan at a null pointer.
use vectorized_sql_engine.Base.{
  ℕ, String, zero, suc, ℤ, pos, Bytes, true, false, not, Option, none, some, List, [], ◌∷◌, range,
  Result, ok, throw, thrown, err, Exception, ◌==◌, if◌then◌else◌,
}
use vectorized_sql_engine.Catalog.{ColumnType, int64, string}
use vectorized_sql_engine.Storage.Column.{Column, is_null, value_at}
use vectorized_sql_engine.Storage.Batch.{
  ColumnarBatch, column, string_column, column_type, row_count,
}
use vectorized_sql_engine.Plan.{PlanRef, LogicalPlan, Value, BoundScalarExpr}
use vectorized_sql_engine.Execution.Cell.{type_eq}
use vectorized_sql_engine.Execution.Context.{find_result}
use vectorized_sql_engine.Execution.Scalar.{column_identity_name}
use vectorized_sql_engine.Vectorized.Cells.{MaterializedValueSet}
use vectorized_sql_engine.Vectorized.Scalars.{
  ◌>>=◌, CompiledColumn, CompiledScalar, compile_checked,
}

-- The catalog, which execution never changes, is no part of it.
pub record PreparedContext : Type 0 where
  pub subquery_results : List (PlanRef × ColumnarBatch)
  pub subquery_value_sets : List (PlanRef × MaterializedValueSet)

unfoldable pub find_set :
    PlanRef → List (PlanRef × MaterializedValueSet) → Option MaterializedValueSet
find_set ref [] = none
find_set ref ((key, set) ∷ rest) = if key == ref then some set else find_set ref rest

abbrev pub inserted :
    {A : Type 0} (insert : A → MaterializedValueSet → MaterializedValueSet)
    → Result A
    → MaterializedValueSet
    → Result MaterializedValueSet
inserted insert value set = do v ← value; ok (insert v set)

-- The loop of prepare_value_set over the rows of one column.
unfoldable pub fill_set :
    {A : Type 0} (insert : A → MaterializedValueSet → MaterializedValueSet)
    → Column A
    → List ℕ
    → MaterializedValueSet
    → Result MaterializedValueSet
unfolding is_null value_at
fill_set insert c [] set = ok set
fill_set insert c (row ∷ rows) set = do
  null ← is_null c row
  set' ← if null then ok (record set { has_null = true }) else inserted insert (value_at c row) set
  fill_set insert c rows set'

abbrev pub insert_int : ℤ → MaterializedValueSet → MaterializedValueSet
insert_int v set = record set { int_values = v ∷ set.int_values }

abbrev pub insert_string : Bytes → MaterializedValueSet → MaterializedValueSet
insert_string v set = record set { string_values = v ∷ set.string_values }

abbrev pub start_set : ColumnType → ℕ → MaterializedValueSet
start_set type rows = record {
  type = type;
  is_empty = rows == 0;
  has_null = false;
  int_values = [];
  string_values = [];
}

abbrev pub fill_typed : ColumnType → Bytes → ColumnarBatch → ℕ → Result MaterializedValueSet
fill_typed int64 name batch rows = do
  c ← column name batch
  fill_set insert_int c (range 0 rows) (start_set int64 rows)
fill_typed string name batch rows = do
  c ← string_column name batch
  fill_set insert_string c (range 0 rows) (start_set string rows)

abbrev pub set_of_column : List Bytes → ColumnarBatch → Result MaterializedValueSet
set_of_column (name ∷ []) batch = do
  type ← column_type name batch
  rows ← row_count batch
  fill_typed type name batch rows
set_of_column _ batch =
    throw Exception.logic_error "IN subquery materialization must have exactly one column"

-- The set that prepare_value_set builds from the materialized subquery.
unfoldable pub value_set : ColumnarBatch → Result MaterializedValueSet
unfolding fill_set column string_column column_type row_count
value_set result = set_of_column result.column_names result

-- A scalar with no column: the fields as the declaration of `compiled` leaves them.
abbrev pub literal_scalar : ColumnType → CompiledScalar
literal_scalar type = record {
  type = type;
  column_int_values = none;
  column_string_values = none;
  column_validity = none;
  literal = pos 0;
  string_literal = [];
  literal_is_null = false;
}

abbrev pub with_column : CompiledColumn → CompiledScalar
with_column c = record (literal_scalar c.type) {
  column_int_values = c.int_values;
  column_string_values = c.string_values;
  column_validity = c.validity;
}

-- The single row of the result of a scalar subquery.
abbrev pub single_value : ColumnType → Bytes → ColumnarBatch → Result CompiledScalar
single_value int64 name batch = do
  c ← column name batch
  null ← is_null c 0
  if null
      then ok (record (literal_scalar int64) { literal_is_null = true })
      else (do v ← value_at c 0; ok (record (literal_scalar int64) { literal = v }))
single_value string name batch = do
  c ← string_column name batch
  null ← is_null c 0
  if null
      then ok (record (literal_scalar string) { literal_is_null = true })
      else (do v ← value_at c 0; ok (record (literal_scalar string) { string_literal = v }))

abbrev pub wrong_schema : String → Result CompiledScalar
wrong_schema what = throw Exception.logic_error what

abbrev pub single_column : String → ColumnType → List Bytes → ColumnarBatch → Result CompiledScalar
single_column what type (name ∷ []) batch = do
  stored ← column_type name batch
  if not (type_eq stored type) then wrong_schema what else single_value type name batch
single_column what type _ batch = wrong_schema what

abbrev pub compile_result : String → Bytes → ColumnType → ColumnarBatch → ℕ → Result CompiledScalar
compile_result what name type batch zero =
    ok (record (literal_scalar type) { literal_is_null = true })
compile_result what name type batch (suc zero) = single_column what type batch.column_names batch
compile_result what name type batch (suc (suc _)) =
    err (thrown Exception.runtime_error " returned more than one row" name)

module _ (subplans : PlanRef → Option LogicalPlan) where
  abbrev known_result : Option LogicalPlan → Option ColumnarBatch → Result ColumnarBatch
  known_result none found =
      throw Exception.invalid_argument "bound subquery is missing its logical plan"
  known_result (some _) none =
      throw Exception.logic_error "vectorized subquery was not eagerly prepared"
  known_result (some _) (some result) = ok result

  unfoldable pub prepared_subquery : PlanRef → PreparedContext → Result ColumnarBatch
  unfolding find_result
  prepared_subquery ref context =
      known_result (subplans ref) (find_result ref context.subquery_results)

  abbrev known_set : Option LogicalPlan → Option MaterializedValueSet → Result MaterializedValueSet
  known_set none found =
      throw Exception.invalid_argument "bound IN subquery is missing its logical plan"
  known_set (some _) none =
      throw Exception.logic_error "vectorized IN subquery set was not eagerly prepared"
  known_set (some _) (some set) = ok set

  unfoldable pub prepared_value_set : PlanRef → PreparedContext → Result MaterializedValueSet
  unfolding find_set
  prepared_value_set ref context =
      known_set (subplans ref) (find_set ref context.subquery_value_sets)

  abbrev pub compile_value :
      ColumnType → Value → ColumnarBatch → PreparedContext → Result CompiledScalar
  compile_value type (Value.column c) batch context = do
    compiled ←
        compile_checked "bound scalar type does not match storage column: " type
          (column_identity_name c) batch
    ok (with_column compiled)
  compile_value type (Value.int_literal v _) batch context =
      ok (record (literal_scalar type) { literal = v })
  compile_value type (Value.string_literal v _) batch context =
      ok (record (literal_scalar type) { string_literal = v })
  compile_value type (Value.null_literal _) batch context =
      ok (record (literal_scalar type) { literal_is_null = true })
  compile_value type (Value.subquery ref _ name) batch context = do
    result ← prepared_subquery ref context
    rows ← row_count result
    compile_result "scalar subquery materialization has the wrong schema" name type result rows

  unfoldable pub compile_scalar :
      BoundScalarExpr → ColumnarBatch → PreparedContext → Result CompiledScalar
  unfolding column_type column string_column column_identity_name prepared_subquery row_count
      is_null value_at
  compile_scalar e batch context = compile_value e.type e.value batch context
