-- ===== src/Vectorized/Scalars.antt =====
-- src/execution/vectorized.cpp: compiled columns and compiled scalars. A pointer into a batch is
-- the vector it points to, and `none` if it is null; the batches are immutable. A column has
-- NULLs exactly if it has a validity vector, so the pointer to that vector is the column's own.
use vectorized_sql_engine.Base.{
  ℕ, String, ℤ, Bytes, Bool, true, false, not, Option, none, some, List, [], ◌∷◌, Result, ok, err,
  throw, thrown, Exception, and_then, index, ◌==◌, if◌then◌else◌,
}
use vectorized_sql_engine.Catalog.{ColumnType, int64, string}
use vectorized_sql_engine.Storage.Batch.{ColumnarBatch, column, string_column, column_type}
use vectorized_sql_engine.Plan.{BoundColumnRef}
use vectorized_sql_engine.Execution.Cell.{type_eq, null_cell, int64_cell, string_cell}
use vectorized_sql_engine.Execution.Scalar.{column_identity_name}
use vectorized_sql_engine.Vectorized.Cells.{TypedCell}

infixl 5 ◌>>=◌
abbrev pub ◌>>=◌ {ℓ κ} : {A : Type ℓ} {B : Type κ} → Result A → (A → Result B) → Result B
◌>>=◌ = and_then

-- `(*values)[row]`
unfoldable pub deref : {A : Type 0} → Option (List A) → ℕ → Result A
deref none row = throw Exception.undefined "null pointer"
deref (some values) row = index values row

-- `validity != nullptr && (*validity)[row] == 0`
unfoldable pub invalid : Option (List ℕ) → ℕ → Result Bool
invalid none row = ok false
invalid (some bits) row = do bit ← index bits row; ok (bit == 0)

abbrev pub has_values : {A : Type 0} → Option (List A) → Bool
has_values none = false
has_values (some _) = true

-- The cell of a column of the given type.
unfoldable pub column_cell :
    ColumnType → Option (List ℤ) → Option (List Bytes) → Option (List ℕ) → ℕ → Result TypedCell
unfolding deref invalid
column_cell type ints strings validity row = do
  null ← invalid validity row
  if null then ok (null_cell type) else elim type [
    | int64 ↦ (do v ← deref ints row; ok (int64_cell v))
    | string ↦ (do v ← deref strings row; ok (string_cell v))
  ]

pub record CompiledColumn : Type 0 where
  pub type : ColumnType
  pub int_values : Option (List ℤ)
  pub string_values : Option (List Bytes)
  pub validity : Option (List ℕ)

-- CompiledColumn::is_null, cell
unfoldable pub compiled_is_null : CompiledColumn → ℕ → Result Bool
unfolding invalid
compiled_is_null c row = invalid c.validity row

unfoldable pub compiled_cell : CompiledColumn → ℕ → Result TypedCell
unfolding column_cell
compiled_cell c row = column_cell c.type c.int_values c.string_values c.validity row

-- The value and validity pointers of a column of a batch, by the type that is asked for.
abbrev pub compile_typed : ColumnType → Bytes → ColumnarBatch → Result CompiledColumn
compile_typed int64 name batch = do
  c ← column name batch
  ok (record {
    type = int64;
    int_values = some c.values;
    string_values = none;
    validity = c.validity;
  })
compile_typed string name batch = do
  c ← string_column name batch
  ok (record {
    type = string;
    int_values = none;
    string_values = some c.values;
    validity = c.validity;
  })

-- The same, after the check of the column's type.
abbrev pub compile_checked : String → ColumnType → Bytes → ColumnarBatch → Result CompiledColumn
compile_checked what type name batch = do
  stored ← column_type name batch
  if not (type_eq stored type)
      then err (thrown Exception.logic_error what name)
      else compile_typed type name batch

unfoldable pub compile_column : BoundColumnRef → ColumnarBatch → Result CompiledColumn
unfolding column string_column column_type column_identity_name
compile_column c batch =
    compile_checked "bound column type does not match storage column: " c.type
      (column_identity_name c) batch

unfoldable pub compile_named_column : ColumnarBatch → Bytes → Result CompiledColumn
unfolding column string_column column_type
compile_named_column batch name = do type ← column_type name batch; compile_typed type name batch

unfoldable pub compile_columns : List BoundColumnRef → ColumnarBatch → Result (List CompiledColumn)
unfolding compile_column
compile_columns [] batch = ok []
compile_columns (c ∷ cs) batch = do
  compiled ← compile_column c batch
  rest ← compile_columns cs batch
  ok (compiled ∷ rest)

unfoldable pub compile_named_columns : ColumnarBatch → List Bytes → Result (List CompiledColumn)
unfolding compile_named_column
compile_named_columns batch [] = ok []
compile_named_columns batch (name ∷ names) = do
  compiled ← compile_named_column batch name
  rest ← compile_named_columns batch names
  ok (compiled ∷ rest)

pub record CompiledScalar : Type 0 where
  pub type : ColumnType
  pub column_int_values : Option (List ℤ)
  pub column_string_values : Option (List Bytes)
  pub column_validity : Option (List ℕ)
  pub literal : ℤ
  pub string_literal : Bytes
  pub literal_is_null : Bool

unfoldable pub scalar_has_column : CompiledScalar → Bool
scalar_has_column s =
    if has_values s.column_int_values then true else has_values s.column_string_values

unfoldable pub scalar_is_always_null : CompiledScalar → Bool
unfolding scalar_has_column
scalar_is_always_null s = if scalar_has_column s then false else s.literal_is_null

unfoldable pub scalar_can_be_null : CompiledScalar → Bool
unfolding scalar_has_column
scalar_can_be_null s =
    if scalar_has_column s then has_values s.column_validity else s.literal_is_null

-- `values == nullptr ? literal : (*values)[row]`
abbrev pub value_or : {A : Type 0} → Option (List A) → A → ℕ → Result A
value_or none literal row = ok literal
value_or (some values) literal row = index values row

-- CompiledScalar::is_null
unfoldable pub scalar_is_null : CompiledScalar → ℕ → Result Bool
unfolding scalar_has_column invalid
scalar_is_null s row =
    if scalar_has_column s then invalid s.column_validity row else ok s.literal_is_null

-- CompiledScalar::cell
unfoldable pub scalar_cell : CompiledScalar → ℕ → Result TypedCell
unfolding scalar_is_null
scalar_cell s row = do
  null ← scalar_is_null s row
  if null then ok (null_cell s.type) else elim s.type [
    | int64 ↦ (do v ← value_or s.column_int_values s.literal row; ok (int64_cell v))
    | string ↦ (do v ← value_or s.column_string_values s.string_literal row; ok (string_cell v))
  ]
