-- ===== src/Vectorized/Sets.antt =====
-- src/execution/vectorized.cpp: IN over a prepared set against the interpreter's IN over the
-- materialized subquery.
use vectorized_sql_engine.Base.{
  ℕ, ℤ, ◌≡◌, refl, ap, sym, ◌∙◌, false, some, [], ◌∷◌, length, Bytes, ok, range, ◌==◌, arith,
  if◌then◌else◌, and_then,
}
use vectorized_sql_engine.Catalog.{ColumnType, int64, string}
use vectorized_sql_engine.Storage.Column.{Column, size}
use vectorized_sql_engine.Storage.Cells.{IsValidColumn}
use vectorized_sql_engine.Storage.Batch.{
  AnyColumn, ColumnarBatch, find_column, column_type, row_count, column_size, type_of,
}
use vectorized_sql_engine.Storage.Valid.{IsValidAny, IsValidBatch}
use vectorized_sql_engine.Execution.Cell.{Cell, cell_eq, null_cell, int64_cell, string_cell}
use vectorized_sql_engine.Execution.Truth.{TruthValue}
use vectorized_sql_engine.Execution.Predicate.{in_rows, in_column, in_result}
use vectorized_sql_engine.Vectorized.Cells.{MaterializedValueSet, contains, evaluate_in_truth}
use vectorized_sql_engine.Vectorized.Context.{
  fill_set, insert_int, insert_string, start_set, value_set, fill_typed, set_of_column,
}
use vectorized_sql_engine.Vectorized.Reads.{
  found-valid, found-type, found-column, found-string_column, cell_at-int64, cell_at-string,
  stored_column,
}
use vectorized_sql_engine.Vectorized.FillSet.{Inserts, filled-evaluates}

value_set-typed :
    (rows : ℕ) (name : Bytes) (result : ColumnarBatch) (type : ColumnType)
    → result.column_names ≡ name ∷ []
    → row_count result ≡ ok rows
    → column_type name result ≡ ok type
    → value_set result ≡ fill_typed type name result rows
unfolding value_set
value_set-typed rows name result type names counted typed =
    ap (λ ns. set_of_column ns result) names
    ∙ ap (λ t. and_then t (λ u. and_then (row_count result) (λ n. fill_typed u name result n)))
        typed
    ∙ ap (λ r. and_then r (λ n. fill_typed type name result n)) counted

in_result-named :
    (rows : ℕ) (name : Bytes) (value : Cell) (result : ColumnarBatch)
    → result.column_names ≡ name ∷ []
    → row_count result ≡ ok rows
    → in_result value result ≡ (
        if rows == 0
        then ok TruthValue.false
        else if value.is_null
        then ok TruthValue.unknown
        else in_rows value result name false (range 0 rows))
unfolding in_result
in_result-named rows name value result names counted =
    ap
      (λ r.
        and_then r (λ n.
          if n == 0 then ok TruthValue.false else in_column value result result.column_names n))
      counted
    ∙ ap (λ ns. if rows == 0 then ok TruthValue.false else in_column value result ns rows) names

-- The set of the subquery can be built, and agrees with the rows.
abbrev pub SetAgrees : Cell → ColumnarBatch → Type 0
SetAgrees value result =
    (set : MaterializedValueSet) × (value_set result ≡ ok set)
    × (in_result value result ≡ ok (evaluate_in_truth value set))

int-Inserts :
    (value : Cell) (v : ℤ) (set : MaterializedValueSet)
    → value.type ≡ int64
    → Inserts value int64_cell insert_int v set
unfolding contains cell_eq
int-Inserts value v set e t = ground arith

int_set :
    (rows : ℕ) (name : Bytes) (value : Cell) (result : ColumnarBatch) (c : Column ℤ)
    → result.column_names ≡ name ∷ []
    → row_count result ≡ ok rows
    → find_column name result.columns ≡ some (AnyColumn.int64 c)
    → IsValidColumn c
    → length c.values ≡ rows
    → value.type ≡ int64
    → SetAgrees value result
unfolding contains
int_set rows name value result c names counted found valid same t =
    let (set, runs, e) =
      filled-evaluates insert_int int64_cell (null_cell int64) value result name c valid refl
        (λ v. refl) (λ row. cell_at-int64 name result c row found) (λ v s. int-Inserts value v s t)
        (λ s. refl) rows (start_set int64 rows) (omega arith) (sym t) refl refl
        (rw t (ground arith)) in
    (
      set,
      value_set-typed rows name result int64 names counted
            (found-type name result (AnyColumn.int64 c) found)
          ∙ ap (λ r. and_then r (λ d. fill_set insert_int d (range 0 rows) (start_set int64 rows)))
              (found-column name result c found)
          ∙ runs,
      in_result-named rows name value result names counted ∙ e,
    )

string-Inserts :
    (value : Cell) (v : Bytes) (set : MaterializedValueSet)
    → value.type ≡ string
    → Inserts value string_cell insert_string v set
unfolding contains cell_eq
string-Inserts value v set e t = ground arith

string_set :
    (rows : ℕ) (name : Bytes) (value : Cell) (result : ColumnarBatch) (c : Column Bytes)
    → result.column_names ≡ name ∷ []
    → row_count result ≡ ok rows
    → find_column name result.columns ≡ some (AnyColumn.string c)
    → IsValidColumn c
    → length c.values ≡ rows
    → value.type ≡ string
    → SetAgrees value result
unfolding contains
string_set rows name value result c names counted found valid same t =
    let (set, runs, e) =
      filled-evaluates insert_string string_cell (null_cell string) value result name c valid refl
        (λ v. refl) (λ row. cell_at-string name result c row found)
        (λ v s. string-Inserts value v s t) (λ s. refl) rows (start_set string rows) (omega arith)
        (sym t) refl refl (rw t (ground arith)) in
    (
      set,
      value_set-typed rows name result string names counted
            (found-type name result (AnyColumn.string c) found)
          ∙ ap
              (λ r.
                and_then r (λ d. fill_set insert_string d (range 0 rows) (start_set string rows)))
              (found-string_column name result c found)
          ∙ runs,
      in_result-named rows name value result names counted ∙ e,
    )

by_type :
    (rows : ℕ) (name : Bytes) (value : Cell) (result : ColumnarBatch) (c : AnyColumn)
    → result.column_names ≡ name ∷ []
    → row_count result ≡ ok rows
    → find_column name result.columns ≡ some c
    → IsValidAny c
    → column_size c ≡ rows
    → value.type ≡ type_of c
    → SetAgrees value result
unfolding column_size size
by_type rows name value result (AnyColumn.int64 c) = int_set rows name value result c
by_type rows name value result (AnyColumn.string c) = string_set rows name value result c

-- A materialized IN subquery of `rows` rows, with one column of the value's type: its set can be
-- built, and IN over the set has the truth value of the interpreter's IN over the rows.
pub value_set-in_result :
    (rows : ℕ) (name : Bytes) (value : Cell) (result : ColumnarBatch)
    → IsValidBatch rows result
    → result.column_names ≡ name ∷ []
    → column_type name result ≡ ok value.type
    → SetAgrees value result
value_set-in_result rows name value result valid names type =
    let (c, found, t) = stored_column name result value.type type in
    let (fits, long) = found-valid rows name c result.columns valid.fits.valid found in
    by_type rows name value result c names valid.counted found fits long (sym t)
