-- ===== src/Tests/Storage.antt =====
-- Columns, batches and the catalog.
use vectorized_sql_engine.Base.{
  ◌≡◌, ◌≢◌, refl, pos, Bytes, codes, none, some, [], ◌∷◌, ◌++◌, ok, throw, Exception, ◌⊎◌,
}
use vectorized_sql_engine.Storage.Column.{append_null}
use vectorized_sql_engine.Storage.Cells.{IsValidColumn, cells, cells-append_null}
use vectorized_sql_engine.Storage.Batch.{
  AnyColumn, ColumnarBatch, filter, add_column, column, equals_i64, column_size,
}
use vectorized_sql_engine.Storage.Valid.{IsValidBatch}
use vectorized_sql_engine.Storage.FilterBatch.{view, select_table, series}
use vectorized_sql_engine.Storage.Contract.{filter-view, add_column-IsValidBatch, equals_i64-cells}
use vectorized_sql_engine.Execution.Tables.{Catalog, add_table, table}
use vectorized_sql_engine.Execution.Tables.Lookup.{add_table-table}
use vectorized_sql_engine.Tests.Data.{amounts, amount, orders, orders-IsValidBatch}

filter-view_example :
    (out : ColumnarBatch) × (filter (1 ∷ 1 ∷ 0 ∷ []) orders ≡ ok out)
    × IsValidBatch 2 out
    × (view out ≡ select_table (1 ∷ 1 ∷ 0 ∷ []) (view orders))
filter-view_example = filter-view 3 (1 ∷ 1 ∷ 0 ∷ []) orders orders-IsValidBatch refl

abbrev more : Bytes
more = codes "b"

abbrev both_columns : ColumnarBatch
both_columns = record {
  columns = (amount, AnyColumn.int64 amounts) ∷ (more, AnyColumn.int64 amounts) ∷ [];
  column_names = amount ∷ more ∷ [];
}

add_more : add_column more (AnyColumn.int64 amounts) orders ≡ ok both_columns
unfolding add_column
add_more = refl

add_column-IsValidBatch_example :
    IsValidBatch (column_size (AnyColumn.int64 amounts)) both_columns
    × (view both_columns ≡ view orders ++ (more, series (AnyColumn.int64 amounts)) ∷ [])
add_column-IsValidBatch_example =
    add_column-IsValidBatch 3 more (AnyColumn.int64 amounts) orders both_columns orders-IsValidBatch
      refl add_more

amount-column : column amount orders ≡ ok amounts
unfolding column
amount-column = refl

equals_i64-cells_example : equals_i64 orders amount (pos 0) ≡ ok (0 ∷ 0 ∷ 0 ∷ [])
equals_i64-cells_example = equals_i64-cells orders amount (pos 0) amounts amount-column refl

cells-append_null_example :
    IsValidColumn (append_null (pos 0) amounts)
    × (cells (append_null (pos 0) amounts) ≡ some (pos 5) ∷ none ∷ some (pos 7) ∷ none ∷ [])
cells-append_null_example = cells-append_null amounts (pos 0) refl

add_table-table_example :
    ((old : ColumnarBatch) × (table amount [] ≡ ok old)
      × (add_table amount orders [] ≡ throw Exception.invalid_argument "duplicate table"))
    ⊎ ((catalog' : Catalog) × (add_table amount orders [] ≡ ok catalog')
        × (table amount catalog' ≡ ok orders)
        × ((other : Bytes) → other ≢ amount → table other catalog' ≡ table other []))
add_table-table_example = add_table-table amount orders []
