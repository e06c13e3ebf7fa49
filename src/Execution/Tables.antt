-- ===== src/Execution/Tables.antt =====
-- src/execution/interpreter.cpp: the class Catalog. std::map is an association list, newest first.
pub mod Lookup
use vectorized_sql_engine.Base.{
  ℕ, Bytes, str_eq, Option, none, some, List, [], ◌∷◌, Result, ok, err, throw, thrown, Exception,
  and_then, if◌then◌else◌,
}
use vectorized_sql_engine.Catalog.{ColumnSchema, TableSchema}
use vectorized_sql_engine.Storage.Batch.{ColumnarBatch, row_count, column_type}

abbrev pub Catalog : Type 0
Catalog = List (Bytes × ColumnarBatch)

unfoldable pub find_table : Bytes → Catalog → Option ColumnarBatch
unfolding str_eq
find_table name [] = none
find_table name ((key, batch) ∷ tables) =
    if str_eq key name then some batch else find_table name tables

abbrev insert_table : Bytes → ColumnarBatch → Option ColumnarBatch → Catalog → Result Catalog
insert_table name batch none catalog = ok ((name, batch) ∷ catalog)
insert_table name batch (some _) catalog = throw Exception.invalid_argument "duplicate table"

unfoldable pub add_table : Bytes → ColumnarBatch → Catalog → Result Catalog
unfolding find_table
add_table name batch catalog = insert_table name batch (find_table name catalog) catalog

unfoldable pub column_schemas : ColumnarBatch → List Bytes → Result (List ColumnSchema)
unfolding column_type
column_schemas batch [] = ok []
column_schemas batch (name ∷ names) = and_then (column_type name batch) λ type.
    and_then (column_schemas batch names) λ rest. ok (record { name = name; type = type } ∷ rest)

abbrev schema_of : Bytes → Option ColumnarBatch → Result (Option TableSchema)
schema_of name none = ok none
schema_of name (some batch) = and_then (row_count batch) λ rows.
    and_then (column_schemas batch batch.column_names)
      λ columns. ok (some (record { name = name; columns = columns; row_count = some rows }))

unfoldable pub find_table_schema : Bytes → Catalog → Result (Option TableSchema)
unfolding find_table row_count column_schemas
find_table_schema name catalog = schema_of name (find_table name catalog)

abbrev known_table : Bytes → Option ColumnarBatch → Result ColumnarBatch
known_table name none = err (thrown Exception.out_of_range "unknown table: " name)
known_table name (some batch) = ok batch

unfoldable pub table : Bytes → Catalog → Result ColumnarBatch
unfolding find_table
table name catalog = known_table name (find_table name catalog)
