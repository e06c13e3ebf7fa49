-- ===== src/Storage/Batch.antt =====
-- src/storage/columnar_batch.cpp: batches of named columns. std::map is an association list in the
-- order of insertion; the source only looks names up in it and never walks it.
use vectorized_sql_engine.Base.{
  ℕ, zero, suc, ℤ, pos, Bytes, str_eq, eqb_ℤ, Bool, true, false, not, ◌&&◌, Option, none, some,
  List, [], ◌∷◌, ◌++◌, length, Result, ok, err, throw, thrown, Exception, ◌==◌, if◌then◌else◌,
}
use vectorized_sql_engine.Catalog.{ColumnType}
use vectorized_sql_engine.Storage.Column.{
  Column, empty_column, append, append_null, size, value_at, is_null, ◌>>=◌,
}

-- std::variant<Int64Column, StringColumn>
pub data AnyColumn : Type 0 where
  int64 : Column ℤ → AnyColumn
  string : Column Bytes → AnyColumn

pub record ColumnarBatch : Type 0 where
  pub columns : List (Bytes × AnyColumn)
  pub column_names : List Bytes

abbrev pub empty_batch : ColumnarBatch
empty_batch = record { columns = []; column_names = [] }

-- std::map::find
unfoldable pub find_column : Bytes → List (Bytes × AnyColumn) → Option AnyColumn
unfolding str_eq
find_column name [] = none
find_column name ((key, column) ∷ rest) =
    if str_eq key name then some column else find_column name rest

-- std::map::at
abbrev pub found : Option AnyColumn → Result AnyColumn
found none = throw Exception.out_of_range "map::at"
found (some column) = ok column

unfoldable pub column_size : AnyColumn → ℕ
unfolding size
column_size (int64 c) = size c
column_size (string c) = size c

abbrev pub first_size : List Bytes → List (Bytes × AnyColumn) → Result ℕ
first_size [] columns = ok 0
first_size (name ∷ _) columns = do
  column ← found (find_column name columns)
  ok (column_size column)

unfoldable pub row_count : ColumnarBatch → Result ℕ
unfolding find_column column_size
row_count b = first_size b.column_names b.columns

abbrev pub is_some {ℓ} : {A : Type ℓ} → Option A → Bool
is_some none = false
is_some (some _) = true

unfoldable pub has_column : Bytes → ColumnarBatch → Bool
unfolding find_column
has_column name b = is_some (find_column name b.columns)

abbrev pub is_empty {ℓ} : {A : Type ℓ} → List A → Bool
is_empty [] = true
is_empty (_ ∷ _) = false

-- add_typed_column, which both overloads of add_column call.
unfoldable pub add_column : Bytes → AnyColumn → ColumnarBatch → Result ColumnarBatch
unfolding row_count has_column column_size
add_column name column b = do
  rows ← row_count b
  if not (is_empty b.columns) && not (column_size column == rows)
      then throw Exception.invalid_argument "all columns in a batch must have the same row count"
      else if has_column name b
      then throw Exception.invalid_argument "duplicate column name"
      else ok (record {
        columns = b.columns ++ (name, column) ∷ [];
        column_names = b.column_names ++ name ∷ [];
      })

-- The error of `column`, `string_column` and `column_type` on a name that the batch lacks.
abbrev pub known : Bytes → ColumnarBatch → Result AnyColumn
known name b = elim (find_column name b.columns) [
  | none ↦ err (thrown Exception.out_of_range "unknown column: " name)
  | some column ↦ ok column
]

abbrev pub as_int64 : Bytes → AnyColumn → Result (Column ℤ)
as_int64 name (int64 c) = ok c
as_int64 name (string c) = err (thrown Exception.invalid_argument "column is not int64: " name)

abbrev pub as_string : Bytes → AnyColumn → Result (Column Bytes)
as_string name (int64 c) = err (thrown Exception.invalid_argument "column is not string: " name)
as_string name (string c) = ok c

abbrev pub type_of : AnyColumn → ColumnType
type_of (int64 _) = ColumnType.int64
type_of (string _) = ColumnType.string

unfoldable pub column : Bytes → ColumnarBatch → Result (Column ℤ)
unfolding find_column
column name b = do c ← known name b; as_int64 name c

unfoldable pub string_column : Bytes → ColumnarBatch → Result (Column Bytes)
unfolding find_column
string_column name b = do c ← known name b; as_string name c

unfoldable pub column_type : Bytes → ColumnarBatch → Result ColumnType
unfolding find_column
column_type name b = do c ← known name b; ok (type_of c)

-- The loop of `filter` over the mask, from row `i` on. `null_value` is what `append_null` stores.
module _ {A : Type 0} (null_value : A) (source : Column A) where
  abbrev pub keep_row : ℕ → Column A → Result (Column A)
  keep_row i filtered = do
    null ← is_null source i
    if null
        then ok (append_null null_value filtered)
        else (do v ← value_at source i; ok (append v filtered))

  unfoldable pub filter_column : List ℕ → ℕ → Column A → Result (Column A)
  unfolding is_null value_at append append_null
  filter_column [] i filtered = ok filtered
  filter_column (keep ∷ mask) i filtered = do
    filtered' ← if keep == 0 then ok filtered else keep_row i filtered
    filter_column mask (suc i) filtered'

unfoldable pub filter_any : List ℕ → AnyColumn → Result AnyColumn
unfolding filter_column
filter_any mask (int64 c) = do f ← filter_column (pos 0) c mask 0 empty_column; ok (int64 f)
filter_any mask (string c) = do f ← filter_column [] c mask 0 empty_column; ok (string f)

-- The loop of `filter` over the column names.
unfoldable pub filter_columns :
    List ℕ → List (Bytes × AnyColumn) → List Bytes → ColumnarBatch → Result ColumnarBatch
unfolding filter_any find_column add_column
filter_columns mask columns [] out = ok out
filter_columns mask columns (name ∷ names) out = do
  source ← found (find_column name columns)
  filtered ← filter_any mask source
  out' ← add_column name filtered out
  filter_columns mask columns names out'

unfoldable pub filter : List ℕ → ColumnarBatch → Result ColumnarBatch
unfolding filter_columns row_count
filter mask b = do
  rows ← row_count b
  if length mask == rows
      then filter_columns mask b.columns b.column_names empty_batch
      else throw Exception.invalid_argument "row mask size must equal batch row count"

-- The loop of equals_i64 from row `i` on, for `rows` more rows.
unfoldable pub equals_rows : Column ℤ → ℤ → ℕ → ℕ → Result (List ℕ)
unfolding is_null value_at
equals_rows c value i zero = ok []
equals_rows c value i (suc rows) = do
  null ← is_null c i
  hit ← if null then ok false else (do v ← value_at c i; ok (eqb_ℤ v value))
  mask ← equals_rows c value (suc i) rows
  ok ((if hit then 1 else 0) ∷ mask)

unfoldable pub equals_i64 : ColumnarBatch → Bytes → ℤ → Result (List ℕ)
unfolding equals_rows column size
equals_i64 b name value = do c ← column name b; equals_rows c value 0 (size c)
