-- ===== src/Execution/Cell.antt =====
-- Cell, its equality and its order, and OutputColumn.
pub mod Order
use vectorized_sql_engine.Base.{
  ℕ, ℤ, pos, ltb_ℤ, eqb_ℤ, Bytes, str_lt, str_eq, Bool, true, false, not, ◌&&◌, ◌||◌, List, [],
  Result, equal_elements, lexicographical_compare, if◌then◌else◌,
}
use vectorized_sql_engine.Catalog.{ColumnType, int64, string}
use vectorized_sql_engine.Sql.Ast.{
  ComparisonOp, equal, not_equal, less, less_equal, greater, greater_equal,
}
use vectorized_sql_engine.Storage.Column.{Column, append, append_null, empty_column}
use vectorized_sql_engine.Storage.Batch.{AnyColumn, ColumnarBatch, add_column}

pub record Cell : Type 0 where
  pub type : ColumnType
  pub is_null : Bool
  pub int_value : ℤ
  pub string_value : Bytes

abbrev pub type_eq : ColumnType → ColumnType → Bool
type_eq int64 int64 = true
type_eq string string = true
type_eq _ _ = false

-- The enumerators in order: Int64, then String.
abbrev pub type_lt : ColumnType → ColumnType → Bool
type_lt int64 string = true
type_lt _ _ = false

abbrev bool_eq : Bool → Bool → Bool
bool_eq true b = b
bool_eq false b = not b

-- operator== on the values of two cells of type `type`
abbrev value_eq : ColumnType → Cell → Cell → Bool
value_eq int64 l r = eqb_ℤ l.int_value r.int_value
value_eq string l r = str_eq l.string_value r.string_value

abbrev value_lt : ColumnType → Cell → Cell → Bool
value_lt int64 l r = ltb_ℤ l.int_value r.int_value
value_lt string l r = str_lt l.string_value r.string_value

-- operator==
unfoldable pub cell_eq : Cell → Cell → Bool
cell_eq l r =
    if l.is_null || r.is_null
    then bool_eq l.is_null r.is_null && type_eq l.type r.type
    else if not (type_eq l.type r.type)
    then false
    else value_eq l.type l r

-- operator<
unfoldable pub cell_lt : Cell → Cell → Bool
cell_lt l r =
    if not (type_eq l.type r.type)
    then type_lt l.type r.type
    else if l.is_null || r.is_null
    then l.is_null && not r.is_null
    else value_lt l.type l r

-- The order of std::vector<Cell>, and its equality.
abbrev pub row_lt : List Cell → List Cell → Bool
row_lt = lexicographical_compare cell_lt

abbrev pub row_eq : List Cell → List Cell → Bool
row_eq = equal_elements cell_eq

abbrev pub null_cell : ColumnType → Cell
null_cell type = record { type = type; is_null = true; int_value = pos 0; string_value = [] }

abbrev pub int64_cell : ℤ → Cell
int64_cell value = record { type = int64; is_null = false; int_value = value; string_value = [] }

abbrev pub string_cell : Bytes → Cell
string_cell value = record {
  type = string;
  is_null = false;
  int_value = pos 0;
  string_value = value;
}

unfoldable pub compare_values : Cell → ComparisonOp → Cell → Bool
unfolding cell_eq cell_lt
compare_values l equal r = cell_eq l r
compare_values l not_equal r = not (cell_eq l r)
compare_values l less r = cell_lt l r
compare_values l less_equal r = cell_lt l r || cell_eq l r
compare_values l greater r = cell_lt r l
compare_values l greater_equal r = cell_lt r l || cell_eq l r

-- OutputColumn: the column of its `type` is in use, so the model keeps that one.
abbrev pub OutputColumn : Type 0
OutputColumn = AnyColumn

abbrev pub output_column : ColumnType → OutputColumn
output_column int64 = AnyColumn.int64 empty_column
output_column string = AnyColumn.string empty_column

-- OutputColumn::append
unfoldable pub append_cell : Cell → OutputColumn → OutputColumn
unfolding append append_null
append_cell value (AnyColumn.int64 c) =
    AnyColumn.int64 (if value.is_null then append_null (pos 0) c else append value.int_value c)
append_cell value (AnyColumn.string c) =
    AnyColumn.string (if value.is_null then append_null [] c else append value.string_value c)

-- OutputColumn::add_to
abbrev pub add_to : ColumnarBatch → Bytes → OutputColumn → Result ColumnarBatch
add_to batch name column = add_column name column batch
