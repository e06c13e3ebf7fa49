-- ===== src/Execution/Rows.antt =====
-- Ordering, grouping and copying rows: the comparison by sort keys, std::stable_sort, the
-- std::map keyed by rows of cells, materialize_rows, DISTINCT and LIMIT.
pub mod FirstRows
pub mod Sorting
pub mod KeyOrder
pub mod SortOrder
pub mod SortRows
use vectorized_sql_engine.Base.{
  ℕ, zero, suc, min, Bytes, Bool, true, false, not, ◌&&◌, ◌||◌, Option, none, some, List, [], ◌∷◌,
  ◌++◌, range, Result, ok, and_then, if◌then◌else◌, ◌==◌,
}
use vectorized_sql_engine.Sql.Ast.{SortDirection, asc, desc}
use vectorized_sql_engine.Storage.Batch.{ColumnarBatch, empty_batch, row_count, column_type}
use vectorized_sql_engine.Plan.{BoundColumnRef, SortKey}
use vectorized_sql_engine.Execution.Cell.{
  Cell, cell_eq, cell_lt, row_lt, OutputColumn, output_column, append_cell, add_to,
}
use vectorized_sql_engine.Execution.Context.{M, ◌>>=◌, pure, lift}
use vectorized_sql_engine.Execution.Scalar.{cell_at, outer_cell_at, column_identity_name}

-- window_key_value, and the same choice in stable_sorted_rows and group_key_values
unfoldable pub key_value : BoundColumnRef → ColumnarBatch → ℕ → M Cell
unfolding cell_at column_identity_name outer_cell_at
key_value key batch row =
    if key.outer_depth == 0
    then lift (cell_at batch (column_identity_name key) row)
    else outer_cell_at key

-- Whether the first of two unequal key values comes first. NULL is the largest value.
unfoldable pub key_precedes : SortDirection → Cell → Cell → Bool
unfolding cell_lt
key_precedes asc l r = if l.is_null || r.is_null then r.is_null else cell_lt l r
key_precedes desc l r = if l.is_null || r.is_null then l.is_null else cell_lt r l

-- The comparison in stable_sorted_rows, and window_row_less.
unfoldable pub row_less : List SortKey → ColumnarBatch → ℕ → ℕ → M Bool
unfolding key_value cell_eq key_precedes
row_less [] batch l r = pure false
row_less (key ∷ keys) batch l r =
    let rest = row_less keys batch l r in
    key_value key.column batch l >>= λ left_value. key_value key.column batch r >>= λ right_value.
    if cell_eq left_value right_value
    then rest
    else pure (key_precedes key.direction left_value right_value)

-- std::stable_sort by its specification: an insertion sort that never passes an equal element.
unfoldable pub insert_row : (ℕ → ℕ → M Bool) → ℕ → List ℕ → M (List ℕ)
insert_row less x [] = pure (x ∷ [])
insert_row less x (y ∷ ys) =
    let past = insert_row less x ys >>= λ zs. pure (y ∷ zs) in
    less y x >>= λ before. if before then past else pure (x ∷ y ∷ ys)

unfoldable pub stable_sort : (ℕ → ℕ → M Bool) → List ℕ → M (List ℕ)
unfolding insert_row
stable_sort less [] = pure []
stable_sort less (x ∷ xs) = stable_sort less xs >>= λ ys. insert_row less x ys

unfoldable pub stable_sorted_rows : List SortKey → ColumnarBatch → M (List ℕ)
unfolding stable_sort row_less row_count
stable_sorted_rows sort_keys batch =
    lift (row_count batch) >>= λ rows. stable_sort (row_less sort_keys batch) (range 0 rows)

-- Appending the cells of `rows` to an output column.
unfoldable pub append_rows : (ℕ → Result Cell) → List ℕ → OutputColumn → Result OutputColumn
unfolding append_cell
append_rows cell [] column = ok column
append_rows cell (row ∷ rows) column =
    and_then (cell row) λ value. append_rows cell rows (append_cell value column)

unfoldable pub copy_columns :
    ColumnarBatch → List ℕ → List Bytes → ColumnarBatch → Result ColumnarBatch
unfolding append_rows column_type cell_at
copy_columns batch rows [] out = ok out
copy_columns batch rows (name ∷ names) out = and_then (column_type name batch) λ type.
    and_then (append_rows (cell_at batch name) rows (output_column type))
      λ column. and_then (add_to out name column) λ out'. copy_columns batch rows names out'

unfoldable pub materialize_rows : ColumnarBatch → List ℕ → Result ColumnarBatch
unfolding copy_columns
materialize_rows batch rows = copy_columns batch rows batch.column_names empty_batch

-- The values of a row under the given names.
unfoldable pub named_values : ColumnarBatch → List Bytes → ℕ → Result (List Cell)
unfolding cell_at
named_values batch [] row = ok []
named_values batch (name ∷ names) row =
    and_then (cell_at batch name row) λ v. and_then (named_values batch names row) λ vs. ok (v ∷ vs)

unfoldable pub row_values : ColumnarBatch → ℕ → Result (List Cell)
unfolding named_values
row_values batch row = named_values batch batch.column_names row

-- std::map<std::vector<Cell>, V>::find: the entry whose key neither precedes nor follows.
unfoldable pub find_key : {V : Type 0} → List Cell → List (List Cell × V) → Option V
unfolding cell_lt
find_key key [] = none
find_key key ((k, v) ∷ entries) =
    if not (row_lt k key) && not (row_lt key k) then some v else find_key key entries

abbrev pub is_none : {V : Type 0} → Option V → Bool
is_none none = true
is_none (some _) = false

-- The loop of execute_distinct.
unfoldable pub first_rows :
    (ℕ → Result (List Cell)) → List ℕ → List (List Cell × Bool) → Result (List ℕ)
unfolding find_key
first_rows values [] seen = ok []
first_rows values (row ∷ rows) seen = and_then (values row) λ key.
    let fresh = is_none (find_key key seen) in
    and_then (first_rows values rows (if fresh then (key, true) ∷ seen else seen))
      λ kept. ok (if fresh then row ∷ kept else kept)

-- execute_distinct, on the executed input
unfoldable pub distinct_batch : ColumnarBatch → Result ColumnarBatch
unfolding row_count first_rows row_values materialize_rows
distinct_batch input = and_then (row_count input) λ count.
    and_then (first_rows (row_values input) (range 0 count) []) λ rows. materialize_rows input rows

-- execute_limit, on the executed input
unfoldable pub limit_batch : ℕ → ColumnarBatch → Result ColumnarBatch
unfolding row_count materialize_rows
limit_batch limit_count input =
    and_then (row_count input) λ count. materialize_rows input (range 0 (min limit_count count))
