-- ===== src/Execution/Rows/SortRows.antt =====
-- src/execution/interpreter.cpp: stable_sorted_rows, from the order of the rows and the sort.
use mathlib.Core.List.{Permᴰ}
use vectorized_sql_engine.Base.{ℕ, ◌≡◌, true, List, range, ok}
use vectorized_sql_engine.Storage.Batch.{ColumnarBatch, row_count}
use vectorized_sql_engine.Plan.{SortKey}
use vectorized_sql_engine.Execution.Cell.{Cell}
use vectorized_sql_engine.Execution.Context.{ExecutionContext}
use vectorized_sql_engine.Execution.JoinSpec.{keep_if}
use vectorized_sql_engine.Execution.Rows.{row_less, stable_sorted_rows}
use vectorized_sql_engine.Execution.Rows.Sorting.{sorted, stable_sort-stable}
use vectorized_sql_engine.Execution.Rows.KeyOrder.{Reads}
use vectorized_sql_engine.Execution.Rows.SortOrder.{
  keys_before, keys_tied, keys_before-IsStrictWeakOrder, row_less-keys_before,
}

-- ORDER BY. Where every row has a value for each key, the values for a key being of one type,
-- stable_sorted_rows gives a permutation of the row numbers in which no row comes before an earlier
-- one by the keys (with their directions, NULL as the largest value, and a later key deciding where
-- the earlier ones are tied), and rows that are tied in every key stay in the order of the input.
pub stable_sorted_rows_lem :
    (value : SortKey → ℕ → Cell) (keys : List SortKey) (batch : ColumnarBatch) (rows : ℕ)
    (σ : ExecutionContext)
    → ((key : SortKey) (i j : ℕ) → (value key i).type ≡ (value key j).type)
    → Reads value batch rows σ keys
    → row_count batch ≡ ok rows
    → (out : List ℕ) × (stable_sorted_rows keys batch σ ≡ ok (out, σ))
      × Permᴰ (range 0 rows) out
      × (sorted (keys_before value keys) out ≡ true)
      × ((a : ℕ)
          → keep_if (keys_tied value keys a) out ≡ keep_if (keys_tied value keys a) (range 0 rows))
unfolding stable_sorted_rows
stable_sorted_rows_lem value keys batch rows σ typed reads counted =
    let (out, runs, perm, in_order, stable) =
      stable_sort-stable (keys_before value keys) (keys_tied value keys) (row_less keys batch) rows
        σ (keys_before-IsStrictWeakOrder value typed keys)
        (row_less-keys_before value typed batch rows σ keys reads) in
    (out, rw counted runs, perm, in_order, stable)
