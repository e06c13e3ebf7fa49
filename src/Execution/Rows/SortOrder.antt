-- ===== src/Execution/Rows/SortOrder.antt =====
-- src/execution/interpreter.cpp: what ORDER BY and the windows mean by the order of rows, stated
-- without the comparison of the source (window_row_less, and the lambda of stable_sorted_rows).
use vectorized_sql_engine.Base.{
  ℕ, ◌≡◌, refl, ◌∙◌, ap, ap₂, sym, subst, Bool, true, false, not, ◌&&◌, ◌||◌, List, [], ◌∷◌, ok,
  arith, ltb_ℤ, eqb_ℤ, ◌<◌, str_lt, str_eq, IsStrictWeakOrder,
}
use vectorized_sql_engine.Catalog.{int64, string}
use vectorized_sql_engine.Sql.Ast.{SortDirection, asc, desc}
use vectorized_sql_engine.Storage.Batch.{ColumnarBatch}
use vectorized_sql_engine.Plan.{SortKey}
use vectorized_sql_engine.Execution.Cell.{Cell, cell_eq, cell_lt}
use vectorized_sql_engine.Execution.Cell.Order.{cell-IsStrictWeakOrder}
use vectorized_sql_engine.Execution.Context.{ExecutionContext}
use vectorized_sql_engine.Execution.Rows.{key_precedes, row_less}
use vectorized_sql_engine.Execution.Rows.Sorting.{Compares}
use vectorized_sql_engine.Execution.Rows.KeyOrder.{
  Reads, keys_lt, keys_eq, keys-IsStrictWeakOrder, row_less-keys_lt,
}

-- The order of two values of one type that are not NULL: of integers, or of bytes from the left.
abbrev pub smaller_value : Cell → Cell → Bool
smaller_value a b = elim a.type [
  | int64 ↦ ltb_ℤ a.int_value b.int_value
  | string ↦ str_lt a.string_value b.string_value
]

abbrev pub equal_value : Cell → Cell → Bool
equal_value a b = elim a.type [
  | int64 ↦ eqb_ℤ a.int_value b.int_value
  | string ↦ str_eq a.string_value b.string_value
]

-- ASC: smaller values first and NULLs last. DESC: NULLs first and larger values before smaller ones.
abbrev pub comes_before : SortDirection → Cell → Cell → Bool
comes_before asc a b = not a.is_null && (b.is_null || smaller_value a b)
comes_before desc a b = not b.is_null && (a.is_null || smaller_value b a)

-- Two NULLs, or two equal values.
abbrev pub tied : Cell → Cell → Bool
tied a b = (a.is_null && b.is_null) || (not a.is_null && (not b.is_null && equal_value a b))

-- The keys from the first on: a later key decides between rows that the earlier keys leave tied.
module _ (value : SortKey → ℕ → Cell) where
  abbrev pub keys_before : List SortKey → ℕ → ℕ → Bool
  keys_before [] l r = false
  keys_before (key ∷ keys) l r =
      comes_before key.direction (value key l) (value key r)
      || (tied (value key l) (value key r) && keys_before keys l r)

  abbrev pub keys_tied : List SortKey → ℕ → ℕ → Bool
  keys_tied [] l r = true
  keys_tied (key ∷ keys) l r = tied (value key l) (value key r) && keys_tied keys l r

tied-cell_eq : (a b : Cell) → a.type ≡ b.type → tied a b ≡ cell_eq a b
unfolding cell_eq
tied-cell_eq a b t = ground arith

comes_before-key_precedes :
    (d : SortDirection) (a b : Cell)
    → a.type ≡ b.type
    → cell_eq a b ≡ false
    → comes_before d a b ≡ key_precedes d a b
unfolding key_precedes cell_eq cell_lt
comes_before-key_precedes asc a b t e = ground arith
comes_before-key_precedes desc a b t e = ground arith

comes_before-tied :
    (d : SortDirection) (a b : Cell)
    → a.type ≡ b.type
    → cell_eq a b ≡ true
    → comes_before d a b ≡ false
unfolding cell_eq cell_lt
comes_before-tied asc a b t e = ground (arith, cell-IsStrictWeakOrder.lt-ne a b)
comes_before-tied desc a b t e =
    ground (arith, cell-IsStrictWeakOrder.eq_sym a b, cell-IsStrictWeakOrder.lt-ne b a)

module _ (value : SortKey → ℕ → Cell)
    (typed : (key : SortKey) (i j : ℕ) → (value key i).type ≡ (value key j).type) where
  keys_tied-keys_eq :
      (keys : List SortKey) (i j : ℕ) → keys_eq value keys i j ≡ keys_tied value keys i j
  keys_tied-keys_eq [] i j = refl
  keys_tied-keys_eq (k ∷ ks) i j =
      ap₂ (λ x y. x && y) (sym (tied-cell_eq (value k i) (value k j) (typed k i j)))
        (keys_tied-keys_eq ks i j)

  keys_before-keys_lt :
      (keys : List SortKey) (i j : ℕ) → keys_lt value keys i j ≡ keys_before value keys i j
  keys_before-keys_lt [] i j = refl
  keys_before-keys_lt (k ∷ ks) i j = ground (
    arith,
    keys_before-keys_lt ks i j,
    tied-cell_eq (value k i) (value k j) (typed k i j),
    comes_before-key_precedes k.direction (value k i) (value k j) (typed k i j),
    comes_before-tied k.direction (value k i) (value k j) (typed k i j),
  )

  pub keys_before-IsStrictWeakOrder :
      (keys : List SortKey) → IsStrictWeakOrder (keys_before value keys) (keys_tied value keys)
  keys_before-IsStrictWeakOrder keys =
      subst (λ eq. IsStrictWeakOrder (keys_before value keys) eq)
        (λ p i j. keys_tied-keys_eq keys i j p)
        (subst (λ lt. IsStrictWeakOrder lt (keys_eq value keys))
          (λ p i j. keys_before-keys_lt keys i j p) (keys-IsStrictWeakOrder value typed keys))

  pub row_less-keys_before :
      (batch : ColumnarBatch) (rows : ℕ) (σ : ExecutionContext) (keys : List SortKey)
      → Reads value batch rows σ keys
      → Compares (row_less keys batch) (keys_before value keys) rows σ
  row_less-keys_before batch rows σ keys reads i j h h' =
      row_less-keys_lt value batch rows σ keys reads i j h h'
      ∙ ap (λ b. ok (b, σ)) (keys_before-keys_lt keys i j)

-- Where the rows of a batch have a value for each sort key, the values for a key being of one type,
-- the comparison of two of them is true exactly if the first comes before the second by the keys,
-- with their directions and NULL as the largest value; this is the strict weak ordering that
-- std::stable_sort requires, and the rows that it does not tell apart are those tied in every key.
pub row_less-IsStrictWeakOrder :
    (value : SortKey → ℕ → Cell) (batch : ColumnarBatch) (rows : ℕ) (σ : ExecutionContext)
    (keys : List SortKey)
    → ((key : SortKey) (i j : ℕ) → (value key i).type ≡ (value key j).type)
    → Reads value batch rows σ keys
    → ((i j : ℕ)
        → i < rows
        → j < rows
        → row_less keys batch i j σ ≡ ok (keys_before value keys i j, σ))
      × IsStrictWeakOrder (keys_before value keys) (keys_tied value keys)
row_less-IsStrictWeakOrder value batch rows σ keys typed reads = (
  row_less-keys_before value typed batch rows σ keys reads,
  keys_before-IsStrictWeakOrder value typed keys,
)
