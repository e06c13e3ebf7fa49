-- ===== src/Vectorized/RowReads.antt =====
-- What a compiled scalar holds on a row, for scalars that can be read on every row of a batch.
use vectorized_sql_engine.Base.{
  ℕ, ◌≡◌, ◌<◌, Bool, true, false, Option, none, some, List, ok, if◌then◌else◌,
}
use vectorized_sql_engine.Catalog.{ColumnType, int64, string}
use vectorized_sql_engine.Execution.Cell.{Cell, null_cell, int64_cell, string_cell}
use vectorized_sql_engine.Vectorized.Scalars.{
  CompiledScalar, has_values, value_or, invalid, scalar_has_column, scalar_is_always_null,
  scalar_can_be_null, scalar_is_null, scalar_cell,
}

-- The values of a scalar of one type: where its column's are, its literal, and their cells.
module _ {A : Type 0} (values : CompiledScalar → Option (List A)) (literal : CompiledScalar → A)
    (inject : A → Cell) where
  -- The scalar is NULL on the row if `null`, and reads `value` there.
  pub record RowOf (s : CompiledScalar) (row : ℕ) : Type 0 where
    pub null : Bool
    pub value : A
    pub is_null : scalar_is_null s row ≡ ok null
    pub read : value_or (values s) (literal s) row ≡ ok value
    pub cell : scalar_cell s row ≡ ok (if null then null_cell s.type else inject value)

  -- The scalar can be read on each of `n` rows, and a column is one of its type's values.
  pub record Readable (n : ℕ) (s : CompiledScalar) : Type 0 where
    pub has : scalar_has_column s ≡ has_values (values s)
    pub on : (row : ℕ) → row < n → RowOf s row

abbrev pub ReadableAs : ColumnType → ℕ → CompiledScalar → Type 0
ReadableAs int64 n s = Readable (λ c. c.column_int_values) (λ c. c.literal) int64_cell n s
ReadableAs string n s =
    Readable (λ c. c.column_string_values) (λ c. c.string_literal) string_cell n s

-- The scalar can be read on each of `n` rows, as its type says.
abbrev pub IsReadable : ℕ → CompiledScalar → Type 0
IsReadable n s = ReadableAs s.type n s

-- Whether the scalar is NULL on a row, and its cell there.
pub reads_on :
    (type : ColumnType) (n : ℕ) (s : CompiledScalar) (row : ℕ)
    → ReadableAs type n s
    → row < n
    → (null : Bool) × (cell : Cell) × (scalar_is_null s row ≡ ok null)
      × (scalar_cell s row ≡ ok cell)
reads_on int64 n s row h lt = let r = h.on row lt in (r.null, _, r.is_null, r.cell)
reads_on string n s row h lt = let r = h.on row lt in (r.null, _, r.is_null, r.cell)

never_null :
    (has : Bool) (validity : Option (List ℕ)) (literal null : Bool) (row : ℕ)
    → (if has then invalid validity row else ok literal) ≡ ok null
    → (if has then has_values validity else literal) ≡ false
    → null ≡ false
unfolding invalid
never_null true none literal null row h k = cc h
never_null true (some bits) literal null row h k = absurd (cc k)
never_null false validity literal null row h k = cc (h, k)

always_null :
    (has : Bool) (validity : Option (List ℕ)) (literal null : Bool) (row : ℕ)
    → (if has then invalid validity row else ok literal) ≡ ok null
    → (if has then false else literal) ≡ true
    → null ≡ true
always_null true validity literal null row h k = absurd (cc k)
always_null false validity literal null row h k = cc (h, k)

pub never_null-row :
    (s : CompiledScalar) (row : ℕ) (null : Bool)
    → scalar_is_null s row ≡ ok null
    → scalar_can_be_null s ≡ false
    → null ≡ false
unfolding scalar_is_null scalar_can_be_null
never_null-row s row null h k =
    never_null (scalar_has_column s) s.column_validity s.literal_is_null null row h k

pub always_null-row :
    (s : CompiledScalar) (row : ℕ) (null : Bool)
    → scalar_is_null s row ≡ ok null
    → scalar_is_always_null s ≡ true
    → null ≡ true
unfolding scalar_is_null scalar_is_always_null
always_null-row s row null h k =
    always_null (scalar_has_column s) s.column_validity s.literal_is_null null row h k
