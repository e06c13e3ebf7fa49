-- ===== src/Vectorized/Reads.antt =====
-- Reading a row of a column of a valid batch: the checked reads and the unchecked ones agree.
use vectorized_sql_engine.Base.{
  ℕ, zero, suc, ℤ, ◌≡◌, refl, ap, sym, subst, ◌∙◌, ◌<◌, Bool, false, Option, none, some, List, [],
  ◌∷◌, length, Bytes, str_eq, ok, at, index, ◌==◌, arith, if◌then◌else◌, and_then, Bool-cases,
  Option-cases, inl, inr,
}
use vectorized_sql_engine.Storage.Column.{Column, is_null, value_at}
use vectorized_sql_engine.Storage.Cells.{IsValidColumn}
use vectorized_sql_engine.Storage.Batch.{
  AnyColumn, ColumnarBatch, find_column, column_size, column, string_column, column_type, type_of,
  known, as_int64, as_string,
}
use vectorized_sql_engine.Storage.Valid.{IsValidAny, AreValid}
use vectorized_sql_engine.Catalog.{ColumnType, int64, string}
use vectorized_sql_engine.Execution.Cell.{null_cell, int64_cell, string_cell}
use vectorized_sql_engine.Execution.Scalar.{cell_at}
use vectorized_sql_engine.Vectorized.Scalars.{invalid}

at-index {ℓ} :
    {A : Type ℓ} (xs : List A) (i : ℕ)
    → i < length xs
    → (x : A) × (at xs i ≡ ok x) × (index xs i ≡ ok x)
at-index [] i h = absurd (omega arith)
at-index (x ∷ xs) zero h = (x, refl, refl)
at-index (x ∷ xs) (suc i) h = at-index xs i (omega arith)

-- The row holds NULL if `null`, and stores `value`, by the checked and by the unchecked reads.
pub record Reads {A : Type 0} (c : Column A) (row : ℕ) : Type 0 where
  pub null : Bool
  pub value : A
  pub is_null_checked : is_null c row ≡ ok null
  pub value_checked : value_at c row ≡ ok value
  pub is_null_unchecked : invalid c.validity row ≡ ok null
  pub value_unchecked : index c.values row ≡ ok value

parts-Reads :
    {A : Type 0} (vs : List A) (validity : Option (List ℕ)) (row : ℕ)
    → row < length vs
    → let c : Column A = record { values = vs; validity = validity } in
      IsValidColumn c → Reads c row
unfolding is_null value_at invalid
parts-Reads vs none row lt fits =
    let (v, checked, unchecked) = at-index vs row lt in
    record {
      null = false;
      value = v;
      is_null_checked = rw checked refl;
      value_checked = checked;
      is_null_unchecked = refl;
      value_unchecked = unchecked;
    }
parts-Reads vs (some bits) row lt fits =
    let (v, checked, unchecked) = at-index vs row lt in
    let (bit, bit_checked, bit_unchecked) = at-index bits row (omega arith) in
    record {
      null = bit == 0;
      value = v;
      is_null_checked = rw checked (rw bit_checked refl);
      value_checked = checked;
      is_null_unchecked = rw bit_unchecked refl;
      value_unchecked = unchecked;
    }

pub reads :
    {A : Type 0} (c : Column A) (row : ℕ) → row < length c.values → IsValidColumn c → Reads c row
reads c row lt fits = parts-Reads c.values c.validity row lt fits

pub found-valid :
    (rows : ℕ) (name : Bytes) (c : AnyColumn) (columns : List (Bytes × AnyColumn))
    → AreValid rows columns
    → find_column name columns ≡ some c
    → IsValidAny c × (column_size c ≡ rows)
unfolding find_column
found-valid rows name c [] valid h = absurd (cc h)
found-valid rows name c ((key, d) ∷ columns) (v, n, fresh, valid) h =
    elim (Bool-cases (str_eq key name)) [
      | inl e ↦
          let here : some d ≡ some c =
            ap (λ b. if b then some d else find_column name columns) (sym e) ∙ h in
          subst (λ x. IsValidAny x × (column_size x ≡ rows)) (cc here) (v, n)
      | inr e ↦
          found-valid rows name c columns valid
            (ap (λ b. if b then some d else find_column name columns) (sym e) ∙ h)
    ]

known-found :
    (name : Bytes) (batch : ColumnarBatch) (c : AnyColumn)
    → find_column name batch.columns ≡ some c
    → known name batch ≡ ok c
known-found name batch c h = rw (h, known) refl

pub found-type :
    (name : Bytes) (batch : ColumnarBatch) (c : AnyColumn)
    → find_column name batch.columns ≡ some c
    → column_type name batch ≡ ok (type_of c)
unfolding column_type
found-type name batch c h = ap (λ r. and_then r (λ d. ok (type_of d))) (known-found name batch c h)

pub found-column :
    (name : Bytes) (batch : ColumnarBatch) (c : Column ℤ)
    → find_column name batch.columns ≡ some (AnyColumn.int64 c)
    → column name batch ≡ ok c
unfolding column
found-column name batch c h =
    ap (λ r. and_then r (λ d. as_int64 name d)) (known-found name batch (AnyColumn.int64 c) h)

pub cell_at-int64 :
    (name : Bytes) (batch : ColumnarBatch) (c : Column ℤ) (row : ℕ)
    → find_column name batch.columns ≡ some (AnyColumn.int64 c)
    → cell_at batch name row
      ≡ and_then (is_null c row) (λ null.
        if null then ok (null_cell int64) else and_then (value_at c row) (λ v. ok (int64_cell v)))
unfolding cell_at
cell_at-int64 name batch c row h =
    rw (found-type name batch (AnyColumn.int64 c) h) (rw (found-column name batch c h) refl)

pub found-string_column :
    (name : Bytes) (batch : ColumnarBatch) (c : Column Bytes)
    → find_column name batch.columns ≡ some (AnyColumn.string c)
    → string_column name batch ≡ ok c
unfolding string_column
found-string_column name batch c h =
    ap (λ r. and_then r (λ d. as_string name d)) (known-found name batch (AnyColumn.string c) h)

pub cell_at-string :
    (name : Bytes) (batch : ColumnarBatch) (c : Column Bytes) (row : ℕ)
    → find_column name batch.columns ≡ some (AnyColumn.string c)
    → cell_at batch name row
      ≡ and_then (is_null c row) (λ null.
        if null then ok (null_cell string) else and_then (value_at c row) (λ v. ok (string_cell v)))
unfolding cell_at
cell_at-string name batch c row h =
    rw (found-type name batch (AnyColumn.string c) h) (rw (found-string_column name batch c h) refl)

-- The column behind a name whose type is known.
pub stored_column :
    (name : Bytes) (batch : ColumnarBatch) (type : ColumnType)
    → column_type name batch ≡ ok type
    → (c : AnyColumn) × (find_column name batch.columns ≡ some c) × (type_of c ≡ type)
unfolding column_type
stored_column name batch type h = elim (Option-cases (find_column name batch.columns)) [
  | inl e ↦ absurd (cc (h, e))
  | inr (c, e) ↦ (c, e, cc (h, e))
]
