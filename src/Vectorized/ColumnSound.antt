-- ===== src/Vectorized/ColumnSound.antt =====
-- src/execution/vectorized.cpp: compiled columns, and with them every scalar without a subquery,
-- read what the interpreter evaluates.
use vectorized_sql_engine.Base.{
  ℕ, ℤ, Bytes, ◌≡◌, refl, ap, sym, subst, ◌∙◌, ◌<◌, Bool, true, false, not, Option, none, some,
  length, Result, ok, and_then, err, thrown, Exception, arith, if◌then◌else◌, ◌==◌, index,
}
use vectorized_sql_engine.Catalog.{ColumnType, int64, string}
use vectorized_sql_engine.Storage.Column.{Column, value_at, size}
use vectorized_sql_engine.Storage.Cells.{IsValidColumn}
use vectorized_sql_engine.Storage.Batch.{
  AnyColumn, ColumnarBatch, find_column, column_size, type_of,
}
use vectorized_sql_engine.Storage.Valid.{IsValidAny, AreValid}
use vectorized_sql_engine.Plan.{PlanRef, LogicalPlan, BoundColumnRef, Value, BoundScalarExpr}
use vectorized_sql_engine.Execution.Cell.{Cell, null_cell, int64_cell, string_cell, type_eq}
use vectorized_sql_engine.Execution.Context.{ExecutionContext, M}
use vectorized_sql_engine.Execution.Scalar.{column_identity_name, evaluate_scalar}
use vectorized_sql_engine.Vectorized.Scalars.{
  CompiledScalar, compile_typed, scalar_has_column, scalar_is_null, scalar_cell,
}
use vectorized_sql_engine.Vectorized.Context.{PreparedContext, compile_scalar, with_column}
use vectorized_sql_engine.Vectorized.Reads.{
  Reads, reads, found-valid, found-type, found-column, found-string_column, cell_at-int64,
  cell_at-string, stored_column,
}
use vectorized_sql_engine.Vectorized.RowReads.{RowOf}
use vectorized_sql_engine.Vectorized.ScalarSound.{
  ValueFits, ScalarFits, Compiled, int_literal-Compiled, string_literal-Compiled,
  null_literal-Compiled,
}

abbrev int64_scalar : Column ℤ → CompiledScalar
int64_scalar c = with_column (record {
  type = int64;
  int_values = some c.values;
  string_values = none;
  validity = c.validity;
})

abbrev string_scalar : Column Bytes → CompiledScalar
string_scalar c = with_column (record {
  type = string;
  int_values = none;
  string_values = some c.values;
  validity = c.validity;
})

picked :
    (null : Bool) (a b : Cell) (read : Result Cell)
    → read ≡ ok b
    → (if null then ok a else read) ≡ ok (if null then a else b)
picked true a b read h = refl
picked false a b read h = h

null_picked :
    (null : Bool) (a b : Cell)
    → a.is_null ≡ true
    → b.is_null ≡ false
    → null ≡ (if null then a else b).is_null
null_picked true a b h k = sym h
null_picked false a b h k = sym k

type_picked :
    (type : ColumnType) (null : Bool) (a b : Cell)
    → a.type ≡ type
    → b.type ≡ type
    → (if null then a else b).type ≡ type
type_picked type true a b h k = h
type_picked type false a b h k = k

local_column {ℓ} :
    {A : Type ℓ} (depth : ℕ) (x y : A) → depth ≡ 0 → (if depth == 0 then x else y) ≡ x
local_column depth x y h = rw h refl

module _ (subplans : PlanRef → Option LogicalPlan) (run : LogicalPlan → M ColumnarBatch)
    (context : PreparedContext) (batch : ColumnarBatch) (n : ℕ) where
  int64-cell :
      (c : Column ℤ) (row : ℕ) (r : Reads c row)
      → scalar_cell (int64_scalar c) row
        ≡ ok (if r.null then null_cell int64 else int64_cell r.value)
  unfolding scalar_is_null scalar_cell scalar_has_column
  int64-cell c row r =
      ap
        (λ m. and_then m (λ null.
          if null
          then ok (null_cell int64)
          else and_then (index c.values row) (λ v. ok (int64_cell v))))
        r.is_null_unchecked
      ∙ picked r.null (null_cell int64) (int64_cell r.value) _
          (ap (λ m. and_then m (λ v. ok (int64_cell v))) r.value_unchecked)

  int64-RowOf :
      (c : Column ℤ) (row : ℕ)
      → Reads c row
      → RowOf (λ s. s.column_int_values) (λ s. s.literal) int64_cell (int64_scalar c) row
  unfolding scalar_is_null scalar_cell scalar_has_column
  int64-RowOf c row r = record {
    null = r.null;
    value = r.value;
    is_null = r.is_null_unchecked;
    read = r.value_unchecked;
    cell = int64-cell c row r;
  }

  int64-on :
      (b : BoundColumnRef) (c : Column ℤ) (row : ℕ)
      → find_column (column_identity_name b) batch.columns ≡ some (AnyColumn.int64 c)
      → b.outer_depth ≡ 0
      → Reads c row
      → (v : Cell) × (scalar_is_null (int64_scalar c) row ≡ ok v.is_null)
        × (scalar_cell (int64_scalar c) row ≡ ok v)
        × (v.type ≡ int64)
        × ((σ : ExecutionContext)
            → evaluate_scalar subplans run
                (record { value = Value.column b; type = int64 })
                batch
                row
                σ
              ≡ ok (v, σ))
  unfolding evaluate_scalar scalar_is_null scalar_has_column
  int64-on b c row found depth r = (
    if r.null then null_cell int64 else int64_cell r.value,
    r.is_null_unchecked
        ∙ ap (λ x. ok x) (null_picked r.null (null_cell int64) (int64_cell r.value) refl refl),
    int64-cell c row r,
    type_picked int64 r.null (null_cell int64) (int64_cell r.value) refl refl,
    λ σ.
        ap (λ (f : M Cell). f σ) (local_column b.outer_depth _ _ depth)
        ∙ ap (λ m. and_then m (λ v. ok (v, σ)))
            (cell_at-int64 (column_identity_name b) batch c row found
              ∙ ap
                  (λ m. and_then m (λ null.
                    if null
                    then ok (null_cell int64)
                    else and_then (value_at c row) (λ v. ok (int64_cell v))))
                  r.is_null_checked
              ∙ picked r.null (null_cell int64) (int64_cell r.value) _
                  (ap (λ m. and_then m (λ v. ok (int64_cell v))) r.value_checked)),
  )

  int64-Compiled :
      (b : BoundColumnRef) (c : Column ℤ)
      → find_column (column_identity_name b) batch.columns ≡ some (AnyColumn.int64 c)
      → b.outer_depth ≡ 0
      → IsValidColumn c
      → length c.values ≡ n
      → Compiled subplans run context batch n (record { value = Value.column b; type = int64 })
  unfolding compile_scalar scalar_has_column
  int64-Compiled b c found depth valid long =
      let name = column_identity_name b in
      let row_reads = λ (row : ℕ) (lt : row < n). reads c row (omega arith) valid in
      record {
        scalar = int64_scalar c;
        compiles =
            ap
              (λ m.
                and_then
                  (and_then m (λ stored.
                    if not (type_eq stored int64)
                    then err (
                        thrown Exception.logic_error
                          "bound scalar type does not match storage column: " name)
                    else compile_typed int64 name batch))
                  (λ x. ok (with_column x)))
              (found-type name batch (AnyColumn.int64 c) found)
            ∙ ap
                (λ m.
                  and_then
                    (and_then m (λ d. ok (record {
                      type = int64;
                      int_values = some d.values;
                      string_values = none;
                      validity = d.validity;
                    })))
                    (λ x. ok (with_column x)))
                (found-column name batch c found);
        typed = refl;
        readable = record { has = refl; on = λ row lt. int64-RowOf c row (row_reads row lt) };
        on = λ row lt. int64-on b c row found depth (row_reads row lt);
      }

  string-cell :
      (c : Column Bytes) (row : ℕ) (r : Reads c row)
      → scalar_cell (string_scalar c) row
        ≡ ok (if r.null then null_cell string else string_cell r.value)
  unfolding scalar_is_null scalar_cell scalar_has_column
  string-cell c row r =
      ap
        (λ m. and_then m (λ null.
          if null
          then ok (null_cell string)
          else and_then (index c.values row) (λ v. ok (string_cell v))))
        r.is_null_unchecked
      ∙ picked r.null (null_cell string) (string_cell r.value) _
          (ap (λ m. and_then m (λ v. ok (string_cell v))) r.value_unchecked)

  string-RowOf :
      (c : Column Bytes) (row : ℕ)
      → Reads c row
      → RowOf
          (λ s. s.column_string_values)
          (λ s. s.string_literal)
          string_cell
          (string_scalar c)
          row
  unfolding scalar_is_null scalar_cell scalar_has_column
  string-RowOf c row r = record {
    null = r.null;
    value = r.value;
    is_null = r.is_null_unchecked;
    read = r.value_unchecked;
    cell = string-cell c row r;
  }

  string-on :
      (b : BoundColumnRef) (c : Column Bytes) (row : ℕ)
      → find_column (column_identity_name b) batch.columns ≡ some (AnyColumn.string c)
      → b.outer_depth ≡ 0
      → Reads c row
      → (v : Cell) × (scalar_is_null (string_scalar c) row ≡ ok v.is_null)
        × (scalar_cell (string_scalar c) row ≡ ok v)
        × (v.type ≡ string)
        × ((σ : ExecutionContext)
            → evaluate_scalar subplans run
                (record { value = Value.column b; type = string })
                batch
                row
                σ
              ≡ ok (v, σ))
  unfolding evaluate_scalar scalar_is_null scalar_has_column
  string-on b c row found depth r = (
    if r.null then null_cell string else string_cell r.value,
    r.is_null_unchecked
        ∙ ap (λ x. ok x) (null_picked r.null (null_cell string) (string_cell r.value) refl refl),
    string-cell c row r,
    type_picked string r.null (null_cell string) (string_cell r.value) refl refl,
    λ σ.
        ap (λ (f : M Cell). f σ) (local_column b.outer_depth _ _ depth)
        ∙ ap (λ m. and_then m (λ v. ok (v, σ)))
            (cell_at-string (column_identity_name b) batch c row found
              ∙ ap
                  (λ m. and_then m (λ null.
                    if null
                    then ok (null_cell string)
                    else and_then (value_at c row) (λ v. ok (string_cell v))))
                  r.is_null_checked
              ∙ picked r.null (null_cell string) (string_cell r.value) _
                  (ap (λ m. and_then m (λ v. ok (string_cell v))) r.value_checked)),
  )

  string-Compiled :
      (b : BoundColumnRef) (c : Column Bytes)
      → find_column (column_identity_name b) batch.columns ≡ some (AnyColumn.string c)
      → b.outer_depth ≡ 0
      → IsValidColumn c
      → length c.values ≡ n
      → Compiled subplans run context batch n (record { value = Value.column b; type = string })
  unfolding compile_scalar scalar_has_column
  string-Compiled b c found depth valid long =
      let name = column_identity_name b in
      let row_reads = λ (row : ℕ) (lt : row < n). reads c row (omega arith) valid in
      record {
        scalar = string_scalar c;
        compiles =
            ap
              (λ m.
                and_then
                  (and_then m (λ stored.
                    if not (type_eq stored string)
                    then err (
                        thrown Exception.logic_error
                          "bound scalar type does not match storage column: " name)
                    else compile_typed string name batch))
                  (λ x. ok (with_column x)))
              (found-type name batch (AnyColumn.string c) found)
            ∙ ap
                (λ m.
                  and_then
                    (and_then m (λ d. ok (record {
                      type = string;
                      int_values = none;
                      string_values = some d.values;
                      validity = d.validity;
                    })))
                    (λ x. ok (with_column x)))
                (found-string_column name batch c found);
        typed = refl;
        readable = record { has = refl; on = λ row lt. string-RowOf c row (row_reads row lt) };
        on = λ row lt. string-on b c row found depth (row_reads row lt);
      }

  column-Compiled :
      (rows_valid : (name : Bytes) (c : AnyColumn)
        → find_column name batch.columns ≡ some c
        → IsValidAny c × (column_size c ≡ n))
      (b : BoundColumnRef) (type : ColumnType) (c : AnyColumn)
      → find_column (column_identity_name b) batch.columns ≡ some c
      → type_of c ≡ type
      → b.outer_depth ≡ 0
      → Compiled subplans run context batch n (record { value = Value.column b; type = type })
  unfolding column_size size
  column-Compiled rows_valid b type (AnyColumn.int64 c) found t depth =
      let (valid, long) = rows_valid (column_identity_name b) (AnyColumn.int64 c) found in
      subst
        (λ u. Compiled subplans run context batch n (record { value = Value.column b; type = u })) t
        (int64-Compiled b c found depth valid long)
  column-Compiled rows_valid b type (AnyColumn.string c) found t depth =
      let (valid, long) = rows_valid (column_identity_name b) (AnyColumn.string c) found in
      subst
        (λ u. Compiled subplans run context batch n (record { value = Value.column b; type = u })) t
        (string-Compiled b c found depth valid long)

  value-Compiled :
      AreValid n batch.columns
      → (type : ColumnType) (value : Value) → ValueFits batch type value
      → Compiled subplans run context batch n (record { value = value; type = type })
  value-Compiled valid type (Value.column b) (depth, stored) =
      let (c, found, t) = stored_column (column_identity_name b) batch type stored in
      column-Compiled (λ name d h. found-valid n name d batch.columns valid h) b type c found t
        depth
  value-Compiled valid type (Value.int_literal v position) h =
      subst
        (λ u.
          Compiled subplans run context batch n
            (record { value = Value.int_literal v position; type = u }))
        (sym h) (int_literal-Compiled subplans run context batch n v position)
  value-Compiled valid type (Value.string_literal v position) h =
      subst
        (λ u.
          Compiled subplans run context batch n
            (record { value = Value.string_literal v position; type = u }))
        (sym h) (string_literal-Compiled subplans run context batch n v position)
  value-Compiled valid type (Value.null_literal position) h =
      null_literal-Compiled subplans run context batch n type position
  value-Compiled valid type (Value.subquery _ _ _) h = absurd h

  -- An expression that fits a valid batch compiles, and its scalar reads what it evaluates to.
  pub scalar-Compiled :
      AreValid n batch.columns
      → (e : BoundScalarExpr) → ScalarFits batch e
      → Compiled subplans run context batch n e
  scalar-Compiled valid e h = value-Compiled valid e.type e.value h
