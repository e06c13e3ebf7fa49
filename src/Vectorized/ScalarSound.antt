-- ===== src/Vectorized/ScalarSound.antt =====
-- src/execution/vectorized.cpp: a compiled scalar reads, on every row of a valid batch, the cell
-- that the interpreter evaluates.
use vectorized_sql_engine.Base.{ℕ, ℤ, Bytes, ◌≡◌, refl, ◌<◌, true, false, Option, ok}
use vectorized_sql_engine.Catalog.{ColumnType, int64, string}
use vectorized_sql_engine.Storage.Batch.{ColumnarBatch, column_type}
use vectorized_sql_engine.Plan.{PlanRef, LogicalPlan, Value, BoundScalarExpr}
use vectorized_sql_engine.Execution.Cell.{Cell, null_cell, int64_cell, string_cell}
use vectorized_sql_engine.Execution.Context.{ExecutionContext, M}
use vectorized_sql_engine.Execution.Scalar.{column_identity_name, evaluate_scalar}
use vectorized_sql_engine.Vectorized.Scalars.{
  CompiledScalar, scalar_has_column, scalar_is_null, scalar_cell,
}
use vectorized_sql_engine.Vectorized.Context.{PreparedContext, compile_scalar, literal_scalar}
use vectorized_sql_engine.Vectorized.RowReads.{ReadableAs, IsReadable}

-- The value is one of the type: a column of the batch, of the current query block, or a literal.
-- Subqueries are not covered.
abbrev pub ValueFits : ColumnarBatch → ColumnType → Value → Type 0
ValueFits batch type (Value.column c) =
    (c.outer_depth ≡ 0) × (column_type (column_identity_name c) batch ≡ ok type)
ValueFits batch type (Value.int_literal v _) = type ≡ int64
ValueFits batch type (Value.string_literal v _) = type ≡ string
ValueFits batch type (Value.null_literal _) = Unit {0}
ValueFits batch type (Value.subquery _ _ _) = ⊥

abbrev pub ScalarFits : ColumnarBatch → BoundScalarExpr → Type 0
ScalarFits batch e = ValueFits batch e.type e.value

module _ (subplans : PlanRef → Option LogicalPlan) (run : LogicalPlan → M ColumnarBatch)
    (context : PreparedContext) (batch : ColumnarBatch) (n : ℕ) where
  -- The compiled scalar can be read, and on each row reads what the interpreter evaluates.
  pub record Compiled (e : BoundScalarExpr) : Type 0 where
    pub scalar : CompiledScalar
    pub compiles : compile_scalar subplans e batch context ≡ ok scalar
    pub typed : scalar.type ≡ e.type
    pub readable : IsReadable n scalar
    pub on :
        (row : ℕ)
        → row < n
        → (v : Cell) × (scalar_is_null scalar row ≡ ok v.is_null)
          × (scalar_cell scalar row ≡ ok v)
          × (v.type ≡ e.type)
          × ((σ : ExecutionContext) → evaluate_scalar subplans run e batch row σ ≡ ok (v, σ))

  pub int_literal-Compiled :
      (v : ℤ) (position : ℕ)
      → Compiled (record { value = Value.int_literal v position; type = int64 })
  unfolding compile_scalar scalar_is_null scalar_cell evaluate_scalar scalar_has_column
  int_literal-Compiled v position = record {
    scalar = record (literal_scalar int64) { literal = v };
    compiles = refl;
    typed = refl;
    readable = record {
      has = refl;
      on = λ row lt. record { null = false; value = v; is_null = refl; read = refl; cell = refl };
    };
    on = λ row lt. (int64_cell v, refl, refl, refl, λ σ. refl);
  }

  pub string_literal-Compiled :
      (v : Bytes) (position : ℕ)
      → Compiled (record { value = Value.string_literal v position; type = string })
  unfolding compile_scalar scalar_is_null scalar_cell evaluate_scalar scalar_has_column
  string_literal-Compiled v position = record {
    scalar = record (literal_scalar string) { string_literal = v };
    compiles = refl;
    typed = refl;
    readable = record {
      has = refl;
      on = λ row lt. record { null = false; value = v; is_null = refl; read = refl; cell = refl };
    };
    on = λ row lt. (string_cell v, refl, refl, refl, λ σ. refl);
  }

  null_literal-readable :
      (type : ColumnType)
      → ReadableAs type n (record (literal_scalar type) { literal_is_null = true })
  unfolding scalar_is_null scalar_cell scalar_has_column
  null_literal-readable int64 = record {
    has = refl;
    on = λ row lt. record { null = true; value = _; is_null = refl; read = refl; cell = refl };
  }
  null_literal-readable string = record {
    has = refl;
    on = λ row lt. record { null = true; value = _; is_null = refl; read = refl; cell = refl };
  }

  pub null_literal-Compiled :
      (type : ColumnType) (position : ℕ)
      → Compiled (record { value = Value.null_literal position; type = type })
  unfolding compile_scalar scalar_is_null scalar_cell evaluate_scalar scalar_has_column
  null_literal-Compiled type position = record {
    scalar = record (literal_scalar type) { literal_is_null = true };
    compiles = refl;
    typed = refl;
    readable = null_literal-readable type;
    on = λ row lt. (null_cell type, refl, refl, refl, λ σ. refl);
  }
