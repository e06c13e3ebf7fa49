-- ===== src/Vectorized/JoinSides.antt =====
-- src/execution/vectorized.cpp: a column that compile_join_scalar finds in one of the two inputs,
-- against the same column as compile_column finds it.
use vectorized_sql_engine.Base.{
  ℕ, ◌≡◌, refl, ap, sym, ◌∙◌, Bool, true, false, not, Option, Result, ok, err, thrown, Exception,
  String, Bytes, and_then, and_then-eq-ok, arith, if◌then◌else◌,
}
use vectorized_sql_engine.Catalog.{ColumnType}
use vectorized_sql_engine.Storage.Batch.{ColumnarBatch, has_column, column_type}
use vectorized_sql_engine.Plan.{PlanRef, LogicalPlan, BoundColumnRef, Value, BoundScalarExpr}
use vectorized_sql_engine.Execution.Cell.{type_eq}
use vectorized_sql_engine.Execution.Scalar.{column_identity_name}
use vectorized_sql_engine.Vectorized.Scalars.{
  CompiledColumn, compiled_cell, compile_checked, compile_column, compile_typed,
}
use vectorized_sql_engine.Vectorized.Context.{PreparedContext}
use vectorized_sql_engine.Vectorized.EqualCells.{ok_value}
use vectorized_sql_engine.Vectorized.JoinScalars.{
  CompiledJoinScalar, Source, compile_join_scalar, join_cell, side_scalar, compile_join_value,
}

type_eq→eq : (a b : ColumnType) → type_eq a b ≡ true → a ≡ b
type_eq→eq a b h = ground arith

-- What a checked column is made of.
checked_parts :
    (m : String) (t : ColumnType) (name : Bytes) (batch : ColumnarBatch) (x : CompiledColumn)
    → compile_checked m t name batch ≡ ok x
    → (s : ColumnType) × (column_type name batch ≡ ok s)
      × (s ≡ t)
      × (compile_typed t name batch ≡ ok x)
checked_parts m t name batch x h =
    let (s, stored, h') = and_then-eq-ok (column_type name batch) _ h in
    let (same, typed) = passed s (type_eq s t) refl h' in (s, stored, same, typed)
  where
    passed :
        (s : ColumnType) (b : Bool)
        → type_eq s t ≡ b
        → (if not b then err (thrown Exception.logic_error m name) else compile_typed t name batch)
          ≡ ok x
        → (s ≡ t) × (compile_typed t name batch ≡ ok x)
    passed s true e h = (type_eq→eq s t e, h)
    passed s false e h = absurd (cc h)

-- A checked column does not depend on the message, or on the type it is asked for.
checked_unique :
    (m n : String) (t u : ColumnType) (name : Bytes) (batch : ColumnarBatch) (x y : CompiledColumn)
    → compile_checked m t name batch ≡ ok x
    → compile_checked n u name batch ≡ ok y
    → x ≡ y
checked_unique m n t u name batch x y h k =
    let (s, stored, same, typed) = checked_parts m t name batch x h in
    let (s', stored', same', typed') = checked_parts n u name batch y k in
    let e = ok_value s s' (sym stored ∙ stored') in
    ok_value x y (sym typed ∙ ap (λ v. compile_typed v name batch) (sym same ∙ e ∙ same') ∙ typed')

abbrev left_message : String
left_message = "bound join scalar type does not match left storage column: "

abbrev right_message : String
right_message = "bound join scalar type does not match right storage column: "

-- The side of an if that is taken, where it has a value.
side_of :
    (b : Bool) (source : Source) (m : Result CompiledColumn) (n : Result CompiledJoinScalar)
    (s : CompiledJoinScalar)
    → b ≡ true
    → (if b then and_then m (λ c. ok (side_scalar source c)) else n) ≡ ok s
    → (y : CompiledColumn) × (m ≡ ok y) × (side_scalar source y ≡ s)
side_of true source m n s e h = let (y, f, h') = and_then-eq-ok m _ h in (y, f, ok_value _ _ h')
side_of false source m n s e h = absurd (cc e)

other_side :
    {A : Type 0} (b : Bool) (m n : Result A) (s : A)
    → b ≡ false
    → (if b then m else n) ≡ ok s
    → n ≡ ok s
other_side true m n s e h = absurd (cc e)
other_side false m n s e h = h

module _ (subplans : PlanRef → Option LogicalPlan) (context : PreparedContext) (l r : ColumnarBatch)
    (i j : ℕ) where
  -- The cell that a compiled column of the left or of the right input has on the pair.
  pub left_cell :
      (e : BoundScalarExpr) (c : BoundColumnRef) (s : CompiledJoinScalar) (x : CompiledColumn)
      → e.value ≡ Value.column c
      → has_column (column_identity_name c) l ≡ true
      → compile_join_scalar subplans e l r context ≡ ok s
      → compile_column c l ≡ ok x
      → join_cell s i j ≡ compiled_cell x i
  unfolding compile_join_scalar compile_column join_cell compiled_cell
  left_cell e c s x v inside h k =
      let h' = sym (ap (λ v. compile_join_value subplans e.type v l r context) v) ∙ h in
      let (y, f, same) =
        side_of (has_column (column_identity_name c) l) Source.left
          (compile_checked left_message e.type (column_identity_name c) l) _ s inside h' in
      sym (ap (λ s. join_cell s i j) same)
      ∙ ap (λ y. compiled_cell y i)
          (checked_unique left_message "bound column type does not match storage column: " e.type
            c.type (column_identity_name c) l y x f k)

  pub right_cell :
      (e : BoundScalarExpr) (c : BoundColumnRef) (s : CompiledJoinScalar) (x : CompiledColumn)
      → e.value ≡ Value.column c
      → has_column (column_identity_name c) l ≡ false
      → has_column (column_identity_name c) r ≡ true
      → compile_join_scalar subplans e l r context ≡ ok s
      → compile_column c r ≡ ok x
      → join_cell s i j ≡ compiled_cell x j
  unfolding compile_join_scalar compile_column join_cell compiled_cell
  right_cell e c s x v outside inside h k =
      let h' =
        other_side (has_column (column_identity_name c) l) _ _ s outside
          (sym (ap (λ v. compile_join_value subplans e.type v l r context) v) ∙ h) in
      let (y, f, same) =
        side_of (has_column (column_identity_name c) r) Source.right
          (compile_checked right_message e.type (column_identity_name c) r) _ s inside h' in
      sym (ap (λ s. join_cell s i j) same)
      ∙ ap (λ y. compiled_cell y j)
          (checked_unique right_message "bound column type does not match storage column: " e.type
            c.type (column_identity_name c) r y x f k)
