-- ===== src/Vectorized/KeySound.antt =====
-- src/execution/vectorized.cpp: the key that try_add_equi_key takes from an equality of columns,
-- against the compiled predicate of the equality.
use vectorized_sql_engine.Base.{
  ℕ, ◌≡◌, refl, ap, ap₂, sym, ◌∙◌, Bool, true, false, not, Option, none, some, ok, Bytes,
  and_then-eq-ok, arith, if◌then◌else◌, inl, inr, ◌⊎◌,
}
use vectorized_sql_engine.Sql.Ast.{ComparisonOp, equal}
use vectorized_sql_engine.Storage.Batch.{ColumnarBatch, has_column}
use vectorized_sql_engine.Plan.{
  PlanRef, LogicalPlan, BoundColumnRef, Value, BoundComparisonExpr, BoundPredicate,
}
use vectorized_sql_engine.Execution.Cell.{Cell}
use vectorized_sql_engine.Execution.Scalar.{column_identity_name}
use vectorized_sql_engine.Execution.Truth.{TruthValue, is_true}
use vectorized_sql_engine.Execution.Join.{is_equal}
use vectorized_sql_engine.Vectorized.Scalars.{CompiledColumn, compiled_cell, compile_column}
use vectorized_sql_engine.Vectorized.Context.{PreparedContext}
use vectorized_sql_engine.Vectorized.Predicates.{
  CompiledPredicate, evaluate_with, evaluate_comparison, compile_with, compile_comparison,
}
use vectorized_sql_engine.Vectorized.EqualCells.{
  ok_value, equal_cells, equal_truth, equal_cells_comm,
}
use vectorized_sql_engine.Vectorized.JoinScalars.{
  CompiledJoinScalar, EquiJoinKey, try_add_equi_key, compile_join_predicate, compile_join_scalar,
  evaluate_compiled_join_predicate, join_cell, key_of_columns, key_of_values,
}
use vectorized_sql_engine.Vectorized.JoinSides.{left_cell, right_cell}

values_of_key :
    (l r : Value) (f g : Bytes → Bool) (key : EquiJoinKey)
    → key_of_values l r f g ≡ some key
    → (a b : BoundColumnRef) × (l ≡ Value.column a)
      × (r ≡ Value.column b)
      × (key_of_columns a b f g ≡ some key)
values_of_key (Value.column a) (Value.column b) f g key h = (a, b, refl, refl, h)
values_of_key l r f g key h = absurd (cc h)

columns_of_key :
    (a b : BoundColumnRef) (f g : Bytes → Bool) (key : EquiJoinKey)
    → key_of_columns a b f g ≡ some key
    → ((f (column_identity_name a) ≡ true)
        × (f (column_identity_name b) ≡ false)
        × (g (column_identity_name b) ≡ true)
        × (key.left ≡ a)
        × (key.right ≡ b))
      ⊎ ((f (column_identity_name a) ≡ false)
          × (f (column_identity_name b) ≡ true)
          × (g (column_identity_name a) ≡ true)
          × (key.left ≡ b)
          × (key.right ≡ a))
columns_of_key a b f g key h = ground arith

module _ (subplans : PlanRef → Option LogicalPlan) (context : PreparedContext) (l r : ColumnarBatch)
    (i j : ℕ) where
  comparison_value :
      (op : ComparisonOp) (sl sr : CompiledJoinScalar) (a b : Cell) (t : TruthValue)
      → op ≡ equal
      → join_cell sl i j ≡ ok a
      → join_cell sr i j ≡ ok b
      → evaluate_compiled_join_predicate
          (CompiledPredicate.comparison (record { left = sl; op = op; right = sr }))
          i
          j
        ≡ ok t
      → is_true t ≡ equal_cells a b
  unfolding evaluate_compiled_join_predicate evaluate_with evaluate_comparison
  comparison_value op sl sr a b t same f g h =
      let (a', f', h') = and_then-eq-ok (join_cell sl i j) _ h in
      let (b', g', k) = and_then-eq-ok (join_cell sr i j) _ h' in
      equal_truth op a' b' t same k
      ∙ ap₂ equal_cells (ok_value a' a (sym f' ∙ f)) (ok_value b' b (sym g' ∙ g))

  -- The scalars of a compiled comparison.
  comparison_parts :
      (q : BoundComparisonExpr) (c : CompiledPredicate CompiledJoinScalar)
      → compile_join_predicate subplans (BoundPredicate.comparison q) l r context ≡ ok c
      → (sl : CompiledJoinScalar) × (sr : CompiledJoinScalar) × (compile_join_scalar subplans q.left
            l r context
          ≡ ok sl)
        × (compile_join_scalar subplans q.right l r context ≡ ok sr)
        × (CompiledPredicate.comparison (record { left = sl; op = q.op; right = sr }) ≡ c)
  unfolding compile_join_predicate compile_with
  comparison_parts q c h =
      let (d, f, same) =
        and_then-eq-ok
          (compile_comparison subplans context (λ e. compile_join_scalar subplans e l r context) q)
          (λ d. ok (CompiledPredicate.comparison d)) h in
      let (sl, g, f') = and_then-eq-ok (compile_join_scalar subplans q.left l r context) _ f in
      let (sr, k, f'') =
        and_then-eq-ok (compile_join_scalar subplans q.right l r context)
          (λ sr. ok (record { left = sl; op = q.op; right = sr })) f' in
      (sl, sr, g, k, ap CompiledPredicate.comparison (ok_value _ _ f'') ∙ ok_value _ _ same)

  -- The comparison that a key is taken from.
  key_comparison :
      (q : BoundComparisonExpr) (key : EquiJoinKey)
      → try_add_equi_key (BoundPredicate.comparison q) l r ≡ some key
      → (q.op ≡ equal)
        × (key_of_values
              (q.left).value
              (q.right).value
              (λ name. has_column name l)
              (λ name. has_column name r)
            ≡ some key)
  unfolding try_add_equi_key
  key_comparison q key h = by_op q.op h
    where
      by_op :
          (op : ComparisonOp) {m : Option EquiJoinKey}
          → (if not (is_equal op) then none else m) ≡ some key
          → (op ≡ equal) × (m ≡ some key)
      by_op equal h = (refl, h)
      by_op op h = absurd (cc h)

  -- The predicate that a key is taken from is TRUE exactly if the key's cells are equal.
  comparison-key :
      (q : BoundComparisonExpr) (c : CompiledPredicate CompiledJoinScalar) (key : EquiJoinKey)
      (x y : CompiledColumn) (a b : Cell) (t : TruthValue)
      → try_add_equi_key (BoundPredicate.comparison q) l r ≡ some key
      → compile_join_predicate subplans (BoundPredicate.comparison q) l r context ≡ ok c
      → compile_column key.left l ≡ ok x
      → compile_column key.right r ≡ ok y
      → compiled_cell x i ≡ ok a
      → compiled_cell y j ≡ ok b
      → evaluate_compiled_join_predicate c i j ≡ ok t
      → is_true t ≡ equal_cells a b
  comparison-key q c key x y a b t h compiled cx cy ca cb e =
      let (same, values) = key_comparison q key h in
      let (lhs, rhs, lv, rv, columns) =
        values_of_key (q.left).value (q.right).value (λ name. has_column name l)
          (λ name. has_column name r) key values in
      let (sl, sr, f, g, c_eq) = comparison_parts q c compiled in
      let e' = ap (λ p. evaluate_compiled_join_predicate p i j) c_eq ∙ e in
      elim (columns_of_key lhs rhs (λ name. has_column name l) (λ name. has_column name r) key
        columns) [
          | inl (l_in, r_out, r_in, kl, kr) ↦
              comparison_value q.op sl sr a b t same
                (left_cell subplans context l r i j q.left lhs sl x lv l_in f
                    (ap (λ k. compile_column k l) (sym kl) ∙ cx)
                  ∙ ca)
                (right_cell subplans context l r i j q.right rhs sr y rv r_out r_in g
                    (ap (λ k. compile_column k r) (sym kr) ∙ cy)
                  ∙ cb)
                e'
          | inr (l_out, r_in, l_right, kl, kr) ↦
              comparison_value q.op sl sr b a t same
                (right_cell subplans context l r i j q.left lhs sl y lv l_out l_right f
                    (ap (λ k. compile_column k r) (sym kr) ∙ cy)
                  ∙ cb)
                (left_cell subplans context l r i j q.right rhs sr x rv r_in g
                    (ap (λ k. compile_column k l) (sym kl) ∙ cx)
                  ∙ ca)
                e'
              ∙ equal_cells_comm b a
        ]

  pub predicate-key :
      (p : BoundPredicate) (c : CompiledPredicate CompiledJoinScalar) (key : EquiJoinKey)
      (x y : CompiledColumn) (a b : Cell) (t : TruthValue)
      → try_add_equi_key p l r ≡ some key
      → compile_join_predicate subplans p l r context ≡ ok c
      → compile_column key.left l ≡ ok x
      → compile_column key.right r ≡ ok y
      → compiled_cell x i ≡ ok a
      → compiled_cell y j ≡ ok b
      → evaluate_compiled_join_predicate c i j ≡ ok t
      → is_true t ≡ equal_cells a b
  unfolding try_add_equi_key
  predicate-key (BoundPredicate.comparison q) c key x y a b t h compiled cx cy ca cb e =
      comparison-key q c key x y a b t h compiled cx cy ca cb e
  predicate-key p c key x y a b t h compiled cx cy ca cb e = absurd (cc h)
