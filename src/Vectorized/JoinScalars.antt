-- ===== src/Vectorized/JoinScalars.antt =====
-- src/execution/vectorized.cpp: compiled join scalars, compiled join predicates, and the split of a
-- join's predicates into keys and residuals.
use vectorized_sql_engine.Base.{
  ℕ, ℤ, Bytes, Bool, true, false, not, ◌&&◌, Option, none, some, List, [], ◌∷◌, Result, ok, err,
  thrown, Exception, if◌then◌else◌,
}
use vectorized_sql_engine.Catalog.{ColumnType, int64, string}
use vectorized_sql_engine.Storage.Batch.{
  ColumnarBatch, has_column, column, string_column, column_type, row_count,
}
use vectorized_sql_engine.Storage.Column.{is_null, value_at}
use vectorized_sql_engine.Plan.{
  PlanRef, LogicalPlan, BoundColumnRef, Value, BoundScalarExpr, BoundPredicate,
}
use vectorized_sql_engine.Execution.Cell.{null_cell, int64_cell, string_cell}
use vectorized_sql_engine.Execution.Join.{is_equal}
use vectorized_sql_engine.Execution.Scalar.{column_identity_name}
use vectorized_sql_engine.Execution.Truth.{TruthValue}
use vectorized_sql_engine.Vectorized.Cells.{TypedCell}
use vectorized_sql_engine.Vectorized.Scalars.{
  ◌>>=◌, CompiledColumn, CompiledScalar, compile_checked, column_cell, invalid,
}
use vectorized_sql_engine.Vectorized.Context.{
  PreparedContext, prepared_subquery, compile_result, literal_scalar,
}
use vectorized_sql_engine.Vectorized.Predicates.{
  CompiledPredicate, compile_with, compile_all, evaluate_with, evaluate_all,
}

-- CompiledJoinScalar::Source
pub data Source : Type 0 where
  literal left right : Source

pub record CompiledJoinScalar : Type 0 where
  pub source : Source
  pub type : ColumnType
  pub int_values : Option (List ℤ)
  pub string_values : Option (List Bytes)
  pub validity : Option (List ℕ)
  pub literal_value : ℤ
  pub string_literal : Bytes
  pub literal_is_null : Bool

-- CompiledJoinScalar::is_null
unfoldable pub join_is_null : CompiledJoinScalar → ℕ → ℕ → Result Bool
unfolding invalid
join_is_null s left_row right_row = elim s.source [
  | Source.literal ↦ ok s.literal_is_null
  | Source.left ↦ invalid s.validity left_row
  | Source.right ↦ invalid s.validity right_row
]

abbrev literal_cell : CompiledJoinScalar → TypedCell
literal_cell s =
    if s.literal_is_null
    then null_cell s.type
    else elim s.type [ int64 ↦ int64_cell s.literal_value | string ↦ string_cell s.string_literal ]

-- CompiledJoinScalar::cell
unfoldable pub join_cell : CompiledJoinScalar → ℕ → ℕ → Result TypedCell
unfolding column_cell
join_cell s left_row right_row = elim s.source [
  | Source.literal ↦ ok (literal_cell s)
  | Source.left ↦ column_cell s.type s.int_values s.string_values s.validity left_row
  | Source.right ↦ column_cell s.type s.int_values s.string_values s.validity right_row
]

abbrev pub side_scalar : Source → CompiledColumn → CompiledJoinScalar
side_scalar source c = record {
  source = source;
  type = c.type;
  int_values = c.int_values;
  string_values = c.string_values;
  validity = c.validity;
  literal_value = ℤ.pos 0;
  string_literal = [];
  literal_is_null = false;
}

-- The literal fields of a scalar without a column.
abbrev pub literal_join_scalar : CompiledScalar → CompiledJoinScalar
literal_join_scalar s = record {
  source = Source.literal;
  type = s.type;
  int_values = none;
  string_values = none;
  validity = none;
  literal_value = s.literal;
  string_literal = s.string_literal;
  literal_is_null = s.literal_is_null;
}

module _ (subplans : PlanRef → Option LogicalPlan) where
  abbrev pub compile_side :
      ColumnType → Bytes → ColumnarBatch → ColumnarBatch → Result CompiledJoinScalar
  compile_side type name l r =
      if has_column name l
      then (do
        c ←
            compile_checked "bound join scalar type does not match left storage column: " type name
              l
        ok (side_scalar Source.left c))
      else if has_column name r
      then (do
        c ←
            compile_checked "bound join scalar type does not match right storage column: " type name
              r
        ok (side_scalar Source.right c))
      else err (
          thrown Exception.logic_error "bound join column identity is missing from both inputs: "
            name)

  abbrev pub compile_join_value :
      ColumnType
      → Value
      → ColumnarBatch
      → ColumnarBatch
      → PreparedContext
      → Result CompiledJoinScalar
  compile_join_value type (Value.column c) l r context =
      compile_side type (column_identity_name c) l r
  compile_join_value type (Value.int_literal v _) l r context =
      ok (literal_join_scalar (record (literal_scalar type) { literal = v }))
  compile_join_value type (Value.string_literal v _) l r context =
      ok (literal_join_scalar (record (literal_scalar type) { string_literal = v }))
  compile_join_value type (Value.null_literal _) l r context =
      ok (literal_join_scalar (record (literal_scalar type) { literal_is_null = true }))
  compile_join_value type (Value.subquery ref _ name) l r context = do
    result ← prepared_subquery subplans ref context
    rows ← row_count result
    s ←
        compile_result "scalar subquery materialization has the wrong join schema" name type result
          rows
    ok (literal_join_scalar s)

  unfoldable pub compile_join_scalar :
      BoundScalarExpr → ColumnarBatch → ColumnarBatch → PreparedContext → Result CompiledJoinScalar
  unfolding column_identity_name has_column column string_column column_type row_count is_null
      value_at prepared_subquery
  compile_join_scalar e l r context = compile_join_value e.type e.value l r context

  unfoldable pub compile_join_predicate :
      BoundPredicate
      → ColumnarBatch
      → ColumnarBatch
      → PreparedContext
      → Result (CompiledPredicate CompiledJoinScalar)
  unfolding compile_with compile_join_scalar
  compile_join_predicate p l r context =
      compile_with subplans context (λ e. compile_join_scalar e l r context) p

  unfoldable pub compile_join_predicates :
      List BoundPredicate
      → ColumnarBatch
      → ColumnarBatch
      → PreparedContext
      → Result (List (CompiledPredicate CompiledJoinScalar))
  unfolding compile_all compile_join_scalar
  compile_join_predicates ps l r context =
      compile_all subplans context (λ e. compile_join_scalar e l r context) ps

unfoldable pub evaluate_compiled_join_predicate :
    CompiledPredicate CompiledJoinScalar → ℕ → ℕ → Result TruthValue
unfolding evaluate_with join_is_null join_cell
evaluate_compiled_join_predicate p i j =
    evaluate_with (λ s. join_is_null s i j) (λ s. join_cell s i j) p

unfoldable pub evaluate_compiled_join_predicates :
    List (CompiledPredicate CompiledJoinScalar) → ℕ → ℕ → Result TruthValue
unfolding evaluate_all join_is_null join_cell
evaluate_compiled_join_predicates ps i j =
    evaluate_all (λ s. join_is_null s i j) (λ s. join_cell s i j) TruthValue.true ps

pub record EquiJoinKey : Type 0 where
  pub left : BoundColumnRef
  pub right : BoundColumnRef

pub record JoinPredicateSplit : Type 0 where
  pub equi_keys : List EquiJoinKey
  pub residuals : List BoundPredicate

-- The key of an equality of two columns, one of each input only.
abbrev pub key_of_columns :
    BoundColumnRef → BoundColumnRef → (in_left in_right : Bytes → Bool) → Option EquiJoinKey
key_of_columns lhs rhs in_left in_right =
    let l = column_identity_name lhs in
    let r = column_identity_name rhs in
    if in_left l && (in_right r && (not (in_right l) && not (in_left r)))
    then some (record { left = lhs; right = rhs })
    else if in_right l && (in_left r && (not (in_left l) && not (in_right r)))
    then some (record { left = rhs; right = lhs })
    else none

abbrev pub key_of_values : Value → Value → (in_left in_right : Bytes → Bool) → Option EquiJoinKey
key_of_values (Value.column lhs) (Value.column rhs) in_left in_right =
    key_of_columns lhs rhs in_left in_right
key_of_values _ _ in_left in_right = none

-- The key that try_add_equi_key adds, if it adds one.
unfoldable pub try_add_equi_key :
    BoundPredicate → ColumnarBatch → ColumnarBatch → Option EquiJoinKey
unfolding column_identity_name has_column
try_add_equi_key (BoundPredicate.comparison c) l r =
    if not (is_equal c.op)
    then none
    else key_of_values (c.left).value (c.right).value (λ name. has_column name l)
        (λ name. has_column name r)
try_add_equi_key _ l r = none

abbrev pub add_to_split :
    BoundPredicate → Option EquiJoinKey → JoinPredicateSplit → JoinPredicateSplit
add_to_split p none split = record split { residuals = p ∷ split.residuals }
add_to_split p (some key) split = record split { equi_keys = key ∷ split.equi_keys }

-- The loop pushes at the back, from the first predicate on: here the rest is split first.
unfoldable pub split_join_predicates :
    List BoundPredicate → ColumnarBatch → ColumnarBatch → JoinPredicateSplit
unfolding try_add_equi_key
split_join_predicates [] l r = record { equi_keys = []; residuals = [] }
split_join_predicates (p ∷ ps) l r =
    add_to_split p (try_add_equi_key p l r) (split_join_predicates ps l r)
