-- ===== src/Execution/Join.antt =====
-- The nested loops of execute_join.
use vectorized_sql_engine.Base.{
  ℕ, Bytes, Bool, true, false, not, ◌&&◌, Option, none, some, List, [], ◌∷◌, range, Result, ok,
  throw, Exception, and_then, if◌then◌else◌,
}
use vectorized_sql_engine.Sql.Ast.{ComparisonOp, equal}
use vectorized_sql_engine.Storage.Batch.{ColumnarBatch, empty_batch, row_count, column_type}
use vectorized_sql_engine.Plan.{
  PlanRef, LogicalPlan, BoundPredicate, comparison, JoinKind, inner, left, semi, anti,
  null_aware_anti,
}
use vectorized_sql_engine.Execution.Cell.{
  Cell, null_cell, OutputColumn, output_column, append_cell, add_to, type_eq,
}
use vectorized_sql_engine.Execution.Truth.{TruthValue, is_true, is_false}
use vectorized_sql_engine.Execution.Context.{M, ◌>>=◌, pure, lift}
use vectorized_sql_engine.Execution.Scalar.{cell_at}
use vectorized_sql_engine.Execution.Predicate.{evaluate_join_predicate, evaluate_join_predicates}

abbrev pub emits_right_columns : JoinKind → Bool
emits_right_columns inner = true
emits_right_columns left = true
emits_right_columns _ = false

abbrev pub is_equal : ComparisonOp → Bool
is_equal equal = true
is_equal _ = false

abbrev check_membership : BoundPredicate → Result (Unit {0})
check_membership (comparison c) =
    if not (is_equal c.op)
    then throw Exception.invalid_argument "NullAwareAnti membership predicate must be an equality"
    else if not (type_eq (c.left).type (c.right).type)
    then throw Exception.invalid_argument
        "NullAwareAnti membership equality must have matching types"
    else ok tt
check_membership _ =
    throw Exception.invalid_argument "NullAwareAnti membership predicate must be an equality"

-- The checks at the start of execute_join.
unfoldable pub check_join : JoinKind → Option BoundPredicate → Result (Unit {0})
check_join null_aware_anti none =
    throw Exception.invalid_argument "NullAwareAnti join is missing its membership equality"
check_join null_aware_anti (some membership) = check_membership membership
check_join _ none = ok tt
check_join _ (some _) =
    throw Exception.invalid_argument "non-NullAwareAnti join owns a membership equality"

-- What a match does: for SEMI and ANTI it ends the scan of the right rows.
abbrev pub on_match {ℓ} : {A : Type ℓ} → JoinKind → A → A → A → A
on_match semi for_semi for_anti otherwise = for_semi
on_match anti for_semi for_anti otherwise = for_anti
on_match _ for_semi for_anti otherwise = otherwise

-- Whether a left row with no match is emitted.
abbrev pub emits_unmatched : JoinKind → Bool
emits_unmatched left = true
emits_unmatched anti = true
emits_unmatched _ = false

-- The loops over the row pairs. `candidate` evaluates the join predicates, `membership` the
-- membership equality, and `emit` is append_output_row on the output so far.
module _ {S : Type 0} (candidate membership : ℕ → ℕ → M TruthValue)
    (emit : ℕ → Option ℕ → S → M S) where
  -- The right rows against one left row: whether one matched, and the output.
  unfoldable pub scan_right : JoinKind → ℕ → Bool → S → List ℕ → M (Bool × S)
  scan_right kind left_row matched out [] = pure (matched, out)
  scan_right kind left_row matched out (right_row ∷ rows) =
      let skip = scan_right kind left_row matched out rows in
      let pair =
        emit left_row (some right_row) out >>= λ out'. scan_right kind left_row true out' rows in
      candidate left_row right_row >>= λ keep.
      if not (is_true keep)
      then skip
      else on_match kind (emit left_row none out >>= λ out'. pure (true, out')) (pure (true, out))
          pair

  unfoldable pub join_rows : JoinKind → List ℕ → List ℕ → S → M S
  unfolding scan_right
  join_rows kind [] right_rows out = pure out
  join_rows kind (left_row ∷ left_rows) right_rows out =
      scan_right kind left_row false out right_rows >>= λ scanned.
      (if not scanned.0 && emits_unmatched kind
        then emit left_row none scanned.1
        else pure scanned.1)
      >>= λ out'. join_rows kind left_rows right_rows out'

  -- Whether a candidate right row suppresses the left row.
  unfoldable pub is_suppressed : ℕ → List ℕ → M Bool
  is_suppressed left_row [] = pure false
  is_suppressed left_row (right_row ∷ rows) =
      let next = is_suppressed left_row rows in
      candidate left_row right_row >>= λ keep.
      if not (is_true keep)
      then next
      else membership left_row right_row >>= λ t. if not (is_false t) then pure true else next

  unfoldable pub null_aware_rows : List ℕ → List ℕ → S → M S
  unfolding is_suppressed
  null_aware_rows [] right_rows out = pure out
  null_aware_rows (left_row ∷ left_rows) right_rows out =
      is_suppressed left_row right_rows >>= λ suppressed.
      (if suppressed then pure out else emit left_row none out) >>= λ out'.
      null_aware_rows left_rows right_rows out'

-- The output columns that stand for the left and for the right input.
pub record JoinOutput : Type 0 where
  pub left_columns : List OutputColumn
  pub right_columns : List OutputColumn

unfoldable pub append_side :
    (Bytes → Result Cell) → List Bytes → List OutputColumn → Result (List OutputColumn)
unfolding append_cell
append_side cell (name ∷ names) (column ∷ columns) =
    and_then (cell name) λ value.
      and_then (append_side cell names columns) λ rest. ok (append_cell value column ∷ rest)
append_side cell _ columns = ok columns

abbrev right_cell : ColumnarBatch → Option ℕ → Bytes → Result Cell
right_cell right (some row) name = cell_at right name row
right_cell right none name = and_then (column_type name right) λ type. ok (null_cell type)

unfoldable pub append_output_row :
    JoinKind → ColumnarBatch → ColumnarBatch → ℕ → Option ℕ → JoinOutput → Result JoinOutput
unfolding append_side cell_at column_type
append_output_row kind l r left_row right_row out =
    and_then (append_side (λ name. cell_at l name left_row) l.column_names out.left_columns) λ ls.
      and_then
        (if emits_right_columns kind
          then append_side (right_cell r right_row) r.column_names out.right_columns
          else ok out.right_columns)
        λ rs. ok (record { left_columns = ls; right_columns = rs })

unfoldable pub start_columns : ColumnarBatch → List Bytes → Result (List OutputColumn)
unfolding column_type
start_columns batch [] = ok []
start_columns batch (name ∷ names) =
    and_then (column_type name batch)
      λ type. and_then (start_columns batch names) λ rest. ok (output_column type ∷ rest)

unfoldable pub add_all : List Bytes → List OutputColumn → ColumnarBatch → Result ColumnarBatch
add_all (name ∷ names) (column ∷ columns) out =
    and_then (add_to out name column) λ out'. add_all names columns out'
add_all _ _ out = ok out

module _ (subplans : PlanRef → Option LogicalPlan) (run : LogicalPlan → M ColumnarBatch) where
  abbrev pub membership_truth :
      Option BoundPredicate → ColumnarBatch → ColumnarBatch → ℕ → ℕ → M TruthValue
  membership_truth none l r left_row right_row = pure TruthValue.unknown
  membership_truth (some p) l r left_row right_row =
      evaluate_join_predicate subplans run p l left_row r right_row

  abbrev pub row_pairs :
      JoinKind
      → (ℕ → ℕ → M TruthValue)
      → (ℕ → ℕ → M TruthValue)
      → (ℕ → Option ℕ → JoinOutput → M JoinOutput)
      → List ℕ
      → List ℕ
      → JoinOutput
      → M JoinOutput
  row_pairs null_aware_anti candidate membership emit = null_aware_rows candidate membership emit
  row_pairs kind candidate membership emit = join_rows candidate membership emit kind

  -- execute_join after its checks, on the executed inputs
  unfoldable pub join_batches :
      JoinKind
      → List BoundPredicate
      → Option BoundPredicate
      → ColumnarBatch
      → ColumnarBatch
      → M ColumnarBatch
  unfolding null_aware_rows join_rows append_output_row start_columns add_all row_count
      evaluate_join_predicates evaluate_join_predicate
  join_batches kind predicates membership l r =
      lift (start_columns l l.column_names) >>= λ left_columns.
      lift (if emits_right_columns kind then start_columns r r.column_names else ok [])
      >>= λ right_columns. lift (row_count l) >>= λ left_count.
          lift (row_count r) >>= λ right_count.
          row_pairs kind (λ i j. evaluate_join_predicates subplans run predicates l i r j)
            (membership_truth membership l r) (λ i j out. lift (append_output_row kind l r i j out))
            (range 0 left_count) (range 0 right_count)
            (record { left_columns = left_columns; right_columns = right_columns })
          >>= λ out. lift (add_all l.column_names out.left_columns empty_batch) >>= λ added. lift (
              if emits_right_columns kind
              then add_all r.column_names out.right_columns added
              else ok added)
