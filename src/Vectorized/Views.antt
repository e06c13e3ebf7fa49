-- ===== src/Vectorized/Views.antt =====
-- src/execution/vectorized.cpp: batch views, and the filter on an executed input. A null pointer is
-- `none`; `owned_batch` only keeps the batch alive.
use vectorized_sql_engine.Base.{
  ℕ, Bool, false, not, Option, none, some, List, [], ◌∷◌, range, Result, ok, throw, Exception, ltb,
  if◌then◌else◌,
}
use vectorized_sql_engine.Storage.Batch.{ColumnarBatch, row_count}
use vectorized_sql_engine.Plan.{PlanRef, LogicalPlan, BoundPredicate}
use vectorized_sql_engine.Vectorized.Scalars.{◌>>=◌, CompiledScalar}
use vectorized_sql_engine.Vectorized.Context.{PreparedContext}
use vectorized_sql_engine.Vectorized.Predicates.{CompiledPredicate, compile_predicates}
use vectorized_sql_engine.Vectorized.Masks.{
  PredicateEvaluationDomain, evaluate_predicates_mask, selection_from_true_mask,
}

pub record BatchView : Type 0 where
  pub batch : Option ColumnarBatch
  pub selection : Option (List ℕ)
  pub selection_rows_match_positions : Bool

-- identity_selection
abbrev pub identity_selection : ℕ → List ℕ
identity_selection row_count = range 0 row_count

-- The loop of validate_view over the selection.
unfoldable pub validate_rows : ColumnarBatch → List ℕ → Result (Unit {0})
unfolding row_count
validate_rows batch [] = ok tt
validate_rows batch (row ∷ rows) = do
  count ← row_count batch
  let rest = validate_rows batch rows in
      if not (ltb row count)
      then throw Exception.logic_error "selection vector row is outside the batch"
      else rest

abbrev validate_parts : Option ColumnarBatch → Option (List ℕ) → Result (ColumnarBatch × List ℕ)
validate_parts none selection =
    throw Exception.logic_error "vectorized batch view is missing a batch"
validate_parts (some batch) none =
    throw Exception.logic_error "vectorized batch view is missing a selection vector"
validate_parts (some batch) (some rows) = do _ ← validate_rows batch rows; ok (batch, rows)

-- validate_view, which gives the batch and the selection that the callers go on to use.
unfoldable pub validate_view : BatchView → Result (ColumnarBatch × List ℕ)
unfolding validate_rows
validate_view view = validate_parts view.batch view.selection

-- The rows of a domain on which compiled conjuncts are TRUE.
abbrev pub selected_rows :
    List (CompiledPredicate CompiledScalar) → PredicateEvaluationDomain → Result (List ℕ)
selected_rows compiled domain = do
  mask ← evaluate_predicates_mask compiled domain
  selection_from_true_mask mask domain

abbrev pub with_selection : BatchView → List ℕ → Result BatchView
with_selection input rows =
    let output = record input { selection = some rows; selection_rows_match_positions = false } in
    do _ ← validate_view output; ok output

abbrev pub domain_of : BatchView → List ℕ → PredicateEvaluationDomain
domain_of input rows = record {
  selection = rows;
  rows_match_positions = input.selection_rows_match_positions;
}

module _ (subplans : PlanRef → Option LogicalPlan) where
  -- execute_filter, on the view of its executed input
  unfoldable pub filter_view : List BoundPredicate → BatchView → PreparedContext → Result BatchView
  unfolding validate_view compile_predicates evaluate_predicates_mask selection_from_true_mask
  filter_view predicates input context = do
    parts ← validate_view input
    compiled ← compile_predicates subplans predicates parts.0 context
    rows ← selected_rows compiled (domain_of input parts.1)
    with_selection input rows
