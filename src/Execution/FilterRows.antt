-- ===== src/Execution/FilterRows.antt =====
-- src/execution/interpreter.cpp: the Filter case of execute_node, with ColumnarBatch::filter.
use vectorized_sql_engine.Base.{
  ℕ, zero, suc, ◌≡◌, refl, ◌∙◌, ap, List, [], ◌∷◌, map, range, length, length-map, ok,
  if◌then◌else◌, and_then,
}
use vectorized_sql_engine.Storage.Batch.{ColumnarBatch, row_count, filter}
use vectorized_sql_engine.Storage.Valid.{IsValidBatch}
use vectorized_sql_engine.Storage.FilterBatch.{view, select_table, kept}
use vectorized_sql_engine.Storage.Contract.{filter-view}
use vectorized_sql_engine.Plan.{PlanRef, LogicalPlan, BoundPredicate}
use vectorized_sql_engine.Execution.Truth.{TruthValue, is_true}
use vectorized_sql_engine.Execution.Context.{ExecutionContext, M, push_each}
use vectorized_sql_engine.Execution.Gives.{Gives, gives, Gives-ok, Evaluates}
use vectorized_sql_engine.Execution.Predicate.{evaluate_predicates, evaluate_filter}
use vectorized_sql_engine.Execution.Node.{filter_batch}
use vectorized_sql_engine.Base.{Option}

length-range : (start count : ℕ) → length (range start count) ≡ count
length-range start zero = refl
length-range start (suc count) = ap suc (length-range (suc start) count)

-- A mask entry: 1 where the conjunction is TRUE.
abbrev pub mask_entry : TruthValue → ℕ
mask_entry t = if is_true t then 1 else 0

module _ (I : ExecutionContext → Type 0) (subplans : PlanRef → Option LogicalPlan)
    (run : LogicalPlan → M ColumnarBatch) (predicates : List BoundPredicate) (batch : ColumnarBatch)
    (truth : ℕ → TruthValue) where
  -- The conjunction has the value `truth row` on each of the rows.
  abbrev pub Truths : List ℕ → Type 0
  Truths [] = Unit
  Truths (row ∷ rows) =
      Evaluates I (evaluate_predicates subplans run predicates batch row) (truth row) × Truths rows

  abbrev entries : List ℕ → List ℕ
  entries rows = map (λ row. mask_entry (truth row)) rows

  mask-rows :
      (rows : List ℕ) (σ : ExecutionContext)
      → Truths rows
      → I σ
      → Gives I
          (push_each
            (λ row σ'.
              and_then
                (evaluate_predicates subplans run predicates batch row σ')
                (λ r. ok ((if is_true r.0 then 1 else 0), r.1)))
            rows
            σ)
          (ok (entries rows))
  unfolding push_each
  mask-rows [] σ t iσ = gives [] σ iσ
  mask-rows (row ∷ rows) σ (t, ts) iσ =
      let (σ', runs, iσ') = Gives-ok (t σ iσ) in
      let (σ'', runs', iσ'') = Gives-ok (mask-rows rows σ' ts iσ') in
      rw runs (rw runs' (gives (entries (row ∷ rows)) σ'' iσ''))

  evaluate_filter-mask :
      (rows : ℕ) (σ : ExecutionContext)
      → row_count batch ≡ ok rows
      → Truths (range 0 rows)
      → I σ
      → Gives I (evaluate_filter subplans run predicates batch σ) (ok (entries (range 0 rows)))
  unfolding evaluate_filter
  evaluate_filter-mask rows σ counted truths iσ = rw counted (mask-rows (range 0 rows) σ truths iσ)

  -- A Filter node on a valid input of `rows` rows: if, in every context with the property `I`, its
  -- conjunction has on each row one truth value and leaves a context with `I` (evaluating a subquery
  -- may fill the cache), then from a context with `I` it keeps exactly the rows at which the
  -- conjunction is TRUE, neither FALSE nor UNKNOWN, in the order of the input and in every column,
  -- and gives a valid batch, in a context with `I`.
  pub filter_batch-view :
      (rows : ℕ) (σ : ExecutionContext)
      → IsValidBatch rows batch
      → Truths (range 0 rows)
      → I σ
      → (out : ColumnarBatch) × (σ' : ExecutionContext) × (filter_batch subplans run predicates
            batch σ
          ≡ ok (out, σ'))
        × I σ'
        × IsValidBatch (kept (map (λ row. mask_entry (truth row)) (range 0 rows))) out
        × (view out
            ≡ select_table (map (λ row. mask_entry (truth row)) (range 0 rows)) (view batch))
  unfolding filter_batch
  filter_batch-view rows σ valid truths iσ =
      let mask = entries (range 0 rows) in
      let (out, runs, fits, e) =
        filter-view rows mask batch valid
          (length-map (λ row. mask_entry (truth row)) (range 0 rows) ∙ length-range 0 rows) in
      let (σ', filled, iσ') = Gives-ok (evaluate_filter-mask rows σ valid.counted truths iσ) in
      (
        out,
        σ',
        ap (λ r. and_then r (λ q. and_then (filter q.0 batch) (λ b. ok (b, q.1)))) filled
            ∙ ap (λ r. and_then r (λ b. ok (b, σ'))) runs,
        iσ',
        fits,
        e,
      )
