-- ===== src/Vectorized/FilterSound.antt =====
-- src/execution/vectorized.cpp: the vectorized filter against the interpreter's conjunction.
use vectorized_sql_engine.Base.{
  ℕ, ◌≡◌, refl, ap, ap₂, sym, subst, ◌∙◌, ◌<◌, Bool, true, false, Option, some, List, [], ◌∷◌,
  range, length, ok, and_then, if◌then◌else◌, lt→ltb,
}
use vectorized_sql_engine.Storage.Batch.{ColumnarBatch, row_count}
use vectorized_sql_engine.Storage.Valid.{AreValid}
use vectorized_sql_engine.Plan.{PlanRef, LogicalPlan, BoundPredicate}
use vectorized_sql_engine.Execution.Truth.{TruthValue, and_truth, is_true}
use vectorized_sql_engine.Execution.Context.{ExecutionContext, M, ◌>>=◌, pure, for_each}
use vectorized_sql_engine.Execution.JoinSpec.{keep_if}
use vectorized_sql_engine.Execution.Predicate.{
  evaluate_predicate, evaluate_predicates, predicates_with,
}
use vectorized_sql_engine.Vectorized.Scalars.{CompiledScalar, scalar_is_null, scalar_cell}
use vectorized_sql_engine.Vectorized.Context.{PreparedContext}
use vectorized_sql_engine.Vectorized.Predicates.{
  CompiledPredicate, compile_predicate, compile_predicates, compile_all, evaluate_all,
}
use vectorized_sql_engine.Vectorized.MaskOf.{AllBelow}
use vectorized_sql_engine.Vectorized.Selections.{
  AllRead, conjunction_on, value_of, selection_from_true_mask-keep,
}
use vectorized_sql_engine.Vectorized.PredicateSound.{AllFit, predicate-CompiledAs}
use vectorized_sql_engine.Vectorized.Views.{
  BatchView, validate_rows, validate_view, filter_view, selected_rows, with_selection, domain_of,
}

-- The view shows rows of the batch, and if its flag is set, the rows 0, 1, … of its positions.
abbrev pub IsView : ℕ → ColumnarBatch → List ℕ → Bool → Type 0
IsView n batch rows match = AllBelow n rows × (match ≡ true → rows ≡ range 0 (length rows))

validate_rows-ok :
    (n : ℕ) (batch : ColumnarBatch) (rows : List ℕ)
    → row_count batch ≡ ok n
    → AllBelow n rows
    → validate_rows batch rows ≡ ok tt
unfolding validate_rows
validate_rows-ok n batch [] counted below = refl
validate_rows-ok n batch (row ∷ rows) counted (lt, below) =
    rw counted (rw (lt→ltb row n lt) (validate_rows-ok n batch rows counted below))

valid_view :
    (n : ℕ) (batch : ColumnarBatch) (rows : List ℕ) (match : Bool)
    → row_count batch ≡ ok n
    → AllBelow n rows
    → validate_view (record {
      batch = some batch;
      selection = some rows;
      selection_rows_match_positions = match;
    })
      ≡ ok (batch, rows)
unfolding validate_view
valid_view n batch rows match counted below =
    ap (λ m. and_then m (λ _. ok (batch, rows))) (validate_rows-ok n batch rows counted below)

domain_rows-positions :
    (match : Bool) (rows : List ℕ)
    → (match ≡ true → rows ≡ range 0 (length rows))
    → (if match then range 0 (length rows) else rows) ≡ rows
domain_rows-positions true rows h = sym (h refl)
domain_rows-positions false rows h = refl

keep_if-AllBelow :
    (n : ℕ) (p : ℕ → Bool) (rows : List ℕ) → AllBelow n rows → AllBelow n (keep_if p rows)
keep_if-AllBelow n p [] below = tt
keep_if-AllBelow n p (row ∷ rows) (lt, below) = kept (p row) (lt, keep_if-AllBelow n p rows below)
  where
    kept :
        (b : Bool)
        → (row < n) × AllBelow n (keep_if p rows)
        → AllBelow n (if b then row ∷ keep_if p rows else keep_if p rows)
    kept true h = h
    kept false h = h.1

keep_if-cong :
    (n : ℕ) (p q : ℕ → Bool) (rows : List ℕ)
    → ((row : ℕ) → row < n → p row ≡ q row)
    → AllBelow n rows
    → keep_if p rows ≡ keep_if q rows
keep_if-cong n p q [] h below = refl
keep_if-cong n p q (row ∷ rows) h (lt, below) =
    ap₂ (λ b rest. if b then row ∷ rest else rest) (h row lt) (keep_if-cong n p q rows h below)

module _ (subplans : PlanRef → Option LogicalPlan) (run : LogicalPlan → M ColumnarBatch)
    (context : PreparedContext) (batch : ColumnarBatch) (n : ℕ)
    (valid : AreValid n batch.columns) where
  record AllCompiled (ps : List BoundPredicate) : Type 0 where
    compiled : List (CompiledPredicate CompiledScalar)
    compiles : compile_predicates subplans ps batch context ≡ ok compiled
    reads : AllRead n compiled
    on :
        (row : ℕ) (keep : TruthValue)
        → row < n
        → (t : TruthValue) × (evaluate_all
              (λ s. scalar_is_null s row)
              (λ s. scalar_cell s row)
              keep
              compiled
            ≡ ok t)
          × ((σ : ExecutionContext)
              → for_each
                  (λ k p. evaluate_predicate subplans run p batch row >>= λ u. pure (and_truth k u))
                  keep
                  ps
                  σ
                ≡ ok (t, σ))

  all-Compiled : (ps : List BoundPredicate) → AllFit batch ps → AllCompiled ps
  unfolding compile_predicates compile_predicate compile_all evaluate_all for_each
  all-Compiled [] h = record {
    compiled = [];
    compiles = refl;
    reads = tt;
    on = λ row keep lt. (keep, refl, λ σ. refl);
  }
  all-Compiled (p ∷ ps) (h, hs) =
      let c = predicate-CompiledAs subplans run context batch n valid p h in
      let cs = all-Compiled ps hs in
      record {
        compiled = c.compiled ∷ cs.compiled;
        compiles =
            ap
              (λ m.
                and_then m (λ x.
                  and_then (compile_predicates subplans ps batch context) (λ xs. ok (x ∷ xs))))
              c.compiles
            ∙ ap (λ m. and_then m (λ xs. ok (c.compiled ∷ xs))) cs.compiles;
        reads = (c.reads, cs.reads);
        on = λ row keep lt.
            let (t, e, i) = c.on row lt in
            let (u, f, j) = cs.on row (and_truth keep t) lt in (u, rw e f, λ σ. rw (i σ) (j σ));
      }

  module _ (ps : List BoundPredicate) (fit : AllFit batch ps) (σ : ExecutionContext)
      (truth : ℕ → TruthValue)
      (evaluates : (row : ℕ)
        → row < n
        → evaluate_predicates subplans run ps batch row σ ≡ ok (truth row, σ)) where
    truth-agrees :
        (row : ℕ)
        → row < n
        → is_true (value_of (conjunction_on (all-Compiled ps fit).compiled row))
          ≡ is_true (truth row)
    unfolding evaluate_predicates predicates_with evaluate_predicate
    truth-agrees row lt =
        let (t, e, i) = (all-Compiled ps fit).on row TruthValue.true lt in
        let same : ok (t, σ) ≡ ok (truth row, σ) = sym (i σ) ∙ evaluates row lt in
        ap (λ r. is_true (value_of r)) e ∙ ap is_true (cc same)

    -- For a view of rows of a valid batch, and conjuncts without subqueries that fit the batch and
    -- that the interpreter evaluates to `truth row` on each row: the vectorized filter succeeds, keeps
    -- the batch, and selects exactly the view's rows on which the interpreter's conjunction is TRUE,
    -- in the view's order.
    pub filter_view-keep :
        (rows : List ℕ) (match : Bool)
        → row_count batch ≡ ok n
        → IsView n batch rows match
        → filter_view subplans ps
            (record {
              batch = some batch;
              selection = some rows;
              selection_rows_match_positions = match;
            })
            context
          ≡ ok (record {
            batch = some batch;
            selection = some (keep_if (λ row. is_true (truth row)) rows);
            selection_rows_match_positions = false;
          })
    unfolding filter_view
    filter_view-keep rows match counted (below, positions) =
        let input : BatchView = record {
          batch = some batch;
          selection = some rows;
          selection_rows_match_positions = match;
        } in
        let domain = domain_of input rows in
        let cs = all-Compiled ps fit in
        let same = domain_rows-positions match rows positions in
        ap
          (λ m. and_then m (λ parts.
            and_then (compile_predicates subplans ps parts.0 context) (λ compiled.
              and_then (selected_rows compiled (domain_of input parts.1))
                (λ kept. with_selection input kept))))
          (valid_view n batch rows match counted below)
        ∙ ap
            (λ m. and_then m (λ compiled.
              and_then (selected_rows compiled domain) (λ kept. with_selection input kept)))
            cs.compiles
        ∙ ap (λ m. and_then m (λ kept. with_selection input kept))
            (selection_from_true_mask-keep n domain (subst (AllBelow n) (sym same) below)
              cs.compiled cs.reads)
        ∙ ap (λ kept. with_selection input kept)
            (ap (keep_if _) same
              ∙ keep_if-cong n _ (λ row. is_true (truth row)) rows truth-agrees below)
        ∙ ap
            (λ m. and_then m (λ _. ok (record {
              batch = some batch;
              selection = some (keep_if (λ row. is_true (truth row)) rows);
              selection_rows_match_positions = false;
            })))
            (valid_view n batch (keep_if (λ row. is_true (truth row)) rows) false counted
              (keep_if-AllBelow n _ rows below))
