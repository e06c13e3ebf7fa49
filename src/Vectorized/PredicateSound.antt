-- ===== src/Vectorized/PredicateSound.antt =====
-- src/execution/vectorized.cpp: a compiled predicate has, on every row of a valid batch, the truth
-- value that the interpreter gives it.
use vectorized_sql_engine.Base.{
  ℕ, ◌≡◌, refl, ap₂, ◌∙◌, ◌<◌, Bool, true, false, not, Option, List, [], ◌∷◌, Result, ok, and_then,
  if◌then◌else◌,
}
use vectorized_sql_engine.Catalog.{ColumnType, int64, string}
use vectorized_sql_engine.Storage.Batch.{ColumnarBatch}
use vectorized_sql_engine.Storage.Valid.{AreValid}
use vectorized_sql_engine.Plan.{
  PlanRef, LogicalPlan, BoundScalarExpr, BoundComparisonExpr, BoundPredicate,
}
use vectorized_sql_engine.Execution.Cell.{compare_values, type_eq}
use vectorized_sql_engine.Execution.Truth.{TruthValue, truth_from_bool, and_truth, or_truth}
use vectorized_sql_engine.Execution.Context.{ExecutionContext, M}
use vectorized_sql_engine.Execution.Predicate.{
  evaluate_predicate, comparison_truth, comparison_with, predicate_with,
}
use vectorized_sql_engine.Vectorized.Scalars.{CompiledScalar}
use vectorized_sql_engine.Vectorized.Context.{PreparedContext}
use vectorized_sql_engine.Vectorized.Predicates.{
  CompiledPredicate, compile_predicate, compile_with, evaluate_with, evaluate_comparison,
}
use vectorized_sql_engine.Vectorized.PredicateMasks.{truth_on}
use vectorized_sql_engine.Vectorized.Selections.{PredicateReads}
use vectorized_sql_engine.Vectorized.ScalarSound.{ScalarFits, Compiled}
use vectorized_sql_engine.Vectorized.ColumnSound.{scalar-Compiled}
use vectorized_sql_engine.Vectorized.CellCompare.{compare_cells-plain}

-- The predicate has no subquery, its scalars fit the batch, and it compares values of one type.
abbrev pub PredicateFits : ColumnarBatch → BoundPredicate → Type 0
PredicateFits batch (BoundPredicate.comparison c) =
    ScalarFits batch c.left × ScalarFits batch c.right × ((c.left).type ≡ (c.right).type)
PredicateFits batch (BoundPredicate.is_null e _) = ScalarFits batch e
PredicateFits batch (BoundPredicate.is_not_null e _) = ScalarFits batch e
PredicateFits batch (BoundPredicate.is_in _ _ _ _) = ⊥
PredicateFits batch (BoundPredicate.not_in _ _ _ _) = ⊥
PredicateFits batch (BoundPredicate.exists _ _ _) = ⊥
PredicateFits batch (BoundPredicate.not_exists _ _ _) = ⊥
PredicateFits batch (BoundPredicate.both l r _) = PredicateFits batch l × PredicateFits batch r
PredicateFits batch (BoundPredicate.either l r _) = PredicateFits batch l × PredicateFits batch r

abbrev pub AllFit : ColumnarBatch → List BoundPredicate → Type 0
AllFit batch [] = Unit {0}
AllFit batch (p ∷ ps) = PredicateFits batch p × AllFit batch ps

compared :
    (l_null r_null b : Bool) (r : Result Bool)
    → (l_null ≡ false → r_null ≡ false → r ≡ ok b)
    → (if l_null
        then ok TruthValue.unknown
        else if r_null
        then ok TruthValue.unknown
        else and_then r (λ x. ok (truth_from_bool x)))
      ≡ ok (
          if l_null
          then TruthValue.unknown
          else if r_null
          then TruthValue.unknown
          else truth_from_bool b)
compared true r_null b r h = refl
compared false true b r h = refl
compared false false b r h = rw (h refl refl) refl

type_eq_refl : (type : ColumnType) → type_eq type type ≡ true
type_eq_refl int64 = refl
type_eq_refl string = refl

module _ (subplans : PlanRef → Option LogicalPlan) (run : LogicalPlan → M ColumnarBatch)
    (context : PreparedContext) (batch : ColumnarBatch) (n : ℕ)
    (valid : AreValid n batch.columns) where
  -- The predicate compiles, its compiled form can be read on each row, and has the truth value
  -- there that the interpreter evaluates.
  pub record CompiledAs (p : BoundPredicate) : Type 0 where
    pub compiled : CompiledPredicate CompiledScalar
    pub compiles : compile_predicate subplans p batch context ≡ ok compiled
    pub reads : PredicateReads n compiled
    pub on :
        (row : ℕ)
        → row < n
        → (t : TruthValue) × (truth_on compiled row ≡ ok t)
          × ((σ : ExecutionContext) → evaluate_predicate subplans run p batch row σ ≡ ok (t, σ))

  expression-Compiled :
      (e : BoundScalarExpr) → ScalarFits batch e → Compiled subplans run context batch n e
  expression-Compiled = scalar-Compiled subplans run context batch n valid

  comparison-CompiledAs :
      (c : BoundComparisonExpr)
      → PredicateFits batch (BoundPredicate.comparison c)
      → CompiledAs (BoundPredicate.comparison c)
  unfolding compile_predicate compile_with evaluate_with evaluate_comparison evaluate_predicate
      predicate_with comparison_with
  comparison-CompiledAs c (fl, fr, same) =
      let l = expression-Compiled c.left fl in
      let r = expression-Compiled c.right fr in
      record {
        compiled =
            CompiledPredicate.comparison (record { left = l.scalar; op = c.op; right = r.scalar });
        compiles = rw l.compiles (rw r.compiles refl);
        reads = (
          l.readable,
          r.readable,
          ap₂ (λ a b. type_eq a b) (l.typed ∙ same) r.typed ∙ type_eq_refl (c.right).type,
        );
        on = λ row lt.
            let (a, _, a_read, a_type, a_evaluates) = l.on row lt in
            let (b, _, b_read, b_type, b_evaluates) = r.on row lt in
            (
              comparison_truth a c b,
              rw a_read (
                  rw b_read (
                    compared a.is_null b.is_null (compare_values a c.op b) _
                      (compare_cells-plain (c.right).type a b c.op (a_type ∙ same) b_type))),
              λ σ. rw (a_evaluates σ) (rw (b_evaluates σ) refl),
            );
      }

  is_null-CompiledAs :
      (e : BoundScalarExpr) (position : ℕ)
      → ScalarFits batch e
      → CompiledAs (BoundPredicate.is_null e position)
        × CompiledAs (BoundPredicate.is_not_null e position)
  unfolding compile_predicate compile_with evaluate_with evaluate_predicate predicate_with
  is_null-CompiledAs e position h =
      let s = expression-Compiled e h in
      (
        record {
          compiled = CompiledPredicate.is_null s.scalar;
          compiles = rw s.compiles refl;
          reads = s.readable;
          on = λ row lt.
              let (a, null, _, _, evaluates) = s.on row lt in
              (truth_from_bool a.is_null, rw null refl, λ σ. rw (evaluates σ) refl);
        },
        record {
          compiled = CompiledPredicate.is_not_null s.scalar;
          compiles = rw s.compiles refl;
          reads = s.readable;
          on = λ row lt.
              let (a, null, _, _, evaluates) = s.on row lt in
              (truth_from_bool (not a.is_null), rw null refl, λ σ. rw (evaluates σ) refl);
        },
      )

  pub predicate-CompiledAs : (p : BoundPredicate) → PredicateFits batch p → CompiledAs p
  unfolding compile_predicate compile_with evaluate_with evaluate_predicate predicate_with
  predicate-CompiledAs (BoundPredicate.comparison c) h = comparison-CompiledAs c h
  predicate-CompiledAs (BoundPredicate.is_null e position) h = (is_null-CompiledAs e position h).0
  predicate-CompiledAs (BoundPredicate.is_not_null e position) h =
      (is_null-CompiledAs e position h).1
  predicate-CompiledAs (BoundPredicate.is_in _ _ _ _) h = absurd h
  predicate-CompiledAs (BoundPredicate.not_in _ _ _ _) h = absurd h
  predicate-CompiledAs (BoundPredicate.exists _ _ _) h = absurd h
  predicate-CompiledAs (BoundPredicate.not_exists _ _ _) h = absurd h
  predicate-CompiledAs (BoundPredicate.both l r position) (hl, hr) =
      let a = predicate-CompiledAs l hl in
      let b = predicate-CompiledAs r hr in
      record {
        compiled = CompiledPredicate.both a.compiled b.compiled;
        compiles = rw a.compiles (rw b.compiles refl);
        reads = (a.reads, b.reads);
        on = λ row lt.
            let (t, e, i) = a.on row lt in
            let (u, f, j) = b.on row lt in
            (and_truth t u, rw e (rw f refl), λ σ. rw (i σ) (rw (j σ) refl));
      }
  predicate-CompiledAs (BoundPredicate.either l r position) (hl, hr) =
      let a = predicate-CompiledAs l hl in
      let b = predicate-CompiledAs r hr in
      record {
        compiled = CompiledPredicate.either a.compiled b.compiled;
        compiles = rw a.compiles (rw b.compiles refl);
        reads = (a.reads, b.reads);
        on = λ row lt.
            let (t, e, i) = a.on row lt in
            let (u, f, j) = b.on row lt in
            (or_truth t u, rw e (rw f refl), λ σ. rw (i σ) (rw (j σ) refl));
      }
