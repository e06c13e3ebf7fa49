-- ===== src/Execution/Cache.antt =====
-- src/execution/interpreter.cpp: the cache of materialize_subquery.
use vectorized_sql_engine.Base.{
  ◌≡◌, refl, subst, false, Option, none, some, List, ◌∷◌, Result, ok, err, and_then, ==_iff,
}
use vectorized_sql_engine.Storage.Batch.{ColumnarBatch}
use vectorized_sql_engine.Plan.{PlanRef, LogicalPlan}
use vectorized_sql_engine.Execution.Context.{
  OuterRowFrame, ExecutionContext, M, find_result, push_each,
}
use vectorized_sql_engine.Execution.Keeps.{Extends, Keeps, OnlyAdds, push_each-OnlyAdds}
use vectorized_sql_engine.Execution.Keeps.Predicates.{materialize_subquery-OnlyAdds}
use vectorized_sql_engine.Execution.Keeps.Nodes.{run_subplan-OnlyAdds}
use vectorized_sql_engine.Execution.Node.{subplan, run_subplan}
use vectorized_sql_engine.Execution.Tables.{Catalog}
use vectorized_sql_engine.Execution.Scalar.{
  is_correlated, remembered, from_cache, materialize_subquery,
}

find_result-added :
    (ref : PlanRef) (batch : ColumnarBatch) (rest : List (PlanRef × ColumnarBatch))
    → find_result ref ((ref, batch) ∷ rest) ≡ some batch
unfolding find_result
find_result-added ref batch rest = rw ((==_iff ref ref).1 refl) refl

-- A batch that was returned is the one in the cache.
abbrev Found : PlanRef → Result (ColumnarBatch × ExecutionContext) → Type 0
Found ref (ok (batch, σ)) = find_result ref σ.subquery_results ≡ some batch
Found ref (err e) = Unit

remembered-Found :
    (ref : PlanRef) (result : ColumnarBatch) (σ : ExecutionContext) (cached : Option ColumnarBatch)
    → find_result ref σ.subquery_results ≡ cached
    → Found ref (ok (remembered ref result σ cached))
remembered-Found ref result σ none h = find_result-added ref result σ.subquery_results
remembered-Found ref result σ (some batch) h = h

computed-Found :
    (ref : PlanRef) (m : Result (ColumnarBatch × ExecutionContext))
    → Found ref
        (and_then m λ r. ok (remembered ref r.0 r.1 (find_result ref (r.1).subquery_results)))
computed-Found ref (ok (result, σ)) = remembered-Found ref result σ _ refl
computed-Found ref (err e) = tt

from_cache-Found :
    (m : M ColumnarBatch) (ref : PlanRef) (σ : ExecutionContext) (cached : Option ColumnarBatch)
    → find_result ref σ.subquery_results ≡ cached
    → Found ref (from_cache m ref σ cached)
from_cache-Found m ref σ none h = computed-Found ref (m σ)
from_cache-Found m ref σ (some batch) h = h

module _ (explain : LogicalPlan → Catalog → Result ColumnarBatch) (catalog : Catalog)
    (plans : List LogicalPlan) where
  abbrev materialize : PlanRef → Option OuterRowFrame → M ColumnarBatch
  materialize = materialize_subquery (subplan plans) (run_subplan explain catalog plans)

  -- Materializing subqueries one after the other, each with its outer row.
  abbrev materialize_each : List (PlanRef × Option OuterRowFrame) → M (List ColumnarBatch)
  materialize_each calls = push_each (λ call. materialize call.0 call.1) calls

  materialize_each-OnlyAdds :
      (calls : List (PlanRef × Option OuterRowFrame)) → OnlyAdds (materialize_each calls)
  materialize_each-OnlyAdds calls =
      push_each-OnlyAdds calls (λ (call : PlanRef × Option OuterRowFrame).
        materialize_subquery-OnlyAdds (subplan plans) (run_subplan explain catalog plans)
          (run_subplan-OnlyAdds explain catalog plans) call.0 call.1)

  -- An uncorrelated subquery is executed at most once: after materialize_subquery has given a batch,
  -- and then any sequence of further subqueries has been materialized, correlated or not, each with
  -- its outer row and executing whatever subplans it needs, a later call for the subquery gives the
  -- same batch and leaves the context as it is, whatever executing its plan would do by then and
  -- whatever the outer row is.
  pub materialize_subquery_once :
      (other : LogicalPlan → M ColumnarBatch) (ref : PlanRef) (plan : LogicalPlan)
      (outer_row outer_row' : Option OuterRowFrame) (calls : List (PlanRef × Option OuterRowFrame))
      (batch : ColumnarBatch) (batches : List ColumnarBatch) (σ σ' σ'' : ExecutionContext)
      → subplan plans ref ≡ some plan
      → is_correlated plan ≡ false
      → materialize_subquery (subplan plans) (run_subplan explain catalog plans) ref outer_row σ
        ≡ ok (batch, σ')
      → materialize_each calls σ' ≡ ok (batches, σ'')
      → materialize_subquery (subplan plans) other ref outer_row' σ'' ≡ ok (batch, σ'')
  unfolding materialize_subquery
  materialize_subquery_once other ref plan outer_row outer_row' calls batch batches σ σ' σ'' known
        plain h later =
      let first = rw (known, plain) at h in
      let found : Found ref (ok (batch, σ')) =
        subst (Found ref) first
          (from_cache-Found (run_subplan explain catalog plans plan) ref σ _ refl) in
      let kept : Extends σ' σ'' =
        subst (Keeps σ') later ((materialize_each-OnlyAdds calls).keeps σ') in
      let still = kept ref batch found in rw (known, plain, still) refl
