-- ===== src/Tests/Operators.antt =====
-- Joins, filters and sorts.
use mathlib.Core.List.{Permᴰ}
use vectorized_sql_engine.Base.{
  equal_elements, ℕ, subst, inl, inr, ◌⊎◌, Result, zero, suc, ◌≡◌, refl, sym, ◌∙◌, ◌<◌, pos, true,
  Option, none, some, List, [], ◌∷◌, ◌++◌, ok, arith, IsStrictWeakOrder,
}
use vectorized_sql_engine.Sql.Ast.{ComparisonOp, asc}
use vectorized_sql_engine.Storage.Batch.{ColumnarBatch}
use vectorized_sql_engine.Storage.Valid.{IsValidBatch}
use vectorized_sql_engine.Storage.FilterBatch.{view, select_table}
use vectorized_sql_engine.Plan.{BoundPredicate, SortKey, left}
use vectorized_sql_engine.Execution.Cell.{Cell}
use vectorized_sql_engine.Execution.Truth.{TruthValue}
use vectorized_sql_engine.Execution.Context.{ExecutionContext, M, lift}
use vectorized_sql_engine.Execution.Predicate.{evaluate_predicates, evaluate_join_predicates}
use vectorized_sql_engine.Execution.Rows.{key_value, row_less, stable_sorted_rows}
use vectorized_sql_engine.Execution.Rows.Sorting.{sorted}
use vectorized_sql_engine.Execution.Rows.SortOrder.{
  keys_before, keys_tied, row_less-IsStrictWeakOrder,
}
use vectorized_sql_engine.Execution.Rows.SortRows.{stable_sorted_rows_lem}
use vectorized_sql_engine.Execution.Join.{join_rows, null_aware_rows}
use vectorized_sql_engine.Execution.JoinSpec.{keep_if}
use vectorized_sql_engine.Execution.JoinRows.{join_rows-emits}
use vectorized_sql_engine.Execution.Gives.{Gives, gives, Evaluates}
use vectorized_sql_engine.Execution.NotInSpec.{null_aware_rows-emits}
use vectorized_sql_engine.Execution.FilterRows.{filter_batch-view}
use vectorized_sql_engine.Execution.Node.{filter_batch}
use vectorized_sql_engine.Execution.Rows.{row_values, first_rows}
use vectorized_sql_engine.Execution.Rows.FirstRows.{first_rows_lem}
use vectorized_sql_engine.Execution.Cell.{cell_eq}
use vectorized_sql_engine.Tests.Data.{
  orders, orders-IsValidBatch, amount_column, amount_values, amount_values-type, start, int_expr,
  amount_expr, orders-rows, one_subplan, run_orders, after,
}

-- The contexts before and after the subquery 0 is cached.
abbrev Known : ExecutionContext → Type 0
Known σ = (start ≡ σ) ⊎ (after ≡ σ)

Known-Evaluates :
    {A : Type 0} (m : M A) (value : A)
    → m start ≡ ok (value, after)
    → m after ≡ ok (value, after)
    → Evaluates Known m value
Known-Evaluates m value e f σ (inl h) =
    subst (λ σ. Gives Known (m σ) (ok value)) h
      (subst (λ x. Gives Known x (ok value)) (sym e) (gives value after (inr refl)))
Known-Evaluates m value e f σ (inr h) =
    subst (λ σ. Gives Known (m σ) (ok value)) h
      (subst (λ x. Gives Known x (ok value)) (sym f) (gives value after (inr refl)))

-- EXISTS (SELECT …), whose evaluation fills the cache.
abbrev has_orders : BoundPredicate
has_orders = BoundPredicate.exists 0 0 []

-- a = 5
abbrev is_five : BoundPredicate
is_five = BoundPredicate.comparison (record {
  left = amount_expr;
  op = ComparisonOp.equal;
  right = int_expr (pos 5);
  operator_position = 0;
})

abbrev five_truth : ℕ → TruthValue
five_truth zero = TruthValue.true
five_truth (suc zero) = TruthValue.unknown
five_truth _ = TruthValue.false

abbrev joined : List BoundPredicate → ℕ → ℕ → M TruthValue
joined predicates i j = evaluate_join_predicates one_subplan run_orders predicates orders i orders j

abbrev collect : ℕ → Option ℕ → List (ℕ × Option ℕ) → Result (List (ℕ × Option ℕ))
collect i j out = ok (out ++ (i, j) ∷ [])

exists_and_five :
    Evaluates Known (joined (has_orders ∷ is_five ∷ []) 0 0) (five_truth 0)
    × Evaluates Known (joined (has_orders ∷ is_five ∷ []) 1 0) (five_truth 1)
    × Evaluates Known (joined (has_orders ∷ is_five ∷ []) 2 0) (five_truth 2)
unfolding evaluate_join_predicates
exists_and_five =
    (Known-Evaluates _ _ refl refl, Known-Evaluates _ _ refl refl, Known-Evaluates _ _ refl refl)

join_rows-emits_example :
    Gives Known
      (join_rows
        (joined (has_orders ∷ is_five ∷ []))
        (joined (is_five ∷ []))
        (λ i j out. lift (collect i j out))
        left
        (0 ∷ 1 ∷ 2 ∷ [])
        (0 ∷ [])
        []
        start)
      (ok ((0, some 0) ∷ (1, none) ∷ (2, none) ∷ []))
join_rows-emits_example =
    join_rows-emits Known (joined (has_orders ∷ is_five ∷ [])) (joined (is_five ∷ [])) collect
      (λ i j. five_truth i) left (0 ∷ 1 ∷ 2 ∷ []) (0 ∷ []) [] start
      ((exists_and_five.0, tt), ((exists_and_five.1, tt), ((exists_and_five.2, tt), tt))) tt
      (inl refl)

exists_candidates :
    Evaluates Known (joined (has_orders ∷ []) 0 0) TruthValue.true
    × Evaluates Known (joined (has_orders ∷ []) 1 0) TruthValue.true
    × Evaluates Known (joined (has_orders ∷ []) 2 0) TruthValue.true
unfolding evaluate_join_predicates
exists_candidates =
    (Known-Evaluates _ _ refl refl, Known-Evaluates _ _ refl refl, Known-Evaluates _ _ refl refl)

-- 5, NULL and 7 NOT IN (5): only 7 is kept.
null_aware_rows-emits_example :
    Gives Known
      (null_aware_rows
        (joined (has_orders ∷ []))
        (joined (has_orders ∷ is_five ∷ []))
        (λ i j out. lift (collect i j out))
        (0 ∷ 1 ∷ 2 ∷ [])
        (0 ∷ [])
        []
        start)
      (ok ((2, none) ∷ []))
null_aware_rows-emits_example =
    null_aware_rows-emits Known (joined (has_orders ∷ [])) (joined (has_orders ∷ is_five ∷ []))
      collect (λ i j. TruthValue.true) (λ i j. five_truth i) (0 ∷ 1 ∷ 2 ∷ []) (0 ∷ []) [] start
      ((exists_candidates.0, tt), ((exists_candidates.1, tt), ((exists_candidates.2, tt), tt)))
      (
        ((λ h. exists_and_five.0), tt),
        (((λ h. exists_and_five.1), tt), (((λ h. exists_and_five.2), tt), tt)),
      )
      (inl refl)

abbrev filtered : ℕ → M TruthValue
filtered i = evaluate_predicates one_subplan run_orders (has_orders ∷ is_five ∷ []) orders i

five_rows :
    Evaluates Known (filtered 0) (five_truth 0)
    × Evaluates Known (filtered 1) (five_truth 1)
    × Evaluates Known (filtered 2) (five_truth 2)
unfolding evaluate_predicates
five_rows =
    (Known-Evaluates _ _ refl refl, Known-Evaluates _ _ refl refl, Known-Evaluates _ _ refl refl)

filter_batch-view_example :
    (out : ColumnarBatch) × (σ' : ExecutionContext) × (filter_batch one_subplan run_orders
        (has_orders ∷ is_five ∷ [])
        orders
        start
      ≡ ok (out, σ'))
    × Known σ'
    × IsValidBatch 1 out
    × (view out ≡ select_table (1 ∷ 0 ∷ 0 ∷ []) (view orders))
filter_batch-view_example =
    filter_batch-view Known one_subplan run_orders (has_orders ∷ is_five ∷ []) orders five_truth 3
      start orders-IsValidBatch (five_rows.0, (five_rows.1, (five_rows.2, tt))) (inl refl)

abbrev by_amount : List SortKey
by_amount = record { column = amount_column; direction = asc } ∷ []

abbrev amount_of : SortKey → ℕ → Cell
amount_of key = amount_values

amount_of-typed : (key : SortKey) (i j : ℕ) → (amount_of key i).type ≡ (amount_of key j).type
amount_of-typed key i j = amount_values-type i ∙ sym (amount_values-type j)

amounts-read :
    (i : ℕ) → i < 3 → key_value amount_column orders i start ≡ ok (amount_values i, start)
unfolding key_value
amounts-read zero h = refl
amounts-read (suc zero) h = refl
amounts-read (suc (suc zero)) h = refl
amounts-read (suc (suc (suc i))) h = absurd (omega arith)

stable_sorted_rows_lem_example :
    (out : List ℕ) × (stable_sorted_rows by_amount orders start ≡ ok (out, start))
    × Permᴰ (0 ∷ 1 ∷ 2 ∷ []) out
    × (sorted (keys_before amount_of by_amount) out ≡ true)
    × ((a : ℕ)
        → keep_if (keys_tied amount_of by_amount a) out
          ≡ keep_if (keys_tied amount_of by_amount a) (0 ∷ 1 ∷ 2 ∷ []))
stable_sorted_rows_lem_example =
    stable_sorted_rows_lem amount_of by_amount orders 3 start amount_of-typed (amounts-read, tt)
      orders-rows

row_less-IsStrictWeakOrder_example :
    ((i j : ℕ)
      → i < 3
      → j < 3
      → row_less by_amount orders i j start ≡ ok (keys_before amount_of by_amount i j, start))
    × IsStrictWeakOrder (keys_before amount_of by_amount) (keys_tied amount_of by_amount)
row_less-IsStrictWeakOrder_example =
    row_less-IsStrictWeakOrder amount_of orders 3 start by_amount amount_of-typed (amounts-read, tt)

orders-keys :
    (row_values orders 0 ≡ ok (amount_values 0 ∷ []))
    × (row_values orders 1 ≡ ok (amount_values 1 ∷ []))
unfolding row_values
orders-keys = (refl, refl)

first_rows_lem_example : first_rows (row_values orders) (0 ∷ 1 ∷ 0 ∷ 1 ∷ []) [] ≡ ok (0 ∷ 1 ∷ [])
unfolding cell_eq equal_elements
first_rows_lem_example =
    first_rows_lem (row_values orders) (λ i. amount_values i ∷ []) (0 ∷ 1 ∷ 0 ∷ 1 ∷ [])
      (orders-keys.0, (orders-keys.1, (orders-keys.0, (orders-keys.1, tt))))
