-- ===== src/Tests/Vectorized.antt =====
-- The vectorized executor.
use vectorized_sql_engine.Base.{
  ℕ, zero, suc, ℤ, pos, ◌≡◌, refl, ◌<◌, Bool, true, false, ◌&&◌, Option, none, some, List, [], ◌∷◌,
  ◌++◌, Result, ok, and_then, arith, if◌then◌else◌, length, equal_elements,
}
use vectorized_sql_engine.Catalog.{int64}
use vectorized_sql_engine.Sql.Ast.{ComparisonOp}
use vectorized_sql_engine.Storage.Batch.{column_type}
use vectorized_sql_engine.Plan.{BoundPredicate}
use vectorized_sql_engine.Execution.Cell.{Cell, null_cell, int64_cell}
use vectorized_sql_engine.Execution.Truth.{TruthValue, is_true}
use vectorized_sql_engine.Execution.Membership.{equality}
use vectorized_sql_engine.Execution.Predicate.{evaluate_predicates}
use vectorized_sql_engine.Vectorized.Cells.{hash_key, key_eq, typed_eq}
use vectorized_sql_engine.Vectorized.Keys.{key_eq-hash_key}
use vectorized_sql_engine.Vectorized.Scalars.{CompiledColumn}
use vectorized_sql_engine.Vectorized.Context.{PreparedContext}
use vectorized_sql_engine.Vectorized.Sets.{value_set-in_result, SetAgrees}
use vectorized_sql_engine.Execution.Scalar.{column_identity_name}
use vectorized_sql_engine.Vectorized.PredicateSound.{AllFit}
use vectorized_sql_engine.Vectorized.Views.{filter_view}
use vectorized_sql_engine.Vectorized.FilterSound.{filter_view-keep}
use vectorized_sql_engine.Vectorized.JoinLoops.{
  HashKey, make_non_null_key, build_rows, hash_candidates, join_loop, existence_loop, build_buckets,
  probe_loop, null_aware_loop,
}
use vectorized_sql_engine.Vectorized.HashTable.{keys_match}
use vectorized_sql_engine.Vectorized.HashJoin.{hash_join-nested_loop}
use vectorized_sql_engine.Vectorized.ExistenceJoin.{hash_existence-nested_loop}
use vectorized_sql_engine.Vectorized.NullAwareJoin.{hash_null_aware-nested_loop}
use vectorized_sql_engine.Tests.Data.{
  orders, orders-IsValidBatch, amount, amounts, start, no_subplans, no_run, int_expr, amount_expr,
}

abbrev nothing_prepared : PreparedContext
nothing_prepared = record { subquery_results = []; subquery_value_sets = [] }

-- a > 5 OR a IS NULL
abbrev above_five : BoundPredicate
above_five =
    BoundPredicate.either
      (BoundPredicate.comparison (record {
        left = amount_expr;
        op = ComparisonOp.greater;
        right = int_expr (pos 5);
        operator_position = 0;
      }))
      (BoundPredicate.is_null amount_expr 0) 0

abbrev above_five_truth : ℕ → TruthValue
above_five_truth zero = TruthValue.false
above_five_truth _ = TruthValue.true

above_five_rows :
    (row : ℕ)
    → row < 3
    → evaluate_predicates no_subplans no_run (above_five ∷ []) orders row start
      ≡ ok (above_five_truth row, start)
unfolding evaluate_predicates
above_five_rows zero h = refl
above_five_rows (suc zero) h = refl
above_five_rows (suc (suc zero)) h = refl
above_five_rows (suc (suc (suc row))) h = absurd (omega arith)

amount_type : column_type amount orders ≡ ok int64
unfolding column_type
amount_type = refl

above_five-AllFit : AllFit orders (above_five ∷ [])
unfolding column_type column_identity_name
above_five-AllFit = ((((refl, refl), refl, refl), (refl, refl)), tt)

filter_view-keep_example :
    filter_view no_subplans
      (above_five ∷ [])
      (record {
        batch = some orders;
        selection = some (2 ∷ 0 ∷ 1 ∷ []);
        selection_rows_match_positions = false;
      })
      nothing_prepared
    ≡ ok (record {
      batch = some orders;
      selection = some (2 ∷ 1 ∷ []);
      selection_rows_match_positions = false;
    })
filter_view-keep_example =
    filter_view-keep no_subplans no_run nothing_prepared orders 3 (orders-IsValidBatch).fits.valid
      (above_five ∷ []) (above_five-AllFit) start above_five_truth above_five_rows (2 ∷ 0 ∷ 1 ∷ [])
      false (orders-IsValidBatch).counted
      ((omega arith, (omega arith, (omega arith, tt))), λ h. absurd (cc h))

value_set-in_result_example : SetAgrees (int64_cell (pos 7)) orders
value_set-in_result_example =
    value_set-in_result 3 amount (int64_cell (pos 7)) orders orders-IsValidBatch refl amount_type

abbrev hash_number : ℤ → ℕ
hash_number (pos n) = n
hash_number _ = 1

-- Two NULLs with different unused values.
key_eq-hash_key_example :
    hash_key hash_number length (null_cell int64 ∷ [])
    ≡ hash_key hash_number length
        (record { type = int64; is_null = true; int_value = pos 3; string_value = [] } ∷ [])
unfolding key_eq equal_elements
key_eq-hash_key_example =
    key_eq-hash_key hash_number length (null_cell int64 ∷ [])
      (record { type = int64; is_null = true; int_value = pos 3; string_value = [] } ∷ []) refl

-- The nullable column 5, NULL, 7 as the key of both inputs.
abbrev join_keys : List CompiledColumn
join_keys =
    record {
      type = int64;
      int_values = some amounts.values;
      string_values = none;
      validity = amounts.validity;
    }
    ∷ []

abbrev key_at : ℕ → Result (Option HashKey)
key_at row = make_non_null_key row join_keys

abbrev cell_of : ℕ → Cell
cell_of zero = int64_cell (pos 5)
cell_of (suc zero) = null_cell int64
cell_of _ = int64_cell (pos 7)

abbrev key_of : ℕ → Option HashKey
key_of zero = some (int64_cell (pos 5) ∷ [])
key_of (suc zero) = none
key_of _ = some (int64_cell (pos 7) ∷ [])

keys_read : (key_at 0 ≡ ok (key_of 0)) × (key_at 1 ≡ ok (key_of 1)) × (key_at 2 ≡ ok (key_of 2))
unfolding make_non_null_key
keys_read = (refl, refl, refl)

-- The equality of the keys as the nested loop evaluates it.
abbrev same_keys : ℕ → ℕ → TruthValue
same_keys i j = if keys_match (key_of i) (key_of j) then TruthValue.true else TruthValue.unknown

true_only : (b : Bool) → is_true (if b then TruthValue.true else TruthValue.unknown) ≡ (b && true)
true_only true = refl
true_only false = refl

true_alone : (b : Bool) → is_true (if b then TruthValue.true else TruthValue.unknown) ≡ b
true_alone true = refl
true_alone false = refl

abbrev push_row : ℕ → Option ℕ → List (ℕ × Option ℕ) → Result (List (ℕ × Option ℕ))
push_row i j out = ok (out ++ (i, j) ∷ [])

-- A LEFT join of the rows 0, 1, 2 with the rows 2, 1, 0, where the pairs need equal keys.
hash_join-nested_loop_example :
    and_then (build_rows key_at (2 ∷ 1 ∷ 0 ∷ []) []) (λ table.
      join_loop
        (λ i j. ok TruthValue.true)
        push_row
        true
        (hash_candidates key_at table)
        (0 ∷ 1 ∷ 2 ∷ [])
        [])
    ≡ join_loop
        (λ i j. ok (same_keys i j))
        push_row
        true
        (λ i. ok (2 ∷ 1 ∷ 0 ∷ []))
        (0 ∷ 1 ∷ 2 ∷ [])
        []
hash_join-nested_loop_example =
    hash_join-nested_loop push_row (λ i j. ok TruthValue.true) (λ i j. ok (same_keys i j))
      (λ i j. TruthValue.true) same_keys true key_at key_at key_of key_of (0 ∷ 1 ∷ 2 ∷ [])
      (2 ∷ 1 ∷ 0 ∷ []) [] (keys_read.0, (keys_read.1, (keys_read.2, tt)))
      (keys_read.2, (keys_read.1, (keys_read.0, tt)))
      ((refl, (refl, (refl, tt))), ((refl, (refl, (refl, tt))), ((refl, (refl, (refl, tt))), tt)))
      ((refl, (refl, (refl, tt))), ((refl, (refl, (refl, tt))), ((refl, (refl, (refl, tt))), tt)))
      (λ i j. true_only (keys_match (key_of i) (key_of j)))

hash_existence-nested_loop_example :
    (and_then (build_rows key_at (2 ∷ 1 ∷ []) []) (λ table.
        existence_loop
          (λ i j. ok TruthValue.true)
          true
          (hash_candidates key_at table)
          (0 ∷ 1 ∷ 2 ∷ []))
      ≡ ok (2 ∷ []))
    × (existence_loop (λ i j. ok (same_keys i j)) true (λ i. ok (2 ∷ 1 ∷ [])) (0 ∷ 1 ∷ 2 ∷ [])
        ≡ ok (2 ∷ []))
unfolding key_eq equal_elements typed_eq
hash_existence-nested_loop_example =
    hash_existence-nested_loop (λ i j. ok TruthValue.true) (λ i j. ok (same_keys i j))
      (λ i j. TruthValue.true) same_keys true key_at key_at key_of key_of (0 ∷ 1 ∷ 2 ∷ [])
      (2 ∷ 1 ∷ []) (keys_read.0, (keys_read.1, (keys_read.2, tt))) (keys_read.2, (keys_read.1, tt))
      ((refl, (refl, tt)), ((refl, (refl, tt)), ((refl, (refl, tt)), tt)))
      ((refl, (refl, tt)), ((refl, (refl, tt)), ((refl, (refl, tt)), tt)))
      (λ i j. true_only (keys_match (key_of i) (key_of j)))

-- a NOT IN the amounts of the rows with the same key.
hash_null_aware-nested_loop_example :
    and_then
      (build_buckets int64 key_at (λ j. ok (cell_of j)) (2 ∷ 1 ∷ []) [])
      (λ buckets. probe_loop key_at (λ i. ok (cell_of i)) buckets (0 ∷ 1 ∷ 2 ∷ []))
    ≡ null_aware_loop
        (λ i j. ok (same_keys i j))
        (λ i j. ok (equality (cell_of i) (cell_of j)))
        (2 ∷ 1 ∷ [])
        (0 ∷ 1 ∷ 2 ∷ [])
hash_null_aware-nested_loop_example =
    hash_null_aware-nested_loop int64 (λ i j. ok (same_keys i j))
      (λ i j. ok (equality (cell_of i) (cell_of j))) same_keys key_at key_at (λ i. ok (cell_of i))
      (λ j. ok (cell_of j)) key_of key_of cell_of cell_of (0 ∷ 1 ∷ 2 ∷ []) (2 ∷ 1 ∷ [])
      (keys_read.0, (keys_read.1, (keys_read.2, tt))) (keys_read.2, (keys_read.1, tt))
      (refl, refl, (refl, refl, (refl, refl, tt))) (refl, refl, (refl, refl, tt))
      ((refl, (refl, tt)), ((refl, (refl, tt)), ((refl, (refl, tt)), tt)))
      ((refl, (refl, tt)), ((refl, (refl, tt)), ((refl, (refl, tt)), tt)))
      (λ i j. true_alone (keys_match (key_of i) (key_of j)))
