-- ===== src/Execution/Membership.antt =====
-- src/execution/interpreter.cpp: IN over a materialized subquery, against its definition in SQL as
-- the disjunction of the equalities with the members.
use vectorized_sql_engine.Base.{
  ℕ, suc, ◌≡◌, refl, ◌∙◌, ap, Bool, true, false, Bytes, List, [], ◌∷◌, map, range, Result, ok,
  if◌then◌else◌, arith, ◌==◌,
}
use vectorized_sql_engine.Storage.Batch.{ColumnarBatch, row_count}
use vectorized_sql_engine.Execution.Cell.{Cell, cell_eq}
use vectorized_sql_engine.Execution.Scalar.{cell_at}
use vectorized_sql_engine.Execution.Truth.{TruthValue, truth_from_bool, or_truth}
use vectorized_sql_engine.Execution.JoinSpec.{any_truth}
use vectorized_sql_engine.Execution.Predicate.{in_rows, in_column, in_result}

-- The SQL equality of two values.
abbrev pub equality : Cell → Cell → TruthValue
equality l r =
    if l.is_null
    then TruthValue.unknown
    else if r.is_null
    then TruthValue.unknown
    else truth_from_bool (cell_eq l r)

-- The column holds `members` from row `i` on.
abbrev pub Holds : ColumnarBatch → Bytes → ℕ → List Cell → Type 0
Holds batch column i [] = Unit
Holds batch column i (member ∷ members) =
    (cell_at batch column i ≡ ok member) × Holds batch column (suc i) members

abbrev count : List Cell → ℕ
count [] = 0
count (_ ∷ members) = suc (count members)

abbrev unknown_if : Bool → TruthValue
unknown_if contains_null = if contains_null then TruthValue.unknown else TruthValue.false

in_step :
    (value_null null hit contains_null : Bool) (t : TruthValue) (skip go_on : Result TruthValue)
    → value_null ≡ false
    → skip ≡ ok (or_truth t TruthValue.unknown)
    → go_on ≡ ok (or_truth t (unknown_if contains_null))
    → (if null then skip else if hit then ok TruthValue.true else go_on)
      ≡ ok (
          or_truth
            (or_truth
              (if value_null
                then TruthValue.unknown
                else if null
                then TruthValue.unknown
                else truth_from_bool hit)
              t)
            (unknown_if contains_null))
in_step value_null null hit contains_null t skip go_on v s g = ground arith

in_rows-any :
    (value : Cell) (batch : ColumnarBatch) (column : Bytes) (contains_null : Bool) (i : ℕ)
    (members : List Cell)
    → value.is_null ≡ false
    → Holds batch column i members
    → in_rows value batch column contains_null (range i (count members))
      ≡ ok (or_truth (any_truth (map (equality value) members)) (unknown_if contains_null))
unfolding in_rows
in_rows-any value batch column contains_null i [] v h = ground arith
in_rows-any value batch column contains_null i (m ∷ ms) v (h, hs) = rw h (
    in_step value.is_null m.is_null (cell_eq value m) contains_null
      (any_truth (map (equality value) ms)) _ _ v
      (in_rows-any value batch column true (suc i) ms v hs)
      (in_rows-any value batch column contains_null (suc i) ms v hs))

in_cases :
    (null : Bool) (n : ℕ) (found answer : Result TruthValue)
    → (null ≡ true → answer ≡ ok TruthValue.unknown)
    → (null ≡ false → found ≡ answer)
    → (if suc n == 0 then ok TruthValue.false else if null then ok TruthValue.unknown else found)
      ≡ answer
in_cases null n found answer h k = ground arith

or_false : (t : TruthValue) → or_truth t TruthValue.false ≡ t
or_false t = ground arith

any-unknown :
    (value m : Cell) (ms : List Cell)
    → value.is_null ≡ true
    → any_truth (map (equality value) (m ∷ ms)) ≡ TruthValue.unknown
any-unknown value m [] h = rw h refl
any-unknown value m (n ∷ ms) h = rw h (ground (arith, any-unknown value n ms h))

-- x IN (subquery), over a result with one column, is the three-valued disjunction of the SQL
-- equalities of x with the column's cells: FALSE for an empty result even if x is NULL, and UNKNOWN
-- rather than FALSE when x or a member is NULL and no member is equal.
pub in_result-any :
    (value : Cell) (batch : ColumnarBatch) (column : Bytes) (members : List Cell)
    → batch.column_names ≡ column ∷ []
    → row_count batch ≡ ok (count members)
    → Holds batch column 0 members
    → in_result value batch ≡ ok (any_truth (map (equality value) members))
unfolding in_result
in_result-any value batch column [] names counted h = rw counted refl
in_result-any value batch column (m ∷ ms) names counted h = rw counted (
    ap
      (λ ns.
        if suc (count ms) == 0
        then ok TruthValue.false
        else in_column value batch ns (suc (count ms)))
      names
    ∙ in_cases value.is_null (count ms) _ (ok (any_truth (map (equality value) (m ∷ ms))))
        (λ null. ap (λ t. ok t) (any-unknown value m ms null))
        (λ there.
          in_rows-any value batch column false 0 (m ∷ ms) there h
          ∙ ap (λ t. ok t) (or_false (any_truth (map (equality value) (m ∷ ms))))))
