-- ===== src/Execution/Aggregate/Totals.antt =====
-- src/execution/interpreter.cpp: what update_aggregate accumulates over the arguments of a group.
use vectorized_sql_engine.Base.{
  ℕ, suc, ◌+◌, ◌≤◌, ◌≡◌, refl, sym, ◌∙◌, ap, ℤ, ◌+ℤ◌, int64_max, fits_int64, List, [], ◌∷◌, Bytes,
  Bool, true, false, not, ◌&&◌, Bool-cases, inl, inr, if◌then◌else◌, arith, Result, ok, and_then,
  some, leb, length, ◌==◌,
}
use vectorized_sql_engine.Sql.Ast.{AggregateFunction}
use vectorized_sql_engine.Execution.Cell.{Cell}
use vectorized_sql_engine.Execution.Aggregate.{
  AggregateValue, overflowed, accumulate, update_sum, checked_sum, increment_count,
}
use vectorized_sql_engine.Execution.JoinSpec.{keep_if}

-- The loop over the arguments of a group's rows.
abbrev pub accumulate_all :
    AggregateFunction → Bytes → List Cell → AggregateValue → Result AggregateValue
accumulate_all function name [] value = ok value
accumulate_all function name (c ∷ cs) value =
    and_then (accumulate function name (some c) value)
      λ value'. accumulate_all function name cs value'

abbrev pub non_null : List Cell → List Cell
non_null cs = keep_if (λ (c : Cell). not c.is_null) cs

abbrev count_result : Bytes → ℕ → AggregateValue → Result AggregateValue
count_result name count value =
    if leb count int64_max then ok (record value { count = count }) else overflowed name

counts-fit :
    (name : Bytes) (value : AggregateValue)
    → value.count ≤ int64_max
    → count_result name value.count value ≡ ok value
counts-fit name value h = let fits : leb value.count int64_max ≡ true = ground arith in rw fits refl

counts-over :
    (name : Bytes) (count : ℕ) (value : AggregateValue)
    → leb count int64_max ≡ false
    → overflowed name ≡ count_result name count value
counts-over name count value h = rw h refl

-- COUNT(x) counts the arguments that are not NULL, on top of the rows counted before, and reports
-- an overflow exactly when that count is above the largest int64; the count before is not.
pub count-accumulate_all :
    (name : Bytes) (cs : List Cell) (value : AggregateValue)
    → value.count ≤ int64_max
    → accumulate_all AggregateFunction.count name cs value ≡ (
        if leb (value.count + length (non_null cs)) int64_max
        then ok (record value { count = value.count + length (non_null cs) })
        else overflowed name)
unfolding accumulate increment_count
count-accumulate_all name [] value h =
    let same : value.count ≡ value.count + 0 = omega arith in
    sym (counts-fit name value h) ∙ ap (λ n. count_result name n value) same
count-accumulate_all name (c ∷ cs) value h = elim (Bool-cases c.is_null) [
  | inl null ↦ rw null (count-accumulate_all name cs value h)
  | inr there ↦ elim (Bool-cases (value.count == int64_max)) [
    | inl full ↦ rw (there, full) (counts-over name _ value (ground arith))
    | inr room ↦
        let same : suc value.count + length (non_null cs)
            ≡ value.count + suc (length (non_null cs)) =
          omega arith in
        rw (there, room)
          (count-accumulate_all name cs (record value { count = suc value.count }) (ground arith)
            ∙ ap (λ n. count_result name n value) same)
  ]
]

-- The integers of the arguments that are not NULL.
abbrev pub arguments : List Cell → List ℤ
arguments [] = []
arguments (c ∷ cs) = if c.is_null then arguments cs else c.int_value ∷ arguments cs

abbrev pub total : ℤ → List ℤ → ℤ
total s [] = s
total s (x ∷ xs) = total (s +ℤ x) xs

-- Every partial sum fits int64.
abbrev pub sums_fit : ℤ → List ℤ → Bool
sums_fit s [] = true
sums_fit s (x ∷ xs) = fits_int64 (s +ℤ x) && sums_fit (s +ℤ x) xs

abbrev pub sum_result : Bytes → List ℤ → AggregateValue → Result AggregateValue
sum_result name [] value = ok value
sum_result name (x ∷ xs) value =
    if sums_fit x xs
    then ok (record value { sum = total x xs; has_value = true })
    else overflowed name

abbrev with_sum : AggregateValue → ℤ → AggregateValue
with_sum value s = record value { sum = s; has_value = true }

sum-more :
    (name : Bytes) (cs : List Cell) (value : AggregateValue) (s : ℤ)
    → accumulate_all AggregateFunction.sum name cs (with_sum value s) ≡ (
        if sums_fit s (arguments cs)
        then ok (with_sum value (total s (arguments cs)))
        else overflowed name)
unfolding accumulate update_sum checked_sum
sum-more name [] value s = refl
sum-more name (c ∷ cs) value s = elim (Bool-cases c.is_null) [
  | inl null ↦ rw null (sum-more name cs value s)
  | inr there ↦ elim (Bool-cases (fits_int64 (s +ℤ c.int_value))) [
    | inl fits ↦ rw (there, fits) (sum-more name cs value (s +ℤ c.int_value))
    | inr over ↦ rw (there, over) refl
  ]
]

-- SUM of a group: NULL arguments are skipped; with no other argument there is no value; else the
-- value is the sum over the integers, and an overflow is reported exactly when a partial sum, in
-- the order of the rows, does not fit int64.
pub sum-accumulate_all :
    (name : Bytes) (cs : List Cell) (value : AggregateValue)
    → value.has_value ≡ false
    → accumulate_all AggregateFunction.sum name cs value ≡ sum_result name (arguments cs) value
unfolding accumulate update_sum
sum-accumulate_all name [] value h = refl
sum-accumulate_all name (c ∷ cs) value h = elim (Bool-cases c.is_null) [
  | inl null ↦ rw null (sum-accumulate_all name cs value h)
  | inr there ↦ rw (there, h) (sum-more name cs value c.int_value)
]
