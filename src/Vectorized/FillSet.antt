-- ===== src/Vectorized/FillSet.antt =====
-- src/execution/vectorized.cpp: filling a value set from a column, against the interpreter's scan of
-- the column.
use vectorized_sql_engine.Base.{
  ℕ, zero, suc, ◌≡◌, refl, ap, sym, ◌∙◌, ◌<◌, ◌+◌, ◌≤◌, Bool, true, false, ◌||◌, List, [], ◌∷◌,
  length, Bytes, Result, ok, range, ◌==◌, arith, if◌then◌else◌, and_then, Bool-cases, inl, inr,
}
use vectorized_sql_engine.Storage.Column.{Column, is_null, value_at}
use vectorized_sql_engine.Storage.Cells.{IsValidColumn}
use vectorized_sql_engine.Storage.Batch.{ColumnarBatch}
use vectorized_sql_engine.Execution.Cell.{Cell, cell_eq}
use vectorized_sql_engine.Execution.Truth.{TruthValue}
use vectorized_sql_engine.Execution.Scalar.{cell_at}
use vectorized_sql_engine.Execution.Predicate.{in_rows}
use vectorized_sql_engine.Vectorized.Cells.{MaterializedValueSet, contains, evaluate_in_truth}
use vectorized_sql_engine.Vectorized.Context.{fill_set}
use vectorized_sql_engine.Vectorized.Reads.{reads}

-- What evaluate_in_truth gives for a set that is not empty and a value that is not NULL.
abbrev verdict : MaterializedValueSet → Cell → TruthValue
verdict set value =
    if contains set value
    then TruthValue.true
    else if set.has_null
    then TruthValue.unknown
    else TruthValue.false

-- The column has each of the rows.
abbrev InRange : {A : Type 0} → Column A → List ℕ → Type 0
InRange c [] = Unit {0}
InRange c (row ∷ rows) = (row < length c.values) × InRange c rows

InRange-range :
    {A : Type 0} (c : Column A) (start count : ℕ)
    → start + count ≤ length c.values
    → InRange c (range start count)
InRange-range c start zero h = tt
InRange-range c start (suc count) h = (omega arith, InRange-range c (suc start) count (omega arith))

choose :
    (null equal : Bool) (skip go_on : Result TruthValue) (t : TruthValue)
    → null ≡ false
    → (equal ≡ true → t ≡ TruthValue.true)
    → (equal ≡ false → go_on ≡ ok t)
    → (if null then skip else if equal then ok TruthValue.true else go_on) ≡ ok t
choose null equal skip go_on t n hit miss = ground arith

answer :
    (none_there empty null : Bool) (t : TruthValue) (scan : Result TruthValue)
    → none_there ≡ empty
    → scan ≡ ok t
    → (if none_there then ok TruthValue.false else if null then ok TruthValue.unknown else scan)
      ≡ ok (if empty then TruthValue.false else if null then TruthValue.unknown else t)
answer none_there empty null t scan e s = ground arith

or_true : (b : Bool) → b || true ≡ true
or_true true = refl
or_true false = refl

-- What an insertion does to a set of the type of `value`.
abbrev pub Inserts :
    {A : Type 0} (value : Cell) (cell : A → Cell)
    (insert : A → MaterializedValueSet → MaterializedValueSet)
    → A
    → MaterializedValueSet
    → Type 0
Inserts value cell insert v set =
    set.type ≡ value.type
    → (contains (insert v set) value ≡ (cell_eq value (cell v) || contains set value))
      × ((insert v set).has_null ≡ set.has_null)
      × ((insert v set).is_empty ≡ set.is_empty)
      × ((insert v set).type ≡ value.type)

module _ {A : Type 0} (insert : A → MaterializedValueSet → MaterializedValueSet) (cell : A → Cell)
    (null : Cell) (value : Cell) (result : ColumnarBatch) (name : Bytes) (c : Column A)
    (valid : IsValidColumn c) (null_member : null.is_null ≡ true)
    (plain_member : (v : A) → (cell v).is_null ≡ false)
    (reads_cell : (row : ℕ)
      → cell_at result name row
        ≡ and_then
            (is_null c row)
            (λ n. if n then ok null else and_then (value_at c row) (λ v. ok (cell v))))
    (inserts : (v : A) (set : MaterializedValueSet) → Inserts value cell insert v set)
    (has_null-contains : (set : MaterializedValueSet)
      → contains (record set { has_null = true }) value ≡ contains set value) where
  abbrev Filled : List ℕ → MaterializedValueSet → Type 0
  Filled rows set =
      (filled : MaterializedValueSet) × (fill_set insert c rows set ≡ ok filled)
      × (filled.is_empty ≡ set.is_empty)
      × (contains set value ≡ true → contains filled value ≡ true)
      × (contains set value ≡ false
          → in_rows value result name set.has_null rows ≡ ok (verdict filled value))

  null-Filled :
      (row : ℕ) (rows : List ℕ) (set : MaterializedValueSet)
      → is_null c row ≡ ok true
      → Filled rows (record set { has_null = true })
      → Filled (row ∷ rows) set
  unfolding fill_set in_rows
  null-Filled row rows set n (filled, runs, empty, kept, rest) = (
    filled,
    rw n runs,
    empty,
    λ h. kept (has_null-contains set ∙ h),
    λ h. rw (reads_cell row) (rw n (rw null_member (rest (has_null-contains set ∙ h)))),
  )

  in_step :
      (row : ℕ) (v : A) (rows : List ℕ) (has_null : Bool) (t : TruthValue)
      → is_null c row ≡ ok false
      → value_at c row ≡ ok v
      → (cell_eq value (cell v) ≡ true → t ≡ TruthValue.true)
      → (cell_eq value (cell v) ≡ false → in_rows value result name has_null rows ≡ ok t)
      → in_rows value result name has_null (row ∷ rows) ≡ ok t
  unfolding in_rows
  in_step row v rows has_null t n stored hit miss = rw (reads_cell row) (
      rw n (
        rw stored
          (choose (cell v).is_null (cell_eq value (cell v)) _ _ t (plain_member v) hit miss)))

  value-Filled :
      (row : ℕ) (v : A) (rows : List ℕ) (set : MaterializedValueSet)
      → is_null c row ≡ ok false
      → value_at c row ≡ ok v
      → set.type ≡ value.type
      → Filled rows (insert v set)
      → Filled (row ∷ rows) set
  unfolding fill_set
  value-Filled row v rows set n stored same_type (filled, runs, empty, kept, rest) =
      let (now, same, same_empty, _) = inserts v set same_type in
      (
        filled,
        rw n (rw stored runs),
        empty ∙ same_empty,
        λ h. kept (now ∙ rw h (or_true (cell_eq value (cell v)))),
        λ h.
            in_step row v rows set.has_null (verdict filled value) n stored
              (λ e. rw (kept (now ∙ rw e refl)) refl)
              (λ e. ap (λ b. in_rows value result name b rows) (sym same) ∙ rest (now ∙ rw e h)),
      )

  fill-Filled :
      (rows : List ℕ) (set : MaterializedValueSet)
      → InRange c rows
      → set.type ≡ value.type
      → Filled rows set
  unfolding fill_set in_rows
  fill-Filled [] set range t = (set, refl, refl, λ h. h, λ h. rw h refl)
  fill-Filled (row ∷ rows) set (lt, range) t =
      let r = reads c row lt valid in
      elim (Bool-cases r.null) [
        | inl e ↦
            null-Filled row rows set (r.is_null_checked ∙ ap (λ b. ok b) e)
              (fill-Filled rows (record set { has_null = true }) range t)
        | inr e ↦
            let (_, _, _, t') = inserts r.value set t in
            value-Filled row r.value rows set (r.is_null_checked ∙ ap (λ b. ok b) e) r.value_checked
              t (fill-Filled rows (insert r.value set) range t')
      ]

  -- The set of all rows, against IN over all rows.
  pub filled-evaluates :
      (rows : ℕ) (set : MaterializedValueSet)
      → rows ≤ length c.values
      → set.type ≡ value.type
      → set.is_empty ≡ (rows == 0)
      → set.has_null ≡ false
      → contains set value ≡ false
      → (filled : MaterializedValueSet) × (fill_set insert c (range 0 rows) set ≡ ok filled)
        × ((if rows == 0
              then ok TruthValue.false
              else if value.is_null
              then ok TruthValue.unknown
              else in_rows value result name false (range 0 rows))
            ≡ ok (evaluate_in_truth value filled))
  unfolding evaluate_in_truth
  filled-evaluates rows set le t e n h =
      let (filled, runs, empty, _, rest) =
        fill-Filled (range 0 rows) set (InRange-range c 0 rows (omega arith)) t in
      (
        filled,
        runs,
        answer (rows == 0) filled.is_empty value.is_null (verdict filled value) _ (sym (empty ∙ e))
            (ap (λ b. in_rows value result name b (range 0 rows)) (sym n) ∙ rest h),
      )
