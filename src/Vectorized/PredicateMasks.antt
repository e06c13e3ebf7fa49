-- ===== src/Vectorized/PredicateMasks.antt =====
-- src/execution/vectorized.cpp: the mask of a predicate against its truth value on each row.
use vectorized_sql_engine.Base.{
  ℕ, subst, ◌≡◌, refl, ap, ap₂, sym, ◌∙◌, Bool, true, false, not, length, Result, ok, arith,
  if◌then◌else◌, and_then,
}
use vectorized_sql_engine.Catalog.{ColumnType, int64, string}
use vectorized_sql_engine.Execution.Cell.{Cell, int64_cell, string_cell, type_eq}
use vectorized_sql_engine.Execution.Truth.{TruthValue, truth_from_bool, not_truth}
use vectorized_sql_engine.Vectorized.Cells.{MaterializedValueSet, contains, evaluate_in_truth}
use vectorized_sql_engine.Vectorized.Scalars.{
  CompiledScalar, scalar_can_be_null, scalar_is_null, scalar_cell,
}
use vectorized_sql_engine.Vectorized.Predicates.{
  CompiledComparison, CompiledPredicate, compare_int_values, compare_string_values, compare_cells,
  evaluate_with,
}
use vectorized_sql_engine.Vectorized.Masks.{
  comparison_mask_with, int_shape, string_shape, PredicateEvaluationDomain, domain_rows,
  domain_size, bit, evaluate_comparison_mask, evaluate_null_check_mask, evaluate_in_mask, in_flags,
  in_bits,
}
use vectorized_sql_engine.Vectorized.MaskOf.{Agrees, true_bit, known_bit, AllBelow, write-Agrees}
use vectorized_sql_engine.Vectorized.RowReads.{
  ReadableAs, IsReadable, reads_on, never_null-row, always_null-row,
}
use vectorized_sql_engine.Vectorized.MaskBits.{bool_bit, bool_known, constant_on, if-elim}
use vectorized_sql_engine.Vectorized.ComparisonMask.{comparison_mask_with-Agrees}

type_eq→eq : (a b : ColumnType) → type_eq a b ≡ true → a ≡ b
type_eq→eq a b h = ground arith

apart : (b : Bool) → not b ≡ true → b ≡ true → ⊥
apart true h k = cc h
apart false h k = cc k

-- The truth value of a compiled predicate on a row of the batch.
abbrev pub truth_on : CompiledPredicate CompiledScalar → ℕ → Result TruthValue
truth_on p row = evaluate_with (λ s. scalar_is_null s row) (λ s. scalar_cell s row) p

-- What the null check makes of a scalar's `is_null`.
abbrev checked : Bool → Result Bool → Result TruthValue
checked is_not_null m =
    and_then m (λ null. ok (truth_from_bool (if is_not_null then not null else null)))

abbrev null_truth : CompiledScalar → Bool → ℕ → Result TruthValue
null_truth s is_not_null row = checked is_not_null (scalar_is_null s row)

not-true : (b : Bool) → not b ≡ true → b ≡ false
not-true b h = ground arith

pick_false : (b : Bool) → (if b then not false else false) ≡ b
pick_false true = refl
pick_false false = refl

pick_true : (b : Bool) → (if b then not true else true) ≡ not b
pick_true true = refl
pick_true false = refl

in_bits-truth :
    (value : Cell) (set : MaterializedValueSet) (negate : Bool)
    → let t = evaluate_in_truth value set in
      let u = if negate then not_truth t else t in
      ◌≡◌ {A = ℕ × ℕ} (in_bits negate (in_flags value set)) (true_bit u, known_bit u)
unfolding evaluate_in_truth
in_bits-truth value set negate =
    flags set.is_empty value.is_null (contains set value) set.has_null negate
  where
    flags :
        (empty null hit has_null negate : Bool)
        → let t =
            if empty
            then TruthValue.false
            else if null
            then TruthValue.unknown
            else if hit
            then TruthValue.true
            else if has_null
            then TruthValue.unknown
            else TruthValue.false in
          let u = if negate then not_truth t else t in
          ◌≡◌ {A = ℕ × ℕ}
            (in_bits negate (
              if empty
              then (false, true)
              else if null
              then (false, false)
              else if hit
              then (true, true)
              else if has_null
              then (false, false)
              else (false, true)))
            (true_bit u, known_bit u)
    flags true null hit has_null true = refl
    flags true null hit has_null false = refl
    flags false true hit has_null true = refl
    flags false true hit has_null false = refl
    flags false false true has_null true = refl
    flags false false true has_null false = refl
    flags false false false true true = refl
    flags false false false true false = refl
    flags false false false false true = refl
    flags false false false false false = refl

abbrev in_truth : CompiledScalar → MaterializedValueSet → Bool → ℕ → Result TruthValue
in_truth s set negate row =
    and_then (scalar_cell s row)
      (λ v. let t = evaluate_in_truth v set in ok (if negate then not_truth t else t))

module _ (n : ℕ) (domain : PredicateEvaluationDomain)
    (sized : length (domain_rows domain) ≡ domain_size domain)
    (below : AllBelow n (domain_rows domain)) where
  typed-Agrees :
      (type : ColumnType) (c : CompiledComparison CompiledScalar)
      → ReadableAs type n c.left
      → ReadableAs type n c.right
      → Agrees (truth_on (CompiledPredicate.comparison c)) (domain_rows domain) (elim type [
        | int64 ↦
            comparison_mask_with
              (λ s. s.column_int_values)
              (λ s. s.literal)
              (λ x y. compare_int_values x c.op y)
              int_shape
              c.left
              c.right
              domain
        | string ↦
            comparison_mask_with
              (λ s. s.column_string_values)
              (λ s. s.string_literal)
              (λ x y. compare_string_values x c.op y)
              string_shape
              c.left
              c.right
              domain
      ])
  unfolding evaluate_with
  typed-Agrees int64 c l r =
      comparison_mask_with-Agrees (λ s. s.column_int_values) (λ s. s.literal) int64_cell c.op
        (λ x y. compare_int_values x c.op y) int_shape (λ x. refl)
        (λ x y. unfold compare_cells in refl) c.left c.right n l r domain sized below
  typed-Agrees string c l r =
      comparison_mask_with-Agrees (λ s. s.column_string_values) (λ s. s.string_literal) string_cell
        c.op (λ x y. compare_string_values x c.op y) string_shape (λ x. refl)
        (λ x y. unfold compare_cells in refl) c.left c.right n l r domain sized below

  pub comparison-Agrees :
      (c : CompiledComparison CompiledScalar)
      → IsReadable n c.left
      → IsReadable n c.right
      → type_eq (c.left).type (c.right).type ≡ true
      → Agrees
          (truth_on (CompiledPredicate.comparison c))
          (domain_rows domain)
          (evaluate_comparison_mask c domain)
  unfolding evaluate_comparison_mask
  comparison-Agrees c l r same =
      if-elim (Agrees (truth_on (CompiledPredicate.comparison c)) (domain_rows domain))
        (not (type_eq (c.left).type (c.right).type)) _ _
        (λ differ. absurd (apart (type_eq (c.left).type (c.right).type) differ same))
        (λ _. typed-Agrees (c.left).type c l (
          subst (λ t. ReadableAs t n c.right) (sym (type_eq→eq (c.left).type (c.right).type same))
            r))

  pub null_check-Agrees :
      (s : CompiledScalar) (is_not_null : Bool)
      → IsReadable n s
      → Agrees
          (null_truth s is_not_null)
          (domain_rows domain)
          (evaluate_null_check_mask s domain is_not_null)
  unfolding evaluate_null_check_mask
  null_check-Agrees s is_not_null h =
      let rows = domain_rows domain in
      if-elim (Agrees (null_truth s is_not_null) rows) _ _ _
        (λ never.
          constant_on (null_truth s is_not_null) n (truth_from_bool is_not_null) (bit is_not_null) 1
            rows (domain_size domain) (bool_bit is_not_null) (bool_known is_not_null) sized
            (λ row lt.
              let (null, _, e, _) = reads_on s.type n s row h lt in
              ap (λ m. checked is_not_null m) e
              ∙ ap (λ b. ok (truth_from_bool (if is_not_null then not b else b)))
                  (never_null-row s row null e (not-true (scalar_can_be_null s) never))
              ∙ ap (λ b. ok (truth_from_bool b)) (pick_false is_not_null))
            below)
        (λ sometimes.
          if-elim (Agrees (null_truth s is_not_null) rows) _ _ _
            (λ always.
              constant_on (null_truth s is_not_null) n (truth_from_bool (not is_not_null))
                (bit (not is_not_null)) 1 rows (domain_size domain) (bool_bit (not is_not_null))
                (bool_known (not is_not_null)) sized
                (λ row lt.
                  let (null, _, e, _) = reads_on s.type n s row h lt in
                  ap (λ m. checked is_not_null m) e
                  ∙ ap (λ b. ok (truth_from_bool (if is_not_null then not b else b)))
                      (always_null-row s row null e always)
                  ∙ ap (λ b. ok (truth_from_bool b)) (pick_true is_not_null))
                below)
            (λ _.
              write-Agrees (null_truth s is_not_null) n _ rows
                (λ row lt.
                  let (null, _, e, _) = reads_on s.type n s row h lt in
                  let b = if is_not_null then not null else null in
                  (
                    truth_from_bool b,
                    ap (λ m. checked is_not_null m) e,
                    ap (λ m. and_then m (λ x. ok (bit (if is_not_null then not x else x), 1))) e
                        ∙ ap₂ (λ x y. ok (x, y)) (sym (bool_bit b)) (sym (bool_known b)),
                  ))
                below))

  pub in-Agrees :
      (s : CompiledScalar) (set : MaterializedValueSet) (negate : Bool)
      → IsReadable n s
      → Agrees (in_truth s set negate) (domain_rows domain) (evaluate_in_mask s set domain negate)
  unfolding evaluate_in_mask
  in-Agrees s set negate h =
      write-Agrees (in_truth s set negate) n _ (domain_rows domain)
        (λ row lt.
          let (_, v, _, e) = reads_on s.type n s row h lt in
          let t = evaluate_in_truth v set in
          (
            if negate then not_truth t else t,
            ap
                (λ m.
                  and_then m (λ x.
                    let u = evaluate_in_truth x set in ok (if negate then not_truth u else u)))
                e,
            ap (λ m. and_then m (λ x. ok (in_bits negate (in_flags x set)))) e
                ∙ ap (λ x. ok x) (in_bits-truth v set negate),
          ))
        below
