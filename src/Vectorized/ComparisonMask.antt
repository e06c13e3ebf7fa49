-- ===== src/Vectorized/ComparisonMask.antt =====
-- src/execution/vectorized.cpp: the mask of a comparison against the truth value on each row.
use vectorized_sql_engine.Base.{
  ℕ, String, ◌≡◌, refl, ap, ap₂, sym, ◌∙◌, ◌<◌, Bool, true, false, not, ◌&&◌, Option, none, some,
  List, length, Result, ok, if◌then◌else◌, and_then,
}
use vectorized_sql_engine.Sql.Ast.{ComparisonOp}
use vectorized_sql_engine.Execution.Cell.{Cell, null_cell}
use vectorized_sql_engine.Execution.Truth.{TruthValue, truth_from_bool}
use vectorized_sql_engine.Vectorized.Scalars.{
  CompiledScalar, has_values, value_or, scalar_has_column, scalar_is_always_null,
  scalar_can_be_null, scalar_is_null, scalar_cell,
}
use vectorized_sql_engine.Vectorized.Predicates.{
  CompiledComparison, compare_cells, evaluate_comparison,
}
use vectorized_sql_engine.Vectorized.Masks.{
  known_at, write_position, comparison_rows, comparison_mask_with, PredicateEvaluationDomain,
  domain_rows, domain_size, bit, byte_and,
}
use vectorized_sql_engine.Vectorized.MaskOf.{Agrees, true_bit, known_bit, AllBelow, write-Agrees}
use vectorized_sql_engine.Vectorized.RowReads.{Readable, never_null-row, always_null-row}
use vectorized_sql_engine.Vectorized.MaskBits.{
  pair_truth, pair_bits, pair_always, chosen, unknown_right, known_both, no_values,
  literal-never_null, bool_bit, bool_known, neither, no_columns, constant_on, if-elim,
}

module _ {A : Type 0} (values : CompiledScalar → Option (List A)) (literal : CompiledScalar → A)
    (inject : A → Cell) (op : ComparisonOp) (compare : A → A → Bool) (impossible : String)
    (inject-plain : (x : A) → (inject x).is_null ≡ false)
    (compares : (x y : A) → compare_cells (inject x) op (inject y) ≡ ok (compare x y))
    (l r : CompiledScalar) (n : ℕ) (l_reads : Readable values literal inject n l)
    (r_reads : Readable values literal inject n r) where
  abbrev compiled : CompiledComparison CompiledScalar
  compiled = record { left = l; op = op; right = r }

  abbrev at_row : ℕ → Result TruthValue
  at_row row = evaluate_comparison (λ s. scalar_is_null s row) (λ s. scalar_cell s row) compiled

  compared_plain :
      (a b : Cell) (compared : Bool)
      → a.is_null ≡ false
      → b.is_null ≡ false
      → compare_cells a op b ≡ ok compared
      → (if a.is_null
          then ok TruthValue.unknown
          else if b.is_null
          then ok TruthValue.unknown
          else and_then (compare_cells a op b) (λ t. ok (truth_from_bool t)))
        ≡ ok (truth_from_bool compared)
  compared_plain a b compared h k e =
      chosen a.is_null b.is_null compared (compare_cells a op b) h k e

  compared_cells :
      (l_null r_null : Bool) (x y : A) (cl cr : Result Cell)
      → cl ≡ ok (if l_null then null_cell l.type else inject x)
      → cr ≡ ok (if r_null then null_cell r.type else inject y)
      → and_then cl (λ a. and_then cr (λ b.
        if a.is_null
        then ok TruthValue.unknown
        else if b.is_null
        then ok TruthValue.unknown
        else and_then (compare_cells a op b) (λ t. ok (truth_from_bool t))))
        ≡ ok (pair_truth l_null r_null (compare x y))
  compared_cells true r_null x y cl cr h k = rw h (rw k refl)
  compared_cells false true x y cl cr h k = rw h (rw k (unknown_right (inject x).is_null))
  compared_cells false false x y cl cr h k = rw h (
      rw k (
        compared_plain (inject x) (inject y) (compare x y) (inject-plain x) (inject-plain y)
          (compares x y)))

  truth_at :
      (row : ℕ) (lt : row < n)
      → let a = l_reads.on row lt in
        let b = r_reads.on row lt in
        at_row row ≡ ok (pair_truth a.null b.null (compare a.value b.value))
  unfolding evaluate_comparison
  truth_at row lt =
      let a = l_reads.on row lt in
      let b = r_reads.on row lt in compared_cells a.null b.null a.value b.value _ _ a.cell b.cell

  known_row :
      (row : ℕ) (l_null r_null l_can r_can : Bool)
      → scalar_is_null l row ≡ ok l_null
      → scalar_is_null r row ≡ ok r_null
      → (l_can ≡ false → l_null ≡ false)
      → (r_can ≡ false → r_null ≡ false)
      → known_at (if l_can then true else r_can) l r row ≡ ok (bit (not l_null && not r_null))
  known_row row l_null r_null true r_can h k a b = known_both row l r l_null r_null h k
  known_row row l_null r_null false true h k a b = known_both row l r l_null r_null h k
  known_row row l_null r_null false false h k a b = rw (a refl) (rw (b refl) refl)

  bits_at :
      (row : ℕ) (lt : row < n)
      → let a = l_reads.on row lt in
        let b = r_reads.on row lt in
        write_position values literal compare impossible l r row a.value b.value
        ≡ ok (
          true_bit (pair_truth a.null b.null (compare a.value b.value)),
          known_bit (pair_truth a.null b.null (compare a.value b.value)),
        )
  bits_at row lt =
      let a = l_reads.on row lt in
      let b = r_reads.on row lt in
      ap (λ m. and_then m (λ known. ok (byte_and known (bit (compare a.value b.value)), known)))
        (known_row row a.null b.null (scalar_can_be_null l) (scalar_can_be_null r) a.is_null
          b.is_null (never_null-row l row a.null a.is_null) (never_null-row r row b.null b.is_null))
      ∙ ap (λ bits. ok bits) (pair_bits a.null b.null (compare a.value b.value))

  -- One row, whichever of the operands have columns.
  row_agrees :
      (l_values r_values : Option (List A)) (row : ℕ)
      → values l ≡ l_values
      → values r ≡ r_values
      → row < n
      → (t : TruthValue) × (at_row row ≡ ok t)
        × (and_then (value_or l_values (literal l) row) (λ x.
              and_then
                (value_or r_values (literal r) row)
                (λ y. write_position values literal compare impossible l r row x y))
            ≡ ok (true_bit t, known_bit t))
  row_agrees l_values r_values row h k lt =
      let a = l_reads.on row lt in
      let b = r_reads.on row lt in
      (
        pair_truth a.null b.null (compare a.value b.value),
        truth_at row lt,
        ap
              (λ m. and_then m (λ x.
                and_then (value_or r_values (literal r) row)
                  (λ y. write_position values literal compare impossible l r row x y)))
              (ap (λ o. value_or o (literal l) row) (sym h) ∙ a.read)
            ∙ ap
                (λ m.
                  and_then m
                    (λ y. write_position values literal compare impossible l r row a.value y))
                (ap (λ o. value_or o (literal r) row) (sym k) ∙ b.read)
            ∙ bits_at row lt,
      )

  shapes_agree :
      (l_values r_values : Option (List A)) (rows : List ℕ)
      → values l ≡ l_values
      → values r ≡ r_values
      → (not (has_values l_values) && not (has_values r_values)) ≡ false
      → AllBelow n rows
      → Agrees at_row rows
          (comparison_rows values literal compare impossible l r l_values r_values rows)
  shapes_agree (some xs) (some ys) rows h k some_column below =
      write-Agrees at_row n _ rows (λ row. row_agrees (some xs) (some ys) row h k) below
  shapes_agree (some xs) none rows h k some_column below =
      write-Agrees at_row n _ rows (λ row. row_agrees (some xs) none row h k) below
  shapes_agree none (some ys) rows h k some_column below =
      write-Agrees at_row n _ rows (λ row. row_agrees none (some ys) row h k) below
  shapes_agree none none rows h k some_column below = absurd (cc some_column)

  always_unknown :
      (row : ℕ)
      → (if scalar_is_always_null l then true else scalar_is_always_null r) ≡ true
      → row < n
      → at_row row ≡ ok TruthValue.unknown
  always_unknown row h lt =
      let a = l_reads.on row lt in
      let b = r_reads.on row lt in
      truth_at row lt
      ∙ ap (λ t. ok t)
          (pair_always a.null b.null (compare a.value b.value) (scalar_is_always_null l)
            (scalar_is_always_null r) (always_null-row l row a.null a.is_null)
            (always_null-row r row b.null b.is_null) h)

  literals_at :
      (row : ℕ)
      → scalar_has_column l ≡ false
      → scalar_has_column r ≡ false
      → scalar_is_always_null l ≡ false
      → scalar_is_always_null r ≡ false
      → row < n
      → at_row row ≡ ok (truth_from_bool (compare (literal l) (literal r)))
  literals_at row hl hr nl nr lt =
      let a = l_reads.on row lt in
      let b = r_reads.on row lt in
      truth_at row lt
      ∙ ap (λ t. ok t)
          (rw (never_null-row l row a.null a.is_null (literal-never_null l hl nl)) (
            rw (never_null-row r row b.null b.is_null (literal-never_null r hr nr)) (
              rw (no_values (values l) (literal l) a.value row (sym l_reads.has ∙ hl) a.read) (
                rw (no_values (values r) (literal r) b.value row (sym r_reads.has ∙ hr) b.read)
                  refl))))

  pub comparison_mask_with-Agrees :
      (domain : PredicateEvaluationDomain)
      → length (domain_rows domain) ≡ domain_size domain
      → AllBelow n (domain_rows domain)
      → Agrees at_row
          (domain_rows domain)
          (comparison_mask_with values literal compare impossible l r domain)
  unfolding comparison_mask_with
  comparison_mask_with-Agrees domain sized below =
      let rows = domain_rows domain in
      if-elim (Agrees at_row rows) _ _ _
        (λ always.
          constant_on at_row n TruthValue.unknown 0 0 rows (domain_size domain) refl refl sized
            (λ row. always_unknown row always) below)
        (λ sometimes.
          let (nl, nr) = neither (scalar_is_always_null l) (scalar_is_always_null r) sometimes in
          if-elim (Agrees at_row rows) _ _ _
            (λ literals.
              let (hl, hr) = no_columns (scalar_has_column l) (scalar_has_column r) literals in
              let compared = compare (literal l) (literal r) in
              constant_on at_row n (truth_from_bool compared) (bit compared) 1 rows
                (domain_size domain) (bool_bit compared) (bool_known compared) sized
                (λ row. literals_at row hl hr nl nr) below)
            (λ some_column.
              shapes_agree (values l) (values r) rows refl refl
                (ap₂ (λ x y. not x && not y) (sym l_reads.has) (sym r_reads.has) ∙ some_column)
                below))
