-- ===== src/Execution/Rows/FirstRows.antt =====
-- src/execution/interpreter.cpp: which rows execute_distinct keeps.
use vectorized_sql_engine.Base.{
  ℕ, ◌≡◌, refl, ◌∙◌, ap, Bool, true, false, not, ◌||◌, List, [], ◌∷◌, any, Result, ok,
  if◌then◌else◌, arith, Bool-cases, inl, inr, IsStrictWeakOrder,
}
use vectorized_sql_engine.Execution.Cell.{Cell, row_lt, row_eq}
use vectorized_sql_engine.Execution.Cell.Order.{row-IsStrictWeakOrder}
use vectorized_sql_engine.Execution.Rows.{find_key, is_none, first_rows}

abbrev order : IsStrictWeakOrder row_lt row_eq
order = row-IsStrictWeakOrder

-- A std::map finds a key exactly if it has an equal one.
is_none-find_key :
    (key : List Cell) (seen : List (List Cell × Bool))
    → is_none (find_key key seen) ≡ not (any (λ (e : List Cell × Bool). row_eq e.0 key) seen)
unfolding find_key
is_none-find_key key [] = refl
is_none-find_key key ((k, v) ∷ seen) = ground (
  arith,
  is_none-find_key key seen,
  order.eq_iff_incomparable k key,
  order.lt-ne k key,
  order.eq_sym k key,
  order.lt-ne key k,
)

any_trans :
    (r k : List Cell) (seen : List (List Cell × Bool))
    → any (λ (e : List Cell × Bool). row_eq e.0 r) seen ≡ true
    → row_eq r k ≡ true
    → any (λ (e : List Cell × Bool). row_eq e.0 k) seen ≡ true
any_trans r k [] h e = h
any_trans r k ((s, v) ∷ seen) h e = ground (arith, any_trans r k seen, order.eq_trans s r k)

module _ (values : ℕ → Result (List Cell)) (key : ℕ → List Cell) where
  -- The values of each of the rows can be read.
  abbrev pub Keys : List ℕ → Type 0
  Keys [] = Unit
  Keys (row ∷ rows) = (values row ≡ ok (key row)) × Keys rows

  abbrev pub occurs : ℕ → List ℕ → Bool
  occurs row earlier = any (λ e. row_eq (key e) (key row)) earlier

  -- The rows with values that no earlier row has.
  abbrev pub new_rows : List ℕ → List ℕ → List ℕ
  new_rows earlier [] = []
  new_rows earlier (row ∷ rows) =
      if occurs row earlier
      then new_rows (row ∷ earlier) rows
      else row ∷ new_rows (row ∷ earlier) rows

  -- `seen` has the values of the earlier rows.
  abbrev Sees : List (List Cell × Bool) → List ℕ → Type 0
  Sees seen earlier =
      (k : List Cell)
      → any (λ (e : List Cell × Bool). row_eq e.0 k) seen ≡ any (λ e. row_eq (key e) k) earlier

  Sees-old :
      (row : ℕ) (seen : List (List Cell × Bool)) (earlier : List ℕ)
      → Sees seen earlier
      → occurs row earlier ≡ true
      → Sees seen (row ∷ earlier)
  Sees-old row seen earlier s h k = ground (arith, s k, s (key row), any_trans (key row) k seen)

  first_rows-new_rows :
      (rows : List ℕ) (seen : List (List Cell × Bool)) (earlier : List ℕ)
      → Keys rows
      → Sees seen earlier
      → first_rows values rows seen ≡ ok (new_rows earlier rows)
  unfolding first_rows
  first_rows-new_rows [] seen earlier ks s = refl
  first_rows-new_rows (row ∷ rows) seen earlier (v, ks) s = elim (Bool-cases (occurs row earlier)) [
    | inl old ↦
        let known : is_none (find_key (key row) seen) ≡ false =
          is_none-find_key (key row) seen ∙ ground (arith, s (key row)) in
        rw v (
          rw (known, old)
            (rw (first_rows-new_rows rows seen (row ∷ earlier) ks (Sees-old row seen earlier s old))
              refl))
    | inr new ↦
        let unknown : is_none (find_key (key row) seen) ≡ true =
          is_none-find_key (key row) seen ∙ ground (arith, s (key row)) in
        rw v (
          rw (unknown, new)
            (rw
              (first_rows-new_rows rows ((key row, true) ∷ seen) (row ∷ earlier) ks
                (λ k. ap (λ b. row_eq (key row) k || b) (s k)))
              refl))
  ]

  -- DISTINCT keeps, in their order, exactly the rows whose values no earlier row has, NULLs of one
  -- type being equal; every row's values can be read.
  pub first_rows_lem :
      (rows : List ℕ) → Keys rows → first_rows values rows [] ≡ ok (new_rows [] rows)
  first_rows_lem rows ks = first_rows-new_rows rows [] [] ks (λ k. refl)
