-- ===== src/Storage/FilterColumn.antt =====
-- The filter loop of one column selects the column's cells by the mask.
use vectorized_sql_engine.Base.{
  ℕ, zero, suc, ◌+◌, ◌<◌, ◌≡◌, refl, sym, ◌∙◌, true, false, Option, none, some, List, [], ◌∷◌, ◌++◌,
  append_assoc, append-nil, length, drop, ok, at, ◌==◌, if◌then◌else◌, arith, Bool-cases, inl, inr,
}
use vectorized_sql_engine.Storage.Column.{Column, append, append_null, size, value_at, is_null}
use vectorized_sql_engine.Storage.Cells.{
  IsValidColumn, cells, cells-append, cells-append_null, length-cells, read, read-cells,
}
use vectorized_sql_engine.Storage.Batch.{keep_row, filter_column}

-- The entries at which the mask is not 0.
abbrev pub select {ℓ} : {A : Type ℓ} → List ℕ → List A → List A
select (keep ∷ mask) (x ∷ xs) = if keep == 0 then select mask xs else x ∷ select mask xs
select mask xs = []

pub at-drop {ℓ} :
    {A : Type ℓ} (xs : List A) (i : ℕ)
    → i < length xs
    → (x : A) × (at xs i ≡ ok x) × (drop i xs ≡ x ∷ drop (suc i) xs)
at-drop [] i h = elim h [ ]
at-drop (x ∷ xs) zero h = (x, refl, refl)
at-drop (x ∷ xs) (suc i) h = at-drop xs i (omega arith)

module _ {A : Type 0} where
  pub read-none : (c : Column A) (row : ℕ) → read c row ≡ ok none → is_null c row ≡ ok true
  read-none c row h = ground arith

  pub read-some :
      (c : Column A) (row : ℕ) (v : A)
      → read c row ≡ ok (some v)
      → (is_null c row ≡ ok false) × (value_at c row ≡ ok v)
  read-some c row v h = ground arith

module _ {A : Type 0} (null_value : A) (source : Column A) (valid : IsValidColumn source) where
  -- What one kept row adds.
  keep_row-cells :
      (i : ℕ) (filtered : Column A) (x : Option A)
      → at (cells source) i ≡ ok x
      → IsValidColumn filtered
      → (f : Column A) × (keep_row null_value source i filtered ≡ ok f)
        × IsValidColumn f
        × (cells f ≡ cells filtered ++ x ∷ [])
  keep_row-cells i filtered none e v =
      let there = read-none source i (read-cells source i valid ∙ e) in
      let (ok_f, cs) = cells-append_null filtered null_value v in
      (append_null null_value filtered, rw there refl, ok_f, cs)
  keep_row-cells i filtered (some w) e v =
      let there = read-some source i w (read-cells source i valid ∙ e) in
      let (ok_f, cs) = cells-append filtered w v in
      (append w filtered, rw (there.0, there.1) refl, ok_f, cs)

  pub filter_column-cells :
      (mask : List ℕ) (i : ℕ) (filtered : Column A)
      → length mask + i ≡ size source
      → IsValidColumn filtered
      → (f : Column A) × (filter_column null_value source mask i filtered ≡ ok f)
        × IsValidColumn f
        × (cells f ≡ cells filtered ++ select mask (drop i (cells source)))
  unfolding filter_column
  filter_column-cells [] i filtered h v = (filtered, refl, v, sym (append-nil (cells filtered)))
  filter_column-cells (keep ∷ mask) i filtered h v =
      let (x, e, d) = at-drop (cells source) i (omega (arith, length-cells source valid)) in
      elim (Bool-cases (keep == 0)) [
        | inl skip ↦
            let (f, r, v', c) = filter_column-cells mask (suc i) filtered (omega arith) v in
            (f, rw skip r, v', c ∙ rw (d, skip) refl)
        | inr kept ↦
            let (g, r, w, c) = keep_row-cells i filtered x e v in
            let (f, r', v', c') = filter_column-cells mask (suc i) g (omega arith) w in
            (
              f,
              rw (kept, r) r',
              v',
              c'
                  ∙ rw (c, d, kept)
                      (append_assoc (cells filtered) (x ∷ [])
                        (select mask (drop (suc i) (cells source)))),
            )
      ]
