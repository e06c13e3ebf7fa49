-- ===== src/Storage/FilterBatch.antt =====
-- filter on a whole batch: every column keeps the cells that the mask selects.
use vectorized_sql_engine.Base.{
  ℕ, suc, pos, ℤ, ◌≡◌, refl, sym, ◌∙◌, ap, Option, none, some, List, [], ◌∷◌, ◌++◌, append_assoc,
  append-nil, Bytes, length, ok, ◌==◌, if◌then◌else◌, arith,
}
use vectorized_sql_engine.Storage.Column.{Column, size, empty_column}
use vectorized_sql_engine.Storage.Cells.{IsValidColumn, cells, length-cells}
use vectorized_sql_engine.Storage.Batch.{
  AnyColumn, int64, string, ColumnarBatch, find_column, column_size, filter_any, filter_columns,
  filter_column,
}
use vectorized_sql_engine.Storage.FilterColumn.{select, filter_column-cells}
use vectorized_sql_engine.Storage.Valid.{
  keys, IsValidAny, AreValid, Fits, str_eq_sym, find_column-snoc, add_column-fresh, add_column-Fits,
}

-- The cells of a column of either type.
pub data Series : Type 0 where
  integers : List (Option ℤ) → Series
  texts : List (Option Bytes) → Series

abbrev pub series : AnyColumn → Series
series (int64 c) = integers (cells c)
series (string c) = texts (cells c)

-- The abstract view of a batch: its names with their cells, in order.
abbrev pub table_of : List (Bytes × AnyColumn) → List (Bytes × Series)
table_of [] = []
table_of ((key, c) ∷ rest) = (key, series c) ∷ table_of rest

abbrev pub view : ColumnarBatch → List (Bytes × Series)
view b = table_of b.columns

abbrev pub select_series : List ℕ → Series → Series
select_series mask (integers xs) = integers (select mask xs)
select_series mask (texts xs) = texts (select mask xs)

abbrev pub select_table : List ℕ → List (Bytes × Series) → List (Bytes × Series)
select_table mask [] = []
select_table mask ((key, s) ∷ rest) = (key, select_series mask s) ∷ select_table mask rest

-- How many rows the mask keeps.
abbrev pub kept : List ℕ → ℕ
kept [] = 0
kept (keep ∷ mask) = if keep == 0 then kept mask else suc (kept mask)

length-select {ℓ} :
    {A : Type ℓ} (mask : List ℕ) (xs : List A)
    → length mask ≡ length xs
    → length (select mask xs) ≡ kept mask
length-select [] xs h = refl
length-select (k ∷ mask) [] h = absurd (omega arith)
length-select (k ∷ mask) (x ∷ xs) h = ground (arith, length-select mask xs (omega arith))

filter_typed :
    {A : Type 0} (null_value : A) (mask : List ℕ) (c : Column A)
    → IsValidColumn c
    → size c ≡ length mask
    → (f : Column A) × (filter_column null_value c mask 0 empty_column ≡ ok f)
      × IsValidColumn f
      × (cells f ≡ select mask (cells c))
      × (size f ≡ kept mask)
filter_typed null_value mask c v s =
    let (f, r, w, e) = filter_column-cells null_value c v mask 0 empty_column (omega arith) tt in
    (
      f,
      r,
      w,
      e,
      sym (length-cells f w)
          ∙ ap length e
          ∙ length-select mask (cells c) (omega (arith, length-cells c v)),
    )

filter_any-series :
    (mask : List ℕ) (c : AnyColumn)
    → IsValidAny c
    → column_size c ≡ length mask
    → (f : AnyColumn) × (filter_any mask c ≡ ok f)
      × IsValidAny f
      × (series f ≡ select_series mask (series c))
      × (column_size f ≡ kept mask)
unfolding filter_any column_size
filter_any-series mask (int64 c) v s =
    let (f, r, w, e, n) = filter_typed (pos 0) mask c v s in
    (int64 f, rw r refl, w, ap integers e, n)
filter_any-series mask (string c) v s =
    let (f, r, w, e, n) = filter_typed [] mask c v s in (string f, rw r refl, w, ap texts e, n)

-- Every column of `todo` is found in `columns`, and is new to `out`.
abbrev pub AreSources :
    List (Bytes × AnyColumn) → List (Bytes × AnyColumn) → List (Bytes × AnyColumn) → Type 0
AreSources columns [] out = Unit {0}
AreSources columns ((key, c) ∷ todo) out =
    (find_column key columns ≡ some c) × (find_column key out ≡ none) × AreSources columns todo out

-- Adding a column of another name leaves the columns still to come new.
AreSources-snoc :
    (columns todo out : List (Bytes × AnyColumn)) (key : Bytes) (c : AnyColumn)
    → AreSources columns todo out
    → find_column key todo ≡ none
    → AreSources columns todo (out ++ (key, c) ∷ [])
unfolding find_column
AreSources-snoc columns [] out key c h n = tt
AreSources-snoc columns ((k, d) ∷ todo) out key c (f, g, h) n = (
  f,
  find_column-snoc k key c out ∙ rw g (ground (arith, str_eq_sym k key)),
  AreSources-snoc columns todo out key c h (ground arith),
)

pub table_of-snoc :
    (cs : List (Bytes × AnyColumn)) (key : Bytes) (c : AnyColumn)
    → table_of (cs ++ (key, c) ∷ []) ≡ table_of cs ++ (key, series c) ∷ []
table_of-snoc [] key c = refl
table_of-snoc ((k, d) ∷ cs) key c = ap (◌∷◌ (k, series d)) (table_of-snoc cs key c)

pub filter_columns-view :
    (mask : List ℕ) (columns todo : List (Bytes × AnyColumn)) (out : ColumnarBatch)
    → AreValid (length mask) todo
    → AreSources columns todo out.columns
    → Fits (kept mask) out
    → (out' : ColumnarBatch) × (filter_columns mask columns (keys todo) out ≡ ok out')
      × Fits (kept mask) out'
      × (view out' ≡ view out ++ select_table mask (table_of todo))
unfolding filter_columns
filter_columns-view mask columns [] out v h fits = (out, refl, fits, sym (append-nil (view out)))
filter_columns-view mask columns ((key, c) ∷ todo) out (vc, sc, fresh, v) (here, new, h) fits =
    let (f, r, w, e, n) = filter_any-series mask c vc sc in
    let (out', r', fits', e') =
      filter_columns-view mask columns todo
        (record {
          columns = out.columns ++ (key, f) ∷ [];
          column_names = out.column_names ++ key ∷ [];
        })
        v (AreSources-snoc columns todo out.columns key f h fresh)
        (add_column-Fits (kept mask) out key f fits w n new) in
    (
      out',
      rw (here, r, add_column-fresh (kept mask) out key f fits n new) r',
      fits',
      e'
          ∙ rw (table_of-snoc out.columns key f, e)
              (append_assoc (view out) ((key, select_series mask (series c)) ∷ [])
                (select_table mask (table_of todo))),
    )
