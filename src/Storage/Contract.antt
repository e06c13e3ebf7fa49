-- ===== src/Storage/Contract.antt =====
-- What add_column, filter and equals_i64 promise of a valid batch.
use vectorized_sql_engine.Base.{
  ℕ, zero, suc, ℤ, ◌+◌, ◌≡◌, ◌≢◌, refl, sym, ◌∙◌, false, not, ◌&&◌, Option, none, some, List, [],
  ◌∷◌, ◌++◌, map, Bytes, str_eq_refl, eqb_ℤ, length, drop, drop-all, ok, throw, Exception, ◌==◌,
  if◌then◌else◌, arith, subst, ==_iff, Bool-cases, inl, inr,
}
use vectorized_sql_engine.Storage.Column.{Column, size}
use vectorized_sql_engine.Storage.Cells.{IsValidColumn, cells, read, read-cells, length-cells}
use vectorized_sql_engine.Storage.Batch.{
  AnyColumn, ColumnarBatch, empty_batch, find_column, column_size, row_count, has_column,
  add_column, filter, column, equals_rows, equals_i64, is_empty,
}
use vectorized_sql_engine.Storage.FilterColumn.{at-drop, read-none, read-some}
use vectorized_sql_engine.Storage.Valid.{
  keys, IsValidAny, AreValid, Fits, str_eq_sym, find_column-none, IsValidBatch, add_column-Fits,
  row_count-Fits,
}
use vectorized_sql_engine.Storage.FilterBatch.{
  Series, series, table_of, view, select_table, kept, AreSources, filter_columns-view,
  table_of-snoc,
}

AreSources-cons :
    (key : Bytes) (c : AnyColumn) (columns todo : List (Bytes × AnyColumn))
    → find_column key todo ≡ none
    → AreSources columns todo []
    → AreSources ((key, c) ∷ columns) todo []
unfolding find_column
AreSources-cons key c columns [] n h = tt
AreSources-cons key c columns ((k, d) ∷ todo) n (f, g, h) =
    let (other, n') = find_column-none key k d todo n in
    (rw (str_eq_sym k key other) f, g, AreSources-cons key c columns todo n' h)

AreSources-self :
    (rows : ℕ) (columns : List (Bytes × AnyColumn))
    → AreValid rows columns
    → AreSources columns columns []
unfolding find_column
AreSources-self rows [] v = tt
AreSources-self rows ((k, c) ∷ cs) (vc, sc, fresh, v) =
    (rw (str_eq_refl k) refl, refl, AreSources-cons k c cs cs fresh (AreSources-self rows cs v))

abbrev Filters : ℕ → List ℕ → ColumnarBatch → Type 0
Filters rows mask b =
    (out : ColumnarBatch) × (filter mask b ≡ ok out)
    × IsValidBatch (kept mask) out
    × (view out ≡ select_table mask (view b))

-- A batch in step, by its columns.
abbrev batch_of : List (Bytes × AnyColumn) → ColumnarBatch
batch_of cs = record { columns = cs; column_names = keys cs }

not_empty-table_of :
    (cs : List (Bytes × AnyColumn)) (mask : List ℕ) (key : Bytes) (s : Series)
    (rest : List (Bytes × Series))
    → table_of cs ≡ select_table mask ((key, s) ∷ rest)
    → is_empty cs ≡ false
not_empty-table_of [] mask key s rest e = cc
not_empty-table_of (_ ∷ _) mask key s rest e = refl

filter-batch_of :
    (rows : ℕ) (mask : List ℕ) (cs : List (Bytes × AnyColumn))
    → AreValid rows cs
    → row_count (batch_of cs) ≡ ok rows
    → length mask ≡ rows
    → Filters rows mask (batch_of cs)
unfolding filter
filter-batch_of rows [] [] v counted h = (
  empty_batch,
  refl,
  record { fits = record { in_step = refl; valid = tt }; counted = refl },
  refl,
)
filter-batch_of rows (m ∷ mask) [] v counted h = absurd (ground arith)
filter-batch_of rows mask ((key, c) ∷ cs) v counted h =
    let (out, r, fits, e) =
      filter_columns-view mask ((key, c) ∷ cs) ((key, c) ∷ cs) empty_batch
        (subst (λ n. AreValid n ((key, c) ∷ cs)) (sym h) v) (AreSources-self rows ((key, c) ∷ cs) v)
        (record { in_step = refl; valid = tt }) in
    (
      out,
      rw counted (rw ((==_iff _ _).1 h) r),
      record {
        fits = fits;
        counted =
            row_count-Fits (kept mask) out.column_names out.columns fits.in_step fits.valid
              (not_empty-table_of out.columns mask key (series c) (table_of cs) e);
      },
      e,
    )

-- A mask with an entry for each row of a valid batch filters it: the result is a valid batch of as
-- many rows as the mask keeps, with the same column names in the same order, and each column has
-- the cells, NULLs included, at which the mask is not 0.
pub filter-view :
    (rows : ℕ) (mask : List ℕ) (b : ColumnarBatch)
    → IsValidBatch rows b
    → length mask ≡ rows
    → (out : ColumnarBatch) × (filter mask b ≡ ok out)
      × IsValidBatch (kept mask) out
      × (view out ≡ select_table mask (view b))
filter-view rows mask b valid h =
    let same : b ≡ batch_of b.columns =
      λ i. record { columns = b.columns; column_names = valid.fits.in_step i } in
    subst (Filters rows mask) (sym same) (
      filter-batch_of rows mask b.columns valid.fits.valid
        (subst (λ d. row_count d ≡ ok rows) same valid.counted) h)

-- A mask of any other length is refused.
pub filter-wrong_size :
    (rows : ℕ) (mask : List ℕ) (b : ColumnarBatch)
    → IsValidBatch rows b
    → length mask ≢ rows
    → filter mask b ≡ throw Exception.invalid_argument "row mask size must equal batch row count"
unfolding filter
filter-wrong_size rows mask b valid h = ground (arith, valid.counted)

-- add_column on a valid batch, on every branch: a column of another length than the columns that
-- are there is refused first, then a name that is taken; any other column is added at the end.
pub add_column_lem :
    (rows : ℕ) (name : Bytes) (c : AnyColumn) (b : ColumnarBatch)
    → IsValidBatch rows b
    → add_column name c b ≡ (
        if not (is_empty b.columns) && not (column_size c == rows)
        then throw Exception.invalid_argument "all columns in a batch must have the same row count"
        else if has_column name b
        then throw Exception.invalid_argument "duplicate column name"
        else ok (record {
          columns = b.columns ++ (name, c) ∷ [];
          column_names = b.column_names ++ name ∷ [];
        }))
unfolding add_column
add_column_lem rows name c b valid = rw valid.counted refl

AreValid-resize :
    (rows size : ℕ) (cs : List (Bytes × AnyColumn))
    → AreValid rows cs
    → not (is_empty cs) && not (size == rows) ≡ false
    → AreValid size cs
AreValid-resize rows size [] v h = tt
AreValid-resize rows size (e ∷ cs) v h =
    subst (λ n. AreValid n (e ∷ cs)) (let p : rows ≡ size = ground arith in p) v

snoc-not_empty :
    (cs : List (Bytes × AnyColumn)) (e : Bytes × AnyColumn) → is_empty (cs ++ e ∷ []) ≡ false
snoc-not_empty [] e = refl
snoc-not_empty (_ ∷ _) e = refl

has_column-false :
    (name : Bytes) (b : ColumnarBatch)
    → has_column name b ≡ false
    → find_column name b.columns ≡ none
unfolding has_column
has_column-false name b h = ground arith

add_column-Extends :
    (rows : ℕ) (name : Bytes) (c : AnyColumn) (b b' : ColumnarBatch)
    → IsValidBatch rows b
    → IsValidAny c
    → not (is_empty b.columns) && not (column_size c == rows) ≡ false
    → has_column name b ≡ false
    → b'
      ≡ record { columns = b.columns ++ (name, c) ∷ []; column_names = b.column_names ++ name ∷ [] }
    → IsValidBatch (column_size c) b' × (view b' ≡ view b ++ (name, series c) ∷ [])
add_column-Extends rows name c b b' valid vc sized fresh e =
    let fits : Fits (column_size c) b = record {
      in_step = valid.fits.in_step;
      valid = AreValid-resize rows (column_size c) b.columns valid.fits.valid sized;
    } in
    let fits' =
      add_column-Fits (column_size c) b name c fits vc refl (has_column-false name b fresh) in
    rw e (
      record {
        fits = fits';
        counted =
            row_count-Fits (column_size c) (b.column_names ++ name ∷ [])
              (b.columns ++ (name, c) ∷ []) fits'.in_step fits'.valid
              (snoc-not_empty b.columns (name, c));
      },
      table_of-snoc b.columns name c,
    )

-- When add_column of a valid column to a valid batch succeeds, the result is a valid batch of the
-- column's length, and its view is the old view with the column's name and cells at the end.
pub add_column-IsValidBatch :
    (rows : ℕ) (name : Bytes) (c : AnyColumn) (b b' : ColumnarBatch)
    → IsValidBatch rows b
    → IsValidAny c
    → add_column name c b ≡ ok b'
    → IsValidBatch (column_size c) b' × (view b' ≡ view b ++ (name, series c) ∷ [])
add_column-IsValidBatch rows name c b b' valid vc h =
    let done = sym (add_column_lem rows name c b valid) ∙ h in
    elim (Bool-cases (not (is_empty b.columns) && not (column_size c == rows))) [
      | inl wrong ↦ absurd (let p = rw wrong at done in cc)
      | inr sized ↦ elim (Bool-cases (has_column name b)) [
        | inl taken ↦ absurd (let p = rw (sized, taken) at done in cc)
        | inr fresh ↦
            let p = rw (sized, fresh) at done in
            add_column-Extends rows name c b b' valid vc sized fresh (cc)
      ]
    ]

abbrev pub equals_cell : ℤ → Option ℤ → ℕ
equals_cell value none = 0
equals_cell value (some v) = if eqb_ℤ v value then 1 else 0

equals_rows-step :
    (c : Column ℤ) (value : ℤ) (rows i : ℕ) (cell : Option ℤ) (rest : List ℕ)
    → read c i ≡ ok cell
    → equals_rows c value (suc i) rows ≡ ok rest
    → equals_rows c value i (suc rows) ≡ ok (equals_cell value cell ∷ rest)
unfolding equals_rows
equals_rows-step c value rows i none rest e r = rw (read-none c i e, r) refl
equals_rows-step c value rows i (some v) rest e r =
    let (p, q) = read-some c i v e in rw (p, q, r) refl

equals_rows-cells :
    (c : Column ℤ) (value : ℤ) (rows i : ℕ)
    → IsValidColumn c
    → rows + i ≡ size c
    → equals_rows c value i rows ≡ ok (map (equals_cell value) (drop i (cells c)))
unfolding equals_rows
equals_rows-cells c value zero i v h =
    rw (drop-all i (cells c) (omega (arith, length-cells c v))) refl
equals_rows-cells c value (suc rows) i v h =
    let (cell, e, d) = at-drop (cells c) i (omega (arith, length-cells c v)) in
    rw d (
      equals_rows-step c value rows i cell _ (read-cells c i v ∙ e)
        (equals_rows-cells c value rows (suc i) v (omega arith)))

-- On an int64 column of any batch whose validity fits, equals_i64 gives 1 exactly at the rows that
-- hold the value, and 0 at the others and at NULLs.
pub equals_i64-cells :
    (b : ColumnarBatch) (name : Bytes) (value : ℤ) (c : Column ℤ)
    → column name b ≡ ok c
    → IsValidColumn c
    → equals_i64 b name value ≡ ok (map (equals_cell value) (cells c))
unfolding equals_i64
equals_i64-cells b name value c e v = rw e (equals_rows-cells c value (size c) 0 v (omega arith))
