-- ===== src/Storage/Valid.antt =====
-- The invariant of a batch, and that add_column keeps it.
use vectorized_sql_engine.Base.{
  ℕ, ◌≡◌, refl, sym, ◌∙◌, ap, false, none, some, List, [], ◌∷◌, ◌++◌, Bytes, str_eq, str_eq_refl,
  str_eq→eq, ok, if◌then◌else◌, arith, Bool-cases, inl, inr,
}
use vectorized_sql_engine.Storage.Cells.{IsValidColumn}
use vectorized_sql_engine.Storage.Batch.{
  AnyColumn, int64, string, ColumnarBatch, find_column, column_size, row_count, add_column,
  is_empty,
}

abbrev pub keys : List (Bytes × AnyColumn) → List Bytes
keys [] = []
keys ((key, _) ∷ rest) = key ∷ keys rest

abbrev pub IsValidAny : AnyColumn → Type 0
IsValidAny (int64 c) = IsValidColumn c
IsValidAny (string c) = IsValidColumn c

-- Every column is valid and has `rows` rows, and no name is that of an earlier column.
abbrev pub AreValid : ℕ → List (Bytes × AnyColumn) → Type 0
AreValid rows [] = Unit {0}
AreValid rows ((key, c) ∷ rest) =
    IsValidAny c × (column_size c ≡ rows) × (find_column key rest ≡ none) × AreValid rows rest

-- The columns and their names are in step, and the columns are valid.
pub record Fits (rows : ℕ) (b : ColumnarBatch) : Type 0 where
  pub in_step : b.column_names ≡ keys b.columns
  pub valid : AreValid rows b.columns

-- The invariant of a batch: its columns are valid, and all as long as `row_count` says.
pub record IsValidBatch (rows : ℕ) (b : ColumnarBatch) : Type 0 where
  pub fits : Fits rows b
  pub counted : row_count b ≡ ok rows

pub str_eq_sym : (s t : Bytes) → str_eq s t ≡ false → str_eq t s ≡ false
str_eq_sym s t h = elim (Bool-cases (str_eq t s)) [
  | inl e ↦ cc (ap (str_eq s) (str_eq→eq t s e), str_eq_refl s)
  | inr e ↦ e
]

pub find_column-snoc :
    (name key : Bytes) (c : AnyColumn) (cs : List (Bytes × AnyColumn))
    → find_column name (cs ++ (key, c) ∷ []) ≡ (elim (find_column name cs) [
      | none ↦ if str_eq key name then some c else none
      | some d ↦ some d
    ])
unfolding find_column
find_column-snoc name key c [] = refl
find_column-snoc name key c ((k, d) ∷ cs) = ground (arith, find_column-snoc name key c cs)

pub keys-snoc :
    (key : Bytes) (c : AnyColumn) (cs : List (Bytes × AnyColumn))
    → keys (cs ++ (key, c) ∷ []) ≡ keys cs ++ key ∷ []
keys-snoc key c [] = refl
keys-snoc key c ((k, d) ∷ cs) = ap (◌∷◌ k) (keys-snoc key c cs)

-- A name that is not found is none of the keys.
pub find_column-none :
    (name key : Bytes) (c : AnyColumn) (cs : List (Bytes × AnyColumn))
    → find_column name ((key, c) ∷ cs) ≡ none
    → (str_eq key name ≡ false) × (find_column name cs ≡ none)
unfolding find_column
find_column-none name key c cs h = ground arith

AreValid-snoc :
    (rows : ℕ) (name : Bytes) (c : AnyColumn) (cs : List (Bytes × AnyColumn))
    → AreValid rows cs
    → IsValidAny c
    → column_size c ≡ rows
    → find_column name cs ≡ none
    → AreValid rows (cs ++ (name, c) ∷ [])
unfolding find_column
AreValid-snoc rows name c [] v w s h = (w, s, refl, tt)
AreValid-snoc rows name c ((k, d) ∷ cs) (vd, sd, fd, v) w s h =
    let (other, h') = find_column-none name k d cs h in
    (
      vd,
      sd,
      find_column-snoc k name c cs ∙ rw (fd, str_eq_sym k name other) refl,
      AreValid-snoc rows name c cs v w s h',
    )

pub row_count-Fits :
    (rows : ℕ) (names : List Bytes) (cs : List (Bytes × AnyColumn))
    → names ≡ keys cs
    → AreValid rows cs
    → is_empty cs ≡ false
    → row_count (record { columns = cs; column_names = names }) ≡ ok rows
unfolding row_count
row_count-Fits rows names [] e v h = cc
row_count-Fits rows names ((k, c) ∷ cs) e v h = rw e (ground (arith, str_eq_refl k))

add_column-at :
    (rows : ℕ) (names : List Bytes) (cs : List (Bytes × AnyColumn)) (name : Bytes) (c : AnyColumn)
    → names ≡ keys cs
    → AreValid rows cs
    → column_size c ≡ rows
    → find_column name cs ≡ none
    → add_column name c (record { columns = cs; column_names = names })
      ≡ ok (record { columns = cs ++ (name, c) ∷ []; column_names = names ++ name ∷ [] })
unfolding add_column
add_column-at rows names [] name c e v s h = rw e refl
add_column-at rows names ((k, d) ∷ cs) name c e v s h =
    ground (arith, row_count-Fits rows names ((k, d) ∷ cs) e v refl)

-- A new name and a column of the right length are added at the end.
pub add_column-fresh :
    (rows : ℕ) (b : ColumnarBatch) (name : Bytes) (c : AnyColumn)
    → Fits rows b
    → column_size c ≡ rows
    → find_column name b.columns ≡ none
    → add_column name c b
      ≡ ok (record {
        columns = b.columns ++ (name, c) ∷ [];
        column_names = b.column_names ++ name ∷ [];
      })
add_column-fresh rows b name c fits s h =
    add_column-at rows b.column_names b.columns name c fits.in_step fits.valid s h

pub add_column-Fits :
    (rows : ℕ) (b : ColumnarBatch) (name : Bytes) (c : AnyColumn)
    → Fits rows b
    → IsValidAny c
    → column_size c ≡ rows
    → find_column name b.columns ≡ none
    → Fits rows (record {
      columns = b.columns ++ (name, c) ∷ [];
      column_names = b.column_names ++ name ∷ [];
    })
add_column-Fits rows b name c fits w s h = record {
  in_step = ap (λ ns. ns ++ name ∷ []) fits.in_step ∙ sym (keys-snoc name c b.columns);
  valid = AreValid-snoc rows name c b.columns fits.valid w s h;
}
