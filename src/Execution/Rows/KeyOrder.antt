-- ===== src/Execution/Rows/KeyOrder.antt =====
-- src/execution/interpreter.cpp: the comparison of rows by sort keys, in stable_sorted_rows and in
-- window_row_less.
use vectorized_sql_engine.Base.{
  ℕ, ◌≡◌, refl, Bool, true, false, ◌&&◌, List, [], ◌∷◌, ok, if◌then◌else◌, arith, Bool-cases, inl,
  inr, IsStrictWeakOrder, ◌<◌,
}
use vectorized_sql_engine.Sql.Ast.{SortDirection, asc, desc}
use vectorized_sql_engine.Storage.Batch.{ColumnarBatch}
use vectorized_sql_engine.Plan.{SortKey}
use vectorized_sql_engine.Execution.Cell.{Cell, cell_eq, cell_lt}
use vectorized_sql_engine.Execution.Cell.Order.{cell-IsStrictWeakOrder}
use vectorized_sql_engine.Execution.Context.{ExecutionContext}
use vectorized_sql_engine.Execution.Rows.Sorting.{Compares}
use vectorized_sql_engine.Execution.Rows.{key_precedes, key_value, row_less}

abbrev cells : IsStrictWeakOrder cell_lt cell_eq
cells = cell-IsStrictWeakOrder

-- The order of two key values of one type, by `key_precedes`.
precedes_asym :
    (d : SortDirection) (a b : Cell)
    → a.type ≡ b.type
    → cell_eq a b ≡ false
    → key_precedes d a b ≡ true
    → key_precedes d b a ≡ false
unfolding key_precedes cell_eq
precedes_asym asc a b t e h = ground (arith, cells.lt_asym a b)
precedes_asym desc a b t e h = ground (arith, cells.lt_asym b a)

precedes_total :
    (d : SortDirection) (a b : Cell)
    → a.type ≡ b.type
    → cell_eq a b ≡ false
    → key_precedes d a b ≡ false
    → key_precedes d b a ≡ true
unfolding key_precedes cell_eq
precedes_total asc a b t e h = ground (arith, cells.eq_iff_incomparable a b)
precedes_total desc a b t e h = ground (arith, cells.eq_iff_incomparable b a, cells.eq_sym b a)

precedes_trans :
    (d : SortDirection) (a b c : Cell)
    → a.type ≡ b.type
    → b.type ≡ c.type
    → cell_eq a b ≡ false
    → cell_eq b c ≡ false
    → key_precedes d a b ≡ true
    → key_precedes d b c ≡ true
    → key_precedes d a c ≡ true
unfolding key_precedes cell_eq
precedes_trans asc a b c s t e f h k = ground (arith, cells.lt_trans a b c)
precedes_trans desc a b c s t e f h k = ground (arith, cells.lt_trans c b a)

precedes-eq_right :
    (d : SortDirection) (a b c : Cell)
    → a.type ≡ b.type
    → cell_eq a b ≡ false
    → cell_eq b c ≡ true
    → key_precedes d a b ≡ true
    → key_precedes d a c ≡ true
unfolding key_precedes cell_eq
precedes-eq_right asc a b c s e f h = ground (arith, cells.lt_of_lt_eq a b c)
precedes-eq_right desc a b c s e f h = ground (arith, cells.lt_of_eq_lt c b a, cells.eq_sym b c)

precedes-eq_left :
    (d : SortDirection) (a b c : Cell)
    → b.type ≡ c.type
    → cell_eq a b ≡ true
    → cell_eq b c ≡ false
    → key_precedes d b c ≡ true
    → key_precedes d a c ≡ true
unfolding key_precedes cell_eq
precedes-eq_left asc a b c s e f h = ground (arith, cells.lt_of_eq_lt a b c)
precedes-eq_left desc a b c s e f h = ground (arith, cells.lt_of_lt_eq c b a, cells.eq_sym a b)

-- The comparison of rows whose key values are `value`, and the equality of those values.
module _ (value : SortKey → ℕ → Cell) where
  abbrev pub keys_lt : List SortKey → ℕ → ℕ → Bool
  keys_lt [] l r = false
  keys_lt (key ∷ keys) l r =
      if cell_eq (value key l) (value key r)
      then keys_lt keys l r
      else key_precedes key.direction (value key l) (value key r)

  abbrev pub keys_eq : List SortKey → ℕ → ℕ → Bool
  keys_eq [] l r = true
  keys_eq (key ∷ keys) l r = cell_eq (value key l) (value key r) && keys_eq keys l r

module _ (value : SortKey → ℕ → Cell)
    (typed : (key : SortKey) (i j : ℕ) → (value key i).type ≡ (value key j).type) where
  keys_asym :
      (keys : List SortKey) (i j : ℕ)
      → keys_lt value keys i j ≡ true
      → keys_lt value keys j i ≡ false
  keys_asym [] i j h = refl
  keys_asym (k ∷ ks) i j h = ground (
    arith,
    keys_asym ks i j,
    precedes_asym k.direction (value k i) (value k j) (typed k i j),
    cells.eq_sym (value k j) (value k i),
    cells.eq_sym (value k i) (value k j),
  )

  keys_trans :
      (keys : List SortKey) (i j l : ℕ)
      → keys_lt value keys i j ≡ true
      → keys_lt value keys j l ≡ true
      → keys_lt value keys i l ≡ true
  keys_trans [] i j l h k = h
  keys_trans (k ∷ ks) i j l h h' =
      let a = value k i in
      let b = value k j in
      let c = value k l in
      ground (
        arith,
        keys_trans ks i j l,
        precedes_trans k.direction a b c (typed k i j) (typed k j l),
        precedes-eq_right k.direction a b c (typed k i j),
        precedes-eq_left k.direction a b c (typed k j l),
        precedes_asym k.direction b c (typed k j l),
        precedes_asym k.direction c b (typed k l j),
        precedes-eq_right k.direction b c a (typed k j l),
        precedes-eq_right k.direction b a c (typed k j i),
        precedes-eq_left k.direction c a b (typed k i j),
        cells.eq_trans a b c,
        cells.eq_trans b c a,
        cells.eq_trans c a b,
        cells.eq_trans b a c,
        cells.eq_trans a c b,
        cells.eq_sym a b,
        cells.eq_sym b a,
        cells.eq_sym a c,
        cells.eq_sym c a,
        cells.eq_sym c b,
        cells.eq_sym b c,
      )

  keys_eq_refl : (keys : List SortKey) (i : ℕ) → keys_eq value keys i i ≡ true
  keys_eq_refl [] i = refl
  keys_eq_refl (k ∷ ks) i = rw (cells.eq_refl (value k i)) (keys_eq_refl ks i)

  keys_eq_sym :
      (keys : List SortKey) (i j : ℕ)
      → keys_eq value keys i j ≡ true
      → keys_eq value keys j i ≡ true
  keys_eq_sym [] i j h = refl
  keys_eq_sym (k ∷ ks) i j h =
      ground (arith, keys_eq_sym ks i j, cells.eq_sym (value k i) (value k j))

  keys_eq_trans :
      (keys : List SortKey) (i j l : ℕ)
      → keys_eq value keys i j ≡ true
      → keys_eq value keys j l ≡ true
      → keys_eq value keys i l ≡ true
  keys_eq_trans [] i j l h h' = refl
  keys_eq_trans (k ∷ ks) i j l h h' =
      ground (arith, keys_eq_trans ks i j l, cells.eq_trans (value k i) (value k j) (value k l))

  keys-incomparable :
      (keys : List SortKey) (i j : ℕ)
      → keys_lt value keys i j ≡ false
      → keys_lt value keys j i ≡ false
      → keys_eq value keys i j ≡ true
  keys-incomparable [] i j h h' = refl
  keys-incomparable (k ∷ ks) i j h h' = ground (
    arith,
    keys-incomparable ks i j,
    precedes_total k.direction (value k i) (value k j) (typed k i j),
    cells.eq_sym (value k j) (value k i),
    cells.eq_sym (value k i) (value k j),
  )

  keys_lt-ne :
      (keys : List SortKey) (i j : ℕ)
      → keys_eq value keys i j ≡ true
      → keys_lt value keys i j ≡ false
  keys_lt-ne [] i j h = refl
  keys_lt-ne (k ∷ ks) i j h = ground (arith, keys_lt-ne ks i j)

  keys_lt-eq :
      (keys : List SortKey) (i j l : ℕ)
      → keys_lt value keys i j ≡ true
      → keys_eq value keys j l ≡ true
      → keys_lt value keys i l ≡ true
  keys_lt-eq [] i j l h h' = h
  keys_lt-eq (k ∷ ks) i j l h h' =
      let a = value k i in
      let b = value k j in
      let c = value k l in
      ground (
        arith,
        keys_lt-eq ks i j l,
        precedes-eq_right k.direction a b c (typed k i j),
        cells.eq_trans a b c,
        cells.eq_trans a c b,
        cells.eq_sym b c,
      )

  keys_eq-lt :
      (keys : List SortKey) (i j l : ℕ)
      → keys_eq value keys i j ≡ true
      → keys_lt value keys j l ≡ true
      → keys_lt value keys i l ≡ true
  keys_eq-lt [] i j l h h' = h'
  keys_eq-lt (k ∷ ks) i j l h h' =
      let a = value k i in
      let b = value k j in
      let c = value k l in
      ground (
        arith,
        keys_eq-lt ks i j l,
        precedes-eq_left k.direction a b c (typed k j l),
        cells.eq_trans a b c,
        cells.eq_trans b a c,
        cells.eq_sym a b,
      )

  -- On rows whose values for each key have one type, the comparison by the keys, with its
  -- directions and its NULLs, is the strict weak ordering that std::stable_sort requires, and the
  -- rows that it does not tell apart are those with equal key values.
  pub keys-IsStrictWeakOrder :
      (keys : List SortKey) → IsStrictWeakOrder (keys_lt value keys) (keys_eq value keys)
  keys-IsStrictWeakOrder keys = record {
    eq_refl = keys_eq_refl keys;
    lt_asym = keys_asym keys;
    lt_trans = keys_trans keys;
    eq_iff_incomparable = keys-incomparable keys;
    lt-ne = keys_lt-ne keys;
    eq_sym = keys_eq_sym keys;
    lt_of_lt_eq = keys_lt-eq keys;
    lt_of_eq_lt = keys_eq-lt keys;
    eq_trans = keys_eq_trans keys;
  }

-- Each of the first `rows` rows has a value for each key, which reading it gives.
abbrev pub Reads :
    (SortKey → ℕ → Cell) → ColumnarBatch → ℕ → ExecutionContext → List SortKey → Type 0
Reads value batch rows σ [] = Unit
Reads value batch rows σ (key ∷ keys) =
    ((i : ℕ) → i < rows → key_value key.column batch i σ ≡ ok (value key i, σ))
    × Reads value batch rows σ keys

pub row_less-keys_lt :
    (value : SortKey → ℕ → Cell) (batch : ColumnarBatch) (rows : ℕ) (σ : ExecutionContext)
    (keys : List SortKey)
    → Reads value batch rows σ keys
    → Compares (row_less keys batch) (keys_lt value keys) rows σ
unfolding row_less
row_less-keys_lt value batch rows σ [] r i j h h' = refl
row_less-keys_lt value batch rows σ (k ∷ ks) (r, rs) i j h h' =
    elim (Bool-cases (cell_eq (value k i) (value k j))) [
      | inl e ↦ rw (r i h) (rw (r j h') (rw e (row_less-keys_lt value batch rows σ ks rs i j h h')))
      | inr e ↦ rw (r i h) (rw (r j h') (rw e refl))
    ]
