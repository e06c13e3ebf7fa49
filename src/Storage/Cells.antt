-- ===== src/Storage/Cells.antt =====
-- A column as the sequence of its cells, each a value or NULL, and the operations of a column as
-- operations on that sequence.
use vectorized_sql_engine.Base.{
  ℕ, zero, suc, ◌≡◌, refl, ap, Option, none, some, List, [], ◌∷◌, ◌++◌, length, replicate,
  length-append, length-replicate, Result, ok, at, ◌==◌, if◌then◌else◌, arith,
}
use vectorized_sql_engine.Storage.Column.{
  Column, append, append_null, size, value_at, is_null, ◌>>=◌,
}

-- The validity vector, where there is one, is as long as the vector of values.
abbrev ValidityFits : ℕ → Option (List ℕ) → Type 0
ValidityFits n none = Unit {0}
ValidityFits n (some bits) = length bits ≡ n

module _ {A : Type 0} where
  abbrev pub IsValidColumn : Column A → Type 0
  IsValidColumn c = ValidityFits (length c.values) c.validity

  abbrev unmasked : List A → List (Option A)
  unmasked [] = []
  unmasked (v ∷ vs) = some v ∷ unmasked vs

  abbrev masked : List A → List ℕ → List (Option A)
  masked (v ∷ vs) (bit ∷ bits) = (if bit == 0 then none else some v) ∷ masked vs bits
  masked vs bits = []

  abbrev cells_of : List A → Option (List ℕ) → List (Option A)
  cells_of vs none = unmasked vs
  cells_of vs (some bits) = masked vs bits

  -- The abstract view of a column.
  abbrev pub cells : Column A → List (Option A)
  cells c = cells_of c.values c.validity

  unmasked-append : (vs : List A) (w : A) → unmasked (vs ++ w ∷ []) ≡ unmasked vs ++ some w ∷ []
  unmasked-append [] w = refl
  unmasked-append (v ∷ vs) w = ap (◌∷◌ (some v)) (unmasked-append vs w)

  masked-append :
      (vs : List A) (bits : List ℕ) (w : A) (bit : ℕ)
      → length bits ≡ length vs
      → masked (vs ++ w ∷ []) (bits ++ bit ∷ [])
        ≡ masked vs bits ++ (if bit == 0 then none else some w) ∷ []
  masked-append [] [] w bit h = refl
  masked-append [] (b ∷ bits) w bit h = absurd (omega arith)
  masked-append (v ∷ vs) [] w bit h = absurd (omega arith)
  masked-append (v ∷ vs) (b ∷ bits) w bit h =
      ap (◌∷◌ (if b == 0 then none else some v)) (masked-append vs bits w bit (omega arith))

  masked-replicate : (vs : List A) → masked vs (replicate (length vs) 1) ≡ unmasked vs
  masked-replicate [] = refl
  masked-replicate (v ∷ vs) = ap (◌∷◌ (some v)) (masked-replicate vs)

  length-cells_of :
      (vs : List A) (validity : Option (List ℕ))
      → ValidityFits (length vs) validity
      → length (cells_of vs validity) ≡ length vs
  length-cells_of [] none h = refl
  length-cells_of (v ∷ vs) none h = ap suc (length-cells_of vs none h)
  length-cells_of [] (some bits) h = refl
  length-cells_of (v ∷ vs) (some []) h = absurd (omega arith)
  length-cells_of (v ∷ vs) (some (b ∷ bits)) h =
      ap suc (length-cells_of vs (some bits) (omega arith))

  pub length-cells : (c : Column A) → IsValidColumn c → length (cells c) ≡ size c
  unfolding size
  length-cells c h = length-cells_of c.values c.validity h

  append-cells_of :
      (vs : List A) (validity : Option (List ℕ)) (w : A)
      → ValidityFits (length vs) validity
      → let c : Column A = append w (record { values = vs; validity = validity }) in
        IsValidColumn c × (cells c ≡ cells_of vs validity ++ some w ∷ [])
  unfolding append
  append-cells_of vs none w h = (tt, unmasked-append vs w)
  append-cells_of vs (some bits) w h = (
    omega (arith, length-append {0} {A = ℕ} bits (1 ∷ []), length-append vs (w ∷ [])),
    masked-append vs bits w 1 h,
  )

  -- Appending a value keeps a column valid and adds the value behind its cells.
  pub cells-append :
      (c : Column A) (w : A)
      → IsValidColumn c
      → IsValidColumn (append w c) × (cells (append w c) ≡ cells c ++ some w ∷ [])
  cells-append c w h = append-cells_of c.values c.validity w h

  append_null-cells_of :
      (vs : List A) (validity : Option (List ℕ)) (w : A)
      → ValidityFits (length vs) validity
      → let c : Column A = append_null w (record { values = vs; validity = validity }) in
        IsValidColumn c × (cells c ≡ cells_of vs validity ++ none ∷ [])
  unfolding append_null
  append_null-cells_of vs none w h = (
    omega (
      arith,
      length-append {0} {A = ℕ} (replicate (length vs) 1) (0 ∷ []),
      length-append vs (w ∷ []),
      length-replicate {0} {A = ℕ} (length vs) 1,
    ),
    rw (masked-append vs (replicate (length vs) 1) w 0 (length-replicate (length vs) 1))
        (rw (masked-replicate vs)),
  )
  append_null-cells_of vs (some bits) w h = (
    omega (arith, length-append {0} {A = ℕ} bits (0 ∷ []), length-append vs (w ∷ [])),
    masked-append vs bits w 0 h,
  )

  -- Appending NULL keeps a column valid and adds a NULL behind its cells.
  pub cells-append_null :
      (c : Column A) (null_value : A)
      → IsValidColumn c
      → IsValidColumn (append_null null_value c)
        × (cells (append_null null_value c) ≡ cells c ++ none ∷ [])
  cells-append_null c null_value h = append_null-cells_of c.values c.validity null_value h

  -- How the engine reads a row: `is_null` first, and `at` only if the row is not NULL.
  abbrev pub read : Column A → ℕ → Result (Option A)
  read c row = do
    null ← is_null c row
    if null then ok none else (do v ← value_at c row; ok (some v))

  read-cells_of :
      (vs : List A) (validity : Option (List ℕ)) (row : ℕ)
      → ValidityFits (length vs) validity
      → read (record { values = vs; validity = validity }) row ≡ at (cells_of vs validity) row
  unfolding is_null value_at
  read-cells_of [] none row h = refl
  read-cells_of [] (some bits) row h = refl
  read-cells_of (v ∷ vs) none zero h = refl
  read-cells_of (v ∷ vs) none (suc row) h = read-cells_of vs none row h
  read-cells_of (v ∷ vs) (some []) row h = absurd (omega arith)
  read-cells_of (v ∷ vs) (some (b ∷ bits)) zero h = ground arith
  read-cells_of (v ∷ vs) (some (b ∷ bits)) (suc row) h =
      read-cells_of vs (some bits) row (omega arith)

  -- Reading a row of a valid column gives the cell of that row, and throws out_of_range exactly
  -- where the sequence of cells has no such row.
  pub read-cells : (c : Column A) (row : ℕ) → IsValidColumn c → read c row ≡ at (cells c) row
  read-cells c row h = read-cells_of c.values c.validity row h
