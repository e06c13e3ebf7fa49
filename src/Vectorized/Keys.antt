-- ===== src/Vectorized/Keys.antt =====
-- src/execution/vectorized.cpp: what std::unordered_map needs of HashKey.
use vectorized_sql_engine.Base.{
  ℕ, ℤ, Bytes, true, false, List, [], ◌∷◌, ◌≡◌, refl, ap, ap₂, ◌∙◌, arith, length, Bool, ◌&&◌,
  equal_elements, str_eq→eq, eqb_ℤ→eq, suc,
}
use vectorized_sql_engine.Execution.Cell.{cell_eq}
use vectorized_sql_engine.Vectorized.Cells.{
  TypedCell, typed_eq, hash_cell, hash_key, key_eq, mix, hash_values, type_number, hashed_value,
}

pub typed_eq-cell_eq : (l r : TypedCell) → typed_eq l r ≡ cell_eq l r
unfolding typed_eq cell_eq
typed_eq-cell_eq l r = ground arith

-- A conjunction of tests that holds.
and-true : (a b : Bool) → a && b ≡ true → (a ≡ true) × (b ≡ true)
and-true true true h = (refl, refl)
and-true true false h = (refl, h)
and-true false b h = absurd (cc (h))

module _ (hash_int : ℤ → ℕ) (hash_string : Bytes → ℕ) where
  typed_eq-parts :
      (l r : TypedCell)
      → typed_eq l r ≡ true
      → (type_number hash_int hash_string l.type ≡ type_number hash_int hash_string r.type)
        × (hashed_value hash_int hash_string l ≡ hashed_value hash_int hash_string r)
  unfolding typed_eq
  typed_eq-parts l r h =
      ground (arith, eqb_ℤ→eq l.int_value r.int_value, str_eq→eq l.string_value r.string_value)

  hash_cell-eq :
      (l r : TypedCell)
      → typed_eq l r ≡ true
      → hash_cell hash_int hash_string l ≡ hash_cell hash_int hash_string r
  unfolding hash_cell
  hash_cell-eq l r h = let (t, v) = typed_eq-parts l r h in ap₂ mix t v

  hash_values-eq :
      (seed : ℕ) (ls rs : List TypedCell)
      → key_eq ls rs ≡ true
      → (length ls ≡ length rs)
        × (hash_values hash_int hash_string seed ls ≡ hash_values hash_int hash_string seed rs)
  unfolding key_eq hash_values equal_elements
  hash_values-eq seed [] [] h = (refl, refl)
  hash_values-eq seed [] (r ∷ rs) h = absurd (cc h)
  hash_values-eq seed (l ∷ ls) [] h = absurd (cc h)
  hash_values-eq seed (l ∷ ls) (r ∷ rs) h =
      let (e, es) = and-true (typed_eq l r) (equal_elements typed_eq ls rs) h in
      let same = hash_cell-eq l r e in
      let (n, _) = hash_values-eq 0 ls rs es in
      (
        ap suc n,
        ap (λ x. hash_values hash_int hash_string (mix seed x) ls) same
            ∙ (hash_values-eq (mix seed (hash_cell hash_int hash_string r)) ls rs es).1,
      )

  -- For any std::hash of integers and of strings: two hash keys that compare equal have the same
  -- hash, whatever the unused fields of their cells hold.
  pub key_eq-hash_key :
      (ls rs : List TypedCell)
      → key_eq ls rs ≡ true
      → hash_key hash_int hash_string ls ≡ hash_key hash_int hash_string rs
  unfolding hash_key
  key_eq-hash_key ls rs h =
      let (n, _) = hash_values-eq 0 ls rs h in
      ap (λ k. hash_values hash_int hash_string k ls) n ∙ (hash_values-eq (length rs) ls rs h).1
