-- ===== src/Storage/Column.antt =====
-- include/storage/columnar_batch.hpp: Int64Column and StringColumn. The two classes differ only in
-- the type of a value and in the value that a NULL slot stores (0, or the empty string), so a
-- column is generic in both. The vectors behind the copy-on-write pointers are modelled by value;
-- a null `validity_` pointer is `none`, and a null `values_` pointer reads as an empty vector.
use vectorized_sql_engine.Base.{
  ℕ, Bool, true, false, Option, none, some, List, [], ◌∷◌, ◌++◌, length, replicate, Result, ok,
  and_then, at, ◌==◌,
}

pub record Column (A : Type 0) : Type 0 where
  pub values : List A
  -- One byte for each row, 0 at a NULL; `none` while no NULL was appended.
  pub validity : Option (List ℕ)

infixl 5 ◌>>=◌
abbrev pub ◌>>=◌ {ℓ κ} : {A : Type ℓ} {B : Type κ} → Result A → (A → Result B) → Result B
◌>>=◌ = and_then

abbrev push_validity : ℕ → Option (List ℕ) → Option (List ℕ)
push_validity flag none = none
push_validity flag (some bits) = some (bits ++ flag ∷ [])

abbrev invalid_at : Option (List ℕ) → ℕ → Result Bool
invalid_at none row = ok false
invalid_at (some bits) row = do bit ← at bits row; ok (bit == 0)

-- ensure_validity_for_null: every row so far is valid.
abbrev ensure_validity : ℕ → Option (List ℕ) → List ℕ
ensure_validity rows none = replicate rows 1
ensure_validity rows (some bits) = bits

module _ {A : Type 0} where
  abbrev pub empty_column : Column A
  empty_column = record { values = []; validity = none }

  unfoldable pub append : A → Column A → Column A
  append value c = record { values = c.values ++ value ∷ []; validity = push_validity 1 c.validity }

  unfoldable pub append_null : A → Column A → Column A
  append_null null_value c = record {
    values = c.values ++ null_value ∷ [];
    validity = some (ensure_validity (length c.values) c.validity ++ 0 ∷ []);
  }

  unfoldable pub size : Column A → ℕ
  size c = length c.values

  unfoldable pub value_at : Column A → ℕ → Result A
  value_at c row = at c.values row

  -- `(void)values().at(row)` makes a row past the end throw.
  unfoldable pub is_null : Column A → ℕ → Result Bool
  is_null c row = do _ ← at c.values row; invalid_at c.validity row

  abbrev pub has_nulls : Column A → Bool
  has_nulls c = elim c.validity [ none ↦ false | some _ ↦ true ]
