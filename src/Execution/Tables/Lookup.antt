-- ===== src/Execution/Tables/Lookup.antt =====
-- src/execution/interpreter.cpp: what a catalog gives back after add_table.
use vectorized_sql_engine.Base.{
  ◌≡◌, ◌≢◌, refl, sym, Bytes, str_eq, str_eq_refl, str_eq→eq, some, ◌∷◌, ok, throw, ◌⊎◌, Exception,
  Bool-cases, Option-cases, inl, inr,
}
use vectorized_sql_engine.Storage.Batch.{ColumnarBatch}
use vectorized_sql_engine.Execution.Tables.{Catalog, find_table, add_table, table}

find-added :
    (name : Bytes) (batch : ColumnarBatch) (catalog : Catalog)
    → find_table name ((name, batch) ∷ catalog) ≡ some batch
unfolding find_table
find-added name batch catalog = rw (str_eq_refl name) refl

find-other :
    (name other : Bytes) (batch : ColumnarBatch) (catalog : Catalog)
    → other ≢ name
    → find_table other ((name, batch) ∷ catalog) ≡ find_table other catalog
unfolding find_table
find-other name other batch catalog ne = elim (Bool-cases (str_eq name other)) [
  | inl same ↦ absurd (ne (sym (str_eq→eq name other same)))
  | inr different ↦ rw different refl
]

-- add_table refuses a name that is taken, and otherwise gives a catalog in which the name stands for
-- the new table and every other name for what it stood for.
pub add_table-table :
    (name : Bytes) (batch : ColumnarBatch) (catalog : Catalog)
    → ((old : ColumnarBatch) × (table name catalog ≡ ok old)
        × (add_table name batch catalog ≡ throw Exception.invalid_argument "duplicate table"))
      ⊎ ((catalog' : Catalog) × (add_table name batch catalog ≡ ok catalog')
          × (table name catalog' ≡ ok batch)
          × ((other : Bytes) → other ≢ name → table other catalog' ≡ table other catalog))
unfolding add_table table
add_table-table name batch catalog = elim (Option-cases (find_table name catalog)) [
  | inl fresh ↦ inr (
    (name, batch) ∷ catalog,
    rw fresh refl,
    rw (find-added name batch catalog) refl,
    λ other ne. rw (find-other name other batch catalog ne) refl,
  )
  | inr (old, taken) ↦ inl (old, rw taken refl, rw taken refl)
]
