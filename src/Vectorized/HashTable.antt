-- ===== src/Vectorized/HashTable.antt =====
-- src/execution/vectorized.cpp: the hash table of a join's right rows finds, for every key, the rows
-- with an equal key, in their order.
use vectorized_sql_engine.Base.{
  ℕ, ◌≡◌, refl, ap, sym, ◌∙◌, Bool, true, false, Option, none, some, List, [], ◌∷◌, ◌++◌,
  append-nil, append_assoc, Result, ok, if◌then◌else◌, Bool-cases, inl, inr, equal_elements,
}
use vectorized_sql_engine.Execution.Cell.{row_eq}
use vectorized_sql_engine.Execution.Cell.Order.{row-IsStrictWeakOrder}
use vectorized_sql_engine.Execution.JoinSpec.{keep_if}
use vectorized_sql_engine.Vectorized.Cells.{key_eq}
use vectorized_sql_engine.Vectorized.Keys.{typed_eq-cell_eq}
use vectorized_sql_engine.Vectorized.JoinLoops.{
  HashKey, HashTable, find, update, add_right_row, build_rows, rows_at,
}

key_eq-row_eq : (k l : HashKey) → key_eq k l ≡ row_eq k l
unfolding key_eq
key_eq-row_eq k l i = equal_elements (λ x y. typed_eq-cell_eq x y i) k l

pub key_eq_sym : (k l : HashKey) → key_eq k l ≡ true → key_eq l k ≡ true
key_eq_sym k l h =
    let o = row-IsStrictWeakOrder in key_eq-row_eq l k ∙ o.eq_sym k l (sym (key_eq-row_eq k l) ∙ h)

pub key_eq_trans : (k l m : HashKey) → key_eq k l ≡ true → key_eq l m ≡ true → key_eq k m ≡ true
key_eq_trans k l m h j =
    let o = row-IsStrictWeakOrder in
    key_eq-row_eq k m ∙ o.eq_trans k l m (sym (key_eq-row_eq k l) ∙ h) (sym (key_eq-row_eq l m) ∙ j)

-- Two keys that are equal are equal to the same keys.
same_class : (k l m : HashKey) → key_eq k l ≡ true → key_eq k m ≡ key_eq l m
same_class k l m h = elim (Bool-cases (key_eq l m)) [
  | inl e ↦ key_eq_trans k l m h e ∙ sym e
  | inr e ↦ elim (Bool-cases (key_eq k m)) [
    | inl f ↦ absurd (cc (key_eq_trans l k m (key_eq_sym k l h) f, e))
    | inr f ↦ f ∙ sym e
  ]
]

-- The value at a key after an update of another key or of the same.
abbrev pub changed : {V : Type 0} → V → (V → V) → Bool → Option V → Option V
changed fresh change false found = found
changed fresh change true none = some (change fresh)
changed fresh change true (some value) = some (change value)

find-if :
    {V : Type 0} (b : Bool) (other : HashKey) (t u : HashTable V)
    → find other (if b then t else u) ≡ (if b then find other t else find other u)
find-if true other t u = refl
find-if false other t u = refl

update_step :
    {V : Type 0} (stored_key stored_other key_other : Bool) (fresh value : V) (change : V → V)
    (found rest : Option V)
    → (stored_key ≡ true → stored_other ≡ key_other)
    → (stored_key ≡ false → stored_other ≡ true → key_other ≡ false)
    → rest ≡ changed fresh change key_other found
    → (if stored_key
        then if stored_other then some (change value) else found
        else if stored_other
        then some value
        else rest)
      ≡ changed fresh change key_other (if stored_other then some value else found)
update_step true true true fresh value change found rest h k r = refl
update_step true true false fresh value change found rest h k r = absurd (cc (h refl))
update_step true false true fresh value change found rest h k r = absurd (cc (h refl))
update_step true false false fresh value change found rest h k r = refl
update_step false true true fresh value change found rest h k r = absurd (cc (k refl refl))
update_step false true false fresh value change found rest h k r = refl
update_step false false key_other fresh value change found rest h k r = r

-- A key with which a stored key is unequal, though both equal a third, cannot be.
apart_classes :
    (stored key other : HashKey)
    → key_eq stored key ≡ false
    → key_eq stored other ≡ true
    → key_eq key other ≡ false
apart_classes stored key other h k = elim (Bool-cases (key_eq key other)) [
  | inl e ↦ absurd (cc (key_eq_trans stored other key k (key_eq_sym key other e), h))
  | inr e ↦ e
]

update_nil :
    {V : Type 0} (b : Bool) (fresh : V) (change : V → V)
    → (if b then some (change fresh) else none) ≡ changed fresh change b none
update_nil true fresh change = refl
update_nil false fresh change = refl

pub find-update :
    {V : Type 0} (key other : HashKey) (fresh : V) (change : V → V) (table : HashTable V)
    → find other (update key fresh change table)
      ≡ changed fresh change (key_eq key other) (find other table)
unfolding find update
find-update key other fresh change [] = update_nil (key_eq key other) fresh change
find-update key other fresh change ((stored, value) ∷ table) =
    find-if (key_eq stored key) other _ _
    ∙ update_step (key_eq stored key) (key_eq stored other) (key_eq key other) fresh value change
        (find other table) _ (same_class stored key other) (apart_classes stored key other)
        (find-update key other fresh change table)

-- Whether two rows have keys, and equal ones.
abbrev pub keys_match : Option HashKey → Option HashKey → Bool
keys_match none r = false
keys_match (some l) none = false
keys_match (some l) (some r) = key_eq r l

-- The key of each of the rows.
abbrev pub HasKeys : (ℕ → Result (Option HashKey)) → (ℕ → Option HashKey) → List ℕ → Type 0
HasKeys m key [] = Unit {0}
HasKeys m key (row ∷ rows) = (m row ≡ ok (key row)) × HasKeys m key rows

head_kept :
    (b : Bool) (row : ℕ) (rest : List ℕ)
    → (if b then row ∷ [] else []) ++ rest ≡ (if b then row ∷ rest else rest)
head_kept true row rest = refl
head_kept false row rest = refl

add_right_row-rows_at :
    (left right : Option HashKey) (row : ℕ) (table : HashTable (List ℕ))
    → rows_at left (add_right_row right row table)
      ≡ rows_at left table ++ (if keys_match left right then row ∷ [] else [])
add_right_row-rows_at none right row table = refl
add_right_row-rows_at (some l) none row table = sym (append-nil _)
add_right_row-rows_at (some l) (some r) row table =
    ap (λ o. elim o [ none ↦ [] | some rows ↦ rows ])
      (find-update r l [] (λ rows. rows ++ row ∷ []) table)
    ∙ pushed (key_eq r l) (find l table)
  where
    pushed :
        (b : Bool) (o : Option (List ℕ))
        → (elim (changed [] (λ rows. rows ++ row ∷ []) b o) [ none ↦ [] | some rows ↦ rows ])
          ≡ (elim o [ none ↦ [] | some rows ↦ rows ]) ++ (if b then row ∷ [] else [])
    pushed true none = refl
    pushed true (some rows) = refl
    pushed false none = refl
    pushed false (some rows) = sym (append-nil rows)

module _ (right_key : ℕ → Result (Option HashKey)) (key : ℕ → Option HashKey) where
  -- The table of right rows can be built, and gives each left key the rows with a matching key.
  pub build_rows-candidates :
      (rows : List ℕ) (table : HashTable (List ℕ))
      → HasKeys right_key key rows
      → (built : HashTable (List ℕ)) × (build_rows right_key rows table ≡ ok built)
        × ((left : Option HashKey)
            → rows_at left built
              ≡ rows_at left table ++ keep_if (λ j. keys_match left (key j)) rows)
  unfolding build_rows
  build_rows-candidates [] table h = (table, refl, λ left. sym (append-nil _))
  build_rows-candidates (row ∷ rows) table (e, es) =
      let (built, runs, each) = build_rows-candidates rows (add_right_row (key row) row table) es in
      (
        built,
        rw e runs,
        λ left.
            each left
            ∙ ap (λ xs. xs ++ keep_if (λ j. keys_match left (key j)) rows)
                (add_right_row-rows_at left (key row) row table)
            ∙ append_assoc (rows_at left table) _ _
            ∙ ap (λ xs. rows_at left table ++ xs) (head_kept (keys_match left (key row)) row _),
      )
