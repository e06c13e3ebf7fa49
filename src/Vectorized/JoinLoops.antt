-- ===== src/Vectorized/JoinLoops.antt =====
-- src/execution/vectorized.cpp: the keys, the hash tables and the loops of the joins. A nested loop
-- and the hash join that replaces it differ in the right rows that a left row is tried against.
use vectorized_sql_engine.Base.{
  ℕ, Bool, true, false, not, Option, none, some, List, [], ◌∷◌, ◌++◌, Result, ok, if◌then◌else◌,
}
use vectorized_sql_engine.Execution.Truth.{TruthValue, is_true, is_false}
use vectorized_sql_engine.Vectorized.Cells.{TypedCell, key_eq, MaterializedValueSet, contains}
use vectorized_sql_engine.Vectorized.Scalars.{◌>>=◌, CompiledColumn, compiled_cell}
use vectorized_sql_engine.Vectorized.Context.{insert_int, insert_string}
use vectorized_sql_engine.Catalog.{ColumnType, int64, string}

-- HashKey
abbrev pub HashKey : Type 0
HashKey = List TypedCell

abbrev pub cons_key : TypedCell → Option HashKey → Option HashKey
cons_key value none = none
cons_key value (some key) = some (value ∷ key)

unfoldable pub make_key : ℕ → List CompiledColumn → Result HashKey
unfolding compiled_cell
make_key row [] = ok []
make_key row (column ∷ columns) = do
  value ← compiled_cell column row
  key ← make_key row columns
  ok (value ∷ key)

unfoldable pub make_non_null_key : ℕ → List CompiledColumn → Result (Option HashKey)
unfolding compiled_cell
make_non_null_key row [] = ok (some [])
make_non_null_key row (column ∷ columns) = do
  value ← compiled_cell column row
  let rest = (do key ← make_non_null_key row columns; ok (cons_key value key)) in
      if value.is_null then ok none else rest

-- std::unordered_map from hash keys, as the list of its entries. The source never walks it.
abbrev pub HashTable : Type 0 → Type 0
HashTable V = List (HashKey × V)

module _ {V : Type 0} where
  unfoldable pub find : HashKey → HashTable V → Option V
  unfolding key_eq
  find key [] = none
  find key ((stored, value) ∷ table) = if key_eq stored key then some value else find key table

  -- `change` applied to the value at the key, which is `fresh` if the key is new: operator[] and
  -- try_emplace.
  unfoldable pub update : HashKey → V → (V → V) → HashTable V → HashTable V
  unfolding key_eq
  update key fresh change [] = (key, change fresh) ∷ []
  update key fresh change ((stored, value) ∷ table) =
      let rest = update key fresh change table in
      if key_eq stored key then (stored, change value) ∷ table else (stored, value) ∷ rest

-- `right_rows_by_key[*key].push_back(right_row)`, for a row that has a key.
abbrev pub add_right_row : Option HashKey → ℕ → HashTable (List ℕ) → HashTable (List ℕ)
add_right_row none row table = table
add_right_row (some key) row table = update key [] (λ rows. rows ++ row ∷ []) table

unfoldable pub build_rows :
    (ℕ → Result (Option HashKey)) → List ℕ → HashTable (List ℕ) → Result (HashTable (List ℕ))
unfolding update
build_rows right_key [] table = ok table
build_rows right_key (row ∷ rows) table = do
  key ← right_key row
  build_rows right_key rows (add_right_row key row table)

-- The right rows that a left row with this key is tried against.
abbrev pub rows_at : Option HashKey → HashTable (List ℕ) → List ℕ
rows_at none table = []
rows_at (some key) table = elim (find key table) [ none ↦ [] | some rows ↦ rows ]

abbrev pub hash_candidates :
    (ℕ → Result (Option HashKey)) → HashTable (List ℕ) → ℕ → Result (List ℕ)
hash_candidates left_key table left_row = do key ← left_key left_row; ok (rows_at key table)

-- The loops of INNER and LEFT joins. `truth` evaluates the residual predicates, or in a nested loop
-- all of them; `emit` appends an output row, one of NULLs on the right if it has no right row.
module _ {S : Type 0} (truth : ℕ → ℕ → Result TruthValue) (emit : ℕ → Option ℕ → S → Result S)
    (emit_unmatched_left : Bool) where
  unfoldable pub scan_candidates : ℕ → Bool → S → List ℕ → Result (Bool × S)
  scan_candidates left_row matched out [] = ok (matched, out)
  scan_candidates left_row matched out (right_row ∷ rows) =
      let skip = scan_candidates left_row matched out rows in
      let hit = (do
        out' ← emit left_row (some right_row) out
        scan_candidates left_row (if emit_unmatched_left then true else matched) out' rows) in
      do t ← truth left_row right_row; if is_true t then hit else skip

  abbrev pub finish_row : ℕ → Bool × S → Result S
  finish_row left_row scanned =
      if emit_unmatched_left
      then if not scanned.0 then emit left_row none scanned.1 else ok scanned.1
      else ok scanned.1

  unfoldable pub join_loop : (ℕ → Result (List ℕ)) → List ℕ → S → Result S
  unfolding scan_candidates
  join_loop candidates [] out = ok out
  join_loop candidates (left_row ∷ left_rows) out = do
    rows ← candidates left_row
    scanned ← scan_candidates left_row false out rows
    out' ← finish_row left_row scanned
    join_loop candidates left_rows out'

-- The loops of SEMI (`emit_matched`) and ANTI joins.
module _ (truth : ℕ → ℕ → Result TruthValue) where
  unfoldable pub has_match : ℕ → List ℕ → Result Bool
  has_match left_row [] = ok false
  has_match left_row (right_row ∷ rows) =
      let next = has_match left_row rows in
      do t ← truth left_row right_row; if is_true t then ok true else next

  abbrev same_flag : Bool → Bool → Bool
  same_flag true b = b
  same_flag false b = not b

  unfoldable pub existence_loop : Bool → (ℕ → Result (List ℕ)) → List ℕ → Result (List ℕ)
  unfolding has_match
  existence_loop emit_matched candidates [] = ok []
  existence_loop emit_matched candidates (left_row ∷ left_rows) = do
    rows ← candidates left_row
    matched ← has_match left_row rows
    rest ← existence_loop emit_matched candidates left_rows
    ok (if same_flag emit_matched matched then left_row ∷ rest else rest)

-- The loops of execute_nested_loop_null_aware_anti_join.
module _ (candidate membership : ℕ → ℕ → Result TruthValue) where
  unfoldable pub suppressed_by : ℕ → List ℕ → Result Bool
  suppressed_by left_row [] = ok false
  suppressed_by left_row (right_row ∷ rows) =
      let next = suppressed_by left_row rows in
      let member = (do
        t ← membership left_row right_row
        if not (is_false t) then ok true else next) in
      do t ← candidate left_row right_row; if not (is_true t) then next else member

  unfoldable pub null_aware_loop : List ℕ → List ℕ → Result (List ℕ)
  unfolding suppressed_by
  null_aware_loop right_rows [] = ok []
  null_aware_loop right_rows (left_row ∷ left_rows) = do
    suppressed ← suppressed_by left_row right_rows
    rest ← null_aware_loop right_rows left_rows
    ok (if not suppressed then left_row ∷ rest else rest)

-- execute_hash_null_aware_anti_join: a bucket of membership values for each candidate key.
abbrev pub empty_bucket : ColumnType → MaterializedValueSet
empty_bucket type = record {
  type = type;
  is_empty = true;
  has_null = false;
  int_values = [];
  string_values = [];
}

abbrev pub add_typed : ColumnType → TypedCell → MaterializedValueSet → MaterializedValueSet
add_typed int64 value bucket = insert_int value.int_value bucket
add_typed string value bucket = insert_string value.string_value bucket

abbrev pub add_member : TypedCell → MaterializedValueSet → MaterializedValueSet
add_member value bucket =
    let filled = record bucket { is_empty = false } in
    if value.is_null then record filled { has_null = true } else add_typed value.type value filled

abbrev pub Buckets : Type 0
Buckets = HashTable MaterializedValueSet

module _ (type : ColumnType) (right_key : ℕ → Result (Option HashKey))
    (right_member : ℕ → Result TypedCell) where
  abbrev pub add_to_bucket : ℕ → Option HashKey → Buckets → Result Buckets
  add_to_bucket row none buckets = ok buckets
  add_to_bucket row (some key) buckets = do
    value ← right_member row
    ok (update key (empty_bucket type) (add_member value) buckets)

  unfoldable pub build_buckets : List ℕ → Buckets → Result Buckets
  unfolding update
  build_buckets [] buckets = ok buckets
  build_buckets (row ∷ rows) buckets = do
    key ← right_key row
    buckets' ← add_to_bucket row key buckets
    build_buckets rows buckets'

abbrev pub bucket_at : Option HashKey → Buckets → Option MaterializedValueSet
bucket_at none buckets = none
bucket_at (some key) buckets = find key buckets

module _ (left_key : ℕ → Result (Option HashKey)) (left_member : ℕ → Result TypedCell) where
  -- Whether the left row is emitted.
  abbrev pub probe : ℕ → Option MaterializedValueSet → Result Bool
  probe row none = ok true
  probe row (some bucket) = do
    membership ← left_member row
    ok (
        not (
          if bucket.has_null
          then true
          else if membership.is_null
          then true
          else contains bucket membership))

  unfoldable pub probe_loop : Buckets → List ℕ → Result (List ℕ)
  unfolding find contains
  probe_loop buckets [] = ok []
  probe_loop buckets (left_row ∷ left_rows) = do
    key ← left_key left_row
    emitted ← probe left_row (bucket_at key buckets)
    rest ← probe_loop buckets left_rows
    ok (if emitted then left_row ∷ rest else rest)
