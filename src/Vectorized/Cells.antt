-- ===== src/Vectorized/Cells.antt =====
-- src/execution/vectorized.cpp: TypedCell, the sets of IN subqueries, and the keys of hash tables.
-- TypedCell has the fields of the interpreter's Cell and is modelled by it. std::hash is a
-- parameter. An unordered set is the list of the inserted values: the source only asks whether it
-- contains a value.
use vectorized_sql_engine.Base.{
  ℕ, zero, suc, ℤ, eqb_ℤ, Bytes, str_eq, Bool, true, false, not, ◌||◌, List, [], ◌∷◌, any,
  equal_elements, ◌+◌, ◌*◌, ◌/◌, ◌%◌, ◌^◌, ◌-◌, length, if◌then◌else◌,
}
use vectorized_sql_engine.Catalog.{ColumnType, int64, string}
use vectorized_sql_engine.Execution.Cell.{Cell, type_eq}
use vectorized_sql_engine.Execution.Truth.{TruthValue}

abbrev pub TypedCell : Type 0
TypedCell = Cell

abbrev bool_eq : Bool → Bool → Bool
bool_eq true b = b
bool_eq false b = not b

-- operator==
unfoldable pub typed_eq : TypedCell → TypedCell → Bool
typed_eq l r =
    if not (type_eq l.type r.type)
    then false
    else if l.is_null || r.is_null
    then bool_eq l.is_null r.is_null
    else elim l.type [
      | int64 ↦ eqb_ℤ l.int_value r.int_value
      | string ↦ str_eq l.string_value r.string_value
    ]

pub record MaterializedValueSet : Type 0 where
  pub type : ColumnType
  pub is_empty : Bool
  pub has_null : Bool
  pub int_values : List ℤ
  pub string_values : List Bytes

unfoldable pub contains : MaterializedValueSet → TypedCell → Bool
unfolding str_eq
contains set cell =
    if not (type_eq cell.type set.type) || cell.is_null then false else elim set.type [
      | int64 ↦ any (eqb_ℤ cell.int_value) set.int_values
      | string ↦ any (str_eq cell.string_value) set.string_values
    ]

unfoldable pub evaluate_in_truth : TypedCell → MaterializedValueSet → TruthValue
unfolding contains
evaluate_in_truth value set =
    if set.is_empty
    then TruthValue.false
    else if value.is_null
    then TruthValue.unknown
    else if contains set value
    then TruthValue.true
    else if set.has_null
    then TruthValue.unknown
    else TruthValue.false

-- An operation on the bits of two words of `width` bits.
abbrev pub bitwise : (ℕ → ℕ → ℕ) → (width : ℕ) → ℕ → ℕ → ℕ
bitwise bit zero a b = 0
bitwise bit (suc width) a b = bit (a % 2) (b % 2) + 2 * bitwise bit width (a / 2) (b / 2)

abbrev pub xor_bit : ℕ → ℕ → ℕ
xor_bit a b = (a + b) % 2

abbrev pub or_bit : ℕ → ℕ → ℕ
or_bit a b = a + b - a * b

-- seed ^= hashed + 0x9e3779b97f4a7c15 + (seed << 6) + (seed >> 2), on std::size_t of 64 bits
unfoldable pub mix : ℕ → ℕ → ℕ
mix seed hashed =
    bitwise xor_bit 64 seed
      ((hashed + 11400714819323198485 + seed * 2 ^ 6 % 2 ^ 64 + seed / 2 ^ 2) % 2 ^ 64)

module _ (hash_int : ℤ → ℕ) (hash_string : Bytes → ℕ) where
  abbrev pub hashed_value : TypedCell → ℕ
  hashed_value cell = if cell.is_null then 5871781006564002453 else elim cell.type [
    | int64 ↦ hash_int cell.int_value
    | string ↦ hash_string cell.string_value
  ]

  abbrev pub type_number : ColumnType → ℕ
  type_number int64 = 0
  type_number string = 1

  unfoldable pub hash_cell : TypedCell → ℕ
  unfolding mix
  hash_cell cell = mix (type_number cell.type) (hashed_value cell)

  unfoldable pub hash_values : ℕ → List TypedCell → ℕ
  unfolding mix hash_cell
  hash_values seed [] = seed
  hash_values seed (value ∷ values) = hash_values (mix seed (hash_cell value)) values

  -- HashKeyHash::operator()
  unfoldable pub hash_key : List TypedCell → ℕ
  unfolding hash_values
  hash_key values = hash_values (length values) values

-- HashKey::operator==, on the keys' values
unfoldable pub key_eq : List TypedCell → List TypedCell → Bool
unfolding typed_eq
key_eq = equal_elements typed_eq
