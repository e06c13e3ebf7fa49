-- ===== src/Vectorized/CellCompare.antt =====
-- src/execution/vectorized.cpp: compare_cells against the interpreter's compare_values.
use vectorized_sql_engine.Base.{
  ℤ, ltb_ℤ, eqb_ℤ, ◌≡◌, refl, ap, sym, ◌∙◌, Bool, true, false, not, ◌||◌, ok, str_lt, str_eq, Bytes,
}
use vectorized_sql_engine.Catalog.{ColumnType, int64, string}
use vectorized_sql_engine.Sql.Ast.{
  ComparisonOp, equal, not_equal, less, less_equal, greater, greater_equal,
}
use vectorized_sql_engine.Execution.Cell.{Cell, cell_eq, cell_lt, compare_values}
use vectorized_sql_engine.Execution.Cell.Order.{cell-IsStrictWeakOrder}
use vectorized_sql_engine.Vectorized.Predicates.{
  compare_int_values, compare_string_values, compare_cells,
}

-- The comparisons by `<` in the two directions and `==`, as the vectorized executor makes them.
abbrev by_order : (lt gt eq : Bool) → ComparisonOp → Bool
by_order lt gt eq equal = eq
by_order lt gt eq not_equal = not eq
by_order lt gt eq less = lt
by_order lt gt eq less_equal = not gt
by_order lt gt eq greater = gt
by_order lt gt eq greater_equal = not lt

le_step :
    (lt gt eq : Bool)
    → (lt ≡ true → gt ≡ false)
    → (lt ≡ false → gt ≡ false → eq ≡ true)
    → (eq ≡ true → gt ≡ false)
    → not gt ≡ (lt || eq)
le_step true true eq h k l = absurd (cc (h refl))
le_step true false eq h k l = refl
le_step false true true h k l = absurd (cc (l refl))
le_step false true false h k l = refl
le_step false false eq h k l = sym (k refl refl)

-- `<=` and `>=`, which the interpreter computes as a strict comparison or equality.
compare_values-order :
    (a b : Cell) (op : ComparisonOp)
    → compare_values a op b ≡ by_order (cell_lt a b) (cell_lt b a) (cell_eq a b) op
unfolding compare_values
compare_values-order a b equal = refl
compare_values-order a b not_equal = refl
compare_values-order a b less = refl
compare_values-order a b greater = refl
compare_values-order a b less_equal =
    let o = cell-IsStrictWeakOrder in
    sym (
      le_step (cell_lt a b) (cell_lt b a) (cell_eq a b) (o.lt_asym a b) (o.eq_iff_incomparable a b)
        (λ e. o.lt-ne b a (o.eq_sym a b e)))
compare_values-order a b greater_equal =
    let o = cell-IsStrictWeakOrder in
    sym (
      le_step (cell_lt b a) (cell_lt a b) (cell_eq a b) (o.lt_asym b a)
        (λ h k. o.eq_iff_incomparable a b k h) (λ e. o.lt-ne a b e))

int-order :
    (x y : ℤ) (op : ComparisonOp)
    → compare_int_values x op y ≡ by_order (ltb_ℤ x y) (ltb_ℤ y x) (eqb_ℤ x y) op
unfolding compare_int_values
int-order x y equal = refl
int-order x y not_equal = refl
int-order x y less = refl
int-order x y less_equal = refl
int-order x y greater = refl
int-order x y greater_equal = refl

string-order :
    (x y : Bytes) (op : ComparisonOp)
    → compare_string_values x op y ≡ by_order (str_lt x y) (str_lt y x) (str_eq x y) op
unfolding compare_string_values
string-order x y equal = refl
string-order x y not_equal = refl
string-order x y less = refl
string-order x y less_equal = refl
string-order x y greater = refl
string-order x y greater_equal = refl

by_order-cong :
    {lt gt eq lt' gt' eq' : Bool}
    → lt ≡ lt'
    → gt ≡ gt'
    → eq ≡ eq'
    → (op : ComparisonOp) → by_order lt gt eq op ≡ by_order lt' gt' eq' op
by_order-cong a b c op i = by_order (a i) (b i) (c i) op

int_lt :
    (a b : Cell)
    → a.type ≡ int64
    → b.type ≡ int64
    → a.is_null ≡ false
    → b.is_null ≡ false
    → ltb_ℤ a.int_value b.int_value ≡ cell_lt a b
unfolding cell_lt
int_lt a b t u h k = rw t (rw u (rw h (rw k refl)))

int_eq :
    (a b : Cell)
    → a.type ≡ int64
    → b.type ≡ int64
    → a.is_null ≡ false
    → b.is_null ≡ false
    → eqb_ℤ a.int_value b.int_value ≡ cell_eq a b
unfolding cell_eq
int_eq a b t u h k = rw t (rw u (rw h (rw k refl)))

string_lt :
    (a b : Cell)
    → a.type ≡ string
    → b.type ≡ string
    → a.is_null ≡ false
    → b.is_null ≡ false
    → str_lt a.string_value b.string_value ≡ cell_lt a b
unfolding cell_lt
string_lt a b t u h k = rw t (rw u (rw h (rw k refl)))

string_eq :
    (a b : Cell)
    → a.type ≡ string
    → b.type ≡ string
    → a.is_null ≡ false
    → b.is_null ≡ false
    → str_eq a.string_value b.string_value ≡ cell_eq a b
unfolding cell_eq
string_eq a b t u h k = rw t (rw u (rw h (rw k refl)))

compare_cells-int64 :
    (a b : Cell) (op : ComparisonOp)
    → a.type ≡ int64
    → b.type ≡ int64
    → compare_cells a op b ≡ ok (compare_int_values a.int_value op b.int_value)
unfolding compare_cells
compare_cells-int64 a b op t u = rw t (rw u refl)

compare_cells-string :
    (a b : Cell) (op : ComparisonOp)
    → a.type ≡ string
    → b.type ≡ string
    → compare_cells a op b ≡ ok (compare_string_values a.string_value op b.string_value)
unfolding compare_cells
compare_cells-string a b op t u = rw t (rw u refl)

-- On cells of one type that are not NULL, both executors compare alike.
pub compare_cells-plain :
    (type : ColumnType) (a b : Cell) (op : ComparisonOp)
    → a.type ≡ type
    → b.type ≡ type
    → a.is_null ≡ false
    → b.is_null ≡ false
    → compare_cells a op b ≡ ok (compare_values a op b)
compare_cells-plain int64 a b op t u h k =
    compare_cells-int64 a b op t u
    ∙ ap (λ x. ok x)
        (int-order a.int_value b.int_value op
          ∙ by_order-cong (int_lt a b t u h k) (int_lt b a u t k h) (int_eq a b t u h k) op
          ∙ sym (compare_values-order a b op))
compare_cells-plain string a b op t u h k =
    compare_cells-string a b op t u
    ∙ ap (λ x. ok x)
        (string-order a.string_value b.string_value op
          ∙ by_order-cong (string_lt a b t u h k) (string_lt b a u t k h) (string_eq a b t u h k) op
          ∙ sym (compare_values-order a b op))
