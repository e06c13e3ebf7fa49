-- ===== src/Execution/Cell/Order.antt =====
-- The order of cells is a strict weak ordering, as std::map and std::stable_sort require, and the
-- cells that it does not tell apart are the equal ones.
use vectorized_sql_engine.Base.{
  ◌≡◌, true, false, arith, IsStrictWeakOrder, lexicographical_compare-IsStrictWeakOrder,
  str-IsStrictWeakOrder, str_lt, str_eq,
}
use vectorized_sql_engine.Execution.Cell.{Cell, cell_eq, cell_lt, row_lt, row_eq}

abbrev texts : IsStrictWeakOrder str_lt str_eq
texts = str-IsStrictWeakOrder

cell_eq_refl : (a : Cell) → cell_eq a a ≡ true
unfolding cell_eq
cell_eq_refl a = ground (arith, texts.eq_refl a.string_value)

cell_lt_asym : (a b : Cell) → cell_lt a b ≡ true → cell_lt b a ≡ false
unfolding cell_lt
cell_lt_asym a b h = ground (arith, texts.lt_asym a.string_value b.string_value)

cell_lt_trans : (a b c : Cell) → cell_lt a b ≡ true → cell_lt b c ≡ true → cell_lt a c ≡ true
unfolding cell_lt
cell_lt_trans a b c h k =
    ground (arith, texts.lt_trans a.string_value b.string_value c.string_value)

cell_incomparable : (a b : Cell) → cell_lt a b ≡ false → cell_lt b a ≡ false → cell_eq a b ≡ true
unfolding cell_lt cell_eq
cell_incomparable a b h k = ground (arith, texts.eq_iff_incomparable a.string_value b.string_value)

cell_lt-ne : (a b : Cell) → cell_eq a b ≡ true → cell_lt a b ≡ false
unfolding cell_lt cell_eq
cell_lt-ne a b h = ground (arith, texts.lt-ne a.string_value b.string_value)

cell_eq_sym : (a b : Cell) → cell_eq a b ≡ true → cell_eq b a ≡ true
unfolding cell_eq
cell_eq_sym a b h = ground (arith, texts.eq_sym a.string_value b.string_value)

cell_lt_eq : (a b c : Cell) → cell_lt a b ≡ true → cell_eq b c ≡ true → cell_lt a c ≡ true
unfolding cell_lt cell_eq
cell_lt_eq a b c h k =
    ground (arith, texts.lt_of_lt_eq a.string_value b.string_value c.string_value)

cell_eq_lt : (a b c : Cell) → cell_eq a b ≡ true → cell_lt b c ≡ true → cell_lt a c ≡ true
unfolding cell_lt cell_eq
cell_eq_lt a b c h k =
    ground (arith, texts.lt_of_eq_lt a.string_value b.string_value c.string_value)

cell_eq_trans : (a b c : Cell) → cell_eq a b ≡ true → cell_eq b c ≡ true → cell_eq a c ≡ true
unfolding cell_eq
cell_eq_trans a b c h k =
    ground (arith, texts.eq_trans a.string_value b.string_value c.string_value)

pub cell-IsStrictWeakOrder : IsStrictWeakOrder cell_lt cell_eq
cell-IsStrictWeakOrder = record {
  eq_refl = cell_eq_refl;
  lt_asym = cell_lt_asym;
  lt_trans = cell_lt_trans;
  eq_iff_incomparable = cell_incomparable;
  lt-ne = cell_lt-ne;
  eq_sym = cell_eq_sym;
  lt_of_lt_eq = cell_lt_eq;
  lt_of_eq_lt = cell_eq_lt;
  eq_trans = cell_eq_trans;
}

-- operator< on rows of cells, the order of the std::map behind GROUP BY, PARTITION BY and DISTINCT,
-- is a strict weak ordering whose equivalence is operator== on rows: NULLs of one type are equal.
pub row-IsStrictWeakOrder : IsStrictWeakOrder row_lt row_eq
row-IsStrictWeakOrder = lexicographical_compare-IsStrictWeakOrder cell-IsStrictWeakOrder
