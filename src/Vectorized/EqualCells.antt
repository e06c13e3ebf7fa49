-- ===== src/Vectorized/EqualCells.antt =====
-- src/execution/vectorized.cpp: the SQL equality of two cells, as compare_cells computes it and as
-- the keys of hash tables do.
use vectorized_sql_engine.Base.{
  ◌≡◌, refl, ap, sym, ◌∙◌, Bool, true, false, not, ◌&&◌, Result, ok, err, and_then, and_then-eq-ok,
  arith, if◌then◌else◌, Bool-cases, inl, inr,
}
use vectorized_sql_engine.Sql.Ast.{ComparisonOp, equal}
use vectorized_sql_engine.Execution.Cell.{Cell}
use vectorized_sql_engine.Execution.Cell.Order.{cell-IsStrictWeakOrder}
use vectorized_sql_engine.Execution.Truth.{TruthValue, truth_from_bool, is_true}
use vectorized_sql_engine.Vectorized.Cells.{typed_eq}
use vectorized_sql_engine.Vectorized.Keys.{typed_eq-cell_eq}
use vectorized_sql_engine.Vectorized.Predicates.{
  compare_cells, compare_int_values, compare_string_values,
}

pub ok_value : {A : Type 0} → (a b : A) → ok a ≡ ok b → a ≡ b
ok_value a b h = cc h

compare_equal :
    (a b : Cell) (x : Bool)
    → compare_cells a equal b ≡ ok x
    → a.is_null ≡ false
    → b.is_null ≡ false
    → x ≡ typed_eq a b
unfolding compare_cells compare_int_values compare_string_values typed_eq
compare_equal a b x e h k = ground arith

typed_eq_sym : (a b : Cell) → typed_eq a b ≡ true → typed_eq b a ≡ true
typed_eq_sym a b h =
    let o = cell-IsStrictWeakOrder in
    typed_eq-cell_eq b a ∙ o.eq_sym a b (sym (typed_eq-cell_eq a b) ∙ h)

typed_eq_comm : (a b : Cell) → typed_eq a b ≡ typed_eq b a
typed_eq_comm a b = elim (Bool-cases (typed_eq a b)) [
  | inl e ↦ e ∙ sym (typed_eq_sym a b e)
  | inr e ↦ elim (Bool-cases (typed_eq b a)) [
    | inl f ↦ absurd (cc (typed_eq_sym b a f, e))
    | inr f ↦ e ∙ sym f
  ]
]

-- Whether the SQL equality of two cells is TRUE.
abbrev pub equal_cells : Cell → Cell → Bool
equal_cells a b = not a.is_null && (not b.is_null && typed_eq b a)

pub equal_cells_comm : (a b : Cell) → equal_cells a b ≡ equal_cells b a
equal_cells_comm a b = by_nulls a.is_null b.is_null (typed_eq_comm b a)
  where
    by_nulls : (m n : Bool) {d e : Bool} → d ≡ e → (not m && (not n && d)) ≡ (not n && (not m && e))
    by_nulls true true h = refl
    by_nulls true false h = refl
    by_nulls false true h = refl
    by_nulls false false h = h

abbrev is_true_of : Result TruthValue → Bool
is_true_of (ok t) = is_true t
is_true_of (err e) = false

of_bool : (b : Bool) → is_true (truth_from_bool b) ≡ b
of_bool true = refl
of_bool false = refl

equal_bits :
    (a_null b_null e : Bool) (r : Result Bool) (t : TruthValue)
    → ((x : Bool) → a_null ≡ false → b_null ≡ false → r ≡ ok x → x ≡ e)
    → (if a_null
        then ok TruthValue.unknown
        else if b_null
        then ok TruthValue.unknown
        else and_then r (λ x. ok (truth_from_bool x)))
      ≡ ok t
    → is_true t ≡ (not a_null && (not b_null && e))
equal_bits true b_null e r t h k = ap (λ m. is_true_of m) (sym k)
equal_bits false true e r t h k = ap (λ m. is_true_of m) (sym k)
equal_bits false false e r t h k =
    let (x, rx, k') = and_then-eq-ok r _ k in
    ap (λ m. is_true_of m) (sym k') ∙ of_bool x ∙ h x refl refl rx

-- The truth value of the SQL equality of two cells, where it has one.
pub equal_truth :
    (op : ComparisonOp) (a b : Cell) (t : TruthValue)
    → op ≡ equal
    → (if a.is_null
        then ok TruthValue.unknown
        else if b.is_null
        then ok TruthValue.unknown
        else and_then (compare_cells a op b) (λ x. ok (truth_from_bool x)))
      ≡ ok t
    → is_true t ≡ equal_cells a b
equal_truth op a b t same h =
    equal_bits a.is_null b.is_null (typed_eq b a) (compare_cells a op b) t
      (λ x n m e.
        compare_equal a b x (ap (λ o. compare_cells a o b) (sym same) ∙ e) n m ∙ typed_eq_comm a b)
      h
