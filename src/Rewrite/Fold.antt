-- ===== src/Rewrite/Fold.antt =====
-- Constant folding of predicate trees. The `changed` reference is returned beside the result.
use vectorized_sql_engine.Base.{
  ℕ, ℤ, pos, ltb_ℤ, eqb_ℤ, Bool, true, false, not, ◌&&◌, ◌||◌, Option, none, some, if◌then◌else◌,
}
use vectorized_sql_engine.Catalog.{ColumnType}
use vectorized_sql_engine.Sql.Ast.{
  ComparisonOp, equal, not_equal, less, less_equal, greater, greater_equal,
}
use vectorized_sql_engine.Plan.{
  Value, int_literal, BoundScalarExpr, BoundComparisonExpr, BoundPredicate, comparison, is_null,
  is_not_null, is_in, not_in, exists, not_exists, both, either,
}

abbrev value_literal : Value → Option ℤ
value_literal (int_literal v _) = some v
value_literal _ = none

unfoldable pub literal_value : BoundScalarExpr → Option ℤ
literal_value e = value_literal e.value

-- compare_values of rewrite.cpp, on two integers
unfoldable pub compare_integers : ℤ → ComparisonOp → ℤ → Bool
compare_integers l equal r = eqb_ℤ l r
compare_integers l not_equal r = not (eqb_ℤ l r)
compare_integers l less r = ltb_ℤ l r
compare_integers l less_equal r = not (ltb_ℤ r l)
compare_integers l greater r = ltb_ℤ r l
compare_integers l greater_equal r = not (ltb_ℤ l r)

abbrev int_literal_expr : ℤ → BoundScalarExpr
int_literal_expr v = record { value = int_literal v 0; type = ColumnType.int64 }

abbrev pub canonical : ℕ → BoundPredicate
canonical n = comparison (record {
  left = int_literal_expr (pos 1);
  op = equal;
  right = int_literal_expr (pos n);
  operator_position = 0;
})

abbrev pub canonical_true : BoundPredicate
canonical_true = canonical 1

abbrev pub canonical_false : BoundPredicate
canonical_false = canonical 0

abbrev has_value : Option ℤ → ℤ → Bool
has_value none expected = false
has_value (some v) expected = eqb_ℤ v expected

abbrev pub is_literal_with_value : BoundScalarExpr → ℤ → Bool
is_literal_with_value e expected = has_value (value_literal e.value) expected

abbrev is_equal : ComparisonOp → Bool
is_equal equal = true
is_equal _ = false

unfoldable pub is_canonical_true : BoundPredicate → Bool
is_canonical_true (comparison c) =
    is_equal c.op && is_literal_with_value c.left (pos 1) && is_literal_with_value c.right (pos 1)
is_canonical_true _ = false

unfoldable pub is_canonical_false : BoundPredicate → Bool
is_canonical_false (comparison c) =
    is_equal c.op && is_literal_with_value c.left (pos 1) && is_literal_with_value c.right (pos 0)
is_canonical_false _ = false

abbrev pub value_contains_subquery : Value → Bool
value_contains_subquery (Value.subquery _ _ _) = true
value_contains_subquery _ = false

abbrev pub scalar_contains_subquery : BoundScalarExpr → Bool
scalar_contains_subquery e = value_contains_subquery e.value

unfoldable pub predicate_contains_subquery : BoundPredicate → Bool
predicate_contains_subquery (comparison c) =
    scalar_contains_subquery c.left || scalar_contains_subquery c.right
predicate_contains_subquery (is_null e _) = scalar_contains_subquery e
predicate_contains_subquery (is_not_null e _) = scalar_contains_subquery e
predicate_contains_subquery (is_in _ _ _ _) = true
predicate_contains_subquery (not_in _ _ _ _) = true
predicate_contains_subquery (exists _ _ _) = true
predicate_contains_subquery (not_exists _ _ _) = true
predicate_contains_subquery (both l r _) =
    predicate_contains_subquery l || predicate_contains_subquery r
predicate_contains_subquery (either l r _) =
    predicate_contains_subquery l || predicate_contains_subquery r

-- Folding a comparison of two literals that is not canonical.
abbrev pub fold_literals : BoundComparisonExpr → Option ℤ → Option ℤ → Bool → BoundPredicate × Bool
fold_literals c (some l) (some r) changed =
    (if compare_integers l c.op r then canonical_true else canonical_false, true)
fold_literals c _ _ changed = (comparison c, changed)

unfoldable pub fold_comparison : BoundComparisonExpr → Bool → BoundPredicate × Bool
unfolding is_canonical_true is_canonical_false literal_value compare_integers
fold_comparison c changed =
    if is_canonical_true (comparison c) || is_canonical_false (comparison c)
    then (comparison c, changed)
    else fold_literals c (literal_value c.left) (literal_value c.right) changed

-- The And case, on the folded children.
unfoldable pub fold_and : BoundPredicate → BoundPredicate → ℕ → Bool → BoundPredicate × Bool
unfolding is_canonical_true is_canonical_false predicate_contains_subquery
fold_and l r position changed =
    let would_drop_subquery =
      (is_canonical_false l && predicate_contains_subquery r)
      || (is_canonical_false r && predicate_contains_subquery l) in
    if (is_canonical_false l || is_canonical_false r) && not would_drop_subquery
    then (canonical_false, true)
    else if is_canonical_true l
    then (r, true)
    else if is_canonical_true r
    then (l, true)
    else (both l r position, changed)

-- The Or case, on the folded children.
unfoldable pub fold_or : BoundPredicate → BoundPredicate → ℕ → Bool → BoundPredicate × Bool
unfolding is_canonical_true is_canonical_false predicate_contains_subquery
fold_or l r position changed =
    let would_drop_subquery =
      (is_canonical_true l && predicate_contains_subquery r)
      || (is_canonical_true r && predicate_contains_subquery l) in
    if (is_canonical_true l || is_canonical_true r) && not would_drop_subquery
    then (canonical_true, true)
    else if is_canonical_false l
    then (r, true)
    else if is_canonical_false r
    then (l, true)
    else (either l r position, changed)

unfoldable pub fold_predicate_tree : BoundPredicate → Bool → BoundPredicate × Bool
unfolding fold_comparison fold_and fold_or
fold_predicate_tree (comparison c) changed = fold_comparison c changed
fold_predicate_tree (both l r position) changed =
    let left = fold_predicate_tree l changed in
    let right = fold_predicate_tree r left.1 in fold_and left.0 right.0 position right.1
fold_predicate_tree (either l r position) changed =
    let left = fold_predicate_tree l changed in
    let right = fold_predicate_tree r left.1 in fold_or left.0 right.0 position right.1
fold_predicate_tree predicate changed = (predicate, changed)
