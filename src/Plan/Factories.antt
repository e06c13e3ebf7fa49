-- ===== src/Plan/Factories.antt =====
-- include/plan/logical_plan.hpp: the two factories of LogicalPlan that check what they are given. The
-- others fill the fields of their kind, as the constructors of the type do.
use vectorized_sql_engine.Base.{
  not, ◌≡◌, refl, none, some, List, Result, ok, err, throw, Exception, if◌then◌else◌, Bool-cases,
  inl, inr,
}
use vectorized_sql_engine.Plan.{
  LogicalPlan, BoundPredicate, comparison, JoinKind, inner, left, semi, anti, null_aware_anti,
  fresh_info,
}
use vectorized_sql_engine.Execution.Cell.{type_eq}
use vectorized_sql_engine.Execution.Join.{is_equal, check_join}

unfoldable pub make_join :
    List BoundPredicate → LogicalPlan → LogicalPlan → JoinKind → Result LogicalPlan
make_join predicates l r null_aware_anti =
    throw Exception.invalid_argument
      "NullAwareAnti must be constructed with an explicit membership equality"
make_join predicates l r kind = ok (LogicalPlan.join fresh_info kind predicates none l r)

unfoldable pub make_null_aware_anti :
    BoundPredicate → LogicalPlan → LogicalPlan → List BoundPredicate → Result LogicalPlan
make_null_aware_anti (comparison c) l r predicates =
    if not (is_equal c.op)
    then throw Exception.invalid_argument "NullAwareAnti membership predicate must be an equality"
    else if not (type_eq (c.left).type (c.right).type)
    then throw Exception.invalid_argument
        "NullAwareAnti membership equality must have matching types"
    else ok (LogicalPlan.join fresh_info null_aware_anti predicates (some (comparison c)) l r)
make_null_aware_anti _ l r predicates =
    throw Exception.invalid_argument "NullAwareAnti membership predicate must be an equality"

-- An error, or a plan that passes the checks that execute_join makes.
abbrev pub Passes : Result LogicalPlan → Type 0
Passes (err e) = Unit
Passes (ok (LogicalPlan.join info kind predicates membership l r)) =
    check_join kind membership ≡ ok tt
Passes (ok _) = ⊥

make_join-Passes :
    (predicates : List BoundPredicate) (l r : LogicalPlan) (kind : JoinKind)
    → Passes (make_join predicates l r kind)
unfolding make_join check_join
make_join-Passes predicates l r inner = refl
make_join-Passes predicates l r left = refl
make_join-Passes predicates l r semi = refl
make_join-Passes predicates l r anti = refl
make_join-Passes predicates l r null_aware_anti = tt

make_null_aware_anti-Passes :
    (membership : BoundPredicate) (l r : LogicalPlan) (predicates : List BoundPredicate)
    → Passes (make_null_aware_anti membership l r predicates)
unfolding make_null_aware_anti check_join
make_null_aware_anti-Passes (comparison c) l r predicates = elim (Bool-cases (is_equal c.op)) [
  | inl equality ↦ elim (Bool-cases (type_eq (c.left).type (c.right).type)) [
    | inl same ↦ rw (equality, same) (rw (equality, same) refl)
    | inr other ↦ rw (equality, other) tt
  ]
  | inr other ↦ rw other tt
]
make_null_aware_anti-Passes (BoundPredicate.is_null _ _) l r predicates = tt
make_null_aware_anti-Passes (BoundPredicate.is_not_null _ _) l r predicates = tt
make_null_aware_anti-Passes (BoundPredicate.is_in _ _ _ _) l r predicates = tt
make_null_aware_anti-Passes (BoundPredicate.not_in _ _ _ _) l r predicates = tt
make_null_aware_anti-Passes (BoundPredicate.exists _ _ _) l r predicates = tt
make_null_aware_anti-Passes (BoundPredicate.not_exists _ _ _) l r predicates = tt
make_null_aware_anti-Passes (BoundPredicate.both _ _ _) l r predicates = tt
make_null_aware_anti-Passes (BoundPredicate.either _ _ _) l r predicates = tt

-- A join that a factory makes never fails the checks of execute_join: whatever join() and
-- null_aware_anti() are given, each throws or gives a Join whose kind and membership equality fit.
pub factories-Passes :
    (membership : BoundPredicate) (predicates : List BoundPredicate) (l r : LogicalPlan)
    (kind : JoinKind)
    → Passes (make_join predicates l r kind)
      × Passes (make_null_aware_anti membership l r predicates)
factories-Passes membership predicates l r kind =
    (make_join-Passes predicates l r kind, make_null_aware_anti-Passes membership l r predicates)
