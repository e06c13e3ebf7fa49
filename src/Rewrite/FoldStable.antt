-- ===== src/Rewrite/FoldStable.antt =====
-- Folding finds everything in one pass.
use vectorized_sql_engine.Base.{ℕ, ◌≡◌, refl, sym, subst, Bool, arith}
use vectorized_sql_engine.Plan.{
  BoundComparisonExpr, BoundPredicate, comparison, is_null, is_not_null, is_in, not_in, exists,
  not_exists, both, either,
}
use vectorized_sql_engine.Rewrite.Fold.{
  canonical_true, canonical_false, fold_comparison, fold_and, fold_or, fold_predicate_tree,
}

abbrev IsFolded : BoundPredicate → Type 0
IsFolded p = (changed : Bool) → fold_predicate_tree p changed ≡ (p, changed)

canonical_true-IsFolded : IsFolded canonical_true
unfolding fold_predicate_tree
canonical_true-IsFolded changed = refl

canonical_false-IsFolded : IsFolded canonical_false
unfolding fold_predicate_tree
canonical_false-IsFolded changed = refl

comparison-fold :
    (c : BoundComparisonExpr) (changed : Bool)
    → fold_predicate_tree (comparison c) changed ≡ fold_comparison c changed
unfolding fold_predicate_tree
comparison-fold c changed = refl

fold_comparison-IsFolded :
    (c : BoundComparisonExpr) (before : Bool) → IsFolded (fold_comparison c before).0
unfolding fold_comparison
fold_comparison-IsFolded c before changed = ground (
  arith,
  canonical_true-IsFolded changed,
  canonical_false-IsFolded changed,
  comparison-fold c changed,
)

module _ (p q : BoundPredicate) (position : ℕ) (before changed : Bool)
    (hp : fold_predicate_tree p changed ≡ (p, changed))
    (hq : fold_predicate_tree q changed ≡ (q, changed)) where
  both-fold : fold_predicate_tree (both p q position) changed ≡ fold_and p q position changed
  unfolding fold_predicate_tree
  both-fold = rw hp (rw hq refl)

  either-fold : fold_predicate_tree (either p q position) changed ≡ fold_or p q position changed
  unfolding fold_predicate_tree
  either-fold = rw hp (rw hq refl)

  fold_and-IsFolded :
      fold_predicate_tree (fold_and p q position before).0 changed
      ≡ ((fold_and p q position before).0, changed)
  unfolding fold_and
  fold_and-IsFolded = ground (arith, both-fold, hp, hq, canonical_false-IsFolded changed)

  fold_or-IsFolded :
      fold_predicate_tree (fold_or p q position before).0 changed
      ≡ ((fold_or p q position before).0, changed)
  unfolding fold_or
  fold_or-IsFolded = ground (arith, either-fold, hp, hq, canonical_true-IsFolded changed)

abbrev Idempotent : BoundPredicate × Bool → Bool → Type 0
Idempotent folded changed = fold_predicate_tree folded.0 changed ≡ (folded.0, changed)

module _ (p q : BoundPredicate) (position : ℕ) (before changed : Bool) where
  abbrev left' : BoundPredicate × Bool
  left' = fold_predicate_tree p before

  abbrev right' : BoundPredicate × Bool
  right' = fold_predicate_tree q left'.1

  unfold_both :
      Idempotent (fold_and left'.0 right'.0 position right'.1) changed
      → Idempotent (fold_predicate_tree (both p q position) before) changed
  unfold_both h =
      let e : fold_predicate_tree (both p q position) before
          ≡ fold_and left'.0 right'.0 position right'.1 =
        unfold fold_predicate_tree in refl in
      subst (λ f. Idempotent f changed) (sym e) h

  unfold_either :
      Idempotent (fold_or left'.0 right'.0 position right'.1) changed
      → Idempotent (fold_predicate_tree (either p q position) before) changed
  unfold_either h =
      let e : fold_predicate_tree (either p q position) before
          ≡ fold_or left'.0 right'.0 position right'.1 =
        unfold fold_predicate_tree in refl in
      subst (λ f. Idempotent f changed) (sym e) h

-- A folded tree folds to itself and reports no change, so that the rule does not fire on it again.
pub fold_idem :
    (p : BoundPredicate) (before changed : Bool)
    → fold_predicate_tree (fold_predicate_tree p before).0 changed
      ≡ ((fold_predicate_tree p before).0, changed)
fold_idem (comparison c) before changed =
    unfold fold_predicate_tree in fold_comparison-IsFolded c before changed
fold_idem (both p q position) before changed =
    let p' = fold_predicate_tree p before in
    let q' = fold_predicate_tree q p'.1 in
    unfold_both p q position before changed (
      fold_and-IsFolded p'.0 q'.0 position q'.1 changed (fold_idem p before changed)
        (fold_idem q p'.1 changed))
fold_idem (either p q position) before changed =
    let p' = fold_predicate_tree p before in
    let q' = fold_predicate_tree q p'.1 in
    unfold_either p q position before changed (
      fold_or-IsFolded p'.0 q'.0 position q'.1 changed (fold_idem p before changed)
        (fold_idem q p'.1 changed))
fold_idem (is_null _ _) before changed = unfold fold_predicate_tree in refl
fold_idem (is_not_null _ _) before changed = unfold fold_predicate_tree in refl
fold_idem (is_in _ _ _ _) before changed = unfold fold_predicate_tree in refl
fold_idem (not_in _ _ _ _) before changed = unfold fold_predicate_tree in refl
fold_idem (exists _ _ _) before changed = unfold fold_predicate_tree in refl
fold_idem (not_exists _ _ _) before changed = unfold fold_predicate_tree in refl
