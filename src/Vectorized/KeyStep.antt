-- ===== src/Vectorized/KeyStep.antt =====
-- src/execution/vectorized.cpp: one more column of the keys of a pair of rows, and the conjunction
-- of its compiled predicates.
use vectorized_sql_engine.Base.{
  equal_elements, ℕ, ◌≡◌, refl, ap, ap₂, sym, ◌∙◌, Bool, true, false, not, ◌&&◌, Option, none, some,
  List, [], ◌∷◌, Result, ok, err, and_then, and_then-eq-ok, arith, if◌then◌else◌, inl, inr, ◌⊎◌,
}
use vectorized_sql_engine.Execution.Cell.{Cell}
use vectorized_sql_engine.Execution.Truth.{TruthValue, and_truth, is_true}
use vectorized_sql_engine.Vectorized.Cells.{typed_eq, key_eq}
use vectorized_sql_engine.Vectorized.Scalars.{CompiledColumn, compiled_cell}
use vectorized_sql_engine.Vectorized.Predicates.{CompiledPredicate, evaluate_all}
use vectorized_sql_engine.Vectorized.JoinLoops.{HashKey, make_non_null_key, cons_key}
use vectorized_sql_engine.Vectorized.EqualCells.{equal_cells}
use vectorized_sql_engine.Vectorized.HashTable.{keys_match}
use vectorized_sql_engine.Vectorized.JoinScalars.{
  CompiledJoinScalar, evaluate_compiled_join_predicate, join_cell, join_is_null,
}

-- What a key of one more column is made of.
key_parts :
    (row : ℕ) (x : CompiledColumn) (xs : List CompiledColumn) (key : Option HashKey)
    → make_non_null_key row (x ∷ xs) ≡ ok key
    → (v : Cell) × (compiled_cell x row ≡ ok v)
      × (((v.is_null ≡ true) × (none ≡ key))
          ⊎ ((v.is_null ≡ false)
              × (rest : Option HashKey) × (make_non_null_key row xs ≡ ok rest)
              × (cons_key v rest ≡ key)))
unfolding make_non_null_key
key_parts row x xs key h =
    let (v, cell, h') = and_then-eq-ok (compiled_cell x row) _ h in
    (v, cell, by_null v _ v.is_null refl h')
  where
    by_null :
        (v : Cell) (rest : Result (Option HashKey)) (b : Bool)
        → v.is_null ≡ b
        → (if b then ok none else and_then rest (λ k. ok (cons_key v k))) ≡ ok key
        → ((v.is_null ≡ true) × (none ≡ key))
          ⊎ ((v.is_null ≡ false) × (r : Option HashKey) × (rest ≡ ok r) × (cons_key v r ≡ key))
    by_null v rest true e k = inl (e, cc k)
    by_null v rest false e k = let (r, f, g) = and_then-eq-ok rest _ k in inr (e, r, f, cc g)

and_true_is : (t u : TruthValue) → is_true (and_truth t u) ≡ (is_true t && is_true u)
and_true_is t u = ground arith

and_false : (a : Bool) → false ≡ (a && false)
and_false a = ground arith

and_unit : (a : Bool) → a ≡ (a && true)
and_unit a = ground arith

and_assoc : (a b c : Bool) → ((a && b) && c) ≡ (a && (b && c))
and_assoc a b c = ground arith

pub and_swap : (a b c : Bool) → (a && (b && c)) ≡ (b && (a && c))
and_swap a b c = ground arith

abbrev truth_of : Result TruthValue → Bool
truth_of (ok t) = is_true t
truth_of (err e) = false

keys_match-none : (k : Option HashKey) → keys_match k none ≡ false
keys_match-none none = refl
keys_match-none (some k) = refl

pub key_none :
    (row : ℕ) (xs : List CompiledColumn) (key : Option HashKey)
    → [] ≡ xs
    → make_non_null_key row xs ≡ ok key
    → some [] ≡ key
unfolding make_non_null_key
key_none row xs key h k = cc (ap (λ xs. make_non_null_key row xs) h ∙ k)

pub keys_match-nil : keys_match (some []) (some []) ≡ true
unfolding key_eq equal_elements
keys_match-nil = refl

module _ (i j : ℕ) where
  -- The compiled predicates have truth values on the pair, all TRUE exactly if `b`.
  abbrev pub AllTrue : List (CompiledPredicate CompiledJoinScalar) → Bool → Type 0
  AllTrue [] b = true ≡ b
  AllTrue (c ∷ cs) b =
      (t : TruthValue) × (evaluate_compiled_join_predicate c i j ≡ ok t)
      × (rest : Bool) × AllTrue cs rest
      × ((is_true t && rest) ≡ b)

  pub AllTrue-evaluate_all :
      (keep : TruthValue) (cs : List (CompiledPredicate CompiledJoinScalar)) (t : TruthValue)
      → evaluate_all (λ s. join_is_null s i j) (λ s. join_cell s i j) keep cs ≡ ok t
      → (b : Bool) × AllTrue cs b × (is_true t ≡ (is_true keep && b))
  unfolding evaluate_all evaluate_compiled_join_predicate
  AllTrue-evaluate_all keep [] t h =
      (true, refl, sym (ap (λ m. truth_of m) h) ∙ and_unit (is_true keep))
  AllTrue-evaluate_all keep (c ∷ cs) t h =
      let (u, e, h') = and_then-eq-ok (evaluate_compiled_join_predicate c i j) _ h in
      let (b, all, same) = AllTrue-evaluate_all (and_truth keep u) cs t h' in
      (
        is_true u && b,
        (u, e, b, all, refl),
        same ∙ ap (λ x. x && b) (and_true_is keep u) ∙ and_assoc (is_true keep) (is_true u) b,
      )

  keys_match-cons :
      (a b : Cell) (k m : Option HashKey)
      → keys_match (cons_key a k) (cons_key b m) ≡ (typed_eq b a && keys_match k m)
  unfolding key_eq equal_elements
  keys_match-cons a b none m = and_false (typed_eq b a)
  keys_match-cons a b (some k) none = and_false (typed_eq b a)
  keys_match-cons a b (some k) (some m) = refl

  -- One more column of the keys.
  pub key_step :
      (x y : CompiledColumn) (xs ys : List CompiledColumn) (lkey rkey : Option HashKey)
      (t rest u : Bool)
      → ((a b : Cell) → compiled_cell x i ≡ ok a → compiled_cell y j ≡ ok b → t ≡ equal_cells a b)
      → make_non_null_key i (x ∷ xs) ≡ ok lkey
      → make_non_null_key j (y ∷ ys) ≡ ok rkey
      → ((k m : Option HashKey)
          → make_non_null_key i xs ≡ ok k
          → make_non_null_key j ys ≡ ok m
          → rest ≡ (keys_match k m && u))
      → (t && rest) ≡ (keys_match lkey rkey && u)
  key_step x y xs ys lkey rkey t rest u same hl hr ih =
      let (a, ca, l) = key_parts i x xs lkey hl in
      let (b, cb, r) = key_parts j y ys rkey hr in by_nulls a b (same a b ca cb) l r
    where
      by_nulls :
          (a b : Cell)
          → t ≡ equal_cells a b
          → ((a.is_null ≡ true) × (none ≡ lkey))
            ⊎ ((a.is_null ≡ false)
                × (k : Option HashKey) × (make_non_null_key i xs ≡ ok k)
                × (cons_key a k ≡ lkey))
          → ((b.is_null ≡ true) × (none ≡ rkey))
            ⊎ ((b.is_null ≡ false)
                × (k : Option HashKey) × (make_non_null_key j ys ≡ ok k)
                × (cons_key b k ≡ rkey))
          → (t && rest) ≡ (keys_match lkey rkey && u)
      by_nulls a b e (inl (n, none_l)) r =
          ap (λ x. x && rest) (e ∙ ap (λ n. not n && (not b.is_null && typed_eq b a)) n)
          ∙ ap (λ k. keys_match k rkey && u) none_l
      by_nulls a b e (inr (n, k, hk, some_l)) (inl (m, none_r)) =
          ap (λ x. x && rest) (e ∙ ap₂ (λ n m. not n && (not m && typed_eq b a)) n m)
          ∙ sym (ap (λ b. b && u) (keys_match-none lkey))
          ∙ ap (λ k. keys_match lkey k && u) none_r
      by_nulls a b e (inr (n, k, hk, some_l)) (inr (m, k', hk', some_r)) =
          ap₂ (λ x y. x && y) (e ∙ ap₂ (λ n m. not n && (not m && typed_eq b a)) n m)
            (ih k k' hk hk')
          ∙ sym (and_assoc (typed_eq b a) (keys_match k k') u)
          ∙ ap (λ x. x && u) (sym (keys_match-cons a b k k'))
          ∙ ap₂ (λ k m. keys_match k m && u) some_l some_r
