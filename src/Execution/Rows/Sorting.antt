-- ===== src/Execution/Rows/Sorting.antt =====
-- src/execution/interpreter.cpp: what std::stable_sort gives stable_sorted_rows, when the rows can
-- be compared without an error.
use mathlib.Core.List.{Permᴰ}
use mathlib.Core.List.Permᴰ
use vectorized_sql_engine.Base.{
  ℕ, ◌≡◌, refl, ◌∙◌, ap, Bool, true, false, not, ◌&&◌, List, [], ◌∷◌, all, ok, if◌then◌else◌, arith,
  Bool-cases, inl, inr, IsStrictWeakOrder, ltb, ltb→lt, lt→ltb, ◌<◌, ◌≤◌, ◌+◌, range, zero, suc,
}
use vectorized_sql_engine.Execution.Context.{ExecutionContext, M}
use vectorized_sql_engine.Execution.JoinSpec.{keep_if}
use vectorized_sql_engine.Execution.Rows.{insert_row, stable_sort}

module _ (lt : ℕ → ℕ → Bool) where
  -- No element precedes one that stands before it.
  abbrev pub sorted : List ℕ → Bool
  sorted [] = true
  sorted (x ∷ xs) = all (λ y. not (lt y x)) xs && sorted xs

  abbrev insert : ℕ → List ℕ → List ℕ
  insert x [] = x ∷ []
  insert x (y ∷ ys) = if lt y x then y ∷ insert x ys else x ∷ y ∷ ys

  abbrev sort : List ℕ → List ℕ
  sort [] = []
  sort (x ∷ xs) = insert x (sort xs)

all-insert :
    (lt : ℕ → ℕ → Bool) (p : ℕ → Bool) (x : ℕ) (ys : List ℕ)
    → all p (insert lt x ys) ≡ p x && all p ys
all-insert lt p x [] = refl
all-insert lt p x (y ∷ ys) = ground (arith, all-insert lt p x ys)

all-sort : (lt : ℕ → ℕ → Bool) (p : ℕ → Bool) (xs : List ℕ) → all p (sort lt xs) ≡ all p xs
all-sort lt p [] = refl
all-sort lt p (x ∷ xs) = all-insert lt p x (sort lt xs) ∙ ap (λ b. p x && b) (all-sort lt p xs)

-- The comparison of any two of the first `rows` rows gives `lt`, and leaves the context alone.
abbrev pub Compares : (ℕ → ℕ → M Bool) → (ℕ → ℕ → Bool) → ℕ → ExecutionContext → Type 0
Compares less lt rows σ = (i j : ℕ) → i < rows → j < rows → less i j σ ≡ ok (lt i j, σ)

module _ (lt : ℕ → ℕ → Bool) (less : ℕ → ℕ → M Bool) (rows : ℕ) (σ : ExecutionContext)
    (compares : Compares less lt rows σ) where
  insert_row-insert :
      (x : ℕ) (ys : List ℕ)
      → x < rows
      → all (λ y. ltb y rows) ys ≡ true
      → insert_row less x ys σ ≡ ok (insert lt x ys, σ)
  unfolding insert_row
  insert_row-insert x [] b h = refl
  insert_row-insert x (y ∷ ys) b h =
      let in_range : y < rows = ltb→lt y rows (ground arith) in
      let others : all (λ z. ltb z rows) ys ≡ true = ground arith in
      elim (Bool-cases (lt y x)) [
        | inl before ↦
            rw (compares y x in_range b) (rw before (rw (insert_row-insert x ys b others) refl))
        | inr after ↦ rw (compares y x in_range b) (rw after refl)
      ]

  stable_sort-sort :
      (xs : List ℕ) → all (λ y. ltb y rows) xs ≡ true → stable_sort less xs σ ≡ ok (sort lt xs, σ)
  unfolding stable_sort
  stable_sort-sort [] h = refl
  stable_sort-sort (x ∷ xs) h =
      let in_range : x < rows = ltb→lt x rows (ground arith) in
      let others : all (λ z. ltb z rows) xs ≡ true = ground arith in
      rw (stable_sort-sort xs others)
        (insert_row-insert x (sort lt xs) in_range (all-sort lt (λ z. ltb z rows) xs ∙ others))

insert-Perm : (lt : ℕ → ℕ → Bool) (x : ℕ) (ys : List ℕ) → Permᴰ (x ∷ ys) (insert lt x ys)
insert-Perm lt x [] = Permᴰ.refl (x ∷ [])
insert-Perm lt x (y ∷ ys) = elim (Bool-cases (lt y x)) [
  | inl h ↦ rw h (Permᴰ.trans (Permᴰ.swap refl refl) (Permᴰ.cons refl (insert-Perm lt x ys)))
  | inr h ↦ rw h (Permᴰ.refl (x ∷ y ∷ ys))
]

sort-Perm : (lt : ℕ → ℕ → Bool) (xs : List ℕ) → Permᴰ xs (sort lt xs)
sort-Perm lt [] = Permᴰ.nil
sort-Perm lt (x ∷ xs) =
    Permᴰ.trans (Permᴰ.cons refl (sort-Perm lt xs)) (insert-Perm lt x (sort lt xs))

module _ (lt eq : ℕ → ℕ → Bool) (o : IsStrictWeakOrder lt eq) where
  -- What follows y follows x, if x does not follow y.
  all-after :
      (x y : ℕ) (ys : List ℕ)
      → lt y x ≡ false
      → all (λ z. not (lt z y)) ys ≡ true
      → all (λ z. not (lt z x)) ys ≡ true
  all-after x y [] h k = refl
  all-after x y (z ∷ ys) h k =
      ground (
        arith,
        all-after x y ys h,
        o.lt_trans y z x,
        o.eq_iff_incomparable y z,
        o.lt_of_eq_lt y z x,
      )

  insert-sorted : (x : ℕ) (ys : List ℕ) → sorted lt ys ≡ true → sorted lt (insert lt x ys) ≡ true
  insert-sorted x [] h = refl
  insert-sorted x (y ∷ ys) h = ground (
    arith,
    insert-sorted x ys,
    all-insert lt (λ z. not (lt z y)) x ys,
    all-after x y ys,
    o.lt_asym y x,
  )

  sort-sorted : (xs : List ℕ) → sorted lt (sort lt xs) ≡ true
  sort-sorted [] = refl
  sort-sorted (x ∷ xs) = insert-sorted x (sort lt xs) (sort-sorted xs)

  insert-keep : (a x : ℕ) (ys : List ℕ) → keep_if (eq a) (insert lt x ys) ≡ keep_if (eq a) (x ∷ ys)
  insert-keep a x [] = refl
  insert-keep a x (y ∷ ys) =
      ground (arith, insert-keep a x ys, o.eq_trans y a x, o.eq_sym a y, o.lt-ne y x)

  sort-keep : (a : ℕ) (xs : List ℕ) → keep_if (eq a) (sort lt xs) ≡ keep_if (eq a) xs
  sort-keep a [] = refl
  sort-keep a (x ∷ xs) = insert-keep a x (sort lt xs) ∙ ground (arith, sort-keep a xs)

range-below :
    (start count rows : ℕ) → start + count ≤ rows → all (λ y. ltb y rows) (range start count) ≡ true
range-below start zero rows h = refl
range-below start (suc count) rows h =
    rw (lt→ltb start rows (omega arith)) (range-below (suc start) count rows (omega arith))

-- stable_sort of the row numbers, when the comparison gives a strict weak ordering on them without
-- an error: a permutation of the rows in which none precedes an earlier one, and in which the rows
-- that compare equal to any given row keep their order.
pub stable_sort-stable :
    (lt eq : ℕ → ℕ → Bool) (less : ℕ → ℕ → M Bool) (rows : ℕ) (σ : ExecutionContext)
    → IsStrictWeakOrder lt eq
    → Compares less lt rows σ
    → (out : List ℕ) × (stable_sort less (range 0 rows) σ ≡ ok (out, σ))
      × Permᴰ (range 0 rows) out
      × (sorted lt out ≡ true)
      × ((a : ℕ) → keep_if (eq a) out ≡ keep_if (eq a) (range 0 rows))
stable_sort-stable lt eq less rows σ o compares = (
  sort lt (range 0 rows),
  stable_sort-sort lt less rows σ compares (range 0 rows) (range-below 0 rows rows (omega arith)),
  sort-Perm lt (range 0 rows),
  sort-sorted lt eq o (range 0 rows),
  λ a. sort-keep lt eq o a (range 0 rows),
)
