-- ===== src/Base/OrderLaws.antt =====
-- The strict weak orders of numbers, and that the lexicographic comparison of two sequences is one
-- when the comparison of their elements is.
use mathlib.Core.Path.{◌≡◌, refl}
use mathlib.Core.Bool.{true, false, Bool}
use mathlib.Core.List.{List, [], ◌∷◌}
use native.Mathlib.Omega.{arith}
use vectorized_sql_engine.Base.Tests.{ltb, ◌==◌}
use vectorized_sql_engine.Base.Int.{ltb_ℤ, eqb_ℤ}
use vectorized_sql_engine.Base.Order.{IsStrictWeakOrder, lexicographical_compare, equal_elements}
use vectorized_sql_engine.Base.Texts.{str_lt, str_eq}

pub ℕ-IsStrictWeakOrder : IsStrictWeakOrder ltb ◌==◌
ℕ-IsStrictWeakOrder = record {
  eq_refl = λ a. ground arith;
  lt_asym = λ a b h. ground arith;
  lt_trans = λ a b c h k. ground arith;
  eq_iff_incomparable = λ a b h k. ground arith;
  lt-ne = λ a b h. ground arith;
  eq_sym = λ a b h. ground arith;
  lt_of_lt_eq = λ a b c h k. ground arith;
  lt_of_eq_lt = λ a b c h k. ground arith;
  eq_trans = λ a b c h k. ground arith;
}

pub ℤ-IsStrictWeakOrder : IsStrictWeakOrder ltb_ℤ eqb_ℤ
ℤ-IsStrictWeakOrder = record {
  eq_refl = λ a. ground arith;
  lt_asym = λ a b h. ground arith;
  lt_trans = λ a b c h k. ground arith;
  eq_iff_incomparable = λ a b h k. ground arith;
  lt-ne = λ a b h. ground arith;
  eq_sym = λ a b h. ground arith;
  lt_of_lt_eq = λ a b c h k. ground arith;
  lt_of_eq_lt = λ a b c h k. ground arith;
  eq_trans = λ a b c h k. ground arith;
}

module _ {ℓ} {A : Type ℓ} {lt eq : A → A → Bool} (o : IsStrictWeakOrder lt eq) where
  lex_refl : (xs : List A) → equal_elements eq xs xs ≡ true
  unfolding equal_elements
  lex_refl [] = refl
  lex_refl (x ∷ xs) = ground (arith, o.eq_refl x, lex_refl xs)

  lex_sym : (xs ys : List A) → equal_elements eq xs ys ≡ true → equal_elements eq ys xs ≡ true
  unfolding equal_elements
  lex_sym [] [] h = refl
  lex_sym (x ∷ xs) (y ∷ ys) h = ground (arith, o.eq_sym x y, lex_sym xs ys)
  lex_sym [] (y ∷ ys) h = cc
  lex_sym (x ∷ xs) [] h = cc

  lex_eq_trans :
      (xs ys zs : List A)
      → equal_elements eq xs ys ≡ true
      → equal_elements eq ys zs ≡ true
      → equal_elements eq xs zs ≡ true
  unfolding equal_elements
  lex_eq_trans [] [] zs h k = k
  lex_eq_trans (x ∷ xs) (y ∷ ys) (z ∷ zs) h k =
      ground (arith, o.eq_trans x y z, lex_eq_trans xs ys zs)
  lex_eq_trans [] (y ∷ ys) zs h k = cc
  lex_eq_trans (x ∷ xs) [] zs h k = cc
  lex_eq_trans (x ∷ xs) (y ∷ ys) [] h k = cc

  lex_asym :
      (xs ys : List A)
      → lexicographical_compare lt xs ys ≡ true
      → lexicographical_compare lt ys xs ≡ false
  unfolding lexicographical_compare
  lex_asym [] [] h = cc
  lex_asym [] (y ∷ ys) h = refl
  lex_asym (x ∷ xs) [] h = cc
  lex_asym (x ∷ xs) (y ∷ ys) h = ground (arith, o.lt_asym x y, lex_asym xs ys)

  lex_incomparable :
      (xs ys : List A)
      → lexicographical_compare lt xs ys ≡ false
      → lexicographical_compare lt ys xs ≡ false
      → equal_elements eq xs ys ≡ true
  unfolding lexicographical_compare equal_elements
  lex_incomparable [] [] h k = refl
  lex_incomparable [] (y ∷ ys) h k = cc
  lex_incomparable (x ∷ xs) [] h k = cc
  lex_incomparable (x ∷ xs) (y ∷ ys) h k =
      ground (arith, o.eq_iff_incomparable x y, lex_incomparable xs ys)

  lex_lt-ne :
      (xs ys : List A) → equal_elements eq xs ys ≡ true → lexicographical_compare lt xs ys ≡ false
  unfolding lexicographical_compare equal_elements
  lex_lt-ne [] [] h = refl
  lex_lt-ne [] (y ∷ ys) h = cc
  lex_lt-ne (x ∷ xs) [] h = cc
  lex_lt-ne (x ∷ xs) (y ∷ ys) h =
      ground (arith, o.lt-ne x y, o.lt-ne y x, o.eq_sym x y, lex_lt-ne xs ys)

  lex_trans :
      (xs ys zs : List A)
      → lexicographical_compare lt xs ys ≡ true
      → lexicographical_compare lt ys zs ≡ true
      → lexicographical_compare lt xs zs ≡ true
  unfolding lexicographical_compare
  lex_trans xs ys [] h k = cc
  lex_trans [] ys (z ∷ zs) h k = refl
  lex_trans (x ∷ xs) [] (z ∷ zs) h k = cc
  lex_trans (x ∷ xs) (y ∷ ys) (z ∷ zs) h k = ground (
    arith,
    o.lt_trans x y z,
    o.eq_iff_incomparable x y,
    o.eq_iff_incomparable y z,
    o.lt_of_lt_eq x y z,
    o.lt_of_eq_lt x y z,
    o.eq_trans x y z,
    o.lt-ne x z,
    o.eq_sym x z,
    o.lt-ne z x,
    lex_trans xs ys zs,
  )

  lex_lt_eq :
      (xs ys zs : List A)
      → lexicographical_compare lt xs ys ≡ true
      → equal_elements eq ys zs ≡ true
      → lexicographical_compare lt xs zs ≡ true
  unfolding lexicographical_compare equal_elements
  lex_lt_eq xs [] zs h k = cc
  lex_lt_eq xs (y ∷ ys) [] h k = cc
  lex_lt_eq [] (y ∷ ys) (z ∷ zs) h k = refl
  lex_lt_eq (x ∷ xs) (y ∷ ys) (z ∷ zs) h k = ground (
    arith,
    o.lt_of_lt_eq x y z,
    o.eq_iff_incomparable x y,
    o.eq_trans x y z,
    o.lt-ne x z,
    o.eq_sym x z,
    o.lt-ne z x,
    lex_lt_eq xs ys zs,
  )

  lex_eq_lt :
      (xs ys zs : List A)
      → equal_elements eq xs ys ≡ true
      → lexicographical_compare lt ys zs ≡ true
      → lexicographical_compare lt xs zs ≡ true
  unfolding lexicographical_compare equal_elements
  lex_eq_lt xs ys [] h k = cc
  lex_eq_lt [] ys (z ∷ zs) h k = refl
  lex_eq_lt (x ∷ xs) [] (z ∷ zs) h k = cc
  lex_eq_lt (x ∷ xs) (y ∷ ys) (z ∷ zs) h k = ground (
    arith,
    o.lt_of_eq_lt x y z,
    o.eq_iff_incomparable y z,
    o.eq_trans x y z,
    o.lt-ne x z,
    o.eq_sym x z,
    o.lt-ne z x,
    lex_eq_lt xs ys zs,
  )

  pub lexicographical_compare-IsStrictWeakOrder :
      IsStrictWeakOrder (lexicographical_compare lt) (equal_elements eq)
  lexicographical_compare-IsStrictWeakOrder = record {
    eq_refl = lex_refl;
    lt_asym = lex_asym;
    lt_trans = lex_trans;
    eq_iff_incomparable = lex_incomparable;
    lt-ne = lex_lt-ne;
    eq_sym = lex_sym;
    lt_of_lt_eq = lex_lt_eq;
    lt_of_eq_lt = lex_eq_lt;
    eq_trans = lex_eq_trans;
  }

pub str-IsStrictWeakOrder : IsStrictWeakOrder str_lt str_eq
unfolding str_lt str_eq
str-IsStrictWeakOrder = lexicographical_compare-IsStrictWeakOrder ℕ-IsStrictWeakOrder
