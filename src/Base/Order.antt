-- ===== src/Base/Order.antt =====
-- What std::map and std::stable_sort require of an order: a strict weak ordering, here with the
-- equality that it is compatible with; and std::lexicographical_compare over it.
use mathlib.Core.Path.{◌≡◌}
use mathlib.Core.Bool.{Bool, true, false, ◌&&◌}
use mathlib.Core.List.{List, [], ◌∷◌}
use vectorized_sql_engine.Base.Tests.{if◌then◌else◌}

pub record IsStrictWeakOrder {ℓ} {A : Type ℓ} (lt eq : A → A → Bool) : Type ℓ where
  pub eq_refl : (a : A) → eq a a ≡ true
  pub lt_asym : (a b : A) → lt a b ≡ true → lt b a ≡ false
  pub lt_trans : (a b c : A) → lt a b ≡ true → lt b c ≡ true → lt a c ≡ true
  -- Two values that neither precedes are exactly the equal ones.
  pub eq_iff_incomparable : (a b : A) → lt a b ≡ false → lt b a ≡ false → eq a b ≡ true
  pub lt-ne : (a b : A) → eq a b ≡ true → lt a b ≡ false
  pub eq_sym : (a b : A) → eq a b ≡ true → eq b a ≡ true
  pub lt_of_lt_eq : (a b c : A) → lt a b ≡ true → eq b c ≡ true → lt a c ≡ true
  pub lt_of_eq_lt : (a b c : A) → eq a b ≡ true → lt b c ≡ true → lt a c ≡ true
  pub eq_trans : (a b c : A) → eq a b ≡ true → eq b c ≡ true → eq a c ≡ true

module _ {ℓ} {A : Type ℓ} where
  -- std::lexicographical_compare, which operator< of std::string and of std::vector use.
  unfoldable pub lexicographical_compare : (A → A → Bool) → List A → List A → Bool
  lexicographical_compare lt xs [] = false
  lexicographical_compare lt [] (y ∷ ys) = true
  lexicographical_compare lt (x ∷ xs) (y ∷ ys) =
      let rest = lexicographical_compare lt xs ys in
      if lt x y then true else if lt y x then false else rest

  -- operator== of std::string and of std::vector.
  unfoldable pub equal_elements : (A → A → Bool) → List A → List A → Bool
  equal_elements eq [] [] = true
  equal_elements eq (x ∷ xs) (y ∷ ys) = eq x y && equal_elements eq xs ys
  equal_elements eq _ _ = false
