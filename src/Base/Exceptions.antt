-- ===== src/Base/Exceptions.antt =====
-- C++ exceptions as values: the exception's class, the text of its message, and the name that the
-- source splices into the message (empty if it splices none).
use Prim.Native.Nat.{ℕ, zero, suc}
use Prim.Native.String.{String}
use mathlib.Core.Path.{◌≡◌, refl}
use mathlib.Core.List.{List, [], ◌∷◌}
use vectorized_sql_engine.Base.Texts.{Bytes}

pub data Exception : Type 0 where
  invalid_argument out_of_range logic_error runtime_error : Exception
  parse_error : (position : ℕ) → Exception
  -- Not a class of exceptions: what C++ leaves undefined, such as a read past the end.
  undefined : Exception

pub data Error : Type 0 where
  thrown : Exception → String → Bytes → Error

pub data Result {ℓ} (A : Type ℓ) : Type ℓ where
  ok : A → Result A
  err : Error → Result A

abbrev pub throw {ℓ} : {A : Type ℓ} → Exception → String → Result A
throw e what = err (thrown e what [])

-- A result's continuation; each module that chains results names it `◌>>=◌`.
abbrev pub and_then {ℓ κ} : {A : Type ℓ} {B : Type κ} → Result A → (A → Result B) → Result B
and_then (ok a) f = f a
and_then (err e) f = err e

-- std::vector::at
abbrev pub at {ℓ} : {A : Type ℓ} → List A → ℕ → Result A
at [] i = throw out_of_range "vector::at"
at (x ∷ xs) zero = ok x
at (x ∷ xs) (suc i) = at xs i

-- operator[] of std::vector
abbrev pub index {ℓ} : {A : Type ℓ} → List A → ℕ → Result A
index [] i = throw undefined "operator[]"
index (x ∷ xs) zero = ok x
index (x ∷ xs) (suc i) = index xs i

pub and_then-eq-ok {ℓ κ} :
    {A : Type ℓ} {B : Type κ} (m : Result A) (f : A → Result B) {b : B}
    → and_then m f ≡ ok b
    → (a : A) × (m ≡ ok a) × (f a ≡ ok b)
and_then-eq-ok (ok a) f h = (a, refl, h)
and_then-eq-ok (err e) f h = cc

pub and_then-cong {ℓ κ} :
    {A : Type ℓ} {B : Type κ} (m : Result A) {f g : A → Result B}
    → ((a : A) → f a ≡ g a)
    → and_then m f ≡ and_then m g
and_then-cong (ok a) h = h a
and_then-cong (err e) h = refl

pub and_then_assoc {ℓ κ μ} :
    {A : Type ℓ} {B : Type κ} {C : Type μ} (m : Result A) (f : A → Result B) (g : B → Result C)
    → and_then (and_then m f) g ≡ and_then m (λ a. and_then (f a) g)
and_then_assoc (ok a) f g = refl
and_then_assoc (err e) f g = refl

pub and_then-ok {ℓ} : {A : Type ℓ} (m : Result A) → and_then m (λ a. ok a) ≡ m
and_then-ok (ok a) = refl
and_then-ok (err e) = refl
