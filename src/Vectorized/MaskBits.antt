-- ===== src/Vectorized/MaskBits.antt =====
-- src/execution/vectorized.cpp: the bytes of a comparison on one row, and of a constant mask.
use vectorized_sql_engine.Base.{
  ℕ, ◌≡◌, refl, ◌<◌, Bool, true, false, not, ◌&&◌, Option, none, some, List, length, Result, ok,
  arith, if◌then◌else◌, and_then,
}
use vectorized_sql_engine.Execution.Truth.{TruthValue, truth_from_bool}
use vectorized_sql_engine.Vectorized.Scalars.{
  CompiledScalar, has_values, value_or, scalar_has_column, scalar_is_always_null,
  scalar_can_be_null, scalar_is_null,
}
use vectorized_sql_engine.Vectorized.Masks.{make_constant_predicate_mask, known_at, bit, byte_and}
use vectorized_sql_engine.Vectorized.MaskOf.{Agrees, true_bit, known_bit, AllBelow, constant-Agrees}

abbrev pub pair_truth : Bool → Bool → Bool → TruthValue
pair_truth l_null r_null compared =
    if l_null
    then TruthValue.unknown
    else if r_null
    then TruthValue.unknown
    else truth_from_bool compared

pub pair_bits :
    (l_null r_null compared : Bool)
    → ◌≡◌ {A = ℕ × ℕ}
        (byte_and (bit (not l_null && not r_null)) (bit compared), bit (not l_null && not r_null))
        (
          true_bit (pair_truth l_null r_null compared),
          known_bit (pair_truth l_null r_null compared),
        )
pair_bits true r_null true = refl
pair_bits true r_null false = refl
pair_bits false true true = refl
pair_bits false true false = refl
pair_bits false false true = refl
pair_bits false false false = refl

pub pair_always :
    (l_null r_null compared always_l always_r : Bool)
    → (always_l ≡ true → l_null ≡ true)
    → (always_r ≡ true → r_null ≡ true)
    → (if always_l then true else always_r) ≡ true
    → pair_truth l_null r_null compared ≡ TruthValue.unknown
pair_always l_null r_null compared always_l always_r h k either = ground arith

pub chosen :
    (l_null r_null b : Bool) (compared : Result Bool)
    → l_null ≡ false
    → r_null ≡ false
    → compared ≡ ok b
    → (if l_null
        then ok TruthValue.unknown
        else if r_null
        then ok TruthValue.unknown
        else and_then compared (λ t. ok (truth_from_bool t)))
      ≡ ok (truth_from_bool b)
chosen l_null r_null b compared h k e = rw h (rw k (rw e refl))

pub unknown_right :
    (b : Bool)
    → (if b then ok TruthValue.unknown else ok TruthValue.unknown) ≡ ok TruthValue.unknown
unknown_right true = refl
unknown_right false = refl

pub known_both :
    (row : ℕ) (l r : CompiledScalar) (l_null r_null : Bool)
    → scalar_is_null l row ≡ ok l_null
    → scalar_is_null r row ≡ ok r_null
    → known_at true l r row ≡ ok (bit (not l_null && not r_null))
known_both row l r true r_null h k = rw h refl
known_both row l r false r_null h k = rw h (rw k refl)

-- A branch of a conditional, with what the test says.
pub if-elim {ℓ κ} :
    {A : Type ℓ} (P : A → Type κ) (b : Bool) (x y : A)
    → (b ≡ true → P x)
    → (b ≡ false → P y)
    → P (if b then x else y)
if-elim P true x y h k = h refl
if-elim P false x y h k = k refl

-- Without a column, the value that is read is the literal.
pub no_values :
    {A : Type 0} (o : Option (List A)) (literal v : A) (row : ℕ)
    → has_values o ≡ false
    → value_or o literal row ≡ ok v
    → literal ≡ v
no_values none literal v row h e = cc e
no_values (some xs) literal v row h e = absurd (cc h)

-- Without a column, a scalar that is not always NULL is never NULL.
pub literal-never_null :
    (s : CompiledScalar)
    → scalar_has_column s ≡ false
    → scalar_is_always_null s ≡ false
    → scalar_can_be_null s ≡ false
unfolding scalar_is_always_null scalar_can_be_null
literal-never_null s h k =
    step (scalar_has_column s) s.literal_is_null (has_values s.column_validity) h k
  where
    step :
        (has literal validity : Bool)
        → has ≡ false
        → (if has then false else literal) ≡ false
        → (if has then validity else literal) ≡ false
    step has literal validity h k = ground arith

pub bool_bit : (b : Bool) → true_bit (truth_from_bool b) ≡ bit b
bool_bit true = refl
bool_bit false = refl

pub bool_known : (b : Bool) → known_bit (truth_from_bool b) ≡ 1
bool_known true = refl
bool_known false = refl

pub neither : (a b : Bool) → (if a then true else b) ≡ false → (a ≡ false) × (b ≡ false)
neither a b h = ground arith

pub no_columns : (a b : Bool) → (not a && not b) ≡ true → (a ≡ false) × (b ≡ false)
no_columns a b h = ground arith

pub constant_on :
    (f : ℕ → Result TruthValue) (n : ℕ) (t : TruthValue) (true_value known_value : ℕ)
    (rows : List ℕ) (size : ℕ)
    → true_bit t ≡ true_value
    → known_bit t ≡ known_value
    → length rows ≡ size
    → ((row : ℕ) → row < n → f row ≡ ok t)
    → AllBelow n rows
    → Agrees f rows (ok (make_constant_predicate_mask size true_value known_value))
constant_on f n t true_value known_value rows size h k sized each below =
    rw⁻¹ h (rw⁻¹ k (rw⁻¹ sized (constant-Agrees f n t rows each below)))
