-- ===== src/Vectorized/Masks.antt =====
-- src/execution/vectorized.cpp: the masks of predicates. A mask has two bytes for each position of
-- the domain, whether the predicate is TRUE there and whether it is known. The source makes a mask
-- of zeros and writes each position once, in order; the model builds its vectors in that order.
use vectorized_sql_engine.Base.{
  ℕ, String, Bool, true, false, not, ◌&&◌, Option, none, some, List, [], ◌∷◌, length, replicate,
  range, min, Result, ok, throw, Exception, index, ◌==◌, if◌then◌else◌,
}
use vectorized_sql_engine.Catalog.{int64, string}
use vectorized_sql_engine.Execution.Cell.{type_eq}
use vectorized_sql_engine.Vectorized.Cells.{
  MaterializedValueSet, contains, bitwise, xor_bit, or_bit, TypedCell,
}
use vectorized_sql_engine.Vectorized.Scalars.{
  ◌>>=◌, CompiledScalar, scalar_has_column, scalar_is_always_null, scalar_can_be_null,
  scalar_is_null, scalar_cell,
}
use vectorized_sql_engine.Vectorized.Predicates.{
  CompiledComparison, CompiledPredicate, compare_int_values, compare_string_values,
}

pub record PredicateMask : Type 0 where
  pub is_true : List ℕ
  pub is_known : List ℕ

-- `size` is always the size of the selection vector.
pub record PredicateEvaluationDomain : Type 0 where
  pub selection : List ℕ
  pub rows_match_positions : Bool

-- The rows that for_each_domain_row visits, one for each position.
abbrev pub domain_rows : PredicateEvaluationDomain → List ℕ
domain_rows domain =
    if domain.rows_match_positions then range 0 (length domain.selection) else domain.selection

abbrev pub domain_size : PredicateEvaluationDomain → ℕ
domain_size domain = length domain.selection

abbrev pub byte_and : ℕ → ℕ → ℕ
byte_and = bitwise min 8

abbrev pub byte_or : ℕ → ℕ → ℕ
byte_or = bitwise or_bit 8

abbrev pub byte_xor : ℕ → ℕ → ℕ
byte_xor = bitwise xor_bit 8

abbrev pub bit : Bool → ℕ
bit true = 1
bit false = 0

abbrev pub make_constant_predicate_mask : ℕ → ℕ → ℕ → PredicateMask
make_constant_predicate_mask size true_value known_value = record {
  is_true = replicate size true_value;
  is_known = replicate size known_value;
}

abbrev pub push_bits : ℕ × ℕ → PredicateMask → PredicateMask
push_bits bits mask = record { is_true = bits.0 ∷ mask.is_true; is_known = bits.1 ∷ mask.is_known }

-- for_each_domain_row with a body that writes the two bytes of the position.
unfoldable pub write_rows : (ℕ → Result (ℕ × ℕ)) → List ℕ → Result PredicateMask
write_rows bits [] = ok (record { is_true = []; is_known = [] })
write_rows bits (row ∷ rows) = do b ← bits row; rest ← write_rows bits rows; ok (push_bits b rest)

abbrev pub int_shape : String
int_shape = "int comparison mask reached an impossible scalar shape"

abbrev pub string_shape : String
string_shape = "string comparison mask reached an impossible scalar shape"

abbrev pub known_at : Bool → CompiledScalar → CompiledScalar → ℕ → Result ℕ
known_at false l r row = ok 1
known_at true l r row = do
  l_null ← scalar_is_null l row
  let r_known = (do r_null ← scalar_is_null r row; ok (bit (not r_null))) in
      if l_null then ok 0 else r_known

-- evaluate_int_comparison_mask_with and evaluate_string_comparison_mask_with, which differ in the
-- fields that hold the values.
module _ {A : Type 0} (values : CompiledScalar → Option (List A)) (literal : CompiledScalar → A)
    (compare : A → A → Bool) (impossible : String) where
  abbrev pub write_position : CompiledScalar → CompiledScalar → ℕ → A → A → Result (ℕ × ℕ)
  write_position l r row x y = do
    known ← known_at (if scalar_can_be_null l then true else scalar_can_be_null r) l r row
    ok (byte_and known (bit (compare x y)), known)

  abbrev pub comparison_rows :
      CompiledScalar
      → CompiledScalar
      → Option (List A)
      → Option (List A)
      → List ℕ
      → Result PredicateMask
  comparison_rows l r (some xs) (some ys) rows =
      write_rows (λ row. do x ← index xs row; y ← index ys row; write_position l r row x y) rows
  comparison_rows l r (some xs) none rows =
      write_rows (λ row. do x ← index xs row; write_position l r row x (literal r)) rows
  comparison_rows l r none (some ys) rows =
      write_rows (λ row. do y ← index ys row; write_position l r row (literal l) y) rows
  comparison_rows l r none none rows = throw Exception.logic_error impossible

  unfoldable pub comparison_mask_with :
      CompiledScalar → CompiledScalar → PredicateEvaluationDomain → Result PredicateMask
  unfolding write_rows scalar_has_column scalar_is_always_null scalar_can_be_null scalar_is_null
  comparison_mask_with l r domain =
      if (if scalar_is_always_null l then true else scalar_is_always_null r)
      then ok (make_constant_predicate_mask (domain_size domain) 0 0)
      else if not (scalar_has_column l) && not (scalar_has_column r)
      then ok (
          make_constant_predicate_mask (domain_size domain) (bit (compare (literal l) (literal r)))
            1)
      else comparison_rows l r (values l) (values r) (domain_rows domain)

unfoldable pub evaluate_comparison_mask :
    CompiledComparison CompiledScalar → PredicateEvaluationDomain → Result PredicateMask
unfolding comparison_mask_with compare_int_values compare_string_values
evaluate_comparison_mask c domain =
    if not (type_eq (c.left).type (c.right).type)
    then throw Exception.logic_error "compiled comparison mask received mismatched scalar types"
    else elim (c.left).type [
      | int64 ↦
          comparison_mask_with (λ s. s.column_int_values) (λ s. s.literal)
            (λ x y. compare_int_values x c.op y) int_shape c.left c.right domain
      | string ↦
          comparison_mask_with (λ s. s.column_string_values) (λ s. s.string_literal)
            (λ x y. compare_string_values x c.op y) string_shape c.left c.right domain
    ]

unfoldable pub evaluate_null_check_mask :
    CompiledScalar → PredicateEvaluationDomain → Bool → Result PredicateMask
unfolding write_rows scalar_is_always_null scalar_can_be_null scalar_is_null
evaluate_null_check_mask s domain is_not_null =
    if not (scalar_can_be_null s)
    then ok (make_constant_predicate_mask (domain_size domain) (bit is_not_null) 1)
    else if scalar_is_always_null s
    then ok (make_constant_predicate_mask (domain_size domain) (bit (not is_not_null)) 1)
    else write_rows
        (λ row. do
          null ← scalar_is_null s row
          ok (bit (if is_not_null then not null else null), 1))
        (domain_rows domain)

-- The bytes that the loops of combine_and_in_place and combine_or_in_place write at a position.
abbrev pub and_bits : ℕ → ℕ → ℕ → ℕ → ℕ × ℕ
and_bits lt lk rt rk =
    let true_value = byte_and lt rt in
    let false_value = byte_or (byte_and lk (byte_xor lt 1)) (byte_and rk (byte_xor rt 1)) in
    (true_value, byte_or true_value false_value)

abbrev pub or_bits : ℕ → ℕ → ℕ → ℕ → ℕ × ℕ
or_bits lt lk rt rk =
    let true_value = byte_or lt rt in
    let false_value = byte_and (byte_and lk (byte_xor lt 1)) (byte_and rk (byte_xor rt 1)) in
    (true_value, byte_or true_value false_value)

abbrev pub and_sizes : String
and_sizes = "AND mask combine received mismatched mask sizes"

abbrev pub or_sizes : String
or_sizes = "OR mask combine received mismatched mask sizes"

unfoldable pub combine_rows :
    (ℕ → ℕ → ℕ → ℕ → ℕ × ℕ) → List ℕ → List ℕ → List ℕ → List ℕ → PredicateMask
combine_rows bits (lt ∷ lts) (lk ∷ lks) (rt ∷ rts) (rk ∷ rks) =
    push_bits (bits lt lk rt rk) (combine_rows bits lts lks rts rks)
combine_rows bits _ _ _ _ = record { is_true = []; is_known = [] }

-- combine_and_in_place, combine_or_in_place
unfoldable pub combine_in_place :
    (ℕ → ℕ → ℕ → ℕ → ℕ × ℕ) → String → PredicateMask → PredicateMask → Result PredicateMask
unfolding combine_rows
combine_in_place bits what l r =
    if length l.is_true == length r.is_true
      && (length l.is_known == length r.is_known && length l.is_true == length l.is_known)
    then ok (combine_rows bits l.is_true l.is_known r.is_true r.is_known)
    else throw Exception.logic_error what

-- The bytes of one value in evaluate_in_mask: first whether it is TRUE and whether it is known.
abbrev pub in_flags : TypedCell → MaterializedValueSet → Bool × Bool
in_flags value set =
    if set.is_empty
    then (false, true)
    else if value.is_null
    then (false, false)
    else if contains set value
    then (true, true)
    else if set.has_null
    then (false, false)
    else (false, true)

abbrev pub in_bits : Bool → Bool × Bool → ℕ × ℕ
in_bits negate (is_true, is_known) =
    (bit (if negate && is_known then not is_true else is_true), bit is_known)

unfoldable pub evaluate_in_mask :
    CompiledScalar → MaterializedValueSet → PredicateEvaluationDomain → Bool → Result PredicateMask
unfolding write_rows scalar_cell contains
evaluate_in_mask s set domain negate =
    write_rows (λ row. do value ← scalar_cell s row; ok (in_bits negate (in_flags value set)))
      (domain_rows domain)

unfoldable pub evaluate_predicate_mask :
    CompiledPredicate CompiledScalar → PredicateEvaluationDomain → Result PredicateMask
unfolding evaluate_comparison_mask evaluate_null_check_mask evaluate_in_mask combine_in_place
evaluate_predicate_mask (CompiledPredicate.comparison c) domain = evaluate_comparison_mask c domain
evaluate_predicate_mask (CompiledPredicate.is_null s) domain =
    evaluate_null_check_mask s domain false
evaluate_predicate_mask (CompiledPredicate.is_not_null s) domain =
    evaluate_null_check_mask s domain true
evaluate_predicate_mask (CompiledPredicate.is_in s set) domain = evaluate_in_mask s set domain false
evaluate_predicate_mask (CompiledPredicate.not_in s set) domain = evaluate_in_mask s set domain true
evaluate_predicate_mask (CompiledPredicate.exists b) domain =
    ok (make_constant_predicate_mask (domain_size domain) (bit b) 1)
evaluate_predicate_mask (CompiledPredicate.not_exists b) domain =
    ok (make_constant_predicate_mask (domain_size domain) (bit (not b)) 1)
evaluate_predicate_mask (CompiledPredicate.both l r) domain = do
  left ← evaluate_predicate_mask l domain
  right ← evaluate_predicate_mask r domain
  combine_in_place and_bits and_sizes left right
evaluate_predicate_mask (CompiledPredicate.either l r) domain = do
  left ← evaluate_predicate_mask l domain
  right ← evaluate_predicate_mask r domain
  combine_in_place or_bits or_sizes left right

-- The loop of evaluate_predicates_mask over the predicates behind the first.
unfoldable pub combine_predicates :
    List (CompiledPredicate CompiledScalar)
    → PredicateEvaluationDomain
    → PredicateMask
    → Result PredicateMask
unfolding evaluate_predicate_mask combine_in_place
combine_predicates [] domain mask = ok mask
combine_predicates (p ∷ ps) domain mask = do
  next ← evaluate_predicate_mask p domain
  mask' ← combine_in_place and_bits and_sizes mask next
  combine_predicates ps domain mask'

unfoldable pub evaluate_predicates_mask :
    List (CompiledPredicate CompiledScalar) → PredicateEvaluationDomain → Result PredicateMask
unfolding combine_predicates evaluate_predicate_mask
evaluate_predicates_mask [] domain = ok (make_constant_predicate_mask (domain_size domain) 1 1)
evaluate_predicates_mask (p ∷ ps) domain = do
  mask ← evaluate_predicate_mask p domain
  combine_predicates ps domain mask

-- The loop of selection_from_true_mask: the mask's bytes with the rows of the domain.
unfoldable pub true_rows : List ℕ → List ℕ → List ℕ
true_rows (keep ∷ mask) (row ∷ rows) =
    if keep == 0 then true_rows mask rows else row ∷ true_rows mask rows
true_rows _ _ = []

unfoldable pub selection_from_true_mask :
    PredicateMask → PredicateEvaluationDomain → Result (List ℕ)
unfolding true_rows
selection_from_true_mask mask domain =
    if length mask.is_true == domain_size domain && length mask.is_known == domain_size domain
    then ok (true_rows mask.is_true (domain_rows domain))
    else throw Exception.logic_error "predicate mask size does not match evaluation domain"
