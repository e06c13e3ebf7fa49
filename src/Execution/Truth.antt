-- ===== src/Execution/Truth.antt =====
-- The three truth values of SQL predicates.
use vectorized_sql_engine.Base.{Bool}

pub data TruthValue : Type 0 where
  false true unknown : TruthValue

abbrev pub truth_from_bool : Bool → TruthValue
truth_from_bool Bool.true = TruthValue.true
truth_from_bool Bool.false = TruthValue.false

abbrev pub and_truth : TruthValue → TruthValue → TruthValue
and_truth TruthValue.false _ = TruthValue.false
and_truth _ TruthValue.false = TruthValue.false
and_truth TruthValue.true TruthValue.true = TruthValue.true
and_truth _ _ = TruthValue.unknown

abbrev pub or_truth : TruthValue → TruthValue → TruthValue
or_truth TruthValue.true _ = TruthValue.true
or_truth _ TruthValue.true = TruthValue.true
or_truth TruthValue.false TruthValue.false = TruthValue.false
or_truth _ _ = TruthValue.unknown

abbrev pub not_truth : TruthValue → TruthValue
not_truth TruthValue.unknown = TruthValue.unknown
not_truth TruthValue.true = TruthValue.false
not_truth TruthValue.false = TruthValue.true

-- `value == TruthValue::True`, `value != TruthValue::False`
abbrev pub is_true : TruthValue → Bool
is_true TruthValue.true = Bool.true
is_true _ = Bool.false

abbrev pub is_false : TruthValue → Bool
is_false TruthValue.false = Bool.true
is_false _ = Bool.false
