-- ===== src/Vectorized/Buckets.antt =====
-- src/execution/vectorized.cpp: the buckets of the hash form of the NULL-aware anti join.
use vectorized_sql_engine.Base.{
  ◌≡◌, refl, ap, sym, ◌∙◌, Bool, true, false, not, ◌&&◌, ◌||◌, Option, none, some, if◌then◌else◌,
  Bool-cases, inl, inr, arith,
}
use vectorized_sql_engine.Catalog.{ColumnType, int64, string}
use vectorized_sql_engine.Execution.Cell.{Cell, cell_eq}
use vectorized_sql_engine.Execution.Truth.{TruthValue, truth_from_bool, is_false}
use vectorized_sql_engine.Execution.Membership.{equality}
use vectorized_sql_engine.Vectorized.Cells.{MaterializedValueSet, contains}
use vectorized_sql_engine.Vectorized.Context.{insert_int, insert_string}
use vectorized_sql_engine.Vectorized.JoinLoops.{empty_bucket, add_member, add_typed}
use vectorized_sql_engine.Vectorized.HashTable.{changed}

-- What the probe finds in a bucket: a NULL, a NULL value, or the value.
abbrev pub blocked : Cell → Option MaterializedValueSet → Bool
blocked value none = false
blocked value (some bucket) =
    if bucket.has_null then true else if value.is_null then true else contains bucket value

-- The member makes NOT IN other than TRUE.
abbrev pub suppresses : Cell → Cell → Bool
suppresses value member = not (is_false (equality value member))

abbrev pub OfType : ColumnType → Option MaterializedValueSet → Type 0
OfType type none = Unit {0}
OfType type (some bucket) = bucket.type ≡ type

contains-int :
    (value member : Cell) (b : MaterializedValueSet)
    → value.type ≡ int64
    → member.type ≡ int64
    → b.type ≡ int64
    → value.is_null ≡ false
    → member.is_null ≡ false
    → contains (insert_int member.int_value (record b { is_empty = false })) value
      ≡ (cell_eq value member || contains b value)
unfolding contains cell_eq
contains-int value member b t u v n m = ground arith

contains-string :
    (value member : Cell) (b : MaterializedValueSet)
    → value.type ≡ string
    → member.type ≡ string
    → b.type ≡ string
    → value.is_null ≡ false
    → member.is_null ≡ false
    → contains (insert_string member.string_value (record b { is_empty = false })) value
      ≡ (cell_eq value member || contains b value)
unfolding contains cell_eq
contains-string value member b t u v n m = ground arith

-- The bucket with a member, when neither the member nor the value is NULL.
contains-add :
    (type : ColumnType) (value member : Cell) (b : MaterializedValueSet)
    → value.type ≡ type
    → member.type ≡ type
    → b.type ≡ type
    → member.is_null ≡ false
    → let added = add_typed type member (record b { is_empty = false }) in
      (added.type ≡ type)
      × (added.has_null ≡ b.has_null)
      × (value.is_null ≡ false → contains added value ≡ (cell_eq value member || contains b value))
contains-add int64 value member b t u v m = (v, refl, λ n. contains-int value member b t u v n m)
contains-add string value member b t u v m =
    (v, refl, λ n. contains-string value member b t u v n m)

or_true : (b : Bool) → b || true ≡ true
or_true true = refl
or_true false = refl

pub or_false : (b : Bool) → b || false ≡ b
or_false true = refl
or_false false = refl

blocked_bits :
    (has_null value_null hit before now : Bool)
    → (value_null ≡ false → now ≡ (hit || before))
    → (if has_null then true else if value_null then true else now) ≡ (
        (if has_null then true else if value_null then true else before)
        || not (is_false (if value_null then TruthValue.unknown else truth_from_bool hit)))
blocked_bits true value_null hit before now h = refl
blocked_bits false true hit before now h = refl
blocked_bits false false true before now h = h refl ∙ sym (or_true before)
blocked_bits false false false before now h = h refl ∙ sym (or_false before)

-- A NULL member leaves no value whose NOT IN is TRUE.
suppresses-null :
    (value_null hit : Bool)
    → not (
        is_false (
          if value_null
          then TruthValue.unknown
          else if true
          then TruthValue.unknown
          else truth_from_bool hit))
      ≡ true
suppresses-null true hit = refl
suppresses-null false hit = refl

null_first :
    (value_null member_null hit : Bool)
    → let s = not (
        is_false (
          if value_null
          then TruthValue.unknown
          else if member_null
          then TruthValue.unknown
          else truth_from_bool hit)) in
      (value_null || s) ≡ s
null_first true member_null hit = refl
null_first false member_null hit = refl

same_test : (b : Bool) → (if b then true else false) ≡ b
same_test true = refl
same_test false = refl

neither_way : (b : Bool) → (if b then false else false) ≡ false
neither_way true = refl
neither_way false = refl

empty_bucket-contains :
    (type : ColumnType) (value : Cell) → contains (empty_bucket type) value ≡ false
unfolding contains
empty_bucket-contains int64 value = neither_way _
empty_bucket-contains string value = neither_way _

module _ (type : ColumnType) (value : Cell) (value_type : value.type ≡ type) where
  add-plain :
      (member : Cell) (b : MaterializedValueSet)
      → member.type ≡ type
      → b.type ≡ type
      → member.is_null ≡ false
      → let added = add_member member b in
        (added.type ≡ type)
        × (blocked value (some added) ≡ (blocked value (some b) || suppresses value member))
  add-plain member b t v m =
      let plain = add_typed type member (record b { is_empty = false }) in
      let (typed, same_null, now) = contains-add type value member b value_type t v m in
      let e : add_member member b ≡ plain =
        ap
          (λ n.
            if n
            then record b { is_empty = false; has_null = true }
            else add_typed member.type member (record b { is_empty = false }))
          m
        ∙ ap (λ u. add_typed u member (record b { is_empty = false })) t in
      (
        ap (λ s. s.type) e ∙ typed,
        ap (λ s. blocked value (some s)) e
            ∙ ap (λ h. if h then true else if value.is_null then true else contains plain value)
                same_null
            ∙ blocked_bits b.has_null value.is_null (cell_eq value member) (contains b value) _ now
            ∙ ap
                (λ n.
                  blocked value (some b)
                  || not (
                      is_false (
                        if value.is_null
                        then TruthValue.unknown
                        else if n
                        then TruthValue.unknown
                        else truth_from_bool (cell_eq value member))))
                (sym m),
      )

  add-null :
      (member : Cell) (b : MaterializedValueSet)
      → b.type ≡ type
      → member.is_null ≡ true
      → let added = add_member member b in
        (added.type ≡ type)
        × (blocked value (some added) ≡ (blocked value (some b) || suppresses value member))
  add-null member b v m =
      let e : add_member member b ≡ record b { is_empty = false; has_null = true } =
        ap
          (λ n.
            if n
            then record b { is_empty = false; has_null = true }
            else add_typed member.type member (record b { is_empty = false }))
          m in
      (
        ap (λ s. s.type) e ∙ v,
        ap (λ s. blocked value (some s)) e
            ∙ sym (or_true (blocked value (some b)))
            ∙ ap (λ x. blocked value (some b) || x)
                (sym (suppresses-null value.is_null (cell_eq value member))
                  ∙ ap
                      (λ n. not (
                        is_false (
                          if value.is_null
                          then TruthValue.unknown
                          else if n
                          then TruthValue.unknown
                          else truth_from_bool (cell_eq value member))))
                      (sym m)),
      )

  add-member :
      (member : Cell) (b : MaterializedValueSet)
      → member.type ≡ type
      → b.type ≡ type
      → let added = add_member member b in
        (added.type ≡ type)
        × (blocked value (some added) ≡ (blocked value (some b) || suppresses value member))
  add-member member b t v = elim (Bool-cases member.is_null) [
    | inl e ↦ add-null member b v e
    | inr e ↦ add-plain member b t v e
  ]

  fresh-blocked : blocked value (some (empty_bucket type)) ≡ value.is_null
  fresh-blocked =
      ap (λ b. if value.is_null then true else b) (empty_bucket-contains type value)
      ∙ same_test value.is_null

  pub changed-blocked :
      (hit : Bool) (member : Cell) (bucket : Option MaterializedValueSet)
      → member.type ≡ type
      → OfType type bucket
      → let after = changed (empty_bucket type) (add_member member) hit bucket in
        OfType type after
        × (blocked value after ≡ (blocked value bucket || (hit && suppresses value member)))
  changed-blocked false member bucket t h = (h, sym (or_false _))
  changed-blocked true member none t h =
      let (typed, e) = add-member member (empty_bucket type) t refl in
      (
        typed,
        e
            ∙ ap (λ b. b || suppresses value member) fresh-blocked
            ∙ null_first value.is_null member.is_null (cell_eq value member),
      )
  changed-blocked true member (some b) t h = add-member member b t h
