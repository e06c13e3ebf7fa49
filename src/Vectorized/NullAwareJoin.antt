-- ===== src/Vectorized/NullAwareJoin.antt =====
-- src/execution/vectorized.cpp: the hash form of the NULL-aware anti join against its nested loop.
use vectorized_sql_engine.Base.{
  ℕ, ◌≡◌, refl, ap, subst, sym, ◌∙◌, Bool, true, false, not, ◌&&◌, ◌||◌, Option, none, some, List,
  [], ◌∷◌, any, Result, ok, and_then, if◌then◌else◌,
}
use vectorized_sql_engine.Catalog.{ColumnType}
use vectorized_sql_engine.Execution.Cell.{Cell, null_cell}
use vectorized_sql_engine.Execution.Truth.{TruthValue, is_true, is_false}
use vectorized_sql_engine.Execution.JoinSpec.{keep_if}
use vectorized_sql_engine.Execution.Membership.{equality}
use vectorized_sql_engine.Vectorized.Cells.{MaterializedValueSet, contains}
use vectorized_sql_engine.Vectorized.JoinLoops.{
  HashKey, Buckets, find, update, suppressed_by, null_aware_loop, empty_bucket, add_member,
  add_to_bucket, build_buckets, bucket_at, probe, probe_loop,
}
use vectorized_sql_engine.Vectorized.HashTable.{keys_match, HasKeys, find-update, changed}
use vectorized_sql_engine.Vectorized.HashJoin.{TruthRow, TruthPairs}
use vectorized_sql_engine.Vectorized.Buckets.{
  blocked, suppresses, OfType, changed-blocked, or_false,
}

-- The membership cell of each of the rows, of one type.
abbrev pub HasMembers : ColumnType → (ℕ → Result Cell) → (ℕ → Cell) → List ℕ → Type 0
HasMembers type m member [] = Unit {0}
HasMembers type m member (row ∷ rows) =
    (m row ≡ ok (member row)) × ((member row).type ≡ type) × HasMembers type m member rows

-- Some row with a matching key has a member that suppresses the value.
abbrev pub is_blocked : Option HashKey → Cell → (ℕ → Option HashKey) → (ℕ → Cell) → List ℕ → Bool
is_blocked left value key member rows =
    any (λ j. keys_match left (key j) && suppresses value (member j)) rows

matched_none : (left : Option HashKey) → keys_match left none ≡ false
matched_none none = refl
matched_none (some l) = refl

or_assoc : (a b c : Bool) → (a || b) || c ≡ a || (b || c)
or_assoc true b c = refl
or_assoc false b c = refl

not_none : (value : Cell) (left : Option HashKey) → blocked value (bucket_at left []) ≡ false
unfolding find
not_none value none = refl
not_none value (some key) = refl

none-OfType : (type : ColumnType) (left : Option HashKey) → OfType type (bucket_at left [])
unfolding find
none-OfType type none = tt
none-OfType type (some key) = tt

module _ (type : ColumnType) (right_key : ℕ → Result (Option HashKey))
    (right_member : ℕ → Result Cell) (key : ℕ → Option HashKey) (member : ℕ → Cell) where
  abbrev Added : ℕ → Option HashKey → Buckets → Buckets → Type 0
  Added row row_key buckets after =
      (left : Option HashKey)
      → bucket_at left after
        ≡ changed (empty_bucket type) (add_member (member row)) (keys_match left row_key)
            (bucket_at left buckets)

  update-Added :
      (row : ℕ) (k : HashKey) (buckets : Buckets)
      → Added row (some k) buckets (update k (empty_bucket type) (add_member (member row)) buckets)
  update-Added row k buckets none = refl
  update-Added row k buckets (some l) =
      find-update k l (empty_bucket type) (add_member (member row)) buckets

  -- The buckets after one more right row.
  add_to_bucket-Added :
      (row : ℕ) (row_key : Option HashKey) (buckets : Buckets)
      → right_member row ≡ ok (member row)
      → (after : Buckets) × (add_to_bucket type right_key right_member row row_key buckets
          ≡ ok after)
        × Added row row_key buckets after
  add_to_bucket-Added row none buckets h = (
    buckets,
    refl,
    λ left.
        ap (λ b. changed (empty_bucket type) (add_member (member row)) b (bucket_at left buckets))
          (sym (matched_none left)),
  )
  add_to_bucket-Added row (some k) buckets h = (
    update k (empty_bucket type) (add_member (member row)) buckets,
    ap (λ m. and_then m (λ v. ok (update k (empty_bucket type) (add_member v) buckets))) h,
    update-Added row k buckets,
  )

  build_buckets-blocked :
      (rows : List ℕ) (buckets : Buckets)
      → HasKeys right_key key rows
      → HasMembers type right_member member rows
      → ((left : Option HashKey) → OfType type (bucket_at left buckets))
      → (built : Buckets) × (build_buckets type right_key right_member rows buckets ≡ ok built)
        × ((left : Option HashKey) (value : Cell)
            → value.type ≡ type
            → blocked value (bucket_at left built)
              ≡ (blocked value (bucket_at left buckets) || is_blocked left value key member rows))
  unfolding build_buckets
  build_buckets-blocked [] buckets hk hm typed =
      (buckets, refl, λ left value t. sym (or_false (blocked value (bucket_at left buckets))))
  build_buckets-blocked (row ∷ rows) buckets (k, hk) (m, t, hm) typed =
      let (after, added, at) = add_to_bucket-Added row (key row) buckets m in
      let typed' = λ (left : Option HashKey).
        subst (OfType type) (sym (at left))
          (changed-blocked type (null_cell type) refl (keys_match left (key row)) (member row)
            (bucket_at left buckets) t (typed left)).0 in
      let (built, runs, each) = build_buckets-blocked rows after hk hm typed' in
      (
        built,
        rw k (rw added runs),
        λ left value u.
            each left value u
            ∙ ap (λ b. b || is_blocked left value key member rows)
                (ap (blocked value) (at left)
                  ∙ (changed-blocked type value u (keys_match left (key row)) (member row)
                      (bucket_at left buckets) t (typed left)).1)
            ∙ or_assoc (blocked value (bucket_at left buckets)) _ _,
      )

-- The probe of a bucket emits the row if the bucket does not block its member.
probe-blocked :
    (left_key : ℕ → Result (Option HashKey)) (left_member : ℕ → Result Cell) (row : ℕ)
    (value : Cell) (bucket : Option MaterializedValueSet)
    → left_member row ≡ ok value
    → probe left_key left_member row bucket ≡ ok (not (blocked value bucket))
probe-blocked left_key left_member row value none h = refl
probe-blocked left_key left_member row value (some bucket) h =
    ap
      (λ m. and_then m (λ v.
        ok (not (if bucket.has_null then true else if v.is_null then true else contains bucket v))))
      h

module _ (type : ColumnType) (left_key right_key : ℕ → Result (Option HashKey))
    (left_member right_member : ℕ → Result Cell) (kl kr : ℕ → Option HashKey) (ml mr : ℕ → Cell)
    (right_rows : List ℕ) where
  probe_loop-keep :
      (buckets : Buckets)
      → ((left : Option HashKey) (value : Cell)
          → value.type ≡ type
          → blocked value (bucket_at left buckets) ≡ is_blocked left value kr mr right_rows)
      → (left_rows : List ℕ) → HasKeys left_key kl left_rows
      → HasMembers type left_member ml left_rows
      → probe_loop left_key left_member buckets left_rows
        ≡ ok (keep_if (λ i. not (is_blocked (kl i) (ml i) kr mr right_rows)) left_rows)
  unfolding probe_loop
  probe_loop-keep buckets each [] hk hm = refl
  probe_loop-keep buckets each (i ∷ left_rows) (k, hk) (m, t, hm) = rw k (
      rw (probe-blocked left_key left_member i (ml i) (bucket_at (kl i) buckets) m)
        (rw (each (kl i) (ml i) t) (rw (probe_loop-keep buckets each left_rows hk hm) refl)))

-- Whether some right row is a candidate and its membership is not FALSE.
abbrev suppressed_from : (ℕ → ℕ → TruthValue) → (ℕ → ℕ → TruthValue) → ℕ → List ℕ → Bool
suppressed_from c m i rows = any (λ j. is_true (c i j) && not (is_false (m i j))) rows

suppress_step :
    (candidate : Bool) (member : Result TruthValue) (t : TruthValue) (b : Bool) (next : Result Bool)
    → member ≡ ok t
    → next ≡ ok b
    → (if not candidate
        then next
        else and_then member (λ u. if not (is_false u) then ok true else next))
      ≡ ok ((candidate && not (is_false t)) || b)
suppress_step false member t b next h k = k
suppress_step true member TruthValue.true b next h k = rw h refl
suppress_step true member TruthValue.false b next h k = rw h k
suppress_step true member TruthValue.unknown b next h k = rw h refl

suppressed_by-any :
    (candidate membership : ℕ → ℕ → Result TruthValue) (c m : ℕ → ℕ → TruthValue) (i : ℕ)
    (rows : List ℕ)
    → TruthRow candidate c i rows
    → TruthRow membership m i rows
    → suppressed_by candidate membership i rows ≡ ok (suppressed_from c m i rows)
unfolding suppressed_by
suppressed_by-any candidate membership c m i [] hc hm = refl
suppressed_by-any candidate membership c m i (j ∷ rows) (e, hc) (f, hm) = rw e (
    suppress_step (is_true (c i j)) (membership i j) (m i j) (suppressed_from c m i rows) _ f
      (suppressed_by-any candidate membership c m i rows hc hm))

null_aware_loop-keep :
    (candidate membership : ℕ → ℕ → Result TruthValue) (c m : ℕ → ℕ → TruthValue)
    (left_rows right_rows : List ℕ)
    → TruthPairs candidate c left_rows right_rows
    → TruthPairs membership m left_rows right_rows
    → null_aware_loop candidate membership right_rows left_rows
      ≡ ok (keep_if (λ i. not (suppressed_from c m i right_rows)) left_rows)
unfolding null_aware_loop
null_aware_loop-keep candidate membership c m [] right_rows hc hm = refl
null_aware_loop-keep candidate membership c m (i ∷ left_rows) right_rows (tc, hc) (tm, hm) =
    rw (suppressed_by-any candidate membership c m i right_rows tc tm)
      (rw (null_aware_loop-keep candidate membership c m left_rows right_rows hc hm) refl)

-- For a NULL-aware anti join on rows whose keys and membership cells, all of one type, can be read
-- and predicates evaluated: if the candidate predicates hold of a pair exactly when its keys are
-- equal and not NULL, and the membership predicate is the SQL equality of the two cells, then the
-- buckets of the hash form select the left rows that the nested loop selects, in order.
pub hash_null_aware-nested_loop :
    (type : ColumnType) (candidate membership : ℕ → ℕ → Result TruthValue) (c : ℕ → ℕ → TruthValue)
    (left_key right_key : ℕ → Result (Option HashKey)) (left_member right_member : ℕ → Result Cell)
    (kl kr : ℕ → Option HashKey) (ml mr : ℕ → Cell) (left_rows right_rows : List ℕ)
    → HasKeys left_key kl left_rows
    → HasKeys right_key kr right_rows
    → HasMembers type left_member ml left_rows
    → HasMembers type right_member mr right_rows
    → TruthPairs candidate c left_rows right_rows
    → TruthPairs membership (λ i j. equality (ml i) (mr j)) left_rows right_rows
    → ((i j : ℕ) → is_true (c i j) ≡ keys_match (kl i) (kr j))
    → and_then
        (build_buckets type right_key right_member right_rows [])
        (λ buckets. probe_loop left_key left_member buckets left_rows)
      ≡ null_aware_loop candidate membership right_rows left_rows
hash_null_aware-nested_loop type candidate membership c left_key right_key left_member right_member
      kl kr ml mr left_rows right_rows hkl hkr hml hmr hc hm split =
    let (buckets, built, each) =
      build_buckets-blocked type right_key right_member kr mr right_rows [] hkr hmr
        (none-OfType type) in
    ap (λ m. and_then m (λ b. probe_loop left_key left_member b left_rows)) built
    ∙ probe_loop-keep type left_key right_key left_member right_member kl kr ml mr right_rows
        buckets
        (λ left value t.
          each left value t
          ∙ ap (λ b. b || is_blocked left value kr mr right_rows) (not_none value left))
        left_rows hkl hml
    ∙ ap (λ (f : ℕ → Bool). ok (keep_if f left_rows))
        (λ k i. not (any (λ j. sym (split i j) k && suppresses (ml i) (mr j)) right_rows))
    ∙ sym (
        null_aware_loop-keep candidate membership c (λ i j. equality (ml i) (mr j)) left_rows
          right_rows hc hm)
