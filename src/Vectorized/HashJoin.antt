-- ===== src/Vectorized/HashJoin.antt =====
-- src/execution/vectorized.cpp: the hash joins against the nested loops, and both against the rows
-- that the kind of the join specifies.
use vectorized_sql_engine.Base.{
  ℕ, ◌≡◌, refl, ap, sym, ◌∙◌, Bool, true, false, ◌&&◌, Option, none, some, List, [], ◌∷◌, ◌++◌, map,
  Result, ok, and_then, and_then-ok, and_then-cong, and_then_assoc, if◌then◌else◌, Bool-cases, inl,
  inr,
}
use vectorized_sql_engine.Plan.{JoinKind, inner, left}
use vectorized_sql_engine.Execution.Truth.{TruthValue, is_true}
use vectorized_sql_engine.Execution.JoinSpec.{keep_if, concat_map, row_output}
use vectorized_sql_engine.Vectorized.JoinLoops.{
  HashKey, HashTable, build_rows, find, rows_at, hash_candidates, scan_candidates, finish_row,
  join_loop,
}
use vectorized_sql_engine.Vectorized.HashTable.{keys_match, HasKeys, build_rows-candidates}

-- The predicates can be evaluated on a left row and each of the right rows, with the values `r`.
abbrev pub TruthRow : (ℕ → ℕ → Result TruthValue) → (ℕ → ℕ → TruthValue) → ℕ → List ℕ → Type 0
TruthRow truth r i [] = Unit {0}
TruthRow truth r i (j ∷ rows) = (truth i j ≡ ok (r i j)) × TruthRow truth r i rows

-- The same on each of the left rows.
abbrev pub TruthPairs :
    (ℕ → ℕ → Result TruthValue) → (ℕ → ℕ → TruthValue) → List ℕ → List ℕ → Type 0
TruthPairs truth r [] right_rows = Unit {0}
TruthPairs truth r (i ∷ left_rows) right_rows =
    TruthRow truth r i right_rows × TruthPairs truth r left_rows right_rows

TruthRow-keep_if :
    (truth : ℕ → ℕ → Result TruthValue) (r : ℕ → ℕ → TruthValue) (i : ℕ) (p : ℕ → Bool)
    (rows : List ℕ)
    → TruthRow truth r i rows
    → TruthRow truth r i (keep_if p rows)
TruthRow-keep_if truth r i p [] h = tt
TruthRow-keep_if truth r i p (j ∷ rows) (e, es) =
    kept (p j) (e, TruthRow-keep_if truth r i p rows es)
  where
    kept :
        (b : Bool)
        → (truth i j ≡ ok (r i j)) × TruthRow truth r i (keep_if p rows)
        → TruthRow truth r i (if b then j ∷ keep_if p rows else keep_if p rows)
    kept true h = h
    kept false h = h.1

keep_if_twice :
    (p q : ℕ → Bool) (rows : List ℕ) → keep_if q (keep_if p rows) ≡ keep_if (λ j. p j && q j) rows
keep_if_twice p q [] = refl
keep_if_twice p q (j ∷ rows) = step (p j) (keep_if_twice p q rows)
  where
    step :
        (b : Bool)
        → keep_if q (keep_if p rows) ≡ keep_if (λ j. p j && q j) rows
        → keep_if q (if b then j ∷ keep_if p rows else keep_if p rows) ≡ (
            if b && q j then j ∷ keep_if (λ j. p j && q j) rows else keep_if (λ j. p j && q j) rows)
    step true h = ap (λ xs. if q j then j ∷ xs else xs) h
    step false h = h

abbrev pub kind_of : Bool → JoinKind
kind_of true = left
kind_of false = inner

-- The candidates of each left row, on which the predicates can be evaluated.
abbrev pub Candidates :
    (ℕ → ℕ → Result TruthValue)
    → (ℕ → ℕ → TruthValue)
    → (ℕ → Result (List ℕ))
    → (ℕ → List ℕ)
    → List ℕ
    → Type 0
Candidates truth r candidates rows [] = Unit {0}
Candidates truth r candidates rows (i ∷ left_rows) =
    (candidates i ≡ ok (rows i))
    × TruthRow truth r i (rows i)
    × Candidates truth r candidates rows left_rows

pub all-Candidates :
    (truth : ℕ → ℕ → Result TruthValue) (r : ℕ → ℕ → TruthValue) (left_rows right_rows : List ℕ)
    → TruthPairs truth r left_rows right_rows
    → Candidates truth r (λ i. ok right_rows) (λ i. right_rows) left_rows
all-Candidates truth r [] right_rows h = tt
all-Candidates truth r (i ∷ left_rows) right_rows (t, ts) =
    (refl, t, all-Candidates truth r left_rows right_rows ts)

pub hash-Candidates :
    (truth : ℕ → ℕ → Result TruthValue) (r : ℕ → ℕ → TruthValue)
    (left_key : ℕ → Result (Option HashKey)) (kl kr : ℕ → Option HashKey)
    (table : HashTable (List ℕ)) (right_rows : List ℕ)
    → ((i : ℕ) → rows_at (kl i) table ≡ keep_if (λ j. keys_match (kl i) (kr j)) right_rows)
    → (left_rows : List ℕ) → HasKeys left_key kl left_rows
    → TruthPairs truth r left_rows right_rows
    → Candidates truth r
        (hash_candidates left_key table)
        (λ i. keep_if (λ j. keys_match (kl i) (kr j)) right_rows)
        left_rows
hash-Candidates truth r left_key kl kr table right_rows each [] hl t = tt
hash-Candidates truth r left_key kl kr table right_rows each (i ∷ left_rows) (h, hl) (t, ts) = (
  ap (λ m. and_then m (λ key. ok (rows_at key table))) h ∙ ap (λ xs. ok xs) (each i),
  TruthRow-keep_if truth r i (λ j. keys_match (kl i) (kr j)) right_rows t,
  hash-Candidates truth r left_key kl kr table right_rows each left_rows hl ts,
)

pub no_rows : (key : Option HashKey) → rows_at key [] ≡ []
unfolding find
no_rows none = refl
no_rows (some key) = refl

module _ {S : Type 0} (emit : ℕ → Option ℕ → S → Result S) where
  -- The rows emitted one after the other.
  abbrev pub emit_all : List (ℕ × Option ℕ) → S → Result S
  emit_all [] out = ok out
  emit_all ((i, j) ∷ rows) out = and_then (emit i j out) (λ out'. emit_all rows out')

  emit_all-append :
      (xs ys : List (ℕ × Option ℕ)) (out : S)
      → emit_all (xs ++ ys) out ≡ and_then (emit_all xs out) (λ out'. emit_all ys out')
  emit_all-append [] ys out = refl
  emit_all-append ((i, j) ∷ xs) ys out =
      and_then-cong (emit i j out) (λ out'. emit_all-append xs ys out')
      ∙ sym (and_then_assoc (emit i j out) _ _)

  abbrev matched_after : Bool → Bool → List ℕ → Bool
  matched_after unmatched matched [] = matched
  matched_after unmatched matched (_ ∷ _) = if unmatched then true else matched

  matched_step :
      (unmatched matched : Bool) (ms : List ℕ)
      → matched_after unmatched (if unmatched then true else matched) ms
        ≡ (if unmatched then true else matched)
  matched_step true matched [] = refl
  matched_step true matched (m ∷ ms) = refl
  matched_step false matched [] = refl
  matched_step false matched (m ∷ ms) = refl

  finish-emits :
      (truth : ℕ → ℕ → Result TruthValue) (unmatched : Bool) (i : ℕ) (ms : List ℕ) (out : S)
      → and_then
          (emit_all (map (λ j. (i, some j)) ms) out)
          (λ out'. finish_row truth emit unmatched i (matched_after unmatched false ms, out'))
        ≡ emit_all (row_output (kind_of unmatched) i ms) out
  finish-emits truth true i [] out = sym (and_then-ok (emit i none out))
  finish-emits truth true i (m ∷ ms) out =
      and_then-ok (emit_all (map (λ j. (i, some j)) (m ∷ ms)) out)
  finish-emits truth false i ms out = and_then-ok (emit_all (map (λ j. (i, some j)) ms) out)

  module _ (truth : ℕ → ℕ → Result TruthValue) (r : ℕ → ℕ → TruthValue) (unmatched : Bool) where
    abbrev matches : ℕ → List ℕ → List ℕ
    matches i rows = keep_if (λ j. is_true (r i j)) rows

    scan-emits :
        (i : ℕ) (matched : Bool) (out : S) (rows : List ℕ)
        → TruthRow truth r i rows
        → scan_candidates truth emit unmatched i matched out rows
          ≡ and_then
              (emit_all (map (λ j. (i, some j)) (matches i rows)) out)
              (λ out'. ok (matched_after unmatched matched (matches i rows), out'))
    unfolding scan_candidates
    scan-emits i matched out [] h = refl
    scan-emits i matched out (j ∷ rows) (e, es) = elim (Bool-cases (is_true (r i j))) [
      | inl hit ↦ rw e (
          rw hit (
            and_then-cong (emit i (some j) out) (λ out'.
              scan-emits i (if unmatched then true else matched) out' rows es
              ∙ ap
                  (λ b.
                    and_then (emit_all (map (λ k. (i, some k)) (matches i rows)) out')
                      (λ o. ok (b, o)))
                  (matched_step unmatched matched (matches i rows)))
            ∙ sym (and_then_assoc (emit i (some j) out) _ _)))
      | inr miss ↦ rw e (rw miss (scan-emits i matched out rows es))
    ]

    -- The loops emit what the kind specifies, from the candidates of each left row.
    join_loop-emits :
        (candidates : ℕ → Result (List ℕ)) (rows : ℕ → List ℕ) (left_rows : List ℕ) (out : S)
        → Candidates truth r candidates rows left_rows
        → join_loop truth emit unmatched candidates left_rows out
          ≡ emit_all
              (concat_map (λ i. row_output (kind_of unmatched) i (matches i (rows i))) left_rows)
              out
    unfolding join_loop
    join_loop-emits candidates rows [] out h = refl
    join_loop-emits candidates rows (i ∷ left_rows) out (c, t, h) =
        let ms = matches i (rows i) in
        let rest = λ (out' : S). join_loop truth emit unmatched candidates left_rows out' in
        rw c (
          ap
            (λ m. and_then m (λ scanned. and_then (finish_row truth emit unmatched i scanned) rest))
            (scan-emits i false out (rows i) t)
          ∙ and_then_assoc (emit_all (map (λ j. (i, some j)) ms) out) _ _
          ∙ sym (and_then_assoc (emit_all (map (λ j. (i, some j)) ms) out) _ rest)
          ∙ ap (λ m. and_then m rest) (finish-emits truth unmatched i ms out)
          ∙ and_then-cong (emit_all (row_output (kind_of unmatched) i ms) out)
              (λ out'. join_loop-emits candidates rows left_rows out' h)
          ∙ sym (emit_all-append (row_output (kind_of unmatched) i ms) _ out))

  -- The hash join of INNER and LEFT joins, on rows whose keys can be made and residual predicates
  -- evaluated.
  hash_join-emits :
      (residual : ℕ → ℕ → Result TruthValue) (r : ℕ → ℕ → TruthValue) (unmatched : Bool)
      (left_key right_key : ℕ → Result (Option HashKey)) (kl kr : ℕ → Option HashKey)
      (left_rows right_rows : List ℕ) (out : S)
      → HasKeys left_key kl left_rows
      → HasKeys right_key kr right_rows
      → TruthPairs residual r left_rows right_rows
      → and_then (build_rows right_key right_rows []) (λ table.
        join_loop residual emit unmatched (hash_candidates left_key table) left_rows out)
        ≡ emit_all
            (concat_map
              (λ i.
                row_output
                  (kind_of unmatched)
                  i
                  (keep_if (λ j. keys_match (kl i) (kr j) && is_true (r i j)) right_rows))
              left_rows)
            out
  hash_join-emits residual r unmatched left_key right_key kl kr left_rows right_rows out hl hr t =
      let (table, built, each) = build_rows-candidates right_key kr right_rows [] hr in
      let rows = λ (i : ℕ). keep_if (λ j. keys_match (kl i) (kr j)) right_rows in
      ap
        (λ m. and_then m (λ table'.
          join_loop residual emit unmatched (hash_candidates left_key table') left_rows out))
        built
      ∙ join_loop-emits residual r unmatched (hash_candidates left_key table) rows left_rows out (
          hash-Candidates residual r left_key kl kr table right_rows
            (λ i. each (kl i) ∙ ap (λ xs. xs ++ rows i) (no_rows (kl i))) left_rows hl t)
      ∙ ap (λ (f : ℕ → List (ℕ × Option ℕ)). emit_all (concat_map f left_rows) out)
          (λ k i.
            row_output (kind_of unmatched) i
              (keep_if_twice (λ j. keys_match (kl i) (kr j)) (λ j. is_true (r i j)) right_rows k))

  -- For INNER and LEFT joins, on rows whose keys can be made and predicates evaluated: if all the
  -- predicates hold of a pair exactly when its keys are equal and not NULL and the residuals hold,
  -- then the hash join over the residuals gives what the nested loop over all the predicates gives,
  -- the same rows in the same order, or the same error of appending them.
  pub hash_join-nested_loop :
      (residual all : ℕ → ℕ → Result TruthValue) (r c : ℕ → ℕ → TruthValue) (unmatched : Bool)
      (left_key right_key : ℕ → Result (Option HashKey)) (kl kr : ℕ → Option HashKey)
      (left_rows right_rows : List ℕ) (out : S)
      → HasKeys left_key kl left_rows
      → HasKeys right_key kr right_rows
      → TruthPairs residual r left_rows right_rows
      → TruthPairs all c left_rows right_rows
      → ((i j : ℕ) → is_true (c i j) ≡ (keys_match (kl i) (kr j) && is_true (r i j)))
      → and_then (build_rows right_key right_rows []) (λ table.
        join_loop residual emit unmatched (hash_candidates left_key table) left_rows out)
        ≡ join_loop all emit unmatched (λ i. ok right_rows) left_rows out
  hash_join-nested_loop residual all r c unmatched left_key right_key kl kr left_rows right_rows out
        hl hr residuals alls split =
      hash_join-emits residual r unmatched left_key right_key kl kr left_rows right_rows out hl hr
        residuals
      ∙ ap (λ (f : ℕ → List (ℕ × Option ℕ)). emit_all (concat_map f left_rows) out)
          (λ k i. row_output (kind_of unmatched) i (keep_if (λ j. sym (split i j) k) right_rows))
      ∙ sym (
          join_loop-emits all c unmatched (λ i. ok right_rows) (λ i. right_rows) left_rows out
            (all-Candidates all c left_rows right_rows alls))
