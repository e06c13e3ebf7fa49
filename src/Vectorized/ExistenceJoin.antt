-- ===== src/Vectorized/ExistenceJoin.antt =====
-- src/execution/vectorized.cpp: the hash joins of SEMI and ANTI joins against the nested loops.
use vectorized_sql_engine.Base.{
  ℕ, ◌≡◌, refl, ap, sym, ◌∙◌, Bool, true, false, not, ◌&&◌, ◌||◌, Option, List, [], ◌∷◌, ◌++◌, any,
  Result, ok, and_then, if◌then◌else◌, Bool-cases, inl, inr,
}
use vectorized_sql_engine.Execution.Truth.{TruthValue, is_true}
use vectorized_sql_engine.Execution.JoinSpec.{keep_if}
use vectorized_sql_engine.Vectorized.JoinLoops.{
  HashKey, build_rows, hash_candidates, has_match, existence_loop,
}
use vectorized_sql_engine.Vectorized.HashTable.{keys_match, HasKeys, build_rows-candidates}
use vectorized_sql_engine.Vectorized.HashJoin.{
  TruthRow, TruthPairs, Candidates, all-Candidates, hash-Candidates, no_rows,
}

has_match-any :
    (truth : ℕ → ℕ → Result TruthValue) (r : ℕ → ℕ → TruthValue) (i : ℕ) (rows : List ℕ)
    → TruthRow truth r i rows
    → has_match truth i rows ≡ ok (any (λ j. is_true (r i j)) rows)
unfolding has_match
has_match-any truth r i [] h = refl
has_match-any truth r i (j ∷ rows) (e, es) = elim (Bool-cases (is_true (r i j))) [
  | inl hit ↦ rw e (rw hit refl)
  | inr miss ↦ rw e (rw miss (has_match-any truth r i rows es))
]

any-keep_if : (p q : ℕ → Bool) (rows : List ℕ) → any q (keep_if p rows) ≡ any (λ j. p j && q j) rows
any-keep_if p q [] = refl
any-keep_if p q (j ∷ rows) = step (p j) (any-keep_if p q rows)
  where
    step :
        (b : Bool)
        → any q (keep_if p rows) ≡ any (λ j. p j && q j) rows
        → any q (if b then j ∷ keep_if p rows else keep_if p rows)
          ≡ ((b && q j) || any (λ j. p j && q j) rows)
    step true h = ap (λ x. q j || x) h
    step false h = h

-- Whether a left row is emitted: SEMI joins emit those with a match, ANTI joins the others.
abbrev pub emits : Bool → Bool → Bool
emits true matched = matched
emits false matched = not matched

existence_loop-keep :
    (truth : ℕ → ℕ → Result TruthValue) (r : ℕ → ℕ → TruthValue) (emit_matched : Bool)
    (candidates : ℕ → Result (List ℕ)) (rows : ℕ → List ℕ) (left_rows : List ℕ)
    → Candidates truth r candidates rows left_rows
    → existence_loop truth emit_matched candidates left_rows
      ≡ ok (keep_if (λ i. emits emit_matched (any (λ j. is_true (r i j)) (rows i))) left_rows)
unfolding existence_loop
existence_loop-keep truth r emit_matched candidates rows [] h = refl
existence_loop-keep truth r true candidates rows (i ∷ left_rows) (c, t, h) = rw c (
    rw (has_match-any truth r i (rows i) t)
      (rw (existence_loop-keep truth r true candidates rows left_rows h) refl))
existence_loop-keep truth r false candidates rows (i ∷ left_rows) (c, t, h) = rw c (
    rw (has_match-any truth r i (rows i) t)
      (rw (existence_loop-keep truth r false candidates rows left_rows h) refl))

-- For SEMI joins (`emit_matched`) and ANTI joins, on rows whose keys can be made and predicates
-- evaluated: if all the predicates hold of a pair exactly when its keys are equal and not NULL and
-- the residuals hold, then the hash join and the nested loop over all the predicates both select
-- the left rows with a matching right row (SEMI), or those without one (ANTI), in order.
pub hash_existence-nested_loop :
    (residual all : ℕ → ℕ → Result TruthValue) (r c : ℕ → ℕ → TruthValue) (emit_matched : Bool)
    (left_key right_key : ℕ → Result (Option HashKey)) (kl kr : ℕ → Option HashKey)
    (left_rows right_rows : List ℕ)
    → HasKeys left_key kl left_rows
    → HasKeys right_key kr right_rows
    → TruthPairs residual r left_rows right_rows
    → TruthPairs all c left_rows right_rows
    → ((i j : ℕ) → is_true (c i j) ≡ (keys_match (kl i) (kr j) && is_true (r i j)))
    → (and_then
          (build_rows right_key right_rows [])
          (λ table. existence_loop residual emit_matched (hash_candidates left_key table) left_rows)
        ≡ ok (keep_if (λ i. emits emit_matched (any (λ j. is_true (c i j)) right_rows)) left_rows))
      × (existence_loop all emit_matched (λ i. ok right_rows) left_rows
          ≡ ok
              (keep_if (λ i. emits emit_matched (any (λ j. is_true (c i j)) right_rows)) left_rows))
hash_existence-nested_loop residual all r c emit_matched left_key right_key kl kr left_rows
      right_rows hl hr residuals alls split =
    let (table, built, each) = build_rows-candidates right_key kr right_rows [] hr in
    let rows = λ (i : ℕ). keep_if (λ j. keys_match (kl i) (kr j)) right_rows in
    (
      ap
            (λ m. and_then m (λ table'.
              existence_loop residual emit_matched (hash_candidates left_key table') left_rows))
            built
          ∙ existence_loop-keep residual r emit_matched (hash_candidates left_key table) rows
              left_rows
              (hash-Candidates residual r left_key kl kr table right_rows
                (λ i. each (kl i) ∙ ap (λ xs. xs ++ rows i) (no_rows (kl i))) left_rows hl
                residuals)
          ∙ ap (λ (f : ℕ → Bool). ok (keep_if f left_rows))
              (λ k i. emits emit_matched (
                (any-keep_if (λ j. keys_match (kl i) (kr j)) (λ j. is_true (r i j)) right_rows
                    ∙ ap (λ (g : ℕ → Bool). any g right_rows) (λ l j. sym (split i j) l))
                  k)),
      existence_loop-keep all c emit_matched (λ i. ok right_rows) (λ i. right_rows) left_rows
          (all-Candidates all c left_rows right_rows alls),
    )
