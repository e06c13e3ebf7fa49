-- ===== src/Execution/Keeps/Joins.antt =====
-- src/execution/interpreter.cpp: the loops of joins, and the cache of subqueries.
use vectorized_sql_engine.Base.{
  ℕ, Bool, true, false, not, ◌&&◌, Option, none, some, List, [], ◌∷◌, range, ok, if◌then◌else◌,
}
use vectorized_sql_engine.Storage.Batch.{empty_batch, ColumnarBatch, row_count}
use vectorized_sql_engine.Plan.{
  PlanRef, LogicalPlan, BoundPredicate, JoinKind, inner, left, semi, anti, null_aware_anti,
}
use vectorized_sql_engine.Execution.Predicate.{evaluate_join_predicates}
use vectorized_sql_engine.Execution.Truth.{TruthValue, is_true, is_false}
use vectorized_sql_engine.Execution.Context.{M, lift}
use vectorized_sql_engine.Execution.Join.{
  start_columns, add_all, emits_right_columns, append_output_row, JoinOutput, on_match,
  emits_unmatched, scan_right, join_rows, is_suppressed, null_aware_rows, membership_truth,
  row_pairs, join_batches,
}
use vectorized_sql_engine.Execution.Keeps.{
  OnlyAdds, pure-OnlyAdds, lift-OnlyAdds, if-OnlyAdds, bind-OnlyAdds,
}
use vectorized_sql_engine.Execution.Keeps.Predicates.{
  evaluate_join_predicate-OnlyAdds, evaluate_join_predicates-OnlyAdds,
}

on_match-OnlyAdds :
    {A : Type 0} (kind : JoinKind) {m n k : M A}
    → OnlyAdds m
    → OnlyAdds n
    → OnlyAdds k
    → OnlyAdds (λ σ. on_match kind m n k σ)
on_match-OnlyAdds inner h h' h'' = h''
on_match-OnlyAdds left h h' h'' = h''
on_match-OnlyAdds semi h h' h'' = h
on_match-OnlyAdds anti h h' h'' = h'
on_match-OnlyAdds null_aware_anti h h' h'' = h''

module _ {S : Type 0} (candidate membership : ℕ → ℕ → M TruthValue) (emit : ℕ → Option ℕ → S → M S)
    (candidates : (i j : ℕ) → OnlyAdds (candidate i j))
    (memberships : (i j : ℕ) → OnlyAdds (membership i j))
    (emits : (i : ℕ) (j : Option ℕ) (out : S) → OnlyAdds (emit i j out)) where
  scan_right-OnlyAdds :
      (kind : JoinKind) (i : ℕ) (matched : Bool) (out : S) (rows : List ℕ)
      → OnlyAdds (scan_right candidate membership emit kind i matched out rows)
  unfolding scan_right
  scan_right-OnlyAdds kind i matched out [] = record { keeps = λ σ ref batch found. found }
  scan_right-OnlyAdds kind i matched out (j ∷ rows) = bind-OnlyAdds _ (candidates i j) λ keep.
      if-OnlyAdds (not (is_true keep)) (scan_right-OnlyAdds kind i matched out rows) (
        on_match-OnlyAdds kind
          (bind-OnlyAdds _ (emits i none out) λ out'. record { keeps = λ σ ref batch found. found })
          (record { keeps = λ σ ref batch found. found })
          (bind-OnlyAdds _ (emits i (some j) out)
            λ out'. scan_right-OnlyAdds kind i true out' rows))

  join_rows-OnlyAdds :
      (kind : JoinKind) (left_rows right_rows : List ℕ) (out : S)
      → OnlyAdds (join_rows candidate membership emit kind left_rows right_rows out)
  unfolding join_rows
  join_rows-OnlyAdds kind [] right_rows out = pure-OnlyAdds out
  join_rows-OnlyAdds kind (i ∷ left_rows) right_rows out =
      bind-OnlyAdds _ (scan_right-OnlyAdds kind i false out right_rows) λ (s : Bool × S).
        bind-OnlyAdds _
          (if-OnlyAdds (not s.0 && emits_unmatched kind) (emits i none s.1) (pure-OnlyAdds s.1))
          λ out'. join_rows-OnlyAdds kind left_rows right_rows out'

  is_suppressed-OnlyAdds :
      (i : ℕ) (rows : List ℕ) → OnlyAdds (is_suppressed candidate membership emit i rows)
  unfolding is_suppressed
  is_suppressed-OnlyAdds i [] = pure-OnlyAdds false
  is_suppressed-OnlyAdds i (j ∷ rows) = bind-OnlyAdds _ (candidates i j) λ keep.
      if-OnlyAdds (not (is_true keep)) (is_suppressed-OnlyAdds i rows) (
        bind-OnlyAdds _ (memberships i j)
          λ t. if-OnlyAdds (not (is_false t)) (pure-OnlyAdds true) (is_suppressed-OnlyAdds i rows))

  null_aware_rows-OnlyAdds :
      (left_rows right_rows : List ℕ) (out : S)
      → OnlyAdds (null_aware_rows candidate membership emit left_rows right_rows out)
  unfolding null_aware_rows
  null_aware_rows-OnlyAdds [] right_rows out = pure-OnlyAdds out
  null_aware_rows-OnlyAdds (i ∷ left_rows) right_rows out =
      bind-OnlyAdds _ (is_suppressed-OnlyAdds i right_rows) λ suppressed.
        bind-OnlyAdds _ (if-OnlyAdds suppressed (pure-OnlyAdds out) (emits i none out))
          λ out'. null_aware_rows-OnlyAdds left_rows right_rows out'

module _ (subplans : PlanRef → Option LogicalPlan) (run : LogicalPlan → M ColumnarBatch)
    (runs : (plan : LogicalPlan) → OnlyAdds (run plan)) where
  membership_truth-OnlyAdds :
      (membership : Option BoundPredicate) (l r : ColumnarBatch) (i j : ℕ)
      → OnlyAdds (membership_truth subplans run membership l r i j)
  membership_truth-OnlyAdds none l r i j = pure-OnlyAdds _
  membership_truth-OnlyAdds (some p) l r i j =
      evaluate_join_predicate-OnlyAdds subplans run runs p l i r j

  row_pairs-OnlyAdds :
      (kind : JoinKind) (c m : ℕ → ℕ → M TruthValue)
      (emit : ℕ → Option ℕ → JoinOutput → M JoinOutput) (ls rs : List ℕ) (out : JoinOutput)
      → ((i j : ℕ) → OnlyAdds (c i j))
      → ((i j : ℕ) → OnlyAdds (m i j))
      → ((i : ℕ) (j : Option ℕ) (out : JoinOutput) → OnlyAdds (emit i j out))
      → OnlyAdds (row_pairs subplans run kind c m emit ls rs out)
  row_pairs-OnlyAdds null_aware_anti c m emit ls rs out h k e =
      null_aware_rows-OnlyAdds c m emit h k e ls rs out
  row_pairs-OnlyAdds inner c m emit ls rs out h k e =
      join_rows-OnlyAdds c m emit h k e inner ls rs out
  row_pairs-OnlyAdds left c m emit ls rs out h k e =
      join_rows-OnlyAdds c m emit h k e left ls rs out
  row_pairs-OnlyAdds semi c m emit ls rs out h k e =
      join_rows-OnlyAdds c m emit h k e semi ls rs out
  row_pairs-OnlyAdds anti c m emit ls rs out h k e =
      join_rows-OnlyAdds c m emit h k e anti ls rs out

  pub join_batches-OnlyAdds :
      (kind : JoinKind) (ps : List BoundPredicate) (membership : Option BoundPredicate)
      (l r : ColumnarBatch)
      → OnlyAdds (join_batches subplans run kind ps membership l r)
  unfolding join_batches
  join_batches-OnlyAdds kind ps membership l r =
      bind-OnlyAdds _ (lift-OnlyAdds (start_columns l l.column_names)) λ ls.
        bind-OnlyAdds _
          (lift-OnlyAdds
            (if emits_right_columns kind then start_columns r r.column_names else ok []))
          λ rs. bind-OnlyAdds _ (lift-OnlyAdds (row_count l)) λ left_count.
            bind-OnlyAdds _ (lift-OnlyAdds (row_count r)) λ right_count.
              bind-OnlyAdds _
                (row_pairs-OnlyAdds kind (λ i j. evaluate_join_predicates subplans run ps l i r j)
                  (membership_truth subplans run membership l r)
                  (λ i j out. lift (append_output_row kind l r i j out)) (range 0 left_count)
                  (range 0 right_count) (record { left_columns = ls; right_columns = rs })
                  (λ i j. evaluate_join_predicates-OnlyAdds subplans run runs ps l i r j)
                  (membership_truth-OnlyAdds membership l r)
                  (λ i j out. lift-OnlyAdds (append_output_row kind l r i j out)))
                λ (out : JoinOutput).
                  bind-OnlyAdds _
                    (lift-OnlyAdds (add_all l.column_names out.left_columns empty_batch))
                    λ added. lift-OnlyAdds _
