-- ===== src/Execution/NotInSpec.antt =====
-- src/execution/interpreter.cpp: the rows that a NULL-aware anti join emits.
use vectorized_sql_engine.Base.{
  ℕ, ◌≡◌, subst, Bool, true, false, not, Option, none, List, [], ◌∷◌, map, Result, ok,
  if◌then◌else◌, arith, Bool-cases, inl, inr,
}
use vectorized_sql_engine.Execution.Truth.{TruthValue, or_truth, not_truth, is_true, is_false}
use vectorized_sql_engine.Execution.Context.{ExecutionContext, M, pure, lift}
use vectorized_sql_engine.Execution.Gives.{
  Gives, gives, Gives-bind, Gives-lift, Gives-ok, Evaluates, EvaluatesPairs, EvaluatesRow,
}
use vectorized_sql_engine.Execution.Join.{is_suppressed, null_aware_rows}
use vectorized_sql_engine.Execution.JoinSpec.{keep_if, any_truth, emit_all}

-- The computations have the values `value` on a left row and those right rows that are candidates.
abbrev pub EvaluatesWhere :
    (ExecutionContext → Type 0)
    → (ℕ → ℕ → TruthValue)
    → (ℕ → ℕ → M TruthValue)
    → (ℕ → ℕ → TruthValue)
    → ℕ
    → List ℕ
    → Type 0
EvaluatesWhere I c m value i [] = Unit
EvaluatesWhere I c m value i (j ∷ rows) =
    (is_true (c i j) ≡ true → Evaluates I (m i j) (value i j)) × EvaluatesWhere I c m value i rows

-- The same for each of the left rows.
abbrev pub EvaluatesCandidates :
    (ExecutionContext → Type 0)
    → (ℕ → ℕ → TruthValue)
    → (ℕ → ℕ → M TruthValue)
    → (ℕ → ℕ → TruthValue)
    → List ℕ
    → List ℕ
    → Type 0
EvaluatesCandidates I c m value [] right_rows = Unit
EvaluatesCandidates I c m value (i ∷ left_rows) right_rows =
    EvaluatesWhere I c m value i right_rows × EvaluatesCandidates I c m value left_rows right_rows

-- One candidate more: it suppresses unless its equality is false.
suppressed_value :
    (t rest : TruthValue)
    → (if not (is_false t) then true else not (is_true (not_truth rest)))
      ≡ not (is_true (not_truth (or_truth t rest)))
suppressed_value t rest = ground arith

module _ {S : Type 0} (I : ExecutionContext → Type 0) (candidate membership : ℕ → ℕ → M TruthValue)
    (emit : ℕ → Option ℕ → S → Result S) (c m : ℕ → ℕ → TruthValue) where
  abbrev emit_in : ℕ → Option ℕ → S → M S
  emit_in i j out = lift (emit i j out)

  -- The truth values of the membership equality against the candidates of a left row.
  abbrev memberships : ℕ → List ℕ → List TruthValue
  memberships i rows = map (m i) (keep_if (λ j. is_true (c i j)) rows)

  abbrev suppressed : ℕ → List ℕ → Bool
  suppressed i rows = not (is_true (not_truth (any_truth (memberships i rows))))

  -- A candidate ends the scan unless its equality is false.
  membership-Gives :
      (t rest : TruthValue) (next : M Bool) (σ : ExecutionContext)
      → I σ
      → Gives I (next σ) (ok (not (is_true (not_truth rest))))
      → Gives I
          ((if not (is_false t) then pure true else next) σ)
          (ok (not (is_true (not_truth (or_truth t rest)))))
  membership-Gives t rest next σ iσ g =
      subst (λ b. Gives I ((if not (is_false t) then pure true else next) σ) (ok b))
        (suppressed_value t rest) (by_test (not (is_false t)))
    where
      by_test :
          (b : Bool)
          → Gives I
              ((if b then pure true else next) σ)
              (ok (if b then true else not (is_true (not_truth rest))))
      by_test true = gives true σ iσ
      by_test false = g

  is_suppressed-not_in :
      (i : ℕ) (rows : List ℕ) (σ : ExecutionContext)
      → EvaluatesRow I candidate c i rows
      → EvaluatesWhere I c membership m i rows
      → I σ
      → Gives I (is_suppressed candidate membership emit_in i rows σ) (ok (suppressed i rows))
  unfolding is_suppressed
  is_suppressed-not_in i [] σ ev fv iσ = gives false σ iσ
  is_suppressed-not_in i (j ∷ rows) σ (e, ev) (f, fv) iσ =
      let (σ', runs, iσ') = Gives-ok (e σ iσ) in
      elim (Bool-cases (is_true (c i j))) [
        | inl hit ↦
            let (σ'', runs', iσ'') = Gives-ok (f hit σ' iσ') in
            rw runs (
              rw hit (
                rw runs' (
                  membership-Gives (m i j) (any_truth (memberships i rows)) _ σ'' iσ''
                    (is_suppressed-not_in i rows σ'' ev fv iσ''))))
        | inr miss ↦ rw runs (rw miss (is_suppressed-not_in i rows σ' ev fv iσ'))
      ]

  -- If, in every context with the property `I`, the join predicates have on each pair of a left and a
  -- right row one truth value and leave a context with `I`, and so has the membership equality on the
  -- pairs on which the join predicates are TRUE, then from a context with `I` a NULL-aware anti join
  -- emits exactly the left rows, in their order, for which NOT IN is TRUE: the negation of the
  -- three-valued disjunction of the membership equalities with those right rows. It ends with the
  -- output of appending these rows, in a context with `I`, or with the exception that appending
  -- them throws.
  pub null_aware_rows-emits :
      (left_rows right_rows : List ℕ) (out : S) (σ : ExecutionContext)
      → EvaluatesPairs I candidate c left_rows right_rows
      → EvaluatesCandidates I c membership m left_rows right_rows
      → I σ
      → Gives I (null_aware_rows candidate membership emit_in left_rows right_rows out σ) (
          emit_all emit out (
            map
              (λ i. (i, none))
              (keep_if
                (λ i. is_true (not_truth (any_truth (memberships i right_rows))))
                left_rows)))
  unfolding null_aware_rows
  null_aware_rows-emits [] right_rows out σ evs fvs iσ = gives out σ iσ
  null_aware_rows-emits (i ∷ left_rows) right_rows out σ (ev, evs) (fv, fvs) iσ =
      let (σ', runs, iσ') = Gives-ok (is_suppressed-not_in i right_rows σ ev fv iσ) in
      elim (Bool-cases (is_true (not_truth (any_truth (memberships i right_rows))))) [
        | inl kept ↦ rw runs (
            rw kept (
              Gives-bind _ _ (Gives-lift (emit i none out) σ' iσ')
                (λ o σ'' i''. null_aware_rows-emits left_rows right_rows o σ'' evs fvs i'')))
        | inr gone ↦
            rw runs (rw gone (null_aware_rows-emits left_rows right_rows out σ' evs fvs iσ'))
      ]
