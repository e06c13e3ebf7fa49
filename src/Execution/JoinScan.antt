-- ===== src/Execution/JoinScan.antt =====
-- src/execution/interpreter.cpp: the loop of execute_join over the right rows, for one left row.
use vectorized_sql_engine.Base.{
  ℕ, ◌≡◌, refl, sym, ◌∙◌, ap, Bool, true, false, not, ◌||◌, Option, none, some, List, [], ◌∷◌, map,
  Result, ok, subst, and_then, and_then-cong, and_then_assoc, if◌then◌else◌, Bool-cases, inl, inr,
}
use vectorized_sql_engine.Plan.{JoinKind, inner, left, semi, anti, null_aware_anti}
use vectorized_sql_engine.Execution.Truth.{TruthValue, is_true}
use vectorized_sql_engine.Execution.Context.{ExecutionContext, M, ◌>>=◌, pure, lift}
use vectorized_sql_engine.Execution.Gives.{
  Gives, gives, Gives-bind, Gives-lift, Gives-ok, Evaluates, EvaluatesRow,
}
use vectorized_sql_engine.Execution.Join.{scan_right, on_match}
use vectorized_sql_engine.Execution.JoinSpec.{keep_if, emit_all, is_nil, EmitsPairs}

or_true : (b : Bool) → b || true ≡ true
or_true true = refl
or_true false = refl

on_match-pair {ℓ} :
    {A : Type ℓ} (kind : JoinKind) (a b c : A) → EmitsPairs kind → on_match kind a b c ≡ c
on_match-pair inner a b c h = refl
on_match-pair left a b c h = refl
on_match-pair semi a b c h = absurd h
on_match-pair anti a b c h = absurd h
on_match-pair null_aware_anti a b c h = absurd h

module _ {S : Type 0} (I : ExecutionContext → Type 0) (candidate membership : ℕ → ℕ → M TruthValue)
    (emit : ℕ → Option ℕ → S → Result S) (c : ℕ → ℕ → TruthValue) where
  -- The right rows that match a left row, in their order.
  abbrev matches : ℕ → List ℕ → List ℕ
  matches i rows = keep_if (λ j. is_true (c i j)) rows

  abbrev emit_in : ℕ → Option ℕ → S → M S
  emit_in i j out = lift (emit i j out)

  abbrev scan : JoinKind → ℕ → Bool → S → List ℕ → M (Bool × S)
  scan = scan_right candidate membership emit_in

  -- One more right row, on which the predicates are evaluated first.
  scan_step :
      (kind : JoinKind) (i j : ℕ) (matched : Bool) (out : S) (rows : List ℕ) (σ : ExecutionContext)
      (r_hit r_miss : Result (Bool × S))
      → Evaluates I (candidate i j) (c i j)
      → I σ
      → ((σ' : ExecutionContext)
          → I σ'
          → Gives I
              (on_match kind
                (emit_in i none out >>= λ out'. pure (true, out'))
                (pure (true, out))
                (emit_in i (some j) out >>= λ out'. scan kind i true out' rows)
                σ')
              r_hit)
      → ((σ' : ExecutionContext) → I σ' → Gives I (scan kind i matched out rows σ') r_miss)
      → Gives I (scan kind i matched out (j ∷ rows) σ) (if is_true (c i j) then r_hit else r_miss)
  unfolding scan_right
  scan_step kind i j matched out rows σ r_hit r_miss e iσ hit miss =
      let (σ', runs, iσ') = Gives-ok (e σ iσ) in
      elim (Bool-cases (is_true (c i j))) [
        | inl h ↦ rw runs (rw h (hit σ' iσ'))
        | inr h ↦ rw runs (rw h (miss σ' iσ'))
      ]

  -- The emitted pairs of a left row, then whether one matched.
  abbrev pairs : ℕ → List ℕ → S → Result S
  pairs i js out = emit_all emit out (map (λ j. (i, some j)) js)

  abbrev scanned : Bool → S → Result (Bool × S)
  scanned matched out = ok (matched, out)

  pairs_step :
      (b : Bool) (i j : ℕ) (matched : Bool) (js : List ℕ) (out : S)
      → (if b
          then and_then
              (emit i (some j) out)
              (λ o. and_then (pairs i js o) (λ o. scanned (not (is_nil js) || true) o))
          else and_then (pairs i js out) (λ o. scanned (not (is_nil js) || matched) o))
        ≡ and_then
            (pairs i (if b then j ∷ js else js) out)
            (λ o. scanned (not (is_nil (if b then j ∷ js else js)) || matched) o)
  pairs_step true i j matched js out =
      and_then-cong (emit i (some j) out)
        (λ o. and_then-cong (pairs i js o) (λ o. ap (λ b. scanned b o) (or_true (not (is_nil js)))))
      ∙ sym (and_then_assoc (emit i (some j) out) _ _)
  pairs_step false i j matched js out = refl

  pub scan-pairs :
      (kind : JoinKind) (i : ℕ) (matched : Bool) (out : S) (rows : List ℕ) (σ : ExecutionContext)
      → EvaluatesRow I candidate c i rows
      → EmitsPairs kind
      → I σ
      → Gives I (scan kind i matched out rows σ) (
          and_then
            (pairs i (matches i rows) out)
            (λ o. scanned (not (is_nil (matches i rows)) || matched) o))
  unfolding scan_right
  scan-pairs kind i matched out [] σ ev h iσ = gives (matched, out) σ iσ
  scan-pairs kind i matched out (j ∷ rows) σ (e, ev) h iσ =
      let hit_result = and_then (emit i (some j) out) (λ o.
        and_then (pairs i (matches i rows) o)
          (λ o. scanned (not (is_nil (matches i rows)) || true) o)) in
      let miss_result =
        and_then (pairs i (matches i rows) out)
          (λ o. scanned (not (is_nil (matches i rows)) || matched) o) in
      subst (Gives I (scan kind i matched out (j ∷ rows) σ))
        (pairs_step (is_true (c i j)) i j matched (matches i rows) out)
        (scan_step kind i j matched out rows σ hit_result miss_result e iσ
          (λ σ' iσ'.
            subst (λ x. Gives I x hit_result)
              (sym (ap (λ (f : M (Bool × S)). f σ') (on_match-pair kind _ _ _ h)))
              (Gives-bind _ _ (Gives-lift (emit i (some j) out) σ' iσ')
                (λ o σ'' i''. scan-pairs kind i true o rows σ'' ev h i'')))
          (λ σ' iσ'. scan-pairs kind i matched out rows σ' ev h iσ'))

  semi_step :
      (b : Bool) (j : ℕ) (js : List ℕ) (i : ℕ) (out : S)
      → (if b
          then and_then (emit i none out) (λ o. scanned true o)
          else if is_nil js
          then scanned false out
          else and_then (emit i none out) (λ o. scanned true o))
        ≡ (if is_nil (if b then j ∷ js else js)
            then scanned false out
            else and_then (emit i none out) (λ o. scanned true o))
  semi_step true j js i out = refl
  semi_step false j js i out = refl

  anti_step :
      (b : Bool) (j : ℕ) (js : List ℕ) (out : S)
      → (if b then scanned true out else scanned (not (is_nil js)) out)
        ≡ scanned (not (is_nil (if b then j ∷ js else js))) out
  anti_step true j js out = refl
  anti_step false j js out = refl

  pub scan-semi :
      (i : ℕ) (out : S) (rows : List ℕ) (σ : ExecutionContext)
      → EvaluatesRow I candidate c i rows
      → I σ
      → Gives I (scan semi i false out rows σ) (
          if is_nil (matches i rows)
          then scanned (false) out
          else and_then (emit i none out) (λ o. scanned (true) o))
  unfolding scan_right
  scan-semi i out [] σ ev iσ = gives (false, out) σ iσ
  scan-semi i out (j ∷ rows) σ (e, ev) iσ =
      subst (Gives I (scan semi i false out (j ∷ rows) σ))
        (semi_step (is_true (c i j)) j (matches i rows) i out)
        (scan_step semi i j false out rows σ _ _ e iσ
          (λ σ' iσ'.
            Gives-bind _ (λ o. scanned (true) o) (Gives-lift (emit i none out) σ' iσ')
              (λ o σ'' i''. gives (true, o) σ'' i''))
          (λ σ' iσ'. scan-semi i out rows σ' ev iσ'))

  pub scan-anti :
      (i : ℕ) (out : S) (rows : List ℕ) (σ : ExecutionContext)
      → EvaluatesRow I candidate c i rows
      → I σ
      → Gives I (scan anti i false out rows σ) (scanned (not (is_nil (matches i rows))) out)
  unfolding scan_right
  scan-anti i out [] σ ev iσ = gives (false, out) σ iσ
  scan-anti i out (j ∷ rows) σ (e, ev) iσ =
      subst (Gives I (scan anti i false out (j ∷ rows) σ))
        (anti_step (is_true (c i j)) j (matches i rows) out)
        (scan_step anti i j false out rows σ _ _ e iσ (λ σ' iσ'. gives (true, out) σ' iσ')
          (λ σ' iσ'. scan-anti i out rows σ' ev iσ'))
