-- ===== src/Execution/JoinRows.antt =====
-- src/execution/interpreter.cpp: the rows that the loops of execute_join emit, and in which order.
use vectorized_sql_engine.Base.{
  ℕ, ◌≡◌, refl, sym, ◌∙◌, ap, Bool, true, false, not, ◌&&◌, ◌||◌, Option, none, some, List, [], ◌∷◌,
  map, Result, ok, subst, and_then, and_then-cong, and_then_assoc, and_then-ok, if◌then◌else◌,
}
use vectorized_sql_engine.Plan.{JoinKind, inner, left, semi, anti, null_aware_anti}
use vectorized_sql_engine.Execution.Truth.{TruthValue, is_true}
use vectorized_sql_engine.Execution.Context.{ExecutionContext, M, ◌>>=◌, pure, lift}
use vectorized_sql_engine.Execution.Gives.{
  Gives, gives, Gives-bind, Gives-lift, EvaluatesRow, EvaluatesPairs,
}
use vectorized_sql_engine.Execution.Join.{scan_right, join_rows, emits_unmatched}
use vectorized_sql_engine.Execution.JoinSpec.{
  keep_if, concat_map, row_output, emit_all, emit_all-append, is_nil, IsPlain,
}
use vectorized_sql_engine.Execution.JoinScan.{scan-pairs, scan-semi, scan-anti}

and_false : (b : Bool) → b && false ≡ false
and_false true = refl
and_false false = refl

module _ {S : Type 0} (I : ExecutionContext → Type 0) (candidate membership : ℕ → ℕ → M TruthValue)
    (emit : ℕ → Option ℕ → S → Result S) (c : ℕ → ℕ → TruthValue) where
  -- The right rows that match a left row, in their order.
  abbrev matches : ℕ → List ℕ → List ℕ
  matches i rows = keep_if (λ j. is_true (c i j)) rows

  abbrev emit_in : ℕ → Option ℕ → S → M S
  emit_in i j out = lift (emit i j out)

  abbrev scan : JoinKind → ℕ → Bool → S → List ℕ → M (Bool × S)
  scan = scan_right candidate membership emit_in

  -- The emitted pairs of a left row, then whether one matched.
  abbrev pairs : ℕ → List ℕ → S → Result S
  pairs i js out = emit_all emit out (map (λ j. (i, some j)) js)

  abbrev scanned : Bool → S → Result (Bool × S)
  scanned matched out = ok (matched, out)

  -- The end of the body of the loop over the left rows.
  abbrev finish : JoinKind → ℕ → Bool × S → M S
  finish kind i s = if not s.0 && emits_unmatched kind then emit_in i none s.1 else pure s.1

  abbrev finished : JoinKind → ℕ → Bool × S → Result S
  finished kind i s = if not s.0 && emits_unmatched kind then emit i none s.1 else ok s.1

  finish-finished :
      (kind : JoinKind) (i : ℕ) (s : Bool × S) (σ : ExecutionContext)
      → I σ
      → Gives I (finish kind i s σ) (finished kind i s)
  finish-finished kind i s σ iσ = by_test (not s.0 && emits_unmatched kind)
    where
      by_test :
          (b : Bool)
          → Gives I
              ((if b then emit_in i none s.1 else pure s.1) σ)
              (if b then emit i none s.1 else ok s.1)
      by_test true = Gives-lift (emit i none s.1) σ iσ
      by_test false = gives s.1 σ iσ

  inner-finished :
      (i : ℕ) (js : List ℕ) (out : S)
      → and_then
          (and_then (pairs i js out) (λ o. scanned (not (is_nil js) || false) o))
          (finished inner i)
        ≡ emit_all emit out (row_output inner i js)
  inner-finished i js out =
      and_then_assoc (pairs i js out) _ _
      ∙ and_then-cong (pairs i js out) (λ o.
        ap (λ b. if b then emit i none o else ok o) (and_false (not (not (is_nil js) || false))))
      ∙ and_then-ok (pairs i js out)

  left-finished :
      (i : ℕ) (js : List ℕ) (out : S)
      → and_then
          (and_then (pairs i js out) (λ o. scanned (not (is_nil js) || false) o))
          (finished left i)
        ≡ emit_all emit out (row_output left i js)
  left-finished i [] out = sym (and_then-ok (emit i none out))
  left-finished i (j ∷ js) out =
      and_then_assoc (pairs i (j ∷ js) out) _ _ ∙ and_then-ok (pairs i (j ∷ js) out)

  semi-finished :
      (i : ℕ) (js : List ℕ) (out : S)
      → and_then
          (if is_nil js
            then scanned false out
            else and_then (emit i none out) (λ o. scanned true o))
          (finished semi i)
        ≡ emit_all emit out (row_output semi i js)
  semi-finished i [] out = refl
  semi-finished i (j ∷ js) out = and_then_assoc (emit i none out) _ _

  anti-finished :
      (i : ℕ) (js : List ℕ) (out : S)
      → and_then (scanned (not (is_nil js)) out) (finished anti i)
        ≡ emit_all emit out (row_output anti i js)
  anti-finished i [] out = sym (and_then-ok (emit i none out))
  anti-finished i (j ∷ js) out = refl

  -- What a left row emits, from what the scan of the right rows gives.
  row-emits :
      (kind : JoinKind) (i : ℕ) (rows : List ℕ) (out : S) (σ : ExecutionContext)
      (r : Result (Bool × S)) (emitted : Result S)
      → Gives I (scan kind i false out rows σ) r
      → and_then r (finished kind i) ≡ emitted
      → Gives I ((scan kind i false out rows >>= finish kind i) σ) emitted
  row-emits kind i rows out σ r emitted g e =
      subst (Gives I ((scan kind i false out rows >>= finish kind i) σ)) e
        (Gives-bind _ (finished kind i) g (λ s σ' iσ'. finish-finished kind i s σ' iσ'))

  kind-emits :
      (kind : JoinKind) (i : ℕ) (rows : List ℕ) (out : S) (σ : ExecutionContext)
      → EvaluatesRow I candidate c i rows
      → IsPlain kind
      → I σ
      → Gives I
          ((scan kind i false out rows >>= finish kind i) σ)
          (emit_all emit out (row_output kind i (matches i rows)))
  kind-emits inner i rows out σ ev h iσ =
      row-emits inner i rows out σ _ _
        (scan-pairs I candidate membership emit c inner i false out rows σ ev tt iσ)
        (inner-finished i (matches i rows) out)
  kind-emits left i rows out σ ev h iσ =
      row-emits left i rows out σ _ _
        (scan-pairs I candidate membership emit c left i false out rows σ ev tt iσ)
        (left-finished i (matches i rows) out)
  kind-emits semi i rows out σ ev h iσ =
      row-emits semi i rows out σ _ _ (scan-semi I candidate membership emit c i out rows σ ev iσ)
        (semi-finished i (matches i rows) out)
  kind-emits anti i rows out σ ev h iσ =
      row-emits anti i rows out σ _ _ (scan-anti I candidate membership emit c i out rows σ ev iσ)
        (anti-finished i (matches i rows) out)
  kind-emits null_aware_anti i rows out σ ev h iσ = absurd h

  -- For INNER, LEFT, SEMI and ANTI joins: if, in every context with the property `I`, the ON
  -- predicates have on each pair of a left and a right row one truth value and leave a context with
  -- `I` (evaluating a subquery may fill the cache), then from a context with `I` the loops emit, left
  -- row by left row in the order of the input: each matching pair in the order of the right rows
  -- (INNER), the same or the row with NULLs if there is none (LEFT), the row once if there is a match
  -- (SEMI), the row if there is none (ANTI). They end with the output of appending these rows, in a
  -- context with `I`, or with the exception that appending them throws.
  pub join_rows-emits :
      (kind : JoinKind) (left_rows right_rows : List ℕ) (out : S) (σ : ExecutionContext)
      → EvaluatesPairs I candidate c left_rows right_rows
      → IsPlain kind
      → I σ
      → Gives I
          (join_rows candidate membership emit_in kind left_rows right_rows out σ)
          (emit_all emit out (concat_map (λ i. row_output kind i (matches i right_rows)) left_rows))
  unfolding join_rows
  join_rows-emits kind [] right_rows out σ evs h iσ = gives out σ iσ
  join_rows-emits kind (i ∷ left_rows) right_rows out σ (ev, evs) h iσ =
      let rows = concat_map (λ i. row_output kind i (matches i right_rows)) left_rows in
      let rest = λ (q : S × ExecutionContext).
        join_rows candidate membership emit_in kind left_rows right_rows q.0 q.1 in
      subst (Gives I (join_rows candidate membership emit_in kind (i ∷ left_rows) right_rows out σ))
        (sym (emit_all-append emit out (row_output kind i (matches i right_rows)) rows))
        (subst
          (λ x. Gives I x (
            and_then (emit_all emit out (row_output kind i (matches i right_rows)))
              (λ o. emit_all emit o rows)))
          (and_then_assoc (scan kind i false out right_rows σ) (λ r. finish kind i r.0 r.1) rest)
          (Gives-bind rest (λ o. emit_all emit o rows) (kind-emits kind i right_rows out σ ev h iσ)
            (λ o σ' iσ'. join_rows-emits kind left_rows right_rows o σ' evs h iσ')))
