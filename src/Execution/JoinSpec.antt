-- ===== src/Execution/JoinSpec.antt =====
-- src/execution/interpreter.cpp: the rows that the loops of execute_join should emit.
use vectorized_sql_engine.Base.{
  ℕ, ◌≡◌, refl, sym, ◌∙◌, Bool, true, false, Option, none, some, List, [], ◌∷◌, ◌++◌, map, Result,
  ok, and_then, and_then-cong, and_then_assoc, if◌then◌else◌,
}
use vectorized_sql_engine.Plan.{JoinKind, inner, left, semi, anti, null_aware_anti}
use vectorized_sql_engine.Execution.Truth.{TruthValue, or_truth}

-- std::copy_if
abbrev pub keep_if {ℓ} : {A : Type ℓ} → (A → Bool) → List A → List A
keep_if p [] = []
keep_if p (x ∷ xs) = if p x then x ∷ keep_if p xs else keep_if p xs

abbrev pub concat_map : {A B : Type 0} → (A → List B) → List A → List B
concat_map f [] = []
concat_map f (x ∷ xs) = f x ++ concat_map f xs

-- The rows that one left row contributes, given the right rows that match it.
abbrev pub row_output : JoinKind → ℕ → List ℕ → List (ℕ × Option ℕ)
row_output inner i matches = map (λ j. (i, some j)) matches
row_output left i [] = (i, none) ∷ []
row_output left i (j ∷ matches) = map (λ k. (i, some k)) (j ∷ matches)
row_output semi i [] = []
row_output semi i (_ ∷ _) = (i, none) ∷ []
row_output anti i [] = (i, none) ∷ []
row_output anti i (_ ∷ _) = []
row_output null_aware_anti i matches = map (λ j. (i, some j)) matches

-- x IN (…) as the disjunction of its equalities.
abbrev pub any_truth : List TruthValue → TruthValue
any_truth [] = TruthValue.false
any_truth (t ∷ ts) = or_truth t (any_truth ts)

-- append_output_row on the emitted rows, one after the other.
abbrev pub emit_all :
    {S : Type 0} → (ℕ → Option ℕ → S → Result S) → S → List (ℕ × Option ℕ) → Result S
emit_all emit out [] = ok out
emit_all emit out ((i, j) ∷ rows) = and_then (emit i j out) (λ out'. emit_all emit out' rows)

pub emit_all-append :
    {S : Type 0} (emit : ℕ → Option ℕ → S → Result S) (out : S) (xs ys : List (ℕ × Option ℕ))
    → emit_all emit out (xs ++ ys) ≡ and_then (emit_all emit out xs) (λ o. emit_all emit o ys)
emit_all-append emit out [] ys = refl
emit_all-append emit out ((i, j) ∷ xs) ys =
    and_then-cong (emit i j out) (λ o. emit_all-append emit o xs ys)
    ∙ sym (and_then_assoc (emit i j out) _ _)

abbrev pub is_nil {ℓ} : {A : Type ℓ} → List A → Bool
is_nil [] = true
is_nil (_ ∷ _) = false

-- The kinds that join_rows is called with.
abbrev pub IsPlain : JoinKind → Type 0
IsPlain null_aware_anti = ⊥
IsPlain _ = Unit {0}

-- The kinds that emit every matching pair.
abbrev pub EmitsPairs : JoinKind → Type 0
EmitsPairs inner = Unit {0}
EmitsPairs left = Unit {0}
EmitsPairs _ = ⊥
