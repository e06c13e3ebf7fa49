-- ===== src/Execution/Gives.antt =====
-- Computations whose result does not depend on what they do to the context: evaluating a subquery
-- may add to its cache. `I` is a property of contexts that the computations keep.
use vectorized_sql_engine.Base.{ℕ, ◌≡◌, refl, List, [], ◌∷◌, Result, ok, err, Error, and_then}
use vectorized_sql_engine.Execution.Context.{ExecutionContext, M, lift}

-- The run ends as `r` does: with its value, in a context with `I`, or with its exception.
pub data Gives (I : ExecutionContext → Type 0) {A : Type 0}
    : Result (A × ExecutionContext) → Result A → Type 0 where
  gives : (a : A) (σ : ExecutionContext) → I σ → Gives I (ok (a, σ)) (ok a)
  throws : (e : Error) → Gives I (err e) (err e)

module _ {I : ExecutionContext → Type 0} {A : Type 0} where
  pub Gives-bind :
      {B : Type 0} {x : Result (A × ExecutionContext)} {r : Result A}
      (f : A × ExecutionContext → Result (B × ExecutionContext)) (g : A → Result B)
      → Gives I x r
      → ((a : A) (σ : ExecutionContext) → I σ → Gives I (f (a, σ)) (g a))
      → Gives I (and_then x f) (and_then r g)
  Gives-bind f g (gives a σ i) k = k a σ i
  Gives-bind f g (throws e) k = throws e

  pub Gives-lift : (r : Result A) (σ : ExecutionContext) → I σ → Gives I (lift r σ) r
  Gives-lift (ok a) σ i = gives a σ i
  Gives-lift (err e) σ i = throws e

  -- The context that a value is given in.
  pub Gives-ok :
      {x : Result (A × ExecutionContext)} {a : A}
      → Gives I x (ok a)
      → (σ : ExecutionContext) × (x ≡ ok (a, σ)) × I σ
  Gives-ok (gives a σ i) = (σ, refl, i)

-- In every context with `I` the computation gives `value`, and a context with `I`.
abbrev pub Evaluates : (ExecutionContext → Type 0) → {A : Type 0} → M A → A → Type 0
Evaluates I m value = (σ : ExecutionContext) → I σ → Gives I (m σ) (ok value)

-- The computations for a left row and each of the right rows give the values `value`.
abbrev pub EvaluatesRow :
    (ExecutionContext → Type 0) → {A : Type 0} → (ℕ → ℕ → M A) → (ℕ → ℕ → A) → ℕ → List ℕ → Type 0
EvaluatesRow I m value i [] = Unit
EvaluatesRow I m value i (j ∷ rows) =
    Evaluates I (m i j) (value i j) × EvaluatesRow I m value i rows

-- The same for each of the left rows.
abbrev pub EvaluatesPairs :
    (ExecutionContext → Type 0)
    → {A : Type 0} → (ℕ → ℕ → M A)
    → (ℕ → ℕ → A)
    → List ℕ
    → List ℕ
    → Type 0
EvaluatesPairs I m value [] right_rows = Unit
EvaluatesPairs I m value (i ∷ left_rows) right_rows =
    EvaluatesRow I m value i right_rows × EvaluatesPairs I m value left_rows right_rows
