-- ===== src/Execution/Context.antt =====
-- ExecutionContext, and computations that use it and may throw. An exception ends the execution:
-- nothing catches it, so the context is lost with it.
use vectorized_sql_engine.Base.{
  ℕ, Bytes, Option, none, some, List, [], ◌∷◌, Result, ok, err, thrown, Exception, String, and_then,
  ◌==◌, if◌then◌else◌,
}
use vectorized_sql_engine.Storage.Batch.{ColumnarBatch}
use vectorized_sql_engine.Plan.{PlanRef}

-- A null pointer is `none`. The batches behind the pointers are immutable.
pub record OuterRowFrame : Type 0 where
  pub left : Option ColumnarBatch
  pub left_row : ℕ
  pub right : Option ColumnarBatch
  pub right_row : ℕ

-- The catalog, which execution never changes, is a parameter of the functions that read it.
pub record ExecutionContext : Type 0 where
  pub subquery_results : List (PlanRef × ColumnarBatch)
  -- A stack, the innermost frame first.
  pub outer_rows : List OuterRowFrame

abbrev pub M : Type 0 → Type 0
M A = ExecutionContext → Result (A × ExecutionContext)

infixl 5 ◌>>=◌ ◌>>◌
abbrev pub ◌>>=◌ : {A B : Type 0} → M A → (A → M B) → M B
◌>>=◌ m f σ = and_then (m σ) (λ r. f r.0 r.1)

abbrev pub ◌>>◌ : {A B : Type 0} → M A → M B → M B
◌>>◌ m k σ = and_then (m σ) (λ r. k r.1)

abbrev pub pure : {A : Type 0} → A → M A
pure a σ = ok (a, σ)

abbrev pub lift : {A : Type 0} → Result A → M A
lift r σ = and_then r (λ a. ok (a, σ))

abbrev pub raise : {A : Type 0} → Exception → String → Bytes → M A
raise e what name σ = err (thrown e what name)

-- A loop over a vector that carries a state.
unfoldable pub for_each : {A S : Type 0} → (S → A → M S) → S → List A → M S
for_each body s [] = pure s
for_each body s (x ∷ xs) = body s x >>= λ s'. for_each body s' xs

-- A loop that pushes one result for each element.
unfoldable pub push_each : {A B : Type 0} → (A → M B) → List A → M (List B)
push_each f [] = pure []
push_each f (x ∷ xs) = do b ← f x; bs ← push_each f xs; pure (b ∷ bs)

unfoldable pub find_result : PlanRef → List (PlanRef × ColumnarBatch) → Option ColumnarBatch
find_result ref [] = none
find_result ref ((key, batch) ∷ rest) = if key == ref then some batch else find_result ref rest

-- The OuterRowGuard around `m`: its constructor pushes the frame, its destructor pops one.
abbrev pop : List OuterRowFrame → List OuterRowFrame
pop [] = []
pop (_ ∷ frames) = frames

abbrev pub with_outer_row : {A : Type 0} → OuterRowFrame → M A → M A
with_outer_row frame m σ =
    and_then (m (record σ { outer_rows = frame ∷ σ.outer_rows }))
      (λ r. ok (r.0, record (r.1) { outer_rows = pop (r.1).outer_rows }))
