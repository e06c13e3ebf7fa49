-- ===== src/Execution/Keeps.antt =====
-- src/execution/interpreter.cpp: what executing does to the cache of subqueries.
pub mod Operators
pub mod Windows
pub mod Predicates
pub mod Joins
pub mod Nodes
use vectorized_sql_engine.Base.{
  ◌≡◌, Bool, true, false, Option, none, some, List, [], ◌∷◌, Result, ok, err, Exception, String,
  Bytes, and_then, ==_iff, ◌==◌, Bool-cases, inl, inr, if◌then◌else◌,
}
use vectorized_sql_engine.Storage.Batch.{ColumnarBatch}
use vectorized_sql_engine.Plan.{PlanRef}
use vectorized_sql_engine.Execution.Context.{
  ExecutionContext, M, ◌>>=◌, ◌>>◌, pure, lift, raise, for_each, push_each, find_result,
}
use vectorized_sql_engine.Execution.Scalar.{remembered}

-- What the cache has stays in it.
abbrev pub Extends : ExecutionContext → ExecutionContext → Type 0
Extends σ σ' =
    (ref : PlanRef) (batch : ColumnarBatch)
    → find_result ref σ.subquery_results ≡ some batch
    → find_result ref σ'.subquery_results ≡ some batch

-- A run, if it returns, leaves a context whose cache extends that of `σ`.
abbrev pub Keeps : {A : Type 0} → ExecutionContext → Result (A × ExecutionContext) → Type 0
Keeps σ (ok (a, σ')) = Extends σ σ'
Keeps σ (err e) = Unit

pub remembered-Extends :
    (key : PlanRef) (result : ColumnarBatch) (σ : ExecutionContext) (cached : Option ColumnarBatch)
    → find_result key σ.subquery_results ≡ cached
    → Extends σ (remembered key result σ cached).1
unfolding find_result
remembered-Extends key result σ (some kept) h ref batch k = k
remembered-Extends key result σ none h ref batch k = elim (Bool-cases (key == ref)) [
  | inl same ↦ absurd (cc (h, k, (==_iff key ref).0 same))
  | inr other ↦ rw other k
]

pub Keeps-after :
    {B : Type 0} (σ σ' : ExecutionContext) (r : Result (B × ExecutionContext))
    → Extends σ σ'
    → Keeps σ' r
    → Keeps σ r
Keeps-after σ σ' (ok (b, σ'')) h e = λ ref batch found. e ref batch (h ref batch found)
Keeps-after σ σ' (err e) h k = tt

pub Keeps-bind :
    {A B : Type 0} (σ : ExecutionContext) (m : Result (A × ExecutionContext))
    (f : A × ExecutionContext → Result (B × ExecutionContext))
    → Keeps σ m
    → ((a : A) (σ' : ExecutionContext) → Keeps σ' (f (a, σ')))
    → Keeps σ (and_then m f)
Keeps-bind σ (ok (a, σ')) f h k = Keeps-after σ σ' (f (a, σ')) h (k a σ')
Keeps-bind σ (err e) f h k = tt

-- A computation that only adds to the cache.
pub record OnlyAdds {A : Type 0} (m : M A) : Type 0 where
  pub keeps : (σ : ExecutionContext) → Keeps σ (m σ)

module _ {A : Type 0} where
  pub pure-OnlyAdds : (a : A) → OnlyAdds (pure a)
  pure-OnlyAdds a = record { keeps = λ σ ref batch found. found }

  pub lift-OnlyAdds : (r : Result A) → OnlyAdds (lift r)
  lift-OnlyAdds (ok a) = record { keeps = λ σ ref batch found. found }
  lift-OnlyAdds (err e) = record { keeps = λ σ. tt }

  pub if-OnlyAdds :
      (b : Bool) {m n : M A} → OnlyAdds m → OnlyAdds n → OnlyAdds (λ σ. (if b then m else n) σ)
  if-OnlyAdds true h k = h
  if-OnlyAdds false h k = k

  pub bind-OnlyAdds :
      {B : Type 0} {m : M A} (f : A × ExecutionContext → Result (B × ExecutionContext))
      → OnlyAdds m
      → ((a : A) → OnlyAdds (λ σ. f (a, σ)))
      → OnlyAdds (λ σ. and_then (m σ) f)
  bind-OnlyAdds {m = m} f h k = record {
    keeps = λ σ. Keeps-bind σ (m σ) _ (h.keeps σ) (λ a σ'. (k a).keeps σ');
  }

module _ {A S : Type 0} where
  pub for_each-OnlyAdds :
      {body : S → A → M S} (s : S) (xs : List A)
      → ((s : S) (x : A) → OnlyAdds (body s x))
      → OnlyAdds (for_each body s xs)
  unfolding for_each
  for_each-OnlyAdds s [] h = record { keeps = λ σ ref batch found. found }
  for_each-OnlyAdds s (x ∷ xs) h = bind-OnlyAdds _ (h s x) (λ s'. for_each-OnlyAdds s' xs h)

module _ {A B : Type 0} where
  pub push_each-OnlyAdds :
      {f : A → M B} (xs : List A) → ((x : A) → OnlyAdds (f x)) → OnlyAdds (push_each f xs)
  unfolding push_each
  push_each-OnlyAdds [] h = record { keeps = λ σ ref batch found. found }
  push_each-OnlyAdds (x ∷ xs) h =
      bind-OnlyAdds _ (h x)
        (λ b. bind-OnlyAdds _ (push_each-OnlyAdds xs h) (λ bs. pure-OnlyAdds (b ∷ bs)))
