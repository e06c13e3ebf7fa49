-- ===== src/Execution/Window/PeerSum.antt =====
-- src/execution/interpreter.cpp: the sums of a RANGE frame, whose peers are sorted first.
use mathlib.Core.List.{Permᴰ}
use vectorized_sql_engine.Base.{
  ℕ, ◌≡◌, refl, sym, ◌∙◌, ap, ap₂, subst, ℤ, ltb_ℤ, eqb_ℤ→eq, List, [], ◌∷◌, false, Bool-cases, inl,
  inr, if◌then◌else◌, arith, ok,
}
use vectorized_sql_engine.Sql.Ast.{AggregateFunction}
use vectorized_sql_engine.Storage.Batch.{ColumnarBatch}
use vectorized_sql_engine.Plan.{AggregateExpression}
use vectorized_sql_engine.Execution.Cell.{Cell}
use vectorized_sql_engine.Execution.Context.{ExecutionContext}
use vectorized_sql_engine.Execution.Aggregate.{AggregateValue, aggregate_argument_value}
use vectorized_sql_engine.Execution.Window.{
  insert_argument, sort_arguments, peer_arguments, update_range_peer,
}

incomparable : (a b : ℤ) → ltb_ℤ a b ≡ false → ltb_ℤ b a ≡ false → a ≡ b
incomparable a b h k = eqb_ℤ→eq a b (ground arith)

insert_comm :
    (a b : ℤ) (xs : List ℤ)
    → insert_argument a (insert_argument b xs) ≡ insert_argument b (insert_argument a xs)
unfolding insert_argument
insert_comm a b [] = elim (Bool-cases (ltb_ℤ a b)) [
  | inl h ↦ let k : ltb_ℤ b a ≡ false = ground arith in rw (h, k) refl
  | inr h ↦ elim (Bool-cases (ltb_ℤ b a)) [
    | inl k ↦ rw (h, k) refl
    | inr k ↦ rw (h, k) (let e = incomparable a b h k in ap₂ (λ x y. x ∷ y ∷ []) e (sym e))
  ]
]
insert_comm a b (x ∷ xs) = ground (arith, insert_comm a b xs, incomparable a b)

abbrev keep_value : Cell → List ℤ → List ℤ
keep_value argument rest = if argument.is_null then rest else argument.int_value ∷ rest

-- The arguments of rows whose argument is `cell row`.
abbrev values_of : (ℕ → Cell) → List ℕ → List ℤ
values_of cell [] = []
values_of cell (row ∷ rows) = keep_value (cell row) (values_of cell rows)

-- The argument of each of the rows is `cell row`.
abbrev pub Arguments :
    AggregateExpression → ColumnarBatch → (ℕ → Cell) → ExecutionContext → List ℕ → Type 0
Arguments aggregate input cell σ [] = Unit
Arguments aggregate input cell σ (row ∷ rows) =
    (aggregate_argument_value aggregate input row σ ≡ ok (cell row, σ))
    × Arguments aggregate input cell σ rows

peer_arguments-values :
    (aggregate : AggregateExpression) (input : ColumnarBatch) (cell : ℕ → Cell)
    (σ : ExecutionContext) (rows : List ℕ)
    → Arguments aggregate input cell σ rows
    → peer_arguments aggregate input rows σ ≡ ok (values_of cell rows, σ)
unfolding peer_arguments
peer_arguments-values aggregate input cell σ [] h = refl
peer_arguments-values aggregate input cell σ (row ∷ rows) (h, hs) =
    rw h (rw (peer_arguments-values aggregate input cell σ rows hs) refl)

Arguments-Perm :
    (aggregate : AggregateExpression) (input : ColumnarBatch) (cell : ℕ → Cell)
    (σ : ExecutionContext) {rows rows' : List ℕ}
    → Permᴰ rows rows'
    → Arguments aggregate input cell σ rows
    → Arguments aggregate input cell σ rows'
Arguments-Perm e input cell σ Permᴰ.nil h = h
Arguments-Perm e input cell σ (Permᴰ.cons {a} {b} p q) (h, hs) = (
  subst (λ row. aggregate_argument_value e input row σ ≡ ok (cell row, σ)) p h,
  Arguments-Perm e input cell σ q hs,
)
Arguments-Perm e input cell σ (Permᴰ.swap p q) (h, rest) = (
  subst (λ row. aggregate_argument_value e input row σ ≡ ok (cell row, σ)) q rest.0,
  (subst (λ row. aggregate_argument_value e input row σ ≡ ok (cell row, σ)) p h, rest.1),
)
Arguments-Perm e input cell σ (Permᴰ.trans p q) h =
    Arguments-Perm e input cell σ q (Arguments-Perm e input cell σ p h)

sort_keep :
    (c : Cell) (xs ys : List ℤ)
    → sort_arguments xs ≡ sort_arguments ys
    → sort_arguments (keep_value c xs) ≡ sort_arguments (keep_value c ys)
unfolding sort_arguments
sort_keep c xs ys e = elim (Bool-cases c.is_null) [
  | inl h ↦ rw h e
  | inr h ↦ rw h (ap (insert_argument c.int_value) e)
]

sort_swap :
    (c d : Cell) (xs : List ℤ)
    → sort_arguments (keep_value c (keep_value d xs))
      ≡ sort_arguments (keep_value d (keep_value c xs))
unfolding sort_arguments
sort_swap c d xs = elim (Bool-cases c.is_null) [
  | inl h ↦ rw h refl
  | inr h ↦ elim (Bool-cases d.is_null) [
    | inl k ↦ rw (h, k) refl
    | inr k ↦ rw (h, k) (insert_comm c.int_value d.int_value (sort_arguments xs))
  ]
]

sort_values-Perm :
    (cell : ℕ → Cell) {rows rows' : List ℕ}
    → Permᴰ rows rows'
    → sort_arguments (values_of cell rows) ≡ sort_arguments (values_of cell rows')
sort_values-Perm cell Permᴰ.nil = refl
sort_values-Perm cell (Permᴰ.cons {a} {b} {l₁ = l} {l₂ = r} e p) =
    subst (λ z. sort_arguments (values_of cell (a ∷ l)) ≡ sort_arguments (values_of cell (z ∷ r))) e
      (sort_keep (cell a) (values_of cell l) (values_of cell r) (sort_values-Perm cell p))
sort_values-Perm cell (Permᴰ.swap {a} {b} {l = l} e f) =
    sort_swap (cell a) (cell b) (values_of cell l)
    ∙ ap₂ (λ x y. sort_arguments (values_of cell (x ∷ y ∷ l))) f e
sort_values-Perm cell (Permᴰ.trans p q) = sort_values-Perm cell p ∙ sort_values-Perm cell q

-- The order in which ties leave the rows of a peer does not matter to SUM over a RANGE frame: for
-- rows whose arguments can be read, in whatever order they come, the sum is the same or the same
-- overflow is reported.
pub update_range_peer-Perm :
    (aggregate : AggregateExpression) (input : ColumnarBatch) (cell : ℕ → Cell)
    (rows rows' : List ℕ) (state : AggregateValue) (σ : ExecutionContext)
    → aggregate.function ≡ AggregateFunction.sum
    → Arguments aggregate input cell σ rows
    → Permᴰ rows rows'
    → update_range_peer aggregate input rows state σ
      ≡ update_range_peer aggregate input rows' state σ
unfolding update_range_peer
update_range_peer-Perm aggregate input cell rows rows' state σ f h p = rw f (
    rw (peer_arguments-values aggregate input cell σ rows h) (
      rw
        (peer_arguments-values aggregate input cell σ rows'
          (Arguments-Perm aggregate input cell σ p h))
        (rw (sort_values-Perm cell p) refl)))
