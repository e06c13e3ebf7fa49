-- ===== src/Execution/Aggregate/Least.antt =====
-- src/execution/interpreter.cpp: what MIN accumulates over the arguments of a group.
use mathlib.Core.List.{Memᴰ}
use vectorized_sql_engine.Base.{
  ◌≡◌, refl, sym, ◌∙◌, ap, subst, some, and_then, Bool, true, false, not, all, List, [], ◌∷◌, Bytes,
  Bool-cases, inl, inr, ◌⊎◌, if◌then◌else◌, arith, Result, ok, IsStrictWeakOrder,
}
use vectorized_sql_engine.Sql.Ast.{AggregateFunction}
use vectorized_sql_engine.Execution.Cell.{Cell, cell_lt, cell_eq}
use vectorized_sql_engine.Execution.Cell.Order.{cell-IsStrictWeakOrder}
use vectorized_sql_engine.Execution.Aggregate.{AggregateValue, accumulate}
use vectorized_sql_engine.Execution.Aggregate.Totals.{accumulate_all, non_null}

abbrev order : IsStrictWeakOrder cell_lt cell_eq
order = cell-IsStrictWeakOrder

abbrev with_value : AggregateValue → Cell → AggregateValue
with_value value best = record value { value = best; has_value = true }

-- No cell precedes `best`.
abbrev pub is_least : Cell → List Cell → Bool
is_least best cs = all (λ c. not (cell_lt c best)) cs

abbrev Least : AggregateValue → Cell → List Cell → Result AggregateValue → Type 0
Least value best cs result =
    (out : Cell) × (result ≡ ok (with_value value out))
    × (is_least out (best ∷ cs) ≡ true)
    × Memᴰ out (best ∷ cs)

least-new :
    (best c out : Cell) (cs : List Cell)
    → cell_lt c best ≡ true
    → is_least out (c ∷ cs) ≡ true
    → is_least out (best ∷ c ∷ cs) ≡ true
least-new best c out cs h l = ground (arith, order.lt_trans c best out)

least-old :
    (best c out : Cell) (cs : List Cell)
    → cell_lt c best ≡ false
    → is_least out (best ∷ cs) ≡ true
    → is_least out (best ∷ c ∷ cs) ≡ true
least-old best c out cs h l = ground (
  arith,
  order.lt_trans best c out,
  order.eq_iff_incomparable best c,
  order.lt_of_eq_lt best c out,
)

Memᴰ-skip : (x y c : Cell) (cs : List Cell) → Memᴰ x (y ∷ cs) → Memᴰ x (y ∷ c ∷ cs)
Memᴰ-skip x y c cs (Memᴰ.head e) = Memᴰ.head e
Memᴰ-skip x y c cs (Memᴰ.tail m) = Memᴰ.tail (Memᴰ.tail m)

if-false : {A : Type 0} (b : Bool) (x y : A) → b ≡ false → (if b then x else y) ≡ y
if-false b x y h = rw h refl

if-true : {A : Type 0} (b : Bool) (x y : A) → b ≡ true → (if b then x else y) ≡ x
if-true b x y h = rw h refl

non_null-keep :
    (c : Cell) (cs : List Cell) → c.is_null ≡ false → non_null (c ∷ cs) ≡ c ∷ non_null cs
non_null-keep c cs h = if-true (not c.is_null) _ _ (ap not h)

min-null :
    (name : Bytes) (c : Cell) (value : AggregateValue)
    → c.is_null ≡ true
    → accumulate AggregateFunction.min name (some c) value ≡ ok value
unfolding accumulate
min-null name c value h = if-true c.is_null _ _ h

min-first :
    (name : Bytes) (c : Cell) (value : AggregateValue)
    → c.is_null ≡ false
    → value.has_value ≡ false
    → accumulate AggregateFunction.min name (some c) value ≡ ok (with_value value c)
unfolding accumulate
min-first name c value h first =
    if-false c.is_null _ _ h ∙ ap (λ v. ok v) (if-true (not value.has_value) _ _ (ap not first))

min-less :
    (name : Bytes) (c best : Cell) (value : AggregateValue)
    → c.is_null ≡ false
    → cell_lt c best ≡ true
    → accumulate AggregateFunction.min name (some c) (with_value value best)
      ≡ ok (with_value value c)
unfolding accumulate
min-less name c best value h less =
    if-false c.is_null _ _ h ∙ ap (λ v. ok v) (if-true (cell_lt c best) _ _ less)

min-kept :
    (name : Bytes) (c best : Cell) (value : AggregateValue)
    → c.is_null ≡ false
    → cell_lt c best ≡ false
    → accumulate AggregateFunction.min name (some c) (with_value value best)
      ≡ ok (with_value value best)
unfolding accumulate
min-kept name c best value h kept =
    if-false c.is_null _ _ h ∙ ap (λ v. ok v) (if-false (cell_lt c best) _ _ kept)

abbrev rest_of : Bytes → List Cell → Result AggregateValue → Result AggregateValue
rest_of name cs r = and_then r λ value. accumulate_all AggregateFunction.min name cs value

more-Least :
    (name : Bytes) (cs : List Cell) (value : AggregateValue) (best : Cell)
    → Least value best
        (non_null cs)
        (accumulate_all AggregateFunction.min name cs (with_value value best))
more-Least name [] value best =
    (best, refl, ground (arith, order.lt_asym best best), Memᴰ.head refl)
more-Least name (c ∷ cs) value best = elim (Bool-cases c.is_null) [
  | inl null ↦
      let skipped : non_null (c ∷ cs) ≡ non_null cs = if-false (not c.is_null) _ _ (ap not null) in
      subst
        (λ ns.
          Least value best ns
            (accumulate_all AggregateFunction.min name (c ∷ cs) (with_value value best)))
        (sym skipped)
        (subst (λ r. Least value best (non_null cs) (rest_of name cs r))
          (sym (min-null name c (with_value value best) null)) (more-Least name cs value best))
  | inr there ↦
      subst
        (λ ns.
          Least value best ns
            (accumulate_all AggregateFunction.min name (c ∷ cs) (with_value value best)))
        (sym (non_null-keep c cs there))
        (elim (Bool-cases (cell_lt c best)) [
          | inl less ↦
              let (out, e, l, m) = more-Least name cs value c in
              (
                out,
                ap (rest_of name cs) (min-less name c best value there less) ∙ e,
                least-new best c out (non_null cs) less l,
                Memᴰ.tail m,
              )
          | inr kept ↦
              let (out, e, l, m) = more-Least name cs value best in
              (
                out,
                ap (rest_of name cs) (min-kept name c best value there kept) ∙ e,
                least-old best c out (non_null cs) kept l,
                Memᴰ-skip out best c (non_null cs) m,
              )
        ])
]

-- MIN of a group: NULL arguments are skipped; with no other argument there is still no value; else the
-- value is one of the arguments that are not NULL, and none of them precedes it.
pub min-accumulate_all :
    (name : Bytes) (cs : List Cell) (value : AggregateValue)
    → value.has_value ≡ false
    → ((non_null cs ≡ []) × (accumulate_all AggregateFunction.min name cs value ≡ ok value))
      ⊎ ((out : Cell) × (accumulate_all AggregateFunction.min name cs value
            ≡ ok (record value { value = out; has_value = true }))
          × (is_least out (non_null cs) ≡ true)
          × Memᴰ out (non_null cs))
min-accumulate_all name [] value h = inl (refl, refl)
min-accumulate_all name (c ∷ cs) value h = elim (Bool-cases c.is_null) [
  | inl null ↦
      let skipped : non_null (c ∷ cs) ≡ non_null cs = if-false (not c.is_null) _ _ (ap not null) in
      let same = ap (rest_of name cs) (min-null name c value null) in
      elim (min-accumulate_all name cs value h) [
        | inl (n, e) ↦ inl (skipped ∙ n, same ∙ e)
        | inr (out, e, l, m) ↦ inr (
          out,
          same ∙ e,
          subst (λ ns. is_least out ns ≡ true) (sym skipped) l,
          subst (Memᴰ out) (sym skipped) m,
        )
      ]
  | inr there ↦
      let (out, e, l, m) = more-Least name cs value c in
      inr (
        out,
        ap (rest_of name cs) (min-first name c value there h) ∙ e,
        subst (λ ns. is_least out ns ≡ true) (sym (non_null-keep c cs there)) l,
        subst (Memᴰ out) (sym (non_null-keep c cs there)) m,
      )
]
