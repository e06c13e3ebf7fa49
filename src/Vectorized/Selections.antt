-- ===== src/Vectorized/Selections.antt =====
-- src/execution/vectorized.cpp: the mask of a conjunction, and the selection that a filter makes
-- from it.
use vectorized_sql_engine.Base.{
  ℕ, zero, suc, ◌≡◌, refl, ap, sym, subst, ◌∙◌, Bool, true, false, ◌&&◌, List, [], ◌∷◌, map, length,
  length-map, range, Result, ok, err, and_then, and_then-ok, and_then-eq-ok, and_then_assoc,
  and_then-cong, arith, if◌then◌else◌, ◌==◌,
}
use vectorized_sql_engine.Execution.Cell.{type_eq}
use vectorized_sql_engine.Execution.JoinSpec.{keep_if}
use vectorized_sql_engine.Execution.Truth.{TruthValue, and_truth, or_truth, is_true}
use vectorized_sql_engine.Vectorized.Scalars.{CompiledScalar, scalar_is_null, scalar_cell}
use vectorized_sql_engine.Vectorized.Predicates.{CompiledPredicate, evaluate_with, evaluate_all}
use vectorized_sql_engine.Vectorized.Masks.{
  PredicateMask, PredicateEvaluationDomain, domain_rows, domain_size, evaluate_predicate_mask,
  combine_predicates, evaluate_predicates_mask, true_rows, selection_from_true_mask, and_bits,
  or_bits, and_sizes, or_sizes, bit,
}
use vectorized_sql_engine.Vectorized.MaskOf.{
  Agrees, truths, AllBelow, combine-Agrees, and-Combines, or-Combines, true_bit, known_bit, if-true,
}
use vectorized_sql_engine.Vectorized.RowReads.{IsReadable}
use vectorized_sql_engine.Vectorized.MaskBits.{constant_on, bool_bit, bool_known}
use vectorized_sql_engine.Vectorized.PredicateMasks.{
  truth_on, comparison-Agrees, null_check-Agrees, in-Agrees,
}

-- The scalars of the predicate can be read on each of `n` rows, and it compares values of one type.
abbrev pub PredicateReads : ℕ → CompiledPredicate CompiledScalar → Type 0
PredicateReads n (CompiledPredicate.comparison c) =
    IsReadable n c.left × IsReadable n c.right × (type_eq (c.left).type (c.right).type ≡ true)
PredicateReads n (CompiledPredicate.is_null s) = IsReadable n s
PredicateReads n (CompiledPredicate.is_not_null s) = IsReadable n s
PredicateReads n (CompiledPredicate.is_in s set) = IsReadable n s
PredicateReads n (CompiledPredicate.not_in s set) = IsReadable n s
PredicateReads n (CompiledPredicate.exists b) = Unit {0}
PredicateReads n (CompiledPredicate.not_exists b) = Unit {0}
PredicateReads n (CompiledPredicate.both l r) = PredicateReads n l × PredicateReads n r
PredicateReads n (CompiledPredicate.either l r) = PredicateReads n l × PredicateReads n r

abbrev pub AllRead : ℕ → List (CompiledPredicate CompiledScalar) → Type 0
AllRead n [] = Unit {0}
AllRead n (p ∷ ps) = PredicateReads n p × AllRead n ps

-- The truth value of a conjunction on a row.
abbrev pub conjunction_on : List (CompiledPredicate CompiledScalar) → ℕ → Result TruthValue
conjunction_on ps row =
    evaluate_all (λ s. scalar_is_null s row) (λ s. scalar_cell s row) TruthValue.true ps

and_true : (t : TruthValue) → and_truth TruthValue.true t ≡ t
and_true TruthValue.true = refl
and_true TruthValue.false = refl
and_true TruthValue.unknown = refl

Agrees-cong :
    (f g : ℕ → Result TruthValue) (rows : List ℕ) (m k : Result PredicateMask)
    → ((row : ℕ) → f row ≡ g row)
    → m ≡ k
    → Agrees f rows m
    → Agrees g rows k
Agrees-cong f g rows m k h e a =
    subst (λ x. Agrees g rows x) e (subst (λ x. Agrees x rows m) (λ i row. h row i) a)

-- The value of an evaluation that gives one.
abbrev pub value_of : Result TruthValue → TruthValue
value_of (ok t) = t
value_of (err e) = TruthValue.unknown

kept :
    (t : TruthValue) (row : ℕ) (b : Bool) (xs ys : List ℕ)
    → is_true t ≡ b
    → xs ≡ ys
    → (if true_bit t == 0 then xs else row ∷ xs) ≡ (if b then row ∷ ys else ys)
kept TruthValue.true row b xs ys h e = rw⁻¹ h (ap (◌∷◌ row) e)
kept TruthValue.false row b xs ys h e = rw⁻¹ h e
kept TruthValue.unknown row b xs ys h e = rw⁻¹ h e

two_sizes : (a b n : ℕ) → a ≡ n → b ≡ n → (a == n && b == n) ≡ true
two_sizes a b n h k = ground arith

length-range : (start count : ℕ) → length (range start count) ≡ count
length-range start zero = refl
length-range start (suc count) = ap suc (length-range (suc start) count)

by_flag :
    (flag : Bool) (rows : List ℕ)
    → length (if flag then range 0 (length rows) else rows) ≡ length rows
by_flag true rows = length-range 0 (length rows)
by_flag false rows = refl

true_rows-keep :
    (f : ℕ → Result TruthValue) (rows : List ℕ) (ts : List TruthValue)
    → truths f rows ≡ ok ts
    → true_rows (map true_bit ts) rows ≡ keep_if (λ row. is_true (value_of (f row))) rows
unfolding true_rows
true_rows-keep f [] ts h = nothing ts
  where
    nothing : (ts : List TruthValue) → true_rows (map true_bit ts) [] ≡ []
    nothing [] = refl
    nothing (t ∷ ts) = refl
true_rows-keep f (row ∷ rows) ts h =
    let (t, e, h') = and_then-eq-ok (f row) _ h in
    let (ts', es, h'') = and_then-eq-ok (truths f rows) _ h' in
    let p : t ∷ ts' ≡ ts = cc h'' in
    subst
      (λ xs.
        true_rows (map true_bit xs) (row ∷ rows)
        ≡ keep_if (λ r. is_true (value_of (f r))) (row ∷ rows))
      p (kept t row _ _ _ (sym (ap (λ r. is_true (value_of r)) e)) (true_rows-keep f rows ts' es))

length-domain_rows :
    (domain : PredicateEvaluationDomain) → length (domain_rows domain) ≡ domain_size domain
length-domain_rows domain = by_flag domain.rows_match_positions domain.selection

module _ (n : ℕ) (domain : PredicateEvaluationDomain)
    (below : AllBelow n (domain_rows domain)) where
  pub predicate-Agrees :
      (p : CompiledPredicate CompiledScalar)
      → PredicateReads n p
      → Agrees (truth_on p) (domain_rows domain) (evaluate_predicate_mask p domain)
  unfolding evaluate_predicate_mask evaluate_with
  predicate-Agrees (CompiledPredicate.comparison c) (l, r, same) =
      comparison-Agrees n domain (length-domain_rows domain) below c l r same
  predicate-Agrees (CompiledPredicate.is_null s) h =
      null_check-Agrees n domain (length-domain_rows domain) below s false h
  predicate-Agrees (CompiledPredicate.is_not_null s) h =
      null_check-Agrees n domain (length-domain_rows domain) below s true h
  predicate-Agrees (CompiledPredicate.is_in s set) h =
      in-Agrees n domain (length-domain_rows domain) below s set false h
  predicate-Agrees (CompiledPredicate.not_in s set) h =
      in-Agrees n domain (length-domain_rows domain) below s set true h
  predicate-Agrees (CompiledPredicate.exists b) h =
      constant_on _ n _ (bit b) 1 (domain_rows domain) (domain_size domain) (bool_bit b)
        (bool_known b) (length-domain_rows domain) (λ row lt. refl) below
  predicate-Agrees (CompiledPredicate.not_exists b) h =
      constant_on _ n _ _ 1 (domain_rows domain) (domain_size domain) (bool_bit _) (bool_known _)
        (length-domain_rows domain) (λ row lt. refl) below
  predicate-Agrees (CompiledPredicate.both l r) (a, b) =
      combine-Agrees and_bits and_truth and-Combines and_sizes _ _ (domain_rows domain) _ _
        (predicate-Agrees l a) (predicate-Agrees r b)
  predicate-Agrees (CompiledPredicate.either l r) (a, b) =
      combine-Agrees or_bits or_truth or-Combines or_sizes _ _ (domain_rows domain) _ _
        (predicate-Agrees l a) (predicate-Agrees r b)

  combined-Agrees :
      (ps : List (CompiledPredicate CompiledScalar)) (f : ℕ → Result TruthValue)
      (m : Result PredicateMask)
      → Agrees f (domain_rows domain) m
      → AllRead n ps
      → Agrees
          (λ row.
            and_then
              (f row)
              (λ t. evaluate_all (λ s. scalar_is_null s row) (λ s. scalar_cell s row) t ps))
          (domain_rows domain)
          (and_then m (λ mask. combine_predicates ps domain mask))
  unfolding combine_predicates evaluate_all
  combined-Agrees [] f m a reads =
      Agrees-cong _ _ (domain_rows domain) _ _ (λ row. sym (and_then-ok (f row)))
        (sym (and_then-ok m)) a
  combined-Agrees (p ∷ ps) f m a (r, rs) =
      Agrees-cong _ _ (domain_rows domain) _ _
        (λ row.
          and_then_assoc (f row) _ _
          ∙ and_then-cong (f row) (λ t. and_then_assoc (truth_on p row) _ _))
        (and_then_assoc m _ _
          ∙ and_then-cong m (λ x. and_then_assoc (evaluate_predicate_mask p domain) _ _))
        (combined-Agrees ps _ _
          (combine-Agrees and_bits and_truth and-Combines and_sizes f (truth_on p)
            (domain_rows domain) m (evaluate_predicate_mask p domain) a (predicate-Agrees p r))
          rs)

  predicates-Agrees :
      (ps : List (CompiledPredicate CompiledScalar))
      → AllRead n ps
      → Agrees (conjunction_on ps) (domain_rows domain) (evaluate_predicates_mask ps domain)
  unfolding evaluate_predicates_mask evaluate_all
  predicates-Agrees [] reads =
      constant_on _ n TruthValue.true 1 1 (domain_rows domain) (domain_size domain) refl refl
        (length-domain_rows domain) (λ row lt. refl) below
  predicates-Agrees (p ∷ ps) (r, rs) =
      Agrees-cong _ _ (domain_rows domain) _ _
        (λ row. and_then-cong (truth_on p row) (λ t.
          ap (λ u. evaluate_all (λ s. scalar_is_null s row) (λ s. scalar_cell s row) u ps)
            (sym (and_true t))))
        refl
        (combined-Agrees ps (truth_on p) (evaluate_predicate_mask p domain) (predicate-Agrees p r)
          rs)

  -- For compiled conjuncts that can be read on each row of the domain: the vectorized masks, combined
  -- bit by bit, select exactly the rows of the domain on which the conjunction is TRUE, in order.
  pub selection_from_true_mask-keep :
      (ps : List (CompiledPredicate CompiledScalar))
      → AllRead n ps
      → and_then (evaluate_predicates_mask ps domain) (λ mask. selection_from_true_mask mask domain)
        ≡ ok (keep_if (λ row. is_true (value_of (conjunction_on ps row))) (domain_rows domain))
  unfolding selection_from_true_mask
  selection_from_true_mask-keep ps reads =
      let a = predicates-Agrees ps reads in
      let size = domain_size domain in
      ap (λ m. and_then m (λ mask. selection_from_true_mask mask domain)) a.masked
      ∙ if-true _ _ _ (
          two_sizes (length (map true_bit a.values)) (length (map known_bit a.values)) size
            (length-map true_bit a.values ∙ a.one_each ∙ length-domain_rows domain)
            (length-map known_bit a.values ∙ a.one_each ∙ length-domain_rows domain))
      ∙ ap (λ rows. ok rows)
          (true_rows-keep (conjunction_on ps) (domain_rows domain) a.values a.evaluated)
