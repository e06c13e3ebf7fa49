-- ===== src/Vectorized/MaskOf.antt =====
-- The mask of a list of truth values, and when a computed mask is that of the rows' truth values.
use vectorized_sql_engine.Base.{
  ℕ, String, zero, suc, ◌≡◌, refl, ap, sym, ◌∙◌, ◌<◌, Bool, true, false, List, [], ◌∷◌, map, length,
  range, Result, ok, and_then, and_then-eq-ok, subst, length-map, ◌+◌, ◌≤◌, arith, if◌then◌else◌,
  ◌==◌, ◌&&◌,
}
use vectorized_sql_engine.Execution.Truth.{TruthValue, and_truth, or_truth}
use vectorized_sql_engine.Vectorized.Masks.{
  PredicateMask, make_constant_predicate_mask, write_rows, combine_rows, combine_in_place, and_bits,
  or_bits, push_bits,
}

abbrev pub true_bit : TruthValue → ℕ
true_bit TruthValue.true = 1
true_bit _ = 0

abbrev pub known_bit : TruthValue → ℕ
known_bit TruthValue.unknown = 0
known_bit _ = 1

abbrev pub mask_of : List TruthValue → PredicateMask
mask_of ts = record { is_true = map true_bit ts; is_known = map known_bit ts }

-- The truth values on the rows, in order.
abbrev pub truths : (ℕ → Result TruthValue) → List ℕ → Result (List TruthValue)
truths f [] = ok []
truths f (row ∷ rows) = and_then (f row) (λ t. and_then (truths f rows) (λ ts. ok (t ∷ ts)))

-- Both the truth value on every row and the mask can be computed, and the mask is theirs.
pub record Agrees (f : ℕ → Result TruthValue) (rows : List ℕ) (m : Result PredicateMask)
    : Type 0 where
  pub values : List TruthValue
  pub evaluated : truths f rows ≡ ok values
  pub one_each : length values ≡ length rows
  pub masked : m ≡ ok (mask_of values)

abbrev pub AllBelow : ℕ → List ℕ → Type 0
AllBelow n [] = Unit {0}
AllBelow n (row ∷ rows) = (row < n) × AllBelow n rows

pub AllBelow-range : (n start count : ℕ) → start + count ≤ n → AllBelow n (range start count)
AllBelow-range n start zero h = tt
AllBelow-range n start (suc count) h =
    (omega arith, AllBelow-range n (suc start) count (omega arith))

module _ (f : ℕ → Result TruthValue) (n : ℕ) where
  pub write-Agrees :
      (bits : ℕ → Result (ℕ × ℕ)) (rows : List ℕ)
      → ((row : ℕ)
          → row < n
          → (t : TruthValue) × (f row ≡ ok t) × (bits row ≡ ok (true_bit t, known_bit t)))
      → AllBelow n rows
      → Agrees f rows (write_rows bits rows)
  unfolding write_rows
  write-Agrees bits [] each below = record {
    values = [];
    evaluated = refl;
    one_each = refl;
    masked = refl;
  }
  write-Agrees bits (row ∷ rows) each (lt, below) =
      let (t, e, b) = each row lt in
      let rest = write-Agrees bits rows each below in
      record {
        values = t ∷ rest.values;
        evaluated = rw e (rw rest.evaluated refl);
        one_each = ap suc rest.one_each;
        masked = rw b (rw rest.masked refl);
      }

  pub constant-Agrees :
      (t : TruthValue) (rows : List ℕ)
      → ((row : ℕ) → row < n → f row ≡ ok t)
      → AllBelow n rows
      → Agrees f rows (ok (make_constant_predicate_mask (length rows) (true_bit t) (known_bit t)))
  constant-Agrees t [] each below = record {
    values = [];
    evaluated = refl;
    one_each = refl;
    masked = refl;
  }
  constant-Agrees t (row ∷ rows) each (lt, below) =
      let rest = constant-Agrees t rows each below in
      record {
        values = t ∷ rest.values;
        evaluated = rw (each row lt) (rw rest.evaluated refl);
        one_each = ap suc rest.one_each;
        masked =
            ap (λ m. and_then m (λ mask. ok (push_bits (true_bit t, known_bit t) mask)))
              rest.masked;
      }

pub if-true {ℓ} : {A : Type ℓ} (b : Bool) (x y : A) → b ≡ true → (if b then x else y) ≡ x
if-true true x y h = refl
if-true false x y h = absurd (cc h)

same_sizes : (a b c d n : ℕ) → a ≡ n → b ≡ n → c ≡ n → d ≡ n → (a == b && (c == d && a == c)) ≡ true
same_sizes a b c d n h i j k = ground arith

abbrev zip_truths :
    (TruthValue → TruthValue → TruthValue) → List TruthValue → List TruthValue → List TruthValue
zip_truths op (t ∷ ts) (u ∷ us) = op t u ∷ zip_truths op ts us
zip_truths op _ _ = []

-- The bytes that a combination writes are those of the combined truth value.
abbrev pub Combines : (ℕ → ℕ → ℕ → ℕ → ℕ × ℕ) → (TruthValue → TruthValue → TruthValue) → Type 0
Combines bits op =
    (t u : TruthValue)
    → bits (true_bit t) (known_bit t) (true_bit u) (known_bit u)
      ≡ (true_bit (op t u), known_bit (op t u))

pub and-Combines : Combines and_bits and_truth
and-Combines TruthValue.true TruthValue.true = refl
and-Combines TruthValue.true TruthValue.false = refl
and-Combines TruthValue.true TruthValue.unknown = refl
and-Combines TruthValue.false TruthValue.true = refl
and-Combines TruthValue.false TruthValue.false = refl
and-Combines TruthValue.false TruthValue.unknown = refl
and-Combines TruthValue.unknown TruthValue.true = refl
and-Combines TruthValue.unknown TruthValue.false = refl
and-Combines TruthValue.unknown TruthValue.unknown = refl

pub or-Combines : Combines or_bits or_truth
or-Combines TruthValue.true TruthValue.true = refl
or-Combines TruthValue.true TruthValue.false = refl
or-Combines TruthValue.true TruthValue.unknown = refl
or-Combines TruthValue.false TruthValue.true = refl
or-Combines TruthValue.false TruthValue.false = refl
or-Combines TruthValue.false TruthValue.unknown = refl
or-Combines TruthValue.unknown TruthValue.true = refl
or-Combines TruthValue.unknown TruthValue.false = refl
or-Combines TruthValue.unknown TruthValue.unknown = refl

module _ (bits : ℕ → ℕ → ℕ → ℕ → ℕ × ℕ) (op : TruthValue → TruthValue → TruthValue)
    (combines : Combines bits op) (what : String) where
  combine_rows-mask_of :
      (ts us : List TruthValue)
      → combine_rows bits (map true_bit ts) (map known_bit ts) (map true_bit us) (map known_bit us)
        ≡ mask_of (zip_truths op ts us)
  unfolding combine_rows
  combine_rows-mask_of [] us = refl
  combine_rows-mask_of (t ∷ ts) [] = refl
  combine_rows-mask_of (t ∷ ts) (u ∷ us) = rw (combines t u) (rw (combine_rows-mask_of ts us) refl)

  combine-mask_of :
      (ts us : List TruthValue)
      → length ts ≡ length us
      → combine_in_place bits what (mask_of ts) (mask_of us) ≡ ok (mask_of (zip_truths op ts us))
  unfolding combine_in_place
  combine-mask_of ts us same =
      if-true _ _ _ (
        same_sizes (length (map true_bit ts)) (length (map true_bit us)) (length (map known_bit ts))
          (length (map known_bit us)) (length us) (length-map true_bit ts ∙ same)
          (length-map true_bit us) (length-map known_bit ts ∙ same) (length-map known_bit us))
      ∙ ap (λ m. ok m) (combine_rows-mask_of ts us)

  abbrev Zipped :
      (f g : ℕ → Result TruthValue) → List ℕ → List TruthValue → List TruthValue → Type 0
  Zipped f g rows ts us =
      (truths (λ row. and_then (f row) (λ a. and_then (g row) (λ b. ok (op a b)))) rows
        ≡ ok (zip_truths op ts us))
      × (length ts ≡ length rows
          → length us ≡ length rows
          → length (zip_truths op ts us) ≡ length rows)

  truths-zip :
      (f g : ℕ → Result TruthValue) (rows : List ℕ) (ts us : List TruthValue)
      → truths f rows ≡ ok ts
      → truths g rows ≡ ok us
      → Zipped f g rows ts us
  truths-zip f g [] ts us h k =
      let p : [] ≡ ts = cc h in
      let q : [] ≡ us = cc k in
      subst (λ xs. Zipped f g [] xs us) p (subst (λ ys. Zipped f g [] [] ys) q (refl, λ a b. refl))
  truths-zip f g (row ∷ rows) ts us h k =
      let (t, ft, h') = and_then-eq-ok (f row) _ h in
      let (ts', fts, h'') = and_then-eq-ok (truths f rows) _ h' in
      let (u, gu, k') = and_then-eq-ok (g row) _ k in
      let (us', gus, k'') = and_then-eq-ok (truths g rows) _ k' in
      let p : t ∷ ts' ≡ ts = cc h'' in
      let q : u ∷ us' ≡ us = cc k'' in
      let (e, n) = truths-zip f g rows ts' us' fts gus in
      subst (λ xs. Zipped f g (row ∷ rows) xs us) p
        (subst (λ ys. Zipped f g (row ∷ rows) (t ∷ ts') ys) q
          (rw ft (rw gu (rw e refl)), λ a b. ap suc (n (omega arith) (omega arith))))

  pub combine-Agrees :
      (f g : ℕ → Result TruthValue) (rows : List ℕ) (l r : Result PredicateMask)
      → Agrees f rows l
      → Agrees g rows r
      → Agrees
          (λ row. and_then (f row) (λ a. and_then (g row) (λ b. ok (op a b))))
          rows
          (and_then l (λ x. and_then r (λ y. combine_in_place bits what x y)))
  combine-Agrees f g rows l r a b =
      let (e, n) = truths-zip f g rows a.values b.values a.evaluated b.evaluated in
      record {
        values = zip_truths op a.values b.values;
        evaluated = e;
        one_each = n a.one_each b.one_each;
        masked =
            ap (λ m. and_then m (λ x. and_then r (λ y. combine_in_place bits what x y))) a.masked
            ∙ ap (λ m. and_then m (λ y. combine_in_place bits what (mask_of a.values) y)) b.masked
            ∙ combine-mask_of a.values b.values (a.one_each ∙ sym b.one_each);
      }
