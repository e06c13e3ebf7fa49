-- ===== src/Vectorized/SplitSound.antt =====
-- src/execution/vectorized.cpp: a pair of rows satisfies a join's predicates exactly if its keys
-- match and it satisfies the residuals of the split.
use vectorized_sql_engine.Base.{
  ℕ, ◌≡◌, refl, ap, ap₂, sym, subst, ◌∙◌, Bool, true, ◌&&◌, Option, none, some, List, [], ◌∷◌, map,
  ok, and_then-eq-ok,
}
use vectorized_sql_engine.Storage.Batch.{ColumnarBatch}
use vectorized_sql_engine.Plan.{PlanRef, LogicalPlan, BoundColumnRef, BoundPredicate}
use vectorized_sql_engine.Execution.Truth.{TruthValue, is_true}
use vectorized_sql_engine.Vectorized.Scalars.{CompiledColumn, compile_column, compile_columns}
use vectorized_sql_engine.Vectorized.Context.{PreparedContext}
use vectorized_sql_engine.Vectorized.Predicates.{CompiledPredicate, compile_all}
use vectorized_sql_engine.Vectorized.JoinLoops.{HashKey, make_non_null_key}
use vectorized_sql_engine.Vectorized.KeySound.{predicate-key}
use vectorized_sql_engine.Vectorized.HashTable.{keys_match}
use vectorized_sql_engine.Vectorized.KeyStep.{
  AllTrue, AllTrue-evaluate_all, key_step, and_swap, key_none, keys_match-nil,
}
use vectorized_sql_engine.Vectorized.JoinScalars.{
  CompiledJoinScalar, EquiJoinKey, JoinPredicateSplit, split_join_predicates, try_add_equi_key,
  compile_join_predicate, compile_join_predicates, evaluate_compiled_join_predicate,
  evaluate_compiled_join_predicates, add_to_split,
}

module _ (subplans : PlanRef → Option LogicalPlan) (context : PreparedContext) (l r : ColumnarBatch)
    (i j : ℕ) where
  -- `b` is whether the keys of the pair match and its residuals are TRUE.
  abbrev SplitValue : JoinPredicateSplit → Bool → Type 0
  SplitValue split b =
      (rs : List (CompiledPredicate CompiledJoinScalar)) (xs ys : List CompiledColumn)
      (lkey rkey : Option HashKey) (u : Bool)
      → compile_join_predicates subplans split.residuals l r context ≡ ok rs
      → compile_columns (map (λ key. key.left) split.equi_keys) l ≡ ok xs
      → compile_columns (map (λ key. key.right) split.equi_keys) r ≡ ok ys
      → make_non_null_key i xs ≡ ok lkey
      → make_non_null_key j ys ≡ ok rkey
      → AllTrue i j rs u
      → b ≡ (keys_match lkey rkey && u)

  compiled_parts :
      (p : BoundPredicate) (ps : List BoundPredicate)
      (cs : List (CompiledPredicate CompiledJoinScalar))
      → compile_join_predicates subplans (p ∷ ps) l r context ≡ ok cs
      → (c : CompiledPredicate CompiledJoinScalar) × (rest : List
          (CompiledPredicate CompiledJoinScalar))
        × (compile_join_predicate subplans p l r context ≡ ok c)
        × (compile_join_predicates subplans ps l r context ≡ ok rest)
        × (c ∷ rest ≡ cs)
  unfolding compile_join_predicates compile_join_predicate compile_all
  compiled_parts p ps cs h =
      let (c, f, h') = and_then-eq-ok (compile_join_predicate subplans p l r context) _ h in
      let (rest, g, k) =
        and_then-eq-ok (compile_join_predicates subplans ps l r context) (λ cs. ok (c ∷ cs)) h' in
      (c, rest, f, g, cc k)

  compiled_none :
      (cs : List (CompiledPredicate CompiledJoinScalar))
      → compile_join_predicates subplans [] l r context ≡ ok cs
      → [] ≡ cs
  unfolding compile_join_predicates compile_all
  compiled_none cs h = cc h

  columns_none :
      (batch : ColumnarBatch) (xs : List CompiledColumn)
      → compile_columns [] batch ≡ ok xs
      → [] ≡ xs
  unfolding compile_columns
  columns_none batch xs h = cc h

  column_parts :
      (c : BoundColumnRef) (cs : List BoundColumnRef) (batch : ColumnarBatch)
      (xs : List CompiledColumn)
      → compile_columns (c ∷ cs) batch ≡ ok xs
      → (x : CompiledColumn) × (rest : List CompiledColumn) × (compile_column c batch ≡ ok x)
        × (compile_columns cs batch ≡ ok rest)
        × (x ∷ rest ≡ xs)
  unfolding compile_columns
  column_parts c cs batch xs h =
      let (x, f, h') = and_then-eq-ok (compile_column c batch) _ h in
      let (rest, g, k) = and_then-eq-ok (compile_columns cs batch) (λ cs. ok (x ∷ cs)) h' in
      (x, rest, f, g, cc k)

  split_step :
      (p : BoundPredicate) (c : CompiledPredicate CompiledJoinScalar) (t : TruthValue) (rest : Bool)
      (split : JoinPredicateSplit) (o : Option EquiJoinKey)
      → try_add_equi_key p l r ≡ o
      → compile_join_predicate subplans p l r context ≡ ok c
      → evaluate_compiled_join_predicate c i j ≡ ok t
      → SplitValue split rest
      → SplitValue (add_to_split p o split) (is_true t && rest)
  split_step p c t rest split none h compiled e ih rs xs ys lkey rkey u hr hx hy hl hk all =
      let (c', rs', f, g, same) = compiled_parts p split.residuals rs hr in
      let (t', e', u', all', bits) = subst (λ rs. AllTrue i j rs u) (sym same) all in
      let ct : c' ≡ c = cc (f, compiled) in
      let tt' : t' ≡ t = cc (e', e, ct) in
      ap (λ b. is_true t && b) (ih rs' xs ys lkey rkey u' g hx hy hl hk all')
      ∙ and_swap (is_true t) (keys_match lkey rkey) u'
      ∙ ap (λ b. keys_match lkey rkey && b) (ap (λ t. is_true t && u') (sym tt') ∙ bits)
  split_step p c t rest split (some key) h compiled e ih rs xs ys lkey rkey u hr hx hy hl hk all =
      let (x, xs', fx, gx, same_x) =
        column_parts key.left (map (λ key. key.left) split.equi_keys) l xs hx in
      let (y, ys', fy, gy, same_y) =
        column_parts key.right (map (λ key. key.right) split.equi_keys) r ys hy in
      key_step i j x y xs' ys' lkey rkey (is_true t) rest u
        (λ a b ca cb.
          predicate-key subplans context l r i j p c key x y a b t h compiled fx fy ca cb e)
        (ap (λ xs. make_non_null_key i xs) same_x ∙ hl)
        (ap (λ ys. make_non_null_key j ys) same_y ∙ hk)
        (λ k m hk hm. ih rs xs' ys' k m u hr gx gy hk hm all)

  split_value :
      (ps : List BoundPredicate) (cs : List (CompiledPredicate CompiledJoinScalar)) (b : Bool)
      → compile_join_predicates subplans ps l r context ≡ ok cs
      → AllTrue i j cs b
      → SplitValue (split_join_predicates ps l r) b
  unfolding split_join_predicates
  split_value [] cs b h all rs xs ys lkey rkey u hr hx hy hl hk all_r =
      let b_is : true ≡ b = subst (λ cs. AllTrue i j cs b) (sym (compiled_none cs h)) all in
      let u_is : true ≡ u = subst (λ rs. AllTrue i j rs u) (sym (compiled_none rs hr)) all_r in
      sym b_is
      ∙ u_is
      ∙ ap (λ b. b && u) (sym keys_match-nil)
      ∙ ap₂ (λ k m. keys_match k m && u) (key_none i xs lkey (columns_none l xs hx) hl)
          (key_none j ys rkey (columns_none r ys hy) hk)
  split_value (p ∷ ps) cs b h all rs xs ys lkey rkey u hr hx hy hl hk all_r =
      let (c, cs', f, g, same) = compiled_parts p ps cs h in
      let (t, e, rest, all', bits) = subst (λ cs. AllTrue i j cs b) (sym same) all in
      sym bits
      ∙ split_step p c t rest (split_join_predicates ps l r) (try_add_equi_key p l r) refl f e
          (split_value ps cs' rest g all') rs xs ys lkey rkey u hr hx hy hl hk all_r

  -- Where the predicates of a join, the residuals of their split and its key columns compile, and
  -- on a pair of rows the keys can be made and the predicates and residuals evaluated, all the
  -- predicates are TRUE of the pair exactly if the keys are equal and not NULL and the residuals
  -- are TRUE.
  pub split_join_predicates-keys_match :
      (ps : List BoundPredicate) (cs rs : List (CompiledPredicate CompiledJoinScalar))
      (xs ys : List CompiledColumn) (lkey rkey : Option HashKey) (t u : TruthValue)
      → compile_join_predicates subplans ps l r context ≡ ok cs
      → compile_join_predicates subplans (split_join_predicates ps l r).residuals l r context
        ≡ ok rs
      → compile_columns (map (λ key. key.left) (split_join_predicates ps l r).equi_keys) l ≡ ok xs
      → compile_columns (map (λ key. key.right) (split_join_predicates ps l r).equi_keys) r ≡ ok ys
      → make_non_null_key i xs ≡ ok lkey
      → make_non_null_key j ys ≡ ok rkey
      → evaluate_compiled_join_predicates cs i j ≡ ok t
      → evaluate_compiled_join_predicates rs i j ≡ ok u
      → is_true t ≡ (keys_match lkey rkey && is_true u)
  unfolding evaluate_compiled_join_predicates
  split_join_predicates-keys_match ps cs rs xs ys lkey rkey t u h hr hx hy hl hk e f =
      let (b, all, same) = AllTrue-evaluate_all i j TruthValue.true cs t e in
      let (d, all_r, same_r) = AllTrue-evaluate_all i j TruthValue.true rs u f in
      same
      ∙ split_value ps cs b h all rs xs ys lkey rkey d hr hx hy hl hk all_r
      ∙ ap (λ b. keys_match lkey rkey && b) (sym same_r)
