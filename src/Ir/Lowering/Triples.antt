-- ===== src/Ir/Lowering/Triples.antt =====
-- What every method of ir/lowering.py keeps: values are counted up, each is defined once, and what an
-- instruction reads was there before.
use coretrace_python_analyze.Findings.{SourceSpan}
use coretrace_python_analyze.Ir.{
  Value, ValueInstruction, EffectInstruction, computes, affects, value_result, value_operands,
  effect_operands, operands,
}
use coretrace_python_analyze.Ir.Lowering.{
  LoweringError, Environment, Lowerer, Lower, ◌>>=◌, give, fail, new_value, emit, emit_effect,
  emit_new,
}
use coretrace_python_analyze.Base.{
  All, [], ◌∷◌, ◌++◌, ℕ, suc, ◌+◌, ◌≤◌, ◌≡◌, count, if◌then◌else◌, Result, ok, err, arith, nat_eq,
  refl, ◌==◌, subst, list_eq, option_eq, pair_eq, string_eq,
}
use coretrace_python_analyze.Ir.Lowering.Counted.{
  Below, All-Below, AllValues, IsValue, IsDone, AllValues-mono, defined_values, IsRead, among,
  among_none, among_both, among_first, defined_values-append, IsRead-mono, IsRead-append,
}

module _ {T : Type 0} where
  module _ (env : Environment T) where
    -- Whatever is read or kept is a value that was counted.
    pub record IsGood (s : Lowerer T) : Type 0 where
      pub read : IsRead s.next_value_id s.instructions
      pub iterators : AllValues s.next_value_id s.iterators
      pub contexts : AllValues s.next_value_id s.contexts
      pub parameters : AllValues s.next_value_id env.parameters

    -- Each value that is counted is defined, once.
    pub record Extends (s s' : Lowerer T) : Type 0 where
      pub grows : s.next_value_id ≤ s'.next_value_id
      pub defines :
          (v : Value)
          → count v (defined_values s'.instructions)
            ≡ count v (defined_values s.instructions) + among s.next_value_id s'.next_value_id v

    pub Extends-refl : (s : Lowerer T) → Extends s s
    Extends-refl s = record { grows = omega arith; defines = λ v. ground arith }

    Extends-then : (s s' s'' : Lowerer T) → Extends s s' → Extends s' s'' → Extends s s''
    Extends-then s s' s'' h k = record {
      grows = omega (arith, h.grows, k.grows);
      defines = λ v. among_both _ _ _ v _ _ _ h.grows k.grows (h.defines v) (k.defines v);
    }

    -- What a method does from `s`, where it returns.
    unfoldable pub Outcome :
        {A : Type 0} → (A → ℕ → Type 0) → Lowerer T → Result LoweringError (A × Lowerer T) → Type 0
    Outcome Q s (err e) = Unit {0}
    Outcome Q s (ok (a, s')) = IsGood s' × Extends s s' × Q a s'.next_value_id

    -- A method, after `n` values.
    pub record Lowers {A : Type 0} (n : ℕ) (m : Lower T A) (Q : A → ℕ → Type 0) : Type 0 where
      pub run : (s : Lowerer T) → n ≤ s.next_value_id → IsGood s → Outcome Q s (m s)

    pub Outcome-then :
        {A : Type 0} (Q : A → ℕ → Type 0) (s s' : Lowerer T)
        (r : Result LoweringError (A × Lowerer T))
        → Extends s s'
        → Outcome Q s' r
        → Outcome Q s r
    unfolding Outcome
    Outcome-then Q s s' (err e) h k = tt
    Outcome-then Q s s' (ok (a, s'')) h k = (k.0, Extends-then s s' s'' h k.1, k.2)

    pub Lowers-bind :
        {A B : Type 0} {n : ℕ} (m : Lower T A) (f : A → Lower T B) (P : A → ℕ → Type 0)
        {Q : B → ℕ → Type 0}
        → Lowers n m P
        → ((a : A) (k : ℕ) → n ≤ k → P a k → Lowers k (f a) Q)
        → Lowers n (m >>= f) Q
    unfolding Outcome
    Lowers-bind {A} {B} {n} m f P {Q} h next = record {
      run = λ s le good. bound s le (m s) (h.run s le good);
    }
      where
        bound :
            (s : Lowerer T)
            → n ≤ s.next_value_id
            → (r : Result LoweringError (A × Lowerer T)) → Outcome P s r
            → Outcome Q s (elim r as (λ _. Result LoweringError (B × Lowerer T)) [
              | err e ↦ err e
              | ok (a, s') ↦ f a s'
            ])
        bound s le (err e) k = tt
        bound s le (ok (a, s')) k =
            Outcome-then Q s s' (f a s') k.1 (
              (next a s'.next_value_id (omega (arith, le, k.1.grows)) k.2).run s' (omega arith) k.0)

    pub Lowers-give :
        {A : Type 0} {n : ℕ} (a : A) (Q : A → ℕ → Type 0)
        → ((k : ℕ) → n ≤ k → Q a k)
        → Lowers n (give a) Q
    unfolding Outcome
    Lowers-give a Q h = record { run = λ s le good. (good, Extends-refl s, h s.next_value_id le) }

    pub Lowers-fail :
        {A : Type 0} {n : ℕ} (e : LoweringError) (Q : A → ℕ → Type 0) → Lowers n (fail e) Q
    unfolding Outcome
    Lowers-fail e Q = record { run = λ s le good. tt }

    pub Lowers-emit_effect :
        {n : ℕ} (i : EffectInstruction T SourceSpan)
        → All (Below n) (effect_operands i)
        → Lowers n (emit_effect i) IsDone
    unfolding Outcome emit_effect defined_values operands count
    Lowers-emit_effect {n} i h = record {
      run = λ s le good. (
        record {
          read =
              IsRead-append s.next_value_id s.instructions (affects i) good.read
                (All-Below n s.next_value_id (effect_operands i) le h);
          iterators = good.iterators;
          contexts = good.contexts;
          parameters = good.parameters;
        },
        record {
          grows = omega arith;
          defines = λ v.
              among_none s.next_value_id v _ _
                (defined_values-append v s.instructions (affects i ∷ []));
        },
        tt,
      );
    }

    IsGood-next :
        (s s' : Lowerer T) (k : ℕ)
        → s.next_value_id ≤ s'.next_value_id
        → s'.instructions ≡ s.instructions
        → s'.iterators ≡ s.iterators
        → s'.contexts ≡ s.contexts
        → IsGood s
        → IsGood s'
    IsGood-next s s' k le same_is same_its same_cs good = record {
      read = rw same_is (IsRead-mono s.next_value_id s'.next_value_id s.instructions le good.read);
      iterators =
          rw same_its
            (AllValues-mono s.next_value_id s'.next_value_id s.iterators le good.iterators);
      contexts =
          rw same_cs (AllValues-mono s.next_value_id s'.next_value_id s.contexts le good.contexts);
      parameters =
          AllValues-mono s.next_value_id s'.next_value_id env.parameters le good.parameters;
    }

    -- A value that is counted now and defined after `m`.
    pub Lowers-reserve :
        {A : Type 0} {n : ℕ} (m : Lower T A) (f : Value → A → ValueInstruction T SourceSpan)
        (P : A → ℕ → Type 0)
        → Lowers n m P
        → ((v : Value) (a : A) → value_result (f v a) ≡ v)
        → ((v : Value) (a : A) (k : ℕ) → P a k → All (Below k) (value_operands (f v a)))
        → Lowers n (new_value >>= λ v. m >>= λ a. emit (f v a) v) IsValue
    unfolding Outcome new_value emit defined_values operands count
    Lowers-reserve {A} {n} m f P h same reads = record {
      run = λ s le good.
          let s₁ = record s { next_value_id = suc s.next_value_id } in
          emitted s s₁ refl refl (m s₁)
            (h.run s₁ (omega (arith, le)) (IsGood-next s s₁ 0 (omega arith) refl refl refl good));
    }
      where
        emitted :
            (s s₁ : Lowerer T)
            → s₁.next_value_id ≡ suc s.next_value_id
            → s₁.instructions ≡ s.instructions
            → (r : Result LoweringError (A × Lowerer T)) → Outcome P s₁ r
            → Outcome IsValue s (elim r as (λ _. Result LoweringError (Value × Lowerer T)) [
              | err e ↦ err e
              | ok (a, s₂) ↦ emit (f s.next_value_id a) s.next_value_id s₂
            ])
        emitted s s₁ next still (err e) k = tt
        emitted s s₁ next still (ok (a, s₂)) k =
            let result = s.next_value_id in
            let le : suc result ≤ s₂.next_value_id = omega (arith, next, k.1.grows) in
            (
              record {
                read =
                    IsRead-append s₂.next_value_id s₂.instructions (computes (f result a)) k.0.read
                      (reads result a s₂.next_value_id k.2);
                iterators = k.0.iterators;
                contexts = k.0.contexts;
                parameters = k.0.parameters;
              },
              record {
                grows = omega (arith, le);
                defines = λ v.
                    among_first result s₂.next_value_id v (count v (defined_values s.instructions))
                      (count v (defined_values s₂.instructions))
                      (count v (defined_values (s₂.instructions ++ computes (f result a) ∷ []))) le
                      (subst
                        (λ is.
                          count v (defined_values s₂.instructions)
                          ≡ count v (defined_values is) + among (suc result) s₂.next_value_id v)
                        still
                        (subst
                          (λ from.
                            count v (defined_values s₂.instructions)
                            ≡ count v (defined_values s₁.instructions)
                              + among from s₂.next_value_id v)
                          next (k.1.defines v)))
                      (subst
                        (λ r.
                          count v (defined_values (s₂.instructions ++ computes (f result a) ∷ []))
                          ≡ count v (defined_values s₂.instructions)
                            + ((if v == r then 1 else 0) + 0))
                        (same result a)
                        (defined_values-append v s₂.instructions (computes (f result a) ∷ [])));
              },
              le,
            )

    pub Lowers-emit_new :
        {n : ℕ} (f : Value → ValueInstruction T SourceSpan)
        → ((v : Value) → value_result (f v) ≡ v)
        → ((v : Value) → All (Below n) (value_operands (f v)))
        → Lowers n (emit_new f) IsValue
    Lowers-emit_new {n} f same reads =
        Lowers-reserve (give tt) (λ v _. f v) (λ _ k. n ≤ k)
          (Lowers-give tt (λ _ k. n ≤ k) (λ k le. le)) (λ v _. same v)
          (λ v _ k le. All-Below n k (value_operands (f v)) le (reads v))
