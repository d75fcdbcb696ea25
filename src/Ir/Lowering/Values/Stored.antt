-- ===== src/Ir/Lowering/Values/Stored.antt =====
-- `store` and `unpack` of ir/lowering.py.
use coretrace_python_analyze.Hir.{
  name, attribute, subscript, tuple, starred, nil, cons, Expression, Expressions,
}
use coretrace_python_analyze.Ir
use coretrace_python_analyze.Ir.{
  Value, SymbolId, value_result, value_operands, effect_operands, from_option,
}
use coretrace_python_analyze.Findings.{SourceSpan}
use coretrace_python_analyze.Cfg.Builder.Comprehension.{span_of}
use coretrace_python_analyze.Ir.Lowering.{assertion, Environment, Lower, ◌>>=◌, give, emit_new}
use coretrace_python_analyze.Ir.Lowering.Statements.{
  count_elements, starred_place, starred_item, plain_item, store, unpack,
}
use coretrace_python_analyze.Ir.Lowering.Triples.{
  Lowers, Lowers-bind, Lowers-give, Lowers-fail, Lowers-emit_effect, Lowers-emit_new,
}
use coretrace_python_analyze.Ir.Lowering.Values.{Lowers-store_name, Lowers-then}
use coretrace_python_analyze.Ir.Lowering.Values.Computed.{Lowers-expression}
use coretrace_python_analyze.Ir.Lowering.Counted.{
  Below, All-Below-append, IsValue, IsDone, IsOption, IsOption-values,
}
use coretrace_python_analyze.Base.{
  Bool, true, false, [], ◌∷◌, Option, none, some, ℕ, suc, ◌-◌, ◌≤◌, arith, refl, if◌then◌else◌, ltb,
  string_eq, pair_eq, nat_eq, option_eq, list_eq,
}

module _ {T : Type 0} (env : Environment T) where
  -- A computed value, and then an effect that reads it.
  pub Lowers-into :
      {A : Type 0} {n : ℕ} (m : Lower T Value) (rest : Value → Lower T A) (Q : A → ℕ → Type 0)
      → Lowers env n m IsValue
      → ((v : Value) (k : ℕ) → n ≤ k → Below k v → Lowers env k (rest v) Q)
      → Lowers env n (m >>= rest) Q
  Lowers-into m rest Q h next = Lowers-bind env m rest IsValue h next

  Lowers-constant :
      {n : ℕ} (c : T) (at : SourceSpan) → Lowers env n (emit_new (λ v. Ir.constant v at c)) IsValue
  unfolding value_result value_operands
  Lowers-constant c at = Lowers-emit_new env (λ v. Ir.constant v at c) (λ v. refl) (λ v. tt)

  Lowers-plain_item :
      {n : ℕ} (star : Option ℕ) (index total : ℕ) (v : Value) (at : SourceSpan)
      → Below n v
      → Lowers env n (plain_item env star index total v at) IsValue
  unfolding plain_item value_result value_operands
  Lowers-plain_item star index total v at below =
      Lowers-into _ _ IsValue (Lowers-constant _ at) (λ position k le placed.
        Lowers-emit_new env (λ w. Ir.get_item w at v position) (λ w. refl)
          (λ w. (omega (arith, le, below), (placed, tt))))

  -- The end of the slice, where targets follow the starred one.
  Lowers-upper :
      {n : ℕ} (more : Bool) (c : T) (at : SourceSpan)
      → Lowers env n
          (if more
            then emit_new (λ v. Ir.constant v at c) >>= (λ v. give {A = Option Value} (some v))
            else give none)
          IsOption
  Lowers-upper true c at =
      Lowers-into _ _ IsOption (Lowers-constant c at)
        (λ u k le to. Lowers-give env (some u) IsOption (λ k' le'. omega (arith, le', to)))
  Lowers-upper false c at = Lowers-give env none IsOption (λ k le. tt)

  Lowers-starred_item :
      {n : ℕ} (index total : ℕ) (v : Value) (at : SourceSpan)
      → Below n v
      → Lowers env n (starred_item env index total v at) IsValue
  unfolding starred_item value_result value_operands
  Lowers-starred_item index total v at below =
      Lowers-into _ _ IsValue (Lowers-constant _ at) (λ lower k le from.
        Lowers-bind env {n = k} _ _ IsOption
          (Lowers-upper (ltb index (total - 1)) (env.texts.negative (total - 1 - index)) at)
          (λ upper k' le' up_to.
            Lowers-into _ _ IsValue
              (Lowers-emit_new env (λ w. Ir.build_slice w at (some lower) upper none) (λ w. refl)
                (λ w.
                  All-Below-append k' (lower ∷ from_option upper) []
                    (omega (arith, le', from), IsOption-values upper k' k' (omega arith) up_to) tt))
              (λ bounds k'' le'' bounded.
                Lowers-emit_new env (λ w. Ir.get_item w at v bounds) (λ w. refl)
                  (λ w. (omega (arith, le, le', le'', below), (bounded, tt))))))

  mutual
    unfolding store effect_operands

    pub Lowers-store :
        {n : ℕ} (target : Expression T) (v : Value)
        → Below n v
        → Lowers env n (store env target v) IsDone
    Lowers-store (name x at) v below = Lowers-store_name env x at v below
    Lowers-store (attribute e attr at) v below =
        Lowers-into _ _ IsDone (Lowers-expression env e) (λ object k le found.
          Lowers-emit_effect env (Ir.set_attr at object attr v)
            (found, (omega (arith, le, below), tt)))
    Lowers-store (subscript e key at) v below =
        Lowers-into _ _ IsDone (Lowers-expression env e) (λ object k le found.
          Lowers-into _ _ IsDone (Lowers-expression env key) (λ place k' le' placed.
            Lowers-emit_effect env (Ir.set_item at object place v)
              (omega (arith, le', found), (placed, (omega (arith, le, le', below), tt)))))
    Lowers-store (tuple es at) v below =
        Lowers-unpack es (starred_place es) 0 (count_elements es) v below
    Lowers-store _ v below = Lowers-fail env assertion IsDone

    Lowers-unpack :
        {n : ℕ} (es : Expressions T) (star : Option ℕ) (index total : ℕ) (v : Value)
        → Below n v
        → Lowers env n (unpack env es star index total v) IsDone
    Lowers-unpack nil star index total v below = Lowers-give env tt IsDone (λ k le. tt)
    Lowers-unpack (cons (starred e at) more) star index total v below =
        Lowers-into _ _ IsDone (Lowers-starred_item index total v at below) (λ u k le found.
          Lowers-then env _ _ IsDone (Lowers-store e u found)
            (λ k' le'. Lowers-unpack more star (suc index) total v (omega (arith, le, le', below))))
    Lowers-unpack (cons e more) star index total v below =
        Lowers-into _ _ IsDone (Lowers-plain_item star index total v (span_of e) below)
          (λ u k le found.
            Lowers-then env _ _ IsDone (Lowers-store e u found) (λ k' le'.
              Lowers-unpack more star (suc index) total v (omega (arith, le, le', below))))
