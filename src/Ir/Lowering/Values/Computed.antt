-- ===== src/Ir/Lowering/Values/Computed.antt =====
-- `expression` of ir/lowering.py.
use coretrace_python_analyze.Hir.{
  constant, call, compare, name, constant, binary_op, unary_op, bool_op, compare, attribute,
  subscript, tuple, list, dict, formatted_string, slice, starred, set, conditional, lambda, await,
  yield, named_expr, comprehension, nil, cons, absent, present, no_keywords, keyword, no_items,
  item, Expression, Expressions, Maybe, Keywords, Items,
}
use coretrace_python_analyze.Ir
use coretrace_python_analyze.Ir.{
  Value, SymbolId, value_result, value_operands, from_option, both, seconds,
}
use coretrace_python_analyze.Findings.{SourceSpan}
use coretrace_python_analyze.Ir.Lowering.{
  lone_starred, control_flow, unsupported, Environment, Lower, ◌>>=◌, give, emit_new,
}
use coretrace_python_analyze.Ir.Lowering.Expressions.{
  imported_symbol, starred_at, expression, expressions, spread, optional, keyword_values, pairs,
  unpacked_items,
}
use coretrace_python_analyze.Ir.Lowering.Triples.{
  Lowers, Lowers-bind, Lowers-give, Lowers-fail, Lowers-reserve, Lowers-emit_new,
}
use coretrace_python_analyze.Ir.Lowering.Values.{
  Lowers-symbol, Lowers-read_name, Lowers-read_names, Lowers-cons, Lowers-then,
  Lowers-write_back_nonlocals,
}
use coretrace_python_analyze.Ir.Lowering.Counted.{
  Below, All-Below, All-Below-append, IsValue, AreValues, IsOption, IsOption-values,
}
use coretrace_python_analyze.Base.{
  All, List, [], ◌∷◌, ◌++◌, Option, none, some, String, ℕ, ◌≤◌, ◌≡◌, arith, refl, list_eq, nat_eq,
  option_eq, pair_eq, string_eq,
}

abbrev AreBoth : List Value × List Value → ℕ → Type 0
AreBoth p k = AreValues p.0 k × AreValues p.1 k

abbrev AreKeywords : List (Option String × Value) → ℕ → Type 0
AreKeywords ks k = All (Below k) (seconds ks)

abbrev ArePairs : List (Value × Value) → ℕ → Type 0
ArePairs ps k = All (Below k) (both ps)

module _ {T : Type 0} (env : Environment T) where
  -- An instruction that reads two lists of values.
  Lowers-build :
      {n : ℕ} (m : Lower T (List Value × List Value))
      (f : List Value → List Value → Value → Ir.ValueInstruction T SourceSpan)
      → Lowers env n m AreBoth
      → ((us vs : List Value) (v : Value) → value_result (f us vs v) ≡ v)
      → ((us vs : List Value) (v : Value) → value_operands (f us vs v) ≡ us ++ vs)
      → Lowers env n (m >>= λ p. emit_new (f p.0 p.1)) IsValue
  Lowers-build m f h same reads = Lowers-bind env m _ AreBoth h (λ p k le belows.
      Lowers-emit_new env (f p.0 p.1) (same p.0 p.1)
        (λ v. rw (reads p.0 p.1 v) (All-Below-append k p.0 p.1 belows.0 belows.1)))

  -- A value more, among the plain ones or the unpacked ones.
  Lowers-spread_plain :
      {n : ℕ} (m : Lower T Value) (more : Lower T (List Value × List Value))
      → Lowers env n m IsValue
      → ((k : ℕ) → n ≤ k → Lowers env k more AreBoth)
      → Lowers env n (m >>= λ v. more >>= λ p. give (v ∷ p.0, p.1)) AreBoth
  Lowers-spread_plain m more h rest = Lowers-bind env m _ IsValue h (λ v k le below.
      Lowers-bind env more _ AreBoth (rest k le) (λ p k' le' belows.
        Lowers-give env (v ∷ p.0, p.1) AreBoth
          (λ k'' le''. (
            (omega (arith, le', le'', below), All-Below k' k'' p.0 le'' belows.0),
            All-Below k' k'' p.1 le'' belows.1,
          ))))

  Lowers-spread_unpacked :
      {n : ℕ} (m : Lower T Value) (more : Lower T (List Value × List Value))
      → Lowers env n m IsValue
      → ((k : ℕ) → n ≤ k → Lowers env k more AreBoth)
      → Lowers env n (m >>= λ v. more >>= λ p. give (p.0, v ∷ p.1)) AreBoth
  Lowers-spread_unpacked m more h rest = Lowers-bind env m _ IsValue h (λ v k le below.
      Lowers-bind env more _ AreBoth (rest k le) (λ p k' le' belows.
        Lowers-give env (p.0, v ∷ p.1) AreBoth
          (λ k'' le''. (
            All-Below k' k'' p.0 le'' belows.0,
            (omega (arith, le', le'', below), All-Below k' k'' p.1 le'' belows.1),
          ))))

  -- An instruction that reads one value, or two.
  pub Lowers-one :
      {n : ℕ} (m : Lower T Value) (f : Value → Value → Ir.ValueInstruction T SourceSpan)
      → Lowers env n m IsValue
      → ((u v : Value) → value_result (f u v) ≡ v)
      → ((u v : Value) → value_operands (f u v) ≡ u ∷ [])
      → Lowers env n (m >>= λ u. emit_new (f u)) IsValue
  Lowers-one m f h same reads =
      Lowers-bind env m _ IsValue h
        (λ u k le below. Lowers-emit_new env (f u) (same u) (λ v. rw (reads u v) (below, tt)))

  pub Lowers-two :
      {n : ℕ} (m m' : Lower T Value) (f : Value → Value → Value → Ir.ValueInstruction T SourceSpan)
      → Lowers env n m IsValue
      → ((k : ℕ) → n ≤ k → Lowers env k m' IsValue)
      → ((u u' v : Value) → value_result (f u u' v) ≡ v)
      → ((u u' v : Value) → value_operands (f u u' v) ≡ u ∷ u' ∷ [])
      → Lowers env n (m >>= λ u. m' >>= λ u'. emit_new (f u u')) IsValue
  Lowers-two m m' f h h' same reads = Lowers-bind env m _ IsValue h (λ u k le below.
      Lowers-bind env m' _ IsValue (h' k le) (λ u' k' le' below'.
        Lowers-emit_new env (f u u') (same u u')
          (λ v. rw (reads u u' v) (omega (arith, le', below), (below', tt)))))

  -- An instruction that reads a list of values.
  pub Lowers-all :
      {n : ℕ} (m : Lower T (List Value)) (f : List Value → Value → Ir.ValueInstruction T SourceSpan)
      → Lowers env n m AreValues
      → ((us : List Value) (v : Value) → value_result (f us v) ≡ v)
      → ((us : List Value) (v : Value) → value_operands (f us v) ≡ us)
      → Lowers env n (m >>= λ us. emit_new (f us)) IsValue
  Lowers-all m f h same reads =
      Lowers-bind env m _ AreValues h
        (λ us k le belows. Lowers-emit_new env (f us) (same us) (λ v. rw (reads us v) belows))

  mutual
    unfolding expression value_result value_operands

    pub Lowers-expression : {n : ℕ} (e : Expression T) → Lowers env n (expression env e) IsValue
    Lowers-expression (name x at) = Lowers-read_name env x at
    Lowers-expression (constant value at) =
        Lowers-emit_new env (λ v. Ir.constant v at value) (λ v. refl) (λ v. tt)
    Lowers-expression (binary_op op l r at) =
        Lowers-two _ _ (λ u u' v. Ir.binary_op v at op u u') (Lowers-expression l)
          (λ k le. Lowers-expression r) (λ u u' v. refl) (λ u u' v. refl)
    Lowers-expression (unary_op op e at) =
        Lowers-one _ (λ u v. Ir.unary_op v at op u) (Lowers-expression e) (λ u v. refl)
          (λ u v. refl)
    Lowers-expression (compare op l r at) =
        Lowers-two _ _ (λ u u' v. Ir.compare v at op u u') (Lowers-expression l)
          (λ k le. Lowers-expression r) (λ u u' v. refl) (λ u u' v. refl)
    Lowers-expression (call f es ks at) =
        Lowers-bind env (expression env f) _ IsValue (Lowers-expression f) (λ callee k le called.
          Lowers-bind env (spread env es) _ AreBoth (Lowers-spread es) (λ p k' le' belows.
            Lowers-bind env (keyword_values env ks) _ AreKeywords (Lowers-keyword_values ks)
              (λ keywords k'' le'' named.
                Lowers-bind env {n = k''} (emit_new (λ v. Ir.call v at callee p.0 keywords p.1)) _
                  IsValue
                  (Lowers-emit_new env (λ v. Ir.call v at callee p.0 keywords p.1) (λ v. refl)
                    (λ v. (
                      omega (arith, le', le'', called),
                      All-Below-append k'' (p.0 ++ seconds keywords) p.1
                          (All-Below-append k'' p.0 (seconds keywords)
                            (All-Below k' k'' p.0 le'' belows.0) named)
                          (All-Below k' k'' p.1 le'' belows.1),
                    )))
                  (λ result k3 le3 below.
                    Lowers-then env _ _ IsValue (Lowers-write_back_nonlocals env f at result below)
                      (λ k4 le4.
                        Lowers-give env result IsValue
                          (λ k5 le5. omega (arith, le4, le5, below)))))))
    Lowers-expression (bool_op op es at) =
        Lowers-all _ (λ us v. Ir.bool_op v at op us) (Lowers-expressions es) (λ us v. refl)
          (λ us v. refl)
    Lowers-expression (list es at) =
        Lowers-build _ (λ us vs v. Ir.build_list v at us vs (starred_at env es 0))
          (Lowers-spread es) (λ us vs v. refl) (λ us vs v. refl)
    Lowers-expression (tuple es at) =
        Lowers-build _ (λ us vs v. Ir.build_tuple v at us vs (starred_at env es 0))
          (Lowers-spread es) (λ us vs v. refl) (λ us vs v. refl)
    Lowers-expression (dict is at) =
        Lowers-bind env (pairs env is) _ ArePairs (Lowers-pairs is) (λ items k le belows.
          Lowers-bind env (unpacked_items env is) _ AreValues (Lowers-unpacked_items is)
            (λ us k' le' others.
              Lowers-emit_new env (λ v. Ir.build_dict v at items us) (λ v. refl)
                (λ v.
                  All-Below-append k' (both items) us (All-Below k k' (both items) le' belows)
                    others)))
    Lowers-expression (formatted_string es at) =
        Lowers-all _ (λ us v. Ir.build_string v at us) (Lowers-expressions es) (λ us v. refl)
          (λ us v. refl)
    Lowers-expression (slice l u s at) =
        Lowers-bind env (optional env l) _ IsOption (Lowers-optional l) (λ lower k le below.
          Lowers-bind env (optional env u) _ IsOption (Lowers-optional u) (λ upper k' le' below'.
            Lowers-bind env (optional env s) _ IsOption (Lowers-optional s)
              (λ step k'' le'' below''.
                Lowers-emit_new env (λ v. Ir.build_slice v at lower upper step) (λ v. refl)
                  (λ v.
                    All-Below-append k'' (from_option lower ++ from_option upper) (from_option step)
                      (All-Below-append k'' (from_option lower) (from_option upper)
                        (IsOption-values lower k k'' (omega (arith, le', le'')) below)
                        (IsOption-values upper k' k'' le'' below'))
                      (IsOption-values step k'' k'' (omega arith) below'')))))
    Lowers-expression (starred e at) = Lowers-fail env (lone_starred at) IsValue
    Lowers-expression (set es at) =
        Lowers-build _ (λ us vs v. Ir.build_set v at us vs) (Lowers-spread es) (λ us vs v. refl)
          (λ us vs v. refl)
    Lowers-expression (lambda ps body at) =
        Lowers-all _
          (λ us v. Ir.make_function v at (env.texts.lambda_name at.start_line at.start_column) us)
          (Lowers-read_names env (env.scoping.captured_by_lambda ps body at) at) (λ us v. refl)
          (λ us v. refl)
    Lowers-expression (conditional _ _ _ at) = Lowers-fail env (control_flow at) IsValue
    Lowers-expression (comprehension _ _ _ at _) = Lowers-fail env (control_flow at) IsValue
    Lowers-expression (await e at) =
        Lowers-reserve env (expression env e) (λ v u. Ir.await v at u) IsValue (Lowers-expression e)
          (λ v u. refl) (λ v u k below. (below, tt))
    Lowers-expression (yield e at _) =
        Lowers-bind env (optional env e) _ IsOption (Lowers-optional e) (λ o k le below.
          Lowers-emit_new env (λ v. Ir.yield v at o) (λ v. refl)
            (λ v. IsOption-values o k k (omega arith) below))
    Lowers-expression (attribute e attr at) =
        Lowers-symbol env (imported_symbol env (attribute e attr at)) at _ (
          Lowers-one _ (λ u v. Ir.get_attr v at u attr) (Lowers-expression e) (λ u v. refl)
            (λ u v. refl))
    Lowers-expression (subscript e key at) =
        Lowers-two _ _ (λ u u' v. Ir.get_item v at u u') (Lowers-expression e)
          (λ k le. Lowers-expression key) (λ u u' v. refl) (λ u u' v. refl)
    Lowers-expression (named_expr _ _ _ at) = Lowers-fail env (unsupported at) IsValue

    Lowers-expressions : {n : ℕ} (es : Expressions T) → Lowers env n (expressions env es) AreValues
    Lowers-expressions nil = Lowers-give env [] AreValues (λ k le. tt)
    Lowers-expressions (cons e es) =
        Lowers-cons env _ _ (Lowers-expression e) (λ k le. Lowers-expressions es)

    Lowers-spread : {n : ℕ} (es : Expressions T) → Lowers env n (spread env es) AreBoth
    Lowers-spread nil = Lowers-give env ([], []) AreBoth (λ k le. (tt, tt))
    Lowers-spread (cons (starred e _) es) =
        Lowers-spread_unpacked _ _ (Lowers-expression e) (λ k le. Lowers-spread es)
    Lowers-spread (cons e es) =
        Lowers-spread_plain _ _ (Lowers-expression e) (λ k le. Lowers-spread es)

    pub Lowers-optional : {n : ℕ} (e : Maybe T) → Lowers env n (optional env e) IsOption
    Lowers-optional absent = Lowers-give env none IsOption (λ k le. tt)
    Lowers-optional (present e) =
        Lowers-bind env (expression env e) _ IsValue (Lowers-expression e)
          (λ v k le below. Lowers-give env (some v) IsOption (λ k' le'. omega (arith, le', below)))

    Lowers-keyword_values :
        {n : ℕ} (ks : Keywords T) → Lowers env n (keyword_values env ks) AreKeywords
    Lowers-keyword_values no_keywords = Lowers-give env [] AreKeywords (λ k le. tt)
    Lowers-keyword_values (keyword argument e _ ks) =
        Lowers-bind env (expression env e) _ IsValue (Lowers-expression e) (λ v k le below.
          Lowers-bind env (keyword_values env ks) _ AreKeywords (Lowers-keyword_values ks)
            (λ vs k' le' belows. Lowers-give env ((argument, v) ∷ vs) AreKeywords (λ k'' le''.
              (omega (arith, le', le'', below), All-Below k' k'' (seconds vs) le'' belows))))

    Lowers-pairs : {n : ℕ} (is : Items T) → Lowers env n (pairs env is) ArePairs
    Lowers-pairs no_items = Lowers-give env [] ArePairs (λ k le. tt)
    Lowers-pairs (item absent _ is) = Lowers-pairs is
    Lowers-pairs (item (present key) e is) =
        Lowers-bind env (expression env key) _ IsValue (Lowers-expression key) (λ u k le below.
          Lowers-bind env (expression env e) _ IsValue (Lowers-expression e) (λ v k' le' below'.
            Lowers-bind env (pairs env is) _ ArePairs (Lowers-pairs is) (λ vs k'' le'' belows.
              Lowers-give env ((u, v) ∷ vs) ArePairs (λ k3 le3. (
                omega (arith, le', le'', le3, below),
                (omega (arith, le'', le3, below'), All-Below k'' k3 (both vs) le3 belows),
              )))))

    Lowers-unpacked_items : {n : ℕ} (is : Items T) → Lowers env n (unpacked_items env is) AreValues
    Lowers-unpacked_items no_items = Lowers-give env [] AreValues (λ k le. tt)
    Lowers-unpacked_items (item (present _) _ is) = Lowers-unpacked_items is
    Lowers-unpacked_items (item absent e is) =
        Lowers-cons env _ _ (Lowers-expression e) (λ k le. Lowers-unpacked_items is)
