-- ===== src/Analysis/Transparent.antt =====
-- The cache of analysis/manager.py against the analyses without one.
use mathlib.Core.Option
use coretrace_python_analyze.Analysis.Keeps.{
  some_inj, finish_result, Keeps, mistargeted, unknown, undeclared_one, cached, computed,
  request_cases, request-Keeps,
}
use coretrace_python_analyze.Analysis.{
  Error, Program, return, raise, ask, Catalog, target_fits, key, is_undeclared, undeclared_error,
  err, ok, bad_target, unregistered, finish, Outcome, run_program, Manager, request,
}
use coretrace_python_analyze.Base.{
  Dict, Eq, List, Option, Result, [], contains, false, get, list_eq, nat_eq, option_eq, pair_eq,
  some, string_eq, true, ◌∷◌, ◌≡◌, ==_iff, Bool-cases, ap, get-put, inl, inr, none, refl, ◌==◌,
  Bool, Option-cases, subst, suc, zero, ℕ, ◌∙◌,
}

module _ {A F S R : Type 0} ⦃ea : Eq A⦄ ⦃es : Eq S⦄ (c : Catalog A F S R) (registry : List A) where
  mutual
    -- What a `compute` gives under a stack of analyses, where each request is computed anew.
    pub data Runs : List A → Program A F R → Result (Error A) R → Type 0 where
      returns : {stack : List A} {r : R} → Runs stack (return r) (ok r)
      raises : {stack : List A} {e : Error A} → Runs stack (raise e) (err e)
      asks :
          {stack : List A} {a : A} {f : Option F} {next : Result (Error A) R → Program A F R}
          {r out : Result (Error A) R}
          → Gets stack a f r
          → Runs stack (next r) out
          → Runs stack (ask a f next) out

    -- What a request gives.
    pub data Gets : List A → A → Option F → Result (Error A) R → Type 0 where
      no_target :
          {stack : List A} {a : A} {f : Option F}
          → target_fits c a f ≡ false
          → Gets stack a f (err (bad_target a))
      not_registered :
          {stack : List A} {a : A} {f : Option F}
          → target_fits c a f ≡ true
          → contains registry a ≡ false
          → Gets stack a f (err (unregistered a))
      not_declared :
          {stack : List A} {a : A} {f : Option F}
          → target_fits c a f ≡ true
          → contains registry a ≡ true
          → is_undeclared c stack a ≡ true
          → Gets stack a f (err (undeclared_error c stack a))
      evaluates :
          {stack : List A} {a : A} {f : Option F} {r : Result (Error A) R}
          → target_fits c a f ≡ true
          → contains registry a ≡ true
          → is_undeclared c stack a ≡ false
          → Runs (a ∷ []) (c.compute a f) r
          → Gets stack a f r

  mutual
    unfolding is_undeclared undeclared_error

    -- Only the innermost of the analyses on the stack matters.
    Runs-innermost :
        {a : A} (s t : List A) {p : Program A F R} {r : Result (Error A) R}
        → Runs (a ∷ s) p r
        → Runs (a ∷ t) p r
    Runs-innermost s t returns = returns
    Runs-innermost s t raises = raises
    Runs-innermost s t (asks g p) = asks (Gets-innermost s t g) (Runs-innermost s t p)

    Gets-innermost :
        {a b : A} (s t : List A) {f : Option F} {r : Result (Error A) R}
        → Gets (a ∷ s) b f r
        → Gets (a ∷ t) b f r
    Gets-innermost s t (no_target h) = no_target h
    Gets-innermost s t (not_registered g h) = not_registered g h
    Gets-innermost s t (not_declared g h i) = not_declared g h i
    Gets-innermost s t (evaluates g h i p) = evaluates g h i p

  -- Each cached result is what its analysis gives.
  abbrev pub IsCoherent : Dict (A × Option S) R → Type 0
  IsCoherent cache =
      (a : A) (f : Option F) (r : R)
      → get (key c a f) cache ≡ some r
      → Runs (a ∷ []) (c.compute a f) (ok r)

module _ {A F S R : Type 0} ⦃ea : Eq A⦄ ⦃es : Eq S⦄ (c : Catalog A F S R) (registry : List A)
    (one_span : (f g : F) → c.span f ≡ c.span g → f ≡ g) where
  span_of-injective : (f g : Option F) → Option.map c.span f ≡ Option.map c.span g → f ≡ g
  span_of-injective none none h = refl
  span_of-injective none (some g) h = cc h
  span_of-injective (some f) none h = cc h
  span_of-injective (some f) (some g) h =
      let e : c.span f ≡ c.span g = cc h in ap some (one_span f g e)

  IsCoherent-finish :
      (a : A) (f : Option F) (inner : Outcome c)
      → IsCoherent c registry inner.1.cache
      → Runs c registry (a ∷ []) (c.compute a f) inner.0
      → IsCoherent c registry (finish c a f inner).1.cache
  unfolding finish
  IsCoherent-finish a f (err e, m) h p a' f' r' found = h a' f' r' found
  IsCoherent-finish a f (ok r, m) h p a' f' r' found =
      elim (Bool-cases (key c a' f' == key c a f)) [
        | inl same ↦
            let e = (==_iff (key c a' f') (key c a f)).0 same in
            let e_a : a' ≡ a = ap (λ (k : A × Option S). k.0) e in
            let e_f : f' ≡ f = span_of-injective f' f (ap (λ (k : A × Option S). k.1) e) in
            let e_r : r ≡ r' =
              some_r (rw (get-put (key c a f) (key c a' f') r m.cache, same) at found) in
            rw (e_a, e_f, ← e_r) p
        | inr other ↦ h a' f' r' (rw (get-put (key c a f) (key c a' f') r m.cache, other) at found)
      ]
    where
      some_r : {x y : R} → some x ≡ some y → x ≡ y
      some_r e = cc e

  Runs-program :
      (go : A → Option F → Manager A S R → Option (Outcome c))
      → ((a : A) (f : Option F) (m : Manager A S R) (out : Outcome c)
          → go a f m ≡ some out
          → Keeps m out.1)
      → ((a : A) (f : Option F) (m : Manager A S R) (out : Outcome c)
          → m.registry ≡ registry
          → IsCoherent c registry m.cache
          → go a f m ≡ some out
          → Gets c registry m.computing a f out.0 × IsCoherent c registry out.1.cache)
      → (p : Program A F R) (m : Manager A S R) (out : Outcome c) → m.registry ≡ registry
      → IsCoherent c registry m.cache
      → run_program c go p m ≡ some out
      → Runs c registry m.computing p out.0 × IsCoherent c registry out.1.cache
  unfolding run_program
  Runs-program go keep gets (return r) m out reg h q = rw (some_inj c q) (returns, h)
  Runs-program go keep gets (raise e) m out reg h q = rw (some_inj c q) (raises, h)
  Runs-program go keep gets (ask a f next) m out reg h q = elim (Option-cases (go a f m)) [
    | inl lost ↦ absurd (let e = rw (lost, run_program) at q in cc e)
    | inr ((r, m'), e) ↦
        let kept = keep a f m (r, m') e in
        let (got, h') = gets a f m (r, m') reg h e in
        let (runs, h'') =
          Runs-program go keep gets (next r) m' out (kept.registry ∙ reg) h'
            (rw (e, run_program) at q) in
        (asks got (subst (λ s. Runs c registry s (next r) out.0) kept.computing runs), h'')
  ]

  -- Where the spans tell the functions apart and each cached result is what its analysis gives, a
  -- request that returns or raises does what it does when every request is computed anew, and each
  -- result that is then cached is again what its analysis gives.
  pub request-Gets :
      (fuel : ℕ) (a : A) (f : Option F) (m : Manager A S R) (out : Outcome c)
      → m.registry ≡ registry
      → IsCoherent c registry m.cache
      → request c fuel a f m ≡ some out
      → Gets c registry m.computing a f out.0 × IsCoherent c registry out.1.cache
  request-Gets zero a f m out reg h q = absurd (unfold request in cc q)
  request-Gets (suc fuel) a f m out reg h q = elim (request_cases c fuel a f m q) [
    | mistargeted bad e ↦ rw e (no_target bad, h)
    | unknown fits absent e ↦ rw e (not_registered fits (at reg a absent), h)
    | undeclared_one fits known no_one e ↦ rw e (not_declared fits (at reg a known) no_one, h)
    | cached fits known declared r found e ↦
        rw e (evaluates fits (at reg a known) declared (h a f r found), h)
    | computed fits known declared missing inner e e' ↦
        let (runs, h') =
          Runs-program (request c fuel) (λ a f m out q. request-Keeps c fuel a f m out q)
            (λ a f m out reg h q. request-Gets fuel a f m out reg h q) (c.compute a f)
            (record m { computing = a ∷ m.computing }) inner reg h e in
        let alone = Runs-innermost c registry m.computing [] runs in
        rw e' (
          subst (λ r. Gets c registry m.computing a f r) (finish_result c a f inner)
              (evaluates fits (at reg a known) declared alone),
          IsCoherent-finish a f inner h' alone,
        )
  ]
    where
      at :
          {l : List A}
          → l ≡ registry
          → (b : A) {x : Bool} → contains l b ≡ x
          → contains registry b ≡ x
      at g b h = rw (← g) h
