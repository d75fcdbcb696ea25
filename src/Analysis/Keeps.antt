-- ===== src/Analysis/Keeps.antt =====
-- What a request leaves of the manager, whether it returns or raises.
use mathlib.Core.List.{tail}
use coretrace_python_analyze.Analysis.{
  Error, Program, return, raise, ask, Catalog, Manager, Outcome, target_fits, key, is_undeclared,
  undeclared_error, run_program, finish, request, err, ok, bad_target, unregistered,
}
use coretrace_python_analyze.Base.{
  Eq, Option, contains, false, get, list_eq, nat_eq, none, option_eq, pair_eq, refl, some,
  string_eq, suc, true, ℕ, ◌∙◌, ◌∷◌, ◌≡◌, Bool-cases, Option-cases, inl, inr, ==_iff, ap, get-put,
  zero, ◌==◌, get-put_self,
}
use Prim.Native.String.{same}

-- The registry and the stack are as they were, and every result that was cached still is.
pub record Keeps {A S R : Type 0} ⦃ea : Eq A⦄ ⦃es : Eq S⦄ (m m' : Manager A S R) : Type 0 where
  pub registry : m'.registry ≡ m.registry
  pub computing : m'.computing ≡ m.computing
  pub cache : (k : A × Option S) (r : R) → get k m.cache ≡ some r → get k m'.cache ≡ some r

module _ {A F S R : Type 0} ⦃ea : Eq A⦄ ⦃es : Eq S⦄ (c : Catalog A F S R) where
  Keeps-refl : (m : Manager A S R) → Keeps m m
  Keeps-refl m = record { registry = refl; computing = refl; cache = λ k r h. h }

  Keeps-trans : {m m' m'' : Manager A S R} → Keeps m m' → Keeps m' m'' → Keeps m m''
  Keeps-trans g h = record {
    registry = h.registry ∙ g.registry;
    computing = h.computing ∙ g.computing;
    cache = λ k r q. h.cache k r (g.cache k r q);
  }

  -- The ways in which a request can go.
  pub data Went (fuel : ℕ) (a : A) (f : Option F) (m : Manager A S R) (out : Outcome c)
      : Type 0 where
    mistargeted : target_fits c a f ≡ false → out ≡ (err (bad_target a), m) → Went fuel a f m out
    unknown :
        target_fits c a f ≡ true
        → contains m.registry a ≡ false
        → out ≡ (err (unregistered a), m)
        → Went fuel a f m out
    undeclared_one :
        target_fits c a f ≡ true
        → contains m.registry a ≡ true
        → is_undeclared c m.computing a ≡ true
        → out ≡ (err (undeclared_error c m.computing a), m)
        → Went fuel a f m out
    cached :
        target_fits c a f ≡ true
        → contains m.registry a ≡ true
        → is_undeclared c m.computing a ≡ false
        → (r : R) → get (key c a f) m.cache ≡ some r
        → out ≡ (ok r, m)
        → Went fuel a f m out
    computed :
        target_fits c a f ≡ true
        → contains m.registry a ≡ true
        → is_undeclared c m.computing a ≡ false
        → get (key c a f) m.cache ≡ none
        → (inner : Outcome c)
        → run_program c (request c fuel) (c.compute a f) (record m { computing = a ∷ m.computing })
          ≡ some inner
        → out ≡ finish c a f inner
        → Went fuel a f m out

  pub request_cases :
      (fuel : ℕ) (a : A) (f : Option F) (m : Manager A S R) {out : Outcome c}
      → request c (suc fuel) a f m ≡ some out
      → Went fuel a f m out
  unfolding request
  request_cases fuel a f m {out = out} h = elim (Bool-cases (target_fits c a f)) [
    | inr bad ↦ mistargeted bad (same (rw bad at h))
    | inl fits ↦ elim (Bool-cases (contains m.registry a)) [
      | inr absent ↦ unknown fits absent (same (rw (fits, absent) at h))
      | inl known ↦ elim (Bool-cases (is_undeclared c m.computing a)) [
        | inl undeclared ↦
            undeclared_one fits known undeclared (same (rw (fits, known, undeclared) at h))
        | inr declared ↦ answered fits known declared (rw (fits, known, declared) at h)
      ]
    ]
  ]
    where
      same : {x y : Outcome c} → some x ≡ some y → y ≡ x
      same e = cc e

      within : Option (Outcome c)
      within =
          run_program c (request c fuel) (c.compute a f) (record m { computing = a ∷ m.computing })

      done : Option (Outcome c) → Option (Outcome c)
      done x = elim x [ none ↦ none | some out ↦ some (finish c a f out) ]

      answer : Option R → Option (Outcome c)
      answer x = elim x [ none ↦ done within | some r ↦ some (ok r, m) ]

      answered :
          target_fits c a f ≡ true
          → contains m.registry a ≡ true
          → is_undeclared c m.computing a ≡ false
          → answer (get (key c a f) m.cache) ≡ some out
          → Went fuel a f m out
      answered fits known declared g = elim (Option-cases (get (key c a f) m.cache)) [
        | inl missing ↦ elim (Option-cases within) [
          | inl lost ↦ absurd (let e = rw (missing, lost) at g in cc e)
          | inr (inner, e) ↦
              computed fits known declared missing inner e (same (rw (missing, e) at g))
        ]
        | inr (r, found) ↦ cached fits known declared r found (same (rw found at g))
      ]

  finish-Keeps :
      (a : A) (f : Option F) (m : Manager A S R) (inner : Outcome c)
      → get (key c a f) m.cache ≡ none
      → Keeps (record m { computing = a ∷ m.computing }) inner.1
      → Keeps m (finish c a f inner).1
  unfolding finish
  finish-Keeps a f m (ok r, m') missing g = record {
    registry = g.registry;
    computing = ap tail g.computing;
    cache = λ k r' h. elim (Bool-cases (k == key c a f)) [
      | inl same ↦ absurd (let e = rw ((==_iff k (key c a f)).0 same, missing) at h in cc e)
      | inr other ↦ rw (get-put (key c a f) k r m'.cache, other, g.cache k r' h)
    ];
  }
  finish-Keeps a f m (err e, m') missing g = record {
    registry = g.registry;
    computing = ap tail g.computing;
    cache = g.cache;
  }

  pub some_inj : {x y : Outcome c} → some x ≡ some y → y ≡ x
  some_inj e = cc e

  program-Keeps :
      (go : A → Option F → Manager A S R → Option (Outcome c))
      → ((a : A) (f : Option F) (m : Manager A S R) (out : Outcome c)
          → go a f m ≡ some out
          → Keeps m out.1)
      → (p : Program A F R) (m : Manager A S R) (out : Outcome c) → run_program c go p m ≡ some out
      → Keeps m out.1
  unfolding run_program
  program-Keeps go keep (return r) m out h = rw (some_inj h) (Keeps-refl m)
  program-Keeps go keep (raise e) m out h = rw (some_inj h) (Keeps-refl m)
  program-Keeps go keep (ask a f next) m out h = elim (Option-cases (go a f m)) [
    | inl lost ↦ absurd (let e = rw (lost, run_program) at h in cc e)
    | inr ((r, m'), e) ↦
        Keeps-trans (keep a f m (r, m') e)
          (program-Keeps go keep (next r) m' out (rw (e, run_program) at h))
  ]

  -- A request, whether it returns or raises, leaves the registry, the stack of the analyses being
  -- computed and the results cached before as they were.
  pub request-Keeps :
      (fuel : ℕ) (a : A) (f : Option F) (m : Manager A S R) (out : Outcome c)
      → request c fuel a f m ≡ some out
      → Keeps m out.1
  request-Keeps zero a f m out h = absurd (unfold request in cc h)
  request-Keeps (suc fuel) a f m out h = elim (request_cases fuel a f m h) [
    | mistargeted bad q ↦ rw q (Keeps-refl m)
    | unknown fits absent q ↦ rw q (Keeps-refl m)
    | undeclared_one fits known no_one q ↦ rw q (Keeps-refl m)
    | cached fits known declared r found q ↦ rw q (Keeps-refl m)
    | computed fits known declared missing inner e q ↦ rw q (
        finish-Keeps a f m inner missing (
          program-Keeps (request c fuel) (λ a f m out h. request-Keeps fuel a f m out h)
            (c.compute a f) (record m { computing = a ∷ m.computing }) inner e))
  ]

  pub finish_result : (a : A) (f : Option F) (o : Outcome c) → o.0 ≡ (finish c a f o).0
  unfolding finish
  finish_result a f (ok r, m) = refl
  finish_result a f (err e, m) = refl

  request-hit :
      (fuel : ℕ) (a : A) (f : Option F) (m : Manager A S R) (r : R)
      → target_fits c a f ≡ true
      → contains m.registry a ≡ true
      → is_undeclared c m.computing a ≡ false
      → get (key c a f) m.cache ≡ some r
      → request c (suc fuel) a f m ≡ some (ok r, m)
  unfolding request
  request-hit fuel a f m r fits known declared found = rw (fits, known, declared, found)

  finish-cache :
      (a : A) (f : Option F) (r : R) (m' : Manager A S R) (inner : Outcome c)
      → (ok r, m') ≡ finish c a f inner
      → get (key c a f) m'.cache ≡ some r
  unfolding finish
  finish-cache a f r m' (ok r', inner) q =
      let r_same : ok r ≡ ok r' = ap (λ (o : Outcome c). o.0) q in
      let r_is : r' ≡ r = cc r_same in
      ap (λ (o : Outcome c). get (key c a f) o.1.cache) q
      ∙ get-put_self (key c a f) r' inner.cache
      ∙ ap some r_is
  finish-cache a f r m' (err e', inner) q = absurd (let g = ap (λ (o : Outcome c). o.0) q in cc g)

  not_ok :
      {r : R} {e : Error A} {m m' : Manager A S R} → ◌≡◌ {A = Outcome c} (ok r, m) (err e, m') → ⊥
  not_ok q = let e' = ap (λ (o : Outcome c). o.0) q in cc e'

  -- Asked again at once, an analysis that returned gives the same result and computes nothing: the
  -- manager stays as it is.
  pub request_again :
      (fuel : ℕ) (a : A) (f : Option F) (m m' : Manager A S R) (r : R)
      → request c fuel a f m ≡ some (ok r, m')
      → (more : ℕ) → request c (suc more) a f m' ≡ some (ok r, m')
  request_again zero a f m m' r h more = absurd (unfold request in cc h)
  request_again (suc fuel) a f m m' r h more = elim (request_cases fuel a f m h) [
    | mistargeted bad q ↦ absurd (not_ok q)
    | unknown fits absent q ↦ absurd (not_ok q)
    | undeclared_one fits known no_one q ↦ absurd (not_ok q)
    | cached fits known declared r' found q ↦
        let same : m' ≡ m = ap (λ (o : Outcome c). o.1) q in
        let r_same : ok r ≡ ok r' = ap (λ (o : Outcome c). o.0) q in
        let r_is : r' ≡ r = cc r_same in
        rw same (request-hit more a f m r fits known declared (found ∙ ap some r_is))
    | computed fits known declared missing inner e q ↦
        let keep = request-Keeps (suc fuel) a f m (ok r, m') h in
        request-hit more a f m' r fits (ap (λ l. contains l a) keep.registry ∙ known)
          (ap (λ l. is_undeclared c l a) keep.computing ∙ declared) (finish-cache a f r m' inner q)
  ]
