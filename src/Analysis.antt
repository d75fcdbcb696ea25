-- ===== src/Analysis.antt =====
-- analysis/manager.py: the registry of analyses, their lazy evaluation, the cache and invalidation.
pub mod Keeps
pub mod Transparent
pub mod Acyclic
pub mod Dependencies
mod Tests
use mathlib.Core.Option
use mathlib.Core.List.{tail}
use coretrace_python_analyze.Base.{
  ℕ, zero, suc, String, Bool, true, false, Option, none, some, List, [], ◌∷◌, ◌++◌, Dict, Eq,
  Result, contains, get, if◌then◌else◌, keys, list_eq, map, nat_eq, not, option_eq, pair_eq, put,
  string_eq, ok, err,
}

-- What the manager reads of the analyses `A`, the functions `F` they are asked for and the spans `S`
-- of those, as the classes of provider.py declare it.
pub data Error (A : Type 0) : Type 0 where
  bad_target : A → Error A
  unregistered : A → Error A
  undeclared : A → A → Error A
  cyclic : List A → Error A
  failed : String → Error A

-- A `compute`, by its calls of the context's `get`: a call raises or returns, and the code goes on
-- with either.
pub data Program (A F R : Type 0) : Type 0 where
  return : R → Program A F R
  raise : Error A → Program A F R
  ask : A → Option F → (Result (Error A) R → Program A F R) → Program A F R

pub record Catalog (A F S R : Type 0) : Type 0 where
  pub name : A → String
  pub requires : A → List A
  -- A `FunctionAnalysis`, or else an `Analysis`.
  pub of_function : A → Bool
  pub span : F → S
  pub compute : A → Option F → Program A F R

pub record Manager (A S R : Type 0) : Type 0 where
  pub registry : List A
  pub cache : Dict (A × Option S) R
  -- The analyses that are being computed, the innermost first.
  pub computing : List A

module _ {A F S R : Type 0} ⦃ea : Eq A⦄ ⦃es : Eq S⦄ (c : Catalog A F S R) where
  -- `_check_target` finds nothing wrong.
  unfoldable pub target_fits : A → Option F → Bool
  target_fits a none = not (c.of_function a)
  target_fits a (some _) = c.of_function a

  abbrev pub key : A → Option F → A × Option S
  key a f = (a, Option.map c.span f)

  -- `a` is requested by the analysis that is being computed, which does not declare it.
  unfoldable pub is_undeclared : List A → A → Bool
  is_undeclared [] a = false
  is_undeclared (current ∷ _) a = not (contains (c.requires current) a)

  unfoldable pub undeclared_error : List A → A → Error A
  undeclared_error [] a = undeclared a a
  undeclared_error (current ∷ _) a = undeclared current a

  abbrev pub Outcome : Type 0
  Outcome = Result (Error A) R × Manager A S R

  -- A `compute`, whose requests `go` answers.
  unfoldable pub run_program :
      (A → Option F → Manager A S R → Option Outcome)
      → Program A F R
      → Manager A S R
      → Option Outcome
  run_program go (return r) m = some (ok r, m)
  run_program go (raise e) m = some (err e, m)
  run_program go (ask a f next) m = elim (go a f m) [
    | none ↦ none
    | some (r, m') ↦ run_program go (next r) m'
  ]

  -- `finally: self._computing.pop()`, then `self._cache[key] = result` unless it raised.
  unfoldable pub finish : A → Option F → Outcome → Outcome
  finish a f (ok r, m) =
      (ok r, record m { computing = tail m.computing; cache = put (key a f) r m.cache })
  finish a f (err e, m) = (err e, record m { computing = tail m.computing })

  -- The fuel bounds how deep the requests nest; `none` means that it ran out.
  unfoldable pub request : ℕ → A → Option F → Manager A S R → Option Outcome
  unfolding target_fits is_undeclared undeclared_error run_program finish
  request zero a f m = none
  request (suc fuel) a f m =
      let computed : Option Outcome =
        elim (run_program (request fuel) (c.compute a f)
          (record m { computing = a ∷ m.computing })) [
            | none ↦ none
            | some out ↦ some (finish a f out)
          ] in
      let answer : Option Outcome = elim (get (key a f) m.cache) [
        | none ↦ computed
        | some r ↦ some (ok r, m)
      ] in
      if not (target_fits a f)
      then some (err (bad_target a), m)
      else if not (contains m.registry a)
      then some (err (unregistered a), m)
      else if is_undeclared m.computing a
      then some (err (undeclared_error m.computing a), m)
      else answer

  unfoldable pub provide : A → R → Manager A S R → Outcome
  provide a r m =
      if not (target_fits a none)
      then (err (bad_target a), m)
      else if not (contains m.registry a)
      then (err (unregistered a), m)
      else (ok r, record m { cache = put (key a none) r m.cache })

  unfoldable pub is_cached : A → Option F → Manager A S R → Result (Error A) Bool
  is_cached a f m =
      if not (target_fits a f) then err (bad_target a) else ok (contains (keys m.cache) (key a f))

  unfoldable pub keep_preserved : List A → Dict (A × Option S) R → Dict (A × Option S) R
  keep_preserved preserves [] = []
  keep_preserved preserves (((a, s), r) ∷ rest) =
      let kept = keep_preserved preserves rest in
      if contains preserves a then ((a, s), r) ∷ kept else kept

  -- `run` of a transformation: its own requests, then the cache without what it does not preserve.
  unfoldable pub run : ℕ → Program A F R → List A → Manager A S R → Option Outcome
  unfolding keep_preserved
  run fuel transformation preserves m = elim (run_program (request fuel) transformation m) [
    | none ↦ none
    | some (ok r, m') ↦ some (ok r, record m' { cache = keep_preserved preserves m'.cache })
    | some (err e, m') ↦ some (err e, m')
  ]
