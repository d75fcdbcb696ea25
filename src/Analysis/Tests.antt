-- ===== src/Analysis/Tests.antt =====
-- Two analyses, the second of which requests the first.
use coretrace_python_analyze.Analysis.{
  Program, return, raise, ask, Catalog, Manager, Error, request, run_program, finish, target_fits,
  is_undeclared, undeclared_error, ok, err, cyclic,
}
use coretrace_python_analyze.Analysis.Keeps.{Keeps, request-Keeps, request_again}
use coretrace_python_analyze.Analysis.Transparent.{Gets, IsCoherent, request-Gets}
use coretrace_python_analyze.Analysis.Acyclic.{check_acyclic, visit, visit_each, back_to, register}
use coretrace_python_analyze.Analysis.Acyclic.Sound.{IsAcyclic, Verdict, check_acyclic_decides}
use coretrace_python_analyze.Analysis.Dependencies.{
  dependencies, dependencies_decide, dependencies-check_acyclic, analysis,
}
use coretrace_python_analyze.Base.{
  Reaches, ◌↔◌, true, false, Memᴰ, Memᴰ-cons, Memᴰ-nil, inl, inr, Bool-cases, List, add, Result,
  String, [], contains, get, if◌then◌else◌, list_eq, nat_eq, none, option_eq, pair_eq, put, refl,
  some, string_eq, suc, ℕ, ◌==◌, ◌∷◌, ◌≡◌,
}

-- "blocks" counts the blocks of a function; "report" asks for that, of function 0, and adds one.
abbrev on_result : Result (Error String) ℕ → Program String ℕ ℕ
on_result (ok n) = return (suc n)
on_result (err e) = raise e

abbrev pair : Catalog String ℕ ℕ ℕ
pair = record {
  name = λ a. a;
  requires = λ a. if a == "report" then "blocks" ∷ [] else [];
  of_function = λ a. a == "blocks";
  span = λ f. f;
  compute = λ a f. if a == "report" then ask "blocks" (some 0) on_result else return 6;
}

abbrev fresh : Manager String ℕ ℕ
fresh = record { registry = "blocks" ∷ "report" ∷ []; cache = []; computing = [] }

abbrev filled : Manager String ℕ ℕ
filled = record {
  registry = "blocks" ∷ "report" ∷ [];
  cache = (("blocks", some 0), 6) ∷ (("report", none), 7) ∷ [];
  computing = [];
}

report_requested : request pair 2 "report" none fresh ≡ some (ok 7, filled)
unfolding request run_program finish target_fits is_undeclared undeclared_error get put contains
report_requested = refl

request-Keeps_example : Keeps fresh filled
request-Keeps_example = request-Keeps pair 2 "report" none fresh (ok 7, filled) report_requested

request_again_example : request pair 1 "report" none filled ≡ some (ok 7, filled)
request_again_example = request_again pair 2 "report" none fresh filled 7 report_requested 0

nothing_cached : IsCoherent pair fresh.registry fresh.cache
unfolding get
nothing_cached a f r h = absurd (cc h)

request-Gets_example :
    Gets pair fresh.registry [] "report" none (ok 7) × IsCoherent pair fresh.registry filled.cache
request-Gets_example =
    request-Gets pair fresh.registry (λ f g h. h) 2 "report" none fresh (ok 7, filled) refl
      nothing_cached report_requested

pair_closed :
    (a d : String) → Memᴰ a fresh.registry → Memᴰ d (pair.requires a) → Memᴰ d fresh.registry
pair_closed a d m n = elim (Bool-cases (a == "report")) [
  | inl top ↦ Memᴰ.head (first d (rw top at n))
  | inr other ↦ absurd (Memᴰ-nil (rw other at n))
]
  where
    first : (d : String) → Memᴰ d ("blocks" ∷ []) → d ≡ "blocks"
    first d n = elim ((Memᴰ-cons d "blocks" []).0 n) [
      | inl same ↦ same
      | inr later ↦ absurd (Memᴰ-nil later)
    ]

check_acyclic_decides_example :
    Verdict pair.requires
      (IsAcyclic pair.requires "report")
      (check_acyclic pair.requires fresh.registry "report")
check_acyclic_decides_example =
    check_acyclic_decides pair.requires fresh.registry pair_closed "report"
      (Memᴰ.tail (Memᴰ.head refl))

-- Two analyses that require each other: registering the first finds the cycle, and keeps it.
abbrev each_other : String → List String
each_other a = if a == "report" then "blocks" ∷ [] else "report" ∷ []

cycle_found :
    register each_other fresh.registry ("report" ∷ []) []
    ≡ some (err (cyclic ("report" ∷ "blocks" ∷ "report" ∷ [])), "report" ∷ [])
unfolding register check_acyclic visit visit_each back_to contains add
cycle_found = refl

report_known : Memᴰ "report" fresh.registry
report_known = Memᴰ.tail (Memᴰ.head refl)

dependencies_decide_example :
    (found : List String) × (dependencies pair.requires fresh.registry "report" ≡ some found)
    × ((d : String) → (contains found d ≡ true) ↔ Reaches pair.requires (pair.requires "report") d)
dependencies_decide_example =
    dependencies_decide pair.requires fresh.registry pair_closed "report" report_known

report_passes : check_acyclic pair.requires fresh.registry "report" ≡ some (ok tt)
unfolding check_acyclic visit visit_each contains
report_passes = refl

dependencies-check_acyclic_example :
    (found : List String) × (dependencies pair.requires fresh.registry "report" ≡ some found)
    × (contains found "report" ≡ false)
dependencies-check_acyclic_example =
    dependencies-check_acyclic pair.requires fresh.registry pair_closed "report" report_known
      report_passes

analysis_found : analysis (λ (a : String). a) fresh.registry "report" ≡ some "report"
unfolding analysis
analysis_found = refl
