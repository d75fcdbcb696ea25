-- ===== src/Analysis/Acyclic.antt =====
-- The check of analysis/manager.py that the analyses' requirements have no cycle.
pub mod Sound
use coretrace_python_analyze.Analysis.{Error, cyclic, ok, err}
use coretrace_python_analyze.Base.{
  List, Dict, Eq, Option, Result, [], add, contains, if◌then◌else◌, length, list_eq, nat_eq, none,
  option_eq, pair_eq, reverse, some, string_eq, suc, zero, ℕ, ◌==◌, ◌∷◌,
}

module _ {A : Type 0} ⦃e : Eq A⦄ (requires : A → List A) where
  -- `path[path.index(analysis):]` of a path that has its end first, again with its end first.
  unfoldable pub back_to : A → List A → List A
  back_to a [] = []
  back_to a (x ∷ path) = let rest = back_to a path in if a == x then x ∷ [] else x ∷ rest

  -- The loop over the requirements.
  unfoldable pub visit_each :
      (A → Option (Result (Error A) (Unit {0}))) → List A → Option (Result (Error A) (Unit {0}))
  visit_each visit [] = some (ok tt)
  visit_each visit (d ∷ more) = elim (visit d) [
    | none ↦ none
    | some (err raised) ↦ some (err raised)
    | some (ok _) ↦ visit_each visit more
  ]

  -- The fuel bounds the depth of the recursion; `path` has its end first.
  unfoldable pub visit : ℕ → List A → A → Option (Result (Error A) (Unit {0}))
  unfolding back_to visit_each
  visit zero path a = none
  visit (suc fuel) path a =
      let deeper = visit_each (visit fuel (a ∷ path)) (requires a) in
      if contains path a then some (err (cyclic (reverse (a ∷ back_to a path)))) else deeper

  -- `_check_acyclic`, among the analyses of `nodes`; `none` would mean that the fuel ran out.
  unfoldable pub check_acyclic : List A → A → Option (Result (Error A) (Unit {0}))
  unfolding visit
  check_acyclic nodes root = visit (suc (length nodes)) [] root

-- `register`: each analysis is added, and then checked, so that one that closes a cycle stays.
unfoldable pub register :
    {A : Type 0} ⦃e : Eq A⦄
    → (A → List A)
    → List A
    → List A
    → List A
    → Option (Result (Error A) (Unit {0}) × List A)
unfolding check_acyclic
register requires nodes [] registry = some (ok tt, registry)
register requires nodes (a ∷ more) registry = elim (check_acyclic requires nodes a) [
  | none ↦ none
  | some (err raised) ↦ some (err raised, add a registry)
  | some (ok _) ↦ register requires nodes more (add a registry)
]
