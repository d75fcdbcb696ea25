-- ===== src/Analysis/Dependencies.antt =====
-- The transitive requirements of an analysis, `AnalysisManager.dependencies` of analysis/manager.py.
use coretrace_python_analyze.Analysis.Acyclic.{check_acyclic}
use coretrace_python_analyze.Analysis.Acyclic.Sound.{IsAcyclic, acyclic, check_acyclic_decides}
use coretrace_python_analyze.Analysis.{ok}
use coretrace_python_analyze.Base.{
  List, Eq, Option, [], contains, closure, closure_decides, Reaches, here, step, Memᴰ, inl, inr,
  none, some, false, true, Bool-cases, ◌≡◌, ◌⊎◌, ◌↔◌, ◌∷◌, refl, subst, String, string_eq, ◌==◌,
  if◌then◌else◌,
}

module _ {A : Type 0} ⦃e : Eq A⦄ (requires : A → List A) where
  -- The loop runs among the analyses of `nodes`; `none` would mean that the fuel ran out.
  unfoldable pub dependencies : List A → A → Option (List A)
  unfolding closure
  dependencies nodes a = closure requires nodes (requires a)

  -- A chain of requirements starts with one of them.
  first_of :
      (starts : List A) (b : A)
      → Reaches requires starts b
      → (d : A) × Memᴰ d starts × ((b ≡ d) ⊎ Reaches requires (requires d) b)
  first_of starts b (here m) = (b, m, inl refl)
  first_of starts b (step {a} r m) =
      let (d, n, how) = first_of starts a r in
      (
        d,
        n,
        elim how [
          | inl same ↦ inr (here (subst (λ x. Memᴰ b (requires x)) same m))
          | inr more ↦ inr (step more m)
        ],
      )

  unlooped : {a : A} → IsAcyclic requires a → ¬ Reaches requires (requires a) a
  unlooped {a} (acyclic below) r =
      let (d, n, how) = first_of (requires a) a r in
      elim how [
        | inl same ↦ unlooped (below d n) (subst (λ x. Reaches requires (requires x) x) same r)
        | inr more ↦ unlooped (below d n) (step more n)
      ]

  module _ (nodes : List A)
      (closed : (a d : A) → Memᴰ a nodes → Memᴰ d (requires a) → Memᴰ d nodes) where
    -- Among finitely many analyses that hold what each of them requires, the loop that collects the
    -- dependencies of one of them ends, and an analysis is in its result exactly where a chain of
    -- requirements leads to it.
    pub dependencies_decide :
        (a : A)
        → Memᴰ a nodes
        → (found : List A) × (dependencies nodes a ≡ some found)
          × ((d : A) → (contains found d ≡ true) ↔ Reaches requires (requires a) d)
    unfolding dependencies
    dependencies_decide a m =
        closure_decides requires nodes (requires a) closed (λ d n. closed a d m n)

    -- Among finitely many analyses that hold what each of them requires, the dependencies of one
    -- that passes the check for cycles are found, and it is not among them.
    pub dependencies-check_acyclic :
        (a : A)
        → Memᴰ a nodes
        → check_acyclic requires nodes a ≡ some (ok tt)
        → (found : List A) × (dependencies nodes a ≡ some found) × (contains found a ≡ false)
    dependencies-check_acyclic a m passed =
        let (found, ends, exact) = dependencies_decide a m in
        (
          found,
          ends,
          elim (Bool-cases (contains found a)) [
            | inl itself ↦ elim (check_acyclic_decides requires nodes closed a m) [
              | inl (_, good) ↦ absurd (unlooped good ((exact a).0 itself))
              | inr (l, raised, _) ↦ cc
            ]
            | inr apart ↦ apart
          ],
        )

-- `analysis`, with the registry in the order in which it is gone through; `none` is the `KeyError`.
unfoldable pub analysis : {A : Type 0} → (A → String) → List A → String → Option A
analysis name_of [] name = none
analysis name_of (a ∷ registry) name =
    let rest = analysis name_of registry name in if name_of a == name then some a else rest
