-- ===== src/Analysis/Acyclic/Sound.antt =====
-- What analysis/manager.py's check says: there is a cycle, or none can be reached.
use coretrace_python_analyze.Analysis.{Error, cyclic, ok, err}
use coretrace_python_analyze.Analysis.Acyclic.{back_to, visit_each, visit, check_acyclic}
use coretrace_python_analyze.Base.{
  ==_iff, Bool-cases, Eq, List, Memᴰ, Memᴰ-cons, Memᴰ-nil, Option, Result, [], ap, arith, contains,
  length, inl, inr, list_eq, nat_eq, option_eq, pair_eq, refl, reverse, some, string_eq, suc, sym,
  true, unseen_edges, unseen_edges-cons, zero, ℕ, ⊎_elim, ◌++◌, ◌<◌, ◌==◌, ◌∷◌, ◌≡◌, ◌⊎◌,
}

room-nil :
    {A : Type 0} ⦃e : Eq A⦄ (nodes : List A)
    → unseen_edges (λ (x : A). x ∷ []) nodes [] ≡ length nodes
unfolding contains
room-nil [] = refl
room-nil (x ∷ nodes) = omega (arith, room-nil nodes)

module _ {A : Type 0} ⦃e : Eq A⦄ (requires : A → List A) where
  -- No chain of requirements from here goes on for ever.
  pub data IsAcyclic : A → Type 0 where
    acyclic : {a : A} → ((d : A) → Memᴰ d (requires a) → IsAcyclic d) → IsAcyclic a

  -- Each but the last is a requirement of the next.
  abbrev pub IsChain : List A → Type 0
  IsChain [] = Unit {0}
  IsChain (x ∷ []) = Unit {0}
  IsChain (x ∷ y ∷ rest) = Memᴰ x (requires y) × IsChain (y ∷ rest)

  -- A chain of two or more that ends where it starts.
  pub record IsCycle (l : List A) : Type 0 where
    pub at : A
    pub between : List A
    pub closes : l ≡ at ∷ between ++ at ∷ []
    pub chain : IsChain l

  back_to-ends :
      (a : A) (path : List A)
      → contains path a ≡ true
      → (between : List A) × (back_to requires a path ≡ between ++ a ∷ [])
  unfolding back_to contains
  back_to-ends a [] h = cc h
  back_to-ends a (x ∷ path) h = elim (Bool-cases (a == x)) [
    | inl same ↦ ([], rw (same, back_to) (ap (λ i. i ∷ []) (sym ((==_iff a x).0 same))))
    | inr other ↦
        let (between, ends) = back_to-ends a path (rw other at h) in
        (x ∷ between, rw (other, back_to) (ap (λ l. x ∷ l) ends))
  ]

  back_to-IsChain :
      (a x : A) (path : List A) → IsChain (x ∷ path) → IsChain (x ∷ back_to requires a path)
  unfolding back_to
  back_to-IsChain a x [] h = tt
  back_to-IsChain a x (y ∷ path) h = elim (Bool-cases (a == y)) [
    | inl same ↦ rw (same, back_to) (h.0, tt)
    | inr other ↦ rw (other, back_to) (h.0, back_to-IsChain a y path h.1)
  ]

  -- How a visit that returns can go, where `good` is what it then knows.
  abbrev pub Verdict : Type 0 → Option (Result (Error A) (Unit {0})) → Type 0
  Verdict good o =
      ((o ≡ some (ok tt)) × good)
      ⊎ ((l : List A) × (o ≡ some (err (cyclic (reverse l)))) × IsCycle l)

  visit_each_lem :
      (go : A → Option (Result (Error A) (Unit {0}))) (ds : List A)
      → ((d : A) → Memᴰ d ds → Verdict (IsAcyclic d) (go d))
      → Verdict ((d : A) → Memᴰ d ds → IsAcyclic d) (visit_each requires go ds)
  unfolding visit_each
  visit_each_lem go [] h = inl (refl, λ d m. absurd (Memᴰ-nil m))
  visit_each_lem go (d ∷ more) h = elim (h d (Memᴰ.head refl)) [
    | inr (l, found, cycle) ↦ inr (l, rw (found, visit_each) refl, cycle)
    | inl (fine, grounded) ↦ elim (visit_each_lem go more (λ d m. h d (Memᴰ.tail m))) [
      | inr (l, found, cycle) ↦ inr (l, rw (fine, visit_each) found, cycle)
      | inl (done, all) ↦ inl (
        rw (fine, visit_each) done,
        λ d' m.
            ⊎_elim (λ same. rw same grounded) (λ later. all d' later) ((Memᴰ-cons d' d more).0 m),
      )
    ]
  ]

  module _ (nodes : List A)
      (closed : (a d : A) → Memᴰ a nodes → Memᴰ d (requires a) → Memᴰ d nodes) where
    abbrev pub room : List A → ℕ
    room path = unseen_edges (λ (x : A). x ∷ []) nodes path

    visit_lem :
        (fuel : ℕ) (path : List A) (a : A)
        → Memᴰ a nodes
        → room path < fuel
        → IsChain (a ∷ path)
        → Verdict (IsAcyclic a) (visit requires fuel path a)
    unfolding visit
    visit_lem zero path a m r chain = absurd (omega (arith, r))
    visit_lem (suc fuel) path a m r chain = elim (Bool-cases (contains path a)) [
      | inl again ↦
          let (between, ends) = back_to-ends a path again in
          inr (
            a ∷ back_to requires a path,
            rw (again, visit) refl,
            record {
              at = a;
              between = between;
              closes = ap (λ l. a ∷ l) ends;
              chain = back_to-IsChain a a path chain;
            },
          )
      | inr new ↦
          let less = unseen_edges-cons (λ (x : A). x ∷ []) nodes path a m new in
          rw (new, visit)
            (up (
              visit_each_lem (visit requires fuel (a ∷ path)) (requires a) (λ d n.
                visit_lem fuel (a ∷ path) d (closed a d m n) (omega (arith, less, r)) (n, chain))))
    ]
      where
        up :
            {o : Option (Result (Error A) (Unit {0}))}
            → Verdict ((d : A) → Memᴰ d (requires a) → IsAcyclic d) o
            → Verdict (IsAcyclic a) o
        up (inl (fine, all)) = inl (fine, acyclic all)
        up (inr found) = inr found

    -- Among finitely many analyses that hold what each of them requires, the check of one of them
    -- ends, and either it passes and no chain of requirements from that one goes on for ever, or it
    -- raises with a list of analyses that ends where it starts and in which each requires the next.
    pub check_acyclic_decides :
        (root : A) → Memᴰ root nodes → Verdict (IsAcyclic root) (check_acyclic requires nodes root)
    unfolding check_acyclic
    check_acyclic_decides root m =
        visit_lem (suc (length nodes)) [] root m (omega (arith, room-nil nodes)) tt
