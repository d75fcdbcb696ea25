-- ===== src/Cfg/BackEdges/Walk.antt =====
-- What a visit of the depth-first walk keeps and brings, and that its fuel is enough.
use coretrace_python_analyze.Base.{
  ℕ, suc, ◌≤◌, ◌<◌, ◌≡◌, refl, ◌⊎◌, inl, inr, true, false, List, [], ◌∷◌, Option, some, arith,
  length, contains, ◌∙◌, Memᴰ, Reaches, add, step, unseen_edges, Bool-cases, Memᴰ-nil, subst,
  contains-add, ⊎_elim, sym, ==_refl, Memᴰ-cons, ◌==◌, ==_iff, if◌then◌else◌, list_eq, nat_eq,
  option_eq, pair_eq, string_eq,
}
use coretrace_python_analyze.Cfg.BackEdges.{Dfs, follow, follow_all, BlockId}

-- When a block finished: later ones rank higher, and what has not finished ranks 0.
unfoldable pub rank : List BlockId → BlockId → ℕ
rank [] id = 0
rank (x ∷ xs) id = if id == x then suc (length xs) else rank xs id

pub rank-le : (xs : List BlockId) (id : BlockId) → rank xs id ≤ length xs
unfolding rank
rank-le [] id = omega arith
rank-le (x ∷ xs) id = ground (arith, rank-le xs id)

module _ (next : BlockId → List BlockId) where
  -- Every edge out of a finished block goes back, or to a block that finished before.
  abbrev pub IsSettled : Dfs → BlockId → BlockId → Type 0
  IsSettled s u v =
      (contains s.found (u, v) ≡ true)
      ⊎ (contains s.finished v ≡ true) × (rank s.finished v < rank s.finished u)

  pub record Inv (s : Dfs) : Type 0 where
    pub apart : (x : BlockId) → contains s.on_path x ≡ true → contains s.finished x ≡ false
    pub settled : (u v : BlockId) → contains s.finished u ≡ true → Memᴰ v (next u) → IsSettled s u v
    pub backward :
        (u v : BlockId)
        → contains s.found (u, v) ≡ true
        → Memᴰ v (next u)
          × Reaches next (v ∷ []) u
          × ((contains s.on_path v ≡ true) ⊎ (contains s.finished v ≡ true))

  -- What a step from `s` to `t` keeps.
  pub record Grows (s t : Dfs) : Type 0 where
    pub path : t.on_path ≡ s.on_path
    pub found_kept : (e : BlockId × BlockId) → contains s.found e ≡ true → contains t.found e ≡ true
    pub finished_kept : (x : BlockId) → contains s.finished x ≡ true → contains t.finished x ≡ true

  Grows-refl : (s : Dfs) → Grows s s
  Grows-refl s = record { path = refl; found_kept = λ e h. h; finished_kept = λ x h. h }

  pub Grows-trans : {s t u : Dfs} → Grows s t → Grows t u → Grows s u
  Grows-trans g h = record {
    path = h.path ∙ g.path;
    found_kept = λ e m. h.found_kept e (g.found_kept e m);
    finished_kept = λ x m. h.finished_kept x (g.finished_kept x m);
  }

  -- Every block of the path leads to `id`.
  abbrev pub LeadsTo : Dfs → BlockId → Type 0
  LeadsTo s id = (x : BlockId) → contains s.on_path x ≡ true → Reaches next (x ∷ []) id

  abbrev pub Handled : Dfs → BlockId → BlockId → Type 0
  Handled s id v = (contains s.found (id, v) ≡ true) ⊎ (contains s.finished v ≡ true)

  Handled-Grows : {s t : Dfs} (id v : BlockId) → Grows s t → Handled s id v → Handled t id v
  Handled-Grows id v g (inl m) = inl (g.found_kept (id, v) m)
  Handled-Grows id v g (inr m) = inr (g.finished_kept v m)

  -- The outcome of a visit of `id`.
  pub record Visited (s : Dfs) (id : BlockId) (t : Dfs) : Type 0 where
    pub inv : Inv t
    pub grows : Grows s t
    pub done : contains t.finished id ≡ true

  module _ (id t : BlockId) (s : Dfs) (h : Inv s) where
    -- The step for a successor on the path.
    follow_back :
        contains s.on_path t ≡ true
        → LeadsTo s id
        → Memᴰ t (next id)
        → Inv (record s { found = add (id, t) s.found })
    follow_back on leads m = record {
      apart = h.apart;
      settled = λ u v f e. ground (arith, h.settled u v f e, contains-add (id, t) (u, v) s.found);
      backward = λ u v f. elim (Bool-cases (◌==◌ {A = BlockId × BlockId} (u, v) (id, t))) [
        | inl same ↦ back u v ((==_iff (u, v) (id, t)).0 same)
        | inr other ↦ h.backward u v (rw (contains-add (id, t) (u, v) s.found, other) at f)
      ];
    }
      where
        back :
            (u v : BlockId)
            → ◌≡◌ {A = BlockId × BlockId} (u, v) (id, t)
            → Memᴰ v (next u)
              × Reaches next (v ∷ []) u
              × ((contains s.on_path v ≡ true) ⊎ (contains s.finished v ≡ true))
        back u v e =
            subst
              (λ (p : BlockId × BlockId).
                Memᴰ p.1 (next p.0)
                × Reaches next (p.1 ∷ []) p.0
                × ((contains s.on_path p.1 ≡ true) ⊎ (contains s.finished p.1 ≡ true)))
              (sym e) (m, leads t on, inl on)

    leads_on : LeadsTo s id → Memᴰ t (next id) → LeadsTo s t
    leads_on leads m x on = step (leads x on) m

  module _ (nodes : List BlockId)
      (closed : (a b : BlockId) → Memᴰ a nodes → Memᴰ b (next a) → Memᴰ b nodes) where
    -- The blocks that are not on the path: as many calls may still nest.
    abbrev pub room : List BlockId → ℕ
    room path = unseen_edges (λ (x : BlockId). x ∷ []) nodes path

    abbrev pub CanVisit : (BlockId → Dfs → Option Dfs) → ℕ → Type 0
    CanVisit go fuel =
        (t : BlockId) (s : Dfs)
        → Memᴰ t nodes
        → room s.on_path ≤ fuel
        → contains s.on_path t ≡ false
        → contains s.finished t ≡ false
        → LeadsTo s t
        → Inv s
        → (s' : Dfs) × (go t s ≡ some s') × Visited s t s'

    module _ (go : BlockId → Dfs → Option Dfs) (id : BlockId) (known : Memᴰ id nodes) where
      follow_lem :
          (fuel : ℕ) (t : BlockId) (s : Dfs)
          → CanVisit go fuel
          → Memᴰ t (next id)
          → room s.on_path ≤ fuel
          → LeadsTo s id
          → Inv s
          → (s' : Dfs) × (follow go id t s ≡ some s') × Inv s' × Grows s s' × Handled s' id t
      unfolding follow
      follow_lem fuel t s can m r leads h = elim (Bool-cases (contains s.on_path t)) [
        | inl on ↦ (
          record s { found = add (id, t) s.found },
          rw on,
          follow_back id t s h on leads m,
          record {
            path = refl;
            found_kept = λ e f. ground (arith, contains-add (id, t) e s.found);
            finished_kept = λ x f. f;
          },
          inl (
              rw (contains-add (id, t) (id, t) s.found, ==_refl {A = BlockId × BlockId} (id, t))
                refl),
        )
        | inr off ↦ elim (Bool-cases (contains s.finished t)) [
          | inl done ↦ (s, rw (off, done), h, Grows-refl s, inr done)
          | inr fresh ↦
              let (s', e, v) =
                can t s (closed id t known m) r off fresh (leads_on id t s h leads m) h in
              (s', rw (off, fresh) e, v.inv, v.grows, inr v.done)
        ]
      ]

      pub follow_all_lem :
          (fuel : ℕ) (more : List BlockId) (s : Dfs)
          → CanVisit go fuel
          → ((v : BlockId) → Memᴰ v more → Memᴰ v (next id))
          → room s.on_path ≤ fuel
          → LeadsTo s id
          → Inv s
          → (s' : Dfs) × (follow_all go id more s ≡ some s')
            × Inv s'
            × Grows s s'
            × ((v : BlockId) → Memᴰ v more → Handled s' id v)
      unfolding follow_all
      follow_all_lem fuel [] s can sub r leads h =
          (s, refl, h, Grows-refl s, λ v m. absurd (Memᴰ-nil m))
      follow_all_lem fuel (t ∷ more) s can sub r leads h =
          let (s₁, e₁, h₁, g₁, d₁) = follow_lem fuel t s can (sub t (Memᴰ.head refl)) r leads h in
          let (s₂, e₂, h₂, g₂, d₂) =
            follow_all_lem fuel more s₁ can (λ v m. sub v (Memᴰ.tail m)) (rw g₁.path r)
              (λ x on. leads x (rw g₁.path at on)) h₁ in
          (
            s₂,
            rw (e₁, follow_all) e₂,
            h₂,
            Grows-trans g₁ g₂,
            λ v m. ⊎_elim (λ p. rw p (Handled-Grows id t g₂ d₁)) (d₂ v) ((Memᴰ-cons v t more).0 m),
          )
