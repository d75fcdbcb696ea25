-- ===== src/Dataflow/Solver/Stable.antt =====
-- When the solver stops, every edge holds the state that its source block still sends.
use coretrace_python_analyze.Cfg.{BlockId}
use coretrace_python_analyze.Dataflow.Solver.{
  Incoming, Problem, Solving, arriving, send, send_all, edge, process,
}
use coretrace_python_analyze.Dataflow.Solver.Send.{settled, edge-send, arriving-send, queued-send}
use coretrace_python_analyze.Base.{
  ==_iff, ==_refl, Bool-cases, Dict, IsDict, List, Memᴰ, Memᴰ-cons, Memᴰ-nil, Option, [], arith,
  contains, contains-remove, false, inl, inr, keys, list_eq, nat_eq, none, option_eq, pair_eq, refl,
  remove, some, string_eq, subst, true, ◌==◌, ◌∙◌, ◌∷◌, ◌≡◌, ◌≢◌, ◌⊎◌,
}

-- What the solver relies on of a problem: `==` holds of a state and itself, and a transfer returns a
-- mapping, which has each target once.
pub record IsLawful {S : Type 0} (p : Problem S) : Type 0 where
  pub same_refl : (a : S) → p.same a a ≡ true
  pub flow-IsDict : (b : BlockId) (m : Incoming S) → IsDict (p.flow b m)

module _ {S : Type 0} (p : Problem S) where
  -- The edge from `b` holds the state of `e`, up to `==`.
  abbrev pub Recorded : Dict BlockId (Incoming S) → BlockId → BlockId × S → Type 0
  Recorded inc b e = (held : S) × (edge p inc b e.0 ≡ some held) × (p.same held e.1 ≡ true)

  -- All that a reached block sends is recorded.
  abbrev pub IsStable : Dict BlockId (Incoming S) → BlockId → Type 0
  IsStable inc b =
      arriving inc b ≢ []
      → (e : BlockId × S) → Memᴰ e (p.flow b (arriving inc b))
      → Recorded inc b e

  -- Every block is queued or stable.
  abbrev pub Settling : Solving S → Type 0
  Settling s = (c : BlockId) → (contains s.queued c ≡ true) ⊎ IsStable s.incoming c

module _ {S : Type 0} (p : Problem S) (lawful : IsLawful p) where
  open lawful use {same_refl, flow-IsDict}

  same-settled : (o : Option S) (state : S) → p.same (settled p o state) state ≡ true
  same-settled none state = same_refl state
  same-settled (some old) state = elim (Bool-cases (p.same old state)) [
    | inl same ↦ rw same same
    | inr other ↦ rw other (same_refl state)
  ]

  Recorded-send :
      (block : BlockId) (e : BlockId × S) (s : Solving S)
      → Recorded p (send p block e s).incoming block e
  Recorded-send block (t, state) s = (
    settled p (edge p s.incoming block t) state,
    rw (edge-send p block t block t state s, ==_refl t, ==_refl block),
    same-settled (edge p s.incoming block t) state,
  )

  edge-send_other :
      (block b t : BlockId) (e : BlockId × S) (s : Solving S)
      → (t ≡ e.0 → b ≡ block → ⊥)
      → edge p (send p block e s).incoming b t ≡ edge p s.incoming b t
  edge-send_other block b t (target, state) s ne =
      ground (arith, edge-send p block target b t state s, ==_iff t target, ==_iff b block)

  pub edge-send_all_other :
      (block b t : BlockId) (outs : Incoming S) (s : Solving S)
      → (contains (keys outs) t ≡ true → b ≡ block → ⊥)
      → edge p (send_all p block outs s).incoming b t ≡ edge p s.incoming b t
  unfolding send_all contains
  edge-send_all_other block b t [] s ne = refl
  edge-send_all_other block b t (e ∷ more) s ne =
      edge-send_all_other block b t more (send p block e s) (λ m q. ne (ground arith) q)
      ∙ edge-send_other block b t e s (λ q r. ne (ground (arith, ==_iff t e.0)) r)

  Recorded-cast :
      (inc inc' : Dict BlockId (Incoming S)) (b : BlockId) (e : BlockId × S)
      → edge p inc' b e.0 ≡ edge p inc b e.0
      → Recorded p inc b e
      → Recorded p inc' b e
  Recorded-cast inc inc' b e q (held, there, same) = (held, q ∙ there, same)

  -- All that a round sends is recorded at its end.
  Recorded-send_all :
      (block : BlockId) (outs : Incoming S) (s : Solving S)
      → IsDict outs
      → (e : BlockId × S) → Memᴰ e outs
      → Recorded p (send_all p block outs s).incoming block e
  unfolding send_all
  Recorded-send_all block [] s d e m = absurd (Memᴰ-nil m)
  Recorded-send_all block (x ∷ more) s d e m = elim ((Memᴰ-cons e x more).0 m) [
    | inr later ↦ Recorded-send_all block more (send p block x s) d.1 e later
    | inl now ↦ rw now (
        Recorded-cast _ _ block x
          (edge-send_all_other block block x.0 more (send p block x s) (λ c q. cc (c, d.0)))
          (Recorded-send block x s))
  ]

  queued-send_all :
      (block c : BlockId) (outs : Incoming S) (s : Solving S)
      → contains s.queued c ≡ true
      → contains (send_all p block outs s).queued c ≡ true
  unfolding send_all
  queued-send_all block c [] s h = h
  queued-send_all block c ((t, state) ∷ more) s h =
      queued-send_all block c more (send p block (t, state) s) (queued-send p block t c state s h)

  arriving-send_all :
      (block c : BlockId) (outs : Incoming S) (s : Solving S)
      → (arriving (send_all p block outs s).incoming c ≡ arriving s.incoming c)
        ⊎ (contains (send_all p block outs s).queued c ≡ true)
  unfolding send_all
  arriving-send_all block c [] s = inl refl
  arriving-send_all block c ((t, state) ∷ more) s =
      let s₁ = send p block (t, state) s in
      elim (arriving-send p block t c state s) [
        | inr queued ↦ inr (queued-send_all block c more s₁ queued)
        | inl same ↦ elim (arriving-send_all block c more s₁) [
          | inl kept ↦ inl (kept ∙ same)
          | inr queued ↦ inr queued
        ]
      ]

  -- What the round of a block leaves of another.
  IsStable-process_other :
      (block c : BlockId) (outs : Incoming S) (s : Solving S)
      → c ≢ block
      → (contains s.queued c ≡ true) ⊎ IsStable p s.incoming c
      → (contains (send_all p block outs s).queued c ≡ true)
        ⊎ IsStable p (send_all p block outs s).incoming c
  IsStable-process_other block c outs s ne (inl queued) =
      inl (queued-send_all block c outs s queued)
  IsStable-process_other block c outs s ne (inr stable) = elim (arriving-send_all block c outs s) [
    | inr queued ↦ inl queued
    | inl same ↦ inr (λ there e m.
        Recorded-cast _ _ c e (edge-send_all_other block c e.0 outs s (λ _ q. ne q))
          (stable (λ q. there (same ∙ q)) e (subst (λ x. Memᴰ e (p.flow c x)) same m)))
  ]

  pub process-Settling :
      (block : BlockId) (rest : List BlockId) (s : Solving S)
      → Settling p s
      → Settling p (process p block rest s)
  unfolding process
  process-Settling block rest s h c = elim (Bool-cases (c == block)) [
    | inl same ↦ rw ((==_iff c block).0 same) (elim (arriving-send_all block block outs s₀) [
      | inr queued ↦ inl queued
      | inl kept ↦ inr (λ there e m.
          Recorded-send_all block outs s₀ (flow-IsDict block (arriving s.incoming block)) e
            (subst (λ x. Memᴰ e (p.flow block x)) kept m))
    ])
    | inr other ↦
        IsStable-process_other block c outs s₀ (λ q. cc (other, (==_iff c block).1 q))
          (before other (h c))
  ]
    where
      outs : Incoming S
      outs = p.flow block (arriving s.incoming block)

      s₀ : Solving S
      s₀ = record s { worklist = rest; queued = remove block s.queued }

      before :
          (c == block) ≡ false
          → (contains s.queued c ≡ true) ⊎ IsStable p s.incoming c
          → (contains (remove block s.queued) c ≡ true) ⊎ IsStable p s.incoming c
      before other (inl queued) = inl (rw (contains-remove block c s.queued, other, queued))
      before other (inr stable) = inr stable
