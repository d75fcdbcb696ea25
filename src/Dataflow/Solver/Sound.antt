-- ===== src/Dataflow/Solver/Sound.antt =====
-- The solver's result describes every run of a program that the transfer describes step by step.
use mathlib.Core.List.Memᴰ
use coretrace_python_analyze.Cfg.{BlockId}
use coretrace_python_analyze.Dataflow.Solver.{
  Incoming, Problem, Graph, Solving, arriving, send, send_all, enqueue, edge, process, pop_first,
  begin, starts, solve, entry_key, state, join_all,
}
use coretrace_python_analyze.Dataflow.Solver.Stable.{IsLawful, edge-send_all_other}
use coretrace_python_analyze.Dataflow.Solver.Fixpoint.{
  run_rule, contains-pop_first, solve-IsStable, arriving-begin,
}
use coretrace_python_analyze.Base.{
  ==_iff, List, [], arith, contains, contains-append, false, get, keys, list_eq, nat_eq, option_eq,
  pair_eq, remove, some, string_eq, true, ◌∙◌, ◌∷◌, ◌≡◌, Memᴰ, Memᴰ-cons, Memᴰ-nil, Memᴰ-of_get,
  get_or, inl, inr, refl, subst, ℕ, ◌≢◌, Bool-cases, Dict, map, none, ◌==◌,
}

-- A program's own steps, between a block with a value of `C` and the next.
pub record Steps (C : Type 0) : Type 1 where
  pub Next : BlockId → C → BlockId → C → Type 0

-- The states describe the values: a transfer follows each step, and a join loses nothing.
pub record IsSound {S C : Type 0} (p : Problem S) (steps : Steps C) (Describes : S → C → Type 0)
    : Type 0 where
  pub transfer :
      (b t source : BlockId) (m : Incoming S) (a : S) (c c' : C)
      → get source m ≡ some a
      → Describes a c
      → steps.Next b c t c'
      → (a' : S) × (get t (p.flow b m) ≡ some a') × Describes a' c'
  pub same : (a a' : S) (c : C) → p.same a a' ≡ true → Describes a' c → Describes a c
  pub join_left : (a a' : S) (c : C) → Describes a c → Describes (p.join a a') c
  pub join_right : (a a' : S) (c : C) → Describes a' c → Describes (p.join a a') c

-- The values with which a run that starts within the initial state enters a block.
pub data Enters {S C : Type 0} (p : Problem S) (g : Graph) (steps : Steps C)
    (Describes : S → C → Type 0) : BlockId → C → Type 0 where
  enter :
      (b : BlockId) (c : C)
      → contains (starts p g) b ≡ true
      → Describes p.initial c
      → Enters p g steps Describes b c
  go :
      (b t : BlockId) (c c' : C)
      → Enters p g steps Describes b c
      → steps.Next b c t c'
      → Enters p g steps Describes t c'

-- No block of the graph is called `<entry>`, the key of the initial state.
pub record IsNamed {S : Type 0} (p : Problem S) (g : Graph) : Type 0 where
  pub starts_named : contains (starts p g) entry_key ≡ false
  pub flow_named : (b : BlockId) (m : Incoming S) → contains (keys (p.flow b m)) entry_key ≡ false

module _ {S : Type 0} (p : Problem S) (lawful : IsLawful p) (g : Graph) (named : IsNamed p g) where
  -- The initial state still enters each start.
  record Started (s : Solving S) : Type 0 where
    unlisted : contains s.worklist entry_key ≡ false
    initial_there :
        (b : BlockId)
        → contains (starts p g) b ≡ true
        → edge p s.incoming entry_key b ≡ some p.initial

  worklist-send_all :
      (block : BlockId) (outs : Incoming S) (s : Solving S)
      → contains (keys outs) entry_key ≡ false
      → contains s.worklist entry_key ≡ false
      → contains (send_all p block outs s).worklist entry_key ≡ false
  unfolding send_all
  worklist-send_all block [] s n h = h
  worklist-send_all block ((t, a) ∷ more) s n h =
      worklist-send_all block more (send p block (t, a) s) (unfold contains in ground arith) one
    where
      single : contains (t ∷ []) entry_key ≡ false
      single = unfold contains in ground arith

      one : contains (send p block (t, a) s).worklist entry_key ≡ false
      one =
          unfold send enqueue in
          ground (arith, contains-append s.worklist (t ∷ []) entry_key, single)

  process-Started :
      (order : List BlockId) (b : BlockId) (more : List BlockId) (s : Solving S)
      → s.worklist ≡ b ∷ more
      → Started s
      → Started (process p (pop_first order b more).0 (pop_first order b more).1 s)
  unfolding process
  process-Started order b more s e h =
      let (block, rest) = pop_first order b more in
      let outs = p.flow block (arriving s.incoming block) in
      let s₀ = record s { worklist = rest; queued = remove block s.queued } in
      let split = contains-pop_first order b entry_key more in
      let listed : contains (b ∷ more) entry_key ≡ false = rw e at h.unlisted in
      record {
        unlisted =
            worklist-send_all block outs s₀ (named.flow_named block (arriving s.incoming block))
              (ground (arith, split, listed));
        initial_there = λ t m.
            edge-send_all_other p lawful block entry_key t outs s₀
              (λ _ q. cc (split, listed, (==_iff entry_key block).1 q))
            ∙ h.initial_there t m;
      }

  edge_of_get :
      (inc : Dict BlockId (Incoming S)) (source b : BlockId) (m : Incoming S)
      → get b inc ≡ some m
      → edge p inc source b ≡ get source m
  unfolding edge get_or
  edge_of_get inc source b m e = rw (e, get_or)

  begin-Started : Started (begin p g)
  unfolding begin get
  begin-Started = record {
    unlisted = named.starts_named;
    initial_there = λ b m.
        edge_of_get (begin p g).incoming entry_key b ((entry_key, p.initial) ∷ [])
          (arriving-begin p (starts p g) b ((entry_key, p.initial) ∷ []) ∙ rw m);
  }

  -- The result still has the initial state on each start.
  pub solve-Started :
      (fuel : ℕ) (s : Solving S)
      → solve p fuel g ≡ some s
      → (b : BlockId) → contains (starts p g) b ≡ true
      → edge p s.incoming entry_key b ≡ some p.initial
  unfolding solve
  solve-Started fuel s solved =
      (run_rule p Started g.blocks (λ b more t e h. process-Started g.blocks b more t e h) fuel
        (begin p g) s begin-Started solved).0.initial_there

  join_all-left :
      {C : Type 0} (steps : Steps C) (Describes : S → C → Type 0)
      (sound : IsSound p steps Describes) (a : S) (more : List S) (c : C)
      → Describes a c
      → Describes (join_all p a more) c
  unfolding join_all
  join_all-left steps Describes sound a [] c h = h
  join_all-left steps Describes sound a (x ∷ more) c h =
      join_all-left steps Describes sound (p.join a x) more c (sound.join_left a x c h)

  join_all-mem :
      {C : Type 0} (steps : Steps C) (Describes : S → C → Type 0)
      (sound : IsSound p steps Describes) (first : S) (more : List S) (a : S) (c : C)
      → Memᴰ a more
      → Describes a c
      → Describes (join_all p first more) c
  unfolding join_all
  join_all-mem steps Describes sound first [] a c m h = absurd (Memᴰ-nil m)
  join_all-mem steps Describes sound first (x ∷ more) a c m h = elim ((Memᴰ-cons a x more).0 m) [
    | inl here ↦
        join_all-left steps Describes sound (p.join first x) more c
          (sound.join_right first x c (subst (λ y. Describes y c) here h))
    | inr later ↦ join_all-mem steps Describes sound (p.join first x) more a c later h
  ]

  module _ {C : Type 0} (steps : Steps C) (Describes : S → C → Type 0)
      (sound : IsSound p steps Describes) (fuel : ℕ) (s : Solving S)
      (solved : solve p fuel g ≡ some s) where
    reached_of :
        (inc : Dict BlockId (Incoming S)) (source b : BlockId) {a : S}
        → edge p inc source b ≡ some a
        → arriving inc b ≢ []
    unfolding edge get
    reached_of inc source b e q = let e' = rw q at e in cc e'

    entering :
        {b : BlockId} {c : C}
        → Enters p g steps Describes b c
        → (source : BlockId) × (a : S) × (edge p s.incoming source b ≡ some a) × Describes a c
    unfolding edge
    entering (enter b c m h) = (entry_key, p.initial, solve-Started fuel s solved b m, h)
    entering (go b t c c' before next) =
        let (source, a, there, h) = entering before in
        let (a', sent, h') =
          sound.transfer b t source (arriving s.incoming b) a c c' there h next in
        let (held, recorded, same) =
          solve-IsStable p lawful g fuel solved b (reached_of s.incoming source b there) (t, a')
            (Memᴰ-of_get t a' (p.flow b (arriving s.incoming b)) sent) in
        (b, held, recorded, sound.same held a' c' same h')

    -- For a lawful problem that never names the entry key, whose transfer describes each step of a
    -- program and whose join loses nothing, where the solver returns, every value with which a run
    -- enters a block is described by the state that the solution has for the block, which is there.
    pub solve_sound :
        (b : BlockId) (c : C)
        → Enters p g steps Describes b c
        → (a : S) × (state p s b ≡ some a) × Describes a c
    unfolding state edge get
    solve_sound b c r =
        let (source, a, there, h) = entering r in joined (arriving s.incoming b) source a there h
      where
        joined :
            (m : Incoming S) (source : BlockId) (a : S)
            → get source m ≡ some a
            → Describes a c
            → (x : S) × ((elim m [
              | [] ↦ none
              | (_, first) ∷ more ↦ some (join_all p first (map (λ (e : BlockId × S). e.1) more))
            ])
                ≡ some x)
              × Describes x c
        joined [] source a e h = absurd (cc e)
        joined ((k, first) ∷ more) source a e h =
            let values = map (λ (e : BlockId × S). e.1) more in
            (
              join_all p first values,
              refl,
              elim (Bool-cases (source == k)) [
                | inl same ↦
                    join_all-left steps Describes sound first values c
                      (let q : first ≡ a = ground arith in rw q h)
                | inr other ↦
                    join_all-mem steps Describes sound first values a c
                      (Memᴰ.map (λ (e : BlockId × S). e.1)
                        (Memᴰ-of_get source a more (rw other at e)))
                      h
              ],
            )
