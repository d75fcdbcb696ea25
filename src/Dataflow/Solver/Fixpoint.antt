-- ===== src/Dataflow/Solver/Fixpoint.antt =====
-- The solver's result is a fixpoint, and it describes every run of a program that the transfer
-- describes step by step.
use coretrace_python_analyze.Cfg.{BlockId}
use coretrace_python_analyze.Dataflow.Solver.{
  Incoming, Problem, Graph, Solving, arriving, send, send_all, enqueue, process, run, pop_first,
  begin, starts, solve, entry_key,
}
use coretrace_python_analyze.Dataflow.Solver.Stable.{IsLawful, IsStable, Settling, process-Settling}
use coretrace_python_analyze.Base.{
  List, List-cases, [], ap, arith, contains, contains-add, contains-append, contains-remove, inl,
  inr, list_eq, nat_eq, option_eq, pair_eq, refl, remove, some, string_eq, suc, true, zero, ℕ, ◌==◌,
  ◌||◌, ◌∷◌, ◌≡◌, Bool-cases, get, get_or, if◌then◌else◌, map, none,
}

pub contains-pop_first :
    (order : List BlockId) (b c : BlockId) (rest : List BlockId)
    → contains (b ∷ rest) c
      ≡ (c == (pop_first order b rest).0 || contains (pop_first order b rest).1 c)
unfolding pop_first contains
contains-pop_first order b c [] = refl
contains-pop_first order b c (x ∷ rest) = ground (arith, contains-pop_first order x c rest)

module _ {S : Type 0} (p : Problem S) where
  -- Whatever is queued is on the worklist.
  abbrev IsListed : Solving S → Type 0
  IsListed s = (c : BlockId) → contains s.queued c ≡ true → contains s.worklist c ≡ true

  send-IsListed :
      (block : BlockId) (e : BlockId × S) (s : Solving S) → IsListed s → IsListed (send p block e s)
  unfolding send enqueue
  send-IsListed block (t, state) s h c = ground (
    arith,
    h c,
    contains-add t c s.queued,
    contains-append s.worklist (t ∷ []) c,
    contains_single,
  )
    where
      contains_single : contains (t ∷ []) c ≡ (c == t)
      contains_single = unfold contains in ground arith

  send_all-IsListed :
      (block : BlockId) (outs : Incoming S) (s : Solving S)
      → IsListed s
      → IsListed (send_all p block outs s)
  unfolding send_all
  send_all-IsListed block [] s h = h
  send_all-IsListed block (e ∷ more) s h =
      send_all-IsListed block more (send p block e s) (send-IsListed block e s h)

  process-IsListed :
      (order : List BlockId) (b : BlockId) (more : List BlockId) (s : Solving S)
      → s.worklist ≡ b ∷ more
      → IsListed s
      → IsListed (process p (pop_first order b more).0 (pop_first order b more).1 s)
  unfolding process
  process-IsListed order b more s e h =
      let (block, rest) = pop_first order b more in
      send_all-IsListed block (p.flow block (arriving s.incoming block))
        (record s { worklist = rest; queued = remove block s.queued })
        (λ c q. ground (
          arith,
          h c,
          contains-remove block c s.queued,
          contains-pop_first order b c more,
          ap (λ l. contains l c) e,
        ))

  -- Where a round keeps `P`, so does the loop, and it ends with nothing listed.
  pub run_rule :
      (P : Solving S → Type 0) (order : List BlockId)
      → ((b : BlockId) (more : List BlockId) (s : Solving S)
          → s.worklist ≡ b ∷ more
          → P s
          → P (process p (pop_first order b more).0 (pop_first order b more).1 s))
      → (fuel : ℕ) (s t : Solving S) → P s
      → run p order fuel s ≡ some t
      → P t × (t.worklist ≡ [])
  unfolding run
  run_rule P order keep zero s t h r = ground arith
  run_rule P order keep (suc fuel) s t h r = elim (List-cases s.worklist) [
    | inl empty ↦ ground arith
    | inr (b, more, e) ↦
        run_rule P order keep fuel
          (process p (pop_first order b more).0 (pop_first order b more).1 s) t (keep b more s e h)
          (rw (e, run) at r)
  ]

  pub arriving-begin :
      (bs : List BlockId) (c : BlockId) (m : Incoming S)
      → get c (map (λ b. (b, m)) bs) ≡ (if contains bs c then some m else none)
  unfolding get contains
  arriving-begin [] c m = refl
  arriving-begin (b ∷ bs) c m = ground (arith, arriving-begin bs c m)

  begin-Settling : (g : Graph) → Settling p (begin p g)
  unfolding begin get_or
  begin-Settling g c = elim (Bool-cases (contains (starts p g) c)) [
    | inl there ↦ inl there
    | inr missing ↦ inr (λ there e m.
        absurd
          (there (ground (arith, arriving-begin (starts p g) c ((entry_key, p.initial) ∷ [])))))
  ]

  begin-IsListed : (g : Graph) → IsListed (begin p g)
  unfolding begin
  begin-IsListed g c h = h

module _ {S : Type 0} (p : Problem S) (lawful : IsLawful p) (g : Graph) (fuel : ℕ) {s : Solving S}
    (solved : solve p fuel g ≡ some s) where
  -- Where the solver returns on a lawful problem, every block that was reached is stable: the state
  -- that its transfer sends along an edge, from the states that arrive now, is the state that the
  -- edge holds.
  pub solve-IsStable : (b : BlockId) → IsStable p s.incoming b
  unfolding solve
  solve-IsStable b =
      let (settling, listed) = kept.0 in
      elim (settling b) [
        | inr stable ↦ stable
        | inl queued ↦ absurd (nothing_listed (rw kept.1 at (listed b queued)))
      ]
    where
      kept : (Settling p s × IsListed p s) × (s.worklist ≡ [])
      kept =
          run_rule p (λ t. Settling p t × IsListed p t) g.blocks
            (λ b more t e h. (
              process-Settling p lawful (pop_first g.blocks b more).0 (pop_first g.blocks b more).1
                  t h.0,
              process-IsListed p g.blocks b more t e h.1,
            ))
            fuel (begin p g) s (begin-Settling p g, begin-IsListed p g) solved

      nothing_listed : contains [] b ≡ true → ⊥
      nothing_listed q = unfold contains in cc q
