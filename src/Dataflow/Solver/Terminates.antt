-- ===== src/Dataflow/Solver/Terminates.antt =====
-- On an ascending problem the solver returns.
use mathlib.Core.Option.{some-injective}
use mathlib.Core.List.Memᴰ
use coretrace_python_analyze.Cfg.{BlockId}
use coretrace_python_analyze.Dataflow.Solver.{
  Incoming, Problem, Graph, Solving, arriving, send, send_all, enqueue, edge, process, run,
  pop_first, begin, starts, solve, entry_key,
}
use coretrace_python_analyze.Dataflow.Solver.Stable.{IsLawful, edge-send_all_other}
use coretrace_python_analyze.Dataflow.Solver.Fixpoint.{contains-pop_first, arriving-begin}
use coretrace_python_analyze.Dataflow.Solver.Ascending.{
  IsAscending, MapBelow, total, cell, IsBelow, IsOutgoing, Ascending, edge-raised, IsOutgoing-send,
  work, work-send,
}
use coretrace_python_analyze.Base.{
  ==_iff, List, Memᴰ, Memᴰ-append, Memᴰ-cons, Memᴰ-nil, [], arith, contains, contains-append,
  contains_iff, get, inl, inr, length, length-append, length-map, list_eq, map, nat_eq, option_eq,
  pair_eq, refl, some, string_eq, subst, sym, true, ℕ, ◌*◌, ◌++◌, ◌∙◌, ◌∷◌, ◌≡◌, ◌≤◌, ==_refl,
  Bool-cases, List-cases, ap, get_of_Memᴰ, key_of_get, keys, remove, suc, zero, ◌==◌, ◌||◌, ◌≢◌,
  Option, get_or, none, ◌+◌,
}

pairs_of : List BlockId → List BlockId → List (BlockId × BlockId)
pairs_of [] bs = []
pairs_of (a ∷ as_) bs = map (λ b. (a, b)) bs ++ pairs_of as_ bs

mem-pairs_of :
    (a b : BlockId) (as_ bs : List BlockId) → Memᴰ a as_ → Memᴰ b bs → Memᴰ (a, b) (pairs_of as_ bs)
unfolding pairs_of
mem-pairs_of a b [] bs m n = absurd (Memᴰ-nil m)
mem-pairs_of a b (x ∷ as_) bs m n = elim ((Memᴰ-cons a x as_).0 m) [
  | inl now ↦
      (Memᴰ-append (a, b) (map (λ y. (x, y)) bs) (pairs_of as_ bs)).1
        (inl (rw now (Memᴰ.map (λ y. (x, y)) n)))
  | inr later ↦
      (Memᴰ-append (a, b) (map (λ y. (x, y)) bs) (pairs_of as_ bs)).1
        (inr (mem-pairs_of a b as_ bs later n))
]

length-pairs_of : (as_ bs : List BlockId) → length (pairs_of as_ bs) ≡ length as_ * length bs
unfolding pairs_of
length-pairs_of [] bs = omega arith
length-pairs_of (a ∷ as_) bs = grind (
  arith,
  length-append (map (λ b. (a, b)) bs) (pairs_of as_ bs),
  length-map {B = BlockId × BlockId} (λ b. (a, b)) bs,
  length-pairs_of as_ bs,
)

module _ {S : Type 0} (p : Problem S) (lawful : IsLawful p) (nodes : List BlockId)
    (Below : S → S → Type 0) (height : S → ℕ) (limit : ℕ)
    (up : IsAscending p nodes Below height limit) where
  abbrev pairs : List (BlockId × BlockId)
  pairs = pairs_of nodes nodes

  abbrev left_to_do : Solving S → ℕ
  left_to_do = work p lawful nodes Below height limit up pairs

  -- What the sends of one round keep, for the sends `more` of the transfer `outs`.
  record Round (block : BlockId) (outs : Incoming S) (s t : Solving S) : Type 0 where
    outgoing : IsOutgoing p lawful nodes Below height limit up t.incoming block outs
    raised :
        (b c : BlockId) (a : S)
        → edge p s.incoming b c ≡ some a
        → (a' : S) × (edge p t.incoming b c ≡ some a') × Below a a'
    less : left_to_do t ≤ left_to_do s
    known :
        ((c : BlockId) → contains s.worklist c ≡ true → contains nodes c ≡ true)
        → (c : BlockId) → contains t.worklist c ≡ true
        → contains nodes c ≡ true

  send_all-Round :
      (block : BlockId) (outs more : Incoming S) (s : Solving S)
      → contains nodes block ≡ true
      → ((t : BlockId) (a : S)
          → Memᴰ (t, a) more
          → (get t outs ≡ some a) × (contains nodes t ≡ true))
      → IsOutgoing p lawful nodes Below height limit up s.incoming block outs
      → Round block outs s (send_all p block more s)
  unfolding send_all
  send_all-Round block outs [] s n sub h = record {
    outgoing = h;
    raised = λ b c a e. (a, e, up.below_refl a);
    less = omega arith;
    known = λ k. k;
  }
  send_all-Round block outs ((t, state) ∷ more) s n sub h =
      let (there, inside) = sub t state (Memᴰ.head refl) in
      let s₁ = send p block (t, state) s in
      let out₁ =
        IsOutgoing-send p lawful nodes Below height limit up block t state s (fits there) outs there
          h in
      let later = send_all-Round block outs more s₁ n (λ c a m. sub c a (Memᴰ.tail m)) out₁ in
      record {
        outgoing = later.outgoing;
        raised = λ b c a e.
            let (a₁, e₁, l₁) =
              edge-raised p lawful nodes Below height limit up block t state s (fits there) b c a
                e in
            let (a₂, e₂, l₂) = later.raised b c a₁ e₁ in (a₂, e₂, up.below_trans a a₁ a₂ l₁ l₂);
        less = omega (
          arith,
          later.less,
          work-send p lawful nodes Below height limit up pairs block t state s (fits there) (
              mem-pairs_of block t nodes nodes ((contains_iff nodes block).0 n)
                ((contains_iff nodes t).0 inside)),
        );
        known = λ k. later.known (known_send inside k);
      }
    where
      fits :
          get t outs ≡ some state
          → IsBelow p lawful nodes Below height limit up (edge p s.incoming block t) state
      fits there a e =
          let (a', q, l) = h t a e in subst (Below a) (some-injective _ _ (sym q ∙ there)) l

      known_send :
          contains nodes t ≡ true
          → ((c : BlockId) → contains s.worklist c ≡ true → contains nodes c ≡ true)
          → (c : BlockId) → contains (send p block (t, state) s).worklist c ≡ true
          → contains nodes c ≡ true
      known_send inside k c =
          unfold send enqueue contains in
          ground (arith, k c, contains-append s.worklist (t ∷ []) c, ==_iff c t)

  length-pop_first :
      (order : List BlockId) (b : BlockId) (rest : List BlockId)
      → length (pop_first order b rest).1 ≡ length rest
  unfolding pop_first
  length-pop_first order b [] = refl
  length-pop_first order b (x ∷ rest) = ground (arith, length-pop_first order x rest)

  -- The blocks that wait are blocks of the graph, and every edge lies below what is sent along it.
  record Rising (s : Solving S) : Type 0 where
    known : (c : BlockId) → contains s.worklist c ≡ true → contains nodes c ≡ true
    ascending : Ascending p lawful nodes Below height limit up s.incoming

  module _ (order : List BlockId) (b : BlockId) (more : List BlockId) (s : Solving S)
      (e : s.worklist ≡ b ∷ more) (h : Rising s) where
    abbrev block : BlockId
    block = (pop_first order b more).0

    abbrev outs : Incoming S
    outs = p.flow block (arriving s.incoming block)

    abbrev s₀ : Solving S
    s₀ = record s { worklist = (pop_first order b more).1; queued = remove block s.queued }

    split :
        (c : BlockId)
        → contains s.worklist c ≡ (c == block || contains (pop_first order b more).1 c)
    split c = ap (λ l. contains l c) e ∙ contains-pop_first order b c more

    block_known : contains nodes block ≡ true
    block_known = h.known block (split block ∙ rw ==_refl)

    block_named : block ≢ entry_key
    block_named q =
        let c : contains nodes entry_key ≡ true = rw q at block_known in cc (c, up.entry_apart)

    round : Round block outs s₀ (send_all p block outs s₀)
    round =
        send_all-Round block outs outs s₀ block_known
          (λ t a m.
            let there =
              get_of_Memᴰ t a outs (lawful.flow-IsDict block (arriving s.incoming block)) m in
            (
              there,
              up.flow_known block t (arriving s.incoming block)
                  ((contains_iff (keys outs) t).1 (key_of_get t a outs there)),
            ))
          (h.ascending block block_named)

    process-less : suc (left_to_do (process p block (pop_first order b more).1 s)) ≤ left_to_do s
    unfolding process
    process-less = omega (arith, round.less, length-pop_first order b more, ap length e)

    arriving-raised :
        (c : BlockId)
        → MapBelow Below (arriving s.incoming c) (arriving (send_all p block outs s₀).incoming c)
    unfolding edge
    arriving-raised c k a q = round.raised k c a q

    process-Rising : Rising (process p block (pop_first order b more).1 s)
    unfolding process
    process-Rising = record {
      known = round.known (λ c q. h.known c (split c ∙ rw q (ground arith)));
      ascending = λ c named t a q. elim (Bool-cases (c == block)) [
        | inl same ↦ own ((==_iff c block).0 same) t a q
        | inr other ↦
            let kept =
              edge-send_all_other p lawful block c t outs s₀
                (λ _ r. cc (other, (==_iff c block).1 r)) in
            let (a₁, e₁, l₁) = h.ascending c named t a (sym kept ∙ q) in
            let (a₂, e₂, l₂) = up.flow_monotone c _ _ (arriving-raised c) t a₁ e₁ in
            (a₂, e₂, up.below_trans a a₁ a₂ l₁ l₂)
      ];
    }
      where
        own :
            {c : BlockId}
            → c ≡ block
            → IsOutgoing p lawful nodes Below height limit up
                (send_all p block outs s₀).incoming
                c
                (p.flow c (arriving (send_all p block outs s₀).incoming c))
        own same = rw same λ t a q.
            let (a₁, e₁, l₁) = round.outgoing t a q in
            let (a₂, e₂, l₂) = up.flow_monotone block _ _ (arriving-raised block) t a₁ e₁ in
            (a₂, e₂, up.below_trans a a₁ a₂ l₁ l₂)

  run-suc :
      (order : List BlockId) (fuel : ℕ) (s : Solving S) (b : BlockId) (more : List BlockId)
      → s.worklist ≡ b ∷ more
      → run p order (suc fuel) s
        ≡ run p order fuel (process p (pop_first order b more).0 (pop_first order b more).1 s)
  unfolding run
  run-suc order fuel s b more e = simp (e, run)

  run_total :
      (order : List BlockId) (fuel : ℕ) (s : Solving S)
      → Rising s
      → left_to_do s ≤ fuel
      → (t : Solving S) × (run p order fuel s ≡ some t)
  unfolding run
  run_total order zero s h l = elim (List-cases s.worklist) [
    | inl empty ↦ (s, simp (empty, run))
    | inr (b, more, e) ↦ absurd (omega (arith, ap length e))
  ]
  run_total order (suc fuel) s h l = elim (List-cases s.worklist) [
    | inl empty ↦ (s, simp (empty, run))
    | inr (b, more, e) ↦
        let (t, r) =
          run_total order fuel (process p (pop_first order b more).0 (pop_first order b more).1 s)
            (process-Rising order b more s e h) (omega (arith, process-less order b more s e h)) in
        (t, run-suc order fuel s b more e ∙ r)
  ]

  total-const :
      {A : Type 0} (f : A → ℕ) (n : ℕ) (xs : List A)
      → ((x : A) → f x ≤ n)
      → total f xs ≤ n * length xs
  total-const f n [] h = omega arith
  total-const f n (x ∷ xs) h = grind (arith, h x, total-const f n xs h)

  cell-le : (o : Option S) → cell p lawful nodes Below height limit up o ≤ suc limit
  cell-le none = omega arith
  cell-le (some a) = omega arith

  edge-begin : (g : Graph) (b t : BlockId) → b ≢ entry_key → edge p (begin p g).incoming b t ≡ none
  unfolding edge begin get_or get
  edge-begin g b t ne =
      ground
        (arith, arriving-begin p (starts p g) t ((entry_key, p.initial) ∷ []), ==_iff b entry_key)

  begin-Rising :
      (g : Graph)
      → ((c : BlockId) → contains (starts p g) c ≡ true → contains nodes c ≡ true)
      → Rising (begin p g)
  unfolding begin
  begin-Rising g inside = record {
    known = λ c q. inside c q;
    ascending = λ b named t a q. absurd (cc (edge-begin g b t named, q));
  }

  -- On a lawful problem of finite height with a monotone transfer, over blocks that hold the
  -- starts, the solver returns: so many rounds are enough, twice the height and one for each pair
  -- of blocks, and one for each start.
  pub solve_returns :
      (g : Graph) (fuel : ℕ)
      → ((c : BlockId) → contains (starts p g) c ≡ true → contains nodes c ≡ true)
      → 2 * (suc limit * (length nodes * length nodes)) + length (starts p g) ≤ fuel
      → (s : Solving S) × (solve p fuel g ≡ some s)
  unfolding solve begin
  solve_returns g fuel inside enough = run_total g.blocks fuel (begin p g) (begin-Rising g inside) (
      omega (
        arith,
        total-const
            (λ (q : BlockId × BlockId).
              cell p lawful nodes Below height limit up (edge p (begin p g).incoming q.0 q.1))
            (suc limit) pairs (λ q. cell-le (edge p (begin p g).incoming q.0 q.1)),
        ap (λ n. suc limit * n) (length-pairs_of nodes nodes),
      ))
