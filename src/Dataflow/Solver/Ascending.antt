-- ===== src/Dataflow/Solver/Ascending.antt =====
-- Problems whose states only rise: one round, and the work that is left after it.
use mathlib.Core.Option.{some-injective}
use coretrace_python_analyze.Cfg.{BlockId}
use coretrace_python_analyze.Dataflow.Solver.{
  Incoming, Problem, Solving, arriving, send, enqueue, unchanged, edge, entry_key,
}
use coretrace_python_analyze.Dataflow.Solver.Send.{settled, edge-send}
use coretrace_python_analyze.Dataflow.Solver.Stable.{IsLawful}
use coretrace_python_analyze.Base.{
  Bool-cases, List, Memᴰ, Memᴰ-cons, Memᴰ-nil, Option, [], arith, contains, false, get, inl, inr,
  keys, list_eq, nat_eq, none, option_eq, pair_eq, refl, some, string_eq, subst, suc, true, ℕ, ◌+◌,
  ◌-◌, ◌<◌, ◌∷◌, ◌≡◌, ◌≤◌, ==_iff, Dict, ap₂, sym, ◌&&◌, ◌==◌, ◌∙◌, ◌≢◌, ==_refl, length,
  length-append, ◌*◌,
}

-- One mapping of states lies below another.
abbrev pub MapBelow : {S : Type 0} → (S → S → Type 0) → Incoming S → Incoming S → Type 0
MapBelow {S} Below m m' =
    (k : BlockId) (a : S) → get k m ≡ some a → (a' : S) × (get k m' ≡ some a') × Below a a'

-- A problem of finite height with a monotone transfer, over the blocks of `nodes`.
pub record IsAscending {S : Type 0} (p : Problem S) (nodes : List BlockId) (Below : S → S → Type 0)
    (height : S → ℕ) (limit : ℕ) : Type 0 where
  pub below_refl : (a : S) → Below a a
  pub below_trans : (a b c : S) → Below a b → Below b c → Below a c
  pub height-le : (a : S) → height a ≤ limit
  pub rises : (a b : S) → Below a b → p.same a b ≡ false → height a < height b
  pub flow_monotone :
      (b : BlockId) (m m' : Incoming S)
      → MapBelow Below m m'
      → MapBelow Below (p.flow b m) (p.flow b m')
  pub flow_known :
      (b t : BlockId) (m : Incoming S)
      → contains (keys (p.flow b m)) t ≡ true
      → contains nodes t ≡ true
  pub entry_apart : contains nodes entry_key ≡ false

module _ {A : Type 0} where
  abbrev pub total : (A → ℕ) → List A → ℕ
  total f [] = 0
  total f (x ∷ xs) = f x + total f xs

  pub total-le : (f g : A → ℕ) (xs : List A) → ((x : A) → f x ≤ g x) → total f xs ≤ total g xs
  total-le f g [] h = omega arith
  total-le f g (x ∷ xs) h = omega (arith, h x, total-le f g xs h)

  pub total-lt :
      (f g : A → ℕ) (xs : List A) (a : A)
      → ((x : A) → f x ≤ g x)
      → Memᴰ a xs
      → f a < g a
      → total f xs < total g xs
  total-lt f g [] a h m l = absurd (Memᴰ-nil m)
  total-lt f g (x ∷ xs) a h m l = elim ((Memᴰ-cons a x xs).0 m) [
    | inl now ↦
        let l' : f x < g x = subst (λ y. f y < g y) now l in omega (arith, l', total-le f g xs h)
    | inr later ↦ omega (arith, h x, total-lt f g xs a h later l)
  ]

module _ {S : Type 0} (p : Problem S) (lawful : IsLawful p) (nodes : List BlockId)
    (Below : S → S → Type 0) (height : S → ℕ) (limit : ℕ)
    (up : IsAscending p nodes Below height limit) where
  open up use {below_refl, below_trans, height-le, rises, flow_monotone, flow_known, entry_apart}

  -- How often an edge may still change.
  abbrev pub cell : Option S → ℕ
  cell none = suc limit
  cell (some a) = limit - height a

  -- The state of an edge lies below what is sent along it.
  abbrev pub IsBelow : Option S → S → Type 0
  IsBelow o state = (a : S) → o ≡ some a → Below a state

  settled-above :
      (o : Option S) (state : S)
      → IsBelow o state
      → (a : S) → o ≡ some a
      → Below a (settled p o state)
  settled-above none state h a e = absurd (cc e)
  settled-above (some old) state h a e = elim (Bool-cases (p.same old state)) [
    | inl same ↦ rw same (let q : old ≡ a = ground arith in rw q (below_refl a))
    | inr other ↦ rw other (h a e)
  ]

  settled-below : (o : Option S) (state : S) → IsBelow o state → Below (settled p o state) state
  settled-below none state h = below_refl state
  settled-below (some old) state h = elim (Bool-cases (p.same old state)) [
    | inl same ↦ rw same (h old refl)
    | inr other ↦ rw other (below_refl state)
  ]

  cell-settled :
      (o : Option S) (state : S) → IsBelow o state → cell (some (settled p o state)) ≤ cell o
  cell-settled none state h = omega arith
  cell-settled (some old) state h = elim (Bool-cases (p.same old state)) [
    | inl same ↦ rw same (omega arith)
    | inr other ↦ rw other (omega (arith, rises old state (h old refl) other))
  ]

  cell-changed :
      (block target : BlockId) (state : S) (s : Solving S)
      → IsBelow (edge p s.incoming block target) state
      → unchanged p (arriving s.incoming target) block state ≡ false
      → cell (some (settled p (edge p s.incoming block target) state))
        < cell (edge p s.incoming block target)
  unfolding edge unchanged
  cell-changed block target state s h e = at (get block (arriving s.incoming target)) h e
    where
      at :
          (o : Option S)
          → IsBelow o state
          → (elim o [ none ↦ false | some old ↦ p.same old state ]) ≡ false
          → cell (some (settled p o state)) < cell o
      at none h e = omega arith
      at (some old) h e = rw e (omega (arith, rises old state (h old refl) e, height-le state))

  -- Two steps from a block: what one sends and what it sent lie in the transfer of what arrives.
  abbrev pub IsOutgoing : Dict BlockId (Incoming S) → BlockId → Incoming S → Type 0
  IsOutgoing inc b outs =
      (t : BlockId) (a : S)
      → edge p inc b t ≡ some a
      → (a' : S) × (get t outs ≡ some a') × Below a a'

  abbrev pub Ascending : Dict BlockId (Incoming S) → Type 0
  Ascending inc = (b : BlockId) → b ≢ entry_key → IsOutgoing inc b (p.flow b (arriving inc b))

  -- One send raises its edge and leaves the others.
  module _ (block target : BlockId) (state : S) (s : Solving S)
      (fits : IsBelow (edge p s.incoming block target) state) where
    abbrev sent : Solving S
    sent = send p block (target, state) s

    pub edge-raised :
        (b t : BlockId) (a : S)
        → edge p s.incoming b t ≡ some a
        → (a' : S) × (edge p sent.incoming b t ≡ some a') × Below a a'
    edge-raised b t a e = elim (Bool-cases (t == target && b == block)) [
      | inl same ↦
          let q : edge p s.incoming b t ≡ edge p s.incoming block target =
            ap₂ (λ x y. edge p s.incoming x y) ((==_iff b block).0 (ground arith))
              ((==_iff t target).0 (ground arith)) in
          (
            settled p (edge p s.incoming block target) state,
            edge-send p block target b t state s ∙ rw same,
            settled-above (edge p s.incoming block target) state fits a (sym q ∙ e),
          )
      | inr other ↦ (a, edge-send p block target b t state s ∙ rw other e, below_refl a)
    ]

    pub arriving-raised :
        (c : BlockId) → MapBelow Below (arriving s.incoming c) (arriving sent.incoming c)
    unfolding edge
    arriving-raised c k a e = edge-raised k c a e

    cell-send : (b t : BlockId) → cell (edge p sent.incoming b t) ≤ cell (edge p s.incoming b t)
    cell-send b t = elim (Bool-cases (t == target && b == block)) [
      | inl same ↦
          let q : edge p s.incoming b t ≡ edge p s.incoming block target =
            ap₂ (λ x y. edge p s.incoming x y) ((==_iff b block).0 (ground arith))
              ((==_iff t target).0 (ground arith)) in
          rw (edge-send p block target b t state s, same, q)
            (cell-settled (edge p s.incoming block target) state fits)
      | inr other ↦ rw (edge-send p block target b t state s, other) (omega arith)
    ]

    worklist-send :
        (length sent.worklist ≤ length s.worklist + 1)
        × (unchanged p (arriving s.incoming target) block state ≡ true
            → length sent.worklist ≡ length s.worklist)
    unfolding send enqueue unchanged
    worklist-send = ground (arith, length-append s.worklist (target ∷ []))

    pub IsOutgoing-send :
        (outs : Incoming S)
        → get target outs ≡ some state
        → IsOutgoing s.incoming block outs
        → IsOutgoing sent.incoming block outs
    IsOutgoing-send outs g h t a e = elim (Bool-cases (t == target)) [
      | inl same ↦
          let q : t ≡ target = (==_iff t target).0 same in
          let e' : some (settled p (edge p s.incoming block target) state) ≡ some a =
            sym (edge-send p block target block t state s ∙ rw (same, ==_refl block)) ∙ e in
          (
            state,
            rw q g,
            subst (λ x. Below x state) (some-injective _ _ e')
                (settled-below (edge p s.incoming block target) state fits),
          )
      | inr other ↦ h t a (sym (edge-send p block target block t state s ∙ rw other) ∙ e)
    ]

  -- The work that is left: twice the changes that the edges of `pairs` may still make, and the
  -- blocks that wait.
  abbrev pub work : List (BlockId × BlockId) → Solving S → ℕ
  work pairs s =
      2 * total (λ (q : BlockId × BlockId). cell (edge p s.incoming q.0 q.1)) pairs
      + length s.worklist

  pub work-send :
      (pairs : List (BlockId × BlockId)) (block target : BlockId) (state : S) (s : Solving S)
      → IsBelow (edge p s.incoming block target) state
      → Memᴰ (block, target) pairs
      → work pairs (send p block (target, state) s) ≤ work pairs s
  work-send pairs block target state s fits m =
      let before = λ (q : BlockId × BlockId). cell (edge p s.incoming q.0 q.1) in
      let after = λ (q : BlockId × BlockId).
        cell (edge p (send p block (target, state) s).incoming q.0 q.1) in
      let falls = λ (q : BlockId × BlockId). cell-send block target state s fits q.0 q.1 in
      let (more, kept) = worklist-send block target state s fits in
      elim (Bool-cases (unchanged p (arriving s.incoming target) block state)) [
        | inl same ↦ omega (arith, total-le after before pairs falls, kept same)
        | inr changed ↦
            omega (arith, total-lt after before pairs (block, target) falls m (less changed))
      ]
    where
      less :
          unchanged p (arriving s.incoming target) block state ≡ false
          → cell (edge p (send p block (target, state) s).incoming block target)
            < cell (edge p s.incoming block target)
      less changed =
          rw (edge-send p block target block target state s, ==_refl target, ==_refl block)
            (cell-changed block target state s fits changed)
