-- ===== src/Abstract/Constants/Blocks/Exits.antt =====
-- The exits that abstract/constants.py gives a block, against those that a run takes.
use mathlib.Core.List.Memᴰ
use coretrace_python_analyze.Abstract.Value.{
  Python, unknown, truth_true, truth_false, truth_unknown, Truth, truthiness,
}
use coretrace_python_analyze.Abstract.Constants.{
  State, Operators, compute, after, evaluate, flow, taken, send_to, branch_targets, join_edges,
}
use coretrace_python_analyze.Abstract.Constants.Sound.{Admits-unknown, truthiness-Admits}
use coretrace_python_analyze.Abstract.Constants.Blocks.States.{Covered-join_edges}
use coretrace_python_analyze.Abstract.Constants.Blocks.Runs.{
  Env, set, Covers, AllRespectful, Covers-set, Covers-forget, Computes, done, affecting, giving,
  instruction-Admits,
}
use coretrace_python_analyze.Cfg.{BlockId}
use coretrace_python_analyze.Ir.{
  Instruction, Terminator, BasicBlock, computes, affects, value_result, branch, jump, for_next,
  return, raise,
}
use coretrace_python_analyze.Ir
use coretrace_python_analyze.Base.{
  ==_refl, Dict, List, Option, String, [], arith, contains, false, get, list_eq, nat_eq, none,
  option_eq, pair_eq, put, refl, some, string_eq, true, ◌∷◌, ◌≡◌, Bool-cases, Memᴰ, Memᴰ-of_get,
  get-put, inl, inr, map, ◌==◌, ◌∙◌, ◌⊎◌,
}

second_in : (a b : BlockId) → contains (a ∷ b ∷ []) b ≡ true
unfolding contains
second_in a b = rw (==_refl b) (ground arith)

then_in :
    (t e : BlockId) (u : Truth) → (u ≡ truth_false → ⊥) → contains (branch_targets u t e) t ≡ true
unfolding contains branch_targets
then_in t e truth_true n = rw (==_refl t) refl
then_in t e truth_false n = absurd (n refl)
then_in t e truth_unknown n = rw (==_refl t) refl

else_in :
    (t e : BlockId) (u : Truth) → (u ≡ truth_true → ⊥) → contains (branch_targets u t e) e ≡ true
unfolding contains branch_targets
else_in t e truth_true n = absurd (n refl)
else_in t e truth_false n = rw (==_refl e) refl
else_in t e truth_unknown n = second_in t e

module _ {T : Type 0} (py : Python T) (ops : Operators T) where
  module _ {Span : Type 0} (incoming : Dict BlockId (State T)) (source : BlockId) (state : State T)
      (there : get source incoming ≡ some state) (entered : Env py ops)
      (covers : Covers py ops state entered) where
    compute-Covers :
        (is : List (Instruction T Span)) (now : State T) (env env' : Env py ops)
        → AllRespectful py ops is
        → Covers py ops now env
        → Computes py ops source entered is env env'
        → (out : State T) × (compute py ops is incoming now ≡ some out) × Covers py ops out env'
    unfolding compute AllRespectful
    compute-Covers [] now env env' lawful c done = (now, refl, c)
    compute-Covers (affects _ ∷ more) now env env' lawful c (affecting r) =
        compute-Covers more now env env' lawful c r
    compute-Covers (computes i ∷ more) now env env' lawful c (giving {x = x} g r) =
        let (fact, e, a) =
          instruction-Admits py ops incoming source state there entered covers i now env x lawful.0
            c g in
        let (out, e', c') =
          compute-Covers more (put (value_result i) fact now) (set py ops (value_result i) x env)
            env' lawful.1 (Covers-set py ops now env (value_result i) fact x a c) r in
        (out, rw (e, compute) e', c')

  -- How a run leaves a block, and what it then holds: a `for` may bind its variable to any value.
  pub data Leaves {Span : Type 0} (env : Env py ops)
      : Terminator T Span → BlockId → Env py ops → Type 0 where
    jumps : {at : Span} {t : BlockId} → Leaves env (jump at t) t env
    branches_then :
        {at : Span} {v : Ir.Value} {t e : BlockId} {x : T}
        → env v ≡ some x
        → py.truthy x ≡ true
        → Leaves env (branch at v t e) t env
    branches_else :
        {at : Span} {v : Ir.Value} {t e : BlockId} {x : T}
        → env v ≡ some x
        → py.truthy x ≡ false
        → Leaves env (branch at v t e) e env
    loops :
        {at : Span} {v : Ir.Value} {name : String} {body exit : BlockId}
        → Leaves env (for_next at v name body exit none) body env
    binds :
        {at : Span} {v r : Ir.Value} {name : String} {body exit : BlockId} (x : T)
        → Leaves env (for_next at v name body exit (some r)) body (set py ops r x env)
    finishes :
        {at : Span} {v : Ir.Value} {name : String} {body exit : BlockId} {r : Option Ir.Value}
        → Leaves env (for_next at v name body exit r) exit env

  module _ {Span : Type 0} where
    after-Covers :
        (t : Terminator T Span) (state : State T) (env env' : Env py ops) (b : BlockId)
        → Covers py ops state env
        → Leaves env t b env'
        → Covers py ops (after py ops t state) env'
    unfolding after
    after-Covers (return _ _) state env env' b c l = elim l [ ]
    after-Covers (raise _ _ _) state env env' b c l = elim l [ ]
    after-Covers (jump _ _) state env env' b c jumps = c
    after-Covers (branch _ _ _ _) state env env' b c (branches_then _ _) = c
    after-Covers (branch _ _ _ _) state env env' b c (branches_else _ _) = c
    after-Covers (for_next _ _ _ _ _ none) state env env' b c loops = c
    after-Covers (for_next _ _ _ _ _ none) state env env' b c finishes = c
    after-Covers (for_next _ _ _ _ _ (some r)) state env env' b c (binds x) =
        Covers-set py ops state env r (unknown none) x (Admits-unknown py none x refl) c
    after-Covers (for_next _ _ _ _ _ (some r)) state env env' b c finishes =
        Covers-forget py ops state env r c

    taken-Leaves :
        (t : Terminator T Span) (state : State T) (env env' : Env py ops) (b : BlockId)
        → Covers py ops state env'
        → Leaves env t b env'
        → (targets : List BlockId) × (taken py ops t state ≡ some targets)
          × (contains targets b ≡ true)
    unfolding taken contains
    taken-Leaves (return _ _) state env env' b c l = elim l [ ]
    taken-Leaves (raise _ _ _) state env env' b c l = elim l [ ]
    taken-Leaves (jump _ t) state env env' b c jumps = (t ∷ [], refl, rw (==_refl t) refl)
    taken-Leaves (branch _ v t e) state env env' b c (branches_then {x = x} h truth) =
        let known = c v x h in
        let (_, not_false) = truthiness-Admits py known.fact x known.admits in
        (
          branch_targets (truthiness py known.fact) t e,
          rw known.there refl,
          then_in t e (truthiness py known.fact)
              (λ is_false. let g = not_false is_false in cc (g, truth)),
        )
    taken-Leaves (branch _ v t e) state env env' b c (branches_else {x = x} h truth) =
        let known = c v x h in
        let (not_true, _) = truthiness-Admits py known.fact x known.admits in
        (
          branch_targets (truthiness py known.fact) t e,
          rw known.there refl,
          else_in t e (truthiness py known.fact)
              (λ is_true. let g = not_true is_true in cc (g, truth)),
        )
    taken-Leaves (for_next _ _ _ body exit _) state env env' b c loops =
        (body ∷ exit ∷ [], refl, rw (==_refl body) refl)
    taken-Leaves (for_next _ _ _ body exit _) state env env' b c (binds x) =
        (body ∷ exit ∷ [], refl, rw (==_refl body) refl)
    taken-Leaves (for_next _ _ _ body exit _) state env env' b c finishes =
        (body ∷ exit ∷ [], refl, second_in body exit)

  kept-send_to :
      (s : State T) (targets : List BlockId) (exits : Dict BlockId (State T)) (t : BlockId)
      → get t exits ≡ some s
      → get t (send_to s targets exits) ≡ some s
  unfolding send_to
  kept-send_to s [] exits t h = h
  kept-send_to s (u ∷ more) exits t h = kept-send_to s more (put u s exits) t (
      get-put u t s exits
      ∙ (elim (Bool-cases (t == u)) [ inl same ↦ rw same refl | inr other ↦ rw other h ]))

  get-send_to :
      (s : State T) (targets : List BlockId) (exits : Dict BlockId (State T)) (t : BlockId)
      → contains targets t ≡ true
      → get t (send_to s targets exits) ≡ some s
  unfolding send_to contains
  get-send_to s [] exits t h = cc h
  get-send_to s (u ∷ more) exits t h = elim (Bool-cases (t == u)) [
    | inl same ↦ kept-send_to s more (put u s exits) t (get-put u t s exits ∙ rw same refl)
    | inr other ↦ get-send_to s more (put u s exits) t (rw other at h)
  ]

  state_among :
      (source first_source : BlockId) (first state : State T) (more : Dict BlockId (State T))
      → get source ((first_source, first) ∷ more) ≡ some state
      → (state ≡ first) ⊎ Memᴰ state (map (λ (edge : BlockId × State T). edge.1) more)
  unfolding get
  state_among source first_source first state more h = elim (Bool-cases (source == first_source)) [
    | inl same ↦ inl (let g = rw same at h in cc g)
    | inr other ↦ inr (
        Memᴰ.map (λ (edge : BlockId × State T). edge.1)
          (Memᴰ-of_get source state more (rw other at h)))
  ]

  module _ {Span : Type 0} where
    -- Where `==` is an equivalence on the objects of a type, which a float NaN breaks, and no
    -- operator of the block tells equal objects apart, as `is` and `is not` do: if the state of an
    -- edge knows, up to equality, of every value that a run holds on it, and the run computes the
    -- instructions of the block and leaves it, the transfer finds a fact for every operand, and
    -- sends to the block that the run goes to a state that knows of every value that the run then
    -- holds.
    pub flow_sound :
        (block : BasicBlock T Span) (incoming : Dict BlockId (State T)) (source : BlockId)
        (state : State T)
        → AllRespectful py ops block.instructions
        → get source incoming ≡ some state
        → (entered env env' : Env py ops) (t : BlockId) → Covers py ops state entered
        → Computes py ops source entered block.instructions entered env
        → Leaves env block.terminator t env'
        → (exits : Dict BlockId (State T)) × (s : State T) × (flow py ops block incoming
            ≡ some exits)
          × (get t exits ≡ some s)
          × Covers py ops s env'
    unfolding flow evaluate
    flow_sound block [] source state lawful there entered env env' t c r l =
        absurd (unfold get in cc there)
    flow_sound block ((first_source, first) ∷ more) source state lawful there entered env env' t c r
          l =
        let incoming = (first_source, first) ∷ more in
        let joined = join_edges py ops first (map (λ (edge : BlockId × State T). edge.1) more) in
        let start : Covers py ops joined entered = λ v x h.
          Covered-join_edges py ops (map (λ (edge : BlockId × State T). edge.1) more) first state v
            x (state_among source first_source first state more there) (c v x h) in
        let (out, computed, c_out) =
          compute-Covers incoming source state there entered c block.instructions joined entered env
            lawful start r in
        let last = after py ops block.terminator out in
        let c_last = after-Covers block.terminator out env env' t c_out l in
        let (targets, goes, in_targets) = taken-Leaves block.terminator last env env' t c_last l in
        let exits = send_to last targets (send_to last block.exception_targets []) in
        (
          exits,
          last,
          rw (computed, goes) refl,
          get-send_to last targets (send_to last block.exception_targets []) t in_targets,
          c_last,
        )
