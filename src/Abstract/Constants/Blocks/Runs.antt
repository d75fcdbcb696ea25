-- ===== src/Abstract/Constants/Blocks/Runs.antt =====
-- The values that a run of a block computes are those that abstract/constants.py allows.
use coretrace_python_analyze.Abstract.Value.{Python, AbstractValue, unknown, no_value, of}
use coretrace_python_analyze.Abstract.Constants.{
  State, Operators, instruction, phi_value, binary, fold, unary,
}
use coretrace_python_analyze.Abstract.Constants.Sound.{
  Admits, Admits-same, Admits-unknown, fold-Admits, binary-Admits, unary-Admits, applied, Respects,
  RespectsOne,
}
use coretrace_python_analyze.Abstract.Constants.Blocks.States.{
  Covered, Covered-put, Admits-phi_value,
}
use coretrace_python_analyze.Dataflow.Lattice.{same_element}
use coretrace_python_analyze.Cfg.{BlockId}
use coretrace_python_analyze.Ir.{
  ValueInstruction, Instruction, Terminator, BasicBlock, computes, affects, value_result, constant,
  global, symbol, binary_op, unary_op, compare, call, bool_op, build_list, build_tuple, build_dict,
  build_set, make_function, make_class, build_string, build_slice, with_enter, catch, await, yield,
  nonlocal_result, get_attr, get_item, get_iter, load_local, phi, undefined, branch, jump, for_next,
  return, raise,
}
use coretrace_python_analyze.Ir
use coretrace_python_analyze.Base.{
  ==_iff, Bool, Bool-cases, Dict, List, Memᴰ, Option, String, [], false, get, if◌then◌else◌, inl,
  inr, list_eq, nat_eq, none, option_eq, pair_eq, put, refl, some, string_eq, true, ◌==◌, ◌∷◌, ◌≡◌,
  ◌≢◌,
}

module _ {T : Type 0} (py : Python T) (ops : Operators T) where
  -- What a run holds: the values that are computed.
  abbrev pub Env : Type 0
  Env = Ir.Value → Option T

  abbrev pub set : Ir.Value → T → Env → Env
  set v x env = λ w. if w == v then some x else env w

  -- The state knows of every value that the run holds.
  abbrev pub Covers : State T → Env → Type 0
  Covers state env = (v : Ir.Value) (x : T) → env v ≡ some x → Covered py ops state v x

  pub Covers-set :
      (state : State T) (env : Env) (w : Ir.Value) (fact : AbstractValue T) (x : T)
      → Admits py fact x
      → Covers state env
      → Covers (put w fact state) (set w x env)
  Covers-set state env w fact x admits c v y h =
      Covered-put py ops state w fact v y (λ e. now e) (λ other. later other)
    where
      now : v ≡ w → Admits py fact y
      now e =
          let i = (==_iff v w).1 e in
          let g : some x ≡ some y = rw i at h in let x_y : x ≡ y = cc g in rw (← x_y) admits

      later : v ≢ w → Covered py ops state v y
      later other = elim (Bool-cases (v == w)) [
        | inl same ↦ absurd (other ((==_iff v w).0 same))
        | inr apart ↦ c v y (rw apart at h)
      ]

  -- To forget what is known of a value is safe.
  pub Covers-forget :
      (state : State T) (env : Env) (w : Ir.Value)
      → Covers state env
      → Covers (put w (unknown none) state) env
  Covers-forget state env w c v y h =
      Covered-put py ops state w (unknown none) v y (λ e. Admits-unknown py none y refl)
        (λ other. c v y h)

  module _ {Span : Type 0} where
    unfoldable pub is_modelled : ValueInstruction T Span → Bool
    is_modelled (constant _ _ _) = true
    is_modelled (binary_op _ _ _ _ _) = true
    is_modelled (compare _ _ _ _ _) = true
    is_modelled (unary_op _ _ _ _) = true
    is_modelled (phi _ _ _ _) = true
    is_modelled _ = false

    instruction-other :
        (i : ValueInstruction T Span) (incoming : Dict BlockId (State T)) (state : State T)
        → is_modelled i ≡ false
        → instruction py ops i incoming state ≡ some (unknown none)
    unfolding instruction is_modelled
    instruction-other (constant _ _ _) incoming state h = cc h
    instruction-other (global _ _ _) incoming state h = refl
    instruction-other (symbol _ _ _) incoming state h = refl
    instruction-other (binary_op _ _ _ _ _) incoming state h = cc h
    instruction-other (unary_op _ _ _ _) incoming state h = cc h
    instruction-other (compare _ _ _ _ _) incoming state h = cc h
    instruction-other (call _ _ _ _ _ _) incoming state h = refl
    instruction-other (bool_op _ _ _ _) incoming state h = refl
    instruction-other (build_list _ _ _ _ _) incoming state h = refl
    instruction-other (build_tuple _ _ _ _ _) incoming state h = refl
    instruction-other (build_dict _ _ _ _) incoming state h = refl
    instruction-other (build_set _ _ _ _) incoming state h = refl
    instruction-other (make_function _ _ _ _) incoming state h = refl
    instruction-other (make_class _ _ _) incoming state h = refl
    instruction-other (build_string _ _ _) incoming state h = refl
    instruction-other (build_slice _ _ _ _ _) incoming state h = refl
    instruction-other (with_enter _ _ _) incoming state h = refl
    instruction-other (catch _ _ _) incoming state h = refl
    instruction-other (await _ _ _) incoming state h = refl
    instruction-other (yield _ _ _) incoming state h = refl
    instruction-other (nonlocal_result _ _ _ _ _) incoming state h = refl
    instruction-other (get_attr _ _ _ _) incoming state h = refl
    instruction-other (get_item _ _ _ _) incoming state h = refl
    instruction-other (get_iter _ _ _) incoming state h = refl
    instruction-other (load_local _ _ _) incoming state h = refl
    instruction-other (phi _ _ _ _) incoming state h = cc h
    instruction-other (undefined _ _ _) incoming state h = refl

    -- An operator that an instruction folds tells equal constants apart by nothing that it gives.
    unfoldable pub IsRespectful : ValueInstruction T Span → Type 0
    IsRespectful (binary_op _ _ op _ _) = Respects py (ops.apply op)
    IsRespectful (compare _ _ op _ _) = Respects py (ops.apply op)
    IsRespectful (unary_op _ _ op _) = RespectsOne py (ops.apply_one op)
    IsRespectful _ = Unit {0}

    unfoldable pub AllRespectful : List (Instruction T Span) → Type 0
    unfolding IsRespectful
    AllRespectful [] = Unit {0}
    AllRespectful (affects _ ∷ more) = AllRespectful more
    AllRespectful (computes i ∷ more) = IsRespectful i × AllRespectful more

    -- The value that an instruction gives, when the block was entered from `source` with `entered`.
    -- The object that a run makes of a constant is not the engine's, and is equal to it; an
    -- instruction that is not folded may give any.
    pub data Gives (source : BlockId) (entered env : Env)
        : ValueInstruction T Span → T → Type 0 where
      constantly :
          {v : Ir.Value} {at : Span} {x y : T}
          → same_element py.values x y ≡ true
          → Gives source entered env (constant v at x) y
      operates :
          {v l r : Ir.Value} {at : Span} {op : String} {x y z : T}
          → env l ≡ some x
          → env r ≡ some y
          → ops.apply op x y ≡ some z
          → Gives source entered env (binary_op v at op l r) z
      compares :
          {v l r : Ir.Value} {at : Span} {op : String} {x y z : T}
          → env l ≡ some x
          → env r ≡ some y
          → ops.apply op x y ≡ some z
          → Gives source entered env (compare v at op l r) z
      applies :
          {v o : Ir.Value} {at : Span} {op : String} {x z : T}
          → env o ≡ some x
          → applied py ops op x ≡ some z
          → Gives source entered env (unary_op v at op o) z
      selects :
          {v w : Ir.Value} {at : Span} {name : String} {values : List (Ir.Value × BlockId)} {x : T}
          → Memᴰ (w, source) values
          → entered w ≡ some x
          → Gives source entered env (phi v at name values) x
      anything :
          {i : ValueInstruction T Span} {x : T}
          → is_modelled i ≡ false
          → Gives source entered env i x

    -- A run of instructions, each of which gave its value.
    pub data Computes (source : BlockId) (entered : Env)
        : List (Instruction T Span) → Env → Env → Type 0 where
      done : {env : Env} → Computes source entered [] env env
      affecting :
          {e : Ir.EffectInstruction T Span} {more : List (Instruction T Span)} {env env' : Env}
          → Computes source entered more env env'
          → Computes source entered (affects e ∷ more) env env'
      giving :
          {i : ValueInstruction T Span} {more : List (Instruction T Span)} {env env' : Env} {x : T}
          → Gives source entered env i x
          → Computes source entered more (set (value_result i) x env) env'
          → Computes source entered (computes i ∷ more) env env'

    module _ (incoming : Dict BlockId (State T)) (source : BlockId) (state : State T)
        (there : get source incoming ≡ some state) (entered : Env)
        (covers : Covers state entered) where
      -- Where a run gives an instruction its value, the analysis has a fact for it.
      pub instruction-Admits :
          (i : ValueInstruction T Span) (now : State T) (env : Env) (x : T)
          → IsRespectful i
          → Covers now env
          → Gives source entered env i x
          → (fact : AbstractValue T) × (instruction py ops i incoming now ≡ some fact)
            × Admits py fact x
      unfolding instruction IsRespectful
      instruction-Admits (constant v at x) now env x' lawful c (constantly same) =
          (of py x, refl, Admits-same py x x' same)
      instruction-Admits (binary_op v at op l r) now env z lawful c (operates hl hr g) =
          let a = c l _ hl in
          let b = c r _ hr in
          (
            binary py ops op a.fact b.fact,
            rw (a.there, b.there) refl,
            binary-Admits py ops op a.fact b.fact _ _ z lawful a.admits b.admits g,
          )
      instruction-Admits (compare v at op l r) now env z lawful c (compares hl hr g) =
          let a = c l _ hl in
          let b = c r _ hr in
          (
            fold py ops (ops.apply op) false a.fact b.fact,
            rw (a.there, b.there) refl,
            fold-Admits py ops (ops.apply op) false a.fact b.fact _ _ z lawful a.admits b.admits g,
          )
      instruction-Admits (unary_op v at op o) now env z lawful c (applies h g) =
          let a = c o _ h in
          (
            unary py ops op a.fact,
            rw a.there refl,
            unary-Admits py ops op a.fact _ z lawful a.admits g,
          )
      instruction-Admits (phi v at name values) now env x lawful c (selects m h) = (
        phi_value py ops incoming no_value values,
        refl,
        Admits-phi_value py ops incoming source state there values no_value _ x m (covers _ x h),
      )
      instruction-Admits i now env x lawful c (anything other) =
          (unknown none, instruction-other i incoming now other, Admits-unknown py none x refl)
