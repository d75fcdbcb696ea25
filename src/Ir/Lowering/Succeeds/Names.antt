-- ===== src/Ir/Lowering/Succeeds/Names.antt =====
-- The methods of ir/lowering.py that read and write names, where they do not raise.
use coretrace_python_analyze.Hir.{global, Statement}
use coretrace_python_analyze.Ir
use coretrace_python_analyze.Ir.{Value, SymbolId}
use coretrace_python_analyze.Findings.{SourceSpan}
use coretrace_python_analyze.Ir.Lowering.{
  Resolution, local, free, global, unbound, LoweringError, closure, Environment, Lowerer, Lower,
  ◌>>=◌, ◌>>◌, give, fail, new_value, emit, emit_effect, emit_new,
}
use coretrace_python_analyze.Ir.Lowering.Expressions.{
  resolve, variable, read_name, read_names, store_name, write_back,
}
use coretrace_python_analyze.Base.{
  All, Bool, true, false, List, [], ◌∷◌, Option, none, some, String, ◌≡◌, refl, contains, get,
  if◌then◌else◌, string_eq, Result, ok, err, subst, sym, list_eq, nat_eq, option_eq, pair_eq,
}

module _ {T : Type 0} where
  -- A method that does not raise.
  pub record Returns {A : Type 0} (m : Lower T A) : Type 0 where
    pub run : (s : Lowerer T) → (a : A) × (s' : Lowerer T) × (m s ≡ ok (a, s'))

  pub Returns-bind :
      {A B : Type 0} (m : Lower T A) (f : A → Lower T B)
      → Returns m
      → ((a : A) → Returns (f a))
      → Returns (m >>= f)
  Returns-bind {A} {B} m f h k = record {
    run = λ s.
        let (a, s', e) = h.run s in
        let (b, s'', e') = (k a).run s' in
        (
          b,
          s'',
          subst
              (λ r.
                (elim r as (λ _. Result LoweringError (B × Lowerer T)) [
                  | err e ↦ err e
                  | ok (a, s') ↦ f a s'
                ])
                ≡ ok (b, s''))
              (sym e) e',
        );
  }

  pub Returns-give : {A : Type 0} (a : A) → Returns (give {T = T} a)
  Returns-give a = record { run = λ s. (a, s, refl) }

  pub Returns-emit_new : (f : Value → Ir.ValueInstruction T SourceSpan) → Returns (emit_new f)
  unfolding new_value emit
  Returns-emit_new f = record { run = λ s. (_, _, refl) }

  pub Returns-new_value : Returns (new_value {T = T})
  unfolding new_value
  Returns-new_value = record { run = λ s. (_, _, refl) }

  pub Returns-emit : (i : Ir.ValueInstruction T SourceSpan) (v : Value) → Returns (emit i v)
  unfolding emit
  Returns-emit i v = record { run = λ s. (_, _, refl) }

  Returns-emit_effect : (i : Ir.EffectInstruction T SourceSpan) → Returns (emit_effect i)
  unfolding emit_effect
  Returns-emit_effect i = record { run = λ s. (_, _, refl) }

module _ {T : Type 0} (env : Environment T) where
  -- A name that no enclosing function has to give.
  abbrev pub IsOwn : String → Type 0
  IsOwn x = resolve env x ≡ free → ⊥

  pub local_IsOwn : (x : String) → resolve env x ≡ local → IsOwn x
  local_IsOwn x own freed = cc (own, freed)

  Returns-otherwise :
      (o : Option Value) (otherwise : Lower T Value)
      → Returns otherwise
      → Returns (elim o as (λ _. Lower T Value) [ some v ↦ give v | none ↦ otherwise ])
  Returns-otherwise none otherwise h = h
  Returns-otherwise (some v) otherwise h = Returns-give v

  Returns-variable : (x : String) (at : SourceSpan) → IsOwn x → Returns (variable env x at)
  unfolding variable
  Returns-variable x at own = by_kind (resolve env x) own
    where
      by_kind :
          (r : Resolution)
          → (r ≡ free → ⊥)
          → Returns (elim r as (λ _. Lower T Value) [
            | local ↦ elim (get x env.parameters) [
              | some v ↦ give v
              | none ↦ emit_new (λ v. Ir.load_local v at x)
            ]
            | free ↦
                if contains env.nonlocals x
                then emit_new (λ v. Ir.load_local v at x)
                else elim (get x env.parameters) [ some v ↦ give v | none ↦ fail (closure at) ]
            | global ↦ emit_new (λ v. Ir.global v at x)
            | unbound ↦ emit_new (λ v. Ir.global v at x)
          ])
      by_kind local own =
          Returns-otherwise (get x env.parameters) _ (Returns-emit_new (λ v. Ir.load_local v at x))
      by_kind free own = absurd (own refl)
      by_kind global own = Returns-emit_new (λ v. Ir.global v at x)
      by_kind unbound own = Returns-emit_new (λ v. Ir.global v at x)

  pub Returns-symbol :
      (found : Option SymbolId) (at : SourceSpan) (otherwise : Lower T Value)
      → Returns otherwise
      → Returns (elim found as (λ _. Lower T Value) [
        | some s ↦ emit_new (λ v. Ir.symbol v at s)
        | none ↦ otherwise
      ])
  Returns-symbol none at otherwise h = h
  Returns-symbol (some s) at otherwise h = Returns-emit_new (λ v. Ir.symbol v at s)

  pub Returns-read_name : (x : String) (at : SourceSpan) → IsOwn x → Returns (read_name env x at)
  unfolding read_name
  Returns-read_name x at own =
      Returns-symbol (env.scoping.symbol_of x) at _ (Returns-variable x at own)

  pub Returns-read_names :
      (xs : List String) (at : SourceSpan) → All IsOwn xs → Returns (read_names env xs at)
  unfolding read_names
  Returns-read_names [] at own = Returns-give []
  Returns-read_names (x ∷ more) at own =
      Returns-bind _ _ (Returns-read_name x at own.0)
        (λ v. Returns-bind _ _ (Returns-read_names more at own.1) (λ vs. Returns-give (v ∷ vs)))

  Returns-stored :
      (x : String) (at : SourceSpan) (v : Value) (own : Bool)
      → Returns {T = T} (
          emit_effect (Ir.store_local at x v)
          >> (if own then emit_effect (Ir.set_nonlocal at x v) else give tt))
  Returns-stored x at v true =
      Returns-bind _ _ (Returns-emit_effect (Ir.store_local at x v))
        (λ _. Returns-emit_effect (Ir.set_nonlocal at x v))
  Returns-stored x at v false =
      Returns-bind _ _ (Returns-emit_effect (Ir.store_local at x v)) (λ _. Returns-give tt)

  Returns-store_name :
      (x : String) (at : SourceSpan) (v : Value)
      → resolve env x ≡ local
      → Returns (store_name env x at v)
  unfolding store_name
  Returns-store_name x at v own =
      rw (own, store_name) (Returns-stored x at v (contains env.nonlocals x))

  -- A nested function assigns to locals of this one.
  abbrev pub IsClosed : Type 0
  IsClosed =
      (nested : Statement T) → All (λ x. resolve env x ≡ local) (env.scoping.nonlocals_of nested)

  pub Returns-write_back :
      (xs : List String) (at : SourceSpan) (v : Value)
      → All (λ x. resolve env x ≡ local) xs
      → Returns (write_back env xs at v)
  unfolding write_back
  Returns-write_back [] at v own = Returns-give tt
  Returns-write_back (x ∷ more) at v own =
      Returns-bind _ _ (Returns-read_name x at (local_IsOwn x own.0)) (λ previous.
        Returns-bind _ _ (Returns-emit_new (λ w. Ir.nonlocal_result w at v x previous)) (λ written.
          Returns-bind _ _ (Returns-store_name x at written own.0)
            (λ _. Returns-write_back more at v own.1)))
