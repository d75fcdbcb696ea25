-- ===== src/Ir/Lowering/Values.antt =====
-- The expressions of ir/lowering.py read values that were counted, and define each value once.
pub mod Computed
pub mod Stored
pub mod Executed
pub mod Ended
use coretrace_python_analyze.Hir.{
  name, constant, binary_op, unary_op, bool_op, compare, attribute, subscript, tuple, list, dict,
  formatted_string, slice, starred, set, conditional, lambda, await, yield, named_expr,
  comprehension, nil, cons, absent, present, no_keywords, keyword, no_items, item, no_parameters,
  parameter, no_generators, generator, value_pattern, singleton_pattern, wildcard_pattern,
  capture_pattern, as_pattern, or_pattern, star_pattern, sequence_pattern, mapping_pattern,
  class_pattern, unsupported_pattern, no_patterns, sub, no_entries, entry, no_attributes,
  where_attribute, assign, aug_assign, return, expression_statement, pass, delete, match,
  declaration, assert, if_statement, while_statement, for_statement, break, continue, raise,
  with_statement, enter_with, exit_with, try_statement, enter_handler, import, import_from, global,
  nonlocal, function, class, empty, first, no_cases, case, no_handlers, handler, Expression,
  Expressions, Maybe, Keywords, Items, Parameters, Generators, Pattern, Patterns, Entries,
  Attributes, Statement, Statements, Cases, Handlers, WithItem, ImportAlias,
}
use coretrace_python_analyze.Ir
use coretrace_python_analyze.Ir.{
  Value, SymbolId, value_result, value_operands, effect_operands, from_option, both, seconds,
}
use coretrace_python_analyze.Findings.{SourceSpan}
use coretrace_python_analyze.Ir.Lowering.{
  Resolution, local, free, global, unbound, LoweringError, closure, lone_starred, control_flow,
  free_target, unsupported, Scoping, Texts, Environment, Lowerer, Lower, ◌>>=◌, ◌>>◌, give, fail,
  new_value, emit, emit_effect, emit_new,
}
use coretrace_python_analyze.Ir.Lowering.Expressions.{
  resolve, imported_symbol, variable, read_name, read_names, store_name, write_back,
  write_back_nonlocals, starred_at, expression, expressions, spread, optional, keyword_values,
  pairs, unpacked_items,
}
use coretrace_python_analyze.Ir.Lowering.Triples.{
  IsGood, Extends, Outcome, Lowers, Lowers-bind, Lowers-give, Lowers-fail, Lowers-emit_effect,
  Lowers-reserve, Lowers-emit_new,
}
use coretrace_python_analyze.Ir.Lowering.Counted.{
  Below, All-Below, All-Below-append, AllValues, AllValues-get, IfAny, IsValue, IsDone, AreValues,
  IsOption, IsOption-values,
}
use coretrace_python_analyze.Base.{
  All, Bool, true, false, Dict, List, [], ◌∷◌, ◌++◌, Option, none, some, String, ℕ, suc, ◌+◌, ◌≤◌,
  ◌≡◌, contains, get, if◌then◌else◌, arith, refl, Bool-cases, inl, inr, string_eq, Result, ok, err,
  list_eq, nat_eq, option_eq, pair_eq,
}

module _ {T : Type 0} (env : Environment T) where
  -- A parameter, or what is done where the name is none.
  Lowers-parameter :
      {n : ℕ} (x : String) (otherwise : Lower T Value)
      → Lowers env n otherwise IsValue
      → Lowers env n (elim (get x env.parameters) [ some v ↦ give v | none ↦ otherwise ]) IsValue
  Lowers-parameter {n} x otherwise h = record {
    run = λ s le good.
        found s le good (get x env.parameters)
          (AllValues-get s.next_value_id x env.parameters good.parameters);
  }
    where
      found :
          (s : Lowerer T)
          → n ≤ s.next_value_id
          → IsGood env s
          → (o : Option Value) → IfAny s.next_value_id o
          → Outcome env IsValue s
              ((elim o as (λ _. Lower T Value) [ some v ↦ give v | none ↦ otherwise ]) s)
      found s le good none below = h.run s le good
      found s le good (some v) below =
          (Lowers-give env {n = s.next_value_id} v IsValue (λ k le'. omega (arith, le', below))).run
            s (omega arith) good

  Lowers-variable :
      {n : ℕ} (x : String) (at : SourceSpan) → Lowers env n (variable env x at) IsValue
  unfolding variable value_result value_operands
  Lowers-variable {n = n} x at = by_kind (resolve env x)
    where
      load : Lowers env n (emit_new (λ v. Ir.load_local v at x)) IsValue
      load = Lowers-emit_new env (λ v. Ir.load_local v at x) (λ v. refl) (λ v. tt)

      load_global : Lowers env n (emit_new (λ v. Ir.global v at x)) IsValue
      load_global = Lowers-emit_new env (λ v. Ir.global v at x) (λ v. refl) (λ v. tt)

      by_kind :
          (r : Resolution)
          → Lowers env n
              (elim r as (λ _. Lower T Value) [
                | local ↦ elim (get x env.parameters) [
                  | some v ↦ give v
                  | none ↦ emit_new (λ v. Ir.load_local v at x)
                ]
                | free ↦
                    if contains env.nonlocals x
                    then emit_new (λ v. Ir.load_local v at x)
                    else elim (get x env.parameters) [ some v ↦ give v | none ↦ fail (closure at) ]
                | global ↦ emit_new (λ v. Ir.global v at x)
                | unbound ↦ emit_new (λ v. Ir.global v at x)
              ])
              IsValue
      by_kind local = Lowers-parameter x _ (load)
      by_kind free = elim (Bool-cases (contains env.nonlocals x)) [
        | inl own ↦ rw own (load)
        | inr other ↦ rw other (Lowers-parameter x _ (Lowers-fail env (closure at) IsValue))
      ]
      by_kind global = load_global
      by_kind unbound = load_global

  pub Lowers-symbol :
      {n : ℕ} (found : Option SymbolId) (at : SourceSpan) (otherwise : Lower T Value)
      → Lowers env n otherwise IsValue
      → Lowers env n
          (elim found [ some s ↦ emit_new (λ v. Ir.symbol v at s) | none ↦ otherwise ])
          IsValue
  unfolding value_result value_operands
  Lowers-symbol none at otherwise h = h
  Lowers-symbol (some s) at otherwise h =
      Lowers-emit_new env (λ v. Ir.symbol v at s) (λ v. refl) (λ v. tt)

  pub Lowers-read_name :
      {n : ℕ} (x : String) (at : SourceSpan) → Lowers env n (read_name env x at) IsValue
  unfolding read_name
  Lowers-read_name x at = Lowers-symbol (env.scoping.symbol_of x) at _ (Lowers-variable x at)

  -- A list of values, one after the other.
  pub Lowers-cons :
      {n : ℕ} (m : Lower T Value) (more : Lower T (List Value))
      → Lowers env n m IsValue
      → ((k : ℕ) → n ≤ k → Lowers env k more AreValues)
      → Lowers env n (m >>= λ v. more >>= λ vs. give (v ∷ vs)) AreValues
  Lowers-cons m more h rest = Lowers-bind env m _ IsValue h (λ v k le below.
      Lowers-bind env more _ AreValues (rest k le) (λ vs k' le' belows.
        Lowers-give env (v ∷ vs) AreValues
          (λ k'' le''. (omega (arith, le', le'', below), All-Below k' k'' vs le'' belows))))

  pub Lowers-read_names :
      {n : ℕ} (xs : List String) (at : SourceSpan) → Lowers env n (read_names env xs at) AreValues
  unfolding read_names
  Lowers-read_names [] at = Lowers-give env [] AreValues (λ k le. tt)
  Lowers-read_names (x ∷ more) at =
      Lowers-cons _ _ (Lowers-read_name x at) (λ k le. Lowers-read_names more at)

  -- What a method leaves undone gives nothing to read.
  pub Lowers-then :
      {A : Type 0} {n : ℕ} (m : Lower T (Unit {0})) (rest : Lower T A) (Q : A → ℕ → Type 0)
      → Lowers env n m IsDone
      → ((k : ℕ) → n ≤ k → Lowers env k rest Q)
      → Lowers env n (m >> rest) Q
  Lowers-then m rest Q h next = Lowers-bind env m _ IsDone h (λ _ k le _. next k le)

  Lowers-stored :
      {n : ℕ} (x : String) (at : SourceSpan) (v : Value)
      → Below n v
      → Lowers env n
          (emit_effect (Ir.store_local at x v)
            >> (if contains env.nonlocals x then emit_effect (Ir.set_nonlocal at x v) else give tt))
          IsDone
  unfolding effect_operands
  Lowers-stored x at v below =
      Lowers-then _ _ IsDone (Lowers-emit_effect env (Ir.store_local at x v) (below, tt)) (λ k le.
        elim (Bool-cases (contains env.nonlocals x)) [
          | inl own ↦
              rw own
                (Lowers-emit_effect env (Ir.set_nonlocal at x v) (omega (arith, le, below), tt))
          | inr other ↦ rw other (Lowers-give env tt IsDone (λ k' le'. tt))
        ])

  pub Lowers-store_name :
      {n : ℕ} (x : String) (at : SourceSpan) (v : Value)
      → Below n v
      → Lowers env n (store_name env x at v) IsDone
  unfolding store_name effect_operands
  Lowers-store_name {n = n} x at v below = by_kind (resolve env x)
    where
      stored : Lower T (Unit {0})
      stored =
          emit_effect (Ir.store_local at x v)
          >> (if contains env.nonlocals x then emit_effect (Ir.set_nonlocal at x v) else give tt)

      checked :
          Lowers env n (if contains env.nonlocals x then stored else fail (free_target at)) IsDone
      checked = elim (Bool-cases (contains env.nonlocals x)) [
        | inl own ↦ rw own (let h = Lowers-stored x at v below in rw own at h)
        | inr other ↦ rw other (Lowers-fail env (free_target at) IsDone)
      ]

      by_kind :
          (r : Resolution)
          → Lowers env n
              (elim r as (λ _. Lower T (Unit {0})) [
                | global ↦ emit_effect (Ir.set_global at x v)
                | local ↦ stored
                | free ↦ if contains env.nonlocals x then stored else fail (free_target at)
                | unbound ↦ if contains env.nonlocals x then stored else fail (free_target at)
              ])
              IsDone
      by_kind local = Lowers-stored x at v below
      by_kind free = checked
      by_kind global = Lowers-emit_effect env (Ir.set_global at x v) (below, tt)
      by_kind unbound = checked

  Lowers-write_back :
      {n : ℕ} (xs : List String) (at : SourceSpan) (v : Value)
      → Below n v
      → Lowers env n (write_back env xs at v) IsDone
  unfolding write_back value_result value_operands
  Lowers-write_back [] at v below = Lowers-give env tt IsDone (λ k le. tt)
  Lowers-write_back (x ∷ more) at v below =
      Lowers-bind env (read_name env x at) _ IsValue (Lowers-read_name x at) (λ previous k le old.
        Lowers-bind env (emit_new (λ w. Ir.nonlocal_result w at v x previous)) _ IsValue
          (Lowers-emit_new env (λ w. Ir.nonlocal_result w at v x previous) (λ w. refl)
            (λ w. (omega (arith, le, below), (old, tt))))
          (λ written k' le' new.
            Lowers-then _ _ IsDone (Lowers-store_name x at written new)
              (λ k'' le''. Lowers-write_back more at v (omega (arith, le, le', le'', below)))))

  pub Lowers-write_back_nonlocals :
      {n : ℕ} (f : Expression T) (at : SourceSpan) (v : Value)
      → Below n v
      → Lowers env n (write_back_nonlocals env f at v) IsDone
  unfolding write_back_nonlocals
  Lowers-write_back_nonlocals {n = n} (name f _) at v below = record {
    run = λ s le good. found s le good (get f s.nested_defs);
  }
    where
      found :
          (s : Lowerer T)
          → n ≤ s.next_value_id
          → IsGood env s
          → (o : Option (Statement T))
          → Outcome env IsDone s (elim o as (λ _. Result LoweringError (Unit {0} × Lowerer T)) [
            | none ↦ give tt s
            | some nested ↦ write_back env (env.scoping.nonlocals_of nested) at v s
          ])
      found s le good none = (Lowers-give env {n = n} tt IsDone (λ k le'. tt)).run s le good
      found s le good (some nested) =
          (Lowers-write_back (env.scoping.nonlocals_of nested) at v below).run s le good
  Lowers-write_back_nonlocals f at v below = Lowers-give env tt IsDone (λ k le. tt)
