-- ===== src/Ir/Lowering/Values/Executed.antt =====
-- `store` and `statement` of ir/lowering.py.
use coretrace_python_analyze.Hir.{
  attribute, subscript, nil, cons, no_keywords, keyword, no_parameters, parameter, assign,
  aug_assign, expression_statement, pass, delete, declaration, assert, enter_with, exit_with,
  enter_handler, import, import_from, global, nonlocal, function, class, Expression, Expressions,
  Keywords, Parameters, Statement, ImportAlias,
}
use coretrace_python_analyze.Ir
use coretrace_python_analyze.Ir.{
  Value, SymbolId, value_result, value_operands, effect_operands, from_option,
}
use coretrace_python_analyze.Findings.{SourceSpan}
use coretrace_python_analyze.Cfg.Builder.Statements.{statement_span}
use coretrace_python_analyze.Ir.Lowering.{
  unsupported, unresolved_import, missing_context, LoweringError, Environment, Lowerer, Lower,
  span_key, SpanKey, ◌>>◌, give, fail, emit_effect,
}
use coretrace_python_analyze.Ir.Lowering.Expressions.{store_name}
use coretrace_python_analyze.Ir.Lowering.Statements.{
  store, run_all, run_keywords, run_defaults, delete_all, bound_by, import_all, remember_context,
  context_at, define_nested, statement, statements,
}
use coretrace_python_analyze.Ir.Lowering.Triples.{
  IsGood, Extends-refl, Outcome, Lowers, Lowers-bind, Lowers-give, Lowers-fail, Lowers-emit_effect,
  Lowers-emit_new,
}
use coretrace_python_analyze.Ir.Lowering.Values.{Lowers-read_names, Lowers-store_name, Lowers-then}
use coretrace_python_analyze.Ir.Lowering.Values.Computed.{Lowers-expression, Lowers-optional}
use coretrace_python_analyze.Ir.Lowering.Counted.{
  Below, AllValues-put, AllValues-get, IfAny, IsValue, IsDone, AreValues, IsOption, IsOption-values,
}
use coretrace_python_analyze.Base.{
  List, [], ◌∷◌, Option, none, some, String, ℕ, arith, refl, get, ◌==◌, string_eq, pair_eq, nat_eq,
  option_eq, Bool-cases, inl, inr, Result, list_eq,
}
use coretrace_python_analyze.Ir.Lowering.Values.Stored.{Lowers-into, Lowers-store}

module _ {T : Type 0} (env : Environment T) where
  Lowers-run_all : {n : ℕ} (es : Expressions T) → Lowers env n (run_all env es) IsDone
  unfolding run_all
  Lowers-run_all nil = Lowers-give env tt IsDone (λ k le. tt)
  Lowers-run_all (cons e more) =
      Lowers-into env _ _ IsDone (Lowers-expression env e) (λ v k le below. Lowers-run_all more)

  Lowers-run_keywords : {n : ℕ} (ks : Keywords T) → Lowers env n (run_keywords env ks) IsDone
  unfolding run_keywords
  Lowers-run_keywords no_keywords = Lowers-give env tt IsDone (λ k le. tt)
  Lowers-run_keywords (keyword _ e _ more) =
      Lowers-into env _ _ IsDone (Lowers-expression env e)
        (λ v k le below. Lowers-run_keywords more)

  Lowers-run_defaults : {n : ℕ} (ps : Parameters T) → Lowers env n (run_defaults env ps) IsDone
  unfolding run_defaults
  Lowers-run_defaults no_parameters = Lowers-give env tt IsDone (λ k le. tt)
  Lowers-run_defaults (parameter _ _ default _ _ more) =
      Lowers-bind env _ _ IsOption (Lowers-optional env default)
        (λ v k le below. Lowers-run_defaults more)

  Lowers-delete_all : {n : ℕ} (es : Expressions T) → Lowers env n (delete_all env es) IsDone
  unfolding delete_all effect_operands
  Lowers-delete_all nil = Lowers-give env tt IsDone (λ k le. tt)
  Lowers-delete_all (cons (subscript e key at) more) =
      Lowers-into env _ _ IsDone (Lowers-expression env e) (λ object k le found.
        Lowers-into env _ _ IsDone (Lowers-expression env key) (λ place k' le' placed.
          Lowers-then env _ _ IsDone
            (Lowers-emit_effect env (Ir.del_item at object place)
              (omega (arith, le', found), (placed, tt)))
            (λ k'' le''. Lowers-delete_all more)))
  Lowers-delete_all (cons (attribute e attr at) more) =
      Lowers-into env _ _ IsDone (Lowers-expression env e) (λ object k le found.
        Lowers-then env _ _ IsDone (Lowers-emit_effect env (Ir.del_attr at object attr) (found, tt))
          (λ k'' le''. Lowers-delete_all more))
  Lowers-delete_all (cons _ more) = Lowers-delete_all more

  Lowers-import_all :
      {n : ℕ} (from_module : Option String) (names : List (ImportAlias T)) (at : SourceSpan)
      → Lowers env n (import_all env from_module names at) IsDone
  unfolding import_all effect_operands
  Lowers-import_all from_module [] at = Lowers-give env tt IsDone (λ k le. tt)
  Lowers-import_all {n = n} from_module (alias ∷ more) at =
      elim (Bool-cases (alias.imported == "*")) [
        | inl star ↦ rw star (Lowers-import_all from_module more at)
        | inr named ↦ rw named (
            bound (env.scoping.symbol_of (bound_by env alias))
              (λ k. Lowers-import_all from_module more at))
      ]
    where
      bound :
          (found : Option SymbolId)
          → ((k : ℕ) → Lowers env k (import_all env from_module more at) IsDone)
          → Lowers env n
              (elim found as (λ _. Lower T (Unit {0})) [
                | none ↦ fail (unresolved_import at (bound_by env alias))
                | some symbol_id ↦
                    emit_effect (
                      Ir.import alias.span
                        (elim from_module [ none ↦ alias.imported | some m ↦ m ])
                        symbol_id
                        (bound_by env alias))
                    >> import_all env from_module more at
              ])
              IsDone
      bound none rest = Lowers-fail env (unresolved_import at (bound_by env alias)) IsDone
      bound (some symbol_id) rest =
          Lowers-then env _ _ IsDone (Lowers-emit_effect env _ tt) (λ k le. rest k)

  Lowers-remember_context :
      {n : ℕ} (at : SpanKey) (v : Value)
      → Below n v
      → Lowers env n (remember_context env at v) IsDone
  unfolding remember_context Outcome
  Lowers-remember_context at v below = record {
    run = λ s le good. (
      record {
        read = good.read;
        iterators = good.iterators;
        contexts =
            AllValues-put s.next_value_id at v s.contexts (omega (arith, le, below)) good.contexts;
        parameters = good.parameters;
      },
      record { grows = omega arith; defines = (Extends-refl env s).defines },
      tt,
    );
  }

  Lowers-context_at : {n : ℕ} (at : SourceSpan) → Lowers env n (context_at env at) IsValue
  unfolding context_at
  Lowers-context_at {n = n} at = record {
    run = λ s le good.
        found s good (get (span_key at) s.contexts)
          (AllValues-get s.next_value_id (span_key at) s.contexts good.contexts);
  }
    where
      found :
          (s : Lowerer T)
          → IsGood env s
          → (o : Option Value) → IfAny s.next_value_id o
          → Outcome env IsValue s (elim o as (λ _. Result LoweringError (Value × Lowerer T)) [
            | none ↦ fail (missing_context at) s
            | some context ↦ give context s
          ])
      found s good none below =
          (Lowers-fail env {n = s.next_value_id} (missing_context at) IsValue).run s (omega arith)
            good
      found s good (some v) below =
          (Lowers-give env {n = s.next_value_id} v IsValue (λ k le. omega (arith, le, below))).run s
            (omega arith) good

  Lowers-define_nested :
      {n : ℕ} (f : String) (node : Statement T) → Lowers env n (define_nested env f node) IsDone
  unfolding define_nested Outcome
  Lowers-define_nested f node = record {
    run = λ s le good. (
      record {
        read = good.read;
        iterators = good.iterators;
        contexts = good.contexts;
        parameters = good.parameters;
      },
      record { grows = omega arith; defines = (Extends-refl env s).defines },
      tt,
    );
  }

  Lowers-target :
      {n : ℕ} (target : Option (Expression T)) (v : Value)
      → Below n v
      → Lowers env n
          (elim target as (λ _. Lower T (Unit {0})) [ none ↦ give tt | some e ↦ store env e v ])
          IsDone
  Lowers-target none v below = Lowers-give env tt IsDone (λ k le. tt)
  Lowers-target (some e) v below = Lowers-store env e v below

  Lowers-bound :
      {n : ℕ} (bound : Option String) (at : SourceSpan) (v : Value)
      → Below n v
      → Lowers env n
          (elim bound as (λ _. Lower T (Unit {0})) [
            | none ↦ give tt
            | some x ↦ store_name env x at v
          ])
          IsDone
  Lowers-bound none at v below = Lowers-give env tt IsDone (λ k le. tt)
  Lowers-bound (some x) at v below = Lowers-store_name env x at v below

  pub Lowers-statement : {n : ℕ} (s : Statement T) → Lowers env n (statement env s) IsDone
  unfolding statement value_result value_operands effect_operands
  Lowers-statement (assign target value at) =
      Lowers-into env _ _ IsDone (Lowers-expression env value)
        (λ v k le below. Lowers-store env target v below)
  Lowers-statement (declaration _ _ _) = Lowers-give env tt IsDone (λ k le. tt)
  Lowers-statement (class c bases body at decorators keywords) =
      Lowers-then env _ _ IsDone (Lowers-run_all decorators) (λ k le.
        Lowers-then env _ _ IsDone (Lowers-run_all bases) (λ k' le'.
          Lowers-then env _ _ IsDone (Lowers-run_keywords keywords) (λ k'' le''.
            Lowers-into env _ _ IsDone
              (Lowers-emit_new env (λ v. Ir.make_class v at c) (λ v. refl) (λ v. tt))
              (λ v k3 le3 below. Lowers-store_name env c at v below))))
  Lowers-statement (delete targets at) = Lowers-delete_all targets
  Lowers-statement (function f parameters body is_async at decorators) =
      Lowers-then env _ _ IsDone (Lowers-run_all decorators) (λ k le.
        Lowers-then env _ _ IsDone (Lowers-run_defaults parameters) (λ k' le'.
          Lowers-bind env _ _ AreValues
            (Lowers-read_names env
              (env.scoping.captured_by (function f parameters body is_async at decorators)) at)
            (λ captured k'' le'' belows.
              Lowers-into env _ _ IsDone
                (Lowers-emit_new env (λ v. Ir.make_function v at f captured) (λ v. refl)
                  (λ v. belows))
                (λ v k3 le3 below.
                  Lowers-then env _ _ IsDone (Lowers-store_name env f at v below) (λ k4 le4.
                    Lowers-define_nested f (function f parameters body is_async at decorators))))))
  Lowers-statement (aug_assign target op value at) =
      Lowers-into env _ _ IsDone (Lowers-expression env target) (λ u k le below.
        Lowers-into env _ _ IsDone (Lowers-expression env value) (λ v k' le' below'.
          Lowers-into env _ _ IsDone
            (Lowers-emit_new env (λ w. Ir.binary_op w at op u v) (λ w. refl)
              (λ w. (omega (arith, le', below), (below', tt))))
            (λ w k'' le'' below''. Lowers-store env target w below'')))
  Lowers-statement (assert test message at) =
      Lowers-into env _ _ IsDone (Lowers-expression env test) (λ v k le below.
        Lowers-bind env _ _ IsOption (Lowers-optional env message) (λ o k' le' said.
          Lowers-emit_effect env (Ir.assert at v o)
            (omega (arith, le', below), IsOption-values o k' k' (omega arith) said)))
  Lowers-statement (enter_with i at) =
      Lowers-into env _ _ IsDone (Lowers-expression env i.context) (λ v k le below.
        Lowers-then env _ _ IsDone (Lowers-remember_context (span_key i.span) v below) (λ k' le'.
          Lowers-into env _ _ IsDone
            (Lowers-emit_new env (λ w. Ir.with_enter w i.span v) (λ w. refl)
              (λ w. (omega (arith, le', below), tt)))
            (λ w k'' le'' below''. Lowers-target i.target w below'')))
  Lowers-statement (exit_with i at) =
      Lowers-into env _ _ IsDone (Lowers-context_at i.span)
        (λ v k le below. Lowers-emit_effect env (Ir.with_exit i.span v) (below, tt))
  Lowers-statement (enter_handler type bound body handler_at at) =
      Lowers-bind env _ _ IsOption (Lowers-optional env type) (λ o k le below.
        Lowers-into env _ _ IsDone
          (Lowers-emit_new env (λ w. Ir.catch w handler_at o) (λ w. refl)
            (λ w. IsOption-values o k k (omega arith) below))
          (λ w k' le' below'. Lowers-bound bound handler_at w below'))
  Lowers-statement (expression_statement e at) =
      Lowers-into env _ _ IsDone (Lowers-expression env e)
        (λ v k le below. Lowers-give env tt IsDone (λ k' le'. tt))
  Lowers-statement (import names at) = Lowers-import_all none names at
  Lowers-statement (import_from from_module names level at) =
      Lowers-import_all
        (some (env.texts.dotted level (elim from_module [ none ↦ "" | some m ↦ m ]))) names at
  Lowers-statement (pass _) = Lowers-give env tt IsDone (λ k le. tt)
  Lowers-statement (global _ _) = Lowers-give env tt IsDone (λ k le. tt)
  Lowers-statement (nonlocal _ _) = Lowers-give env tt IsDone (λ k le. tt)
  Lowers-statement s = Lowers-fail env (unsupported (statement_span s)) IsDone

  pub Lowers-statements :
      {n : ℕ} (ss : List (Statement T)) → Lowers env n (statements env ss) IsDone
  unfolding statements
  Lowers-statements [] = Lowers-give env tt IsDone (λ k le. tt)
  Lowers-statements (s ∷ more) =
      Lowers-then env _ _ IsDone (Lowers-statement s) (λ k le. Lowers-statements more)
