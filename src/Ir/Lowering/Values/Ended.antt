-- ===== src/Ir/Lowering/Values/Ended.antt =====
-- `terminator` and `enter_loop` of ir/lowering.py.
use coretrace_python_analyze.Hir.{Expression}
use coretrace_python_analyze.Ir
use coretrace_python_analyze.Ir.{
  Value, Instruction, FunctionIr, operands, terminator_operands, terminator_targets, value_result,
  value_operands, effect_operands, from_option,
}
use coretrace_python_analyze.Findings.{SourceSpan}
use coretrace_python_analyze.Cfg.{
  Cfg, BlockId, Terminator, BasicBlock, branch, jump, return, raise, for_each, targets,
}
use coretrace_python_analyze.Cfg.Builder.Layout.{hir}
use coretrace_python_analyze.Ir.Lowering.{
  Resolution, local, free, global, unbound, LoweringError, global_target, missing_block,
  missing_iterator, Environment, Lowerer, Lower, ◌>>=◌, give, fail, emit_new,
}
use coretrace_python_analyze.Ir.Lowering.Expressions.{expression, resolve}
use coretrace_python_analyze.Ir.Lowering.Functions.{
  enter_loop, iterator_of, optional_value, terminator,
}
use coretrace_python_analyze.Ir.Lowering.Triples.{
  IsGood, Extends-refl, Outcome, Lowers, Lowers-bind, Lowers-give, Lowers-fail, Lowers-emit_new,
}
use coretrace_python_analyze.Ir.Lowering.Values.{Lowers-then}
use coretrace_python_analyze.Ir.Lowering.Values.Computed.{Lowers-expression}
use coretrace_python_analyze.Ir.Lowering.Counted.{
  Below, All-Below-append, AllValues-put, AllValues-get, IfAny, IsValue, IsDone, IsOption,
  IsOption-values,
}
use coretrace_python_analyze.Ir.Lowering.Values.Stored.{Lowers-into}
use coretrace_python_analyze.Base.{
  All, Bool, true, false, List, Option, none, some, ℕ, ◌≡◌, arith, refl, get, put, contains,
  if◌then◌else◌, string_eq, pair_eq, nat_eq, option_eq, Result, list_eq,
}

module _ {T : Type 0} where
  -- A terminator with the targets of another, which reads what was counted.
  abbrev pub IsEnd : Terminator (hir T) → Ir.Terminator T SourceSpan → ℕ → Type 0
  IsEnd t end k = All (Below k) (terminator_operands end) × (terminator_targets end ≡ targets t)

  module _ (env : Environment T) (cfg : Cfg (hir T)) (back_edges : List (BlockId × BlockId)) where
    Lowers-iterator_of :
        {n : ℕ} (id : BlockId) → Lowers env n (iterator_of env cfg back_edges id) IsValue
    unfolding iterator_of
    Lowers-iterator_of {n = n} id = record {
      run = λ s le good.
          found s good (get id s.iterators)
            (AllValues-get s.next_value_id id s.iterators good.iterators);
    }
      where
        found :
            (s : Lowerer T)
            → IsGood env s
            → (o : Option Value) → IfAny s.next_value_id o
            → Outcome env IsValue s (elim o as (λ _. Result LoweringError (Value × Lowerer T)) [
              | none ↦ fail (missing_iterator id) s
              | some v ↦ give v s
            ])
        found s good none below =
            (Lowers-fail env {n = s.next_value_id} (missing_iterator id) IsValue).run s
              (omega arith) good
        found s good (some v) below =
            (Lowers-give env {n = s.next_value_id} v IsValue (λ k le. omega (arith, le, below))).run
              s (omega arith) good

    Lowers-remember :
        {n : ℕ} (target : BlockId) (v : Value)
        → Below n v
        → Lowers env n (λ s. give tt (record s { iterators = put target v s.iterators })) IsDone
    unfolding Outcome
    Lowers-remember target v below = record {
      run = λ s le good. (
        record {
          read = good.read;
          iterators =
              AllValues-put s.next_value_id target v s.iterators (omega (arith, le, below))
                good.iterators;
          contexts = good.contexts;
          parameters = good.parameters;
        },
        record { grows = omega arith; defines = (Extends-refl env s).defines },
        tt,
      );
    }

    Lowers-enter_loop :
        {n : ℕ} (source target : BlockId)
        → Lowers env n (enter_loop env cfg back_edges source target) IsDone
    unfolding enter_loop value_result value_operands
    Lowers-enter_loop {n = n} source target = entered (get target cfg.blocks)
      where
        taken :
            (iterable : Expression T) (at : SourceSpan) (again : Bool)
            → Lowers env n
                (if again
                  then give tt
                  else (expression env iterable >>= λ found.
                      emit_new (λ v. Ir.get_iter v at found) >>= λ iterator.
                      (λ s. give tt (record s { iterators = put target iterator s.iterators }))))
                IsDone
        taken iterable at true = Lowers-give env tt IsDone (λ k le. tt)
        taken iterable at false =
            Lowers-into env _ _ IsDone (Lowers-expression env iterable) (λ u k le below.
              Lowers-into env _ _ IsDone
                (Lowers-emit_new env (λ v. Ir.get_iter v at u) (λ v. refl) (λ v. (below, tt)))
                (λ v k' le' below'. Lowers-remember target v below'))

        by_end :
            (t : Terminator (hir T))
            → Lowers env n
                (elim t as (λ _. Lower T (Unit {0})) [
                  | branch _ _ _ _ ↦ give tt
                  | jump _ _ ↦ give tt
                  | return _ _ ↦ give tt
                  | raise _ _ _ ↦ give tt
                  | for_each _ iterable _ _ at ↦
                      if contains back_edges (source, target)
                      then give tt
                      else (expression env iterable >>= λ found.
                          emit_new (λ v. Ir.get_iter v at found) >>= λ iterator.
                          (λ s. give tt (record s { iterators = put target iterator s.iterators })))
                ])
                IsDone
        by_end (branch _ _ _ _) = Lowers-give env tt IsDone (λ k le. tt)
        by_end (jump _ _) = Lowers-give env tt IsDone (λ k le. tt)
        by_end (return _ _) = Lowers-give env tt IsDone (λ k le. tt)
        by_end (raise _ _ _) = Lowers-give env tt IsDone (λ k le. tt)
        by_end (for_each _ iterable _ _ at) =
            taken iterable at (contains back_edges (source, target))

        entered :
            (o : Option (BasicBlock (hir T)))
            → Lowers env n
                (elim o as (λ _. Lower T (Unit {0})) [
                  | none ↦ fail (missing_block target)
                  | some header ↦ elim header.terminator as (λ _. Lower T (Unit {0})) [
                    | branch _ _ _ _ ↦ give tt
                    | jump _ _ ↦ give tt
                    | return _ _ ↦ give tt
                    | raise _ _ _ ↦ give tt
                    | for_each _ iterable _ _ at ↦
                        if contains back_edges (source, target)
                        then give tt
                        else (expression env iterable >>= λ found.
                            emit_new (λ v. Ir.get_iter v at found) >>= λ iterator. (λ s.
                              give tt (record s { iterators = put target iterator s.iterators })))
                  ]
                ])
                IsDone
        entered none = Lowers-fail env (missing_block target) IsDone
        entered (some header) = by_end header.terminator

    Lowers-optional_value :
        {n : ℕ} (o : Option (Expression T))
        → Lowers env n (optional_value env cfg back_edges o) IsOption
    Lowers-optional_value none = Lowers-give env none IsOption (λ k le. tt)
    Lowers-optional_value (some e) =
        Lowers-into env _ _ IsOption (Lowers-expression env e)
          (λ v k le below. Lowers-give env (some v) IsOption (λ k' le'. omega (arith, le', below)))

    pub Lowers-terminator :
        {n : ℕ} (id : BlockId) (t : Terminator (hir T))
        → Lowers env n (terminator env cfg back_edges id t) (IsEnd t)
    unfolding terminator terminator_operands terminator_targets targets
    Lowers-terminator id (return value at) =
        Lowers-bind env _ _ IsOption (Lowers-optional_value value) (λ o k le below.
          Lowers-give env (Ir.return at o) (IsEnd (return value at))
            (λ k' le'. (IsOption-values o k k' le' below, refl)))
    Lowers-terminator id (branch condition x y at) =
        Lowers-into env _ _ (IsEnd (branch condition x y at)) (Lowers-expression env condition)
          (λ v k le below.
            Lowers-give env (Ir.branch at v x y) (IsEnd (branch condition x y at))
              (λ k' le'. ((omega (arith, le', below), tt), refl)))
    Lowers-terminator id (raise exception at cause) =
        Lowers-bind env _ _ IsOption (Lowers-optional_value exception) (λ o k le below.
          Lowers-bind env _ _ IsOption (Lowers-optional_value cause) (λ p k' le' below'.
            Lowers-give env (Ir.raise at o p) (IsEnd (raise exception at cause)) (λ k'' le''. (
              All-Below-append k'' (from_option o) (from_option p)
                  (IsOption-values o k k'' (omega (arith, le', le'')) below)
                  (IsOption-values p k' k'' le'' below'),
              refl,
            ))))
    Lowers-terminator id (jump target at) =
        Lowers-then env _ _ (IsEnd (jump target at)) (Lowers-enter_loop id target) (λ k le.
          Lowers-give env (Ir.jump at target) (IsEnd (jump target at)) (λ k' le'. (tt, refl)))
    Lowers-terminator {n = n} id (for_each (x, x_at) iterable body exit at) = bound (resolve env x)
      where
        bind : Lower T (Ir.Terminator T SourceSpan)
        bind = iterator_of env cfg back_edges id >>= λ iterator.
            give (Ir.for_next at iterator x body exit none)

        bound :
            (r : Resolution)
            → Lowers env n
                (elim r as (λ _. Lower T (Ir.Terminator T SourceSpan)) [
                  | local ↦ bind
                  | free ↦ fail (global_target x_at)
                  | global ↦ fail (global_target x_at)
                  | unbound ↦ fail (global_target x_at)
                ])
                (IsEnd (for_each (x, x_at) iterable body exit at))
        bound local =
            Lowers-into env _ _ (IsEnd (for_each (x, x_at) iterable body exit at))
              (Lowers-iterator_of id)
              (λ v k le below.
                Lowers-give env (Ir.for_next at v x body exit none)
                  (IsEnd (for_each (x, x_at) iterable body exit at))
                  (λ k' le'. ((omega (arith, le', below), tt), refl)))
        bound free =
            Lowers-fail env (global_target x_at) (IsEnd (for_each (x, x_at) iterable body exit at))
        bound global =
            Lowers-fail env (global_target x_at) (IsEnd (for_each (x, x_at) iterable body exit at))
        bound unbound =
            Lowers-fail env (global_target x_at) (IsEnd (for_each (x, x_at) iterable body exit at))
