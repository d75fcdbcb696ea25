-- ===== src/Cfg/Builder/Desugar.antt =====
-- `desugared` and `match_statement` of cfg/builder.py: the statements that a statement stands for.
use coretrace_python_analyze.Hir.{
  constant, unary_op, bool_op, nil, cons, absent, present, assign, aug_assign, return,
  expression_statement, assert, if_statement, while_statement, for_statement, break, raise,
  with_statement, empty, first, no_cases, case, Expression, Maybe, Statement, Statements, Cases,
  WithItem,
}
use coretrace_python_analyze.Findings.{SourceSpan}
use coretrace_python_analyze.Cfg.Builder.Rename.{has_control_flow}
use coretrace_python_analyze.Cfg.Builder.Comprehension.{Making, Hoisting, append}
use coretrace_python_analyze.Cfg.Builder.Hoist.{hoist, hoist_maybe}
use coretrace_python_analyze.Cfg.Builder.Patterns.{BuildError, pattern}
use coretrace_python_analyze.Base.{
  true, Dict, List, [], ◌∷◌, String, Result, ok, ◌>>=◌, if◌then◌else◌, list_eq, nat_eq, option_eq,
  pair_eq, string_eq,
}

module _ {T : Type 0} (making : Making T) where
  unfoldable pub hoist_items_of : List (WithItem T) → Hoisting T → List (WithItem T) × Hoisting T
  unfolding hoist
  hoist_items_of [] h = ([], h)
  hoist_items_of (i ∷ more) h =
      let (context', h₁) = hoist making i.context h in
      let (more', h₂) = hoist_items_of more h₁ in (record i { context = context' } ∷ more', h₂)

  -- `while <control flow>:` computes its condition in its body, and breaks.
  unfoldable pub desugar_while :
      Expression T
      → Statements T
      → SourceSpan
      → Statements T
      → Hoisting T
      → Statement T × Hoisting T
  unfolding hoist append
  desugar_while condition body at orelse h =
      let (condition', h₁) = hoist making condition (record h { pending = empty }) in
      let stop =
        if_statement (unary_op "not" condition' at) (append orelse (first (break at) empty)) empty
          at in
      let body' = append h₁.pending (first stop body) in
      (
        while_statement (constant (making.truth true) at) body' at empty,
        record h₁ { pending = h.pending },
      )

  unfoldable pub desugar : Statement T → Hoisting T → Statement T × Hoisting T
  unfolding hoist hoist_items_of desugar_while has_control_flow
  desugar (while_statement condition body at orelse) h =
      if has_control_flow condition
      then desugar_while condition body at orelse h
      else (while_statement condition body at orelse, h)
  desugar (assign target value at) h =
      let (target', h₁) = hoist making target h in
      let (value', h₂) = hoist making value h₁ in (assign target' value' at, h₂)
  desugar (aug_assign target op value at) h =
      let (target', h₁) = hoist making target h in
      let (value', h₂) = hoist making value h₁ in (aug_assign target' op value' at, h₂)
  desugar (expression_statement e at) h =
      let (e', h₁) = hoist making e h in (expression_statement e' at, h₁)
  desugar (return value at) h =
      let (value', h₁) = hoist_maybe making value h in (return value' at, h₁)
  desugar (raise exception at cause) h =
      let (exception', h₁) = hoist_maybe making exception h in
      let (cause', h₂) = hoist_maybe making cause h₁ in (raise exception' at cause', h₂)
  desugar (assert test message at) h =
      let (message', h₁) = hoist_maybe making message h in
      let (test', h₂) = hoist making test h₁ in (assert test' message' at, h₂)
  desugar (if_statement condition body orelse at) h =
      let (condition', h₁) = hoist making condition h in
      (if_statement condition' body orelse at, h₁)
  desugar (for_statement target target_at iterable body is_async at orelse) h =
      let (iterable', h₁) = hoist making iterable h in
      (for_statement target target_at iterable' body is_async at orelse, h₁)
  desugar (with_statement items body is_async at) h =
      let (items', h₁) = hoist_items_of items h in (with_statement items' body is_async at, h₁)
  desugar s h = (s, h)

  unfoldable pub guarded : Expression T → Maybe T → SourceSpan → Expression T
  guarded condition absent at = condition
  guarded condition (present guard) at = bool_op "and" (cons condition (cons guard nil)) at

  -- The cases as a chain of `if`s, made from the last.
  unfoldable pub match_chain :
      Dict String (List String) → Cases T → Expression T → Result BuildError (Statements T)
  unfolding pattern guarded append
  match_chain match_args no_cases subject = ok empty
  match_chain match_args (case p guard body at more) subject =
      match_chain match_args more subject >>= λ rest.
      pattern making match_args p subject >>= λ (condition, bindings).
      ok (append bindings (first (if_statement (guarded condition guard at) body rest at) empty))
