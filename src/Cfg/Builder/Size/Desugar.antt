-- ===== src/Cfg/Builder/Size/Desugar.antt =====
-- A statement is laid out as smaller ones.
use coretrace_python_analyze.Hir.{
  unary_op, assign, aug_assign, return, expression_statement, assert, if_statement, while_statement,
  for_statement, break, raise, with_statement, empty, first, Expression, Statement, Statements,
  WithItem,
}
use coretrace_python_analyze.Cfg.Builder.Size.{
  weight, contexts_weight, size, statements_size, parts,
}
use coretrace_python_analyze.Cfg.Builder.Size.Hoist.{size-append, size-hoist, size-hoist_maybe}
use coretrace_python_analyze.Cfg.Builder.Comprehension.{Making, Hoisting, append}
use coretrace_python_analyze.Cfg.Builder.Hoist.{hoist, hoist_maybe}
use coretrace_python_analyze.Cfg.Builder.Rename.{has_control_flow}
use coretrace_python_analyze.Cfg.Builder.Desugar.{desugar, desugar_while, hoist_items_of}
use coretrace_python_analyze.Findings.{SourceSpan}
use coretrace_python_analyze.Base.{
  suc, List, [], ◌∷◌, ◌+◌, String, false, ◌≤◌, arith, Bool-cases, inl, inr, list_eq, nat_eq,
  option_eq, pair_eq, string_eq,
}

module _ {T : Type 0} (making : Making T) where
  size-hoist_items_of :
      (items : List (WithItem T)) (h : Hoisting T)
      → statements_size (hoist_items_of making items h).1.pending
        ≤ statements_size h.pending + contexts_weight items
  unfolding hoist_items_of size
  size-hoist_items_of [] h = omega arith
  size-hoist_items_of (i ∷ more) h =
      omega (
        arith,
        size-hoist making i.context h,
        size-hoist_items_of more (hoist making i.context h).1,
      )

  abbrev pub begun : List String → Hoisting T
  begun synthetic = record { synthetic = synthetic; pending = empty; failed = false }

  -- What comes first, and what is then laid out, are smaller than the statement.
  abbrev pub IsSmaller : Statement T → Statement T × Hoisting T → Type 0
  IsSmaller s r = (suc (statements_size r.1.pending) ≤ size s) × (suc (parts r.0) ≤ size s)

  IsSmaller-while :
      (c : Expression T) (body : Statements T) (at : SourceSpan) (orelse : Statements T)
      (names : List String)
      → IsSmaller
          (while_statement c body at orelse)
          (desugar_while making c body at orelse (begun names))
  unfolding desugar_while size weight parts
  IsSmaller-while c body at orelse names =
      let (c', h₁) = hoist making c (begun names) in
      let stop =
        if_statement (unary_op "not" c' at) (append orelse (first (break at) empty)) empty at in
      (
        omega arith,
        omega (
          arith,
          size-hoist making c (begun names),
          size-append orelse (first (break at) empty),
          size-append h₁.pending (first stop body),
        ),
      )

  -- The sizes that fuel is counted by go down: those of what is laid out before the statement and of
  -- what is laid out in it.
  pub desugar-IsSmaller :
      (s : Statement T) (names : List String) → IsSmaller s (desugar making s (begun names))
  unfolding desugar size parts
  desugar-IsSmaller (while_statement c body at orelse) names =
      elim (Bool-cases (has_control_flow c)) [
        | inl flows ↦ rw flows (IsSmaller-while c body at orelse names)
        | inr plain ↦ rw plain (omega arith, omega arith)
      ]
  desugar-IsSmaller (assign t v _) names = (
    omega (
      arith,
      size-hoist making t (begun names),
      size-hoist making v (hoist making t (begun names)).1,
    ),
    omega arith,
  )
  desugar-IsSmaller (aug_assign t _ v _) names = (
    omega (
      arith,
      size-hoist making t (begun names),
      size-hoist making v (hoist making t (begun names)).1,
    ),
    omega arith,
  )
  desugar-IsSmaller (expression_statement e _) names =
      (omega (arith, size-hoist making e (begun names)), omega arith)
  desugar-IsSmaller (return v _) names =
      (omega (arith, size-hoist_maybe making v (begun names)), omega arith)
  desugar-IsSmaller (raise e _ c) names = (
    omega (
      arith,
      size-hoist_maybe making e (begun names),
      size-hoist_maybe making c (hoist_maybe making e (begun names)).1,
    ),
    omega arith,
  )
  desugar-IsSmaller (assert t m _) names = (
    omega (
      arith,
      size-hoist_maybe making m (begun names),
      size-hoist making t (hoist_maybe making m (begun names)).1,
    ),
    omega arith,
  )
  desugar-IsSmaller (if_statement c _ _ _) names =
      (omega (arith, size-hoist making c (begun names)), omega arith)
  desugar-IsSmaller (for_statement _ _ i _ _ _ _) names =
      (omega (arith, size-hoist making i (begun names)), omega arith)
  desugar-IsSmaller (with_statement items _ _ _) names =
      (omega (arith, size-hoist_items_of items (begun names)), omega arith)
  desugar-IsSmaller s names = (omega arith, omega arith)
