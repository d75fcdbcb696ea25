-- ===== src/Cfg/Builder/Comprehension.antt =====
-- The parts of `comprehension` of cfg/builder.py: its loops, and what they fill.
use coretrace_python_analyze.Hir.{
  name, constant, binary_op, unary_op, bool_op, compare, attribute, subscript, call, tuple, list,
  dict, formatted_string, slice, starred, set, conditional, lambda, await, yield, named_expr,
  comprehension, nil, cons, absent, present, no_keywords, no_items, no_generators, generator,
  assign, expression_statement, if_statement, for_statement, empty, first, Expression, Expressions,
  Maybe, Generators, Statement, Statements,
}
use coretrace_python_analyze.Findings.{SourceSpan}
use coretrace_python_analyze.Cfg.Builder.Rename.{bound_names, rename}
use coretrace_python_analyze.Base.{
  Bool, true, false, Dict, List, [], ◌∷◌, String, ℕ, add, get_or, put, length, if◌then◌else◌,
  string_eq, ◌==◌, list_eq, nat_eq, option_eq, pair_eq,
}

-- What the builder has Python make: the texts of f-strings, and constants.
pub record Making (T : Type 0) : Type 0 where
  -- `f"{kind}_{n}"`
  pub numbered : String → ℕ → String
  -- `f"_coretrace_{kind}_{line}_{column}_{n}"`
  pub hidden_name : String → ℕ → ℕ → ℕ → String
  -- `f"var_{name}"`
  pub variable : String → String
  -- `f"_match_arg_{i}"`
  pub match_argument : ℕ → String
  pub truth : Bool → T
  pub number : ℕ → T
  -- `-n`
  pub negative : ℕ → T

-- The builder's synthetic names, the pending statements, and whether an assertion failed.
pub record Hoisting (T : Type 0) : Type 0 where
  pub synthetic : List String
  pub pending : Statements T
  pub failed : Bool

module _ {T : Type 0} where
  unfoldable pub append : Statements T → Statements T → Statements T
  append empty after = after
  append (first s more) after = first s (append more after)

  unfoldable pub push : Statement T → Hoisting T → Hoisting T
  unfolding append
  push s h = record h { pending = append h.pending (first s empty) }

  unfoldable pub span_of : Expression T → SourceSpan
  span_of (name _ at) = at
  span_of (constant _ at) = at
  span_of (binary_op _ _ _ at) = at
  span_of (unary_op _ _ at) = at
  span_of (bool_op _ _ at) = at
  span_of (compare _ _ _ at) = at
  span_of (attribute _ _ at) = at
  span_of (subscript _ _ at) = at
  span_of (call _ _ _ at) = at
  span_of (tuple _ at) = at
  span_of (list _ at) = at
  span_of (dict _ at) = at
  span_of (formatted_string _ at) = at
  span_of (slice _ _ _ at) = at
  span_of (starred _ at) = at
  span_of (set _ at) = at
  span_of (conditional _ _ _ at) = at
  span_of (lambda _ _ at) = at
  span_of (await _ at) = at
  span_of (yield _ at _) = at
  span_of (named_expr _ _ _ at) = at
  span_of (comprehension _ _ _ at _) = at

  unfoldable pub wrap_conditions : Dict String String → Expressions T → Statements T → Statements T
  unfolding span_of
  wrap_conditions renames nil body = body
  wrap_conditions renames (cons c more) body =
      first (if_statement (rename renames c) (wrap_conditions renames more body) empty (span_of c))
        empty

  -- The statement that adds one element to a comprehension's result.
  unfoldable pub innermost :
      String → Dict String String → Expression T → Expression T → Maybe T → SourceSpan → Statement T
  innermost kind renames result element key at =
      let key' : Expression T = elim key [ absent ↦ element | present k ↦ k ] in
      let method = if kind == "set" then "add" else "append" in
      if kind == "dict"
      then assign (subscript result (rename renames key') at) (rename renames element) at
      else expression_statement
          (call (attribute result method at) (cons (rename renames element) nil) no_keywords at) at

  unfoldable pub initial : String → SourceSpan → Expression T
  initial kind at =
      if kind == "set"
      then call (name "set" at) nil no_keywords at
      else if kind == "dict"
      then dict no_items at
      else list nil at

  -- A `dict` comprehension has a key: this is asserted.
  unfoldable pub assert_key : String → Maybe T → Hoisting T → Hoisting T
  assert_key kind (present _) h = h
  assert_key kind absent h = if kind == "dict" then record h { failed = true } else h

  unfoldable pub push_all : Statements T → Hoisting T → Hoisting T
  unfolding append
  push_all body h = record h { pending = append h.pending body }

  module _ (making : Making T) where
    open making use {hidden_name, variable}

    -- `hidden`: a new synthetic local.
    unfoldable pub hidden : String → SourceSpan → Hoisting T → String × Hoisting T
    hidden kind at h =
        let fresh = hidden_name kind at.start_line at.start_column (length h.synthetic) in
        (fresh, record h { synthetic = add fresh h.synthetic })

    -- The new names of a target's variables.
    unfoldable pub hide_names :
        List String → SourceSpan → Dict String String → Hoisting T → Dict String String × Hoisting T
    unfolding hidden
    hide_names [] at renames h = (renames, h)
    hide_names (x ∷ more) at renames h =
        let (fresh, h') = hidden (variable x) at h in hide_names more at (put x fresh renames) h'

    unfoldable pub hide_generators :
        Generators T → Dict String String → Hoisting T → Dict String String × Hoisting T
    unfolding hide_names bound_names span_of
    hide_generators no_generators renames h = (renames, h)
    hide_generators (generator target _ _ _ more) renames h =
        let (renames', h') = hide_names (bound_names target) (span_of target) renames h in
        hide_generators more renames' h'

    -- One `for` around a body. A target that is no name is assigned from a hidden one.
    -- (The renamed target is asserted to be one; see `rename-is_target`.)
    unfoldable pub wrap_loop :
        Dict String String
        → Expression T
        → Expression T
        → SourceSpan
        → Statements T
        → Hoisting T
        → Statements T × Hoisting T
    unfolding hidden span_of
    wrap_loop renames (name identifier target_at) iterable at body h = (
      first
          (for_statement (get_or identifier identifier renames) target_at iterable body false at
            empty)
          empty,
      h,
    )
    wrap_loop renames target iterable at body h =
        let (element, h') = hidden "item" (span_of target) h in
        let body' =
          first (assign (rename renames target) (name element (span_of target)) (span_of target))
            body in
        (first (for_statement element (span_of target) iterable body' false at empty) empty, h')

    -- The loops of the generators after the first.
    unfoldable pub wrap_generators :
        Dict String String → Generators T → Statements T → Hoisting T → Statements T × Hoisting T
    unfolding wrap_conditions wrap_loop
    wrap_generators renames no_generators body h = (body, h)
    wrap_generators renames (generator target iterable conditions at more) body h =
        let (inner, h') = wrap_generators renames more body h in
        wrap_loop renames target (rename renames iterable) at
          (wrap_conditions renames conditions inner) h'
