-- ===== src/Ir/Lowering/Statements.antt =====
-- The statements of ir/lowering.py, and what they assign to.
use coretrace_python_analyze.Hir.{
  name, attribute, subscript, tuple, starred, nil, cons, no_keywords, keyword, no_parameters,
  parameter, assign, aug_assign, expression_statement, pass, delete, declaration, assert,
  enter_with, exit_with, enter_handler, import, import_from, global, nonlocal, function, class,
  Expression, Expressions, Keywords, Parameters, Statement, ImportAlias,
}
use coretrace_python_analyze.Ir
use coretrace_python_analyze.Ir.{Value}
use coretrace_python_analyze.Findings.{SourceSpan}
use coretrace_python_analyze.Cfg.Builder.Comprehension.{span_of}
use coretrace_python_analyze.Cfg.Builder.Statements.{statement_span}
use coretrace_python_analyze.Ir.Lowering.{
  unsupported, unresolved_import, missing_context, assertion, Environment, Lower, span_key, SpanKey,
  ◌>>=◌, ◌>>◌, give, fail, new_value, emit, emit_effect, emit_new,
}
use coretrace_python_analyze.Ir.Lowering.Expressions.{expression, optional, read_names, store_name}
use coretrace_python_analyze.Base.{
  Bool, true, List, [], ◌∷◌, Option, none, some, String, ℕ, suc, ◌-◌, get, put, if◌then◌else◌, ltb,
  ◌==◌, string_eq, pair_eq, nat_eq, option_eq, count, list_eq,
}

module _ {T : Type 0} where
  unfoldable pub count_elements : Expressions T → ℕ
  count_elements nil = 0
  count_elements (cons _ more) = suc (count_elements more)

  -- The place of the first starred element.
  unfoldable pub starred_place : Expressions T → Option ℕ
  starred_place nil = none
  starred_place (cons (starred _ _) more) = some 0
  starred_place (cons _ more) = elim (starred_place more) [ none ↦ none | some i ↦ some (suc i) ]

module _ {T : Type 0} (env : Environment T) where
  open env use {scoping, texts}

  -- The slice that a starred target receives.
  unfoldable pub starred_item : (index count : ℕ) → Value → SourceSpan → Lower T Value
  unfolding new_value emit
  starred_item index count value at = do
    lower ← emit_new (λ v. Ir.constant v at (texts.number index))
    upper ←
        if ltb index (count - 1)
        then emit_new (λ v. Ir.constant v at (texts.negative (count - 1 - index)))
          >>= (λ v. give (some v))
        else give none
    bounds ← emit_new (λ v. Ir.build_slice v at (some lower) upper none)
    emit_new (λ v. Ir.get_item v at value bounds)

  -- An element at its place, from the end after a starred one.
  unfoldable pub plain_item : Option ℕ → (index count : ℕ) → Value → SourceSpan → Lower T Value
  unfolding new_value emit
  plain_item star index count value at = do
    let from_start : Bool = elim star [ none ↦ true | some i ↦ ltb index i ]
    let offset : T = if from_start then texts.number index else texts.negative (count - index)
    position ← emit_new (λ v. Ir.constant v at offset)
    emit_new (λ v. Ir.get_item v at value position)

  -- A target is a name, a tuple, an attribute or a subscript; so is each element, but for its star.
  unfoldable mutual
    unfolding starred_item plain_item store_name expression count_elements starred_place span_of
        emit_effect

    pub store : Expression T → Value → Lower T (Unit {0})
    store (name x at) value = store_name env x at value
    store (attribute e attr at) value = do
      object ← expression env e
      emit_effect (Ir.set_attr at object attr value)
    store (subscript e k at) value = do
      object ← expression env e
      key ← expression env k
      emit_effect (Ir.set_item at object key value)
    store (tuple es at) value = unpack es (starred_place es) 0 (count_elements es) value
    store _ value = fail assertion

    pub unpack : Expressions T → Option ℕ → (index count : ℕ) → Value → Lower T (Unit {0})
    unpack nil star index count value = give tt
    unpack (cons (starred e at) more) star index count value = do
      element ← starred_item index count value at
      store e element
      unpack more star (suc index) count value
    unpack (cons e more) star index count value = do
      element ← plain_item star index count value (span_of e)
      store e element
      unpack more star (suc index) count value

  -- Expressions whose values are dropped.
  unfoldable pub run_all : Expressions T → Lower T (Unit {0})
  unfolding expression
  run_all nil = give tt
  run_all (cons e more) = do expression env e; run_all more

  unfoldable pub run_keywords : Keywords T → Lower T (Unit {0})
  unfolding expression
  run_keywords no_keywords = give tt
  run_keywords (keyword _ e _ more) = do expression env e; run_keywords more

  unfoldable pub run_defaults : Parameters T → Lower T (Unit {0})
  unfolding expression
  run_defaults no_parameters = give tt
  run_defaults (parameter _ _ default _ _ more) = do optional env default; run_defaults more

  unfoldable pub delete_all : Expressions T → Lower T (Unit {0})
  unfolding expression emit_effect
  delete_all nil = give tt
  delete_all (cons (subscript e k at) more) = do
    object ← expression env e
    key ← expression env k
    emit_effect (Ir.del_item at object key)
    delete_all more
  delete_all (cons (attribute e attr at) more) = do
    object ← expression env e
    emit_effect (Ir.del_attr at object attr)
    delete_all more
  delete_all (cons _ more) = delete_all more

  -- The name that an import binds.
  unfoldable pub bound_by : ImportAlias T → String
  bound_by alias = elim alias.as_name [
    | none ↦ texts.first_part alias.imported
    | some x ↦ if x == "" then texts.first_part alias.imported else x
  ]

  -- `from_module` is the module of a `from` import; `*` binds no name.
  unfoldable pub import_all : Option String → List (ImportAlias T) → SourceSpan → Lower T (Unit {0})
  unfolding bound_by emit_effect
  import_all from_module [] at = give tt
  import_all from_module (alias ∷ more) at =
      let rest = import_all from_module more at in
      let written : String = elim from_module [ none ↦ alias.imported | some m ↦ m ] in
      let bound = bound_by alias in
      if alias.imported == "*" then rest else elim (scoping.symbol_of bound) [
        | none ↦ fail (unresolved_import at bound)
        | some symbol_id ↦ emit_effect (Ir.import alias.span written symbol_id bound) >> rest
      ]

  unfoldable pub remember_context : SpanKey → Value → Lower T (Unit {0})
  remember_context at context s = give tt (record s { contexts = put at context s.contexts })

  unfoldable pub context_at : SourceSpan → Lower T Value
  context_at at s = elim (get (span_key at) s.contexts) [
    | none ↦ fail (missing_context at) s
    | some context ↦ give context s
  ]

  unfoldable pub define_nested : String → Statement T → Lower T (Unit {0})
  define_nested f node s = give tt (record s { nested_defs = put f node s.nested_defs })

  unfoldable pub statement : Statement T → Lower T (Unit {0})
  unfolding expression store run_all run_keywords run_defaults delete_all import_all
      remember_context context_at define_nested new_value emit emit_effect read_names store_name
  statement (assign target value at) = do v ← expression env value; store target v
  statement (declaration _ _ _) = give tt
  statement (class c bases body at decorators keywords) = do
    run_all decorators
    run_all bases
    run_keywords keywords
    made ← emit_new (λ v. Ir.make_class v at c)
    store_name env c at made
  statement (delete targets at) = delete_all targets
  statement (function f parameters body is_async at decorators) = do
    run_all decorators
    run_defaults parameters
    captured ←
        read_names env (scoping.captured_by (function f parameters body is_async at decorators)) at
    made ← emit_new (λ v. Ir.make_function v at f captured)
    store_name env f at made
    define_nested f (function f parameters body is_async at decorators)
  statement (aug_assign target op value at) = do
    current ← expression env target
    operand ← expression env value
    result ← emit_new (λ v. Ir.binary_op v at op current operand)
    store target result
  statement (assert test message at) = do
    tested ← expression env test
    said ← optional env message
    emit_effect (Ir.assert at tested said)
  statement (enter_with i at) = do
    context ← expression env i.context
    remember_context (span_key i.span) context
    entered ← emit_new (λ v. Ir.with_enter v i.span context)
    elim i.target [ none ↦ give tt | some target ↦ store target entered ]
  statement (exit_with i at) = do
    context ← context_at i.span
    emit_effect (Ir.with_exit i.span context)
  statement (enter_handler type bound body handler_at at) = do
    kind ← optional env type
    caught ← emit_new (λ v. Ir.catch v handler_at kind)
    elim bound [ none ↦ give tt | some x ↦ store_name env x handler_at caught ]
  statement (expression_statement e at) = do expression env e; give tt
  statement (import names at) = import_all none names at
  statement (import_from from_module names level at) =
      import_all (some (texts.dotted level (elim from_module [ none ↦ "" | some m ↦ m ]))) names at
  statement (pass _) = give tt
  statement (global _ _) = give tt
  statement (nonlocal _ _) = give tt
  statement s = fail (unsupported (statement_span s))

  unfoldable pub statements : List (Statement T) → Lower T (Unit {0})
  unfolding statement
  statements [] = give tt
  statements (s ∷ more) = do statement s; statements more
