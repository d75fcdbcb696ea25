-- ===== src/Ir/Lowering/Expressions.antt =====
-- The expressions of ir/lowering.py, and what assigns to targets.
use coretrace_python_analyze.Hir.{
  name, constant, binary_op, unary_op, bool_op, compare, attribute, subscript, tuple, list, dict,
  formatted_string, slice, starred, set, conditional, lambda, await, yield, named_expr,
  comprehension, nil, cons, absent, present, no_keywords, keyword, no_items, item, global,
  Expression, Expressions, Maybe, Keywords, Items, call,
}
use coretrace_python_analyze.Ir
use coretrace_python_analyze.Ir.{Value, SymbolId}
use coretrace_python_analyze.Findings.{SourceSpan}
use coretrace_python_analyze.Cfg.Builder.Comprehension.{span_of}
use coretrace_python_analyze.Ir.Lowering.{
  Resolution, local, free, global, unbound, unsupported, closure, lone_starred, control_flow,
  free_target, Environment, Lower, ◌>>=◌, ◌>>◌, give, fail, new_value, emit, emit_effect, emit_new,
}
use coretrace_python_analyze.Base.{
  List, [], ◌∷◌, Option, none, some, String, ℕ, suc, contains, get, if◌then◌else◌, list_eq, nat_eq,
  option_eq, pair_eq, string_eq, ◌&&◌,
}

module _ {T : Type 0} (env : Environment T) where
  open env use {scoping, texts, synthetic_locals, parameters, nonlocals}

  -- `resolve(name).kind`: the variables that a module's body assigns are its locals.
  unfoldable pub resolve : String → Resolution
  resolve x = if contains synthetic_locals x then local else elim (scoping.kind_of x) [
    | local ↦ local
    | free ↦ free
    | global ↦ if scoping.is_module && scoping.is_variable x then local else global
    | unbound ↦ unbound
  ]

  unfoldable pub imported_symbol : Expression T → Option SymbolId
  imported_symbol (name x at) = scoping.symbol_of x
  imported_symbol (attribute e attr at) = elim (imported_symbol e) [
    | none ↦ none
    | some parent ↦ some (scoping.symbol_attribute parent attr)
  ]
  imported_symbol _ = none

  -- A variable that is no import.
  unfoldable pub variable : String → SourceSpan → Lower T Value
  unfolding resolve new_value emit
  variable x at = elim (resolve x) [
    | local ↦ elim (get x parameters) [
      | some v ↦ give v
      | none ↦ emit_new (λ v. Ir.load_local v at x)
    ]
    | free ↦
        if contains nonlocals x
        then emit_new (λ v. Ir.load_local v at x)
        else elim (get x parameters) [ some v ↦ give v | none ↦ fail (closure at) ]
    | global ↦ emit_new (λ v. Ir.global v at x)
    | unbound ↦ emit_new (λ v. Ir.global v at x)
  ]

  -- `expression` of a `Name`.
  unfoldable pub read_name : String → SourceSpan → Lower T Value
  unfolding variable
  read_name x at = elim (scoping.symbol_of x) [
    | some symbol_id ↦ emit_new (λ v. Ir.symbol v at symbol_id)
    | none ↦ variable x at
  ]

  unfoldable pub read_names : List String → SourceSpan → Lower T (List Value)
  unfolding read_name
  read_names [] at = give []
  read_names (x ∷ more) at = do v ← read_name x at; vs ← read_names more at; give (v ∷ vs)

  unfoldable pub store_name : String → SourceSpan → Value → Lower T (Unit {0})
  unfolding resolve emit_effect
  store_name x at value =
      let stored : Lower T (Unit {0}) =
        emit_effect (Ir.store_local at x value)
        >> (if contains nonlocals x then emit_effect (Ir.set_nonlocal at x value) else give tt) in
      let checked : Lower T (Unit {0}) =
        if contains nonlocals x then stored else fail (free_target at) in
      elim (resolve x) [
        | global ↦ emit_effect (Ir.set_global at x value)
        | local ↦ stored
        | free ↦ checked
        | unbound ↦ checked
      ]

  unfoldable pub write_back : List String → SourceSpan → Value → Lower T (Unit {0})
  unfolding read_name store_name
  write_back [] at called = give tt
  write_back (x ∷ more) at called = do
    previous ← read_name x at
    written ← emit_new (λ v. Ir.nonlocal_result v at called x previous)
    store_name x at written
    write_back more at called

  -- After a direct call of a nested function, its `nonlocal` names.
  unfoldable pub write_back_nonlocals : Expression T → SourceSpan → Value → Lower T (Unit {0})
  unfolding write_back
  write_back_nonlocals (name f _) at called s = elim (get f s.nested_defs) [
    | none ↦ give tt s
    | some nested ↦ write_back (scoping.nonlocals_of nested) at called s
  ]
  write_back_nonlocals _ at called s = give tt s

  -- The places of the starred elements.
  unfoldable pub starred_at : Expressions T → ℕ → List ℕ
  starred_at nil i = []
  starred_at (cons (starred _ _) more) i = i ∷ starred_at more (suc i)
  starred_at (cons _ more) i = starred_at more (suc i)

  unfoldable mutual
    unfolding read_name read_names imported_symbol write_back_nonlocals starred_at span_of new_value
        emit

    pub expression : Expression T → Lower T Value
    expression (name x at) = read_name x at
    expression (constant value at) = emit_new (λ v. Ir.constant v at value)
    expression (binary_op op l r at) = do
      left ← expression l
      right ← expression r
      emit_new (λ v. Ir.binary_op v at op left right)
    expression (unary_op op e at) = do
      operand ← expression e
      emit_new (λ v. Ir.unary_op v at op operand)
    expression (compare op l r at) = do
      left ← expression l
      right ← expression r
      emit_new (λ v. Ir.compare v at op left right)
    expression (call f es ks at) = do
      callee ← expression f
      (arguments, unpacked) ← spread es
      keywords ← keyword_values ks
      result ← emit_new (λ v. Ir.call v at callee arguments keywords unpacked)
      write_back_nonlocals f at result
      give result
    expression (bool_op op es at) = do
      values ← expressions es
      emit_new (λ v. Ir.bool_op v at op values)
    expression (list es at) = do
      (elements, unpacked) ← spread es
      emit_new (λ v. Ir.build_list v at elements unpacked (starred_at es 0))
    expression (tuple es at) = do
      (elements, unpacked) ← spread es
      emit_new (λ v. Ir.build_tuple v at elements unpacked (starred_at es 0))
    expression (dict is at) = do
      items ← pairs is
      unpacked ← unpacked_items is
      emit_new (λ v. Ir.build_dict v at items unpacked)
    expression (formatted_string es at) = do
      parts ← expressions es
      emit_new (λ v. Ir.build_string v at parts)
    expression (slice l u s at) = do
      lower ← optional l
      upper ← optional u
      step ← optional s
      emit_new (λ v. Ir.build_slice v at lower upper step)
    expression (starred e at) = fail (lone_starred at)
    expression (set es at) = do
      (elements, unpacked) ← spread es
      emit_new (λ v. Ir.build_set v at elements unpacked)
    expression (lambda ps body at) = do
      captured ← read_names (scoping.captured_by_lambda ps body at) at
      emit_new
          (λ v. Ir.make_function v at (texts.lambda_name at.start_line at.start_column) captured)
    expression (conditional _ _ _ at) = fail (control_flow at)
    expression (comprehension _ _ _ at _) = fail (control_flow at)
    expression (await e at) = do
      result ← new_value
      value ← expression e
      emit (Ir.await result at value) result
    expression (yield e at _) = do value ← optional e; emit_new (λ v. Ir.yield v at value)
    expression (attribute e attr at) = elim (imported_symbol (attribute e attr at)) [
      | some symbol_id ↦ emit_new (λ v. Ir.symbol v at symbol_id)
      | none ↦ do object ← expression e; emit_new (λ v. Ir.get_attr v at object attr)
    ]
    expression (subscript e k at) = do
      object ← expression e
      key ← expression k
      emit_new (λ v. Ir.get_item v at object key)
    expression (named_expr _ _ _ at) = fail (unsupported at)

    pub expressions : Expressions T → Lower T (List Value)
    expressions nil = give []
    expressions (cons e es) = do v ← expression e; vs ← expressions es; give (v ∷ vs)

    -- Plain elements, and those of a `*iterable`.
    pub spread : Expressions T → Lower T (List Value × List Value)
    spread nil = give ([], [])
    spread (cons (starred e _) es) = do
      v ← expression e
      (plain, unpacked) ← spread es
      give (plain, v ∷ unpacked)
    spread (cons e es) = do
      v ← expression e
      (plain, unpacked) ← spread es
      give (v ∷ plain, unpacked)

    pub optional : Maybe T → Lower T (Option Value)
    optional absent = give none
    optional (present e) = do v ← expression e; give (some v)

    pub keyword_values : Keywords T → Lower T (List (Option String × Value))
    keyword_values no_keywords = give []
    keyword_values (keyword argument e _ ks) = do
      v ← expression e
      vs ← keyword_values ks
      give ((argument, v) ∷ vs)

    pub pairs : Items T → Lower T (List (Value × Value))
    pairs no_items = give []
    pairs (item absent _ is) = pairs is
    pairs (item (present k) e is) = do
      key ← expression k
      v ← expression e
      vs ← pairs is
      give ((key, v) ∷ vs)

    pub unpacked_items : Items T → Lower T (List Value)
    unpacked_items no_items = give []
    unpacked_items (item (present _) _ is) = unpacked_items is
    unpacked_items (item absent e is) = do v ← expression e; vs ← unpacked_items is; give (v ∷ vs)
