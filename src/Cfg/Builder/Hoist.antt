-- ===== src/Cfg/Builder/Hoist.antt =====
-- `hoist` and `comprehension` of cfg/builder.py: an expression without control flow, and the
-- statements that compute what it had.
use coretrace_python_analyze.Hir.{
  name, constant, binary_op, unary_op, bool_op, compare, attribute, subscript, call, tuple, list,
  dict, formatted_string, slice, starred, set, conditional, lambda, await, yield, named_expr,
  comprehension, nil, cons, absent, present, no_keywords, keyword, no_items, item, no_parameters,
  parameter, no_generators, generator, assign, if_statement, empty, first, Expression, Expressions,
  Maybe, Keywords, Items, Parameters, Generators, Statements,
}
use coretrace_python_analyze.Cfg.Builder.Comprehension.{
  Making, Hoisting, push, push_all, span_of, hidden, hide_generators, wrap_conditions, wrap_loop,
  wrap_generators, innermost, initial, assert_key,
}
use coretrace_python_analyze.Base.{Dict, [], String, list_eq, nat_eq, option_eq, pair_eq, string_eq}

module _ {T : Type 0} (making : Making T) where
  unfoldable mutual
    unfolding push push_all span_of hidden hide_generators wrap_conditions wrap_loop wrap_generators
        innermost initial assert_key

    pub hoist : Expression T → Hoisting T → Expression T × Hoisting T
    hoist (name identifier at) h = (name identifier at, h)
    hoist (constant v at) h = (constant v at, h)
    hoist (binary_op op l r at) h =
        let (l', h₁) = hoist l h in let (r', h₂) = hoist r h₁ in (binary_op op l' r' at, h₂)
    hoist (unary_op op e at) h = let (e', h₁) = hoist e h in (unary_op op e' at, h₁)
    hoist (bool_op op es at) h = let (es', h₁) = hoist_all es h in (bool_op op es' at, h₁)
    hoist (compare op l r at) h =
        let (l', h₁) = hoist l h in let (r', h₂) = hoist r h₁ in (compare op l' r' at, h₂)
    hoist (attribute e attr at) h = let (e', h₁) = hoist e h in (attribute e' attr at, h₁)
    hoist (subscript e k at) h =
        let (e', h₁) = hoist e h in let (k', h₂) = hoist k h₁ in (subscript e' k' at, h₂)
    hoist (call f es ks at) h =
        let (f', h₁) = hoist f h in
        let (es', h₂) = hoist_all es h₁ in
        let (ks', h₃) = hoist_keywords ks h₂ in (call f' es' ks' at, h₃)
    hoist (tuple es at) h = let (es', h₁) = hoist_all es h in (tuple es' at, h₁)
    hoist (list es at) h = let (es', h₁) = hoist_all es h in (list es' at, h₁)
    hoist (dict is at) h = let (is', h₁) = hoist_items is h in (dict is' at, h₁)
    hoist (formatted_string es at) h =
        let (es', h₁) = hoist_all es h in (formatted_string es' at, h₁)
    hoist (slice l u s at) h =
        let (l', h₁) = hoist_maybe l h in
        let (u', h₂) = hoist_maybe u h₁ in
        let (s', h₃) = hoist_maybe s h₂ in (slice l' u' s' at, h₃)
    hoist (starred e at) h = let (e', h₁) = hoist e h in (starred e' at, h₁)
    hoist (set es at) h = let (es', h₁) = hoist_all es h in (set es' at, h₁)
    hoist (conditional test body orelse at) h =
        let (test', h₁) = hoist test h in
        let (result, h₂) = hidden making "cond" at h₁ in
        let branch =
          if_statement test' (first (assign (name result at) body at) empty)
            (first (assign (name result at) orelse at) empty) at in
        (name result at, push branch h₂)
    hoist (lambda ps body at) h = let (ps', h₁) = hoist_defaults ps h in (lambda ps' body at, h₁)
    hoist (await e at) h = let (e', h₁) = hoist e h in (await e' at, h₁)
    hoist (yield e at delegate) h = let (e', h₁) = hoist_maybe e h in (yield e' at delegate, h₁)
    hoist (named_expr target target_at e at) h =
        let (e', h₁) = hoist e h in
        (name target target_at, push (assign (name target target_at) e' at) h₁)
    hoist (comprehension kind element generators at key) h =
        let (result, h₁) = hidden making "comp" at h in
        let (renames, h₂) = hide_generators making generators [] h₁ in
        let h₃ = assert_key kind key (push (assign (name result at) (initial kind at) at) h₂) in
        let body = first (innermost kind renames (name result at) element key at) empty in
        let (loops, h₄) = hoist_generators renames generators body h₃ in
        (name result at, push_all loops h₄)

    pub hoist_all : Expressions T → Hoisting T → Expressions T × Hoisting T
    hoist_all nil h = (nil, h)
    hoist_all (cons e es) h =
        let (e', h₁) = hoist e h in let (es', h₂) = hoist_all es h₁ in (cons e' es', h₂)

    pub hoist_maybe : Maybe T → Hoisting T → Maybe T × Hoisting T
    hoist_maybe absent h = (absent, h)
    hoist_maybe (present e) h = let (e', h₁) = hoist e h in (present e', h₁)

    pub hoist_keywords : Keywords T → Hoisting T → Keywords T × Hoisting T
    hoist_keywords no_keywords h = (no_keywords, h)
    hoist_keywords (keyword argument e at ks) h =
        let (e', h₁) = hoist e h in
        let (ks', h₂) = hoist_keywords ks h₁ in (keyword argument e' at ks', h₂)

    pub hoist_items : Items T → Hoisting T → Items T × Hoisting T
    hoist_items no_items h = (no_items, h)
    hoist_items (item k e is) h =
        let (k', h₁) = hoist_maybe k h in
        let (e', h₂) = hoist e h₁ in let (is', h₃) = hoist_items is h₂ in (item k' e' is', h₃)

    pub hoist_defaults : Parameters T → Hoisting T → Parameters T × Hoisting T
    hoist_defaults no_parameters h = (no_parameters, h)
    hoist_defaults (parameter argument at default kind annotation ps) h =
        let (default', h₁) = hoist_maybe default h in
        let (ps', h₂) = hoist_defaults ps h₁ in
        (parameter argument at default' kind annotation ps', h₂)

    -- The loops of a comprehension: the first iterable is computed before them.
    pub hoist_generators :
        Dict String String → Generators T → Statements T → Hoisting T → Statements T × Hoisting T
    hoist_generators renames no_generators body h = (body, h)
    hoist_generators renames (generator target iterable conditions at more) body h =
        let (inner, h₁) = wrap_generators making renames more body h in
        let (iterable', h₂) = hoist iterable h₁ in
        wrap_loop making renames target iterable' at (wrap_conditions renames conditions inner) h₂
