-- ===== src/Cfg/Builder/Size/Hoist.antt =====
-- Hoisting does not let sizes grow, what is pending included.
use coretrace_python_analyze.Findings.{SourceSpan}
use coretrace_python_analyze.Hir.{
  name, constant, binary_op, unary_op, bool_op, compare, attribute, subscript, call, tuple, list,
  dict, formatted_string, slice, starred, set, conditional, lambda, await, yield, named_expr,
  comprehension, nil, cons, absent, present, no_keywords, keyword, no_items, item, no_parameters,
  parameter, no_generators, generator, assign, if_statement, empty, first, Expression, Expressions,
  Maybe, Keywords, Items, Parameters, Generators, Statements,
}
use coretrace_python_analyze.Cfg.Builder.Rename.{bound_names, rename}
use coretrace_python_analyze.Cfg.Builder.Size.{
  weight, all_weight, maybe_weight, keywords_weight, items_weight, parameters_weight,
  generators_weight, size, statements_size,
}
use coretrace_python_analyze.Cfg.Builder.Comprehension.{
  Making, Hoisting, append, push, push_all, span_of, hidden, hide_names, hide_generators,
  wrap_conditions, wrap_loop, wrap_generators, innermost, initial, assert_key,
}
use coretrace_python_analyze.Cfg.Builder.Hoist.{
  hoist, hoist_all, hoist_maybe, hoist_keywords, hoist_items, hoist_defaults, hoist_generators,
}
use coretrace_python_analyze.Cfg.Builder.Size.Rename.{weight-rename}
use coretrace_python_analyze.Base.{
  List, [], ◌∷◌, ◌+◌, Dict, String, ◌≤◌, ◌≡◌, ◌∙◌, refl, arith, ap, list_eq, nat_eq, option_eq,
  pair_eq, string_eq,
}

weight-initial :
    (T : Type 0) (kind : String) (at : SourceSpan) → weight (initial {T = T} kind at) ≤ 2
unfolding initial weight
weight-initial T kind at = ground arith

module _ {T : Type 0} where
  pub size-append :
      (a b : Statements T) → statements_size (append a b) ≡ statements_size a + statements_size b
  unfolding append size
  size-append empty b = omega arith
  size-append (first s a) b = omega (arith, size-append a b)

  weight_pos : (e : Expression T) → 1 ≤ weight e
  unfolding weight
  weight_pos (name _ _) = omega arith
  weight_pos _ = omega arith

  size-wrap_conditions :
      (ρ : Dict String String) (cs : Expressions T) (body : Statements T)
      → statements_size (wrap_conditions ρ cs body) ≤ all_weight cs + statements_size body
  unfolding wrap_conditions size weight
  size-wrap_conditions ρ nil body = omega arith
  size-wrap_conditions ρ (cons c cs) body =
      omega (arith, weight-rename ρ c, size-wrap_conditions ρ cs body)

  size-innermost :
      (kind : String) (ρ : Dict String String) (at_name : String) (e : Expression T) (key : Maybe T)
      (at : SourceSpan)
      → size (innermost kind ρ (name at_name at) e key at)
        ≤ 5 + (weight e + weight e) + maybe_weight key
  unfolding innermost size weight
  size-innermost kind ρ r e absent at = ground (arith, weight-rename ρ e)
  size-innermost kind ρ r e (present k) at = ground (arith, weight-rename ρ e, weight-rename ρ k)

  pending-assert_key :
      (kind : String) (key : Maybe T) (h : Hoisting T) → (assert_key kind key h).pending ≡ h.pending
  unfolding assert_key
  pending-assert_key kind (present _) h = refl
  pending-assert_key kind absent h = ground arith

  module _ (making : Making T) where
    pending-hide_names :
        (xs : List String) (at : SourceSpan) (ρ : Dict String String) (h : Hoisting T)
        → (hide_names making xs at ρ h).1.pending ≡ h.pending
    unfolding hide_names hidden
    pending-hide_names [] at ρ h = refl
    pending-hide_names (x ∷ xs) at ρ h = pending-hide_names xs at _ _

    pending-hide_generators :
        (gs : Generators T) (ρ : Dict String String) (h : Hoisting T)
        → (hide_generators making gs ρ h).1.pending ≡ h.pending
    unfolding hide_generators
    pending-hide_generators no_generators ρ h = refl
    pending-hide_generators (generator t i cs at gs) ρ h =
        pending-hide_generators gs _ _ ∙ pending-hide_names (bound_names t) (span_of t) ρ h

    size-wrap_loop :
        (ρ : Dict String String) (target iterable : Expression T) (at : SourceSpan)
        (body : Statements T) (h : Hoisting T)
        → (statements_size (wrap_loop making ρ target iterable at body h).0
            ≤ 3 + weight target + weight iterable + statements_size body)
          × ((wrap_loop making ρ target iterable at body h).1.pending ≡ h.pending)
    unfolding wrap_loop hidden size weight
    size-wrap_loop ρ (name _ _) iterable at body h = (omega arith, refl)
    size-wrap_loop ρ target iterable at body h = (omega (arith, weight-rename ρ target), refl)

    size-wrap_generators :
        (ρ : Dict String String) (gs : Generators T) (body : Statements T) (h : Hoisting T)
        → (statements_size (wrap_generators making ρ gs body h).0
            ≤ generators_weight gs + statements_size body)
          × ((wrap_generators making ρ gs body h).1.pending ≡ h.pending)
    unfolding wrap_generators weight
    size-wrap_generators ρ no_generators body h = (omega arith, refl)
    size-wrap_generators ρ (generator t i cs at gs) body h =
        let (inner, h') = wrap_generators making ρ gs body h in
        let (small, same) = size-wrap_generators ρ gs body h in
        let (small', same') = size-wrap_loop ρ t (rename ρ i) at (wrap_conditions ρ cs inner) h' in
        (
          omega (arith, small, small', size-wrap_conditions ρ cs inner, weight-rename ρ i),
          same' ∙ same,
        )

    mutual
      unfolding hoist weight size push push_all hidden

      pub size-hoist :
          (e : Expression T) (h : Hoisting T)
          → statements_size (hoist making e h).1.pending + weight (hoist making e h).0
            ≤ statements_size h.pending + weight e
      size-hoist (name _ _) h = omega arith
      size-hoist (constant _ _) h = omega arith
      size-hoist (binary_op _ l r _) h =
          omega (arith, size-hoist l h, size-hoist r (hoist making l h).1)
      size-hoist (unary_op _ e _) h = omega (arith, size-hoist e h)
      size-hoist (bool_op _ es _) h = omega (arith, size-hoist_all es h)
      size-hoist (compare _ l r _) h =
          omega (arith, size-hoist l h, size-hoist r (hoist making l h).1)
      size-hoist (attribute e _ _) h = omega (arith, size-hoist e h)
      size-hoist (subscript e k _) h =
          omega (arith, size-hoist e h, size-hoist k (hoist making e h).1)
      size-hoist (call f es ks _) h = omega (
        arith,
        size-hoist f h,
        size-hoist_all es (hoist making f h).1,
        size-hoist_keywords ks (hoist_all making es (hoist making f h).1).1,
      )
      size-hoist (tuple es _) h = omega (arith, size-hoist_all es h)
      size-hoist (list es _) h = omega (arith, size-hoist_all es h)
      size-hoist (dict is _) h = omega (arith, size-hoist_items is h)
      size-hoist (formatted_string es _) h = omega (arith, size-hoist_all es h)
      size-hoist (slice l u s _) h = omega (
        arith,
        size-hoist_maybe l h,
        size-hoist_maybe u (hoist_maybe making l h).1,
        size-hoist_maybe s (hoist_maybe making u (hoist_maybe making l h).1).1,
      )
      size-hoist (starred e _) h = omega (arith, size-hoist e h)
      size-hoist (set es _) h = omega (arith, size-hoist_all es h)
      size-hoist (conditional t b o at) h =
          let (t', h₁) = hoist making t h in
          let (result, h₂) = hidden making "cond" at h₁ in
          let branch =
            if_statement t' (first (assign (name result at) b at) empty)
              (first (assign (name result at) o at) empty) at in
          omega (arith, size-hoist t h, size-append h₁.pending (first branch empty))
      size-hoist (lambda ps body _) h = omega (arith, size-hoist_defaults ps h)
      size-hoist (await e _) h = omega (arith, size-hoist e h)
      size-hoist (yield e _ _) h = omega (arith, size-hoist_maybe e h)
      size-hoist (named_expr target target_at e at) h =
          let (e', h₁) = hoist making e h in
          omega (
            arith,
            size-hoist e h,
            size-append h₁.pending (first (assign (name target target_at) e' at) empty),
          )
      size-hoist (comprehension kind e gs at key) h =
          let (result, h₁) = hidden making "comp" at h in
          let (ρ, h₂) = hide_generators making gs [] h₁ in
          let start = assign (name result at) (initial kind at) at in
          let h₃ = assert_key kind key (push start h₂) in
          let body = first (innermost kind ρ (name result at) e key at) empty in
          let (loops, h₄) = hoist_generators making ρ gs body h₃ in
          omega (
            arith,
            ap statements_size (pending-hide_generators gs [] h₁),
            ap statements_size (pending-assert_key kind key (push start h₂)),
            size-append h₂.pending (first start empty),
            weight-initial T kind at,
            size-innermost kind ρ result e key at,
            size-hoist_generators ρ gs body h₃,
            size-append h₄.pending loops,
          )

      size-hoist_all :
          (es : Expressions T) (h : Hoisting T)
          → statements_size (hoist_all making es h).1.pending + all_weight (hoist_all making es h).0
            ≤ statements_size h.pending + all_weight es
      size-hoist_all nil h = omega arith
      size-hoist_all (cons e es) h =
          omega (arith, size-hoist e h, size-hoist_all es (hoist making e h).1)

      pub size-hoist_maybe :
          (e : Maybe T) (h : Hoisting T)
          → statements_size (hoist_maybe making e h).1.pending
              + maybe_weight (hoist_maybe making e h).0
            ≤ statements_size h.pending + maybe_weight e
      size-hoist_maybe absent h = omega arith
      size-hoist_maybe (present e) h = omega (arith, size-hoist e h)

      size-hoist_keywords :
          (ks : Keywords T) (h : Hoisting T)
          → statements_size (hoist_keywords making ks h).1.pending
              + keywords_weight (hoist_keywords making ks h).0
            ≤ statements_size h.pending + keywords_weight ks
      size-hoist_keywords no_keywords h = omega arith
      size-hoist_keywords (keyword _ e _ ks) h =
          omega (arith, size-hoist e h, size-hoist_keywords ks (hoist making e h).1)

      size-hoist_items :
          (is : Items T) (h : Hoisting T)
          → statements_size (hoist_items making is h).1.pending
              + items_weight (hoist_items making is h).0
            ≤ statements_size h.pending + items_weight is
      size-hoist_items no_items h = omega arith
      size-hoist_items (item k e is) h = omega (
        arith,
        size-hoist_maybe k h,
        size-hoist e (hoist_maybe making k h).1,
        size-hoist_items is (hoist making e (hoist_maybe making k h).1).1,
      )

      size-hoist_defaults :
          (ps : Parameters T) (h : Hoisting T)
          → statements_size (hoist_defaults making ps h).1.pending
              + parameters_weight (hoist_defaults making ps h).0
            ≤ statements_size h.pending + parameters_weight ps
      size-hoist_defaults no_parameters h = omega arith
      size-hoist_defaults (parameter _ _ d _ _ ps) h =
          omega (arith, size-hoist_maybe d h, size-hoist_defaults ps (hoist_maybe making d h).1)

      size-hoist_generators :
          (ρ : Dict String String) (gs : Generators T) (body : Statements T) (h : Hoisting T)
          → statements_size (hoist_generators making ρ gs body h).1.pending
              + statements_size (hoist_generators making ρ gs body h).0
            ≤ statements_size h.pending + generators_weight gs + statements_size body
      size-hoist_generators ρ no_generators body h = omega arith
      size-hoist_generators ρ (generator t i cs at gs) body h =
          let (inner, h₁) = wrap_generators making ρ gs body h in
          let (small, same) = size-wrap_generators ρ gs body h in
          let (i', h₂) = hoist making i h₁ in
          let (small', same') = size-wrap_loop ρ t i' at (wrap_conditions ρ cs inner) h₂ in
          omega (
            arith,
            small,
            small',
            ap statements_size same,
            ap statements_size same',
            size-wrap_conditions ρ cs inner,
            size-hoist i h₁,
          )
