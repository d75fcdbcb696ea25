-- ===== src/Cfg/Builder/Size/Straight.antt =====
-- What is hoisted falls through: assignments, expressions, and `if`s and `for`s.
use coretrace_python_analyze.Hir.{
  name, constant, binary_op, unary_op, bool_op, compare, attribute, subscript, call, tuple, list,
  dict, formatted_string, slice, starred, set, conditional, lambda, await, yield, named_expr,
  comprehension, nil, cons, absent, present, no_keywords, keyword, no_items, item, no_parameters,
  parameter, no_generators, generator, assign, aug_assign, return, expression_statement, assert,
  if_statement, while_statement, for_statement, raise, with_statement, empty, first, Expression,
  Expressions, Maybe, Keywords, Items, Parameters, Generators, Statement, Statements, WithItem,
}
use coretrace_python_analyze.Findings.{SourceSpan}
use coretrace_python_analyze.Cfg.Builder.Comprehension.{
  Making, Hoisting, append, push, push_all, span_of, hidden, hide_names, hide_generators,
  wrap_conditions, wrap_loop, wrap_generators, innermost, initial, assert_key,
}
use coretrace_python_analyze.Cfg.Builder.Hoist.{
  hoist, hoist_all, hoist_maybe, hoist_keywords, hoist_items, hoist_defaults, hoist_generators,
}
use coretrace_python_analyze.Cfg.Builder.Rename.{bound_names}
use coretrace_python_analyze.Cfg.Builder.Desugar.{desugar, desugar_while, hoist_items_of}
use coretrace_python_analyze.Cfg.Builder.Size.Desugar.{begun}
use coretrace_python_analyze.Cfg.Builder.Rename.{has_control_flow}
use coretrace_python_analyze.Base.{
  List, [], ◌∷◌, String, Dict, Bool-cases, inl, inr, ◌==◌, string_eq, list_eq, nat_eq, option_eq,
  pair_eq,
}

module _ {T : Type 0} where
  abbrev pub IsStraight : Statement T → Type 0
  IsStraight (assign _ _ _) = Unit {0}
  IsStraight (expression_statement _ _) = Unit {0}
  IsStraight (if_statement _ _ _ _) = Unit {0}
  IsStraight (for_statement _ _ _ _ _ _ _) = Unit {0}
  IsStraight _ = ⊥

  abbrev pub AllStraight : Statements T → Type 0
  AllStraight empty = Unit {0}
  AllStraight (first s more) = IsStraight s × AllStraight more

  AllStraight-append :
      (a b : Statements T) → AllStraight a → AllStraight b → AllStraight (append a b)
  unfolding append
  AllStraight-append empty b p q = q
  AllStraight-append (first s a) b p q = (p.0, AllStraight-append a b p.1 q)

  IsStraight-innermost :
      (kind : String) (ρ : Dict String String) (r e : Expression T) (key : Maybe T)
      (at : SourceSpan)
      → IsStraight (innermost kind ρ r e key at)
  unfolding innermost
  IsStraight-innermost kind ρ r e key at = elim (Bool-cases (kind == "dict")) [
    | inl same ↦ rw same tt
    | inr other ↦ rw other tt
  ]

  AllStraight-wrap_conditions :
      (ρ : Dict String String) (cs : Expressions T) (body : Statements T)
      → AllStraight body
      → AllStraight (wrap_conditions ρ cs body)
  unfolding wrap_conditions
  AllStraight-wrap_conditions ρ nil body p = p
  AllStraight-wrap_conditions ρ (cons c cs) body p = (tt, tt)

  abbrev IsKept : Hoisting T → Hoisting T → Type 0
  IsKept h h' = AllStraight h.pending → AllStraight h'.pending

  IsKept-assert_key :
      (kind : String) (key : Maybe T) (h : Hoisting T) → IsKept h (assert_key kind key h)
  unfolding assert_key
  IsKept-assert_key kind (present _) h p = p
  IsKept-assert_key kind absent h p = elim (Bool-cases (kind == "dict")) [
    | inl same ↦ rw same p
    | inr other ↦ rw other p
  ]

  module _ (making : Making T) where
    IsKept-hide_names :
        (xs : List String) (at : SourceSpan) (ρ : Dict String String) (h : Hoisting T)
        → IsKept h (hide_names making xs at ρ h).1
    unfolding hide_names hidden
    IsKept-hide_names [] at ρ h p = p
    IsKept-hide_names (x ∷ xs) at ρ h p = IsKept-hide_names xs at _ _ p

    IsKept-hide_generators :
        (gs : Generators T) (ρ : Dict String String) (h : Hoisting T)
        → IsKept h (hide_generators making gs ρ h).1
    unfolding hide_generators
    IsKept-hide_generators no_generators ρ h p = p
    IsKept-hide_generators (generator t i cs at gs) ρ h p =
        IsKept-hide_generators gs _ _ (IsKept-hide_names (bound_names t) (span_of t) ρ h p)

    wrap_loop_straight :
        (ρ : Dict String String) (target iterable : Expression T) (at : SourceSpan)
        (body : Statements T) (h : Hoisting T)
        → AllStraight h.pending
        → AllStraight (wrap_loop making ρ target iterable at body h).0
          × AllStraight (wrap_loop making ρ target iterable at body h).1.pending
    unfolding wrap_loop hidden
    wrap_loop_straight ρ (name _ _) iterable at body h p = ((tt, tt), p)
    wrap_loop_straight ρ target iterable at body h p = ((tt, tt), p)

    IsKept-wrap_generators :
        (ρ : Dict String String) (gs : Generators T) (body : Statements T) (h : Hoisting T)
        → IsKept h (wrap_generators making ρ gs body h).1
    unfolding wrap_generators
    IsKept-wrap_generators ρ no_generators body h p = p
    IsKept-wrap_generators ρ (generator t i cs at gs) body h p =
        (wrap_loop_straight ρ t _ at _ _ (IsKept-wrap_generators ρ gs body h p)).1

    mutual
      unfolding hoist push push_all hidden

      pub IsKept-hoist : (e : Expression T) (h : Hoisting T) → IsKept h (hoist making e h).1
      IsKept-hoist (name _ _) h p = p
      IsKept-hoist (constant _ _) h p = p
      IsKept-hoist (binary_op _ l r _) h p = IsKept-hoist r _ (IsKept-hoist l h p)
      IsKept-hoist (unary_op _ e _) h p = IsKept-hoist e h p
      IsKept-hoist (bool_op _ es _) h p = IsKept-hoist_all es h p
      IsKept-hoist (compare _ l r _) h p = IsKept-hoist r _ (IsKept-hoist l h p)
      IsKept-hoist (attribute e _ _) h p = IsKept-hoist e h p
      IsKept-hoist (subscript e k _) h p = IsKept-hoist k _ (IsKept-hoist e h p)
      IsKept-hoist (call f es ks _) h p =
          IsKept-hoist_keywords ks _ (IsKept-hoist_all es _ (IsKept-hoist f h p))
      IsKept-hoist (tuple es _) h p = IsKept-hoist_all es h p
      IsKept-hoist (list es _) h p = IsKept-hoist_all es h p
      IsKept-hoist (dict is _) h p = IsKept-hoist_items is h p
      IsKept-hoist (formatted_string es _) h p = IsKept-hoist_all es h p
      IsKept-hoist (slice l u s _) h p =
          IsKept-hoist_maybe s _ (IsKept-hoist_maybe u _ (IsKept-hoist_maybe l h p))
      IsKept-hoist (starred e _) h p = IsKept-hoist e h p
      IsKept-hoist (set es _) h p = IsKept-hoist_all es h p
      IsKept-hoist (conditional t b o at) h p =
          AllStraight-append (hoist making t h).1.pending _ (IsKept-hoist t h p) (tt, tt)
      IsKept-hoist (lambda ps body _) h p = IsKept-hoist_defaults ps h p
      IsKept-hoist (await e _) h p = IsKept-hoist e h p
      IsKept-hoist (yield e _ _) h p = IsKept-hoist_maybe e h p
      IsKept-hoist (named_expr _ _ e _) h p =
          AllStraight-append (hoist making e h).1.pending _ (IsKept-hoist e h p) (tt, tt)
      IsKept-hoist (comprehension kind e gs at key) h p =
          let (result, h₁) = hidden making "comp" at h in
          let (ρ, h₂) = hide_generators making gs [] h₁ in
          let h₃ = push (assign (name result at) (initial kind at) at) h₂ in
          let (loops, h₄) =
            hoist_generators making ρ gs (first (innermost kind ρ (name result at) e key at) empty)
              (assert_key kind key h₃) in
          let (straight, kept) =
            hoist_generators_straight ρ gs
              (first (innermost kind ρ (name result at) e key at) empty) (assert_key kind key h₃)
              (IsKept-assert_key kind key h₃
                (AllStraight-append h₂.pending _ (IsKept-hide_generators gs [] h₁ p) (tt, tt)))
              (IsStraight-innermost kind ρ (name result at) e key at, tt) in
          AllStraight-append h₄.pending loops kept straight

      IsKept-hoist_all : (es : Expressions T) (h : Hoisting T) → IsKept h (hoist_all making es h).1
      IsKept-hoist_all nil h p = p
      IsKept-hoist_all (cons e es) h p = IsKept-hoist_all es _ (IsKept-hoist e h p)

      pub IsKept-hoist_maybe : (e : Maybe T) (h : Hoisting T) → IsKept h (hoist_maybe making e h).1
      IsKept-hoist_maybe absent h p = p
      IsKept-hoist_maybe (present e) h p = IsKept-hoist e h p

      IsKept-hoist_keywords :
          (ks : Keywords T) (h : Hoisting T) → IsKept h (hoist_keywords making ks h).1
      IsKept-hoist_keywords no_keywords h p = p
      IsKept-hoist_keywords (keyword _ e _ ks) h p = IsKept-hoist_keywords ks _ (IsKept-hoist e h p)

      IsKept-hoist_items : (is : Items T) (h : Hoisting T) → IsKept h (hoist_items making is h).1
      IsKept-hoist_items no_items h p = p
      IsKept-hoist_items (item k e is) h p =
          IsKept-hoist_items is _ (IsKept-hoist e _ (IsKept-hoist_maybe k h p))

      IsKept-hoist_defaults :
          (ps : Parameters T) (h : Hoisting T) → IsKept h (hoist_defaults making ps h).1
      IsKept-hoist_defaults no_parameters h p = p
      IsKept-hoist_defaults (parameter _ _ d _ _ ps) h p =
          IsKept-hoist_defaults ps _ (IsKept-hoist_maybe d h p)

      hoist_generators_straight :
          (ρ : Dict String String) (gs : Generators T) (body : Statements T) (h : Hoisting T)
          → AllStraight h.pending
          → AllStraight body
          → AllStraight (hoist_generators making ρ gs body h).0
            × AllStraight (hoist_generators making ρ gs body h).1.pending
      hoist_generators_straight ρ no_generators body h p q = (q, p)
      hoist_generators_straight ρ (generator t i cs at gs) body h p q =
          wrap_loop_straight ρ t _ at _ _ (IsKept-hoist i _ (IsKept-wrap_generators ρ gs body h p))

    IsKept-hoist_items_of :
        (items : List (WithItem T)) (h : Hoisting T) → IsKept h (hoist_items_of making items h).1
    unfolding hoist_items_of
    IsKept-hoist_items_of [] h p = p
    IsKept-hoist_items_of (i ∷ more) h p = IsKept-hoist_items_of more _ (IsKept-hoist i.context h p)

    -- What is laid out before a statement is of the straight kinds, and a statement of those stays one.
    pub desugar-IsStraight :
        (s : Statement T) (names : List String)
        → AllStraight (desugar making s (begun making names)).1.pending
          × (IsStraight s → IsStraight (desugar making s (begun making names)).0)
    unfolding desugar desugar_while
    desugar-IsStraight (while_statement c body at orelse) names =
        elim (Bool-cases (has_control_flow c)) [
          | inl flows ↦ rw flows (tt, λ n. absurd n)
          | inr plain ↦ rw plain (tt, λ n. absurd n)
        ]
    desugar-IsStraight (assign t v _) names =
        (IsKept-hoist v _ (IsKept-hoist t (begun making names) tt), λ p. p)
    desugar-IsStraight (aug_assign t _ v _) names =
        (IsKept-hoist v _ (IsKept-hoist t (begun making names) tt), λ n. absurd n)
    desugar-IsStraight (expression_statement e _) names =
        (IsKept-hoist e (begun making names) tt, λ p. p)
    desugar-IsStraight (return v _) names =
        (IsKept-hoist_maybe v (begun making names) tt, λ n. absurd n)
    desugar-IsStraight (raise e _ c) names =
        (IsKept-hoist_maybe c _ (IsKept-hoist_maybe e (begun making names) tt), λ n. absurd n)
    desugar-IsStraight (assert t m _) names =
        (IsKept-hoist t _ (IsKept-hoist_maybe m (begun making names) tt), λ n. absurd n)
    desugar-IsStraight (if_statement c _ _ _) names =
        (IsKept-hoist c (begun making names) tt, λ p. p)
    desugar-IsStraight (for_statement _ _ i _ _ _ _) names =
        (IsKept-hoist i (begun making names) tt, λ p. p)
    desugar-IsStraight (with_statement items _ _ _) names =
        (IsKept-hoist_items_of items (begun making names) tt, λ n. absurd n)
    desugar-IsStraight s names = (tt, λ n. absurd n)
