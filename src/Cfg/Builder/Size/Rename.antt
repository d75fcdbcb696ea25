-- ===== src/Cfg/Builder/Size/Rename.antt =====
-- Renaming keeps weights.
use coretrace_python_analyze.Hir.{
  name, constant, binary_op, unary_op, bool_op, compare, attribute, subscript, call, tuple, list,
  dict, formatted_string, slice, starred, set, conditional, lambda, await, yield, named_expr,
  comprehension, nil, cons, absent, present, no_keywords, keyword, no_items, item, no_generators,
  generator, Expression, Expressions, Maybe, Keywords, Items, Generators,
}
use coretrace_python_analyze.Cfg.Builder.Rename.{
  rename, rename_all, rename_maybe, rename_keywords, rename_items, rename_generators, without,
  parameter_names, generator_names,
}
use coretrace_python_analyze.Cfg.Builder.Size.{
  weight, all_weight, maybe_weight, keywords_weight, items_weight, generators_weight,
}
use coretrace_python_analyze.Base.{
  Dict, String, ◌≡◌, refl, arith, list_eq, nat_eq, option_eq, pair_eq, string_eq,
}

module _ {T : Type 0} where
  mutual
    unfolding rename weight

    pub weight-rename : (ρ : Dict String String) (e : Expression T) → weight (rename ρ e) ≡ weight e
    weight-rename ρ (name _ _) = refl
    weight-rename ρ (constant _ _) = refl
    weight-rename ρ (binary_op _ l r _) = omega (arith, weight-rename ρ l, weight-rename ρ r)
    weight-rename ρ (unary_op _ e _) = omega (arith, weight-rename ρ e)
    weight-rename ρ (bool_op _ es _) = omega (arith, all_weight-rename ρ es)
    weight-rename ρ (compare _ l r _) = omega (arith, weight-rename ρ l, weight-rename ρ r)
    weight-rename ρ (attribute e _ _) = omega (arith, weight-rename ρ e)
    weight-rename ρ (subscript e k _) = omega (arith, weight-rename ρ e, weight-rename ρ k)
    weight-rename ρ (call f es ks _) =
        omega (arith, weight-rename ρ f, all_weight-rename ρ es, keywords_weight-rename ρ ks)
    weight-rename ρ (tuple es _) = omega (arith, all_weight-rename ρ es)
    weight-rename ρ (list es _) = omega (arith, all_weight-rename ρ es)
    weight-rename ρ (dict is _) = omega (arith, items_weight-rename ρ is)
    weight-rename ρ (formatted_string es _) = omega (arith, all_weight-rename ρ es)
    weight-rename ρ (slice l u s _) =
        omega (arith, maybe_weight-rename ρ l, maybe_weight-rename ρ u, maybe_weight-rename ρ s)
    weight-rename ρ (starred e _) = omega (arith, weight-rename ρ e)
    weight-rename ρ (set es _) = omega (arith, all_weight-rename ρ es)
    weight-rename ρ (conditional t b o _) =
        omega (arith, weight-rename ρ t, weight-rename ρ b, weight-rename ρ o)
    weight-rename ρ (lambda ps body _) =
        omega (arith, weight-rename (without (parameter_names ps) ρ) body)
    weight-rename ρ (await e _) = omega (arith, weight-rename ρ e)
    weight-rename ρ (yield e _ _) = omega (arith, maybe_weight-rename ρ e)
    weight-rename ρ (named_expr _ _ e _) = omega (arith, weight-rename ρ e)
    weight-rename ρ (comprehension _ e gs _ key) = omega (
      arith,
      weight-rename (without (generator_names gs) ρ) e,
      generators_weight-rename ρ (without (generator_names gs) ρ) gs,
      maybe_weight-rename (without (generator_names gs) ρ) key,
    )

    pub all_weight-rename :
        (ρ : Dict String String) (es : Expressions T) → all_weight (rename_all ρ es) ≡ all_weight es
    all_weight-rename ρ nil = refl
    all_weight-rename ρ (cons e es) = omega (arith, weight-rename ρ e, all_weight-rename ρ es)

    maybe_weight-rename :
        (ρ : Dict String String) (e : Maybe T) → maybe_weight (rename_maybe ρ e) ≡ maybe_weight e
    maybe_weight-rename ρ absent = refl
    maybe_weight-rename ρ (present e) = weight-rename ρ e

    keywords_weight-rename :
        (ρ : Dict String String) (ks : Keywords T)
        → keywords_weight (rename_keywords ρ ks) ≡ keywords_weight ks
    keywords_weight-rename ρ no_keywords = refl
    keywords_weight-rename ρ (keyword _ e _ ks) =
        omega (arith, weight-rename ρ e, keywords_weight-rename ρ ks)

    items_weight-rename :
        (ρ : Dict String String) (is : Items T) → items_weight (rename_items ρ is) ≡ items_weight is
    items_weight-rename ρ no_items = refl
    items_weight-rename ρ (item k e is) =
        omega (arith, maybe_weight-rename ρ k, weight-rename ρ e, items_weight-rename ρ is)

    generators_weight-rename :
        (outer inner : Dict String String) (gs : Generators T)
        → generators_weight (rename_generators outer inner gs) ≡ generators_weight gs
    generators_weight-rename outer inner no_generators = refl
    generators_weight-rename outer inner (generator t i cs _ gs) = omega (
      arith,
      weight-rename outer i,
      all_weight-rename inner cs,
      generators_weight-rename inner inner gs,
    )
