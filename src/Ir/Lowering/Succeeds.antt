-- ===== src/Ir/Lowering/Succeeds.antt =====
-- Which expressions ir/lowering.py lowers without an error.
pub mod Names
use coretrace_python_analyze.Hir.{
  name, constant, binary_op, unary_op, bool_op, compare, attribute, subscript, call, tuple, list,
  dict, formatted_string, slice, starred, set, conditional, lambda, await, yield, named_expr,
  comprehension, nil, cons, absent, present, no_keywords, keyword, no_items, item, global,
  Expression, Expressions, Maybe, Keywords, Items, Statement,
}
use coretrace_python_analyze.Ir
use coretrace_python_analyze.Ir.{Value, SymbolId}
use coretrace_python_analyze.Findings.{SourceSpan}
use coretrace_python_analyze.Ir.Lowering.{
  Resolution, local, free, global, unbound, LoweringError, closure, Environment, Lowerer, Lower,
  ◌>>=◌, ◌>>◌, give, fail, new_value, emit, emit_effect, emit_new,
}
use coretrace_python_analyze.Ir.Lowering.Expressions.{
  resolve, imported_symbol, variable, read_name, read_names, store_name, write_back,
  write_back_nonlocals, starred_at, expression, expressions, spread, optional, keyword_values,
  pairs, unpacked_items,
}
use coretrace_python_analyze.Base.{
  All, Bool, true, false, List, [], ◌∷◌, Option, none, some, String, ◌≡◌, refl, contains, get,
  if◌then◌else◌, string_eq, Result, ok, err, subst, sym, list_eq, nat_eq, option_eq, pair_eq,
}
use coretrace_python_analyze.Ir.Lowering.Succeeds.Names.{
  Returns, Returns-bind, Returns-give, Returns-emit_new, Returns-new_value, Returns-emit,
  Returns-read_name, Returns-read_names, Returns-symbol, Returns-write_back, IsOwn, IsClosed,
}

module _ {T : Type 0} (env : Environment T) where
  unfoldable mutual
    pub IsReadable : Expression T → Type 0
    IsReadable (name x _) = IsOwn env x
    IsReadable (constant _ _) = Unit {0}
    IsReadable (binary_op _ l r _) = IsReadable l × IsReadable r
    IsReadable (unary_op _ e _) = IsReadable e
    IsReadable (bool_op _ es _) = AllReadable es
    IsReadable (compare _ l r _) = IsReadable l × IsReadable r
    IsReadable (attribute e _ _) = IsReadable e
    IsReadable (subscript e k _) = IsReadable e × IsReadable k
    IsReadable (call f es ks _) = IsReadable f × AreElements es × KeywordsReadable ks
    IsReadable (tuple es _) = AreElements es
    IsReadable (list es _) = AreElements es
    IsReadable (dict is _) = ItemsReadable is
    IsReadable (formatted_string es _) = AllReadable es
    IsReadable (slice l u s _) = MaybeReadable l × MaybeReadable u × MaybeReadable s
    IsReadable (starred _ _) = ⊥
    IsReadable (set es _) = AreElements es
    IsReadable (conditional _ _ _ _) = ⊥
    IsReadable (lambda ps body at) = All (IsOwn env) (env.scoping.captured_by_lambda ps body at)
    IsReadable (await e _) = IsReadable e
    IsReadable (yield e _ _) = MaybeReadable e
    IsReadable (named_expr _ _ _ _) = ⊥
    IsReadable (comprehension _ _ _ _ _) = ⊥

    AllReadable : Expressions T → Type 0
    AllReadable nil = Unit {0}
    AllReadable (cons e es) = IsReadable e × AllReadable es

    -- Among elements, a star is fine.
    AreElements : Expressions T → Type 0
    AreElements nil = Unit {0}
    AreElements (cons (starred e _) es) = IsReadable e × AreElements es
    AreElements (cons e es) = IsReadable e × AreElements es

    MaybeReadable : Maybe T → Type 0
    MaybeReadable absent = Unit {0}
    MaybeReadable (present e) = IsReadable e

    KeywordsReadable : Keywords T → Type 0
    KeywordsReadable no_keywords = Unit {0}
    KeywordsReadable (keyword _ e _ ks) = IsReadable e × KeywordsReadable ks

    ItemsReadable : Items T → Type 0
    ItemsReadable no_items = Unit {0}
    ItemsReadable (item k e is) = MaybeReadable k × IsReadable e × ItemsReadable is

  module _ (closed : IsClosed env) where
    Returns-write_back_nonlocals :
        (f : Expression T) (at : SourceSpan) (v : Value) → Returns (write_back_nonlocals env f at v)
    unfolding write_back_nonlocals
    Returns-write_back_nonlocals (name f _) at v = record {
      run = λ s. found s (get f s.nested_defs);
    }
      where
        found :
            (s : Lowerer T) (o : Option (Statement T))
            → (a : Unit {0}) × (s' : Lowerer T) × ((elim o
                  as (λ _. Result LoweringError (Unit {0} × Lowerer T)) [
                    | none ↦ give tt s
                    | some nested ↦ write_back env (env.scoping.nonlocals_of nested) at v s
                  ])
                ≡ ok (a, s'))
        found s none = (tt, s, refl)
        found s (some nested) =
            (Returns-write_back env (env.scoping.nonlocals_of nested) at v (closed nested)).run s
    Returns-write_back_nonlocals f at v = Returns-give tt

    mutual
      unfolding expression IsReadable

      -- Where the names that nested functions assign to are locals of the function, an expression
      -- without conditional, comprehension or walrus is lowered without an error, from every state
      -- of the lowerer, if its stars stand only among elements and arguments, and each name that it
      -- reads, or that its lambdas capture, is not one of an enclosing function's.
      Returns-parts : (e : Expression T) → IsReadable e → Returns (expression env e)
      Returns-parts (name x at) h = Returns-read_name env x at h
      Returns-parts (constant value at) h = Returns-emit_new (λ v. Ir.constant v at value)
      Returns-parts (binary_op op l r at) h = Returns-bind _ _ (Returns-parts l h.0) (λ u.
          Returns-bind _ _ (Returns-parts r h.1)
            (λ v. Returns-emit_new (λ w. Ir.binary_op w at op u v)))
      Returns-parts (unary_op op e at) h =
          Returns-bind _ _ (Returns-parts e h) (λ u. Returns-emit_new (λ w. Ir.unary_op w at op u))
      Returns-parts (compare op l r at) h = Returns-bind _ _ (Returns-parts l h.0) (λ u.
          Returns-bind _ _ (Returns-parts r h.1)
            (λ v. Returns-emit_new (λ w. Ir.compare w at op u v)))
      Returns-parts (call f es ks at) h = Returns-bind _ _ (Returns-parts f h.0) (λ callee.
          Returns-bind _ _ (Returns-spread es h.1) (λ p.
            Returns-bind _ _ (Returns-keyword_values ks h.2) (λ keywords.
              Returns-bind _ _ (Returns-emit_new (λ w. Ir.call w at callee p.0 keywords p.1))
                (λ result.
                  Returns-bind _ _ (Returns-write_back_nonlocals f at result)
                    (λ _. Returns-give result)))))
      Returns-parts (bool_op op es at) h =
          Returns-bind _ _ (Returns-expressions es h)
            (λ vs. Returns-emit_new (λ w. Ir.bool_op w at op vs))
      Returns-parts (list es at) h =
          Returns-bind _ _ (Returns-spread es h)
            (λ p. Returns-emit_new (λ w. Ir.build_list w at p.0 p.1 (starred_at env es 0)))
      Returns-parts (tuple es at) h =
          Returns-bind _ _ (Returns-spread es h)
            (λ p. Returns-emit_new (λ w. Ir.build_tuple w at p.0 p.1 (starred_at env es 0)))
      Returns-parts (dict is at) h = Returns-bind _ _ (Returns-pairs is h) (λ ps.
          Returns-bind _ _ (Returns-unpacked_items is h)
            (λ vs. Returns-emit_new (λ w. Ir.build_dict w at ps vs)))
      Returns-parts (formatted_string es at) h =
          Returns-bind _ _ (Returns-expressions es h)
            (λ vs. Returns-emit_new (λ w. Ir.build_string w at vs))
      Returns-parts (slice l u s at) h = Returns-bind _ _ (Returns-optional l h.0) (λ lower.
          Returns-bind _ _ (Returns-optional u h.1) (λ upper.
            Returns-bind _ _ (Returns-optional s h.2)
              (λ step. Returns-emit_new (λ w. Ir.build_slice w at lower upper step))))
      Returns-parts (starred e at) h = absurd h
      Returns-parts (set es at) h =
          Returns-bind _ _ (Returns-spread es h)
            (λ p. Returns-emit_new (λ w. Ir.build_set w at p.0 p.1))
      Returns-parts (lambda ps body at) h =
          Returns-bind _ _ (Returns-read_names env (env.scoping.captured_by_lambda ps body at) at h)
            (λ vs.
              Returns-emit_new (λ w.
                Ir.make_function w at (env.texts.lambda_name at.start_line at.start_column) vs))
      Returns-parts (conditional _ _ _ at) h = absurd h
      Returns-parts (comprehension _ _ _ at _) h = absurd h
      Returns-parts (await e at) h = Returns-bind new_value _ Returns-new_value (λ result.
          Returns-bind _ _ (Returns-parts e h) (λ v. Returns-emit (Ir.await result at v) result))
      Returns-parts (yield e at _) h =
          Returns-bind _ _ (Returns-optional e h) (λ o. Returns-emit_new (λ w. Ir.yield w at o))
      Returns-parts (attribute e attr at) h =
          Returns-symbol env (imported_symbol env (attribute e attr at)) at _ (
            Returns-bind _ _ (Returns-parts e h)
              (λ u. Returns-emit_new (λ w. Ir.get_attr w at u attr)))
      Returns-parts (subscript e key at) h = Returns-bind _ _ (Returns-parts e h.0) (λ u.
          Returns-bind _ _ (Returns-parts key h.1)
            (λ v. Returns-emit_new (λ w. Ir.get_item w at u v)))
      Returns-parts (named_expr _ _ _ at) h = absurd h

      Returns-expressions : (es : Expressions T) → AllReadable es → Returns (expressions env es)
      Returns-expressions nil h = Returns-give []
      Returns-expressions (cons e es) h =
          Returns-bind _ _ (Returns-parts e h.0)
            (λ v. Returns-bind _ _ (Returns-expressions es h.1) (λ vs. Returns-give (v ∷ vs)))

      Returns-spread : (es : Expressions T) → AreElements es → Returns (spread env es)
      Returns-spread nil h = Returns-give ([], [])
      Returns-spread (cons (starred e _) es) h =
          Returns-bind _ _ (Returns-parts e h.0)
            (λ v. Returns-bind _ _ (Returns-spread es h.1) (λ p. Returns-give (p.0, v ∷ p.1)))
      Returns-spread (cons e es) h =
          Returns-bind _ _ (Returns-parts e h.0)
            (λ v. Returns-bind _ _ (Returns-spread es h.1) (λ p. Returns-give (v ∷ p.0, p.1)))

      Returns-optional : (e : Maybe T) → MaybeReadable e → Returns (optional env e)
      Returns-optional absent h = Returns-give none
      Returns-optional (present e) h =
          Returns-bind _ _ (Returns-parts e h) (λ v. Returns-give (some v))

      Returns-keyword_values :
          (ks : Keywords T) → KeywordsReadable ks → Returns (keyword_values env ks)
      Returns-keyword_values no_keywords h = Returns-give []
      Returns-keyword_values (keyword argument e _ ks) h =
          Returns-bind _ _ (Returns-parts e h.0) (λ v.
            Returns-bind _ _ (Returns-keyword_values ks h.1)
              (λ vs. Returns-give ((argument, v) ∷ vs)))

      Returns-pairs : (is : Items T) → ItemsReadable is → Returns (pairs env is)
      Returns-pairs no_items h = Returns-give []
      Returns-pairs (item absent _ is) h = Returns-pairs is h.2
      Returns-pairs (item (present k) e is) h = Returns-bind _ _ (Returns-parts k h.0) (λ u.
          Returns-bind _ _ (Returns-parts e h.1)
            (λ v. Returns-bind _ _ (Returns-pairs is h.2) (λ ps. Returns-give ((u, v) ∷ ps))))

      Returns-unpacked_items : (is : Items T) → ItemsReadable is → Returns (unpacked_items env is)
      Returns-unpacked_items no_items h = Returns-give []
      Returns-unpacked_items (item (present _) _ is) h = Returns-unpacked_items is h.2
      Returns-unpacked_items (item absent e is) h =
          Returns-bind _ _ (Returns-parts e h.1)
            (λ v. Returns-bind _ _ (Returns-unpacked_items is h.2) (λ vs. Returns-give (v ∷ vs)))

    -- Where the names that nested functions assign to are locals of the function, an expression
    -- without conditional, comprehension or walrus is lowered without an error, from every state of
    -- the lowerer, if its stars stand only among elements and arguments, and each name that it
    -- reads, or that its lambdas capture, is not one of an enclosing function's.
    pub Returns-expression : (e : Expression T) → IsReadable e → Returns (expression env e)
    Returns-expression e h = Returns-parts e h
