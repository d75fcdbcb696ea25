-- ===== src/Cfg/Builder/Rename.antt =====
-- `_has_control_flow`, `_bound_names` and `_rename` of cfg/builder.py.
use coretrace_python_analyze.Hir.{
  name, constant, binary_op, unary_op, bool_op, compare, attribute, subscript, call, tuple, list,
  dict, formatted_string, slice, starred, set, conditional, lambda, await, yield, named_expr,
  comprehension, nil, cons, absent, present, no_keywords, keyword, no_items, item, no_parameters,
  parameter, no_generators, generator, Expression, Expressions, Maybe, Keywords, Items, Parameters,
  Generators,
}
use coretrace_python_analyze.Base.{
  Bool, true, false, ◌||◌, Dict, List, [], ◌∷◌, ◌++◌, String, contains, get_or, if◌then◌else◌,
  string_eq, list_eq, nat_eq, option_eq, pair_eq, ◌≡◌, refl,
}

-- The entries whose key is not in `names`.
unfoldable pub without : List String → Dict String String → Dict String String
without names [] = []
without names ((k, v) ∷ renames) =
    let rest = without names renames in if contains names k then rest else (k, v) ∷ rest

module _ {T : Type 0} where
  -- Does a subexpression need control flow, outside the bodies of lambdas?
  unfoldable mutual
    pub has_control_flow : Expression T → Bool
    has_control_flow (name _ _) = false
    has_control_flow (constant _ _) = false
    has_control_flow (binary_op _ l r _) = has_control_flow l || has_control_flow r
    has_control_flow (unary_op _ e _) = has_control_flow e
    has_control_flow (bool_op _ es _) = any_control_flow es
    has_control_flow (compare _ l r _) = has_control_flow l || has_control_flow r
    has_control_flow (attribute e _ _) = has_control_flow e
    has_control_flow (subscript e k _) = has_control_flow e || has_control_flow k
    has_control_flow (call f es ks _) =
        has_control_flow f || (any_control_flow es || keywords_control_flow ks)
    has_control_flow (tuple es _) = any_control_flow es
    has_control_flow (list es _) = any_control_flow es
    has_control_flow (dict is _) = items_control_flow is
    has_control_flow (formatted_string es _) = any_control_flow es
    has_control_flow (slice l u s _) =
        maybe_control_flow l || (maybe_control_flow u || maybe_control_flow s)
    has_control_flow (starred e _) = has_control_flow e
    has_control_flow (set es _) = any_control_flow es
    has_control_flow (conditional _ _ _ _) = true
    has_control_flow (lambda _ _ _) = false
    has_control_flow (await e _) = has_control_flow e
    has_control_flow (yield e _ _) = maybe_control_flow e
    has_control_flow (named_expr _ _ _ _) = true
    has_control_flow (comprehension _ _ _ _ _) = true

    pub any_control_flow : Expressions T → Bool
    any_control_flow nil = false
    any_control_flow (cons e es) = has_control_flow e || any_control_flow es

    pub maybe_control_flow : Maybe T → Bool
    maybe_control_flow absent = false
    maybe_control_flow (present e) = has_control_flow e

    pub keywords_control_flow : Keywords T → Bool
    keywords_control_flow no_keywords = false
    keywords_control_flow (keyword _ e _ ks) = has_control_flow e || keywords_control_flow ks

    pub items_control_flow : Items T → Bool
    items_control_flow no_items = false
    items_control_flow (item k e is) =
        maybe_control_flow k || (has_control_flow e || items_control_flow is)

  -- The names that a target binds.
  unfoldable mutual
    pub bound_names : Expression T → List String
    bound_names (name identifier _) = identifier ∷ []
    bound_names (starred e _) = bound_names e
    bound_names (tuple es _) = all_bound_names es
    bound_names _ = []

    pub all_bound_names : Expressions T → List String
    all_bound_names nil = []
    all_bound_names (cons e es) = bound_names e ++ all_bound_names es

  unfoldable pub parameter_names : Parameters T → List String
  parameter_names no_parameters = []
  parameter_names (parameter argument _ _ _ _ more) = argument ∷ parameter_names more

  unfoldable pub generator_names : Generators T → List String
  unfolding bound_names
  generator_names no_generators = []
  generator_names (generator target _ _ _ more) = bound_names target ++ generator_names more

  -- Names replaced, outside the scopes that bind them again. Without renames a node stays as it is.
  unfoldable mutual
    unfolding without parameter_names generator_names

    pub rename : Dict String String → Expression T → Expression T
    rename ρ (name identifier at) = name (get_or identifier identifier ρ) at
    rename ρ (constant v at) = constant v at
    rename ρ (binary_op op l r at) = binary_op op (rename ρ l) (rename ρ r) at
    rename ρ (unary_op op e at) = unary_op op (rename ρ e) at
    rename ρ (bool_op op es at) = bool_op op (rename_all ρ es) at
    rename ρ (compare op l r at) = compare op (rename ρ l) (rename ρ r) at
    rename ρ (attribute e attr at) = attribute (rename ρ e) attr at
    rename ρ (subscript e k at) = subscript (rename ρ e) (rename ρ k) at
    rename ρ (call f es ks at) = call (rename ρ f) (rename_all ρ es) (rename_keywords ρ ks) at
    rename ρ (tuple es at) = tuple (rename_all ρ es) at
    rename ρ (list es at) = list (rename_all ρ es) at
    rename ρ (dict is at) = dict (rename_items ρ is) at
    rename ρ (formatted_string es at) = formatted_string (rename_all ρ es) at
    rename ρ (slice l u s at) = slice (rename_maybe ρ l) (rename_maybe ρ u) (rename_maybe ρ s) at
    rename ρ (starred e at) = starred (rename ρ e) at
    rename ρ (set es at) = set (rename_all ρ es) at
    rename ρ (conditional t b o at) = conditional (rename ρ t) (rename ρ b) (rename ρ o) at
    rename ρ (lambda ps body at) = lambda ps (rename (without (parameter_names ps) ρ) body) at
    rename ρ (await e at) = await (rename ρ e) at
    rename ρ (yield e at delegate) = yield (rename_maybe ρ e) at delegate
    rename ρ (named_expr target target_at e at) =
        named_expr (get_or target target ρ) target_at (rename ρ e) at
    rename ρ (comprehension kind e gs at key) =
        let inner = without (generator_names gs) ρ in
        comprehension kind (rename inner e) (rename_generators ρ inner gs) at
          (rename_maybe inner key)

    pub rename_all : Dict String String → Expressions T → Expressions T
    rename_all ρ nil = nil
    rename_all ρ (cons e es) = cons (rename ρ e) (rename_all ρ es)

    pub rename_maybe : Dict String String → Maybe T → Maybe T
    rename_maybe ρ absent = absent
    rename_maybe ρ (present e) = present (rename ρ e)

    pub rename_keywords : Dict String String → Keywords T → Keywords T
    rename_keywords ρ no_keywords = no_keywords
    rename_keywords ρ (keyword argument e at ks) =
        keyword argument (rename ρ e) at (rename_keywords ρ ks)

    pub rename_items : Dict String String → Items T → Items T
    rename_items ρ no_items = no_items
    rename_items ρ (item k e is) = item (rename_maybe ρ k) (rename ρ e) (rename_items ρ is)

    -- The first iterable is read outside the comprehension.
    pub rename_generators : Dict String String → Dict String String → Generators T → Generators T
    rename_generators outer inner no_generators = no_generators
    rename_generators outer inner (generator target iterable conditions at more) =
        generator target (rename outer iterable) (rename_all inner conditions) at
          (rename_generators inner inner more)

  -- What an assignment or a `for` may have for a target.
  unfoldable pub is_target : Expression T → Bool
  is_target (name _ _) = true
  is_target (attribute _ _ _) = true
  is_target (subscript _ _ _) = true
  is_target (tuple _ _) = true
  is_target _ = false

  -- `_rename_target`: its assertion holds of every target, since a renamed one is of the same kind.
  rename-is_target :
      (ρ : Dict String String) (e : Expression T) → is_target (rename ρ e) ≡ is_target e
  unfolding rename is_target
  rename-is_target ρ (name identifier at) = refl
  rename-is_target ρ (attribute e attr at) = refl
  rename-is_target ρ (subscript e k at) = refl
  rename-is_target ρ (tuple es at) = refl
  rename-is_target ρ (constant v at) = refl
  rename-is_target ρ (binary_op op l r at) = refl
  rename-is_target ρ (unary_op op e at) = refl
  rename-is_target ρ (bool_op op es at) = refl
  rename-is_target ρ (compare op l r at) = refl
  rename-is_target ρ (call f es ks at) = refl
  rename-is_target ρ (list es at) = refl
  rename-is_target ρ (dict is at) = refl
  rename-is_target ρ (formatted_string es at) = refl
  rename-is_target ρ (slice l u s at) = refl
  rename-is_target ρ (starred e at) = refl
  rename-is_target ρ (set es at) = refl
  rename-is_target ρ (conditional t b o at) = refl
  rename-is_target ρ (lambda ps body at) = refl
  rename-is_target ρ (await e at) = refl
  rename-is_target ρ (yield e at delegate) = refl
  rename-is_target ρ (named_expr target target_at e at) = refl
  rename-is_target ρ (comprehension kind e gs at key) = refl
