-- ===== src/Cfg/Builder/Size.antt =====
-- A size of what the builder of cfg/builder.py reads, which desugaring does not let grow.
pub mod Rename
pub mod Hoist
pub mod Subjects
pub mod Desugar
pub mod Straight
use coretrace_python_analyze.Hir.{
  name, constant, binary_op, unary_op, bool_op, compare, attribute, subscript, call, tuple, list,
  dict, formatted_string, slice, starred, set, conditional, lambda, await, yield, named_expr,
  comprehension, nil, cons, absent, present, no_keywords, keyword, no_items, item, no_parameters,
  parameter, no_generators, generator, value_pattern, singleton_pattern, wildcard_pattern,
  capture_pattern, as_pattern, or_pattern, star_pattern, sequence_pattern, mapping_pattern,
  class_pattern, unsupported_pattern, no_patterns, sub, no_entries, entry, no_attributes,
  where_attribute, assign, aug_assign, return, expression_statement, pass, delete, match,
  declaration, assert, if_statement, while_statement, for_statement, break, continue, raise,
  with_statement, enter_with, exit_with, try_statement, enter_handler, import, import_from, global,
  nonlocal, function, class, empty, first, no_cases, case, no_handlers, handler, Expression,
  Expressions, Maybe, Keywords, Items, Parameters, Generators, Pattern, Patterns, Entries,
  Attributes, Statement, Statements, Cases, Handlers, WithItem, ImportAlias,
}
use coretrace_python_analyze.Base.{
  List, [], ◌∷◌, ℕ, ◌+◌, suc, Option, none, some, ◌≤◌, list_eq, nat_eq, option_eq, pair_eq,
  string_eq,
}

module _ {T : Type 0} where
  -- Of an expression, with what it will be hoisted to.
  unfoldable mutual
    pub weight : Expression T → ℕ
    weight (name _ _) = 1
    weight (constant _ _) = 1
    weight (binary_op _ l r _) = 1 + weight l + weight r
    weight (unary_op _ e _) = 1 + weight e
    weight (bool_op _ es _) = 1 + all_weight es
    weight (compare _ l r _) = 1 + weight l + weight r
    weight (attribute e _ _) = 1 + weight e
    weight (subscript e k _) = 1 + weight e + weight k
    weight (call f es ks _) = 1 + weight f + all_weight es + keywords_weight ks
    weight (tuple es _) = 1 + all_weight es
    weight (list es _) = 1 + all_weight es
    weight (dict is _) = 1 + items_weight is
    weight (formatted_string es _) = 1 + all_weight es
    weight (slice l u s _) = 1 + maybe_weight l + maybe_weight u + maybe_weight s
    weight (starred e _) = 1 + weight e
    weight (set es _) = 1 + all_weight es
    weight (conditional t b o _) = 6 + weight t + weight b + weight o
    weight (lambda ps body _) = 1 + parameters_weight ps + weight body
    weight (await e _) = 1 + weight e
    weight (yield e _ _) = 1 + maybe_weight e
    weight (named_expr _ _ e _) = 3 + weight e
    weight (comprehension _ e gs _ key) =
        10 + (weight e + weight e) + maybe_weight key + generators_weight gs

    pub all_weight : Expressions T → ℕ
    all_weight nil = 0
    all_weight (cons e es) = 1 + weight e + all_weight es

    pub maybe_weight : Maybe T → ℕ
    maybe_weight absent = 0
    maybe_weight (present e) = weight e

    pub keywords_weight : Keywords T → ℕ
    keywords_weight no_keywords = 0
    keywords_weight (keyword _ e _ ks) = weight e + keywords_weight ks

    pub items_weight : Items T → ℕ
    items_weight no_items = 0
    items_weight (item k e is) = maybe_weight k + weight e + items_weight is

    pub parameters_weight : Parameters T → ℕ
    parameters_weight no_parameters = 0
    parameters_weight (parameter _ _ d _ _ ps) = maybe_weight d + parameters_weight ps

    pub generators_weight : Generators T → ℕ
    generators_weight no_generators = 0
    generators_weight (generator t i cs _ gs) =
        3 + weight t + weight i + all_weight cs + generators_weight gs

  -- Of a pattern, with the conditions and bindings of a subject of weight `s`.
  unfoldable mutual
    unfolding weight

    pub pattern_size : ℕ → Pattern T → ℕ
    pattern_size s (value_pattern v _) = 1 + s + weight v
    pattern_size s (singleton_pattern _ _) = 2 + s
    pattern_size s (wildcard_pattern _) = 1
    pattern_size s (capture_pattern _ _) = 3 + s
    pattern_size s (as_pattern _ p _) = 2 + s + pattern_size s p
    pattern_size s (or_pattern ps _) = 1 + patterns_size s ps
    pattern_size s (star_pattern _ _) = 0
    pattern_size s (sequence_pattern ps _) = 7 + s + sequence_size s ps
    pattern_size s (mapping_pattern es _ _) = 3 + s + entries_size s es
    pattern_size s (class_pattern cls ps named _) =
        6 + s + weight cls + patterns_size (1 + s) ps + attributes_size (1 + s) named
    pattern_size s (unsupported_pattern _ _) = 0

    pub patterns_size : ℕ → Patterns T → ℕ
    patterns_size s no_patterns = 0
    patterns_size s (sub p ps) = 1 + pattern_size s p + patterns_size s ps

    pub sequence_size : ℕ → Patterns T → ℕ
    sequence_size s no_patterns = 0
    sequence_size s (sub p ps) = 7 + s + pattern_size (2 + s) p + sequence_size s ps

    pub entries_size : ℕ → Entries T → ℕ
    entries_size s no_entries = 0
    entries_size s (entry k p es) =
        3 + s + weight k + pattern_size (1 + s + weight k) p + entries_size s es

    pub attributes_size : ℕ → Attributes T → ℕ
    attributes_size s no_attributes = 0
    attributes_size s (where_attribute _ p more) = 1 + pattern_size s p + attributes_size s more

  unfoldable pub contexts_weight : List (WithItem T) → ℕ
  contexts_weight [] = 0
  contexts_weight (i ∷ more) = weight i.context + contexts_weight more

  -- Of a statement, and of the statements that it is laid out as.
  unfoldable mutual
    unfolding weight pattern_size contexts_weight

    pub size : Statement T → ℕ
    size (assign t v _) = 1 + weight t + weight v
    size (aug_assign t _ v _) = 1 + weight t + weight v
    size (return v _) = 1 + maybe_weight v
    size (expression_statement e _) = 1 + weight e
    size (pass _) = 1
    size (delete _ _) = 1
    size (match e cases _) = 3 + weight e + cases_size cases
    size (declaration _ _ _) = 1
    size (assert t m _) = 1 + weight t + maybe_weight m
    size (if_statement c body orelse _) =
        1 + weight c + statements_size body + statements_size orelse
    size (while_statement c body _ orelse) =
        5 + weight c + statements_size body + statements_size orelse
    size (for_statement _ _ i body _ _ orelse) =
        1 + weight i + statements_size body + statements_size orelse
    size (break _) = 1
    size (continue _) = 1
    size (raise e _ c) = 1 + maybe_weight e + maybe_weight c
    size (with_statement items body _ _) = 1 + contexts_weight items + statements_size body
    size (enter_with _ _) = 1
    size (exit_with _ _) = 1
    size (try_statement body handlers orelse finalbody _) =
        1
        + statements_size body
        + handlers_size handlers
        + statements_size orelse
        + statements_size finalbody
    size (enter_handler _ _ _ _ _) = 1
    size (import _ _) = 1
    size (import_from _ _ _ _) = 1
    size (global _ _) = 1
    size (nonlocal _ _) = 1
    size (function _ _ _ _ _ _) = 1
    size (class _ _ _ _ _ _) = 1

    pub statements_size : Statements T → ℕ
    statements_size empty = 0
    statements_size (first s more) = size s + statements_size more

    pub cases_size : Cases T → ℕ
    cases_size no_cases = 0
    cases_size (case p guard body _ more) =
        4 + pattern_size 1 p + maybe_weight guard + statements_size body + cases_size more

    pub handlers_size : Handlers T → ℕ
    handlers_size no_handlers = 0
    handlers_size (handler _ _ body _ more) = statements_size body + handlers_size more

  -- The statements inside, as they are laid out.
  unfoldable pub parts : Statement T → ℕ
  unfolding size
  parts (match e cases _) = 2 + weight e + cases_size cases
  parts (if_statement _ body orelse _) = statements_size body + statements_size orelse
  parts (while_statement _ body _ orelse) = statements_size body + statements_size orelse
  parts (for_statement _ _ _ body _ _ orelse) = statements_size body + statements_size orelse
  parts (with_statement _ body _ _) = statements_size body
  parts (try_statement body handlers orelse finalbody _) =
      statements_size body
      + handlers_size handlers
      + statements_size orelse
      + statements_size finalbody
  parts _ = 0
