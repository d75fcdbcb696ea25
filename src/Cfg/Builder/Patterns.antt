-- ===== src/Cfg/Builder/Patterns.antt =====
-- `pattern` and its helpers of cfg/builder.py: the condition that a pattern tests on a subject, and
-- the assignments that bind its names.
use coretrace_python_analyze.Hir.{
  name, constant, bool_op, compare, attribute, subscript, call, slice, nil, cons, absent, present,
  no_keywords, value_pattern, singleton_pattern, wildcard_pattern, capture_pattern, as_pattern,
  or_pattern, star_pattern, sequence_pattern, mapping_pattern, class_pattern, unsupported_pattern,
  no_patterns, sub, no_entries, entry, no_attributes, where_attribute, assign, empty, first,
  Expression, Expressions, Pattern, Patterns, Entries, Attributes, Statements,
}
use coretrace_python_analyze.Findings.{SourceSpan}
use coretrace_python_analyze.Cfg.{CfgError}
use coretrace_python_analyze.Cfg.Builder.Comprehension.{Making, append}
use coretrace_python_analyze.Base.{
  Bool, true, Dict, List, [], String, ℕ, suc, ◌-◌, Option, none, some, Result, ok, err, ◌>>=◌,
  get_or, get_elem?, ltb, eqb, if◌then◌else◌, string_eq, list_eq, nat_eq, option_eq, pair_eq,
}

-- What stops the builder: what it reports of a function, a failed assertion, the constructor of the
-- graph; and the fuel of the model.
pub data BuildError : Type 0 where
  outside_loop : (keyword : String) → SourceSpan → BuildError
  star_alone : SourceSpan → BuildError
  no_pattern : (kind : String) → SourceSpan → BuildError
  no_key assertion no_fuel : BuildError
  bad_graph : CfgError → BuildError

-- The conditions of some patterns, and what they bind.
abbrev pub Tested : Type 0 → Type 0
Tested T = Result BuildError (Expressions T × Statements T)

module _ {T : Type 0} where
  unfoldable pub conjunction : Expressions T → SourceSpan → Expression T
  conjunction nil at = bool_op "and" nil at
  conjunction (cons c nil) at = c
  conjunction (cons c (cons d more)) at = bool_op "and" (cons c (cons d more)) at

  unfoldable pub count_patterns : Patterns T → ℕ
  count_patterns no_patterns = 0
  count_patterns (sub _ more) = suc (count_patterns more)

  -- The place of the first star.
  unfoldable pub star_at : Patterns T → Option ℕ
  star_at no_patterns = none
  star_at (sub (star_pattern _ _) more) = some 0
  star_at (sub _ more) = elim (star_at more) [ none ↦ none | some i ↦ some (suc i) ]

  unfoldable pub join : Expressions T → Expressions T → Expressions T
  join nil more = more
  join (cons c cs) more = cons c (join cs more)

  -- A condition more, and bindings before those that follow.
  abbrev pub also_test : Expression T → Statements T → Tested T → Tested T
  also_test c before rest = rest >>= λ (more, after). ok (cons c more, append before after)

  abbrev pub tested :
      Expressions T → SourceSpan → Tested T → Result BuildError (Expression T × Statements T)
  tested before at rest = rest >>= λ (more, bound). ok (conjunction (join before more) at, bound)

  module _ (making : Making T) (match_args : Dict String (List String)) where
    open making use {number, negative, match_argument, truth}

    -- What a sequence's length is compared with.
    unfoldable pub length_test : Patterns T → Expression T → SourceSpan → Expression T
    unfolding count_patterns star_at
    length_test ps subject at =
        let total = count_patterns ps in
        let size = call (name "len" at) (cons subject nil) no_keywords at in
        elim (star_at ps) [
          | none ↦ compare "eq" size (constant (number total) at) at
          | some _ ↦ compare "gt_eq" size (constant (number (total - 1)) at) at
        ]

    -- `*rest` at `index`: the slice up to the patterns after it.
    unfoldable pub bind_star :
        Option String → SourceSpan → (index total : ℕ) → Expression T → SourceSpan → Statements T
    bind_star none star_span index total subject at = empty
    bind_star (some bound) star_span index total subject at =
        let upper =
          if eqb index (total - 1)
          then absent
          else present (constant (negative (total - 1 - index)) at) in
        let piece =
          subscript subject (slice (present (constant (number index) at)) upper absent at) at in
        first (assign (name bound star_span) piece star_span) empty

    -- The item at `index`, from the end if a star stands before it.
    unfoldable pub item_at : Option ℕ → (index total : ℕ) → Expression T → SourceSpan → Expression T
    item_at star index total subject at =
        let from_start : Bool = elim star [ none ↦ true | some i ↦ ltb index i ] in
        let position = if from_start then number index else negative (total - index) in
        subscript subject (constant position at) at

    -- The attributes that positional patterns match.
    unfoldable pub known_attributes : Expression T → List String
    known_attributes (name identifier _) = get_or identifier [] match_args
    known_attributes _ = []

    unfoldable pub positional : List String → ℕ → String
    positional known i = elim (get_elem? known i) [ none ↦ match_argument i | some attr ↦ attr ]

    unfoldable mutual
      unfolding conjunction length_test bind_star item_at known_attributes positional append join

      pub pattern : Pattern T → Expression T → Result BuildError (Expression T × Statements T)
      pattern (value_pattern value at) subject = ok (compare "eq" subject value at, empty)
      pattern (singleton_pattern value at) subject =
          ok (compare "is" subject (constant value at) at, empty)
      pattern (wildcard_pattern at) subject = ok (constant (truth true) at, empty)
      pattern (capture_pattern bound at) subject =
          ok (constant (truth true) at, first (assign (name bound at) subject at) empty)
      pattern (as_pattern bound p at) subject = pattern p subject >>= λ (condition, inner).
          ok (condition, append inner (first (assign (name bound at) subject at) empty))
      pattern (or_pattern ps at) subject = alternatives ps subject >>= λ (conditions, bindings).
          ok (bool_op "or" conditions at, bindings)
      pattern (star_pattern _ at) subject = err (star_alone at)
      pattern (sequence_pattern ps at) subject =
          tested (cons (length_test ps subject at) nil) at
            (sequence_items ps (star_at ps) 0 (count_patterns ps) subject at)
      pattern (mapping_pattern es rest at) subject =
          tested nil at (mapping_entries es subject at) >>= λ (condition, bindings). ok (
            condition,
            append bindings (elim rest [
              | none ↦ empty
              | some bound ↦ first (assign (name bound at) subject at) empty
            ]),
          )
      pattern (class_pattern cls ps named at) subject =
          let known = known_attributes cls in
          let is_instance =
            call (name "isinstance" at) (cons subject (cons cls nil)) no_keywords at in
          tested (cons is_instance nil) at
            (positional_items ps known 0 (keyword_items named subject at) subject at)
      pattern (unsupported_pattern kind at) subject = err (no_pattern kind at)

      pub alternatives : Patterns T → Expression T → Tested T
      alternatives no_patterns subject = ok (nil, empty)
      alternatives (sub p more) subject = pattern p subject >>= λ (condition, inner).
          also_test condition inner (alternatives more subject)

      pub sequence_items :
          Patterns T → Option ℕ → (index total : ℕ) → Expression T → SourceSpan → Tested T
      sequence_items no_patterns star index total subject at = ok (nil, empty)
      sequence_items (sub (star_pattern bound star_span) more) star index total subject at =
          sequence_items more star (suc index) total subject at >>= λ (conditions, after).
          ok (conditions, append (bind_star bound star_span index total subject at) after)
      sequence_items (sub p more) star index total subject at =
          pattern p (item_at star index total subject at) >>= λ (condition, inner).
          also_test condition inner (sequence_items more star (suc index) total subject at)

      pub mapping_entries : Entries T → Expression T → SourceSpan → Tested T
      mapping_entries no_entries subject at = ok (nil, empty)
      mapping_entries (entry key p more) subject at =
          pattern p (subscript subject key at) >>= λ (condition, inner).
          also_test (compare "in" key subject at) empty
            (also_test condition inner (mapping_entries more subject at))

      pub positional_items :
          Patterns T → List String → ℕ → Tested T → Expression T → SourceSpan → Tested T
      positional_items no_patterns known i keywords subject at = keywords
      positional_items (sub p more) known i keywords subject at =
          pattern p (attribute subject (positional known i) at) >>= λ (condition, inner).
          also_test condition inner (positional_items more known (suc i) keywords subject at)

      pub keyword_items : Attributes T → Expression T → SourceSpan → Tested T
      keyword_items no_attributes subject at = ok (nil, empty)
      keyword_items (where_attribute attr p more) subject at =
          pattern p (attribute subject attr at) >>= λ (condition, inner).
          also_test condition inner (keyword_items more subject at)
