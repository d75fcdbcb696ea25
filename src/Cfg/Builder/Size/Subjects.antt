-- ===== src/Cfg/Builder/Size/Subjects.antt =====
-- The conditions and bindings of a pattern are no larger than its size says.
use coretrace_python_analyze.Hir.{
  name, bool_op, compare, attribute, subscript, call, nil, cons, absent, present, no_keywords,
  value_pattern, singleton_pattern, wildcard_pattern, capture_pattern, as_pattern, or_pattern,
  star_pattern, sequence_pattern, mapping_pattern, class_pattern, unsupported_pattern, no_patterns,
  sub, no_entries, entry, no_attributes, where_attribute, assign, if_statement, empty, first,
  no_cases, case, Expression, Expressions, Maybe, Pattern, Patterns, Entries, Attributes,
  Statements, Cases,
}
use coretrace_python_analyze.Findings.{SourceSpan}
use coretrace_python_analyze.Cfg.Builder.Size.{
  weight, all_weight, maybe_weight, size, statements_size, pattern_size, patterns_size,
  sequence_size, entries_size, attributes_size, cases_size,
}
use coretrace_python_analyze.Cfg.Builder.Size.Hoist.{size-append}
use coretrace_python_analyze.Cfg.Builder.Comprehension.{Making, append}
use coretrace_python_analyze.Cfg.Builder.Patterns.{
  BuildError, outside_loop, star_alone, no_pattern, no_key, assertion, no_fuel, bad_graph, Tested,
  conjunction, join, length_test, bind_star, item_at, positional, known_attributes, star_at,
  count_patterns, pattern, alternatives, sequence_items, mapping_entries, positional_items,
  keyword_items, also_test, tested,
}
use coretrace_python_analyze.Cfg.Builder.Desugar.{guarded, match_chain}
use coretrace_python_analyze.Base.{
  List, ℕ, suc, ◌+◌, Dict, String, Option, none, some, Result, ok, err, ◌>>=◌, ◌≤◌, ◌≡◌, arith,
  subst, list_eq, nat_eq, option_eq, pair_eq, string_eq,
}

-- An error that a function's own code causes: not one of the builder, or of the model's fuel.
abbrev pub Reported : BuildError → Type 0
Reported (outside_loop _ _) = Unit {0}
Reported (star_alone _) = Unit {0}
Reported (no_pattern _ _) = Unit {0}
Reported no_key = Unit {0}
Reported assertion = ⊥
Reported no_fuel = ⊥
Reported (bad_graph _) = ⊥

module _ {T : Type 0} where
  -- A bound on what a successful test gives.
  abbrev Within : ℕ → Tested T → Type 0
  Within n (err e) = Reported e
  Within n (ok (cs, bindings)) = all_weight cs + statements_size bindings ≤ n

  abbrev pub OneWithin : ℕ → Result BuildError (Expression T × Statements T) → Type 0
  OneWithin n (err e) = Reported e
  OneWithin n (ok (c, bindings)) = weight c + statements_size bindings ≤ n

  weight-conjunction :
      (cs : Expressions T) (at : SourceSpan) → weight (conjunction cs at) ≤ 1 + all_weight cs
  unfolding conjunction weight
  weight-conjunction nil at = omega arith
  weight-conjunction (cons c nil) at = omega arith
  weight-conjunction (cons c (cons d cs)) at = omega arith

  all_weight-join : (a b : Expressions T) → all_weight (join a b) ≡ all_weight a + all_weight b
  unfolding join weight
  all_weight-join nil b = omega arith
  all_weight-join (cons c a) b = omega (arith, all_weight-join a b)

  Within-also :
      (m n : ℕ) (c : Expression T) (before : Statements T) (rest : Tested T)
      → 1 + weight c + statements_size before ≤ m
      → Within n rest
      → Within (m + n) (also_test c before rest)
  unfolding weight
  Within-also m n c before (err e) h k = k
  Within-also m n c before (ok (cs, after)) h k = omega (arith, size-append before after)

  -- A pattern's test before others.
  Within-bind :
      (m n : ℕ) (one : Result BuildError (Expression T × Statements T)) (rest : Tested T)
      → OneWithin m one
      → Within n rest
      → Within (1 + m + n) (one >>= λ (c, inner). also_test c inner rest)
  Within-bind m n (err e) rest h k = h
  Within-bind m n (ok (c, inner)) rest h k = Within-also (1 + m) n c inner rest (omega (arith, h)) k

  OneWithin-tested :
      (n : ℕ) (before : Expressions T) (at : SourceSpan) (rest : Tested T)
      → Within n rest
      → OneWithin (1 + all_weight before + n) (tested before at rest)
  OneWithin-tested n before at (err e) k = k
  OneWithin-tested n before at (ok (cs, bindings)) k =
      omega (arith, weight-conjunction (join before cs) at, all_weight-join before cs)

  OneWithin-le :
      (m n : ℕ) (one : Result BuildError (Expression T × Statements T))
      → OneWithin m one
      → m ≤ n
      → OneWithin n one
  OneWithin-le m n (err e) h le = h
  OneWithin-le m n (ok _) h le = omega (arith, h, le)

  Within-le : (m n : ℕ) (rest : Tested T) → Within m rest → m ≤ n → Within n rest
  Within-le m n (err e) h le = h
  Within-le m n (ok _) h le = omega (arith, h, le)

  -- Bindings around those of a test.
  OneWithin-before :
      (m n : ℕ) (one : Result BuildError (Expression T × Statements T)) (more : Statements T)
      → OneWithin m one
      → statements_size more ≤ n
      → OneWithin (m + n) (one >>= λ (c, inner). ok (c, append inner more))
  OneWithin-before m n (err e) more h k = h
  OneWithin-before m n (ok (c, inner)) more h k = omega (arith, h, k, size-append inner more)

  module _ (making : Making T) (match_args : Dict String (List String)) where
    weight-length_test :
        (ps : Patterns T) (s : Expression T) (at : SourceSpan)
        → weight (length_test making match_args ps s at) ≤ 5 + weight s
    unfolding length_test weight
    weight-length_test ps s at = ground arith

    size-bind_star :
        (bound : Option String) (b_at : SourceSpan) (i n : ℕ) (s : Expression T) (at : SourceSpan)
        → statements_size (bind_star making match_args bound b_at i n s at) ≤ 6 + weight s
    unfolding bind_star size weight
    size-bind_star none b_at i n s at = omega arith
    size-bind_star (some _) b_at i n s at = ground arith

    weight-item_at :
        (star : Option ℕ) (i n : ℕ) (s : Expression T) (at : SourceSpan)
        → weight (item_at making match_args star i n s at) ≡ 2 + weight s
    unfolding item_at weight
    weight-item_at star i n s at = omega arith

    size_rest :
        (rest : Option String) (s : Expression T) (at : SourceSpan)
        → statements_size (elim rest as (λ _. Statements T) [
          | none ↦ empty
          | some bound ↦ first (assign (name bound at) s at) empty
        ])
          ≤ 2 + weight s
    unfolding size weight
    size_rest none s at = omega arith
    size_rest (some bound) s at = omega arith

    or_within :
        (n : ℕ) (at : SourceSpan) (rest : Tested T)
        → Within n rest
        → OneWithin (1 + n) (rest >>= λ (cs, bindings). ok (bool_op "or" cs at, bindings))
    unfolding weight
    or_within n at (err e) h = h
    or_within n at (ok (cs, bindings)) h = omega (arith, h)

    star_within :
        (n k : ℕ) (bindings : Statements T) (rest : Tested T)
        → statements_size bindings ≤ k
        → Within n rest
        → Within (k + n) (rest >>= λ (cs, after). ok (cs, append bindings after))
    star_within n k bindings (err e) h w = w
    star_within n k bindings (ok (cs, after)) h w = omega (arith, h, w, size-append bindings after)

    mutual
      unfolding pattern pattern_size weight size

      pub pattern_within :
          (p : Pattern T) (s : Expression T)
          → OneWithin (pattern_size (weight s) p) (pattern making match_args p s)
      pattern_within (value_pattern v at) s = omega arith
      pattern_within (singleton_pattern v at) s = omega arith
      pattern_within (wildcard_pattern at) s = omega arith
      pattern_within (capture_pattern bound at) s = omega arith
      pattern_within (as_pattern bound p at) s =
          OneWithin-le (pattern_size (weight s) p + (2 + weight s)) _ _
            (OneWithin-before (pattern_size (weight s) p) (2 + weight s)
              (pattern making match_args p s) _ (pattern_within p s) (omega arith))
            (omega arith)
      pattern_within (or_pattern ps at) s =
          or_within (patterns_size (weight s) ps) at (alternatives making match_args ps s)
            (alternatives_within ps s)
      pattern_within (star_pattern bound at) s = tt
      pattern_within (sequence_pattern ps at) s =
          OneWithin-le _ _ _
            (OneWithin-tested (sequence_size (weight s) ps)
              (cons (length_test making match_args ps s at) nil) at _
              (sequence_within ps (star_at ps) 0 (count_patterns ps) s at))
            (omega (arith, weight-length_test ps s at))
      pattern_within (mapping_pattern es rest at) s =
          OneWithin-le _ _ _
            (OneWithin-before (1 + entries_size (weight s) es) (2 + weight s) _ _
              (OneWithin-tested (entries_size (weight s) es) nil at _ (mapping_within es s at))
              (size_rest rest s at))
            (omega arith)
      pattern_within (class_pattern cls ps named at) s =
          OneWithin-le _ _ _
            (OneWithin-tested
              (patterns_size (1 + weight s) ps + attributes_size (1 + weight s) named)
              (cons (call (name "isinstance" at) (cons s (cons cls nil)) no_keywords at) nil) at _
              (positional_within ps (known_attributes making match_args cls) 0
                (keyword_items making match_args named s at) s at
                (attributes_size (1 + weight s) named) (keyword_within named s at)))
            (omega arith)
      pattern_within (unsupported_pattern kind at) s = tt

      alternatives_within :
          (ps : Patterns T) (s : Expression T)
          → Within (patterns_size (weight s) ps) (alternatives making match_args ps s)
      alternatives_within no_patterns s = omega arith
      alternatives_within (sub p more) s =
          Within-bind (pattern_size (weight s) p) (patterns_size (weight s) more)
            (pattern making match_args p s) _ (pattern_within p s) (alternatives_within more s)

      sequence_within :
          (ps : Patterns T) (star : Option ℕ) (i n : ℕ) (s : Expression T) (at : SourceSpan)
          → Within (sequence_size (weight s) ps) (sequence_items making match_args ps star i n s at)
      sequence_within no_patterns star i n s at = omega arith
      sequence_within (sub (star_pattern bound b_at) more) star i n s at =
          Within-le _ _ _
            (star_within (sequence_size (weight s) more) (6 + weight s)
              (bind_star making match_args bound b_at i n s at) _
              (size-bind_star bound b_at i n s at) (sequence_within more star (suc i) n s at))
            (omega arith)
      sequence_within (sub p more) star i n s at =
          Within-le (1 + pattern_size (2 + weight s) p + sequence_size (weight s) more)
            (sequence_size (weight s) (sub p more))
            (sequence_items making match_args (sub p more) star i n s at)
            (Within-bind (pattern_size (2 + weight s) p) (sequence_size (weight s) more)
              (pattern making match_args p (item_at making match_args star i n s at))
              (sequence_items making match_args more star (suc i) n s at)
              (subst
                (λ k.
                  OneWithin (pattern_size k p)
                    (pattern making match_args p (item_at making match_args star i n s at)))
                (weight-item_at star i n s at)
                (pattern_within p (item_at making match_args star i n s at)))
              (sequence_within more star (suc i) n s at))
            (omega arith)

      mapping_within :
          (es : Entries T) (s : Expression T) (at : SourceSpan)
          → Within (entries_size (weight s) es) (mapping_entries making match_args es s at)
      mapping_within no_entries s at = omega arith
      mapping_within (entry k p more) s at =
          Within-le _ _ _
            (mapped (pattern making match_args p (subscript s k at)) _
              (pattern_within p (subscript s k at)) (mapping_within more s at))
            (omega arith)
        where
          mapped :
              (one : Result BuildError (Expression T × Statements T)) (rest : Tested T)
              → OneWithin (pattern_size (1 + weight s + weight k) p) one
              → Within (entries_size (weight s) more) rest
              → Within
                  ((2 + weight k + weight s)
                    + ((1 + pattern_size (1 + weight s + weight k) p)
                        + entries_size (weight s) more))
                  (one >>= λ (c, inner).
                    also_test (compare "in" k s at) empty (also_test c inner rest))
          mapped (err e) rest h w = h
          mapped (ok (c, inner)) rest h w =
              Within-also (2 + weight k + weight s)
                ((1 + pattern_size (1 + weight s + weight k) p) + entries_size (weight s) more)
                (compare "in" k s at) empty _ (omega arith)
                (Within-also (1 + pattern_size (1 + weight s + weight k) p)
                  (entries_size (weight s) more) c inner rest (omega (arith, h)) w)

      positional_within :
          (ps : Patterns T) (known : List String) (i : ℕ) (keywords : Tested T) (s : Expression T)
          (at : SourceSpan) (n : ℕ)
          → Within n keywords
          → Within
              (patterns_size (1 + weight s) ps + n)
              (positional_items making match_args ps known i keywords s at)
      positional_within no_patterns known i keywords s at n w =
          Within-le n _ keywords w (omega arith)
      positional_within (sub p more) known i keywords s at n w =
          Within-le _ _ _
            (Within-bind (pattern_size (1 + weight s) p) (patterns_size (1 + weight s) more + n) _ _
              (pattern_within p (attribute s (positional making match_args known i) at))
              (positional_within more known (suc i) keywords s at n w))
            (omega arith)

      keyword_within :
          (named : Attributes T) (s : Expression T) (at : SourceSpan)
          → Within
              (attributes_size (1 + weight s) named)
              (keyword_items making match_args named s at)
      keyword_within no_attributes s at = omega arith
      keyword_within (where_attribute attr p more) s at =
          Within-bind (pattern_size (1 + weight s) p) (attributes_size (1 + weight s) more) _ _
            (pattern_within p (attribute s attr at)) (keyword_within more s at)

    -- The chain of a `match` is no larger than its cases say.
    abbrev pub ChainWithin : ℕ → Result BuildError (Statements T) → Type 0
    ChainWithin n (err e) = Reported e
    ChainWithin n (ok chain) = statements_size chain ≤ n

    weight-guarded :
        (c : Expression T) (guard : Maybe T) (at : SourceSpan)
        → weight (guarded making c guard at) ≤ 3 + weight c + maybe_weight guard
    unfolding guarded weight
    weight-guarded c absent at = omega arith
    weight-guarded c (present g) at = omega arith

    case_within :
        (m n : ℕ) (guard : Maybe T) (body rest : Statements T) (at : SourceSpan)
        (one : Result BuildError (Expression T × Statements T))
        → OneWithin m one
        → statements_size rest ≤ n
        → ChainWithin (4 + m + maybe_weight guard + statements_size body + n) (
            one >>= λ (c, bindings).
            ok (
              append bindings
                (first (if_statement (guarded making c guard at) body rest at) empty)))
    unfolding size weight
    case_within m n guard body rest at (err e) h k = h
    case_within m n guard body rest at (ok (c, bindings)) h k = omega (
      arith,
      h,
      k,
      weight-guarded c guard at,
      size-append bindings (first (if_statement (guarded making c guard at) body rest at) empty),
    )

    pub match_chain_within :
        (cases : Cases T) (subject : String) (at : SourceSpan)
        → ChainWithin (cases_size cases) (match_chain making match_args cases (name subject at))
    unfolding match_chain weight size
    match_chain_within no_cases subject at = omega arith
    match_chain_within (case p guard body c_at more) subject at =
        chained (match_chain making match_args more (name subject at))
          (match_chain_within more subject at)
      where
        chained :
            (rest : Result BuildError (Statements T))
            → ChainWithin (cases_size more) rest
            → ChainWithin (cases_size (case p guard body c_at more)) (
                rest >>= λ rest'. pattern making match_args p (name subject at) >>= λ (c, bindings).
                ok (
                  append bindings
                    (first (if_statement (guarded making c guard c_at) body rest' c_at) empty)))
        chained (err e) h = h
        chained (ok rest) h =
            case_within (pattern_size 1 p) (cases_size more) guard body rest c_at
              (pattern making match_args p (name subject at)) (pattern_within p (name subject at)) h
