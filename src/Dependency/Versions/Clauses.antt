-- ===== src/Dependency/Versions/Clauses.antt =====
-- What the clauses of dependency/graph.py ask of a version.
use coretrace_python_analyze.Dependency.Versions.{
  Version, Operator, equal, identical, differs, less, at_most, greater, at_least, compatible, caret,
  padded, tuple_lt, compatible_ceiling, caret_ceiling, satisfies_clause, max,
}
use coretrace_python_analyze.Dependency.Versions.Order.{
  before, tuple_lt-padded, tuple_lt-padded_left, padded-equal,
}
use coretrace_python_analyze.Base.{
  Bool, arith, if◌then◌else◌, length, list_eq, nat_eq, not, option_eq, pair_eq, refl, string_eq,
  take, ◌&&◌, ◌==◌, ◌≡◌, ℕ, [], ltb, suc, true, ◌∷◌,
}

-- The first version after the series `wanted.*`.
unfoldable pub series_ceiling : Version → Version
series_ceiling [] = []
series_ceiling (a ∷ []) = suc a ∷ []
series_ceiling (a ∷ b ∷ more) = a ∷ series_ceiling (b ∷ more)

-- A version of the series is in it by the order, and has as many parts as the series names.
unfoldable pub in_series : Version → Version → Bool
unfolding series_ceiling
in_series v [] = true
in_series v (a ∷ more) =
    not (ltb (length v) (suc (length more)))
    && (not (before v (a ∷ more)) && before v (series_ceiling (a ∷ more)))

-- What a clause asks of a version, by the order of versions, and in a series by the length too.
unfoldable pub allows : Version → Operator → Version → Bool → Bool
unfolding in_series
allows v operator wanted wildcard =
    let same : Bool = not (before v wanted) && not (before wanted v) in
    let exactly : Bool = if wildcard then in_series v wanted else same in
    elim operator [
      | equal ↦ exactly
      | identical ↦ exactly
      | differs ↦ not same
      | less ↦ before v wanted
      | at_most ↦ not (before wanted v)
      | greater ↦ before wanted v
      | at_least ↦ not (before v wanted)
      | compatible ↦ not (before v wanted) && before v (compatible_ceiling wanted)
      | caret ↦ not (before v wanted) && before v (caret_ceiling wanted)
    ]

take-in_series : (v wanted : Version) → (take (length wanted) v == wanted) ≡ in_series v wanted
unfolding in_series series_ceiling before
take-in_series v [] = refl
take-in_series [] (a ∷ more) = ground arith
take-in_series (x ∷ xs) (a ∷ []) = ground arith
take-in_series (x ∷ xs) (a ∷ b ∷ more) = let h = take-in_series xs (b ∷ more) in ground arith

-- The padding that a comparison takes never tells: a clause allows a version by the order of
-- versions, in which missing parts are 0, where `~=` and `^` have a ceiling too; a `==` or `===`
-- that ends in `.*` allows what is from its version on and before the one whose last part is one
-- more, but only if it has as many parts, so that 1 is not allowed by `==1.0.*`.
pub satisfies_clause-allows :
    (v : Version) (operator : Operator) (wanted : Version) (wildcard : Bool)
    → satisfies_clause v operator wanted wildcard ≡ allows v operator wanted wildcard
unfolding satisfies_clause allows
satisfies_clause-allows v operator wanted wildcard = by operator
  where
    n : ℕ
    n = max (length v) (length wanted)

    lt : tuple_lt (padded n v) (padded n wanted) ≡ before v wanted
    lt = tuple_lt-padded n v wanted (omega arith) (omega arith)

    gt : tuple_lt (padded n wanted) (padded n v) ≡ before wanted v
    gt = tuple_lt-padded n wanted v (omega arith) (omega arith)

    eq : (padded n v == padded n wanted) ≡ (not (before v wanted) && not (before wanted v))
    eq = padded-equal n v wanted (omega arith) (omega arith)

    series : (take (length wanted) v == wanted) ≡ in_series v wanted
    series = take-in_series v wanted

    by : (o : Operator) → satisfies_clause v o wanted wildcard ≡ allows v o wanted wildcard
    by equal = rw (eq, series) refl
    by identical = rw (eq, series) refl
    by differs = rw eq refl
    by less = lt
    by at_most = rw gt refl
    by greater = gt
    by at_least = rw lt refl
    by compatible = rw (lt, tuple_lt-padded_left v (compatible_ceiling wanted)) refl
    by caret = rw (lt, tuple_lt-padded_left v (caret_ceiling wanted)) refl
