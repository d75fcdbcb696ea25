-- ===== src/Dependency/Tests.antt =====
-- Versions and ranges, and a requirement that `may_match` misses.
use coretrace_python_analyze.Findings.{high}
use coretrace_python_analyze.Findings.Coverage.{Coverage}
use coretrace_python_analyze.Dependency.Advisories.{Advisory}
use coretrace_python_analyze.Dependency.Vex.{status, not_affected}
use coretrace_python_analyze.Dependency.Vex.NotAffected.{IsRuledOut, status-not_affected}
use coretrace_python_analyze.Dependency.Versions.{
  Specifier, at_least, less, greater, compatible, satisfies, satisfies_clause, satisfies_all,
  may_match, any_satisfies, lower_bounds, clause_bounds, is_lower, padded, tuple_lt,
  compatible_ceiling, caret_ceiling,
}
use coretrace_python_analyze.Dependency.Versions.Clauses.{allows, satisfies_clause-allows}
use coretrace_python_analyze.Dependency.Versions.Matches.{is_inclusive, may_match_complete}
use coretrace_python_analyze.Base.{
  [], false, list_eq, nat_eq, none, option_eq, pair_eq, refl, string_eq, true, ◌∷◌, ◌≡◌, some, ◌↔◌,
}

-- ~=1.3.2, <2
abbrev series_1 : Specifier
series_1 =
    (record { operator = compatible; wanted = 1 ∷ 3 ∷ 2 ∷ []; wildcard = false }
      ∷ record { operator = less; wanted = 2 ∷ []; wildcard = false }
      ∷ [])
    ∷ []

satisfies_clause-allows_example :
    satisfies_clause (1 ∷ 3 ∷ []) compatible (1 ∷ 3 ∷ 0 ∷ []) false
    ≡ allows (1 ∷ 3 ∷ []) compatible (1 ∷ 3 ∷ 0 ∷ []) false
satisfies_clause-allows_example =
    satisfies_clause-allows (1 ∷ 3 ∷ []) compatible (1 ∷ 3 ∷ 0 ∷ []) false

-- >=1.2
abbrev from_1_2 : Specifier
from_1_2 = (record { operator = at_least; wanted = 1 ∷ 2 ∷ []; wildcard = false } ∷ []) ∷ []

may_match_complete_example :
    may_match (record { specifier = from_1_2; pinned = none }) series_1 ≡ true
may_match_complete_example =
    may_match_complete (record { specifier = from_1_2; pinned = none }) series_1 (1 ∷ 3 ∷ 7 ∷ [])
      refl (unfold is_inclusive in ((refl, tt), tt))
      (unfold is_inclusive in ((refl, (refl, tt)), tt))
      (unfold satisfies satisfies_all satisfies_clause padded tuple_lt compatible_ceiling
          caret_ceiling in
        refl)
      (unfold satisfies satisfies_all satisfies_clause padded tuple_lt compatible_ceiling
          caret_ceiling in
        refl)

-- >1.0 and <2.0: 1.5 is in both, and `may_match` tries 0 and 1.0 alone.
abbrev above_1 : Specifier
above_1 = (record { operator = greater; wanted = 1 ∷ 0 ∷ []; wildcard = false } ∷ []) ∷ []

abbrev below_2 : Specifier
below_2 = (record { operator = less; wanted = 2 ∷ 0 ∷ []; wildcard = false } ∷ []) ∷ []

above_1-below_2 :
    (satisfies (1 ∷ 5 ∷ []) above_1 ≡ true)
    × (satisfies (1 ∷ 5 ∷ []) below_2 ≡ true)
    × (may_match (record { specifier = above_1; pinned = none }) below_2 ≡ false)
unfolding satisfies satisfies_all satisfies_clause padded tuple_lt compatible_ceiling caret_ceiling
    may_match any_satisfies lower_bounds clause_bounds is_lower
above_1-below_2 = (refl, refl, refl)

-- An advisory with one entry point, and a project of one file.
abbrev advisory : Advisory
advisory = record {
  id = "A-1";
  «package» = "p";
  vulnerable = below_2;
  summary = "";
  severity = high;
  affected_symbols = "p.inner" ∷ [];
  aliases = [];
  entry_points =
      record {
        symbol = "p.load";
        justification = "";
        conditions = [];
        read = false;
        attacker_arguments = [];
        suffixes = [];
      }
      ∷ [];
  modules = "p" ∷ [];
}

abbrev coverage : Coverage
coverage = record {
  details = record { path = "a.py"; status = "analysed"; functions = 2; analysed = 2 } ∷ [];
  unread_templates = "t.html" ∷ [];
}

status-not_affected_example :
    (status (λ p. p) ("f" ∷ []) advisory [] (some []) coverage ≡ not_affected)
    ↔ IsRuledOut (λ p. p) ("f" ∷ []) advisory [] (some []) coverage
status-not_affected_example = status-not_affected (λ p. p) ("f" ∷ []) advisory [] (some []) coverage
