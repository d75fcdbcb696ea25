-- ===== src/Dependency/Vex.antt =====
-- dependency/vex.py: the status of an advisory for a package that the project requires.
pub mod NotAffected
use coretrace_python_analyze.Findings.{Finding, Location, lines, file, source_of}
use coretrace_python_analyze.Findings.Coverage.{Coverage, FileCoverage}
use coretrace_python_analyze.Dependency.Advisories.{Advisory, AdvisoryEntryPoint, reachable_symbols}
use coretrace_python_analyze.Base.{
  Bool, Dict, List, Option, String, [], contains, false, get_or, if◌then◌else◌, list_eq, ltb,
  nat_eq, none, not, option_eq, pair_eq, put, some, string_eq, ℕ, ◌&&◌, ◌==◌, ◌||◌, ◌∷◌, true,
}

-- Evidence levels that put the vulnerable code in the project's execution path, lowest first.
abbrev pub reached_levels : List String
reached_levels = "reachable" ∷ "exploitable" ∷ []

-- Path, line (0 where it is not known) and symbol.
abbrev pub Place : Type 0
Place = String × (ℕ × String)

-- Why a statement is under investigation: what its note says.
pub data Reason : Type 0 where
  no_entry_point : Reason
  not_fully_analysed : List String → Reason
  unread_templates : List String → Reason
  no_lock_file : Reason
  required_by : List String → Reason

pub data Status : Type 0 where
  affected : Dict Place String → Status
  under_investigation : Reason → Status
  not_affected : Status

-- The higher of two levels, the first where they are one.
unfoldable pub higher : String → String → String
higher level old = if level == "reachable" && old == "exploitable" then old else level

unfoldable pub is_partial : FileCoverage → Bool
is_partial d = not (d.status == "analysed") || ltb d.analysed d.functions

unfoldable pub meets : List String → List String → Bool
meets [] ys = false
meets (x ∷ xs) ys = contains ys x || meets xs ys

-- What the lock files say of the packages that require this one.
unfoldable pub by_dependents : Option (List String) → Status
by_dependents none = under_investigation no_lock_file
by_dependents (some []) = not_affected
by_dependents (some (p ∷ more)) = under_investigation (required_by (p ∷ more))

-- The steps of `_status`, each with the status of those after it.
unfoldable pub by_places : Dict Place String → Status → Status
by_places [] rest = rest
by_places (p ∷ more) rest = affected (p ∷ more)

unfoldable pub by_entries : List AdvisoryEntryPoint → Status → Status
by_entries [] rest = under_investigation no_entry_point
by_entries (_ ∷ _) rest = rest

unfoldable pub by_coverage : List String → Status → Status
by_coverage [] rest = rest
by_coverage (p ∷ more) rest = under_investigation (not_fully_analysed (p ∷ more))

unfoldable pub by_templates : List String → Bool → Status → Status
by_templates [] meet rest = rest
by_templates (t ∷ more) true rest = under_investigation (unread_templates (t ∷ more))
by_templates (t ∷ more) false rest = rest

-- The path relative to the root is a parameter.
module _ (relative : String → String) where
  unfoldable pub place_of : Finding → Place
  place_of f = (
    relative (source_of f.span),
    (elim f.span [ lines s ↦ s.start_line | file _ ↦ 0 ], get_or "symbol" "None" f.metadata),
  )

  -- The places that the findings reach, each at its highest level.
  unfoldable pub reached_from : Dict Place String → List Finding → Dict Place String
  unfolding higher place_of
  reached_from levels [] = levels
  reached_from levels (f ∷ more) =
      let level = get_or "level" "" f.metadata in
      reached_from
        (if contains reached_levels level
          then put (place_of f) (higher level (get_or (place_of f) level levels)) levels
          else levels)
        more

  unfoldable pub partial_paths : List FileCoverage → List String
  unfolding is_partial
  partial_paths [] = []
  partial_paths (d ∷ more) =
      let rest = partial_paths more in if is_partial d then relative d.path ∷ rest else rest

  -- `_status`, of the advisory's findings; `template_calls` is what a template may call.
  unfoldable pub status :
      List String → Advisory → List Finding → Option (List String) → Coverage → Status
  unfolding reached_from partial_paths
  status template_calls advisory findings dependents coverage =
      by_places (reached_from [] findings) (
        by_entries advisory.entry_points (
          by_coverage (partial_paths coverage.details) (
            by_templates coverage.unread_templates
              (meets template_calls (reachable_symbols advisory)) (by_dependents dependents))))
