-- ===== src/Dependency/Vex/NotAffected.antt =====
-- When dependency/vex.py says that a project is not affected.
use coretrace_python_analyze.Findings.{Finding}
use coretrace_python_analyze.Findings.Coverage.{Coverage, FileCoverage}
use coretrace_python_analyze.Dependency.Advisories.{Advisory, AdvisoryEntryPoint, reachable_symbols}
use coretrace_python_analyze.Dependency.Vex.{by_places, by_entries, by_coverage, by_templates}
use coretrace_python_analyze.Dependency.Vex.{
  reached_levels, Place, Status, not_affected, reached_from, is_partial, partial_paths, meets,
  by_dependents, status, place_of, higher,
}
use coretrace_python_analyze.Base.{
  All, Bool-cases, Dict, Eq, List, String, [], contains, false, get_or, inl, inr, list_eq, nat_eq,
  option_eq, pair_eq, put, refl, string_eq, ◌==◌, ◌↔◌, ◌∷◌, ◌≡◌, ◌≤◌, ==_iff, Option, arith, none,
  some, ◌≢◌, ◌⊎◌, Bool, true, ⊎_elim,
}

put-nonempty : {K V : Type 0} ⦃e : Eq K⦄ (k : K) (v : V) (d : Dict K V) → put k v d ≡ [] → ⊥
unfolding put
put-nonempty k v [] h = cc h
put-nonempty k v ((j, w) ∷ d) h = elim (Bool-cases (k == j)) [
  | inl same ↦ (let g = rw same at h in cc g)
  | inr other ↦ (let g = rw other at h in cc g)
]

by_dependents_iff : (o : Option (List String)) → (by_dependents o ≡ not_affected) ↔ (o ≡ some [])
unfolding by_dependents
by_dependents_iff none = (λ h. cc h, λ h. cc h)
by_dependents_iff (some []) = (λ h. refl, λ h. refl)
by_dependents_iff (some (p ∷ more)) = (λ h. cc h, λ h. cc h)

by_templates_iff :
    (unread : List String) (meet : Bool) (rest : Status)
    → (by_templates unread meet rest ≡ not_affected)
      ↔ (((unread ≡ []) ⊎ (meet ≡ false)) × (rest ≡ not_affected))
unfolding by_templates
by_templates_iff [] meet rest = (λ h. (inl refl, h), λ h. h.1)
by_templates_iff (t ∷ more) true rest =
    (λ h. cc h, λ h. absurd (⊎_elim (λ e. cc e) (λ e. cc e) h.0))
by_templates_iff (t ∷ more) false rest = (λ h. (inr refl, h), λ h. h.1)

by_coverage_iff :
    (partial : List String) (rest : Status)
    → (by_coverage partial rest ≡ not_affected) ↔ ((partial ≡ []) × (rest ≡ not_affected))
unfolding by_coverage
by_coverage_iff [] rest = (λ h. (refl, h), λ h. h.1)
by_coverage_iff (p ∷ more) rest = (λ h. cc h, λ h. absurd (cc h.0))

by_entries_iff :
    (entries : List AdvisoryEntryPoint) (rest : Status)
    → (by_entries entries rest ≡ not_affected) ↔ ((entries ≢ []) × (rest ≡ not_affected))
unfolding by_entries
by_entries_iff [] rest = (λ h. cc h, λ h. absurd (h.0 refl))
by_entries_iff (e ∷ more) rest = (λ h. (λ q. cc q, h), λ h. h.1)

by_places_iff :
    (places : Dict Place String) (rest : Status)
    → (by_places places rest ≡ not_affected) ↔ ((places ≡ []) × (rest ≡ not_affected))
unfolding by_places
by_places_iff [] rest = (λ h. (refl, h), λ h. h.1)
by_places_iff (p ∷ more) rest = (λ h. cc h, λ h. absurd (cc h.0))

module _ (relative : String → String) where
  -- The finding does not put the vulnerable code in the project's execution path.
  abbrev pub IsUnreached : Finding → Type 0
  IsUnreached f = contains reached_levels (get_or "level" "" f.metadata) ≡ false

  abbrev pub IsAnalysed : FileCoverage → Type 0
  IsAnalysed d = (d.status ≡ "analysed") × (d.functions ≤ d.analysed)

  reached_from-nil :
      (fs : List Finding) (levels : Dict Place String)
      → (reached_from relative levels fs ≡ []) ↔ ((levels ≡ []) × All IsUnreached fs)
  unfolding reached_from
  reached_from-nil [] levels = (λ h. (h, tt), λ h. h.0)
  reached_from-nil (f ∷ more) levels =
      elim (Bool-cases (contains reached_levels (get_or "level" "" f.metadata))) [
        | inl reached ↦
            let level = get_or "level" "" f.metadata in
            let after =
              put (place_of relative f) (higher level (get_or (place_of relative f) level levels))
                levels in
            (
              λ h.
                  let (none_left, _) = (reached_from-nil more after).0 (rw reached at h) in
                  absurd (put-nonempty (place_of relative f) _ levels none_left),
              λ h. absurd (cc (reached, h.1.0)),
            )
        | inr not_reached ↦ (
          λ h.
              let (empty, all) = (reached_from-nil more levels).0 (rw not_reached at h) in
              (empty, (not_reached, all)),
          λ h. rw not_reached ((reached_from-nil more levels).1 (h.0, h.1.1)),
        )
      ]

  is_partial_iff : (d : FileCoverage) → (is_partial d ≡ false) ↔ IsAnalysed d
  unfolding is_partial
  is_partial_iff d = ground (arith, ==_iff d.status "analysed")

  partial_paths-nil :
      (ds : List FileCoverage) → (partial_paths relative ds ≡ []) ↔ All IsAnalysed ds
  unfolding partial_paths
  partial_paths-nil [] = (λ h. tt, λ h. refl)
  partial_paths-nil (d ∷ more) = elim (Bool-cases (is_partial d)) [
    | inl partial ↦ (
      λ h. absurd (let g = rw partial at h in cc g),
      λ h. absurd (let g = (is_partial_iff d).1 h.0 in cc (partial, g)),
    )
    | inr full ↦ (
      λ h. ((is_partial_iff d).0 full, (partial_paths-nil more).0 (rw full at h)),
      λ h. rw full ((partial_paths-nil more).1 h.1),
    )
  ]

  -- All that a statement of "not affected" rests on.
  pub record IsRuledOut (template_calls : List String) (advisory : Advisory)
      (findings : List Finding) (dependents : Option (List String)) (coverage : Coverage)
      : Type 0 where
    pub unreached : All IsUnreached findings
    pub curated : advisory.entry_points ≢ []
    pub analysed : All IsAnalysed coverage.details
    pub templates :
        (coverage.unread_templates ≡ [])
        ⊎ (meets template_calls (reachable_symbols advisory) ≡ false)
    pub no_dependents : dependents ≡ some []

  -- A package is said not to be affected exactly where no finding reaches the vulnerable code, the
  -- advisory names entry points, every file and function was analysed, every template was read or
  -- none can reach a symbol of the advisory, and a lock file shows no other package that requires
  -- it.
  pub status-not_affected :
      (template_calls : List String) (advisory : Advisory) (findings : List Finding)
      (dependents : Option (List String)) (coverage : Coverage)
      → (status relative template_calls advisory findings dependents coverage ≡ not_affected)
        ↔ IsRuledOut template_calls advisory findings dependents coverage
  unfolding status
  status-not_affected calls a fs o c =
      let last = by_dependents o in
      let templates = by_templates c.unread_templates (meets calls (reachable_symbols a)) last in
      let covered = by_coverage (partial_paths relative c.details) templates in
      let entries = by_entries a.entry_points covered in
      (
        λ h.
            let (places, h1) = (by_places_iff (reached_from relative [] fs) entries).0 h in
            let (curated, h2) = (by_entries_iff a.entry_points covered).0 h1 in
            let (partial, h3) =
              (by_coverage_iff (partial_paths relative c.details) templates).0 h2 in
            let (read, h4) =
              (by_templates_iff c.unread_templates (meets calls (reachable_symbols a)) last).0 h3 in
            record {
              unreached = ((reached_from-nil fs []).0 places).1;
              curated = curated;
              analysed = (partial_paths-nil c.details).0 partial;
              templates = read;
              no_dependents = (by_dependents_iff o).0 h4;
            },
        λ r. (by_places_iff (reached_from relative [] fs) entries).1 (
          (reached_from-nil fs []).1 (refl, r.unreached),
          (by_entries_iff a.entry_points covered).1 (
            r.curated,
            (by_coverage_iff (partial_paths relative c.details) templates).1 (
              (partial_paths-nil c.details).1 r.analysed,
              (by_templates_iff c.unread_templates (meets calls (reachable_symbols a)) last).1
                  (r.templates, (by_dependents_iff o).1 r.no_dependents),
            ),
          ),
        ),
      )
