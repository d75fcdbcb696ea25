-- ===== src/Findings/Suppressions/Partition.antt =====
-- Which findings findings/suppressions.py silences.
use coretrace_python_analyze.Findings.{
  FileLocation, Finding, Location, lines, file, SourceSpan, Deals, done, to_first, to_second,
}
use coretrace_python_analyze.Findings.Suppressions.{
  Reader, look_up, partition_from, partition, Suppressions, suppress, suppress_all, suppressions_in,
  silences, is_silenced, of_text, suppress_all,
}
use coretrace_python_analyze.Base.{
  Bool, List, Option, Option-cases, String, [], arith, contains, false, get, get-put, inl, inr,
  list_eq, nat_eq, none, option_eq, pair_eq, some, string_eq, true, ℕ, ◌&&◌, ◌==◌, ◌||◌, ◌∷◌, ◌≡◌,
  ==_iff, Bool-cases, ap, contains-union, if◌then◌else◌, put, refl, union, ◌∙◌, Dict, sym, ◌⊎◌,
}

module _ (reader : Reader) where
  -- A marker speaks of a rule: it has no brackets, or names the rule in them.
  unfoldable pub marks : Option (Option String) → String → Bool
  marks none rule = false
  marks (some none) rule = true
  marks (some (some rules)) rule = contains (reader.named rules) rule

  -- Some comment of the line has such a marker.
  unfoldable pub some_marks : List (ℕ × String) → ℕ → String → Bool
  unfolding marks
  some_marks [] line rule = false
  some_marks ((l, comment) ∷ rest) line rule =
      (line == l && marks (reader.marker comment) rule) || some_marks rest line rule

  -- The comments on the finding's first line tell whether it is silenced.
  unfoldable pub is_suppressed : (String → Option String) → Finding → Bool
  unfolding some_marks
  is_suppressed text_of f = elim f.span [
    | file _ ↦ false
    | lines span ↦ elim (text_of span.source_id) [
      | none ↦ false
      | some text ↦ some_marks (reader.comments text) span.start_line f.rule_id
    ]
  ]

  is_silenced-put :
      (found : Suppressions) (l : ℕ) (s : Option (List String)) (line : ℕ) (rule : String)
      → is_silenced (put l s found) line rule
        ≡ (if line == l then silences (some s) rule else is_silenced found line rule)
  unfolding is_silenced
  is_silenced-put found l s line rule =
      ap (λ entry. silences entry rule) (get-put l line s found)
      ∙ (elim (Bool-cases (line == l)) [ inl same ↦ rw same refl | inr other ↦ rw other refl ])

  is_silenced-get :
      (found : Suppressions) (line : ℕ) (rule : String) {entry : Option (Option (List String))}
      → get line found ≡ entry
      → is_silenced found line rule ≡ silences entry rule
  unfolding is_silenced
  is_silenced-get found line rule h = ap (λ entry. silences entry rule) h

  is_silenced-suppress :
      (found : Suppressions) (l : ℕ) (m : Option (Option String)) (line : ℕ) (rule : String)
      → is_silenced (suppress reader found l m) line rule
        ≡ (is_silenced found line rule || (line == l && marks m rule))
  unfolding suppress marks contains
  is_silenced-suppress found l none line rule = ground arith
  is_silenced-suppress found l (some none) line rule =
      ground (arith, is_silenced-put found l none line rule)
  is_silenced-suppress found l (some (some rules)) line rule = elim (Option-cases (get l found)) [
    | inl absent ↦
        rw (absent, suppress)
          (let p = is_silenced-put found l (some (union [] (reader.named rules))) line rule in
            let q = is_silenced-get found l rule absent in
            let u = contains-union [] (reader.named rules) rule in
            at_line _ false (contains (reader.named rules) rule) p q u)
    | inr (none, all) ↦
        rw (all, suppress)
          (let q = is_silenced-get found l rule all in
            elim (Bool-cases (line == l)) [
              | inl same ↦ rw ((==_iff line l).0 same, q) refl
              | inr other ↦ ground arith
            ])
    | inr (some listed, known) ↦
        rw (known, suppress)
          (let p = is_silenced-put found l (some (union listed (reader.named rules))) line rule in
            let q = is_silenced-get found l rule known in
            let u = contains-union listed (reader.named rules) rule in
            at_line _ (contains listed rule) (contains (reader.named rules) rule) p q u)
  ]
    where
      at_line :
          (after : Suppressions) (old new : Bool) {joined : Bool}
          → is_silenced after line rule
            ≡ (if line == l then joined else is_silenced found line rule)
          → is_silenced found l rule ≡ old
          → joined ≡ (old || new)
          → is_silenced after line rule ≡ (is_silenced found line rule || (line == l && new))
      at_line after old new p q u = elim (Bool-cases (line == l)) [
        | inl same ↦
            let g = ap (λ i. is_silenced found i rule) ((==_iff line l).0 same) in ground arith
        | inr other ↦ ground arith
      ]

  is_silenced-suppress_all :
      (comments : List (ℕ × String)) (found : Suppressions) (line : ℕ) (rule : String)
      → is_silenced (suppress_all reader found comments) line rule
        ≡ (is_silenced found line rule || some_marks comments line rule)
  unfolding suppress_all some_marks
  is_silenced-suppress_all [] found line rule = ground arith
  is_silenced-suppress_all ((l, comment) ∷ rest) found line rule =
      let h = is_silenced-suppress found l (reader.marker comment) line rule in
      let g =
        is_silenced-suppress_all rest (suppress reader found l (reader.marker comment)) line rule in
      ground arith

  is_silenced-of_text :
      (t : Option String) (line : ℕ) (rule : String)
      → is_silenced (of_text reader t) line rule
        ≡ (elim t [ none ↦ false | some text ↦ some_marks (reader.comments text) line rule ])
  unfolding of_text suppressions_in
  is_silenced-of_text none line rule = unfold is_silenced get in refl
  is_silenced-of_text (some text) line rule =
      is_silenced-suppress_all (reader.comments text) [] line rule
      ∙ (unfold is_silenced get in refl)

  module _ (text_of : String → Option String) where
    -- The cache holds what each file's own text says.
    abbrev pub IsFaithful : Dict String Suppressions → Type 0
    IsFaithful cache =
        (id : String) (s : Suppressions) → get id cache ≡ some s → s ≡ of_text reader (text_of id)

    IsFaithful-put :
        (cache : Dict String Suppressions) (id : String)
        → IsFaithful cache
        → IsFaithful (put id (of_text reader (text_of id)) cache)
    IsFaithful-put cache id h j s found = elim (Bool-cases (j == id)) [
      | inl same ↦
          let e = (==_iff j id).0 same in
          let g : some _ ≡ some s =
            rw (get-put id j (of_text reader (text_of id)) cache, same) at found in
          rw e (cc g)
      | inr other ↦ h j s (rw (get-put id j (of_text reader (text_of id)) cache, other) at found)
    ]

    look_up-IsFaithful :
        (cache : Dict String Suppressions) (id : String)
        → IsFaithful cache
        → ((look_up reader text_of cache id).0 ≡ of_text reader (text_of id))
          × IsFaithful (look_up reader text_of cache id).1
    unfolding look_up
    look_up-IsFaithful cache id h = elim (Option-cases (get id cache)) [
      | inl absent ↦ rw (absent, look_up) (refl, IsFaithful-put cache id h)
      | inr (s, found) ↦ rw (found, look_up) (h id s found, h)
    ]

    step_file :
        (f : Finding) (fs : List Finding) (cache : Dict String Suppressions) (l : FileLocation)
        → f.span ≡ file l
        → (is_suppressed text_of f ≡ false)
          × (partition_from reader text_of cache (f ∷ fs) ≡ (
            f ∷ (partition_from reader text_of cache fs).0,
            (partition_from reader text_of cache fs).1,
          ))
    unfolding partition_from is_suppressed
    step_file f fs cache l h = (rw h refl, simp h refl)

    step_lines :
        (f : Finding) (fs : List Finding) (cache : Dict String Suppressions) (span : SourceSpan)
        → f.span ≡ lines span
        → let read = look_up reader text_of cache span.source_id in
          let rest = partition_from reader text_of read.1 fs in
          (is_suppressed text_of f
            ≡ is_silenced (of_text reader (text_of span.source_id)) span.start_line f.rule_id)
          × (partition_from reader text_of cache (f ∷ fs) ≡ (
              if is_silenced read.0 span.start_line f.rule_id
              then (rest.0, f ∷ rest.1)
              else (f ∷ rest.0, rest.1)))
    unfolding partition_from is_suppressed
    step_lines f fs cache span h = (
      rw h (sym (is_silenced-of_text (text_of span.source_id) span.start_line f.rule_id)),
      simp h refl,
    )

    Location-cases :
        (l : Location) → ((s : SourceSpan) × (l ≡ lines s)) ⊎ ((p : FileLocation) × (l ≡ file p))
    Location-cases (lines s) = inl (s, refl)
    Location-cases (file p) = inr (p, refl)

    -- Whatever the cache holds of it, a finding is kept or suppressed by its own file's text.
    partition_from-Deals :
        (findings : List Finding) (cache : Dict String Suppressions)
        → IsFaithful cache
        → Deals
            (λ f. is_suppressed text_of f ≡ false)
            (λ f. is_suppressed text_of f ≡ true)
            findings
            (partition_from reader text_of cache findings).0
            (partition_from reader text_of cache findings).1
    partition_from-Deals [] cache h = unfold partition_from in done
    partition_from-Deals (f ∷ fs) cache h = elim (Location-cases f.span) [
      | inr (l, at) ↦
          let (kept, e) = step_file f fs cache l at in
          rw e (to_first kept (partition_from-Deals fs cache h))
      | inl (span, at) ↦
          let (by_text, e) = step_lines f fs cache span at in
          let (says_text, h') = look_up-IsFaithful cache span.source_id h in
          let read = look_up reader text_of cache span.source_id in
          let rest = partition_from-Deals fs read.1 h' in
          let same = by_text ∙ ap (λ s. is_silenced s span.start_line f.rule_id) (sym says_text) in
          elim (Bool-cases (is_silenced read.0 span.start_line f.rule_id)) [
            | inl silenced ↦ rw (e, silenced) (to_second (same ∙ silenced) rest)
            | inr not_silenced ↦ rw (e, not_silenced) (to_first (same ∙ not_silenced) rest)
          ]
    ]

    -- A finding is suppressed exactly when a comment of its file, on the first of its lines, has
    -- the marker and names its rule or none; a finding without a verified line is kept. Both lists
    -- keep the order of the findings.
    pub partition-is_suppressed :
        (findings : List Finding)
        → Deals
            (λ f. is_suppressed text_of f ≡ false)
            (λ f. is_suppressed text_of f ≡ true)
            findings
            (partition reader text_of findings).0
            (partition reader text_of findings).1
    unfolding partition get
    partition-is_suppressed findings = partition_from-Deals findings [] empty
      where
        empty : IsFaithful []
        empty id s found = absurd (cc found)
